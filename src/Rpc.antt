-- ===== src/Rpc.antt =====
-- internal/adapters/grpc: what goes over the wire between the gateway and the services. The messages
-- of api/ are records, and a timestamp is the time it stands for.
mod Tests
pub mod Errors
pub mod Access
pub mod RequestId
pub mod Interceptor
pub mod Connection
pub mod Server
pub mod Handlers
pub mod Clients
use notes_microservices.Prelude.{
  ℕ, ℤ, pos, negsuc, String, Option, List, gtb_ℤ, is_neg, if◌then◌else◌,
}
use notes_microservices.Failure.{Err}
use notes_microservices.Action.{Result, ok, err}
use notes_microservices.Domain.{Time, Note, TokenPair}

-- The codes of google.golang.org/grpc/codes.
pub data Code : Type 0 where
  code_canceled code_unknown code_invalid_argument code_deadline_exceeded code_not_found
        code_already_exists code_permission_denied code_resource_exhausted code_failed_precondition
        code_aborted code_out_of_range code_unimplemented code_internal code_unavailable
        code_data_loss code_unauthenticated :
      Code

-- An error of a call: a status, or what `status.FromError` does not take for one.
pub data RpcError : Type 0 where
  status : Code → String → RpcError
  unknown : Err → RpcError

pub data Reply {ℓ} (A : Type ℓ) : Type ℓ where
  reply : A → Reply A
  failed : RpcError → Reply A

-- A call or a handler of a call, over the state `S` of the two sides.
abbrev pub Rpc {ℓ κ} : Type ℓ → Type κ → Type (ℓ ⊔ κ)
Rpc S A = S → Reply A × S

module _ {ℓ κ} {S : Type ℓ} {A : Type κ} where
  abbrev pub refuse : Code → String → Rpc S A
  refuse c m s = (failed (status c m), s)

-- Answers of a use case, and what an error of it becomes on the wire.
module _ {ℓ κ} {A : Type ℓ} {B : Type κ} where
  abbrev pub answer : (Err → RpcError) → (A → B) → Result A → Reply B
  answer on_error body (ok a) = reply (body a)
  answer on_error body (err e) = failed (on_error e)

pub record ProtoNote : Type 0 where
  pub note_id : String
  pub user_id : String
  pub title : String
  pub content : String
  pub created_at : Time
  pub updated_at : Time

abbrev pub note_to_proto : Note → ProtoNote
note_to_proto n = record {
  note_id = n.id;
  user_id = n.user_id;
  title = n.title;
  content = n.content;
  created_at = n.created_at;
  updated_at = n.updated_at;
}

abbrev pub note_from_proto : ProtoNote → Note
note_from_proto p = record {
  id = p.note_id;
  user_id = p.user_id;
  title = p.title;
  content = p.content;
  created_at = p.created_at;
  updated_at = p.updated_at;
}

pub record ListNotesResponse : Type 0 where
  pub notes : List ProtoNote
  pub total_count : ℤ
  pub offset : ℤ
  pub limit : ℤ

-- The responses to Register, Login and RefreshTokens have the same fields.
pub record TokenResponse : Type 0 where
  pub user_id : String
  pub username : String
  pub access_token : String
  pub refresh_token : String
  pub expires_at : Time

abbrev pub token_response : TokenPair → TokenResponse
token_response p = record {
  user_id = p.user_id;
  username = p.username;
  access_token = p.access_token;
  refresh_token = p.refresh_token;
  expires_at = p.expires_at;
}

abbrev pub token_pair_from_auth : TokenResponse → TokenPair
token_pair_from_auth r = record {
  expires_at = r.expires_at;
  user_id = r.user_id;
  username = r.username;
  access_token = r.access_token;
  refresh_token = r.refresh_token;
}

pub record UserProfileResponse : Type 0 where
  pub user_id : String
  pub email : String
  pub username : String
  pub created_at : Time

abbrev pub max_int32 : ℕ
max_int32 = 2147483647

-- `clampNonNegative32` and `clampInt32`, which test in the same order.
unfoldable pub clamp_int32 : ℤ → ℤ
clamp_int32 value =
    if gtb_ℤ value max_int32 then pos max_int32 else if is_neg value then pos 0 else value
