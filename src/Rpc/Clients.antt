-- ===== src/Rpc/Clients.antt =====
-- The gateway's side: the methods of internal/adapters/grpc/clients.go over the generated stubs, which
-- take the value of the outgoing `authorization` key where the method sends one.
use Prim.Native.String.{◌++◌}
use notes_microservices.Prelude.{ℤ, String, Option, List, map}
use notes_microservices.Failure.{Err, sentinel, note_not_found, user_not_found}
use notes_microservices.Action.{Action, Result, ok, err, within}
use notes_microservices.Domain.{Note, User, zero_time}
use notes_microservices.Ports.{AuthBackend, NotesBackend}
use notes_microservices.Rpc.{
  Code, Rpc, Reply, reply, failed, ProtoNote, note_from_proto, ListNotesResponse, TokenResponse,
  token_pair_from_auth, UserProfileResponse, clamp_int32,
}
use notes_microservices.Rpc.Errors.{status_to_domain}

pub record NoteServiceClient (S : Type 0) : Type 0 where
  pub create_note : String → String → String → Rpc S ProtoNote
  pub get_note : String → String → Rpc S ProtoNote
  pub list_notes : String → ℤ → ℤ → Rpc S ListNotesResponse
  pub update_note : String → String → Option String → Option String → Rpc S ProtoNote
  pub delete_note : String → String → Rpc S (Unit {0})

pub record AuthServiceClient (S : Type 0) : Type 0 where
  pub register : String → String → String → Rpc S TokenResponse
  pub login : String → String → Rpc S TokenResponse
  pub refresh_tokens : String → Rpc S TokenResponse
  pub logout : String → Rpc S (Unit {0})
  pub get_user_profile : String → Rpc S UserProfileResponse

-- `outgoingContextWithToken`
abbrev pub bearer_of : String → String
bearer_of token = "Bearer " ++ token

module _ {ℓ κ} {A : Type ℓ} {B : Type κ} where
  abbrev pub received : (Code → String) → Err → (A → B) → Reply A → Result B
  received code_name not_found body (reply a) = ok (body a)
  received code_name not_found body (failed e) = err (status_to_domain code_name e not_found)

abbrev pub page_from_proto : ListNotesResponse → List Note × ℤ
page_from_proto r = (map note_from_proto r.notes, r.total_count)

abbrev pub user_from_proto : UserProfileResponse → User
user_from_proto r = record {
  id = r.user_id;
  email = r.email;
  username = r.username;
  password_hash = "";
  created_at = r.created_at;
  updated_at = zero_time;
}

module _ {S : Type 0} (code_name : Code → String) (c : NoteServiceClient S)
    (close : Action S (Unit {0})) where
  abbrev note_reply {ℓ κ} : {A : Type ℓ} {B : Type κ} → (A → B) → Reply A × S → Result B × S
  note_reply body (r, s) = (received code_name (sentinel note_not_found) body r, s)

  unfoldable pub notes_client : NotesBackend S
  unfolding clamp_int32
  notes_client = record {
    create_note = λ token title content s.
        note_reply note_from_proto (c.create_note (bearer_of token) title content s);
    get_note =
        λ token note_id s. note_reply note_from_proto (c.get_note (bearer_of token) note_id s);
    list_notes = λ token limit offset s.
        note_reply page_from_proto
          (c.list_notes (bearer_of token) (clamp_int32 limit) (clamp_int32 offset) s);
    update_note = λ token note_id title content s.
        note_reply note_from_proto (c.update_note (bearer_of token) note_id title content s);
    delete_note =
        λ token note_id s. note_reply (λ u. u) (c.delete_note (bearer_of token) note_id s);
    close = within "close notes grpc connection" close;
  }

module _ {S : Type 0} (code_name : Code → String) (c : AuthServiceClient S)
    (close : Action S (Unit {0})) where
  abbrev auth_reply {ℓ κ} : {A : Type ℓ} {B : Type κ} → (A → B) → Reply A × S → Result B × S
  auth_reply body (r, s) = (received code_name (sentinel user_not_found) body r, s)

  unfoldable pub auth_client : AuthBackend S
  auth_client = record {
    register = λ email username password s.
        auth_reply token_pair_from_auth (c.register email username password s);
    login = λ email password s. auth_reply token_pair_from_auth (c.login email password s);
    refresh_tokens = λ token s. auth_reply token_pair_from_auth (c.refresh_tokens token s);
    logout = λ token s. auth_reply (λ u. u) (c.logout token s);
    get_user_profile =
        λ token s. auth_reply user_from_proto (c.get_user_profile (bearer_of token) s);
    close = within "close auth grpc connection" close;
  }
