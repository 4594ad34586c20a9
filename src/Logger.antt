-- ===== src/Logger.antt =====
-- internal/logger/logger.go and internal/authctx/authctx.go: the global logger and the values of a
-- request's context. A core of go.uber.org/zap is a value of the parameter `Z`; a `*Logger` is nil, or
-- holds such a core or nil, and a nil context is `none`.
pub mod Values
pub mod Lines
pub mod Sample
use notes_microservices.Prelude.{
  ℕ, ℤ, pos, negsuc, String, Bool, true, false, not, Option, none, some, List, [], ◌∷◌, ◌++◌,
  str_eq, if◌then◌else◌,
}
use notes_microservices.Failure.{Err}
use notes_microservices.Action.{Action, Result, ok, err, context_of}

abbrev pub request_id : String
request_id = "request_id"

abbrev pub development : String
development = "development"

abbrev pub production : String
production = "production"

-- `zapcore.Level`, an int8 of which these three are named here.
abbrev pub debug_level : ℤ
debug_level = negsuc 0

abbrev pub info_level : ℤ
info_level = pos 0

abbrev pub warn_level : ℤ
warn_level = pos 1

-- What a `zap.Config` starts from, and its level.
pub record ZapConfig : Type 0 where
  pub is_production : Bool
  pub level : ℤ

-- The fields of a log line that are made here: `zap.String`, `zap.Int`, `zap.Duration`, and `zap.Error`
-- with the text of the error.
pub data Field : Type 0 where
  string : String → String → Field
  int : String → ℕ → Field
  duration : String → ℕ → Field
  error_field : String → Field

-- The three methods of a core, with `Build` of a configuration and `NewNop`.
pub record Zap (Z : Type 0) : Type 0 where
  pub parse_level : String → Result ℤ
  pub build : ZapConfig → Result Z
  pub nop : Z
  pub named : Z → String → Z
  pub attach : Z → List Field → Z

-- The values of a context under the keys of the two packages.
pub record Context (Z : Type 0) : Type 0 where
  pub logger : Option (Option Z)
  pub id : Option String
  pub bearer_token : Option String
  pub user_id : Option String

abbrev text_or_empty : Option String → String
text_or_empty none = ""
text_or_empty (some value) = value

module _ {Z : Type 0} where
  -- `context.Background()`
  abbrev pub background : Context Z
  background = record { logger = none; id = none; bearer_token = none; user_id = none }

  abbrev or_background : Option (Context Z) → Context Z
  or_background none = background
  or_background (some ctx) = ctx

  -- `*Logger`
  abbrev pub nil_checking : Option (Option Z) → Bool
  nil_checking none = true
  nil_checking (some none) = true
  nil_checking (some (some core)) = false

  -- `SetGlobalLogger` on the global pointer.
  unfoldable pub set_global_logger : Option (Option Z) → Option Z → Option Z
  set_global_logger none old = old
  set_global_logger (some none) old = old
  set_global_logger (some (some core)) old = some core

  -- `ContextWithLogger`
  unfoldable pub context_with_logger : Option (Context Z) → Option (Option Z) → Context Z
  context_with_logger ctx lg =
      if nil_checking lg then or_background ctx else record (or_background ctx) { logger = lg }

  -- `NewRequestIDContext`; `pid` is the process id as a text.
  unfoldable pub new_request_id_context : String → Option (Context Z) → String → Context Z
  new_request_id_context pid ctx request_id = record (or_background ctx) {
    id = some (if str_eq request_id "" then pid else request_id);
  }

  -- `RequestIDFromContext`
  unfoldable pub request_id_from_context : Option (Context Z) → String
  request_id_from_context none = ""
  request_id_from_context (some ctx) = text_or_empty ctx.id

  -- `addRequestID`
  unfoldable pub add_request_id : Option (Context Z) → List Field → List Field
  unfolding request_id_from_context
  add_request_id none fields = fields
  add_request_id (some ctx) fields =
      let id = request_id_from_context (some ctx) in
      if not (str_eq id "") then fields ++ string request_id id ∷ [] else fields

  -- authctx: `WithBearerToken`, `BearerTokenFrom`, `WithUserID` and `UserIDFrom`.
  unfoldable pub with_bearer_token : Context Z → String → Context Z
  with_bearer_token ctx token = record ctx { bearer_token = some token }

  unfoldable pub bearer_token_from : Option (Context Z) → String
  bearer_token_from none = ""
  bearer_token_from (some ctx) = text_or_empty ctx.bearer_token

  unfoldable pub with_user_id : Context Z → String → Context Z
  with_user_id ctx id = record ctx { user_id = some id }

  unfoldable pub user_id_from : Option (Context Z) → String
  user_id_from none = ""
  user_id_from (some ctx) = text_or_empty ctx.user_id

module _ {Z : Type 0} (zap : Zap Z) where
  abbrev named_fallback : Result Z → Z
  named_fallback (ok core) = zap.named core "fallback"
  named_fallback (err e) = zap.nop

  unfoldable pub build_fallback_logger : Z
  build_fallback_logger =
      named_fallback (zap.build (record { is_production = true; level = warn_level }))

  abbrev level_or_default : String → Result ℤ → ℤ
  level_or_default env (ok level) = level
  level_or_default env (err e) = if str_eq env production then info_level else debug_level

  -- `NewLogger`
  unfoldable pub new_logger : String → String → Result Z
  new_logger env level = context_of "build zap logger" (
      zap.build (record {
        is_production = str_eq env production;
        level = level_or_default env (zap.parse_level level);
      }))

  -- `Global`, where no other goroutine stores a logger meanwhile: the logger and the pointer.
  unfoldable pub global : Option Z → Z × Option Z
  unfolding build_fallback_logger
  global (some core) = (core, some core)
  global none = (build_fallback_logger, some build_fallback_logger)

  abbrev log_value : Option (Option Z) → Option Z → Option Z × Option Z
  log_value (some core) pointer = (core, pointer)
  log_value none pointer = let (core, pointer') = global pointer in (some core, pointer')

  -- `Log`: the core of the logger, which a logger in the context may lack, and the global pointer.
  unfoldable pub log : Option (Context Z) → Option Z → Option Z × Option Z
  unfolding global
  log none pointer = log_value none pointer
  log (some ctx) pointer = log_value ctx.logger pointer

  -- `With`
  unfoldable pub with_fields : Option Z → List Field → Option Z
  with_fields none fields = none
  with_fields (some core) fields = some (zap.attach core fields)

  -- `Method`
  unfoldable pub method : Option (Context Z) → String → Option Z → Option Z × Option Z
  unfolding log with_fields
  method ctx name pointer =
      let (core, pointer') = log ctx pointer in
      (with_fields core (string "method" name ∷ []), pointer')
