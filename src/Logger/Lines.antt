-- ===== src/Logger/Lines.antt =====
-- `Info`, `Warn`, `Error`, `Debug` and `Sync` of internal/logger/logger.go: each calls the core's method
-- of its name. A line is such a call; which of them the core writes out is zap's.
use notes_microservices.Prelude.{
  ◌≡◌, ◌≢◌, refl, ap, String, Bool, true, false, Option, none, some, List, [], ◌∷◌, ◌++◌, any,
  str_eq, eq_iff, arith, ◌&&◌, map, All, All-append, append_assoc, str_eq_refl,
}
use notes_microservices.Failure.{Err, wrap}
use notes_microservices.Logger.{
  Context, Field, string, int, duration, error_field, request_id, add_request_id,
  request_id_from_context,
}

pub data LogLevel : Type 0 where
  at_debug at_info at_warn at_error : LogLevel

pub record Line (Z : Type 0) : Type 0 where
  pub core : Z
  pub level : LogLevel
  pub message : String
  pub fields : List Field

abbrev flushed : Option Err → Option Err
flushed none = none
flushed (some e) = some (wrap "flush logger" e)

-- Whether a field is the request id `id`.
abbrev pub is_request_id : String → Field → Bool
is_request_id id (string key value) = str_eq key request_id && str_eq value id
is_request_id id (int key value) = false
is_request_id id (duration key value) = false
is_request_id id (error_field value) = false

any_last :
    {A : Type 0} (p : A → Bool) (xs : List A) (y : A) → p y ≡ true → any p (xs ++ y ∷ []) ≡ true
any_last p [] y h = ground arith
any_last p (x ∷ xs) y h = ground (arith, any_last p xs y)

module _ {Z : Type 0} where
  -- A method of a logger that is not nil, whose core may be: what it adds to the lines so far.
  unfoldable pub write :
      LogLevel → Option Z → Option (Context Z) → String → List Field → List (Line Z) → List (Line Z)
  write level none ctx msg fields lines = lines
  write level (some core) ctx msg fields lines =
      lines
      ++ record { core = core; level = level; message = msg; fields = add_request_id ctx fields }
        ∷ []

  abbrev pub log_info :
      Option Z → Option (Context Z) → String → List Field → List (Line Z) → List (Line Z)
  log_info = write at_info

  abbrev pub log_warn :
      Option Z → Option (Context Z) → String → List Field → List (Line Z) → List (Line Z)
  log_warn = write at_warn

  abbrev pub log_error :
      Option Z → Option (Context Z) → String → List Field → List (Line Z) → List (Line Z)
  log_error = write at_error

  abbrev pub log_debug :
      Option Z → Option (Context Z) → String → List Field → List (Line Z) → List (Line Z)
  log_debug = write at_debug

  -- `Sync`; `flush` is the core's.
  unfoldable pub sync : (Z → Option Err) → Option Z → Option Err
  sync flush none = none
  sync flush (some core) = flushed (flush core)

  -- Whether a line has the request id `id`.
  abbrev pub has_request_id : String → Line Z → Bool
  has_request_id id line = any (is_request_id id) line.fields

  -- Lines of these levels, each with the request id `id`, stand at the end of `after`, behind `before`.
  abbrev pub Adds : String → List LogLevel → List (Line Z) → List (Line Z) → Type 0
  Adds id levels before after =
      (added : List (Line Z)) × (after ≡ before ++ added)
      × (map (λ line. line.level) added ≡ levels)
      × All (λ line. has_request_id id line ≡ true) added

  add_request_id-any :
      (ctx : Context Z) (fields : List Field)
      → request_id_from_context (some ctx) ≢ ""
      → any (is_request_id (request_id_from_context (some ctx))) (add_request_id (some ctx) fields)
        ≡ true
  unfolding add_request_id
  add_request_id-any ctx fields filled =
      let id = request_id_from_context (some ctx) in
      ground (
        arith,
        eq_iff id "",
        any_last (is_request_id id) fields (string request_id id),
        str_eq_refl id,
        str_eq_refl request_id,
      )

  -- A line that is logged in a context with a request id has it.
  pub write-Adds :
      (level : LogLevel) (core : Z) (ctx : Context Z) (msg : String) (fields : List Field)
      (lines : List (Line Z))
      → request_id_from_context (some ctx) ≢ ""
      → Adds
          (request_id_from_context (some ctx))
          (level ∷ [])
          lines
          (write level (some core) (some ctx) msg fields lines)
  unfolding write
  write-Adds level core ctx msg fields lines filled =
      (_, refl, refl, (add_request_id-any ctx fields filled, tt))

  levels-append :
      (xs ys : List (Line Z))
      → map (λ line. line.level) (xs ++ ys)
        ≡ map (λ line. line.level) xs ++ map (λ line. line.level) ys
  levels-append [] ys = refl
  levels-append (x ∷ xs) ys = ap (λ levels. x.level ∷ levels) (levels-append xs ys)

  pub Adds-trans :
      (id : String) (ls ls' : List LogLevel) (xs ys zs : List (Line Z))
      → Adds id ls xs ys
      → Adds id ls' ys zs
      → Adds id (ls ++ ls') xs zs
  Adds-trans id ls ls' xs ys zs (a, ea, la, ha) (b, eb, lb, hb) = (
    a ++ b,
    rw (eb, ea, append_assoc xs a b) refl,
    rw (levels-append a b, la, lb) refl,
    All-append (λ line. has_request_id id line ≡ true) a b ha hb,
  )
