-- ===== src/Postgres/Live.antt =====
-- How many live refresh tokens a user has, and the methods of the repositories that leave it so.
use mathlib.Core.Path.{subst}
use notes_microservices.Prelude.{
  ℕ, zero, suc, ◌+◌, ◌≤◌, ◌≡◌, sym, ap, ◌∙◌, true, Bool, String, some, find, find-holds, str_eq,
  not, ◌&&◌, inl, inr, Bool-cases, arith, count, update, select, List, [], ◌∷◌, ◌++◌,
}
use notes_microservices.Failure.{invalid_refresh_token}
use notes_microservices.Action.{Result, pure}
use notes_microservices.Domain.{Time, User, RefreshToken}
use notes_microservices.Postgres.Stays.{
  Stays, Stays-pure, Stays-fail, Stays-within, Stays-statement, Stays-scan_one, Stays-bind,
  Stays-handle,
}
use notes_microservices.Postgres.Store.{Server, select_one}
use notes_microservices.Postgres.Notes.{require_rows}
use notes_microservices.Postgres.Users
use notes_microservices.Postgres.Users.{has_id, find_user}
use notes_microservices.Postgres.Tokens
use notes_microservices.Postgres.Tokens.{
  has_token, is_active, of_user, revoked, revoke_rows, cleanup_rows, revoke_all_rows,
}
use notes_microservices.Postgres.Tokens.Atomic.{IsWhole, IsExchanged, rotate_refresh_token-IsWhole}

abbrev pub is_live : String → RefreshToken → Bool
is_live user t = of_user user t && not t.is_revoked

-- A user has `n` tokens that are not revoked, or fewer.
abbrev pub AtMost : String → ℕ → List User → List RefreshToken → Type 0
AtMost user n us ts = count (is_live user) ts ≤ n

count-revoked :
    (user : String) (p : RefreshToken → Bool) (ts : List RefreshToken)
    → count (is_live user) (update p revoked ts) ≤ count (is_live user) ts
count-revoked user p [] = omega arith
count-revoked user p (t ∷ ts) = ground (arith, count-revoked user p ts)

count-select :
    (user : String) (p : RefreshToken → Bool) (ts : List RefreshToken)
    → count (is_live user) (select p ts) ≤ count (is_live user) ts
count-select user p [] = omega arith
count-select user p (t ∷ ts) = ground (arith, count-select user p ts)

-- The revocation of a live row is one live row less.
count-consumed :
    (user : String) (p : RefreshToken → Bool) (ts : List RefreshToken) (active : RefreshToken)
    → find p ts ≡ some active
    → is_live user active ≡ true
    → count (is_live user) (update p revoked ts) + 1 ≤ count (is_live user) ts
count-consumed user p [] active found live = cc
count-consumed user p (t ∷ ts) active found live = elim (Bool-cases (p t)) [
  | inl hit ↦ (let less = count-revoked user p ts in ground arith)
  | inr miss ↦ (let less = count-consumed user p ts active (ground arith) live in ground arith)
]

count-append :
    (user : String) (ts : List RefreshToken) (t : RefreshToken)
    → count (is_live user) (ts ++ t ∷ []) ≡ count (is_live user) ts + count (is_live user) (t ∷ [])
count-append user [] t = ground arith
count-append user (x ∷ ts) t = ground (arith, count-append user ts t)

revoked-AtMost :
    (user : String) (p : RefreshToken → Bool) (ts : List RefreshToken) {n : ℕ}
    → count (is_live user) ts ≤ n
    → count (is_live user) (update p revoked ts) ≤ n
revoked-AtMost user p ts h = omega (arith, h, count-revoked user p ts)

select-AtMost :
    (user : String) (p : RefreshToken → Bool) (ts : List RefreshToken) {n : ℕ}
    → count (is_live user) ts ≤ n
    → count (is_live user) (select p ts) ≤ n
select-AtMost user p ts h = omega (arith, h, count-select user p ts)

-- The row that takes the place of a consumed one is of the same user.
exchanged-count :
    (user hash : String) (at : Time) (ts : List RefreshToken) (active row : RefreshToken)
    → find (is_active at hash) ts ≡ some active
    → row.user_id ≡ active.user_id
    → count (is_live user) (update (is_active at hash) revoked ts ++ row ∷ [])
      ≤ count (is_live user) ts
exchanged-count user hash at ts active row found owner =
    let holds = find-holds (is_active at hash) ts active found in
    let added = count-append user (update (is_active at hash) revoked ts) row in
    let less = count-revoked user (is_active at hash) ts in
    let same : of_user user row ≡ of_user user active = ap (λ id. str_eq id user) owner in
    elim (Bool-cases (of_user user active)) [
      | inl his ↦
          (let fewer = count-consumed user (is_active at hash) ts active found (ground arith) in
            ground arith)
      | inr another ↦ ground arith
    ]

IsExchanged-AtMost :
    (user hash : String) (n : ℕ) (new old : RefreshToken) (before after : List RefreshToken)
    → IsExchanged hash new old before after
    → count (is_live user) before ≤ n
    → count (is_live user) after ≤ n
IsExchanged-AtMost user hash n new old before after made h =
    let added = made.inserted in
    let owner : added.row.user_id ≡ made.active.user_id =
      added.user_id ∙ ap (λ (t : RefreshToken). t.user_id) made.is_old in
    let kept = exchanged-count user hash made.at before made.active added.row made.found owner in
    let counted = ap (count (is_live user)) added.rows in omega (arith, h, kept, counted)

IsWhole-AtMost :
    (user hash : String) (n : ℕ) (new : RefreshToken) (before : List RefreshToken)
    (r : Result RefreshToken) (after : List RefreshToken)
    → IsWhole hash new before r after
    → count (is_live user) before ≤ n
    → count (is_live user) after ≤ n
IsWhole-AtMost user hash n new before r after (inl (old, made, exchanged)) h =
    IsExchanged-AtMost user hash n new old before after exchanged h
IsWhole-AtMost user hash n new before r after (inr (inl (e, failed, same))) h =
    subst (λ ts. count (is_live user) ts ≤ n) (sym same) h
IsWhole-AtMost user hash n new before r after (inr (inr (e, old, failed, exchanged))) h =
    IsExchanged-AtMost user hash n new old before after exchanged h

module _ (sv : Server) (user : String) (n : ℕ) where
  find_user-Stays :
      (query : User → Bool) (name : String) → Stays (AtMost user n) (find_user sv query name)
  unfolding find_user
  find_user-Stays query name =
      Stays-handle (select_one sv (λ d. find query d.users)) pure _ (Stays-scan_one _ (λ d c. c))
        (λ a. Stays-pure a) (λ e. Stays-fail _)

  pub find_by_id-Stays : (id : String) → Stays (AtMost user n) (Users.find_by_id sv id)
  unfolding Users.find_by_id
  find_by_id-Stays id = find_user-Stays (has_id id) "users.FindByID"

  pub find_by_token-Stays : (hash : String) → Stays (AtMost user n) (Tokens.find_by_token sv hash)
  unfolding Tokens.find_by_token
  find_by_token-Stays hash =
      Stays-handle (select_one sv (λ d. find (has_token hash) d.tokens)) pure _
        (Stays-scan_one _ (λ d c. c)) (λ a. Stays-pure a) (λ e. Stays-fail _)

  required-Stays : (rows : ℕ) → Stays (AtMost user n) (require_rows sv invalid_refresh_token rows)
  required-Stays zero = Stays-fail _
  required-Stays (suc rows) = Stays-pure _

  pub revoke_token-Stays : (hash : String) → Stays (AtMost user n) (Tokens.revoke_token sv hash)
  unfolding Tokens.revoke_token revoke_rows
  revoke_token-Stays hash =
      Stays-bind _ _
        (Stays-within _ _ (Stays-statement _ (λ d c. revoked-AtMost user _ d.tokens c)))
        required-Stays

  pub revoke_all-Stays : (id : String) → Stays (AtMost user n) (Tokens.revoke_all_user_tokens sv id)
  unfolding Tokens.revoke_all_user_tokens revoke_all_rows
  revoke_all-Stays id =
      Stays-within _ _ (Stays-statement _ (λ d c. revoked-AtMost user _ d.tokens c))

  pub cleanup-Stays : Stays (AtMost user n) (Tokens.cleanup_expired_tokens sv)
  unfolding Tokens.cleanup_expired_tokens cleanup_rows
  cleanup-Stays = Stays-within _ _ (Stays-statement _ (λ d c. select-AtMost user _ d.tokens c))

  pub rotate-Stays :
      (hash : String) (new : RefreshToken)
      → Stays (AtMost user n) (Tokens.rotate_refresh_token sv hash (some new))
  rotate-Stays hash new = record {
    at = λ db h.
        let (r, after) = Tokens.rotate_refresh_token sv hash (some new) db in
        IsWhole-AtMost user hash n new db.tokens r after.tokens
          (rotate_refresh_token-IsWhole sv hash new db) h;
  }
