-- ===== src/App/Gateway/Profile/Kept.antt =====
-- The cache that `GetUserProfile` relies on, and the profiles in it.
use text.Mathlib.TextLemmas.{append_assoc, append_inj}
use notes_microservices.Prelude.{
  ℕ, ◌<◌, ◌≡◌, ◌≢◌, refl, sym, ap, ◌∙◌, ℤ, pos, String, true, false, Option, none, some, str_eq,
  str_neq, str_eq_refl, arith, if◌then◌else◌, eq_iff,
}
use notes_microservices.Action.{ok}
use notes_microservices.Domain.{User}
use notes_microservices.Ports.{Cache}
use notes_microservices.App.Gateway.Profile.{
  cached_profile, store_both, profile_cache_key, profile_token_hint_key,
}

-- A missing key reads as "".
abbrev pub shown : Option String → String
shown none = ""
shown (some value) = value

-- A key is given a value, or none.
abbrev pub put : String → Option String → (String → Option String) → String → Option String
put key value kept k = if str_eq k key then value else kept k

-- A cache that answers every call and keeps what it is given: `view s` are its values in the state s.
pub record IsMap {S : Type 0} (view : S → String → Option String) (cache : Cache S) : Type 0 where
  pub get-result : (key : String) (s : S) → (cache.get key s).0 ≡ ok (shown (view s key))
  pub get-view : (key k : String) (s : S) → view ((cache.get key s).1) k ≡ view s k
  pub set-result : (key value : String) (ttl : ℤ) (s : S) → (cache.set key value ttl s).0 ≡ ok tt
  pub set-view :
      (key value : String) (ttl : ℤ) (s : S) (k : String)
      → view ((cache.set key value ttl s).1) k ≡ put key (some value) (view s) k
  pub delete-result : (key : String) (s : S) → (cache.delete key s).0 ≡ ok tt
  pub delete-view :
      (key : String) (s : S) (k : String)
      → view ((cache.delete key s).1) k ≡ put key none (view s) k

keys-differ : (id hash : String) → profile_cache_key id ≢ profile_token_hint_key hash
keys-differ id hash same =
    str_neq "profile:us" "profile:to" refl
      (append_inj
        (sym (append_assoc "profile:us" "er:" id) ∙ same ∙ append_assoc "profile:to" "k:" hash)
        refl).0

module _ {S : Type 0} (cache : Cache S) where
  -- The state after the reads of `hint` and of the profile of `id`.
  abbrev pub after_reads : String → String → S → S
  after_reads hint id s = (cache.get (profile_cache_key id) ((cache.get hint s).1)).1

module _ {S : Type 0} (view : S → String → Option String) (cache : Cache S)
    (unmarshal : String → Option User) where
  -- The cache holds the profile `u` for a hint.
  pub record Holds (hint : String) (u : User) (s : S) : Type 0 where
    pub id : String
    pub json : String
    pub points : shown (view s hint) ≡ id
    pub named : id ≢ ""
    pub kept : shown (view s (profile_cache_key id)) ≡ json
    pub filled : json ≢ ""
    pub decoded : unmarshal json ≡ some u

  after_reads-view :
      IsMap view cache
      → (hint id k : String) (s : S) → view (after_reads cache hint id s) k ≡ view s k
  after_reads-view lawful hint id k s =
      lawful.get-view (profile_cache_key id) k ((cache.get hint s).1) ∙ lawful.get-view hint k s

  pub cached_profile-Holds :
      IsMap view cache
      → (hint : String) (remaining : ℕ) (u : User) (s : S) (h : Holds hint u s) → 0 < remaining
      → cached_profile cache unmarshal hint remaining s ≡ (some u, after_reads cache hint h.id s)
  unfolding cached_profile
  cached_profile-Holds lawful hint remaining u s h left =
      let first : (cache.get hint s).0 ≡ ok h.id = lawful.get-result hint s ∙ ap ok h.points in
      let then_read : (cache.get (profile_cache_key h.id) ((cache.get hint s).1)).0 ≡ ok h.json =
        lawful.get-result (profile_cache_key h.id) ((cache.get hint s).1)
        ∙ ap (λ v. ok (shown v)) (lawful.get-view hint (profile_cache_key h.id) s)
        ∙ ap ok h.kept in
      ground (arith, eq_iff h.id "", eq_iff h.json "")

  -- A profile that was read from the cache is one that it holds.
  pub cached_profile-held :
      IsMap view cache
      → (hint : String) (remaining : ℕ) (u : User) (s s' : S)
      → cached_profile cache unmarshal hint remaining s ≡ (some u, s')
      → (h : Holds hint u s) × (s' ≡ after_reads cache hint h.id s)
  unfolding cached_profile
  cached_profile-held lawful hint remaining u s s' hit =
      let id = shown (view s hint) in
      let json = shown (view s (profile_cache_key id)) in
      let first : (cache.get hint s).0 ≡ ok id = lawful.get-result hint s in
      let then_read : (cache.get (profile_cache_key id) ((cache.get hint s).1)).0 ≡ ok json =
        lawful.get-result (profile_cache_key id) ((cache.get hint s).1)
        ∙ ap (λ v. ok (shown v)) (lawful.get-view hint (profile_cache_key id) s) in
      let named : id ≢ "" = ground (arith, eq_iff id "") in
      let filled : json ≢ "" = ground (arith, eq_iff json "") in
      let decoded : unmarshal json ≡ some u = ground (arith, eq_iff json "") in
      (
        record {
          id = id;
          json = json;
          points = refl;
          named = named;
          kept = refl;
          filled = filled;
          decoded = decoded;
        },
        ground arith,
      )

  pub Holds-after_reads :
      IsMap view cache
      → (hint id : String) (u : User) (s : S) (h : Holds hint u s)
      → (k : Holds hint u (after_reads cache hint id s)) × (k.id ≡ h.id)
  Holds-after_reads lawful hint id u s h = (
    record {
      id = h.id;
      json = h.json;
      points = ap shown (after_reads-view lawful hint id hint s) ∙ h.points;
      named = h.named;
      kept = ap shown (after_reads-view lawful hint id (profile_cache_key h.id) s) ∙ h.kept;
      filled = h.filled;
      decoded = h.decoded;
    },
    refl,
  )

  -- What the cache holds it holds in every state with the same values.
  pub Holds-same :
      (hint : String) (u : User) (s later : S)
      → ((key : String) → view later key ≡ view s key)
      → Holds hint u s
      → Holds hint u later
  Holds-same hint u s later same h = record {
    id = h.id;
    json = h.json;
    points = ap shown (same hint) ∙ h.points;
    named = h.named;
    kept = ap shown (same (profile_cache_key h.id)) ∙ h.kept;
    filled = h.filled;
    decoded = h.decoded;
  }

  -- The two writes after a fetch.
  pub store_both-Holds :
      IsMap view cache
      → (hash json : String) (ttl : ℕ) (u : User) (s : S) → u.id ≢ ""
      → json ≢ ""
      → unmarshal json ≡ some u
      → Holds
          (profile_token_hint_key hash)
          u
          (store_both cache (profile_token_hint_key hash) ttl u (some json) s)
  store_both-Holds lawful hash json ttl u s named filled decoded =
      let hint = profile_token_hint_key hash in
      let s1 = (cache.set (profile_cache_key u.id) json (pos ttl) s).1 in
      let apart : str_eq (profile_cache_key u.id) hint ≡ false =
        ground (arith, eq_iff (profile_cache_key u.id) hint, keys-differ u.id hash) in
      let same : str_eq (profile_cache_key u.id) (profile_cache_key u.id) ≡ true =
        str_eq_refl (profile_cache_key u.id) in
      let same_hint : str_eq hint hint ≡ true = str_eq_refl hint in
      let given = lawful.set-view hint u.id (pos ttl) s1 hint in
      let other = lawful.set-view hint u.id (pos ttl) s1 (profile_cache_key u.id) in
      let before =
        lawful.set-view (profile_cache_key u.id) json (pos ttl) s (profile_cache_key u.id) in
      record {
        id = u.id;
        json = json;
        points = ground arith;
        named = named;
        kept = ground arith;
        filled = filled;
        decoded = decoded;
      }
