-- ===== src/Domain/Pattern/Language.antt =====
-- The language of the e-mail expression, without a matcher: some text splits into its parts.
use notes_microservices.Prelude.{
  ℕ, ◌≤◌, ◌≡◌, refl, ap, ◌↔◌, inl, inr, true, ◌&&◌, List, [], ◌∷◌, ◌++◌, length, all, ◌==◌, arith,
  Bool-cases,
}
use notes_microservices.Domain.Pattern.{
  is_letter, is_host, is_local, matches_top, matches_host_rest, matches_host, matches_local_rest,
  matches_email,
}

-- A host: one or more host characters, a dot, and two or more letters.
pub record IsHost (s : List ℕ) : Type 0 where
  pub first : ℕ
  pub labels : List ℕ
  pub top : List ℕ
  pub split : s ≡ first ∷ (labels ++ b'.' ∷ top)
  pub first_host : is_host first ≡ true
  pub labels_host : all is_host labels ≡ true
  pub top_long : 2 ≤ length top
  pub top_letters : all is_letter top ≡ true

-- An address: one or more characters of a local part, an at sign, and a host.
pub record IsAddress (s : List ℕ) : Type 0 where
  pub first : ℕ
  pub local : List ℕ
  pub host : List ℕ
  pub split : s ≡ first ∷ (local ++ b'@' ∷ host)
  pub first_local : is_local first ≡ true
  pub local_local : all is_local local ≡ true
  pub host_host : IsHost host

host_rest_sound :
    (s : List ℕ)
    → matches_host_rest s ≡ true
    → (labels : List ℕ) × (top : List ℕ) × (s ≡ labels ++ b'.' ∷ top)
      × (all is_host labels ≡ true)
      × (matches_top top ≡ true)
unfolding matches_host_rest
host_rest_sound [] h = cc
host_rest_sound (c ∷ s) h = elim (Bool-cases (c == b'.' && matches_top s)) [
  | inl here ↦ ([], s, ground arith, refl, ground arith)
  | inr later ↦
      let (labels, top, split, hosts, tops) = host_rest_sound s (ground arith) in
      (c ∷ labels, top, cc, ground arith, tops)
]

host_rest_complete :
    (labels top : List ℕ)
    → all is_host labels ≡ true
    → matches_top top ≡ true
    → matches_host_rest (labels ++ b'.' ∷ top) ≡ true
unfolding matches_host_rest
host_rest_complete [] top h t = ground arith
host_rest_complete (c ∷ labels) top h t = ground (arith, host_rest_complete labels top)

local_rest_sound :
    (s : List ℕ)
    → matches_local_rest s ≡ true
    → (local : List ℕ) × (host : List ℕ) × (s ≡ local ++ b'@' ∷ host)
      × (all is_local local ≡ true)
      × (matches_host host ≡ true)
unfolding matches_local_rest
local_rest_sound [] h = cc
local_rest_sound (c ∷ s) h = elim (Bool-cases (c == b'@' && matches_host s)) [
  | inl here ↦ ([], s, ground arith, refl, ground arith)
  | inr later ↦
      let (local, host, split, locals, hosts) = local_rest_sound s (ground arith) in
      (c ∷ local, host, cc, ground arith, hosts)
]

local_rest_complete :
    (local host : List ℕ)
    → all is_local local ≡ true
    → matches_host host ≡ true
    → matches_local_rest (local ++ b'@' ∷ host) ≡ true
unfolding matches_local_rest
local_rest_complete [] host h t = ground arith
local_rest_complete (c ∷ local) host h t = ground (arith, local_rest_complete local host)

IsHost-sound : (s : List ℕ) → matches_host s ≡ true → IsHost s
unfolding matches_host
IsHost-sound [] h = cc
IsHost-sound (c ∷ s) h =
    let (labels, top, split, hosts, tops) = host_rest_sound s (ground arith) in
    record {
      first = c;
      labels = labels;
      top = top;
      split = cc;
      first_host = ground arith;
      labels_host = hosts;
      top_long = ground arith;
      top_letters = ground arith;
    }

host_complete : (s : List ℕ) → IsHost s → matches_host s ≡ true
unfolding matches_host
host_complete s h = rw h.split (ground (arith, host_rest_complete h.labels h.top))

email_sound : (s : List ℕ) → matches_email s ≡ true → IsAddress s
unfolding matches_email
email_sound [] h = cc
email_sound (c ∷ s) h =
    let (local, host, split, locals, hosts) = local_rest_sound s (ground arith) in
    record {
      first = c;
      local = local;
      host = host;
      split = ap (λ t. c ∷ t) split;
      first_local = ground arith;
      local_local = locals;
      host_host = IsHost-sound host hosts;
    }

email_complete : (s : List ℕ) → IsAddress s → matches_email s ≡ true
unfolding matches_email
email_complete s h =
    rw h.split
      (ground (arith, local_rest_complete h.local h.host, host_complete h.host h.host_host))

-- The matcher of e-mail addresses accepts exactly the texts that split into a local part, an at
-- sign and a host, as the expression says.
pub matches_email_iff : (s : List ℕ) → (matches_email s ≡ true) ↔ IsAddress s
matches_email_iff s = (email_sound s, email_complete s)
