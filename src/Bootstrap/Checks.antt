-- ===== src/Bootstrap/Checks.antt =====
-- Which configurations the auth service starts with.
use notes_microservices.Prelude.{
  ◌≤◌, ◌≡◌, ◌≢◌, ◌↔◌, String, len, false, none, some, str_eq, trim_space, arith, eq_iff, Bool-cases,
  Option-cases, inl, inr, ap,
}
use notes_microservices.Config.{Config, JwtConfig, resolved_access_secret, resolved_refresh_secret}
use notes_microservices.Bootstrap.{ensure_auth_jwt}

-- A configuration with a JWT section whose two secrets have 32 bytes or more and differ.
pub record HasSecrets (cfg : Config) : Type 0 where
  pub section : JwtConfig
  pub is_section : cfg.jwt ≡ some section
  pub long_access : 32 ≤ len (resolved_access_secret cfg.jwt)
  pub long_refresh : 32 ≤ len (resolved_refresh_secret cfg.jwt)
  pub distinct : resolved_access_secret cfg.jwt ≢ resolved_refresh_secret cfg.jwt

long_filled : (s : String) → 32 ≤ len s → str_eq s "" ≡ false
long_filled s long = elim (Bool-cases (str_eq s "")) [
  | inl blank ↦ (let same : len s ≡ 0 = ap len ((eq_iff s "").0 blank) in ground arith)
  | inr filled ↦ filled
]

-- The auth service goes on with a configuration exactly if it has a JWT section whose access and
-- refresh secrets, after trimming and the fallback to the shared one, have 32 bytes or more and differ.
pub ensure_auth_jwt_iff : (cfg : Config) → (ensure_auth_jwt cfg ≡ none) ↔ HasSecrets cfg
unfolding ensure_auth_jwt
ensure_auth_jwt_iff cfg = (
  λ passed. elim (Option-cases cfg.jwt) [
    | inl missing ↦ ground arith
    | inr (j, there) ↦ record {
      section = j;
      is_section = there;
      long_access = ground arith;
      long_refresh = ground arith;
      distinct =
          ground (arith, eq_iff (resolved_access_secret cfg.jwt) (resolved_refresh_secret cfg.jwt));
    }
  ],
  λ h.
      let a = resolved_access_secret cfg.jwt in
      let r = resolved_refresh_secret cfg.jwt in
      let filled = long_filled a h.long_access in
      let filled_too = long_filled r h.long_refresh in
      let there = h.is_section in
      let apart = h.distinct in
      let long = h.long_access in let long_too = h.long_refresh in ground (arith, eq_iff a r),
)

-- The shared secret alone does not do for the auth service: both secrets fall back to it.
pub shared_secret_refused :
    (cfg : Config) (j : JwtConfig)
    → cfg.jwt ≡ some j
    → trim_space j.access_secret_key ≡ ""
    → trim_space j.refresh_secret_key ≡ ""
    → ensure_auth_jwt cfg ≢ none
unfolding resolved_access_secret resolved_refresh_secret
shared_secret_refused cfg j there blank blank_too passed =
    let h = (ensure_auth_jwt_iff cfg).0 passed in
    let apart = h.distinct in
    ground (
      arith,
      eq_iff (trim_space j.access_secret_key) "",
      eq_iff (trim_space j.refresh_secret_key) "",
    )
