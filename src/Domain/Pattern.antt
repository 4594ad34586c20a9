-- ===== src/Domain/Pattern.antt =====
-- The regular expressions of internal/domain/general.go, over code points:
-- `^[a-zA-Z0-9._%+-]+@[a-zA-Z0-9.-]+\.[a-zA-Z]{2,}$`, `[a-zA-Z]` and `\d`. Each `+` is a loop that
-- goes on or stops at every character, so that the whole text is matched if any choice matches it.
pub mod Language
use notes_microservices.Prelude.{
  ℕ, Bool, true, false, ◌&&◌, ◌||◌, List, [], ◌∷◌, leb, ◌==◌, length, any, all,
}

abbrev pub is_letter : ℕ → Bool
is_letter c = leb b'a' c && leb c b'z' || leb b'A' c && leb c b'Z'

abbrev pub is_digit : ℕ → Bool
is_digit c = leb b'0' c && leb c b'9'

-- [a-zA-Z0-9.-]
unfoldable pub is_host : ℕ → Bool
is_host c = is_letter c || is_digit c || c == b'.' || c == b'-'

-- [a-zA-Z0-9._%+-]
unfoldable pub is_local : ℕ → Bool
unfolding is_host
is_local c = is_host c || c == b'_' || c == b'%' || c == b'+'

-- [a-zA-Z]{2,}$
abbrev pub matches_top : List ℕ → Bool
matches_top s = leb 2 (length s) && all is_letter s

-- The host after its first character.
unfoldable pub matches_host_rest : List ℕ → Bool
matches_host_rest [] = false
matches_host_rest (c ∷ s) = c == b'.' && matches_top s || is_host c && matches_host_rest s

unfoldable pub matches_host : List ℕ → Bool
matches_host [] = false
matches_host (c ∷ s) = is_host c && matches_host_rest s

-- The local part after its first character.
unfoldable pub matches_local_rest : List ℕ → Bool
matches_local_rest [] = false
matches_local_rest (c ∷ s) = c == b'@' && matches_host s || is_local c && matches_local_rest s

unfoldable pub matches_email : List ℕ → Bool
matches_email [] = false
matches_email (c ∷ s) = is_local c && matches_local_rest s

unfoldable pub has_letter : List ℕ → Bool
has_letter s = any is_letter s

unfoldable pub has_digit : List ℕ → Bool
has_digit s = any is_digit s
