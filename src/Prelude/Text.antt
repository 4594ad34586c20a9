-- ===== src/Prelude/Text.antt =====
-- What the program uses of Go's `strings` package, over native texts.
use Prim.Native.Nat.{ℕ}
use Prim.Native.Char.{code}
use Prim.Native.String.{String, [], ◌∷◌}
use mathlib.Core.Bool.{Bool, ◌&&◌, ◌||◌}
use mathlib.Core.Option.{Option, none, some}
use mathlib.Core.List.{List}
use notes_microservices.Prelude.Tests.{leb, ◌==◌, str_eq, if◌then◌else◌}

-- unicode.IsSpace
abbrev pub is_space : ℕ → Bool
is_space c =
    (leb 9 c && leb c 13)
    || c == 32
    || c == 133
    || c == 160
    || c == 5760
    || (leb 8192 c && leb c 8202)
    || c == 8232
    || c == 8233
    || c == 8239
    || c == 8287
    || c == 12288

trim_left : String → String
trim_left [] = []
trim_left (c ∷ s) = let rest = trim_left s in if is_space (code c) then rest else c ∷ s

trim_right : String → String
trim_right [] = []
trim_right (c ∷ s) =
    let rest = trim_right s in if str_eq rest "" && is_space (code c) then "" else c ∷ rest

-- strings.TrimSpace
unfoldable pub trim_space : String → String
unfolding trim_left trim_right
trim_space s = trim_right (trim_left s)

-- The code points of a text.
abbrev pub codes : String → List ℕ
codes [] = List.[]
codes (c ∷ s) = List.◌∷◌ (code c) (codes s)

-- strings.Cut at a one-character separator: what stands before and after its first occurrence.
unfoldable pub cut : ℕ → String → Option (String × String)
cut sep [] = none
cut sep (c ∷ s) =
    let rest = cut sep s in
    if code c == sep
    then some ("", s)
    else elim rest [ none ↦ none | some (before, after) ↦ some (c ∷ before, after) ]
