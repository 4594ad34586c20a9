-- ===== src/App/Notes/Limits.antt =====
-- The page that `ListNotes` asks the repository for.
use notes_microservices.Prelude.{ℕ, ℤ, pos, negsuc, ◌≤◌, ◌<◌, ◌≡◌, arith}
use notes_microservices.App.Notes.{as_ℕ, clamp_limit}

pub clamp_limit-bounds :
    (limit : ℤ) → (0 < as_ℕ (clamp_limit limit)) × (as_ℕ (clamp_limit limit) ≤ 100)
unfolding clamp_limit
clamp_limit-bounds limit = ground arith

-- Whatever the request, a page has 1 to 100 notes; a limit in that range is taken as it is, a limit
-- of 0 or less means 10, and a larger one means 100.
pub clamp_limit_range :
    (limit : ℤ) (within above below : ℕ)
    → 0 < within
    → within ≤ 100
    → 100 < above
    → (0 < as_ℕ (clamp_limit limit))
      × (as_ℕ (clamp_limit limit) ≤ 100)
      × (clamp_limit (pos within) ≡ pos within)
      × (clamp_limit (pos above) ≡ pos 100)
      × (clamp_limit (pos 0) ≡ pos 10)
      × (clamp_limit (negsuc below) ≡ pos 10)
unfolding clamp_limit
clamp_limit_range limit within above below lo hi over =
    let (least, most) = clamp_limit-bounds limit in
    (least, most, ground arith, ground arith, ground arith, ground arith)
