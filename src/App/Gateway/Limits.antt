-- ===== src/App/Gateway/Limits.antt =====
-- The numbers that go from a query to the database.
use notes_microservices.Prelude.{◌<◌, ℕ, ℤ, pos, ◌≤◌, ◌≡◌, arith}
use notes_microservices.App.Gateway.{clamp_non_negative, max_int32}
use notes_microservices.App.Notes.{clamp_limit, clamp_offset}
use notes_microservices.Rpc.{clamp_int32}

-- The client's clamp changes nothing that the gateway's let through, and the service pages by the
-- number that was asked for, if that is from 1 to 100 (a limit) or from 0 to 2147483647 (an offset).
pub clamps_compose :
    (asked : ℤ) (limit offset : ℕ)
    → 0 < limit
    → limit ≤ 100
    → offset ≤ max_int32
    → (clamp_int32 (clamp_non_negative asked) ≡ clamp_non_negative asked)
      × (clamp_limit (clamp_int32 (clamp_non_negative (pos limit))) ≡ pos limit)
      × (clamp_offset (clamp_int32 (clamp_non_negative (pos offset))) ≡ pos offset)
unfolding clamp_int32 clamp_non_negative clamp_limit clamp_offset
clamps_compose asked limit offset least most small = (ground arith, ground arith, ground arith)
