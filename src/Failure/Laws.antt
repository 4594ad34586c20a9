-- ===== src/Failure/Laws.antt =====
-- Asking a wrapped error for its sentinel.
use notes_microservices.Prelude.{◌≡◌, refl}
use notes_microservices.Failure.{Sentinel, Err, Wraps, itself, under, is, same}

-- However often a sentinel is wrapped, `errors.Is` answers as for the sentinel.
pub is-Wraps : {s : Sentinel} {e : Err} → Wraps s e → (t : Sentinel) → is e t ≡ same s t
is-Wraps itself t = refl
is-Wraps (under context w) t = is-Wraps w t
