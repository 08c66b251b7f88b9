-- ===== src/Examples/Limits.antt =====
-- A limiter of two requests in a window, with one client that has used them up.
use openremotecode_api.Prelude.{◌≡◌, ◌≤◌, refl, false, [], ◌∷◌, arith}
use openremotecode_api.Bytes.{text, ◌==◌}
use openremotecode_api.Platform.RateLimit.{
  RateEntry, RateLimiter, allow, remove_expired, decide, entry_of,
}
use openremotecode_api.Platform.RateLimit.Bounds.{
  IsBounded, IsUsedUp, allow-IsBounded, allow_refused,
}

abbrev client : RateEntry
client = record { key = text "10.0.0.1"; started_at = 100; count = 2 }

abbrev limiter : RateLimiter
limiter = record { maximum = 2; window = 50; capacity = 3; order = client ∷ [] }

limiter-IsBounded : IsBounded 3 2 (client ∷ [])
limiter-IsBounded = (omega arith, ((omega arith, omega arith), tt))

allow-IsBounded_example : IsBounded 3 2 (allow limiter (text "10.0.0.2") 120).2.order
allow-IsBounded_example =
    allow-IsBounded limiter (text "10.0.0.2") 120 (omega arith) (omega arith) limiter-IsBounded

refused : (allow limiter (text "10.0.0.1") 120).0 ≡ false
unfolding allow remove_expired decide entry_of ◌==◌
refused = refl

allow_refused_example :
    (1 ≤ (allow limiter (text "10.0.0.1") 120).1)
    × IsUsedUp limiter
        (text "10.0.0.1")
        120
        (allow limiter (text "10.0.0.1") 120).1
        (remove_expired 50 120 (client ∷ []))
    × ((allow limiter (text "10.0.0.1") 120).2.order ≡ remove_expired 50 120 (client ∷ []))
allow_refused_example = allow_refused limiter (text "10.0.0.1") 120 refused
