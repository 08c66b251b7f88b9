-- ===== src/Platform/RateLimit.antt =====
-- The limiter of internal/platform/httpserver/rate_limit.go. The list `order` holds the entries, the
-- front first; the map `entries` of the source is the lookup of a key in it. The tests on
-- `now.Sub(startedAt)` are written as tests on sums, so that a time before the window's start, where the
-- difference is negative, is compared as the source compares it.
pub mod Bounds
use openremotecode_api.Prelude.{
  ℕ, ◌+◌, ◌-◌, Bool, true, false, Option, none, some, List, [], ◌∷◌, ◌++◌, ltb, leb, length, not,
  keep, if◌then◌else◌,
}
use openremotecode_api.Bytes.{Bytes, ◌==◌}

pub record RateEntry : Type 0 where
  pub key : Bytes
  pub started_at : ℕ
  pub count : ℕ

pub record RateLimiter : Type 0 where
  pub maximum : ℕ
  pub window : ℕ
  pub capacity : ℕ
  pub order : List RateEntry

abbrev pub new_rate_limiter : ℕ → ℕ → RateLimiter
new_rate_limiter maximum window = record {
  maximum = maximum;
  window = window;
  capacity = 10_000;
  order = [];
}

-- `removeExpired`: the entries at the front whose window is over
unfoldable pub remove_expired : ℕ → ℕ → List RateEntry → List RateEntry
remove_expired window now [] = []
remove_expired window now (e ∷ l) =
    if ltb now (e.started_at + window) then e ∷ l else remove_expired window now l

unfoldable pub entry_of : Bytes → List RateEntry → Option RateEntry
entry_of k [] = none
entry_of k (e ∷ l) = if e.key == k then some e else entry_of k l

-- `entry.count++`
unfoldable pub count_up : Bytes → List RateEntry → List RateEntry
count_up k [] = []
count_up k (e ∷ l) = if e.key == k then (record e { count = e.count + 1 }) ∷ l else e ∷ count_up k l

-- The loop that makes room: entries leave from the front while the table is full.
unfoldable pub make_room : ℕ → List RateEntry → List RateEntry
make_room capacity [] = []
make_room capacity (e ∷ l) = if leb capacity (length (e ∷ l)) then make_room capacity l else e ∷ l

abbrev pub fresh : Bytes → ℕ → RateEntry
fresh k now = record { key = k; started_at = now; count = 1 }

abbrev pub without : Bytes → List RateEntry → List RateEntry
without k l = keep (λ e. not (e.key == k)) l

-- The decision on a key, in the list that `removeExpired` left.
unfoldable pub decide :
    RateLimiter → Bytes → ℕ → List RateEntry → Option RateEntry → Bool × ℕ × List RateEntry
decide r k now l (some e) =
    if leb (e.started_at + r.window) now
    then (true, 0, without k l ++ (fresh k now ∷ []))
    else if leb r.maximum e.count
    then (false, e.started_at + r.window - now, l)
    else (true, 0, count_up k l)
decide r k now l none = (true, 0, make_room r.capacity l ++ (fresh k now ∷ []))

-- `Allow`: whether the request is within the limit, how long to wait, and the limiter after it.
unfoldable pub allow : RateLimiter → Bytes → ℕ → Bool × ℕ × RateLimiter
allow r k now =
    let l = remove_expired r.window now r.order in
    let (allowed, wait, after) = decide r k now l (entry_of k l) in
    (allowed, wait, record r { order = after })
