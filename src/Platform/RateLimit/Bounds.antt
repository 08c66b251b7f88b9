-- ===== src/Platform/RateLimit/Bounds.antt =====
-- The table of the limiter of internal/platform/httpserver/rate_limit.go stays within its bounds.
use openremotecode_api.Prelude.{
  ℕ, ◌≡◌, refl, ◌≤◌, ◌<◌, ◌+◌, false, Option, none, some, List, [], ◌∷◌, ◌++◌, arith, All,
  All-append, length, length-append, leb, ltb, Bool-cases, inl, inr,
}
use openremotecode_api.Bytes.{Bytes, ◌==◌}
use openremotecode_api.Platform.RateLimit.{
  RateEntry, RateLimiter, remove_expired, entry_of, count_up, make_room, decide, allow, fresh,
  without,
}

-- Between one and the maximum of requests are counted.
abbrev pub IsCounted : ℕ → RateEntry → Type 0
IsCounted maximum e = (1 ≤ e.count) × (e.count ≤ maximum)

-- The table is no longer than its capacity, and every entry is counted.
abbrev pub IsBounded : ℕ → ℕ → List RateEntry → Type 0
IsBounded capacity maximum l = (length l ≤ capacity) × All (IsCounted maximum) l

module _ (c m : ℕ) where
  remove_expired-IsBounded :
      (w now : ℕ) (l : List RateEntry) → IsBounded c m l → IsBounded c m (remove_expired w now l)
  unfolding remove_expired
  remove_expired-IsBounded w now [] b = b
  remove_expired-IsBounded w now (e ∷ l) b = elim (Bool-cases (ltb now (e.started_at + w))) [
    | inl h ↦ rw h b
    | inr h ↦ rw h (remove_expired-IsBounded w now l (omega (arith, b.0), b.1.1))
  ]

  make_room-IsBounded :
      (l : List RateEntry)
      → 1 ≤ c
      → All (IsCounted m) l
      → (length (make_room c l) < c) × All (IsCounted m) (make_room c l)
  unfolding make_room
  make_room-IsBounded [] h a = (omega arith, tt)
  make_room-IsBounded (e ∷ l) h a = elim (Bool-cases (leb c (length (e ∷ l)))) [
    | inl q ↦ rw q (make_room-IsBounded l h a.1)
    | inr q ↦ rw q (ground (arith, q), a)
  ]

  without-IsBounded :
      (k : Bytes) (l : List RateEntry)
      → All (IsCounted m) l
      → (length (without k l) ≤ length l) × All (IsCounted m) (without k l)
  without-IsBounded k [] a = (omega arith, tt)
  without-IsBounded k (e ∷ l) a =
      let (short, rest) = without-IsBounded k l a.1 in
      elim (Bool-cases (e.key == k)) [
        | inl q ↦ rw q (omega (arith, short), rest)
        | inr q ↦ rw q (omega (arith, short), (a.0, rest))
      ]

  without-shorter :
      (k : Bytes) (l : List RateEntry) {e : RateEntry}
      → All (IsCounted m) l
      → entry_of k l ≡ some e
      → length (without k l) < length l
  unfolding entry_of
  without-shorter k [] a h = absurd (ground arith)
  without-shorter k (x ∷ l) a h = elim (Bool-cases (x.key == k)) [
    | inl q ↦ rw q (omega (arith, (without-IsBounded k l a.1).0))
    | inr q ↦ rw q (omega (arith, without-shorter k l a.1 (rw q at h)))
  ]

  -- Counting a request of an entry that is below the maximum.
  count_up-IsBounded :
      (k : Bytes) (l : List RateEntry) {e : RateEntry}
      → entry_of k l ≡ some e
      → leb m e.count ≡ false
      → All (IsCounted m) l
      → (length (count_up k l) ≡ length l) × All (IsCounted m) (count_up k l)
  unfolding entry_of count_up
  count_up-IsBounded k [] h below a = (refl, tt)
  count_up-IsBounded k (x ∷ l) h below a = elim (Bool-cases (x.key == k)) [
    | inl q ↦ rw q (refl, (ground (arith, rw q at h, below), a.1))
    | inr q ↦
        let (same, rest) = count_up-IsBounded k l (rw q at h) below a.1 in
        rw q (omega (arith, same), (a.0, rest))
  ]

  append-IsBounded :
      (k : Bytes) (now : ℕ) (l : List RateEntry)
      → 1 ≤ m
      → length l < c
      → All (IsCounted m) l
      → IsBounded c m (l ++ (fresh k now ∷ []))
  append-IsBounded k now l h short a = (
    omega (arith, length-append l (fresh k now ∷ [])),
    All-append (IsCounted m) l (fresh k now ∷ []) a ((omega arith, h), tt),
  )

module _ (r : RateLimiter) (k : Bytes) (now : ℕ) (room : 1 ≤ r.capacity)
    (some_allowed : 1 ≤ r.maximum) where
  decide-IsBounded :
      (l : List RateEntry) (o : Option RateEntry)
      → entry_of k l ≡ o
      → IsBounded r.capacity r.maximum l
      → IsBounded r.capacity r.maximum (decide r k now l o).2
  unfolding decide
  decide-IsBounded l none h b =
      let (short, counted) = make_room-IsBounded r.capacity r.maximum l room b.1 in
      append-IsBounded r.capacity r.maximum k now _ some_allowed short counted
  decide-IsBounded l (some e) h b = elim (Bool-cases (leb (e.started_at + r.window) now)) [
    | inl q ↦ rw q (
        append-IsBounded r.capacity r.maximum k now (without k l) some_allowed
          (omega (arith, without-shorter r.capacity r.maximum k l b.1 h, b.0))
          (without-IsBounded r.capacity r.maximum k l b.1).1)
    | inr q ↦ rw q (elim (Bool-cases (leb r.maximum e.count)) [
      | inl full ↦ rw full b
      | inr below ↦
          let (same, counted) = count_up-IsBounded r.capacity r.maximum k l h below b.1 in
          rw below (omega (arith, same, b.0), counted)
    ])
  ]

-- The key's window, in a table, is used up, and ends after the wait.
abbrev pub IsUsedUp : RateLimiter → Bytes → ℕ → ℕ → List RateEntry → Type 0
IsUsedUp r k now wait l =
    (e : RateEntry) × (entry_of k l ≡ some e)
    × (r.maximum ≤ e.count)
    × (now + wait ≡ e.started_at + r.window)

module _ (r : RateLimiter) (k : Bytes) (now : ℕ) where
  decide-refuses :
      (l : List RateEntry) (o : Option RateEntry)
      → entry_of k l ≡ o
      → (decide r k now l o).0 ≡ false
      → (1 ≤ (decide r k now l o).1)
        × IsUsedUp r k now (decide r k now l o).1 l
        × ((decide r k now l o).2 ≡ l)
  unfolding decide
  decide-refuses l none found h = absurd (ground arith)
  decide-refuses l (some e) found h = elim (Bool-cases (leb (e.started_at + r.window) now)) [
    | inl q ↦ absurd (ground (arith, rw q at h))
    | inr q ↦ rw q (elim (Bool-cases (leb r.maximum e.count)) [
      | inl full ↦
          rw full (ground (arith, q), (e, found, ground (arith, full), ground (arith, q)), refl)
      | inr below ↦ absurd (ground (arith, rw (q, below) at h))
    ])
  ]

-- `Allow` keeps the table of a limiter bounded, whose capacity and maximum are positive: no more
-- entries than its capacity, and in each between one and the maximum of requests.
pub allow-IsBounded :
    (r : RateLimiter) (k : Bytes) (now : ℕ)
    → 1 ≤ r.capacity
    → 1 ≤ r.maximum
    → IsBounded r.capacity r.maximum r.order
    → IsBounded r.capacity r.maximum (allow r k now).2.order
unfolding allow
allow-IsBounded r k now room many b =
    decide-IsBounded r k now room many _ _ refl
      (remove_expired-IsBounded r.capacity r.maximum r.window now r.order b)

-- A request that `Allow` refuses finds the window of its key used up, in the table that the sweep of the
-- windows that are over left; the wait it is told is positive and reaches exactly to the end of that
-- window, also where the time that was read is before the window's start; and it is not counted: the
-- table is what the sweep left.
pub allow_refused :
    (r : RateLimiter) (k : Bytes) (now : ℕ)
    → (allow r k now).0 ≡ false
    → (1 ≤ (allow r k now).1)
      × IsUsedUp r k now (allow r k now).1 (remove_expired r.window now r.order)
      × ((allow r k now).2.order ≡ remove_expired r.window now r.order)
unfolding allow
allow_refused r k now h = decide-refuses r k now _ _ refl h
