-- ===== src/Database/Transaction.antt =====
-- A database transaction over tables `S`, whose errors are `E`. An action reads and writes the
-- tables; an error rolls everything back (GORM's Transaction), so it carries no tables.
pub mod Triples
use openremotecode_api.Prelude.{
  ◌≡◌, refl, Bool, true, false, Option, none, some, arith, ◌⊎◌, inl, inr, Bool-cases, if◌then◌else◌,
}

-- Go's (value, error) pairs
pub data Result (E : Type 0) (A : Type 0) : Type 0 where
  ok : A → Result E A
  err : E → Result E A

abbrev pub Tx : Type 0 → Type 0 → Type 0 → Type 0
Tx S E A = S → Result E (A × S)

pub Result-cases :
    {E A : Type 0} (r : Result E A) → ((a : A) × (r ≡ ok a)) ⊎ ((e : E) × (r ≡ err e))
Result-cases (ok a) = inl (a, refl)
Result-cases (err e) = inr (e, refl)

module _ {S E : Type 0} where
  abbrev pub pure : {A : Type 0} → A → Tx S E A
  pure a s = ok (a, s)

  abbrev pub fail : {A : Type 0} → E → Tx S E A
  fail e s = err e

  abbrev pub lift : {A : Type 0} → Result E A → Tx S E A
  lift (ok a) s = ok (a, s)
  lift (err e) s = err e

  infixl 5 ◌>>=◌ ◌>>◌
  unfoldable pub ◌>>=◌ : {A B : Type 0} → Tx S E A → (A → Tx S E B) → Tx S E B
  ◌>>=◌ m f s = elim (m s) [ ok (a, s') ↦ f a s' | err e ↦ err e ]

  abbrev pub ◌>>◌ : {B : Type 0} → Tx S E (Unit {0}) → Tx S E B → Tx S E B
  m >> k = m >>= λ _. k

  -- `if condition { return error }`
  abbrev pub refuse : Bool → E → Tx S E (Unit {0})
  refuse true e s = err e
  refuse false e s = ok (tt, s)

  abbrev pub found_or_none :
      {A : Type 0} → (E → Bool) → S → Result E (A × S) → Result E (Option A × S)
  found_or_none missing s (ok (a, s')) = ok (some a, s')
  found_or_none missing s (err e) = if missing e then ok (none, s) else err e

  -- A lookup whose "not found" the caller handles.
  unfoldable pub optional : {A : Type 0} → (E → Bool) → Tx S E A → Tx S E (Option A)
  optional missing m s = found_or_none missing s (m s)

  -- Commit, or roll back and report.
  abbrev pub within_transaction : {A : Type 0} → Tx S E A → S → Result E A × S
  within_transaction m s = elim (m s) [ ok (a, s') ↦ (ok a, s') | err e ↦ (err e, s) ]

  optional_cases :
      {A : Type 0} (missing : E → Bool) (s : S) (r : Result E (A × S)) {b : Option A} {s' : S}
      → found_or_none missing s r ≡ ok (b, s')
      → ((b ≡ none) × (s ≡ s')) ⊎ ((a : A) × (b ≡ some a) × (r ≡ ok (a, s')))
  optional_cases missing s (ok (a, d)) h = inr (a, ground arith, ground arith)
  optional_cases missing s (err e) h = elim (Bool-cases (missing e)) [
    | inl q ↦ inl (ground arith)
    | inr q ↦ absurd (ground arith)
  ]

  -- What an optional lookup that succeeded did.
  pub optional_ok :
      {A : Type 0} (missing : E → Bool) (m : Tx S E A) (s : S) {b : Option A} {s' : S}
      → optional missing m s ≡ ok (b, s')
      → ((b ≡ none) × (s ≡ s')) ⊎ ((a : A) × (b ≡ some a) × (m s ≡ ok (a, s')))
  unfolding optional
  optional_ok missing m s h = optional_cases missing s (m s) h

  pub ok_injective :
      {A : Type 0} {a b : A} {s s' : S}
      → ◌≡◌ {A = Result E (A × S)} (ok (a, s)) (ok (b, s'))
      → (a ≡ b) × (s ≡ s')
  ok_injective h = ground arith

  -- What a bind that succeeded did.
  pub bind_ok :
      {A B : Type 0} (m : Tx S E A) (f : A → Tx S E B) (s : S) {r : B × S}
      → (m >>= f) s ≡ ok r
      → (a : A) × (s' : S) × (m s ≡ ok (a, s')) × (f a s' ≡ ok r)
  unfolding ◌>>=◌
  bind_ok m f s {r} h = elim (Result-cases (m s)) [
    | inl ((a, s'), e) ↦ (a, s', e, rw (e, ◌>>=◌) at h)
    | inr (e, q) ↦ absurd (ground arith)
  ]

  pub refuse_ok :
      {B : Type 0} (b : Bool) (e : E) (k : Tx S E B) (s : S) {r : B × S}
      → (refuse b e >> k) s ≡ ok r
      → (b ≡ false) × (k s ≡ ok r)
  unfolding ◌>>=◌
  refuse_ok b e k s h = ground arith
