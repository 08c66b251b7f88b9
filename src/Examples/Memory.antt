-- ===== src/Examples/Memory.antt =====
-- A database in memory that fails only where a statement must: it meets the laws of an engine.
use openremotecode_api.Prelude.{
  ◌≡◌, Bool, true, false, not, List, [], ◌∷◌, ◌++◌, arith, All, keep, Bool-cases, inl, inr,
  if◌then◌else◌,
}
use openremotecode_api.Database.{
  Answer, rows, error, record_not_found, duplicated_key, Schema, Engine,
}
use openremotecode_api.Database.Rows.{Among, any, put, map_where}

module _ {Row : Type 0} where
  pub rows_injective : {t u : List Row} → rows t ≡ rows u → u ≡ t
  rows_injective e = ground arith

  unfoldable pub first : (Row → Bool) → List Row → Answer Row
  first p [] = error record_not_found
  first p (x ∷ t) = if p x then rows x else first p t

  pub first_rows :
      (p : Row → Bool) (t : List Row) (r : Row) → first p t ≡ rows r → Among r t × (p r ≡ true)
  unfolding first
  first_rows p [] r e = absurd (ground arith)
  first_rows p (x ∷ t) r e = elim (Bool-cases (p x)) [
    | inl h ↦ let same : r ≡ x = ground (arith, rw h at e) in (inl same, rw same h)
    | inr h ↦ let (m, q) = first_rows p t r (rw h at e) in (inr m, q)
  ]

  pub first_not_found :
      (p : Row → Bool) (t : List Row)
      → first p t ≡ error record_not_found
      → All (λ r. p r ≡ false) t
  unfolding first
  first_not_found p [] e = tt
  first_not_found p (x ∷ t) e = elim (Bool-cases (p x)) [
    | inl h ↦ absurd (ground (arith, rw h at e))
    | inr h ↦ (h, first_not_found p t (rw h at e))
  ]

  unfoldable pub create : Schema Row → Row → List Row → Answer (List Row)
  create s r t = if any (s.clash r) t then error duplicated_key else rows (t ++ (r ∷ []))

  None-any : (p : Row → Bool) (t : List Row) → any p t ≡ false → All (λ r. p r ≡ false) t
  unfolding any
  None-any p [] e = tt
  None-any p (x ∷ t) e = (ground arith, None-any p t (ground arith))

  pub create_rows :
      (s : Schema Row) (r : Row) (t u : List Row)
      → create s r t ≡ rows u
      → (u ≡ t ++ (r ∷ [])) × All (λ old. s.clash r old ≡ false) t
  unfolding create
  create_rows s r t u e = elim (Bool-cases (any (s.clash r) t)) [
    | inl h ↦ absurd (ground (arith, rw h at e))
    | inr h ↦ (ground (arith, rw h at e), None-any (s.clash r) t h)
  ]

abbrev pub memory : Engine
memory = record {
  first = first;
  find = λ p t. rows (keep p t);
  create = create;
  save = λ s r t. rows (put s.same_key r t);
  update = λ p f t. rows (map_where p f t);
  remove = λ p t. rows (keep (λ r. not (p r)) t);
  first_rows = first_rows;
  first_not_found = first_not_found;
  find_rows = λ p t u e. rows_injective e;
  create_rows = create_rows;
  save_rows = λ s r t u e. rows_injective e;
  update_rows = λ p f t u e. rows_injective e;
  remove_rows = λ p t u e. rows_injective e;
}
