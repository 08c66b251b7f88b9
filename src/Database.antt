-- ===== src/Database.antt =====
-- The database behind GORM, which is not in the repository: a parameter of the stores. An engine
-- runs the statements that the stores build, over the rows of a table, and may fail at any of
-- them. Its laws say what a statement that succeeds has done, and what "record not found" means.
pub mod Rows
pub mod Watch
pub mod Keys
pub mod Updates
pub mod Transaction
use openremotecode_api.Prelude.{ℕ, ◌≡◌, Bool, true, false, not, List, [], ◌∷◌, ◌++◌, All, keep}
use Rows.{Among, put, map_where}

-- The errors of GORM that the stores tell apart; `failed` is any other.
pub data SqlError : Type 0 where
  record_not_found duplicated_key foreign_key_violated check_constraint_violated : SqlError
  failed : ℕ → SqlError

pub data Answer {ℓ} (A : Type ℓ) : Type ℓ where
  rows : A → Answer A
  error : SqlError → Answer A

-- What the table's declaration says of two rows: `same_key` if their primary keys are equal, and
-- `clash` if they are equal on the primary key or on a unique index.
pub record Schema (Row : Type 0) : Type 0 where
  pub same_key : Row → Row → Bool
  pub clash : Row → Row → Bool

pub record Engine : Type 1 where
  -- SELECT … WHERE p LIMIT 1 FOR UPDATE
  pub first : {Row : Type 0} → (Row → Bool) → List Row → Answer Row
  -- SELECT … WHERE p
  pub find : {Row : Type 0} → (Row → Bool) → List Row → Answer (List Row)
  -- INSERT
  pub create : {Row : Type 0} → Schema Row → Row → List Row → Answer (List Row)
  -- UPDATE by the primary key, and INSERT where there is no such row
  pub save : {Row : Type 0} → Schema Row → Row → List Row → Answer (List Row)
  -- UPDATE … WHERE p
  pub update : {Row : Type 0} → (Row → Bool) → (Row → Row) → List Row → Answer (List Row)
  -- DELETE … WHERE p
  pub remove : {Row : Type 0} → (Row → Bool) → List Row → Answer (List Row)
  pub first_rows :
      {Row : Type 0} (p : Row → Bool) (t : List Row) (r : Row)
      → first p t ≡ rows r
      → Among r t × (p r ≡ true)
  pub first_not_found :
      {Row : Type 0} (p : Row → Bool) (t : List Row)
      → first p t ≡ error record_not_found
      → All (λ r. p r ≡ false) t
  pub find_rows :
      {Row : Type 0} (p : Row → Bool) (t u : List Row) → find p t ≡ rows u → u ≡ keep p t
  pub create_rows :
      {Row : Type 0} (s : Schema Row) (r : Row) (t u : List Row)
      → create s r t ≡ rows u
      → (u ≡ t ++ (r ∷ [])) × All (λ old. s.clash r old ≡ false) t
  pub save_rows :
      {Row : Type 0} (s : Schema Row) (r : Row) (t u : List Row)
      → save s r t ≡ rows u
      → u ≡ put s.same_key r t
  pub update_rows :
      {Row : Type 0} (p : Row → Bool) (f : Row → Row) (t u : List Row)
      → update p f t ≡ rows u
      → u ≡ map_where p f t
  pub remove_rows :
      {Row : Type 0} (p : Row → Bool) (t u : List Row)
      → remove p t ≡ rows u
      → u ≡ keep (λ r. not (p r)) t
