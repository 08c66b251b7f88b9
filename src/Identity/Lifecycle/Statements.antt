-- ===== src/Identity/Lifecycle/Statements.antt =====
-- What the statements of internal/identity/postgres/store.go do where they succeed: a query gives
-- rows, and the tables stay or take the new one.
use openremotecode_api.Prelude.{
  ◌≡◌, refl, Bool, true, List, arith, nat_eq, length, keep, subst, Option, none, some, All, false,
  ap, ◌∙◌, inl, inr, Bool-cases, ◌⊎◌,
}
use openremotecode_api.Database.{
  Answer, rows, error, Engine, SqlError, record_not_found, duplicated_key, foreign_key_violated,
  check_constraint_violated, failed,
}
use openremotecode_api.Database.Rows.{Among}
use openremotecode_api.Database.Transaction
use openremotecode_api.Identity.Errors.{is_not_found}
use openremotecode_api.Database.Transaction.{ok, err, found_or_none}
use openremotecode_api.Database.Transaction.Triples.{Triple}
use openremotecode_api.Identity.Db.{Db, read, write, write_one, optional, translate_error}

pub Answer-cases :
    {A : Type 0} (r : Answer A) → ((a : A) × (r ≡ rows a)) ⊎ ((e : SqlError) × (r ≡ error e))
Answer-cases (rows a) = inl (a, refl)
Answer-cases (error e) = inr (e, refl)

pub read_ok :
    {A : Type 0} (query : Db → Answer A) (db : Db) {a : A} {db' : Db}
    → read query db ≡ ok (a, db')
    → (query db ≡ rows a) × (db ≡ db')
read_ok query db h = elim (Answer-cases (query db)) [
  | inl (b, e) ↦ let h' = rw (read, e) at h in (ground arith, ground arith)
  | inr (b, e) ↦ let h' = rw (read, e) at h in absurd (ground arith)
]

pub write_ok :
    {A : Type 0} (query : Db → Answer A) (store : Db → A → Db) (db : Db) {u : Unit {0}} {db' : Db}
    → write query store db ≡ ok (u, db')
    → (a : A) × (query db ≡ rows a) × (store db a ≡ db')
write_ok query store db h = elim (Answer-cases (query db)) [
  | inl (b, e) ↦ let h' = rw (write, e) at h in (b, e, ground arith)
  | inr (b, e) ↦ let h' = rw (write, e) at h in absurd (ground arith)
]

module _ {Row : Type 0} where
  pub write_one_ok :
      (engine : Engine) (p : Row → Bool) (f : Row → Row) (table : Db → List Row)
      (store : Db → List Row → Db) (db : Db) {u : Unit {0}} {db' : Db}
      → write_one engine p f table store db ≡ ok (u, db')
      → (t : List Row) × (engine.update p f (table db) ≡ rows t)
        × (nat_eq (length (keep p (table db))) 1 ≡ true)
        × (store db t ≡ db')
  write_one_ok engine p f table store db h = elim (Answer-cases (engine.update p f (table db))) [
    | inl (t, e) ↦
        let h' = rw (write_one, e) at h in
        elim (Bool-cases (nat_eq (length (keep p (table db))) 1)) [
          | inl q ↦ let h'' = rw q at h' in (t, e, q, ground arith)
          | inr q ↦ let h'' = rw q at h' in absurd (ground arith)
        ]
    | inr (b, e) ↦ let h' = rw (write_one, e) at h in absurd (ground arith)
  ]

pub Triple-read :
    {A : Type 0} (P : Db → Type 0) (Q : A → Db → Type 0) (query : Db → Answer A)
    → ((db : Db) (a : A) → P db → query db ≡ rows a → Q a db)
    → Triple P (read query) Q
Triple-read P Q query h = record {
  at = λ db a db' i e. let (q, same) = read_ok query db e in subst (Q a) same (h db a i q);
}

pub Triple-write :
    {A : Type 0} (P R : Db → Type 0) (query : Db → Answer A) (store : Db → A → Db)
    → ((db : Db) (a : A) → P db → query db ≡ rows a → R (store db a))
    → Triple P (write query store) (λ _ db. R db)
Triple-write P R query store h = record {
  at = λ db u db' i e. let (a, q, same) = write_ok query store db e in subst R same (h db a i q);
}

module _ {Row : Type 0} where
  pub Triple-write_one :
      (P R : Db → Type 0) (engine : Engine) (p : Row → Bool) (f : Row → Row) (table : Db → List Row)
      (store : Db → List Row → Db)
      → ((db : Db) (t : List Row)
          → P db
          → engine.update p f (table db) ≡ rows t
          → nat_eq (length (keep p (table db))) 1 ≡ true
          → R (store db t))
      → Triple P (write_one engine p f table store) (λ _ db. R db)
  Triple-write_one P R engine p f table store h = record {
    at = λ db u db' i e.
        let (t, q, one, same) = write_one_ok engine p f table store db e in
        subst R same (h db t i q one);
  }

-- What an optional lookup by a test tells: a row with it, or that there is none.
abbrev pub Looked : {Row : Type 0} → (Row → Bool) → List Row → Option Row → Type 0
Looked p t none = All (λ r. p r ≡ false) t
Looked p t (some r) = Among r t × (p r ≡ true)

is_record_not_found :
    (e : SqlError) → is_not_found (translate_error e) ≡ true → e ≡ record_not_found
is_record_not_found record_not_found h = refl
is_record_not_found duplicated_key h = absurd (ground arith)
is_record_not_found foreign_key_violated h = absurd (ground arith)
is_record_not_found check_constraint_violated h = absurd (ground arith)
is_record_not_found (failed c) h = absurd (ground arith)

module _ {Row : Type 0} (engine : Engine) (p : Row → Bool) (table : Db → List Row) where
  lookup_ok :
      (db : Db) {o : Option Row} {db' : Db}
      → optional (read (λ db. engine.first p (table db))) db ≡ ok (o, db')
      → (db ≡ db') × Looked p (table db) o
  unfolding Transaction.optional
  lookup_ok db {o} {db'} h = elim (Answer-cases (engine.first p (table db))) [
    | inl (r, e) ↦
        let h' = rw (read, e) at h in
        let same : some r ≡ o = ground arith in
        (ground arith, subst (Looked p (table db)) same (engine.first_rows p (table db) r e))
    | inr (q, e) ↦ elim (Bool-cases (is_not_found (translate_error q))) [
      | inl missing ↦
          let h' = rw (read, e, found_or_none, missing) at h in
          let same : none ≡ o = ground arith in
          (
            ground arith,
            subst (Looked p (table db)) same (
                engine.first_not_found p (table db)
                  (e ∙ ap (λ q. error q) (is_record_not_found q missing))),
          )
      | inr missing ↦ let h' = rw (read, e, found_or_none, missing) at h in absurd (ground arith)
    ]
  ]

  pub Triple-lookup :
      (P : Db → Type 0)
      → Triple P
          (optional (read (λ db. engine.first p (table db))))
          (λ o db. P db × Looked p (table db) o)
  Triple-lookup P = record {
    at = λ db o db' i e.
        let (same, looked) = lookup_ok db e in
        (subst P same i, subst (λ db. Looked p (table db) o) same looked);
  }
