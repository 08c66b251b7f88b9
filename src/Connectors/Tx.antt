-- ===== src/Connectors/Tx.antt =====
-- A database transaction of the connectors module. An action reads and writes the tables; an error
-- rolls everything back (GORM's Transaction), so it carries no tables.
use openremotecode_api.Prelude.{
  ◌≡◌, refl, Bool, true, false, Option, none, some, List, arith, ◌⊎◌, inl, inr,
}
use openremotecode_api.Connectors.Errors.{
  Error, Result, ok, err, not_found, normalize_authorization_error,
}
use openremotecode_api.Connectors.Types.{
  Challenge, Pairing, Device, Connector, Trust, ClaimFailure, RelayTicket, AuditEvent,
}

-- The tables of internal/connectors/postgres/models.go.
pub record Db : Type 0 where
  pub challenges : List Challenge
  pub pairings : List Pairing
  pub devices : List Device
  pub connectors : List Connector
  pub trusts : List Trust
  pub claim_failures : List ClaimFailure
  pub relay_tickets : List RelayTicket
  pub audit_events : List AuditEvent

abbrev pub Tx : Type 0 → Type 0
Tx A = Db → Result (A × Db)

abbrev pub pure : {A : Type 0} → A → Tx A
pure a db = ok (a, db)

abbrev pub fail : {A : Type 0} → Error → Tx A
fail e db = err e

abbrev pub lift : {A : Type 0} → Result A → Tx A
lift (ok a) db = ok (a, db)
lift (err e) db = err e

infixl 5 ◌>>=◌ ◌>>◌
unfoldable pub ◌>>=◌ : {A B : Type 0} → Tx A → (A → Tx B) → Tx B
◌>>=◌ m f db = elim (m db) [ ok (a, db') ↦ f a db' | err e ↦ err e ]

abbrev pub ◌>>◌ : {B : Type 0} → Tx (Unit {0}) → Tx B → Tx B
m >> k = m >>= λ _. k

-- `if condition { return error }`
abbrev pub refuse : Bool → Error → Tx (Unit {0})
refuse true e db = err e
refuse false e db = ok (tt, db)

-- `if err := authorize(…); err != nil { return err }`
abbrev pub check : Option Error → Tx (Unit {0})
check none db = ok (tt, db)
check (some e) db = err e

-- A lookup whose `ErrNotFound` the caller handles.
abbrev found_or_none : {A : Type 0} → Db → Result (A × Db) → Result (Option A × Db)
found_or_none db (ok (a, db')) = ok (some a, db')
found_or_none db (err not_found) = ok (none, db)
found_or_none db (err e) = err e

unfoldable pub optional : {A : Type 0} → Tx A → Tx (Option A)
optional m db = found_or_none db (m db)

-- What an optional lookup that succeeded did.
optional_cases :
    {A : Type 0} (db : Db) (r : Result (A × Db)) {b : Option A} {db' : Db}
    → found_or_none db r ≡ ok (b, db')
    → ((b ≡ none) × (db ≡ db')) ⊎ ((a : A) × (b ≡ some a) × (r ≡ ok (a, db')))
optional_cases db (ok (a, d)) h = inr (a, ground arith, ground arith)
optional_cases db (err not_found) h = inl (ground arith)
optional_cases db (err e) h = absurd (ground arith)

pub optional_ok :
    {A : Type 0} (m : Tx A) (db : Db) {b : Option A} {db' : Db}
    → optional m db ≡ ok (b, db')
    → ((b ≡ none) × (db ≡ db')) ⊎ ((a : A) × (b ≡ some a) × (m db ≡ ok (a, db')))
unfolding optional
optional_ok m db h = optional_cases db (m db) h

-- `Repository.WithinTransaction`: commit, or roll back and report.
abbrev pub within_transaction : {A : Type 0} → Tx A → Db → Result A × Db
within_transaction m db = elim (m db) [ ok (a, db') ↦ (ok a, db') | err e ↦ (err e, db) ]

pub Result-cases :
    {A : Type 0} (r : Result A) → ((a : A) × (r ≡ ok a)) ⊎ ((e : Error) × (r ≡ err e))
Result-cases (ok a) = inl (a, refl)
Result-cases (err e) = inr (e, refl)

pub ok_injective :
    {A : Type 0} {a b : A} {db db' : Db} → pure a db ≡ pure b db' → (a ≡ b) × (db ≡ db')
ok_injective h = ground arith

-- What a bind that succeeded did.
pub bind_ok :
    {A B : Type 0} (m : Tx A) (f : A → Tx B) (db : Db) {r : B × Db}
    → (m >>= f) db ≡ ok r
    → (a : A) × (db' : Db) × (m db ≡ ok (a, db')) × (f a db' ≡ ok r)
unfolding ◌>>=◌
bind_ok m f db {r} h = elim (Result-cases (m db)) [
  | inl ((a, db'), e) ↦ (a, db', e, rw (e, ◌>>=◌) at h)
  | inr (e, q) ↦ absurd (ground arith)
]

pub refuse_ok :
    {B : Type 0} (b : Bool) (e : Error) (k : Tx B) (db : Db) {r : B × Db}
    → (refuse b e >> k) db ≡ ok r
    → (b ≡ false) × (k db ≡ ok r)
unfolding ◌>>=◌
refuse_ok b e k db h = ground arith

pub check_ok :
    {B : Type 0} (o : Option Error) (k : Tx B) (db : Db) {r : B × Db}
    → (check o >> k) db ≡ ok r
    → (o ≡ none) × (k db ≡ ok r)
unfolding ◌>>=◌
check_ok o k db h = ground arith

-- An action whose result is returned once it has committed, its error normalized.
abbrev pub committed : {A B : Type 0} → Result A × Db → (A → Result B) → Result B × Db
committed (ok a, db) k = (k a, db)
committed (err e, db) k = (err (normalize_authorization_error e), db)

-- A step before any transaction, whose error is returned as it is.
abbrev pub attempt : {A B : Type 0} → Result A → Db → (A → Result B × Db) → Result B × Db
attempt (ok a) db k = k a
attempt (err e) db k = (err e, db)

-- The same where the error is returned as it is.
abbrev pub reported : {A B : Type 0} → Result A × Db → (A → Result B) → Result B × Db
reported (ok a, db) k = (k a, db)
reported (err e, db) k = (err e, db)
