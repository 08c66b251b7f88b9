-- ===== src/Identity/Operations/Outcomes.antt =====
-- What an operation of internal/identity that succeeded has run.
use openremotecode_api.Prelude.{
  ◌≡◌, ◌≢◌, ◌∙◌, ap, refl, Bool, true, false, arith, inl, inr, if◌then◌else◌,
}
use openremotecode_api.Database.Transaction.{Result, ok, err, Result-cases, within_transaction}
use openremotecode_api.Identity.Errors.{Error}
use openremotecode_api.Identity.Db.{Db, Tx}
use openremotecode_api.Identity.Service.{World}
use openremotecode_api.Identity.Operations.{Op, raise, require, then_run, ◌>>=◌, commits}

module _ {A B : Type 0} where
  then_ok :
      (r : Result Error A × World) (f : A → Op B) {b : B} {w' : World}
      → then_run r f ≡ (ok b, w')
      → (a : A) × (w1 : World) × (r ≡ (ok a, w1)) × (f a w1 ≡ (ok b, w'))
  then_ok (ok a, w1) f h = (a, w1, refl, h)
  then_ok (err e, w1) f h = absurd (ground arith)

  pub run_ok :
      (m : Op A) (f : A → Op B) (w : World) {b : B} {w' : World}
      → (m >>= f) w ≡ (ok b, w')
      → (a : A) × (w1 : World) × (m w ≡ (ok a, w1)) × (f a w1 ≡ (ok b, w'))
  unfolding ◌>>=◌
  run_ok m f w h = then_ok (m w) f h

  pub require_ok :
      (r : Result Error A) (f : A → Op B) (w : World) {b : B} {w' : World}
      → (require r >>= f) w ≡ (ok b, w')
      → (a : A) × (r ≡ ok a) × (f a w ≡ (ok b, w'))
  unfolding ◌>>=◌
  require_ok (ok a) f w h = (a, refl, h)
  require_ok (err e) f w h = absurd (ground arith)

pub unless_raised :
    {A : Type 0} (b : Bool) (e : Error) (m : Op A) (w : World) {a : A} {w' : World}
    → (if b then raise e else m) w ≡ (ok a, w')
    → (b ≡ false) × (m w ≡ (ok a, w'))
unless_raised true e m w h = absurd (ground arith)
unless_raised false e m w h = (refl, h)

pub commits_ok :
    {A : Type 0} (m : Tx A) (w : World) {a : A} {w' : World}
    → commits m w ≡ (ok a, w')
    → (db : Db) × (m w.db ≡ ok (a, db)) × (w' ≡ record w { db = db })
unfolding commits
commits_ok m w h = elim (Result-cases (m w.db)) [
  | inl ((a, db), e) ↦
      let h' = rw (within_transaction, e) at h in (db, ground (arith, e), ground arith)
  | inr (e, q) ↦ let h' = rw (within_transaction, q) at h in absurd (ground arith)
]

-- What an operation that failed has run before, where a step of it cannot fail in this way.
module _ {A B : Type 0} where
  pub require_passed :
      (r : Result Error A) (f : A → Op B) (w w' : World) (e : Error)
      → (require r >>= f) w ≡ (err e, w')
      → r ≢ err e
      → (a : A) × (r ≡ ok a) × (f a w ≡ (err e, w'))
  unfolding ◌>>=◌
  require_passed (ok a) f w w' e h other = (a, refl, h)
  require_passed (err d) f w w' e h other = absurd (other (ground arith))

  pub commits_passed :
      (m : Tx A) (f : A → Op B) (w w' : World) (e : Error)
      → (commits m >>= f) w ≡ (err e, w')
      → m w.db ≢ err e
      → (a : A) × (db : Db) × (m w.db ≡ ok (a, db)) × (f a (record w { db = db }) ≡ (err e, w'))
  unfolding ◌>>=◌ commits
  commits_passed m f w w' e h other = elim (Result-cases (m w.db)) [
    | inl ((a, db), q) ↦ (a, db, q, rw (within_transaction, q) at h)
    | inr (d, q) ↦
        let h' = rw (within_transaction, q) at h in
        let same : d ≡ e = ground arith in absurd (other (q ∙ ap err same))
  ]
