-- ===== src/Identity/Lifecycle/Rules.antt =====
-- How an action keeps the invariant of internal/identity, by the way it is built.
use openremotecode_api.Prelude.{◌≡◌, Bool, true, false, Option, none, some, if◌then◌else◌}
use openremotecode_api.Bytes.{Bytes}
use openremotecode_api.Database.Transaction.{Result, ok, pure, lift, refuse, ◌>>=◌, ◌>>◌}
use openremotecode_api.Database.Transaction.Triples.{
  Triple, Maybe, Triple-pure, Triple-if, Triple-bind, Triple-lift, Triple-refuse, Triple-optional,
  Triple-after,
}
use openremotecode_api.Identity.Errors.{Error, is_not_found}
use openremotecode_api.Identity.Db.{Db, Tx, optional}
use openremotecode_api.Identity.Lifecycle.{Watch, Inv, Keeps, also, Inv-forget}

module _ (w : Watch) {A : Type 0} where
  pub Keeps-pure : (a : A) → Keeps w (pure a)
  Keeps-pure a = Triple-pure (Inv w) (λ _ db. Inv w db) a λ db i. i

  pub Keeps-if :
      (b : Bool) (m n : Tx A)
      → (b ≡ true → Keeps w m)
      → (b ≡ false → Keeps w n)
      → Keeps w (if b then m else n)
  Keeps-if = Triple-if (Inv w) (λ _ db. Inv w db)

  pub Keeps-refuse :
      (b : Bool) (e : Error) (m : Tx A) → (b ≡ false → Keeps w m) → Keeps w (refuse b e >> m)
  Keeps-refuse = Triple-refuse (Inv w) (λ _ db. Inv w db)

  kept : (o : Option A) (db : Db) → Maybe (Inv w) (λ _ db. Inv w db) o db → Inv w db
  kept none db i = i
  kept (some a) db i = i

  pub Keeps-optional : (m : Tx A) → Keeps w m → Keeps w (optional m)
  Keeps-optional m h =
      Triple-after (Inv w) (Maybe (Inv w) (λ _ db. Inv w db)) (λ _ db. Inv w db) (optional m) kept
        (Triple-optional (Inv w) (λ _ db. Inv w db) is_not_found m h)

  -- What an action keeps of one more account, it keeps without.
  pub Keeps-forget :
      (id : Bytes) (m : Tx A) → Keeps (also id w) m → Triple (Inv (also id w)) m (λ _ db. Inv w db)
  Keeps-forget id m h =
      Triple-after (Inv (also id w)) (λ _ db. Inv (also id w) db) (λ _ db. Inv w db) m
        (λ _ db i. Inv-forget w id db i) h

module _ (w : Watch) {A B : Type 0} where
  pub Keeps-bind :
      (m : Tx A) (f : A → Tx B) → Keeps w m → ((a : A) → Keeps w (f a)) → Keeps w (m >>= f)
  Keeps-bind = Triple-bind (Inv w) (λ _ db. Inv w db) (λ _ db. Inv w db)

  pub Keeps-lift :
      (r : Result Error A) (f : A → Tx B)
      → ((a : A) → r ≡ ok a → Keeps w (f a))
      → Keeps w (lift r >>= f)
  Keeps-lift = Triple-lift (Inv w) (λ _ db. Inv w db)

  -- An account that is enrolled on the way.
  pub Keeps-enrolling :
      (id : Bytes) (m : Tx A) (f : A → Tx B)
      → Triple (Inv w) m (λ _ db. Inv (also id w) db)
      → ((a : A) → Keeps (also id w) (f a))
      → Keeps w (m >>= f)
  Keeps-enrolling id m f h k =
      Triple-bind (Inv w) (λ _ db. Inv (also id w) db) (λ _ db. Inv w db) m f h
        λ a. Keeps-forget w id (f a) (k a)
