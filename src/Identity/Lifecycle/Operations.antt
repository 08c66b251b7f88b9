-- ===== src/Identity/Lifecycle/Operations.antt =====
-- What the operations of internal/identity keep, whatever their outcome.
use openremotecode_api.Prelude.{
  ◌≡◌, refl, Bool, true, false, none, some, inl, inr, Bool-cases, if◌then◌else◌,
}
use openremotecode_api.Bytes.{Bytes}
use openremotecode_api.Database.Transaction.{ok, err}
use openremotecode_api.Database.Transaction.Triples.{within_transaction_keeps}
use openremotecode_api.Identity.Errors.{Error, is_conflict}
use openremotecode_api.Identity.Db.{Tx, Result}
use openremotecode_api.Identity.Service.{Service, Call, World, Mail, RevokedSession}
use openremotecode_api.Identity.Types.{Delivery, delivered, undeliverable, delivery_failed}
use openremotecode_api.Identity.Operations.{
  Op, then_run, return, raise, require, ◌>>=◌, commits, unless_conflict, conflict_as_none, send,
  announce, record_outcome, record_delivery, deliver_verification_code, deliver_registration_notice,
}
use openremotecode_api.Identity.Validation.{is_empty}
use openremotecode_api.Identity.Lifecycle.{Watch, Inv, Keeps}
use openremotecode_api.Identity.Lifecycle.Users

-- An action keeps the invariant of the world's tables.
pub record Safe (w : Watch) {A : Type 0} (m : Op A) : Type 0 where
  pub at : (world : World) → Inv w world.db → Inv w (m world).1.db

module _ (w : Watch) {A : Type 0} where
  pub Safe-require : (r : Result A) → Safe w (require r)
  Safe-require r = record { at = λ world i. i }

  pub Safe-return : (a : A) → Safe w (return a)
  Safe-return a = record { at = λ world i. i }

  pub Safe-raise : (e : Error) → Safe w (raise {A = A} e)
  Safe-raise e = record { at = λ world i. i }

  pub Safe-commits : (m : Tx A) → Keeps w m → Safe w (commits m)
  unfolding commits
  Safe-commits m h = record { at = λ world i. within_transaction_keeps (Inv w) m world.db h i }

  pub Safe-if : (b : Bool) (m n : Op A) → Safe w m → Safe w n → Safe w (if b then m else n)
  Safe-if true m n h k = h
  Safe-if false m n h k = k

  conflict_keeps : (r : Result A × World) → Inv w r.1.db → Inv w (conflict_as_none r).1.db
  conflict_keeps (ok a, world) i = i
  conflict_keeps (err e, world) i = elim (Bool-cases (is_conflict e)) [
    | inl q ↦ rw (conflict_as_none, q) i
    | inr q ↦ rw (conflict_as_none, q) i
  ]

  pub Safe-unless_conflict : (m : Op A) → Safe w m → Safe w (unless_conflict m)
  unfolding unless_conflict
  Safe-unless_conflict m h = record { at = λ world i. conflict_keeps (m world) (h.at world i) }

module _ (w : Watch) {A B : Type 0} where
  pub then_keeps :
      (r : Result A × World) (f : A → Op B)
      → ((a : A) → r.0 ≡ ok a → Inv w (f a r.1).1.db)
      → Inv w r.1.db
      → Inv w (then_run r f).1.db
  then_keeps (ok a, world) f h i = h a refl
  then_keeps (err e, world) f h i = i

  pub Safe-bind : (m : Op A) (f : A → Op B) → Safe w m → ((a : A) → Safe w (f a)) → Safe w (m >>= f)
  unfolding ◌>>=◌
  Safe-bind m f h k = record {
    at = λ world i.
        then_keeps (m world) f (λ a _. (k a).at (m world).1 (h.at world i)) (h.at world i);
  }

  -- A step whose result is at hand.
  pub Safe-given :
      (r : Result A) (f : A → Op B) → ((a : A) → r ≡ ok a → Safe w (f a)) → Safe w (require r >>= f)
  unfolding ◌>>=◌
  Safe-given r f k = record {
    at = λ world i. then_keeps (r, world) f (λ a e. (k a e).at world i) i;
  }

module _ (w : Watch) where
  pub Safe-send : (m : Mail) → Safe w (send m)
  unfolding send
  Safe-send m = record { at = λ world i. i }

  pub Safe-announce : (r : RevokedSession) → Safe w (announce r)
  unfolding announce
  Safe-announce r = record { at = λ world i. i }

  module _ (service : Service) (call : Call) where
    open service use {engine}

    Safe-record_outcome : (id : Bytes) (d : Delivery) → Safe w (record_outcome service call id d)
    Safe-record_outcome id delivered = record {
      at = λ world i.
          within_transaction_keeps (Inv w) _ world.db
            (Users.Keeps-set_email_bounced w engine id none) i;
    }
    Safe-record_outcome id undeliverable = record {
      at = λ world i.
          within_transaction_keeps (Inv w) _ world.db
            (Users.Keeps-set_email_bounced w engine id (some (call.now 1))) i;
    }
    Safe-record_outcome id delivery_failed = Safe-return w tt

    Safe-record_delivery : (id : Bytes) (d : Delivery) → Safe w (record_delivery service call id d)
    unfolding record_delivery
    Safe-record_delivery id d =
        Safe-if w (is_empty id) _ _ (Safe-return w tt) (Safe-record_outcome id d)

    pub Safe-deliver_verification_code :
        (id email code : Bytes) → Safe w (deliver_verification_code service call id email code)
    unfolding deliver_verification_code
    Safe-deliver_verification_code id email code =
        Safe-bind w _ _ (Safe-send _) λ _. Safe-record_delivery id _

    pub Safe-deliver_registration_notice :
        (normalized email : Bytes)
        → Safe w (deliver_registration_notice service call normalized email)
    unfolding deliver_registration_notice
    Safe-deliver_registration_notice normalized email =
        Safe-bind w _ _ (Safe-send _)
          λ _. record { at = λ world i. (Safe-record_delivery _ _).at world i }
