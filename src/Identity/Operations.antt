-- ===== src/Identity/Operations.antt =====
-- The operations of `Service` of internal/identity, as actions on the world. An error leaves what
-- was done before it: only a transaction rolls back.
pub mod Register
pub mod Login
pub mod Verification
pub mod Sessions
pub mod Access
pub mod Google
pub mod Outcomes
pub mod Refused
pub mod Activated
pub mod Uniform
use openremotecode_api.Prelude.{
  ℕ, Bool, true, false, Option, some, none, [], ◌∷◌, ◌++◌, if◌then◌else◌,
}
use openremotecode_api.Bytes.{Bytes, ◌==◌}
use openremotecode_api.Database.Transaction.{ok, err, within_transaction}
use openremotecode_api.Identity.Errors.{Error, conflict, is_conflict}
use openremotecode_api.Identity.Types.{User, Delivery, delivered, undeliverable, delivery_failed}
use openremotecode_api.Identity.Db.{Db, Result, Tx}
use openremotecode_api.Identity.Store.{set_email_bounced, user_by_normalized_email}
use openremotecode_api.Identity.Validation.{is_empty}
use openremotecode_api.Identity.Service.{
  Service, Call, World, Mail, verification_code, registration_notice, RevokedSession,
}

abbrev pub Op : Type 0 → Type 0
Op A = World → Result A × World

abbrev pub return : {A : Type 0} → A → Op A
return a w = (ok a, w)

abbrev pub raise : {A : Type 0} → Error → Op A
raise e w = (err e, w)

-- A step that touches nothing, whose error is returned as it is.
abbrev pub require : {A : Type 0} → Result A → Op A
require r w = (r, w)

abbrev pub then_run : {A B : Type 0} → Result A × World → (A → Op B) → Result B × World
then_run (ok a, w) f = f a w
then_run (err e, w) f = (err e, w)

infixl 5 ◌>>=◌ ◌>>◌
unfoldable pub ◌>>=◌ : {A B : Type 0} → Op A → (A → Op B) → Op B
◌>>=◌ m f w = then_run (m w) f

abbrev pub ◌>>◌ : {B : Type 0} → Op (Unit {0}) → Op B → Op B
m >> k = m >>= λ _. k

-- `Repository.WithinTransaction`
unfoldable pub commits : {A : Type 0} → Tx A → Op A
commits m w = let (r, db) = within_transaction m w.db in (r, record w { db = db })

-- An error is replaced, whatever it is.
abbrev pub on_error : {A : Type 0} → Result A → Error → Result A
on_error (ok a) e = ok a
on_error (err _) e = err e

abbrev pub conflict_as_none : {A : Type 0} → Result A × World → Result (Option A) × World
conflict_as_none (ok a, w) = (ok (some a), w)
conflict_as_none (err e, w) = if is_conflict e then (ok none, w) else (err e, w)

-- An action whose `ErrConflict` the caller handles.
unfoldable pub unless_conflict : {A : Type 0} → Op A → Op (Option A)
unless_conflict m w = conflict_as_none (m w)

unfoldable pub send : Mail → Op (Unit {0})
send mail w = (ok tt, record w { mails = w.mails ++ (mail ∷ []) })

-- `service.onSessionRevoked`
unfoldable pub announce : RevokedSession → Op (Unit {0})
announce revoked w = (ok tt, record w { announced = w.announced ++ (revoked ∷ []) })

-- A write whose error is dropped.
abbrev pub best_effort : Tx (Unit {0}) → Op (Unit {0})
best_effort m w = let (r, db) = within_transaction m w.db in (ok tt, record w { db = db })

module _ (service : Service) (call : Call) where
  open service use {engine}

  abbrev pub record_outcome : Bytes → Delivery → Op (Unit {0})
  record_outcome user_id undeliverable =
      best_effort (set_email_bounced engine user_id (some (call.now 1)))
  record_outcome user_id delivery_failed = return tt
  record_outcome user_id delivered = best_effort (set_email_bounced engine user_id none)

  unfoldable pub record_delivery : Bytes → Delivery → Op (Unit {0})
  record_delivery user_id delivery =
      if is_empty user_id then return tt else record_outcome user_id delivery

  unfoldable pub deliver_verification_code : Bytes → Bytes → Bytes → Op (Unit {0})
  deliver_verification_code user_id email code =
      send (verification_code email code)
      >> record_delivery user_id (call.send_verification_code email code)

  abbrev pub owner_of : Result User → Bytes
  owner_of (ok user) = user.id
  owner_of (err _) = []

  unfoldable pub deliver_registration_notice : Bytes → Bytes → Op (Unit {0})
  deliver_registration_notice normalized_email email = send (registration_notice email) >> (λ w.
      record_delivery (owner_of (user_by_normalized_email engine normalized_email w.db))
        (call.send_registration_notice email) w)
