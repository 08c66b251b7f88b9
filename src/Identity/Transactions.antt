-- ===== src/Identity/Transactions.antt =====
-- The closures that internal/identity runs within a transaction.
pub mod Verification
pub mod Sessions
pub mod Google
use openremotecode_api.Prelude.{ℕ}
use openremotecode_api.Database.{Engine}
use openremotecode_api.Database.Transaction.{◌>>◌}
use openremotecode_api.Identity.Db.{Tx}
use openremotecode_api.Identity.Types.{
  User, EmailVerification, registration_succeeded, registration_conflict,
}
use openremotecode_api.Identity.Store.{
  create_user, create_email_verification, create_session, create_refresh_credential,
  append_audit_event,
}
use openremotecode_api.Identity.Materials.{
  SessionMaterial, account_audit_event, anonymous_audit_event,
}

module _ (engine : Engine) where
  unfoldable pub persist_session_material : SessionMaterial → Tx (Unit {0})
  persist_session_material material =
      create_session engine material.session >> create_refresh_credential engine material.refresh

  unfoldable pub register_transaction : User → EmailVerification → ℕ → Tx (Unit {0})
  register_transaction user stored now =
      create_user engine user
      >> (create_email_verification engine stored
          >> append_audit_event engine (account_audit_event registration_succeeded user.id now))

  unfoldable pub decoy_transaction : ℕ → Tx (Unit {0})
  decoy_transaction now =
      append_audit_event engine (anonymous_audit_event registration_conflict now)
