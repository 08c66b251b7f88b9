-- ===== src/Identity/Transactions/Google.antt =====
-- The transaction of `googleSignIn` of internal/identity/google.go.
use openremotecode_api.Prelude.{ℕ, not, Option, some, none, is_none, if◌then◌else◌}
use openremotecode_api.Bytes.{Bytes, text}
use openremotecode_api.Database.Transaction.{pure, fail, lift, refuse, ◌>>=◌, ◌>>◌}
use openremotecode_api.Identity.Errors.{
  Error, invalid_credentials, account_link_required, identity_already_linked,
}
use openremotecode_api.Identity.Db.{Tx, optional}
use openremotecode_api.Identity.Types.{
  Account, User, is_active, is_pending, active, FederatedIdentity, google, Credentials, EventType,
  google_signin_succeeded, google_account_created, google_link_required, google_identity_conflict,
  google_identity_linked,
}
use openremotecode_api.Identity.Store.{
  federated_identity_for_update, federated_identity_by_user_for_update, create_federated_identity,
  touch_federated_identity, user_by_normalized_email_for_update, user_by_id, create_user,
  activate_federated_user, activated, delete_email_verification, append_audit_event,
}
use openremotecode_api.Identity.Tokens.{issue_identifier}
use openremotecode_api.Identity.Service.{Service}
use openremotecode_api.Identity.Materials.{new_session_material, audit_event, account_audit_event}
use openremotecode_api.Identity.Transactions.{persist_session_material}

-- A refusal commits, with the event that records it.
pub data GoogleOutcome : Type 0 where
  signed_in : Credentials → GoogleOutcome
  refused : Error → GoogleOutcome

-- What the verifier asserted, and the client's name.
pub record Asserted : Type 0 where
  pub subject : Bytes
  pub email : Bytes
  pub normalized_email : Bytes
  pub client_name : Bytes

abbrev pub google_link : Asserted → Bytes → ℕ → FederatedIdentity
google_link a user_id now = record {
  provider = google;
  subject = a.subject;
  user_id = user_id;
  email = a.email;
  created_at = now;
  last_authenticated_at = now;
}

module _ (service : Service) (now : ℕ) where
  open service use {engine}

  unfoldable pub start_google_session : Account → Bytes → EventType → Bytes → Tx Credentials
  start_google_session account client_name event_type random = do
    material ← lift (new_session_material service account client_name now random)
    persist_session_material engine material
    append_audit_event engine (audit_event event_type account.id material.session.id now)
    pure material.credentials

  unfoldable pub google_refusal : EventType → Bytes → Error → Tx GoogleOutcome
  google_refusal event_type user_id refusal = do
    append_audit_event engine (account_audit_event event_type user_id now)
    pure (refused refusal)

  unfoldable pub google_returning_found :
      Asserted → Bytes → FederatedIdentity → User → Tx GoogleOutcome
  google_returning_found a random link user = do
    refuse (not (is_active user.status)) invalid_credentials
    touch_federated_identity engine google link.subject a.email now
    credentials ← start_google_session user.account a.client_name google_signin_succeeded random
    pure (signed_in credentials)

  unfoldable pub google_returning_user : Asserted → Bytes → FederatedIdentity → Tx GoogleOutcome
  google_returning_user a random link =
      user_by_id engine link.user_id >>= google_returning_found a random link

  unfoldable pub google_new_account : Asserted → Bytes → Tx GoogleOutcome
  google_new_account a random = do
    (user_id, random) ← lift (issue_identifier random (text "usr_"))
    let account : Account = record {
      id = user_id;
      email = a.email;
      status = active;
      email_verified_at = some now;
      email_bounced_at = none;
      created_at = now;
    }
    create_user engine
        (record { account = account; normalized_email = a.normalized_email; password_hash = none })
    create_federated_identity engine (google_link a user_id now)
    credentials ← start_google_session account a.client_name google_account_created random
    pure (signed_in credentials)

  -- The account may be linked; it holds no other identity of the provider.
  unfoldable pub google_link_unlinked :
      Asserted → Bytes → Account → Option FederatedIdentity → Tx GoogleOutcome
  google_link_unlinked a random account (some _) =
      google_refusal google_identity_conflict account.id identity_already_linked
  google_link_unlinked a random account none = do
    create_federated_identity engine (google_link a account.id now)
    credentials ← start_google_session account a.client_name google_identity_linked random
    pure (signed_in credentials)

  unfoldable pub google_link_account : Asserted → Bytes → Account → Tx GoogleOutcome
  google_link_account a random account =
      optional (federated_identity_by_user_for_update engine google account.id)
      >>= google_link_unlinked a random account

  -- Google's assertion completes a pending verification, and the password does not survive it.
  unfoldable pub google_activate : Asserted → Bytes → User → Tx GoogleOutcome
  google_activate a random user = do
    activate_federated_user engine user.id now
    delete_email_verification engine user.id
    google_link_account a random (activated now user.account)

  unfoldable pub google_link_existing : Asserted → Bytes → User → Tx GoogleOutcome
  google_link_existing a random user =
      if is_pending user.status
      then google_activate a random user
      else if not (is_active user.status)
      then fail invalid_credentials
      else if is_none user.email_verified_at
      then google_refusal google_link_required user.id account_link_required
      else google_link_account a random user.account

  unfoldable pub google_by_email : Asserted → Bytes → Option User → Tx GoogleOutcome
  google_by_email a random none = google_new_account a random
  google_by_email a random (some user) = google_link_existing a random user

  unfoldable pub google_by_subject : Asserted → Bytes → Option FederatedIdentity → Tx GoogleOutcome
  google_by_subject a random (some link) = google_returning_user a random link
  google_by_subject a random none =
      optional (user_by_normalized_email_for_update engine a.normalized_email)
      >>= google_by_email a random

  unfoldable pub google_transaction : Asserted → Bytes → Tx GoogleOutcome
  google_transaction a random =
      optional (federated_identity_for_update engine google a.subject)
      >>= google_by_subject a random
