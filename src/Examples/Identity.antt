-- ===== src/Examples/Identity.antt =====
-- The results on accounts and sessions at a run of the identity module on the database in memory: an
-- account registers, verifies its address and refreshes its session, and a used token comes back.
use openremotecode_api.Prelude.{
  ℕ, ◌+◌, ◌*◌, ◌<◌, ◌≡◌, ◌≢◌, ◌⊎◌, refl, true, false, ◌&&◌, Option, none, some, List, [], ◌∷◌, ◌++◌,
  arith, is_some, inl, inr, Bool-cases,
}
use openremotecode_api.Bytes.{Bytes, text, ◌==◌, eq_refl}
use openremotecode_api.Base64.{encode}
use openremotecode_api.Database.Rows.{Among}
use openremotecode_api.Database.Transaction.{ok, err}
use openremotecode_api.Identity.Db.{Result, answered}
use openremotecode_api.Identity.Errors.{invalid_refresh, invalid_credentials, not_found}
use openremotecode_api.Identity.Types.{
  Account, pending, is_pending, User, Session, RefreshCredential, FederatedIdentity, Credentials,
  AccessPrincipal, AuthOutcome, with_credentials, with_verification, RegisterInput, LoginInput,
  VerifyEmailInput, delivered,
}
use openremotecode_api.Identity.Store.{user_by_normalized_email}
use openremotecode_api.Identity.Tokens.{
  valid_token, issue_token, issue_verification_code, limit, decimal, verification_code_space,
}
use openremotecode_api.Identity.Tokens.Issued.{IsDrawn, issued_code_is_valid, issued_token_is_valid}
use openremotecode_api.Identity.Validation.{
  Library, hash_token, normalize_email, normalize_client_name, valid_verification_code,
}
use openremotecode_api.Identity.Service.{
  RevokedSession, Service, Call, World, Mail, verification_code, minute, hour,
}
use openremotecode_api.Identity.Operations.Register.{register}
use openremotecode_api.Identity.Operations.Login.{login}
use openremotecode_api.Identity.Operations.Verification.{verify_email}
use openremotecode_api.Identity.Operations.Sessions.{refresh}
use openremotecode_api.Identity.Operations.Access.{
  authorize_account, authorize_session, authenticate_access,
}
use openremotecode_api.Identity.Operations.Activated.{Entitled, verified_email_checks}
use openremotecode_api.Identity.Operations.Uniform.{IsChallenge, registration_answers_alike}
use openremotecode_api.Identity.Transactions.Google.{Asserted}
use openremotecode_api.Identity.Operations.Google.{google_attempts, google_conflict_retries}
use openremotecode_api.Identity.Operations.Google.Loop.{google_loop, google_loop_ends}
use openremotecode_api.Identity.Operations.Refused.{login_tells_nothing}
use openremotecode_api.Identity.Lifecycle.Lockout.{Ended}
use openremotecode_api.Identity.Lifecycle.Steps.{
  Reach, here, next, registers, verifies, refreshes, empty,
}
use openremotecode_api.Identity.Lifecycle.Finality.{
  revoked_session_finality, refresh_token_used_once, refresh_reuse_revokes,
  pending_account_is_empty,
}
use openremotecode_api.Connectors.Types.{Admission, client, is_client, is_empty}
use openremotecode_api.Relay.Hub.{new_secure_peer}
use openremotecode_api.Server.{on_session_revoked, reused_session_is_disconnected}
use openremotecode_api.Server.Authorizers.{authorized_call}
use openremotecode_api.Connectors.Admissions.{validate_admission}
use openremotecode_api.Examples.Rows.{a_db}
use openremotecode_api.Examples.Relay.{admission, connected_as, hub_of}
use openremotecode_api.Examples.Memory.{memory}
use openremotecode_api.Examples.Memory
use openremotecode_api.Examples.Setup.{key, pad}

abbrev library : Library
library = record {
  sha256 = pad 48;
  trim_space = λ s. s;
  to_lower = λ s. s;
  valid_utf8 = λ _. true;
  runes = λ s. s;
  parse_address = some;
}

abbrev service : Service
service = record {
  engine = memory;
  lib = library;
  google_verifier = none;
  disposable_emails = none;
  access_lifetime = 15 * minute;
  refresh_lifetime = 30 * 24 * hour;
  dummy_hash = text "dummy";
}

-- A call whose random bytes begin with the given one.
abbrev call_at : ℕ → ℕ → Call
call_at start seed = record {
  now = λ k. start + k;
  random = λ _. (seed ∷ key) ++ key ++ key ++ key ++ key;
  hash_password = λ p. ok p;
  verify_password = λ p hash. ok (p == hash);
  send_verification_code = λ _ _. delivered;
  send_registration_notice = λ _. delivered;
}

abbrev registration : RegisterInput
registration = record {
  email = text "ada@example.com";
  password = text "a long password";
  client_name = text "phone";
}

abbrev registered_world : World
registered_world = (register service (call_at minute 1) registration empty).1

abbrev ticket_of : Result AuthOutcome → Bytes
ticket_of (ok (with_verification c)) = c.ticket
ticket_of _ = []

abbrev code_of : List Mail → Bytes
code_of (verification_code _ code ∷ _) = code
code_of _ = []

abbrev refresh_token_of : Result AuthOutcome → Bytes
refresh_token_of (ok (with_credentials c)) = c.refresh_token
refresh_token_of _ = []

abbrev answer : VerifyEmailInput
answer = record {
  ticket = ticket_of (register service (call_at minute 1) registration empty).0;
  code = code_of registered_world.mails;
}

abbrev verified_world : World
verified_world = (verify_email service (call_at (2 * minute) 2) answer registered_world).1

abbrev token : Bytes
token = refresh_token_of (verify_email service (call_at (2 * minute) 2) answer registered_world).0

abbrev refreshed_world : World
refreshed_world = (refresh service (call_at (3 * minute) 3) token verified_world).1

verified-Reach : Reach service empty verified_world
verified-Reach =
    next (next here (registers (call_at minute 1) registration refl))
      (verifies (call_at (2 * minute) 2) answer refl)

refreshed-Reach : Reach service empty refreshed_world
refreshed-Reach = next verified-Reach (refreshes (call_at (3 * minute) 3) token refl)

abbrev credentials_of : Result Credentials → Option Credentials
credentials_of (ok c) = some c
credentials_of (err _) = none

abbrev or_some : {A : Type 0} → A → Option A → A
or_some d none = d
or_some d (some a) = a

abbrev first_or : {A : Type 0} → A → List A → A
first_or d [] = d
first_or d (x ∷ _) = x

abbrev outcome_of : Result AuthOutcome → Option AuthOutcome
outcome_of (ok a) = some a
outcome_of (err _) = none

abbrev account : Account
account = record {
  id = [];
  email = [];
  status = pending;
  email_verified_at = none;
  email_bounced_at = none;
  created_at = 0;
}

abbrev credentials : Credentials
credentials =
    or_some
      (record {
        account = account;
        access_token = [];
        access_token_expires_at = 0;
        refresh_token = [];
        refresh_token_expires_at = 0;
      })
      (credentials_of (refresh service (call_at (3 * minute) 3) token verified_world).0)

abbrev session_in : World → Session
session_in w =
    first_or
      (record {
        id = [];
        user_id = [];
        access_token_hash = [];
        access_token_expires_at = 0;
        refresh_expires_at = 0;
        client_name = [];
        created_at = 0;
        last_refreshed_at = 0;
        revoked_at = none;
      })
      w.db.sessions

abbrev credential_in : World → RefreshCredential
credential_in w =
    first_or
      (record { token_hash = []; session_id = []; expires_at = 0; created_at = 0; used_at = none })
      w.db.refresh_credentials

abbrev user_in : World → User
user_in w =
    first_or (record { account = account; normalized_email = []; password_hash = none }) w.db.users

-- The used token comes back.
abbrev reused_world : World
reused_world = (refresh service (call_at (4 * minute) 4) token refreshed_world).1

reused-Reach : Reach service empty reused_world
reused-Reach = next refreshed-Reach (refreshes (call_at (4 * minute) 4) token refl)

abbrev later_world : World
later_world = (register service (call_at (5 * minute) 5) registration reused_world).1

later-Reach : Reach service reused_world later_world
later-Reach = next here (registers (call_at (5 * minute) 5) registration refl)

first_refresh :
    refresh service (call_at (3 * minute) 3) token verified_world
    ≡ (ok credentials, refreshed_world)
unfolding openremotecode_api.Identity.Types.has_password openremotecode_api.Identity.Tokens.◌>>=◌
    openremotecode_api.Identity.Tokens.read_full
    openremotecode_api.Identity.Tokens.issue_random_value
    openremotecode_api.Identity.Tokens.issue_identifier
    openremotecode_api.Identity.Tokens.issue_token openremotecode_api.Identity.Tokens.decimal
    openremotecode_api.Identity.Tokens.draw_code
    openremotecode_api.Identity.Tokens.issue_verification_code
    openremotecode_api.Identity.Tokens.valid_token openremotecode_api.Identity.Validation.all_digits
    openremotecode_api.Identity.Validation.valid_verification_code
    openremotecode_api.Identity.Validation.has_control
    openremotecode_api.Identity.Validation.hash_token
    openremotecode_api.Identity.Validation.normalize_email
    openremotecode_api.Identity.Validation.normalize_client_name
    openremotecode_api.Identity.Validation.valid_registration_password
    openremotecode_api.Identity.Validation.valid_login_password
    openremotecode_api.Identity.Materials.new_session_material
    openremotecode_api.Identity.Materials.new_verification_material
    openremotecode_api.Identity.Materials.audit_event
    openremotecode_api.Identity.Materials.account_audit_event
    openremotecode_api.Identity.Materials.anonymous_audit_event
    openremotecode_api.Identity.Transactions.persist_session_material
    openremotecode_api.Identity.Transactions.register_transaction
    openremotecode_api.Identity.Transactions.decoy_transaction
    openremotecode_api.Identity.Transactions.Sessions.login_transaction
    openremotecode_api.Identity.Transactions.Sessions.refresh_reused
    openremotecode_api.Identity.Transactions.Sessions.refresh_over
    openremotecode_api.Identity.Transactions.Sessions.refresh_rotate
    openremotecode_api.Identity.Transactions.Sessions.refresh_session
    openremotecode_api.Identity.Transactions.Sessions.refresh_found
    openremotecode_api.Identity.Transactions.Sessions.refresh_transaction
    openremotecode_api.Identity.Transactions.Sessions.logout_session
    openremotecode_api.Identity.Transactions.Sessions.logout_found
    openremotecode_api.Identity.Transactions.Sessions.logout_transaction
    openremotecode_api.Identity.Transactions.Verification.reissued_record
    openremotecode_api.Identity.Transactions.Verification.reissue_transaction
    openremotecode_api.Identity.Transactions.Verification.verify_user
    openremotecode_api.Identity.Transactions.Verification.verify_found
    openremotecode_api.Identity.Transactions.Verification.verify_transaction
    openremotecode_api.Identity.Transactions.Verification.resend_user
    openremotecode_api.Identity.Transactions.Verification.resend_found
    openremotecode_api.Identity.Transactions.Verification.resend_transaction
    openremotecode_api.Identity.Operations.◌>>=◌ openremotecode_api.Identity.Operations.commits
    openremotecode_api.Identity.Operations.unless_conflict
    openremotecode_api.Identity.Operations.send openremotecode_api.Identity.Operations.announce
    openremotecode_api.Identity.Operations.record_delivery
    openremotecode_api.Identity.Operations.deliver_verification_code
    openremotecode_api.Identity.Operations.deliver_registration_notice
    openremotecode_api.Identity.Operations.Register.is_disposable
    openremotecode_api.Identity.Operations.Register.decoy_registration
    openremotecode_api.Identity.Operations.Register.registered
    openremotecode_api.Identity.Operations.Register.register_checked
    openremotecode_api.Identity.Operations.Register.register
    openremotecode_api.Identity.Operations.Login.reissue_verification
    openremotecode_api.Identity.Operations.Login.start_session
    openremotecode_api.Identity.Operations.Login.login_user
    openremotecode_api.Identity.Operations.Login.login_found
    openremotecode_api.Identity.Operations.Login.login
    openremotecode_api.Identity.Operations.Verification.verify_email
    openremotecode_api.Identity.Operations.Verification.resend_reply
    openremotecode_api.Identity.Operations.Verification.resend_verification
    openremotecode_api.Identity.Operations.Sessions.refresh_valid
    openremotecode_api.Identity.Operations.Sessions.refresh
    openremotecode_api.Identity.Operations.Sessions.logout
    openremotecode_api.Identity.Store.users_of openremotecode_api.Identity.Store.join
    openremotecode_api.Identity.Store.user_by_normalized_email
    openremotecode_api.Identity.Store.access_principal_by_access_token_hash
    openremotecode_api.Identity.Store.active_account_by_id
    openremotecode_api.Identity.Store.active_session_by_id
    openremotecode_api.Identity.Store.set_email_bounced
    openremotecode_api.Identity.Store.create_user
    openremotecode_api.Identity.Store.federated_identity_for_update
    openremotecode_api.Identity.Store.federated_identity_by_user_for_update
    openremotecode_api.Identity.Store.create_federated_identity
    openremotecode_api.Identity.Store.touch_federated_identity
    openremotecode_api.Identity.Store.user_by_normalized_email_for_update
    openremotecode_api.Identity.Store.create_session
    openremotecode_api.Identity.Store.create_refresh_credential
    openremotecode_api.Identity.Store.create_email_verification
    openremotecode_api.Identity.Store.replace_email_verification
    openremotecode_api.Identity.Store.email_verification_for_update
    openremotecode_api.Identity.Store.email_verification_by_user_id_for_update
    openremotecode_api.Identity.Store.increment_email_verification_attempts
    openremotecode_api.Identity.Store.delete_email_verification
    openremotecode_api.Identity.Store.activate_user
    openremotecode_api.Identity.Store.activate_federated_user
    openremotecode_api.Identity.Store.refresh_credential_for_update
    openremotecode_api.Identity.Store.session_for_update
    openremotecode_api.Identity.Store.user_by_id
    openremotecode_api.Identity.Store.mark_refresh_credential_used
    openremotecode_api.Identity.Store.rotate_session_access
    openremotecode_api.Identity.Store.revoke_session
    openremotecode_api.Identity.Store.append_audit_event
    openremotecode_api.Database.Transaction.◌>>=◌ openremotecode_api.Database.Transaction.optional
    openremotecode_api.Examples.Memory.first openremotecode_api.Examples.Memory.create
    openremotecode_api.Database.Rows.any openremotecode_api.Database.Rows.map_where
    openremotecode_api.Database.Rows.put openremotecode_api.Base64.encode
    openremotecode_api.Base64.decode openremotecode_api.Base64.decode_strict
    openremotecode_api.Identity.Operations.Access.authenticate_access
    openremotecode_api.Identity.Operations.Access.current_account
    openremotecode_api.Identity.Operations.Access.authorize_account
    openremotecode_api.Identity.Operations.Access.authorize_session openremotecode_api.Bytes.◌==◌
    openremotecode_api.Bytes.has_prefix openremotecode_api.Examples.Setup.pad
first_refresh = refl

reuse_refused :
    refresh service (call_at (4 * minute) 4) token refreshed_world
    ≡ (err invalid_refresh, reused_world)
unfolding openremotecode_api.Identity.Types.has_password openremotecode_api.Identity.Tokens.◌>>=◌
    openremotecode_api.Identity.Tokens.read_full
    openremotecode_api.Identity.Tokens.issue_random_value
    openremotecode_api.Identity.Tokens.issue_identifier
    openremotecode_api.Identity.Tokens.issue_token openremotecode_api.Identity.Tokens.decimal
    openremotecode_api.Identity.Tokens.draw_code
    openremotecode_api.Identity.Tokens.issue_verification_code
    openremotecode_api.Identity.Tokens.valid_token openremotecode_api.Identity.Validation.all_digits
    openremotecode_api.Identity.Validation.valid_verification_code
    openremotecode_api.Identity.Validation.has_control
    openremotecode_api.Identity.Validation.hash_token
    openremotecode_api.Identity.Validation.normalize_email
    openremotecode_api.Identity.Validation.normalize_client_name
    openremotecode_api.Identity.Validation.valid_registration_password
    openremotecode_api.Identity.Validation.valid_login_password
    openremotecode_api.Identity.Materials.new_session_material
    openremotecode_api.Identity.Materials.new_verification_material
    openremotecode_api.Identity.Materials.audit_event
    openremotecode_api.Identity.Materials.account_audit_event
    openremotecode_api.Identity.Materials.anonymous_audit_event
    openremotecode_api.Identity.Transactions.persist_session_material
    openremotecode_api.Identity.Transactions.register_transaction
    openremotecode_api.Identity.Transactions.decoy_transaction
    openremotecode_api.Identity.Transactions.Sessions.login_transaction
    openremotecode_api.Identity.Transactions.Sessions.refresh_reused
    openremotecode_api.Identity.Transactions.Sessions.refresh_over
    openremotecode_api.Identity.Transactions.Sessions.refresh_rotate
    openremotecode_api.Identity.Transactions.Sessions.refresh_session
    openremotecode_api.Identity.Transactions.Sessions.refresh_found
    openremotecode_api.Identity.Transactions.Sessions.refresh_transaction
    openremotecode_api.Identity.Transactions.Sessions.logout_session
    openremotecode_api.Identity.Transactions.Sessions.logout_found
    openremotecode_api.Identity.Transactions.Sessions.logout_transaction
    openremotecode_api.Identity.Transactions.Verification.reissued_record
    openremotecode_api.Identity.Transactions.Verification.reissue_transaction
    openremotecode_api.Identity.Transactions.Verification.verify_user
    openremotecode_api.Identity.Transactions.Verification.verify_found
    openremotecode_api.Identity.Transactions.Verification.verify_transaction
    openremotecode_api.Identity.Transactions.Verification.resend_user
    openremotecode_api.Identity.Transactions.Verification.resend_found
    openremotecode_api.Identity.Transactions.Verification.resend_transaction
    openremotecode_api.Identity.Operations.◌>>=◌ openremotecode_api.Identity.Operations.commits
    openremotecode_api.Identity.Operations.unless_conflict
    openremotecode_api.Identity.Operations.send openremotecode_api.Identity.Operations.announce
    openremotecode_api.Identity.Operations.record_delivery
    openremotecode_api.Identity.Operations.deliver_verification_code
    openremotecode_api.Identity.Operations.deliver_registration_notice
    openremotecode_api.Identity.Operations.Register.is_disposable
    openremotecode_api.Identity.Operations.Register.decoy_registration
    openremotecode_api.Identity.Operations.Register.registered
    openremotecode_api.Identity.Operations.Register.register_checked
    openremotecode_api.Identity.Operations.Register.register
    openremotecode_api.Identity.Operations.Login.reissue_verification
    openremotecode_api.Identity.Operations.Login.start_session
    openremotecode_api.Identity.Operations.Login.login_user
    openremotecode_api.Identity.Operations.Login.login_found
    openremotecode_api.Identity.Operations.Login.login
    openremotecode_api.Identity.Operations.Verification.verify_email
    openremotecode_api.Identity.Operations.Verification.resend_reply
    openremotecode_api.Identity.Operations.Verification.resend_verification
    openremotecode_api.Identity.Operations.Sessions.refresh_valid
    openremotecode_api.Identity.Operations.Sessions.refresh
    openremotecode_api.Identity.Operations.Sessions.logout
    openremotecode_api.Identity.Store.users_of openremotecode_api.Identity.Store.join
    openremotecode_api.Identity.Store.user_by_normalized_email
    openremotecode_api.Identity.Store.access_principal_by_access_token_hash
    openremotecode_api.Identity.Store.active_account_by_id
    openremotecode_api.Identity.Store.active_session_by_id
    openremotecode_api.Identity.Store.set_email_bounced
    openremotecode_api.Identity.Store.create_user
    openremotecode_api.Identity.Store.federated_identity_for_update
    openremotecode_api.Identity.Store.federated_identity_by_user_for_update
    openremotecode_api.Identity.Store.create_federated_identity
    openremotecode_api.Identity.Store.touch_federated_identity
    openremotecode_api.Identity.Store.user_by_normalized_email_for_update
    openremotecode_api.Identity.Store.create_session
    openremotecode_api.Identity.Store.create_refresh_credential
    openremotecode_api.Identity.Store.create_email_verification
    openremotecode_api.Identity.Store.replace_email_verification
    openremotecode_api.Identity.Store.email_verification_for_update
    openremotecode_api.Identity.Store.email_verification_by_user_id_for_update
    openremotecode_api.Identity.Store.increment_email_verification_attempts
    openremotecode_api.Identity.Store.delete_email_verification
    openremotecode_api.Identity.Store.activate_user
    openremotecode_api.Identity.Store.activate_federated_user
    openremotecode_api.Identity.Store.refresh_credential_for_update
    openremotecode_api.Identity.Store.session_for_update
    openremotecode_api.Identity.Store.user_by_id
    openremotecode_api.Identity.Store.mark_refresh_credential_used
    openremotecode_api.Identity.Store.rotate_session_access
    openremotecode_api.Identity.Store.revoke_session
    openremotecode_api.Identity.Store.append_audit_event
    openremotecode_api.Database.Transaction.◌>>=◌ openremotecode_api.Database.Transaction.optional
    openremotecode_api.Examples.Memory.first openremotecode_api.Examples.Memory.create
    openremotecode_api.Database.Rows.any openremotecode_api.Database.Rows.map_where
    openremotecode_api.Database.Rows.put openremotecode_api.Base64.encode
    openremotecode_api.Base64.decode openremotecode_api.Base64.decode_strict
    openremotecode_api.Identity.Operations.Access.authenticate_access
    openremotecode_api.Identity.Operations.Access.current_account
    openremotecode_api.Identity.Operations.Access.authorize_account
    openremotecode_api.Identity.Operations.Access.authorize_session openremotecode_api.Bytes.◌==◌
    openremotecode_api.Bytes.has_prefix openremotecode_api.Examples.Setup.pad
reuse_refused = refl

token_is_valid : valid_token token (text "orr_") ≡ true
unfolding openremotecode_api.Identity.Types.has_password openremotecode_api.Identity.Tokens.◌>>=◌
    openremotecode_api.Identity.Tokens.read_full
    openremotecode_api.Identity.Tokens.issue_random_value
    openremotecode_api.Identity.Tokens.issue_identifier
    openremotecode_api.Identity.Tokens.issue_token openremotecode_api.Identity.Tokens.decimal
    openremotecode_api.Identity.Tokens.draw_code
    openremotecode_api.Identity.Tokens.issue_verification_code
    openremotecode_api.Identity.Tokens.valid_token openremotecode_api.Identity.Validation.all_digits
    openremotecode_api.Identity.Validation.valid_verification_code
    openremotecode_api.Identity.Validation.has_control
    openremotecode_api.Identity.Validation.hash_token
    openremotecode_api.Identity.Validation.normalize_email
    openremotecode_api.Identity.Validation.normalize_client_name
    openremotecode_api.Identity.Validation.valid_registration_password
    openremotecode_api.Identity.Validation.valid_login_password
    openremotecode_api.Identity.Materials.new_session_material
    openremotecode_api.Identity.Materials.new_verification_material
    openremotecode_api.Identity.Materials.audit_event
    openremotecode_api.Identity.Materials.account_audit_event
    openremotecode_api.Identity.Materials.anonymous_audit_event
    openremotecode_api.Identity.Transactions.persist_session_material
    openremotecode_api.Identity.Transactions.register_transaction
    openremotecode_api.Identity.Transactions.decoy_transaction
    openremotecode_api.Identity.Transactions.Sessions.login_transaction
    openremotecode_api.Identity.Transactions.Sessions.refresh_reused
    openremotecode_api.Identity.Transactions.Sessions.refresh_over
    openremotecode_api.Identity.Transactions.Sessions.refresh_rotate
    openremotecode_api.Identity.Transactions.Sessions.refresh_session
    openremotecode_api.Identity.Transactions.Sessions.refresh_found
    openremotecode_api.Identity.Transactions.Sessions.refresh_transaction
    openremotecode_api.Identity.Transactions.Sessions.logout_session
    openremotecode_api.Identity.Transactions.Sessions.logout_found
    openremotecode_api.Identity.Transactions.Sessions.logout_transaction
    openremotecode_api.Identity.Transactions.Verification.reissued_record
    openremotecode_api.Identity.Transactions.Verification.reissue_transaction
    openremotecode_api.Identity.Transactions.Verification.verify_user
    openremotecode_api.Identity.Transactions.Verification.verify_found
    openremotecode_api.Identity.Transactions.Verification.verify_transaction
    openremotecode_api.Identity.Transactions.Verification.resend_user
    openremotecode_api.Identity.Transactions.Verification.resend_found
    openremotecode_api.Identity.Transactions.Verification.resend_transaction
    openremotecode_api.Identity.Operations.◌>>=◌ openremotecode_api.Identity.Operations.commits
    openremotecode_api.Identity.Operations.unless_conflict
    openremotecode_api.Identity.Operations.send openremotecode_api.Identity.Operations.announce
    openremotecode_api.Identity.Operations.record_delivery
    openremotecode_api.Identity.Operations.deliver_verification_code
    openremotecode_api.Identity.Operations.deliver_registration_notice
    openremotecode_api.Identity.Operations.Register.is_disposable
    openremotecode_api.Identity.Operations.Register.decoy_registration
    openremotecode_api.Identity.Operations.Register.registered
    openremotecode_api.Identity.Operations.Register.register_checked
    openremotecode_api.Identity.Operations.Register.register
    openremotecode_api.Identity.Operations.Login.reissue_verification
    openremotecode_api.Identity.Operations.Login.start_session
    openremotecode_api.Identity.Operations.Login.login_user
    openremotecode_api.Identity.Operations.Login.login_found
    openremotecode_api.Identity.Operations.Login.login
    openremotecode_api.Identity.Operations.Verification.verify_email
    openremotecode_api.Identity.Operations.Verification.resend_reply
    openremotecode_api.Identity.Operations.Verification.resend_verification
    openremotecode_api.Identity.Operations.Sessions.refresh_valid
    openremotecode_api.Identity.Operations.Sessions.refresh
    openremotecode_api.Identity.Operations.Sessions.logout
    openremotecode_api.Identity.Store.users_of openremotecode_api.Identity.Store.join
    openremotecode_api.Identity.Store.user_by_normalized_email
    openremotecode_api.Identity.Store.access_principal_by_access_token_hash
    openremotecode_api.Identity.Store.active_account_by_id
    openremotecode_api.Identity.Store.active_session_by_id
    openremotecode_api.Identity.Store.set_email_bounced
    openremotecode_api.Identity.Store.create_user
    openremotecode_api.Identity.Store.federated_identity_for_update
    openremotecode_api.Identity.Store.federated_identity_by_user_for_update
    openremotecode_api.Identity.Store.create_federated_identity
    openremotecode_api.Identity.Store.touch_federated_identity
    openremotecode_api.Identity.Store.user_by_normalized_email_for_update
    openremotecode_api.Identity.Store.create_session
    openremotecode_api.Identity.Store.create_refresh_credential
    openremotecode_api.Identity.Store.create_email_verification
    openremotecode_api.Identity.Store.replace_email_verification
    openremotecode_api.Identity.Store.email_verification_for_update
    openremotecode_api.Identity.Store.email_verification_by_user_id_for_update
    openremotecode_api.Identity.Store.increment_email_verification_attempts
    openremotecode_api.Identity.Store.delete_email_verification
    openremotecode_api.Identity.Store.activate_user
    openremotecode_api.Identity.Store.activate_federated_user
    openremotecode_api.Identity.Store.refresh_credential_for_update
    openremotecode_api.Identity.Store.session_for_update
    openremotecode_api.Identity.Store.user_by_id
    openremotecode_api.Identity.Store.mark_refresh_credential_used
    openremotecode_api.Identity.Store.rotate_session_access
    openremotecode_api.Identity.Store.revoke_session
    openremotecode_api.Identity.Store.append_audit_event
    openremotecode_api.Database.Transaction.◌>>=◌ openremotecode_api.Database.Transaction.optional
    openremotecode_api.Examples.Memory.first openremotecode_api.Examples.Memory.create
    openremotecode_api.Database.Rows.any openremotecode_api.Database.Rows.map_where
    openremotecode_api.Database.Rows.put openremotecode_api.Base64.encode
    openremotecode_api.Base64.decode openremotecode_api.Base64.decode_strict
    openremotecode_api.Identity.Operations.Access.authenticate_access
    openremotecode_api.Identity.Operations.Access.current_account
    openremotecode_api.Identity.Operations.Access.authorize_account
    openremotecode_api.Identity.Operations.Access.authorize_session openremotecode_api.Bytes.◌==◌
    openremotecode_api.Bytes.has_prefix openremotecode_api.Examples.Setup.pad
token_is_valid = refl

used_there :
    Among (credential_in refreshed_world) refreshed_world.db.refresh_credentials
    × ((credential_in refreshed_world).token_hash ≡ hash_token library token)
    × (is_some (credential_in refreshed_world).used_at ≡ true)
unfolding openremotecode_api.Identity.Types.has_password openremotecode_api.Identity.Tokens.◌>>=◌
    openremotecode_api.Identity.Tokens.read_full
    openremotecode_api.Identity.Tokens.issue_random_value
    openremotecode_api.Identity.Tokens.issue_identifier
    openremotecode_api.Identity.Tokens.issue_token openremotecode_api.Identity.Tokens.decimal
    openremotecode_api.Identity.Tokens.draw_code
    openremotecode_api.Identity.Tokens.issue_verification_code
    openremotecode_api.Identity.Tokens.valid_token openremotecode_api.Identity.Validation.all_digits
    openremotecode_api.Identity.Validation.valid_verification_code
    openremotecode_api.Identity.Validation.has_control
    openremotecode_api.Identity.Validation.hash_token
    openremotecode_api.Identity.Validation.normalize_email
    openremotecode_api.Identity.Validation.normalize_client_name
    openremotecode_api.Identity.Validation.valid_registration_password
    openremotecode_api.Identity.Validation.valid_login_password
    openremotecode_api.Identity.Materials.new_session_material
    openremotecode_api.Identity.Materials.new_verification_material
    openremotecode_api.Identity.Materials.audit_event
    openremotecode_api.Identity.Materials.account_audit_event
    openremotecode_api.Identity.Materials.anonymous_audit_event
    openremotecode_api.Identity.Transactions.persist_session_material
    openremotecode_api.Identity.Transactions.register_transaction
    openremotecode_api.Identity.Transactions.decoy_transaction
    openremotecode_api.Identity.Transactions.Sessions.login_transaction
    openremotecode_api.Identity.Transactions.Sessions.refresh_reused
    openremotecode_api.Identity.Transactions.Sessions.refresh_over
    openremotecode_api.Identity.Transactions.Sessions.refresh_rotate
    openremotecode_api.Identity.Transactions.Sessions.refresh_session
    openremotecode_api.Identity.Transactions.Sessions.refresh_found
    openremotecode_api.Identity.Transactions.Sessions.refresh_transaction
    openremotecode_api.Identity.Transactions.Sessions.logout_session
    openremotecode_api.Identity.Transactions.Sessions.logout_found
    openremotecode_api.Identity.Transactions.Sessions.logout_transaction
    openremotecode_api.Identity.Transactions.Verification.reissued_record
    openremotecode_api.Identity.Transactions.Verification.reissue_transaction
    openremotecode_api.Identity.Transactions.Verification.verify_user
    openremotecode_api.Identity.Transactions.Verification.verify_found
    openremotecode_api.Identity.Transactions.Verification.verify_transaction
    openremotecode_api.Identity.Transactions.Verification.resend_user
    openremotecode_api.Identity.Transactions.Verification.resend_found
    openremotecode_api.Identity.Transactions.Verification.resend_transaction
    openremotecode_api.Identity.Operations.◌>>=◌ openremotecode_api.Identity.Operations.commits
    openremotecode_api.Identity.Operations.unless_conflict
    openremotecode_api.Identity.Operations.send openremotecode_api.Identity.Operations.announce
    openremotecode_api.Identity.Operations.record_delivery
    openremotecode_api.Identity.Operations.deliver_verification_code
    openremotecode_api.Identity.Operations.deliver_registration_notice
    openremotecode_api.Identity.Operations.Register.is_disposable
    openremotecode_api.Identity.Operations.Register.decoy_registration
    openremotecode_api.Identity.Operations.Register.registered
    openremotecode_api.Identity.Operations.Register.register_checked
    openremotecode_api.Identity.Operations.Register.register
    openremotecode_api.Identity.Operations.Login.reissue_verification
    openremotecode_api.Identity.Operations.Login.start_session
    openremotecode_api.Identity.Operations.Login.login_user
    openremotecode_api.Identity.Operations.Login.login_found
    openremotecode_api.Identity.Operations.Login.login
    openremotecode_api.Identity.Operations.Verification.verify_email
    openremotecode_api.Identity.Operations.Verification.resend_reply
    openremotecode_api.Identity.Operations.Verification.resend_verification
    openremotecode_api.Identity.Operations.Sessions.refresh_valid
    openremotecode_api.Identity.Operations.Sessions.refresh
    openremotecode_api.Identity.Operations.Sessions.logout
    openremotecode_api.Identity.Store.users_of openremotecode_api.Identity.Store.join
    openremotecode_api.Identity.Store.user_by_normalized_email
    openremotecode_api.Identity.Store.access_principal_by_access_token_hash
    openremotecode_api.Identity.Store.active_account_by_id
    openremotecode_api.Identity.Store.active_session_by_id
    openremotecode_api.Identity.Store.set_email_bounced
    openremotecode_api.Identity.Store.create_user
    openremotecode_api.Identity.Store.federated_identity_for_update
    openremotecode_api.Identity.Store.federated_identity_by_user_for_update
    openremotecode_api.Identity.Store.create_federated_identity
    openremotecode_api.Identity.Store.touch_federated_identity
    openremotecode_api.Identity.Store.user_by_normalized_email_for_update
    openremotecode_api.Identity.Store.create_session
    openremotecode_api.Identity.Store.create_refresh_credential
    openremotecode_api.Identity.Store.create_email_verification
    openremotecode_api.Identity.Store.replace_email_verification
    openremotecode_api.Identity.Store.email_verification_for_update
    openremotecode_api.Identity.Store.email_verification_by_user_id_for_update
    openremotecode_api.Identity.Store.increment_email_verification_attempts
    openremotecode_api.Identity.Store.delete_email_verification
    openremotecode_api.Identity.Store.activate_user
    openremotecode_api.Identity.Store.activate_federated_user
    openremotecode_api.Identity.Store.refresh_credential_for_update
    openremotecode_api.Identity.Store.session_for_update
    openremotecode_api.Identity.Store.user_by_id
    openremotecode_api.Identity.Store.mark_refresh_credential_used
    openremotecode_api.Identity.Store.rotate_session_access
    openremotecode_api.Identity.Store.revoke_session
    openremotecode_api.Identity.Store.append_audit_event
    openremotecode_api.Database.Transaction.◌>>=◌ openremotecode_api.Database.Transaction.optional
    openremotecode_api.Examples.Memory.first openremotecode_api.Examples.Memory.create
    openremotecode_api.Database.Rows.any openremotecode_api.Database.Rows.map_where
    openremotecode_api.Database.Rows.put openremotecode_api.Base64.encode
    openremotecode_api.Base64.decode openremotecode_api.Base64.decode_strict
    openremotecode_api.Identity.Operations.Access.authenticate_access
    openremotecode_api.Identity.Operations.Access.current_account
    openremotecode_api.Identity.Operations.Access.authorize_account
    openremotecode_api.Identity.Operations.Access.authorize_session openremotecode_api.Bytes.◌==◌
    openremotecode_api.Bytes.has_prefix openremotecode_api.Examples.Setup.pad
used_there = (inl refl, refl, refl)

live_there :
    Among (session_in refreshed_world) refreshed_world.db.sessions
    × ((credential_in refreshed_world).session_id ≡ (session_in refreshed_world).id)
    × (is_some (session_in refreshed_world).revoked_at ≡ false)
    × (is_empty (session_in refreshed_world).user_id ≡ false)
unfolding openremotecode_api.Identity.Types.has_password openremotecode_api.Identity.Tokens.◌>>=◌
    openremotecode_api.Identity.Tokens.read_full
    openremotecode_api.Identity.Tokens.issue_random_value
    openremotecode_api.Identity.Tokens.issue_identifier
    openremotecode_api.Identity.Tokens.issue_token openremotecode_api.Identity.Tokens.decimal
    openremotecode_api.Identity.Tokens.draw_code
    openremotecode_api.Identity.Tokens.issue_verification_code
    openremotecode_api.Identity.Tokens.valid_token openremotecode_api.Identity.Validation.all_digits
    openremotecode_api.Identity.Validation.valid_verification_code
    openremotecode_api.Identity.Validation.has_control
    openremotecode_api.Identity.Validation.hash_token
    openremotecode_api.Identity.Validation.normalize_email
    openremotecode_api.Identity.Validation.normalize_client_name
    openremotecode_api.Identity.Validation.valid_registration_password
    openremotecode_api.Identity.Validation.valid_login_password
    openremotecode_api.Identity.Materials.new_session_material
    openremotecode_api.Identity.Materials.new_verification_material
    openremotecode_api.Identity.Materials.audit_event
    openremotecode_api.Identity.Materials.account_audit_event
    openremotecode_api.Identity.Materials.anonymous_audit_event
    openremotecode_api.Identity.Transactions.persist_session_material
    openremotecode_api.Identity.Transactions.register_transaction
    openremotecode_api.Identity.Transactions.decoy_transaction
    openremotecode_api.Identity.Transactions.Sessions.login_transaction
    openremotecode_api.Identity.Transactions.Sessions.refresh_reused
    openremotecode_api.Identity.Transactions.Sessions.refresh_over
    openremotecode_api.Identity.Transactions.Sessions.refresh_rotate
    openremotecode_api.Identity.Transactions.Sessions.refresh_session
    openremotecode_api.Identity.Transactions.Sessions.refresh_found
    openremotecode_api.Identity.Transactions.Sessions.refresh_transaction
    openremotecode_api.Identity.Transactions.Sessions.logout_session
    openremotecode_api.Identity.Transactions.Sessions.logout_found
    openremotecode_api.Identity.Transactions.Sessions.logout_transaction
    openremotecode_api.Identity.Transactions.Verification.reissued_record
    openremotecode_api.Identity.Transactions.Verification.reissue_transaction
    openremotecode_api.Identity.Transactions.Verification.verify_user
    openremotecode_api.Identity.Transactions.Verification.verify_found
    openremotecode_api.Identity.Transactions.Verification.verify_transaction
    openremotecode_api.Identity.Transactions.Verification.resend_user
    openremotecode_api.Identity.Transactions.Verification.resend_found
    openremotecode_api.Identity.Transactions.Verification.resend_transaction
    openremotecode_api.Identity.Operations.◌>>=◌ openremotecode_api.Identity.Operations.commits
    openremotecode_api.Identity.Operations.unless_conflict
    openremotecode_api.Identity.Operations.send openremotecode_api.Identity.Operations.announce
    openremotecode_api.Identity.Operations.record_delivery
    openremotecode_api.Identity.Operations.deliver_verification_code
    openremotecode_api.Identity.Operations.deliver_registration_notice
    openremotecode_api.Identity.Operations.Register.is_disposable
    openremotecode_api.Identity.Operations.Register.decoy_registration
    openremotecode_api.Identity.Operations.Register.registered
    openremotecode_api.Identity.Operations.Register.register_checked
    openremotecode_api.Identity.Operations.Register.register
    openremotecode_api.Identity.Operations.Login.reissue_verification
    openremotecode_api.Identity.Operations.Login.start_session
    openremotecode_api.Identity.Operations.Login.login_user
    openremotecode_api.Identity.Operations.Login.login_found
    openremotecode_api.Identity.Operations.Login.login
    openremotecode_api.Identity.Operations.Verification.verify_email
    openremotecode_api.Identity.Operations.Verification.resend_reply
    openremotecode_api.Identity.Operations.Verification.resend_verification
    openremotecode_api.Identity.Operations.Sessions.refresh_valid
    openremotecode_api.Identity.Operations.Sessions.refresh
    openremotecode_api.Identity.Operations.Sessions.logout
    openremotecode_api.Identity.Store.users_of openremotecode_api.Identity.Store.join
    openremotecode_api.Identity.Store.user_by_normalized_email
    openremotecode_api.Identity.Store.access_principal_by_access_token_hash
    openremotecode_api.Identity.Store.active_account_by_id
    openremotecode_api.Identity.Store.active_session_by_id
    openremotecode_api.Identity.Store.set_email_bounced
    openremotecode_api.Identity.Store.create_user
    openremotecode_api.Identity.Store.federated_identity_for_update
    openremotecode_api.Identity.Store.federated_identity_by_user_for_update
    openremotecode_api.Identity.Store.create_federated_identity
    openremotecode_api.Identity.Store.touch_federated_identity
    openremotecode_api.Identity.Store.user_by_normalized_email_for_update
    openremotecode_api.Identity.Store.create_session
    openremotecode_api.Identity.Store.create_refresh_credential
    openremotecode_api.Identity.Store.create_email_verification
    openremotecode_api.Identity.Store.replace_email_verification
    openremotecode_api.Identity.Store.email_verification_for_update
    openremotecode_api.Identity.Store.email_verification_by_user_id_for_update
    openremotecode_api.Identity.Store.increment_email_verification_attempts
    openremotecode_api.Identity.Store.delete_email_verification
    openremotecode_api.Identity.Store.activate_user
    openremotecode_api.Identity.Store.activate_federated_user
    openremotecode_api.Identity.Store.refresh_credential_for_update
    openremotecode_api.Identity.Store.session_for_update
    openremotecode_api.Identity.Store.user_by_id
    openremotecode_api.Identity.Store.mark_refresh_credential_used
    openremotecode_api.Identity.Store.rotate_session_access
    openremotecode_api.Identity.Store.revoke_session
    openremotecode_api.Identity.Store.append_audit_event
    openremotecode_api.Database.Transaction.◌>>=◌ openremotecode_api.Database.Transaction.optional
    openremotecode_api.Examples.Memory.first openremotecode_api.Examples.Memory.create
    openremotecode_api.Database.Rows.any openremotecode_api.Database.Rows.map_where
    openremotecode_api.Database.Rows.put openremotecode_api.Base64.encode
    openremotecode_api.Base64.decode openremotecode_api.Base64.decode_strict
    openremotecode_api.Identity.Operations.Access.authenticate_access
    openremotecode_api.Identity.Operations.Access.current_account
    openremotecode_api.Identity.Operations.Access.authorize_account
    openremotecode_api.Identity.Operations.Access.authorize_session openremotecode_api.Bytes.◌==◌
    openremotecode_api.Bytes.has_prefix openremotecode_api.Examples.Setup.pad
live_there = (inl refl, refl, refl, refl)

revoked_there :
    Among (session_in reused_world) reused_world.db.sessions
    × (is_some (session_in reused_world).revoked_at ≡ true)
unfolding openremotecode_api.Identity.Types.has_password openremotecode_api.Identity.Tokens.◌>>=◌
    openremotecode_api.Identity.Tokens.read_full
    openremotecode_api.Identity.Tokens.issue_random_value
    openremotecode_api.Identity.Tokens.issue_identifier
    openremotecode_api.Identity.Tokens.issue_token openremotecode_api.Identity.Tokens.decimal
    openremotecode_api.Identity.Tokens.draw_code
    openremotecode_api.Identity.Tokens.issue_verification_code
    openremotecode_api.Identity.Tokens.valid_token openremotecode_api.Identity.Validation.all_digits
    openremotecode_api.Identity.Validation.valid_verification_code
    openremotecode_api.Identity.Validation.has_control
    openremotecode_api.Identity.Validation.hash_token
    openremotecode_api.Identity.Validation.normalize_email
    openremotecode_api.Identity.Validation.normalize_client_name
    openremotecode_api.Identity.Validation.valid_registration_password
    openremotecode_api.Identity.Validation.valid_login_password
    openremotecode_api.Identity.Materials.new_session_material
    openremotecode_api.Identity.Materials.new_verification_material
    openremotecode_api.Identity.Materials.audit_event
    openremotecode_api.Identity.Materials.account_audit_event
    openremotecode_api.Identity.Materials.anonymous_audit_event
    openremotecode_api.Identity.Transactions.persist_session_material
    openremotecode_api.Identity.Transactions.register_transaction
    openremotecode_api.Identity.Transactions.decoy_transaction
    openremotecode_api.Identity.Transactions.Sessions.login_transaction
    openremotecode_api.Identity.Transactions.Sessions.refresh_reused
    openremotecode_api.Identity.Transactions.Sessions.refresh_over
    openremotecode_api.Identity.Transactions.Sessions.refresh_rotate
    openremotecode_api.Identity.Transactions.Sessions.refresh_session
    openremotecode_api.Identity.Transactions.Sessions.refresh_found
    openremotecode_api.Identity.Transactions.Sessions.refresh_transaction
    openremotecode_api.Identity.Transactions.Sessions.logout_session
    openremotecode_api.Identity.Transactions.Sessions.logout_found
    openremotecode_api.Identity.Transactions.Sessions.logout_transaction
    openremotecode_api.Identity.Transactions.Verification.reissued_record
    openremotecode_api.Identity.Transactions.Verification.reissue_transaction
    openremotecode_api.Identity.Transactions.Verification.verify_user
    openremotecode_api.Identity.Transactions.Verification.verify_found
    openremotecode_api.Identity.Transactions.Verification.verify_transaction
    openremotecode_api.Identity.Transactions.Verification.resend_user
    openremotecode_api.Identity.Transactions.Verification.resend_found
    openremotecode_api.Identity.Transactions.Verification.resend_transaction
    openremotecode_api.Identity.Operations.◌>>=◌ openremotecode_api.Identity.Operations.commits
    openremotecode_api.Identity.Operations.unless_conflict
    openremotecode_api.Identity.Operations.send openremotecode_api.Identity.Operations.announce
    openremotecode_api.Identity.Operations.record_delivery
    openremotecode_api.Identity.Operations.deliver_verification_code
    openremotecode_api.Identity.Operations.deliver_registration_notice
    openremotecode_api.Identity.Operations.Register.is_disposable
    openremotecode_api.Identity.Operations.Register.decoy_registration
    openremotecode_api.Identity.Operations.Register.registered
    openremotecode_api.Identity.Operations.Register.register_checked
    openremotecode_api.Identity.Operations.Register.register
    openremotecode_api.Identity.Operations.Login.reissue_verification
    openremotecode_api.Identity.Operations.Login.start_session
    openremotecode_api.Identity.Operations.Login.login_user
    openremotecode_api.Identity.Operations.Login.login_found
    openremotecode_api.Identity.Operations.Login.login
    openremotecode_api.Identity.Operations.Verification.verify_email
    openremotecode_api.Identity.Operations.Verification.resend_reply
    openremotecode_api.Identity.Operations.Verification.resend_verification
    openremotecode_api.Identity.Operations.Sessions.refresh_valid
    openremotecode_api.Identity.Operations.Sessions.refresh
    openremotecode_api.Identity.Operations.Sessions.logout
    openremotecode_api.Identity.Store.users_of openremotecode_api.Identity.Store.join
    openremotecode_api.Identity.Store.user_by_normalized_email
    openremotecode_api.Identity.Store.access_principal_by_access_token_hash
    openremotecode_api.Identity.Store.active_account_by_id
    openremotecode_api.Identity.Store.active_session_by_id
    openremotecode_api.Identity.Store.set_email_bounced
    openremotecode_api.Identity.Store.create_user
    openremotecode_api.Identity.Store.federated_identity_for_update
    openremotecode_api.Identity.Store.federated_identity_by_user_for_update
    openremotecode_api.Identity.Store.create_federated_identity
    openremotecode_api.Identity.Store.touch_federated_identity
    openremotecode_api.Identity.Store.user_by_normalized_email_for_update
    openremotecode_api.Identity.Store.create_session
    openremotecode_api.Identity.Store.create_refresh_credential
    openremotecode_api.Identity.Store.create_email_verification
    openremotecode_api.Identity.Store.replace_email_verification
    openremotecode_api.Identity.Store.email_verification_for_update
    openremotecode_api.Identity.Store.email_verification_by_user_id_for_update
    openremotecode_api.Identity.Store.increment_email_verification_attempts
    openremotecode_api.Identity.Store.delete_email_verification
    openremotecode_api.Identity.Store.activate_user
    openremotecode_api.Identity.Store.activate_federated_user
    openremotecode_api.Identity.Store.refresh_credential_for_update
    openremotecode_api.Identity.Store.session_for_update
    openremotecode_api.Identity.Store.user_by_id
    openremotecode_api.Identity.Store.mark_refresh_credential_used
    openremotecode_api.Identity.Store.rotate_session_access
    openremotecode_api.Identity.Store.revoke_session
    openremotecode_api.Identity.Store.append_audit_event
    openremotecode_api.Database.Transaction.◌>>=◌ openremotecode_api.Database.Transaction.optional
    openremotecode_api.Examples.Memory.first openremotecode_api.Examples.Memory.create
    openremotecode_api.Database.Rows.any openremotecode_api.Database.Rows.map_where
    openremotecode_api.Database.Rows.put openremotecode_api.Base64.encode
    openremotecode_api.Base64.decode openremotecode_api.Base64.decode_strict
    openremotecode_api.Identity.Operations.Access.authenticate_access
    openremotecode_api.Identity.Operations.Access.current_account
    openremotecode_api.Identity.Operations.Access.authorize_account
    openremotecode_api.Identity.Operations.Access.authorize_session openremotecode_api.Bytes.◌==◌
    openremotecode_api.Bytes.has_prefix openremotecode_api.Examples.Setup.pad
revoked_there = (inl refl, refl)

pending_there :
    Among (user_in registered_world) registered_world.db.users
    × (is_pending (user_in registered_world).status ≡ true)
unfolding openremotecode_api.Identity.Types.has_password openremotecode_api.Identity.Tokens.◌>>=◌
    openremotecode_api.Identity.Tokens.read_full
    openremotecode_api.Identity.Tokens.issue_random_value
    openremotecode_api.Identity.Tokens.issue_identifier
    openremotecode_api.Identity.Tokens.issue_token openremotecode_api.Identity.Tokens.decimal
    openremotecode_api.Identity.Tokens.draw_code
    openremotecode_api.Identity.Tokens.issue_verification_code
    openremotecode_api.Identity.Tokens.valid_token openremotecode_api.Identity.Validation.all_digits
    openremotecode_api.Identity.Validation.valid_verification_code
    openremotecode_api.Identity.Validation.has_control
    openremotecode_api.Identity.Validation.hash_token
    openremotecode_api.Identity.Validation.normalize_email
    openremotecode_api.Identity.Validation.normalize_client_name
    openremotecode_api.Identity.Validation.valid_registration_password
    openremotecode_api.Identity.Validation.valid_login_password
    openremotecode_api.Identity.Materials.new_session_material
    openremotecode_api.Identity.Materials.new_verification_material
    openremotecode_api.Identity.Materials.audit_event
    openremotecode_api.Identity.Materials.account_audit_event
    openremotecode_api.Identity.Materials.anonymous_audit_event
    openremotecode_api.Identity.Transactions.persist_session_material
    openremotecode_api.Identity.Transactions.register_transaction
    openremotecode_api.Identity.Transactions.decoy_transaction
    openremotecode_api.Identity.Transactions.Sessions.login_transaction
    openremotecode_api.Identity.Transactions.Sessions.refresh_reused
    openremotecode_api.Identity.Transactions.Sessions.refresh_over
    openremotecode_api.Identity.Transactions.Sessions.refresh_rotate
    openremotecode_api.Identity.Transactions.Sessions.refresh_session
    openremotecode_api.Identity.Transactions.Sessions.refresh_found
    openremotecode_api.Identity.Transactions.Sessions.refresh_transaction
    openremotecode_api.Identity.Transactions.Sessions.logout_session
    openremotecode_api.Identity.Transactions.Sessions.logout_found
    openremotecode_api.Identity.Transactions.Sessions.logout_transaction
    openremotecode_api.Identity.Transactions.Verification.reissued_record
    openremotecode_api.Identity.Transactions.Verification.reissue_transaction
    openremotecode_api.Identity.Transactions.Verification.verify_user
    openremotecode_api.Identity.Transactions.Verification.verify_found
    openremotecode_api.Identity.Transactions.Verification.verify_transaction
    openremotecode_api.Identity.Transactions.Verification.resend_user
    openremotecode_api.Identity.Transactions.Verification.resend_found
    openremotecode_api.Identity.Transactions.Verification.resend_transaction
    openremotecode_api.Identity.Operations.◌>>=◌ openremotecode_api.Identity.Operations.commits
    openremotecode_api.Identity.Operations.unless_conflict
    openremotecode_api.Identity.Operations.send openremotecode_api.Identity.Operations.announce
    openremotecode_api.Identity.Operations.record_delivery
    openremotecode_api.Identity.Operations.deliver_verification_code
    openremotecode_api.Identity.Operations.deliver_registration_notice
    openremotecode_api.Identity.Operations.Register.is_disposable
    openremotecode_api.Identity.Operations.Register.decoy_registration
    openremotecode_api.Identity.Operations.Register.registered
    openremotecode_api.Identity.Operations.Register.register_checked
    openremotecode_api.Identity.Operations.Register.register
    openremotecode_api.Identity.Operations.Login.reissue_verification
    openremotecode_api.Identity.Operations.Login.start_session
    openremotecode_api.Identity.Operations.Login.login_user
    openremotecode_api.Identity.Operations.Login.login_found
    openremotecode_api.Identity.Operations.Login.login
    openremotecode_api.Identity.Operations.Verification.verify_email
    openremotecode_api.Identity.Operations.Verification.resend_reply
    openremotecode_api.Identity.Operations.Verification.resend_verification
    openremotecode_api.Identity.Operations.Sessions.refresh_valid
    openremotecode_api.Identity.Operations.Sessions.refresh
    openremotecode_api.Identity.Operations.Sessions.logout
    openremotecode_api.Identity.Store.users_of openremotecode_api.Identity.Store.join
    openremotecode_api.Identity.Store.user_by_normalized_email
    openremotecode_api.Identity.Store.access_principal_by_access_token_hash
    openremotecode_api.Identity.Store.active_account_by_id
    openremotecode_api.Identity.Store.active_session_by_id
    openremotecode_api.Identity.Store.set_email_bounced
    openremotecode_api.Identity.Store.create_user
    openremotecode_api.Identity.Store.federated_identity_for_update
    openremotecode_api.Identity.Store.federated_identity_by_user_for_update
    openremotecode_api.Identity.Store.create_federated_identity
    openremotecode_api.Identity.Store.touch_federated_identity
    openremotecode_api.Identity.Store.user_by_normalized_email_for_update
    openremotecode_api.Identity.Store.create_session
    openremotecode_api.Identity.Store.create_refresh_credential
    openremotecode_api.Identity.Store.create_email_verification
    openremotecode_api.Identity.Store.replace_email_verification
    openremotecode_api.Identity.Store.email_verification_for_update
    openremotecode_api.Identity.Store.email_verification_by_user_id_for_update
    openremotecode_api.Identity.Store.increment_email_verification_attempts
    openremotecode_api.Identity.Store.delete_email_verification
    openremotecode_api.Identity.Store.activate_user
    openremotecode_api.Identity.Store.activate_federated_user
    openremotecode_api.Identity.Store.refresh_credential_for_update
    openremotecode_api.Identity.Store.session_for_update
    openremotecode_api.Identity.Store.user_by_id
    openremotecode_api.Identity.Store.mark_refresh_credential_used
    openremotecode_api.Identity.Store.rotate_session_access
    openremotecode_api.Identity.Store.revoke_session
    openremotecode_api.Identity.Store.append_audit_event
    openremotecode_api.Database.Transaction.◌>>=◌ openremotecode_api.Database.Transaction.optional
    openremotecode_api.Examples.Memory.first openremotecode_api.Examples.Memory.create
    openremotecode_api.Database.Rows.any openremotecode_api.Database.Rows.map_where
    openremotecode_api.Database.Rows.put openremotecode_api.Base64.encode
    openremotecode_api.Base64.decode openremotecode_api.Base64.decode_strict
    openremotecode_api.Identity.Operations.Access.authenticate_access
    openremotecode_api.Identity.Operations.Access.current_account
    openremotecode_api.Identity.Operations.Access.authorize_account
    openremotecode_api.Identity.Operations.Access.authorize_session openremotecode_api.Bytes.◌==◌
    openremotecode_api.Bytes.has_prefix openremotecode_api.Examples.Setup.pad
pending_there = (inl refl, refl)

revoked_session_finality_example :
    ((user : Bytes) (now : ℕ)
      → authorize_session service user (session_in reused_world).id now later_world.db ≢ ok tt)
    × ((token : Bytes) (now : ℕ) (p : AccessPrincipal)
        → authenticate_access service token now later_world.db ≡ ok p
        → p.session_id ≢ (session_in reused_world).id)
    × ((call : Call) (token : Bytes) (r : RefreshCredential) (c : Credentials) (w : World)
        → Among r later_world.db.refresh_credentials
        → r.session_id ≡ (session_in reused_world).id
        → r.token_hash ≡ hash_token library token
        → refresh service call token later_world ≢ (ok c, w))
revoked_session_finality_example =
    revoked_session_finality service reused_world later_world (session_in reused_world) reused-Reach
      revoked_there.0 revoked_there.1 later-Reach

refresh_token_used_once_example :
    refresh service (call_at (6 * minute) 6) token later_world ≢ (ok credentials, later_world)
refresh_token_used_once_example =
    refresh_token_used_once service verified_world refreshed_world later_world later_world
      (call_at (3 * minute) 3) (call_at (6 * minute) 6) token credentials credentials verified-Reach
      first_refresh
      (next (next here (refreshes (call_at (4 * minute) 4) token refl))
        (registers (call_at (5 * minute) 5) registration refl))

refresh_reuse_revokes_example :
    Ended (session_in refreshed_world).id reused_world.db
    × (reused_world.announced
        ≡ refreshed_world.announced
          ++ (record {
            user_id = (session_in refreshed_world).user_id;
            session_id = (session_in refreshed_world).id;
            account_inactive = false;
          }
              ∷ []))
refresh_reuse_revokes_example =
    refresh_reuse_revokes service refreshed_world reused_world (call_at (4 * minute) 4) token
      (credential_in refreshed_world) (session_in refreshed_world) refreshed-Reach token_is_valid
      used_there.0 used_there.1 used_there.2 live_there.0 live_there.1 live_there.2 reuse_refused

-- The admission of a browser that was signed in with the session.
abbrev session_admission : Admission
session_admission = record (admission client (text "c") (text "k")) {
  user_id = (session_in refreshed_world).user_id;
  session_id = (session_in refreshed_world).id;
}

session_admission_held :
    ((session_admission.user_id == (session_in refreshed_world).user_id)
      && (is_client session_admission.role
          && (session_admission.session_id == (session_in refreshed_world).id)))
    ≡ true
session_admission_held =
    rw (eq_refl (session_in refreshed_world).user_id, eq_refl (session_in refreshed_world).id) refl

-- The same browser, when its session is revoked
abbrev later_admission : Admission
later_admission = record session_admission { session_id = (session_in reused_world).id }

abbrev later_answer : openremotecode_api.Connectors.Errors.Result (Unit {0})
later_answer =
    (validate_admission openremotecode_api.Examples.Setup.service
      (authorized_call (λ _. 0) service later_world.db
        (openremotecode_api.Examples.Setup.call_at 10))
      later_admission a_db).0

reused_session_is_disconnected_example :
    (said : List RevokedSession) × (reused_world.announced ≡ refreshed_world.announced ++ said)
    × (((on_session_revoked said (hub_of session_admission)).links 1).done ≡ true)
unfolding new_secure_peer
reused_session_is_disconnected_example =
    reused_session_is_disconnected service refreshed_world reused_world (call_at (4 * minute) 4)
      token (credential_in refreshed_world) (session_in refreshed_world) (hub_of session_admission)
      (connected_as session_admission) refreshed-Reach token_is_valid used_there.0 used_there.1
      used_there.2 live_there.0 live_there.1 live_there.2 reuse_refused live_there.3 (inl refl)
      session_admission_held

abbrev asserted : Asserted
asserted = record {
  subject = text "subject";
  email = text "ann@example.com";
  normalized_email = text "ann@example.com";
  client_name = text "browser";
}

google_loop_ends_example :
    google_loop service (call_at minute 1) asserted 2 0 registered_world
    ≡ some (
        google_attempts service
          (call_at minute 1)
          asserted
          0
          google_conflict_retries
          registered_world)
google_loop_ends_example = google_loop_ends service (call_at minute 1) asserted 0 registered_world

pending_account_is_empty_example :
    ((s : Session)
      → Among s registered_world.db.sessions
      → s.user_id ≢ (user_in registered_world).id)
    × ((f : FederatedIdentity)
        → Among f registered_world.db.federated_identities
        → f.user_id ≢ (user_in registered_world).id)
pending_account_is_empty_example =
    pending_account_is_empty service registered_world (user_in registered_world)
      (next here (registers (call_at minute 1) registration refl)) pending_there.0 pending_there.1

abbrev verified_outcome : AuthOutcome
verified_outcome =
    or_some (with_credentials credentials)
      (outcome_of (verify_email service (call_at (2 * minute) 2) answer registered_world).0)

abbrev taken_outcome : AuthOutcome
taken_outcome =
    or_some (with_credentials credentials)
      (outcome_of (register service (call_at (5 * minute) 5) registration reused_world).0)

verified :
    verify_email service (call_at (2 * minute) 2) answer registered_world
    ≡ (ok verified_outcome, verified_world)
unfolding openremotecode_api.Identity.Types.has_password openremotecode_api.Identity.Tokens.◌>>=◌
    openremotecode_api.Identity.Tokens.read_full
    openremotecode_api.Identity.Tokens.issue_random_value
    openremotecode_api.Identity.Tokens.issue_identifier
    openremotecode_api.Identity.Tokens.issue_token openremotecode_api.Identity.Tokens.decimal
    openremotecode_api.Identity.Tokens.draw_code
    openremotecode_api.Identity.Tokens.issue_verification_code
    openremotecode_api.Identity.Tokens.valid_token openremotecode_api.Identity.Validation.all_digits
    openremotecode_api.Identity.Validation.valid_verification_code
    openremotecode_api.Identity.Validation.has_control
    openremotecode_api.Identity.Validation.hash_token
    openremotecode_api.Identity.Validation.normalize_email
    openremotecode_api.Identity.Validation.normalize_client_name
    openremotecode_api.Identity.Validation.valid_registration_password
    openremotecode_api.Identity.Validation.valid_login_password
    openremotecode_api.Identity.Materials.new_session_material
    openremotecode_api.Identity.Materials.new_verification_material
    openremotecode_api.Identity.Materials.audit_event
    openremotecode_api.Identity.Materials.account_audit_event
    openremotecode_api.Identity.Materials.anonymous_audit_event
    openremotecode_api.Identity.Transactions.persist_session_material
    openremotecode_api.Identity.Transactions.register_transaction
    openremotecode_api.Identity.Transactions.decoy_transaction
    openremotecode_api.Identity.Transactions.Sessions.login_transaction
    openremotecode_api.Identity.Transactions.Sessions.refresh_reused
    openremotecode_api.Identity.Transactions.Sessions.refresh_over
    openremotecode_api.Identity.Transactions.Sessions.refresh_rotate
    openremotecode_api.Identity.Transactions.Sessions.refresh_session
    openremotecode_api.Identity.Transactions.Sessions.refresh_found
    openremotecode_api.Identity.Transactions.Sessions.refresh_transaction
    openremotecode_api.Identity.Transactions.Sessions.logout_session
    openremotecode_api.Identity.Transactions.Sessions.logout_found
    openremotecode_api.Identity.Transactions.Sessions.logout_transaction
    openremotecode_api.Identity.Transactions.Verification.reissued_record
    openremotecode_api.Identity.Transactions.Verification.reissue_transaction
    openremotecode_api.Identity.Transactions.Verification.verify_user
    openremotecode_api.Identity.Transactions.Verification.verify_found
    openremotecode_api.Identity.Transactions.Verification.verify_transaction
    openremotecode_api.Identity.Transactions.Verification.resend_user
    openremotecode_api.Identity.Transactions.Verification.resend_found
    openremotecode_api.Identity.Transactions.Verification.resend_transaction
    openremotecode_api.Identity.Operations.◌>>=◌ openremotecode_api.Identity.Operations.commits
    openremotecode_api.Identity.Operations.unless_conflict
    openremotecode_api.Identity.Operations.send openremotecode_api.Identity.Operations.announce
    openremotecode_api.Identity.Operations.record_delivery
    openremotecode_api.Identity.Operations.deliver_verification_code
    openremotecode_api.Identity.Operations.deliver_registration_notice
    openremotecode_api.Identity.Operations.Register.is_disposable
    openremotecode_api.Identity.Operations.Register.decoy_registration
    openremotecode_api.Identity.Operations.Register.registered
    openremotecode_api.Identity.Operations.Register.register_checked
    openremotecode_api.Identity.Operations.Register.register
    openremotecode_api.Identity.Operations.Login.reissue_verification
    openremotecode_api.Identity.Operations.Login.start_session
    openremotecode_api.Identity.Operations.Login.login_user
    openremotecode_api.Identity.Operations.Login.login_found
    openremotecode_api.Identity.Operations.Login.login
    openremotecode_api.Identity.Operations.Verification.verify_email
    openremotecode_api.Identity.Operations.Verification.resend_reply
    openremotecode_api.Identity.Operations.Verification.resend_verification
    openremotecode_api.Identity.Operations.Sessions.refresh_valid
    openremotecode_api.Identity.Operations.Sessions.refresh
    openremotecode_api.Identity.Operations.Sessions.logout
    openremotecode_api.Identity.Store.users_of openremotecode_api.Identity.Store.join
    openremotecode_api.Identity.Store.user_by_normalized_email
    openremotecode_api.Identity.Store.access_principal_by_access_token_hash
    openremotecode_api.Identity.Store.active_account_by_id
    openremotecode_api.Identity.Store.active_session_by_id
    openremotecode_api.Identity.Store.set_email_bounced
    openremotecode_api.Identity.Store.create_user
    openremotecode_api.Identity.Store.federated_identity_for_update
    openremotecode_api.Identity.Store.federated_identity_by_user_for_update
    openremotecode_api.Identity.Store.create_federated_identity
    openremotecode_api.Identity.Store.touch_federated_identity
    openremotecode_api.Identity.Store.user_by_normalized_email_for_update
    openremotecode_api.Identity.Store.create_session
    openremotecode_api.Identity.Store.create_refresh_credential
    openremotecode_api.Identity.Store.create_email_verification
    openremotecode_api.Identity.Store.replace_email_verification
    openremotecode_api.Identity.Store.email_verification_for_update
    openremotecode_api.Identity.Store.email_verification_by_user_id_for_update
    openremotecode_api.Identity.Store.increment_email_verification_attempts
    openremotecode_api.Identity.Store.delete_email_verification
    openremotecode_api.Identity.Store.activate_user
    openremotecode_api.Identity.Store.activate_federated_user
    openremotecode_api.Identity.Store.refresh_credential_for_update
    openremotecode_api.Identity.Store.session_for_update
    openremotecode_api.Identity.Store.user_by_id
    openremotecode_api.Identity.Store.mark_refresh_credential_used
    openremotecode_api.Identity.Store.rotate_session_access
    openremotecode_api.Identity.Store.revoke_session
    openremotecode_api.Identity.Store.append_audit_event
    openremotecode_api.Database.Transaction.◌>>=◌ openremotecode_api.Database.Transaction.optional
    openremotecode_api.Examples.Memory.first openremotecode_api.Examples.Memory.create
    openremotecode_api.Database.Rows.any openremotecode_api.Database.Rows.map_where
    openremotecode_api.Database.Rows.put openremotecode_api.Base64.encode
    openremotecode_api.Base64.decode openremotecode_api.Base64.decode_strict
    openremotecode_api.Identity.Operations.Access.authenticate_access
    openremotecode_api.Identity.Operations.Access.current_account
    openremotecode_api.Identity.Operations.Access.authorize_account
    openremotecode_api.Identity.Operations.Access.authorize_session openremotecode_api.Bytes.◌==◌
    openremotecode_api.Bytes.has_prefix openremotecode_api.Examples.Setup.pad
verified = refl

taken :
    register service (call_at (5 * minute) 5) registration reused_world
    ≡ (ok taken_outcome, later_world)
unfolding openremotecode_api.Identity.Types.has_password openremotecode_api.Identity.Tokens.◌>>=◌
    openremotecode_api.Identity.Tokens.read_full
    openremotecode_api.Identity.Tokens.issue_random_value
    openremotecode_api.Identity.Tokens.issue_identifier
    openremotecode_api.Identity.Tokens.issue_token openremotecode_api.Identity.Tokens.decimal
    openremotecode_api.Identity.Tokens.draw_code
    openremotecode_api.Identity.Tokens.issue_verification_code
    openremotecode_api.Identity.Tokens.valid_token openremotecode_api.Identity.Validation.all_digits
    openremotecode_api.Identity.Validation.valid_verification_code
    openremotecode_api.Identity.Validation.has_control
    openremotecode_api.Identity.Validation.hash_token
    openremotecode_api.Identity.Validation.normalize_email
    openremotecode_api.Identity.Validation.normalize_client_name
    openremotecode_api.Identity.Validation.valid_registration_password
    openremotecode_api.Identity.Validation.valid_login_password
    openremotecode_api.Identity.Materials.new_session_material
    openremotecode_api.Identity.Materials.new_verification_material
    openremotecode_api.Identity.Materials.audit_event
    openremotecode_api.Identity.Materials.account_audit_event
    openremotecode_api.Identity.Materials.anonymous_audit_event
    openremotecode_api.Identity.Transactions.persist_session_material
    openremotecode_api.Identity.Transactions.register_transaction
    openremotecode_api.Identity.Transactions.decoy_transaction
    openremotecode_api.Identity.Transactions.Sessions.login_transaction
    openremotecode_api.Identity.Transactions.Sessions.refresh_reused
    openremotecode_api.Identity.Transactions.Sessions.refresh_over
    openremotecode_api.Identity.Transactions.Sessions.refresh_rotate
    openremotecode_api.Identity.Transactions.Sessions.refresh_session
    openremotecode_api.Identity.Transactions.Sessions.refresh_found
    openremotecode_api.Identity.Transactions.Sessions.refresh_transaction
    openremotecode_api.Identity.Transactions.Sessions.logout_session
    openremotecode_api.Identity.Transactions.Sessions.logout_found
    openremotecode_api.Identity.Transactions.Sessions.logout_transaction
    openremotecode_api.Identity.Transactions.Verification.reissued_record
    openremotecode_api.Identity.Transactions.Verification.reissue_transaction
    openremotecode_api.Identity.Transactions.Verification.verify_user
    openremotecode_api.Identity.Transactions.Verification.verify_found
    openremotecode_api.Identity.Transactions.Verification.verify_transaction
    openremotecode_api.Identity.Transactions.Verification.resend_user
    openremotecode_api.Identity.Transactions.Verification.resend_found
    openremotecode_api.Identity.Transactions.Verification.resend_transaction
    openremotecode_api.Identity.Operations.◌>>=◌ openremotecode_api.Identity.Operations.commits
    openremotecode_api.Identity.Operations.unless_conflict
    openremotecode_api.Identity.Operations.send openremotecode_api.Identity.Operations.announce
    openremotecode_api.Identity.Operations.record_delivery
    openremotecode_api.Identity.Operations.deliver_verification_code
    openremotecode_api.Identity.Operations.deliver_registration_notice
    openremotecode_api.Identity.Operations.Register.is_disposable
    openremotecode_api.Identity.Operations.Register.decoy_registration
    openremotecode_api.Identity.Operations.Register.registered
    openremotecode_api.Identity.Operations.Register.register_checked
    openremotecode_api.Identity.Operations.Register.register
    openremotecode_api.Identity.Operations.Login.reissue_verification
    openremotecode_api.Identity.Operations.Login.start_session
    openremotecode_api.Identity.Operations.Login.login_user
    openremotecode_api.Identity.Operations.Login.login_found
    openremotecode_api.Identity.Operations.Login.login
    openremotecode_api.Identity.Operations.Verification.verify_email
    openremotecode_api.Identity.Operations.Verification.resend_reply
    openremotecode_api.Identity.Operations.Verification.resend_verification
    openremotecode_api.Identity.Operations.Sessions.refresh_valid
    openremotecode_api.Identity.Operations.Sessions.refresh
    openremotecode_api.Identity.Operations.Sessions.logout
    openremotecode_api.Identity.Store.users_of openremotecode_api.Identity.Store.join
    openremotecode_api.Identity.Store.user_by_normalized_email
    openremotecode_api.Identity.Store.access_principal_by_access_token_hash
    openremotecode_api.Identity.Store.active_account_by_id
    openremotecode_api.Identity.Store.active_session_by_id
    openremotecode_api.Identity.Store.set_email_bounced
    openremotecode_api.Identity.Store.create_user
    openremotecode_api.Identity.Store.federated_identity_for_update
    openremotecode_api.Identity.Store.federated_identity_by_user_for_update
    openremotecode_api.Identity.Store.create_federated_identity
    openremotecode_api.Identity.Store.touch_federated_identity
    openremotecode_api.Identity.Store.user_by_normalized_email_for_update
    openremotecode_api.Identity.Store.create_session
    openremotecode_api.Identity.Store.create_refresh_credential
    openremotecode_api.Identity.Store.create_email_verification
    openremotecode_api.Identity.Store.replace_email_verification
    openremotecode_api.Identity.Store.email_verification_for_update
    openremotecode_api.Identity.Store.email_verification_by_user_id_for_update
    openremotecode_api.Identity.Store.increment_email_verification_attempts
    openremotecode_api.Identity.Store.delete_email_verification
    openremotecode_api.Identity.Store.activate_user
    openremotecode_api.Identity.Store.activate_federated_user
    openremotecode_api.Identity.Store.refresh_credential_for_update
    openremotecode_api.Identity.Store.session_for_update
    openremotecode_api.Identity.Store.user_by_id
    openremotecode_api.Identity.Store.mark_refresh_credential_used
    openremotecode_api.Identity.Store.rotate_session_access
    openremotecode_api.Identity.Store.revoke_session
    openremotecode_api.Identity.Store.append_audit_event
    openremotecode_api.Database.Transaction.◌>>=◌ openremotecode_api.Database.Transaction.optional
    openremotecode_api.Examples.Memory.first openremotecode_api.Examples.Memory.create
    openremotecode_api.Database.Rows.any openremotecode_api.Database.Rows.map_where
    openremotecode_api.Database.Rows.put openremotecode_api.Base64.encode
    openremotecode_api.Base64.decode openremotecode_api.Base64.decode_strict
    openremotecode_api.Identity.Operations.Access.authenticate_access
    openremotecode_api.Identity.Operations.Access.current_account
    openremotecode_api.Identity.Operations.Access.authorize_account
    openremotecode_api.Identity.Operations.Access.authorize_session openremotecode_api.Bytes.◌==◌
    openremotecode_api.Bytes.has_prefix openremotecode_api.Examples.Setup.pad
taken = refl

verified_email_checks_example :
    (c : Credentials) × (verified_outcome ≡ with_credentials c)
    × Entitled service
        (2 * minute)
        ((2 ∷ key) ++ key ++ key ++ key ++ key)
        (hash_token library answer.ticket)
        (hash_token library answer.code)
        registered_world.db
        c
verified_email_checks_example =
    verified_email_checks service (call_at (2 * minute) 2) answer registered_world verified_world
      verified_outcome verified

registration_answers_alike_example :
    (email : Bytes) × (normalized : Bytes) × (normalize_email library registration.email
      ≡ ok (email, normalized))
    × IsChallenge email (5 * minute) ((call_at (5 * minute) 5).random 0) taken_outcome
registration_answers_alike_example =
    registration_answers_alike service (call_at (5 * minute) 5) registration reused_world
      later_world taken_outcome taken

-- The engine in memory finds an account, or says that there is none.
looked_in_memory :
    (email : Bytes) (l : List User)
    → ((u : User) × (answered (Memory.first (λ u. u.normalized_email == email) l) ≡ ok u))
      ⊎ (answered (Memory.first (λ u. u.normalized_email == email) l) ≡ err not_found)
unfolding Memory.first
looked_in_memory email [] = inr refl
looked_in_memory email (u ∷ l) = elim (Bool-cases (u.normalized_email == email)) [
  | inl e ↦ inl (u, rw e refl)
  | inr e ↦ rw e (looked_in_memory email l)
]

abbrev wrong : LoginInput
wrong = record {
  email = text "ada@example.com";
  password = text "another password";
  client_name = text "phone";
}

abbrev wrong_call : Call
wrong_call = record (call_at (6 * minute) 6) { verify_password = λ _ _. ok false }

phone_is_named : normalize_client_name library (text "phone") ≡ ok (text "phone")
unfolding openremotecode_api.Identity.Types.has_password openremotecode_api.Identity.Tokens.◌>>=◌
    openremotecode_api.Identity.Tokens.read_full
    openremotecode_api.Identity.Tokens.issue_random_value
    openremotecode_api.Identity.Tokens.issue_identifier
    openremotecode_api.Identity.Tokens.issue_token openremotecode_api.Identity.Tokens.decimal
    openremotecode_api.Identity.Tokens.draw_code
    openremotecode_api.Identity.Tokens.issue_verification_code
    openremotecode_api.Identity.Tokens.valid_token openremotecode_api.Identity.Validation.all_digits
    openremotecode_api.Identity.Validation.valid_verification_code
    openremotecode_api.Identity.Validation.has_control
    openremotecode_api.Identity.Validation.hash_token
    openremotecode_api.Identity.Validation.normalize_email
    openremotecode_api.Identity.Validation.normalize_client_name
    openremotecode_api.Identity.Validation.valid_registration_password
    openremotecode_api.Identity.Validation.valid_login_password
    openremotecode_api.Identity.Materials.new_session_material
    openremotecode_api.Identity.Materials.new_verification_material
    openremotecode_api.Identity.Materials.audit_event
    openremotecode_api.Identity.Materials.account_audit_event
    openremotecode_api.Identity.Materials.anonymous_audit_event
    openremotecode_api.Identity.Transactions.persist_session_material
    openremotecode_api.Identity.Transactions.register_transaction
    openremotecode_api.Identity.Transactions.decoy_transaction
    openremotecode_api.Identity.Transactions.Sessions.login_transaction
    openremotecode_api.Identity.Transactions.Sessions.refresh_reused
    openremotecode_api.Identity.Transactions.Sessions.refresh_over
    openremotecode_api.Identity.Transactions.Sessions.refresh_rotate
    openremotecode_api.Identity.Transactions.Sessions.refresh_session
    openremotecode_api.Identity.Transactions.Sessions.refresh_found
    openremotecode_api.Identity.Transactions.Sessions.refresh_transaction
    openremotecode_api.Identity.Transactions.Sessions.logout_session
    openremotecode_api.Identity.Transactions.Sessions.logout_found
    openremotecode_api.Identity.Transactions.Sessions.logout_transaction
    openremotecode_api.Identity.Transactions.Verification.reissued_record
    openremotecode_api.Identity.Transactions.Verification.reissue_transaction
    openremotecode_api.Identity.Transactions.Verification.verify_user
    openremotecode_api.Identity.Transactions.Verification.verify_found
    openremotecode_api.Identity.Transactions.Verification.verify_transaction
    openremotecode_api.Identity.Transactions.Verification.resend_user
    openremotecode_api.Identity.Transactions.Verification.resend_found
    openremotecode_api.Identity.Transactions.Verification.resend_transaction
    openremotecode_api.Identity.Operations.◌>>=◌ openremotecode_api.Identity.Operations.commits
    openremotecode_api.Identity.Operations.unless_conflict
    openremotecode_api.Identity.Operations.send openremotecode_api.Identity.Operations.announce
    openremotecode_api.Identity.Operations.record_delivery
    openremotecode_api.Identity.Operations.deliver_verification_code
    openremotecode_api.Identity.Operations.deliver_registration_notice
    openremotecode_api.Identity.Operations.Register.is_disposable
    openremotecode_api.Identity.Operations.Register.decoy_registration
    openremotecode_api.Identity.Operations.Register.registered
    openremotecode_api.Identity.Operations.Register.register_checked
    openremotecode_api.Identity.Operations.Register.register
    openremotecode_api.Identity.Operations.Login.reissue_verification
    openremotecode_api.Identity.Operations.Login.start_session
    openremotecode_api.Identity.Operations.Login.login_user
    openremotecode_api.Identity.Operations.Login.login_found
    openremotecode_api.Identity.Operations.Login.login
    openremotecode_api.Identity.Operations.Verification.verify_email
    openremotecode_api.Identity.Operations.Verification.resend_reply
    openremotecode_api.Identity.Operations.Verification.resend_verification
    openremotecode_api.Identity.Operations.Sessions.refresh_valid
    openremotecode_api.Identity.Operations.Sessions.refresh
    openremotecode_api.Identity.Operations.Sessions.logout
    openremotecode_api.Identity.Store.users_of openremotecode_api.Identity.Store.join
    openremotecode_api.Identity.Store.user_by_normalized_email
    openremotecode_api.Identity.Store.access_principal_by_access_token_hash
    openremotecode_api.Identity.Store.active_account_by_id
    openremotecode_api.Identity.Store.active_session_by_id
    openremotecode_api.Identity.Store.set_email_bounced
    openremotecode_api.Identity.Store.create_user
    openremotecode_api.Identity.Store.federated_identity_for_update
    openremotecode_api.Identity.Store.federated_identity_by_user_for_update
    openremotecode_api.Identity.Store.create_federated_identity
    openremotecode_api.Identity.Store.touch_federated_identity
    openremotecode_api.Identity.Store.user_by_normalized_email_for_update
    openremotecode_api.Identity.Store.create_session
    openremotecode_api.Identity.Store.create_refresh_credential
    openremotecode_api.Identity.Store.create_email_verification
    openremotecode_api.Identity.Store.replace_email_verification
    openremotecode_api.Identity.Store.email_verification_for_update
    openremotecode_api.Identity.Store.email_verification_by_user_id_for_update
    openremotecode_api.Identity.Store.increment_email_verification_attempts
    openremotecode_api.Identity.Store.delete_email_verification
    openremotecode_api.Identity.Store.activate_user
    openremotecode_api.Identity.Store.activate_federated_user
    openremotecode_api.Identity.Store.refresh_credential_for_update
    openremotecode_api.Identity.Store.session_for_update
    openremotecode_api.Identity.Store.user_by_id
    openremotecode_api.Identity.Store.mark_refresh_credential_used
    openremotecode_api.Identity.Store.rotate_session_access
    openremotecode_api.Identity.Store.revoke_session
    openremotecode_api.Identity.Store.append_audit_event
    openremotecode_api.Database.Transaction.◌>>=◌ openremotecode_api.Database.Transaction.optional
    openremotecode_api.Examples.Memory.first openremotecode_api.Examples.Memory.create
    openremotecode_api.Database.Rows.any openremotecode_api.Database.Rows.map_where
    openremotecode_api.Database.Rows.put openremotecode_api.Base64.encode
    openremotecode_api.Base64.decode openremotecode_api.Base64.decode_strict
    openremotecode_api.Identity.Operations.Access.authenticate_access
    openremotecode_api.Identity.Operations.Access.current_account
    openremotecode_api.Identity.Operations.Access.authorize_account
    openremotecode_api.Identity.Operations.Access.authorize_session openremotecode_api.Bytes.◌==◌
    openremotecode_api.Bytes.has_prefix openremotecode_api.Examples.Setup.pad
phone_is_named = refl

looked :
    (email : Bytes)
    → ((u : User) × (user_by_normalized_email memory email verified_world.db ≡ ok u))
      ⊎ (user_by_normalized_email memory email verified_world.db ≡ err not_found)
unfolding user_by_normalized_email
looked email = looked_in_memory email verified_world.db.users

login_tells_nothing_example :
    login service wrong_call wrong verified_world ≡ (err invalid_credentials, verified_world)
login_tells_nothing_example =
    login_tells_nothing service wrong_call wrong verified_world (text "phone") (λ _. refl)
      phone_is_named looked

abbrev draw : Bytes
draw = 255 ∷ 255 ∷ 255 ∷ 255 ∷ 0 ∷ 1 ∷ 226 ∷ 64 ∷ 7 ∷ []

drawn : issue_verification_code draw ≡ ok (text "123456", 7 ∷ [])
unfolding openremotecode_api.Identity.Types.has_password openremotecode_api.Identity.Tokens.◌>>=◌
    openremotecode_api.Identity.Tokens.read_full
    openremotecode_api.Identity.Tokens.issue_random_value
    openremotecode_api.Identity.Tokens.issue_identifier
    openremotecode_api.Identity.Tokens.issue_token openremotecode_api.Identity.Tokens.decimal
    openremotecode_api.Identity.Tokens.draw_code
    openremotecode_api.Identity.Tokens.issue_verification_code
    openremotecode_api.Identity.Tokens.valid_token openremotecode_api.Identity.Validation.all_digits
    openremotecode_api.Identity.Validation.valid_verification_code
    openremotecode_api.Identity.Validation.has_control
    openremotecode_api.Identity.Validation.hash_token
    openremotecode_api.Identity.Validation.normalize_email
    openremotecode_api.Identity.Validation.normalize_client_name
    openremotecode_api.Identity.Validation.valid_registration_password
    openremotecode_api.Identity.Validation.valid_login_password
    openremotecode_api.Identity.Materials.new_session_material
    openremotecode_api.Identity.Materials.new_verification_material
    openremotecode_api.Identity.Materials.audit_event
    openremotecode_api.Identity.Materials.account_audit_event
    openremotecode_api.Identity.Materials.anonymous_audit_event
    openremotecode_api.Identity.Transactions.persist_session_material
    openremotecode_api.Identity.Transactions.register_transaction
    openremotecode_api.Identity.Transactions.decoy_transaction
    openremotecode_api.Identity.Transactions.Sessions.login_transaction
    openremotecode_api.Identity.Transactions.Sessions.refresh_reused
    openremotecode_api.Identity.Transactions.Sessions.refresh_over
    openremotecode_api.Identity.Transactions.Sessions.refresh_rotate
    openremotecode_api.Identity.Transactions.Sessions.refresh_session
    openremotecode_api.Identity.Transactions.Sessions.refresh_found
    openremotecode_api.Identity.Transactions.Sessions.refresh_transaction
    openremotecode_api.Identity.Transactions.Sessions.logout_session
    openremotecode_api.Identity.Transactions.Sessions.logout_found
    openremotecode_api.Identity.Transactions.Sessions.logout_transaction
    openremotecode_api.Identity.Transactions.Verification.reissued_record
    openremotecode_api.Identity.Transactions.Verification.reissue_transaction
    openremotecode_api.Identity.Transactions.Verification.verify_user
    openremotecode_api.Identity.Transactions.Verification.verify_found
    openremotecode_api.Identity.Transactions.Verification.verify_transaction
    openremotecode_api.Identity.Transactions.Verification.resend_user
    openremotecode_api.Identity.Transactions.Verification.resend_found
    openremotecode_api.Identity.Transactions.Verification.resend_transaction
    openremotecode_api.Identity.Operations.◌>>=◌ openremotecode_api.Identity.Operations.commits
    openremotecode_api.Identity.Operations.unless_conflict
    openremotecode_api.Identity.Operations.send openremotecode_api.Identity.Operations.announce
    openremotecode_api.Identity.Operations.record_delivery
    openremotecode_api.Identity.Operations.deliver_verification_code
    openremotecode_api.Identity.Operations.deliver_registration_notice
    openremotecode_api.Identity.Operations.Register.is_disposable
    openremotecode_api.Identity.Operations.Register.decoy_registration
    openremotecode_api.Identity.Operations.Register.registered
    openremotecode_api.Identity.Operations.Register.register_checked
    openremotecode_api.Identity.Operations.Register.register
    openremotecode_api.Identity.Operations.Login.reissue_verification
    openremotecode_api.Identity.Operations.Login.start_session
    openremotecode_api.Identity.Operations.Login.login_user
    openremotecode_api.Identity.Operations.Login.login_found
    openremotecode_api.Identity.Operations.Login.login
    openremotecode_api.Identity.Operations.Verification.verify_email
    openremotecode_api.Identity.Operations.Verification.resend_reply
    openremotecode_api.Identity.Operations.Verification.resend_verification
    openremotecode_api.Identity.Operations.Sessions.refresh_valid
    openremotecode_api.Identity.Operations.Sessions.refresh
    openremotecode_api.Identity.Operations.Sessions.logout
    openremotecode_api.Identity.Store.users_of openremotecode_api.Identity.Store.join
    openremotecode_api.Identity.Store.user_by_normalized_email
    openremotecode_api.Identity.Store.access_principal_by_access_token_hash
    openremotecode_api.Identity.Store.active_account_by_id
    openremotecode_api.Identity.Store.active_session_by_id
    openremotecode_api.Identity.Store.set_email_bounced
    openremotecode_api.Identity.Store.create_user
    openremotecode_api.Identity.Store.federated_identity_for_update
    openremotecode_api.Identity.Store.federated_identity_by_user_for_update
    openremotecode_api.Identity.Store.create_federated_identity
    openremotecode_api.Identity.Store.touch_federated_identity
    openremotecode_api.Identity.Store.user_by_normalized_email_for_update
    openremotecode_api.Identity.Store.create_session
    openremotecode_api.Identity.Store.create_refresh_credential
    openremotecode_api.Identity.Store.create_email_verification
    openremotecode_api.Identity.Store.replace_email_verification
    openremotecode_api.Identity.Store.email_verification_for_update
    openremotecode_api.Identity.Store.email_verification_by_user_id_for_update
    openremotecode_api.Identity.Store.increment_email_verification_attempts
    openremotecode_api.Identity.Store.delete_email_verification
    openremotecode_api.Identity.Store.activate_user
    openremotecode_api.Identity.Store.activate_federated_user
    openremotecode_api.Identity.Store.refresh_credential_for_update
    openremotecode_api.Identity.Store.session_for_update
    openremotecode_api.Identity.Store.user_by_id
    openremotecode_api.Identity.Store.mark_refresh_credential_used
    openremotecode_api.Identity.Store.rotate_session_access
    openremotecode_api.Identity.Store.revoke_session
    openremotecode_api.Identity.Store.append_audit_event
    openremotecode_api.Database.Transaction.◌>>=◌ openremotecode_api.Database.Transaction.optional
    openremotecode_api.Examples.Memory.first openremotecode_api.Examples.Memory.create
    openremotecode_api.Database.Rows.any openremotecode_api.Database.Rows.map_where
    openremotecode_api.Database.Rows.put openremotecode_api.Base64.encode
    openremotecode_api.Base64.decode openremotecode_api.Base64.decode_strict
    openremotecode_api.Identity.Operations.Access.authenticate_access
    openremotecode_api.Identity.Operations.Access.current_account
    openremotecode_api.Identity.Operations.Access.authorize_account
    openremotecode_api.Identity.Operations.Access.authorize_session openremotecode_api.Bytes.◌==◌
    openremotecode_api.Bytes.has_prefix openremotecode_api.Examples.Setup.pad
drawn = refl

issued_code_is_valid_example :
    (valid_verification_code (text "123456") ≡ true)
    × ((refused : ℕ) × (refused < 64) × IsDrawn refused draw (text "123456") (7 ∷ []))
issued_code_is_valid_example = issued_code_is_valid draw (text "123456") (7 ∷ []) drawn

abbrev issued : Bytes
issued = text "orr_" ++ encode key

issued_from_key : issue_token key (text "orr_") ≡ ok (issued, [])
unfolding openremotecode_api.Identity.Types.has_password openremotecode_api.Identity.Tokens.◌>>=◌
    openremotecode_api.Identity.Tokens.read_full
    openremotecode_api.Identity.Tokens.issue_random_value
    openremotecode_api.Identity.Tokens.issue_identifier
    openremotecode_api.Identity.Tokens.issue_token openremotecode_api.Identity.Tokens.decimal
    openremotecode_api.Identity.Tokens.draw_code
    openremotecode_api.Identity.Tokens.issue_verification_code
    openremotecode_api.Identity.Tokens.valid_token openremotecode_api.Identity.Validation.all_digits
    openremotecode_api.Identity.Validation.valid_verification_code
    openremotecode_api.Identity.Validation.has_control
    openremotecode_api.Identity.Validation.hash_token
    openremotecode_api.Identity.Validation.normalize_email
    openremotecode_api.Identity.Validation.normalize_client_name
    openremotecode_api.Identity.Validation.valid_registration_password
    openremotecode_api.Identity.Validation.valid_login_password
    openremotecode_api.Identity.Materials.new_session_material
    openremotecode_api.Identity.Materials.new_verification_material
    openremotecode_api.Identity.Materials.audit_event
    openremotecode_api.Identity.Materials.account_audit_event
    openremotecode_api.Identity.Materials.anonymous_audit_event
    openremotecode_api.Identity.Transactions.persist_session_material
    openremotecode_api.Identity.Transactions.register_transaction
    openremotecode_api.Identity.Transactions.decoy_transaction
    openremotecode_api.Identity.Transactions.Sessions.login_transaction
    openremotecode_api.Identity.Transactions.Sessions.refresh_reused
    openremotecode_api.Identity.Transactions.Sessions.refresh_over
    openremotecode_api.Identity.Transactions.Sessions.refresh_rotate
    openremotecode_api.Identity.Transactions.Sessions.refresh_session
    openremotecode_api.Identity.Transactions.Sessions.refresh_found
    openremotecode_api.Identity.Transactions.Sessions.refresh_transaction
    openremotecode_api.Identity.Transactions.Sessions.logout_session
    openremotecode_api.Identity.Transactions.Sessions.logout_found
    openremotecode_api.Identity.Transactions.Sessions.logout_transaction
    openremotecode_api.Identity.Transactions.Verification.reissued_record
    openremotecode_api.Identity.Transactions.Verification.reissue_transaction
    openremotecode_api.Identity.Transactions.Verification.verify_user
    openremotecode_api.Identity.Transactions.Verification.verify_found
    openremotecode_api.Identity.Transactions.Verification.verify_transaction
    openremotecode_api.Identity.Transactions.Verification.resend_user
    openremotecode_api.Identity.Transactions.Verification.resend_found
    openremotecode_api.Identity.Transactions.Verification.resend_transaction
    openremotecode_api.Identity.Operations.◌>>=◌ openremotecode_api.Identity.Operations.commits
    openremotecode_api.Identity.Operations.unless_conflict
    openremotecode_api.Identity.Operations.send openremotecode_api.Identity.Operations.announce
    openremotecode_api.Identity.Operations.record_delivery
    openremotecode_api.Identity.Operations.deliver_verification_code
    openremotecode_api.Identity.Operations.deliver_registration_notice
    openremotecode_api.Identity.Operations.Register.is_disposable
    openremotecode_api.Identity.Operations.Register.decoy_registration
    openremotecode_api.Identity.Operations.Register.registered
    openremotecode_api.Identity.Operations.Register.register_checked
    openremotecode_api.Identity.Operations.Register.register
    openremotecode_api.Identity.Operations.Login.reissue_verification
    openremotecode_api.Identity.Operations.Login.start_session
    openremotecode_api.Identity.Operations.Login.login_user
    openremotecode_api.Identity.Operations.Login.login_found
    openremotecode_api.Identity.Operations.Login.login
    openremotecode_api.Identity.Operations.Verification.verify_email
    openremotecode_api.Identity.Operations.Verification.resend_reply
    openremotecode_api.Identity.Operations.Verification.resend_verification
    openremotecode_api.Identity.Operations.Sessions.refresh_valid
    openremotecode_api.Identity.Operations.Sessions.refresh
    openremotecode_api.Identity.Operations.Sessions.logout
    openremotecode_api.Identity.Store.users_of openremotecode_api.Identity.Store.join
    openremotecode_api.Identity.Store.user_by_normalized_email
    openremotecode_api.Identity.Store.access_principal_by_access_token_hash
    openremotecode_api.Identity.Store.active_account_by_id
    openremotecode_api.Identity.Store.active_session_by_id
    openremotecode_api.Identity.Store.set_email_bounced
    openremotecode_api.Identity.Store.create_user
    openremotecode_api.Identity.Store.federated_identity_for_update
    openremotecode_api.Identity.Store.federated_identity_by_user_for_update
    openremotecode_api.Identity.Store.create_federated_identity
    openremotecode_api.Identity.Store.touch_federated_identity
    openremotecode_api.Identity.Store.user_by_normalized_email_for_update
    openremotecode_api.Identity.Store.create_session
    openremotecode_api.Identity.Store.create_refresh_credential
    openremotecode_api.Identity.Store.create_email_verification
    openremotecode_api.Identity.Store.replace_email_verification
    openremotecode_api.Identity.Store.email_verification_for_update
    openremotecode_api.Identity.Store.email_verification_by_user_id_for_update
    openremotecode_api.Identity.Store.increment_email_verification_attempts
    openremotecode_api.Identity.Store.delete_email_verification
    openremotecode_api.Identity.Store.activate_user
    openremotecode_api.Identity.Store.activate_federated_user
    openremotecode_api.Identity.Store.refresh_credential_for_update
    openremotecode_api.Identity.Store.session_for_update
    openremotecode_api.Identity.Store.user_by_id
    openremotecode_api.Identity.Store.mark_refresh_credential_used
    openremotecode_api.Identity.Store.rotate_session_access
    openremotecode_api.Identity.Store.revoke_session
    openremotecode_api.Identity.Store.append_audit_event
    openremotecode_api.Database.Transaction.◌>>=◌ openremotecode_api.Database.Transaction.optional
    openremotecode_api.Examples.Memory.first openremotecode_api.Examples.Memory.create
    openremotecode_api.Database.Rows.any openremotecode_api.Database.Rows.map_where
    openremotecode_api.Database.Rows.put openremotecode_api.Base64.encode
    openremotecode_api.Base64.decode openremotecode_api.Base64.decode_strict
    openremotecode_api.Identity.Operations.Access.authenticate_access
    openremotecode_api.Identity.Operations.Access.current_account
    openremotecode_api.Identity.Operations.Access.authorize_account
    openremotecode_api.Identity.Operations.Access.authorize_session openremotecode_api.Bytes.◌==◌
    openremotecode_api.Bytes.has_prefix openremotecode_api.Examples.Setup.pad
issued_from_key = refl

issued_token_is_valid_example : valid_token issued (text "orr_") ≡ true
issued_token_is_valid_example =
    issued_token_is_valid key (text "orr_") issued [] (omega arith) issued_from_key
