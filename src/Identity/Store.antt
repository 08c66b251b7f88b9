-- ===== src/Identity/Store.antt =====
-- internal/identity/postgres/store.go: the statements of each operation of the repository, over the
-- tables of `Db`. Row locks are not modelled: transactions run one after another.
use openremotecode_api.Prelude.{
  ℕ, suc, Bool, ◌&&◌, Option, some, none, List, [], ◌∷◌, ◌++◌, ltb, nat_eq, is_none, length,
  if◌then◌else◌,
}
use openremotecode_api.Bytes.{Bytes, ◌==◌}
use openremotecode_api.Database.{Answer, rows, error, Engine}
use openremotecode_api.Database.Rows.{any}
use openremotecode_api.Database.Transaction.{ok, err}
use openremotecode_api.Identity.Errors.{not_found}
use openremotecode_api.Identity.Types.{
  Account, AccessPrincipal, active, is_active, is_pending, User, Provider, same_provider,
  FederatedIdentity, Session, RefreshCredential, EmailVerification, AuditEvent,
}
use openremotecode_api.Identity.Db.{
  Db, Result, Tx, read, write, write_one, answered, translate_error, user_schema,
  federated_identity_schema, session_schema, refresh_credential_schema, email_verification_schema,
  audit_event_schema,
}

-- The rows of `auth_sessions JOIN users ON users.id = auth_sessions.user_id`
unfoldable pub users_of : Session → List User → List (Session × User)
users_of s [] = []
users_of s (u ∷ l) = if s.user_id == u.id then (s, u) ∷ users_of s l else users_of s l

unfoldable pub join : List Session → List User → List (Session × User)
unfolding users_of
join [] users = []
join (s ∷ l) users = users_of s users ++ join l users

-- The conditions on an account's access that the joined queries share.
abbrev pub in_force : ℕ → Session × User → Bool
in_force now (s, u) =
    ltb now s.access_token_expires_at && is_none s.revoked_at && is_active u.status

abbrev pub activated : ℕ → Account → Account
activated verified_at a = record a { status = active; email_verified_at = some verified_at }

abbrev pub principal_of : Answer (Session × User) → Result AccessPrincipal
principal_of (rows (s, u)) = ok (record {
  account = u.account;
  session_id = s.id;
  access_token_expires_at = s.access_token_expires_at;
})
principal_of (error e) = err (translate_error e)

abbrev pub account_of : Answer User → Result Account
account_of (rows u) = ok u.account
account_of (error e) = err (translate_error e)

abbrev pub counted : Answer (List (Session × User)) → Result (Unit {0})
counted (rows l) = if nat_eq (length l) 1 then ok tt else err not_found
counted (error e) = err (translate_error e)

module _ (engine : Engine) where
  unfoldable pub user_by_normalized_email : Bytes → Db → Result User
  user_by_normalized_email email db =
      answered (engine.first (λ u. u.normalized_email == email) db.users)

  unfoldable pub access_principal_by_access_token_hash : Bytes → ℕ → Db → Result AccessPrincipal
  access_principal_by_access_token_hash hash now db = principal_of (
      engine.first (λ r. (r.0.access_token_hash == hash) && in_force now r)
        (join db.sessions db.users))

  unfoldable pub active_account_by_id : Bytes → Db → Result Account
  active_account_by_id user_id db =
      account_of (engine.first (λ u. (u.id == user_id) && is_active u.status) db.users)

  unfoldable pub active_session_by_id : Bytes → Bytes → ℕ → Db → Result (Unit {0})
  active_session_by_id user_id session_id now db = counted (
      engine.find (λ r. (r.0.id == session_id) && (r.0.user_id == user_id) && in_force now r)
        (join db.sessions db.users))

  unfoldable pub set_email_bounced : Bytes → Option ℕ → Tx (Unit {0})
  set_email_bounced user_id at =
      write
        (λ db.
          engine.update (λ u. u.id == user_id)
            (λ u. record u { account = record (u.account) { email_bounced_at = at } }) db.users)
        (λ db t. record db { users = t })

  unfoldable pub create_user : User → Tx (Unit {0})
  create_user v =
      write (λ db. engine.create user_schema v db.users) (λ db t. record db { users = t })

  unfoldable pub federated_identity_for_update : Provider → Bytes → Tx FederatedIdentity
  federated_identity_for_update provider subject = read (λ db.
      engine.first (λ f. same_provider f.provider provider && (f.subject == subject))
        db.federated_identities)

  unfoldable pub federated_identity_by_user_for_update : Provider → Bytes → Tx FederatedIdentity
  federated_identity_by_user_for_update provider user_id = read (λ db.
      engine.first (λ f. same_provider f.provider provider && (f.user_id == user_id))
        db.federated_identities)

  unfoldable pub create_federated_identity : FederatedIdentity → Tx (Unit {0})
  create_federated_identity v =
      write (λ db. engine.create federated_identity_schema v db.federated_identities)
        (λ db t. record db { federated_identities = t })

  unfoldable pub touch_federated_identity : Provider → Bytes → Bytes → ℕ → Tx (Unit {0})
  touch_federated_identity provider subject email at =
      write_one engine (λ f. same_provider f.provider provider && (f.subject == subject))
        (λ f. record f { email = email; last_authenticated_at = at })
        (λ db. db.federated_identities) (λ db t. record db { federated_identities = t })

  unfoldable pub user_by_normalized_email_for_update : Bytes → Tx User
  user_by_normalized_email_for_update email =
      read (λ db. engine.first (λ u. u.normalized_email == email) db.users)

  unfoldable pub create_session : Session → Tx (Unit {0})
  create_session v =
      write (λ db. engine.create session_schema v db.sessions) (λ db t. record db { sessions = t })

  unfoldable pub create_refresh_credential : RefreshCredential → Tx (Unit {0})
  create_refresh_credential v =
      write (λ db. engine.create refresh_credential_schema v db.refresh_credentials)
        (λ db t. record db { refresh_credentials = t })

  unfoldable pub create_email_verification : EmailVerification → Tx (Unit {0})
  create_email_verification v =
      write (λ db. engine.create email_verification_schema v db.email_verifications)
        (λ db t. record db { email_verifications = t })

  -- INSERT … ON CONFLICT (user_id) DO UPDATE of all columns
  unfoldable pub replace_email_verification : EmailVerification → Tx (Unit {0})
  replace_email_verification v =
      write
        (λ db.
          if any (email_verification_schema.same_key v) db.email_verifications
          then engine.update (email_verification_schema.same_key v) (λ _. v) db.email_verifications
          else engine.create email_verification_schema v db.email_verifications)
        (λ db t. record db { email_verifications = t })

  unfoldable pub email_verification_for_update : Bytes → Tx EmailVerification
  email_verification_for_update ticket_hash =
      read (λ db. engine.first (λ v. v.ticket_hash == ticket_hash) db.email_verifications)

  unfoldable pub email_verification_by_user_id_for_update : Bytes → Tx EmailVerification
  email_verification_by_user_id_for_update user_id =
      read (λ db. engine.first (λ v. v.user_id == user_id) db.email_verifications)

  unfoldable pub increment_email_verification_attempts : Bytes → Tx (Unit {0})
  increment_email_verification_attempts user_id =
      write_one engine (λ v. v.user_id == user_id) (λ v. record v { attempts = suc (v.attempts) })
        (λ db. db.email_verifications) (λ db t. record db { email_verifications = t })

  unfoldable pub delete_email_verification : Bytes → Tx (Unit {0})
  delete_email_verification user_id =
      write (λ db. engine.remove (λ v. v.user_id == user_id) db.email_verifications)
        (λ db t. record db { email_verifications = t })

  unfoldable pub activate_user : Bytes → ℕ → Tx (Unit {0})
  activate_user user_id verified_at =
      write_one engine (λ u. (u.id == user_id) && is_pending u.status)
        (λ u. record u { account = activated verified_at u.account }) (λ db. db.users)
        (λ db t. record db { users = t })

  unfoldable pub activate_federated_user : Bytes → ℕ → Tx (Unit {0})
  activate_federated_user user_id verified_at =
      write_one engine (λ u. (u.id == user_id) && is_pending u.status)
        (λ u. record u { account = activated verified_at u.account; password_hash = none })
        (λ db. db.users) (λ db t. record db { users = t })

  unfoldable pub refresh_credential_for_update : Bytes → Tx RefreshCredential
  refresh_credential_for_update token_hash =
      read (λ db. engine.first (λ r. r.token_hash == token_hash) db.refresh_credentials)

  unfoldable pub session_for_update : Bytes → Tx Session
  session_for_update session_id = read (λ db. engine.first (λ s. s.id == session_id) db.sessions)

  unfoldable pub user_by_id : Bytes → Tx User
  user_by_id user_id = read (λ db. engine.first (λ u. u.id == user_id) db.users)

  unfoldable pub mark_refresh_credential_used : Bytes → ℕ → Tx (Unit {0})
  mark_refresh_credential_used token_hash used_at =
      write_one engine (λ r. (r.token_hash == token_hash) && is_none r.used_at)
        (λ r. record r { used_at = some used_at }) (λ db. db.refresh_credentials)
        (λ db t. record db { refresh_credentials = t })

  unfoldable pub rotate_session_access : Bytes → Bytes → ℕ → ℕ → Tx (Unit {0})
  rotate_session_access session_id access_token_hash access_expires_at refreshed_at =
      write_one engine (λ s. (s.id == session_id) && is_none s.revoked_at)
        (λ s. record s {
          access_token_hash = access_token_hash;
          access_token_expires_at = access_expires_at;
          last_refreshed_at = refreshed_at;
        })
        (λ db. db.sessions) (λ db t. record db { sessions = t })

  unfoldable pub revoke_session : Bytes → ℕ → Tx (Unit {0})
  revoke_session session_id revoked_at =
      write
        (λ db.
          engine.update (λ s. (s.id == session_id) && is_none s.revoked_at)
            (λ s. record s { revoked_at = some revoked_at }) db.sessions)
        (λ db t. record db { sessions = t })

  unfoldable pub append_audit_event : AuditEvent → Tx (Unit {0})
  append_audit_event v =
      write (λ db. engine.create audit_event_schema v db.audit_events)
        (λ db t. record db { audit_events = t })
