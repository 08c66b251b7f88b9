-- ===== src/Identity/Transactions/Sessions.antt =====
-- The transactions of `Login`, `Refresh` and `Logout` of internal/identity/service.go.
use openremotecode_api.Prelude.{
  ℕ, ◌+◌, Bool, true, false, ◌||◌, not, Option, some, none, ltb, is_some, if◌then◌else◌,
}
use openremotecode_api.Bytes.{Bytes}
use openremotecode_api.Database.Transaction.{pure, ◌>>=◌, ◌>>◌}
use openremotecode_api.Identity.Db.{Tx, optional}
use openremotecode_api.Identity.Types.{
  User, is_active, Session, RefreshCredential, Credentials, login_succeeded, refresh_reuse_detected,
  refresh_succeeded, logout_succeeded,
}
use openremotecode_api.Identity.Store.{
  refresh_credential_for_update, session_for_update, user_by_id, mark_refresh_credential_used,
  rotate_session_access, create_refresh_credential, revoke_session, append_audit_event,
}
use openremotecode_api.Identity.Validation.{hash_token}
use openremotecode_api.Identity.Service.{Service, RevokedSession}
use openremotecode_api.Identity.Materials.{SessionMaterial, audit_event}
use openremotecode_api.Identity.Transactions.{persist_session_material}

-- How a refresh ends when it commits: `credentials` and `valid`, `revoked` and `accountInactive`.
pub data RefreshOutcome : Type 0 where
  refreshed : Credentials → RefreshOutcome
  invalid : RefreshOutcome
  revoking : RevokedSession → RefreshOutcome

-- What `Refresh` issues before its transaction.
pub record NewTokens : Type 0 where
  pub access_token : Bytes
  pub refresh_token : Bytes

module _ (service : Service) where
  open service use {engine, lib}

  unfoldable pub login_transaction : User → SessionMaterial → ℕ → Tx (Unit {0})
  login_transaction user material now =
      persist_session_material engine material
      >> append_audit_event engine (audit_event login_succeeded user.id material.session.id now)

  abbrev pub revoked_of : Session → Bool → RevokedSession
  revoked_of session account_inactive = record {
    user_id = session.user_id;
    session_id = session.id;
    account_inactive = account_inactive;
  }

  -- A refresh credential that was used before ends its session.
  unfoldable pub refresh_reused : ℕ → Session → Tx RefreshOutcome
  refresh_reused now session = if is_some session.revoked_at then pure invalid else do
    revoke_session engine session.id now
    append_audit_event engine (audit_event refresh_reuse_detected session.user_id session.id now)
    pure (revoking (revoked_of session false))

  -- A session that is over: it is revoked, unless it is already.
  unfoldable pub refresh_over : ℕ → Session → Tx RefreshOutcome
  refresh_over now session =
      if is_some session.revoked_at
      then pure invalid
      else revoke_session engine session.id now >> pure (revoking (revoked_of session false))

  unfoldable pub refresh_rotate :
      ℕ → NewTokens → RefreshCredential → Session → User → Tx RefreshOutcome
  refresh_rotate now tokens refresh session user =
      if not (is_active user.status)
      then revoke_session engine session.id now >> pure (revoking (revoked_of session true))
      else do
        mark_refresh_credential_used engine refresh.token_hash now
        rotate_session_access engine session.id (hash_token lib tokens.access_token)
            (now + service.access_lifetime) now
        create_refresh_credential engine (record {
          token_hash = hash_token lib tokens.refresh_token;
          session_id = session.id;
          expires_at = session.refresh_expires_at;
          created_at = now;
          used_at = none;
        })
        append_audit_event engine (audit_event refresh_succeeded user.id session.id now)
        pure (
            refreshed (record {
              account = user.account;
              access_token = tokens.access_token;
              access_token_expires_at = now + service.access_lifetime;
              refresh_token = tokens.refresh_token;
              refresh_token_expires_at = session.refresh_expires_at;
            }))

  unfoldable pub refresh_session :
      ℕ → NewTokens → RefreshCredential → Option Session → Tx RefreshOutcome
  refresh_session now tokens refresh none = pure invalid
  refresh_session now tokens refresh (some session) =
      if is_some refresh.used_at
      then refresh_reused now session
      else if is_some session.revoked_at
          || not (ltb now refresh.expires_at)
          || not (ltb now session.refresh_expires_at)
      then refresh_over now session
      else user_by_id engine session.user_id >>= refresh_rotate now tokens refresh session

  unfoldable pub refresh_found : ℕ → NewTokens → Option RefreshCredential → Tx RefreshOutcome
  refresh_found now tokens none = pure invalid
  refresh_found now tokens (some refresh) =
      optional (session_for_update engine refresh.session_id) >>= refresh_session now tokens refresh

  unfoldable pub refresh_transaction : Bytes → ℕ → NewTokens → Tx RefreshOutcome
  refresh_transaction token_hash now tokens =
      optional (refresh_credential_for_update engine token_hash) >>= refresh_found now tokens

  unfoldable pub logout_session : ℕ → Option Session → Tx (Option RevokedSession)
  logout_session now none = pure none
  logout_session now (some session) = if is_some session.revoked_at then pure none else do
    revoke_session engine session.id now
    append_audit_event engine (audit_event logout_succeeded session.user_id session.id now)
    pure (some (revoked_of session false))

  unfoldable pub logout_found : ℕ → Option RefreshCredential → Tx (Option RevokedSession)
  logout_found now none = pure none
  logout_found now (some refresh) =
      optional (session_for_update engine refresh.session_id) >>= logout_session now

  unfoldable pub logout_transaction : Bytes → ℕ → Tx (Option RevokedSession)
  logout_transaction token_hash now =
      optional (refresh_credential_for_update engine token_hash) >>= logout_found now
