-- ===== src/Identity/Lifecycle/Transactions/Refresh.antt =====
-- What the transactions of `Refresh` and `Logout` of internal/identity/service.go keep.
use openremotecode_api.Prelude.{ℕ, ◌||◌, not, Option, none, some, ltb, is_some}
use openremotecode_api.Bytes.{Bytes}
use openremotecode_api.Identity.Types.{User, is_active, Session, RefreshCredential}
use openremotecode_api.Identity.Store.{
  user_by_id, session_for_update, refresh_credential_for_update,
}
use openremotecode_api.Identity.Service.{Service}
use openremotecode_api.Identity.Transactions.Sessions.{
  NewTokens, refresh_reused, refresh_over, refresh_rotate, refresh_session, refresh_found,
  refresh_transaction, logout_session, logout_found, logout_transaction,
}
use openremotecode_api.Identity.Lifecycle.{Watch, Keeps}
use openremotecode_api.Identity.Lifecycle.Rules.{Keeps-pure, Keeps-if, Keeps-optional, Keeps-bind}
use openremotecode_api.Identity.Lifecycle.Stores

module _ (w : Watch) (service : Service) where
  open service use {engine}

  Keeps-refresh_reused : (now : ℕ) (s : Session) → Keeps w (refresh_reused service now s)
  unfolding refresh_reused
  Keeps-refresh_reused now s =
      Keeps-if w (is_some s.revoked_at) _ _ (λ _. Keeps-pure w _)
        λ _.
          Keeps-bind w _ _ (Stores.Keeps-revoke_session w engine _ _)
            λ _. Keeps-bind w _ _ (Stores.Keeps-append_audit_event w engine _) λ _. Keeps-pure w _

  Keeps-refresh_over : (now : ℕ) (s : Session) → Keeps w (refresh_over service now s)
  unfolding refresh_over
  Keeps-refresh_over now s =
      Keeps-if w (is_some s.revoked_at) _ _ (λ _. Keeps-pure w _)
        λ _. Keeps-bind w _ _ (Stores.Keeps-revoke_session w engine _ _) λ _. Keeps-pure w _

  Keeps-refresh_rotate :
      (now : ℕ) (tokens : NewTokens) (r : RefreshCredential) (s : Session) (u : User)
      → Keeps w (refresh_rotate service now tokens r s u)
  unfolding refresh_rotate
  Keeps-refresh_rotate now tokens r s u =
      Keeps-if w (not (is_active u.status)) _ _
        (λ _. Keeps-bind w _ _ (Stores.Keeps-revoke_session w engine _ _) λ _. Keeps-pure w _)
        λ _. Keeps-bind w _ _ (Stores.Keeps-mark_refresh_credential_used w engine _ _) λ _.
          Keeps-bind w _ _ (Stores.Keeps-rotate_session_access w engine _ _ _ _) λ _.
            Keeps-bind w _ _ (Stores.Keeps-create_refresh_credential w engine _)
              λ _. Keeps-bind w _ _ (Stores.Keeps-append_audit_event w engine _) λ _. Keeps-pure w _

  Keeps-refresh_session :
      (now : ℕ) (tokens : NewTokens) (r : RefreshCredential) (o : Option Session)
      → Keeps w (refresh_session service now tokens r o)
  unfolding refresh_session user_by_id
  Keeps-refresh_session now tokens r none = Keeps-pure w _
  Keeps-refresh_session now tokens r (some s) =
      Keeps-if w (is_some r.used_at) _ _ (λ _. Keeps-refresh_reused now s)
        λ _.
          Keeps-if w
            (is_some s.revoked_at
              || not (ltb now r.expires_at)
              || not (ltb now s.refresh_expires_at))
            _ _ (λ _. Keeps-refresh_over now s)
            λ _.
              Keeps-bind w _ _ (Stores.Keeps-first w engine _ _)
                (Keeps-refresh_rotate now tokens r s)

  Keeps-refresh_found :
      (now : ℕ) (tokens : NewTokens) (o : Option RefreshCredential)
      → Keeps w (refresh_found service now tokens o)
  unfolding refresh_found session_for_update
  Keeps-refresh_found now tokens none = Keeps-pure w _
  Keeps-refresh_found now tokens (some r) =
      Keeps-bind w _ _ (Keeps-optional w _ (Stores.Keeps-first w engine _ _))
        (Keeps-refresh_session now tokens r)

  pub Keeps-refresh_transaction :
      (hash : Bytes) (now : ℕ) (tokens : NewTokens)
      → Keeps w (refresh_transaction service hash now tokens)
  unfolding refresh_transaction refresh_credential_for_update
  Keeps-refresh_transaction hash now tokens =
      Keeps-bind w _ _ (Keeps-optional w _ (Stores.Keeps-first w engine _ _))
        (Keeps-refresh_found now tokens)

  Keeps-logout_session : (now : ℕ) (o : Option Session) → Keeps w (logout_session service now o)
  unfolding logout_session
  Keeps-logout_session now none = Keeps-pure w _
  Keeps-logout_session now (some s) =
      Keeps-if w (is_some s.revoked_at) _ _ (λ _. Keeps-pure w _)
        λ _.
          Keeps-bind w _ _ (Stores.Keeps-revoke_session w engine _ _)
            λ _. Keeps-bind w _ _ (Stores.Keeps-append_audit_event w engine _) λ _. Keeps-pure w _

  Keeps-logout_found :
      (now : ℕ) (o : Option RefreshCredential) → Keeps w (logout_found service now o)
  unfolding logout_found session_for_update
  Keeps-logout_found now none = Keeps-pure w _
  Keeps-logout_found now (some r) =
      Keeps-bind w _ _ (Keeps-optional w _ (Stores.Keeps-first w engine _ _))
        (Keeps-logout_session now)

  pub Keeps-logout_transaction :
      (hash : Bytes) (now : ℕ) → Keeps w (logout_transaction service hash now)
  unfolding logout_transaction refresh_credential_for_update
  Keeps-logout_transaction hash now =
      Keeps-bind w _ _ (Keeps-optional w _ (Stores.Keeps-first w engine _ _))
        (Keeps-logout_found now)
