-- ===== src/Server.antt =====
-- How setupServices of cmd/server/setup.go joins the modules: what the connectors and the identity
-- modules announce as revoked is what the hub of the relay disconnects.
pub mod Authorizers
use openremotecode_api.Prelude.{
  ◌≡◌, ◌&&◌, true, List, [], ◌∷◌, refl, arith, is_some, false, ◌++◌, Bool-cases, inl, inr,
  if◌then◌else◌, ◌∙◌,
}
use openremotecode_api.Bytes.{Bytes, text, ◌==◌}
use openremotecode_api.Database.Rows.{Among}
use openremotecode_api.Connectors.Errors.{ok}
use openremotecode_api.Connectors.Types.{Revocation, Admission, is_client, is_empty, covers}
use openremotecode_api.Connectors.Tx.{Db}
use openremotecode_api.Connectors.Revoke.{revoke_account_device, revocation_of_device}
use openremotecode_api.Connectors.Revoke.Scope.{covers-revoke_account_device}
use openremotecode_api.Database.Transaction.{err}
use openremotecode_api.Identity.Errors.{invalid_refresh}
use openremotecode_api.Identity.Types.{RefreshCredential, Session}
use openremotecode_api.Identity.Tokens.{valid_token}
use openremotecode_api.Identity.Validation.{hash_token}
use openremotecode_api.Identity.Service.{Service, Call, World, RevokedSession}
use openremotecode_api.Identity.Transactions.Sessions.{revoked_of}
use openremotecode_api.Identity.Operations.Sessions.{refresh}
use openremotecode_api.Identity.Lifecycle.Steps.{Reach, empty}
use openremotecode_api.Identity.Lifecycle.Finality.{refresh_reuse_revokes}
use openremotecode_api.Relay.Hub.{Peer, Hub, disconnect}
use openremotecode_api.Relay.Hub.Disconnects.{disconnect_done}

-- `OnRevoked`, of each revocation that was announced
unfoldable pub on_revoked : List Revocation → Hub → Hub
on_revoked [] hub = hub
on_revoked (r ∷ l) hub = on_revoked l (disconnect r hub).1

-- `OnSessionRevoked`: an account that is inactive loses every socket.
unfoldable pub session_revocation : RevokedSession → Revocation
session_revocation revoked = record {
  user_id = revoked.user_id;
  connector_id = [];
  device_id = [];
  session_id = if revoked.account_inactive then [] else revoked.session_id;
}

unfoldable pub on_session_revoked : List RevokedSession → Hub → Hub
on_session_revoked [] hub = hub
on_session_revoked (r ∷ l) hub = on_session_revoked l (disconnect (session_revocation r) hub).1

-- A revocation of a device that succeeds stops every registered connection of a client of that account
-- which was admitted for that device, once its announcement has reached the hub.
pub revoked_device_is_disconnected :
    (service : openremotecode_api.Connectors.Service.Service)
    (call : openremotecode_api.Connectors.Service.Call) (user device : Bytes) (db db' : Db)
    (said : List Revocation) (hub : Hub) (p : Peer)
    → revoke_account_device service call user device db ≡ (ok tt, db', said)
    → Among p hub.peers
    → ((p.admission.user_id == user)
        && (is_client p.admission.role && (p.admission.subject_id == device)))
      ≡ true
    → ((on_revoked said hub).links p.number).done ≡ true
unfolding on_revoked
revoked_device_is_disconnected service call user device db db' said hub p e m held =
    let (announced, scope) =
      covers-revoke_account_device service call user device db db' said p.admission e in
    rw announced (disconnect_done (revocation_of_device user device) hub p m (scope ∙ held))

covers_session :
    (service : Service) (a : Admission) (s : Session)
    → is_empty s.user_id ≡ false
    → ((a.user_id == s.user_id) && (is_client a.role && (a.session_id == s.id))) ≡ true
    → covers (session_revocation (revoked_of service s false)) a ≡ true
unfolding covers session_revocation
covers_session service a s named held =
    let user : (a.user_id == s.user_id) ≡ true = ground arith in
    let rest : (is_client a.role && (a.session_id == s.id)) ≡ true = ground arith in
    elim (Bool-cases (is_empty s.id)) [
      | inl e ↦ rw (named, user, e) refl
      | inr e ↦ rw (named, user, e) rest
    ]

-- The reuse of a refresh token ends the sockets of its session: where a world that the operations built
-- has a session that is not revoked, and its account's identifier is not empty, a `Refresh` with a used
-- token of it that answers `ErrInvalidRefresh` announces revocations, and once they have reached the
-- hub, every registered connection of a client that was admitted with that session is stopped.
pub reused_session_is_disconnected :
    (service : Service) (w w' : World) (call : Call) (token : Bytes) (r : RefreshCredential)
    (s : Session) (hub : Hub) (p : Peer)
    → Reach service empty w
    → valid_token token (text "orr_") ≡ true
    → Among r w.db.refresh_credentials
    → r.token_hash ≡ hash_token service.lib token
    → is_some r.used_at ≡ true
    → Among s w.db.sessions
    → r.session_id ≡ s.id
    → is_some s.revoked_at ≡ false
    → refresh service call token w ≡ (err invalid_refresh, w')
    → is_empty s.user_id ≡ false
    → Among p hub.peers
    → ((p.admission.user_id == s.user_id)
        && (is_client p.admission.role && (p.admission.session_id == s.id)))
      ≡ true
    → (said : List RevokedSession) × (w'.announced ≡ w.announced ++ said)
      × (((on_session_revoked said hub).links p.number).done ≡ true)
unfolding on_session_revoked
reused_session_is_disconnected service w w' call token r s hub p built valid m hashed used n same
      live refused named present held =
    let (_, announced) =
      refresh_reuse_revokes service w w' call token r s built valid m hashed used n same live
        refused in
    (
      revoked_of service s false ∷ [],
      announced,
      disconnect_done (session_revocation (revoked_of service s false)) hub p present
          (covers_session service p.admission s named held),
    )
