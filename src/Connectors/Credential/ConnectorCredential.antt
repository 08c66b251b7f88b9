-- ===== src/Connectors/Credential/ConnectorCredential.antt =====
-- `OwnConnector`, `RotateConnectorCredential`, `ActivateConnectorCredential` and
-- `cancelPendingRotation` of internal/connectors/service.go.
use openremotecode_api.Prelude.{ℕ, ◌+◌, ◌||◌, not, none, some, is_some, is_none, if◌then◌else◌}
use openremotecode_api.Bytes.{Bytes, text, hmac_equal}
use openremotecode_api.Connectors.Errors.{Result, ok, err, unauthorized}
use openremotecode_api.Connectors.Types.{
  Connector, EventType, connector_credential_rotated, connector_credential_activated,
  connector_credential_rotation_cancelled,
}
use openremotecode_api.Connectors.Tx.{
  Tx, Db, pure, lift, ◌>>=◌, ◌>>◌, refuse, check, within_transaction, committed,
}
use openremotecode_api.Connectors.Tokens.{valid_token, issue_token, hash_secret}
use openremotecode_api.Connectors.Store.{
  connector_by_credential_for_update, connector_by_any_credential_for_update, save_connector,
  append_audit_event,
}
use openremotecode_api.Connectors.Service.{Service, Call}
use openremotecode_api.Connectors.Credential.{lives, RotationResult}
use openremotecode_api.Connectors.Credential.DeviceCredential.{live_until}

module _ (service : Service) (call : Call) where
  open service use {engine, lib}
  open call use {now, random}

  -- An audit event of the connector.
  unfoldable pub record_connector_event : Connector → EventType → Tx (Unit {0})
  record_connector_event connector event = append_audit_event engine (record {
    user_id = some connector.user_id;
    device_id = none;
    connector_id = some connector.id;
    pairing_id = none;
    event_type = event;
    occurred_at = now;
  })

  unfoldable pub own_connector_transaction : Bytes → Tx Connector
  own_connector_transaction credential = do
    connector ← connector_by_credential_for_update engine (hash_secret lib credential)
    refuse (is_some connector.revoked_at || not (lives connector.credential_expires_at now))
        unauthorized
    check (call.authorize_account connector.user_id)
    pure connector

  unfoldable pub own_connector : Bytes → Db → Result Connector × Db
  own_connector credential db =
      if not (valid_token credential (text "orc_"))
      then (err unauthorized, db)
      else committed (within_transaction (own_connector_transaction credential) db) ok

  unfoldable pub rotate_connector_transaction : Bytes → Tx RotationResult
  rotate_connector_transaction credential = do
    connector ← connector_by_credential_for_update engine (hash_secret lib credential)
    refuse (is_some connector.revoked_at || not (lives connector.credential_expires_at now))
        unauthorized
    check (call.authorize_account connector.user_id)
    (issued, _) ← lift (issue_token random (text "orc_"))
    let deadline = now + service.credential_activation_window
    save_connector engine (record connector {
      pending_credential_hash = some (hash_secret lib issued);
      pending_credential_expires_at = some deadline;
    })
    record_connector_event connector connector_credential_rotated
    pure (record { credential = issued; activate_by = deadline })

  unfoldable pub rotate_connector_credential : Bytes → Db → Result RotationResult × Db
  rotate_connector_credential credential db =
      if not (valid_token credential (text "orc_"))
      then (err unauthorized, db)
      else committed (within_transaction (rotate_connector_transaction credential) db) ok

  -- The pending credential becomes the current one, and its lifetime starts.
  unfoldable pub commit_connector_rotation : Bytes → Connector → Tx ℕ
  commit_connector_rotation hash connector = do
    refuse
        (is_none connector.pending_credential_hash
          || not (hmac_equal hash connector.pending_credential_hash)
          || not (lives connector.pending_credential_expires_at now))
        unauthorized
    let expires_at = now + service.connector_credential_lifetime
    save_connector engine (record connector {
      credential_hash = some hash;
      credential_expires_at = some expires_at;
      pending_credential_hash = none;
      pending_credential_expires_at = none;
    })
    record_connector_event connector connector_credential_activated
    pure expires_at

  unfoldable pub activate_connector_transaction : Bytes → Tx ℕ
  activate_connector_transaction credential = do
    let hash = hash_secret lib credential
    connector ← connector_by_any_credential_for_update engine hash
    refuse (is_some connector.revoked_at) unauthorized
    check (call.authorize_account connector.user_id)
    if hmac_equal hash connector.credential_hash
        then live_until service call connector.credential_expires_at
        else commit_connector_rotation hash connector

  unfoldable pub activate_connector_credential : Bytes → Db → Result ℕ × Db
  activate_connector_credential credential db =
      if not (valid_token credential (text "orc_"))
      then (err unauthorized, db)
      else committed (within_transaction (activate_connector_transaction credential) db) ok

  -- Using the current credential discards a rotation that was not taken up; the connector comes
  -- back.
  unfoldable pub cancel_pending_rotation : Connector → Tx Connector
  cancel_pending_rotation connector =
      if is_none connector.pending_credential_hash then pure connector else do
        let kept : Connector = record connector {
          pending_credential_hash = none;
          pending_credential_expires_at = none;
        }
        save_connector engine kept
        record_connector_event kept connector_credential_rotation_cancelled
        pure kept
