-- ===== src/Connectors/Revoke.antt =====
-- `RevokeConnector`, `RevokeAccountConnector`, `RevokeAccountDevice` and `RenameAccountConnector` of
-- internal/connectors/service.go. A revocation that commits is announced through `onRevoked`: an
-- operation returns, beside its result and the tables, the announcements that it made.
pub mod Scope
use openremotecode_api.Prelude.{
  ◌||◌, not, none, some, List, [], ◌∷◌, ltb, is_some, length, if◌then◌else◌,
}
use openremotecode_api.Bytes.{Bytes, text, ◌==◌}
use openremotecode_api.Connectors.Errors.{
  Error, Result, ok, err, invalid_input, unauthorized, not_found, normalize_authorization_error,
}
use openremotecode_api.Connectors.Types.{
  is_empty, Connector, Device, Revocation, connector_revoked, device_revoked, connector_renamed,
}
use openremotecode_api.Connectors.Tx.{
  Tx, Db, pure, ◌>>=◌, ◌>>◌, refuse, within_transaction, attempt, reported,
}
use openremotecode_api.Connectors.Tokens.{valid_token, normalize_name, hash_secret}
use openremotecode_api.Connectors.Store.{
  connector_by_credential_for_update, connector_by_id_for_update, save_connector,
  device_by_id_for_update, save_device, revoke_device_trust,
}
use openremotecode_api.Connectors.Service.{Service, Call}
use openremotecode_api.Connectors.Credential.{lives}
use openremotecode_api.Connectors.Credential.DeviceCredential.{record_device_event}
use openremotecode_api.Connectors.Credential.ConnectorCredential.{record_connector_event}

-- The result, the tables, and the calls of `onRevoked`.
abbrev pub Announced : Type 0
Announced = Result (Unit {0}) × Db × List Revocation

abbrev pub refused : Error → Db → Announced
refused e db = (err e, db, [])

-- A committed revocation is announced; an error is not. `RevokeConnector` normalizes its error.
abbrev pub announce : {A : Type 0} → (Error → Error) → Result A × Db → (A → Revocation) → Announced
announce f (ok a, db) r = (ok tt, db, r a ∷ [])
announce f (err e, db) r = (err (f e), db, [])

abbrev pub revocation_of_connector : Bytes → Bytes → Revocation
revocation_of_connector user_id connector_id = record {
  user_id = user_id;
  connector_id = connector_id;
  device_id = [];
  session_id = [];
}

abbrev pub revocation_of_device : Bytes → Bytes → Revocation
revocation_of_device user_id device_id = record {
  user_id = user_id;
  connector_id = [];
  device_id = device_id;
  session_id = [];
}

module _ (service : Service) (call : Call) where
  open service use {engine, lib}
  open call use {now}

  unfoldable pub mark_connector_revoked : Connector → Tx (Unit {0})
  mark_connector_revoked connector = do
    save_connector engine (record connector { revoked_at = some now })
    record_connector_event service call connector connector_revoked

  unfoldable pub revoke_connector_transaction : Bytes → Tx Revocation
  revoke_connector_transaction credential = do
    connector ← connector_by_credential_for_update engine (hash_secret lib credential)
    let revoked = revocation_of_connector connector.user_id connector.id
    if is_some connector.revoked_at then pure revoked else do
      refuse (not (lives connector.credential_expires_at now)) unauthorized
      mark_connector_revoked connector
      pure revoked

  unfoldable pub revoke_connector : Bytes → Db → Announced
  revoke_connector credential db =
      if not (valid_token credential (text "orc_"))
      then refused unauthorized db
      else announce normalize_authorization_error
          (within_transaction (revoke_connector_transaction credential) db) (λ r. r)

  unfoldable pub revoke_account_connector_transaction : Bytes → Bytes → Tx (Unit {0})
  revoke_account_connector_transaction user_id connector_id = do
    connector ← connector_by_id_for_update engine connector_id
    refuse (not (connector.user_id == user_id)) not_found
    if is_some connector.revoked_at then pure tt else mark_connector_revoked connector

  unfoldable pub revoke_account_connector : Bytes → Bytes → Db → Announced
  revoke_account_connector user_id connector_id db =
      if is_empty user_id || is_empty connector_id || ltb 64 (length connector_id)
      then refused invalid_input db
      else if is_some (call.authorize_account user_id)
      then refused unauthorized db
      else announce (λ e. e)
          (within_transaction (revoke_account_connector_transaction user_id connector_id) db)
          (λ _. revocation_of_connector user_id connector_id)

  -- The device loses its rotation and its trust together with its credential's power.
  unfoldable pub mark_device_revoked : Bytes → Device → Tx (Unit {0})
  mark_device_revoked user_id device = do
    save_device engine (record device {
      revoked_at = some now;
      pending_credential_hash = none;
      pending_credential_expires_at = none;
    })
    revoke_device_trust engine user_id device.id now
    record_device_event service call device device_revoked

  unfoldable pub revoke_account_device_transaction : Bytes → Bytes → Tx (Unit {0})
  revoke_account_device_transaction user_id device_id = do
    device ← device_by_id_for_update engine device_id
    refuse (not (device.user_id == user_id)) not_found
    if is_some device.revoked_at then pure tt else mark_device_revoked user_id device

  unfoldable pub revoke_account_device : Bytes → Bytes → Db → Announced
  revoke_account_device user_id device_id db =
      if is_empty user_id || is_empty device_id || ltb 64 (length device_id)
      then refused invalid_input db
      else if is_some (call.authorize_account user_id)
      then refused unauthorized db
      else announce (λ e. e)
          (within_transaction (revoke_account_device_transaction user_id device_id) db)
          (λ _. revocation_of_device user_id device_id)

  -- The clock is read once more for the audit event; the model reads one time in a call.
  unfoldable pub rename_transaction : Bytes → Bytes → Bytes → Tx Connector
  rename_transaction user_id connector_id name = do
    connector ← connector_by_id_for_update engine connector_id
    refuse (not (connector.user_id == user_id) || is_some connector.revoked_at) not_found
    if connector.name == name then pure connector else do
      let renamed : Connector = record connector { name = name }
      save_connector engine renamed
      record_connector_event service call renamed connector_renamed
      pure renamed

  rename_named : Bytes → Bytes → Db → Bytes → Result Connector × Db
  rename_named user_id connector_id db name =
      if is_empty user_id || is_empty connector_id || ltb 64 (length connector_id)
      then (err invalid_input, db)
      else if is_some (call.authorize_account user_id)
      then (err unauthorized, db)
      else reported (within_transaction (rename_transaction user_id connector_id name) db) ok

  unfoldable pub rename_account_connector : Bytes → Bytes → Bytes → Db → Result Connector × Db
  unfolding rename_named
  rename_account_connector user_id connector_id name db =
      attempt (normalize_name lib name) db (rename_named user_id connector_id db)
