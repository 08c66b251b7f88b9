-- ===== src/Connectors/Pairing/Approve.antt =====
-- `ApprovePairing` and `CancelPairing` of internal/connectors/service.go.
use openremotecode_api.Prelude.{◌||◌, not, Option, none, some, ltb, is_some, length, if◌then◌else◌}
use openremotecode_api.Bytes.{Bytes, text, ◌==◌}
use openremotecode_api.Connectors.Errors.{
  Error, Result, ok, err, invalid_input, unauthorized, conflict,
}
use openremotecode_api.Connectors.Errors
use openremotecode_api.Connectors.Types.{
  is_empty, Pairing, PairingState, is_completed, is_expired, is_verification,
  pairing_connector_approved, pairing_cancelled,
}
use openremotecode_api.Connectors.Tx.{
  Tx, Db, pure, fail, ◌>>=◌, ◌>>◌, refuse, within_transaction, committed,
}
use openremotecode_api.Connectors.Tokens.{valid_token, hash_secret}
use openremotecode_api.Connectors.Store.{
  pairing_by_secret_for_update, save_pairing, device_by_id_for_update, append_audit_event,
}
use openremotecode_api.Connectors.Service.{Service, Call}

-- How an approval ends when it commits: the flag `expired`, or done.
pub data Approval : Type 0 where
  approved : Approval
  approval_expired : Approval

abbrev pub approval_reply : Approval → Result (Unit {0})
approval_reply approved = ok tt
approval_reply approval_expired = err Errors.expired

module _ (service : Service) (call : Call) where
  open service use {engine, lib}
  open call use {now}

  -- The approval itself, once the device is the one that the connector was shown.
  unfoldable pub approve_device : Pairing → Tx Approval
  approve_device pairing = if is_some pairing.connector_reviewed_at then pure approved else do
    save_pairing engine (record pairing { connector_reviewed_at = some now })
    append_audit_event engine (record {
      user_id = pairing.user_id;
      device_id = pairing.device_id;
      connector_id = none;
      pairing_id = some pairing.id;
      event_type = pairing_connector_approved;
      occurred_at = now;
    })
    pure approved

  unfoldable pub approve_live : Bytes → Pairing → Option Bytes → Tx Approval
  approve_live device_key_id pairing none = fail conflict
  approve_live device_key_id pairing (some device_id) = do
    refuse (not (is_verification pairing.state)) conflict
    device ← device_by_id_for_update engine device_id
    refuse (not (device.identity.key_id == device_key_id)) conflict
    approve_device pairing

  unfoldable pub approve_over : Pairing → Tx Approval
  approve_over pairing =
      if is_completed pairing.state
      then fail Errors.expired
      else save_pairing engine (record pairing { state = PairingState.expired })
        >> pure approval_expired

  unfoldable pub approve_transaction : Bytes → Bytes → Bytes → Tx Approval
  approve_transaction pairing_id pairing_secret device_key_id = do
    pairing ← pairing_by_secret_for_update engine (hash_secret lib pairing_secret)
    refuse (not (pairing.id == pairing_id)) unauthorized
    if is_expired pairing.state
        then pure approval_expired
        else if not (ltb now pairing.expires_at)
        then approve_over pairing
        else approve_live device_key_id pairing pairing.device_id

  unfoldable pub approve_pairing : Bytes → Bytes → Bytes → Db → Result (Unit {0}) × Db
  approve_pairing pairing_id pairing_secret device_key_id db =
      if is_empty pairing_id || not (valid_token pairing_secret (text "orp_"))
      then (err unauthorized, db)
      else if is_empty device_key_id || ltb 64 (length device_key_id)
      then (err invalid_input, db)
      else committed
          (within_transaction (approve_transaction pairing_id pairing_secret device_key_id) db)
          approval_reply

  unfoldable pub cancel_transaction : Bytes → Bytes → Tx (Unit {0})
  cancel_transaction pairing_id pairing_secret = do
    pairing ← pairing_by_secret_for_update engine (hash_secret lib pairing_secret)
    refuse (not (pairing.id == pairing_id)) unauthorized
    if is_expired pairing.state then pure tt else do
      refuse (is_completed pairing.state) conflict
      save_pairing engine (record pairing { state = PairingState.expired })
      append_audit_event engine (record {
        user_id = pairing.user_id;
        device_id = pairing.device_id;
        connector_id = none;
        pairing_id = some pairing.id;
        event_type = pairing_cancelled;
        occurred_at = now;
      })

  unfoldable pub cancel_pairing : Bytes → Bytes → Db → Result (Unit {0}) × Db
  cancel_pairing pairing_id pairing_secret db =
      if is_empty pairing_id || not (valid_token pairing_secret (text "orp_"))
      then (err unauthorized, db)
      else committed (within_transaction (cancel_transaction pairing_id pairing_secret) db) ok
