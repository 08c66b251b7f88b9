-- ===== src/Connectors/Credential/DeviceCredential.antt =====
-- `RotateDeviceCredential`, `ActivateDeviceCredential` and `cancelPendingDeviceRotation` of
-- internal/connectors/service.go.
use openremotecode_api.Prelude.{
  ℕ, ◌+◌, Bool, ◌||◌, not, Option, none, some, ltb, is_some, is_none, if◌then◌else◌,
}
use openremotecode_api.Bytes.{Bytes, text, ◌==◌, hmac_equal}
use openremotecode_api.Connectors.Errors.{Result, ok, err, unauthorized}
use openremotecode_api.Connectors.Types.{
  is_empty, Device, EventType, device_credential_rotated, device_credential_activated,
  device_credential_rotation_cancelled,
}
use openremotecode_api.Connectors.Tx.{
  Tx, Db, pure, fail, lift, ◌>>=◌, ◌>>◌, refuse, check, within_transaction, committed,
}
use openremotecode_api.Connectors.Tokens.{valid_token, issue_token, hash_secret}
use openremotecode_api.Connectors.Store.{
  device_by_credential_for_update, device_by_any_credential_for_update, save_device,
  append_audit_event,
}
use openremotecode_api.Connectors.Service.{Service, Call}
use openremotecode_api.Connectors.Credential.{lives, RotationResult}

-- The guard that the device operations share: an account, a session, a device and a token.
abbrev pub bad_device_request : Bytes → Bytes → Bytes → Bytes → Bool
bad_device_request user_id session_id device_id credential =
    is_empty user_id
    || is_empty session_id
    || is_empty device_id
    || not (valid_token credential (text "ord_"))

module _ (service : Service) (call : Call) where
  open service use {engine, lib}
  open call use {now, random}

  -- An audit event of the device.
  unfoldable pub record_device_event : Device → EventType → Tx (Unit {0})
  record_device_event device event = append_audit_event engine (record {
    user_id = some device.user_id;
    device_id = some device.id;
    connector_id = none;
    pairing_id = none;
    event_type = event;
    occurred_at = now;
  })

  unfoldable pub rotate_device_transaction : Bytes → Bytes → Bytes → Bytes → Tx RotationResult
  rotate_device_transaction user_id session_id device_id credential = do
    device ← device_by_credential_for_update engine (hash_secret lib credential)
    refuse
        (not (device.id == device_id)
          || not (device.user_id == user_id)
          || is_none device.activated_at
          || is_some device.revoked_at
          || not (lives device.credential_expires_at now))
        unauthorized
    check (call.authorize_account device.user_id)
    check (call.authorize_session device.user_id session_id)
    (issued, _) ← lift (issue_token random (text "ord_"))
    let deadline = now + service.credential_activation_window
    save_device engine (record device {
      pending_credential_hash = some (hash_secret lib issued);
      pending_credential_expires_at = some deadline;
    })
    record_device_event device device_credential_rotated
    pure (record { credential = issued; activate_by = deadline })

  unfoldable pub rotate_device_credential :
      Bytes → Bytes → Bytes → Bytes → Db → Result RotationResult × Db
  rotate_device_credential user_id session_id device_id credential db =
      if bad_device_request user_id session_id device_id credential
      then (err unauthorized, db)
      else committed
          (within_transaction (rotate_device_transaction user_id session_id device_id credential)
            db)
          ok

  -- `*device.CredentialExpiresAt`, if it is live.
  abbrev pub live_until : Option ℕ → Tx ℕ
  live_until none = fail unauthorized
  live_until (some t) = if ltb now t then pure t else fail unauthorized

  -- The pending credential becomes the current one, and its lifetime starts.
  unfoldable pub commit_device_rotation : Bytes → Device → Tx ℕ
  commit_device_rotation hash device = do
    refuse
        (is_none device.pending_credential_hash
          || not (hmac_equal hash device.pending_credential_hash)
          || not (lives device.pending_credential_expires_at now))
        unauthorized
    let expires_at = now + service.device_credential_lifetime
    save_device engine (record device {
      credential_hash = some hash;
      credential_expires_at = some expires_at;
      pending_credential_hash = none;
      pending_credential_expires_at = none;
    })
    record_device_event device device_credential_activated
    pure expires_at

  unfoldable pub activate_device_transaction : Bytes → Bytes → Bytes → Bytes → Tx ℕ
  activate_device_transaction user_id session_id device_id credential = do
    let hash = hash_secret lib credential
    device ← device_by_any_credential_for_update engine hash
    refuse
        (not (device.id == device_id)
          || not (device.user_id == user_id)
          || is_none device.activated_at
          || is_some device.revoked_at)
        unauthorized
    check (call.authorize_account device.user_id)
    check (call.authorize_session device.user_id session_id)
    if hmac_equal hash device.credential_hash
        then live_until device.credential_expires_at
        else commit_device_rotation hash device

  unfoldable pub activate_device_credential : Bytes → Bytes → Bytes → Bytes → Db → Result ℕ × Db
  activate_device_credential user_id session_id device_id credential db =
      if bad_device_request user_id session_id device_id credential
      then (err unauthorized, db)
      else committed
          (within_transaction (activate_device_transaction user_id session_id device_id credential)
            db)
          ok

  -- Using the current credential discards a rotation that was not taken up; the device comes back.
  unfoldable pub cancel_pending_device_rotation : Device → Tx Device
  cancel_pending_device_rotation device =
      if is_none device.pending_credential_hash then pure device else do
        let kept : Device = record device {
          pending_credential_hash = none;
          pending_credential_expires_at = none;
        }
        save_device engine kept
        record_device_event kept device_credential_rotation_cancelled
        pure kept
