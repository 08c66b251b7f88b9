-- ===== src/Connectors/Pairing/Confirm.antt =====
-- `ConfirmPairing` of internal/connectors/service.go.
use openremotecode_api.Prelude.{
  ℕ, ◌+◌, Bool, ◌||◌, not, Option, none, some, ltb, nat_eq, is_some, is_none, [], length,
  if◌then◌else◌,
}
use openremotecode_api.Bytes.{Bytes, text, ◌==◌, holds, hmac_equal}
use openremotecode_api.Connectors.Errors.{
  Error, Result, ok, err, invalid_input, unauthorized, conflict,
}
use openremotecode_api.Connectors.Errors
use openremotecode_api.Connectors.Types.{
  is_empty, Pairing, PairingState, is_expired, is_verification, completed, Device, Connector,
  pairing_completed,
}
use openremotecode_api.Connectors.Tx.{
  Tx, Db, pure, lift, ◌>>=◌, ◌>>◌, refuse, check, optional, within_transaction, committed,
}
use openremotecode_api.Connectors.Tokens.{
  read_full, issue_identifier, hash_secret, derive_device_credential,
}
use openremotecode_api.Connectors.Store.{
  pairing_by_id_for_update, save_pairing, device_by_id_for_update, save_device,
  connector_by_id_for_update, connector_by_key_id_for_update, create_connector, save_connector,
  upsert_trust, append_audit_event,
}
use openremotecode_api.Connectors.Service.{Service, Call}

pub record ConfirmPairingResult : Type 0 where
  pub device_id : Bytes
  pub connector_id : Bytes
  pub device_credential : Bytes
  pub device_credential_expires_at : ℕ

-- `len` of a slice that may be nil
abbrev pub size : Option Bytes → ℕ
size none = 0
size (some b) = length b

-- `hmac.Equal` of two slices that may be nil
abbrev pub same_hash : Option Bytes → Option Bytes → Bool
same_hash none b = hmac_equal [] b
same_hash (some a) b = hmac_equal a b

abbrev pub bytes_of : Option Bytes → Bytes
bytes_of none = []
bytes_of (some b) = b

module _ (service : Service) (call : Call) where
  open service use {engine, lib}
  open call use {now, random}

  -- The retry of a completed confirmation: the credential is derived again, and handed out only
  -- while the device and the connector still hold what this pairing issued.
  unfoldable pub confirm_again : Bytes → Pairing → Device → Bytes → ℕ → Tx ConfirmPairingResult
  confirm_again user_id pairing device connector_id expires_at = do
    refuse
        (not (nat_eq (size pairing.connector_credential_hash) 32)
          || not (nat_eq (size pairing.device_credential_seed) 32))
        conflict
    let credential =
        derive_device_credential lib service.device_credential_key
          (bytes_of pairing.device_credential_seed)
    refuse (not (hmac_equal (hash_secret lib credential) device.credential_hash)) conflict
    connector ← connector_by_id_for_update engine connector_id
    refuse
        (not (connector.user_id == user_id)
          || is_some connector.revoked_at
          || not (same_hash connector.credential_hash pairing.connector_credential_hash))
        conflict
    pure (record {
      device_id = device.id;
      connector_id = connector_id;
      device_credential = credential;
      device_credential_expires_at = expires_at;
    })

  -- The connector of the pairing's key, made if the key is new, refused if it is not the account's,
  -- and what is left of the random bytes.
  unfoldable pub connector_for_confirm : Bytes → Pairing → Option Connector → Tx (Connector × Bytes)
  connector_for_confirm user_id pairing (some connector) = do
    refuse
        (not (connector.user_id == user_id)
          || is_some connector.revoked_at
          || not (connector.identity.public_key == pairing.connector_identity.public_key))
        conflict
    pure (connector, random)
  connector_for_confirm user_id pairing none = do
    (connector_id, rest) ← lift (issue_identifier random (text "con_"))
    let connector : Connector = record {
      id = connector_id;
      user_id = user_id;
      name = pairing.connector_name;
      identity = pairing.connector_identity;
      credential_hash = none;
      credential_expires_at = none;
      pending_credential_hash = none;
      pending_credential_expires_at = none;
      created_at = now;
      revoked_at = none;
    }
    create_connector engine connector
    pure (connector, rest)

  abbrev activated : Option ℕ → Option ℕ
  activated none = some now
  activated (some t) = some t

  -- The writes of a first confirmation, from the seed on.
  unfoldable pub complete : Bytes → Pairing → Device → Connector → Bytes → Tx ConfirmPairingResult
  complete user_id pairing device connector seed = do
    let credential = derive_device_credential lib service.device_credential_key seed
    let expires_at = now + service.device_credential_lifetime
    save_device engine (record device {
      credential_hash = some (hash_secret lib credential);
      credential_expires_at = some expires_at;
      activated_at = activated device.activated_at;
    })
    upsert_trust engine (record {
      user_id = user_id;
      device_id = device.id;
      connector_id = connector.id;
      created_at = now;
      revoked_at = none;
    })
    save_connector engine (record connector {
      credential_hash = pairing.connector_credential_hash;
      credential_expires_at = some (now + service.connector_credential_lifetime);
    })
    save_pairing engine (record pairing {
      device_credential_seed = some seed;
      state = completed;
      connector_id = some connector.id;
      confirmed_at = some now;
      completed_at = some now;
    })
    append_audit_event engine (record {
      user_id = some user_id;
      device_id = some device.id;
      connector_id = some connector.id;
      pairing_id = some pairing.id;
      event_type = pairing_completed;
      occurred_at = now;
    })
    pure (record {
      device_id = device.id;
      connector_id = connector.id;
      device_credential = credential;
      device_credential_expires_at = expires_at;
    })

  -- A first confirmation needs the connector's approval.
  unfoldable pub confirm_first : Bytes → Pairing → Device → Tx ConfirmPairingResult
  confirm_first user_id pairing device = do
    refuse (is_expired pairing.state) Errors.expired
    refuse
        (not (is_verification pairing.state)
          || is_none pairing.connector_reviewed_at
          || not (nat_eq (size pairing.connector_credential_hash) 32))
        conflict
    known ← optional (connector_by_key_id_for_update engine pairing.connector_identity.key_id)
    (connector, rest) ← connector_for_confirm user_id pairing known
    (seed, _) ← lift (read_full 32 rest)
    complete user_id pairing device connector seed

  -- The test for a retry reads the connector and the expiry, which are then there.
  abbrev pub choose :
      Bytes → Pairing → Device → PairingState → Option Bytes → Option ℕ → Tx ConfirmPairingResult
  choose user_id pairing device completed (some connector_id) (some expires_at) =
      confirm_again user_id pairing device connector_id expires_at
  choose user_id pairing device _ _ _ = confirm_first user_id pairing device

  unfoldable pub confirm_transaction : Bytes → Bytes → Bytes → Tx ConfirmPairingResult
  confirm_transaction user_id pairing_id device_id = do
    check (call.authorize_account user_id)
    pairing ← pairing_by_id_for_update engine pairing_id
    refuse (not (ltb now pairing.expires_at)) Errors.expired
    refuse (not (holds pairing.user_id user_id) || not (holds pairing.device_id device_id)) conflict
    device ← device_by_id_for_update engine device_id
    refuse (not (device.user_id == user_id) || is_some device.revoked_at) unauthorized
    choose user_id pairing device pairing.state pairing.connector_id device.credential_expires_at

  unfoldable pub confirm_pairing : Bytes → Bytes → Bytes → Db → Result ConfirmPairingResult × Db
  confirm_pairing user_id pairing_id device_id db =
      if is_empty user_id || is_empty pairing_id || is_empty device_id
      then (err invalid_input, db)
      else committed (within_transaction (confirm_transaction user_id pairing_id device_id) db) ok
