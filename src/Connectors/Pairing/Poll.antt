-- ===== src/Connectors/Pairing/Poll.antt =====
-- `PollPairing` of internal/connectors/service.go.
use openremotecode_api.Prelude.{
  ℕ, ◌+◌, ◌||◌, not, Option, none, some, ltb, is_some, is_none, if◌then◌else◌, [],
}
use openremotecode_api.Bytes.{Bytes, text, hmac_equal}
use openremotecode_api.Connectors.Errors.{Error, Result, ok, err, unauthorized, conflict}
use openremotecode_api.Connectors.Errors
use openremotecode_api.Connectors.Types.{
  Pairing, PairingState, is_completed, completed, confirmed, Connector, PairingTranscript,
  pairing_completed,
}
use openremotecode_api.Connectors.Tx.{
  Tx, Db, pure, fail, ◌>>=◌, ◌>>◌, refuse, within_transaction, committed,
}
use openremotecode_api.Connectors.Tokens.{valid_token, hash_secret, derive_connector_credential}
use openremotecode_api.Connectors.Store.{
  pairing_by_secret_for_update, save_pairing, device_by_id_for_update, connector_by_id_for_update,
  save_connector, append_audit_event,
}
use openremotecode_api.Connectors.Pairing.Claim.{transcript}
use openremotecode_api.Connectors.Service.{Service, Call}

-- The strings are empty where the code leaves Go's zero value.
pub record PollPairingResult : Type 0 where
  pub status : PairingState
  pub pairing_id : Bytes
  pub service_id : Bytes
  pub expires_at : ℕ
  pub transcript : Option PairingTranscript
  pub connector_id : Bytes
  pub connector_credential : Bytes
  pub connector_credential_expires_at : Option ℕ
  pub linked_at : Option ℕ

module _ (service : Service) (call : Call) where
  open service use {engine, lib}
  open call use {now}

  abbrev pub waiting : Pairing → Option PairingTranscript → PollPairingResult
  waiting pairing shown = record {
    status = pairing.state;
    pairing_id = pairing.id;
    service_id = service.service_id;
    expires_at = pairing.expires_at;
    transcript = shown;
    connector_id = [];
    connector_credential = [];
    connector_credential_expires_at = none;
    linked_at = none;
  }

  -- The result once the connector has its credential.
  abbrev pub linked :
      Pairing → Option PairingTranscript → Connector → Bytes → Option ℕ → PollPairingResult
  linked pairing shown connector credential expires_at = record {
    status = completed;
    pairing_id = pairing.id;
    service_id = service.service_id;
    expires_at = pairing.expires_at;
    transcript = shown;
    connector_id = connector.id;
    connector_credential = credential;
    connector_credential_expires_at = expires_at;
    linked_at = some connector.created_at;
  }

  -- The device that claimed the pairing, as the connector is shown it.
  unfoldable pub shown_transcript : Pairing → Option Bytes → Tx (Option PairingTranscript)
  shown_transcript pairing none = pure none
  shown_transcript pairing (some device_id) = do
    device ← device_by_id_for_update engine device_id
    pure (some (transcript service.service_id pairing device.identity))

  -- A completed pairing hands the connector its credential while the connector still holds it.
  unfoldable pub poll_completed :
      Bytes → Pairing → Option PairingTranscript → Bytes → Tx PollPairingResult
  poll_completed pairing_secret pairing shown connector_id = do
    connector ← connector_by_id_for_update engine connector_id
    refuse (is_none connector.credential_expires_at || is_some connector.revoked_at) unauthorized
    let credential = derive_connector_credential lib pairing_secret
    refuse (not (hmac_equal (hash_secret lib credential) connector.credential_hash)) unauthorized
    pure (linked pairing shown connector credential connector.credential_expires_at)

  -- The branch of the state `confirmed`, which completes the pairing here.
  unfoldable pub poll_confirmed :
      Bytes → Pairing → Option PairingTranscript → Option Bytes → Tx PollPairingResult
  poll_confirmed pairing_secret pairing shown none = fail conflict
  poll_confirmed pairing_secret pairing shown (some connector_id) = do
    connector ← connector_by_id_for_update engine connector_id
    refuse (is_some connector.revoked_at) unauthorized
    let credential = derive_connector_credential lib pairing_secret
    let expires_at = now + service.connector_credential_lifetime
    save_connector engine (record connector {
      credential_hash = some (hash_secret lib credential);
      credential_expires_at = some expires_at;
    })
    save_pairing engine (record pairing { state = completed; completed_at = some now })
    append_audit_event engine (record {
      user_id = pairing.user_id;
      device_id = pairing.device_id;
      connector_id = pairing.connector_id;
      pairing_id = some pairing.id;
      event_type = pairing_completed;
      occurred_at = now;
    })
    pure (linked pairing shown connector credential (some expires_at))

  abbrev pub poll_state :
      Bytes
      → Pairing
      → Option PairingTranscript
      → PairingState
      → Option Bytes
      → Tx PollPairingResult
  poll_state pairing_secret pairing shown completed (some connector_id) =
      poll_completed pairing_secret pairing shown connector_id
  poll_state pairing_secret pairing shown confirmed connector_id =
      poll_confirmed pairing_secret pairing shown connector_id
  poll_state pairing_secret pairing shown _ _ = pure (waiting pairing shown)

  -- A pairing past its end expires, unless it was completed.
  unfoldable pub poll_over : Pairing → Tx PollPairingResult
  poll_over pairing =
      if not (is_completed pairing.state)
      then (let over = record pairing { state = PairingState.expired } in
          save_pairing engine over >> pure (waiting over none))
      else fail Errors.expired

  unfoldable pub poll_transaction : Bytes → Tx PollPairingResult
  poll_transaction pairing_secret = do
    pairing ← pairing_by_secret_for_update engine (hash_secret lib pairing_secret)
    if not (ltb now pairing.expires_at) then poll_over pairing else do
      shown ← shown_transcript pairing pairing.device_id
      poll_state pairing_secret pairing shown pairing.state pairing.connector_id

  unfoldable pub poll_pairing : Bytes → Db → Result PollPairingResult × Db
  poll_pairing pairing_secret db =
      if not (valid_token pairing_secret (text "orp_"))
      then (err unauthorized, db)
      else committed (within_transaction (poll_transaction pairing_secret) db) ok
