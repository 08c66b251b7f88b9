-- ===== src/Connectors/Pairing/Claim.antt =====
-- `ClaimPairing` and `checkClaimFailures` of internal/connectors/service.go.
use Prim.Native.Nat.{max}
use openremotecode_api.Prelude.{
  ℕ, ◌+◌, ◌-◌, Bool, ◌||◌, not, Option, none, some, ltb, leb, nat_eq, is_some, length,
  if◌then◌else◌,
}
use openremotecode_api.Bytes.{Bytes, text, ◌==◌, holds}
use openremotecode_api.Connectors.Errors.{
  Error, Result, ok, err, invalid_input, unauthorized, conflict, invalid_code, attempts_exceeded,
}
use openremotecode_api.Connectors.Errors
use openremotecode_api.Connectors.Types.{
  is_for_device, is_empty, Challenge, Pairing, PairingState, is_pending, verification, Device,
  PublicIdentity, IdentityProof, PairingTranscript, ClaimFailureCounts, pairing_reviewed,
}
use openremotecode_api.Connectors.Tx.{
  Tx, Db, pure, fail, lift, ◌>>=◌, ◌>>◌, refuse, optional, within_transaction, committed, attempt,
}
use openremotecode_api.Connectors.Tokens.{
  issue_identifier, normalize_name, normalize_user_code, hash_secret, hash_user_code,
  valid_identity, verify_identity_proof,
}
use openremotecode_api.Connectors.Store.{
  challenge_for_update, save_challenge, pairing_by_code_for_update, save_pairing,
  device_by_key_id_for_update, create_device, claim_failures_for_update, record_claim_failure,
  append_audit_event,
}
use openremotecode_api.Connectors.Service.{Service, Call, second}

pub record ClaimPairingInput : Type 0 where
  pub user_id : Bytes
  pub user_code : Bytes
  pub device_name : Bytes
  pub identity : PublicIdentity
  pub proof : IdentityProof

pub record ClaimPairingResult : Type 0 where
  pub pairing_id : Bytes
  pub device_id : Bytes
  pub expires_at : ℕ
  pub transcript : PairingTranscript

-- How the transaction of a claim ends when it commits: the flags `wrongCode` and `expired`, or the
-- result.
pub data ClaimOutcome : Type 0 where
  claimed : ClaimPairingResult → ClaimOutcome
  wrong_code : ClaimOutcome
  code_expired : ClaimOutcome

abbrev pub claim_reply : ClaimOutcome → Result ClaimPairingResult
claim_reply (claimed r) = ok r
claim_reply wrong_code = err invalid_code
claim_reply code_expired = err Errors.expired

-- What a challenge must not be for a claim of this account.
abbrev pub refuses_claim : ℕ → Bytes → Challenge → Bool
refuses_claim now user_id c =
    not (is_for_device c.purpose)
    || not (holds c.user_id user_id)
    || is_some c.used_at
    || not (ltb now c.expires_at)

unfoldable pub transcript : Bytes → Pairing → PublicIdentity → PairingTranscript
transcript service_id pairing device_identity = record {
  version = 1;
  service_id = service_id;
  pairing_id = pairing.id;
  connector_identity = pairing.connector_identity;
  device_identity = device_identity;
}

module _ (service : Service) (call : Call) where
  open service use {engine, lib}
  open call use {now, random}

  -- The verdict on the counts. What is left of the oldest failure's window is at least a second.
  abbrev pub over_budget : ClaimFailureCounts → Tx (Unit {0})
  over_budget counts =
      if leb service.account_claim_failure_limit counts.account
      then fail (
          attempts_exceeded
            (max second (counts.account_oldest + service.account_claim_failure_window - now)))
      else if leb service.global_claim_failure_limit counts.global
      then fail (attempts_exceeded service.global_claim_failure_window)
      else pure tt

  unfoldable pub check_claim_failures : Bytes → Tx (Unit {0})
  check_claim_failures user_id = do
    counts ←
        claim_failures_for_update engine user_id (now - service.account_claim_failure_window)
          (now - service.global_claim_failure_window)
    over_budget counts

  -- The device of the key, made if the key is new, refused if it is not the caller's.
  unfoldable pub device_for_claim : ClaimPairingInput → Bytes → Option Device → Tx Device
  device_for_claim input name (some device) = do
    refuse
        (not (device.user_id == input.user_id)
          || is_some device.revoked_at
          || not (device.identity.public_key == input.identity.public_key))
        conflict
    pure device
  device_for_claim input name none = do
    (device_id, _) ← lift (issue_identifier random (text "dev_"))
    let device : Device = record {
      id = device_id;
      user_id = input.user_id;
      name = name;
      identity = input.identity;
      credential_hash = none;
      credential_expires_at = none;
      pending_credential_hash = none;
      pending_credential_expires_at = none;
      created_at = now;
      activated_at = none;
      revoked_at = none;
    }
    create_device engine device
    pure device

  -- A live pairing of the code: it must be pending, and then it waits for the connector's approval.
  unfoldable pub claim_live : ClaimPairingInput → Bytes → Pairing → Tx ClaimOutcome
  claim_live input name pairing = do
    refuse (not (is_pending pairing.state)) conflict
    known ← optional (device_by_key_id_for_update engine input.identity.key_id)
    device ← device_for_claim input name known
    let claimed_pairing = record pairing {
      state = verification;
      user_id = some input.user_id;
      device_id = some device.id;
    }
    save_pairing engine claimed_pairing
    append_audit_event engine (record {
      user_id = some input.user_id;
      device_id = some device.id;
      connector_id = none;
      pairing_id = some pairing.id;
      event_type = pairing_reviewed;
      occurred_at = now;
    })
    pure (
        claimed (record {
          pairing_id = pairing.id;
          device_id = device.id;
          expires_at = pairing.expires_at;
          transcript = transcript service.service_id claimed_pairing input.identity;
        }))

  -- An unknown code is recorded and commits; so does the end of a pairing that ran out.
  unfoldable pub claim_found : ClaimPairingInput → Bytes → Option Pairing → Tx ClaimOutcome
  claim_found input name none =
      record_claim_failure engine input.user_id now (now - service.account_claim_failure_window)
      >> pure wrong_code
  claim_found input name (some pairing) =
      if not (ltb now pairing.expires_at)
      then save_pairing engine (record pairing { state = PairingState.expired })
        >> pure code_expired
      else claim_live input name pairing

  unfoldable pub claim_transaction : ClaimPairingInput → Bytes → Bytes → Tx ClaimOutcome
  claim_transaction input name code = do
    refuse (is_some (call.authorize_account input.user_id)) unauthorized
    challenge ← challenge_for_update engine (hash_secret lib input.proof.challenge)
    refuse (refuses_claim now input.user_id challenge) unauthorized
    check_claim_failures input.user_id
    save_challenge engine (record challenge { used_at = some now })
    pairing ←
        optional
          (pairing_by_code_for_update engine (hash_user_code lib service.pairing_code_key code))
    claim_found input name pairing

  claim_named : ClaimPairingInput → Db → Bytes → Result ClaimPairingResult × Db
  claim_named input db name =
      let code = normalize_user_code lib input.user_code in
      if is_empty input.user_id
        || not (valid_identity lib input.identity)
        || not (verify_identity_proof lib input.identity input.proof)
      then (err invalid_input, db)
      else if not (nat_eq (length code) 8)
      then (err invalid_input, db)
      else committed (within_transaction (claim_transaction input name code) db) claim_reply

  unfoldable pub claim_pairing : ClaimPairingInput → Db → Result ClaimPairingResult × Db
  unfolding claim_named
  claim_pairing input db = attempt (normalize_name lib input.device_name) db (claim_named input db)
