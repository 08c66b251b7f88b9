-- ===== src/Connectors/Pairing/Begin.antt =====
-- `IssueChallenge` and `BeginPairing` of internal/connectors/service.go.
use openremotecode_api.Prelude.{
  ℕ, ◌+◌, Bool, true, ◌&&◌, ◌||◌, not, Option, none, some, ltb, is_some, if◌then◌else◌,
}
use openremotecode_api.Bytes.{Bytes, text}
use openremotecode_api.Connectors.Errors.{Result, ok, err, invalid_input, unauthorized}
use openremotecode_api.Connectors.Types.{
  Purpose, is_for_connector, is_for_device, is_empty, Challenge, Pairing, pending, PublicIdentity,
  IdentityProof,
}
use openremotecode_api.Connectors.Tx.{
  Tx, Db, ◌>>=◌, ◌>>◌, refuse, within_transaction, committed, reported, attempt,
}
use openremotecode_api.Connectors.Tokens.{
  random_base64, issue_identifier, issue_token, issue_user_code, normalize_name, hash_secret,
  hash_user_code, derive_connector_credential, valid_identity, verify_identity_proof,
}
use openremotecode_api.Connectors.Store.{
  create_challenge, challenge_for_update, save_challenge, expire_pairings_for_key, create_pairing,
}
use openremotecode_api.Connectors.Service.{Service, Call}

pub record ChallengeResult : Type 0 where
  pub challenge : Bytes
  pub expires_at : ℕ

pub record BeginPairingInput : Type 0 where
  pub name : Bytes
  pub identity : PublicIdentity
  pub proof : IdentityProof

pub record BeginPairingResult : Type 0 where
  pub pairing_id : Bytes
  pub pairing_secret : Bytes
  pub user_code : Bytes
  pub service_id : Bytes
  pub verification_uri : Bytes
  pub expires_at : ℕ
  pub poll_interval : ℕ

-- `userID == nil || *userID == ""`
abbrev pub no_user : Option Bytes → Bool
no_user none = true
no_user (some id) = is_empty id

-- What a challenge must not be to open a pairing.
abbrev pub refuses_begin : ℕ → Challenge → Bool
refuses_begin now c =
    not (is_for_connector c.purpose)
    || is_some c.user_id
    || is_some c.used_at
    || not (ltb now c.expires_at)

module _ (service : Service) (call : Call) where
  open service use {engine, lib}
  open call use {now, random}

  unfoldable pub issue_challenge : Purpose → Option Bytes → Db → Result ChallengeResult × Db
  issue_challenge purpose user_id db =
      if not (is_for_connector purpose) && not (is_for_device purpose)
      then (err invalid_input, db)
      else if is_for_device purpose && no_user user_id
      then (err unauthorized, db)
      else attempt (random_base64 random 32) db λ (challenge, _).
        let expires_at = now + service.challenge_lifetime in
        reported
          (within_transaction
            (create_challenge engine (record {
              hash = hash_secret lib challenge;
              purpose = purpose;
              user_id = user_id;
              created_at = now;
              expires_at = expires_at;
              used_at = none;
            }))
            db)
          λ _. ok (record { challenge = challenge; expires_at = expires_at })

  -- The transaction of `BeginPairing`: it spends the challenge, retires what the key left behind,
  -- and stores the new pairing.
  unfoldable pub begin_transaction : BeginPairingInput → Pairing → Tx (Unit {0})
  begin_transaction input pairing = do
    challenge ← challenge_for_update engine (hash_secret lib input.proof.challenge)
    refuse (refuses_begin now challenge) unauthorized
    save_challenge engine (record challenge { used_at = some now })
    expire_pairings_for_key engine input.identity.key_id now
    create_pairing engine pairing

  abbrev new_pairing : Bytes → BeginPairingInput → Bytes → Bytes → Bytes → Pairing
  new_pairing name input pairing_id pairing_secret user_code = record {
    id = pairing_id;
    secret_hash = hash_secret lib pairing_secret;
    user_code_hash = hash_user_code lib service.pairing_code_key user_code;
    connector_name = name;
    connector_identity = input.identity;
    connector_credential_hash =
        some (hash_secret lib (derive_connector_credential lib pairing_secret));
    device_credential_seed = none;
    state = pending;
    user_id = none;
    device_id = none;
    connector_id = none;
    created_at = now;
    expires_at = now + service.pairing_lifetime;
    connector_reviewed_at = none;
    confirmed_at = none;
    completed_at = none;
  }

  -- The body of `BeginPairing` once the name is normalized.
  begin_named : BeginPairingInput → Db → Bytes → Result BeginPairingResult × Db
  begin_named input db name =
      if not (valid_identity lib input.identity)
        || not (verify_identity_proof lib input.identity input.proof)
      then (err invalid_input, db)
      else attempt (issue_identifier random (text "par_")) db λ (pairing_id, random').
        attempt (issue_token random' (text "orp_")) db λ (pairing_secret, random'').
          attempt (issue_user_code random'') db λ (user_code, _).
            committed
              (within_transaction
                (begin_transaction input
                  (new_pairing name input pairing_id pairing_secret user_code))
                db)
              λ _. ok (record {
                pairing_id = pairing_id;
                pairing_secret = pairing_secret;
                user_code = user_code;
                service_id = service.service_id;
                verification_uri = service.verification_uri;
                expires_at = now + service.pairing_lifetime;
                poll_interval = service.poll_interval;
              })

  unfoldable pub begin_pairing : BeginPairingInput → Db → Result BeginPairingResult × Db
  unfolding begin_named
  begin_pairing input db = attempt (normalize_name lib input.name) db (begin_named input db)
