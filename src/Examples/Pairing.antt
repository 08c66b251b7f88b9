-- ===== src/Examples/Pairing.antt =====
-- A wrong code, a budget that is used up, a completed pairing past its end, and a confirmation.
use openremotecode_api.Prelude.{
  ◌≡◌, ◌≢◌, ◌<◌, ◌≤◌, ◌+◌, refl, true, false, none, some, [], ◌∷◌, ◌++◌, arith, take, drop, inl,
  is_some,
}
use openremotecode_api.Bytes.{text, ◌==◌}
use openremotecode_api.Base64.{encode}
use openremotecode_api.Database.Rows.{Among, any, put, map_where}
use openremotecode_api.Connectors.Errors.{ok}
use openremotecode_api.Connectors.Types.{
  PairingState, pending, Challenge, for_device, Pairing, Device, ClaimFailure, completed,
  verification,
}
use openremotecode_api.Connectors.Tx.{Db, ◌>>=◌, optional, within_transaction}
use openremotecode_api.Connectors.Store
use openremotecode_api.Connectors.Store.{
  challenge_for_update, claim_failures_for_update, save_challenge, pairing_by_code_for_update,
  record_claim_failure, save_pairing,
}
use openremotecode_api.Connectors.Service.{Service}
use openremotecode_api.Connectors.Tokens.{
  hash_secret, hash_user_code, derive_device_credential, issue_identifier,
}
use openremotecode_api.Connectors.Pairing.Claim.{
  code_expired, ClaimPairingInput, ClaimPairingResult, claimed, transcript, claim_live,
  device_for_claim, wrong_code, claim_transaction, claim_found, check_claim_failures,
}
use openremotecode_api.Connectors.Pairing.Confirm.{
  ConfirmPairingResult, confirm_transaction, confirm_first, connector_for_confirm, complete,
}
use openremotecode_api.Connectors.Pairing.Claimed.Stored.{claimed_by, is_held}
use openremotecode_api.Connectors.Pairing.Claimed.{IsClaimable, claimed_pairing}
use openremotecode_api.Connectors.Pairing.Expired.{claim_expires_any_state}
use openremotecode_api.Connectors.Pairing.Approve.{
  approved, approve_transaction, approve_live, approve_device,
}
use openremotecode_api.Connectors.Pairing.Approved.{
  IsReviewable, IsForKey, IsApproved, approved_pairing,
}
use openremotecode_api.Connectors.Pairing.Guesses.{
  counted_for, counted_for_all, spent, claim_wrong_code, claim_over_limit,
}
use openremotecode_api.Connectors.Pairing.Confirmed.{IsConfirmable, IsIssuedTo, confirmed_pairing}
use openremotecode_api.Connectors.Lifecycle.Steps.{empty_db}
use openremotecode_api.Examples.Memory.{memory, first, create}
use openremotecode_api.Examples.Setup.{service, settings, call_at, toy, pad, key}
use openremotecode_api.Examples.Rows.{some_identity, a_db}

abbrev challenge : Challenge
challenge = record {
  hash = hash_secret toy (text "challenge");
  purpose = for_device;
  user_id = some (text "alice");
  created_at = 1;
  expires_at = 100;
  used_at = none;
}

abbrev failure : ClaimFailure
failure = record { user_id = text "alice"; occurred_at = 9 }

abbrev guess : ClaimPairingInput
guess = record {
  user_id = text "alice";
  user_code = text "AAAA-AAAA";
  device_name = text "phone";
  identity = some_identity;
  proof = record { challenge = text "challenge"; signature = [] };
}

abbrev guess_db : Db
guess_db = record empty_db { challenges = challenge ∷ []; claim_failures = failure ∷ [] }

abbrev guessed_db : Db
guessed_db =
    (within_transaction
      (claim_transaction service (call_at 10) guess (text "phone") (text "AAAAAAAA")) guess_db).1

wrong_guess :
    claim_transaction service (call_at 10) guess (text "phone") (text "AAAAAAAA") guess_db
    ≡ ok (wrong_code, guessed_db)
unfolding claim_transaction claim_found check_claim_failures challenge_for_update
    claim_failures_for_update save_challenge pairing_by_code_for_update record_claim_failure ◌>>=◌
    optional hash_secret pad ◌==◌ put any map_where first create
wrong_guess = refl

claim_wrong_code_example :
    (counted_for service 10 (text "alice") guess_db < 10)
    × (counted_for_all service 10 guess_db < 120)
    × Among (record { user_id = text "alice"; occurred_at = 10 }) guessed_db.claim_failures
    × (any (spent (hash_secret toy (text "challenge"))) guessed_db.challenges ≡ true)
claim_wrong_code_example =
    claim_wrong_code service (call_at 10) guess (text "phone") (text "AAAAAAAA") guess_db guessed_db
      wrong_guess

-- One wrong code is allowed.
abbrev strict : Service
strict = record {
  engine = memory;
  lib = toy;
  settings = record settings { account_claim_failure_limit = 1 };
}

limit_met : 1 ≤ counted_for strict 10 (text "alice") guess_db
unfolding ◌==◌
limit_met = ground arith

claim_over_limit_example :
    claim_transaction strict (call_at 10) guess (text "phone") (text "AAAAAAAA") guess_db
    ≢ ok (wrong_code, guessed_db)
claim_over_limit_example =
    claim_over_limit strict (call_at 10) guess (text "phone") (text "AAAAAAAA") guess_db
      (inl limit_met) guessed_db wrong_code

abbrev done : Pairing
done = record {
  id = text "par_1";
  secret_hash = [];
  user_code_hash = [];
  connector_name = text "laptop";
  connector_identity = record { version = 1; suite = []; key_id = text "c"; public_key = text "q" };
  connector_credential_hash = some key;
  device_credential_seed = none;
  state = completed;
  user_id = some (text "alice");
  device_id = some (text "dev_1");
  connector_id = some (text "con_1");
  created_at = 1;
  expires_at = 5;
  connector_reviewed_at = some 3;
  confirmed_at = some 4;
  completed_at = some 4;
}

abbrev done_db : Db
done_db = record empty_db { pairings = done ∷ [] }

-- A pairing whose code nobody has claimed
abbrev waiting : Pairing
waiting = record done {
  user_code_hash = hash_user_code toy key (text "AAAAAAAA");
  state = pending;
  user_id = none;
  device_id = none;
  connector_id = none;
  expires_at = 50;
  connector_reviewed_at = none;
  confirmed_at = none;
  completed_at = none;
}

abbrev waiting_db : Db
waiting_db = record a_db {
  pairings = waiting ∷ [];
  challenges = challenge ∷ [];
  claim_failures = [];
}

abbrev claim_result : ClaimPairingResult
claim_result = record {
  pairing_id = text "par_1";
  device_id = text "dev_1";
  expires_at = 50;
  transcript = transcript service.service_id waiting guess.identity;
}

abbrev claimed_db : Db
claimed_db =
    (within_transaction
      (claim_transaction service (call_at 10) guess (text "phone") (text "AAAAAAAA")) waiting_db).1

claiming :
    claim_transaction service (call_at 10) guess (text "phone") (text "AAAAAAAA") waiting_db
    ≡ ok (claimed claim_result, claimed_db)
unfolding claim_transaction claim_found claim_live device_for_claim check_claim_failures
    challenge_for_update claim_failures_for_update save_challenge pairing_by_code_for_update
    Store.device_by_key_id_for_update save_pairing Store.append_audit_event ◌>>=◌ optional
    hash_secret hash_user_code transcript pad ◌==◌ put any map_where first create
claiming = refl

claimed_pairing_example :
    ((call_at 10).authorize_account (text "alice") ≡ none)
    × ((p : Pairing) × Among p waiting_db.pairings
        × IsClaimable (hash_user_code toy key (text "AAAAAAAA")) 10 p
        × (text "par_1" ≡ p.id)
        × Among (claimed_by (text "alice") (text "dev_1") p) claimed_db.pairings)
    × (any (is_held (text "dev_1") (text "alice") some_identity.public_key) claimed_db.devices
        ≡ true)
claimed_pairing_example =
    claimed_pairing service (call_at 10) guess (text "phone") (text "AAAAAAAA") waiting_db
      claimed_db claim_result claiming

-- A completed pairing past its end
abbrev ended : Pairing
ended = record done { user_code_hash = hash_user_code toy key (text "AAAAAAAA") }

abbrev ended_db : Db
ended_db = record a_db { pairings = ended ∷ []; challenges = challenge ∷ []; claim_failures = [] }

abbrev expired_db : Db
expired_db =
    (within_transaction
      (claim_transaction service (call_at 10) guess (text "phone") (text "AAAAAAAA")) ended_db).1

expiring :
    claim_transaction service (call_at 10) guess (text "phone") (text "AAAAAAAA") ended_db
    ≡ ok (code_expired, expired_db)
unfolding claim_transaction claim_found check_claim_failures challenge_for_update
    claim_failures_for_update save_challenge pairing_by_code_for_update save_pairing ◌>>=◌ optional
    hash_secret hash_user_code pad ◌==◌ put any map_where first create
expiring = refl

claim_expires_any_state_example :
    ((call_at 10).authorize_account (text "alice") ≡ none)
    × ((p : Pairing) × Among p ended_db.pairings
        × (p.user_code_hash ≡ hash_user_code toy key (text "AAAAAAAA"))
        × (p.expires_at ≤ 10)
        × Among (record p { state = PairingState.expired }) expired_db.pairings)
claim_expires_any_state_example =
    claim_expires_any_state service (call_at 10) guess (text "phone") (text "AAAAAAAA") ended_db
      expired_db expiring

-- The pairing as it was claimed, which the connector has not approved
abbrev shown : Pairing
shown = record waiting {
  secret_hash = hash_secret toy (text "secret");
  state = verification;
  user_id = some (text "alice");
  device_id = some (text "dev_1");
}

abbrev shown_db : Db
shown_db = record a_db { pairings = shown ∷ [] }

abbrev reviewed_db : Db
reviewed_db =
    (within_transaction
      (approve_transaction service (call_at 10) (text "par_1") (text "secret") some_identity.key_id)
      shown_db).1

approving :
    approve_transaction service
      (call_at 10)
      (text "par_1")
      (text "secret")
      some_identity.key_id
      shown_db
    ≡ ok (approved, reviewed_db)
unfolding approve_transaction approve_live approve_device Store.pairing_by_secret_for_update
    Store.device_by_id_for_update save_pairing Store.append_audit_event ◌>>=◌ hash_secret pad ◌==◌
    put any map_where first create
approving = refl

approved_pairing_example :
    (p : Pairing) × Among p shown_db.pairings
    × IsReviewable 10 (hash_secret toy (text "secret")) (text "par_1") p
    × IsForKey some_identity.key_id p shown_db
    × IsApproved 10 p shown_db reviewed_db
approved_pairing_example =
    approved_pairing service (call_at 10) (text "par_1") (text "secret") some_identity.key_id
      shown_db reviewed_db approving

abbrev agreed : Pairing
agreed = record done {
  state = verification;
  connector_id = none;
  expires_at = 50;
  confirmed_at = none;
  completed_at = none;
}

abbrev agreed_db : Db
agreed_db = record a_db { pairings = agreed ∷ [] }

abbrev confirmation : ConfirmPairingResult
confirmation = record {
  device_id = text "dev_1";
  connector_id = text "con_" ++ encode (take 18 key);
  device_credential = derive_device_credential toy key (take 32 (drop 18 (key ++ key ++ key)));
  device_credential_expires_at = 10 + service.device_credential_lifetime;
}

abbrev confirmed_db : Db
confirmed_db =
    (within_transaction
      (confirm_transaction service (call_at 10) (text "alice") (text "par_1") (text "dev_1"))
      agreed_db).1

confirming :
    confirm_transaction service (call_at 10) (text "alice") (text "par_1") (text "dev_1") agreed_db
    ≡ ok (confirmation, confirmed_db)
unfolding confirm_transaction confirm_first connector_for_confirm complete ◌>>=◌ optional ◌==◌ put
    any map_where first create Store.pairing_by_id_for_update Store.device_by_id_for_update
    Store.connector_by_key_id_for_update issue_identifier Store.create_connector encode
    Store.save_device Store.upsert_trust Store.save_connector save_pairing Store.append_audit_event
confirming = refl

confirmed_pairing_example :
    ((call_at 10).authorize_account (text "alice") ≡ none)
    × ((p : Pairing) × Among p agreed_db.pairings
        × (p.id ≡ text "par_1")
        × IsConfirmable 10 (text "alice") (text "dev_1") p)
    × ((d : Device) × Among d agreed_db.devices
        × (d.id ≡ text "dev_1")
        × (d.user_id ≡ text "alice")
        × (is_some d.revoked_at ≡ false))
    × IsIssuedTo toy (text "dev_1") confirmation confirmed_db
confirmed_pairing_example =
    confirmed_pairing service (call_at 10) (text "alice") (text "par_1") (text "dev_1") agreed_db
      confirmed_db confirmation confirming
