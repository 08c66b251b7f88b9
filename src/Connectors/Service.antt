-- ===== src/Connectors/Service.antt =====
-- The `Service` of internal/connectors/service.go, its constructor, and what a call of it is given.
pub mod Valid
use openremotecode_api.Prelude.{
  ℕ, ℤ, pos, negsuc, ◌*◌, Bool, ◌||◌, not, Option, ltb, nat_eq, length, if◌then◌else◌,
}
use openremotecode_api.Bytes.{Bytes}
use openremotecode_api.Database.{Engine}
use openremotecode_api.Connectors.Errors.{Error}
use openremotecode_api.Connectors.Types.{is_empty}
use openremotecode_api.Connectors.Library.{Library}

abbrev pub second : ℕ
second = 1_000_000_000

abbrev pub minute : ℕ
minute = 60 * second

abbrev pub hour : ℕ
hour = 60 * minute

-- A duration that is not positive is unset. The clock, the random source and the callbacks are read call by
-- call; of the two authorizers the options say whether they are set.
pub record ServiceOptions : Type 0 where
  pub pairing_code_key : Bytes
  pub device_credential_key : Bytes
  pub service_id : Bytes
  pub verification_uri : Bytes
  pub challenge_lifetime : ℤ
  pub pairing_lifetime : ℤ
  pub device_credential_lifetime : ℤ
  pub connector_credential_lifetime : ℤ
  pub credential_activation_window : ℤ
  pub ticket_lifetime : ℤ
  pub poll_interval : ℤ
  pub has_authorize_account : Bool
  pub has_authorize_session : Bool

pub record Settings : Type 0 where
  pub pairing_code_key : Bytes
  pub device_credential_key : Bytes
  pub service_id : Bytes
  pub verification_uri : Bytes
  pub challenge_lifetime : ℕ
  pub pairing_lifetime : ℕ
  pub device_credential_lifetime : ℕ
  pub connector_credential_lifetime : ℕ
  pub credential_activation_window : ℕ
  pub ticket_lifetime : ℕ
  pub poll_interval : ℕ
  pub account_claim_failure_limit : ℕ
  pub account_claim_failure_window : ℕ
  pub global_claim_failure_limit : ℕ
  pub global_claim_failure_window : ℕ

-- The service: the repository's engine, the library's functions, and the settings.
pub record Service : Type 1 where
  pub engine : Engine
  pub lib : Library
  pub settings : Settings
  pub open settings use *

-- What one call meets: `service.now()`, the bytes that the random source delivers to it, and the
-- answers of the account and session authorizers.
pub record Call : Type 0 where
  pub now : ℕ
  pub random : Bytes
  pub authorize_account : Bytes → Option Error
  pub authorize_session : Bytes → Bytes → Option Error

pub data OptionsError : Type 0 where
  short_pairing_code_key short_device_credential_key invalid_service_id : OptionsError
  no_verification_uri no_account_authorizer no_session_authorizer : OptionsError

pub data Configured : Type 0 where
  configured : Settings → Configured
  misconfigured : OptionsError → Configured

abbrev or_default : ℤ → ℕ → ℕ
or_default (pos d) default = if nat_eq d 0 then default else d
or_default (negsuc _) default = default

-- `NewService`
unfoldable pub new_service : Library → ServiceOptions → Configured
new_service lib o =
    let device_key =
      if nat_eq (length o.device_credential_key) 0
      then o.pairing_code_key
      else o.device_credential_key in
    if ltb (length o.pairing_code_key) 32
    then misconfigured short_pairing_code_key
    else if ltb (length device_key) 32
    then misconfigured short_device_credential_key
    else if is_empty (lib.trim_space o.service_id) || ltb 128 (length o.service_id)
    then misconfigured invalid_service_id
    else if is_empty (lib.trim_space o.verification_uri)
    then misconfigured no_verification_uri
    else if not o.has_authorize_account
    then misconfigured no_account_authorizer
    else if not o.has_authorize_session
    then misconfigured no_session_authorizer
    else configured (record {
      pairing_code_key = o.pairing_code_key;
      device_credential_key = device_key;
      service_id = o.service_id;
      verification_uri = o.verification_uri;
      challenge_lifetime = or_default o.challenge_lifetime (2 * minute);
      pairing_lifetime = or_default o.pairing_lifetime (10 * minute);
      device_credential_lifetime = or_default o.device_credential_lifetime (365 * 24 * hour);
      connector_credential_lifetime = or_default o.connector_credential_lifetime (90 * 24 * hour);
      credential_activation_window = or_default o.credential_activation_window (15 * minute);
      ticket_lifetime = or_default o.ticket_lifetime (30 * second);
      poll_interval = or_default o.poll_interval (2 * second);
      account_claim_failure_limit = 10;
      account_claim_failure_window = hour;
      global_claim_failure_limit = 120;
      global_claim_failure_window = minute;
    })
