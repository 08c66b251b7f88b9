-- ===== src/Examples/Tokens.antt =====
-- Tokens and user codes made of known bytes, and a service made of known options.
use openremotecode_api.Prelude.{pos, negsuc, ◌*◌, ◌≡◌, refl, true, [], ◌++◌, All, drop, arith}
use openremotecode_api.Bytes.{Bytes, IsByte, text}
use openremotecode_api.Base64.{encode}
use openremotecode_api.Connectors.Errors.{ok}
use openremotecode_api.Connectors.Tokens.{
  issue_token, random_base64, read_full, valid_token, derive_connector_credential,
  derive_device_credential,
}
use openremotecode_api.Connectors.Tokens.Issued.{valid_token-issue_token, valid_token-derived}
use openremotecode_api.Connectors.Service.{ServiceOptions, configured, new_service, hour}
use openremotecode_api.Connectors.Service.Valid.{IsValid, new_service-IsValid}
use openremotecode_api.Examples.Setup.{toy, key, settings}

key-bytes : All IsByte key
key-bytes = ground arith

abbrev ticket : Bytes
ticket = text "ort_" ++ encode key

issued : issue_token key (text "ort_") ≡ ok (ticket, [])
unfolding issue_token random_base64 read_full
issued = refl

valid_token-issue_token_example : (valid_token ticket (text "ort_") ≡ true) × ([] ≡ drop 32 key)
valid_token-issue_token_example =
    valid_token-issue_token key (text "ort_") ticket [] key-bytes issued

valid_token-derived_example :
    (valid_token (derive_connector_credential toy key) (text "orc_") ≡ true)
    × (valid_token (derive_device_credential toy key key) (text "ord_") ≡ true)
valid_token-derived_example = valid_token-derived toy key key key

abbrev options : ServiceOptions
options = record {
  pairing_code_key = key;
  device_credential_key = [];
  service_id = text "service";
  verification_uri = text "https://example.com/pair";
  challenge_lifetime = pos 0;
  pairing_lifetime = negsuc 4;
  device_credential_lifetime = pos (365 * 24 * hour);
  connector_credential_lifetime = pos 0;
  credential_activation_window = pos 0;
  ticket_lifetime = pos 0;
  poll_interval = pos 0;
  has_authorize_account = true;
  has_authorize_session = true;
}

made : new_service toy options ≡ configured settings
unfolding new_service
made = refl

new_service-IsValid_example : IsValid toy options settings × (true ≡ true) × (true ≡ true)
new_service-IsValid_example = new_service-IsValid toy options settings made
