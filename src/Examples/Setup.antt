-- ===== src/Examples/Setup.antt =====
-- A service for the examples: the database in memory, and a library whose hashes are its inputs,
-- cut and padded to 32 bytes, and which accepts every signature.
use openremotecode_api.Prelude.{
  ℕ, zero, suc, ◌≡◌, refl, ◌%◌, ◌*◌, true, none, [], ◌∷◌, ◌++◌, arith, All, map, length,
}
use openremotecode_api.Bytes.{Bytes, text, IsByte}
use openremotecode_api.Connectors.Library.{Library, ascii_upper}
use openremotecode_api.Connectors.Service.{Service, Settings, Call, second, minute, hour}
use openremotecode_api.Examples.Memory.{memory}

unfoldable pub pad : ℕ → Bytes → Bytes
pad zero m = []
pad (suc n) [] = 0 ∷ pad n []
pad (suc n) (c ∷ m) = c % 256 ∷ pad n m

pub length-pad : (n : ℕ) (m : Bytes) → length (pad n m) ≡ n
unfolding pad
length-pad zero m = refl
length-pad (suc n) [] = ground (arith, length-pad n [])
length-pad (suc n) (c ∷ m) = ground (arith, length-pad n m)

pub All-pad : (n : ℕ) (m : Bytes) → All IsByte (pad n m)
unfolding pad
All-pad zero m = tt
All-pad (suc n) [] = (ground arith, All-pad n [])
All-pad (suc n) (c ∷ m) = (omega arith, All-pad n m)

abbrev pub toy : Library
toy = record {
  sha256 = pad 32;
  hmac_sha256 = λ k m. pad 32 m;
  on_p256 = λ _. true;
  ecdsa_verify = λ _ _ _ _. true;
  marshal_proof = λ label challenge _ _ _ _. challenge;
  trim_space = λ s. s;
  to_upper = map ascii_upper;
  valid_utf8 = λ _. true;
  length-sha256 = length-pad 32;
  length-hmac_sha256 = λ k m. length-pad 32 m;
  bytes-hmac_sha256 = λ k m. All-pad 32 m;
  trim_space_graphic = λ _ _. refl;
  to_upper_graphic = λ _ _. refl;
}

abbrev pub key : Bytes
key = text "0123456789abcdef0123456789abcdef"

abbrev pub settings : Settings
settings = record {
  pairing_code_key = key;
  device_credential_key = key;
  service_id = text "service";
  verification_uri = text "https://example.com/pair";
  challenge_lifetime = 2 * minute;
  pairing_lifetime = 10 * minute;
  device_credential_lifetime = 365 * 24 * hour;
  connector_credential_lifetime = 90 * 24 * hour;
  credential_activation_window = 15 * minute;
  ticket_lifetime = 30 * second;
  poll_interval = 2 * second;
  account_claim_failure_limit = 10;
  account_claim_failure_window = hour;
  global_claim_failure_limit = 120;
  global_claim_failure_window = minute;
}

abbrev pub service : Service
service = record { engine = memory; lib = toy; settings = settings }

-- A call whose authorizers accept everyone.
abbrev pub call_at : ℕ → Call
call_at now = record {
  now = now;
  random = key ++ key ++ key;
  authorize_account = λ _. none;
  authorize_session = λ _ _. none;
}
