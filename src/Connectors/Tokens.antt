-- ===== src/Connectors/Tokens.antt =====
-- The secrets and names of internal/connectors/service.go: tokens, identifiers, user codes, derived
-- credentials, and the tests of what a caller hands in. A random source is the bytes that it will
-- deliver; what a read leaves is handed on.
pub mod Issued
pub mod UserCode
use openremotecode_api.Prelude.{
  ℕ, zero, suc, ◌+◌, ◌*◌, ◌/◌, ◌%◌, Bool, true, false, ◌&&◌, ◌||◌, not, Option, none, some, [], ◌∷◌,
  ◌++◌, ltb, nat_eq, length, take, drop, keep, get_or, if◌then◌else◌,
}
use openremotecode_api.Bytes.{Bytes, text, ◌==◌, has_prefix, trim_prefix}
use openremotecode_api.Base64.{encode, decode}
use openremotecode_api.Connectors.Errors.{Result, ok, err, unexpected_eof, invalid_input}
use openremotecode_api.Connectors.Types.{PublicIdentity, IdentityProof, is_empty}
use openremotecode_api.Connectors.Library.{Library}

infixl 5 ◌>>=◌
abbrev ◌>>=◌ : {A B : Type 0} → Result A → (A → Result B) → Result B
ok a >>= f = f a
err e >>= f = err e

-- `io.ReadFull` into a buffer of the given size
unfoldable pub read_full : ℕ → Bytes → Result (Bytes × Bytes)
read_full size random =
    if ltb (length random) size then err unexpected_eof else ok (take size random, drop size random)

unfoldable pub random_base64 : Bytes → ℕ → Result (Bytes × Bytes)
unfolding read_full
random_base64 random size = do (value, rest) ← read_full size random; ok (encode value, rest)

unfoldable pub issue_identifier : Bytes → Bytes → Result (Bytes × Bytes)
unfolding random_base64
issue_identifier random prefix = do
  (value, rest) ← random_base64 random 18
  ok (prefix ++ value, rest)

unfoldable pub issue_token : Bytes → Bytes → Result (Bytes × Bytes)
unfolding random_base64
issue_token random prefix = do (value, rest) ← random_base64 random 32; ok (prefix ++ value, rest)

abbrev is_token_body : Option Bytes → Bool
is_token_body none = false
is_token_body (some decoded) = nat_eq (length decoded) 32

unfoldable pub valid_token : Bytes → Bytes → Bool
valid_token value prefix =
    if not (has_prefix value prefix)
    then false
    else is_token_body (decode (trim_prefix value prefix))

abbrev pub alphabet : Bytes
alphabet = text "0123456789ABCDEFGHJKMNPQRSTVWXYZ"

-- The loop that fills the code from its last character: a round for each place left.
unfoldable pub code_digits : ℕ → ℕ → Bytes → Bytes
code_digits zero value encoded = encoded
code_digits (suc places) value encoded =
    code_digits places (value / 32) (get_or alphabet (value % 32) 0 ∷ encoded)

-- `uint64` of five bytes, the first the highest
abbrev pub five_bytes : Bytes → ℕ
five_bytes (a ∷ b ∷ c ∷ d ∷ e ∷ _) = (((a * 256 + b) * 256 + c) * 256 + d) * 256 + e
five_bytes _ = 0

unfoldable pub issue_user_code : Bytes → Result (Bytes × Bytes)
unfolding read_full code_digits
issue_user_code random = do
  (bytes, rest) ← read_full 5 random
  let encoded = code_digits 8 (five_bytes bytes) []
  ok (take 4 encoded ++ (b'-' ∷ drop 4 encoded), rest)

-- `strings.ReplaceAll(…, "-", "")`
abbrev pub without_dashes : Bytes → Bytes
without_dashes s = keep (λ c. not (nat_eq c b'-')) s

module _ (lib : Library) where
  unfoldable pub normalize_user_code : Bytes → Bytes
  normalize_user_code value = lib.to_upper (without_dashes (lib.trim_space value))

  unfoldable pub normalize_name : Bytes → Result Bytes
  normalize_name value =
      let trimmed = lib.trim_space value in
      if is_empty trimmed || ltb 64 (length trimmed) || not (lib.valid_utf8 trimmed)
      then err invalid_input
      else ok trimmed

  unfoldable pub hash_secret : Bytes → Bytes
  hash_secret value = lib.sha256 value

  unfoldable pub hash_user_code : Bytes → Bytes → Bytes
  unfolding normalize_user_code
  hash_user_code pairing_code_key code = lib.hmac_sha256 pairing_code_key (normalize_user_code code)

  unfoldable pub derive_connector_credential : Bytes → Bytes
  derive_connector_credential pairing_secret =
      text "orc_"
      ++ encode (lib.hmac_sha256 pairing_secret (text "opencode-remote/connector-credential/v1"))

  unfoldable pub derive_device_credential : Bytes → Bytes → Bytes
  derive_device_credential device_credential_key seed =
      text "ord_"
      ++ encode (
          lib.hmac_sha256 device_credential_key
            (text "opencode-remote/device-credential/v2" ++ (0 ∷ seed)))

  valid_public_key : PublicIdentity → Option Bytes → Bool
  valid_public_key identity none = false
  valid_public_key identity (some public_key) =
      if not (nat_eq (length public_key) 65) || not (nat_eq (get_or public_key 0 0) 4)
      then false
      else if not (identity.key_id == encode (lib.sha256 public_key))
      then false
      else lib.on_p256 public_key

  unfoldable pub valid_identity : PublicIdentity → Bool
  unfolding valid_public_key
  valid_identity identity =
      if not (nat_eq identity.version 1)
        || not (identity.suite == text "HPKE-Auth-P256-HKDF-SHA256-AES-256-GCM")
      then false
      else valid_public_key identity (decode identity.public_key)

  verify_signature :
      PublicIdentity → IdentityProof → Option Bytes → Option Bytes → Option Bytes → Bool
  verify_signature identity proof (some challenge) (some signature) (some public_key) =
      if not (nat_eq (length challenge) 32)
        || not (nat_eq (length signature) 64)
        || not (lib.on_p256 public_key)
      then false
      else lib.ecdsa_verify public_key
          (lib.sha256 (
            lib.marshal_proof (text "opencode-remote/identity-proof/v1") proof.challenge
              identity.version identity.suite identity.key_id identity.public_key))
          (take 32 signature) (drop 32 signature)
  verify_signature identity proof _ _ _ = false

  unfoldable pub verify_identity_proof : PublicIdentity → IdentityProof → Bool
  unfolding verify_signature
  verify_identity_proof identity proof =
      verify_signature identity proof (decode proof.challenge) (decode proof.signature)
        (decode identity.public_key)
