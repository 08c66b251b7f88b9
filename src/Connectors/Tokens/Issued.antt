-- ===== src/Connectors/Tokens/Issued.antt =====
-- The tokens of internal/connectors/service.go pass its own test of a token.
use openremotecode_api.Prelude.{
  ◌≡◌, true, ◌++◌, arith, All, All-take, length, length-take, take, drop, ltb, Bool-cases, inl, inr,
}
use openremotecode_api.Bytes.{Bytes, IsByte, text, has_prefix-append, trim_prefix-append}
use openremotecode_api.Base64.{encode}
use openremotecode_api.Base64.RoundTrip.{decode-encode}
use openremotecode_api.Connectors.Errors.{ok}
use openremotecode_api.Connectors.Library.{Library}
use openremotecode_api.Connectors.Tokens.{
  issue_token, valid_token, read_full, random_base64, derive_connector_credential,
  derive_device_credential,
}

valid_token-append :
    (prefix b : Bytes)
    → All IsByte b
    → length b ≡ 32
    → valid_token (prefix ++ encode b) prefix ≡ true
unfolding valid_token
valid_token-append prefix b h e =
    rw
      (has_prefix-append prefix (encode b), trim_prefix-append prefix (encode b), decode-encode b h)
      (ground (arith, e))

-- A token that `issueToken` makes from random bytes is one that `validToken` accepts for the same
-- prefix, and it consumes exactly 32 of the bytes.
pub valid_token-issue_token :
    (random prefix token rest : Bytes)
    → All IsByte random
    → issue_token random prefix ≡ ok (token, rest)
    → (valid_token token prefix ≡ true) × (rest ≡ drop 32 random)
unfolding issue_token read_full random_base64
valid_token-issue_token random prefix token rest h e = elim (Bool-cases (ltb (length random) 32)) [
  | inl short ↦ absurd (ground (arith, rw short at e))
  | inr long ↦
      let made : prefix ++ encode (take 32 random) ≡ token = ground (arith, rw long at e) in
      (
        rw (← made) (
            valid_token-append prefix (take 32 random) (All-take IsByte 32 random h)
              (length-take 32 random (ground arith))),
        ground (arith, rw long at e),
      )
]

-- The credentials that the service derives, the connector's from its pairing secret and the device's
-- from the service's key and a seed, are tokens that `validToken` accepts.
pub valid_token-derived :
    (lib : Library) (secret key seed : Bytes)
    → (valid_token (derive_connector_credential lib secret) (text "orc_") ≡ true)
      × (valid_token (derive_device_credential lib key seed) (text "ord_") ≡ true)
unfolding derive_connector_credential derive_device_credential
valid_token-derived lib secret key seed = (
  valid_token-append (text "orc_") _ (lib.bytes-hmac_sha256 secret _)
      (lib.length-hmac_sha256 secret _),
  valid_token-append (text "ord_") _ (lib.bytes-hmac_sha256 key _) (lib.length-hmac_sha256 key _),
)
