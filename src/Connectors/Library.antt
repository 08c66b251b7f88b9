-- ===== src/Connectors/Library.antt =====
-- The functions of Go's standard library whose tables and ciphers are not written out here: hashes,
-- signatures, JSON and Unicode. Their laws are the documented sizes of the digests, and what the
-- Unicode functions do to printable ASCII.
use openremotecode_api.Prelude.{
  ℕ, ◌≡◌, ◌≤◌, ◌<◌, Bool, ◌-◌, All, length, map, leb, ◌&&◌, if◌then◌else◌,
}
use openremotecode_api.Bytes.{Bytes, IsByte}

-- A printable ASCII character that is not a space.
abbrev pub IsGraphic : ℕ → Type 0
IsGraphic c = (33 ≤ c) × (c < 127)

abbrev pub ascii_upper : ℕ → ℕ
ascii_upper c = if leb b'a' c && leb c b'z' then c - 32 else c

pub record Library : Type 0 where
  -- `sha256.Sum256`
  pub sha256 : Bytes → Bytes
  -- `hmac.New(sha256.New, key)`, then `Write` and `Sum`
  pub hmac_sha256 : Bytes → Bytes → Bytes
  -- Whether `elliptic.Unmarshal` reads the bytes as a point of P-256
  pub on_p256 : Bytes → Bool
  -- `ecdsa.Verify` of a public key, a digest and the two halves of a signature
  pub ecdsa_verify : Bytes → Bytes → Bytes → Bytes → Bool
  -- `json.Marshal` of the label, challenge, version, suite, key ID and public key of a proof
  pub marshal_proof : Bytes → Bytes → ℕ → Bytes → Bytes → Bytes → Bytes
  -- `strings.TrimSpace`, `strings.ToUpper`, `utf8.ValidString`
  pub trim_space : Bytes → Bytes
  pub to_upper : Bytes → Bytes
  pub valid_utf8 : Bytes → Bool
  pub length-sha256 : (m : Bytes) → length (sha256 m) ≡ 32
  pub length-hmac_sha256 : (k m : Bytes) → length (hmac_sha256 k m) ≡ 32
  pub bytes-hmac_sha256 : (k m : Bytes) → All IsByte (hmac_sha256 k m)
  pub trim_space_graphic : (s : Bytes) → All IsGraphic s → trim_space s ≡ s
  pub to_upper_graphic : (s : Bytes) → All IsGraphic s → to_upper s ≡ map ascii_upper s
