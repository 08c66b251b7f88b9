-- ===== src/Base64/RoundTrip.antt =====
-- Decoding what was encoded.
use openremotecode_api.Prelude.{
  ℕ, ◌+◌, ◌*◌, ◌/◌, ◌%◌, ◌<◌, ◌≡◌, refl, some, [], ◌∷◌, arith, All, false, not, keep, length,
}
use openremotecode_api.Bytes.{Bytes, IsByte, eq_refl}
use openremotecode_api.Base64.{
  digit, digit_value, encode, decode_digits, decode, is_newline, decode_strict,
}

digit_value-digit : (v : ℕ) → v < 64 → digit_value (digit v) ≡ some v
unfolding digit digit_value
digit_value-digit v h = ground arith

is_newline-digit : (v : ℕ) → v < 64 → is_newline (digit v) ≡ false
unfolding digit
is_newline-digit v h = ground arith

decode_digits-encode : (b : Bytes) → All IsByte b → decode_digits (encode b) ≡ some b
unfolding encode decode_digits
decode_digits-encode [] h = refl
decode_digits-encode (a ∷ []) h =
    ground (arith, digit_value-digit (a / 4), digit_value-digit (a % 4 * 16))
decode_digits-encode (a ∷ b ∷ []) h = ground (
  arith,
  digit_value-digit (a / 4),
  digit_value-digit (a % 4 * 16 + b / 16),
  digit_value-digit (b % 16 * 4),
)
decode_digits-encode (a ∷ b ∷ c ∷ rest) h = ground (
  arith,
  digit_value-digit (a / 4),
  digit_value-digit (a % 4 * 16 + b / 16),
  digit_value-digit (b % 16 * 4 + c / 64),
  digit_value-digit (c % 64),
  decode_digits-encode rest,
)

-- A digit at the head is kept.
keep-digit :
    (v : ℕ) (s : Bytes)
    → v < 64
    → keep (λ c. not (is_newline c)) (digit v ∷ s) ≡ digit v ∷ keep (λ c. not (is_newline c)) s
keep-digit v s h = rw (is_newline-digit v h)

pub keep-encode : (b : Bytes) → All IsByte b → keep (λ c. not (is_newline c)) (encode b) ≡ encode b
unfolding encode
keep-encode [] h = refl
keep-encode (a ∷ []) h =
    ground (arith, keep-digit (a / 4) (digit (a % 4 * 16) ∷ []), keep-digit (a % 4 * 16) [])
keep-encode (a ∷ b ∷ []) h = ground (
  arith,
  is_newline-digit (a / 4),
  is_newline-digit (a % 4 * 16 + b / 16),
  is_newline-digit (b % 16 * 4),
)
keep-encode (a ∷ b ∷ c ∷ rest) h = ground (
  arith,
  is_newline-digit (a / 4),
  is_newline-digit (a % 4 * 16 + b / 16),
  is_newline-digit (b % 16 * 4 + c / 64),
  is_newline-digit (c % 64),
  keep-encode rest,
)

-- Decoding an encoded byte string gives it back.
pub decode-encode : (b : Bytes) → All IsByte b → decode (encode b) ≡ some b
unfolding decode
decode-encode b h = rw (keep-encode b h) (decode_digits-encode b h)

-- The strict decoder accepts what the encoder prints.
pub decode_strict-encode : (b : Bytes) → All IsByte b → decode_strict (encode b) ≡ some b
unfolding decode_strict
decode_strict-encode b h = rw (decode-encode b h, keep-encode b h, eq_refl (encode b)) refl

-- Four digits for each three bytes, rounded up.
pub length-encode : (b : Bytes) → length (encode b) ≡ (length b * 4 + 2) / 3
unfolding encode
length-encode [] = refl
length-encode (a ∷ []) = refl
length-encode (a ∷ b ∷ []) = refl
length-encode (a ∷ b ∷ c ∷ rest) = omega (arith, length-encode rest)
