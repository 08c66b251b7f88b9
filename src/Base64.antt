-- ===== src/Base64.antt =====
-- `base64.RawURLEncoding` of the standard library: the URL alphabet without padding. The decoder
-- skips carriage returns and line feeds and does not look at the unused bits of the last digit,
-- which the strict one wants to be zero.
pub mod RoundTrip
use openremotecode_api.Prelude.{
  ℕ, ◌+◌, ◌-◌, ◌*◌, ◌/◌, ◌%◌, Option, none, some, [], ◌∷◌, ◌||◌, ltb, leb, nat_eq, ◌&&◌,
  if◌then◌else◌, not, keep, Bool,
}
use openremotecode_api.Bytes.{Bytes, ◌==◌}

infixl 5 ◌>>=◌
abbrev ◌>>=◌ : {A B : Type 0} → Option A → (A → Option B) → Option B
none >>= f = none
some a >>= f = f a

-- The digit of a 6-bit value: A-Z, a-z, 0-9, `-` and `_`.
digit : ℕ → ℕ
digit v =
    if ltb v 26
    then v + 65
    else if ltb v 52
    then v + 71
    else if ltb v 62
    then v - 4
    else if nat_eq v 62
    then b'-'
    else b'_'

digit_value : ℕ → Option ℕ
digit_value c =
    if leb b'A' c && leb c b'Z'
    then some (c - 65)
    else if leb b'a' c && leb c b'z'
    then some (c - 71)
    else if leb b'0' c && leb c b'9'
    then some (c + 4)
    else if nat_eq c b'-'
    then some 62
    else if nat_eq c b'_'
    then some 63
    else none

unfoldable pub encode : Bytes → Bytes
unfolding digit
encode [] = []
encode (a ∷ []) = digit (a / 4) ∷ digit (a % 4 * 16) ∷ []
encode (a ∷ b ∷ []) = digit (a / 4) ∷ digit (a % 4 * 16 + b / 16) ∷ digit (b % 16 * 4) ∷ []
encode (a ∷ b ∷ c ∷ rest) =
    digit (a / 4)
    ∷ digit (a % 4 * 16 + b / 16)
    ∷ digit (b % 16 * 4 + c / 64)
    ∷ digit (c % 64)
    ∷ encode rest

decode_digits : Bytes → Option Bytes
unfolding digit_value
decode_digits [] = some []
decode_digits (w ∷ []) = none
decode_digits (w ∷ x ∷ []) = do
  w' ← digit_value w
  x' ← digit_value x
  some ((w' * 4 + x' / 16) ∷ [])
decode_digits (w ∷ x ∷ y ∷ []) = do
  w' ← digit_value w
  x' ← digit_value x
  y' ← digit_value y
  some ((w' * 4 + x' / 16) ∷ (x' % 16 * 16 + y' / 4) ∷ [])
decode_digits (w ∷ x ∷ y ∷ z ∷ rest) = do
  w' ← digit_value w
  x' ← digit_value x
  y' ← digit_value y
  z' ← digit_value z
  more ← decode_digits rest
  some ((w' * 4 + x' / 16) ∷ (x' % 16 * 16 + y' / 4) ∷ (y' % 4 * 64 + z') ∷ more)

abbrev is_newline : ℕ → Bool
is_newline c = nat_eq c 10 || nat_eq c 13

unfoldable pub decode : Bytes → Option Bytes
unfolding decode_digits
decode s = decode_digits (keep (λ c. not (is_newline c)) s)

abbrev pub canonical : Bytes → Option Bytes → Option Bytes
canonical s none = none
canonical s (some decoded) = if encode decoded == s then some decoded else none

-- `base64.RawURLEncoding.Strict()`: the unused bits are zero where the bytes encode to the input.
unfoldable pub decode_strict : Bytes → Option Bytes
decode_strict s = canonical (keep (λ c. not (is_newline c)) s) (decode s)
