-- ===== src/Identity/Tokens.antt =====
-- internal/identity/token.go and `validToken` of service.go. A random source is the bytes that it
-- will deliver; what a read leaves is handed on.
pub mod Issued
use openremotecode_api.Prelude.{
  ℕ, zero, suc, ◌+◌, ◌-◌, ◌*◌, ◌/◌, ◌%◌, ◌^◌, Bool, true, false, ◌&&◌, ◌||◌, not, Option, none,
  some, List, [], ◌∷◌, ◌++◌, ltb, nat_eq, leb, length, take, drop, keep, if◌then◌else◌,
}
use openremotecode_api.Bytes.{Bytes, text, ◌==◌, has_prefix}
use openremotecode_api.Base64.{encode, decode_strict}
use openremotecode_api.Database.Transaction
use openremotecode_api.Database.Transaction.{ok, err}
use openremotecode_api.Identity.Errors.{Error, unexpected_eof, exhausted}
use openremotecode_api.Identity.Db.{Result}

infixl 5 ◌>>=◌
unfoldable pub ◌>>=◌ : {A B : Type 0} → Result A → (A → Result B) → Result B
ok a >>= f = f a
err e >>= f = err e

-- `io.ReadFull` into a buffer of the given size
unfoldable pub read_full : ℕ → Bytes → Result (Bytes × Bytes)
read_full size random =
    if ltb (length random) size then err unexpected_eof else ok (take size random, drop size random)

unfoldable pub issue_random_value : Bytes → Bytes → ℕ → Result (Bytes × Bytes)
unfolding read_full ◌>>=◌
issue_random_value random prefix size = do
  (value, rest) ← read_full size random
  ok (prefix ++ encode value, rest)

unfoldable pub issue_identifier : Bytes → Bytes → Result (Bytes × Bytes)
issue_identifier random prefix = issue_random_value random prefix 18

unfoldable pub issue_token : Bytes → Bytes → Result (Bytes × Bytes)
issue_token random prefix = issue_random_value random prefix 32

abbrev pub max_uint32 : ℕ
max_uint32 = 4_294_967_295

abbrev pub verification_code_space : ℕ
verification_code_space = 1_000_000

-- The largest multiple of the code space that `math.MaxUint32` reaches.
abbrev pub limit : ℕ
limit = max_uint32 - max_uint32 % verification_code_space

-- `binary.BigEndian.Uint32`
abbrev pub four_bytes : Bytes → ℕ
four_bytes (a ∷ b ∷ c ∷ d ∷ _) = ((a * 256 + b) * 256 + c) * 256 + d
four_bytes _ = 0

-- The decimal digits of a number below 10 ^ places, padded with zeros: `fmt.Sprintf("%06d", …)` at
-- six places.
unfoldable pub decimal : ℕ → ℕ → Bytes → Bytes
decimal zero value printed = printed
decimal (suc places) value printed = decimal places (value / 10) ((b'0' + value % 10) ∷ printed)

-- The draws that are left, of 64.
unfoldable pub draw_code : ℕ → Bytes → Result (Bytes × Bytes)
unfolding decimal
draw_code zero random = err exhausted
draw_code (suc rounds) random = elim (read_full 4 random) [
  | err e ↦ err e
  | ok (value, rest) ↦
      let again = draw_code rounds rest in
      if ltb (four_bytes value) limit
      then ok (decimal 6 (four_bytes value % verification_code_space) [], rest)
      else again
]

unfoldable pub issue_verification_code : Bytes → Result (Bytes × Bytes)
issue_verification_code random = draw_code 64 random

abbrev pub is_token_body : Option Bytes → Bool
is_token_body none = false
is_token_body (some decoded) = nat_eq (length decoded) 32

unfoldable pub valid_token : Bytes → Bytes → Bool
valid_token token prefix =
    if not (has_prefix token prefix) || not (nat_eq (length token) (length prefix + 43))
    then false
    else is_token_body (decode_strict (drop (length prefix) token))
