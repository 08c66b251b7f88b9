-- ===== src/Connectors/Tokens/UserCode.antt =====
-- The user code of internal/connectors/service.go: what is printed, and what is read back.
use openremotecode_api.Prelude.{
  ℕ, zero, suc, ◌+◌, ◌*◌, ◌/◌, ◌≡◌, ◌∷◌, [], ltb, get_or, leb, nat_eq, if◌then◌else◌, true, Bool,
  not, ◌&&◌,
}
use openremotecode_api.Bytes.{Bytes}
use openremotecode_api.Connectors.Library.{Library, ascii_upper}
use openremotecode_api.Connectors.Tokens.{alphabet}

-- The place of a character in a list; its length where it is absent.
unfoldable pub index_of : Bytes → ℕ → ℕ
index_of [] c = 0
index_of (x ∷ l) c = if nat_eq x c then 0 else suc (index_of l c)

-- The number that a code of the alphabet denotes in base 32, read after a number.
unfoldable pub read_code : ℕ → Bytes → ℕ
unfolding index_of
read_code value [] = value
read_code value (c ∷ code) = read_code (value * 32 + index_of alphabet c) code

-- A character that the normalization leaves as it is.
abbrev plain : ℕ → Bool
plain c = leb 33 c && ltb c 127 && nat_eq (ascii_upper c) c && not (nat_eq c b'-')

abbrev IsPlain : ℕ → Type 0
IsPlain c = plain c ≡ true

abbrev digit_char : ℕ → ℕ
digit_char v = get_or alphabet v 0

abbrev good_digit : ℕ → Bool
good_digit v = plain (digit_char v) && nat_eq (index_of alphabet (digit_char v)) v

all_below : (ℕ → Bool) → ℕ → Bool
all_below p zero = true
all_below p (suc n) = p n && all_below p n

-- That the value has at most as many digits of base 32.
abbrev Fits : ℕ → ℕ → Type 0
Fits zero v = v ≡ 0
Fits (suc n) v = Fits n (v / 32)
