-- ===== src/Identity/Validation.antt =====
-- What internal/identity/service.go tests of what a caller hands in, and the functions of Go's
-- standard library that it uses for it.
use openremotecode_api.Prelude.{
  ℕ, ◌*◌, Bool, true, false, ◌&&◌, ◌||◌, not, Option, none, some, List, [], ◌∷◌, ltb, leb, nat_eq,
  length, if◌then◌else◌,
}
use openremotecode_api.Bytes.{Bytes, ◌==◌}
use openremotecode_api.Database.Transaction.{ok, err}
use openremotecode_api.Identity.Errors.{invalid_input}
use openremotecode_api.Identity.Db.{Result}

pub record Library : Type 0 where
  -- `sha256.Sum256`
  pub sha256 : Bytes → Bytes
  -- `strings.TrimSpace`, `strings.ToLower`, `utf8.ValidString`
  pub trim_space : Bytes → Bytes
  pub to_lower : Bytes → Bytes
  pub valid_utf8 : Bytes → Bool
  -- The runes that `range` meets in a string, which `utf8.RuneCountInString` counts
  pub runes : Bytes → List ℕ
  -- The `Address` that `mail.ParseAddress` reads
  pub parse_address : Bytes → Option Bytes

abbrev pub is_empty : Bytes → Bool
is_empty [] = true
is_empty (_ ∷ _) = false

unfoldable pub all_digits : Bytes → Bool
all_digits [] = true
all_digits (c ∷ code) = leb b'0' c && leb c b'9' && all_digits code

unfoldable pub valid_verification_code : Bytes → Bool
unfolding all_digits
valid_verification_code code = if not (nat_eq (length code) 6) then false else all_digits code

unfoldable pub has_control : List ℕ → Bool
has_control [] = false
has_control (c ∷ l) = ltb c 32 || nat_eq c 127 || has_control l

module _ (lib : Library) where
  unfoldable pub hash_token : Bytes → Bytes
  hash_token token = lib.sha256 token

  abbrev same_address : Bytes → Option Bytes → Bool
  same_address email none = false
  same_address email (some address) = address == email

  -- The address and its normal form
  unfoldable pub normalize_email : Bytes → Result (Bytes × Bytes)
  normalize_email value =
      let email = lib.trim_space value in
      if is_empty email || ltb 254 (length email) || not (lib.valid_utf8 email)
      then err invalid_input
      else if not (same_address email (lib.parse_address email))
      then err invalid_input
      else ok (email, lib.to_lower email)

  unfoldable pub normalize_client_name : Bytes → Result Bytes
  unfolding has_control
  normalize_client_name value =
      let name = lib.trim_space value in
      if is_empty name || not (lib.valid_utf8 name) || ltb 64 (length (lib.runes name))
      then err invalid_input
      else if has_control (lib.runes name)
      then err invalid_input
      else ok name

  unfoldable pub valid_registration_password : Bytes → Bool
  valid_registration_password password =
      leb 12 (length (lib.runes password))
      && leb (length (lib.runes password)) 128
      && leb (length password) (128 * 4)
      && lib.valid_utf8 password

  unfoldable pub valid_login_password : Bytes → Bool
  valid_login_password password =
      not (is_empty password)
      && lib.valid_utf8 password
      && leb (length (lib.runes password)) 128
      && leb (length password) (128 * 4)
