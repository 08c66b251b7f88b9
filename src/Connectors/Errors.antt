-- ===== src/Connectors/Errors.antt =====
-- The errors of internal/connectors/types.go, and Go's (value, error) pairs.
use openremotecode_api.Prelude.{ℕ}

-- `attempts_exceeded` carries the time after which a retry can succeed. `unexpected_eof` is a random
-- source that ran dry; `other` is any other error, of the database or of an authorizer.
pub data Error : Type 0 where
  conflict expired invalid_input not_found unauthorized invalid_code unexpected_eof : Error
  attempts_exceeded : ℕ → Error
  other : ℕ → Error

pub data Result {ℓ} (A : Type ℓ) : Type ℓ where
  ok : A → Result A
  err : Error → Result A

-- An unknown record reads as a bad credential, so that a caller cannot probe for records.
unfoldable pub normalize_authorization_error : Error → Error
normalize_authorization_error not_found = unauthorized
normalize_authorization_error e = e

-- An error as it leaves an operation that normalizes it.
abbrev pub normalized {ℓ} : {A : Type ℓ} → Result A → Result A
normalized (ok a) = ok a
normalized (err e) = err (normalize_authorization_error e)
