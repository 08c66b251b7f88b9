-- ===== src/Identity/Errors.antt =====
-- The errors of internal/identity/types.go.
use openremotecode_api.Prelude.{ℕ, Bool, true, false}

-- `unexpected_eof` is a random source that ran dry, `exhausted` is rejection sampling that gave up,
-- and `other` is any other error, of the database or of the password hasher.
pub data Error : Type 0 where
  conflict invalid_credentials invalid_input invalid_refresh invalid_verification_code : Error
  not_found unauthorized verification_throttled disposable_email : Error
  invalid_google_token account_link_required google_unavailable identity_already_linked : Error
  unexpected_eof exhausted : Error
  other : ℕ → Error

-- `errors.Is(err, ErrNotFound)`
abbrev pub is_not_found : Error → Bool
is_not_found not_found = true
is_not_found _ = false

-- `errors.Is(err, ErrConflict)`
abbrev pub is_conflict : Error → Bool
is_conflict conflict = true
is_conflict _ = false
