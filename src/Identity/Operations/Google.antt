-- ===== src/Identity/Operations/Google.antt =====
-- `AuthenticateWithGoogle` of internal/identity/google.go.
pub mod Loop
use openremotecode_api.Prelude.{
  ℕ, zero, suc, Bool, true, false, ◌&&◌, not, Option, some, none, if◌then◌else◌,
}
use openremotecode_api.Bytes.{Bytes}
use openremotecode_api.Database.Transaction.{ok, err}
use openremotecode_api.Identity.Errors.{
  conflict, google_unavailable, invalid_google_token, invalid_input, is_conflict,
}
use openremotecode_api.Identity.Db.{Result}
use openremotecode_api.Identity.Types.{GoogleIdentity, GoogleAuthInput, Credentials}
use openremotecode_api.Identity.Validation.{normalize_email, normalize_client_name}
use openremotecode_api.Identity.Service.{Service, Call, World}
use openremotecode_api.Identity.Transactions.Google.{
  GoogleOutcome, signed_in, refused, Asserted, google_transaction,
}
use openremotecode_api.Identity.Operations.{Op, raise, require, on_error, ◌>>=◌, commits}

abbrev pub google_conflict_retries : ℕ
google_conflict_retries = 1

abbrev pub google_reply : GoogleOutcome → Result Credentials
google_reply (signed_in credentials) = ok credentials
google_reply (refused e) = err e

module _ (service : Service) (call : Call) where
  open service use {lib}

  -- `googleSignIn`, on its n-th attempt
  unfoldable pub google_sign_in : Asserted → ℕ → Op GoogleOutcome
  google_sign_in a attempt =
      commits (google_transaction service (call.now attempt) a (call.random attempt))

  -- What follows an attempt: a conflict is tried again, if there may be another attempt.
  abbrev pub google_next :
      Bool → Op Credentials → Result GoogleOutcome × World → Result Credentials × World
  google_next may_retry retry (ok outcome, w) = (google_reply outcome, w)
  google_next may_retry retry (err e, w) =
      if is_conflict e && may_retry then retry w else (err e, w)

  -- The loop from an attempt on, by the retries that are left.
  unfoldable pub google_attempts : Asserted → ℕ → ℕ → Op Credentials
  google_attempts a attempt zero w = google_next false (raise conflict) (google_sign_in a attempt w)
  google_attempts a attempt (suc retries) w =
      google_next true (google_attempts a (suc attempt) retries) (google_sign_in a attempt w)

  unfoldable pub google_verified : Bytes → GoogleIdentity → Op Credentials
  google_verified client_name asserted =
      if not asserted.email_verified
      then raise invalid_google_token
      else require (on_error (normalize_email lib asserted.email) invalid_google_token) >>= λ e.
          google_attempts
            (record {
              subject = asserted.subject;
              email = e.0;
              normalized_email = e.1;
              client_name = client_name;
            })
            0 google_conflict_retries

  abbrev pub google_with : GoogleAuthInput → Option (Bytes → Result GoogleIdentity) → Op Credentials
  google_with input none = raise google_unavailable
  google_with input (some verify) = do
    client_name ← require (on_error (normalize_client_name lib input.client_name) invalid_input)
    asserted ← require (on_error (verify input.id_token) invalid_google_token)
    google_verified client_name asserted

  unfoldable pub authenticate_with_google : GoogleAuthInput → Op Credentials
  authenticate_with_google input = google_with input service.google_verifier
