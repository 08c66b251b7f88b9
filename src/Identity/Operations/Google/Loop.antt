-- ===== src/Identity/Operations/Google/Loop.antt =====
-- The loop of `AuthenticateWithGoogle` of internal/identity/google.go, which has no bound of its own.
use openremotecode_api.Prelude.{
  ℕ, zero, suc, ◌≡◌, refl, ◌&&◌, Option, none, some, if◌then◌else◌, ltb, false, Bool, true, arith,
}
use openremotecode_api.Database.Transaction.{ok, err}
use openremotecode_api.Identity.Errors.{conflict, is_conflict}
use openremotecode_api.Identity.Db.{Result}
use openremotecode_api.Identity.Types.{Credentials}
use openremotecode_api.Identity.Service.{Service, Call, World}
use openremotecode_api.Identity.Transactions.Google.{GoogleOutcome, Asserted}
use openremotecode_api.Identity.Operations.{Op, raise}
use openremotecode_api.Identity.Operations.Google.{
  google_conflict_retries, google_reply, google_sign_in, google_attempts, google_next,
}

module _ (service : Service) (call : Call) where
  abbrev pub google_case :
      Bool
      → Option (Result Credentials × World)
      → Result GoogleOutcome × World
      → Option (Result Credentials × World)
  google_case may_retry continued (ok outcome, w) = some (google_reply outcome, w)
  google_case may_retry continued (err e, w) =
      if is_conflict e && may_retry then continued else some (err e, w)

  -- The loop from an attempt on, on fuel: none when it is still running at the end of it.
  unfoldable pub google_loop : Asserted → ℕ → ℕ → World → Option (Result Credentials × World)
  google_loop a zero attempt w = none
  google_loop a (suc fuel) attempt w =
      let attempted = google_sign_in service call a attempt w in
      google_case (ltb attempt google_conflict_retries)
        (google_loop a fuel (suc attempt) attempted.1) attempted

  last_round :
      (continued : Option (Result Credentials × World)) (retry : Op Credentials)
      (attempted : Result GoogleOutcome × World)
      → google_case false continued attempted
        ≡ some (google_next service call false retry attempted)
  last_round continued retry (ok outcome, w) = refl
  last_round continued retry (err e, w) = ground arith

  first_round :
      (continued : Option (Result Credentials × World)) (retry : Op Credentials)
      (attempted : Result GoogleOutcome × World)
      → continued ≡ some (retry attempted.1)
      → google_case true continued attempted ≡ some (google_next service call true retry attempted)
  first_round continued retry (ok outcome, w) h = refl
  first_round continued retry (err e, w) h = ground arith

  -- The loop ends: two rounds are enough on any input, more change nothing, and the result is that of one
  -- attempt and at most one retry, as the operation is modelled.
  pub google_loop_ends :
      (a : Asserted) (fuel : ℕ) (w : World)
      → google_loop a (suc (suc fuel)) 0 w
        ≡ some (google_attempts service call a 0 google_conflict_retries w)
  unfolding google_loop google_attempts
  google_loop_ends a fuel w =
      let first = google_sign_in service call a 0 w in
      let last = google_sign_in service call a 1 first.1 in
      first_round _ (google_attempts service call a 1 0) first
        (last_round (google_loop a fuel 2 last.1) (raise conflict) last)
