-- ===== src/Identity/Operations/Verification.antt =====
-- `VerifyEmail` and `ResendVerification` of internal/identity/service.go.
use openremotecode_api.Prelude.{◌||◌, not, Option, some, none, if◌then◌else◌}
use openremotecode_api.Bytes.{Bytes, text}
use openremotecode_api.Identity.Errors.{invalid_verification_code, verification_throttled}
use openremotecode_api.Identity.Types.{
  Credentials, VerificationChallenge, VerifyEmailInput, AuthOutcome, with_credentials,
}
use openremotecode_api.Identity.Tokens.{valid_token}
use openremotecode_api.Identity.Validation.{hash_token, valid_verification_code}
use openremotecode_api.Identity.Service.{Service, Call}
use openremotecode_api.Identity.Transactions.Verification.{
  ResendOutcome, throttled, refused, reissued, verify_transaction, resend_transaction,
}
use openremotecode_api.Identity.Operations.{
  Op, return, raise, ◌>>=◌, ◌>>◌, commits, deliver_verification_code,
}

abbrev pub verify_reply : Option Credentials → Op AuthOutcome
verify_reply none = raise invalid_verification_code
verify_reply (some credentials) = return (with_credentials credentials)

module _ (service : Service) (call : Call) where
  open service use {lib}

  unfoldable pub verify_email : VerifyEmailInput → Op AuthOutcome
  verify_email input =
      if not (valid_token input.ticket (text "vft_")) || not (valid_verification_code input.code)
      then raise invalid_verification_code
      else commits (
          verify_transaction service (hash_token lib input.ticket) (hash_token lib input.code)
            (call.now 0) (call.random 0))
        >>= verify_reply

  unfoldable pub resend_reply : ResendOutcome → Op VerificationChallenge
  resend_reply throttled = raise verification_throttled
  resend_reply refused = raise invalid_verification_code
  resend_reply (reissued material user) = do
    deliver_verification_code service call user.id user.email material.code
    return material.challenge

  unfoldable pub resend_verification : Bytes → Op VerificationChallenge
  resend_verification ticket =
      if not (valid_token ticket (text "vft_"))
      then raise invalid_verification_code
      else commits (resend_transaction service (hash_token lib ticket) (call.now 0) (call.random 0))
        >>= resend_reply
