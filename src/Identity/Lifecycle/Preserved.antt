-- ===== src/Identity/Lifecycle/Preserved.antt =====
-- Every operation of internal/identity keeps the invariant.
use openremotecode_api.Prelude.{ℕ, ◌||◌, not, Option, none, some}
use openremotecode_api.Bytes.{Bytes, text}
use openremotecode_api.Identity.Types.{User, RegisterInput, VerifyEmailInput, Credentials}
use openremotecode_api.Identity.Tokens.{valid_token}
use openremotecode_api.Identity.Validation.{valid_registration_password, valid_verification_code}
use openremotecode_api.Identity.Service.{Service, Call, RevokedSession}
use openremotecode_api.Identity.Materials.{VerificationMaterial}
use openremotecode_api.Identity.Transactions.Verification.{
  ResendOutcome, throttled, refused, reissued,
}
use openremotecode_api.Identity.Transactions.Sessions.{RefreshOutcome, refreshed, invalid, revoking}
use openremotecode_api.Identity.Operations.Register.{
  register, register_checked, registered, decoy_registration, is_disposable,
}
use openremotecode_api.Identity.Operations.Login.{reissue_verification}
use openremotecode_api.Identity.Operations.Verification.{
  verify_email, verify_reply, resend_verification, resend_reply,
}
use openremotecode_api.Identity.Operations.Sessions.{
  refresh, refresh_valid, refresh_reply, logout, logout_reply,
}
use openremotecode_api.Identity.Lifecycle.{Watch}
use openremotecode_api.Identity.Lifecycle.Transactions
use openremotecode_api.Identity.Lifecycle.Transactions.{session_owner}
use openremotecode_api.Identity.Lifecycle.Transactions.Refresh
use openremotecode_api.Identity.Lifecycle.Operations.{
  Safe, Safe-return, Safe-raise, Safe-commits, Safe-if, Safe-unless_conflict, Safe-bind, Safe-given,
  Safe-announce, Safe-deliver_verification_code, Safe-deliver_registration_notice,
}

module _ (w : Watch) (service : Service) (call : Call) where
  open service use {engine, lib}

  Safe-decoy_registration :
      (email normalized : Bytes) (now : ℕ) (random : Bytes)
      → Safe w (decoy_registration service call email normalized now random)
  unfolding decoy_registration
  Safe-decoy_registration email normalized now random = Safe-given w _ _ λ (ticket, rest) _.
      Safe-given w _ _ λ (id, _) _.
        Safe-bind w _ _ (Safe-commits w _ (Transactions.Keeps-decoy_transaction w service now)) λ _.
          Safe-bind w _ _ (Safe-deliver_registration_notice w service call normalized email)
            λ _. Safe-return w _

  Safe-registered :
      (email normalized : Bytes) (now : ℕ) (random id : Bytes) (m : VerificationMaterial)
      (o : Option (Unit {0}))
      → Safe w (registered service call email normalized now random id m o)
  unfolding registered
  Safe-registered email normalized now random id m none =
      Safe-decoy_registration email normalized now random
  Safe-registered email normalized now random id m (some _) =
      Safe-bind w _ _ (Safe-deliver_verification_code w service call _ _ _) λ _. Safe-return w _

  Safe-register_checked :
      (email normalized name password : Bytes)
      → Safe w (register_checked service call email normalized name password)
  unfolding register_checked
  Safe-register_checked email normalized name password = Safe-given w _ _ λ hash _.
      Safe-given w _ _ λ (id, rest) _. Safe-given w _ _ λ (m, rest) _.
        Safe-bind w _ _
          (Safe-unless_conflict w _
            (Safe-commits w _ (Transactions.Keeps-register_transaction w service _ _ _)))
          λ o. Safe-registered email normalized _ rest id m o

  pub Safe-register : (input : RegisterInput) → Safe w (register service call input)
  unfolding register
  Safe-register input = Safe-given w _ _ λ (email, normalized) _.
      Safe-if w (not (valid_registration_password lib input.password)) _ _ (Safe-raise w _) (
        Safe-if w (is_disposable service.disposable_emails email) _ _ (Safe-raise w _)
          (Safe-given w _ _ λ name _. Safe-register_checked email normalized name input.password))

  pub Safe-verify_email : (input : VerifyEmailInput) → Safe w (verify_email service call input)
  unfolding verify_email
  Safe-verify_email input =
      Safe-if w
        (not (valid_token input.ticket (text "vft_")) || not (valid_verification_code input.code)) _
        _ (Safe-raise w _)
        (Safe-bind w _ _
          (Safe-commits w _ (Transactions.Keeps-verify_transaction w service _ _ _ _)) reply)
    where
      reply : (o : Option Credentials) → Safe w (verify_reply o)
      reply none = Safe-raise w _
      reply (some _) = Safe-return w _

  Safe-resend_reply : (o : ResendOutcome) → Safe w (resend_reply service call o)
  unfolding resend_reply
  Safe-resend_reply throttled = Safe-raise w _
  Safe-resend_reply refused = Safe-raise w _
  Safe-resend_reply (reissued m u) =
      Safe-bind w _ _ (Safe-deliver_verification_code w service call _ _ _) λ _. Safe-return w _

  pub Safe-resend_verification : (ticket : Bytes) → Safe w (resend_verification service call ticket)
  unfolding resend_verification
  Safe-resend_verification ticket =
      Safe-if w (not (valid_token ticket (text "vft_"))) _ _ (Safe-raise w _) (
        Safe-bind w _ _ (Safe-commits w _ (Transactions.Keeps-resend_transaction w service _ _ _))
          Safe-resend_reply)

  Safe-refresh_reply : (o : RefreshOutcome) → Safe w (refresh_reply o)
  Safe-refresh_reply (refreshed c) = Safe-return w _
  Safe-refresh_reply invalid = Safe-raise w _
  Safe-refresh_reply (revoking r) = Safe-bind w _ _ (Safe-announce w _) λ _. Safe-raise w _

  pub Safe-refresh : (token : Bytes) → Safe w (refresh service call token)
  unfolding refresh refresh_valid
  Safe-refresh token = Safe-if w (not (valid_token token (text "orr_"))) _ _ (Safe-raise w _) (
      Safe-given w _ _ λ (access, rest) _. Safe-given w _ _ λ (again, _) _.
        Safe-bind w _ _ (Safe-commits w _ (Refresh.Keeps-refresh_transaction w service _ _ _))
          Safe-refresh_reply)

  pub Safe-logout : (token : Bytes) → Safe w (logout service call token)
  unfolding logout
  Safe-logout token =
      Safe-if w (not (valid_token token (text "orr_"))) _ _ (Safe-return w _)
        (Safe-bind w _ _ (Safe-commits w _ (Refresh.Keeps-logout_transaction w service _ _)) reply)
    where
      reply : (o : Option RevokedSession) → Safe w (logout_reply o)
      reply none = Safe-return w _
      reply (some _) = Safe-announce w _

  pub Safe-reissue_verification :
      (u : User) (name : Bytes) (now : ℕ) → Safe w (reissue_verification service call u name now)
  unfolding reissue_verification
  Safe-reissue_verification u name now = Safe-given w _ _ λ (m, _) _.
      Safe-bind w _ _ (Safe-commits w _ (Transactions.Keeps-reissue_transaction w service u _ _))
        λ reused.
          Safe-bind w _ _
            (Safe-if w reused _ _ (Safe-return w _)
              (Safe-deliver_verification_code w service call _ _ _))
            λ _. Safe-return w _
