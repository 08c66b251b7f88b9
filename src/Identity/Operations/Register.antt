-- ===== src/Identity/Operations/Register.antt =====
-- `Register` and `decoyRegistration` of internal/identity/service.go.
use openremotecode_api.Prelude.{ℕ, ◌+◌, Bool, false, not, Option, some, none, if◌then◌else◌}
use openremotecode_api.Bytes.{Bytes, text}
use openremotecode_api.Identity.Errors.{invalid_input, disposable_email}
use openremotecode_api.Identity.Types.{
  Account, User, pending, RegisterInput, AuthOutcome, with_verification,
}
use openremotecode_api.Identity.Tokens.{issue_identifier, issue_token}
use openremotecode_api.Identity.Validation.{
  normalize_email, normalize_client_name, valid_registration_password,
}
use openremotecode_api.Identity.Service.{Service, Call, verification_code_lifetime}
use openremotecode_api.Identity.Materials.{VerificationMaterial, new_verification_material}
use openremotecode_api.Identity.Transactions.{register_transaction, decoy_transaction}
use openremotecode_api.Identity.Operations.{
  Op, return, raise, require, on_error, ◌>>=◌, ◌>>◌, commits, unless_conflict,
  deliver_verification_code, deliver_registration_notice,
}

-- An account that waits for its address to be proved.
abbrev pub pending_account : Bytes → Bytes → ℕ → Account
pending_account id email now = record {
  id = id;
  email = email;
  status = pending;
  email_verified_at = none;
  email_bounced_at = none;
  created_at = now;
}

unfoldable pub is_disposable : Option (Bytes → Bool) → Bytes → Bool
is_disposable none email = false
is_disposable (some detect) email = detect email

module _ (service : Service) (call : Call) where
  open service use {engine, lib}

  unfoldable pub decoy_registration : Bytes → Bytes → ℕ → Bytes → Op AuthOutcome
  decoy_registration email normalized_email now random = do
    (ticket, random) ← require (issue_token random (text "vft_"))
    (decoy_id, _) ← require (issue_identifier random (text "usr_"))
    commits (decoy_transaction engine now)
    deliver_registration_notice service call normalized_email email
    return (
        with_verification (record {
          account = pending_account decoy_id email now;
          ticket = ticket;
          ticket_expires_at = now + verification_code_lifetime;
        }))

  -- The transaction's verdict: none is a conflict, the address is taken.
  unfoldable pub registered :
      Bytes → Bytes → ℕ → Bytes → Bytes → VerificationMaterial → Option (Unit {0}) → Op AuthOutcome
  registered email normalized_email now random user_id material none =
      decoy_registration email normalized_email now random
  registered email normalized_email now random user_id material (some _) = do
    deliver_verification_code service call user_id email material.code
    return (with_verification material.challenge)

  unfoldable pub register_checked : Bytes → Bytes → Bytes → Bytes → Op AuthOutcome
  register_checked email normalized_email client_name password = do
    password_hash ← require (call.hash_password password)
    let now = call.now 0
    (user_id, random) ← require (issue_identifier (call.random 0) (text "usr_"))
    let user : User = record {
      account = pending_account user_id email now;
      normalized_email = normalized_email;
      password_hash = some password_hash;
    }
    (material, random) ←
        require (new_verification_material service user.account client_name now random)
    verdict ← unless_conflict (commits (register_transaction engine user material.stored now))
    registered email normalized_email now random user_id material verdict

  unfoldable pub register : RegisterInput → Op AuthOutcome
  register input = do
    (email, normalized_email) ← require (on_error (normalize_email lib input.email) invalid_input)
    if not (valid_registration_password lib input.password)
        then raise invalid_input
        else if is_disposable service.disposable_emails email
        then raise disposable_email
        else require (on_error (normalize_client_name lib input.client_name) invalid_input)
          >>= λ client_name. register_checked email normalized_email client_name input.password
