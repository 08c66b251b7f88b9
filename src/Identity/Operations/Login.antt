-- ===== src/Identity/Operations/Login.antt =====
-- `Login` and `reissueVerification` of internal/identity/service.go.
use openremotecode_api.Prelude.{ℕ, not, Option, some, none, if◌then◌else◌}
use openremotecode_api.Bytes.{Bytes}
use openremotecode_api.Database.Transaction.{ok, err}
use openremotecode_api.Identity.Errors.{invalid_input, invalid_credentials, is_not_found}
use openremotecode_api.Identity.Db.{Result}
use openremotecode_api.Identity.Types.{
  User, has_password, AccountStatus, pending, active, disabled, LoginInput, AuthOutcome,
  with_credentials, with_verification,
}
use openremotecode_api.Identity.Store.{user_by_normalized_email}
use openremotecode_api.Identity.Validation.{
  normalize_email, normalize_client_name, valid_login_password,
}
use openremotecode_api.Identity.Service.{Service, Call}
use openremotecode_api.Identity.Materials.{new_session_material, new_verification_material}
use openremotecode_api.Identity.Transactions.Sessions.{login_transaction}
use openremotecode_api.Identity.Transactions.Verification.{reissue_transaction}
use openremotecode_api.Identity.Operations.{
  Op, return, raise, require, on_error, ◌>>=◌, ◌>>◌, commits, deliver_verification_code,
}

module _ (service : Service) (call : Call) where
  open service use {engine, lib}

  unfoldable pub reissue_verification : User → Bytes → ℕ → Op AuthOutcome
  reissue_verification user client_name now = do
    (material, _) ←
        require (new_verification_material service user.account client_name now (call.random 0))
    reused_code ← commits (reissue_transaction service user material.stored now)
    if reused_code
        then return tt
        else deliver_verification_code service call user.id user.email material.code
    return (with_verification material.challenge)

  unfoldable pub start_session : User → Bytes → ℕ → Op AuthOutcome
  start_session user client_name now = do
    material ← require (new_session_material service user.account client_name now (call.random 0))
    commits (login_transaction service user material now)
    return (with_credentials material.credentials)

  -- The password is right: the account's status decides.
  abbrev pub login_status : User → Bytes → AccountStatus → Op AuthOutcome
  login_status user client_name active = start_session user client_name (call.now 0)
  login_status user client_name pending = reissue_verification user client_name (call.now 0)
  login_status user client_name disabled = raise invalid_credentials

  -- The hash of an account that has one; the dummy's verification changes nothing but the time.
  unfoldable pub login_user : Bytes → Bytes → User → Option Bytes → Op AuthOutcome
  login_user password client_name user none = raise invalid_credentials
  login_user password client_name user (some password_hash) = do
    verified ← require (call.verify_password password password_hash)
    if not verified then raise invalid_credentials else login_status user client_name user.status

  unfoldable pub login_found : Bytes → Bytes → Result User → Op AuthOutcome
  login_found password client_name (err e) =
      if is_not_found e then raise invalid_credentials else raise e
  login_found password client_name (ok user) =
      if not (has_password user)
      then raise invalid_credentials
      else login_user password client_name user user.password_hash

  unfoldable pub login : LoginInput → Op AuthOutcome
  login input = do
    (_, normalized_email) ← require (on_error (normalize_email lib input.email) invalid_credentials)
    if not (valid_login_password lib input.password)
        then raise invalid_credentials
        else require (on_error (normalize_client_name lib input.client_name) invalid_input)
          >>= λ client_name. λ w.
            login_found input.password client_name
              (user_by_normalized_email engine normalized_email w.db) w
