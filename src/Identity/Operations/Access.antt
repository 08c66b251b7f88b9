-- ===== src/Identity/Operations/Access.antt =====
-- `AuthenticateAccess`, `AuthorizeAccount` and `AuthorizeSession` of internal/identity/service.go,
-- which read the tables and change nothing.
use openremotecode_api.Prelude.{ℕ, ◌||◌, not, if◌then◌else◌}
use openremotecode_api.Bytes.{Bytes, text}
use openremotecode_api.Database.Transaction.{ok, err}
use openremotecode_api.Identity.Errors.{unauthorized, is_not_found}
use openremotecode_api.Identity.Db.{Db, Result}
use openremotecode_api.Identity.Types.{Account, AccessPrincipal}
use openremotecode_api.Identity.Tokens.{valid_token}
use openremotecode_api.Identity.Store.{
  access_principal_by_access_token_hash, active_account_by_id, active_session_by_id,
}
use openremotecode_api.Identity.Validation.{hash_token, is_empty}
use openremotecode_api.Identity.Service.{Service}

-- `if errors.Is(err, ErrNotFound) { return ErrUnauthorized }`
abbrev pub or_unauthorized : {A : Type 0} → Result A → Result A
or_unauthorized (ok a) = ok a
or_unauthorized (err e) = if is_not_found e then err unauthorized else err e

abbrev account_of_principal : Result AccessPrincipal → Result Account
account_of_principal (ok p) = ok p.account
account_of_principal (err e) = err e

abbrev no_account : Result Account → Result (Unit {0})
no_account (ok _) = ok tt
no_account (err e) = err e

module _ (service : Service) where
  open service use {engine, lib}

  unfoldable pub authenticate_access : Bytes → ℕ → Db → Result AccessPrincipal
  authenticate_access access_token now db =
      if not (valid_token access_token (text "ora_"))
      then err unauthorized
      else or_unauthorized
          (access_principal_by_access_token_hash engine (hash_token lib access_token) now db)

  unfoldable pub current_account : Bytes → ℕ → Db → Result Account
  current_account access_token now db =
      account_of_principal (authenticate_access access_token now db)

  unfoldable pub authorize_account : Bytes → Db → Result (Unit {0})
  authorize_account user_id db =
      if is_empty user_id
      then err unauthorized
      else or_unauthorized (no_account (active_account_by_id engine user_id db))

  unfoldable pub authorize_session : Bytes → Bytes → ℕ → Db → Result (Unit {0})
  authorize_session user_id session_id now db =
      if is_empty user_id || is_empty session_id
      then err unauthorized
      else or_unauthorized (active_session_by_id engine user_id session_id now db)
