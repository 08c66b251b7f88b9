-- ===== src/Identity/Operations/Sessions.antt =====
-- `Refresh` and `Logout` of internal/identity/service.go.
use openremotecode_api.Prelude.{not, Option, some, none, if◌then◌else◌}
use openremotecode_api.Bytes.{Bytes, text}
use openremotecode_api.Identity.Errors.{invalid_refresh}
use openremotecode_api.Identity.Types.{Credentials}
use openremotecode_api.Identity.Tokens.{issue_token, valid_token}
use openremotecode_api.Identity.Validation.{hash_token}
use openremotecode_api.Identity.Service.{Service, Call, RevokedSession}
use openremotecode_api.Identity.Transactions.Sessions.{
  RefreshOutcome, refreshed, invalid, revoking, refresh_transaction, logout_transaction,
}
use openremotecode_api.Identity.Operations.{
  Op, return, raise, require, ◌>>=◌, ◌>>◌, commits, announce,
}

-- A revocation is announced once it has committed.
abbrev pub refresh_reply : RefreshOutcome → Op Credentials
refresh_reply (refreshed credentials) = return credentials
refresh_reply invalid = raise invalid_refresh
refresh_reply (revoking revoked) = announce revoked >> raise invalid_refresh

abbrev pub logout_reply : Option RevokedSession → Op (Unit {0})
logout_reply none = return tt
logout_reply (some revoked) = announce revoked

module _ (service : Service) (call : Call) where
  open service use {lib}

  unfoldable pub refresh_valid : Bytes → Op Credentials
  refresh_valid refresh_token = do
    (new_access, random) ← require (issue_token (call.random 0) (text "ora_"))
    (new_refresh, _) ← require (issue_token random (text "orr_"))
    outcome ← commits (
        refresh_transaction service (hash_token lib refresh_token) (call.now 0)
          (record { access_token = new_access; refresh_token = new_refresh }))
    refresh_reply outcome

  unfoldable pub refresh : Bytes → Op Credentials
  refresh refresh_token =
      if not (valid_token refresh_token (text "orr_"))
      then raise invalid_refresh
      else refresh_valid refresh_token

  unfoldable pub logout : Bytes → Op (Unit {0})
  logout refresh_token =
      if not (valid_token refresh_token (text "orr_"))
      then return tt
      else commits (logout_transaction service (hash_token lib refresh_token) (call.now 0))
        >>= logout_reply
