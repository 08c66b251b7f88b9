-- ===== src/Identity/Types.antt =====
-- internal/identity/types.go. Times and durations are nanoseconds; a pointer is an Option.
use openremotecode_api.Prelude.{ℕ, Bool, true, false, Option, none, some, [], ◌∷◌}
use openremotecode_api.Bytes.{Bytes}

-- The column check `users_status_check` allows these three alone.
pub data AccountStatus : Type 0 where
  pending active disabled : AccountStatus

abbrev pub is_pending : AccountStatus → Bool
is_pending pending = true
is_pending _ = false

abbrev pub is_active : AccountStatus → Bool
is_active active = true
is_active _ = false

pub data EventType : Type 0 where
  registration_succeeded registration_conflict login_succeeded verification_reissued : EventType
  email_verified verification_resent refresh_reuse_detected refresh_succeeded : EventType
  logout_succeeded google_signin_succeeded google_account_created google_link_required : EventType
  google_identity_conflict google_identity_linked : EventType

-- The column check `federated_identities_provider_check` allows this one alone.
pub data Provider : Type 0 where
  google : Provider

abbrev pub same_provider : Provider → Provider → Bool
same_provider google google = true

pub record Account : Type 0 where
  pub id : Bytes
  pub email : Bytes
  pub status : AccountStatus
  pub email_verified_at : Option ℕ
  pub email_bounced_at : Option ℕ
  pub created_at : ℕ

pub record AccessPrincipal : Type 0 where
  pub account : Account
  pub session_id : Bytes
  pub access_token_expires_at : ℕ

-- The account is embedded.
pub record User : Type 0 where
  pub account : Account
  pub open account use {id, email, status, email_verified_at, email_bounced_at, created_at}
  pub normalized_email : Bytes
  pub password_hash : Option Bytes

abbrev not_empty : Option Bytes → Bool
not_empty none = false
not_empty (some []) = false
not_empty (some (_ ∷ _)) = true

-- `HasPassword`
unfoldable pub has_password : User → Bool
has_password user = not_empty user.password_hash

pub record Session : Type 0 where
  pub id : Bytes
  pub user_id : Bytes
  pub access_token_hash : Bytes
  pub access_token_expires_at : ℕ
  pub refresh_expires_at : ℕ
  pub client_name : Bytes
  pub created_at : ℕ
  pub last_refreshed_at : ℕ
  pub revoked_at : Option ℕ

pub record RefreshCredential : Type 0 where
  pub token_hash : Bytes
  pub session_id : Bytes
  pub expires_at : ℕ
  pub created_at : ℕ
  pub used_at : Option ℕ

pub record EmailVerification : Type 0 where
  pub user_id : Bytes
  pub ticket_hash : Bytes
  pub code_hash : Bytes
  pub client_name : Bytes
  pub attempts : ℕ
  pub expires_at : ℕ
  pub created_at : ℕ

pub record VerificationChallenge : Type 0 where
  pub account : Account
  pub ticket : Bytes
  pub ticket_expires_at : ℕ

pub record Credentials : Type 0 where
  pub account : Account
  pub access_token : Bytes
  pub access_token_expires_at : ℕ
  pub refresh_token : Bytes
  pub refresh_token_expires_at : ℕ

-- Exactly one of the two is set.
pub data AuthOutcome : Type 0 where
  with_credentials : Credentials → AuthOutcome
  with_verification : VerificationChallenge → AuthOutcome

pub record VerifyEmailInput : Type 0 where
  pub ticket : Bytes
  pub code : Bytes

pub record FederatedIdentity : Type 0 where
  pub provider : Provider
  pub subject : Bytes
  pub user_id : Bytes
  pub email : Bytes
  pub created_at : ℕ
  pub last_authenticated_at : ℕ

pub record GoogleIdentity : Type 0 where
  pub subject : Bytes
  pub email : Bytes
  pub email_verified : Bool

pub record GoogleAuthInput : Type 0 where
  pub id_token : Bytes
  pub client_name : Bytes

pub record AuditEvent : Type 0 where
  pub user_id : Option Bytes
  pub session_id : Option Bytes
  pub event_type : EventType
  pub occurred_at : ℕ

pub record RegisterInput : Type 0 where
  pub email : Bytes
  pub password : Bytes
  pub client_name : Bytes

pub record LoginInput : Type 0 where
  pub email : Bytes
  pub password : Bytes
  pub client_name : Bytes

-- How a mail went: `ErrMailUndeliverable`, or any other failure.
pub data Delivery : Type 0 where
  delivered undeliverable delivery_failed : Delivery
