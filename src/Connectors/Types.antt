-- ===== src/Connectors/Types.antt =====
-- internal/connectors/types.go. Times are nanoseconds since Go's zero time, whose value is 0, and
-- durations are nanoseconds; a pointer or a nullable slice is an Option.
use openremotecode_api.Prelude.{
  ℕ, Bool, true, false, ◌&&◌, ◌||◌, Option, List, [], nat_eq, if◌then◌else◌, not,
}
use openremotecode_api.Bytes.{Bytes, ◌==◌}

-- A string outside the two constants is `other_purpose`.
pub data Purpose : Type 0 where
  for_connector for_device other_purpose : Purpose

pub data PairingState : Type 0 where
  pending verification confirmed completed expired : PairingState

-- A string outside the two constants is `other_role`.
pub data Role : Type 0 where
  client connector other_role : Role

pub data EventType : Type 0 where
  pairing_reviewed pairing_completed pairing_connector_approved pairing_cancelled : EventType
  device_credential_rotated device_credential_activated : EventType
  device_credential_rotation_cancelled device_revoked : EventType
  connector_credential_rotated connector_credential_activated : EventType
  connector_credential_rotation_cancelled connector_revoked connector_renamed : EventType

abbrev pub is_for_connector : Purpose → Bool
is_for_connector for_connector = true
is_for_connector _ = false

abbrev pub is_for_device : Purpose → Bool
is_for_device for_device = true
is_for_device _ = false

abbrev pub is_pending : PairingState → Bool
is_pending pending = true
is_pending _ = false

abbrev pub is_verification : PairingState → Bool
is_verification verification = true
is_verification _ = false

abbrev pub is_confirmed : PairingState → Bool
is_confirmed confirmed = true
is_confirmed _ = false

abbrev pub is_completed : PairingState → Bool
is_completed completed = true
is_completed _ = false

abbrev pub is_expired : PairingState → Bool
is_expired expired = true
is_expired _ = false

abbrev pub is_client : Role → Bool
is_client client = true
is_client _ = false

abbrev pub is_connector : Role → Bool
is_connector connector = true
is_connector _ = false

-- The code tests the version against 1 and for equality only.
pub record PublicIdentity : Type 0 where
  pub version : ℕ
  pub suite : Bytes
  pub key_id : Bytes
  pub public_key : Bytes

-- Go's `==` on the struct.
unfoldable pub same_identity : PublicIdentity → PublicIdentity → Bool
same_identity a b =
    nat_eq a.version b.version
    && (a.suite == b.suite)
    && (a.key_id == b.key_id)
    && (a.public_key == b.public_key)

pub record IdentityProof : Type 0 where
  pub challenge : Bytes
  pub signature : Bytes

pub record Challenge : Type 0 where
  pub hash : Bytes
  pub purpose : Purpose
  pub user_id : Option Bytes
  pub created_at : ℕ
  pub expires_at : ℕ
  pub used_at : Option ℕ

pub record Pairing : Type 0 where
  pub id : Bytes
  pub secret_hash : Bytes
  pub user_code_hash : Bytes
  pub connector_name : Bytes
  pub connector_identity : PublicIdentity
  pub connector_credential_hash : Option Bytes
  pub device_credential_seed : Option Bytes
  pub state : PairingState
  pub user_id : Option Bytes
  pub device_id : Option Bytes
  pub connector_id : Option Bytes
  pub created_at : ℕ
  pub expires_at : ℕ
  pub connector_reviewed_at : Option ℕ
  pub confirmed_at : Option ℕ
  pub completed_at : Option ℕ

pub record Device : Type 0 where
  pub id : Bytes
  pub user_id : Bytes
  pub name : Bytes
  pub identity : PublicIdentity
  pub credential_hash : Option Bytes
  pub credential_expires_at : Option ℕ
  pub pending_credential_hash : Option Bytes
  pub pending_credential_expires_at : Option ℕ
  pub created_at : ℕ
  pub activated_at : Option ℕ
  pub revoked_at : Option ℕ

pub record Connector : Type 0 where
  pub id : Bytes
  pub user_id : Bytes
  pub name : Bytes
  pub identity : PublicIdentity
  pub credential_hash : Option Bytes
  pub credential_expires_at : Option ℕ
  pub pending_credential_hash : Option Bytes
  pub pending_credential_expires_at : Option ℕ
  pub created_at : ℕ
  pub revoked_at : Option ℕ

pub record Trust : Type 0 where
  pub user_id : Bytes
  pub device_id : Bytes
  pub connector_id : Bytes
  pub created_at : ℕ
  pub revoked_at : Option ℕ

pub record RelayTicket : Type 0 where
  pub token_hash : Bytes
  pub user_id : Bytes
  pub role : Role
  pub subject_id : Bytes
  pub subject_key_id : Bytes
  pub credential_id : Bytes
  pub authorization_expires_at : Option ℕ
  pub created_at : ℕ
  pub expires_at : ℕ
  pub consumed_at : Option ℕ

pub record AuditEvent : Type 0 where
  pub user_id : Option Bytes
  pub device_id : Option Bytes
  pub connector_id : Option Bytes
  pub pairing_id : Option Bytes
  pub event_type : EventType
  pub occurred_at : ℕ

-- One row of `pairing_claim_failures`.
pub record ClaimFailure : Type 0 where
  pub user_id : Bytes
  pub occurred_at : ℕ

-- `account_oldest` is 0, the zero time, where `account` is 0.
pub record ClaimFailureCounts : Type 0 where
  pub account : ℕ
  pub account_oldest : ℕ
  pub global : ℕ

pub record PairingTranscript : Type 0 where
  pub version : ℕ
  pub service_id : Bytes
  pub pairing_id : Bytes
  pub connector_identity : PublicIdentity
  pub device_identity : PublicIdentity

-- A session is empty for connectors.
pub record Admission : Type 0 where
  pub user_id : Bytes
  pub role : Role
  pub subject_id : Bytes
  pub session_id : Bytes
  pub identity : PublicIdentity
  pub trusted_identities : List PublicIdentity
  pub authorization_expires_at : ℕ

pub record Revocation : Type 0 where
  pub user_id : Bytes
  pub connector_id : Bytes
  pub device_id : Bytes
  pub session_id : Bytes

abbrev pub is_empty : Bytes → Bool
is_empty s = elim s [ [] ↦ true | _ ↦ false ]

-- Whether a live admission falls under the revocation.
unfoldable pub covers : Revocation → Admission → Bool
covers r a =
    if is_empty r.user_id || not (a.user_id == r.user_id)
    then false
    else if not (is_empty r.connector_id)
    then is_connector a.role && (a.subject_id == r.connector_id)
    else if not (is_empty r.device_id)
    then is_client a.role && (a.subject_id == r.device_id)
    else if not (is_empty r.session_id)
    then is_client a.role && (a.session_id == r.session_id)
    else true
