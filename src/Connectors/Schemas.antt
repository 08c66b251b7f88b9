-- ===== src/Connectors/Schemas.antt =====
-- The primary keys and unique indexes of internal/connectors/postgres/models.go. A NULL never
-- clashes. Foreign keys and column checks are left to the engine, which may refuse a row for them.
use openremotecode_api.Prelude.{Bool, false, ◌&&◌, ◌||◌, not, Option, some}
use openremotecode_api.Bytes.{Bytes, ◌==◌}
use openremotecode_api.Database.{Schema}
use openremotecode_api.Connectors.Types.{
  Challenge, Pairing, PairingState, Device, Connector, Trust, ClaimFailure, RelayTicket, AuditEvent,
  is_completed, is_expired,
}

-- A unique index on a nullable column.
abbrev equal_columns : Option Bytes → Option Bytes → Bool
equal_columns (some a) (some b) = a == b
equal_columns _ _ = false

-- The partial index `connector_pairings_active_key_id_key`.
abbrev pub is_active : PairingState → Bool
is_active s = not (is_completed s) && not (is_expired s)

abbrev pub challenge_schema : Schema Challenge
challenge_schema = record { same_key = λ a b. a.hash == b.hash; clash = λ a b. a.hash == b.hash }

abbrev pub pairing_schema : Schema Pairing
pairing_schema = record {
  same_key = λ a b. a.id == b.id;
  clash = λ a b.
      (a.id == b.id)
      || (a.secret_hash == b.secret_hash)
      || (a.user_code_hash == b.user_code_hash)
      || (is_active a.state
          && is_active b.state
          && (a.connector_identity.key_id == b.connector_identity.key_id));
}

abbrev pub device_schema : Schema Device
device_schema = record {
  same_key = λ a b. a.id == b.id;
  clash = λ a b.
      (a.id == b.id)
      || (a.identity.key_id == b.identity.key_id)
      || equal_columns a.credential_hash b.credential_hash
      || equal_columns a.pending_credential_hash b.pending_credential_hash;
}

abbrev pub connector_schema : Schema Connector
connector_schema = record {
  same_key = λ a b. a.id == b.id;
  clash = λ a b.
      (a.id == b.id)
      || (a.identity.key_id == b.identity.key_id)
      || equal_columns a.credential_hash b.credential_hash
      || equal_columns a.pending_credential_hash b.pending_credential_hash;
}

abbrev pub trust_schema : Schema Trust
trust_schema = record {
  same_key = λ a b.
      (a.user_id == b.user_id)
      && (a.device_id == b.device_id)
      && (a.connector_id == b.connector_id);
  clash = λ a b.
      (a.user_id == b.user_id)
      && (a.device_id == b.device_id)
      && (a.connector_id == b.connector_id);
}

abbrev pub relay_ticket_schema : Schema RelayTicket
relay_ticket_schema = record {
  same_key = λ a b. a.token_hash == b.token_hash;
  clash = λ a b. a.token_hash == b.token_hash;
}

-- The primary key is generated, so no two rows meet on it.
abbrev pub audit_event_schema : Schema AuditEvent
audit_event_schema = record { same_key = λ a b. false; clash = λ a b. false }

abbrev pub claim_failure_schema : Schema ClaimFailure
claim_failure_schema = record { same_key = λ a b. false; clash = λ a b. false }
