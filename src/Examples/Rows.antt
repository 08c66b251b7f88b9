-- ===== src/Examples/Rows.antt =====
-- A device, a connector, a ticket and an admission for the examples.
use openremotecode_api.Prelude.{none, some, [], ◌∷◌}
use openremotecode_api.Bytes.{Bytes, text}
use openremotecode_api.Connectors.Types.{
  PublicIdentity, Device, Connector, RelayTicket, Admission, client, Revocation, AuditEvent,
  device_revoked, connector_revoked,
}
use openremotecode_api.Connectors.Tx.{Db}
use openremotecode_api.Connectors.Tokens.{hash_secret}
use openremotecode_api.Connectors.Lifecycle.Steps.{empty_db}
use openremotecode_api.Examples.Setup.{toy}

abbrev pub some_identity : PublicIdentity
some_identity = record { version = 1; suite = []; key_id = text "k"; public_key = text "p" }

abbrev pub device_event : AuditEvent
device_event = record {
  user_id = some (text "alice");
  device_id = some (text "dev_1");
  connector_id = none;
  pairing_id = none;
  event_type = device_revoked;
  occurred_at = 10;
}

abbrev pub connector_event : AuditEvent
connector_event = record {
  user_id = some (text "alice");
  device_id = none;
  connector_id = some (text "con_1");
  pairing_id = none;
  event_type = connector_revoked;
  occurred_at = 10;
}

abbrev pub announced_device : Revocation
announced_device = record {
  user_id = text "alice";
  connector_id = [];
  device_id = text "dev_1";
  session_id = [];
}

abbrev pub announced_connector : Revocation
announced_connector = record {
  user_id = text "alice";
  connector_id = text "con_1";
  device_id = [];
  session_id = [];
}

abbrev pub ticket_secret : Bytes
ticket_secret = text "ort_AAAAAAAAAAAAAAAAAAAAAAAAAAAAAAAAAAAAAAAAAAA"

abbrev pub a_device : Device
a_device = record {
  id = text "dev_1";
  user_id = text "alice";
  name = text "phone";
  identity = some_identity;
  credential_hash = none;
  credential_expires_at = some 500;
  pending_credential_hash = none;
  pending_credential_expires_at = none;
  created_at = 1;
  activated_at = some 2;
  revoked_at = none;
}

abbrev pub a_connector : Connector
a_connector = record {
  id = text "con_1";
  user_id = text "alice";
  name = text "laptop";
  identity = some_identity;
  credential_hash = none;
  credential_expires_at = some 500;
  pending_credential_hash = none;
  pending_credential_expires_at = none;
  created_at = 1;
  revoked_at = none;
}

abbrev pub a_ticket : RelayTicket
a_ticket = record {
  token_hash = hash_secret toy ticket_secret;
  user_id = text "alice";
  role = client;
  subject_id = text "dev_1";
  subject_key_id = text "k";
  credential_id = text "s";
  authorization_expires_at = some 500;
  created_at = 1;
  expires_at = 50;
  consumed_at = none;
}

abbrev pub a_db : Db
a_db = record empty_db {
  devices = a_device ∷ [];
  connectors = a_connector ∷ [];
  relay_tickets = a_ticket ∷ [];
}

abbrev pub an_admission : Admission
an_admission = record {
  user_id = text "alice";
  role = client;
  subject_id = text "dev_1";
  session_id = text "s";
  identity = some_identity;
  trusted_identities = [];
  authorization_expires_at = 500;
}
