-- ===== src/Examples/Finality.antt =====
-- The finality of revocations and of tickets, at a device and a ticket in memory.
use openremotecode_api.Prelude.{◌≡◌, refl, false, ◌&&◌, none, some, [], ◌∷◌, ◌++◌, All, map}
use openremotecode_api.Bytes.{Bytes, text, ◌==◌, has_prefix, trim_prefix}
use openremotecode_api.Database.Keys.{Distinct}
use openremotecode_api.Connectors.Errors.{ok}
use openremotecode_api.Connectors.Types.{Device, Connector, for_connector}
use openremotecode_api.Connectors.Tx.{Db, ◌>>=◌}
use openremotecode_api.Connectors.Tokens.{hash_secret, valid_token}
use openremotecode_api.Connectors.Revoke.{
  revoke_account_device, revoke_account_connector, revoke_account_device_transaction,
  mark_device_revoked, revoke_account_connector_transaction, mark_connector_revoked,
}
use openremotecode_api.Connectors.Pairing.Begin.{BeginPairingInput, issue_challenge, begin_pairing}
use openremotecode_api.Connectors.Admissions.{validate_admission}
use openremotecode_api.Connectors.Credential.DeviceCredential.{
  rotate_device_credential, activate_device_credential, record_device_event,
}
use openremotecode_api.Connectors.Credential.ConnectorCredential.{record_connector_event}
use openremotecode_api.Connectors.Lifecycle.Lockout.{is_device, is_the_connector}
use openremotecode_api.Connectors.Ticket.{
  issue_browser_ticket, consume_relay_ticket, consume_transaction, admit, current_identity,
}
use openremotecode_api.Connectors.Listing.{trusted_identities, join}
use openremotecode_api.Connectors.Store.{
  relay_ticket_for_update, device_by_id_for_update, save_relay_ticket, save_device, save_connector,
  connector_by_id_for_update, revoke_device_trust, append_audit_event,
}
use openremotecode_api.Base64.{encode, decode}
use openremotecode_api.Database.Rows.{any, put, map_where}
use openremotecode_api.Examples.Memory.{first, create}
use openremotecode_api.Connectors.Lifecycle.{IsStaged}
use openremotecode_api.Connectors.Lifecycle.Steps.{here, next, issues, begins, empty_db}
use openremotecode_api.Connectors.Lifecycle.Outcomes.{is_ok, passes}
use openremotecode_api.Connectors.Lifecycle.Finality.{
  reachable_pairings, revoked_device_finality, revoked_connector_finality, ticket_used_once,
  WellFormed,
}
use openremotecode_api.Examples.Setup.{service, call_at, pad, key}
use openremotecode_api.Examples.Rows.{
  device_event, connector_event, announced_device, announced_connector, ticket_secret, a_device,
  a_connector, a_ticket, a_db, an_admission,
}

a_db-WellFormed : WellFormed a_db
a_db-WellFormed = record {
  devices = tt;
  connectors = tt;
  tickets = tt;
  pairings = tt;
  device_ids = (tt, tt);
  connector_ids = (tt, tt);
}

abbrev consumed_db : Db
consumed_db = record a_db { relay_tickets = (record a_ticket { consumed_at = some 10 }) ∷ [] }

consumption :
    consume_relay_ticket service (call_at 10) ticket_secret a_db ≡ (ok an_admission, consumed_db)
unfolding consume_relay_ticket consume_transaction admit valid_token decode current_identity
    trusted_identities hash_secret ◌==◌ ◌>>=◌ relay_ticket_for_update device_by_id_for_update
    save_relay_ticket put any map_where first has_prefix trim_prefix pad join
consumption = refl

ticket_used_once_example :
    is_ok (consume_relay_ticket service (call_at 11) ticket_secret consumed_db).0 ≡ false
ticket_used_once_example =
    ticket_used_once service (call_at 10) (call_at 11) ticket_secret an_admission a_db consumed_db
      consumed_db a_db-WellFormed consumption here

abbrev revoked_db : Db
revoked_db = record a_db {
  devices = (record a_device { revoked_at = some 10 }) ∷ [];
  audit_events = device_event ∷ [];
}

device_revocation :
    revoke_account_device service (call_at 10) (text "alice") (text "dev_1") a_db
    ≡ (ok tt, revoked_db, announced_device ∷ [])
unfolding revoke_account_device revoke_account_device_transaction mark_device_revoked
    device_by_id_for_update save_device revoke_device_trust append_audit_event ◌>>=◌ ◌==◌ put any
    map_where first record_device_event create
device_revocation = refl

revoked_device_finality_example :
    (is_ok
        (issue_browser_ticket service
          (call_at 11)
          (text "alice")
          (text "s")
          (text "dev_1")
          ticket_secret
          100
          revoked_db).0
      ≡ false)
    × (is_ok
          (rotate_device_credential service
            (call_at 11)
            (text "alice")
            (text "s")
            (text "dev_1")
            ticket_secret
            revoked_db).0
        ≡ false)
    × (is_ok
          (activate_device_credential service
            (call_at 11)
            (text "alice")
            (text "s")
            (text "dev_1")
            ticket_secret
            revoked_db).0
        ≡ false)
    × (passes
          (is_device (text "dev_1"))
          (consume_relay_ticket service (call_at 11) ticket_secret revoked_db).0
        ≡ false)
    × ((is_device (text "dev_1") an_admission
          && is_ok (validate_admission service (call_at 11) an_admission revoked_db).0)
        ≡ false)
revoked_device_finality_example =
    revoked_device_finality service (call_at 10) (call_at 11) (text "alice") (text "dev_1") a_db
      revoked_db revoked_db (announced_device ∷ []) (text "alice") (text "s") ticket_secret
      ticket_secret 100 an_admission a_db-WellFormed device_revocation here

abbrev disconnected_db : Db
disconnected_db = record a_db {
  connectors = (record a_connector { revoked_at = some 10 }) ∷ [];
  audit_events = connector_event ∷ [];
}

connector_revocation :
    revoke_account_connector service (call_at 10) (text "alice") (text "con_1") a_db
    ≡ (ok tt, disconnected_db, announced_connector ∷ [])
unfolding revoke_account_connector revoke_account_connector_transaction mark_connector_revoked
    connector_by_id_for_update save_connector append_audit_event ◌>>=◌ ◌==◌ put any map_where first
    record_connector_event create
connector_revocation = refl

revoked_connector_finality_example :
    (passes
        (is_the_connector (text "con_1"))
        (consume_relay_ticket service (call_at 11) ticket_secret disconnected_db).0
      ≡ false)
    × ((is_the_connector (text "con_1") an_admission
          && is_ok (validate_admission service (call_at 11) an_admission disconnected_db).0)
        ≡ false)
revoked_connector_finality_example =
    revoked_connector_finality service (call_at 10) (call_at 11) (text "alice") (text "con_1") a_db
      disconnected_db disconnected_db (announced_connector ∷ []) ticket_secret an_admission
      a_db-WellFormed connector_revocation here

abbrev public_key : Bytes
public_key = 4 ∷ (key ++ key)

abbrev challenged_db : Db
challenged_db = (issue_challenge service (call_at 5) for_connector none empty_db).1

-- The challenge that was issued is `encode key`, the first 32 random bytes.
abbrev laptop : BeginPairingInput
laptop = record {
  name = text "laptop";
  identity = record {
    version = 1;
    suite = text "HPKE-Auth-P256-HKDF-SHA256-AES-256-GCM";
    key_id = encode (pad 32 public_key);
    public_key = encode public_key;
  };
  proof = record { challenge = encode key; signature = encode (key ++ key) };
}

-- The connector spends its challenge and begins a pairing.
abbrev pairing_db : Db
pairing_db = (begin_pairing service (call_at 6) laptop challenged_db).1

reachable_pairings_example :
    All IsStaged pairing_db.pairings
    × Distinct (map (λ (d : Device). d.id) pairing_db.devices)
    × Distinct (map (λ (c : Connector). c.id) pairing_db.connectors)
reachable_pairings_example =
    reachable_pairings service pairing_db (
      next (next here (issues (call_at 5) for_connector none refl))
        (begins (call_at 6) laptop refl))
