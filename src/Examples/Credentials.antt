-- ===== src/Examples/Credentials.antt =====
-- A rotation, its activation, a consumption and two revocations, of the rows of the examples.
use openremotecode_api.Prelude.{
  inl, ◌⊎◌, ◌≡◌, ◌<◌, ◌≤◌, ◌+◌, refl, true, false, ◌&&◌, none, some, [], ◌∷◌, ◌++◌, arith, is_some,
  All,
}
use openremotecode_api.Bytes.{Bytes, IsByte, text, ◌==◌, hmac_equal}
use openremotecode_api.Base64.{encode}
use openremotecode_api.Database.Rows.{Among, any, put, map_where}
use openremotecode_api.Connectors.Errors.{ok}
use openremotecode_api.Connectors.Types.{Device, is_client, is_connector, covers}
use openremotecode_api.Connectors.Tx.{Db, ◌>>=◌, within_transaction}
use openremotecode_api.Connectors.Store
use openremotecode_api.Connectors.Tokens.{hash_secret, issue_token, valid_token}
use openremotecode_api.Connectors.Credential.{RotationResult, lives}
use openremotecode_api.Connectors.Credential.DeviceCredential.{
  rotate_device_transaction, activate_device_transaction, commit_device_rotation,
  record_device_event,
}
use openremotecode_api.Connectors.Credential.Rotation.{
  IsInUse, rotating, settled, device_rotation, device_activation,
}
use openremotecode_api.Connectors.Credential.ConnectorCredential.{record_connector_event}
use openremotecode_api.Connectors.Listing.{trusted_identities, join}
use openremotecode_api.Connectors.Revoke.{
  revoke_account_device, revoke_account_connector, revoke_account_device_transaction,
  revoke_account_connector_transaction, mark_device_revoked, mark_connector_revoked,
  revocation_of_device, revocation_of_connector,
}
use openremotecode_api.Connectors.Revoke.Scope.{
  covers-revoke_account_device, covers-revoke_account_connector,
}
use openremotecode_api.Connectors.Ticket.{
  authorization_lease, consume_transaction, admit, current_identity,
}
use openremotecode_api.Connectors.Ticket.Admitted.{SubjectIn, HasTicket, consumed_admission}
use openremotecode_api.Relay.Hub.{new_secure_peer}
use openremotecode_api.Server.{on_revoked, revoked_device_is_disconnected}
use openremotecode_api.Examples.Relay.{connected_as, hub_of}
use openremotecode_api.Examples.Memory.{first, create}
use openremotecode_api.Examples.Setup.{service, call_at, toy, pad, key}
use openremotecode_api.Examples.Rows.{
  a_device, a_db, an_admission, ticket_secret, some_identity, announced_device, announced_connector,
}

abbrev old : Bytes
old = text "ord_old"

abbrev new : Bytes
new = text "ord_" ++ encode key

abbrev holder : Device
holder = record a_device { credential_hash = some (hash_secret toy old) }

abbrev holder_db : Db
holder_db = record a_db { devices = holder ∷ [] }

abbrev rotated_db : Db
rotated_db =
    (within_transaction
      (rotate_device_transaction service (call_at 10) (text "alice") (text "s") (text "dev_1") old)
      holder_db).1

abbrev rotation : RotationResult
rotation = record { credential = new; activate_by = 10 + service.credential_activation_window }

rotates :
    rotate_device_transaction service
      (call_at 10)
      (text "alice")
      (text "s")
      (text "dev_1")
      old
      holder_db
    ≡ ok (rotation, rotated_db)
unfolding rotate_device_transaction record_device_event ◌>>=◌ ◌==◌ put any map_where first create
    issue_token Store.device_by_credential_for_update hash_secret pad Store.save_device
    Store.append_audit_event
rotates = refl

random-bytes : All IsByte (key ++ key ++ key)
random-bytes = ground arith

device_rotation_example :
    (valid_token new (text "ord_") ≡ true)
    × (any (rotating (text "dev_1") (hash_secret toy old) (hash_secret toy new)) rotated_db.devices
        ≡ true)
device_rotation_example =
    device_rotation service (call_at 10) (text "alice") (text "s") (text "dev_1") old holder_db
      rotated_db rotation random-bytes rotates

abbrev pending_device : Device
pending_device = record holder {
  pending_credential_hash = some (hash_secret toy new);
  pending_credential_expires_at = some 90;
}

abbrev pending_db : Db
pending_db = record a_db { devices = pending_device ∷ [] }

abbrev activated_db : Db
activated_db =
    (within_transaction
      (activate_device_transaction service (call_at 10) (text "alice") (text "s") (text "dev_1")
        new)
      pending_db).1

activates :
    activate_device_transaction service
      (call_at 10)
      (text "alice")
      (text "s")
      (text "dev_1")
      new
      pending_db
    ≡ ok (10 + service.device_credential_lifetime, activated_db)
unfolding activate_device_transaction commit_device_rotation record_device_event ◌>>=◌ ◌==◌ put any
    map_where first create hash_secret pad hmac_equal encode Store.save_device
    Store.device_by_any_credential_for_update Store.append_audit_event
activates = refl

device_activation_example :
    ((call_at 10).authorize_account (text "alice") ≡ none)
    × ((call_at 10).authorize_session (text "alice") (text "s") ≡ none)
    × ((d : Device) × Among d pending_db.devices
        × IsInUse (text "alice") (text "dev_1") d
        × (((hmac_equal (hash_secret toy new) d.credential_hash ≡ true)
              × (d.credential_expires_at ≡ some (10 + service.device_credential_lifetime))
              × (10 < 10 + service.device_credential_lifetime)
              × (pending_db.devices ≡ activated_db.devices))
            ⊎ ((hmac_equal (hash_secret toy new) d.pending_credential_hash ≡ true)
                × (lives d.pending_credential_expires_at 10 ≡ true)
                × (10 + service.device_credential_lifetime
                    ≡ 10 + service.device_credential_lifetime)
                × (any
                      (settled
                        (text "dev_1")
                        (hash_secret toy new)
                        (10 + service.device_credential_lifetime))
                      activated_db.devices
                    ≡ true))))
device_activation_example =
    device_activation service (call_at 10) (text "alice") (text "s") (text "dev_1") new pending_db
      activated_db (10 + service.device_credential_lifetime) activates

abbrev consumed_db : Db
consumed_db = (within_transaction (consume_transaction service (call_at 10) ticket_secret) a_db).1

consumes :
    consume_transaction service (call_at 10) ticket_secret a_db ≡ ok (an_admission, consumed_db)
unfolding consume_transaction admit current_identity trusted_identities hash_secret ◌==◌ ◌>>=◌
    Store.relay_ticket_for_update Store.device_by_id_for_update Store.save_relay_ticket put any
    map_where first pad join
consumes = refl

consumed_admission_example :
    SubjectIn a_db (text "alice") (text "dev_1") some_identity an_admission.role
    × ((call_at 10).authorize_account (text "alice") ≡ none)
    × ((is_client an_admission.role
          && is_some ((call_at 10).authorize_session (text "alice") (text "s")))
        ≡ false)
    × (10 < 500)
    × (500 ≤ 10 + authorization_lease)
    × HasTicket a_db (hash_secret toy ticket_secret) 10 an_admission
consumed_admission_example =
    consumed_admission service (call_at 10) ticket_secret a_db consumed_db an_admission consumes

abbrev revoked_db : Db
revoked_db = (revoke_account_device service (call_at 10) (text "alice") (text "dev_1") a_db).1

revokes_device :
    revoke_account_device service (call_at 10) (text "alice") (text "dev_1") a_db
    ≡ (ok tt, revoked_db, announced_device ∷ [])
unfolding revoke_account_device revoke_account_device_transaction mark_device_revoked
    Store.device_by_id_for_update Store.save_device Store.revoke_device_trust
    Store.append_audit_event ◌>>=◌ ◌==◌ put any map_where first record_device_event create
revokes_device = refl

covers-revoke_account_device_example :
    (announced_device ∷ [] ≡ revocation_of_device (text "alice") (text "dev_1") ∷ [])
    × (covers (revocation_of_device (text "alice") (text "dev_1")) an_admission ≡ (
        (an_admission.user_id == text "alice")
        && (is_client an_admission.role && (an_admission.subject_id == text "dev_1"))))
covers-revoke_account_device_example =
    covers-revoke_account_device service (call_at 10) (text "alice") (text "dev_1") a_db revoked_db
      (announced_device ∷ []) an_admission revokes_device

revoked_device_is_disconnected_example :
    ((on_revoked (announced_device ∷ []) (hub_of an_admission)).links 1).done ≡ true
unfolding new_secure_peer ◌==◌
revoked_device_is_disconnected_example =
    revoked_device_is_disconnected service (call_at 10) (text "alice") (text "dev_1") a_db
      revoked_db (announced_device ∷ []) (hub_of an_admission) (connected_as an_admission)
      revokes_device (inl refl) refl

abbrev disconnected_db : Db
disconnected_db =
    (revoke_account_connector service (call_at 10) (text "alice") (text "con_1") a_db).1

revokes_connector :
    revoke_account_connector service (call_at 10) (text "alice") (text "con_1") a_db
    ≡ (ok tt, disconnected_db, announced_connector ∷ [])
unfolding revoke_account_connector revoke_account_connector_transaction mark_connector_revoked
    Store.connector_by_id_for_update Store.save_connector Store.append_audit_event ◌>>=◌ ◌==◌ put
    any map_where first record_connector_event create
revokes_connector = refl

covers-revoke_account_connector_example :
    (announced_connector ∷ [] ≡ revocation_of_connector (text "alice") (text "con_1") ∷ [])
    × (covers (revocation_of_connector (text "alice") (text "con_1")) an_admission ≡ (
        (an_admission.user_id == text "alice")
        && (is_connector an_admission.role && (an_admission.subject_id == text "con_1"))))
covers-revoke_account_connector_example =
    covers-revoke_account_connector service (call_at 10) (text "alice") (text "con_1") a_db
      disconnected_db (announced_connector ∷ []) an_admission revokes_connector
