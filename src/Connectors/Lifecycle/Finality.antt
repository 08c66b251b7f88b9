-- ===== src/Connectors/Lifecycle/Finality.antt =====
-- What stays true after a revocation, or after the use of a ticket, of
-- internal/connectors/service.go, whatever calls follow.
use openremotecode_api.Prelude.{ℕ, ◌≡◌, false, ◌&&◌, List, All, map}
use openremotecode_api.Bytes.{Bytes}
use openremotecode_api.Database.Keys.{Distinct}
use openremotecode_api.Connectors.Errors.{ok}
use openremotecode_api.Connectors.Types.{Admission, Connector, Device, Revocation}
use openremotecode_api.Connectors.Tx.{Db}
use openremotecode_api.Connectors.Service.{Service, Call}
use openremotecode_api.Connectors.Tokens.{hash_secret}
use openremotecode_api.Connectors.Credential.DeviceCredential.{
  rotate_device_credential, activate_device_credential,
}
use openremotecode_api.Connectors.Revoke.{revoke_account_device, revoke_account_connector}
use openremotecode_api.Connectors.Ticket.{issue_browser_ticket, consume_relay_ticket}
use openremotecode_api.Connectors.Admissions.{validate_admission}
use openremotecode_api.Connectors.Lifecycle.{Inv, IsStaged}
use openremotecode_api.Connectors.Lifecycle.Steps.{Reach, empty_db}
use openremotecode_api.Connectors.Lifecycle.Reachable.{Reach-Inv}
use openremotecode_api.Connectors.Lifecycle.Retire.{
  watch_nothing, watch_device, watch_connector, watch_ticket,
}
use openremotecode_api.Connectors.Lifecycle.Lockout.{Never, is_device, is_the_connector}
use openremotecode_api.Connectors.Lifecycle.Lockout
use openremotecode_api.Connectors.Lifecycle.Outcomes.{
  is_ok, passes, Inv-revoked_device, Inv-revoked_connector, is_ok-issue_ticket, is_ok-rotate_device,
  is_ok-activate_device, passes-consume_device, is_ok-validate_device, passes-consume_connector,
  is_ok-validate_connector, is_ok-consume_used, Inv-consumed,
}

-- A database that is well formed: every pairing has the fields of its stage, and the IDs of the
-- devices and of the connectors are distinct.
abbrev pub WellFormed : Db → Type 0
WellFormed = Inv watch_nothing

Reach-WellFormed : (service : Service) (db : Db) → Reach service empty_db db → WellFormed db
Reach-WellFormed service db r =
    Reach-Inv watch_nothing service
      (record {
        devices = tt;
        connectors = tt;
        tickets = tt;
        pairings = tt;
        device_ids = tt;
        connector_ids = tt;
      })
      r

-- In a database that the operations built from the empty one, whatever the order of the calls and
-- their outcomes: a pending pairing has no time of a review; one under verification has an account and a
-- device; a completed one has a time of a review, an account, a device and a connector; none is in the
-- state `confirmed`; and no two devices, and no two connectors, have the same ID.
pub reachable_pairings :
    (service : Service) (db : Db)
    → Reach service empty_db db
    → All IsStaged db.pairings
      × Distinct (map (λ (d : Device). d.id) db.devices)
      × Distinct (map (λ (c : Connector). c.id) db.connectors)
reachable_pairings service db r =
    let i = Reach-WellFormed service db r in (i.pairings, i.device_ids, i.connector_ids)

-- Once `RevokeAccountDevice` has revoked a device in a well-formed database, then after any further
-- calls of the operations, with any arguments: the device gets no browser ticket, its credential is
-- neither rotated nor activated, no ticket is consumed for it, and no admission of it is valid.
pub revoked_device_finality :
    (service : Service) (first later : Call) (user device : Bytes) (db db' db'' : Db)
    (said : List Revocation) (other session credential ticket : Bytes) (authorized : ℕ)
    (admission : Admission)
    → WellFormed db
    → revoke_account_device service first user device db ≡ (ok tt, db', said)
    → Reach service db' db''
    → (is_ok (issue_browser_ticket service later other session device credential authorized db'').0
        ≡ false)
      × (is_ok (rotate_device_credential service later other session device credential db'').0
          ≡ false)
      × (is_ok (activate_device_credential service later other session device credential db'').0
          ≡ false)
      × (passes (is_device device) (consume_relay_ticket service later ticket db'').0 ≡ false)
      × ((is_device device admission && is_ok (validate_admission service later admission db'').0)
          ≡ false)
revoked_device_finality service first later u d db db' db'' said o s k t n a i e r =
    let j =
      Reach-Inv (watch_device d) service (Inv-revoked_device service first u d db db' said i e) r in
    (
      is_ok-issue_ticket (watch_device d) service later db'' j d o s k n
          (Lockout.Never-device_holder service later d o s _ n),
      is_ok-rotate_device service later d db'' j o s k,
      is_ok-activate_device service later d db'' j o s k,
      passes-consume_device service later d db'' j t,
      is_ok-validate_device service later d db'' j a,
    )

-- Once `RevokeAccountConnector` has revoked a connector in a well-formed database, then after any
-- further calls of the operations no ticket is consumed for the connector and no admission of it is
-- valid.
pub revoked_connector_finality :
    (service : Service) (first later : Call) (user x : Bytes) (db db' db'' : Db)
    (said : List Revocation) (ticket : Bytes) (admission : Admission)
    → WellFormed db
    → revoke_account_connector service first user x db ≡ (ok tt, db', said)
    → Reach service db' db''
    → (passes (is_the_connector x) (consume_relay_ticket service later ticket db'').0 ≡ false)
      × ((is_the_connector x admission && is_ok (validate_admission service later admission db'').0)
          ≡ false)
revoked_connector_finality service first later u x db db' db'' said t a i e r =
    let j =
      Reach-Inv (watch_connector x) service
        (Inv-revoked_connector service first u x db db' said i e) r in
    (
      passes-consume_connector service later x db'' j t,
      is_ok-validate_connector service later x db'' j a,
    )

-- A relay ticket is used at most once: when `ConsumeRelayTicket` has admitted its holder, then after
-- any further calls of the operations it is refused.
pub ticket_used_once :
    (service : Service) (first later : Call) (ticket : Bytes) (admission : Admission)
    (db db' db'' : Db)
    → WellFormed db
    → consume_relay_ticket service first ticket db ≡ (ok admission, db')
    → Reach service db' db''
    → is_ok (consume_relay_ticket service later ticket db'').0 ≡ false
ticket_used_once service first later t a db db' db'' i e r =
    is_ok-consume_used service later t db'' (
      Reach-Inv (watch_ticket (hash_secret service.lib t)) service
        (Inv-consumed service first t a db db' i e) r)
