-- ===== src/Connectors/Lifecycle/Stores.antt =====
-- What the statements of internal/connectors/postgres/store.go keep.
use openremotecode_api.Prelude.{◌≡◌, Bool, true, ◌||◌, List, map, All, subst, sym, All}
use openremotecode_api.Bytes.{Bytes, ◌==◌, holds}
use openremotecode_api.Database.{Answer, rows, Engine}
use openremotecode_api.Database.Rows.{All-Among}
use openremotecode_api.Database.Watch.{Watched, Watched-Among, Watched-put, All-put}
use openremotecode_api.Database.Keys.{Distinct, Distinct-put}
use openremotecode_api.Connectors.Types.{Pairing, Device, Connector, RelayTicket}
use openremotecode_api.Connectors.Tx.{Db}
use openremotecode_api.Connectors.Schemas.{
  pairing_schema, device_schema, connector_schema, relay_ticket_schema,
}
use openremotecode_api.Connectors.Store
use openremotecode_api.Connectors.Store.{read, write}
use openremotecode_api.Connectors.Store.Statements.{read_ok, write_ok}
use openremotecode_api.Connectors.Lifecycle.{
  Watch, Inv, IsStaged, DeviceOk, ConnectorOk, TicketOk, Yields, Anything,
}

module _ {w : Watch} where
  pub Yields-read :
      {A : Type 0} (Q : A → Type 0) (query : Db → Answer A)
      → ((db : Db) (a : A) → Inv w db → query db ≡ rows a → Q a)
      → Yields w Q (read query)
  Yields-read Q query h = record {
    at = λ db a db' i e. let (q, same) = read_ok query db e in (h db a i q, subst (Inv w) same i);
  }

  pub Yields-write :
      {A : Type 0} (query : Db → Answer A) (store : Db → A → Db)
      → ((db : Db) (a : A) → Inv w db → query db ≡ rows a → Inv w (store db a))
      → Yields w Anything (write query store)
  Yields-write query store h = record {
    at = λ db u db' i e.
        let (a, q, same) = write_ok query store db e in (tt, subst (Inv w) same (h db a i q));
  }

  -- A write that also tells something of what it wrote.
  pub Yields-write_with :
      {A : Type 0} (Q : Type 0) (query : Db → Answer A) (store : Db → A → Db)
      → ((db : Db) (a : A) → Inv w db → query db ≡ rows a → Q × Inv w (store db a))
      → Yields w (λ _. Q) (write query store)
  Yields-write_with Q query store h = record {
    at = λ db u db' i e.
        let (a, q, same) = write_ok query store db e in
        let (fact, j) = h db a i q in (fact, subst (Inv w) same j);
  }

module _ (w : Watch) (engine : Engine) where
  first_device :
      (p : Device → Bool) → Yields w (DeviceOk w) (read (λ db. engine.first p db.devices))
  first_device p =
      Yields-read (DeviceOk w) (λ db. engine.first p db.devices)
        λ db d i e.
          Watched-Among (λ d. d.id) (λ d. d.revoked_at) w.device db.devices d i.devices
            (engine.first_rows p db.devices d e).0

  first_connector :
      (p : Connector → Bool) → Yields w (ConnectorOk w) (read (λ db. engine.first p db.connectors))
  first_connector p =
      Yields-read (ConnectorOk w) (λ db. engine.first p db.connectors)
        λ db c i e.
          Watched-Among (λ c. c.id) (λ c. c.revoked_at) w.connector db.connectors c i.connectors
            (engine.first_rows p db.connectors c e).0

  first_pairing : (q : Pairing → Bool) → Yields w IsStaged (read (λ db. engine.first q db.pairings))
  first_pairing q =
      Yields-read IsStaged (λ db. engine.first q db.pairings)
        λ db p i e.
          All-Among IsStaged db.pairings i.pairings (engine.first_rows q db.pairings p e).0

  pub Yields-device_by_key_id_for_update :
      (key : Bytes) → Yields w (DeviceOk w) (Store.device_by_key_id_for_update engine key)
  unfolding Store.device_by_key_id_for_update
  Yields-device_by_key_id_for_update key = first_device (λ d. d.identity.key_id == key)

  pub Yields-device_by_id_for_update :
      (id : Bytes) → Yields w (DeviceOk w) (Store.device_by_id_for_update engine id)
  unfolding Store.device_by_id_for_update
  Yields-device_by_id_for_update id = first_device (λ d. d.id == id)

  pub Yields-device_by_credential_for_update :
      (hash : Bytes) → Yields w (DeviceOk w) (Store.device_by_credential_for_update engine hash)
  unfolding Store.device_by_credential_for_update
  Yields-device_by_credential_for_update hash = first_device (λ d. holds d.credential_hash hash)

  pub Yields-device_by_any_credential_for_update :
      (hash : Bytes) → Yields w (DeviceOk w) (Store.device_by_any_credential_for_update engine hash)
  unfolding Store.device_by_any_credential_for_update
  Yields-device_by_any_credential_for_update hash =
      first_device (λ d. holds d.credential_hash hash || holds d.pending_credential_hash hash)

  pub Yields-connector_by_key_id_for_update :
      (key : Bytes) → Yields w (ConnectorOk w) (Store.connector_by_key_id_for_update engine key)
  unfolding Store.connector_by_key_id_for_update
  Yields-connector_by_key_id_for_update key = first_connector (λ c. c.identity.key_id == key)

  pub Yields-connector_by_id_for_update :
      (id : Bytes) → Yields w (ConnectorOk w) (Store.connector_by_id_for_update engine id)
  unfolding Store.connector_by_id_for_update
  Yields-connector_by_id_for_update id = first_connector (λ c. c.id == id)

  pub Yields-connector_by_credential_for_update :
      (hash : Bytes)
      → Yields w (ConnectorOk w) (Store.connector_by_credential_for_update engine hash)
  unfolding Store.connector_by_credential_for_update
  Yields-connector_by_credential_for_update hash =
      first_connector (λ c. holds c.credential_hash hash)

  pub Yields-connector_by_any_credential_for_update :
      (hash : Bytes)
      → Yields w (ConnectorOk w) (Store.connector_by_any_credential_for_update engine hash)
  unfolding Store.connector_by_any_credential_for_update
  Yields-connector_by_any_credential_for_update hash =
      first_connector (λ c. holds c.credential_hash hash || holds c.pending_credential_hash hash)

  pub Yields-pairing_by_code_for_update :
      (hash : Bytes) → Yields w IsStaged (Store.pairing_by_code_for_update engine hash)
  unfolding Store.pairing_by_code_for_update
  Yields-pairing_by_code_for_update hash = first_pairing (λ p. p.user_code_hash == hash)

  pub Yields-pairing_by_secret_for_update :
      (hash : Bytes) → Yields w IsStaged (Store.pairing_by_secret_for_update engine hash)
  unfolding Store.pairing_by_secret_for_update
  Yields-pairing_by_secret_for_update hash = first_pairing (λ p. p.secret_hash == hash)

  pub Yields-pairing_by_id_for_update :
      (id : Bytes) → Yields w IsStaged (Store.pairing_by_id_for_update engine id)
  unfolding Store.pairing_by_id_for_update
  Yields-pairing_by_id_for_update id = first_pairing (λ p. p.id == id)

  pub Yields-relay_ticket_for_update :
      (hash : Bytes) → Yields w (TicketOk w) (Store.relay_ticket_for_update engine hash)
  unfolding Store.relay_ticket_for_update
  Yields-relay_ticket_for_update hash =
      Yields-read (TicketOk w) (λ db. engine.first (λ t. t.token_hash == hash) db.relay_tickets)
        λ db t i e.
          Watched-Among (λ t. t.token_hash) (λ t. t.consumed_at) w.ticket db.relay_tickets t
            i.tickets (engine.first_rows (λ t. t.token_hash == hash) db.relay_tickets t e).0

  pub Yields-challenge_for_update :
      (hash : Bytes) → Yields w Anything (Store.challenge_for_update engine hash)
  unfolding Store.challenge_for_update
  Yields-challenge_for_update hash =
      Yields-read Anything (λ db. engine.first (λ c. c.hash == hash) db.challenges) (λ _ _ _ _. tt)

  pub Yields-save_device :
      (d : Device) → DeviceOk w d → Yields w Anything (Store.save_device engine d)
  unfolding Store.save_device
  Yields-save_device d h =
      Yields-write (λ db. engine.save device_schema d db.devices)
        (λ db t. record db { devices = t })
        λ db t i e. record {
          devices =
              subst (Watched (λ d. d.id) (λ d. d.revoked_at) w.device)
                (sym (engine.save_rows device_schema d db.devices t e))
                (Watched-put (λ d. d.id) (λ d. d.revoked_at) w.device d db.devices h i.devices);
          connectors = i.connectors;
          tickets = i.tickets;
          pairings = i.pairings;
          device_ids =
              subst (λ (t : List Device). Distinct (map (λ d. d.id) t))
                (sym (engine.save_rows device_schema d db.devices t e))
                (Distinct-put (λ (d : Device). d.id) d db.devices i.device_ids);
          connector_ids = i.connector_ids;
        }

  pub Yields-save_connector :
      (c : Connector) → ConnectorOk w c → Yields w Anything (Store.save_connector engine c)
  unfolding Store.save_connector
  Yields-save_connector c h =
      Yields-write (λ db. engine.save connector_schema c db.connectors)
        (λ db t. record db { connectors = t })
        λ db t i e. record {
          devices = i.devices;
          connectors =
              subst (Watched (λ c. c.id) (λ c. c.revoked_at) w.connector)
                (sym (engine.save_rows connector_schema c db.connectors t e))
                (Watched-put (λ c. c.id) (λ c. c.revoked_at) w.connector c db.connectors h
                  i.connectors);
          tickets = i.tickets;
          pairings = i.pairings;
          device_ids = i.device_ids;
          connector_ids =
              subst (λ (t : List Connector). Distinct (map (λ c. c.id) t))
                (sym (engine.save_rows connector_schema c db.connectors t e))
                (Distinct-put (λ (c : Connector). c.id) c db.connectors i.connector_ids);
        }

  pub Yields-save_relay_ticket :
      (r : RelayTicket) → TicketOk w r → Yields w Anything (Store.save_relay_ticket engine r)
  unfolding Store.save_relay_ticket
  Yields-save_relay_ticket r h =
      Yields-write (λ db. engine.save relay_ticket_schema r db.relay_tickets)
        (λ db t. record db { relay_tickets = t })
        λ db t i e. record {
          devices = i.devices;
          connectors = i.connectors;
          tickets =
              subst (Watched (λ r. r.token_hash) (λ r. r.consumed_at) w.ticket)
                (sym (engine.save_rows relay_ticket_schema r db.relay_tickets t e))
                (Watched-put (λ r. r.token_hash) (λ r. r.consumed_at) w.ticket r db.relay_tickets h
                  i.tickets);
          pairings = i.pairings;
          device_ids = i.device_ids;
          connector_ids = i.connector_ids;
        }

  pub Yields-save_pairing :
      (p : Pairing) → IsStaged p → Yields w Anything (Store.save_pairing engine p)
  unfolding Store.save_pairing
  Yields-save_pairing p h =
      Yields-write (λ db. engine.save pairing_schema p db.pairings)
        (λ db t. record db { pairings = t })
        λ db t i e. record {
          devices = i.devices;
          connectors = i.connectors;
          tickets = i.tickets;
          pairings =
              subst (All IsStaged) (sym (engine.save_rows pairing_schema p db.pairings t e))
                (All-put IsStaged pairing_schema.same_key p db.pairings h i.pairings);
          device_ids = i.device_ids;
          connector_ids = i.connector_ids;
        }

  -- A row that is found by its ID has that ID.
  pub Yields-device_of_id :
      (id : Bytes)
      → Yields w
          (λ d. DeviceOk w d × ((d.id == id) ≡ true))
          (Store.device_by_id_for_update engine id)
  unfolding Store.device_by_id_for_update
  Yields-device_of_id id =
      Yields-read _ (λ db. engine.first (λ d. d.id == id) db.devices)
        λ db d i e.
          let (m, same) = engine.first_rows (λ d. d.id == id) db.devices d e in
          (Watched-Among (λ d. d.id) (λ d. d.revoked_at) w.device db.devices d i.devices m, same)

  pub Yields-connector_of_id :
      (id : Bytes)
      → Yields w
          (λ c. ConnectorOk w c × ((c.id == id) ≡ true))
          (Store.connector_by_id_for_update engine id)
  unfolding Store.connector_by_id_for_update
  Yields-connector_of_id id =
      Yields-read _ (λ db. engine.first (λ c. c.id == id) db.connectors)
        λ db c i e.
          let (m, same) = engine.first_rows (λ c. c.id == id) db.connectors c e in
          (
            Watched-Among (λ c. c.id) (λ c. c.revoked_at) w.connector db.connectors c i.connectors
                m,
            same,
          )

  pub Yields-ticket_of_hash :
      (hash : Bytes)
      → Yields w
          (λ t. TicketOk w t × ((t.token_hash == hash) ≡ true))
          (Store.relay_ticket_for_update engine hash)
  unfolding Store.relay_ticket_for_update
  Yields-ticket_of_hash hash =
      Yields-read _ (λ db. engine.first (λ t. t.token_hash == hash) db.relay_tickets)
        λ db t i e.
          let (m, same) = engine.first_rows (λ t. t.token_hash == hash) db.relay_tickets t e in
          (
            Watched-Among (λ t. t.token_hash) (λ t. t.consumed_at) w.ticket db.relay_tickets t
                i.tickets m,
            same,
          )
