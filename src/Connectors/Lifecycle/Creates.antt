-- ===== src/Connectors/Lifecycle/Creates.antt =====
-- What the statements of internal/connectors/postgres/store.go keep that create rows, change several
-- or delete some.
use openremotecode_api.Prelude.{
  ℕ, ◌≡◌, true, false, ◌&&◌, List, [], ◌∷◌, ◌++◌, arith, map, All, All-append, leb, subst, sym,
}
use openremotecode_api.Bytes.{Bytes, ◌==◌, eq_refl}
use openremotecode_api.Database.{Engine}
use openremotecode_api.Database.Rows.{Among, All-Among, Among-last}
use openremotecode_api.Database.Watch.{Watched, Watched-Among, Watched-create, All-map_where}
use openremotecode_api.Database.Keys.{Distinct, Distinct-append}
use openremotecode_api.Connectors.Types.{
  Challenge, Pairing, PairingState, Device, Connector, Trust, RelayTicket, AuditEvent,
}
use openremotecode_api.Connectors.Schemas.{
  challenge_schema, pairing_schema, is_active, device_schema, connector_schema, relay_ticket_schema,
  audit_event_schema,
}
use openremotecode_api.Connectors.Store
use openremotecode_api.Connectors.Store.{read, write}
use openremotecode_api.Connectors.Lifecycle.{
  Watch, IsStaged, ConnectorOk, Yields, Anything, Yields-bind, Yields-pure,
}
use openremotecode_api.Connectors.Lifecycle.Stores.{Yields-read, Yields-write, Yields-write_with}

-- A new row with an old key clashes, by the schemas.
same_device : (a b : Device) → a.id ≡ b.id → device_schema.clash a b ≡ true
same_device a b e = rw e (rw (eq_refl b.id))

same_connector : (a b : Connector) → a.id ≡ b.id → connector_schema.clash a b ≡ true
same_connector a b e = rw e (rw (eq_refl b.id))

same_ticket :
    (a b : RelayTicket) → a.token_hash ≡ b.token_hash → relay_ticket_schema.clash a b ≡ true
same_ticket a b e = rw e (eq_refl b.token_hash)

new_device :
    (v : Device) (t : List Device)
    → All (λ old. device_schema.clash v old ≡ false) t
    → Distinct (map (λ (d : Device). d.id) t)
    → Distinct (map (λ (d : Device). d.id) (t ++ (v ∷ [])))
new_device v t fresh d = Distinct-append (λ (d : Device). d.id) v t other d
  where
    other : (x : Device) → Among x t → (v.id == x.id) ≡ false
    other x m = ground (arith, All-Among (λ old. device_schema.clash v old ≡ false) t fresh m)

new_connector :
    (v : Connector) (t : List Connector)
    → All (λ old. connector_schema.clash v old ≡ false) t
    → Distinct (map (λ (c : Connector). c.id) t)
    → Distinct (map (λ (c : Connector). c.id) (t ++ (v ∷ [])))
new_connector v t fresh d = Distinct-append (λ (c : Connector). c.id) v t other d
  where
    other : (x : Connector) → Among x t → (v.id == x.id) ≡ false
    other x m = ground (arith, All-Among (λ old. connector_schema.clash v old ≡ false) t fresh m)

module _ (w : Watch) (engine : Engine) where
  pub Yields-create_challenge :
      (v : Challenge) → Yields w Anything (Store.create_challenge engine v)
  unfolding Store.create_challenge
  Yields-create_challenge v =
      Yields-write (λ db. engine.create challenge_schema v db.challenges)
        (λ db t. record db { challenges = t })
        λ db t i e. record {
          devices = i.devices;
          connectors = i.connectors;
          tickets = i.tickets;
          pairings = i.pairings;
          device_ids = i.device_ids;
          connector_ids = i.connector_ids;
        }

  pub Yields-save_challenge : (v : Challenge) → Yields w Anything (Store.save_challenge engine v)
  unfolding Store.save_challenge
  Yields-save_challenge v =
      Yields-write (λ db. engine.save challenge_schema v db.challenges)
        (λ db t. record db { challenges = t })
        λ db t i e. record {
          devices = i.devices;
          connectors = i.connectors;
          tickets = i.tickets;
          pairings = i.pairings;
          device_ids = i.device_ids;
          connector_ids = i.connector_ids;
        }

  pub Yields-append_audit_event :
      (v : AuditEvent) → Yields w Anything (Store.append_audit_event engine v)
  unfolding Store.append_audit_event
  Yields-append_audit_event v =
      Yields-write (λ db. engine.create audit_event_schema v db.audit_events)
        (λ db t. record db { audit_events = t })
        λ db t i e. record {
          devices = i.devices;
          connectors = i.connectors;
          tickets = i.tickets;
          pairings = i.pairings;
          device_ids = i.device_ids;
          connector_ids = i.connector_ids;
        }

  pub Yields-upsert_trust : (v : Trust) → Yields w Anything (Store.upsert_trust engine v)
  unfolding Store.upsert_trust
  Yields-upsert_trust v = Yields-write _ _ λ db t i e. record {
    devices = i.devices;
    connectors = i.connectors;
    tickets = i.tickets;
    pairings = i.pairings;
    device_ids = i.device_ids;
    connector_ids = i.connector_ids;
  }

  pub Yields-revoke_device_trust :
      (u d : Bytes) (at : ℕ) → Yields w Anything (Store.revoke_device_trust engine u d at)
  unfolding Store.revoke_device_trust
  Yields-revoke_device_trust u d at = Yields-write _ _ λ db t i e. record {
    devices = i.devices;
    connectors = i.connectors;
    tickets = i.tickets;
    pairings = i.pairings;
    device_ids = i.device_ids;
    connector_ids = i.connector_ids;
  }

  pub Yields-record_claim_failure :
      (u : Bytes) (at before : ℕ)
      → Yields w Anything (Store.record_claim_failure engine u at before)
  unfolding Store.record_claim_failure
  Yields-record_claim_failure u at before =
      Yields-bind Anything Anything _ _
        (Yields-write _ _ λ db t i e. record {
          devices = i.devices;
          connectors = i.connectors;
          tickets = i.tickets;
          pairings = i.pairings;
          device_ids = i.device_ids;
          connector_ids = i.connector_ids;
        })
        λ _ _. Yields-write _ _ λ db t i e. record {
          devices = i.devices;
          connectors = i.connectors;
          tickets = i.tickets;
          pairings = i.pairings;
          device_ids = i.device_ids;
          connector_ids = i.connector_ids;
        }

  pub Yields-claim_failures_for_update :
      (u : Bytes) (a g : ℕ) → Yields w Anything (Store.claim_failures_for_update engine u a g)
  unfolding Store.claim_failures_for_update
  Yields-claim_failures_for_update u a g =
      Yields-bind Anything Anything _ _ (Yields-read Anything _ (λ _ _ _ _. tt)) λ mine _.
        Yields-bind Anything Anything _ _ (Yields-read Anything _ (λ _ _ _ _. tt))
          λ all _. Yields-pure Anything _ tt

  pub Yields-create_pairing :
      (p : Pairing) → IsStaged p → Yields w Anything (Store.create_pairing engine p)
  unfolding Store.create_pairing
  Yields-create_pairing p h =
      Yields-write (λ db. engine.create pairing_schema p db.pairings)
        (λ db t. record db { pairings = t })
        λ db t i e. record {
          devices = i.devices;
          connectors = i.connectors;
          tickets = i.tickets;
          pairings =
              subst (All IsStaged) (sym (engine.create_rows pairing_schema p db.pairings t e).0)
                (All-append IsStaged db.pairings (p ∷ []) i.pairings (h, tt));
          device_ids = i.device_ids;
          connector_ids = i.connector_ids;
        }

  pub Yields-expire_pairings_for_key :
      (key : Bytes) (now : ℕ) → Yields w Anything (Store.expire_pairings_for_key engine key now)
  unfolding Store.expire_pairings_for_key
  Yields-expire_pairings_for_key key now =
      Yields-write
        (λ db.
          engine.update
            (λ p. (p.connector_identity.key_id == key) && is_active p.state && leb p.expires_at now)
            (λ p. record p { state = PairingState.expired }) db.pairings)
        (λ db t. record db { pairings = t })
        λ db t i e. record {
          devices = i.devices;
          connectors = i.connectors;
          tickets = i.tickets;
          pairings = subst (All IsStaged) (sym (engine.update_rows _ _ db.pairings t e)) (
              All-map_where IsStaged _ (λ p. record p { state = PairingState.expired }) db.pairings
                (λ _ _. tt) i.pairings);
          device_ids = i.device_ids;
          connector_ids = i.connector_ids;
        }

  pub Yields-create_device : (v : Device) → Yields w Anything (Store.create_device engine v)
  unfolding Store.create_device
  Yields-create_device v =
      Yields-write (λ db. engine.create device_schema v db.devices)
        (λ db t. record db { devices = t })
        λ db t i e. record {
          devices =
              subst (Watched (λ r. r.id) (λ r. r.revoked_at) w.device)
                (sym (engine.create_rows device_schema v db.devices t e).0)
                (Watched-create (λ r. r.id) (λ r. r.revoked_at) w.device v db.devices
                  device_schema.clash same_device
                  (engine.create_rows device_schema v db.devices t e).1 i.devices);
          connectors = i.connectors;
          tickets = i.tickets;
          pairings = i.pairings;
          device_ids =
              subst (λ (t : List Device). Distinct (map (λ d. d.id) t))
                (sym (engine.create_rows device_schema v db.devices t e).0)
                (new_device v db.devices (engine.create_rows device_schema v db.devices t e).1
                  i.device_ids);
          connector_ids = i.connector_ids;
        }

  -- A created connector is not the watched one.
  pub Yields-create_connector :
      (v : Connector) → Yields w (λ _. ConnectorOk w v) (Store.create_connector engine v)
  unfolding Store.create_connector
  Yields-create_connector v =
      Yields-write_with (ConnectorOk w v) (λ db. engine.create connector_schema v db.connectors)
        (λ db t. record db { connectors = t })
        λ db t i e.
          let (same, fresh) = engine.create_rows connector_schema v db.connectors t e in
          let next =
            Watched-create (λ (c : Connector). c.id) (λ (c : Connector). c.revoked_at) w.connector v
              db.connectors connector_schema.clash same_connector fresh i.connectors in
          (
            Watched-Among (λ c. c.id) (λ c. c.revoked_at) w.connector (db.connectors ++ (v ∷ [])) v
                next (Among-last db.connectors v),
            record {
              devices = i.devices;
              connectors =
                  subst (Watched (λ c. c.id) (λ c. c.revoked_at) w.connector) (sym same) next;
              tickets = i.tickets;
              pairings = i.pairings;
              device_ids = i.device_ids;
              connector_ids =
                  subst (λ (t : List Connector). Distinct (map (λ c. c.id) t)) (sym same)
                    (new_connector v db.connectors fresh i.connector_ids);
            },
          )

  pub Yields-create_relay_ticket :
      (v : RelayTicket) → Yields w Anything (Store.create_relay_ticket engine v)
  unfolding Store.create_relay_ticket
  Yields-create_relay_ticket v =
      Yields-write (λ db. engine.create relay_ticket_schema v db.relay_tickets)
        (λ db t. record db { relay_tickets = t })
        λ db t i e. record {
          devices = i.devices;
          connectors = i.connectors;
          tickets =
              subst (Watched (λ r. r.token_hash) (λ r. r.consumed_at) w.ticket)
                (sym (engine.create_rows relay_ticket_schema v db.relay_tickets t e).0)
                (Watched-create (λ r. r.token_hash) (λ r. r.consumed_at) w.ticket v db.relay_tickets
                  relay_ticket_schema.clash same_ticket
                  (engine.create_rows relay_ticket_schema v db.relay_tickets t e).1 i.tickets);
          pairings = i.pairings;
          device_ids = i.device_ids;
          connector_ids = i.connector_ids;
        }
