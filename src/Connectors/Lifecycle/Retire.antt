-- ===== src/Connectors/Lifecycle/Retire.antt =====
-- What a revocation, or the use of a ticket, of internal/connectors/service.go begins: the row can be
-- watched from there on.
use openremotecode_api.Prelude.{
  ℕ, ◌≡◌, refl, Bool, true, false, Option, some, none, arith, Bool-cases, inl, inr, sym, ◌∙◌, subst,
  is_some, List, map, not, ◌||◌, ltb,
}
use openremotecode_api.Bytes.{Bytes, ◌==◌, eq_sound}
use openremotecode_api.Database.{Engine}
use openremotecode_api.Database.Rows.{Among}
use openremotecode_api.Database.Watch.{Watched, Watched-stamped, Watched-found}
use openremotecode_api.Database.Keys.{Distinct, Distinct-put}
use openremotecode_api.Connectors.Errors.{Error, ok, unauthorized}
use openremotecode_api.Connectors.Types.{Device, Connector, RelayTicket}
use openremotecode_api.Connectors.Tx.{
  Tx, Db, ◌>>=◌, ◌>>◌, refuse, check, bind_ok, refuse_ok, ok_injective,
}
use openremotecode_api.Connectors.Schemas.{device_schema, connector_schema, relay_ticket_schema}
use openremotecode_api.Connectors.Store
use openremotecode_api.Connectors.Store.Statements.{read_ok, write_ok}
use openremotecode_api.Connectors.Service.{Service, Call}
use openremotecode_api.Connectors.Tokens.{hash_secret}
use openremotecode_api.Connectors.Revoke.{
  mark_device_revoked, mark_connector_revoked, revoke_account_device_transaction,
  revoke_account_connector_transaction,
}
use openremotecode_api.Connectors.Ticket.{consume_transaction, admit, expiry}
use openremotecode_api.Connectors.Lifecycle.{Watch, Inv, Yields, Anything, Yields-bind, Yields-pure}
use openremotecode_api.Connectors.Lifecycle.Stores
use openremotecode_api.Connectors.Lifecycle.Creates
use openremotecode_api.Connectors.Lifecycle.Credentials.{
  Yields-record_device_event, Yields-record_connector_event,
}
use openremotecode_api.Connectors.Lifecycle.Tickets

abbrev pub watch_nothing : Watch
watch_nothing = record { device = none; connector = none; ticket = none }

abbrev pub watch_device : Bytes → Watch
watch_device d = record { device = some d; connector = none; ticket = none }

abbrev pub watch_connector : Bytes → Watch
watch_connector c = record { device = none; connector = some c; ticket = none }

abbrev pub watch_ticket : Bytes → Watch
watch_ticket t = record { device = none; connector = none; ticket = some t }

Yields-check_only : {w : Watch} (o : Option Error) → Yields w Anything (check o)
Yields-check_only none = record { at = λ db a db' i e. (tt, subst (Inv _) (ok_injective e).1 i) }
Yields-check_only (some e) = record { at = λ db b db' i h. absurd (ground arith) }

Yields-refuse_only : {w : Watch} (b : Bool) (e : Error) → Yields w Anything (refuse b e)
Yields-refuse_only false e = record {
  at = λ db a db' i e. (tt, subst (Inv _) (ok_injective e).1 i);
}
Yields-refuse_only true e = record { at = λ db b db' i h. absurd (ground arith) }

-- The action turns a database in which nothing is watched into one in which `w` is.
pub record Begins (w : Watch) {A : Type 0} (m : Tx A) : Type 0 where
  pub at : (db : Db) (a : A) (db' : Db) → Inv watch_nothing db → m db ≡ ok (a, db') → Inv w db'

module _ {w : Watch} {A B : Type 0} where
  Begins-then :
      (m : Tx A) (f : A → Tx B)
      → Begins w m
      → ((a : A) → Yields w Anything (f a))
      → Begins w (m >>= f)
  Begins-then m f h k = record {
    at = λ db b db' i e.
        let (a, mid, first, second) = bind_ok m f db e in
        ((k a).at mid b db' (h.at db a mid i first) second).1;
  }

  Begins-after :
      (Q : A → Type 0) (m : Tx A) (f : A → Tx B)
      → Yields watch_nothing Q m
      → ((a : A) → Q a → Begins w (f a))
      → Begins w (m >>= f)
  Begins-after Q m f h k = record {
    at = λ db b db' i e.
        let (a, mid, first, second) = bind_ok m f db e in
        let (q, j) = h.at db a mid i first in (k a q).at mid b db' j second;
  }

Inv-device_found :
    (db : Db) (i : Inv watch_nothing db) (d : Device)
    → Among d db.devices
    → is_some d.revoked_at ≡ true
    → Inv (watch_device d.id) db
Inv-device_found db i d m h = record {
  devices = Watched-found (λ d. d.id) (λ d. d.revoked_at) d db.devices i.device_ids m h;
  connectors = tt;
  tickets = tt;
  pairings = i.pairings;
  device_ids = i.device_ids;
  connector_ids = i.connector_ids;
}

Inv-connector_found :
    (db : Db) (i : Inv watch_nothing db) (c : Connector)
    → Among c db.connectors
    → is_some c.revoked_at ≡ true
    → Inv (watch_connector c.id) db
Inv-connector_found db i c m h = record {
  devices = tt;
  connectors = Watched-found (λ c. c.id) (λ c. c.revoked_at) c db.connectors i.connector_ids m h;
  tickets = tt;
  pairings = i.pairings;
  device_ids = i.device_ids;
  connector_ids = i.connector_ids;
}

module _ (engine : Engine) where
  Begins-save_device :
      (d : Device)
      → is_some d.revoked_at ≡ true
      → Begins (watch_device d.id) (Store.save_device engine d)
  unfolding Store.save_device
  Begins-save_device d h = record {
    at = λ db u db' i e.
        let (t, q, same) =
          write_ok (λ db. engine.save device_schema d db.devices)
            (λ db t. record db { devices = t }) db e in
        subst (Inv (watch_device d.id)) same (record {
          devices =
              subst (Watched (λ d. d.id) (λ d. d.revoked_at) (some d.id))
                (sym (engine.save_rows device_schema d db.devices t q))
                (Watched-stamped (λ d. d.id) (λ d. d.revoked_at) d db.devices h);
          connectors = tt;
          tickets = tt;
          pairings = i.pairings;
          device_ids =
              subst (λ (t : List Device). Distinct (map (λ d. d.id) t))
                (sym (engine.save_rows device_schema d db.devices t q))
                (Distinct-put (λ (d : Device). d.id) d db.devices i.device_ids);
          connector_ids = i.connector_ids;
        });
  }

  Begins-save_connector :
      (c : Connector)
      → is_some c.revoked_at ≡ true
      → Begins (watch_connector c.id) (Store.save_connector engine c)
  unfolding Store.save_connector
  Begins-save_connector c h = record {
    at = λ db u db' i e.
        let (t, q, same) =
          write_ok (λ db. engine.save connector_schema c db.connectors)
            (λ db t. record db { connectors = t }) db e in
        subst (Inv (watch_connector c.id)) same (record {
          devices = tt;
          connectors =
              subst (Watched (λ c. c.id) (λ c. c.revoked_at) (some c.id))
                (sym (engine.save_rows connector_schema c db.connectors t q))
                (Watched-stamped (λ c. c.id) (λ c. c.revoked_at) c db.connectors h);
          tickets = tt;
          pairings = i.pairings;
          device_ids = i.device_ids;
          connector_ids =
              subst (λ (t : List Connector). Distinct (map (λ c. c.id) t))
                (sym (engine.save_rows connector_schema c db.connectors t q))
                (Distinct-put (λ (c : Connector). c.id) c db.connectors i.connector_ids);
        });
  }

  pub Begins-save_relay_ticket :
      (r : RelayTicket)
      → is_some r.consumed_at ≡ true
      → Begins (watch_ticket r.token_hash) (Store.save_relay_ticket engine r)
  unfolding Store.save_relay_ticket
  Begins-save_relay_ticket r h = record {
    at = λ db u db' i e.
        let (t, q, same) =
          write_ok (λ db. engine.save relay_ticket_schema r db.relay_tickets)
            (λ db t. record db { relay_tickets = t }) db e in
        subst (Inv (watch_ticket r.token_hash)) same (record {
          devices = tt;
          connectors = tt;
          tickets =
              subst (Watched (λ r. r.token_hash) (λ r. r.consumed_at) (some r.token_hash))
                (sym (engine.save_rows relay_ticket_schema r db.relay_tickets t q))
                (Watched-stamped (λ r. r.token_hash) (λ r. r.consumed_at) r db.relay_tickets h);
          pairings = i.pairings;
          device_ids = i.device_ids;
          connector_ids = i.connector_ids;
        });
  }

module _ (service : Service) (call : Call) where
  open service use {engine, lib}

  Begins-mark_device_revoked :
      (u : Bytes) (d : Device) → Begins (watch_device d.id) (mark_device_revoked service call u d)
  unfolding mark_device_revoked
  Begins-mark_device_revoked u d = Begins-then _ _ (Begins-save_device engine _ refl) λ _.
      Yields-bind Anything Anything _ _ (Creates.Yields-revoke_device_trust _ engine _ _ _)
        λ _ _. Yields-record_device_event _ service call d _

  Begins-mark_connector_revoked :
      (c : Connector) → Begins (watch_connector c.id) (mark_connector_revoked service call c)
  unfolding mark_connector_revoked
  Begins-mark_connector_revoked c =
      Begins-then _ _ (Begins-save_connector engine _ refl)
        λ _. Yields-record_connector_event _ service call c _

  -- A device that is revoked already is found by its ID, and can be watched as it is.
  pub Begins-revoke_account_device_transaction :
      (u d : Bytes) → Begins (watch_device d) (revoke_account_device_transaction service call u d)
  unfolding revoke_account_device_transaction Store.device_by_id_for_update
  Begins-revoke_account_device_transaction u d = record {
    at = λ db r db' i e.
        let (v, mid, first, second) = bind_ok (Store.device_by_id_for_update engine d) _ db e in
        let (q, same) = read_ok (λ db. engine.first (λ v. v.id == d) db.devices) db first in
        let (m, here) = engine.first_rows (λ v. v.id == d) db.devices v q in
        let (mine, rest) = refuse_ok (not (v.user_id == u)) _ _ mid second in
        let j = subst (Inv watch_nothing) same i in
        subst (λ k. Inv (watch_device k) db') (eq_sound v.id d here)
          (elim (Bool-cases (is_some v.revoked_at)) [
            | inl revoked ↦
                subst (Inv (watch_device v.id)) (same ∙ (ok_injective (rw revoked at rest)).1)
                  (Inv-device_found db i v m revoked)
            | inr live ↦ (Begins-mark_device_revoked u v).at mid r db' j (rw live at rest)
          ]);
  }

  pub Begins-revoke_account_connector_transaction :
      (u c : Bytes)
      → Begins (watch_connector c) (revoke_account_connector_transaction service call u c)
  unfolding revoke_account_connector_transaction Store.connector_by_id_for_update
  Begins-revoke_account_connector_transaction u c = record {
    at = λ db r db' i e.
        let (v, mid, first, second) = bind_ok (Store.connector_by_id_for_update engine c) _ db e in
        let (q, same) = read_ok (λ db. engine.first (λ v. v.id == c) db.connectors) db first in
        let (m, here) = engine.first_rows (λ v. v.id == c) db.connectors v q in
        let (mine, rest) = refuse_ok (not (v.user_id == u)) _ _ mid second in
        let j = subst (Inv watch_nothing) same i in
        subst (λ k. Inv (watch_connector k) db') (eq_sound v.id c here)
          (elim (Bool-cases (is_some v.revoked_at)) [
            | inl revoked ↦
                subst (Inv (watch_connector v.id)) (same ∙ (ok_injective (rw revoked at rest)).1)
                  (Inv-connector_found db i v m revoked)
            | inr live ↦ (Begins-mark_connector_revoked v).at mid r db' j (rw live at rest)
          ]);
  }

  Begins-admit :
      (t : RelayTicket) (a : ℕ) → Begins (watch_ticket t.token_hash) (admit service call t a)
  unfolding admit
  Begins-admit t a = Begins-after Anything _ _ (Yields-check_only _) λ _ _.
      Begins-after Anything _ _ (Yields-check_only _) λ _ _.
        Begins-after Anything _ _ (Tickets.Yields-current_identity _ service call t t.role) λ _ _.
          Begins-after Anything _ _ (Tickets.Yields-trusted_identities _ service call _ _ _) λ _ _.
            Begins-then _ _ (Begins-save_relay_ticket engine _ refl) λ _. Yields-pure Anything _ tt

  Begins-usable :
      (t : RelayTicket)
      → Begins (watch_ticket t.token_hash) (
          refuse (is_some t.consumed_at || not (ltb call.now t.expires_at)) unauthorized
          >> (expiry service call t.authorization_expires_at >>= admit service call t))
  Begins-usable t = Begins-after Anything _ _ (Yields-refuse_only _ _) λ _ _.
      Begins-after Anything _ _ (Tickets.Yields-expiry _ service call _) λ a _. Begins-admit t a

  -- Whichever ticket is consumed is watched from there on.
  pub Begins-consume_transaction :
      (t : Bytes) → Begins (watch_ticket (hash_secret lib t)) (consume_transaction service call t)
  unfolding consume_transaction
  Begins-consume_transaction t =
      Begins-after _ _ _ (Stores.Yields-ticket_of_hash watch_nothing engine (hash_secret lib t))
        λ r (_, here). rw (← eq_sound r.token_hash (hash_secret lib t) here) (Begins-usable r)
