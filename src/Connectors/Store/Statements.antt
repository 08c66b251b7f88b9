-- ===== src/Connectors/Store/Statements.antt =====
-- What a statement of internal/connectors/postgres/store.go that succeeded did.
use openremotecode_api.Prelude.{
  ◌≡◌, refl, ◌⊎◌, inl, inr, arith, ap, sym, ◌∙◌, none, List, if◌then◌else◌,
}
use openremotecode_api.Database.{Engine, SqlError, Answer, rows, error}
use openremotecode_api.Connectors.Errors.{ok}
use openremotecode_api.Connectors.Tx.{Db}
use openremotecode_api.Connectors.Store.{
  read, write, upsert_trust, save_connector, save_pairing, append_audit_event,
}
use openremotecode_api.Connectors.Schemas.{
  trust_schema, connector_schema, pairing_schema, audit_event_schema,
}
use openremotecode_api.Database.Rows.{any}
use openremotecode_api.Connectors.Types.{Trust, Connector, Pairing, AuditEvent}

pub Answer-cases :
    {A : Type 0} (r : Answer A) → ((a : A) × (r ≡ rows a)) ⊎ ((e : SqlError) × (r ≡ error e))
Answer-cases (rows a) = inl (a, refl)
Answer-cases (error e) = inr (e, refl)

pub read_ok :
    {A : Type 0} (query : Db → Answer A) (db : Db) {a : A} {db' : Db}
    → read query db ≡ ok (a, db')
    → (query db ≡ rows a) × (db ≡ db')
read_ok query db h = ground arith

pub write_ok :
    {A : Type 0} (query : Db → Answer A) (store : Db → A → Db) (db : Db) {u : Unit {0}} {db' : Db}
    → write query store db ≡ ok (u, db')
    → (a : A) × (query db ≡ rows a) × (store db a ≡ db')
write_ok query store db h = elim (Answer-cases (query db)) [
  | inl (a, e) ↦ (a, e, ground arith)
  | inr (e, q) ↦ absurd (ground arith)
]

-- A write to another table leaves a part of the database as it was.
pub write-keeps :
    {A B : Type 0} (part : Db → B) (query : Db → Answer A) (store : Db → A → Db) (db : Db)
    {u : Unit {0}} {db' : Db}
    → ((db : Db) (a : A) → part (store db a) ≡ part db)
    → write query store db ≡ ok (u, db')
    → part db' ≡ part db
write-keeps part query store db same h =
    let (a, _, s) = write_ok query store db h in ap part (sym s) ∙ same db a

module _ (engine : Engine) (db : Db) {u : Unit {0}} {db' : Db} where
  pub devices-upsert_trust :
      (v : Trust) → upsert_trust engine v db ≡ ok (u, db') → db'.devices ≡ db.devices
  unfolding upsert_trust
  devices-upsert_trust v h =
      write-keeps (λ db. db.devices)
        (λ db.
          if any (trust_schema.same_key v) db.trusts
          then engine.update (trust_schema.same_key v)
              (λ t. record t { created_at = v.created_at; revoked_at = none }) db.trusts
          else engine.create trust_schema v db.trusts)
        (λ db (t : List Trust). record db { trusts = t }) db (λ _ _. refl) h

  pub devices-save_connector :
      (v : Connector) → save_connector engine v db ≡ ok (u, db') → db'.devices ≡ db.devices
  unfolding save_connector
  devices-save_connector v h =
      write-keeps (λ db. db.devices) (λ db. engine.save connector_schema v db.connectors)
        (λ db (t : List Connector). record db { connectors = t }) db (λ _ _. refl) h

  pub devices-save_pairing :
      (v : Pairing) → save_pairing engine v db ≡ ok (u, db') → db'.devices ≡ db.devices
  unfolding save_pairing
  devices-save_pairing v h =
      write-keeps (λ db. db.devices) (λ db. engine.save pairing_schema v db.pairings)
        (λ db (t : List Pairing). record db { pairings = t }) db (λ _ _. refl) h

  pub devices-append_audit_event :
      (v : AuditEvent) → append_audit_event engine v db ≡ ok (u, db') → db'.devices ≡ db.devices
  unfolding append_audit_event
  devices-append_audit_event v h =
      write-keeps (λ db. db.devices) (λ db. engine.create audit_event_schema v db.audit_events)
        (λ db (t : List AuditEvent). record db { audit_events = t }) db (λ _ _. refl) h
