-- ===== src/Connectors/Store.antt =====
-- internal/connectors/postgres/store.go: the statements of each repository operation, over the
-- tables of `Db`. Row locks are not modelled: transactions run one after another.
pub mod Statements
pub mod Saved
use openremotecode_api.Prelude.{
  ℕ, zero, ◌≤◌, Bool, true, false, ◌&&◌, ◌||◌, not, Option, none, some, List, [], ◌∷◌, leb, ltb,
  is_some, is_none, length, if◌then◌else◌,
}
use openremotecode_api.Bytes.{Bytes, ◌==◌, holds}
use openremotecode_api.Database.{
  SqlError, record_not_found, duplicated_key, foreign_key_violated, check_constraint_violated,
  failed, Answer, rows, error, Schema, Engine,
}
use openremotecode_api.Database.Rows.{any}
use openremotecode_api.Connectors.Errors.{Error, Result, ok, err, not_found, conflict, other}
use openremotecode_api.Connectors.Types.{
  PublicIdentity, Challenge, Pairing, PairingState, expired, Device, Connector, Trust, ClaimFailure,
  ClaimFailureCounts, RelayTicket, Role, is_client, AuditEvent,
}
use openremotecode_api.Connectors.Tx.{Tx, Db, pure, ◌>>=◌}
use openremotecode_api.Connectors.Schemas.{
  challenge_schema, pairing_schema, is_active, device_schema, connector_schema, trust_schema,
  relay_ticket_schema, audit_event_schema, claim_failure_schema,
}

abbrev pub translate_error : SqlError → Error
translate_error record_not_found = not_found
translate_error duplicated_key = conflict
translate_error foreign_key_violated = conflict
translate_error check_constraint_violated = conflict
translate_error (failed code) = other code

abbrev pub read : {A : Type 0} → (Db → Answer A) → Tx A
read query db = elim (query db) [ rows a ↦ ok (a, db) | error e ↦ err (translate_error e) ]

-- A statement that gives a table anew.
abbrev pub write : {A : Type 0} → (Db → Answer A) → (Db → A → Db) → Tx (Unit {0})
write query store db = elim (query db) [
  | rows a ↦ ok (tt, store db a)
  | error e ↦ err (translate_error e)
]

-- `min(occurred_at)` of the counted failures; 0 is the zero time, where there is none.
abbrev oldest : List ClaimFailure → ℕ
oldest [] = 0
oldest (f ∷ []) = f.occurred_at
oldest (f ∷ g ∷ l) =
    let rest = oldest (g ∷ l) in if leb f.occurred_at rest then f.occurred_at else rest

module _ (engine : Engine) where
  unfoldable pub create_challenge : Challenge → Tx (Unit {0})
  create_challenge v =
      write (λ db. engine.create challenge_schema v db.challenges)
        (λ db t. record db { challenges = t })

  unfoldable pub challenge_for_update : Bytes → Tx Challenge
  challenge_for_update hash = read (λ db. engine.first (λ c. c.hash == hash) db.challenges)

  unfoldable pub save_challenge : Challenge → Tx (Unit {0})
  save_challenge v =
      write (λ db. engine.save challenge_schema v db.challenges)
        (λ db t. record db { challenges = t })

  unfoldable pub create_pairing : Pairing → Tx (Unit {0})
  create_pairing v =
      write (λ db. engine.create pairing_schema v db.pairings) (λ db t. record db { pairings = t })

  -- state IN ('pending', 'verification', 'confirmed') is `is_active`.
  unfoldable pub expire_pairings_for_key : Bytes → ℕ → Tx (Unit {0})
  expire_pairings_for_key key_id now =
      write
        (λ db.
          engine.update
            (λ p.
              (p.connector_identity.key_id == key_id) && is_active p.state && leb p.expires_at now)
            (λ p. record p { state = expired }) db.pairings)
        (λ db t. record db { pairings = t })

  unfoldable pub pairing_by_code_for_update : Bytes → Tx Pairing
  pairing_by_code_for_update hash =
      read (λ db. engine.first (λ p. p.user_code_hash == hash) db.pairings)

  unfoldable pub pairing_by_secret_for_update : Bytes → Tx Pairing
  pairing_by_secret_for_update hash =
      read (λ db. engine.first (λ p. p.secret_hash == hash) db.pairings)

  unfoldable pub pairing_by_id_for_update : Bytes → Tx Pairing
  pairing_by_id_for_update id = read (λ db. engine.first (λ p. p.id == id) db.pairings)

  unfoldable pub save_pairing : Pairing → Tx (Unit {0})
  save_pairing v =
      write (λ db. engine.save pairing_schema v db.pairings) (λ db t. record db { pairings = t })

  unfoldable pub device_by_key_id_for_update : Bytes → Tx Device
  device_by_key_id_for_update key_id =
      read (λ db. engine.first (λ d. d.identity.key_id == key_id) db.devices)

  unfoldable pub device_by_id_for_update : Bytes → Tx Device
  device_by_id_for_update id = read (λ db. engine.first (λ d. d.id == id) db.devices)

  unfoldable pub device_by_credential_for_update : Bytes → Tx Device
  device_by_credential_for_update hash =
      read (λ db. engine.first (λ d. holds d.credential_hash hash) db.devices)

  unfoldable pub device_by_any_credential_for_update : Bytes → Tx Device
  device_by_any_credential_for_update hash = read (λ db.
      engine.first (λ d. holds d.credential_hash hash || holds d.pending_credential_hash hash)
        db.devices)

  unfoldable pub create_device : Device → Tx (Unit {0})
  create_device v =
      write (λ db. engine.create device_schema v db.devices) (λ db t. record db { devices = t })

  unfoldable pub save_device : Device → Tx (Unit {0})
  save_device v =
      write (λ db. engine.save device_schema v db.devices) (λ db t. record db { devices = t })

  unfoldable pub connector_by_key_id_for_update : Bytes → Tx Connector
  connector_by_key_id_for_update key_id =
      read (λ db. engine.first (λ c. c.identity.key_id == key_id) db.connectors)

  unfoldable pub connector_by_id_for_update : Bytes → Tx Connector
  connector_by_id_for_update id = read (λ db. engine.first (λ c. c.id == id) db.connectors)

  unfoldable pub connector_by_credential_for_update : Bytes → Tx Connector
  connector_by_credential_for_update hash =
      read (λ db. engine.first (λ c. holds c.credential_hash hash) db.connectors)

  unfoldable pub connector_by_any_credential_for_update : Bytes → Tx Connector
  connector_by_any_credential_for_update hash = read (λ db.
      engine.first (λ c. holds c.credential_hash hash || holds c.pending_credential_hash hash)
        db.connectors)

  unfoldable pub create_connector : Connector → Tx (Unit {0})
  create_connector v =
      write (λ db. engine.create connector_schema v db.connectors)
        (λ db t. record db { connectors = t })

  unfoldable pub save_connector : Connector → Tx (Unit {0})
  save_connector v =
      write (λ db. engine.save connector_schema v db.connectors)
        (λ db t. record db { connectors = t })

  unfoldable pub revoke_device_trust : Bytes → Bytes → ℕ → Tx (Unit {0})
  revoke_device_trust user_id device_id revoked_at =
      write
        (λ db.
          engine.update
            (λ t. (t.user_id == user_id) && (t.device_id == device_id) && is_none t.revoked_at)
            (λ t. record t { revoked_at = some revoked_at }) db.trusts)
        (λ db t. record db { trusts = t })

  -- INSERT … ON CONFLICT DO UPDATE: a trust that is there already is renewed.
  unfoldable pub upsert_trust : Trust → Tx (Unit {0})
  upsert_trust v =
      write
        (λ db.
          if any (trust_schema.same_key v) db.trusts
          then engine.update (trust_schema.same_key v)
              (λ t. record t { created_at = v.created_at; revoked_at = none }) db.trusts
          else engine.create trust_schema v db.trusts)
        (λ db t. record db { trusts = t })

  -- The account's incorrect codes since the first time, and everyone's since the second.
  unfoldable pub claim_failures_for_update : Bytes → ℕ → ℕ → Tx ClaimFailureCounts
  claim_failures_for_update user_id account_since global_since = do
    mine ← read (λ db.
        engine.find (λ f. (f.user_id == user_id) && ltb account_since f.occurred_at)
          db.claim_failures)
    all ← read (λ db. engine.find (λ f. ltb global_since f.occurred_at) db.claim_failures)
    pure (record { account = length mine; account_oldest = oldest mine; global = length all })

  unfoldable pub record_claim_failure : Bytes → ℕ → ℕ → Tx (Unit {0})
  record_claim_failure user_id occurred_at purge_before =
      write (λ db. engine.remove (λ f. leb f.occurred_at purge_before) db.claim_failures)
        (λ db t. record db { claim_failures = t })
      >>= λ _.
          write
            (λ db.
              engine.create claim_failure_schema
                (record { user_id = user_id; occurred_at = occurred_at }) db.claim_failures)
            (λ db t. record db { claim_failures = t })

  unfoldable pub create_relay_ticket : RelayTicket → Tx (Unit {0})
  create_relay_ticket v =
      write (λ db. engine.create relay_ticket_schema v db.relay_tickets)
        (λ db t. record db { relay_tickets = t })

  unfoldable pub relay_ticket_for_update : Bytes → Tx RelayTicket
  relay_ticket_for_update hash =
      read (λ db. engine.first (λ r. r.token_hash == hash) db.relay_tickets)

  unfoldable pub save_relay_ticket : RelayTicket → Tx (Unit {0})
  save_relay_ticket v =
      write (λ db. engine.save relay_ticket_schema v db.relay_tickets)
        (λ db t. record db { relay_tickets = t })

  unfoldable pub append_audit_event : AuditEvent → Tx (Unit {0})
  append_audit_event v =
      write (λ db. engine.create audit_event_schema v db.audit_events)
        (λ db t. record db { audit_events = t })
