-- ===== src/Connectors/Ticket/Admitted.antt =====
-- Whom `ConsumeRelayTicket` of internal/connectors/service.go admits, and until when.
use openremotecode_api.Prelude.{
  ℕ, ◌≡◌, refl, ◌+◌, ◌<◌, ◌≤◌, Bool, true, false, ◌&&◌, Option, none, some, arith, Bool-cases, inl,
  inr, is_some, ltb, if◌then◌else◌, ap, sym, ◌∙◌, [], subst,
}
use openremotecode_api.Bytes.{Bytes, ◌==◌, eq_sound}
use openremotecode_api.Database.{Answer}
use openremotecode_api.Database.Rows.{Among}
use openremotecode_api.Connectors.Errors.{ok, Error}
use openremotecode_api.Connectors.Types.{
  Role, client, connector, other_role, is_client, RelayTicket, Admission, Device, Connector,
  PublicIdentity,
}
use openremotecode_api.Connectors.Tx.{Db, bind_ok, refuse_ok, check_ok, ok_injective}
use openremotecode_api.Connectors.Store
use openremotecode_api.Connectors.Store.Statements.{read_ok}
use openremotecode_api.Connectors.Service.{Service, Call}
use openremotecode_api.Connectors.Tokens.{hash_secret}
use openremotecode_api.Connectors.Ticket.{
  authorization_lease, consume_transaction, admit, current_identity, lease_until, expiry,
}

-- The subject of an admission is in the tables, belongs to the account, is in use, and has the
-- identity.
abbrev pub SubjectIn : Db → Bytes → Bytes → PublicIdentity → Role → Type 0
SubjectIn db user id identity client =
    (d : Device) × Among d db.devices
    × (d.id ≡ id)
    × (d.user_id ≡ user)
    × (is_some d.activated_at ≡ true)
    × (is_some d.revoked_at ≡ false)
    × (d.identity ≡ identity)
SubjectIn db user id identity connector =
    (c : Connector) × Among c db.connectors
    × (c.id ≡ id)
    × (c.user_id ≡ user)
    × (is_some c.revoked_at ≡ false)
    × (c.identity ≡ identity)
SubjectIn db user id identity other_role = ⊥

-- An unused ticket of the hash, good at the time, for the subject of the admission, whose
-- authorization lasts as long as the admission.
abbrev pub HasTicket : Db → Bytes → ℕ → Admission → Type 0
HasTicket db hash now a =
    (t : RelayTicket) × (until : ℕ) × Among t db.relay_tickets
    × (t.token_hash ≡ hash)
    × (is_some t.consumed_at ≡ false)
    × (now < t.expires_at)
    × (t.authorization_expires_at ≡ some until)
    × (a.authorization_expires_at ≤ until)
    × (a.user_id ≡ t.user_id)
    × (a.role ≡ t.role)
    × (a.subject_id ≡ t.subject_id)

session_guard :
    (b : Bool) (f : Bytes → Option Error) (c : Bytes)
    → (if b then f c else none) ≡ none
    → (b && is_some (f (if b then c else []))) ≡ false
session_guard true f c e = rw e refl
session_guard false f c e = refl

module _ (service : Service) (call : Call) where
  open service use {engine, lib}
  open call use {now}

  expiry_ok :
      (o : Option ℕ) (db db' : Db) {t : ℕ}
      → expiry service call o db ≡ ok (t, db')
      → (db ≡ db') × (now < t) × (o ≡ some t)
  expiry_ok none db db' e = absurd (ground arith)
  expiry_ok (some x) db db' e = elim (Bool-cases (ltb now x)) [
    | inl h ↦
        let (same, s) = ok_injective (rw h at e) in
        (s, rw (← same) (ground (arith, h)), ap some same)
    | inr h ↦ absurd (ground (arith, rw h at e))
  ]

  current_identity_ok :
      (t : RelayTicket) (r : Role) (db db' : Db) {i : PublicIdentity}
      → current_identity service call t r db ≡ ok (i, db')
      → SubjectIn db t.user_id t.subject_id i r
  unfolding current_identity Store.device_by_id_for_update Store.connector_by_id_for_update
  current_identity_ok t client db db' e =
      let found : Db → Answer Device = λ db. engine.first (λ d. d.id == t.subject_id) db.devices in
      let (d, mid, e1, rest) = bind_ok (Store.read found) _ db e in
      let (q, _) = read_ok found db e1 in
      let (m, here) = engine.first_rows (λ d. d.id == t.subject_id) db.devices d q in
      let (fit, e2) = refuse_ok _ _ _ mid rest in
      let (same, _) = ok_injective e2 in
      (
        d,
        m,
        eq_sound d.id t.subject_id here,
        eq_sound d.user_id t.user_id (ground (arith, fit)),
        ground (arith, fit),
        ground (arith, fit),
        same,
      )
  current_identity_ok t connector db db' e =
      let found : Db → Answer Connector =
        λ db. engine.first (λ c. c.id == t.subject_id) db.connectors in
      let (c, mid, e1, rest) = bind_ok (Store.read found) _ db e in
      let (q, _) = read_ok found db e1 in
      let (m, here) = engine.first_rows (λ c. c.id == t.subject_id) db.connectors c q in
      let (fit, e2) = refuse_ok _ _ _ mid rest in
      let (same, _) = ok_injective e2 in
      (
        c,
        m,
        eq_sound c.id t.subject_id here,
        eq_sound c.user_id t.user_id (ground (arith, fit)),
        ground (arith, fit),
        same,
      )
  current_identity_ok t other_role db db' e = absurd (ground arith)

  lease_bounds :
      (until : ℕ)
      → now < until
      → (now < lease_until service call until)
        × (lease_until service call until ≤ now + authorization_lease)
        × (lease_until service call until ≤ until)
  lease_bounds until live = elim (Bool-cases (ltb until (now + authorization_lease))) [
    | inl q ↦ rw q (live, ground (arith, q), omega arith)
    | inr q ↦ rw q (omega arith, omega arith, ground (arith, q))
  ]

  admit_ok :
      (t : RelayTicket) (until : ℕ) (db db' : Db) {a : Admission}
      → now < until
      → admit service call t until db ≡ ok (a, db')
      → SubjectIn db a.user_id a.subject_id a.identity a.role
        × (call.authorize_account a.user_id ≡ none)
        × ((is_client a.role && is_some (call.authorize_session a.user_id a.session_id)) ≡ false)
        × (now < a.authorization_expires_at)
        × (a.authorization_expires_at ≤ now + authorization_lease)
        × (a.authorization_expires_at ≤ until)
        × (a.user_id ≡ t.user_id)
        × (a.role ≡ t.role)
        × (a.subject_id ≡ t.subject_id)
  unfolding admit
  admit_ok t until db db' {a} live e =
      let (account, e1) = check_ok _ _ db e in
      let (session, e2) = check_ok _ _ db e1 in
      let (i, mid, e3, e4) = bind_ok (current_identity service call t t.role) _ db e2 in
      let subject = current_identity_ok t t.role db mid e3 in
      let (trusted, mid1, _, e5) = bind_ok _ _ mid e4 in
      let (_, mid2, _, e6) = bind_ok _ _ mid1 e5 in
      let (same, _) = ok_injective e6 in
      let l = lease_bounds until live in
      rw (← same) (
        subject,
        account,
        session_guard (is_client t.role) (call.authorize_session t.user_id) t.credential_id session,
        l.0,
        l.1,
        l.2,
        refl,
        refl,
        refl,
      )

-- When the transaction of `ConsumeRelayTicket` succeeds: the subject of the admission is in the
-- tables, belongs to its account, is in use (an activated device or a connector, not revoked) and has
-- the identity of the admission; the authorizers accepted the account and, for a client, its session;
-- the lease is in the future and at most five minutes away; and the ticket was there, unused and
-- unexpired, for the same account, role and subject, with an authorization that the lease does not
-- outlast.
pub consumed_admission :
    (service : Service) (call : Call) (ticket : Bytes) (db db' : Db) (a : Admission)
    → consume_transaction service call ticket db ≡ ok (a, db')
    → SubjectIn db a.user_id a.subject_id a.identity a.role
      × (call.authorize_account a.user_id ≡ none)
      × ((is_client a.role && is_some (call.authorize_session a.user_id a.session_id)) ≡ false)
      × (call.now < a.authorization_expires_at)
      × (a.authorization_expires_at ≤ call.now + authorization_lease)
      × HasTicket db (hash_secret service.lib ticket) call.now a
unfolding consume_transaction Store.relay_ticket_for_update
consumed_admission service call ticket db db' a e =
    let hash = hash_secret service.lib ticket in
    let found : Db → Answer RelayTicket =
      λ db. service.engine.first (λ t. t.token_hash == hash) db.relay_tickets in
    let (t, mid, e1, rest) = bind_ok (Store.read found) _ db e in
    let (q, s1) = read_ok found db e1 in
    let (m, here) = service.engine.first_rows (λ t. t.token_hash == hash) db.relay_tickets t q in
    let (fit, e2) = refuse_ok _ _ _ mid rest in
    let (until, mid2, e3, e4) = bind_ok (expiry service call t.authorization_expires_at) _ mid e2 in
    let (s2, live, whole) = expiry_ok service call t.authorization_expires_at mid mid2 e3 in
    let (subject, account, session, soon, bounded, within, user, role, id) =
      admit_ok service call t until mid2 db' live e4 in
    (
      subst (λ d. SubjectIn d a.user_id a.subject_id a.identity a.role) (sym (s1 ∙ s2)) subject,
      account,
      session,
      soon,
      bounded,
      (
        t,
        until,
        m,
        eq_sound t.token_hash hash here,
        ground (arith, fit),
        ground (arith, fit),
        whole,
        within,
        user,
        role,
        id,
      ),
    )
