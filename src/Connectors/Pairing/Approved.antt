-- ===== src/Connectors/Pairing/Approved.antt =====
-- What `ApprovePairing` of internal/connectors/service.go stores when it accepts a device.
use openremotecode_api.Prelude.{
  ℕ, ◌≡◌, refl, ◌<◌, ◌⊎◌, inl, inr, Bool, Bool-cases, Option, none, some, arith, is_some, ltb, not,
  sym, subst, ap, ◌∙◌, true, false,
}
use openremotecode_api.Bytes.{Bytes, ◌==◌, eq_sound}
use openremotecode_api.Database.{Answer}
use openremotecode_api.Database.Rows.{Among}
use openremotecode_api.Connectors.Errors.{ok}
use openremotecode_api.Connectors.Types.{
  Pairing, PairingState, Device, is_verification, is_expired, is_completed,
}
use openremotecode_api.Connectors.Tx.{Db, pure, bind_ok, refuse_ok, ok_injective}
use openremotecode_api.Connectors.Store
use openremotecode_api.Connectors.Store.Statements.{read_ok}
use openremotecode_api.Connectors.Store.Saved.{save_pairing-Among, pairings-append_audit_event}
use openremotecode_api.Connectors.Service.{Service, Call}
use openremotecode_api.Connectors.Tokens.{hash_secret}
use openremotecode_api.Connectors.Pairing.Approve.{
  Approval, approved, approval_expired, approve_transaction, approve_device, approve_live,
  approve_over,
}

-- The pairing as the approval leaves it: only its review is new.
abbrev pub reviewed_at : ℕ → Pairing → Pairing
reviewed_at now p = record p { connector_reviewed_at = some now }

-- The pairing was approved before and is left as it is, or it is stored approved now.
abbrev pub IsApproved : ℕ → Pairing → Db → Db → Type 0
IsApproved now p db db' =
    ((is_some p.connector_reviewed_at ≡ true) × (db.pairings ≡ db'.pairings))
    ⊎ Among (reviewed_at now p) db'.pairings

-- The pairing under verification, not over, of the secret and the ID.
abbrev pub IsReviewable : ℕ → Bytes → Bytes → Pairing → Type 0
IsReviewable now hash id p =
    (p.secret_hash ≡ hash) × (p.id ≡ id) × (is_verification p.state ≡ true) × (now < p.expires_at)

-- The pairing was claimed for a device of the key.
abbrev pub IsForKey : Bytes → Pairing → Db → Type 0
IsForKey key p db =
    (d : Device) × Among d db.devices × (p.device_id ≡ some d.id) × (d.identity.key_id ≡ key)

abbrev is_approved : Approval → Bool
is_approved approved = true
is_approved approval_expired = false

module _ (service : Service) (call : Call) where
  open service use {engine, lib}
  open call use {now}

  approve_device_ok :
      (p : Pairing) (db db' : Db) {o : Approval}
      → approve_device service call p db ≡ ok (o, db')
      → IsApproved now p db db'
  unfolding approve_device
  approve_device_ok p db db' e = elim (Bool-cases (is_some p.connector_reviewed_at)) [
    | inl before ↦
        let (_, s) = ok_injective (rw before at e) in inl (before, ap (λ (x : Db). x.pairings) s)
    | inr new ↦
        let (_, m1, f1, e1) =
          bind_ok (Store.save_pairing engine (reviewed_at now p)) _ db (rw new at e) in
        let (_, m2, f2, e2) = bind_ok _ _ m1 e1 in
        let (_, s) = ok_injective e2 in
        let stays : m1.pairings ≡ db'.pairings =
          sym (pairings-append_audit_event engine _ m1 m2 f2) ∙ ap (λ (x : Db). x.pairings) s in
        inr (
          subst (Among (reviewed_at now p)) stays
            (save_pairing-Among engine (reviewed_at now p) db m1 f1))
  ]

  approve_live_ok :
      (key : Bytes) (p : Pairing) (device : Option Bytes) (db db' : Db) {o : Approval}
      → p.device_id ≡ device
      → approve_live service call key p device db ≡ ok (o, db')
      → (is_verification p.state ≡ true) × IsForKey key p db × IsApproved now p db db'
  unfolding approve_live Store.device_by_id_for_update
  approve_live_ok key p none db db' q e = absurd (ground arith)
  approve_live_ok key p (some id) db db' q e =
      let (fit, e1) = refuse_ok _ _ _ db e in
      let found : Db → Answer Device = λ db. engine.first (λ d. d.id == id) db.devices in
      let (d, m1, f1, e2) = bind_ok (Store.read found) _ db e1 in
      let (rows_are, s) = read_ok found db f1 in
      let (m, here) = engine.first_rows (λ d. d.id == id) db.devices d rows_are in
      let (shown, e3) = refuse_ok _ _ _ m1 e2 in
      (
        ground (arith, fit),
        (
          d,
          m,
          q ∙ ap some (sym (eq_sound d.id id here)),
          eq_sound d.identity.key_id key (ground (arith, shown)),
        ),
        subst (λ x. IsApproved now p x db') (sym s) (approve_device_ok p m1 db' e3),
      )

  not_over :
      (p : Pairing) (db db' : Db) {o : Approval}
      → approve_over service call p db ≡ ok (o, db')
      → is_approved o ≡ false
  unfolding approve_over
  not_over p db db' e = elim (Bool-cases (is_completed p.state)) [
    | inl done ↦ absurd (ground (arith, rw done at e))
    | inr live ↦
        let (_, m, _, e1) =
          bind_ok (Store.save_pairing engine (record p { state = PairingState.expired }))
            (λ _. pure approval_expired) db (rw live at e) in
        rw (← (ok_injective e1).0) refl
  ]

-- When the transaction of `ApprovePairing` approves: the tables hold the pairing of the secret's hash and
-- the ID, under verification and not over, and a device with the key that the connector was shown,
-- which is the one that the pairing was claimed for. The pairing had its approval before, and no pairing
-- changed, or it is stored with the time of this one, and otherwise as it was.
pub approved_pairing :
    (service : Service) (call : Call) (id secret key : Bytes) (db db' : Db)
    → approve_transaction service call id secret key db ≡ ok (approved, db')
    → (p : Pairing) × Among p db.pairings
      × IsReviewable call.now (hash_secret service.lib secret) id p
      × IsForKey key p db
      × IsApproved call.now p db db'
unfolding approve_transaction Store.pairing_by_secret_for_update
approved_pairing service call id secret key db db' e =
    let hash = hash_secret service.lib secret in
    let found : Db → Answer Pairing =
      λ db. service.engine.first (λ p. p.secret_hash == hash) db.pairings in
    let (p, m1, f1, e1) = bind_ok (Store.read found) _ db e in
    let (rows_are, s) = read_ok found db f1 in
    let (m, here) = service.engine.first_rows (λ p. p.secret_hash == hash) db.pairings p rows_are in
    let (own, e2) = refuse_ok _ _ _ m1 e1 in
    elim (Bool-cases (is_expired p.state)) [
      | inl ended ↦ absurd (ground (arith, rw ended at e2))
      | inr open_still ↦ elim (Bool-cases (not (ltb call.now p.expires_at))) [
        | inl over ↦
            absurd (ground (arith, not_over service call p m1 db' (rw (open_still, over) at e2)))
        | inr live ↦
            let (fit, for_key, stored) =
              approve_live_ok service call key p p.device_id m1 db' refl
                (rw (open_still, live) at e2) in
            (
              p,
              m,
              (
                eq_sound p.secret_hash hash here,
                eq_sound p.id id (ground (arith, own)),
                fit,
                ground (arith, live),
              ),
              subst (IsForKey key p) (sym s) for_key,
              subst (λ x. IsApproved call.now p x db') (sym s) stored,
            )
      ]
    ]
