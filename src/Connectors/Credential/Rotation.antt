-- ===== src/Connectors/Credential/Rotation.antt =====
-- The two halves of a device's rotation in internal/connectors/service.go: `RotateDeviceCredential`
-- leaves the current credential beside the new one, `ActivateDeviceCredential` replaces it.
use openremotecode_api.Prelude.{
  ℕ, ◌≡◌, ◌+◌, ◌<◌, ◌⊎◌, ◌||◌, refl, Bool, Bool-cases, inl, inr, true, false, ◌&&◌, Option, none,
  some, is_some, nat_eq, nat_eq_iff, ltb, arith, is_none, List, sym, ◌∙◌, subst, ap, All,
}
use openremotecode_api.Bytes.{Bytes, IsByte, ◌==◌, text, eq_refl, eq_sound, holds, hmac_equal}
use openremotecode_api.Database.{Answer}
use openremotecode_api.Database.Rows.{Among, any}
use openremotecode_api.Database.Watch.{any-put_self}
use openremotecode_api.Connectors.Errors.{Result, ok, err}
use openremotecode_api.Connectors.Types.{Device, AuditEvent, EventType}
use openremotecode_api.Connectors.Tx.{Db, lift, bind_ok, refuse_ok, check_ok, ok_injective}
use openremotecode_api.Connectors.Schemas.{device_schema, audit_event_schema}
use openremotecode_api.Connectors.Store
use openremotecode_api.Connectors.Store.Statements.{read_ok, write_ok}
use openremotecode_api.Connectors.Service.{Service, Call}
use openremotecode_api.Connectors.Tokens.{hash_secret, issue_token, valid_token}
use openremotecode_api.Connectors.Tokens.Issued.{valid_token-issue_token}
use openremotecode_api.Connectors.Credential.{lives, RotationResult}
use openremotecode_api.Connectors.Credential.DeviceCredential.{
  rotate_device_transaction, activate_device_transaction, commit_device_rotation, live_until,
  record_device_event,
}

-- The device has the credential, and the other one pending.
abbrev pub rotating : Bytes → Bytes → Bytes → Device → Bool
rotating id current next d =
    (d.id == id) && (holds d.credential_hash current && holds d.pending_credential_hash next)

abbrev pub is_until : Option ℕ → ℕ → Bool
is_until none t = false
is_until (some s) t = nat_eq s t

pub is_until_lem : (o : Option ℕ) (t : ℕ) → o ≡ some t → is_until o t ≡ true
is_until_lem o t h = rw h ((nat_eq_iff t t).1 refl)

-- The device has the credential, which ends at the time, and none pending.
abbrev pub settled : Bytes → Bytes → ℕ → Device → Bool
settled id current until d =
    (d.id == id)
    && (holds d.credential_hash current
        && (is_until d.credential_expires_at until && is_none d.pending_credential_hash))

-- The device of the account, activated and not revoked.
abbrev pub IsInUse : Bytes → Bytes → Device → Type 0
IsInUse user device d =
    (d.id ≡ device)
    × (d.user_id ≡ user)
    × (is_none d.activated_at ≡ false)
    × (is_some d.revoked_at ≡ false)

module _ (service : Service) (call : Call) where
  open service use {engine, lib}
  open call use {now}

  pub record_device_event_ok :
      (d : Device) (e : EventType) (db db' : Db) {u : Unit {0}}
      → record_device_event service call d e db ≡ ok (u, db')
      → db.devices ≡ db'.devices
  unfolding record_device_event Store.append_audit_event
  record_device_event_ok d e db db' h =
      let (t, _, s) =
        write_ok
          (λ x.
            engine.create audit_event_schema
              (record {
                user_id = some d.user_id;
                device_id = some d.id;
                connector_id = none;
                pairing_id = none;
                event_type = e;
                occurred_at = now;
              })
              x.audit_events)
          (λ db (t : List AuditEvent). record db { audit_events = t }) db h in
      ap (λ (d : Db). d.devices) s

  pub save_device_ok :
      (q : Device → Bool) (d : Device) (db db' : Db) {u : Unit {0}}
      → q d ≡ true
      → Store.save_device engine d db ≡ ok (u, db')
      → any q db'.devices ≡ true
  unfolding Store.save_device
  save_device_ok q d db db' h e =
      let save : Db → Answer (List Device) = λ db. engine.save device_schema d db.devices in
      let (t, r, s) = write_ok save (λ db t. record db { devices = t }) db e in
      subst (λ (x : Db). any q x.devices ≡ true) s
        (subst (λ t. any q t ≡ true) (sym (engine.save_rows device_schema d db.devices t r))
          (any-put_self q device_schema.same_key d db.devices h))

pub lift_ok :
    {A : Type 0} (r : Result A) (db db' : Db) {a : A}
    → lift r db ≡ ok (a, db')
    → (r ≡ ok a) × (db ≡ db')
lift_ok (ok a) db db' e = ground arith
lift_ok (err x) db db' e = absurd (ground arith)

-- When the transaction of `RotateDeviceCredential` succeeds on random bytes, the new credential is a
-- token that `validToken` accepts, and the tables hold the device with the credential it called with
-- still current, and the new one pending.
pub device_rotation :
    (service : Service) (call : Call) (user session device credential : Bytes) (db db' : Db)
    (r : RotationResult)
    → All IsByte call.random
    → rotate_device_transaction service call user session device credential db ≡ ok (r, db')
    → (valid_token r.credential (text "ord_") ≡ true)
      × (any
            (rotating device
              (hash_secret service.lib credential)
              (hash_secret service.lib r.credential))
            db'.devices
          ≡ true)
unfolding rotate_device_transaction Store.device_by_credential_for_update
device_rotation service call user session device credential db db' r bytes e =
    let hash = hash_secret service.lib credential in
    let found : Db → Answer Device =
      λ db. service.engine.first (λ d. holds d.credential_hash hash) db.devices in
    let (d, m1, f1, e1) = bind_ok (Store.read found) _ db e in
    let (q1, s1) = read_ok found db f1 in
    let (_, here) = service.engine.first_rows (λ d. holds d.credential_hash hash) db.devices d q1 in
    let (own, e2) = refuse_ok _ _ _ m1 e1 in
    let (_, e3) = check_ok _ _ m1 e2 in
    let (_, e4) = check_ok _ _ m1 e3 in
    let ((issued, rest), m2, f2, e5) =
      bind_ok (lift (issue_token call.random (text "ord_"))) _ m1 e4 in
    let (made, _) = lift_ok (issue_token call.random (text "ord_")) m1 m2 f2 in
    let pending : Device = record d {
      pending_credential_hash = some (hash_secret service.lib issued);
      pending_credential_expires_at = some (call.now + service.credential_activation_window);
    } in
    let (_, m3, f3, e6) = bind_ok (Store.save_device service.engine pending) _ m2 e5 in
    let (_, m4, f4, e7) = bind_ok (record_device_event service call d _) _ m3 e6 in
    let (same, s5) = ok_injective e7 in
    let there =
      save_device_ok service call (rotating device hash (hash_secret service.lib issued)) pending m2
        m3 (ground (arith, here, own, eq_refl (hash_secret service.lib issued))) f3 in
    let kept = record_device_event_ok service call d _ m3 m4 f4 in
    (
      subst (λ (x : RotationResult). valid_token x.credential (text "ord_") ≡ true) same
          (valid_token-issue_token call.random (text "ord_") issued rest bytes made).0,
      subst
          (λ (x : RotationResult).
            any (rotating device hash (hash_secret service.lib x.credential)) db'.devices ≡ true)
          same
          (subst (λ t. any (rotating device hash (hash_secret service.lib issued)) t ≡ true)
            (kept ∙ ap (λ (x : Db). x.devices) s5) there),
    )

live_until_ok :
    (service : Service) (call : Call) (o : Option ℕ) (db db' : Db) {until : ℕ}
    → live_until service call o db ≡ ok (until, db')
    → (o ≡ some until) × (call.now < until) × (db ≡ db')
live_until_ok service call none db db' e = absurd (ground arith)
live_until_ok service call (some t) db db' e = elim (Bool-cases (ltb call.now t)) [
  | inl live ↦
      let (same, s) = ok_injective (rw live at e) in
      (ap some same, subst (λ t. call.now < t) same (ground (arith, live)), s)
  | inr over ↦ absurd (ground (arith, rw over at e))
]

commit_device_rotation_ok :
    (service : Service) (call : Call) (hash : Bytes) (d : Device) (db db' : Db) {until : ℕ}
    → commit_device_rotation service call hash d db ≡ ok (until, db')
    → (hmac_equal hash d.pending_credential_hash ≡ true)
      × (lives d.pending_credential_expires_at call.now ≡ true)
      × (until ≡ call.now + service.device_credential_lifetime)
      × (any (settled d.id hash until) db'.devices ≡ true)
unfolding commit_device_rotation
commit_device_rotation_ok service call hash d db db' {until} e =
    let (fit, e1) = refuse_ok _ _ _ db e in
    let expires = call.now + service.device_credential_lifetime in
    let current : Device = record d {
      credential_hash = some hash;
      credential_expires_at = some expires;
      pending_credential_hash = none;
      pending_credential_expires_at = none;
    } in
    let (_, m1, f1, e2) = bind_ok (Store.save_device service.engine current) _ db e1 in
    let (_, m2, f2, e3) = bind_ok (record_device_event service call d _) _ m1 e2 in
    let (same, s3) = ok_injective e3 in
    let kept = record_device_event_ok service call d _ m1 m2 f2 in
    let there =
      save_device_ok service call (settled d.id hash expires) current db m1
        (ground (arith, eq_refl d.id, eq_refl hash, (nat_eq_iff expires expires).1 refl)) f1 in
    (
      ground (arith, fit),
      ground (arith, fit),
      sym same,
      subst (λ t. any (settled d.id hash t) db'.devices ≡ true) same
          (subst (λ t. any (settled d.id hash expires) t ≡ true)
            (kept ∙ ap (λ (x : Db). x.devices) s3) there),
    )

-- When the transaction of `ActivateDeviceCredential` succeeds, the authorizers accepted the account and
-- the session, and the tables hold the device of that ID, of that account, activated and not
-- revoked. Either the credential was its current one already: then the devices are left as they are, and
-- the time returned is the end of that credential, not yet reached. Or it was its pending one, whose time
-- had not run out: then the tables afterwards hold the device with it as the current one and none
-- pending, its end there is the time returned, and that is a lifetime of a device credential from now.
pub device_activation :
    (service : Service) (call : Call) (user session device credential : Bytes) (db db' : Db)
    (until : ℕ)
    → activate_device_transaction service call user session device credential db ≡ ok (until, db')
    → (call.authorize_account user ≡ none)
      × (call.authorize_session user session ≡ none)
      × ((d : Device) × Among d db.devices
          × IsInUse user device d
          × (((hmac_equal (hash_secret service.lib credential) d.credential_hash ≡ true)
                × (d.credential_expires_at ≡ some until)
                × (call.now < until)
                × (db.devices ≡ db'.devices))
              ⊎ ((hmac_equal (hash_secret service.lib credential) d.pending_credential_hash ≡ true)
                  × (lives d.pending_credential_expires_at call.now ≡ true)
                  × (until ≡ call.now + service.device_credential_lifetime)
                  × (any (settled device (hash_secret service.lib credential) until) db'.devices
                      ≡ true))))
unfolding activate_device_transaction Store.device_by_any_credential_for_update
device_activation service call user session device credential db db' until e =
    let hash = hash_secret service.lib credential in
    let devices : Db → List Device = λ db. db.devices in
    let found : Db → Answer Device = λ db.
      service.engine.first
        (λ d. holds d.credential_hash hash || holds d.pending_credential_hash hash) db.devices in
    let (d, m1, f1, e1) = bind_ok (Store.read found) _ db e in
    let (q1, s1) = read_ok found db f1 in
    let (among, _) = service.engine.first_rows _ db.devices d q1 in
    let (own, e2) = refuse_ok _ _ _ m1 e1 in
    let (account, e3) = check_ok _ _ m1 e2 in
    let (signed, e4) = check_ok _ _ m1 e3 in
    let here = eq_sound d.id device (ground (arith, own)) in
    let theirs = eq_sound d.user_id user (ground (arith, own)) in
    (
      subst (λ u. call.authorize_account u ≡ none) theirs account,
      subst (λ u. call.authorize_session u session ≡ none) theirs signed,
      (
        d,
        among,
        (here, theirs, ground (arith, own), ground (arith, own)),
        elim (Bool-cases (hmac_equal hash d.credential_hash)) [
          | inl current ↦
              let (ends, live, s2) =
                live_until_ok service call d.credential_expires_at m1 db' (rw current at e4) in
              inl (current, ends, live, ap devices (s1 ∙ s2))
          | inr other ↦
              let (held, live, ends, there) =
                commit_device_rotation_ok service call hash d m1 db' (rw other at e4) in
              inr (
                held,
                live,
                ends,
                subst (λ x. any (settled x hash until) db'.devices ≡ true) here there,
              )
        ],
      ),
    )
