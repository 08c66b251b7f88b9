-- ===== src/Connectors/Pairing/Confirmed.antt =====
-- What must hold for `ConfirmPairing` of internal/connectors/service.go to hand out a credential.
use openremotecode_api.Prelude.{
  ℕ, ◌≡◌, refl, ◌<◌, true, false, ◌||◌, ◌&&◌, Option, none, some, arith, is_some, [], sym, subst,
  List, Bool, nat_eq_iff, length, ◌+◌, ◌∙◌, ap,
}
use openremotecode_api.Bytes.{Bytes, ◌==◌, text, eq_sound, eq_refl, holds, hmac_equal}
use openremotecode_api.Database.{Answer}
use openremotecode_api.Database.Rows.{Among, any}
use openremotecode_api.Connectors.Errors.{ok}
use openremotecode_api.Connectors.Types.{
  PairingState, pending, verification, confirmed, completed, expired, Pairing, Device, Connector,
  is_completed, is_verification,
}
use openremotecode_api.Connectors.Tx.{Db, bind_ok, refuse_ok, check_ok, ok_injective}
use openremotecode_api.Connectors.Store
use openremotecode_api.Connectors.Store.Statements.{
  read_ok, devices-upsert_trust, devices-save_connector, devices-save_pairing,
  devices-append_audit_event,
}
use openremotecode_api.Connectors.Store.Saved.{any-Among}
use openremotecode_api.Connectors.Service.{Service, Call}
use openremotecode_api.Connectors.Tokens.{derive_device_credential, valid_token, hash_secret}
use openremotecode_api.Connectors.Library.{Library}
use openremotecode_api.Connectors.Credential.Rotation.{is_until, is_until_lem, save_device_ok}
use openremotecode_api.Connectors.Tokens.Issued.{valid_token-derived}
use openremotecode_api.Connectors.Pairing.Confirm.{
  ConfirmPairingResult, confirm_transaction, choose, confirm_first, confirm_again, complete,
  bytes_of,
}

-- The pairing was claimed by the account for the device, is not over, and is completed already or
-- under verification with the connector's approval.
abbrev pub IsConfirmable : ℕ → Bytes → Bytes → Pairing → Type 0
IsConfirmable now user device p =
    (p.user_id ≡ some user)
    × (p.device_id ≡ some device)
    × (now < p.expires_at)
    × ((is_completed p.state || (is_verification p.state && is_some p.connector_reviewed_at))
        ≡ true)

-- The device, with the hash as that of its credential, and the end of it.
abbrev pub bearing : Bytes → Bytes → ℕ → Device → Bool
bearing id hash until d =
    (d.id == id) && (holds d.credential_hash hash && is_until d.credential_expires_at until)

-- A credential that `validToken` accepts, of the device: the table has its hash and its end there.
abbrev pub IsIssuedTo : Library → Bytes → ConfirmPairingResult → Db → Type 0
IsIssuedTo lib device r db =
    (r.device_id ≡ device)
    × (valid_token r.device_credential (text "ord_") ≡ true)
    × (any (bearing device (hash_secret lib r.device_credential) r.device_credential_expires_at)
          db.devices
        ≡ true)

holds_sound : (o : Option Bytes) (b : Bytes) → holds o b ≡ true → o ≡ some b
holds_sound none b e = absurd (ground arith)
holds_sound (some a) b e = ap some (eq_sound a b e)

hmac_equal-holds :
    (a : Bytes) (o : Option Bytes) → length a ≡ 32 → hmac_equal a o ≡ true → holds o a ≡ true
unfolding ◌==◌ hmac_equal
hmac_equal-holds a none size h =
    let empty = eq_sound a [] h in absurd (ground (arith, sym size ∙ ap length empty))
hmac_equal-holds a (some b) size h = rw (eq_sound a b h) (eq_refl b)

module _ (service : Service) (call : Call) where
  open service use {engine, lib}
  open call use {now}

  derived_ok :
      (seed : Bytes)
      → valid_token (derive_device_credential lib service.device_credential_key seed) (text "ord_")
        ≡ true
  derived_ok seed = (valid_token-derived lib [] service.device_credential_key seed).1

  confirm_again_ok :
      (u : Bytes) (p : Pairing) (d : Device) (c : Bytes) (t : ℕ) (db db' : Db)
      {r : ConfirmPairingResult}
      → Among d db.devices
      → d.credential_expires_at ≡ some t
      → confirm_again service call u p d c t db ≡ ok (r, db')
      → IsIssuedTo lib d.id r db'
  unfolding confirm_again Store.connector_by_id_for_update hash_secret
  confirm_again_ok u p d c t db db' m until e =
      let credential =
        derive_device_credential lib service.device_credential_key
          (bytes_of p.device_credential_seed) in
      let hash = hash_secret lib credential in
      let (_, e1) = refuse_ok _ _ _ db e in
      let (held, e2) = refuse_ok _ _ _ db e1 in
      let of_connector : Db → Answer Connector =
        λ db. engine.first (λ x. x.id == c) db.connectors in
      let (k, mid, f, e3) = bind_ok (Store.read of_connector) _ db e2 in
      let (_, s) = read_ok of_connector db f in
      let (_, e4) = refuse_ok _ _ _ mid e3 in
      let (same, s') = ok_injective e4 in
      let has =
        hmac_equal-holds hash d.credential_hash (lib.length-sha256 credential)
          (ground (arith, held)) in
      let there =
        any-Among (bearing d.id hash t) db.devices m
          (ground (arith, eq_refl d.id, has, is_until_lem d.credential_expires_at t until)) in
      subst (λ r. IsIssuedTo lib d.id r db') same
        (
          refl,
          derived_ok (bytes_of p.device_credential_seed),
          subst (λ (x : Db). any (bearing d.id hash t) x.devices ≡ true) (s ∙ s') there,
        )

  complete_ok :
      (u : Bytes) (p : Pairing) (d : Device) (c : Connector) (seed : Bytes) (db db' : Db)
      {r : ConfirmPairingResult}
      → complete service call u p d c seed db ≡ ok (r, db')
      → IsIssuedTo lib d.id r db'
  unfolding complete
  complete_ok u p d c seed db db' {r} e =
      let credential = derive_device_credential lib service.device_credential_key seed in
      let hash = hash_secret lib credential in
      let until = now + service.device_credential_lifetime in
      let devices : Db → List Device = λ db. db.devices in
      let (_, m1, f1, e1) = bind_ok _ _ db e in
      let (_, m2, f2, e2) = bind_ok _ _ m1 e1 in
      let (_, m3, f3, e3) = bind_ok _ _ m2 e2 in
      let (_, m4, f4, e4) = bind_ok _ _ m3 e3 in
      let (_, m5, f5, e5) = bind_ok _ _ m4 e4 in
      let (same, s) = ok_injective e5 in
      let kept : m1.devices ≡ db'.devices =
        sym (devices-upsert_trust engine m1 _ f2)
        ∙ sym (devices-save_connector engine m2 _ f3)
        ∙ sym (devices-save_pairing engine m3 _ f4)
        ∙ sym (devices-append_audit_event engine m4 _ f5)
        ∙ ap devices s in
      let there =
        save_device_ok service call (bearing d.id hash until) _ db m1
          (ground (arith, eq_refl d.id, eq_refl hash, (nat_eq_iff until until).1 refl)) f1 in
      subst (λ r. IsIssuedTo lib d.id r db') same
        (refl, derived_ok seed, subst (λ t. any (bearing d.id hash until) t ≡ true) kept there)

  confirm_first_ok :
      (u : Bytes) (p : Pairing) (d : Device) (db db' : Db) {r : ConfirmPairingResult}
      → confirm_first service call u p d db ≡ ok (r, db')
      → IsIssuedTo lib d.id r db'
        × ((is_verification p.state && is_some p.connector_reviewed_at) ≡ true)
  unfolding confirm_first
  confirm_first_ok u p d db db' e =
      let (_, e1) = refuse_ok _ _ _ db e in
      let (fit, e2) = refuse_ok _ _ _ db e1 in
      let (known, m1, _, e3) = bind_ok _ _ db e2 in
      let ((k, rest), m2, _, e4) = bind_ok _ _ m1 e3 in
      let ((seed, left), m3, _, e5) = bind_ok _ _ m2 e4 in
      (complete_ok u p d k seed m3 db' e5, ground (arith, fit))

  choose_ok :
      (u : Bytes) (p : Pairing) (d : Device) (st : PairingState) (c : Option Bytes) (t : Option ℕ)
      (db db' : Db) {r : ConfirmPairingResult}
      → Among d db.devices
      → d.credential_expires_at ≡ t
      → choose service call u p d st c t db ≡ ok (r, db')
      → IsIssuedTo lib d.id r db'
        × ((is_completed st || (is_verification p.state && is_some p.connector_reviewed_at)) ≡ true)
  choose_ok u p d completed (some c) (some t) db db' m q e =
      (confirm_again_ok u p d c t db db' m q e, refl)
  choose_ok u p d completed (some c) none db db' m q e = ((confirm_first_ok u p d db db' e).0, refl)
  choose_ok u p d completed none t db db' m q e = ((confirm_first_ok u p d db db' e).0, refl)
  choose_ok u p d pending c t db db' m q e = confirm_first_ok u p d db db' e
  choose_ok u p d verification c t db db' m q e = confirm_first_ok u p d db db' e
  choose_ok u p d confirmed c t db db' m q e = confirm_first_ok u p d db db' e
  choose_ok u p d expired c t db db' m q e = confirm_first_ok u p d db db' e

-- When the transaction of `ConfirmPairing` succeeds: the authorizer accepted the account; the tables
-- hold the pairing of that ID, claimed by the account for the device, not over, and completed already
-- or approved by its connector; the device of that ID is the account's and is not revoked; and the
-- credential handed out is a token that `validToken` accepts, and its hash and its end are those that
-- the tables then hold for that device.
pub confirmed_pairing :
    (service : Service) (call : Call) (user pairing device : Bytes) (db db' : Db)
    (r : ConfirmPairingResult)
    → confirm_transaction service call user pairing device db ≡ ok (r, db')
    → (call.authorize_account user ≡ none)
      × ((p : Pairing) × Among p db.pairings
          × (p.id ≡ pairing)
          × IsConfirmable call.now user device p)
      × ((d : Device) × Among d db.devices
          × (d.id ≡ device)
          × (d.user_id ≡ user)
          × (is_some d.revoked_at ≡ false))
      × IsIssuedTo service.lib device r db'
unfolding confirm_transaction Store.pairing_by_id_for_update Store.device_by_id_for_update
confirmed_pairing service call user pairing device db db' r e =
    let of_pairing : Db → Answer Pairing =
      λ db. service.engine.first (λ p. p.id == pairing) db.pairings in
    let of_device : Db → Answer Device =
      λ db. service.engine.first (λ d. d.id == device) db.devices in
    let (account, e1) = check_ok _ _ db e in
    let (p, m1, f1, e2) = bind_ok (Store.read of_pairing) _ db e1 in
    let (q1, s1) = read_ok of_pairing db f1 in
    let (a1, h1) = service.engine.first_rows (λ p. p.id == pairing) db.pairings p q1 in
    let (live, e3) = refuse_ok _ _ _ m1 e2 in
    let (claimed, e4) = refuse_ok _ _ _ m1 e3 in
    let (d, m2, f2, e5) = bind_ok (Store.read of_device) _ m1 e4 in
    let (q2, s2) = read_ok of_device m1 f2 in
    let (a2, h2) = service.engine.first_rows (λ d. d.id == device) m1.devices d q2 in
    let (own, e6) = refuse_ok _ _ _ m2 e5 in
    let (issued, stage) =
      choose_ok service call user p d p.state p.connector_id d.credential_expires_at m2 db'
        (subst (λ (x : Db). Among d x.devices) s2 a2) refl e6 in
    let here = eq_sound d.id device h2 in
    (
      account,
      (
        p,
        a1,
        eq_sound p.id pairing h1,
        (
          holds_sound p.user_id user (ground (arith, claimed)),
          holds_sound p.device_id device (ground (arith, claimed)),
          ground (arith, live),
          stage,
        ),
      ),
      (
        d,
        subst (λ (x : Db). Among d x.devices) (sym s1) a2,
        here,
        eq_sound d.user_id user (ground (arith, own)),
        ground (arith, own),
      ),
      subst (λ x. IsIssuedTo service.lib x r db') here issued,
    )
