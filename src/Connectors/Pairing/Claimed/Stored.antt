-- ===== src/Connectors/Pairing/Claimed/Stored.antt =====
-- What the accepting branch of `ClaimPairing` of internal/connectors/service.go stores: the pairing, and the
-- device of `deviceForClaim`.
use openremotecode_api.Prelude.{
  ◌≡◌, refl, Bool, true, ◌&&◌, Option, none, some, arith, List, [], sym, subst, ap, ◌∙◌,
}
use openremotecode_api.Bytes.{Bytes, text, ◌==◌, eq_refl}
use openremotecode_api.Database.{Answer}
use openremotecode_api.Database.Rows.{Among, any, Among-last}
use openremotecode_api.Connectors.Errors.{ok}
use openremotecode_api.Connectors.Types.{Pairing, verification, is_pending, Device}
use openremotecode_api.Connectors.Tx.{Db, lift, optional, bind_ok, refuse_ok, ok_injective}
use openremotecode_api.Connectors.Schemas.{device_schema}
use openremotecode_api.Connectors.Store
use openremotecode_api.Connectors.Store.Statements.{
  write_ok, devices-save_pairing, devices-append_audit_event,
}
use openremotecode_api.Connectors.Store.Saved.{
  any-Among, save_pairing-Among, pairings-append_audit_event, known-Among,
}
use openremotecode_api.Connectors.Service.{Service, Call}
use openremotecode_api.Connectors.Tokens.{issue_identifier}
use openremotecode_api.Connectors.Credential.Rotation.{lift_ok}
use openremotecode_api.Connectors.Pairing.Claim.{
  ClaimPairingInput, ClaimOutcome, claimed, claim_live, device_for_claim,
}

-- The pairing as the claim leaves it: only its state, its account and its device are new.
abbrev pub claimed_by : Bytes → Bytes → Pairing → Pairing
claimed_by user device p = record p {
  state = verification;
  user_id = some user;
  device_id = some device;
}

-- The device of the ID, of the account and with the public key.
abbrev pub is_held : Bytes → Bytes → Bytes → Device → Bool
is_held id user key d = (d.id == id) && ((d.user_id == user) && (d.identity.public_key == key))

abbrev pub pairing_of : ClaimOutcome → Bytes
pairing_of (claimed r) = r.pairing_id
pairing_of _ = []

abbrev pub device_of : ClaimOutcome → Bytes
device_of (claimed r) = r.device_id
device_of _ = []

module _ (service : Service) (call : Call) where
  open service use {engine, lib}
  open call use {now}

  device_for_claim_ok :
      (input : ClaimPairingInput) (name : Bytes) (o : Option Device) (db db' : Db) {d : Device}
      → ((known : Device) → o ≡ some known → Among known db.devices)
      → device_for_claim service call input name o db ≡ ok (d, db')
      → (any (is_held d.id input.user_id input.identity.public_key) db'.devices ≡ true)
        × (db'.pairings ≡ db.pairings)
  unfolding device_for_claim Store.create_device
  device_for_claim_ok input name (some known) db db' {d} there e =
      let (own, e1) = refuse_ok _ _ _ db e in
      let (same, s) = ok_injective e1 in
      let held : is_held known.id input.user_id input.identity.public_key known ≡ true =
        ground (arith, own, eq_refl known.id) in
      (
        subst
            (λ (d : Device).
              any (is_held d.id input.user_id input.identity.public_key) db'.devices ≡ true)
            same
            (subst
              (λ (x : Db).
                any (is_held known.id input.user_id input.identity.public_key) x.devices ≡ true)
              s (any-Among _ db.devices (there known refl) held)),
        ap (λ (x : Db). x.pairings) (sym s),
      )
  device_for_claim_ok input name none db db' {d} there e =
      let ((id, left), m1, f1, e1) =
        bind_ok (lift (issue_identifier call.random (text "dev_"))) _ db e in
      let (_, s0) = lift_ok (issue_identifier call.random (text "dev_")) db m1 f1 in
      let made : Device = record {
        id = id;
        user_id = input.user_id;
        name = name;
        identity = input.identity;
        credential_hash = none;
        credential_expires_at = none;
        pending_credential_hash = none;
        pending_credential_expires_at = none;
        created_at = now;
        activated_at = none;
        revoked_at = none;
      } in
      let create : Db → Answer (List Device) = λ db. engine.create device_schema made db.devices in
      let set : Db → List Device → Db = λ db t. record db { devices = t } in
      let (_, m2, f2, e2) = bind_ok (Store.write create set) _ m1 e1 in
      let (same, s) = ok_injective e2 in
      let (t, q, s1) = write_ok create set m1 f2 in
      let (rows_are, _) = engine.create_rows device_schema made m1.devices t q in
      let held : is_held id input.user_id input.identity.public_key made ≡ true =
        ground (arith, eq_refl id, eq_refl input.user_id, eq_refl input.identity.public_key) in
      let there2 : any (is_held id input.user_id input.identity.public_key) t ≡ true =
        any-Among _ t (subst (Among made) (sym rows_are) (Among-last m1.devices made)) held in
      (
        subst
            (λ (d : Device).
              any (is_held d.id input.user_id input.identity.public_key) db'.devices ≡ true)
            same
            (subst
              (λ (x : Db).
                any (is_held id input.user_id input.identity.public_key) x.devices ≡ true)
              (s1 ∙ s) there2),
        ap (λ (x : Db). x.pairings) (sym (s1 ∙ s)) ∙ ap (λ (x : Db). x.pairings) (sym s0),
      )

  pub claim_live_stores :
      (input : ClaimPairingInput) (name : Bytes) (p : Pairing) (db db' : Db) {o : ClaimOutcome}
      → claim_live service call input name p db ≡ ok (o, db')
      → (is_pending p.state ≡ true)
        × (pairing_of o ≡ p.id)
        × Among (claimed_by input.user_id (device_of o) p) db'.pairings
        × (any (is_held (device_of o) input.user_id input.identity.public_key) db'.devices ≡ true)
  unfolding claim_live Store.device_by_key_id_for_update
  claim_live_stores input name p db db' {o} e =
      let of_key : Db → Answer Device =
        λ db. engine.first (λ d. d.identity.key_id == input.identity.key_id) db.devices in
      let (pending, e1) = refuse_ok _ _ _ db e in
      let (known, m1, f1, e2) = bind_ok (optional (Store.read of_key)) _ db e1 in
      let (d, m2, f2, e3) = bind_ok (device_for_claim service call input name known) _ m1 e2 in
      let saved = claimed_by input.user_id d.id p in
      let (_, m3, f3, e4) = bind_ok (Store.save_pairing engine saved) _ m2 e3 in
      let (_, m4, f4, e5) = bind_ok _ _ m3 e4 in
      let (same, s) = ok_injective e5 in
      let found =
        known-Among engine (λ d. d.identity.key_id == input.identity.key_id) known db m1 f1 in
      let (held, _) = device_for_claim_ok input name known m1 m2 found f2 in
      let kept : m2.devices ≡ db'.devices =
        sym (devices-save_pairing engine m2 saved f3)
        ∙ sym (devices-append_audit_event engine m3 _ f4)
        ∙ ap (λ (x : Db). x.devices) s in
      let stored = save_pairing-Among engine saved m2 m3 f3 in
      let stays : m3.pairings ≡ db'.pairings =
        sym (pairings-append_audit_event engine _ m3 m4 f4) ∙ ap (λ (x : Db). x.pairings) s in
      rw (← same) (
        ground (arith, pending),
        refl,
        subst (Among saved) stays stored,
        subst (λ t. any (is_held d.id input.user_id input.identity.public_key) t ≡ true) kept held,
      )
