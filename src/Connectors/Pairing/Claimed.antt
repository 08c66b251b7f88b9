-- ===== src/Connectors/Pairing/Claimed.antt =====
-- What `ClaimPairing` of internal/connectors/service.go stores when it accepts a code.
pub mod Stored
use openremotecode_api.Prelude.{
  ℕ, ◌≡◌, refl, ◌<◌, ◌≤◌, inl, inr, Bool, Bool-cases, true, false, ◌&&◌, Option, none, some, arith,
  ltb, List, [], sym, subst, ap, ◌∙◌,
}
use openremotecode_api.Bytes.{Bytes, text, ◌==◌, eq_sound, eq_refl}
use openremotecode_api.Database.{Answer}
use openremotecode_api.Database.Rows.{Among, any, Among-last}
use openremotecode_api.Connectors.Errors.{ok}
use openremotecode_api.Connectors.Types.{
  Pairing, PairingState, verification, is_pending, Device, Challenge,
}
use openremotecode_api.Connectors.Tx.{
  Db, pure, lift, optional, bind_ok, refuse_ok, ok_injective, optional_ok,
}
use openremotecode_api.Connectors.Schemas.{challenge_schema, device_schema}
use openremotecode_api.Connectors.Store
use openremotecode_api.Connectors.Store.Statements.{
  read_ok, write_ok, write-keeps, devices-save_pairing, devices-append_audit_event,
}
use openremotecode_api.Connectors.Store.Saved.{
  any-Among, save_pairing-Among, pairings-append_audit_event, known-Among, unset,
}
use openremotecode_api.Connectors.Service.{Service, Call}
use openremotecode_api.Connectors.Tokens.{hash_secret, hash_user_code, issue_identifier}
use openremotecode_api.Connectors.Credential.Rotation.{lift_ok}
use openremotecode_api.Connectors.Pairing.Claim.{
  ClaimPairingInput, ClaimPairingResult, ClaimOutcome, claimed, code_expired, claim_transaction,
  claim_found, claim_live, device_for_claim, check_claim_failures,
}
use openremotecode_api.Connectors.Pairing.Guesses.{check_claim_failures_ok}
use openremotecode_api.Connectors.Pairing.Claimed.Stored.{claimed_by, is_held, claim_live_stores}

abbrev pub is_claimed : ClaimOutcome → Bool
is_claimed (claimed r) = true
is_claimed _ = false

pub claim_live_claims :
    (service : Service) (call : Call) (input : ClaimPairingInput) (name : Bytes) (p : Pairing)
    (db db' : Db) {o : ClaimOutcome}
    → claim_live service call input name p db ≡ ok (o, db')
    → is_claimed o ≡ true
unfolding claim_live
claim_live_claims service call input name p db db' e =
    let (_, e1) = refuse_ok _ _ _ db e in
    let (known, mid1, _, e2) = bind_ok _ _ db e1 in
    let (device, mid2, _, e3) = bind_ok _ _ mid1 e2 in
    let (_, mid3, _, e4) = bind_ok _ _ mid2 e3 in
    let (_, mid4, _, e5) = bind_ok _ _ mid3 e4 in rw (← (ok_injective e5).0) refl

-- The pairing that the claim found by the code.
abbrev pub IsClaimable : Bytes → ℕ → Pairing → Type 0
IsClaimable code_hash now p =
    (p.user_code_hash ≡ code_hash) × (is_pending p.state ≡ true) × (now < p.expires_at)

claim_found_stores :
    (service : Service) (call : Call) (input : ClaimPairingInput) (name : Bytes)
    (o : Option Pairing) (db db' : Db) {r : ClaimPairingResult}
    → claim_found service call input name o db ≡ ok (claimed r, db')
    → (p : Pairing) × (o ≡ some p)
      × (call.now < p.expires_at)
      × (is_pending p.state ≡ true)
      × (r.pairing_id ≡ p.id)
      × Among (claimed_by input.user_id r.device_id p) db'.pairings
      × (any (is_held r.device_id input.user_id input.identity.public_key) db'.devices ≡ true)
unfolding claim_found
claim_found_stores service call input name none db db' e =
    let (_, mid, _, e1) = bind_ok _ _ db e in absurd (ground (arith, e1))
claim_found_stores service call input name (some p) db db' e =
    elim (Bool-cases (ltb call.now p.expires_at)) [
      | inl live ↦
          let (pending, this, stored, held) =
            claim_live_stores service call input name p db db' (rw live at e) in
          (p, refl, ground (arith, live), pending, this, stored, held)
      | inr over ↦
          let (_, mid, _, e1) =
            bind_ok (Store.save_pairing service.engine (record p { state = PairingState.expired }))
              (λ _. pure code_expired) db (rw over at e) in
          absurd (ground (arith, e1))
    ]

known_pairing :
    (service : Service) (hash : Bytes) (o : Option Pairing) (db db' : Db)
    → optional
        (Store.read (λ db. service.engine.first (λ p. p.user_code_hash == hash) db.pairings))
        db
      ≡ ok (o, db')
    → (p : Pairing) → o ≡ some p
    → Among p db.pairings × (p.user_code_hash ≡ hash)
known_pairing service hash o db db' e p same =
    let test : Pairing → Bool = λ p. p.user_code_hash == hash in
    let query : Db → Answer Pairing = λ db. service.engine.first test db.pairings in
    elim (optional_ok (Store.read query) db e) [
      | inl (missing, _) ↦ absurd (ground (arith, sym missing ∙ same))
      | inr (q, there, found) ↦
          let (answered, _) = read_ok query db found in
          let (m, h) = service.engine.first_rows test db.pairings q answered in
          let this : q ≡ p = ground (arith, sym there ∙ same) in
          subst (λ (p : Pairing). Among p db.pairings × (p.user_code_hash ≡ hash)) this
            (m, eq_sound q.user_code_hash hash h)
    ]

-- What comes before the outcome: the account is accepted, and the code is looked up in pairings that
-- are as they were.
pub claim_lookup :
    (service : Service) (call : Call) (input : ClaimPairingInput) (name code : Bytes) (db db' : Db)
    {outcome : ClaimOutcome}
    → claim_transaction service call input name code db ≡ ok (outcome, db')
    → (call.authorize_account input.user_id ≡ none)
      × ((o : Option Pairing) × (mid : Db) × ((p : Pairing)
            → o ≡ some p
            → Among p db.pairings
              × (p.user_code_hash ≡ hash_user_code service.lib service.pairing_code_key code))
          × (claim_found service call input name o mid ≡ ok (outcome, db')))
unfolding claim_transaction Store.challenge_for_update Store.pairing_by_code_for_update
    Store.save_challenge
claim_lookup service call input name code db db' e =
    let hash = hash_secret service.lib input.proof.challenge in
    let code_hash = hash_user_code service.lib service.pairing_code_key code in
    let rows_of : Db → List Pairing = λ db. db.pairings in
    let (account, e1) = refuse_ok _ _ _ db e in
    let found : Db → Answer Challenge =
      λ db. service.engine.first (λ c. c.hash == hash) db.challenges in
    let (c, m1, f1, e2) = bind_ok (Store.read found) _ db e1 in
    let (_, s1) = read_ok found db f1 in
    let (_, e3) = refuse_ok _ _ _ m1 e2 in
    let (_, m2, f2, e4) = bind_ok (check_claim_failures service call input.user_id) _ m1 e3 in
    let (s2, _, _) = check_claim_failures_ok service call input.user_id m1 m2 f2 in
    let used : Challenge = record c { used_at = some call.now } in
    let save : Db → Answer (List Challenge) =
      λ db. service.engine.save challenge_schema used db.challenges in
    let set : Db → List Challenge → Db = λ db t. record db { challenges = t } in
    let (_, m3, f3, e5) = bind_ok (Store.write save set) _ m2 e4 in
    let s3 : m3.pairings ≡ m2.pairings = write-keeps rows_of save set m2 (λ _ _. refl) f3 in
    let of_code : Db → Answer Pairing =
      λ db. service.engine.first (λ p. p.user_code_hash == code_hash) db.pairings in
    let (o, m4, f4, e6) =
      bind_ok (optional (Store.read of_code)) (claim_found service call input name) m3 e5 in
    (
      unset (call.authorize_account input.user_id) account,
      (
        o,
        m4,
        λ p is_p.
            let (among, of_hash) = known_pairing service code_hash o m3 m4 f4 p is_p in
            (subst (Among p) (s3 ∙ ap rows_of (sym (s1 ∙ s2))) among, of_hash),
        e6,
      ),
    )

-- When the transaction of `ClaimPairing` accepts a code: the authorizer accepted the account; the tables
-- held a pairing of the code's hash and the ID that is answered, pending and not over, and they now
-- hold it under verification, for the account that claimed it and the device that is answered, and
-- otherwise as it was, so that it has no approval of its connector that it did not have before; and that
-- device is there, it is the account's, and it has the public key of the claim.
pub claimed_pairing :
    (service : Service) (call : Call) (input : ClaimPairingInput) (name code : Bytes) (db db' : Db)
    (r : ClaimPairingResult)
    → claim_transaction service call input name code db ≡ ok (claimed r, db')
    → (call.authorize_account input.user_id ≡ none)
      × ((p : Pairing) × Among p db.pairings
          × IsClaimable (hash_user_code service.lib service.pairing_code_key code) call.now p
          × (r.pairing_id ≡ p.id)
          × Among (claimed_by input.user_id r.device_id p) db'.pairings)
      × (any (is_held r.device_id input.user_id input.identity.public_key) db'.devices ≡ true)
claimed_pairing service call input name code db db' r e =
    let (account, (o, mid, found, e1)) = claim_lookup service call input name code db db' e in
    let (p, is_p, live, pending, this, stored, held) =
      claim_found_stores service call input name o mid db' e1 in
    let (among, of_hash) = found p is_p in
    (account, (p, among, (of_hash, pending, live), this, stored), held)
