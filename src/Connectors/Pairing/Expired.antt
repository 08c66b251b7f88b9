-- ===== src/Connectors/Pairing/Expired.antt =====
-- What `ClaimPairing` of internal/connectors/service.go stores when it answers that the pairing has expired.
use openremotecode_api.Prelude.{
  ◌≡◌, refl, ◌≤◌, inl, inr, Bool-cases, Option, none, some, arith, ltb, subst,
}
use openremotecode_api.Bytes.{Bytes}
use openremotecode_api.Database.Rows.{Among}
use openremotecode_api.Connectors.Errors.{ok}
use openremotecode_api.Connectors.Types.{Pairing, PairingState}
use openremotecode_api.Connectors.Tx.{Db, pure, bind_ok, ok_injective}
use openremotecode_api.Connectors.Store
use openremotecode_api.Connectors.Store.Saved.{save_pairing-Among}
use openremotecode_api.Connectors.Service.{Service, Call}
use openremotecode_api.Connectors.Tokens.{hash_user_code}
use openremotecode_api.Connectors.Pairing.Claim.{
  ClaimPairingInput, code_expired, claim_transaction, claim_found,
}
use openremotecode_api.Connectors.Pairing.Claimed.{claim_live_claims, claim_lookup}

claim_found_expired :
    (service : Service) (call : Call) (input : ClaimPairingInput) (name : Bytes)
    (o : Option Pairing) (db db' : Db)
    → claim_found service call input name o db ≡ ok (code_expired, db')
    → (p : Pairing) × (o ≡ some p)
      × (p.expires_at ≤ call.now)
      × Among (record p { state = PairingState.expired }) db'.pairings
unfolding claim_found
claim_found_expired service call input name none db db' e =
    let (_, mid, _, e1) = bind_ok _ _ db e in absurd (ground (arith, e1))
claim_found_expired service call input name (some p) db db' e =
    elim (Bool-cases (ltb call.now p.expires_at)) [
      | inl live ↦
          absurd (ground (arith, claim_live_claims service call input name p db db' (rw live at e)))
      | inr over ↦
          let ended : Pairing = record p { state = PairingState.expired } in
          let (_, mid, f, e1) =
            bind_ok (Store.save_pairing service.engine ended) (λ _. pure code_expired) db
              (rw over at e) in
          let (_, s) = ok_injective e1 in
          (
            p,
            refl,
            ground (arith, over),
            subst (λ (x : Db). Among ended x.pairings) s
                (save_pairing-Among service.engine ended db mid f),
          )
    ]

-- When the transaction of `ClaimPairing` commits with the answer that the pairing has expired, the
-- authorizer accepted the account, and the tables held a pairing of the code's hash that was past its
-- end; they now hold it in the state `expired`, whatever its state was, a completed one included, and
-- otherwise as it was.
pub claim_expires_any_state :
    (service : Service) (call : Call) (input : ClaimPairingInput) (name code : Bytes) (db db' : Db)
    → claim_transaction service call input name code db ≡ ok (code_expired, db')
    → (call.authorize_account input.user_id ≡ none)
      × ((p : Pairing) × Among p db.pairings
          × (p.user_code_hash ≡ hash_user_code service.lib service.pairing_code_key code)
          × (p.expires_at ≤ call.now)
          × Among (record p { state = PairingState.expired }) db'.pairings)
claim_expires_any_state service call input name code db db' e =
    let (account, (o, mid, found, e1)) = claim_lookup service call input name code db db' e in
    let (p, is_p, over, stored) = claim_found_expired service call input name o mid db' e1 in
    let (among, of_hash) = found p is_p in (account, (p, among, of_hash, over, stored))
