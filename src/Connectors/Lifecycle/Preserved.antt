-- ===== src/Connectors/Lifecycle/Preserved.antt =====
-- Every step keeps the invariant, so it holds in every reachable database.
use openremotecode_api.Prelude.{
  ℕ, refl, Option, Bool-cases, inl, inr, is_some, ◌&&◌, ◌||◌, not, ltb, length, nat_eq,
}
use openremotecode_api.Bytes.{Bytes, text}
use openremotecode_api.Connectors.Errors.{Error, Result, ok, err}
use openremotecode_api.Connectors.Types.{
  Purpose, Revocation, Role, is_for_connector, is_for_device, is_empty,
}
use openremotecode_api.Connectors.Tx.{
  Tx, Db, within_transaction, committed, reported, attempt, Result-cases,
}
use openremotecode_api.Connectors.Tokens.{
  random_base64, issue_identifier, issue_token, issue_user_code, normalize_name,
  normalize_user_code, valid_token, valid_identity, verify_identity_proof,
}
use openremotecode_api.Connectors.Service.{Service, Call}
use openremotecode_api.Connectors.Pairing.Begin.{
  BeginPairingInput, no_user, issue_challenge, begin_pairing,
}
use openremotecode_api.Connectors.Pairing.Claim.{ClaimPairingInput, claim_pairing}
use openremotecode_api.Connectors.Pairing.Confirm.{confirm_pairing}
use openremotecode_api.Connectors.Pairing.Poll.{poll_pairing}
use openremotecode_api.Connectors.Pairing.Approve.{approve_pairing, cancel_pairing}
use openremotecode_api.Connectors.Credential.DeviceCredential.{
  bad_device_request, rotate_device_credential, activate_device_credential,
}
use openremotecode_api.Connectors.Credential.ConnectorCredential.{
  rotate_connector_credential, activate_connector_credential,
}
use openremotecode_api.Connectors.Revoke.{
  revoke_connector, revoke_account_connector, revoke_account_device, rename_account_connector,
  announce,
}
use openremotecode_api.Connectors.Ticket.{
  issue_browser_ticket, issue_connector_ticket, consume_relay_ticket, issue_ticket, Holder,
}
use openremotecode_api.Connectors.Lifecycle.{Watch, Inv, Yields, Anything}
use openremotecode_api.Connectors.Lifecycle.Creates
use openremotecode_api.Connectors.Lifecycle.Pairings
use openremotecode_api.Connectors.Lifecycle.Confirmations
use openremotecode_api.Connectors.Lifecycle.Reviews
use openremotecode_api.Connectors.Lifecycle.Credentials
use openremotecode_api.Connectors.Lifecycle.Revocations
use openremotecode_api.Connectors.Lifecycle.Tickets

module _ {w : Watch} {A : Type 0} where
  -- A transaction that commits keeps the invariant by its rule; one that rolls back changes nothing.
  Inv-within_transaction :
      (m : Tx A) (db : Db) → Yields w Anything m → Inv w db → Inv w (within_transaction m db).1
  Inv-within_transaction m db h i = elim (Result-cases (m db)) [
    | inl ((a, db'), e) ↦ rw (e, within_transaction) (h.at db a db' i e).1
    | inr (e, q) ↦ rw (q, within_transaction) i
  ]

  Inv-committed :
      {B : Type 0} (r : Result A × Db) (k : A → Result B) → Inv w r.1 → Inv w (committed r k).1
  Inv-committed (ok a, db) k i = i
  Inv-committed (err e, db) k i = i

  Inv-reported :
      {B : Type 0} (r : Result A × Db) (k : A → Result B) → Inv w r.1 → Inv w (reported r k).1
  Inv-reported (ok a, db) k i = i
  Inv-reported (err e, db) k i = i

  Inv-announce :
      (f : Error → Error) (r : Result A × Db) (k : A → Revocation)
      → Inv w r.1
      → Inv w (announce f r k).1
  Inv-announce f (ok a, db) k i = i
  Inv-announce f (err e, db) k i = i

  Inv-attempt :
      {B : Type 0} (r : Result A) (db : Db) (k : A → Result B × Db)
      → Inv w db
      → ((a : A) → Inv w (k a).1)
      → Inv w (attempt r db k).1
  Inv-attempt (ok a) db k i h = h a
  Inv-attempt (err e) db k i h = i

module _ (w : Watch) (service : Service) (call : Call) (db : Db) (i : Inv w db) where
  open service use {engine, lib}

  run :
      {A B : Type 0} (m : Tx A) (k : A → Result B)
      → Yields w Anything m
      → Inv w (committed (within_transaction m db) k).1
  run m k h = Inv-committed (within_transaction m db) k (Inv-within_transaction m db h i)

  pub Inv-issue_challenge :
      (p : Purpose) (u : Option Bytes) → Inv w (issue_challenge service call p u db).1
  unfolding issue_challenge
  Inv-issue_challenge p u = elim (Bool-cases (not (is_for_connector p) && not (is_for_device p))) [
    | inl e ↦ rw e i
    | inr e ↦ rw e (elim (Bool-cases (is_for_device p && no_user u)) [
      | inl q ↦ rw q i
      | inr q ↦ rw q (
          Inv-attempt (random_base64 call.random 32) db _ i λ (c, rest).
            Inv-reported _ _
              (Inv-within_transaction _ db (Creates.Yields-create_challenge w engine _) i))
    ])
  ]

  pub Inv-begin_pairing :
      (input : BeginPairingInput) → Inv w (begin_pairing service call input db).1
  unfolding begin_pairing
  Inv-begin_pairing input = Inv-attempt (normalize_name lib input.name) db _ i λ name.
      elim (Bool-cases (
        not (valid_identity lib input.identity)
        || not (verify_identity_proof lib input.identity input.proof))) [
          | inl e ↦ rw e i
          | inr e ↦ rw e (
              Inv-attempt (issue_identifier call.random (text "par_")) db _ i λ (p, r1).
                Inv-attempt (issue_token r1 (text "orp_")) db _ i λ (secret, r2).
                  Inv-attempt (issue_user_code r2) db _ i λ (code, r3).
                    run _ _ (Pairings.Yields-begin_transaction w service call input _ refl))
        ]

  pub Inv-claim_pairing :
      (input : ClaimPairingInput) → Inv w (claim_pairing service call input db).1
  unfolding claim_pairing
  Inv-claim_pairing input = Inv-attempt (normalize_name lib input.device_name) db _ i λ name.
      elim (Bool-cases (
        is_empty input.user_id
        || not (valid_identity lib input.identity)
        || not (verify_identity_proof lib input.identity input.proof))) [
          | inl e ↦ rw e i
          | inr e ↦
              rw e
                (elim (Bool-cases
                  (not (nat_eq (length (normalize_user_code lib input.user_code)) 8))) [
                    | inl q ↦ rw q i
                    | inr q ↦
                        rw q
                          (run _ _ (Pairings.Yields-claim_transaction w service call input name _))
                  ])
        ]

  pub Inv-confirm_pairing : (u p d : Bytes) → Inv w (confirm_pairing service call u p d db).1
  unfolding confirm_pairing
  Inv-confirm_pairing u p d = elim (Bool-cases (is_empty u || is_empty p || is_empty d)) [
    | inl e ↦ rw e i
    | inr e ↦ rw e (run _ _ (Confirmations.Yields-confirm_transaction w service call u p d))
  ]

  pub Inv-poll_pairing : (secret : Bytes) → Inv w (poll_pairing service call secret db).1
  unfolding poll_pairing
  Inv-poll_pairing secret = elim (Bool-cases (not (valid_token secret (text "orp_")))) [
    | inl e ↦ rw e i
    | inr e ↦ rw e (run _ _ (Reviews.Yields-poll_transaction w service call secret))
  ]

  pub Inv-approve_pairing :
      (p secret key : Bytes) → Inv w (approve_pairing service call p secret key db).1
  unfolding approve_pairing
  Inv-approve_pairing p secret key =
      elim (Bool-cases (is_empty p || not (valid_token secret (text "orp_")))) [
        | inl e ↦ rw e i
        | inr e ↦ rw e (elim (Bool-cases (is_empty key || ltb 64 (length key))) [
          | inl e ↦ rw e i
          | inr e ↦ rw e (run _ _ (Reviews.Yields-approve_transaction w service call p secret key))
        ])
      ]

  pub Inv-cancel_pairing : (p secret : Bytes) → Inv w (cancel_pairing service call p secret db).1
  unfolding cancel_pairing
  Inv-cancel_pairing p secret =
      elim (Bool-cases (is_empty p || not (valid_token secret (text "orp_")))) [
        | inl e ↦ rw e i
        | inr e ↦ rw e (run _ _ (Reviews.Yields-cancel_transaction w service call p secret))
      ]

  pub Inv-rotate_device_credential :
      (u s d k : Bytes) → Inv w (rotate_device_credential service call u s d k db).1
  unfolding rotate_device_credential
  Inv-rotate_device_credential u s d k = elim (Bool-cases (bad_device_request u s d k)) [
    | inl e ↦ rw e i
    | inr e ↦ rw e (run _ _ (Credentials.Yields-rotate_device_transaction w service call u s d k))
  ]

  pub Inv-rotate_connector_credential :
      (k : Bytes) → Inv w (rotate_connector_credential service call k db).1
  unfolding rotate_connector_credential
  Inv-rotate_connector_credential k = elim (Bool-cases (not (valid_token k (text "orc_")))) [
    | inl e ↦ rw e i
    | inr e ↦ rw e (run _ _ (Credentials.Yields-rotate_connector_transaction w service call k))
  ]

  pub Inv-activate_device_credential :
      (u s d k : Bytes) → Inv w (activate_device_credential service call u s d k db).1
  unfolding activate_device_credential
  Inv-activate_device_credential u s d k = elim (Bool-cases (bad_device_request u s d k)) [
    | inl e ↦ rw e i
    | inr e ↦ rw e (run _ _ (Credentials.Yields-activate_device_transaction w service call u s d k))
  ]

  pub Inv-activate_connector_credential :
      (k : Bytes) → Inv w (activate_connector_credential service call k db).1
  unfolding activate_connector_credential
  Inv-activate_connector_credential k = elim (Bool-cases (not (valid_token k (text "orc_")))) [
    | inl e ↦ rw e i
    | inr e ↦ rw e (run _ _ (Credentials.Yields-activate_connector_transaction w service call k))
  ]

  pub Inv-revoke_connector : (k : Bytes) → Inv w (revoke_connector service call k db).1
  unfolding revoke_connector
  Inv-revoke_connector k = elim (Bool-cases (not (valid_token k (text "orc_")))) [
    | inl e ↦ rw e i
    | inr e ↦ rw e (
        Inv-announce _ _ _ (
          Inv-within_transaction _ db
            (Revocations.Yields-revoke_connector_transaction w service call k) i))
  ]

  pub Inv-revoke_account_connector :
      (u k : Bytes) → Inv w (revoke_account_connector service call u k db).1
  unfolding revoke_account_connector
  Inv-revoke_account_connector u k =
      elim (Bool-cases (is_empty u || is_empty k || ltb 64 (length k))) [
        | inl e ↦ rw e i
        | inr e ↦ rw e (elim (Bool-cases (is_some (call.authorize_account u))) [
          | inl e ↦ rw e i
          | inr e ↦ rw e (
              Inv-announce _ _ _ (
                Inv-within_transaction _ db
                  (Revocations.Yields-revoke_account_connector_transaction w service call u k) i))
        ])
      ]

  pub Inv-revoke_account_device :
      (u k : Bytes) → Inv w (revoke_account_device service call u k db).1
  unfolding revoke_account_device
  Inv-revoke_account_device u k =
      elim (Bool-cases (is_empty u || is_empty k || ltb 64 (length k))) [
        | inl e ↦ rw e i
        | inr e ↦ rw e (elim (Bool-cases (is_some (call.authorize_account u))) [
          | inl e ↦ rw e i
          | inr e ↦ rw e (
              Inv-announce _ _ _ (
                Inv-within_transaction _ db
                  (Revocations.Yields-revoke_account_device_transaction w service call u k) i))
        ])
      ]

  pub Inv-rename_account_connector :
      (u k n : Bytes) → Inv w (rename_account_connector service call u k n db).1
  unfolding rename_account_connector
  Inv-rename_account_connector u k n = Inv-attempt (normalize_name lib n) db _ i λ name.
      elim (Bool-cases (is_empty u || is_empty k || ltb 64 (length k))) [
        | inl e ↦ rw e i
        | inr e ↦ rw e (elim (Bool-cases (is_some (call.authorize_account u))) [
          | inl q ↦ rw q i
          | inr q ↦ rw q (
              Inv-reported _ _ (
                Inv-within_transaction _ db
                  (Revocations.Yields-rename_transaction w service call u k name) i))
        ])
      ]

  pub Inv-issue_ticket :
      (r : Role) (m : Tx Holder) → Yields w Anything m → Inv w (issue_ticket service call r m db).1
  unfolding issue_ticket
  Inv-issue_ticket r m h =
      Inv-attempt (issue_token call.random (text "ort_")) db _ i
        λ (t, rest). run _ _ (Tickets.Yields-issued w service call r t m h)

  pub Inv-issue_browser_ticket :
      (u s d k : Bytes) (t : ℕ) → Inv w (issue_browser_ticket service call u s d k t db).1
  unfolding issue_browser_ticket
  Inv-issue_browser_ticket u s d k t =
      elim (Bool-cases
        (is_empty u || is_empty s || is_empty d || not (valid_token k (text "ord_")))) [
          | inl e ↦ rw e i
          | inr e ↦
              rw e (Inv-issue_ticket _ _ (Tickets.Yields-device_holder w service call u s d _ t))
        ]

  pub Inv-issue_connector_ticket : (k : Bytes) → Inv w (issue_connector_ticket service call k db).1
  unfolding issue_connector_ticket
  Inv-issue_connector_ticket k = elim (Bool-cases (not (valid_token k (text "orc_")))) [
    | inl e ↦ rw e i
    | inr e ↦ rw e (Inv-issue_ticket _ _ (Tickets.Yields-connector_holder w service call _))
  ]

  pub Inv-consume_relay_ticket : (t : Bytes) → Inv w (consume_relay_ticket service call t db).1
  unfolding consume_relay_ticket
  Inv-consume_relay_ticket t = elim (Bool-cases (not (valid_token t (text "ort_")))) [
    | inl e ↦ rw e i
    | inr e ↦ rw e (run _ _ (Tickets.Yields-consume_transaction w service call t))
  ]
