-- ===== src/Connectors/Lifecycle/Outcomes.antt =====
-- What an operation of internal/connectors/service.go answers while a revoked device, a revoked
-- connector or a used ticket is watched.
use openremotecode_api.Prelude.{
  ℕ, ◌≡◌, refl, Bool, true, false, ◌&&◌, ◌||◌, not, List, arith, Bool-cases, inl, inr, is_some, ltb,
  length, ap, subst,
}
use openremotecode_api.Bytes.{Bytes, text, ◌==◌, eq_sound}
use openremotecode_api.Connectors.Errors.{Error, Result, ok, err}
use openremotecode_api.Connectors.Types.{
  Admission, Revocation, is_empty, client, is_connector, is_client,
}
use openremotecode_api.Connectors.Tx.{Tx, Db, within_transaction, committed, Result-cases}
use openremotecode_api.Connectors.Service.{Service, Call}
use openremotecode_api.Connectors.Tokens.{valid_token, hash_secret, issue_token}
use openremotecode_api.Connectors.Credential.DeviceCredential.{
  bad_device_request, rotate_device_credential, activate_device_credential,
}
use openremotecode_api.Connectors.Revoke.{
  revoke_account_device, revoke_account_connector, announce, Announced,
}
use openremotecode_api.Connectors.Ticket.{
  issue_browser_ticket, consume_relay_ticket, issue_ticket, device_holder, store_ticket,
}
use openremotecode_api.Connectors.Admissions.{validate_admission, malformed_admission}
use openremotecode_api.Connectors.Lifecycle.{Watch, Inv, Yields, Yields-bind}
use openremotecode_api.Connectors.Lifecycle.Retire.{
  watch_nothing, watch_device, watch_connector, watch_ticket, Begins,
}
use openremotecode_api.Connectors.Lifecycle.Retire
use openremotecode_api.Connectors.Lifecycle.Lockout.{Never, is_device, is_the_connector}
use openremotecode_api.Connectors.Lifecycle.Lockout

abbrev pub is_ok : {A : Type 0} → Result A → Bool
is_ok (ok a) = true
is_ok (err e) = false

-- That the result is a success whose value passes the test.
abbrev pub passes : {A : Type 0} → (A → Bool) → Result A → Bool
passes f (ok a) = f a
passes f (err e) = false

module _ {w : Watch} {A : Type 0} where
  pub is_ok-Never :
      {B : Type 0} (m : Tx A) (db : Db) (k : A → Result B)
      → Inv w db
      → Yields w Never m
      → is_ok (committed (within_transaction m db) k).0 ≡ false
  is_ok-Never m db k i h = elim (Result-cases (m db)) [
    | inl ((a, db'), e) ↦ absurd (h.at db a db' i e).0
    | inr (e, q) ↦ rw (q, within_transaction) refl
  ]

  pub passes-Yields :
      (m : Tx A) (db : Db) (f : A → Bool)
      → Inv w db
      → Yields w (λ a. f a ≡ false) m
      → passes f (committed (within_transaction m db) ok).0 ≡ false
  passes-Yields m db f i h = elim (Result-cases (m db)) [
    | inl ((a, db'), e) ↦ rw (e, within_transaction) (h.at db a db' i e).0
    | inr (e, q) ↦ rw (q, within_transaction) refl
  ]

  pub Begins-announced :
      (m : Tx A) (f : Error → Error) (k : A → Revocation) (db db' : Db) (said : List Revocation)
      → Inv watch_nothing db
      → Begins w m
      → announce f (within_transaction m db) k ≡ (ok tt, db', said)
      → Inv w db'
  Begins-announced m f k db db' said i h e = elim (Result-cases (m db)) [
    | inl ((a, mid), q) ↦
        subst (Inv w) (ap (λ (r : Announced). r.1) (rw (q, within_transaction) at e))
          (h.at db a mid i q)
    | inr (x, q) ↦ absurd (ground (arith, rw (q, within_transaction) at e))
  ]

  pub Begins-committed :
      (m : Tx A) (a : A) (db db' : Db)
      → Inv watch_nothing db
      → Begins w m
      → committed (within_transaction m db) ok ≡ (ok a, db')
      → Inv w db'
  Begins-committed m a db db' i h e = elim (Result-cases (m db)) [
    | inl ((b, mid), q) ↦
        subst (Inv w) (ap (λ (r : Result A × Db). r.1) (rw (q, within_transaction) at e))
          (h.at db b mid i q)
    | inr (x, q) ↦ absurd (ground (arith, rw (q, within_transaction) at e))
  ]

module _ (service : Service) (call : Call) (u x : Bytes) (db db' : Db)
    (said : List Revocation) where
  pub Inv-revoked_device :
      Inv watch_nothing db
      → revoke_account_device service call u x db ≡ (ok tt, db', said)
      → Inv (watch_device x) db'
  unfolding revoke_account_device
  Inv-revoked_device i e = elim (Bool-cases (is_empty u || is_empty x || ltb 64 (length x))) [
    | inl q ↦ absurd (ground (arith, rw q at e))
    | inr q ↦ elim (Bool-cases (is_some (call.authorize_account u))) [
      | inl q' ↦ absurd (ground (arith, rw (q, q') at e))
      | inr q' ↦
          Begins-announced _ _ _ db db' said i
            (Retire.Begins-revoke_account_device_transaction service call u x) (rw (q, q') at e)
    ]
  ]

  pub Inv-revoked_connector :
      Inv watch_nothing db
      → revoke_account_connector service call u x db ≡ (ok tt, db', said)
      → Inv (watch_connector x) db'
  unfolding revoke_account_connector
  Inv-revoked_connector i e = elim (Bool-cases (is_empty u || is_empty x || ltb 64 (length x))) [
    | inl q ↦ absurd (ground (arith, rw q at e))
    | inr q ↦ elim (Bool-cases (is_some (call.authorize_account u))) [
      | inl q' ↦ absurd (ground (arith, rw (q, q') at e))
      | inr q' ↦
          Begins-announced _ _ _ db db' said i
            (Retire.Begins-revoke_account_connector_transaction service call u x) (rw (q, q') at e)
    ]
  ]

module _ (w : Watch) (service : Service) (call : Call) (db : Db) (i : Inv w db) where
  open service use {lib}

  pub is_ok-issue_ticket :
      (d u s k : Bytes) (t : ℕ)
      → Yields w Never (device_holder service call u s d (hash_secret lib k) t)
      → is_ok (issue_browser_ticket service call u s d k t db).0 ≡ false
  unfolding issue_browser_ticket issue_ticket
  is_ok-issue_ticket d u s k t h =
      elim (Bool-cases
        (is_empty u || is_empty s || is_empty d || not (valid_token k (text "ord_")))) [
          | inl q ↦ rw q refl
          | inr q ↦ rw q (elim (Result-cases (issue_token call.random (text "ort_"))) [
            | inl ((ticket, rest), e) ↦ rw e (
                is_ok-Never _ db _ i (
                  Yields-bind Never Never _ (store_ticket service call client ticket) h
                    (λ _ a. absurd a)))
            | inr (x, e) ↦ rw e refl
          ])
        ]

module _ (service : Service) (call : Call) (x : Bytes) (db : Db) (i : Inv (watch_device x) db) where
  open service use {lib}

  pub is_ok-rotate_device :
      (u s k : Bytes) → is_ok (rotate_device_credential service call u s x k db).0 ≡ false
  unfolding rotate_device_credential
  is_ok-rotate_device u s k = elim (Bool-cases (bad_device_request u s x k)) [
    | inl q ↦ rw q refl
    | inr q ↦ rw q (is_ok-Never _ db _ i (Lockout.Never-rotate_device service call x u s k))
  ]

  pub is_ok-activate_device :
      (u s k : Bytes) → is_ok (activate_device_credential service call u s x k db).0 ≡ false
  unfolding activate_device_credential
  is_ok-activate_device u s k = elim (Bool-cases (bad_device_request u s x k)) [
    | inl q ↦ rw q refl
    | inr q ↦ rw q (is_ok-Never _ db _ i (Lockout.Never-activate_device service call x u s k))
  ]

  pub passes-consume_device :
      (t : Bytes) → passes (is_device x) (consume_relay_ticket service call t db).0 ≡ false
  unfolding consume_relay_ticket
  passes-consume_device t = elim (Bool-cases (not (valid_token t (text "ort_")))) [
    | inl q ↦ rw q refl
    | inr q ↦
        rw q (passes-Yields _ db (is_device x) i (Lockout.Other-consume_device service call x t))
  ]

  pub is_ok-validate_device :
      (a : Admission) → (is_device x a && is_ok (validate_admission service call a db).0) ≡ false
  unfolding validate_admission
  is_ok-validate_device a = elim (Bool-cases (is_client a.role && (a.subject_id == x))) [
    | inr q ↦ rw q refl
    | inl q ↦ rw q (elim (Bool-cases (malformed_admission a)) [
      | inl bad ↦ rw bad refl
      | inr good ↦ rw good (
          is_ok-Never _ db _ i (
            Lockout.Never-validate_device service call x a (ground arith)
              (eq_sound a.subject_id x (ground arith))))
    ])
  ]

module _ (service : Service) (call : Call) (x : Bytes) (db : Db)
    (i : Inv (watch_connector x) db) where
  open service use {lib}

  pub passes-consume_connector :
      (t : Bytes) → passes (is_the_connector x) (consume_relay_ticket service call t db).0 ≡ false
  unfolding consume_relay_ticket
  passes-consume_connector t = elim (Bool-cases (not (valid_token t (text "ort_")))) [
    | inl q ↦ rw q refl
    | inr q ↦ rw q (
        passes-Yields _ db (is_the_connector x) i
          (Lockout.Other-consume_connector service call x t))
  ]

  pub is_ok-validate_connector :
      (a : Admission)
      → (is_the_connector x a && is_ok (validate_admission service call a db).0) ≡ false
  unfolding validate_admission
  is_ok-validate_connector a = elim (Bool-cases (is_connector a.role && (a.subject_id == x))) [
    | inr q ↦ rw q refl
    | inl q ↦ rw q (elim (Bool-cases (malformed_admission a)) [
      | inl bad ↦ rw bad refl
      | inr good ↦ rw good (
          is_ok-Never _ db _ i (
            Lockout.Never-validate_connector service call x a (ground arith)
              (eq_sound a.subject_id x (ground arith))))
    ])
  ]

pub is_ok-consume_used :
    (service : Service) (call : Call) (t : Bytes) (db : Db)
    → Inv (watch_ticket (hash_secret service.lib t)) db
    → is_ok (consume_relay_ticket service call t db).0 ≡ false
unfolding consume_relay_ticket
is_ok-consume_used service call t db i = elim (Bool-cases (not (valid_token t (text "ort_")))) [
  | inl q ↦ rw q refl
  | inr q ↦ rw q (is_ok-Never _ db _ i (Lockout.Never-consume_transaction service call t))
]

pub Inv-consumed :
    (service : Service) (call : Call) (t : Bytes) (a : Admission) (db db' : Db)
    → Inv watch_nothing db
    → consume_relay_ticket service call t db ≡ (ok a, db')
    → Inv (watch_ticket (hash_secret service.lib t)) db'
unfolding consume_relay_ticket
Inv-consumed service call t a db db' i e = elim (Bool-cases (not (valid_token t (text "ort_")))) [
  | inl q ↦ absurd (ground (arith, rw q at e))
  | inr q ↦
      Begins-committed _ a db db' i (Retire.Begins-consume_transaction service call t) (rw q at e)
]
