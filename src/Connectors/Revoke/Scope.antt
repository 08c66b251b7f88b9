-- ===== src/Connectors/Revoke/Scope.antt =====
-- What a revocation of internal/connectors/service.go announces, and whom `Covers` of
-- internal/connectors/types.go then ends.
use openremotecode_api.Prelude.{
  ◌≡◌, refl, ◌||◌, ◌&&◌, false, arith, length, ltb, is_some, Bool-cases, inl, inr, List, [], ◌∷◌,
  sym, ap,
}
use openremotecode_api.Bytes.{Bytes, ◌==◌}
use openremotecode_api.Connectors.Errors.{Error, ok}
use openremotecode_api.Connectors.Types.{
  is_empty, is_client, is_connector, Admission, Revocation, covers,
}
use openremotecode_api.Connectors.Tx.{Tx, Db, within_transaction, Result-cases}
use openremotecode_api.Connectors.Service.{Service, Call}
use openremotecode_api.Connectors.Revoke.{
  Announced, announce, revocation_of_device, revocation_of_connector, revoke_account_device,
  revoke_account_connector, revoke_account_device_transaction, revoke_account_connector_transaction,
}

module _ {A : Type 0} where
  announce_ok :
      (f : Error → Error) (m : Tx A) (r : Revocation) (db db' : Db) (said : List Revocation)
      → announce f (within_transaction m db) (λ _. r) ≡ (ok tt, db', said)
      → said ≡ r ∷ []
  announce_ok f m r db db' said e = elim (Result-cases (m db)) [
    | inl ((a, mid), q) ↦ sym (ap (λ (x : Announced). x.2) (rw (q, within_transaction) at e))
    | inr (x, q) ↦ absurd (ground (arith, rw (q, within_transaction) at e))
  ]

covers_device :
    (u x : Bytes) (a : Admission)
    → is_empty u ≡ false
    → is_empty x ≡ false
    → covers (revocation_of_device u x) a
      ≡ ((a.user_id == u) && (is_client a.role && (a.subject_id == x)))
unfolding covers
covers_device u x a eu ex = elim (Bool-cases (a.user_id == u)) [
  | inl h ↦ rw (eu, ex, h) refl
  | inr h ↦ rw (eu, h) refl
]

covers_connector :
    (u x : Bytes) (a : Admission)
    → is_empty u ≡ false
    → is_empty x ≡ false
    → covers (revocation_of_connector u x) a
      ≡ ((a.user_id == u) && (is_connector a.role && (a.subject_id == x)))
unfolding covers
covers_connector u x a eu ex = elim (Bool-cases (a.user_id == u)) [
  | inl h ↦ rw (eu, ex, h) refl
  | inr h ↦ rw (eu, h) refl
]

-- A revocation of a device that succeeds announces one revocation, and it covers exactly the client
-- admissions of that account for that device.
pub covers-revoke_account_device :
    (service : Service) (call : Call) (user device : Bytes) (db db' : Db) (said : List Revocation)
    (a : Admission)
    → revoke_account_device service call user device db ≡ (ok tt, db', said)
    → (said ≡ revocation_of_device user device ∷ [])
      × (covers (revocation_of_device user device) a
          ≡ ((a.user_id == user) && (is_client a.role && (a.subject_id == device))))
unfolding revoke_account_device
covers-revoke_account_device service call u x db db' said a e =
    elim (Bool-cases (is_empty u || is_empty x || ltb 64 (length x))) [
      | inl q ↦ absurd (ground (arith, rw q at e))
      | inr q ↦ elim (Bool-cases (is_some (call.authorize_account u))) [
        | inl q' ↦ absurd (ground (arith, rw (q, q') at e))
        | inr q' ↦ (
          announce_ok _ (revoke_account_device_transaction service call u x) _ db db' said
              (rw (q, q') at e),
          covers_device u x a (ground (arith, q)) (ground (arith, q)),
        )
      ]
    ]

-- A revocation of a connector that succeeds announces one revocation, and it covers exactly the connector
-- admissions of that account for that connector.
pub covers-revoke_account_connector :
    (service : Service) (call : Call) (user connector : Bytes) (db db' : Db)
    (said : List Revocation) (a : Admission)
    → revoke_account_connector service call user connector db ≡ (ok tt, db', said)
    → (said ≡ revocation_of_connector user connector ∷ [])
      × (covers (revocation_of_connector user connector) a
          ≡ ((a.user_id == user) && (is_connector a.role && (a.subject_id == connector))))
unfolding revoke_account_connector
covers-revoke_account_connector service call u x db db' said a e =
    elim (Bool-cases (is_empty u || is_empty x || ltb 64 (length x))) [
      | inl q ↦ absurd (ground (arith, rw q at e))
      | inr q ↦ elim (Bool-cases (is_some (call.authorize_account u))) [
        | inl q' ↦ absurd (ground (arith, rw (q, q') at e))
        | inr q' ↦ (
          announce_ok _ (revoke_account_connector_transaction service call u x) _ db db' said
              (rw (q, q') at e),
          covers_connector u x a (ground (arith, q)) (ground (arith, q)),
        )
      ]
    ]
