-- ===== src/Connectors/Lifecycle/Confirmations.antt =====
-- What confirming, polling, approving and cancelling in internal/connectors/service.go keep.
use openremotecode_api.Prelude.{ℕ, ◌≡◌, refl, true, Option, some, none, arith, is_some}
use openremotecode_api.Bytes.{Bytes}
use openremotecode_api.Connectors.Types.{
  Pairing, PairingState, pending, verification, confirmed, completed, expired, Device, Connector,
  is_verification,
}
use openremotecode_api.Connectors.Service.{Service, Call}
use openremotecode_api.Connectors.Pairing.Confirm.{
  confirm_again, connector_for_confirm, complete, confirm_first, choose, confirm_transaction,
}
use openremotecode_api.Connectors.Lifecycle.{
  Watch, Stage, IsStaged, DeviceOk, ConnectorOk, Maybe, Yields, Anything, Yields-pure,
  Yields-refuse, Yields-check, Yields-optional, Yields-bind, Yields-lift,
}
use openremotecode_api.Connectors.Lifecycle.Stores
use openremotecode_api.Connectors.Lifecycle.Creates

Stage-verification :
    (s : PairingState) (r : Option ℕ) (u d c : Option Bytes)
    → is_verification s ≡ true
    → Stage s r u d c
    → (is_some u ≡ true) × (is_some d ≡ true)
Stage-verification pending r u d c e h = absurd (ground arith)
Stage-verification verification r u d c e h = h
Stage-verification confirmed r u d c e h = absurd h
Stage-verification completed r u d c e h = absurd (ground arith)
Stage-verification expired r u d c e h = absurd (ground arith)

module _ (w : Watch) (service : Service) (call : Call) where
  open service use {engine, lib}

  Yields-confirm_again :
      (u : Bytes) (p : Pairing) (d : Device) (c : Bytes) (t : ℕ)
      → Yields w Anything (confirm_again service call u p d c t)
  unfolding confirm_again
  Yields-confirm_again u p d c t = Yields-refuse Anything _ _ _ λ _.
      Yields-refuse Anything _ _ _ λ _.
        Yields-bind (ConnectorOk w) Anything _ _
          (Stores.Yields-connector_by_id_for_update w engine c)
          λ _ _. Yields-refuse Anything _ _ _ λ _. Yields-pure Anything _ tt

  abbrev FirstOk : Connector × Bytes → Type 0
  FirstOk r = ConnectorOk w r.0

  Yields-connector_for_confirm :
      (u : Bytes) (p : Pairing) (o : Option Connector)
      → Maybe (ConnectorOk w) o
      → Yields w FirstOk (connector_for_confirm service call u p o)
  unfolding connector_for_confirm
  Yields-connector_for_confirm u p (some c) h =
      Yields-refuse FirstOk _ _ _ λ _. Yields-pure FirstOk _ h
  Yields-connector_for_confirm u p none h = Yields-lift FirstOk _ _ λ issued _.
      Yields-bind _ FirstOk _ _ (Creates.Yields-create_connector w engine _)
        λ _ ok_new. Yields-pure FirstOk _ ok_new

  Yields-complete :
      (u : Bytes) (p : Pairing) (d : Device) (c : Connector) (seed : Bytes)
      → DeviceOk w d
      → ConnectorOk w c
      → (is_some p.connector_reviewed_at ≡ true)
        × (is_some p.user_id ≡ true)
        × (is_some p.device_id ≡ true)
      → Yields w Anything (complete service call u p d c seed)
  unfolding complete
  Yields-complete u p d c seed hd hc hp =
      Yields-bind Anything Anything _ _ (Stores.Yields-save_device w engine _ hd) λ _ _.
        Yields-bind Anything Anything _ _ (Creates.Yields-upsert_trust w engine _) λ _ _.
          Yields-bind Anything Anything _ _ (Stores.Yields-save_connector w engine _ hc) λ _ _.
            Yields-bind Anything Anything _ _
              (Stores.Yields-save_pairing w engine _ (hp.0, hp.1, hp.2, refl))
              λ _ _.
                Yields-bind Anything Anything _ _ (Creates.Yields-append_audit_event w engine _)
                  λ _ _. Yields-pure Anything _ tt

  Yields-confirm_first :
      (u : Bytes) (p : Pairing) (d : Device)
      → IsStaged p
      → DeviceOk w d
      → Yields w Anything (confirm_first service call u p d)
  unfolding confirm_first
  Yields-confirm_first u p d hp hd = Yields-refuse Anything _ _ _ λ _.
      Yields-refuse Anything _ _ _ λ checked.
        Yields-bind (Maybe (ConnectorOk w)) Anything _ _
          (Yields-optional (ConnectorOk w) _
            (Stores.Yields-connector_by_key_id_for_update w engine _))
          λ known hk.
            Yields-bind FirstOk Anything _ _ (Yields-connector_for_confirm u p known hk) λ made hc.
              Yields-lift Anything _ _ λ seed _. Yields-complete u p d made.0 seed.0 hd hc (
                ground arith,
                (Stage-verification p.state _ _ _ _ (ground arith) hp).0,
                (Stage-verification p.state _ _ _ _ (ground arith) hp).1,
              )

  Yields-choose :
      (u : Bytes) (p : Pairing) (d : Device) (s : PairingState) (c : Option Bytes) (t : Option ℕ)
      → IsStaged p
      → DeviceOk w d
      → Yields w Anything (choose service call u p d s c t)
  Yields-choose u p d completed (some c) (some t) hp hd = Yields-confirm_again u p d c t
  Yields-choose u p d _ _ _ hp hd = Yields-confirm_first u p d hp hd

  pub Yields-confirm_transaction :
      (u p d : Bytes) → Yields w Anything (confirm_transaction service call u p d)
  unfolding confirm_transaction
  Yields-confirm_transaction u p d = Yields-check Anything _ _ (
      Yields-bind IsStaged Anything _ _ (Stores.Yields-pairing_by_id_for_update w engine p) λ q hq.
        Yields-refuse Anything _ _ _ λ _. Yields-refuse Anything _ _ _ λ _.
          Yields-bind (DeviceOk w) Anything _ _ (Stores.Yields-device_by_id_for_update w engine d)
            λ v hv.
              Yields-refuse Anything _ _ _
                λ _. Yields-choose u q v q.state q.connector_id v.credential_expires_at hq hv)
