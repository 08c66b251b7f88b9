-- ===== src/Connectors/Lifecycle/Credentials.antt =====
-- What the rotations of internal/connectors/service.go keep.
use openremotecode_api.Prelude.{ℕ, Option, some, none, is_none, Bool-cases, inl, inr, ltb}
use openremotecode_api.Bytes.{Bytes, hmac_equal}
use openremotecode_api.Connectors.Types.{Device, Connector, EventType}
use openremotecode_api.Connectors.Service.{Service, Call}
use openremotecode_api.Connectors.Credential.DeviceCredential.{
  record_device_event, rotate_device_transaction, live_until, commit_device_rotation,
  activate_device_transaction, cancel_pending_device_rotation,
}
use openremotecode_api.Connectors.Credential.ConnectorCredential.{
  record_connector_event, own_connector_transaction, rotate_connector_transaction,
  commit_connector_rotation, activate_connector_transaction, cancel_pending_rotation,
}
use openremotecode_api.Connectors.Tokens.{hash_secret}
use openremotecode_api.Connectors.Lifecycle.{
  Watch, DeviceOk, ConnectorOk, Yields, Anything, Yields-pure, Yields-fail, Yields-refuse,
  Yields-check, Yields-bind, Yields-lift,
}
use openremotecode_api.Connectors.Lifecycle.Stores
use openremotecode_api.Connectors.Lifecycle.Creates

module _ (w : Watch) (service : Service) (call : Call) where
  open service use {engine, lib}

  pub Yields-record_device_event :
      (d : Device) (e : EventType) → Yields w Anything (record_device_event service call d e)
  unfolding record_device_event
  Yields-record_device_event d e = Creates.Yields-append_audit_event w engine _

  pub Yields-record_connector_event :
      (c : Connector) (e : EventType) → Yields w Anything (record_connector_event service call c e)
  unfolding record_connector_event
  Yields-record_connector_event c e = Creates.Yields-append_audit_event w engine _

  pub Yields-rotate_device_transaction :
      (u s d k : Bytes) → Yields w Anything (rotate_device_transaction service call u s d k)
  unfolding rotate_device_transaction
  Yields-rotate_device_transaction u s d k =
      Yields-bind (DeviceOk w) Anything _ _
        (Stores.Yields-device_by_credential_for_update w engine _)
        λ v h. Yields-refuse Anything _ _ _ λ _. Yields-check Anything _ _ (
          Yields-check Anything _ _ (
            Yields-lift Anything _ _ λ issued _.
              Yields-bind Anything Anything _ _ (Stores.Yields-save_device w engine _ h) λ _ _.
                Yields-bind Anything Anything _ _ (Yields-record_device_event v _)
                  λ _ _. Yields-pure Anything _ tt))

  Yields-live_until : (o : Option ℕ) → Yields w Anything (live_until service call o)
  Yields-live_until none = Yields-fail Anything _
  Yields-live_until (some t) = elim (Bool-cases (ltb call.now t)) [
    | inl e ↦ rw e (Yields-pure Anything _ tt)
    | inr e ↦ rw e (Yields-fail Anything _)
  ]

  Yields-commit_device_rotation :
      (hash : Bytes) (d : Device)
      → DeviceOk w d
      → Yields w Anything (commit_device_rotation service call hash d)
  unfolding commit_device_rotation
  Yields-commit_device_rotation hash d h = Yields-refuse Anything _ _ _ λ _.
      Yields-bind Anything Anything _ _ (Stores.Yields-save_device w engine _ h) λ _ _.
        Yields-bind Anything Anything _ _ (Yields-record_device_event d _)
          λ _ _. Yields-pure Anything _ tt

  pub Yields-activate_device_transaction :
      (u s d k : Bytes) → Yields w Anything (activate_device_transaction service call u s d k)
  unfolding activate_device_transaction
  Yields-activate_device_transaction u s d k =
      Yields-bind (DeviceOk w) Anything _ _
        (Stores.Yields-device_by_any_credential_for_update w engine _)
        λ v h. Yields-refuse Anything _ _ _ λ _. Yields-check Anything _ _ (
          Yields-check Anything _ _
            (elim (Bool-cases (hmac_equal (hash_secret lib k) v.credential_hash)) [
              | inl e ↦ rw e (Yields-live_until v.credential_expires_at)
              | inr e ↦ rw e (Yields-commit_device_rotation _ v h)
            ]))

  pub Yields-cancel_pending_device_rotation :
      (d : Device)
      → DeviceOk w d
      → Yields w Anything (cancel_pending_device_rotation service call d)
  unfolding cancel_pending_device_rotation
  Yields-cancel_pending_device_rotation d h =
      elim (Bool-cases (is_none d.pending_credential_hash)) [
        | inl e ↦ rw e (Yields-pure Anything _ tt)
        | inr e ↦ rw e (
            Yields-bind Anything Anything _ _ (Stores.Yields-save_device w engine _ h) λ _ _.
              Yields-bind Anything Anything _ _ (Yields-record_device_event _ _)
                λ _ _. Yields-pure Anything _ tt)
      ]

  pub Yields-own_connector_transaction :
      (k : Bytes) → Yields w Anything (own_connector_transaction service call k)
  unfolding own_connector_transaction
  Yields-own_connector_transaction k =
      Yields-bind (ConnectorOk w) Anything _ _
        (Stores.Yields-connector_by_credential_for_update w engine _)
        λ c h.
          Yields-refuse Anything _ _ _ λ _. Yields-check Anything _ _ (Yields-pure Anything _ tt)

  pub Yields-rotate_connector_transaction :
      (k : Bytes) → Yields w Anything (rotate_connector_transaction service call k)
  unfolding rotate_connector_transaction
  Yields-rotate_connector_transaction k =
      Yields-bind (ConnectorOk w) Anything _ _
        (Stores.Yields-connector_by_credential_for_update w engine _)
        λ c h. Yields-refuse Anything _ _ _ λ _. Yields-check Anything _ _ (
          Yields-lift Anything _ _ λ issued _.
            Yields-bind Anything Anything _ _ (Stores.Yields-save_connector w engine _ h) λ _ _.
              Yields-bind Anything Anything _ _ (Yields-record_connector_event c _)
                λ _ _. Yields-pure Anything _ tt)

  Yields-commit_connector_rotation :
      (hash : Bytes) (c : Connector)
      → ConnectorOk w c
      → Yields w Anything (commit_connector_rotation service call hash c)
  unfolding commit_connector_rotation
  Yields-commit_connector_rotation hash c h = Yields-refuse Anything _ _ _ λ _.
      Yields-bind Anything Anything _ _ (Stores.Yields-save_connector w engine _ h) λ _ _.
        Yields-bind Anything Anything _ _ (Yields-record_connector_event c _)
          λ _ _. Yields-pure Anything _ tt

  pub Yields-activate_connector_transaction :
      (k : Bytes) → Yields w Anything (activate_connector_transaction service call k)
  unfolding activate_connector_transaction
  Yields-activate_connector_transaction k =
      Yields-bind (ConnectorOk w) Anything _ _
        (Stores.Yields-connector_by_any_credential_for_update w engine _)
        λ c h. Yields-refuse Anything _ _ _ λ _.
          Yields-check Anything _ _
            (elim (Bool-cases (hmac_equal (hash_secret lib k) c.credential_hash)) [
              | inl e ↦ rw e (Yields-live_until c.credential_expires_at)
              | inr e ↦ rw e (Yields-commit_connector_rotation _ c h)
            ])

  pub Yields-cancel_pending_rotation :
      (c : Connector) → ConnectorOk w c → Yields w Anything (cancel_pending_rotation service call c)
  unfolding cancel_pending_rotation
  Yields-cancel_pending_rotation c h = elim (Bool-cases (is_none c.pending_credential_hash)) [
    | inl e ↦ rw e (Yields-pure Anything _ tt)
    | inr e ↦ rw e (
        Yields-bind Anything Anything _ _ (Stores.Yields-save_connector w engine _ h) λ _ _.
          Yields-bind Anything Anything _ _ (Yields-record_connector_event _ _)
            λ _ _. Yields-pure Anything _ tt)
  ]
