-- ===== src/Connectors/Lifecycle/Revocations.antt =====
-- What the revocations and the renaming of internal/connectors/service.go keep.
use openremotecode_api.Prelude.{ℕ, refl, Option, some, none, is_some, Bool-cases, inl, inr}
use openremotecode_api.Bytes.{Bytes, ◌==◌}
use openremotecode_api.Connectors.Types.{Device, Connector}
use openremotecode_api.Connectors.Service.{Service, Call}
use openremotecode_api.Connectors.Revoke.{
  mark_connector_revoked, revoke_connector_transaction, revoke_account_connector_transaction,
  mark_device_revoked, revoke_account_device_transaction, rename_transaction,
}
use openremotecode_api.Connectors.Lifecycle.{
  Watch, DeviceOk, ConnectorOk, Yields, Anything, Yields-pure, Yields-refuse, Yields-bind,
}
use openremotecode_api.Database.Watch.{Settled}
use openremotecode_api.Connectors.Lifecycle.Stores
use openremotecode_api.Connectors.Lifecycle.Creates
use openremotecode_api.Connectors.Lifecycle.Credentials.{
  Yields-record_device_event, Yields-record_connector_event,
}

-- A row that is revoked now has its stamp, whatever is watched.
Settled-some : (o : Option Bytes) (key : Bytes) (now : ℕ) → Settled o key (some now)
Settled-some none key now = tt
Settled-some (some x) key now = λ _. refl

module _ (w : Watch) (service : Service) (call : Call) where
  open service use {engine, lib}

  Yields-mark_connector_revoked :
      (c : Connector) → Yields w Anything (mark_connector_revoked service call c)
  unfolding mark_connector_revoked
  Yields-mark_connector_revoked c =
      Yields-bind Anything Anything _ _
        (Stores.Yields-save_connector w engine _ (Settled-some w.connector c.id call.now))
        λ _ _. Yields-record_connector_event w service call c _

  pub Yields-revoke_connector_transaction :
      (k : Bytes) → Yields w Anything (revoke_connector_transaction service call k)
  unfolding revoke_connector_transaction
  Yields-revoke_connector_transaction k =
      Yields-bind (ConnectorOk w) Anything _ _
        (Stores.Yields-connector_by_credential_for_update w engine _)
        λ c h. elim (Bool-cases (is_some c.revoked_at)) [
          | inl e ↦ rw e (Yields-pure Anything _ tt)
          | inr e ↦ rw e (
              Yields-refuse Anything _ _ _ λ _.
                Yields-bind Anything Anything _ _ (Yields-mark_connector_revoked c)
                  λ _ _. Yields-pure Anything _ tt)
        ]

  pub Yields-revoke_account_connector_transaction :
      (u k : Bytes) → Yields w Anything (revoke_account_connector_transaction service call u k)
  unfolding revoke_account_connector_transaction
  Yields-revoke_account_connector_transaction u k =
      Yields-bind (ConnectorOk w) Anything _ _ (Stores.Yields-connector_by_id_for_update w engine k)
        λ c h. Yields-refuse Anything _ _ _ λ _. elim (Bool-cases (is_some c.revoked_at)) [
          | inl e ↦ rw e (Yields-pure Anything tt tt)
          | inr e ↦ rw e (Yields-mark_connector_revoked c)
        ]

  Yields-mark_device_revoked :
      (u : Bytes) (d : Device) → Yields w Anything (mark_device_revoked service call u d)
  unfolding mark_device_revoked
  Yields-mark_device_revoked u d =
      Yields-bind Anything Anything _ _
        (Stores.Yields-save_device w engine _ (Settled-some w.device d.id call.now))
        λ _ _.
          Yields-bind Anything Anything _ _ (Creates.Yields-revoke_device_trust w engine _ _ _)
            λ _ _. Yields-record_device_event w service call d _

  pub Yields-revoke_account_device_transaction :
      (u k : Bytes) → Yields w Anything (revoke_account_device_transaction service call u k)
  unfolding revoke_account_device_transaction
  Yields-revoke_account_device_transaction u k =
      Yields-bind (DeviceOk w) Anything _ _ (Stores.Yields-device_by_id_for_update w engine k)
        λ d h. Yields-refuse Anything _ _ _ λ _. elim (Bool-cases (is_some d.revoked_at)) [
          | inl e ↦ rw e (Yields-pure Anything tt tt)
          | inr e ↦ rw e (Yields-mark_device_revoked u d)
        ]

  pub Yields-rename_transaction :
      (u k n : Bytes) → Yields w Anything (rename_transaction service call u k n)
  unfolding rename_transaction
  Yields-rename_transaction u k n =
      Yields-bind (ConnectorOk w) Anything _ _ (Stores.Yields-connector_by_id_for_update w engine k)
        λ c h. Yields-refuse Anything _ _ _ λ _. elim (Bool-cases (c.name == n)) [
          | inl e ↦ rw e (Yields-pure Anything _ tt)
          | inr e ↦ rw e (
              Yields-bind Anything Anything _ _ (Stores.Yields-save_connector w engine _ h) λ _ _.
                Yields-bind Anything Anything _ _ (Yields-record_connector_event w service call _ _)
                  λ _ _. Yields-pure Anything _ tt)
        ]
