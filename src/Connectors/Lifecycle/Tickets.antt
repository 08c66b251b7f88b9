-- ===== src/Connectors/Lifecycle/Tickets.antt =====
-- What issuing and consuming relay tickets in internal/connectors/service.go keep.
use openremotecode_api.Prelude.{ℕ, refl, Option, some, none, Bool-cases, inl, inr, ltb}
use openremotecode_api.Bytes.{Bytes}
use openremotecode_api.Connectors.Tx.{Tx, ◌>>=◌}
use openremotecode_api.Connectors.Types.{
  RelayTicket, Role, client, connector, other_role, is_client,
}
use openremotecode_api.Connectors.Service.{Service, Call}
use openremotecode_api.Connectors.Listing.{trusted_identities}
use openremotecode_api.Connectors.Ticket.{
  Holder, expiry, device_holder, connector_holder, store_ticket, current_identity, admit,
  consume_transaction,
}
use openremotecode_api.Connectors.Lifecycle.{
  Watch, DeviceOk, ConnectorOk, TicketOk, Yields, Anything, Yields-pure, Yields-fail, Yields-refuse,
  Yields-check, Yields-bind,
}
use openremotecode_api.Database.Watch.{Settled}
use openremotecode_api.Connectors.Lifecycle.Stores
use openremotecode_api.Connectors.Lifecycle.Stores.{Yields-read}
use openremotecode_api.Connectors.Lifecycle.Creates
use openremotecode_api.Connectors.Lifecycle.Credentials.{
  Yields-cancel_pending_device_rotation, Yields-cancel_pending_rotation,
}

Settled-some : (o : Option Bytes) (key : Bytes) (now : ℕ) → Settled o key (some now)
Settled-some none key now = tt
Settled-some (some x) key now = λ _. refl

module _ (w : Watch) (service : Service) (call : Call) where
  open service use {engine, lib}

  pub Yields-expiry : (o : Option ℕ) → Yields w Anything (expiry service call o)
  Yields-expiry none = Yields-fail Anything _
  Yields-expiry (some t) = elim (Bool-cases (ltb call.now t)) [
    | inl e ↦ rw e (Yields-pure Anything _ tt)
    | inr e ↦ rw e (Yields-fail Anything _)
  ]

  pub Yields-device_holder :
      (u c d h : Bytes) (t : ℕ) → Yields w Anything (device_holder service call u c d h t)
  unfolding device_holder
  Yields-device_holder u c d h t =
      Yields-bind (DeviceOk w) Anything _ _
        (Stores.Yields-device_by_credential_for_update w engine h)
        λ v hv. Yields-refuse Anything _ _ _ λ _.
          Yields-bind Anything Anything _ _ (Yields-expiry v.credential_expires_at) λ e _.
            Yields-bind Anything Anything _ _
              (Yields-cancel_pending_device_rotation w service call v hv)
              λ _ _. Yields-pure Anything _ tt

  pub Yields-connector_holder : (h : Bytes) → Yields w Anything (connector_holder service call h)
  unfolding connector_holder
  Yields-connector_holder h =
      Yields-bind (ConnectorOk w) Anything _ _
        (Stores.Yields-connector_by_credential_for_update w engine h)
        λ v hv. Yields-refuse Anything _ _ _ λ _.
          Yields-bind Anything Anything _ _ (Yields-expiry v.credential_expires_at) λ e _.
            Yields-bind Anything Anything _ _ (Yields-cancel_pending_rotation w service call v hv)
              λ _ _. Yields-pure Anything _ tt

  Yields-store_ticket :
      (r : Role) (t : Bytes) (h : Holder) → Yields w Anything (store_ticket service call r t h)
  unfolding store_ticket
  Yields-store_ticket r t h =
      Yields-check Anything _ _
        (Yields-check Anything _ _ (Creates.Yields-create_relay_ticket w engine _))

  pub Yields-issued :
      (r : Role) (t : Bytes) (m : Tx Holder)
      → Yields w Anything m
      → Yields w Anything (◌>>=◌ m (store_ticket service call r t))
  Yields-issued r t m h = Yields-bind Anything Anything m _ h λ v _. Yields-store_ticket r t v

  pub Yields-current_identity :
      (t : RelayTicket) (r : Role) → Yields w Anything (current_identity service call t r)
  unfolding current_identity
  Yields-current_identity t client =
      Yields-bind (DeviceOk w) Anything _ _ (Stores.Yields-device_by_id_for_update w engine _)
        λ _ _. Yields-refuse Anything _ _ _ λ _. Yields-pure Anything _ tt
  Yields-current_identity t connector =
      Yields-bind (ConnectorOk w) Anything _ _ (Stores.Yields-connector_by_id_for_update w engine _)
        λ _ _. Yields-refuse Anything _ _ _ λ _. Yields-pure Anything _ tt
  Yields-current_identity t other_role = Yields-fail Anything _

  pub Yields-trusted_identities :
      (u : Bytes) (r : Role) (s : Bytes) → Yields w Anything (trusted_identities engine u r s)
  unfolding trusted_identities
  Yields-trusted_identities u r s = elim (Bool-cases (is_client r)) [
    | inl e ↦ rw e (
        Yields-bind Anything Anything _ _ (Yields-read Anything _ (λ _ _ _ _. tt)) λ t _.
          Yields-bind Anything Anything _ _ (Yields-read Anything _ (λ _ _ _ _. tt))
            λ c _. Yields-pure Anything _ tt)
    | inr e ↦ rw e (
        Yields-bind Anything Anything _ _ (Yields-read Anything _ (λ _ _ _ _. tt)) λ t _.
          Yields-bind Anything Anything _ _ (Yields-read Anything _ (λ _ _ _ _. tt))
            λ c _. Yields-pure Anything _ tt)
  ]

  Yields-admit : (t : RelayTicket) (a : ℕ) → Yields w Anything (admit service call t a)
  unfolding admit
  Yields-admit t a = Yields-check Anything _ _ (
      Yields-check Anything _ _ (
        Yields-bind Anything Anything _ _ (Yields-current_identity t t.role) λ _ _.
          Yields-bind Anything Anything _ _ (Yields-trusted_identities _ _ _) λ _ _.
            Yields-bind Anything Anything _ _
              (Stores.Yields-save_relay_ticket w engine _
                (Settled-some w.ticket t.token_hash call.now))
              λ _ _. Yields-pure Anything _ tt))

  pub Yields-consume_transaction :
      (t : Bytes) → Yields w Anything (consume_transaction service call t)
  unfolding consume_transaction
  Yields-consume_transaction t =
      Yields-bind (TicketOk w) Anything _ _ (Stores.Yields-relay_ticket_for_update w engine _)
        λ r hr. Yields-refuse Anything _ _ _ λ _.
          Yields-bind Anything Anything _ _ (Yields-expiry r.authorization_expires_at)
            λ a _. Yields-admit r a
