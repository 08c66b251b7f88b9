-- ===== src/Connectors/Lifecycle/Lockout.antt =====
-- While a revoked device, a revoked connector or a used ticket is watched, the operations of
-- internal/connectors/service.go that would admit it do not succeed.
use openremotecode_api.Prelude.{ℕ, ◌≡◌, refl, Bool, true, false, ◌&&◌, arith}
use openremotecode_api.Bytes.{Bytes, ◌==◌, eq_sound}
use openremotecode_api.Connectors.Types.{
  RelayTicket, Role, client, connector, other_role, is_client, is_connector, Admission,
}
use openremotecode_api.Connectors.Service.{Service, Call}
use openremotecode_api.Connectors.Tokens.{hash_secret}
use openremotecode_api.Connectors.Ticket.{
  device_holder, current_identity, admit, consume_transaction,
}
use openremotecode_api.Connectors.Admissions.{validate_transaction}
use openremotecode_api.Connectors.Credential.DeviceCredential.{
  rotate_device_transaction, activate_device_transaction,
}
use openremotecode_api.Connectors.Lifecycle.{
  DeviceOk, Yields, Anything, Yields-pure, Yields-fail, Yields-refuse, Yields-check, Yields-bind,
  Yields-weaken,
}
use openremotecode_api.Connectors.Lifecycle.Stores
use openremotecode_api.Connectors.Lifecycle.Retire.{watch_device, watch_connector, watch_ticket}
use openremotecode_api.Connectors.Lifecycle.Tickets

abbrev pub Never : {A : Type 0} → A → Type 0
Never _ = ⊥

-- Whom an admission is for.
abbrev pub is_device : Bytes → Admission → Bool
is_device d a = is_client a.role && (a.subject_id == d)

abbrev pub is_the_connector : Bytes → Admission → Bool
is_the_connector c a = is_connector a.role && (a.subject_id == c)

module _ (service : Service) (call : Call) (d : Bytes) where
  open service use {engine, lib}

  -- A device that the guard accepts by its ID is revoked, and the guard turns it away for that.
  pub Never-device_holder :
      (u c h : Bytes) (t : ℕ) → Yields (watch_device d) Never (device_holder service call u c d h t)
  unfolding device_holder
  Never-device_holder u c h t =
      Yields-bind (DeviceOk (watch_device d)) Never _ _
        (Stores.Yields-device_by_credential_for_update (watch_device d) engine h)
        λ v hv. Yields-refuse Never _ _ _ λ e. absurd (ground (arith, eq_sound v.id d))

  pub Never-rotate_device :
      (u s k : Bytes)
      → Yields (watch_device d) Never (rotate_device_transaction service call u s d k)
  unfolding rotate_device_transaction
  Never-rotate_device u s k =
      Yields-bind (DeviceOk (watch_device d)) Never _ _
        (Stores.Yields-device_by_credential_for_update (watch_device d) engine _)
        λ v hv. Yields-refuse Never _ _ _ λ e. absurd (ground (arith, eq_sound v.id d))

  pub Never-activate_device :
      (u s k : Bytes)
      → Yields (watch_device d) Never (activate_device_transaction service call u s d k)
  unfolding activate_device_transaction
  Never-activate_device u s k =
      Yields-bind (DeviceOk (watch_device d)) Never _ _
        (Stores.Yields-device_by_any_credential_for_update (watch_device d) engine _)
        λ v hv. Yields-refuse Never _ _ _ λ e. absurd (ground (arith, eq_sound v.id d))

  pub Never-validate_device :
      (a : Admission)
      → is_connector a.role ≡ false
      → a.subject_id ≡ d
      → Yields (watch_device d) Never (validate_transaction service call a)
  unfolding validate_transaction
  Never-validate_device a e s =
      rw (e, s)
        (Yields-bind _ Never _ _ (Stores.Yields-device_of_id (watch_device d) engine d)
          λ v (hv, here). Yields-refuse Never _ _ _ λ e. absurd (ground (arith, eq_sound v.id d)))

  -- Whoever has an identity that is current is not the device.
  Other-current_identity_device :
      (t : RelayTicket) (r : Role)
      → Yields
          (watch_device d)
          (λ _. (is_client r && (t.subject_id == d)) ≡ false)
          (current_identity service call t r)
  unfolding current_identity
  Other-current_identity_device t client =
      Yields-bind _ _ _ _ (Stores.Yields-device_of_id (watch_device d) engine t.subject_id)
        λ v (hv, here). Yields-refuse _ _ _ _ λ e.
          Yields-pure _ _ (ground (arith, eq_sound v.id t.subject_id here, eq_sound t.subject_id d))
  Other-current_identity_device t connector =
      Yields-bind Anything _ _ _
        (Yields-weaken _ Anything _ (λ _ _. tt)
          (Stores.Yields-connector_of_id (watch_device d) engine t.subject_id))
        λ v _. Yields-refuse _ _ _ _ λ e. Yields-pure _ _ refl
  Other-current_identity_device t other_role = Yields-fail _ _

  Other-admit_device :
      (t : RelayTicket) (a : ℕ)
      → Yields (watch_device d) (λ v. is_device d v ≡ false) (admit service call t a)
  unfolding admit
  Other-admit_device t a = Yields-check _ _ _ (
      Yields-check _ _ _ (
        Yields-bind _ _ _ _ (Other-current_identity_device t t.role) λ v other.
          Yields-bind Anything _ _ _ (Tickets.Yields-trusted_identities _ service call _ _ _) λ _ _.
            Yields-bind Anything _ _ _
              (Stores.Yields-save_relay_ticket (watch_device d) engine _ tt)
              λ _ _. Yields-pure _ _ other))

  pub Other-consume_device :
      (t : Bytes)
      → Yields (watch_device d) (λ v. is_device d v ≡ false) (consume_transaction service call t)
  unfolding consume_transaction
  Other-consume_device t =
      Yields-bind Anything _ _ _
        (Yields-weaken _ Anything _ (λ _ _. tt)
          (Stores.Yields-relay_ticket_for_update (watch_device d) engine _))
        λ r _. Yields-refuse _ _ _ _ λ _.
          Yields-bind Anything _ _ _ (Tickets.Yields-expiry _ service call _)
            λ a _. Other-admit_device r a

module _ (service : Service) (call : Call) (c : Bytes) where
  open service use {engine, lib}

  pub Never-validate_connector :
      (a : Admission)
      → is_connector a.role ≡ true
      → a.subject_id ≡ c
      → Yields (watch_connector c) Never (validate_transaction service call a)
  unfolding validate_transaction
  Never-validate_connector a e s =
      rw (e, s)
        (Yields-bind _ Never _ _ (Stores.Yields-connector_of_id (watch_connector c) engine c)
          λ v (hv, here). Yields-refuse Never _ _ _ λ e. absurd (ground (arith, eq_sound v.id c)))

  -- Whoever has an identity that is current is not the connector.
  Other-current_identity_connector :
      (t : RelayTicket) (r : Role)
      → Yields
          (watch_connector c)
          (λ _. (is_connector r && (t.subject_id == c)) ≡ false)
          (current_identity service call t r)
  unfolding current_identity
  Other-current_identity_connector t connector =
      Yields-bind _ _ _ _ (Stores.Yields-connector_of_id (watch_connector c) engine t.subject_id)
        λ v (hv, here). Yields-refuse _ _ _ _ λ e.
          Yields-pure _ _ (ground (arith, eq_sound v.id t.subject_id here, eq_sound t.subject_id c))
  Other-current_identity_connector t client =
      Yields-bind Anything _ _ _
        (Yields-weaken _ Anything _ (λ _ _. tt)
          (Stores.Yields-device_of_id (watch_connector c) engine t.subject_id))
        λ v _. Yields-refuse _ _ _ _ λ e. Yields-pure _ _ refl
  Other-current_identity_connector t other_role = Yields-fail _ _

  Other-admit_connector :
      (t : RelayTicket) (a : ℕ)
      → Yields (watch_connector c) (λ v. is_the_connector c v ≡ false) (admit service call t a)
  unfolding admit
  Other-admit_connector t a = Yields-check _ _ _ (
      Yields-check _ _ _ (
        Yields-bind _ _ _ _ (Other-current_identity_connector t t.role) λ v other.
          Yields-bind Anything _ _ _ (Tickets.Yields-trusted_identities _ service call _ _ _) λ _ _.
            Yields-bind Anything _ _ _
              (Stores.Yields-save_relay_ticket (watch_connector c) engine _ tt)
              λ _ _. Yields-pure _ _ other))

  pub Other-consume_connector :
      (t : Bytes)
      → Yields
          (watch_connector c)
          (λ v. is_the_connector c v ≡ false)
          (consume_transaction service call t)
  unfolding consume_transaction
  Other-consume_connector t =
      Yields-bind Anything _ _ _
        (Yields-weaken _ Anything _ (λ _ _. tt)
          (Stores.Yields-relay_ticket_for_update (watch_connector c) engine _))
        λ r _. Yields-refuse _ _ _ _ λ _.
          Yields-bind Anything _ _ _ (Tickets.Yields-expiry _ service call _)
            λ a _. Other-admit_connector r a

module _ (service : Service) (call : Call) (t : Bytes) where
  open service use {engine, lib}

  -- A ticket that is watched has been used.
  pub Never-consume_transaction :
      Yields (watch_ticket (hash_secret lib t)) Never (consume_transaction service call t)
  unfolding consume_transaction
  Never-consume_transaction =
      Yields-bind _ Never _ _
        (Stores.Yields-ticket_of_hash (watch_ticket (hash_secret lib t)) engine (hash_secret lib t))
        λ v (hv, here).
          Yields-refuse Never _ _ _
            λ e. absurd (ground (arith, eq_sound v.token_hash (hash_secret lib t)))
