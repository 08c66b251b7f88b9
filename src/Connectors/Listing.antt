-- ===== src/Connectors/Listing.antt =====
-- The queries over several rows: `TrustedIdentities`, `ListConnectors` and `ListDevices` of
-- internal/connectors/postgres/store.go, and the operations of the service that list.
use openremotecode_api.Prelude.{
  ℕ, ◌&&◌, List, [], ◌∷◌, ◌++◌, leb, is_some, is_none, keep, map, if◌then◌else◌,
}
use openremotecode_api.Bytes.{Bytes, ◌==◌}
use openremotecode_api.Database.{Engine}
use openremotecode_api.Connectors.Errors.{Result, err, unauthorized}
use openremotecode_api.Connectors.Types.{
  is_empty, PublicIdentity, Device, Connector, Trust, Role, is_client,
}
use openremotecode_api.Connectors.Tx.{Tx, Db, pure, ◌>>=◌, within_transaction}
use openremotecode_api.Connectors.Store.{read}
use openremotecode_api.Connectors.Service.{Service}

-- ORDER BY created_at ASC; rows of one time stay in order.
insert_by {ℓ} : {Row : Type ℓ} → (Row → ℕ) → Row → List Row → List Row
insert_by time r [] = r ∷ []
insert_by time r (x ∷ l) = if leb (time r) (time x) then r ∷ x ∷ l else x ∷ insert_by time r l

unfoldable pub order_by {ℓ} : {Row : Type ℓ} → (Row → ℕ) → List Row → List Row
unfolding insert_by
order_by time [] = []
order_by time (x ∷ l) = insert_by time x (order_by time l)

-- The connectors that the join finds for one trust: those of its ID and account that are not
-- revoked.
abbrev pub joined_connectors : List Connector → Trust → List PublicIdentity
joined_connectors connectors t =
    map (λ c. c.identity)
      (keep (λ c. (c.id == t.connector_id) && (c.user_id == t.user_id) && is_none c.revoked_at)
        connectors)

abbrev pub joined_devices : List Device → Trust → List PublicIdentity
joined_devices devices t =
    map (λ d. d.identity)
      (keep (λ d. (d.id == t.device_id) && (d.user_id == t.user_id) && is_none d.revoked_at)
        devices)

unfoldable pub join {ℓ} : {A : Type ℓ} → (Trust → List A) → List Trust → List A
join f [] = []
join f (t ∷ l) = f t ++ join f l

module _ (engine : Engine) where
  -- A client trusts connectors and a connector trusts devices. The engine reads the two tables of
  -- the join.
  unfoldable pub trusted_identities : Bytes → Role → Bytes → Tx (List PublicIdentity)
  trusted_identities user_id role subject_id =
      if is_client role
      then (do
        trusts ← read (λ db.
            engine.find
              (λ t. (t.user_id == user_id) && is_none t.revoked_at && (t.device_id == subject_id))
              db.trusts)
        connectors ← read (λ db. engine.find (λ c. is_none c.revoked_at) db.connectors)
        pure (join (joined_connectors connectors) trusts))
      else (do
        trusts ← read (λ db.
            engine.find
              (λ t.
                (t.user_id == user_id) && is_none t.revoked_at && (t.connector_id == subject_id))
              db.trusts)
        devices ← read (λ db. engine.find (λ d. is_none d.revoked_at) db.devices)
        pure (join (joined_devices devices) trusts))

  unfoldable pub stored_connectors : Bytes → Tx (List Connector)
  stored_connectors user_id = do
    found ←
        read (λ db. engine.find (λ c. (c.user_id == user_id) && is_none c.revoked_at) db.connectors)
    pure (order_by (λ c. c.created_at) found)

  unfoldable pub stored_devices : Bytes → Tx (List Device)
  stored_devices user_id = do
    found ← read (λ db.
        engine.find (λ d. (d.user_id == user_id) && is_some d.activated_at && is_none d.revoked_at)
          db.devices)
    pure (order_by (λ d. d.created_at) found)

module _ (service : Service) where
  unfoldable pub list_connectors : Bytes → Db → Result (List Connector) × Db
  list_connectors user_id db =
      if is_empty user_id
      then (err unauthorized, db)
      else within_transaction (stored_connectors service.engine user_id) db

  unfoldable pub list_devices : Bytes → Db → Result (List Device) × Db
  list_devices user_id db =
      if is_empty user_id
      then (err unauthorized, db)
      else within_transaction (stored_devices service.engine user_id) db
