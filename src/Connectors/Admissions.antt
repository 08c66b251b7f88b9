-- ===== src/Connectors/Admissions.antt =====
-- `ValidateAdmission` of internal/connectors/service.go.
use openremotecode_api.Prelude.{ℕ, Bool, true, false, ◌||◌, not, is_some, is_none, if◌then◌else◌}
use openremotecode_api.Bytes.{◌==◌}
use openremotecode_api.Connectors.Errors.{Result, ok, err, unauthorized}
use openremotecode_api.Connectors.Types.{
  is_empty, same_identity, is_client, is_connector, Admission, Connector, Device,
}
use openremotecode_api.Connectors.Tx.{
  Tx, Db, ◌>>=◌, ◌>>◌, refuse, check, within_transaction, committed,
}
use openremotecode_api.Connectors.Store.{connector_by_id_for_update, device_by_id_for_update}
use openremotecode_api.Connectors.Service.{Service, Call}
use openremotecode_api.Connectors.Credential.{lives}

-- What the guard before the transaction turns away.
abbrev pub malformed_admission : Admission → Bool
malformed_admission a =
    is_empty a.user_id
    || is_empty a.subject_id
    || (if is_connector a.role
        then false
        else if is_client a.role
        then is_empty a.session_id
        else true)

abbrev pub stale_connector : ℕ → Admission → Connector → Bool
stale_connector now a c =
    not (c.user_id == a.user_id)
    || not (same_identity c.identity a.identity)
    || is_some c.revoked_at
    || not (lives c.credential_expires_at now)

abbrev pub stale_device : ℕ → Admission → Device → Bool
stale_device now a d =
    not (d.user_id == a.user_id)
    || not (same_identity d.identity a.identity)
    || is_none d.activated_at
    || is_some d.revoked_at
    || not (lives d.credential_expires_at now)

module _ (service : Service) (call : Call) where
  open service use {engine}
  open call use {now}

  unfoldable pub validate_transaction : Admission → Tx (Unit {0})
  validate_transaction admission =
      if is_connector admission.role
      then (do
        connector ← connector_by_id_for_update engine admission.subject_id
        refuse (stale_connector now admission connector) unauthorized
        check (call.authorize_account connector.user_id))
      else (do
        device ← device_by_id_for_update engine admission.subject_id
        refuse (stale_device now admission device) unauthorized
        check (call.authorize_account device.user_id)
        check (call.authorize_session device.user_id admission.session_id))

  unfoldable pub validate_admission : Admission → Db → Result (Unit {0}) × Db
  validate_admission admission db =
      if malformed_admission admission
      then (err unauthorized, db)
      else committed (within_transaction (validate_transaction admission) db) ok
