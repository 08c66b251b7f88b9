-- ===== src/Server/Authorizers.antt =====
-- `AuthorizeAccount` and `AuthorizeSession`, the callbacks of cmd/server/setup.go by which the connectors
-- module asks the identity module.
use openremotecode_api.Prelude.{ℕ, ◌≡◌, ◌⊎◌, if◌then◌else◌, Bool, true, false, Option, none, some}
use openremotecode_api.Bytes.{Bytes, ◌==◌}
use openremotecode_api.Database.Transaction
use openremotecode_api.Connectors.Errors
use openremotecode_api.Connectors.Errors.{normalize_authorization_error}
use openremotecode_api.Database.{SqlError, error}
use openremotecode_api.Connectors.Types.{Admission}
use openremotecode_api.Connectors.Tx.{Tx, committed}
use openremotecode_api.Connectors.Tx
use openremotecode_api.Connectors.Service
use openremotecode_api.Identity.Errors.{Error, unauthorized}
use openremotecode_api.Identity.Db.{Db, Result}
use openremotecode_api.Identity.Service.{Service}
use openremotecode_api.Identity.Operations.Access.{authorize_account, authorize_session}

-- `errors.Is(err, identity.ErrUnauthorized)`
abbrev pub is_unauthorized : Error → Bool
is_unauthorized unauthorized = true
is_unauthorized _ = false

-- An error of the identity module is another error to the connectors module, known by a number, except
-- that the two errors of a refused authorization are each other's.
module _ (number_of : Error → ℕ) where
  unfoldable pub error_of : Error → openremotecode_api.Connectors.Errors.Error
  error_of e =
      if is_unauthorized e
      then openremotecode_api.Connectors.Errors.Error.unauthorized
      else openremotecode_api.Connectors.Errors.Error.other (number_of e)

  unfoldable pub answer_of : Result (Unit {0}) → Option openremotecode_api.Connectors.Errors.Error
  answer_of (openremotecode_api.Database.Transaction.ok _) = none
  answer_of (openremotecode_api.Database.Transaction.err e) = some (error_of e)

  -- A call of the connectors module, whose authorizers are the identity module's on its tables
  unfoldable pub authorized_call :
      Service
      → Db
      → openremotecode_api.Connectors.Service.Call
      → openremotecode_api.Connectors.Service.Call
  authorized_call identity db call = record call {
    authorize_account = λ user. answer_of (authorize_account identity user db);
    authorize_session =
        λ user session. answer_of (authorize_session identity user session call.now db);
  }

-- An answer of the identity module that says nothing of the account or the session.
abbrev pub IsOutage : Result (Unit {0}) → Type 0
IsOutage r =
    (e : Error) × (r ≡ openremotecode_api.Database.Transaction.err e) × (is_unauthorized e ≡ false)

-- How a validation of a client admission ends, by what it read and was answered.
module _ (service : openremotecode_api.Connectors.Service.Service)
    (call : openremotecode_api.Connectors.Service.Call) (a : Admission)
    (db : openremotecode_api.Connectors.Tx.Db) where
  abbrev Ending : openremotecode_api.Connectors.Errors.Result (Unit {0}) → Type 0
  Ending r =
      (r
        ≡ openremotecode_api.Connectors.Errors.err
            openremotecode_api.Connectors.Errors.Error.unauthorized)
      ⊎ (((e : SqlError) × (service.engine.first (λ d. d.id == a.subject_id) db.devices ≡ error e))
          ⊎ (((user : Bytes) × (e : openremotecode_api.Connectors.Errors.Error)
                × (call.authorize_account user ≡ some e)
                × (r ≡ openremotecode_api.Connectors.Errors.err (normalize_authorization_error e)))
              ⊎ (((user : Bytes) × (e : openremotecode_api.Connectors.Errors.Error)
                    × (call.authorize_session user a.session_id ≡ some e)
                    × (r
                        ≡ openremotecode_api.Connectors.Errors.err
                            (normalize_authorization_error e)))
                  ⊎ ((user : Bytes) × (call.authorize_session user a.session_id ≡ none)))))
