-- ===== src/Identity/Db.antt =====
-- The tables of internal/identity/postgres/models.go, their keys, and the transactions over them.
use openremotecode_api.Prelude.{Bool, false, ◌&&◌, ◌||◌, Option, List}
use openremotecode_api.Bytes.{◌==◌}
use openremotecode_api.Database.{
  SqlError, record_not_found, duplicated_key, foreign_key_violated, check_constraint_violated,
  failed, Answer, rows, error, Schema, Engine,
}
use openremotecode_api.Database.Transaction
use openremotecode_api.Database.Transaction.{ok, err, lift, ◌>>=◌}
use openremotecode_api.Prelude.{◌+◌, length, keep, nat_eq, if◌then◌else◌}
use openremotecode_api.Identity.Errors.{Error, conflict, not_found, other, is_not_found}
use openremotecode_api.Identity.Types.{
  User, FederatedIdentity, Session, RefreshCredential, EmailVerification, AuditEvent, same_provider,
}

pub record Db : Type 0 where
  pub users : List User
  pub federated_identities : List FederatedIdentity
  pub sessions : List Session
  pub refresh_credentials : List RefreshCredential
  pub email_verifications : List EmailVerification
  pub audit_events : List AuditEvent

abbrev pub Result : Type 0 → Type 0
Result A = Transaction.Result Error A

abbrev pub Tx : Type 0 → Type 0
Tx A = Transaction.Tx Db Error A

-- A lookup whose `ErrNotFound` the caller handles.
abbrev pub optional : {A : Type 0} → Tx A → Tx (Option A)
optional m = Transaction.optional is_not_found m

abbrev pub user_schema : Schema User
user_schema = record {
  same_key = λ a b. a.id == b.id;
  clash = λ a b. (a.id == b.id) || (a.normalized_email == b.normalized_email);
}

abbrev pub federated_identity_schema : Schema FederatedIdentity
federated_identity_schema = record {
  same_key = λ a b. same_provider a.provider b.provider && (a.subject == b.subject);
  clash = λ a b.
      (same_provider a.provider b.provider && (a.subject == b.subject))
      || (same_provider a.provider b.provider && (a.user_id == b.user_id));
}

abbrev pub session_schema : Schema Session
session_schema = record {
  same_key = λ a b. a.id == b.id;
  clash = λ a b. (a.id == b.id) || (a.access_token_hash == b.access_token_hash);
}

abbrev pub refresh_credential_schema : Schema RefreshCredential
refresh_credential_schema = record {
  same_key = λ a b. a.token_hash == b.token_hash;
  clash = λ a b. a.token_hash == b.token_hash;
}

abbrev pub email_verification_schema : Schema EmailVerification
email_verification_schema = record {
  same_key = λ a b. a.user_id == b.user_id;
  clash = λ a b. (a.user_id == b.user_id) || (a.ticket_hash == b.ticket_hash);
}

-- The primary key is generated, so no two rows meet on it.
abbrev pub audit_event_schema : Schema AuditEvent
audit_event_schema = record { same_key = λ a b. false; clash = λ a b. false }

-- A refused column check is passed on as it is.
abbrev pub translate_error : SqlError → Error
translate_error record_not_found = not_found
translate_error duplicated_key = conflict
translate_error foreign_key_violated = conflict
translate_error check_constraint_violated = other 0
translate_error (failed code) = other (1 + code)

abbrev pub answered : {A : Type 0} → Answer A → Result A
answered (rows a) = ok a
answered (error e) = err (translate_error e)

abbrev pub read : {A : Type 0} → (Db → Answer A) → Tx A
read query db = elim (query db) [ rows a ↦ ok (a, db) | error e ↦ err (translate_error e) ]

-- A statement that gives a table anew.
abbrev pub write : {A : Type 0} → (Db → Answer A) → (Db → A → Db) → Tx (Unit {0})
write query store db = elim (query db) [
  | rows a ↦ ok (tt, store db a)
  | error e ↦ err (translate_error e)
]

-- An UPDATE that has to meet exactly one row (`RowsAffected`).
abbrev pub write_one :
    {Row : Type 0}
    → Engine
    → (Row → Bool)
    → (Row → Row)
    → (Db → List Row)
    → (Db → List Row → Db)
    → Tx (Unit {0})
write_one engine p f table store db = elim (engine.update p f (table db)) [
  | rows t ↦ if nat_eq (length (keep p (table db))) 1 then ok (tt, store db t) else err not_found
  | error e ↦ err (translate_error e)
]
