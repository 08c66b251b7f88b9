-- ===== src/Identity/Lifecycle/Steps.antt =====
-- The operations of internal/identity as steps between worlds, each call with its own clock, random
-- bytes and collaborators, in any order. The operations that only read are not steps.
use openremotecode_api.Prelude.{◌≡◌, none, []}
use openremotecode_api.Bytes.{Bytes}
use openremotecode_api.Identity.Types.{RegisterInput, LoginInput, VerifyEmailInput, GoogleAuthInput}
use openremotecode_api.Identity.Service.{Service, Call, World}
use openremotecode_api.Identity.Operations.Register.{register}
use openremotecode_api.Identity.Operations.Login.{login}
use openremotecode_api.Identity.Operations.Verification.{verify_email, resend_verification}
use openremotecode_api.Identity.Operations.Sessions.{refresh, logout}
use openremotecode_api.Identity.Operations.Google.{authenticate_with_google}
use openremotecode_api.Identity.Lifecycle.{Watch, Inv}
use openremotecode_api.Identity.Lifecycle.Preserved.{
  Safe-register, Safe-verify_email, Safe-resend_verification, Safe-refresh, Safe-logout,
}
use openremotecode_api.Identity.Lifecycle.Entries.{Safe-login, Safe-authenticate_with_google}
use openremotecode_api.Prelude.{subst, sym}

-- `w'` is what one call of an operation leaves of `w`.
pub data Step (service : Service) (w w' : World) : Type 0 where
  registers :
      (call : Call) (input : RegisterInput)
      → w' ≡ (register service call input w).1
      → Step service w w'
  logs_in :
      (call : Call) (input : LoginInput) → w' ≡ (login service call input w).1 → Step service w w'
  verifies :
      (call : Call) (input : VerifyEmailInput)
      → w' ≡ (verify_email service call input w).1
      → Step service w w'
  resends :
      (call : Call) (ticket : Bytes)
      → w' ≡ (resend_verification service call ticket w).1
      → Step service w w'
  refreshes :
      (call : Call) (token : Bytes) → w' ≡ (refresh service call token w).1 → Step service w w'
  logs_out :
      (call : Call) (token : Bytes) → w' ≡ (logout service call token w).1 → Step service w w'
  enters_with_google :
      (call : Call) (input : GoogleAuthInput)
      → w' ≡ (authenticate_with_google service call input w).1
      → Step service w w'

pub data Reach (service : Service) (w : World) : World → Type 0 where
  here : Reach service w w
  next : {a b : World} → Reach service w a → Step service a b → Reach service w b

-- The tables that a migration creates.
abbrev pub empty : World
empty = record {
  db = record {
    users = [];
    federated_identities = [];
    sessions = [];
    refresh_credentials = [];
    email_verifications = [];
    audit_events = [];
  };
  mails = [];
  announced = [];
}

Step-Inv :
    (v : Watch) (service : Service) (w w' : World) → Inv v w.db → Step service w w' → Inv v w'.db
Step-Inv v service w w' i (registers call input e) =
    subst (λ w. Inv v w.db) (sym e) ((Safe-register v service call input).at w i)
Step-Inv v service w w' i (logs_in call input e) =
    subst (λ w. Inv v w.db) (sym e) ((Safe-login v service call input).at w i)
Step-Inv v service w w' i (verifies call input e) =
    subst (λ w. Inv v w.db) (sym e) ((Safe-verify_email v service call input).at w i)
Step-Inv v service w w' i (resends call ticket e) =
    subst (λ w. Inv v w.db) (sym e) ((Safe-resend_verification v service call ticket).at w i)
Step-Inv v service w w' i (refreshes call token e) =
    subst (λ w. Inv v w.db) (sym e) ((Safe-refresh v service call token).at w i)
Step-Inv v service w w' i (logs_out call token e) =
    subst (λ w. Inv v w.db) (sym e) ((Safe-logout v service call token).at w i)
Step-Inv v service w w' i (enters_with_google call input e) =
    subst (λ w. Inv v w.db) (sym e) ((Safe-authenticate_with_google v service call input).at w i)

-- The invariant is kept along a run.
pub Reach-Inv :
    (v : Watch) (service : Service) {w w' : World} → Inv v w.db → Reach service w w' → Inv v w'.db
Reach-Inv v service i here = i
Reach-Inv v service i (next {a} {b} r st) = Step-Inv v service a b (Reach-Inv v service i r) st

abbrev pub watch_nothing : Watch
watch_nothing = record { session = none; refresh = none; accounts = [] }

pub Reach-WellFormed :
    (service : Service) (w : World) → Reach service empty w → Inv watch_nothing w.db
Reach-WellFormed service w r =
    Reach-Inv watch_nothing service
      (record {
        sessions = tt;
        refreshes = tt;
        accounts = tt;
        owners = tt;
        links = tt;
        user_ids = tt;
        session_ids = tt;
        hashes = tt;
      })
      r
