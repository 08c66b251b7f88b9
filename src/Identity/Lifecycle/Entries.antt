-- ===== src/Identity/Lifecycle/Entries.antt =====
-- The two ways into an account of internal/identity, by password and by Google, keep the invariant.
use openremotecode_api.Prelude.{
  ℕ, zero, suc, ◌≡◌, refl, Bool, true, false, ◌&&◌, not, Option, none, some, inl, inr, Bool-cases,
  if◌then◌else◌, subst,
}
use openremotecode_api.Bytes.{Bytes, ◌==◌}
use openremotecode_api.Database.{Answer, rows, error}
use openremotecode_api.Database.Rows.{Among}
use openremotecode_api.Database.Transaction.{ok, err}
use openremotecode_api.Identity.Errors.{invalid_credentials, is_conflict, is_not_found}
use openremotecode_api.Identity.Db.{Result, answered, translate_error}
use openremotecode_api.Identity.Store.{user_by_normalized_email}
use openremotecode_api.Identity.Types.{
  User, AccountStatus, pending, active, disabled, has_password, LoginInput, GoogleAuthInput,
  GoogleIdentity, Credentials,
}
use openremotecode_api.Identity.Validation.{valid_login_password}
use openremotecode_api.Identity.Service.{Service, Call, World}
use openremotecode_api.Identity.Transactions.Google.{GoogleOutcome, Asserted}
use openremotecode_api.Identity.Transactions.Sessions.{login_transaction}
use openremotecode_api.Identity.Operations.{Op, raise, ◌>>=◌}
use openremotecode_api.Identity.Operations.Login.{
  login, login_found, login_user, login_status, start_session,
}
use openremotecode_api.Identity.Operations.Google.{
  google_sign_in, google_next, google_attempts, google_verified, google_with,
  authenticate_with_google,
}
use openremotecode_api.Identity.Lifecycle.{Watch, Inv, Keeps, also, Inv-forget}
use openremotecode_api.Identity.Lifecycle.Stores.{Inv-found}
use openremotecode_api.Identity.Lifecycle.Transactions
use openremotecode_api.Identity.Lifecycle.Transactions.{session_owner}
use openremotecode_api.Identity.Lifecycle.Transactions.Google
use openremotecode_api.Identity.Lifecycle.Operations.{
  Safe, Safe-return, Safe-raise, Safe-commits, Safe-if, Safe-bind, Safe-given, then_keeps,
}
use openremotecode_api.Identity.Lifecycle.Preserved.{Safe-reissue_verification}

module _ (w : Watch) (service : Service) (call : Call) where
  open service use {engine, lib}

  Safe-start_session :
      (u : User) (name : Bytes) (now : ℕ)
      → Safe (also u.id w) (start_session service call u name now)
  unfolding start_session
  Safe-start_session u name now = Safe-given (also u.id w) _ _ λ m e.
      Safe-bind (also u.id w) _ _
        (Safe-commits (also u.id w) _ (
          subst (λ id. Keeps (also id w) (login_transaction service u m now))
            (session_owner service u.account name now (call.random 0) e)
            (Transactions.Keeps-login_transaction w service u m now)))
        λ _. Safe-return (also u.id w) _

  -- The account's status, of an account that is there.
  login_status_keeps :
      (u : User) (name : Bytes) (s : AccountStatus) (world : World)
      → s ≡ u.status
      → Among u world.db.users
      → Inv w world.db
      → Inv w (login_status service call u name s world).1.db
  login_status_keeps u name pending world e m i =
      (Safe-reissue_verification w service call u name (call.now 0)).at world i
  login_status_keeps u name active world e m i = Inv-forget w u.id _ (
      (Safe-start_session u name (call.now 0)).at world
        (Inv-found w u world.db m (rw (← e) refl) i))
  login_status_keeps u name disabled world e m i = i

  login_user_keeps :
      (password name : Bytes) (u : User) (o : Option Bytes) (world : World)
      → Among u world.db.users
      → Inv w world.db
      → Inv w (login_user service call password name u o world).1.db
  unfolding login_user ◌>>=◌
  login_user_keeps password name u none world m i = i
  login_user_keeps password name u (some hash) world m i =
      then_keeps w (call.verify_password password hash, world) _ (λ verified _. checked verified) i
    where
      checked :
          (verified : Bool)
          → Inv w
              ((if not verified
                  then raise invalid_credentials
                  else login_status service call u name u.status)
                world).1.db
      checked true = login_status_keeps u name u.status world refl m i
      checked false = i

  login_answer_keeps :
      (password name : Bytes) (r : Answer User) (world : World)
      → ((u : User) → r ≡ rows u → Among u world.db.users)
      → Inv w world.db
      → Inv w (login_found service call password name (answered r) world).1.db
  unfolding login_found
  login_answer_keeps password name (rows u) world m i = elim (Bool-cases (not (has_password u))) [
    | inl q ↦ rw q i
    | inr q ↦ rw q (login_user_keeps password name u u.password_hash world (m u refl) i)
  ]
  login_answer_keeps password name (error e) world m i =
      elim (Bool-cases (is_not_found (translate_error e))) [ inl q ↦ rw q i | inr q ↦ rw q i ]

  login_found_keeps :
      (password name email : Bytes) (world : World)
      → Inv w world.db
      → Inv w
          (login_found service call password name
            (user_by_normalized_email engine email world.db)
            world).1.db
  unfolding user_by_normalized_email
  login_found_keeps password name email world i =
      login_answer_keeps password name
        (engine.first (λ u. u.normalized_email == email) world.db.users) world
        (λ u e. (engine.first_rows (λ u. u.normalized_email == email) world.db.users u e).0) i

  pub Safe-login : (input : LoginInput) → Safe w (login service call input)
  unfolding login
  Safe-login input = Safe-given w _ _ λ (_, email) _.
      Safe-if w (not (valid_login_password lib input.password)) _ _ (Safe-raise w _) (
        Safe-given w _ _
          λ name _. record { at = λ world i. login_found_keeps input.password name email world i })

  Safe-google_sign_in :
      (a : Asserted) (attempt : ℕ) → Safe w (google_sign_in service call a attempt)
  unfolding google_sign_in
  Safe-google_sign_in a attempt =
      Safe-commits w _
        (Google.Keeps-google_transaction w service (call.now attempt) a (call.random attempt))

  google_next_keeps :
      (again : Bool) (retry : Op Credentials) (r : Result GoogleOutcome × World)
      → Safe w retry
      → Inv w r.1.db
      → Inv w (google_next service call again retry r).1.db
  google_next_keeps again retry (ok _, world) h i = i
  google_next_keeps again retry (err e, world) h i = elim (Bool-cases (is_conflict e && again)) [
    | inl q ↦ rw (google_next, q) (h.at world i)
    | inr q ↦ rw (google_next, q) i
  ]

  Safe-google_attempts :
      (a : Asserted) (attempt retries : ℕ) → Safe w (google_attempts service call a attempt retries)
  unfolding google_attempts
  Safe-google_attempts a attempt zero = record {
    at = λ world i.
        google_next_keeps false _ _ (Safe-raise w _) ((Safe-google_sign_in a attempt).at world i);
  }
  Safe-google_attempts a attempt (suc retries) = record {
    at = λ world i.
        google_next_keeps true _ _ (Safe-google_attempts a (suc attempt) retries)
          ((Safe-google_sign_in a attempt).at world i);
  }

  Safe-google_verified :
      (name : Bytes) (g : GoogleIdentity) → Safe w (google_verified service call name g)
  unfolding google_verified
  Safe-google_verified name g =
      Safe-if w (not g.email_verified) _ _ (Safe-raise w _)
        (Safe-given w _ _ λ e _. Safe-google_attempts _ _ _)

  Safe-google_with :
      (input : GoogleAuthInput) (o : Option (Bytes → Result GoogleIdentity))
      → Safe w (google_with service call input o)
  Safe-google_with input none = Safe-raise w _
  Safe-google_with input (some verify) =
      Safe-given w _ _ λ name _. Safe-given w _ _ λ g _. Safe-google_verified name g

  pub Safe-authenticate_with_google :
      (input : GoogleAuthInput) → Safe w (authenticate_with_google service call input)
  unfolding authenticate_with_google
  Safe-authenticate_with_google input = Safe-google_with input service.google_verifier
