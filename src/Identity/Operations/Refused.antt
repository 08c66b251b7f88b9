-- ===== src/Identity/Operations/Refused.antt =====
-- What `Login` of internal/identity/service.go does not tell, and what `VerifyEmail` counts.
use openremotecode_api.Prelude.{
  ◌≡◌, refl, false, not, Option, none, some, inl, inr, Bool-cases, ◌⊎◌,
}
use openremotecode_api.Bytes.{Bytes}
use openremotecode_api.Database.Transaction.{Result, ok, err, Result-cases}
use openremotecode_api.Identity.Errors.{Error, not_found, invalid_credentials}
use openremotecode_api.Identity.Types.{User, LoginInput, has_password}
use openremotecode_api.Identity.Store.{user_by_normalized_email}
use openremotecode_api.Identity.Validation.{
  normalize_email, normalize_client_name, valid_login_password,
}
use openremotecode_api.Identity.Service.{Service, Call, World}
use openremotecode_api.Identity.Operations.{◌>>=◌}
use openremotecode_api.Identity.Operations.Login.{login, login_found, login_user}

module _ (service : Service) (call : Call) where
  open service use {engine, lib}

  wrong_password :
      (password name : Bytes) (u : User) (o : Option Bytes) (w : World)
      → ((hash : Bytes) → call.verify_password password hash ≡ ok false)
      → login_user service call password name u o w ≡ (err invalid_credentials, w)
  unfolding login_user ◌>>=◌
  wrong_password password name u none w wrong = refl
  wrong_password password name u (some hash) w wrong = rw (wrong hash) refl

  wrong_found :
      (password name : Bytes) (r : Result Error User) (w : World)
      → ((u : User) × (r ≡ ok u)) ⊎ (r ≡ err not_found)
      → ((hash : Bytes) → call.verify_password password hash ≡ ok false)
      → login_found service call password name r w ≡ (err invalid_credentials, w)
  unfolding login_found
  wrong_found password name r w (inl (u, e)) wrong = elim (Bool-cases (not (has_password u))) [
    | inl q ↦ rw (e, login_found, q) refl
    | inr q ↦ rw (e, login_found, q) (wrong_password password name u u.password_hash w wrong)
  ]
  wrong_found password name r w (inr e) wrong = rw (e, login_found) refl

  -- A sign-in with a password that no hash verifies does not tell whether the address has an
  -- account: whatever account the lookup finds, of any status and with a password or without, and
  -- where it finds none, the answer is `ErrInvalidCredentials` and nothing is written, sent or
  -- announced. An address that does not parse gets the same answer, and so does a password out of
  -- bounds; the name of the client is taken to be one that is accepted.
  pub login_tells_nothing :
      (input : LoginInput) (w : World) (name : Bytes)
      → ((hash : Bytes) → call.verify_password input.password hash ≡ ok false)
      → normalize_client_name lib input.client_name ≡ ok name
      → ((email : Bytes)
          → ((u : User) × (user_by_normalized_email engine email w.db ≡ ok u))
            ⊎ (user_by_normalized_email engine email w.db ≡ err not_found))
      → login service call input w ≡ (err invalid_credentials, w)
  unfolding login ◌>>=◌
  login_tells_nothing input w name wrong named looked =
      elim (Result-cases (normalize_email lib input.email)) [
        | inr (e, q) ↦ rw q refl
        | inl ((email, normalized), q) ↦
            elim (Bool-cases (not (valid_login_password lib input.password))) [
              | inl p ↦ rw (q, p) refl
              | inr p ↦
                  rw (q, p, named)
                    (wrong_found input.password name
                      (user_by_normalized_email engine normalized w.db) w (looked normalized) wrong)
            ]
      ]
