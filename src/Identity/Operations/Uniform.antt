-- ===== src/Identity/Operations/Uniform.antt =====
-- `Register` of internal/identity/service.go answers a free address and a taken one alike.
use openremotecode_api.Prelude.{ℕ, ◌+◌, ◌≡◌, refl, sym, ap, subst, not, Option, none, some, arith}
use openremotecode_api.Bytes.{Bytes, text}
use openremotecode_api.Database.Transaction.{Result, ok, err}
use openremotecode_api.Identity.Errors.{Error}
use openremotecode_api.Identity.Types.{Account, AuthOutcome, with_verification, RegisterInput}
use openremotecode_api.Identity.Tokens
use openremotecode_api.Identity.Tokens.{issue_token, issue_identifier, issue_verification_code}
use openremotecode_api.Identity.Tokens.Issued.{
  IsEnd, IsEnd-trans, issue_random_value-IsEnd, issue_verification_code-IsEnd,
}
use openremotecode_api.Identity.Validation.{normalize_email, valid_registration_password}
use openremotecode_api.Identity.Service.{Service, Call, World, verification_code_lifetime}
use openremotecode_api.Identity.Materials.{VerificationMaterial, new_verification_material}
use openremotecode_api.Identity.Operations.{return, on_error}
use openremotecode_api.Identity.Operations.Outcomes.{run_ok, require_ok, unless_raised}
use openremotecode_api.Identity.Operations.Register.{
  register, register_checked, registered, decoy_registration, pending_account, is_disposable,
}

-- A challenge for a pending account, which the identifier and the ticket alone tell apart.
abbrev pub challenge_to : Bytes → ℕ → Bytes → Bytes → AuthOutcome
challenge_to email now id ticket = with_verification (record {
  account = pending_account id email now;
  ticket = ticket;
  ticket_expires_at = now + verification_code_lifetime;
})

-- The value is issued from random bytes that are an end of the given ones.
abbrev pub IsIssued : (Bytes → Result Error (Bytes × Bytes)) → Bytes → Bytes → Type 0
IsIssued issue random value =
    (from : Bytes) × (left : Bytes) × IsEnd from random × (issue from ≡ ok (value, left))

abbrev pub IsChallenge : Bytes → ℕ → Bytes → AuthOutcome → Type 0
IsChallenge email now random a =
    (id : Bytes) × (ticket : Bytes) × (a ≡ challenge_to email now id ticket)
    × IsIssued (λ r. issue_identifier r (text "usr_")) random id
    × IsIssued (λ r. issue_token r (text "vft_")) random ticket

then_ok :
    {A B : Type 0} (r : Result Error A) (f : A → Result Error B) {b : B}
    → (Tokens.◌>>=◌ r f) ≡ ok b
    → (a : A) × (r ≡ ok a) × (f a ≡ ok b)
unfolding Tokens.◌>>=◌
then_ok (ok a) f h = (a, refl, h)
then_ok (err e) f h = absurd (ground arith)

issue_token-IsEnd :
    (random prefix token rest : Bytes)
    → issue_token random prefix ≡ ok (token, rest)
    → IsEnd rest random
unfolding issue_token
issue_token-IsEnd random prefix token rest h =
    issue_random_value-IsEnd random prefix 32 token rest h

issue_identifier-IsEnd :
    (random prefix id rest : Bytes)
    → issue_identifier random prefix ≡ ok (id, rest)
    → IsEnd rest random
unfolding issue_identifier
issue_identifier-IsEnd random prefix id rest h = issue_random_value-IsEnd random prefix 18 id rest h

material_shape :
    (service : Service) (account : Account) (name : Bytes) (now : ℕ) (random : Bytes)
    {m : VerificationMaterial} {rest : Bytes}
    → new_verification_material service account name now random ≡ ok (m, rest)
    → (ticket : Bytes) × (m.challenge ≡ record {
      account = account;
      ticket = ticket;
      ticket_expires_at = now + verification_code_lifetime;
    })
      × IsIssued (λ r. issue_token r (text "vft_")) random ticket
      × IsEnd rest random
unfolding new_verification_material
material_shape service account name now random {m} {rest} h =
    let ((ticket, r1), e1, h1) = then_ok (issue_token random (text "vft_")) _ h in
    let ((code, r2), e2, h2) = then_ok (issue_verification_code r1) _ h1 in
    let end1 = issue_token-IsEnd random (text "vft_") ticket r1 e1 in
    let end2 = issue_verification_code-IsEnd r1 code r2 e2 in
    let same : r2 ≡ rest = ground (arith, h2) in
    (
      ticket,
      ground (arith, h2),
      (random, r1, (0, refl), e1),
      subst (λ r. IsEnd r random) same (IsEnd-trans r2 r1 random end2 end1),
    )

returned : {A : Type 0} {a b : A} {w w' : World} → return a w ≡ (ok b, w') → b ≡ a
returned h = ground arith

on_error_ok : {A : Type 0} (r : Result Error A) (e : Error) {a : A} → on_error r e ≡ ok a → r ≡ ok a
on_error_ok (ok a) e h = h
on_error_ok (err d) e h = absurd (ground arith)

module _ (service : Service) (call : Call) where
  open service use {lib}

  decoy-IsChallenge :
      (email normalized : Bytes) (now : ℕ) (random : Bytes) (w w' : World) (a : AuthOutcome)
      → decoy_registration service call email normalized now random w ≡ (ok a, w')
      → IsChallenge email now random a
  unfolding decoy_registration
  decoy-IsChallenge email normalized now random w w' a h =
      let ((ticket, rest), e1, h) = require_ok _ _ w h in
      let ((id, left), e2, h) = require_ok _ _ w h in
      let (_, w1, _, h) = run_ok _ _ w h in
      let (_, w2, _, h) = run_ok _ _ w1 h in
      let end = issue_token-IsEnd random (text "vft_") ticket rest e1 in
      (id, ticket, returned h, (rest, left, end, e2), (random, rest, (0, refl), e1))

  widened :
      (email : Bytes) (now : ℕ) (part random : Bytes) (a : AuthOutcome)
      → IsEnd part random
      → IsChallenge email now part a
      → IsChallenge email now random a
  widened email now part random a end (id, ticket, e, (f1, l1, e1, q1), (f2, l2, e2, q2)) = (
    id,
    ticket,
    e,
    (f1, l1, IsEnd-trans f1 part random e1 end, q1),
    (f2, l2, IsEnd-trans f2 part random e2 end, q2),
  )

  registered_challenge :
      (email normalized : Bytes) (now : ℕ) (all random id : Bytes) (m : VerificationMaterial)
      (o : Option (Unit {0})) (w w' : World) (a : AuthOutcome)
      → IsEnd random all
      → IsChallenge email now all (with_verification m.challenge)
      → registered service call email normalized now random id m o w ≡ (ok a, w')
      → IsChallenge email now all a
  unfolding registered
  registered_challenge email normalized now all random id m none w w' a end made h =
      widened email now random all a end (decoy-IsChallenge email normalized now random w w' a h)
  registered_challenge email normalized now all random id m (some _) w w' a end made h =
      let (_, w1, _, h) = run_ok _ _ w h in
      subst (IsChallenge email now all) (sym (returned h)) made

  -- Whatever `Register` answers without an error, for an address that is free or one that is taken,
  -- is a challenge for an account that is pending, not verified and not bounced, at the address that
  -- was handed in, created at the time of the call, with a ticket that ends ten minutes later. Two
  -- answers differ in nothing but the identifier and the ticket, and in both cases these are what
  -- `issueIdentifier` for "usr_" and `issueToken` for "vft_" make of bytes of the call's random source.
  pub registration_answers_alike :
      (input : RegisterInput) (w w' : World) (a : AuthOutcome)
      → register service call input w ≡ (ok a, w')
      → (email : Bytes) × (normalized : Bytes) × (normalize_email lib input.email
          ≡ ok (email, normalized))
        × IsChallenge email (call.now 0) (call.random 0) a
  unfolding register register_checked
  registration_answers_alike input w w' a h =
      let random = call.random 0 in
      let now = call.now 0 in
      let ((email, normalized), parsed, h) = require_ok _ _ w h in
      let (_, h) = unless_raised (not (valid_registration_password lib input.password)) _ _ w h in
      let (_, h) = unless_raised (is_disposable service.disposable_emails email) _ _ w h in
      let (name, _, h) = require_ok _ _ w h in
      let (hash, _, h) = require_ok _ _ w h in
      let ((id, r1), drawn, h) = require_ok _ _ w h in
      let ((m, r2), made, h) = require_ok _ _ w h in
      let (o, w1, _, h) = run_ok _ _ w h in
      let (ticket, shape, (from, left, inside, issued), rest) =
        material_shape service _ name now _ made in
      let end = issue_identifier-IsEnd random (text "usr_") id r1 drawn in
      let all = IsEnd-trans r2 r1 random rest end in
      let challenge : IsChallenge email now random (with_verification m.challenge) = (
        id,
        ticket,
        ap with_verification shape,
        (random, r1, (0, refl), drawn),
        (from, left, IsEnd-trans from r1 random inside end, issued),
      ) in
      (
        email,
        normalized,
        on_error_ok _ _ parsed,
        registered_challenge email normalized now random r2 id m o w1 w' a all challenge h,
      )
