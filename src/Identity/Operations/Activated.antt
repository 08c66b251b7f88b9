-- ===== src/Identity/Operations/Activated.antt =====
-- What `Register` answers, and what `VerifyEmail` has checked before it activates an account, of
-- internal/identity/service.go.
use openremotecode_api.Prelude.{
  ℕ, ◌≡◌, ◌<◌, refl, true, ◌||◌, not, Option, none, some, arith, ltb, leb, subst,
}
use openremotecode_api.Bytes.{Bytes, text, ◌==◌, eq_sound}
use openremotecode_api.Database.Rows.{Among}
use openremotecode_api.Database.Transaction.{ok, ◌>>=◌}
use openremotecode_api.Identity.Types.{
  User, Account, is_pending, EmailVerification, Credentials, AuthOutcome, with_credentials,
  VerifyEmailInput,
}
use openremotecode_api.Identity.Db.{Db}
use openremotecode_api.Identity.Store.{user_by_id, email_verification_for_update, activated}
use openremotecode_api.Identity.Tokens.{issue_token, issue_identifier, valid_token}
use openremotecode_api.Identity.Tokens
use openremotecode_api.Identity.Validation.{hash_token, valid_verification_code}
use openremotecode_api.Identity.Service.{Service, Call, World, max_verification_attempts}
use openremotecode_api.Identity.Materials.{SessionMaterial, new_session_material}
use openremotecode_api.Identity.Transactions.Verification.{
  verify_transaction, verify_found, verify_user,
}
use openremotecode_api.Identity.Operations.Outcomes.{run_ok, unless_raised, commits_ok}
use openremotecode_api.Identity.Operations.Verification.{verify_email, verify_reply}
use openremotecode_api.Identity.Lifecycle.Statements.{Triple-read, Triple-lookup, Looked}
use openremotecode_api.Identity.Lifecycle.Exchange.{Always, anything}
use openremotecode_api.Database.Transaction.Triples.{
  Triple, Triple-pure, Triple-bind, Triple-if, Triple-lift, Triple-fact,
}

-- The account of the credentials to a new session is the account that it was made for.
session_account :
    (service : Service) (account : Account) (name : Bytes) (now : ℕ) (random : Bytes)
    {m : SessionMaterial}
    → new_session_material service account name now random ≡ ok m
    → m.credentials.account ≡ account
unfolding new_session_material Tokens.◌>>=◌
session_account service account name now random h = ground arith

module _ (service : Service) (now : ℕ) (random ticket code : Bytes) (db : Db) where
  open service use {engine}

  -- What stands in the tables for an activation.
  pub record Entitled (c : Credentials) : Type 0 where
    pub challenge : EmailVerification
    pub user : User
    pub found : Among challenge db.email_verifications
    pub of_ticket : challenge.ticket_hash ≡ ticket
    pub of_code : challenge.code_hash ≡ code
    pub open_still : now < challenge.expires_at
    pub attempts_left : challenge.attempts < max_verification_attempts
    pub owner : Among user db.users
    pub of_owner : user.id ≡ challenge.user_id
    pub waiting : is_pending user.status ≡ true
    pub account : c.account ≡ activated now user.account

  abbrev Outcome : Option Credentials → Db → Type 0
  Outcome none _ = Unit
  Outcome (some c) _ = Entitled c

  abbrev At : Db → Type 0
  At d = d ≡ db

  module _ (v : EmailVerification) (found : Among v db.email_verifications)
      (of_ticket : v.ticket_hash ≡ ticket) (of_code : v.code_hash ≡ code)
      (open_still : now < v.expires_at) (left : v.attempts < max_verification_attempts) where
    user_entitled :
        (u : User)
        → Among u db.users
        → u.id ≡ v.user_id
        → Triple Always (verify_user service v now random u) Outcome
    unfolding verify_user
    user_entitled u owner same =
        Triple-if Always Outcome (not (is_pending u.status)) _ _
          (λ _. Triple-pure Always Outcome none λ _ _. tt)
          λ pends. Triple-lift Always Outcome _ _ λ m made.
            Triple-bind Always (λ _ _. Unit) Outcome _ _ (anything _)
              λ _.
                Triple-bind Always (λ _ _. Unit) Outcome _ _ (anything _)
                  λ _.
                    Triple-bind Always (λ _ _. Unit) Outcome _ _ (anything _)
                      λ _.
                        Triple-bind Always (λ _ _. Unit) Outcome _ _ (anything _)
                          λ _. Triple-pure Always Outcome (some m.credentials) λ _ _. record {
                            challenge = v;
                            user = u;
                            found = found;
                            of_ticket = of_ticket;
                            of_code = of_code;
                            open_still = open_still;
                            attempts_left = left;
                            owner = owner;
                            of_owner = same;
                            waiting = ground arith;
                            account =
                                session_account service (activated now u.account) v.client_name now
                                  random made;
                          }

    code_entitled :
        Triple At (user_by_id engine v.user_id >>= verify_user service v now random) Outcome
    unfolding user_by_id
    code_entitled =
        Triple-bind At (λ u d. At d × Among u db.users × (u.id ≡ v.user_id)) Outcome _ _
          (Triple-read At (λ u d. At d × Among u db.users × (u.id ≡ v.user_id))
            (λ d. engine.first (λ u. u.id == v.user_id) d.users)
            λ d u here e.
              let (m, q) = engine.first_rows (λ u. u.id == v.user_id) d.users u e in
              (here, subst (λ (d : Db). Among u d.users) here m, eq_sound u.id v.user_id q))
          λ u.
            Triple-fact (Among u db.users × (u.id ≡ v.user_id)) _ Always Outcome _
              (λ d facts. ((facts.1, facts.2), tt)) λ facts. user_entitled u facts.0 facts.1

  found_entitled :
      (o : Option EmailVerification)
      → Triple
          (λ d. At d × Looked (λ v. v.ticket_hash == ticket) d.email_verifications o)
          (verify_found service code now random o)
          Outcome
  unfolding verify_found
  found_entitled none = Triple-pure _ Outcome none λ _ _. tt
  found_entitled (some v) =
      Triple-fact (Among v db.email_verifications × (v.ticket_hash ≡ ticket)) _ At Outcome _
        (λ d i. (
          (
            subst (λ (d : Db). Among v d.email_verifications) i.0 i.1.0,
            eq_sound v.ticket_hash ticket i.1.1,
          ),
          i.0,
        ))
        λ (found, of_ticket).
          Triple-if At Outcome
            (not (ltb now v.expires_at) || leb max_verification_attempts v.attempts) _ _
            (λ _. Triple-pure At Outcome none λ _ _. tt)
            λ open_still.
              Triple-if At Outcome (not (v.code_hash == code)) _ _
                (λ _.
                  Triple-bind At (λ _ _. Unit) Outcome _ _ (record { at = λ _ _ _ _ _. tt })
                    λ _. Triple-pure Always Outcome none λ _ _. tt)
                λ right.
                  code_entitled v found of_ticket (eq_sound v.code_hash code (ground arith))
                    (ground arith) (ground arith)

  transaction_entitled : Triple At (verify_transaction service ticket code now random) Outcome
  unfolding verify_transaction email_verification_for_update
  transaction_entitled =
      Triple-bind At (λ o d. At d × Looked (λ v. v.ticket_hash == ticket) d.email_verifications o)
        Outcome _ _
        (Triple-lookup engine (λ v. v.ticket_hash == ticket) (λ d. d.email_verifications) At)
        found_entitled

verify_reply_ok :
    (o : Option Credentials) (w w' : World) (a : AuthOutcome)
    → verify_reply o w ≡ (ok a, w')
    → (c : Credentials) × (o ≡ some c) × (a ≡ with_credentials c)
verify_reply_ok none w w' a h = absurd (ground arith)
verify_reply_ok (some c) w w' a h = (c, refl, ground arith)

-- `VerifyEmail` answers with credentials only for a challenge that is stored under the hash of the
-- ticket, has the hash of the code, is not past its end and has had fewer than eight wrong codes, and
-- whose account is there and pending; and the account of the credentials is that account, activated
-- and its address verified at the time of the call.
pub verified_email_checks :
    (service : Service) (call : Call) (input : VerifyEmailInput) (w w' : World) (a : AuthOutcome)
    → verify_email service call input w ≡ (ok a, w')
    → (c : Credentials) × (a ≡ with_credentials c)
      × Entitled service
          (call.now 0)
          (call.random 0)
          (hash_token service.lib input.ticket)
          (hash_token service.lib input.code)
          w.db
          c
unfolding verify_email
verified_email_checks service call input w w' a h =
    let (_, h) =
      unless_raised
        (not (valid_token input.ticket (text "vft_")) || not (valid_verification_code input.code)) _
        _ w h in
    let (o, w1, ran, h) = run_ok _ _ w h in
    let (db, transacted, _) = commits_ok _ w ran in
    let (c, this, answered) = verify_reply_ok o w1 w' a h in
    (
      c,
      answered,
      subst
          (λ o.
            Outcome service (call.now 0) (call.random 0) (hash_token service.lib input.ticket)
              (hash_token service.lib input.code) w.db o db)
          this
          ((transaction_entitled service (call.now 0) (call.random 0)
              (hash_token service.lib input.ticket) (hash_token service.lib input.code) w.db).at
            w.db o db refl transacted),
    )
