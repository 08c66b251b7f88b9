-- ===== src/Identity/Lifecycle/Exchange.antt =====
-- The exchange of refresh credentials of internal/identity/service.go: which are refused, that one
-- that was exchanged is used, and that the reuse of one ends its session.
use openremotecode_api.Prelude.{
  ℕ, ◌≡◌, refl, true, not, Option, none, some, arith, All, is_some, inl, inr, Bool-cases, sym,
  subst, ap, ◌∙◌,
}
use openremotecode_api.Bytes.{Bytes, text, ◌==◌, eq_sound}
use openremotecode_api.Database.Rows.{All-Among}
use openremotecode_api.Database.Transaction.{ok}
use openremotecode_api.Database.Transaction.Triples.{
  Triple, Triple-pure, Triple-bind, Triple-if, Triple-fact,
}
use openremotecode_api.Identity.Types.{Session, RefreshCredential, Credentials}
use openremotecode_api.Identity.Db.{Db, Tx}
use openremotecode_api.Identity.Store.{refresh_credential_for_update, session_for_update}
use openremotecode_api.Identity.Service.{Service, Call, World}
use openremotecode_api.Identity.Tokens.{valid_token}
use openremotecode_api.Identity.Validation.{hash_token}
use openremotecode_api.Identity.Transactions.Sessions.{
  RefreshOutcome, refreshed, invalid, revoking, NewTokens, refresh_reused, refresh_over,
  refresh_session, refresh_found, refresh_transaction,
}
use openremotecode_api.Identity.Operations.{commits}
use openremotecode_api.Identity.Operations
use openremotecode_api.Identity.Operations.Sessions.{refresh, refresh_valid, refresh_reply}
use openremotecode_api.Identity.Operations.Outcomes.{run_ok, require_ok, unless_raised, commits_ok}
use openremotecode_api.Identity.Lifecycle.Statements.{Triple-lookup, Looked}
use openremotecode_api.Identity.Lifecycle.Lockout.{Ended}

abbrev pub NotRefreshed : RefreshOutcome → Type 0
NotRefreshed (refreshed _) = ⊥
NotRefreshed invalid = Unit
NotRefreshed (revoking _) = Unit

abbrev pub Always : Db → Type 0
Always _ = Unit

pub anything : {A : Type 0} (m : Tx A) → Triple Always m (λ _ _. Unit)
anything m = record { at = λ db a db' i e. tt }

-- An account's credentials are handed out by no outcome but one.
abbrev pub Refuses : (P : Db → Type 0) → Tx RefreshOutcome → Type 0
Refuses P m = Triple P m (λ o _. NotRefreshed o)

module _ (service : Service) (now : ℕ) (tokens : NewTokens) where
  open service use {engine}

  pub Refuses-reused : (s : Session) → Refuses Always (refresh_reused service now s)
  unfolding refresh_reused
  Refuses-reused s =
      Triple-if Always (λ o _. NotRefreshed o) (is_some s.revoked_at) _ _
        (λ _. Triple-pure Always (λ o _. NotRefreshed o) invalid λ _ _. tt)
        λ _.
          Triple-bind Always (λ _ _. Unit) (λ o _. NotRefreshed o) _ _ (anything _)
            λ _.
              Triple-bind Always (λ _ _. Unit) (λ o _. NotRefreshed o) _ _ (anything _)
                λ _. Triple-pure Always (λ o _. NotRefreshed o) (revoking _) λ _ _. tt

  pub Refuses-over : (s : Session) → Refuses Always (refresh_over service now s)
  unfolding refresh_over
  Refuses-over s =
      Triple-if Always (λ o _. NotRefreshed o) (is_some s.revoked_at) _ _
        (λ _. Triple-pure Always (λ o _. NotRefreshed o) invalid λ _ _. tt)
        λ _.
          Triple-bind Always (λ _ _. Unit) (λ o _. NotRefreshed o) _ _ (anything _)
            λ _. Triple-pure Always (λ o _. NotRefreshed o) (revoking _) λ _ _. tt

  -- A credential that was used is refused.
  Refuses-used :
      (r : RefreshCredential) (o : Option Session)
      → is_some r.used_at ≡ true
      → Refuses Always (refresh_session service now tokens r o)
  unfolding refresh_session
  Refuses-used r none e = Triple-pure Always (λ o _. NotRefreshed o) invalid λ _ _. tt
  Refuses-used r (some s) e = rw e (Refuses-reused s)

  -- A session that was revoked is refused, and nothing is written.
  revoked_refused :
      (r : RefreshCredential) (s : Session) (db : Db)
      → is_some s.revoked_at ≡ true
      → refresh_session service now tokens r (some s) db ≡ ok (invalid, db)
  unfolding refresh_session refresh_reused refresh_over
  revoked_refused r s db e = elim (Bool-cases (is_some r.used_at)) [
    | inl q ↦ rw (q, e) refl
    | inr q ↦ rw (q, e) refl
  ]

  -- The credentials of this hash are of the session.
  abbrev pub BelongTo : Bytes → Bytes → Db → Type 0
  BelongTo hash id db =
      All (λ (r : RefreshCredential). r.token_hash ≡ hash → r.session_id ≡ id)
        db.refresh_credentials

  refused_session :
      (r : RefreshCredential) (id : Bytes) (o : Option Session)
      → r.session_id ≡ id
      → Refuses
          (λ db. Ended id db × Looked (λ s. s.id == r.session_id) db.sessions o)
          (refresh_session service now tokens r o)
  unfolding refresh_session
  refused_session r id none same =
      Triple-pure (λ db. Ended id db × Looked (λ s. s.id == r.session_id) db.sessions none)
        (λ o _. NotRefreshed o) invalid λ _ _. tt
  refused_session r id (some s) same = record {
    at = λ db a db' i e.
        let over =
          All-Among (λ (s : Session). s.id ≡ id → is_some s.revoked_at ≡ true) db.sessions i.0 i.1.0
            (eq_sound s.id r.session_id i.1.1 ∙ same) in
        let this : invalid ≡ a = ground (arith, revoked_refused r s db over) in
        subst NotRefreshed this tt;
  }

  Refuses-found :
      (hash id : Bytes) (o : Option RefreshCredential)
      → Refuses
          (λ db.
            (Ended id db × BelongTo hash id db)
            × Looked (λ r. r.token_hash == hash) db.refresh_credentials o)
          (refresh_found service now tokens o)
  unfolding refresh_found session_for_update
  Refuses-found hash id none = Triple-pure _ (λ o _. NotRefreshed o) invalid λ _ _. tt
  Refuses-found hash id (some r) =
      Triple-fact (r.session_id ≡ id) _ (Ended id) (λ o _. NotRefreshed o) _
        (λ db i. (
          All-Among (λ (r : RefreshCredential). r.token_hash ≡ hash → r.session_id ≡ id)
              db.refresh_credentials i.0.1 i.1.0 (eq_sound r.token_hash hash i.1.1),
          i.0.0,
        ))
        λ same.
          Triple-bind (Ended id)
            (λ o db. Ended id db × Looked (λ s. s.id == r.session_id) db.sessions o)
            (λ o _. NotRefreshed o) _ _
            (Triple-lookup engine (λ s. s.id == r.session_id) (λ db. db.sessions) (Ended id))
            λ o. refused_session r id o same

  pub Refuses-Ended :
      (hash id : Bytes)
      → Refuses
          (λ db. Ended id db × BelongTo hash id db)
          (refresh_transaction service hash now tokens)
  unfolding refresh_transaction refresh_credential_for_update
  Refuses-Ended hash id =
      Triple-bind (λ db. Ended id db × BelongTo hash id db)
        (λ o db.
          (Ended id db × BelongTo hash id db)
          × Looked (λ r. r.token_hash == hash) db.refresh_credentials o)
        (λ o _. NotRefreshed o) _ _
        (Triple-lookup engine (λ r. r.token_hash == hash) (λ db. db.refresh_credentials)
          (λ db. Ended id db × BelongTo hash id db))
        (Refuses-found hash id)

  -- Every credential of the hash was used.
  abbrev pub Spent : Bytes → Db → Type 0
  Spent hash db =
      All (λ (r : RefreshCredential). r.token_hash ≡ hash → is_some r.used_at ≡ true)
        db.refresh_credentials

  Spent-found :
      (hash : Bytes) (o : Option RefreshCredential)
      → Refuses
          (λ db. Spent hash db × Looked (λ r. r.token_hash == hash) db.refresh_credentials o)
          (refresh_found service now tokens o)
  unfolding refresh_found
  Spent-found hash none = Triple-pure _ (λ o _. NotRefreshed o) invalid λ _ _. tt
  Spent-found hash (some r) =
      Triple-fact (is_some r.used_at ≡ true) _ Always (λ o _. NotRefreshed o) _
        (λ db i. (
          All-Among (λ (r : RefreshCredential). r.token_hash ≡ hash → is_some r.used_at ≡ true)
              db.refresh_credentials i.0 i.1.0 (eq_sound r.token_hash hash i.1.1),
          tt,
        ))
        λ used.
          Triple-bind Always (λ _ _. Unit) (λ o _. NotRefreshed o) _ _ (anything _)
            λ o. Refuses-used r o used

  pub Refuses-Spent :
      (hash : Bytes) → Refuses (Spent hash) (refresh_transaction service hash now tokens)
  unfolding refresh_transaction refresh_credential_for_update
  Refuses-Spent hash =
      Triple-bind (Spent hash)
        (λ o db. Spent hash db × Looked (λ r. r.token_hash == hash) db.refresh_credentials o)
        (λ o _. NotRefreshed o) _ _
        (Triple-lookup engine (λ r. r.token_hash == hash) (λ db. db.refresh_credentials)
          (Spent hash))
        (Spent-found hash)

refresh_reply_ok :
    (o : RefreshOutcome) (w w' : World) (c : Credentials)
    → refresh_reply o w ≡ (ok c, w')
    → (o ≡ refreshed c) × (w ≡ w')
unfolding Operations.◌>>=◌ Operations.announce
refresh_reply_ok (refreshed c') w w' c h = (ground arith, ground arith)
refresh_reply_ok invalid w w' c h = absurd (ground arith)
refresh_reply_ok (revoking r) w w' c h = absurd (ground arith)

-- What an exchange that handed out credentials has run.
pub refresh_ok :
    (service : Service) (call : Call) (token : Bytes) (w w' : World) (c : Credentials)
    → refresh service call token w ≡ (ok c, w')
    → (tokens : NewTokens) × (refresh_transaction service
          (hash_token service.lib token)
          (call.now 0)
          tokens
          w.db
        ≡ ok (refreshed c, w'.db))
unfolding refresh refresh_valid
refresh_ok service call token w w' c h =
    let (_, h) = unless_raised (not (valid_token token (text "orr_"))) _ _ w h in
    let ((access, rest), _, h) = require_ok _ _ w h in
    let ((again, _), _, h) = require_ok _ _ w h in
    let (o, w1, ran, h) = run_ok _ _ w h in
    let (db, transacted, same) = commits_ok _ w ran in
    let (is, still) = refresh_reply_ok o w1 w' c h in
    let here : db ≡ w'.db = ap (λ (w : World). w.db) (sym same ∙ still) in
    (record { access_token = access; refresh_token = again }, transacted ∙ (λ i. ok (is i, here i)))
