-- ===== src/Identity/Lifecycle/Reuse.antt =====
-- The reuse of a refresh credential of internal/identity/service.go: its session is revoked, and the
-- revocation is reported.
use openremotecode_api.Prelude.{
  ℕ, ◌≡◌, refl, Bool, true, false, ◌&&◌, not, Option, none, some, List, [], ◌∷◌, ◌++◌, arith, All,
  is_some, is_none, inl, inr, Bool-cases, sym, subst, ap, ◌∙◌, if◌then◌else◌,
}
use openremotecode_api.Bytes.{Bytes, ◌==◌, eq_sound, eq_iff, eq_refl}
use openremotecode_api.Database.Rows.{Among, All-Among}
use openremotecode_api.Database.Watch.{any-of_Among}
use openremotecode_api.Database.Keys.{Distinct, Distinct-Among}
use openremotecode_api.Database.Updates.{Watched-stamp_where}
use openremotecode_api.Database.Transaction.Triples.{Triple, Triple-pure, Triple-bind, Triple-fact}
use openremotecode_api.Identity.Types.{Session, RefreshCredential}
use openremotecode_api.Identity.Db.{Db}
use openremotecode_api.Identity.Store
use openremotecode_api.Identity.Store.{refresh_credential_for_update, session_for_update}
use openremotecode_api.Identity.Service.{Service}
use openremotecode_api.Identity.Transactions.Sessions.{
  RefreshOutcome, revoking, NewTokens, refresh_reused, refresh_session, refresh_found,
  refresh_transaction, revoked_of,
}
use openremotecode_api.Identity.Lifecycle.Statements.{Triple-lookup, Triple-write, Looked}
use openremotecode_api.Identity.Lifecycle.Lockout.{Ended}

module _ (service : Service) (now : ℕ) (tokens : NewTokens) (r : RefreshCredential)
    (s : Session) where
  open service use {engine}

  -- The credential and its session are there, the first used and the second not revoked.
  pub record Replayed (db : Db) : Type 0 where
    pub credential : Among r db.refresh_credentials
    pub hashes : Distinct (
        openremotecode_api.Prelude.map
          (λ (r : RefreshCredential). r.token_hash)
          db.refresh_credentials)
    pub session : Among s db.sessions
    pub session_ids : Distinct (openremotecode_api.Prelude.map (λ (s : Session). s.id) db.sessions)

  -- The outcome: the session is reported, and it is over.
  abbrev pub Revoked : RefreshOutcome → Db → Type 0
  Revoked o db = (o ≡ revoking (revoked_of service s false)) × Ended s.id db

  Triple-end : Triple Replayed (Store.revoke_session engine s.id now) (λ _ db. Ended s.id db)
  unfolding Store.revoke_session
  Triple-end =
      Triple-write Replayed (Ended s.id)
        (λ db.
          engine.update (λ x. (x.id == s.id) && is_none x.revoked_at)
            (λ x. record x { revoked_at = some now }) db.sessions)
        (λ db t. record db { sessions = t })
        λ db t i e.
          subst (λ t. Ended s.id (record db { sessions = t }))
            (sym (engine.update_rows _ _ db.sessions t e))
            (Watched-stamp_where (λ (x : Session). x.id) (λ (x : Session). x.revoked_at) s.id _
              db.sessions (λ _. refl) (λ _. refl)
              (any-of_Among (λ x. x.id == s.id) db.sessions s i.session (eq_refl s.id))).1

  Triple-reused :
      is_some s.revoked_at ≡ false → Triple Replayed (refresh_reused service now s) Revoked
  unfolding refresh_reused Store.append_audit_event
  Triple-reused live = rw live (
      Triple-bind Replayed (λ _ db. Ended s.id db) Revoked _ _ Triple-end
        λ _.
          Triple-bind (Ended s.id) (λ _ db. Ended s.id db) Revoked _ _
            (Triple-write (Ended s.id) (Ended s.id) _ (λ db t. record db { audit_events = t })
              λ db t i e. i)
            λ _. Triple-pure (Ended s.id) Revoked _ λ db i. (refl, i))

  module _ (used : is_some r.used_at ≡ true) (live : is_some s.revoked_at ≡ false)
      (same : r.session_id ≡ s.id) where
    reused_session :
        (o : Option Session)
        → Triple
            (λ db. Replayed db × Looked (λ x. x.id == r.session_id) db.sessions o)
            (refresh_session service now tokens r o)
            Revoked
    unfolding refresh_session
    reused_session none =
        Triple-fact ⊥ _ Replayed Revoked _
          (λ db i. (
            cc (
              All-Among (λ x. (x.id == r.session_id) ≡ false) db.sessions i.1 i.0.session,
              (eq_iff s.id r.session_id).1 (sym same),
            ),
            i.0,
          ))
          λ impossible. absurd impossible
    reused_session (some x) =
        Triple-fact (x ≡ s) _ Replayed Revoked _
          (λ db i. (
            Distinct-Among (λ (s : Session). s.id) db.sessions x s i.0.session_ids i.1.0 i.0.session
                (eq_sound x.id r.session_id i.1.1 ∙ same),
            i.0,
          ))
          λ this.
            subst (λ x. Triple Replayed (refresh_session service now tokens r (some x)) Revoked)
              (sym this) (rw used (Triple-reused live))

    reused_found :
        (hash : Bytes) (o : Option RefreshCredential)
        → r.token_hash ≡ hash
        → Triple
            (λ db. Replayed db × Looked (λ x. x.token_hash == hash) db.refresh_credentials o)
            (refresh_found service now tokens o)
            Revoked
    unfolding refresh_found session_for_update
    reused_found hash none e =
        Triple-fact ⊥ _ Replayed Revoked _
          (λ db i. (
            cc (
              All-Among (λ x. (x.token_hash == hash) ≡ false) db.refresh_credentials i.1
                  i.0.credential,
              (eq_iff r.token_hash hash).1 e,
            ),
            i.0,
          ))
          λ impossible. absurd impossible
    reused_found hash (some x) e =
        Triple-fact (x ≡ r) _ Replayed Revoked _
          (λ db i. (
            Distinct-Among (λ (r : RefreshCredential). r.token_hash) db.refresh_credentials x r
                i.0.hashes i.1.0 i.0.credential (eq_sound x.token_hash hash i.1.1 ∙ sym e),
            i.0,
          ))
          λ this.
            subst (λ x. Triple Replayed (refresh_found service now tokens (some x)) Revoked)
              (sym this)
              (Triple-bind Replayed
                (λ o db. Replayed db × Looked (λ x. x.id == r.session_id) db.sessions o) Revoked _ _
                (Triple-lookup engine (λ x. x.id == r.session_id) (λ db. db.sessions) Replayed)
                reused_session)

    pub reused_transaction :
        (hash : Bytes)
        → r.token_hash ≡ hash
        → Triple Replayed (refresh_transaction service hash now tokens) Revoked
    unfolding refresh_transaction refresh_credential_for_update
    reused_transaction hash e =
        Triple-bind Replayed
          (λ o db. Replayed db × Looked (λ x. x.token_hash == hash) db.refresh_credentials o)
          Revoked _ _
          (Triple-lookup engine (λ x. x.token_hash == hash) (λ db. db.refresh_credentials) Replayed)
          λ o. reused_found hash o e
