-- ===== src/Identity/Lifecycle/Spend.antt =====
-- What the exchange of a refresh credential of internal/identity/service.go leaves: the credential
-- is used; and the reuse of one revokes its session.
use openremotecode_api.Prelude.{
  ℕ, zero, suc, ◌≡◌, refl, Bool, true, false, ◌&&◌, ◌||◌, not, Option, none, some, List, [], ◌∷◌,
  arith, All, is_some, is_none, ltb, nat_eq, length, keep, inl, inr, Bool-cases, sym, subst, ap,
  ◌∙◌, if◌then◌else◌,
}
use openremotecode_api.Bytes.{Bytes, ◌==◌, eq_sound}
use openremotecode_api.Database.Rows.{any}
use openremotecode_api.Database.Watch.{Watched}
use openremotecode_api.Database.Keys.{Distinct}
use openremotecode_api.Database.Updates.{Watched-stamp_where, Distinct-map_where}
use openremotecode_api.Database.Transaction.Triples.{
  Triple, Triple-pure, Triple-bind, Triple-if, Triple-after, Triple-before, Triple-fact,
}
use openremotecode_api.Identity.Types.{User, Session, RefreshCredential, is_active}
use openremotecode_api.Identity.Db.{Db}
use openremotecode_api.Identity.Store
use openremotecode_api.Identity.Store.{
  refresh_credential_for_update, session_for_update, user_by_id,
}
use openremotecode_api.Identity.Service.{Service}
use openremotecode_api.Identity.Transactions.Sessions.{
  RefreshOutcome, refreshed, invalid, revoking, NewTokens, refresh_rotate, refresh_session,
  refresh_found, refresh_transaction,
}
use openremotecode_api.Identity.Lifecycle.{Watch, Inv}
use openremotecode_api.Identity.Lifecycle.Statements.{Triple-lookup, Triple-write_one, Looked}
use openremotecode_api.Identity.Lifecycle.Stores
use openremotecode_api.Identity.Lifecycle.Rules.{Keeps-optional}
use openremotecode_api.Identity.Lifecycle.Exchange.{
  NotRefreshed, Always, anything, Refuses-reused, Refuses-over,
}
use openremotecode_api.Identity.Lifecycle.Steps.{watch_nothing}

-- The credential of the hash is watched as used.
abbrev pub watch_refresh : Bytes → Watch
watch_refresh hash = record { session = none; refresh = some hash; accounts = [] }

-- Watching a used credential, where nothing was watched before.
Inv-used :
    (hash : Bytes) (db : Db) (t : List RefreshCredential)
    → Watched
        (λ (r : RefreshCredential). r.token_hash)
        (λ (r : RefreshCredential). r.used_at)
        (some hash)
        t
    → Distinct (openremotecode_api.Prelude.map (λ (r : RefreshCredential). r.token_hash) t)
    → Inv watch_nothing db
    → Inv (watch_refresh hash) (record db { refresh_credentials = t })
Inv-used hash db t watched distinct i = record {
  sessions = tt;
  refreshes = watched;
  accounts = tt;
  owners = i.owners;
  links = i.links;
  user_ids = i.user_ids;
  session_ids = i.session_ids;
  hashes = distinct;
}

-- A row that is met by the update has the key.
some_met :
    (hash : Bytes) (t : List RefreshCredential)
    → nat_eq (length (keep (λ r. (r.token_hash == hash) && is_none r.used_at) t)) 1 ≡ true
    → any (λ r. r.token_hash == hash) t ≡ true
unfolding any
some_met hash [] h = absurd (ground arith)
some_met hash (r ∷ t) h = elim (Bool-cases ((r.token_hash == hash) && is_none r.used_at)) [
  | inl e ↦ ground arith
  | inr e ↦ let ih = some_met hash t (rw e at h) in ground arith
]

module _ (service : Service) (now : ℕ) (tokens : NewTokens) where
  open service use {engine}

  Triple-mark :
      (hash : Bytes)
      → Triple
          (Inv watch_nothing)
          (Store.mark_refresh_credential_used engine hash now)
          (λ _ db. Inv (watch_refresh hash) db)
  unfolding Store.mark_refresh_credential_used
  Triple-mark hash =
      Triple-write_one (Inv watch_nothing) (Inv (watch_refresh hash)) engine _ _
        (λ db. db.refresh_credentials) (λ db t. record db { refresh_credentials = t })
        λ db t i e one.
          subst (λ t. Inv (watch_refresh hash) (record db { refresh_credentials = t }))
            (sym (engine.update_rows _ _ db.refresh_credentials t e))
            (Inv-used hash db _
              (Watched-stamp_where (λ (r : RefreshCredential). r.token_hash)
                (λ (r : RefreshCredential). r.used_at) hash _ db.refresh_credentials (λ _. refl)
                (λ _. refl) (some_met hash db.refresh_credentials one))
              (Distinct-map_where (λ (r : RefreshCredential). r.token_hash) _ _
                db.refresh_credentials (λ _. refl) i.hashes)
              i)

  -- After an exchange the credential is used.
  abbrev pub Exchanged : Bytes → RefreshOutcome → Db → Type 0
  Exchanged hash (refreshed _) db = Inv (watch_refresh hash) db
  Exchanged hash invalid db = Unit
  Exchanged hash (revoking _) db = Unit

  unexchanged : (hash : Bytes) (o : RefreshOutcome) (db : Db) → NotRefreshed o → Exchanged hash o db
  unexchanged hash (refreshed _) db h = absurd h
  unexchanged hash invalid db h = tt
  unexchanged hash (revoking _) db h = tt

  Exchanged-rotate :
      (r : RefreshCredential) (s : Session) (u : User)
      → Triple
          (Inv watch_nothing)
          (refresh_rotate service now tokens r s u)
          (Exchanged r.token_hash)
  unfolding refresh_rotate
  Exchanged-rotate r s u =
      let v = watch_refresh r.token_hash in
      Triple-if (Inv watch_nothing) (Exchanged r.token_hash) (not (is_active u.status)) _ _
        (λ _.
          Triple-before (Inv watch_nothing) Always (Exchanged r.token_hash) _ (λ _ _. tt)
            (Triple-bind Always (λ _ _. Unit) (Exchanged r.token_hash) _ _ (anything _)
              λ _. Triple-pure Always (Exchanged r.token_hash) (revoking _) λ _ _. tt))
        λ _.
          Triple-bind (Inv watch_nothing) (λ _ db. Inv v db) (Exchanged r.token_hash) _ _
            (Triple-mark r.token_hash)
            λ _.
              Triple-bind (Inv v) (λ _ db. Inv v db) (Exchanged r.token_hash) _ _
                (Stores.Keeps-rotate_session_access v engine _ _ _ _)
                λ _.
                  Triple-bind (Inv v) (λ _ db. Inv v db) (Exchanged r.token_hash) _ _
                    (Stores.Keeps-create_refresh_credential v engine _)
                    λ _.
                      Triple-bind (Inv v) (λ _ db. Inv v db) (Exchanged r.token_hash) _ _
                        (Stores.Keeps-append_audit_event v engine _)
                        λ _. Triple-pure (Inv v) (Exchanged r.token_hash) (refreshed _) λ _ i. i

  Exchanged-session :
      (r : RefreshCredential) (o : Option Session)
      → Triple (Inv watch_nothing) (refresh_session service now tokens r o) (Exchanged r.token_hash)
  unfolding refresh_session user_by_id
  Exchanged-session r none =
      Triple-pure (Inv watch_nothing) (Exchanged r.token_hash) invalid λ _ _. tt
  Exchanged-session r (some s) =
      Triple-if (Inv watch_nothing) (Exchanged r.token_hash) (is_some r.used_at) _ _
        (λ _.
          Triple-before (Inv watch_nothing) Always (Exchanged r.token_hash) _ (λ _ _. tt)
            (Triple-after Always (λ o _. NotRefreshed o) (Exchanged r.token_hash) _
              (unexchanged r.token_hash) (Refuses-reused service now tokens s)))
        λ _.
          Triple-if (Inv watch_nothing) (Exchanged r.token_hash)
            (is_some s.revoked_at
              || not (ltb now r.expires_at)
              || not (ltb now s.refresh_expires_at))
            _ _
            (λ _.
              Triple-before (Inv watch_nothing) Always (Exchanged r.token_hash) _ (λ _ _. tt)
                (Triple-after Always (λ o _. NotRefreshed o) (Exchanged r.token_hash) _
                  (unexchanged r.token_hash) (Refuses-over service now tokens s)))
            λ _.
              Triple-bind (Inv watch_nothing) (λ _ db. Inv watch_nothing db)
                (Exchanged r.token_hash) _ _ (Stores.Keeps-first watch_nothing engine _ _)
                (Exchanged-rotate r s)

  Exchanged-found :
      (hash : Bytes) (o : Option RefreshCredential)
      → Triple
          (λ db. Inv watch_nothing db × Looked (λ r. r.token_hash == hash) db.refresh_credentials o)
          (refresh_found service now tokens o)
          (Exchanged hash)
  unfolding refresh_found session_for_update
  Exchanged-found hash none = Triple-pure _ (Exchanged hash) invalid λ _ _. tt
  Exchanged-found hash (some r) =
      Triple-fact (r.token_hash ≡ hash) _ (Inv watch_nothing) (Exchanged hash) _
        (λ db i. (eq_sound r.token_hash hash i.1.1, i.0))
        λ same.
          subst
            (λ hash.
              Triple (Inv watch_nothing) (refresh_found service now tokens (some r))
                (Exchanged hash))
            same
            (Triple-bind (Inv watch_nothing) (λ _ db. Inv watch_nothing db) (Exchanged r.token_hash)
              _ _ (Keeps-optional watch_nothing _ (Stores.Keeps-first watch_nothing engine _ _))
              (Exchanged-session r))

  pub Exchanged-transaction :
      (hash : Bytes)
      → Triple (Inv watch_nothing) (refresh_transaction service hash now tokens) (Exchanged hash)
  unfolding refresh_transaction refresh_credential_for_update
  Exchanged-transaction hash =
      Triple-bind (Inv watch_nothing)
        (λ o db. Inv watch_nothing db × Looked (λ r. r.token_hash == hash) db.refresh_credentials o)
        (Exchanged hash) _ _
        (Triple-lookup engine (λ r. r.token_hash == hash) (λ db. db.refresh_credentials)
          (Inv watch_nothing))
        (Exchanged-found hash)
