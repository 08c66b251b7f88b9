-- ===== src/Identity/Lifecycle/Finality.antt =====
-- What stays true of the sessions, the refresh credentials and the accounts of internal/identity,
-- whatever calls follow.
use openremotecode_api.Prelude.{
  ℕ, ◌≡◌, ◌≢◌, refl, true, false, ◌&&◌, not, some, none, List, [], ◌∷◌, ◌++◌, All, is_some, arith,
  sym, ◌∙◌, map, subst, ap, Bool-cases, inl, inr,
}
use openremotecode_api.Bytes.{Bytes, text, ◌==◌, eq_sound}
use openremotecode_api.Database.Rows.{Among, any, All-Among}
use openremotecode_api.Database.Watch.{Watched-found}
use openremotecode_api.Database.Keys.{Distinct-Among}
use openremotecode_api.Database.Transaction.{ok, err}
use openremotecode_api.Identity.Errors.{invalid_refresh}
use openremotecode_api.Identity.Db.{Db}
use openremotecode_api.Identity.Types.{
  User, Session, RefreshCredential, FederatedIdentity, Credentials, AccessPrincipal, is_pending,
}
use openremotecode_api.Identity.Service.{Service, Call, World}
use openremotecode_api.Identity.Tokens.{valid_token}
use openremotecode_api.Identity.Validation.{hash_token}
use openremotecode_api.Identity.Transactions.Sessions.{refreshed}
use openremotecode_api.Identity.Operations.Sessions.{refresh}
use openremotecode_api.Identity.Operations.Access.{authenticate_access, authorize_session}
use openremotecode_api.Identity.Lifecycle.{Watch, Inv, Enrolled}
use openremotecode_api.Identity.Lifecycle.Steps.{
  Reach, empty, Reach-Inv, Reach-WellFormed, watch_nothing,
}
use openremotecode_api.Identity.Lifecycle.Lockout.{
  Ended, session_not_authorized, access_not_granted,
}
use openremotecode_api.Identity.Lifecycle.Exchange.{
  BelongTo, Refuses-Ended, Refuses-Spent, refresh_ok,
}
use openremotecode_api.Identity.Lifecycle.Spend.{watch_refresh, Exchanged-transaction}
use openremotecode_api.Identity.Lifecycle.Reuse.{reused_transaction}
use openremotecode_api.Identity.Lifecycle.Refusals.{refresh_refused, Left}

abbrev watch_session : Bytes → Watch
watch_session id = record { session = some id; refresh = none; accounts = [] }

-- A revoked session that is there is watched from then on.
Inv-revoked :
    (db : Db) (s : Session)
    → Inv watch_nothing db
    → Among s db.sessions
    → is_some s.revoked_at ≡ true
    → Inv (watch_session s.id) db
Inv-revoked db s i m e = record {
  sessions =
      Watched-found (λ (s : Session). s.id) (λ (s : Session). s.revoked_at) s db.sessions
        i.session_ids m e;
  refreshes = tt;
  accounts = tt;
  owners = i.owners;
  links = i.links;
  user_ids = i.user_ids;
  session_ids = i.session_ids;
  hashes = i.hashes;
}

-- All credentials of the hash of a credential that is there are of its session.
same_session :
    (w : Watch) (db : Db) (r : RefreshCredential) (id : Bytes)
    → Inv w db
    → Among r db.refresh_credentials
    → r.session_id ≡ id
    → (t : List RefreshCredential)
    → ((x : RefreshCredential) → Among x t → Among x db.refresh_credentials)
    → All (λ (x : RefreshCredential). x.token_hash ≡ r.token_hash → x.session_id ≡ id) t
same_session w db r id i m e [] inside = tt
same_session w db r id i m e (x ∷ t) inside = (
  (λ same.
      ap (λ (r : RefreshCredential). r.session_id)
        (Distinct-Among (λ (r : RefreshCredential). r.token_hash) db.refresh_credentials x r
          i.hashes (inside x (inl refl)) m same)
      ∙ e),
  same_session w db r id i m e t (λ y n. inside y (inr n)),
)

-- A session that is revoked in a world that the operations built from empty tables stays locked out
-- after any further calls: `AuthorizeSession` accepts it for no account at no time, no access token
-- is accepted as its own, and `Refresh` hands out credentials for no refresh credential of it.
pub revoked_session_finality :
    (service : Service) (w w' : World) (s : Session)
    → Reach service empty w
    → Among s w.db.sessions
    → is_some s.revoked_at ≡ true
    → Reach service w w'
    → ((user : Bytes) (now : ℕ) → authorize_session service user s.id now w'.db ≢ ok tt)
      × ((token : Bytes) (now : ℕ) (p : AccessPrincipal)
          → authenticate_access service token now w'.db ≡ ok p
          → p.session_id ≢ s.id)
      × ((call : Call) (token : Bytes) (r : RefreshCredential) (c : Credentials) (w'' : World)
          → Among r w'.db.refresh_credentials
          → r.session_id ≡ s.id
          → r.token_hash ≡ hash_token service.lib token
          → refresh service call token w' ≢ (ok c, w''))
revoked_session_finality service w w' s built m e later =
    let i =
      Reach-Inv (watch_session s.id) service
        (Inv-revoked w.db s (Reach-WellFormed service w built) m e) later in
    (
      λ user now. session_not_authorized s.id service user now w'.db i.sessions.1,
      λ token now p granted. access_not_granted s.id service token now w'.db p i.sessions.1 granted,
      λ call token r c w'' among of_session hashed exchanged.
          let (tokens, ran) = refresh_ok service call token w' w'' c exchanged in
          (Refuses-Ended service (call.now 0) tokens (hash_token service.lib token) s.id).at w'.db
            (refreshed c) w''.db
            (
              i.sessions.1,
              subst (λ hash. BelongTo service (call.now 0) tokens hash s.id w'.db) hashed
                  (same_session (watch_session s.id) w'.db r s.id i among of_session
                    w'.db.refresh_credentials (λ x n. n)),
            )
            ran,
    )

-- A refresh token is exchanged once: after a call of `Refresh` that returned credentials for it, no
-- later call, whatever other calls came between, returns credentials for the same token.
pub refresh_token_used_once :
    (service : Service) (w w1 w2 w3 : World) (call again : Call) (token : Bytes) (c d : Credentials)
    → Reach service empty w
    → refresh service call token w ≡ (ok c, w1)
    → Reach service w1 w2
    → refresh service again token w2 ≢ (ok d, w3)
refresh_token_used_once service w w1 w2 w3 call again token c d built first later second =
    let hash = hash_token service.lib token in
    let (tokens, ran) = refresh_ok service call token w w1 c first in
    let used =
      (Exchanged-transaction service (call.now 0) tokens hash).at w.db (refreshed c) w1.db
        (Reach-WellFormed service w built) ran in
    let i = Reach-Inv (watch_refresh hash) service used later in
    let (tokens', ran') = refresh_ok service again token w2 w3 d second in
    (Refuses-Spent service (again.now 0) tokens' hash).at w2.db (refreshed d) w3.db i.refreshes.1
      ran'

-- The reuse of a refresh token revokes its session: in a world that the operations built, where the
-- credential of the token was used and its session is not revoked, a call of `Refresh` that answers
-- `ErrInvalidRefresh` has revoked the session in the tables, and announces exactly this revocation,
-- of an account that is not said to be inactive.
pub refresh_reuse_revokes :
    (service : Service) (w w' : World) (call : Call) (token : Bytes) (r : RefreshCredential)
    (s : Session)
    → Reach service empty w
    → valid_token token (text "orr_") ≡ true
    → Among r w.db.refresh_credentials
    → r.token_hash ≡ hash_token service.lib token
    → is_some r.used_at ≡ true
    → Among s w.db.sessions
    → r.session_id ≡ s.id
    → is_some s.revoked_at ≡ false
    → refresh service call token w ≡ (err invalid_refresh, w')
    → Ended s.id w'.db
      × (w'.announced
          ≡ w.announced
            ++ (record { user_id = s.user_id; session_id = s.id; account_inactive = false } ∷ []))
refresh_reuse_revokes service w w' call token r s built valid m hashed used n same live refused =
    let i = Reach-WellFormed service w built in
    let (tokens, o, db, ran, left) = refresh_refused service call token w w' valid refused in
    let (this, over) =
      (reused_transaction service (call.now 0) tokens r s used live same
          (hash_token service.lib token) hashed).at
        w.db o db
        (record { credential = m; hashes = i.hashes; session = n; session_ids = i.session_ids })
        ran in
    let w'_is = left ∙ ap (λ o. Left w o db) this in
    (subst (λ (w : World). Ended s.id w.db) (sym w'_is) over, ap (λ (w : World). w.announced) w'_is)

Enrolled-not_pending :
    (u : User) (t users : List User)
    → ((x : User) → Among x t → Among x users)
    → openremotecode_api.Database.Keys.Distinct (map (λ (u : User). u.id) users)
    → Among u users
    → Enrolled u.id t
    → is_pending u.status ≡ false
unfolding any
Enrolled-not_pending u [] users inside d m e = absurd (ground arith)
Enrolled-not_pending u (x ∷ t) users inside d m e =
    elim (Bool-cases ((x.id == u.id) && not (is_pending x.status))) [
      | inl q ↦
          let same : x ≡ u =
            Distinct-Among (λ (u : User). u.id) users x u d (inside x (inl refl)) m
              (eq_sound x.id u.id (ground arith)) in
          subst (λ (u : User). is_pending u.status ≡ false) same (ground arith)
      | inr q ↦ Enrolled-not_pending u t users (λ y n. inside y (inr n)) d m (ground arith)
    ]

-- In a world that the operations built from empty tables, an account that is still pending has
-- neither a session nor a link to a Google account.
pub pending_account_is_empty :
    (service : Service) (w : World) (u : User)
    → Reach service empty w
    → Among u w.db.users
    → is_pending u.status ≡ true
    → ((s : Session) → Among s w.db.sessions → s.user_id ≢ u.id)
      × ((f : FederatedIdentity) → Among f w.db.federated_identities → f.user_id ≢ u.id)
pending_account_is_empty service w u built m pending =
    let i = Reach-WellFormed service w built in
    let settled = Enrolled-not_pending u w.db.users w.db.users (λ x n. n) i.user_ids m in
    (
      λ s n same. cc (
        pending,
        settled (
            subst (λ id. Enrolled id w.db.users) same
              (All-Among (λ (s : Session). Enrolled s.user_id w.db.users) w.db.sessions i.owners
                n)),
      ),
      λ f n same. cc (
        pending,
        settled (
            subst (λ id. Enrolled id w.db.users) same
              (All-Among (λ (f : FederatedIdentity). Enrolled f.user_id w.db.users)
                w.db.federated_identities i.links n)),
      ),
    )
