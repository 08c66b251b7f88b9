-- ===== src/Identity/Lifecycle/Transactions/Google.antt =====
-- What the transaction of `googleSignIn` of internal/identity/google.go keeps.
use openremotecode_api.Prelude.{
  ℕ, ◌≡◌, refl, Bool, true, false, not, Option, none, some, is_none, arith, if◌then◌else◌,
}
use openremotecode_api.Bytes.{Bytes, ◌==◌}
use openremotecode_api.Database.Rows.{Among}
use openremotecode_api.Database.Transaction.Triples.{
  Triple, Maybe, Triple-bind, Triple-optional, Triple-before, Triple-fail, Triple-if, Triple-refuse,
}
use openremotecode_api.Identity.Errors.{Error, is_not_found, invalid_credentials}
use openremotecode_api.Identity.Types.{
  Account, User, is_pending, is_active, FederatedIdentity, EventType, AccountStatus, pending,
  active, disabled, google,
}
use openremotecode_api.Identity.Db.{Db, Tx}
use openremotecode_api.Identity.Store.{
  user_by_id, federated_identity_for_update, federated_identity_by_user_for_update,
  user_by_normalized_email_for_update, activated,
}
use openremotecode_api.Identity.Service.{Service}
use openremotecode_api.Identity.Transactions.Google.{
  Asserted, start_google_session, google_refusal, google_returning_user, google_returning_found,
  google_new_account, google_link_unlinked, google_link_account, google_activate,
  google_link_existing, google_by_email, google_by_subject, google_transaction,
}
use openremotecode_api.Identity.Lifecycle.{Watch, Inv, Keeps, also}
use openremotecode_api.Identity.Lifecycle.Rules.{
  Keeps-pure, Keeps-optional, Keeps-bind, Keeps-lift, Keeps-enrolling, Keeps-forget,
}
use openremotecode_api.Identity.Lifecycle.Stores
use openremotecode_api.Identity.Lifecycle.Stores.{Inv-found}
use openremotecode_api.Identity.Lifecycle.Users
use openremotecode_api.Identity.Lifecycle.Transactions.{session_owner, Keeps-persist_for}

active_not_pending : (s : AccountStatus) → not (is_active s) ≡ false → is_pending s ≡ false
active_not_pending pending h = ground arith
active_not_pending active h = refl
active_not_pending disabled h = refl

module _ (w : Watch) (service : Service) (now : ℕ) where
  open service use {engine}

  -- A session is started for an account that is enrolled.
  Keeps-start_google_session :
      (a : Account) (name : Bytes) (event : EventType) (random : Bytes)
      → Keeps (also a.id w) (start_google_session service now a name event random)
  unfolding start_google_session
  Keeps-start_google_session a name event random = Keeps-lift (also a.id w) _ _ λ m e.
      Keeps-bind (also a.id w) _ _
        (Keeps-persist_for w service a.id m (session_owner service a name now random e))
        λ _.
          Keeps-bind (also a.id w) _ _ (Stores.Keeps-append_audit_event (also a.id w) engine _)
            λ _. Keeps-pure (also a.id w) _

  Keeps-google_refusal :
      (event : EventType) (id : Bytes) (e : Error) → Keeps w (google_refusal service now event id e)
  unfolding google_refusal
  Keeps-google_refusal event id e =
      Keeps-bind w _ _ (Stores.Keeps-append_audit_event w engine _) λ _. Keeps-pure w _

-- A user who was found, in tables that keep the invariant.
abbrev Found : Watch → (User → Bool) → User → Db → Type 0
Found w p u db = Inv w db × Among u db.users × (p u ≡ true)

module _ (w : Watch) (p : User → Bool) (u : User) {A : Type 0} where
  -- What runs on a user who was found, and who is not pending.
  Keeps-Found :
      (m : Tx A)
      → is_pending u.status ≡ false
      → Keeps (also u.id w) m
      → Triple (Found w p u) m (λ _ db. Inv w db)
  Keeps-Found m e h =
      Triple-before (Found w p u) (Inv (also u.id w)) (λ _ db. Inv w db) m
        (λ db facts. Inv-found w u db facts.1 e facts.0) (Keeps-forget w u.id m h)

  Found-if :
      (b : Bool) (m n : Tx A)
      → (b ≡ true → Triple (Found w p u) m (λ _ db. Inv w db))
      → (b ≡ false → Triple (Found w p u) n (λ _ db. Inv w db))
      → Triple (Found w p u) (if b then m else n) (λ _ db. Inv w db)
  Found-if = Triple-if (Found w p u) (λ _ db. Inv w db)

  -- What runs on a user who was found, and needs no more.
  Found-Keeps : (m : Tx A) → Keeps w m → Triple (Found w p u) m (λ _ db. Inv w db)
  Found-Keeps m h = Triple-before (Found w p u) (Inv w) (λ _ db. Inv w db) m (λ db facts. facts.0) h

module _ (w : Watch) (service : Service) (now : ℕ) (a : Asserted) (random : Bytes) where
  open service use {engine}

  Found-returning :
      (p : User → Bool) (link : FederatedIdentity) (u : User)
      → Triple (Found w p u) (google_returning_found service now a random link u) (λ _ db. Inv w db)
  unfolding google_returning_found
  Found-returning p link u =
      Triple-refuse (Found w p u) (λ _ db. Inv w db) (not (is_active u.status)) _ _
        λ e. Keeps-Found w p u _ (active_not_pending u.status e) (
          Keeps-bind (also u.id w) _ _
            (Stores.Keeps-touch_federated_identity (also u.id w) engine google _ _ _)
            λ _.
              Keeps-bind (also u.id w) _ _
                (Keeps-start_google_session w service now u.account _ _ random)
                λ _. Keeps-pure (also u.id w) _)

  Keeps-google_returning_user :
      (link : FederatedIdentity) → Keeps w (google_returning_user service now a random link)
  unfolding google_returning_user user_by_id
  Keeps-google_returning_user link =
      Triple-bind (Inv w) (Found w (λ u. u.id == link.user_id)) (λ _ db. Inv w db) _ _
        (Stores.Triple-first w engine (λ u. u.id == link.user_id) (λ db. db.users))
        (Found-returning (λ u. u.id == link.user_id) link)

  Keeps-google_new_account : Keeps w (google_new_account service now a random)
  unfolding google_new_account
  Keeps-google_new_account = Keeps-lift w _ _ λ (id, rest) _.
      Keeps-enrolling w id _ _ (Users.Triple-create_user w engine _ refl) λ _.
        Keeps-bind (also id w) _ _ (Stores.Keeps-create_federated_identity w engine _) λ _.
          Keeps-bind (also id w) _ _ (Keeps-start_google_session w service now _ _ _ rest)
            λ _. Keeps-pure (also id w) _

  Keeps-google_link_unlinked :
      (account : Account) (o : Option FederatedIdentity)
      → Keeps (also account.id w) (google_link_unlinked service now a random account o)
  unfolding google_link_unlinked
  Keeps-google_link_unlinked account (some _) =
      Keeps-google_refusal (also account.id w) service now _ _ _
  Keeps-google_link_unlinked account none =
      Keeps-bind (also account.id w) _ _ (Stores.Keeps-create_federated_identity w engine _) λ _.
        Keeps-bind (also account.id w) _ _
          (Keeps-start_google_session w service now account _ _ random)
          λ _. Keeps-pure (also account.id w) _

  Keeps-google_link_account :
      (account : Account)
      → Keeps (also account.id w) (google_link_account service now a random account)
  unfolding google_link_account federated_identity_by_user_for_update
  Keeps-google_link_account account =
      Keeps-bind (also account.id w) _ _
        (Keeps-optional (also account.id w) _ (Stores.Keeps-first (also account.id w) engine _ _))
        (Keeps-google_link_unlinked account)

  Keeps-google_activate : (u : User) → Keeps w (google_activate service now a random u)
  unfolding google_activate
  Keeps-google_activate u =
      Keeps-enrolling w u.id _ _ (Users.Triple-activate_federated_user w engine u.id now) λ _.
        Keeps-bind (also u.id w) _ _ (Stores.Keeps-delete_email_verification (also u.id w) engine _)
          λ _. Keeps-google_link_account (activated now u.account)

  Found-existing :
      (p : User → Bool) (u : User)
      → Triple (Found w p u) (google_link_existing service now a random u) (λ _ db. Inv w db)
  unfolding google_link_existing
  Found-existing p u =
      Found-if w p u (is_pending u.status) _ _ (λ _. Found-Keeps w p u _ (Keeps-google_activate u))
        λ settled.
          Found-if w p u (not (is_active u.status)) _ _
            (λ _. Triple-fail (Found w p u) (λ _ db. Inv w db) invalid_credentials)
            λ _.
              Found-if w p u (is_none u.email_verified_at) _ _
                (λ _. Found-Keeps w p u _ (Keeps-google_refusal w service now _ _ _))
                λ _. Keeps-Found w p u _ settled (Keeps-google_link_account u.account)

  Found-by_email :
      (p : User → Bool) (o : Option User)
      → Triple
          (λ db. Maybe (Inv w) (Found w p) o db)
          (google_by_email service now a random o)
          (λ _ db. Inv w db)
  unfolding google_by_email
  Found-by_email p none = Keeps-google_new_account
  Found-by_email p (some u) = Found-existing p u

  Keeps-google_by_subject :
      (o : Option FederatedIdentity) → Keeps w (google_by_subject service now a random o)
  unfolding google_by_subject user_by_normalized_email_for_update
  Keeps-google_by_subject (some link) = Keeps-google_returning_user link
  Keeps-google_by_subject none =
      let p : User → Bool = λ u. u.normalized_email == a.normalized_email in
      Triple-bind (Inv w) (Maybe (Inv w) (Found w p)) (λ _ db. Inv w db) _ _
        (Triple-optional (Inv w) (Found w p) is_not_found _
          (Stores.Triple-first w engine p (λ db. db.users)))
        (Found-by_email p)

  pub Keeps-google_transaction : Keeps w (google_transaction service now a random)
  unfolding google_transaction federated_identity_for_update
  Keeps-google_transaction =
      Keeps-bind w _ _ (Keeps-optional w _ (Stores.Keeps-first w engine _ _))
        Keeps-google_by_subject
