-- ===== src/Identity/Lifecycle/Stores.antt =====
-- What the lookups, and the statements on sessions, refresh credentials and the rest, of
-- internal/identity/postgres/store.go keep.
use openremotecode_api.Prelude.{
  ℕ, ◌≡◌, refl, Bool, true, false, ◌&&◌, not, some, List, [], ◌∷◌, ◌++◌, All-append, is_none, sym,
  subst,
}
use openremotecode_api.Bytes.{Bytes, ◌==◌, eq_refl, eq_iff}
use openremotecode_api.Database.{Engine}
use openremotecode_api.Database.Rows.{Among}
use openremotecode_api.Database.Watch.{Watched-create, All-map_where, any-of_Among}
use openremotecode_api.Database.Updates.{Watched-map_where, Distinct-map_where, Distinct-create}
use openremotecode_api.Database.Transaction.Triples.{Triple}
use openremotecode_api.Identity.Types.{
  User, is_pending, Session, RefreshCredential, FederatedIdentity, EmailVerification, AuditEvent,
  Provider,
}
use openremotecode_api.Identity.Db.{
  Db, read, session_schema, refresh_credential_schema, federated_identity_schema,
}
use openremotecode_api.Identity.Store
use openremotecode_api.Identity.Lifecycle.{
  Watch, Inv, Keeps, Enrolled, also, Inv-also, Inv-sessions, Inv-refreshes, Inv-links,
  Inv-verifications, Inv-events,
}
use openremotecode_api.Identity.Lifecycle.Statements.{Triple-read, Triple-write, Triple-write_one}

module _ (w : Watch) where
  -- An account that is found and not pending is enrolled.
  pub Inv-found :
      (u : User) (db : Db)
      → Among u db.users
      → is_pending u.status ≡ false
      → Inv w db
      → Inv (also u.id w) db
  Inv-found u db m e i = Inv-also w u.id db i (
      any-of_Among (λ x. (x.id == u.id) && not (is_pending x.status)) db.users u m
        (rw (eq_refl u.id, e) refl))

module _ (w : Watch) (engine : Engine) where
  -- A row that is found is there and passes the test.
  pub Triple-first :
      {Row : Type 0} (p : Row → Bool) (table : Db → List Row)
      → Triple
          (Inv w)
          (read (λ db. engine.first p (table db)))
          (λ r db. Inv w db × Among r (table db) × (p r ≡ true))
  Triple-first p table =
      Triple-read (Inv w) (λ r db. Inv w db × Among r (table db) × (p r ≡ true))
        (λ db. engine.first p (table db))
        λ db r i e. let (m, q) = engine.first_rows p (table db) r e in (i, m, q)

  pub Keeps-first :
      {Row : Type 0} (p : Row → Bool) (table : Db → List Row)
      → Keeps w (read (λ db. engine.first p (table db)))
  Keeps-first p table =
      Triple-read (Inv w) (λ _ db. Inv w db) (λ db. engine.first p (table db)) λ db r i e. i

  pub Keeps-create_session :
      (v : Session)
      → Triple
          (Inv (also v.user_id w))
          (Store.create_session engine v)
          (λ _ db. Inv (also v.user_id w) db)
  unfolding Store.create_session
  Keeps-create_session v =
      Triple-write (Inv (also v.user_id w)) (Inv (also v.user_id w))
        (λ db. engine.create session_schema v db.sessions) (λ db t. record db { sessions = t })
        λ db t i e.
          let (shape, fresh) = engine.create_rows session_schema v db.sessions t e in
          subst (λ t. Inv (also v.user_id w) (record db { sessions = t })) (sym shape)
            (Inv-sessions (also v.user_id w) db (db.sessions ++ (v ∷ []))
              (Watched-create (λ (s : Session). s.id) (λ (s : Session). s.revoked_at) w.session v
                db.sessions session_schema.clash (λ a b same. rw ((eq_iff a.id b.id).1 same) refl)
                fresh i.sessions)
              (All-append (λ (s : Session). Enrolled s.user_id db.users) db.sessions (v ∷ [])
                i.owners (i.accounts.0, tt))
              (Distinct-create (λ (s : Session). s.id) v db.sessions session_schema.clash
                (λ a b same. rw ((eq_iff a.id b.id).1 same) refl) fresh i.session_ids)
              i)

  pub Keeps-revoke_session : (id : Bytes) (now : ℕ) → Keeps w (Store.revoke_session engine id now)
  unfolding Store.revoke_session
  Keeps-revoke_session id now =
      Triple-write (Inv w) (Inv w)
        (λ db.
          engine.update (λ s. (s.id == id) && is_none s.revoked_at)
            (λ s. record s { revoked_at = some now }) db.sessions)
        (λ db t. record db { sessions = t })
        λ db t i e.
          subst (λ t. Inv w (record db { sessions = t }))
            (sym (engine.update_rows _ _ db.sessions t e))
            (Inv-sessions w db _
              (Watched-map_where (λ (s : Session). s.id) (λ (s : Session). s.revoked_at) w.session _
                _ db.sessions (λ _. refl) (λ _ _. refl) i.sessions)
              (All-map_where (λ (s : Session). Enrolled s.user_id db.users) _ _ db.sessions
                (λ _ q. q) i.owners)
              (Distinct-map_where (λ (s : Session). s.id) _ _ db.sessions (λ _. refl) i.session_ids)
              i)

  pub Keeps-rotate_session_access :
      (id hash : Bytes) (until now : ℕ)
      → Keeps w (Store.rotate_session_access engine id hash until now)
  unfolding Store.rotate_session_access
  Keeps-rotate_session_access id hash until now =
      Triple-write_one (Inv w) (Inv w) engine _ _ (λ db. db.sessions)
        (λ db t. record db { sessions = t })
        λ db t i e one.
          subst (λ t. Inv w (record db { sessions = t }))
            (sym (engine.update_rows _ _ db.sessions t e))
            (Inv-sessions w db _
              (Watched-map_where (λ (s : Session). s.id) (λ (s : Session). s.revoked_at) w.session _
                _ db.sessions (λ _. refl) (λ _ q. q) i.sessions)
              (All-map_where (λ (s : Session). Enrolled s.user_id db.users) _ _ db.sessions
                (λ _ q. q) i.owners)
              (Distinct-map_where (λ (s : Session). s.id) _ _ db.sessions (λ _. refl) i.session_ids)
              i)

  pub Keeps-create_refresh_credential :
      (v : RefreshCredential) → Keeps w (Store.create_refresh_credential engine v)
  unfolding Store.create_refresh_credential
  Keeps-create_refresh_credential v =
      Triple-write (Inv w) (Inv w)
        (λ db. engine.create refresh_credential_schema v db.refresh_credentials)
        (λ db t. record db { refresh_credentials = t })
        λ db t i e.
          let (shape, fresh) =
            engine.create_rows refresh_credential_schema v db.refresh_credentials t e in
          subst (λ t. Inv w (record db { refresh_credentials = t })) (sym shape)
            (Inv-refreshes w db _
              (Watched-create (λ (r : RefreshCredential). r.token_hash)
                (λ (r : RefreshCredential). r.used_at) w.refresh v db.refresh_credentials
                refresh_credential_schema.clash
                (λ a b same. (eq_iff a.token_hash b.token_hash).1 same) fresh i.refreshes)
              (Distinct-create (λ (r : RefreshCredential). r.token_hash) v db.refresh_credentials
                refresh_credential_schema.clash
                (λ a b same. (eq_iff a.token_hash b.token_hash).1 same) fresh i.hashes)
              i)

  pub Keeps-mark_refresh_credential_used :
      (hash : Bytes) (now : ℕ) → Keeps w (Store.mark_refresh_credential_used engine hash now)
  unfolding Store.mark_refresh_credential_used
  Keeps-mark_refresh_credential_used hash now =
      Triple-write_one (Inv w) (Inv w) engine _ _ (λ db. db.refresh_credentials)
        (λ db t. record db { refresh_credentials = t })
        λ db t i e one.
          subst (λ t. Inv w (record db { refresh_credentials = t }))
            (sym (engine.update_rows _ _ db.refresh_credentials t e))
            (Inv-refreshes w db _
              (Watched-map_where (λ (r : RefreshCredential). r.token_hash)
                (λ (r : RefreshCredential). r.used_at) w.refresh _ _ db.refresh_credentials
                (λ _. refl) (λ _ _. refl) i.refreshes)
              (Distinct-map_where (λ (r : RefreshCredential). r.token_hash) _ _
                db.refresh_credentials (λ _. refl) i.hashes)
              i)

  pub Keeps-create_federated_identity :
      (v : FederatedIdentity)
      → Triple
          (Inv (also v.user_id w))
          (Store.create_federated_identity engine v)
          (λ _ db. Inv (also v.user_id w) db)
  unfolding Store.create_federated_identity
  Keeps-create_federated_identity v =
      Triple-write (Inv (also v.user_id w)) (Inv (also v.user_id w))
        (λ db. engine.create federated_identity_schema v db.federated_identities)
        (λ db t. record db { federated_identities = t })
        λ db t i e.
          let (shape, fresh) =
            engine.create_rows federated_identity_schema v db.federated_identities t e in
          subst (λ t. Inv (also v.user_id w) (record db { federated_identities = t })) (sym shape)
            (Inv-links (also v.user_id w) db _
              (All-append (λ (f : FederatedIdentity). Enrolled f.user_id db.users)
                db.federated_identities (v ∷ []) i.links (i.accounts.0, tt))
              i)

  pub Keeps-touch_federated_identity :
      (provider : Provider) (subject email : Bytes) (at : ℕ)
      → Keeps w (Store.touch_federated_identity engine provider subject email at)
  unfolding Store.touch_federated_identity
  Keeps-touch_federated_identity provider subject email at =
      Triple-write_one (Inv w) (Inv w) engine _ _ (λ db. db.federated_identities)
        (λ db t. record db { federated_identities = t })
        λ db t i e one.
          subst (λ t. Inv w (record db { federated_identities = t }))
            (sym (engine.update_rows _ _ db.federated_identities t e))
            (Inv-links w db _
              (All-map_where (λ (f : FederatedIdentity). Enrolled f.user_id db.users) _ _
                db.federated_identities (λ _ q. q) i.links)
              i)

  pub Keeps-create_email_verification :
      (v : EmailVerification) → Keeps w (Store.create_email_verification engine v)
  unfolding Store.create_email_verification
  Keeps-create_email_verification v =
      Triple-write (Inv w) (Inv w) _ (λ db t. record db { email_verifications = t })
        λ db t i e. Inv-verifications w db t i

  pub Keeps-replace_email_verification :
      (v : EmailVerification) → Keeps w (Store.replace_email_verification engine v)
  unfolding Store.replace_email_verification
  Keeps-replace_email_verification v =
      Triple-write (Inv w) (Inv w) _ (λ db t. record db { email_verifications = t })
        λ db t i e. Inv-verifications w db t i

  pub Keeps-delete_email_verification :
      (id : Bytes) → Keeps w (Store.delete_email_verification engine id)
  unfolding Store.delete_email_verification
  Keeps-delete_email_verification id =
      Triple-write (Inv w) (Inv w) _ (λ db t. record db { email_verifications = t })
        λ db t i e. Inv-verifications w db t i

  pub Keeps-increment_email_verification_attempts :
      (id : Bytes) → Keeps w (Store.increment_email_verification_attempts engine id)
  unfolding Store.increment_email_verification_attempts
  Keeps-increment_email_verification_attempts id =
      Triple-write_one (Inv w) (Inv w) engine _ _ (λ db. db.email_verifications)
        (λ db t. record db { email_verifications = t }) λ db t i e one. Inv-verifications w db t i

  pub Keeps-append_audit_event : (v : AuditEvent) → Keeps w (Store.append_audit_event engine v)
  unfolding Store.append_audit_event
  Keeps-append_audit_event v =
      Triple-write (Inv w) (Inv w) _ (λ db t. record db { audit_events = t })
        λ db t i e. Inv-events w db t i
