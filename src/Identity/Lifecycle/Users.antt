-- ===== src/Identity/Lifecycle/Users.antt =====
-- What the statements on users of internal/identity/postgres/store.go keep: an account's identifier
-- stays, and an account that is not pending never becomes so again.
use openremotecode_api.Prelude.{
  ℕ, ◌≡◌, refl, Bool, true, false, ◌&&◌, not, Option, List, [], ◌∷◌, ◌++◌, All, arith, sym, subst,
  nat_eq, length, keep, Bool-cases, inl, inr,
}
use openremotecode_api.Bytes.{Bytes, ◌==◌}
use openremotecode_api.Database.{Engine}
use openremotecode_api.Database.Rows.{Among-last, any, map_where, All-Among}
use openremotecode_api.Database.Watch.{any-map_where, any-append}
use openremotecode_api.Database.Keys.{Distinct-append}
use openremotecode_api.Database.Updates.{Distinct-map_where}
use openremotecode_api.Database.Transaction.Triples.{Triple}
use openremotecode_api.Identity.Types.{User, is_pending}
use openremotecode_api.Identity.Db.{Db, user_schema}
use openremotecode_api.Identity.Store
use openremotecode_api.Identity.Lifecycle.{Watch, Inv, Keeps, Enrolled, also, Inv-also, Inv-users}
use openremotecode_api.Identity.Lifecycle.Stores.{Inv-found}
use openremotecode_api.Identity.Lifecycle.Statements.{Triple-write, Triple-write_one}

-- An update that keeps identifiers, and leaves no account pending that was not, keeps who is
-- enrolled.
Enrolled-map_where :
    (p : User → Bool) (f : User → User) (t : List User)
    → ((u : User) → (f u).id ≡ u.id)
    → ((u : User) → is_pending u.status ≡ false → is_pending (f u).status ≡ false)
    → (id : Bytes) → Enrolled id t
    → Enrolled id (map_where p f t)
Enrolled-map_where p f t same stays id e =
    any-map_where (λ u. (u.id == id) && not (is_pending u.status)) p f t
      (λ u _ q. rw (same u, stays u (ground arith)) (ground arith)) e

-- An update that leaves nobody who it meets pending enrolls the account that it meets.
activated_one :
    (id : Bytes) (f : User → User) (t : List User)
    → ((u : User) → (f u).id ≡ u.id)
    → ((u : User) → is_pending (f u).status ≡ false)
    → nat_eq (length (keep (λ u. (u.id == id) && is_pending u.status) t)) 1 ≡ true
    → Enrolled id (map_where (λ u. (u.id == id) && is_pending u.status) f t)
unfolding any map_where
activated_one id f [] same done one = absurd (ground arith)
activated_one id f (u ∷ t) same done one = elim (Bool-cases ((u.id == id) && is_pending u.status)) [
  | inl e ↦ let q : ((u.id == id) ≡ true) = ground arith in rw e (rw (same u, done u, q) refl)
  | inr e ↦
      let one' = rw e at one in
      let ih = activated_one id f t same done one' in rw e (ground (arith, ih))
]

-- A new account clashes with none, so its identifier is new.
Inv-created :
    (w : Watch) (v : User) (db : Db)
    → All (λ old. user_schema.clash v old ≡ false) db.users
    → Inv w db
    → Inv w (record db { users = db.users ++ (v ∷ []) })
Inv-created w v db fresh i =
    Inv-users w db (db.users ++ (v ∷ []))
      (λ id q. any-append (λ u. (u.id == id) && not (is_pending u.status)) db.users (v ∷ []) q)
      (Distinct-append (λ (u : User). u.id) v db.users
        (λ x m.
          let c = All-Among (λ old. user_schema.clash v old ≡ false) db.users fresh m in
          ground arith)
        i.user_ids)
      i

module _ (w : Watch) (engine : Engine) where
  pub Keeps-create_user : (v : User) → Keeps w (Store.create_user engine v)
  unfolding Store.create_user
  Keeps-create_user v =
      Triple-write (Inv w) (Inv w) (λ db. engine.create user_schema v db.users)
        (λ db t. record db { users = t })
        λ db t i e.
          let (shape, fresh) = engine.create_rows user_schema v db.users t e in
          subst (λ t. Inv w (record db { users = t })) (sym shape) (Inv-created w v db fresh i)

  -- A user who is created active is enrolled.
  pub Triple-create_user :
      (v : User)
      → is_pending v.status ≡ false
      → Triple (Inv w) (Store.create_user engine v) (λ _ db. Inv (also v.id w) db)
  unfolding Store.create_user
  Triple-create_user v settled =
      Triple-write (Inv w) (Inv (also v.id w)) (λ db. engine.create user_schema v db.users)
        (λ db t. record db { users = t })
        λ db t i e.
          let (shape, fresh) = engine.create_rows user_schema v db.users t e in
          subst (λ t. Inv (also v.id w) (record db { users = t })) (sym shape)
            (Inv-found w v _ (Among-last db.users v) settled (Inv-created w v db fresh i))

  pub Triple-activate_user :
      (id : Bytes) (now : ℕ)
      → Triple (Inv w) (Store.activate_user engine id now) (λ _ db. Inv (also id w) db)
  unfolding Store.activate_user
  Triple-activate_user id now =
      Triple-write_one (Inv w) (Inv (also id w)) engine _ _ (λ db. db.users)
        (λ db t. record db { users = t })
        λ db t i e one.
          subst (λ t. Inv (also id w) (record db { users = t }))
            (sym (engine.update_rows _ _ db.users t e))
            (Inv-also w id _
              (Inv-users w db _ (Enrolled-map_where _ _ db.users (λ _. refl) (λ _ _. refl))
                (Distinct-map_where (λ (u : User). u.id) _ _ db.users (λ _. refl) i.user_ids) i)
              (activated_one id _ db.users (λ _. refl) (λ _. refl) one))

  pub Triple-activate_federated_user :
      (id : Bytes) (now : ℕ)
      → Triple (Inv w) (Store.activate_federated_user engine id now) (λ _ db. Inv (also id w) db)
  unfolding Store.activate_federated_user
  Triple-activate_federated_user id now =
      Triple-write_one (Inv w) (Inv (also id w)) engine _ _ (λ db. db.users)
        (λ db t. record db { users = t })
        λ db t i e one.
          subst (λ t. Inv (also id w) (record db { users = t }))
            (sym (engine.update_rows _ _ db.users t e))
            (Inv-also w id _
              (Inv-users w db _ (Enrolled-map_where _ _ db.users (λ _. refl) (λ _ _. refl))
                (Distinct-map_where (λ (u : User). u.id) _ _ db.users (λ _. refl) i.user_ids) i)
              (activated_one id _ db.users (λ _. refl) (λ _. refl) one))

  pub Keeps-set_email_bounced :
      (id : Bytes) (at : Option ℕ) → Keeps w (Store.set_email_bounced engine id at)
  unfolding Store.set_email_bounced
  Keeps-set_email_bounced id at =
      Triple-write (Inv w) (Inv w) _ (λ db t. record db { users = t })
        λ db t i e.
          subst (λ t. Inv w (record db { users = t })) (sym (engine.update_rows _ _ db.users t e))
            (Inv-users w db _ (Enrolled-map_where _ _ db.users (λ _. refl) (λ _ q. q))
              (Distinct-map_where (λ (u : User). u.id) _ _ db.users (λ _. refl) i.user_ids) i)
