-- ===== src/Identity/Lifecycle/Lockout.antt =====
-- What a revoked session can no longer do in the tables of internal/identity: its access token is
-- not accepted, it authorizes nothing, and none of its refresh credentials is exchanged.
use openremotecode_api.Prelude.{
  ℕ, ◌≡◌, ◌≢◌, refl, Bool, true, ◌&&◌, ◌||◌, not, List, [], ◌∷◌, arith, All, keep, is_some, inl,
  inr, Bool-cases, ap, ◌∙◌,
}
use openremotecode_api.Identity.Tokens.{valid_token}
use openremotecode_api.Bytes.{Bytes, text, ◌==◌, eq_sound}
use openremotecode_api.Database.{Answer, rows, error}
use openremotecode_api.Database.Rows.{Among, All-Among, Among-append, Among-keep}
use openremotecode_api.Database.Transaction.{ok}
use openremotecode_api.Identity.Errors.{is_not_found}
use openremotecode_api.Identity.Types.{User, Session, AccessPrincipal}
use openremotecode_api.Identity.Db.{Db, translate_error}
use openremotecode_api.Identity.Store.{
  join, users_of, in_force, counted, principal_of, access_principal_by_access_token_hash,
  active_session_by_id,
}
use openremotecode_api.Identity.Service.{Service}
use openremotecode_api.Identity.Validation.{hash_token, is_empty}
use openremotecode_api.Identity.Operations.Access.{
  authenticate_access, authorize_session, or_unauthorized,
}

Among-first :
    {A : Type 0} (s : Session) (u : A) (l : List (Session × A)) (r : Session × A)
    → Among r ((s, u) ∷ l)
    → (Among r l → r.0 ≡ s)
    → r.0 ≡ s
Among-first {A} s u l r (inl q) rest = ap (λ (p : Session × A). p.0) q
Among-first s u l r (inr n) rest = rest n

Among-users_of :
    (s : Session) (users : List User) (r : Session × User) → Among r (users_of s users) → r.0 ≡ s
unfolding users_of
Among-users_of s [] r m = absurd m
Among-users_of s (u ∷ l) r m = elim (Bool-cases (s.user_id == u.id)) [
  | inl e ↦ Among-first s u (users_of s l) r (rw e at m) (Among-users_of s l r)
  | inr e ↦ Among-users_of s l r (rw e at m)
]

-- The session of a joined row is a session.
pub Among-join :
    (sessions : List Session) (users : List User) (r : Session × User)
    → Among r (join sessions users)
    → Among r.0 sessions
unfolding join
Among-join [] users r m = absurd m
Among-join (s ∷ l) users r m = elim (Among-append (users_of s users) (join l users) r m) [
  | inl a ↦ inl (Among-users_of s users r a)
  | inr b ↦ inr (Among-join l users r b)
]

empty_of : {A : Type 0} (l : List A) → ((x : A) → Among x l → ⊥) → l ≡ []
empty_of [] h = refl
empty_of (x ∷ l) h = absurd (h x (inl refl))

none_counted :
    (r : Answer (List (Session × User)))
    → ((l : List (Session × User)) → r ≡ rows l → l ≡ [])
    → or_unauthorized (counted r) ≢ ok tt
none_counted (rows l) h e = let nobody = h l refl in absurd (ground arith)
none_counted (error q) h e = elim (Bool-cases (is_not_found (translate_error q))) [
  | inl found ↦ let e' = rw found at e in absurd (ground arith)
  | inr found ↦ let e' = rw found at e in absurd (ground arith)
]

principal_granted :
    (r : Answer (Session × User)) (p : AccessPrincipal)
    → or_unauthorized (principal_of r) ≡ ok p
    → (x : Session × User) × (r ≡ rows x) × (x.0.id ≡ p.session_id)
principal_granted (rows x) p e = (x, refl, ground arith)
principal_granted (error q) p e = elim (Bool-cases (is_not_found (translate_error q))) [
  | inl found ↦ let e' = rw found at e in absurd (ground arith)
  | inr found ↦ let e' = rw found at e in absurd (ground arith)
]

module _ (id : Bytes) where
  -- Every session of the identifier is revoked.
  abbrev pub Ended : Db → Type 0
  Ended db = All (λ (s : Session). s.id ≡ id → is_some s.revoked_at ≡ true) db.sessions

  -- No joined row of the session is in force.
  pub not_in_force :
      (db : Db) (now : ℕ) (r : Session × User)
      → Ended db
      → Among r (join db.sessions db.users)
      → in_force now r ≡ true
      → r.0.id ≡ id
      → ⊥
  not_in_force db now r h m e same =
      let revoked =
        All-Among (λ (s : Session). s.id ≡ id → is_some s.revoked_at ≡ true) db.sessions h
          (Among-join db.sessions db.users r m) same in
      absurd (ground arith)

  pub session_not_authorized :
      (service : Service) (user : Bytes) (now : ℕ) (db : Db)
      → Ended db
      → authorize_session service user id now db ≢ ok tt
  unfolding authorize_session active_session_by_id
  session_not_authorized service user now db h e =
      elim (Bool-cases (is_empty user || is_empty id)) [
        | inl q ↦ let e' = rw q at e in absurd (ground arith)
        | inr q ↦
            let p : Session × User → Bool =
              λ r. (r.0.id == id) && (r.0.user_id == user) && in_force now r in
            none_counted (service.engine.find p (join db.sessions db.users))
              (λ l found.
                service.engine.find_rows p (join db.sessions db.users) l found
                ∙ empty_of (keep p (join db.sessions db.users)) (λ r m.
                  let (among, passes) = Among-keep p (join db.sessions db.users) r m in
                  not_in_force db now r h among (ground arith) (eq_sound r.0.id id (ground arith))))
              (rw q at e)
      ]

  pub access_not_granted :
      (service : Service) (token : Bytes) (now : ℕ) (db : Db) (p : AccessPrincipal)
      → Ended db
      → authenticate_access service token now db ≡ ok p
      → p.session_id ≢ id
  unfolding authenticate_access access_principal_by_access_token_hash
  access_not_granted service token now db p h e same =
      elim (Bool-cases (not (valid_token token (text "ora_")))) [
        | inl q ↦ let e' = rw q at e in absurd (ground arith)
        | inr q ↦
            let test : Session × User → Bool =
              λ r. (r.0.access_token_hash == hash_token service.lib token) && in_force now r in
            let (r, found, this) =
              principal_granted (service.engine.first test (join db.sessions db.users)) p
                (rw q at e) in
            let (among, passes) =
              service.engine.first_rows test (join db.sessions db.users) r found in
            not_in_force db now r h among (ground arith) (this ∙ same)
      ]
