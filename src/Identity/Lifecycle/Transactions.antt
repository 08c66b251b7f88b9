-- ===== src/Identity/Lifecycle/Transactions.antt =====
-- What the transactions of internal/identity/service.go keep.
pub mod Refresh
pub mod Google
use openremotecode_api.Prelude.{
  ℕ, ◌+◌, ◌≡◌, refl, Bool, true, false, ◌||◌, not, Option, none, some, ltb, leb, arith, ◌∙◌, ap,
  subst, if◌then◌else◌,
}
use openremotecode_api.Bytes.{Bytes, ◌==◌, eq_sound}
use openremotecode_api.Database.Rows.{Among}
use openremotecode_api.Database.Transaction.{ok, pure, lift, ◌>>=◌, ◌>>◌}
use openremotecode_api.Database.Transaction.Triples.{Triple, Triple-bind}
use openremotecode_api.Identity.Types.{Account, User, is_pending, EmailVerification, Credentials}
use openremotecode_api.Identity.Db.{Db, Tx, optional}
use openremotecode_api.Identity.Store.{user_by_id, activated}
use openremotecode_api.Identity.Tokens
use openremotecode_api.Identity.Service.{
  Service, max_verification_attempts, minimum_resend_interval,
}
use openremotecode_api.Identity.Materials.{SessionMaterial, new_session_material}
use openremotecode_api.Identity.Transactions.{
  persist_session_material, register_transaction, decoy_transaction,
}
use openremotecode_api.Identity.Transactions.Verification.{
  reissue_transaction, verify_user, verify_found, verify_transaction, resend_user, resend_found,
  resend_transaction,
}
use openremotecode_api.Identity.Transactions.Sessions.{login_transaction}
use openremotecode_api.Identity.Store.{
  email_verification_for_update, email_verification_by_user_id_for_update,
}
use openremotecode_api.Identity.Lifecycle.{Watch, Inv, Keeps, also}
use openremotecode_api.Identity.Lifecycle.Rules.{
  Keeps-pure, Keeps-if, Keeps-optional, Keeps-bind, Keeps-lift, Keeps-enrolling,
}
use openremotecode_api.Identity.Lifecycle.Stores
use openremotecode_api.Identity.Lifecycle.Users

-- A new session and the credentials to it are those of the account.
pub session_owner :
    (service : Service) (account : Account) (name : Bytes) (now : ℕ) (random : Bytes)
    {m : SessionMaterial}
    → new_session_material service account name now random ≡ ok m
    → m.session.user_id ≡ account.id
unfolding new_session_material Tokens.◌>>=◌
session_owner service account name now random h = ground arith

module _ (w : Watch) (service : Service) where
  open service use {engine}

  pub Keeps-persist_session_material :
      (m : SessionMaterial) → Keeps (also m.session.user_id w) (persist_session_material engine m)
  unfolding persist_session_material
  Keeps-persist_session_material m =
      Keeps-bind (also m.session.user_id w) _ _ (Stores.Keeps-create_session w engine m.session)
        λ _. Stores.Keeps-create_refresh_credential (also m.session.user_id w) engine m.refresh

  pub Keeps-register_transaction :
      (u : User) (v : EmailVerification) (now : ℕ) → Keeps w (register_transaction engine u v now)
  unfolding register_transaction
  Keeps-register_transaction u v now = Keeps-bind w _ _ (Users.Keeps-create_user w engine u) λ _.
      Keeps-bind w _ _ (Stores.Keeps-create_email_verification w engine v)
        λ _. Stores.Keeps-append_audit_event w engine _

  pub Keeps-decoy_transaction : (now : ℕ) → Keeps w (decoy_transaction engine now)
  unfolding decoy_transaction
  Keeps-decoy_transaction now = Stores.Keeps-append_audit_event w engine _

  pub Keeps-login_transaction :
      (u : User) (m : SessionMaterial) (now : ℕ)
      → Keeps (also m.session.user_id w) (login_transaction service u m now)
  unfolding login_transaction
  Keeps-login_transaction u m now =
      Keeps-bind (also m.session.user_id w) _ _ (Keeps-persist_session_material m)
        λ _. Stores.Keeps-append_audit_event (also m.session.user_id w) engine _

  pub Keeps-reissue_transaction :
      (u : User) (v : EmailVerification) (now : ℕ) → Keeps w (reissue_transaction service u v now)
  unfolding reissue_transaction email_verification_by_user_id_for_update
  Keeps-reissue_transaction u v now =
      Keeps-bind w _ _ (Keeps-optional w _ (Stores.Keeps-first w engine _ _)) λ existing.
        Keeps-bind w _ _ (Stores.Keeps-replace_email_verification w engine _)
          λ _. Keeps-bind w _ _ (Stores.Keeps-append_audit_event w engine _) λ _. Keeps-pure w _

  Keeps-resend_user :
      (v : EmailVerification) (now : ℕ) (random : Bytes) (u : User)
      → Keeps w (resend_user service v now random u)
  unfolding resend_user
  Keeps-resend_user v now random u =
      Keeps-if w (not (is_pending u.status)) _ _ (λ _. Keeps-pure w _)
        λ _. Keeps-lift w _ _ λ m _.
          Keeps-bind w _ _ (Stores.Keeps-replace_email_verification w engine _)
            λ _. Keeps-bind w _ _ (Stores.Keeps-append_audit_event w engine _) λ _. Keeps-pure w _

  Keeps-resend_found :
      (now : ℕ) (random : Bytes) (o : Option EmailVerification)
      → Keeps w (resend_found service now random o)
  unfolding resend_found user_by_id
  Keeps-resend_found now random none = Keeps-pure w _
  Keeps-resend_found now random (some v) =
      Keeps-if w (ltb now (v.created_at + minimum_resend_interval)) _ _ (λ _. Keeps-pure w _)
        λ _. Keeps-bind w _ _ (Stores.Keeps-first w engine _ _) (Keeps-resend_user v now random)

  pub Keeps-resend_transaction :
      (hash : Bytes) (now : ℕ) (random : Bytes)
      → Keeps w (resend_transaction service hash now random)
  unfolding resend_transaction email_verification_for_update
  Keeps-resend_transaction hash now random =
      Keeps-bind w _ _ (Keeps-optional w _ (Stores.Keeps-first w engine _ _))
        (Keeps-resend_found now random)

  -- The material of a session is stored once its account is enrolled.
  pub Keeps-persist_for :
      (id : Bytes) (m : SessionMaterial)
      → m.session.user_id ≡ id
      → Keeps (also id w) (persist_session_material engine m)
  Keeps-persist_for id m e =
      subst (λ id. Keeps (also id w) (persist_session_material engine m)) e
        (Keeps-persist_session_material m)

  Keeps-verify_user :
      (v : EmailVerification) (now : ℕ) (random : Bytes) (u : User)
      → u.id ≡ v.user_id
      → Keeps w (verify_user service v now random u)
  unfolding verify_user
  Keeps-verify_user v now random u same =
      Keeps-if w (not (is_pending u.status)) _ _ (λ _. Keeps-pure w _)
        λ _. Keeps-lift w _ _ λ m e.
          Keeps-enrolling w v.user_id _ _ (Users.Triple-activate_user w engine v.user_id now) λ _.
            Keeps-bind (also v.user_id w) _ _
              (Stores.Keeps-delete_email_verification (also v.user_id w) engine _)
              λ _.
                Keeps-bind (also v.user_id w) _ _
                  (Keeps-persist_for v.user_id m (
                    session_owner service (activated now u.account) v.client_name now random e
                    ∙ same))
                  λ _.
                    Keeps-bind (also v.user_id w) _ _
                      (Stores.Keeps-append_audit_event (also v.user_id w) engine _)
                      λ _. Keeps-pure (also v.user_id w) _

  Keeps-verify_found :
      (hash : Bytes) (now : ℕ) (random : Bytes) (o : Option EmailVerification)
      → Keeps w (verify_found service hash now random o)
  unfolding verify_found user_by_id
  Keeps-verify_found hash now random none = Keeps-pure w _
  Keeps-verify_found hash now random (some v) =
      Keeps-if w (not (ltb now v.expires_at) || leb max_verification_attempts v.attempts) _ _
        (λ _. Keeps-pure w _)
        λ _.
          Keeps-if w (not (v.code_hash == hash)) _ _
            (λ _.
              Keeps-bind w _ _ (Stores.Keeps-increment_email_verification_attempts w engine _)
                λ _. Keeps-pure w _)
            λ _.
              Triple-bind (Inv w)
                (λ u db. Inv w db × Among u db.users × ((u.id == v.user_id) ≡ true))
                (λ _ db. Inv w db) (user_by_id engine v.user_id) (verify_user service v now random)
                (Stores.Triple-first w engine (λ u. u.id == v.user_id) (λ db. db.users))
                λ u. record {
                  at = λ db a db' facts e.
                      (Keeps-verify_user v now random u (eq_sound u.id v.user_id facts.2)).at db a
                        db' facts.0 e;
                }

  pub Keeps-verify_transaction :
      (ticket code : Bytes) (now : ℕ) (random : Bytes)
      → Keeps w (verify_transaction service ticket code now random)
  unfolding verify_transaction email_verification_for_update
  Keeps-verify_transaction ticket code now random =
      Keeps-bind w _ _ (Keeps-optional w _ (Stores.Keeps-first w engine _ _))
        (Keeps-verify_found code now random)
