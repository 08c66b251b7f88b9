-- ===== src/Identity/Lifecycle/Refusals.antt =====
-- `ErrInvalidRefresh` of internal/identity/service.go is never an error of the database: an exchange
-- that ends in it has committed what it did.
use openremotecode_api.Prelude.{
  ℕ, ◌≡◌, ◌≢◌, Bool, true, false, ◌||◌, not, Option, none, some, List, [], ◌∷◌, ◌++◌, arith, ltb,
  is_some, nat_eq, length, keep, inl, inr, Bool-cases, ap, ◌∙◌, if◌then◌else◌,
}
use openremotecode_api.Bytes.{Bytes, text}
use openremotecode_api.Database.{
  Answer, rows, error, Engine, SqlError, record_not_found, duplicated_key, foreign_key_violated,
  check_constraint_violated, failed,
}
use openremotecode_api.Database.Transaction
use openremotecode_api.Database.Transaction.{
  Result, ok, err, pure, found_or_none, ◌>>=◌, Result-cases, within_transaction,
}
use openremotecode_api.Identity.Errors.{Error, invalid_refresh, is_not_found}
use openremotecode_api.Identity.Types.{User, is_active, Session, RefreshCredential, Credentials}
use openremotecode_api.Identity.Db.{Db, Tx, read, write, write_one, optional, translate_error}
use openremotecode_api.Identity.Store
use openremotecode_api.Identity.Service.{Service, Call, World}
use openremotecode_api.Identity.Tokens.{issue_token, issue_random_value, read_full, valid_token}
use openremotecode_api.Identity.Tokens
use openremotecode_api.Identity.Validation.{hash_token}
use openremotecode_api.Identity.Transactions.Sessions.{
  RefreshOutcome, refreshed, invalid, revoking, NewTokens, refresh_reused, refresh_over,
  refresh_rotate, refresh_session, refresh_found, refresh_transaction,
}
use openremotecode_api.Identity.Operations.{commits}
use openremotecode_api.Identity.Operations
use openremotecode_api.Identity.Operations.Sessions.{refresh, refresh_valid, refresh_reply}
use openremotecode_api.Identity.Operations.Outcomes.{require_passed, commits_passed}
use openremotecode_api.Identity.Lifecycle.Statements.{Answer-cases}

-- The action does not fail with `ErrInvalidRefresh`.
record Avoids {A : Type 0} (m : Tx A) : Type 0 where
  pub at : (db : Db) → m db ≢ err invalid_refresh

not_translated : (q : SqlError) → translate_error q ≢ invalid_refresh
not_translated record_not_found h = absurd (ground arith)
not_translated duplicated_key h = absurd (ground arith)
not_translated foreign_key_violated h = absurd (ground arith)
not_translated check_constraint_violated h = absurd (ground arith)
not_translated (failed c) h = absurd (ground arith)

err_same : {A : Type 0} {d e : Error} → ◌≡◌ {A = Result Error A} (err d) (err e) → d ≡ e
err_same h = ground arith

module _ {A : Type 0} where
  Avoids-pure : (a : A) → Avoids (pure a)
  Avoids-pure a = record { at = λ db h. absurd (ground arith) }

  Avoids-if : (b : Bool) (m n : Tx A) → Avoids m → Avoids n → Avoids (if b then m else n)
  Avoids-if true m n h k = h
  Avoids-if false m n h k = k

  read_avoids :
      (a : Answer A) (db : Db)
      → ◌≢◌ {A = Result Error (A × Db)}
          (elim a [ rows x ↦ ok (x, db) | error e ↦ err (translate_error e) ])
          (err invalid_refresh)
  read_avoids (rows a) db h = absurd (ground arith)
  read_avoids (error q) db h = not_translated q (err_same h)

  Avoids-read : (query : Db → Answer A) → Avoids (read query)
  Avoids-read query = record { at = λ db. read_avoids (query db) db }

  write_avoids :
      (a : Answer A) (store : A → Db)
      → ◌≢◌ {A = Result Error (Unit {0} × Db)}
          (elim a [ rows x ↦ ok (tt, store x) | error e ↦ err (translate_error e) ])
          (err invalid_refresh)
  write_avoids (rows a) store h = absurd (ground arith)
  write_avoids (error q) store h = not_translated q (err_same h)

  Avoids-write : (query : Db → Answer A) (store : Db → A → Db) → Avoids (write query store)
  Avoids-write query store = record { at = λ db. write_avoids (query db) (store db) }

  optional_avoids :
      (r : Result Error (A × Db)) (db : Db)
      → r ≢ err invalid_refresh
      → found_or_none is_not_found db r ≢ err invalid_refresh
  optional_avoids (ok a) db h e = absurd (ground arith)
  optional_avoids (err q) db h e = elim (Bool-cases (is_not_found q)) [
    | inl found ↦ let e' = rw (found_or_none, found) at e in absurd (ground arith)
    | inr found ↦ let e' = rw (found_or_none, found) at e in h (ground arith)
  ]

  Avoids-optional : (m : Tx A) → Avoids m → Avoids (optional m)
  unfolding Transaction.optional
  Avoids-optional m h = record { at = λ db. optional_avoids (m db) db (h.at db) }

write_one-Avoids :
    {Row : Type 0} (engine : Engine) (p : Row → Bool) (f : Row → Row) (table : Db → List Row)
    (store : Db → List Row → Db)
    → Avoids (write_one engine p f table store)
write_one-Avoids engine p f table store = record {
  at = λ db h. elim (Answer-cases (engine.update p f (table db))) [
    | inl (t, e) ↦ elim (Bool-cases (nat_eq (length (keep p (table db))) 1)) [
      | inl q ↦ let h' = rw (write_one, e, q) at h in absurd (ground arith)
      | inr q ↦ let h' = rw (write_one, e, q) at h in absurd (ground arith)
    ]
    | inr (q, e) ↦ let h' = rw (write_one, e) at h in not_translated q (err_same h')
  ];
}

module _ {A B : Type 0} where
  Avoids-bind : (m : Tx A) (f : A → Tx B) → Avoids m → ((a : A) → Avoids (f a)) → Avoids (m >>= f)
  unfolding ◌>>=◌
  Avoids-bind m f h k = record {
    at = λ db e. elim (Result-cases (m db)) [
      | inl ((a, db'), q) ↦ (k a).at db' (rw (◌>>=◌, q) at e)
      | inr (d, q) ↦ let e' = rw (◌>>=◌, q) at e in h.at db (q ∙ ap err (err_same e'))
    ];
  }

module _ (service : Service) (now : ℕ) (tokens : NewTokens) where
  open service use {engine}

  Avoids-revoke : (id : Bytes) → Avoids (Store.revoke_session engine id now)
  unfolding Store.revoke_session
  Avoids-revoke id = Avoids-write _ _

  Avoids-audit :
      (v : openremotecode_api.Identity.Types.AuditEvent)
      → Avoids (Store.append_audit_event engine v)
  unfolding Store.append_audit_event
  Avoids-audit v = Avoids-write _ _

  Avoids-reused : (s : Session) → Avoids (refresh_reused service now s)
  unfolding refresh_reused
  Avoids-reused s = Avoids-if (is_some s.revoked_at) _ _ (Avoids-pure _) (
      Avoids-bind _ _ (Avoids-revoke s.id) λ _. Avoids-bind _ _ (Avoids-audit _) λ _. Avoids-pure _)

  Avoids-over : (s : Session) → Avoids (refresh_over service now s)
  unfolding refresh_over
  Avoids-over s =
      Avoids-if (is_some s.revoked_at) _ _ (Avoids-pure _)
        (Avoids-bind _ _ (Avoids-revoke s.id) λ _. Avoids-pure _)

  Avoids-rotate :
      (r : RefreshCredential) (s : Session) (u : User)
      → Avoids (refresh_rotate service now tokens r s u)
  unfolding refresh_rotate Store.mark_refresh_credential_used Store.rotate_session_access
      Store.create_refresh_credential
  Avoids-rotate r s u =
      Avoids-if (not (is_active u.status)) _ _
        (Avoids-bind _ _ (Avoids-revoke s.id) λ _. Avoids-pure _)
        (Avoids-bind _ _ (write_one-Avoids engine _ _ _ _) λ _.
          Avoids-bind _ _ (write_one-Avoids engine _ _ _ _) λ _.
            Avoids-bind _ _ (Avoids-write _ _)
              λ _. Avoids-bind _ _ (Avoids-audit _) λ _. Avoids-pure _)

  Avoids-session :
      (r : RefreshCredential) (o : Option Session) → Avoids (refresh_session service now tokens r o)
  unfolding refresh_session Store.user_by_id
  Avoids-session r none = Avoids-pure _
  Avoids-session r (some s) = Avoids-if (is_some r.used_at) _ _ (Avoids-reused s) (
      Avoids-if
        (is_some s.revoked_at || not (ltb now r.expires_at) || not (ltb now s.refresh_expires_at)) _
        _ (Avoids-over s) (Avoids-bind _ _ (Avoids-read _) (Avoids-rotate r s)))

  Avoids-found : (o : Option RefreshCredential) → Avoids (refresh_found service now tokens o)
  unfolding refresh_found Store.session_for_update
  Avoids-found none = Avoids-pure _
  Avoids-found (some r) = Avoids-bind _ _ (Avoids-optional _ (Avoids-read _)) (Avoids-session r)

  Avoids-transaction : (hash : Bytes) → Avoids (refresh_transaction service hash now tokens)
  unfolding refresh_transaction Store.refresh_credential_for_update
  Avoids-transaction hash = Avoids-bind _ _ (Avoids-optional _ (Avoids-read _)) Avoids-found

token_avoids : (random prefix : Bytes) → issue_token random prefix ≢ err invalid_refresh
unfolding issue_token issue_random_value read_full Tokens.◌>>=◌
token_avoids random prefix h = elim (Bool-cases (ltb (length random) 32)) [
  | inl q ↦ let h' = rw q at h in absurd (ground arith)
  | inr q ↦ let h' = rw q at h in absurd (ground arith)
]

-- What an exchange left that ended in `ErrInvalidRefresh`: its transaction committed, and a
-- revocation was announced.
abbrev pub Left : World → RefreshOutcome → Db → World
Left w (refreshed _) db = w
Left w invalid db = record w { db = db }
Left w (revoking r) db = record w { db = db; announced = w.announced ++ (r ∷ []) }

reply_refused :
    (w w' : World) (o : RefreshOutcome) (db : Db)
    → refresh_reply o (record w { db = db }) ≡ (err invalid_refresh, w')
    → w' ≡ Left w o db
unfolding Operations.◌>>=◌ Operations.announce
reply_refused w w' (refreshed c) db h = absurd (ground arith)
reply_refused w w' invalid db h = ground arith
reply_refused w w' (revoking r) db h = ground arith

pub refresh_refused :
    (service : Service) (call : Call) (token : Bytes) (w w' : World)
    → valid_token token (text "orr_") ≡ true
    → refresh service call token w ≡ (err invalid_refresh, w')
    → (tokens : NewTokens) × (o : RefreshOutcome) × (db : Db) × (refresh_transaction service
          (hash_token service.lib token)
          (call.now 0)
          tokens
          w.db
        ≡ ok (o, db))
      × (w' ≡ Left w o db)
unfolding refresh refresh_valid
refresh_refused service call token w w' valid h =
    let h = rw valid at h in
    let ((access, rest), _, h) = require_passed _ _ w w' invalid_refresh h (token_avoids _ _) in
    let ((again, _), _, h) = require_passed _ _ w w' invalid_refresh h (token_avoids _ _) in
    let tokens : NewTokens = record { access_token = access; refresh_token = again } in
    let (o, db, ran, h) =
      commits_passed _ _ w w' invalid_refresh h
        ((Avoids-transaction service (call.now 0) tokens (hash_token service.lib token)).at w.db) in
    (tokens, o, db, ran, reply_refused w w' o db h)
