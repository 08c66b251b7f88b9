-- ===== src/Connectors/Pairing/Guesses.antt =====
-- What `ClaimPairing` and `PollPairing` of internal/connectors/service.go commit for a wrong code and
-- for a pairing past its end.
use openremotecode_api.Prelude.{
  ℕ, ◌≡◌, ◌≢◌, ◌⊎◌, ◌<◌, ◌≤◌, refl, ◌-◌, Bool, true, false, ◌&&◌, not, Option, none, some, List,
  arith, keep, length, leb, ltb, Bool-cases, inl, inr, is_some, sym, ◌∙◌, ap, subst,
}
use openremotecode_api.Bytes.{Bytes, ◌==◌, eq_refl, eq_sound}
use openremotecode_api.Database.{Engine, Answer}
use openremotecode_api.Database.Rows.{Among, any, Among-last}
use openremotecode_api.Database.Watch.{any-put_self}
use openremotecode_api.Connectors.Errors.{ok}
use openremotecode_api.Connectors.Types.{
  Challenge, Pairing, PairingState, ClaimFailure, ClaimFailureCounts,
}
use openremotecode_api.Connectors.Tx.{
  Db, pure, optional, bind_ok, refuse_ok, ok_injective, optional_ok,
}
use openremotecode_api.Connectors.Schemas.{challenge_schema, claim_failure_schema}
use openremotecode_api.Connectors.Store
use openremotecode_api.Connectors.Store.Statements.{read_ok, write_ok}
use openremotecode_api.Connectors.Service.{Service, Call}
use openremotecode_api.Connectors.Tokens.{hash_secret, hash_user_code}
use openremotecode_api.Connectors.Pairing.Claim.{
  ClaimPairingInput, ClaimOutcome, wrong_code, code_expired, claim_transaction, claim_found,
  claim_live, check_claim_failures, over_budget,
}

-- The wrong codes of an account, and of everyone, that count against a claim at a time.
abbrev pub counted_for : Service → ℕ → Bytes → Db → ℕ
counted_for service now user db = length (
    keep
      (λ f. (f.user_id == user) && ltb (now - service.account_claim_failure_window) f.occurred_at)
      db.claim_failures)

abbrev pub counted_for_all : Service → ℕ → Db → ℕ
counted_for_all service now db =
    length
      (keep (λ f. ltb (now - service.global_claim_failure_window) f.occurred_at) db.claim_failures)

-- A challenge of the hash that has been used.
abbrev pub spent : Bytes → Challenge → Bool
spent hash c = (c.hash == hash) && is_some c.used_at

abbrev is_wrong : ClaimOutcome → Bool
is_wrong wrong_code = true
is_wrong _ = false

module _ (engine : Engine) (user : Bytes) (before since : ℕ) where
  claim_failures_ok :
      (db db' : Db) {c : ClaimFailureCounts}
      → Store.claim_failures_for_update engine user before since db ≡ ok (c, db')
      → (db ≡ db')
        × (c.account
            ≡ length
                (keep (λ f. (f.user_id == user) && ltb before f.occurred_at) db.claim_failures))
        × (c.global ≡ length (keep (λ f. ltb since f.occurred_at) db.claim_failures))
  unfolding Store.claim_failures_for_update
  claim_failures_ok db db' {c} e =
      let mine_query : Db → Answer (List ClaimFailure) = λ db.
        engine.find (λ f. (f.user_id == user) && ltb before f.occurred_at) db.claim_failures in
      let all_query : Db → Answer (List ClaimFailure) =
        λ db. engine.find (λ f. ltb since f.occurred_at) db.claim_failures in
      let (mine, mid1, e1, rest) = bind_ok (Store.read mine_query) _ db e in
      let (all, mid2, e2, e3) = bind_ok (Store.read all_query) _ mid1 rest in
      let (q1, s1) = read_ok mine_query db e1 in
      let (q2, s2) = read_ok all_query mid1 e2 in
      let (same, s3) = ok_injective e3 in
      (
        s1 ∙ s2 ∙ s3,
        ap (λ (c : ClaimFailureCounts). c.account) (sym same)
            ∙ ap length (engine.find_rows _ db.claim_failures mine q1),
        ap (λ (c : ClaimFailureCounts). c.global) (sym same)
            ∙ ap length (engine.find_rows _ mid1.claim_failures all q2)
            ∙ ap (λ (d : Db). length (keep (λ f. ltb since f.occurred_at) d.claim_failures))
                (sym s1),
      )

optional-read_ok :
    {A : Type 0} (query : Db → Answer A) (db db' : Db) {o : Option A}
    → optional (Store.read query) db ≡ ok (o, db')
    → db ≡ db'
optional-read_ok query db db' e = elim (optional_ok (Store.read query) db e) [
  | inl (_, same) ↦ same
  | inr (a, _, q) ↦ (read_ok query db q).1
]

module _ (service : Service) (call : Call) where
  open service use {engine, lib}
  open call use {now}

  over_budget_ok :
      (c : ClaimFailureCounts) (db db' : Db) {u : Unit {0}}
      → over_budget service call c db ≡ ok (u, db')
      → (db ≡ db')
        × (leb service.account_claim_failure_limit c.account ≡ false)
        × (leb service.global_claim_failure_limit c.global ≡ false)
  over_budget_ok c db db' e =
      elim (Bool-cases (leb service.account_claim_failure_limit c.account)) [
        | inl a ↦ absurd (ground (arith, rw a at e))
        | inr a ↦ elim (Bool-cases (leb service.global_claim_failure_limit c.global)) [
          | inl g ↦ absurd (ground (arith, rw (a, g) at e))
          | inr g ↦ ((ok_injective (rw (a, g) at e)).1, a, g)
        ]
      ]

  -- The budget lets a claim through only below both limits, and reads only.
  pub check_claim_failures_ok :
      (user : Bytes) (db db' : Db) {u : Unit {0}}
      → check_claim_failures service call user db ≡ ok (u, db')
      → (db ≡ db')
        × (leb service.account_claim_failure_limit (counted_for service now user db) ≡ false)
        × (leb service.global_claim_failure_limit (counted_for_all service now db) ≡ false)
  unfolding check_claim_failures
  check_claim_failures_ok user db db' e =
      let (counts, mid, first, second) = bind_ok _ (over_budget service call) db e in
      let (s1, mine, all) = claim_failures_ok engine user _ _ db mid first in
      let (s2, a, g) = over_budget_ok counts mid db' second in
      (s1 ∙ s2, rw (← mine) a, rw (← all) g)

  -- A code that is unknown is recorded.
  record_claim_failure_ok :
      (user : Bytes) (before : ℕ) (db db' : Db) {u : Unit {0}}
      → Store.record_claim_failure engine user now before db ≡ ok (u, db')
      → Among (record { user_id = user; occurred_at = now }) db'.claim_failures
        × (db.challenges ≡ db'.challenges)
  unfolding Store.record_claim_failure
  record_claim_failure_ok user before db db' e =
      let purge : Db → Answer (List ClaimFailure) =
        λ db. engine.remove (λ f. leb f.occurred_at before) db.claim_failures in
      let failure : ClaimFailure = record { user_id = user; occurred_at = now } in
      let insert : Db → Answer (List ClaimFailure) =
        λ db. engine.create claim_failure_schema failure db.claim_failures in
      let set : Db → List ClaimFailure → Db = λ db t. record db { claim_failures = t } in
      let (u, mid, first, second) = bind_ok (Store.write purge set) _ db e in
      let (kept, q1, s1) = write_ok purge set db first in
      let (all, q2, s2) = write_ok insert set mid second in
      let (made, fresh) =
        engine.create_rows claim_failure_schema failure mid.claim_failures all q2 in
      (
        subst (λ (d : Db). Among failure d.claim_failures) s2
            (subst (Among failure) (sym made) (Among-last mid.claim_failures failure)),
        ap (λ (d : Db). d.challenges) s1 ∙ ap (λ (d : Db). d.challenges) s2,
      )

  save_challenge_ok :
      (c : Challenge) (db db' : Db) {u : Unit {0}}
      → is_some c.used_at ≡ true
      → Store.save_challenge engine c db ≡ ok (u, db')
      → any (spent c.hash) db'.challenges ≡ true
  unfolding Store.save_challenge
  save_challenge_ok c db db' h e =
      let save : Db → Answer (List Challenge) =
        λ db. engine.save challenge_schema c db.challenges in
      let (t, q, s) = write_ok save (λ db t. record db { challenges = t }) db e in
      subst (λ (d : Db). any (spent c.hash) d.challenges ≡ true) s
        (subst (λ t. any (spent c.hash) t ≡ true)
          (sym (engine.save_rows challenge_schema c db.challenges t q))
          (any-put_self (spent c.hash) challenge_schema.same_key c db.challenges
            (ground (arith, eq_refl c.hash, h))))

  -- What comes before the code is looked up.
  claim_steps :
      (input : ClaimPairingInput) (name code : Bytes) (db db' : Db) {o : ClaimOutcome}
      → claim_transaction service call input name code db ≡ ok (o, db')
      → (mid : Db) × (p : Option Pairing) × (leb service.account_claim_failure_limit
            (counted_for service now input.user_id db)
          ≡ false)
        × (leb service.global_claim_failure_limit (counted_for_all service now db) ≡ false)
        × (any (spent (hash_secret lib input.proof.challenge)) mid.challenges ≡ true)
        × (claim_found service call input name p mid ≡ ok (o, db'))
  unfolding claim_transaction Store.challenge_for_update Store.pairing_by_code_for_update
  claim_steps input name code db db' e =
      let hash = hash_secret lib input.proof.challenge in
      let (_, e1) = refuse_ok _ _ _ db e in
      let found : Db → Answer Challenge = λ db. engine.first (λ c. c.hash == hash) db.challenges in
      let (c, mid1, e2, rest2) = bind_ok (Store.read found) _ db e1 in
      let (q2, s2) = read_ok found db e2 in
      let (_, rest3) = refuse_ok _ _ _ mid1 rest2 in
      let (_, mid3, e3, rest4) =
        bind_ok (check_claim_failures service call input.user_id) _ mid1 rest3 in
      let (s3, a, g) = check_claim_failures_ok input.user_id mid1 mid3 e3 in
      let (_, mid4, e4, rest5) =
        bind_ok (Store.save_challenge engine (record c { used_at = some now })) _ mid3 rest4 in
      let here = (engine.first_rows (λ c. c.hash == hash) db.challenges c q2).1 in
      let used = save_challenge_ok (record c { used_at = some now }) mid3 mid4 refl e4 in
      let of_code : Db → Answer Pairing = λ db.
        engine.first (λ p. p.user_code_hash == hash_user_code lib service.pairing_code_key code)
          db.pairings in
      let (p, mid5, e5, rest6) =
        bind_ok (optional (Store.read of_code)) (claim_found service call input name) mid4 rest5 in
      let s5 = optional-read_ok of_code mid4 mid5 e5 in
      (
        mid5,
        p,
        subst
            (λ d.
              leb service.account_claim_failure_limit (counted_for service now input.user_id d)
              ≡ false)
            (sym s2) a,
        subst (λ d. leb service.global_claim_failure_limit (counted_for_all service now d) ≡ false)
            (sym s2) g,
        subst (λ (d : Db). any (spent hash) d.challenges ≡ true) s5
            (subst (λ h. any (spent h) mid4.challenges ≡ true) (eq_sound c.hash hash here) used),
        rest6,
      )

  -- A claim of a known code that goes through has a result.
  claim_live_ok :
      (input : ClaimPairingInput) (name : Bytes) (p : Pairing) (db db' : Db) {o : ClaimOutcome}
      → claim_live service call input name p db ≡ ok (o, db')
      → is_wrong o ≡ false
  unfolding claim_live
  claim_live_ok input name p db db' e =
      let (_, e1) = refuse_ok _ _ _ db e in
      let (known, mid1, _, e2) = bind_ok _ _ db e1 in
      let (device, mid2, _, e3) = bind_ok _ _ mid1 e2 in
      let (_, mid3, _, e4) = bind_ok _ _ mid2 e3 in
      let (_, mid4, _, e5) = bind_ok _ _ mid3 e4 in rw (← (ok_injective e5).0) refl

  claim_found_wrong :
      (input : ClaimPairingInput) (name : Bytes) (p : Option Pairing) (db db' : Db)
      → claim_found service call input name p db ≡ ok (wrong_code, db')
      → Among (record { user_id = input.user_id; occurred_at = now }) db'.claim_failures
        × (db.challenges ≡ db'.challenges)
  unfolding claim_found
  claim_found_wrong input name none db db' e =
      let (_, mid, first, second) = bind_ok _ _ db e in
      let (m, s) = record_claim_failure_ok input.user_id _ db mid first in
      let (_, same) = ok_injective second in
      (
        subst
            (λ (d : Db).
              Among (record { user_id = input.user_id; occurred_at = now }) d.claim_failures)
            same m,
        s ∙ ap (λ (d : Db). d.challenges) same,
      )
  claim_found_wrong input name (some p) db db' e = elim (Bool-cases (not (ltb now p.expires_at))) [
    | inl over ↦
        let (_, mid, first, second) =
          bind_ok (Store.save_pairing engine (record p { state = PairingState.expired }))
            (λ _. pure code_expired) db (rw over at e) in
        absurd (ground (arith, second))
    | inr live ↦ absurd (ground (arith, claim_live_ok input name p db db' (rw live at e)))
  ]

-- When the transaction of `ClaimPairing` commits with the answer that the code is wrong, the account
-- and the service were below their limits of wrong codes; the new failure of the account is recorded,
-- and the challenge that signed the claim is spent.
pub claim_wrong_code :
    (service : Service) (call : Call) (input : ClaimPairingInput) (name code : Bytes) (db db' : Db)
    → claim_transaction service call input name code db ≡ ok (wrong_code, db')
    → (counted_for service call.now input.user_id db < service.account_claim_failure_limit)
      × (counted_for_all service call.now db < service.global_claim_failure_limit)
      × Among (record { user_id = input.user_id; occurred_at = call.now }) db'.claim_failures
      × (any (spent (hash_secret service.lib input.proof.challenge)) db'.challenges ≡ true)
claim_wrong_code service call input name code db db' e =
    let (mid, p, a, g, used, rest) = claim_steps service call input name code db db' e in
    let (m, same) = claim_found_wrong service call input name p mid db' rest in
    (ground (arith, a), ground (arith, g), m, rw (← same) used)

-- An account at its limit of wrong codes, or a service at its own, gets no answer to a code, be the
-- code right or wrong: the transaction of `ClaimPairing` does not commit.
pub claim_over_limit :
    (service : Service) (call : Call) (input : ClaimPairingInput) (name code : Bytes) (db : Db)
    → (service.account_claim_failure_limit ≤ counted_for service call.now input.user_id db)
      ⊎ (service.global_claim_failure_limit ≤ counted_for_all service call.now db)
    → (db' : Db) (o : ClaimOutcome)
    → claim_transaction service call input name code db ≢ ok (o, db')
claim_over_limit service call input name code db h db' o e =
    let (mid, p, a, g, used, rest) = claim_steps service call input name code db db' e in
    elim h [ inl q ↦ ground (arith, a) | inr q ↦ ground (arith, g) ]
