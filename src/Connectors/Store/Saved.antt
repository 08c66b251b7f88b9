-- ===== src/Connectors/Store/Saved.antt =====
-- What the tables of internal/connectors/postgres/store.go hold after a save, and what a lookup found.
use openremotecode_api.Prelude.{
  ◌≡◌, refl, inl, inr, Bool, Bool-cases, true, false, Option, none, some, arith, is_some, List, [],
  ◌∷◌, sym, subst, ◌∙◌,
}
use openremotecode_api.Database.{Engine, Answer}
use openremotecode_api.Database.Rows.{Among, any, put, map_where, none_of_any, Among-last}
use openremotecode_api.Connectors.Errors.{ok}
use openremotecode_api.Connectors.Types.{Pairing, Device, AuditEvent}
use openremotecode_api.Connectors.Tx.{Db, optional, optional_ok}
use openremotecode_api.Connectors.Schemas.{pairing_schema, audit_event_schema}
use openremotecode_api.Connectors.Store
use openremotecode_api.Connectors.Store.Statements.{read_ok, write_ok, write-keeps}

pub any-Among :
    {A : Type 0} (p : A → Bool) (t : List A) {d : A} → Among d t → p d ≡ true → any p t ≡ true
any-Among p t {d} m h = elim (Bool-cases (any p t)) [
  | inl e ↦ e
  | inr e ↦ let no = none_of_any p t e m in absurd (ground (arith, h, no))
]

Among-map_where :
    {A : Type 0} (p : A → Bool) (r : A) (t : List A)
    → any p t ≡ true
    → Among r (map_where p (λ _. r) t)
unfolding any map_where
Among-map_where p r [] h = absurd (ground arith)
Among-map_where p r (x ∷ t) h = elim (Bool-cases (p x)) [
  | inl e ↦ rw e (inl refl)
  | inr e ↦ rw e (inr (Among-map_where p r t (ground (arith, e))))
]

Among-put_self : {A : Type 0} (same : A → A → Bool) (r : A) (t : List A) → Among r (put same r t)
unfolding put
Among-put_self same r t = elim (Bool-cases (any (same r) t)) [
  | inl e ↦ rw e (Among-map_where (same r) r t e)
  | inr e ↦ rw e (Among-last t r)
]

pub unset : {A : Type 0} (o : Option A) → is_some o ≡ false → o ≡ none
unset none h = refl
unset (some a) h = absurd (ground arith)

module _ (engine : Engine) where
  pub save_pairing-Among :
      (p : Pairing) (db db' : Db) {u : Unit {0}}
      → Store.save_pairing engine p db ≡ ok (u, db')
      → Among p db'.pairings
  unfolding Store.save_pairing
  save_pairing-Among p db db' e =
      let save : Db → Answer (List Pairing) = λ db. engine.save pairing_schema p db.pairings in
      let (t, q, s) = write_ok save (λ db t. record db { pairings = t }) db e in
      subst (λ (x : Db). Among p x.pairings) s
        (subst (Among p) (sym (engine.save_rows pairing_schema p db.pairings t q))
          (Among-put_self pairing_schema.same_key p db.pairings))

  pub pairings-append_audit_event :
      (v : AuditEvent) (db db' : Db) {u : Unit {0}}
      → Store.append_audit_event engine v db ≡ ok (u, db')
      → db'.pairings ≡ db.pairings
  unfolding Store.append_audit_event
  pairings-append_audit_event v db db' e =
      write-keeps (λ db. db.pairings) (λ db. engine.create audit_event_schema v db.audit_events)
        (λ db (t : List AuditEvent). record db { audit_events = t }) db (λ _ _. refl) e

  pub known-Among :
      (p : Device → Bool) (o : Option Device) (db db' : Db)
      → optional (Store.read (λ db. engine.first p db.devices)) db ≡ ok (o, db')
      → (known : Device) → o ≡ some known
      → Among known db'.devices
  known-Among p o db db' e known same =
      elim (optional_ok (Store.read (λ db. engine.first p db.devices)) db e) [
        | inl (missing, _) ↦ absurd (ground (arith, sym missing ∙ same))
        | inr (d, there, found) ↦
            let (q, s) = read_ok (λ (db : Db). engine.first p db.devices) db found in
            let (m, _) = engine.first_rows p db.devices d q in
            let this : d ≡ known = ground (arith, sym there ∙ same) in
            subst (λ (x : Db). Among known x.devices) s (subst (λ d. Among d db.devices) this m)
      ]
