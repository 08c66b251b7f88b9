-- ===== src/Database/Updates.antt =====
-- Watched rows and primary keys under UPDATE … WHERE.
use openremotecode_api.Prelude.{
  ℕ, ◌≡◌, refl, Bool, true, false, ◌&&◌, Option, none, some, List, [], ◌∷◌, ◌++◌, arith, All,
  Bool-cases, inl, inr, is_some, is_none, sym, map, subst,
}
use openremotecode_api.Bytes.{Bytes, ◌==◌, eq_iff, eq_sound}
use openremotecode_api.Database.Rows.{any, map_where, All-Among}
use openremotecode_api.Database.Watch.{Watched, All-map_where, any-map_where}
use openremotecode_api.Database.Keys.{Distinct, Distinct-append, keys-map_where}

pub All-weaken {ℓ κ μ} :
    {A : Type ℓ} (P : A → Type κ) (Q : A → Type μ) (l : List A)
    → ((x : A) → P x → Q x)
    → All P l
    → All Q l
All-weaken P Q [] h a = tt
All-weaken P Q (x ∷ l) h a = (h x a.0, All-weaken P Q l h a.1)

module _ {Row : Type 0} (key : Row → Bytes) where
  pub Distinct-map_where :
      (p : Row → Bool) (f : Row → Row) (t : List Row)
      → ((r : Row) → key (f r) ≡ key r)
      → Distinct (map key t)
      → Distinct (map key (map_where p f t))
  Distinct-map_where p f t same d =
      subst Distinct (sym (keys-map_where key p f t (λ r _. same r))) d

  -- A created row clashes with none, so its key is new.
  pub Distinct-create :
      (r : Row) (t : List Row) (clash : Row → Row → Bool)
      → ((a b : Row) → key a ≡ key b → clash a b ≡ true)
      → All (λ old. clash r old ≡ false) t
      → Distinct (map key t)
      → Distinct (map key (t ++ (r ∷ [])))
  Distinct-create r t clash by_key fresh d =
      Distinct-append key r t
        (λ x m. elim (Bool-cases (key r == key x)) [
          | inl e ↦ cc (
            by_key r x (eq_sound (key r) (key x) e),
            All-Among (λ old. clash r old ≡ false) t fresh m,
          )
          | inr e ↦ e
        ])
        d

module _ {Row : Type 0} (key : Row → Bytes) (stamp : Row → Option ℕ) where
  -- An update that changes no key and takes no stamp away keeps what is watched.
  pub Watched-map_where :
      (o : Option Bytes) (p : Row → Bool) (f : Row → Row) (t : List Row)
      → ((r : Row) → key (f r) ≡ key r)
      → ((r : Row) → is_some (stamp r) ≡ true → is_some (stamp (f r)) ≡ true)
      → Watched key stamp o t
      → Watched key stamp o (map_where p f t)
  Watched-map_where none p f t same kept w = tt
  Watched-map_where (some x) p f t same kept w = (
    any-map_where (λ r. key r == x) p f t (λ r _ e. rw (same r) e) w.0,
    All-map_where (λ r. key r ≡ x → is_some (stamp r) ≡ true) p f t
        (λ r h e. kept r (h (rw (same r) at e))) w.1,
  )

  stamped_already :
      (b : Bool) (o : Option ℕ) → (b && is_none o) ≡ false → b ≡ true → is_some o ≡ true
  stamped_already b none h e = ground arith
  stamped_already b (some _) h e = refl

  All-stamped :
      (x : Bytes) (f : Row → Row) (t : List Row)
      → ((r : Row) → is_some (stamp (f r)) ≡ true)
      → All
          (λ r. key r ≡ x → is_some (stamp r) ≡ true)
          (map_where (λ r. (key r == x) && is_none (stamp r)) f t)
  unfolding map_where
  All-stamped x f [] stamped = tt
  All-stamped x f (r ∷ t) stamped = elim (Bool-cases ((key r == x) && is_none (stamp r))) [
    | inl e ↦ rw e (λ _. stamped r, All-stamped x f t stamped)
    | inr e ↦ rw e (
      λ q. stamped_already (key r == x) (stamp r) e ((eq_iff (key r) x).1 q),
      All-stamped x f t stamped,
    )
  ]

  -- Stamping every unstamped row of a key makes the key one that can be watched.
  pub Watched-stamp_where :
      (x : Bytes) (f : Row → Row) (t : List Row)
      → ((r : Row) → key (f r) ≡ key r)
      → ((r : Row) → is_some (stamp (f r)) ≡ true)
      → any (λ r. key r == x) t ≡ true
      → Watched key stamp (some x) (map_where (λ r. (key r == x) && is_none (stamp r)) f t)
  Watched-stamp_where x f t same stamped here = (
    any-map_where (λ r. key r == x) (λ r. (key r == x) && is_none (stamp r)) f t
        (λ r _ e. rw (same r) e) here,
    All-stamped x f t stamped,
  )
