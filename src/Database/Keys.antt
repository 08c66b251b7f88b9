-- ===== src/Database/Keys.antt =====
-- Primary keys: the keys of a table's rows are pairwise distinct, whatever is saved or created.
use openremotecode_api.Prelude.{
  ◌≡◌, refl, Bool, true, false, List, [], ◌∷◌, ◌++◌, All, Bool-cases, inl, inr, sym, ◌∙◌, map, ap,
  subst,
}
use openremotecode_api.Bytes.{Bytes, ◌==◌, eq_sound, eq_iff}
use openremotecode_api.Database.Rows.{Among, any, put, map_where, none_of_any}

abbrev pub Distinct : List Bytes → Type 0
Distinct [] = Unit
Distinct (x ∷ l) = All (λ y. (y == x) ≡ false) l × Distinct l

All-snoc :
    (x k : Bytes) (l : List Bytes)
    → All (λ y. (y == x) ≡ false) l
    → (k == x) ≡ false
    → All (λ y. (y == x) ≡ false) (l ++ (k ∷ []))
All-snoc x k [] h e = (e, tt)
All-snoc x k (y ∷ l) h e = (h.0, All-snoc x k l h.1 e)

Distinct-snoc :
    (l : List Bytes) (k : Bytes)
    → Distinct l
    → All (λ y. (k == y) ≡ false) l
    → Distinct (l ++ (k ∷ []))
Distinct-snoc [] k d h = (tt, tt)
Distinct-snoc (x ∷ l) k d h = (All-snoc x k l d.0 h.0, Distinct-snoc l k d.1 h.1)

module _ {Row : Type 0} (key : Row → Bytes) where
  pub keys-map_where :
      (p : Row → Bool) (f : Row → Row) (t : List Row)
      → ((r : Row) → p r ≡ true → key (f r) ≡ key r)
      → map key (map_where p f t) ≡ map key t
  unfolding map_where
  keys-map_where p f [] same = refl
  keys-map_where p f (x ∷ t) same = elim (Bool-cases (p x)) [
    | inl e ↦ rw e (rw (same x e, keys-map_where p f t same))
    | inr e ↦ rw e (rw (keys-map_where p f t same))
  ]

  pub keys-append : (t : List Row) (r : Row) → map key (t ++ (r ∷ [])) ≡ map key t ++ (key r ∷ [])
  keys-append [] r = refl
  keys-append (x ∷ t) r = ap (λ l. key x ∷ l) (keys-append t r)

  fresh_keys :
      (r : Row) (t : List Row)
      → ((x : Row) → Among x t → (key r == key x) ≡ false)
      → All (λ y. (key r == y) ≡ false) (map key t)
  fresh_keys r [] h = tt
  fresh_keys r (x ∷ t) h = (h x (inl refl), fresh_keys r t (λ y m. h y (inr m)))

  pub Distinct-append :
      (r : Row) (t : List Row)
      → ((x : Row) → Among x t → (key r == key x) ≡ false)
      → Distinct (map key t)
      → Distinct (map key (t ++ (r ∷ [])))
  Distinct-append r t fresh d =
      subst Distinct (sym (keys-append t r))
        (Distinct-snoc (map key t) (key r) d (fresh_keys r t fresh))

  pub Distinct-put :
      (r : Row) (t : List Row)
      → Distinct (map key t)
      → Distinct (map key (put (λ a b. key a == key b) r t))
  unfolding put
  Distinct-put r t d = elim (Bool-cases (any (λ x. key r == key x) t)) [
    | inl e ↦ rw e (
        subst Distinct
          (sym
            (keys-map_where (λ x. key r == key x) (λ _. r) t (λ x h. eq_sound (key r) (key x) h)))
          d)
    | inr e ↦ rw e (Distinct-append r t (λ x m. none_of_any (λ x. key r == key x) t e m) d)
  ]

  apart :
      (a b : Row) (t : List Row)
      → All (λ y. (y == key a) ≡ false) (map key t)
      → Among b t
      → key a ≡ key b
      → ⊥
  apart a b [] h m e = m
  apart a b (x ∷ t) h (inl q) e = cc (h.0, (eq_iff (key x) (key a)).1 (ap key (sym q) ∙ sym e))
  apart a b (x ∷ t) h (inr m) e = apart a b t h.1 m e

  -- Two rows of one key are one row.
  pub Distinct-Among :
      (t : List Row) (a b : Row)
      → Distinct (map key t)
      → Among a t
      → Among b t
      → key a ≡ key b
      → a ≡ b
  Distinct-Among [] a b d m n e = absurd m
  Distinct-Among (x ∷ t) a b d (inl p) (inl q) e = p ∙ sym q
  Distinct-Among (x ∷ t) a b d (inl p) (inr n) e = absurd (apart x b t d.0 n (ap key (sym p) ∙ e))
  Distinct-Among (x ∷ t) a b d (inr m) (inl q) e =
      absurd (apart x a t d.0 m (ap key (sym q) ∙ sym e))
  Distinct-Among (x ∷ t) a b d (inr m) (inr n) e = Distinct-Among t a b d.1 m n e
