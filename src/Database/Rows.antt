-- ===== src/Database/Rows.antt =====
-- The rows of a table, and what the statements do to them.
use openremotecode_api.Prelude.{
  ◌≡◌, refl, ◌⊎◌, inl, inr, Bool, true, false, List, [], ◌∷◌, ◌++◌, arith, All, keep, if◌then◌else◌,
  Bool-cases, ◌||◌, subst, sym,
}

module _ {Row : Type 0} where
  abbrev pub Among : Row → List Row → Type 0
  Among r [] = ⊥
  Among r (x ∷ t) = (r ≡ x) ⊎ Among r t

  unfoldable pub any : (Row → Bool) → List Row → Bool
  any p [] = false
  any p (x ∷ t) = p x || any p t

  unfoldable pub map_where : (Row → Bool) → (Row → Row) → List Row → List Row
  map_where p f [] = []
  map_where p f (x ∷ t) = (if p x then f x else x) ∷ map_where p f t

  -- The row replaces the one with its primary key; a new row goes to the end.
  unfoldable pub put : (Row → Row → Bool) → Row → List Row → List Row
  unfolding any map_where
  put same r t = if any (same r) t then map_where (same r) (λ _. r) t else t ++ (r ∷ [])

  pub All-Among {κ} : (P : Row → Type κ) (t : List Row) {x : Row} → All P t → Among x t → P x
  All-Among P [] h m = absurd m
  All-Among P (y ∷ t) h (inl e) = subst P (sym e) h.0
  All-Among P (y ∷ t) h (inr m) = All-Among P t h.1 m

  pub Among-append : (t u : List Row) (x : Row) → Among x (t ++ u) → Among x t ⊎ Among x u
  Among-append [] u x m = inr m
  Among-append (y ∷ t) u x (inl e) = inl (inl e)
  Among-append (y ∷ t) u x (inr m) = elim (Among-append t u x m) [
    | inl a ↦ inl (inr a)
    | inr b ↦ inr b
  ]

  pub Among-last : (t : List Row) (r : Row) → Among r (t ++ (r ∷ []))
  Among-last [] r = inl refl
  Among-last (x ∷ t) r = inr (Among-last t r)

  kept_head :
      (p : Row → Bool) (y x : Row) (t u : List Row)
      → p y ≡ true
      → (Among x u → Among x t × (p x ≡ true))
      → Among x (y ∷ u)
      → Among x (y ∷ t) × (p x ≡ true)
  kept_head p y x t u e rest (inl q) = (inl q, rw q e)
  kept_head p y x t u e rest (inr n) = (inr (rest n).0, (rest n).1)

  pub Among-keep :
      (p : Row → Bool) (t : List Row) (x : Row) → Among x (keep p t) → Among x t × (p x ≡ true)
  Among-keep p [] x m = absurd m
  Among-keep p (y ∷ t) x m = elim (Bool-cases (p y)) [
    | inl e ↦ kept_head p y x t (keep p t) e (Among-keep p t x) (rw e at m)
    | inr e ↦ let (a, b) = Among-keep p t x (rw e at m) in (inr a, b)
  ]

  pub Among-map_where :
      (p : Row → Bool) (f : Row → Row) (t : List Row) {x : Row}
      → Among x (map_where p f t)
      → (y : Row) × Among y t × (((p y ≡ true) × (x ≡ f y)) ⊎ ((p y ≡ false) × (x ≡ y)))
  unfolding map_where
  Among-map_where p f [] m = absurd m
  Among-map_where p f (y ∷ t) (inl e) = elim (Bool-cases (p y)) [
    | inl q ↦ (y, inl refl, inl (q, rw q at e))
    | inr q ↦ (y, inl refl, inr (q, rw q at e))
  ]
  Among-map_where p f (y ∷ t) (inr m) = let (z, a, b) = Among-map_where p f t m in (z, inr a, b)

  pub none_of_any :
      (p : Row → Bool) (t : List Row) {x : Row} → any p t ≡ false → Among x t → p x ≡ false
  unfolding any
  none_of_any p [] h m = absurd m
  none_of_any p (y ∷ t) h (inl e) = rw e (ground arith)
  none_of_any p (y ∷ t) h (inr m) = none_of_any p t (ground arith) m

  -- After a save the table holds the saved row and the old rows of other keys.
  pub Among-put :
      (same : Row → Row → Bool) (r : Row) (t : List Row) {x : Row}
      → Among x (put same r t)
      → (x ≡ r) ⊎ (Among x t × (same r x ≡ false))
  unfolding put
  Among-put same r t {x} m = elim (Bool-cases (any (same r) t)) [
    | inl e ↦ replaced (Among-map_where (same r) (λ _. r) t (rw e at m))
    | inr e ↦ added e (Among-append t (r ∷ []) x (rw e at m))
  ]
    where
      replaced :
          (y : Row) × Among y t × (((same r y ≡ true) × (x ≡ r)) ⊎ ((same r y ≡ false) × (x ≡ y)))
          → (x ≡ r) ⊎ (Among x t × (same r x ≡ false))
      replaced (y, a, inl q) = inl (q.1)
      replaced (y, a, inr q) = inr (rw q.1 a, rw q.1 q.0)

      added :
          any (same r) t ≡ false
          → Among x t ⊎ Among x (r ∷ [])
          → (x ≡ r) ⊎ (Among x t × (same r x ≡ false))
      added e (inl a) = inr (a, none_of_any (same r) t e a)
      added e (inr (inl q)) = inl q
      added e (inr (inr b)) = absurd b
