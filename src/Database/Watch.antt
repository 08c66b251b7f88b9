-- ===== src/Database/Watch.antt =====
-- Watching one row of a table by its key: that it stays there and that its stamp (a time of
-- revocation or of use) stays set, whatever is saved or created.
use openremotecode_api.Prelude.{
  ℕ, ◌≡◌, refl, inl, inr, Bool, true, false, Option, none, some, List, [], ◌∷◌, ◌++◌, arith, All,
  All-append, Bool-cases, is_some, sym, ◌∙◌, map,
}
use openremotecode_api.Bytes.{Bytes, ◌==◌, eq_sound, eq_refl, eq_iff}
use openremotecode_api.Database.Rows.{Among, any, put, map_where, All-Among, Among-put}
use openremotecode_api.Database.Keys.{Distinct, Distinct-Among}

module _ {Row : Type 0} where
  pub All-map_where {κ} :
      (P : Row → Type κ) (p : Row → Bool) (f : Row → Row) (t : List Row)
      → ((r : Row) → P r → P (f r))
      → All P t
      → All P (map_where p f t)
  unfolding map_where
  All-map_where P p f [] step h = tt
  All-map_where P p f (x ∷ t) step h = elim (Bool-cases (p x)) [
    | inl e ↦ rw e (step x h.0, All-map_where P p f t step h.1)
    | inr e ↦ rw e (h.0, All-map_where P p f t step h.1)
  ]

  pub All-put {κ} :
      (P : Row → Type κ) (same : Row → Row → Bool) (r : Row) (t : List Row)
      → P r
      → All P t
      → All P (put same r t)
  unfolding put
  All-put P same r t new h = elim (Bool-cases (any (same r) t)) [
    | inl e ↦ rw e (All-map_where P (same r) (λ _. r) t (λ _ _. new) h)
    | inr e ↦ rw e (All-append P t (r ∷ []) h (new, tt))
  ]

  pub any-map_where :
      (q p : Row → Bool) (f : Row → Row) (t : List Row)
      → ((r : Row) → p r ≡ true → q r ≡ true → q (f r) ≡ true)
      → any q t ≡ true
      → any q (map_where p f t) ≡ true
  unfolding any map_where
  any-map_where q p f [] step h = h
  any-map_where q p f (x ∷ t) step h = ground (arith, step x, any-map_where q p f t step)

  pub any-append : (q : Row → Bool) (t u : List Row) → any q t ≡ true → any q (t ++ u) ≡ true
  unfolding any
  any-append q [] u h = absurd (ground arith)
  any-append q (x ∷ t) u h = ground (arith, any-append q t u)

  any_some_false :
      (q : Row → Bool) (clash : Row → Bool) (t : List Row)
      → any q t ≡ true
      → All (λ r. clash r ≡ false) t
      → (r : Row) × (q r ≡ true) × (clash r ≡ false)
  unfolding any
  any_some_false q clash [] h a = absurd (ground arith)
  any_some_false q clash (x ∷ t) h a = elim (Bool-cases (q x)) [
    | inl e ↦ (x, e, a.0)
    | inr e ↦ any_some_false q clash t (ground arith) a.1
  ]

module _ {Row : Type 0} where
  any-put :
      (q : Row → Bool) (same : Row → Row → Bool) (r : Row) (t : List Row)
      → ((y : Row) → same r y ≡ true → q y ≡ true → q r ≡ true)
      → any q t ≡ true
      → any q (put same r t) ≡ true
  unfolding put
  any-put q same r t step h = elim (Bool-cases (any (same r) t)) [
    | inl e ↦ rw e (any-map_where q (same r) (λ _. r) t step h)
    | inr e ↦ rw e (any-append q t (r ∷ []) h)
  ]

-- A row with the watched key has its stamp.
abbrev pub Settled : Option Bytes → Bytes → Option ℕ → Type 0
Settled none key stamp = Unit
Settled (some x) key stamp = key ≡ x → is_some stamp ≡ true

module _ {Row : Type 0} (key : Row → Bytes) (stamp : Row → Option ℕ) where
  -- There is a row with the watched key, and every such row has its stamp.
  abbrev pub Watched : Option Bytes → List Row → Type 0
  Watched none t = Unit
  Watched (some x) t =
      (any (λ r. key r == x) t ≡ true) × All (λ r. key r ≡ x → is_some (stamp r) ≡ true) t

  pub Watched-Among :
      (o : Option Bytes) (t : List Row) (r : Row)
      → Watched o t
      → Among r t
      → Settled o (key r) (stamp r)
  Watched-Among none t r w m = tt
  Watched-Among (some x) t r w m = All-Among (λ s. key s ≡ x → is_some (stamp s) ≡ true) t w.1 m

  pub Watched-put :
      (o : Option Bytes) (r : Row) (t : List Row)
      → Settled o (key r) (stamp r)
      → Watched o t
      → Watched o (put (λ a b. key a == key b) r t)
  Watched-put none r t new w = tt
  Watched-put (some x) r t new w = (
    any-put (λ s. key s == x) (λ a b. key a == key b) r t
        (λ y same here. rw (eq_sound (key r) (key y) same) here) w.0,
    All-put (λ s. key s ≡ x → is_some (stamp s) ≡ true) (λ a b. key a == key b) r t new w.1,
  )

  -- A created row does not have the watched key, because it clashes with no row.
  pub Watched-create :
      (o : Option Bytes) (r : Row) (t : List Row) (clash : Row → Row → Bool)
      → ((a b : Row) → key a ≡ key b → clash a b ≡ true)
      → All (λ old. clash r old ≡ false) t
      → Watched o t
      → Watched o (t ++ (r ∷ []))
  Watched-create none r t clash by_key fresh w = tt
  Watched-create (some x) r t clash by_key fresh w =
      let (s, here, apart) = any_some_false (λ q. key q == x) (clash r) t w.0 fresh in
      (
        any-append (λ q. key q == x) t (r ∷ []) w.0,
        All-append (λ q. key q ≡ x → is_some (stamp q) ≡ true) t (r ∷ []) w.1
            (λ e. cc (apart, by_key r s (e ∙ sym (eq_sound (key s) x here))), tt),
      )

module _ {Row : Type 0} where
  pub any-of_Among :
      (q : Row → Bool) (t : List Row) (x : Row) → Among x t → q x ≡ true → any q t ≡ true
  unfolding any
  any-of_Among q [] x m e = absurd m
  any-of_Among q (y ∷ t) x (inl p) e = rw (← p) (ground arith)
  any-of_Among q (y ∷ t) x (inr m) e = ground (arith, any-of_Among q t x m e)

  All-of_Among {κ} : (P : Row → Type κ) (t : List Row) → ((x : Row) → Among x t → P x) → All P t
  All-of_Among P [] h = tt
  All-of_Among P (y ∷ t) h = (h y (inl refl), All-of_Among P t (λ x m. h x (inr m)))

  any_map_const :
      (q p : Row → Bool) (r : Row) (t : List Row)
      → q r ≡ true
      → any p t ≡ true
      → any q (map_where p (λ _. r) t) ≡ true
  unfolding any map_where
  any_map_const q p r [] e h = h
  any_map_const q p r (x ∷ t) e h = ground (arith, any_map_const q p r t)

  any_last : (q : Row → Bool) (t : List Row) (r : Row) → q r ≡ true → any q (t ++ (r ∷ [])) ≡ true
  unfolding any
  any_last q [] r e = ground arith
  any_last q (x ∷ t) r e = ground (arith, any_last q t r)

  pub any-put_self :
      (q : Row → Bool) (same : Row → Row → Bool) (r : Row) (t : List Row)
      → q r ≡ true
      → any q (put same r t) ≡ true
  unfolding put
  any-put_self q same r t e = elim (Bool-cases (any (same r) t)) [
    | inl h ↦ rw h (any_map_const q (same r) r t e h)
    | inr h ↦ rw h (any_last q t r e)
  ]

module _ {Row : Type 0} (key : Row → Bytes) (stamp : Row → Option ℕ) where
  -- Once a stamped row is saved, its key can be watched.
  pub Watched-stamped :
      (r : Row) (t : List Row)
      → is_some (stamp r) ≡ true
      → Watched key stamp (some (key r)) (put (λ a b. key a == key b) r t)
  Watched-stamped r t e = (
    any-put_self (λ s. key s == key r) (λ a b. key a == key b) r t (eq_refl (key r)),
    All-of_Among (λ s. key s ≡ key r → is_some (stamp s) ≡ true) _
        λ x m same. elim (Among-put (λ a b. key a == key b) r t m) [
          | inl p ↦ rw p e
          | inr (_, apart) ↦ cc (apart, (eq_iff (key r) (key x)).1 (sym same))
        ],
  )

  -- A stamped row that is there can be watched, since no other row has its key.
  pub Watched-found :
      (r : Row) (t : List Row)
      → Distinct (map key t)
      → Among r t
      → is_some (stamp r) ≡ true
      → Watched key stamp (some (key r)) t
  Watched-found r t d m e = (
    any-of_Among (λ s. key s == key r) t r m (eq_refl (key r)),
    All-of_Among (λ s. key s ≡ key r → is_some (stamp s) ≡ true) t
        λ x n same. rw (Distinct-Among key t x r d n m same) e,
  )
