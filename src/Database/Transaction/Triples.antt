-- ===== src/Database/Transaction/Triples.antt =====
-- Partial correctness of the actions of a transaction: from tables with `P`, an action that
-- succeeds gives a value and tables with `Q`.
use openremotecode_api.Prelude.{
  ◌≡◌, refl, Bool, true, false, Option, none, some, arith, inl, inr, sym, subst, if◌then◌else◌,
}
use openremotecode_api.Database.Transaction.{
  Result, ok, err, Tx, pure, fail, lift, refuse, optional, within_transaction, ◌>>=◌, ◌>>◌, bind_ok,
  ok_injective, optional_ok, Result-cases,
}

pub record Triple {S E A : Type 0} (P : S → Type 0) (m : Tx S E A) (Q : A → S → Type 0)
    : Type 0 where
  pub at : (s : S) (a : A) (s' : S) → P s → m s ≡ ok (a, s') → Q a s'

-- A lookup that may find nothing, and then changes nothing.
abbrev pub Maybe : {S A : Type 0} → (S → Type 0) → (A → S → Type 0) → Option A → S → Type 0
Maybe P Q none s = P s
Maybe P Q (some a) s = Q a s

module _ {S E A : Type 0} where
  pub Triple-pure :
      (P : S → Type 0) (Q : A → S → Type 0) (a : A)
      → ((s : S) → P s → Q a s)
      → Triple {E = E} P (pure a) Q
  Triple-pure P Q a h = record {
    at = λ s b s' p e.
        let (same, still) = ok_injective e in subst (λ c. Q c s') same (subst (Q a) still (h s p));
  }

  pub Triple-fail : (P : S → Type 0) (Q : A → S → Type 0) (e : E) → Triple P (fail e) Q
  Triple-fail P Q e = record { at = λ s a s' p h. absurd (ground arith) }

  pub Triple-if :
      (P : S → Type 0) (Q : A → S → Type 0) (b : Bool) (m n : Tx S E A)
      → (b ≡ true → Triple P m Q)
      → (b ≡ false → Triple P n Q)
      → Triple P (if b then m else n) Q
  Triple-if P Q true m n h k = h refl
  Triple-if P Q false m n h k = k refl

  pub Triple-refuse :
      (P : S → Type 0) (Q : A → S → Type 0) (b : Bool) (e : E) (m : Tx S E A)
      → (b ≡ false → Triple P m Q)
      → Triple P (refuse b e >> m) Q
  unfolding ◌>>=◌
  Triple-refuse P Q true e m h = record { at = λ s a s' p h. absurd (ground arith) }
  Triple-refuse P Q false e m h = record { at = (h refl).at }

  pub Triple-optional :
      (P : S → Type 0) (Q : A → S → Type 0) (missing : E → Bool) (m : Tx S E A)
      → Triple P m Q
      → Triple P (optional missing m) (Maybe P Q)
  Triple-optional P Q missing m h = record {
    at = λ s b s' p e. elim (optional_ok missing m s e) [
      | inl (nothing, same) ↦ subst (λ o. Maybe P Q o s') (sym nothing) (subst P same p)
      | inr (a, found, e') ↦ subst (λ o. Maybe P Q o s') (sym found) (h.at s a s' p e')
    ];
  }

  -- A transaction that keeps an invariant keeps it when it is rolled back, too.
  pub within_transaction_keeps :
      (P : S → Type 0) (m : Tx S E A) (s : S)
      → Triple P m (λ _ s'. P s')
      → P s
      → P (within_transaction m s).1
  within_transaction_keeps P m s h p = elim (Result-cases (m s)) [
    | inl ((a, s'), e) ↦ rw (within_transaction, e) (h.at s a s' p e)
    | inr (e, q) ↦ rw (within_transaction, q) p
  ]

module _ {S E A B : Type 0} where
  pub Triple-bind :
      (P : S → Type 0) (Q : A → S → Type 0) (R : B → S → Type 0) (m : Tx S E A) (f : A → Tx S E B)
      → Triple P m Q
      → ((a : A) → Triple (Q a) (f a) R)
      → Triple P (m >>= f) R
  Triple-bind P Q R m f h k = record {
    at = λ s b s' p e.
        let (a, mid, first, second) = bind_ok m f s e in
        (k a).at mid b s' (h.at s a mid p first) second;
  }

  pub Triple-lift :
      (P : S → Type 0) (R : B → S → Type 0) (r : Result E A) (f : A → Tx S E B)
      → ((a : A) → r ≡ ok a → Triple P (f a) R)
      → Triple P (lift r >>= f) R
  unfolding ◌>>=◌
  Triple-lift P R (ok a) f k = record { at = (k a refl).at }
  Triple-lift P R (err e) f k = record { at = λ s b s' p h. absurd (ground arith) }

module _ {S E A : Type 0} where
  pub Triple-after :
      (P : S → Type 0) (Q R : A → S → Type 0) (m : Tx S E A)
      → ((a : A) (s : S) → Q a s → R a s)
      → Triple P m Q
      → Triple P m R
  Triple-after P Q R m f h = record { at = λ s a s' p e. f a s' (h.at s a s' p e) }

  pub Triple-before :
      (O P : S → Type 0) (Q : A → S → Type 0) (m : Tx S E A)
      → ((s : S) → O s → P s)
      → Triple P m Q
      → Triple O m Q
  Triple-before O P Q m f h = record { at = λ s a s' o e. h.at s a s' (f s o) e }

  -- A fact that the tables show before the action.
  pub Triple-fact :
      (F : Type 0) (P P' : S → Type 0) (Q : A → S → Type 0) (m : Tx S E A)
      → ((s : S) → P s → F × P' s)
      → (F → Triple P' m Q)
      → Triple P m Q
  Triple-fact F P P' Q m f h = record {
    at = λ s a s' p e. let (fact, p') = f s p in (h fact).at s a s' p' e;
  }
