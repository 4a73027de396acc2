-- ===== src/Node/Locks/Rename.antt =====
-- Two calls of Rename that wait for each other (pkg/node/node.go).
use crypt_fs.Prelude.{
  ℕ, ◌≡◌, ◌≢◌, ◌⊎◌, inl, inr, refl, sym, ap, ◌∙◌, true, false, List, [], ◌∷◌, ◌++◌, arith,
}
use crypt_fs.Node.Locks.{
  rename, lock_order, Thread, entering, is_held, Progress, lock, unlock, Reach, start, enter, go,
}

-- One call has its directory and child and waits for the other's directory.
abbrev waiting : ℕ → ℕ → ℕ → Thread
waiting p c q = record { held = c ∷ p ∷ []; wanted = q ∷ [] }

one_of_two :
    (before after : List Thread) (t a b : Thread)
    → a ∷ b ∷ [] ≡ before ++ t ∷ after
    → (t ≡ a) ⊎ (t ≡ b)
one_of_two [] after t a b e = inl cc
one_of_two (x ∷ []) after t a b e = inr cc
one_of_two (x ∷ y ∷ []) after t a b e = cc
one_of_two (x ∷ y ∷ z ∷ before) after t a b e = cc

module _ (p c q d : ℕ) where
  abbrev stuck : List Thread
  stuck = waiting p c q ∷ waiting q d p ∷ []

  waiting-none : (t : Thread) → (t ≡ waiting p c q) ⊎ (t ≡ waiting q d p) → t.wanted ≢ []
  waiting-none t (inl e) none_left = let x = ap (λ u. u.wanted) e in cc
  waiting-none t (inr e) none_left = let x = ap (λ u. u.wanted) e in cc

  all_held :
      (t : Thread) (r : ℕ) (rest : List ℕ)
      → (t ≡ waiting p c q) ⊎ (t ≡ waiting q d p)
      → t.wanted ≡ r ∷ rest
      → is_held r stuck ≡ true
  all_held t r rest (inl e) w =
      let x = sym (ap (λ u. u.wanted) e) ∙ w in let same : q ≡ r = cc in ground (arith, same)
  all_held t r rest (inr e) w =
      let x = sym (ap (λ u. u.wanted) e) ∙ w in let same : p ≡ r = cc in ground (arith, same)

  stuck_stays : (s t : List Thread) → s ≡ stuck → ¬ Progress s t
  stuck_stays _ _ is (lock s before after t r rest at wanted free) =
      let held = all_held t r rest (one_of_two before after t _ _ (sym is ∙ at)) wanted in
      let free' = rw is at free in cc
  stuck_stays _ _ is (unlock s before after t at wanted) =
      waiting-none t (one_of_two before after t _ _ (sym is ∙ at)) wanted

  -- Four nodes, none of which is another.
  pub record AreFour : Type 0 where
    pub p_c : p ≢ c
    pub p_q : p ≢ q
    pub p_d : p ≢ d
    pub c_q : c ≢ q
    pub c_d : c ≢ d
    pub q_d : q ≢ d

  abbrev taking : ℕ → ℕ → ℕ → Thread
  taking p c q = entering (rename p c q false)

  abbrev has_first : ℕ → ℕ → ℕ → Thread
  has_first p c q = record { held = p ∷ []; wanted = c ∷ q ∷ [] }

  -- Two calls of Rename, of a child of p into q and of a child of q into p, can lock each other out for
  -- ever: where they come one after the other there is a way for them to interleave after which each
  -- waits for the other's directory, so that neither goes on, and neither returns.
  pub rename-stuck :
      AreFour
      → (s : List Thread) × Reach
          (λ call. (call ≡ rename p c q false) ⊎ (call ≡ rename q d p false))
          s
        × (s ≢ [])
        × ((t : List Thread) → ¬ Progress s t)
  unfolding lock_order
  rename-stuck f =
      let s₀ = enter (rename p c q false) (inl refl) start in
      let s₁ =
        go s₀ (lock (taking p c q ∷ []) [] [] (taking p c q) p (c ∷ q ∷ []) refl refl refl) in
      let s₂ = go s₁ (
        lock (has_first p c q ∷ []) [] [] (has_first p c q) c (q ∷ []) refl refl
          (let x = f.p_c in ground (arith, x))) in
      let s₃ = enter (rename q d p false) (inr refl) s₂ in
      let s₄ = go s₃ (
        lock (waiting p c q ∷ taking q d p ∷ []) (waiting p c q ∷ []) [] (taking q d p) q
          (d ∷ p ∷ []) refl refl (let x = f.p_q in let y = f.c_q in ground (arith, x, y))) in
      let s₅ = go s₄ (
        lock (waiting p c q ∷ has_first q d p ∷ []) (waiting p c q ∷ []) [] (has_first q d p) d
          (p ∷ []) refl refl
          (let x = f.p_d in let y = f.c_d in let z = f.q_d in ground (arith, x, y, z))) in
      (stuck, s₅, (λ e. cc), λ t. stuck_stays stuck t refl)
