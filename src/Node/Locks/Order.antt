-- ===== src/Node/Locks/Order.antt =====
-- Calls that take their mutexes in an order never wait for each other (pkg/node/node.go).
use crypt_fs.Prelude.{
  ℕ, suc, ◌<◌, ◌≤◌, ◌≡◌, ◌⊎◌, inl, inr, refl, sym, ap, subst, true, List, [], ◌∷◌, ◌++◌, ◌==◌,
  ==_iff, All, arith, Bool-cases, ltb, ltb→lt,
}
use crypt_fs.Node.Locks.{
  Call, lock_order, Thread, entering, member, is_held, Progress, lock, unlock, Reach, start, enter,
  go, Runs, stops, goes,
}

module _ (rank : ℕ → ℕ) where
  abbrev pub IsAscending : List ℕ → Type 0
  IsAscending [] = Unit {0}
  IsAscending (p ∷ ps) = All (λ q. rank p < rank q) ps × IsAscending ps

  -- What a call holds is below all that it wants.
  pub record IsOrdered (t : Thread) : Type 0 where
    pub below : All (λ p. All (λ q. rank p < rank q) t.wanted) t.held
    pub ascending : IsAscending t.wanted

  -- A thread of the state.
  record At (s : List Thread) (t : Thread) : Type 0 where
    before : List Thread
    after : List Thread
    splits : s ≡ before ++ t ∷ after

  At-later : {s : List Thread} {t : Thread} (u : Thread) → At s t → At (u ∷ s) t
  At-later u a = record {
    before = u ∷ a.before;
    after = a.after;
    splits = ap (λ l. u ∷ l) a.splits;
  }

  abbrev wanted_goal : List ℕ → ℕ
  wanted_goal [] = 0
  wanted_goal (p ∷ ps) = suc (rank p)

  -- How far up the next mutex of a thread is.
  abbrev goal : Thread → ℕ
  goal t = wanted_goal t.wanted

  -- Some thread wants the highest mutex.
  record Highest (s : List Thread) : Type 0 where
    thread : Thread
    at : At s thread
    highest : All (λ u. goal u ≤ goal thread) s

  All-≤ : (n m : ℕ) (s : List Thread) → n ≤ m → All (λ u. goal u ≤ n) s → All (λ u. goal u ≤ m) s
  All-≤ n m [] h a = tt
  All-≤ n m (t ∷ s) h (x, a) = (omega (arith, h, x), All-≤ n m s h a)

  higher : (t : Thread) (s : List Thread) → Highest s → Highest (t ∷ s)
  higher t s h = elim (Bool-cases (ltb (goal h.thread) (goal t))) [
    | inr le ↦ record {
      thread = h.thread;
      at = At-later t h.at;
      highest = (ground (arith, le), h.highest);
    }
    | inl gt ↦ record {
      thread = t;
      at = record { before = []; after = s; splits = refl };
      highest = (
        omega arith,
        All-≤ (goal h.thread) (goal t) s (let lt = ltb→lt _ _ gt in omega (arith, lt)) h.highest,
      );
    }
  ]

  find-Highest : (t : Thread) (s : List Thread) → Highest (t ∷ s)
  find-Highest t [] = record {
    thread = t;
    at = record { before = []; after = []; splits = refl };
    highest = (omega arith, tt);
  }
  find-Highest t (u ∷ s) = higher t (u ∷ s) (find-Highest u s)

  member-All : (P : ℕ → Type 0) (p : ℕ) (l : List ℕ) → member p l ≡ true → All P l → P p
  member-All P p [] m a = cc
  member-All P p (q ∷ l) m (x, a) = elim (Bool-cases (p == q)) [
    | inl same ↦ subst P (sym ((==_iff p q).0 same)) x
    | inr other ↦ member-All P p l (rw other at m) a
  ]

  -- The thread that holds a mutex is above what a highest one wants, or can return.
  record Holder (p : ℕ) (s : List Thread) : Type 0 where
    thread : Thread
    at : At s thread
    holds : member p thread.held ≡ true

  find-Holder : (p : ℕ) (s : List Thread) → is_held p s ≡ true → Holder p s
  find-Holder p [] h = cc
  find-Holder p (t ∷ s) h = elim (Bool-cases (member p t.held)) [
    | inl here_ ↦ record {
      thread = t;
      at = record { before = []; after = s; splits = refl };
      holds = here_;
    }
    | inr other ↦
        let later = find-Holder p s (rw other at h) in
        record { thread = later.thread; at = At-later t later.at; holds = later.holds }
  ]

  All-split :
      (P : Thread → Type 0) (before after : List Thread) (t : Thread)
      → All P (before ++ t ∷ after)
      → P t
  All-split P [] after t (x, xs) = x
  All-split P (b ∷ before) after t (x, xs) = All-split P before after t xs

  At-All : (P : Thread → Type 0) {s : List Thread} {t : Thread} → At s t → All P s → P t
  At-All P {s} {t} a all = All-split P a.before a.after t (subst (All P) a.splits all)

  -- A thread that holds what a thread wants at the most can return, for its own next mutex is higher.
  holder_returns :
      (h : Thread) (p n : ℕ)
      → IsOrdered h
      → member p h.held ≡ true
      → goal h ≤ suc (rank p)
      → h.wanted ≡ []
  holder_returns h p n o m le =
      next_mutex h.wanted (member-All (λ q. All (λ r. rank q < rank r) h.wanted) p h.held m o.below)
        le
    where
      next_mutex :
          (wanted : List ℕ)
          → All (λ r. rank p < rank r) wanted
          → wanted_goal wanted ≤ suc (rank p)
          → wanted ≡ []
      next_mutex [] a le = refl
      next_mutex (r ∷ wanted) (lt, a) le = absurd (omega (arith, lt, le))

  progress_at :
      (s : List Thread) (t : Thread) (wanted : List ℕ)
      → All IsOrdered s
      → At s t
      → t.wanted ≡ wanted
      → All (λ u. goal u ≤ goal t) s
      → (u : List Thread) × Progress s u
  progress_at s t [] o a is highest = (a.before ++ a.after, unlock s a.before a.after t a.splits is)
  progress_at s t (p ∷ rest) o a is highest = elim (Bool-cases (is_held p s)) [
    | inr free ↦ (
      a.before ++ record { held = p ∷ t.held; wanted = rest } ∷ a.after,
      lock s a.before a.after t p rest a.splits is free,
    )
    | inl taken ↦
        let h = find-Holder p s taken in
        let le : goal h.thread ≤ suc (rank p) =
          subst (λ n. goal h.thread ≤ n) (ap wanted_goal is)
            (At-All (λ u. goal u ≤ goal t) h.at highest) in
        let done = holder_returns h.thread p 0 (At-All IsOrdered h.at o) h.holds le in
        (h.at.before ++ h.at.after, unlock s h.at.before h.at.after h.thread h.at.splits done)
  ]

  pub goes_on : (s : List Thread) → All IsOrdered s → (s ≡ []) ⊎ ((u : List Thread) × Progress s u)
  goes_on [] o = inl refl
  goes_on (t ∷ s) o =
      let h = find-Highest t s in
      inr (progress_at (t ∷ s) h.thread h.thread.wanted o h.at refl h.highest)

  All-replace :
      (before after : List Thread) (t u : Thread)
      → All IsOrdered (before ++ t ∷ after)
      → (IsOrdered t → IsOrdered u)
      → All IsOrdered (before ++ u ∷ after)
  All-replace [] after t u (x, xs) f = (f x, xs)
  All-replace (b ∷ before) after t u (x, xs) f = (x, All-replace before after t u xs f)

  All-remove :
      (before after : List Thread) (t : Thread)
      → All IsOrdered (before ++ t ∷ after)
      → All IsOrdered (before ++ after)
  All-remove [] after t (x, xs) = xs
  All-remove (b ∷ before) after t (x, xs) = (x, All-remove before after t xs)

  All-snoc :
      (s : List Thread) (t : Thread) → All IsOrdered s → IsOrdered t → All IsOrdered (s ++ t ∷ [])
  All-snoc [] t o x = (x, tt)
  All-snoc (u ∷ s) t (y, o) x = (y, All-snoc s t o x)

  take_next :
      (held : List ℕ) (p : ℕ) (rest : List ℕ)
      → All (λ q. All (λ r. rank q < rank r) (p ∷ rest)) held
      → All (λ q. All (λ r. rank q < rank r) rest) held
  take_next [] p rest tt = tt
  take_next (q ∷ held) p rest ((x, xs), a) = (xs, take_next held p rest a)

  Progress-IsOrdered : {s u : List Thread} → Progress s u → All IsOrdered s → All IsOrdered u
  Progress-IsOrdered (lock s before after t p rest at is free) o =
      All-replace before after t (record { held = p ∷ t.held; wanted = rest })
        (subst (All IsOrdered) at o)
        (λ x.
          let below = subst (λ w. All (λ q. All (λ r. rank q < rank r) w) t.held) is x.below in
          let (above, ascending) = subst IsAscending is x.ascending in
          record { below = (above, take_next t.held p rest below); ascending = ascending })
  Progress-IsOrdered (unlock s before after t at is) o =
      All-remove before after t (subst (All IsOrdered) at o)

  abbrev pub Ascends : Call → Type 0
  Ascends call = IsAscending (lock_order call)

  pub Reach-IsOrdered : {s : List Thread} → Reach Ascends s → All IsOrdered s
  Reach-IsOrdered start = tt
  Reach-IsOrdered (enter {s} call h path) =
      All-snoc s (entering call) (Reach-IsOrdered path) (record { below = tt; ascending = h })
  Reach-IsOrdered (go path step) = Progress-IsOrdered step (Reach-IsOrdered path)

  pub Runs-IsOrdered : {s t : List Thread} → Runs s t → All IsOrdered s → All IsOrdered t
  Runs-IsOrdered (stops s) o = o
  Runs-IsOrdered (goes step run) o = Runs-IsOrdered run (Progress-IsOrdered step o)
