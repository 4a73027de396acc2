-- ===== src/Generator.antt =====
-- A generator of numbers, as steps of its goroutine and of its callers: what pkg/message/tag.go and
-- pkg/node/ino.go share.
use crypt_fs.Prelude.{
  ℕ, zero, suc, ◌<◌, ◌≤◌, ◌≡◌, refl, sym, ap, ◌∙◌, Bool, true, false, List, [], ◌∷◌, ◌++◌, length,
  arith, length-append, append_assoc, take, take-append,
}

-- make(chan …, 42)
abbrev pub capacity : ℕ
capacity = 42

-- `buffer` is what the channel holds, `upcoming` the goroutine's next number, and `taken` what the
-- calls of Next have returned so far. `stopping` tells that the stop channel is closed, and `ended`
-- that the goroutine has returned.
pub record Generator : Type 0 where
  pub buffer : List ℕ
  pub upcoming : ℕ
  pub taken : List ℕ
  pub stopping : Bool
  pub ended : Bool

abbrev pub new_generator : ℕ → Generator
new_generator first = record {
  buffer = [];
  upcoming = first;
  taken = [];
  stopping = false;
  ended = false;
}

-- The first numbers from one on.
abbrev pub values : (ℕ → ℕ) → ℕ → ℕ → List ℕ
values advance x zero = []
values advance x (suc k) = x ∷ values advance (advance x) k

abbrev pub iterate : (ℕ → ℕ) → ℕ → ℕ → ℕ
iterate advance x zero = x
iterate advance x (suc k) = iterate advance (advance x) k

module _ (advance : ℕ → ℕ) where
  -- While the stop channel is closed and there is room, the goroutine may still take either case.
  pub data Step : Generator → Generator → Type 0 where
    send :
        (s : Generator)
        → s.ended ≡ false
        → length s.buffer < capacity
        → Step s (record s { buffer = s.buffer ++ s.upcoming ∷ []; upcoming = advance s.upcoming })
    call_next :
        (s : Generator) (x : ℕ) (rest : List ℕ)
        → s.buffer ≡ x ∷ rest
        → Step s (record s { buffer = rest; taken = s.taken ++ x ∷ [] })
    call_stop : (s : Generator) → s.stopping ≡ false → Step s (record s { stopping = true })
    end : (s : Generator) → s.stopping ≡ true → Step s (record s { ended = true })

  pub data Reach (s : Generator) : Generator → Type 0 where
    here : Reach s s
    next : {t u : Generator} → Reach s t → Step t u → Reach s u

  values-snoc :
      (x k : ℕ) → values advance x k ++ iterate advance x k ∷ [] ≡ values advance x (suc k)
  values-snoc x zero = refl
  values-snoc x (suc k) = ap (λ l. x ∷ l) (values-snoc (advance x) k)

  iterate-suc : (x k : ℕ) → advance (iterate advance x k) ≡ iterate advance x (suc k)
  iterate-suc x zero = refl
  iterate-suc x (suc k) = iterate-suc (advance x) k

  length-values : (x k : ℕ) → length (values advance x k) ≡ k
  length-values x zero = refl
  length-values x (suc k) = ap suc (length-values (advance x) k)

  take-values : (x k l : ℕ) → k ≤ l → take k (values advance x l) ≡ values advance x k
  take-values x zero l h = refl
  take-values x (suc k) zero h = absurd (omega arith)
  take-values x (suc k) (suc l) h = ap (λ t. x ∷ t) (take-values (advance x) k l (omega arith))

  -- What was taken and what is buffered are the first numbers, and the goroutine holds the next one.
  record IsInOrder (first : ℕ) (s : Generator) : Type 0 where
    made : s.taken ++ s.buffer ≡ values advance first (length (s.taken ++ s.buffer))
    held : s.upcoming ≡ iterate advance first (length (s.taken ++ s.buffer))

  length-snoc : (all : List ℕ) (x : ℕ) → length (all ++ x ∷ []) ≡ suc (length all)
  length-snoc all x = omega (arith, length-append all (x ∷ []))

  Step-IsInOrder : {first : ℕ} {s t : Generator} → Step s t → IsInOrder first s → IsInOrder first t
  Step-IsInOrder {first} (send s running room) h =
      let all = s.taken ++ s.buffer in
      let more = sym (append_assoc s.taken s.buffer (s.upcoming ∷ [])) in
      let count = sym (length-snoc all s.upcoming) ∙ ap length (sym more) in
      record {
        made =
            more
            ∙ ap (λ l. l ++ s.upcoming ∷ []) h.made
            ∙ ap (λ x. values advance first (length all) ++ x ∷ []) h.held
            ∙ values-snoc first (length all)
            ∙ ap (λ n. values advance first n) count;
        held =
            ap advance h.held
            ∙ iterate-suc first (length all)
            ∙ ap (λ n. iterate advance first n) count;
      }
  Step-IsInOrder (call_next s x rest e) h =
      let same : (s.taken ++ x ∷ []) ++ rest ≡ s.taken ++ s.buffer = rw (append_assoc, e) in
      record { made = rw same h.made; held = rw same h.held }
  Step-IsInOrder (call_stop s fresh) h = record { made = h.made; held = h.held }
  Step-IsInOrder (end s stopping) h = record { made = h.made; held = h.held }

  Reach-IsInOrder :
      {first : ℕ} {s t : Generator} → Reach s t → IsInOrder first s → IsInOrder first t
  Reach-IsInOrder here h = h
  Reach-IsInOrder (next path step) h = Step-IsInOrder step (Reach-IsInOrder path h)

  -- What the calls of Next have returned are the first numbers in order.
  pub Reach-values :
      (first : ℕ) (s : Generator)
      → Reach (new_generator first) s
      → s.taken ≡ values advance first (length s.taken)
  Reach-values first s path =
      let h = Reach-IsInOrder path (record { made = refl; held = refl }) in
      sym (take-append s.taken s.buffer)
      ∙ ap (λ l. take (length s.taken) l) h.made
      ∙ take-values first (length s.taken) (length (s.taken ++ s.buffer))
          (omega (arith, length-append s.taken s.buffer))
