-- ===== src/Node/Ino.antt =====
-- pkg/node/ino.go: the generator of inode numbers, as steps of its goroutine and of its callers.
use crypt_fs.Prelude.{
  ℕ, zero, suc, ◌+◌, ◌-◌, ◌%◌, ◌^◌, ◌≤◌, ◌≡◌, refl, ap, ◌∙◌, List, [], ◌∷◌, length, arith,
}
use crypt_fs.Generator
use crypt_fs.Generator.{Generator, new_generator, values, Reach-values}

-- ino++ of a uint64.
unfoldable pub next_ino : ℕ → ℕ
next_ino ino = (ino + 1) % 2 ^ 64

abbrev pub InodeNumbersGenerator : Type 0
InodeNumbersGenerator = Generator

-- The generator that was made and started; 1 is reserved for the root.
abbrev pub new_inode_numbers_generator : InodeNumbersGenerator
new_inode_numbers_generator = new_generator 2

abbrev pub Step : InodeNumbersGenerator → InodeNumbersGenerator → Type 0
Step = Generator.Step next_ino

abbrev pub Reach : InodeNumbersGenerator → InodeNumbersGenerator → Type 0
Reach = Generator.Reach next_ino

-- The numbers from `n` on.
abbrev pub numbers : ℕ → ℕ → List ℕ
numbers n zero = []
numbers n (suc k) = n ∷ numbers (suc n) k

values-numbers : (n k : ℕ) → n + k ≤ 2 ^ 64 → values next_ino n k ≡ numbers n k
unfolding next_ino
values-numbers n zero h = refl
values-numbers n (suc zero) h = refl
values-numbers n (suc (suc k)) h =
    let within : (n + 1) % 2 ^ 64 ≡ suc n = omega (arith, h) in
    ap (λ l. n ∷ l)
      (ap (λ x. values next_ino x (suc k)) within
        ∙ values-numbers (suc n) (suc k) (omega (arith, h)))

-- However the generator and its callers interleave, also around Stop, the calls of Next return 2, 3, 4
-- and so on, each number once and in order, up to the 2 ^ 64 - 2 numbers that there are.
pub Reach-numbers :
    (s : InodeNumbersGenerator)
    → Reach new_inode_numbers_generator s
    → length s.taken ≤ 2 ^ 64 - 2
    → s.taken ≡ numbers 2 (length s.taken)
Reach-numbers s path few =
    Reach-values next_ino 2 s path ∙ values-numbers 2 (length s.taken) (omega (arith, few))
