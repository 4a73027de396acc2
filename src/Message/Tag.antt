-- ===== src/Message/Tag.antt =====
-- pkg/message/tag.go: the generator of tags, as steps of its goroutine and of its callers.
use crypt_fs.Prelude.{
  ℕ, zero, suc, ◌+◌, ◌%◌, ◌^◌, ◌≡◌, refl, ap, ◌∙◌, List, [], ◌∷◌, ◌==◌, if◌then◌else◌, length,
  arith,
}
use crypt_fs.Generator
use crypt_fs.Generator.{Generator, new_generator, values, Reach-values}

-- tag++, and once more at zero; a tag is a uint16.
unfoldable pub next_tag : ℕ → ℕ
next_tag tag = let tag' = (tag + 1) % 2 ^ 16 in if tag' == 0 then tag' + 1 else tag'

abbrev pub MonotoneTags : Type 0
MonotoneTags = Generator

abbrev pub new_monotone_tags : MonotoneTags
new_monotone_tags = new_generator 1

abbrev pub Step : MonotoneTags → MonotoneTags → Type 0
Step = Generator.Step next_tag

abbrev pub Reach : MonotoneTags → MonotoneTags → Type 0
Reach = Generator.Reach next_tag

-- The tags from the nth on: from 1 to 65535, and again from 1.
abbrev pub tags : ℕ → ℕ → List ℕ
tags n zero = []
tags n (suc k) = (1 + n % 65535) ∷ tags (suc n) k

next_tag_lem : (n : ℕ) → next_tag (1 + n % 65535) ≡ 1 + suc n % 65535
unfolding next_tag
next_tag_lem n = ground arith

values-tags : (n k : ℕ) → values next_tag (1 + n % 65535) k ≡ tags n k
values-tags n zero = refl
values-tags n (suc k) =
    ap (λ l. (1 + n % 65535) ∷ l)
      (ap (λ x. values next_tag x k) (next_tag_lem n) ∙ values-tags (suc n) k)

-- However the generator and its callers interleave, also around Stop, the calls of Next return the
-- tags in order, each once: 1 to 65535, and again from 1, never zero.
pub Reach-tags : (s : MonotoneTags) → Reach new_monotone_tags s → s.taken ≡ tags 0 (length s.taken)
Reach-tags s path = Reach-values next_tag 1 s path ∙ values-tags 0 (length s.taken)
