-- ===== src/Tests/Tag.antt =====
-- Runs of the generators of pkg/message/tag.go and pkg/node/ino.go.
use crypt_fs.Prelude.{◌≡◌, refl, arith, true, false, [], ◌∷◌}
use crypt_fs.Generator.{send, call_next, call_stop, here, next}
use crypt_fs.Message.Tag
use crypt_fs.Message.Tag.{MonotoneTags, new_monotone_tags, next_tag, tags, Reach-tags}
use crypt_fs.Node.Ino
use crypt_fs.Node.Ino.{
  InodeNumbersGenerator, new_inode_numbers_generator, next_ino, numbers, Reach-numbers,
}

next_tag_wraps : next_tag 65535 ≡ 1
unfolding next_tag
next_tag_wraps = refl

-- Two tags are sent, one is taken, and the generator is stopped.
abbrev sent : MonotoneTags
sent = record { buffer = 1 ∷ 2 ∷ []; upcoming = 3; taken = []; stopping = false; ended = false }

abbrev stopped : MonotoneTags
stopped = record sent { buffer = 2 ∷ []; taken = 1 ∷ []; stopping = true }

sent-Reach : Tag.Reach new_monotone_tags sent
unfolding next_tag
sent-Reach =
    next (next here (send new_monotone_tags refl (omega arith)))
      (send (record new_monotone_tags { buffer = 1 ∷ []; upcoming = 2 }) refl (omega arith))

stopped-Reach : Tag.Reach new_monotone_tags stopped
stopped-Reach =
    next (next sent-Reach (call_next sent 1 (2 ∷ []) refl))
      (call_stop (record sent { buffer = 2 ∷ []; taken = 1 ∷ [] }) refl)

Reach-tags_example : 1 ∷ [] ≡ tags 0 1
Reach-tags_example = Reach-tags stopped stopped-Reach

-- Two inode numbers are sent, and one is taken.
abbrev numbered : InodeNumbersGenerator
numbered = record { buffer = 3 ∷ []; upcoming = 4; taken = 2 ∷ []; stopping = false; ended = false }

numbered-Reach : Ino.Reach new_inode_numbers_generator numbered
unfolding next_ino
numbered-Reach =
    next
      (next (next here (send new_inode_numbers_generator refl (omega arith))) (
        send (record new_inode_numbers_generator { buffer = 2 ∷ []; upcoming = 3 }) refl
          (omega arith)))
      (call_next (record numbered { buffer = 2 ∷ 3 ∷ []; taken = [] }) 2 (3 ∷ []) refl)

Reach-numbers_example : 2 ∷ [] ≡ numbers 2 1
Reach-numbers_example = Reach-numbers numbered numbered-Reach (omega arith)
