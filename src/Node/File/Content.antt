-- ===== src/Node/File/Content.antt =====
-- Reading, writing and resizing the content of a node (pkg/node/node.go).
use crypt_fs.Prelude.{
  ℕ, ◌+◌, ◌-◌, ◌≤◌, ◌≡◌, inl, inr, sym, ap, ◌∙◌, false, ◌++◌, Bytes, if◌then◌else◌, length,
  replicate, take, drop, ltb, arith, Bool-cases, length-append, length-take, length-drop,
  length-replicate, take-append, drop-append, take-all, drop-all, take-append_le, take-take_le,
  drop-drop, take-append-drop,
}
use crypt_fs.Bits.{copy}
use crypt_fs.Node.File.{CryptNode, resize, read, make_room, write}

length-copy : (b v : Bytes) → length v ≤ length b → length (copy b v) ≡ length b
unfolding copy
length-copy b v h = omega (
  arith,
  length-append (take (length b) v) (drop (length v) b),
  length-take (length b) v,
  length-drop (length v) b,
)

copy_fits : (b v : Bytes) → length v ≤ length b → copy b v ≡ v ++ drop (length v) b
unfolding copy
copy_fits b v h = rw (take-all (length b) v h)

-- The content after a resize, whose length is the new size.
length-resize : (size : ℕ) (node : CryptNode) → length (resize size node).content ≡ size
unfolding resize
length-resize size node = ground (
  arith,
  length-append node.content (replicate {A = ℕ} (size - length node.content) 0),
  length-replicate {A = ℕ} (size - length node.content) 0,
  length-append node.content node.spare,
  length-take size (node.content ++ node.spare),
)

-- A resize keeps the front of the content.
take-resize :
    (n size : ℕ) (node : CryptNode)
    → n ≤ size
    → n ≤ length node.content
    → take n (resize size node).content ≡ take n node.content
unfolding resize
take-resize n size node h h' =
    elim (Bool-cases (ltb (length node.content + length node.spare) size)) [
      | inl larger ↦ rw larger (take-append_le n node.content _ h')
      | inr fits ↦ rw fits (
          take-take_le n size (node.content ++ node.spare) h
          ∙ take-append_le n node.content node.spare h')
    ]

-- The content with room for a write.
length-make_room : (end : ℕ) (node : CryptNode) → end ≤ length (make_room end node).content
length-make_room end node = ground (arith, length-resize end node)

take-make_room :
    (n end : ℕ) (node : CryptNode)
    → n ≤ end
    → n ≤ length node.content
    → take n (make_room end node).content ≡ take n node.content
take-make_room n end node h h' = ground (arith, take-resize n end node h h')

size-make_room :
    (end : ℕ) (node : CryptNode)
    → length (make_room end node).content
      ≡ (if ltb (length node.content) end then end else length node.content)
size-make_room end node = ground (arith, length-resize end node)

drop-make_room :
    (end : ℕ) (node : CryptNode) → drop end (make_room end node).content ≡ drop end node.content
drop-make_room end node = elim (Bool-cases (ltb (length node.content) end)) [
  | inl short ↦ rw short (
      drop-all end (resize end node).content (ground (arith, length-resize end node))
      ∙ sym (drop-all end node.content (ground arith)))
  | inr enough ↦ rw enough
]

-- What a copy into a slice of the content leaves in the content.
abbrev spliced : Bytes → ℕ → Bytes → Bytes
spliced c off v = take off c ++ copy (drop off c) v

module _ (c : Bytes) (off : ℕ) (v : Bytes) (room : off + length v ≤ length c) where
  length_front : length (take off c) ≡ off
  length_front = omega (arith, room, length-take off c)

  drop-spliced : drop off (spliced c off v) ≡ v ++ drop (length v) (drop off c)
  drop-spliced =
      ap (λ n. drop n (spliced c off v)) (sym length_front)
      ∙ drop-append (take off c) (copy (drop off c) v)
      ∙ copy_fits (drop off c) v (omega (arith, room, length-drop off c))

  take-spliced : take (length v) (drop off (spliced c off v)) ≡ v
  take-spliced = rw drop-spliced (take-append v (drop (length v) (drop off c)))

  length-spliced : length (spliced c off v) ≡ length c
  length-spliced = omega (
    arith,
    room,
    length_front,
    length-append (take off c) (copy (drop off c) v),
    length-copy (drop off c) v (omega (arith, room, length-drop off c)),
    length-drop off c,
  )

  after-spliced : drop (off + length v) (spliced c off v) ≡ drop (off + length v) c
  after-spliced =
      sym (drop-drop off (length v) (spliced c off v))
      ∙ ap (λ b. drop (length v) b) drop-spliced
      ∙ drop-append v (drop (length v) (drop off c))
      ∙ drop-drop off (length v) c

  before-spliced : (n : ℕ) → n ≤ off → take n (spliced c off v) ≡ take n c
  before-spliced n h =
      take-append_le n (take off c) (copy (drop off c) v) (omega (arith, h, length_front))
      ∙ take-take_le n off c h

-- What a write leaves of a node: the bytes can be read back, the content is as long as it has to
-- be, and the old bytes in front of the offset and behind the write stay.
pub record Written (bytes : Bytes) (off : ℕ) (node node' : CryptNode) : Type 0 where
  pub read_back : read (length bytes) off node' ≡ bytes
  pub size : length node'.content ≡ (
      if ltb (length node.content) (off + length bytes)
      then off + length bytes
      else length node.content)
  pub before :
      (n : ℕ) → n ≤ off → n ≤ length node.content → take n node'.content ≡ take n node.content
  pub after : drop (off + length bytes) node'.content ≡ drop (off + length bytes) node.content

-- A write at any offset, also behind the end, is read back as it was written; the content grows to
-- the end of the write if that is behind its own, and keeps its length otherwise; the bytes in
-- front of the offset and behind the write stay as they were.
pub write_lem :
    (now : ℕ) (bytes : Bytes) (off : ℕ) (node : CryptNode)
    → Written bytes off node (write now bytes off node)
unfolding write read
write_lem now bytes off node =
    let c = (make_room (off + length bytes) node).content in
    let room : off + length bytes ≤ length c = length-make_room (off + length bytes) node in
    let in_reach : ltb (length (spliced c off bytes)) off ≡ false =
      ground (arith, length-spliced c off bytes room) in
    record {
      read_back = rw in_reach (take-spliced c off bytes room);
      size = length-spliced c off bytes room ∙ size-make_room (off + length bytes) node;
      before = λ n h h'.
          before-spliced c off bytes room n h
          ∙ take-make_room n (off + length bytes) node (omega arith) h';
      after = after-spliced c off bytes room ∙ drop-make_room (off + length bytes) node;
    }

resize-fits :
    (size : ℕ) (node : CryptNode)
    → size ≤ length node.content + length node.spare
    → resize size node ≡ record node {
      content = take size (node.content ++ node.spare);
      spare = drop size (node.content ++ node.spare);
    }
unfolding resize
resize-fits size node h =
    let fits : ltb (length node.content + length node.spare) size ≡ false = ground arith in rw fits

-- Shrinking the content and growing it back to its old size gives back the node as it was: the
-- bytes that were cut off come back, and do not read as zeros.
pub resize-resize :
    (size : ℕ) (node : CryptNode)
    → size ≤ length node.content
    → resize (length node.content) (resize size node) ≡ node
resize-resize size node h =
    let w = node.content ++ node.spare in
    rw (
      resize-fits size node (omega (arith, h)),
      resize-fits (length node.content) (record node { content = take size w; spare = drop size w })
          (omega (
            arith,
            length-append (take size w) (drop size w),
            length-append node.content node.spare,
            length-take size w,
            length-drop size w,
          )),
      take-append-drop size w,
      take-append node.content node.spare,
      drop-append node.content node.spare,
    )
