-- ===== src/ControlList/Walk.antt =====
-- A control list of driver/ControlListUtil.c as the hardware reads it: packet after packet.
use rpi_vk_driver.Base.{
  ℕ, ◌+◌, ◌*◌, ◌^◌, ◌≤◌, ◌<◌, ◌≡◌, refl, sym, ap, ◌∙◌, subst, ◌⊎◌, inl, inr, ◌↔◌, true, some, List,
  [], ◌∷◌, ◌++◌, arith, length, length-append, ◌==◌,
}
use mathlib.Core.List.{map}
use rpi_vk_driver.Memory.{Mem}
use rpi_vk_driver.ControlList.{ControlList, advance, has_enough_space}
use rpi_vk_driver.ControlList.Emits.{Bytes, Emits, then-Emits}
use rpi_vk_driver.ControlList.Stream.{Packet, opcode, packet_length, walk, insert_all}
use rpi_vk_driver.ControlList.Framing.{encoding, packet_length-encoding, insert-Emits}

-- The next free byte lies in the list's blocks, and these do not reach the end of the memory.
pub record IsList (cl : ControlList) : Type 0 where
  pub from_start : cl.offset ≤ cl.next_free_byte_offset
  pub to_end : cl.next_free_byte_offset ≤ cl.offset + cl.num_blocks * cl.block_size
  pub in_memory : cl.cpa + (cl.offset + cl.num_blocks * cl.block_size) < 2 ^ 32

-- `clHasEnoughSpace` on a list, for a size that does not wrap the sum: whether the bytes fit in the
-- blocks that the list has.
pub has_enough_space-fits :
    (cl : ControlList) (size : ℕ)
    → IsList cl
    → cl.num_blocks * cl.block_size + size < 2 ^ 32
    → (has_enough_space cl size ≡ true)
      ↔ (cl.next_free_byte_offset + size ≤ cl.offset + cl.num_blocks * cl.block_size)
unfolding has_enough_space
has_enough_space-fits cl size l small =
    let blocks = cl.num_blocks * cl.block_size in
    (
      (λ h. ground (arith, l.from_start, l.to_end, l.in_memory)),
      (λ h. ground (arith, l.from_start, l.to_end, l.in_memory)),
    )

nothing-Emits : Emits (λ s. s) []
nothing-Emits = record {
  appends = λ m cl room. record {
    moved = ap (λ x. record cl { next_free_byte_offset = x }) (omega (arith, room.pointer));
    bytes = tt;
    others = λ a away. refl;
  };
}

Bytes-split :
    (m : Mem) (p : ℕ) (xs ys : List ℕ)
    → Bytes m p (xs ++ ys)
    → Bytes m p xs × Bytes m (p + length xs) ys
Bytes-split m p [] ys h = (tt, subst (λ x. Bytes m x ys) (omega arith) h)
Bytes-split m p (x ∷ xs) ys h =
    let rest = Bytes-split m (p + 1) xs ys h.1 in
    ((h.0, rest.0), subst (λ x. Bytes m x ys) (omega arith) rest.1)

module _ (round_fixed : ℕ → ℕ) where
  -- The bytes of the packets in order
  abbrev pub stream : List Packet → List ℕ
  stream [] = []
  stream (p ∷ ps) = encoding round_fixed p ++ stream ps

  insert_all-Emits : (ps : List Packet) → Emits (insert_all round_fixed ps) (stream ps)
  unfolding insert_all
  insert_all-Emits [] = nothing-Emits
  insert_all-Emits (p ∷ ps) = then-Emits (insert-Emits round_fixed p) (insert_all-Emits ps)

  walk-Bytes :
      (m : Mem) (p : ℕ) (ps : List Packet)
      → Bytes m p (stream ps)
      → walk m (length ps) p (p + length (stream ps)) ≡ some (map opcode ps)
  unfolding walk
  walk-Bytes m p [] h = let e : (p == p + 0) ≡ true = ground arith in rw e
  walk-Bytes m p (x ∷ xs) h =
      let parts = Bytes-split m p (encoding round_fixed x) (stream xs) h in
      let first : m p ≡ opcode x = parts.0.0 in
      let len : packet_length (m p) ≡ some (length (encoding round_fixed x)) =
        ap packet_length first ∙ packet_length-encoding round_fixed x in
      let rest : walk m (length xs) (p + length (encoding round_fixed x))
            (p + length (stream (x ∷ xs)))
          ≡ some (map opcode xs) =
        ap (walk m (length xs) (p + length (encoding round_fixed x)))
          (omega (arith, length-append (encoding round_fixed x) (stream xs)))
        ∙ walk-Bytes m (p + length (encoding round_fixed x)) xs parts.1 in
      rw (len, rest, first)

  -- Any packets, written to a list that `clHasEnoughSpace` finds to have room for their bytes: the
  -- hardware that starts at the first new byte finds exactly their operation codes, in order, and
  -- ends at the next free byte; this stays in the list's blocks; the memory outside the new bytes
  -- and the byte after them is unchanged.
  pub walk-insert_all :
      (ps : List Packet) (m : Mem) (cl : ControlList)
      → IsList cl
      → cl.num_blocks * cl.block_size + length (stream ps) < 2 ^ 32
      → has_enough_space cl (length (stream ps)) ≡ true
      → let (m', cl') = insert_all round_fixed ps (m, cl) in
        let start = cl.cpa + cl.next_free_byte_offset in
        let end = cl'.cpa + cl'.next_free_byte_offset in
        (walk m' (length ps) start end ≡ some (map opcode ps))
        × (end ≡ start + length (stream ps))
        × IsList cl'
        × ((a : ℕ) → (a < start) ⊎ (end + 1 ≤ a) → m' a ≡ m a)
  walk-insert_all ps m cl l small enough =
      let n = length (stream ps) in
      let fits = (has_enough_space-fits cl n l small).0 enough in
      let done =
        (insert_all-Emits ps).appends m cl
          (record { pointer = omega (arith, fits, l.in_memory) }) in
      let after = insert_all round_fixed ps (m, cl) in
      let moved : (advance cl n)
          ≡ (record cl { next_free_byte_offset = cl.next_free_byte_offset + n }) =
        ap (λ x. record cl { next_free_byte_offset = x }) (omega (arith, fits, l.in_memory)) in
      let ends : after.1.cpa + after.1.next_free_byte_offset
          ≡ cl.cpa + cl.next_free_byte_offset + n =
        ap (λ (c : ControlList). c.cpa + c.next_free_byte_offset) (done.moved ∙ moved)
        ∙ omega arith in
      (
        ap (walk after.0 (length ps) (cl.cpa + cl.next_free_byte_offset)) ends
            ∙ walk-Bytes after.0 (cl.cpa + cl.next_free_byte_offset) ps done.bytes,
        ends,
        subst IsList (sym (done.moved ∙ moved)) (record {
          from_start = omega (arith, l.from_start);
          to_end = fits;
          in_memory = l.in_memory;
        }),
        λ a away. done.others a (elim away [ inl b ↦ inl b | inr b ↦ inr (omega (arith, ends)) ]),
      )
