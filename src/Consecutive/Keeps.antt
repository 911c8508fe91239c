-- ===== src/Consecutive/Keeps.antt =====
-- The state of a pool of driver/ConsecutivePoolAllocator.c between calls: its free blocks and the
-- blocks that clients hold are together the blocks of the buffer.
use rpi_vk_driver.Base.{
  ℕ, ◌+◌, ◌/◌, ◌^◌, ◌<◌, ◌≡◌, sym, List, [], ◌++◌, arith, length, length-append, All, append-nil,
}
use mathlib.Core.List.{Permᴰ}
use mathlib.Core.List.Permᴰ
use rpi_vk_driver.Memory.{Mem, SameOutside}
use rpi_vk_driver.FreeList.{
  Chain, Separate, Inside, blocks, blocks-Separate, blocks-Inside, length-blocks,
}
use rpi_vk_driver.FreeList.Runs.{All-Perm, Separate-Perm, length-Perm}
use rpi_vk_driver.Pool
use rpi_vk_driver.Pool.Invariant.{IsBuffer, mul-le_self, create-Holds}
use rpi_vk_driver.Consecutive.{Consecutive, create, walk_fuel}

-- The blocks of the buffer
abbrev pub all_blocks : Consecutive → List ℕ
all_blocks pa = blocks pa.buf pa.block_size (pa.size / pa.block_size)

-- A call does not change the geometry of the pool.
abbrev pub SameBuffer : Consecutive → Consecutive → Type 0
SameBuffer pa pa' = (pa'.buf ≡ pa.buf) × (pa'.block_size ≡ pa.block_size) × (pa'.size ≡ pa.size)

-- The pool with the free list `unused` and the blocks `live` out with clients. The buffer ends below
-- the top of the address space.
pub record Keeps (m : Mem) (pa : Consecutive) (unused live : List ℕ) : Type 0 where
  pub buffer : IsBuffer pa.buf pa.block_size pa.size
  pub below_top : pa.buf + pa.size < 2 ^ 32
  pub chain : Chain m pa.next_free_block unused
  pub shared_out : Permᴰ (unused ++ live) (all_blocks pa)
  pub counted : pa.num_free_blocks ≡ length unused

module _ {m : Mem} {pa : Consecutive} {unused live : List ℕ} (h : Keeps m pa unused live) where
  pub Keeps-Inside : All (Inside pa.buf pa.size pa.block_size) (unused ++ live)
  Keeps-Inside =
      let e = h.buffer.exact in
      All-Perm (Inside pa.buf pa.size pa.block_size) (Permᴰ.symm h.shared_out) (
        blocks-Inside pa.buf pa.size pa.block_size pa.buf (pa.size / pa.block_size) (omega arith)
          (omega arith))

  pub Keeps-Separate : Separate pa.block_size (unused ++ live)
  Keeps-Separate =
      Separate-Perm pa.block_size (Permᴰ.symm h.shared_out)
        (blocks-Separate pa.block_size pa.buf (pa.size / pa.block_size))

  pub Keeps-count : length unused + length live ≡ pa.size / pa.block_size
  Keeps-count = omega (
    arith,
    length-append unused live,
    length-Perm h.shared_out,
    length-blocks pa.buf pa.block_size (pa.size / pa.block_size),
  )

  pub count_lt : length unused < 2 ^ 32
  count_lt =
      let quotient = mul-le_self (pa.size / pa.block_size) pa.block_size h.buffer.room_for_link in
      omega (arith, Keeps-count, quotient, h.below_top, h.buffer.exact)

  -- The fuel covers the free list and the null pointer at its end.
  pub fuel_enough : length unused < walk_fuel pa
  fuel_enough = omega (arith, Keeps-count)

-- `createConsecutivePoolAllocator` gives a pool whose free list is all the blocks of the buffer, in
-- order, and writes nothing outside the buffer.
pub create-Keeps :
    (m : Mem) (b bs s : ℕ)
    → IsBuffer b bs s
    → b + s < 2 ^ 32
    → let (m', pa) = create m b bs s in
      Keeps m' pa (blocks b bs (s / bs)) [] × SameOutside b (b + s) m m'
unfolding create Pool.create
create-Keeps m b bs s h top =
    let made = create-Holds m b bs s h in
    (
      record {
        buffer = h;
        below_top = top;
        chain = made.0.chain;
        shared_out = rw (append-nil (blocks b bs (s / bs))) (Permᴰ.refl (blocks b bs (s / bs)));
        counted = sym (length-blocks b bs (s / bs));
      },
      made.1,
    )
