-- ===== src/ControlList/Fit.antt =====
-- `clFit` of driver/common.c: a control list that is too short for the next command moves to a longer
-- run of blocks of its pool.
use rpi_vk_driver.Base.{
  ℕ, suc, ◌+◌, ◌-◌, ◌*◌, ◌/◌, ◌^◌, ◌≤◌, ◌<◌, ◌≡◌, refl, ◌⊎◌, inl, inr, List, ◌++◌, Option, some,
  true, false, Bool-cases, arith, ◌==◌, if◌then◌else◌, ◌>>=◌, add32, sub32, mul32, u32_max, leb,
}
use native.Mathlib.Nat.{mod-add-div, mod-lt, div-mul-le_self, le-div_iff_mul-le, mul-le-mul_left}
use rpi_vk_driver.Memory.{Mem}
use rpi_vk_driver.FreeList.{blocks}
use rpi_vk_driver.Consecutive.{Consecutive, reallocate}
use rpi_vk_driver.Consecutive.Keeps.{Keeps}
use rpi_vk_driver.Consecutive.Scan.{HasRun}
use rpi_vk_driver.Consecutive.Grow.{starts, ends}
use rpi_vk_driver.Consecutive.Contents.{Moves, reallocate_cases}
use rpi_vk_driver.ControlList.{ControlList, has_enough_space, get_cpa_ptr_from_offset}

-- `newNumBlocks`
unfoldable pub new_num_blocks : Consecutive → ControlList → ℕ → ℕ
new_num_blocks pa cl size =
    add32 (add32 (sub32 cl.next_free_byte_offset cl.offset) size / pa.block_size) 1

-- The list with its offsets moved to a new run
unfoldable pub rebase : ControlList → ℕ → ℕ → ControlList
rebase cl offset num_blocks = record cl {
  offset = offset;
  next_free_byte_offset = add32 offset (sub32 cl.next_free_byte_offset cl.offset);
  num_blocks = num_blocks;
  curr_marker_offset =
      if cl.curr_marker_offset == u32_max
      then u32_max
      else add32 offset (sub32 cl.curr_marker_offset cl.offset);
}

-- `clFit`
unfoldable pub fit : Mem → Consecutive → ControlList → ℕ → Option (Mem × Consecutive × ControlList)
fit m pa cl size =
    if has_enough_space cl size
    then some (m, pa, cl)
    else let n = new_num_blocks pa cl size in
      reallocate m pa (get_cpa_ptr_from_offset cl.cpa cl.offset) cl.num_blocks n
      >>= λ (offset, m', pa'). some (m', pa', rebase cl offset n)

-- The list lies in `c + 1` blocks of the pool, from the block at `p` on, and it is not over-full.
pub record Owns (pa : Consecutive) (cl : ControlList) (p c : ℕ) : Type 0 where
  pub same_pool : cl.cpa ≡ pa.buf
  pub same_block : cl.block_size ≡ pa.block_size
  pub at_offset : pa.buf + cl.offset ≡ p
  pub owned : cl.num_blocks ≡ suc c
  pub in_order : cl.offset ≤ cl.next_free_byte_offset
  pub not_full : cl.next_free_byte_offset ≤ cl.offset + suc c * pa.block_size

-- The list after the call: it has room for the command, at a place inside the buffer, and what was
-- written to it is there.
abbrev pub Fits : Mem → Consecutive → ControlList → ℕ → Type 0
Fits m pa cl size =
    (m' : Mem) × (pa' : Consecutive) × (cl' : ControlList) × (fit m pa cl size
      ≡ some (m', pa', cl'))
    × (has_enough_space cl' size ≡ true)
    × (cl'.next_free_byte_offset - cl'.offset ≡ cl.next_free_byte_offset - cl.offset)
    × (cl'.offset + cl'.num_blocks * pa.block_size ≤ pa.size)
    × ((i : ℕ)
        → i < cl.next_free_byte_offset - cl.offset
        → m' (pa.buf + cl'.offset + i) ≡ m (pa.buf + cl.offset + i))

module _ (m : Mem) (pa : Consecutive) (unused l : List ℕ) (cl : ControlList) (p c : ℕ) (r : List ℕ)
    (size : ℕ) (h : Keeps m pa unused (l ++ (blocks p pa.block_size (suc c) ++ r)))
    (o : Owns pa cl p c) (small : pa.size + size < 2 ^ 32) where
  abbrev used : ℕ
  used = cl.next_free_byte_offset - cl.offset

  run_fits : suc c * pa.block_size ≤ pa.size
  run_fits =
      let lo = starts m pa unused l p c r h in let hi = ends m pa unused l p c r h in omega arith

  used_is : sub32 cl.next_free_byte_offset cl.offset ≡ used
  used_is =
      let lo = starts m pa unused l p c r h in
      let hi = ends m pa unused l p c r h in
      omega (arith, o.in_order, o.not_full, o.at_offset, h.below_top)

  used_fits : used ≤ pa.size
  used_fits = omega (arith, o.not_full, run_fits)

  abbrev k : ℕ
  k = (used + size) / pa.block_size

  new_is : new_num_blocks pa cl size ≡ suc k
  unfolding new_num_blocks
  new_is =
      let quotient = div-mul-le_self (used + size) pa.block_size in
      let four = mul-le-mul_left k h.buffer.room_for_link in
      let sum : add32 used size ≡ used + size = omega (arith, used_fits) in
      rw (used_is, sum) (omega (arith, quotient, four, used_fits))

  new_lt : suc k < 2 ^ 32
  new_lt =
      let quotient = div-mul-le_self (used + size) pa.block_size in
      let four = mul-le-mul_left k h.buffer.room_for_link in
      omega (arith, quotient, four, used_fits)

  grows : has_enough_space cl size ≡ false → c < k
  unfolding has_enough_space
  grows full =
      let sum : add32 used size ≡ used + size = omega (arith, used_fits) in
      let bytes : mul32 cl.num_blocks cl.block_size ≡ suc c * pa.block_size =
        rw (o.owned, o.same_block) (omega (arith, run_fits)) in
      let over : leb (used + size) (suc c * pa.block_size) ≡ false =
        rw (used_is, sum, bytes) at full in
      (le-div_iff_mul-le (omega (arith, h.buffer.room_for_link))).1 (ground (arith, over))

  -- The new blocks hold what is written and the command.
  roomy : used + size < suc k * pa.block_size
  roomy =
      let whole = mod-add-div (used + size) pa.block_size in
      let part = mod-lt (used + size) {m = pa.block_size} (omega (arith, h.buffer.room_for_link)) in
      omega (arith, whole, part)

  at_run : get_cpa_ptr_from_offset cl.cpa cl.offset ≡ p
  at_run =
      let hi = ends m pa unused l p c r h in
      rw o.same_pool (omega (arith, o.at_offset, h.below_top))

  -- the list at `q`
  abbrev there : ℕ → ControlList
  there q = rebase cl (q - pa.buf) (suc k)

  fit_eq :
      (q : ℕ) (m' : Mem) (pa' : Consecutive)
      → has_enough_space cl size ≡ false
      → reallocate m pa p (suc c) (suc k) ≡ some (q - pa.buf, m', pa')
      → fit m pa cl size ≡ some (m', pa', there q)
  unfolding fit
  fit_eq q m' pa' full computed = rw (full, at_run, new_is, o.owned, computed) refl

  module _ (q : ℕ) (lo : pa.buf ≤ q) (hi : q + suc k * pa.block_size ≤ pa.buf + pa.size) where
    next_there : (there q).next_free_byte_offset ≡ q - pa.buf + used
    unfolding rebase
    next_there = rw used_is (omega (arith, roomy, h.below_top))

    room_there : has_enough_space (there q) size ≡ true
    unfolding has_enough_space
    room_there =
        let next = next_there in
        unfold rebase in
        rw (next, o.same_block)
          (let written : sub32 (q - pa.buf + used) (q - pa.buf) ≡ used =
              omega (arith, roomy, h.below_top) in
            let sum : add32 used size ≡ used + size = omega (arith, used_fits) in
            let bytes : mul32 (suc k) pa.block_size ≡ suc k * pa.block_size =
              omega (arith, h.below_top) in
            rw (written, sum, bytes) (ground (arith, roomy)))

  moved : has_enough_space cl size ≡ false → Moves m pa p c k → Fits m pa cl size
  moved full (q, m', pa', computed, lo, hi, same) =
      let next = next_there q lo hi in
      (
        m',
        pa',
        there q,
        fit_eq q m' pa' full computed,
        room_there q lo hi,
        unfold rebase in rw next (omega arith),
        unfold rebase in omega arith,
        unfold rebase in
            λ i lt.
              let here : pa.buf + (q - pa.buf) + i ≡ q + i = omega arith in
              let old : pa.buf + cl.offset + i ≡ p + i = omega (arith, o.at_offset) in
              rw (here, old) (same i (omega (arith, o.not_full))),
      )

  -- `clFit` on a list that owns its blocks in a well-formed pool returns. Either the list now has room
  -- for `size` more bytes at a place inside the buffer, and the bytes that were written to it are there,
  -- in the same order from its beginning; or the list had no room, the pool has no long enough run
  -- of blocks, and the list's offset is -1, which the code asserts away.
  pub fit_cases :
      Fits m pa cl size
      ⊎ ((fit m pa cl size ≡ some (m, pa, rebase cl u32_max (suc k)))
          × (HasRun pa.block_size (suc k) unused → ⊥))
  unfolding fit
  fit_cases = elim (Bool-cases (has_enough_space cl size)) [
    | inl room ↦ inl (
      m,
      pa,
      cl,
      rw room refl,
      room,
      refl,
      (let hi = ends m pa unused l p c r h in rw o.owned (omega (arith, o.at_offset))),
      λ i lt. refl,
    )
    | inr full ↦ elim (reallocate_cases m pa unused l p c r k h (grows full) new_lt) [
      | inl moves ↦ inl (moved full moves)
      | inr (computed, missing) ↦ inr (rw (full, at_run, new_is, o.owned, computed) refl, missing)
    ]
  ]
