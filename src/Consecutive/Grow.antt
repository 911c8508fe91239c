-- ===== src/Consecutive/Grow.antt =====
-- `consecutivePoolReAllocate` of driver/ConsecutivePoolAllocator.c where the block behind the current
-- memory is free.
use rpi_vk_driver.Base.{
  ℕ, zero, suc, ◌+◌, ◌-◌, ◌*◌, ◌^◌, ◌≤◌, ◌<◌, ◌≡◌, refl, ◌≢◌, List, [], ◌∷◌, ◌++◌, some, arith,
  length, All, true, false, ◌==◌, ltb, add32, sub32, mul32,
}
use rpi_vk_driver.Memory.{Mem, null, load32}
use rpi_vk_driver.FreeList.{Chain, Inside, blocks}
use rpi_vk_driver.FreeList.Runs.{All-left, All-right, run-le}
use rpi_vk_driver.Consecutive.{
  Consecutive, take_next, without_next, grow_in_place, reallocate, walk_fuel,
}
use rpi_vk_driver.Consecutive.Keeps.{Keeps, Keeps-Inside}

-- The search finds a block that is first in the list.
pub take_first :
    (m : Mem) (fuel head z prev q : ℕ)
    → 1 ≤ fuel
    → q ≡ z
    → z ≢ null
    → take_next fuel m z head prev q ≡ some (some (without_next m head prev (load32 m z)))
unfolding take_next
take_first m zero head z prev q some_fuel at ne = absurd (omega arith)
take_first m (suc fuel) head z prev q some_fuel at ne =
    let e : (q == null) ≡ false = ground arith in
    let f : (q == z) ≡ true = ground arith in rw (e, f, at) refl

-- The search finds a block behind `y`.
pub take_later :
    (m : Mem) (fuel head z prev q : ℕ) (l : List ℕ) (y : ℕ) (r : List ℕ)
    → length (l ++ (y ∷ z ∷ r)) ≤ fuel
    → Chain m q (l ++ (y ∷ z ∷ r))
    → All (λ x. x ≢ z) (l ++ (y ∷ []))
    → take_next fuel m z head prev q ≡ some (some (without_next m head y (load32 m z)))
unfolding take_next
take_later m zero head z prev q [] y r fuel_le c differ = absurd (omega arith)
take_later m zero head z prev q (x ∷ l) y r fuel_le c differ = absurd (omega arith)
take_later m (suc fuel) head z prev q [] y r fuel_le c differ =
    let e : (q == null) ≡ false = ground (arith, c.0, c.1) in
    let f : (q == z) ≡ false = ground (arith, c.0, differ.0) in
    let at : q ≡ y = c.0 in
    rw (e, f, at) (take_first m fuel head z y (load32 m y) (omega arith) c.2.0 c.2.1)
take_later m (suc fuel) head z prev q (x ∷ l) y r fuel_le c differ =
    let e : (q == null) ≡ false = ground (arith, c.0, c.1) in
    let f : (q == z) ≡ false = ground (arith, c.0, differ.0) in
    let at : q ≡ x = c.0 in
    rw (e, f, at) (take_later m fuel head z x (load32 m x) l y r (omega arith) c.2 differ.1)

-- The state after the call in place
abbrev pub grown : Consecutive → ℕ → Consecutive
grown pa head = record pa { next_free_block = head; num_free_blocks = sub32 pa.num_free_blocks 1 }

module _ (m : Mem) (pa : Consecutive) (unused l : List ℕ) (p k : ℕ) (r : List ℕ)
    (h : Keeps m pa unused (l ++ (blocks p pa.block_size (suc k) ++ r))) where
  -- the block right behind the run
  abbrev pub behind_run : ℕ
  behind_run = p + suc k * pa.block_size

  run_in : All (Inside pa.buf pa.size pa.block_size) (blocks p pa.block_size (suc k))
  run_in = All-left (Inside pa.buf pa.size pa.block_size) (blocks p pa.block_size (suc k)) r (
      All-right (Inside pa.buf pa.size pa.block_size) l _
        (All-right (Inside pa.buf pa.size pa.block_size) unused _ (Keeps-Inside h)))

  pub starts : pa.buf ≤ p
  unfolding blocks
  starts = run_in.0.0

  pub ends : behind_run ≤ pa.buf + pa.size
  ends = run-le pa.buf pa.size pa.block_size p k run_in

  pub candidate : add32 p (mul32 pa.block_size (suc k)) ≡ behind_run
  candidate =
      let e : pa.block_size * suc k ≡ suc k * pa.block_size = omega arith in
      rw e (omega (arith, ends, h.below_top))

  pub in_place :
      (m' : Mem) (head : ℕ)
      → take_next (walk_fuel pa) m behind_run pa.next_free_block null pa.next_free_block
        ≡ some (some (m', head))
      → suc (suc k) < 2 ^ 32
      → reallocate m pa p (suc k) (suc (suc k)) ≡ some (p - pa.buf, m', grown pa head)
  unfolding reallocate grow_in_place
  in_place m' head found k_lt =
      let one : ltb (sub32 (suc (suc k)) (suc k)) 2 ≡ true = ground arith in
      let offset : sub32 p pa.buf ≡ p - pa.buf = omega (arith, starts, ends, h.below_top) in
      rw (one, candidate, found, offset) refl
