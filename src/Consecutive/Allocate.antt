-- ===== src/Consecutive/Allocate.antt =====
-- `consecutivePoolAllocate` of driver/ConsecutivePoolAllocator.c
use rpi_vk_driver.Base.{
  ℕ, suc, ◌+◌, ◌-◌, ◌*◌, ◌^◌, ◌≤◌, ◌<◌, ◌≡◌, refl, subst, ◌⊎◌, inl, inr, List, [], ◌∷◌, ◌++◌, true,
  false, some, arith, length, length-append, All, All-mono, ◌==◌, add32, sub32, mul32, u32_max,
}
use mathlib.Core.List.{Permᴰ}
use mathlib.Core.List.Permᴰ
use rpi_vk_driver.Memory.{Mem, null, load32}
use rpi_vk_driver.FreeList.{Chain, Inside, blocks, length-blocks}
use rpi_vk_driver.FreeList.Runs.{
  All-left, All-right, Chain-suffix, Chain-start, Chain-run, run-le, Separate-left, Separate-Cross,
  Perm-move,
}
use rpi_vk_driver.Consecutive.{Consecutive, allocate, scan, walk_fuel}
use rpi_vk_driver.Consecutive.Keeps.{
  Keeps, SameBuffer, Keeps-Inside, Keeps-Separate, fuel_enough, count_lt,
}
use rpi_vk_driver.Consecutive.Scan.{Below, HasRun, scan_cases, no_run}
use rpi_vk_driver.Consecutive.Unlink.{Chain-lt, Spared, unlink_lem}

module _ (m : Mem) (pa : Consecutive) (unused live : List ℕ) (k : ℕ) where
  -- A run of `k + 1` blocks that were free, as an offset into the buffer
  abbrev pub Granted : Type 0
  Granted =
      (l : List ℕ) × (p : ℕ) × (r : List ℕ) × (m' : Mem) × (pa' : Consecutive) × (unused
        ≡ l ++ (blocks p pa.block_size (suc k) ++ r))
      × (allocate m pa (suc k) ≡ some (p - pa.buf, m', pa'))
      × Keeps m' pa' (l ++ r) (blocks p pa.block_size (suc k) ++ live)
      × Spared pa.block_size live m m'
      × SameBuffer pa pa'

  -- -1, nothing changed, and there is no such run
  abbrev pub Refused : Type 0
  Refused =
      (allocate m pa (suc k) ≡ some (u32_max, m, pa)) × (HasRun pa.block_size (suc k) unused → ⊥)

pub Keeps-Below :
    {m : Mem} {pa : Consecutive} {unused live : List ℕ}
    → Keeps m pa unused live
    → All (Below pa.block_size) unused
Keeps-Below {pa = pa} {unused = unused} {live = live} h =
    All-mono (Inside pa.buf pa.size pa.block_size) (Below pa.block_size)
      (λ x inside. omega (arith, h.below_top)) unused
      (All-left (Inside pa.buf pa.size pa.block_size) unused live (Keeps-Inside h))

last_block :
    (p k bs : ℕ)
    → suc k < 2 ^ 32
    → p + suc k * bs < 2 ^ 32
    → add32 p (mul32 (sub32 (suc k) 1) bs) ≡ p + k * bs
last_block p k bs k_lt room =
    let left : sub32 (suc k) 1 ≡ k = omega arith in
    let product : k * bs ≤ suc k * bs = omega arith in rw left (omega arith)

-- The run that the search finds is taken.
granted :
    (m : Mem) (pa : Consecutive) (unused live : List ℕ) (k : ℕ) (l : List ℕ) (p : ℕ) (r : List ℕ)
    → Keeps m pa unused live
    → suc k < 2 ^ 32
    → unused ≡ l ++ (blocks p pa.block_size (suc k) ++ r)
    → scan (walk_fuel pa) m pa.block_size (suc k) pa.next_free_block ≡ some p
    → Granted m pa unused live k
unfolding allocate blocks
granted m pa unused live k l p r h k_lt split found =
    let bs = pa.block_size in
    let s = blocks (p + bs) bs k in
    let h' : Keeps m pa (l ++ (p ∷ (s ++ r))) live = subst (λ u. Keeps m pa u live) split h in
    let inside : All (Inside pa.buf pa.size bs) (p ∷ (s ++ r)) =
      All-right (Inside pa.buf pa.size bs) l (p ∷ (s ++ r))
        (All-left (Inside pa.buf pa.size bs) (l ++ (p ∷ (s ++ r))) live (Keeps-Inside h')) in
    let ends : p + suc k * bs ≤ pa.buf + pa.size =
      run-le pa.buf pa.size bs p k (All-left (Inside pa.buf pa.size bs) (p ∷ s) r inside) in
    let last : add32 p (mul32 (sub32 (suc k) 1) bs) ≡ p + k * bs =
      last_block p k bs k_lt (omega (arith, h.below_top)) in
    let c = Chain-suffix m pa.next_free_block l p (s ++ r) h'.chain in
    let behind : Chain m (load32 m (p + k * bs)) r = Chain-run m bs p k r (refl, c.0, c.1) in
    let below : All (Below bs) r =
      All-right (Below bs) (p ∷ s) r (All-right (Below bs) l (p ∷ (s ++ r)) (Keeps-Below h')) in
    let some_free : (pa.next_free_block == null) ≡ false =
      ground (arith, Chain-start m pa.next_free_block l p (s ++ r) h'.chain) in
    let not_null : (p == null) ≡ false = ground (arith, c.0) in
    let taken =
      unlink_lem m pa p (load32 m (p + k * bs)) live l s r h.buffer.room_for_link h'.chain
        (Separate-left bs (l ++ (p ∷ (s ++ r))) live (Keeps-Separate h'))
        (Separate-Cross bs (l ++ (p ∷ (s ++ r))) live (Keeps-Separate h'))
        (Chain-lt m bs (load32 m (p + k * bs)) r behind below) (omega (arith, fuel_enough h'))
        behind in
    let offset : sub32 p pa.buf ≡ p - pa.buf = omega (arith, inside.0, h.below_top) in
    let fewer : sub32 pa.num_free_blocks (suc k) ≡ length (l ++ r) = omega (
      arith,
      h'.counted,
      count_lt h',
      length-append l (p ∷ (s ++ r)),
      length-append s r,
      length-append l r,
      length-blocks (p + bs) bs k,
    ) in
    (
      l,
      p,
      r,
      taken.0,
      _,
      split,
      rw (some_free, found, not_null, last, taken.2, offset) refl,
      record {
        buffer = h.buffer;
        below_top = h.below_top;
        chain = taken.3;
        shared_out = Permᴰ.trans (Permᴰ.symm (Perm-move l (p ∷ s) r live)) h'.shared_out;
        counted = fewer;
      },
      taken.4,
      (refl, refl, refl),
    )

-- `consecutivePoolAllocate` of `k + 1` blocks on a well-formed pool returns. Either it takes out of the
-- free list exactly `k + 1` blocks that lie side by side, returns the offset of the first, writes in no
-- client's block and leaves a well-formed pool; or it returns -1, nothing has changed, and no
-- `k + 1` consecutive entries of the free list lie side by side.
pub allocate_cases :
    (m : Mem) (pa : Consecutive) (unused live : List ℕ) (k : ℕ)
    → Keeps m pa unused live
    → suc k < 2 ^ 32
    → Granted m pa unused live k ⊎ Refused m pa unused live k
unfolding allocate
allocate_cases m pa [] live k h k_lt =
    let none_free : (pa.next_free_block == null) ≡ true = ground (arith, h.chain) in
    inr (rw none_free refl, no_run pa.block_size k)
allocate_cases m pa (x ∷ xs) live k h k_lt =
    let at : pa.next_free_block ≡ x = h.chain.0 in
    let some_free : (pa.next_free_block == null) ≡ false = ground (arith, h.chain.0, h.chain.1) in
    elim (scan_cases m pa.block_size k k_lt (walk_fuel pa) x xs (omega (arith, fuel_enough h))
      (refl, h.chain.1, h.chain.2) (Keeps-Below h)) [
        | inl (l, p, r, split, found) ↦
            inl (granted m pa (x ∷ xs) live k l p r h k_lt split (rw at found))
        | inr (none_found, missing) ↦ inr (rw (some_free, at, none_found) refl, missing)
      ]
