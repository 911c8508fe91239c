-- ===== src/Consecutive/InPlace.antt =====
-- The three outcomes of `consecutivePoolReAllocate` of driver/ConsecutivePoolAllocator.c for one more
-- block where the block behind the current memory is free: by its place in the free list.
use rpi_vk_driver.Base.{
  ℕ, zero, suc, ◌+◌, ◌-◌, ◌*◌, ◌^◌, ◌<◌, ◌≡◌, refl, ◌≢◌, List, [], ◌∷◌, ◌++◌, some, arith, length,
  length-append, All, sym, ap, ◌∙◌, append_assoc, false, ◌==◌,
}
use mathlib.Core.List.{Permᴰ}
use mathlib.Core.List.Permᴰ
use rpi_vk_driver.Memory.{Mem, null, load32, store32, load32-store32_self}
use rpi_vk_driver.FreeList.{Chain, Separate-middle, blocks, Chain-frame, Apart}
use rpi_vk_driver.FreeList.Runs.{All-left, All-right, Separate-left, Chain-suffix}
use rpi_vk_driver.Consecutive.{Consecutive, without_next, reallocate, walk_fuel}
use rpi_vk_driver.Consecutive.Keeps.{Keeps, Keeps-Separate, count_lt, fuel_enough}
use rpi_vk_driver.Consecutive.Scan.{Below}
use rpi_vk_driver.Consecutive.Unlink.{Chain-lt, Spared-links, store-Spared, Apart-differ}
use rpi_vk_driver.Consecutive.Allocate.{Keeps-Below}
use rpi_vk_driver.Consecutive.Grow.{take_first, take_later, in_place, grown}

-- A run, lengthened by the block behind it
blocks-snoc : (p bs n : ℕ) → blocks p bs (suc n) ≡ blocks p bs n ++ ((p + n * bs) ∷ [])
unfolding blocks
blocks-snoc p bs zero = let e : p + 0 * bs ≡ p = omega arith in rw e refl
blocks-snoc p bs (suc n) =
    let e : p + suc n * bs ≡ p + bs + n * bs = omega arith in
    rw e (ap (λ t. p ∷ t) (blocks-snoc (p + bs) bs n))

module _ (m : Mem) (pa : Consecutive) (l : List ℕ) (p k : ℕ) (r : List ℕ) where
  abbrev run : List ℕ
  run = blocks p pa.block_size (suc k)

  abbrev next_block : ℕ
  next_block = p + suc k * pa.block_size

  abbrev longer : List ℕ
  longer = blocks p pa.block_size (suc (suc k))

  -- The block behind the run moves from the free list to the run.
  joined :
      (xs : List ℕ) → Permᴰ ((next_block ∷ xs) ++ (l ++ (run ++ r))) (xs ++ (l ++ (longer ++ r)))
  joined xs =
      let e = blocks-snoc p pa.block_size (suc k) in
      let shape : (t : List ℕ) → (xs ++ (l ++ run)) ++ t ≡ xs ++ (l ++ (run ++ t)) =
        λ t. append_assoc xs (l ++ run) t ∙ ap (λ q. xs ++ q) (append_assoc l run t) in
      let inner : longer ++ r ≡ run ++ (next_block ∷ r) =
        ap (λ q. q ++ r) e ∙ append_assoc run (next_block ∷ []) r in
      rw (inner, sym (shape r), sym (shape (next_block ∷ r)))
        (Permᴰ.symm (Permᴰ.middle next_block (xs ++ (l ++ run)) r))

  -- The block behind the run comes first in the free list, and others follow: the memory stays where
  -- it is and is one block longer, the block leaves the free list, and the pool is well-formed.
  pub reallocate_first :
      (y : ℕ) (ys : List ℕ)
      → Keeps m pa (next_block ∷ y ∷ ys) (l ++ (run ++ r))
      → suc (suc k) < 2 ^ 32
      → (reallocate m pa p (suc k) (suc (suc k)) ≡ some (p - pa.buf, m, grown pa y))
        × Keeps m (grown pa y) (y ∷ ys) (l ++ (longer ++ r))
  unfolding without_next
  reallocate_first y ys h k_lt =
      let c = h.chain in
      let at : load32 m next_block ≡ y = c.2.0 in
      let e : (y == null) ≡ false = ground (arith, c.2.1) in
      let found =
        take_first m (walk_fuel pa) pa.next_free_block next_block null pa.next_free_block
          (omega arith) c.0 c.1 in
      (
        in_place m pa (next_block ∷ y ∷ ys) l p k r h m y (rw (at, e) at found) k_lt,
        record {
          buffer = h.buffer;
          below_top = h.below_top;
          chain = rw at at c.2;
          shared_out = Permᴰ.trans (Permᴰ.symm (joined (y ∷ ys))) h.shared_out;
          counted = omega (arith, h.counted, count_lt h);
        },
      )

  -- The block behind the run is the only free block: the call returns the longer run, the free list
  -- still has its last block, and `numFreeBlocks` is 0.
  pub reallocate_last :
      Keeps m pa (next_block ∷ []) (l ++ (run ++ r))
      → suc (suc k) < 2 ^ 32
      → let pa' = grown pa pa.next_free_block in
        (reallocate m pa p (suc k) (suc (suc k)) ≡ some (p - pa.buf, m, pa'))
        × Chain m pa'.next_free_block (next_block ∷ [])
        × (pa'.num_free_blocks ≡ 0)
  unfolding without_next
  reallocate_last h k_lt =
      let c = h.chain in
      let at : load32 m next_block ≡ null = c.2 in
      let found =
        take_first m (walk_fuel pa) pa.next_free_block next_block null pa.next_free_block
          (omega arith) c.0 c.1 in
      (
        in_place m pa (next_block ∷ []) l p k r h m pa.next_free_block (rw at at found) k_lt,
        c,
        omega (arith, h.counted),
      )

  -- The block behind the run comes in the free list behind `y`: the call returns the longer run, the
  -- free list begins at `y` and has lost the blocks `a` in front of it, and `numFreeBlocks` still
  -- counts them.
  pub reallocate_later :
      (a : List ℕ) (y : ℕ) (b : List ℕ)
      → Keeps m pa (a ++ (y ∷ next_block ∷ b)) (l ++ (run ++ r))
      → suc (suc k) < 2 ^ 32
      → let m' = store32 m y (load32 m next_block) in
        (reallocate m pa p (suc k) (suc (suc k)) ≡ some (p - pa.buf, m', grown pa y))
        × Chain m' (grown pa y).next_free_block (y ∷ b)
        × ((grown pa y).num_free_blocks ≡ length a + length (y ∷ b))
  unfolding without_next
  reallocate_later a y b h k_lt =
      let bs = pa.block_size in
      let m' : Mem = store32 m y (load32 m next_block) in
      let apart =
        Separate-left bs (a ++ (y ∷ next_block ∷ b)) (l ++ (run ++ r)) (Keeps-Separate h) in
      let away = Separate-middle bs a y (next_block ∷ b) apart in
      let from_next =
        Separate-middle bs (a ++ (y ∷ [])) next_block b
          (rw (append_assoc a (y ∷ []) (next_block ∷ b)) apart) in
      let differ : All (λ x. x ≢ next_block) (a ++ (y ∷ [])) =
        Apart-differ bs next_block (a ++ (y ∷ [])) h.buffer.room_for_link
          (All-left (Apart bs next_block) (a ++ (y ∷ [])) b from_next.0) in
      let found =
        take_later m (walk_fuel pa) pa.next_free_block next_block null pa.next_free_block a y b
          (omega (arith, fuel_enough h)) h.chain differ in
      let at_y = Chain-suffix m pa.next_free_block a y (next_block ∷ b) h.chain in
      let below_b = (All-right (Below bs) a (y ∷ next_block ∷ b) (Keeps-Below h)).1.1 in
      let e : (y == null) ≡ false = ground (arith, at_y.0) in
      let tail : Chain m' (load32 m' y) b =
        rw
          (load32-store32_self m y (load32 m next_block)
            (Chain-lt m bs (load32 m next_block) b at_y.1.2 below_b))
          (Chain-frame m m' (load32 m next_block) b at_y.1.2 (
            Spared-links m m' bs b h.buffer.room_for_link (
              store-Spared m bs y (load32 m next_block) b h.buffer.room_for_link
                (All-right (Apart bs y) a (next_block ∷ b) away.0).1))) in
      (
        in_place m pa (a ++ (y ∷ next_block ∷ b)) l p k r h m' y (rw e at found) k_lt,
        (refl, at_y.0, tail),
        omega (arith, h.counted, count_lt h, length-append a (y ∷ next_block ∷ b)),
      )
