-- ===== src/Consecutive/Returned.antt =====
-- What `consecutivePoolFree` of driver/ConsecutivePoolAllocator.c leaves behind, wherever the run goes
-- in the free list.
use rpi_vk_driver.Base.{
  ℕ, zero, suc, ◌+◌, ◌*◌, ◌/◌, ◌^◌, ◌≤◌, ◌<◌, ◌≡◌, refl, subst, ap, ◌≢◌, List, [], ◌++◌, some,
  arith, length, length-append, All, add32,
}
use mathlib.Core.List.{Permᴰ}
use mathlib.Core.List.Permᴰ
use rpi_vk_driver.Memory.{Mem, null}
use rpi_vk_driver.FreeList.{Chain, Chain-frame, Inside, Apart, Separate, blocks, length-blocks}
use rpi_vk_driver.FreeList.Runs.{
  All-left, All-right, Separate-Perm, Separate-left, Separate-Cross, Perm-return, run-le,
}
use rpi_vk_driver.Pool.Invariant.{mul-le_self}
use rpi_vk_driver.Consecutive.{Consecutive, free, thread_run}
use rpi_vk_driver.Consecutive.Keeps.{
  Keeps, SameBuffer, all_blocks, Keeps-Inside, Keeps-Separate, Keeps-count,
}
use rpi_vk_driver.Consecutive.Unlink.{Chain-lt, Spared, Spared-links}
use rpi_vk_driver.Consecutive.Allocate.{Keeps-Below}
use rpi_vk_driver.Consecutive.Thread.{thread_run-Threads, run-Spared}

module _ (m : Mem) (pa : Consecutive) (unused l : List ℕ) (p k : ℕ) (r : List ℕ) where
  abbrev run : List ℕ
  run = blocks p pa.block_size (suc k)

  -- The free list with the run somewhere in it, and nothing written in the blocks of other clients
  abbrev pub Returned : Type 0
  Returned =
      (a : List ℕ) × (b : List ℕ) × (m' : Mem) × (pa' : Consecutive) × (unused ≡ a ++ b)
      × (free m pa p (suc k) ≡ some (m', pa'))
      × Keeps m' pa' (a ++ (blocks p pa.block_size (suc k) ++ b)) (l ++ r)
      × Spared pa.block_size (l ++ r) m m'
      × SameBuffer pa pa'

  module _ (h : Keeps m pa unused (l ++ (run ++ r))) where
    -- Wherever the run goes in the free list, no two blocks overlap.
    pub parted :
        (a b : List ℕ) → unused ≡ a ++ b → Separate pa.block_size ((a ++ (run ++ b)) ++ (l ++ r))
    parted a b split =
        Separate-Perm pa.block_size (Perm-return a b l run r)
          (subst (λ u. Separate pa.block_size (u ++ (l ++ (run ++ r)))) split (Keeps-Separate h))

    pub run-Inside : All (Inside pa.buf pa.size pa.block_size) run
    run-Inside = All-left (Inside pa.buf pa.size pa.block_size) run r (
        All-right (Inside pa.buf pa.size pa.block_size) l (run ++ r) (
          All-right (Inside pa.buf pa.size pa.block_size) unused (l ++ (run ++ r))
            (Keeps-Inside h)))

    pub run_ends : p + suc k * pa.block_size ≤ pa.buf + pa.size
    run_ends = run-le pa.buf pa.size pa.block_size p k run-Inside

    pub starts_inside : pa.buf ≤ p
    unfolding blocks
    starts_inside = run-Inside.0.0

    pub few_blocks : length unused + suc k ≤ pa.size / pa.block_size
    few_blocks = omega (
      arith,
      Keeps-count h,
      length-append l (run ++ r),
      length-append run r,
      length-blocks p pa.block_size (suc k),
    )

    pub run_lt : suc k < 2 ^ 32
    run_lt =
        let quotient = mul-le_self (pa.size / pa.block_size) pa.block_size h.buffer.room_for_link in
        omega (arith, few_blocks, quotient, h.below_top, h.buffer.exact)

    pub run_not_null : p ≢ null
    run_not_null e = omega (arith, starts_inside, h.buffer.not_null)

    -- The state that `free` leaves, given its memory and its list
    pub returned :
        (a b : List ℕ) (m' : Mem) (head : ℕ)
        → unused ≡ a ++ b
        → free m pa p (suc k)
          ≡ some (
            m',
            record pa {
              next_free_block = head;
              num_free_blocks = add32 pa.num_free_blocks (suc k);
            },
          )
        → Chain m' head (a ++ (run ++ b))
        → Spared pa.block_size (l ++ r) m m'
        → Returned
    returned a b m' head split computed c spared =
        let quotient = mul-le_self (pa.size / pa.block_size) pa.block_size h.buffer.room_for_link in
        (
          a,
          b,
          m',
          _,
          split,
          computed,
          record {
            buffer = h.buffer;
            below_top = h.below_top;
            chain = c;
            shared_out =
                Permᴰ.trans (Permᴰ.symm (Perm-return a b l run r))
                  (subst (λ u. Permᴰ (u ++ (l ++ (run ++ r))) (all_blocks pa)) split h.shared_out);
            counted = omega (
              arith,
              h.counted,
              ap length split,
              few_blocks,
              quotient,
              h.below_top,
              h.buffer.exact,
              length-append a b,
              length-append a (run ++ b),
              length-append run b,
              length-blocks p pa.block_size (suc k),
            );
          },
          spared,
          (refl, refl, refl),
        )

    -- The run goes to the front of the list.
    pub at_front :
        free m pa p (suc k)
          ≡ some (
            thread_run m p pa.block_size (suc k) pa.next_free_block,
            record pa { next_free_block = p; num_free_blocks = add32 pa.num_free_blocks (suc k) },
          )
        → Returned
    at_front computed =
        let bs = pa.block_size in
        let m' : Mem = thread_run m p bs (suc k) pa.next_free_block in
        let apart = parted [] unused refl in
        let among =
          Separate-Cross bs run unused (Separate-left bs (run ++ unused) (l ++ r) apart) in
        let others =
          All-left (λ x. All (Apart bs x) (l ++ r)) run unused
            (Separate-Cross bs (run ++ unused) (l ++ r) apart) in
        let threads =
          thread_run-Threads m p bs k pa.next_free_block run_not_null h.buffer.room_for_link
            (omega (arith, run_ends, h.below_top)) run_lt
            (Chain-lt m bs pa.next_free_block unused h.chain (Keeps-Below h)) in
        let framed : Chain m' pa.next_free_block unused =
          Chain-frame m m' pa.next_free_block unused h.chain (
            Spared-links m m' bs unused h.buffer.room_for_link
              (run-Spared m m' bs p k unused h.buffer.room_for_link threads.1 among)) in
        returned [] unused m' p refl computed (threads.0 unused framed)
          (run-Spared m m' bs p k (l ++ r) h.buffer.room_for_link threads.1 others)

    pub run_differ : (q n : ℕ) → p ≤ q → All (λ y. y + pa.block_size ≢ p) (blocks q pa.block_size n)
    unfolding blocks
    run_differ q zero le = tt
    run_differ q (suc n) le = (
      (λ e. omega (arith, h.buffer.room_for_link)),
      run_differ (q + pa.block_size) n (omega arith),
    )
