-- ===== src/Consecutive/Free.antt =====
-- `consecutivePoolFree` of driver/ConsecutivePoolAllocator.c
use rpi_vk_driver.Base.{
  ℕ, suc, ◌+◌, ◌≡◌, refl, subst, ap, ◌≢◌, ◌∙◌, inl, inr, List, [], ◌∷◌, ◌++◌, true, false, arith,
  length, length-append, All, All-mono, All-append, ◌==◌, append_assoc, add32,
}
use mathlib.Core.List.{Permᴰ}
use mathlib.Core.List.Permᴰ
use rpi_vk_driver.Memory.{Mem, null, load32, store32, load32_same, load32-store32_self}
use rpi_vk_driver.FreeList.{
  Chain, Chain-frame, Inside, Apart, Separate, Apart-sym, Cross, blocks, length-blocks,
}
use rpi_vk_driver.FreeList.Runs.{
  All-left, All-right, Chain-start, Chain-prefix, Chain-suffix, Cross-left, Cross-right, Perm-move,
  Separate-Perm, Separate-left, Separate-Cross,
}
use rpi_vk_driver.Consecutive.{Consecutive, free, insert_after, thread_run, walk_fuel}
use rpi_vk_driver.Consecutive.Keeps.{Keeps, fuel_enough}
use rpi_vk_driver.Consecutive.Scan.{Below}
use rpi_vk_driver.Consecutive.Unlink.{Chain-lt, Spared, Spared-links, Spared-trans, store-Spared}
use rpi_vk_driver.Consecutive.Allocate.{Keeps-Below}
use rpi_vk_driver.Consecutive.Returned.{
  Returned, parted, run-Inside, run_ends, run_lt, run_not_null, few_blocks, returned, at_front,
  run_differ,
}
use rpi_vk_driver.Consecutive.Thread.{
  Threads, thread_run-Threads, run-Spared, follows_cases, free_walk_past, free_walk_at,
}

module _ (m : Mem) (pa : Consecutive) (unused l : List ℕ) (p k : ℕ) (r : List ℕ)
    (h : Keeps m pa unused (l ++ (blocks p pa.block_size (suc k) ++ r))) where
  abbrev run : List ℕ
  run = blocks p pa.block_size (suc k)

  module _ (a : List ℕ) (x : ℕ) (b : List ℕ) (split : unused ≡ a ++ (x ∷ b))
      (before : x + pa.block_size ≡ p) where
    abbrev stored : Mem
    stored = store32 m x p

    abbrev inserted : Mem
    inserted = thread_run stored p pa.block_size (suc k) (load32 m x)

    -- `x` at the front of all blocks, and the run at the front of the others
    x_first : Separate pa.block_size (x ∷ ((a ++ b) ++ (run ++ (l ++ r))))
    x_first =
        Separate-Perm pa.block_size
          (Permᴰ.trans (Perm-move a run (x ∷ b) (l ++ r))
            (Permᴰ.append_right (run ++ (l ++ r)) (Permᴰ.middle x a b)))
          (parted m pa unused l p k r h a (x ∷ b) split)

    run_first : Separate pa.block_size ((run ++ (l ++ r)) ++ (a ++ b))
    run_first = Separate-Perm pa.block_size (Permᴰ.append_comm (a ++ b) (run ++ (l ++ r))) x_first.1

    x_free : All (Apart pa.block_size x) (a ++ b)
    x_free = All-left (Apart pa.block_size x) (a ++ b) (run ++ (l ++ r)) x_first.0

    x_others : All (Apart pa.block_size x) (run ++ (l ++ r))
    x_others = All-right (Apart pa.block_size x) (a ++ b) (run ++ (l ++ r)) x_first.0

    run_free : Cross pa.block_size run (a ++ b)
    run_free =
        All-left (λ y. All (Apart pa.block_size y) (a ++ b)) run (l ++ r)
          (Separate-Cross pa.block_size (run ++ (l ++ r)) (a ++ b) run_first)

    run_live : Cross pa.block_size run (l ++ r)
    run_live =
        Separate-Cross pa.block_size run (l ++ r)
          (Separate-left pa.block_size (run ++ (l ++ r)) (a ++ b) run_first)

    old-Chain : Chain m pa.next_free_block (a ++ (x ∷ b))
    old-Chain = subst (Chain m pa.next_free_block) split h.chain

    old-Below : All (Below pa.block_size) (a ++ (x ∷ b))
    old-Below = subst (All (Below pa.block_size)) split (Keeps-Below h)

    threads : Threads stored inserted p pa.block_size (suc k) (load32 m x)
    threads =
        thread_run-Threads stored p pa.block_size k (load32 m x)
          (run_not_null m pa unused l p k r h) h.buffer.room_for_link
          (omega (arith, (run_ends m pa unused l p k r h), h.below_top))
          (run_lt m pa unused l p k r h)
          (Chain-lt m pa.block_size (load32 m x) b
            (Chain-suffix m pa.next_free_block a x b old-Chain).1
            (All-right (Below pa.block_size) a (x ∷ b) old-Below).1)

    -- What is apart from the run and from `x` keeps its bytes.
    insert-Spared :
        (ys : List ℕ)
        → All (Apart pa.block_size x) ys
        → Cross pa.block_size run ys
        → Spared pa.block_size ys m inserted
    insert-Spared ys from_x from_run =
        Spared-trans m stored inserted pa.block_size ys
          (store-Spared m pa.block_size x p ys h.buffer.room_for_link from_x)
          (run-Spared stored inserted pa.block_size p k ys h.buffer.room_for_link threads.1
            from_run)

    inserts : insert_after m pa.block_size p (suc k) x false ≡ (inserted, true)
    unfolding insert_after
    inserts =
        let next : add32 x pa.block_size ≡ p =
          omega (arith, before, run_ends m pa unused l p k r h, h.below_top) in
        let e : (add32 x pa.block_size == p) ≡ true = ground (arith, next) in
        let at : load32 stored x ≡ p =
          load32-store32_self m x p (omega (arith, run_ends m pa unused l p k r h, h.below_top)) in
        rw (e, at) refl

    -- `x` is linked to the run.
    link : load32 inserted x ≡ p
    link =
        let from_run : Cross pa.block_size run (x ∷ []) =
          All-mono (Apart pa.block_size x) (λ y. All (Apart pa.block_size y) (x ∷ []))
            (λ y away. (Apart-sym pa.block_size x y away, tt)) run
            (All-left (Apart pa.block_size x) run (l ++ r) x_others) in
        let kept =
          run-Spared stored inserted pa.block_size p k (x ∷ []) h.buffer.room_for_link threads.1
            from_run in
        load32_same stored inserted x
          (Spared-links stored inserted pa.block_size (x ∷ []) h.buffer.room_for_link kept).0
        ∙ load32-store32_self m x p (omega (arith, run_ends m pa unused l p k r h, h.below_top))

    run-Chain : Chain inserted (load32 inserted x) (run ++ b)
    run-Chain =
        let tail =
          Chain-frame m inserted (load32 m x) b
            (Chain-suffix m pa.next_free_block a x b old-Chain).1
            (Spared-links m inserted pa.block_size b h.buffer.room_for_link (
              insert-Spared b (All-right (Apart pa.block_size x) a b x_free)
                (Cross-right pa.block_size run a b run_free))) in
        rw link (threads.0 b tail)

    whole-Chain : Chain inserted pa.next_free_block (a ++ (x ∷ (run ++ b)))
    whole-Chain =
        Chain-prefix m inserted pa.next_free_block a x b (run ++ b) old-Chain
          (Spared-links m inserted pa.block_size a h.buffer.room_for_link (
            insert-Spared a (All-left (Apart pa.block_size x) a b x_free)
              (Cross-left pa.block_size run a b run_free)))
          run-Chain

    new-Below : All (Below pa.block_size) (run ++ b)
    new-Below =
        All-append (Below pa.block_size) run b
          (All-mono (Inside pa.buf pa.size pa.block_size) (Below pa.block_size)
            (λ y inside. omega (arith, h.below_top)) run (run-Inside m pa unused l p k r h))
          (All-right (Below pa.block_size) a (x ∷ b) old-Below).1

    new_differ : All (λ y. y + pa.block_size ≢ p) (run ++ b)
    new_differ =
        All-append (λ y. y + pa.block_size ≢ p) run b
          (run_differ m pa unused l p k r h p (suc k) (omega arith))
          (All-mono (Apart pa.block_size x) (λ y. y + pa.block_size ≢ p)
            (λ y away e. omega (arith, before, h.buffer.room_for_link)) b
            (All-right (Apart pa.block_size x) a b x_free))

    behind : All (λ y. y + pa.block_size ≢ p) a → Returned m pa unused l p k r
    unfolding free
    behind differ =
        let found =
          free_walk_at pa.block_size p (suc k) (walk_fuel pa) m inserted pa.next_free_block a x b
            (run ++ b)
            (omega (
              arith,
              few_blocks m pa unused l p k r h,
              ap length split,
              length-append a (x ∷ b),
              length-append a (x ∷ (run ++ b)),
              length-append run b,
              length-blocks p pa.block_size (suc k),
            ))
            old-Chain (All-left (Below pa.block_size) a (x ∷ b) old-Below) differ inserts run-Chain
            new-Below new_differ in
        let some_free : (pa.next_free_block == null) ≡ false =
          ground (arith, Chain-start m pa.next_free_block a x b old-Chain) in
        returned m pa unused l p k r h (a ++ (x ∷ [])) b inserted pa.next_free_block
          (rw (append_assoc a (x ∷ []) b) split) (rw (some_free, found) refl)
          (rw (append_assoc a (x ∷ []) (run ++ b)) whole-Chain)
          (insert-Spared (l ++ r) (All-right (Apart pa.block_size x) run (l ++ r) x_others)
            run_live)

-- `consecutivePoolFree` of a run that a client holds, on a well-formed pool, returns. The run's blocks
-- go side by side into the free list at some place, the blocks that clients still hold keep their
-- bytes, and the pool is well-formed.
pub free_lem :
    (m : Mem) (pa : Consecutive) (unused l : List ℕ) (p k : ℕ) (r : List ℕ)
    → Keeps m pa unused (l ++ (blocks p pa.block_size (suc k) ++ r))
    → Returned m pa unused l p k r
unfolding free
free_lem m pa [] l p k r h =
    let e : (pa.next_free_block == null) ≡ true = ground (arith, h.chain) in
    let z : pa.next_free_block ≡ null = h.chain in at_front m pa [] l p k r h (rw (e, z) refl)
free_lem m pa (y ∷ ys) l p k r h =
    let e : (pa.next_free_block == null) ≡ false = ground (arith, h.chain.0, h.chain.1) in
    elim (follows_cases pa.block_size p (y ∷ ys)) [
      | inl none_before ↦
          let past =
            free_walk_past pa.block_size p (suc k) (walk_fuel pa) m pa.next_free_block (y ∷ ys)
              false (fuel_enough h) h.chain (Keeps-Below h) none_before in
          at_front m pa (y ∷ ys) l p k r h (rw (e, past) refl)
      | inr (a, x, b, split, before, differ) ↦
          behind m pa (y ∷ ys) l p k r h a x b split before differ
    ]
