-- ===== src/Consecutive/Safety.antt =====
-- What holds of a pool of driver/ConsecutivePoolAllocator.c after any sequence of calls.
use rpi_vk_driver.Base.{
  ℕ, suc, ◌+◌, ◌/◌, ◌^◌, ◌<◌, ◌≡◌, refl, ◌≢◌, List, ◌∷◌, ◌++◌, Option, some, inl, inr, arith,
  length, All, sym, subst, ap, ◌∙◌, u32_max, true, is_some, some_injective,
}
use rpi_vk_driver.Memory.{Mem}
use rpi_vk_driver.FreeList.{Separate, Inside, blocks}
use rpi_vk_driver.FreeList.Runs.{All-right, Separate-right}
use rpi_vk_driver.Pool.Invariant.{IsBuffer}
use rpi_vk_driver.Consecutive.{Consecutive, allocate, free}
use rpi_vk_driver.Consecutive.Keeps.{Keeps, SameBuffer, Keeps-Inside, Keeps-Separate, Keeps-count}
use rpi_vk_driver.Consecutive.Allocate.{allocate_cases}
use rpi_vk_driver.Consecutive.Free.{free_lem}
use rpi_vk_driver.Consecutive.Clients.{
  Run, run_blocks, run_blocks-append, Shared, Step, Reach, here, next, take_run, find_none,
  give_back, write_run, IsSound, started, started-IsSound, write-Keeps,
}

-- The well-formed pool that a call leaves, of the same geometry
abbrev After : Mem → Consecutive → Consecutive → List ℕ → Type 0
After m' pa pa' live = (rest : List ℕ) × Keeps m' pa' rest live × SameBuffer pa pa'

-- What a triple of a result is, from what the call computes
result :
    {o o' : ℕ} {m m' : Mem} {pa pa' : Consecutive}
    → ◌≡◌ {A = Option (ℕ × Mem × Consecutive)} (some (o, m, pa)) (some (o', m', pa'))
    → (o ≡ o') × (m ≡ m') × (pa ≡ pa')
result e =
    let t = some_injective e in
    (
      ap (λ (q : ℕ × Mem × Consecutive). q.0) t,
      ap (λ (q : ℕ × Mem × Consecutive). q.1) t,
      ap (λ (q : ℕ × Mem × Consecutive). q.2) t,
    )

module _ (m : Mem) (pa : Consecutive) (unused live : List ℕ) (k offset : ℕ) (m' : Mem)
    (pa' : Consecutive) (h : Keeps m pa unused live) (k_lt : suc k < 2 ^ 32) where
  take-Keeps :
      allocate m pa (suc k) ≡ some (offset, m', pa')
      → offset ≢ u32_max
      → After m' pa pa' (blocks (pa.buf + offset) pa.block_size (suc k) ++ live)
  unfolding blocks
  take-Keeps got some_offset = elim (allocate_cases m pa unused live k h k_lt) [
    | inl (l, p, r, m1, pa1, split, computed, keeps, spared, same) ↦
        let e = result (sym computed ∙ got) in
        let inside =
          All-right (Inside pa1.buf pa1.size pa1.block_size) (l ++ r) _ (Keeps-Inside keeps) in
        let at : p ≡ pa.buf + offset = omega (arith, inside.0, same.0, e.0) in
        subst (λ q. After m' pa pa' (blocks q pa.block_size (suc k) ++ live)) at
          (subst (λ q. After q pa pa' (blocks p pa.block_size (suc k) ++ live)) e.1
            (subst (λ q. After m1 pa q (blocks p pa.block_size (suc k) ++ live)) e.2
              (l ++ r, keeps, same)))
    | inr (computed, missing) ↦ absurd (some_offset (sym (result (sym computed ∙ got)).0))
  ]

  none-Keeps : allocate m pa (suc k) ≡ some (u32_max, m', pa') → After m' pa pa' live
  unfolding blocks
  none-Keeps got = elim (allocate_cases m pa unused live k h k_lt) [
    | inl (l, p, r, m1, pa1, split, computed, keeps, spared, same) ↦
        let e = result (sym computed ∙ got) in
        let inside =
          All-right (Inside pa1.buf pa1.size pa1.block_size) (l ++ r) _ (Keeps-Inside keeps) in
        absurd (omega (arith, inside.0, same.0, same.2, e.0, h.below_top, h.buffer.not_null))
    | inr (computed, missing) ↦
        let e = result (sym computed ∙ got) in
        subst (λ q. After q pa pa' live) e.1
          (subst (λ q. After m pa q live) e.2 (unused, h, (refl, refl, refl)))
  ]

give-Keeps :
    (m : Mem) (pa : Consecutive) (unused l : List ℕ) (p k : ℕ) (r : List ℕ) (m' : Mem)
    (pa' : Consecutive)
    → Keeps m pa unused (l ++ (blocks p pa.block_size (suc k) ++ r))
    → free m pa p (suc k) ≡ some (m', pa')
    → After m' pa pa' (l ++ r)
give-Keeps m pa unused l p k r m' pa' h got =
    let (a, b, m1, pa1, split, computed, keeps, spared, same) = free_lem m pa unused l p k r h in
    let e = some_injective (sym computed ∙ got) in
    subst (λ (q : Mem × Consecutive). After q.0 pa q.1 (l ++ r)) e (_, keeps, same)

module _ (b bs size : ℕ) where
  -- A call that leaves a well-formed pool keeps the state sound.
  After-IsSound :
      (s : Shared) (m' : Mem) (pa' : Consecutive) (live : List Run)
      → IsSound b bs size s
      → After m' s.pool pa' (run_blocks bs live)
      → IsSound b bs size (record { mem = m'; pool = pa'; live = live })
  After-IsSound s m' pa' live i a = record {
    same_buf = a.2.0 ∙ i.same_buf;
    same_block = a.2.1 ∙ i.same_block;
    same_size = a.2.2 ∙ i.same_size;
    unused = a.0;
    keeps = a.1;
  }

  -- The blocks that clients hold, around those of one run
  shape :
      (s : Shared) (l : List Run) (p k : ℕ) (r : List Run)
      → s.live ≡ l ++ ((p, k) ∷ r)
      → IsSound b bs size s
      → run_blocks bs s.live
        ≡ run_blocks bs l ++ (blocks p s.pool.block_size (suc k) ++ run_blocks bs r)
  shape s l p k r e i = rw i.same_block (ap (run_blocks bs) e ∙ run_blocks-append bs l ((p, k) ∷ r))

  held :
      (s : Shared) (l : List Run) (p k : ℕ) (r : List Run)
      → s.live ≡ l ++ ((p, k) ∷ r)
      → (i : IsSound b bs size s)
      → Keeps s.mem s.pool i.unused
          (run_blocks bs l ++ (blocks p s.pool.block_size (suc k) ++ run_blocks bs r))
  held s l p k r e i = subst (Keeps s.mem s.pool i.unused) (shape s l p k r e i) i.keeps

  Step-IsSound : {s t : Shared} → Step s t → IsSound b bs size s → IsSound b bs size t
  Step-IsSound (take_run s k offset m pa k_lt got some_offset) i = After-IsSound s m pa _ i (
      subst
        (λ q. After m s.pool pa (blocks (s.pool.buf + offset) q (suc k) ++ run_blocks bs s.live))
        i.same_block
        (take-Keeps s.mem s.pool i.unused (run_blocks bs s.live) k offset m pa i.keeps k_lt got
          some_offset))
  Step-IsSound (find_none s k m pa k_lt got) i =
      After-IsSound s m pa s.live i
        (none-Keeps s.mem s.pool i.unused (run_blocks bs s.live) k 0 m pa i.keeps k_lt got)
  Step-IsSound (give_back s l p k r m pa e got) i = After-IsSound s m pa (l ++ r) i (
      subst (After m s.pool pa) (sym (run_blocks-append bs l r)) (
        give-Keeps s.mem s.pool i.unused (run_blocks bs l) p k (run_blocks bs r) m pa
          (held s l p k r e i) got))
  Step-IsSound (write_run s l p k r m e same) i = record {
    same_buf = i.same_buf;
    same_block = i.same_block;
    same_size = i.same_size;
    unused = i.unused;
    keeps = subst (Keeps m s.pool i.unused) (sym (shape s l p k r e i)) (
        write-Keeps s.mem m s.pool i.unused (run_blocks bs l) p k (run_blocks bs r)
          (held s l p k r e i) same);
  }

  Reach-IsSound : {s t : Shared} → Reach s t → IsSound b bs size s → IsSound b bs size t
  Reach-IsSound here i = i
  Reach-IsSound (next r st) i = Step-IsSound st (Reach-IsSound r i)

-- Whatever sequence of allocations, frees and writes the clients make from a fresh pool whose buffer
-- ends below the top of the address space: the blocks of the runs that they hold lie inside the buffer
-- and do not overlap, `numFreeBlocks` is the number of the other blocks, and an allocation of any
-- number of blocks returns.
pub reach_safe :
    (m : Mem) (b bs s k : ℕ) (t : Shared)
    → IsBuffer b bs s
    → b + s < 2 ^ 32
    → suc k < 2 ^ 32
    → Reach (started m b bs s) t
    → All (Inside b s bs) (run_blocks bs t.live)
      × Separate bs (run_blocks bs t.live)
      × (t.pool.num_free_blocks + length (run_blocks bs t.live) ≡ s / bs)
      × (is_some (allocate t.mem t.pool (suc k)) ≡ true)
reach_safe m b bs s k t h top k_lt r =
    let i = Reach-IsSound b bs s r (started-IsSound m b bs s h top) in
    let live = run_blocks bs t.live in
    let quotient : t.pool.size / t.pool.block_size ≡ s / bs =
      ap (λ x. x / t.pool.block_size) i.same_size ∙ ap (λ x. s / x) i.same_block in
    (
      rw (i.same_buf, i.same_block, i.same_size) at
          (All-right (Inside t.pool.buf t.pool.size t.pool.block_size) i.unused live
            (Keeps-Inside i.keeps)),
      rw i.same_block at (Separate-right t.pool.block_size i.unused live (Keeps-Separate i.keeps)),
      omega (arith, i.keeps.counted, Keeps-count i.keeps, quotient),
      elim (allocate_cases t.mem t.pool i.unused live k i.keeps k_lt) [
        | inl (l, p, q, m1, pa1, split, computed, keeps, spared, same) ↦ rw computed refl
        | inr (computed, missing) ↦ rw computed refl
      ],
    )
