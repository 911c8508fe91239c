-- ===== src/Command/Return.antt =====
-- `vkFreeCommandBuffers` of driver/command.c: command buffers and the blocks of their lists go back to
-- the pool.
use rpi_vk_driver.Base.{
  ℕ, suc, ◌+◌, ◌≡◌, ◌≢◌, refl, sym, ap, ◌∙◌, subst, false, List, [], ◌∷◌, ◌++◌, ◌==◌, arith, All,
  some, length, length-append, append_assoc,
}
use rpi_vk_driver.Memory.{Mem, null}
use rpi_vk_driver.FreeList.{Inside, blocks, length-blocks}
use rpi_vk_driver.FreeList.Runs.{All-left, All-right, run-le}
use rpi_vk_driver.Pool.{Pool}
use rpi_vk_driver.Pool
use rpi_vk_driver.Pool.Invariant.{free-Holds}
use rpi_vk_driver.Consecutive.{Consecutive}
use rpi_vk_driver.Consecutive.Keeps.{Keeps, SameBuffer, Keeps-Inside}
use rpi_vk_driver.Consecutive.Free.{free_lem}
use rpi_vk_driver.ControlList.{ControlList, get_cpa_ptr_from_offset}
use rpi_vk_driver.Command.Pools.{CommandPool, of_lists, free_lists, free_one, free_command_buffers}
use rpi_vk_driver.Command.Fresh.{Ready}

-- the blocks of a list of control lists of the pool
abbrev pub owned : ℕ → ℕ → List ControlList → List ℕ
owned buf bs [] = []
owned buf bs (cl ∷ cls) = blocks (buf + cl.offset) bs cl.num_blocks ++ owned buf bs cls

abbrev pub HasBlocks : ControlList → Type 0
HasBlocks cl = (k : ℕ) × (cl.num_blocks ≡ suc k)

abbrev Freed : List ControlList → Mem → Consecutive → List ℕ → List ℕ → Type 0
Freed cls m pa unused live =
    (m' : Mem) × (pa' : Consecutive) × (rest : List ℕ) × (free_lists cls m pa ≡ some (m', pa'))
    × Keeps m' pa' rest live
    × (length rest ≡ length unused + length (owned pa.buf pa.block_size cls))
    × SameBuffer pa pa'

free_lists_lem :
    (cls : List ControlList) (m : Mem) (pa : Consecutive) (unused l r : List ℕ)
    → All HasBlocks cls
    → Keeps m pa unused (l ++ (owned pa.buf pa.block_size cls ++ r))
    → Freed cls m pa unused (l ++ r)
unfolding free_lists
free_lists_lem [] m pa unused l r some_blocks h =
    (m, pa, unused, refl, h, omega arith, (refl, refl, refl))
free_lists_lem (cl ∷ cls) m pa unused l r ((k, e), more) h =
    let bs = pa.block_size in
    let p = pa.buf + cl.offset in
    let others = owned pa.buf bs cls in
    let shape : (blocks p bs cl.num_blocks ++ others) ++ r ≡ blocks p bs (suc k) ++ (others ++ r) =
      rw e (append_assoc (blocks p bs (suc k)) others r) in
    let h' : Keeps m pa unused (l ++ (blocks p bs (suc k) ++ (others ++ r))) =
      subst (λ t. Keeps m pa unused (l ++ t)) shape h in
    let inside : All (Inside pa.buf pa.size bs) (blocks p bs (suc k)) =
      All-left (Inside pa.buf pa.size bs) (blocks p bs (suc k)) (others ++ r) (
        All-right (Inside pa.buf pa.size bs) l _
          (All-right (Inside pa.buf pa.size bs) unused _ (Keeps-Inside h'))) in
    let ends = run-le pa.buf pa.size bs p k inside in
    let at : get_cpa_ptr_from_offset pa.buf cl.offset ≡ p = omega (arith, ends, h.below_top) in
    let (a, b, m1, pa1, split, computed, keeps, spared, same) =
      free_lem m pa unused l p k (others ++ r) h' in
    let keeps1 : Keeps m1 pa1 (a ++ (blocks p bs (suc k) ++ b))
        (l ++ (owned pa1.buf pa1.block_size cls ++ r)) =
      subst
        (λ (q : ℕ × ℕ).
          Keeps m1 pa1 (a ++ (blocks p bs (suc k) ++ b)) (l ++ (owned q.0 q.1 cls ++ r)))
        (sym (pair same.0 same.1)) keeps in
    let alike : length (owned pa1.buf pa1.block_size cls) ≡ length others =
      ap (λ (q : ℕ × ℕ). length (owned q.0 q.1 cls)) (pair same.0 same.1) in
    let whole : length (owned pa.buf bs (cl ∷ cls)) ≡ length (blocks p bs (suc k) ++ others) =
      ap (λ n. length (blocks p bs n ++ others)) e in
    let (m2, pa2, rest, computed2, keeps2, count2, same2) =
      free_lists_lem cls m1 pa1 (a ++ (blocks p bs (suc k) ++ b)) l r more keeps1 in
    (
      m2,
      pa2,
      rest,
      rw (at, e, computed) computed2,
      keeps2,
      omega (
        arith,
        ap length split,
        count2,
        alike,
        whole,
        length-append a b,
        length-append a (blocks p bs (suc k) ++ b),
        length-append (blocks p bs (suc k)) b,
        length-append (blocks p bs (suc k)) others,
        length-blocks p bs (suc k),
      ),
      (same2.0 ∙ same.0, same2.1 ∙ same.1, same2.2 ∙ same.2),
    )
  where
    pair : {a b c d : ℕ} → a ≡ b → c ≡ d → ◌≡◌ {A = ℕ × ℕ} (a, c) (b, d)
    pair e f = cc

-- One command buffer that is held, and its blocks, go back.
pub free_one_held :
    (cp : CommandPool) (free_buffers before : List ℕ) (p : ℕ) (behind free_blocks l r : List ℕ)
    → Ready cp free_buffers
        (before ++ (p ∷ behind))
        free_blocks
        (l ++ (owned cp.cpa.buf cp.cpa.block_size (of_lists (cp.buffers p).lists) ++ r))
    → All HasBlocks (of_lists (cp.buffers p).lists)
    → (cp' : CommandPool) × (rest : List ℕ) × (free_one p cp ≡ some cp')
      × Ready cp' (p ∷ free_buffers) (before ++ behind) rest (l ++ r)
      × (length rest
          ≡ length free_blocks
            + length (owned cp.cpa.buf cp.cpa.block_size (of_lists (cp.buffers p).lists)))
      × (cp'.buffers ≡ cp.buffers)
      × SameBuffer cp.cpa cp'.cpa
unfolding free_one
free_one_held cp free_buffers before p behind free_blocks l r h some_blocks =
    let (m', pa', rest, computed, keeps, count, same) =
      free_lists_lem (of_lists (cp.buffers p).lists) cp.cpa_mem cp.cpa free_blocks l r some_blocks
        h.keeps in
    (
      record cp {
        pa_mem = (Pool.free cp.pa_mem cp.pa p).0;
        pa = (Pool.free cp.pa_mem cp.pa p).1;
        cpa_mem = m';
        cpa = pa';
      },
      rest,
      rw computed refl,
      record {
        holds = (free-Holds cp.pa_mem cp.pa free_buffers before p behind h.holds).0;
        keeps = keeps;
      },
      count,
      refl,
      same,
    )

-- `vkFreeCommandBuffers` of one command buffer that is held, whose lists are in runs of any lengths,
-- returns: the command buffer and all the blocks of its seven lists are free again, and the pool is
-- well-formed.
pub free_one_lem :
    (cp : CommandPool) (free_buffers before : List ℕ) (p : ℕ) (behind free_blocks l r : List ℕ)
    → Ready cp free_buffers
        (before ++ (p ∷ behind))
        free_blocks
        (l ++ (owned cp.cpa.buf cp.cpa.block_size (of_lists (cp.buffers p).lists) ++ r))
    → All HasBlocks (of_lists (cp.buffers p).lists)
    → p ≢ null
    → (cp' : CommandPool) × (rest : List ℕ) × (free_command_buffers (p ∷ []) cp ≡ some cp')
      × Ready cp' (p ∷ free_buffers) (before ++ behind) rest (l ++ r)
      × (length rest
          ≡ length free_blocks
            + length (owned cp.cpa.buf cp.cpa.block_size (of_lists (cp.buffers p).lists)))
unfolding free_command_buffers
free_one_lem cp free_buffers before p behind free_blocks l r h some_blocks ne =
    let (cp', rest, computed, ready, count, _, _) =
      free_one_held cp free_buffers before p behind free_blocks l r h some_blocks in
    let e : (p == null) ≡ false = ground arith in (cp', rest, rw (e, computed) refl, ready, count)
