-- ===== src/Consecutive/Move.antt =====
-- `consecutivePoolReAllocate` of driver/ConsecutivePoolAllocator.c where the memory moves to a new
-- run, as it does for two more blocks or more.
use rpi_vk_driver.Base.{
  ℕ, zero, suc, ◌+◌, ◌-◌, ◌*◌, ◌^◌, ◌≤◌, ◌<◌, ◌≡◌, refl, ◌⊎◌, inl, inr, List, [], ◌++◌, none, some,
  arith, length, length-append, All, sym, subst, ap, ◌∙◌, append_assoc, true, false, ◌==◌, add32,
  sub32, mul32, u32_max, ◌>>=◌, Bool-cases, Option-cases,
}
use native.Mathlib.Decide.{dec_le}
use native.Mathlib.Nat.{mul-le-mul_right}
use rpi_vk_driver.Memory.{Mem, null, memcpy, memcpy_other, memcpy_inside, SameInside}
use rpi_vk_driver.FreeList.{Inside, blocks, length-blocks}
use rpi_vk_driver.FreeList.Runs.{All-left, All-right, run-le}
use rpi_vk_driver.Consecutive.{
  Consecutive, allocate, free, free_walk, grow_in_place, move_run, reallocate, walk_fuel,
}
use rpi_vk_driver.Consecutive.Keeps.{Keeps, SameBuffer, Keeps-Inside, count_lt}
use rpi_vk_driver.Consecutive.Scan.{HasRun}
use rpi_vk_driver.Consecutive.Unlink.{Spared}
use rpi_vk_driver.Consecutive.Allocate.{allocate_cases}
use rpi_vk_driver.Consecutive.Returned.{Returned}
use rpi_vk_driver.Consecutive.Free.{free_lem}
use rpi_vk_driver.Consecutive.Clients.{write-Keeps}

abbrev pub with_count : Consecutive → ℕ → Consecutive
with_count pa n = record pa { num_free_blocks = n }

-- `consecutivePoolFree` does not look at the count, it adds to it.
free-with_count :
    (m : Mem) (pa : Consecutive) (x p n : ℕ)
    → free m (with_count pa x) p n
      ≡ (free m pa p n >>= λ (m', pa'). some (m', with_count pa' (add32 x n)))
unfolding free
free-with_count m pa x p n = elim (Bool-cases (pa.next_free_block == null)) [
  | inl t ↦ rw t refl
  | inr f ↦
      elim (Option-cases (free_walk (walk_fuel pa) m pa.block_size p n pa.next_free_block false)) [
        | inl diverges ↦ rw (f, diverges) refl
        | inr ((m', true), e) ↦ rw (f, e) refl
        | inr ((m', false), e) ↦ rw (f, e) refl
      ]
]

recount :
    {m : Mem} {pa : Consecutive} {rest live : List ℕ}
    → Keeps m pa rest live
    → Keeps m (with_count pa (length rest)) rest live
recount h = record {
  buffer = h.buffer;
  below_top = h.below_top;
  chain = h.chain;
  shared_out = h.shared_out;
  counted = refl;
}

-- The bytes of a run are those of its blocks.
pub run_bytes :
    (m m' : Mem) (bs p n : ℕ) → Spared bs (blocks p bs n) m m' → SameInside p (p + n * bs) m m'
unfolding blocks
run_bytes m m' bs p zero h a lo hi = absurd (omega arith)
run_bytes m m' bs p (suc n) h a lo hi = elim (dec_le (p + bs) a) [
  | yes past ↦ run_bytes m m' bs (p + bs) n h.1 a past (omega arith)
  | no before ↦ h.0 a lo (omega arith)
]

module _ (m : Mem) (pa : Consecutive) (unused l : List ℕ) (p c : ℕ) (r : List ℕ) (k : ℕ) where
  -- The memory moved to a run at `q`: what was in it is there, the run from before is free, and the
  -- count of free blocks is too small by the growth.
  abbrev pub Moved : Type 0
  Moved =
      (rest : List ℕ) × (q : ℕ) × (m' : Mem) × (pa' : Consecutive) × (reallocate m pa p (suc c)
          (suc k)
        ≡ some (q - pa.buf, m', pa'))
      × ((i : ℕ) → i < suc c * pa.block_size → m' (q + i) ≡ m (p + i))
      × Keeps m' (with_count pa' (length rest)) rest (blocks q pa.block_size (suc k) ++ (l ++ r))
      × (pa'.num_free_blocks ≡ sub32 (length rest) (k - c))
      × SameBuffer pa pa'

  module _ (h : Keeps m pa unused (l ++ (blocks p pa.block_size (suc c) ++ r))) (le : c ≤ k)
      (k_lt : suc k < 2 ^ 32) (stays : grow_in_place m pa p (suc c) (suc k) ≡ some none) where
    old_run_ends : p + suc c * pa.block_size ≤ pa.buf + pa.size
    old_run_ends = run-le pa.buf pa.size pa.block_size p c (
        All-left (Inside pa.buf pa.size pa.block_size) (blocks p pa.block_size (suc c)) r (
          All-right (Inside pa.buf pa.size pa.block_size) l _
            (All-right (Inside pa.buf pa.size pa.block_size) unused _ (Keeps-Inside h))))

    module _ (l1 : List ℕ) (q : ℕ) (r1 : List ℕ) (m1 : Mem) (pa1 : Consecutive)
        (computed : allocate m pa (suc k) ≡ some (q - pa.buf, m1, pa1))
        (keeps : Keeps m1 pa1
          (l1 ++ r1)
          (blocks q pa.block_size (suc k) ++ (l ++ (blocks p pa.block_size (suc c) ++ r))))
        (spared : Spared pa.block_size (l ++ (blocks p pa.block_size (suc c) ++ r)) m m1)
        (same : SameBuffer pa pa1) where
      abbrev copied : Mem
      copied = memcpy m1 q p (suc c * pa.block_size)

      new_run_in : All (Inside pa.buf pa.size pa.block_size) (blocks q pa.block_size (suc k))
      new_run_in =
          rw (same.0, same.1, same.2) at
            (All-left (Inside pa1.buf pa1.size pa1.block_size) (blocks q pa.block_size (suc k)) _ (
              All-right (Inside pa1.buf pa1.size pa1.block_size) (l1 ++ r1) _ (Keeps-Inside keeps)))

      new_run_starts : pa.buf ≤ q
      unfolding blocks
      new_run_starts = new_run_in.0.0

      new_run_ends : q + suc k * pa.block_size ≤ pa.buf + pa.size
      new_run_ends = run-le pa.buf pa.size pa.block_size q k new_run_in

      longer_run : suc c * pa.block_size ≤ suc k * pa1.block_size
      longer_run = rw same.1 (mul-le-mul_right pa.block_size (omega arith))

      -- The pool after the copy
      copied-Keeps :
          Keeps copied pa1
            (l1 ++ r1)
            ((blocks q pa1.block_size (suc k) ++ l) ++ (blocks p pa1.block_size (suc c) ++ r))
      copied-Keeps =
          rw
            (append_assoc (blocks q pa1.block_size (suc k)) l
              (blocks p pa1.block_size (suc c) ++ r))
            (write-Keeps m1 copied pa1 (l1 ++ r1) [] q k
              (l ++ (blocks p pa1.block_size (suc c) ++ r))
              (subst
                (λ t.
                  Keeps m1 pa1 (l1 ++ r1) (blocks q t (suc k) ++ (l ++ (blocks p t (suc c) ++ r))))
                (sym same.1) keeps)
              (λ a out.
                memcpy_other m1 q p (suc c * pa.block_size) a
                  (omega (arith, same.1, out, longer_run))))

      -- `consecutivePoolFree` of the run from before
      freed : Returned copied pa1 (l1 ++ r1) (blocks q pa1.block_size (suc k) ++ l) p c r
      freed =
          free_lem copied pa1 (l1 ++ r1) (blocks q pa1.block_size (suc k) ++ l) p c r copied-Keeps

      moves : Moved
      unfolding reallocate move_run
      moves =
          let (a, b, m3, pa3, split, computed', keeps', spared', same') = freed in
          let not_max : (q - pa.buf == u32_max) ≡ false =
            ground (arith, new_run_starts, new_run_ends, h.below_top, h.buffer.not_null) in
          let at : add32 pa.buf (q - pa.buf) ≡ q =
            omega (arith, new_run_starts, new_run_ends, h.below_top) in
          let bytes : mul32 (suc c) pa.block_size ≡ suc c * pa.block_size =
            omega (arith, old_run_ends, h.below_top) in
          let growth : sub32 (suc k) (suc c) ≡ k - c = omega arith in
          let counts = free-with_count copied pa1 (sub32 pa1.num_free_blocks (k - c)) p (suc c) in
          let rest = a ++ (blocks p pa1.block_size (suc c) ++ b) in
          (
            rest,
            q,
            m3,
            with_count pa3 (add32 (sub32 pa1.num_free_blocks (k - c)) (suc c)),
            rw (stays, computed, not_max, at, bytes, growth, counts, computed') refl,
            λ i lt.
                let from_free =
                  All-left _ (blocks q pa1.block_size (suc k)) (l ++ r)
                    (rw (append_assoc (blocks q pa1.block_size (suc k)) l r) at spared') in
                let from_take =
                  All-left _ (blocks p pa.block_size (suc c)) r
                    (All-right _ l (blocks p pa.block_size (suc c) ++ r) spared) in
                run_bytes copied m3 pa1.block_size q (suc k) from_free (q + i) (omega arith)
                  (omega (arith, longer_run))
                ∙ memcpy_inside m1 q p (suc c * pa.block_size) i lt
                ∙ run_bytes m m1 pa.block_size p (suc c) from_take (p + i) (omega arith)
                    (omega arith),
            recount (
                subst (Keeps m3 pa3 rest) (append_assoc (blocks q pa.block_size (suc k)) l r)
                  (subst (λ t. Keeps m3 pa3 rest ((blocks q t (suc k) ++ l) ++ r)) same.1 keeps')),
            omega (
              arith,
              keeps.counted,
              ap length split,
              count_lt keeps',
              length-append a b,
              length-append a (blocks p pa1.block_size (suc c) ++ b),
              length-append (blocks p pa1.block_size (suc c)) b,
              length-blocks p pa1.block_size (suc c),
            ),
            (same'.0 ∙ same.0, same'.1 ∙ same.1, same'.2 ∙ same.2),
          )

-- `consecutivePoolReAllocate` of `c + 1` blocks that a client holds to `k + 1`, where it does not grow
-- in place, returns. Either the memory is now a run of `k + 1` blocks that holds the bytes of the old
-- one, the old run is free, and the pool is well-formed but for `numFreeBlocks`, which is less than
-- the number of free blocks by the growth, `k - c`; or the call returns -1, nothing has changed, and
-- there is no run of `k + 1` free blocks.
pub reallocate_moves :
    (m : Mem) (pa : Consecutive) (unused l : List ℕ) (p c : ℕ) (r : List ℕ) (k : ℕ)
    → Keeps m pa unused (l ++ (blocks p pa.block_size (suc c) ++ r))
    → c ≤ k
    → suc k < 2 ^ 32
    → grow_in_place m pa p (suc c) (suc k) ≡ some none
    → Moved m pa unused l p c r k
      ⊎ ((reallocate m pa p (suc c) (suc k) ≡ some (u32_max, m, pa))
          × (HasRun pa.block_size (suc k) unused → ⊥))
unfolding reallocate
reallocate_moves m pa unused l p c r k h le k_lt stays =
    elim (allocate_cases m pa unused (l ++ (blocks p pa.block_size (suc c) ++ r)) k h k_lt) [
      | inl (l1, q, r1, m1, pa1, split, computed, keeps, spared, same) ↦
          inl
            (moves m pa unused l p c r k h le k_lt stays l1 q r1 m1 pa1 computed keeps spared same)
      | inr (computed, missing) ↦ inr (unfold move_run in rw (stays, computed) refl, missing)
    ]
