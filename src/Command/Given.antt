-- ===== src/Command/Given.antt =====
-- What `vkAllocateCommandBuffers` of driver/command.c gives while its pool lasts, and when the pool
-- runs out of command buffers.
use rpi_vk_driver.Base.{
  ℕ, zero, suc, ◌+◌, ◌-◌, ◌≤◌, ◌≡◌, refl, ap, ◌∙◌, inl, inr, List, [], ◌∷◌, ◌++◌, arith, some,
  length, length-append,
}
use rpi_vk_driver.Memory.{Mem}
use rpi_vk_driver.FreeList.{blocks}
use rpi_vk_driver.Consecutive.{Consecutive}
use rpi_vk_driver.Consecutive
use rpi_vk_driver.Consecutive.Keeps.{Keeps, SameBuffer}
use rpi_vk_driver.Consecutive.Allocate.{allocate_cases}
use rpi_vk_driver.ControlList.{ControlList}
use rpi_vk_driver.ControlList
use rpi_vk_driver.Command.Pools.{take_lists}

-- A pool with a free block has a run of one.
one_run :
    (bs x : ℕ) (xs : List ℕ)
    → (l : List ℕ) × (p : ℕ) × (r : List ℕ) × (x ∷ xs ≡ l ++ (blocks p bs 1 ++ r))
unfolding blocks
one_run bs x xs = ([], x, xs, refl)

-- the lists of the blocks, each in a block of its own
abbrev pub lists_at : Consecutive → List ℕ → List ControlList
lists_at pa [] = []
lists_at pa (b ∷ bs) = ControlList.init pa.buf (b - pa.buf) pa.block_size ∷ lists_at pa bs

abbrev pub reversed_onto : List ℕ → List ℕ → List ℕ
reversed_onto [] ys = ys
reversed_onto (x ∷ xs) ys = reversed_onto xs (x ∷ ys)

-- `n` lists are taken from a pool with `n` free blocks.
abbrev pub Taken : ℕ → Mem → Consecutive → List ℕ → List ℕ → Type 0
Taken n m pa unused live =
    (bs : List ℕ) × (m' : Mem) × (pa' : Consecutive) × (rest : List ℕ) × (take_lists n m pa
      ≡ some (lists_at pa bs, m', pa'))
    × (length bs ≡ n)
    × Keeps m' pa' rest (reversed_onto bs live)
    × (length rest + n ≡ length unused)
    × SameBuffer pa pa'

take_one :
    (m : Mem) (pa : Consecutive) (unused live : List ℕ)
    → Keeps m pa unused live
    → 1 ≤ length unused
    → (b : ℕ) × (m' : Mem) × (pa' : Consecutive) × (rest : List ℕ) × (Consecutive.allocate m pa 1
        ≡ some (b - pa.buf, m', pa'))
      × Keeps m' pa' rest (b ∷ live)
      × (length rest + 1 ≡ length unused)
      × SameBuffer pa pa'
unfolding blocks
take_one m pa [] live h some_free = absurd (omega arith)
take_one m pa (x ∷ xs) live h some_free =
    elim (allocate_cases m pa (x ∷ xs) live 0 h (omega arith)) [
      | inl (l, b, r, m', pa', split, computed, keeps, spared, same) ↦ (
        b,
        m',
        pa',
        l ++ r,
        computed,
        keeps,
        omega (arith, ap length split, length-append l (b ∷ r), length-append l r),
        same,
      )
      | inr (computed, missing) ↦ absurd (missing (one_run pa.block_size x xs))
    ]

same_lists :
    (pa pa' : Consecutive) (bs : List ℕ) → SameBuffer pa pa' → lists_at pa' bs ≡ lists_at pa bs
same_lists pa pa' [] same = refl
same_lists pa pa' (b ∷ bs) same =
    let rest = same_lists pa pa' bs same in
    let here : ControlList.init pa'.buf (b - pa'.buf) pa'.block_size
        ≡ ControlList.init pa.buf (b - pa.buf) pa.block_size =
      rw (same.0, same.1) refl in
    rw (here, rest) refl

pub take_lists_lem :
    (n : ℕ) (m : Mem) (pa : Consecutive) (unused live : List ℕ)
    → Keeps m pa unused live
    → n ≤ length unused
    → Taken n m pa unused live
unfolding take_lists
take_lists_lem zero m pa unused live h enough =
    ([], m, pa, unused, refl, refl, h, omega arith, (refl, refl, refl))
take_lists_lem (suc n) m pa unused live h enough =
    let (b, m1, pa1, rest1, computed1, keeps1, count1, same1) =
      take_one m pa unused live h (omega arith) in
    let (bs, m2, pa2, rest2, computed2, counted2, keeps2, count2, same2) =
      take_lists_lem n m1 pa1 rest1 (b ∷ live) keeps1 (omega (arith, count1)) in
    (
      b ∷ bs,
      m2,
      pa2,
      rest2,
      rw (computed1, computed2, same_lists pa pa1 bs same1) refl,
      ap suc counted2,
      keeps2,
      omega (arith, count1, count2),
      (same2.0 ∙ same1.0, same2.1 ∙ same1.1, same2.2 ∙ same1.2),
    )
