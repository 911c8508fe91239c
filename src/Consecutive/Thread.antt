-- ===== src/Consecutive/Thread.antt =====
-- How driver/ConsecutivePoolAllocator.c links the blocks of a run that is freed, and looks for its
-- place in the free list.
use rpi_vk_driver.Base.{
  ℕ, zero, suc, ◌+◌, ◌*◌, ◌^◌, ◌≤◌, ◌<◌, ◌≡◌, refl, sym, subst, ap, ◌∙◌, ◌≢◌, ◌⊎◌, inl, inr, List,
  [], ◌∷◌, ◌++◌, Bool, true, false, some, arith, length, All, ◌==◌, add32, sub32,
}
use native.Mathlib.Decide.{ℕ_discrete}
use rpi_vk_driver.Memory.{
  Mem, null, load32, store32, SameOutside, store32_other, load32_same, load32-store32_self,
}
use rpi_vk_driver.FreeList.{Chain, Apart, Cross, blocks}
use rpi_vk_driver.FreeList.Runs.{Apart-run}
use rpi_vk_driver.Pool.{link_blocks}
use rpi_vk_driver.Consecutive.{thread_run, insert_after, free_walk}
use rpi_vk_driver.Consecutive.Scan.{Below}
use rpi_vk_driver.Consecutive.Unlink.{Spared}

linked : Mem → ℕ → ℕ → ℕ → ℕ → Mem
linked m p bs n tail = let (l, z) = link_blocks m p bs n in store32 l z tail

linked-suc :
    (m : Mem) (p bs n tail : ℕ)
    → p + bs < 2 ^ 32
    → linked m p bs (suc n) tail ≡ linked (store32 m p (p + bs)) (p + bs) bs n tail
unfolding linked link_blocks
linked-suc m p bs n tail h =
    let e : add32 p bs ≡ p + bs = omega arith in
    ap (λ q. let (l, z) = link_blocks (store32 m p q) q bs n in store32 l z tail) e

-- The links lead through the run to whatever the tail begins, and nothing else is written.
abbrev pub Threads : Mem → Mem → ℕ → ℕ → ℕ → ℕ → Type 0
Threads m m' p bs n tail =
    ((ys : List ℕ) → Chain m' tail ys → Chain m' p (blocks p bs n ++ ys))
    × SameOutside p (p + n * bs) m m'

linked-Threads :
    (n : ℕ) (m : Mem) (p bs tail : ℕ)
    → p ≢ null
    → 4 ≤ bs
    → p + suc n * bs ≤ 2 ^ 32
    → tail < 2 ^ 32
    → Threads m (linked m p bs n tail) p bs (suc n) tail
unfolding blocks
linked-Threads zero m p bs tail ne fits room small =
    unfold linked link_blocks in
    (
      λ ys c. (refl, ne, rw (load32-store32_self m p tail small) c),
      λ a out. store32_other m p tail a (omega arith),
    )
linked-Threads (suc n) m p bs tail ne fits room small =
    let m' : Mem = store32 m p (p + bs) in
    let rest = linked-Threads n m' (p + bs) bs tail (omega arith) fits (omega arith) small in
    let final : Mem = linked m' (p + bs) bs n tail in
    let link : load32 final p ≡ p + bs =
      load32_same m' final p (λ a lo hi. rest.1 a (omega arith))
      ∙ load32-store32_self m p (p + bs) (omega arith) in
    subst (λ g. Threads m g p bs (suc (suc n)) tail) (sym (linked-suc m p bs n tail (omega arith)))
      (
        λ ys c. (refl, ne, rw link (rest.0 ys c)),
        λ a out. rest.1 a (omega arith) ∙ store32_other m p (p + bs) a (omega arith),
      )

pub thread_run-Threads :
    (m : Mem) (p bs k tail : ℕ)
    → p ≢ null
    → 4 ≤ bs
    → p + suc k * bs ≤ 2 ^ 32
    → suc k < 2 ^ 32
    → tail < 2 ^ 32
    → Threads m (thread_run m p bs (suc k) tail) p bs (suc k) tail
unfolding thread_run
thread_run-Threads m p bs k tail ne fits room k_lt small =
    let left : sub32 (suc k) 1 ≡ k = omega arith in
    unfold linked in rw left (linked-Threads k m p bs tail ne fits room small)

-- A write to the run spares the blocks apart from it.
pub run-Spared :
    (m m' : Mem) (bs p n : ℕ) (ys : List ℕ)
    → 4 ≤ bs
    → SameOutside p (p + suc n * bs) m m'
    → Cross bs (blocks p bs (suc n)) ys
    → Spared bs ys m m'
run-Spared m m' bs p n [] room same cross = tt
run-Spared m m' bs p n (y ∷ ys) room same cross =
    let parts = heads (blocks p bs (suc n)) y ys cross in
    let away = Apart-run bs y p n room parts.0 in
    ((λ a lo hi. same a (omega arith)), run-Spared m m' bs p n ys room same parts.1)
  where
    heads :
        (xs : List ℕ) (y : ℕ) (ys : List ℕ)
        → Cross bs xs (y ∷ ys)
        → All (λ x. Apart bs x y) xs × Cross bs xs ys
    heads [] y ys c = (tt, tt)
    heads (x ∷ xs) y ys c = let rest = heads xs y ys c.1 in ((c.0.0, rest.0), (c.0.1, rest.1))

-- The block right before `p` in memory is in the list, or is not.
pub follows_cases :
    (bs p : ℕ) (xs : List ℕ)
    → All (λ y. y + bs ≢ p) xs
      ⊎ ((a : List ℕ) × (x : ℕ) × (b : List ℕ) × (xs ≡ a ++ (x ∷ b))
          × (x + bs ≡ p)
          × All (λ y. y + bs ≢ p) a)
follows_cases bs p [] = inl tt
follows_cases bs p (x ∷ xs) = elim (ℕ_discrete (x + bs) p) [
  | yes e ↦ inr ([], x, xs, refl, e, tt)
  | no differ ↦ elim (follows_cases bs p xs) [
    | inl none_here ↦ inl (differ, none_here)
    | inr (a, y, b, split, e, before) ↦
        inr (x ∷ a, y, b, ap (λ l. x ∷ l) split, e, (differ, before))
  ]
]

module _ (bs p n : ℕ) where
  insert_after_other :
      (m : Mem) (x : ℕ) (found : Bool)
      → x + bs < 2 ^ 32
      → x + bs ≢ p
      → insert_after m bs p n x found ≡ (m, found)
  unfolding insert_after
  insert_after_other m x found below differ =
      let e : (add32 x bs == p) ≡ false = ground arith in rw e refl

  -- Where no block comes right before the run, the search changes nothing.
  pub free_walk_past :
      (fuel : ℕ) (m : Mem) (q : ℕ) (ys : List ℕ) (found : Bool)
      → length ys < fuel
      → Chain m q ys
      → All (Below bs) ys
      → All (λ y. y + bs ≢ p) ys
      → free_walk fuel m bs p n q found ≡ some (m, found)
  unfolding free_walk
  free_walk_past zero m q ys found fuel_lt c below differ = absurd (omega arith)
  free_walk_past (suc fuel) m q [] found fuel_lt c below differ =
      let e : (q == null) ≡ true = ground arith in rw e refl
  free_walk_past (suc fuel) m q (y ∷ ys) found fuel_lt c below differ =
      let e : (q == null) ≡ false = ground (arith, c.0, c.1) in
      let at : q ≡ y = c.0 in
      let same = insert_after_other m y found below.0 differ.0 in
      rw (e, at, same)
        (free_walk_past fuel m (load32 m y) ys found (omega arith) c.2 below.1 differ.1)

  -- The run goes in after the block `x`, and the search ends behind it.
  pub free_walk_at :
      (fuel : ℕ) (m m' : Mem) (q : ℕ) (a : List ℕ) (x : ℕ) (b ys : List ℕ)
      → length (a ++ (x ∷ ys)) < fuel
      → Chain m q (a ++ (x ∷ b))
      → All (Below bs) a
      → All (λ y. y + bs ≢ p) a
      → insert_after m bs p n x false ≡ (m', true)
      → Chain m' (load32 m' x) ys
      → All (Below bs) ys
      → All (λ y. y + bs ≢ p) ys
      → free_walk fuel m bs p n q false ≡ some (m', true)
  unfolding free_walk
  free_walk_at zero m m' q a x b ys fuel_lt c below differ here c' below' differ' =
      absurd (omega arith)
  free_walk_at (suc fuel) m m' q [] x b ys fuel_lt c below differ here c' below' differ' =
      let e : (q == null) ≡ false = ground (arith, c.0, c.1) in
      let at : q ≡ x = c.0 in
      rw (e, at, here)
        (free_walk_past fuel m' (load32 m' x) ys true (omega arith) c' below' differ')
  free_walk_at (suc fuel) m m' q (y ∷ a) x b ys fuel_lt c below differ here c' below' differ' =
      let e : (q == null) ≡ false = ground (arith, c.0, c.1) in
      let at : q ≡ y = c.0 in
      let same = insert_after_other m y false below.0 differ.0 in
      rw (e, at, same)
        (free_walk_at fuel m m' (load32 m y) a x b ys (omega arith) c.2 below.1 differ.1 here c'
          below' differ')
