-- ===== src/Consecutive/Unlink.antt =====
-- How `consecutivePoolAllocate` of driver/ConsecutivePoolAllocator.c takes a run of blocks out of
-- the free list.
use rpi_vk_driver.Base.{
  ℕ, ◌+◌, ◌^◌, ◌≤◌, ◌<◌, ◌≡◌, refl, ◌∙◌, ◌≢◌, inl, inr, List, [], ◌∷◌, ◌++◌, true, false, some,
  arith, length, All, All-mono, ◌==◌, append_assoc,
}
use rpi_vk_driver.Memory.{Mem, load32, store32, SameInside, store32_other, load32-store32_self}
use rpi_vk_driver.FreeList.{Chain, Chain-frame, Apart, Separate, Separate-middle, Cross}
use rpi_vk_driver.FreeList.Runs.{All-left, All-right, Chain-prefix, last_cases}
use rpi_vk_driver.Consecutive.{Consecutive, unlink, walk_fuel}
use rpi_vk_driver.Consecutive.Scan.{Below, predecessor_lem}

-- The list starts at an address below the top of the address space.
pub Chain-lt : (m : Mem) (bs q : ℕ) (xs : List ℕ) → Chain m q xs → All (Below bs) xs → q < 2 ^ 32
Chain-lt m bs q [] c below = omega (arith, c)
Chain-lt m bs q (x ∷ xs) c below = omega (arith, c.0, below.0)

-- The blocks `ys` hold the same bytes in both memories.
abbrev pub Spared : ℕ → List ℕ → Mem → Mem → Type 0
Spared bs ys m m' = All (λ y. SameInside y (y + bs) m m') ys

-- A store into the link of a block spares the blocks apart from it.
pub store-Spared :
    (m : Mem) (bs y v : ℕ) (ys : List ℕ)
    → 4 ≤ bs
    → All (Apart bs y) ys
    → Spared bs ys m (store32 m y v)
store-Spared m bs y v ys room away =
    All-mono (Apart bs y) (λ x. SameInside x (x + bs) m (store32 m y v))
      (λ x apart a lo hi. store32_other m y v a (omega arith)) ys away

pub Spared-links :
    (m m' : Mem) (bs : ℕ) (ys : List ℕ)
    → 4 ≤ bs
    → Spared bs ys m m'
    → All (λ y. SameInside y (y + 4) m m') ys
Spared-links m m' bs ys room spared =
    All-mono (λ y. SameInside y (y + bs) m m') (λ y. SameInside y (y + 4) m m')
      (λ y same a lo hi. same a lo (omega arith)) ys spared

pub Apart-differ : (bs z : ℕ) (xs : List ℕ) → 4 ≤ bs → All (Apart bs z) xs → All (λ x. x ≢ z) xs
Apart-differ bs z xs room away =
    All-mono (Apart bs z) (λ x. x ≢ z) (λ x apart e. omega arith) xs away

pub first_differs :
    (m : Mem) (q z : ℕ) (l : List ℕ) (y : ℕ) (r : List ℕ)
    → Chain m q (l ++ (y ∷ r))
    → All (λ x. x ≢ z) (l ++ (y ∷ []))
    → q ≢ z
first_differs m q z [] y r c differ e = differ.0 (omega (arith, c.0))
first_differs m q z (x ∷ l) y r c differ e = differ.0 (omega (arith, c.0))

pub Spared-trans :
    (m m' m'' : Mem) (bs : ℕ) (ys : List ℕ)
    → Spared bs ys m m'
    → Spared bs ys m' m''
    → Spared bs ys m m''
Spared-trans m m' m'' bs [] first second = tt
Spared-trans m m' m'' bs (y ∷ ys) first second =
    ((λ a lo hi. second.0 a lo hi ∙ first.0 a lo hi), Spared-trans m m' m'' bs ys first.1 second.1)

Spared-refl : (m : Mem) (bs : ℕ) (ys : List ℕ) → Spared bs ys m m
Spared-refl m bs [] = tt
Spared-refl m bs (y ∷ ys) = ((λ a lo hi. refl), Spared-refl m bs ys)

module _ (m : Mem) (pa : Consecutive) (p candidate : ℕ) (live : List ℕ) where
  -- What is left is the list `rest`; the blocks of the clients are not written to.
  abbrev pub Unlinked : List ℕ → Type 0
  Unlinked rest =
      (m' : Mem) × (head : ℕ) × (unlink m pa p candidate ≡ some (m', head))
      × Chain m' head rest
      × Spared pa.block_size live m m'

  unlink_first : (r : List ℕ) → pa.next_free_block ≡ p → Chain m candidate r → Unlinked r
  unfolding unlink
  unlink_first r at next =
      let t : (pa.next_free_block == p) ≡ true = ground arith in
      (m, candidate, rw t refl, next, Spared-refl m pa.block_size live)

  unlink_later :
      (l : List ℕ) (y : ℕ) (s r : List ℕ)
      → 4 ≤ pa.block_size
      → Chain m pa.next_free_block (l ++ (y ∷ p ∷ (s ++ r)))
      → Separate pa.block_size (l ++ (y ∷ p ∷ (s ++ r)))
      → Cross pa.block_size (l ++ (y ∷ p ∷ (s ++ r))) live
      → candidate < 2 ^ 32
      → length (l ++ (y ∷ p ∷ (s ++ r))) ≤ walk_fuel pa
      → Chain m candidate r
      → Unlinked (l ++ (y ∷ r))
  unfolding unlink
  unlink_later l y s r room c apart cross small fuel_le next =
      let bs = pa.block_size in
      let m' : Mem = store32 m y candidate in
      let away = Separate-middle bs l y (p ∷ (s ++ r)) apart in
      let before = All-left (Apart bs y) l (p ∷ (s ++ r)) away.0 in
      let behind = (All-right (Apart bs y) l (p ∷ (s ++ r)) away.0).1 in
      let differ : All (λ x. x ≢ p) (l ++ (y ∷ [])) = Apart-differ bs p (l ++ (y ∷ [])) room (
        All-left (Apart bs p) (l ++ (y ∷ [])) (s ++ r)
          (Separate-middle bs (l ++ (y ∷ [])) p (s ++ r)
            (rw (append_assoc l (y ∷ []) (p ∷ (s ++ r))) apart)).0) in
      let f : (pa.next_free_block == p) ≡ false =
        ground (arith, first_differs m pa.next_free_block p l y (p ∷ (s ++ r)) c differ) in
      let found =
        predecessor_lem m (walk_fuel pa) p pa.next_free_block pa.next_free_block l y (s ++ r)
          fuel_le c differ in
      let tail : Chain m' (load32 m' y) r = rw (load32-store32_self m y candidate small) (
        Chain-frame m m' candidate r next (
          Spared-links m m' bs r room
            (store-Spared m bs y candidate r room (All-right (Apart bs y) s r behind)))) in
      (
        m',
        pa.next_free_block,
        rw (f, found) refl,
        Chain-prefix m m' pa.next_free_block l y (p ∷ (s ++ r)) r c
            (Spared-links m m' bs l room (store-Spared m bs y candidate l room before)) tail,
        store-Spared m bs y candidate live room
            (All-right (λ x. All (Apart bs x) live) l _ cross).0,
      )

  -- The run `p ∷ s` leaves the list, which goes on at `candidate`.
  pub unlink_lem :
      (l s r : List ℕ)
      → 4 ≤ pa.block_size
      → Chain m pa.next_free_block (l ++ (p ∷ (s ++ r)))
      → Separate pa.block_size (l ++ (p ∷ (s ++ r)))
      → Cross pa.block_size (l ++ (p ∷ (s ++ r))) live
      → candidate < 2 ^ 32
      → length (l ++ (p ∷ (s ++ r))) ≤ walk_fuel pa
      → Chain m candidate r
      → Unlinked (l ++ r)
  unlink_lem l s r room c apart cross small fuel_le next = elim (last_cases l) [
    | inl e ↦ rw e (unlink_first r (rw e at c).0 next)
    | inr (ys, y, e) ↦
        let shape : l ++ (p ∷ (s ++ r)) ≡ ys ++ (y ∷ p ∷ (s ++ r)) =
          rw e (append_assoc ys (y ∷ []) (p ∷ (s ++ r))) in
        let left : l ++ r ≡ ys ++ (y ∷ r) = rw e (append_assoc ys (y ∷ []) r) in
        rw left (
          unlink_later ys y s r room (rw shape at c) (rw shape at apart) (rw shape at cross) small
            (rw shape at fuel_le) next)
  ]
