-- ===== src/Consecutive/Scan.antt =====
-- The walks of driver/ConsecutivePoolAllocator.c along a free list that is not cyclic: the search
-- for a run of blocks, and for the block before one.
use rpi_vk_driver.Base.{
  ℕ, zero, suc, ◌+◌, ◌^◌, ◌≤◌, ◌<◌, ◌≡◌, refl, sym, ap, subst, ◌≢◌, ◌⊎◌, inl, inr, List, [], ◌∷◌,
  ◌++◌, true, false, some, arith, length, All, add32, sub32, ◌==◌,
}
use native.Mathlib.Decide.{ℕ_discrete}
use rpi_vk_driver.Memory.{Mem, null, load32}
use rpi_vk_driver.FreeList.{Chain, blocks}
use rpi_vk_driver.Consecutive.{consecutive, scan, predecessor}

-- The block ends below the top of the address space.
abbrev pub Below : ℕ → ℕ → Type 0
Below bs x = x + bs < 2 ^ 32

-- The list begins with `k` neighbouring blocks from `b` on.
abbrev pub Begins : ℕ → ℕ → ℕ → List ℕ → Type 0
Begins b bs k ys = (zs : List ℕ) × (ys ≡ blocks b bs k ++ zs)

-- There is a run of `n` blocks in the list.
abbrev pub HasRun : ℕ → ℕ → List ℕ → Type 0
HasRun bs n xs = (l : List ℕ) × (p : ℕ) × (r : List ℕ) × (xs ≡ l ++ (blocks p bs n ++ r))

head_injective : {x y : ℕ} {xs ys : List ℕ} → x ∷ xs ≡ y ∷ ys → x ≡ y
head_injective e = cc

tail_injective : {x y : ℕ} {xs ys : List ℕ} → x ∷ xs ≡ y ∷ ys → xs ≡ ys
tail_injective e = cc

pub consecutive_cases :
    (m : Mem) (bs b q k : ℕ) (ys : List ℕ)
    → b ≢ null
    → b < 2 ^ 32
    → Chain m q ys
    → All (Below bs) ys
    → ((consecutive m bs b q k ≡ true) × Begins b bs k ys)
      ⊎ ((consecutive m bs b q k ≡ false) × (Begins b bs k ys → ⊥))
unfolding consecutive blocks
consecutive_cases m bs b q zero ys ne small c below = inl (refl, (ys, refl))
consecutive_cases m bs b q (suc k) [] ne small c below =
    let e : (b == q) ≡ false = ground arith in inr (rw e refl, λ w. cc)
consecutive_cases m bs b q (suc k) (y ∷ ys) ne small c below = elim (ℕ_discrete b y) [
  | yes same ↦
      let e : (b == q) ≡ true = ground arith in
      let wrap : add32 b bs ≡ b + bs = omega (arith, below.0) in
      let at : q ≡ y = c.0 in
      elim (consecutive_cases m bs (b + bs) (load32 m y) k ys (omega arith) (omega (arith, below.0))
        c.2 below.1) [
          | inl (t, (zs, split)) ↦ inl (rw (e, wrap, at) t, (zs, rw (split, same) refl))
          | inr (f, differs) ↦ inr (rw (e, wrap, at) f, λ w. differs (w.0, tail_injective w.1))
        ]
  | no differ ↦
      let e : (b == q) ≡ false = ground arith in
      inr (rw e refl, λ w. differ (sym (head_injective w.1)))
]

-- A run is at the front of the list or further on.
HasRun-front :
    (bs k x : ℕ) (xs : List ℕ)
    → HasRun bs (suc k) (x ∷ xs)
    → Begins (x + bs) bs k xs ⊎ HasRun bs (suc k) xs
unfolding blocks
HasRun-front bs k x xs ([], p, r, e) =
    let same : x ≡ p = head_injective e in inl (r, rw same (tail_injective e))
HasRun-front bs k x xs (y ∷ l, p, r, e) = inr (l, p, r, tail_injective e)

pub no_run : (bs k : ℕ) → HasRun bs (suc k) [] → ⊥
unfolding blocks
no_run bs k ([], p, r, e) = cc
no_run bs k (y ∷ l, p, r, e) = cc

module _ (m : Mem) (bs k : ℕ) (k_lt : suc k < 2 ^ 32) where
  abbrev Found : ℕ → ℕ → List ℕ → Type 0
  Found fuel x xs =
      (l : List ℕ) × (p : ℕ) × (r : List ℕ) × (xs ≡ l ++ (blocks p bs (suc k) ++ r))
      × (scan fuel m bs (suc k) x ≡ some p)

  abbrev Missing : ℕ → ℕ → List ℕ → Type 0
  Missing fuel x xs = (scan fuel m bs (suc k) x ≡ some null) × (HasRun bs (suc k) xs → ⊥)

  -- One step of the search, given the outcome of the rest
  scan_step :
      (fuel x : ℕ) (xs : List ℕ)
      → Chain m x (x ∷ xs)
      → All (Below bs) (x ∷ xs)
      → ((xs ≡ []) × (load32 m x ≡ null))
        ⊎ ((load32 m x ≢ null) × (Found fuel (load32 m x) xs ⊎ Missing fuel (load32 m x) xs))
      → Found (suc fuel) x (x ∷ xs) ⊎ Missing (suc fuel) x (x ∷ xs)
  unfolding scan blocks
  scan_step fuel x xs c below again =
      let wrap : add32 x bs ≡ x + bs = omega (arith, below.0) in
      let left : sub32 (suc k) 1 ≡ k = omega arith in
      elim (consecutive_cases m bs (x + bs) (load32 m x) k xs (omega (arith, c.1))
        (omega (arith, below.0)) c.2 below.1) [
          | inl (t, (zs, split)) ↦ inl ([], x, zs, ap (λ l. x ∷ l) split, rw (wrap, left, t) refl)
          | inr (f, differs) ↦ elim again [
            | inl (none_left, ends) ↦
                let z : (load32 m x == null) ≡ true = ground (arith, ends) in
                inr (
                  rw (wrap, left, f, z) refl,
                  λ w. elim (HasRun-front bs k x xs w) [
                    | inl b ↦ differs b
                    | inr v ↦ no_run bs k (subst (HasRun bs (suc k)) none_left v)
                  ],
                )
            | inr (goes_on, inl (l, p, r, split, found)) ↦
                let z : (load32 m x == null) ≡ false = ground (arith, goes_on) in
                inl (x ∷ l, p, r, ap (λ t. x ∷ t) split, rw (wrap, left, f, z) found)
            | inr (goes_on, inr (none_found, missing)) ↦
                let z : (load32 m x == null) ≡ false = ground (arith, goes_on) in
                inr (
                  rw (wrap, left, f, z) none_found,
                  λ w. elim (HasRun-front bs k x xs w) [ inl b ↦ differs b | inr v ↦ missing v ],
                )
          ]
        ]

  -- The search finds the first run, or there is none; one step of fuel for each block is enough.
  pub scan_cases :
      (fuel x : ℕ) (xs : List ℕ)
      → length (x ∷ xs) ≤ fuel
      → Chain m x (x ∷ xs)
      → All (Below bs) (x ∷ xs)
      → Found fuel x (x ∷ xs) ⊎ Missing fuel x (x ∷ xs)
  scan_cases zero x xs fuel_le c below = absurd (omega arith)
  scan_cases (suc fuel) x [] fuel_le c below = scan_step fuel x [] c below (inl (refl, c.2))
  scan_cases (suc fuel) x (y ∷ ys) fuel_le c below =
      let to : load32 m x ≡ y = c.2.0 in
      let again = scan_cases fuel y ys (omega arith) (rw to at c.2) below.1 in
      scan_step fuel x (y ∷ ys) c below (inr (rw to (c.2.1, again)))

-- The search for the block before `z` ends at it.
pub predecessor_lem :
    (m : Mem) (fuel z prev curr : ℕ) (l : List ℕ) (y : ℕ) (r : List ℕ)
    → length (l ++ (y ∷ z ∷ r)) ≤ fuel
    → Chain m curr (l ++ (y ∷ z ∷ r))
    → All (λ x. x ≢ z) (l ++ (y ∷ []))
    → predecessor fuel m z prev curr ≡ some y
unfolding predecessor
predecessor_lem m zero z prev curr [] y r fuel_le c differ = absurd (omega arith)
predecessor_lem m (suc zero) z prev curr [] y r fuel_le c differ = absurd (omega arith)
predecessor_lem m (suc (suc fuel)) z prev curr [] y r fuel_le c differ =
    let e : (curr == null) ≡ false = ground (arith, c.0, c.1) in
    let f : (curr == z) ≡ false = ground (arith, c.0, differ.0) in
    let to : load32 m y ≡ z = c.2.0 in
    let g : (z == null) ≡ false = ground (arith, c.2.0, c.2.1) in
    let h : (z == z) ≡ true = ground arith in rw (e, f, c.0, to, g, h) refl
predecessor_lem m zero z prev curr (x ∷ l) y r fuel_le c differ = absurd (omega arith)
predecessor_lem m (suc fuel) z prev curr (x ∷ l) y r fuel_le c differ =
    let e : (curr == null) ≡ false = ground (arith, c.0, c.1) in
    let f : (curr == z) ≡ false = ground (arith, c.0, differ.0) in
    let at : curr ≡ x = c.0 in
    rw (e, f, at) (predecessor_lem m fuel z x (load32 m x) l y r (omega arith) c.2 differ.1)
