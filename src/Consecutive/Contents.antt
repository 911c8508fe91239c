-- ===== src/Consecutive/Contents.antt =====
-- `consecutivePoolReAllocate` of driver/ConsecutivePoolAllocator.c on every branch: what the caller's
-- memory holds afterwards.
use native.Mathlib.Decide.{ℕ_discrete}
use rpi_vk_driver.Base.{
  ℕ, zero, suc, ◌+◌, ◌-◌, ◌*◌, ◌^◌, ◌≤◌, ◌<◌, ◌≡◌, refl, ◌≢◌, ◌⊎◌, inl, inr, List, [], ◌∷◌, ◌++◌,
  none, some, arith, length, All, sym, subst, ap, ◌∙◌, append_assoc, true, false, ◌==◌, ltb,
  Bool-cases, sub32, u32_max,
}
use rpi_vk_driver.Memory.{Mem, null, load32, store32, SameInside}
use rpi_vk_driver.FreeList.{Chain, Inside, Apart, blocks}
use rpi_vk_driver.FreeList.Runs.{last_cases, All-left, All-right, run-le, Separate-Cross}
use rpi_vk_driver.Consecutive.{Consecutive, take_next, grow_in_place, reallocate, walk_fuel}
use rpi_vk_driver.Consecutive.Keeps.{Keeps, Keeps-Inside, Keeps-Separate, fuel_enough}
use rpi_vk_driver.Consecutive.Scan.{HasRun}
use rpi_vk_driver.Consecutive.Unlink.{store-Spared}
use rpi_vk_driver.Consecutive.Grow.{candidate, starts}
use rpi_vk_driver.Consecutive.InPlace.{reallocate_first, reallocate_last, reallocate_later}
use rpi_vk_driver.Consecutive.Move.{run_bytes, reallocate_moves}

-- A block is in the list, or is not.
member_cases :
    (z : ℕ) (xs : List ℕ)
    → All (λ x. x ≢ z) xs ⊎ ((a : List ℕ) × (b : List ℕ) × (xs ≡ a ++ (z ∷ b)))
member_cases z [] = inl tt
member_cases z (x ∷ xs) = elim (ℕ_discrete x z) [
  | yes e ↦ inr ([], xs, ap (λ t. t ∷ xs) e)
  | no differ ↦ elim (member_cases z xs) [
    | inl others ↦ inl (differ, others)
    | inr (a, b, split) ↦ inr (x ∷ a, b, ap (λ t. x ∷ t) split)
  ]
]

take_none :
    (m : Mem) (fuel z head prev q : ℕ) (xs : List ℕ)
    → length xs < fuel
    → Chain m q xs
    → All (λ x. x ≢ z) xs
    → take_next fuel m z head prev q ≡ some none
unfolding take_next
take_none m zero z head prev q xs fuel_lt c differ = absurd (omega arith)
take_none m (suc fuel) z head prev q [] fuel_lt c differ =
    let e : (q == null) ≡ true = ground arith in rw e refl
take_none m (suc fuel) z head prev q (x ∷ xs) fuel_lt c differ =
    let e : (q == null) ≡ false = ground (arith, c.0, c.1) in
    let f : (q == z) ≡ false = ground (arith, c.0, differ.0) in
    let at : q ≡ x = c.0 in
    rw (e, f, at) (take_none m fuel z head x (load32 m x) xs (omega arith) c.2 differ.1)

first-Inside : (buf size bs p n : ℕ) → All (Inside buf size bs) (blocks p bs (suc n)) → buf ≤ p
unfolding blocks
first-Inside buf size bs p n h = h.0.0

module _ (m : Mem) (pa : Consecutive) (p c k : ℕ) where
  -- The memory is at `q`, inside the buffer, with what it held.
  abbrev pub Moves : Type 0
  Moves =
      (q : ℕ) × (m' : Mem) × (pa' : Consecutive) × (reallocate m pa p (suc c) (suc k)
        ≡ some (q - pa.buf, m', pa'))
      × (pa.buf ≤ q)
      × (q + suc k * pa.block_size ≤ pa.buf + pa.size)
      × ((i : ℕ) → i < suc c * pa.block_size → m' (q + i) ≡ m (p + i))

  -- It is not, as there is no room: -1, and nothing has changed.
  abbrev pub Stays : List ℕ → Type 0
  Stays unused =
      (reallocate m pa p (suc c) (suc k) ≡ some (u32_max, m, pa))
      × (HasRun pa.block_size (suc k) unused → ⊥)

  far_stays : c + 2 ≤ k → suc k < 2 ^ 32 → grow_in_place m pa p (suc c) (suc k) ≡ some none
  unfolding grow_in_place
  far_stays far k_lt = let e : ltb (sub32 (suc k) (suc c)) 2 ≡ false = ground arith in rw e refl

  module _ (unused l r : List ℕ)
      (h : Keeps m pa unused (l ++ (blocks p pa.block_size (suc c) ++ r))) where
    near_stays :
        All (λ x. x ≢ p + suc c * pa.block_size) unused
        → grow_in_place m pa p (suc c) (suc k) ≡ some none
    unfolding grow_in_place
    near_stays differ =
        let at = candidate m pa unused l p c r h in
        let none_there =
          take_none m (walk_fuel pa) (p + suc c * pa.block_size) pa.next_free_block null
            pa.next_free_block unused (fuel_enough h) h.chain differ in
        elim (Bool-cases (ltb (sub32 (suc k) (suc c)) 2)) [
          | inl t ↦ rw (t, at, none_there) refl
          | inr f ↦ rw f refl
        ]

    -- where it does not grow in place
    by_move :
        c ≤ k
        → suc k < 2 ^ 32
        → grow_in_place m pa p (suc c) (suc k) ≡ some none
        → Moves ⊎ Stays unused
    by_move le k_lt stays = elim (reallocate_moves m pa unused l p c r k h le k_lt stays) [
      | inr stays ↦ inr stays
      | inl (rest, q, m', pa', computed, bytes, keeps, count, same) ↦
          let inside : All (Inside pa.buf pa.size pa.block_size) (blocks q pa.block_size (suc k)) =
            rw (same.0, same.1, same.2) at
              (All-left (Inside pa'.buf pa'.size pa'.block_size) (blocks q pa.block_size (suc k))
                (l ++ r)
                (All-right (Inside pa'.buf pa'.size pa'.block_size) rest _ (Keeps-Inside keeps))) in
          inl (
            q,
            m',
            pa',
            computed,
            first-Inside pa.buf pa.size pa.block_size q k inside,
            run-le pa.buf pa.size pa.block_size q k inside,
            bytes,
          )
    ]

-- A store into the link of a free block spares the runs that clients hold.
link_spares :
    (m : Mem) (pa : Consecutive) (a : List ℕ) (y : ℕ) (b l : List ℕ) (p c : ℕ) (r : List ℕ) (v : ℕ)
    → Keeps m pa (a ++ (y ∷ b)) (l ++ (blocks p pa.block_size (suc c) ++ r))
    → SameInside p (p + suc c * pa.block_size) m (store32 m y v)
link_spares m pa a y b l p c r v h =
    let run = blocks p pa.block_size (suc c) in
    let cross = Separate-Cross pa.block_size (a ++ (y ∷ b)) (l ++ (run ++ r)) (Keeps-Separate h) in
    let away = (All-right (λ x. All (Apart pa.block_size x) (l ++ (run ++ r))) a (y ∷ b) cross).0 in
    run_bytes m (store32 m y v) pa.block_size p (suc c) (
      store-Spared m pa.block_size y v run h.buffer.room_for_link (
        All-left (Apart pa.block_size y) run r
          (All-right (Apart pa.block_size y) l (run ++ r) away)))

-- where the block behind the run is free
by_next :
    (m : Mem) (pa : Consecutive) (l : List ℕ) (p c : ℕ) (r a b : List ℕ)
    → Keeps m pa
        (a ++ ((p + suc c * pa.block_size) ∷ b))
        (l ++ (blocks p pa.block_size (suc c) ++ r))
    → suc (suc c) < 2 ^ 32
    → Moves m pa p c (suc c)
by_next m pa l p c r a b h k_lt =
    let free_block =
      All-right (Inside pa.buf pa.size pa.block_size) a ((p + suc c * pa.block_size) ∷ b) (
        All-left (Inside pa.buf pa.size pa.block_size) (a ++ ((p + suc c * pa.block_size) ∷ b)) _
          (Keeps-Inside h)) in
    at_place a b h free_block.0
  where
    in_place :
        (a b : List ℕ)
        → Keeps m pa
            (a ++ ((p + suc c * pa.block_size) ∷ b))
            (l ++ (blocks p pa.block_size (suc c) ++ r))
        → Inside pa.buf pa.size pa.block_size (p + suc c * pa.block_size)
        → (m' : Mem) (pa' : Consecutive)
        → reallocate m pa p (suc c) (suc (suc c)) ≡ some (p - pa.buf, m', pa')
        → SameInside p (p + suc c * pa.block_size) m m'
        → Moves m pa p c (suc c)
    in_place a b h inside m' pa' computed same = (
      p,
      m',
      pa',
      computed,
      starts m pa (a ++ ((p + suc c * pa.block_size) ∷ b)) l p c r h,
      omega (arith, inside.1),
      λ i lt. same (p + i) (omega arith) (omega arith),
    )

    at_place :
        (a b : List ℕ)
        → Keeps m pa
            (a ++ ((p + suc c * pa.block_size) ∷ b))
            (l ++ (blocks p pa.block_size (suc c) ++ r))
        → Inside pa.buf pa.size pa.block_size (p + suc c * pa.block_size)
        → Moves m pa p c (suc c)
    at_place [] [] h inside =
        in_place [] [] h inside m _ (reallocate_last m pa l p c r h k_lt).0 (λ x lo hi. refl)
    at_place [] (y ∷ ys) h inside =
        in_place [] (y ∷ ys) h inside m _ (reallocate_first m pa l p c r y ys h k_lt).0
          (λ x lo hi. refl)
    at_place (x ∷ a) b h inside = elim (last_cases (x ∷ a)) [
      | inl e ↦ cc
      | inr (ys, y, e) ↦
          let shape : (x ∷ a) ++ ((p + suc c * pa.block_size) ∷ b)
              ≡ ys ++ (y ∷ (p + suc c * pa.block_size) ∷ b) =
            ap (λ t. t ++ ((p + suc c * pa.block_size) ∷ b)) e
            ∙ append_assoc ys (y ∷ []) ((p + suc c * pa.block_size) ∷ b) in
          let h' = subst (λ t. Keeps m pa t (l ++ (blocks p pa.block_size (suc c) ++ r))) shape h in
          in_place (x ∷ a) b h inside _ _ (reallocate_later m pa l p c r ys y b h' k_lt).0
            (link_spares m pa ys y ((p + suc c * pa.block_size) ∷ b) l p c r _ h')
    ]

-- `consecutivePoolReAllocate` of `c + 1` blocks that a client holds to `k + 1`, for any growth,
-- returns. Either the memory is now inside the buffer with `k + 1` blocks of room and holds the bytes
-- that it held; or the call returns -1, nothing has changed, and there is no run of `k + 1` free
-- blocks.
pub reallocate_cases :
    (m : Mem) (pa : Consecutive) (unused l : List ℕ) (p c : ℕ) (r : List ℕ) (k : ℕ)
    → Keeps m pa unused (l ++ (blocks p pa.block_size (suc c) ++ r))
    → c < k
    → suc k < 2 ^ 32
    → Moves m pa p c k ⊎ Stays m pa p c k unused
reallocate_cases m pa unused l p c r k h more k_lt = elim (ℕ_discrete k (suc c)) [
  | no far ↦
      by_move m pa p c k unused l r h (omega arith) k_lt (far_stays m pa p c k (omega arith) k_lt)
  | yes one ↦ elim (member_cases (p + suc c * pa.block_size) unused) [
    | inl differ ↦
        by_move m pa p c k unused l r h (omega arith) k_lt
          (near_stays m pa p c k unused l r h differ)
    | inr (a, b, split) ↦ inl (
        subst (Moves m pa p c) (sym one) (
          by_next m pa l p c r a b
            (subst (λ t. Keeps m pa t (l ++ (blocks p pa.block_size (suc c) ++ r))) split h)
            (omega arith)))
  ]
]
