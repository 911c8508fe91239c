-- ===== src/Command/Batch.antt =====
-- Loops over command buffers (driver/command.c): a step for each of a batch of `vkQueueSubmit`, and
-- `vkResetCommandPool` for each of a pool.
use rpi_vk_driver.Base.{
  ℕ, zero, suc, ◌+◌, ◌/◌, ◌<◌, ◌≡◌, ◌≢◌, refl, sym, ◌∙◌, inl, inr, Bool, true, false, List, [], ◌∷◌,
  ◌==◌, if◌then◌else◌, arith, Bool-cases, ◌&◌, some, length,
}
use native.Mathlib.Decide.{ℕ_discrete}
use rpi_vk_driver.Memory.{Mem, null, load32}
use rpi_vk_driver.FreeList.{Chain, blocks}
use rpi_vk_driver.Pool.{Pool}
use rpi_vk_driver.Pool.Invariant.{Holds}
use rpi_vk_driver.Command.{
  State, CommandBuffer, Buffers, begin, put_buffer, submit_begin, submit_end, each_buffer,
  is_executable, is_pending, in_free_chain, reset_blocks, reset_pool,
}

-- The address is one of the list's.
abbrev pub member : ℕ → List ℕ → Bool
member a [] = false
member a (p ∷ ps) = if a == p then true else member a ps

pub put_buffer_self : (bufs : Buffers) (p : ℕ) (cb : CommandBuffer) → put_buffer bufs p cb p ≡ cb
unfolding put_buffer
put_buffer_self bufs p cb = let e : (p == p) ≡ true = ground arith in rw e refl

pub put_buffer_other :
    (bufs : Buffers) (p a : ℕ) (cb : CommandBuffer) → a ≢ p → put_buffer bufs p cb a ≡ bufs a
unfolding put_buffer
put_buffer_other bufs p a cb ne = let e : (a == p) ≡ false = ground arith in rw e refl

module _ (f : CommandBuffer → CommandBuffer) (same : (cb : CommandBuffer) → f (f cb) ≡ f cb) where
  -- A step that may be repeated, taken for each address of a list, in which some may come twice
  pub each_buffer_lem :
      (ps : List ℕ) (bufs : Buffers) (a : ℕ)
      → each_buffer f ps bufs a ≡ (if member a ps then f (bufs a) else bufs a)
  unfolding each_buffer
  each_buffer_lem [] bufs a = refl
  each_buffer_lem (p ∷ ps) bufs a =
      let rest = each_buffer_lem ps (put_buffer bufs p (f (bufs p))) a in
      elim (ℕ_discrete a p) [
        | yes e ↦
            let t : (a == p) ≡ true = ground arith in
            let at = put_buffer_self bufs p (f (bufs p)) in
            rw t (rest ∙ rw (e, at) (settled (member p ps) (bufs p)))
        | no ne ↦
            let t : (a == p) ≡ false = ground arith in
            rw (t, sym (put_buffer_other bufs p a (f (bufs p)) ne)) rest
      ]
    where
      settled : (b : Bool) (cb : CommandBuffer) → (if b then f (f cb) else f cb) ≡ f cb
      settled true cb = same cb
      settled false cb = refl

pub begin_twice : (cb : CommandBuffer) → submit_begin (submit_begin cb) ≡ submit_begin cb
unfolding submit_begin
begin_twice cb = elim (Bool-cases (is_executable cb.state)) [
  | inl t ↦ rw t refl
  | inr f ↦ rw (f, f) refl
]

pub end_twice : (cb : CommandBuffer) → submit_end (submit_end cb) ≡ submit_end cb
unfolding submit_end
end_twice cb = elim (Bool-cases (is_pending cb.state)) [
  | inl t ↦ elim (Bool-cases ((cb.usage_flags & 1) == 0)) [
    | inl e ↦ rw (t, e) refl
    | inr e ↦ rw (t, e) refl
  ]
  | inr f ↦ rw (f, f) refl
]

-- The search along the free list finds the blocks of the list.
in_free_chain_lem :
    (m : Mem) (c fuel d : ℕ) (xs : List ℕ)
    → length xs < fuel
    → Chain m d xs
    → in_free_chain fuel m c d ≡ some (member c xs)
unfolding in_free_chain
in_free_chain_lem m c zero d xs fuel_lt ch = absurd (omega arith)
in_free_chain_lem m c (suc fuel) d [] fuel_lt ch =
    let e : (d == null) ≡ true = ground arith in rw e refl
in_free_chain_lem m c (suc fuel) d (x ∷ xs) fuel_lt ch =
    let e : (d == null) ≡ false = ground (arith, ch.0, ch.1) in
    let at : d ≡ x = ch.0 in
    let rest = in_free_chain_lem m c fuel (load32 m x) xs (omega arith) ch.2 in
    elim (Bool-cases (c == x)) [ inl t ↦ rw (e, at, t) refl | inr f ↦ rw (e, at, f) rest ]

abbrev restart : CommandBuffer → CommandBuffer
restart cb = record cb { state = State.initial }

-- The store after one block, at that block and elsewhere
abbrev after_block : Bool → Buffers → ℕ → Buffers
after_block is_free bufs c = if is_free then bufs else put_buffer bufs c (restart (bufs c))

after_block_self :
    (is_free : Bool) (bufs : Buffers) (c : ℕ)
    → after_block is_free bufs c c ≡ (if is_free then bufs c else restart (bufs c))
after_block_self true bufs c = refl
after_block_self false bufs c = put_buffer_self bufs c (restart (bufs c))

after_block_other :
    (is_free : Bool) (bufs : Buffers) (c a : ℕ) → a ≢ c → after_block is_free bufs c a ≡ bufs a
after_block_other true bufs c a ne = refl
after_block_other false bufs c a ne = put_buffer_other bufs c a (restart (bufs c)) ne

restart_twice :
    (again is_free : Bool) (cb : CommandBuffer)
    → let one = if is_free then cb else restart cb in
      (if again then (if is_free then one else restart one) else one) ≡ one
restart_twice true true cb = refl
restart_twice true false cb = refl
restart_twice false is_free cb = refl

-- The loop over the blocks from `c` on
reset_blocks_lem :
    (left : ℕ) (m : Mem) (pa : Pool) (unused : List ℕ) (c : ℕ) (bufs : Buffers)
    → Chain m pa.next_free_block unused
    → length unused < suc (pa.size / pa.block_size)
    → (bufs' : Buffers) × (reset_blocks left m pa c bufs ≡ some bufs')
      × ((a : ℕ)
          → bufs' a ≡ (
              if member a (blocks c pa.block_size left)
              then (if member a unused then bufs a else restart (bufs a))
              else bufs a))
unfolding reset_blocks blocks
reset_blocks_lem zero m pa unused c bufs ch fuel_lt = (bufs, refl, λ a. refl)
reset_blocks_lem (suc left) m pa unused c bufs ch fuel_lt =
    let is_free = member c unused in
    let next : Buffers = after_block is_free bufs c in
    let (bufs', computed, at) =
      reset_blocks_lem left m pa unused (c + pa.block_size) next ch fuel_lt in
    (
      bufs',
      rw
          (in_free_chain_lem m c (suc (pa.size / pa.block_size)) pa.next_free_block unused fuel_lt
            ch)
          computed,
      λ a. at a ∙ elim (ℕ_discrete a c) [
        | yes e ↦
            let t : (c == c) ≡ true = ground arith in
            rw (e, t, after_block_self is_free bufs c)
              (restart_twice (member c (blocks (c + pa.block_size) pa.block_size left)) is_free
                (bufs c))
        | no ne ↦
            let t : (a == c) ≡ false = ground arith in
            rw (t, after_block_other is_free bufs c a ne) refl
      ],
    )

-- `vkResetCommandPool` on a well-formed pool returns: every block of the pool that is not free holds
-- a command buffer in the initial state, which keeps what was recorded in it, and nothing else has
-- changed.
pub reset_pool_lem :
    (m : Mem) (pa : Pool) (unused live : List ℕ) (bufs : Buffers)
    → Holds m pa unused live
    → (bufs' : Buffers) × (reset_pool m pa bufs ≡ some bufs')
      × ((a : ℕ)
          → bufs' a ≡ (
              if member a (blocks pa.buf pa.block_size (pa.size / pa.block_size))
              then (if member a unused then bufs a else record (bufs a) { state = State.initial })
              else bufs a))
unfolding reset_pool
reset_pool_lem m pa unused live bufs h =
    reset_blocks_lem (pa.size / pa.block_size) m pa unused pa.buf bufs h.chain
      (omega (arith, h.count))

-- A command buffer that is begun after `vkResetCommandPool` still has the commands recorded before.
pub begin_after_reset_pool :
    (m : Mem) (pa : Pool) (unused live : List ℕ) (bufs : Buffers) (a flags : ℕ) (reset_able : Bool)
    → Holds m pa unused live
    → member a (blocks pa.buf pa.block_size (pa.size / pa.block_size)) ≡ true
    → member a unused ≡ false
    → (bufs' : Buffers) × (reset_pool m pa bufs ≡ some bufs')
      × ((begin reset_able flags (bufs' a)).state ≡ State.recording)
      × ((begin reset_able flags (bufs' a)).lists ≡ (bufs a).lists)
unfolding begin
begin_after_reset_pool m pa unused live bufs a flags reset_able h in_pool in_use =
    let (bufs', computed, at) = reset_pool_lem m pa unused live bufs h in
    (bufs', computed, refl, rw (at a, in_pool, in_use) refl)
