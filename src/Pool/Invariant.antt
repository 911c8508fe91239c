-- ===== src/Pool/Invariant.antt =====
-- What a pool's memory looks like between calls, and that each function of
-- driver/PoolAllocator.c keeps it so.
use rpi_vk_driver.Base.{
  ℕ, zero, suc, ◌+◌, ◌-◌, ◌*◌, ◌/◌, ◌^◌, ◌≤◌, ◌<◌, ◌≡◌, refl, ◌≢◌, List, [], ◌∷◌, ◌++◌, subst,
  arith, length, length-append, All, All-mono, All-middle, ◌∙◌, ap, sym, false, add32, sub32, ◌==◌,
}
use rpi_vk_driver.Memory.{
  Mem, null, load32, store32, SameOutside, SameInside, store32_other, load32_same,
  load32-store32_self,
}
use rpi_vk_driver.FreeList.{
  Chain, Apart, Separate, Cross, Inside, blocks, Chain-frame, Separate-middle, Cross-nil,
  Cross-grow, Cross-middle, blocks-Separate, blocks-Inside, length-blocks,
}
use rpi_vk_driver.Pool.{Pool, link_blocks, create, allocate, free}

pub mul-le_self : (q b : ℕ) → 4 ≤ b → q ≤ q * b
mul-le_self q b h = grind arith

-- What `createPoolAllocator` asserts of its arguments, on a 32-bit target, and that the buffer
-- does not wrap round the address space.
pub record IsBuffer (b bs s : ℕ) : Type 0 where
  pub not_null : b ≢ null
  pub room_for_link : 4 ≤ bs
  pub exact : s ≡ s / bs * bs
  pub at_least_one : bs ≤ s
  pub in_memory : b + s ≤ 2 ^ 32

-- The pool with free list `free` and blocks `live` out with clients.
pub record Holds (m : Mem) (pa : Pool) (unused live : List ℕ) : Type 0 where
  pub buffer : IsBuffer pa.buf pa.block_size pa.size
  pub chain : Chain m pa.next_free_block unused
  pub unused_inside : All (Inside pa.buf pa.size pa.block_size) unused
  pub live_inside : All (Inside pa.buf pa.size pa.block_size) live
  pub unused_apart : Separate pa.block_size unused
  pub live_apart : Separate pa.block_size live
  pub cross_apart : Cross pa.block_size unused live
  pub count : length unused + length live ≡ pa.size / pa.block_size

-- The memory after the loop of `createPoolAllocator` and the final store.
threaded : Mem → ℕ → ℕ → ℕ → Mem
threaded m p bs n = let (linked, last) = link_blocks m p bs n in store32 linked last null

threaded-suc :
    (m : Mem) (p bs n : ℕ)
    → p + bs < 2 ^ 32
    → threaded m p bs (suc n) ≡ threaded (store32 m p (p + bs)) (p + bs) bs n
unfolding threaded link_blocks
threaded-suc m p bs n h =
    let e : add32 p bs ≡ p + bs = omega arith in
    ap (λ q. let (l, z) = link_blocks (store32 m p q) q bs n in store32 l z null) e

-- The loop threads the blocks, and writes nowhere else.
threaded-Chain :
    (n : ℕ) (m : Mem) (p bs : ℕ)
    → p ≢ null
    → 4 ≤ bs
    → p + suc n * bs ≤ 2 ^ 32
    → Chain (threaded m p bs n) p (blocks p bs (suc n))
      × SameOutside p (p + suc n * bs) m (threaded m p bs n)
unfolding blocks
threaded-Chain zero m p bs ne fits room =
    unfold threaded link_blocks in
    (
      (refl, ne, load32-store32_self m p 0 (omega arith)),
      λ a out. store32_other m p 0 a (omega arith),
    )
threaded-Chain (suc n) m p bs ne fits room =
    let m' : Mem = store32 m p (p + bs) in
    let rest = threaded-Chain n m' (p + bs) bs (omega arith) fits (omega arith) in
    let final : Mem = threaded m' (p + bs) bs n in
    let link : load32 final p ≡ p + bs =
      load32_same m' final p (λ a lo hi. rest.1 a (omega arith))
      ∙ load32-store32_self m p (p + bs) (omega arith) in
    subst (λ g. Chain g p (blocks p bs (suc (suc n))) × SameOutside p (p + suc (suc n) * bs) m g)
      (sym (threaded-suc m p bs n (omega arith)))
      (
        (refl, ne, subst (λ q. Chain final q (blocks (p + bs) bs (suc n))) (sym link) rest.0),
        λ a out. rest.1 a (omega arith) ∙ store32_other m p (p + bs) a (omega arith),
      )

-- `createPoolAllocator` gives a pool of all the buffer's blocks, in order, none of them in use,
-- and writes nothing outside the buffer.
pub create-Holds :
    (m : Mem) (b bs s : ℕ)
    → IsBuffer b bs s
    → let (m', pa) = create m b bs s in
      Holds m' pa (blocks b bs (s / bs)) [] × SameOutside b (b + s) m m'
unfolding create threaded
create-Holds m b bs s h =
    let n : suc (s / bs - 1) ≡ s / bs = grind (arith, h.exact, h.room_for_link, h.at_least_one) in
    let room : suc (s / bs - 1) * bs ≡ s = rw n (sym h.exact) in
    let e : sub32 (s / bs) 1 ≡ s / bs - 1 = grind (arith, mul-le_self (s / bs) bs) in
    let linked = threaded-Chain (s / bs - 1) m b bs h.not_null h.room_for_link (omega arith) in
    rw e (
      record {
        buffer = h;
        chain = rw n at linked.0;
        unused_inside = blocks-Inside b s bs b (s / bs) (omega arith) (omega arith);
        live_inside = tt;
        unused_apart = blocks-Separate bs b (s / bs);
        live_apart = tt;
        cross_apart = Cross-nil bs (blocks b bs (s / bs));
        count = omega (arith, length-blocks b bs (s / bs));
      },
      rw room at linked.1,
    )

-- `poolAllocate` on a pool with a free block hands out the first one.
pub allocate-Holds :
    (m : Mem) (pa : Pool) (x : ℕ) (xs live : List ℕ)
    → Holds m pa (x ∷ xs) live
    → let (p, pa') = allocate m pa in (p ≡ x) × Holds m pa' xs (x ∷ live)
unfolding allocate
allocate-Holds m pa x xs live h =
    let e : (pa.next_free_block == null) ≡ false = ground arith in
    rw (e, h.chain.0)
      (
        refl,
        record {
          buffer = h.buffer;
          chain = h.chain.2;
          unused_inside = h.unused_inside.1;
          live_inside = (h.unused_inside.0, h.live_inside);
          unused_apart = h.unused_apart.1;
          live_apart = (h.cross_apart.0, h.live_apart);
          cross_apart = Cross-grow pa.block_size x xs live h.unused_apart.0 h.cross_apart.1;
          count = omega arith;
        },
      )

-- `poolAllocate` with no free block returns the null pointer and changes nothing.
pub allocate-empty :
    (m : Mem) (pa : Pool) (live : List ℕ) → Holds m pa [] live → allocate m pa ≡ (null, pa)
unfolding allocate
allocate-empty m pa live h = rw h.chain

-- The head of the free list is a 32-bit address.
next-lt :
    (m : Mem) (pa : Pool) (unused live : List ℕ)
    → Holds m pa unused live
    → pa.next_free_block < 2 ^ 32
next-lt m pa [] live h = omega arith
next-lt m pa (x ∷ xs) live h = omega arith

-- `poolFree` of a live block puts it at the front of the free list, and writes only its link.
pub free-Holds :
    (m : Mem) (pa : Pool) (unused l : List ℕ) (p : ℕ) (r : List ℕ)
    → Holds m pa unused (l ++ (p ∷ r))
    → let (m', pa') = free m pa p in Holds m' pa' (p ∷ unused) (l ++ r) × SameOutside p (p + 4) m m'
unfolding free
free-Holds m pa unused l p r h =
    let bs = pa.block_size in
    let m' : Mem = store32 m p pa.next_free_block in
    let inside = All-middle (Inside pa.buf pa.size bs) l p r h.live_inside in
    let across = Cross-middle bs unused l p r h.cross_apart in
    let among = Separate-middle bs l p r h.live_apart in
    let spared : All (λ x. SameInside x (x + 4) m m') unused =
      All-mono (Apart bs p) (λ x. SameInside x (x + 4) m m')
        (λ x away a lo hi. store32_other m p pa.next_free_block a (omega arith)) unused across.0 in
    (
      record {
        buffer = h.buffer;
        chain = (
          refl,
          omega arith,
          rw (load32-store32_self m p pa.next_free_block (next-lt m pa unused (l ++ (p ∷ r)) h))
              (Chain-frame m m' pa.next_free_block unused h.chain spared),
        );
        unused_inside = (inside.0, h.unused_inside);
        live_inside = inside.1;
        unused_apart = (across.0, h.unused_apart);
        live_apart = among.1;
        cross_apart = (among.0, across.1);
        count = omega (arith, length-append l (p ∷ r), length-append l r);
      },
      λ a out. store32_other m p pa.next_free_block a out,
    )
