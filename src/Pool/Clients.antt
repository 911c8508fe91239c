-- ===== src/Pool/Clients.antt =====
-- A pool of driver/PoolAllocator.c over any sequence of calls, with clients that write into the
-- blocks that they hold.
use rpi_vk_driver.Base.{
  ℕ, ◌/◌, ◌^◌, ◌≤◌, ◌<◌, ◌≡◌, refl, ◌≢◌, ◌↔◌, List, [], ◌∷◌, ◌++◌, arith, length, All, All-mono,
  sym, subst, ap, ◌∙◌, ◌==◌, false, ◌+◌,
}
use rpi_vk_driver.Memory.{Mem, null, SameOutside, SameInside, load32-store32_self}
use rpi_vk_driver.FreeList.{Apart, Separate, Inside, Chain-frame, Cross-middle, blocks}
use rpi_vk_driver.Pool.{Pool, create, allocate, free}
use rpi_vk_driver.Pool.Invariant.{
  IsBuffer, Holds, create-Holds, allocate-Holds, allocate-empty, free-Holds,
}

-- The memory, the pool, and the blocks that clients hold.
pub record Shared : Type 0 where
  pub mem : Mem
  pub pool : Pool
  pub live : List ℕ

pub data Step : Shared → Shared → Type 0 where
  -- `poolAllocate` finds a block
  take_block :
      (s : Shared)
      → (allocate s.mem s.pool).0 ≢ null
      → Step s
          (record s { pool = (allocate s.mem s.pool).1; live = (allocate s.mem s.pool).0 ∷ s.live })
  -- `poolAllocate` finds none
  find_none :
      (s : Shared)
      → (allocate s.mem s.pool).0 ≡ null
      → Step s (record s { pool = (allocate s.mem s.pool).1 })
  -- `poolFree` of a block that the client holds
  give_back :
      (s : Shared) (l : List ℕ) (p : ℕ) (r : List ℕ)
      → s.live ≡ l ++ (p ∷ r)
      → Step s
          (record { mem = (free s.mem s.pool p).0; pool = (free s.mem s.pool p).1; live = l ++ r })
  -- a client writes inside a block that it holds
  write_block :
      (s : Shared) (l : List ℕ) (p : ℕ) (r : List ℕ) (m : Mem)
      → s.live ≡ l ++ (p ∷ r)
      → SameOutside p (p + s.pool.block_size) s.mem m
      → Step s (record s { mem = m })

pub data Reach (s : Shared) : Shared → Type 0 where
  here : Reach s s
  next : {t u : Shared} → Reach s t → Step t u → Reach s u

-- The pool still has the geometry that it was created with, and some free list.
pub record IsSound (b bs size : ℕ) (s : Shared) : Type 0 where
  pub same_buf : s.pool.buf ≡ b
  pub same_block : s.pool.block_size ≡ bs
  pub same_size : s.pool.size ≡ size
  pub unused : List ℕ
  pub holds : Holds s.mem s.pool unused s.live

unfoldable pub started : Mem → ℕ → ℕ → ℕ → Shared
started m b bs s = record { mem = (create m b bs s).0; pool = (create m b bs s).1; live = [] }

started-IsSound : (m : Mem) (b bs s : ℕ) → IsBuffer b bs s → IsSound b bs s (started m b bs s)
unfolding started create
started-IsSound m b bs s h = record {
  same_buf = refl;
  same_block = refl;
  same_size = refl;
  unused = blocks b bs (s / bs);
  holds = (create-Holds m b bs s h).0;
}

-- `allocate` keeps the geometry.
geometry-allocate :
    (m : Mem) (pa : Pool)
    → ((allocate m pa).1.buf ≡ pa.buf)
      × ((allocate m pa).1.block_size ≡ pa.block_size)
      × ((allocate m pa).1.size ≡ pa.size)
unfolding allocate
geometry-allocate m pa = (ground arith, ground arith, ground arith)

-- A write inside a live block leaves the pool as it was.
write-Holds :
    (m m' : Mem) (pa : Pool) (unused l : List ℕ) (p : ℕ) (r : List ℕ)
    → Holds m pa unused (l ++ (p ∷ r))
    → SameOutside p (p + pa.block_size) m m'
    → Holds m' pa unused (l ++ (p ∷ r))
write-Holds m m' pa unused l p r h same =
    let across = Cross-middle pa.block_size unused l p r h.cross_apart in
    record {
      buffer = h.buffer;
      chain = Chain-frame m m' pa.next_free_block unused h.chain (
          All-mono (Apart pa.block_size p) (λ x. SameInside x (x + 4) m m')
            (λ x away a lo hi. same a (omega (arith, h.buffer.room_for_link))) unused across.0);
      unused_inside = h.unused_inside;
      live_inside = h.live_inside;
      unused_apart = h.unused_apart;
      live_apart = h.live_apart;
      cross_apart = h.cross_apart;
      count = h.count;
    }

allocate-cases :
    (m : Mem) (pa : Pool) (unused live : List ℕ)
    → Holds m pa unused live
    → ((allocate m pa).0 ≡ null) ↔ (length live ≡ pa.size / pa.block_size)
allocate-cases m pa [] live h =
    ((λ e. omega (arith, h.count)), (λ e. ap (λ (q : ℕ × Pool). q.0) (allocate-empty m pa live h)))
allocate-cases m pa (x ∷ xs) live h =
    let got = allocate-Holds m pa x xs live h in
    ((λ e. absurd (h.chain.1 (sym got.0 ∙ e))), (λ e. absurd (omega (arith, h.count))))

take-Holds :
    (m : Mem) (pa : Pool) (unused live : List ℕ)
    → Holds m pa unused live
    → (allocate m pa).0 ≢ null
    → (rest : List ℕ) × Holds m (allocate m pa).1 rest ((allocate m pa).0 ∷ live)
take-Holds m pa [] live h some_block =
    absurd (some_block (ap (λ (q : ℕ × Pool). q.0) (allocate-empty m pa live h)))
take-Holds m pa (x ∷ xs) live h some_block =
    let got = allocate-Holds m pa x xs live h in
    (xs, subst (λ q. Holds m (allocate m pa).1 xs (q ∷ live)) (sym got.0) got.1)

none-Holds :
    (m : Mem) (pa : Pool) (unused live : List ℕ)
    → Holds m pa unused live
    → (allocate m pa).0 ≡ null
    → (rest : List ℕ) × Holds m (allocate m pa).1 rest live
none-Holds m pa [] live h none_left =
    ([], subst (λ (q : ℕ × Pool). Holds m q.1 [] live) (sym (allocate-empty m pa live h)) h)
none-Holds m pa (x ∷ xs) live h none_left =
    absurd (h.chain.1 (sym (allocate-Holds m pa x xs live h).0 ∙ none_left))

module _ (b bs size : ℕ) where
  Step-IsSound : {s t : Shared} → Step s t → IsSound b bs size s → IsSound b bs size t
  Step-IsSound (take_block s some_block) i =
      let kept = geometry-allocate s.mem s.pool in
      let got = take-Holds s.mem s.pool i.unused s.live i.holds some_block in
      record {
        same_buf = kept.0 ∙ i.same_buf;
        same_block = kept.1 ∙ i.same_block;
        same_size = kept.2 ∙ i.same_size;
        unused = got.0;
        holds = got.1;
      }
  Step-IsSound (find_none s none_left) i =
      let kept = geometry-allocate s.mem s.pool in
      let got = none-Holds s.mem s.pool i.unused s.live i.holds none_left in
      record {
        same_buf = kept.0 ∙ i.same_buf;
        same_block = kept.1 ∙ i.same_block;
        same_size = kept.2 ∙ i.same_size;
        unused = got.0;
        holds = got.1;
      }
  Step-IsSound (give_back s l p r e) i =
      unfold free in
      record {
        same_buf = i.same_buf;
        same_block = i.same_block;
        same_size = i.same_size;
        unused = p ∷ i.unused;
        holds =
            (free-Holds s.mem s.pool i.unused l p r
              (subst (Holds s.mem s.pool i.unused) e i.holds)).0;
      }
  Step-IsSound (write_block s l p r m e same) i = record {
    same_buf = i.same_buf;
    same_block = i.same_block;
    same_size = i.same_size;
    unused = i.unused;
    holds = subst (Holds m s.pool i.unused) (sym e) (
        write-Holds s.mem m s.pool i.unused l p r (subst (Holds s.mem s.pool i.unused) e i.holds)
          same);
  }

  Reach-IsSound : {s t : Shared} → Reach s t → IsSound b bs size s → IsSound b bs size t
  Reach-IsSound here i = i
  Reach-IsSound (next r st) i = Step-IsSound st (Reach-IsSound r i)

-- Whatever sequence of allocations, frees and writes the clients make from a fresh pool: the
-- blocks that they hold lie inside the buffer and do not overlap, there are at most
-- `size / blockSize`, and `poolAllocate` returns the null pointer exactly when all are held.
pub reach-safe :
    (m : Mem) (b bs s : ℕ) (t : Shared)
    → IsBuffer b bs s
    → Reach (started m b bs s) t
    → All (Inside b s bs) t.live
      × Separate bs t.live
      × (length t.live ≤ s / bs)
      × (((allocate t.mem t.pool).0 ≡ null) ↔ (length t.live ≡ s / bs))
reach-safe m b bs s t h r =
    let i = Reach-IsSound b bs s r (started-IsSound m b bs s h) in
    let quotient : t.pool.size / t.pool.block_size ≡ s / bs =
      ap (λ x. x / t.pool.block_size) i.same_size ∙ ap (λ x. s / x) i.same_block in
    (
      rw (i.same_buf, i.same_block, i.same_size) at i.holds.live_inside,
      rw i.same_block at i.holds.live_apart,
      omega (arith, i.holds.count, quotient),
      rw quotient at (allocate-cases t.mem t.pool i.unused t.live i.holds),
    )

-- `poolAllocate` right after `poolFree` hands out the same block again, and the pool is as it was
-- before both calls.
pub allocate-free :
    (m : Mem) (pa : Pool) (p : ℕ)
    → p ≢ null
    → pa.next_free_block < 2 ^ 32
    → let (m', pa') = free m pa p in allocate m' pa' ≡ (p, pa)
unfolding allocate free
allocate-free m pa p ne small =
    let e : (p == null) ≡ false = ground arith in
    rw (e, load32-store32_self m p pa.next_free_block small)
