-- ===== src/Consecutive/Clients.antt =====
-- A pool of driver/ConsecutivePoolAllocator.c over any sequence of calls, with clients that write
-- into the runs of blocks that they hold.
use rpi_vk_driver.Base.{
  ℕ, suc, ◌+◌, ◌*◌, ◌/◌, ◌^◌, ◌<◌, ◌≡◌, refl, ◌≢◌, List, [], ◌∷◌, ◌++◌, some, sym, ap, ◌∙◌, u32_max,
  append_assoc,
}
use rpi_vk_driver.Memory.{Mem, SameOutside}
use rpi_vk_driver.FreeList.{Cross, Chain-frame, blocks}
use rpi_vk_driver.FreeList.Runs.{Separate-left, Separate-Perm, Separate-Cross, Perm-return}
use rpi_vk_driver.Pool.Invariant.{IsBuffer}
use rpi_vk_driver.Consecutive.{Consecutive, create, allocate, free}
use rpi_vk_driver.Consecutive.Keeps.{Keeps, Keeps-Separate, create-Keeps}
use rpi_vk_driver.Consecutive.Unlink.{Spared-links}
use rpi_vk_driver.Consecutive.Thread.{run-Spared}

-- A run that a client holds: the address of its first block, and the number of further blocks.
abbrev pub Run : Type 0
Run = ℕ × ℕ

abbrev pub run_blocks : ℕ → List Run → List ℕ
run_blocks bs [] = []
run_blocks bs ((p, k) ∷ runs) = blocks p bs (suc k) ++ run_blocks bs runs

-- The memory, the pool, and the runs that clients hold.
pub record Shared : Type 0 where
  pub mem : Mem
  pub pool : Consecutive
  pub live : List Run

pub data Step : Shared → Shared → Type 0 where
  -- `consecutivePoolAllocate` returns an offset
  take_run :
      (s : Shared) (k offset : ℕ) (m : Mem) (pa : Consecutive)
      → suc k < 2 ^ 32
      → allocate s.mem s.pool (suc k) ≡ some (offset, m, pa)
      → offset ≢ u32_max
      → Step s (record { mem = m; pool = pa; live = (s.pool.buf + offset, k) ∷ s.live })
  -- `consecutivePoolAllocate` returns -1
  find_none :
      (s : Shared) (k : ℕ) (m : Mem) (pa : Consecutive)
      → suc k < 2 ^ 32
      → allocate s.mem s.pool (suc k) ≡ some (u32_max, m, pa)
      → Step s (record s { mem = m; pool = pa })
  -- `consecutivePoolFree` of a run that the client holds
  give_back :
      (s : Shared) (l : List Run) (p k : ℕ) (r : List Run) (m : Mem) (pa : Consecutive)
      → s.live ≡ l ++ ((p, k) ∷ r)
      → free s.mem s.pool p (suc k) ≡ some (m, pa)
      → Step s (record { mem = m; pool = pa; live = l ++ r })
  -- a client writes inside a run that it holds
  write_run :
      (s : Shared) (l : List Run) (p k : ℕ) (r : List Run) (m : Mem)
      → s.live ≡ l ++ ((p, k) ∷ r)
      → SameOutside p (p + suc k * s.pool.block_size) s.mem m
      → Step s (record s { mem = m })

pub data Reach (s : Shared) : Shared → Type 0 where
  here : Reach s s
  next : {t u : Shared} → Reach s t → Step t u → Reach s u

-- The pool has the geometry that it was created with, and some free list.
pub record IsSound (b bs size : ℕ) (s : Shared) : Type 0 where
  pub same_buf : s.pool.buf ≡ b
  pub same_block : s.pool.block_size ≡ bs
  pub same_size : s.pool.size ≡ size
  pub unused : List ℕ
  pub keeps : Keeps s.mem s.pool unused (run_blocks bs s.live)

unfoldable pub started : Mem → ℕ → ℕ → ℕ → Shared
started m b bs s = record { mem = (create m b bs s).0; pool = (create m b bs s).1; live = [] }

pub started-IsSound :
    (m : Mem) (b bs s : ℕ) → IsBuffer b bs s → b + s < 2 ^ 32 → IsSound b bs s (started m b bs s)
unfolding started create
started-IsSound m b bs s h top = record {
  same_buf = refl;
  same_block = refl;
  same_size = refl;
  unused = blocks b bs (s / bs);
  keeps = (create-Keeps m b bs s h top).0;
}

pub run_blocks-append :
    (bs : ℕ) (l r : List Run) → run_blocks bs (l ++ r) ≡ run_blocks bs l ++ run_blocks bs r
run_blocks-append bs [] r = refl
run_blocks-append bs ((p, k) ∷ l) r =
    ap (λ t. blocks p bs (suc k) ++ t) (run_blocks-append bs l r)
    ∙ sym (append_assoc (blocks p bs (suc k)) (run_blocks bs l) (run_blocks bs r))

-- A write inside a run that a client holds leaves the pool as it was.
pub write-Keeps :
    (m m' : Mem) (pa : Consecutive) (unused l : List ℕ) (p k : ℕ) (r : List ℕ)
    → Keeps m pa unused (l ++ (blocks p pa.block_size (suc k) ++ r))
    → SameOutside p (p + suc k * pa.block_size) m m'
    → Keeps m' pa unused (l ++ (blocks p pa.block_size (suc k) ++ r))
write-Keeps m m' pa unused l p k r h same =
    let bs = pa.block_size in
    let run = blocks p bs (suc k) in
    let apart = Separate-Perm bs (Perm-return [] unused l run r) (Keeps-Separate h) in
    let across : Cross bs run unused =
      Separate-Cross bs run unused (Separate-left bs (run ++ unused) (l ++ r) apart) in
    record {
      buffer = h.buffer;
      below_top = h.below_top;
      chain = Chain-frame m m' pa.next_free_block unused h.chain (
          Spared-links m m' bs unused h.buffer.room_for_link
            (run-Spared m m' bs p k unused h.buffer.room_for_link same across));
      shared_out = h.shared_out;
      counted = h.counted;
    }
