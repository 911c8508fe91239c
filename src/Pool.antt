-- ===== src/Pool.antt =====
-- driver/PoolAllocator.c: fixed-size blocks in a caller's buffer, the free ones threaded into a
-- list. A function that updates `*pa` or the buffer returns the new allocator and memory. The
-- asserts are no-ops in a release build, so the functions run without them; they are hypotheses
-- of the theorems.
pub mod Invariant
pub mod Clients
use rpi_vk_driver.Base.{ℕ, zero, suc, ◌/◌, add32, sub32, ◌==◌, if◌then◌else◌}
use rpi_vk_driver.Memory.{Mem, null, load32, store32}

pub record Pool : Type 0 where
  pub buf : ℕ
  pub next_free_block : ℕ
  pub block_size : ℕ
  pub size : ℕ

-- The loop that links each block to the next; it returns the last block's address.
unfoldable pub link_blocks : Mem → ℕ → ℕ → ℕ → Mem × ℕ
link_blocks m ptr bs zero = (m, ptr)
link_blocks m ptr bs (suc left) = link_blocks (store32 m ptr (add32 ptr bs)) (add32 ptr bs) bs left

-- `createPoolAllocator`. At a block size of 0, which the code asserts away, C divides by zero.
unfoldable pub create : Mem → ℕ → ℕ → ℕ → Mem × Pool
unfolding link_blocks
create m b bs s =
    let (linked, last) = link_blocks m b bs (sub32 (s / bs) 1) in
    (store32 linked last null, record { buf = b; next_free_block = b; block_size = bs; size = s })

-- `destroyPoolAllocator`: the memory itself is the caller's.
unfoldable pub destroy : Pool → Pool
destroy pa = record { buf = null; next_free_block = null; block_size = 0; size = 0 }

-- `poolAllocate`: the block, or the null pointer if none is free. The memory is only read.
unfoldable pub allocate : Mem → Pool → ℕ × Pool
allocate m pa =
    if pa.next_free_block == null
    then (null, pa)
    else (pa.next_free_block, record pa { next_free_block = load32 m pa.next_free_block })

-- `poolFree`
unfoldable pub free : Mem → Pool → ℕ → Mem × Pool
free m pa p = (store32 m p pa.next_free_block, record pa { next_free_block = p })
