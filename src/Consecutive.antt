-- ===== src/Consecutive.antt =====
-- driver/ConsecutivePoolAllocator.c: runs of neighbouring blocks out of a caller's buffer, the free
-- blocks threaded into a list. A function that updates `*pa` or the buffer returns the new allocator
-- and memory. The walks along the list take as fuel one more than the number of blocks in the buffer
-- and return none when it is used up, where the code would not return; the asserts are hypotheses of
-- the theorems.
pub mod Keeps
pub mod Scan
pub mod Unlink
pub mod Allocate
pub mod Thread
pub mod Returned
pub mod Free
pub mod Clients
pub mod Safety
pub mod Grow
pub mod InPlace
pub mod Move
pub mod Contents
use rpi_vk_driver.Base.{
  ℕ, zero, suc, ◌/◌, Bool, true, false, Option, none, some, add32, sub32, mul32, u32_max, ltb, ◌==◌,
  if◌then◌else◌, ◌>>=◌,
}
use rpi_vk_driver.Memory.{Mem, null, load32, store32, memcpy}
use rpi_vk_driver.Pool.{link_blocks}

-- `ConsecutivePoolAllocator`
pub record Consecutive : Type 0 where
  pub buf : ℕ
  pub next_free_block : ℕ
  pub block_size : ℕ
  pub size : ℕ
  pub num_free_blocks : ℕ

-- `createConsecutivePoolAllocator`: the loop is that of `createPoolAllocator`.
unfoldable pub create : Mem → ℕ → ℕ → ℕ → Mem × Consecutive
create m b bs s =
    let (linked, last) = link_blocks m b bs (sub32 (s / bs) 1) in
    (
      store32 linked last null,
      record { buf = b; next_free_block = b; block_size = bs; size = s; num_free_blocks = s / bs },
    )

-- `destroyConsecutivePoolAllocator` leaves the count as it is.
unfoldable pub destroy : Consecutive → Consecutive
destroy pa = record pa { buf = null; next_free_block = null; block_size = 0; size = 0 }

abbrev pub walk_fuel : Consecutive → ℕ
walk_fuel pa = suc (pa.size / pa.block_size)

-- The inner loop: do the next `left` links lead to the blocks that follow in memory?
unfoldable pub consecutive : Mem → ℕ → ℕ → ℕ → ℕ → Bool
consecutive m bs next_block next_free zero = true
consecutive m bs next_block next_free (suc left) =
    let rest = consecutive m bs (add32 next_block bs) (load32 m next_free) left in
    if next_block == next_free then rest else false

-- The outer loop: the first block of a run of `n`, or the null pointer where the code returns -1.
unfoldable pub scan : ℕ → Mem → ℕ → ℕ → ℕ → Option ℕ
scan zero m bs n ptr = none
scan (suc fuel) m bs n ptr =
    let rest = scan fuel m bs n (load32 m ptr) in
    if consecutive m bs (add32 ptr bs) (load32 m ptr) (sub32 n 1)
    then some ptr
    else if load32 m ptr == null
    then some null
    else rest

-- The loop that looks for the block before `ptr`.
unfoldable pub predecessor : ℕ → Mem → ℕ → ℕ → ℕ → Option ℕ
predecessor zero m ptr prev curr = none
predecessor (suc fuel) m ptr prev curr =
    let rest = predecessor fuel m ptr curr (load32 m curr) in
    if curr == null then some prev else if curr == ptr then some prev else rest

-- The run at `ptr` leaves the free list, which goes on at `candidate`: the memory and the head.
unfoldable pub unlink : Mem → Consecutive → ℕ → ℕ → Option (Mem × ℕ)
unlink m pa ptr candidate =
    if pa.next_free_block == ptr
    then some (m, candidate)
    else predecessor (walk_fuel pa) m ptr pa.next_free_block pa.next_free_block >>= λ prev.
        some (store32 m prev candidate, pa.next_free_block)

-- `consecutivePoolAllocate`: an offset into the buffer, or -1.
unfoldable pub allocate : Mem → Consecutive → ℕ → Option (ℕ × Mem × Consecutive)
allocate m pa n =
    if pa.next_free_block == null
    then some (u32_max, m, pa)
    else scan (walk_fuel pa) m pa.block_size n pa.next_free_block >>= λ ptr.
        if ptr == null
        then some (u32_max, m, pa)
        else unlink m pa ptr (load32 m (add32 ptr (mul32 (sub32 n 1) pa.block_size)))
          >>= λ (m', head). some (
            sub32 ptr pa.buf,
            m',
            record pa { next_free_block = head; num_free_blocks = sub32 pa.num_free_blocks n },
          )

-- Links the `n` blocks from `p` on, and the last one to `tail`.
unfoldable pub thread_run : Mem → ℕ → ℕ → ℕ → ℕ → Mem
thread_run m p bs n tail =
    let (linked, last) = link_blocks m p bs (sub32 n 1) in store32 linked last tail

-- The body of the search in `consecutivePoolFree`: the run goes in after the block that it follows
-- in memory.
unfoldable pub insert_after : Mem → ℕ → ℕ → ℕ → ℕ → Bool → Mem × Bool
insert_after m bs p n list_ptr found =
    if add32 list_ptr bs == p
    then (
      let linked = store32 m list_ptr p in
          thread_run linked (load32 linked list_ptr) bs n (load32 m list_ptr),
      true,
    )
    else (m, found)

-- That search: the memory, and whether the run went in.
unfoldable pub free_walk : ℕ → Mem → ℕ → ℕ → ℕ → ℕ → Bool → Option (Mem × Bool)
free_walk zero m bs p n list_ptr found = none
free_walk (suc fuel) m bs p n list_ptr found =
    let (m', found') = insert_after m bs p n list_ptr found in
    let rest = free_walk fuel m' bs p n (load32 m' list_ptr) found' in
    if list_ptr == null then some (m, found) else rest

-- `consecutivePoolFree`
unfoldable pub free : Mem → Consecutive → ℕ → ℕ → Option (Mem × Consecutive)
free m pa p n =
    let more = add32 pa.num_free_blocks n in
    if pa.next_free_block == null
    then some (
      thread_run m p pa.block_size n null,
      record pa { next_free_block = p; num_free_blocks = more },
    )
    else free_walk (walk_fuel pa) m pa.block_size p n pa.next_free_block false >>= λ (m', found).
        if found
        then some (m', record pa { num_free_blocks = more })
        else some (
          thread_run m' p pa.block_size n pa.next_free_block,
          record pa { next_free_block = p; num_free_blocks = more },
        )

-- What the code makes of the list when it takes a block out: the memory and the head.
unfoldable pub without_next : Mem → ℕ → ℕ → ℕ → Mem × ℕ
without_next m head prev following =
    if prev == null
    then (m, if following == null then head else following)
    else (store32 m prev following, prev)

-- The search of `consecutivePoolReAllocate` for the block right behind the current memory: the
-- memory and the head without it, or nothing where it is not free.
unfoldable pub take_next : ℕ → Mem → ℕ → ℕ → ℕ → ℕ → Option (Option (Mem × ℕ))
take_next zero m candidate head prev list_ptr = none
take_next (suc fuel) m candidate head prev list_ptr =
    let rest = take_next fuel m candidate head list_ptr (load32 m list_ptr) in
    if list_ptr == null
    then some none
    else if list_ptr == candidate
    then some (some (without_next m head prev (load32 m list_ptr)))
    else rest

-- The part of `consecutivePoolReAllocate` that moves the memory to a new run.
unfoldable pub move_run : Mem → Consecutive → ℕ → ℕ → ℕ → Option (ℕ × Mem × Consecutive)
move_run m pa current curr n = allocate m pa n >>= λ (offset, m', pa').
    if offset == u32_max
    then some (u32_max, m', pa')
    else let fewer = record pa' { num_free_blocks = sub32 pa'.num_free_blocks (sub32 n curr) } in
      free (memcpy m' (add32 pa.buf offset) current (mul32 curr pa.block_size)) fewer current curr
      >>= λ (m'', pa''). some (offset, m'', pa'')

-- The attempt of `consecutivePoolReAllocate` to grow by the block behind the current memory
unfoldable pub grow_in_place : Mem → Consecutive → ℕ → ℕ → ℕ → Option (Option (Mem × ℕ))
grow_in_place m pa current curr n =
    let head = pa.next_free_block in
    if ltb (sub32 n curr) 2
    then take_next (walk_fuel pa) m (add32 current (mul32 pa.block_size curr)) head null head
    else some none

-- `consecutivePoolReAllocate`
unfoldable pub reallocate : Mem → Consecutive → ℕ → ℕ → ℕ → Option (ℕ × Mem × Consecutive)
reallocate m pa current curr n = grow_in_place m pa current curr n >>= λ taken. elim taken [
  | some (m', head) ↦ some (
    sub32 current pa.buf,
    m',
    record pa { next_free_block = head; num_free_blocks = sub32 pa.num_free_blocks 1 },
  )
  | none ↦ move_run m pa current curr n
]
