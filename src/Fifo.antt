-- ===== src/Fifo.antt =====
-- driver/fifo.c: a queue of fixed-size items. The items and the links of the queue live in two
-- pools; a link is three words, `next`, `prev` and `data`.
pub mod Links
pub mod Written
pub mod Given
pub mod Add
pub mod Ends
pub mod Remove
pub mod Taken
pub mod Order
pub mod Create
pub mod Refines
use rpi_vk_driver.Base.{ℕ, ◌+◌, ◌*◌, add32, mul32, ◌==◌, ◌||◌, if◌then◌else◌}
use rpi_vk_driver.Memory.{Mem, null, load32, store32, memcpy}
use rpi_vk_driver.Pool

pub record Fifo : Type 0 where
  pub first : ℕ
  pub last : ℕ
  pub data_buf : Pool.Pool
  pub fifo_elem_buf : Pool.Pool
  pub data_size : ℕ
  pub max_elems : ℕ

-- `FifoElem`: the addresses of the fields of the element at `p`
abbrev pub next_at : ℕ → ℕ
next_at p = p

abbrev pub prev_at : ℕ → ℕ
prev_at p = p + 4

abbrev pub data_at : ℕ → ℕ
data_at p = p + 8

-- `sizeof(FifoElem)`
abbrev pub elem_bytes : ℕ
elem_bytes = 12

-- `createFifo`
unfoldable pub create : Mem → ℕ → ℕ → ℕ → ℕ → Mem × Fifo
create m data_mem elem_mem max_elems data_size =
    let (m1, data_buf) = Pool.create m data_mem data_size (mul32 max_elems data_size) in
    let (m2, elem_buf) = Pool.create m1 elem_mem elem_bytes (mul32 max_elems elem_bytes) in
    (
      m2,
      record {
        first = null;
        last = null;
        data_buf = data_buf;
        fifo_elem_buf = elem_buf;
        data_size = data_size;
        max_elems = max_elems;
      },
    )

-- `destroyFifo`
unfoldable pub destroy : Fifo → Fifo
destroy f = record f {
  first = null;
  last = null;
  data_buf = Pool.destroy f.data_buf;
  fifo_elem_buf = Pool.destroy f.fifo_elem_buf;
}

-- The links that `fifoAdd` sets for its new element `p`
unfoldable pub link_first : Mem → Fifo → ℕ → Mem × Fifo
link_first m f p =
    if f.first == null
    then (store32 (store32 m (prev_at p) null) (next_at p) null, record f { first = p; last = p })
    else (
      store32 (store32 (store32 m (next_at p) f.first) (prev_at p) null) (prev_at f.first) p,
      record f { first = p },
    )

-- `fifoAdd`: 1 and the queue with the item, or 0. The item and the pointer to it are written before
-- the code looks whether the pools had room.
unfoldable pub add : Mem → Fifo → ℕ → ℕ × Mem × Fifo
add m f item =
    let (data_ptr, data_buf) = Pool.allocate m f.data_buf in
    let (elem_ptr, elem_buf) = Pool.allocate m f.fifo_elem_buf in
    let copied = store32 (memcpy m data_ptr item f.data_size) (data_at elem_ptr) data_ptr in
    let taken : Fifo = record f { data_buf = data_buf; fifo_elem_buf = elem_buf } in
    let (linked, f') = link_first copied taken elem_ptr in
    if data_ptr == null || elem_ptr == null then (0, copied, taken) else (1, linked, f')

-- `fifoGetLast`
unfoldable pub get_last : Mem → Fifo → ℕ
get_last m f = if f.last == null then 0 else load32 m (data_at f.last)

-- `fifoGetFirst`
unfoldable pub get_first : Mem → Fifo → ℕ
get_first m f = if f.first == null then 0 else load32 m (data_at f.first)

-- What `fifoRemove` does to the links: the last element goes.
unfoldable pub unlink_last : Mem → Fifo → Mem × Fifo
unlink_last m f =
    let prev = load32 m (prev_at f.last) in
    if prev == null
    then (m, record f { last = prev; first = null })
    else (store32 m (next_at prev) null, record f { last = prev })

-- `fifoRemove`: 1 and the item, written to the address `item`, or 0 from an empty queue.
unfoldable pub remove : Mem → Fifo → ℕ → ℕ × Mem × Fifo
remove m f item =
    let tmp = f.last in
    let copied = memcpy m item (load32 m (data_at tmp)) f.data_size in
    let (unlinked, f') = unlink_last copied f in
    let (freed, data_buf) = Pool.free unlinked f'.data_buf (load32 unlinked (data_at tmp)) in
    let (freed', elem_buf) = Pool.free freed f'.fifo_elem_buf tmp in
    if f.last == null
    then (0, m, f)
    else (1, freed', record f' { data_buf = data_buf; fifo_elem_buf = elem_buf })
