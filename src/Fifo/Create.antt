-- ===== src/Fifo/Create.antt =====
-- `createFifo` of driver/fifo.c makes an empty queue.
use rpi_vk_driver.Base.{ℕ, ◌+◌, ◌*◌, ◌/◌, ◌≤◌, ◌<◌, ◌^◌, ◌≡◌, refl, ◌⊎◌, [], arith, All-mono, mul32}
use rpi_vk_driver.Memory.{Mem, SameInside}
use rpi_vk_driver.FreeList.{Inside, blocks}
use rpi_vk_driver.Pool
use rpi_vk_driver.Pool.Invariant.{IsBuffer, create-Holds}
use rpi_vk_driver.Fifo.{create, elem_bytes}
use rpi_vk_driver.Fifo.Links.{IsFifo, Holds-frame}

-- What `createFifo` needs of its two buffers
pub record AreBuffers (data_mem elem_mem max_elems data_size : ℕ) : Type 0 where
  pub items : IsBuffer data_mem data_size (max_elems * data_size)
  pub elems : IsBuffer elem_mem elem_bytes (max_elems * elem_bytes)
  pub items_small : max_elems * data_size < 2 ^ 32
  pub elems_small : max_elems * elem_bytes < 2 ^ 32
  pub apart :
      (elem_mem + max_elems * elem_bytes ≤ data_mem) ⊎ (data_mem + max_elems * data_size ≤ elem_mem)

-- `createFifo` on two buffers that do not overlap makes a well-formed empty queue with all blocks
-- free.
pub create-IsFifo :
    (m : Mem) (data_mem elem_mem max_elems data_size : ℕ)
    → AreBuffers data_mem elem_mem max_elems data_size
    → let (m', f) = create m data_mem elem_mem max_elems data_size in
      IsFifo m' f [] []
        (blocks elem_mem elem_bytes (max_elems * elem_bytes / elem_bytes))
        (blocks data_mem data_size (max_elems * data_size / data_size))
unfolding create Pool.create
create-IsFifo m data_mem elem_mem max_elems data_size b =
    let size_d : mul32 max_elems data_size ≡ max_elems * data_size = omega (arith, b.items_small) in
    let size_e : mul32 max_elems elem_bytes ≡ max_elems * elem_bytes =
      omega (arith, b.elems_small) in
    let (m1, pd) = Pool.create m data_mem data_size (max_elems * data_size) in
    let one = create-Holds m data_mem data_size (max_elems * data_size) b.items in
    let two = create-Holds m1 elem_mem elem_bytes (max_elems * elem_bytes) b.elems in
    rw (size_d, size_e)
      (record {
        elems = two.0;
        items =
            Holds-frame m1 (Pool.create m1 elem_mem elem_bytes (max_elems * elem_bytes)).0 pd
              (blocks data_mem data_size (max_elems * data_size / data_size)) [] one.0
              (All-mono (Inside data_mem (max_elems * data_size) data_size)
                (λ z.
                  SameInside z (z + 4) m1
                    (Pool.create m1 elem_mem elem_bytes (max_elems * elem_bytes)).0)
                (λ z inside a lo hi.
                  two.1 a (omega (arith, inside, b.items.room_for_link, b.apart)))
                (blocks data_mem data_size (max_elems * data_size / data_size))
                one.0.unused_inside);
        elem_size = refl;
        item_size = refl;
        pools_apart = b.apart;
        links = (refl, refl);
      })
