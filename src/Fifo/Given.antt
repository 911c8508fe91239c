-- ===== src/Fifo/Given.antt =====
-- What `fifoAdd` of driver/fifo.c leaves of the pools and the items.
use rpi_vk_driver.Base.{ℕ, ◌+◌, ◌≤◌, ◌<◌, ◌^◌, subst, ◌⊎◌, List, ◌∷◌, arith, All, All-mono, All-zip}
use rpi_vk_driver.Memory.{Mem, SameInside}
use rpi_vk_driver.FreeList.{Apart, Inside}
use rpi_vk_driver.Pool.Invariant.{Holds, allocate-Holds}
use rpi_vk_driver.Fifo.{Fifo}
use rpi_vk_driver.Fifo.Links.{IsFifo, Holds-frame, SameItem}
use rpi_vk_driver.Fifo.Written.{Written, taken, allocate-head}

module _ (m : Mem) (f : Fifo) (src e d : ℕ) (es ds ees dds : List ℕ)
    (h : IsFifo m f es ds (e ∷ ees) (d ∷ dds)) where
  n : ℕ
  n = f.data_size

  pub elem-Inside :
      (f.fifo_elem_buf.buf ≤ e) × (e + 12 ≤ f.fifo_elem_buf.buf + f.fifo_elem_buf.size)
  elem-Inside = omega (arith, h.elems.unused_inside.0, h.elem_size)

  pub item-Inside : (f.data_buf.buf ≤ d) × (d + f.data_size ≤ f.data_buf.buf + f.data_buf.size)
  item-Inside = omega (arith, h.items.unused_inside.0, h.item_size)

  pub blocks-apart : (e + 12 ≤ d) ⊎ (d + f.data_size ≤ e)
  blocks-apart = omega (arith, elem-Inside, item-Inside, h.pools_apart)

  pub item-small : d < 2 ^ 32
  item-small =
      omega
        (arith, item-Inside, h.items.buffer.in_memory, h.items.buffer.room_for_link, h.item_size)

  pub elem-small : e < 2 ^ 32
  elem-small = omega (arith, elem-Inside, h.elems.buffer.in_memory)

  module _ (m' : Mem) (first back : ℕ) (w : Written m m' e d f.data_size src first back)
      (low : f.fifo_elem_buf.buf ≤ back)
      (high : back + 4 ≤ f.fifo_elem_buf.buf + f.fifo_elem_buf.size) where
    -- a block of the items' pool apart from the new one
    item-spared :
        (y : ℕ)
        → Inside f.data_buf.buf f.data_buf.size f.data_buf.block_size y
          × Apart f.data_buf.block_size d y
        → SameInside y (y + f.data_size) m m'
    item-spared y h' a lo hi =
        let inside : (f.data_buf.buf ≤ a) × (a < f.data_buf.buf + f.data_buf.size) =
          omega (arith, h'.0, h.item_size) in
        w.others a (omega (arith, h'.1, h.item_size))
          (omega (arith, inside, elem-Inside, h.pools_apart)) (omega (arith, inside, h.pools_apart))

    -- a block of the elements' pool apart from the new one and from the word at `back`
    pub elem-spared :
        (y k : ℕ)
        → k ≤ 12
        → Inside f.fifo_elem_buf.buf f.fifo_elem_buf.size f.fifo_elem_buf.block_size y
          × Apart f.fifo_elem_buf.block_size e y
        → (y + 12 ≤ back) ⊎ (back + 4 ≤ y)
        → SameInside y (y + k) m m'
    elem-spared y k le h' clear a lo hi =
        let inside : (f.fifo_elem_buf.buf ≤ a) × (a < f.fifo_elem_buf.buf + f.fifo_elem_buf.size) =
          omega (arith, h'.0, h.elem_size) in
        w.others a (omega (arith, inside, item-Inside, h.pools_apart))
          (omega (arith, h'.1, h.elem_size)) (omega arith)

    pub items-kept : All (SameItem m m' f.data_size) ds
    items-kept =
        All-mono
          (λ y.
            Inside f.data_buf.buf f.data_buf.size f.data_buf.block_size y
            × Apart f.data_buf.block_size d y)
          (SameItem m m' f.data_size) item-spared ds
          (All-zip (Inside f.data_buf.buf f.data_buf.size f.data_buf.block_size)
            (Apart f.data_buf.block_size d) ds h.items.live_inside h.items.cross_apart.0)

    pub items-Holds : Holds m' (taken m f e d).data_buf dds (d ∷ ds)
    items-Holds =
        Holds-frame m m' (taken m f e d).data_buf dds (d ∷ ds)
          (subst (λ (r : ℕ × _). Holds m r.1 dds (d ∷ ds))
            (allocate-head m f.data_buf d dds ds h.items)
            (allocate-Holds m f.data_buf d dds ds h.items).1)
          (All-mono
            (λ y.
              Inside f.data_buf.buf f.data_buf.size f.data_buf.block_size y
              × Apart f.data_buf.block_size d y)
            (λ y. SameInside y (y + 4) m m')
            (λ y h' a lo hi.
              item-spared y h' a lo (omega (arith, h.items.buffer.room_for_link, h.item_size)))
            dds
            (All-zip (Inside f.data_buf.buf f.data_buf.size f.data_buf.block_size)
              (Apart f.data_buf.block_size d) dds h.items.unused_inside.1 h.items.unused_apart.0))

    pub elems-Holds :
        All (λ y. (y + 12 ≤ back) ⊎ (back + 4 ≤ y)) ees
        → Holds m' (taken m f e d).fifo_elem_buf ees (e ∷ es)
    elems-Holds clear =
        let In = Inside f.fifo_elem_buf.buf f.fifo_elem_buf.size f.fifo_elem_buf.block_size in
        let Off = Apart f.fifo_elem_buf.block_size e in
        Holds-frame m m' (taken m f e d).fifo_elem_buf ees (e ∷ es)
          (subst (λ (r : ℕ × _). Holds m r.1 ees (e ∷ es))
            (allocate-head m f.fifo_elem_buf e ees es h.elems)
            (allocate-Holds m f.fifo_elem_buf e ees es h.elems).1)
          (All-mono (λ y. (In y × Off y) × ((y + 12 ≤ back) ⊎ (back + 4 ≤ y)))
            (λ y. SameInside y (y + 4) m m') (λ y h'. elem-spared y 4 (omega arith) h'.0 h'.1) ees
            (All-zip (λ y. In y × Off y) (λ y. (y + 12 ≤ back) ⊎ (back + 4 ≤ y)) ees
              (All-zip In Off ees h.elems.unused_inside.1 h.elems.unused_apart.0) clear))
