-- ===== src/Fifo/Taken.antt =====
-- What `fifoRemove` of driver/fifo.c leaves of the pools and the items.
use rpi_vk_driver.Base.{
  ℕ, ◌+◌, ◌≤◌, ◌<◌, ◌≡◌, ◌∙◌, subst, ◌⊎◌, List, [], ◌∷◌, ◌++◌, append-nil, arith, All, All-mono,
  All-zip, All-middle,
}
use rpi_vk_driver.Memory.{Mem, null, store32, store32_other, SameInside}
use rpi_vk_driver.FreeList.{Apart, Separate, Separate-middle, Cross-middle, Inside}
use rpi_vk_driver.Pool.Invariant.{Holds}
use rpi_vk_driver.Fifo.{Fifo}
use rpi_vk_driver.Fifo.Links.{IsFifo, SameItem}
use rpi_vk_driver.Fifo.Ends.{Holds-freed}
use rpi_vk_driver.Fifo.Remove.{Outside, Elsewhere, freed, emptier}

-- The four bytes of a store do not depend on the memory before it.
store32-agree : (m1 m2 : Mem) (p v a : ℕ) → p ≤ a → a < p + 4 → store32 m1 p v a ≡ store32 m2 p v a
unfolding store32
store32-agree m1 m2 p v a lo hi = ground arith

-- the block `p` of the elements' pool, or none
abbrev pub MayBe : ℕ → (ℕ → Type 0) → Type 0
MayBe p P = (p ≡ null) ⊎ P p

module _ (m : Mem) (f : Fifo) (out e d : ℕ) (es ds ue ud : List ℕ)
    (h : IsFifo m f (es ++ (e ∷ [])) (ds ++ (d ∷ [])) ue ud)
    (no_elem : Elsewhere f.fifo_elem_buf out f.data_size)
    (no_item : Elsewhere f.data_buf out f.data_size) where
  abbrev ebs : ℕ
  ebs = f.fifo_elem_buf.block_size

  abbrev dbs : ℕ
  dbs = f.data_buf.block_size

  pub elem-Inside :
      (f.fifo_elem_buf.buf ≤ e) × (e + 12 ≤ f.fifo_elem_buf.buf + f.fifo_elem_buf.size)
  elem-Inside = omega (
    arith,
    (All-middle (Inside f.fifo_elem_buf.buf f.fifo_elem_buf.size ebs) es e []
        h.elems.live_inside).0,
    h.elem_size,
  )

  pub item-Inside :
      (f.data_buf.buf ≤ d)
      × (d + f.data_size ≤ f.data_buf.buf + f.data_buf.size)
      × (4 ≤ f.data_size)
  item-Inside = omega (
    arith,
    (All-middle (Inside f.data_buf.buf f.data_buf.size dbs) ds d [] h.items.live_inside).0,
    h.item_size,
    h.items.buffer.room_for_link,
  )

  pub others-Inside : All (Inside f.fifo_elem_buf.buf f.fifo_elem_buf.size ebs) es
  others-Inside =
      subst (All (Inside f.fifo_elem_buf.buf f.fifo_elem_buf.size ebs)) (append-nil es)
        (All-middle (Inside f.fifo_elem_buf.buf f.fifo_elem_buf.size ebs) es e []
          h.elems.live_inside).1

  pub others-Apart : All (Apart ebs e) es
  others-Apart =
      subst (All (Apart ebs e)) (append-nil es) (Separate-middle ebs es e [] h.elems.live_apart).0

  pub others-Separate : Separate ebs es
  others-Separate =
      subst (Separate ebs) (append-nil es) (Separate-middle ebs es e [] h.elems.live_apart).1

  module _ (u : Mem) (p : ℕ)
      (u_others : (a : ℕ) → Outside out f.data_size a → MayBe p (λ q. Outside q 4 a) → u a ≡ m a)
      (p_in : MayBe p
        (λ q. (f.fifo_elem_buf.buf ≤ q) × (q + 12 ≤ f.fifo_elem_buf.buf + f.fifo_elem_buf.size)))
      (p_off : MayBe p (λ q. Apart 12 e q))
      (p_clear : All (λ z. MayBe p (λ q. Apart 12 z q)) ue) where
    abbrev m' : Mem
    m' = freed m f out e d u

    pub taken-other :
        (a : ℕ)
        → Outside out f.data_size a
        → Outside d 4 a
        → Outside e 4 a
        → MayBe p (λ q. Outside q 4 a)
        → m' a ≡ m a
    taken-other a one two three four =
        store32_other (store32 u d f.data_buf.next_free_block) e f.fifo_elem_buf.next_free_block a
          (omega arith)
        ∙ store32_other u d f.data_buf.next_free_block a (omega arith)
        ∙ u_others a one four

    elem-spared :
        (z : ℕ)
        → (Inside f.fifo_elem_buf.buf f.fifo_elem_buf.size ebs z × Apart ebs e z)
          × MayBe p (λ q. Apart 12 z q)
        → SameInside z (z + 4) m m'
    elem-spared z h' a lo hi =
        let inside : (f.fifo_elem_buf.buf ≤ a) × (a < f.fifo_elem_buf.buf + f.fifo_elem_buf.size) =
          omega (arith, h'.0.0, h.elem_size) in
        taken-other a (omega (arith, inside, no_elem))
          (omega (arith, inside, item-Inside, h.pools_apart)) (omega (arith, h'.0.1, h.elem_size))
          (omega (arith, h'.1))

    item-spared :
        (z k : ℕ)
        → k ≤ f.data_size
        → Inside f.data_buf.buf f.data_buf.size dbs z × Apart dbs d z
        → SameInside z (z + k) m m'
    item-spared z k le h' a lo hi =
        let inside : (f.data_buf.buf ≤ a) × (a < f.data_buf.buf + f.data_buf.size) =
          omega (arith, h'.0, h.item_size) in
        taken-other a (omega (arith, inside, no_item))
          (omega (arith, h'.1, h.item_size, item-Inside))
          (omega (arith, inside, elem-Inside, h.pools_apart))
          (omega (arith, inside, p_in, h.pools_apart))

    pub elems-Holds : Holds m' (emptier m f out e d 0 0).fifo_elem_buf (e ∷ ue) es
    elems-Holds =
        let In = Inside f.fifo_elem_buf.buf f.fifo_elem_buf.size ebs in
        Holds-freed m m' f.fifo_elem_buf ue es e h.elems
          (λ a lo hi.
            store32-agree (store32 u d f.data_buf.next_free_block) m e
              f.fifo_elem_buf.next_free_block a lo hi)
          (All-mono (λ z. (In z × Apart ebs e z) × MayBe p (λ q. Apart 12 z q))
            (λ z. SameInside z (z + 4) m m') elem-spared ue
            (All-zip (λ z. In z × Apart ebs e z) (λ z. MayBe p (λ q. Apart 12 z q)) ue
              (All-zip In (Apart ebs e) ue h.elems.unused_inside
                (Cross-middle ebs ue es e [] h.elems.cross_apart).0)
              p_clear))

    pub items-Holds : Holds m' (emptier m f out e d 0 0).data_buf (d ∷ ud) ds
    items-Holds =
        let In = Inside f.data_buf.buf f.data_buf.size dbs in
        Holds-freed m m' f.data_buf ud ds d h.items
          (λ a lo hi.
            store32_other (store32 u d f.data_buf.next_free_block) e f.fifo_elem_buf.next_free_block
              a (omega (arith, elem-Inside, item-Inside, h.pools_apart))
            ∙ store32-agree u m d f.data_buf.next_free_block a lo hi)
          (All-mono (λ z. In z × Apart dbs d z) (λ z. SameInside z (z + 4) m m')
            (λ z h'. item-spared z 4 (omega (arith, item-Inside)) h') ud
            (All-zip In (Apart dbs d) ud h.items.unused_inside
              (Cross-middle dbs ud ds d [] h.items.cross_apart).0))

    pub items-kept : All (SameItem m m' f.data_size) ds
    items-kept =
        let In = Inside f.data_buf.buf f.data_buf.size dbs in
        All-mono (λ z. In z × Apart dbs d z) (SameItem m m' f.data_size)
          (λ z h'. item-spared z f.data_size (omega arith) h') ds
          (All-zip In (Apart dbs d) ds
            (subst (All In) (append-nil ds) (All-middle In ds d [] h.items.live_inside).1)
            (subst (All (Apart dbs d)) (append-nil ds)
              (Separate-middle dbs ds d [] h.items.live_apart).0))

    pub taken-item :
        ((i : ℕ) → i < f.data_size → u (out + i) ≡ m (d + i))
        → (i : ℕ) → i < f.data_size
        → m' (out + i) ≡ m (d + i)
    taken-item copied i below =
        store32_other (store32 u d f.data_buf.next_free_block) e f.fifo_elem_buf.next_free_block
          (out + i) (omega (arith, elem-Inside, no_elem))
        ∙ store32_other u d f.data_buf.next_free_block (out + i)
            (omega (arith, item-Inside, no_item))
        ∙ copied i below
