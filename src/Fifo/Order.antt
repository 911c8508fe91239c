-- ===== src/Fifo/Order.antt =====
-- `fifoRemove` of driver/fifo.c takes the item at the end of a well-formed queue.
use rpi_vk_driver.Base.{
  ℕ, ◌+◌, ◌≤◌, ◌<◌, ◌≡◌, ◌≢◌, refl, sym, ◌∙◌, subst, ◌⊎◌, inl, inr, List, [], ◌∷◌, ◌++◌, append-nil,
  arith, All, All-mono, All-zip, All-middle,
}
use rpi_vk_driver.Memory.{
  Mem, null, load32, load32_same, load32-store32_self, load32-store32_apart, store32, store32_other,
  memcpy_other, memcpy_inside,
}
use rpi_vk_driver.FreeList.{Apart, Inside}
use rpi_vk_driver.Fifo.{Fifo, remove}
use rpi_vk_driver.Fifo.Links.{IsFifo, SameItem}
use rpi_vk_driver.Fifo.Ends.{end_of, All-end_of, Linked-end, Linked-Cut, Cut-elements}
use rpi_vk_driver.Fifo.Remove.{Outside, Elsewhere, copied, freed, remove-only, remove-many}
use rpi_vk_driver.Fifo.Taken.{
  MayBe, elem-Inside, item-Inside, others-Inside, others-Apart, others-Separate, taken-other,
  elems-Holds, items-Holds, items-kept, taken-item,
}

-- What a queue without the element `e` and the item `d` at its end has to be.
abbrev Removed : Mem → ℕ → ℕ → ℕ → ℕ → List ℕ → List ℕ → List ℕ → List ℕ → ℕ × Mem × Fifo → Type 0
Removed m n out e d es ds ue ud (ok, m', f') =
    (ok ≡ 1)
    × IsFifo m' f' es ds (e ∷ ue) (d ∷ ud)
    × ((i : ℕ) → i < n → m' (out + i) ≡ m (d + i))
    × All (SameItem m m' n) ds

module _ (m : Mem) (f : Fifo) (out e d : ℕ) (es ds ue ud : List ℕ)
    (h : IsFifo m f (es ++ (e ∷ [])) (ds ++ (d ∷ [])) ue ud)
    (no_elem : Elsewhere f.fifo_elem_buf out f.data_size)
    (no_item : Elsewhere f.data_buf out f.data_size) where
  -- the copy of the item spares the element
  copied-word : (q : ℕ) → e ≤ q → q + 4 ≤ e + 12 → load32 (copied m f out e d) q ≡ load32 m q
  copied-word q lo hi =
      let inside = elem-Inside m f out e d es ds ue ud h no_elem no_item in
      load32_same m (copied m f out e d) q
        (λ a l u. memcpy_other m out d f.data_size a (omega (arith, inside, no_elem)))

remove-Removed_only :
    (m : Mem) (f : Fifo) (out e d : ℕ) (ue ud : List ℕ)
    → IsFifo m f (e ∷ []) (d ∷ []) ue ud
    → Elsewhere f.fifo_elem_buf out f.data_size
    → Elsewhere f.data_buf out f.data_size
    → Removed m f.data_size out e d [] [] ue ud (remove m f out)
remove-Removed_only m f out e d ue ud h no_elem no_item =
    let (last, ne, prev, item) = Linked-end m null f.first f.last e d [] [] h.links in
    let c : Mem = copied m f out e d in
    let word = copied-word m f out e d [] [] ue ud h no_elem no_item in
    let others : (a : ℕ) → Outside out f.data_size a → MayBe null (λ q. Outside q 4 a) → c a ≡ m a =
      λ a off _. memcpy_other m out d f.data_size a off in
    let clear : All (λ z. MayBe null (λ q. Apart 12 z q)) ue =
      All-mono (Inside f.fifo_elem_buf.buf f.fifo_elem_buf.size f.fifo_elem_buf.block_size)
        (λ z. MayBe null (λ q. Apart 12 z q)) (λ z _. inl refl) ue h.elems.unused_inside in
    subst (Removed m f.data_size out e d [] [] ue ud)
      (sym (
        remove-only m f out e d ne last item (word (e + 4) (omega arith) (omega arith) ∙ prev)
          (word (e + 8) (omega arith) (omega arith) ∙ item)))
      (
        refl,
        record {
          elems =
              elems-Holds m f out e d [] [] ue ud h no_elem no_item c null others (inl refl)
                (inl refl) clear;
          items =
              items-Holds m f out e d [] [] ue ud h no_elem no_item c null others (inl refl)
                (inl refl) clear;
          elem_size = h.elem_size;
          item_size = h.item_size;
          pools_apart = h.pools_apart;
          links = (refl, refl);
        },
        taken-item m f out e d [] [] ue ud h no_elem no_item c null others (inl refl) (inl refl)
            clear (memcpy_inside m out d f.data_size),
        tt,
      )

remove-Removed_many :
    (m : Mem) (f : Fifo) (out e d x : ℕ) (xs ds ue ud : List ℕ)
    → IsFifo m f (x ∷ (xs ++ (e ∷ []))) (ds ++ (d ∷ [])) ue ud
    → Elsewhere f.fifo_elem_buf out f.data_size
    → Elsewhere f.data_buf out f.data_size
    → Removed m f.data_size out e d (x ∷ xs) ds ue ud (remove m f out)
remove-Removed_many m f out e d x xs ds ue ud h no_elem no_item =
    let p : ℕ = end_of x xs in
    let (last, ne, prev, item) = Linked-end m null f.first f.last e d (x ∷ xs) ds h.links in
    let In = Inside f.fifo_elem_buf.buf f.fifo_elem_buf.size f.fifo_elem_buf.block_size in
    let Off = Apart f.fifo_elem_buf.block_size e in
    let esz = h.elem_size in
    let at_e = elem-Inside m f out e d (x ∷ xs) ds ue ud h no_elem no_item in
    let at_d = item-Inside m f out e d (x ∷ xs) ds ue ud h no_elem no_item in
    let all_in = others-Inside m f out e d (x ∷ xs) ds ue ud h no_elem no_item in
    let all_off = others-Apart m f out e d (x ∷ xs) ds ue ud h no_elem no_item in
    let at_p : (f.fifo_elem_buf.buf ≤ p) × (p + 12 ≤ f.fifo_elem_buf.buf + f.fifo_elem_buf.size) =
      omega (arith, All-end_of In x xs all_in, esz) in
    let off_p : Apart 12 e p = omega (arith, All-end_of Off x xs all_off, esz) in
    let np : p ≢ null = omega (arith, at_p, h.elems.buffer.not_null) in
    let c : Mem = copied m f out e d in
    let u : Mem = store32 c p null in
    let word = copied-word m f out e d (x ∷ xs) ds ue ud h no_elem no_item in
    let others : (a : ℕ) → Outside out f.data_size a → MayBe p (λ q. Outside q 4 a) → u a ≡ m a =
      λ a off maybe.
        store32_other c p null a (omega (arith, maybe, np))
        ∙ memcpy_other m out d f.data_size a off in
    let clear : All (λ z. MayBe p (λ q. Apart 12 z q)) ue =
      All-mono (λ z. All (Apart f.fifo_elem_buf.block_size z) (x ∷ (xs ++ (e ∷ []))))
        (λ z. MayBe p (λ q. Apart 12 z q))
        (λ z all. inr (
          omega (
            arith,
            esz,
            All-end_of (Apart f.fifo_elem_buf.block_size z) x xs (
                subst (All (Apart f.fifo_elem_buf.block_size z)) (append-nil (x ∷ xs))
                  (All-middle (Apart f.fifo_elem_buf.block_size z) (x ∷ xs) e [] all).1),
          )))
        ue h.elems.cross_apart in
    let m' : Mem = freed m f out e d u in
    let cut : load32 m' p ≡ null =
      load32-store32_apart (store32 u d f.data_buf.next_free_block) e
        f.fifo_elem_buf.next_free_block p (omega (arith, off_p))
      ∙ load32-store32_apart u d f.data_buf.next_free_block p
          (omega (arith, at_p, at_d, h.pools_apart))
      ∙ load32-store32_self c p null (omega arith) in
    let same : All (λ z. (a : ℕ) → z ≤ a → a < z + 12 → (a < p) ⊎ (p + 4 ≤ a) → m' a ≡ m a)
        (x ∷ xs) =
      All-mono (λ z. In z × Off z)
        (λ z. (a : ℕ) → z ≤ a → a < z + 12 → (a < p) ⊎ (p + 4 ≤ a) → m' a ≡ m a)
        (λ z h' a lo hi away.
          taken-other m f out e d (x ∷ xs) ds ue ud h no_elem no_item u p others (inr at_p)
            (inr off_p) clear a (omega (arith, h'.0, esz, no_elem))
            (omega (arith, h'.0, esz, at_d, h.pools_apart)) (omega (arith, h'.1, esz)) (inr away))
        (x ∷ xs) (All-zip In Off (x ∷ xs) all_in all_off) in
    subst (Removed m f.data_size out e d (x ∷ xs) ds ue ud)
      (sym (
        remove-many m f out e d p ne np last item (word (e + 4) (omega arith) (omega arith) ∙ prev)
          (load32-store32_apart c p null (e + 8) (omega (arith, off_p))
            ∙ word (e + 8) (omega arith) (omega arith)
            ∙ item)))
      (
        refl,
        record {
          elems =
              elems-Holds m f out e d (x ∷ xs) ds ue ud h no_elem no_item u p others (inr at_p)
                (inr off_p) clear;
          items =
              items-Holds m f out e d (x ∷ xs) ds ue ud h no_elem no_item u p others (inr at_p)
                (inr off_p) clear;
          elem_size = h.elem_size;
          item_size = h.item_size;
          pools_apart = h.pools_apart;
          links = Linked-Cut m m' null f.first f.last e d x xs ds h.links (
              Cut-elements m m' f.fifo_elem_buf.block_size x xs esz
                (others-Separate m f out e d (x ∷ xs) ds ue ud h no_elem no_item) cut same);
        },
        taken-item m f out e d (x ∷ xs) ds ue ud h no_elem no_item u p others (inr at_p) (inr off_p)
            clear
            (λ i below.
              store32_other c p null (out + i) (omega (arith, at_p, no_elem))
              ∙ memcpy_inside m out d f.data_size i below),
        items-kept m f out e d (x ∷ xs) ds ue ud h no_elem no_item u p others (inr at_p) (inr off_p)
            clear,
      )

-- `fifoRemove` of a well-formed queue whose last element is `e` and last item `d`, to a place outside
-- the pools: it returns 1, the queue is well formed without them and both blocks are free, the place
-- has the item's bytes, and the other items keep theirs.
pub remove-IsFifo :
    (m : Mem) (f : Fifo) (out e d : ℕ) (es ds ue ud : List ℕ)
    → IsFifo m f (es ++ (e ∷ [])) (ds ++ (d ∷ [])) ue ud
    → Elsewhere f.fifo_elem_buf out f.data_size
    → Elsewhere f.data_buf out f.data_size
    → let (ok, m', f') = remove m f out in
      (ok ≡ 1)
      × IsFifo m' f' es ds (e ∷ ue) (d ∷ ud)
      × ((i : ℕ) → i < f.data_size → m' (out + i) ≡ m (d + i))
      × All (SameItem m m' f.data_size) ds
remove-IsFifo m f out e d [] [] ue ud h a b = remove-Removed_only m f out e d ue ud h a b
remove-IsFifo m f out e d [] (y ∷ []) ue ud h a b = absurd h.links.4
remove-IsFifo m f out e d [] (y ∷ z ∷ zs) ue ud h a b = absurd h.links.4
remove-IsFifo m f out e d (x ∷ xs) ds ue ud h a b =
    remove-Removed_many m f out e d x xs ds ue ud h a b
