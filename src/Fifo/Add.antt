-- ===== src/Fifo/Add.antt =====
-- `fifoAdd` of driver/fifo.c keeps the queue well formed and puts the item at its front.
use rpi_vk_driver.Base.{
  ℕ, ◌+◌, ◌≤◌, ◌<◌, ◌^◌, ◌≡◌, refl, sym, ap, ◌∙◌, subst, ◌⊎◌, inl, inr, List, [], ◌∷◌, arith, All,
  All-mono, All-zip,
}
use rpi_vk_driver.Memory.{Mem, null, load32, load32_same, SameInside}
use rpi_vk_driver.FreeList.{Apart, Inside}
use rpi_vk_driver.Fifo.{Fifo, add}
use rpi_vk_driver.Fifo.Links.{IsFifo, Linked, Linked-frame, SameItem}
use rpi_vk_driver.Fifo.Written.{
  only, front, only-Written, front-Written, front-back, add-only, add-front,
}
use rpi_vk_driver.Fifo.Given.{
  elem-Inside, item-Inside, blocks-apart, item-small, elem-small, elem-spared, items-kept,
  items-Holds, elems-Holds,
}

-- What a queue with the element `e` and the item `d` in front has to be.
abbrev Added : Mem → ℕ → ℕ → ℕ → ℕ → List ℕ → List ℕ → List ℕ → List ℕ → ℕ × Mem × Fifo → Type 0
Added m n src e d es ds ees dds (ok, m', f') =
    (ok ≡ 1)
    × IsFifo m' f' (e ∷ es) (d ∷ ds) ees dds
    × ((i : ℕ) → i < n → m' (d + i) ≡ m (src + i))
    × All (SameItem m m' n) ds

add-Added_only :
    (m : Mem) (f : Fifo) (src e d : ℕ) (ees dds : List ℕ)
    → IsFifo m f [] [] (e ∷ ees) (d ∷ dds)
    → Added m f.data_size src e d [] [] ees dds (add m f src)
add-Added_only m f src e d ees dds h =
    let w =
      only-Written m e d f.data_size src (blocks-apart m f src e d [] [] ees dds h)
        (item-small m f src e d [] [] ees dds h) in
    let m' : Mem = only m e d f.data_size src in
    let inside = elem-Inside m f src e d [] [] ees dds h in
    subst (Added m f.data_size src e d [] [] ees dds)
      (sym (add-only m f src e d ees dds [] [] h.elems h.items h.links.0))
      (
        refl,
        record {
          elems =
              elems-Holds m f src e d [] [] ees dds h m' null (e + 4) w (omega (arith, inside))
                (omega (arith, inside))
                (All-mono (Apart f.fifo_elem_buf.block_size e)
                  (λ y. (y + 12 ≤ e + 4) ⊎ (e + 4 + 4 ≤ y))
                  (λ y off. omega (arith, off, h.elem_size)) ees h.elems.unused_apart.0);
          items =
              items-Holds m f src e d [] [] ees dds h m' null (e + 4) w (omega (arith, inside))
                (omega (arith, inside));
          elem_size = h.elem_size;
          item_size = h.item_size;
          pools_apart = h.pools_apart;
          links = (refl, h.elems.chain.1, w.prev_word, w.data_word, (w.next_word, refl));
        },
        w.item,
        tt,
      )

add-Added_front :
    (m : Mem) (f : Fifo) (src e d x y : ℕ) (xs ys ees dds : List ℕ)
    → IsFifo m f (x ∷ xs) (y ∷ ys) (e ∷ ees) (d ∷ dds)
    → Added m f.data_size src e d (x ∷ xs) (y ∷ ys) ees dds (add m f src)
add-Added_front m f src e d x y xs ys ees dds h =
    let head = h.links.0 in
    let ne = h.links.1 in
    let esz = h.elem_size in
    let at_x : (f.fifo_elem_buf.buf ≤ x) × (x + 12 ≤ f.fifo_elem_buf.buf + f.fifo_elem_buf.size) =
      omega (arith, h.elems.live_inside.0, esz) in
    let inside = elem-Inside m f src e d (x ∷ xs) (y ∷ ys) ees dds h in
    let at_d = item-Inside m f src e d (x ∷ xs) (y ∷ ys) ees dds h in
    let off_x : (e + 12 ≤ x) ⊎ (x + 12 ≤ e) = omega (arith, h.elems.cross_apart.0.0, esz) in
    let away : (e + 12 ≤ f.first) ⊎ (f.first + 12 ≤ e) = omega (arith, off_x, head) in
    let clear : (f.first + 12 ≤ d) ⊎ (d + f.data_size ≤ f.first) =
      omega (arith, at_x, at_d, head, h.pools_apart) in
    let small_e = elem-small m f src e d (x ∷ xs) (y ∷ ys) ees dds h in
    let small_d = item-small m f src e d (x ∷ xs) (y ∷ ys) ees dds h in
    let split = blocks-apart m f src e d (x ∷ xs) (y ∷ ys) ees dds h in
    let small_x : f.first < 2 ^ 32 = omega (arith, at_x, head, h.elems.buffer.in_memory) in
    let w = front-Written m e d f.data_size src split small_d f.first away clear small_x small_e in
    let back = front-back m e d f.data_size src split small_d f.first away clear small_x small_e in
    let m' : Mem = front m e d f.data_size src f.first in
    let low : f.fifo_elem_buf.buf ≤ f.first + 4 = omega (arith, at_x, head) in
    let high : f.first + 4 + 4 ≤ f.fifo_elem_buf.buf + f.fifo_elem_buf.size =
      omega (arith, at_x, head) in
    let word : (q : ℕ) → ((q ≡ x) ⊎ (q ≡ x + 8)) → load32 m' q ≡ load32 m q = λ q which.
      load32_same m m' q (λ a lo hi.
        w.others a (omega (arith, at_x, at_d, which, h.pools_apart)) (omega (arith, off_x, which))
          (omega (arith, head, which))) in
    let In = Inside f.fifo_elem_buf.buf f.fifo_elem_buf.size f.fifo_elem_buf.block_size in
    let Off = Apart f.fifo_elem_buf.block_size e in
    let spared : All (λ z. SameInside z (z + 12) m m') xs =
      All-mono (λ z. (In z × Off z) × Apart f.fifo_elem_buf.block_size x z)
        (λ z. SameInside z (z + 12) m m')
        (λ z h'.
          elem-spared m f src e d (x ∷ xs) (y ∷ ys) ees dds h m' f.first (f.first + 4) w low high z
            12 (omega arith) h'.0 (omega (arith, h'.1, head, esz)))
        xs
        (All-zip (λ z. In z × Off z) (Apart f.fifo_elem_buf.block_size x) xs
          (All-zip In Off xs h.elems.live_inside.1 h.elems.cross_apart.0.1) h.elems.live_apart.0) in
    subst (Added m f.data_size src e d (x ∷ xs) (y ∷ ys) ees dds)
      (sym
        (add-front m f src e d ees dds (x ∷ xs) (y ∷ ys) h.elems h.items (λ z. ne (sym head ∙ z))))
      (
        refl,
        record {
          elems =
              elems-Holds m f src e d (x ∷ xs) (y ∷ ys) ees dds h m' f.first (f.first + 4) w low
                high
                (All-mono
                  (λ z.
                    Apart f.fifo_elem_buf.block_size z x
                    × All (Apart f.fifo_elem_buf.block_size z) xs)
                  (λ z. (z + 12 ≤ f.first + 4) ⊎ (f.first + 4 + 4 ≤ z))
                  (λ z off. omega (arith, off.0, head, esz)) ees h.elems.cross_apart.1);
          items =
              items-Holds m f src e d (x ∷ xs) (y ∷ ys) ees dds h m' f.first (f.first + 4) w low
                high;
          elem_size = h.elem_size;
          item_size = h.item_size;
          pools_apart = h.pools_apart;
          links = (
            refl,
            h.elems.chain.1,
            w.prev_word,
            w.data_word,
            subst (λ p. Linked m' e p (x ∷ xs) (y ∷ ys) f.last) (sym w.next_word)
                (
                  head,
                  ne,
                  ap (λ q. load32 m' (q + 4)) (sym head) ∙ back,
                  word (x + 8) (inr refl) ∙ h.links.3,
                  subst (λ p. Linked m' x p xs ys f.last) (sym (word x (inl refl)))
                      (Linked-frame m m' x (load32 m x) f.last xs ys h.links.4 spared),
                ),
          );
        },
        w.item,
        items-kept m f src e d (x ∷ xs) (y ∷ ys) ees dds h m' f.first (f.first + 4) w low high,
      )

-- `fifoAdd` on a well-formed queue whose pools both have a block left, `e` and `d`: it returns 1, the
-- queue is well formed with the new element in front, the new item has the bytes that it was given,
-- and the items that were there keep theirs.
pub add-IsFifo :
    (m : Mem) (f : Fifo) (src e d : ℕ) (es ds ees dds : List ℕ)
    → IsFifo m f es ds (e ∷ ees) (d ∷ dds)
    → let (ok, m', f') = add m f src in
      (ok ≡ 1)
      × IsFifo m' f' (e ∷ es) (d ∷ ds) ees dds
      × ((i : ℕ) → i < f.data_size → m' (d + i) ≡ m (src + i))
      × All (SameItem m m' f.data_size) ds
add-IsFifo m f src e d [] [] ees dds h = add-Added_only m f src e d ees dds h
add-IsFifo m f src e d [] (y ∷ ys) ees dds h = absurd h.links
add-IsFifo m f src e d (x ∷ xs) [] ees dds h = absurd h.links
add-IsFifo m f src e d (x ∷ xs) (y ∷ ys) ees dds h = add-Added_front m f src e d x y xs ys ees dds h
