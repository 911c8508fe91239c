-- ===== src/Fifo/Written.antt =====
-- What `fifoAdd` of driver/fifo.c writes, when both pools have a block left.
use rpi_vk_driver.Base.{
  ℕ, ◌+◌, ◌≤◌, ◌<◌, ◌^◌, ◌≡◌, ◌≢◌, ◌∙◌, ◌⊎◌, true, false, List, ◌∷◌, arith, ◌==◌,
}
use rpi_vk_driver.Memory.{
  Mem, null, load32, store32, memcpy, store32_other, memcpy_other, memcpy_inside,
  load32-store32_self, load32-store32_apart,
}
use rpi_vk_driver.Pool
use rpi_vk_driver.Pool.Invariant.{Holds}
use rpi_vk_driver.Fifo.{Fifo, add, link_first}

abbrev pub Outside : ℕ → ℕ → ℕ → Type 0
Outside p n a = (a < p) ⊎ (p + n ≤ a)

-- The memory `m'` is `m` with the item from `src` at `d`, the element `e` in front of `first`, and a
-- word at `back`.
pub record Written (m m' : Mem) (e d n src first back : ℕ) : Type 0 where
  pub next_word : load32 m' e ≡ first
  pub prev_word : load32 m' (e + 4) ≡ null
  pub data_word : load32 m' (e + 8) ≡ d
  pub item : (i : ℕ) → i < n → m' (d + i) ≡ m (src + i)
  pub others : (a : ℕ) → Outside d n a → Outside e 12 a → Outside back 4 a → m' a ≡ m a

module _ (m : Mem) (e d n src : ℕ) where
  -- the item and the pointer to it
  abbrev pub copied : Mem
  copied = store32 (memcpy m d src n) (e + 8) d

  -- linked as the only element
  abbrev pub only : Mem
  only = store32 (store32 copied (e + 4) null) e null

  -- linked in front of the element `x`
  abbrev pub front : ℕ → Mem
  front x = store32 (store32 (store32 copied e x) (e + 4) null) (x + 4) e

module _ (m : Mem) (e d n src : ℕ) (apart : (e + 12 ≤ d) ⊎ (d + n ≤ e)) (small : d < 2 ^ 32) where
  copied-other : (a : ℕ) → Outside d n a → Outside e 12 a → (copied m e d n src) a ≡ m a
  copied-other a one two =
      store32_other (memcpy m d src n) (e + 8) d a (omega arith) ∙ memcpy_other m d src n a one

  copied-item : (i : ℕ) → i < n → (copied m e d n src) (d + i) ≡ m (src + i)
  copied-item i h =
      store32_other (memcpy m d src n) (e + 8) d (d + i) (omega arith) ∙ memcpy_inside m d src n i h

  pub only-Written : Written m (only m e d n src) e d n src null (e + 4)
  only-Written =
      let one : Mem = store32 (copied m e d n src) (e + 4) null in
      record {
        next_word = load32-store32_self one e null (omega arith);
        prev_word =
            load32-store32_apart one e null (e + 4) (omega arith)
            ∙ load32-store32_self (copied m e d n src) (e + 4) null (omega arith);
        data_word =
            load32-store32_apart one e null (e + 8) (omega arith)
            ∙ load32-store32_apart (copied m e d n src) (e + 4) null (e + 8) (omega arith)
            ∙ load32-store32_self (memcpy m d src n) (e + 8) d small;
        item = λ i h.
            store32_other one e null (d + i) (omega arith)
            ∙ store32_other (copied m e d n src) (e + 4) null (d + i) (omega arith)
            ∙ copied-item i h;
        others = λ a x y z.
            store32_other one e null a (omega arith)
            ∙ store32_other (copied m e d n src) (e + 4) null a (omega arith)
            ∙ copied-other a x y;
      }

  -- in front of the element `x`
  module _ (x : ℕ) (away : (e + 12 ≤ x) ⊎ (x + 12 ≤ e)) (clear : (x + 12 ≤ d) ⊎ (d + n ≤ x))
      (small_x : x < 2 ^ 32) (small_e : e < 2 ^ 32) where
    pub front-back : load32 (front m e d n src x) (x + 4) ≡ e
    front-back =
        load32-store32_self (store32 (store32 (copied m e d n src) e x) (e + 4) null) (x + 4) e
          small_e

    pub front-Written : Written m (front m e d n src x) e d n src x (x + 4)
    front-Written =
        let one : Mem = store32 (copied m e d n src) e x in
        let two : Mem = store32 one (e + 4) null in
        record {
          next_word =
              load32-store32_apart two (x + 4) e e (omega arith)
              ∙ load32-store32_apart one (e + 4) null e (omega arith)
              ∙ load32-store32_self (copied m e d n src) e x small_x;
          prev_word =
              load32-store32_apart two (x + 4) e (e + 4) (omega arith)
              ∙ load32-store32_self one (e + 4) null (omega arith);
          data_word =
              load32-store32_apart two (x + 4) e (e + 8) (omega arith)
              ∙ load32-store32_apart one (e + 4) null (e + 8) (omega arith)
              ∙ load32-store32_apart (copied m e d n src) e x (e + 8) (omega arith)
              ∙ load32-store32_self (memcpy m d src n) (e + 8) d small;
          item = λ i h.
              store32_other two (x + 4) e (d + i) (omega arith)
              ∙ store32_other one (e + 4) null (d + i) (omega arith)
              ∙ store32_other (copied m e d n src) e x (d + i) (omega arith)
              ∙ copied-item i h;
          others = λ a p q r.
              store32_other two (x + 4) e a (omega arith)
              ∙ store32_other one (e + 4) null a (omega arith)
              ∙ store32_other (copied m e d n src) e x a (omega arith)
              ∙ copied-other a p q;
        }

-- `poolAllocate` from a pool with a free block
pub allocate-head :
    (m : Mem) (pa : Pool.Pool) (x : ℕ) (xs live : List ℕ)
    → Holds m pa (x ∷ xs) live
    → Pool.allocate m pa ≡ (x, record pa { next_free_block = load32 m x })
unfolding Pool.allocate
allocate-head m pa x xs live h =
    let e : (pa.next_free_block == null) ≡ false = ground arith in rw (e, h.chain.0)

-- the queue with the two blocks taken
abbrev pub taken : Mem → Fifo → ℕ → ℕ → Fifo
taken m f e d = record f {
  data_buf = record f.data_buf { next_free_block = load32 m d };
  fifo_elem_buf = record f.fifo_elem_buf { next_free_block = load32 m e };
}

module _ (m : Mem) (f : Fifo) (src e d : ℕ) (ees dds es ds : List ℕ)
    (elems : Holds m f.fifo_elem_buf (e ∷ ees) es) (items : Holds m f.data_buf (d ∷ dds) ds) where
  pub add-only :
      f.first ≡ null
      → add m f src
        ≡ (1, only m e d f.data_size src, record (taken m f e d) { first = e; last = e })
  unfolding add link_first
  add-only none_there =
      let ed : (d == null) ≡ false = ground (arith, items.chain.1) in
      let ee : (e == null) ≡ false = ground (arith, elems.chain.1) in
      let ef : (f.first == null) ≡ true = ground (arith, none_there) in
      rw (
        allocate-head m f.data_buf d dds ds items,
        allocate-head m f.fifo_elem_buf e ees es elems,
        ed,
        ee,
        ef,
      )

  pub add-front :
      f.first ≢ null
      → add m f src ≡ (1, front m e d f.data_size src f.first, record (taken m f e d) { first = e })
  unfolding add link_first
  add-front some_there =
      let ed : (d == null) ≡ false = ground (arith, items.chain.1) in
      let ee : (e == null) ≡ false = ground (arith, elems.chain.1) in
      let ef : (f.first == null) ≡ false = ground (arith, some_there) in
      rw (
        allocate-head m f.data_buf d dds ds items,
        allocate-head m f.fifo_elem_buf e ees es elems,
        ed,
        ee,
        ef,
      )
