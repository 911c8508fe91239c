-- ===== src/Fifo/Links.antt =====
-- The doubly linked list of driver/fifo.c in memory, and when a queue is well formed.
use rpi_vk_driver.Base.{ℕ, ◌+◌, ◌≤◌, ◌≡◌, ◌≢◌, sym, ◌∙◌, subst, ◌⊎◌, List, [], ◌∷◌, arith, All}
use rpi_vk_driver.Memory.{Mem, null, load32, load32_same, SameInside}
use rpi_vk_driver.FreeList.{Chain-frame}
use rpi_vk_driver.Pool.{Pool}
use rpi_vk_driver.Pool.Invariant.{Holds}
use rpi_vk_driver.Fifo.{Fifo, next_at, prev_at, data_at, elem_bytes}

-- From `p`, whose predecessor is `prev`, the links lead through the elements `es`, with items at
-- `ds`, to the end, and back from `last`.
abbrev pub Linked : Mem → ℕ → ℕ → List ℕ → List ℕ → ℕ → Type 0
Linked m prev p [] [] last = (p ≡ null) × (last ≡ prev)
Linked m prev p [] (_ ∷ _) last = ⊥
Linked m prev p (_ ∷ _) [] last = ⊥
Linked m prev p (e ∷ es) (d ∷ ds) last =
    (p ≡ e)
    × (e ≢ null)
    × (load32 m (prev_at e) ≡ prev)
    × (load32 m (data_at e) ≡ d)
    × Linked m e (load32 m (next_at e)) es ds last

pub Linked-frame :
    (m m' : Mem) (prev p last : ℕ) (es ds : List ℕ)
    → Linked m prev p es ds last
    → All (λ e. SameInside e (e + elem_bytes) m m') es
    → Linked m' prev p es ds last
Linked-frame m m' prev p last [] [] l same = l
Linked-frame m m' prev p last [] (d ∷ ds) l same = absurd l
Linked-frame m m' prev p last (e ∷ es) [] l same = absurd l
Linked-frame m m' prev p last (e ∷ es) (d ∷ ds) (at, ne, back, item, rest) same =
    let word : (q : ℕ) → e ≤ q → q + 4 ≤ e + 12 → load32 m' q ≡ load32 m q =
      λ q lo hi. load32_same m m' q (λ a l h. same.0 a (omega arith) (omega arith)) in
    (
      at,
      ne,
      word (prev_at e) (omega arith) (omega arith) ∙ back,
      word (data_at e) (omega arith) (omega arith) ∙ item,
      subst (λ x. Linked m' e x es ds last) (sym (word e (omega arith) (omega arith)))
          (Linked-frame m m' e (load32 m e) last es ds rest same.1),
    )

-- A queue: its pools hold the elements `es` and the items `ds`, and the links go through them.
pub record IsFifo (m : Mem) (f : Fifo) (es ds free_elems free_items : List ℕ) : Type 0 where
  pub elems : Holds m f.fifo_elem_buf free_elems es
  pub items : Holds m f.data_buf free_items ds
  pub elem_size : f.fifo_elem_buf.block_size ≡ elem_bytes
  pub item_size : f.data_buf.block_size ≡ f.data_size
  pub pools_apart :
      (f.fifo_elem_buf.buf + f.fifo_elem_buf.size ≤ f.data_buf.buf)
      ⊎ (f.data_buf.buf + f.data_buf.size ≤ f.fifo_elem_buf.buf)
  pub links : Linked m null f.first es ds f.last

-- A pool is not touched by writes that spare the links of its free blocks.
pub Holds-frame :
    (m m' : Mem) (pa : Pool) (unused live : List ℕ)
    → Holds m pa unused live
    → All (λ x. SameInside x (x + 4) m m') unused
    → Holds m' pa unused live
Holds-frame m m' pa unused live h same = record {
  buffer = h.buffer;
  chain = Chain-frame m m' pa.next_free_block unused h.chain same;
  unused_inside = h.unused_inside;
  live_inside = h.live_inside;
  unused_apart = h.unused_apart;
  live_apart = h.live_apart;
  cross_apart = h.cross_apart;
  count = h.count;
}

-- The bytes of an item
abbrev pub SameItem : Mem → Mem → ℕ → ℕ → Type 0
SameItem m m' n d = SameInside d (d + n) m m'
