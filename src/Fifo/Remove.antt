-- ===== src/Fifo/Remove.antt =====
-- `fifoRemove` of driver/fifo.c keeps the queue well formed and takes the item at its end.
use rpi_vk_driver.Base.{ℕ, ◌+◌, ◌≤◌, ◌<◌, ◌≡◌, ◌≢◌, ◌⊎◌, false, arith, ◌==◌}
use rpi_vk_driver.Memory.{Mem, null, load32, store32, memcpy}
use rpi_vk_driver.Pool
use rpi_vk_driver.Fifo.{Fifo, remove, unlink_last}

abbrev pub Outside : ℕ → ℕ → ℕ → Type 0
Outside p n a = (a < p) ⊎ (p + n ≤ a)

-- The region `[p, p + n)` lies outside the pool's buffer.
abbrev pub Elsewhere : Pool.Pool → ℕ → ℕ → Type 0
Elsewhere pa p n = (p + n ≤ pa.buf) ⊎ (pa.buf + pa.size ≤ p)

module _ (m : Mem) (f : Fifo) (out e d : ℕ) where
  abbrev pub copied : Mem
  copied = memcpy m out d f.data_size

  -- the memory after `fifoRemove`, with the links cut in `u`
  abbrev pub freed : Mem → Mem
  freed u = store32 (store32 u d f.data_buf.next_free_block) e f.fifo_elem_buf.next_free_block

  abbrev pub emptier : ℕ → ℕ → Fifo
  emptier first last = record f {
    first = first;
    last = last;
    data_buf = record f.data_buf { next_free_block = d };
    fifo_elem_buf = record f.fifo_elem_buf { next_free_block = e };
  }

  pub remove-only :
      e ≢ null
      → f.last ≡ e
      → load32 m (e + 8) ≡ d
      → load32 copied (e + 4) ≡ null
      → load32 copied (e + 8) ≡ d
      → remove m f out ≡ (1, freed copied, emptier null null)
  unfolding remove unlink_last Pool.free
  remove-only ne last item prev again =
      let some_there : (e == null) ≡ false = ground arith in
      rw (last, item, prev, again, some_there)

  pub remove-many :
      (p : ℕ)
      → e ≢ null
      → p ≢ null
      → f.last ≡ e
      → load32 m (e + 8) ≡ d
      → load32 copied (e + 4) ≡ p
      → load32 (store32 copied p null) (e + 8) ≡ d
      → remove m f out ≡ (1, freed (store32 copied p null), emptier f.first p)
  unfolding remove unlink_last Pool.free
  remove-many p ne np last item prev again =
      let some_there : (e == null) ≡ false = ground arith in
      let more_there : (p == null) ≡ false = ground arith in
      rw (last, item, prev, more_there, again, some_there)
