-- ===== src/ControlList.antt =====
-- driver/ControlListUtil.c: the writer of control lists, the streams of packets that the hardware
-- runs. The children hold the packets, the records, the markers, and what is proved of them.
pub mod Packets
pub mod Emits
pub mod Stream
pub mod Framing
pub mod Walk
pub mod Records
pub mod Handles
pub mod Fields
pub mod Markers
pub mod Segments
pub mod Fit
use rpi_vk_driver.Base.{ℕ, ◌+◌, ◌*◌, Bool, add32, sub32, mul32, u32, u32_max, leb, ◌&◌, ◌<<<◌}
use rpi_vk_driver.Memory.{Mem, store8, store16, store32}

-- `ControlList`; `cpa` is the address of the buffer of the list's allocator.
pub record ControlList : Type 0 where
  pub cpa : ℕ
  pub offset : ℕ
  pub num_blocks : ℕ
  pub block_size : ℕ
  pub next_free_byte_offset : ℕ
  pub curr_marker_offset : ℕ

-- `ControlListAddress`
pub record ControlListAddress : Type 0 where
  pub handle : ℕ
  pub at_offset : ℕ

-- `moveBits`, for fewer than 32 bits: C leaves a shift by 32 undefined.
unfoldable pub move_bits : ℕ → ℕ → ℕ → ℕ
move_bits d bits offset =
    (u32 (d <<< offset)) & (u32 ((sub32 u32_max (u32 (u32_max <<< bits))) <<< offset))

-- `clHasEnoughSpace`
unfoldable pub has_enough_space : ControlList → ℕ → Bool
has_enough_space cl size =
    leb (add32 (sub32 cl.next_free_byte_offset cl.offset) size) (mul32 cl.num_blocks cl.block_size)

-- `clInit`: -1 marks that there is no marker.
unfoldable pub init : ℕ → ℕ → ℕ → ControlList
init cpa offset block_size = record {
  cpa = cpa;
  offset = offset;
  num_blocks = 1;
  block_size = block_size;
  next_free_byte_offset = offset;
  curr_marker_offset = u32_max;
}

-- `getCPAptrFromOffset` of driver/ConsecutivePoolAllocator.c
abbrev pub get_cpa_ptr_from_offset : ℕ → ℕ → ℕ
get_cpa_ptr_from_offset cpa offset = add32 cpa offset

-- What a function of the writer changes.
abbrev pub Writer : Type 0
Writer = Mem × ControlList

abbrev pub next_ptr : ControlList → ℕ
next_ptr cl = get_cpa_ptr_from_offset cl.cpa cl.next_free_byte_offset

abbrev pub advance : ControlList → ℕ → ControlList
advance cl n = record cl { next_free_byte_offset = add32 cl.next_free_byte_offset n }

-- `memcpy` of one, two or four bytes to the next free byte, and the step over them
unfoldable pub put8 : ℕ → Writer → Writer
put8 v (m, cl) = (store8 m (next_ptr cl) v, advance cl 1)

unfoldable pub put16 : ℕ → Writer → Writer
put16 v (m, cl) = (store16 m (next_ptr cl) v, advance cl 2)

unfoldable pub put32 : ℕ → Writer → Writer
put32 v (m, cl) = (store32 m (next_ptr cl) v, advance cl 4)

-- four bytes written, a step over three
unfoldable pub put24 : ℕ → Writer → Writer
put24 v (m, cl) = (store32 m (next_ptr cl) v, advance cl 3)

-- One step after another
infixl 3 ◌▸◌
abbrev pub ◌▸◌ {ℓ} : {A : Type ℓ} → (A → A) → (A → A) → A → A
(f ▸ g) s = g (f s)
