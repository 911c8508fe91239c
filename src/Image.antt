-- ===== src/Image.antt =====
-- Image creation and layout in driver/resource.c: the tiling of an image, the size and place of
-- each mip level, and the memory that the image asks for.
pub mod Layout
pub mod Place
use rpi_vk_driver.Base.{
  ℕ, zero, suc, ◌+◌, ◌-◌, ◌%◌, ◌/◌, ◌>>>◌, Bool, true, false, Option, none, some, ◌>>=◌, List, [],
  ◌∷◌, add32, sub32, mul32, ◌==◌, leb, ltb, if◌then◌else◌, max,
}
use mathlib.Core.List.{map}
use rpi_vk_driver.Format.{Format, etc2_r8g8b8_unorm_block}
use rpi_vk_driver.Format.Bits.{get_format_bpp}
use rpi_vk_driver.Rounding.{round_up, get_pow2_pad}
use rpi_vk_driver.Tiling.{get_utile_dimensions, is_lt_format}

-- `VC4_TILING_FORMAT_LINEAR`, `_T` and `_LT`
pub data ImageTiling : Type 0 where
  linear tiled linear_tiled : ImageTiling

-- The fields of `_image` that its layout reads or writes. `levelOffsets` and `levelTiling` hold
-- the levels from 0 on.
pub record Image : Type 0 where
  pub width : ℕ
  pub height : ℕ
  pub miplevels : ℕ
  pub samples : ℕ
  pub level_offsets : List ℕ
  pub level_tiling : List ImageTiling
  pub layers : ℕ
  pub size : ℕ
  pub stride : ℕ
  pub format : Format
  pub tiling : ImageTiling

-- `ARM_PAGE_SIZE`
abbrev pub arm_page_size : ℕ
arm_page_size = 4096

-- `align` of driver/kernelInterface.c, which is `getBOAlignedSize`
unfoldable pub get_bo_aligned_size : ℕ → ℕ → ℕ
get_bo_aligned_size num alignment =
    if num % alignment == 0 then num else sub32 (add32 num alignment) (num % alignment)

-- The choice of tiling in `vkCreateImage`; `linear_requested` is the test of
-- `pCreateInfo->tiling` against `VK_IMAGE_TILING_LINEAR`.
unfoldable pub choose_tiling : Bool → Format → ℕ → ℕ → Option ImageTiling
choose_tiling linear_requested format width height =
    if linear_requested
    then some linear
    else is_lt_format (get_format_bpp format) width height >>= λ lt.
        some (if lt then linear_tiled else tiled)

-- The size in texels or, for the compressed format, in blocks of 4 by 4.
unfoldable pub base_extent : Image → ℕ × ℕ
base_extent i = elim i.format [
  | etc2_r8g8b8_unorm_block ↦ (add32 i.width 3 >>> 2, add32 i.height 3 >>> 2)
  | _ ↦ (i.width, i.height)
]

-- The extent of mip level `c` before padding.
unfoldable pub mip_extent : ℕ × ℕ → ℕ → ℕ × ℕ
mip_extent (w, h) c =
    if c == 0 then (w, h) else (max (get_pow2_pad w >>> c) 1, max (get_pow2_pad h >>> c) 1)

-- The tiling and the padded extent of a mip level of extent `mip`.
unfoldable pub pad_extent : Image → ℕ → ℕ × ℕ → ℕ × ℕ → Option (ImageTiling × ℕ × ℕ)
pad_extent i bpp (utile_w, utile_h) (mip_w, mip_h) = elim i.tiling [
  | linear ↦
      if ltb 1 i.samples
      then some (linear, round_up mip_w 32, round_up mip_h 32)
      else some (linear, round_up mip_w utile_w, mip_h)
  | other ↦ is_lt_format bpp mip_w mip_h >>= λ is_mip_lt.
      if is_mip_lt
      then some (linear_tiled, round_up mip_w utile_w, round_up mip_h utile_h)
      else some (other, round_up mip_w (mul32 utile_w 8), round_up mip_h (mul32 utile_h 8))
]

pub record Level : Type 0 where
  pub offset : ℕ
  pub tiling : ImageTiling
  pub stride : ℕ
  pub size : ℕ

-- One round of the loop of `vkGetImageMemoryRequirements`.
unfoldable pub level_at : Image → ℕ → ℕ × ℕ → ℕ → ℕ → Option Level
level_at i bpp utile c offset =
    pad_extent i bpp utile (mip_extent (base_extent i) c) >>= λ (tiling, mip_w, mip_h).
    let stride = mul32 (mul32 mip_w bpp) (max i.samples 1) >>> 3 in
    some (record { offset = offset; tiling = tiling; stride = stride; size = mul32 mip_h stride })

-- The loop, from the last level down to level 0, with the levels that are done.
unfoldable pub layout_levels : Image → ℕ → ℕ × ℕ → ℕ → ℕ → List Level → Option (List Level)
layout_levels i bpp utile zero offset done = some done
layout_levels i bpp utile (suc c) offset done = level_at i bpp utile c offset >>= λ l.
    layout_levels i bpp utile c (add32 offset l.size) (l ∷ done)

-- The levels before level 0 is moved to a page boundary.
unfoldable pub image_levels : Image → Option (List Level)
image_levels i = get_utile_dimensions (get_format_bpp i.format) >>= λ utile.
    layout_levels i (get_format_bpp i.format) utile i.miplevels 0 []

-- `levelZeroOffset`: how far the levels move so that level 0 begins a page
unfoldable pub level_zero_offset : ℕ → ℕ
level_zero_offset offset = sub32 (round_up offset arm_page_size) offset

unfoldable pub shift_levels : ℕ → List Level → List Level
shift_levels by [] = []
shift_levels by (l ∷ ls) = record l { offset = add32 l.offset by } ∷ shift_levels by ls

-- The part of `vkGetImageMemoryRequirements` after the loop, on level 0 and the others.
unfoldable pub place_levels : Image → Level → List Level → Image
place_levels i l ls =
    let placed = shift_levels (level_zero_offset l.offset) (l ∷ ls) in
    let zero_offset = add32 l.offset (level_zero_offset l.offset) in
    record i {
      level_offsets = map (λ x. x.offset) placed;
      level_tiling = map (λ x. x.tiling) placed;
      size = mul32 (get_bo_aligned_size (add32 l.size zero_offset) arm_page_size) i.layers;
      stride = l.stride;
    }

-- `vkGetImageMemoryRequirements`: the image with its layout. With no mip level the code reads an
-- unset size: `none`.
unfoldable pub get_image_memory_requirements : Image → Option Image
unfolding place_levels
get_image_memory_requirements i =
    image_levels i >>= λ levels. elim levels [ [] ↦ none | l ∷ ls ↦ some (place_levels i l ls) ]
