-- ===== src/Examples/Images.antt =====
-- A mipmapped image.
use rpi_vk_driver.Base.{◌+◌, ◌*◌, ◌%◌, ◌≤◌, ◌≡◌, refl, some, [], ◌∷◌, add32, arith}
use mathlib.Core.List.{map}
use rpi_vk_driver.Format.{r8g8b8a8_unorm}
use rpi_vk_driver.Format.Bits.{get_format_bpp}
use rpi_vk_driver.Rounding.{round_up, get_pow2_pad, smear}
use rpi_vk_driver.Tiling.{get_utile_dimensions, is_lt_format}
use rpi_vk_driver.Image
use rpi_vk_driver.Image.Place.{Stacked, requirements-Stacked}

abbrev picture : Image.Image
picture = record {
  width = 100;
  height = 60;
  miplevels = 2;
  samples = 1;
  level_offsets = [];
  level_tiling = [];
  layers = 2;
  size = 0;
  stride = 0;
  format = r8g8b8a8_unorm;
  tiling = Image.tiled;
}

abbrev first_level : Image.Level
first_level = record { offset = 8192; tiling = Image.tiled; stride = 512; size = 32768 }

abbrev second_level : Image.Level
second_level = record { offset = 0; tiling = Image.tiled; stride = 256; size = 8192 }

levels : Image.image_levels picture ≡ some (first_level ∷ second_level ∷ [])
unfolding Image.image_levels Image.layout_levels Image.level_at Image.mip_extent Image.base_extent
    Image.pad_extent get_format_bpp get_utile_dimensions is_lt_format round_up get_pow2_pad smear
levels = refl

requirements-Stacked_example :
    let placed =
      Image.shift_levels
        (Image.level_zero_offset first_level.offset)
        (first_level ∷ second_level ∷ []) in
    let zero_offset = add32 first_level.offset (Image.level_zero_offset first_level.offset) in
    (i' : Image.Image) × (Image.get_image_memory_requirements picture ≡ some i')
    × (i'.level_offsets ≡ map (λ x. x.offset) placed)
    × Stacked placed
    × (zero_offset % 4096 ≡ 0)
    × ((zero_offset + first_level.size) * picture.layers ≤ i'.size)
    × (picture.layers ≡ 1 → i'.size % 4096 ≡ 0)
requirements-Stacked_example =
    requirements-Stacked picture first_level (second_level ∷ []) levels (omega arith) (omega arith)
