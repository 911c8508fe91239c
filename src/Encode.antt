-- ===== src/Encode.antt =====
-- The words that driver/common.c packs for the hardware: texture uniforms and VPM setups. The
-- children say what each field of a packed word holds.
pub mod Texture
use rpi_vk_driver.Base.{
  ℕ, ◌*◌, ◌/◌, ◌%◌, ◌^◌, u32, ◌|||◌, ◌&◌, ◌<<<◌, ◌>>>◌, ◌==◌, if◌then◌else◌, Bool, true, false, not,
  ◌||◌,
}

-- The arguments of `encodeTextureUniform`; a flag is 0 or not 0.
pub record TextureUniform : Type 0 where
  pub num_mip_levels : ℕ
  pub texture_data_type : ℕ
  pub is_cube_map : ℕ
  pub cubemap_stride : ℕ
  pub texture_base_ptr : ℕ
  pub height : ℕ
  pub width : ℕ
  pub min_filter : ℕ
  pub mag_filter : ℕ
  pub wrap_t : ℕ
  pub wrap_s : ℕ
  pub no_auto_lod : ℕ

-- a C condition on a number
abbrev pub truthy : ℕ → Bool
truthy n = not (n == 0)

-- `encodeTextureUniform`: the four words of `params`
unfoldable pub encode_texture_uniform : TextureUniform → ℕ × ℕ × ℕ × ℕ
encode_texture_uniform t = (
  0
      ||| (num_mip_levels & 0xf)
      ||| (u32 ((texture_data_type & 0xf) <<< 4))
      ||| (u32 ((if truthy is_cube_map then 1 else 0) <<< 9))
      ||| (u32 ((texture_base_ptr & 0xfffff) <<< 12)),
  0
      ||| (wrap_s & 0x3)
      ||| (u32 ((wrap_t & 0x3) <<< 2))
      ||| (u32 ((min_filter & 0x7) <<< 4))
      ||| (u32 ((mag_filter & 0x1) <<< 7))
      ||| (u32 ((width & 0x7ff) <<< 8))
      ||| (u32 ((height & 0x7ff) <<< 20))
      ||| (u32 (((texture_data_type & 0x10) >>> 4) <<< 31)),
  0
      ||| (no_auto_lod & 0x1)
      ||| (u32 ((cubemap_stride & 0x3ffff) <<< 12))
      ||| (u32 ((if truthy is_cube_map || truthy no_auto_lod then 1 else 0) <<< 30)),
  0,
)
  where
    open t use {
      num_mip_levels, texture_data_type, is_cube_map, cubemap_stride, texture_base_ptr, height,
      width, min_filter, mag_filter, wrap_t, wrap_s, no_auto_lod,
    }

-- `encodeVPMSetup`
unfoldable pub encode_vpm_setup : ℕ → ℕ → ℕ → ℕ → ℕ → ℕ → ℕ
encode_vpm_setup stride direction is_laned size address vector_components_to_read =
    0
    ||| (u32 ((vector_components_to_read & 0xf) <<< 20))
    ||| (u32 ((stride & 0x3f) <<< 12))
    ||| (u32 ((direction & 0x1) <<< 11))
    ||| (u32 ((is_laned & 0x1) <<< 10))
    ||| (u32 ((size & 0x3) <<< 8))
    ||| (address & 0xff)
