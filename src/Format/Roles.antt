-- ===== src/Format/Roles.antt =====
-- What driver/common.c says of a format: whether it is for depth and stencil, and its numbers as a
-- texture and as a render target of the hardware.
use rpi_vk_driver.Base.{ℕ, u32_max, Bool, true, false}
use rpi_vk_driver.Format.{
  Format, d16_unorm, x8_d24_unorm_pack32, d32_sfloat, s8_uint, d16_unorm_s8_uint, d24_unorm_s8_uint,
  d32_sfloat_s8_uint, r16g16b16a16_sfloat, r8g8b8_unorm, r8g8b8a8_unorm, r5g5b5a1_unorm_pack16,
  r4g4b4a4_unorm_pack16, b5g6r5_unorm_pack16, r8g8_unorm, r16_sfloat, r16_sint, r8_unorm, r8_sint,
  etc2_r8g8b8_unorm_block, g8b8g8r8_422_unorm, undefined, b8g8r8a8_unorm, r5g6b5_unorm_pack16,
}

-- `isDepthStencilFormat`
unfoldable pub is_depth_stencil_format : Format → Bool
is_depth_stencil_format d16_unorm = true
is_depth_stencil_format x8_d24_unorm_pack32 = true
is_depth_stencil_format d32_sfloat = true
is_depth_stencil_format s8_uint = true
is_depth_stencil_format d16_unorm_s8_uint = true
is_depth_stencil_format d24_unorm_s8_uint = true
is_depth_stencil_format d32_sfloat_s8_uint = true
is_depth_stencil_format _ = false

-- `getTextureDataType`: a `uint8_t`, so the -1 of an unsupported format is 255.
unfoldable pub get_texture_data_type : Format → ℕ
get_texture_data_type r16g16b16a16_sfloat = 15
get_texture_data_type r8g8b8_unorm = 1
get_texture_data_type r8g8b8a8_unorm = 0
get_texture_data_type r5g5b5a1_unorm_pack16 = 3
get_texture_data_type r4g4b4a4_unorm_pack16 = 2
get_texture_data_type b5g6r5_unorm_pack16 = 4
get_texture_data_type r8g8_unorm = 7
get_texture_data_type r16_sfloat = 9
get_texture_data_type r16_sint = 11
get_texture_data_type r8_unorm = 5
get_texture_data_type r8_sint = 10
get_texture_data_type etc2_r8g8b8_unorm_block = 8
get_texture_data_type g8b8g8r8_422_unorm = 17
get_texture_data_type x8_d24_unorm_pack32 = 0
get_texture_data_type d24_unorm_s8_uint = 0
get_texture_data_type undefined = 255
get_texture_data_type _ = 255

-- `VC4_RENDER_CONFIG_FORMAT_RGBA8888`
abbrev pub rgba8888 : ℕ
rgba8888 = 1

-- `VC4_RENDER_CONFIG_FORMAT_BGR565`
abbrev pub bgr565 : ℕ
bgr565 = 2

-- `getRenderTargetFormatVC4`
unfoldable pub get_render_target_format_vc4 : Format → ℕ
get_render_target_format_vc4 r16g16b16a16_sfloat = rgba8888
get_render_target_format_vc4 r8g8b8a8_unorm = rgba8888
get_render_target_format_vc4 b8g8r8a8_unorm = rgba8888
get_render_target_format_vc4 x8_d24_unorm_pack32 = rgba8888
get_render_target_format_vc4 etc2_r8g8b8_unorm_block = rgba8888
get_render_target_format_vc4 d24_unorm_s8_uint = rgba8888
get_render_target_format_vc4 b5g6r5_unorm_pack16 = bgr565
get_render_target_format_vc4 r5g6b5_unorm_pack16 = bgr565
get_render_target_format_vc4 _ = u32_max
