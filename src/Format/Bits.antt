-- ===== src/Format/Bits.antt =====
-- `getFormatBpp` of driver/common.c, bits per pixel.
use rpi_vk_driver.Base.{ℕ}
use rpi_vk_driver.Format.{
  Format, r64g64b64a64_uint, r64g64b64a64_sint, r64g64b64a64_sfloat, r64g64b64_uint, r64g64b64_sint,
  r64g64b64_sfloat, r32g32b32a32_uint, r32g32b32a32_sint, r32g32b32a32_sfloat, r64g64_uint,
  r64g64_sint, r64g64_sfloat, r32g32b32_uint, r32g32b32_sint, r32g32b32_sfloat, r16g16b16a16_sfloat,
  r16g16b16a16_unorm, r16g16b16a16_snorm, r16g16b16a16_uscaled, r16g16b16a16_sscaled,
  r16g16b16a16_uint, r16g16b16a16_sint, r32g32_uint, r32g32_sint, r32g32_sfloat, r64_uint, r64_sint,
  r64_sfloat, r16g16b16_unorm, r16g16b16_snorm, r16g16b16_uscaled, r16g16b16_sscaled,
  r16g16b16_uint, r16g16b16_sint, r16g16b16_sfloat, r8g8b8a8_unorm, r32_uint, r8g8b8a8_uint,
  r8g8b8a8_snorm, r8g8b8a8_uscaled, r8g8b8a8_sscaled, r8g8b8a8_sint, r8g8b8a8_srgb, b8g8r8a8_unorm,
  b8g8r8a8_snorm, b8g8r8a8_uscaled, b8g8r8a8_sscaled, b8g8r8a8_uint, b8g8r8a8_sint, b8g8r8a8_srgb,
  a8b8g8r8_unorm_pack32, a8b8g8r8_snorm_pack32, a8b8g8r8_uscaled_pack32, a8b8g8r8_sscaled_pack32,
  a8b8g8r8_uint_pack32, a8b8g8r8_sint_pack32, a8b8g8r8_srgb_pack32, a2r10g10b10_unorm_pack32,
  a2r10g10b10_snorm_pack32, a2r10g10b10_uscaled_pack32, a2r10g10b10_sscaled_pack32,
  a2r10g10b10_uint_pack32, a2r10g10b10_sint_pack32, a2b10g10r10_unorm_pack32,
  a2b10g10r10_snorm_pack32, a2b10g10r10_uscaled_pack32, a2b10g10r10_sscaled_pack32,
  a2b10g10r10_uint_pack32, a2b10g10r10_sint_pack32, r16g16_unorm, r16g16_snorm, r16g16_uscaled,
  r16g16_sscaled, r16g16_uint, r16g16_sint, r16g16_sfloat, r32_sint, r32_sfloat,
  b10g11r11_ufloat_pack32, e5b9g9r9_ufloat_pack32, r8g8b8_unorm, r8g8b8_snorm, r8g8b8_uscaled,
  r8g8b8_sscaled, r8g8b8_uint, r8g8b8_sint, r8g8b8_srgb, b8g8r8_unorm, b8g8r8_snorm, b8g8r8_uscaled,
  b8g8r8_sscaled, b8g8r8_uint, b8g8r8_sint, b8g8r8_srgb, r5g5b5a1_unorm_pack16,
  r4g4b4a4_unorm_pack16, r5g6b5_unorm_pack16, r8g8_unorm, r16_sfloat, r16_sint,
  b4g4r4a4_unorm_pack16, b5g6r5_unorm_pack16, b5g5r5a1_unorm_pack16, a1r5g5b5_unorm_pack16,
  r8g8_snorm, r8g8_uscaled, r8g8_sscaled, r8g8_uint, r8g8_sint, r8g8_srgb, r16_unorm, r16_snorm,
  r16_uscaled, r16_sscaled, r16_uint, r8_unorm, r8_sint, s8_uint, r4g4_unorm_pack8, r8_snorm,
  r8_uscaled, r8_sscaled, r8_uint, r8_srgb, undefined, g8b8g8r8_422_unorm, d32_sfloat_s8_uint,
  d16_unorm_s8_uint, d24_unorm_s8_uint, d32_sfloat, x8_d24_unorm_pack32, d16_unorm,
  etc2_r8g8b8_unorm_block,
}

-- `getFormatBpp`: the unknown formats fail an assert of debug builds, and are 0 else.
unfoldable pub get_format_bpp : Format → ℕ
get_format_bpp r64g64b64a64_uint = 256
get_format_bpp r64g64b64a64_sint = 256
get_format_bpp r64g64b64a64_sfloat = 256
get_format_bpp r64g64b64_uint = 192
get_format_bpp r64g64b64_sint = 192
get_format_bpp r64g64b64_sfloat = 192
get_format_bpp r32g32b32a32_uint = 128
get_format_bpp r32g32b32a32_sint = 128
get_format_bpp r32g32b32a32_sfloat = 128
get_format_bpp r64g64_uint = 128
get_format_bpp r64g64_sint = 128
get_format_bpp r64g64_sfloat = 128
get_format_bpp r32g32b32_uint = 96
get_format_bpp r32g32b32_sint = 96
get_format_bpp r32g32b32_sfloat = 96
get_format_bpp r16g16b16a16_sfloat = 64
get_format_bpp r16g16b16a16_unorm = 64
get_format_bpp r16g16b16a16_snorm = 64
get_format_bpp r16g16b16a16_uscaled = 64
get_format_bpp r16g16b16a16_sscaled = 64
get_format_bpp r16g16b16a16_uint = 64
get_format_bpp r16g16b16a16_sint = 64
get_format_bpp r32g32_uint = 64
get_format_bpp r32g32_sint = 64
get_format_bpp r32g32_sfloat = 64
get_format_bpp r64_uint = 64
get_format_bpp r64_sint = 64
get_format_bpp r64_sfloat = 64
get_format_bpp r16g16b16_unorm = 48
get_format_bpp r16g16b16_snorm = 48
get_format_bpp r16g16b16_uscaled = 48
get_format_bpp r16g16b16_sscaled = 48
get_format_bpp r16g16b16_uint = 48
get_format_bpp r16g16b16_sint = 48
get_format_bpp r16g16b16_sfloat = 48
get_format_bpp r8g8b8a8_unorm = 32
get_format_bpp r32_uint = 32
get_format_bpp r8g8b8a8_uint = 32
get_format_bpp r8g8b8a8_snorm = 32
get_format_bpp r8g8b8a8_uscaled = 32
get_format_bpp r8g8b8a8_sscaled = 32
get_format_bpp r8g8b8a8_sint = 32
get_format_bpp r8g8b8a8_srgb = 32
get_format_bpp b8g8r8a8_unorm = 32
get_format_bpp b8g8r8a8_snorm = 32
get_format_bpp b8g8r8a8_uscaled = 32
get_format_bpp b8g8r8a8_sscaled = 32
get_format_bpp b8g8r8a8_uint = 32
get_format_bpp b8g8r8a8_sint = 32
get_format_bpp b8g8r8a8_srgb = 32
get_format_bpp a8b8g8r8_unorm_pack32 = 32
get_format_bpp a8b8g8r8_snorm_pack32 = 32
get_format_bpp a8b8g8r8_uscaled_pack32 = 32
get_format_bpp a8b8g8r8_sscaled_pack32 = 32
get_format_bpp a8b8g8r8_uint_pack32 = 32
get_format_bpp a8b8g8r8_sint_pack32 = 32
get_format_bpp a8b8g8r8_srgb_pack32 = 32
get_format_bpp a2r10g10b10_unorm_pack32 = 32
get_format_bpp a2r10g10b10_snorm_pack32 = 32
get_format_bpp a2r10g10b10_uscaled_pack32 = 32
get_format_bpp a2r10g10b10_sscaled_pack32 = 32
get_format_bpp a2r10g10b10_uint_pack32 = 32
get_format_bpp a2r10g10b10_sint_pack32 = 32
get_format_bpp a2b10g10r10_unorm_pack32 = 32
get_format_bpp a2b10g10r10_snorm_pack32 = 32
get_format_bpp a2b10g10r10_uscaled_pack32 = 32
get_format_bpp a2b10g10r10_sscaled_pack32 = 32
get_format_bpp a2b10g10r10_uint_pack32 = 32
get_format_bpp a2b10g10r10_sint_pack32 = 32
get_format_bpp r16g16_unorm = 32
get_format_bpp r16g16_snorm = 32
get_format_bpp r16g16_uscaled = 32
get_format_bpp r16g16_sscaled = 32
get_format_bpp r16g16_uint = 32
get_format_bpp r16g16_sint = 32
get_format_bpp r16g16_sfloat = 32
get_format_bpp r32_sint = 32
get_format_bpp r32_sfloat = 32
get_format_bpp b10g11r11_ufloat_pack32 = 32
get_format_bpp e5b9g9r9_ufloat_pack32 = 32
get_format_bpp r8g8b8_unorm = 24
get_format_bpp r8g8b8_snorm = 24
get_format_bpp r8g8b8_uscaled = 24
get_format_bpp r8g8b8_sscaled = 24
get_format_bpp r8g8b8_uint = 24
get_format_bpp r8g8b8_sint = 24
get_format_bpp r8g8b8_srgb = 24
get_format_bpp b8g8r8_unorm = 24
get_format_bpp b8g8r8_snorm = 24
get_format_bpp b8g8r8_uscaled = 24
get_format_bpp b8g8r8_sscaled = 24
get_format_bpp b8g8r8_uint = 24
get_format_bpp b8g8r8_sint = 24
get_format_bpp b8g8r8_srgb = 24
get_format_bpp r5g5b5a1_unorm_pack16 = 16
get_format_bpp r4g4b4a4_unorm_pack16 = 16
get_format_bpp r5g6b5_unorm_pack16 = 16
get_format_bpp r8g8_unorm = 16
get_format_bpp r16_sfloat = 16
get_format_bpp r16_sint = 16
get_format_bpp b4g4r4a4_unorm_pack16 = 16
get_format_bpp b5g6r5_unorm_pack16 = 16
get_format_bpp b5g5r5a1_unorm_pack16 = 16
get_format_bpp a1r5g5b5_unorm_pack16 = 16
get_format_bpp r8g8_snorm = 16
get_format_bpp r8g8_uscaled = 16
get_format_bpp r8g8_sscaled = 16
get_format_bpp r8g8_uint = 16
get_format_bpp r8g8_sint = 16
get_format_bpp r8g8_srgb = 16
get_format_bpp r16_unorm = 16
get_format_bpp r16_snorm = 16
get_format_bpp r16_uscaled = 16
get_format_bpp r16_sscaled = 16
get_format_bpp r16_uint = 16
get_format_bpp r8_unorm = 8
get_format_bpp r8_sint = 8
get_format_bpp s8_uint = 8
get_format_bpp r4g4_unorm_pack8 = 8
get_format_bpp r8_snorm = 8
get_format_bpp r8_uscaled = 8
get_format_bpp r8_sscaled = 8
get_format_bpp r8_uint = 8
get_format_bpp r8_srgb = 8
get_format_bpp undefined = 8
get_format_bpp g8b8g8r8_422_unorm = 8
get_format_bpp d32_sfloat_s8_uint = 64
get_format_bpp d16_unorm_s8_uint = 32
get_format_bpp d24_unorm_s8_uint = 32
get_format_bpp d32_sfloat = 32
get_format_bpp x8_d24_unorm_pack32 = 32
get_format_bpp d16_unorm = 16
get_format_bpp etc2_r8g8b8_unorm_block = 4
get_format_bpp _ = 0
