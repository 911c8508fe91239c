-- ===== src/Format.antt =====
-- `VkFormat`: the formats that driver/common.c names, and any other. The code only compares
-- formats with these names, so the enumeration's numbers play no part.
pub mod Bits
pub mod Roles
pub mod Components
use rpi_vk_driver.Base.{ℕ}

pub data Format : Type 0 where
  r64g64b64a64_uint r64g64b64a64_sint r64g64b64a64_sfloat r64g64b64_uint r64g64b64_sint : Format
  r64g64b64_sfloat r32g32b32a32_uint r32g32b32a32_sint r32g32b32a32_sfloat r64g64_uint : Format
  r64g64_sint r64g64_sfloat r32g32b32_uint r32g32b32_sint r32g32b32_sfloat : Format
  r16g16b16a16_sfloat r16g16b16a16_unorm r16g16b16a16_snorm r16g16b16a16_uscaled
        r16g16b16a16_sscaled :
      Format
  r16g16b16a16_uint r16g16b16a16_sint r32g32_uint r32g32_sint r32g32_sfloat : Format
  r64_uint r64_sint r64_sfloat r16g16b16_unorm r16g16b16_snorm : Format
  r16g16b16_uscaled r16g16b16_sscaled r16g16b16_uint r16g16b16_sint r16g16b16_sfloat : Format
  r8g8b8a8_unorm r32_uint r8g8b8a8_uint r8g8b8a8_snorm r8g8b8a8_uscaled : Format
  r8g8b8a8_sscaled r8g8b8a8_sint r8g8b8a8_srgb b8g8r8a8_unorm b8g8r8a8_snorm : Format
  b8g8r8a8_uscaled b8g8r8a8_sscaled b8g8r8a8_uint b8g8r8a8_sint b8g8r8a8_srgb : Format
  a8b8g8r8_unorm_pack32 a8b8g8r8_snorm_pack32 a8b8g8r8_uscaled_pack32 a8b8g8r8_sscaled_pack32
        a8b8g8r8_uint_pack32 :
      Format
  a8b8g8r8_sint_pack32 a8b8g8r8_srgb_pack32 a2r10g10b10_unorm_pack32 a2r10g10b10_snorm_pack32
        a2r10g10b10_uscaled_pack32 :
      Format
  a2r10g10b10_sscaled_pack32 a2r10g10b10_uint_pack32 a2r10g10b10_sint_pack32
        a2b10g10r10_unorm_pack32 a2b10g10r10_snorm_pack32 :
      Format
  a2b10g10r10_uscaled_pack32 a2b10g10r10_sscaled_pack32 a2b10g10r10_uint_pack32
        a2b10g10r10_sint_pack32 r16g16_unorm :
      Format
  r16g16_snorm r16g16_uscaled r16g16_sscaled r16g16_uint r16g16_sint : Format
  r16g16_sfloat r32_sint r32_sfloat b10g11r11_ufloat_pack32 e5b9g9r9_ufloat_pack32 : Format
  r8g8b8_unorm r8g8b8_snorm r8g8b8_uscaled r8g8b8_sscaled r8g8b8_uint : Format
  r8g8b8_sint r8g8b8_srgb b8g8r8_unorm b8g8r8_snorm b8g8r8_uscaled : Format
  b8g8r8_sscaled b8g8r8_uint b8g8r8_sint b8g8r8_srgb r5g5b5a1_unorm_pack16 : Format
  r4g4b4a4_unorm_pack16 r5g6b5_unorm_pack16 r8g8_unorm r16_sfloat r16_sint : Format
  b4g4r4a4_unorm_pack16 b5g6r5_unorm_pack16 b5g5r5a1_unorm_pack16 a1r5g5b5_unorm_pack16 r8g8_snorm :
      Format
  r8g8_uscaled r8g8_sscaled r8g8_uint r8g8_sint r8g8_srgb : Format
  r16_unorm r16_snorm r16_uscaled r16_sscaled r16_uint : Format
  r8_unorm r8_sint s8_uint r4g4_unorm_pack8 r8_snorm : Format
  r8_uscaled r8_sscaled r8_uint r8_srgb undefined : Format
  g8b8g8r8_422_unorm d32_sfloat_s8_uint d16_unorm_s8_uint d24_unorm_s8_uint d32_sfloat : Format
  x8_d24_unorm_pack32 d16_unorm etc2_r8g8b8_unorm_block : Format
  other : ℕ → Format
