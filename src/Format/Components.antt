-- ===== src/Format/Components.antt =====
-- The component widths that a format's name spells out, and `getFormatBpp` against their sum.
use rpi_vk_driver.Base.{ℕ, ◌≡◌, refl, Bool, true, false, List, [], ◌∷◌, sum}
use rpi_vk_driver.Format.{
  Format, r64g64b64a64_uint, r64g64b64a64_sint, r64g64b64a64_sfloat, r64g64b64_uint, r64g64b64_sint,
  r64g64b64_sfloat, r32g32b32a32_uint, r32g32b32a32_sint, r32g32b32a32_sfloat, r64g64_uint,
  r64g64_sint, r64g64_sfloat, r32g32b32_uint, r32g32b32_sint, r32g32b32_sfloat, r16g16b16a16_sfloat,
  r16g16b16a16_unorm, r16g16b16a16_snorm, r16g16b16a16_uscaled, r16g16b16a16_sscaled,
  r16g16b16a16_uint, r16g16b16a16_sint, r32g32_uint, r32g32_sint, r32g32_sfloat, r64_uint, r64_sint,
  r64_sfloat, r16g16b16_unorm, r16g16b16_snorm, r16g16b16_uscaled, r16g16b16_sscaled,
  r16g16b16_uint, r16g16b16_sint, r16g16b16_sfloat, r8g8b8a8_unorm, r32_uint, r8g8b8a8_uint,
  r8g8b8a8_snorm, r8g8b8a8_uscaled, r8g8b8a8_sscaled, r8g8b8a8_sint, r8g8b8a8_srgb, b8g8r8a8_unorm,
  b8g8r8a8_snorm, b8g8r8a8_uscaled, b8g8r8a8_sscaled, b8g8r8a8_uint, b8g8r8a8_sint, b8g8r8a8_srgb,
  a8b8g8r8_unorm_pack32, a8b8g8r8_snorm_pack32, a8b8g8r8_uscaled_pack32, a8b8g8r8_sscaled_pack32,
  a8b8g8r8_uint_pack32, a8b8g8r8_sint_pack32, a8b8g8r8_srgb_pack32, a2r10g10b10_unorm_pack32,
  a2r10g10b10_snorm_pack32, a2r10g10b10_uscaled_pack32, a2r10g10b10_sscaled_pack32,
  a2r10g10b10_uint_pack32, a2r10g10b10_sint_pack32, a2b10g10r10_unorm_pack32,
  a2b10g10r10_snorm_pack32, a2b10g10r10_uscaled_pack32, a2b10g10r10_sscaled_pack32,
  a2b10g10r10_uint_pack32, a2b10g10r10_sint_pack32, r16g16_unorm, r16g16_snorm, r16g16_uscaled,
  r16g16_sscaled, r16g16_uint, r16g16_sint, r16g16_sfloat, r32_sint, r32_sfloat,
  b10g11r11_ufloat_pack32, e5b9g9r9_ufloat_pack32, r8g8b8_unorm, r8g8b8_snorm, r8g8b8_uscaled,
  r8g8b8_sscaled, r8g8b8_uint, r8g8b8_sint, r8g8b8_srgb, b8g8r8_unorm, b8g8r8_snorm, b8g8r8_uscaled,
  b8g8r8_sscaled, b8g8r8_uint, b8g8r8_sint, b8g8r8_srgb, r5g5b5a1_unorm_pack16,
  r4g4b4a4_unorm_pack16, r5g6b5_unorm_pack16, r8g8_unorm, r16_sfloat, r16_sint,
  b4g4r4a4_unorm_pack16, b5g6r5_unorm_pack16, b5g5r5a1_unorm_pack16, a1r5g5b5_unorm_pack16,
  r8g8_snorm, r8g8_uscaled, r8g8_sscaled, r8g8_uint, r8g8_sint, r8g8_srgb, r16_unorm, r16_snorm,
  r16_uscaled, r16_sscaled, r16_uint, r8_unorm, r8_sint, s8_uint, r4g4_unorm_pack8, r8_snorm,
  r8_uscaled, r8_sscaled, r8_uint, r8_srgb, undefined, g8b8g8r8_422_unorm, d32_sfloat_s8_uint,
  d16_unorm_s8_uint, d24_unorm_s8_uint, d32_sfloat, x8_d24_unorm_pack32, d16_unorm,
  etc2_r8g8b8_unorm_block,
}
use rpi_vk_driver.Format.Bits.{get_format_bpp}

-- The widths in bits, as the name of the format lists them.
abbrev pub component_bits : Format → List ℕ
component_bits r64g64b64a64_uint = 64 ∷ 64 ∷ 64 ∷ 64 ∷ []
component_bits r64g64b64a64_sint = 64 ∷ 64 ∷ 64 ∷ 64 ∷ []
component_bits r64g64b64a64_sfloat = 64 ∷ 64 ∷ 64 ∷ 64 ∷ []
component_bits r64g64b64_uint = 64 ∷ 64 ∷ 64 ∷ []
component_bits r64g64b64_sint = 64 ∷ 64 ∷ 64 ∷ []
component_bits r64g64b64_sfloat = 64 ∷ 64 ∷ 64 ∷ []
component_bits r32g32b32a32_uint = 32 ∷ 32 ∷ 32 ∷ 32 ∷ []
component_bits r32g32b32a32_sint = 32 ∷ 32 ∷ 32 ∷ 32 ∷ []
component_bits r32g32b32a32_sfloat = 32 ∷ 32 ∷ 32 ∷ 32 ∷ []
component_bits r64g64_uint = 64 ∷ 64 ∷ []
component_bits r64g64_sint = 64 ∷ 64 ∷ []
component_bits r64g64_sfloat = 64 ∷ 64 ∷ []
component_bits r32g32b32_uint = 32 ∷ 32 ∷ 32 ∷ []
component_bits r32g32b32_sint = 32 ∷ 32 ∷ 32 ∷ []
component_bits r32g32b32_sfloat = 32 ∷ 32 ∷ 32 ∷ []
component_bits r16g16b16a16_sfloat = 16 ∷ 16 ∷ 16 ∷ 16 ∷ []
component_bits r16g16b16a16_unorm = 16 ∷ 16 ∷ 16 ∷ 16 ∷ []
component_bits r16g16b16a16_snorm = 16 ∷ 16 ∷ 16 ∷ 16 ∷ []
component_bits r16g16b16a16_uscaled = 16 ∷ 16 ∷ 16 ∷ 16 ∷ []
component_bits r16g16b16a16_sscaled = 16 ∷ 16 ∷ 16 ∷ 16 ∷ []
component_bits r16g16b16a16_uint = 16 ∷ 16 ∷ 16 ∷ 16 ∷ []
component_bits r16g16b16a16_sint = 16 ∷ 16 ∷ 16 ∷ 16 ∷ []
component_bits r32g32_uint = 32 ∷ 32 ∷ []
component_bits r32g32_sint = 32 ∷ 32 ∷ []
component_bits r32g32_sfloat = 32 ∷ 32 ∷ []
component_bits r64_uint = 64 ∷ []
component_bits r64_sint = 64 ∷ []
component_bits r64_sfloat = 64 ∷ []
component_bits r16g16b16_unorm = 16 ∷ 16 ∷ 16 ∷ []
component_bits r16g16b16_snorm = 16 ∷ 16 ∷ 16 ∷ []
component_bits r16g16b16_uscaled = 16 ∷ 16 ∷ 16 ∷ []
component_bits r16g16b16_sscaled = 16 ∷ 16 ∷ 16 ∷ []
component_bits r16g16b16_uint = 16 ∷ 16 ∷ 16 ∷ []
component_bits r16g16b16_sint = 16 ∷ 16 ∷ 16 ∷ []
component_bits r16g16b16_sfloat = 16 ∷ 16 ∷ 16 ∷ []
component_bits r8g8b8a8_unorm = 8 ∷ 8 ∷ 8 ∷ 8 ∷ []
component_bits r32_uint = 32 ∷ []
component_bits r8g8b8a8_uint = 8 ∷ 8 ∷ 8 ∷ 8 ∷ []
component_bits r8g8b8a8_snorm = 8 ∷ 8 ∷ 8 ∷ 8 ∷ []
component_bits r8g8b8a8_uscaled = 8 ∷ 8 ∷ 8 ∷ 8 ∷ []
component_bits r8g8b8a8_sscaled = 8 ∷ 8 ∷ 8 ∷ 8 ∷ []
component_bits r8g8b8a8_sint = 8 ∷ 8 ∷ 8 ∷ 8 ∷ []
component_bits r8g8b8a8_srgb = 8 ∷ 8 ∷ 8 ∷ 8 ∷ []
component_bits b8g8r8a8_unorm = 8 ∷ 8 ∷ 8 ∷ 8 ∷ []
component_bits b8g8r8a8_snorm = 8 ∷ 8 ∷ 8 ∷ 8 ∷ []
component_bits b8g8r8a8_uscaled = 8 ∷ 8 ∷ 8 ∷ 8 ∷ []
component_bits b8g8r8a8_sscaled = 8 ∷ 8 ∷ 8 ∷ 8 ∷ []
component_bits b8g8r8a8_uint = 8 ∷ 8 ∷ 8 ∷ 8 ∷ []
component_bits b8g8r8a8_sint = 8 ∷ 8 ∷ 8 ∷ 8 ∷ []
component_bits b8g8r8a8_srgb = 8 ∷ 8 ∷ 8 ∷ 8 ∷ []
component_bits a8b8g8r8_unorm_pack32 = 8 ∷ 8 ∷ 8 ∷ 8 ∷ []
component_bits a8b8g8r8_snorm_pack32 = 8 ∷ 8 ∷ 8 ∷ 8 ∷ []
component_bits a8b8g8r8_uscaled_pack32 = 8 ∷ 8 ∷ 8 ∷ 8 ∷ []
component_bits a8b8g8r8_sscaled_pack32 = 8 ∷ 8 ∷ 8 ∷ 8 ∷ []
component_bits a8b8g8r8_uint_pack32 = 8 ∷ 8 ∷ 8 ∷ 8 ∷ []
component_bits a8b8g8r8_sint_pack32 = 8 ∷ 8 ∷ 8 ∷ 8 ∷ []
component_bits a8b8g8r8_srgb_pack32 = 8 ∷ 8 ∷ 8 ∷ 8 ∷ []
component_bits a2r10g10b10_unorm_pack32 = 2 ∷ 10 ∷ 10 ∷ 10 ∷ []
component_bits a2r10g10b10_snorm_pack32 = 2 ∷ 10 ∷ 10 ∷ 10 ∷ []
component_bits a2r10g10b10_uscaled_pack32 = 2 ∷ 10 ∷ 10 ∷ 10 ∷ []
component_bits a2r10g10b10_sscaled_pack32 = 2 ∷ 10 ∷ 10 ∷ 10 ∷ []
component_bits a2r10g10b10_uint_pack32 = 2 ∷ 10 ∷ 10 ∷ 10 ∷ []
component_bits a2r10g10b10_sint_pack32 = 2 ∷ 10 ∷ 10 ∷ 10 ∷ []
component_bits a2b10g10r10_unorm_pack32 = 2 ∷ 10 ∷ 10 ∷ 10 ∷ []
component_bits a2b10g10r10_snorm_pack32 = 2 ∷ 10 ∷ 10 ∷ 10 ∷ []
component_bits a2b10g10r10_uscaled_pack32 = 2 ∷ 10 ∷ 10 ∷ 10 ∷ []
component_bits a2b10g10r10_sscaled_pack32 = 2 ∷ 10 ∷ 10 ∷ 10 ∷ []
component_bits a2b10g10r10_uint_pack32 = 2 ∷ 10 ∷ 10 ∷ 10 ∷ []
component_bits a2b10g10r10_sint_pack32 = 2 ∷ 10 ∷ 10 ∷ 10 ∷ []
component_bits r16g16_unorm = 16 ∷ 16 ∷ []
component_bits r16g16_snorm = 16 ∷ 16 ∷ []
component_bits r16g16_uscaled = 16 ∷ 16 ∷ []
component_bits r16g16_sscaled = 16 ∷ 16 ∷ []
component_bits r16g16_uint = 16 ∷ 16 ∷ []
component_bits r16g16_sint = 16 ∷ 16 ∷ []
component_bits r16g16_sfloat = 16 ∷ 16 ∷ []
component_bits r32_sint = 32 ∷ []
component_bits r32_sfloat = 32 ∷ []
component_bits b10g11r11_ufloat_pack32 = 10 ∷ 11 ∷ 11 ∷ []
component_bits e5b9g9r9_ufloat_pack32 = 5 ∷ 9 ∷ 9 ∷ 9 ∷ []
component_bits r8g8b8_unorm = 8 ∷ 8 ∷ 8 ∷ []
component_bits r8g8b8_snorm = 8 ∷ 8 ∷ 8 ∷ []
component_bits r8g8b8_uscaled = 8 ∷ 8 ∷ 8 ∷ []
component_bits r8g8b8_sscaled = 8 ∷ 8 ∷ 8 ∷ []
component_bits r8g8b8_uint = 8 ∷ 8 ∷ 8 ∷ []
component_bits r8g8b8_sint = 8 ∷ 8 ∷ 8 ∷ []
component_bits r8g8b8_srgb = 8 ∷ 8 ∷ 8 ∷ []
component_bits b8g8r8_unorm = 8 ∷ 8 ∷ 8 ∷ []
component_bits b8g8r8_snorm = 8 ∷ 8 ∷ 8 ∷ []
component_bits b8g8r8_uscaled = 8 ∷ 8 ∷ 8 ∷ []
component_bits b8g8r8_sscaled = 8 ∷ 8 ∷ 8 ∷ []
component_bits b8g8r8_uint = 8 ∷ 8 ∷ 8 ∷ []
component_bits b8g8r8_sint = 8 ∷ 8 ∷ 8 ∷ []
component_bits b8g8r8_srgb = 8 ∷ 8 ∷ 8 ∷ []
component_bits r5g5b5a1_unorm_pack16 = 5 ∷ 5 ∷ 5 ∷ 1 ∷ []
component_bits r4g4b4a4_unorm_pack16 = 4 ∷ 4 ∷ 4 ∷ 4 ∷ []
component_bits r5g6b5_unorm_pack16 = 5 ∷ 6 ∷ 5 ∷ []
component_bits r8g8_unorm = 8 ∷ 8 ∷ []
component_bits r16_sfloat = 16 ∷ []
component_bits r16_sint = 16 ∷ []
component_bits b4g4r4a4_unorm_pack16 = 4 ∷ 4 ∷ 4 ∷ 4 ∷ []
component_bits b5g6r5_unorm_pack16 = 5 ∷ 6 ∷ 5 ∷ []
component_bits b5g5r5a1_unorm_pack16 = 5 ∷ 5 ∷ 5 ∷ 1 ∷ []
component_bits a1r5g5b5_unorm_pack16 = 1 ∷ 5 ∷ 5 ∷ 5 ∷ []
component_bits r8g8_snorm = 8 ∷ 8 ∷ []
component_bits r8g8_uscaled = 8 ∷ 8 ∷ []
component_bits r8g8_sscaled = 8 ∷ 8 ∷ []
component_bits r8g8_uint = 8 ∷ 8 ∷ []
component_bits r8g8_sint = 8 ∷ 8 ∷ []
component_bits r8g8_srgb = 8 ∷ 8 ∷ []
component_bits r16_unorm = 16 ∷ []
component_bits r16_snorm = 16 ∷ []
component_bits r16_uscaled = 16 ∷ []
component_bits r16_sscaled = 16 ∷ []
component_bits r16_uint = 16 ∷ []
component_bits r8_unorm = 8 ∷ []
component_bits r8_sint = 8 ∷ []
component_bits s8_uint = 8 ∷ []
component_bits r4g4_unorm_pack8 = 4 ∷ 4 ∷ []
component_bits r8_snorm = 8 ∷ []
component_bits r8_uscaled = 8 ∷ []
component_bits r8_sscaled = 8 ∷ []
component_bits r8_uint = 8 ∷ []
component_bits r8_srgb = 8 ∷ []
component_bits g8b8g8r8_422_unorm = 8 ∷ 8 ∷ 8 ∷ 8 ∷ []
component_bits d32_sfloat_s8_uint = 32 ∷ 8 ∷ []
component_bits d16_unorm_s8_uint = 16 ∷ 8 ∷ []
component_bits d24_unorm_s8_uint = 24 ∷ 8 ∷ []
component_bits d32_sfloat = 32 ∷ []
component_bits x8_d24_unorm_pack32 = 8 ∷ 24 ∷ []
component_bits d16_unorm = 16 ∷ []
component_bits _ = []

-- The formats whose size the code marks as to be done: the undefined format, a 4:2:2 format, the
-- two formats of depth and stencil that are padded, and a compressed one.
abbrev pub is_todo : Format → Bool
is_todo undefined = true
is_todo g8b8g8r8_422_unorm = true
is_todo d32_sfloat_s8_uint = true
is_todo d16_unorm_s8_uint = true
is_todo etc2_r8g8b8_unorm_block = true
is_todo _ = false

-- For every format that the code does not mark as to be done, `getFormatBpp` is the sum of the
-- component widths in the format's name, and 0 for a format that it does not know.
pub bpp-components : (f : Format) → is_todo f ≡ false → get_format_bpp f ≡ sum (component_bits f)
unfolding get_format_bpp
bpp-components undefined h = cc
bpp-components g8b8g8r8_422_unorm h = cc
bpp-components d32_sfloat_s8_uint h = cc
bpp-components d16_unorm_s8_uint h = cc
bpp-components etc2_r8g8b8_unorm_block h = cc
bpp-components _ h = refl
