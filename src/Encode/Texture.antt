-- ===== src/Encode/Texture.antt =====
-- Reading the packed words of driver/common.c back, field by field.
use rpi_vk_driver.Base.{
  ℕ, ◌+◌, ◌*◌, ◌/◌, ◌%◌, ◌^◌, ◌<◌, ◌≡◌, ◌||◌, arith, Bool, true, false, u32, refl,
}
use rpi_vk_driver.Base.Bits.{bit_or_low, zero-bit_or, bit_and_ones, bit_and_field}
use rpi_vk_driver.Base.Fields.{join_above, join_below, join_rest, join_flag, digit}
use rpi_vk_driver.Encode.{TextureUniform, truthy, encode_texture_uniform, encode_vpm_setup}

vpm_as_sum :
    (stride direction laned size address read : ℕ)
    → encode_vpm_setup stride direction laned size address read
      ≡ read % 16 * 2 ^ 20
        + stride % 64 * 2 ^ 12
        + direction % 2 * 2 ^ 11
        + laned % 2 * 2 ^ 10
        + size % 4 * 2 ^ 8
        + address % 256
unfolding encode_vpm_setup
vpm_as_sum stride direction laned size address read =
    let a0 = 0 + read % 16 * 2 ^ 20 in
    let a1 = a0 + stride % 64 * 2 ^ 12 in
    let a2 = a1 + direction % 2 * 2 ^ 11 in
    let a3 = a2 + laned % 2 * 2 ^ 10 in
    let a4 = a3 + size % 4 * 2 ^ 8 in
    rw
      (
        join_above 20 4 0 read (omega arith) (omega arith),
        join_below 20 12 6 a0 (read % 16) stride (omega arith) (omega arith) (omega arith),
        join_below 12 11 1 a1 (a1 / 2 ^ 12) direction (omega arith) (omega arith) (omega arith),
        join_below 11 10 1 a2 (a2 / 2 ^ 11) laned (omega arith) (omega arith) (omega arith),
        join_below 10 8 2 a3 (a3 / 2 ^ 10) size (omega arith) (omega arith) (omega arith),
        bit_and_ones 8 address,
        join_rest 8 a4 (a4 / 2 ^ 8) (address % 256) (omega arith) (omega arith),
      )
      (omega arith)

-- A word of `encodeVPMSetup` gives each argument back, cut to the width of its field, and has no
-- other digit set.
pub encode_vpm_setup-fields :
    (stride direction laned size address read : ℕ)
    → let word = encode_vpm_setup stride direction laned size address read in
      (word % 256 ≡ address % 256)
      × (word / 2 ^ 8 % 4 ≡ size % 4)
      × (word / 2 ^ 10 % 2 ≡ laned % 2)
      × (word / 2 ^ 11 % 2 ≡ direction % 2)
      × (word / 2 ^ 12 % 64 ≡ stride % 64)
      × (word / 2 ^ 18 % 4 ≡ 0)
      × (word / 2 ^ 20 ≡ read % 16)
encode_vpm_setup-fields stride direction laned size address read =
    omega (arith, vpm_as_sum stride direction laned size address read)

digit-lt : (b : Bool) → digit b < 2
digit-lt true = omega arith
digit-lt false = omega arith

texture_word_0 :
    (t : TextureUniform)
    → (encode_texture_uniform t).0
      ≡ t.num_mip_levels % 16
        + t.texture_data_type % 16 * 2 ^ 4
        + digit (truthy t.is_cube_map) * 2 ^ 9
        + t.texture_base_ptr % 2 ^ 20 * 2 ^ 12
unfolding encode_texture_uniform
texture_word_0 t =
    let cube = truthy t.is_cube_map in
    let a0 = t.num_mip_levels % 16 in
    let a1 = a0 + t.texture_data_type % 16 * 2 ^ 4 in
    let a2 = a1 + digit cube * 2 ^ 9 in
    rw
      (
        bit_and_ones 4 t.num_mip_levels,
        zero-bit_or a0,
        join_above 4 4 a0 t.texture_data_type (omega arith) (omega arith),
        join_flag 9 a1 cube (omega arith) (omega arith),
        join_above 12 20 a2 t.texture_base_ptr (omega (arith, digit-lt cube)) (omega arith),
      )
      refl

texture_word_1 :
    (t : TextureUniform)
    → (encode_texture_uniform t).1
      ≡ t.wrap_s % 4
        + t.wrap_t % 4 * 2 ^ 2
        + t.min_filter % 8 * 2 ^ 4
        + t.mag_filter % 2 * 2 ^ 7
        + t.width % 2 ^ 11 * 2 ^ 8
        + t.height % 2 ^ 11 * 2 ^ 20
        + t.texture_data_type / 16 % 2 * 2 ^ 31
unfolding encode_texture_uniform
texture_word_1 t =
    let a0 = t.wrap_s % 4 in
    let a1 = a0 + t.wrap_t % 4 * 2 ^ 2 in
    let a2 = a1 + t.min_filter % 8 * 2 ^ 4 in
    let a3 = a2 + t.mag_filter % 2 * 2 ^ 7 in
    let a4 = a3 + t.width % 2 ^ 11 * 2 ^ 8 in
    let a5 = a4 + t.height % 2 ^ 11 * 2 ^ 20 in
    let high = t.texture_data_type / 16 % 2 in
    let cast : u32 (high * 16 / 16 * 2 ^ 31) ≡ high * 2 ^ 31 = omega arith in
    rw
      (
        bit_and_ones 2 t.wrap_s,
        zero-bit_or a0,
        join_above 2 2 a0 t.wrap_t (omega arith) (omega arith),
        join_above 4 3 a1 t.min_filter (omega arith) (omega arith),
        join_above 7 1 a2 t.mag_filter (omega arith) (omega arith),
        join_above 8 11 a3 t.width (omega arith) (omega arith),
        join_above 20 11 a4 t.height (omega arith) (omega arith),
        bit_and_field 1 4 t.texture_data_type,
        cast,
        bit_or_low 31 a5 high (omega arith),
      )
      refl

texture_word_2 :
    (t : TextureUniform)
    → (encode_texture_uniform t).2
      ≡ t.no_auto_lod % 2
        + t.cubemap_stride % 2 ^ 18 * 2 ^ 12
        + digit (truthy t.is_cube_map || truthy t.no_auto_lod) * 2 ^ 30
unfolding encode_texture_uniform
texture_word_2 t =
    let flag = truthy t.is_cube_map || truthy t.no_auto_lod in
    let a0 = t.no_auto_lod % 2 in
    let a1 = a0 + t.cubemap_stride % 2 ^ 18 * 2 ^ 12 in
    rw
      (
        bit_and_ones 1 t.no_auto_lod,
        zero-bit_or a0,
        join_above 12 18 a0 t.cubemap_stride (omega arith) (omega arith),
        join_flag 30 a1 flag (omega arith) (omega arith),
      )
      refl

-- The four words of `encodeTextureUniform` give back the level count, the data type in its two
-- parts, the cube map flag, the base address, the wrap modes, the filters, the width, the height,
-- the level-of-detail flag and the cube map stride, each cut to the width of its field; the mode
-- digits of the third word are set to 1 exactly for a cube map or without automatic level of
-- detail; the fourth word is 0.
pub encode_texture_uniform-fields :
    (t : TextureUniform)
    → let (p0, p1, p2, p3) = encode_texture_uniform t in
      ((p0 % 16 ≡ t.num_mip_levels % 16)
        × (p0 / 2 ^ 4 % 16 + 16 * (p1 / 2 ^ 31) ≡ t.texture_data_type % 32)
        × (p0 / 2 ^ 9 % 8 ≡ digit (truthy t.is_cube_map))
        × (p0 / 2 ^ 12 ≡ t.texture_base_ptr % 2 ^ 20))
      × ((p1 % 4 ≡ t.wrap_s % 4)
          × (p1 / 2 ^ 2 % 4 ≡ t.wrap_t % 4)
          × (p1 / 2 ^ 4 % 8 ≡ t.min_filter % 8)
          × (p1 / 2 ^ 7 % 2 ≡ t.mag_filter % 2)
          × (p1 / 2 ^ 8 % 2 ^ 12 ≡ t.width % 2 ^ 11)
          × (p1 / 2 ^ 20 % 2 ^ 11 ≡ t.height % 2 ^ 11))
      × ((p2 % 2 ≡ t.no_auto_lod % 2)
          × (p2 / 2 ^ 12 % 2 ^ 18 ≡ t.cubemap_stride % 2 ^ 18)
          × (p2 / 2 ^ 30 ≡ digit (truthy t.is_cube_map || truthy t.no_auto_lod))
          × (p3 ≡ 0))
encode_texture_uniform-fields t =
    let cube = truthy t.is_cube_map in
    let flag = cube || truthy t.no_auto_lod in
    (
      omega (arith, texture_word_0 t, texture_word_1 t, digit-lt cube),
      omega (arith, texture_word_1 t),
      (
        omega (arith, texture_word_2 t),
        omega (arith, texture_word_2 t),
        omega (arith, texture_word_2 t, digit-lt flag),
        unfold encode_texture_uniform in refl,
      ),
    )
