-- ===== src/Examples/Words.antt =====
-- Tables of states and packed words.
use rpi_vk_driver.Base.{◌+◌, ◌*◌, ◌/◌, ◌%◌, ◌^◌, ◌==◌, ◌≡◌, some, true, ◌||◌}
use rpi_vk_driver.Base.Fields.{digit}
use rpi_vk_driver.States
use rpi_vk_driver.States.Tables.{passes, outcome_digit, get_compare_op-passes}
use rpi_vk_driver.Encode.{TextureUniform, truthy, encode_texture_uniform}
use rpi_vk_driver.Encode.Texture.{encode_texture_uniform-fields}
use rpi_vk_driver.Stencil.{StencilState, encode_stencil_value, effective}
use rpi_vk_driver.Stencil.Decode.{config_of, decode}
use rpi_vk_driver.Stencil.RoundTrip.{decode-encode_stencil_value}

get_compare_op-passes_example :
    (States.get_compare_op States.less_or_equal / 2 ^ outcome_digit 3 5 % 2 == 1)
    ≡ passes States.less_or_equal 3 5
get_compare_op-passes_example = get_compare_op-passes States.less_or_equal 3 5

abbrev front_face : StencilState
front_face = record {
  fail_op = States.keep;
  pass_op = States.replace;
  depth_fail_op = States.invert;
  compare_op = States.less;
  compare_mask = 255;
  write_mask = 15;
  reference = 3;
}

abbrev back_face : StencilState
back_face = record front_face { reference = 4; write_mask = 0xA5 }

decode-encode_stencil_value_example :
    decode (encode_stencil_value front_face back_face true)
    ≡ some (config_of (effective true front_face), config_of (effective true back_face))
decode-encode_stencil_value_example = decode-encode_stencil_value front_face back_face true

abbrev cube : TextureUniform
cube = record {
  num_mip_levels = 3;
  texture_data_type = 17;
  is_cube_map = 1;
  cubemap_stride = 12345;
  texture_base_ptr = 0x42;
  height = 64;
  width = 128;
  min_filter = 5;
  mag_filter = 1;
  wrap_t = 2;
  wrap_s = 1;
  no_auto_lod = 0;
}

encode_texture_uniform-fields_example :
    let (p0, p1, p2, p3) = encode_texture_uniform cube in
    ((p0 % 16 ≡ cube.num_mip_levels % 16)
      × (p0 / 2 ^ 4 % 16 + 16 * (p1 / 2 ^ 31) ≡ cube.texture_data_type % 32)
      × (p0 / 2 ^ 9 % 8 ≡ digit (truthy cube.is_cube_map))
      × (p0 / 2 ^ 12 ≡ cube.texture_base_ptr % 2 ^ 20))
    × ((p1 % 4 ≡ cube.wrap_s % 4)
        × (p1 / 2 ^ 2 % 4 ≡ cube.wrap_t % 4)
        × (p1 / 2 ^ 4 % 8 ≡ cube.min_filter % 8)
        × (p1 / 2 ^ 7 % 2 ≡ cube.mag_filter % 2)
        × (p1 / 2 ^ 8 % 2 ^ 12 ≡ cube.width % 2 ^ 11)
        × (p1 / 2 ^ 20 % 2 ^ 11 ≡ cube.height % 2 ^ 11))
    × ((p2 % 2 ≡ cube.no_auto_lod % 2)
        × (p2 / 2 ^ 12 % 2 ^ 18 ≡ cube.cubemap_stride % 2 ^ 18)
        × (p2 / 2 ^ 30 ≡ digit (truthy cube.is_cube_map || truthy cube.no_auto_lod))
        × (p3 ≡ 0))
encode_texture_uniform-fields_example = encode_texture_uniform-fields cube
