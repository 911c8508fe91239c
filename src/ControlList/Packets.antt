-- ===== src/ControlList/Packets.antt =====
-- The packets of driver/ControlListUtil.c. A function takes the arguments of its C original; a
-- float stands as its 32 bits. The operation codes are those of brcm/cle/v3d_packet_v21_pack.h.
use rpi_vk_driver.Base.{ℕ, ◌==◌, if◌then◌else◌, ◌&◌, ◌|||◌, ◌>>>◌, not}
use rpi_vk_driver.Memory.{memcpy}
use rpi_vk_driver.ControlList.{next_ptr, advance}
use rpi_vk_driver.Rounding.{div_round_up}
use rpi_vk_driver.ControlList.{
  ControlListAddress, Writer, move_bits, put8, put16, put24, put32, ◌▸◌,
}

-- `clInsertData`: `size` bytes from the address `from`
unfoldable pub insert_data : ℕ → ℕ → Writer → Writer
insert_data size from (m, cl) = (memcpy m (next_ptr cl) from size, advance cl size)

-- `clInsertUniformConstant`
unfoldable pub insert_uniform_constant : ℕ → Writer → Writer
insert_uniform_constant bits = put32 bits

-- `clInsertUniformXYScale`
unfoldable pub insert_uniform_xy_scale : ℕ → Writer → Writer
insert_uniform_xy_scale bits = put32 bits

-- `clInsertUniformZOffset`
unfoldable pub insert_uniform_z_offset : ℕ → Writer → Writer
insert_uniform_z_offset bits = put32 bits

-- `clInsertHalt`
unfoldable pub insert_halt : Writer → Writer
insert_halt = put8 0

-- `clInsertNop`
unfoldable pub insert_nop : Writer → Writer
insert_nop = put8 1

-- `clInsertFlush`
unfoldable pub insert_flush : Writer → Writer
insert_flush = put8 4

-- `clInsertFlushAllState`
unfoldable pub insert_flush_all_state : Writer → Writer
insert_flush_all_state = put8 5

-- `clInsertStartTileBinning`
unfoldable pub insert_start_tile_binning : Writer → Writer
insert_start_tile_binning = put8 6

-- `clInsertIncrementSemaphore`
unfoldable pub insert_increment_semaphore : Writer → Writer
insert_increment_semaphore = put8 7

-- `clInsertWaitOnSemaphore`
unfoldable pub insert_wait_on_semaphore : Writer → Writer
insert_wait_on_semaphore = put8 8

-- `clInsertBranch`
unfoldable pub insert_branch : ControlListAddress → Writer → Writer
insert_branch address = put8 16 ▸ put32 address.at_offset

-- `clInsertBranchToSubList`
unfoldable pub insert_branch_to_sub_list : ControlListAddress → Writer → Writer
insert_branch_to_sub_list address = put8 17 ▸ put32 address.at_offset

-- `clInsertReturnFromSubList`
unfoldable pub insert_return_from_sub_list : Writer → Writer
insert_return_from_sub_list = put8 18

-- `clInsertIndexedPrimitiveList`
unfoldable pub insert_indexed_primitive_list : ℕ → ℕ → ℕ → ℕ → ℕ → Writer → Writer
insert_indexed_primitive_list max_index indices_address count index_type primitive_mode =
    put8 32
    ▸ put8 (move_bits index_type 4 4 ||| move_bits primitive_mode 4 0)
    ▸ put32 count
    ▸ put32 indices_address
    ▸ put32 max_index

-- `clInsertVertexArrayPrimitives`
unfoldable pub insert_vertex_array_primitives : ℕ → ℕ → ℕ → Writer → Writer
insert_vertex_array_primitives first_vertex_index count primitive_mode =
    put8 33 ▸ put8 (move_bits primitive_mode 8 0) ▸ put32 count ▸ put32 first_vertex_index

-- `clInsertShaderState`
unfoldable pub insert_shader_state : ℕ → ℕ → ℕ → Writer → Writer
insert_shader_state address extended_shader_record number_of_attribute_arrays =
    put8 64
    ▸ put32 (
        move_bits address 28 4
        ||| move_bits extended_shader_record 1 3
        ||| move_bits number_of_attribute_arrays 3 0)

-- The arguments of `clInsertConfigurationBits`
pub record ConfigurationBits : Type 0 where
  pub early_z_updates_enable : ℕ
  pub early_z_enable : ℕ
  pub z_updates_enable : ℕ
  pub depth_test_function : ℕ
  pub coverage_read_mode : ℕ
  pub coverage_pipe_select : ℕ
  pub coverage_update_mode : ℕ
  pub coverage_read_type : ℕ
  pub rasterizer_oversample_mode : ℕ
  pub enable_depth_offset : ℕ
  pub clockwise_primitives : ℕ
  pub enable_reverse_facing_primitive : ℕ
  pub enable_forward_facing_primitive : ℕ

-- The word of `clInsertConfigurationBits`
unfoldable pub configuration_word : ConfigurationBits → ℕ
configuration_word c =
    move_bits c.enable_forward_facing_primitive 1 0
    ||| move_bits c.enable_reverse_facing_primitive 1 1
    ||| move_bits c.clockwise_primitives 1 2
    ||| move_bits c.enable_depth_offset 1 3
    ||| move_bits c.coverage_read_type 1 5
    ||| move_bits c.rasterizer_oversample_mode 2 6
    ||| move_bits c.coverage_pipe_select 1 8
    ||| move_bits c.coverage_update_mode 2 9
    ||| move_bits c.coverage_read_mode 1 11
    ||| move_bits c.depth_test_function 3 12
    ||| move_bits c.z_updates_enable 1 15
    ||| move_bits c.early_z_enable 1 16
    ||| move_bits c.early_z_updates_enable 1 17

-- `clInsertConfigurationBits`
unfoldable pub insert_configuration_bits : ConfigurationBits → Writer → Writer
insert_configuration_bits c = put8 96 ▸ put24 (configuration_word c)

-- `clInsertFlatShadeFlags`
unfoldable pub insert_flat_shade_flags : ℕ → Writer → Writer
insert_flat_shade_flags flags = put8 97 ▸ put32 flags

-- `clInsertPointSize`
unfoldable pub insert_point_size : ℕ → Writer → Writer
insert_point_size size = put8 98 ▸ put32 size

-- `clInsertLineWidth`
unfoldable pub insert_line_width : ℕ → Writer → Writer
insert_line_width width = put8 99 ▸ put32 width

-- `clInsertRHTXBoundary`
unfoldable pub insert_rht_x_boundary : ℕ → Writer → Writer
insert_rht_x_boundary boundary = put8 100 ▸ put16 (move_bits boundary 16 0)

-- `f32_to_f187`
unfoldable pub f32_to_f187 : ℕ → ℕ
f32_to_f187 bits = bits >>> 16

-- `clInsertDepthOffset`
unfoldable pub insert_depth_offset : ℕ → ℕ → Writer → Writer
insert_depth_offset units factor =
    put8 101 ▸ put32 (move_bits (f32_to_f187 factor) 16 0 ||| move_bits (f32_to_f187 units) 16 16)

-- `clInsertClipWindow`
unfoldable pub insert_clip_window : ℕ → ℕ → ℕ → ℕ → Writer → Writer
insert_clip_window width height bottom_pixel_coord left_pixel_coord =
    put8 102
    ▸ put32 (move_bits left_pixel_coord 16 0 ||| move_bits bottom_pixel_coord 16 16)
    ▸ put32 (move_bits width 16 0 ||| move_bits height 16 16)

-- `clInsertZMinMaxClippingPlanes`
unfoldable pub insert_z_min_max_clipping_planes : ℕ → ℕ → Writer → Writer
insert_z_min_max_clipping_planes min_zw max_zw = put8 104 ▸ put32 min_zw ▸ put32 max_zw

-- `clInsertClipperXYScaling`
unfoldable pub insert_clipper_xy_scaling : ℕ → ℕ → Writer → Writer
insert_clipper_xy_scaling width height = put8 105 ▸ put32 width ▸ put32 height

-- `clInsertClipperZScaleOffset`
unfoldable pub insert_clipper_z_scale_offset : ℕ → ℕ → Writer → Writer
insert_clipper_z_scale_offset z_offset z_scale = put8 106 ▸ put32 z_scale ▸ put32 z_offset

-- The arguments of `clInsertTileBinningModeConfiguration`
pub record TileBinningMode : Type 0 where
  pub double_buffer_in_non_ms_mode : ℕ
  pub tile_allocation_block_size : ℕ
  pub tile_allocation_initial_block_size : ℕ
  pub auto_initialize_tile_state_data_array : ℕ
  pub tile_buffer_64_bit_color_depth : ℕ
  pub multisample_mode_4x : ℕ
  pub width_in_pixels : ℕ
  pub height_in_pixels : ℕ
  pub tile_state_data_array_address : ℕ
  pub tile_allocation_memory_size : ℕ
  pub tile_allocation_memory_address : ℕ

-- `tileSizeW` and `tileSizeH`
unfoldable pub tile_size : TileBinningMode → ℕ × ℕ
tile_size t =
    let w = if not (t.multisample_mode_4x == 0) then 64 >>> 1 else 64 in
    let h = if not (t.multisample_mode_4x == 0) then 64 >>> 1 else 64 in
    (w, if not (t.tile_buffer_64_bit_color_depth == 0) then h >>> 1 else h)

-- `clInsertTileBinningModeConfiguration`
unfoldable pub insert_tile_binning_mode_configuration : TileBinningMode → Writer → Writer
insert_tile_binning_mode_configuration t =
    put8 112
    ▸ put32 t.tile_allocation_memory_address
    ▸ put32 t.tile_allocation_memory_size
    ▸ put32 t.tile_state_data_array_address
    ▸ put8 (div_round_up t.width_in_pixels (tile_size t).0)
    ▸ put8 (div_round_up t.height_in_pixels (tile_size t).1)
    ▸ put8 (
        move_bits t.multisample_mode_4x 1 0
        ||| move_bits t.tile_buffer_64_bit_color_depth 1 1
        ||| move_bits t.auto_initialize_tile_state_data_array 1 2
        ||| move_bits t.tile_allocation_initial_block_size 2 3
        ||| move_bits t.tile_allocation_block_size 2 5
        ||| move_bits t.double_buffer_in_non_ms_mode 1 7)

-- `clInsertGEMRelocations`
unfoldable pub insert_gem_relocations : ℕ → ℕ → Writer → Writer
insert_gem_relocations buffer0 buffer1 = put8 254 ▸ put32 buffer0 ▸ put32 buffer1

-- `round_fixed` is `roundf(x * 16.0f)` as a 32-bit two's complement number, of the bits of `x`.
module _ (round_fixed : ℕ → ℕ) where
  -- `get16bitSignedFixedNumber`
  unfoldable pub get_16bit_signed_fixed_number : ℕ → ℕ
  get_16bit_signed_fixed_number x = round_fixed x & 0xffff

  -- `clInsertViewPortOffset`
  unfoldable pub insert_viewport_offset : ℕ → ℕ → Writer → Writer
  insert_viewport_offset x y =
      put8 103 ▸ put16 (get_16bit_signed_fixed_number x) ▸ put16 (get_16bit_signed_fixed_number y)
