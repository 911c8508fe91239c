-- ===== src/ControlList/Framing.antt =====
-- Each packet function of driver/ControlListUtil.c appends one packet: its operation code and as
-- many bytes as the hardware expects after it.
use rpi_vk_driver.Base.{◌%◌, ℕ, ◌≡◌, refl, some, List, [], ◌∷◌, ◌++◌, length, ◌|||◌}
use rpi_vk_driver.Rounding.{div_round_up}
use rpi_vk_driver.ControlList.{move_bits}
use rpi_vk_driver.ControlList.Packets
use rpi_vk_driver.ControlList.Packets.{
  configuration_word, f32_to_f187, get_16bit_signed_fixed_number, tile_size,
}
use rpi_vk_driver.ControlList.Emits.{
  Emits, bytes2, bytes3, bytes4, put8-Emits, put16-Emits, put24-Emits, put32-Emits, then-Emits,
}
use rpi_vk_driver.ControlList.Stream

module _ (round_fixed : ℕ → ℕ) where
  -- The bytes after the operation code
  unfoldable pub operands : Stream.Packet → List ℕ
  operands Stream.halt = []
  operands Stream.nop = []
  operands Stream.flush = []
  operands Stream.flush_all_state = []
  operands Stream.start_tile_binning = []
  operands Stream.increment_semaphore = []
  operands Stream.wait_on_semaphore = []
  operands (Stream.branch address) = bytes4 address.at_offset
  operands (Stream.branch_to_sub_list address) = bytes4 address.at_offset
  operands Stream.return_from_sub_list = []
  operands
        (Stream.indexed_primitive_list max_index indices_address count index_type primitive_mode) =
      ((move_bits index_type 4 4 ||| move_bits primitive_mode 4 0) % 256 ∷ [])
      ++ bytes4 count
      ++ bytes4 indices_address
      ++ bytes4 max_index
  operands (Stream.vertex_array_primitives first_vertex_index count primitive_mode) =
      ((move_bits primitive_mode 8 0) % 256 ∷ []) ++ bytes4 count ++ bytes4 first_vertex_index
  operands (Stream.shader_state address extended_shader_record number_of_attribute_arrays) =
      bytes4 (
        move_bits address 28 4
        ||| move_bits extended_shader_record 1 3
        ||| move_bits number_of_attribute_arrays 3 0)
  operands (Stream.configuration_bits c) = bytes3 (configuration_word c)
  operands (Stream.flat_shade_flags flags) = bytes4 flags
  operands (Stream.point_size size) = bytes4 size
  operands (Stream.line_width width) = bytes4 width
  operands (Stream.rht_x_boundary boundary) = bytes2 (move_bits boundary 16 0)
  operands (Stream.depth_offset units factor) =
      bytes4 (move_bits (f32_to_f187 factor) 16 0 ||| move_bits (f32_to_f187 units) 16 16)
  operands (Stream.clip_window width height bottom left) =
      bytes4 (move_bits left 16 0 ||| move_bits bottom 16 16)
      ++ bytes4 (move_bits width 16 0 ||| move_bits height 16 16)
  operands (Stream.viewport_offset x y) =
      bytes2 (get_16bit_signed_fixed_number round_fixed x)
      ++ bytes2 (get_16bit_signed_fixed_number round_fixed y)
  operands (Stream.z_min_max_clipping_planes min_zw max_zw) = bytes4 min_zw ++ bytes4 max_zw
  operands (Stream.clipper_xy_scaling width height) = bytes4 width ++ bytes4 height
  operands (Stream.clipper_z_scale_offset z_offset z_scale) = bytes4 z_scale ++ bytes4 z_offset
  operands (Stream.tile_binning_mode_configuration t) =
      bytes4 t.tile_allocation_memory_address
      ++ bytes4 t.tile_allocation_memory_size
      ++ bytes4 t.tile_state_data_array_address
      ++ ((div_round_up t.width_in_pixels (tile_size t).0) % 256 ∷ [])
      ++ ((div_round_up t.height_in_pixels (tile_size t).1) % 256 ∷ [])
      ++ ((move_bits t.multisample_mode_4x 1 0
              ||| move_bits t.tile_buffer_64_bit_color_depth 1 1
              ||| move_bits t.auto_initialize_tile_state_data_array 1 2
              ||| move_bits t.tile_allocation_initial_block_size 2 3
              ||| move_bits t.tile_allocation_block_size 2 5
              ||| move_bits t.double_buffer_in_non_ms_mode 1 7)
            % 256
          ∷ [])
  operands (Stream.gem_relocations buffer0 buffer1) = bytes4 buffer0 ++ bytes4 buffer1

  abbrev pub encoding : Stream.Packet → List ℕ
  encoding p = Stream.opcode p ∷ operands p

  -- The hardware's table has the length of the encoding.
  pub packet_length-encoding :
      (p : Stream.Packet) → Stream.packet_length (Stream.opcode p) ≡ some (length (encoding p))
  unfolding operands
  packet_length-encoding Stream.halt = refl
  packet_length-encoding Stream.nop = refl
  packet_length-encoding Stream.flush = refl
  packet_length-encoding Stream.flush_all_state = refl
  packet_length-encoding Stream.start_tile_binning = refl
  packet_length-encoding Stream.increment_semaphore = refl
  packet_length-encoding Stream.wait_on_semaphore = refl
  packet_length-encoding (Stream.branch _) = refl
  packet_length-encoding (Stream.branch_to_sub_list _) = refl
  packet_length-encoding Stream.return_from_sub_list = refl
  packet_length-encoding (Stream.indexed_primitive_list _ _ _ _ _) = refl
  packet_length-encoding (Stream.vertex_array_primitives _ _ _) = refl
  packet_length-encoding (Stream.shader_state _ _ _) = refl
  packet_length-encoding (Stream.configuration_bits _) = refl
  packet_length-encoding (Stream.flat_shade_flags _) = refl
  packet_length-encoding (Stream.point_size _) = refl
  packet_length-encoding (Stream.line_width _) = refl
  packet_length-encoding (Stream.rht_x_boundary _) = refl
  packet_length-encoding (Stream.depth_offset _ _) = refl
  packet_length-encoding (Stream.clip_window _ _ _ _) = refl
  packet_length-encoding (Stream.viewport_offset _ _) = refl
  packet_length-encoding (Stream.z_min_max_clipping_planes _ _) = refl
  packet_length-encoding (Stream.clipper_xy_scaling _ _) = refl
  packet_length-encoding (Stream.clipper_z_scale_offset _ _) = refl
  packet_length-encoding (Stream.tile_binning_mode_configuration _) = refl
  packet_length-encoding (Stream.gem_relocations _ _) = refl

  pub insert-Emits : (p : Stream.Packet) → Emits (Stream.insert round_fixed p) (encoding p)
  unfolding operands Stream.insert Packets.insert_halt Packets.insert_nop Packets.insert_flush
      Packets.insert_flush_all_state Packets.insert_start_tile_binning
      Packets.insert_increment_semaphore Packets.insert_wait_on_semaphore Packets.insert_branch
      Packets.insert_branch_to_sub_list Packets.insert_return_from_sub_list
      Packets.insert_indexed_primitive_list Packets.insert_vertex_array_primitives
      Packets.insert_shader_state Packets.insert_configuration_bits Packets.insert_flat_shade_flags
      Packets.insert_point_size Packets.insert_line_width Packets.insert_rht_x_boundary
      Packets.insert_depth_offset Packets.insert_clip_window Packets.insert_viewport_offset
      Packets.insert_z_min_max_clipping_planes Packets.insert_clipper_xy_scaling
      Packets.insert_clipper_z_scale_offset Packets.insert_tile_binning_mode_configuration
      Packets.insert_gem_relocations
  insert-Emits Stream.halt = (put8-Emits 0)
  insert-Emits Stream.nop = (put8-Emits 1)
  insert-Emits Stream.flush = (put8-Emits 4)
  insert-Emits Stream.flush_all_state = (put8-Emits 5)
  insert-Emits Stream.start_tile_binning = (put8-Emits 6)
  insert-Emits Stream.increment_semaphore = (put8-Emits 7)
  insert-Emits Stream.wait_on_semaphore = (put8-Emits 8)
  insert-Emits (Stream.branch address) =
      (then-Emits (put8-Emits 16) (put32-Emits address.at_offset))
  insert-Emits (Stream.branch_to_sub_list address) =
      (then-Emits (put8-Emits 17) (put32-Emits address.at_offset))
  insert-Emits Stream.return_from_sub_list = (put8-Emits 18)
  insert-Emits
        (Stream.indexed_primitive_list max_index indices_address count index_type primitive_mode) =
      (then-Emits
        (then-Emits
          (then-Emits
            (then-Emits (put8-Emits 32)
              (put8-Emits (move_bits index_type 4 4 ||| move_bits primitive_mode 4 0)))
            (put32-Emits count))
          (put32-Emits indices_address))
        (put32-Emits max_index))
  insert-Emits (Stream.vertex_array_primitives first_vertex_index count primitive_mode) =
      (then-Emits
        (then-Emits (then-Emits (put8-Emits 33) (put8-Emits (move_bits primitive_mode 8 0)))
          (put32-Emits count))
        (put32-Emits first_vertex_index))
  insert-Emits (Stream.shader_state address extended_shader_record number_of_attribute_arrays) =
      (then-Emits (put8-Emits 64) (
        put32-Emits (
          move_bits address 28 4
          ||| move_bits extended_shader_record 1 3
          ||| move_bits number_of_attribute_arrays 3 0)))
  insert-Emits (Stream.configuration_bits c) =
      (then-Emits (put8-Emits 96) (put24-Emits (configuration_word c)))
  insert-Emits (Stream.flat_shade_flags flags) = (then-Emits (put8-Emits 97) (put32-Emits flags))
  insert-Emits (Stream.point_size size) = (then-Emits (put8-Emits 98) (put32-Emits size))
  insert-Emits (Stream.line_width width) = (then-Emits (put8-Emits 99) (put32-Emits width))
  insert-Emits (Stream.rht_x_boundary boundary) =
      (then-Emits (put8-Emits 100) (put16-Emits (move_bits boundary 16 0)))
  insert-Emits (Stream.depth_offset units factor) =
      (then-Emits (put8-Emits 101)
        (put32-Emits (move_bits (f32_to_f187 factor) 16 0 ||| move_bits (f32_to_f187 units) 16 16)))
  insert-Emits (Stream.clip_window width height bottom left) =
      (then-Emits
        (then-Emits (put8-Emits 102) (put32-Emits (move_bits left 16 0 ||| move_bits bottom 16 16)))
        (put32-Emits (move_bits width 16 0 ||| move_bits height 16 16)))
  insert-Emits (Stream.viewport_offset x y) =
      (then-Emits
        (then-Emits (put8-Emits 103) (put16-Emits (get_16bit_signed_fixed_number round_fixed x)))
        (put16-Emits (get_16bit_signed_fixed_number round_fixed y)))
  insert-Emits (Stream.z_min_max_clipping_planes min_zw max_zw) =
      (then-Emits (then-Emits (put8-Emits 104) (put32-Emits min_zw)) (put32-Emits max_zw))
  insert-Emits (Stream.clipper_xy_scaling width height) =
      (then-Emits (then-Emits (put8-Emits 105) (put32-Emits width)) (put32-Emits height))
  insert-Emits (Stream.clipper_z_scale_offset z_offset z_scale) =
      (then-Emits (then-Emits (put8-Emits 106) (put32-Emits z_scale)) (put32-Emits z_offset))
  insert-Emits (Stream.tile_binning_mode_configuration t) =
      (then-Emits
        (then-Emits
          (then-Emits
            (then-Emits
              (then-Emits
                (then-Emits (put8-Emits 112) (put32-Emits t.tile_allocation_memory_address))
                (put32-Emits t.tile_allocation_memory_size))
              (put32-Emits t.tile_state_data_array_address))
            (put8-Emits (div_round_up t.width_in_pixels (tile_size t).0)))
          (put8-Emits (div_round_up t.height_in_pixels (tile_size t).1)))
        (put8-Emits (
          move_bits t.multisample_mode_4x 1 0
          ||| move_bits t.tile_buffer_64_bit_color_depth 1 1
          ||| move_bits t.auto_initialize_tile_state_data_array 1 2
          ||| move_bits t.tile_allocation_initial_block_size 2 3
          ||| move_bits t.tile_allocation_block_size 2 5
          ||| move_bits t.double_buffer_in_non_ms_mode 1 7)))
  insert-Emits (Stream.gem_relocations buffer0 buffer1) =
      (then-Emits (then-Emits (put8-Emits 254) (put32-Emits buffer0)) (put32-Emits buffer1))
