-- ===== src/ControlList/Stream.antt =====
-- The packets of a control list as data, the length that the hardware knows for each operation
-- code, and the walk over a list that goes from packet to packet by these lengths.
use rpi_vk_driver.Base.{
  ℕ, zero, suc, ◌+◌, ◌==◌, if◌then◌else◌, Option, none, some, ◌>>=◌, List, [], ◌∷◌,
}
use rpi_vk_driver.Memory.{Mem}
use rpi_vk_driver.ControlList.{ControlListAddress, Writer}
use rpi_vk_driver.ControlList.Packets

pub data Packet : Type 0 where
  halt : Packet
  nop : Packet
  flush : Packet
  flush_all_state : Packet
  start_tile_binning : Packet
  increment_semaphore : Packet
  wait_on_semaphore : Packet
  branch : ControlListAddress → Packet
  branch_to_sub_list : ControlListAddress → Packet
  return_from_sub_list : Packet
  indexed_primitive_list : ℕ → ℕ → ℕ → ℕ → ℕ → Packet
  vertex_array_primitives : ℕ → ℕ → ℕ → Packet
  shader_state : ℕ → ℕ → ℕ → Packet
  configuration_bits : Packets.ConfigurationBits → Packet
  flat_shade_flags : ℕ → Packet
  point_size : ℕ → Packet
  line_width : ℕ → Packet
  rht_x_boundary : ℕ → Packet
  depth_offset : ℕ → ℕ → Packet
  clip_window : ℕ → ℕ → ℕ → ℕ → Packet
  viewport_offset : ℕ → ℕ → Packet
  z_min_max_clipping_planes : ℕ → ℕ → Packet
  clipper_xy_scaling : ℕ → ℕ → Packet
  clipper_z_scale_offset : ℕ → ℕ → Packet
  tile_binning_mode_configuration : Packets.TileBinningMode → Packet
  gem_relocations : ℕ → ℕ → Packet

-- The operation code
abbrev pub opcode : Packet → ℕ
opcode halt = 0
opcode nop = 1
opcode flush = 4
opcode flush_all_state = 5
opcode start_tile_binning = 6
opcode increment_semaphore = 7
opcode wait_on_semaphore = 8
opcode (branch _) = 16
opcode (branch_to_sub_list _) = 17
opcode return_from_sub_list = 18
opcode (indexed_primitive_list _ _ _ _ _) = 32
opcode (vertex_array_primitives _ _ _) = 33
opcode (shader_state _ _ _) = 64
opcode (configuration_bits _) = 96
opcode (flat_shade_flags _) = 97
opcode (point_size _) = 98
opcode (line_width _) = 99
opcode (rht_x_boundary _) = 100
opcode (depth_offset _ _) = 101
opcode (clip_window _ _ _ _) = 102
opcode (viewport_offset _ _) = 103
opcode (z_min_max_clipping_planes _ _) = 104
opcode (clipper_xy_scaling _ _) = 105
opcode (clipper_z_scale_offset _ _) = 106
opcode (tile_binning_mode_configuration _) = 112
opcode (gem_relocations _ _) = 254

-- The lengths that brcm/cle/v3d_packet_v21_pack.h gives, by operation code
abbrev pub packet_length : ℕ → Option ℕ
packet_length op =
    if op == 0
    then some 1
    else if op == 1
    then some 1
    else if op == 4
    then some 1
    else if op == 5
    then some 1
    else if op == 6
    then some 1
    else if op == 7
    then some 1
    else if op == 8
    then some 1
    else if op == 16
    then some 5
    else if op == 17
    then some 5
    else if op == 18
    then some 1
    else if op == 32
    then some 14
    else if op == 33
    then some 10
    else if op == 64
    then some 5
    else if op == 96
    then some 4
    else if op == 97
    then some 5
    else if op == 98
    then some 5
    else if op == 99
    then some 5
    else if op == 100
    then some 3
    else if op == 101
    then some 5
    else if op == 102
    then some 9
    else if op == 103
    then some 5
    else if op == 104
    then some 9
    else if op == 105
    then some 9
    else if op == 106
    then some 9
    else if op == 112
    then some 16
    else if op == 254
    then some 9
    else none

-- The operation codes of the packets from `p` to `end`, as the hardware finds them; `none` if a
-- packet is unknown or does not end there.
unfoldable pub walk : Mem → ℕ → ℕ → ℕ → Option (List ℕ)
walk m zero p end = if p == end then some [] else none
walk m (suc n) p end = packet_length (m p) >>= λ k. walk m n (p + k) end >>= λ ops. some (m p ∷ ops)

module _ (round_fixed : ℕ → ℕ) where
  -- The function of the driver for each packet
  unfoldable pub insert : Packet → Writer → Writer
  insert halt = Packets.insert_halt
  insert nop = Packets.insert_nop
  insert flush = Packets.insert_flush
  insert flush_all_state = Packets.insert_flush_all_state
  insert start_tile_binning = Packets.insert_start_tile_binning
  insert increment_semaphore = Packets.insert_increment_semaphore
  insert wait_on_semaphore = Packets.insert_wait_on_semaphore
  insert (branch address) = Packets.insert_branch address
  insert (branch_to_sub_list address) = Packets.insert_branch_to_sub_list address
  insert return_from_sub_list = Packets.insert_return_from_sub_list
  insert (indexed_primitive_list max_index indices_address count index_type primitive_mode) =
      Packets.insert_indexed_primitive_list max_index indices_address count index_type
        primitive_mode
  insert (vertex_array_primitives first_vertex_index count primitive_mode) =
      Packets.insert_vertex_array_primitives first_vertex_index count primitive_mode
  insert (shader_state address extended_shader_record number_of_attribute_arrays) =
      Packets.insert_shader_state address extended_shader_record number_of_attribute_arrays
  insert (configuration_bits c) = Packets.insert_configuration_bits c
  insert (flat_shade_flags flags) = Packets.insert_flat_shade_flags flags
  insert (point_size size) = Packets.insert_point_size size
  insert (line_width width) = Packets.insert_line_width width
  insert (rht_x_boundary boundary) = Packets.insert_rht_x_boundary boundary
  insert (depth_offset units factor) = Packets.insert_depth_offset units factor
  insert (clip_window width height bottom left) =
      Packets.insert_clip_window width height bottom left
  insert (viewport_offset x y) = Packets.insert_viewport_offset round_fixed x y
  insert (z_min_max_clipping_planes min_zw max_zw) =
      Packets.insert_z_min_max_clipping_planes min_zw max_zw
  insert (clipper_xy_scaling width height) = Packets.insert_clipper_xy_scaling width height
  insert (clipper_z_scale_offset z_offset z_scale) =
      Packets.insert_clipper_z_scale_offset z_offset z_scale
  insert (tile_binning_mode_configuration t) = Packets.insert_tile_binning_mode_configuration t
  insert (gem_relocations buffer0 buffer1) = Packets.insert_gem_relocations buffer0 buffer1

  -- The packets in order
  unfoldable pub insert_all : List Packet → Writer → Writer
  insert_all [] s = s
  insert_all (p ∷ ps) s = insert_all ps (insert p s)
