-- ===== src/ControlList/Records.antt =====
-- The shader and attribute records of driver/ControlListUtil.c, and the table of buffer handles
-- that their relocations point into.
use rpi_vk_driver.Base.{
  ℕ, zero, suc, ◌+◌, ◌*◌, ◌/◌, Option, none, some, ◌==◌, if◌then◌else◌, add32, sub32, ◌|||◌,
}
use rpi_vk_driver.Memory.{Mem, load32, store8, store16}
use rpi_vk_driver.ControlList.{
  ControlList, ControlListAddress, Writer, get_cpa_ptr_from_offset, next_ptr, advance, move_bits,
  put8, put16, put32, ◌▸◌,
}

-- The loop of `clGetHandleIndex` over the entries from `c` on, `left` of them
unfoldable pub find_handle : Mem → ℕ → ℕ → ℕ → ℕ → Option ℕ
find_handle m base handle zero c = none
find_handle m base handle (suc left) c =
    let later = find_handle m base handle left (c + 1) in
    if load32 m (add32 base (4 * c)) == handle then some c else later

-- `numHandles`
unfoldable pub num_handles : ControlList → ℕ → ℕ → ℕ
num_handles handles_cl handles_offset handles_size =
    (if handles_size == 0
      then sub32 handles_cl.next_free_byte_offset handles_offset
      else handles_size)
    / 4

-- `clGetHandleIndex`: the index, and the handles list with the handle appended if it was not there
unfoldable pub get_handle_index : Writer → ℕ → ℕ → ℕ → ℕ × Writer
get_handle_index (m, handles_cl) handles_offset handles_size handle =
    let n = num_handles handles_cl handles_offset handles_size in
    elim (find_handle m (get_cpa_ptr_from_offset handles_cl.cpa handles_offset) handle n 0) [
      | some c ↦ (c, (m, handles_cl))
      | none ↦ (n, put32 handle (m, handles_cl))
    ]

-- The lists that a record is written to
pub record Lists : Type 0 where
  pub mem : Mem
  pub cls : ControlList
  pub reloc_cl : ControlList
  pub handles_cl : ControlList

-- A write to the list of records
abbrev pub on_cls : (Writer → Writer) → Lists → Lists
on_cls f s = record s { mem = (f (s.mem, s.cls)).0; cls = (f (s.mem, s.cls)).1 }

-- `clEmitShaderRelocation`
unfoldable pub emit_shader_relocation : ℕ → ℕ → ControlListAddress → Lists → Lists
emit_shader_relocation handles_offset handles_size address s =
    let (idx, (m, handles)) =
      get_handle_index (s.mem, s.handles_cl) handles_offset handles_size address.handle in
    let (m', reloc) = put32 idx (m, s.reloc_cl) in
    record s { mem = m'; reloc_cl = reloc; handles_cl = handles }

-- A shader of a shader record
pub record ShaderPart : Type 0 where
  pub number_of_used_uniforms : ℕ
  pub attribute_array_select_bits : ℕ
  pub total_attributes_size : ℕ
  pub uniforms_address : ℕ
  pub code_address : ControlListAddress

-- The arguments of `clInsertShaderRecord`
pub record ShaderRecord : Type 0 where
  pub fragment_shader_is_single_threaded : ℕ
  pub point_size_included : ℕ
  pub enable_clipping : ℕ
  pub fragment_number_of_used_uniforms : ℕ
  pub fragment_number_of_varyings : ℕ
  pub fragment_uniforms_address : ℕ
  pub fragment_code_address : ControlListAddress
  pub vertex : ShaderPart
  pub coordinate : ShaderPart

-- Two bytes are written and one stepped over; the second is read again and joined with the number
-- of varyings.
unfoldable pub put_uniforms_and_varyings : ℕ → ℕ → Writer → Writer
put_uniforms_and_varyings uniforms varyings (m, cl) =
    let m' = store16 m (next_ptr cl) (move_bits uniforms 16 0) in
    let cl' = advance cl 1 in
    (store8 m' (next_ptr cl') (m' (next_ptr cl') ||| varyings), advance cl' 1)

-- four bytes stepped over
abbrev pub skip32 : Writer → Writer
skip32 (m, cl) = (m, advance cl 4)

-- `move_bits_32 d` is what `moveBits(d, 32, 0)` gives, where C leaves a shift by 32 undefined.
module _ (move_bits_32 : ℕ → ℕ) where
  -- `clInsertShaderRecord`
  unfoldable pub insert_shader_record : ℕ → ℕ → ShaderRecord → Lists → Lists
  insert_shader_record handles_offset handles_size r =
      on_cls (
        put8 (
          move_bits r.fragment_shader_is_single_threaded 1 0
          ||| move_bits r.point_size_included 1 1
          ||| move_bits r.enable_clipping 1 2)
        ▸ put8 0
        ▸ put_uniforms_and_varyings r.fragment_number_of_used_uniforms
            r.fragment_number_of_varyings)
      ▸ emit_shader_relocation handles_offset handles_size r.fragment_code_address
      ▸ on_cls (
          put32 r.fragment_code_address.at_offset
          ▸ put32 r.fragment_uniforms_address
          ▸ put16 (move_bits r.vertex.number_of_used_uniforms 16 0)
          ▸ put8 r.vertex.attribute_array_select_bits
          ▸ put8 r.vertex.total_attributes_size)
      ▸ emit_shader_relocation handles_offset handles_size r.vertex.code_address
      ▸ on_cls (
          put32 (
            move_bits_32 r.vertex.code_address.at_offset ||| move_bits_32 r.vertex.uniforms_address)
          ▸ skip32
          ▸ put16 (move_bits r.coordinate.number_of_used_uniforms 16 0)
          ▸ put8 r.coordinate.attribute_array_select_bits
          ▸ put8 r.coordinate.total_attributes_size)
      ▸ emit_shader_relocation handles_offset handles_size r.coordinate.code_address
      ▸ on_cls (put32 r.coordinate.code_address.at_offset ▸ put32 r.coordinate.uniforms_address)

-- `clInsertAttributeRecord`
unfoldable pub insert_attribute_record : ℕ → ℕ → ControlListAddress → ℕ → ℕ → ℕ → ℕ → Lists → Lists
insert_attribute_record handles_offset handles_size address size_bytes stride vertex_vpm_offset
      coordinate_vpm_offset =
    emit_shader_relocation handles_offset handles_size address
    ▸ on_cls (
        put32 address.at_offset
        ▸ put8 (sub32 size_bytes 1)
        ▸ put8 stride
        ▸ put8 vertex_vpm_offset
        ▸ put8 coordinate_vpm_offset)
