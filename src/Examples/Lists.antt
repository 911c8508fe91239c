-- ===== src/Examples/Lists.antt =====
-- Control lists of a few packets.
use rpi_vk_driver.Base.{
  ℕ, ◌+◌, ◌-◌, ◌*◌, ◌^◌, ◌≤◌, ◌<◌, ◌≡◌, ◌≢◌, refl, ◌⊎◌, true, some, List, [], ◌∷◌, arith, length,
  add32, sub32, u32_max,
}
use mathlib.Core.List.{map}
use rpi_vk_driver.Memory.{Mem, load32, store32}
use rpi_vk_driver.ControlList.{ControlList, has_enough_space, advance}
use rpi_vk_driver.ControlList.Stream
use rpi_vk_driver.ControlList.Framing.{operands}
use rpi_vk_driver.ControlList.Walk.{IsList, stream, walk-insert_all}
use rpi_vk_driver.ControlList.Records.{get_handle_index}
use rpi_vk_driver.ControlList.Handles.{IsTable, get_handle_index-lookup}
use rpi_vk_driver.ControlList.Markers.{
  Marker, Markers, Segments, blank_marker, close_current_marker, insert_new_marker, marker_bytes,
  IsOpen,
}
use rpi_vk_driver.ControlList.Segments.{insert_new_marker-continues, close_current_marker-count}

abbrev blank_bytes : Mem
blank_bytes a = 0

abbrev binning : ControlList
binning = record {
  cpa = 4096;
  offset = 256;
  num_blocks = 2;
  block_size = 64;
  next_free_byte_offset = 260;
  curr_marker_offset = u32_max;
}

binning-IsList : IsList binning
binning-IsList = record { from_start = omega arith; to_end = omega arith; in_memory = omega arith }

-- a stand-in for the rounding of floats
abbrev same_bits : ℕ → ℕ
same_bits x = x

abbrev drawing : List Stream.Packet
drawing =
    Stream.start_tile_binning
    ∷ Stream.viewport_offset 800 480
    ∷ Stream.vertex_array_primitives 0 3 4
    ∷ Stream.flush
    ∷ []

enough : has_enough_space binning (length (stream same_bits drawing)) ≡ true
unfolding has_enough_space operands
enough = refl

small_stream : 2 * 64 + length (stream same_bits drawing) < 2 ^ 32
unfolding operands
small_stream = omega arith

walk-insert_all_example :
    let (m', cl') = Stream.insert_all same_bits drawing (blank_bytes, binning) in
    let start = binning.cpa + binning.next_free_byte_offset in
    let end = cl'.cpa + cl'.next_free_byte_offset in
    (Stream.walk m' (length drawing) start end ≡ some (map Stream.opcode drawing))
    × (end ≡ start + length (stream same_bits drawing))
    × IsList cl'
    × ((a : ℕ) → (a < start) ⊎ (end + 1 ≤ a) → m' a ≡ blank_bytes a)
walk-insert_all_example =
    walk-insert_all same_bits drawing blank_bytes binning binning-IsList small_stream enough

-- a table of two handles
abbrev handles : ControlList
handles = record binning { offset = 0; next_free_byte_offset = 8 }

abbrev two_handles : Mem
two_handles = store32 (store32 blank_bytes 4096 77) 4100 78

handles-IsTable : IsTable handles 0 2
handles-IsTable = record { whole = omega arith; in_memory = omega arith }

get_handle_index-lookup_example :
    let (i, (m', cl')) = get_handle_index (two_handles, handles) 0 0 79 in
    (load32 m' (add32 (add32 handles.cpa 0) (4 * i)) ≡ 79)
    × ((j : ℕ)
        → j < 2
        → load32 m' (add32 (add32 handles.cpa 0) (4 * j))
          ≡ load32 two_handles (add32 (add32 handles.cpa 0) (4 * j)))
    × ((cl' ≡ handles) × (i < 2) ⊎ (cl' ≡ advance handles 4) × (i ≡ 2))
    × (handles.cpa + handles.next_free_byte_offset + 8 < 2 ^ 32
        → get_handle_index (m', cl') 0 0 79 ≡ (i, (m', cl')))
get_handle_index-lookup_example =
    get_handle_index-lookup two_handles handles 0 2 79 handles-IsTable (omega arith)

-- an open marker at 260 that begins with a count of 2 shader records
abbrev first_marker : Marker
first_marker = record blank_marker { shader_rec_count = 2; handles_buf_offset = 4 }

abbrev markers : Markers
markers a = first_marker

abbrev marked : ControlList
marked = record binning { curr_marker_offset = 260; next_free_byte_offset = 500 }

abbrev segments : Segments
segments = record { handles_cl = handles; shader_rec_cl = handles; uniforms_cl = handles }

marked-IsOpen : IsOpen markers marked segments
marked-IsOpen = record {
  has_marker = omega arith;
  open_size = refl;
  apart = omega arith;
  small_handles = omega arith;
  small_shader = omega arith;
  small_uniforms = omega arith;
  handles_offset = omega arith;
  shader_offset = omega arith;
  uniforms_offset = omega arith;
}

close_current_marker-count_example :
    let (ms', cl') = insert_new_marker markers marked segments 5 in
    let closed = close_current_marker ms' (record cl' { next_free_byte_offset = 900 }) segments 9 in
    (closed marked.next_free_byte_offset).shader_rec_count
    ≡ 9 - 5 + (markers marked.curr_marker_offset).shader_rec_count
close_current_marker-count_example =
    close_current_marker-count markers marked segments segments 900 5 9 marked-IsOpen (omega arith)
      (omega arith) (omega arith)

insert_new_marker-continues_example :
    let (ms', cl') = insert_new_marker markers marked segments 5 in
    let old = ms' marked.curr_marker_offset in
    let new = ms' marked.next_free_byte_offset in
    ((old.size ≡ sub32 marked.next_free_byte_offset (add32 marked.curr_marker_offset marker_bytes))
      × (old.next_marker_offset ≡ sub32 marked.next_free_byte_offset marked.offset))
    × ((new.handles_buf_offset
          ≡ sub32 segments.handles_cl.next_free_byte_offset segments.handles_cl.offset)
        × (new.handles_buf_offset ≡ add32 old.handles_buf_offset old.handles_size)
        × (new.shader_rec_buf_offset
            ≡ sub32 segments.shader_rec_cl.next_free_byte_offset segments.shader_rec_cl.offset)
        × (new.shader_rec_buf_offset ≡ add32 old.shader_rec_buf_offset old.shader_rec_size)
        × (new.uniforms_buf_offset
            ≡ sub32 segments.uniforms_cl.next_free_byte_offset segments.uniforms_cl.offset)
        × (new.uniforms_buf_offset ≡ add32 old.uniforms_buf_offset old.uniforms_size))
    × ((new.size ≡ 0)
        × (cl'.curr_marker_offset ≡ marked.next_free_byte_offset)
        × ((a : ℕ)
            → a ≢ marked.curr_marker_offset
            → a ≢ marked.next_free_byte_offset
            → ms' a ≡ markers a))
insert_new_marker-continues_example =
    insert_new_marker-continues markers marked segments 5 marked-IsOpen (omega arith) (omega arith)
      (omega arith)
