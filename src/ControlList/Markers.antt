-- ===== src/ControlList/Markers.antt =====
-- The markers of driver/ControlListUtil.c: headers in the binning list that say which part of each
-- list belongs to a render pass. A marker is kept by its offset in the allocator's buffer; the
-- fields that the control list code only clears are left out.
use rpi_vk_driver.Base.{
  ℕ, ◌^◌, ◌<◌, ◌≡◌, ◌≢◌, true, false, not, ◌&&◌, ◌==◌, if◌then◌else◌, add32, sub32, u32_max, arith,
}
use rpi_vk_driver.ControlList.{ControlList, advance}

-- `CLMarker`
pub record Marker : Type 0 where
  pub mem_guard : ℕ
  pub next_marker_offset : ℕ
  pub size : ℕ
  pub handles_buf_offset : ℕ
  pub handles_size : ℕ
  pub shader_rec_buf_offset : ℕ
  pub shader_rec_size : ℕ
  pub shader_rec_count : ℕ
  pub uniforms_buf_offset : ℕ
  pub uniforms_size : ℕ

-- `sizeof(CLMarker)`: 41 fields of 4 bytes
abbrev pub marker_bytes : ℕ
marker_bytes = 164

abbrev pub Markers : Type 0
Markers = ℕ → Marker

abbrev pub put_marker : Markers → ℕ → Marker → Markers
put_marker ms o x a = if a == o then x else ms a

-- The lists that a marker cuts into segments
pub record Segments : Type 0 where
  pub handles_cl : ControlList
  pub shader_rec_cl : ControlList
  pub uniforms_cl : ControlList

-- The bytes of a list after the segment's first
abbrev pub segment_size : ControlList → ℕ → ℕ
segment_size cl buf_offset = sub32 cl.next_free_byte_offset (add32 buf_offset cl.offset)

-- `clCloseCurrentMarker`
unfoldable pub close_current_marker : Markers → ControlList → Segments → ℕ → Markers
close_current_marker ms cl s shader_rec_count =
    let o = cl.curr_marker_offset in
    let curr = ms o in
    put_marker ms o (record curr {
      size = sub32 cl.next_free_byte_offset (add32 o marker_bytes);
      handles_size = segment_size s.handles_cl curr.handles_buf_offset;
      shader_rec_size = segment_size s.shader_rec_cl curr.shader_rec_buf_offset;
      uniforms_size = segment_size s.uniforms_cl curr.uniforms_buf_offset;
      shader_rec_count = sub32 shader_rec_count curr.shader_rec_count;
    })

-- The marker before anything is known of it
abbrev pub blank_marker : Marker
blank_marker = record {
  mem_guard = 0xDDDDDDDD;
  next_marker_offset = u32_max;
  size = 0;
  handles_buf_offset = 0;
  handles_size = 0;
  shader_rec_buf_offset = 0;
  shader_rec_size = 0;
  shader_rec_count = 0;
  uniforms_buf_offset = 0;
  uniforms_size = 0;
}

-- The marker that follows `curr`
abbrev pub following : Marker → Marker
following curr = record blank_marker {
  handles_buf_offset = add32 curr.handles_buf_offset curr.handles_size;
  shader_rec_buf_offset = add32 curr.shader_rec_buf_offset curr.shader_rec_size;
  uniforms_buf_offset = add32 curr.uniforms_buf_offset curr.uniforms_size;
  shader_rec_count = curr.shader_rec_count;
}

-- `clInsertNewCLMarker`
unfoldable pub insert_new_marker : Markers → ControlList → Segments → ℕ → Markers × ControlList
insert_new_marker ms cl s shader_rec_count =
    let o = cl.curr_marker_offset in
    let next = cl.next_free_byte_offset in
    let has_marker = not (o == u32_max) in
    let closed =
      if has_marker && (ms o).size == 0
      then close_current_marker ms cl s shader_rec_count
      else ms in
    let marker = if has_marker then following (closed o) else blank_marker in
    let written = put_marker closed next marker in
    let linked =
      if has_marker
      then put_marker written o (record (written o) { next_marker_offset = sub32 next cl.offset })
      else written in
    (linked, record (advance cl marker_bytes) { curr_marker_offset = next })

-- The current marker is open, and lies elsewhere than the next free byte; offsets are 32-bit values.
pub record IsOpen (ms : Markers) (cl : ControlList) (s : Segments) : Type 0 where
  pub has_marker : cl.curr_marker_offset ≢ u32_max
  pub open_size : (ms cl.curr_marker_offset).size ≡ 0
  pub apart : cl.curr_marker_offset ≢ cl.next_free_byte_offset
  pub small_handles : (ms cl.curr_marker_offset).handles_buf_offset < 2 ^ 32
  pub small_shader : (ms cl.curr_marker_offset).shader_rec_buf_offset < 2 ^ 32
  pub small_uniforms : (ms cl.curr_marker_offset).uniforms_buf_offset < 2 ^ 32
  pub handles_offset : s.handles_cl.offset < 2 ^ 32
  pub shader_offset : s.shader_rec_cl.offset < 2 ^ 32
  pub uniforms_offset : s.uniforms_cl.offset < 2 ^ 32

-- The markers after a new one, when the current one is open
pub after_open :
    (ms : Markers) (cl : ControlList) (s : Segments) (count : ℕ)
    → IsOpen ms cl s
    → let o = cl.curr_marker_offset in
      let closed = close_current_marker ms cl s count in
      insert_new_marker ms cl s count ≡ (
        put_marker
            (put_marker closed cl.next_free_byte_offset (following (closed o)))
            o
            (record (closed o) { next_marker_offset = sub32 cl.next_free_byte_offset cl.offset }),
        record (advance cl marker_bytes) { curr_marker_offset = cl.next_free_byte_offset },
      )
unfolding insert_new_marker
after_open ms cl s count h =
    let marked : (cl.curr_marker_offset == u32_max) ≡ false = ground (arith, h.has_marker) in
    let is_open : ((ms cl.curr_marker_offset).size == 0) ≡ true = ground (arith, h.open_size) in
    let away : (cl.curr_marker_offset == cl.next_free_byte_offset) ≡ false =
      ground (arith, h.apart) in
    rw (marked, is_open, away)
