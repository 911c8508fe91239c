-- ===== src/ControlList/Segments.antt =====
-- What the markers of driver/ControlListUtil.c say of the lists: where segments begin and end, and
-- how many shader records they count.
use rpi_vk_driver.Base.{
  ℕ, ◌+◌, ◌-◌, ◌^◌, ◌≤◌, ◌<◌, ◌≡◌, ◌≢◌, refl, sym, ap, ◌∙◌, true, false, ◌==◌, add32, sub32, arith,
}
use rpi_vk_driver.ControlList.{ControlList}
use rpi_vk_driver.ControlList.Markers.{
  Marker, Markers, Segments, marker_bytes, put_marker, segment_size, close_current_marker,
  following, insert_new_marker, IsOpen, after_open,
}

put_marker_self : (ms : Markers) (o : ℕ) (x : Marker) → put_marker ms o x o ≡ x
put_marker_self ms o x = let e : (o == o) ≡ true = ground arith in rw e

put_marker_other : (ms : Markers) (o a : ℕ) (x : Marker) → a ≢ o → put_marker ms o x a ≡ ms a
put_marker_other ms o a x ne = let e : (a == o) ≡ false = ground arith in rw e

module _ (ms : Markers) (cl : ControlList) (s : Segments) (count : ℕ)
    (open_now : IsOpen ms cl s) where
  abbrev after : Markers
  after = (insert_new_marker ms cl s count).0

  abbrev closed : Marker
  closed = close_current_marker ms cl s count cl.curr_marker_offset

  abbrev closing : Markers
  closing = close_current_marker ms cl s count

  abbrev written : Markers
  written = put_marker closing cl.next_free_byte_offset (following closed)

  abbrev linked : Marker
  linked = record closed { next_marker_offset = sub32 cl.next_free_byte_offset cl.offset }

  old_marker :
      after cl.curr_marker_offset
      ≡ record closed { next_marker_offset = sub32 cl.next_free_byte_offset cl.offset }
  old_marker =
      ap (λ (r : Markers × ControlList). r.0 cl.curr_marker_offset)
        (after_open ms cl s count open_now)
      ∙ put_marker_self written cl.curr_marker_offset linked

  new_marker : after cl.next_free_byte_offset ≡ following closed
  new_marker =
      ap (λ (r : Markers × ControlList). r.0 cl.next_free_byte_offset)
        (after_open ms cl s count open_now)
      ∙ put_marker_other written cl.curr_marker_offset cl.next_free_byte_offset linked
          (λ e. open_now.apart (sym e))
      ∙ put_marker_self closing cl.next_free_byte_offset (following closed)

  other_marker : (a : ℕ) → a ≢ cl.curr_marker_offset → a ≢ cl.next_free_byte_offset → after a ≡ ms a
  unfolding close_current_marker
  other_marker a old new =
      ap (λ (r : Markers × ControlList). r.0 a) (after_open ms cl s count open_now)
      ∙ put_marker_other written cl.curr_marker_offset a linked old
      ∙ put_marker_other closing cl.next_free_byte_offset a (following closed) new
      ∙ put_marker_other ms cl.curr_marker_offset a _ old

  closed_fields : closed ≡ record (ms cl.curr_marker_offset) {
    size = sub32 cl.next_free_byte_offset (add32 cl.curr_marker_offset marker_bytes);
    handles_size = segment_size s.handles_cl (ms cl.curr_marker_offset).handles_buf_offset;
    shader_rec_size = segment_size s.shader_rec_cl (ms cl.curr_marker_offset).shader_rec_buf_offset;
    uniforms_size = segment_size s.uniforms_cl (ms cl.curr_marker_offset).uniforms_buf_offset;
    shader_rec_count = sub32 count (ms cl.curr_marker_offset).shader_rec_count;
  }
  unfolding close_current_marker
  closed_fields = put_marker_self ms cl.curr_marker_offset _

-- The segment after one that `segment_size` closes begins at the next free byte.
segment-end :
    (cl : ControlList) (buf_offset : ℕ)
    → buf_offset < 2 ^ 32
    → cl.offset < 2 ^ 32
    → cl.next_free_byte_offset < 2 ^ 32
    → add32 buf_offset (segment_size cl buf_offset) ≡ sub32 cl.next_free_byte_offset cl.offset
segment-end cl b small start end = omega arith

-- `clInsertNewCLMarker` while a marker is open closes it, with the number of bytes since its header,
-- and links it to the new one. The new marker's segments of the handles, the shader records and the
-- uniforms begin where those of the old one end, at the lists' next free bytes. No other marker
-- changes, and the new one is the current one.
pub insert_new_marker-continues :
    (ms : Markers) (cl : ControlList) (s : Segments) (count : ℕ)
    → IsOpen ms cl s
    → s.handles_cl.next_free_byte_offset < 2 ^ 32
    → s.shader_rec_cl.next_free_byte_offset < 2 ^ 32
    → s.uniforms_cl.next_free_byte_offset < 2 ^ 32
    → let (ms', cl') = insert_new_marker ms cl s count in
      let old = ms' cl.curr_marker_offset in
      let new = ms' cl.next_free_byte_offset in
      ((old.size ≡ sub32 cl.next_free_byte_offset (add32 cl.curr_marker_offset marker_bytes))
        × (old.next_marker_offset ≡ sub32 cl.next_free_byte_offset cl.offset))
      × ((new.handles_buf_offset ≡ sub32 s.handles_cl.next_free_byte_offset s.handles_cl.offset)
          × (new.handles_buf_offset ≡ add32 old.handles_buf_offset old.handles_size)
          × (new.shader_rec_buf_offset
              ≡ sub32 s.shader_rec_cl.next_free_byte_offset s.shader_rec_cl.offset)
          × (new.shader_rec_buf_offset ≡ add32 old.shader_rec_buf_offset old.shader_rec_size)
          × (new.uniforms_buf_offset
              ≡ sub32 s.uniforms_cl.next_free_byte_offset s.uniforms_cl.offset)
          × (new.uniforms_buf_offset ≡ add32 old.uniforms_buf_offset old.uniforms_size))
      × ((new.size ≡ 0)
          × (cl'.curr_marker_offset ≡ cl.next_free_byte_offset)
          × ((a : ℕ) → a ≢ cl.curr_marker_offset → a ≢ cl.next_free_byte_offset → ms' a ≡ ms a))
insert_new_marker-continues ms cl s count h eh es eu =
    let was = ms cl.curr_marker_offset in
    let old = old_marker ms cl s count h in
    let new = new_marker ms cl s count h in
    let fields = closed_fields ms cl s count h in
    let moved : (insert_new_marker ms cl s count).1.curr_marker_offset ≡ cl.next_free_byte_offset =
      ap (λ (r : Markers × ControlList). r.1.curr_marker_offset) (after_open ms cl s count h) in
    rw (old, new, fields)
      (
        (refl, refl),
        (
          segment-end s.handles_cl was.handles_buf_offset h.small_handles h.handles_offset eh,
          refl,
          segment-end s.shader_rec_cl was.shader_rec_buf_offset h.small_shader h.shader_offset es,
          refl,
          segment-end s.uniforms_cl was.uniforms_buf_offset h.small_uniforms h.uniforms_offset eu,
          refl,
        ),
        (refl, moved, other_marker ms cl s count h),
      )

-- A marker opened at a total of `start` shader records, after one that had itself begun with the
-- number `first`, and closed at a total of `end`: `clCloseCurrentMarker` counts `first` more than
-- the `end - start` records of its segment. The count is right only where `first` is 0.
pub close_current_marker-count :
    (ms : Markers) (cl : ControlList) (s s' : Segments) (next start end : ℕ)
    → IsOpen ms cl s
    → (ms cl.curr_marker_offset).shader_rec_count ≤ start
    → start ≤ end
    → end < 2 ^ 32
    → let (ms', cl') = insert_new_marker ms cl s start in
      let closed = close_current_marker ms' (record cl' { next_free_byte_offset = next }) s' end in
      (closed cl.next_free_byte_offset).shader_rec_count
      ≡ end - start + (ms cl.curr_marker_offset).shader_rec_count
unfolding close_current_marker
close_current_marker-count ms cl s s' next start end h le later small =
    let moved : (insert_new_marker ms cl s start).1.curr_marker_offset ≡ cl.next_free_byte_offset =
      ap (λ (r : Markers × ControlList). r.1.curr_marker_offset) (after_open ms cl s start h) in
    let here : (cl.next_free_byte_offset == cl.next_free_byte_offset) ≡ true = ground arith in
    let init : (insert_new_marker ms cl s start).0 cl.next_free_byte_offset
        ≡ following (closed ms cl s start h) =
      new_marker ms cl s start h in
    rw (moved, here, init, closed_fields ms cl s start h) (omega arith)
