-- ===== src/Stencil/RoundTrip.antt =====
-- The words of `encodeStencilValue` hold both states.
use rpi_vk_driver.Base.{
  ℕ, ◌+◌, ◌*◌, ◌/◌, ◌%◌, ◌^◌, ◌<◌, ◌≡◌, refl, ap, ◌∙◌, Bool, Bool-cases, inl, inr, Option, none,
  some, [], ◌∷◌, arith,
}
use rpi_vk_driver.Stencil.{
  StencilState, stencil_word, write_mask_code, mask_word, effective, with_code, both_faces,
  each_face, same_state, encode_stencil_value,
}
use rpi_vk_driver.Stencil.Decode.{config_of, face, coded_mask, decode}
use rpi_vk_driver.Stencil.Words.{
  low_part, stencil_word_as_sum, with_code_as_sum, with_mask, face_of_sum, digits_of_sum,
  coded_mask_lem, mask_word_fields, same_state_lem,
}

-- A word that names its write mask.
coded :
    (s : StencilState) (side code : ℕ)
    → side < 4
    → write_mask_code s.write_mask ≡ some code
    → let word = with_code (stencil_word s side) code in
      (word / 2 ^ 30 ≡ side) × (face word (coded_mask word) ≡ config_of s)
unfolding config_of with_mask
coded s side code small e =
    let mask = coded_mask_lem s side code s.write_mask small e in
    rw (with_code_as_sum s side code small mask.0) (
      (digits_of_sum s side code small mask.0).0,
      rw mask.1 (face_of_sum s side code (s.write_mask % 256) small mask.0),
    )

-- A word whose write mask stands elsewhere.
uncoded :
    (s : StencilState) (side mask : ℕ)
    → side < 4
    → mask ≡ s.write_mask % 256
    → let word = stencil_word s side in (word / 2 ^ 30 ≡ side) × (face word mask ≡ config_of s)
unfolding config_of with_mask
uncoded s side mask small e =
    let sum : stencil_word s side ≡ low_part s + 0 * 2 ^ 28 + side * 2 ^ 30 =
      stencil_word_as_sum s side small ∙ omega arith in
    rw (sum, e)
      (
        (digits_of_sum s side 0 small (omega arith)).0,
        face_of_sum s side 0 (s.write_mask % 256) small (omega arith),
      )

decode-both_faces :
    (s : StencilState) (code : Option ℕ)
    → write_mask_code s.write_mask ≡ code
    → decode (both_faces s code) ≡ some (config_of s, config_of s)
unfolding decode both_faces
decode-both_faces s (some code) e = let h = coded s 3 code (omega arith) e in rw (h.0, h.1)
decode-both_faces s none e =
    let m = mask_word_fields s.write_mask s.write_mask in
    let front = uncoded s 3 (mask_word s.write_mask s.write_mask % 256) (omega arith) m.0 in
    let back = uncoded s 3 (mask_word s.write_mask s.write_mask / 2 ^ 8 % 256) (omega arith) m.1 in
    rw (front.0, front.1, back.1)

decode_masks :
    (f b : StencilState)
    → decode (stencil_word f 1 ∷ stencil_word b 2 ∷ mask_word f.write_mask b.write_mask ∷ [])
      ≡ some (config_of f, config_of b)
unfolding decode
decode_masks f b =
    let m = mask_word_fields f.write_mask b.write_mask in
    let front = uncoded f 1 (mask_word f.write_mask b.write_mask % 256) (omega arith) m.0 in
    let back = uncoded b 2 (mask_word f.write_mask b.write_mask / 2 ^ 8 % 256) (omega arith) m.1 in
    rw (front.0, back.0, front.1, back.1)

decode-each_face :
    (f b : StencilState) (cf cb : Option ℕ)
    → write_mask_code f.write_mask ≡ cf
    → write_mask_code b.write_mask ≡ cb
    → decode (each_face f b cf cb) ≡ some (config_of f, config_of b)
unfolding decode each_face
decode-each_face f b (some cf) (some cb) ef eb =
    let front = coded f 1 cf (omega arith) ef in
    let back = coded b 2 cb (omega arith) eb in rw (front.0, back.0, front.1, back.1)
decode-each_face f b (some cf) none ef eb = decode_masks f b
decode-each_face f b none cb ef eb = decode_masks f b

-- The words that `encodeStencilValue` makes decode to both states: masks and reference cut to eight
-- bits, operations by their numbers cut to three, and the comparison `ALWAYS` on both faces when
-- the stencil test is off.
pub decode-encode_stencil_value :
    (front back : StencilState) (enable : Bool)
    → decode (encode_stencil_value front back enable)
      ≡ some (config_of (effective enable front), config_of (effective enable back))
unfolding encode_stencil_value
decode-encode_stencil_value front back enable =
    let f = effective enable front in
    let b = effective enable back in
    elim (Bool-cases (same_state f b)) [
      | inl same ↦ rw same (
          decode-both_faces f (write_mask_code f.write_mask) refl
          ∙ ap (λ x. some (config_of f, config_of x)) (same_state_lem f b same))
      | inr differ ↦ rw differ (
          decode-each_face f b (write_mask_code f.write_mask) (write_mask_code b.write_mask) refl
            refl)
    ]
