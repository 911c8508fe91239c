-- ===== src/Stencil/Words.antt =====
-- The stencil words of driver/common.c as sums of their fields.
use rpi_vk_driver.Base.{
  ℕ, ◌+◌, ◌*◌, ◌/◌, ◌%◌, ◌^◌, ◌<◌, ◌≡◌, refl, ap, ◌∙◌, u32, true, some, arith, ◌<<<◌,
}
use rpi_vk_driver.Base.Bits.{bit_or_low, zero-bit_or, bit_and_ones, bit_or_below}
use rpi_vk_driver.Base.Fields.{join_above}
use rpi_vk_driver.States.{get_compare_op, get_stencil_op}
use rpi_vk_driver.Stencil.{
  StencilState, stencil_word, write_mask_code, mask_word, with_code, same_state, same_op_lem,
  CompareOp-discrete, StencilOp-discrete,
}
use rpi_vk_driver.Stencil.Decode.{FaceConfig, config_of, face, coded_mask}

-- The digits of a word below the face digits, as a sum.
pub low_part : StencilState → ℕ
low_part s =
    s.compare_mask % 256
    + s.reference % 256 * 2 ^ 8
    + get_compare_op s.compare_op % 8 * 2 ^ 16
    + get_stencil_op s.fail_op % 8 * 2 ^ 19
    + get_stencil_op s.pass_op % 8 * 2 ^ 22
    + get_stencil_op s.depth_fail_op % 8 * 2 ^ 25

pub stencil_word_as_sum :
    (s : StencilState) (side : ℕ) → side < 4 → stencil_word s side ≡ low_part s + side * 2 ^ 30
unfolding stencil_word low_part
stencil_word_as_sum s side small =
    let a0 = s.compare_mask % 256 in
    let a1 = a0 + s.reference % 256 * 2 ^ 8 in
    let a2 = a1 + get_compare_op s.compare_op % 8 * 2 ^ 16 in
    let a3 = a2 + get_stencil_op s.fail_op % 8 * 2 ^ 19 in
    let a4 = a3 + get_stencil_op s.pass_op % 8 * 2 ^ 22 in
    let a5 = a4 + get_stencil_op s.depth_fail_op % 8 * 2 ^ 25 in
    let cast : u32 (side <<< 30) ≡ side * 2 ^ 30 = omega arith in
    rw
      (
        bit_and_ones 8 s.compare_mask,
        zero-bit_or a0,
        join_above 8 8 a0 s.reference (omega arith) (omega arith),
        join_above 16 3 a1 (get_compare_op s.compare_op) (omega arith) (omega arith),
        join_above 19 3 a2 (get_stencil_op s.fail_op) (omega arith) (omega arith),
        join_above 22 3 a3 (get_stencil_op s.pass_op) (omega arith) (omega arith),
        join_above 25 3 a4 (get_stencil_op s.depth_fail_op) (omega arith) (omega arith),
        cast,
        bit_or_low 30 a5 side (omega arith),
      )
      refl

low_part-lt : (s : StencilState) → low_part s < 2 ^ 28
unfolding low_part
low_part-lt s = omega arith

pub with_code_as_sum :
    (s : StencilState) (side code : ℕ)
    → side < 4
    → code < 4
    → with_code (stencil_word s side) code ≡ low_part s + code * 2 ^ 28 + side * 2 ^ 30
unfolding with_code
with_code_as_sum s side code side_small code_small =
    let small = low_part-lt s in
    let cast : u32 (code <<< 28) ≡ code * 2 ^ 28 = omega arith in
    let order : low_part s + side * 2 ^ 30 ≡ side * 2 ^ 30 + low_part s = omega arith in
    rw (stencil_word_as_sum s side side_small, cast, order)
      (bit_or_below 30 side (low_part s) (code * 2 ^ 28) (omega arith) (omega arith)
        ∙ ap (λ x. side * 2 ^ 30 + x) (bit_or_low 28 (low_part s) code small)
        ∙ omega arith)

unfoldable pub with_mask : StencilState → ℕ → FaceConfig
with_mask s mask = record (config_of s) { write_mask = mask }

pub face_of_sum :
    (s : StencilState) (side code mask : ℕ)
    → side < 4
    → code < 4
    → face (low_part s + code * 2 ^ 28 + side * 2 ^ 30) mask ≡ with_mask s mask
unfolding face low_part config_of with_mask
face_of_sum s side code mask side_small code_small = ground arith

pub digits_of_sum :
    (s : StencilState) (side code : ℕ)
    → side < 4
    → code < 4
    → let word = low_part s + code * 2 ^ 28 + side * 2 ^ 30 in
      (word / 2 ^ 30 ≡ side) × (word / 2 ^ 28 % 4 ≡ code)
digits_of_sum s side code side_small code_small = omega (arith, low_part-lt s)

pub coded_mask_lem :
    (s : StencilState) (side code mask : ℕ)
    → side < 4
    → write_mask_code mask ≡ some code
    → (code < 4) × (coded_mask (low_part s + code * 2 ^ 28 + side * 2 ^ 30) ≡ mask % 256)
unfolding coded_mask write_mask_code
coded_mask_lem s side code mask small e = ground (arith, low_part-lt s)

pub mask_word_fields :
    (front back : ℕ)
    → (mask_word front back % 256 ≡ front % 256) × (mask_word front back / 2 ^ 8 % 256 ≡ back % 256)
unfolding mask_word
mask_word_fields front back =
    rw
      (
        bit_and_ones 8 front,
        zero-bit_or (front % 256),
        join_above 8 8 (front % 256) back (omega arith) (omega arith),
      )
      (omega arith, omega arith)

pub same_state_lem : (f b : StencilState) → same_state f b ≡ true → f ≡ b
unfolding same_state
same_state_lem f b h = ground (
  arith,
  same_op_lem CompareOp-discrete f.compare_op b.compare_op,
  same_op_lem StencilOp-discrete f.fail_op b.fail_op,
  same_op_lem StencilOp-discrete f.pass_op b.pass_op,
  same_op_lem StencilOp-discrete f.depth_fail_op b.depth_fail_op,
)
