-- ===== src/ControlList/Fields.antt =====
-- The bit fields that driver/ControlListUtil.c builds with `moveBits`.
use native.Mathlib.Nat.{
  mod-eq_of_lt, mod-lt, one-le-pow, add-mul-mod_self_right, div-add-mod', mod-mod_of_dvd,
  mul-le-mul_right, pow-le-pow_right, dvd-mul_right,
}
use Prim.Native.Nat.{◌∣◌}
use rpi_vk_driver.Base.{
  ℕ, ◌+◌, ◌-◌, ◌*◌, ◌/◌, ◌%◌, ◌^◌, ◌≤◌, ◌<◌, ◌≡◌, sym, ap, ◌∙◌, subst, arith, u32, u32_max, sub32,
  ◌|||◌, ◌<<<◌, ◌&◌,
}
use rpi_vk_driver.Base.Bits.{bit_and_shift, bit_and_ones, two_pow_add, bit_or_low}
use rpi_vk_driver.ControlList.{move_bits}
use rpi_vk_driver.ControlList.Packets.{ConfigurationBits, configuration_word}

pow_pos : (k : ℕ) → 0 < 2 ^ k
pow_pos k = let two : 0 < 2 = omega arith in omega (arith, one-le-pow k 2 two)

regroup : (q m r o : ℕ) → (q * m + r) * o ≡ r * o + q * (m * o)
regroup q m r o = grind arith

mul_mod : (d o m : ℕ) → 0 < o → 0 < m → d * o % (m * o) ≡ d % m * o
mul_mod d o m po pm =
    let split : d * o ≡ d % m * o + d / m * (m * o) =
      ap (λ x. x * o) (sym (div-add-mod' d m)) ∙ regroup (d / m) m (d % m) o in
    let below : d % m * o < m * o = omega (arith, mul-le-mul_right o (mod-lt d pm), po) in
    ap (λ x. x % (m * o)) split
    ∙ add-mul-mod_self_right (d % m * o) (d / m) (m * o)
    ∙ mod-eq_of_lt below

-- the value, shifted and cut to 32 bits
shifted : (d offset : ℕ) → offset ≤ 32 → u32 (d <<< offset) ≡ d % 2 ^ (32 - offset) * 2 ^ offset
shifted d offset le =
    let whole : 2 ^ 32 ≡ 2 ^ (32 - offset) * 2 ^ offset =
      let sum : 32 ≡ 32 - offset + offset = omega arith in
      ap (λ x. 2 ^ x) sum ∙ two_pow_add (32 - offset) offset in
    ap (λ x. (d * 2 ^ offset) % x) whole
    ∙ mul_mod d (2 ^ offset) (2 ^ (32 - offset)) (pow_pos offset) (pow_pos (32 - offset))

-- the mask
mask :
    (bits offset : ℕ)
    → bits < 32
    → bits + offset ≤ 32
    → u32 ((sub32 u32_max (u32 (u32_max <<< bits))) <<< offset) ≡ (2 ^ bits - 1) * 2 ^ offset
mask bits offset small fits =
    let two : 0 < 2 = omega arith in
    let top : 2 ^ bits ≤ 2 ^ 31 = let le : bits ≤ 31 = omega arith in pow-le-pow_right two le in
    let room : 2 ^ (bits + offset) ≤ 2 ^ 32 = pow-le-pow_right two fits in
    let ones : sub32 u32_max (u32 (u32_max <<< bits)) ≡ 2 ^ bits - 1 =
      omega (arith, top, pow_pos bits) in
    let product : (2 ^ bits - 1) * 2 ^ offset + 2 ^ offset ≡ 2 ^ bits * 2 ^ offset =
      grind (arith, pow_pos bits) in
    ap (λ x. u32 (x <<< offset)) ones
    ∙ mod-eq_of_lt (omega (arith, product, room, two_pow_add bits offset, pow_pos offset))

-- `moveBits` of fewer than 32 bits to a place where they fit the word: the low bits of the value, at
-- that place, and nothing else.
pub move_bits-field :
    (d bits offset : ℕ)
    → bits < 32
    → bits + offset ≤ 32
    → move_bits d bits offset ≡ d % 2 ^ bits * 2 ^ offset
unfolding move_bits
move_bits-field d bits offset small fits =
    let rest : ℕ = 32 - offset in
    let split : bits + (rest - bits) ≡ rest = omega arith in
    ap (λ x. x & (u32 ((sub32 u32_max (u32 (u32_max <<< bits))) <<< offset)))
      (shifted d offset (omega arith))
    ∙ ap (λ x. (d % 2 ^ rest * 2 ^ offset) & x) (mask bits offset small fits)
    ∙ bit_and_shift offset (d % 2 ^ rest) (2 ^ bits - 1)
    ∙ ap (λ x. x * 2 ^ offset)
        (bit_and_ones bits (d % 2 ^ rest)
          ∙ mod-mod_of_dvd (2 ^ bits) d (
              subst (λ x. 2 ^ bits ∣ x)
                (sym (two_pow_add bits (rest - bits)) ∙ ap (λ x. 2 ^ x) split)
                (dvd-mul_right (2 ^ bits) (2 ^ (rest - bits)))))

-- The word of `clInsertConfigurationBits` as the sum of its fields
configuration_as_sum :
    (c : ConfigurationBits)
    → configuration_word c
      ≡ c.enable_forward_facing_primitive % 2
        + c.enable_reverse_facing_primitive % 2 * 2 ^ 1
        + c.clockwise_primitives % 2 * 2 ^ 2
        + c.enable_depth_offset % 2 * 2 ^ 3
        + c.coverage_read_type % 2 * 2 ^ 5
        + c.rasterizer_oversample_mode % 4 * 2 ^ 6
        + c.coverage_pipe_select % 2 * 2 ^ 8
        + c.coverage_update_mode % 4 * 2 ^ 9
        + c.coverage_read_mode % 2 * 2 ^ 11
        + c.depth_test_function % 8 * 2 ^ 12
        + c.z_updates_enable % 2 * 2 ^ 15
        + c.early_z_enable % 2 * 2 ^ 16
        + c.early_z_updates_enable % 2 * 2 ^ 17
unfolding configuration_word
configuration_as_sum c =
    let a0 = c.enable_forward_facing_primitive % 2 * 1 in
    let a1 = a0 + c.enable_reverse_facing_primitive % 2 * 2 ^ 1 in
    let a2 = a1 + c.clockwise_primitives % 2 * 2 ^ 2 in
    let a3 = a2 + c.enable_depth_offset % 2 * 2 ^ 3 in
    let a5 = a3 + c.coverage_read_type % 2 * 2 ^ 5 in
    let a6 = a5 + c.rasterizer_oversample_mode % 4 * 2 ^ 6 in
    let a8 = a6 + c.coverage_pipe_select % 2 * 2 ^ 8 in
    let a9 = a8 + c.coverage_update_mode % 4 * 2 ^ 9 in
    let a11 = a9 + c.coverage_read_mode % 2 * 2 ^ 11 in
    let a12 = a11 + c.depth_test_function % 8 * 2 ^ 12 in
    let a15 = a12 + c.z_updates_enable % 2 * 2 ^ 15 in
    let a16 = a15 + c.early_z_enable % 2 * 2 ^ 16 in
    rw
      (
        field c.enable_forward_facing_primitive 1 0 (omega arith) (omega arith),
        join c.enable_reverse_facing_primitive 1 1 a0 (omega arith) (omega arith) (omega arith),
        join c.clockwise_primitives 1 2 a1 (omega arith) (omega arith) (omega arith),
        join c.enable_depth_offset 1 3 a2 (omega arith) (omega arith) (omega arith),
        join c.coverage_read_type 1 5 a3 (omega arith) (omega arith) (omega arith),
        join c.rasterizer_oversample_mode 2 6 a5 (omega arith) (omega arith) (omega arith),
        join c.coverage_pipe_select 1 8 a6 (omega arith) (omega arith) (omega arith),
        join c.coverage_update_mode 2 9 a8 (omega arith) (omega arith) (omega arith),
        join c.coverage_read_mode 1 11 a9 (omega arith) (omega arith) (omega arith),
        join c.depth_test_function 3 12 a11 (omega arith) (omega arith) (omega arith),
        join c.z_updates_enable 1 15 a12 (omega arith) (omega arith) (omega arith),
        join c.early_z_enable 1 16 a15 (omega arith) (omega arith) (omega arith),
        join c.early_z_updates_enable 1 17 a16 (omega arith) (omega arith) (omega arith),
      )
      (omega arith)
  where
    field :
        (d bits offset : ℕ)
        → bits < 32
        → bits + offset ≤ 32
        → move_bits d bits offset ≡ d % 2 ^ bits * 2 ^ offset
    field d bits offset small fits = move_bits-field d bits offset small fits

    join :
        (d bits offset acc : ℕ)
        → bits < 32
        → bits + offset ≤ 32
        → acc < 2 ^ offset
        → (acc ||| move_bits d bits offset) ≡ acc + d % 2 ^ bits * 2 ^ offset
    join d bits offset acc small fits below =
        ap (λ x. acc ||| x) (move_bits-field d bits offset small fits)
        ∙ bit_or_low offset acc (d % 2 ^ bits) below

-- The word of `clInsertConfigurationBits` fits the three bytes that the packet has for it, and gives
-- each argument back, cut to the width of its field; the digit between the depth offset and the
-- coverage read type is 0.
pub configuration_word-fields :
    (c : ConfigurationBits)
    → let word = configuration_word c in
      ((word < 2 ^ 24)
        × (word % 2 ≡ c.enable_forward_facing_primitive % 2)
        × (word / 2 ^ 1 % 2 ≡ c.enable_reverse_facing_primitive % 2)
        × (word / 2 ^ 2 % 2 ≡ c.clockwise_primitives % 2)
        × (word / 2 ^ 3 % 2 ≡ c.enable_depth_offset % 2)
        × (word / 2 ^ 4 % 2 ≡ 0)
        × (word / 2 ^ 5 % 2 ≡ c.coverage_read_type % 2)
        × (word / 2 ^ 6 % 4 ≡ c.rasterizer_oversample_mode % 4))
      × ((word / 2 ^ 8 % 2 ≡ c.coverage_pipe_select % 2)
          × (word / 2 ^ 9 % 4 ≡ c.coverage_update_mode % 4)
          × (word / 2 ^ 11 % 2 ≡ c.coverage_read_mode % 2)
          × (word / 2 ^ 12 % 8 ≡ c.depth_test_function % 8)
          × (word / 2 ^ 15 % 2 ≡ c.z_updates_enable % 2)
          × (word / 2 ^ 16 % 2 ≡ c.early_z_enable % 2)
          × (word / 2 ^ 17 ≡ c.early_z_updates_enable % 2))
configuration_word-fields c = omega (arith, configuration_as_sum c)
