-- ===== src/Rounding/Pad.antt =====
-- `getPow2Pad` of driver/common.c: the shifts and ors fill a number with ones below its highest.
use native.Mathlib.Nat.{
  mul-le-mul_right, one-le-pow, pow-le-pow_right, div-add-mod', mod-lt, div-le_self,
}
use native.Mathlib.Decide.{dec_le, dec_lt}
use rpi_vk_driver.Base.{
  ℕ, ◌+◌, ◌-◌, ◌*◌, ◌/◌, ◌%◌, ◌^◌, ◌≤◌, ◌<◌, ◌≡◌, arith, bit_or, sym, ap, ◌∙◌, sub32,
}
use rpi_vk_driver.Base.Bits.{bit_or-lt, le-bit_or, bit_or_below, two_pow_add}
use rpi_vk_driver.Rounding.{ulog2, smear, get_pow2_pad}
use rpi_vk_driver.Rounding.Power.{ulog2-bounds, pow_next}

-- Of the `w` digits of `x`, the highest `j` are ones.
record TopOnes (w j x : ℕ) : Type 0 where
  fits : x < 2 ^ w
  ones : 2 ^ w ≤ x + 2 ^ (w - j)

div_of_mul_le : (a b x : ℕ) → 0 < b → a * b ≤ x → a ≤ x / b
div_of_mul_le a b x pos h = elim (dec_lt (x / b) a) [
  | yes p ↦ absurd (grind (arith, div-add-mod' x b, mod-lt x pos))
  | no p ↦ omega arith
]

div_of_lt_mul : (a b x : ℕ) → 0 < b → x < a * b → x / b < a
div_of_lt_mul a b x pos h = elim (dec_lt (x / b) a) [
  | yes p ↦ p
  | no p ↦ absurd (grind (arith, div-add-mod' x b, mod-lt x pos))
]

split_pow : (w j : ℕ) → j ≤ w → 2 ^ w ≡ 2 ^ j * 2 ^ (w - j)
split_pow w j h =
    let e : j + (w - j) ≡ w = omega arith in ap (λ k. 2 ^ k) (sym e) ∙ two_pow_add j (w - j)

pow_pos : (k : ℕ) → 0 < 2 ^ k
pow_pos k = let two : 0 < 2 = omega arith in one-le-pow k 2 two

-- `(Q - R) * P` stays below `x`, where `W = P * Q` and `x` misses `W` by at most `Q`.
room_below : (P Q R W x : ℕ) → R ≤ Q → W ≡ P * Q → W ≤ x + Q → Q ≤ P * R → (Q - R) * P ≤ x
room_below P Q R W x h e top q =
    let d : Q - R + R ≡ Q = omega arith in omega (arith, ap (λ k. k * P) d)

-- Shifted down by `j`, the digits that are left begin with `j` ones again.
shifted-ones :
    (w j x : ℕ)
    → j ≤ w
    → TopOnes w j x
    → (x / 2 ^ j < 2 ^ (w - j)) × (2 ^ (w - j) ≤ x / 2 ^ j + 2 ^ (w - (j + j)))
shifted-ones w j x h top = (
  div_of_lt_mul (2 ^ (w - j)) (2 ^ j) x (pow_pos j) (omega (arith, split_pow w j h, top.fits)),
  elim (dec_le j (w - j)) [
    | yes p ↦
        let e : w - j - j ≡ w - (j + j) = omega arith in
        let q : 2 ^ (w - j) ≡ 2 ^ j * 2 ^ (w - (j + j)) =
          split_pow (w - j) j p ∙ ap (λ k. 2 ^ j * 2 ^ k) e in
        let small =
          pow-le-pow_right {n = 2} (omega arith) {i = w - (j + j)} {j = w - j} (omega arith) in
        let below =
          room_below (2 ^ j) (2 ^ (w - j)) (2 ^ (w - (j + j))) (2 ^ w) x small (split_pow w j h)
            top.ones (omega (arith, q)) in
        omega (arith, div_of_mul_le (2 ^ (w - j) - 2 ^ (w - (j + j))) (2 ^ j) x (pow_pos j) below)
    | no p ↦
        let e : w - (j + j) ≡ 0 = omega arith in
        let small = pow-le-pow_right {n = 2} (omega arith) {i = w - j} {j = j} (omega arith) in
        let below =
          room_below (2 ^ j) (2 ^ (w - j)) 1 (2 ^ w) x (pow_pos (w - j)) (split_pow w j h) top.ones
            (omega (arith, small)) in
        rw e (omega (arith, div_of_mul_le (2 ^ (w - j) - 1) (2 ^ j) x (pow_pos j) below))
  ],
)

whole : (P q T r : ℕ) → r < T → P * T ≤ q * T + r + T → P * T ≤ (q + 1) * T
whole P q T r small h = elim (dec_le P (q + 1)) [
  | yes p ↦ mul-le-mul_right T p
  | no p ↦ let over : q + 2 ≤ P = omega arith in absurd (omega (arith, mul-le-mul_right T over))
]

-- `x | x >> j` doubles the run of ones at the top.
smear-TopOnes : (w j x : ℕ) → TopOnes w j x → TopOnes w (j + j) (smear j x)
unfolding smear
smear-TopOnes w j x top = elim (dec_le j w) [
  | yes h ↦
      let s = x / 2 ^ j in
      let q = x / 2 ^ (w - j) in
      let r = x % 2 ^ (w - j) in
      let shifted = shifted-ones w j x h top in
      let r_small = mod-lt x (pow_pos (w - j)) in
      let parts : x ≡ q * 2 ^ (w - j) + r = sym (div-add-mod' x (2 ^ (w - j))) in
      let joined : bit_or x s ≡ q * 2 ^ (w - j) + bit_or r s =
        ap (λ y. bit_or y s) parts ∙ bit_or_below (w - j) q r s r_small shifted.0 in
      let high : 2 ^ j * 2 ^ (w - j) ≤ (q + 1) * 2 ^ (w - j) =
        whole (2 ^ j) q (2 ^ (w - j)) r r_small (omega (arith, split_pow w j h, top.ones, parts)) in
      record {
        fits = bit_or-lt w x s top.fits (omega (arith, div-le_self x (2 ^ j), top.fits));
        ones = omega (arith, joined, le-bit_or r s, shifted.1, high, split_pow w j h);
      }
  | no h ↦
      let e : w - j ≡ 0 = omega arith in
      let e' : w - (j + j) ≡ 0 = omega arith in
      let all : 2 ^ w ≤ x + 2 ^ 0 = rw e at top.ones in
      record {
        fits = bit_or-lt w x (x / 2 ^ j) top.fits (omega (arith, div-le_self x (2 ^ j), top.fits));
        ones = rw e' (omega (arith, le-bit_or x (x / 2 ^ j)));
      }
]

log_small : (m : ℕ) → 2 ^ ulog2 m ≤ m → m < 2 ^ 31 → ulog2 m ≤ 30
log_small m h small = elim (dec_le (ulog2 m) 30) [
  | yes p ↦ p
  | no p ↦
      let two : 0 < 2 = omega arith in
      let over = pow-le-pow_right two {i = 31} {j = ulog2 m} (omega arith) in absurd (omega arith)
]

-- `getPow2Pad(n)` is, up to 2 ^ 31, the power of two that is at least `n` and less than its double:
-- 1 at 1, and one power above the highest one of `n - 1` else.
pub get_pow2_pad-power :
    (n : ℕ)
    → 1 < n
    → n ≤ 2 ^ 31
    → (get_pow2_pad n ≡ 2 ^ (ulog2 (n - 1) + 1)) × (n ≤ get_pow2_pad n) × (get_pow2_pad n < 2 * n)
unfolding get_pow2_pad
get_pow2_pad-power n big small =
    let m = n - 1 in
    let bounds = ulog2-bounds m (omega arith) (omega arith) in
    let w = ulog2 m + 1 in
    let back : w - 1 ≡ ulog2 m = omega arith in
    let top : TopOnes w 1 m = record {
      fits = bounds.1;
      ones = rw back (omega (arith, bounds.0, pow_next (ulog2 m)));
    } in
    let filled =
      smear-TopOnes w 16 _ (
        smear-TopOnes w 8 _
          (smear-TopOnes w 4 _ (smear-TopOnes w 2 _ (smear-TopOnes w 1 m top)))) in
    let low : ulog2 m ≤ 30 = log_small m bounds.0 (omega arith) in
    let none_left : w - 32 ≡ 0 = omega arith in
    let power = pow-le-pow_right {n = 2} (omega arith) {i = w} {j = 31} (omega arith) in
    let all = rw none_left at filled.ones in
    let e : sub32 n 1 ≡ m = omega arith in
    rw e (
      omega (arith, filled.fits, all, power),
      omega (arith, filled.fits, all, power, bounds.1),
      omega (arith, filled.fits, all, power, bounds.0, pow_next (ulog2 m)),
    )
