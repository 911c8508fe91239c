-- ===== src/Base/Fields.antt =====
-- Packing bit fields: a masked value, shifted, cast to 32 bits and joined by `|`, is added.
use native.Mathlib.Nat.{mod-eq_of_lt, mod-lt, one-le-pow, mul-le-mul_right}
use rpi_vk_driver.Base.{
  ℕ, ◌+◌, ◌-◌, ◌*◌, ◌%◌, ◌^◌, ◌≤◌, ◌<◌, ◌≡◌, sym, ap, ◌∙◌, arith, u32, ◌|||◌, ◌&◌, ◌<<<◌, Bool,
  true, false, if◌then◌else◌,
}
use rpi_vk_driver.Base.Bits.{bit_or_low, bit_or_high, bit_and_ones}

field_small : (k bits x : ℕ) → x % 2 ^ bits * 2 ^ k < 2 ^ bits * 2 ^ k
field_small k bits x =
    let two : 0 < 2 = omega arith in
    let small = mod-lt x (one-le-pow bits 2 two) in
    omega (arith, mul-le-mul_right (2 ^ k) small, one-le-pow k 2 two)

field_cast :
    (k bits x : ℕ)
    → 2 ^ bits * 2 ^ k ≤ 2 ^ 32
    → u32 ((x & (2 ^ bits - 1)) <<< k) ≡ x % 2 ^ bits * 2 ^ k
field_cast k bits x fits =
    rw (bit_and_ones bits x) (mod-eq_of_lt (omega (arith, field_small k bits x)))

-- A field above all those so far.
pub join_above :
    (k bits acc x : ℕ)
    → acc < 2 ^ k
    → 2 ^ bits * 2 ^ k ≤ 2 ^ 32
    → (acc ||| u32 ((x & (2 ^ bits - 1)) <<< k)) ≡ acc + x % 2 ^ bits * 2 ^ k
join_above k bits acc x small fits =
    ap (λ y. acc ||| y) (field_cast k bits x fits) ∙ bit_or_low k acc (x % 2 ^ bits) small

-- A field below all those so far, which fill whole multiples of `2 ^ t`.
pub join_below :
    (t k bits acc q x : ℕ)
    → acc ≡ q * 2 ^ t
    → 2 ^ bits * 2 ^ k ≤ 2 ^ t
    → 2 ^ bits * 2 ^ k ≤ 2 ^ 32
    → (acc ||| u32 ((x & (2 ^ bits - 1)) <<< k)) ≡ acc + x % 2 ^ bits * 2 ^ k
join_below t k bits acc q x e under fits =
    ap (λ y. acc ||| y) (field_cast k bits x fits)
    ∙ ap (λ y. y ||| x % 2 ^ bits * 2 ^ k) e
    ∙ bit_or_high t q (x % 2 ^ bits * 2 ^ k) (omega (arith, field_small k bits x))
    ∙ ap (λ y. y + x % 2 ^ bits * 2 ^ k) (sym e)

-- A number of `t` digits below a multiple of `2 ^ t`.
pub join_rest : (t acc q r : ℕ) → acc ≡ q * 2 ^ t → r < 2 ^ t → (acc ||| r) ≡ acc + r
join_rest t acc q r e small =
    ap (λ y. y ||| r) e ∙ bit_or_high t q r small ∙ ap (λ y. y + r) (sym e)

abbrev pub digit : Bool → ℕ
digit b = if b then 1 else 0

-- One digit, from a flag.
pub join_flag :
    (k acc : ℕ) (b : Bool)
    → acc < 2 ^ k
    → 2 ^ k < 2 ^ 32
    → (acc ||| u32 ((if b then 1 else 0) <<< k)) ≡ acc + digit b * 2 ^ k
join_flag k acc b small fits =
    let cast : u32 (digit b <<< k) ≡ digit b * 2 ^ k = mod-eq_of_lt (flag_small k b fits) in
    ap (λ y. acc ||| y) cast ∙ bit_or_low k acc (digit b) small
  where
    flag_small : (k : ℕ) (b : Bool) → 2 ^ k < 2 ^ 32 → digit b * 2 ^ k < 2 ^ 32
    flag_small k true h = omega arith
    flag_small k false h = omega arith
