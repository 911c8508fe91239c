-- ===== src/Base/Bits.antt =====
-- `|` and `&` of C at variables: `|` of fields that share no digit is their sum, `&` with a run
-- of ones is a remainder.
use Prim.Native.Nat.{
  ℕ, zero, suc, ◌+◌, ◌-◌, ◌*◌, ◌/◌, ◌%◌, ◌^◌, ◌≤◌, ◌<◌, bit_and, bit_or, min, max, digits, bitwise,
  bit_and-bitwise, bit_or-bitwise,
}
use mathlib.Core.Path.{◌≡◌, refl, ap, sym, ◌∙◌}
use native.Mathlib.Nat.{pow-suc, one-le-pow, le_refl, mod-lt, div-add-mod'}
use native.Mathlib.Omega.{arith}

-- The fuel of the digit recursion is no matter once it covers the first number.
module _ (z : ℕ → ℕ) (f : ℕ → ℕ → ℕ) where
  fuel_irrelevant : (n m a b : ℕ) → a ≤ n → a ≤ m → digits z f n a b ≡ digits z f m a b
  fuel_irrelevant zero zero a b p q = refl
  fuel_irrelevant zero (suc m) zero b p q = refl
  fuel_irrelevant zero (suc m) (suc a) b p q = absurd (omega arith)
  fuel_irrelevant (suc n) zero zero b p q = refl
  fuel_irrelevant (suc n) zero (suc a) b p q = absurd (omega arith)
  fuel_irrelevant (suc n) (suc m) zero b p q = refl
  fuel_irrelevant (suc n) (suc m) (suc a) b p q =
      rw (fuel_irrelevant n m (suc a / 2) (b / 2) (omega arith) (omega arith))

  lowest_digit :
      (a b : ℕ)
      → bitwise z f (suc a) b ≡ bitwise z f (suc a / 2) (b / 2) * 2 + f (suc a % 2) (b % 2)
  lowest_digit a b =
      omega (arith, fuel_irrelevant a (suc a / 2) (suc a / 2) (b / 2) (omega arith) (le_refl _))

bit_or-digit : (a b : ℕ) → bit_or a b ≡ bit_or (a / 2) (b / 2) * 2 + max (a % 2) (b % 2)
bit_or-digit zero b = simp bit_or-bitwise (omega arith)
bit_or-digit (suc a) b = simp bit_or-bitwise (lowest_digit (λ y. y) max a b)

bit_and-digit : (a b : ℕ) → bit_and a b ≡ bit_and (a / 2) (b / 2) * 2 + min (a % 2) (b % 2)
bit_and-digit zero b = simp bit_and-bitwise (omega arith)
bit_and-digit (suc a) b = simp bit_and-bitwise (lowest_digit (λ y. 0) min a b)

pub zero-bit_or : (b : ℕ) → bit_or 0 b ≡ b
zero-bit_or b = bit_or-bitwise 0 b

or_zero_fuel : (n a : ℕ) → a ≤ n → bit_or a 0 ≡ a
or_zero_fuel n zero h = refl
or_zero_fuel zero (suc a) h = absurd (omega arith)
or_zero_fuel (suc n) (suc a) h =
    omega (arith, bit_or-digit (suc a) 0, or_zero_fuel n (suc a / 2) (omega arith))

pub bit_or-zero : (a : ℕ) → bit_or a 0 ≡ a
bit_or-zero a = or_zero_fuel a a (le_refl a)

and_zero_fuel : (n a : ℕ) → a ≤ n → bit_and a 0 ≡ 0
and_zero_fuel n zero h = refl
and_zero_fuel zero (suc a) h = absurd (omega arith)
and_zero_fuel (suc n) (suc a) h =
    omega (arith, bit_and-digit (suc a) 0, and_zero_fuel n (suc a / 2) (omega arith))

pub bit_and-zero : (a : ℕ) → bit_and a 0 ≡ 0
bit_and-zero a = and_zero_fuel a a (le_refl a)

pow_suc_mul : (q k : ℕ) → q * 2 ^ suc k ≡ 2 * (q * 2 ^ k)
pow_suc_mul q k = omega (arith, ap (λ (t : ℕ). q * t) (pow-suc 2 k))

-- A field below `2 ^ k`, joined with one above: the low one first ...
pub bit_or_low : (k r q : ℕ) → r < 2 ^ k → bit_or r (q * 2 ^ k) ≡ r + q * 2 ^ k
bit_or_low zero r q fits =
    let e : r ≡ 0 = omega arith in rw e (zero-bit_or (q * 2 ^ 0) ∙ omega arith)
bit_or_low (suc k) r q fits = ground (
  arith,
  bit_or-digit r (q * 2 ^ suc k),
  pow_suc_mul q k,
  bit_or_low k (r / 2) q (omega (arith, pow-suc 2 k)),
)

-- ... or the high one first.
pub bit_or_high : (k q r : ℕ) → r < 2 ^ k → bit_or (q * 2 ^ k) r ≡ q * 2 ^ k + r
bit_or_high zero q r fits =
    let e : r ≡ 0 = omega arith in rw e (bit_or-zero (q * 2 ^ 0) ∙ omega arith)
bit_or_high (suc k) q r fits = ground (
  arith,
  bit_or-digit (q * 2 ^ suc k) r,
  pow_suc_mul q k,
  bit_or_high k q (r / 2) (omega (arith, pow-suc 2 k)),
)

bit_and_split : (k q r : ℕ) → r < 2 ^ k → bit_and (q * 2 ^ k + r) (2 ^ k - 1) ≡ r
bit_and_split zero q r fits = bit_and-zero _ ∙ omega arith
bit_and_split (suc k) q r fits = ground (
  arith,
  bit_and-digit (q * 2 ^ suc k + r) (2 ^ suc k - 1),
  pow_suc_mul q k,
  pow-suc 2 k,
  one-le-pow k 2,
  bit_and_split k q (r / 2) (omega (arith, pow-suc 2 k)),
)

-- `a & (2 ^ k - 1)` is the remainder by `2 ^ k`.
pub bit_and_ones : (k a : ℕ) → bit_and a (2 ^ k - 1) ≡ a % 2 ^ k
bit_and_ones k a = ground (arith, one-le-pow k 2, bit_and_split k (a / 2 ^ k) (a % 2 ^ k))

-- Shifting both sides shifts the `&`.
pub bit_and_shift : (k a b : ℕ) → bit_and (a * 2 ^ k) (b * 2 ^ k) ≡ bit_and a b * 2 ^ k
bit_and_shift zero a b =
    let ea : a * 2 ^ 0 ≡ a = omega arith in
    let eb : b * 2 ^ 0 ≡ b = omega arith in rw (ea, eb) (omega arith)
bit_and_shift (suc k) a b = ground (
  arith,
  bit_and-digit (a * 2 ^ suc k) (b * 2 ^ suc k),
  pow_suc_mul a k,
  pow_suc_mul b k,
  pow_suc_mul (bit_and a b) k,
  bit_and_shift k a b,
)

pub two_pow_add : (a b : ℕ) → 2 ^ (a + b) ≡ 2 ^ a * 2 ^ b
two_pow_add zero b = let e : 0 + b ≡ b = omega arith in rw e (omega arith)
two_pow_add (suc a) b =
    let e : suc a + b ≡ suc (a + b) = omega arith in
    rw e (
      pow-suc 2 (a + b)
      ∙ ap (λ (t : ℕ). t * 2) (two_pow_add a b)
      ∙ omega (arith, ap (λ (t : ℕ). t * 2 ^ b) (pow-suc 2 a)))

-- `|` of numbers of `k` digits has `k` digits, and is at least each of them.
pub bit_or-lt : (k a b : ℕ) → a < 2 ^ k → b < 2 ^ k → bit_or a b < 2 ^ k
bit_or-lt zero a b ha hb = let e : a ≡ 0 = omega arith in rw e (omega (arith, zero-bit_or b))
bit_or-lt (suc k) a b ha hb = omega (
  arith,
  bit_or-digit a b,
  pow-suc 2 k,
  bit_or-lt k (a / 2) (b / 2) (omega (arith, pow-suc 2 k)) (omega (arith, pow-suc 2 k)),
)

le_or_fuel : (n a b : ℕ) → a ≤ n → (a ≤ bit_or a b) × (b ≤ bit_or a b)
le_or_fuel n zero b h = omega (arith, zero-bit_or b)
le_or_fuel zero (suc a) b h = absurd (omega arith)
le_or_fuel (suc n) (suc a) b h =
    omega (arith, bit_or-digit (suc a) b, le_or_fuel n (suc a / 2) (b / 2) (omega arith))

pub le-bit_or : (a b : ℕ) → (a ≤ bit_or a b) × (b ≤ bit_or a b)
le-bit_or a b = le_or_fuel a a b (le_refl a)

-- `|` with a number of `t` digits leaves the digits above alone.
pub bit_or_below :
    (t q r s : ℕ) → r < 2 ^ t → s < 2 ^ t → bit_or (q * 2 ^ t + r) s ≡ q * 2 ^ t + bit_or r s
bit_or_below zero q r s hr hs =
    let er : r ≡ 0 = omega arith in
    let es : s ≡ 0 = omega arith in rw (er, es) (bit_or-zero _ ∙ omega (arith, bit_or-zero 0))
bit_or_below (suc t) q r s hr hs = ground (
  arith,
  bit_or-digit (q * 2 ^ suc t + r) s,
  bit_or-digit r s,
  pow_suc_mul q t,
  bit_or_below t q (r / 2) (s / 2) (omega (arith, pow-suc 2 t)) (omega (arith, pow-suc 2 t)),
)

-- `&` with a number of digits above `t` sees only the digits above `t`.
pub bit_and_above :
    (t q r s : ℕ) → r < 2 ^ t → bit_and (q * 2 ^ t + r) (s * 2 ^ t) ≡ bit_and q s * 2 ^ t
bit_and_above zero q r s hr =
    let er : q * 2 ^ 0 + r ≡ q = omega arith in
    let es : s * 2 ^ 0 ≡ s = omega arith in rw (er, es) (omega arith)
bit_and_above (suc t) q r s hr = ground (
  arith,
  bit_and-digit (q * 2 ^ suc t + r) (s * 2 ^ suc t),
  pow_suc_mul q t,
  pow_suc_mul s t,
  pow_suc_mul (bit_and q s) t,
  bit_and_above t q (r / 2) s (omega (arith, pow-suc 2 t)),
)

-- `a & ((2 ^ k - 1) << t)` cuts `k` digits out.
pub bit_and_field : (k t a : ℕ) → bit_and a ((2 ^ k - 1) * 2 ^ t) ≡ a / 2 ^ t % 2 ^ k * 2 ^ t
bit_and_field k t a =
    let two : 0 < 2 = omega arith in
    let small : a % 2 ^ t < 2 ^ t = mod-lt a (one-le-pow t 2 two) in
    ap (λ x. bit_and x ((2 ^ k - 1) * 2 ^ t)) (sym (div-add-mod' a (2 ^ t)))
    ∙ bit_and_above t (a / 2 ^ t) (a % 2 ^ t) (2 ^ k - 1) small
    ∙ ap (λ x. x * 2 ^ t) (bit_and_ones k (a / 2 ^ t))
