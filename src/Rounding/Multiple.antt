-- ===== src/Rounding/Multiple.antt =====
-- Rounding up to a multiple: `divRoundUp` and `roundUp`.
use native.Mathlib.Nat.{mod-lt, mod-add-div, mul-mod_left}
use native.Mathlib.Decide.{dec_le, ℕ_discrete}
use rpi_vk_driver.Base.{
  ℕ, ◌+◌, ◌-◌, ◌*◌, ◌/◌, ◌%◌, ◌^◌, ◌≤◌, ◌<◌, ◌≡◌, arith, false, ◌==◌, ◌≢◌, u32,
}
use rpi_vk_driver.Rounding.{div_round_up, round_up}

-- `divRoundUp(n, d)` is the least quotient that covers `n`, if `n + d` does not wrap.
pub div_round_up-least :
    (n d : ℕ)
    → 0 < d
    → n + d < 2 ^ 32
    → (n ≤ div_round_up n d * d) × ((q : ℕ) → n ≤ q * d → div_round_up n d ≤ q)
unfolding div_round_up
div_round_up-least n d pos small =
    let e : u32 (u32 (n + d) + 2 ^ 32 - 1) ≡ n + d - 1 = omega arith in
    rw e (
      omega (arith, mod-lt (n + d - 1) pos, mod-add-div (n + d - 1) d),
      λ q h. grind (arith, mod-add-div (n + d - 1) d),
    )

round_up-even : (n m : ℕ) → n % m ≡ 0 → round_up n m ≡ n
unfolding round_up
round_up-even n m even = ground arith

round_up-odd : (n m : ℕ) → 0 < m → n + m < 2 ^ 32 → n % m ≢ 0 → round_up n m ≡ (n / m + 1) * m
unfolding round_up
round_up-odd n m pos small odd =
    let shut : (m == 0) ≡ false = ground arith in
    let rest : (n % m == 0) ≡ false = ground arith in
    rw (shut, rest) (omega (arith, mod-lt n pos, mod-add-div n m))

next_multiple : (q r m k : ℕ) → 0 < r → m * q + r ≤ k * m → (q + 1) * m ≤ k * m
next_multiple q r m k pos h = elim (dec_le (q + 1) k) [
  | yes p ↦ grind arith
  | no p ↦ absurd (grind arith)
]

-- `roundUp(n, m)` is the least multiple of `m` that is at least `n`, if `n + m` does not wrap.
pub round_up-least :
    (n m : ℕ)
    → 0 < m
    → n + m < 2 ^ 32
    → (round_up n m % m ≡ 0) × (n ≤ round_up n m) × ((k : ℕ) → n ≤ k * m → round_up n m ≤ k * m)
round_up-least n m pos small = elim (ℕ_discrete (n % m) 0) [
  | yes even ↦ rw (round_up-even n m even) (even, omega arith, λ k h. h)
  | no odd ↦ rw (round_up-odd n m pos small odd) (
    mul-mod_left (n / m + 1) m,
    omega (arith, mod-lt n pos, mod-add-div n m),
    λ k h. next_multiple (n / m) (n % m) m k (omega arith) (omega (arith, mod-add-div n m)),
  )
]

-- `roundUp` adds less than the multiple.
pub round_up-lt : (n m : ℕ) → 0 < m → n + m < 2 ^ 32 → round_up n m < n + m
round_up-lt n m pos small = elim (ℕ_discrete (n % m) 0) [
  | yes even ↦ rw (round_up-even n m even) (omega arith)
  | no odd ↦ rw (round_up-odd n m pos small odd) (omega (arith, mod-lt n pos, mod-add-div n m))
]
