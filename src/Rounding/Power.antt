-- ===== src/Rounding/Power.antt =====
-- Powers of two: `ulog2` and `getPow2Pad`.
use native.Mathlib.Nat.{pow-suc}
use rpi_vk_driver.Base.{
  ℕ, zero, suc, ◌+◌, ◌-◌, ◌*◌, ◌/◌, ◌^◌, ◌≤◌, ◌<◌, ◌≡◌, arith, inl, inr, Bool-cases, ◌==◌, ◌>>>◌,
}
use rpi_vk_driver.Rounding.{ulog2, log_loop}

pub pow_next : (k : ℕ) → 2 ^ (k + 1) ≡ 2 * 2 ^ k
pow_next k = let e : k + 1 ≡ suc k = omega arith in rw e (omega (arith, pow-suc 2 k))

-- Each round halves the value and adds 1 to the result.
log_loop-bounds :
    (fuel v ret : ℕ)
    → 0 < v
    → v < 2 ^ fuel
    → (ret ≤ log_loop fuel v ret)
      × (2 ^ (log_loop fuel v ret - ret) ≤ v)
      × (v < 2 * 2 ^ (log_loop fuel v ret - ret))
unfolding log_loop
log_loop-bounds zero v ret pos small = absurd (omega arith)
log_loop-bounds (suc fuel) v ret pos small = elim (Bool-cases (v >>> 1 == 0)) [
  | inl done ↦
      let one : v ≡ 1 = ground arith in
      let stay : ret - ret ≡ 0 = omega arith in
      rw (done, stay) (omega arith, omega arith, omega arith)
  | inr more ↦
      let rest =
        log_loop-bounds fuel (v / 2) (ret + 1) (ground arith) (omega (arith, pow-suc 2 fuel)) in
      let result = log_loop fuel (v / 2) (ret + 1) in
      let e : result - ret ≡ suc (result - (ret + 1)) = omega (arith, rest.0) in
      rw (more, e)
        (
          omega (arith, rest.0),
          omega (arith, rest.1, pow-suc 2 (result - (ret + 1))),
          omega (arith, rest.2, pow-suc 2 (result - (ret + 1))),
        )
]

-- `ulog2(v)` is the position of the highest one of a 32-bit value that is not 0.
pub ulog2-bounds : (v : ℕ) → 0 < v → v < 2 ^ 32 → (2 ^ ulog2 v ≤ v) × (v < 2 ^ (ulog2 v + 1))
unfolding ulog2
ulog2-bounds v pos small =
    let h = log_loop-bounds 32 v 0 pos small in
    let e : ulog2 v - 0 ≡ ulog2 v = omega arith in
    let low : 2 ^ ulog2 v ≤ v = rw e at h.1 in
    let high : v < 2 * 2 ^ ulog2 v = rw e at h.2 in (low, rw pow_next high)
