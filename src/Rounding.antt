-- ===== src/Rounding.antt =====
-- The rounding helpers of driver/common.c and driver/ControlListUtil.c, on `uint32_t`.
pub mod Multiple
pub mod Power
pub mod Pad
use rpi_vk_driver.Base.{
  ℕ, zero, suc, ◌+◌, ◌-◌, ◌/◌, ◌%◌, bit_or, add32, sub32, u32, ◌==◌, if◌then◌else◌, ◌>>>◌,
}

-- `divRoundUp` of driver/ControlListUtil.c
unfoldable pub div_round_up : ℕ → ℕ → ℕ
div_round_up n d = sub32 (add32 n d) 1 / d

-- `roundUp` of driver/common.c
unfoldable pub round_up : ℕ → ℕ → ℕ
round_up n multiple =
    if multiple == 0
    then n
    else if n % multiple == 0
    then n
    else sub32 (add32 n multiple) (n % multiple)

-- `while(v >>= 1) ret++;`: a 32-bit value is 0 after 32 rounds, so 32 rounds are enough.
log_loop : ℕ → ℕ → ℕ → ℕ
log_loop zero v ret = ret
log_loop (suc fuel) v ret =
    let again = log_loop fuel (v >>> 1) (ret + 1) in if v >>> 1 == 0 then ret else again

-- `ulog2` of driver/common.c
unfoldable pub ulog2 : ℕ → ℕ
unfolding log_loop
ulog2 v = log_loop 32 v 0

-- `n |= n >> k`
unfoldable pub smear : ℕ → ℕ → ℕ
smear k n = bit_or n (n >>> k)

-- `getPow2Pad` of driver/common.c
unfoldable pub get_pow2_pad : ℕ → ℕ
get_pow2_pad n = add32 (smear 16 (smear 8 (smear 4 (smear 2 (smear 1 (sub32 n 1)))))) 1
