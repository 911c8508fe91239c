-- ===== src/Base/Word.antt =====
-- Fixed-width arithmetic of C on native numbers: `uint32_t`, `uint16_t` and `uint8_t` casts, the
-- wrapping sum and difference, and shifts.
use Prim.Native.Nat.{ℕ, ◌+◌, ◌-◌, ◌*◌, ◌/◌, ◌%◌, ◌^◌, bit_and, bit_or}

abbrev pub u8 : ℕ → ℕ
u8 n = n % 2 ^ 8

abbrev pub u16 : ℕ → ℕ
u16 n = n % 2 ^ 16

abbrev pub u32 : ℕ → ℕ
u32 n = n % 2 ^ 32

-- `a + b` on `uint32_t`
abbrev pub add32 : ℕ → ℕ → ℕ
add32 a b = u32 (a + b)

-- `a - b` on `uint32_t`, both below `2 ^ 32`
abbrev pub sub32 : ℕ → ℕ → ℕ
sub32 a b = u32 (a + 2 ^ 32 - b)

abbrev pub mul32 : ℕ → ℕ → ℕ
mul32 a b = u32 (a * b)

-- `-1` and `~0u` on `uint32_t`
abbrev pub u32_max : ℕ
u32_max = 2 ^ 32 - 1

-- `x << k`, before the cast that the code makes
infixl 75 ◌<<<◌ ◌>>>◌
abbrev pub ◌<<<◌ : ℕ → ℕ → ℕ
x <<< k = x * 2 ^ k

abbrev pub ◌>>>◌ : ℕ → ℕ → ℕ
x >>> k = x / 2 ^ k

-- `a | b`
infixl 60 ◌|||◌
abbrev pub ◌|||◌ : ℕ → ℕ → ℕ
a ||| b = bit_or a b

-- `a & b`
infixl 62 ◌&◌
abbrev pub ◌&◌ : ℕ → ℕ → ℕ
a & b = bit_and a b
