-- ===== src/Memory.antt =====
-- The byte-addressed memory that the driver's allocators and control lists write to. It stands
-- for C objects on the 32-bit, little-endian target: an address is a number, 0 is NULL, and a
-- 32-bit or 16-bit access touches the bytes from its address up.
use rpi_vk_driver.Base.{
  ℕ, ◌+◌, ◌-◌, ◌*◌, ◌/◌, ◌%◌, ◌^◌, ◌≤◌, ◌<◌, ◌≡◌, ap, ◌⊎◌, ◌&&◌, arith, ltb, leb, ◌==◌,
  if◌then◌else◌,
}

abbrev pub Mem : Type 0
Mem = ℕ → ℕ

-- the null pointer
abbrev pub null : ℕ
null = 0

-- `*(uint8_t*)p = v`
unfoldable pub store8 : Mem → ℕ → ℕ → Mem
store8 m p v a = if a == p then v % 256 else m a

-- `*(uint16_t*)p = v`
unfoldable pub store16 : Mem → ℕ → ℕ → Mem
store16 m p v a = if a == p then v % 256 else if a == p + 1 then v / 256 % 256 else m a

-- `*(uint32_t*)p = v`
unfoldable pub store32 : Mem → ℕ → ℕ → Mem
store32 m p v a =
    if a == p
    then v % 256
    else if a == p + 1
    then v / 256 % 256
    else if a == p + 2
    then v / 65536 % 256
    else if a == p + 3
    then v / 16777216 % 256
    else m a

-- `*(uint32_t*)p`
unfoldable pub load32 : Mem → ℕ → ℕ
load32 m p = m p + 256 * m (p + 1) + 65536 * m (p + 2) + 16777216 * m (p + 3)

-- `*(uint16_t*)p`
unfoldable pub load16 : Mem → ℕ → ℕ
load16 m p = m p + 256 * m (p + 1)

-- `memcpy(dst, src, n)`, for regions that do not overlap
unfoldable pub memcpy : Mem → ℕ → ℕ → ℕ → Mem
memcpy m dst src n a = if leb dst a && ltb a (dst + n) then m (src + (a - dst)) else m a

-- `memset(p, 0, n)`
unfoldable pub memzero : Mem → ℕ → ℕ → Mem
memzero m p n a = if leb p a && ltb a (p + n) then 0 else m a

-- the two memories hold the same bytes outside `[lo, hi)`
abbrev pub SameOutside : ℕ → ℕ → Mem → Mem → Type 0
SameOutside lo hi m m' = (a : ℕ) → (a < lo) ⊎ (hi ≤ a) → m' a ≡ m a

-- the two memories hold the same bytes in `[lo, hi)`
abbrev pub SameInside : ℕ → ℕ → Mem → Mem → Type 0
SameInside lo hi m m' = (a : ℕ) → lo ≤ a → a < hi → m' a ≡ m a

pub store8_self : (m : Mem) (p v : ℕ) → v < 256 → store8 m p v p ≡ v
unfolding store8
store8_self m p v h = ground arith

pub store8_other : (m : Mem) (p v a : ℕ) → (a < p) ⊎ (p + 1 ≤ a) → store8 m p v a ≡ m a
unfolding store8
store8_other m p v a h = ground arith

pub store16_other : (m : Mem) (p v a : ℕ) → (a < p) ⊎ (p + 2 ≤ a) → store16 m p v a ≡ m a
unfolding store16
store16_other m p v a h = ground arith

pub store32_other : (m : Mem) (p v a : ℕ) → (a < p) ⊎ (p + 4 ≤ a) → store32 m p v a ≡ m a
unfolding store32
store32_other m p v a h = ground arith

pub memcpy_other : (m : Mem) (d s n a : ℕ) → (a < d) ⊎ (d + n ≤ a) → memcpy m d s n a ≡ m a
unfolding memcpy
memcpy_other m d s n a h = ground arith

pub memcpy_inside : (m : Mem) (d s n i : ℕ) → i < n → memcpy m d s n (d + i) ≡ m (s + i)
unfolding memcpy
memcpy_inside m d s n i h =
    let e : d + i - d ≡ i = omega arith in ground (arith, ap (λ (t : ℕ). m (s + t)) e)

pub load16-store16_self : (m : Mem) (p v : ℕ) → v < 2 ^ 16 → load16 (store16 m p v) p ≡ v
unfolding load16 store16
load16-store16_self m p v h = ground arith

pub load32-store32_self : (m : Mem) (p v : ℕ) → v < 2 ^ 32 → load32 (store32 m p v) p ≡ v
unfolding load32 store32
load32-store32_self m p v h = ground arith

-- A load reads what it did before wherever its four bytes have not changed.
pub load32_same : (m m' : Mem) (q : ℕ) → SameInside q (q + 4) m m' → load32 m' q ≡ load32 m q
unfolding load32
load32_same m m' q same = omega (
  arith,
  same q (omega arith) (omega arith),
  same (q + 1) (omega arith) (omega arith),
  same (q + 2) (omega arith) (omega arith),
  same (q + 3) (omega arith) (omega arith),
)

pub load32-store32_apart :
    (m : Mem) (p v q : ℕ) → (p + 4 ≤ q) ⊎ (q + 4 ≤ p) → load32 (store32 m p v) q ≡ load32 m q
load32-store32_apart m p v q h =
    load32_same m (store32 m p v) q (λ a lo hi. store32_other m p v a (omega arith))
