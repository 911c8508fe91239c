-- ===== src/Query/Stores.antt =====
-- The stores of one query by `vkGetQueryPoolResults` of driver/query.c.
use rpi_vk_driver.Base.{
  ℕ, zero, suc, ◌+◌, ◌*◌, ◌/◌, ◌%◌, ◌≤◌, ◌<◌, ◌≡◌, refl, ◌∙◌, subst, inl, inr, ◌⊎◌, Option, some,
  ltb, ◌==◌, false, ◌^◌, add32, Bool-cases, arith,
}
use native.Mathlib.Nat.{mod-eq_of_lt, mul-le-mul_right}
use rpi_vk_driver.Memory.{
  Mem, store32, SameInside, SameOutside, store32_other, load32_same, load32-store32_self,
  load32-store32_apart,
}
use rpi_vk_driver.Query.{Query, store64, load64, store_results}

load64-store64_self : (m : Mem) (p v : ℕ) → v < 2 ^ 64 → load64 (store64 m p v) p ≡ v
unfolding load64 store64
load64-store64_self m p v small =
    let low = load32-store32_self m p (v % 2 ^ 32) (omega arith) in
    let high =
      load32-store32_self (store32 m p (v % 2 ^ 32)) (p + 4) (v / 2 ^ 32 % 2 ^ 32) (omega arith) in
    let kept =
      load32-store32_apart (store32 m p (v % 2 ^ 32)) (p + 4) (v / 2 ^ 32 % 2 ^ 32) p
        (inr (omega arith)) in
    omega (arith, low, high, kept, small)

store64_other : (m : Mem) (p v a : ℕ) → (a < p) ⊎ (p + 8 ≤ a) → store64 m p v a ≡ m a
unfolding store64
store64_other m p v a away =
    store32_other (store32 m p (v % 2 ^ 32)) (p + 4) (v / 2 ^ 32 % 2 ^ 32) a (omega arith)
    ∙ store32_other m p (v % 2 ^ 32) a (omega arith)

load64_same : (m m' : Mem) (p : ℕ) → SameInside p (p + 8) m m' → load64 m' p ≡ load64 m p
unfolding load64
load64_same m m' p same = omega (
  arith,
  load32_same m m' p (λ a lo hi. same a lo (omega arith)),
  load32_same m m' (p + 4) (λ a lo hi. same a (omega arith) (omega arith)),
)

-- the counter of a query at an index
abbrev pub value_at : Query → ℕ → ℕ
value_at q i = q.counter_values (i / 16) (i % 16)

-- The results at the multiples of the stride from the one of `counter`, at the offset `d`, on; the
-- bytes before that one and behind the last are what they were.
abbrev pub StoresFrom : ℕ → ℕ → ℕ → ℕ → ℕ → Query → Mem → Option Mem → Type 0
StoresFrom buf size stride d counter q m r =
    (m' : Mem) × (r ≡ some m')
    × SameOutside (buf + d) (buf + size + 7) m m'
    × ((i : ℕ)
        → counter ≤ i
        → i * stride < size
        → value_at q i < 2 ^ 64
        → load64 m' (buf + i * stride) ≡ value_at q i)

past :
    (size stride d counter i : ℕ)
    → d ≡ counter * stride
    → ltb d size ≡ false
    → counter ≤ i
    → i * stride < size
    → ⊥
past size stride d counter i at f le lt =
    let m = mul-le-mul_right stride le in
    let big : size ≤ d = ground (arith, f) in omega (arith, m, at, lt, big)

pub nothing_left : 1 ≤ 0 → ⊥
nothing_left h = omega (arith, h)

-- One store in front of those at later offsets
StoresFrom-cons :
    (buf size stride d counter : ℕ) (q : Query) (m : Mem) (r : Option Mem)
    → 8 ≤ stride
    → d ≡ counter * stride
    → d < size
    → StoresFrom buf size stride
        (d + stride)
        (suc counter)
        q
        (store64 m (buf + d) (value_at q counter))
        r
    → StoresFrom buf size stride d counter q m r
StoresFrom-cons buf size stride d counter q m r wide at lt (m', e, same, later) =
    let one = store64 m (buf + d) (value_at q counter) in
    (
      m',
      e,
      λ a away.
          same a (omega (arith, away))
          ∙ store64_other m (buf + d) (value_at q counter) a (omega (arith, away, lt)),
      λ i le below small. elim (Bool-cases (i == counter)) [
        | inl t ↦
            let here : counter ≡ i = ground (arith, t) in
            subst (λ j. value_at q j < 2 ^ 64 → load64 m' (buf + j * stride) ≡ value_at q j) here
              (λ fits.
                subst (λ o. load64 m' (buf + o) ≡ value_at q counter) at
                  (load64_same one m' (buf + d) (λ a lo hi. same a (inl (omega (arith, hi, wide))))
                    ∙ load64-store64_self m (buf + d) (value_at q counter) fits))
              small
        | inr f ↦ later i (ground (arith, le, f)) below small
      ],
    )

pub store_results_lem :
    (fuel buf size stride d counter : ℕ) (q : Query) (m : Mem)
    → 8 ≤ stride
    → buf + size + stride < 2 ^ 32
    → d ≡ counter * stride
    → size < d + fuel
    → 1 ≤ fuel
    → StoresFrom buf size stride d counter q m (store_results fuel buf size stride d counter q m)
unfolding store_results
store_results_lem zero buf size stride d counter q m wide small at enough more =
    elim (nothing_left more) [ ]
store_results_lem (suc fuel) buf size stride d counter q m wide small at enough more =
    elim (Bool-cases (ltb d size)) [
      | inr f ↦
          rw f
            (m, refl, λ a _. refl, λ i le lt _. elim (past size stride d counter i at f le lt) [ ])
      | inl t ↦
          let below_size : d < size = ground (arith, t) in
          let next : add32 d stride ≡ d + stride =
            mod-eq_of_lt (omega (arith, small, below_size)) in
          let place : add32 buf d ≡ buf + d = mod-eq_of_lt (omega (arith, small, below_size)) in
          rw (t, next, place)
            (StoresFrom-cons buf size stride d counter q m _ wide at below_size (
              store_results_lem fuel buf size stride (d + stride) (suc counter) q _ wide small
                (omega (arith, at)) (omega (arith, enough, wide))
                (omega (arith, enough, below_size))))
    ]
