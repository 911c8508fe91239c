-- ===== src/Image/Place.antt =====
-- Where the mip levels of an image lie: `vkGetImageMemoryRequirements` of driver/resource.c.
use mathlib.Core.List.{map}
use native.Mathlib.Nat.{mod-eq_of_lt, mul-le-mul_right}
use rpi_vk_driver.Base.{
  ℕ, zero, suc, ◌+◌, ◌*◌, ◌%◌, ◌^◌, ◌≤◌, ◌<◌, ◌≡◌, refl, sym, subst, some, Option-cases, inl, inr,
  some_injective, none_is_not_some, List, [], ◌∷◌, add32, mul32, arith, All, All-mono,
}
use rpi_vk_driver.Rounding.{round_up}
use rpi_vk_driver.Rounding.Multiple.{round_up-least, round_up-lt}
use rpi_vk_driver.Image.{
  Image, Level, level_at, layout_levels, image_levels, level_zero_offset, shift_levels,
  place_levels, get_image_memory_requirements, get_bo_aligned_size,
}
use rpi_vk_driver.Tiling.{get_utile_dimensions}
use rpi_vk_driver.Format.Bits.{get_format_bpp}

-- The levels, the last one made first, follow one another up to the offset `o`.
abbrev Ends : List Level → ℕ → Type 0
Ends [] o = o ≡ 0
Ends (l ∷ ls) o = (o ≡ add32 l.offset l.size) × Ends ls l.offset

offset-level_at :
    (i : Image) (bpp : ℕ) (utile : ℕ × ℕ) (c o : ℕ) (l : Level)
    → level_at i bpp utile c o ≡ some l
    → l.offset ≡ o
unfolding level_at
offset-level_at i bpp utile c o l e = ground arith

layout_levels-Ends :
    (i : Image) (bpp : ℕ) (utile : ℕ × ℕ) (n o : ℕ) (done ls : List Level)
    → layout_levels i bpp utile n o done ≡ some ls
    → Ends done o
    → (end : ℕ) × Ends ls end
unfolding layout_levels
layout_levels-Ends i bpp utile zero o done ls e h = (o, subst (λ x. Ends x o) (some_injective e) h)
layout_levels-Ends i bpp utile (suc n) o done ls e h =
    elim (Option-cases (level_at i bpp utile n o)) [
      | inl fails ↦ absurd (none_is_not_some (rw fails at e))
      | inr (l, made) ↦
          layout_levels-Ends i bpp utile n (add32 o l.size) (l ∷ done) ls (rw made at e) (
            let at : l.offset ≡ o = offset-level_at i bpp utile n o l made in
            (rw at, subst (Ends done) (sym at) h))
    ]

image_levels-Ends :
    (i : Image) (ls : List Level) → image_levels i ≡ some ls → (end : ℕ) × Ends ls end
unfolding image_levels
image_levels-Ends i ls e = elim (Option-cases (get_utile_dimensions (get_format_bpp i.format))) [
  | inl fails ↦ absurd (none_is_not_some (rw fails at e))
  | inr (utile, got) ↦
      layout_levels-Ends i (get_format_bpp i.format) utile i.miplevels 0 [] ls (rw got at e) refl
]

-- The bytes of all the levels.
abbrev pub total : List Level → ℕ
total [] = 0
total (l ∷ ls) = l.size + total ls

-- Each level lies above all the levels after it in the list, which are the smaller ones.
abbrev pub Stacked : List Level → Type 0
Stacked [] = Unit
Stacked (l ∷ ls) = All (λ x. x.offset + x.size ≤ l.offset) ls × Stacked ls

record Exact (ls : List Level) (o : ℕ) : Type 0 where
  end : o ≡ total ls
  under : All (λ x. x.offset + x.size ≤ o) ls
  stacked : Stacked ls

-- If the bytes of all levels fit 32 bits, no offset wraps.
Ends-Exact : (ls : List Level) (o : ℕ) → total ls < 2 ^ 32 → Ends ls o → Exact ls o
Ends-Exact [] o small h = record { end = h; under = tt; stacked = tt }
Ends-Exact (l ∷ ls) o small h =
    let rest = Ends-Exact ls l.offset (omega arith) h.1 in
    let e : o ≡ l.offset + l.size = omega (arith, rest.end, h.0) in
    record {
      end = omega (arith, rest.end);
      under = (
        omega arith,
        All-mono (λ x. x.offset + x.size ≤ l.offset) (λ x. x.offset + x.size ≤ o)
            (λ x below. omega arith) ls rest.under,
      );
      stacked = (rest.under, rest.stacked);
    }

under_top :
    (l : Level) (ls : List Level)
    → All (λ x. x.offset + x.size ≤ l.offset) ls
    → All (λ x. x.offset + x.size ≤ l.offset + l.size) (l ∷ ls)
under_top l ls h = (
  omega arith,
  All-mono (λ x. x.offset + x.size ≤ l.offset) (λ x. x.offset + x.size ≤ l.offset + l.size)
      (λ x below. omega arith) ls h,
)

shift_levels-under :
    (by o : ℕ) (ls : List Level)
    → o + by < 2 ^ 32
    → All (λ x. x.offset + x.size ≤ o) ls
    → All (λ x. x.offset + x.size ≤ o + by) (shift_levels by ls)
unfolding shift_levels
shift_levels-under by o [] small h = tt
shift_levels-under by o (l ∷ ls) small h =
    (omega (arith, h.0), shift_levels-under by o ls small h.1)

shift_levels-Stacked :
    (by o : ℕ) (ls : List Level)
    → o + by < 2 ^ 32
    → All (λ x. x.offset + x.size ≤ o) ls
    → Stacked ls
    → Stacked (shift_levels by ls)
unfolding shift_levels
shift_levels-Stacked by o [] small h st = tt
shift_levels-Stacked by o (l ∷ ls) small h st =
    let e : add32 l.offset by ≡ l.offset + by = omega (arith, h.0) in
    rw e (
      shift_levels-under by l.offset ls (omega (arith, h.0)) st.0,
      shift_levels-Stacked by o ls small h.1 st.1,
    )

get_bo_aligned_size-round_up : (n m : ℕ) → 0 < m → get_bo_aligned_size n m ≡ round_up n m
unfolding get_bo_aligned_size round_up
get_bo_aligned_size-round_up n m pos = ground arith

level_zero_offset_lem :
    (o : ℕ)
    → o + 4096 < 2 ^ 32
    → (add32 o (level_zero_offset o) ≡ round_up o 4096)
      × (o + level_zero_offset o ≡ round_up o 4096)
unfolding level_zero_offset
level_zero_offset_lem o small =
    let page : 0 < 4096 = omega arith in
    omega (arith, (round_up-least o 4096 page small).1, round_up-lt o 4096 page small)

-- `vkGetImageMemoryRequirements` on an image with at least one level whose bytes, with two pages
-- to spare and times the layers, fit 32 bits: each level lies wholly above the levels of smaller
-- extent, level 0 begins a page, and the size covers each layer's levels and is a number of pages
-- for one layer.
pub requirements-Stacked :
    (i : Image) (l : Level) (ls : List Level)
    → image_levels i ≡ some (l ∷ ls)
    → total (l ∷ ls) + 8192 < 2 ^ 32
    → (total (l ∷ ls) + 8192) * i.layers < 2 ^ 32
    → let placed = shift_levels (level_zero_offset l.offset) (l ∷ ls) in
      let zero_offset = add32 l.offset (level_zero_offset l.offset) in
      (i' : Image) × (get_image_memory_requirements i ≡ some i')
      × (i'.level_offsets ≡ map (λ x. x.offset) placed)
      × Stacked placed
      × (zero_offset % 4096 ≡ 0)
      × ((zero_offset + l.size) * i.layers ≤ i'.size)
      × (i.layers ≡ 1 → i'.size % 4096 ≡ 0)
unfolding get_image_memory_requirements
requirements-Stacked i l ls e small fits =
    let page : 0 < 4096 = omega arith in
    let ends = (image_levels-Ends i (l ∷ ls) e).1 in
    let exact = Ends-Exact ls l.offset (omega arith) ends.1 in
    let placed = level_zero_offset_lem l.offset (omega (arith, exact.end)) in
    let near = round_up-lt l.offset 4096 page (omega (arith, exact.end)) in
    let zero_offset = round_up l.offset 4096 in
    let top : add32 l.size (add32 l.offset (level_zero_offset l.offset)) ≡ l.size + zero_offset =
      omega (arith, placed.0, near, exact.end) in
    let room : l.size + zero_offset + 4096 < 2 ^ 32 = omega (arith, near, exact.end) in
    let aligned = round_up (l.size + zero_offset) 4096 in
    let least = round_up-least (l.size + zero_offset) 4096 page room in
    let close = round_up-lt (l.size + zero_offset) 4096 page room in
    let bytes : aligned ≤ total (l ∷ ls) + 8192 = omega (arith, close, near, exact.end) in
    let size : mul32
          (get_bo_aligned_size (add32 l.size (add32 l.offset (level_zero_offset l.offset))) 4096)
          i.layers
        ≡ aligned * i.layers =
      rw (top, get_bo_aligned_size-round_up (l.size + zero_offset) 4096 page)
        (mod-eq_of_lt (omega (arith, mul-le-mul_right i.layers bytes))) in
    (
      place_levels i l ls,
      rw e refl,
      refl,
      shift_levels-Stacked (level_zero_offset l.offset) (l.offset + l.size) (l ∷ ls)
          (omega (arith, placed.1, near, exact.end)) (under_top l ls exact.under)
          (exact.under, exact.stacked),
      rw placed.0 (round_up-least l.offset 4096 page (omega (arith, exact.end))).0,
      rw size (rw placed.0 (mul-le-mul_right i.layers (omega (arith, least.1)))),
      λ one. rw (size, one) (omega (arith, least.0)),
    )
