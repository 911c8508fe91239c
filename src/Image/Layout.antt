-- ===== src/Image/Layout.antt =====
-- The padded extents of mip levels in driver/resource.c.
use native.Mathlib.Nat.{mod-mod_of_dvd, dvd-mul_right}
use rpi_vk_driver.Base.{ℕ, ◌+◌, ◌*◌, ◌%◌, ◌^◌, ◌≤◌, ◌<◌, ◌≡◌, sym, ap, ◌∙◌, some, arith, mul32}
use rpi_vk_driver.Rounding.{round_up}
use rpi_vk_driver.Rounding.Multiple.{round_up-least}
use rpi_vk_driver.Image.{Image, ImageTiling, tiled, linear_tiled, pad_extent}

round_up-covers : (n m : ℕ) → 0 < m → n + m < 2 ^ 32 → (round_up n m % m ≡ 0) × (n ≤ round_up n m)
round_up-covers n m pos small = let least = round_up-least n m pos small in (least.0, least.1)

-- Eight microtiles are a whole number of microtiles.
round_up-eight :
    (n u : ℕ)
    → 0 < u
    → n + u * 8 < 2 ^ 32
    → (round_up n (mul32 u 8) % (u * 8) ≡ 0)
      × (n ≤ round_up n (mul32 u 8))
      × (round_up n (mul32 u 8) % u ≡ 0)
round_up-eight n u pos small =
    let e : mul32 u 8 ≡ u * 8 = omega arith in
    let h = round_up-covers n (u * 8) (omega arith) small in
    let r = round_up n (u * 8) in
    rw e (
      h.0,
      h.1,
      sym (mod-mod_of_dvd u {b = u * 8} r (dvd-mul_right u 8)) ∙ ap (λ x. x % u) h.0 ∙ omega arith,
    )

-- The padded extent of a mip level covers its extent. It is a whole number of microtiles each way in
-- the LT format, and of blocks of eight by eight microtiles, the 4 KB tiles, in the T format.
pub pad_extent-covers :
    (i : Image) (bpp utile_w utile_h mip_w mip_h : ℕ) (t : ImageTiling) (w h : ℕ)
    → 0 < utile_w
    → 0 < utile_h
    → utile_w ≤ 32
    → utile_h ≤ 32
    → mip_w < 2 ^ 31
    → mip_h < 2 ^ 31
    → pad_extent i bpp (utile_w, utile_h) (mip_w, mip_h) ≡ some (t, w, h)
    → (mip_w ≤ w)
      × (mip_h ≤ h)
      × (t ≡ linear_tiled → (w % utile_w ≡ 0) × (h % utile_h ≡ 0))
      × (t ≡ tiled → (w % (utile_w * 8) ≡ 0) × (h % (utile_h * 8) ≡ 0))
unfolding pad_extent
pad_extent-covers i bpp uw uh mw mh t w h uw_pos uh_pos uw_small uh_small w_small h_small e =
    ground (
      arith,
      round_up-covers mw 32,
      round_up-covers mh 32,
      round_up-covers mw uw,
      round_up-covers mh uh,
      round_up-eight mw uw,
      round_up-eight mh uh,
    )
