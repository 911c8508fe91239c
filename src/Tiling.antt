-- ===== src/Tiling.antt =====
-- driver/common.c: the microtiles of the texture unit, and which images are laid out linearly in
-- microtiles (LT) rather than in 4 KB tiles (T).
use rpi_vk_driver.Base.{
  ℕ, ◌*◌, ◌≡◌, ◌⊎◌, Bool, ◌||◌, Option, none, some, ◌>>=◌, mul32, ◌==◌, leb, if◌then◌else◌, arith,
}

-- `getUTileDimensions`: width and height in pixels; `none` is the failed assert on an unsupported
-- number of bits per pixel, where a release build leaves the outputs unset.
unfoldable pub get_utile_dimensions : ℕ → Option (ℕ × ℕ)
get_utile_dimensions bpp =
    if bpp == 256
    then some (1, 2)
    else if bpp == 128
    then some (2, 2)
    else if bpp == 64
    then some (2, 4)
    else if bpp == 32 || bpp == 24
    then some (4, 4)
    else if bpp == 16
    then some (8, 4)
    else if bpp == 8
    then some (8, 8)
    else if bpp == 4
    then some (16, 8)
    else if bpp == 1
    then some (32, 16)
    else none

-- `isLTformat`
unfoldable pub is_lt_format : ℕ → ℕ → ℕ → Option Bool
unfolding get_utile_dimensions
is_lt_format bpp width height =
    get_utile_dimensions bpp >>= λ (w, h). some (leb width (mul32 4 w) || leb height (mul32 4 h))

-- A microtile is 512 bits, 64 bytes, at every supported number of bits per pixel but 24, which
-- takes the tile of 32.
pub utile-area :
    (bpp w h : ℕ)
    → get_utile_dimensions bpp ≡ some (w, h)
    → (w * h * bpp ≡ 512) ⊎ ((bpp ≡ 24) × (w * h ≡ 16))
unfolding get_utile_dimensions
utile-area bpp w h e = ground arith
