-- ===== src/Stencil/Decode.antt =====
-- Reading stencil words back: what the hardware sees of the two states.
use rpi_vk_driver.Base.{
  ℕ, ◌/◌, ◌%◌, ◌^◌, ◌==◌, if◌then◌else◌, ◌&&◌, Option, none, some, List, [], ◌∷◌,
}
use rpi_vk_driver.States.{get_compare_op, get_stencil_op}
use rpi_vk_driver.Stencil.{StencilState}

-- The stencil test of a face, in the hardware's numbers.
pub record FaceConfig : Type 0 where
  pub compare_mask : ℕ
  pub reference : ℕ
  pub compare : ℕ
  pub fail : ℕ
  pub pass : ℕ
  pub depth_fail : ℕ
  pub write_mask : ℕ

-- What of a state has a place in the words.
unfoldable pub config_of : StencilState → FaceConfig
config_of s = record {
  compare_mask = s.compare_mask % 256;
  reference = s.reference % 256;
  compare = get_compare_op s.compare_op % 8;
  fail = get_stencil_op s.fail_op % 8;
  pass = get_stencil_op s.pass_op % 8;
  depth_fail = get_stencil_op s.depth_fail_op % 8;
  write_mask = s.write_mask % 256;
}

unfoldable pub face : ℕ → ℕ → FaceConfig
face word mask = record {
  compare_mask = word % 256;
  reference = word / 2 ^ 8 % 256;
  compare = word / 2 ^ 16 % 8;
  fail = word / 2 ^ 19 % 8;
  pass = word / 2 ^ 22 % 8;
  depth_fail = word / 2 ^ 25 % 8;
  write_mask = mask;
}

-- The write mask that the two digits of a word name.
unfoldable pub coded_mask : ℕ → ℕ
coded_mask word =
    let code = word / 2 ^ 28 % 4 in
    if code == 0 then 0x1 else if code == 1 then 0x3 else if code == 2 then 0xf else 0xff

-- One word is for both faces. Of two, the first is for both faces and the second holds the masks,
-- or each is for one face. Of three, the third holds the masks.
unfoldable pub decode : List ℕ → Option (FaceConfig × FaceConfig)
unfolding face coded_mask
decode (w ∷ []) =
    if w / 2 ^ 30 == 3 then some (face w (coded_mask w), face w (coded_mask w)) else none
decode (w ∷ x ∷ []) =
    if w / 2 ^ 30 == 3
    then some (face w (x % 256), face w (x / 2 ^ 8 % 256))
    else if w / 2 ^ 30 == 1 && x / 2 ^ 30 == 2
    then some (face w (coded_mask w), face x (coded_mask x))
    else none
decode (w ∷ x ∷ m ∷ []) =
    if w / 2 ^ 30 == 1 && x / 2 ^ 30 == 2
    then some (face w (m % 256), face x (m / 2 ^ 8 % 256))
    else none
decode _ = none
