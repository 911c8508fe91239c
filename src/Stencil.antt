-- ===== src/Stencil.antt =====
-- `encodeStencilValue` of driver/common.c: the stencil words for the front and the back faces.
pub mod Decode
mod Words
pub mod RoundTrip
use native.Mathlib.Decide.{ℕ_discrete}
use rpi_vk_driver.Base.{
  ℕ, ◌≡◌, ◌+◌, u32, ◌|||◌, ◌&◌, ◌<<<◌, ◌==◌, if◌then◌else◌, Bool, true, false, ◌&&◌, Option, none,
  some, List, [], ◌∷◌, arith,
}
use rpi_vk_driver.States.{CompareOp, StencilOp, always, get_compare_op, get_stencil_op}

-- `VkStencilOpState`
pub record StencilState : Type 0 where
  pub fail_op : StencilOp
  pub pass_op : StencilOp
  pub depth_fail_op : StencilOp
  pub compare_op : CompareOp
  pub compare_mask : ℕ
  pub write_mask : ℕ
  pub reference : ℕ

pub CompareOp-discrete : Discrete CompareOp
CompareOp-discrete = hlevel ℕ_discrete

pub StencilOp-discrete : Discrete StencilOp
StencilOp-discrete = hlevel ℕ_discrete

-- `==` on an enumeration
abbrev pub same_op : {A : Type 0} → Discrete A → A → A → Bool
same_op d a b = elim (d a b) [ yes _ ↦ true | no _ ↦ false ]

pub same_op_lem : {A : Type 0} (d : Discrete A) (a b : A) → same_op d a b ≡ true → a ≡ b
same_op_lem d a b h = ground arith

-- The comparison of all the fields of the two states.
unfoldable pub same_state : StencilState → StencilState → Bool
same_state front back =
    front.compare_mask == back.compare_mask
    && (same_op CompareOp-discrete front.compare_op back.compare_op
        && (same_op StencilOp-discrete front.depth_fail_op back.depth_fail_op
            && (same_op StencilOp-discrete front.fail_op back.fail_op
                && (same_op StencilOp-discrete front.pass_op back.pass_op
                    && (front.reference == back.reference
                        && front.write_mask == back.write_mask)))))

-- The word of a state for the faces `side`: 1 the front, 2 the back, 3 both.
unfoldable pub stencil_word : StencilState → ℕ → ℕ
stencil_word s side =
    0
    ||| (s.compare_mask & 0xff)
    ||| (u32 ((s.reference & 0xff) <<< 8))
    ||| (u32 ((get_compare_op s.compare_op & 0x7) <<< 16))
    ||| (u32 ((get_stencil_op s.fail_op & 0x7) <<< 19))
    ||| (u32 ((get_stencil_op s.pass_op & 0x7) <<< 22))
    ||| (u32 ((get_stencil_op s.depth_fail_op & 0x7) <<< 25))
    ||| (u32 (side <<< 30))

-- The write masks that the word itself can name.
unfoldable pub write_mask_code : ℕ → Option ℕ
write_mask_code mask =
    if mask == 0x1
    then some 0
    else if mask == 0x3
    then some 1
    else if mask == 0xf
    then some 2
    else if mask == 0xff
    then some 3
    else none

-- The extra word with both write masks.
unfoldable pub mask_word : ℕ → ℕ → ℕ
mask_word front back = 0 ||| (front & 0xff) ||| (u32 ((back & 0xff) <<< 8))

-- `front.compareOp = back.compareOp = VK_COMPARE_OP_ALWAYS` without a stencil test
unfoldable pub effective : Bool → StencilState → StencilState
effective enable s = if enable then s else record s { compare_op = always }

pub with_code : ℕ → ℕ → ℕ
with_code word code = word ||| (u32 (code <<< 28))

pub both_faces : StencilState → Option ℕ → List ℕ
both_faces s (some code) = with_code (stencil_word s 3) code ∷ []
both_faces s none = stencil_word s 3 ∷ mask_word s.write_mask s.write_mask ∷ []

pub each_face : StencilState → StencilState → Option ℕ → Option ℕ → List ℕ
each_face front back (some f) (some b) =
    with_code (stencil_word front 1) f ∷ with_code (stencil_word back 2) b ∷ []
each_face front back _ _ =
    stencil_word front 1 ∷ stencil_word back 2 ∷ mask_word front.write_mask back.write_mask ∷ []

-- `encodeStencilValue`: the first `*numValues` of `values`
unfoldable pub encode_stencil_value : StencilState → StencilState → Bool → List ℕ
unfolding with_code both_faces each_face
encode_stencil_value front back enable =
    let f = effective enable front in
    let b = effective enable back in
    if same_state f b
    then both_faces f (write_mask_code f.write_mask)
    else each_face f b (write_mask_code f.write_mask) (write_mask_code b.write_mask)
