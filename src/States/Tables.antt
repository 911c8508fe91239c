-- ===== src/States/Tables.antt =====
-- What the numbers of driver/common.c's tables mean to the hardware.
use rpi_vk_driver.Base.{
  ℕ, ◌/◌, ◌%◌, ◌^◌, ◌≡◌, refl, Bool, true, false, not, ◌||◌, ltb, ◌==◌, if◌then◌else◌, arith,
  u32_max,
}
use rpi_vk_driver.States.{
  CompareOp, Topology, never, less, equal, less_or_equal, greater, not_equal, greater_or_equal,
  always, other_compare, point_list, get_compare_op, get_topology, get_primitive_mode,
}

-- Whether the comparison that the operation names holds of two values.
abbrev pub passes : CompareOp → ℕ → ℕ → Bool
passes never a b = false
passes less a b = ltb a b
passes equal a b = a == b
passes less_or_equal a b = ltb a b || a == b
passes greater a b = ltb b a
passes not_equal a b = not (a == b)
passes greater_or_equal a b = ltb b a || a == b
passes always a b = true
passes (other_compare _) a b = true

-- The digit of the hardware's number that says whether the test passes: the lowest if the first
-- value is less, the next if they are equal, the third if it is greater.
abbrev pub outcome_digit : ℕ → ℕ → ℕ
outcome_digit a b = if ltb a b then 0 else if a == b then 1 else 2

-- The number that `getCompareOp` gives to an operation, read as three digits, says for each outcome
-- of a comparison whether the operation passes; an unknown operation has all digits set.
pub get_compare_op-passes :
    (op : CompareOp) (a b : ℕ)
    → (get_compare_op op / 2 ^ outcome_digit a b % 2 == 1) ≡ passes op a b
unfolding get_compare_op
get_compare_op-passes never a b = ground arith
get_compare_op-passes _ a b = ground arith

-- The class of a primitive mode of the hardware: points, lines (list, loop or strip) or triangles.
abbrev pub mode_class : ℕ → ℕ
mode_class mode =
    if mode == 0 then 0 else if ltb mode 4 then 1 else if ltb mode 7 then 2 else u32_max

-- `getTopology` and `getPrimitiveMode` agree: the topology is the class of the primitive mode.
pub get_topology-mode_class : (t : Topology) → get_topology t ≡ mode_class (get_primitive_mode t)
unfolding get_topology get_primitive_mode
get_topology-mode_class point_list = refl
get_topology-mode_class _ = refl
