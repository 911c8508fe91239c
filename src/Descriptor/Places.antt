-- ===== src/Descriptor/Places.antt =====
-- Where the loops of `vkAllocateDescriptorSets` of driver/descriptorSet.c put the descriptors of a binding.
use native.Mathlib.Nat.{mod-eq_of_lt, mul-le-mul_right, le-mul_of_pos_right}
use rpi_vk_driver.Base.{
  ℕ, ◌+◌, ◌*◌, ◌^◌, ◌≤◌, ◌<◌, ◌≡◌, ◌≢◌, refl, ◌∙◌, List, [], ◌∷◌, if◌then◌else◌, true, false, Bool,
  Bool-cases, inl, inr, arith, add32, mul32,
}
use rpi_vk_driver.Descriptor.{Kind, kind, same_kind, Binding, count_descriptors}

abbrev pub is_of : Kind → Binding → Bool
is_of k b = same_kind (kind b.descriptor_type) k

-- how many descriptors of the kind the bindings have
abbrev pub total : Kind → List Binding → ℕ
total k [] = 0
total k (b ∷ bs) = if is_of k b then b.descriptor_count + total k bs else total k bs

-- No binding has the number.
abbrev pub Absent : ℕ → List Binding → Type 0
Absent n [] = Unit
Absent n (b ∷ bs) = (n ≢ b.binding) × Absent n bs

-- The numbers are different, and no binding is without descriptors.
abbrev pub IsLayout : List Binding → Type 0
IsLayout [] = Unit
IsLayout (b ∷ bs) = (1 ≤ b.descriptor_count) × Absent b.binding bs × IsLayout bs

-- The bindings of the kind with the addresses of their first descriptors: they stand side by side, each
-- behind all the descriptors of those before.
abbrev pub places : Kind → ℕ → List Binding → ℕ → ℕ → List (ℕ × ℕ)
places k size [] base counter = []
places k size (b ∷ bs) base counter =
    if is_of k b
    then ((b.binding, base + counter * size) ∷ places k size bs base (counter + b.descriptor_count))
    else places k size bs base counter

pub total-mine :
    (k : Kind) (b : Binding) (bs : List Binding)
    → is_of k b ≡ true
    → total k (b ∷ bs) ≡ b.descriptor_count + total k bs
total-mine k b bs e = rw e refl

pub total-other :
    (k : Kind) (b : Binding) (bs : List Binding) → is_of k b ≡ false → total k (b ∷ bs) ≡ total k bs
total-other k b bs e = rw e refl

pub count_descriptors-total :
    (k : Kind) (bs : List Binding) (n : ℕ)
    → n + total k bs < 2 ^ 32
    → count_descriptors k bs n ≡ n + total k bs
unfolding count_descriptors
count_descriptors-total k [] n lt = omega arith
count_descriptors-total k (b ∷ bs) n lt = elim (Bool-cases (is_of k b)) [
  | inr other ↦
      let same = total-other k b bs other in
      rw other (count_descriptors-total k bs n (omega (arith, lt, same)))
  | inl mine ↦
      let more = total-mine k b bs mine in
      let e : add32 n b.descriptor_count ≡ n + b.descriptor_count =
        mod-eq_of_lt (omega (arith, lt, more)) in
      rw (mine, e)
        (count_descriptors-total k bs (n + b.descriptor_count) (omega (arith, lt, more))
          ∙ omega arith)
]

-- The address of a descriptor does not wrap round.
pub place :
    (size base counter more : ℕ)
    → 1 ≤ size
    → base + (counter + more) * size < 2 ^ 32
    → (add32 base (mul32 counter size) ≡ base + counter * size) × (counter + more < 2 ^ 32)
place size base counter more wide lt =
    let low : counter * size ≤ (counter + more) * size = mul-le-mul_right size (omega arith) in
    let high : counter + more ≤ (counter + more) * size =
      le-mul_of_pos_right (counter + more) wide in
    let product : mul32 counter size ≡ counter * size = mod-eq_of_lt (omega (arith, low, lt)) in
    (rw product (mod-eq_of_lt (omega (arith, low, lt))), omega (arith, high, lt))
