-- ===== src/Descriptor/Update.antt =====
-- What `vkUpdateDescriptorSets` of driver/descriptorSet.c writes.
use native.Mathlib.Nat.{mod-eq_of_lt, suc-mul, add-mul}
use rpi_vk_driver.Base.{
  ℕ, zero, suc, ◌+◌, ◌*◌, ◌^◌, ◌≤◌, ◌<◌, ◌≡◌, ◌≢◌, refl, ap, ◌∙◌, subst, some, List, [], ◌∷◌, true,
  false, arith, add32, length, get_elem?, ◌==◌, some_injective, none_is_not_some,
}
use rpi_vk_driver.Map.{Map, get_map_element}
use rpi_vk_driver.Descriptor.{Descriptor, Descriptors, put_descriptor, write_each, update}
use rpi_vk_driver.Descriptor.Places.{place}

-- the offset behind one more descriptor
behind_one : (size p i : ℕ) → p + size + i * size ≡ p + suc i * size
behind_one size p i = let e = suc-mul i size in omega (arith, e)

module _ {X : Type 0} where
  put_self : (h : Descriptors X) (p : ℕ) (x : Descriptor X) → put_descriptor h p x p ≡ x
  put_self h p x = let e : (p == p) ≡ true = ground arith in rw e refl

  put_other :
      (h : Descriptors X) (p a : ℕ) (x : Descriptor X) → a ≢ p → put_descriptor h p x a ≡ h a
  put_other h p a x ne = let e : (a == p) ≡ false = ground (arith, ne) in rw e refl

  -- The descriptors from an address on hold the values, and are otherwise what they were; so are those
  -- anywhere else.
  pub record IsWritten (size : ℕ) (xs : List X) (h h' : Descriptors X) (p : ℕ) : Type 0 where
    pub inside :
        (i : ℕ) (x : X)
        → get_elem? xs i ≡ some x
        → h' (p + i * size) ≡ record (h (p + i * size)) { payload = x }
    pub outside : (a : ℕ) → ((i : ℕ) → i < length xs → a ≢ p + i * size) → h' a ≡ h a

  inside_cons :
      (size : ℕ) (x : X) (xs : List X) (h h' : Descriptors X) (p : ℕ)
      → 1 ≤ size
      → IsWritten size xs (put_descriptor h p (record (h p) { payload = x })) h' (p + size)
      → (i : ℕ) (y : X) → get_elem? (x ∷ xs) i ≡ some y
      → h' (p + i * size) ≡ record (h (p + i * size)) { payload = y }
  inside_cons size x xs h h' p wide f zero y there =
      let here : p ≡ p + 0 * size = omega arith in
      subst (λ a. h' a ≡ record (h a) { payload = y }) here
        (f.outside p (λ i _ same. omega (arith, same, wide))
          ∙ put_self h p _
          ∙ ap (λ z. record (h p) { payload = z }) (some_injective there))
  inside_cons size x xs h h' p wide f (suc i) y there =
      let later : p + size + i * size ≢ p = λ same. omega (arith, same, wide) in
      subst (λ a. h' a ≡ record (h a) { payload = y }) (behind_one size p i)
        (f.inside i y there
          ∙ ap (λ (d : Descriptor X). record d { payload = y }) (put_other h p _ _ later))

  IsWritten-cons :
      (size : ℕ) (x : X) (xs : List X) (h h' : Descriptors X) (p : ℕ)
      → 1 ≤ size
      → IsWritten size xs (put_descriptor h p (record (h p) { payload = x })) h' (p + size)
      → IsWritten size (x ∷ xs) h h' p
  IsWritten-cons size x xs h h' p wide f = record {
    inside = inside_cons size x xs h h' p wide f;
    outside = λ a away.
        let first : a ≢ p = λ same. away 0 (omega arith) (omega (arith, same)) in
        f.outside a (λ i lt same. away (suc i) (omega (arith, lt)) (same ∙ behind_one size p i))
        ∙ put_other h p a _ first;
  }

  pub write_each-IsWritten :
      (size : ℕ) (xs : List X) (h : Descriptors X) (p : ℕ)
      → 1 ≤ size
      → p + length xs * size < 2 ^ 32
      → IsWritten size xs h (write_each size xs h p) p
  unfolding write_each
  write_each-IsWritten size [] h p wide fits = record {
    inside = λ i x there. absurd (none_is_not_some there);
    outside = λ a _. refl;
  }
  write_each-IsWritten size (x ∷ xs) h p wide fits =
      let all = behind_one size p (length xs) in
      let next : add32 p size ≡ p + size = mod-eq_of_lt (omega (arith, fits, all)) in
      let new : Descriptor X = record (h p) { payload = x } in
      let f =
        write_each-IsWritten size xs (put_descriptor h p new) (p + size) wide
          (omega (arith, fits, all)) in
      rw next (IsWritten-cons size x xs h _ p wide f)

  -- A write of `vkUpdateDescriptorSets` to a binding whose descriptors the map has at `p`, from the array
  -- element on, where the descriptors that it writes end below the top of the address space: it
  -- returns, the descriptors from that element on hold the values in order and keep their counts, types
  -- and stages, and no descriptor elsewhere changes.
  pub update_lem :
      (wide_shift : ℕ → ℕ → ℕ) (size : ℕ) (m : Map) (dst_binding dst_array_element p : ℕ)
      (xs : List X) (h : Descriptors X)
      → 1 ≤ size
      → get_map_element wide_shift m dst_binding ≡ some p
      → p + (dst_array_element + length xs) * size < 2 ^ 32
      → (h' : Descriptors X) × (update wide_shift size m dst_binding dst_array_element xs h
          ≡ some h')
        × IsWritten size xs h h' (p + dst_array_element * size)
  unfolding update
  update_lem wide_shift size m dst_binding dst_array_element p xs h wide found fits =
      let (at, _) = place size p dst_array_element (length xs) wide fits in
      let split = add-mul dst_array_element (length xs) size in
      (
        write_each size xs h (p + dst_array_element * size),
        rw (found, at) refl,
        write_each-IsWritten size xs h (p + dst_array_element * size) wide
            (omega (arith, fits, split)),
      )
