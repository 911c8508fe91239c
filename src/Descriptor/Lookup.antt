-- ===== src/Descriptor/Lookup.antt =====
-- Lookups of the bindings that `vkAllocateDescriptorSets` of driver/descriptorSet.c has filled in.
use native.Mathlib.Nat.{mod-eq_of_lt}
use rpi_vk_driver.Base.{
  ℕ, ◌+◌, ◌*◌, ◌^◌, ◌≤◌, ◌<◌, ◌≡◌, ◌≢◌, refl, sym, ◌∙◌, subst, some, List, [], ◌∷◌, true,
  Bool-cases, inl, inr, arith, add32, mul32, All, All-mono, length,
}
use rpi_vk_driver.Map.{Map, MapElem, get_map_element, set_map_element}
use rpi_vk_driver.Map
use rpi_vk_driver.Map.Reachable.{IsReachable, create-IsReachable}
use rpi_vk_driver.Map.Room.{occupied, IsStored, get-IsStored, IsStoredIn, set-IsStoredIn}
use rpi_vk_driver.Descriptor.{
  Kind, Binding, Descriptor, Descriptors, put_descriptor, count_descriptors, fill,
}
use rpi_vk_driver.Descriptor.Places.{
  is_of, total, Absent, IsLayout, places, total-mine, total-other, count_descriptors-total, place,
}

module _ {X : Type 0} (wide_shift : ℕ → ℕ → ℕ) (size : ℕ) (wide : 1 ≤ size) (base : ℕ)
    (there : base ≢ 0) (k : Kind) where
  -- What the loop over the bindings leaves, from a table and a counter on.
  record Filled (bs : List Binding) (h : Descriptors X) (m : Map) (counter : ℕ) : Type 0 where
    filled : Descriptors X
    table : Map
    done : fill wide_shift size k bs h m base counter ≡ some (filled, table)
    reachable : IsReachable wide_shift table
    others : (key v : ℕ) → Absent key bs → v ≢ 0 → IsStored m key v → IsStored table key v
    stored : All (λ (p : ℕ × ℕ). (p.1 ≢ 0) × IsStored table p.0 p.1) (places k size bs base counter)

  -- the fields that the loop sets in a descriptor
  abbrev header : Descriptors X → Binding → ℕ → Descriptor X
  header h b p = record (h p) {
    count = b.descriptor_count;
    descriptor_type = b.descriptor_type;
    stage_flags = b.stage_flags;
  }

  -- One turn of the loop for a binding of the kind.
  Filled-mine :
      (b : Binding) (bs : List Binding) (h : Descriptors X) (m m' : Map) (counter p : ℕ)
      → is_of k b ≡ true
      → add32 base (mul32 counter size) ≡ p
      → add32 counter b.descriptor_count ≡ counter + b.descriptor_count
      → p ≡ base + counter * size
      → Absent b.binding bs
      → IsStoredIn wide_shift m b.binding p m'
      → Filled bs (put_descriptor h p (header h b p)) m' (counter + b.descriptor_count)
      → Filled (b ∷ bs) h m counter
  unfolding fill
  Filled-mine b bs h m m' counter p mine at next where_at absent s f =
      let full : p ≢ 0 = λ z. there (omega (arith, z, where_at)) in
      record {
        filled = f.filled;
        table = f.table;
        done = rw (mine, at, s.done, next) f.done;
        reachable = f.reachable;
        others = λ key v away nz old. f.others key v away.1 nz (s.others key v away.0 nz old);
        stored =
            rw (mine, sym where_at) ((full, f.others b.binding p absent full s.stored), f.stored);
      }

  filled_lem :
      (bs : List Binding) (h : Descriptors X) (m : Map) (counter : ℕ)
      → IsLayout bs
      → IsReachable wide_shift m
      → base + (counter + total k bs) * size < 2 ^ 32
      → occupied m.elements + total k bs ≤ m.max_data
      → Filled bs h m counter
  unfolding fill
  filled_lem [] h m counter l r fits room = record {
    filled = h;
    table = m;
    done = refl;
    reachable = r;
    others = λ key v _ _ s. s;
    stored = tt;
  }
  filled_lem (b ∷ bs) h m counter l r fits room = elim (Bool-cases (is_of k b)) [
    | inr other ↦
        let same = total-other k b bs other in
        let f =
          filled_lem bs h m counter l.2 r
            (subst (λ n. base + (counter + n) * size < 2 ^ 32) same fits)
            (omega (arith, room, same)) in
        record {
          filled = f.filled;
          table = f.table;
          done = rw other f.done;
          reachable = f.reachable;
          others = λ key v absent. f.others key v absent.1;
          stored = rw other f.stored;
        }
    | inl mine ↦
        let c = b.descriptor_count in
        let more = total-mine k b bs mine in
        let sum : counter + total k (b ∷ bs) ≡ counter + c + total k bs = omega (arith, more) in
        let (at, small) = place size base counter (total k (b ∷ bs)) wide fits in
        let next : add32 counter c ≡ counter + c = mod-eq_of_lt (omega (arith, small, more)) in
        let p = base + counter * size in
        let (m', s) =
          set-IsStoredIn wide_shift m b.binding p r (λ z. there (omega (arith, z)))
            (omega (arith, room, more, l.0)) in
        Filled-mine b bs h m m' counter p mine at next refl l.1 s (
          filled_lem bs (put_descriptor h p (header h b p)) m' (counter + c) l.2 s.reachable
            (subst (λ n. base + n * size < 2 ^ 32) sum fits)
            (omega (arith, room, more, l.0, s.fuller, s.same_size)))
  ]

occupied-create : (buf : List MapElem) (n : ℕ) → occupied (Map.create buf n).elements ≡ 0
unfolding Map.create
occupied-create [] n = refl
occupied-create (e ∷ es) n = occupied-create es n

create_size : (buf : List MapElem) (n : ℕ) → (Map.create buf n).max_data ≡ n
unfolding Map.create
create_size buf n = refl

module _ {X : Type 0} (wide_shift : ℕ → ℕ → ℕ) where
  -- The loops of `vkAllocateDescriptorSets` for one kind, where the bindings have different numbers and
  -- each has a descriptor, at least one of the kind, and the descriptors at `base` end below the top of
  -- the address space: the first counts the descriptors of the kind, and the second, over a cleared map
  -- of as many buckets, returns. From then on `getMapElement` of each binding of the kind returns the
  -- address behind all the descriptors of the bindings before it.
  pub fill_lem :
      (size base : ℕ) (k : Kind) (bs : List Binding) (buf : List MapElem) (h : Descriptors X)
      → 1 ≤ size
      → base ≢ 0
      → IsLayout bs
      → 0 < total k bs
      → base + total k bs * size < 2 ^ 32
      → length buf ≡ total k bs
      → (count_descriptors k bs 0 ≡ total k bs)
        × ((h' : Descriptors X) × (m : Map) × (fill wide_shift size k bs h
                (Map.create buf (total k bs))
                base
                0
              ≡ some (h', m))
            × All
                (λ (p : ℕ × ℕ). get_map_element wide_shift m p.0 ≡ some p.1)
                (places k size bs base 0))
  fill_lem size base k bs buf h wide there l some_there fits long =
      let n = total k bs in
      let none_before : n ≡ 0 + n = omega arith in
      let all : base + (0 + n) * size < 2 ^ 32 =
        subst (λ c. base + c * size < 2 ^ 32) none_before fits in
      let (_, small) = place size base 0 n wide all in
      let r = create-IsReachable wide_shift buf n long some_there (omega (arith, small)) in
      let empty = occupied-create buf n in
      let f =
        filled_lem wide_shift size wide base there k bs h (Map.create buf n) 0 l r all
          (omega (arith, empty, create_size buf n)) in
      (
        count_descriptors-total k bs 0 small ∙ sym none_before,
        (
          f.filled,
          f.table,
          f.done,
          All-mono _ _ (λ p s. get-IsStored wide_shift f.table p.0 p.1 f.reachable s.0 s.1) _
              f.stored,
        ),
      )
