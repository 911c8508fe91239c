-- ===== src/Map/Room.antt =====
-- The table of driver/map.c with room for another key.
use rpi_vk_driver.Base.{
  ℕ, zero, suc, ◌+◌, ◌≤◌, ◌<◌, ◌≡◌, ◌≢◌, refl, sym, ap, ◌∙◌, subst, some, List, [], ◌∷◌, length,
  set, get_elem?, get_elem?-set_self, get_elem?-set_other, lt_of_get_elem?, some_injective, ◌==◌,
  if◌then◌else◌, true, Bool-cases, inl, inr, arith,
}
use rpi_vk_driver.Map.{Map, MapElem, stops, store_elem, get_index, get_map_element, set_map_element}
use rpi_vk_driver.Map.Probe.{probe-StopsAt, probe-total}
use rpi_vk_driver.Map.Store.{stop_full, stop_at_empty}
use rpi_vk_driver.Map.Reachable.{find, get-at, start_below, IsReachable, set-IsReachable}

-- the buckets that hold a pointer
abbrev pub occupied : List MapElem → ℕ
occupied [] = 0
occupied (e ∷ es) = if e.content == 0 then occupied es else suc (occupied es)

vacant :
    (es : List MapElem)
    → occupied es < length es
    → (i : ℕ) × (e : MapElem) × (get_elem? es i ≡ some e) × (e.content ≡ 0)
vacant [] lt = absurd (omega (arith, lt))
vacant (e ∷ es) lt = elim (Bool-cases (e.content == 0)) [
  | inl z ↦ (0, e, refl, ground (arith, z))
  | inr nz ↦
      let (i, b, there, none_there) = vacant es (ground (arith, lt, nz)) in
      (suc i, b, there, none_there)
]

occupied-set : (es : List MapElem) (i : ℕ) (e : MapElem) → occupied (set es i e) ≤ occupied es + 1
occupied-set [] i e = omega arith
occupied-set (b ∷ es) zero e = ground arith
occupied-set (b ∷ es) (suc i) e = let rest = occupied-set es i e in ground (arith, rest)

-- A bucket has the key with the pointer.
pub record IsStored (m : Map) (key content : ℕ) : Type 0 where
  pub index : ℕ
  pub elem : MapElem
  pub there : get_elem? m.elements index ≡ some elem
  pub its_key : elem.key ≡ key
  pub its_content : elem.content ≡ content

module _ (wide_shift : ℕ → ℕ → ℕ) where
  -- A key that is stored is found.
  pub get-IsStored :
      (m : Map) (key content : ℕ)
      → IsReachable wide_shift m
      → content ≢ 0
      → IsStored m key content
      → get_map_element wide_shift m key ≡ some content
  get-IsStored m key content r nz s =
      let full : s.elem.content ≢ 0 = λ z. nz (sym s.its_content ∙ z) in
      let found = r.reach s.index s.elem s.there full in
      get-at wide_shift m key s.index s.elem (ap (find wide_shift m) (sym s.its_key) ∙ found)
        s.there
      ∙ ap some s.its_content

  -- What a store into a table with an empty bucket leaves.
  pub record IsStoredIn (m : Map) (key content : ℕ) (m' : Map) : Type 0 where
    pub done : set_map_element wide_shift m key content ≡ some m'
    pub reachable : IsReachable wide_shift m'
    pub stored : IsStored m' key content
    pub others : (k v : ℕ) → k ≢ key → v ≢ 0 → IsStored m k v → IsStored m' k v
    pub fuller : occupied m'.elements ≤ occupied m.elements + 1
    pub same_size : m'.max_data ≡ m.max_data

  pub set-IsStoredIn :
      (m : Map) (key content : ℕ)
      → IsReachable wide_shift m
      → content ≢ 0
      → occupied m.elements < m.max_data
      → (m' : Map) × IsStoredIn m key content m'
  unfolding set_map_element
  set-IsStoredIn m key content r nz lt =
      let (free, e, there, none_there) =
        vacant m.elements (subst (λ n. occupied m.elements < n) (sym r.table.all_there) lt) in
      let (i, found) =
        probe-total m key (get_index wide_shift key m.max_data) free r.table
          (start_below wide_shift m key r.table)
          (record { elem = e; there = there; stop = stop_at_empty e key none_there }) in
      let new : MapElem = record { content = content; key = key } in
      let here = probe-StopsAt m key m.max_data (get_index wide_shift key m.max_data) i found in
      let done : set_map_element wide_shift m key content ≡ some (store_elem m i new) =
        rw found refl in
      (
        store_elem m i new,
        record {
          done = done;
          reachable = set-IsReachable wide_shift m (store_elem m i new) key content r nz done;
          stored = record {
            index = i;
            elem = new;
            there = get_elem?-set_self m.elements i new (lt_of_get_elem? m.elements i _ here.there);
            its_key = refl;
            its_content = refl;
          };
          others = λ k v ne full s.
              let apart : s.index ≢ i = λ same.
                let one : s.elem ≡ here.elem =
                  some_injective (sym s.there ∙ ap (get_elem? m.elements) same ∙ here.there) in
                let stop : stops s.elem key ≡ true = ap (λ x. stops x key) one ∙ here.stop in
                ne
                  (sym s.its_key ∙ stop_full s.elem key (λ z. full (sym s.its_content ∙ z)) stop) in
              record {
                index = s.index;
                elem = s.elem;
                there =
                    get_elem?-set_other m.elements i s.index new (λ same. apart (sym same))
                    ∙ s.there;
                its_key = s.its_key;
                its_content = s.its_content;
              };
          fuller = occupied-set m.elements i new;
          same_size = refl;
        },
      )
