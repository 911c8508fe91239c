-- ===== src/Map/Reachable.antt =====
-- The table of driver/map.c in use: every stored key is where its lookup ends.
use native.Mathlib.Decide.{ℕ_discrete}
use native.Mathlib.Nat.{mod-lt}
use rpi_vk_driver.Base.{
  ℕ, ◌<◌, ◌≡◌, ◌≢◌, sym, ap, ◌∙◌, subst, inl, inr, Option, Option-cases, some, some_injective,
  none_is_not_some, length-set, set, get_elem?, get_elem?-set_self, get_elem?-set_other,
  lt_of_get_elem?, ◌>>=◌,
}
use rpi_vk_driver.Base.{List, [], ◌∷◌, suc, zero, refl, length, ◌^◌, ◌<◌}
use mathlib.Core.List.{map}
use rpi_vk_driver.Map.{
  create, Map, MapElem, probe, stops, store_elem, get_index, get_map_element, set_map_element,
}
use rpi_vk_driver.Map.Probe.{IsTable, probe-StopsAt}
use rpi_vk_driver.Map.Store.{probe-store_self, probe-store_other, stop_own_key, pass_key}

length-clear :
    (buf : List MapElem)
    → length (map {A = MapElem} (λ e. record e { content = 0 }) buf) ≡ length buf
length-clear [] = refl
length-clear (e ∷ es) = ap suc (length-clear es)

get_elem?-clear :
    (buf : List MapElem) (i : ℕ) (e : MapElem)
    → get_elem? (map (λ (b : MapElem). record b { content = 0 }) buf) i ≡ some e
    → e.content ≡ 0
get_elem?-clear [] i e there = absurd (none_is_not_some there)
get_elem?-clear (b ∷ bs) zero e there = ap (λ (x : MapElem). x.content) (sym (some_injective there))
get_elem?-clear (b ∷ bs) (suc i) e there = get_elem?-clear bs i e there

module _ (wide_shift : ℕ → ℕ → ℕ) where
  abbrev pub find : Map → ℕ → Option ℕ
  find m key = probe m key m.max_data (get_index wide_shift key m.max_data)

  -- The bucket that `setMapElement` writes
  pub set_inverse :
      (m m' : Map) (key content : ℕ)
      → set_map_element wide_shift m key content ≡ some m'
      → (i : ℕ) × (find m key ≡ some i)
        × (m' ≡ store_elem m i (record { content = content; key = key }))
  unfolding set_map_element
  set_inverse m m' key content e = elim (Option-cases (find m key)) [
    | inl n ↦ absurd (
        none_is_not_some (
          sym
            (ap (λ o. o >>= λ i. some (store_elem m i (record { content = content; key = key }))) n)
          ∙ e))
    | inr (i, s) ↦ (
      i,
      s,
      sym (
          some_injective (
            sym (
              ap (λ o. o >>= λ i. some (store_elem m i (record { content = content; key = key })))
                s)
            ∙ e)),
    )
  ]

  pub start_below :
      (m : Map) (key : ℕ) → IsTable m → get_index wide_shift key m.max_data < m.max_data
  unfolding get_index
  start_below m key t = mod-lt _ t.some_there

  -- What a lookup returns where its loop ends at bucket `i`
  pub get-at :
      (m : Map) (key i : ℕ) (e : MapElem)
      → find m key ≡ some i
      → get_elem? m.elements i ≡ some e
      → get_map_element wide_shift m key ≡ some e.content
  unfolding get_map_element
  get-at m key i e found at = rw (found, at)

  -- Every key that the table stores is where a lookup of it ends.
  pub record IsReachable (m : Map) : Type 0 where
    pub table : IsTable m
    pub reach :
        (i : ℕ) (e : MapElem)
        → get_elem? m.elements i ≡ some e
        → e.content ≢ 0
        → find m e.key ≡ some i

  pub store-IsTable : (m : Map) (i : ℕ) (e : MapElem) → IsTable m → IsTable (store_elem m i e)
  store-IsTable m i e t = record {
    all_there = length-set m.elements i e ∙ t.all_there;
    some_there = t.some_there;
    small = t.small;
  }

  -- A store of a key leaves the buckets where the lookups of the other keys end, but its own.
  pub find-set_other :
      (m : Map) (k d j i other : ℕ)
      → d ≢ 0
      → j ≢ k
      → find m k ≡ some i
      → find m j ≡ some other
      → i ≢ other
      → find (store_elem m i (record { content = d; key = k })) j ≡ some other
  find-set_other m k d j i other nz ne found found_j apart =
      let at = probe-StopsAt m k m.max_data (get_index wide_shift k m.max_data) i found in
      probe-store_other m j i (record { content = d; key = k }) m.max_data
        (get_index wide_shift j m.max_data) other
        (λ e there.
          pass_key e j k d ne nz
            (ap (λ x. stops x k) (some_injective (sym there ∙ at.there)) ∙ at.stop))
        apart found_j

  store-IsReachable :
      (m : Map) (k d i : ℕ)
      → IsReachable m
      → d ≢ 0
      → find m k ≡ some i
      → IsReachable (store_elem m i (record { content = d; key = k }))
  store-IsReachable m k d i r nz found =
      let at = probe-StopsAt m k m.max_data (get_index wide_shift k m.max_data) i found in
      let new : MapElem = record { content = d; key = k } in
      record {
        table = store-IsTable m i new r.table;
        reach = λ b e there full. elim (ℕ_discrete i b) [
          | yes same ↦
              let mine : e ≡ new = some_injective (
                sym there
                ∙ ap (get_elem? (set m.elements i new)) (sym same)
                ∙ get_elem?-set_self m.elements i new
                    (lt_of_get_elem? m.elements i at.elem at.there)) in
              ap (λ (x : MapElem). find (store_elem m i new) x.key) mine
              ∙ probe-store_self m k i new m.max_data (get_index wide_shift k m.max_data)
                  (stop_own_key k d) found
              ∙ ap some same
          | no apart ↦
              let old : get_elem? m.elements b ≡ some e =
                sym (get_elem?-set_other m.elements i b new apart) ∙ there in
              let before : find m e.key ≡ some b = r.reach b e old full in
              find-set_other m k d e.key i b nz
                (λ same. apart (some_injective (sym found ∙ ap (find m) (sym same) ∙ before))) found
                before apart
        ];
      }

  -- `createMap` over a buffer of as many elements as it says stores nothing.
  pub create-IsReachable :
      (buf : List MapElem) (n : ℕ)
      → length buf ≡ n
      → 0 < n
      → n < 2 ^ 32
      → IsReachable (create buf n)
  unfolding create
  create-IsReachable buf n len pos small = record {
    table = record { all_there = length-clear buf ∙ len; some_there = pos; small = small };
    reach = λ i e there full. absurd (full (get_elem?-clear buf i e there));
  }

  -- `setMapElement` of a pointer that is not null: if every stored key was where its lookup ends,
  -- every stored key still is.
  pub set-IsReachable :
      (m m' : Map) (key content : ℕ)
      → IsReachable m
      → content ≢ 0
      → set_map_element wide_shift m key content ≡ some m'
      → IsReachable m'
  set-IsReachable m m' key content r nz e =
      let (i, found, stored) = set_inverse m m' key content e in
      subst IsReachable (sym stored) (store-IsReachable m key content i r nz found)
