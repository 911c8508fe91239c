-- ===== src/Map/Lookup.antt =====
-- Lookups after a store in the table of driver/map.c.
use native.Mathlib.Decide.{ℕ_discrete}
use rpi_vk_driver.Base.{
  ℕ, ◌≡◌, ◌≢◌, sym, ap, ◌∙◌, true, some, some_injective, set, get_elem?, get_elem?-set_self,
  get_elem?-set_other, lt_of_get_elem?,
}
use rpi_vk_driver.Map.{Map, MapElem, stops, store_elem, get_index, get_map_element, set_map_element}
use rpi_vk_driver.Map.Probe.{probe-StopsAt, probe-total}
use rpi_vk_driver.Map.Store.{probe-store_self, stop_own_key, stop_empty, stop_full, stop_at_empty}
use rpi_vk_driver.Map.Reachable.{
  find, set_inverse, get-at, find-set_other, store-IsTable, start_below, IsReachable,
}

module _ (wide_shift : ℕ → ℕ → ℕ) where
  -- What `setMapElement` stores, `getMapElement` returns.
  pub get-set_same :
      (m m' : Map) (key content : ℕ)
      → set_map_element wide_shift m key content ≡ some m'
      → get_map_element wide_shift m' key ≡ some content
  get-set_same m m' key content e =
      let (i, found, stored) = set_inverse wide_shift m m' key content e in
      let at =
        (probe-StopsAt m key m.max_data (get_index wide_shift key m.max_data) i found).there in
      let new : MapElem = record { content = content; key = key } in
      let again =
        probe-store_self m key i new m.max_data (get_index wide_shift key m.max_data)
          (stop_own_key key content) found in
      rw stored (
        get-at wide_shift (store_elem m i new) key i new again
          (get_elem?-set_self m.elements i new (lt_of_get_elem? m.elements i _ at)))

  -- A lookup of `j` that ends where the new key went found nothing, and still finds nothing.
  get-set_taken :
      (m : Map) (k d j i last : ℕ) (b : MapElem)
      → IsReachable wide_shift m
      → j ≢ k
      → find wide_shift m k ≡ some i
      → find wide_shift m j ≡ some i
      → find wide_shift (store_elem m i (record { content = d; key = k })) j ≡ some last
      → get_elem? (set m.elements i (record { content = d; key = k })) last ≡ some b
      → b.content ≡ 0
  get-set_taken m k d j i last b r ne found found_j ends at = elim (ℕ_discrete b.content 0) [
    | yes zero_there ↦ zero_there
    | no full ↦
        let new : MapElem = record { content = d; key = k } in
        let stop =
          probe-StopsAt (store_elem m i new) j m.max_data (get_index wide_shift j m.max_data) last
            ends in
        let here = probe-StopsAt m k m.max_data (get_index wide_shift k m.max_data) i found in
        let key_there : b.key ≡ j =
          stop_full b j full
            (ap (λ x. stops x j) (some_injective (sym at ∙ stop.there)) ∙ stop.stop) in
        let apart : i ≢ last = λ same. ne (
          sym key_there
          ∙ ap (λ (x : MapElem). x.key)
              (some_injective (
                sym at
                ∙ ap (get_elem? (set m.elements i new)) (sym same)
                ∙ get_elem?-set_self m.elements i new
                    (lt_of_get_elem? m.elements i here.elem here.there)))) in
        absurd (
          apart (
            some_injective (
              sym found_j
              ∙ ap (find wide_shift m) (sym key_there)
              ∙ r.reach last b (sym (get_elem?-set_other m.elements i last new apart) ∙ at) full)))
  ]

  get-set_apart :
      (m : Map) (k d j i last : ℕ)
      → IsReachable wide_shift m
      → d ≢ 0
      → j ≢ k
      → find wide_shift m k ≡ some i
      → find wide_shift m j ≡ some last
      → i ≢ last
      → get_map_element wide_shift (store_elem m i (record { content = d; key = k })) j
        ≡ get_map_element wide_shift m j
  get-set_apart m k d j i last r nz ne found found_j apart =
      let new : MapElem = record { content = d; key = k } in
      let at = probe-StopsAt m j m.max_data (get_index wide_shift j m.max_data) last found_j in
      get-at wide_shift (store_elem m i new) j last at.elem
        (find-set_other wide_shift m k d j i last nz ne found found_j apart)
        (get_elem?-set_other m.elements i last new apart ∙ at.there)
      ∙ sym (get-at wide_shift m j last at.elem found_j at.there)

  get-set_meet :
      (m : Map) (k d j i last : ℕ)
      → IsReachable wide_shift m
      → j ≢ k
      → find wide_shift m k ≡ some i
      → find wide_shift m j ≡ some i
      → find wide_shift (store_elem m i (record { content = d; key = k })) j ≡ some last
      → get_map_element wide_shift (store_elem m i (record { content = d; key = k })) j
        ≡ get_map_element wide_shift m j
  get-set_meet m k d j i last r ne found found_j ends =
      let new : MapElem = record { content = d; key = k } in
      let at = probe-StopsAt m j m.max_data (get_index wide_shift j m.max_data) i found_j in
      let mine = probe-StopsAt m k m.max_data (get_index wide_shift k m.max_data) i found in
      let stop =
        probe-StopsAt (store_elem m i new) j m.max_data (get_index wide_shift j m.max_data) last
          ends in
      let old : at.elem.content ≡ 0 =
        stop_empty at.elem j k ne
          (ap (λ x. stops x k) (some_injective (sym at.there ∙ mine.there)) ∙ mine.stop) at.stop in
      get-at wide_shift (store_elem m i new) j last stop.elem ends stop.there
      ∙ ap some
          (get-set_taken m k d j i last stop.elem r ne found found_j ends stop.there ∙ sym old)
      ∙ sym (get-at wide_shift m j i at.elem found_j at.there)

  -- In a table where every stored key is found: after `setMapElement` of one key with a pointer
  -- that is not null, if some bucket is still empty, `getMapElement` of every other key returns
  -- what it returned before.
  pub get-set_other :
      (m m' : Map) (key content other empty : ℕ) (e : MapElem)
      → IsReachable wide_shift m
      → content ≢ 0
      → other ≢ key
      → set_map_element wide_shift m key content ≡ some m'
      → get_elem? m'.elements empty ≡ some e
      → e.content ≡ 0
      → get_map_element wide_shift m' other ≡ get_map_element wide_shift m other
  get-set_other m m' key content other empty e r nz ne is_set there none_stored =
      let (i, found, stored) = set_inverse wide_shift m m' key content is_set in
      let new : MapElem = record { content = content; key = key } in
      let m'' : Map = store_elem m i new in
      let here = probe-StopsAt m key m.max_data (get_index wide_shift key m.max_data) i found in
      let there' : get_elem? m''.elements empty ≡ some e =
        ap (λ (x : Map). get_elem? x.elements empty) (sym stored) ∙ there in
      let apart : i ≢ empty = λ same. nz (
        ap (λ (x : MapElem). x.content)
          (some_injective (
            sym (
              get_elem?-set_self m.elements i new
                (lt_of_get_elem? m.elements i here.elem here.there))
            ∙ ap (get_elem? m''.elements) same
            ∙ there'))
        ∙ none_stored) in
      let stop : stops e other ≡ true = stop_at_empty e other none_stored in
      let (last, before) =
        probe-total m other (get_index wide_shift other m.max_data) empty r.table
          (start_below wide_shift m other r.table)
          (record {
            elem = e;
            there = sym (get_elem?-set_other m.elements i empty new apart) ∙ there';
            stop = stop;
          }) in
      let (last', after) =
        probe-total m'' other (get_index wide_shift other m.max_data) empty
          (store-IsTable wide_shift m i new r.table) (start_below wide_shift m other r.table)
          (record { elem = e; there = there'; stop = stop }) in
      ap (λ x. get_map_element wide_shift x other) stored ∙ elim (ℕ_discrete i last) [
        | yes same ↦
            get-set_meet m key content other i last' r ne found (before ∙ ap some (sym same)) after
        | no away ↦ get-set_apart m key content other i last r nz ne found before away
      ]
