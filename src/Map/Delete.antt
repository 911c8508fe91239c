-- ===== src/Map/Delete.antt =====
-- `deleteMapElement` of driver/map.c: what a lookup returns after it.
use rpi_vk_driver.Base.{
  ℕ, suc, ◌-◌, ◌≡◌, refl, sym, ap, ◌∙◌, inl, inr, arith, Option-cases, some, some_injective,
  none_is_not_some, get_elem?, get_elem?-set_self, lt_of_get_elem?, ◌>>=◌,
}
use rpi_vk_driver.Map.{
  Map, MapElem, probe, scan, store_elem, get_index, get_map_element, delete_map_element,
}
use rpi_vk_driver.Map.Probe.{IsTable, probe-stop}
use rpi_vk_driver.Map.Reachable.{get-at}
use rpi_vk_driver.Map.Store.{stop_at_empty}
use rpi_vk_driver.Map.Scan.{cleared, scan-stop, scan-key, cleared-Nothing}

module _ (wide_shift : ℕ → ℕ → ℕ) where
  -- The bucket that `deleteMapElement` clears
  delete_inverse :
      (m m' : Map) (key : ℕ)
      → IsTable m
      → delete_map_element wide_shift m key ≡ some m'
      → (i : ℕ) × (e : MapElem) × (scan m key m.max_data (get_index wide_shift key m.max_data)
          ≡ some i)
        × (get_elem? m.elements i ≡ some e)
        × (m' ≡ store_elem m i (cleared e))
  unfolding delete_map_element
  delete_inverse m m' key table e =
      let start = get_index wide_shift key m.max_data in
      elim (Option-cases (scan m key m.max_data start)) [
        | inl n ↦ absurd (
            none_is_not_some (
              sym (
                ap
                  (λ o.
                    o >>= λ i. get_elem? m.elements i >>= λ b. some (store_elem m i (cleared b)))
                  n)
              ∙ e))
        | inr (i, s) ↦
            let (b, at, key_there) = scan-key m key table m.max_data start i s in
            (
              i,
              b,
              s,
              at,
              sym (
                  some_injective (
                    sym (
                      ap
                        (λ o. o >>= λ i.
                          get_elem? m.elements i >>= λ b. some (store_elem m i (cleared b)))
                        s
                      ∙ ap (λ o. o >>= λ b. some (store_elem m i (cleared b))) at)
                    ∙ e)),
            )
      ]

  -- Where `deleteMapElement` of a key finishes, `getMapElement` of that key returns the null pointer.
  pub get-delete_same :
      (m m' : Map) (key : ℕ)
      → IsTable m
      → delete_map_element wide_shift m key ≡ some m'
      → get_map_element wide_shift m' key ≡ some 0
  get-delete_same m m' key table e =
      let (i, b, s, at, stored) = delete_inverse m m' key table e in
      let gone =
        cleared-Nothing m key table m.max_data (get_index wide_shift key m.max_data) i b at s in
      ap (λ x. get_map_element wide_shift x key) stored
      ∙ get-at wide_shift (store_elem m i (cleared b)) key gone.last gone.elem gone.ends gone.there
      ∙ ap some gone.empty

  -- A key in its own bucket: `deleteMapElement` of it finishes, and from then on `getMapElement`
  -- returns the null pointer for every key that hashes to the same bucket, stored or not.
  pub delete-hides :
      (m : Map) (key other : ℕ) (e : MapElem)
      → IsTable m
      → get_elem? m.elements (get_index wide_shift key m.max_data) ≡ some e
      → e.key ≡ key
      → get_index wide_shift other m.max_data ≡ get_index wide_shift key m.max_data
      → (m' : Map) × (delete_map_element wide_shift m key ≡ some m')
        × (get_map_element wide_shift m' other ≡ some 0)
  unfolding delete_map_element
  delete-hides m key other e table at own collide =
      let start = get_index wide_shift key m.max_data in
      let rounds : m.max_data ≡ suc (m.max_data - 1) = omega (arith, table.some_there) in
      let m' : Map = store_elem m start (cleared e) in
      let there =
        get_elem?-set_self m.elements start (cleared e) (lt_of_get_elem? m.elements start e at) in
      let found : scan m key m.max_data start ≡ some start =
        ap (λ f. scan m key f start) rounds
        ∙ scan-stop m key table (m.max_data - 1) start e at (ground arith) in
      let ends : probe m' other m.max_data (get_index wide_shift other m.max_data) ≡ some start =
        ap (λ f. probe m' other m.max_data f) collide
        ∙ ap (λ f. probe m' other f start) rounds
        ∙ probe-stop m' other (m.max_data - 1) start (cleared e) there
            (stop_at_empty (cleared e) other refl) in
      (m', rw (found, at), get-at wide_shift m' other start (cleared e) ends there)
