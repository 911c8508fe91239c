-- ===== src/Examples/Maps.antt =====
-- A table of four buckets.
use rpi_vk_driver.Base.{ℕ, ◌%◌, ◌/◌, ◌^◌, ◌≡◌, refl, none, some, List, [], ◌∷◌, arith}
use rpi_vk_driver.Map
use rpi_vk_driver.Map.Probe.{probe-total}
use rpi_vk_driver.Map.Reachable.{IsReachable, create-IsReachable, set-IsReachable}
use rpi_vk_driver.Map.Lookup.{get-set_other}
use rpi_vk_driver.Map.Delete.{delete-hides}

-- the shift distance cut to five digits, as ARM's and x86's shifts by a register do
abbrev cut_shift : ℕ → ℕ → ℕ
cut_shift hash distance = hash / 2 ^ (distance % 32)

abbrev entry : ℕ → ℕ → Map.MapElem
entry content key = record { content = content; key = key }

abbrev four : List Map.MapElem
four = entry 7 0 ∷ entry 7 0 ∷ entry 7 0 ∷ entry 7 0 ∷ []

abbrev empty_map : Map.Map
empty_map = Map.create four 4

empty_map-IsReachable : IsReachable cut_shift empty_map
empty_map-IsReachable = create-IsReachable cut_shift four 4 refl (omega arith) (omega arith)

-- keys 2 and 5 both hash to bucket 0
abbrev with_two : Map.Map
with_two = record { elements = entry 200 2 ∷ entry 0 0 ∷ entry 0 0 ∷ entry 0 0 ∷ []; max_data = 4 }

abbrev with_both : Map.Map
with_both = record {
  elements = entry 200 2 ∷ entry 500 5 ∷ entry 0 0 ∷ entry 0 0 ∷ [];
  max_data = 4;
}

abbrev without_two : Map.Map
without_two = record {
  elements = entry 0 2 ∷ entry 500 5 ∷ entry 0 0 ∷ entry 0 0 ∷ [];
  max_data = 4;
}

set_two : Map.set_map_element cut_shift empty_map 2 200 ≡ some with_two
unfolding Map.set_map_element Map.create Map.probe Map.get_index
set_two = refl

set_five : Map.set_map_element cut_shift with_two 5 500 ≡ some with_both
unfolding Map.set_map_element Map.probe Map.get_index
set_five = refl

with_two-IsReachable : IsReachable cut_shift with_two
with_two-IsReachable =
    set-IsReachable cut_shift empty_map with_two 2 200 empty_map-IsReachable (omega arith) set_two

with_both-IsReachable : IsReachable cut_shift with_both
with_both-IsReachable =
    set-IsReachable cut_shift with_two with_both 5 500 with_two-IsReachable (omega arith) set_five

-- a stored key that a lookup no longer finds
lost_five :
    (Map.get_map_element cut_shift with_both 5 ≡ some 500)
    × (Map.get_map_element cut_shift without_two 5 ≡ some 0)
unfolding Map.get_map_element Map.probe Map.get_index
lost_five = (refl, refl)

-- the scan for a key that is not there leaves the table
delete_absent : Map.delete_map_element cut_shift with_both 9 ≡ none
unfolding Map.delete_map_element Map.scan Map.get_index
delete_absent = refl

probe-total_example : (i : ℕ) × (Map.probe with_two 5 4 0 ≡ some i)
probe-total_example =
    probe-total with_two 5 0 1 with_two-IsReachable.table (omega arith)
      (record { elem = entry 0 0; there = refl; stop = refl })

set-IsReachable_example : IsReachable cut_shift with_both
set-IsReachable_example =
    set-IsReachable cut_shift with_two with_both 5 500 with_two-IsReachable (omega arith) set_five

get-set_other_example :
    Map.get_map_element cut_shift with_both 2 ≡ Map.get_map_element cut_shift with_two 2
get-set_other_example =
    get-set_other cut_shift with_two with_both 5 500 2 3 (entry 0 0) with_two-IsReachable
      (omega arith) (omega arith) set_five refl refl

delete-hides_example :
    (m' : Map.Map) × (Map.delete_map_element cut_shift with_both 2 ≡ some m')
    × (Map.get_map_element cut_shift m' 5 ≡ some 0)
unfolding Map.get_index
delete-hides_example =
    delete-hides cut_shift with_both 2 5 (entry 200 2) with_both-IsReachable.table refl refl refl
