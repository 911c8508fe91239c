-- ===== src/Map.antt =====
-- driver/map.c: a table of 32-bit keys and pointers with open addressing. A null pointer marks an
-- empty bucket. Where C leaves a shift by 32 or more undefined, `wide_shift` stands for what the
-- machine does.
pub mod Probe
pub mod Store
pub mod Reachable
pub mod Lookup
pub mod Scan
pub mod Delete
pub mod Room
use rpi_vk_driver.Base.{
  ℕ, zero, suc, ◌%◌, ◌/◌, ◌^◌, ◌-◌, ◌+◌, add32, sub32, mul32, u32, ◌==◌, ltb, leb, if◌then◌else◌,
  Bool, true, false, not, ◌&&◌, ◌||◌, Option, none, some, ◌>>=◌, List, [], ◌∷◌, get_elem?, set,
  ◌>>>◌,
}
use mathlib.Core.List.{map}

-- `mapElem`
pub record MapElem : Type 0 where
  pub content : ℕ
  pub key : ℕ

-- `map`
pub record Map : Type 0 where
  pub elements : List MapElem
  pub max_data : ℕ

-- `createMap`: the buckets' data are cleared; the keys are what the buffer held.
unfoldable pub create : List MapElem → ℕ → Map
create buf max_data = record {
  elements = map {A = MapElem} (λ e. record e { content = 0 }) buf;
  max_data = max_data;
}

-- `destroyMap`: the buffer is the caller's.
unfoldable pub destroy : Map → Map
destroy m = record { elements = []; max_data = 0 }

-- `m->elements[index] = …` at an index in range
abbrev pub store_elem : Map → ℕ → MapElem → Map
store_elem m index e = record m { elements = set m.elements index e }

-- The test on which a lookup stops: the key, or an empty bucket.
abbrev pub stops : MapElem → ℕ → Bool
stops e key = e.key == key || e.content == 0

-- The loop of `getMapElement` and `setMapElement`. `none` is a read out of the table or a loop
-- that is still going after `fuel` rounds.
unfoldable pub probe : Map → ℕ → ℕ → ℕ → Option ℕ
probe m key zero index = none
probe m key (suc fuel) index =
    let again = probe m key fuel (add32 index 1 % m.max_data) in
    elim (get_elem? m.elements index) [
      | none ↦ none
      | some e ↦ if stops e key then some index else again
    ]

-- The loop of `deleteMapElement`, which does not wrap round: `none` is a read past the end.
unfoldable pub scan : Map → ℕ → ℕ → ℕ → Option ℕ
scan m key zero index = none
scan m key (suc fuel) index =
    let again = scan m key fuel (add32 index 1) in
    elim (get_elem? m.elements index) [
      | none ↦ none
      | some e ↦ if e.key == key then some index else again
    ]

module _ (wide_shift : ℕ → ℕ → ℕ) where
  -- `getIndex`: the multiplicative hash
  unfoldable pub get_index : ℕ → ℕ → ℕ
  get_index key max_data =
      let hash = mul32 0x678DDE6F key in
      let shift = sub32 32 max_data in
      (if ltb shift 32 then hash >>> shift else wide_shift hash shift) % max_data

  -- `getMapElement`: a pointer, null for an absent key
  unfoldable pub get_map_element : Map → ℕ → Option ℕ
  get_map_element m key = probe m key m.max_data (get_index key m.max_data) >>= λ index.
      get_elem? m.elements index >>= λ e. some e.content

  -- `setMapElement`
  unfoldable pub set_map_element : Map → ℕ → ℕ → Option Map
  set_map_element m key content = probe m key m.max_data (get_index key m.max_data) >>= λ index.
      some (store_elem m index (record { content = content; key = key }))

  -- `deleteMapElement`
  unfoldable pub delete_map_element : Map → ℕ → Option Map
  delete_map_element m key = scan m key m.max_data (get_index key m.max_data) >>= λ index.
      get_elem? m.elements index >>= λ e. some (store_elem m index (record e { content = 0 }))
