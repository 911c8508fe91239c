-- ===== src/Map/Scan.antt =====
-- The loop of `deleteMapElement` of driver/map.c beside that of the lookup.
use native.Mathlib.Decide.{ℕ_discrete}
use native.Mathlib.Nat.{mod-eq_of_lt}
use rpi_vk_driver.Base.{
  ℕ, zero, suc, ◌<◌, ◌≡◌, refl, sym, ap, ◌∙◌, subst, inl, inr, arith, true, false, Bool-cases,
  Option-cases, none, some, some_injective, none_is_not_some, set, get_elem?, get_elem?-set_self,
  get_elem?-set_other, lt_of_get_elem?, ◌==◌, add32,
}
use rpi_vk_driver.Map.{Map, MapElem, probe, scan, store_elem}
use rpi_vk_driver.Map.Probe.{IsTable, next, probe-stop, probe-go}
use rpi_vk_driver.Map.Store.{stop_at_empty}

abbrev pub cleared : MapElem → MapElem
cleared e = record e { content = 0 }

-- A lookup of `key` that ends at an element without data
pub record Nothing (m : Map) (key fuel start : ℕ) : Type 0 where
  pub last : ℕ
  pub elem : MapElem
  pub ends : probe m key fuel start ≡ some last
  pub there : get_elem? m.elements last ≡ some elem
  pub empty : elem.content ≡ 0

module _ (m : Map) (key : ℕ) (table : IsTable m) where
  pub scan-zero : (start : ℕ) → scan m key zero start ≡ none
  unfolding scan
  scan-zero start = refl

  pub scan-out : (fuel start : ℕ) → get_elem? m.elements start ≡ none → scan m key fuel start ≡ none
  unfolding scan
  scan-out zero start out = refl
  scan-out (suc fuel) start out = rw (scan, out)

  pub scan-stop :
      (fuel start : ℕ) (e : MapElem)
      → get_elem? m.elements start ≡ some e
      → (e.key == key) ≡ true
      → scan m key (suc fuel) start ≡ some start
  unfolding scan
  scan-stop fuel start e at stop = rw (scan, at, stop)

  pub scan-go :
      (fuel start : ℕ) (e : MapElem)
      → get_elem? m.elements start ≡ some e
      → (e.key == key) ≡ false
      → scan m key (suc fuel) start ≡ scan m key fuel (add32 start 1)
  unfolding scan
  scan-go fuel start e at go = rw (scan, at, go)

  -- Where the loop ends, the bucket holds the key.
  pub scan-key :
      (fuel start i : ℕ)
      → scan m key fuel start ≡ some i
      → (e : MapElem) × (get_elem? m.elements i ≡ some e) × (e.key ≡ key)
  scan-key zero start i e = absurd (none_is_not_some (sym (scan-zero start) ∙ e))
  scan-key (suc fuel) start i e = elim (Option-cases (get_elem? m.elements start)) [
    | inl out ↦ absurd (none_is_not_some (sym (scan-out (suc fuel) start out) ∙ e))
    | inr (b, at) ↦ elim (Bool-cases (b.key == key)) [
      | inl stop ↦
          let same : start ≡ i = some_injective (sym (scan-stop fuel start b at stop) ∙ e) in
          (b, ap (get_elem? m.elements) (sym same) ∙ at, (ground arith))
      | inr go ↦ scan-key fuel (add32 start 1) i (sym (scan-go fuel start b at go) ∙ e)
    ]
  ]

  -- The scan does not wrap round: where it goes on, so does the lookup.
  next_below :
      (fuel start i : ℕ) (b : MapElem)
      → get_elem? m.elements start ≡ some b
      → scan m key fuel (add32 start 1) ≡ some i
      → next m key start ≡ add32 start 1
  next_below fuel start i b here rest = elim (Option-cases (get_elem? m.elements (add32 start 1))) [
    | inl out ↦ absurd (none_is_not_some (sym (scan-out fuel (add32 start 1) out) ∙ rest))
    | inr (c, there) ↦ mod-eq_of_lt (
        subst (λ x. add32 start 1 < x) table.all_there
          (lt_of_get_elem? m.elements (add32 start 1) c there))
  ]

  -- The lookup of a key that was just deleted ends without data.
  pub cleared-Nothing :
      (fuel start i : ℕ) (found : MapElem)
      → get_elem? m.elements i ≡ some found
      → scan m key fuel start ≡ some i
      → Nothing (store_elem m i (cleared found)) key fuel start
  cleared-Nothing zero start i found at e = absurd (none_is_not_some (sym (scan-zero start) ∙ e))
  cleared-Nothing (suc fuel) start i found at e = elim (Option-cases (get_elem? m.elements start)) [
    | inl out ↦ absurd (none_is_not_some (sym (scan-out (suc fuel) start out) ∙ e))
    | inr (b, here) ↦
        let m' : Map = store_elem m i (cleared found) in
        elim (ℕ_discrete i start) [
          | yes same ↦
              let there : get_elem? m'.elements start ≡ some (cleared found) =
                ap (λ x. get_elem? (set m.elements x (cleared found)) start) same
                ∙ get_elem?-set_self m.elements start (cleared found)
                    (lt_of_get_elem? m.elements start b here) in
              record {
                last = start;
                elem = cleared found;
                ends =
                    probe-stop m' key fuel start (cleared found) there
                      (stop_at_empty (cleared found) key refl);
                there = there;
                empty = refl;
              }
          | no away ↦
              let there : get_elem? m'.elements start ≡ some b =
                get_elem?-set_other m.elements i start (cleared found) away ∙ here in
              elim (Bool-cases (b.key == key)) [
                | inl stop ↦
                    absurd
                      (away (sym (some_injective (sym (scan-stop fuel start b here stop) ∙ e))))
                | inr go ↦ elim (ℕ_discrete b.content 0) [
                  | yes empty ↦ record {
                    last = start;
                    elem = b;
                    ends = probe-stop m' key fuel start b there (stop_at_empty b key empty);
                    there = there;
                    empty = empty;
                  }
                  | no full ↦
                      let rest : scan m key fuel (add32 start 1) ≡ some i =
                        sym (scan-go fuel start b here go) ∙ e in
                      let no_wrap : next m' key start ≡ add32 start 1 =
                        next_below fuel start i b here rest in
                      let later = cleared-Nothing fuel (add32 start 1) i found at rest in
                      record {
                        last = later.last;
                        elem = later.elem;
                        ends =
                            probe-go m' key fuel start b there (ground arith)
                            ∙ ap (probe m' key fuel) no_wrap
                            ∙ later.ends;
                        there = later.there;
                        empty = later.empty;
                      }
                ]
              ]
        ]
  ]
