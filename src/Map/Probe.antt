-- ===== src/Map/Probe.antt =====
-- The probe loop of driver/map.c: where it stops, and that it stops.
use native.Mathlib.Nat.{mod-eq_of_lt, mod-add-mod, add-mod_right, mod-lt}
use native.Mathlib.Decide.{dec_lt}
use rpi_vk_driver.Base.{
  ℕ, zero, suc, ◌+◌, ◌-◌, ◌%◌, ◌^◌, ◌<◌, ◌≡◌, ◌≢◌, refl, sym, ap, ◌∙◌, subst, inl, inr, arith, true,
  false, Bool-cases, Option-cases, none, some, some_injective, none_is_not_some, length, get_elem?,
  get_elem?-in, lt_of_get_elem?, true_is_not_false, add32,
}
use rpi_vk_driver.Map.{Map, MapElem, probe, stops}

-- As many buckets as the map says, at least one, and few enough for 32-bit indices.
pub record IsTable (m : Map) : Type 0 where
  pub all_there : length m.elements ≡ m.max_data
  pub some_there : 0 < m.max_data
  pub small : m.max_data < 2 ^ 32

-- The bucket at `i` is there, and a lookup of `key` stops at it.
pub record StopsAt (m : Map) (key i : ℕ) : Type 0 where
  pub elem : MapElem
  pub there : get_elem? m.elements i ≡ some elem
  pub stop : stops elem key ≡ true

module _ (m : Map) (key : ℕ) where
  abbrev pub next : ℕ → ℕ
  next index = add32 index 1 % m.max_data

  pub probe-stop :
      (fuel start : ℕ) (e : MapElem)
      → get_elem? m.elements start ≡ some e
      → stops e key ≡ true
      → probe m key (suc fuel) start ≡ some start
  unfolding probe
  probe-stop fuel start e at stop = rw (probe, at, stop)

  pub probe-go :
      (fuel start : ℕ) (e : MapElem)
      → get_elem? m.elements start ≡ some e
      → stops e key ≡ false
      → probe m key (suc fuel) start ≡ probe m key fuel (next start)
  unfolding probe
  probe-go fuel start e at go = rw (probe, at, go)

  pub probe-out :
      (fuel start : ℕ) → get_elem? m.elements start ≡ none → probe m key fuel start ≡ none
  unfolding probe
  probe-out zero start out = refl
  probe-out (suc fuel) start out = rw (probe, out)

  pub probe-zero : (start : ℕ) → probe m key zero start ≡ none
  unfolding probe
  probe-zero start = refl

  -- Where the loop ends, the bucket is one to stop at.
  pub probe-StopsAt : (fuel start i : ℕ) → probe m key fuel start ≡ some i → StopsAt m key i
  probe-StopsAt zero start i e = absurd (none_is_not_some (sym (probe-zero start) ∙ e))
  probe-StopsAt (suc fuel) start i e = elim (Option-cases (get_elem? m.elements start)) [
    | inl out ↦ absurd (none_is_not_some (sym (probe-out (suc fuel) start out) ∙ e))
    | inr (b, at) ↦ elim (Bool-cases (stops b key)) [
      | inl stop ↦
          let here : start ≡ i = some_injective (sym (probe-stop fuel start b at stop) ∙ e) in
          subst (StopsAt m key) here (record { elem = b; there = at; stop = stop })
      | inr go ↦ probe-StopsAt fuel (next start) i (sym (probe-go fuel start b at go) ∙ e)
    ]
  ]

  -- A bucket to stop at, `d` rounds away, is reached if the fuel is more than that.
  probe_within :
      (fuel start d j : ℕ)
      → IsTable m
      → start < m.max_data
      → (start + d) % m.max_data ≡ j
      → StopsAt m key j
      → d < fuel
      → (i : ℕ) × (probe m key fuel start ≡ some i)
  probe_within zero start d j table below away stop enough = absurd (omega arith)
  probe_within (suc fuel) start d j table below away stop enough =
      let (b, at) = get_elem?-in m.elements start (rw table.all_there below) in
      elim (Bool-cases (stops b key)) [
        | inl here ↦ (start, probe-stop fuel start b at here)
        | inr go ↦
            let far : d ≢ 0 = λ none_left.
              let same : start ≡ j =
                sym (mod-eq_of_lt below) ∙ ap (λ x. x % m.max_data) (omega arith) ∙ away in
              let e : b ≡ stop.elem =
                some_injective (sym at ∙ ap (get_elem? m.elements) same ∙ stop.there) in
              true_is_not_false (sym stop.stop ∙ ap (λ x. stops x key) (sym e) ∙ go) in
            let no_wrap : add32 start 1 ≡ start + 1 = omega (arith, table.small) in
            let closer : (next start + (d - 1)) % m.max_data ≡ j =
              ap (λ x. (x % m.max_data + (d - 1)) % m.max_data) no_wrap
              ∙ mod-add-mod (start + 1) m.max_data (d - 1)
              ∙ ap (λ x. x % m.max_data) (omega arith)
              ∙ away in
            let (i, e) =
              probe_within fuel (next start) (d - 1) j table
                (mod-lt (add32 start 1) table.some_there) closer stop (omega arith) in
            (i, probe-go fuel start b at go ∙ e)
      ]

  -- As many rounds as there are buckets are enough, if there is a bucket to stop at.
  pub probe-total :
      (start j : ℕ)
      → IsTable m
      → start < m.max_data
      → StopsAt m key j
      → (i : ℕ) × (probe m key m.max_data start ≡ some i)
  probe-total start j table below stop =
      let inside : j < m.max_data =
        rw table.all_there at (lt_of_get_elem? m.elements j stop.elem stop.there) in
      elim (dec_lt j start) [
        | yes before ↦
            probe_within m.max_data start (j + m.max_data - start) j table below
              (ap (λ x. x % m.max_data) (omega arith)
                ∙ add-mod_right j m.max_data
                ∙ mod-eq_of_lt inside)
              stop (omega arith)
        | no after ↦
            probe_within m.max_data start (j - start) j table below
              (ap (λ x. x % m.max_data) (omega arith) ∙ mod-eq_of_lt inside) stop (omega arith)
      ]
