-- ===== src/Map/Store.antt =====
-- The probe loop of driver/map.c after a store into a bucket.
use native.Mathlib.Decide.{ℕ_discrete}
use rpi_vk_driver.Base.{
  ℕ, zero, suc, ◌≡◌, ◌≢◌, sym, ap, ◌∙◌, inl, inr, arith, true, false, Bool-cases, Option-cases,
  some, some_injective, none_is_not_some, set, get_elem?, get_elem?-set_self, get_elem?-set_other,
  lt_of_get_elem?,
}
use rpi_vk_driver.Map.{Map, MapElem, probe, stops, store_elem}
use rpi_vk_driver.Map.Probe.{next, probe-stop, probe-go, probe-out, probe-zero}

module _ (m : Map) (key i : ℕ) (new : MapElem) where
  -- A store into the bucket where the loop ends: it still ends there.
  pub probe-store_self :
      (fuel start : ℕ)
      → stops new key ≡ true
      → probe m key fuel start ≡ some i
      → probe (store_elem m i new) key fuel start ≡ some i
  probe-store_self zero start stop e = absurd (none_is_not_some (sym (probe-zero m key start) ∙ e))
  probe-store_self (suc fuel) start stop e = elim (Option-cases (get_elem? m.elements start)) [
    | inl out ↦ absurd (none_is_not_some (sym (probe-out m key (suc fuel) start out) ∙ e))
    | inr (b, at) ↦ elim (ℕ_discrete i start) [
      | yes same ↦
          probe-stop (store_elem m i new) key fuel start new
            (ap (λ x. get_elem? (set m.elements x new) start) same
              ∙ get_elem?-set_self m.elements start new (lt_of_get_elem? m.elements start b at))
            stop
          ∙ ap some (sym same)
      | no other ↦ elim (Bool-cases (stops b key)) [
        | inl here ↦
            absurd (other (sym (some_injective (sym (probe-stop m key fuel start b at here) ∙ e))))
        | inr go ↦
            probe-go (store_elem m i new) key fuel start b
              (get_elem?-set_other m.elements i start new other ∙ at) go
            ∙ probe-store_self fuel (next m key start) stop
                (sym (probe-go m key fuel start b at go) ∙ e)
      ]
    ]
  ]

  -- A store into another bucket, one that the loop passes after the store if it did before.
  pub probe-store_other :
      (fuel start j : ℕ)
      → ((e : MapElem)
          → get_elem? m.elements i ≡ some e
          → stops e key ≡ false
          → stops new key ≡ false)
      → i ≢ j
      → probe m key fuel start ≡ some j
      → probe (store_elem m i new) key fuel start ≡ some j
  probe-store_other zero start j pass ne e =
      absurd (none_is_not_some (sym (probe-zero m key start) ∙ e))
  probe-store_other (suc fuel) start j pass ne e =
      elim (Option-cases (get_elem? m.elements start)) [
        | inl out ↦ absurd (none_is_not_some (sym (probe-out m key (suc fuel) start out) ∙ e))
        | inr (b, at) ↦ elim (Bool-cases (stops b key)) [
          | inl here ↦
              let same : start ≡ j =
                some_injective (sym (probe-stop m key fuel start b at here) ∙ e) in
              probe-stop (store_elem m i new) key fuel start b
                (get_elem?-set_other m.elements i start new (λ x. ne (x ∙ same)) ∙ at) here
              ∙ ap some same
          | inr go ↦
              let rest =
                probe-store_other fuel (next m key start) j pass ne
                  (sym (probe-go m key fuel start b at go) ∙ e) in
              elim (ℕ_discrete i start) [
                | yes same ↦
                    probe-go (store_elem m i new) key fuel start new
                      (ap (λ x. get_elem? (set m.elements x new) start) same
                        ∙ get_elem?-set_self m.elements start new
                            (lt_of_get_elem? m.elements start b at))
                      (pass b (ap (get_elem? m.elements) same ∙ at) go)
                    ∙ rest
                | no other ↦
                    probe-go (store_elem m i new) key fuel start b
                      (get_elem?-set_other m.elements i start new other ∙ at) go
                    ∙ rest
              ]
        ]
      ]

pub stop_own_key : (k d : ℕ) → stops (record { content = d; key = k }) k ≡ true
stop_own_key k d = ground arith

-- An element that stops a lookup of `k` but not one of `j` holds `k`.
pub pass_key :
    (e : MapElem) (j k d : ℕ)
    → j ≢ k
    → d ≢ 0
    → stops e k ≡ true
    → stops e j ≡ false
    → stops (record { content = d; key = k }) j ≡ false
pass_key e j k d ne nz here pass = ground arith

pub stop_empty :
    (e : MapElem) (j k : ℕ) → j ≢ k → stops e k ≡ true → stops e j ≡ true → e.content ≡ 0
stop_empty e j k ne one two = ground arith

pub stop_full : (e : MapElem) (j : ℕ) → e.content ≢ 0 → stops e j ≡ true → e.key ≡ j
stop_full e j full stop = ground arith

pub stop_at_empty : (e : MapElem) (j : ℕ) → e.content ≡ 0 → stops e j ≡ true
stop_at_empty e j none_stored = ground arith
