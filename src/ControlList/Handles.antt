-- ===== src/ControlList/Handles.antt =====
-- The handle table that `clGetHandleIndex` of driver/ControlListUtil.c keeps.
use rpi_vk_driver.Base.{
  ℕ, zero, suc, ◌+◌, ◌*◌, ◌^◌, ◌<◌, ◌≡◌, refl, sym, ap, ◌∙◌, subst, ◌⊎◌, inl, inr, Option-cases,
  Bool-cases, none, some, some_injective, none_is_not_some, ◌==◌, arith, add32, true, false,
}
use rpi_vk_driver.Memory.{Mem, load32, store32, load32-store32_self, load32-store32_apart}
use rpi_vk_driver.ControlList.{ControlList, next_ptr, advance, put32}
use rpi_vk_driver.ControlList.Records.{find_handle, num_handles, get_handle_index}

module _ (m : Mem) (base handle : ℕ) where
  find_handle-hit :
      (left c : ℕ)
      → load32 m (add32 base (4 * c)) ≡ handle
      → find_handle m base handle (suc left) c ≡ some c
  unfolding find_handle
  find_handle-hit left c at =
      let e : (load32 m (add32 base (4 * c)) == handle) ≡ true = ground arith in rw e

  find_handle-miss :
      (left c : ℕ)
      → (load32 m (add32 base (4 * c)) == handle) ≡ false
      → find_handle m base handle (suc left) c ≡ find_handle m base handle left (c + 1)
  unfolding find_handle
  find_handle-miss left c other = rw other

  find_handle-zero : (c : ℕ) → find_handle m base handle zero c ≡ none
  unfolding find_handle
  find_handle-zero c = refl

  -- The loop ends at an entry that holds the handle.
  pub find_handle-found :
      (left c i : ℕ)
      → find_handle m base handle left c ≡ some i
      → (load32 m (add32 base (4 * i)) ≡ handle) × (i < c + left)
  find_handle-found zero c i e = absurd (none_is_not_some (sym (find_handle-zero c) ∙ e))
  find_handle-found (suc left) c i e = elim (Bool-cases (load32 m (add32 base (4 * c)) == handle)) [
    | inl same ↦
        let at : load32 m (add32 base (4 * c)) ≡ handle = ground arith in
        let here : c ≡ i = some_injective (sym (find_handle-hit left c at) ∙ e) in
        (subst (λ x. load32 m (add32 base (4 * x)) ≡ handle) here at, omega arith)
    | inr other ↦
        let rest = find_handle-found left (c + 1) i (sym (find_handle-miss left c other) ∙ e) in
        (rest.0, omega (arith, rest.1))
  ]

-- A handle that the loop did not find, appended: the loop finds it there.
find_handle-append :
    (m m' : Mem) (base handle left c : ℕ)
    → find_handle m base handle left c ≡ none
    → ((j : ℕ) → j < c + left → load32 m' (add32 base (4 * j)) ≡ load32 m (add32 base (4 * j)))
    → load32 m' (add32 base (4 * (c + left))) ≡ handle
    → find_handle m' base handle (suc left) c ≡ some (c + left)
find_handle-append m m' base handle zero c e same at =
    subst (λ x. find_handle m' base handle 1 c ≡ some x) (omega arith)
      (find_handle-hit m' base handle zero c
        (ap (λ x. load32 m' (add32 base (4 * x))) (omega arith) ∙ at))
find_handle-append m m' base handle (suc left) c e same at =
    elim (Bool-cases (load32 m (add32 base (4 * c)) == handle)) [
      | inl hit ↦
          absurd (none_is_not_some (sym e ∙ find_handle-hit m base handle left c (ground arith)))
      | inr other ↦
          let away : (load32 m' (add32 base (4 * c)) == handle) ≡ false =
            ap (λ x. x == handle) (same c (omega arith)) ∙ other in
          find_handle-miss m' base handle (suc left) c away
          ∙ find_handle-append m m' base handle left (c + 1)
              (sym (find_handle-miss m base handle left c other) ∙ e) (λ j h. same j (omega arith))
              (ap (λ x. load32 m' (add32 base (4 * x))) (omega arith) ∙ at)
          ∙ ap some (omega arith)
    ]

-- The table from `start` on is `n` whole entries, up to the next free byte, and one more fits the
-- memory.
pub record IsTable (cl : ControlList) (start n : ℕ) : Type 0 where
  pub whole : cl.next_free_byte_offset ≡ start + 4 * n
  pub in_memory : cl.cpa + cl.next_free_byte_offset + 4 < 2 ^ 32

num_handles-open :
    (cl : ControlList) (start n : ℕ) → IsTable cl start n → num_handles cl start 0 ≡ n
unfolding num_handles
num_handles-open cl start n t = omega (arith, t.whole, t.in_memory)

module _ (m : Mem) (cl : ControlList) (start n handle : ℕ) (table : IsTable cl start n) where
  get_handle_index-hit :
      (i : ℕ)
      → find_handle m (add32 cl.cpa start) handle n 0 ≡ some i
      → get_handle_index (m, cl) start 0 handle ≡ (i, (m, cl))
  unfolding get_handle_index
  get_handle_index-hit i e = rw (get_handle_index, num_handles-open cl start n table, e)

  get_handle_index-miss :
      find_handle m (add32 cl.cpa start) handle n 0 ≡ none
      → get_handle_index (m, cl) start 0 handle ≡ (n, put32 handle (m, cl))
  unfolding get_handle_index
  get_handle_index-miss e =
      rw (get_handle_index, num_handles-open cl start n table, e)
        (ap (λ x. (x, put32 handle (m, cl))) (num_handles-open cl start n table))

  -- entry `j`, before the append and after it
  entry-append :
      (j : ℕ)
      → j < n
      → load32 (put32 handle (m, cl)).0 (add32 (add32 cl.cpa start) (4 * j))
        ≡ load32 m (add32 (add32 cl.cpa start) (4 * j))
  unfolding put32
  entry-append j below =
      load32-store32_apart m (next_ptr cl) handle (add32 (add32 cl.cpa start) (4 * j))
        (inr (omega (arith, table.whole, table.in_memory)))

  entry-last :
      handle < 2 ^ 32
      → load32 (put32 handle (m, cl)).0 (add32 (add32 cl.cpa start) (4 * n)) ≡ handle
  unfolding put32
  entry-last small =
      ap (λ x. load32 (store32 m (next_ptr cl) handle) x)
        (omega (arith, table.whole, table.in_memory))
      ∙ load32-store32_self m (next_ptr cl) handle small

  again :
      find_handle m (add32 cl.cpa start) handle n 0 ≡ none
      → handle < 2 ^ 32
      → cl.cpa + cl.next_free_byte_offset + 8 < 2 ^ 32
      → get_handle_index (put32 handle (m, cl)) start 0 handle ≡ (n, put32 handle (m, cl))
  unfolding get_handle_index put32
  again none_there small room =
      let next_table : num_handles (advance cl 4) start 0 ≡ suc n =
        num_handles-open (advance cl 4) start (suc n) (record {
          whole = omega (arith, table.whole, table.in_memory, room);
          in_memory = omega (arith, room);
        }) in
      let finds =
        find_handle-append m (put32 handle (m, cl)).0 (add32 cl.cpa start) handle n 0 none_there
          (λ j below. entry-append j (omega arith))
          (ap (λ x. load32 (put32 handle (m, cl)).0 (add32 (add32 cl.cpa start) (4 * x)))
              (omega arith)
            ∙ entry-last small) in
      rw (get_handle_index, next_table, finds)
        (ap (λ (x : ℕ). (x, put32 handle (m, cl))) (omega arith))

  -- Where the open segment of the handle table begins at `start` and has `n` entries:
  -- `clGetHandleIndex` returns the index of an entry that holds the handle. The entries that were
  -- there stay as they are, at most one is appended, and a second call for the same handle returns
  -- the same index and changes nothing.
  pub get_handle_index-lookup :
      handle < 2 ^ 32
      → let (i, (m', cl')) = get_handle_index (m, cl) start 0 handle in
        (load32 m' (add32 (add32 cl.cpa start) (4 * i)) ≡ handle)
        × ((j : ℕ)
            → j < n
            → load32 m' (add32 (add32 cl.cpa start) (4 * j))
              ≡ load32 m (add32 (add32 cl.cpa start) (4 * j)))
        × ((cl' ≡ cl) × (i < n) ⊎ (cl' ≡ advance cl 4) × (i ≡ n))
        × (cl.cpa + cl.next_free_byte_offset + 8 < 2 ^ 32
            → get_handle_index (m', cl') start 0 handle ≡ (i, (m', cl')))
  unfolding put32
  get_handle_index-lookup small =
      let base = add32 cl.cpa start in
      elim (Option-cases (find_handle m base handle n 0)) [
        | inr (i, e) ↦
            let hit = get_handle_index-hit i e in
            let found = find_handle-found m base handle n 0 i e in
            rw hit (found.0, (λ j below. refl), inl (refl, omega (arith, found.1)), (λ room. hit))
        | inl none_there ↦
            let miss = get_handle_index-miss none_there in
            rw miss (
              entry-last small,
              entry-append,
              inr (refl, refl),
              λ room. again none_there small room,
            )
      ]
