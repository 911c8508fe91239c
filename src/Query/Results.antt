-- ===== src/Query/Results.antt =====
-- What `vkGetQueryPoolResults` of driver/query.c stores.
use rpi_vk_driver.Base.{
  ℕ, zero, suc, ◌+◌, ◌-◌, ◌*◌, ◌/◌, ◌%◌, ◌≤◌, ◌<◌, ◌≡◌, refl, ap, sym, subst, ◌∙◌, inl, inr, some,
  ltb, ◌==◌, false, ◌^◌, Bool-cases, arith,
}
use rpi_vk_driver.Query.{
  Query, Queries, put, put_self, put_other, read_perfmons, store_results, get_each,
  get_query_pool_results, load64,
}
use rpi_vk_driver.Memory.{Mem, SameOutside}
use rpi_vk_driver.Query.Stores.{store_results_lem, nothing_left}

-- What is left at each multiple of the stride is the kernel's value of that counter of the query, if the
-- query has it and its monitor counts it.
abbrev pub HoldsResults : (ℕ → ℕ) → (ℕ → ℕ → ℕ) → ℕ → ℕ → ℕ → Mem → Query → Type 0
HoldsResults counters reading buf size stride m q =
    (i : ℕ)
    → i * stride < size
    → i < q.num_enabled_counters
    → i % 16 < counters (q.perfmon_ids (i / 16))
    → load64 m (buf + i * stride) ≡ reading (q.perfmon_ids (i / 16)) (i % 16)

beyond : (d g r n : ℕ) → d ≡ 16 * g → ltb d n ≡ false → g ≤ r → 16 * r < n → ⊥
beyond d g r n at f le lt = let big : n ≤ d = ground (arith, f) in omega (arith, at, le, lt, big)

module _ {W : Type 0} (values : W → ℕ → (ℕ → ℕ) → (ℕ → ℕ) × W) where
  -- Once the jobs are done, the kernel gives for each of the counters of a monitor, whose number is
  -- `counters`, the same value whenever it is asked.
  abbrev pub IsSettled : (ℕ → ℕ) → (ℕ → ℕ → ℕ) → Type 0
  IsSettled counters reading =
      (w : W) (id : ℕ) (row : ℕ → ℕ) (j : ℕ)
      → j < counters id
      → (values w id row).0 j ≡ reading id j

  module _ (counters : ℕ → ℕ) (reading : ℕ → ℕ → ℕ) (settled : IsSettled counters reading) where
    -- The rows from `g` on have the values of their monitors, those before are what they were.
    abbrev Rows : ℕ → Query → Query → Type 0
    Rows g q q' =
        (q'.perfmon_ids ≡ q.perfmon_ids)
        × ((r : ℕ) → r < g → q'.counter_values r ≡ q.counter_values r)
        × ((r j : ℕ)
            → g ≤ r
            → 16 * r < q.num_enabled_counters
            → j < counters (q.perfmon_ids r)
            → q'.counter_values r j ≡ reading (q.perfmon_ids r) j)

    read_perfmons_lem :
        (fuel d g : ℕ) (q : Query) (w : W)
        → d ≡ 16 * g
        → q.num_enabled_counters < d + fuel
        → 1 ≤ fuel
        → (q' : Query) × (w' : W) × (read_perfmons values fuel d q w ≡ some (q', w')) × Rows g q q'
    unfolding read_perfmons
    read_perfmons_lem zero d g q w at enough more = elim (nothing_left more) [ ]
    read_perfmons_lem (suc fuel) d g q w at enough more =
        elim (Bool-cases (ltb d q.num_enabled_counters)) [
          | inr f ↦ rw f (
            q,
            w,
            refl,
            (
              refl,
              λ r _. refl,
              λ r j le lt. elim (beyond d g r q.num_enabled_counters at f le lt) [ ],
            ),
          )
          | inl t ↦
              let row : d / 16 ≡ g = omega (arith, at) in
              let (now, w1) = values w (q.perfmon_ids g) (q.counter_values g) in
              let next = record q { counter_values = put q.counter_values g now } in
              let (q', w', e, (ids, before, after)) =
                read_perfmons_lem fuel (d + 16) (suc g) next w1 (omega (arith, at))
                  (omega (arith, enough)) (ground (arith, enough, t)) in
              rw (t, row)
                (
                  q',
                  w',
                  e,
                  (
                    ids,
                    λ r lt.
                        before r (omega (arith, lt))
                        ∙ put_other q.counter_values g r now (omega (arith, lt)),
                    λ r j le lt known. elim (Bool-cases (r == g)) [
                      | inl same ↦
                          let here : g ≡ r = ground (arith, same) in
                          subst
                            (λ r.
                              j < counters (q.perfmon_ids r)
                              → q'.counter_values r j ≡ reading (q.perfmon_ids r) j)
                            here
                            (λ known.
                              ap (λ (f : ℕ → ℕ). f j)
                                (before g (omega arith) ∙ put_self q.counter_values g now)
                              ∙ settled w (q.perfmon_ids g) (q.counter_values g) j known)
                            known
                      | inr other ↦ after r j (ground (arith, le, other)) lt known
                    ],
                  ),
                )
        ]

    module _ (buf size stride : ℕ) (wide : 8 ≤ stride) (small : buf + size + stride < 2 ^ 32)
        (fits : (id j : ℕ) → reading id j < 2 ^ 64) where
      -- One turn of the loop over the queries.
      one_query :
          (q : Query) (m : Mem) (w : W)
          → (q' : Query) × (w' : W) × (m' : Mem) × (read_perfmons values
                (suc q.num_enabled_counters)
                0
                q
                w
              ≡ some (q', w'))
            × (store_results (suc size) buf size stride 0 0 q' m ≡ some m')
            × SameOutside buf (buf + size + 7) m m'
            × HoldsResults counters reading buf size stride m' q
      one_query q m w =
          let (q', w', e, (ids, before, after)) =
            read_perfmons_lem (suc q.num_enabled_counters) 0 0 q w refl (omega arith)
              (omega arith) in
          let (m', r, same, high) =
            store_results_lem (suc size) buf size stride 0 0 q' m wide small (omega arith)
              (omega arith) (omega arith) in
          (
            q',
            w',
            m',
            e,
            r,
            λ a away. same a (omega (arith, away)),
            λ i lt enabled known.
                let read = after (i / 16) (i % 16) (omega arith) (omega (arith, enabled)) known in
                high i (omega arith) lt
                  (subst (λ v. v < 2 ^ 64) (sym read) (fits (q.perfmon_ids (i / 16)) (i % 16)))
                ∙ read,
          )

      get_each_lem :
          (left c : ℕ) (qs : Queries) (m : Mem) (w : W)
          → (qs' : Queries) × (m' : Mem) × (w' : W) × (get_each values left c buf size stride qs m w
              ≡ some (qs', m', w'))
            × SameOutside buf (buf + size + 7) m m'
            × (1 ≤ left → HoldsResults counters reading buf size stride m' (qs (c + left - 1)))
      unfolding get_each
      get_each_lem zero c qs m w = (qs, m, w, refl, (λ a _. refl), λ h. elim (nothing_left h) [ ])
      get_each_lem (suc zero) c qs m w =
          let (q, w1, m1, e, r, same, holds) = one_query (qs c) m w in
          let this : c ≡ c + suc zero - 1 = omega arith in
          (
            put qs c q,
            m1,
            w1,
            rw (e, r) refl,
            same,
            λ _. subst (λ j. HoldsResults counters reading buf size stride m1 (qs j)) this holds,
          )
      get_each_lem (suc (suc left)) c qs m w =
          let (q, w1, m1, e, r, same1, holds) = one_query (qs c) m w in
          let (qs', m', w', rest, same2, others) =
            get_each_lem (suc left) (suc c) (put qs c q) m1 w1 in
          let same : suc c + suc left - 1 ≡ c + suc (suc left) - 1 = omega arith in
          let kept = put_other qs c (suc c + suc left - 1) q (omega arith) in
          let last : put qs c q (suc c + suc left - 1) ≡ qs (c + suc (suc left) - 1) =
            kept ∙ ap qs same in
          (
            qs',
            m',
            w',
            rw (e, r) rest,
            λ a away. same2 a away ∙ same1 a away,
            λ _.
                subst (HoldsResults counters reading buf size stride m') last
                  (others (omega arith)),
          )

      -- `vkGetQueryPoolResults` with a stride of at least the eight bytes of a result, where the
      -- addresses fit 32 bits, and the kernel gives each counter the same 64-bit value whenever it is
      -- asked. Where the first query is below the number of queries, it returns, and at each multiple of
      -- the stride the caller's memory has the value of that counter of the query just below the number:
      -- the caller has the results of that query alone, whatever the first one is. It writes nothing but
      -- the caller's bytes, and up to seven behind them. Where the first query is not below, nothing is
      -- read and nothing is stored.
      pub get_query_pool_results_cases :
          (first_query query_count : ℕ) (qs : Queries) (m : Mem) (w : W)
          → (first_query < query_count
              → (qs' : Queries) × (m' : Mem) × (w' : W) × (get_query_pool_results values first_query
                    query_count buf size stride qs m w
                  ≡ some (qs', m', w'))
                × SameOutside buf (buf + size + 7) m m'
                × HoldsResults counters reading buf size stride m' (qs (query_count - 1)))
            × (query_count ≤ first_query
                → get_query_pool_results values first_query query_count buf size stride qs m w
                  ≡ some (qs, m, w))
      unfolding get_query_pool_results get_each
      get_query_pool_results_cases first_query query_count qs m w = (
        λ lt.
            let (qs', m', w', e, same, holds) =
              get_each_lem (query_count - first_query) first_query qs m w in
            let last : first_query + (query_count - first_query) - 1 ≡ query_count - 1 =
              omega (arith, lt) in
            (
              qs',
              m',
              w',
              e,
              same,
              subst (λ j. HoldsResults counters reading buf size stride m' (qs j)) last
                  (holds (omega (arith, lt))),
            ),
        λ le.
            let none_left : query_count - first_query ≡ 0 = omega (arith, le) in rw none_left refl,
      )
