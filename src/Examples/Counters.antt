-- ===== src/Examples/Counters.antt =====
-- Pools of three queries for twenty counters, under a kernel that numbers its monitors.
use rpi_vk_driver.Base.{
  ℕ, suc, ◌+◌, ◌*◌, ◌^◌, ◌%◌, ◌≤◌, ◌<◌, ◌≡◌, ◌≢◌, refl, Option, some, List, [], ◌∷◌, length, ltb,
  true, if◌then◌else◌, arith,
}
use rpi_vk_driver.Memory.{Mem, SameOutside}
use rpi_vk_driver.Query.{
  Query, QueryType, Queries, create_query_pool, destroy_query_pool, get_passes,
  get_query_pool_results,
}
use rpi_vk_driver.Query.Monitors.{asked, asked_each, junk_of, obtain}
use rpi_vk_driver.Query.Returned.{create-destroy}
use rpi_vk_driver.Query.Results.{HoldsResults, IsSettled, get_query_pool_results_cases}

-- The state is the next number.
abbrev create : ℕ → List ℕ → Option ℕ × ℕ
create w events = (some w, suc w)

abbrev behind : ℕ → ℕ
behind i = 0

abbrev twenty : List ℕ
twenty =
    29 ∷ 28 ∷ 27 ∷ 26 ∷ 25 ∷ 24 ∷ 23 ∷ 22 ∷ 21 ∷ 20 ∷ 9 ∷ 8 ∷ 7 ∷ 6 ∷ 5 ∷ 4 ∷ 3 ∷ 2 ∷ 1 ∷ 0 ∷ []

abbrev blank : Queries
blank c = record {
  enabled_counters = λ i. 0;
  counter_values = λ r j. 0;
  num_enabled_counters = 0;
  perfmon_ids = λ r. 0;
}

create-destroy_example :
    let plan = asked_each behind 3 0 twenty blank in
    ((qs' : Queries) × (create_query_pool create behind QueryType.performance 3 twenty blank 1
        ≡ some (some qs', (obtain create 1 plan).1))
      × (destroy_query_pool 3 0 qs' ≡ some (obtain create 1 plan).0))
    × (length twenty % 16 ≢ 0
        → (c : ℕ) → length (asked twenty (junk_of behind (blank c))) ≡ get_passes (length twenty))
create-destroy_example = create-destroy create behind twenty 3 blank 1 (omega arith)

-- Six monitors are made, and the second one of a query is asked for sixteen counters.
six_monitors : (obtain create 1 (asked_each behind 3 0 twenty blank)).1 ≡ 7
unfolding rpi_vk_driver.Query.create_perfmon
six_monitors = refl

-- A 64-bit kernel: the value is cut to 64 bits.
abbrev reading : ℕ → ℕ → ℕ
reading id j = (id * 100 + j) % 2 ^ 64

reading_fits : (id j : ℕ) → reading id j < 2 ^ 64
reading_fits id j = omega arith

abbrev values : ℕ → ℕ → (ℕ → ℕ) → (ℕ → ℕ) × ℕ
values w id row = (λ j. if ltb j 16 then reading id j else row j, w)

values-IsSettled : IsSettled values (λ id. 16) reading
values-IsSettled w id row j lt = let small : ltb j 16 ≡ true = ground (arith, lt) in rw small refl

abbrev filled : Queries
filled c = record {
  enabled_counters = λ i. i;
  counter_values = λ r j. 0;
  num_enabled_counters = 20;
  perfmon_ids = λ r. 2 * c + r + 1;
}

abbrev data_mem : Mem
data_mem a = 0

get_query_pool_results_cases_example :
    (1 < 3
      → (qs' : Queries) × (m' : Mem) × (w' : ℕ) × (get_query_pool_results values 1 3 4096 160 8
            filled data_mem 7
          ≡ some (qs', m', w'))
        × SameOutside 4096 (4096 + 160 + 7) data_mem m'
        × HoldsResults (λ id. 16) reading 4096 160 8 m' (filled 2))
    × (3 ≤ 1
        → get_query_pool_results values 1 3 4096 160 8 filled data_mem 7
          ≡ some (filled, data_mem, 7))
get_query_pool_results_cases_example =
    get_query_pool_results_cases values (λ id. 16) reading values-IsSettled 4096 160 8 (omega arith)
      (omega arith) reading_fits 1 3 filled data_mem 7
