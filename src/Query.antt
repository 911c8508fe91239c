-- ===== src/Query.antt =====
-- driver/query.c: pools of performance queries, with the wrappers of the kernel's performance monitors
-- of driver/kernelInterface.c and the count of passes of driver/device.c. The ioctls are parameters
-- over a state `W` of the kernel and the hardware.
pub mod Monitors
pub mod Returned
pub mod Stores
pub mod Results
use rpi_vk_driver.Base.{
  ℕ, zero, suc, ◌+◌, ◌-◌, ◌*◌, ◌/◌, ◌%◌, ◌^◌, Option, none, some, List, [], ◌∷◌, ◌++◌, length,
  get_or, ltb, ◌==◌, if◌then◌else◌, ◌>>=◌, add32, ◌≡◌, ◌≢◌, refl, true, false, arith,
}
use rpi_vk_driver.Memory.{Mem, load32, store32}
use rpi_vk_driver.Command.{CommandBuffer}

-- `VK_QUERY_TYPE_...`
pub data QueryType : Type 0 where
  occlusion pipeline_statistics timestamp performance other : QueryType

-- `_query`
pub record Query : Type 0 where
  pub enabled_counters : ℕ → ℕ
  pub counter_values : ℕ → ℕ → ℕ
  pub num_enabled_counters : ℕ
  pub perfmon_ids : ℕ → ℕ

-- a store into an array
abbrev pub put {ℓ} : {A : Type ℓ} → (ℕ → A) → ℕ → A → ℕ → A
put f i a j = if j == i then a else f j

pub put_self {ℓ} : {A : Type ℓ} (f : ℕ → A) (i : ℕ) (a : A) → put f i a i ≡ a
put_self f i a = let e : (i == i) ≡ true = ground arith in rw e refl

pub put_other {ℓ} : {A : Type ℓ} (f : ℕ → A) (i j : ℕ) (a : A) → j ≢ i → put f i a j ≡ f j
put_other f i j a ne = let e : (j == i) ≡ false = ground (arith, ne) in rw e refl

-- the array of queries of a pool
abbrev pub Queries : Type 0
Queries = ℕ → Query

-- `n` words of an array from the index `d` on
abbrev pub words : (ℕ → ℕ) → ℕ → ℕ → List ℕ
words f d zero = []
words f d (suc n) = f d ∷ words f (suc d) n

-- `vkGetPhysicalDeviceQueueFamilyPerformanceQueryPassesKHR`
unfoldable pub get_passes : ℕ → ℕ
get_passes counter_index_count = counter_index_count / 16 + 1

-- the copy of the caller's indices into a query, `memcpy`
unfoldable pub set_counters : List ℕ → Query → Query
set_counters cs q = record q {
  num_enabled_counters = length cs;
  enabled_counters = λ i. if ltb i (length cs) then get_or cs i 0 else q.enabled_counters i;
}

-- `vc4_create_perfmon`; `create` is the ioctl that makes a monitor for a list of counters, none where it
-- fails.
unfoldable pub create_perfmon : {W : Type 0} → (W → List ℕ → Option ℕ × W) → W → List ℕ → ℕ × W
create_perfmon create w events =
    let (r, w') = create w events in (elim r [ none ↦ 0 | some id ↦ id ], w')

-- `behind` has the words of the structure that come after the 30 of `enabledCounters`, by the same
-- index.
module _ {W : Type 0} (create : W → List ℕ → Option ℕ × W) (behind : ℕ → ℕ) where
  -- what a read at an index of `enabledCounters` finds
  abbrev pub counter_at : Query → ℕ → ℕ
  counter_at q i = if ltb i 30 then q.enabled_counters i else behind i

  -- the loop of `vkCreateQueryPool` over the counters of a query, sixteen at a time
  unfoldable pub create_perfmons : ℕ → ℕ → Query → W → Option (Query × W)
  create_perfmons zero d q w = none
  create_perfmons (suc fuel) d q w =
      let n = q.num_enabled_counters in
      let (id, w') =
        create_perfmon create w (words (counter_at q) d (if ltb 16 n then 16 else n)) in
      let next = record q {
        perfmon_ids = put q.perfmon_ids (d / 16) id;
        counter_values = put q.counter_values (d / 16) (λ _. 0);
      } in
      let rest = create_perfmons fuel (d + 16) next w' in if ltb d n then rest else some (q, w)

  -- the loop over the queries, with `left` of them to go
  unfoldable pub create_queries : ℕ → ℕ → List ℕ → Queries → W → Option (Queries × W)
  create_queries zero c cs qs w = some (qs, w)
  create_queries (suc left) c cs qs w =
      create_perfmons (suc (length cs)) 0 (set_counters cs (qs c)) w >>= λ (q, w').
      create_queries left (suc c) cs (put qs c q) w'

  -- `vkCreateQueryPool`, into the memory `qs`: the pool that the caller gets, if it gets one
  unfoldable pub create_query_pool :
      QueryType → ℕ → List ℕ → Queries → W → Option (Option Queries × W)
  create_query_pool QueryType.performance query_count cs qs w =
      create_queries query_count 0 cs qs w >>= λ (qs', w'). some (some qs', w')
  create_query_pool _ query_count cs qs w = some (none, w)

-- the loop of `vkDestroyQueryPool` over the monitors of a query: the numbers that it gives to
-- `vc4_destroy_perfmon`, in order
unfoldable pub destroy_perfmons : ℕ → ℕ → Query → Option (List ℕ)
destroy_perfmons zero d q = none
destroy_perfmons (suc fuel) d q =
    let rest = destroy_perfmons fuel (d + 16) q in
    if ltb d q.num_enabled_counters
    then (rest >>= λ ids. some (q.perfmon_ids (d / 16) ∷ ids))
    else some []

-- `vkDestroyQueryPool`, with `left` queries to go
unfoldable pub destroy_query_pool : ℕ → ℕ → Queries → Option (List ℕ)
destroy_query_pool zero c qs = some []
destroy_query_pool (suc left) c qs =
    destroy_perfmons (suc (qs c).num_enabled_counters) 0 (qs c) >>= λ ids.
    destroy_query_pool left (suc c) qs >>= λ more. some (ids ++ more)

-- the size of a `_query` and the place of `perfmonIDs` in it, on a 32-bit target
abbrev pub query_size : ℕ
query_size = 392

abbrev pub perfmon_ids_offset : ℕ
perfmon_ids_offset = 380

-- `vkCmdBeginQuery`, with the address of the array of queries
unfoldable pub begin_query : ℕ → ℕ → CommandBuffer → CommandBuffer
begin_query queries query cb = record cb {
  perfmon_id = add32 queries (query * query_size + perfmon_ids_offset);
}

-- `vkCmdEndQuery`
unfoldable pub end_query : CommandBuffer → CommandBuffer
end_query cb = record cb { perfmon_id = 0 }

-- `*(uint64_t*)p = v`
unfoldable pub store64 : Mem → ℕ → ℕ → Mem
store64 m p v = store32 (store32 m p (v % 2 ^ 32)) (p + 4) (v / 2 ^ 32 % 2 ^ 32)

-- `*(uint64_t*)p`
unfoldable pub load64 : Mem → ℕ → ℕ
load64 m p = load32 m p + load32 m (p + 4) * 2 ^ 32

-- the second inner loop of `vkGetQueryPoolResults`, from the offset `d` of the caller's memory at `buf`
-- on: each result is eight bytes, whatever the stride is, also where they go past `data_size`.
unfoldable pub store_results : (fuel buf data_size stride : ℕ) → ℕ → ℕ → Query → Mem → Option Mem
store_results zero buf data_size stride d counter q m = none
store_results (suc fuel) buf data_size stride d counter q m =
    let m' = store64 m (add32 buf d) (q.counter_values (counter / 16) (counter % 16)) in
    let rest = store_results fuel buf data_size stride (add32 d stride) (suc counter) q m' in
    if ltb d data_size then rest else some m

-- `values` is the ioctl that reads a monitor into a row of counters: the row that it leaves.
module _ {W : Type 0} (values : W → ℕ → (ℕ → ℕ) → (ℕ → ℕ) × W) where
  -- the first inner loop of `vkGetQueryPoolResults`
  unfoldable pub read_perfmons : ℕ → ℕ → Query → W → Option (Query × W)
  read_perfmons zero d q w = none
  read_perfmons (suc fuel) d q w =
      let (row, w') = values w (q.perfmon_ids (d / 16)) (q.counter_values (d / 16)) in
      let next = record q { counter_values = put q.counter_values (d / 16) row } in
      let rest = read_perfmons fuel (d + 16) next w' in
      if ltb d q.num_enabled_counters then rest else some (q, w)

  -- the loop over the queries, with `left` of them to go
  unfoldable pub get_each :
      (left c buf data_size stride : ℕ) → Queries → Mem → W → Option (Queries × Mem × W)
  get_each zero c buf data_size stride qs m w = some (qs, m, w)
  get_each (suc left) c buf data_size stride qs m w =
      read_perfmons (suc (qs c).num_enabled_counters) 0 (qs c) w >>= λ (q, w').
      store_results (suc data_size) buf data_size stride 0 0 q m >>= λ m'.
      get_each left (suc c) buf data_size stride (put qs c q) m' w'

  -- `vkGetQueryPoolResults`: the counter of its loop starts at the first query and ends at the
  -- number of queries.
  unfoldable pub get_query_pool_results :
      (first_query query_count buf data_size stride : ℕ)
      → Queries
      → Mem
      → W
      → Option (Queries × Mem × W)
  get_query_pool_results first_query query_count buf data_size stride qs m w =
      get_each (query_count - first_query) first_query buf data_size stride qs m w
