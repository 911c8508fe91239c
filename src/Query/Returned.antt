-- ===== src/Query/Returned.antt =====
-- What `vkDestroyQueryPool` of driver/query.c destroys after `vkCreateQueryPool`.
use rpi_vk_driver.Base.{
  ℕ, zero, suc, ◌+◌, ◌-◌, ◌/◌, ◌%◌, ◌≤◌, ◌<◌, ◌≡◌, ◌≢◌, refl, ap, ap₂, subst, ◌∙◌, inl, inr, Option,
  some, List, [], ◌∷◌, ◌++◌, length, ltb, leb, ◌==◌, true, false, Bool-cases, arith,
}
use rpi_vk_driver.Query.{
  Query, QueryType, Queries, put, put_self, put_other, get_passes, create_perfmon, create_perfmons,
  create_queries, create_query_pool, destroy_perfmons, destroy_query_pool,
}
use rpi_vk_driver.Query.Monitors.{
  asked, junk_of, obtain, asked_each, with_perfmon, create_step, create_stop, started, started-num,
  words_few, words_many,
}

destroy_step :
    (fuel d : ℕ) (q : Query) (ids : List ℕ)
    → d < q.num_enabled_counters
    → destroy_perfmons fuel (d + 16) q ≡ some ids
    → destroy_perfmons (suc fuel) d q ≡ some (q.perfmon_ids (d / 16) ∷ ids)
unfolding destroy_perfmons
destroy_step fuel d q ids lt e =
    let b : ltb d q.num_enabled_counters ≡ true = ground (arith, lt) in rw (b, e) refl

destroy_stop :
    (fuel d : ℕ) (q : Query)
    → q.num_enabled_counters ≤ d
    → destroy_perfmons (suc fuel) d q ≡ some []
unfolding destroy_perfmons
destroy_stop fuel d q le =
    let b : ltb d q.num_enabled_counters ≡ false = ground (arith, le) in rw b refl

-- Creation has called the kernel for the lists, and destruction names the numbers that it got.
abbrev Owns :
    {W : Type 0} → (create : W → List ℕ → Option ℕ × W) → (ℕ → ℕ) → List ℕ → Query → W → ℕ → Type 0
Owns {W} create behind cs old w fuel =
    let plan = asked cs (junk_of behind old) in
    (q : Query) × (create_perfmons create behind fuel 0 (started create behind cs old w) w
      ≡ some (q, (obtain create w plan).1))
    × (q.num_enabled_counters ≡ length cs)
    × (destroy_perfmons fuel 0 q ≡ some (obtain create w plan).0)

module _ {W : Type 0} (create : W → List ℕ → Option ℕ × W) (behind : ℕ → ℕ) (cs : List ℕ)
    (old : Query) (w : W) where
  Owns-none : (k : ℕ) → length cs ≡ 0 → Owns create behind cs old w (suc k)
  Owns-none k e =
      let n = started-num create behind cs old w in
      let b : (length cs == 0) ≡ true = ground (arith, e) in
      rw b (
        started create behind cs old w,
        create_stop create behind k 0 _ w (omega (arith, n, e)),
        n,
        destroy_stop k 0 _ (omega (arith, n, e)),
      )

  Owns-few : (k : ℕ) → 0 < length cs → length cs ≤ 16 → Owns create behind cs old w (suc (suc k))
  Owns-few k lt le =
      let n = started-num create behind cs old w in
      let b : (length cs == 0) ≡ false = ground (arith, lt) in
      let c : leb (length cs) 16 ≡ true = ground (arith, le) in
      let words = words_few create behind cs old w lt le in
      rw (b, c)
        (
          with_perfmon create behind 0 _ (started create behind cs old w),
          create_step create behind (suc k) 0 _ w cs (omega (arith, n, lt)) words
              ∙ create_stop create behind k 16 _ _ (omega (arith, n, le)),
          n,
          destroy_step (suc k) 0 _ [] (omega (arith, n, lt))
              (destroy_stop k 16 _ (omega (arith, n, le))),
        )

  Owns-many :
      (k : ℕ) → 16 < length cs → length cs ≤ 30 → Owns create behind cs old w (suc (suc (suc k)))
  Owns-many k lt le =
      let n = started-num create behind cs old w in
      let b : (length cs == 0) ≡ false = ground (arith, lt) in
      let c : leb (length cs) 16 ≡ false = ground (arith, lt) in
      let first = words_many create behind cs old w 0 lt le in
      let second = words_many create behind cs old w 16 lt le in
      rw (b, c)
        (
          with_perfmon create behind 16 _
              (with_perfmon create behind 0 _ (started create behind cs old w)),
          create_step create behind (suc (suc k)) 0 _ w _ (omega (arith, n, lt)) first
              ∙ create_step create behind (suc k) 16 _ _ _ (omega (arith, n, lt)) second
              ∙ create_stop create behind k 32 _ _ (omega (arith, n, le)),
          n,
          destroy_step (suc (suc k)) 0 _ _ (omega (arith, n, lt)) (
              destroy_step (suc k) 16 _ [] (omega (arith, n, lt))
                (destroy_stop k 32 _ (omega (arith, n, le)))),
        )

  owns : length cs ≤ 30 → Owns create behind cs old w (suc (length cs))
  owns le = elim (Bool-cases (length cs == 0)) [
    | inl z ↦ Owns-none (length cs) (ground (arith, z))
    | inr nz ↦ elim (Bool-cases (leb (length cs) 16)) [
      | inl few ↦
          let e : suc (length cs - 1) ≡ length cs = ground (arith, nz) in
          subst (λ f. Owns create behind cs old w (suc f)) e
            (Owns-few (length cs - 1) (ground (arith, nz)) (ground (arith, few)))
      | inr many ↦
          let e : suc (suc (length cs - 2)) ≡ length cs = ground (arith, many) in
          subst (λ f. Owns create behind cs old w (suc f)) e
            (Owns-many (length cs - 2) (ground (arith, many)) le)
    ]
  ]

few_lt : (n : ℕ) → leb n 16 ≡ true → n % 16 ≢ 0 → n < 16
few_lt n few uneven = elim (Bool-cases (n == 16)) [
  | inl e ↦ elim (uneven (let f : n ≡ 16 = ground (arith, e) in rw f refl)) [ ]
  | inr ne ↦ ground (arith, few, ne)
]

many_lt : (n : ℕ) → leb n 16 ≡ false → 16 < n
many_lt n many = ground (arith, many)

-- the lists of counters for a query, and the passes
asked-passes :
    (cs : List ℕ) (junk : ℕ → ℕ)
    → length cs ≤ 30
    → length cs % 16 ≢ 0
    → length (asked cs junk) ≡ length cs / 16 + 1
asked-passes cs junk le uneven = elim (Bool-cases (length cs == 0)) [
  | inl z ↦ elim (uneven (let e : length cs ≡ 0 = ground (arith, z) in rw e refl)) [ ]
  | inr nz ↦ rw nz (elim (Bool-cases (leb (length cs) 16)) [
    | inl few ↦ rw few (omega (arith, few_lt (length cs) few uneven))
    | inr many ↦ rw many (omega (arith, le, many_lt (length cs) many))
  ])
]

module _ {W : Type 0} (create : W → List ℕ → Option ℕ × W) (behind : ℕ → ℕ) where
  obtain-append :
      (w : W) (xs ys : List (List ℕ))
      → obtain create w (xs ++ ys) ≡ (
        (obtain create w xs).0 ++ (obtain create (obtain create w xs).1 ys).0,
        (obtain create (obtain create w xs).1 ys).1,
      )
  obtain-append w [] ys = refl
  obtain-append w (x ∷ xs) ys = rw (obtain-append (create_perfmon create w x).1 xs ys) refl

  asked_each_ext :
      (left c : ℕ) (cs : List ℕ) (qs qs' : Queries)
      → ((j : ℕ) → c ≤ j → qs j ≡ qs' j)
      → asked_each behind left c cs qs ≡ asked_each behind left c cs qs'
  asked_each_ext zero c cs qs qs' h = refl
  asked_each_ext (suc left) c cs qs qs' h =
      ap₂ (λ (q : Query) more. asked cs (junk_of behind q) ++ more) (h c (omega arith))
        (asked_each_ext left (suc c) cs qs qs' (λ j le. h j (omega (arith, le))))

  -- The pool made from `c` on has the monitors for its lists, and their destruction names them.
  abbrev Returned : List ℕ → ℕ → ℕ → Queries → W → Type 0
  Returned cs left c qs w =
      let made = obtain create w (asked_each behind left c cs qs) in
      (qs' : Queries) × (create_queries create behind left c cs qs w ≡ some (qs', made.1))
      × (destroy_query_pool left c qs' ≡ some made.0)
      × ((j : ℕ) → j < c → qs' j ≡ qs j)

  returned :
      (cs : List ℕ) → length cs ≤ 30 → (left c : ℕ) (qs : Queries) (w : W) → Returned cs left c qs w
  unfolding create_queries destroy_query_pool
  returned cs le zero c qs w = (qs, refl, refl, λ j _. refl)
  returned cs le (suc left) c qs w =
      let (q, made, n, gone) = owns create behind cs (qs c) w le in
      let w' = (obtain create w (asked cs (junk_of behind (qs c)))).1 in
      let (qs', rest, more, same) = returned cs le left (suc c) (put qs c q) w' in
      let ext =
        asked_each_ext left (suc c) cs (put qs c q) qs
          (λ j below. put_other qs c j q (omega (arith, below))) in
      let keep : qs' c ≡ q = same c (omega arith) ∙ put_self qs c q in
      let split =
        obtain-append w (asked cs (junk_of behind (qs c))) (asked_each behind left (suc c) cs qs) in
      (
        qs',
        rw (made, split) (rest ∙ ap (λ l. some (qs', (obtain create w' l).1)) ext),
        rw (keep, n, gone, more, ext, split) refl,
        λ j below. same j (omega (arith, below)) ∙ put_other qs c j q (omega (arith, below)),
      )

  -- `vkCreateQueryPool` of `count` queries for the same counters, of which there are at most 30, makes
  -- a pool. `vc4_create_perfmon` is called for the lists of `asked_each`, in order: for
  -- one to sixteen counters the caller's list once for each query, for more two lists of sixteen, the
  -- second with words from behind the last counter.
  -- `vkDestroyQueryPool` of the pool then calls `vc4_destroy_perfmon` once for each of the numbers that
  -- `vc4_create_perfmon` returned, in the order that they came; these include the 0 that stands for a
  -- monitor that the kernel did not make, which an assert of `vc4_destroy_perfmon` excludes. If sixteen
  -- does not divide the number of counters, the passes that the device reports are as many as the
  -- lists for a query.
  pub create-destroy :
      (cs : List ℕ) (count : ℕ) (qs : Queries) (w : W)
      → length cs ≤ 30
      → let plan = asked_each behind count 0 cs qs in
        ((qs' : Queries) × (create_query_pool create behind QueryType.performance count cs qs w
            ≡ some (some qs', (obtain create w plan).1))
          × (destroy_query_pool count 0 qs' ≡ some (obtain create w plan).0))
        × (length cs % 16 ≢ 0
            → (c : ℕ) → length (asked cs (junk_of behind (qs c))) ≡ get_passes (length cs))
  unfolding create_query_pool get_passes
  create-destroy cs count qs w le =
      let (qs', made, gone, _) = returned cs le count 0 qs w in
      ((qs', rw made refl, gone), λ uneven c. asked-passes cs (junk_of behind (qs c)) le uneven)
