-- ===== src/Query/Monitors.antt =====
-- The performance monitors that `vkCreateQueryPool` and `vkDestroyQueryPool` of driver/query.c make and
-- destroy.
use rpi_vk_driver.Base.{
  ℕ, zero, suc, ◌+◌, ◌/◌, ◌≤◌, ◌<◌, ◌≡◌, refl, ap, ap₂, ◌∙◌, inl, inr, Option, some, List, [], ◌∷◌,
  ◌++◌, length, get_or, ltb, leb, ◌==◌, if◌then◌else◌, true, false, Bool-cases, arith,
}
use rpi_vk_driver.Query.{Query, Queries, put, words, set_counters, create_perfmon, create_perfmons}

-- The counter at an index: the caller's, or what memory has behind them.
abbrev pub counter_or : List ℕ → (ℕ → ℕ) → ℕ → ℕ
counter_or cs junk i = if ltb i (length cs) then get_or cs i 0 else junk i

-- The lists of counters that a query's monitors are made for. Up to sixteen counters are one list;
-- more are two lists of sixteen, the second with words from behind the last counter.
abbrev pub asked : List ℕ → (ℕ → ℕ) → List (List ℕ)
asked cs junk =
    if length cs == 0
    then []
    else if leb (length cs) 16
    then cs ∷ []
    else words (counter_or cs junk) 0 16 ∷ words (counter_or cs junk) 16 16 ∷ []

-- What the words behind a query's counters are: the rest of its array, then what follows it.
abbrev pub junk_of : (ℕ → ℕ) → Query → ℕ → ℕ
junk_of behind old i = if ltb i 30 then old.enabled_counters i else behind i

words_ext : (f g : ℕ → ℕ) (d n : ℕ) → ((i : ℕ) → i < d + n → f i ≡ g i) → words f d n ≡ words g d n
words_ext f g d zero h = refl
words_ext f g d (suc n) h =
    ap₂ ◌∷◌ (h d (omega arith)) (words_ext f g (suc d) n (λ i lt. h i (omega (arith, lt))))

words_all :
    (f : ℕ → ℕ) (d : ℕ) (cs : List ℕ)
    → ((i : ℕ) → i < length cs → f (d + i) ≡ get_or cs i 0)
    → words f d (length cs) ≡ cs
words_all f d [] h = refl
words_all f d (x ∷ cs) h = ap₂ ◌∷◌ (let z : d ≡ d + 0 = omega arith in ap f z ∙ h 0 (omega arith)) (
    words_all f (suc d) cs (λ i lt.
      let e : suc d + i ≡ d + suc i = omega arith in ap f e ∙ h (suc i) (omega (arith, lt))))

-- What `vc4_create_perfmon` returns for the lists in turn: 0 where the kernel makes no monitor.
abbrev pub obtain : {W : Type 0} → (W → List ℕ → Option ℕ × W) → W → List (List ℕ) → List ℕ × W
obtain create w [] = ([], w)
obtain create w (es ∷ ess) =
    let (id, w') = create_perfmon create w es in
    let (ids, w'') = obtain create w' ess in (id ∷ ids, w'')

-- The lists for `left` queries from the index `c` on.
abbrev pub asked_each : (ℕ → ℕ) → ℕ → ℕ → List ℕ → Queries → List (List ℕ)
asked_each behind zero c cs qs = []
asked_each behind (suc left) c cs qs =
    asked cs (junk_of behind (qs c)) ++ asked_each behind left (suc c) cs qs

module _ {W : Type 0} (create : W → List ℕ → Option ℕ × W) (behind : ℕ → ℕ) where
  -- the query with the monitor of one round
  abbrev pub with_perfmon : ℕ → ℕ → Query → Query
  with_perfmon d id q = record q {
    perfmon_ids = put q.perfmon_ids (d / 16) id;
    counter_values = put q.counter_values (d / 16) (λ _. 0);
  }

  pub create_step :
      (fuel d : ℕ) (q : Query) (w : W) (es : List ℕ)
      → d < q.num_enabled_counters
      → words
          (λ i. if ltb i 30 then q.enabled_counters i else behind i)
          d
          (if ltb 16 q.num_enabled_counters then 16 else q.num_enabled_counters)
        ≡ es
      → let (id, w') = create_perfmon create w es in
        create_perfmons create behind (suc fuel) d q w
        ≡ create_perfmons create behind fuel (d + 16) (with_perfmon d id q) w'
  unfolding create_perfmons
  create_step fuel d q w es lt e =
      let b : ltb d q.num_enabled_counters ≡ true = ground (arith, lt) in rw (b, e) refl

  pub create_stop :
      (fuel d : ℕ) (q : Query) (w : W)
      → q.num_enabled_counters ≤ d
      → create_perfmons create behind (suc fuel) d q w ≡ some (q, w)
  unfolding create_perfmons
  create_stop fuel d q w le =
      let b : ltb d q.num_enabled_counters ≡ false = ground (arith, le) in rw b refl

  -- a query that may hold any counters
  module _ (cs : List ℕ) (old : Query) (w : W) where
    abbrev pub started : Query
    started = set_counters cs old

    abbrev junk : ℕ → ℕ
    junk = junk_of behind old

    pub started-num : started.num_enabled_counters ≡ length cs
    unfolding set_counters
    started-num = refl

    counter_at-or :
        (i : ℕ)
        → length cs ≤ 30
        → (if ltb i 30 then started.enabled_counters i else behind i) ≡ counter_or cs junk i
    unfolding set_counters
    counter_at-or i le = elim (Bool-cases (ltb i 30)) [
      | inl t ↦ rw t refl
      | inr f ↦ let g : ltb i (length cs) ≡ false = ground (arith, f, le) in rw (f, g) refl
    ]

    pub words_few :
        0 < length cs
        → length cs ≤ 16
        → words
            (λ i. if ltb i 30 then started.enabled_counters i else behind i)
            0
            (if ltb 16 started.num_enabled_counters then 16 else started.num_enabled_counters)
          ≡ cs
    unfolding set_counters
    words_few lt le =
        let f : ltb 16 (length cs) ≡ false = ground (arith, le) in
        rw f (
          words_all _ 0 cs (λ i below.
            let z : 0 + i ≡ i = omega arith in
            let a : ltb i 30 ≡ true = ground (arith, below, le) in
            let b : ltb i (length cs) ≡ true = ground (arith, below) in rw (z, a, b) refl))

    pub words_many :
        (d : ℕ)
        → 16 < length cs
        → length cs ≤ 30
        → words
            (λ i. if ltb i 30 then started.enabled_counters i else behind i)
            d
            (if ltb 16 started.num_enabled_counters then 16 else started.num_enabled_counters)
          ≡ words (counter_or cs junk) d 16
    words_many d lt le =
        let n : started.num_enabled_counters ≡ length cs = started-num in
        let f : ltb 16 started.num_enabled_counters ≡ true = ground (arith, n, lt) in
        rw f (words_ext _ _ d 16 (λ i _. counter_at-or i le))
