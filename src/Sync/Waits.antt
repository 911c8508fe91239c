-- ===== src/Sync/Waits.antt =====
-- What `vkWaitForFences` of driver/sync.c returns, and the fences that it leaves.
use rpi_vk_driver.Base.{
  ℕ, ◌≡◌, ◌≢◌, refl, sym, ap, subst, ◌⊎◌, inl, inr, Bool, true, false, Bool-cases, List, [], ◌∷◌,
  ◌==◌, All, arith, leb,
}
use rpi_vk_driver.Vulkan.{VkResult}
use rpi_vk_driver.Sync.{
  Fence, Fences, put_fence, Ioctl, Wait, infinite, seqno_wait, wait_all, wait_any, poll_all,
  poll_any, wait_for_fences, get_fence_status,
}

-- The fence is signaled.
abbrev pub Signaled : Fences → ℕ → Type 0
Signaled fs p = (fs p).signaled ≢ 0

-- Some fence of the list is as the predicate says.
abbrev pub Some : (ℕ → Type 0) → List ℕ → Type 0
Some P [] = ⊥
Some P (p ∷ ps) = P p ⊎ Some P ps

put_fence_self : (fs : Fences) (p : ℕ) (f : Fence) → put_fence fs p f p ≡ f
put_fence_self fs p f = let e : (p == p) ≡ true = ground arith in rw e refl

-- Signaling a fence signals no other one off.
put-Signaled :
    (fs : Fences) (p q : ℕ)
    → Signaled fs q
    → Signaled (put_fence fs p (record { seqno = 0; signaled = 1 })) q
put-Signaled fs p q h = elim (Bool-cases (q == p)) [
  | inl t ↦ rw t (λ e. omega arith)
  | inr f ↦ rw f h
]

wait_cases : (r : Wait) → (r ≡ Wait.timed_out) ⊎ (r ≡ Wait.done) ⊎ (r ≡ Wait.error)
wait_cases Wait.timed_out = inl refl
wait_cases Wait.done = inr (inl refl)
wait_cases Wait.error = inr (inr refl)

abbrev mark : Fences → ℕ → Fences
mark fs p = put_fence fs p (record { seqno = 0; signaled = 1 })

module _ {W : Type 0} (ioctl : W → ℕ → ℕ → Ioctl × W) where
  -- One turn of the loop that waits for all
  all_step :
      (p : ℕ) (ps : List ℕ) (fs : Fences) (t : ℕ) (w : W)
      → let (r, _, t', w') = seqno_wait ioctl w 0 (fs p).seqno t in
        (Signaled fs p × (wait_all ioctl (p ∷ ps) fs t w ≡ wait_all ioctl ps fs t w))
        ⊎ (((fs p).signaled ≡ 0)
            × (((r ≡ Wait.timed_out)
                  × (wait_all ioctl (p ∷ ps) fs t w ≡ (VkResult.timeout, fs, w')))
                ⊎ (wait_all ioctl (p ∷ ps) fs t w ≡ wait_all ioctl ps (mark fs p) t' w')))
  unfolding wait_all
  all_step p ps fs t w = elim (Bool-cases ((fs p).signaled == 0)) [
    | inr f ↦ inl (ground (arith, f), rw f refl)
    | inl unsignaled ↦ inr (
      ground (arith, unsignaled),
      elim (wait_cases (seqno_wait ioctl w 0 (fs p).seqno t).0) [
        | inl e ↦ inl (e, rw (unsignaled, e) refl)
        | inr (inl e) ↦ inr (rw (unsignaled, e) refl)
        | inr (inr e) ↦ inr (rw (unsignaled, e) refl)
      ],
    )
  ]

  -- One turn of the loop that waits for any
  any_step :
      (p : ℕ) (ps : List ℕ) (fs : Fences) (t : ℕ) (w : W)
      → let (r, _, t', w') = seqno_wait ioctl w 0 (fs p).seqno t in
        (Signaled fs p × (wait_any ioctl (p ∷ ps) fs t w ≡ (VkResult.success, fs, w)))
        ⊎ (((fs p).signaled ≡ 0)
            × (((r ≡ Wait.timed_out)
                  × (wait_any ioctl (p ∷ ps) fs t w ≡ wait_any ioctl ps fs t' w'))
                ⊎ (wait_any ioctl (p ∷ ps) fs t w ≡ (VkResult.success, mark fs p, w'))))
  unfolding wait_any
  any_step p ps fs t w = elim (Bool-cases ((fs p).signaled == 0)) [
    | inr f ↦ inl (ground (arith, f), rw f refl)
    | inl unsignaled ↦ inr (
      ground (arith, unsignaled),
      elim (wait_cases (seqno_wait ioctl w 0 (fs p).seqno t).0) [
        | inl e ↦ inl (e, rw (unsignaled, e) refl)
        | inr (inl e) ↦ inr (rw (unsignaled, e) refl)
        | inr (inr e) ↦ inr (rw (unsignaled, e) refl)
      ],
    )
  ]

  -- The loop keeps fences signaled.
  wait_all-keeps :
      (ps : List ℕ) (fs : Fences) (t : ℕ) (w : W) (q : ℕ)
      → Signaled fs q
      → Signaled (wait_all ioctl ps fs t w).1 q
  wait_all-keeps [] fs t w q h = unfold wait_all in h
  wait_all-keeps (p ∷ ps) fs t w q h =
      let after = seqno_wait ioctl w 0 (fs p).seqno t in
      elim (all_step p ps fs t w) [
        | inl (f, e) ↦ rw e (wait_all-keeps ps fs t w q h)
        | inr (unsignaled, inl (late, e)) ↦ rw e h
        | inr (unsignaled, inr e) ↦
            rw e (wait_all-keeps ps (mark fs p) after.2 after.3 q (put-Signaled fs p q h))
      ]

  -- All are signaled, or one is not.
  abbrev pub AllOrTimeout : List ℕ → VkResult × Fences × W → Type 0
  AllOrTimeout ps o =
      ((o.0 ≡ VkResult.success) × All (Signaled o.1) ps)
      ⊎ ((o.0 ≡ VkResult.timeout) × Some (λ p. (o.1 p).signaled ≡ 0) ps)

  and_first :
      (ps : List ℕ) (o : VkResult × Fences × W) (p : ℕ)
      → Signaled o.1 p
      → AllOrTimeout ps o
      → AllOrTimeout (p ∷ ps) o
  and_first ps o p h (inl (e, all)) = inl (e, (h, all))
  and_first ps o p h (inr (e, some)) = inr (e, inr some)

  wait_all_cases :
      (ps : List ℕ) (fs : Fences) (t : ℕ) (w : W) → AllOrTimeout ps (wait_all ioctl ps fs t w)
  wait_all_cases [] fs t w = unfold wait_all in inl (refl, tt)
  wait_all_cases (p ∷ ps) fs t w =
      let after = seqno_wait ioctl w 0 (fs p).seqno t in
      let fs1 = mark fs p in
      let now : Signaled fs1 p =
        rw (put_fence_self fs p (record { seqno = 0; signaled = 1 })) (λ e. omega arith) in
      let next =
        and_first ps (wait_all ioctl ps fs1 after.2 after.3) p
          (wait_all-keeps ps fs1 after.2 after.3 p now) (wait_all_cases ps fs1 after.2 after.3) in
      elim (all_step p ps fs t w) [
        | inl (f, e) ↦ subst (AllOrTimeout (p ∷ ps)) (sym e) (
            and_first ps (wait_all ioctl ps fs t w) p (wait_all-keeps ps fs t w p f)
              (wait_all_cases ps fs t w))
        | inr (unsignaled, inl (late, e)) ↦
            subst (AllOrTimeout (p ∷ ps)) (sym e) (inr (refl, inl unsignaled))
        | inr (unsignaled, inr e) ↦ subst (AllOrTimeout (p ∷ ps)) (sym e) next
      ]

  -- One is signaled, or none is and nothing has changed.
  abbrev pub AnyOrTimeout : List ℕ → Fences → VkResult × Fences × W → Type 0
  AnyOrTimeout ps fs o =
      ((o.0 ≡ VkResult.success) × Some (Signaled o.1) ps)
      ⊎ ((o.0 ≡ VkResult.timeout) × All (λ p. (fs p).signaled ≡ 0) ps × (o.1 ≡ fs))

  or_first :
      (ps : List ℕ) (fs : Fences) (o : VkResult × Fences × W) (p : ℕ)
      → (fs p).signaled ≡ 0
      → AnyOrTimeout ps fs o
      → AnyOrTimeout (p ∷ ps) fs o
  or_first ps fs o p h (inl (e, some)) = inl (e, inr some)
  or_first ps fs o p h (inr (e, none, same)) = inr (e, (h, none), same)

  wait_any_cases :
      (ps : List ℕ) (fs : Fences) (t : ℕ) (w : W) → AnyOrTimeout ps fs (wait_any ioctl ps fs t w)
  wait_any_cases [] fs t w = unfold wait_any in inr (refl, tt, refl)
  wait_any_cases (p ∷ ps) fs t w =
      let after = seqno_wait ioctl w 0 (fs p).seqno t in
      let now : Signaled (mark fs p) p =
        rw (put_fence_self fs p (record { seqno = 0; signaled = 1 })) (λ e. omega arith) in
      elim (any_step p ps fs t w) [
        | inl (f, e) ↦ subst (AnyOrTimeout (p ∷ ps) fs) (sym e) (inl (refl, inl f))
        | inr (unsignaled, inl (late, e)) ↦ subst (AnyOrTimeout (p ∷ ps) fs) (sym e) (
            or_first ps fs (wait_any ioctl ps fs after.2 after.3) p unsignaled
              (wait_any_cases ps fs after.2 after.3))
        | inr (unsignaled, inr e) ↦ subst (AnyOrTimeout (p ∷ ps) fs) (sym e) (inl (refl, inl now))
      ]

  -- `vkWaitForFences` for all, with a timeout other than 0, whatever the kernel answers: it returns
  -- success and all the fences are signaled, or it returns a timeout and one of them is not.
  pub wait_for_all :
      (ps : List ℕ) (fs : Fences) (t : ℕ) (w : W)
      → t ≢ 0
      → AllOrTimeout ps (wait_for_fences ioctl ps fs true t w)
  unfolding wait_for_fences
  wait_for_all ps fs t w ne =
      let e : (t == 0) ≡ false = ground arith in rw e (wait_all_cases ps fs t w)

  -- `vkWaitForFences` for any, with a timeout other than 0, whatever the kernel answers: it returns
  -- success and one of the fences is signaled, or it returns a timeout, none of them was signaled, and
  -- no fence has changed.
  pub wait_for_any :
      (ps : List ℕ) (fs : Fences) (t : ℕ) (w : W)
      → t ≢ 0
      → AnyOrTimeout ps fs (wait_for_fences ioctl ps fs false t w)
  unfolding wait_for_fences
  wait_for_any ps fs t w ne =
      let e : (t == 0) ≡ false = ground arith in rw e (wait_any_cases ps fs t w)

  -- With a timeout of 0, `vkWaitForFences` returns the status of the first fence, whether it is to
  -- wait for all the fences or for any, whatever the others are.
  pub poll_first_only :
      (p : ℕ) (ps : List ℕ) (fs : Fences) (all : Bool) (w : W)
      → wait_for_fences ioctl (p ∷ ps) fs all 0 w ≡ (
        elim (get_fence_status (fs p)) [
          | VkResult.success ↦ VkResult.success
          | _ ↦ VkResult.timeout
        ],
        fs,
        w,
      )
  unfolding wait_for_fences poll_all poll_any get_fence_status
  poll_first_only p ps fs true w = elim (Bool-cases ((fs p).signaled == 0)) [
    | inl t ↦ rw t refl
    | inr f ↦ rw f refl
  ]
  poll_first_only p ps fs false w = elim (Bool-cases ((fs p).signaled == 0)) [
    | inl t ↦ rw t refl
    | inr f ↦ rw f refl
  ]

  late_wait :
      (seqno t : ℕ) (w w' : W)
      → seqno ≢ 0
      → ioctl w seqno t ≡ (Ioctl.expired, w')
      → seqno_wait ioctl w 0 seqno t ≡ (Wait.timed_out, 0, infinite, w')
  unfolding seqno_wait
  late_wait seqno t w w' some_job expires =
      let c : (seqno == 0) ≡ false = ground arith in
      let d : leb seqno 0 ≡ false = ground arith in
      let e : (ioctl w seqno t).0 ≡ Ioctl.expired = ap (λ (q : Ioctl × W). q.0) expires in
      let f : (ioctl w seqno t).1 ≡ w' = ap (λ (q : Ioctl × W). q.1) expires in rw (c, d, e, f) refl

  -- A wait for any of several fences goes on without a limit after the first one has timed out: the
  -- others are waited for with the largest timeout.
  pub wait_any_unlimited :
      (p : ℕ) (ps : List ℕ) (fs : Fences) (t : ℕ) (w w' : W)
      → (fs p).signaled ≡ 0
      → (fs p).seqno ≢ 0
      → ioctl w (fs p).seqno t ≡ (Ioctl.expired, w')
      → t ≢ 0
      → wait_for_fences ioctl (p ∷ ps) fs false t w ≡ wait_for_fences ioctl ps fs false infinite w'
  unfolding wait_for_fences wait_any
  wait_any_unlimited p ps fs t w w' unsignaled some_job expires ne =
      let a : (t == 0) ≡ false = ground arith in
      let b : ((fs p).signaled == 0) ≡ true = ground arith in
      let late = late_wait (fs p).seqno t w w' some_job expires in
      let l0 : (seqno_wait ioctl w 0 (fs p).seqno t).0 ≡ Wait.timed_out =
        ap (λ (q : Wait × ℕ × ℕ × W). q.0) late in
      let l2 : (seqno_wait ioctl w 0 (fs p).seqno t).2 ≡ infinite =
        ap (λ (q : Wait × ℕ × ℕ × W). q.2) late in
      let l3 : (seqno_wait ioctl w 0 (fs p).seqno t).3 ≡ w' =
        ap (λ (q : Wait × ℕ × ℕ × W). q.3) late in
      rw (a, b, l0, l2, l3) refl
