-- ===== src/Command/Submit.antt =====
-- The command buffers of a batch of `vkQueueSubmit` (driver/command.c).
use native.Mathlib.Decide.{ℕ_discrete}
use rpi_vk_driver.Base.{
  ℕ, ◌≡◌, refl, sym, ap, ◌∙◌, subst, inl, inr, Bool, true, false, List, [], ◌∷◌, Option-cases, some,
  some_injective, none_is_not_some, u32_max, ◌==◌, if◌then◌else◌, Bool-cases, arith,
}
use rpi_vk_driver.ControlList.{ControlList}
use rpi_vk_driver.Command.{
  CommandBuffer, Buffers, put_buffer, submit_begin, submit_end, each_buffer,
}
use rpi_vk_driver.Command.States.{
  submitted, is_one_time, submit_one, with_handles, submit_end-handles,
}
use rpi_vk_driver.Command.Batch.{
  member, put_buffer_self, put_buffer_other, each_buffer_lem, begin_twice, end_twice,
}
use rpi_vk_driver.Command.Jobs.{
  Job, run_jobs, Submission, submit_buffer, Batch, addresses, submit_walk, submit_batch,
}

-- The walk leaves a command buffer as it was but for its list of handles, and one that is not in the
-- batch as it was.
abbrev Walked : List ℕ → Buffers → Buffers → ℕ → Type 0
Walked ps bufs bufs' a =
    (h : ControlList) × (bufs' a ≡ (if member a ps then with_handles (bufs a) h else bufs a))

unwalked :
    (b : Bool) (cb : CommandBuffer) → cb ≡ (if b then with_handles cb cb.lists.handles_cl else cb)
unwalked true cb = refl
unwalked false cb = refl

-- The walk over one command buffer, for a list that it leaves
put-Walked :
    (p : ℕ) (bufs : Buffers) (h : ControlList) (a : ℕ)
    → Walked (p ∷ []) bufs (put_buffer bufs p (with_handles (bufs p) h)) a
put-Walked p bufs h a = elim (ℕ_discrete a p) [
  | yes e ↦
      let t : (a == p) ≡ true = ground arith in
      (h, rw (t, e) (put_buffer_self bufs p (with_handles (bufs p) h)))
  | no ne ↦
      let t : (a == p) ≡ false = ground arith in
      (h, rw t (put_buffer_other bufs p a (with_handles (bufs p) h) ne))
]

submit_buffer-Walked :
    (p : ℕ) (jobs : List Job) (s s' : Submission) (a : ℕ)
    → submit_buffer p jobs s ≡ some s'
    → Walked (p ∷ []) s.buffers s'.buffers a
unfolding submit_buffer
submit_buffer-Walked p jobs s s' a e =
    let cb = s.buffers p in
    let cl = cb.lists.handles_cl in
    elim (Bool-cases (cb.lists.bin_cl.curr_marker_offset == u32_max)) [
      | inl t ↦
          let skipped : s ≡ s' = some_injective (rw t at e) in
          subst (λ (z : Submission). Walked (p ∷ []) s.buffers z.buffers a) skipped
            ((s.buffers a).lists.handles_cl, unwalked (member a (p ∷ [])) (s.buffers a))
      | inr f ↦ elim (Option-cases (run_jobs jobs (s.pools cl.cpa).0 (s.pools cl.cpa).1 cl)) [
        | inl stuck ↦ absurd (none_is_not_some (rw (f, stuck) at e))
        | inr ((m', pa', cl'), walked) ↦
            subst (λ (z : Submission). Walked (p ∷ []) s.buffers z.buffers a)
              (some_injective (rw (f, walked) at e)) (put-Walked p s.buffers cl' a)
      ]
    ]

-- Two walks after each other
Walked-both :
    (p : ℕ) (ps : List ℕ) (b0 b1 b2 : Buffers) (a : ℕ)
    → Walked (p ∷ []) b0 b1 a
    → Walked ps b1 b2 a
    → Walked (p ∷ ps) b0 b2 a
Walked-both p ps b0 b1 b2 a (h, e) (k, f) = elim (Bool-cases (a == p)) [
  | inl t ↦
      let one : b1 a ≡ with_handles (b0 a) h = rw t at e in
      elim (Bool-cases (member a ps)) [
        | inl u ↦
            let two : b2 a ≡ with_handles (b1 a) k = rw u at f in
            (k, rw t (two ∙ ap (λ (cb : CommandBuffer). with_handles cb k) one))
        | inr u ↦ let two : b2 a ≡ b1 a = rw u at f in (h, rw t (two ∙ one))
      ]
  | inr t ↦
      let one : b1 a ≡ b0 a = rw t at e in
      (
        k,
        rw t (
            subst (λ (cb : CommandBuffer). b2 a ≡ (if member a ps then with_handles cb k else cb))
              one f),
      )
]

submit_walk-Walked :
    (batch : Batch) (s s' : Submission) (a : ℕ)
    → submit_walk batch s ≡ some s'
    → Walked (addresses batch) s.buffers s'.buffers a
unfolding submit_walk
submit_walk-Walked [] s s' a e =
    ((s.buffers a).lists.handles_cl, ap (λ (z : Submission). z.buffers a) (sym (some_injective e)))
submit_walk-Walked ((p, jobs) ∷ batch) s s' a e = elim (Option-cases (submit_buffer p jobs s)) [
  | inl stuck ↦ absurd (none_is_not_some (rw stuck at e))
  | inr (s1, one) ↦
      Walked-both p (addresses batch) s.buffers s1.buffers s'.buffers a
        (submit_buffer-Walked p jobs s s1 a one) (submit_walk-Walked batch s1 s' a (rw one at e))
]

-- What the two loops and the walk make of one command buffer
ends :
    (b : Bool) (cb x : CommandBuffer) (h : ControlList)
    → x ≡ (
        if b
        then with_handles (if b then submit_begin cb else cb) h
        else (if b then submit_begin cb else cb))
    → (if b then submit_end x else x) ≡ (
        if b
        then with_handles (record cb { state = submitted cb.state (is_one_time cb.usage_flags) }) h
        else cb)
ends true cb x h e =
    ap submit_end e
    ∙ submit_end-handles (submit_begin cb) h
    ∙ ap (λ (c : CommandBuffer). with_handles c h) (submit_one cb)
ends false cb x h e = e

-- After a batch of `vkQueueSubmit` that comes to its end, in which a command buffer may come more than
-- once, whatever jobs its markers hold and whatever becomes of the lists of handles and their pools: those
-- of the batch that were executable are executable again, or invalid where they are for one time, all
-- else of them but the list of handles is as it was, and no other command buffer has changed.
pub submit_batch_lem :
    (batch : Batch) (s s' : Submission) (a : ℕ)
    → submit_batch batch s ≡ some s'
    → (h : ControlList) × (s'.buffers a ≡ (
        if member a (addresses batch)
        then with_handles
            (record (s.buffers a) {
              state = submitted (s.buffers a).state (is_one_time (s.buffers a).usage_flags);
            })
            h
        else s.buffers a))
unfolding submit_batch
submit_batch_lem batch s s' a e =
    let ps = addresses batch in
    let begun = each_buffer submit_begin ps s.buffers in
    elim (Option-cases (submit_walk batch (record s { buffers = begun }))) [
      | inl stuck ↦ absurd (none_is_not_some (rw stuck at e))
      | inr (s1, walked) ↦
          let (h, one) = submit_walk-Walked batch (record s { buffers = begun }) s1 a walked in
          let at = each_buffer_lem submit_begin begin_twice ps s.buffers a in
          let before : s1.buffers a ≡ (
              if member a ps
              then with_handles (if member a ps then submit_begin (s.buffers a) else s.buffers a) h
              else (if member a ps then submit_begin (s.buffers a) else s.buffers a)) =
            subst
              (λ (cb : CommandBuffer).
                s1.buffers a ≡ (if member a ps then with_handles cb h else cb))
              at one in
          (
            h,
            ap (λ (z : Submission). z.buffers a) (sym (some_injective (rw walked at e)))
                ∙ each_buffer_lem submit_end end_twice ps s1.buffers a
                ∙ ends (member a ps) (s.buffers a) (s1.buffers a) h before,
          )
    ]
