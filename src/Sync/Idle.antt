-- ===== src/Sync/Idle.antt =====
-- What `vkDeviceWaitIdle` and `vkQueueWaitIdle` of driver/sync.c wait for.
use rpi_vk_driver.Base.{
  ℕ, ◌≡◌, ◌≤◌, refl, ◌⊎◌, inl, inr, true, Bool-cases, List, [], ◌∷◌, ◌==◌, All, arith, leb, ap, ◌∙◌,
  sym, subst,
}
use rpi_vk_driver.Sync.{Queue, Ioctl, infinite, seqno_wait, queue_wait_idle, device_wait_idle}

-- What the kernel's interface documents of the waiting ioctl: jobs that have finished stay finished;
-- with the largest timeout the call returns when the job has finished, and there is always a time left.
pub record WaitsForJobs {W : Type 0} (ioctl : W → ℕ → ℕ → Ioctl × W) (Done : W → ℕ → Type 0)
    : Type 0 where
  pub stays : (w : W) (s t n : ℕ) → Done w n → Done (ioctl w s t).1 n
  pub finishes : (w : W) (s : ℕ) → Done (ioctl w s infinite).1 s

module _ {W : Type 0} (ioctl : W → ℕ → ℕ → Ioctl × W) (Done : W → ℕ → Type 0)
    (waits : WaitsForJobs ioctl Done) where
  -- The last job of the queue is done, if there was one.
  abbrev pub IsIdle : W → Queue → Type 0
  IsIdle w q = (q.last_emit_seqno ≡ 0) ⊎ Done w q.last_emit_seqno

  ioctl_cases :
      (r : Ioctl) → ((n : ℕ) × (r ≡ Ioctl.finished n)) ⊎ (r ≡ Ioctl.expired) ⊎ (r ≡ Ioctl.failed)
  ioctl_cases (Ioctl.finished n) = inl (n, refl)
  ioctl_cases Ioctl.expired = inr (inl refl)
  ioctl_cases Ioctl.failed = inr (inr refl)

  -- A wait either asks the kernel or does nothing.
  seqno_world :
      (undefined seqno t : ℕ) (w : W)
      → (((seqno_wait ioctl w undefined seqno t).3 ≡ w) × (seqno ≤ undefined))
        ⊎ ((seqno_wait ioctl w undefined seqno t).3 ≡ (ioctl w seqno t).1)
  unfolding seqno_wait
  seqno_world undefined seqno t w = elim (Bool-cases (seqno == 0)) [
    | inl zero ↦ inl (rw zero refl, ground (arith, zero))
    | inr f ↦ elim (Bool-cases (leb seqno undefined)) [
      | inl old ↦ inl (rw (f, old) refl, ground (arith, old))
      | inr g ↦ elim (ioctl_cases (ioctl w seqno t).0) [
        | inl (n, e) ↦ inr (rw (f, g, e) refl)
        | inr (inl e) ↦ inr (rw (f, g, e) refl)
        | inr (inr e) ↦ inr (rw (f, g, e) refl)
      ]
    ]
  ]

  wait_world :
      (undefined : ℕ) (q : Queue) (w : W)
      → ((queue_wait_idle ioctl undefined q w ≡ w) × (q.last_emit_seqno ≤ undefined))
        ⊎ (queue_wait_idle ioctl undefined q w ≡ (ioctl w q.last_emit_seqno infinite).1)
  unfolding queue_wait_idle
  wait_world undefined q w = seqno_world undefined q.last_emit_seqno infinite w

  queue-IsIdle : (q : Queue) (w : W) → IsIdle (queue_wait_idle ioctl 0 q w) q
  queue-IsIdle q w = elim (wait_world 0 q w) [
    | inl (e, zero) ↦ inl (omega arith)
    | inr e ↦
        inr (subst (λ v. Done v q.last_emit_seqno) (sym e) (waits.finishes w q.last_emit_seqno))
  ]

  queue-keeps :
      (undefined : ℕ) (q r : Queue) (w : W)
      → IsIdle w r
      → IsIdle (queue_wait_idle ioctl undefined q w) r
  queue-keeps undefined q r w (inl e) = inl e
  queue-keeps undefined q r w (inr d) = elim (wait_world undefined q w) [
    | inl (e, _) ↦ inr (subst (λ v. Done v r.last_emit_seqno) (sym e) d)
    | inr e ↦ inr (
        subst (λ v. Done v r.last_emit_seqno) (sym e)
          (waits.stays w q.last_emit_seqno infinite r.last_emit_seqno d))
  ]

  device-keeps :
      (undefined : ℕ) (qs : List Queue) (r : Queue) (w : W)
      → IsIdle w r
      → IsIdle (device_wait_idle ioctl undefined qs w) r
  unfolding device_wait_idle
  device-keeps undefined [] r w h = h
  device-keeps undefined (q ∷ qs) r w h =
      device-keeps undefined qs r (queue_wait_idle ioctl undefined q w)
        (queue-keeps undefined q r w h)

  -- Where the number that it leaves unset happens to be 0, and the kernel waits as documented,
  -- `vkDeviceWaitIdle` returns with every queue idle.
  pub device-IsIdle : (qs : List Queue) (w : W) → All (IsIdle (device_wait_idle ioctl 0 qs w)) qs
  unfolding device_wait_idle
  device-IsIdle [] w = tt
  device-IsIdle (q ∷ qs) w = (
    device-keeps 0 qs q (queue_wait_idle ioctl 0 q w) (queue-IsIdle q w),
    device-IsIdle qs (queue_wait_idle ioctl 0 q w),
  )

seqno_no_wait :
    {W : Type 0} (ioctl : W → ℕ → ℕ → Ioctl × W) (undefined seqno t : ℕ) (w : W)
    → seqno ≤ undefined
    → (seqno_wait ioctl w undefined seqno t).3 ≡ w
unfolding seqno_wait
seqno_no_wait ioctl undefined seqno t w h =
    let e : leb seqno undefined ≡ true = ground arith in
    elim (Bool-cases (seqno == 0)) [ inl zero ↦ rw zero refl | inr f ↦ rw (f, e) refl ]

queue_no_wait :
    {W : Type 0} (ioctl : W → ℕ → ℕ → Ioctl × W) (undefined : ℕ) (q : Queue) (w : W)
    → q.last_emit_seqno ≤ undefined
    → queue_wait_idle ioctl undefined q w ≡ w
unfolding queue_wait_idle
queue_no_wait ioctl undefined q w h = seqno_no_wait ioctl undefined q.last_emit_seqno infinite w h

-- Where the number that it leaves unset is no less than that of the last job of each queue,
-- `vkDeviceWaitIdle` does not ask the kernel and waits for nothing.
pub device_no_wait :
    {W : Type 0} (ioctl : W → ℕ → ℕ → Ioctl × W) (undefined : ℕ) (qs : List Queue) (w : W)
    → All (λ q. q.last_emit_seqno ≤ undefined) qs
    → device_wait_idle ioctl undefined qs w ≡ w
unfolding device_wait_idle
device_no_wait ioctl undefined [] w h = refl
device_no_wait ioctl undefined (q ∷ qs) w h =
    ap (device_wait_idle ioctl undefined qs) (queue_no_wait ioctl undefined q w h.0)
    ∙ device_no_wait ioctl undefined qs w h.1
