-- ===== src/Examples/Fences.antt =====
-- Fences under a kernel that has finished the jobs up to some number.
use rpi_vk_driver.Base.{
  ℕ, ◌≡◌, ◌≤◌, inl, inr, true, false, List, [], ◌∷◌, All, arith, max, if◌then◌else◌, leb, ltb, ◌==◌,
  Bool-cases,
}
use rpi_vk_driver.Sync.{Fences, Ioctl, Queue, infinite, wait_for_fences, device_wait_idle}
use rpi_vk_driver.Sync.Waits.{AllOrTimeout, AnyOrTimeout, wait_for_all, wait_for_any}
use rpi_vk_driver.Sync.Idle.{WaitsForJobs, IsIdle, device-IsIdle, device_no_wait}

-- The state is the number of the last finished job; a wait with the largest timeout finishes its job.
abbrev kernel : ℕ → ℕ → ℕ → Ioctl × ℕ
kernel w s t =
    if ltb t infinite
    then (if leb s w then (Ioctl.finished t, w) else (Ioctl.expired, w))
    else (Ioctl.finished t, max w s)

-- the fence of job 3 at 1, that of job 9 at 2, one that is signaled elsewhere
abbrev fences : Fences
fences a =
    if a == 1
    then record { seqno = 3; signaled = 0 }
    else if a == 2
    then record { seqno = 9; signaled = 0 }
    else record { seqno = 0; signaled = 1 }

wait_for_all_example :
    AllOrTimeout kernel (5 ∷ 1 ∷ 2 ∷ []) (wait_for_fences kernel (5 ∷ 1 ∷ 2 ∷ []) fences true 100 4)
wait_for_all_example = wait_for_all kernel (5 ∷ 1 ∷ 2 ∷ []) fences 100 4 (omega arith)

wait_for_any_example :
    AnyOrTimeout kernel (2 ∷ 1 ∷ []) fences (wait_for_fences kernel (2 ∷ 1 ∷ []) fences false 100 4)
wait_for_any_example = wait_for_any kernel (2 ∷ 1 ∷ []) fences 100 4 (omega arith)

kernel-WaitsForJobs : WaitsForJobs kernel (λ w n. n ≤ w)
kernel-WaitsForJobs = record {
  stays = λ w s t n h. elim (Bool-cases (ltb t infinite)) [
    | inr f ↦ rw f (omega arith)
    | inl small ↦ elim (Bool-cases (leb s w)) [ inl e ↦ rw (small, e) h | inr e ↦ rw (small, e) h ]
  ];
  finishes = λ w s. omega arith;
}

abbrev queues : List Queue
queues =
    record { last_emit_seqno = 6; last_finished_seqno = 0 }
    ∷ record { last_emit_seqno = 0; last_finished_seqno = 0 }
    ∷ []

device-IsIdle_example :
    All
      (IsIdle kernel (λ w n. n ≤ w) kernel-WaitsForJobs (device_wait_idle kernel 0 queues 4))
      queues
device-IsIdle_example = device-IsIdle kernel (λ w n. n ≤ w) kernel-WaitsForJobs queues 4

device_no_wait_example : device_wait_idle kernel 77 queues 4 ≡ 4
device_no_wait_example = device_no_wait kernel 77 queues 4 (omega arith, (omega arith, tt))
