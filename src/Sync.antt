-- ===== src/Sync.antt =====
-- driver/sync.c: fences, and waiting for the work of queues; `vc4_seqno_wait` of
-- driver/kernelInterface.c. The ioctl that waits in the kernel is a parameter over a state `W` of the
-- kernel and the hardware.
pub mod Waits
pub mod Idle
use rpi_vk_driver.Base.{
  ℕ, ◌-◌, ◌^◌, Bool, true, false, List, [], ◌∷◌, ◌==◌, leb, if◌then◌else◌, ◌&◌,
}
use rpi_vk_driver.Vulkan.{VkResult}

-- `_fence`
pub record Fence : Type 0 where
  pub seqno : ℕ
  pub signaled : ℕ

-- the store of fences
abbrev pub Fences : Type 0
Fences = ℕ → Fence

abbrev pub put_fence : Fences → ℕ → Fence → Fences
put_fence fs p f a = if a == p then f else fs a

-- `vkCreateFence`, once its memory is there
unfoldable pub create_fence : ℕ → Fence
create_fence flags = record { seqno = 0; signaled = flags & 1 }

-- `vkGetFenceStatus`
unfoldable pub get_fence_status : Fence → VkResult
get_fence_status f = if f.signaled == 0 then VkResult.not_ready else VkResult.success

-- `vkResetFences`
unfoldable pub reset_fences : List ℕ → Fences → Fences
reset_fences [] fs = fs
reset_fences (p ∷ ps) fs = reset_fences ps (put_fence fs p (record { seqno = 0; signaled = 0 }))

-- the end of `vkQueueSubmit` of driver/command.c: the fence gets the number of the last job.
unfoldable pub submit_fence : ℕ → Fence → Fence
submit_fence last_emit_seqno f = record f { seqno = last_emit_seqno }

-- What the ioctl returns: success and the time that is left, ETIME, or another error.
pub data Ioctl : Type 0 where
  finished : ℕ → Ioctl
  expired : Ioctl
  failed : Ioctl

-- the results of `vc4_seqno_wait`: 1, 0 and -1
pub data Wait : Type 0 where
  done : Wait
  error : Wait
  timed_out : Wait

-- `WAIT_TIMEOUT_INFINITE`, and -1 as `uint64_t`
abbrev pub infinite : ℕ
infinite = 2 ^ 64 - 1

-- `_queue`
pub record Queue : Type 0 where
  pub last_emit_seqno : ℕ
  pub last_finished_seqno : ℕ

module _ {W : Type 0} (ioctl : W → ℕ → ℕ → Ioctl × W) where
  -- `vc4_seqno_wait`: the result, the last finished number, the time left.
  unfoldable pub seqno_wait : W → ℕ → ℕ → ℕ → Wait × ℕ × ℕ × W
  seqno_wait w last_finished seqno timeout_ns =
      if seqno == 0
      then (Wait.done, last_finished, timeout_ns, w)
      else if leb seqno last_finished
      then (Wait.done, last_finished, timeout_ns, w)
      else let (r, w') = ioctl w seqno timeout_ns in
        elim r [
          | Ioctl.finished left ↦ (Wait.done, seqno, left, w')
          | Ioctl.expired ↦ (Wait.timed_out, last_finished, infinite, w')
          | Ioctl.failed ↦ (Wait.error, last_finished, timeout_ns, w')
        ]

  -- the loop of `vkWaitForFences` that waits for all
  unfoldable pub wait_all : List ℕ → Fences → ℕ → W → VkResult × Fences × W
  wait_all [] fs timeout w = (VkResult.success, fs, w)
  wait_all (p ∷ ps) fs timeout w =
      let (r, _, timeout', w') = seqno_wait w 0 (fs p).seqno timeout in
      let rest = wait_all ps (put_fence fs p (record { seqno = 0; signaled = 1 })) timeout' w' in
      let skip = wait_all ps fs timeout w in
      if (fs p).signaled == 0
      then elim r [ Wait.timed_out ↦ (VkResult.timeout, fs, w') | _ ↦ rest ]
      else skip

  -- the loop that waits for any
  unfoldable pub wait_any : List ℕ → Fences → ℕ → W → VkResult × Fences × W
  wait_any [] fs timeout w = (VkResult.timeout, fs, w)
  wait_any (p ∷ ps) fs timeout w =
      let (r, _, timeout', w') = seqno_wait w 0 (fs p).seqno timeout in
      let rest = wait_any ps fs timeout' w' in
      if (fs p).signaled == 0
      then elim r [
        | Wait.timed_out ↦ rest
        | _ ↦ (VkResult.success, put_fence fs p (record { seqno = 0; signaled = 1 }), w')
      ]
      else (VkResult.success, fs, w)

  -- The two loops for a timeout of 0, for all and for any. Both branches of a turn return.
  unfoldable pub poll_all : List ℕ → Fences → W → VkResult × Fences × W → VkResult × Fences × W
  poll_all [] fs w behind_loop = behind_loop
  poll_all (p ∷ ps) fs w behind_loop =
      if (fs p).signaled == 0 then (VkResult.timeout, fs, w) else (VkResult.success, fs, w)

  unfoldable pub poll_any : List ℕ → Fences → W → VkResult × Fences × W → VkResult × Fences × W
  poll_any [] fs w behind_loop = behind_loop
  poll_any (p ∷ ps) fs w behind_loop =
      if (fs p).signaled == 0 then (VkResult.timeout, fs, w) else (VkResult.success, fs, w)

  -- `vkWaitForFences`
  unfoldable pub wait_for_fences : List ℕ → Fences → Bool → ℕ → W → VkResult × Fences × W
  wait_for_fences ps fs all timeout w =
      let waited_all = wait_all ps fs timeout w in
      let waited_any = wait_any ps fs timeout w in
      if all
      then (if timeout == 0 then poll_all ps fs w waited_all else waited_all)
      else (if timeout == 0 then poll_any ps fs w waited_any else waited_any)

  -- `vkQueueWaitIdle`. It passes a last finished number that it has not set, so C leaves its value
  -- undefined: it is an argument.
  unfoldable pub queue_wait_idle : ℕ → Queue → W → W
  queue_wait_idle undefined q w =
      let (_, _, _, w') = seqno_wait w undefined q.last_emit_seqno infinite in w'

  -- `vkDeviceWaitIdle`, over the queues of all families, with the same undefined number
  unfoldable pub device_wait_idle : ℕ → List Queue → W → W
  device_wait_idle undefined [] w = w
  device_wait_idle undefined (q ∷ qs) w =
      device_wait_idle undefined qs (queue_wait_idle undefined q w)
