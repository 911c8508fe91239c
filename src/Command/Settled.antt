-- ===== src/Command/Settled.antt =====
-- A batch of `vkQueueSubmit` (driver/command.c) whose images are in the tables of handles, as the code
-- expects: "This should not result in an insertion!".
use mathlib.Core.Path.{fun_ext}
use native.Mathlib.Decide.{ℕ_discrete}
use rpi_vk_driver.Base.{
  ℕ, ◌≡◌, refl, sym, ap, ◌∙◌, subst, inl, inr, Bool, true, false, List, [], ◌∷◌, Option, none, some,
  u32_max, add32, ◌==◌, if◌then◌else◌, Bool-cases, All, ◌⊎◌, ◌*◌, arith,
}
use rpi_vk_driver.Memory.{Mem}
use rpi_vk_driver.Consecutive.{Consecutive}
use rpi_vk_driver.ControlList.{ControlList, has_enough_space, get_cpa_ptr_from_offset}
use rpi_vk_driver.ControlList.Fit.{fit}
use rpi_vk_driver.ControlList.Records.{find_handle, num_handles, get_handle_index}
use rpi_vk_driver.Command.{
  CommandBuffer, Buffers, Lists, put_buffer, submit_begin, submit_end, each_buffer, is_executable,
}
use rpi_vk_driver.Command.States.{submitted, is_one_time, submit_one}
use rpi_vk_driver.Command.Batch.{
  member, put_buffer_self, put_buffer_other, each_buffer_lem, begin_twice, end_twice,
}
use rpi_vk_driver.Command.Jobs.{
  Job, image_handle, job_handles, run_jobs, Submission, put_pool, submit_buffer, Batch, addresses,
  submit_walk, submit_batch,
}

-- The handle of the image, if there is one, is in the segment.
abbrev pub IsListed : Mem → ControlList → ℕ → ℕ → Option ℕ → Type 0
IsListed m cl handles_offset handles_size none = Unit
IsListed m cl handles_offset handles_size (some bo) =
    (c : ℕ) × (find_handle m (get_cpa_ptr_from_offset cl.cpa handles_offset) bo
        (num_handles cl handles_offset handles_size) 0
      ≡ some c)

-- The list has room for six handles, and all the images of the job are in the segments that their calls
-- look at.
pub record JobListed (m : Mem) (cl : ControlList) (job : Job) : Type 0 where
  pub room : has_enough_space cl (4 * 6) ≡ true
  pub write :
      IsListed m cl (add32 job.handles_buf_offset cl.offset) job.handles_size job.write_image
  pub read : IsListed m cl (add32 job.handles_buf_offset cl.offset) job.handles_size job.read_image
  pub write_depth_stencil :
      IsListed m cl
        (add32 job.handles_buf_offset cl.offset)
        job.handles_size
        job.write_depth_stencil_image
  pub read_depth_stencil :
      IsListed m cl
        (add32 job.handles_buf_offset cl.offset)
        job.handles_size
        job.read_depth_stencil_image
  pub write_msaa :
      IsListed m cl job.handles_size (add32 job.handles_buf_offset cl.offset) job.write_msaa_image
  pub write_msaa_depth_stencil :
      IsListed m cl
        (add32 job.handles_buf_offset cl.offset)
        job.handles_size
        job.write_msaa_depth_stencil_image

-- Each command buffer of the batch has no marker, or its jobs are all listed.
abbrev pub BatchListed : (ℕ → Lists) → (ℕ → Mem × Consecutive) → Batch → Type 0
BatchListed lists pools [] = Unit
BatchListed lists pools ((p, jobs) ∷ batch) =
    (((lists p).bin_cl.curr_marker_offset ≡ u32_max)
      ⊎ All (JobListed (pools (lists p).handles_cl.cpa).0 (lists p).handles_cl) jobs)
    × BatchListed lists pools batch

image_handle-IsListed :
    (m : Mem) (cl : ControlList) (at size : ℕ) (image : Option ℕ)
    → IsListed m cl at size image
    → image_handle image at size (m, cl) ≡ (m, cl)
unfolding image_handle get_handle_index
image_handle-IsListed m cl at size none h = refl
image_handle-IsListed m cl at size (some bo) (c, e) = rw (image_handle, get_handle_index, e) refl

run_jobs_listed :
    (jobs : List Job) (m : Mem) (pa : Consecutive) (cl : ControlList)
    → All (JobListed m cl) jobs
    → run_jobs jobs m pa cl ≡ some (m, pa, cl)
unfolding run_jobs job_handles fit
run_jobs_listed [] m pa cl h = refl
run_jobs_listed (job ∷ jobs) m pa cl (h, more) =
    let at = add32 job.handles_buf_offset cl.offset in
    let size = job.handles_size in
    rw
      (
        h.room,
        image_handle-IsListed m cl at size job.write_image h.write,
        image_handle-IsListed m cl at size job.read_image h.read,
        image_handle-IsListed m cl at size job.write_depth_stencil_image h.write_depth_stencil,
        image_handle-IsListed m cl at size job.read_depth_stencil_image h.read_depth_stencil,
        image_handle-IsListed m cl size at job.write_msaa_image h.write_msaa,
        image_handle-IsListed m cl at size job.write_msaa_depth_stencil_image
            h.write_msaa_depth_stencil,
      )
      (run_jobs_listed jobs m pa cl more)

-- A store of what is there changes nothing.
put_buffer_same : (bufs : Buffers) (p : ℕ) → put_buffer bufs p (bufs p) ≡ bufs
put_buffer_same bufs p = fun_ext (λ a. elim (ℕ_discrete a p) [
  | yes e ↦ rw e (put_buffer_self bufs p (bufs p))
  | no ne ↦ put_buffer_other bufs p a (bufs p) ne
])

put_pool_same : (pools : ℕ → Mem × Consecutive) (p : ℕ) → put_pool pools p (pools p) ≡ pools
put_pool_same pools p = fun_ext (λ a. elim (Bool-cases (a == p)) [
  | inl t ↦ let e : a ≡ p = ground (arith, t) in rw (t, e) refl
  | inr f ↦ rw f refl
])

submit_walk_listed :
    (batch : Batch) (s : Submission)
    → BatchListed (λ p. (s.buffers p).lists) s.pools batch
    → submit_walk batch s ≡ some s
unfolding submit_walk submit_buffer
submit_walk_listed [] s h = refl
submit_walk_listed ((p, jobs) ∷ batch) s (inl none_there, more) =
    let e : ((s.buffers p).lists.bin_cl.curr_marker_offset == u32_max) ≡ true =
      ground (arith, none_there) in
    rw e (submit_walk_listed batch s more)
submit_walk_listed ((p, jobs) ∷ batch) s (inr listed, more) =
    let cl = (s.buffers p).lists.handles_cl in
    let walked = run_jobs_listed jobs (s.pools cl.cpa).0 (s.pools cl.cpa).1 cl listed in
    let rest = submit_walk_listed batch s more in
    elim (Bool-cases ((s.buffers p).lists.bin_cl.curr_marker_offset == u32_max)) [
      | inl t ↦ rw t rest
      | inr f ↦ rw (f, walked, put_buffer_same s.buffers p, put_pool_same s.pools cl.cpa) rest
    ]

begin_lists : (b : Bool) (cb : CommandBuffer) → (if b then submit_begin cb else cb).lists ≡ cb.lists
unfolding submit_begin
begin_lists false cb = refl
begin_lists true cb = elim (Bool-cases (is_executable cb.state)) [
  | inl t ↦ rw t refl
  | inr f ↦ rw f refl
]

both :
    (b : Bool) (cb : CommandBuffer)
    → (if b
        then submit_end (if b then submit_begin cb else cb)
        else (if b then submit_begin cb else cb))
      ≡ (if b then record cb { state = submitted cb.state (is_one_time cb.usage_flags) } else cb)
both true cb = submit_one cb
both false cb = refl

pub submit_batch_listed :
    (batch : Batch) (s : Submission)
    → BatchListed (λ p. (s.buffers p).lists) s.pools batch
    → (s' : Submission) × (submit_batch batch s ≡ some s')
      × (s'.pools ≡ s.pools)
      × ((a : ℕ)
          → s'.buffers a ≡ (
              if member a (addresses batch)
              then record (s.buffers a) {
                state = submitted (s.buffers a).state (is_one_time (s.buffers a).usage_flags);
              }
              else s.buffers a))
unfolding submit_batch
submit_batch_listed batch s h =
    let ps = addresses batch in
    let begun = each_buffer submit_begin ps s.buffers in
    let at = each_buffer_lem submit_begin begin_twice ps s.buffers in
    let same : ◌≡◌ {A = ℕ → Lists} (λ p. (s.buffers p).lists) (λ p. (begun p).lists) = fun_ext (λ p.
      sym
        (ap (λ (cb : CommandBuffer). cb.lists) (at p) ∙ begin_lists (member p ps) (s.buffers p))) in
    let walked =
      submit_walk_listed batch (record s { buffers = begun })
        (subst (λ lists. BatchListed lists s.pools batch) same h) in
    (
      record s { buffers = each_buffer submit_end ps begun },
      rw walked refl,
      refl,
      λ a.
          each_buffer_lem submit_end end_twice ps begun a
          ∙ rw (at a) (both (member a ps) (s.buffers a)),
    )
