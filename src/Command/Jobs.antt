-- ===== src/Command/Jobs.antt =====
-- driver/command.c: one batch of `vkQueueSubmit`. Of the walk over the markers of a command buffer this has
-- what it does to the command buffer, which is to its list of handles and the pool that the list is in.
-- The job that the walk gives to the kernel, and the closing of the last marker, which is in the memory
-- of another list, are left out.
use rpi_vk_driver.Base.{
  ℕ, ◌*◌, List, [], ◌∷◌, Option, none, some, u32_max, add32, ◌==◌, if◌then◌else◌, ◌>>=◌,
}
use rpi_vk_driver.Memory.{Mem}
use rpi_vk_driver.Consecutive.{Consecutive}
use rpi_vk_driver.ControlList.{ControlList, Writer}
use rpi_vk_driver.ControlList.Fit.{fit}
use rpi_vk_driver.ControlList.Records.{get_handle_index}
use rpi_vk_driver.Command.{Buffers, put_buffer, submit_begin, submit_end, each_buffer}
use rpi_vk_driver.Command.States.{with_handles}

-- What the walk reads of a marker, as it finds it: the segment of the handles, and the buffer objects of
-- the six images, where there is an image.
pub record Job : Type 0 where
  pub handles_buf_offset : ℕ
  pub handles_size : ℕ
  pub write_image : Option ℕ
  pub read_image : Option ℕ
  pub write_depth_stencil_image : Option ℕ
  pub read_depth_stencil_image : Option ℕ
  pub write_msaa_image : Option ℕ
  pub write_msaa_depth_stencil_image : Option ℕ

-- `clGetHandleIndex` for an image, if there is one
unfoldable pub image_handle : Option ℕ → ℕ → ℕ → Writer → Writer
image_handle none handles_offset handles_size w = w
image_handle (some bo) handles_offset handles_size w =
    (get_handle_index w handles_offset handles_size bo).1

-- The six calls of one job. The fifth has its offset and its size the wrong way round.
unfoldable pub job_handles : Job → Writer → Writer
job_handles job w =
    let size = job.handles_size in
    let at = add32 job.handles_buf_offset w.1.offset in
    image_handle job.write_msaa_depth_stencil_image at size (
      image_handle job.write_msaa_image size at (
        image_handle job.read_depth_stencil_image at size (
          image_handle job.write_depth_stencil_image at size
            (image_handle job.read_image at size (image_handle job.write_image at size w)))))

-- the walk over the jobs of a command buffer, on its list of handles
unfoldable pub run_jobs :
    List Job → Mem → Consecutive → ControlList → Option (Mem × Consecutive × ControlList)
run_jobs [] m pa cl = some (m, pa, cl)
run_jobs (job ∷ jobs) m pa cl = fit m pa cl (4 * 6) >>= λ (m', pa', cl').
    let (m'', cl'') = job_handles job (m', cl') in run_jobs jobs m'' pa' cl''

-- the command buffers, and the pools of their lists by the address of the pool's buffer
pub record Submission : Type 0 where
  pub buffers : Buffers
  pub pools : ℕ → Mem × Consecutive

abbrev pub put_pool : (ℕ → Mem × Consecutive) → ℕ → Mem × Consecutive → ℕ → Mem × Consecutive
put_pool pools p pool a = if a == p then pool else pools a

-- A command buffer of the batch, with the jobs of its markers. It is skipped if it has no marker.
unfoldable pub submit_buffer : ℕ → List Job → Submission → Option Submission
submit_buffer p jobs s =
    let cb = s.buffers p in
    let cl = cb.lists.handles_cl in
    let (m, pa) = s.pools cl.cpa in
    let walked = run_jobs jobs m pa cl >>= λ (m', pa', cl'). some (record {
      buffers = put_buffer s.buffers p (with_handles cb cl');
      pools = put_pool s.pools cl.cpa (m', pa');
    }) in
    if cb.lists.bin_cl.curr_marker_offset == u32_max then some s else walked

-- the command buffers of a batch, each with the jobs that the walk finds
abbrev pub Batch : Type 0
Batch = List (ℕ × List Job)

abbrev pub addresses : Batch → List ℕ
addresses [] = []
addresses ((p, jobs) ∷ batch) = p ∷ addresses batch

unfoldable pub submit_walk : Batch → Submission → Option Submission
submit_walk [] s = some s
submit_walk ((p, jobs) ∷ batch) s = submit_buffer p jobs s >>= λ s'. submit_walk batch s'

-- one batch of `vkQueueSubmit`, between its semaphores
unfoldable pub submit_batch : Batch → Submission → Option Submission
submit_batch batch s =
    submit_walk batch (record s { buffers = each_buffer submit_begin (addresses batch) s.buffers })
    >>= λ s'. some (record s' { buffers = each_buffer submit_end (addresses batch) s'.buffers })
