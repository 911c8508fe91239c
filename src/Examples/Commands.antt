-- ===== src/Examples/Commands.antt =====
-- Command buffers, in pools of a few blocks.
use rpi_vk_driver.Base.{
  ℕ, ◌+◌, ◌*◌, ◌/◌, ◌≡◌, refl, inr, List, [], ◌∷◌, ◌++◌, some, none, arith, length, All, true,
  false, if◌then◌else◌, ◌==◌,
}
use mathlib.Core.List.Permᴰ
use rpi_vk_driver.Memory.{Mem, load32}
use rpi_vk_driver.FreeList.{blocks}
use rpi_vk_driver.Pool.{Pool}
use rpi_vk_driver.Pool
use rpi_vk_driver.Pool.Invariant.{IsBuffer, Holds, create-Holds}
use rpi_vk_driver.Consecutive.{Consecutive}
use rpi_vk_driver.Consecutive
use rpi_vk_driver.Consecutive.Keeps.{create-Keeps}
use rpi_vk_driver.ControlList.{ControlList}
use rpi_vk_driver.Vulkan.{VkResult}
use rpi_vk_driver.Command.{
  State, CommandBuffer, Buffers, Lists, all_dirty, begin, end_recording, empty_lists, is_pending,
  reset_pool,
}
use rpi_vk_driver.Command.States.{
  Call, run, never_pending, submits, AllEmpty, begin-again, submitted, is_one_time, with_handles,
}
use rpi_vk_driver.Command.Batch.{member, reset_pool_lem}
use rpi_vk_driver.Command.Pools.{
  CommandPool, of_lists, allocate_command_buffers, free_command_buffers, Ending,
}
use rpi_vk_driver.Command.Given.{reversed_onto}
use rpi_vk_driver.Command.Entries.{allocate_command_buffers_lem}
use rpi_vk_driver.Command.Fresh.{Ready, Given, entries, live_with, IsFresh}
use rpi_vk_driver.Command.Jobs.{Job, Submission, Batch, addresses}
use rpi_vk_driver.Command.Submit.{submit_batch_lem}
use rpi_vk_driver.Command.Settled.{JobListed, BatchListed, submit_batch_listed}
use rpi_vk_driver.ControlList.{has_enough_space}
use rpi_vk_driver.ControlList.Records.{find_handle, num_handles}
use rpi_vk_driver.Command.Return.{owned, free_one_lem}

abbrev blank : Mem
blank a = 0

-- lists in neighbouring blocks of 8 bytes
abbrev list_at : ℕ → ControlList
list_at offset = record {
  cpa = 1024;
  offset = offset;
  num_blocks = 1;
  block_size = 8;
  next_free_byte_offset = offset + 5;
  curr_marker_offset = offset;
}

abbrev seven : Lists
seven = record {
  bin_cl = list_at 0;
  handles_cl = list_at 8;
  shader_rec_cl = list_at 16;
  uniforms_cl = list_at 24;
  uniform_reloc_cl = list_at 32;
  gem_reloc_cl = list_at 40;
  shader_rec_reloc_cl = list_at 48;
}

abbrev recorded : CommandBuffer
recorded = record {
  level = 0;
  shader_rec_count = 3;
  usage_flags = 1;
  state = State.recording;
  lists = seven;
  graphics_pipeline = 7;
  compute_pipeline = 0;
  index_buffer = 9;
  index_buffer_offset = 4;
  curr_render_pass = 0;
  perfmon_id = 0;
  dirty = record all_dirty { scissor_dirty = 0 };
}

never_pending_example :
    is_pending
      (run true
        (Call.end_call ∷ Call.submit_call (list_at 8) ∷ Call.reset_call ∷ Call.begin_call 0 ∷ [])
        recorded).state
    ≡ false
never_pending_example =
    never_pending true
      (Call.end_call ∷ Call.submit_call (list_at 8) ∷ Call.reset_call ∷ Call.begin_call 0 ∷ [])
      recorded refl

begin-again_example :
    let again =
      begin true 0 (run true (submits (list_at 8 ∷ list_at 56 ∷ [])) (end_recording recorded)) in
    (again.state ≡ State.recording)
    × AllEmpty again.lists
    × (again.lists ≡ empty_lists (record seven { handles_cl = list_at 56 }))
    × (again.dirty ≡ all_dirty)
begin-again_example = begin-again 0 (list_at 8 ∷ list_at 56 ∷ []) recorded

abbrev buffers : Buffers
buffers a = record recorded { state = State.executable }

-- the list of handles with eight blocks, and the buffer object 77 in it
abbrev roomy : Buffers
roomy a = record (buffers a) {
  lists = record seven {
    handles_cl = record (list_at 8) { num_blocks = 8; next_free_byte_offset = 12 };
  };
}

abbrev with_77 : Mem
with_77 a = if a == 1032 then 77 else 0

abbrev job : Job
job = record {
  handles_buf_offset = 0;
  handles_size = 4;
  write_image = some 77;
  read_image = none;
  write_depth_stencil_image = none;
  read_depth_stencil_image = none;
  write_msaa_image = none;
  write_msaa_depth_stencil_image = none;
}

abbrev batch : Batch
batch = (16, job ∷ []) ∷ (24, []) ∷ (16, job ∷ job ∷ []) ∷ []

abbrev submission : Submission
submission = record {
  buffers = roomy;
  pools = λ a. (
    with_77,
    record { buf = 1024; next_free_block = 0; block_size = 8; size = 128; num_free_blocks = 0 },
  );
}

job-JobListed : JobListed with_77 (roomy 16).lists.handles_cl job
unfolding has_enough_space find_handle num_handles load32
job-JobListed = record {
  room = refl;
  write = (0, refl);
  read = tt;
  write_depth_stencil = tt;
  read_depth_stencil = tt;
  write_msaa = tt;
  write_msaa_depth_stencil = tt;
}

batch-BatchListed : BatchListed (λ p. (submission.buffers p).lists) submission.pools batch
batch-BatchListed =
    (inr (job-JobListed, tt), (inr tt, (inr (job-JobListed, (job-JobListed, tt)), tt)))

abbrev after_batch : Submission
after_batch = (submit_batch_listed batch submission batch-BatchListed).0

submit_batch_lem_example :
    (h : ControlList) × (after_batch.buffers 16 ≡ (
      if member 16 (addresses batch)
      then with_handles
          (record (roomy 16) {
            state = submitted (roomy 16).state (is_one_time (roomy 16).usage_flags);
          })
          h
      else roomy 16))
submit_batch_lem_example =
    submit_batch_lem batch submission after_batch 16
      (submit_batch_listed batch submission batch-BatchListed).1

-- two command buffers of 4 bytes at 16
pair-IsBuffer : IsBuffer 16 4 8
pair-IsBuffer = record {
  not_null = omega arith;
  room_for_link = omega arith;
  exact = omega arith;
  at_least_one = omega arith;
  in_memory = omega arith;
}

-- the first is out
abbrev one_out : Pool
one_out = record { buf = 16; next_free_block = 20; block_size = 4; size = 8 }

one_out-Holds : Holds blank one_out (20 ∷ []) (16 ∷ [])
unfolding load32
one_out-Holds = record {
  buffer = pair-IsBuffer;
  chain = (refl, omega arith, refl);
  unused_inside = ((omega arith, omega arith), tt);
  live_inside = ((omega arith, omega arith), tt);
  unused_apart = (tt, tt);
  live_apart = (tt, tt);
  cross_apart = ((inr (omega arith), tt), tt);
  count = refl;
}

reset_pool_lem_example :
    (bufs' : Buffers) × (reset_pool blank one_out buffers ≡ some bufs')
    × ((a : ℕ)
        → bufs' a ≡ (
            if member a (blocks 16 4 2)
            then (if member a (20 ∷ [])
                then buffers a
                else record (buffers a) { state = State.initial })
            else buffers a))
reset_pool_lem_example = reset_pool_lem blank one_out (20 ∷ []) (16 ∷ []) buffers one_out-Holds

-- a command pool of two command buffers and fourteen blocks
blocks-IsBuffer : IsBuffer 1024 8 112
blocks-IsBuffer = record {
  not_null = omega arith;
  room_for_link = omega arith;
  exact = omega arith;
  at_least_one = omega arith;
  in_memory = omega arith;
}

abbrev fresh_pool : CommandPool
fresh_pool = record {
  queue_family_index = 0;
  reset_able = 2;
  pa_mem = (Pool.create blank 16 4 8).0;
  pa = (Pool.create blank 16 4 8).1;
  cpa_mem = (Consecutive.create blank 1024 8 112).0;
  cpa = (Consecutive.create blank 1024 8 112).1;
  buffers = buffers;
}

fresh_pool-Ready : Ready fresh_pool (blocks 16 4 (8 / 4)) [] (blocks 1024 8 (112 / 8)) []
fresh_pool-Ready = record {
  holds = (create-Holds blank 16 4 8 pair-IsBuffer).0;
  keeps = (create-Keeps blank 1024 8 112 blocks-IsBuffer (omega arith)).0;
}

allocate_command_buffers_lem_example :
    (gs : List Given) × (cp' : CommandPool) × (left : List ℕ) × (rest : List ℕ)
    × (allocate_command_buffers 0 (5 ∷ 6 ∷ []) fresh_pool
        ≡ some (Ending.returned (VkResult.success, entries gs, cp')))
    × Ready cp' left (reversed_onto (entries gs) []) rest (live_with gs [])
    × (length left + 2 ≡ 2)
    × (length rest + 7 * 2 ≡ 14)
    × All (IsFresh 0 1024 8 cp') gs
    × All (λ q. cp'.buffers q ≡ fresh_pool.buffers q) []
unfolding blocks Consecutive.create Pool.create
allocate_command_buffers_lem_example =
    allocate_command_buffers_lem 0 (5 ∷ 6 ∷ []) fresh_pool (blocks 16 4 (8 / 4)) []
      (blocks 1024 8 (112 / 8)) [] fresh_pool-Ready (omega arith) (omega arith)

-- a command pool with its one command buffer out, and its seven blocks
lists-IsBuffer : IsBuffer 1024 8 56
lists-IsBuffer = record {
  not_null = omega arith;
  room_for_link = omega arith;
  exact = omega arith;
  at_least_one = omega arith;
  in_memory = omega arith;
}

abbrev used_pool : CommandPool
used_pool = record {
  queue_family_index = 0;
  reset_able = 2;
  pa_mem = blank;
  pa = one_out;
  cpa_mem = blank;
  cpa = record { buf = 1024; next_free_block = 0; block_size = 8; size = 56; num_free_blocks = 0 };
  buffers = buffers;
}

used_pool-Ready :
    Ready used_pool (20 ∷ []) ([] ++ (16 ∷ [])) [] ([] ++ (owned 1024 8 (of_lists seven) ++ []))
unfolding of_lists blocks
used_pool-Ready = record {
  holds = one_out-Holds;
  keeps = record {
    buffer = lists-IsBuffer;
    below_top = omega arith;
    chain = refl;
    shared_out = Permᴰ.refl (blocks 1024 8 7);
    counted = refl;
  };
}

free_one_lem_example :
    (cp' : CommandPool) × (rest : List ℕ) × (free_command_buffers (16 ∷ []) used_pool ≡ some cp')
    × Ready cp' (16 ∷ 20 ∷ []) [] rest []
    × (length rest ≡ 0 + length (owned 1024 8 (of_lists seven)))
unfolding of_lists
free_one_lem_example =
    free_one_lem used_pool (20 ∷ []) [] 16 [] [] [] [] used_pool-Ready
      ((0, refl), ((0, refl), ((0, refl), ((0, refl), ((0, refl), ((0, refl), ((0, refl), tt)))))))
      (omega arith)
