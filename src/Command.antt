-- ===== src/Command.antt =====
-- driver/command.c: command buffers, the states that the calls take them through, and the pools that
-- they come from. The pool's two buffers are objects of their own, so each has its own memory; the
-- structures in the blocks of the first are in a store of command buffers by address. What only
-- drawing reads (viewport, vertex buffers, blend constants, push constants) is left out.
pub mod States
pub mod Jobs
pub mod Batch
pub mod Submit
pub mod Settled
pub mod Pools
pub mod Given
pub mod Fresh
pub mod Entries
pub mod Return
pub mod Short
use rpi_vk_driver.Base.{
  ℕ, zero, suc, ◌+◌, ◌*◌, ◌/◌, Bool, true, false, ◌||◌, ◌&&◌, List, [], ◌∷◌, Option, some, none,
  u32_max, add32, mul32, ltb, ◌==◌, if◌then◌else◌, ◌>>=◌, ◌&◌,
}
use rpi_vk_driver.Memory.{Mem, null, load32}
use rpi_vk_driver.ControlList.{ControlList}
use rpi_vk_driver.ControlList
use rpi_vk_driver.Pool.{Pool}
use rpi_vk_driver.Consecutive.{Consecutive}

-- `commandBufferState`
pub data State : Type 0 where
  initial recording executable pending invalid : State

abbrev pub is_executable : State → Bool
is_executable State.executable = true
is_executable _ = false

abbrev pub is_pending : State → Bool
is_pending State.pending = true
is_pending _ = false

abbrev pub is_recording : State → Bool
is_recording State.recording = true
is_recording _ = false

abbrev pub is_invalid : State → Bool
is_invalid State.invalid = true
is_invalid _ = false

-- the dirty flags of a command buffer
pub record Dirty : Type 0 where
  pub vertex_buffer_dirty : ℕ
  pub index_buffer_dirty : ℕ
  pub viewport_dirty : ℕ
  pub line_width_dirty : ℕ
  pub depth_bias_dirty : ℕ
  pub graphics_pipeline_dirty : ℕ
  pub compute_pipeline_dirty : ℕ
  pub subpass_dirty : ℕ
  pub blend_constants_dirty : ℕ
  pub scissor_dirty : ℕ
  pub depth_bounds_dirty : ℕ
  pub stencil_compare_mask_dirty : ℕ
  pub stencil_write_mask_dirty : ℕ
  pub stencil_reference_dirty : ℕ
  pub descriptor_set_dirty : ℕ
  pub push_constant_dirty : ℕ

abbrev pub all_dirty : Dirty
all_dirty = record {
  vertex_buffer_dirty = 1;
  index_buffer_dirty = 1;
  viewport_dirty = 1;
  line_width_dirty = 1;
  depth_bias_dirty = 1;
  graphics_pipeline_dirty = 1;
  compute_pipeline_dirty = 1;
  subpass_dirty = 1;
  blend_constants_dirty = 1;
  scissor_dirty = 1;
  depth_bounds_dirty = 1;
  stencil_compare_mask_dirty = 1;
  stencil_write_mask_dirty = 1;
  stencil_reference_dirty = 1;
  descriptor_set_dirty = 1;
  push_constant_dirty = 1;
}

-- the seven control lists of a command buffer
pub record Lists : Type 0 where
  pub bin_cl : ControlList
  pub handles_cl : ControlList
  pub shader_rec_cl : ControlList
  pub uniforms_cl : ControlList
  pub uniform_reloc_cl : ControlList
  pub gem_reloc_cl : ControlList
  pub shader_rec_reloc_cl : ControlList

-- `_commandBuffer`
pub record CommandBuffer : Type 0 where
  pub level : ℕ
  pub shader_rec_count : ℕ
  pub usage_flags : ℕ
  pub state : State
  pub lists : Lists
  pub graphics_pipeline : ℕ
  pub compute_pipeline : ℕ
  pub index_buffer : ℕ
  pub index_buffer_offset : ℕ
  pub curr_render_pass : ℕ
  pub perfmon_id : ℕ
  pub dirty : Dirty

-- a list emptied, with the blocks that it has
unfoldable pub empty_list : ControlList → ControlList
empty_list cl = record cl { next_free_byte_offset = cl.offset; curr_marker_offset = u32_max }

unfoldable pub empty_lists : Lists → Lists
empty_lists ls = record {
  bin_cl = empty_list ls.bin_cl;
  handles_cl = empty_list ls.handles_cl;
  shader_rec_cl = empty_list ls.shader_rec_cl;
  uniforms_cl = empty_list ls.uniforms_cl;
  uniform_reloc_cl = empty_list ls.uniform_reloc_cl;
  gem_reloc_cl = empty_list ls.gem_reloc_cl;
  shader_rec_reloc_cl = empty_list ls.shader_rec_reloc_cl;
}

-- `vkResetCommandBuffer`; the asserts on the state and on the pool are hypotheses of theorems.
unfoldable pub reset : CommandBuffer → CommandBuffer
reset cb = record cb {
  state = if is_recording cb.state || is_executable cb.state then State.invalid else State.initial;
  shader_rec_count = 0;
  lists = empty_lists cb.lists;
  graphics_pipeline = null;
  compute_pipeline = null;
  index_buffer = null;
  index_buffer_offset = 0;
  dirty = all_dirty;
  curr_render_pass = null;
  perfmon_id = null;
}

-- `vkBeginCommandBuffer` up to the render pass that a secondary command buffer inherits; `reset_able`
-- is that of the command buffer's pool.
unfoldable pub begin : Bool → ℕ → CommandBuffer → CommandBuffer
begin reset_able flags cb =
    record (if (is_invalid cb.state || is_executable cb.state) && reset_able
      then reset cb
      else cb) { usage_flags = flags; state = State.recording }

-- `vkEndCommandBuffer`
unfoldable pub end_recording : CommandBuffer → CommandBuffer
end_recording cb = record cb { state = State.executable }

-- the store of command buffers
abbrev pub Buffers : Type 0
Buffers = ℕ → CommandBuffer

unfoldable pub put_buffer : Buffers → ℕ → CommandBuffer → Buffers
put_buffer bufs p cb a = if a == p then cb else bufs a

-- the first loop of `vkQueueSubmit` over the command buffers of a batch
unfoldable pub submit_begin : CommandBuffer → CommandBuffer
submit_begin cb = if is_executable cb.state then record cb { state = State.pending } else cb

-- the last loop
unfoldable pub submit_end : CommandBuffer → CommandBuffer
submit_end cb =
    if is_pending cb.state
    then record cb { state = if (cb.usage_flags & 1) == 0 then State.executable else State.invalid }
    else cb

unfoldable pub each_buffer : (CommandBuffer → CommandBuffer) → List ℕ → Buffers → Buffers
each_buffer f [] bufs = bufs
each_buffer f (p ∷ ps) bufs = each_buffer f ps (put_buffer bufs p (f (bufs p)))

-- the search of `vkResetCommandPool` along the free list
unfoldable pub in_free_chain : ℕ → Mem → ℕ → ℕ → Option Bool
in_free_chain zero m c d = none
in_free_chain (suc fuel) m c d =
    let rest = in_free_chain fuel m c (load32 m d) in
    if d == null then some false else if c == d then some true else rest

-- the loop of `vkResetCommandPool` over the blocks, with `left` of them to go
unfoldable pub reset_blocks : ℕ → Mem → Pool → ℕ → Buffers → Option Buffers
reset_blocks zero m pa c bufs = some bufs
reset_blocks (suc left) m pa c bufs =
    in_free_chain (suc (pa.size / pa.block_size)) m c pa.next_free_block >>= λ is_free.
    reset_blocks left m pa (c + pa.block_size)
      (if is_free then bufs else put_buffer bufs c (record (bufs c) { state = State.initial }))

-- `vkResetCommandPool`
unfoldable pub reset_pool : Mem → Pool → Buffers → Option Buffers
reset_pool m pa bufs = reset_blocks (pa.size / pa.block_size) m pa pa.buf bufs
