-- ===== src/Command/Pools.antt =====
-- driver/command.c: how command buffers and the blocks of their control lists are taken from a command
-- pool and given back.
use rpi_vk_driver.Base.{
  ℕ, zero, suc, Bool, true, false, ◌&&◌, not, List, [], ◌∷◌, Option, some, none, u32_max, ◌==◌,
  if◌then◌else◌, ◌>>=◌, ◌&◌, ◌*◌,
}
use rpi_vk_driver.Memory.{Mem, null}
use rpi_vk_driver.Pool.{Pool}
use rpi_vk_driver.Pool
use rpi_vk_driver.Consecutive.{Consecutive}
use rpi_vk_driver.Consecutive
use rpi_vk_driver.ControlList.{ControlList, get_cpa_ptr_from_offset}
use rpi_vk_driver.ControlList
use rpi_vk_driver.Vulkan.{VkResult}
use rpi_vk_driver.Command.{State, CommandBuffer, Buffers, Lists, all_dirty, put_buffer}

-- `_commandPool`, with the memory of its two buffers, and the command buffers in the first one
pub record CommandPool : Type 0 where
  pub queue_family_index : ℕ
  pub reset_able : ℕ
  pub pa_mem : Mem
  pub pa : Pool
  pub cpa_mem : Mem
  pub cpa : Consecutive
  pub buffers : Buffers

-- `vkCreateCommandPool`, given what its three allocations return: the result, the pool, and what was
-- freed again. `size_of` is the size of the structure of a command buffer.
unfoldable pub create_command_pool :
    (size_of cp pa_buf cpa_buf queue_family_index flags : ℕ)
    → Mem
    → Mem
    → Buffers
    → VkResult × Option CommandPool × List ℕ
create_command_pool size_of cp pa_buf cpa_buf queue_family_index flags pa_mem cpa_mem buffers =
    if cp == null
    then (VkResult.out_of_host_memory, none, [])
    else if pa_buf == null
    then (VkResult.out_of_host_memory, none, cp ∷ [])
    else if cpa_buf == null
    then (VkResult.out_of_host_memory, none, cp ∷ [])
    else let (pa_mem', pa) = Pool.create pa_mem pa_buf size_of (128 * size_of) in
      let (cpa_mem', cpa) = Consecutive.create cpa_mem cpa_buf 4096 (512 * 4096) in
      (
        VkResult.success,
        some (record {
          queue_family_index = queue_family_index;
          reset_able = flags & 2;
          pa_mem = pa_mem';
          pa = pa;
          cpa_mem = cpa_mem';
          cpa = cpa;
          buffers = buffers;
        }),
        [],
      )

-- `clInit` of `n` lists in turn, each with a block of its own
unfoldable pub take_lists : ℕ → Mem → Consecutive → Option (List ControlList × Mem × Consecutive)
take_lists zero m pa = some ([], m, pa)
take_lists (suc n) m pa = Consecutive.allocate m pa 1 >>= λ (offset, m', pa').
    take_lists n m' pa' >>= λ (cls, m'', pa'').
    some (ControlList.init pa.buf offset pa.block_size ∷ cls, m'', pa'')

-- one command buffer as `vkAllocateCommandBuffers` fills it in
unfoldable pub fresh_buffer : ℕ → Lists → CommandBuffer
fresh_buffer level ls = record {
  level = level;
  shader_rec_count = 0;
  usage_flags = 0;
  state = State.initial;
  lists = ls;
  graphics_pipeline = null;
  compute_pipeline = null;
  index_buffer = null;
  index_buffer_offset = 0;
  curr_render_pass = null;
  perfmon_id = null;
  dirty = all_dirty;
}

-- the lists in the order in which the code takes their blocks
unfoldable pub to_lists : List ControlList → Option Lists
to_lists
      (bin ∷ handles ∷ shader_rec ∷ uniforms ∷ uniform_reloc ∷ gem_reloc ∷ shader_rec_reloc ∷ []) =
    some (record {
      bin_cl = bin;
      handles_cl = handles;
      shader_rec_cl = shader_rec;
      uniforms_cl = uniforms;
      uniform_reloc_cl = uniform_reloc;
      gem_reloc_cl = gem_reloc;
      shader_rec_reloc_cl = shader_rec_reloc;
    })
to_lists _ = none

unfoldable pub of_lists : Lists → List ControlList
of_lists ls =
    ls.bin_cl ∷ ls.handles_cl ∷ ls.shader_rec_cl ∷ ls.uniforms_cl ∷ ls.uniform_reloc_cl
    ∷ ls.gem_reloc_cl ∷ ls.shader_rec_reloc_cl ∷ []

-- Does no list have the offset -1?
unfoldable pub all_found : List ControlList → Bool
all_found [] = true
all_found (cl ∷ cls) = not (cl.offset == u32_max) && all_found cls

-- one turn of the loop of `vkAllocateCommandBuffers`: the entry, and whether the loop goes on
unfoldable pub allocate_one : ℕ → CommandPool → Option (ℕ × Bool × CommandPool)
allocate_one level cp =
    let (p, pa) = Pool.allocate cp.pa_mem cp.pa in
    if p == null
    then some (null, false, record cp { pa = pa })
    else take_lists 7 cp.cpa_mem cp.cpa >>= λ (cls, cpa_mem, cpa). to_lists cls >>= λ ls. some (
      p,
      all_found cls,
      record cp {
        pa = pa;
        cpa_mem = cpa_mem;
        cpa = cpa;
        buffers = put_buffer cp.buffers p (fresh_buffer level ls);
      },
    )

-- The loop over the caller's array: its entries, and whether all went well. The entries behind a
-- failure are what the caller had there.
unfoldable pub allocate_each : ℕ → List ℕ → CommandPool → Option (List ℕ × Bool × CommandPool)
allocate_each level [] cp = some ([], true, cp)
allocate_each level (old ∷ olds) cp = allocate_one level cp >>= λ (p, goes_on, cp').
    if goes_on
    then (allocate_each level olds cp' >>= λ (ps, all_well, cp''). some (p ∷ ps, all_well, cp''))
    else some (p ∷ olds, false, cp')

-- `consecutivePoolFree` of the blocks of each list
unfoldable pub free_lists : List ControlList → Mem → Consecutive → Option (Mem × Consecutive)
free_lists [] m pa = some (m, pa)
free_lists (cl ∷ cls) m pa =
    Consecutive.free m pa (get_cpa_ptr_from_offset pa.buf cl.offset) cl.num_blocks >>= λ (m', pa').
    free_lists cls m' pa'

-- the blocks of the command buffer at `p` and of its lists
unfoldable pub free_one : ℕ → CommandPool → Option CommandPool
free_one p cp = free_lists (of_lists (cp.buffers p).lists) cp.cpa_mem cp.cpa >>= λ (cpa_mem, cpa).
    let (pa_mem, pa) = Pool.free cp.pa_mem cp.pa p in
    some (record cp { pa_mem = pa_mem; pa = pa; cpa_mem = cpa_mem; cpa = cpa })

-- `vkFreeCommandBuffers`
unfoldable pub free_command_buffers : List ℕ → CommandPool → Option CommandPool
free_command_buffers [] cp = some cp
free_command_buffers (p ∷ ps) cp =
    if p == null
    then free_command_buffers ps cp
    else free_one p cp >>= λ cp'. free_command_buffers ps cp'

-- How a call ends: it returns, or it goes through a null pointer.
pub data Ending (A : Type 0) : Type 0 where
  returned : A → Ending A
  null_access : Ending A

-- the clean-up of `vkAllocateCommandBuffers` after a failure, over the entries
unfoldable pub clean_up : List ℕ → CommandPool → Option (Ending CommandPool)
clean_up [] cp = some (Ending.returned cp)
clean_up (p ∷ ps) cp =
    if p == null then some Ending.null_access else free_one p cp >>= λ cp'. clean_up ps cp'

unfoldable pub zeros : List ℕ → List ℕ
zeros [] = []
zeros (p ∷ ps) = null ∷ zeros ps

-- `vkAllocateCommandBuffers` into the caller's array
unfoldable pub allocate_command_buffers :
    ℕ → List ℕ → CommandPool → Option (Ending (VkResult × List ℕ × CommandPool))
allocate_command_buffers level olds cp = allocate_each level olds cp >>= λ (ps, all_well, cp').
    let failed = clean_up ps cp' >>= λ ending. some (elim ending [
      | Ending.returned cp'' ↦ Ending.returned (VkResult.out_of_host_memory, zeros ps, cp'')
      | Ending.null_access ↦ Ending.null_access
    ]) in
    if all_well then some (Ending.returned (VkResult.success, ps, cp')) else failed
