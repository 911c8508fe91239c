-- ===== src/Lib.antt =====
-- rpi-vk-driver: a Vulkan driver for the VideoCore IV of the Raspberry Pi. The driver keeps its
-- objects in pools that the application's allocator pays for, turns API state into the numbers and
-- words of the hardware, lays images out for the texture unit, and writes control lists that the
-- kernel runs. This library models those parts; each file names the C file that it is about.
--
-- Parts and files
-- - Base, Memory, FreeList: numbers, lists, bits, byte-addressed memory, linked lists in memory.
-- - Pool (driver/PoolAllocator.c): `create`, `allocate`, `free` on the memory and the allocator's
--   fields; Pool/Invariant and Pool/Clients relate them to a list of free and a list of live blocks.
-- - Fifo (driver/fifo.c): a doubly linked queue over two pools. Fifo/Links has the shape of a
--   well-formed queue, Create, Add and Order are about the functions one by one, and Refines about
--   the queue of values that the memory stands for.
-- - Consecutive (driver/ConsecutivePoolAllocator.c): the allocator for runs of blocks, over a free
--   list in address order. Consecutive/Keeps relates its fields to the free and the live blocks;
--   Scan, Unlink and Allocate follow an allocation, Thread, Returned and Free a return, Grow,
--   InPlace, Move and Contents `consecutivePoolReAllocate`, and Clients and Safety a run of calls.
-- - Linear (driver/LinearAllocator.c): the bump allocator.
-- - Map (driver/map.c): a hash table with open addressing.
-- - Format, States, Encode, Stencil, Rounding, Tiling (driver/common.c): the tables and packed words.
-- - Descriptor (driver/descriptorSet.c): descriptors and the maps from binding numbers to them, for one
--   kind of descriptor at a time. Places and Lookup are about filling them in, Update about writes.
--   Map/Room is about stores into a table with an empty bucket.
-- - Image (driver/resource.c, driver/kernelInterface.c): image tiling, mip levels and sizes.
-- - ControlList (driver/ControlListUtil.c): the writer. ControlList/Packets has a function for each
--   packet, Records the shader and attribute records and the handle table, Markers the headers of
--   render passes. Emits and Framing say which bytes a packet appends, Stream and Walk how the
--   hardware goes over them, Handles, Segments and Fields what the tables and fields hold.
--   ControlList/Fit is about `clFit` of driver/common.c, which moves a list that has to grow.
-- - Vulkan, Command (driver/command.c): the result codes; the states of command buffers through
--   recording, submission and reset. Command/Pools makes and frees command buffers out of the pools
--   of a command pool: it composes Pool, Consecutive and ControlList; Given, Fresh, Entries, Short and
--   Return are about it. Command/Jobs has a batch of `vkQueueSubmit` with what its walk over the
--   markers does to the lists of handles; Submit and Settled are about it.
-- - Sync (driver/sync.c, `vc4_seqno_wait` of driver/kernelInterface.c): fences, waits and timeouts.
-- - Query (driver/query.c, its wrappers in driver/kernelInterface.c, the passes of driver/device.c):
--   pools of performance queries. Query/Monitors and Returned are about the monitors that are made
--   and destroyed, Stores and Results about the results that a query leaves.
-- - Examples: the theorems applied to concrete inputs.
--
-- Bounds and fuel: a 32-bit value is a number below 2 ^ 32 and operations wrap by `u32`, `add32`,
-- `sub32` and `mul32`. An address is a 32-bit number, as on the ARMv6 and ARMv7 targets. The loop
-- of `ulog2` has 32 rounds, one for each digit of its argument. The loops of the hash table get as
-- many rounds as there are buckets: a lookup goes round the whole table in that time (Map/Probe),
-- and `deleteMapElement`, which moves up by one at each round, has left it. The other loops run
-- over a list or a count that the code has before the loop. The walks along the free list of
-- Consecutive get one round more than the buffer has blocks, which `fuel_enough` of
-- Consecutive/Keeps is about, and the search of `vkResetCommandPool` likewise.
--
-- The ioctls are not the driver's code: Sync has the wait for a sequence number, and Query those of
-- the performance monitors, as parameters over a state of the kernel. The loops of Query over the
-- counters get a round more than there are counters, and the one over the results a round more than
-- there are bytes.
--
-- Not modelled: the other ioctls of driver/kernelInterface.c, the jobs that a submission gives to
-- the kernel and the closing of its last marker, secondary command buffers, semaphores and events,
-- pools and layouts of descriptor sets, the drawing state that a command buffer carries, the Vulkan
-- entry points that only fill objects or copy fields, the shader assembler, and the code copied
-- from Mesa (brcm). The asserts are no-ops in a release build; where the code relies on one, the
-- theorem has it as a hypothesis.
pub mod Base
pub mod Memory
pub mod FreeList
pub mod Pool
pub mod Consecutive
pub mod Linear
pub mod Format
pub mod Rounding
pub mod Tiling
pub mod Image
pub mod States
pub mod Encode
pub mod Stencil
pub mod Fifo
pub mod Map
pub mod ControlList
pub mod Vulkan
pub mod Command
pub mod Sync
pub mod Examples
pub mod Query
pub mod Descriptor
