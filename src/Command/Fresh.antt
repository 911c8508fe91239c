-- ===== src/Command/Fresh.antt =====
-- One turn of the loop of `vkAllocateCommandBuffers` of driver/command.c: a command buffer and the blocks of
-- its lists.
use rpi_vk_driver.Base.{
  ℕ, suc, ◌+◌, ◌-◌, ◌^◌, ◌≤◌, ◌<◌, ◌≡◌, ◌≢◌, refl, ap, ◌∙◌, true, false, List, [], ◌∷◌, ◌==◌, arith,
  All, All-mono, some, length, u32_max,
}
use rpi_vk_driver.Memory.{null}
use rpi_vk_driver.FreeList.{Inside, Apart}
use rpi_vk_driver.FreeList.Runs.{All-right}
use rpi_vk_driver.Pool.{Pool}
use rpi_vk_driver.Pool
use rpi_vk_driver.Pool.Invariant.{Holds, allocate-Holds}
use rpi_vk_driver.Consecutive.{Consecutive}
use rpi_vk_driver.Consecutive.Keeps.{Keeps, SameBuffer, Keeps-Inside}
use rpi_vk_driver.ControlList.{ControlList}
use rpi_vk_driver.ControlList
use rpi_vk_driver.Command.{Lists, put_buffer}
use rpi_vk_driver.Command.Batch.{put_buffer_self, put_buffer_other}
use rpi_vk_driver.Command.Pools.{
  CommandPool, fresh_buffer, to_lists, of_lists, all_found, allocate_one,
}
use rpi_vk_driver.Command.Given.{lists_at, reversed_onto, take_lists_lem}

-- The two pools of a command pool between calls: the free and the held command buffers, the free and
-- the held blocks of lists.
pub record Ready (cp : CommandPool) (free_buffers held free_blocks live : List ℕ) : Type 0 where
  pub holds : Holds cp.pa_mem cp.pa free_buffers held
  pub keeps : Keeps cp.cpa_mem cp.cpa free_blocks live

to_lists-some :
    (cls : List ControlList)
    → length cls ≡ 7
    → (ls : Lists) × (to_lists cls ≡ some ls) × (of_lists ls ≡ cls)
unfolding to_lists of_lists
to_lists-some (a ∷ b ∷ c ∷ d ∷ e ∷ f ∷ g ∷ []) h = (_, refl, refl)
to_lists-some [] h = absurd (omega arith)
to_lists-some (a ∷ []) h = absurd (omega arith)
to_lists-some (a ∷ b ∷ []) h = absurd (omega arith)
to_lists-some (a ∷ b ∷ c ∷ []) h = absurd (omega arith)
to_lists-some (a ∷ b ∷ c ∷ d ∷ []) h = absurd (omega arith)
to_lists-some (a ∷ b ∷ c ∷ d ∷ e ∷ []) h = absurd (omega arith)
to_lists-some (a ∷ b ∷ c ∷ d ∷ e ∷ f ∷ []) h = absurd (omega arith)
to_lists-some (a ∷ b ∷ c ∷ d ∷ e ∷ f ∷ g ∷ x ∷ xs) h = absurd (omega arith)

length-lists_at : (pa : Consecutive) (bs : List ℕ) → length (lists_at pa bs) ≡ length bs
length-lists_at pa [] = refl
length-lists_at pa (b ∷ bs) = ap suc (length-lists_at pa bs)

All-reversed {κ} :
    (P : ℕ → Type κ) (xs ys : List ℕ) → All P (reversed_onto xs ys) → All P xs × All P ys
All-reversed P [] ys h = (tt, h)
All-reversed P (x ∷ xs) ys h =
    let rest = All-reversed P xs (x ∷ ys) h in ((rest.1.0, rest.0), rest.1.1)

all_found_lem :
    (pa : Consecutive) (bs : List ℕ)
    → pa.buf + pa.size < 2 ^ 32
    → pa.buf ≢ null
    → All (Inside pa.buf pa.size pa.block_size) bs
    → all_found (lists_at pa bs) ≡ true
unfolding all_found ControlList.init
all_found_lem pa [] top ne inside = refl
all_found_lem pa (b ∷ bs) top ne inside =
    let e : (b - pa.buf == u32_max) ≡ false = ground (arith, inside.0) in
    rw e (all_found_lem pa bs top ne inside.1)

-- The list is empty, in the one block at `b` of the buffer at `buf`.
abbrev pub InBlock : ℕ → ℕ → ℕ → ControlList → Type 0
InBlock buf bs b cl =
    (cl.cpa ≡ buf)
    × (cl.block_size ≡ bs)
    × (cl.num_blocks ≡ 1)
    × (buf + cl.offset ≡ b)
    × (cl.next_free_byte_offset ≡ cl.offset)
    × (cl.curr_marker_offset ≡ u32_max)

-- Each list is in the block at its place.
abbrev pub InBlocks : ℕ → ℕ → List ℕ → List ControlList → Type 0
InBlocks buf bs [] [] = Unit
InBlocks buf bs (b ∷ blocks) (cl ∷ cls) = InBlock buf bs b cl × InBlocks buf bs blocks cls
InBlocks buf bs _ _ = ⊥

lists_at-InBlocks :
    (pa : Consecutive) (bs : List ℕ)
    → All (Inside pa.buf pa.size pa.block_size) bs
    → InBlocks pa.buf pa.block_size bs (lists_at pa bs)
unfolding ControlList.init
lists_at-InBlocks pa [] inside = tt
lists_at-InBlocks pa (b ∷ bs) inside =
    ((refl, refl, refl, omega (arith, inside.0), refl, refl), lists_at-InBlocks pa bs inside.1)

-- A command buffer and the blocks of its seven lists
abbrev pub Given : Type 0
Given = ℕ × List ℕ

abbrev pub entries : List Given → List ℕ
entries [] = []
entries ((p, bs) ∷ gs) = p ∷ entries gs

-- the held blocks with those of the new lists
abbrev pub live_with : List Given → List ℕ → List ℕ
live_with [] live = live
live_with ((p, bs) ∷ gs) live = live_with gs (reversed_onto bs live)

-- The command buffer is as it is after its allocation: in its initial state, its seven lists empty, each
-- in the one of the blocks at its place.
abbrev pub IsFresh : ℕ → ℕ → ℕ → CommandPool → Given → Type 0
IsFresh level buf size cp (p, bs) =
    (length bs ≡ 7)
    × ((ls : Lists) × (cp.buffers p ≡ fresh_buffer level ls) × InBlocks buf size bs (of_lists ls))

-- One turn of the loop takes a command buffer and seven blocks.
abbrev pub Turn : ℕ → CommandPool → ℕ → List ℕ → List ℕ → List ℕ → List ℕ → Type 0
Turn level cp x xs held free_blocks live =
    (cp' : CommandPool) × (bs : List ℕ) × (rest : List ℕ) × (allocate_one level cp
      ≡ some (x, true, cp'))
    × Ready cp' xs (x ∷ held) rest (reversed_onto bs live)
    × (length rest + 7 ≡ length free_blocks)
    × IsFresh level cp.cpa.buf cp.cpa.block_size cp' (x, bs)
    × All (λ q. cp'.buffers q ≡ cp.buffers q) held
    × SameBuffer cp.cpa cp'.cpa

pub allocate_one_lem :
    (level : ℕ) (cp : CommandPool) (x : ℕ) (xs held free_blocks live : List ℕ)
    → Ready cp (x ∷ xs) held free_blocks live
    → 7 ≤ length free_blocks
    → Turn level cp x xs held free_blocks live
unfolding allocate_one
allocate_one_lem level cp x xs held free_blocks live h enough =
    let got = allocate-Holds cp.pa_mem cp.pa x xs held h.holds in
    let (bs, m', pa', rest, computed, counted, keeps, count, same) =
      take_lists_lem 7 cp.cpa_mem cp.cpa free_blocks live h.keeps enough in
    let (ls, packed, order) =
      to_lists-some (lists_at cp.cpa bs) (length-lists_at cp.cpa bs ∙ counted) in
    let inside : All (Inside cp.cpa.buf cp.cpa.size cp.cpa.block_size) bs =
      (All-reversed (Inside cp.cpa.buf cp.cpa.size cp.cpa.block_size) bs live (
        rw (same.0, same.1, same.2) at
          (All-right (Inside pa'.buf pa'.size pa'.block_size) rest _ (Keeps-Inside keeps)))).0 in
    let found = all_found_lem cp.cpa bs h.keeps.below_top h.keeps.buffer.not_null inside in
    let ne : (x == null) ≡ false = ground (arith, h.holds.chain.1) in
    let at : (Pool.allocate cp.pa_mem cp.pa).0 ≡ x = got.0 in
    let cp' : CommandPool = record cp {
      pa = (Pool.allocate cp.pa_mem cp.pa).1;
      cpa_mem = m';
      cpa = pa';
      buffers = put_buffer cp.buffers x (fresh_buffer level ls);
    } in
    (
      cp',
      bs,
      rest,
      rw (at, ne, computed, packed, found) refl,
      record { holds = got.1; keeps = keeps },
      count,
      (
        counted,
        (
          ls,
          put_buffer_self cp.buffers x (fresh_buffer level ls),
          rw order (lists_at-InBlocks cp.cpa bs inside),
        ),
      ),
      All-mono (Apart cp.pa.block_size x) (λ q. cp'.buffers q ≡ cp.buffers q)
          (λ q away.
            put_buffer_other cp.buffers x q (fresh_buffer level ls)
              (λ e. omega (arith, h.holds.buffer.room_for_link)))
          held h.holds.cross_apart.0,
      same,
    )
