-- ===== src/Command/Entries.antt =====
-- The loop of `vkAllocateCommandBuffers` of driver/command.c over the caller's array.
use rpi_vk_driver.Base.{
  ℕ, ◌+◌, ◌*◌, ◌≤◌, ◌≡◌, refl, subst, ◌∙◌, true, List, [], ◌∷◌, arith, All, All-mono, All-zip, some,
  length,
}
use rpi_vk_driver.Command.Pools.{
  CommandPool, of_lists, allocate_each, Ending, allocate_command_buffers,
}
use rpi_vk_driver.Vulkan.{VkResult}
use rpi_vk_driver.Command.Given.{reversed_onto}
use rpi_vk_driver.Command.Fresh.{
  Ready, InBlocks, Given, entries, live_with, IsFresh, allocate_one_lem,
}

-- The loop over `n` entries, while both pools last
abbrev Filled : ℕ → ℕ → ℕ → List ℕ → CommandPool → List ℕ → List ℕ → List ℕ → List ℕ → Type 0
Filled level buf size olds cp free_buffers held free_blocks live =
    (gs : List Given) × (cp' : CommandPool) × (left : List ℕ) × (rest : List ℕ) × (allocate_each
        level olds cp
      ≡ some (entries gs, true, cp'))
    × Ready cp' left (reversed_onto (entries gs) held) rest (live_with gs live)
    × (length left + length olds ≡ length free_buffers)
    × (length rest + 7 * length olds ≡ length free_blocks)
    × All (IsFresh level buf size cp') gs
    × All (λ q. cp'.buffers q ≡ cp.buffers q) held

allocate_each_lem :
    (level buf size : ℕ) (olds : List ℕ) (cp : CommandPool)
    (free_buffers held free_blocks live : List ℕ)
    → cp.cpa.buf ≡ buf
    → cp.cpa.block_size ≡ size
    → Ready cp free_buffers held free_blocks live
    → length olds ≤ length free_buffers
    → 7 * length olds ≤ length free_blocks
    → Filled level buf size olds cp free_buffers held free_blocks live
unfolding allocate_each
allocate_each_lem level buf size [] cp free_buffers held free_blocks live eb es h enough enough' =
    ([], cp, free_buffers, free_blocks, refl, h, omega arith, omega arith, tt, same held)
  where
    same : (xs : List ℕ) → All (λ q. cp.buffers q ≡ cp.buffers q) xs
    same [] = tt
    same (x ∷ xs) = (refl, same xs)
allocate_each_lem level buf size (old ∷ olds) cp [] held free_blocks live eb es h enough enough' =
    absurd (omega arith)
allocate_each_lem level buf size (old ∷ olds) cp (x ∷ xs) held free_blocks live eb es h enough
      enough' =
    let (cp1, bs, rest1, computed1, ready1, count1, (seven, (ls, is_new, placed)), same1, alike) =
      allocate_one_lem level cp x xs held free_blocks live h (omega arith) in
    let (gs, cp2, left, rest, computed, ready, count_left, count_rest, fresh, same) =
      allocate_each_lem level buf size olds cp1 xs (x ∷ held) rest1 (reversed_onto bs live)
        (alike.0 ∙ eb) (alike.1 ∙ es) ready1 (omega arith) (omega (arith, count1)) in
    let here : InBlocks buf size bs (of_lists ls) =
      subst (λ s. InBlocks buf s bs (of_lists ls)) es
        (subst (λ b. InBlocks b cp.cpa.block_size bs (of_lists ls)) eb placed) in
    (
      (x, bs) ∷ gs,
      cp2,
      left,
      rest,
      rw (computed1, computed) refl,
      ready,
      omega (arith, count_left),
      omega (arith, count_rest, count1),
      ((seven, (ls, same.0 ∙ is_new, here)), fresh),
      All-mono (λ q. (cp2.buffers q ≡ cp1.buffers q) × (cp1.buffers q ≡ cp.buffers q))
          (λ q. cp2.buffers q ≡ cp.buffers q) (λ q e. e.0 ∙ e.1) held
          (All-zip (λ q. cp2.buffers q ≡ cp1.buffers q) (λ q. cp1.buffers q ≡ cp.buffers q) held
            same.1 same1),
    )

-- `vkAllocateCommandBuffers` on a command pool that has enough free command buffers, and seven free
-- blocks for each, succeeds: every entry is a command buffer in its initial state, whose seven lists are
-- empty, each in a block of its own. The pool stays well-formed, with just those command buffers and
-- those blocks taken from it, and the command buffers that were held are as they were.
pub allocate_command_buffers_lem :
    (level : ℕ) (olds : List ℕ) (cp : CommandPool) (free_buffers held free_blocks live : List ℕ)
    → Ready cp free_buffers held free_blocks live
    → length olds ≤ length free_buffers
    → 7 * length olds ≤ length free_blocks
    → (gs : List Given) × (cp' : CommandPool) × (left : List ℕ) × (rest : List ℕ)
      × (allocate_command_buffers level olds cp
          ≡ some (Ending.returned (VkResult.success, entries gs, cp')))
      × Ready cp' left (reversed_onto (entries gs) held) rest (live_with gs live)
      × (length left + length olds ≡ length free_buffers)
      × (length rest + 7 * length olds ≡ length free_blocks)
      × All (IsFresh level cp.cpa.buf cp.cpa.block_size cp') gs
      × All (λ q. cp'.buffers q ≡ cp.buffers q) held
unfolding allocate_command_buffers
allocate_command_buffers_lem level olds cp free_buffers held free_blocks live h enough enough' =
    let (gs, cp', left, rest, computed, ready, count_left, count_rest, fresh, same) =
      allocate_each_lem level cp.cpa.buf cp.cpa.block_size olds cp free_buffers held free_blocks
        live refl refl h enough enough' in
    (gs, cp', left, rest, rw computed refl, ready, count_left, count_rest, fresh, same)
