-- ===== src/Command/Short.antt =====
-- `vkAllocateCommandBuffers` of driver/command.c when its pool runs out of command buffers.
use rpi_vk_driver.Base.{ℕ, ◌≡◌, false, List, [], ◌∷◌, ◌++◌, All, some}
use rpi_vk_driver.Memory.{null}
use rpi_vk_driver.Consecutive.{Consecutive}
use rpi_vk_driver.Consecutive.Keeps.{Keeps}
use rpi_vk_driver.ControlList.{ControlList}
use rpi_vk_driver.Command.Pools.{CommandPool, allocate_each}
use rpi_vk_driver.Command.Given.{reversed_onto}
use rpi_vk_driver.Command.Fresh.{Ready, Given, entries, live_with, IsFresh}
use mathlib.Core.List.{Permᴰ}
use mathlib.Core.List.Permᴰ

-- The loop, when the command buffers run out after those of the list
abbrev RunsOut : ℕ → ℕ → ℕ → List ℕ → CommandPool → List ℕ → List ℕ → List ℕ → Type 0
RunsOut level buf size olds cp held free_blocks live =
    (gs : List Given) × (olds' : List ℕ) × (cp' : CommandPool) × (rest : List ℕ) × (allocate_each
        level olds cp
      ≡ some (entries gs ++ (null ∷ olds'), false, cp'))
    × Ready cp' [] (reversed_onto (entries gs) held) rest (live_with gs live)
    × All (IsFresh level buf size cp') gs
    × All (λ q. cp'.buffers q ≡ cp.buffers q) held
    × (cp'.cpa.buf ≡ buf)
    × (cp'.cpa.block_size ≡ size)
