-- ===== src/Examples/Runs.antt =====
-- Pools of runs, of a few blocks.
use rpi_vk_driver.Base.{
  ◌+◌, ◌/◌, ◌≡◌, refl, ◌⊎◌, [], ◌∷◌, ◌++◌, some, arith, length, All, is_some, true, u32_max,
}
use mathlib.Core.List.Permᴰ
use rpi_vk_driver.Memory.{Mem, null, load32, store32}
use rpi_vk_driver.FreeList.{Chain, Separate, Inside, blocks}
use rpi_vk_driver.Pool.{link_blocks}
use rpi_vk_driver.Pool.Invariant.{IsBuffer}
use rpi_vk_driver.Consecutive.{
  Consecutive, create, allocate, free, consecutive, scan, unlink, thread_run, free_walk,
  insert_after, grow_in_place, reallocate,
}
use rpi_vk_driver.Consecutive.Keeps.{Keeps, create-Keeps}
use rpi_vk_driver.Consecutive.Scan.{HasRun}
use rpi_vk_driver.Consecutive.Allocate.{Granted, Refused, allocate_cases}
use rpi_vk_driver.Consecutive.Returned.{Returned}
use rpi_vk_driver.Consecutive.Free.{free_lem}
use rpi_vk_driver.Consecutive.Clients.{
  Shared, Reach, here, next, take_run, give_back, started, run_blocks,
}
use rpi_vk_driver.Consecutive.Safety.{reach_safe}
use rpi_vk_driver.Consecutive.Grow.{grown}
use rpi_vk_driver.Consecutive.InPlace.{reallocate_last, reallocate_later}
use rpi_vk_driver.Consecutive.Contents.{Moves, Stays, reallocate_cases}
use rpi_vk_driver.ControlList.{ControlList}
use rpi_vk_driver.ControlList.Fit.{Owns, Fits, fit, rebase, fit_cases}
use rpi_vk_driver.Consecutive.Move.{Moved, reallocate_moves}

abbrev blank : Mem
blank a = 0

-- four blocks of 4 bytes at 16
four-IsBuffer : IsBuffer 16 4 16
four-IsBuffer = record {
  not_null = omega arith;
  room_for_link = omega arith;
  exact = omega arith;
  at_least_one = omega arith;
  in_memory = omega arith;
}

abbrev fresh : Shared
fresh = started blank 16 4 16

abbrev two_left : Consecutive
two_left = record { buf = 16; next_free_block = 24; block_size = 4; size = 16; num_free_blocks = 2 }

two_taken : allocate fresh.mem fresh.pool 2 ≡ some (0, fresh.mem, two_left)
unfolding started create link_blocks allocate scan consecutive unlink load32 store32
two_taken = refl

abbrev threaded : Mem
threaded = thread_run fresh.mem 16 4 2 24

two_freed :
    free fresh.mem two_left 16 2
    ≡ some (threaded, record two_left { next_free_block = 16; num_free_blocks = 4 })
unfolding started create link_blocks free free_walk insert_after load32 store32
two_freed = refl

abbrev all_back : Shared
all_back = record {
  mem = threaded;
  pool = record two_left { next_free_block = 16; num_free_blocks = 4 };
  live = [];
}

taken_and_given : Reach fresh all_back
unfolding started create
taken_and_given =
    next (next here (take_run fresh 1 0 fresh.mem two_left (omega arith) two_taken (omega arith))) (
      give_back (record { mem = fresh.mem; pool = two_left; live = (16, 1) ∷ [] }) [] 16 1 []
        threaded (record two_left { next_free_block = 16; num_free_blocks = 4 }) refl two_freed)

reach_safe_example :
    All (Inside 16 16 4) (run_blocks 4 all_back.live)
    × Separate 4 (run_blocks 4 all_back.live)
    × (all_back.pool.num_free_blocks + length (run_blocks 4 all_back.live) ≡ 16 / 4)
    × (is_some (allocate all_back.mem all_back.pool 3) ≡ true)
reach_safe_example =
    reach_safe blank 16 4 16 2 all_back four-IsBuffer (omega arith) (omega arith) taken_and_given

fresh-Keeps : Keeps fresh.mem fresh.pool (16 ∷ 20 ∷ 24 ∷ 28 ∷ []) []
unfolding started create blocks
fresh-Keeps = (create-Keeps blank 16 4 16 four-IsBuffer (omega arith)).0

allocate_cases_example :
    Granted fresh.mem fresh.pool (16 ∷ 20 ∷ 24 ∷ 28 ∷ []) [] 2
    ⊎ Refused fresh.mem fresh.pool (16 ∷ 20 ∷ 24 ∷ 28 ∷ []) [] 2
allocate_cases_example =
    allocate_cases fresh.mem fresh.pool (16 ∷ 20 ∷ 24 ∷ 28 ∷ []) [] 2 fresh-Keeps (omega arith)

-- the first block is out
abbrev three_left : Consecutive
three_left = record {
  buf = 16;
  next_free_block = 20;
  block_size = 4;
  size = 16;
  num_free_blocks = 3;
}

three_left-Keeps : Keeps fresh.mem three_left (20 ∷ 24 ∷ 28 ∷ []) ([] ++ (blocks 16 4 1 ++ []))
unfolding started create blocks load32 store32 link_blocks
three_left-Keeps = record {
  buffer = four-IsBuffer;
  below_top = omega arith;
  chain = fresh-Keeps.chain.2;
  shared_out = Permᴰ.middle 16 (20 ∷ 24 ∷ 28 ∷ []) [];
  counted = refl;
}

free_lem_example : Returned fresh.mem three_left (20 ∷ 24 ∷ 28 ∷ []) [] 16 0 []
free_lem_example = free_lem fresh.mem three_left (20 ∷ 24 ∷ 28 ∷ []) [] 16 0 [] three_left-Keeps

reallocate_moves_example :
    Moved fresh.mem three_left (20 ∷ 24 ∷ 28 ∷ []) [] 16 0 [] 2
    ⊎ ((reallocate fresh.mem three_left 16 1 3 ≡ some (u32_max, fresh.mem, three_left))
        × (HasRun 4 3 (20 ∷ 24 ∷ 28 ∷ []) → ⊥))
unfolding grow_in_place
reallocate_moves_example =
    reallocate_moves fresh.mem three_left (20 ∷ 24 ∷ 28 ∷ []) [] 16 0 [] 2 three_left-Keeps
      (omega arith) (omega arith) refl

reallocate_cases_example :
    Moves fresh.mem three_left 16 0 2 ⊎ Stays fresh.mem three_left 16 0 2 (20 ∷ 24 ∷ 28 ∷ [])
reallocate_cases_example =
    reallocate_cases fresh.mem three_left (20 ∷ 24 ∷ 28 ∷ []) [] 16 0 [] 2 three_left-Keeps
      (omega arith) (omega arith)

-- a control list in the first block, with three bytes written
abbrev short_list : ControlList
short_list = record {
  cpa = 16;
  offset = 0;
  num_blocks = 1;
  block_size = 4;
  next_free_byte_offset = 3;
  curr_marker_offset = u32_max;
}

short_list-Owns : Owns three_left short_list 16 0
short_list-Owns = record {
  same_pool = refl;
  same_block = refl;
  at_offset = refl;
  owned = refl;
  in_order = omega arith;
  not_full = omega arith;
}

fit_cases_example :
    Fits fresh.mem three_left short_list 5
    ⊎ ((fit fresh.mem three_left short_list 5
          ≡ some (fresh.mem, three_left, rebase short_list u32_max 3))
        × (HasRun 4 3 (20 ∷ 24 ∷ 28 ∷ []) → ⊥))
fit_cases_example =
    fit_cases fresh.mem three_left (20 ∷ 24 ∷ 28 ∷ []) [] short_list 16 0 [] 5 three_left-Keeps
      short_list-Owns (omega arith)

-- two blocks of 4 bytes at 16, the first one out
two-IsBuffer : IsBuffer 16 4 8
two-IsBuffer = record {
  not_null = omega arith;
  room_for_link = omega arith;
  exact = omega arith;
  at_least_one = omega arith;
  in_memory = omega arith;
}

abbrev pair_mem : Mem
pair_mem = (create blank 16 4 8).0

abbrev one_left : Consecutive
one_left = record { buf = 16; next_free_block = 20; block_size = 4; size = 8; num_free_blocks = 1 }

one_left-Keeps : Keeps pair_mem one_left (20 ∷ []) ([] ++ (blocks 16 4 1 ++ []))
unfolding create blocks load32 store32 link_blocks
one_left-Keeps = record {
  buffer = two-IsBuffer;
  below_top = omega arith;
  chain = (create-Keeps blank 16 4 8 two-IsBuffer (omega arith)).0.chain.2;
  shared_out = Permᴰ.middle 16 (20 ∷ []) [];
  counted = refl;
}

reallocate_last_example :
    (reallocate pair_mem one_left 16 1 2 ≡ some (0, pair_mem, grown one_left 20))
    × Chain pair_mem 20 (20 ∷ [])
    × ((grown one_left 20).num_free_blocks ≡ 0)
reallocate_last_example = reallocate_last pair_mem one_left [] 16 0 [] one_left-Keeps (omega arith)

-- the first block is out, and the others are in the list from last to first
abbrev backward_mem : Mem
backward_mem = store32 (store32 (store32 blank 28 24) 24 20) 20 null

abbrev backward : Consecutive
backward = record three_left { next_free_block = 28 }

backward-Keeps :
    Keeps backward_mem backward ((28 ∷ []) ++ (24 ∷ 20 ∷ [])) ([] ++ (blocks 16 4 1 ++ []))
unfolding blocks store32 load32
backward-Keeps = record {
  buffer = four-IsBuffer;
  below_top = omega arith;
  chain = (refl, omega arith, (refl, omega arith, (refl, omega arith, refl)));
  shared_out = Permᴰ.reverse (16 ∷ 20 ∷ 24 ∷ 28 ∷ []);
  counted = refl;
}

reallocate_later_example :
    (reallocate backward_mem backward 16 1 2
      ≡ some (0, store32 backward_mem 24 (load32 backward_mem 20), grown backward 24))
    × Chain (store32 backward_mem 24 (load32 backward_mem 20)) 24 (24 ∷ [])
    × ((grown backward 24).num_free_blocks ≡ 1 + 1)
reallocate_later_example =
    reallocate_later backward_mem backward [] 16 0 [] (28 ∷ []) 24 [] backward-Keeps (omega arith)
