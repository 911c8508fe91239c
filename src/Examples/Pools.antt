-- ===== src/Examples/Pools.antt =====
-- Pools and linear allocators of a few bytes.
use rpi_vk_driver.Base.{◌+◌, ◌/◌, ◌≤◌, ◌≡◌, refl, ◌↔◌, [], ◌∷◌, ◌++◌, arith, length, All}
use rpi_vk_driver.Memory.{Mem, null, load32, store32}
use rpi_vk_driver.FreeList.{Separate, Inside}
use rpi_vk_driver.Pool
use rpi_vk_driver.Pool.Invariant.{IsBuffer}
use rpi_vk_driver.Pool.Clients.{
  Shared, Reach, here, next, take_block, give_back, started, reach-safe,
}
use rpi_vk_driver.Linear

abbrev blank : Mem
blank a = 0

-- two blocks of 4 bytes at 16
small-IsBuffer : IsBuffer 16 4 8
small-IsBuffer = record {
  not_null = omega arith;
  room_for_link = omega arith;
  exact = omega arith;
  at_least_one = omega arith;
  in_memory = omega arith;
}

abbrev fresh : Shared
fresh = started blank 16 4 8

first_found : (Pool.allocate fresh.mem fresh.pool).0 ≡ 16
unfolding started Pool.create Pool.allocate load32 store32
first_found = refl

-- after one allocation
abbrev one_taken : Shared
one_taken = record fresh {
  pool = (Pool.allocate fresh.mem fresh.pool).1;
  live = (Pool.allocate fresh.mem fresh.pool).0 ∷ fresh.live;
}

-- and after the block is given back
abbrev none_taken : Shared
none_taken = record {
  mem = (Pool.free one_taken.mem one_taken.pool (Pool.allocate fresh.mem fresh.pool).0).0;
  pool = (Pool.free one_taken.mem one_taken.pool (Pool.allocate fresh.mem fresh.pool).0).1;
  live = [] ++ fresh.live;
}

taken_and_given : Reach fresh none_taken
taken_and_given =
    next (next here (take_block fresh (omega (arith, first_found))))
      (give_back one_taken [] (Pool.allocate fresh.mem fresh.pool).0 fresh.live refl)

reach-safe_example :
    All (Inside 16 8 4) none_taken.live
    × Separate 4 none_taken.live
    × (length none_taken.live ≤ 8 / 4)
    × (((Pool.allocate none_taken.mem none_taken.pool).0 ≡ null) ↔ (length none_taken.live ≡ 8 / 4))
reach-safe_example = reach-safe blank 16 4 8 none_taken small-IsBuffer taken_and_given

abbrev half_used : Linear.Linear
half_used = record { buf = 64; offset = 8; size = 20 }

half_used-IsValid : Linear.IsValid half_used
half_used-IsValid = record { not_null = omega arith; inside = omega arith; in_memory = omega arith }

allocate_past_reserved_example :
    ((Linear.allocate half_used 8).0 ≡ 64 + (Linear.allocate half_used 8).1.offset)
    × (((Linear.allocate half_used 8).0 + 8 ≤ 64 + 20) ↔ (8 + 8 + 8 ≤ 20))
allocate_past_reserved_example =
    Linear.allocate_past_reserved half_used 8 half_used-IsValid (omega arith)
