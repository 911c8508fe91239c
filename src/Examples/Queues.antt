-- ===== src/Examples/Queues.antt =====
-- A queue of two items of four bytes.
use rpi_vk_driver.Base.{refl, ℕ, ◌≡◌, inr, [], ◌∷◌, arith}
use rpi_vk_driver.Memory.{Mem}
use rpi_vk_driver.FreeList.{blocks}
use rpi_vk_driver.Fifo
use rpi_vk_driver.Fifo.Links.{IsFifo}
use rpi_vk_driver.Fifo.Create.{AreBuffers, create-IsFifo}
use rpi_vk_driver.Fifo.Remove.{Elsewhere}
use rpi_vk_driver.Fifo.Refines.{Represents, read, add-Represents, remove-Represents}
use rpi_vk_driver.Pool

abbrev numbered : Mem
numbered a = a

two-AreBuffers : AreBuffers 64 128 2 4
two-AreBuffers = record {
  items = record {
    not_null = omega arith;
    room_for_link = omega arith;
    exact = omega arith;
    at_least_one = omega arith;
    in_memory = omega arith;
  };
  elems = record {
    not_null = omega arith;
    room_for_link = omega arith;
    exact = omega arith;
    at_least_one = omega arith;
    in_memory = omega arith;
  };
  items_small = omega arith;
  elems_small = omega arith;
  apart = omega arith;
}

abbrev fresh : Mem × Fifo.Fifo
fresh = Fifo.create numbered 64 128 2 4

fresh-IsFifo : IsFifo fresh.0 fresh.1 [] [] (128 ∷ 140 ∷ []) (64 ∷ 68 ∷ [])
unfolding blocks
fresh-IsFifo = create-IsFifo numbered 64 128 2 4 two-AreBuffers

abbrev one_added : ℕ × Mem × Fifo.Fifo
one_added = Fifo.add fresh.0 fresh.1 200

far :
    Elsewhere one_added.2.fifo_elem_buf 300 one_added.2.data_size
    × Elsewhere one_added.2.data_buf 300 one_added.2.data_size
unfolding Fifo.create Fifo.add Fifo.link_first Pool.create Pool.allocate
far = (inr (omega arith), inr (omega arith))

fresh-Represents : Represents 2 fresh.0 fresh.1 []
unfolding Fifo.create Pool.create
fresh-Represents = record {
  es = [];
  ds = [];
  free_elems = 128 ∷ 140 ∷ [];
  free_items = 64 ∷ 68 ∷ [];
  is_fifo = fresh-IsFifo;
  elem_capacity = refl;
  item_capacity = refl;
  items = refl;
}

add-Represents_example :
    let (ok, m', f') = Fifo.add fresh.0 fresh.1 200 in
    (ok ≡ 1) × Represents 2 m' f' (read fresh.0 200 fresh.1.data_size ∷ [])
add-Represents_example = add-Represents 2 fresh.0 fresh.1 [] 200 fresh-Represents (omega arith)

one_added-Represents :
    Represents 2 one_added.1 one_added.2 (read fresh.0 200 fresh.1.data_size ∷ [])
one_added-Represents = (add-Represents 2 fresh.0 fresh.1 [] 200 fresh-Represents (omega arith)).1

remove-Represents_example :
    let (ok, m', f') = Fifo.remove one_added.1 one_added.2 300 in
    (ok ≡ 1)
    × Represents 2 m' f' []
    × (read m' 300 one_added.2.data_size ≡ read fresh.0 200 fresh.1.data_size)
remove-Represents_example =
    remove-Represents 2 one_added.1 one_added.2 [] (read fresh.0 200 fresh.1.data_size) 300
      one_added-Represents far.0 far.1
