-- ===== src/Examples/Sets.antt =====
-- A set of two image bindings, the second an array of two, and a buffer binding between them.
use rpi_vk_driver.Base.{ℕ, ◌+◌, ◌*◌, ◌≡◌, refl, some, List, [], ◌∷◌, All, arith}
use rpi_vk_driver.Map.{Map, MapElem, get_map_element}
use rpi_vk_driver.Map
use rpi_vk_driver.Descriptor.{
  DescriptorType, Kind, Binding, Descriptors, count_descriptors, fill, update, kind,
}
use rpi_vk_driver.Descriptor.Places.{IsLayout}
use rpi_vk_driver.Descriptor.Lookup.{fill_lem}
use rpi_vk_driver.Descriptor.Update.{IsWritten, update_lem}

abbrev cut_shift : ℕ → ℕ → ℕ
cut_shift x k = 0

abbrev layout : List Binding
layout =
    record {
      binding = 0;
      descriptor_type = DescriptorType.sampled_image;
      descriptor_count = 1;
      stage_flags = 1;
    }
    ∷ record {
      binding = 3;
      descriptor_type = DescriptorType.uniform_buffer;
      descriptor_count = 2;
      stage_flags = 1;
    }
    ∷ record {
      binding = 7;
      descriptor_type = DescriptorType.combined_image_sampler;
      descriptor_count = 2;
      stage_flags = 16;
    }
    ∷ []

layout-IsLayout : IsLayout layout
layout-IsLayout = (
  omega arith,
  (omega arith, (omega arith, tt)),
  (omega arith, (omega arith, tt), (omega arith, tt, tt)),
)

abbrev buckets : List MapElem
buckets =
    record { content = 5; key = 6 }
    ∷ record { content = 0; key = 0 }
    ∷ record { content = 9; key = 7 }
    ∷ []

-- what the descriptors hold is a number here
abbrev old : Descriptors ℕ
old a = record { count = 0; descriptor_type = DescriptorType.sampler; stage_flags = 0; payload = a }

fill_lem_example :
    (count_descriptors Kind.image layout 0 ≡ 3)
    × ((h' : Descriptors ℕ) × (m : Map) × (fill cut_shift 24 Kind.image layout old
            (Map.create buckets 3)
            1000
            0
          ≡ some (h', m))
        × All
            (λ (p : ℕ × ℕ). get_map_element cut_shift m p.0 ≡ some p.1)
            ((0, 1000) ∷ (7, 1024) ∷ []))
unfolding kind
fill_lem_example =
    fill_lem cut_shift 24 1000 Kind.image layout buckets old (omega arith) (omega arith)
      layout-IsLayout (omega arith) (omega arith) refl

-- the map that `fill` leaves
abbrev filled : Map
filled = record {
  elements =
      record { content = 1000; key = 0 }
      ∷ record { content = 1024; key = 7 }
      ∷ record { content = 0; key = 7 }
      ∷ [];
  max_data = 3;
}

found : get_map_element cut_shift filled 7 ≡ some 1024
unfolding Map.get_map_element Map.probe Map.get_index
found = refl

update_lem_example :
    (h' : Descriptors ℕ) × (update cut_shift 24 filled 7 1 (55 ∷ []) old ≡ some h')
    × IsWritten 24 (55 ∷ []) old h' (1024 + 1 * 24)
update_lem_example =
    update_lem cut_shift 24 filled 7 1 1024 (55 ∷ []) old (omega arith) found (omega arith)
