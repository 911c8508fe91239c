-- ===== src/Descriptor.antt =====
-- driver/descriptorSet.c: the descriptors of a set, of three kinds, and the maps from binding numbers to
-- them. The source has the same code for each kind, on fields of its own; here it is one function with
-- the kind, the size of its descriptors in bytes and the type `X` of what they hold as arguments.
pub mod Places
pub mod Lookup
pub mod Update
use rpi_vk_driver.Base.{
  ℕ, zero, suc, ◌*◌, Bool, true, false, List, [], ◌∷◌, Option, none, some, ◌==◌, ltb, if◌then◌else◌,
  ◌>>=◌, add32, mul32,
}
use rpi_vk_driver.Memory.{Mem, null}
use rpi_vk_driver.Consecutive.{Consecutive}
use rpi_vk_driver.Consecutive
use rpi_vk_driver.ControlList.{get_cpa_ptr_from_offset}
use rpi_vk_driver.Map.{Map, MapElem, get_map_element, set_map_element}
use rpi_vk_driver.Map

-- `VK_DESCRIPTOR_TYPE_...`
pub data DescriptorType : Type 0 where
  sampler combined_image_sampler sampled_image storage_image input_attachment : DescriptorType
  uniform_buffer storage_buffer uniform_buffer_dynamic storage_buffer_dynamic : DescriptorType
  uniform_texel_buffer storage_texel_buffer : DescriptorType

-- the three cases of each switch
pub data Kind : Type 0 where
  image buffer texel_buffer : Kind

unfoldable pub kind : DescriptorType → Kind
kind DescriptorType.sampler = Kind.image
kind DescriptorType.combined_image_sampler = Kind.image
kind DescriptorType.sampled_image = Kind.image
kind DescriptorType.storage_image = Kind.image
kind DescriptorType.input_attachment = Kind.image
kind DescriptorType.uniform_buffer = Kind.buffer
kind DescriptorType.storage_buffer = Kind.buffer
kind DescriptorType.uniform_buffer_dynamic = Kind.buffer
kind DescriptorType.storage_buffer_dynamic = Kind.buffer
kind DescriptorType.uniform_texel_buffer = Kind.texel_buffer
kind DescriptorType.storage_texel_buffer = Kind.texel_buffer

abbrev pub same_kind : Kind → Kind → Bool
same_kind Kind.image Kind.image = true
same_kind Kind.buffer Kind.buffer = true
same_kind Kind.texel_buffer Kind.texel_buffer = true
same_kind _ _ = false

-- `VkDescriptorSetLayoutBinding`, what the code reads of it
pub record Binding : Type 0 where
  pub binding : ℕ
  pub descriptor_type : DescriptorType
  pub descriptor_count : ℕ
  pub stage_flags : ℕ

-- `_descriptorImage`, `_descriptorBuffer` and `_descriptorTexelBuffer`
pub record Descriptor (X : Type 0) : Type 0 where
  pub count : ℕ
  pub descriptor_type : DescriptorType
  pub stage_flags : ℕ
  pub payload : X

-- the descriptors by their addresses
abbrev pub Descriptors : Type 0 → Type 0
Descriptors X = ℕ → Descriptor X

abbrev pub put_descriptor : {X : Type 0} → Descriptors X → ℕ → Descriptor X → Descriptors X
put_descriptor h p x a = if a == p then x else h a

-- the first loop over the bindings: how many descriptors of the kind the set has
unfoldable pub count_descriptors : Kind → List Binding → ℕ → ℕ
count_descriptors k [] n = n
count_descriptors k (b ∷ bs) n =
    count_descriptors k bs
      (if same_kind (kind b.descriptor_type) k then add32 n b.descriptor_count else n)

-- the fields of `_descriptorSet` for one kind; `elements` is the address of the map's buckets
pub record Part : Type 0 where
  pub descriptors : ℕ
  pub descriptors_count : ℕ
  pub elements : ℕ
  pub binding_map : Map

-- The allocation for `n` descriptors of one kind. `held` is what memory has at an address, as buckets;
-- `unset` are the fields that the code leaves as they are.
unfoldable pub allocate_part :
    (ℕ → ℕ → List MapElem)
    → Part
    → ℕ
    → Mem
    → Consecutive
    → Mem
    → Consecutive
    → Option (Part × Mem × Consecutive × Mem × Consecutive)
allocate_part held unset n dm dpa mm mpa =
    if ltb 0 n
    then (Consecutive.allocate dm dpa n >>= λ (offset, dm', dpa').
        Consecutive.allocate mm mpa n >>= λ (place, mm', mpa').
        let elements = get_cpa_ptr_from_offset mpa'.buf place in
        some (
          record {
            descriptors = get_cpa_ptr_from_offset dpa'.buf offset;
            descriptors_count = n;
            elements = elements;
            binding_map = Map.create (held elements n) n;
          },
          dm',
          dpa',
          mm',
          mpa',
        ))
    else some (record unset { descriptors = null; descriptors_count = n }, dm, dpa, mm, mpa)

-- `vkFreeDescriptorSets` for the descriptors of one kind
unfoldable pub free_part :
    Part → Mem → Consecutive → Mem → Consecutive → Option (Mem × Consecutive × Mem × Consecutive)
free_part p dm dpa mm mpa =
    if ltb 0 p.descriptors_count
    then (Consecutive.free mm mpa p.elements p.descriptors_count >>= λ (mm', mpa').
        Consecutive.free dm dpa p.descriptors p.descriptors_count >>= λ (dm', dpa').
        some (dm', dpa', mm', mpa'))
    else some (dm, dpa, mm, mpa)

module _ {X : Type 0} (size : ℕ) where
  -- the loop of `vkUpdateDescriptorSets` over the descriptors that it writes, from the address on
  unfoldable pub write_each : List X → Descriptors X → ℕ → Descriptors X
  write_each [] h di = h
  write_each (x ∷ xs) h di =
      write_each xs (put_descriptor h di (record (h di) { payload = x })) (add32 di size)

  -- `memcpy` of `n` descriptors from one address to another
  unfoldable pub copy_each : ℕ → Descriptors X → Descriptors X → ℕ → ℕ → Descriptors X
  copy_each zero from h d s = h
  copy_each (suc n) from h d s =
      copy_each n from (put_descriptor h d (from s)) (add32 d size) (add32 s size)

module _ {X : Type 0} (wide_shift : ℕ → ℕ → ℕ) (size : ℕ) where
  -- the second loop over the bindings, for one kind
  unfoldable pub fill :
      Kind → List Binding → Descriptors X → Map → ℕ → ℕ → Option (Descriptors X × Map)
  fill k [] h m descriptors counter = some (h, m)
  fill k (b ∷ bs) h m descriptors counter =
      let p = add32 descriptors (mul32 counter size) in
      let skip = fill k bs h m descriptors counter in
      let header = record (h p) {
        count = b.descriptor_count;
        descriptor_type = b.descriptor_type;
        stage_flags = b.stage_flags;
      } in
      let take = set_map_element wide_shift m b.binding p >>= λ m'.
      fill k bs (put_descriptor h p header) m' descriptors (add32 counter b.descriptor_count) in
      if same_kind (kind b.descriptor_type) k then take else skip

  -- one write of `vkUpdateDescriptorSets`
  unfoldable pub update : Map → ℕ → ℕ → List X → Descriptors X → Option (Descriptors X)
  update m dst_binding dst_array_element xs h = get_map_element wide_shift m dst_binding >>= λ p.
      some (write_each size xs h (add32 p (mul32 dst_array_element size)))

  -- one copy of `vkUpdateDescriptorSets`, for the descriptors of one kind
  unfoldable pub copy : Map → ℕ → ℕ → Map → ℕ → ℕ → ℕ → Descriptors X → Option (Descriptors X)
  copy src src_binding src_array_element dst dst_binding dst_array_element n h =
      get_map_element wide_shift src src_binding >>= λ s.
      if s == null
      then some h
      else (get_map_element wide_shift dst dst_binding >>= λ d. some (
          copy_each size n h h (add32 d (mul32 dst_array_element size))
            (add32 s (mul32 src_array_element size))))
