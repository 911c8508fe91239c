-- ===== src/States.antt =====
-- The tables of driver/common.c from Vulkan's enumerations to the hardware's numbers. Each
-- enumeration has the values that the code names, and any other; only the names are compared.
pub mod Tables
use rpi_vk_driver.Base.{ℕ, u32_max}

-- `VkCompareOp`
pub data CompareOp : Type 0 where
  never less equal less_or_equal greater not_equal greater_or_equal always : CompareOp
  other_compare : ℕ → CompareOp

-- `VkStencilOp`
pub data StencilOp : Type 0 where
  zero_value keep replace increment_and_clamp decrement_and_clamp invert : StencilOp
  increment_and_wrap decrement_and_wrap : StencilOp
  other_stencil : ℕ → StencilOp

-- `VkPrimitiveTopology`
pub data Topology : Type 0 where
  point_list line_list line_strip triangle_list triangle_strip triangle_fan : Topology
  other_topology : ℕ → Topology

-- `VkFilter`
pub data Filter : Type 0 where
  nearest linear : Filter
  other_filter : ℕ → Filter

-- `VkSamplerMipmapMode`
pub data MipmapMode : Type 0 where
  mip_nearest mip_linear : MipmapMode
  other_mipmap : ℕ → MipmapMode

-- `VkSamplerAddressMode`
pub data AddressMode : Type 0 where
  repeat clamp_to_edge mirrored_repeat clamp_to_border : AddressMode
  other_address : ℕ → AddressMode

-- `getCompareOp`, into the numbers of `enum V3D21_Compare_Function`
unfoldable pub get_compare_op : CompareOp → ℕ
get_compare_op never = 0
get_compare_op less = 1
get_compare_op equal = 2
get_compare_op less_or_equal = 3
get_compare_op greater = 4
get_compare_op not_equal = 5
get_compare_op greater_or_equal = 6
get_compare_op always = 7
get_compare_op _ = u32_max

-- `getStencilOp`
unfoldable pub get_stencil_op : StencilOp → ℕ
get_stencil_op zero_value = 0
get_stencil_op keep = 1
get_stencil_op replace = 2
get_stencil_op increment_and_clamp = 3
get_stencil_op decrement_and_clamp = 4
get_stencil_op invert = 5
get_stencil_op increment_and_wrap = 6
get_stencil_op decrement_and_wrap = 7
get_stencil_op _ = u32_max

-- `getTopology`: points, lines and triangles
unfoldable pub get_topology : Topology → ℕ
get_topology point_list = 0
get_topology line_list = 1
get_topology line_strip = 1
get_topology triangle_list = 2
get_topology triangle_strip = 2
get_topology triangle_fan = 2
get_topology _ = u32_max

-- `getPrimitiveMode`, into the numbers of `enum V3D21_Primitive`
unfoldable pub get_primitive_mode : Topology → ℕ
get_primitive_mode point_list = 0
get_primitive_mode line_list = 1
get_primitive_mode line_strip = 3
get_primitive_mode triangle_list = 4
get_primitive_mode triangle_strip = 5
get_primitive_mode triangle_fan = 6
get_primitive_mode _ = u32_max

-- `getMinFilterType`, a `uint8_t`
unfoldable pub get_min_filter_type : Filter → MipmapMode → ℕ
get_min_filter_type nearest mip_nearest = 2
get_min_filter_type nearest mip_linear = 3
get_min_filter_type linear mip_nearest = 4
get_min_filter_type linear mip_linear = 5
get_min_filter_type _ _ = 255

-- `getWrapMode`, a `uint8_t`
unfoldable pub get_wrap_mode : AddressMode → ℕ
get_wrap_mode repeat = 0
get_wrap_mode clamp_to_edge = 1
get_wrap_mode mirrored_repeat = 2
get_wrap_mode clamp_to_border = 3
get_wrap_mode _ = 255
