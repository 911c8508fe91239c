-- ===== src/Vulkan.antt =====
-- The results of the calls of the driver (driver/command.c, driver/sync.c).
pub data VkResult : Type 0 where
  success not_ready timeout out_of_host_memory : VkResult
