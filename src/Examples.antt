-- ===== src/Examples.antt =====
-- The theorems on concrete inputs, and small runs of the definitions.
pub mod Counters
pub mod Sets
pub mod Pools
pub mod Maps
pub mod Sizes
pub mod Images
pub mod Words
pub mod Lists
pub mod Queues
pub mod Runs
pub mod Commands
pub mod Fences
