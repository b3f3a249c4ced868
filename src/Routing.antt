-- ===== src/Routing.antt =====
-- pkg/routing: the query side of the program.
pub mod MinHeap
pub mod QueryState
pub mod Search
pub mod Unpack
pub mod Snap
pub mod Seed
pub mod Engine
