-- ===== src/Tests.antt =====
-- The theorems applied to small inputs, one module for each part of the program.
pub mod Heaps
pub mod Files
pub mod Floats
pub mod Ways
pub mod Http
pub mod Paths
mod Build
mod Routes
mod Queries
mod Contraction
mod Components
mod Forest
