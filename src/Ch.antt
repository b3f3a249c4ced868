-- ===== src/Ch.antt =====
-- pkg/ch: contraction hierarchies.
pub mod WitnessHeap
pub mod ContractionPq
pub mod Witness
pub mod Shortcuts
pub mod Contractor
pub mod Overlay
