-- ===== src/Backend/Invariant.antt =====
-- The well-formedness of a backend under the operations of src/hephaestus-firecracker/src/backend.rs:
-- the single steps, the helpers, the boots, and the requests with their histories.
pub mod Steps
mod Bridge
pub mod Boots
pub mod Requests
