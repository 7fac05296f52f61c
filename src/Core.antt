-- ===== src/Core.antt =====
-- The domain types (src/core): the enums and the models that pass between the components.
pub mod Enums
pub mod Models
