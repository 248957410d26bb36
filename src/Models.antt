-- ===== src/Models.antt =====
-- interfaces/models: the value types that every component passes around.
pub mod Range
pub mod Text
pub mod Action
