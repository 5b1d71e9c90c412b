-- ===== src/Lru.antt =====
-- The bounded cache of the `lru` crate, as the interface that the gateway uses. What the crate promises
-- of each method is a law of the interface; which pair an insertion into a full cache evicts is left open.
pub mod Interface
pub mod Model
pub use Interface.{LruCache}
pub use Model.{list_lru}
