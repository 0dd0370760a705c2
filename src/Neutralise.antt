-- ===== src/Neutralise.antt =====
-- render.go: `neutralise` and what it calls, over the bytes of a content.
mod Lines
pub mod Fences
pub mod Splitting
unfoldable pub use Lines.*
