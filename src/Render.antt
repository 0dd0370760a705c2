-- ===== src/Render.antt =====
-- render.go: the block, its parts and the manifest of what it holds.
mod Text
mod Omissions
mod Blocks
pub mod Widths
pub mod Packing
pub mod Placing
pub mod Bounds
pub mod Settling
unfoldable pub use Text.*
unfoldable pub use Omissions.*
unfoldable pub use Blocks.*
