-- ===== src/Manifest.antt =====
-- render.go: the manifest of a render, its hash, its records and what a reader makes of them.
mod Model
mod Delta
mod Parsing
mod Fold
pub mod Steps
mod Distinct
pub mod RoundTrip
pub mod Records
pub mod FoldLaws
pub mod FoldReads
unfoldable pub use Model.*
unfoldable pub use Delta.*
unfoldable pub use Parsing.*
unfoldable pub use Fold.*
