-- ===== src/Memory.antt =====
-- memory.go: the data model, the rules of names and entries, the conditions of a write, hashes.
mod Model
mod Names
mod Checks
mod Options
mod Hashes
pub mod NameGrammar
pub mod EntryRules
pub mod Refusals
pub mod MetaEncoding
unfoldable pub use Model.*
unfoldable pub use Names.*
unfoldable pub use Hashes.*
unfoldable pub use Checks.*
unfoldable pub use Options.*
