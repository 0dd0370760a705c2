-- ===== src/Tools.antt =====
-- tools.go: the tools through which a model reaches a store. What other sessions do between the
-- calls that a tool makes is part of the store's state, which each call may change.
mod Options
mod Answers
mod Texts
mod Rounds
mod Writers
mod Searcher
pub mod Laws
pub mod Outcomes
pub mod Shared
pub mod Anchored
pub mod Fresh
pub mod Quiet
pub mod Kept
pub mod Checked
pub mod Reach
unfoldable pub use Options.*
unfoldable pub use Answers.*
unfoldable pub use Texts.*
unfoldable pub use Rounds.*
unfoldable pub use Writers.*
unfoldable pub use Searcher.*
