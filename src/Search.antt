-- ===== src/Search.antt =====
-- search.go: the search options and the reference search; `Match` of memory.go. What
-- `strings.ToLower` does beyond ASCII is Unicode's tables: the function is a parameter, `lower`.
mod Words
mod Options
pub mod Plain
pub mod Ranking
pub mod Matching
unfoldable pub use Words.*
unfoldable pub use Options.*
