-- ===== src/Memory/MetaEncoding.antt =====
-- `MetaHash` of memory.go: the text that it hashes does not depend on the order in which the map
-- is ranged over, and determines the metadata.
pub mod Sorting
pub mod Order
pub mod Unambiguous
