-- ===== src/FileStore.antt =====
-- filestore: the reference store over a directory. The file system, the encoding of JSON and the
-- format of a time are parameters.
pub mod FrontMatter
pub mod Journal
pub mod State
pub mod Directory
