-- ===== src/Tests.antt =====
-- Runs of the model on concrete inputs.
mod Setup
mod MemoryTests
mod StoreTests
mod ManifestTests
mod RenderTests
mod SearchTests
mod FileStoreTests
mod ToolsTests
mod DirectoryTests
