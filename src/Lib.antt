-- ===== src/Lib.antt =====
-- agentmemory is a Go library that keeps what an agent remembers: entries, each named by a scope
-- and a name, in a store with a journal of its writes. This development models the parts of it
-- that have no input or output of their own, and proves what makes them right.
--
-- The parts, and the files that model them:
--
-- Memory (memory.go). Memory/Model has `Entry`, `Change` and the errors as one type; Memory/Names
-- `ValidName`, `ValidScope`; Memory/Checks `CheckRef`, `CheckEntry`, in the order of their tests;
-- Memory/Options the put options as data, `ResolvePutOptions`, `BaseFor`, `Check`; Memory/Hashes
-- `Hash` and `MetaHash`. SHA-256 with its hexadecimal form is a parameter, `digest`, of which
-- nothing is assumed. A map is an association list in the order in which a `range` meets its keys.
-- A context is the session that `WithSession` puts into it.
--
-- MemStore (memstore.go). The store is a record of its bound, its live entries and its journal.
-- `Put` and `Forget` return their result and the store after; the mutex makes each of them one
-- step. The clock is an argument of each call. MemStore/Calls has the calls on a store as data,
-- and the store that a list of them leads to; a failed call is a call too.
--
-- LostUpdates (lostupdate.go). `LostUpdates` and `LastSeq` over the list of what a journal yields,
-- records and errors. It reads what MemStore's `Journal` gives.
--
-- Manifest (render.go). Manifest/Model has the manifest and its hash; Manifest/Delta `manifestDiff`,
-- `manifestApply`, `RecordSince` and `ApplyManifestRecord`; Manifest/Parsing `parseManifestRecord`;
-- Manifest/Fold `ManifestFold`. What encoding/json writes for a record, and what it decodes bytes to,
-- are parameters: a record is a value, `ApplyManifestRecord` and `Apply` take what their bytes parse
-- to, and bytes that do not parse are `none`.
--
-- Neutralise (render.go). `neutralise` on the bytes of a content. The loop that closes fences runs
-- on fuel, one round for each line, since each round takes away a line that opens a fence.
--
-- Render (render.go). `RenderParts`, `Render` and `JoinParts` over a store's `List` and its bound
-- on entries: Render/Text the texts of the parts, Render/Omissions the packing and the lines that
-- name what is left out, Render/Blocks the options, the loop over the scopes and the loop of at
-- most eight rounds, as in the source, that settles the summary. The label of text that nobody
-- vouches for is agenttool's, a parameter.
--
-- Search (search.go, and `Match` of memory.go). Search/Words has the words of a query and how many
-- of them an entry holds, Search/Options `SearchOptions` with `Names`, `Check`, `Keep` and `Filter`.
-- Folding to lower case is a parameter. MemStore/Searching has `Search` and `SearchWith` of the
-- in-memory store, and `SearchSupport` and `SearchWith` over any store; MemStore/Listing what `List`
-- gives.
--
-- FileStore (filestore/). FileStore/FrontMatter (frontmatter.go) has `encode` and `decode` on the
-- bytes of an entry's file; FileStore/Journal (journal.go) the journal as its bytes: `tailLines` on
-- fuel, the length of the file, since each round of its outer loop reads a byte at least, and each
-- round of its inner loop lowers the limit; `scanJournal`, `lastSeq`, `decodeRecord` and
-- `appendJournal`; FileStore/State (state.go) the cursor beside the journal: `loadState`,
-- `rebuildState`, `nextSeq`, `appendChange` and `outside`. How a time and a record's JSON are written
-- and read are parameters, and a callback that keeps a state is a function on it. FileStore/Directory
-- (filestore.go, and of fsys.go what it calls) has the operations over a directory: the files,
-- directories, links and other things of each scope, the journal and the cursor. No file has two
-- names, and the journal is a regular file or missing. Which of an operation's calls that write,
-- append to or remove a file fail, and how far they got, is a parameter, `Faults`. Directory/Writes has `Put`
-- and Directory/Forgets `Forget`, in the order of their steps, Directory/Reconciling `Reconcile` and
-- `SearchWith`. Each operation is one step, as the lock makes it; whether the lock was taken is an
-- argument.
--
-- Tools (tools.go). The tools that a model calls, over any store: Tools/Answers has their arguments,
-- their answers and the store as a record of its calls, Tools/Options the options and what `Tools`
-- refuses, Tools/Texts the descriptions and the lines of the answers, Tools/Rounds and Tools/Writers
-- `save`, `patch`, `forget` and `insertEntry`, Tools/Searcher `search`. A store's call takes a state
-- to a state, so what other sessions do between two calls is part of the state. Tools/Laws says what
-- the tools rely on in a store: a call acts on what is live when it takes effect. Tools/Shared is
-- the in-memory store with the calls of other sessions between ours, which does. A loop over
-- attempts is recursion on those that are left; counting a text runs on the length of the content,
-- since each round takes off the text that it found, which is not empty. Schemas and their check,
-- the decoding of arguments, annotations and labels are agenttool's; the formats of times and `%q`
-- are parameters.
--
-- Prelude has what the parts share: lists and tests over the native numbers, byte strings, maps,
-- UTF-8 and decimals. Tests has runs of the code at concrete inputs.
--
-- Go's `int` is ℕ where the source never goes below zero, and ℤ where it tests for it; no sum
-- in these parts comes near 2^63, since each is of lengths of values in memory.
--
-- Not modelled: how the lock is waited for and taken over; temporary files, and reads that fail
-- for other reasons than what stands in the directory; sqlite, whose logic is in
-- SQL; the tests and storetest, and the texts of errors.
pub mod Prelude
pub mod Memory
pub mod MemStore
pub mod LostUpdates
pub mod Manifest
pub mod Neutralise
pub mod Render
pub mod Search
pub mod FileStore
pub mod Tools
mod Tests
