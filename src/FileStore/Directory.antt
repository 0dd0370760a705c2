-- ===== src/FileStore/Directory.antt =====
-- filestore/filestore.go: the store over its directory. A directory holds files, directories, links
-- and other things, and no file of it has two names; the journal is a regular file, of its bytes, or
-- is missing. Each call that writes, appends to or removes a file may fail, as a parameter says; what
-- is read is what stands there, and a read that fails for another reason is left out, as are .tmp
-- files and the lock: each operation is one step, and whether the lock was taken is an argument. The
-- clock's time is the time of files written then.
pub mod Writes
pub mod Forgets
pub mod Reconciling
pub mod Files
pub mod Growing
pub mod Landing
pub mod Ordered
pub mod Reads
use agentmemory.Prelude.{
  ℕ, zero, Bytes, codes, Bool, true, false, not, ◌&&◌, Option, none, some, List, [], ◌∷◌, ◌++◌, Map,
  lookup, insert, remove, length, ◌==◌, str_eq, if◌then◌else◌, ltb, ℤ,
}
use agentmemory.Memory.{
  Entry, Change, Error, not_found, Result, ok, err, ◌>>◌, Context, session_from, valid_name,
  valid_scope, check_ref, check_scope, check_entry, hash_of, meta_hash_of, description, PutOption,
  resolve_put_options, base_for, stored_hash, check_options,
}
use agentmemory.MemStore.{insert_by_name}
use agentmemory.FileStore.FrontMatter.{encode, decode}
use agentmemory.FileStore.State.{
  JournalState, StateEntry, CursorFile, contents, entry_key, load_state, append_change,
  last_record_for, outside, agrees,
}

-- What stands under a name: a regular file, of its bytes, a directory, or anything else, such as a
-- link, each with the time of its last change.
pub data Node : Type 0 where
  regular : Bytes → ℕ → Node
  folder : ℕ → Node
  irregular : ℕ → Node

-- What stands under the name of a scope: a directory, a link, or a file.
pub data ScopeNode : Type 0 where
  scope_files : Map Node → ScopeNode
  scope_link : ScopeNode
  scope_other : ScopeNode

pub record Directory : Type 0 where
  pub scopes : Map ScopeNode
  pub journal : Option Bytes
  pub cursor : CursorFile

-- The bytes of the journal, none where it is missing.
abbrev pub journal_bytes : Directory → Bytes
journal_bytes dir = elim dir.journal [ none ↦ [] | some file ↦ file ]

-- What an operation fails with: an error of the memory package, or one of the file store's own.
pub data Failure : Type 0 where
  rejected : Error → Failure
  not_locked : Failure
  unreadable_cursor : Failure
  linked_scope : Bytes → Failure
  not_a_directory : Bytes → Failure
  not_written : Failure

-- How a write of a file ends: it fails before its directory is made, after that, or not at all.
pub data WriteFault : Type 0 where
  writes : WriteFault
  no_directory : WriteFault
  no_file : WriteFault

-- How an append ends: the file is not opened, only so many bytes of it are written, or all are and
-- it succeeds.
pub data AppendFault : Type 0 where
  appends : AppendFault
  unopened : AppendFault
  torn : ℕ → AppendFault

-- Which calls of the file system fail: the write of a file of a scope, the append of a record, the
-- removal of a file, the write of the cursor.
pub record Faults : Type 0 where
  pub write_fault : Bytes → Bytes → WriteFault
  pub append_fault : Change → AppendFault
  pub is_removable : Bool
  pub is_cursor_writable : Bool

pub data Outcome {ℓ} (A : Type ℓ) : Type ℓ where
  fine : A → Outcome A
  failed : Failure → Outcome A

abbrev pub and_then : {A B : Type 0} → Outcome A → (A → Outcome B) → Outcome B
and_then (fine a) next = next a
and_then (failed f) next = failed f

-- The error return between two calls that may change the directory.
abbrev pub next_in :
    {A B : Type 0}
    → Outcome A × Directory
    → (A → Directory → Outcome B × Directory)
    → Outcome B × Directory
next_in (fine a, dir) next = next a dir
next_in (failed f, dir) next = (failed f, dir)

abbrev pub of_result : {A : Type 0} → Result A → Outcome A
of_result (ok a) = fine a
of_result (err x) = failed (rejected x)

abbrev pub md : Bytes
md = codes ".md"

abbrev pub index_name : Bytes
index_name = codes "INDEX.md"

-- `strings.CutSuffix`.
unfoldable pub cut_suffix : Bytes → Bytes → Option Bytes
cut_suffix suffix [] = if str_eq [] suffix then some [] else none
cut_suffix suffix (c ∷ s) =
    let rest : Option Bytes = elim (cut_suffix suffix s) [ none ↦ none | some r ↦ some (c ∷ r) ] in
    if str_eq (c ∷ s) suffix then some [] else rest

-- `scopeIsDir`, with what is in the directory: `none` for no directory.
unfoldable pub scope_dir : Directory → Bytes → Outcome (Option (Map Node))
scope_dir dir scope = elim (lookup scope dir.scopes) [
  | none ↦ fine none
  | some node ↦ elim node [
    | scope_files files ↦ fine (some files)
    | scope_link ↦ failed (linked_scope scope)
    | scope_other ↦ fine none
  ]
]

-- `sort.Slice` by name.
unfoldable pub sort_entries : List Entry → List Entry
sort_entries [] = []
sort_entries (e ∷ es) = insert_by_name e (sort_entries es)

module _ (digest : Bytes → Bytes) (format_time : ℕ → Bytes) (parse_time : Bytes → Option ℕ) where
  -- The entry that a file holds.
  unfoldable pub entry_in : Bytes → Bytes → Bytes → ℕ → Entry
  entry_in scope name data_ at =
      let d = decode format_time parse_time data_ in
      record {
        scope = scope;
        name = name;
        content = d.content;
        meta = d.meta;
        hash = hash_of digest d.content;
        meta_hash = meta_hash_of digest d.meta;
        updated = if d.updated == 0 then at else d.updated;
        deleted = false;
      }

  abbrev pub entry_of_node : Bytes → Bytes → Option Node → Option Entry
  entry_of_node scope name none = none
  entry_of_node scope name (some (folder at)) = none
  entry_of_node scope name (some (irregular at)) = none
  entry_of_node scope name (some (regular data_ at)) = some (entry_in scope name data_ at)

  -- `readEntry`.
  unfoldable pub read_entry : Directory → Bytes → Bytes → Outcome (Option Entry)
  read_entry dir scope name = and_then (scope_dir dir scope) (λ found. elim found [
    | none ↦ fine none
    | some files ↦ fine (entry_of_node scope name (lookup (name ++ md) files))
  ])

  -- `Get`.
  unfoldable pub get_file : Directory → Bytes → Bytes → Outcome Entry
  get_file dir scope name = and_then (of_result (check_ref scope name)) (λ _.
      and_then (read_entry dir scope name)
        (λ found. elim found [ none ↦ failed (rejected (not_found scope name)) | some e ↦ fine e ]))

  -- The loop of `list` over what is in the directory, in whatever order it is read.
  unfoldable pub entries_in : Bytes → Map Node → List Entry
  entries_in scope [] = []
  entries_in scope ((file, node) ∷ files) =
      let rest = entries_in scope files in
      elim (cut_suffix md file) [
        | none ↦ rest
        | some name ↦
            if valid_name name
            then (elim (entry_of_node scope name (some node)) [ none ↦ rest | some e ↦ e ∷ rest ])
            else rest
      ]

  -- `list`.
  unfoldable pub list_scope : Directory → Bytes → Outcome (List Entry)
  list_scope dir scope = and_then (scope_dir dir scope) (λ found. elim found [
    | none ↦ fine []
    | some files ↦ fine (sort_entries (entries_in scope files))
  ])

  -- `List`.
  unfoldable pub list_files : Directory → Bytes → Outcome (List Entry)
  list_files dir scope = and_then (of_result (check_scope scope)) (λ _. list_scope dir scope)
