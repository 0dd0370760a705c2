-- ===== src/FileStore/Directory/Writes.antt =====
-- filestore/filestore.go: `Put`, the indexes, and the record of what a person changed
-- in the file that a write replaces.
use agentmemory.Prelude.{
  ℕ, ◌+◌, take, Bytes, codes, Bool, true, false, not, ◌&&◌, Option, none, some, List, [], ◌∷◌, ◌++◌,
  Map, lookup, insert, remove, length, ◌==◌, str_eq, if◌then◌else◌,
}
use agentmemory.Memory.{
  Entry, Change, ok, err, ◌>>◌, Context, session_from, check_entry, description, PutOption,
  resolve_put_options, base_for, stored_hash, check_options,
}
use agentmemory.MemStore.{stamp}
use agentmemory.FileStore.FrontMatter.{encode}
use agentmemory.FileStore.State.{
  JournalState, contents, entry_key, load_state, append_change, last_record_for, outside,
}
use agentmemory.FileStore.Directory.{
  Node, regular, folder, irregular, WriteFault, writes, no_directory, no_file, AppendFault, appends,
  unopened, torn, Faults, journal_bytes, next_in, not_written, scope_files, scope_link, scope_other,
  Directory, rejected, not_locked, unreadable_cursor, not_a_directory, Outcome, fine, failed, md,
  index_name, read_entry, list_scope,
}

abbrev pub is_folder : Option Node → Bool
is_folder none = false
is_folder (some (regular data_ at)) = false
is_folder (some (folder at)) = true
is_folder (some (irregular at)) = false

-- The end of `writeAtomic`, in a directory of these files: the rename replaces what stands there,
-- unless that is a directory.
unfoldable pub write_in :
    WriteFault → Directory → Bytes → Bytes → Bytes → ℕ → Map Node → Outcome (Unit {0}) × Directory
write_in no_directory dir scope file data_ at files = (failed not_written, dir)
write_in no_file dir scope file data_ at files =
    (failed not_written, record dir { scopes = insert scope (scope_files files) dir.scopes })
write_in writes dir scope file data_ at files =
    if is_folder (lookup file files)
    then (failed not_written, record dir { scopes = insert scope (scope_files files) dir.scopes })
    else (
      fine tt,
      record dir {
        scopes = insert scope (scope_files (insert file (regular data_ at) files)) dir.scopes;
      },
    )

-- `writeAtomic` of a file of a scope, at a time.
unfoldable pub write_file :
    Faults → Directory → Bytes → Bytes → Bytes → ℕ → Outcome (Unit {0}) × Directory
write_file faults dir scope file data_ at = elim (lookup scope dir.scopes) [
  | none ↦ write_in (faults.write_fault scope file) dir scope file data_ at []
  | some node ↦ elim node [
    | scope_files files ↦ write_in (faults.write_fault scope file) dir scope file data_ at files
    | scope_link ↦ (failed (not_a_directory scope), dir)
    | scope_other ↦ (failed (not_a_directory scope), dir)
  ]
]

-- `remove` of an entry's file.
unfoldable pub remove_file : Faults → Directory → Bytes → Bytes → Outcome (Unit {0}) × Directory
remove_file faults dir scope file =
    if not faults.is_removable then (failed not_written, dir) else elim (lookup scope dir.scopes) [
      | none ↦ (failed not_written, dir)
      | some node ↦ elim node [
        | scope_files files ↦ (
          fine tt,
          record dir { scopes = insert scope (scope_files (remove file files)) dir.scopes },
        )
        | scope_link ↦ (failed not_written, dir)
        | scope_other ↦ (failed not_written, dir)
      ]
    ]

-- `modTime` of an entry's file.
unfoldable pub mod_time : Directory → Bytes → Bytes → Option ℕ
mod_time dir scope file = elim (lookup scope dir.scopes) [
  | none ↦ none
  | some node ↦ elim node [
    | scope_files files ↦ elim (lookup file files) [
      | none ↦ none
      | some found ↦ elim found [
        | regular data_ at ↦ some at
        | folder at ↦ some at
        | irregular at ↦ some at
      ]
    ]
    | scope_link ↦ none
    | scope_other ↦ none
  ]
]

-- The bytes of a dash between spaces.
abbrev dash : Bytes
dash = b' ' ∷ 226 ∷ 128 ∷ 148 ∷ b' ' ∷ []

-- A line of the index.
unfoldable pub index_line : Entry → Bytes
index_line e =
    codes "- ["
    ++ (e.name
        ++ (codes "]("
            ++ (e.name
                ++ (codes ".md)"
                    ++ ((if length (description e) == 0 then [] else dash ++ description e)
                        ++ (b'\n' ∷ []))))))

unfoldable pub index_lines : List Entry → Bytes
index_lines [] = []
index_lines (e ∷ es) = index_line e ++ index_lines es

unfoldable pub index_text : Bytes → List Entry → Bytes
index_text scope es =
    codes "# "
    ++ (scope
        ++ (b'\n' ∷ b'\n' ∷ []
            ++ ((if length es == 0 then codes "No entries." ++ (b'\n' ∷ []) else [])
                ++ index_lines es)))

-- `held`.
unfoldable pub held_entry : JournalState → Bytes → Bytes → Option Entry
held_entry st scope name = elim (lookup (entry_key scope name) st.entries) [
  | none ↦ none
  | some known ↦ some (record {
    scope = scope;
    name = name;
    content = [];
    meta = [];
    hash = known.hash;
    meta_hash = [];
    updated = 0;
    deleted = false;
  })
]

-- `saveState`, and what the next `loadState` reads: the JSON of a cursor is encoding/json's, and
-- the field that says that it was read is none of it.
unfoldable pub save_state : Faults → Directory → JournalState → Outcome (Unit {0}) × Directory
save_state faults dir st =
    if faults.is_cursor_writable
    then (fine tt, record dir { cursor = contents (some (record st { is_read = false })) })
    else (failed not_written, dir)

-- `appendJournal`, of a record whose append leaves that file if it succeeds.
unfoldable pub append_file : AppendFault → Directory → Bytes → Outcome (Unit {0}) × Directory
append_file appends dir file = (fine tt, record dir { journal = some file })
append_file unopened dir file = (failed not_written, dir)
append_file (torn n) dir file =
    (failed not_written, record dir { journal = some (take (length (journal_bytes dir) + n) file) })

-- What a write replaced and was built on, as far as the journal can say: `stored` is the file's
-- entry.
unfoldable pub base_held : List PutOption → Option Entry → Option Entry → Bytes
base_held opts stored held =
    let prev = base_for (resolve_put_options opts) held in
    elim stored [
      | none ↦ prev
      | some e ↦
          if str_eq prev e.hash && not (str_eq (stored_hash held) e.hash)
          then stored_hash held
          else prev
    ]

module _ (digest : Bytes → Bytes) (format_time : ℕ → Bytes) (parse_time : Bytes → Option ℕ)
    (parse_record : Bytes → Option Change) (format_record : Change → Bytes) (max : ℕ)
    (faults : Faults) where
  -- `reindex`.
  unfoldable pub reindex : Directory → Bytes → ℕ → Outcome (Unit {0}) × Directory
  reindex dir scope now = elim (list_scope digest format_time parse_time dir scope) [
    | failed f ↦ (failed f, dir)
    | fine es ↦ write_file faults dir scope index_name (index_text scope es) now
  ]

  -- `appendChange`, on the directory's journal.
  unfoldable pub append_to :
      Directory → JournalState → Change → Outcome (JournalState × Change) × Directory
  append_to dir st c =
      let (st', file, c') = append_change digest parse_record dir.journal format_record st c in
      next_in (append_file (faults.append_fault c') dir file) (λ _ dir'. (fine (st', c'), dir'))

  -- `outside`, with the time of the file as it stands.
  unfoldable pub outside_now :
      Directory → JournalState → Bytes → Bytes → Option Entry → ℕ → Option Change
  outside_now dir st scope name cur at =
      outside digest max (mod_time dir scope (name ++ md))
        (last_record_for digest parse_record dir.journal scope name) st scope name cur at

  -- `noteOutside`.
  unfoldable pub note_outside :
      Directory → JournalState → Bytes → Bytes → Option Entry → ℕ → Outcome JournalState × Directory
  note_outside dir st scope name cur at = elim (outside_now dir st scope name cur at) [
    | none ↦ (fine st, dir)
    | some c ↦ next_in (append_to dir st c) (λ r dir'. (fine r.0, dir'))
  ]

  -- The record of a write, once what stood there is noted.
  unfoldable pub put_record :
      JournalState → Context → ℕ → Entry → List PutOption → Option Entry → Change
  put_record st ctx now e opts stored =
      let held = held_entry st e.scope e.name in
      record {
        seq = 0;
        entry = e;
        prev = base_held opts stored held;
        replaced = stored_hash held;
        session = session_from ctx;
        source = [];
        at = now;
      }

  -- The end of `Put` and of `Forget`: the record, and the cursor.
  unfoldable pub record_change : Directory → JournalState → Change → Outcome Change × Directory
  record_change dir st c =
      next_in (append_to dir st c)
        (λ r dir'. next_in (save_state faults dir' r.0) (λ _ saved. (fine r.1, saved)))

  -- `Put`, once the entry's file and the index are written: the record of what stood there, and
  -- the write's own.
  unfoldable pub put_indexed :
      Directory
      → JournalState
      → Context
      → ℕ
      → Entry
      → List PutOption
      → Option Entry
      → Outcome Change × Directory
  put_indexed dir st ctx now e opts stored =
      next_in (note_outside dir st e.scope e.name stored now)
        (λ st' noted. record_change noted st' (put_record st' ctx now e opts stored))

  -- `Put`, once the entry's file is written.
  unfoldable pub put_written :
      Directory
      → JournalState
      → Context
      → ℕ
      → Entry
      → List PutOption
      → Option Entry
      → Outcome Change × Directory
  put_written dir st ctx now e opts stored =
      next_in (reindex dir e.scope now) (λ _ indexed. put_indexed indexed st ctx now e opts stored)

  -- `Put`, once the entry that it replaces is read.
  unfoldable pub put_over :
      Directory → Context → ℕ → Entry → List PutOption → Option Entry → Outcome Change × Directory
  put_over dir ctx now e opts stored =
      elim (check_entry e max stored
        >> check_options digest (resolve_put_options opts) e.scope e.name stored) [
          | err x ↦ (failed (rejected x), dir)
          | ok _ ↦ elim (load_state digest parse_record dir.journal dir.cursor) [
            | none ↦ (failed unreadable_cursor, dir)
            | some st ↦
                let e' = stamp digest e now in
                next_in
                  (write_file faults dir e.scope (e.name ++ md) (encode format_time parse_time e')
                    now)
                  (λ _ written. put_written written st ctx now e' opts stored)
          ]
        ]

  -- `Put`: `locked` says whether the lock was taken.
  unfoldable pub put_file :
      Bool → Directory → Context → ℕ → Entry → List PutOption → Outcome Change × Directory
  put_file locked dir ctx now e opts = elim (check_entry e 0 none) [
    | err x ↦ (failed (rejected x), dir)
    | ok _ ↦
        if not locked
        then (failed not_locked, dir)
        else elim (read_entry digest format_time parse_time dir e.scope e.name) [
          | failed f ↦ (failed f, dir)
          | fine stored ↦ put_over dir ctx now e opts stored
        ]
  ]
