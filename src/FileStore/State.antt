-- ===== src/FileStore/State.antt =====
-- filestore/state.go: the cursor beside the journal, which holds how far the store has read it and
-- what it last knew of every live entry. The journal is its bytes, `none` where there is none; how
-- the cursor's own file is read is a constructor of `CursorFile`, and what its JSON decodes to is
-- encoding/json's.
pub mod Resuming
pub mod Numbers
pub mod Appending
pub mod LastRecord
pub mod Outside
use agentmemory.Prelude.{
  ℕ, zero, suc, ◌+◌, Bytes, codes, Bool, true, false, ◌&&◌, Option, none, some, List, [], ◌∷◌, ◌++◌,
  Map, length, lookup, insert, remove, take, ltb, ◌==◌, str_eq, if◌then◌else◌,
}
use agentmemory.Memory.{Entry, Change, Result, ok, err, hash_of, meta_hash_of, check_entry}
use agentmemory.FileStore.Journal.{Report, found, damage, scan_journal, last_seq, append_journal}

-- `stateEntry`.
pub record StateEntry : Type 0 where
  pub hash : Bytes
  pub meta : Bytes

-- `journalState`.
pub record JournalState : Type 0 where
  pub seq : ℕ
  pub off : ℕ
  pub head : Bytes
  pub entries : Map StateEntry
  pub is_read : Bool

abbrev pub empty_state : JournalState
empty_state = record { seq = 0; off = 0; head = []; entries = []; is_read = false }

-- What reading .state.json gives: no file, a link, another failure, or what its bytes decode to.
pub data CursorFile : Type 0 where
  missing : CursorFile
  not_regular : CursorFile
  unreadable : CursorFile
  contents : Option JournalState → CursorFile

-- `key`.
abbrev pub entry_key : Bytes → Bytes → Bytes
entry_key scope name = scope ++ (b'/' ∷ name)

unfoldable pub up_to_newline : Bytes → Bytes
up_to_newline [] = []
up_to_newline (c ∷ s) = let rest = up_to_newline s in if c == b'\n' then c ∷ [] else c ∷ rest

abbrev pub head_limit : ℕ
head_limit = 65536

-- `headLine`.
abbrev pub head_line : Option Bytes → Bytes
head_line none = []
head_line (some file) = up_to_newline (take head_limit file)

abbrev pub source_reconciled : Bytes
source_reconciled = codes "reconciled"

-- The record of a change that nobody in a session made.
abbrev pub reconciled : Entry → Bytes → ℕ → Change
reconciled e prev at = record {
  seq = 0;
  entry = e;
  prev = prev;
  replaced = prev;
  session = [];
  source = source_reconciled;
  at = at;
}

module _ (digest : Bytes → Bytes) where
  -- `note`.
  unfoldable pub note : JournalState → Entry → JournalState
  note st e =
      if e.deleted
      then record st { entries = remove (entry_key e.scope e.name) st.entries }
      else record st {
        entries =
            insert (entry_key e.scope e.name)
              (record { hash = e.hash; meta = meta_hash_of digest e.meta }) st.entries;
      }

  -- `agrees`.
  unfoldable pub agrees : StateEntry → Entry → Bool
  agrees se e = str_eq se.hash e.hash && str_eq se.meta (meta_hash_of digest e.meta)

  -- The functions that `loadState` and `rebuildState` pass to `scanJournal`.
  abbrev pub note_report : JournalState → Report → JournalState × Bool
  note_report st (found c) = (note (record st { seq = c.seq }) c.entry, true)
  note_report st (damage line_no f) = (st, true)

  module _ (parse_record : Bytes → Option Change) (journal : Option Bytes) where
    -- `rebuildState`.
    unfoldable pub rebuild_state : JournalState
    rebuild_state =
        let (st, off) = scan_journal parse_record note_report journal 0 empty_state in
        record st { off = off; head = hash_of digest (head_line journal) }

    -- `loadState`, from the cursor that it read.
    unfoldable pub catch_up : JournalState → JournalState
    catch_up st =
        if str_eq st.head (hash_of digest (head_line journal))
        then (let (st', off) = scan_journal parse_record note_report journal st.off st in
            if ltb off st'.off then rebuild_state else record st' { off = off })
        else rebuild_state

    -- `loadState`: `none` where the cursor's file is not to be read.
    unfoldable pub load_state : CursorFile → Option JournalState
    load_state missing = some (catch_up empty_state)
    load_state not_regular = some (catch_up empty_state)
    load_state unreadable = none
    load_state (contents none) = some (catch_up empty_state)
    load_state (contents (some st)) = some (catch_up (record st { is_read = true }))

    -- `nextSeq`: the state, whose number may have grown, and the next number.
    unfoldable pub next_seq : JournalState → JournalState × ℕ
    next_seq st =
        let tail = last_seq parse_record journal in
        let st' = if ltb st.seq tail then record st { seq = tail } else st in (st', st'.seq + 1)

    abbrev pub keep_record : Bytes → Bytes → Option Change → Report → Option Change × Bool
    keep_record scope name kept (found c) =
        (if str_eq c.entry.scope scope && str_eq c.entry.name name then some c else kept, true)
    keep_record scope name kept (damage line_no f) = (kept, true)

    -- `lastRecordFor`.
    unfoldable pub last_record_for : Bytes → Bytes → Option Change
    last_record_for scope name =
        (scan_journal parse_record (keep_record scope name) journal 0 none).0

    -- `appendChange`: the state, the journal's bytes and the record after it.
    unfoldable pub append_change :
        (Change → Bytes) → JournalState → Change → JournalState × Bytes × Change
    append_change format_record st c =
        let (st', seq) = next_seq st in
        let c' = record c { seq = seq } in
        let file = append_journal format_record journal c' in
        let noted = note (record st' { seq = seq; off = length file }) c'.entry in
        let head = if st'.off == 0 then hash_of digest (head_line (some file)) else noted.head in
        (record noted { head = head }, file, c')

  -- `outside`, without the failures of reads: `max` is the store's bound, `mod_time` the time of
  -- the entry's file.
  module _ (max : ℕ) (mod_time : Option ℕ) where
    -- The rest of `outside` where there is a file, with what the cursor holds.
    abbrev pub outside_edit : Bytes → Entry → ℕ → Option Change
    outside_edit prev cur at = elim (check_entry cur max none) [
      | err _ ↦ none
      | ok _ ↦ elim mod_time [
        | none ↦ some (reconciled cur prev at)
        | some t ↦ some (reconciled (record cur { updated = t }) prev at)
      ]
    ]

    -- `outside`, from what the journal's last record for the name is.
    unfoldable pub outside :
        Option Change → JournalState → Bytes → Bytes → Option Entry → ℕ → Option Change
    outside last_record st scope name cur at = elim cur [
      | none ↦ elim (lookup (entry_key scope name) st.entries) [
        | none ↦ none
        | some known ↦ elim last_record [
          | none ↦ none
          | some last ↦
              let e = record (last.entry) {
                deleted = true;
                updated = at;
                meta_hash = meta_hash_of digest (last.entry).meta;
              } in
              some (reconciled e known.hash at)
        ]
      ]
      | some e ↦ elim (lookup (entry_key scope name) st.entries) [
        | none ↦ outside_edit [] e at
        | some known ↦ if agrees known e then none else outside_edit known.hash e at
      ]
    ]
