-- ===== src/FileStore/Directory/Forgets.antt =====
-- filestore/filestore.go: `Forget`.
use agentmemory.Prelude.{
  ℕ, Bytes, Bool, true, false, not, Option, none, some, [], ◌++◌, lookup, if◌then◌else◌,
}
use agentmemory.Memory.{
  Entry, Change, not_found, ok, err, Context, session_from, check_ref, meta_hash_of, stored_hash,
}
use agentmemory.FileStore.State.{JournalState, entry_key, load_state, last_record_for, agrees}
use agentmemory.FileStore.Directory.{
  Directory, Faults, next_in, rejected, not_locked, unreadable_cursor, Outcome, fine, failed, md,
  read_entry,
}
use agentmemory.FileStore.Directory.Writes.{
  remove_file, held_entry, note_outside, record_change, reindex,
}

module _ (digest : Bytes → Bytes) (format_time : ℕ → Bytes) (parse_time : Bytes → Option ℕ)
    (parse_record : Bytes → Option Change) (format_record : Change → Bytes) (max : ℕ)
    (faults : Faults) where
  -- The entry of a tombstone.
  unfoldable pub tombstone : Directory → JournalState → Bytes → Bytes → Entry → ℕ → Entry
  tombstone dir st scope name stored now =
      let agreed : Bool = elim (lookup (entry_key scope name) st.entries) [
        | none ↦ false
        | some known ↦ agrees digest known stored
      ] in
      let last : Entry =
        if agreed
        then stored
        else elim (last_record_for digest parse_record dir.journal scope name) [
          | none ↦ stored
          | some c ↦ if (c.entry).deleted then stored else c.entry
        ] in
      record last { deleted = true; updated = now; meta_hash = meta_hash_of digest last.meta }

  -- `Forget`, once the file is removed and the index written.
  unfoldable pub forget_indexed :
      Directory → JournalState → Context → ℕ → Bytes → Bytes → Entry → Outcome Change × Directory
  forget_indexed dir st ctx now scope name stored =
      next_in
        (note_outside digest format_time parse_time parse_record format_record max faults dir st
          scope name (some stored) now)
        (λ st' noted.
          let held = stored_hash (held_entry st' scope name) in
          record_change digest format_time parse_time parse_record format_record max faults noted
            st'
            (record {
              seq = 0;
              entry = tombstone noted st' scope name stored now;
              prev = held;
              replaced = held;
              session = session_from ctx;
              source = [];
              at = now;
            }))

  -- `Forget`, once the file is removed.
  unfoldable pub forget_removed :
      Directory → JournalState → Context → ℕ → Bytes → Bytes → Entry → Outcome Change × Directory
  forget_removed dir st ctx now scope name stored =
      next_in
        (reindex digest format_time parse_time parse_record format_record max faults dir scope now)
        (λ _ indexed. forget_indexed indexed st ctx now scope name stored)

  -- `Forget`.
  unfoldable pub forget_file :
      Bool → Directory → Context → ℕ → Bytes → Bytes → Outcome Change × Directory
  forget_file locked dir ctx now scope name = elim (check_ref scope name) [
    | err x ↦ (failed (rejected x), dir)
    | ok _ ↦
        if not locked
        then (failed not_locked, dir)
        else elim (read_entry digest format_time parse_time dir scope name) [
          | failed f ↦ (failed f, dir)
          | fine found ↦ elim found [
            | none ↦ (failed (rejected (not_found scope name)), dir)
            | some stored ↦ elim (load_state digest parse_record dir.journal dir.cursor) [
              | none ↦ (failed unreadable_cursor, dir)
              | some st ↦
                  next_in (remove_file faults dir scope (name ++ md))
                    (λ _ left. forget_removed left st ctx now scope name stored)
            ]
          ]
        ]
  ]
