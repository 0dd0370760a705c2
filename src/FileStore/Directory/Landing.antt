-- ===== src/FileStore/Directory/Landing.antt =====
-- filestore/filestore.go: what `Put` does before it writes: it fails with the directory as it was, or
-- it goes on to write the entry's file.
use agentmemory.Prelude.{
  ℕ, Bytes, ◌≡◌, ◌⊎◌, inl, inr, true, false, Option, Option-cases, none, some, List, ◌++◌, arith,
}
use agentmemory.Memory.{
  Entry, Change, ok, ◌>>◌, Context, PutOption, check_entry, check_options, resolve_put_options,
}
use agentmemory.Memory.EntryRules.{Result-cases}
use agentmemory.MemStore.{stamp}
use agentmemory.FileStore.FrontMatter.{encode}
use agentmemory.FileStore.State.{JournalState, load_state}
use agentmemory.FileStore.Directory.{
  Directory, Failure, Faults, next_in, rejected, not_locked, unreadable_cursor, Outcome, fine,
  failed, md, read_entry,
}
use agentmemory.FileStore.Directory.Files.{Outcome-cases}
use agentmemory.FileStore.Directory.Writes.{write_file, put_written, put_over, put_file}

module _ (digest : Bytes → Bytes) (format_time : ℕ → Bytes) (parse_time : Bytes → Option ℕ)
    (parse_record : Bytes → Option Change) (format_record : Change → Bytes) (max : ℕ)
    (faults : Faults) where
  module _ (dir : Directory) (ctx : Context) (now : ℕ) (e : Entry) (opts : List PutOption) where
    abbrev pub stored_now : Outcome (Option Entry)
    stored_now = read_entry digest format_time parse_time dir e.scope e.name

    abbrev pub stamped : Entry
    stamped = stamp digest e now

    abbrev pub wrote_file : Outcome (Unit {0}) × Directory
    wrote_file =
        write_file faults dir e.scope (e.name ++ md) (encode format_time parse_time stamped) now

    -- What a `Put` that passes its checks went through, to the write of the entry's file.
    pub record Landing : Type 0 where
      pub stored : Option Entry
      pub st : JournalState
      pub kept_rules : check_entry e 0 none ≡ ok tt
      pub found : stored_now ≡ fine stored
      pub checked :
          (check_entry e max stored
            >> check_options digest (resolve_put_options opts) e.scope e.name stored)
          ≡ ok tt
      pub loaded : load_state digest parse_record dir.journal dir.cursor ≡ some st
      pub goes_on :
          put_file digest format_time parse_time parse_record format_record max faults true dir ctx
            now e opts
          ≡ next_in (wrote_file) (λ _ written.
            put_written digest format_time parse_time parse_record format_record max faults written
              st ctx now stamped opts stored)

    abbrev put_now : Outcome Change × Directory
    put_now =
        put_file digest format_time parse_time parse_record format_record max faults true dir ctx
          now e opts

    abbrev pub Fails : Outcome Change × Directory → Type 0
    Fails r = (f : Failure) × (r ≡ (failed f, dir))

    put_checked-cases :
        (stored : Option Entry)
        → check_entry e 0 none ≡ ok tt
        → stored_now ≡ fine stored
        → (check_entry e max stored
            >> check_options digest (resolve_put_options opts) e.scope e.name stored)
          ≡ ok tt
        → Fails put_now ⊎ Landing
    unfolding put_file put_over
    put_checked-cases stored kept found checked =
        elim (Option-cases (load_state digest parse_record dir.journal dir.cursor)) [
          | inl unread ↦ inl (unreadable_cursor, ground (arith, kept, found, checked, unread))
          | inr (st, loaded) ↦ inr (record {
            stored = stored;
            st = st;
            kept_rules = kept;
            found = found;
            checked = checked;
            loaded = loaded;
            goes_on = ground (arith, kept, found, checked, loaded);
          })
        ]

    pub put_file-cases : Fails put_now ⊎ Landing
    unfolding put_file put_over
    put_file-cases = elim (Result-cases (check_entry e 0 none)) [
      | inr (x, h) ↦ inl (rejected x, ground (arith, h))
      | inl (_, kept) ↦ elim (Outcome-cases stored_now) [
        | inl (f, h) ↦ inl (f, ground (arith, kept, h))
        | inr (stored, found) ↦
            elim (Result-cases (
              check_entry e max stored
              >> check_options digest (resolve_put_options opts) e.scope e.name stored)) [
                | inr (x, h) ↦ inl (rejected x, ground (arith, kept, found, h))
                | inl (_, checked) ↦ put_checked-cases stored kept found checked
              ]
      ]
    ]

    pub put_unlocked : Fails (
        put_file digest format_time parse_time parse_record format_record max faults false dir ctx
          now e opts)
    unfolding put_file
    put_unlocked = elim (Result-cases (check_entry e 0 none)) [
      | inr (x, h) ↦ (rejected x, ground (arith, h))
      | inl (_, kept) ↦ (not_locked, ground (arith, kept))
    ]
