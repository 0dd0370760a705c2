-- ===== src/Tests/DirectoryTests.antt =====
-- Runs of the file store over a directory that a person wrote to.
use agentmemory.Prelude.{
  ℕ, Bytes, codes, ◌≡◌, refl, true, false, ◌&&◌, Option, none, some, [], ◌∷◌, str_eq,
}
use agentmemory.Memory.{Change, background}
use agentmemory.MemStore.{insert_by_name}
use agentmemory.FileStore.FrontMatter.{encode, decode, cut_block}
use agentmemory.FileStore.Journal.{
  tail_from, lines_in, last_index, keep_seq, decode_record, append_journal, is_torn, complete_lines,
  tail_lines, last_seq, scan_journal,
}
use agentmemory.FileStore.State.{
  missing, empty_state, outside, note, append_change, load_state, next_seq, catch_up, rebuild_state,
}
use agentmemory.FileStore.Directory.{
  Directory, Faults, writes, appends, torn, scope_files, regular, Outcome, fine, failed, entry_in,
  get_file, read_entry, scope_dir, list_scope, sort_entries, entries_in, cut_suffix,
}
use agentmemory.FileStore.Directory.Writes.{
  put_file, put_over, put_written, put_indexed, put_record, record_change, save_state, append_file,
  write_in, reindex, write_file, mod_time, note_outside, outside_now, append_to,
}
use agentmemory.FileStore.Directory.Ordered.{IsOrdered, IsRecorded, put_file-IsOrdered}
use agentmemory.FileStore.Directory.Reads.{Finds, get_file-put_file}
use agentmemory.Tests.Setup.{program, digest, style}
use agentmemory.Tests.FileStoreTests.{
  ticks, count_ticks, ticks-ReadsTimes, read_digit, write_digit, digit_record,
}

-- A file that a person wrote at the time 2.
abbrev by_hand : Directory
by_hand = record {
  scopes =
      (codes "user", scope_files ((codes "code-style.md", regular (codes "Use spaces.") 2) ∷ []))
      ∷ [];
  journal = none;
  cursor = missing;
}

unfoldable files : Unit {0}
unfolding program decode cut_block last_seq tail_lines tail_from lines_in last_index keep_seq
    decode_record complete_lines append_journal is_torn outside note append_change load_state
    next_seq catch_up rebuild_state scan_journal put_file put_over put_written put_indexed
    put_record record_change save_state append_file write_in reindex write_file mod_time
    note_outside outside_now append_to read_entry scope_dir list_scope sort_entries entries_in
    cut_suffix entry_in insert_by_name
files = tt

-- No call of the file system fails.
abbrev all_well : Faults
all_well = record {
  write_fault = λ scope file. writes;
  append_fault = λ c. appends;
  is_removable = true;
  is_cursor_writable = true;
}

-- The append of each record stops after one byte.
abbrev disk_full : Faults
disk_full = record all_well { append_fault = λ c. torn 1 }

abbrev put_style : Outcome Change × Directory
put_style =
    put_file digest ticks count_ticks read_digit write_digit 4096 all_well true by_hand background 5
      style []

abbrev put_change : Change
put_change = elim put_style.0 [ fine c ↦ c | failed f ↦ digit_record 0 ]

style_landed : put_style ≡ (fine put_change, put_style.1)
unfolding files
style_landed = refl

get_file-put_file_example :
    Finds digest ticks count_ticks style 5
      (get_file digest ticks count_ticks put_style.1 (codes "user") (codes "code-style"))
    × ((s n : Bytes)
        → (str_eq (codes "user") s && str_eq (codes "code-style") n) ≡ false
        → get_file digest ticks count_ticks put_style.1 s n
          ≡ get_file digest ticks count_ticks by_hand s n)
get_file-put_file_example =
    get_file-put_file digest ticks count_ticks ticks-ReadsTimes read_digit write_digit 4096 all_well
      by_hand background 5 style [] put_change put_style.1 style_landed

put_file-IsOrdered_example :
    IsOrdered digest ticks count_ticks read_digit write_digit 4096 all_well by_hand background 5
      style []
      (put_file digest ticks count_ticks read_digit write_digit 4096 all_well true by_hand
        background 5 style []).1
    × IsRecorded digest ticks count_ticks read_digit write_digit 4096 all_well by_hand background 5
        style []
        (put_file digest ticks count_ticks read_digit write_digit 4096 all_well true by_hand
          background 5 style [])
put_file-IsOrdered_example =
    put_file-IsOrdered digest ticks count_ticks read_digit write_digit 4096 all_well by_hand
      background 5 style [] true

torn_journal :
    (put_file digest ticks count_ticks read_digit write_digit 4096 disk_full true by_hand background
      5 style []).1.journal
    ≡ some (b'1' ∷ [])
unfolding files
torn_journal = refl

-- The record of the person's edit, made once the write is in its place, has the write's time.
abbrev edit_noted : Option Change
edit_noted =
    let (written, dir) =
      write_file all_well by_hand (codes "user") (codes "code-style.md")
        (encode ticks count_ticks style) 5 in
    elim written [
      | failed f ↦ none
      | fine _ ↦
          outside_now digest ticks count_ticks read_digit write_digit 4096 all_well dir empty_state
            (codes "user") (codes "code-style")
            (some (
              entry_in digest ticks count_ticks (codes "user") (codes "code-style")
                (codes "Use spaces.") 2))
            5
    ]

abbrev time_of : Option Change → ℕ
time_of none = 0
time_of (some c) = c.entry.updated

edit_time_lost : time_of edit_noted ≡ 5
unfolding files
edit_time_lost = refl
