-- ===== src/FileStore/State/Resuming.antt =====
-- filestore/state.go: reading on from the cursor against reading the whole journal.
use mathlib.Core.Option
use agentmemory.Prelude.{
  ℕ, ◌+◌, ◌≤◌, Bytes, ◌≡◌, refl, sym, ap, ◌∙◌, inl, inr, Bool, true, false, Option, some, List, [],
  ◌∷◌, ◌++◌, arith, length, drop, ltb, str_eq, str_eq_iff, Bool-cases, if◌then◌else◌,
}
use agentmemory.Memory.{Change, hash_of}
use agentmemory.FileStore.Journal.{complete_lines, scan_journal}
use agentmemory.FileStore.Journal.Records.{
  fold, lines_size, records, records-append, fold-append, scan_from-records,
}
use agentmemory.FileStore.State.{
  JournalState, empty_state, note, note_report, head_line, rebuild_state, catch_up, load_state,
  contents,
}
use agentmemory.FileStore.Journal.Cutting.{
  Cut, Cut-file, complete_lines-on, drop-done, done-le, lines_size-append,
}

-- The state with what a read does not touch.
abbrev pub set : ℕ → Bytes → Bool → JournalState → JournalState
set off head is_read st = record st { off = off; head = head; is_read = is_read }

-- What the cursor's file keeps of a state.
abbrev pub as_written : JournalState → JournalState
as_written st = record st { is_read = false }

module _ (digest : Bytes → Bytes) where
  abbrev pub note_change : JournalState → Change → JournalState
  note_change st c = note digest (record st { seq = c.seq }) c.entry

  pub note_change-set :
      (off : ℕ) (head : Bytes) (is_read : Bool) (st : JournalState) (c : Change)
      → note_change (set off head is_read st) c ≡ set off head is_read (note_change st c)
  unfolding note
  note_change-set off head is_read st c = elim (Bool-cases c.entry.deleted) [
    | inl gone ↦ rw gone refl
    | inr live ↦ rw live refl
  ]

  fold-set :
      (off : ℕ) (head : Bytes) (is_read : Bool) (st : JournalState) (cs : List Change)
      → fold note_change (set off head is_read st) cs
        ≡ set off head is_read (fold note_change st cs)
  fold-set off head is_read st [] = refl
  fold-set off head is_read st (c ∷ cs) =
      ap (λ s. fold note_change s cs) (note_change-set off head is_read st c)
      ∙ fold-set off head is_read (note_change st c) cs

  module _ (parse_record : Bytes → Option Change) where
    abbrev pub noted : JournalState → Bytes → JournalState
    noted st text = fold note_change st (records parse_record (complete_lines text))

    scan_journal-noted :
        (file : Bytes) (off : ℕ) (st : JournalState)
        → off ≤ length file
        → scan_journal parse_record (note_report digest) (some file) off st
          ≡ (noted st (drop off file), off + lines_size (complete_lines (drop off file)))
    unfolding scan_journal
    scan_journal-noted file off st h =
        let inside : ltb (length file) off ≡ false = ground (arith, h) in
        rw inside
          (scan_from-records parse_record note_change st off 1 (complete_lines (drop off file)))

    abbrev read_to : Bytes → JournalState × ℕ → JournalState
    read_to head (st, off) = record st { off = off; head = head }

    pub rebuild_state-noted :
        (file : Bytes)
        → rebuild_state digest parse_record (some file)
          ≡ set
              (lines_size (complete_lines file))
              (hash_of digest (head_line (some file)))
              false
              (noted empty_state file)
    unfolding rebuild_state
    rebuild_state-noted file =
        let head = hash_of digest (head_line (some file)) in
        let size = lines_size (complete_lines file) in
        let from_start : 0 + size ≡ size = omega arith in
        ap (λ r. read_to head r) (scan_journal-noted file 0 empty_state (omega arith))
        ∙ ap (λ (st : JournalState). read_to head (st, 0 + size))
            (fold-set 0 [] false empty_state (records parse_record (complete_lines file)))
        ∙ ap (λ n. set n head false (noted empty_state file)) from_start

    pub noted-append :
        (file more : Bytes) (c : Cut file)
        → noted (noted empty_state file) (c.torn ++ more) ≡ noted empty_state (file ++ more)
    noted-append file more c = sym (
        ap (λ ls. fold note_change empty_state (records parse_record ls))
          (complete_lines-on file more c)
        ∙ ap (fold note_change empty_state)
            (records-append parse_record (complete_lines file) (complete_lines (c.torn ++ more)))
        ∙ fold-append parse_record note_change empty_state
            (records parse_record (complete_lines file))
            (records parse_record (complete_lines (c.torn ++ more))))

    pub size-append :
        (file more : Bytes) (c : Cut file)
        → lines_size (complete_lines file) + lines_size (complete_lines (c.torn ++ more))
          ≡ lines_size (complete_lines (file ++ more))
    size-append file more c = sym (
        ap lines_size (complete_lines-on file more c)
        ∙ lines_size-append (complete_lines file) (complete_lines (c.torn ++ more)))

    module _ (journal : Option Bytes) where
      abbrev onward : JournalState × ℕ → JournalState
      onward (st, off) =
          if ltb off st.off
          then rebuild_state digest parse_record journal
          else record st { off = off }

      catch_up-onward :
          (st st' : JournalState) (off : ℕ)
          → str_eq st.head (hash_of digest (head_line journal)) ≡ true
          → scan_journal parse_record (note_report digest) journal st.off st ≡ (st', off)
          → st'.off ≤ off
          → catch_up digest parse_record journal st ≡ record st' { off = off }
      unfolding catch_up
      catch_up-onward st st' off same scan le =
          let rebuilt = rebuild_state digest parse_record journal in
          let behind : ltb off st'.off ≡ false = ground (arith, le) in
          ap
            (λ b.
              if b
              then onward (scan_journal parse_record (note_report digest) journal st.off st)
              else rebuilt)
            same
          ∙ ap onward scan
          ∙ ap (λ b. if b then rebuilt else record st' { off = off }) behind

      catch_up-other :
          (st : JournalState)
          → str_eq st.head (hash_of digest (head_line journal)) ≡ false
          → catch_up digest parse_record journal st ≡ rebuild_state digest parse_record journal
      unfolding catch_up
      catch_up-other st other = rw (other, catch_up) refl

    module _ (file more : Bytes) where
      abbrev journal_head : Bytes → Bytes
      journal_head text = hash_of digest (head_line (some text))

      abbrev cursor : JournalState
      cursor =
          set (lines_size (complete_lines file)) (journal_head file) true (noted empty_state file)

      catch_up-cursor_same :
          str_eq (journal_head file) (journal_head (file ++ more)) ≡ true
          → as_written (catch_up digest parse_record (some (file ++ more)) cursor)
            ≡ rebuild_state digest parse_record (some (file ++ more))
      catch_up-cursor_same same =
          let c = Cut-file file in
          let off = lines_size (complete_lines file) in
          let rest = c.torn ++ more in
          let off' = off + lines_size (complete_lines rest) in
          let st' = set off (journal_head file) true (noted (noted empty_state file) rest) in
          let scan : scan_journal parse_record (note_report digest) (some (file ++ more)) off cursor
              ≡ (st', off') =
            scan_journal-noted (file ++ more) off cursor (done-le file more c)
            ∙ ap (λ t. (noted cursor t, off + lines_size (complete_lines t)))
                (drop-done file more c)
            ∙ ap (λ st. (st, off'))
                (fold-set off (journal_head file) true (noted empty_state file)
                  (records parse_record (complete_lines rest))) in
          ap as_written
            (catch_up-onward (some (file ++ more)) cursor st' off' same scan (omega arith))
          ∙ ap (λ st. set off' (journal_head file) false st) (noted-append file more c)
          ∙ ap (λ n. set n (journal_head file) false (noted empty_state (file ++ more)))
              (size-append file more c)
          ∙ ap
              (λ h.
                set (lines_size (complete_lines (file ++ more))) h false
                  (noted empty_state (file ++ more)))
              ((str_eq_iff (journal_head file) (journal_head (file ++ more))).0 same)
          ∙ sym (rebuild_state-noted (file ++ more))

      catch_up-cursor_other :
          str_eq (journal_head file) (journal_head (file ++ more)) ≡ false
          → as_written (catch_up digest parse_record (some (file ++ more)) cursor)
            ≡ rebuild_state digest parse_record (some (file ++ more))
      catch_up-cursor_other other =
          let whole = rebuild_state-noted (file ++ more) in
          ap as_written (catch_up-other (some (file ++ more)) cursor other ∙ whole) ∙ sym whole

      catch_up-rebuild :
          as_written (
            catch_up digest parse_record
              (some (file ++ more))
              (record (rebuild_state digest parse_record (some file)) { is_read = true }))
          ≡ rebuild_state digest parse_record (some (file ++ more))
      catch_up-rebuild =
          ap
            (λ (st : JournalState).
              as_written
                (catch_up digest parse_record (some (file ++ more)) (record st { is_read = true })))
            (rebuild_state-noted file)
          ∙ elim (Bool-cases (str_eq (journal_head file) (journal_head (file ++ more)))) [
            | inl same ↦ catch_up-cursor_same same
            | inr other ↦ catch_up-cursor_other other
          ]

    -- Whatever was appended to the journal since the cursor was rebuilt from it, reading on
    -- from the cursor gives the state that reading the whole journal gives.
    pub load_state-rebuild :
        (file more : Bytes)
        → Option.map as_written (
            load_state digest parse_record
              (some (file ++ more))
              (contents (some (rebuild_state digest parse_record (some file)))))
          ≡ some (rebuild_state digest parse_record (some (file ++ more)))
    unfolding load_state
    load_state-rebuild file more = ap some (catch_up-rebuild file more)
