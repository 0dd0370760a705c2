-- ===== src/FileStore/Directory/Ordered.antt =====
-- filestore/filestore.go: what a `Put` leaves of the journal, whichever of its writes fails.
use mathlib.Core.Path.{subst}
use agentmemory.Prelude.{
  ℕ, Bytes, ◌≡◌, refl, sym, ap, ◌∙◌, ◌⊎◌, inl, inr, Bool, true, false, Option, some, List, ◌++◌,
  none, [], arith, str_eq_iff,
}
use agentmemory.Memory.{Entry, Change, Context, PutOption, valid_name}
use agentmemory.Memory.EntryRules.{check_entry-decides}
use agentmemory.MemStore.{stamp}
use agentmemory.FileStore.FrontMatter.{encode}
use agentmemory.FileStore.Journal.{append_journal}
use agentmemory.FileStore.State.{JournalState}
use agentmemory.FileStore.Directory.{
  regular, Directory, Faults, journal_bytes, Outcome, fine, failed, md, index_name, next_in,
}
use agentmemory.FileStore.Directory.Writes.{put_file, put_written, put_indexed, put_record}
use agentmemory.FileStore.Directory.Files.{
  node_at, write_file-node_at, IsUntouched, write_file-IsUntouched, next_in-reached, next_in-result,
  reindexed, reindexed-writes, reindexed-IsUntouched,
}
use agentmemory.FileStore.Directory.Growing.{
  put_indexed-IsGrown, note_outside-IsGrown, noted, recorded, record_change-fine,
}
use agentmemory.FileStore.Directory.Landing.{Landing, put_file-cases, put_unlocked, wrote_file}
use agentmemory.FileStore.Directory.Reads.{index_name-md}

module _ (digest : Bytes → Bytes) (format_time : ℕ → Bytes) (parse_time : Bytes → Option ℕ)
    (parse_record : Bytes → Option Change) (format_record : Change → Bytes) (max : ℕ)
    (faults : Faults) (dir : Directory) (ctx : Context) (now : ℕ) (e : Entry)
    (opts : List PutOption) where
  abbrev written_file : Outcome (Unit {0}) × Directory
  written_file =
      wrote_file digest format_time parse_time parse_record format_record max faults dir ctx now e
        opts

  abbrev IsFiled : Directory → Type 0
  IsFiled d =
      node_at d.scopes e.scope (e.name ++ md)
      ≡ fine (some (regular (encode format_time parse_time (stamp digest e now)) now))

  -- The journal and the cursor are as they were, or the entry's file is written and the journal is
  -- what it was with bytes added at its end.
  abbrev pub IsOrdered : Directory → Type 0
  IsOrdered d =
      IsUntouched dir d
      ⊎ (IsFiled d × (added : Bytes) × (journal_bytes d ≡ journal_bytes dir ++ added))

  IsUntouched-trans : (a b : Directory) → IsUntouched dir a → IsUntouched a b → IsUntouched dir b
  IsUntouched-trans a b g h = (h.0 ∙ g.0, h.1 ∙ g.1)

  wrote-IsFiled : (written : Directory) → written_file ≡ (fine tt, written) → IsFiled written
  unfolding stamp
  wrote-IsFiled written h = ground (
    arith,
    write_file-node_at dir e.scope (e.name ++ md)
        (encode format_time parse_time (stamp digest e now)) now e.scope (e.name ++ md) faults
        written h,
    str_eq_iff e.scope e.scope,
    str_eq_iff (e.name ++ md) (e.name ++ md),
  )

  module _ (st : JournalState) (stored : Option Entry) where
    abbrev rest : Directory → Outcome Change × Directory
    rest d =
        put_written digest format_time parse_time parse_record format_record max faults d st ctx now
          (stamp digest e now) opts stored

    abbrev indexed_rest : Directory → Outcome Change × Directory
    indexed_rest d =
        put_indexed digest format_time parse_time parse_record format_record max faults d st ctx now
          (stamp digest e now) opts stored

    indexed_rest-IsOrdered :
        (indexed : Directory)
        → IsUntouched dir indexed
        → IsFiled indexed
        → IsOrdered (indexed_rest indexed).1
    indexed_rest-IsOrdered indexed kept filed =
        let g =
          put_indexed-IsGrown digest format_time parse_time parse_record format_record max faults
            indexed st ctx now (stamp digest e now) opts stored in
        inr (
          ap (λ z. node_at z e.scope (e.name ++ md)) g.same_files ∙ filed,
          g.added,
          g.journal_is ∙ ap (λ j. (elim j [ none ↦ [] | some file ↦ file ]) ++ g.added) kept.0,
        )

    rest-IsOrdered :
        (written : Directory)
        → valid_name e.name ≡ true
        → IsUntouched dir written
        → IsFiled written
        → IsOrdered (rest written).1
    unfolding put_written stamp
    rest-IsOrdered written named kept filed =
        let index =
          reindexed digest format_time parse_time parse_record format_record max faults written
            e.scope now in
        let index_kept = IsUntouched-trans written index.1 kept (
          reindexed-IsUntouched digest format_time parse_time parse_record format_record max faults
            written e.scope now) in
        next_in-reached {A = Unit {0}} {B = Change} IsOrdered index (λ _ d. indexed_rest d)
          (inl index_kept)
          (λ _ indexed q.
            let (text, wrote_index) =
              reindexed-writes digest format_time parse_time parse_record format_record max faults
                written e.scope now indexed q in
            indexed_rest-IsOrdered indexed
              (subst (λ d. IsUntouched dir d) (ap (λ z. z.1) q) index_kept)
              (ground (
                arith,
                write_file-node_at written e.scope index_name text now e.scope (e.name ++ md) faults
                    indexed wrote_index,
                index_name-md e.name named,
                filed,
              )))

  after_file-IsOrdered :
      (l : Landing digest format_time parse_time parse_record format_record max faults dir ctx now e
        opts)
      → IsOrdered (next_in written_file (λ _ d. rest l.st l.stored d)).1
  unfolding stamp
  after_file-IsOrdered l =
      let file_kept =
        write_file-IsUntouched faults dir e.scope (e.name ++ md)
          (encode format_time parse_time (stamp digest e now)) now in
      let w = (check_entry-decides e 0 none).0 l.kept_rules in
      next_in-reached {A = Unit {0}} {B = Change} IsOrdered written_file
        (λ _ d. rest l.st l.stored d) (inl file_kept)
        (λ _ written q.
          rest-IsOrdered l.st l.stored written w.name_named
            (subst (λ d. IsUntouched dir d) (ap (λ z. z.1) q) file_kept) (wrote-IsFiled written q))

  -- Of a change that a `Put` returned, the record is the last of the journal, after what was there.
  abbrev pub IsRecorded : Outcome Change × Directory → Type 0
  IsRecorded (failed f, d) = Unit
  IsRecorded (fine c, d) =
      (before : Option Bytes) × (added : Bytes) × ((elim before [ none ↦ [] | some file ↦ file ])
        ≡ journal_bytes dir ++ added)
      × (d.journal ≡ some (append_journal format_record before c))

  record_change-IsRecorded :
      (noted : Directory) (st : JournalState) (change : Change) (added : Bytes)
      (r : Outcome Change × Directory)
      → journal_bytes noted ≡ journal_bytes dir ++ added
      → recorded digest format_time parse_time parse_record format_record max faults noted st change
        ≡ r
      → IsRecorded r
  record_change-IsRecorded noted st change added (failed f, d) grown h = tt
  record_change-IsRecorded noted st change added (fine c, d) grown h = (
    noted.journal,
    added,
    grown,
    record_change-fine digest format_time parse_time parse_record format_record max faults noted st
        change c d h,
  )

  indexed_rest-IsRecorded :
      (st : JournalState) (stored : Option Entry) (indexed : Directory)
      → IsUntouched dir indexed
      → IsRecorded (indexed_rest st stored indexed)
  unfolding put_indexed stamp
  indexed_rest-IsRecorded st stored indexed kept =
      let note =
        noted digest format_time parse_time parse_record format_record max faults indexed st e.scope
          e.name stored now in
      let g =
        note_outside-IsGrown digest format_time parse_time parse_record format_record max faults
          indexed st e.scope e.name stored now in
      let change : JournalState → Change = λ st'.
        put_record digest format_time parse_time parse_record format_record max faults st' ctx now
          (stamp digest e now) opts stored in
      next_in-result {A = JournalState} {B = Change} IsRecorded note
        (λ st' d.
          recorded digest format_time parse_time parse_record format_record max faults d st'
            (change st'))
        (λ f d. tt)
        (λ st' d q.
          record_change-IsRecorded d st' (change st') g.added _
            (ap journal_bytes (ap (λ z. z.1) (sym q))
              ∙ g.journal_is
              ∙ ap (λ j. (elim j [ none ↦ [] | some file ↦ file ]) ++ g.added) kept.0)
            refl)

  after_file-IsRecorded :
      (l : Landing digest format_time parse_time parse_record format_record max faults dir ctx now e
        opts)
      → IsRecorded (next_in written_file (λ _ d. rest l.st l.stored d))
  unfolding put_written stamp
  after_file-IsRecorded l =
      let file_kept =
        write_file-IsUntouched faults dir e.scope (e.name ++ md)
          (encode format_time parse_time (stamp digest e now)) now in
      next_in-result {A = Unit {0}} {B = Change} IsRecorded written_file
        (λ _ d. rest l.st l.stored d) (λ f d. tt)
        (λ _ written q.
          let kept = subst (λ d. IsUntouched dir d) (ap (λ z. z.1) q) file_kept in
          let index_kept =
            reindexed-IsUntouched digest format_time parse_time parse_record format_record max
              faults written e.scope now in
          next_in-result {A = Unit {0}} {B = Change} IsRecorded
            (reindexed digest format_time parse_time parse_record format_record max faults written
              e.scope now)
            (λ _ d. indexed_rest l.st l.stored d) (λ f d. tt)
            (λ _ indexed q2. indexed_rest-IsRecorded l.st l.stored indexed (
              IsUntouched-trans written indexed kept
                (subst (λ d. IsUntouched written d) (ap (λ z. z.1) q2) index_kept))))

  -- A `Put`, with the lock or without it, and whichever of its calls of the file system fails or
  -- stops half way, leaves the journal and the cursor as they were unless the entry's file is
  -- written; and the journal is then what it was with bytes added at its end. The change that a
  -- `Put` returns is the last record of the journal, after what was there.
  pub put_file-IsOrdered :
      (locked : Bool)
      → IsOrdered
          (put_file digest format_time parse_time parse_record format_record max faults locked dir
            ctx now e opts).1
        × IsRecorded (
            put_file digest format_time parse_time parse_record format_record max faults locked dir
              ctx now e opts)
  put_file-IsOrdered false =
      let (f, q) =
        put_unlocked digest format_time parse_time parse_record format_record max faults dir ctx now
          e opts in
      rw q (inl (refl, refl), tt)
  put_file-IsOrdered true =
      elim (put_file-cases digest format_time parse_time parse_record format_record max faults dir
        ctx now e opts) [
          | inl (f, q) ↦ rw q (inl (refl, refl), tt)
          | inr l ↦ rw l.goes_on (after_file-IsOrdered l, after_file-IsRecorded l)
        ]
