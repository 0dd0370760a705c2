-- ===== src/FileStore/State/Numbers.antt =====
-- filestore/state.go: the number at which the state stands, and `lastSeq`.
use agentmemory.Prelude.{
  ℕ, ◌+◌, Bytes, ◌≡◌, refl, sym, ap, ◌∙◌, inl, inr, false, Option, none, some, List, [], ◌∷◌, arith,
  ltb, Bool-cases, if◌then◌else◌,
}
use agentmemory.Memory.{Change}
use agentmemory.FileStore.Journal.{complete_lines, scan_journal, last_seq}
use agentmemory.FileStore.Journal.Records.{fold, seq_of, records, last_seq-records}
use agentmemory.FileStore.State.{JournalState, empty_state, note, rebuild_state, next_seq}
use agentmemory.FileStore.State.Resuming.{note_change, rebuild_state-noted}

module _ (digest : Bytes → Bytes) (parse_record : Bytes → Option Change) where
  note_change-seq : (st : JournalState) (c : Change) → (note_change digest st c).seq ≡ c.seq
  unfolding note
  note_change-seq st c = elim (Bool-cases c.entry.deleted) [
    | inl gone ↦ rw gone refl
    | inr live ↦ rw live refl
  ]

  fold-seq :
      (st : JournalState) (cs : List Change)
      → (fold (note_change digest) st cs).seq ≡ fold (seq_of parse_record) st.seq cs
  fold-seq st [] = refl
  fold-seq st (c ∷ cs) =
      fold-seq (note_change digest st c) cs
      ∙ ap (λ n. fold (seq_of parse_record) n cs) (note_change-seq st c)

  -- The number that the journal's tail gives, read backwards, is the number at which a state
  -- rebuilt from the whole journal stands, whatever damage and torn text the journal has.
  pub last_seq-rebuild_state :
      (journal : Option Bytes)
      → last_seq parse_record journal ≡ (rebuild_state digest parse_record journal).seq
  unfolding last_seq rebuild_state scan_journal
  last_seq-rebuild_state none = refl
  last_seq-rebuild_state (some file) =
      last_seq-records parse_record file
      ∙ sym (
          ap (λ (st : JournalState). st.seq) (rebuild_state-noted digest parse_record file)
          ∙ fold-seq empty_state (records parse_record (complete_lines file)))

  abbrev numbered : JournalState → JournalState × ℕ
  numbered st = (st, st.seq + 1)

  next_seq-kept :
      (journal : Option Bytes) (st : JournalState)
      → last_seq parse_record journal ≡ st.seq
      → next_seq digest parse_record journal st ≡ (st, last_seq parse_record journal + 1)
  unfolding next_seq
  next_seq-kept journal st h =
      let tail = last_seq parse_record journal in
      let kept : ltb st.seq tail ≡ false = ground (arith, h) in
      ap (λ b. numbered (if b then record st { seq = tail } else st)) kept
      ∙ ap (λ n. (st, n + 1)) (sym h)

  -- A state rebuilt from the journal keeps its number in `nextSeq`, which gives the next one.
  pub next_seq-rebuild_state :
      (journal : Option Bytes)
      → let st = rebuild_state digest parse_record journal in
        next_seq digest parse_record journal st ≡ (st, last_seq parse_record journal + 1)
  next_seq-rebuild_state journal =
      next_seq-kept journal (rebuild_state digest parse_record journal)
        (last_seq-rebuild_state journal)
