-- ===== src/FileStore/State/Appending.antt =====
-- filestore/state.go: `appendChange` against reading the whole journal after it.
use mathlib.Core.List.{append_assoc}
use agentmemory.Prelude.{
  ℕ, zero, suc, ◌+◌, ◌<◌, Bytes, ◌≡◌, refl, sym, ap, ◌∙◌, inl, inr, false, Option, some, [], ◌∷◌,
  ◌++◌, arith, length, take, ◌==◌, Bool-cases, if◌then◌else◌,
}
use agentmemory.Memory.{Change, hash_of}
use agentmemory.FileStore.Journal.{complete_lines, last_seq, append_journal}
use agentmemory.FileStore.Journal.Lines.{last_index-cases, complete_lines-none}
use agentmemory.FileStore.Journal.Records.{fold, lines_size, records, records-good}
use agentmemory.FileStore.Journal.Cutting.{torn_text, length-append, Cut-file}
use agentmemory.FileStore.State.{
  JournalState, empty_state, note, up_to_newline, head_line, head_limit, rebuild_state,
  append_change,
}
use agentmemory.FileStore.State.Resuming.{
  note_change-set, noted-append, size-append, set, note_change, noted, rebuild_state-noted,
}
use agentmemory.FileStore.State.Numbers.{next_seq-rebuild_state}
use agentmemory.FileStore.Journal.Adding.{
  ReadsRecord, NamesEntry, decode_record-good, addition, AddsRecord, added,
}

head-kept :
    (n : ℕ) (x y z : Bytes)
    → up_to_newline (take n (x ++ (b'\n' ∷ y))) ≡ up_to_newline (take n (x ++ (b'\n' ∷ z)))
unfolding up_to_newline
head-kept zero x y z = refl
head-kept (suc n) [] y z = refl
head-kept (suc n) (c ∷ x) y z = rw (head-kept n x y z) refl

head_line-kept :
    (file more : Bytes)
    → 0 < lines_size (complete_lines file)
    → head_line (some (file ++ more)) ≡ head_line (some file)
head_line-kept file more h = elim (last_index-cases file) [
  | inl k ↦ ground (arith, h, ap lines_size (complete_lines-none file k))
  | inr l ↦
      ap (λ t. head_line (some t))
        (ap (λ t. t ++ more) l.text ∙ append_assoc l.before (b'\n' ∷ l.last) more)
      ∙ head-kept head_limit l.before (l.last ++ more) l.last
      ∙ sym (ap (λ t. head_line (some t)) l.text)
]

module _ (digest : Bytes → Bytes) (parse_record : Bytes → Option Change)
    (format_record : Change → Bytes) (file : Bytes) (c : Change) where
  abbrev rebuilt : JournalState
  rebuilt = rebuild_state digest parse_record (some file)

  abbrev next : Change
  next = record c { seq = last_seq parse_record (some file) + 1 }

  abbrev file_after : Bytes
  file_after = append_journal format_record (some file) next

  abbrev finished : JournalState × ℕ → JournalState × Bytes × Change
  finished (st, seq) =
      let c' = record c { seq = seq } in
      let file' = append_journal format_record (some file) c' in
      let noted' = note digest (record st { seq = seq; off = length file' }) c'.entry in
      let head = if st.off == 0 then hash_of digest (head_line (some file')) else noted'.head in
      (record noted' { head = head }, file', c')

  append_change-finished :
      append_change digest parse_record (some file) format_record rebuilt c
      ≡ finished (rebuilt, next.seq)
  unfolding append_change
  append_change-finished = ap finished (next_seq-rebuild_state digest parse_record (some file))

  abbrev state_at : ℕ → Bytes → JournalState → JournalState
  state_at off head st = set off head false st

  abbrev head_of : Bytes → Bytes
  head_of text = hash_of digest (head_line (some text))

  abbrev size_of : Bytes → ℕ
  size_of text = lines_size (complete_lines text)

  abbrev noted_in : Bytes → JournalState
  noted_in text = noted digest parse_record empty_state text

  -- The first line does not change once it is complete.
  abbrev head_after : Bytes → Bytes
  head_after file' = if size_of file == 0 then head_of file' else head_of file

  head_after-kept : (more : Bytes) → head_after (file ++ more) ≡ head_of (file ++ more)
  head_after-kept more = elim (Bool-cases (size_of file == 0)) [
    | inl none_done ↦ ap (λ b. if b then head_of (file ++ more) else head_of file) none_done
    | inr some_done ↦
        ap (λ b. if b then head_of (file ++ more) else head_of file) some_done
        ∙ ap (hash_of digest) (sym (head_line-kept file more (ground (arith, some_done))))
  ]

  finished-state :
      (finished (rebuilt, next.seq)).0
      ≡ state_at
          (length file_after)
          (head_after file_after)
          (note_change digest (noted_in file) next)
  finished-state =
      ap (λ (st : JournalState). (finished (st, next.seq)).0)
        (rebuild_state-noted digest parse_record file)
      ∙ ap
          (λ (n : JournalState). record n {
            head = if size_of file == 0 then head_of file_after else n.head;
          })
          (note_change-set digest (length file_after) (head_of file) false (noted_in file) next)

  module _ (reads : ReadsRecord format_record parse_record next) (names : NamesEntry next)
      (no_record : records parse_record (torn_text file ∷ []) ≡ []) where
    is_next : records parse_record (format_record next ∷ []) ≡ next ∷ []
    is_next =
        records-good parse_record (format_record next) next reads.not_blank
          (decode_record-good format_record parse_record next reads names (omega arith))

    abbrev more : Bytes
    more = addition file (format_record next)

    added_next :
        AddsRecord parse_record next
          (format_record next)
          reads.one_line
          is_next
          ((Cut-file file).torn ++ addition file (format_record next))
    added_next =
        added parse_record next (format_record next) reads.one_line is_next file (Cut-file file)
          no_record

    file_after-more : file_after ≡ file ++ more
    unfolding append_journal
    file_after-more = refl

    noted_after : noted_in (file ++ more) ≡ note_change digest (noted_in file) next
    noted_after =
        sym (noted-append digest parse_record file more (Cut-file file))
        ∙ ap (fold (note_change digest) (noted_in file)) added_next.found_one

    size_after : size_of (file ++ more) ≡ length (file ++ more)
    size_after =
        let k = Cut-file file in
        sym (size-append digest parse_record file more k)
        ∙ ground (
          arith,
          k.size_done,
          added_next.all_lines,
          length-append k.done (k.torn ++ more),
          ap (λ t. length (t ++ more)) k.text,
          ap length (append_assoc k.done k.torn more),
        )

    state_after :
        (file' : Bytes)
        → file' ≡ file ++ more
        → state_at (length file') (head_after file') (note_change digest (noted_in file) next)
          ≡ rebuild_state digest parse_record (some file')
    state_after file' h =
        let noted' = note_change digest (noted_in file) next in
        ap (λ t. state_at (length t) (head_after t) noted') h
        ∙ ap (λ n. state_at n (head_after (file ++ more)) noted') (sym size_after)
        ∙ ap (λ t. state_at (size_of (file ++ more)) t noted') (head_after-kept more)
        ∙ ap (state_at (size_of (file ++ more)) (head_of (file ++ more))) (sym noted_after)
        ∙ sym (rebuild_state-noted digest parse_record (file ++ more))
        ∙ ap (λ t. rebuild_state digest parse_record (some t)) (sym h)

    -- A record appended to the journal leaves the state that reading the whole journal after it
    -- gives, where the state was what the journal before it gives, its JSON reads back as the
    -- record, and the torn text that the append ends, if any, is no record.
    pub append_change-rebuild :
        append_change digest parse_record (some file) format_record rebuilt c
        ≡ (rebuild_state digest parse_record (some file_after), file_after, next)
    append_change-rebuild =
        append_change-finished
        ∙ ap (λ st. (st, file_after, next))
            (finished-state ∙ state_after file_after file_after-more)
