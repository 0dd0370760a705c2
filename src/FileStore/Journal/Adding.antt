-- ===== src/FileStore/Journal/Adding.antt =====
-- filestore/journal.go: the lines of a journal to which a record was appended.
use mathlib.Core.List.{append-nil}
use agentmemory.Prelude.{
  ◌<◌, Bytes, ◌≡◌, ◌⊎◌, refl, sym, ap, ◌∙◌, inl, inr, Bool, true, false, Option, none, some, [],
  ◌∷◌, ◌++◌, arith, length, ◌==◌, str_eq, if◌then◌else◌,
}
use agentmemory.Memory.{Change, valid_name, valid_scope}
use agentmemory.FileStore.FrontMatter.{split_at_lines}
use agentmemory.FileStore.Journal.{
  good, complete_lines, last_index, is_torn, is_blank, decode_record,
}
use agentmemory.FileStore.Journal.Lines.{
  complete_lines-append, complete_lines-none, split_at_lines-none,
}
use agentmemory.FileStore.Journal.Records.{lines_size, records, records-append}
use agentmemory.FileStore.Journal.Cutting.{torn_text, torn-text, length-append, Cut, length-snoc}

-- What the JSON of a record does: it is one line, and reads back as the record.
pub record ReadsRecord (format_record : Change → Bytes) (parse_record : Bytes → Option Change)
    (c : Change) : Type 0 where
  pub reads : parse_record (format_record c) ≡ some c
  pub one_line : last_index b'\n' (format_record c) ≡ none
  pub not_blank : is_blank (format_record c) ≡ false

-- A record that names an entry, with its hash.
pub record NamesEntry (c : Change) : Type 0 where
  pub scope_named : valid_scope c.entry.scope ≡ true
  pub name_named : valid_name c.entry.name ≡ true
  pub hashed : str_eq c.entry.hash [] ≡ false

pub decode_record-good :
    (format_record : Change → Bytes) (parse_record : Bytes → Option Change) (c : Change)
    → ReadsRecord format_record parse_record c
    → NamesEntry c
    → 0 < c.seq
    → decode_record parse_record (format_record c) ≡ good c
unfolding decode_record
decode_record-good format_record parse_record c r n numbered =
    let positive : (c.seq == 0) ≡ false = ground (arith, numbered) in
    rw (r.reads, positive, n.scope_named, n.name_named, n.hashed, decode_record) refl

is_torn-cases : (t : Bytes) → last_index b'\n' t ≡ none → (t ≡ []) ⊎ (is_torn t ≡ true)
unfolding last_index is_torn
is_torn-cases [] h = inl refl
is_torn-cases (c ∷ []) h = inr (ground (arith, h))
is_torn-cases (c ∷ d ∷ t) h = elim (is_torn-cases (d ∷ t) (ground (arith, h))) [
  | inl empty ↦ ground (arith, empty)
  | inr torn ↦ inr torn
]

-- What `appendJournal` puts behind the file.
abbrev pub addition : Bytes → Bytes → Bytes
addition file line = (if is_torn file then b'\n' ∷ line else line) ++ (b'\n' ∷ [])

module _ (parse_record : Bytes → Option Change) (c : Change) (line : Bytes)
    (one_line : last_index b'\n' line ≡ none)
    (is_record : records parse_record (line ∷ []) ≡ c ∷ []) where
  line_alone : complete_lines (line ++ (b'\n' ∷ [])) ≡ line ∷ []
  unfolding last_index
  line_alone =
      complete_lines-append line []
      ∙ ap (λ ls. split_at_lines line ++ ls) (complete_lines-none [] refl)
      ∙ append-nil (split_at_lines line)
      ∙ split_at_lines-none line one_line

  -- The complete lines of a text are its whole, and one record.
  pub record AddsRecord (text : Bytes) : Type 0 where
    pub found_one : records parse_record (complete_lines text) ≡ c ∷ []
    pub all_lines : lines_size (complete_lines text) ≡ length text

  AddsRecord-same : (s t : Bytes) → s ≡ t → AddsRecord t → AddsRecord s
  AddsRecord-same s t h a = record {
    found_one = ap (λ u. records parse_record (complete_lines u)) h ∙ a.found_one;
    all_lines = ap (λ u. lines_size (complete_lines u)) h ∙ a.all_lines ∙ ap length (sym h);
  }

  added_whole : AddsRecord (line ++ (b'\n' ∷ []))
  added_whole = record {
    found_one = ap (records parse_record) line_alone ∙ is_record;
    all_lines = ap lines_size line_alone ∙ ground (arith, length-snoc line);
  }

  added_torn :
      (torn : Bytes)
      → last_index b'\n' torn ≡ none
      → records parse_record (torn ∷ []) ≡ []
      → AddsRecord (torn ++ (b'\n' ∷ line ++ (b'\n' ∷ [])))
  added_torn torn h no_record =
      let lines : complete_lines (torn ++ (b'\n' ∷ line ++ (b'\n' ∷ []))) ≡ torn ∷ line ∷ [] =
        complete_lines-append torn (line ++ (b'\n' ∷ []))
        ∙ ap (λ ls. ls ++ complete_lines (line ++ (b'\n' ∷ []))) (split_at_lines-none torn h)
        ∙ ap (◌∷◌ torn) line_alone in
      record {
        found_one =
            ap (records parse_record) lines
            ∙ records-append parse_record (torn ∷ []) (line ∷ [])
            ∙ ap (λ cs. cs ++ records parse_record (line ∷ [])) no_record
            ∙ is_record;
        all_lines =
            ap lines_size lines
            ∙ ground (arith, length-append torn (b'\n' ∷ line ++ (b'\n' ∷ [])), length-snoc line);
      }

  pub added :
      (file : Bytes) (k : Cut file)
      → records parse_record (torn_text file ∷ []) ≡ []
      → AddsRecord (k.torn ++ addition file line)
  unfolding is_torn
  added file k no_record =
      let put : Bool → Bytes = λ b. (if b then b'\n' ∷ line else line) ++ (b'\n' ∷ []) in
      elim (is_torn-cases k.torn k.one_line) [
        | inl empty ↦
            AddsRecord-same (k.torn ++ addition file line) (line ++ (b'\n' ∷ []))
              (ap (λ t. t ++ addition file line) empty ∙ ap put (k.torn_end ∙ ap is_torn empty))
              added_whole
        | inr torn ↦
            AddsRecord-same (k.torn ++ addition file line)
              (k.torn ++ (b'\n' ∷ line ++ (b'\n' ∷ [])))
              (ap (λ b. k.torn ++ put b) (k.torn_end ∙ torn))
              (added_torn k.torn k.one_line
                (ap (λ t. records parse_record (t ∷ [])) (sym (torn-text file k)) ∙ no_record))
      ]
