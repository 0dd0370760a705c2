-- ===== src/FileStore/Journal/Records.antt =====
-- filestore/journal.go: the records that a read of the journal meets.
use mathlib.Core.List.{append_assoc, reverse_aux}
use agentmemory.Prelude.{
  ℕ, suc, ◌+◌, Bytes, ◌≡◌, refl, sym, ap, ◌∙◌, inl, inr, Bool, true, false, Option, some, List, [],
  ◌∷◌, ◌++◌, arith, length, Bool-cases, if◌then◌else◌,
}
use agentmemory.Memory.{Change}
use agentmemory.FileStore.Journal.{
  RecordFault, Decoded, good, bad, Report, found, damage, is_blank, decode_record, report_of,
  complete_lines, keep_seq, last_seq, scan_from,
}
use agentmemory.FileStore.Journal.InnerLoop.{visit, visit-go, visit-stop}
use agentmemory.FileStore.Journal.Backwards.{tail_lines-visit}

-- A callback that goes on, and has a use for records alone.
abbrev pub on_records : {S : Type 0} → (S → Change → S) → S → Report → S × Bool
on_records g s (found c) = (g s c, true)
on_records g s (damage line_no f) = (s, true)

abbrev pub fold : {S : Type 0} → (S → Change → S) → S → List Change → S
fold g s [] = s
fold g s (c ∷ cs) = fold g (g s c) cs

-- What the lines take in the file.
abbrev pub lines_size : List Bytes → ℕ
lines_size [] = 0
lines_size (l ∷ ls) = length l + 1 + lines_size ls

module _ (parse_record : Bytes → Option Change) where
  abbrev with_good : Decoded → List Change → List Change
  with_good (good c) cs = c ∷ cs
  with_good (bad f) cs = cs

  -- The records of some lines: those that are neither blank nor damaged.
  unfoldable pub records : List Bytes → List Change
  records [] = []
  records (l ∷ ls) =
      let rest = records ls in
      if is_blank l then rest else with_good (decode_record parse_record l) rest

  -- What a line is to the readers: white space, a record, or damage.
  data LineKind (l : Bytes) : Type 0 where
    blank : is_blank l ≡ true → LineKind l
    record_line :
        (c : Change) → is_blank l ≡ false → decode_record parse_record l ≡ good c → LineKind l
    damaged :
        (f : RecordFault) → is_blank l ≡ false → decode_record parse_record l ≡ bad f → LineKind l

  kind_from :
      (l : Bytes) (d : Decoded) → is_blank l ≡ false → decode_record parse_record l ≡ d → LineKind l
  kind_from l (good c) h e = record_line c h e
  kind_from l (bad f) h e = damaged f h e

  line_kind : (l : Bytes) → LineKind l
  line_kind l = elim (Bool-cases (is_blank l)) [
    | inl h ↦ blank h
    | inr h ↦ kind_from l (decode_record parse_record l) h refl
  ]

  module _ (l : Bytes) where
    records-blank : is_blank l ≡ true → records (l ∷ []) ≡ []
    unfolding records
    records-blank h = rw h refl

    pub records-good :
        (c : Change)
        → is_blank l ≡ false
        → decode_record parse_record l ≡ good c
        → records (l ∷ []) ≡ c ∷ []
    unfolding records
    records-good c h e = rw (h, e) refl

    records-bad :
        (f : RecordFault)
        → is_blank l ≡ false
        → decode_record parse_record l ≡ bad f
        → records (l ∷ []) ≡ []
    unfolding records
    records-bad f h e = rw (h, e) refl

  module _ (s : ℕ) (l : Bytes) where
    keep_seq-blank : is_blank l ≡ true → keep_seq parse_record s l ≡ (s, true)
    unfolding keep_seq
    keep_seq-blank h = rw h refl

    keep_seq-good :
        (c : Change)
        → is_blank l ≡ false
        → decode_record parse_record l ≡ good c
        → keep_seq parse_record s l ≡ (c.seq, false)
    unfolding keep_seq
    keep_seq-good c h e = rw (h, e) refl

    keep_seq-bad :
        (f : RecordFault)
        → is_blank l ≡ false
        → decode_record parse_record l ≡ bad f
        → keep_seq parse_record s l ≡ (s, true)
    unfolding keep_seq
    keep_seq-bad f h e = rw (h, e) refl

  records-cons : (l : Bytes) (ls : List Bytes) → records (l ∷ ls) ≡ records (l ∷ []) ++ records ls
  unfolding records
  records-cons l ls = elim (line_kind l) [
    | blank h ↦ rw h refl
    | record_line c h e ↦ rw (h, e) refl
    | damaged f h e ↦ rw (h, e) refl
  ]

  pub records-append : (ls ms : List Bytes) → records (ls ++ ms) ≡ records ls ++ records ms
  unfolding records
  records-append [] ms = refl
  records-append (l ∷ ls) ms =
      records-cons l (ls ++ ms)
      ∙ ap (◌++◌ (records (l ∷ []))) (records-append ls ms)
      ∙ sym (append_assoc (records (l ∷ [])) (records ls) (records ms))
      ∙ ap (λ cs. cs ++ records ms) (sym (records-cons l ls))

  module _ {S : Type 0} (g : S → Change → S) where
    scan_from-line :
        (s t : S) (end line_no : ℕ) (l : Bytes) (ls : List Bytes)
        → (if is_blank l
            then (s, true)
            else on_records g s (report_of line_no (decode_record parse_record l)))
          ≡ (t, true)
        → scan_from parse_record (on_records g) s end line_no (l ∷ ls)
          ≡ scan_from parse_record (on_records g) t (end + (length l + 1)) (suc line_no) ls
    unfolding scan_from
    scan_from-line s t end line_no l ls h =
        let end' = end + (length l + 1) in
        let on = scan_from parse_record (on_records g) in
        ap
          (λ r. elim r.1 as (λ _. S × ℕ) [
            | true ↦ on r.0 end' (suc line_no) ls
            | false ↦ (r.0, end')
          ])
          h

    scan_from-rest :
        (s t : S) (end line_no : ℕ) (l : Bytes) (ls : List Bytes) (cs : List Change)
        → (if is_blank l
            then (s, true)
            else on_records g s (report_of line_no (decode_record parse_record l)))
          ≡ (t, true)
        → records (l ∷ []) ≡ cs
        → fold g s (cs ++ records ls) ≡ fold g t (records ls)
        → scan_from parse_record (on_records g) t (end + (length l + 1)) (suc line_no) ls
          ≡ (fold g t (records ls), end + (length l + 1) + lines_size ls)
        → scan_from parse_record (on_records g) s end line_no (l ∷ ls)
          ≡ (fold g s (records (l ∷ ls)), end + lines_size (l ∷ ls))
    scan_from-rest s t end line_no l ls cs h r f rest =
        let behind : end + (length l + 1) + lines_size ls ≡ end + lines_size (l ∷ ls) =
          omega arith in
        scan_from-line s t end line_no l ls h
        ∙ rest
        ∙ ap (λ e. (fold g t (records ls), e)) behind
        ∙ ap (λ u. (u, end + lines_size (l ∷ ls)))
            (sym (ap (fold g s) (records-cons l ls ∙ ap (λ ds. ds ++ records ls) r) ∙ f))

    pub scan_from-records :
        (s : S) (end line_no : ℕ) (ls : List Bytes)
        → scan_from parse_record (on_records g) s end line_no ls
          ≡ (fold g s (records ls), end + lines_size ls)
    unfolding scan_from records
    scan_from-records s end line_no [] = ground arith
    scan_from-records s end line_no (l ∷ ls) =
        let end' = end + (length l + 1) in
        elim (line_kind l) [
          | blank h ↦
              scan_from-rest s s end line_no l ls [] (rw h refl) (records-blank l h) refl
                (scan_from-records s end' (suc line_no) ls)
          | record_line c h e ↦
              scan_from-rest s (g s c) end line_no l ls (c ∷ []) (rw (h, e) refl)
                (records-good l c h e) refl (scan_from-records (g s c) end' (suc line_no) ls)
          | damaged f h e ↦
              scan_from-rest s s end line_no l ls [] (rw (h, e) refl) (records-bad l f h e) refl
                (scan_from-records s end' (suc line_no) ls)
        ]

  abbrev pub seq_of : ℕ → Change → ℕ
  seq_of n c = c.seq

  visit-line :
      (s : ℕ) (l : Bytes) (acc : List Bytes)
      → visit (keep_seq parse_record) s (l ∷ acc)
        ≡ fold seq_of (visit (keep_seq parse_record) s acc) (records (l ∷ []))
  visit-line s l acc =
      let keep = keep_seq parse_record in
      elim (line_kind l) [
        | blank h ↦
            let kept = keep_seq-blank s l h in
            visit-go keep s l acc (ap (λ r. r.1) kept)
            ∙ ap (λ r. visit keep r.0 acc) kept
            ∙ ap (fold seq_of (visit keep s acc)) (sym (records-blank l h))
        | record_line c h e ↦
            let kept = keep_seq-good s l c h e in
            visit-stop keep s l acc (ap (λ r. r.1) kept)
            ∙ ap (λ r. r.0) kept
            ∙ ap (fold seq_of (visit keep s acc)) (sym (records-good l c h e))
        | damaged f h e ↦
            let kept = keep_seq-bad s l f h e in
            visit-go keep s l acc (ap (λ r. r.1) kept)
            ∙ ap (λ r. visit keep r.0 acc) kept
            ∙ ap (fold seq_of (visit keep s acc)) (sym (records-bad l f h e))
      ]

  pub fold-append :
      {S : Type 0} (g : S → Change → S) (s : S) (cs ds : List Change)
      → fold g s (cs ++ ds) ≡ fold g (fold g s cs) ds
  fold-append g s [] ds = refl
  fold-append g s (c ∷ cs) ds = fold-append g (g s c) cs ds

  visit-records :
      (s : ℕ) (ls acc : List Bytes)
      → visit (keep_seq parse_record) s (reverse_aux ls acc)
        ≡ fold seq_of (visit (keep_seq parse_record) s acc) (records ls)
  unfolding records
  visit-records s [] acc = refl
  visit-records s (l ∷ ls) acc =
      visit-records s ls (l ∷ acc)
      ∙ ap (λ n. fold seq_of n (records ls)) (visit-line s l acc)
      ∙ sym (
          ap (fold seq_of (visit (keep_seq parse_record) s acc)) (records-cons l ls)
          ∙ fold-append seq_of (visit (keep_seq parse_record) s acc) (records (l ∷ []))
              (records ls))

  -- Reading the journal's tail backwards gives the number at which a read of the whole journal
  -- ends: that of its last record, past damage, white space and what stands after the last
  -- line end, and 0 where it has no record.
  pub last_seq-records :
      (file : Bytes)
      → last_seq parse_record (some file) ≡ fold seq_of 0 (records (complete_lines file))
  unfolding last_seq visit
  last_seq-records file =
      tail_lines-visit (keep_seq parse_record) file 0 ∙ visit-records 0 (complete_lines file) []
