-- ===== src/FileStore/Journal.antt =====
-- filestore/journal.go: the lines of journal.jsonl, read forwards by `scanJournal` and backwards by
-- `tailLines`, and `appendJournal`. The file is its bytes, `none` where there is none. The JSON of a
-- record is encoding/json's: how it is written and read are parameters. A callback that keeps a
-- state is a function on it, which also says whether to go on.
pub mod Lines
pub mod InnerLoop
pub mod Backwards
pub mod Records
pub mod Cutting
pub mod Adding
use agentmemory.Prelude.{
  ℕ, zero, suc, ◌+◌, ◌-◌, ◌*◌, Bytes, codes, Bool, true, false, not, ◌&&◌, ◌||◌, Option, none, some,
  List, [], ◌∷◌, ◌++◌, length, take, drop, ltb, ◌==◌, str_eq, trim_space, if◌then◌else◌,
}
use agentmemory.Memory.{Entry, Change, valid_name, valid_scope}

-- Why a line is no record.
pub data RecordFault : Type 0 where
  not_json : RecordFault
  no_seq : RecordFault
  names_no_entry : RecordFault
  no_hash : RecordFault

pub data Decoded : Type 0 where
  good : Change → Decoded
  bad : RecordFault → Decoded

-- What a scan reports: a record, or the number of a line that is none.
pub data Report : Type 0 where
  found : Change → Report
  damage : ℕ → RecordFault → Report

abbrev pub report_of : ℕ → Decoded → Report
report_of line_no (good c) = found c
report_of line_no (bad f) = damage line_no f

-- The lines that end with a line end, without it: what `ReadBytes('\n')` gives one by one before
-- the end of the file.
unfoldable pub complete_lines : Bytes → List Bytes
complete_lines [] = []
complete_lines (c ∷ s) =
    let rest = complete_lines s in
    if c == b'\n' then [] ∷ rest else elim rest [ [] ↦ [] | l ∷ ls ↦ (c ∷ l) ∷ ls ]

abbrev pub is_blank : Bytes → Bool
is_blank line = length (trim_space line) == 0

-- `bytes.LastIndexByte`.
unfoldable pub last_index : ℕ → Bytes → Option ℕ
last_index b [] = none
last_index b (c ∷ s) = elim (last_index b s) [
  | some i ↦ some (suc i)
  | none ↦ if c == b then some 0 else none
]

-- `min(chunk, start)`.
abbrev pub chunk_at : ℕ → ℕ → ℕ
chunk_at chunk start = if ltb start chunk then start else chunk

module _ {S : Type 0} (fn : S → Bytes → S × Bool) where
  -- The inner loop of `tailLines`, from the index of the line end that ends the next line: the
  -- index where it needs bytes that are not read yet, or `none` where it returns. Each round
  -- lowers the index, so one more than it is enough fuel.
  unfoldable pub lines_in : ℕ → S → Bytes → ℕ → Bool → S × Option ℕ
  lines_in zero s buf limit at_start = (s, some limit)
  lines_in (suc fuel) s buf limit at_start = elim (last_index b'\n' (take limit buf)) [
    | none ↦ if at_start then ((fn s (take limit buf)).0, none) else (s, some limit)
    | some begin ↦
        let (s', go) = fn s (drop (suc begin) (take limit buf)) in
        elim go [ true ↦ lines_in fuel s' buf begin at_start | false ↦ (s', none) ]
  ]

  -- The outer loop of `tailLines`: each round reads a byte at least, so the file's length is
  -- enough fuel.
  unfoldable pub tail_from : ℕ → Bytes → S → ℕ → ℕ → Bytes → Option ℕ → S
  tail_from zero file s start chunk buf limit = s
  tail_from (suc fuel) file s zero chunk buf limit = s
  tail_from (suc fuel) file s (suc k) chunk buf limit =
      let n = chunk_at chunk (suc k) in
      let start = suc k - n in
      let more = take n (drop start file) ++ buf in
      let limit' : Option ℕ = elim limit [ none ↦ last_index b'\n' more | some l ↦ some (l + n) ] in
      elim limit' [
        | none ↦ tail_from fuel file s start (chunk * 2) more none
        | some l ↦
            let (s', again) = lines_in (suc l) s more l (start == 0) in
            elim again [
              | none ↦ s'
              | some l' ↦ tail_from fuel file s' start (chunk * 2) (take (suc l') more) (some l')
            ]
      ]

  -- `tailLines`.
  unfoldable pub tail_lines : Bytes → S → S
  tail_lines file s = tail_from (length file) file s (length file) 4096 [] none

module _ (parse_record : Bytes → Option Change) where
  -- `decodeRecord`.
  unfoldable pub decode_record : Bytes → Decoded
  decode_record line = elim (parse_record line) [
    | none ↦ bad not_json
    | some c ↦
        if c.seq == 0
        then bad no_seq
        else if not (valid_scope c.entry.scope) || not (valid_name c.entry.name)
        then bad names_no_entry
        else if str_eq c.entry.hash []
        then bad no_hash
        else good c
  ]

  -- The function that `lastSeq` passes to `tailLines`.
  unfoldable pub keep_seq : ℕ → Bytes → ℕ × Bool
  keep_seq seq line =
      if is_blank line
      then (seq, true)
      else elim (decode_record line) [ bad _ ↦ (seq, true) | good c ↦ (c.seq, false) ]

  -- `lastSeq`.
  unfoldable pub last_seq : Option Bytes → ℕ
  last_seq none = 0
  last_seq (some file) = tail_lines keep_seq file 0

  module _ {S : Type 0} (fn : S → Report → S × Bool) where
    -- The loop of `scanJournal`: the state, and the offset behind the last complete line.
    unfoldable pub scan_from : S → ℕ → ℕ → List Bytes → S × ℕ
    scan_from s end line_no [] = (s, end)
    scan_from s end line_no (line ∷ ls) =
        let end' = end + (length line + 1) in
        let (s', go) : S × Bool =
          if is_blank line then (s, true) else fn s (report_of line_no (decode_record line)) in
        elim go [ true ↦ scan_from s' end' (suc line_no) ls | false ↦ (s', end') ]

    -- `scanJournal`.
    unfoldable pub scan_journal : Option Bytes → ℕ → S → S × ℕ
    scan_journal none off s = (s, 0)
    scan_journal (some file) off s =
        if ltb (length file) off
        then (s, length file)
        else scan_from s off 1 (complete_lines (drop off file))

  module _ {S : Type 0} (fn : S → Report → S × Bool) where
    -- The function that `readJournal` passes to `scanJournal`.
    abbrev pub past_cursor : ℕ → S → Report → S × Bool
    past_cursor after s (found c) = if ltb after c.seq then fn s (found c) else (s, true)
    past_cursor after s (damage line_no f) = fn s (damage line_no f)

    -- `readJournal`.
    unfoldable pub read_journal : Option Bytes → ℕ → S → S
    read_journal file after s = (scan_journal (past_cursor after) file 0 s).0

-- Whether the last byte is read and is no line end.
unfoldable pub is_torn : Bytes → Bool
is_torn [] = false
is_torn (c ∷ []) = not (c == b'\n')
is_torn (c ∷ d ∷ s) = is_torn (d ∷ s)

module _ (format_record : Change → Bytes) where
  -- `appendJournal`: the file after it, whose length it returns.
  unfoldable pub append_journal : Option Bytes → Change → Bytes
  append_journal none c = format_record c ++ (b'\n' ∷ [])
  append_journal (some file) c =
      file ++ ((if is_torn file then b'\n' ∷ format_record c else format_record c) ++ (b'\n' ∷ []))
