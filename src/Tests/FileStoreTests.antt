-- ===== src/Tests/FileStoreTests.antt =====
-- Runs of the file store's parts.
use mathlib.Core.List.{reverse}
use mathlib.Core.Option
use agentmemory.Prelude.{
  ℕ, zero, suc, ◌-◌, Bytes, codes, ◌≡◌, refl, ap, Bool, true, Option, none, some, List, [], ◌∷◌,
  ◌++◌, ◌+◌, map, arith, all_of, length, lookup,
}
use agentmemory.Memory.{Change}
use agentmemory.Memory.EntryRules.{IsPair}
use agentmemory.FileStore.FrontMatter.{encode, decode}
use agentmemory.FileStore.FrontMatter.Cutting.{lacks}
use agentmemory.FileStore.FrontMatter.Trimming.{is_name_byte, trim_space-names}
use agentmemory.FileStore.FrontMatter.RoundTrip.{ReadsTimes, decode-encode}
use agentmemory.FileStore.Journal.{
  tail_from, lines_in, last_index, keep_seq, decode_record, append_journal, is_torn, complete_lines,
  tail_lines, last_seq,
}
use agentmemory.FileStore.Journal.InnerLoop.{visit}
use agentmemory.FileStore.Journal.Backwards.{tail_lines-visit}
use agentmemory.FileStore.State.LastRecord.{IsNamed}
use agentmemory.FileStore.State.Outside.{found_outside, outside-once}
use agentmemory.FileStore.State.{
  empty_state, note, outside, reconciled, append_change, rebuild_state, load_state, contents,
}
use agentmemory.FileStore.Journal.Records.{records}
use agentmemory.FileStore.Journal.Adding.{ReadsRecord, NamesEntry}
use agentmemory.FileStore.State.Appending.{append_change-rebuild}
use agentmemory.FileStore.State.Resuming.{as_written, load_state-rebuild}
use agentmemory.FileStore.State.Numbers.{last_seq-rebuild_state}
use agentmemory.Tests.Setup.{program, digest, style}

-- A time as so many letters.
abbrev pub ticks : ℕ → Bytes
ticks zero = []
ticks (suc t) = b'x' ∷ ticks t

abbrev pub count_ticks : Bytes → Option ℕ
count_ticks s = some (length s)

length-ticks : (t : ℕ) → length (ticks t) ≡ t
length-ticks zero = refl
length-ticks (suc t) = ground (arith, length-ticks t)

ticks-names : (t : ℕ) → all_of is_name_byte (ticks t) ≡ true
ticks-names zero = refl
ticks-names (suc t) = ticks-names t

ticks-one_line : (t : ℕ) → lacks b'\n' (ticks t) ≡ true
ticks-one_line zero = refl
ticks-one_line (suc t) = ticks-one_line t

pub ticks-ReadsTimes : ReadsTimes ticks count_ticks
ticks-ReadsTimes = record {
  reads = λ t. ap some (length-ticks t);
  trimmed = λ t. trim_space-names (ticks t) (ticks-names t);
  one_line = ticks-one_line;
}

abbrev style_file : Bytes
style_file = encode ticks count_ticks style

IsPair-style : IsPair (codes "description", codes "How to indent")
unfolding program
IsPair-style = record {
  key_named = refl;
  unreserved = refl;
  one_line = refl;
  trimmed = refl;
  is_utf8 = refl;
}

decode-encode_example :
    ((decode ticks count_ticks style_file).content ≡ style.content)
    × ((decode ticks count_ticks style_file).updated ≡ style.updated)
    × ((k : Bytes) → lookup k (decode ticks count_ticks style_file).meta ≡ lookup k style.meta)
unfolding program
decode-encode_example =
    decode-encode ticks count_ticks ticks-ReadsTimes style refl (IsPair-style, tt)

abbrev collect : List Bytes → Bytes → List Bytes × Bool
collect ls l = (l ∷ ls, true)

abbrev three_lines : Bytes
three_lines = codes "1\n?\n2\n3"

tail_lines-visit_example :
    tail_lines collect three_lines [] ≡ visit collect [] (reverse (complete_lines three_lines))
tail_lines-visit_example = tail_lines-visit collect three_lines []

-- A record is a digit, its number.
abbrev pub read_digit : Bytes → Option Change
read_digit (d ∷ []) = some (record {
  seq = d - b'0';
  entry = record style { hash = codes "h" };
  prev = [];
  replaced = [];
  session = [];
  source = [];
  at = 0;
})
read_digit _ = none

last_seq-rebuild_state_example :
    last_seq read_digit (some three_lines)
    ≡ (rebuild_state digest read_digit (some three_lines)).seq
last_seq-rebuild_state_example = last_seq-rebuild_state digest read_digit (some three_lines)

load_state-rebuild_example :
    Option.map as_written (
      load_state digest read_digit
        (some (three_lines ++ codes "\n4\n"))
        (contents (some (rebuild_state digest read_digit (some three_lines)))))
    ≡ some (rebuild_state digest read_digit (some (three_lines ++ codes "\n4\n")))
load_state-rebuild_example = load_state-rebuild digest read_digit three_lines (codes "\n4\n")

-- The record that `read_digit` reads from the digit.
abbrev pub digit_record : ℕ → Change
digit_record n = record {
  seq = n;
  entry = record style { hash = codes "h" };
  prev = [];
  replaced = [];
  session = [];
  source = [];
  at = 0;
}

abbrev pub write_digit : Change → Bytes
write_digit c = (b'0' + c.seq) ∷ []

abbrev torn_lines : Bytes
torn_lines = codes "1\n?\n2\n3x"

digit_reads : ReadsRecord write_digit read_digit (digit_record 3)
unfolding program last_index
digit_reads = record { reads = refl; one_line = refl; not_blank = refl }

digit_names : NamesEntry (digit_record 3)
unfolding program
digit_names = record { scope_named = refl; name_named = refl; hashed = refl }

append_change-rebuild_example :
    append_change digest read_digit
      (some torn_lines)
      write_digit
      (rebuild_state digest read_digit (some torn_lines))
      (digit_record 0)
    ≡ (
      rebuild_state digest read_digit
          (some (append_journal write_digit (some torn_lines) (digit_record 3))),
      append_journal write_digit (some torn_lines) (digit_record 3),
      digit_record 3,
    )
unfolding program last_seq tail_lines tail_from lines_in last_index keep_seq decode_record records
    complete_lines
append_change-rebuild_example =
    append_change-rebuild digest read_digit write_digit torn_lines (digit_record 0) digit_reads
      digit_names refl

IsNamed-style : IsNamed (codes "user") (codes "code-style") style
IsNamed-style = record { scope_is = refl; name_is = refl }

outside-once_example :
    found_outside digest 4096 none
      (codes "user")
      (codes "code-style")
      read_digit
      none
      (note digest empty_state style)
      (some style)
      8
    ≡ none
unfolding program outside
outside-once_example =
    outside-once digest 4096 none (codes "user") (codes "code-style") read_digit none empty_state
      (some style) (reconciled style [] 7) 7 8 (IsNamed-style, refl) refl

-- A torn text that is a whole record: once the next append has ended its line, it is read beside
-- the new record, which has its number.
torn_record_read_twice :
    map
      (λ c. c.seq)
      (records read_digit (
        complete_lines (
          append_journal write_digit
            (some (codes "1\n2"))
            (digit_record (last_seq read_digit (some (codes "1\n2")) + 1)))))
    ≡ 1 ∷ 2 ∷ 2 ∷ []
unfolding program last_seq tail_lines tail_from lines_in last_index keep_seq decode_record records
    complete_lines append_journal is_torn
torn_record_read_twice = refl
