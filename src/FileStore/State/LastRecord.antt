-- ===== src/FileStore/State/LastRecord.antt =====
-- filestore/state.go: `lastRecordFor` gives a record for the name it is asked for.
use mathlib.Core.Path.{subst}
use agentmemory.Prelude.{
  Bytes, ◌≡◌, sym, ap, ◌∙◌, inl, inr, true, false, ◌&&◌, Option, none, some, List, [], ◌∷◌, arith,
  length, ltb, str_eq, str_eq_iff, Bool-cases, if◌then◌else◌,
}
use agentmemory.Memory.{Entry, Change}
use agentmemory.FileStore.Journal.{complete_lines, scan_from, scan_journal}
use agentmemory.FileStore.Journal.Records.{on_records, fold, records, scan_from-records}
use agentmemory.FileStore.State.{last_record_for}

-- The entry's key is that of the name, and it is live or not.
pub record IsNamed (scope name : Bytes) (e : Entry) : Type 0 where
  pub scope_is : e.scope ≡ scope
  pub name_is : e.name ≡ name

abbrev pub IsFile : Bytes → Bytes → Option Entry → Type 0
IsFile scope name none = Unit
IsFile scope name (some e) = IsNamed scope name e × (e.deleted ≡ false)

abbrev pub IsRecord : Bytes → Bytes → Option Change → Type 0
IsRecord scope name none = Unit
IsRecord scope name (some c) = IsNamed scope name c.entry

IsNamed-tests :
    (scope name : Bytes) (e : Entry)
    → (str_eq e.scope scope && str_eq e.name name) ≡ true
    → IsNamed scope name e
IsNamed-tests scope name e h = record {
  scope_is = (str_eq_iff e.scope scope).0 (ground (arith, h));
  name_is = (str_eq_iff e.name name).0 (ground (arith, h));
}

module _ (scope name : Bytes) where
  abbrev latest : Option Change → Change → Option Change
  latest kept c = if str_eq c.entry.scope scope && str_eq c.entry.name name then some c else kept

  latest-IsRecord :
      (kept : Option Change) (c : Change)
      → IsRecord scope name kept
      → IsRecord scope name (latest kept c)
  latest-IsRecord kept c h =
      elim (Bool-cases (str_eq c.entry.scope scope && str_eq c.entry.name name)) [
        | inl same ↦ rw same (IsNamed-tests scope name c.entry same)
        | inr other ↦ rw other h
      ]

  fold-IsRecord :
      (kept : Option Change) (cs : List Change)
      → IsRecord scope name kept
      → IsRecord scope name (fold latest kept cs)
  fold-IsRecord kept [] h = h
  fold-IsRecord kept (c ∷ cs) h = fold-IsRecord (latest kept c) cs (latest-IsRecord kept c h)

  scan_journal-latest :
      (parse_record : Bytes → Option Change) (file : Bytes)
      → (scan_journal parse_record (on_records latest) (some file) 0 none).0
        ≡ fold latest none (records parse_record (complete_lines file))
  unfolding scan_journal
  scan_journal-latest parse_record file =
      let inside : ltb (length file) 0 ≡ false = ground arith in
      let lines = complete_lines file in
      ap
        (λ b.
          (if b
            then (none, length file)
            else scan_from parse_record (on_records latest) none 0 1 lines).0)
        inside
      ∙ ap (λ r. r.0) (scan_from-records parse_record latest none 0 1 lines)

  pub last_record_for-IsRecord :
      (digest : Bytes → Bytes) (parse_record : Bytes → Option Change) (journal : Option Bytes)
      → IsRecord scope name (last_record_for digest parse_record journal scope name)
  unfolding last_record_for scan_journal
  last_record_for-IsRecord digest parse_record none = tt
  last_record_for-IsRecord digest parse_record (some file) =
      subst (IsRecord scope name) (sym (scan_journal-latest parse_record file))
        (fold-IsRecord none (records parse_record (complete_lines file)) tt)
