-- ===== src/FileStore/Directory/Growing.antt =====
-- filestore/filestore.go, state.go: what the calls that record a change leave.
use mathlib.Core.Path.{subst}
use agentmemory.Prelude.{
  ℕ, suc, ◌+◌, Bytes, ◌≡◌, refl, sym, ap, ◌∙◌, Option, none, some, List, [], ◌∷◌, ◌++◌, length,
  take, arith, Bool-cases, inl, inr,
}
use mathlib.Core.List.{append_assoc}
use agentmemory.Memory.{Entry, Change, Context, PutOption}
use agentmemory.FileStore.Journal.{append_journal}
use agentmemory.FileStore.State.{JournalState, append_change}
use agentmemory.FileStore.Directory.{
  Directory, Faults, AppendFault, appends, unopened, torn, journal_bytes, Outcome, fine, next_in,
  failed,
}
use agentmemory.FileStore.Directory.Writes.{
  append_file, append_to, note_outside, outside_now, save_state, record_change, put_indexed,
  put_record,
}
use agentmemory.FileStore.Directory.Files.{next_in-always, next_in-fine}

abbrev IsFine : {A : Type 0} → A → Outcome A → Type 0
IsFine a (fine b) = a ≡ b
IsFine a (failed f) = ⊥

fine-injective : {A : Type 0} {a b : A} → fine a ≡ fine b → a ≡ b
fine-injective {a = a} h = subst (λ r. IsFine a r) h refl

take_into {ℓ} :
    {A : Type ℓ} (xs ys : List A) (n : ℕ) → take (length xs + n) (xs ++ ys) ≡ xs ++ take n ys
take_into [] ys n = ap (λ k. take k ys) (omega arith)
take_into (x ∷ xs) ys n =
    let more : suc (length xs) + n ≡ suc (length xs + n) = omega arith in
    ap (λ k. take k (x ∷ (xs ++ ys))) more ∙ ap (λ z. x ∷ z) (take_into xs ys n)

append_nil {ℓ} : {A : Type ℓ} (xs : List A) → xs ++ [] ≡ xs
append_nil [] = refl
append_nil (x ∷ xs) = ap (λ z. x ∷ z) (append_nil xs)

-- The files are as they were, and the journal is what it was with bytes added at its end.
pub record IsGrown (dir dir' : Directory) : Type 0 where
  pub same_files : dir'.scopes ≡ dir.scopes
  pub added : Bytes
  pub journal_is : journal_bytes dir' ≡ journal_bytes dir ++ added

pub IsGrown-refl : (dir : Directory) → IsGrown dir dir
IsGrown-refl dir = record {
  same_files = refl;
  added = [];
  journal_is = sym (append_nil (journal_bytes dir));
}

pub IsGrown-trans : (a b c : Directory) → IsGrown a b → IsGrown b c → IsGrown a c
IsGrown-trans a b c g h = record {
  same_files = h.same_files ∙ g.same_files;
  added = g.added ++ h.added;
  journal_is =
      h.journal_is
      ∙ ap (λ z. z ++ h.added) g.journal_is
      ∙ append_assoc (journal_bytes a) g.added h.added;
}

append_file-IsGrown :
    (fault : AppendFault) (dir : Directory) (added : Bytes)
    → IsGrown dir (append_file fault dir (journal_bytes dir ++ added)).1
unfolding append_file
append_file-IsGrown appends dir added = record {
  same_files = refl;
  added = added;
  journal_is = refl;
}
append_file-IsGrown unopened dir added = IsGrown-refl dir
append_file-IsGrown (torn n) dir added = record {
  same_files = refl;
  added = take n added;
  journal_is = take_into (journal_bytes dir) added n;
}

module _ (format_record : Change → Bytes) where
  append_journal-adds :
      (journal : Option Bytes) (c : Change)
      → (added : Bytes) × (append_journal format_record journal c
          ≡ (elim journal [ none ↦ [] | some file ↦ file ]) ++ added)
  unfolding append_journal
  append_journal-adds none c = (_, refl)
  append_journal-adds (some file) c = (_, refl)

module _ (digest : Bytes → Bytes) (format_time : ℕ → Bytes) (parse_time : Bytes → Option ℕ)
    (parse_record : Bytes → Option Change) (format_record : Change → Bytes) (max : ℕ)
    (faults : Faults) where
  abbrev appended : Directory → JournalState → Change → Outcome (JournalState × Change) × Directory
  appended dir st c =
      append_to digest format_time parse_time parse_record format_record max faults dir st c

  append_to-IsGrown :
      (dir : Directory) (st : JournalState) (c : Change) → IsGrown dir (appended dir st c).1
  unfolding append_to append_change
  append_to-IsGrown dir st c =
      let r = append_change digest parse_record dir.journal format_record st c in
      let (added, q) = append_journal-adds format_record dir.journal r.2 in
      next_in-always (IsGrown dir) (append_file (faults.append_fault r.2) dir r.1)
        (λ _ dir'. (fine (r.0, r.2), dir'))
        (rw q (append_file-IsGrown (faults.append_fault r.2) dir added)) (λ a g. g)

  module _ (dir : Directory) (st : JournalState) where
    abbrev note_of : Option Change → Outcome JournalState × Directory
    note_of none = (fine st, dir)
    note_of (some c) = next_in (appended dir st c) (λ r dir'. (fine r.0, dir'))

    note_of-IsGrown : (o : Option Change) → IsGrown dir (note_of o).1
    note_of-IsGrown none = IsGrown-refl dir
    note_of-IsGrown (some c) =
        next_in-always {A = JournalState × Change} {B = JournalState} (IsGrown dir)
          (appended dir st c) (λ r dir'. (fine r.0, dir')) (append_to-IsGrown dir st c) (λ a g. g)

    abbrev pub noted : Bytes → Bytes → Option Entry → ℕ → Outcome JournalState × Directory
    noted scope name cur at =
        note_outside digest format_time parse_time parse_record format_record max faults dir st
          scope name cur at

    pub note_outside-IsGrown :
        (scope name : Bytes) (cur : Option Entry) (at : ℕ) → IsGrown dir (noted scope name cur at).1
    unfolding note_outside
    note_outside-IsGrown scope name cur at = note_of-IsGrown (
        outside_now digest format_time parse_time parse_record format_record max faults dir st scope
          name cur at)

  save_state-IsGrown :
      (dir : Directory) (st : JournalState) → IsGrown dir (save_state faults dir st).1
  unfolding save_state
  save_state-IsGrown dir st = elim (Bool-cases faults.is_cursor_writable) [
    | inl h ↦ rw h (record {
      same_files = refl;
      added = [];
      journal_is = sym (append_nil (journal_bytes dir));
    })
    | inr h ↦ rw h (IsGrown-refl dir)
  ]

  abbrev pub recorded : Directory → JournalState → Change → Outcome Change × Directory
  recorded dir st c =
      record_change digest format_time parse_time parse_record format_record max faults dir st c

  record_change-IsGrown :
      (dir : Directory) (st : JournalState) (c : Change) → IsGrown dir (recorded dir st c).1
  unfolding record_change
  record_change-IsGrown dir st c =
      next_in-always {A = JournalState × Change} {B = Change} (IsGrown dir) (appended dir st c)
        (λ r dir'. next_in (save_state faults dir' r.0) (λ _ saved. (fine r.1, saved)))
        (append_to-IsGrown dir st c)
        (λ r g.
          next_in-always {A = Unit {0}} {B = Change} (IsGrown dir)
            (save_state faults (appended dir st c).1 r.0) (λ _ saved. (fine r.1, saved))
            (IsGrown-trans dir _ _ g (save_state-IsGrown (appended dir st c).1 r.0)) (λ b g'. g'))

  -- Once the index is written, a `Put` leaves the files, and adds to the journal.
  pub put_indexed-IsGrown :
      (dir : Directory) (st : JournalState) (ctx : Context) (now : ℕ) (e : Entry)
      (opts : List PutOption) (stored : Option Entry)
      → IsGrown dir
          (put_indexed digest format_time parse_time parse_record format_record max faults dir st
            ctx now e opts stored).1
  unfolding put_indexed
  put_indexed-IsGrown dir st ctx now e opts stored =
      let change : JournalState → Change = λ st'.
        put_record digest format_time parse_time parse_record format_record max faults st' ctx now e
          opts stored in
      next_in-always {A = JournalState} {B = Change} (IsGrown dir)
        (noted dir st e.scope e.name stored now) (λ st' d. recorded d st' (change st'))
        (note_outside-IsGrown dir st e.scope e.name stored now)
        (λ st' g.
          IsGrown-trans dir _ _ g
            (record_change-IsGrown (noted dir st e.scope e.name stored now).1 st' (change st')))

  append_file-fine :
      (fault : AppendFault) (dir : Directory) (file : Bytes) (dir' : Directory)
      → append_file fault dir file ≡ (fine tt, dir')
      → dir'.journal ≡ some file
  unfolding append_file
  append_file-fine appends dir file dir' h = ap (λ z. z.1.journal) (sym h)
  append_file-fine unopened dir file dir' h = ground (arith, ap (λ z. z.0) h)
  append_file-fine (torn n) dir file dir' h = ground (arith, ap (λ z. z.0) h)

  save_state-fine :
      (dir : Directory) (st : JournalState) (dir' : Directory)
      → save_state faults dir st ≡ (fine tt, dir')
      → dir'.journal ≡ dir.journal
  unfolding save_state
  save_state-fine dir st dir' h = elim (Bool-cases faults.is_cursor_writable) [
    | inl w ↦ ground (arith, h, w)
    | inr w ↦ ground (arith, h, w)
  ]

  append_to-fine :
      (dir : Directory) (st : JournalState) (c : Change) (r : JournalState × Change)
      (dir' : Directory)
      → appended dir st c ≡ (fine r, dir')
      → dir'.journal ≡ some (append_journal format_record dir.journal r.1)
  unfolding append_to append_change
  append_to-fine dir st c r dir' h =
      let w = append_change digest parse_record dir.journal format_record st c in
      let (_, d, wrote, q) =
        next_in-fine {A = Unit {0}} {B = JournalState × Change}
          (append_file (faults.append_fault w.2) dir w.1) (λ _ dir'. (fine (w.0, w.2), dir')) r dir'
          h in
      let there = append_file-fine (faults.append_fault w.2) dir w.1 d wrote in
      sym (ap (λ z. z.1.journal) q)
      ∙ there
      ∙ ap (λ z. some (append_journal format_record dir.journal z.1))
          (fine-injective (ap (λ z. z.0) q))

  -- A change that is recorded is at the end of the journal.
  pub record_change-fine :
      (dir : Directory) (st : JournalState) (c c' : Change) (dir' : Directory)
      → recorded dir st c ≡ (fine c', dir')
      → dir'.journal ≡ some (append_journal format_record dir.journal c')
  unfolding record_change
  record_change-fine dir st c c' dir' h =
      let (r, d, appends_it, rest) =
        next_in-fine {A = JournalState × Change} {B = Change} (appended dir st c)
          (λ r dir'. next_in (save_state faults dir' r.0) (λ _ saved. (fine r.1, saved))) c' dir'
          h in
      let (_, saved, saves, q) =
        next_in-fine {A = Unit {0}} {B = Change} (save_state faults d r.0)
          (λ _ saved. (fine r.1, saved)) c' dir' rest in
      let there = append_to-fine dir st c r d appends_it in
      let kept = save_state-fine d r.0 saved saves in
      sym (ap (λ z. z.1.journal) q)
      ∙ kept
      ∙ there
      ∙ ap (λ z. some (append_journal format_record dir.journal z))
          (fine-injective (ap (λ z. z.0) q))
