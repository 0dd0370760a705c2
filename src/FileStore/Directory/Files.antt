-- ===== src/FileStore/Directory/Files.antt =====
-- filestore/filestore.go: what the calls that write leave of the files and of the journal.
use agentmemory.Prelude.{
  ℕ, Bytes, ◌≡◌, refl, sym, ap, ◌∙◌, ◌⊎◌, inl, inr, Bool-cases, ◌&&◌, Option, none, some, [], Map,
  lookup, insert, str_eq, str_eq_iff, lookup-insert, arith, if◌then◌else◌,
}
use agentmemory.Memory.{Change}
use agentmemory.FileStore.Directory.{
  Node, regular, ScopeNode, scope_files, scope_link, scope_other, Directory, linked_scope, Outcome,
  Failure, Faults, WriteFault, writes, no_directory, no_file, next_in, fine, failed, index_name,
  list_scope,
}
use agentmemory.FileStore.Directory.Writes.{is_folder, write_in, write_file, reindex, index_text}

-- What stands under a name in a scope, as a read of it finds it.
unfoldable pub node_at : Map ScopeNode → Bytes → Bytes → Outcome (Option Node)
node_at scopes scope file = elim (lookup scope scopes) [
  | none ↦ fine none
  | some node ↦ elim node [
    | scope_files files ↦ fine (lookup file files)
    | scope_link ↦ failed (linked_scope scope)
    | scope_other ↦ fine none
  ]
]

pub Outcome-cases :
    {A : Type 0} (r : Outcome A) → ((f : Failure) × (r ≡ failed f)) ⊎ ((a : A) × (r ≡ fine a))
Outcome-cases (failed f) = inl (f, refl)
Outcome-cases (fine a) = inr (a, refl)

-- What holds after each of two calls holds after both, whichever fails.
pub next_in-always :
    {A B : Type 0} (P : Directory → Type 0) (r : Outcome A × Directory)
    (next : A → Directory → Outcome B × Directory)
    → P r.1
    → ((a : A) → P r.1 → P (next a r.1).1)
    → P (next_in r next).1
next_in-always P (fine a, dir) next p then_ = then_ a p
next_in-always P (failed f, dir) next p then_ = p

-- Two calls succeed where each does.
pub next_in-fine :
    {A B : Type 0} (r : Outcome A × Directory) (next : A → Directory → Outcome B × Directory)
    (b : B) (dir' : Directory)
    → next_in r next ≡ (fine b, dir')
    → (a : A) × (dir : Directory) × (r ≡ (fine a, dir)) × (next a dir ≡ (fine b, dir'))
next_in-fine (fine a, dir) next b dir' h = (a, dir, refl, h)
next_in-fine (failed f, dir) next b dir' h = ground (arith, ap (λ z. z.0) h)

module _ (dir : Directory) (scope file data_ : Bytes) (at : ℕ) (s f : Bytes) where
  abbrev AfterWrite : Directory → Type 0
  AfterWrite dir' = node_at dir'.scopes s f ≡ (
      if str_eq scope s && str_eq file f
      then fine (some (regular data_ at))
      else node_at dir.scopes s f)

  -- The files that a write starts from are those of the scope.
  write_in-node_at :
      (fault : WriteFault) (files : Map Node) (dir' : Directory)
      → node_at dir.scopes scope f ≡ fine (lookup f files)
      → write_in fault dir scope file data_ at files ≡ (fine tt, dir')
      → AfterWrite dir'
  unfolding write_in node_at
  write_in-node_at no_directory files dir' there h = ground (arith, ap (λ z. z.0) h)
  write_in-node_at no_file files dir' there h = ground (arith, ap (λ z. z.0) h)
  write_in-node_at writes files dir' there h = elim (Bool-cases (is_folder (lookup file files))) [
    | inl folder_there ↦ ground (arith, h, folder_there)
    | inr free ↦ ground (
      arith,
      h,
      free,
      there,
      lookup-insert scope s (scope_files (insert file (regular data_ at) files)) dir.scopes,
      lookup-insert file f (regular data_ at) files,
      str_eq_iff scope s,
    )
  ]

  write_into :
      (faults : Faults) (dir' : Directory) (node : Option ScopeNode)
      → lookup scope dir.scopes ≡ node
      → write_file faults dir scope file data_ at ≡ (fine tt, dir')
      → AfterWrite dir'
  unfolding write_file node_at lookup
  write_into faults dir' none absent h =
      write_in-node_at (faults.write_fault scope file) [] dir' (ground (arith, absent))
        (ground (arith, h, absent))
  write_into faults dir' (some (scope_files files)) there h =
      write_in-node_at (faults.write_fault scope file) files dir' (ground (arith, there))
        (ground (arith, h, there))
  write_into faults dir' (some scope_link) there h = ground (arith, h, there)
  write_into faults dir' (some scope_other) there h = ground (arith, h, there)

  -- A file that was written stands there, and all others as before.
  pub write_file-node_at :
      (faults : Faults) (dir' : Directory)
      → write_file faults dir scope file data_ at ≡ (fine tt, dir')
      → AfterWrite dir'
  write_file-node_at faults dir' h = write_into faults dir' _ refl h

-- The journal and the cursor are as they were.
abbrev pub IsUntouched : Directory → Directory → Type 0
IsUntouched dir dir' = (dir'.journal ≡ dir.journal) × (dir'.cursor ≡ dir.cursor)

write_in-IsUntouched :
    (fault : WriteFault) (dir : Directory) (scope file data_ : Bytes) (at : ℕ) (files : Map Node)
    → IsUntouched dir (write_in fault dir scope file data_ at files).1
unfolding write_in
write_in-IsUntouched no_directory dir scope file data_ at files = (refl, refl)
write_in-IsUntouched no_file dir scope file data_ at files = (refl, refl)
write_in-IsUntouched writes dir scope file data_ at files =
    elim (Bool-cases (is_folder (lookup file files))) [
      | inl h ↦ rw h (refl, refl)
      | inr h ↦ rw h (refl, refl)
    ]

-- A write of a file, whether it fails or not, leaves the journal and the cursor.
pub write_file-IsUntouched :
    (faults : Faults) (dir : Directory) (scope file data_ : Bytes) (at : ℕ)
    → IsUntouched dir (write_file faults dir scope file data_ at).1
unfolding write_file
write_file-IsUntouched faults dir scope file data_ at = go _ refl
  where
    go :
        (node : Option ScopeNode)
        → lookup scope dir.scopes ≡ node
        → IsUntouched dir (write_file faults dir scope file data_ at).1
    go none h =
        rw (h, write_file)
          (write_in-IsUntouched (faults.write_fault scope file) dir scope file data_ at [])
    go (some (scope_files files)) h =
        rw (h, write_file)
          (write_in-IsUntouched (faults.write_fault scope file) dir scope file data_ at files)
    go (some scope_link) h = rw (h, write_file) (refl, refl)
    go (some scope_other) h = rw (h, write_file) (refl, refl)

-- As `next_in-always`, where what the first call did is known of the state it left.
pub next_in-reached :
    {A B : Type 0} (P : Directory → Type 0) (r : Outcome A × Directory)
    (next : A → Directory → Outcome B × Directory)
    → P r.1
    → ((a : A) (dir : Directory) → r ≡ (fine a, dir) → P (next a dir).1)
    → P (next_in r next).1
next_in-reached P (fine a, dir) next p then_ = then_ a dir refl
next_in-reached P (failed f, dir) next p then_ = p

-- What holds of the error of the first call, or else of the second call's result.
pub next_in-result :
    {A B : Type 0} (P : Outcome B × Directory → Type 0) (r : Outcome A × Directory)
    (next : A → Directory → Outcome B × Directory)
    → ((f : Failure) (dir : Directory) → P (failed f, dir))
    → ((a : A) (dir : Directory) → r ≡ (fine a, dir) → P (next a dir))
    → P (next_in r next)
next_in-result P (fine a, dir) next p then_ = then_ a dir refl
next_in-result P (failed f, dir) next p then_ = p f dir

module _ (digest : Bytes → Bytes) (format_time : ℕ → Bytes) (parse_time : Bytes → Option ℕ)
    (parse_record : Bytes → Option Change) (format_record : Change → Bytes) (max : ℕ)
    (faults : Faults) (dir : Directory) (scope : Bytes) (now : ℕ) where
  abbrev pub reindexed : Outcome (Unit {0}) × Directory
  reindexed =
      reindex digest format_time parse_time parse_record format_record max faults dir scope now

  reindexed-cases :
      ((f : Failure) × (reindexed ≡ (failed f, dir)))
      ⊎ ((text : Bytes) × (reindexed ≡ write_file faults dir scope index_name text now))
  unfolding reindex
  reindexed-cases = elim (Outcome-cases (list_scope digest format_time parse_time dir scope)) [
    | inl (f, h) ↦ inl (f, ground (arith, h))
    | inr (es, h) ↦ inr (index_text scope es, ground (arith, h))
  ]

  -- The index is one file of the scope, and no more is written with it.
  pub reindexed-writes :
      (dir' : Directory)
      → reindexed ≡ (fine tt, dir')
      → (text : Bytes) × (write_file faults dir scope index_name text now ≡ (fine tt, dir'))
  reindexed-writes dir' h = elim reindexed-cases [
    | inl (f, q) ↦ ground (arith, ap (λ z. z.0) (sym q ∙ h))
    | inr (text, q) ↦ (text, sym q ∙ h)
  ]

  pub reindexed-IsUntouched : IsUntouched dir reindexed.1
  reindexed-IsUntouched = elim reindexed-cases [
    | inl (f, q) ↦ rw q (refl, refl)
    | inr (text, q) ↦ rw q (write_file-IsUntouched faults dir scope index_name text now)
  ]
