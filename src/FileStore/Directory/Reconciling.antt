-- ===== src/FileStore/Directory/Reconciling.antt =====
-- filestore/filestore.go: `Reconcile`, `scopes` and `SearchWith`.
use agentmemory.Prelude.{
  ℕ, ℤ, Bytes, Bool, not, ◌||◌, Option, none, some, List, [], ◌∷◌, ◌++◌, Map, lookup, insert, ◌==◌,
  if◌then◌else◌,
}
use agentmemory.Memory.{Entry, Change, ◌>>◌, valid_name, keys, sort}
use agentmemory.Search.{SearchOptions, all_search_options, check_search, filter_entries, mentions}
use agentmemory.MemStore.Searching.{check_search_scopes}
use agentmemory.FileStore.FrontMatter.{cut_str}
use agentmemory.FileStore.State.{JournalState, entry_key, load_state}
use agentmemory.FileStore.Directory.{
  ScopeNode, scope_files, scope_link, scope_other, Directory, Failure, Faults, not_locked,
  unreadable_cursor, linked_scope, Outcome, fine, failed, and_then, of_result, list_scope,
  list_files,
}
use agentmemory.FileStore.Directory.Writes.{outside_now, append_to, save_state, reindex}

-- The loop of `scopes` over what is in the store's directory.
unfoldable pub scopes_in : Map ScopeNode → Outcome (List Bytes)
scopes_in [] = fine []
scopes_in ((scope, node) ∷ rest) = if not (valid_name scope) then scopes_in rest else elim node [
  | scope_link ↦ failed (linked_scope scope)
  | scope_other ↦ scopes_in rest
  | scope_files files ↦ and_then (scopes_in rest) (λ ss. fine (scope ∷ ss))
]

-- `strings.Cut` of a key at its slash.
unfoldable pub cut_key : Bytes → Bytes × Bytes
cut_key k = elim (cut_str (b'/' ∷ []) k) [ none ↦ (k, []) | some parts ↦ parts ]

unfoldable pub note_live : List Entry → Map Entry → Map Entry
note_live [] live = live
note_live (e ∷ es) live = note_live es (insert (entry_key e.scope e.name) e live)

-- The keys of the first map, and those of the second that it lacks.
unfoldable pub missing_keys : {V W : Type 0} → Map V → Map W → List Bytes
missing_keys live [] = []
missing_keys live ((k, _) ∷ m) = elim (lookup k live) [
  | none ↦ k ∷ missing_keys live m
  | some _ ↦ missing_keys live m
]

unfoldable pub all_keys : {V W : Type 0} → Map V → Map W → List Bytes
all_keys live known = sort (keys live ++ missing_keys live known)

-- The scopes of the changes, each once, in one of the orders that a range may meet them.
unfoldable pub touched : List Bytes → List Change → List Bytes
touched before [] = before
touched before (c ∷ cs) =
    touched (if mentions before (c.entry).scope then before else before ++ (c.entry).scope ∷ []) cs

module _ (digest : Bytes → Bytes) (format_time : ℕ → Bytes) (parse_time : Bytes → Option ℕ)
    (parse_record : Bytes → Option Change) (format_record : Change → Bytes) (max : ℕ)
    (faults : Faults) where
  -- The loop of `Reconcile` that lists the scopes.
  unfoldable pub live_files : Directory → List Bytes → Map Entry → Outcome (Map Entry)
  live_files dir [] live = fine live
  live_files dir (s ∷ ss) live =
      and_then (list_scope digest format_time parse_time dir s)
        (λ es. live_files dir ss (note_live es live))

  -- Its loop over the keys: the changes, with the error or the cursor, and the directory.
  unfoldable pub reconcile_keys :
      Map Entry
      → ℕ
      → List Bytes
      → Directory
      → JournalState
      → List Change × Outcome JournalState × Directory
  reconcile_keys live now [] dir st = ([], fine st, dir)
  reconcile_keys live now (k ∷ ks) dir st =
      let (scope, name) = cut_key k in
      elim (outside_now digest format_time parse_time parse_record format_record max faults dir st
        scope name (lookup k live) now) [
          | none ↦ reconcile_keys live now ks dir st
          | some c ↦
              let (r, dir') =
                append_to digest format_time parse_time parse_record format_record max faults dir st
                  c in
              elim r [
                | failed f ↦ ([], failed f, dir')
                | fine (st', rec) ↦
                    let (cs, r', dir'') = reconcile_keys live now ks dir' st' in
                    (rec ∷ cs, r', dir'')
              ]
        ]

  -- Its last loop, over the scopes that changed.
  unfoldable pub reindex_all : List Bytes → Directory → ℕ → Option Failure × Directory
  reindex_all [] dir now = (none, dir)
  reindex_all (s ∷ ss) dir now =
      let (r, dir') =
        reindex digest format_time parse_time parse_record format_record max faults dir s now in
      elim r [ failed f ↦ (some f, dir') | fine _ ↦ reindex_all ss dir' now ]

  -- Whether the cursor is to be written.
  abbrev pub is_moved : JournalState → JournalState → Bool
  is_moved was st = not st.is_read || not (st.seq == was.seq) || not (st.off == was.off)

  -- The end of `Reconcile`: the cursor is written if it has moved, and the indexes.
  unfoldable pub reconcile_end :
      JournalState → ℕ → List Change → JournalState → Directory → Option Failure × Directory
  reconcile_end was now cs st dir =
      let (r, saved) = if is_moved was st then save_state faults dir st else (fine tt, dir) in
      elim r [ failed f ↦ (some f, saved) | fine _ ↦ reindex_all (touched [] cs) saved now ]

  unfoldable pub reconcile_live :
      Directory → JournalState → ℕ → Map Entry → List Change × Option Failure × Directory
  reconcile_live dir st now live =
      let (cs, r, dir') = reconcile_keys live now (all_keys live st.entries) dir st in
      elim r [
        | failed f ↦ (cs, some f, dir')
        | fine st' ↦ let (failure, after) = reconcile_end st now cs st' dir' in (cs, failure, after)
      ]

  -- `Reconcile`: the changes that it returns, the error, and the directory after it.
  unfoldable pub reconcile : Bool → Directory → ℕ → List Change × Option Failure × Directory
  reconcile locked dir now =
      if not locked
      then ([], some not_locked, dir)
      else elim (load_state digest parse_record dir.journal dir.cursor) [
        | none ↦ ([], some unreadable_cursor, dir)
        | some st ↦ elim (and_then (scopes_in dir.scopes) (λ ss. live_files dir ss [])) [
          | failed f ↦ ([], some f, dir)
          | fine live ↦ reconcile_live dir st now live
        ]
      ]

  module _ (lower : Bytes → Bytes) where
    -- The second loop of `SearchWith`.
    unfoldable pub list_all_files : Directory → List Bytes → Outcome (List Entry)
    list_all_files dir [] = fine []
    list_all_files dir (s ∷ ss) =
        and_then (list_files digest format_time parse_time dir s)
          (λ es. and_then (list_all_files dir ss) (λ rest. fine (es ++ rest)))

    -- `SearchWith`.
    unfoldable pub search_files :
        Directory → List Bytes → Bytes → ℤ → SearchOptions → Outcome (List Entry)
    search_files dir scopes query limit o =
        and_then (of_result (check_search_scopes scopes >> check_search o all_search_options)) (λ _.
          and_then (list_all_files dir scopes)
            (λ all. fine (filter_entries lower o all query limit)))
