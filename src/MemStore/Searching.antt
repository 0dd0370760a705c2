-- ===== src/MemStore/Searching.antt =====
-- memstore.go: `Search`, `SearchOptions`, `SearchWith`; search.go: `SearchSupport` and `SearchWith`
-- over any store. A store that is no `Searcher` has none of what the interface adds.
use agentmemory.Prelude.{
  ℤ, Bytes, ◌≡◌, refl, ap, ◌∙◌, true, ◌&&◌, Option, none, some, List, [], ◌∷◌, ◌++◌, select,
  select_congr, Bool-cases, inl, inr, if◌then◌else◌,
}
use agentmemory.Memory.{Entry, Result, ok, err, invalid, bad_scope, valid_scope, check_scope, ◌>>◌}
use agentmemory.Search.{
  SearchOptions, no_options, all_search_options, names, check_names, check_meta_keys, check_search,
  has_meta, keep, matches, filter_entries,
}
use agentmemory.Search.Plain.{at_most, filter_entries-plain}
use agentmemory.MemStore.{MemStore, list_locked}

-- The first loop of `SearchWith`.
unfoldable pub check_search_scopes : List Bytes → Result (Unit {0})
check_search_scopes [] = ok tt
check_search_scopes (s ∷ ss) = do check_scope s; check_search_scopes ss

-- Its second loop.
unfoldable pub list_all : MemStore → List Bytes → List Entry
list_all m [] = []
list_all m (s ∷ ss) = list_locked m s ++ list_all m ss

abbrev pub search_options : List Bytes
search_options = all_search_options

module _ (lower : Bytes → Bytes) where
  -- `SearchWith` of the in-memory store.
  unfoldable pub search_with :
      MemStore → List Bytes → Bytes → ℤ → SearchOptions → Result (List Entry)
  search_with m scopes query limit o = do
    check_search_scopes scopes
    check_search o search_options
    ok (filter_entries lower o (list_all m scopes) query limit)

  -- `Search`.
  unfoldable pub search_entries : MemStore → List Bytes → Bytes → ℤ → Result (List Entry)
  search_entries m scopes query limit = search_with m scopes query limit no_options

abbrev pub SearchCall : Type 0
SearchCall = List Bytes → Bytes → ℤ → Result (List Entry)

-- What search.go asks of a store: its `Search`, and what a `Searcher` adds.
pub record SearchStore : Type 0 where
  pub plain : SearchCall
  pub searcher : Option (List Bytes × (SearchOptions → SearchCall))

-- `SearchSupport`.
unfoldable pub search_support : SearchStore → List Bytes
search_support s = elim s.searcher [ none ↦ [] | some (supported, _) ↦ supported ]

-- `SearchWith` over any store.
unfoldable pub search_store_with : SearchStore → SearchOptions → SearchCall
search_store_with s o scopes query limit = elim s.searcher [
  | some (_, with_options) ↦ with_options o scopes query limit
  | none ↦ do check_search o []; s.plain scopes query limit
]

-- The first scope that is not a name.
abbrev pub bad_scope_of : List Bytes → Option Bytes
bad_scope_of [] = none
bad_scope_of (s ∷ ss) = if valid_scope s then bad_scope_of ss else some s

abbrev pub scopes_verdict {ℓ} : {A : Type ℓ} → Option Bytes → Result A → Result A
scopes_verdict none r = r
scopes_verdict (some s) r = err (invalid (bad_scope s))

check_search_scopes_lem :
    {A : Type 0} (scopes : List Bytes) (r : Result A)
    → (check_search_scopes scopes >> r) ≡ scopes_verdict (bad_scope_of scopes) r
unfolding check_search_scopes check_scope
check_search_scopes_lem [] r = refl
check_search_scopes_lem (s ∷ ss) r = elim (Bool-cases (valid_scope s)) [
  | inl good ↦ rw (good, check_scope) (check_search_scopes_lem ss r)
  | inr bad ↦ rw bad refl
]

keeps_all : (e : Entry) → keep no_options e ≡ true
unfolding keep has_meta
keeps_all e = refl

module _ (lower : Bytes → Bytes) (m : MemStore) (scopes : List Bytes) (query : Bytes)
    (limit : ℤ) where
  -- `Search` refuses the first scope that is not a name, and otherwise gives the entries that
  -- match the query, as `Match` has it, scope by scope in the order asked and by name within
  -- each, the first `limit` of them where that is positive.
  pub search_entries-matches :
      search_entries lower m scopes query limit
      ≡ scopes_verdict
          (bad_scope_of scopes)
          (ok (at_most limit (select (λ e. matches lower e query) (list_all m scopes))))
  unfolding search_entries search_with check_search check_names check_meta_keys names
  search_entries-matches =
      check_search_scopes_lem scopes
        (ok (filter_entries lower no_options (list_all m scopes) query limit))
      ∙ ap (λ es. scopes_verdict (bad_scope_of scopes) (ok es))
          (filter_entries-plain lower no_options (list_all m scopes) query limit refl
            ∙ ap (at_most limit) (
                select_congr (λ e. keep no_options e && matches lower e query)
                  (λ e. matches lower e query) (list_all m scopes)
                  (λ e. ap (λ b. b && matches lower e query) (keeps_all e))))
