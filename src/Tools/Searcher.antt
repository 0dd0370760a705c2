-- ===== src/Tools/Searcher.antt =====
-- tools.go: `search`. How a time is read from RFC 3339 is a parameter.
use agentmemory.Prelude.{
  ℕ, ◌+◌, Bytes, codes, Bool, false, Option, none, some, List, [], ◌∷◌, ◌++◌, length, ltb, ◌==◌,
  trim_space, decimal, if◌then◌else◌,
}
use agentmemory.Memory.{Entry, ok, err, description, size}
use agentmemory.Search.{SearchOptions, mentions}
use agentmemory.Tools.Options.{Toolset, limit_or, at_least_one, default_search_bytes}
use agentmemory.Tools.Answers.{
  SearchArgs, ToolResult, store_error, scope_unavailable, query_empty, bad_time, Answer, done,
  refused, Store,
}
use agentmemory.Tools.Texts.{texts, join_with, comma, all_scopes}
use agentmemory.Search.{search_updated_after, search_updated_before}

-- `readScope` over the scopes that the call names.
unfoldable pub read_scopes_of : Toolset → List Bytes → Answer (List Bytes)
read_scopes_of t [] = done []
read_scopes_of t (s ∷ ss) =
    let rest = read_scopes_of t ss in
    if mentions (all_scopes t) s
    then elim rest [ refused x ↦ refused x | done out ↦ done (s ∷ out) ]
    else refused (scope_unavailable s)

unfoldable pub searched_scopes : Toolset → List Bytes → Answer (List Bytes)
searched_scopes t [] = done (all_scopes t)
searched_scopes t (s ∷ ss) = read_scopes_of t (s ∷ ss)

-- One round of the loop over the bounds: 0 is the zero time.
unfoldable pub bound_time : (Bytes → Option ℕ) → Bytes → Bytes → Answer ℕ
bound_time parse_time name value =
    if length value == 0
    then done 0
    else elim (parse_time value) [ none ↦ refused (bad_time name value) | some at ↦ done at ]

-- "%s/%s (%d bytes)".
unfoldable pub entry_label : Entry → Bytes
entry_label e =
    texts (e.scope ∷ codes "/" ∷ e.name ∷ codes " (" ∷ decimal (size e) ∷ codes " bytes)" ∷ [])

unfoldable pub ends_with_newline : Bytes → Bool
ends_with_newline [] = false
ends_with_newline (c ∷ []) = c == b'\n'
ends_with_newline (c ∷ d ∷ s) = ends_with_newline (d ∷ s)

unfoldable pub shown_entry : Entry → Bytes
shown_entry e = texts (
    (b'\n' ∷ [])
    ∷ entry_label e
    ∷ (if length (description e) == 0 then [] else codes ": " ++ description e)
    ∷ (b'\n' ∷ [])
    ∷ e.content
    ∷ (if ends_with_newline e.content then [] else b'\n' ∷ [])
    ∷ [])

-- The loop over the entries found: those whose contents are shown, within the bytes, and the
-- labels of those that are listed by name.
unfoldable pub show_from : ℕ → ℕ → List Entry → List Entry × List Bytes
show_from limit shown [] = ([], [])
show_from limit shown (e ∷ es) =
    let over = ltb limit (shown + size e) in
    let (in_full, unshown) = show_from limit (if over then shown else shown + size e) es in
    if over then (in_full, entry_label e ∷ unshown) else (e ∷ in_full, unshown)

unfoldable pub shown_entries : List Entry → Bytes
shown_entries [] = []
shown_entries (e ∷ es) = shown_entry e ++ shown_entries es

-- The text of a search's answer. A query is put under `%q` with its quotes by a parameter.
unfoldable pub found_text : (Bytes → Bytes) → ℕ → List Bytes → Bytes → List Entry → Bytes
found_text quote limit scopes query found =
    let searched = join_with comma scopes in
    if length found == 0
    then texts (codes "No entries in " ∷ searched ∷ codes " match " ∷ quote query ∷ codes "." ∷ [])
    else (let (in_full, unshown) = show_from limit 0 found in
        texts (
          decimal (length found)
          ∷ codes " "
          ∷ (if length found == 1 then codes "match" else codes "matches")
          ∷ codes " in "
          ∷ searched
          ∷ codes " for "
          ∷ quote query
          ∷ codes "."
          ∷ (b'\n' ∷ [])
          ∷ shown_entries in_full
          ∷ (if length unshown == 0
              then []
              else texts (
                  (b'\n' ∷ [])
                  ∷ codes "Not shown, over the "
                  ∷ decimal limit
                  ∷ codes " byte result limit; search for them by name: "
                  ∷ join_with comma unshown
                  ∷ (b'\n' ∷ [])
                  ∷ []))
          ∷ []))

module _ {S : Type 0} (store : Store S) (t : Toolset) (parse_time : Bytes → Option ℕ)
    (quote : Bytes → Bytes) where
  -- `search`, once its arguments are read. `Tools` has made the bytes positive.
  unfoldable pub search_found : List Bytes → SearchArgs → SearchOptions → S → Answer ToolResult × S
  search_found scopes a o s =
      let (r, s') = store.find_entries s scopes a.query (limit_or t.opts.search_limit a.limit) o in
      elim r [
        | err x ↦ (refused (store_error x), s')
        | ok found ↦ (
          done (record {
            text =
                found_text quote (at_least_one default_search_bytes t.opts.search_bytes) scopes
                  a.query found;
            details = none;
          }),
          s',
        )
      ]

  -- `search`.
  unfoldable pub search : SearchArgs → S → Answer ToolResult × S
  search a s =
      if length (trim_space a.query) == 0
      then (refused query_empty, s)
      else elim (searched_scopes t a.scopes) [
        | refused x ↦ (refused x, s)
        | done scopes ↦ elim (bound_time parse_time search_updated_after a.updated_after) [
          | refused x ↦ (refused x, s)
          | done after ↦ elim (bound_time parse_time search_updated_before a.updated_before) [
            | refused x ↦ (refused x, s)
            | done before ↦
                search_found scopes a
                  (record {
                    any = a.any_word;
                    meta = a.meta;
                    updated_after = after;
                    updated_before = before;
                  })
                  s
          ]
        ]
      ]
