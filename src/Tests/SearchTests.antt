-- ===== src/Tests/SearchTests.antt =====
-- Runs of search.go.
use agentmemory.Prelude.{
  pos, ℕ, Bytes, codes, ◌≡◌, refl, true, ◌&&◌, List, [], ◌∷◌, ◌↔◌, All, select,
}
use agentmemory.Memory.{Entry}
use agentmemory.Search.{
  SearchOptions, no_options, keep, matches, filter_entries, match_count, query_words, fields,
}
use agentmemory.Search.Plain.{at_most, filter_entries-plain}
use agentmemory.Search.Ranking.{Descending, counting, passes, filter_entries-any}
use agentmemory.Search.Matching.{stands_in, matches-stands_in}
use agentmemory.Tests.Setup.{style, style_spaces}

-- The identity serves as the folding of case.
abbrev as_is : Bytes → Bytes
as_is s = s

abbrev any_word : SearchOptions
any_word = record no_options { any = true }

abbrev listed : List Entry
listed = style ∷ style_spaces ∷ []

filter_entries-plain_example :
    filter_entries as_is no_options listed (codes "Use tabs") (pos 1)
    ≡ at_most (pos 1) (select (λ e. keep no_options e && matches as_is e (codes "Use tabs")) listed)
filter_entries-plain_example =
    filter_entries-plain as_is no_options listed (codes "Use tabs") (pos 1) refl

matches-stands_in_example :
    (matches as_is style (codes "tabs indent") ≡ true)
    ↔ All (λ w. stands_in as_is style w ≡ true) (fields (as_is (codes "tabs indent")))
matches-stands_in_example = matches-stands_in as_is (λ s t. refl) style (codes "tabs indent")

abbrev held_words : Entry → ℕ
held_words e = match_count as_is e (query_words as_is (codes "Use tabs"))

filter_entries-any_example :
    (ranked : List Entry) × (filter_entries as_is any_word listed (codes "Use tabs") (pos 1)
      ≡ at_most (pos 1) ranked)
    × Descending held_words ranked
    × ((n : ℕ)
        → counting held_words n ranked
          ≡ counting held_words n
              (select (passes as_is any_word (query_words as_is (codes "Use tabs"))) listed))
filter_entries-any_example =
    filter_entries-any as_is any_word listed (codes "Use tabs") (pos 1) refl
