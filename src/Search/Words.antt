-- ===== src/Search/Words.antt =====
-- search.go: `queryWords`, `matchCount`; memory.go: `Match`.
use agentmemory.Prelude.{
  ℕ, zero, suc, Bytes, Bool, false, ◌||◌, List, [], ◌∷◌, ◌++◌, Map, length, ◌==◌, str_eq,
  has_prefix, if◌then◌else◌, lead_len, spaces,
}
use agentmemory.Memory.{Entry}

-- `strings.Contains`.
unfoldable pub includes : Bytes → Bytes → Bool
unfolding has_prefix
includes [] w = has_prefix [] w
includes (c ∷ s) w = has_prefix (c ∷ s) w || includes s w

-- `slices.Contains` on strings.
unfoldable pub mentions : List Bytes → Bytes → Bool
mentions [] w = false
mentions (v ∷ vs) w = str_eq v w || mentions vs w

-- A word that has ended, unless it is empty.
abbrev pub word_of : Bytes → List Bytes
word_of [] = []
word_of (c ∷ s) = (c ∷ s) ∷ []

-- `strings.Fields`: the word so far, and the bytes of a space still to pass over.
unfoldable pub fields_from : Bytes → ℕ → Bytes → List Bytes
fields_from word n [] = word_of word
fields_from word (suc n) (c ∷ s) = fields_from word n s
fields_from word zero (c ∷ s) = elim (lead_len spaces (c ∷ s)) [
  | zero ↦ fields_from (word ++ c ∷ []) 0 s
  | suc n ↦ word_of word ++ fields_from [] n s
]

unfoldable pub fields : Bytes → List Bytes
unfolding fields_from lead_len spaces has_prefix
fields s = fields_from [] 0 s

-- The loop of `queryWords`: each word once.
unfoldable pub distinct_words : List Bytes → List Bytes → List Bytes
unfolding mentions
distinct_words out [] = out
distinct_words out (w ∷ ws) = distinct_words (if mentions out w then out else out ++ w ∷ []) ws

-- The values of a range over the metadata, each behind a line end.
unfoldable pub meta_values : Map Bytes → Bytes
meta_values [] = []
meta_values ((_, v) ∷ m) = b'\n' ∷ (v ++ meta_values m)

unfoldable pub match_text : Entry → Bytes
unfolding meta_values
match_text e = e.name ++ (meta_values e.meta ++ (b'\n' ∷ e.content))

-- The last loop of `matchCount`.
unfoldable pub count_words : Bytes → List Bytes → ℕ
count_words text [] = 0
count_words text (w ∷ ws) =
    let rest = count_words text ws in if includes text w then suc rest else rest

module _ (lower : Bytes → Bytes) where
  unfoldable pub query_words : Bytes → List Bytes
  query_words query = distinct_words [] (fields (lower query))

  unfoldable pub match_count : Entry → List Bytes → ℕ
  match_count e words = if length words == 0 then 0 else count_words (lower (match_text e)) words

  -- `Match`.
  unfoldable pub matches : Entry → Bytes → Bool
  matches e query = match_count e (query_words query) == length (query_words query)
