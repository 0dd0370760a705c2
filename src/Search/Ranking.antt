-- ===== src/Search/Ranking.antt =====
-- search.go: what a search for any word finds, and in what order.
use agentmemory.Prelude.{
  ℤ, ℕ, ◌≤◌, Bytes, ◌≡◌, refl, ap, ◌∙◌, Bool, true, false, not, ◌&&◌, ◌||◌, List, [], ◌∷◌, map,
  arith, All, length, select, select_congr, leb, leb→le, ◌==◌, Bool-cases, inl, inr, if◌then◌else◌,
}
use agentmemory.Memory.{Entry}
use agentmemory.Search.Words.{includes, match_text, count_words, query_words, match_count}
use agentmemory.Search.Options.{
  SearchOptions, keep, cut, is_hit, insert_ranked, rank, hits_from, filter_entries,
}
use agentmemory.Search.Plain.{
  at_most, cut-at_most, map-at_most, score, entry-score, hits, hits_from-all,
}

module _ {A : Type 0} (count : A → ℕ) where
  -- No element counts more than one before it.
  abbrev pub Descending : List A → Type 0
  Descending [] = Unit
  Descending (x ∷ xs) = All (λ y. count y ≤ count x) xs × Descending xs

  insert_by : A → List A → List A
  insert_by x [] = x ∷ []
  insert_by x (y ∷ ys) = if leb (count y) (count x) then x ∷ y ∷ ys else y ∷ insert_by x ys

  pub rank_by : List A → List A
  rank_by [] = []
  rank_by (x ∷ xs) = insert_by x (rank_by xs)

  All-le-le :
      (n m : ℕ) (ys : List A) → n ≤ m → All (λ y. count y ≤ n) ys → All (λ y. count y ≤ m) ys
  All-le-le n m [] h a = tt
  All-le-le n m (y ∷ ys) h a = (omega (arith, a.0, h), All-le-le n m ys h a.1)

  All-insert_by :
      (n : ℕ) (x : A) (ys : List A)
      → count x ≤ n
      → All (λ y. count y ≤ n) ys
      → All (λ y. count y ≤ n) (insert_by x ys)
  unfolding insert_by
  All-insert_by n x [] h a = (h, tt)
  All-insert_by n x (y ∷ ys) h a = elim (Bool-cases (leb (count y) (count x))) [
    | inl before ↦ rw before (h, a)
    | inr behind ↦ rw behind (a.0, All-insert_by n x ys h a.1)
  ]

  insert_by-Descending : (x : A) (ys : List A) → Descending ys → Descending (insert_by x ys)
  unfolding insert_by
  insert_by-Descending x [] d = (tt, tt)
  insert_by-Descending x (y ∷ ys) d = elim (Bool-cases (leb (count y) (count x))) [
    | inl before ↦
        let le = leb→le (count y) (count x) before in
        rw before ((le, All-le-le (count y) (count x) ys le d.0), d)
    | inr behind ↦
        rw behind
          (All-insert_by (count y) x ys (ground (arith, behind)) d.0, insert_by-Descending x ys d.1)
  ]

  pub rank_by-Descending : (xs : List A) → Descending (rank_by xs)
  unfolding rank_by
  rank_by-Descending [] = tt
  rank_by-Descending (x ∷ xs) = insert_by-Descending x (rank_by xs) (rank_by-Descending xs)

  -- Of those that count alike, the order is kept.
  abbrev pub counting : ℕ → List A → List A
  counting n xs = select (λ x. count x == n) xs

  counting-insert_by :
      (n : ℕ) (x : A) (ys : List A) → counting n (insert_by x ys) ≡ counting n (x ∷ ys)
  unfolding insert_by select
  counting-insert_by n x [] = refl
  counting-insert_by n x (y ∷ ys) = ground (arith, counting-insert_by n x ys)

  pub counting-rank_by : (n : ℕ) (xs : List A) → counting n (rank_by xs) ≡ counting n xs
  unfolding rank_by select
  counting-rank_by n [] = refl
  counting-rank_by n (x ∷ xs) =
      counting-insert_by n x (rank_by xs)
      ∙ ap (λ l. if count x == n then x ∷ l else l) (counting-rank_by n xs)

-- Some word stands in the text.
unfoldable pub holds_any : Bytes → List Bytes → Bool
holds_any text [] = false
holds_any text (w ∷ ws) = includes text w || holds_any text ws

count_words-holds_any :
    (text : Bytes) (ws : List Bytes) → (count_words text ws == 0) ≡ not (holds_any text ws)
unfolding count_words holds_any
count_words-holds_any text [] = refl
count_words-holds_any text (w ∷ ws) = ground (arith, count_words-holds_any text ws)

module _ (lower : Bytes → Bytes) (o : SearchOptions) where
  -- The entry passes the filters, and holds a word of the query if that has any.
  abbrev pub passes : List Bytes → Entry → Bool
  passes words e = keep o e && (length words == 0 || holds_any (lower (match_text e)) words)

  is_hit-any :
      (words : List Bytes) (e : Entry) → o.any ≡ true → is_hit lower o words e ≡ passes words e
  unfolding is_hit match_count
  is_hit-any words e h = ground (arith, h, count_words-holds_any (lower (match_text e)) words)

  insert_ranked-score :
      (words : List Bytes) (e : Entry) (es : List Entry)
      → insert_ranked (score lower o words e) (map (score lower o words) es)
        ≡ map (score lower o words) (insert_by (λ f. match_count lower f words) e es)
  unfolding insert_ranked insert_by
  insert_ranked-score words e [] = refl
  insert_ranked-score words e (f ∷ es) = ground (arith, insert_ranked-score words e es)

  rank-score :
      (words : List Bytes) (es : List Entry)
      → rank (map (score lower o words) es)
        ≡ map (score lower o words) (rank_by (λ f. match_count lower f words) es)
  unfolding rank rank_by
  rank-score words [] = refl
  rank-score words (e ∷ es) =
      ap (insert_ranked (score lower o words e)) (rank-score words es)
      ∙ insert_ranked-score words e (rank_by (λ f. match_count lower f words) es)

  -- A search for any word gives, cut off at a positive limit, a list in which no entry holds
  -- more of the query's words than one before it, and in which those that hold the same number
  -- are the listed entries that pass the filters and hold a word (any entry, for a query without
  -- words), in the order in which they are listed.
  pub filter_entries-any :
      (es : List Entry) (query : Bytes) (limit : ℤ)
      → o.any ≡ true
      → (ranked : List Entry) × (filter_entries lower o es query limit ≡ at_most limit ranked)
        × Descending (λ e. match_count lower e (query_words lower query)) ranked
        × ((n : ℕ)
            → counting (λ e. match_count lower e (query_words lower query)) n ranked
              ≡ counting
                  (λ e. match_count lower e (query_words lower query))
                  n
                  (select (passes (query_words lower query)) es))
  unfolding filter_entries
  filter_entries-any es query limit h =
      let words = query_words lower query in
      let count : Entry → ℕ = λ e. match_count lower e words in
      let found = select (passes words) es in
      let same =
        select_congr (is_hit lower o words) (passes words) es (λ e. is_hit-any words e h) in
      let everything = hits_from lower o words limit 0 es in
      let scored = rank (map (score lower o words) (hits lower o words es)) in
      (
        rank_by count found,
        ap (λ b. map (λ s. s.entry) (cut limit (if b then rank everything else everything))) h
            ∙ ap (λ l. map (λ s. s.entry) (cut limit (rank l)))
                (hits_from-all lower o words limit 0 es (λ n. ground (arith, h)))
            ∙ ap (map (λ s. s.entry)) (cut-at_most limit scored)
            ∙ map-at_most (λ s. s.entry) limit scored
            ∙ ap (λ l. at_most limit (map (λ s. s.entry) l))
                (rank-score words (hits lower o words es))
            ∙ ap (at_most limit) (entry-score lower o words _)
            ∙ ap (λ l. at_most limit (rank_by count l)) same,
        rank_by-Descending count found,
        λ n. counting-rank_by count n found,
      )
