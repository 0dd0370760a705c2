-- ===== src/Search/Plain.antt =====
-- search.go: what a search for every word finds, and where it stops.
use agentmemory.Prelude.{
  ℤ, pos, negsuc, ℕ, zero, suc, ◌-◌, ◌≤◌, Bytes, ◌≡◌, refl, ap, ◌∙◌, false, not, ◌&&◌, List, [],
  ◌∷◌, map, arith, length, take, take-all, select, select_congr, ◌==◌, Bool-cases, inl, inr,
  if◌then◌else◌,
}
use agentmemory.Memory.{Entry}
use agentmemory.Search.Words.{match_text, count_words, query_words, match_count, matches}
use agentmemory.Search.Options.{
  SearchOptions, keep, Scored, at_limit, cut, is_hit, rank, hits_from, filter_entries,
}

-- The first so many, all where the limit is not positive.
abbrev pub at_most {ℓ} : {A : Type ℓ} → ℤ → List A → List A
at_most (negsuc _) xs = xs
at_most (pos zero) xs = xs
at_most (pos (suc k)) xs = take (suc k) xs

pub cut-at_most : {A : Type 0} (limit : ℤ) (xs : List A) → cut limit xs ≡ at_most limit xs
cut-at_most (negsuc n) xs = refl
cut-at_most (pos zero) xs = refl
cut-at_most (pos (suc k)) xs = ground (arith, take-all (suc k) xs)

module _ (lower : Bytes → Bytes) (o : SearchOptions) (words : List Bytes) where
  abbrev pub hits : List Entry → List Entry
  hits es = select (is_hit lower o words) es

  abbrev pub score : Entry → Scored
  score e = record { entry = e; n = match_count lower e words }

  -- Where the loop does not stop, it scores each hit.
  pub hits_from-all :
      (limit : ℤ) (found : ℕ) (es : List Entry)
      → ((n : ℕ) → (not o.any && at_limit limit n) ≡ false)
      → hits_from lower o words limit found es ≡ map score (hits es)
  unfolding hits_from select
  hits_from-all limit found [] h = refl
  hits_from-all limit found (e ∷ es) h = elim (Bool-cases (is_hit lower o words e)) [
    | inl hit ↦ rw (hit, h (suc found), hits_from-all limit (suc found) es h) refl
    | inr miss ↦ rw (miss, hits_from-all limit found es h) refl
  ]

  take-nil : (n : ℕ) → take {A = Entry} n [] ≡ []
  take-nil zero = refl
  take-nil (suc n) = refl

  hits_from-stop :
      (k found : ℕ) (es : List Entry)
      → o.any ≡ false
      → found ≤ k
      → map (λ s. s.entry) (hits_from lower o words (pos (suc k)) found es)
        ≡ take (suc k - found) (hits es)
  unfolding hits_from select
  hits_from-stop k found [] h le = rw (take-nil (suc k - found)) refl
  hits_from-stop k found (e ∷ es) h le = elim (Bool-cases (is_hit lower o words e)) [
    | inr miss ↦ rw miss (hits_from-stop k found es h le)
    | inl hit ↦
        rw (hit, h)
          (elim (Bool-cases (suc found == suc k)) [
            | inl last ↦
                let one_left : suc k - found ≡ 1 = ground (arith, last) in rw (last, one_left) refl
            | inr more ↦
                let less : suc k - found ≡ suc (suc k - suc found) = ground (arith, more) in
                rw (more, less)
                  (ap (◌∷◌ e) (hits_from-stop k (suc found) es h (ground (arith, more))))
          ])
  ]

map-take : {A B : Type 0} (f : A → B) (n : ℕ) (xs : List A) → map f (take n xs) ≡ take n (map f xs)
map-take f zero xs = refl
map-take f (suc n) [] = refl
map-take f (suc n) (x ∷ xs) = ap (◌∷◌ (f x)) (map-take f n xs)

pub map-at_most :
    {A B : Type 0} (f : A → B) (limit : ℤ) (xs : List A)
    → map f (at_most limit xs) ≡ at_most limit (map f xs)
map-at_most f (negsuc n) xs = refl
map-at_most f (pos zero) xs = refl
map-at_most f (pos (suc k)) xs = map-take f (suc k) xs

take-take : {A : Type 0} (n : ℕ) (xs : List A) → take n (take n xs) ≡ take n xs
take-take zero xs = refl
take-take (suc n) [] = refl
take-take (suc n) (x ∷ xs) = ap (◌∷◌ x) (take-take n xs)

at_most-at_most :
    {A : Type 0} (limit : ℤ) (xs : List A) → at_most limit (at_most limit xs) ≡ at_most limit xs
at_most-at_most (negsuc n) xs = refl
at_most-at_most (pos zero) xs = refl
at_most-at_most (pos (suc k)) xs = take-take (suc k) xs

module _ (lower : Bytes → Bytes) (o : SearchOptions) (words : List Bytes) where
  pub entry-score : (es : List Entry) → map (λ s. s.entry) (map (score lower o words) es) ≡ es
  entry-score [] = refl
  entry-score (e ∷ es) = ap (◌∷◌ e) (entry-score es)

  hits_from-at_most :
      (limit : ℤ) (es : List Entry)
      → o.any ≡ false
      → map (λ s. s.entry) (hits_from lower o words limit 0 es)
        ≡ at_most limit (hits lower o words es)
  hits_from-at_most (negsuc n) es h =
      rw (hits_from-all lower o words (negsuc n) 0 es (λ m. ground (arith, h))) (entry-score _)
  hits_from-at_most (pos zero) es h =
      rw (hits_from-all lower o words (pos zero) 0 es (λ m. ground (arith, h))) (entry-score _)
  hits_from-at_most (pos (suc k)) es h =
      let whole : suc k - 0 ≡ suc k = omega arith in
      rw whole at (hits_from-stop lower o words k 0 es h (omega arith))

pub count_words-le : (text : Bytes) (ws : List Bytes) → count_words text ws ≤ length ws
unfolding count_words
count_words-le text [] = omega arith
count_words-le text (w ∷ ws) = ground (arith, count_words-le text ws)

-- The count stays within the words, so the test of the loop is that every word is there.
is_hit-plain :
    (lower : Bytes → Bytes) (o : SearchOptions) (query : Bytes) (e : Entry)
    → o.any ≡ false
    → is_hit lower o (query_words lower query) e ≡ (keep o e && matches lower e query)
unfolding is_hit matches match_count
is_hit-plain lower o query e h =
    ground (arith, h, count_words-le (lower (match_text e)) (query_words lower query))

-- A search for every word of the query gives the entries that pass the filters and match the
-- query, as `Match` has it, in the order in which they are listed, and the first `limit` of
-- them where the limit is positive: that the loop stops at the limit loses none.
pub filter_entries-plain :
    (lower : Bytes → Bytes) (o : SearchOptions) (es : List Entry) (query : Bytes) (limit : ℤ)
    → o.any ≡ false
    → filter_entries lower o es query limit
      ≡ at_most limit (select (λ e. keep o e && matches lower e query) es)
unfolding filter_entries
filter_entries-plain lower o es query limit h =
    let words = query_words lower query in
    let same =
      select_congr (is_hit lower o words) (λ e. keep o e && matches lower e query) es
        (λ e. is_hit-plain lower o query e h) in
    let found = hits_from lower o words limit 0 es in
    ap (λ b. map (λ s. s.entry) (cut limit (if b then rank found else found))) h
    ∙ ap (map (λ s. s.entry)) (cut-at_most limit found)
    ∙ map-at_most (λ s. s.entry) limit found
    ∙ ap (at_most limit) (hits_from-at_most lower o words limit es h)
    ∙ at_most-at_most limit (hits lower o words es)
    ∙ ap (at_most limit) same
