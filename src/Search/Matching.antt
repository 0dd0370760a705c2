-- ===== src/Search/Matching.antt =====
-- memory.go: what the comment of `Match` says, of the one text that `matchCount` looks through.
use mathlib.Core.List.{append_assoc}
use agentmemory.Prelude.{
  ℕ, zero, suc, Bytes, ◌≡◌, ◌↔◌, refl, sym, ap, ◌∙◌, Bool, true, false, not, ◌||◌, List, [], ◌∷◌,
  ◌++◌, arith, All, All-append, all_of, Map, length, has_prefix, lead_len, spaces, str_eq,
  str_eq_iff, ◌==◌, ==_iff, Bool-cases, inl, inr,
}
use agentmemory.Memory.{Entry}
use agentmemory.Search.Words.{
  includes, mentions, fields_from, fields, word_of, distinct_words, meta_values, match_text,
  count_words, query_words, match_count, matches,
}
use agentmemory.Search.Plain.{count_words-le}

abbrev one_line : Bytes → Bool
one_line s = all_of (λ c. not (c == b'\n')) s

-- A line end parts the places where a word of one line can stand.
has_prefix-line :
    (s t w : Bytes) → one_line w ≡ true → has_prefix (s ++ (b'\n' ∷ t)) w ≡ has_prefix s w
unfolding has_prefix
has_prefix-line [] t [] h = refl
has_prefix-line [] t (d ∷ w) h = ground (arith, h)
has_prefix-line (c ∷ s) t [] h = refl
has_prefix-line (c ∷ s) t (d ∷ w) h = ground (arith, h, has_prefix-line s t w)

includes-line :
    (s t w : Bytes)
    → one_line w ≡ true
    → includes (s ++ (b'\n' ∷ t)) w ≡ (includes s w || includes t w)
unfolding includes
includes-line [] t w h = ap (λ b. b || includes t w) (has_prefix-line [] t w h)
includes-line (c ∷ s) t w h = ground (arith, has_prefix-line (c ∷ s) t w h, includes-line s t w h)

-- A line end is white space, so no word that `strings.Fields` gives has one.
lead_len-newline : (c : ℕ) (s : Bytes) → lead_len spaces (c ∷ s) ≡ 0 → (not (c == b'\n')) ≡ true
unfolding lead_len spaces has_prefix
lead_len-newline c s h = ground (arith, h)

all_of-append : (s t : Bytes) → one_line s ≡ true → one_line t ≡ true → one_line (s ++ t) ≡ true
all_of-append [] t h k = k
all_of-append (c ∷ s) t h k = ground (arith, h, all_of-append s t)

abbrev OneLine : Bytes → Type 0
OneLine w = one_line w ≡ true

word_of-OneLine : (w : Bytes) → OneLine w → All OneLine (word_of w)
word_of-OneLine [] h = tt
word_of-OneLine (c ∷ w) h = (h, tt)

fields_step-OneLine :
    (word s : Bytes) (c k : ℕ)
    → lead_len spaces (c ∷ s) ≡ k
    → ((word' : Bytes) → OneLine word' → All OneLine (fields_from word' 0 s))
    → ((n : ℕ) → All OneLine (fields_from [] n s))
    → OneLine word
    → All OneLine (fields_from word 0 (c ∷ s))
unfolding fields_from
fields_step-OneLine word s c zero e onward after h =
    rw (e, fields_from)
      (onward (word ++ c ∷ [])
        (all_of-append word (c ∷ []) h (ground (arith, lead_len-newline c s e))))
fields_step-OneLine word s c (suc k) e onward after h =
    rw (e, fields_from)
      (All-append OneLine (word_of word) (fields_from [] k s) (word_of-OneLine word h) (after k))

fields_from-OneLine :
    (word : Bytes) (n : ℕ) (s : Bytes) → OneLine word → All OneLine (fields_from word n s)
unfolding fields_from
fields_from-OneLine word n [] h = word_of-OneLine word h
fields_from-OneLine word (suc n) (c ∷ s) h = fields_from-OneLine word n s h
fields_from-OneLine word zero (c ∷ s) h =
    fields_step-OneLine word s c (lead_len spaces (c ∷ s)) refl
      (λ word' h'. fields_from-OneLine word' 0 s h') (λ n. fields_from-OneLine [] n s refl) h

fields-OneLine : (s : Bytes) → All OneLine (fields s)
unfolding fields
fields-OneLine s = fields_from-OneLine [] 0 s refl

mentions-All :
    (P : Bytes → Type 0) (vs : List Bytes) (w : Bytes) → mentions vs w ≡ true → All P vs → P w
unfolding mentions
mentions-All P [] w h a = cc
mentions-All P (v ∷ vs) w h a = elim (Bool-cases (str_eq v w)) [
  | inl same ↦ rw ((str_eq_iff v w).0 same) at a.0
  | inr other ↦ mentions-All P vs w (ground (arith, h, other)) a.1
]

module _ (P : Bytes → Type 0) where
  All-take : (xs ys : List Bytes) → All P (xs ++ ys) → All P xs
  All-take [] ys a = tt
  All-take (x ∷ xs) ys a = (a.0, All-take xs ys a.1)

  All-drop : (xs ys : List Bytes) → All P (xs ++ ys) → All P ys
  All-drop [] ys a = a
  All-drop (x ∷ xs) ys a = All-drop xs ys a.1

  All-distinct_words : (out ws : List Bytes) → All P out → All P ws → All P (distinct_words out ws)
  unfolding distinct_words
  All-distinct_words out [] a b = a
  All-distinct_words out (w ∷ ws) a b = elim (Bool-cases (mentions out w)) [
    | inl old ↦ rw old (All-distinct_words out ws a b.1)
    | inr new ↦
        rw new (All-distinct_words (out ++ w ∷ []) ws (All-append P out (w ∷ []) a (b.0, tt)) b.1)
  ]

  All-of_distinct_words :
      (out ws : List Bytes) → All P (distinct_words out ws) → All P out × All P ws
  unfolding distinct_words
  All-of_distinct_words out [] a = (a, tt)
  All-of_distinct_words out (w ∷ ws) a = elim (Bool-cases (mentions out w)) [
    | inl old ↦
        let (p, q) = All-of_distinct_words out ws (rw old at a) in
        (p, (mentions-All P out w old p, q))
    | inr new ↦
        let (p, q) = All-of_distinct_words (out ++ w ∷ []) ws (rw new at a) in
        (All-take out (w ∷ []) p, ((All-drop out (w ∷ []) p).0, q))
  ]

All-counted :
    (text : Bytes) (ws : List Bytes)
    → (count_words text ws ≡ length ws) ↔ All (λ w. includes text w ≡ true) ws
unfolding count_words
All-counted text [] = (λ e. tt, λ a. refl)
All-counted text (w ∷ ws) =
    let ih = All-counted text ws in
    (λ e. ground (arith, e, ih.0, count_words-le text ws), λ a. ground (arith, a.0, ih.1 a.1))

-- What the comment of `Match` says of a word.
unfoldable pub in_values : (Bytes → Bytes) → Map Bytes → Bytes → Bool
in_values lower [] w = false
in_values lower ((_, v) ∷ m) w = includes (lower v) w || in_values lower m w

abbrev pub stands_in : (Bytes → Bytes) → Entry → Bytes → Bool
stands_in lower e w =
    includes (lower e.name) w || (in_values lower e.meta w || includes (lower e.content) w)

or_assoc : (a b c d : Bool) → (a || (b || (c || d))) ≡ (a || ((b || c) || d))
or_assoc a b c d = ground arith

match_count-count_words :
    (lower : Bytes → Bytes) (e : Entry) (ws : List Bytes)
    → match_count lower e ws ≡ count_words (lower (match_text e)) ws
unfolding match_count count_words
match_count-count_words lower e [] = refl
match_count-count_words lower e (w ∷ ws) = ground arith

All-both :
    (P Q R : Bytes → Type 0) (ws : List Bytes)
    → ((w : Bytes) → P w → Q w → R w)
    → All P ws
    → All Q ws
    → All R ws
All-both P Q R [] f a b = tt
All-both P Q R (w ∷ ws) f a b = (f w a.0 b.0, All-both P Q R ws f a.1 b.1)

module _ (lower : Bytes → Bytes)
    (lower-lines : (s t : Bytes) → lower (s ++ (b'\n' ∷ t)) ≡ lower s ++ (b'\n' ∷ lower t)) where
  includes-values :
      (s : Bytes) (m : Map Bytes) (content w : Bytes)
      → one_line w ≡ true
      → includes (lower (s ++ (meta_values m ++ (b'\n' ∷ content)))) w
        ≡ (includes (lower s) w || (in_values lower m w || includes (lower content) w))
  unfolding meta_values in_values
  includes-values s [] content w h =
      rw (lower-lines s content) (includes-line (lower s) (lower content) w h)
  includes-values s ((k, v) ∷ m) content w h =
      let rest = v ++ (meta_values m ++ (b'\n' ∷ content)) in
      rw (append_assoc v (meta_values m) (b'\n' ∷ content)) (
        rw (lower-lines s rest) (
          includes-line (lower s) (lower rest) w h
          ∙ ap (λ b. includes (lower s) w || b) (includes-values v m content w h)
          ∙ or_assoc (includes (lower s) w) (includes (lower v) w) (in_values lower m w)
              (includes (lower content) w)))

  -- An entry matches a query exactly when each of the query's words, in lower case, stands in
  -- its name, in a value of its metadata or in its content, where `lower` takes each line by
  -- itself: no word is found across two of them, whatever the order of the metadata.
  pub matches-stands_in :
      (e : Entry) (query : Bytes)
      → (matches lower e query ≡ true)
        ↔ All (λ w. stands_in lower e w ≡ true) (fields (lower query))
  unfolding matches query_words match_text
  matches-stands_in e query =
      let words = fields (lower query) in
      let text = lower (match_text e) in
      let Holds : Bytes → Type 0 = λ w. includes text w ≡ true in
      let Stands : Bytes → Type 0 = λ w. stands_in lower e w ≡ true in
      let counted = match_count-count_words lower e (query_words lower query) in
      let every = All-counted text (query_words lower query) in
      let same = λ (w : Bytes) (h : OneLine w). includes-values e.name e.meta e.content w h in
      (
        λ h.
            All-both OneLine Holds Stands words (λ w line held. sym (same w line) ∙ held)
              (fields-OneLine (lower query))
              (All-of_distinct_words Holds [] words (every.0 (sym counted ∙ (==_iff _ _).0 h))).1,
        λ a. (==_iff _ _).1 (
            counted
            ∙ every.1 (
                All-distinct_words Holds [] words tt (
                  All-both OneLine Stands Holds words (λ w line held. same w line ∙ held)
                    (fields-OneLine (lower query)) a))),
      )
