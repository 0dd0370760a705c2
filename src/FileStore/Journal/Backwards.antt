-- ===== src/FileStore/Journal/Backwards.antt =====
-- filestore/journal.go: `tailLines` against the lines of the whole file, and `lastSeq`.
use mathlib.Core.List.{append_assoc, append-nil, reverse}
use agentmemory.Prelude.{
  ℕ, zero, suc, ◌+◌, ◌-◌, ◌*◌, ◌≤◌, ◌<◌, Bytes, ◌≡◌, refl, sym, ap, ◌∙◌, inl, inr, Bool, true,
  Option, none, some, [], ◌∷◌, ◌++◌, arith, length, take, take-all, length-take, length-drop, drop,
  ◌==◌, ==_iff,
}
use agentmemory.FileStore.FrontMatter.{split_at_lines}
use agentmemory.FileStore.Journal.{
  complete_lines, last_index, lines_in, chunk_at, tail_from, tail_lines,
}
use agentmemory.FileStore.Journal.Lines.{
  last_index-cases, complete_lines-append, complete_lines-none, take-prefix, take-beyond, take-suc,
}
use agentmemory.FileStore.Journal.InnerLoop.{
  visit, backwards, resumed, lines_in-resumed, returns, lines_in-returns,
}

take-nil : (n : ℕ) → ◌≡◌ {A = Bytes} (take n []) []
take-nil zero = refl
take-nil (suc n) = refl

take-split : (m n i : ℕ) (xs : Bytes) → m ≡ i + n → take m xs ≡ take i xs ++ take n (drop i xs)
take-split m n zero xs h = ap (λ k. take k xs) (ground (arith, h))
take-split m n (suc i) [] h = take-nil m ∙ sym (take-nil n)
take-split zero n (suc i) (c ∷ xs) h = ground (arith, h)
take-split (suc m) n (suc i) (c ∷ xs) h = ap (◌∷◌ c) (take-split m n i xs (ground (arith, h)))

length-take-drop : (n i : ℕ) (xs : Bytes) → n + i ≤ length xs → length (take n (drop i xs)) ≡ n
length-take-drop n i xs h = ground (arith, h, length-take n (drop i xs), length-drop i xs)

module _ {S : Type 0} (fn : S → Bytes → S × Bool) where
  -- What is left where the file before `buf` is not read yet.
  abbrev wanted : Bytes → S → Bytes → Option ℕ → S
  wanted pre s buf none = visit fn s (reverse (complete_lines (pre ++ buf)))
  wanted pre s buf (some l) = backwards fn s (pre ++ take l buf)

  abbrev IsKept : ℕ → Bytes → Option ℕ → Type 0
  IsKept start buf none = last_index b'\n' buf ≡ none
  IsKept start buf (some l) = 0 < start

  -- The next round, or the return.
  abbrev onward : ℕ → Bytes → ℕ → ℕ → Bytes → S × Option ℕ → S
  onward fuel file start chunk more (s, none) = s
  onward fuel file start chunk more (s, some l) =
      tail_from fn fuel file s start (chunk * 2) (take (suc l) more) (some l)

  abbrev start_at : ℕ → ℕ → ℕ
  start_at chunk k = suc k - chunk_at chunk (suc k)

  abbrev more_at : Bytes → ℕ → ℕ → Bytes → Bytes
  more_at file chunk k buf = take (chunk_at chunk (suc k)) (drop (start_at chunk k) file) ++ buf

  abbrev limit_at : ℕ → ℕ → Bytes → Option ℕ → Option ℕ
  limit_at chunk k more none = last_index b'\n' more
  limit_at chunk k more (some l) = some (l + chunk_at chunk (suc k))

  module _ (fuel : ℕ) (file : Bytes) (s : S) (k chunk : ℕ) (buf : Bytes) (limit : Option ℕ) where
    abbrev more_read : Bytes
    more_read = more_at file chunk k buf

    tail_from-lines :
        (l : ℕ)
        → limit_at chunk k more_read limit ≡ some l
        → tail_from fn (suc fuel) file s (suc k) chunk buf limit
          ≡ onward fuel file
              (start_at chunk k)
              chunk
              more_read
              (lines_in fn (suc l) s more_read l (start_at chunk k == 0))
    unfolding tail_from
    tail_from-lines l h = rw (h, tail_from) refl

    tail_from-none :
        limit_at chunk k more_read limit ≡ none
        → tail_from fn (suc fuel) file s (suc k) chunk buf limit
          ≡ tail_from fn fuel file s (start_at chunk k) (chunk * 2) more_read none
    unfolding tail_from
    tail_from-none h = rw (h, tail_from) refl

  chunk_at-bounds :
      (chunk k : ℕ) → 1 ≤ chunk → (1 ≤ chunk_at chunk (suc k)) × (chunk_at chunk (suc k) ≤ suc k)
  chunk_at-bounds chunk k h = (ground (arith, h), ground (arith, h))

  last_index-backwards :
      (s : S) (pre more : Bytes) (l : ℕ)
      → last_index b'\n' more ≡ some l
      → backwards fn s (pre ++ take l more) ≡ visit fn s (reverse (complete_lines (pre ++ more)))
  last_index-backwards s pre more l h = elim (last_index-cases more) [
    | inl k ↦ ground (arith, h, k)
    | inr c ↦
        let at_before : l ≡ length c.before = ground (arith, h, c.index) in
        let whole = take-all (length more) more (omega arith) ∙ c.text in
        let kept = take-prefix (length more) more c.before (b'\n' ∷ c.last) whole in
        ap (λ n. backwards fn s (pre ++ take n more)) at_before
        ∙ ap (λ t. backwards fn s (pre ++ t)) kept
        ∙ sym (
            ap (λ t. visit fn s (reverse (complete_lines t)))
              (ap (◌++◌ pre) c.text ∙ sym (append_assoc pre c.before (b'\n' ∷ c.last)))
            ∙ ap (λ ls. visit fn s (reverse ls))
                (complete_lines-append (pre ++ c.before) c.last
                  ∙ ap (◌++◌ (split_at_lines (pre ++ c.before)))
                      (complete_lines-none c.last c.no_more)
                  ∙ append-nil (split_at_lines (pre ++ c.before))))
  ]

  -- Wherever the limit stands after a read, what is wanted is what it was before.
  limit_at-wanted :
      (s : S) (pre piece buf : Bytes) (k chunk l : ℕ) (limit : Option ℕ)
      → length piece ≡ chunk_at chunk (suc k)
      → limit_at chunk k (piece ++ buf) limit ≡ some l
      → backwards fn s (pre ++ take l (piece ++ buf)) ≡ wanted (pre ++ piece) s buf limit
  limit_at-wanted s pre piece buf k chunk l none len h =
      last_index-backwards s pre (piece ++ buf) l h
      ∙ ap (λ t. visit fn s (reverse (complete_lines t))) (sym (append_assoc pre piece buf))
  limit_at-wanted s pre piece buf k chunk l (some l0) len h =
      ap (λ t. backwards fn s (pre ++ t)) (take-beyond l l0 piece buf (ground (arith, h, len)))
      ∙ ap (backwards fn s) (sym (append_assoc pre piece (take l0 buf)))

  onward-backwards :
      (fuel : ℕ) (file more text : Bytes) (start chunk : ℕ) (r : S × Option ℕ)
      → ((t : S) (l : ℕ)
          → 0 < start
          → tail_from fn fuel file t start (chunk * 2) (take (suc l) more) (some l)
            ≡ backwards fn t (take start file ++ take l (take (suc l) more)))
      → ((start == 0) ≡ true → returns fn r ≡ true)
      → onward fuel file start chunk more r ≡ resumed fn (take start file) more r
  onward-backwards fuel file more text start chunk (s, none) rest ret = refl
  onward-backwards fuel file more text start chunk (s, some l) rest ret =
      rest s l (ground (arith, ret))
      ∙ ap (λ t. backwards fn s (take start file ++ t)) (take-suc l more)

  abbrev IsBackwards : ℕ → Bytes → Type 0
  IsBackwards fuel file =
      (s : S) (start chunk : ℕ) (buf : Bytes) (limit : Option ℕ)
      → start ≤ fuel
      → start ≤ length file
      → 1 ≤ chunk
      → IsKept start buf limit
      → tail_from fn fuel file s start chunk buf limit ≡ wanted (take start file) s buf limit

  module _ (fuel : ℕ) (file : Bytes) (rest : IsBackwards fuel file) (s : S) (k chunk : ℕ)
      (buf : Bytes) (le : suc k ≤ suc fuel) (inside : suc k ≤ length file) (pos : 1 ≤ chunk) where
    abbrev piece : Bytes
    piece = take (chunk_at chunk (suc k)) (drop (start_at chunk k) file)

    abbrev before : Bytes
    before = take (start_at chunk k) file

    start_at-lt : start_at chunk k < suc k
    start_at-lt = let b = chunk_at-bounds chunk k pos in ground (arith, b)

    whole_before : take (suc k) file ≡ before ++ piece
    whole_before =
        let b = chunk_at-bounds chunk k pos in
        take-split (suc k) (chunk_at chunk (suc k)) (start_at chunk k) file (ground (arith, b))

    length-piece : length piece ≡ chunk_at chunk (suc k)
    length-piece =
        let b = chunk_at-bounds chunk k pos in
        length-take-drop (chunk_at chunk (suc k)) (start_at chunk k) file
          (ground (arith, b, inside))

    tail_from-lines_step :
        (limit : Option ℕ) (l : ℕ)
        → limit_at chunk k (piece ++ buf) limit ≡ some l
        → tail_from fn (suc fuel) file s (suc k) chunk buf limit
          ≡ wanted (take (suc k) file) s buf limit
    tail_from-lines_step limit l h =
        let more = piece ++ buf in
        let start = start_at chunk k in
        let at_start = start == 0 in
        let enough : length (take l more) < suc l = ground (arith, length-take l more) in
        tail_from-lines fuel file s k chunk buf limit l h
        ∙ onward-backwards fuel file more more start chunk (lines_in fn (suc l) s more l at_start)
            (λ t l' more_left.
              rest t start (chunk * 2) (take (suc l') more) (some l')
                (ground (arith, le, start_at-lt)) (ground (arith, inside, start_at-lt))
                (omega arith) more_left)
            (λ z.
              ap (λ b. returns fn (lines_in fn (suc l) s more l b)) z
              ∙ lines_in-returns fn (suc l) s more l enough)
        ∙ lines_in-resumed fn (suc l) s before more l at_start enough
            (λ z. ap (λ n. take n file) ((==_iff start 0).0 z))
        ∙ limit_at-wanted s before piece buf k chunk l limit length-piece h
        ∙ ap (λ p. wanted p s buf limit) (sym whole_before)

    tail_from-none_step :
        (limit : Option ℕ)
        → limit_at chunk k (piece ++ buf) limit ≡ none
        → tail_from fn (suc fuel) file s (suc k) chunk buf limit
          ≡ wanted (take (suc k) file) s buf limit
    tail_from-none_step (some l) h = ground (arith, h)
    tail_from-none_step none h =
        tail_from-none fuel file s k chunk buf none h
        ∙ rest s (start_at chunk k) (chunk * 2) (piece ++ buf) none
            (ground (arith, le, start_at-lt)) (ground (arith, inside, start_at-lt)) (omega arith) h
        ∙ ap (λ t. visit fn s (reverse (complete_lines t)))
            (sym (append_assoc before piece buf) ∙ ap (λ p. p ++ buf) (sym whole_before))

    tail_from-step :
        (limit o : Option ℕ)
        → limit_at chunk k (piece ++ buf) limit ≡ o
        → tail_from fn (suc fuel) file s (suc k) chunk buf limit
          ≡ wanted (take (suc k) file) s buf limit
    tail_from-step limit none h = tail_from-none_step limit h
    tail_from-step limit (some l) h = tail_from-lines_step limit l h

  nothing_before : (s : S) (buf : Bytes) → last_index b'\n' buf ≡ none → wanted [] s buf none ≡ s
  unfolding visit
  nothing_before s buf kept = ap (λ ls. visit fn s (reverse ls)) (complete_lines-none buf kept)

  tail_from-IsBackwards : (fuel : ℕ) (file : Bytes) → IsBackwards fuel file
  unfolding tail_from
  tail_from-IsBackwards zero file s zero chunk buf none le inside pos kept =
      sym (nothing_before s buf kept)
  tail_from-IsBackwards zero file s zero chunk buf (some l) le inside pos kept =
      ground (arith, kept)
  tail_from-IsBackwards zero file s (suc k) chunk buf limit le inside pos kept = ground (arith, le)
  tail_from-IsBackwards (suc fuel) file s zero chunk buf none le inside pos kept =
      sym (nothing_before s buf kept)
  tail_from-IsBackwards (suc fuel) file s zero chunk buf (some l) le inside pos kept =
      ground (arith, kept)
  tail_from-IsBackwards (suc fuel) file s (suc k) chunk buf limit le inside pos kept =
      tail_from-step fuel file (tail_from-IsBackwards fuel file) s k chunk buf le inside pos limit _
        refl

  -- Reading the file backwards in growing chunks gives the callback the complete lines of the
  -- file from the last to the first, each once, until it says to stop: however a chunk cuts a
  -- line, and whatever stands after the last line end.
  pub tail_lines-visit :
      (file : Bytes) (s : S) → tail_lines fn file s ≡ visit fn s (reverse (complete_lines file))
  unfolding tail_lines last_index
  tail_lines-visit file s =
      tail_from-IsBackwards (length file) file s (length file) 4096 [] none (omega arith)
        (omega arith) (omega arith) refl
      ∙ ap (λ t. visit fn s (reverse (complete_lines t)))
          (append-nil (take (length file) file) ∙ take-all (length file) file (omega arith))
