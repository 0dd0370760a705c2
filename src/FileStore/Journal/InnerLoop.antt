-- ===== src/FileStore/Journal/InnerLoop.antt =====
-- filestore/journal.go: the inner loop of `tailLines`, against the lines of the text it stands in.
use mathlib.Core.List.{append_assoc, reverse, reverse_aux}
use agentmemory.Prelude.{
  ℕ, zero, suc, ◌+◌, ◌<◌, Bytes, ◌≡◌, refl, sym, ap, ◌∙◌, inl, inr, Bool, true, false, Option, none,
  some, List, [], ◌∷◌, ◌++◌, arith, length, take, drop, Bool-cases,
}
use agentmemory.FileStore.FrontMatter.{split_at_lines}
use agentmemory.FileStore.Journal.{last_index, lines_in}
use agentmemory.FileStore.Journal.Lines.{
  LastLine, last_index-cases, split_at_lines-append, split_at_lines-none, take-prefix,
}

reverse_aux-snoc :
    (xs acc : List Bytes) (x : Bytes) → reverse_aux (xs ++ (x ∷ [])) acc ≡ x ∷ reverse_aux xs acc
reverse_aux-snoc [] acc x = refl
reverse_aux-snoc (y ∷ xs) acc x = reverse_aux-snoc xs (y ∷ acc) x

drop-line : (x y : Bytes) → drop (suc (length x)) (x ++ (b'\n' ∷ y)) ≡ y
drop-line [] y = refl
drop-line (c ∷ x) y = drop-line x y

pub length-append : (x y : Bytes) → length (x ++ y) ≡ length x + length y
length-append [] y = ground arith
length-append (c ∷ x) y = ground (arith, length-append x y)

module _ {S : Type 0} (fn : S → Bytes → S × Bool) where
  -- The callback on the lines in turn, until it says to stop.
  unfoldable pub visit : S → List Bytes → S
  visit s [] = s
  visit s (l ∷ ls) = let (s', go) = fn s l in elim go [ true ↦ visit s' ls | false ↦ s' ]

  pub visit-go :
      (s : S) (l : Bytes) (ls : List Bytes)
      → (fn s l).1 ≡ true
      → visit s (l ∷ ls) ≡ visit (fn s l).0 ls
  unfolding visit
  visit-go s l ls h = rw (h, visit) refl

  pub visit-stop :
      (s : S) (l : Bytes) (ls : List Bytes) → (fn s l).1 ≡ false → visit s (l ∷ ls) ≡ (fn s l).0
  unfolding visit
  visit-stop s l ls h = rw (h, visit) refl

  pub visit-one : (s : S) (l : Bytes) → visit s (l ∷ []) ≡ (fn s l).0
  unfolding visit
  visit-one s l = elim (Bool-cases (fn s l).1) [
    | inl go ↦ visit-go s l [] go
    | inr stop ↦ visit-stop s l [] stop
  ]

  -- What is left where the lines of a text are to be read from its last one.
  abbrev pub backwards : S → Bytes → S
  backwards s text = visit s (reverse (split_at_lines text))

  backwards-snoc :
      (s : S) (pre text before line : Bytes)
      → text ≡ before ++ (b'\n' ∷ line)
      → last_index b'\n' line ≡ none
      → backwards s (pre ++ text) ≡ visit s (line ∷ reverse (split_at_lines (pre ++ before)))
  backwards-snoc s pre text before line cut h =
      ap (λ t. backwards s (pre ++ t)) cut
      ∙ ap (backwards s) (sym (append_assoc pre before (b'\n' ∷ line)))
      ∙ ap (λ ls. visit s (reverse ls))
          (split_at_lines-append (pre ++ before) line
            ∙ ap (◌++◌ (split_at_lines (pre ++ before))) (split_at_lines-none line h))
      ∙ ap (visit s) (reverse_aux-snoc (split_at_lines (pre ++ before)) [] line)

  drop-LastLine : (t : Bytes) (l : LastLine t) → drop (suc (length l.before)) t ≡ l.last
  drop-LastLine t l = ap (drop (suc (length l.before))) l.text ∙ drop-line l.before l.last

  module _ (fuel : ℕ) (s : S) (buf : Bytes) (limit : ℕ) (at_start : Bool) where
    lines_in-first :
        last_index b'\n' (take limit buf) ≡ none
        → at_start ≡ true
        → lines_in fn (suc fuel) s buf limit at_start ≡ ((fn s (take limit buf)).0, none)
    unfolding lines_in
    lines_in-first one_line start = rw (one_line, start, lines_in) refl

    lines_in-later :
        last_index b'\n' (take limit buf) ≡ none
        → at_start ≡ false
        → lines_in fn (suc fuel) s buf limit at_start ≡ (s, some limit)
    unfolding lines_in
    lines_in-later one_line later = rw (one_line, later, lines_in) refl

    lines_in-index_go :
        (i : ℕ)
        → last_index b'\n' (take limit buf) ≡ some i
        → (fn s (drop (suc i) (take limit buf))).1 ≡ true
        → lines_in fn (suc fuel) s buf limit at_start
          ≡ lines_in fn fuel (fn s (drop (suc i) (take limit buf))).0 buf i at_start
    unfolding lines_in
    lines_in-index_go i index go = rw (index, go, lines_in) refl

    lines_in-index_stop :
        (i : ℕ)
        → last_index b'\n' (take limit buf) ≡ some i
        → (fn s (drop (suc i) (take limit buf))).1 ≡ false
        → lines_in fn (suc fuel) s buf limit at_start
          ≡ ((fn s (drop (suc i) (take limit buf))).0, none)
    unfolding lines_in
    lines_in-index_stop i index stop = rw (index, stop, lines_in) refl

    lines_in-go :
        (l : LastLine (take limit buf))
        → (fn s l.last).1 ≡ true
        → lines_in fn (suc fuel) s buf limit at_start
          ≡ lines_in fn fuel (fn s l.last).0 buf (length l.before) at_start
    lines_in-go l go =
        let here = drop-LastLine (take limit buf) l in
        lines_in-index_go (length l.before) l.index (ap (λ x. (fn s x).1) here ∙ go)
        ∙ ap (λ x. lines_in fn fuel (fn s x).0 buf (length l.before) at_start) here

    lines_in-stop :
        (l : LastLine (take limit buf))
        → (fn s l.last).1 ≡ false
        → lines_in fn (suc fuel) s buf limit at_start ≡ ((fn s l.last).0, none)
    lines_in-stop l stop =
        let here = drop-LastLine (take limit buf) l in
        lines_in-index_stop (length l.before) l.index (ap (λ x. (fn s x).1) here ∙ stop)
        ∙ ap (λ x. ((fn s x).0, none)) here

  -- What is left after the inner loop.
  abbrev pub resumed : Bytes → Bytes → S × Option ℕ → S
  resumed pre buf (s, none) = s
  resumed pre buf (s, some limit) = backwards s (pre ++ take limit buf)

  shorter :
      (fuel limit : ℕ) (buf : Bytes) (l : LastLine (take limit buf))
      → length (take limit buf) < suc fuel
      → length (take (length l.before) buf) < fuel
  shorter fuel limit buf l le =
      let kept = take-prefix limit buf l.before (b'\n' ∷ l.last) l.text in
      let whole = ap length l.text ∙ length-append l.before (b'\n' ∷ l.last) in
      ground (arith, le, ap length kept, whole)

  pub lines_in-resumed :
      (fuel : ℕ) (s : S) (pre buf : Bytes) (limit : ℕ) (at_start : Bool)
      → length (take limit buf) < fuel
      → (at_start ≡ true → pre ≡ [])
      → resumed pre buf (lines_in fn fuel s buf limit at_start)
        ≡ backwards s (pre ++ take limit buf)
  lines_in-resumed zero s pre buf limit at_start le h = ground (arith, le)
  lines_in-resumed (suc fuel) s pre buf limit at_start le h =
      let t = take limit buf in
      elim (last_index-cases t) [
        | inl one_line ↦ elim (Bool-cases at_start) [
          | inl first ↦
              ap (resumed pre buf) (lines_in-first fuel s buf limit at_start one_line first)
              ∙ sym (
                  ap (λ p. backwards s (p ++ t)) (h first)
                  ∙ ap (λ ls. visit s (reverse ls)) (split_at_lines-none t one_line)
                  ∙ visit-one s t)
          | inr later ↦
              ap (resumed pre buf) (lines_in-later fuel s buf limit at_start one_line later)
        ]
        | inr l ↦
            let text = backwards-snoc s pre t l.before l.last l.text l.no_more in
            let kept = take-prefix limit buf l.before (b'\n' ∷ l.last) l.text in
            elim (Bool-cases (fn s l.last).1) [
              | inl go ↦
                  ap (resumed pre buf) (lines_in-go fuel s buf limit at_start l go)
                  ∙ lines_in-resumed fuel (fn s l.last).0 pre buf (length l.before) at_start
                      (shorter fuel limit buf l le) h
                  ∙ ap (λ k. backwards (fn s l.last).0 (pre ++ k)) kept
                  ∙ sym (text ∙ visit-go s l.last _ go)
              | inr stop ↦
                  ap (resumed pre buf) (lines_in-stop fuel s buf limit at_start l stop)
                  ∙ sym (text ∙ visit-stop s l.last _ stop)
            ]
      ]

  -- At the start of the file the inner loop returns.
  abbrev pub returns : S × Option ℕ → Bool
  returns (s, none) = true
  returns (s, some limit) = false

  pub lines_in-returns :
      (fuel : ℕ) (s : S) (buf : Bytes) (limit : ℕ)
      → length (take limit buf) < fuel
      → returns (lines_in fn fuel s buf limit true) ≡ true
  lines_in-returns zero s buf limit le = ground (arith, le)
  lines_in-returns (suc fuel) s buf limit le = elim (last_index-cases (take limit buf)) [
    | inl one_line ↦ ap returns (lines_in-first fuel s buf limit true one_line refl)
    | inr l ↦ elim (Bool-cases (fn s l.last).1) [
      | inl go ↦
          ap returns (lines_in-go fuel s buf limit true l go)
          ∙ lines_in-returns fuel (fn s l.last).0 buf (length l.before)
              (shorter fuel limit buf l le)
      | inr stop ↦ ap returns (lines_in-stop fuel s buf limit true l stop)
    ]
  ]
