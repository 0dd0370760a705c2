-- ===== src/Neutralise/Fences.antt =====
-- render.go: the second loop of `neutralise` ends, and leaves no code fence open.
use agentmemory.Prelude.{
  ℕ, zero, suc, ◌+◌, ◌≤◌, Bytes, ◌≡◌, refl, ap, ◌⊎◌, inl, inr, Bool, true, false, Option, none,
  some, List, [], ◌∷◌, ◌++◌, arith, length, get_elem?, take, drop, ltb, ◌==◌, Bool-cases,
  Option-cases, if◌then◌else◌,
}
use agentmemory.Neutralise.Lines.{
  Line, run_of, opens_fence, Open, fence_step, unclosed_from, unclosed, insert_at, escape_line,
  close_fences,
}

-- The line opens a fence where none is open.
opener : Bytes → Bool
opener body =
    if ltb 3 (run_of b' ' body)
    then false
    else elim (opens_fence (drop (run_of b' ' body) body)) [ none ↦ false | some _ ↦ true ]

openers : List Line → ℕ
openers [] = 0
openers (l ∷ ls) = let rest = openers ls in if opener l.body then suc rest else rest

openers-le : (ls : List Line) → openers ls ≤ length ls
unfolding openers
openers-le [] = omega arith
openers-le (l ∷ ls) = ground (arith, openers-le ls)

run_of-insert :
    (c d : ℕ) (s t : Bytes)
    → (d == c) ≡ false
    → (run_of c (take (run_of c s) s ++ (d ∷ t)) ≡ run_of c s)
      × (drop (run_of c s) (take (run_of c s) s ++ (d ∷ t)) ≡ d ∷ t)
unfolding run_of
run_of-insert c d [] t h = (rw h refl, refl)
run_of-insert c d (x ∷ s) t h = elim (Bool-cases (x == c)) [
  | inr other ↦ rw (other, h) (refl, refl)
  | inl same ↦ let (p, q) = run_of-insert c d s t h in rw same (rw same (ap suc p), q)
]

behind_spaces-opener :
    (body t : Bytes) (n : ℕ) → run_of b' ' body ≡ n → drop n body ≡ b'\\' ∷ t → opener body ≡ false
unfolding opener opens_fence
behind_spaces-opener body t n p q = rw (p, q) (ground arith)

escaped-opener : (body : Bytes) → opener (insert_at (run_of b' ' body) (b'\\' ∷ []) body) ≡ false
unfolding insert_at
escaped-opener body =
    let (p, q) = run_of-insert b' ' b'\\' body (drop (run_of b' ' body) body) refl in
    behind_spaces-opener _ (drop (run_of b' ' body) body) (run_of b' ' body) p q

escape_line-openers :
    (i : ℕ) (ls : List Line) (l : Line)
    → get_elem? ls i ≡ some l
    → opener l.body ≡ true
    → suc (openers (escape_line i ls)) ≡ openers ls
unfolding openers escape_line
escape_line-openers i [] l e o = cc
escape_line-openers zero (k ∷ ls) l e o = ground (arith, e, o, escaped-opener k.body)
escape_line-openers (suc i) (k ∷ ls) l e o = ground (arith, escape_line-openers i ls l e o)

fence_step-cases :
    (i : ℕ) (state : Option Open) (body : Bytes) (o : Open)
    → fence_step i state body ≡ some o
    → (state ≡ some o) ⊎ ((o.opened ≡ i) × (opener body ≡ true))
unfolding fence_step opener
fence_step-cases i state body o h = ground arith

unclosed_from-cases :
    (i : ℕ) (state : Option Open) (ls : List Line) (o : Open)
    → unclosed_from i state ls ≡ some o
    → (state ≡ some o)
      ⊎ ((k : ℕ) × (l : Line) × (o.opened ≡ i + k)
          × (get_elem? ls k ≡ some l)
          × (opener l.body ≡ true))
unfolding unclosed_from
unclosed_from-cases i state [] o h = inl h
unclosed_from-cases i state (l ∷ ls) o h =
    elim (unclosed_from-cases (suc i) (fence_step i state l.body) ls o h) [
      | inr (k, l', at_k, there, opens) ↦ inr (suc k, l', omega (arith, at_k), there, opens)
      | inl e ↦ elim (fence_step-cases i state l.body o e) [
        | inl e' ↦ inl e'
        | inr (here, opens) ↦ inr (0, l, omega (arith, here), refl, opens)
      ]
    ]

unclosed-opener :
    (ls : List Line) (i : ℕ)
    → unclosed ls ≡ some i
    → (l : Line) × (get_elem? ls i ≡ some l) × (opener l.body ≡ true)
unfolding unclosed
unclosed-opener ls i h = elim (Option-cases (unclosed_from 0 none ls)) [
  | inl closed ↦ absurd (ground (arith, h, closed))
  | inr (o, e) ↦ elim (unclosed_from-cases 0 none ls o e) [
    | inl never ↦ cc
    | inr (k, l, at_k, there, opens) ↦
        let same : k ≡ i = ground (arith, h, e, at_k) in (l, rw (← same) there, opens)
  ]
]

close_fences-closed :
    (f : ℕ) (ls : List Line) → openers ls ≤ f → unclosed (close_fences f ls) ≡ none
unfolding close_fences
close_fences-closed zero ls h = elim (Option-cases (unclosed ls)) [
  | inl closed ↦ closed
  | inr (i, left) ↦
      let (l, there, opens) = unclosed-opener ls i left in
      absurd (omega (arith, escape_line-openers i ls l there opens))
]
close_fences-closed (suc f) ls h = elim (Option-cases (unclosed ls)) [
  | inl closed ↦ rw (closed, close_fences) closed
  | inr (i, left) ↦
      let (l, there, opens) = unclosed-opener ls i left in
      rw (left, close_fences)
        (close_fences-closed f (escape_line i ls)
          (omega (arith, escape_line-openers i ls l there opens)))
]

-- With a round for each line, which is what `neutralise` has, the second loop ends by its test:
-- no line of what it leaves opens a code fence that is still open at the end.
pub close_fences-enough : (ls : List Line) → unclosed (close_fences (length ls) ls) ≡ none
close_fences-enough ls = close_fences-closed (length ls) ls (openers-le ls)
