-- ===== src/Neutralise/Splitting.antt =====
-- render.go: `splitLines` loses nothing.
use agentmemory.Prelude.{ℕ, Bytes, ◌≡◌, refl, Bool, true, false, List, [], ◌∷◌, arith}
use agentmemory.Neutralise.Lines.{Line, push_byte, split_lines, join_lines}

-- A list of lines that is not empty, as `splitLines` gives.
abbrev has_line : List Line → Bool
has_line [] = false
has_line (l ∷ ls) = true

has_line-push_byte :
    (c : ℕ) (ls : List Line) → has_line ls ≡ true → has_line (push_byte c ls) ≡ true
has_line-push_byte c [] h = h
has_line-push_byte c (l ∷ ls) h = refl

has_line-split_lines : (s : Bytes) → has_line (split_lines s) ≡ true
unfolding split_lines
has_line-split_lines [] = refl
has_line-split_lines (c ∷ []) = ground arith
has_line-split_lines (c ∷ d ∷ s) =
    ground (arith, has_line-push_byte c (split_lines (d ∷ s)) (has_line-split_lines (d ∷ s)))

join_lines-push_byte :
    (c : ℕ) (ls : List Line) → has_line ls ≡ true → join_lines (push_byte c ls) ≡ c ∷ join_lines ls
unfolding join_lines
join_lines-push_byte c [] h = cc
join_lines-push_byte c (l ∷ ls) h = refl

-- The lines that `splitLines` gives, each with its line end, make up the content again.
pub join_lines-split_lines : (s : Bytes) → join_lines (split_lines s) ≡ s
unfolding split_lines join_lines
join_lines-split_lines [] = refl
join_lines-split_lines (c ∷ []) = ground arith
join_lines-split_lines (c ∷ d ∷ s) = ground (
  arith,
  join_lines-split_lines s,
  join_lines-split_lines (d ∷ s),
  join_lines-push_byte c (split_lines (d ∷ s)) (has_line-split_lines (d ∷ s)),
)
