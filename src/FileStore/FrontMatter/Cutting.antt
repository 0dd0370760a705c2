-- ===== src/FileStore/FrontMatter/Cutting.antt =====
-- filestore/frontmatter.go: where `decode` cuts the text that `encode` writes.
use mathlib.Core.List.{append_assoc, append-nil}
use agentmemory.Prelude.{
  ℕ, Bytes, ◌≡◌, refl, ap, ◌∙◌, Bool, true, false, not, Option, none, some, List, [], ◌∷◌, ◌++◌,
  arith, All, all_of, ◌==◌, has_prefix,
}
use agentmemory.FileStore.FrontMatter.{delimiter, cut_str, split_at_lines}

abbrev pub lacks : ℕ → Bytes → Bool
lacks c s = all_of (λ b. not (b == c)) s

-- A line of a block: it does not begin with a dash.
pub record IsBlockLine (l : Bytes) : Type 0 where
  pub one_line : lacks b'\n' l ≡ true
  pub no_dash : has_prefix l (b'-' ∷ []) ≡ false

-- The text of some lines, each with its end.
unfoldable pub lines_text : List Bytes → Bytes
lines_text [] = []
lines_text (l ∷ ls) = l ++ (b'\n' ∷ lines_text ls)

-- The lines with ends between them.
unfoldable pub joined : Bytes → List Bytes → Bytes
joined l [] = l
joined l (k ∷ ls) = l ++ (b'\n' ∷ joined k ls)

pub cut_str-byte :
    (c : ℕ) (l t : Bytes) → lacks c l ≡ true → cut_str (c ∷ []) (l ++ (c ∷ t)) ≡ some (l, t)
unfolding cut_str has_prefix
cut_str-byte c [] t h = ground arith
cut_str-byte c (d ∷ l) t h = ground (arith, h, cut_str-byte c l t)

abbrev closing : Bytes
closing = b'\n' ∷ delimiter

prepend : Bytes → Option (Bytes × Bytes) → Option (Bytes × Bytes)
prepend l none = none
prepend l (some (before, after)) = some (l ++ before, after)

cut_str-line :
    (l t : Bytes)
    → lacks b'\n' l ≡ true
    → cut_str closing (l ++ (b'\n' ∷ t)) ≡ prepend l (cut_str closing (b'\n' ∷ t))
unfolding cut_str prepend has_prefix
cut_str-line [] t h = ground arith
cut_str-line (c ∷ l) t h = ground (arith, h, cut_str-line l t)

cut_str-newline :
    (t : Bytes)
    → has_prefix t (b'-' ∷ []) ≡ false
    → cut_str closing (b'\n' ∷ t) ≡ prepend (b'\n' ∷ []) (cut_str closing t)
unfolding cut_str prepend has_prefix
cut_str-newline [] h = refl
cut_str-newline (c ∷ t) h = ground (arith, h)

no_dash-append : (l t : Bytes) → IsBlockLine l → has_prefix (l ++ (b'\n' ∷ t)) (b'-' ∷ []) ≡ false
unfolding has_prefix
no_dash-append [] t h = refl
no_dash-append (c ∷ l) t h = h.no_dash

no_dash_rest :
    (k : Bytes) (ls : List Bytes) (content : Bytes)
    → IsBlockLine k
    → has_prefix (lines_text (k ∷ ls) ++ (delimiter ++ content)) (b'-' ∷ []) ≡ false
unfolding lines_text
no_dash_rest k ls content h =
    rw (append_assoc k (b'\n' ∷ lines_text ls) (delimiter ++ content)) (no_dash-append k _ h)

append_assoc_at :
    (l t d : Bytes)
    → cut_str closing ((l ++ (b'\n' ∷ t)) ++ d) ≡ cut_str closing (l ++ (b'\n' ∷ (t ++ d)))
append_assoc_at l t d = ap (cut_str closing) (append_assoc l (b'\n' ∷ t) d)

-- The first line that is a delimiter ends the block.
pub cut_str-block :
    (l : Bytes) (ls : List Bytes) (content : Bytes)
    → All IsBlockLine (l ∷ ls)
    → cut_str closing (lines_text (l ∷ ls) ++ (delimiter ++ content)) ≡ some (joined l ls, content)
unfolding lines_text joined prepend cut_str has_prefix
cut_str-block l [] content h = rw (append_assoc l (b'\n' ∷ []) (delimiter ++ content)) (
    cut_str-line l (delimiter ++ content) h.0.one_line ∙ ap (λ s. some (s, content)) (append-nil l))
cut_str-block l (k ∷ ls) content h =
    let rest = lines_text (k ∷ ls) ++ (delimiter ++ content) in
    append_assoc_at l (lines_text (k ∷ ls)) (delimiter ++ content)
    ∙ cut_str-line l rest h.0.one_line
    ∙ ap (prepend l) (cut_str-newline rest (no_dash_rest k ls content h.1.0))
    ∙ ap (λ r. prepend l (prepend (b'\n' ∷ []) r)) (cut_str-block k ls content h.1)

split_at_lines-line :
    (l t : Bytes) → lacks b'\n' l ≡ true → split_at_lines (l ++ (b'\n' ∷ t)) ≡ l ∷ split_at_lines t
unfolding split_at_lines
split_at_lines-line [] t h = refl
split_at_lines-line (c ∷ l) t h = ground (arith, h, split_at_lines-line l t)

split_at_lines-last : (l : Bytes) → lacks b'\n' l ≡ true → split_at_lines l ≡ l ∷ []
unfolding split_at_lines
split_at_lines-last [] h = refl
split_at_lines-last (c ∷ l) h = ground (arith, h, split_at_lines-last l)

pub split_at_lines-joined :
    (l : Bytes) (ls : List Bytes) → All IsBlockLine (l ∷ ls) → split_at_lines (joined l ls) ≡ l ∷ ls
unfolding joined
split_at_lines-joined l [] h = split_at_lines-last l h.0.one_line
split_at_lines-joined l (k ∷ ls) h =
    split_at_lines-line l (joined k ls) h.0.one_line ∙ ap (◌∷◌ l) (split_at_lines-joined k ls h.1)
