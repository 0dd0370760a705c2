-- ===== src/FileStore/Journal/Cutting.antt =====
-- filestore/journal.go: a journal cut behind its last line end.
use mathlib.Core.List.{append_assoc, append-nil}
use agentmemory.Prelude.{
  ◌+◌, ◌≤◌, Bytes, ◌≡◌, refl, sym, ap, ◌∙◌, inl, inr, none, List, [], ◌∷◌, ◌++◌, arith, length,
  drop, ◌==◌, Bool-cases,
}
use agentmemory.FileStore.FrontMatter.{split_at_lines}
use agentmemory.FileStore.Journal.{complete_lines, last_index, is_torn}
use agentmemory.FileStore.Journal.Lines.{
  last_index-cases, split_at_lines-IsCons, complete_lines-append, complete_lines-none,
}
use agentmemory.FileStore.Journal.Records.{lines_size}

pub lines_size-append : (ls ms : List Bytes) → lines_size (ls ++ ms) ≡ lines_size ls + lines_size ms
lines_size-append [] ms = ground arith
lines_size-append (l ∷ ls) ms = ground (arith, lines_size-append ls ms)

pub lines_size-split : (s : Bytes) → lines_size (split_at_lines s) ≡ length s + 1
unfolding split_at_lines
lines_size-split [] = ground arith
lines_size-split (c ∷ s) =
    let n = split_at_lines-IsCons s in
    let whole = sym (ap lines_size n.is_cons) ∙ lines_size-split s in
    elim (Bool-cases (c == b'\n')) [
      | inl is_end ↦ rw is_end (ground (arith, lines_size-split s))
      | inr is_inner ↦ rw (is_inner, n.is_cons) (ground (arith, whole))
    ]

drop-append : (s t : Bytes) → drop (length s) (s ++ t) ≡ t
drop-append [] t = refl
drop-append (c ∷ s) t = drop-append s t

pub length-snoc : (s : Bytes) → length (s ++ (b'\n' ∷ [])) ≡ length s + 1
length-snoc [] = refl
length-snoc (c ∷ s) = ground (arith, length-snoc s)

-- A file cut behind its last line end.
pub record Cut (file : Bytes) : Type 0 where
  pub done : Bytes
  pub torn : Bytes
  pub text : file ≡ done ++ torn
  pub size_done : lines_size (complete_lines file) ≡ length done
  pub one_line : last_index b'\n' torn ≡ none
  pub torn_end : is_torn file ≡ is_torn torn
  pub goes_on :
      (more : Bytes) → complete_lines (done ++ more) ≡ complete_lines file ++ complete_lines more

pub length-append : (s t : Bytes) → length (s ++ t) ≡ length s + length t
length-append [] t = ground arith
length-append (c ∷ s) t = ground (arith, length-append s t)

is_torn-append : (x y : Bytes) → is_torn (x ++ (b'\n' ∷ y)) ≡ is_torn (b'\n' ∷ y)
unfolding is_torn
is_torn-append [] y = refl
is_torn-append (c ∷ []) y = refl
is_torn-append (c ∷ d ∷ x) y = is_torn-append (d ∷ x) y

is_torn-newline : (y : Bytes) → is_torn (b'\n' ∷ y) ≡ is_torn y
unfolding is_torn
is_torn-newline [] = refl
is_torn-newline (c ∷ y) = refl

lines_end : (before more : Bytes) → (before ++ (b'\n' ∷ [])) ++ more ≡ before ++ (b'\n' ∷ more)
lines_end before more = append_assoc before (b'\n' ∷ []) more

pub Cut-file : (file : Bytes) → Cut file
Cut-file file = elim (last_index-cases file) [
  | inl h ↦
      let none_done = complete_lines-none file h in
      record {
        done = [];
        torn = file;
        text = refl;
        size_done = ap lines_size none_done;
        one_line = h;
        torn_end = refl;
        goes_on = λ more. ap (λ ls. ls ++ complete_lines more) (sym none_done);
      }
  | inr l ↦
      let done_lines : complete_lines file ≡ split_at_lines l.before =
        ap complete_lines l.text
        ∙ complete_lines-append l.before l.last
        ∙ ap (◌++◌ (split_at_lines l.before)) (complete_lines-none l.last l.no_more)
        ∙ append-nil (split_at_lines l.before) in
      record {
        done = l.before ++ (b'\n' ∷ []);
        torn = l.last;
        text = l.text ∙ sym (lines_end l.before l.last);
        size_done =
            ap lines_size done_lines ∙ lines_size-split l.before ∙ sym (length-snoc l.before);
        one_line = l.no_more;
        torn_end = ap is_torn l.text ∙ is_torn-append l.before l.last ∙ is_torn-newline l.last;
        goes_on = λ more.
            ap complete_lines (lines_end l.before more)
            ∙ complete_lines-append l.before more
            ∙ ap (λ ls. ls ++ complete_lines more) (sym done_lines);
      }
]

pub complete_lines-on :
    (file more : Bytes) (c : Cut file)
    → complete_lines (file ++ more) ≡ complete_lines file ++ complete_lines (c.torn ++ more)
complete_lines-on file more c =
    ap (λ t. complete_lines (t ++ more)) c.text
    ∙ ap complete_lines (append_assoc c.done c.torn more)
    ∙ c.goes_on (c.torn ++ more)

-- What stands behind the last line end of a file.
abbrev pub torn_text : Bytes → Bytes
torn_text file = drop (lines_size (complete_lines file)) file

pub drop-done :
    (file more : Bytes) (c : Cut file)
    → drop (lines_size (complete_lines file)) (file ++ more) ≡ c.torn ++ more
drop-done file more c =
    ap (λ n. drop n (file ++ more)) c.size_done
    ∙ ap (λ t. drop (length c.done) (t ++ more)) c.text
    ∙ ap (drop (length c.done)) (append_assoc c.done c.torn more)
    ∙ drop-append c.done (c.torn ++ more)

pub done-le :
    (file more : Bytes) (c : Cut file) → lines_size (complete_lines file) ≤ length (file ++ more)
done-le file more c = ground (
  arith,
  c.size_done,
  ap (λ t. length (t ++ more)) c.text,
  length-append (c.done ++ c.torn) more,
  length-append c.done c.torn,
)

pub torn-text : (file : Bytes) (c : Cut file) → torn_text file ≡ c.torn
torn-text file c =
    ap (drop (lines_size (complete_lines file))) (sym (append-nil file))
    ∙ drop-done file [] c
    ∙ append-nil c.torn
