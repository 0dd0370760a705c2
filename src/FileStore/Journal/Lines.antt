-- ===== src/FileStore/Journal/Lines.antt =====
-- filestore/journal.go: the lines of a file that is read in two parts.
use agentmemory.Prelude.{
  ℕ, zero, suc, ◌+◌, Bytes, ◌≡◌, refl, ap, ◌⊎◌, inl, inr, none, some, List, [], ◌∷◌, ◌++◌, arith,
  length, take, ◌==◌, ==_iff, Bool-cases,
}
use agentmemory.FileStore.FrontMatter.{split_at_lines}
use agentmemory.FileStore.Journal.{complete_lines, last_index}

-- A text with a line end, cut at its last one.
pub record LastLine (s : Bytes) : Type 0 where
  pub before : Bytes
  pub last : Bytes
  pub text : s ≡ before ++ (b'\n' ∷ last)
  pub no_more : last_index b'\n' last ≡ none
  pub index : last_index b'\n' s ≡ some (length before)

pub last_index-cases : (s : Bytes) → (last_index b'\n' s ≡ none) ⊎ LastLine s
unfolding last_index
last_index-cases [] = inl refl
last_index-cases (c ∷ s) = elim (last_index-cases s) [
  | inr l ↦ inr record {
    before = c ∷ l.before;
    last = l.last;
    text = ap (◌∷◌ c) l.text;
    no_more = l.no_more;
    index = rw l.index refl;
  }
  | inl h ↦ elim (Bool-cases (c == b'\n')) [
    | inl is_end ↦ inr record {
      before = [];
      last = s;
      text = ap (λ b. b ∷ s) ((==_iff c b'\n').0 is_end);
      no_more = h;
      index = rw (h, is_end) refl;
    }
    | inr is_inner ↦ inl (rw (h, is_inner) refl)
  ]
]

pub record IsCons (ls : List Bytes) : Type 0 where
  pub first : Bytes
  pub others : List Bytes
  pub is_cons : ls ≡ first ∷ others

pub split_at_lines-IsCons : (s : Bytes) → IsCons (split_at_lines s)
unfolding split_at_lines
split_at_lines-IsCons [] = record { first = []; others = []; is_cons = refl }
split_at_lines-IsCons (c ∷ s) = elim (Bool-cases (c == b'\n')) [
  | inl is_end ↦ record { first = []; others = split_at_lines s; is_cons = rw is_end refl }
  | inr is_inner ↦
      let n = split_at_lines-IsCons s in
      record { first = c ∷ n.first; others = n.others; is_cons = rw (is_inner, n.is_cons) refl }
]

pub split_at_lines-append :
    (x y : Bytes) → split_at_lines (x ++ (b'\n' ∷ y)) ≡ split_at_lines x ++ split_at_lines y
unfolding split_at_lines
split_at_lines-append [] y = refl
split_at_lines-append (c ∷ x) y =
    let n = split_at_lines-IsCons x in
    elim (Bool-cases (c == b'\n')) [
      | inl is_end ↦ rw (is_end, split_at_lines-append x y) refl
      | inr is_inner ↦ rw (is_inner, split_at_lines-append x y, n.is_cons) refl
    ]

pub complete_lines-append :
    (x y : Bytes) → complete_lines (x ++ (b'\n' ∷ y)) ≡ split_at_lines x ++ complete_lines y
unfolding split_at_lines complete_lines
complete_lines-append [] y = refl
complete_lines-append (c ∷ x) y =
    let n = split_at_lines-IsCons x in
    elim (Bool-cases (c == b'\n')) [
      | inl is_end ↦ rw (is_end, complete_lines-append x y) refl
      | inr is_inner ↦ rw (is_inner, complete_lines-append x y, n.is_cons) refl
    ]

-- A text without a line end has no complete line, and is one line.
pub complete_lines-none : (s : Bytes) → last_index b'\n' s ≡ none → complete_lines s ≡ []
unfolding last_index complete_lines
complete_lines-none [] h = refl
complete_lines-none (c ∷ s) h = elim (last_index-cases s) [
  | inl k ↦ ground (arith, h, k, complete_lines-none s k)
  | inr l ↦ ground (arith, h, l.index)
]

pub split_at_lines-none : (s : Bytes) → last_index b'\n' s ≡ none → split_at_lines s ≡ s ∷ []
unfolding last_index split_at_lines
split_at_lines-none [] h = refl
split_at_lines-none (c ∷ s) h = elim (last_index-cases s) [
  | inl k ↦ ground (arith, h, k, split_at_lines-none s k)
  | inr l ↦ ground (arith, h, l.index)
]

pub take-prefix : (n : ℕ) (s x y : Bytes) → take n s ≡ x ++ y → take (length x) s ≡ x
take-prefix n s [] y h = refl
take-prefix zero s (c ∷ x) y h = ground (arith, h)
take-prefix (suc n) [] (c ∷ x) y h = ground (arith, h)
take-prefix (suc n) (d ∷ s) (c ∷ x) y h = ground (arith, h, take-prefix n s x y)

pub take-beyond : (m n : ℕ) (x y : Bytes) → m ≡ n + length x → take m (x ++ y) ≡ x ++ take n y
take-beyond m n [] y h = ap (λ k. take k y) (ground (arith, h))
take-beyond zero n (c ∷ x) y h = ground (arith, h)
take-beyond (suc m) n (c ∷ x) y h = ap (◌∷◌ c) (take-beyond m n x y (ground (arith, h)))

pub take-suc : (n : ℕ) (s : Bytes) → take n (take (suc n) s) ≡ take n s
take-suc zero s = refl
take-suc (suc n) [] = refl
take-suc (suc n) (c ∷ s) = ap (◌∷◌ c) (take-suc n s)
