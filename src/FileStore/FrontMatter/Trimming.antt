-- ===== src/FileStore/FrontMatter/Trimming.antt =====
-- filestore/frontmatter.go: what `strings.TrimSpace` leaves of the keys and values of the block.
use mathlib.Core.List.{reverse, reverse_aux, reverse-reverse}
use agentmemory.Prelude.{
  ℕ, Bytes, ◌≡◌, refl, ap, ◌∙◌, Bool, true, false, not, ◌&&◌, ◌||◌, List, [], ◌∷◌, map, arith,
  all_of, ◌==◌, has_prefix, lead_len, trim_from, trim_space, spaces,
}
use agentmemory.Memory.{is_alnum, valid_bytes, valid_name}

abbrev pub is_name_byte : ℕ → Bool
is_name_byte c = is_alnum c || c == b'-'

-- No encoding in the list begins with the byte.
abbrev avoids : ℕ → List Bytes → Bool
avoids c [] = true
avoids c ([] ∷ es) = false
avoids c ((d ∷ e) ∷ es) = not (c == d) && avoids c es

lead_len-avoids :
    (c : ℕ) (s : Bytes) (es : List Bytes) → avoids c es ≡ true → lead_len es (c ∷ s) ≡ 0
unfolding lead_len has_prefix
lead_len-avoids c s [] h = refl
lead_len-avoids c s ([] ∷ es) h = cc
lead_len-avoids c s ((d ∷ e) ∷ es) h = ground (arith, h, lead_len-avoids c s es)

name_byte-avoids : (c : ℕ) → is_name_byte c ≡ true → avoids c spaces ≡ true
unfolding spaces
name_byte-avoids c h = ground (arith, h)

name_byte-avoids_reversed : (c : ℕ) → is_name_byte c ≡ true → avoids c (map reverse spaces) ≡ true
unfolding spaces
name_byte-avoids_reversed c h = ground (arith, h)

trim_from-names :
    (s : Bytes) (es : List Bytes)
    → ((c : ℕ) → is_name_byte c ≡ true → avoids c es ≡ true)
    → all_of is_name_byte s ≡ true
    → trim_from es 0 s ≡ s
unfolding trim_from
trim_from-names [] es f h = refl
trim_from-names (c ∷ s) es f h =
    rw (lead_len-avoids c s es (f c (ground (arith, h))), trim_from) refl

all_of-reverse_aux :
    (p : ℕ → Bool) (s t : Bytes)
    → all_of p s ≡ true
    → all_of p t ≡ true
    → all_of p (reverse_aux s t) ≡ true
all_of-reverse_aux p [] t h k = k
all_of-reverse_aux p (c ∷ s) t h k =
    all_of-reverse_aux p s (c ∷ t) (ground (arith, h)) (ground (arith, h, k))

pub valid_bytes-name :
    (prev : ℕ) (s : Bytes) → valid_bytes prev s ≡ true → all_of is_name_byte s ≡ true
unfolding valid_bytes
valid_bytes-name prev [] h = refl
valid_bytes-name prev (c ∷ s) h = ground (arith, h, valid_bytes-name c s)

pub trim_space-names : (s : Bytes) → all_of is_name_byte s ≡ true → trim_space s ≡ s
unfolding trim_space
trim_space-names s names =
    ap (λ t. reverse (trim_from (map reverse spaces) 0 (reverse t)))
      (trim_from-names s spaces name_byte-avoids names)
    ∙ ap reverse (
        trim_from-names (reverse s) (map reverse spaces) name_byte-avoids_reversed
          (all_of-reverse_aux is_name_byte s [] names refl))
    ∙ reverse-reverse s

pub trim_space-name : (s : Bytes) → valid_name s ≡ true → trim_space s ≡ s
unfolding valid_name
trim_space-name s h = trim_space-names s (valid_bytes-name b'-' s (ground (arith, h)))

pub trim_space-blank : (v : Bytes) → trim_space (b' ' ∷ v) ≡ trim_space v
unfolding trim_space trim_from lead_len spaces has_prefix
trim_space-blank v = refl
