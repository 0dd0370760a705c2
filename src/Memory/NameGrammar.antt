-- ===== src/Memory/NameGrammar.antt =====
-- `ValidName` of memory.go against the grammar of its comment: groups of lowercase letters and
-- digits joined by single hyphens, up to 64 bytes.
use mathlib.Core.Path.{ap₂}
use agentmemory.Prelude.{
  ℕ, ◌≤◌, ◌<◌, Bytes, ◌≡◌, ◌↔◌, refl, Bool, true, false, inl, inr, List, [], ◌∷◌, ◌++◌, ap, arith,
  all_of, All, length, ◌==◌, Bool-cases, &&-true,
}
use agentmemory.Memory.Names.{is_alnum, valid_bytes, valid_name, max_name_bytes}

abbrev pub is_group : Bytes → Bool
is_group [] = false
is_group (c ∷ s) = all_of is_alnum (c ∷ s)

-- The later groups, each behind its hyphen.
abbrev pub joined : List Bytes → Bytes
joined [] = []
joined (g ∷ gs) = b'-' ∷ (g ++ joined gs)

-- One group or more, joined by hyphens, within the bound.
abbrev pub IsKebab : Bytes → Type 0
IsKebab s =
    (g : Bytes) × (gs : List Bytes) × (is_group g ≡ true)
    × All (λ h. is_group h ≡ true) gs
    × (s ≡ g ++ joined gs)
    × (length s ≤ max_name_bytes)

abbrev Split : ℕ → Bytes → Type 0
Split p s =
    (g : Bytes) × (gs : List Bytes) × (all_of is_alnum g ≡ true)
    × All (λ h. is_group h ≡ true) gs
    × (s ≡ g ++ joined gs)
    × ((p == b'-') ≡ true → is_group g ≡ true)

split : (p : ℕ) (s : Bytes) → valid_bytes p s ≡ true → Split p s
unfolding valid_bytes
split p [] h = ([], [], refl, tt, refl, ground arith)
split p (c ∷ s) h = elim (Bool-cases (is_alnum c)) [
  | inl letter ↦
      let (g, gs, all_g, all_gs, e, _) = split c s (ground (arith, letter)) in
      let whole : all_of is_alnum (c ∷ g) ≡ true = ground (arith, letter, all_g) in
      (c ∷ g, gs, whole, all_gs, ap (◌∷◌ c) e, λ _. whole)
  | inr other ↦
      let (hyphen, before) : ((c ≡ b'-') × ((p == b'-') ≡ false)) = ground (arith, other, h) in
      let (g, gs, _, all_gs, e, starts) = split c s (ground (arith, other, h)) in
      (
        [],
        g ∷ gs,
        refl,
        (starts (ground (arith, hyphen)), all_gs),
        ap₂ ◌∷◌ hyphen e,
        ground (arith, before),
      )
]

group-alnum : (g : Bytes) → is_group g ≡ true → all_of is_alnum g ≡ true
group-alnum [] h = refl
group-alnum (c ∷ g) h = h

alnum-hyphen : (c : ℕ) → is_alnum c ≡ true → (c == b'-') ≡ false
alnum-hyphen c h = ground arith

unsplit :
    (p : ℕ) (gs : List Bytes) (g : Bytes)
    → all_of is_alnum g ≡ true
    → All (λ h. is_group h ≡ true) gs
    → ((p == b'-') ≡ true → is_group g ≡ true)
    → valid_bytes p (g ++ joined gs) ≡ true
unfolding valid_bytes
unsplit p [] [] h hs starts = ground arith
unsplit p (g' ∷ gs) [] h hs starts =
    let ih = unsplit b'-' gs g' (group-alnum g' hs.0) hs.1 (λ _. hs.0) in ground (arith, ih, starts)
unsplit p gs (c ∷ g) h hs starts =
    let (letter, rest) = &&-true (is_alnum c) (all_of is_alnum g) h in
    rw letter (unsplit c gs g rest hs (λ e. absurd (ground (arith, e, alnum-hyphen c letter))))

nonempty : (g : Bytes) (gs : List Bytes) → is_group g ≡ true → 0 < length (g ++ joined gs)
nonempty [] gs h = ground arith
nonempty (c ∷ g) gs h = omega arith

-- `ValidName` accepts exactly the strings of at most 64 bytes that are one or more groups of
-- lowercase letters and digits, none of them empty, joined by single hyphens.
pub valid_name-IsKebab : (s : Bytes) → (valid_name s ≡ true) ↔ IsKebab s
unfolding valid_name
valid_name-IsKebab s = (to, from)
  where
    to : valid_name s ≡ true → IsKebab s
    to h =
        let (g, gs, _, all_gs, e, starts) = split b'-' s (ground (arith, h)) in
        (g, gs, starts refl, all_gs, e, ground (arith, h))

    from : IsKebab s → valid_name s ≡ true
    from (g, gs, is_g, all_gs, e, fits) =
        let ih = unsplit b'-' gs g (group-alnum g is_g) all_gs (λ _. is_g) in
        ground (arith, ih, ap (valid_bytes b'-') e, fits, nonempty g gs is_g, ap length e)
