-- ===== src/Memory/MetaEncoding/Sorting.antt =====
-- The order of strings, and that sorting forgets the order of what it sorts.
use mathlib.Core.List.{Permᴰ}
use agentmemory.Prelude.{
  Bytes, ◌≡◌, refl, ◌∙◌, inl, inr, true, false, List, [], ◌∷◌, arith, Bool-cases, All,
}
use agentmemory.Memory.Hashes.{str_le, sort_insert, sort}

pub str_le_total : (s t : Bytes) → str_le s t ≡ false → str_le t s ≡ true
unfolding str_le
str_le_total [] t h = ground arith
str_le_total (a ∷ s) [] h = refl
str_le_total (a ∷ s) (b ∷ t) h = ground (arith, str_le_total s t)

pub str_le_antisym : (s t : Bytes) → str_le s t ≡ true → str_le t s ≡ true → s ≡ t
unfolding str_le
str_le_antisym [] [] h k = refl
str_le_antisym [] (b ∷ t) h k = ground arith
str_le_antisym (a ∷ s) [] h k = ground arith
str_le_antisym (a ∷ s) (b ∷ t) h k = ground (arith, str_le_antisym s t)

pub str_le_trans : (s t u : Bytes) → str_le s t ≡ true → str_le t u ≡ true → str_le s u ≡ true
unfolding str_le
str_le_trans [] t u h k = refl
str_le_trans (a ∷ s) [] u h k = ground arith
str_le_trans (a ∷ s) (b ∷ t) [] h k = ground arith
str_le_trans (a ∷ s) (b ∷ t) (c ∷ u) h k = ground (arith, str_le_trans s t u)

sort_insert_swap :
    (j k : Bytes) (l : List Bytes)
    → sort_insert j (sort_insert k l) ≡ sort_insert k (sort_insert j l)
unfolding sort_insert
sort_insert_swap j k [] = ground (arith, str_le_total j k, str_le_antisym j k)
sort_insert_swap j k (i ∷ l) = ground (
  arith,
  str_le_total j k,
  str_le_total j i,
  str_le_total k i,
  str_le_antisym j k,
  str_le_trans j k i,
  str_le_trans k j i,
  sort_insert_swap j k l,
)

pub sort-perm : {l l' : List Bytes} → Permᴰ l l' → sort l ≡ sort l'
unfolding sort
sort-perm Permᴰ.nil = refl
sort-perm (Permᴰ.cons e p) = λ i. sort_insert (e i) (sort-perm p i)
sort-perm (Permᴰ.swap {a} {b} {l = l} e e') =
    sort_insert_swap a b (sort l) ∙ λ i. sort_insert (e' i) (sort_insert (e i) (sort l))
sort-perm (Permᴰ.trans p q) = sort-perm p ∙ sort-perm q

module _ (P : Bytes → Type 0) where
  All-sort_insert : (k : Bytes) (l : List Bytes) → P k → All P l → All P (sort_insert k l)
  unfolding sort_insert
  All-sort_insert k [] p ps = (p, tt)
  All-sort_insert k (j ∷ l) p ps = elim (Bool-cases (str_le k j)) [
    | inl first ↦ rw first (p, ps)
    | inr later ↦ rw later (ps.0, All-sort_insert k l p ps.1)
  ]

  pub All-sort : (l : List Bytes) → All P l → All P (sort l)
  unfolding sort
  All-sort [] ps = tt
  All-sort (k ∷ l) ps = All-sort_insert k (sort l) ps.0 (All-sort l ps.1)
