-- ===== src/Manifest/Distinct.antt =====
-- Lists without repetition under the deletes and cuts of `push` of render.go.
use mathlib.Core.Option.{some-injective}
use agentmemory.Prelude.{
  ℕ, zero, suc, ◌≤◌, Bytes, ◌≡◌, refl, ap, none, some, List, [], ◌∷◌, map, arith, length, get_elem?,
  take, str_eq_iff,
}
use agentmemory.Manifest.Fold.{index_of, delete_at}

-- No hash stands twice.
abbrev pub IsDistinct : List Bytes → Type 0
IsDistinct [] = Unit
IsDistinct (h ∷ hs) = (index_of h hs ≡ none) × IsDistinct hs

module _ (h : Bytes) where
  -- Deleting at its index takes the one occurrence of a hash out.
  pub delete_at-absent :
      (i : ℕ) (hs : List Bytes)
      → IsDistinct hs
      → index_of h hs ≡ some i
      → index_of h (delete_at i hs) ≡ none
  unfolding index_of delete_at
  delete_at-absent i [] d e = refl
  delete_at-absent zero (k ∷ hs) d e = ground (arith, d.0, e, str_eq_iff k h)
  delete_at-absent (suc i) (k ∷ hs) d e =
      ground (arith, d.0, e, str_eq_iff k h, delete_at-absent i hs d.1)

delete_at-index_of :
    (i : ℕ) (k : Bytes) (hs : List Bytes)
    → index_of k hs ≡ none
    → index_of k (delete_at i hs) ≡ none
unfolding index_of delete_at
delete_at-index_of i k [] e = refl
delete_at-index_of zero k (j ∷ hs) e = ground (arith, e)
delete_at-index_of (suc i) k (j ∷ hs) e = ground (arith, e, delete_at-index_of i k hs)

pub delete_at-IsDistinct : (i : ℕ) (hs : List Bytes) → IsDistinct hs → IsDistinct (delete_at i hs)
unfolding delete_at
delete_at-IsDistinct i [] d = tt
delete_at-IsDistinct zero (k ∷ hs) d = d.1
delete_at-IsDistinct (suc i) (k ∷ hs) d =
    (delete_at-index_of i k hs d.0, delete_at-IsDistinct i hs d.1)

take-index_of :
    (n : ℕ) (k : Bytes) (hs : List Bytes) → index_of k hs ≡ none → index_of k (take n hs) ≡ none
unfolding index_of
take-index_of zero k hs e = refl
take-index_of (suc n) k [] e = refl
take-index_of (suc n) k (j ∷ hs) e = ground (arith, e, take-index_of n k hs)

pub take-IsDistinct : (n : ℕ) (hs : List Bytes) → IsDistinct hs → IsDistinct (take n hs)
take-IsDistinct zero hs d = tt
take-IsDistinct (suc n) [] d = tt
take-IsDistinct (suc n) (k ∷ hs) d = (take-index_of n k hs d.0, take-IsDistinct n hs d.1)

module _ {ℓ κ} {A : Type ℓ} {B : Type κ} (f : A → B) where
  pub map-delete_at : (i : ℕ) (xs : List A) → map f (delete_at i xs) ≡ delete_at i (map f xs)
  unfolding delete_at
  map-delete_at i [] = refl
  map-delete_at zero (x ∷ xs) = refl
  map-delete_at (suc i) (x ∷ xs) = ap (◌∷◌ (f x)) (map-delete_at i xs)

  pub map-take : (n : ℕ) (xs : List A) → map f (take n xs) ≡ take n (map f xs)
  map-take zero xs = refl
  map-take (suc n) [] = refl
  map-take (suc n) (x ∷ xs) = ap (◌∷◌ (f x)) (map-take n xs)

pub length-delete_at {ℓ} : {A : Type ℓ} (i : ℕ) (xs : List A) → length (delete_at i xs) ≤ length xs
unfolding delete_at
length-delete_at i [] = omega arith
length-delete_at zero (x ∷ xs) = omega arith
length-delete_at (suc i) (x ∷ xs) = omega (arith, length-delete_at i xs)

-- In a list without repetition an element is found at its own position.
pub index_of-get_elem? :
    {A : Type 0} (f : A → Bytes) (xs : List A) (j : ℕ) (x : A)
    → IsDistinct (map f xs)
    → get_elem? xs j ≡ some x
    → index_of (f x) (map f xs) ≡ some j
unfolding index_of
index_of-get_elem? f [] j x d e = cc
index_of-get_elem? f (y ∷ xs) zero x d e =
    let q : f y ≡ f x = ap f (some-injective y x e) in ground (arith, q, str_eq_iff (f y) (f x))
index_of-get_elem? f (y ∷ xs) (suc j) x d e =
    ground (arith, d.0, index_of-get_elem? f xs j x d.1 e, str_eq_iff (f y) (f x))
