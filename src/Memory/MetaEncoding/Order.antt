-- ===== src/Memory/MetaEncoding/Order.antt =====
-- `MetaHash` of memory.go: the order in which a range meets the keys does not matter.
use mathlib.Core.List.{Permᴰ}
use agentmemory.Prelude.{
  Bytes, ◌≡◌, refl, ap, ◌∙◌, none, Bool, true, false, List, [], ◌∷◌, arith, Map, lookup, str_eq_iff,
}
use agentmemory.Memory.Model.{meta_get}
use agentmemory.Memory.Hashes.{hash_of, keys, sort, meta_lines, meta_text, meta_hash_of}
use agentmemory.Memory.MetaEncoding.Sorting.{sort-perm}

-- No key stands twice, as in a map.
abbrev pub HasDistinctKeys {ℓ} : {V : Type ℓ} → Map V → Type ℓ
HasDistinctKeys [] = Unit
HasDistinctKeys {V} ((k, v) ∷ m) = (lookup k m ≡ none) × HasDistinctKeys m

keys-perm : {m m' : Map Bytes} → Permᴰ m m' → Permᴰ (keys m) (keys m')
unfolding keys
keys-perm Permᴰ.nil = Permᴰ.nil
keys-perm (Permᴰ.cons e p) = Permᴰ.cons (ap (λ kv. kv.0) e) (keys-perm p)
keys-perm (Permᴰ.swap e e') = Permᴰ.swap (ap (λ kv. kv.0) e) (ap (λ kv. kv.0) e')
keys-perm (Permᴰ.trans p q) = Permᴰ.trans (keys-perm p) (keys-perm q)

lookup-perm :
    {m m' : Map Bytes}
    → Permᴰ m m'
    → HasDistinctKeys m
    → HasDistinctKeys m' × ((k : Bytes) → lookup k m ≡ lookup k m')
unfolding lookup
lookup-perm Permᴰ.nil d = (tt, λ k. refl)
lookup-perm (Permᴰ.cons {a = (j, v)} {b = (j', v')} e p) d =
    let (d', same) = lookup-perm p d.1 in
    ((ground (arith, d.0, e, same j'), d'), λ k. ground (arith, e, same k))
lookup-perm (Permᴰ.swap {a = (j, v)} {b = (i, w)} {a' = (j', v')} {b' = (i', w')} {l} e e') d = (
  (
    ground (arith, d.0, d.1.0, e, e', str_eq_iff i j, str_eq_iff i' j'),
    (ground (arith, d.0, d.1.0, e, e', str_eq_iff i j), d.1.1),
  ),
  λ k. ground (
    arith,
    d.0,
    e,
    e',
    str_eq_iff i j,
    str_eq_iff j k,
    str_eq_iff i k,
    str_eq_iff i' k,
    str_eq_iff j' k,
  ),
)
lookup-perm (Permᴰ.trans p q) d =
    let (d', same) = lookup-perm p d in
    let (d'', same') = lookup-perm q d' in (d'', λ k. same k ∙ same' k)

meta_lines-same :
    (m m' : Map Bytes) (ks : List Bytes)
    → ((k : Bytes) → lookup k m ≡ lookup k m')
    → meta_lines m ks ≡ meta_lines m' ks
unfolding meta_lines meta_get
meta_lines-same m m' [] same = refl
meta_lines-same m m' (k ∷ ks) same = rw (same k, meta_lines-same m m' ks same) refl

abbrev is_nil : Map Bytes → Bool
is_nil [] = true
is_nil (kv ∷ m) = false

is_nil-perm : {m m' : Map Bytes} → Permᴰ m m' → is_nil m ≡ is_nil m'
is_nil-perm Permᴰ.nil = refl
is_nil-perm (Permᴰ.cons e p) = refl
is_nil-perm (Permᴰ.swap e e') = refl
is_nil-perm (Permᴰ.trans p q) = is_nil-perm p ∙ is_nil-perm q

meta_hash_of-text :
    (digest : Bytes → Bytes) (m m' : Map Bytes)
    → is_nil m ≡ is_nil m'
    → meta_text m ≡ meta_text m'
    → meta_hash_of digest m ≡ meta_hash_of digest m'
unfolding meta_hash_of
meta_hash_of-text digest [] [] n e = refl
meta_hash_of-text digest [] (kv ∷ m') n e = cc
meta_hash_of-text digest (kv ∷ m) [] n e = cc
meta_hash_of-text digest (kv ∷ m) (kv' ∷ m') n e = ap (hash_of digest) e

-- Two orders in which a range may meet the same metadata give one `MetaHash`.
pub meta_hash_of-perm :
    (digest : Bytes → Bytes) {m m' : Map Bytes}
    → Permᴰ m m'
    → HasDistinctKeys m
    → meta_hash_of digest m ≡ meta_hash_of digest m'
meta_hash_of-perm digest {m} {m'} p d = meta_hash_of-text digest m m' (is_nil-perm p) (
    unfold meta_text in
    (meta_lines-same m m' (sort (keys m)) (lookup-perm p d).1
      ∙ ap (meta_lines m') (sort-perm (keys-perm p))))
