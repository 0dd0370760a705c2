-- ===== src/Memory/MetaEncoding/Unambiguous.antt =====
-- `MetaHash` of memory.go: its comment says that the form is unambiguous, since a key is a name
-- and a value one line.
use agentmemory.Prelude.{
  ℕ, Bytes, ◌≡◌, refl, ap, sym, ◌∙◌, Bool, true, false, not, List, [], ◌∷◌, ◌++◌, arith, All,
  all_of, Map, lookup, ◌==◌, ==_iff, has_line_break,
}
use agentmemory.Memory.Model.{meta_get}
use agentmemory.Memory.Names.{valid_name, valid_bytes}
use agentmemory.Memory.EntryRules.{IsPair}
use agentmemory.Memory.Hashes.{keys, sort, meta_lines, meta_text}
use agentmemory.Memory.MetaEncoding.Sorting.{All-sort}

-- The keys in order, each with its value.
abbrev pub pairs_of : Map Bytes → List Bytes → Map Bytes
pairs_of m [] = []
pairs_of m (k ∷ ks) = (k, meta_get m k) ∷ pairs_of m ks

unfoldable pub sorted_pairs : Map Bytes → Map Bytes
sorted_pairs m = pairs_of m (sort (keys m))

abbrev lacks : ℕ → Bytes → Bool
lacks c s = all_of (λ b. not (b == c)) s

-- What stands before the first separator and after it is determined by the whole.
cut_unique :
    (c : ℕ) (s s' t t' : Bytes)
    → lacks c s ≡ true
    → lacks c s' ≡ true
    → s ++ (c ∷ t) ≡ s' ++ (c ∷ t')
    → (s ≡ s') × (t ≡ t')
cut_unique c [] [] t t' h h' e = (refl, ground (arith, e))
cut_unique c [] (b ∷ s') t t' h h' e = ground (arith, e, ==_iff b c)
cut_unique c (a ∷ s) [] t t' h h' e = ground (arith, e, ==_iff a c)
cut_unique c (a ∷ s) (b ∷ s') t t' h h' e =
    let (p, q) =
      cut_unique c s s' t t' (ground (arith, h)) (ground (arith, h')) (ground (arith, e)) in
    (ground (arith, e, p), q)

abbrev OneLine : Bytes × Bytes → Type 0
OneLine kv = (lacks b'=' kv.0 ≡ true) × (lacks b'\n' kv.1 ≡ true)

abbrev encode : Map Bytes → Bytes
encode [] = []
encode ((k, v) ∷ m) = k ++ (b'=' ∷ (v ++ (b'\n' ∷ encode m)))

append-cons-ne : {A : Type 0} (s : List A) (c : A) (t : List A) → s ++ (c ∷ t) ≡ [] → ⊥
append-cons-ne [] c t e = cc
append-cons-ne (a ∷ s) c t e = cc

encode-injective :
    (m m' : Map Bytes) → All OneLine m → All OneLine m' → encode m ≡ encode m' → m ≡ m'
encode-injective [] [] h h' e = refl
encode-injective [] ((k, v) ∷ m') h h' e = absurd (append-cons-ne k _ _ (sym e))
encode-injective ((k, v) ∷ m) [] h h' e = absurd (append-cons-ne k _ _ e)
encode-injective ((k, v) ∷ m) ((k', v') ∷ m') h h' e =
    let (ek, e') = cut_unique b'=' k k' _ _ h.0.0 h'.0.0 e in
    let (ev, e'') = cut_unique b'\n' v v' _ _ h.0.1 h'.0.1 e' in
    let em = encode-injective m m' h.1 h'.1 e'' in λ i. (ek i, ev i) ∷ em i

meta_lines-encode : (m : Map Bytes) (ks : List Bytes) → meta_lines m ks ≡ encode (pairs_of m ks)
unfolding meta_lines
meta_lines-encode m [] = refl
meta_lines-encode m (k ∷ ks) =
    ap (λ t. k ++ (b'=' ∷ (meta_get m k ++ (b'\n' ∷ t)))) (meta_lines-encode m ks)

valid_bytes-lacks : (p : ℕ) (s : Bytes) → valid_bytes p s ≡ true → lacks b'=' s ≡ true
unfolding valid_bytes
valid_bytes-lacks p [] h = refl
valid_bytes-lacks p (c ∷ s) h = ground (arith, valid_bytes-lacks c s)

valid_name-lacks : (s : Bytes) → valid_name s ≡ true → lacks b'=' s ≡ true
unfolding valid_name
valid_name-lacks s h = ground (arith, valid_bytes-lacks b'-' s)

one_line-lacks : (v : Bytes) → has_line_break v ≡ false → lacks b'\n' v ≡ true
unfolding has_line_break
one_line-lacks [] h = refl
one_line-lacks (c ∷ v) h = ground (arith, one_line-lacks v)

meta_get-one_line : (m : Map Bytes) (k : Bytes) → All IsPair m → lacks b'\n' (meta_get m k) ≡ true
unfolding meta_get lookup
meta_get-one_line [] k h = refl
meta_get-one_line ((j, v) ∷ m) k h =
    ground (arith, one_line-lacks v h.0.one_line, meta_get-one_line m k h.1)

keys-lacks : (m : Map Bytes) → All IsPair m → All (λ k. lacks b'=' k ≡ true) (keys m)
unfolding keys
keys-lacks [] h = tt
keys-lacks ((k, v) ∷ m) h = (valid_name-lacks k h.0.key_named, keys-lacks m h.1)

pairs_of-OneLine :
    (m : Map Bytes) (ks : List Bytes)
    → All IsPair m
    → All (λ k. lacks b'=' k ≡ true) ks
    → All OneLine (pairs_of m ks)
pairs_of-OneLine m [] h l = tt
pairs_of-OneLine m (k ∷ ks) h l = ((l.0, meta_get-one_line m k h), pairs_of-OneLine m ks h l.1)

-- Metadata that keeps the rules for pairs is determined by the text that `MetaHash` hashes: two
-- with one text have the same keys with the same values.
pub meta_text-injective :
    (m m' : Map Bytes)
    → All IsPair m
    → All IsPair m'
    → meta_text m ≡ meta_text m'
    → sorted_pairs m ≡ sorted_pairs m'
unfolding meta_text sorted_pairs
meta_text-injective m m' h h' e =
    encode-injective _ _ (pairs_of-OneLine m _ h (All-sort _ (keys m) (keys-lacks m h)))
      (pairs_of-OneLine m' _ h' (All-sort _ (keys m') (keys-lacks m' h')))
      (sym (meta_lines-encode m _) ∙ e ∙ meta_lines-encode m' _)
