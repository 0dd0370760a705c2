-- ===== src/Memory/Hashes.antt =====
-- memory.go: `Hash`, `MetaHash`. The SHA-256 digest in hex is a parameter, `digest`.
use agentmemory.Prelude.{
  Bytes, codes, Bool, true, false, List, [], ◌∷◌, ◌++◌, Map, ltb, ◌==◌, if◌then◌else◌,
}
use agentmemory.Memory.Model.{meta_get}

abbrev pub hash_prefix : Bytes
hash_prefix = codes "sha256:"

-- `Hash`.
unfoldable pub hash_of : (Bytes → Bytes) → Bytes → Bytes
hash_of digest content = hash_prefix ++ digest content

-- The order of strings, byte by byte.
unfoldable pub str_le : Bytes → Bytes → Bool
str_le [] t = true
str_le (a ∷ s) [] = false
str_le (a ∷ s) (b ∷ t) = if a == b then str_le s t else ltb a b

-- `slices.Sort` on strings: any sort gives the same list, here by insertion.
unfoldable pub sort_insert : Bytes → List Bytes → List Bytes
sort_insert k [] = k ∷ []
sort_insert k (j ∷ l) = if str_le k j then k ∷ j ∷ l else j ∷ sort_insert k l

unfoldable pub sort : List Bytes → List Bytes
unfolding sort_insert str_le
sort [] = []
sort (k ∷ l) = sort_insert k (sort l)

-- The first loop of `MetaHash`.
unfoldable pub keys {ℓ} : {V : Type ℓ} → Map V → List Bytes
keys [] = []
keys ((k, v) ∷ m) = k ∷ keys m

-- The second loop of `MetaHash`: a line for each key.
unfoldable pub meta_lines : Map Bytes → List Bytes → Bytes
unfolding meta_get
meta_lines m [] = []
meta_lines m (k ∷ ks) = k ++ (b'=' ∷ meta_get m k ++ (b'\n' ∷ meta_lines m ks))

unfoldable pub meta_text : Map Bytes → Bytes
unfolding meta_lines keys sort
meta_text m = meta_lines m (sort (keys m))

unfoldable pub meta_hash_of : (Bytes → Bytes) → Map Bytes → Bytes
unfolding meta_text hash_of
meta_hash_of digest [] = []
meta_hash_of digest (kv ∷ m) = hash_of digest (meta_text (kv ∷ m))
