-- ===== src/Tests/MemoryTests.antt =====
-- Runs of memory.go.
use mathlib.Core.List.{Permᴰ}
use agentmemory.Prelude.{Bytes, codes, ◌≡◌, ◌↔◌, refl, true, false, none, [], ◌∷◌, ◌++◌, Map}
use agentmemory.Memory.{
  check_entry, valid_name, ok, err, bad_name, invalid, meta_hash_of, meta_text,
}
use agentmemory.Memory.EntryRules.{IsWellFormed, IsPair, check_entry-decides}
use agentmemory.Memory.NameGrammar.{IsKebab, valid_name-IsKebab}
use agentmemory.Memory.MetaEncoding.Order.{meta_hash_of-perm}
use agentmemory.Memory.MetaEncoding.Unambiguous.{sorted_pairs, meta_text-injective}
use agentmemory.Tests.Setup.{program, digest, style}

check_entry-decides_example : (check_entry style 4096 none ≡ ok tt) ↔ IsWellFormed style 4096
check_entry-decides_example = check_entry-decides style 4096 none

names :
    (valid_name (codes "code-style-2") ≡ true)
    × (valid_name (codes "code--style") ≡ false)
    × (valid_name (codes "-style") ≡ false)
    × (valid_name (codes "style-") ≡ false)
    × (valid_name (codes "Style") ≡ false)
unfolding valid_name
names = (refl, refl, refl, refl, refl)

bad_name_refused :
    check_entry (record style { name = codes "Style" }) 4096 none
    ≡ err (invalid (bad_name (codes "Style")))
unfolding program
bad_name_refused = refl

valid_name-IsKebab_example : (valid_name (codes "a-b") ≡ true) ↔ IsKebab (codes "a-b")
valid_name-IsKebab_example = valid_name-IsKebab (codes "a-b")

abbrev two_keys : Map Bytes
two_keys = (codes "b", codes "1") ∷ (codes "a", codes "2") ∷ []

abbrev two_keys_turned : Map Bytes
two_keys_turned = (codes "a", codes "2") ∷ (codes "b", codes "1") ∷ []

meta_hash_of-perm_example : meta_hash_of digest two_keys ≡ meta_hash_of digest two_keys_turned
unfolding program
meta_hash_of-perm_example =
    meta_hash_of-perm digest {m = two_keys} {m' = two_keys_turned} (Permᴰ.swap refl refl)
      (refl, (refl, tt))

meta_text_two : meta_text two_keys ≡ codes "a=2" ++ (b'\n' ∷ (codes "b=1" ++ b'\n' ∷ []))
unfolding meta_text program
meta_text_two = refl

IsPair-b : IsPair (codes "b", codes "1")
unfolding program
IsPair-b = record {
  key_named = refl;
  unreserved = refl;
  one_line = refl;
  trimmed = refl;
  is_utf8 = refl;
}

IsPair-a : IsPair (codes "a", codes "2")
unfolding program
IsPair-a = record {
  key_named = refl;
  unreserved = refl;
  one_line = refl;
  trimmed = refl;
  is_utf8 = refl;
}

meta_text-injective_example : sorted_pairs two_keys ≡ sorted_pairs two_keys_turned
unfolding meta_text program
meta_text-injective_example =
    meta_text-injective two_keys two_keys_turned (IsPair-b, (IsPair-a, tt))
      (IsPair-a, (IsPair-b, tt)) refl
