-- ===== src/Memory/EntryRules.antt =====
-- The rules of `CheckEntry` of memory.go as a predicate, and that the check decides it.
use agentmemory.Prelude.{
  ℕ, ◌+◌, ◌≤◌, ◌<◌, Bytes, ◌≡◌, ◌≢◌, ◌↔◌, ◌⊎◌, inl, inr, refl, true, false, Option, [], ◌∷◌, arith,
  Map, All, length, str_eq_iff, valid_utf8, trim_space, has_line_break,
}
use agentmemory.Memory.Model.{Entry, size, Result, ok, err, Error, ◌>>=◌}
use agentmemory.Memory.Names.{valid_name}
use agentmemory.Memory.Checks.{
  reserved_meta_key, max_meta_bytes, check_pair, check_meta, check_entry,
}

pub record IsPair (kv : Bytes × Bytes) : Type 0 where
  pub key_named : valid_name kv.0 ≡ true
  pub unreserved : reserved_meta_key kv.0 ≡ false
  pub one_line : has_line_break kv.1 ≡ false
  pub trimmed : trim_space kv.1 ≡ kv.1
  pub is_utf8 : valid_utf8 kv.1 ≡ true

abbrev pub meta_size : Map Bytes → ℕ
meta_size [] = 0
meta_size ((k, v) ∷ m) = length k + length v + meta_size m

pub record IsWellFormed (e : Entry) (limit : ℕ) : Type 0 where
  pub scope_named : valid_name e.scope ≡ true
  pub name_named : valid_name e.name ≡ true
  pub has_content : e.content ≢ []
  pub content_utf8 : valid_utf8 e.content ≡ true
  pub pairs : All IsPair e.meta
  pub meta_bounded : meta_size e.meta ≤ max_meta_bytes
  pub bounded : 0 < limit → size e ≤ limit

pub Result-cases :
    {A : Type 0} (r : Result A) → ((a : A) × (r ≡ ok a)) ⊎ ((x : Error) × (r ≡ err x))
Result-cases (ok a) = inl (a, refl)
Result-cases (err x) = inr (x, refl)

check_pair-ok : (k v : Bytes) → check_pair k v ≡ ok tt → IsPair (k, v)
unfolding check_pair
check_pair-ok k v h = ground (arith, str_eq_iff (trim_space v) v)

IsPair-ok : (k v : Bytes) → IsPair (k, v) → check_pair k v ≡ ok tt
unfolding check_pair
IsPair-ok k v p = ground (arith, p, str_eq_iff (trim_space v) v)

pub bind-ok :
    {A B : Type 0} (r : Result A) (next : A → Result B) {final : B}
    → (r >>= next) ≡ ok final
    → (value : A) × (r ≡ ok value) × (next value ≡ ok final)
bind-ok (err failure) next h = cc
bind-ok (ok value) next h = (value, refl, h)

check_meta-ok :
    (m : Map Bytes) (n : ℕ) {r : ℕ} → check_meta m n ≡ ok r → All IsPair m × (r ≡ n + meta_size m)
unfolding check_meta
check_meta-ok [] n h = (tt, ground arith)
check_meta-ok ((k, v) ∷ m) n {r} h =
    let (_, p, q) = bind-ok (check_pair k v) (λ _. check_meta m (n + length k + length v)) h in
    let (ps, e) = check_meta-ok m (n + length k + length v) q in
    ((check_pair-ok k v p, ps), omega (arith, e))

ok-check_meta : (m : Map Bytes) (n : ℕ) → All IsPair m → check_meta m n ≡ ok (n + meta_size m)
unfolding check_meta
ok-check_meta [] n h = ground arith
ok-check_meta ((k, v) ∷ m) n h =
    rw (IsPair-ok k v h.0) (ground (arith, ok-check_meta m (n + length k + length v) h.1))

check_entry-IsWellFormed :
    (e : Entry) (limit : ℕ) (stored : Option Entry)
    → check_entry e limit stored ≡ ok tt
    → IsWellFormed e limit
unfolding check_entry
check_entry-IsWellFormed e limit stored h = elim (Result-cases (check_meta e.meta 0)) [
  | inl (r, passed) ↦ ground (arith, str_eq_iff e.content [], passed, check_meta-ok e.meta 0 passed)
  | inr (x, refused) ↦ ground (arith, refused)
]

IsWellFormed-check_entry :
    (e : Entry) (limit : ℕ) (stored : Option Entry)
    → IsWellFormed e limit
    → check_entry e limit stored ≡ ok tt
unfolding check_entry
IsWellFormed-check_entry e limit stored w =
    rw (ok-check_meta e.meta 0 w.pairs) (ground (arith, str_eq_iff e.content [], w.bounded))

-- `CheckEntry` accepts an entry exactly when its scope and name are names, its content is not
-- empty and is UTF-8, each metadata pair keeps the rules for pairs, the metadata is within its
-- bound, and the content is within the limit where the limit is positive, whatever is stored.
pub check_entry-decides :
    (e : Entry) (limit : ℕ) (stored : Option Entry)
    → (check_entry e limit stored ≡ ok tt) ↔ IsWellFormed e limit
check_entry-decides e limit stored =
    (check_entry-IsWellFormed e limit stored, IsWellFormed-check_entry e limit stored)
