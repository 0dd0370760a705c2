-- ===== src/Memory/Model.antt =====
-- memory.go: `Entry`, `Change`, the errors of a store, the context's session.
-- A string is its bytes, a time is a number (0 is the zero time), and metadata is a list of
-- pairs in the order in which a `range` meets them; Go's nil map is the empty list.
use agentmemory.Prelude.{ℕ, Bytes, codes, Bool, Option, none, some, [], Map, lookup, length}

pub record Entry : Type 0 where
  pub scope : Bytes
  pub name : Bytes
  pub content : Bytes
  pub meta : Map Bytes
  pub hash : Bytes
  pub meta_hash : Bytes
  pub updated : ℕ
  pub deleted : Bool

abbrev pub meta_description : Bytes
meta_description = codes "description"

-- `e.Meta[k]`: the empty string on a missing key.
unfoldable pub meta_get : Map Bytes → Bytes → Bytes
unfolding lookup
meta_get m k = elim (lookup k m) [ none ↦ [] | some v ↦ v ]

unfoldable pub description : Entry → Bytes
unfolding meta_get
description e = meta_get e.meta meta_description

abbrev pub size : Entry → ℕ
size e = length e.content

pub record Change : Type 0 where
  pub seq : ℕ
  pub entry : Entry
  pub prev : Bytes
  pub replaced : Bytes
  pub session : Bytes
  pub source : Bytes
  pub at : ℕ

-- Why `ErrInvalid` is returned, one constructor for each message.
pub data Reason : Type 0 where
  bad_scope : Bytes → Reason
  bad_name : Bytes → Reason
  no_content : Reason
  content_not_utf8 : Reason
  meta_key_bad : Bytes → Reason
  meta_key_reserved : Bytes → Reason
  meta_spans_lines : Bytes → Reason
  meta_has_space : Bytes → Reason
  meta_not_utf8 : Bytes → Reason
  meta_too_large : ℕ → Reason

-- `Stored` is -1 in the source where there is no live entry: `none` here.
pub record SizeError : Type 0 where
  pub scope : Bytes
  pub name : Bytes
  pub size : ℕ
  pub limit : ℕ
  pub stored : Option ℕ

pub record ConflictError : Type 0 where
  pub scope : Bytes
  pub name : Bytes
  pub want : Bytes
  pub have : Bytes
  pub is_meta : Bool

-- Why a manifest record is refused as malformed.
pub data ManifestFault : Type 0 where
  not_json : ManifestFault
  named_twice : ManifestFault
  keep_and_entry : ℕ → ManifestFault
  names_no_entry : ℕ → ManifestFault
  keeps_too_many : ℕ → ManifestFault
  neither_keep_nor_entry : ℕ → ManifestFault
  wrong_hash : Bytes → Bytes → ManifestFault

-- The errors of the package.
pub data Error : Type 0 where
  not_found : Bytes → Bytes → Error
  invalid : Reason → Error
  too_large : SizeError → Error
  conflict : ConflictError → Error
  unsupported : Bytes → Error
  meta_key_not_name : Bytes → Error
  manifest_base : Bytes → Error
  manifest_bad : ManifestFault → Error
  over_budget : Error
  scope_twice : Bytes → Error

pub data Result {ℓ} (A : Type ℓ) : Type ℓ where
  ok : A → Result A
  err : Error → Result A

infixl 5 ◌>>=◌ ◌>>◌
abbrev pub ◌>>=◌ {ℓ ℓ'} :
    {Got : Type ℓ} {Then : Type ℓ'} → Result Got → (Got → Result Then) → Result Then
err failure >>= next = err failure
ok value >>= next = next value

-- `if c { return err }`.
abbrev pub refuse_if : Bool → Error → Result (Unit {0})
refuse_if Bool.true e = err e
refuse_if Bool.false e = ok tt

abbrev pub ◌>>◌ {ℓ} : {Then : Type ℓ} → Result (Unit {0}) → Result Then → Result Then
check >> next = check >>= λ _. next

-- The values that a context carries, as far as a store looks at them.
pub data Context : Type 0 where
  background : Context
  with_session : Context → Bytes → Context

unfoldable pub session_from : Context → Bytes
session_from background = []
session_from (with_session ctx id) = id
