-- ===== src/FileStore/FrontMatter/Metadata.antt =====
-- filestore/frontmatter.go: the lines of the metadata, and the map that they are read into.
use mathlib.Core.List.{append_assoc}
use agentmemory.Prelude.{
  Bytes, ◌≡◌, refl, ap, sym, ◌∙◌, Bool, true, false, ◌||◌, none, some, List, [], ◌∷◌, ◌++◌, map,
  arith, All, Map, lookup, insert, lookup-insert, str_eq, str_eq_iff, has_prefix, has_line_break,
  trim_space, Bool-cases, inl, inr, if◌then◌else◌,
}
use agentmemory.Memory.{valid_name, reserved_meta_key, meta_get, keys, sort, sort_insert}
use agentmemory.Memory.EntryRules.{IsPair}
use agentmemory.FileStore.FrontMatter.{delimiter, write_field, write_fields, cut_block}
use agentmemory.FileStore.FrontMatter.Cutting.{
  lacks, IsBlockLine, lines_text, joined, cut_str-block,
}
use agentmemory.FileStore.FrontMatter.FieldLines.{
  field_line, write_field_lem, field_line-IsBlockLine,
}

abbrev pub meta_line : Map Bytes → Bytes → Bytes
meta_line m k = field_line k (meta_get m k)

-- The metadata that the loop comes to.
unfoldable pub insert_all : Map Bytes → List Bytes → Map Bytes → Map Bytes
insert_all m [] out = out
insert_all m (k ∷ ks) out = insert_all m ks (insert k (meta_get m k) out)

pub record IsKey (m : Map Bytes) (k : Bytes) : Type 0 where
  pub named : valid_name k ≡ true
  pub unreserved : reserved_meta_key k ≡ false
  pub trimmed : trim_space (meta_get m k) ≡ meta_get m k
  pub one_line : lacks b'\n' (meta_get m k) ≡ true

pub mentioned : List Bytes → Bytes → Bool
mentioned [] k = false
mentioned (j ∷ ks) k = str_eq j k || mentioned ks k

pub lookup-insert_all :
    (m : Map Bytes) (ks : List Bytes) (out : Map Bytes) (k : Bytes)
    → lookup k (insert_all m ks out)
      ≡ (if mentioned ks k then some (meta_get m k) else lookup k out)
unfolding insert_all mentioned
lookup-insert_all m [] out k = refl
lookup-insert_all m (j ∷ ks) out k = ground (
  arith,
  lookup-insert_all m ks (insert j (meta_get m j) out) k,
  lookup-insert j k (meta_get m j) out,
  str_eq_iff j k,
)

pub mentioned-sort_insert :
    (j : Bytes) (ks : List Bytes) (k : Bytes)
    → mentioned (sort_insert j ks) k ≡ (str_eq j k || mentioned ks k)
unfolding mentioned sort_insert
mentioned-sort_insert j [] k = refl
mentioned-sort_insert j (i ∷ ks) k = ground (arith, mentioned-sort_insert j ks k)

pub mentioned-sort : (ks : List Bytes) (k : Bytes) → mentioned (sort ks) k ≡ mentioned ks k
unfolding mentioned sort
mentioned-sort [] k = refl
mentioned-sort (j ∷ ks) k =
    mentioned-sort_insert j (sort ks) k ∙ ap (λ b. str_eq j k || b) (mentioned-sort ks k)

pub lookup-keys :
    (m : Map Bytes) (k : Bytes)
    → lookup k m ≡ (if mentioned (keys m) k then some (meta_get m k) else none)
unfolding lookup keys mentioned meta_get
lookup-keys [] k = refl
lookup-keys ((j, v) ∷ m) k = ground (arith, lookup-keys m k)

pub write_fields_lem :
    (m : Map Bytes) (ks : List Bytes) (t : Bytes)
    → write_fields m ks ++ t ≡ lines_text (map (meta_line m) ks) ++ t
unfolding write_fields lines_text
write_fields_lem m [] t = refl
write_fields_lem m (k ∷ ks) t =
    append_assoc (write_field k (meta_get m k)) (write_fields m ks) t
    ∙ write_field_lem k (meta_get m k) (write_fields m ks ++ t)
    ∙ ap (λ s. meta_line m k ++ (b'\n' ∷ s)) (write_fields_lem m ks t)
    ∙ sym (append_assoc (meta_line m k) (b'\n' ∷ lines_text (map (meta_line m) ks)) t)

pub meta_lines-IsBlockLine :
    (m : Map Bytes) (ks : List Bytes) → All (IsKey m) ks → All IsBlockLine (map (meta_line m) ks)
meta_lines-IsBlockLine m [] h = tt
meta_lines-IsBlockLine m (k ∷ ks) h = (
  field_line-IsBlockLine k (meta_get m k) h.0.named h.0.one_line,
  meta_lines-IsBlockLine m ks h.1,
)

pub cut_block-lines :
    (l : Bytes) (ls : List Bytes) (content : Bytes)
    → All IsBlockLine (l ∷ ls)
    → has_prefix (lines_text (l ∷ ls) ++ (delimiter ++ content)) delimiter ≡ false
    → cut_block (delimiter ++ (lines_text (l ∷ ls) ++ (delimiter ++ content)))
      ≡ some (joined l ls, content)
unfolding cut_block has_prefix lines_text
cut_block-lines l ls content h first = rw first (cut_str-block l ls content h)

pub line_break-lacks : (v : Bytes) → has_line_break v ≡ false → lacks b'\n' v ≡ true
unfolding has_line_break
line_break-lacks [] h = refl
line_break-lacks (c ∷ v) h = ground (arith, h, line_break-lacks v)

-- What the rules for pairs say of the value under any key, the empty one included.
pub meta_get-rules :
    (m : Map Bytes) (k : Bytes)
    → All IsPair m
    → (trim_space (meta_get m k) ≡ meta_get m k) × (lacks b'\n' (meta_get m k) ≡ true)
unfolding meta_get lookup trim_space
meta_get-rules [] k h = (refl, refl)
meta_get-rules ((j, v) ∷ m) k h = elim (Bool-cases (str_eq j k)) [
  | inl same ↦ rw (same, meta_get) (h.0.trimmed, line_break-lacks v h.0.one_line)
  | inr other ↦ rw (other, meta_get) (meta_get-rules m k h.1)
]

pub keys-IsKey :
    (m whole : Map Bytes) → All IsPair whole → All IsPair m → All (IsKey whole) (keys m)
unfolding keys
keys-IsKey [] whole h a = tt
keys-IsKey ((k, v) ∷ m) whole h a =
    let (trimmed, one_line) = meta_get-rules whole k h in
    (
      record {
        named = a.0.key_named;
        unreserved = a.0.unreserved;
        trimmed = trimmed;
        one_line = one_line;
      },
      keys-IsKey m whole h a.1,
    )
