-- ===== src/FileStore/FrontMatter.antt =====
-- filestore/frontmatter.go: `encode`, `writeField`, `decode`. How a time is written in the format
-- RFC3339Nano and read from it are parameters.
pub mod Cutting
pub mod Trimming
pub mod FieldLines
pub mod Metadata
pub mod RoundTrip
use agentmemory.Prelude.{
  ℕ, zero, suc, Bytes, codes, Bool, true, false, Option, none, some, List, [], ◌∷◌, ◌++◌, Map,
  insert, length, drop, ◌==◌, str_eq, has_prefix, trim_space, if◌then◌else◌,
}
use agentmemory.Memory.{Entry, meta_get, keys, sort, valid_name}

abbrev pub delimiter : Bytes
delimiter = codes "---" ++ (b'\n' ∷ [])

-- `writeField`.
unfoldable pub write_field : Bytes → Bytes → Bytes
write_field key value =
    key ++ (b':' ∷ (if str_eq value [] then b'\n' ∷ [] else b' ' ∷ (value ++ (b'\n' ∷ []))))

-- The last loop of `encode`.
unfoldable pub write_fields : Map Bytes → List Bytes → Bytes
write_fields m [] = []
write_fields m (k ∷ ks) = write_field k (meta_get m k) ++ write_fields m ks

-- `strings.Cut` at a separator that is not empty: what stands before its first occurrence, and
-- what stands after.
unfoldable pub cut_str : Bytes → Bytes → Option (Bytes × Bytes)
cut_str sep [] = none
cut_str sep (c ∷ s) =
    let later : Option (Bytes × Bytes) = elim (cut_str sep s) [
      | none ↦ none
      | some (before, after) ↦ some (c ∷ before, after)
    ] in
    if has_prefix (c ∷ s) sep then some ([], drop (length sep) (c ∷ s)) else later

-- `strings.SplitSeq` at each line end.
unfoldable pub split_at_lines : Bytes → List Bytes
split_at_lines [] = [] ∷ []
split_at_lines (c ∷ s) =
    let rest = split_at_lines s in
    if c == b'\n' then [] ∷ rest else elim rest [ [] ↦ (c ∷ []) ∷ [] | l ∷ ls ↦ (c ∷ l) ∷ ls ]

-- `decoded`: 0 is the zero time.
pub record Decoded : Type 0 where
  pub meta : Map Bytes
  pub updated : ℕ
  pub content : Bytes

abbrev pub whole_file : Bytes → Decoded
whole_file s = record { meta = []; updated = 0; content = s }

-- The front matter's lines and the content, or `none` where there is no such block.
unfoldable pub cut_block : Bytes → Option (Bytes × Bytes)
unfolding cut_str
cut_block s =
    if has_prefix s delimiter
    then (let rest = drop (length delimiter) s in
        if has_prefix rest delimiter
        then some ([], drop (length delimiter) rest)
        else cut_str (b'\n' ∷ delimiter) rest)
    else none

module _ (format_time : ℕ → Bytes) (parse_time : Bytes → Option ℕ) where
  unfoldable pub encode : Entry → Bytes
  encode e =
      delimiter
      ++ (write_field (codes "name") e.name
          ++ (write_field (codes "updated") (format_time e.updated)
              ++ (write_fields e.meta (sort (keys e.meta)) ++ (delimiter ++ e.content))))

  -- The `switch` of `decode`, for a trimmed key and value.
  unfoldable pub take_field : Decoded → Bytes → Bytes → Decoded
  take_field d key value =
      if str_eq key (codes "name")
      then d
      else if str_eq key (codes "updated")
      then (elim (parse_time value) [ none ↦ d | some t ↦ record d { updated = t } ])
      else if valid_name key
      then record d { meta = insert key value d.meta }
      else d

  -- The body of the loop of `decode`.
  unfoldable pub take_line : Decoded → Bytes → Decoded
  take_line d line = elim (cut_str (b':' ∷ []) line) [
    | none ↦ d
    | some (key, value) ↦ take_field d (trim_space key) (trim_space value)
  ]

  unfoldable pub take_lines : Decoded → List Bytes → Decoded
  take_lines d [] = d
  take_lines d (l ∷ ls) = take_lines (take_line d l) ls

  unfoldable pub decode : Bytes → Decoded
  decode s = elim (cut_block s) [
    | none ↦ whole_file s
    | some (block, content) ↦ take_lines (whole_file content) (split_at_lines block)
  ]
