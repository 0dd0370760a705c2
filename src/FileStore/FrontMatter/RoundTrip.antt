-- ===== src/FileStore/FrontMatter/RoundTrip.antt =====
-- filestore/frontmatter.go: `decode` reads back what `encode` wrote.
use mathlib.Core.List.{append_assoc}
use agentmemory.Prelude.{
  ℕ, Bytes, codes, ◌≡◌, refl, ap, sym, ◌∙◌, true, false, Option, none, some, List, [], ◌∷◌, ◌++◌,
  map, arith, All, Map, lookup, insert, str_eq, has_prefix, trim_space, if◌then◌else◌,
}
use agentmemory.Memory.{Entry, valid_name, reserved_meta_key, meta_get, keys, sort}
use agentmemory.Memory.EntryRules.{IsPair}
use agentmemory.Memory.MetaEncoding.Sorting.{All-sort}
use agentmemory.FileStore.FrontMatter.{
  delimiter, split_at_lines, Decoded, whole_file, cut_block, encode, take_field, take_line,
  take_lines, decode,
}
use agentmemory.FileStore.FrontMatter.Cutting.{
  lacks, IsBlockLine, lines_text, joined, cut_str-byte, split_at_lines-joined,
}
use agentmemory.FileStore.FrontMatter.Trimming.{trim_space-name}
use agentmemory.FileStore.FrontMatter.FieldLines.{
  behind_colon, field_line, write_field_lem, trim_behind_colon, valid_name-lacks,
  field_line-IsBlockLine,
}
use agentmemory.FileStore.FrontMatter.Metadata.{
  meta_line, insert_all, IsKey, lookup-insert_all, mentioned-sort, lookup-keys, write_fields_lem,
  meta_lines-IsBlockLine, cut_block-lines, keys-IsKey,
}

module _ (format_time : ℕ → Bytes) (parse_time : Bytes → Option ℕ) where
  take_line-field_line :
      (d : Decoded) (k v : Bytes)
      → valid_name k ≡ true
      → trim_space v ≡ v
      → take_line format_time parse_time d (field_line k v)
        ≡ take_field format_time parse_time d k v
  unfolding take_line
  take_line-field_line d k v h t =
      rw (cut_str-byte b':' k (behind_colon v) (valid_name-lacks b':' k refl h), take_line)
        (ap (λ j. take_field format_time parse_time d j (trim_space (behind_colon v)))
            (trim_space-name k h)
          ∙ ap (take_field format_time parse_time d k) (trim_behind_colon v t))

  take_field-meta :
      (d : Decoded) (k v : Bytes)
      → valid_name k ≡ true
      → reserved_meta_key k ≡ false
      → take_field format_time parse_time d k v ≡ record d { meta = insert k v d.meta }
  unfolding take_field reserved_meta_key
  take_field-meta d k v h r = ground (arith, h, r)

  take_lines-meta :
      (m : Map Bytes) (ks : List Bytes) (d : Decoded)
      → All (IsKey m) ks
      → take_lines format_time parse_time d (map (meta_line m) ks)
        ≡ record d { meta = insert_all m ks d.meta }
  unfolding take_lines insert_all
  take_lines-meta m [] d h = refl
  take_lines-meta m (k ∷ ks) d h =
      ap (λ d'. take_lines format_time parse_time d' (map (meta_line m) ks))
        (take_line-field_line d k (meta_get m k) h.0.named h.0.trimmed
          ∙ take_field-meta d k (meta_get m k) h.0.named h.0.unreserved)
      ∙ take_lines-meta m ks (record d { meta = insert k (meta_get m k) d.meta }) h.1

  abbrev name_line : Entry → Bytes
  name_line e = field_line (codes "name") e.name

  abbrev updated_line : Entry → Bytes
  updated_line e = field_line (codes "updated") (format_time e.updated)

  abbrev later_lines : Entry → List Bytes
  later_lines e = updated_line e ∷ map (meta_line e.meta) (sort (keys e.meta))

  encode_lem :
      (e : Entry)
      → encode format_time parse_time e
        ≡ delimiter ++ (lines_text (name_line e ∷ later_lines e) ++ (delimiter ++ e.content))
  unfolding encode lines_text
  encode_lem e =
      let ks = sort (keys e.meta) in
      let last = delimiter ++ e.content in
      let meta_text = lines_text (map (meta_line e.meta) ks) in
      ap (λ s. delimiter ++ s)
        (write_field_lem (codes "name") e.name _
          ∙ ap (λ s. name_line e ++ (b'\n' ∷ s))
              (write_field_lem (codes "updated") (format_time e.updated) _
                ∙ ap (λ s. updated_line e ++ (b'\n' ∷ s)) (write_fields_lem e.meta ks last)
                ∙ sym (append_assoc (updated_line e) (b'\n' ∷ meta_text) last))
          ∙ sym (append_assoc (name_line e) (b'\n' ∷ (updated_line e ++ (b'\n' ∷ meta_text))) last))

-- What is used of the format of times: it is read back, and is one line with no space around it.
pub record ReadsTimes (format_time : ℕ → Bytes) (parse_time : Bytes → Option ℕ) : Type 0 where
  pub reads : (t : ℕ) → parse_time (format_time t) ≡ some t
  pub trimmed : (t : ℕ) → trim_space (format_time t) ≡ format_time t
  pub one_line : (t : ℕ) → lacks b'\n' (format_time t) ≡ true

module _ (format_time : ℕ → Bytes) (parse_time : Bytes → Option ℕ)
    (times : ReadsTimes format_time parse_time) where
  take_name :
      (d : Decoded) (e : Entry)
      → valid_name e.name ≡ true
      → take_line format_time parse_time d (name_line format_time parse_time e) ≡ d
  unfolding take_field valid_name str_eq
  take_name d e h =
      take_line-field_line format_time parse_time d (codes "name") e.name refl
        (trim_space-name e.name h)

  take_updated :
      (d : Decoded) (e : Entry)
      → take_line format_time parse_time d (updated_line format_time parse_time e)
        ≡ record d { updated = e.updated }
  unfolding take_field valid_name str_eq
  take_updated d e =
      take_line-field_line format_time parse_time d (codes "updated") (format_time e.updated) refl
        (times.trimmed e.updated)
      ∙ rw (times.reads e.updated) refl

  decode_block :
      (s block content : Bytes)
      → cut_block s ≡ some (block, content)
      → decode format_time parse_time s
        ≡ take_lines format_time parse_time (whole_file content) (split_at_lines block)
  unfolding decode
  decode_block s block content h = rw (h, decode) refl

  block_lines :
      (e : Entry)
      → valid_name e.name ≡ true
      → All (IsKey e.meta) (sort (keys e.meta))
      → All IsBlockLine (name_line format_time parse_time e ∷ later_lines format_time parse_time e)
  unfolding valid_name
  block_lines e h ks = (
    field_line-IsBlockLine (codes "name") e.name refl (valid_name-lacks b'\n' e.name refl h),
    (
      field_line-IsBlockLine (codes "updated") (format_time e.updated) refl
          (times.one_line e.updated),
      meta_lines-IsBlockLine e.meta (sort (keys e.meta)) ks,
    ),
  )

  decode-encode_whole :
      (e : Entry)
      → valid_name e.name ≡ true
      → All (IsKey e.meta) (sort (keys e.meta))
      → decode format_time parse_time (encode format_time parse_time e) ≡ record {
        meta = insert_all e.meta (sort (keys e.meta)) [];
        updated = e.updated;
        content = e.content;
      }
  unfolding take_lines lines_text has_prefix
  decode-encode_whole e h ks =
      let lines = block_lines e h ks in
      let l = name_line format_time parse_time e in
      let ls = later_lines format_time parse_time e in
      let block = joined l ls in
      let start = whole_file e.content in
      ap (decode format_time parse_time) (encode_lem format_time parse_time e)
      ∙ decode_block _ block e.content (cut_block-lines l ls e.content lines refl)
      ∙ ap (take_lines format_time parse_time start) (split_at_lines-joined l ls lines)
      ∙ ap (λ d. take_lines format_time parse_time d ls) (take_name start e h)
      ∙ ap (λ d. take_lines format_time parse_time d (map (meta_line e.meta) (sort (keys e.meta))))
          (take_updated start e)
      ∙ take_lines-meta format_time parse_time e.meta (sort (keys e.meta)) _ ks

  -- An entry whose name is a name and whose metadata keeps the rules for pairs is read back
  -- from its file: its content byte for byte, its time, and under each key the value it had.
  pub decode-encode :
      (e : Entry)
      → valid_name e.name ≡ true
      → All IsPair e.meta
      → ((decode format_time parse_time (encode format_time parse_time e)).content ≡ e.content)
        × ((decode format_time parse_time (encode format_time parse_time e)).updated ≡ e.updated)
        × ((k : Bytes)
            → lookup k (decode format_time parse_time (encode format_time parse_time e)).meta
              ≡ lookup k e.meta)
  unfolding lookup
  decode-encode e h pairs =
      let ks = sort (keys e.meta) in
      let named = All-sort (IsKey e.meta) (keys e.meta) (keys-IsKey e.meta e.meta pairs pairs) in
      let whole = decode-encode_whole e h named in
      (
        ap (λ d. d.content) whole,
        ap (λ d. d.updated) whole,
        λ k.
            ap (λ d. lookup k d.meta) whole
            ∙ lookup-insert_all e.meta ks [] k
            ∙ ap (λ b. if b then some (meta_get e.meta k) else none)
                (mentioned-sort (keys e.meta) k)
            ∙ sym (lookup-keys e.meta k),
      )
