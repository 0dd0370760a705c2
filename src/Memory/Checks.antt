-- ===== src/Memory/Checks.antt =====
-- memory.go: `CheckEntry`.
use agentmemory.Prelude.{
  ℕ, ◌+◌, Bytes, codes, Bool, not, ◌&&◌, ◌||◌, Option, none, some, [], ◌∷◌, Map, length, ltb,
  str_eq, valid_utf8, trim_space, has_line_break,
}
use agentmemory.Memory.Model.{
  Entry, size, Result, ok, invalid, too_large, bad_scope, bad_name, no_content, content_not_utf8,
  meta_key_bad, meta_key_reserved, meta_spans_lines, meta_has_space, meta_not_utf8, meta_too_large,
  refuse_if, ◌>>=◌, ◌>>◌,
}
use agentmemory.Memory.Names.{valid_name, valid_scope}

abbrev pub max_meta_bytes : ℕ
max_meta_bytes = 1024

-- `reservedMetaKeys`.
unfoldable pub reserved_meta_key : Bytes → Bool
reserved_meta_key k = str_eq k (codes "name") || str_eq k (codes "updated")

-- What the loop of `CheckEntry` refuses of one key and value.
unfoldable pub check_pair : Bytes → Bytes → Result (Unit {0})
unfolding reserved_meta_key
check_pair k v = do
  refuse_if (not (valid_name k)) (invalid (meta_key_bad k))
  refuse_if (reserved_meta_key k) (invalid (meta_key_reserved k))
  refuse_if (has_line_break v) (invalid (meta_spans_lines k))
  refuse_if (not (str_eq (trim_space v) v)) (invalid (meta_has_space k))
  refuse_if (not (valid_utf8 v)) (invalid (meta_not_utf8 k))

-- The loop of `CheckEntry`: the number of bytes of the pairs that it has passed.
unfoldable pub check_meta : Map Bytes → ℕ → Result ℕ
unfolding check_pair
check_meta [] meta_bytes = ok meta_bytes
check_meta ((k, v) ∷ m) meta_bytes = do
  check_pair k v
  check_meta m (meta_bytes + length k + length v)

unfoldable pub check_entry : Entry → ℕ → Option Entry → Result (Unit {0})
unfolding check_meta
check_entry e limit stored = do
  refuse_if (not (valid_scope e.scope)) (invalid (bad_scope e.scope))
  refuse_if (not (valid_name e.name)) (invalid (bad_name e.name))
  refuse_if (str_eq e.content []) (invalid no_content)
  refuse_if (not (valid_utf8 e.content)) (invalid content_not_utf8)
  meta_bytes ← check_meta e.meta 0
  refuse_if (ltb max_meta_bytes meta_bytes) (invalid (meta_too_large meta_bytes))
  refuse_if (ltb 0 limit && ltb limit (length e.content)) (
      too_large (record {
        scope = e.scope;
        name = e.name;
        size = length e.content;
        limit = limit;
        stored = elim stored [ none ↦ none | some s ↦ some (size s) ];
      }))
