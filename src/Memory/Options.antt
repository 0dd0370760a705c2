-- ===== src/Memory/Options.antt =====
-- memory.go: `PutOptions`, the options, `BaseFor`, `Check`.
use agentmemory.Prelude.{
  Bytes, Bool, true, false, not, ◌&&◌, Option, none, some, List, [], ◌∷◌, str_eq, if◌then◌else◌,
}
use agentmemory.Memory.Model.{Entry, Result, conflict, refuse_if, ◌>>◌}
use agentmemory.Memory.Hashes.{meta_hash_of}

pub record PutOptions : Type 0 where
  pub if_hash_value : Bytes
  pub conditional : Bool
  pub base : Bytes
  pub has_base : Bool
  pub if_meta_hash_value : Bytes
  pub meta_conditional : Bool

abbrev pub no_options : PutOptions
no_options = record {
  if_hash_value = [];
  conditional = false;
  base = [];
  has_base = false;
  if_meta_hash_value = [];
  meta_conditional = false;
}

-- `PutOption`: the functions that the package offers, as data.
pub data PutOption : Type 0 where
  if_hash : Bytes → PutOption
  based_on : Bytes → PutOption
  if_meta_hash : Bytes → PutOption

unfoldable pub apply_option : PutOptions → PutOption → PutOptions
apply_option o (if_hash h) = record o { if_hash_value = h; conditional = true }
apply_option o (based_on h) = record o { base = h; has_base = true }
apply_option o (if_meta_hash h) = record o { if_meta_hash_value = h; meta_conditional = true }

unfoldable pub resolve_from : PutOptions → List PutOption → PutOptions
unfolding apply_option
resolve_from o [] = o
resolve_from o (opt ∷ opts) = resolve_from (apply_option o opt) opts

unfoldable pub resolve_put_options : List PutOption → PutOptions
unfolding resolve_from
resolve_put_options opts = resolve_from no_options opts

-- The hash of the live entry, the empty string for none.
unfoldable pub stored_hash : Option Entry → Bytes
stored_hash none = []
stored_hash (some e) = e.hash

unfoldable pub base_for : PutOptions → Option Entry → Bytes
unfolding stored_hash
base_for o stored =
    if o.conditional then o.if_hash_value else if o.has_base then o.base else stored_hash stored

module _ (digest : Bytes → Bytes) where
  unfoldable pub stored_meta_hash : Option Entry → Bytes
  stored_meta_hash none = []
  stored_meta_hash (some e) = meta_hash_of digest e.meta

  -- `PutOptions.Check`.
  unfoldable pub check_options : PutOptions → Bytes → Bytes → Option Entry → Result (Unit {0})
  unfolding stored_hash stored_meta_hash
  check_options o scope name stored = do
    let have = stored_hash stored
    refuse_if (o.conditional && not (str_eq have o.if_hash_value)) (
        conflict (record {
          scope = scope;
          name = name;
          want = o.if_hash_value;
          have = have;
          is_meta = false;
        }))
    let have_meta = stored_meta_hash stored
    refuse_if (o.meta_conditional && not (str_eq have_meta o.if_meta_hash_value)) (
        conflict (record {
          scope = scope;
          name = name;
          want = o.if_meta_hash_value;
          have = have_meta;
          is_meta = true;
        }))
