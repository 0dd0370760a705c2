-- ===== src/Tests/Setup.antt =====
-- What the runs compute with, a digest for them, and entries of a user's memory.
use agentmemory.Prelude.{
  Bytes, codes, [], ◌∷◌, false, lookup, insert, remove, str_eq, valid_utf8, trim_space,
  has_line_break, has_prefix,
}
use agentmemory.Memory.{
  Entry, valid_name, check_scope, check_ref, check_entry, resolve_put_options, base_for,
  stored_hash, check_options, hash_of, meta_hash_of, str_le, session_from,
}
use agentmemory.MemStore.{
  MemStore, new_mem_store, scope_map, live_entry, set_live, delete_live, append_locked, stamp, get,
  put, put_checked, forget, forget_found, journal_after,
}

unfoldable pub program : Unit {0}
unfolding lookup insert remove str_eq valid_utf8 trim_space has_line_break has_prefix valid_name
    check_scope check_ref check_entry resolve_put_options base_for stored_hash check_options hash_of
    meta_hash_of str_le session_from new_mem_store scope_map live_entry set_live delete_live
    append_locked stamp get put put_checked forget forget_found journal_after
program = tt

-- Any function serves as the digest; here the identity.
abbrev pub digest : Bytes → Bytes
digest s = s

abbrev pub style : Entry
style = record {
  scope = codes "user";
  name = codes "code-style";
  content = codes "Use tabs.";
  meta = (codes "description", codes "How to indent") ∷ [];
  hash = [];
  meta_hash = [];
  updated = 0;
  deleted = false;
}

abbrev pub style_spaces : Entry
style_spaces = record style { content = codes "Use spaces." }

abbrev pub empty_store : MemStore
empty_store = record { max = 4096; live = []; journal = [] }
