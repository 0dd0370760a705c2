-- ===== src/MemStore/Live.antt =====
-- The nested map of memstore.go: what is read after a write and after a delete.
use agentmemory.Prelude.{
  Bytes, ◌≡◌, ◌&&◌, none, some, arith, Map, insert, remove, lookup-insert, lookup-remove, str_eq,
  str_eq_iff, if◌then◌else◌,
}
use agentmemory.Memory.{Entry}
use agentmemory.MemStore.{scope_map, live_entry, set_live, delete_live}

module _ (live : Map (Map Entry)) (s n s' n' : Bytes) where
  pub live_entry-set_live :
      (e : Entry)
      → live_entry (set_live live s n e) s' n'
        ≡ (if str_eq s s' && str_eq n n' then some e else live_entry live s' n')
  unfolding live_entry set_live scope_map
  live_entry-set_live e = ground (
    arith,
    lookup-insert s s' (insert n e (scope_map live s)) live,
    lookup-insert n n' e (scope_map live s),
    str_eq_iff s s',
  )

  pub live_entry-delete_live :
      live_entry (delete_live live s n) s' n'
      ≡ (if str_eq s s' && str_eq n n' then none else live_entry live s' n')
  unfolding live_entry delete_live scope_map
  live_entry-delete_live = ground (
    arith,
    lookup-insert s s' (remove n (scope_map live s)) live,
    lookup-remove n n' (scope_map live s),
    str_eq_iff s s',
  )
