-- ===== src/MemStore/Invariant.antt =====
-- memstore.go: what holds of the store after any calls. Its live entries are what its journal
-- records, the records are numbered and chained, and every live entry keeps the rules.
use agentmemory.Prelude.{
  ℕ, ◌+◌, Bytes, ◌≡◌, refl, true, false, ◌&&◌, Option, some, List, [], ◌∷◌, ◌++◌, arith, All,
  All-append, length, str_eq, str_eq_iff, if◌then◌else◌,
}
use agentmemory.Memory.{
  Entry, Change, Context, valid_name, PutOption, stored_hash, hash_of, meta_hash_of,
}
use agentmemory.Memory.EntryRules.{IsWellFormed}
use agentmemory.MemStore.{
  MemStore, new_mem_store, live_entry, append_locked, put_checked, stamp, forget_found,
}
use agentmemory.MemStore.Live.{live_entry-set_live, live_entry-delete_live}
use agentmemory.MemStore.Replay.{
  replay, replay_from, replay-snoc, ChainedFrom, ChainedFrom-snoc, NumberedFrom, NumberedFrom-snoc,
}

-- The record is of an entry with names.
abbrev pub IsNamed : Change → Type 0
IsNamed c = (valid_name c.entry.scope ≡ true) × (valid_name c.entry.name ≡ true)

module _ (digest : Bytes → Bytes) where
  pub record IsStored (max : ℕ) (scope name : Bytes) (e : Entry) : Type 0 where
    pub in_scope : e.scope ≡ scope
    pub has_name : e.name ≡ name
    pub hashed : e.hash ≡ hash_of digest e.content
    pub meta_hashed : e.meta_hash ≡ meta_hash_of digest e.meta
    pub alive : e.deleted ≡ false
    pub well_formed : IsWellFormed e max

  pub record IsValid (m : MemStore) : Type 0 where
    pub replayed : (s n : Bytes) → live_entry m.live s n ≡ replay m.journal s n
    pub stored : (s n : Bytes) (e : Entry) → live_entry m.live s n ≡ some e → IsStored m.max s n e
    pub chained : ChainedFrom [] m.journal
    pub numbered : NumberedFrom 0 m.journal
    pub named : All IsNamed m.journal

  pub new_mem_store-IsValid : (n : ℕ) → IsValid (new_mem_store n)
  unfolding new_mem_store live_entry replay_from
  new_mem_store-IsValid n = record {
    replayed = λ s n. refl;
    stored = λ s n e h. ground (arith, h);
    chained = tt;
    numbered = tt;
    named = tt;
  }

  -- The rules look at nothing that the store stamps.
  stamp-IsWellFormed :
      (e : Entry) (now max : ℕ) → IsWellFormed e max → IsWellFormed (stamp digest e now) max
  unfolding stamp
  stamp-IsWellFormed e now max w = record {
    scope_named = w.scope_named;
    name_named = w.name_named;
    has_content = w.has_content;
    content_utf8 = w.content_utf8;
    pairs = w.pairs;
    meta_bounded = w.meta_bounded;
    bounded = w.bounded;
  }

  -- One record more: the parts of the invariant that are about the journal.
  module _ (m : MemStore) (v : IsValid m) (c : Change) where
    journal-chained :
        c.replaced ≡ stored_hash (live_entry m.live c.entry.scope c.entry.name)
        → ChainedFrom [] (m.journal ++ c ∷ [])
    journal-chained e =
        ChainedFrom-snoc [] m.journal c v.chained (rw (← v.replayed c.entry.scope c.entry.name) e)

    journal-numbered : c.seq ≡ length m.journal + 1 → NumberedFrom 0 (m.journal ++ c ∷ [])
    journal-numbered e = NumberedFrom-snoc 0 m.journal c v.numbered (omega arith)

    journal-IsNamed : IsNamed c → All IsNamed (m.journal ++ c ∷ [])
    journal-IsNamed h = All-append IsNamed m.journal (c ∷ []) v.named (h, tt)

  pub put_checked-IsValid :
      (m : MemStore) (ctx : Context) (now : ℕ) (e : Entry) (opts : List PutOption)
      → IsValid m
      → IsWellFormed e m.max
      → IsValid (put_checked digest m ctx now e opts (live_entry m.live e.scope e.name)).1
  unfolding put_checked append_locked stamp
  put_checked-IsValid m ctx now e opts v w =
      let c : Change = (put_checked digest m ctx now e opts (live_entry m.live e.scope e.name)).0 in
      let now_stored : IsStored m.max e.scope e.name (stamp digest e now) = record {
        in_scope = refl;
        has_name = refl;
        hashed = refl;
        meta_hashed = refl;
        alive = refl;
        well_formed = stamp-IsWellFormed e now m.max w;
      } in
      record {
        replayed =
            λ s n. rw (live_entry-set_live, replay-snoc m.journal c s n, v.replayed s n) refl;
        stored = λ s n f h.
            stored_split s n f (live_entry-set_live m.live e.scope e.name s n (stamp digest e now))
              h now_stored (v.stored s n f);
        chained = journal-chained m v c refl;
        numbered = journal-numbered m v c refl;
        named = journal-IsNamed m v c (w.scope_named, w.name_named);
      }
    where
      stored_split :
          (s n : Bytes) (f : Entry) {o : Option Entry}
          → o ≡ (
              if str_eq e.scope s && str_eq e.name n
              then some (stamp digest e now)
              else live_entry m.live s n)
          → o ≡ some f
          → IsStored m.max e.scope e.name (stamp digest e now)
          → (live_entry m.live s n ≡ some f → IsStored m.max s n f)
          → IsStored m.max s n f
      stored_split s n f p h new old =
          ground (arith, p, h, new, old, str_eq_iff e.scope s, str_eq_iff e.name n)

  pub forget_found-IsValid :
      (m : MemStore) (ctx : Context) (now : ℕ) (e : Entry) (scope name : Bytes)
      → IsValid m
      → live_entry m.live scope name ≡ some e
      → IsValid (forget_found m ctx now e scope name).1
  unfolding forget_found append_locked stored_hash
  forget_found-IsValid m ctx now e scope name v found =
      let c : Change = (forget_found m ctx now e scope name).0 in
      let st : IsStored m.max scope name e = v.stored scope name e found in
      record {
        replayed = λ s n.
            rw
              (
                live_entry-delete_live,
                replay-snoc m.journal c s n,
                v.replayed s n,
                st.in_scope,
                st.has_name,
              )
              refl;
        stored = λ s n f h.
            ground (arith, h, v.stored s n f, live_entry-delete_live m.live scope name s n);
        chained = journal-chained m v c (rw (st.in_scope, st.has_name, found) refl);
        numbered = journal-numbered m v c refl;
        named = journal-IsNamed m v c (
          rw st.in_scope (rw (← st.in_scope) st.well_formed.scope_named),
          st.well_formed.name_named,
        );
      }
