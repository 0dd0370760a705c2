-- ===== src/MemStore.antt =====
-- memstore.go: the in-memory store. An operation takes the state, what the context carries and
-- what the clock reads, and returns its result beside the new state; the mutex makes each
-- operation one step. `cloneEntry` copies a map, which a model of values need not.
pub mod Live
pub mod Replay
pub mod Invariant
pub mod Calls
pub mod Reads
pub mod History
pub mod Listing
pub mod Searching
use agentmemory.Prelude.{
  ℕ, ◌+◌, Bytes, true, false, Option, none, some, List, [], ◌∷◌, ◌++◌, Map, lookup, insert, remove,
  length, drop, ltb, if◌then◌else◌,
}
use agentmemory.Memory.{
  Entry, Change, not_found, Result, ok, err, ◌>>◌, Context, session_from, check_ref, check_scope,
  check_entry, hash_of, meta_hash_of, str_le, PutOption, resolve_put_options, stored_hash, base_for,
  check_options,
}

pub record MemStore : Type 0 where
  pub max : ℕ
  pub live : Map (Map Entry)
  pub journal : List Change

abbrev pub default_max_entry_bytes : ℕ
default_max_entry_bytes = 4096

-- `NewMemStore` with `WithMaxEntryBytes(n)`, or with `default_max_entry_bytes`.
unfoldable pub new_mem_store : ℕ → MemStore
new_mem_store n = record { max = n; live = []; journal = [] }

-- `m.live[scope]`: the nil map where the scope has none.
unfoldable pub scope_map : Map (Map Entry) → Bytes → Map Entry
unfolding lookup
scope_map live scope = elim (lookup scope live) [ none ↦ [] | some es ↦ es ]

-- `m.live[scope][name]`.
unfoldable pub live_entry : Map (Map Entry) → Bytes → Bytes → Option Entry
unfolding scope_map
live_entry live scope name = lookup name (scope_map live scope)

-- `m.live[e.Scope][e.Name] = e`, with the scope's map made if there is none.
unfoldable pub set_live : Map (Map Entry) → Bytes → Bytes → Entry → Map (Map Entry)
unfolding scope_map insert
set_live live scope name e = insert scope (insert name e (scope_map live scope)) live

-- `delete(m.live[scope], name)`.
unfoldable pub delete_live : Map (Map Entry) → Bytes → Bytes → Map (Map Entry)
unfolding scope_map insert remove
delete_live live scope name = insert scope (remove name (scope_map live scope)) live

unfoldable pub get : MemStore → Bytes → Bytes → Result Entry
get m scope name = do
  check_ref scope name
  elim (live_entry m.live scope name) [ none ↦ err (not_found scope name) | some e ↦ ok e ]

-- `sort.Slice` by name, here by insertion.
unfoldable pub insert_by_name : Entry → List Entry → List Entry
insert_by_name e [] = e ∷ []
insert_by_name e (f ∷ l) = if str_le e.name f.name then e ∷ f ∷ l else f ∷ insert_by_name e l

unfoldable pub sort_by_name : Map Entry → List Entry
unfolding insert_by_name
sort_by_name [] = []
sort_by_name ((_, e) ∷ m) = insert_by_name e (sort_by_name m)

unfoldable pub list_locked : MemStore → Bytes → List Entry
unfolding sort_by_name scope_map
list_locked m scope = sort_by_name (scope_map m.live scope)

unfoldable pub list : MemStore → Bytes → Result (List Entry)
unfolding list_locked
list m scope = do check_scope scope; ok (list_locked m scope)

-- `appendLocked`: the record, and the journal with it.
unfoldable pub append_locked :
    List Change → Context → Entry → Bytes → Bytes → ℕ → Change × List Change
append_locked journal ctx e prev replaced at =
    let c : Change = record {
      seq = length journal + 1;
      entry = e;
      prev = prev;
      replaced = replaced;
      session = session_from ctx;
      source = [];
      at = at;
    } in
    (c, journal ++ c ∷ [])

unfoldable pub forget_found : MemStore → Context → ℕ → Entry → Bytes → Bytes → Change × MemStore
unfolding append_locked delete_live
forget_found m ctx now e scope name =
    let gone : Entry = record e { deleted = true; updated = now } in
    let (c, journal) = append_locked m.journal ctx gone e.hash e.hash now in
    (c, record m { live = delete_live m.live scope name; journal = journal })

-- `Forget`.
unfoldable pub forget : MemStore → Context → ℕ → Bytes → Bytes → Result Change × MemStore
unfolding live_entry forget_found
forget m ctx now scope name = elim (check_ref scope name) [
  | err x ↦ (err x, m)
  | ok _ ↦ elim (live_entry m.live scope name) [
    | none ↦ (err (not_found scope name), m)
    | some e ↦ let (c, m') = forget_found m ctx now e scope name in (ok c, m')
  ]
]

-- `Journal`: the changes that it yields, none of them an error.
unfoldable pub journal_after : MemStore → ℕ → List Change
journal_after m after = if ltb after (length m.journal) then drop after m.journal else []

unfoldable pub last_seq : MemStore → ℕ
last_seq m = length m.journal

module _ (digest : Bytes → Bytes) where
  -- The entry as `Put` stores it.
  unfoldable pub stamp : Entry → ℕ → Entry
  stamp e now = record e {
    hash = hash_of digest e.content;
    meta_hash = meta_hash_of digest e.meta;
    updated = now;
    deleted = false;
  }

  unfoldable pub put_checked :
      MemStore → Context → ℕ → Entry → List PutOption → Option Entry → Change × MemStore
  unfolding stamp append_locked set_live stored_hash
  put_checked m ctx now e opts stored =
      let e' : Entry = stamp e now in
      let (c, journal) =
        append_locked m.journal ctx e' (base_for (resolve_put_options opts) stored)
          (stored_hash stored) now in
      (c, record m { live = set_live m.live e.scope e.name e'; journal = journal })

  -- `Put`.
  unfoldable pub put : MemStore → Context → ℕ → Entry → List PutOption → Result Change × MemStore
  unfolding put_checked live_entry
  put m ctx now e opts =
      let stored : Option Entry = live_entry m.live e.scope e.name in
      let checked : Result (Unit {0}) =
        check_entry e m.max stored
        >> check_options digest (resolve_put_options opts) e.scope e.name stored in
      elim checked [
        | err x ↦ (err x, m)
        | ok _ ↦ let (c, m') = put_checked m ctx now e opts stored in (ok c, m')
      ]
