-- ===== src/MemStore/Listing.antt =====
-- memstore.go: what `List` returns.
use mathlib.Core.Path.{subst}
use agentmemory.Prelude.{
  ℕ, Bytes, ◌≡◌, refl, sym, ap, ◌∙◌, Bool, true, false, Option, none, some, List, [], ◌∷◌, arith,
  All, Map, lookup, insert, remove, lookup-insert, lookup-remove, str_eq, str_eq_iff, str_eq_refl,
  Bool-cases, inl, inr, if◌then◌else◌,
}
use agentmemory.Memory.{Entry, Context, PutOption, str_le}
use agentmemory.Memory.MetaEncoding.Order.{HasDistinctKeys}
use agentmemory.Memory.MetaEncoding.Sorting.{str_le_antisym, str_le_trans}
use agentmemory.MemStore.{
  MemStore, new_mem_store, scope_map, live_entry, set_live, delete_live, insert_by_name,
  sort_by_name, list_locked, put, put_checked, forget, forget_found,
}
use agentmemory.MemStore.Calls.{
  Call, put_call, forget_call, step, run, put-cases, forget-cases, run-IsValid,
}

module _ {V : Type 0} where
  insert-HasDistinctKeys :
      (k : Bytes) (v : V) (m : Map V) → HasDistinctKeys m → HasDistinctKeys (insert k v m)
  unfolding insert lookup
  insert-HasDistinctKeys k v [] d = (refl, tt)
  insert-HasDistinctKeys k v ((j, w) ∷ m) d = elim (Bool-cases (str_eq j k)) [
    | inl same ↦ rw same (subst (λ i. lookup i m ≡ none) ((str_eq_iff j k).0 same) d.0, d.1)
    | inr other ↦ rw other (
      ground (arith, lookup-insert k j v m, d.0, other, str_eq_iff j k, str_eq_iff k j),
      insert-HasDistinctKeys k v m d.1,
    )
  ]

  remove-HasDistinctKeys :
      (k : Bytes) (m : Map V) → HasDistinctKeys m → HasDistinctKeys (remove k m)
  unfolding remove lookup
  remove-HasDistinctKeys k [] d = tt
  remove-HasDistinctKeys k ((j, w) ∷ m) d = elim (Bool-cases (str_eq j k)) [
    | inl same ↦ rw same (remove-HasDistinctKeys k m d.1)
    | inr other ↦
        rw other (ground (arith, lookup-remove k j m, d.0), remove-HasDistinctKeys k m d.1)
  ]

-- No scope's map has a key twice.
abbrev pub IsKeyed : Map (Map Entry) → Type 0
IsKeyed live = (s : Bytes) → HasDistinctKeys (scope_map live s)

scope_map-insert :
    (s s' : Bytes) (es : Map Entry) (live : Map (Map Entry))
    → scope_map (insert s es live) s' ≡ (if str_eq s s' then es else scope_map live s')
unfolding scope_map
scope_map-insert s s' es live = ground (arith, lookup-insert s s' es live)

insert-IsKeyed :
    (s : Bytes) (es : Map Entry) (live : Map (Map Entry))
    → HasDistinctKeys es
    → IsKeyed live
    → IsKeyed (insert s es live)
insert-IsKeyed s es live d k s' =
    subst HasDistinctKeys (sym (scope_map-insert s s' es live)) (either (str_eq s s'))
  where
    either : (b : Bool) → HasDistinctKeys (if b then es else scope_map live s')
    either true = d
    either false = k s'

module _ (digest : Bytes → Bytes) (m : MemStore) (ctx : Context) (now : ℕ)
    (k : IsKeyed m.live) where
  put-IsKeyed : (e : Entry) (opts : List PutOption) → IsKeyed (put digest m ctx now e opts).1.live
  unfolding put_checked set_live
  put-IsKeyed e opts = elim (put-cases digest m ctx now e opts) [
    | inl (_, _, q) ↦ rw q k
    | inr (_, _, q) ↦ rw q (
        insert-IsKeyed e.scope _ m.live
          (insert-HasDistinctKeys e.name _ (scope_map m.live e.scope) (k e.scope)) k)
  ]

  forget-IsKeyed : (scope name : Bytes) → IsKeyed (forget m ctx now scope name).1.live
  unfolding forget_found delete_live
  forget-IsKeyed scope name = elim (forget-cases m ctx now scope name) [
    | inl (_, q) ↦ rw q k
    | inr (_, _, _, q) ↦ rw q (
        insert-IsKeyed scope _ m.live
          (remove-HasDistinctKeys name (scope_map m.live scope) (k scope)) k)
  ]

run-IsKeyed :
    (digest : Bytes → Bytes) (m : MemStore) (cs : List Call)
    → IsKeyed m.live
    → IsKeyed (run digest m cs).live
unfolding run step
run-IsKeyed digest m [] k = k
run-IsKeyed digest m (put_call ctx now e opts ∷ cs) k =
    run-IsKeyed digest (put digest m ctx now e opts).1 cs (put-IsKeyed digest m ctx now k e opts)
run-IsKeyed digest m (forget_call ctx now scope name ∷ cs) k =
    run-IsKeyed digest (forget m ctx now scope name).1 cs
      (forget-IsKeyed digest m ctx now k scope name)

new_mem_store-IsKeyed : (max : ℕ) → IsKeyed (new_mem_store max).live
unfolding new_mem_store scope_map lookup
new_mem_store-IsKeyed max s = tt

-- The first entry of the name in a list.
unfoldable pub named_in : Bytes → List Entry → Option Entry
named_in n [] = none
named_in n (e ∷ es) = if str_eq e.name n then some e else named_in n es

-- Each name comes before every later one.
abbrev pub Ascending : List Entry → Type 0
Ascending [] = Unit
Ascending (e ∷ es) = All (λ f. str_le f.name e.name ≡ false) es × Ascending es

str_le_refl : (s : Bytes) → str_le s s ≡ true
unfolding str_le
str_le_refl [] = refl
str_le_refl (c ∷ s) = ground (arith, str_le_refl s)

named_in-insert_by_name :
    (n : Bytes) (e : Entry) (es : List Entry)
    → named_in n (insert_by_name e es) ≡ (if str_eq e.name n then some e else named_in n es)
unfolding named_in insert_by_name
named_in-insert_by_name n e [] = refl
named_in-insert_by_name n e (f ∷ es) =
    ground (
      arith,
      named_in-insert_by_name n e es,
      str_eq_iff e.name n,
      str_eq_iff f.name n,
      str_le_refl n,
    )

abbrev IsNamedMap : Map Entry → Type 0
IsNamedMap m = All (λ kv. kv.1.name ≡ kv.0) m

named_in-sort_by_name :
    (n : Bytes) (m : Map Entry) → IsNamedMap m → named_in n (sort_by_name m) ≡ lookup n m
unfolding sort_by_name lookup named_in
named_in-sort_by_name n [] h = refl
named_in-sort_by_name n ((k, e) ∷ m) h =
    ground (arith, h.0, named_in-insert_by_name n e (sort_by_name m), named_in-sort_by_name n m h.1)

-- The names behind an entry's are behind those that it is behind.
All-after :
    (e f : Entry) (es : List Entry)
    → str_le e.name f.name ≡ true
    → All (λ g. str_le g.name f.name ≡ false) es
    → All (λ g. str_le g.name e.name ≡ false) es
All-after e f [] h a = tt
All-after e f (g ∷ es) h a =
    (ground (arith, h, a.0, str_le_trans g.name e.name f.name), All-after e f es h a.1)

All-insert_by_name :
    (P : Entry → Type 0) (e : Entry) (es : List Entry)
    → P e
    → All P es
    → All P (insert_by_name e es)
unfolding insert_by_name
All-insert_by_name P e [] h a = (h, tt)
All-insert_by_name P e (f ∷ es) h a = elim (Bool-cases (str_le e.name f.name)) [
  | inl before ↦ rw before (h, a)
  | inr behind ↦ rw behind (a.0, All-insert_by_name P e es h a.1)
]

insert_by_name-Ascending :
    (e : Entry) (es : List Entry)
    → named_in e.name es ≡ none
    → Ascending es
    → Ascending (insert_by_name e es)
unfolding insert_by_name named_in
insert_by_name-Ascending e [] h a = (tt, tt)
insert_by_name-Ascending e (f ∷ es) h a = elim (Bool-cases (str_le e.name f.name)) [
  | inl before ↦ rw before (
    (
      ground (arith, h, before, str_le_antisym e.name f.name, str_eq_iff f.name e.name),
      All-after e f es before a.0,
    ),
    a,
  )
  | inr behind ↦ rw behind (
    All-insert_by_name (λ g. str_le g.name f.name ≡ false) e es behind a.0,
    insert_by_name-Ascending e es (ground (arith, h)) a.1,
  )
]

sort_by_name-Ascending :
    (m : Map Entry) → IsNamedMap m → HasDistinctKeys m → Ascending (sort_by_name m)
unfolding sort_by_name
sort_by_name-Ascending [] h d = tt
sort_by_name-Ascending ((k, e) ∷ m) h d =
    insert_by_name-Ascending e (sort_by_name m)
      (ap (λ n. named_in n (sort_by_name m)) h.0 ∙ named_in-sort_by_name k m h.1 ∙ d.0)
      (sort_by_name-Ascending m h.1 d.1)

distinct-IsNamedMap :
    (m : Map Entry)
    → HasDistinctKeys m
    → ((n : Bytes) (e : Entry) → lookup n m ≡ some e → e.name ≡ n)
    → IsNamedMap m
unfolding lookup
distinct-IsNamedMap [] d h = tt
distinct-IsNamedMap ((k, e) ∷ m) d h = (
  h k e (ground (arith, str_eq_refl k)),
  distinct-IsNamedMap m d.1 (λ n f found. h n f (ground (arith, found, d.0, str_eq_iff k n))),
)

-- After any calls on a new store, `List` gives a scope's entries in the order of their names,
-- none of them twice, and the entry that it has under a name is the live one of that name.
pub list_locked-live :
    (digest : Bytes → Bytes) (max : ℕ) (cs : List Call) (s : Bytes)
    → Ascending (list_locked (run digest (new_mem_store max) cs) s)
      × ((n : Bytes)
          → named_in n (list_locked (run digest (new_mem_store max) cs) s)
            ≡ live_entry (run digest (new_mem_store max) cs).live s n)
unfolding list_locked live_entry
list_locked-live digest max cs s =
    let m = run digest (new_mem_store max) cs in
    let keyed = run-IsKeyed digest (new_mem_store max) cs (λ s'. new_mem_store-IsKeyed max s') s in
    let named =
      distinct-IsNamedMap (scope_map m.live s) keyed
        (λ n e found. ((run-IsValid digest max cs).stored s n e found).has_name) in
    (
      sort_by_name-Ascending (scope_map m.live s) named keyed,
      λ n. named_in-sort_by_name n (scope_map m.live s) named,
    )
