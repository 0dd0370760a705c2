-- ===== src/MemStore/Reads.antt =====
-- memstore.go: what a read returns after a write, and when a conditional write lands.
use agentmemory.Prelude.{
  ℕ, Bytes, ◌≡◌, ◌≢◌, refl, ◌⊎◌, true, false, Bool-cases, ◌&&◌, inl, inr, some, List, [], ◌∷◌,
  arith, str_eq, str_eq_iff, if◌then◌else◌,
}
use agentmemory.Memory.{
  Entry, Change, conflict, not_found, ok, err, Context, valid_name, check_ref, check_entry,
  PutOption, if_hash, resolve_put_options, stored_hash, base_for, check_options,
}
use agentmemory.Memory.EntryRules.{IsWellFormed, check_entry-decides}
use agentmemory.MemStore.{
  MemStore, live_entry, stamp, get, put, put_checked, forget, forget_found, append_locked,
}
use agentmemory.MemStore.Live.{live_entry-set_live, live_entry-delete_live}
use agentmemory.MemStore.Calls.{found, written, put-cases, put_accepted, put_refused, forget-cases}

check_ref-ok : (s n : Bytes) → valid_name s ≡ true → valid_name n ≡ true → check_ref s n ≡ ok tt
unfolding check_ref
check_ref-ok s n p q = ground arith

get_found :
    (m : MemStore) (s n : Bytes) (e : Entry)
    → check_ref s n ≡ ok tt
    → live_entry m.live s n ≡ some e
    → get m s n ≡ ok e
unfolding get
get_found m s n e p q = ground arith

-- After a `Forget` that succeeds, `Get` finds no such entry, and returns what it returned
-- before under any other name.
pub get-forget :
    (m : MemStore) (ctx : Context) (now : ℕ) (scope name : Bytes) {c : Change} {m' : MemStore}
    → forget m ctx now scope name ≡ (ok c, m')
    → (s n : Bytes)
    → get m' s n ≡ (if str_eq scope s && str_eq name n then err (not_found s n) else get m s n)
unfolding get forget_found
get-forget m ctx now scope name h s n = elim (forget-cases m ctx now scope name) [
  | inl (_, q) ↦ cc
  | inr (e, named, _, q) ↦ ground (
    arith,
    h,
    q,
    named,
    live_entry-delete_live m.live scope name s n,
    str_eq_iff scope s,
    str_eq_iff name n,
  )
]

module _ (digest : Bytes → Bytes) (m : MemStore) (ctx : Context) (now : ℕ) where
  live_entry-written :
      (e : Entry) (opts : List PutOption) (s n : Bytes)
      → live_entry (written digest m ctx now e opts).1.live s n ≡ (
          if str_eq e.scope s && str_eq e.name n
          then some (stamp digest e now)
          else live_entry m.live s n)
  unfolding put_checked
  live_entry-written e opts s n = live_entry-set_live m.live e.scope e.name s n (stamp digest e now)

  pub live_entry-put :
      (e : Entry) (opts : List PutOption) {c : Change} {m' : MemStore}
      → put digest m ctx now e opts ≡ (ok c, m')
      → (s n : Bytes)
      → live_entry m'.live s n ≡ (
          if str_eq e.scope s && str_eq e.name n
          then some (stamp digest e now)
          else live_entry m.live s n)
  live_entry-put e opts h s n = elim (put-cases digest m ctx now e opts) [
    | inl (_, _, q) ↦ cc
    | inr (_, _, q) ↦ ground (arith, h, q, live_entry-written e opts s n)
  ]

  -- After a `Put` that succeeds, `Get` returns the entry written, with its content and metadata
  -- as given and the store's stamps, under its own name, and what it returned before under
  -- any other.
  pub get-put :
      (e : Entry) (opts : List PutOption) {c : Change} {m' : MemStore}
      → put digest m ctx now e opts ≡ (ok c, m')
      → (s n : Bytes)
      → get m' s n
        ≡ (if str_eq e.scope s && str_eq e.name n then ok (stamp digest e now) else get m s n)
  unfolding get
  get-put e opts h s n = elim (put-cases digest m ctx now e opts) [
    | inl (_, _, q) ↦ cc
    | inr (_, w, q) ↦ ground (
      arith,
      h,
      q,
      live_entry-written e opts s n,
      check_ref-ok e.scope e.name w.scope_named w.name_named,
      str_eq_iff e.scope s,
      str_eq_iff e.name n,
    )
  ]

  module _ (e : Entry) (h : Bytes) (w : IsWellFormed e m.max) where
    abbrev pub held : Bytes
    held = stored_hash (found digest m ctx now e (if_hash h ∷ []))

    -- A `Put` under `IfHash` of an entry that keeps the rules lands exactly when the stored
    -- hash is the one expected (the empty string is no entry): its record is then built on that
    -- hash and replaces it. Otherwise it is refused with both hashes, and nothing changes.
    pub put-if_hash :
        ((held ≡ h)
          × (c : Change) × (m' : MemStore) × (put digest m ctx now e (if_hash h ∷ []) ≡ (ok c, m'))
          × (c.prev ≡ h)
          × (c.replaced ≡ h)
          × (c.entry ≡ stamp digest e now))
        ⊎ ((held ≢ h)
            × (put digest m ctx now e (if_hash h ∷ []) ≡ (
              err (
                  conflict (record {
                    scope = e.scope;
                    name = e.name;
                    want = h;
                    have = held;
                    is_meta = false;
                  })),
              m,
            )))
    unfolding check_options resolve_put_options put_checked append_locked base_for
    put-if_hash =
        let passed : check_entry e m.max (found digest m ctx now e (if_hash h ∷ [])) ≡ ok tt =
          (check_entry-decides e m.max _).1 w in
        elim (Bool-cases (str_eq held h)) [
          | inl equal ↦
              let same : held ≡ h = (str_eq_iff held h).0 equal in
              inl (
                same,
                (written digest m ctx now e (if_hash h ∷ [])).0,
                (written digest m ctx now e (if_hash h ∷ [])).1,
                put_accepted digest m ctx now e (if_hash h ∷ [])
                    (ground (arith, passed, same, str_eq_iff held h)),
                refl,
                same,
                refl,
              )
          | inr differs ↦
              let other : held ≢ h = λ same. ground (arith, differs, same, str_eq_iff held h) in
              inr (
                other,
                put_refused digest m ctx now e (if_hash h ∷ []) _
                    (ground (arith, passed, differs, str_eq_iff held h)),
              )
        ]
