-- ===== src/MemStore/Calls.antt =====
-- memstore.go: what `Put` and `Forget` return and leave, on every path, and the states that
-- sequences of calls reach.
use agentmemory.Prelude.{
  ℕ, Bytes, ◌≡◌, ◌⊎◌, inl, inr, Option, some, List, [], ◌∷◌, arith, Option-cases,
}
use agentmemory.Memory.{
  Entry, Change, Error, not_found, Result, ok, err, ◌>>◌, Context, check_ref, check_entry,
  PutOption, check_options, resolve_put_options,
}
use agentmemory.Memory.EntryRules.{IsWellFormed, check_entry-decides, bind-ok, Result-cases}
use agentmemory.MemStore.{
  MemStore, new_mem_store, live_entry, put, put_checked, forget, forget_found,
}
use agentmemory.MemStore.Invariant.{
  IsValid, new_mem_store-IsValid, put_checked-IsValid, forget_found-IsValid,
}

module _ (digest : Bytes → Bytes) (m : MemStore) (ctx : Context) (now : ℕ) where
  -- `Put` writes exactly when both checks pass.
  module _ (e : Entry) (opts : List PutOption) where
    abbrev pub found : Option Entry
    found = live_entry m.live e.scope e.name

    abbrev pub verdict : Result (Unit {0})
    verdict =
        check_entry e m.max found
        >> check_options digest (resolve_put_options opts) e.scope e.name found

    abbrev pub written : Change × MemStore
    written = put_checked digest m ctx now e opts found

    pub put_refused : (x : Error) → verdict ≡ err x → put digest m ctx now e opts ≡ (err x, m)
    unfolding put
    put_refused x h = ground (arith, h)

    pub put_accepted : verdict ≡ ok tt → put digest m ctx now e opts ≡ (ok written.0, written.1)
    unfolding put
    put_accepted h = ground (arith, h)

    pub put-cases :
        ((x : Error) × (verdict ≡ err x) × (put digest m ctx now e opts ≡ (err x, m)))
        ⊎ ((verdict ≡ ok tt)
            × IsWellFormed e m.max
            × (put digest m ctx now e opts ≡ (ok written.0, written.1)))
    put-cases = elim (Result-cases verdict) [
      | inr (x, h) ↦ inl (x, h, put_refused x h)
      | inl (_, h) ↦
          let (_, checked, _) = bind-ok (check_entry e m.max found) _ h in
          inr (h, (check_entry-decides e m.max found).0 checked, put_accepted h)
    ]

    pub put-IsValid : IsValid digest m → IsValid digest (put digest m ctx now e opts).1
    put-IsValid v = elim put-cases [
      | inl (x, _, q) ↦ rw q v
      | inr (_, w, q) ↦ rw q (put_checked-IsValid digest m ctx now e opts v w)
    ]

module _ (m : MemStore) (ctx : Context) (now : ℕ) (scope name : Bytes) where
  -- `Forget` writes exactly when the reference is of names and the entry is live.
  pub forget-cases :
      ((x : Error) × (forget m ctx now scope name ≡ (err x, m)))
      ⊎ ((e : Entry) × (check_ref scope name ≡ ok tt)
          × (live_entry m.live scope name ≡ some e)
          × (forget m ctx now scope name ≡ (
            ok (forget_found m ctx now e scope name).0,
            (forget_found m ctx now e scope name).1,
          )))
  unfolding forget
  forget-cases = elim (Result-cases (check_ref scope name)) [
    | inr (x, h) ↦ inl (x, ground (arith, h))
    | inl (_, h) ↦ elim (Option-cases (live_entry m.live scope name)) [
      | inl gone ↦ inl (not_found scope name, ground (arith, h, gone))
      | inr (e, there) ↦ inr (e, h, there, ground (arith, h, there))
    ]
  ]

  pub forget-IsValid :
      (digest : Bytes → Bytes) → IsValid digest m → IsValid digest (forget m ctx now scope name).1
  forget-IsValid digest v = elim forget-cases [
    | inl (x, q) ↦ rw q v
    | inr (e, _, there, q) ↦ rw q (forget_found-IsValid digest m ctx now e scope name v there)
  ]

-- A call that changes the store, with its context and what the clock reads.
pub data Call : Type 0 where
  put_call : Context → ℕ → Entry → List PutOption → Call
  forget_call : Context → ℕ → Bytes → Bytes → Call

module _ (digest : Bytes → Bytes) where
  unfoldable pub step : MemStore → Call → MemStore
  step m (put_call ctx now e opts) = (put digest m ctx now e opts).1
  step m (forget_call ctx now scope name) = (forget m ctx now scope name).1

  unfoldable pub run : MemStore → List Call → MemStore
  unfolding step
  run m [] = m
  run m (c ∷ cs) = run (step m c) cs

  run_from-IsValid : (m : MemStore) (cs : List Call) → IsValid digest m → IsValid digest (run m cs)
  unfolding run
  run_from-IsValid m [] v = v
  run_from-IsValid m (put_call ctx now e opts ∷ cs) v =
      run_from-IsValid (put digest m ctx now e opts).1 cs (put-IsValid digest m ctx now e opts v)
  run_from-IsValid m (forget_call ctx now scope name ∷ cs) v =
      run_from-IsValid (forget m ctx now scope name).1 cs
        (forget-IsValid m ctx now scope name digest v)

  -- After any calls on a new store, each live entry is what its last record left, every record
  -- replaced what the records before it left and is numbered from 1 without gaps, and every live
  -- entry keeps the rules, with the hashes of its content and metadata.
  pub run-IsValid : (n : ℕ) (cs : List Call) → IsValid digest (run (new_mem_store n) cs)
  run-IsValid n cs = run_from-IsValid (new_mem_store n) cs (new_mem_store-IsValid digest n)
