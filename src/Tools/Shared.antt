-- ===== src/Tools/Shared.antt =====
-- A store that other sessions write to as well: the in-memory store, with the calls of the others
-- that take effect before each call of ours.
use mathlib.Core.Path.{subst}
use agentmemory.Prelude.{
  ℕ, ◌+◌, Bytes, ◌≡◌, refl, sym, ap, ◌∙◌, Option, some, List, [], ◌∷◌, ◌++◌, arith, inl, inr, ℤ,
}
use agentmemory.Memory.{Entry, Change, Result, ok, err, Context, PutOption, check_entry}
use agentmemory.Memory.EntryRules.{bind-ok}
use agentmemory.Search.{SearchOptions}
use agentmemory.MemStore.{
  MemStore, new_mem_store, live_entry, get, put, forget, stamp, put_checked, append_locked,
  forget_found,
}
use agentmemory.MemStore.Invariant.{IsValid}
use agentmemory.MemStore.Calls.{
  Call, put_call, forget_call, run, run-IsValid, put-cases, forget-cases, written,
}
use agentmemory.Tools.{Store}
use agentmemory.Tools.Laws.{Landed, IsStore}

-- What was called so far, and what the others will call before our next calls.
pub record Sessions : Type 0 where
  pub bound : ℕ
  pub past : List Call
  pub others : List (List Call)
  pub clock : ℕ

abbrev pub next_batch : List (List Call) → List Call
next_batch [] = []
next_batch (b ∷ bs) = b

abbrev pub later_batches : List (List Call) → List (List Call)
later_batches [] = []
later_batches (b ∷ bs) = bs

-- What has been called when our next call takes effect.
abbrev pub called : Sessions → List Call
called s = s.past ++ next_batch s.others

-- The state after our call: what it added to the store's calls is `own`.
abbrev pub after_call : Sessions → List Call → Sessions
after_call s own = record {
  bound = s.bound;
  past = called s ++ own;
  others = later_batches s.others;
  clock = s.clock + 1;
}

ok-injective {ℓ} : {A : Type ℓ} {x y : A} → ok x ≡ ok y → x ≡ y
ok-injective {x = x} h = ap (λ r. elim r [ ok z ↦ z | err _ ↦ x ]) h

module _ (digest : Bytes → Bytes) where
  -- The store as our next call meets it.
  abbrev pub seen : Sessions → MemStore
  seen s = run digest (new_mem_store s.bound) (called s)

  abbrev pub seen_entry : Sessions → Bytes → Bytes → Option Entry
  seen_entry s scope name = live_entry (seen s).live scope name

  abbrev pub shared :
      ℕ
      → List Bytes
      → (MemStore → List Bytes → Bytes → ℤ → SearchOptions → Result (List Entry))
      → Store Sessions
  shared max supported find = record {
    max_entry_bytes = max;
    supported = supported;
    get_entry = λ s scope name. (get (seen s) scope name, after_call s []);
    put_entry = λ ctx s e opts. (
      (put digest (seen s) ctx s.clock e opts).0,
      after_call s (put_call ctx s.clock e opts ∷ []),
    );
    forget_entry = λ ctx s scope name. (
      (forget (seen s) ctx s.clock scope name).0,
      after_call s (forget_call ctx s.clock scope name ∷ []),
    );
    find_entries =
        λ s scopes query limit opts. (find (seen s) scopes query limit opts, after_call s []);
  }

  get_live :
      (m : MemStore) (scope name : Bytes) (e : Entry)
      → IsValid digest m
      → get m scope name ≡ ok e
      → (live_entry m.live scope name ≡ some e) × (e.scope ≡ scope) × (e.name ≡ name)
  unfolding get
  get_live m scope name e v h =
      let there : live_entry m.live scope name ≡ some e = ground (arith, h) in
      let st = v.stored scope name e there in (there, st.in_scope, st.has_name)

  put_live :
      (m : MemStore) (ctx : Context) (now : ℕ) (e : Entry) (opts : List PutOption) (c : Change)
      → (put digest m ctx now e opts).0 ≡ ok c
      → Landed digest e opts (live_entry m.live e.scope e.name) c
  unfolding put_checked append_locked stamp
  put_live m ctx now e opts c h = elim (put-cases digest m ctx now e opts) [
    | inl (x, _, q) ↦ cc
    | inr (accepted, w, q) ↦
        let same : (written digest m ctx now e opts).0 ≡ c =
          ok-injective (sym (ap (λ z. z.0) q) ∙ h) in
        let held = live_entry m.live e.scope e.name in
        let (_, checked, met) = bind-ok (check_entry e m.max held) _ accepted in
        subst (λ x. Landed digest e opts held x) same
          (record {
            accepted = met;
            scope_is = refl;
            name_is = refl;
            content_is = refl;
            meta_is = refl;
            prev_is = refl;
            replaced_is = refl;
          })
  ]

  forget_live :
      (m : MemStore) (ctx : Context) (now : ℕ) (scope name : Bytes) (c : Change)
      → IsValid digest m
      → (forget m ctx now scope name).0 ≡ ok c
      → (c.entry.scope ≡ scope) × (c.entry.name ≡ name)
  unfolding forget_found append_locked
  forget_live m ctx now scope name c v h = elim (forget-cases m ctx now scope name) [
    | inl (x, q) ↦ cc
    | inr (e, _, there, q) ↦
        let same : (forget_found m ctx now e scope name).0 ≡ c =
          ok-injective (sym (ap (λ z. z.0) q) ∙ h) in
        let st = v.stored scope name e there in
        subst (λ (x : Change). (x.entry.scope ≡ scope) × (x.entry.name ≡ name)) same
          (st.in_scope, st.has_name)
  ]

  -- The in-memory store that other sessions call before each of our calls, whatever they call, does
  -- what the tools rely on: a read that finds an entry finds the live one of its name. A write that
  -- lands was accepted on the entry live then, and its record has the content and metadata written,
  -- the base that its options ask for and the hash of the entry that it replaced. A tombstone is of
  -- the name forgotten.
  pub shared-IsStore :
      (max : ℕ) (supported : List Bytes)
      (find : MemStore → List Bytes → Bytes → ℤ → SearchOptions → Result (List Entry))
      → IsStore digest (shared max supported find) seen_entry
  shared-IsStore max supported find = record {
    get_live = λ s scope name e s' h.
        get_live (seen s) scope name e (run-IsValid digest s.bound (called s)) (ap (λ z. z.0) h);
    put_live = λ ctx s e opts c s' h. put_live (seen s) ctx s.clock e opts c (ap (λ z. z.0) h);
    forget_live = λ ctx s scope name c s' h.
        forget_live (seen s) ctx s.clock scope name c (run-IsValid digest s.bound (called s))
          (ap (λ z. z.0) h);
  }
