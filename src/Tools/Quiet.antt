-- ===== src/Tools/Quiet.antt =====
-- tools.go: a patch is done if one of its rounds is left alone.
use mathlib.Core.Path.{subst}
use agentmemory.Prelude.{
  ℕ, zero, suc, Bytes, ◌≡◌, refl, sym, ap, ◌∙◌, ◌⊎◌, inl, inr, true, false, Option, some, List, [],
  ◌∷◌, ◌++◌, arith, ℤ, length, ◌==◌, str_eq_iff,
}
use agentmemory.Memory.{
  Entry, Change, Error, not_found, invalid, too_large, conflict, unsupported, meta_key_not_name,
  manifest_base, manifest_bad, over_budget, scope_twice, Result, ok, err, ◌>>◌, Context, if_hash,
  if_meta_hash, resolve_put_options, resolve_from, apply_option, check_options, check_ref,
  stored_hash, stored_meta_hash, meta_hash_of,
}
use agentmemory.Memory.Refusals.{is_conflict, check_options-is_conflict}
use agentmemory.Search.{SearchOptions}
use agentmemory.Memory.EntryRules.{IsWellFormed, check_entry-decides}
use agentmemory.MemStore.{
  MemStore, new_mem_store, live_entry, get, put, put_checked, forget, forget_found,
}
use agentmemory.MemStore.Invariant.{IsValid}
use agentmemory.MemStore.Calls.{
  Call, put_call, forget_call, step, run, run-IsValid, put-cases, forget-cases,
}
use agentmemory.Tools.{
  Store, Toolset, ToolResult, PatchArgs, Answer, done, refused, Attempt, settled, lost,
  unless_settled, after_put, resolve_scope, count_text, patched, patch_result, patch_found,
  patch_put, patch_once, patch_attempt, patch, last_attempt,
}
use agentmemory.Tools.Shared.{
  Sessions, next_batch, later_batches, called, after_call, seen, seen_entry, shared,
}

abbrev pub IsDone : Answer ToolResult → Type 0
IsDone (done r) = Unit
IsDone (refused x) = ⊥

append_nil {ℓ} : {A : Type ℓ} (xs : List A) → xs ++ [] ≡ xs
append_nil [] = refl
append_nil (x ∷ xs) = ap (λ z. x ∷ z) (append_nil xs)

module _ (digest : Bytes → Bytes) where
  -- The conditions of a patch's write hold of the entry that it read.
  check_options-met :
      (cur : Entry)
      → check_options digest
          (resolve_put_options
            (if_hash cur.hash ∷ if_meta_hash (meta_hash_of digest cur.meta) ∷ []))
          cur.scope
          cur.name
          (some cur)
        ≡ ok tt
  unfolding check_options resolve_put_options resolve_from apply_option stored_hash stored_meta_hash
  check_options-met cur = ground (
    arith,
    (str_eq_iff cur.hash cur.hash).1 refl,
    (str_eq_iff (meta_hash_of digest cur.meta) (meta_hash_of digest cur.meta)).1 refl,
  )

ok-not_err : {A : Type 0} {x : A} {y : Error} → ok x ≡ err y → ⊥
ok-not_err h = ground (arith, h)

first_passes : (r c : Result (Unit {0})) (y : Error) → r ≡ ok tt → (r >> c) ≡ err y → c ≡ err y
first_passes (ok z) c y met h = h
first_passes (err x) c y met h = ground (arith, met)

after_put_lost : (x : Error) → is_conflict x ≡ true → after_put x ≡ lost x
unfolding after_put is_conflict
after_put_lost (conflict c) h = refl
after_put_lost (not_found _ _) h = ground (arith, h)
after_put_lost (invalid _) h = ground (arith, h)
after_put_lost (too_large _) h = ground (arith, h)
after_put_lost (unsupported _) h = ground (arith, h)
after_put_lost (meta_key_not_name _) h = ground (arith, h)
after_put_lost (manifest_base _) h = ground (arith, h)
after_put_lost (manifest_bad _) h = ground (arith, h)
after_put_lost over_budget h = ground (arith, h)
after_put_lost (scope_twice _) h = ground (arith, h)

run_max : (digest : Bytes → Bytes) (m : MemStore) (cs : List Call) → (run digest m cs).max ≡ m.max
unfolding run step put_checked forget_found
run_max digest m [] = refl
run_max digest m (put_call ctx now e opts ∷ cs) =
    run_max digest (put digest m ctx now e opts).1 cs ∙ (elim (put-cases digest m ctx now e opts) [
      | inl (x, _, q) ↦ ap (λ z. z.1.max) q
      | inr (_, _, q) ↦ ap (λ z. z.1.max) q
    ])
run_max digest m (forget_call ctx now scope name ∷ cs) =
    run_max digest (forget m ctx now scope name).1 cs ∙ (elim (forget-cases m ctx now scope name) [
      | inl (x, q) ↦ ap (λ z. z.1.max) q
      | inr (e, _, _, q) ↦ ap (λ z. z.1.max) q
    ])

module _ (digest : Bytes → Bytes) (ctx : Context) (a : PatchArgs) (scope : Bytes) where
  -- A read of the entry would find `cur`, which holds the text once and whose edit keeps the rules.
  pub record IsEditable (s : Sessions) (cur : Entry) : Type 0 where
    pub found : seen_entry digest s scope a.name ≡ some cur
    pub once : count_text a.old_text cur.content ≡ 1
    pub edit_keeps_rules : IsWellFormed (patched a cur) s.bound

  -- No other session calls the store between the read and the write of a round from this state.
  abbrev pub IsLeftAlone : Sessions → Type 0
  IsLeftAlone s = next_batch (later_batches s.others) ≡ []

  -- The state after a round whose write was refused.
  abbrev pub next_round : Sessions → Entry → Sessions
  next_round s cur = after_call (after_call s []) (
      put_call ctx (after_call s []).clock (patched a cur)
        (if_hash cur.hash ∷ if_meta_hash (meta_hash_of digest cur.meta) ∷ [])
      ∷ [])

  -- Among as many rounds and one, one is left alone, and it and those before it find an entry to edit.
  abbrev pub HasTurn : ℕ → Sessions → Type 0
  HasTurn zero s = (cur : Entry) × IsEditable s cur × IsLeftAlone s
  HasTurn (suc left) s =
      (cur : Entry) × IsEditable s cur × (IsLeftAlone s ⊎ HasTurn left (next_round s cur))

  abbrev Turn : Sessions → Entry → Attempt × Sessions → Type 0
  Turn s cur (settled r, s') = IsDone r
  Turn s cur (lost x, s') = (s' ≡ next_round s cur) × (IsLeftAlone s → ⊥)

  module _ (max : ℕ) (supported : List Bytes)
      (find : MemStore → List Bytes → Bytes → ℤ → SearchOptions → Result (List Entry))
      (t : Toolset) where
    abbrev here : Store Sessions
    here = shared digest max supported find

    -- With no call of another session in between, a write meets the entry that was read.
    read_again :
        (s : Sessions) (sc name : Bytes) (e : Entry)
        → IsLeftAlone s
        → seen_entry digest s sc name ≡ some e
        → seen_entry digest (after_call s []) sc name ≡ some e
    read_again s sc name e quiet h =
        ap (λ cs. live_entry (run digest (new_mem_store s.bound) cs).live sc name)
          (ap (λ b. (called s ++ []) ++ b) quiet
            ∙ append_nil (called s ++ [])
            ∙ append_nil (called s))
        ∙ h

    patch_refused-Turn :
        (s : Sessions) (cur : Entry) (x : Error)
        → seen_entry digest s cur.scope cur.name ≡ some cur
        → IsWellFormed (patched a cur) s.bound
        → (here.put_entry ctx
            (after_call s [])
            (patched a cur)
            (if_hash cur.hash ∷ if_meta_hash (meta_hash_of digest cur.meta) ∷ [])).0
          ≡ err x
        → Turn s cur (after_put x, next_round s cur)
    unfolding new_mem_store
    patch_refused-Turn s cur x there w h =
        let m = seen digest (after_call s []) in
        let opts = if_hash cur.hash ∷ if_meta_hash (meta_hash_of digest cur.meta) ∷ [] in
        let held = live_entry m.live cur.scope cur.name in
        let conditions : Option Entry → Result (Unit {0}) =
          λ z. check_options digest (resolve_put_options opts) cur.scope cur.name z in
        elim (put-cases digest m ctx (after_call s []).clock (patched a cur) opts) [
          | inr (_, _, q) ↦ absurd (ok-not_err (sym (ap (λ z. z.0) q) ∙ h))
          | inl (y, v, q) ↦
              let same : y ≡ x =
                ap (λ r. elim r [ ok _ ↦ y | err z ↦ z ]) (sym (ap (λ z. z.0) q) ∙ h) in
              let rules = (check_entry-decides (patched a cur) m.max held).1 (
                subst (λ n. IsWellFormed (patched a cur) n)
                  (sym (run_max digest (new_mem_store s.bound) (called (after_call s [])))) w) in
              let failed = first_passes _ (conditions held) y rules v ∙ ap err same in
              rw
                (after_put_lost x
                  (check_options-is_conflict digest _ cur.scope cur.name held x failed))
                (
                  refl,
                  λ quiet. absurd (
                      ok-not_err (
                        sym (
                          ap conditions (read_again s cur.scope cur.name cur quiet there)
                          ∙ check_options-met digest cur)
                        ∙ failed)),
                )
        ]

    patch_result-Turn :
        (s : Sessions) (cur : Entry) (r : Result Change)
        → seen_entry digest s cur.scope cur.name ≡ some cur
        → IsWellFormed (patched a cur) s.bound
        → (here.put_entry ctx
            (after_call s [])
            (patched a cur)
            (if_hash cur.hash ∷ if_meta_hash (meta_hash_of digest cur.meta) ∷ [])).0
          ≡ r
        → Turn s cur (patch_result digest here t ctx scope a (patched a cur) (r, next_round s cur))
    unfolding patch_result
    patch_result-Turn s cur (ok c) there w h = tt
    patch_result-Turn s cur (err x) there w h = patch_refused-Turn s cur x there w h

    get_finds :
        (m : MemStore) (cur : Entry) (name : Bytes)
        → IsValid digest m
        → live_entry m.live scope name ≡ some cur
        → get m scope name ≡ ok cur
    unfolding get check_ref
    get_finds m cur name v h =
        let st = v.stored scope name cur h in
        let w = st.well_formed in
        ground (arith, h, w.scope_named, w.name_named, st.in_scope, st.has_name)

    patch_once-Turn :
        (s : Sessions) (cur : Entry)
        → IsEditable s cur
        → Turn s cur (patch_once digest here t ctx scope a s)
    unfolding patch_once patch_found patch_put
    patch_once-Turn s cur e =
        let v = run-IsValid digest s.bound (called s) in
        let st = v.stored scope a.name cur e.found in
        let there : seen_entry digest s cur.scope cur.name ≡ some cur =
          ap (λ z. seen_entry digest s z cur.name) st.in_scope
          ∙ ap (seen_entry digest s scope) st.has_name
          ∙ e.found in
        let r = patch_result-Turn s cur _ there e.edit_keeps_rules refl in
        ground (arith, get_finds (seen digest s) cur a.name v e.found, e.once, r)

    unless_settled-IsDone :
        (left : ℕ) (s : Sessions) (cur : Entry) (r : Attempt × Sessions)
        (next : Error → Sessions → Answer ToolResult × Sessions)
        → Turn s cur r
        → ((x : Error) → (IsLeftAlone s → ⊥) → IsDone (next x (next_round s cur)).0)
        → IsDone (unless_settled next r).0
    unless_settled-IsDone left s cur (settled r, s') next t n = t
    unless_settled-IsDone left s cur (lost x, s') next (q, busy) n =
        subst (λ z. IsDone (next x z).0) (sym q) (n x busy)

    patch_attempt-IsDone :
        (left : ℕ) (s : Sessions)
        → HasTurn left s
        → IsDone (patch_attempt digest here t ctx left scope a s).0
    unfolding patch_attempt
    patch_attempt-IsDone zero s (cur, e, alone) =
        unless_settled-IsDone zero s cur _ _ (patch_once-Turn s cur e)
          (λ x busy. absurd (busy alone))
    patch_attempt-IsDone (suc left) s (cur, e, inl alone) =
        unless_settled-IsDone left s cur _ _ (patch_once-Turn s cur e)
          (λ x busy. absurd (busy alone))
    patch_attempt-IsDone (suc left) s (cur, e, inr later) =
        unless_settled-IsDone left s cur _ _ (patch_once-Turn s cur e)
          (λ x busy. patch_attempt-IsDone left (next_round s cur) later)

    -- A patch on the in-memory store among other sessions, whose scope resolves and whose text is not
    -- empty, is done if among its four rounds one is left alone by the others between its read and
    -- its write, and that round and those before it find, when they read, an entry that holds the
    -- text once and whose edit keeps the rules.
    pub patch-IsDone :
        (s : Sessions)
        → resolve_scope t a.scope ≡ done scope
        → (length a.old_text == 0) ≡ false
        → HasTurn last_attempt s
        → IsDone (patch digest here t ctx a s).0
    unfolding patch
    patch-IsDone s resolved some_text turn =
        ground (arith, resolved, some_text, patch_attempt-IsDone last_attempt s turn)
