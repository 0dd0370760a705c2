-- ===== src/LostUpdates/Anchored.antt =====
-- lostupdate.go: writers that all anchor their writes with `IfHash`, or claim no base, lose nothing.
use mathlib.Core.Path.{subst}
use agentmemory.Prelude.{
  ℕ, zero, suc, Bytes, ◌≡◌, refl, sym, ap, ◌∙◌, true, false, ◌⊎◌, inl, inr, Option, List, [], ◌∷◌,
  map, arith, All, All-append, str_eq_iff, drop,
}
use agentmemory.Memory.{
  Entry, Change, Result, ok, PutOptions, resolve_put_options, base_for, check_entry, check_options,
  stored_hash,
}
use agentmemory.Memory.EntryRules.{bind-ok}
use agentmemory.MemStore.{
  MemStore, new_mem_store, journal_after, put_checked, append_locked, forget_found,
}
use agentmemory.MemStore.Calls.{
  Call, put_call, forget_call, step, run, run-IsValid, put-cases, forget-cases, found,
}
use agentmemory.MemStore.History.{journal_after-drop}
use agentmemory.LostUpdates.{change, lost_updates}
use agentmemory.LostUpdates.Audit.{keep_forks}
use agentmemory.LostUpdates.Store.{fork_report, lost_updates-store}

-- The write is conditional on a hash, or names no base.
abbrev pub IsAnchored : Call → Type 0
IsAnchored (put_call ctx now e opts) =
    ((resolve_put_options opts).conditional ≡ true) ⊎ ((resolve_put_options opts).has_base ≡ false)
IsAnchored (forget_call ctx now scope name) = Unit

abbrev IsInPlace : Change → Type 0
IsInPlace c = c.prev ≡ c.replaced

base_for-anchored :
    (digest : Bytes → Bytes) (o : PutOptions) (scope name : Bytes) (stored : Option Entry)
    → check_options digest o scope name stored ≡ ok tt
    → (o.conditional ≡ true) ⊎ (o.has_base ≡ false)
    → base_for o stored ≡ stored_hash stored
unfolding check_options base_for
base_for-anchored digest o scope name stored h a =
    ground (arith, str_eq_iff (stored_hash stored) o.if_hash_value)

-- What a call leaves, by the equation that says what it returns.
abbrev LeavesInPlace : Result Change × MemStore → Type 0
LeavesInPlace r = All IsInPlace r.1.journal

module _ (digest : Bytes → Bytes) where
  step-InPlace :
      (m : MemStore) (c : Call)
      → IsAnchored c
      → All IsInPlace m.journal
      → All IsInPlace (step digest m c).journal
  unfolding step put_checked append_locked forget_found
  step-InPlace m (put_call ctx now e opts) a h = elim (put-cases digest m ctx now e opts) [
    | inl (_, _, q) ↦ subst LeavesInPlace (sym q) h
    | inr (ok_both, _, q) ↦
        let (_, _, agreed) =
          bind-ok (check_entry e m.max (found digest m ctx now e opts)) _ ok_both in
        subst LeavesInPlace (sym q) (
          All-append IsInPlace m.journal _ h
            (base_for-anchored digest (resolve_put_options opts) e.scope e.name _ agreed a, tt))
  ]
  step-InPlace m (forget_call ctx now scope name) a h = elim (forget-cases m ctx now scope name) [
    | inl (_, q) ↦ subst LeavesInPlace (sym q) h
    | inr (e, _, _, q) ↦ subst LeavesInPlace (sym q) (All-append IsInPlace m.journal _ h (refl, tt))
  ]

  run-InPlace :
      (m : MemStore) (cs : List Call)
      → All IsAnchored cs
      → All IsInPlace m.journal
      → All IsInPlace (run digest m cs).journal
  unfolding run
  run-InPlace m [] a h = h
  run-InPlace m (c ∷ cs) a h = run-InPlace (step digest m c) cs a.1 (step-InPlace m c a.0 h)

no_forks : (k : ℕ) (cs : List Change) → All IsInPlace cs → keep_forks (drop k cs) ≡ []
no_forks zero [] h = refl
no_forks zero (c ∷ cs) h = ground (arith, str_eq_iff c.prev c.replaced, no_forks zero cs h.1)
no_forks (suc k) [] h = refl
no_forks (suc k) (c ∷ cs) h = no_forks k cs h.1

-- After any calls on a new store in which every write is conditional on a hash or names no
-- base, whichever of them succeed, `LostUpdates` finds nothing from any cursor.
pub anchored_lose_nothing :
    (digest : Bytes → Bytes) (n : ℕ) (cs : List Call) (after : ℕ)
    → All IsAnchored cs
    → lost_updates after (map change (journal_after (run digest (new_mem_store n) cs) after))
      ≡ ([], [])
unfolding new_mem_store
anchored_lose_nothing digest n cs after a =
    let m : MemStore = run digest (new_mem_store n) cs in
    let none_lost : keep_forks (journal_after m after) ≡ [] =
      ap keep_forks (journal_after-drop m after)
      ∙ no_forks after m.journal (run-InPlace digest (new_mem_store n) cs a tt) in
    lost_updates-store digest m after (run-IsValid digest n cs)
    ∙ ap (λ l. (map fork_report l, [])) none_lost
