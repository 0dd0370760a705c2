-- ===== src/Tools/Anchored.antt =====
-- tools.go: `patch` is an edit of what it replaces.
use agentmemory.Prelude.{
  ℕ, zero, suc, Bytes, List, ◌≡◌, refl, sym, ap, ◌∙◌, Option, some, [], ◌∷◌, arith, length, ltb,
  ◌==◌, str_eq_iff, Bool-cases, inl, inr, if◌then◌else◌,
}
use agentmemory.Memory.{
  Entry, Change, PutOption, Result, ok, err, Context, if_hash, if_meta_hash, resolve_put_options,
  resolve_from, apply_option, base_for, stored_hash, stored_meta_hash, check_options, meta_hash_of,
}
use agentmemory.Tools.{
  Store, Toolset, ToolResult, PatchArgs, Answer, done, refused, patch_tool, old_text_empty,
  resolve_scope, count_text, replace_first, patched, patch_result, patch_found, patch_put,
  patch_once, patch_attempt, patch, last_attempt,
}
use agentmemory.Tools.Outcomes.{Ends, Round, after_put-Round, unless_settled-Ends}
use agentmemory.Tools.Laws.{IsStore}

-- Both conditions of a patch's write held of the entry that it met.
pub check_options-both :
    (digest : Bytes → Bytes) (h mh scope name : Bytes) (held : Option Entry)
    → check_options digest (resolve_put_options (if_hash h ∷ if_meta_hash mh ∷ [])) scope name held
      ≡ ok tt
    → (stored_hash held ≡ h) × (stored_meta_hash digest held ≡ mh)
unfolding check_options resolve_put_options resolve_from apply_option
check_options-both digest h mh scope name held p =
    ground (arith, p, str_eq_iff (stored_hash held) h, str_eq_iff (stored_meta_hash digest held) mh)

module _ (digest : Bytes → Bytes) {S : Type 0} (store : Store S)
    (live : S → Bytes → Bytes → Option Entry) (ctx : Context) (a : PatchArgs) where
  -- What a patch that is done did last: a read that found `cur`, which held the text once, and then
  -- the write `sent`, which took the state `at` that the read left to the one that the patch
  -- leaves. What was live for that write has the hash of `cur` and of its metadata.
  pub record Edited (scope : Bytes) (r : ToolResult) (after : S) : Type 0 where
    pub cur : Entry
    pub change : Change
    pub before : S
    pub at : S
    pub sent : Entry
    pub opts : List PutOption
    pub was_read : store.get_entry before scope a.name ≡ (ok cur, at)
    pub was_written : store.put_entry ctx at sent opts ≡ (ok change, after)
    pub details_are : r.details ≡ some (record { tool = patch_tool; change = change })
    pub once : count_text a.old_text cur.content ≡ 1
    pub scope_is : change.entry.scope ≡ scope
    pub name_is : change.entry.name ≡ a.name
    pub content_is : change.entry.content ≡ replace_first a.old_text a.new_text cur.content
    pub meta_is : change.entry.meta ≡ cur.meta
    pub prev_is : change.prev ≡ cur.hash
    pub replaced_is : change.replaced ≡ cur.hash
    pub held_hash : stored_hash (live at scope a.name) ≡ cur.hash
    pub held_meta : stored_meta_hash digest (live at scope a.name) ≡ meta_hash_of digest cur.meta

  abbrev pub Patched : Answer Bytes → Answer ToolResult × S → Type 0
  Patched (done scope) r = Ends (Edited scope) r
  Patched (refused x) r = r.0 ≡ refused x

module _ (digest : Bytes → Bytes) {S : Type 0} (store : Store S)
    (live : S → Bytes → Bytes → Option Entry) (laws : IsStore digest store live) (t : Toolset)
    (ctx : Context) (a : PatchArgs) where
  patch_result-Round :
      (scope : Bytes) (cur : Entry) (before s : S) (r : Result Change × S)
      → store.get_entry before scope a.name ≡ (ok cur, s)
      → cur.scope ≡ scope
      → cur.name ≡ a.name
      → count_text a.old_text cur.content ≡ 1
      → store.put_entry ctx s
          (patched a cur)
          (if_hash cur.hash ∷ if_meta_hash (meta_hash_of digest cur.meta) ∷ [])
        ≡ r
      → Round
          (Edited digest store live ctx a scope)
          (patch_result digest store t ctx scope a (patched a cur) r)
  unfolding patch_result base_for resolve_put_options resolve_from apply_option
  patch_result-Round scope cur before s (err x, s') rd sc nm once q =
      after_put-Round (Edited digest store live ctx a scope) x s'
  patch_result-Round scope cur before s (ok c, s') rd sc nm once q =
      let opts = if_hash cur.hash ∷ if_meta_hash (meta_hash_of digest cur.meta) ∷ [] in
      let l = laws.put_live ctx s (patched a cur) opts c s' q in
      let held = live s cur.scope cur.name in
      let both =
        check_options-both digest cur.hash (meta_hash_of digest cur.meta) cur.scope cur.name held
          l.accepted in
      let here : live s cur.scope cur.name ≡ live s scope a.name =
        ap (λ x. live s x cur.name) sc ∙ ap (live s scope) nm in
      record {
        cur = cur;
        change = c;
        before = before;
        at = s;
        sent = patched a cur;
        opts = opts;
        was_read = rd;
        was_written = q;
        details_are = refl;
        once = once;
        scope_is = l.scope_is ∙ sc;
        name_is = l.name_is ∙ nm;
        content_is = l.content_is;
        meta_is = l.meta_is;
        prev_is = l.prev_is;
        replaced_is = l.replaced_is ∙ both.0;
        held_hash = ap stored_hash (sym here) ∙ both.0;
        held_meta = ap (stored_meta_hash digest) (sym here) ∙ both.1;
      }

  patch_found-Round :
      (scope : Bytes) (s : S) (g : Result Entry × S)
      → store.get_entry s scope a.name ≡ g
      → Round (Edited digest store live ctx a scope) (patch_found digest store t ctx scope a g)
  unfolding patch_found patch_put
  patch_found-Round scope s (err x, s') q = tt
  patch_found-Round scope s (ok cur, s') q =
      let l = laws.get_live s scope a.name cur s' q in
      let n = count_text a.old_text cur.content in
      elim (Bool-cases (n == 0)) [
        | inl absent ↦ rw absent tt
        | inr there ↦ elim (Bool-cases (ltb 1 n)) [
          | inl repeated ↦ rw (there, repeated) tt
          | inr single ↦
              rw (there, single)
                (patch_result-Round scope cur s s' _ q l.1 l.2 (ground (arith, there, single)) refl)
        ]
      ]

  patch_attempt-Ends :
      (left : ℕ) (scope : Bytes) (s : S)
      → Ends
          (Edited digest store live ctx a scope)
          (patch_attempt digest store t ctx left scope a s)
  unfolding patch_attempt patch_once
  patch_attempt-Ends zero scope s =
      unless_settled-Ends (Edited digest store live ctx a scope) _ _ (λ x s'. tt)
        (patch_found-Round scope s _ refl)
  patch_attempt-Ends (suc left) scope s =
      unless_settled-Ends (Edited digest store live ctx a scope) _ _
        (λ x s'. patch_attempt-Ends left scope s') (patch_found-Round scope s _ refl)

  -- Of a patch that is done, the last read found an entry that held the text once, and the write
  -- after it, in the state that this read left, replaced that occurrence, kept the entry's metadata,
  -- and landed over an entry with the hash of the one read and of its metadata, as its record says;
  -- the state it leaves is the one that write left. It is refused as the scope is, where that is
  -- refused.
  pub patch-Patched :
      (s : S)
      → Patched digest store live ctx a (resolve_scope t a.scope) (patch digest store t ctx a s)
  unfolding patch
  patch-Patched s =
      elim (resolve_scope t a.scope)
        as (λ z. Patched digest store live ctx a z (elim z as (λ x. Answer ToolResult × S) [
          | refused x ↦ (refused x, s)
          | done scope ↦
              if length a.old_text == 0
              then (refused old_text_empty, s)
              else patch_attempt digest store t ctx last_attempt scope a s
        ])) [
          | refused x ↦ refl
          | done scope ↦ elim (Bool-cases (length a.old_text == 0)) [
            | inl none_given ↦ rw none_given tt
            | inr given ↦ rw given (patch_attempt-Ends last_attempt scope s)
          ]
        ]
