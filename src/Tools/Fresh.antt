-- ===== src/Tools/Fresh.antt =====
-- tools.go: an insert creates its entry under a name that was free, one of the first hundred.
use agentmemory.Prelude.{
  ℕ, zero, suc, ◌+◌, ◌≤◌, Bytes, ◌≡◌, refl, ◌∙◌, Option, some, [], ◌∷◌, arith, str_eq_iff,
}
use agentmemory.Memory.{
  Entry, Change, Result, ok, err, Context, if_hash, resolve_put_options, resolve_from, apply_option,
  base_for, stored_hash, check_options,
}
use agentmemory.Tools.{
  Store, Toolset, ToolResult, InsertArgs, Answer, done, refused, insert_tool, insert_scope,
  inserted, insert_name, insert_result, insert_once, insert_attempt, insert_tool_call, later_names,
}
use agentmemory.Tools.Outcomes.{Answered, Settled, after_put-Settled, unless_settled-Answered}
use agentmemory.Tools.Laws.{IsStore}

-- The condition of an insert's write held: no entry was there.
check_options-free :
    (digest : Bytes → Bytes) (scope name : Bytes) (held : Option Entry)
    → check_options digest (resolve_put_options (if_hash [] ∷ [])) scope name held ≡ ok tt
    → stored_hash held ≡ []
unfolding check_options resolve_put_options resolve_from apply_option
check_options-free digest scope name held p = ground (arith, p, str_eq_iff (stored_hash held) [])

module _ (digest : Bytes → Bytes) {S : Type 0} (live : S → Bytes → Bytes → Option Entry)
    (stamp : Bytes) (a : InsertArgs) where
  -- An insert's record: of the call's content and metadata, under the `number`-th name for them,
  -- which no entry had.
  pub record Created (scope : Bytes) (r : ToolResult) : Type 0 where
    pub number : ℕ
    pub change : Change
    pub at : S
    pub counted : (1 ≤ number) × (number ≤ 100)
    pub details_are : r.details ≡ some (record { tool = insert_tool; change = change })
    pub scope_is : change.entry.scope ≡ scope
    pub name_is : change.entry.name ≡ insert_name digest stamp a.content number
    pub content_is : change.entry.content ≡ a.content
    pub meta_is : change.entry.meta ≡ a.meta
    pub prev_is : change.prev ≡ []
    pub replaced_is : change.replaced ≡ []
    pub was_free : stored_hash (live at scope (insert_name digest stamp a.content number)) ≡ []

  abbrev pub Inserted : Answer Bytes → Answer ToolResult → Type 0
  Inserted (done scope) r = Answered (Created scope) r
  Inserted (refused x) r = r ≡ refused x

module _ (digest : Bytes → Bytes) {S : Type 0} (store : Store S)
    (live : S → Bytes → Bytes → Option Entry) (laws : IsStore digest store live) (t : Toolset)
    (ctx : Context) (stamp : Bytes) (a : InsertArgs) where
  insert_result-Settled :
      (scope : Bytes) (n : ℕ) (s : S) (r : Result Change × S)
      → 1 ≤ n
      → n ≤ 100
      → store.put_entry ctx s
          (inserted scope (insert_name digest stamp a.content n) a)
          (if_hash [] ∷ [])
        ≡ r
      → Settled
          (Created digest live stamp a scope)
          (insert_result digest store t ctx scope (insert_name digest stamp a.content n) a r).0
  unfolding insert_result base_for resolve_put_options resolve_from apply_option
  insert_result-Settled scope n s (err x, s') low high q =
      after_put-Settled (Created digest live stamp a scope) x
  insert_result-Settled scope n s (ok c, s') low high q =
      let name = insert_name digest stamp a.content n in
      let l = laws.put_live ctx s (inserted scope name a) (if_hash [] ∷ []) c s' q in
      let free = check_options-free digest scope name (live s scope name) l.accepted in
      record {
        number = n;
        change = c;
        at = s;
        counted = (low, high);
        details_are = refl;
        scope_is = l.scope_is;
        name_is = l.name_is;
        content_is = l.content_is;
        meta_is = l.meta_is;
        prev_is = l.prev_is;
        replaced_is = l.replaced_is ∙ free;
        was_free = free;
      }

  insert_attempt-Answered :
      (left : ℕ) (scope : Bytes) (n : ℕ) (s : S)
      → 1 ≤ n
      → n + left ≤ 100
      → Answered
          (Created digest live stamp a scope)
          (insert_attempt digest store t ctx left stamp scope a n s).0
  unfolding insert_attempt insert_once
  insert_attempt-Answered zero scope n s low high =
      unless_settled-Answered (Created digest live stamp a scope) _ _ (λ x s'. tt)
        (insert_result-Settled scope n s _ low (omega arith) refl)
  insert_attempt-Answered (suc left) scope n s low high =
      unless_settled-Answered (Created digest live stamp a scope) _ _
        (λ x s'. insert_attempt-Answered left scope (suc n) s' (omega arith) (omega arith))
        (insert_result-Settled scope n s _ low (omega arith) refl)

  -- An insert that is done has created an entry of its content and metadata in its scope, under one
  -- of the hundred names of that content at that time, which no entry had when it was written.
  pub insert_tool_call-Inserted :
      (s : S)
      → Inserted digest live stamp a
          (insert_scope t a.scope)
          (insert_tool_call digest store t ctx stamp a s).0
  unfolding insert_tool_call
  insert_tool_call-Inserted s =
      elim (insert_scope t a.scope)
        as (λ z.
          Inserted digest live stamp a z
            (elim z as (λ x. Answer ToolResult × S) [
              | refused x ↦ (refused x, s)
              | done scope ↦ insert_attempt digest store t ctx later_names stamp scope a 1 s
            ]).0) [
              | refused x ↦ refl
              | done scope ↦
                  insert_attempt-Answered later_names scope 1 s (omega arith) (omega arith)
            ]
