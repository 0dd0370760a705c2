-- ===== src/Tools/Writers.antt =====
-- tools.go: the tools that write, `save`, `patch`, `forget` and `insertEntry`, and the checks that
-- stand before each. The manifest of the block is what `WithRendered` gave this call, `none` for
-- tools without the option. A loop over attempts is recursion on those that are left.
use agentmemory.Prelude.{
  ℕ, zero, suc, Bytes, codes, true, false, ◌&&◌, Option, none, some, List, [], ◌∷◌, length, ltb,
  ◌==◌, if◌then◌else◌,
}
use agentmemory.Memory.{
  Entry, Change, Result, ok, err, Context, PutOption, if_hash, if_meta_hash, hash_of, meta_hash_of,
}
use agentmemory.Manifest.{Manifest, dropped}
use agentmemory.Tools.Options.{Toolset, save_tool, patch_tool, forget_tool, insert_tool}
use agentmemory.Tools.Answers.{
  SaveArgs, PatchArgs, InsertArgs, ForgetArgs, ToolResult, store_error, block_dropped,
  bad_arguments, old_text_empty, old_text_absent, old_text_repeated, contended, names_taken, Answer,
  done, refused, Store,
}
use agentmemory.Tools.Texts.{
  texts, wrote, saved_what, meta_what, based_what, written_line, saved_line,
}
use agentmemory.Tools.Rounds.{
  resolve_scope, insert_scope, fixed_save, fixed_forget, shown_hash, count_text, found_or_none,
  is_meta_conflict, after_put, unless_found, names_read_only, last_attempt, later_names,
  insert_name, save_base, save_entry, keeps_meta, save_opts, Attempt, settled, WriterCall,
  save_call, patch_call, unless_settled, unless_read, patched, inserted, forget_call, insert_call,
}

module _ (digest : Bytes → Bytes) {S : Type 0} (store : Store S) (t : Toolset) (ctx : Context) where
  -- A `Put` of `save`, from the stored entry that it was made from.
  unfoldable pub save_put : Bytes → SaveArgs → List PutOption → Option Entry → S → Result Change × S
  save_put scope a base stored s =
      store.put_entry ctx s (save_entry scope a stored) (save_opts digest base a stored)

  -- The loop of `save`, with as many attempts behind this one: what the last `Put` returned,
  -- and the stored entry that it was made from.
  unfoldable pub save_attempt :
      ℕ → Bytes → SaveArgs → List PutOption → Option Entry → S → Result Change × Option Entry × S
  save_attempt zero scope a base stored s =
      let (r, s') = save_put scope a base stored s in (r, stored, s')
  save_attempt (suc left) scope a base stored s =
      let (r, s') = save_put scope a base stored s in
      elim (keeps_meta a stored && is_meta_conflict r) [
        | false ↦ (r, stored, s')
        | true ↦
            let (g, s'') = store.get_entry s' scope a.name in
            unless_read (λ again s. save_attempt left scope a base again s) stored (found_or_none g)
              s''
      ]

  unfoldable pub save_result :
      Bytes → SaveArgs → Option Bytes → Result Change × Option Entry × S → Answer ToolResult × S
  save_result scope a shown (err x, stored, s) = (refused (store_error x), s)
  save_result scope a shown (ok c, stored, s) = (
    wrote save_tool c (
        saved_line
          (written_line (codes "Saved") scope a.name (length a.content) store.max_entry_bytes
            (hash_of digest a.content))
          (saved_what stored) (meta_what stored a.meta (save_entry scope a stored).meta)
          (based_what t.opts.has_rendered stored shown)),
    s,
  )

  unfoldable pub save_from :
      Bytes → SaveArgs → Option Bytes → Result (Option Entry) → S → Answer ToolResult × S
  save_from scope a shown (err x) s = (refused (store_error x), s)
  save_from scope a shown (ok first) s =
      save_result scope a shown (save_attempt last_attempt scope a (save_base shown first) first s)

  -- `save`.
  unfoldable pub save : Option Manifest → SaveArgs → S → Answer ToolResult × S
  save m a s = elim (resolve_scope t a.scope) [
    | refused x ↦ (refused x, s)
    | done scope ↦ elim (fixed_save t scope a.name) [
      | some x ↦ (refused x, s)
      | none ↦
          let (g, s') = store.get_entry s scope a.name in
          save_from scope a (shown_hash m scope a.name) (found_or_none g) s'
    ]
  ]

  -- A patch's `Put` of the edited entry, and what an attempt comes to.
  unfoldable pub patch_result : Bytes → PatchArgs → Entry → Result Change × S → Attempt × S
  patch_result scope a next (ok c, s) = (
    settled (
        wrote patch_tool c (
          written_line (codes "Patched") scope a.name (length next.content) store.max_entry_bytes
            (hash_of digest next.content))),
    s,
  )
  patch_result scope a next (err x, s) = (after_put x, s)

  unfoldable pub patch_put : Bytes → PatchArgs → Entry → S → Attempt × S
  patch_put scope a cur s = patch_result scope a (patched a cur) (
      store.put_entry ctx s (patched a cur)
        (if_hash cur.hash ∷ if_meta_hash (meta_hash_of digest cur.meta) ∷ []))

  -- What the `Get` of a round gives.
  unfoldable pub patch_found : Bytes → PatchArgs → Result Entry × S → Attempt × S
  patch_found scope a (err x, s) = (settled (refused (unless_found x)), s)
  patch_found scope a (ok cur, s) =
      let n = count_text a.old_text cur.content in
      if n == 0
      then (settled (refused (old_text_absent scope a.name)), s)
      else if ltb 1 n
      then (settled (refused (old_text_repeated n scope a.name)), s)
      else patch_put scope a cur s

  -- One round of the loop of `patch`.
  unfoldable pub patch_once : Bytes → PatchArgs → S → Attempt × S
  patch_once scope a s = patch_found scope a (store.get_entry s scope a.name)

  -- The loop of `patch`, with as many attempts behind this one.
  unfoldable pub patch_attempt : ℕ → Bytes → PatchArgs → S → Answer ToolResult × S
  patch_attempt zero scope a s =
      unless_settled (λ x s'. (refused (contended x), s')) (patch_once scope a s)
  patch_attempt (suc left) scope a s =
      unless_settled (λ x s'. patch_attempt left scope a s') (patch_once scope a s)

  -- `patch`.
  unfoldable pub patch : PatchArgs → S → Answer ToolResult × S
  patch a s = elim (resolve_scope t a.scope) [
    | refused x ↦ (refused x, s)
    | done scope ↦
        if length a.old_text == 0
        then (refused old_text_empty, s)
        else patch_attempt last_attempt scope a s
  ]

  unfoldable pub forget_result : Bytes → ForgetArgs → Result Change × S → Answer ToolResult × S
  forget_result scope a (err x, s) = (refused (store_error x), s)
  forget_result scope a (ok c, s) =
      (wrote forget_tool c (texts (codes "Forgot " ∷ scope ∷ codes "/" ∷ a.name ∷ [])), s)

  -- `forget`.
  unfoldable pub forget_tool_call : ForgetArgs → S → Answer ToolResult × S
  forget_tool_call a s = elim (resolve_scope t a.scope) [
    | refused x ↦ (refused x, s)
    | done scope ↦ elim (fixed_forget t scope a.name) [
      | some x ↦ (refused x, s)
      | none ↦ forget_result scope a (store.forget_entry ctx s scope a.name)
    ]
  ]

  unfoldable pub insert_result : Bytes → Bytes → InsertArgs → Result Change × S → Attempt × S
  insert_result scope name a (ok c, s) = (
    settled (
        wrote insert_tool c (
          written_line (codes "Inserted") scope name (length a.content) store.max_entry_bytes
            c.entry.hash)),
    s,
  )
  insert_result scope name a (err x, s) = (after_put x, s)

  -- One round of the loop of `insertEntry`, under the n-th name.
  unfoldable pub insert_once : Bytes → Bytes → InsertArgs → ℕ → S → Attempt × S
  insert_once stamp scope a n s =
      let name = insert_name digest stamp a.content n in
      insert_result scope name a (store.put_entry ctx s (inserted scope name a) (if_hash [] ∷ []))

  -- The loop of `insertEntry`, with as many names behind the n-th.
  unfoldable pub insert_attempt : ℕ → Bytes → Bytes → InsertArgs → ℕ → S → Answer ToolResult × S
  insert_attempt zero stamp scope a n s =
      unless_settled (λ x s'. (refused (names_taken x), s')) (insert_once stamp scope a n s)
  insert_attempt (suc left) stamp scope a n s =
      unless_settled (λ x s'. insert_attempt left stamp scope a (suc n) s')
        (insert_once stamp scope a n s)

  -- `insertEntry`.
  unfoldable pub insert_tool_call : Bytes → InsertArgs → S → Answer ToolResult × S
  insert_tool_call stamp a s = elim (insert_scope t a.scope) [
    | refused x ↦ (refused x, s)
    | done scope ↦ insert_attempt later_names stamp scope a 1 s
  ]

  -- A writer's call: its arguments, the insert's with the format of the clock's time.
  unfoldable pub run_writer : Option Manifest → WriterCall → S → Answer ToolResult × S
  run_writer m (save_call a) s = save m a s
  run_writer m (patch_call a) s = patch a s
  run_writer m (forget_call a) s = forget_tool_call a s
  run_writer m (insert_call stamp a) s = insert_tool_call stamp a s

  -- `tool`, for a writer: `read`, `refuseReadOnly`, and the schema's check, which is agenttool's:
  -- `none` for arguments that do not pass it. `raw_scope` is the scope that the arguments name,
  -- if they decode.
  unfoldable pub call_writer :
      Option Manifest → Option Bytes → Option WriterCall → S → Answer ToolResult × S
  call_writer m raw_scope call s =
      if (elim m [ none ↦ false | some shown ↦ dropped shown ])
      then (refused block_dropped, s)
      else elim (names_read_only t raw_scope) [
        | some x ↦ (refused x, s)
        | none ↦ elim call [ none ↦ (refused bad_arguments, s) | some c ↦ run_writer m c s ]
      ]
