-- ===== src/Tools/Reach.antt =====
-- tools.go: the scopes that the tools write to, and the names where they are fixed.
use agentmemory.Prelude.{
  Bytes, ◌≡◌, refl, Bool-cases, Option-cases, inl, inr, true, false, Option, none, some, List, Map,
  lookup, arith,
}
use agentmemory.Memory.{Entry, Change, Context, Result, ok, err}
use agentmemory.Search.{mentions}
use agentmemory.Manifest.{Manifest, dropped}
use agentmemory.Tools.{
  Store, Toolset, ToolOption, ToolResult, WriterCall, save_call, patch_call, forget_call,
  insert_call, Answer, done, refused, Refusal, bad_arguments, block_dropped, ForgetArgs,
  resolve_scope, insert_scope, fixed_save, fixed_forget, is_fixed, new_toolset, PatchArgs,
  patch_tool, save_tool, insert_tool, SaveArgs, InsertArgs, names_read_only, save, forget_tool_call,
  forget_result, run_writer, call_writer, forget_tool,
}
use agentmemory.Tools.Laws.{IsStore}
use agentmemory.Tools.Outcomes.{Answered}
use agentmemory.Tools.Anchored.{Patched, patch-Patched}
use agentmemory.Tools.Kept.{SavedIn, save-SavedIn}
use agentmemory.Tools.Fresh.{Inserted, insert_tool_call-Inserted}
use agentmemory.Tools.Checked.{
  IsChecked, IsWritable, new_toolset-IsChecked, resolve_scope-IsWritable, insert_scope-IsWritable,
}

abbrev pub NotDropped : Option Manifest → Type 0
NotDropped none = Unit
NotDropped (some m) = dropped m ≡ false

-- The name is one of those that are fixed, where any are.
abbrev pub IsAmong : Option (List Bytes) → Bytes → Type 0
IsAmong none name = Unit
IsAmong (some names) name = mentions names name ≡ true

-- The name is none of those that are fixed.
abbrev pub IsOutside : Option (List Bytes) → Bytes → Type 0
IsOutside none name = Unit
IsOutside (some names) name = mentions names name ≡ false

fixed_save-IsAmong :
    (t : Toolset) (scope name : Bytes)
    → fixed_save t scope name ≡ none
    → IsAmong (lookup scope t.opts.fixed) name
unfolding fixed_save
fixed_save-IsAmong t scope name h = elim (Option-cases (lookup scope t.opts.fixed)) [
  | inl free ↦ rw free tt
  | inr (ns, there) ↦ rw there (ground (arith, h, there))
]

fixed_forget-IsOutside :
    (t : Toolset) (scope name : Bytes)
    → fixed_forget t scope name ≡ none
    → IsOutside (lookup scope t.opts.fixed) name
unfolding fixed_forget
fixed_forget-IsOutside t scope name h = elim (Option-cases (lookup scope t.opts.fixed)) [
  | inl free ↦ rw free tt
  | inr (ns, there) ↦ rw there (ground (arith, h, there))
]

is_fixed-lookup :
    (fixed : Map (List Bytes)) (scope : Bytes)
    → is_fixed fixed scope ≡ false
    → lookup scope fixed ≡ none
unfolding is_fixed
is_fixed-lookup fixed scope h = ground (arith, h)

module _ (t : Toolset) where
  -- What a writer may do to the names of a scope whose names are fixed: a save writes one of them, a
  -- forget none of them, an insert has no such scope.
  abbrev pub KeepsNames : WriterCall → Bytes → Bytes → Type 0
  KeepsNames (save_call a) scope name = IsAmong (lookup scope t.opts.fixed) name
  KeepsNames (patch_call a) scope name = Unit
  KeepsNames (forget_call a) scope name = IsOutside (lookup scope t.opts.fixed) name
  KeepsNames (insert_call stamp a) scope name =
      (mentions t.opts.insert_scopes scope ≡ true) × (lookup scope t.opts.fixed ≡ none)

  pub record Reached (call : WriterCall) (r : ToolResult) : Type 0 where
    pub tool : Bytes
    pub change : Change
    pub details_are : r.details ≡ some (record { tool = tool; change = change })
    pub writable : IsWritable t change.entry.scope
    pub names : KeepsNames call change.entry.scope change.entry.name

  abbrev pub Within : Option Manifest → Option WriterCall → Answer ToolResult → Type 0
  Within m (some call) r = Answered (λ x. NotDropped m × Reached call x) r
  Within m none r = Answered (λ x. ⊥) r

module _ (digest : Bytes → Bytes) {S : Type 0} (store : Store S)
    (live : S → Bytes → Bytes → Option Entry) (laws : IsStore digest store live) (t : Toolset)
    (checked : IsChecked t) (ctx : Context) where
  patch-Reached :
      (a : PatchArgs) (scope : Answer Bytes) (r : Answer ToolResult) (s : S)
      → resolve_scope t a.scope ≡ scope
      → Patched digest store live ctx a scope (r, s)
      → Answered (Reached t (patch_call a)) r
  patch-Reached a (refused x) (done r) s q h = ground (arith, h)
  patch-Reached a (refused y) (refused x) s q h = tt
  patch-Reached a (done scope) (refused x) s q h = tt
  patch-Reached a (done scope) (done r) s q h = record {
    tool = patch_tool;
    change = h.change;
    details_are = h.details_are;
    writable = rw h.scope_is (resolve_scope-IsWritable t checked a.scope scope q);
    names = tt;
  }

  save_refuses :
      (m : Option Manifest) (a : SaveArgs) (s : S) (scope : Bytes) (x : Refusal)
      → resolve_scope t a.scope ≡ done scope
      → fixed_save t scope a.name ≡ some x
      → (save digest store t ctx m a s).0 ≡ refused x
  unfolding save
  save_refuses m a s scope x q f = ground (arith, q, f)

  save-Reached :
      (m : Option Manifest) (a : SaveArgs) (s : S) (scope : Answer Bytes) (r : Answer ToolResult)
      (s' : S)
      → resolve_scope t a.scope ≡ scope
      → (save digest store t ctx m a s).0 ≡ r
      → SavedIn digest store live ctx m a scope s (r, s')
      → Answered (Reached t (save_call a)) r
  save-Reached m a s (refused y) (done r) s' q p h = ground (arith, h)
  save-Reached m a s (refused y) (refused x) s' q p h = tt
  save-Reached m a s (done scope) (refused x) s' q p h = tt
  save-Reached m a s (done scope) (done r) s' q p h =
      elim (Option-cases (fixed_save t scope a.name)) [
        | inr (x, f) ↦ ground (arith, p, save_refuses m a s scope x q f)
        | inl f ↦ record {
          tool = save_tool;
          change = h.change;
          details_are = h.details_are;
          writable = rw h.written.scope_is (resolve_scope-IsWritable t checked a.scope scope q);
          names = rw (h.written.scope_is, h.written.name_is) (fixed_save-IsAmong t scope a.name f);
        }
      ]

  insert-Reached :
      (stamp : Bytes) (a : InsertArgs) (s : S) (scope : Answer Bytes) (r : Answer ToolResult)
      → insert_scope t a.scope ≡ scope
      → Inserted digest live stamp a scope r
      → Answered (Reached t (insert_call stamp a)) r
  insert-Reached stamp a s (refused y) (done r) q h = ground (arith, h)
  insert-Reached stamp a s (refused y) (refused x) q h = tt
  insert-Reached stamp a s (done scope) (refused x) q h = tt
  insert-Reached stamp a s (done scope) (done r) q h = record {
    tool = insert_tool;
    change = h.change;
    details_are = h.details_are;
    writable = rw h.scope_is (insert_scope-IsWritable t checked a.scope scope q).0;
    names =
        let (_, listed, free) = insert_scope-IsWritable t checked a.scope scope q in
        rw h.scope_is (listed, is_fixed-lookup t.opts.fixed scope free);
  }

  forget_result-Reached :
      (a : ForgetArgs) (s : S) (scope : Bytes) (r : Result Change × S)
      → resolve_scope t a.scope ≡ done scope
      → fixed_forget t scope a.name ≡ none
      → store.forget_entry ctx s scope a.name ≡ r
      → Answered (Reached t (forget_call a)) (forget_result digest store t ctx scope a r).0
  unfolding forget_result
  forget_result-Reached a s scope (err x, s') q f h = tt
  forget_result-Reached a s scope (ok c, s') q f h =
      let (in_scope, has_name) = laws.forget_live ctx s scope a.name c s' h in
      record {
        tool = forget_tool;
        change = c;
        details_are = refl;
        writable = rw in_scope (resolve_scope-IsWritable t checked a.scope scope q);
        names = rw (in_scope, has_name) (fixed_forget-IsOutside t scope a.name f);
      }

  module _ (a : ForgetArgs) (s : S) where
    forget_unscoped :
        (x : Refusal)
        → resolve_scope t a.scope ≡ refused x
        → (forget_tool_call digest store t ctx a s).0 ≡ refused x
    unfolding forget_tool_call
    forget_unscoped x q = ground (arith, q)

    forget_refuses :
        (scope : Bytes) (x : Refusal)
        → resolve_scope t a.scope ≡ done scope
        → fixed_forget t scope a.name ≡ some x
        → (forget_tool_call digest store t ctx a s).0 ≡ refused x
    unfolding forget_tool_call
    forget_refuses scope x q f = ground (arith, q, f)

    forget_goes :
        (scope : Bytes)
        → resolve_scope t a.scope ≡ done scope
        → fixed_forget t scope a.name ≡ none
        → (forget_tool_call digest store t ctx a s).0
          ≡ (forget_result digest store t ctx scope a (store.forget_entry ctx s scope a.name)).0
    unfolding forget_tool_call
    forget_goes scope q f = ground (arith, q, f)

    forget-Reached :
        (scope : Answer Bytes)
        → resolve_scope t a.scope ≡ scope
        → Answered (Reached t (forget_call a)) (forget_tool_call digest store t ctx a s).0
    forget-Reached (refused x) q = rw (forget_unscoped x q) tt
    forget-Reached (done scope) q = elim (Option-cases (fixed_forget t scope a.name)) [
      | inr (x, f) ↦ rw (forget_refuses scope x q f) tt
      | inl f ↦ rw (forget_goes scope q f) (forget_result-Reached a s scope _ q f refl)
    ]

  run_writer-Reached :
      (m : Option Manifest) (call : WriterCall) (s : S)
      → Answered (Reached t call) (run_writer digest store t ctx m call s).0
  unfolding run_writer
  run_writer-Reached m (save_call a) s =
      save-Reached m a s _ _ _ refl refl (save-SavedIn digest store live laws t ctx m a s)
  run_writer-Reached m (patch_call a) s =
      patch-Reached a _ _ _ refl (patch-Patched digest store live laws t ctx a s)
  run_writer-Reached m (forget_call a) s = forget-Reached a s _ refl
  run_writer-Reached m (insert_call stamp a) s =
      insert-Reached stamp a s _ _ refl
        (insert_tool_call-Inserted digest store live laws t ctx stamp a s)

  Answered-both :
      (m : Option Manifest) (call : WriterCall) (r : Answer ToolResult)
      → NotDropped m
      → Answered (Reached t call) r
      → Answered (λ x. NotDropped m × Reached t call x) r
  Answered-both m call (done r) p h = (p, h)
  Answered-both m call (refused x) p h = tt

  unless_dropped :
      (m : Option Manifest)
      → ((elim m [ none ↦ false | some shown ↦ dropped shown ]) ≡ false)
      → NotDropped m
  unless_dropped none h = tt
  unless_dropped (some m) h = h

  decoded-Within :
      (m : Option Manifest) (call : Option WriterCall) (s : S)
      → NotDropped m
      → Within t m call
          (elim call as (λ x. Answer ToolResult × S) [
            | none ↦ (refused bad_arguments, s)
            | some c ↦ run_writer digest store t ctx m c s
          ]).0
  decoded-Within m none s p = tt
  decoded-Within m (some call) s p = Answered-both m call _ p (run_writer-Reached m call s)

  refused-Within :
      (m : Option Manifest) (call : Option WriterCall) (x : Refusal) → Within t m call (refused x)
  refused-Within m none x = tt
  refused-Within m (some call) x = tt

  call_writer-Within :
      (m : Option Manifest) (raw : Option Bytes) (call : Option WriterCall) (s : S)
      → Within t m call (call_writer digest store t ctx m raw call s).0
  unfolding call_writer
  call_writer-Within m raw call s =
      elim (Bool-cases (elim m [ none ↦ false | some shown ↦ dropped shown ])) [
        | inl gone ↦ rw (gone, Within) (refused-Within m call block_dropped)
        | inr shown ↦ elim (Option-cases (names_read_only t raw)) [
          | inr (x, only) ↦ rw (shown, only) (refused-Within m call x)
          | inl writes ↦ rw (shown, writes) (decoded-Within m call s (unless_dropped m shown))
        ]
      ]

-- Whatever the other sessions do, a call of a writer that is done has written to a scope that the
-- tools were given, which is none of their read scopes: a save under a fixed name where the scope
-- has them, a forget of none of them, an insert in a scope of the inserts without them. No call is
-- done while the block that the model reads was dropped.
pub call_writer-confined :
    (digest : Bytes → Bytes) {S : Type 0} (store : Store S)
    (live : S → Bytes → Bytes → Option Entry)
    → IsStore digest store live
    → (scopes : List Bytes) (opts : List ToolOption) (t : Toolset)
    → new_toolset scopes opts ≡ some t
    → (ctx : Context) (m : Option Manifest) (raw : Option Bytes) (call : Option WriterCall) (s : S)
    → Within t m call (call_writer digest store t ctx m raw call s).0
call_writer-confined digest store live laws scopes opts t h ctx m raw call s =
    call_writer-Within digest store live laws t (new_toolset-IsChecked scopes opts t h) ctx m raw
      call s
