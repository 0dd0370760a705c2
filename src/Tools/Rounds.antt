-- ===== src/Tools/Rounds.antt =====
-- tools.go: what the writers are made of: the scope of a call, the fixed names, the base of a save,
-- the edit of a patch, the name of an insert, and what a round of their loops comes to.
use agentmemory.Prelude.{
  ℕ, zero, suc, Bytes, Bool, true, false, ◌&&◌, Option, none, some, List, [], ◌∷◌, ◌++◌, lookup,
  drop, take, length, ltb, ◌==◌, str_eq, decimal, if◌then◌else◌,
}
use agentmemory.Memory.{
  Entry, Change, Error, not_found, conflict, Result, ok, err, PutOption, based_on, if_meta_hash,
  hash_of, hash_prefix, meta_hash_of,
}
use agentmemory.Search.{mentions}
use agentmemory.Manifest.{Manifest, ManifestEntry, dropped}
use agentmemory.FileStore.FrontMatter.{cut_str}
use agentmemory.Tools.Options.{Toolset, write_tools}
use agentmemory.Tools.Answers.{
  SaveArgs, PatchArgs, InsertArgs, ForgetArgs, ToolResult, Refusal, store_error, read_only,
  scope_required, scope_unavailable, takes_no_insert, name_not_fixed, name_fixed, nothing_to_patch,
  Answer, done, refused,
}

-- `CheckWrite`: whether it refuses.
unfoldable pub check_write : Manifest → Bytes → Bool
check_write m tool = dropped m && mentions write_tools tool

-- `scope`.
unfoldable pub resolve_scope : Toolset → Bytes → Answer Bytes
resolve_scope t [] = elim t.scopes [
  | [] ↦ refused scope_required
  | s ∷ ss ↦ if length ss == 0 then done s else refused scope_required
]
resolve_scope t (c ∷ s) =
    if mentions t.scopes (c ∷ s)
    then done (c ∷ s)
    else if mentions t.opts.read_scopes (c ∷ s)
    then refused (read_only (c ∷ s))
    else refused (scope_unavailable (c ∷ s))

-- `insertScope`.
unfoldable pub insert_scope : Toolset → Bytes → Answer Bytes
insert_scope t [] = elim t.opts.insert_scopes [
  | [] ↦ refused scope_required
  | s ∷ ss ↦ if length ss == 0 then done s else refused scope_required
]
insert_scope t (c ∷ s) =
    if mentions t.opts.insert_scopes (c ∷ s)
    then done (c ∷ s)
    else if mentions t.opts.read_scopes (c ∷ s)
    then refused (read_only (c ∷ s))
    else refused (takes_no_insert (c ∷ s))

-- `fixedSave`.
unfoldable pub fixed_save : Toolset → Bytes → Bytes → Option Refusal
fixed_save t scope name = elim (lookup scope t.opts.fixed) [
  | none ↦ none
  | some ns ↦ if mentions ns name then none else some (name_not_fixed scope name)
]

-- `fixedForget`.
unfoldable pub fixed_forget : Toolset → Bytes → Bytes → Option Refusal
fixed_forget t scope name = elim (lookup scope t.opts.fixed) [
  | none ↦ none
  | some ns ↦ if mentions ns name then some (name_fixed scope name) else none
]

-- The loop of `shown`.
unfoldable pub shown_in : List ManifestEntry → Bytes → Bytes → Option Bytes
shown_in [] scope name = none
shown_in (me ∷ es) scope name =
    if str_eq me.scope scope && str_eq me.name name then some me.hash else shown_in es scope name

-- `shown`: the hash that the block showed for the entry.
unfoldable pub shown_hash : Option Manifest → Bytes → Bytes → Option Bytes
shown_hash none scope name = none
shown_hash (some m) scope name = shown_in m.entries scope name

-- `strings.Count` of a text that is not empty: each round takes off the text at least, so the
-- length is enough fuel.
unfoldable pub count_from : ℕ → Bytes → Bytes → ℕ
count_from zero text s = 0
count_from (suc fuel) text s = elim (cut_str text s) [
  | none ↦ 0
  | some (before, after) ↦ suc (count_from fuel text after)
]

unfoldable pub count_text : Bytes → Bytes → ℕ
count_text text s = count_from (length s) text s

-- `strings.Replace(s, old, new, 1)`.
unfoldable pub replace_first : Bytes → Bytes → Bytes → Bytes
replace_first old new s = elim (cut_str old s) [
  | none ↦ s
  | some (before, after) ↦ before ++ (new ++ after)
]

-- The entry, or none where there is no such entry.
unfoldable pub found_or_none : Result Entry → Result (Option Entry)
found_or_none (ok e) = ok (some e)
found_or_none (err (not_found _ _)) = ok none
found_or_none (err x) = err x

-- `errors.As(err, &ce) && ce.Meta`.
unfoldable pub is_meta_conflict : Result Change → Bool
is_meta_conflict (err (conflict c)) = c.is_meta
is_meta_conflict _ = false

-- What a round of a loop over attempts comes to: an answer, or a conflict to try again after.
pub data Attempt : Type 0 where
  settled : Answer ToolResult → Attempt
  lost : Error → Attempt

-- A loop returns with the answer of a round, or goes on after a conflict.
abbrev pub unless_settled :
    {S : Type 0} → (Error → S → Answer ToolResult × S) → Attempt × S → Answer ToolResult × S
unless_settled next (settled r, s) = (r, s)
unless_settled next (lost x, s) = next x s

-- The loop of a save returns with an error of its read, or goes on from what it read.
abbrev pub unless_read :
    {S : Type 0}
    → (Option Entry → S → Result Change × Option Entry × S)
    → Option Entry
    → Result (Option Entry)
    → S
    → Result Change × Option Entry × S
unless_read next stored (err x) s = (err x, stored, s)
unless_read next stored (ok again) s = next again s

-- The entry that a patch writes.
abbrev pub patched : PatchArgs → Entry → Entry
patched a cur = record cur { content = replace_first a.old_text a.new_text cur.content }

-- The entry that an insert creates.
abbrev pub inserted : Bytes → Bytes → InsertArgs → Entry
inserted scope name a = record {
  scope = scope;
  name = name;
  content = a.content;
  meta = a.meta;
  hash = [];
  meta_hash = [];
  updated = 0;
  deleted = false;
}

-- `if !errors.Is(err, ErrConflict) { return err }`.
unfoldable pub after_put : Error → Attempt
after_put (conflict c) = lost (conflict c)
after_put x = settled (refused (store_error x))

-- An error of a patch's `Get`.
unfoldable pub unless_found : Error → Refusal
unless_found (not_found scope name) = nothing_to_patch (not_found scope name)
unless_found x = store_error x

-- The arguments of a writer.
pub data WriterCall : Type 0 where
  save_call : SaveArgs → WriterCall
  patch_call : PatchArgs → WriterCall
  forget_call : ForgetArgs → WriterCall
  insert_call : Bytes → InsertArgs → WriterCall

-- `refuseReadOnly`.
unfoldable pub names_read_only : Toolset → Option Bytes → Option Refusal
names_read_only t none = none
names_read_only t (some s) = if mentions t.opts.read_scopes s then some (read_only s) else none

abbrev pub last_attempt : ℕ
last_attempt = 3

-- `insertAttempts`, less the first.
abbrev pub later_names : ℕ
later_names = 99

-- The base of a save: the block's hash, or that of its own read.
unfoldable pub save_base : Option Bytes → Option Entry → List PutOption
save_base shown stored =
    let base : PutOption = elim shown [
      | some h ↦ based_on h
      | none ↦ elim stored [ some e ↦ based_on e.hash | none ↦ based_on [] ]
    ] in
    base ∷ (elim stored [ none ↦ if_meta_hash [] ∷ [] | some _ ↦ [] ])

-- The entry and the options of one attempt of a save.
unfoldable pub save_entry : Bytes → SaveArgs → Option Entry → Entry
save_entry scope a stored = record {
  scope = scope;
  name = a.name;
  content = a.content;
  meta = elim a.meta [ some given ↦ given | none ↦ elim stored [ none ↦ [] | some e ↦ e.meta ] ];
  hash = [];
  meta_hash = [];
  updated = 0;
  deleted = false;
}

-- Whether the metadata is the stored entry's.
unfoldable pub keeps_meta : SaveArgs → Option Entry → Bool
keeps_meta a stored = elim a.meta [
  | some _ ↦ false
  | none ↦ elim stored [ none ↦ false | some _ ↦ true ]
]

module _ (digest : Bytes → Bytes) where
  -- `InsertName`: `stamp` is the time's format "20060102-150405".
  unfoldable pub insert_name : Bytes → Bytes → ℕ → Bytes
  insert_name stamp content n =
      stamp
      ++ (b'-'
          ∷ (take 8 (drop (length hash_prefix) (hash_of digest content))
              ++ (if ltb 1 n then b'-' ∷ decimal n else [])))

  unfoldable pub save_opts : List PutOption → SaveArgs → Option Entry → List PutOption
  save_opts base a stored = elim a.meta [
    | some _ ↦ base
    | none ↦ elim stored [
      | none ↦ base
      | some e ↦ base ++ if_meta_hash (meta_hash_of digest e.meta) ∷ []
    ]
  ]
