-- ===== src/Tools/Checked.antt =====
-- tools.go: what `Tools` checks of its options, and the scopes that a call resolves to.
use mathlib.Core.Path.{subst}
use mathlib.Core.Option.{some-injective}
use agentmemory.Prelude.{
  Bytes, ◌≡◌, refl, Bool-cases, inl, inr, true, false, Option, none, some, List, [], ◌∷◌, ◌++◌, Map,
  arith, length, ◌==◌, str_eq_iff, if◌then◌else◌,
}
use agentmemory.Search.{mentions}
use agentmemory.Tools.{
  Toolset, ToolOption, Answer, done, refused, scope_required, resolve_scope, insert_scope, is_fixed,
  check_read, check_insert, check_fixed, check_writable, check_toolset, new_toolset,
  resolve_tool_options, default_tool_options, ◌or_else◌, panic_if, Panic, no_scopes, ToolOptions,
  with_defaults,
}

mentions_self : (s : Bytes) (ss : List Bytes) → mentions (s ∷ ss) s ≡ true
unfolding mentions
mentions_self s ss = ground (arith, (str_eq_iff s s).1 refl)

-- Where a call leaves the scope out, it is the only one.
only-mentions :
    (ss : List Bytes) (s : Bytes)
    → (elim ss as (λ _. Answer Bytes) [
      | [] ↦ refused scope_required
      | x ∷ xs ↦ if length xs == 0 then done x else refused scope_required
    ])
      ≡ done s
    → mentions ss s ≡ true
only-mentions [] s h = ground (arith, h)
only-mentions (x ∷ xs) s h = elim (Bool-cases (length xs == 0)) [
  | inl only ↦
      let same : x ≡ s = ground (arith, h, only) in
      subst (λ z. mentions (x ∷ xs) z ≡ true) same (mentions_self x xs)
  | inr more ↦ ground (arith, h, more)
]

-- A scope that a call resolves to is one of the toolset's.
resolve_scope-mentions :
    (t : Toolset) (given s : Bytes) → resolve_scope t given ≡ done s → mentions t.scopes s ≡ true
unfolding resolve_scope
resolve_scope-mentions t [] s h = only-mentions t.scopes s h
resolve_scope-mentions t (c ∷ given) s h = ground (arith, h)

insert_scope-mentions :
    (t : Toolset) (given s : Bytes)
    → insert_scope t given ≡ done s
    → mentions t.opts.insert_scopes s ≡ true
unfolding insert_scope
insert_scope-mentions t [] s h = only-mentions t.opts.insert_scopes s h
insert_scope-mentions t (c ∷ given) s h = ground (arith, h)

-- No scope is there both to read and to write.
check_read-apart :
    (scopes before read : List Bytes) (s : Bytes)
    → check_read scopes before read ≡ none
    → mentions scopes s ≡ true
    → mentions read s ≡ false
unfolding check_read mentions
check_read-apart scopes before [] s h w = refl
check_read-apart scopes before (r ∷ read) s h w =
    let rest = check_read-apart scopes (before ++ r ∷ []) read s in
    ground (arith, h, w, rest, str_eq_iff r s)

-- Inserts are of scopes that the tools write, with no fixed names.
check_insert-Free :
    (scopes : List Bytes) (fixed : Map (List Bytes)) (before given : List Bytes) (s : Bytes)
    → check_insert scopes fixed before given ≡ none
    → mentions given s ≡ true
    → (mentions scopes s ≡ true) × (is_fixed fixed s ≡ false)
unfolding check_insert mentions
check_insert-Free scopes fixed before [] s h w = ground (arith, w)
check_insert-Free scopes fixed before (r ∷ given) s h w =
    let rest = check_insert-Free scopes fixed (before ++ r ∷ []) given s in
    ground (arith, h, w, rest, str_eq_iff r s)

-- What `Tools` checks of its options.
pub record IsChecked (t : Toolset) : Type 0 where
  pub apart : (s : Bytes) → mentions t.scopes s ≡ true → mentions t.opts.read_scopes s ≡ false
  pub inserts :
      (s : Bytes)
      → mentions t.opts.insert_scopes s ≡ true
      → (mentions t.scopes s ≡ true) × (is_fixed t.opts.fixed s ≡ false)

or_else-none : (p q : Option Panic) → (p or_else q) ≡ none → (p ≡ none) × (q ≡ none)
or_else-none none q h = (refl, h)
or_else-none (some p) q h = ground (arith, h)

check_toolset-IsChecked :
    (scopes : List Bytes) (o : ToolOptions)
    → check_toolset scopes o ≡ none
    → IsChecked (record { scopes = scopes; opts = with_defaults o })
unfolding check_toolset with_defaults
check_toolset-IsChecked scopes o h =
    let (_, h1) = or_else-none (panic_if (length scopes == 0) no_scopes) _ h in
    let (_, h2) = or_else-none (check_writable [] scopes) _ h1 in
    let (read, h3) = or_else-none (check_read scopes [] o.read_scopes) _ h2 in
    let (_, inserts) = or_else-none (check_fixed scopes o.fixed) _ h3 in
    record {
      apart = λ s w. check_read-apart scopes [] o.read_scopes s read w;
      inserts = λ s w. check_insert-Free scopes o.fixed [] o.insert_scopes s inserts w;
    }

pub new_toolset-IsChecked :
    (scopes : List Bytes) (opts : List ToolOption) (t : Toolset)
    → new_toolset scopes opts ≡ some t
    → IsChecked t
unfolding new_toolset
new_toolset-IsChecked scopes opts t h =
    go (check_toolset scopes (resolve_tool_options default_tool_options opts)) refl h
  where
    go :
        (p : Option Panic)
        → check_toolset scopes (resolve_tool_options default_tool_options opts) ≡ p
        → (elim p as (λ _. Option Toolset) [
          | some _ ↦ none
          | none ↦ some (record {
            scopes = scopes;
            opts = with_defaults (resolve_tool_options default_tool_options opts);
          })
        ])
          ≡ some t
        → IsChecked t
    go (some p) q e = ground (arith, e)
    go none q e =
        subst IsChecked (some-injective _ _ e)
          (check_toolset-IsChecked scopes (resolve_tool_options default_tool_options opts) q)

module _ (t : Toolset) where
  -- A scope that the tools write, and do not only read.
  abbrev pub IsWritable : Bytes → Type 0
  IsWritable s = (mentions t.scopes s ≡ true) × (mentions t.opts.read_scopes s ≡ false)

  pub resolve_scope-IsWritable :
      IsChecked t → (given s : Bytes) → resolve_scope t given ≡ done s → IsWritable s
  resolve_scope-IsWritable checked given s h =
      let there = resolve_scope-mentions t given s h in (there, checked.apart s there)

  pub insert_scope-IsWritable :
      IsChecked t
      → (given s : Bytes) → insert_scope t given ≡ done s
      → IsWritable s × (mentions t.opts.insert_scopes s ≡ true) × (is_fixed t.opts.fixed s ≡ false)
  insert_scope-IsWritable checked given s h =
      let listed = insert_scope-mentions t given s h in
      let (there, free) = checked.inserts s listed in ((there, checked.apart s there), listed, free)
