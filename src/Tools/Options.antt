-- ===== src/Tools/Options.antt =====
-- tools.go: `ToolOption` and its functions as data, and what `Tools` refuses. The manifest that
-- `WithRendered` gives is an argument of each call; here is whether there is one.
use agentmemory.Prelude.{
  ℤ, pos, negsuc, ℕ, zero, suc, Bytes, codes, Bool, true, false, not, Option, none, some, List, [],
  ◌∷◌, ◌++◌, Map, lookup, insert, length, ◌==◌,
}
use agentmemory.Memory.{valid_scope, valid_name}
use agentmemory.Search.{mentions}

abbrev pub save_tool : Bytes
save_tool = codes "memory_save"

abbrev pub patch_tool : Bytes
patch_tool = codes "memory_patch"

abbrev pub forget_tool : Bytes
forget_tool = codes "memory_forget"

abbrev pub search_tool : Bytes
search_tool = codes "memory_search"

abbrev pub insert_tool : Bytes
insert_tool = codes "memory_insert"

-- `WriteTools`.
abbrev pub write_tools : List Bytes
write_tools = save_tool ∷ patch_tool ∷ forget_tool ∷ insert_tool ∷ []

abbrev pub default_search_limit : ℕ
default_search_limit = 5

abbrev pub default_search_bytes : ℕ
default_search_bytes = 16384

-- `fixed` has the names of each scope that has fixed names.
pub record ToolOptions : Type 0 where
  pub search_limit : ℤ
  pub search_bytes : ℤ
  pub has_rendered : Bool
  pub read_scopes : List Bytes
  pub fixed : Map (List Bytes)
  pub insert_scopes : List Bytes

pub data ToolOption : Type 0 where
  with_search_limit : ℤ → ToolOption
  with_search_bytes : ℤ → ToolOption
  with_rendered : Bool → ToolOption
  with_read_scopes : List Bytes → ToolOption
  with_fixed_names : Bytes → List Bytes → ToolOption
  with_insert : List Bytes → ToolOption

abbrev pub default_tool_options : ToolOptions
default_tool_options = record {
  search_limit = pos default_search_limit;
  search_bytes = pos default_search_bytes;
  has_rendered = false;
  read_scopes = [];
  fixed = [];
  insert_scopes = [];
}

unfoldable pub apply_tool_option : ToolOptions → ToolOption → ToolOptions
apply_tool_option o (with_search_limit n) = record o { search_limit = n }
apply_tool_option o (with_search_bytes n) = record o { search_bytes = n }
apply_tool_option o (with_rendered given) = record o { has_rendered = given }
apply_tool_option o (with_read_scopes ss) = record o { read_scopes = o.read_scopes ++ ss }
apply_tool_option o (with_fixed_names s ns) = record o { fixed = insert s ns o.fixed }
apply_tool_option o (with_insert ss) = record o { insert_scopes = o.insert_scopes ++ ss }

unfoldable pub resolve_tool_options : ToolOptions → List ToolOption → ToolOptions
resolve_tool_options o [] = o
resolve_tool_options o (opt ∷ opts) = resolve_tool_options (apply_tool_option o opt) opts

-- What `Tools` panics about, one constructor for each message.
pub data Panic : Type 0 where
  no_scopes : Panic
  scope_bad : Bytes → Panic
  scope_repeated : Bytes → Panic
  read_scope_bad : Bytes → Panic
  read_scope_repeated : Bytes → Panic
  scope_both_ways : Bytes → Panic
  fixed_not_writable : Bytes → Panic
  fixed_empty : Bytes → Panic
  fixed_bad : Bytes → Panic
  fixed_repeated : Bytes → Panic
  insert_not_writable : Bytes → Panic
  insert_repeated : Bytes → Panic
  insert_fixed : Bytes → Panic

-- The first panic, if there is one.
infixr 5 ◌or_else◌
abbrev pub ◌or_else◌ : Option Panic → Option Panic → Option Panic
none or_else q = q
some p or_else q = some p

abbrev pub panic_if : Bool → Panic → Option Panic
panic_if true p = some p
panic_if false p = none

-- The loops of `Tools`, each with the values before the one at hand.
unfoldable pub check_writable : List Bytes → List Bytes → Option Panic
check_writable before [] = none
check_writable before (s ∷ ss) =
    panic_if (not (valid_scope s)) (scope_bad s)
    or_else panic_if (mentions before s) (scope_repeated s)
    or_else check_writable (before ++ s ∷ []) ss

unfoldable pub check_read : List Bytes → List Bytes → List Bytes → Option Panic
check_read scopes before [] = none
check_read scopes before (s ∷ ss) =
    panic_if (not (valid_scope s)) (read_scope_bad s)
    or_else panic_if (mentions before s) (read_scope_repeated s)
    or_else panic_if (mentions scopes s) (scope_both_ways s)
    or_else check_read scopes (before ++ s ∷ []) ss

unfoldable pub check_fixed_names : List Bytes → List Bytes → Option Panic
check_fixed_names before [] = none
check_fixed_names before (n ∷ ns) =
    panic_if (not (valid_name n)) (fixed_bad n)
    or_else panic_if (mentions before n) (fixed_repeated n)
    or_else check_fixed_names (before ++ n ∷ []) ns

unfoldable pub check_fixed : List Bytes → Map (List Bytes) → Option Panic
check_fixed scopes [] = none
check_fixed scopes ((s, ns) ∷ rest) =
    panic_if (not (mentions scopes s)) (fixed_not_writable s)
    or_else panic_if (length ns == 0) (fixed_empty s)
    or_else check_fixed_names [] ns
    or_else check_fixed scopes rest

unfoldable pub is_fixed : Map (List Bytes) → Bytes → Bool
is_fixed fixed s = elim (lookup s fixed) [ none ↦ false | some _ ↦ true ]

unfoldable pub check_insert : List Bytes → Map (List Bytes) → List Bytes → List Bytes → Option Panic
check_insert scopes fixed before [] = none
check_insert scopes fixed before (s ∷ ss) =
    panic_if (not (mentions scopes s)) (insert_not_writable s)
    or_else panic_if (mentions before s) (insert_repeated s)
    or_else panic_if (is_fixed fixed s) (insert_fixed s)
    or_else check_insert scopes fixed (before ++ s ∷ []) ss

-- `toolset`.
pub record Toolset : Type 0 where
  pub scopes : List Bytes
  pub opts : ToolOptions

-- `if n <= 0 { n = fallback }`.
abbrev pub limit_or : ℤ → ℤ → ℤ
limit_or fallback (negsuc _) = fallback
limit_or fallback (pos zero) = fallback
limit_or fallback (pos (suc n)) = pos (suc n)

-- The same, to a number.
abbrev pub at_least_one : ℕ → ℤ → ℕ
at_least_one fallback (negsuc _) = fallback
at_least_one fallback (pos zero) = fallback
at_least_one fallback (pos (suc n)) = suc n

unfoldable pub with_defaults : ToolOptions → ToolOptions
with_defaults o = record o {
  search_limit = limit_or (pos default_search_limit) o.search_limit;
  search_bytes = limit_or (pos default_search_bytes) o.search_bytes;
}

unfoldable pub check_toolset : List Bytes → ToolOptions → Option Panic
check_toolset scopes o =
    panic_if (length scopes == 0) no_scopes
    or_else check_writable [] scopes
    or_else check_read scopes [] o.read_scopes
    or_else check_fixed scopes o.fixed
    or_else check_insert scopes o.fixed [] o.insert_scopes

-- `Tools`, up to the tools that it builds of the methods.
unfoldable pub new_toolset : List Bytes → List ToolOption → Option Toolset
new_toolset scopes opts =
    let o = resolve_tool_options default_tool_options opts in
    elim (check_toolset scopes o) [
      | some p ↦ none
      | none ↦ some (record { scopes = scopes; opts = with_defaults o })
    ]
