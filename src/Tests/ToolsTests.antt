-- ===== src/Tests/ToolsTests.antt =====
-- Runs of tools.go over a store that other sessions write to.
use agentmemory.Prelude.{
  decimal, Bytes, Map, codes, ◌≡◌, refl, inl, inr, Option, none, some, List, [], ◌∷◌,
}
use agentmemory.Memory.{Entry, Change, background, if_hash, hash_of, meta_hash_of}
use agentmemory.MemStore.Calls.{put_call, forget_call, step, run}
use agentmemory.MemStore.Searching.{search_with}
use agentmemory.Tools.{
  last_attempt, save_from, save_attempt, save_put, save_entry, save_opts, save_base, save_result,
  keeps_meta, is_meta_conflict, found_or_none, fixed_save, shown_hash, shown_in, insert_attempt,
  insert_once, insert_result, insert_name, forget_tool_call, forget_result, fixed_forget,
  names_read_only, run_writer, Store, Toolset, ToolResult, Answer, done, refused, SaveArgs,
  PatchArgs, InsertArgs, save_call, ToolOption, with_insert, with_fixed_names, with_read_scopes,
  new_toolset, with_defaults, resolve_tool_options, default_tool_options, apply_tool_option,
  check_toolset, check_writable, check_read, check_fixed, check_fixed_names, check_insert, is_fixed,
  resolve_scope, insert_scope, patch, save, insert_tool_call, call_writer, count_text, count_from,
  replace_first, patch_attempt, patch_once, patch_found, patch_put, patch_result, after_put,
  unless_found,
}
use agentmemory.Memory.EntryRules.{check_entry-decides}
use agentmemory.Search.{mentions}
use agentmemory.FileStore.FrontMatter.{cut_str}
use agentmemory.Tools.Laws.{IsStore}
use agentmemory.Tools.Shared.{Sessions, seen_entry, shared, shared-IsStore}
use agentmemory.Tools.Anchored.{Patched, patch-Patched}
use agentmemory.Tools.Quiet.{IsDone, IsEditable, next_round, HasTurn, patch-IsDone}
use agentmemory.Tools.Fresh.{Inserted, insert_tool_call-Inserted}
use agentmemory.Tools.Kept.{SavedIn, save-SavedIn}
use agentmemory.Tools.Reach.{Within, call_writer-confined}
use agentmemory.Tests.Setup.{program, digest, style, style_spaces}

abbrev as_is : Bytes → Bytes
as_is s = s

abbrev store : Store Sessions
store = shared digest 4096 [] (search_with as_is)

abbrev user_tools : Toolset
user_tools = record {
  scopes = codes "user" ∷ [];
  opts = with_defaults (record default_tool_options { insert_scopes = codes "user" ∷ [] });
}

shared-IsStore_example : IsStore digest store (seen_entry digest)
shared-IsStore_example = shared-IsStore digest 4096 [] (search_with as_is)

-- The style is there; another session indents with spaces after our first read.
abbrev contested : Sessions
contested = record {
  bound = 4096;
  past = put_call background 1 style [] ∷ [];
  others = [] ∷ (put_call background 2 style_spaces [] ∷ []) ∷ [];
  clock = 3;
}

abbrev use_more : PatchArgs
use_more = record {
  scope = [];
  name = codes "code-style";
  old_text = codes "Use";
  new_text = codes "Do use";
}

patch-Patched_example :
    Patched digest store
      (seen_entry digest)
      background
      use_more
      (resolve_scope user_tools [])
      (patch digest store user_tools background use_more contested)
patch-Patched_example =
    patch-Patched digest store (seen_entry digest)
      (shared-IsStore digest 4096 [] (search_with as_is)) user_tools background use_more contested

unfoldable writes : Unit {0}
unfolding program run step with_defaults resolve_scope insert_scope cut_str count_text count_from
    replace_first is_fixed new_toolset resolve_tool_options apply_tool_option check_toolset
    check_writable check_read check_fixed check_fixed_names check_insert mentions patch
    patch_attempt patch_once patch_found patch_put patch_result after_put unless_found save
    save_from save_attempt save_put save_entry save_opts save_base save_result keeps_meta
    is_meta_conflict found_or_none fixed_save shown_hash shown_in insert_tool_call insert_attempt
    insert_once insert_result insert_name decimal forget_tool_call forget_result fixed_forget
    names_read_only run_writer call_writer
writes = tt

abbrev record_of : Answer ToolResult → Option Change
record_of (refused x) = none
record_of (done r) = elim r.details [ none ↦ none | some w ↦ some w.change ]

abbrev content_of : Answer ToolResult → Bytes
content_of a = elim (record_of a) [ none ↦ [] | some c ↦ c.entry.content ]

-- The first write loses to the other session, and the second is of what that left.
patch_again :
    content_of (patch digest store user_tools background use_more contested).0
    ≡ codes "Do use spaces."
unfolding writes
patch_again = refl

abbrev stored_style : Entry
stored_style = record style {
  hash = hash_of digest style.content;
  meta_hash = meta_hash_of digest style.meta;
  updated = 1;
}

abbrev stored_spaces : Entry
stored_spaces = record style_spaces {
  hash = hash_of digest style_spaces.content;
  meta_hash = meta_hash_of digest style.meta;
  updated = 2;
}

style-IsEditable : IsEditable digest background use_more (codes "user") contested stored_style
unfolding program writes
style-IsEditable = record {
  found = refl;
  once = refl;
  edit_keeps_rules = (check_entry-decides _ 4096 none).0 refl;
}

spaces-IsEditable :
    IsEditable digest background use_more
      (codes "user")
      (next_round digest background use_more (codes "user") contested stored_style)
      stored_spaces
unfolding program writes
spaces-IsEditable = record {
  found = refl;
  once = refl;
  edit_keeps_rules = (check_entry-decides _ 4096 none).0 refl;
}

contested-HasTurn : HasTurn digest background use_more (codes "user") last_attempt contested
unfolding program writes
contested-HasTurn =
    (stored_style, style-IsEditable, inr (stored_spaces, spaces-IsEditable, inl refl))

patch-IsDone_example : IsDone (patch digest store user_tools background use_more contested).0
unfolding writes
patch-IsDone_example =
    patch-IsDone digest background use_more (codes "user") 4096 [] (search_with as_is) user_tools
      contested refl refl contested-HasTurn

-- Two sessions insert the same content at the same time.
abbrev lesson : InsertArgs
lesson = record { scope = codes "user"; content = codes "ask-before-release"; meta = [] }

abbrev noon : Bytes
noon = codes "20260102-120000"

abbrev twice : Sessions
twice = (insert_tool_call digest store user_tools background noon lesson contested).1

insert_tool_call-Inserted_example :
    Inserted digest
      (seen_entry digest)
      noon
      lesson
      (insert_scope user_tools (codes "user"))
      (insert_tool_call digest store user_tools background noon lesson twice).0
insert_tool_call-Inserted_example =
    insert_tool_call-Inserted digest store (seen_entry digest)
      (shared-IsStore digest 4096 [] (search_with as_is)) user_tools background noon lesson twice

insert_second_name :
    elim (record_of (insert_tool_call digest store user_tools background noon lesson twice).0) [
      | none ↦ []
      | some c ↦ c.entry.name
    ]
    ≡ insert_name digest noon lesson.content 2
unfolding writes
insert_second_name = refl

-- A save that leaves out the metadata, while another session describes the entry and a third one
-- changes its content.
abbrev tabs_again : SaveArgs
tabs_again = record {
  scope = codes "user";
  name = codes "code-style";
  content = codes "Use tabs again.";
  meta = none;
}

abbrev described : Entry
described = record style { meta = (codes "description", codes "Indentation") ∷ [] }

abbrev crowded : Sessions
crowded = record contested { others = [] ∷ (put_call background 2 described [] ∷ []) ∷ [] }

save-SavedIn_example :
    SavedIn digest store
      (seen_entry digest)
      background
      none
      tabs_again
      (resolve_scope user_tools (codes "user"))
      crowded
      (save digest store user_tools background none tabs_again crowded)
save-SavedIn_example =
    save-SavedIn digest store (seen_entry digest)
      (shared-IsStore digest 4096 [] (search_with as_is)) user_tools background none tabs_again
      crowded

abbrev meta_of : Answer ToolResult → Map Bytes
meta_of a = elim (record_of a) [ none ↦ [] | some c ↦ c.entry.meta ]

kept_description :
    meta_of (save digest store user_tools background none tabs_again crowded).0 ≡ described.meta
unfolding writes
kept_description = refl

-- The entry is described, forgotten and created again with a description around the save's retry:
-- the description is written over, with none in its place.
abbrev unlucky : Sessions
unlucky = record contested {
  others =
      []
      ∷ (put_call background 2 described [] ∷ [])
      ∷ (forget_call background 3 (codes "user") (codes "code-style") ∷ [])
      ∷ (put_call background 4 described (if_hash [] ∷ []) ∷ [])
      ∷ [];
}

written_over :
    (meta_of (save digest store user_tools background none tabs_again unlucky).0 ≡ [])
    × (content_of (save digest store user_tools background none tabs_again unlucky).0
        ≡ tabs_again.content)
unfolding writes
written_over = (refl, refl)

-- A scope with fixed names, one to read, and inserts in a third.
abbrev team_options : List ToolOption
team_options =
    with_read_scopes (codes "org" ∷ [])
    ∷ with_fixed_names (codes "user") (codes "code-style" ∷ [])
    ∷ with_insert (codes "log" ∷ [])
    ∷ []

abbrev team_tools : Toolset
team_tools = record {
  scopes = codes "user" ∷ codes "log" ∷ [];
  opts = with_defaults (resolve_tool_options default_tool_options team_options);
}

team_checked : new_toolset (codes "user" ∷ codes "log" ∷ []) team_options ≡ some team_tools
unfolding writes
team_checked = refl

call_writer-confined_example :
    Within team_tools none
      (some (save_call tabs_again))
      (call_writer digest store team_tools background none
        (some (codes "user"))
        (some (save_call tabs_again))
        contested).0
call_writer-confined_example =
    call_writer-confined digest store (seen_entry digest)
      (shared-IsStore digest 4096 [] (search_with as_is)) (codes "user" ∷ codes "log" ∷ [])
      team_options team_tools team_checked background none (some (codes "user"))
      (some (save_call tabs_again)) contested

confined_saves :
    content_of
      (call_writer digest store team_tools background none
        (some (codes "user"))
        (some (save_call tabs_again))
        contested).0
    ≡ tabs_again.content
unfolding writes
confined_saves = refl
