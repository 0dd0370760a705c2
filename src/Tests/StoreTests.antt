-- ===== src/Tests/StoreTests.antt =====
-- Runs of memstore.go and lostupdate.go.
use agentmemory.Prelude.{
  pos, select, Bytes, codes, ◌≡◌, ◌≢◌, refl, true, false, ◌&&◌, inl, inr, ◌⊎◌, none, List, [], ◌∷◌,
  ◌++◌, All, length, map, take, str_eq, if◌then◌else◌, ◌≤◌, ◌<◌,
}
use agentmemory.Memory.{
  Entry, Change, Result, ok, err, not_found, conflict, background, with_session, check_entry,
  if_hash, based_on, hash_of,
}
use agentmemory.Memory.EntryRules.{IsWellFormed, check_entry-decides}
use agentmemory.MemStore.{
  MemStore, new_mem_store, stamp, get, put, forget, journal_after, live_entry, list_locked,
}
use agentmemory.MemStore.Invariant.{IsValid}
use agentmemory.MemStore.Calls.{Call, put_call, forget_call, step, run, run-IsValid, written}
use agentmemory.MemStore.Reads.{get-put, get-forget, held, put-if_hash}
use agentmemory.MemStore.Listing.{Ascending, named_in, list_locked-live}
use agentmemory.MemStore.Searching.{
  list_all, search_entries, scopes_verdict, bad_scope_of, search_entries-matches,
}
use agentmemory.Search.{matches}
use agentmemory.Search.Plain.{at_most}
use agentmemory.MemStore.History.{journal_after-exact}
use agentmemory.LostUpdates.{Yield, change, damaged, lost_updates}
use agentmemory.LostUpdates.Audit.{keep_forks, reported, changes, damages, lost_updates_forks}
use agentmemory.LostUpdates.Store.{fork_reports, lost_updates-store}
use agentmemory.LostUpdates.Anchored.{anchored_lose_nothing}
use agentmemory.Tests.Setup.{program, digest, style, style_spaces, empty_store}

abbrev after_style : Result Change × MemStore
after_style = put digest empty_store background 1 style []

abbrev one : MemStore
one = after_style.1

abbrev first_change : Change
first_change = (written digest empty_store background 1 style []).0

style_lands : after_style ≡ (ok first_change, one)
unfolding program
style_lands = refl

get-put_example : get one (codes "user") (codes "code-style") ≡ (
    if str_eq style.scope (codes "user") && str_eq style.name (codes "code-style")
    then ok (stamp digest style 1)
    else get empty_store (codes "user") (codes "code-style"))
get-put_example =
    get-put digest empty_store background 1 style [] style_lands (codes "user") (codes "code-style")

forgotten : forget one background 2 (codes "user") (codes "code-style") ≡ (
  ok (record first_change {
    seq = 2;
    entry = record (stamp digest style 1) { deleted = true; updated = 2 };
    prev = (stamp digest style 1).hash;
    replaced = (stamp digest style 1).hash;
    at = 2;
  }),
  (forget one background 2 (codes "user") (codes "code-style")).1,
)
unfolding program
forgotten = refl

get-forget_example :
    get
      (forget one background 2 (codes "user") (codes "code-style")).1
      (codes "user")
      (codes "code-style")
    ≡ (if str_eq (codes "user") (codes "user") && str_eq (codes "code-style") (codes "code-style")
        then err (not_found (codes "user") (codes "code-style"))
        else get one (codes "user") (codes "code-style"))
get-forget_example =
    get-forget one background 2 (codes "user") (codes "code-style") forgotten (codes "user")
      (codes "code-style")

well_formed : (e : Entry) → check_entry e 4096 none ≡ ok tt → IsWellFormed e 4096
well_formed e h = (check_entry-decides e 4096 none).0 h

spaces_well_formed : IsWellFormed style_spaces one.max
unfolding program
spaces_well_formed = well_formed style_spaces refl

abbrev style_hash : Bytes
style_hash = hash_of digest style.content

put-if_hash_example :
    ((held digest one background 2 style_spaces style_hash spaces_well_formed ≡ style_hash)
      × (c : Change) × (m' : MemStore) × (put digest one background 2 style_spaces
            (if_hash style_hash ∷ [])
          ≡ (ok c, m'))
      × (c.prev ≡ style_hash)
      × (c.replaced ≡ style_hash)
      × (c.entry ≡ stamp digest style_spaces 2))
    ⊎ ((held digest one background 2 style_spaces style_hash spaces_well_formed ≢ style_hash)
        × (put digest one background 2 style_spaces (if_hash style_hash ∷ []) ≡ (
          err (
              conflict (record {
                scope = codes "user";
                name = codes "code-style";
                want = style_hash;
                have = held digest one background 2 style_spaces style_hash spaces_well_formed;
                is_meta = false;
              })),
          one,
        )))
unfolding program
put-if_hash_example = put-if_hash digest one background 2 style_spaces style_hash spaces_well_formed

-- A write, a write built on the first state, one built on a state that is gone, and a forget.
abbrev history : List Call
history =
    put_call background 1 style []
    ∷ put_call (with_session background (codes "s1")) 2 style_spaces (if_hash style_hash ∷ [])
    ∷ put_call (with_session background (codes "s2")) 3 style (based_on style_hash ∷ [])
    ∷ forget_call background 4 (codes "user") (codes "code-style")
    ∷ []

abbrev final : MemStore
final = run digest (new_mem_store 4096) history

run-IsValid_example : IsValid digest final
run-IsValid_example = run-IsValid digest 4096 history

final-IsValid : IsValid digest final
final-IsValid = run-IsValid digest 4096 history

journal_after-exact_example :
    (take 2 final.journal ++ journal_after final 2 ≡ final.journal)
    × All (λ c. c.seq ≤ 2) (take 2 final.journal)
    × All (λ c. 2 < c.seq) (journal_after final 2)
journal_after-exact_example = journal_after-exact digest final 2 final-IsValid

lost_updates-store_example :
    lost_updates 1 (map change (journal_after final 1)) ≡ (fork_reports (journal_after final 1), [])
lost_updates-store_example = lost_updates-store digest final 1 final-IsValid

one_fork : length (keep_forks (journal_after final 1)) ≡ 1
unfolding program run step
one_fork = refl

anchored_lose_nothing_example :
    lost_updates 0 (map change (journal_after (run digest (new_mem_store 4096) (take 2 history)) 0))
    ≡ ([], [])
unfolding program
anchored_lose_nothing_example =
    anchored_lose_nothing digest 4096 (take 2 history) 0 (inr refl, (inl refl, tt))

-- A fork behind a damaged record is reported, and so is the damage.
abbrev damaged_journal : List Yield
damaged_journal =
    change first_change
    ∷ damaged (codes "line 2")
    ∷ change (record first_change { seq = 3; prev = codes "x" })
    ∷ []

lost_updates_forks_example :
    (keep_forks (reported (lost_updates 0 damaged_journal).0)
      ≡ keep_forks (changes damaged_journal))
    × ((lost_updates 0 damaged_journal).1 ≡ damages damaged_journal)
lost_updates_forks_example = lost_updates_forks 0 damaged_journal

abbrev one_write : List Call
one_write = put_call background 1 style [] ∷ []

list_locked-live_example :
    Ascending (list_locked (run digest (new_mem_store 4096) one_write) (codes "user"))
    × ((n : Bytes)
        → named_in n (list_locked (run digest (new_mem_store 4096) one_write) (codes "user"))
          ≡ live_entry (run digest (new_mem_store 4096) one_write).live (codes "user") n)
list_locked-live_example = list_locked-live digest 4096 one_write (codes "user")

abbrev as_is : Bytes → Bytes
as_is s = s

search_entries-matches_example :
    search_entries as_is one (codes "user" ∷ []) (codes "tabs") (pos 1)
    ≡ scopes_verdict (bad_scope_of (codes "user" ∷ [])) (
        ok (
          at_most
            (pos 1)
            (select (λ e. matches as_is e (codes "tabs")) (list_all one (codes "user" ∷ [])))))
search_entries-matches_example =
    search_entries-matches as_is one (codes "user" ∷ []) (codes "tabs") (pos 1)
