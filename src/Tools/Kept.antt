-- ===== src/Tools/Kept.antt =====
-- tools.go: a save writes the call's content, based on what the model saw, and keeps the metadata
-- that the call leaves out.
pub mod Metadata
use mathlib.Core.Path.{subst}
use agentmemory.Prelude.{
  ℕ, zero, suc, Bytes, ◌≡◌, refl, sym, ◌∙◌, ◌⊎◌, inl, inr, Bool, true, false, ◌&&◌, Option, none,
  some, List, [], Map, arith, str_eq_iff,
}
use agentmemory.Memory.{
  Entry, Change, conflict, not_found, invalid, too_large, unsupported, meta_key_not_name,
  manifest_base, manifest_bad, over_budget, scope_twice, Result, ok, err, Context, PutOption,
  resolve_put_options, resolve_from, apply_option, base_for, stored_hash, stored_meta_hash,
  check_options, meta_hash_of,
}
use agentmemory.Manifest.{Manifest}
use agentmemory.Tools.{
  Store, Toolset, ToolResult, SaveArgs, Answer, done, refused, save_tool, resolve_scope, fixed_save,
  shown_hash, found_or_none, is_meta_conflict, save_base, save_opts, save_entry, keeps_meta,
  unless_read, save_put, save_attempt, save_result, save_from, save, last_attempt,
}
use agentmemory.Tools.Laws.{IsStore}
use agentmemory.Tools.Outcomes.{Ends}
use Metadata.{save_basis, MetaKept, Fits, save_opts-base, save_entry-MetaKept}

-- A write was refused because the metadata had changed.
abbrev pub MetMeta : Result Change → Type 0
MetMeta (err (conflict c)) = c.is_meta ≡ true
MetMeta _ = ⊥

meta_conflict-MetMeta : (r : Result Change) → is_meta_conflict r ≡ true → MetMeta r
unfolding is_meta_conflict
meta_conflict-MetMeta (ok c) h = ground (arith, h)
meta_conflict-MetMeta (err (conflict c)) h = h
meta_conflict-MetMeta (err (not_found _ _)) h = ground (arith, h)
meta_conflict-MetMeta (err (invalid _)) h = ground (arith, h)
meta_conflict-MetMeta (err (too_large _)) h = ground (arith, h)
meta_conflict-MetMeta (err (unsupported _)) h = ground (arith, h)
meta_conflict-MetMeta (err (meta_key_not_name _)) h = ground (arith, h)
meta_conflict-MetMeta (err (manifest_base _)) h = ground (arith, h)
meta_conflict-MetMeta (err (manifest_bad _)) h = ground (arith, h)
meta_conflict-MetMeta (err over_budget) h = ground (arith, h)
meta_conflict-MetMeta (err (scope_twice _)) h = ground (arith, h)

module _ (digest : Bytes → Bytes) {S : Type 0} (store : Store S)
    (live : S → Bytes → Bytes → Option Entry) (ctx : Context) (m : Option Manifest)
    (a : SaveArgs) where
  -- What the save did just before the state `at`: a write that met changed metadata, and then a read
  -- that found no such entry.
  pub record ReadAsGone (scope : Bytes) (at : S) : Type 0 where
    pub before : S
    pub between : S
    pub sent : Entry
    pub opts : List PutOption
    pub lost : Result Change
    pub met : MetMeta lost
    pub was_refused : store.put_entry ctx before sent opts ≡ (lost, between)
    pub was_gone : found_or_none (store.get_entry between scope a.name).0 ≡ ok none
    pub then_at : (store.get_entry between scope a.name).1 ≡ at

  -- A save's last write, which took the state `at` to the one that the save leaves, where its first
  -- read found `first`. Its record is of the call's content, written over the entry that was live
  -- then, based on the hash in the block or on that of the first read.
  pub record Written (scope : Bytes) (first : Option Entry) (c : Change) (after : S) : Type 0 where
    pub at : S
    pub sent : Entry
    pub opts : List PutOption
    pub was_written : store.put_entry ctx at sent opts ≡ (ok c, after)
    pub scope_is : c.entry.scope ≡ scope
    pub name_is : c.entry.name ≡ a.name
    pub content_is : c.entry.content ≡ a.content
    pub prev_is : c.prev ≡ save_basis (shown_hash m scope a.name) first
    pub replaced_is : c.replaced ≡ stored_hash (live at scope a.name)
    pub meta_is :
        MetaKept digest (ReadAsGone scope at) a.meta first c.entry.meta (live at scope a.name)

  pub record Saved (scope : Bytes) (s : S) (r : ToolResult) (after : S) : Type 0 where
    pub change : Change
    pub first : Option Entry
    pub details_are : r.details ≡ some (record { tool = save_tool; change = change })
    pub first_is : found_or_none (store.get_entry s scope a.name).0 ≡ ok first
    pub written : Written scope first change after

  abbrev Lands : Bytes → Option Entry → Result Change × Option Entry × S → Type 0
  Lands scope first (ok c, stored, s) = Written scope first c s
  Lands scope first (err x, stored, s) = Unit

  abbrev FitsHere : Bytes → Option Entry → Option Entry → S → Type 0
  FitsHere scope first stored s = Fits digest (ReadAsGone scope s) first stored

  abbrev written_on : Bytes → Option Entry → List PutOption
  written_on scope first = save_base (shown_hash m scope a.name) first

  abbrev pub SavedIn : Answer Bytes → S → Answer ToolResult × S → Type 0
  SavedIn (done scope) s r = Ends (Saved scope s) r
  SavedIn (refused x) s r = r.0 ≡ refused x

module _ (digest : Bytes → Bytes) {S : Type 0} (store : Store S)
    (live : S → Bytes → Bytes → Option Entry) (laws : IsStore digest store live) (t : Toolset)
    (ctx : Context) (m : Option Manifest) (a : SaveArgs) where
  put-Lands :
      (scope : Bytes) (first stored : Option Entry) (s : S) (r : Result Change × S)
      → FitsHere digest store live ctx m a scope first stored s
      → save_put digest store t ctx scope a
          (written_on digest store live ctx m a scope first)
          stored
          s
        ≡ r
      → Lands digest store live ctx m a scope first (r.0, stored, r.1)
  unfolding save_put save_entry
  put-Lands scope first stored s (err x, s') fits q = tt
  put-Lands scope first stored s (ok c, s') fits q =
      let l = laws.put_live ctx s (save_entry scope a stored) _ c s' q in
      let held = live s scope a.name in
      record {
        at = s;
        sent = save_entry scope a stored;
        opts = _;
        was_written = q;
        scope_is = l.scope_is;
        name_is = l.name_is;
        content_is = l.content_is;
        prev_is =
            l.prev_is
            ∙ save_opts-base digest a a.meta (shown_hash m scope a.name) first stored held;
        replaced_is = l.replaced_is;
        meta_is =
            subst
              (λ w.
                MetaKept digest (ReadAsGone digest store live ctx m a scope s) a.meta first w held)
              (sym l.meta_is)
              (save_entry-MetaKept digest (ReadAsGone digest store live ctx m a scope s) a a.meta
                (shown_hash m scope a.name) first stored held scope fits l.accepted);
      }

  -- A save tries again only after it found an entry, and a write of it met changed metadata.
  fits-again :
      (scope : Bytes) (first stored again : Option Entry) (before between : S)
      (lost : Result Change) (sent : Entry) (opts : List PutOption)
      → FitsHere digest store live ctx m a scope first stored before
      → keeps_meta a stored ≡ true
      → store.put_entry ctx before sent opts ≡ (lost, between)
      → is_meta_conflict lost ≡ true
      → found_or_none (store.get_entry between scope a.name).0 ≡ ok again
      → FitsHere digest store live ctx m a scope first again
          (store.get_entry between scope a.name).1
  unfolding keeps_meta
  fits-again scope none none again before between lost sent opts fits kept w met q =
      ground (arith, kept)
  fits-again scope none (some e) again before between lost sent opts fits kept w met q = absurd fits
  fits-again scope (some f) stored none before between lost sent opts fits kept w met q = record {
    before = before;
    between = between;
    sent = sent;
    opts = opts;
    lost = lost;
    met = meta_conflict-MetMeta lost met;
    was_refused = w;
    was_gone = q;
    then_at = refl;
  }
  fits-again scope (some f) stored (some e) before between lost sent opts fits kept w met q = tt

  unless_read-Lands :
      (scope : Bytes) (first : Option Entry) (stored : Option Entry)
      (next : Option Entry → S → Result Change × Option Entry × S) (s' : S)
      (g : Result (Option Entry))
      → ((again : Option Entry)
          → g ≡ ok again
          → Lands digest store live ctx m a scope first (next again s'))
      → Lands digest store live ctx m a scope first (unless_read next stored g s')
  unless_read-Lands scope first stored next s' (err x) f = tt
  unless_read-Lands scope first stored next s' (ok again) f = f again refl

  either-Lands :
      (scope : Bytes) (first : Option Entry) (b : Bool)
      (last more : Result Change × Option Entry × S)
      → Lands digest store live ctx m a scope first last
      → (b ≡ true → Lands digest store live ctx m a scope first more)
      → Lands digest store live ctx m a scope first
          (elim b as (λ x. Result Change × Option Entry × S) [ false ↦ last | true ↦ more ])
  either-Lands scope first false last more h f = h
  either-Lands scope first true last more h f = f refl

  put_called :
      (scope : Bytes) (first stored : Option Entry) (s : S)
      → store.put_entry ctx s
          (save_entry scope a stored)
          (save_opts digest (written_on digest store live ctx m a scope first) a stored)
        ≡ (
          (save_put digest store t ctx scope a
              (written_on digest store live ctx m a scope first)
              stored
              s).0,
          (save_put digest store t ctx scope a
              (written_on digest store live ctx m a scope first)
              stored
              s).1,
        )
  unfolding save_put
  put_called scope first stored s = refl

  save_attempt-Lands :
      (left : ℕ) (scope : Bytes) (first stored : Option Entry) (s : S)
      → FitsHere digest store live ctx m a scope first stored s
      → Lands digest store live ctx m a scope first (
          save_attempt digest store t ctx left scope a
            (written_on digest store live ctx m a scope first)
            stored
            s)
  unfolding save_attempt
  save_attempt-Lands zero scope first stored s fits = put-Lands scope first stored s _ fits refl
  save_attempt-Lands (suc left) scope first stored s fits =
      let r =
        save_put digest store t ctx scope a (written_on digest store live ctx m a scope first)
          stored s in
      either-Lands scope first (keeps_meta a stored && is_meta_conflict r.0) (r.0, stored, r.1) _
        (put-Lands scope first stored s _ fits refl)
        (λ retried. unless_read-Lands scope first stored _ _ _ (λ again q.
          save_attempt-Lands left scope first again (store.get_entry r.1 scope a.name).1 (
            fits-again scope first stored again s r.1 r.0 _ _ fits (ground (arith, retried))
              (put_called scope first stored s) (ground (arith, retried)) q)))

  save_result-Saved :
      (scope : Bytes) (first : Option Entry) (s : S) (r : Result Change × Option Entry × S)
      → found_or_none (store.get_entry s scope a.name).0 ≡ ok first
      → Lands digest store live ctx m a scope first r
      → Ends
          (Saved digest store live ctx m a scope s)
          (save_result digest store t ctx scope a (shown_hash m scope a.name) r)
  unfolding save_result
  save_result-Saved scope first s (err x, stored, s') q h = tt
  save_result-Saved scope first s (ok c, stored, s') q h = record {
    change = c;
    first = first;
    details_are = refl;
    first_is = q;
    written = h;
  }

  first_fits :
      (scope : Bytes) (first : Option Entry) (s : S)
      → FitsHere digest store live ctx m a scope first first s
  first_fits scope none s = tt
  first_fits scope (some e) s = tt

  save_from-Saved :
      (scope : Bytes) (s s' : S) (g : Result (Option Entry))
      → found_or_none (store.get_entry s scope a.name).0 ≡ g
      → Ends
          (Saved digest store live ctx m a scope s)
          (save_from digest store t ctx scope a (shown_hash m scope a.name) g s')
  unfolding save_from
  save_from-Saved scope s s' (err x) q = tt
  save_from-Saved scope s s' (ok first) q =
      save_result-Saved scope first s _ q
        (save_attempt-Lands last_attempt scope first first s' (first_fits scope first s'))

  -- A save that is done wrote the call's content in the call's scope, with a record based on the hash
  -- that the block showed, or else on what its first read found. It wrote the metadata of the call;
  -- left out, that of the entry that it wrote over, or none where there was none, unless its first
  -- read found the entry, a write of it met changed metadata, and its read after that, the one just
  -- before the write that landed, found the entry gone.
  pub save-SavedIn :
      (s : S)
      → SavedIn digest store live ctx m a
          (resolve_scope t a.scope)
          s
          (save digest store t ctx m a s)
  unfolding save
  save-SavedIn s =
      let from : Bytes → Answer ToolResult × S = λ scope.
        save_from digest store t ctx scope a (shown_hash m scope a.name)
          (found_or_none (store.get_entry s scope a.name).0) (store.get_entry s scope a.name).1 in
      elim (resolve_scope t a.scope)
        as (λ z. SavedIn digest store live ctx m a z s (elim z as (λ x. Answer ToolResult × S) [
          | refused x ↦ (refused x, s)
          | done scope ↦ elim (fixed_save t scope a.name) as (λ x. Answer ToolResult × S) [
            | some x ↦ (refused x, s)
            | none ↦ from scope
          ]
        ])) [
          | refused x ↦ refl
          | done scope ↦
              elim (fixed_save t scope a.name)
                as (λ z.
                  Ends (Saved digest store live ctx m a scope s)
                    (elim z as (λ x. Answer ToolResult × S) [
                      | some x ↦ (refused x, s)
                      | none ↦ from scope
                    ])) [ some x ↦ tt | none ↦ save_from-Saved scope s _ _ refl ]
        ]
