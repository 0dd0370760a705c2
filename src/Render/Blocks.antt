-- ===== src/Render/Blocks.antt =====
-- render.go: the options, `RenderParts`, `JoinParts`, `Render`. The store enters by its `List`
-- and its entry bound. The label of text that nobody vouches for is agenttool's, a parameter.
use agentmemory.Prelude.{
  ℤ, pos, negsuc, ℕ, zero, suc, ◌+◌, ◌-◌, Bytes, Bool, true, false, not, ◌&&◌, ◌||◌, Option, none,
  some, List, [], ◌∷◌, ◌++◌, map, Map, lookup, insert, length, ltb, ◌==◌, str_eq, if◌then◌else◌,
}
use agentmemory.Memory.{
  Entry, size, valid_scope, over_budget, invalid, bad_scope, scope_twice, Result, ok, err,
  refuse_if, ◌>>=◌, ◌>>◌,
}
use agentmemory.Manifest.{Manifest, ManifestEntry, omit_budget}
use agentmemory.Render.Text.{
  part_separator, title, cost, scope_text, summary, entry_text, title_part_id, summary_part_id,
  part_id, scope_part_id, omitted_part_id,
}
use agentmemory.Render.Omissions.{pack, all_in, omit_line_reserve, omit_line}

pub record RenderOptions : Type 0 where
  pub max_total : ℤ
  pub scope_max : Map ℤ
  pub trust : Map (List Bytes)

abbrev pub default_options : RenderOptions
default_options = record { max_total = pos 32768; scope_max = []; trust = [] }

-- `RenderOption`: the functions that the package offers, as data.
pub data RenderOption : Type 0 where
  with_max_total : ℤ → RenderOption
  with_scope_max : Bytes → ℤ → RenderOption
  with_scope_trust : Bytes → List Bytes → RenderOption

unfoldable pub contains : List Bytes → Bytes → Bool
contains [] s = false
contains (t ∷ ts) s = str_eq t s || contains ts s

-- The loop of `WithScopeTrust`: each label once.
unfoldable pub distinct_labels : List Bytes → List Bytes → List Bytes
unfolding contains
distinct_labels reads [] = reads
distinct_labels reads (l ∷ ls) =
    distinct_labels (if contains reads l then reads else reads ++ l ∷ []) ls

-- `WithScopeTrust`.
unfoldable pub set_scope_trust : RenderOptions → Bytes → List Bytes → RenderOptions
unfolding distinct_labels insert
set_scope_trust o scope labels = record o {
  trust = insert scope (distinct_labels [] labels) o.trust;
}

unfoldable pub apply_render_option : RenderOptions → RenderOption → RenderOptions
unfolding insert set_scope_trust
apply_render_option o (with_max_total n) = record o { max_total = n }
apply_render_option o (with_scope_max scope n) = record o { scope_max = insert scope n o.scope_max }
apply_render_option o (with_scope_trust scope labels) = set_scope_trust o scope labels

unfoldable pub resolve_options : RenderOptions → List RenderOption → RenderOptions
unfolding apply_render_option
resolve_options o [] = o
resolve_options o (opt ∷ opts) = resolve_options (apply_render_option o opt) opts

pub record Part : Type 0 where
  pub id : Bytes
  pub text : Bytes
  pub trust : List Bytes

-- `JoinParts`.
unfoldable pub join_parts : List Part → Bytes
join_parts [] = []
join_parts (p ∷ []) = p.text
join_parts (p ∷ q ∷ ps) = p.text ++ (part_separator ++ join_parts (q ∷ ps))

-- A bound of one byte at least.
unfoldable pub check_bound : ℤ → Result ℕ
check_bound (negsuc n) = err over_budget
check_bound (pos n) = if ltb n 1 then err over_budget else ok n

-- No cap is under zero.
unfoldable pub check_caps : Map ℤ → Result (Unit {0})
check_caps [] = ok tt
check_caps ((_, pos n) ∷ m) = check_caps m
check_caps ((_, negsuc n) ∷ m) = err over_budget

-- Every scope is a name, and none is given twice.
unfoldable pub check_scopes : List Bytes → List Bytes → Result (Unit {0})
unfolding contains
check_scopes seen [] = ok tt
check_scopes seen (s ∷ ss) = do
  refuse_if (not (valid_scope s)) (invalid (bad_scope s))
  refuse_if (contains seen s) (scope_twice s)
  check_scopes (seen ++ s ∷ []) ss

abbrev pub Listing : Type 0
Listing = Bytes × List Entry

-- The first loop over the scopes.
unfoldable pub read_lists : (Bytes → Result (List Entry)) → List Bytes → Result (List Listing)
read_lists list [] = ok []
read_lists list (s ∷ ss) = do es ← list s; rest ← read_lists list ss; ok ((s, es) ∷ rest)

unfoldable pub total_entries : List Listing → ℕ
total_entries [] = 0
total_entries ((s, es) ∷ ls) = length es + total_entries ls

abbrev pub is_empty : List Entry → Bool
is_empty es = length es == 0

unfoldable pub headings_cost : List Listing → ℕ
unfolding scope_text
headings_cost [] = 0
headings_cost ((s, es) ∷ ls) = cost (scope_text s (is_empty es)) + headings_cost ls

-- What the block holds whatever it shows.
unfoldable pub fixed_cost : List Listing → ℕ → ℕ → ℕ
fixed_cost ls max limit =
    let total = total_entries ls in
    length title + cost (summary total total max max max limit) + headings_cost ls

-- The variables of the loop over the scopes.
pub record Placed : Type 0 where
  pub parts : List Part
  pub entries : List ManifestEntry
  pub omitted : List ManifestEntry
  pub spent : ℕ

unfoldable pub capped : ℕ → Option ℤ → ℕ
capped room none = room
capped room (some (pos n)) = if ltb n room then n else room
capped room (some (negsuc n)) = 0

-- A pass, and a second one that holds room back for the line if the first left something out.
unfoldable pub pack_twice : List Entry → ℕ → ℕ → List Bool × ℕ
unfolding pack all_in omit_line_reserve
pack_twice es limit room =
    let first = pack es limit room in
    if all_in first.0 then first else pack es limit (room - omit_line_reserve es)

-- The entries that are in, and those that are not.
unfoldable pub chosen : Bool → List Bool → List Entry → List Entry
chosen want [] es = []
chosen want (b ∷ bs) [] = []
chosen want (b ∷ bs) (e ∷ es) =
    let rest = chosen want bs es in if (want && b) || (not want && not b) then e ∷ rest else rest

abbrev pub manifest_entry : Bytes → Bytes → Entry → ManifestEntry
manifest_entry scope reason e = record {
  scope = scope;
  name = e.name;
  hash = e.hash;
  bytes = size e;
  reason = reason;
}

-- The part that names the omissions, if there is a line.
unfoldable pub omission_parts : Bytes → List Bytes → Bytes → List Part
unfolding omitted_part_id
omission_parts scope trust line =
    if str_eq line []
    then []
    else record { id = omitted_part_id scope; text = line; trust = trust } ∷ []

-- `if len(dropped) > 0 { line := omitLine(dropped, room-used) … }`.
unfoldable pub line_for : List Entry → ℕ → Bytes
unfolding omit_line
line_for dropped room = if ltb 0 (length dropped) then omit_line dropped room else []

module _ (untrusted : Bytes) where
  -- `scopeTrust`.
  unfoldable pub scope_trust : RenderOptions → Bytes → List Bytes
  unfolding lookup
  scope_trust o scope = elim (lookup scope o.trust) [ none ↦ untrusted ∷ [] | some labels ↦ labels ]

  unfoldable pub entry_part : Bytes → List Bytes → ℕ → Entry → Part
  unfolding part_id entry_text
  entry_part scope trust limit e = record {
    id = part_id scope e.name;
    text = entry_text e limit;
    trust = trust;
  }

  -- A round of the loop over the scopes, for a scope with entries and the room it has.
  unfoldable pub place_entries : RenderOptions → ℕ → ℕ → Placed → Bytes → List Entry → Placed
  place_entries o limit room p scope es =
      let packed = pack_twice es limit room in
      let dropped = chosen false packed.0 es in
      let line = line_for dropped (room - packed.1) in
      let trust = scope_trust o scope in
      record {
        parts =
            p.parts
            ++ (map (entry_part scope trust limit) (chosen true packed.0 es)
                ++ omission_parts scope trust line);
        entries = p.entries ++ map (manifest_entry scope []) (chosen true packed.0 es);
        omitted = p.omitted ++ map (manifest_entry scope omit_budget) dropped;
        spent = p.spent + (packed.1 + (if str_eq line [] then 0 else cost line));
      }

  unfoldable pub place_scope : RenderOptions → ℕ → ℕ → ℕ → Placed → Listing → Placed
  unfolding place_entries
  place_scope o limit max fixed p (scope, es) =
      let heading : Part = record {
        id = scope_part_id scope;
        text = scope_text scope (is_empty es);
        trust = [];
      } in
      let headed : Placed = record p { parts = p.parts ++ heading ∷ [] } in
      if is_empty es
      then headed
      else place_entries o limit (capped (max - fixed - p.spent) (lookup scope o.scope_max)) headed
          scope es

  unfoldable pub place_scopes : RenderOptions → ℕ → ℕ → ℕ → Placed → List Listing → Placed
  unfolding place_scope
  place_scopes o limit max fixed p [] = p
  place_scopes o limit max fixed p (l ∷ ls) =
      place_scopes o limit max fixed (place_scope o limit max fixed p l) ls

-- The loop that settles the summary: `rest` is the block but for the summary's text.
unfoldable pub settle : ℕ → Bytes → ℕ → ℕ → ℕ → ℕ → ℕ → ℕ → Bytes
unfolding summary
settle zero last shown left size rest max limit = last
settle (suc rounds) last shown left size rest max limit =
    let line = summary shown left size (max - size) max limit in
    let n = rest + length line in
    let again = settle rounds line shown left n rest max limit in if n == size then line else again

abbrev pub title_only : Placed
title_only = record {
  parts = record { id = title_part_id; text = title; trust = [] } ∷ [];
  entries = [];
  omitted = [];
  spent = 0;
}

-- The end of `RenderParts`, from the loop over the scopes.
unfoldable pub finish : Placed → ℕ → ℕ → ℕ → List Part × Manifest
unfolding settle join_parts
finish p max limit fixed =
    let rest = length (join_parts p.parts) + length part_separator in
    let last = settle 8 [] (length p.entries) (length p.omitted) (fixed + p.spent) rest max limit in
    (
      p.parts ++ record { id = summary_part_id; text = last; trust = [] } ∷ [],
      record { entries = p.entries; omitted = p.omitted; left_out = false },
    )

module _ (untrusted : Bytes) where
  -- `RenderParts` from the entries of each scope.
  unfoldable pub render_lists : RenderOptions → ℕ → ℕ → List Listing → Result (List Part × Manifest)
  render_lists o limit max ls = do
    let fixed = fixed_cost ls max limit
    refuse_if (ltb max fixed) over_budget
    ok (finish (place_scopes untrusted o limit max fixed title_only ls) max limit fixed)

  -- `RenderParts` over a store's `List` and bound.
  unfoldable pub render_parts :
      (Bytes → Result (List Entry))
      → ℕ
      → List Bytes
      → List RenderOption
      → Result (List Part × Manifest)
  render_parts list limit scopes opts = do
    let o = resolve_options default_options opts
    max ← check_bound o.max_total
    check_caps o.scope_max
    check_scopes [] scopes
    ls ← read_lists list scopes
    render_lists o limit max ls

  -- `Render`.
  unfoldable pub render :
      (Bytes → Result (List Entry)) → ℕ → List Bytes → List RenderOption → Result (Bytes × Manifest)
  render list limit scopes opts = do
    (parts, man) ← render_parts list limit scopes opts
    ok (join_parts parts, man)
