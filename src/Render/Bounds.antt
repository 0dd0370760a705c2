-- ===== src/Render/Bounds.antt =====
-- render.go: the block that `RenderParts` makes is within its bound, and says how long it is.
use mathlib.Core.Path.{subst}
use agentmemory.Prelude.{
  ℤ, pos, negsuc, ℕ, ◌+◌, ◌-◌, ◌≤◌, Bytes, ◌≡◌, refl, List, [], ◌∷◌, ◌++◌, arith, length, ltb,
  width_mono,
}
use agentmemory.Memory.{Entry, Result, ok, err, over_budget, refuse_if, ◌>>=◌, ◌>>◌}
use agentmemory.Memory.EntryRules.{bind-ok}
use agentmemory.Manifest.{Manifest}
use agentmemory.Render.Text.{part_separator, title, cost, summary, summary_part_id}
use agentmemory.Render.Blocks.{
  RenderOptions, RenderOption, default_options, resolve_options, Part, join_parts, check_bound,
  check_caps, check_scopes, read_lists, Listing, total_entries, headings_cost, fixed_cost, Placed,
  title_only, place_scopes, finish, render_lists, render_parts,
}
use agentmemory.Render.Widths.{length-summary, parts_cost, parts_cost-append, parts_cost-join_parts}
use agentmemory.Render.Placing.{IsPlaced, place_scopes-title_only}
use agentmemory.Render.Settling.{line_at, size_after, Settles, settle-Settles}

check_bound-pos : (z : ℤ) (max : ℕ) → check_bound z ≡ ok max → z ≡ pos max
unfolding check_bound
check_bound-pos (negsuc n) max h = cc
check_bound-pos (pos n) max h = ground (arith, h)

-- The summary that the block ends with: it states the length of the block that it stands in.
abbrev pub EndsWithSummary : List Part → Manifest → ℕ → ℕ → Type 0
EndsWithSummary parts man max limit =
    (before : List Part) × (parts
      ≡ before
        ++ record {
          id = summary_part_id;
          text =
              summary (length man.entries) (length man.omitted) (length (join_parts parts))
                (max - length (join_parts parts)) max limit;
          trust = [];
        }
          ∷ [])

reserve_enough :
    (p : Placed) (max limit fixed heads n rest : ℕ)
    → IsPlaced max fixed heads n p
    → fixed ≡ length title + cost (summary n n max max max limit) + heads
    → rest ≡ parts_cost p.parts
    → size_after (length p.entries) (length p.omitted) rest max limit (fixed + p.spent)
      ≤ fixed + p.spent
unfolding size_after line_at
reserve_enough p max limit fixed heads n rest v f r = omega (
  arith,
  v.counted,
  v.within,
  f,
  r,
  length-summary n n max max max limit (omega arith),
  length-summary (length p.entries) (length p.omitted) (fixed + p.spent) (max - (fixed + p.spent))
      max limit (omega arith),
  width_mono (length p.entries) n v.shown,
  width_mono (length p.omitted) n v.left,
  width_mono (fixed + p.spent) max v.within,
)

finish-fits :
    (p : Placed) (max limit fixed heads n : ℕ)
    → IsPlaced max fixed heads n p
    → fixed ≡ length title + cost (summary n n max max max limit) + heads
    → (length (join_parts (finish p max limit fixed).0) ≤ max)
      × EndsWithSummary (finish p max limit fixed).0 (finish p max limit fixed).1 max limit
unfolding finish Settles size_after line_at parts_cost
finish-fits p max limit fixed heads n v f =
    let rest = length (join_parts p.parts) + length part_separator in
    let counted : rest ≡ parts_cost p.parts =
      omega (arith, parts_cost-join_parts p.parts (omega (arith, v.counted))) in
    let (s, e, stays, le) =
      settle-Settles (length p.entries) (length p.omitted) rest max limit (fixed + p.spent)
        (reserve_enough p max limit fixed heads n rest v f counted) v.within in
    let last : Part = record {
      id = summary_part_id;
      text = summary (length p.entries) (length p.omitted) s (max - s) max limit;
      trust = [];
    } in
    let long : length (join_parts (p.parts ++ last ∷ [])) ≡ s = omega (
      arith,
      v.counted,
      counted,
      stays,
      parts_cost-append p.parts (last ∷ []),
      parts_cost-join_parts (p.parts ++ last ∷ [])
          (omega (arith, v.counted, parts_cost-append p.parts (last ∷ []))),
    ) in
    rw e (rw long (omega (arith, le, v.within), (p.parts, refl)))

refuse_if_ok : (n m : ℕ) → refuse_if (ltb m n) over_budget ≡ ok tt → n ≤ m
refuse_if_ok n m h = ground (arith, h)

fixed_cost-headings :
    (ls : List Listing) (max limit : ℕ)
    → fixed_cost ls max limit
      ≡ length title
        + cost (summary (total_entries ls) (total_entries ls) max max max limit)
        + headings_cost ls
unfolding fixed_cost
fixed_cost-headings ls max limit = refl

ok_injective : {A : Type 0} {a b : A} → Result.ok a ≡ ok b → a ≡ b
ok_injective h = cc

then-ok :
    {A : Type 0} (check : Result (Unit {0})) (next : Result A) {final : A}
    → (check >> next) ≡ ok final
    → next ≡ ok final
then-ok (err failure) next h = cc
then-ok (ok done) next h = h

-- What a block that is made was made from.
render_parts-lists :
    (untrusted : Bytes) (list : Bytes → Result (List Entry)) (limit : ℕ) (scopes : List Bytes)
    (opts : List RenderOption) {r : List Part × Manifest}
    → render_parts untrusted list limit scopes opts ≡ ok r
    → (max : ℕ) × (ls : List Listing) × ((resolve_options default_options opts).max_total ≡ pos max)
      × (render_lists untrusted (resolve_options default_options opts) limit max ls ≡ ok r)
unfolding render_parts
render_parts-lists untrusted list limit scopes opts h =
    let o = resolve_options default_options opts in
    let blocks : ℕ → Result (List Part × Manifest) =
      λ max. read_lists list scopes >>= λ ls. render_lists untrusted o limit max ls in
    let (max, bounded, checked) =
      bind-ok (check_bound o.max_total)
        (λ max. check_caps o.scope_max >> (check_scopes [] scopes >> blocks max)) h in
    let read =
      then-ok (check_scopes [] scopes) (blocks max)
        (then-ok (check_caps o.scope_max) (check_scopes [] scopes >> blocks max) checked) in
    let (ls, _, made) =
      bind-ok (read_lists list scopes) (λ ls. render_lists untrusted o limit max ls) read in
    (max, ls, check_bound-pos o.max_total max bounded, made)

module _ (untrusted : Bytes) (o : RenderOptions) (limit max : ℕ) where
  render_lists-fits :
      (ls : List Listing) {parts : List Part} {man : Manifest}
      → render_lists untrusted o limit max ls ≡ ok (parts, man)
      → (length (join_parts parts) ≤ max) × EndsWithSummary parts man max limit
  unfolding render_lists
  render_lists-fits ls h =
      let fixed = fixed_cost ls max limit in
      let p = place_scopes untrusted o limit max fixed title_only ls in
      let (_, room, made) =
        bind-ok (refuse_if (ltb max fixed) over_budget) (λ _. ok (finish p max limit fixed)) h in
      let placed =
        place_scopes-title_only untrusted o limit max fixed ls (refuse_if_ok fixed max room) in
      subst
        (λ (r : List Part × Manifest).
          (length (join_parts r.0) ≤ max) × EndsWithSummary r.0 r.1 max limit)
        (ok_injective made)
        (finish-fits p max limit fixed (headings_cost ls) (total_entries ls) placed
          (fixed_cost-headings ls max limit))

-- A block that `RenderParts` makes is no longer than the bound it is given, and the summary that
-- ends it states the block's own length, what is left of the bound, and how many entries it
-- shows and how many it leaves out.
pub render_parts-fits :
    (untrusted : Bytes) (list : Bytes → Result (List Entry)) (limit : ℕ) (scopes : List Bytes)
    (opts : List RenderOption) {parts : List Part} {man : Manifest}
    → render_parts untrusted list limit scopes opts ≡ ok (parts, man)
    → (max : ℕ) × ((resolve_options default_options opts).max_total ≡ pos max)
      × (length (join_parts parts) ≤ max)
      × EndsWithSummary parts man max limit
render_parts-fits untrusted list limit scopes opts h =
    let (max, ls, bounded, made) = render_parts-lists untrusted list limit scopes opts h in
    let (fits, ends) =
      render_lists-fits untrusted (resolve_options default_options opts) limit max ls made in
    (max, bounded, fits, ends)
