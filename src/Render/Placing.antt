-- ===== src/Render/Placing.antt =====
-- render.go: the loop over the scopes spends what it places, and no more than there is.
use agentmemory.Prelude.{
  ℤ, ℕ, ◌+◌, ◌-◌, ◌≤◌, Bytes, ◌≡◌, refl, Bool, true, false, Option, List, [], ◌∷◌, ◌++◌, map, arith,
  length, length-append, lookup, if◌then◌else◌,
}
use agentmemory.Memory.{Entry}
use agentmemory.Manifest.{omit_budget}
use agentmemory.Render.Text.{title, cost, scope_text, scope_part_id}
use agentmemory.Render.Blocks.{
  RenderOptions, Part, Listing, Placed, title_only, is_empty, total_entries, headings_cost, capped,
  pack_twice, chosen, manifest_entry, omission_parts, line_for, scope_trust, entry_part,
  place_entries, place_scope, place_scopes,
}
use agentmemory.Render.Widths.{parts_cost, parts_cost-append}
use agentmemory.Render.Packing.{
  line_cost, line_for-fits, length-chosen, pack_twice-fits, pack_twice-cost,
  parts_cost-omission_parts,
}

length-map {ℓ κ} :
    {A : Type ℓ} {B : Type κ} (f : A → B) (xs : List A) → length (map f xs) ≡ length xs
length-map f [] = refl
length-map f (x ∷ xs) = omega (arith, length-map f xs)

-- After headings that take `heads` bytes and scopes that list `n` entries.
pub record IsPlaced (max fixed heads n : ℕ) (p : Placed) : Type 0 where
  pub within : fixed + p.spent ≤ max
  pub counted : parts_cost p.parts ≡ cost title + heads + p.spent
  pub shown : length p.entries ≤ n
  pub left : length p.omitted ≤ n

capped-le : (room : ℕ) (cap : Option ℤ) → capped room cap ≤ room
unfolding capped
capped-le room cap = ground arith

module _ (untrusted : Bytes) (o : RenderOptions) (limit max fixed : ℕ) where
  place_entries-IsPlaced :
      (room heads n : ℕ) (p : Placed) (scope : Bytes) (es : List Entry)
      → fixed + p.spent + room ≤ max
      → IsPlaced max fixed heads n p
      → IsPlaced max fixed heads (n + length es) (place_entries untrusted o limit room p scope es)
  unfolding place_entries line_cost
  place_entries-IsPlaced room heads n p scope es h v =
      let packed : List Bool × ℕ = pack_twice es limit room in
      let line = line_for (chosen false packed.0 es) (room - packed.1) in
      let trust = scope_trust untrusted o scope in
      let fits = pack_twice-fits es limit room in
      let line_fits = line_for-fits (chosen false packed.0 es) (room - packed.1) in
      record {
        within = omega (arith, h, fits, line_fits);
        counted = omega (
          arith,
          v.counted,
          pack_twice-cost untrusted scope trust es limit room,
          parts_cost-omission_parts scope trust line,
          parts_cost-append p.parts (
              map (entry_part untrusted scope trust limit) (chosen true packed.0 es)
              ++ omission_parts scope trust line),
          parts_cost-append (map (entry_part untrusted scope trust limit) (chosen true packed.0 es))
              (omission_parts scope trust line),
        );
        shown = omega (
          arith,
          v.shown,
          length-append p.entries (map (manifest_entry scope []) (chosen true packed.0 es)),
          length-map (manifest_entry scope []) (chosen true packed.0 es),
          length-chosen true packed.0 es,
        );
        left = omega (
          arith,
          v.left,
          length-append p.omitted
              (map (manifest_entry scope omit_budget) (chosen false packed.0 es)),
          length-map (manifest_entry scope omit_budget) (chosen false packed.0 es),
          length-chosen false packed.0 es,
        );
      }

  if-IsPlaced :
      {heads n : ℕ} (b : Bool) (p q : Placed)
      → IsPlaced max fixed heads n p
      → IsPlaced max fixed heads n q
      → IsPlaced max fixed heads n (if b then p else q)
  if-IsPlaced true p q v w = v
  if-IsPlaced false p q v w = w

  place_scope-IsPlaced :
      (heads n : ℕ) (p : Placed) (scope : Bytes) (es : List Entry)
      → IsPlaced max fixed heads n p
      → IsPlaced max fixed
          (heads + cost (scope_text scope (is_empty es)))
          (n + length es)
          (place_scope untrusted o limit max fixed p (scope, es))
  unfolding place_scope parts_cost
  place_scope-IsPlaced heads n p scope es v =
      let heading : Part = record {
        id = scope_part_id scope;
        text = scope_text scope (is_empty es);
        trust = [];
      } in
      let headed : Placed = record p { parts = p.parts ++ heading ∷ [] } in
      let room = capped (max - fixed - p.spent) (lookup scope o.scope_max) in
      let u : IsPlaced max fixed (heads + cost (scope_text scope (is_empty es))) n headed = record {
        within = v.within;
        counted = omega (arith, v.counted, parts_cost-append p.parts (heading ∷ []));
        shown = v.shown;
        left = v.left;
      } in
      if-IsPlaced (is_empty es) headed _
        (record {
          within = u.within;
          counted = u.counted;
          shown = omega (arith, u.shown);
          left = omega (arith, u.left);
        })
        (place_entries-IsPlaced room _ n headed scope es
          (omega (arith, v.within, capped-le (max - fixed - p.spent) (lookup scope o.scope_max))) u)

  place_scopes-IsPlaced :
      (heads n : ℕ) (p : Placed) (ls : List Listing)
      → IsPlaced max fixed heads n p
      → IsPlaced max fixed
          (heads + headings_cost ls)
          (n + total_entries ls)
          (place_scopes untrusted o limit max fixed p ls)
  unfolding place_scopes headings_cost total_entries
  place_scopes-IsPlaced heads n p [] v = record {
    within = v.within;
    counted = omega (arith, v.counted);
    shown = omega (arith, v.shown);
    left = omega (arith, v.left);
  }
  place_scopes-IsPlaced heads n p ((scope, es) ∷ ls) v =
      let v' =
        place_scopes-IsPlaced (heads + cost (scope_text scope (is_empty es))) (n + length es)
          (place_scope untrusted o limit max fixed p (scope, es)) ls
          (place_scope-IsPlaced heads n p scope es v) in
      record {
        within = v'.within;
        counted = omega (arith, v'.counted);
        shown = omega (arith, v'.shown);
        left = omega (arith, v'.left);
      }

title_only-IsPlaced : (max fixed : ℕ) → fixed ≤ max → IsPlaced max fixed 0 0 title_only
unfolding parts_cost
title_only-IsPlaced max fixed h = record {
  within = omega (arith, h);
  counted = omega arith;
  shown = omega arith;
  left = omega arith;
}

pub place_scopes-title_only :
    (untrusted : Bytes) (o : RenderOptions) (limit max fixed : ℕ) (ls : List Listing)
    → fixed ≤ max
    → IsPlaced max fixed
        (headings_cost ls)
        (total_entries ls)
        (place_scopes untrusted o limit max fixed title_only ls)
place_scopes-title_only untrusted o limit max fixed ls h =
    let v =
      place_scopes-IsPlaced untrusted o limit max fixed 0 0 title_only ls
        (title_only-IsPlaced max fixed h) in
    record {
      within = v.within;
      counted = omega (arith, v.counted);
      shown = omega (arith, v.shown);
      left = omega (arith, v.left);
    }
