-- ===== src/Tools/Outcomes.antt =====
-- tools.go: what an answer and a round come to, when all that they write has a property.
use agentmemory.Memory.{
  Error, not_found, invalid, too_large, conflict, unsupported, meta_key_not_name, manifest_base,
  manifest_bad, over_budget, scope_twice,
}
use agentmemory.Tools.{
  ToolResult, Answer, done, refused, Attempt, settled, lost, unless_settled, after_put,
}

-- If the call was done, its result has the property.
abbrev pub Answered : (ToolResult → Type 0) → Answer ToolResult → Type 0
Answered P (done r) = P r
Answered P (refused x) = Unit

abbrev pub Settled : (ToolResult → Type 0) → Attempt → Type 0
Settled P (settled r) = Answered P r
Settled P (lost x) = Unit

module _ (P : ToolResult → Type 0) where
  pub after_put-Settled : (x : Error) → Settled P (after_put x)
  unfolding after_put
  after_put-Settled (conflict c) = tt
  after_put-Settled (not_found _ _) = tt
  after_put-Settled (invalid _) = tt
  after_put-Settled (too_large _) = tt
  after_put-Settled (unsupported _) = tt
  after_put-Settled (meta_key_not_name _) = tt
  after_put-Settled (manifest_base _) = tt
  after_put-Settled (manifest_bad _) = tt
  after_put-Settled over_budget = tt
  after_put-Settled (scope_twice _) = tt

  pub unless_settled-Answered :
      {S : Type 0} (next : Error → S → Answer ToolResult × S) (r : Attempt × S)
      → ((x : Error) (s : S) → Answered P (next x s).0)
      → Settled P r.0
      → Answered P (unless_settled next r).0
  unless_settled-Answered next (settled r, s) f h = h
  unless_settled-Answered next (lost x, s) f h = f x s

-- If the call was done, its result and the state that it left have the property.
abbrev pub Ends : {S : Type 0} → (ToolResult → S → Type 0) → Answer ToolResult × S → Type 0
Ends P (done r, s) = P r s
Ends P (refused x, s) = Unit

abbrev pub Round : {S : Type 0} → (ToolResult → S → Type 0) → Attempt × S → Type 0
Round P (settled r, s) = Ends P (r, s)
Round P (lost x, s) = Unit

module _ {S : Type 0} (P : ToolResult → S → Type 0) where
  pub after_put-Round : (x : Error) (s : S) → Round P (after_put x, s)
  unfolding after_put
  after_put-Round (conflict c) s = tt
  after_put-Round (not_found _ _) s = tt
  after_put-Round (invalid _) s = tt
  after_put-Round (too_large _) s = tt
  after_put-Round (unsupported _) s = tt
  after_put-Round (meta_key_not_name _) s = tt
  after_put-Round (manifest_base _) s = tt
  after_put-Round (manifest_bad _) s = tt
  after_put-Round over_budget s = tt
  after_put-Round (scope_twice _) s = tt

  pub unless_settled-Ends :
      (next : Error → S → Answer ToolResult × S) (r : Attempt × S)
      → ((x : Error) (s : S) → Ends P (next x s))
      → Round P r
      → Ends P (unless_settled next r)
  unless_settled-Ends next (settled r, s) f h = h
  unless_settled-Ends next (lost x, s) f h = f x s
