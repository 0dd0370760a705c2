-- ===== src/Manifest/RoundTrip.antt =====
-- render.go: `manifestApply` reads what `manifestDiff` writes.
use mathlib.Core.List.{append_assoc, append-nil}
use agentmemory.Prelude.{
  ℕ, ◌+◌, ◌≡◌, refl, ap, sym, ◌∙◌, true, Option, none, some, inl, inr, List, [], ◌∷◌, ◌++◌, arith,
  All, length, get_elem?, ◌==◌, ==_iff, &&-true, Bool-cases, Option-cases,
}
use agentmemory.Memory.{ok}
use agentmemory.Manifest.Model.{ManifestEntry}
use agentmemory.Manifest.Delta.{
  ManifestOp, Place, place_of, manifest_index, Differ, same_at, in_place, diff_step, diff_loop,
  manifest_diff, apply_ops, manifest_apply,
}
use agentmemory.Manifest.Steps.{
  IsNamed, same_at_sound, place_of-lt, index_from-below, IsIndex, Holds, flush-Holds, write-Holds,
  run-Holds,
}

manifest_index-IsIndex :
    (prev : List ManifestEntry) (places : List Place)
    → manifest_index prev ≡ some places
    → IsIndex prev places
unfolding manifest_index
manifest_index-IsIndex prev places h e j found =
    place_of-lt (length prev) places e j
      (index_from-below 0 (length prev) [] places prev (omega arith) tt h) found

in_place_sound :
    (prev : List ManifestEntry) (d : Differ) (e : ManifestEntry) (place : Option ℕ)
    → in_place prev d e place ≡ true
    → get_elem? prev (d.cursor + d.run) ≡ some e
unfolding in_place
in_place_sound prev d e none h = absurd (cc)
in_place_sound prev d e (some j) h =
    let (same, there) = &&-true (same_at prev j e) (j == d.cursor + d.run) h in
    ap (get_elem? prev) (sym ((==_iff j (d.cursor + d.run)).0 there)) ∙ same_at_sound prev j e same

module _ (prev : List ManifestEntry) (places : List Place) (index : IsIndex prev places) where
  diff_step-Holds :
      {d : Differ} {read : List ManifestEntry} (e : ManifestEntry)
      → IsNamed e
      → Holds prev places d read
      → Holds prev places (diff_step prev places d e) (read ++ e ∷ [])
  unfolding diff_step
  diff_step-Holds {d} {read} e named h = elim (Bool-cases (in_place prev d e (place_of places e))) [
    | inl stays ↦ rw stays (run-Holds prev places e (in_place_sound prev d e _ stays) h)
    | inr moved ↦
        let (flushed, run_done) = flush-Holds prev places h in
        rw moved (write-Holds prev places e index named flushed run_done)
  ]

  diff_loop-Holds :
      (next : List ManifestEntry) (d : Differ) (read : List ManifestEntry)
      → All IsNamed next
      → Holds prev places d read
      → Holds prev places (diff_loop prev places d next) (read ++ next)
        × ((diff_loop prev places d next).run ≡ 0)
  unfolding diff_loop
  diff_loop-Holds [] d read named h = rw append-nil (flush-Holds prev places h)
  diff_loop-Holds (e ∷ next) d read named h = rw (append_assoc read (e ∷ []) next) at (
      diff_loop-Holds next (diff_step prev places d e) (read ++ e ∷ []) named.1
        (diff_step-Holds e named.0 h))

Holds-begin :
    (prev : List ManifestEntry) (places : List Place)
    → Holds prev places (record { out = []; cursor = 0; run = 0 }) []
unfolding apply_ops
Holds-begin prev places = record { made = []; applied = refl; pending = refl; room = omega arith }

-- A delta that `manifestDiff` writes for one list on another, both without an entry named
-- twice, is read back by `manifestApply` on the same list as exactly the list it was written
-- for, where every entry of that has a scope and a name.
pub manifest_apply-diff :
    (prev next : List ManifestEntry) (ops : List ManifestOp)
    → All IsNamed next
    → manifest_diff prev next ≡ some ops
    → manifest_apply prev ops ≡ ok next
unfolding manifest_diff manifest_apply
manifest_apply-diff prev next ops named h = elim (Option-cases (manifest_index prev)) [
  | inl twice ↦ absurd (ground (arith, h, twice))
  | inr (places, e) ↦
      let begin : Differ = record { out = []; cursor = 0; run = 0 } in
      let (held, flushed) =
        diff_loop-Holds prev places (manifest_index-IsIndex prev places e) next begin [] named
          (Holds-begin prev places) in
      let written : (diff_loop prev places begin next).out ≡ ops = ground (arith, h, e) in
      ground (arith, e, written, held.applied, held.pending, flushed, append-nil held.made)
]
