-- ===== src/Tests/ManifestTests.antt =====
-- Runs of the manifest half of render.go.
use agentmemory.Prelude.{
  ℕ, ◌+◌, ◌≤◌, str_eq, if◌then◌else◌, decimal, none, codes, ◌≡◌, refl, false, some, List, [], ◌∷◌,
  All,
}
use agentmemory.Memory.{ok}
use agentmemory.Manifest.{
  Json, parse_manifest_record, record_size, manifest_hash, manifest_text, entry_lines,
  omitted_lines, ManifestDelta, Manifest, ManifestEntry, ManifestOp, whole, delta, keep_op,
  entry_op, place_of, index_from, manifest_index, flush, entry_eq, same_at, in_place, write_entry,
  diff_step, diff_loop, manifest_diff, manifest_apply, apply_manifest_record, record_since,
  ManifestFold, new_fold, push, index_of, drop_hash, push_result, smallest_record, fold_apply,
  fold_record, in_force,
}
use agentmemory.Manifest.Steps.{IsNamed}
use agentmemory.Manifest.RoundTrip.{manifest_apply-diff}
use agentmemory.Manifest.Records.{IsNamedManifest, apply_manifest_record-since}
use agentmemory.Manifest.FoldLaws.{IsFold, new_fold-IsFold}
use agentmemory.Manifest.FoldReads.{fold_apply-IsFold, fold_record-smallest, fold_apply-record}
use agentmemory.Tests.Setup.{digest}

program : Unit {0}
unfolding place_of index_from manifest_index flush entry_eq same_at in_place write_entry diff_step
    diff_loop manifest_diff str_eq record_since fold_record fold_apply push_result push drop_hash
    smallest_record manifest_hash manifest_text entry_lines omitted_lines decimal index_of
program = tt

abbrev item : ℕ → ManifestEntry
item n = record {
  scope = codes "user";
  name = (b'a' + n) ∷ [];
  hash = codes "h";
  bytes = n;
  reason = [];
}

abbrev shown : Manifest
shown = record { entries = item 0 ∷ item 1 ∷ item 2 ∷ item 3 ∷ []; omitted = []; left_out = false }

-- The third entry has moved.
abbrev moved : Manifest
moved = record shown { entries = item 0 ∷ item 1 ∷ record (item 2) { bytes = 9 } ∷ item 3 ∷ [] }

abbrev moved_ops : List ManifestOp
moved_ops = keep_op 2 ∷ entry_op (record (item 2) { bytes = 9 }) ∷ keep_op 1 ∷ []

diff_moved : manifest_diff shown.entries moved.entries ≡ some moved_ops
unfolding program
diff_moved = refl

IsNamed-item : (n : ℕ) → IsNamed (item n)
IsNamed-item n = (λ e. cc, λ e. cc)

moved_named : IsNamedManifest moved
moved_named = ((IsNamed-item 0, (IsNamed-item 1, ((λ e. cc, λ e. cc), (IsNamed-item 3, tt)))), tt)

manifest_apply-diff_example : manifest_apply shown.entries moved_ops ≡ ok moved.entries
manifest_apply-diff_example =
    manifest_apply-diff shown.entries moved.entries moved_ops moved_named.0 diff_moved

abbrev moved_delta : ManifestDelta
moved_delta = record {
  base = manifest_hash digest shown;
  hash = manifest_hash digest moved;
  entries = moved_ops;
  omitted = [];
  dropped = false;
}

-- JSON that keeps the manifest that has moved, and the delta to it, which is the shorter.
abbrev json : Json
json = record {
  marshal = λ r. elim r [ whole m ↦ codes "{whole}" | delta d ↦ codes "{d}" ];
  read_base =
      λ b. if str_eq b (codes "{d}") then some (some (manifest_hash digest shown)) else some none;
  read_whole = λ b. if str_eq b (codes "{whole}") then some moved else none;
  read_delta = λ b. if str_eq b (codes "{d}") then some moved_delta else none;
}

moved_is_delta : record_since digest (record_size json) moved shown ≡ delta moved_delta
unfolding program
moved_is_delta = refl

apply_manifest_record-since_example :
    apply_manifest_record digest shown (
      parse_manifest_record json
        (json.marshal (record_since digest (record_size json) moved shown)))
    ≡ ok moved
unfolding program
apply_manifest_record-since_example =
    apply_manifest_record-since digest json moved shown moved_named (refl, refl)

abbrev folded : ManifestFold
folded = (fold_apply digest new_fold (some (whole shown))).1

fold_apply-IsFold_example : IsFold digest folded
fold_apply-IsFold_example =
    fold_apply-IsFold digest new_fold (some (whole shown)) (new_fold-IsFold digest)

folded_valid : IsFold digest folded
folded_valid = fold_apply-IsFold digest new_fold (some (whole shown)) (new_fold-IsFold digest)

fold_record-smallest_example :
    (record_size json (fold_record digest (record_size json) folded moved)
      ≤ record_size json (whole moved))
    × All
        (λ b.
          record_size json (fold_record digest (record_size json) folded moved)
          ≤ record_size json (record_since digest (record_size json) moved b))
        folded.recent
fold_record-smallest_example = fold_record-smallest digest (record_size json) moved folded

fold_apply-record_example :
    ((fold_apply digest folded (
        parse_manifest_record json
          (json.marshal (fold_record digest (record_size json) folded moved)))).0
      ≡ ok tt)
    × (in_force
          (fold_apply digest folded (
            parse_manifest_record json
              (json.marshal (fold_record digest (record_size json) folded moved)))).1
        ≡ moved)
unfolding program
fold_apply-record_example =
    fold_apply-record digest json moved folded folded_valid moved_named (refl, refl)
