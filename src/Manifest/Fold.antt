-- ===== src/Manifest/Fold.antt =====
-- render.go: `ManifestFold`, the reader's state over a session's records.
use agentmemory.Prelude.{
  ℕ, zero, suc, Bytes, ◌&&◌, Option, none, some, List, [], ◌∷◌, length, get_elem?, take, ltb, ◌==◌,
  str_eq, if◌then◌else◌,
}
use agentmemory.Memory.{manifest_base, manifest_bad, not_json, Result, ok, err, ◌>>=◌}
use agentmemory.Manifest.Model.{Manifest, empty_manifest, manifest_hash}
use agentmemory.Manifest.Delta.{
  ManifestDelta, ManifestRecord, whole, delta, apply_manifest_delta, record_since,
}

abbrev pub manifest_fold_depth : ℕ
manifest_fold_depth = 8

pub record ManifestFold : Type 0 where
  pub recent : List Manifest
  pub hashes : List Bytes

abbrev pub new_fold : ManifestFold
new_fold = record { recent = []; hashes = [] }

-- `slices.Index`.
unfoldable pub index_of : Bytes → List Bytes → Option ℕ
index_of h [] = none
index_of h (k ∷ ks) =
    if str_eq k h then some 0 else elim (index_of h ks) [ none ↦ none | some i ↦ some (suc i) ]

-- `slices.Delete(l, i, i+1)`.
unfoldable pub delete_at {ℓ} : {A : Type ℓ} → ℕ → List A → List A
delete_at i [] = []
delete_at zero (x ∷ xs) = xs
delete_at (suc i) (x ∷ xs) = x ∷ delete_at i xs

-- The first step of `push`: the fold without the manifest of that hash.
unfoldable pub drop_hash : ManifestFold → Bytes → ManifestFold
drop_hash f h = elim (index_of h f.hashes) [
  | none ↦ f
  | some i ↦ record { recent = delete_at i f.recent; hashes = delete_at i f.hashes }
]

-- `push`.
unfoldable pub push : ManifestFold → Manifest → Bytes → ManifestFold
push f m h =
    let g : ManifestFold = drop_hash f h in
    let recent : List Manifest = m ∷ g.recent in
    let hashes : List Bytes = h ∷ g.hashes in
    if ltb manifest_fold_depth (length recent)
    then record {
      recent = take manifest_fold_depth recent;
      hashes = take manifest_fold_depth hashes;
    }
    else record { recent = recent; hashes = hashes }

-- `ManifestFold.Manifest`.
unfoldable pub in_force : ManifestFold → Manifest
in_force f = elim f.recent [ [] ↦ empty_manifest | m ∷ _ ↦ m ]

-- The end of `Apply`: the manifest is pushed, or the fold stays as it was.
unfoldable pub push_result :
    ManifestFold → Result Manifest → Bytes → Result (Unit {0}) × ManifestFold
push_result f (ok m) h = (ok tt, push f m h)
push_result f (err x) h = (err x, f)

module _ (digest : Bytes → Bytes) where
  -- The `switch` of `Apply`: the manifest that a delta is based on.
  unfoldable pub base_of : ManifestFold → ManifestDelta → Result Manifest
  base_of f d = elim (index_of d.base f.hashes) [
    | some i ↦ elim (get_elem? f.recent i) [ some m ↦ ok m | none ↦ err (manifest_base d.base) ]
    | none ↦
        if length f.recent == 0 && str_eq d.base (manifest_hash digest empty_manifest)
        then ok empty_manifest
        else err (manifest_base d.base)
  ]

  -- `ManifestFold.Apply`: the result, and the fold afterwards.
  unfoldable pub fold_apply :
      ManifestFold → Option ManifestRecord → Result (Unit {0}) × ManifestFold
  unfolding push_result
  fold_apply f none = (err (manifest_bad not_json), f)
  fold_apply f (some (whole w)) = push_result f (ok w) (manifest_hash digest w)
  fold_apply f (some (delta d)) =
      push_result f (base_of f d >>= λ base. apply_manifest_delta digest base d) d.hash

  -- The loop of `ManifestFold.Record`.
  unfoldable pub smallest_record :
      (ManifestRecord → ℕ) → Manifest → List Manifest → ManifestRecord → ManifestRecord
  smallest_record size m [] best = best
  smallest_record size m (base ∷ bases) best =
      let r : ManifestRecord = record_since digest size m base in
      smallest_record size m bases (if ltb (size r) (size best) then r else best)

  -- `ManifestFold.Record`.
  unfoldable pub fold_record : (ManifestRecord → ℕ) → ManifestFold → Manifest → ManifestRecord
  fold_record size f m = smallest_record size m f.recent (whole m)
