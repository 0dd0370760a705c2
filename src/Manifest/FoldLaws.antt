-- ===== src/Manifest/FoldLaws.antt =====
-- render.go: what `ManifestFold` keeps, and that it reads what `ManifestFold.Record` writes.
use agentmemory.Prelude.{
  ◌≤◌, Bytes, ◌≡◌, refl, ap, sym, ◌∙◌, inl, inr, none, ◌∷◌, map, arith, length, take, length-take,
  str_eq_iff, Bool-cases, Option-cases, ltb,
}
use agentmemory.Memory.{ok}
use agentmemory.Memory.EntryRules.{Result-cases}
use agentmemory.Manifest.Model.{Manifest, manifest_hash}
use agentmemory.Manifest.Delta.{ManifestDelta, manifest_apply, apply_manifest_delta}
use agentmemory.Manifest.Fold.{
  ManifestFold, new_fold, manifest_fold_depth, index_of, delete_at, drop_hash, push, in_force,
}
use agentmemory.Manifest.Distinct.{
  IsDistinct, delete_at-absent, delete_at-IsDistinct, take-IsDistinct, map-delete_at, map-take,
  length-delete_at,
}

module _ (digest : Bytes → Bytes) where
  -- The hashes are those of the manifests, each once, and no more than the depth.
  pub record IsFold (f : ManifestFold) : Type 0 where
    pub in_step : f.hashes ≡ map (manifest_hash digest) f.recent
    pub distinct : IsDistinct f.hashes
    pub bounded : length f.recent ≤ manifest_fold_depth

  pub new_fold-IsFold : IsFold new_fold
  new_fold-IsFold = record { in_step = refl; distinct = tt; bounded = omega arith }

  drop_hash-IsFold :
      (f : ManifestFold) (h : Bytes)
      → IsFold f
      → IsFold (drop_hash f h) × (index_of h (drop_hash f h).hashes ≡ none)
  unfolding drop_hash
  drop_hash-IsFold f h v = elim (Option-cases (index_of h f.hashes)) [
    | inl new ↦ rw (new, drop_hash) (v, new)
    | inr (i, there) ↦
        rw (there, drop_hash)
          (
            record {
              in_step =
                  ap (delete_at i) v.in_step
                  ∙ sym (map-delete_at (manifest_hash digest) i f.recent);
              distinct = delete_at-IsDistinct i f.hashes v.distinct;
              bounded = omega (arith, v.bounded, length-delete_at i f.recent);
            },
            delete_at-absent h i f.hashes v.distinct there,
          )
  ]

  pub push-IsFold :
      (f : ManifestFold) (m : Manifest)
      → IsFold f
      → IsFold (push f m (manifest_hash digest m))
        × (in_force (push f m (manifest_hash digest m)) ≡ m)
  unfolding push in_force
  push-IsFold f m v =
      let h : Bytes = manifest_hash digest m in
      let (w, new) = drop_hash-IsFold f h v in
      let g : ManifestFold = drop_hash f h in
      elim (Bool-cases (ltb manifest_fold_depth (length (m ∷ g.recent)))) [
        | inl full ↦ rw full (
          record {
            in_step =
                ap (take manifest_fold_depth) (ap (◌∷◌ h) w.in_step)
                ∙ sym (map-take (manifest_hash digest) manifest_fold_depth (m ∷ g.recent));
            distinct = take-IsDistinct manifest_fold_depth (h ∷ g.hashes) (new, w.distinct);
            bounded = omega (arith, length-take manifest_fold_depth (m ∷ g.recent));
          },
          refl,
        )
        | inr fits ↦ rw fits (
          record {
            in_step = ap (◌∷◌ h) w.in_step;
            distinct = (new, w.distinct);
            bounded = ground (arith, fits);
          },
          refl,
        )
      ]

  pub delta_hash :
      (base : Manifest) (d : ManifestDelta) {m : Manifest}
      → apply_manifest_delta digest base d ≡ ok m
      → d.hash ≡ manifest_hash digest m
  unfolding apply_manifest_delta
  delta_hash base d {m} h = elim (Result-cases (manifest_apply base.entries d.entries)) [
    | inr (x, e) ↦ absurd (ground (arith, e, h))
    | inl (es, e) ↦ elim (Result-cases (manifest_apply base.omitted d.omitted)) [
      | inr (x, o) ↦ absurd (ground (arith, e, o, h))
      | inl (os, o) ↦ ground (
        arith,
        e,
        o,
        h,
        str_eq_iff
            (manifest_hash digest (record { entries = es; omitted = os; left_out = d.dropped }))
            d.hash,
      )
    ]
  ]
