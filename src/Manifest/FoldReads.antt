-- ===== src/Manifest/FoldReads.antt =====
-- render.go: `ManifestFold.Apply` over any record, and over what `ManifestFold.Record` writes.
use mathlib.Core.Path.{subst}
use agentmemory.Prelude.{
  ℕ, suc, ◌≤◌, Bytes, ◌≡◌, refl, ap, ◌∙◌, ◌⊎◌, inl, inr, Option, none, some, List, [], ◌∷◌, arith,
  All, get_elem?, Bool-cases, ltb, if◌then◌else◌,
}
use agentmemory.Memory.{Result, ok, err}
use agentmemory.Memory.EntryRules.{bind-ok}
use agentmemory.Manifest.Model.{Manifest, manifest_hash}
use agentmemory.Manifest.Delta.{ManifestDelta, ManifestRecord, whole, delta, record_since}
use agentmemory.Manifest.Parsing.{
  Json, parse_manifest_record, record_size, ReadsBack, parse_manifest_record-marshal,
}
use agentmemory.Manifest.Fold.{
  ManifestFold, push, in_force, base_of, index_of, push_result, fold_apply, smallest_record,
  fold_record,
}
use agentmemory.Manifest.Distinct.{IsDistinct, index_of-get_elem?}
use agentmemory.Manifest.Records.{IsNamedManifest, IsDelta, record_since-cases, delta_applies}
use agentmemory.Manifest.FoldLaws.{IsFold, push-IsFold, delta_hash}

module _ (digest : Bytes → Bytes) where
  push_result-IsFold :
      (f : ManifestFold) (r : Result Manifest) (h : Bytes)
      → IsFold digest f
      → ((m : Manifest) → r ≡ ok m → h ≡ manifest_hash digest m)
      → IsFold digest (push_result f r h).1
  unfolding push_result
  push_result-IsFold f (err x) h v e = v
  push_result-IsFold f (ok m) h v e = rw (e m refl) (push-IsFold digest f m v).0

  -- Whatever record it is given, decodable or not, a fold goes on holding distinct manifests,
  -- each beside its hash and at most as many as the depth.
  pub fold_apply-IsFold :
      (f : ManifestFold) (r : Option ManifestRecord)
      → IsFold digest f
      → IsFold digest (fold_apply digest f r).1
  unfolding fold_apply
  fold_apply-IsFold f none v = v
  fold_apply-IsFold f (some (whole w)) v =
      push_result-IsFold f (ok w) _ v (λ m e. ground (arith, e))
  fold_apply-IsFold f (some (delta d)) v = push_result-IsFold f _ d.hash v (λ m e.
      let (base, _, applied) = bind-ok (base_of digest f d) _ e in delta_hash digest base d applied)

  module _ (size : ManifestRecord → ℕ) (m : Manifest) where
    -- The record chosen is the one at hand or that on one of the bases.
    smallest_record-cases :
        (bases : List Manifest) (best : ManifestRecord)
        → (smallest_record digest size m bases best ≡ best)
          ⊎ ((j : ℕ) × (base : Manifest) × (get_elem? bases j ≡ some base)
              × (smallest_record digest size m bases best ≡ record_since digest size m base))
    unfolding smallest_record
    smallest_record-cases [] best = inl refl
    smallest_record-cases (base ∷ bases) best =
        let r : ManifestRecord = record_since digest size m base in
        elim (smallest_record-cases bases (if ltb (size r) (size best) then r else best)) [
          | inr (j, b, at_j, e) ↦ inr (suc j, b, at_j, e)
          | inl e ↦ elim (Bool-cases (ltb (size r) (size best))) [
            | inl less ↦ inr (0, base, refl, ground (arith, e, less))
            | inr more ↦ inl (ground (arith, e, more))
          ]
        ]

    smallest_record-le :
        (bases : List Manifest) (best : ManifestRecord)
        → (size (smallest_record digest size m bases best) ≤ size best)
          × All
              (λ b.
                size (smallest_record digest size m bases best)
                ≤ size (record_since digest size m b))
              bases
    unfolding smallest_record
    smallest_record-le [] best = (omega arith, tt)
    smallest_record-le (base ∷ bases) best =
        let r : ManifestRecord = record_since digest size m base in
        let (le, les) = smallest_record-le bases (if ltb (size r) (size best) then r else best) in
        (ground (arith, le), (ground (arith, le), les))

    -- The record that `ManifestFold.Record` gives is no larger than the whole record, nor than
    -- the record on any manifest that the fold holds.
    pub fold_record-smallest :
        (f : ManifestFold)
        → (size (fold_record digest size f m) ≤ size (whole m))
          × All
              (λ b. size (fold_record digest size f m) ≤ size (record_since digest size m b))
              f.recent
    unfolding fold_record
    fold_record-smallest f = smallest_record-le f.recent (whole m)

    apply_whole :
        (f : ManifestFold)
        → fold_apply digest f (some (whole m)) ≡ (ok tt, push f m (manifest_hash digest m))
    unfolding fold_apply push_result
    apply_whole f = refl

    apply_delta :
        (f : ManifestFold) (j : ℕ) (base : Manifest) (d : ManifestDelta)
        → IsFold digest f
        → IsNamedManifest m
        → get_elem? f.recent j ≡ some base
        → IsDelta digest m base d
        → fold_apply digest f (some (delta d)) ≡ (ok tt, push f m (manifest_hash digest m))
    unfolding fold_apply push_result base_of
    apply_delta f j base d v named at_j i =
        let found : index_of d.base f.hashes ≡ some j =
          rw (i.on_prev, v.in_step)
            (index_of-get_elem? (manifest_hash digest) f.recent j base
              (subst IsDistinct v.in_step v.distinct) at_j) in
        ground (arith, found, at_j, delta_applies digest m base d named i, i.of_m)

    record_lands :
        (f : ManifestFold)
        → IsFold digest f
        → IsNamedManifest m
        → fold_apply digest f (some (fold_record digest size f m))
          ≡ (ok tt, push f m (manifest_hash digest m))
    unfolding fold_record
    record_lands f v named = elim (smallest_record-cases f.recent (whole m)) [
      | inl e ↦ rw e (apply_whole f)
      | inr (j, base, at_j, e) ↦ elim (record_since-cases digest size m base) [
        | inl e' ↦ rw (e, e') (apply_whole f)
        | inr (d, e', i, _, _, _) ↦ rw (e, e') (apply_delta f j base d v named at_j i)
      ]
    ]

  -- A reader that parses and folds the JSON of the record which `ManifestFold.Record` gives for a
  -- manifest, as the writer's fold stands, accepts it and has that manifest in force, where its
  -- entries have scopes and names and the JSON of that record reads back.
  pub fold_apply-record :
      (json : Json) (m : Manifest) (f : ManifestFold)
      → IsFold digest f
      → IsNamedManifest m
      → ReadsBack json (fold_record digest (record_size json) f m)
      → ((fold_apply digest f (
            parse_manifest_record json
              (json.marshal (fold_record digest (record_size json) f m)))).0
          ≡ ok tt)
        × (in_force
              (fold_apply digest f (
                parse_manifest_record json
                  (json.marshal (fold_record digest (record_size json) f m)))).1
            ≡ m)
  fold_apply-record json m f v named back =
      let lands =
        ap (fold_apply digest f) (parse_manifest_record-marshal json _ back)
        ∙ record_lands (record_size json) m f v named in
      (ap (λ r. r.0) lands, ap (λ r. in_force r.1) lands ∙ (push-IsFold digest f m v).1)
