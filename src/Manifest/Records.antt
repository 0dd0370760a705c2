-- ===== src/Manifest/Records.antt =====
-- render.go: `ApplyManifestRecord` reads what `RecordSince` records.
use agentmemory.Prelude.{
  ℕ, ◌<◌, Bytes, ◌≡◌, refl, ap, ◌∙◌, false, ◌||◌, ◌⊎◌, inl, inr, some, arith, All, leb, str_eq_iff,
  str_eq_refl, Bool-cases, Option-cases,
}
use agentmemory.Memory.{ok}
use agentmemory.Manifest.Model.{Manifest, manifest_hash}
use agentmemory.Manifest.Delta.{
  ManifestDelta, ManifestRecord, whole, delta, manifest_diff, apply_manifest_delta,
  apply_manifest_record, record_since,
}
use agentmemory.Manifest.Parsing.{
  Json, parse_manifest_record, record_size, ReadsBack, parse_manifest_record-marshal,
}
use agentmemory.Manifest.Steps.{IsNamed}
use agentmemory.Manifest.RoundTrip.{manifest_apply-diff}

-- Every entry of the manifest has a scope and a name.
abbrev pub IsNamedManifest : Manifest → Type 0
IsNamedManifest m = All IsNamed m.entries × All IsNamed m.omitted

module _ (digest : Bytes → Bytes) where
  -- The delta says what `m` is on `prev`.
  pub record IsDelta (m prev : Manifest) (d : ManifestDelta) : Type 0 where
    pub on_prev : d.base ≡ manifest_hash digest prev
    pub of_m : d.hash ≡ manifest_hash digest m
    pub entries_diff : manifest_diff prev.entries m.entries ≡ some d.entries
    pub omitted_diff : manifest_diff prev.omitted m.omitted ≡ some d.omitted
    pub dropped_flag : d.dropped ≡ m.left_out

  module _ (size : ManifestRecord → ℕ) (m prev : Manifest) where
    -- A record is whole, or a delta that is smaller.
    pub record_since-cases :
        (record_since digest size m prev ≡ whole m)
        ⊎ ((d : ManifestDelta) × (record_since digest size m prev ≡ delta d)
            × IsDelta m prev d
            × (size (delta d) < size (whole m))
            × (m.left_out ≡ false)
            × (prev.left_out ≡ false))
    unfolding record_since
    record_since-cases = elim (Bool-cases (m.left_out || prev.left_out)) [
      | inl out ↦ inl (rw out refl)
      | inr shown ↦ elim (Option-cases (manifest_diff prev.entries m.entries)) [
        | inl twice ↦ inl (ground (arith, shown, twice))
        | inr (es, e) ↦ elim (Option-cases (manifest_diff prev.omitted m.omitted)) [
          | inl twice ↦ inl (ground (arith, shown, e, twice))
          | inr (os, o) ↦
              let d : ManifestDelta = record {
                base = manifest_hash digest prev;
                hash = manifest_hash digest m;
                entries = es;
                omitted = os;
                dropped = m.left_out;
              } in
              elim (Bool-cases (leb (size (whole m)) (size (delta d)))) [
                | inl large ↦ inl (ground (arith, shown, e, o, large))
                | inr small ↦ inr (
                  d,
                  ground (arith, shown, e, o, small),
                  record {
                    on_prev = refl;
                    of_m = refl;
                    entries_diff = e;
                    omitted_diff = o;
                    dropped_flag = refl;
                  },
                  ground (arith, small),
                  ground (arith, shown),
                  ground (arith, shown),
                )
              ]
        ]
      ]
    ]

  pub delta_applies :
      (m prev : Manifest) (d : ManifestDelta)
      → IsNamedManifest m
      → IsDelta m prev d
      → apply_manifest_delta digest prev d ≡ ok m
  unfolding apply_manifest_delta
  delta_applies m prev d named i =
      rw (manifest_apply-diff prev.entries m.entries d.entries named.0 i.entries_diff) (
        rw (manifest_apply-diff prev.omitted m.omitted d.omitted named.1 i.omitted_diff)
          (rw (i.dropped_flag, i.of_m) (rw (str_eq_refl (manifest_hash digest m)) refl)))

  -- What `ApplyManifestRecord` makes of a record that is parsed.
  apply_since :
      (size : ManifestRecord → ℕ) (m prev : Manifest)
      → IsNamedManifest m
      → apply_manifest_record digest prev (some (record_since digest size m prev)) ≡ ok m
  unfolding apply_manifest_record
  apply_since size m prev named = elim (record_since-cases size m prev) [
    | inl e ↦ rw (e, apply_manifest_record) refl
    | inr (d, e, i, _, _, _) ↦
        rw (e, apply_manifest_record)
          (ground (
            arith,
            i.on_prev,
            str_eq_iff d.base (manifest_hash digest prev),
            delta_applies m prev d named i,
          ))
  ]

  -- The JSON of the record of a manifest on the one in force, whole or a delta, is parsed and read
  -- by `ApplyManifestRecord` as that manifest, where its entries have scopes and names and the JSON
  -- of that record reads back.
  pub apply_manifest_record-since :
      (json : Json) (m prev : Manifest)
      → IsNamedManifest m
      → ReadsBack json (record_since digest (record_size json) m prev)
      → apply_manifest_record digest prev (
          parse_manifest_record json (json.marshal (record_since digest (record_size json) m prev)))
        ≡ ok m
  apply_manifest_record-since json m prev named back =
      ap (apply_manifest_record digest prev) (parse_manifest_record-marshal json _ back)
      ∙ apply_since (record_size json) m prev named
