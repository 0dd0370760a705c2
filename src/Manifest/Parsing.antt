-- ===== src/Manifest/Parsing.antt =====
-- render.go: `marshalRecord` and `parseManifestRecord`, over what `encoding/json` does, which is a
-- parameter: how it writes a record, and how it decodes bytes as each of three types.
use agentmemory.Prelude.{ℕ, Bytes, ◌≡◌, Option, none, some, length, arith}
use agentmemory.Manifest.Model.{Manifest}
use agentmemory.Manifest.Delta.{ManifestDelta, ManifestRecord, whole, delta}

-- `json.Marshal` of a record, and `json.Unmarshal`: into the struct that has only a pointer `base`,
-- into a manifest, and into a delta. Each gives `none` for an error.
pub record Json : Type 0 where
  pub marshal : ManifestRecord → Bytes
  pub read_base : Bytes → Option (Option Bytes)
  pub read_whole : Bytes → Option Manifest
  pub read_delta : Bytes → Option ManifestDelta

-- `parseManifestRecord`.
unfoldable pub parse_manifest_record : Json → Bytes → Option ManifestRecord
parse_manifest_record json data_ = elim (json.read_base data_) [
  | none ↦ none
  | some base ↦ elim base [
    | none ↦ elim (json.read_whole data_) [ none ↦ none | some m ↦ some (whole m) ]
    | some _ ↦ elim (json.read_delta data_) [ none ↦ none | some d ↦ some (delta d) ]
  ]
]

-- `len(data)`.
abbrev pub record_size : Json → ManifestRecord → ℕ
record_size json r = length (json.marshal r)

-- The JSON of a record, read as the type that it was written from, gives the value, as it does
-- where the strings are UTF-8; it has the member `base` exactly if it is a delta.
abbrev pub ReadsBack : Json → ManifestRecord → Type 0
ReadsBack json (whole m) =
    (json.read_base (json.marshal (whole m)) ≡ some none)
    × (json.read_whole (json.marshal (whole m)) ≡ some m)
ReadsBack json (delta d) =
    (json.read_base (json.marshal (delta d)) ≡ some (some d.base))
    × (json.read_delta (json.marshal (delta d)) ≡ some d)

pub parse_manifest_record-marshal :
    (json : Json) (r : ManifestRecord)
    → ReadsBack json r
    → parse_manifest_record json (json.marshal r) ≡ some r
unfolding parse_manifest_record
parse_manifest_record-marshal json (whole m) (base, value) = ground (arith, base, value)
parse_manifest_record-marshal json (delta d) (base, value) = ground (arith, base, value)
