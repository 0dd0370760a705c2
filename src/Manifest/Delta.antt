-- ===== src/Manifest/Delta.antt =====
-- render.go: `manifestIndex`, `manifestDiff`, `manifestApply`, `applyManifestDelta`,
-- `RecordSince`, `ApplyManifestRecord`.
-- A record is the value that its JSON is written from; its size and what bytes decode to are
-- parameters here, which Parsing.antt fills.
use agentmemory.Prelude.{
  ℤ, pos, negsuc, ℕ, suc, ◌+◌, ◌-◌, Bytes, Bool, false, not, ◌&&◌, ◌||◌, Option, none, some, List,
  [], ◌∷◌, ◌++◌, length, get_elem?, take, drop, ltb, leb, ◌==◌, str_eq, if◌then◌else◌,
}
use agentmemory.Memory.{
  manifest_base, manifest_bad, not_json, named_twice, keep_and_entry, names_no_entry,
  keeps_too_many, neither_keep_nor_entry, wrong_hash, Result, ok, err, ◌>>=◌, ◌>>◌, refuse_if,
}
use agentmemory.Manifest.Model.{Manifest, ManifestEntry, entry_eq, manifest_hash}

pub record ManifestOp : Type 0 where
  pub keep : ℤ
  pub entry : Option ManifestEntry

pub record ManifestDelta : Type 0 where
  pub base : Bytes
  pub hash : Bytes
  pub entries : List ManifestOp
  pub omitted : List ManifestOp
  pub dropped : Bool

pub record Place : Type 0 where
  pub scope : Bytes
  pub name : Bytes
  pub index : ℕ

-- `at[k]`, for the map from keys to positions.
unfoldable pub place_of : List Place → ManifestEntry → Option ℕ
place_of [] e = none
place_of (p ∷ ps) e =
    if str_eq p.scope e.scope && str_eq p.name e.name then some p.index else place_of ps e

unfoldable pub index_from : ℕ → List Place → List ManifestEntry → Option (List Place)
index_from i places [] = some places
index_from i places (e ∷ es) =
    let rest =
      index_from (suc i) (record { scope = e.scope; name = e.name; index = i } ∷ places) es in
    elim (place_of places e) [ some _ ↦ none | none ↦ rest ]

-- `manifestIndex`: `none` where an entry is named twice.
unfoldable pub manifest_index : List ManifestEntry → Option (List Place)
manifest_index es = index_from 0 [] es

-- The variables of the loop of `manifestDiff`.
pub record Differ : Type 0 where
  pub out : List ManifestOp
  pub cursor : ℕ
  pub run : ℕ

abbrev pub keep_op : ℕ → ManifestOp
keep_op n = record { keep = pos n; entry = none }

abbrev pub entry_op : ManifestEntry → ManifestOp
entry_op e = record { keep = pos 0; entry = some e }

unfoldable pub flush : Differ → Differ
flush d =
    if ltb 0 d.run
    then record { out = d.out ++ keep_op d.run ∷ []; cursor = d.cursor + d.run; run = 0 }
    else d

-- `prev[j] == e`.
unfoldable pub same_at : List ManifestEntry → ℕ → ManifestEntry → Bool
same_at prev j e = elim (get_elem? prev j) [ none ↦ false | some p ↦ entry_eq p e ]

-- Whether the entry stands unchanged at the cursor.
unfoldable pub in_place : List ManifestEntry → Differ → ManifestEntry → Option ℕ → Bool
in_place prev d e none = false
in_place prev d e (some j) = same_at prev j e && j == d.cursor + d.run

unfoldable pub write_entry : Differ → ManifestEntry → Option ℕ → Differ
write_entry d e place = record d {
  out = d.out ++ entry_op e ∷ [];
  cursor = elim place [ none ↦ d.cursor | some j ↦ suc j ];
}

-- A round of the loop of `manifestDiff`.
unfoldable pub diff_step : List ManifestEntry → List Place → Differ → ManifestEntry → Differ
diff_step prev places d e =
    let place : Option ℕ = place_of places e in
    if in_place prev d e place then record d { run = d.run + 1 } else write_entry (flush d) e place

unfoldable pub diff_loop : List ManifestEntry → List Place → Differ → List ManifestEntry → Differ
diff_loop prev places d [] = flush d
diff_loop prev places d (e ∷ es) = diff_loop prev places (diff_step prev places d e) es

-- `manifestDiff`: `none` where a list names an entry twice.
unfoldable pub manifest_diff : List ManifestEntry → List ManifestEntry → Option (List ManifestOp)
manifest_diff prev next = elim (manifest_index prev) [
  | none ↦ none
  | some places ↦ elim (manifest_index next) [
    | none ↦ none
    | some _ ↦ some (diff_loop prev places (record { out = []; cursor = 0; run = 0 }) next).out
  ]
]

-- The variables of the loop of `manifestApply`.
pub record Applied : Type 0 where
  pub out : List ManifestEntry
  pub cursor : ℕ

-- The `switch` of `manifestApply`, at element `i`. The cursor is never past the end.
unfoldable pub apply_op :
    List ManifestEntry → List Place → ℕ → Applied → ManifestOp → Result Applied
apply_op prev places i a op = elim op.entry [
  | some e ↦ elim op.keep [
    | negsuc _ ↦ err (manifest_bad (keep_and_entry i))
    | pos n ↦ do
      refuse_if (not (n == 0)) (manifest_bad (keep_and_entry i))
      refuse_if (str_eq e.scope [] || str_eq e.name []) (manifest_bad (names_no_entry i))
      ok (record {
        out = a.out ++ e ∷ [];
        cursor = elim (place_of places e) [ none ↦ a.cursor | some j ↦ suc j ];
      })
  ]
  | none ↦ elim op.keep [
    | negsuc _ ↦ err (manifest_bad (neither_keep_nor_entry i))
    | pos n ↦
        if ltb 0 n && leb n (length prev - a.cursor)
        then ok (record { out = a.out ++ take n (drop a.cursor prev); cursor = a.cursor + n })
        else if ltb 0 n
        then err (manifest_bad (keeps_too_many i))
        else err (manifest_bad (neither_keep_nor_entry i))
  ]
]

unfoldable pub apply_ops :
    List ManifestEntry → List Place → ℕ → Applied → List ManifestOp → Result Applied
apply_ops prev places i a [] = ok a
apply_ops prev places i a (op ∷ ops) = do
  a' ← apply_op prev places i a op
  apply_ops prev places (suc i) a' ops

-- `manifestApply`.
unfoldable pub manifest_apply : List ManifestEntry → List ManifestOp → Result (List ManifestEntry)
manifest_apply prev ops = elim (manifest_index prev) [
  | none ↦ err (manifest_bad named_twice)
  | some places ↦ do a ← apply_ops prev places 0 (record { out = []; cursor = 0 }) ops; ok a.out
]

-- What `parseManifestRecord` returns of bytes that decode: a whole manifest, or a delta.
pub data ManifestRecord : Type 0 where
  whole : Manifest → ManifestRecord
  delta : ManifestDelta → ManifestRecord

module _ (digest : Bytes → Bytes) where
  -- `applyManifestDelta`.
  unfoldable pub apply_manifest_delta : Manifest → ManifestDelta → Result Manifest
  apply_manifest_delta m d = do
    entries ← manifest_apply m.entries d.entries
    omitted ← manifest_apply m.omitted d.omitted
    let out : Manifest = record { entries = entries; omitted = omitted; left_out = d.dropped }
    refuse_if (not (str_eq (manifest_hash digest out) d.hash))
        (manifest_bad (wrong_hash (manifest_hash digest out) d.hash))
    ok out

  -- `ApplyManifestRecord`.
  unfoldable pub apply_manifest_record : Manifest → Option ManifestRecord → Result Manifest
  apply_manifest_record m none = err (manifest_bad not_json)
  apply_manifest_record m (some (whole w)) = ok w
  apply_manifest_record m (some (delta d)) = do
    refuse_if (not (str_eq d.base (manifest_hash digest m))) (manifest_base d.base)
    apply_manifest_delta m d

  -- `RecordSince`. `size` is the number of bytes of the JSON of a record.
  unfoldable pub record_since : (ManifestRecord → ℕ) → Manifest → Manifest → ManifestRecord
  record_since size m prev =
      if m.left_out || prev.left_out then whole m else elim (manifest_diff prev.entries m.entries) [
        | none ↦ whole m
        | some entries ↦ elim (manifest_diff prev.omitted m.omitted) [
          | none ↦ whole m
          | some omitted ↦
              let d : ManifestRecord = delta (record {
                base = manifest_hash digest prev;
                hash = manifest_hash digest m;
                entries = entries;
                omitted = omitted;
                dropped = m.left_out;
              }) in
              if leb (size (whole m)) (size d) then whole m else d
        ]
      ]
