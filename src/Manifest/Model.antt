-- ===== src/Manifest/Model.antt =====
-- render.go: `Manifest`, `ManifestEntry`, `LeaveOut`, `Dropped`, `Hash`.
-- A size is a number that is not negative, as the size of a content is.
use agentmemory.Prelude.{
  ℕ, Bytes, codes, Bool, true, false, ◌&&◌, List, [], ◌∷◌, ◌++◌, length, ltb, ◌==◌, str_eq, decimal,
  all_of, if◌then◌else◌,
}
use agentmemory.Memory.{hash_of}

pub record ManifestEntry : Type 0 where
  pub scope : Bytes
  pub name : Bytes
  pub hash : Bytes
  pub bytes : ℕ
  pub reason : Bytes

pub record Manifest : Type 0 where
  pub entries : List ManifestEntry
  pub omitted : List ManifestEntry
  pub left_out : Bool

abbrev pub empty_manifest : Manifest
empty_manifest = record { entries = []; omitted = []; left_out = false }

abbrev pub omit_budget : Bytes
omit_budget = codes "budget"

abbrev pub omit_block : Bytes
omit_block = codes "block"

-- `==` on entries.
unfoldable pub entry_eq : ManifestEntry → ManifestEntry → Bool
unfolding str_eq
entry_eq a b =
    str_eq a.scope b.scope
    && str_eq a.name b.name
    && str_eq a.hash b.hash
    && a.bytes == b.bytes
    && str_eq a.reason b.reason

unfoldable pub with_block : List ManifestEntry → List ManifestEntry
with_block [] = []
with_block (e ∷ es) = record e { reason = omit_block } ∷ with_block es

-- `LeaveOut`.
unfoldable pub leave_out : Manifest → Manifest
unfolding with_block
leave_out m = record {
  entries = [];
  omitted = with_block (m.entries ++ m.omitted);
  left_out = true;
}

-- `Dropped`.
unfoldable pub dropped : Manifest → Bool
unfolding str_eq
dropped m =
    if m.left_out
    then true
    else if ltb 0 (length m.entries)
    then false
    else if length m.omitted == 0
    then false
    else all_of (λ e. str_eq e.reason omit_block) m.omitted

-- The first loop of `Hash`: "+ scope/name hash bytes" and a line feed.
unfoldable pub entry_lines : List ManifestEntry → Bytes
entry_lines [] = []
entry_lines (e ∷ es) =
    b'+'
    ∷ b' '
    ∷ (e.scope
        ++ (b'/'
            ∷ (e.name
                ++ (b' ' ∷ (e.hash ++ (b' ' ∷ (decimal e.bytes ++ (b'\n' ∷ entry_lines es))))))))

-- The second loop: "- scope/name hash bytes reason" and a line feed.
unfoldable pub omitted_lines : List ManifestEntry → Bytes
omitted_lines [] = []
omitted_lines (e ∷ es) =
    b'-'
    ∷ b' '
    ∷ (e.scope
        ++ (b'/'
            ∷ (e.name
                ++ (b' '
                    ∷ (e.hash
                        ++ (b' '
                            ∷ (decimal e.bytes
                                ++ (b' ' ∷ (e.reason ++ (b'\n' ∷ omitted_lines es))))))))))

unfoldable pub manifest_text : Manifest → Bytes
unfolding entry_lines omitted_lines
manifest_text m =
    entry_lines m.entries
    ++ (omitted_lines m.omitted ++ (if m.left_out then codes "x block" ++ b'\n' ∷ [] else []))

-- `Manifest.Hash`.
unfoldable pub manifest_hash : (Bytes → Bytes) → Manifest → Bytes
unfolding manifest_text hash_of
manifest_hash digest m = hash_of digest (manifest_text m)
