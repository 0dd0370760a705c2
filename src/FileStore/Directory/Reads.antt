-- ===== src/FileStore/Directory/Reads.antt =====
-- filestore/filestore.go: what `Get` returns after a `Put`.
use mathlib.Core.List.{append_cancel_right}
use agentmemory.Prelude.{
  ℕ, Bytes, ◌≡◌, refl, sym, ap, ◌∙◌, inl, inr, true, false, ◌&&◌, Option, none, some, List, [], ◌∷◌,
  ◌++◌, lookup, str_eq, str_eq_iff, arith, if◌then◌else◌,
}
use agentmemory.Memory.{Entry, Change, Context, PutOption, check_ref, valid_name, hash_of}
use agentmemory.Memory.EntryRules.{IsWellFormed, check_entry-decides, Result-cases}
use agentmemory.MemStore.{stamp}
use agentmemory.FileStore.FrontMatter.{encode}
use agentmemory.FileStore.FrontMatter.RoundTrip.{ReadsTimes, decode-encode}
use agentmemory.FileStore.FrontMatter.FieldLines.{valid_name-lacks}
use agentmemory.FileStore.Directory.{
  Node, regular, Directory, Faults, Outcome, fine, failed, and_then, md, index_name, entry_in,
  entry_of_node, scope_dir, read_entry, get_file,
}
use agentmemory.FileStore.Directory.Writes.{put_file, put_written, put_indexed}
use agentmemory.FileStore.Directory.Files.{
  node_at, write_file-node_at, next_in-fine, reindexed-writes,
}
use agentmemory.FileStore.Directory.Growing.{put_indexed-IsGrown}
use agentmemory.FileStore.Directory.Landing.{put_file-cases}

-- The name of an index is no entry's.
pub index_name-md : (n : Bytes) → valid_name n ≡ true → str_eq index_name (n ++ md) ≡ false
unfolding str_eq
index_name-md [] h = refl
index_name-md (c ∷ n) h = ground (arith, h, valid_name-lacks b'I' (c ∷ n) refl h)

str_eq-md : (a b : Bytes) → str_eq (a ++ md) (b ++ md) ≡ str_eq a b
str_eq-md a b = ground (
  arith,
  str_eq_iff (a ++ md) (b ++ md),
  str_eq_iff a b,
  append_cancel_right a b md,
  λ (p : a ≡ b). ap (λ z. z ++ md) p,
)

module _ (digest : Bytes → Bytes) (format_time : ℕ → Bytes) (parse_time : Bytes → Option ℕ) where
  abbrev entry_from : Bytes → Bytes → Outcome (Option Node) → Outcome (Option Entry)
  entry_from s n node =
      and_then node (λ x. fine (entry_of_node digest format_time parse_time s n x))

  read_entry-node_at :
      (dir : Directory) (s n : Bytes)
      → read_entry digest format_time parse_time dir s n
        ≡ entry_from s n (node_at dir.scopes s (n ++ md))
  unfolding read_entry node_at scope_dir
  read_entry-node_at dir s n = ground arith

  get_file-read :
      (dir dir' : Directory) (s n : Bytes)
      → (valid_name n ≡ true → node_at dir.scopes s (n ++ md) ≡ node_at dir'.scopes s (n ++ md))
      → get_file digest format_time parse_time dir s n
        ≡ get_file digest format_time parse_time dir' s n
  unfolding get_file check_ref
  get_file-read dir dir' s n same = elim (Result-cases (check_ref s n)) [
    | inr (x, h) ↦ ground (arith, h)
    | inl (_, h) ↦
        let named : valid_name n ≡ true = ground (arith, h) in
        let q : read_entry digest format_time parse_time dir s n
            ≡ read_entry digest format_time parse_time dir' s n =
          read_entry-node_at dir s n
          ∙ ap (entry_from s n) (same named)
          ∙ sym (read_entry-node_at dir' s n) in
        ground (arith, h, q)
  ]

  -- A read that finds what a write of `e` left.
  abbrev pub Finds : Entry → ℕ → Outcome Entry → Type 0
  Finds e now (failed f) = ⊥
  Finds e now (fine f) =
      (f.scope ≡ e.scope)
      × (f.name ≡ e.name)
      × (f.content ≡ e.content)
      × (f.updated ≡ now)
      × (f.deleted ≡ false)
      × (f.hash ≡ hash_of digest e.content)
      × ((k : Bytes) → lookup k f.meta ≡ lookup k e.meta)

  entry_in-Finds :
      (times : ReadsTimes format_time parse_time) (e : Entry) (now : ℕ)
      → IsWellFormed e 0
      → Finds e now (
          fine (
            entry_in digest format_time parse_time e.scope e.name
              (encode format_time parse_time (stamp digest e now))
              now))
  unfolding entry_in stamp
  entry_in-Finds times e now w =
      let (content_is, updated_is, meta_is) =
        decode-encode format_time parse_time times (stamp digest e now) w.name_named w.pairs in
      (
        refl,
        refl,
        content_is,
        ground (arith, updated_is),
        refl,
        ap (hash_of digest) content_is,
        meta_is,
      )

  module _ (times : ReadsTimes format_time parse_time) (parse_record : Bytes → Option Change)
      (format_record : Change → Bytes) (max : ℕ) (faults : Faults) (dir : Directory) (ctx : Context)
      (now : ℕ) (e : Entry) (opts : List PutOption) (c : Change) (dir' : Directory)
      (landed : put_file digest format_time parse_time parse_record format_record max faults true
          dir ctx now e opts
        ≡ (fine c, dir')) where
    -- What stands in the files after the write.
    nodes_after :
        (s n : Bytes)
        → valid_name n ≡ true
        → node_at dir'.scopes s (n ++ md) ≡ (
            if str_eq e.scope s && str_eq e.name n
            then fine (some (regular (encode format_time parse_time (stamp digest e now)) now))
            else node_at dir.scopes s (n ++ md))
    unfolding stamp put_written
    nodes_after s n named =
        elim (put_file-cases digest format_time parse_time parse_record format_record max faults dir
          ctx now e opts) [
            | inl (f, q) ↦ ground (arith, ap (λ z. z.0) (sym q ∙ landed))
            | inr l ↦
                let (_, written, wrote, rest) =
                  next_in-fine _
                    (λ _ d.
                      put_written digest format_time parse_time parse_record format_record max
                        faults d l.st ctx now (stamp digest e now) opts l.stored)
                    c dir' (sym l.goes_on ∙ landed) in
                let (_, indexed, reindexes, recorded) =
                  next_in-fine _
                    (λ _ d.
                      put_indexed digest format_time parse_time parse_record format_record max
                        faults d l.st ctx now (stamp digest e now) opts l.stored)
                    c dir' rest in
                let (text, wrote_index) =
                  reindexed-writes digest format_time parse_time parse_record format_record max
                    faults written e.scope now indexed reindexes in
                let grown =
                  put_indexed-IsGrown digest format_time parse_time parse_record format_record max
                    faults indexed l.st ctx now (stamp digest e now) opts l.stored in
                let index =
                  write_file-node_at written e.scope index_name text now s (n ++ md) faults indexed
                    wrote_index in
                let file =
                  write_file-node_at dir e.scope (e.name ++ md)
                    (encode format_time parse_time (stamp digest e now)) now s (n ++ md) faults
                    written wrote in
                ap (λ d. node_at d.scopes s (n ++ md)) (sym (ap (λ r. r.1) recorded))
                ∙ ap (λ z. node_at z s (n ++ md)) grown.same_files
                ∙ index
                ∙ ground (arith, index_name-md n named, file, str_eq-md e.name n)
          ]

    well_formed : IsWellFormed e 0
    well_formed =
        elim (put_file-cases digest format_time parse_time parse_record format_record max faults dir
          ctx now e opts) [
            | inl (f, q) ↦ ground (arith, ap (λ z. z.0) (sym q ∙ landed))
            | inr l ↦ (check_entry-decides e 0 none).0 l.kept_rules
          ]

    get_found :
        get_file digest format_time parse_time dir' e.scope e.name
        ≡ fine (
            entry_in digest format_time parse_time e.scope e.name
              (encode format_time parse_time (stamp digest e now))
              now)
    unfolding get_file check_ref
    get_found =
        let w = well_formed in
        let q =
          read_entry-node_at dir' e.scope e.name
          ∙ ap (entry_from e.scope e.name) (nodes_after e.scope e.name w.name_named) in
        ground (
          arith,
          q,
          w.scope_named,
          w.name_named,
          str_eq_iff e.scope e.scope,
          str_eq_iff e.name e.name,
        )

    -- In a directory in which no file has two names: after a `Put` that succeeds, `Get` finds the entry in its file: its content byte for byte, under
    -- each key of its metadata the value it had, its hash and its time. Under any other name it
    -- returns what it returned before. The format of times reads back what it writes.
    pub get_file-put_file :
        Finds e now (get_file digest format_time parse_time dir' e.scope e.name)
        × ((s n : Bytes)
            → (str_eq e.scope s && str_eq e.name n) ≡ false
            → get_file digest format_time parse_time dir' s n
              ≡ get_file digest format_time parse_time dir s n)
    get_file-put_file = (
      rw get_found (entry_in-Finds times e now well_formed),
      λ s n other.
          get_file-read dir' dir s n (λ named. nodes_after s n named ∙ ground (arith, other)),
    )
