-- ===== src/Tools/Kept/Metadata.antt =====
-- tools.go: what a save's options make its record and its metadata.
use agentmemory.Prelude.{
  Bytes, ◌≡◌, refl, ◌⊎◌, inl, inr, Option, none, some, [], Map, arith, str_eq_iff,
}
use agentmemory.Memory.{
  Entry, ok, resolve_put_options, resolve_from, apply_option, base_for, stored_meta_hash,
  check_options, meta_hash_of,
}
use agentmemory.Tools.{SaveArgs, save_base, save_opts, save_entry}

-- The hash that a save is based on: the block's, or that of its own read.
abbrev pub save_basis : Option Bytes → Option Entry → Bytes
save_basis (some h) first = h
save_basis none (some e) = e.hash
save_basis none none = []

abbrev pub leave : SaveArgs → Option (Map Bytes) → SaveArgs
leave a given = record a { meta = given }

module _ (digest : Bytes → Bytes) where
  pub save_opts-base :
      (a : SaveArgs) (given : Option (Map Bytes)) (shown : Option Bytes)
      (first stored held : Option Entry)
      → base_for
          (resolve_put_options (save_opts digest (save_base shown first) (leave a given) stored))
          held
        ≡ save_basis shown first
  unfolding save_opts save_base base_for resolve_put_options resolve_from apply_option
  save_opts-base a (some _) (some h) (some f) stored held = refl
  save_opts-base a (some _) (some h) none stored held = refl
  save_opts-base a (some _) none (some f) stored held = refl
  save_opts-base a (some _) none none stored held = refl
  save_opts-base a none (some h) (some f) (some e) held = refl
  save_opts-base a none (some h) none (some e) held = refl
  save_opts-base a none none (some f) (some e) held = refl
  save_opts-base a none none none (some e) held = refl
  save_opts-base a none (some h) (some f) none held = refl
  save_opts-base a none (some h) none none held = refl
  save_opts-base a none none (some f) none held = refl
  save_opts-base a none none none none held = refl

  module _ (Gone : Type 0) where
    -- What a save's record has for metadata: the call's, or what it wrote over, unless the entry was
    -- read and later gone.
    abbrev pub MetaKept : Option (Map Bytes) → Option Entry → Map Bytes → Option Entry → Type 0
    MetaKept (some given) (some f) written held = written ≡ given
    MetaKept (some given) none written held =
        (written ≡ given) × (stored_meta_hash digest held ≡ [])
    MetaKept none none written held = (written ≡ []) × (stored_meta_hash digest held ≡ [])
    MetaKept none (some f) written held =
        (stored_meta_hash digest held ≡ meta_hash_of digest written) ⊎ ((written ≡ []) × Gone)

    -- What a retry may have for the stored entry.
    abbrev pub Fits : Option Entry → Option Entry → Type 0
    Fits none none = Unit
    Fits none (some e) = ⊥
    Fits (some f) (some e) = Unit
    Fits (some f) none = Gone

    pub save_entry-MetaKept :
        (a : SaveArgs) (given : Option (Map Bytes)) (shown : Option Bytes)
        (first stored held : Option Entry) (scope : Bytes)
        → Fits first stored
        → check_options digest
            (resolve_put_options (save_opts digest (save_base shown first) (leave a given) stored))
            scope
            a.name
            held
          ≡ ok tt
        → MetaKept given first (save_entry scope (leave a given) stored).meta held
    unfolding save_entry save_opts save_base resolve_put_options resolve_from apply_option
        check_options
    save_entry-MetaKept a (some g) shown (some f) stored held scope fits h = refl
    save_entry-MetaKept a (some g) (some b) none stored held scope fits h =
        (refl, ground (arith, h, str_eq_iff (stored_meta_hash digest held) []))
    save_entry-MetaKept a (some g) none none stored held scope fits h =
        (refl, ground (arith, h, str_eq_iff (stored_meta_hash digest held) []))
    save_entry-MetaKept a none (some b) none none held scope fits h =
        (refl, ground (arith, h, str_eq_iff (stored_meta_hash digest held) []))
    save_entry-MetaKept a none none none none held scope fits h =
        (refl, ground (arith, h, str_eq_iff (stored_meta_hash digest held) []))
    save_entry-MetaKept a none shown none (some e) held scope fits h = absurd fits
    save_entry-MetaKept a none (some b) (some f) (some e) held scope fits h =
        inl (
          ground (arith, h, str_eq_iff (stored_meta_hash digest held) (meta_hash_of digest e.meta)))
    save_entry-MetaKept a none none (some f) (some e) held scope fits h =
        inl (
          ground (arith, h, str_eq_iff (stored_meta_hash digest held) (meta_hash_of digest e.meta)))
    save_entry-MetaKept a none shown (some f) none held scope fits h = inr (refl, fits)
