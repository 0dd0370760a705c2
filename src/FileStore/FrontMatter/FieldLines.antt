-- ===== src/FileStore/FrontMatter/FieldLines.antt =====
-- filestore/frontmatter.go: the lines that `writeField` writes.
use mathlib.Core.List.{append_assoc}
use agentmemory.Prelude.{
  ℕ, Bytes, ◌≡◌, refl, ap, sym, ◌∙◌, true, false, [], ◌∷◌, ◌++◌, arith, all_of, ==_iff, str_eq,
  str_eq_iff, has_prefix, trim_space, Bool-cases, inl, inr, if◌then◌else◌,
}
use agentmemory.Memory.{valid_bytes, valid_name}
use agentmemory.FileStore.FrontMatter.{write_field}
use agentmemory.FileStore.FrontMatter.Cutting.{lacks, IsBlockLine}
use agentmemory.FileStore.FrontMatter.Trimming.{is_name_byte, valid_bytes-name, trim_space-blank}

-- What stands behind the colon.
abbrev pub behind_colon : Bytes → Bytes
behind_colon v = if str_eq v [] then [] else b' ' ∷ v

abbrev pub field_line : Bytes → Bytes → Bytes
field_line k v = k ++ (b':' ∷ behind_colon v)

pub write_field_lem : (k v t : Bytes) → write_field k v ++ t ≡ field_line k v ++ (b'\n' ∷ t)
unfolding write_field
write_field_lem k v t = elim (Bool-cases (str_eq v [])) [
  | inl empty ↦ rw empty (append_assoc k _ t ∙ sym (append_assoc k _ (b'\n' ∷ t)))
  | inr full ↦ rw full (
      append_assoc k _ t
      ∙ ap (λ s. k ++ (b':' ∷ b' ' ∷ s)) (append_assoc v (b'\n' ∷ []) t)
      ∙ sym (append_assoc k _ (b'\n' ∷ t)))
]

pub trim_behind_colon : (v : Bytes) → trim_space v ≡ v → trim_space (behind_colon v) ≡ v
unfolding trim_space
trim_behind_colon v h = elim (Bool-cases (str_eq v [])) [
  | inl empty ↦ rw empty (sym ((str_eq_iff v []).0 empty))
  | inr full ↦ rw full (trim_space-blank v ∙ h)
]

pub names-lacks :
    (c : ℕ) (s : Bytes) → is_name_byte c ≡ false → all_of is_name_byte s ≡ true → lacks c s ≡ true
names-lacks c [] h k = refl
names-lacks c (d ∷ s) h k = ground (arith, h, k, names-lacks c s h, ==_iff d c)

pub valid_name-lacks :
    (c : ℕ) (s : Bytes) → is_name_byte c ≡ false → valid_name s ≡ true → lacks c s ≡ true
unfolding valid_name
valid_name-lacks c s h k = names-lacks c s h (valid_bytes-name b'-' s (ground (arith, k)))

pub valid_name-no_dash :
    (s t : Bytes) → valid_name s ≡ true → has_prefix (s ++ t) (b'-' ∷ []) ≡ false
unfolding valid_name valid_bytes has_prefix
valid_name-no_dash [] t h = cc
valid_name-no_dash (c ∷ s) t h = ground (arith, h)

pub lacks-append :
    (c : ℕ) (s t : Bytes) → lacks c s ≡ true → lacks c t ≡ true → lacks c (s ++ t) ≡ true
lacks-append c [] t h k = k
lacks-append c (d ∷ s) t h k = ground (arith, h, k, lacks-append c s t)

pub field_line-IsBlockLine :
    (k v : Bytes) → valid_name k ≡ true → lacks b'\n' v ≡ true → IsBlockLine (field_line k v)
field_line-IsBlockLine k v h l = record {
  one_line =
      lacks-append b'\n' k (b':' ∷ behind_colon v) (valid_name-lacks b'\n' k refl h)
        (ground (arith, l));
  no_dash = valid_name-no_dash k _ h;
}
