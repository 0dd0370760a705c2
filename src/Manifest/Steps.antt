-- ===== src/Manifest/Steps.antt =====
-- render.go: a step of `manifestDiff` against the step of `manifestApply` that reads it back.
use mathlib.Core.List.{append_assoc, append-nil}
use agentmemory.Prelude.{
  ℕ, zero, suc, ◌+◌, ◌-◌, ◌≤◌, ◌<◌, ◌≡◌, ◌≢◌, refl, ap, sym, ◌∙◌, true, Option, none, some, inl,
  inr, List, [], ◌∷◌, ◌++◌, arith, All, length, get_elem?, take, drop, ltb, ltb→lt, str_eq_iff,
  Bool-cases, Option-cases,
}
use native.Mathlib.Numerals.{add-one}
use mathlib.Core.Path.{subst}
use agentmemory.Memory.EntryRules.{Result-cases}
use agentmemory.Memory.{ok}
use agentmemory.Manifest.Model.{ManifestEntry, entry_eq}
use agentmemory.Manifest.Delta.{
  ManifestOp, Place, place_of, index_from, Differ, keep_op, entry_op, flush, same_at, write_entry,
  Applied, apply_op, apply_ops,
}

-- The entry has a scope and a name.
abbrev pub IsNamed : ManifestEntry → Type 0
IsNamed e = (e.scope ≢ []) × (e.name ≢ [])

entry_eq_sound : (a b : ManifestEntry) → entry_eq a b ≡ true → a ≡ b
unfolding entry_eq
entry_eq_sound a b h = ground (
  arith,
  str_eq_iff a.scope b.scope,
  str_eq_iff a.name b.name,
  str_eq_iff a.hash b.hash,
  str_eq_iff a.reason b.reason,
)

pub same_at_sound :
    (prev : List ManifestEntry) (j : ℕ) (e : ManifestEntry)
    → same_at prev j e ≡ true
    → get_elem? prev j ≡ some e
unfolding same_at
same_at_sound prev j e h = elim (Option-cases (get_elem? prev j)) [
  | inl gone ↦ ground (arith, gone)
  | inr (p, there) ↦ ground (arith, there, entry_eq_sound p e)
]

module _ {ℓ} {A : Type ℓ} where
  take-suc :
      (r : ℕ) (xs : List A) (x : A)
      → get_elem? xs r ≡ some x
      → (take (suc r) xs ≡ take r xs ++ x ∷ []) × (r < length xs)
  take-suc r [] x h = absurd (cc)
  take-suc zero (y ∷ xs) x h = (ground (arith, h), omega arith)
  take-suc (suc r) (y ∷ xs) x h =
      let (e, lt) = take-suc r xs x h in (ap (◌∷◌ y) e, omega (arith, lt))

  get_elem?-drop : (c r j : ℕ) (xs : List A) → j ≡ c + r → get_elem? xs j ≡ get_elem? (drop c xs) r
  get_elem?-drop zero r j xs e = ap (get_elem? xs) (omega arith)
  get_elem?-drop (suc c) r j [] e = refl
  get_elem?-drop (suc c) r zero (y ∷ xs) e = absurd (omega arith)
  get_elem?-drop (suc c) r (suc j) (y ∷ xs) e = get_elem?-drop c r j xs (omega arith)

  get_elem?-lt : (j : ℕ) (xs : List A) (x : A) → get_elem? xs j ≡ some x → j < length xs
  get_elem?-lt j xs x h = (take-suc j xs x h).1

-- A place points into the list that was indexed.
pub place_of-lt :
    (n : ℕ) (places : List Place) (e : ManifestEntry) (j : ℕ)
    → All (λ p. p.index < n) places
    → place_of places e ≡ some j
    → j < n
unfolding place_of
place_of-lt n [] e j b h = ground (arith, h)
place_of-lt n (p ∷ ps) e j b h = ground (arith, b.0, place_of-lt n ps e j b.1)

pub index_from-below :
    (i n : ℕ) (places out : List Place) (es : List ManifestEntry)
    → i + length es ≤ n
    → All (λ p. p.index < n) places
    → index_from i places es ≡ some out
    → All (λ p. p.index < n) out
unfolding index_from
index_from-below i n places out [] le b h = subst (All (λ p. p.index < n)) (ground (arith, h)) b
index_from-below i n places out (e ∷ es) le b h = elim (Option-cases (place_of places e)) [
  | inl new ↦
      index_from-below (suc i) n (record { scope = e.scope; name = e.name; index = i } ∷ places) out
        es (omega arith) (omega arith, b) (ground (arith, new, h))
  | inr (_, dup) ↦ absurd (ground (arith, dup, h))
]

-- Where the cursor stands after an entry is written whole.
abbrev pub cursor_after : ℕ → Option ℕ → ℕ
cursor_after cursor found = elim found [ none ↦ cursor | some j ↦ suc j ]

cursor_after-le :
    (cursor : ℕ) (found : Option ℕ) (n : ℕ)
    → ((j : ℕ) → found ≡ some j → j < n)
    → cursor ≤ n
    → cursor_after cursor found ≤ n
cursor_after-le cursor none n below le = le
cursor_after-le cursor (some j) n below le = below j refl

module _ (prev : List ManifestEntry) (places : List Place) where
  abbrev pub start : Applied
  start = record { out = []; cursor = 0 }

  -- The places are those of `prev`.
  abbrev pub IsIndex : Type 0
  IsIndex = (e : ManifestEntry) (j : ℕ) → place_of places e ≡ some j → j < length prev

  -- What `manifestApply` makes of the operations so far, with the run that is not yet written,
  -- is what `manifestDiff` has read so far.
  pub record Holds (d : Differ) (read : List ManifestEntry) : Type 0 where
    pub made : List ManifestEntry
    pub applied :
        apply_ops prev places 0 start d.out ≡ ok (record { out = made; cursor = d.cursor })
    pub pending : read ≡ made ++ take d.run (drop d.cursor prev)
    pub room : d.cursor + d.run ≤ length prev

  apply_keep :
      (j : ℕ) (a : Applied) (n : ℕ)
      → 0 < n
      → n ≤ length prev - a.cursor
      → apply_op prev places j a (keep_op n)
        ≡ ok (record { out = a.out ++ take n (drop a.cursor prev); cursor = a.cursor + n })
  unfolding apply_op
  apply_keep j a n pos le = ground (arith, pos, le)

  apply_entry :
      (j : ℕ) (a : Applied) (e : ManifestEntry)
      → IsNamed e
      → apply_op prev places j a (entry_op e)
        ≡ ok (record { out = a.out ++ e ∷ []; cursor = cursor_after a.cursor (place_of places e) })
  unfolding apply_op
  apply_entry j a e named = ground (arith, named, str_eq_iff e.scope [], str_eq_iff e.name [])

  apply_ops-snoc :
      (i : ℕ) (a : Applied) (ops : List ManifestOp) (op : ManifestOp) {b c : Applied}
      → apply_ops prev places i a ops ≡ ok b
      → ((j : ℕ) → apply_op prev places j b op ≡ ok c)
      → apply_ops prev places i a (ops ++ op ∷ []) ≡ ok c
  unfolding apply_ops
  apply_ops-snoc i a [] op {b} {c} h one = ground (arith, h, one i)
  apply_ops-snoc i a (o ∷ ops) op h one = elim (Result-cases (apply_op prev places i a o)) [
    | inl (a', r) ↦ rw r (apply_ops-snoc (suc i) a' ops op (rw r at h) one)
    | inr (x, r) ↦ absurd (ground (arith, r, h))
  ]

  pub flush-Holds :
      {d : Differ} {read : List ManifestEntry}
      → Holds d read
      → Holds (flush d) read × ((flush d).run ≡ 0)
  unfolding flush
  flush-Holds {d} {read} h = elim (Bool-cases (ltb 0 d.run)) [
    | inr none_left ↦ rw none_left (h, ground (arith, none_left))
    | inl some_left ↦ rw some_left (
      record {
        made = h.made ++ take d.run (drop d.cursor prev);
        applied =
            apply_ops-snoc 0 start d.out (keep_op d.run) h.applied
              (λ j. apply_keep j _ d.run (ltb→lt 0 d.run some_left) (omega (arith, h.room)));
        pending = h.pending ∙ sym (append-nil _);
        room = omega (arith, h.room);
      },
      refl,
    )
  ]

  pub write-Holds :
      {d : Differ} {read : List ManifestEntry} (e : ManifestEntry)
      → IsIndex
      → IsNamed e
      → Holds d read
      → d.run ≡ 0
      → Holds (write_entry d e (place_of places e)) (read ++ e ∷ [])
  unfolding write_entry
  write-Holds {d} {read} e index named h none_left =
      let found : Option ℕ = place_of places e in
      record {
        made = h.made ++ e ∷ [];
        applied =
            apply_ops-snoc 0 start d.out (entry_op e) h.applied (λ j. apply_entry j _ e named);
        pending =
            ap (λ l. l ++ e ∷ [])
              (h.pending
                ∙ ap (λ r. h.made ++ take r (drop d.cursor prev)) none_left
                ∙ append-nil h.made)
            ∙ sym (append-nil _)
            ∙ ap (λ r. (h.made ++ e ∷ []) ++ take r (drop (cursor_after d.cursor found) prev))
                (sym none_left);
        room = ground (
          arith,
          h.room,
          none_left,
          cursor_after-le d.cursor found (length prev) (λ j. index e j),
        );
      }

  pub run-Holds :
      {d : Differ} {read : List ManifestEntry} (e : ManifestEntry)
      → get_elem? prev (d.cursor + d.run) ≡ some e
      → Holds d read
      → Holds (record d { run = d.run + 1 }) (read ++ e ∷ [])
  run-Holds {d} {read} e at_cursor h = record {
    made = h.made;
    applied = h.applied;
    pending =
        ap (λ l. l ++ e ∷ []) h.pending
        ∙ append_assoc h.made _ _
        ∙ ap (λ l. h.made ++ l)
            (sym
                (take-suc d.run (drop d.cursor prev) e
                  (sym (get_elem?-drop d.cursor d.run _ prev refl) ∙ at_cursor)).0
              ∙ ap (λ r. take r (drop d.cursor prev)) (sym (add-one d.run)));
    room = omega (arith, get_elem?-lt (d.cursor + d.run) prev e at_cursor);
  }
