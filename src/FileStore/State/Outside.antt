-- ===== src/FileStore/State/Outside.antt =====
-- filestore/state.go: `outside` and `lastRecordFor`.
use mathlib.Core.Path.{subst}
use agentmemory.Prelude.{
  ℕ, Bytes, ◌≡◌, refl, sym, ap, ◌∙◌, inl, inr, true, false, Option, none, some, [], lookup,
  lookup-insert, lookup-remove, str_eq, str_eq_iff, Bool-cases, if◌then◌else◌,
}
use agentmemory.Memory.{Entry, Change, Result, ok, err, check_entry, meta_hash_of}
use agentmemory.FileStore.State.{
  StateEntry, JournalState, entry_key, note, agrees, last_record_for, outside, outside_edit,
  reconciled,
}
use agentmemory.FileStore.State.LastRecord.{IsNamed, IsFile, IsRecord, last_record_for-IsRecord}

abbrev pair : Bytes → Bytes → StateEntry
pair hash meta = record { hash = hash; meta = meta }

str_eq_same : (s : Bytes) → str_eq s s ≡ true
str_eq_same s = (str_eq_iff s s).1 refl

module _ (digest : Bytes → Bytes) where
  abbrev known_as : Entry → StateEntry
  known_as e = record { hash = e.hash; meta = meta_hash_of digest e.meta }

  lookup-note :
      (st : JournalState) (e : Entry)
      → lookup (entry_key e.scope e.name) (note digest st e).entries
        ≡ (if e.deleted then none else some (known_as e))
  unfolding note
  lookup-note st e =
      let k = entry_key e.scope e.name in
      elim (Bool-cases e.deleted) [
        | inl gone ↦ rw gone (
            lookup-remove k k st.entries
            ∙ ap (λ b. if b then none else lookup k st.entries) (str_eq_same k))
        | inr live ↦ rw live (
            lookup-insert k k (known_as e) st.entries
            ∙ ap (λ b. if b then some (known_as e) else lookup k st.entries) (str_eq_same k))
      ]

  agrees-known_as : (e : Entry) → agrees digest (known_as e) e ≡ true
  unfolding agrees
  agrees-known_as e = rw (str_eq_same e.hash, str_eq_same (meta_hash_of digest e.meta)) refl

  module _ (max : ℕ) (mod_time : Option ℕ) (last : Option Change) (scope name : Bytes) where
    -- The cursor holds nothing of a name whose file is gone, or just what the file holds.
    outside-gone :
        (st : JournalState) (at : ℕ)
        → lookup (entry_key scope name) st.entries ≡ none
        → outside digest max mod_time last st scope name none at ≡ none
    unfolding outside
    outside-gone st at h = rw (h, outside) refl

    outside-agreed :
        (st : JournalState) (e : Entry) (at : ℕ)
        → lookup (entry_key scope name) st.entries ≡ some (known_as e)
        → outside digest max mod_time last st scope name (some e) at ≡ none
    unfolding outside
    outside-agreed st e at h = rw (h, agrees-known_as e, outside) refl

-- What `outside` records of a file is the file, but for its time.
record IsVersion (e v : Entry) : Type 0 where
  pub same_scope : v.scope ≡ e.scope
  pub same_name : v.name ≡ e.name
  pub same_deleted : v.deleted ≡ e.deleted
  pub same_hash : v.hash ≡ e.hash
  pub same_meta : v.meta ≡ e.meta

abbrev Records : Entry → Option Change → Type 0
Records e none = Unit
Records e (some c) = IsVersion e c.entry

abbrev Buries : Bytes → Bytes → Option Change → Type 0
Buries scope name none = Unit
Buries scope name (some c) = IsNamed scope name c.entry × (c.entry.deleted ≡ true)

verdict-Records :
    (prev : Bytes) (e : Entry) (at : ℕ) (verdict : Result (Unit {0})) (mod_time : Option ℕ)
    → Records e (elim verdict [
      | err _ ↦ none
      | ok _ ↦ elim mod_time [
        | none ↦ some (reconciled e prev at)
        | some t ↦ some (reconciled (record e { updated = t }) prev at)
      ]
    ])
verdict-Records prev e at (err _) mod_time = tt
verdict-Records prev e at (ok _) none = record {
  same_scope = refl;
  same_name = refl;
  same_deleted = refl;
  same_hash = refl;
  same_meta = refl;
}
verdict-Records prev e at (ok _) (some t) = record {
  same_scope = refl;
  same_name = refl;
  same_deleted = refl;
  same_hash = refl;
  same_meta = refl;
}

module _ (digest : Bytes → Bytes) (max : ℕ) (mod_time : Option ℕ) (scope name : Bytes) where
  known-Records :
      (e : Entry) (at : ℕ) (known : Option StateEntry) (prev : Bytes)
      → Records e (elim known [
        | none ↦ outside_edit digest max mod_time [] e at
        | some k ↦ if agrees digest k e then none else outside_edit digest max mod_time k.hash e at
      ])
  known-Records e at none prev = verdict-Records [] e at (check_entry e max none) mod_time
  known-Records e at (some k) prev = elim (Bool-cases (agrees digest k e)) [
    | inl same ↦ rw same tt
    | inr other ↦ rw other (verdict-Records k.hash e at (check_entry e max none) mod_time)
  ]

  outside-Records :
      (last : Option Change) (st : JournalState) (e : Entry) (at : ℕ)
      → Records e (outside digest max mod_time last st scope name (some e) at)
  unfolding outside
  outside-Records last st e at = known-Records e at (lookup (entry_key scope name) st.entries) []

  known-Buries :
      (at : ℕ) (known : Option StateEntry) (last : Option Change)
      → IsRecord scope name last
      → Buries scope name (elim known [
        | none ↦ none
        | some k ↦ elim last [
          | none ↦ none
          | some l ↦ some (
              reconciled
                (record (l.entry) {
                  deleted = true;
                  updated = at;
                  meta_hash = meta_hash_of digest (l.entry).meta;
                })
                k.hash
                at)
        ]
      ])
  known-Buries at none last h = tt
  known-Buries at (some k) none h = tt
  known-Buries at (some k) (some l) h =
      (record { scope_is = h.scope_is; name_is = h.name_is }, refl)

  outside-Buries :
      (last : Option Change) (st : JournalState) (at : ℕ)
      → IsRecord scope name last
      → Buries scope name (outside digest max mod_time last st scope name none at)
  unfolding outside
  outside-Buries last st at h = known-Buries at (lookup (entry_key scope name) st.entries) last h

  lookup-note_named :
      (st : JournalState) (e : Entry)
      → IsNamed scope name e
      → lookup (entry_key scope name) (note digest st e).entries
        ≡ (if e.deleted then none else some (known_as digest e))
  lookup-note_named st e h =
      ap (λ s. lookup (entry_key s name) (note digest st e).entries) (sym h.scope_is)
      ∙ ap (λ n. lookup (entry_key e.scope n) (note digest st e).entries) (sym h.name_is)
      ∙ lookup-note digest st e

  module _ (parse_record : Bytes → Option Change) (journal : Option Bytes) where
    -- What `outside` finds, with the journal's last record for the name.
    abbrev pub found_outside : JournalState → Option Entry → ℕ → Option Change
    found_outside st cur at =
        outside digest max mod_time (last_record_for digest parse_record journal scope name) st
          scope name cur at

    found_outside-none :
        (st : JournalState) (c : Change) (at at' : ℕ)
        → found_outside st none at ≡ some c
        → found_outside (note digest st c.entry) none at' ≡ none
    found_outside-none st c at at' h =
        let last = last_record_for digest parse_record journal scope name in
        let buried = subst (Buries scope name) h (
          outside-Buries last st at
            (last_record_for-IsRecord scope name digest parse_record journal)) in
        let gone =
          lookup-note_named st c.entry buried.0
          ∙ ap (λ b. if b then none else some (known_as digest c.entry)) buried.1 in
        outside-gone digest max mod_time last scope name (note digest st c.entry) at' gone

    found_outside-file :
        (st : JournalState) (e : Entry) (c : Change) (at at' : ℕ)
        → IsNamed scope name e
        → e.deleted ≡ false
        → found_outside st (some e) at ≡ some c
        → found_outside (note digest st c.entry) (some e) at' ≡ none
    found_outside-file st e c at at' n live h =
        let last = last_record_for digest parse_record journal scope name in
        let v = subst (Records e) h (outside-Records last st e at) in
        let named : IsNamed scope name c.entry = record {
          scope_is = v.same_scope ∙ n.scope_is;
          name_is = v.same_name ∙ n.name_is;
        } in
        let known : known_as digest c.entry ≡ known_as digest e =
          ap (λ b. pair b (meta_hash_of digest c.entry.meta)) v.same_hash
          ∙ ap (λ m. pair e.hash (meta_hash_of digest m)) v.same_meta in
        let held =
          lookup-note_named st c.entry named
          ∙ ap (λ b. if b then none else some (known_as digest c.entry)) (v.same_deleted ∙ live)
          ∙ ap some known in
        outside-agreed digest max mod_time last scope name (note digest st c.entry) e at' held

    -- A change that somebody made to an entry's file, or its removal, is recorded once: with the
    -- record of it noted, the file as it was found is what the cursor holds.
    pub outside-once :
        (st : JournalState) (cur : Option Entry) (c : Change) (at at' : ℕ)
        → IsFile scope name cur
        → found_outside st cur at ≡ some c
        → found_outside (note digest st c.entry) cur at' ≡ none
    outside-once st none c at at' n h = found_outside-none st c at at' h
    outside-once st (some e) c at at' n h = found_outside-file st e c at at' n.0 n.1 h
