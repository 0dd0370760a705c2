-- ===== src/LostUpdates/Store.antt =====
-- lostupdate.go over the journal of memstore.go: nothing but forks is ever reported.
use mathlib.Core.List.{append_assoc, append-nil}
use agentmemory.Prelude.{
  ℕ, suc, ◌+◌, zero, Bytes, ◌≡◌, refl, sym, ap, ◌∙◌, Bool, true, false, ◌&&◌, Option, none, some,
  List, [], ◌∷◌, ◌++◌, map, arith, All, Map, lookup, insert, lookup-insert, ◌==◌, ltb, str_eq,
  str_eq_refl, if◌then◌else◌, take, drop,
}
use agentmemory.Memory.{Change, valid_name, stored_hash}
use agentmemory.MemStore.{MemStore, journal_after}
use agentmemory.MemStore.Replay.{replay, replay_from, replay-snoc, Linked, ChainedFrom, left_by}
use agentmemory.MemStore.Invariant.{IsValid, IsNamed}
use agentmemory.MemStore.History.{journal_after-drop}
use agentmemory.LostUpdates.{
  change, LostUpdate, Held, Reader, read, read_all, initial, lost_updates, judge, held_for,
  held_after, entry_key, add_report,
}
use agentmemory.LostUpdates.Audit.{keep_forks}
use agentmemory.LostUpdates.Keys.{str_eq-entry_key}

-- The report of a fork: it wrote over what it says it replaced, and the chain holds.
abbrev pub fork_report : Change → LostUpdate
fork_report c = record { change = c; over = c.replaced; is_break = false; after_damage = false }

abbrev pub fork_reports : List Change → List LostUpdate
fork_reports cs = map fork_report (keep_forks cs)

-- What the reader holds of an entry is what the records so far leave of it.
abbrev Tracks : List Change → Map Held → Bool → Type 0
Tracks before last start =
    (s n : Bytes) (h : Held)
    → valid_name s ≡ true
    → held_for last start (entry_key s n) ≡ some h
    → h.hash ≡ stored_hash (replay before s n)

Tracks-start :
    (before : List Change) (last : Map Held) (start stop : Bool)
    → Tracks before last start
    → Tracks before last (if stop then false else start)
unfolding held_for
Tracks-start before last start stop t s n h vs e = t s n h vs (ground (arith, e))

held_after-hash : (c : Change) (damage : ℕ) → (held_after c damage).hash ≡ stored_hash (left_by c)
unfolding held_after stored_hash
held_after-hash c damage = ground arith

held_for-insert :
    (last : Map Held) (start : Bool) (k j : Bytes) (v : Held)
    → held_for (insert k v last) start j ≡ (if str_eq k j then some v else held_for last start j)
unfolding held_for
held_for-insert last start k j v = ground (arith, lookup-insert k j v last)

Tracks-insert :
    (before : List Change) (last : Map Held) (start : Bool) (c : Change) (damage : ℕ)
    → valid_name c.entry.scope ≡ true
    → Tracks before last start
    → Tracks
        (before ++ c ∷ [])
        (insert (entry_key c.entry.scope c.entry.name) (held_after c damage) last)
        start
Tracks-insert before last start c damage named t s n h vs e = ground (
  arith,
  e,
  held_for-insert last start (entry_key c.entry.scope c.entry.name) (entry_key s n)
      (held_after c damage),
  str_eq-entry_key c.entry.scope s c.entry.name n named vs,
  replay-snoc before c s n,
  held_after-hash c damage,
  t s n h vs,
)

-- Where what the reader holds is what the record replaced, the record is reported as a fork or
-- not at all.
judge-linked :
    (c : Change) (o : Option Held) (damage : ℕ)
    → ((h : Held) → o ≡ some h → h.hash ≡ c.replaced)
    → judge c o damage ≡ fork_report c
unfolding judge
judge-linked c none damage h = refl
judge-linked c (some x) damage h = rw (h x refl, str_eq_refl c.replaced) refl

add_report-fork :
    (out : List LostUpdate) (c : Change)
    → add_report out c (fork_report c) ≡ out ++ fork_reports (c ∷ [])
unfolding add_report
add_report-fork out c = ground (arith, append-nil out)

fork_reports-cons :
    (c : Change) (cs : List Change)
    → fork_reports (c ∷ cs) ≡ fork_reports (c ∷ []) ++ fork_reports cs
fork_reports-cons c cs = ground arith

-- One round over a record of the chain.
read-Linked :
    (before : List Change) (r : Reader) (c : Change)
    → valid_name c.entry.scope ≡ true
    → Linked before c
    → Tracks before r.last r.start
    → ((read r (change c)).out ≡ r.out ++ fork_reports (c ∷ []))
      × ((read r (change c)).errs ≡ r.errs)
      × Tracks (before ++ c ∷ []) (read r (change c)).last (read r (change c)).start
unfolding read
read-Linked before r c named link t =
    let start : Bool = if r.first && ltb (r.damage + 1) c.seq then false else r.start in
    let t' : Tracks before r.last start =
      Tracks-start before r.last r.start (r.first && ltb (r.damage + 1) c.seq) t in
    let judged : judge c (held_for r.last start (entry_key c.entry.scope c.entry.name)) r.damage
        ≡ fork_report c =
      judge-linked c _ r.damage (λ h e. t' c.entry.scope c.entry.name h named e ∙ sym link) in
    (
      ap (add_report r.out c) judged ∙ add_report-fork r.out c,
      refl,
      Tracks-insert before r.last start c r.damage named t',
    )

read_all_linked :
    (before : List Change) (r : Reader) (cs : List Change)
    → All IsNamed cs
    → ChainedFrom before cs
    → Tracks before r.last r.start
    → ((read_all r (map change cs)).out ≡ r.out ++ fork_reports cs)
      × ((read_all r (map change cs)).errs ≡ r.errs)
unfolding read_all
read_all_linked before r [] named chain t = (sym (append-nil _), refl)
read_all_linked before r (c ∷ cs) named chain t =
    let (out, errs, t') = read-Linked before r c named.0.0 chain.0 t in
    let (outs, errs') =
      read_all_linked (before ++ c ∷ []) (read r (change c)) cs named.1 chain.1 t' in
    (
      outs
          ∙ ap (λ l. l ++ fork_reports cs) out
          ∙ append_assoc r.out _ _
          ∙ ap (λ l. r.out ++ l) (sym (fork_reports-cons c cs)),
      errs' ∙ errs,
    )

ChainedFrom-drop :
    (k : ℕ) (before cs : List Change)
    → ChainedFrom before cs
    → ChainedFrom (before ++ take k cs) (drop k cs)
ChainedFrom-drop zero before cs h = rw append-nil h
ChainedFrom-drop (suc k) before [] h = tt
ChainedFrom-drop (suc k) before (c ∷ cs) h =
    rw append_assoc at (ChainedFrom-drop k (before ++ c ∷ []) cs h.1)

IsNamed-drop : (k : ℕ) (cs : List Change) → All IsNamed cs → All IsNamed (drop k cs)
IsNamed-drop zero cs h = h
IsNamed-drop (suc k) [] h = h
IsNamed-drop (suc k) (c ∷ cs) h = IsNamed-drop k cs h.1

Tracks-initial : (after : ℕ) (cs : List Change) → Tracks (take after cs) [] (after == 0)
unfolding held_for replay_from stored_hash lookup
Tracks-initial zero cs s n h vs e = ground (arith, e)
Tracks-initial (suc k) cs s n h vs e = ground (arith, e)

-- On the journal of a store in a valid state, from whatever cursor it is read, `LostUpdates`
-- reports exactly the records behind the cursor that were built on another hash than the one
-- they replaced, in order, each as written over what it says it replaced: no break, no damage
-- and no error.
pub lost_updates-store :
    (digest : Bytes → Bytes) (m : MemStore) (after : ℕ)
    → IsValid digest m
    → lost_updates after (map change (journal_after m after))
      ≡ (fork_reports (journal_after m after), [])
unfolding lost_updates initial
lost_updates-store digest m after v =
    let (out, errs) =
      read_all_linked (take after m.journal) (initial after) (drop after m.journal)
        (IsNamed-drop after m.journal v.named) (ChainedFrom-drop after [] m.journal v.chained)
        (Tracks-initial after m.journal) in
    rw (journal_after-drop m after) (λ i. (out i, errs i))
