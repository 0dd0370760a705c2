-- ===== src/LostUpdates.antt =====
-- lostupdate.go: the reader of a journal that finds the writes which lost an update. A journal
-- yields changes, and errors in the place of records that it cannot read.
pub mod Keys
pub mod Audit
pub mod Store
pub mod Anchored
use agentmemory.Prelude.{
  ℕ, suc, ◌+◌, Bytes, codes, Bool, true, false, not, ◌&&◌, ◌||◌, Option, none, some, List, [], ◌∷◌,
  ◌++◌, Map, lookup, insert, ltb, ◌==◌, str_eq, if◌then◌else◌,
}
use agentmemory.Memory.{Entry, Change}

-- What `Store.Journal` yields: a change, or the error of a damaged record.
pub data Yield : Type 0 where
  change : Change → Yield
  damaged : Bytes → Yield

pub record LostUpdate : Type 0 where
  pub change : Change
  pub over : Bytes
  pub is_break : Bool
  pub after_damage : Bool

-- The state held of an entry, with the damage seen when it was taken.
pub record Held : Type 0 where
  pub hash : Bytes
  pub damage : ℕ

-- The variables of the loop.
pub record Reader : Type 0 where
  pub last : Map Held
  pub damage : ℕ
  pub start : Bool
  pub first : Bool
  pub errs : List Bytes
  pub out : List LostUpdate

-- `string(c.Entry.Scope) + "/" + c.Entry.Name`.
unfoldable pub entry_key : Bytes → Bytes → Bytes
entry_key scope name = scope ++ (b'/' ∷ name)

-- `h, ok := last[key]`, and the start of the entry where the window holds it.
unfoldable pub held_for : Map Held → Bool → Bytes → Option Held
held_for last start key = elim (lookup key last) [
  | some h ↦ some h
  | none ↦ if start then some (record { hash = []; damage = 0 }) else none
]

unfoldable pub judge : Change → Option Held → ℕ → LostUpdate
judge c none damage = record {
  change = c;
  over = c.replaced;
  is_break = false;
  after_damage = false;
}
judge c (some h) damage =
    let broken : Bool = not (str_eq c.replaced h.hash) in
    record {
      change = c;
      over = h.hash;
      is_break = broken;
      after_damage = broken && ltb h.damage damage;
    }

-- What the reader holds of an entry after its record.
unfoldable pub held_after : Change → ℕ → Held
held_after c damage = record {
  hash = if c.entry.deleted then [] else c.entry.hash;
  damage = damage;
}

-- `if lu.Break || c.Prev != c.Replaced { out = append(out, lu) }`.
unfoldable pub add_report : List LostUpdate → Change → LostUpdate → List LostUpdate
add_report out c lu = if lu.is_break || not (str_eq c.prev c.replaced) then out ++ lu ∷ [] else out

-- A round of the loop.
unfoldable pub read : Reader → Yield → Reader
read r (damaged e) = record r { errs = r.errs ++ e ∷ []; damage = r.damage + 1 }
read r (change c) =
    let start : Bool = if r.first && ltb (r.damage + 1) c.seq then false else r.start in
    let key : Bytes = entry_key c.entry.scope c.entry.name in
    let lu : LostUpdate = judge c (held_for r.last start key) r.damage in
    record r {
      start = start;
      first = false;
      out = add_report r.out c lu;
      last = insert key (held_after c r.damage) r.last;
    }

unfoldable pub read_all : Reader → List Yield → Reader
read_all r [] = r
read_all r (y ∷ ys) = read_all (read r y) ys

unfoldable pub initial : ℕ → Reader
initial after = record {
  last = [];
  damage = 0;
  start = after == 0;
  first = true;
  errs = [];
  out = [];
}

-- `LostUpdates`, given what the journal yields after the cursor: the list, and the errors.
unfoldable pub lost_updates : ℕ → List Yield → List LostUpdate × List Bytes
unfolding initial
lost_updates after ys = let r : Reader = read_all (initial after) ys in (r.out, r.errs)

-- The fallback of `LastSeq`: the largest number that it can read, and the errors.
unfoldable pub last_seq_from : ℕ → List Bytes → List Yield → ℕ × List Bytes
last_seq_from seq errs [] = (seq, errs)
last_seq_from seq errs (damaged e ∷ ys) = last_seq_from seq (errs ++ e ∷ []) ys
last_seq_from seq errs (change c ∷ ys) =
    last_seq_from (if ltb seq c.seq then c.seq else seq) errs ys

unfoldable pub read_last_seq : List Yield → ℕ × List Bytes
unfolding last_seq_from
read_last_seq ys = last_seq_from 0 [] ys
