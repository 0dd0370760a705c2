-- ===== src/MemStore/Replay.antt =====
-- The state that a journal records: what the last change of an entry left, nothing after a
-- tombstone. This is the description against which the store is checked.
use mathlib.Core.List.{append_assoc}
use agentmemory.Prelude.{
  ℕ, suc, ◌+◌, Bytes, ◌≡◌, refl, Bool, ◌&&◌, Option, none, some, List, [], ◌∷◌, ◌++◌, arith, length,
  str_eq, if◌then◌else◌,
}
use agentmemory.Memory.{Entry, Change, stored_hash}

-- The change is of the entry.
abbrev pub concerns : Change → Bytes → Bytes → Bool
concerns c scope name = str_eq c.entry.scope scope && str_eq c.entry.name name

abbrev pub left_by : Change → Option Entry
left_by c = if c.entry.deleted then none else some c.entry

unfoldable pub replay_from : Option Entry → List Change → Bytes → Bytes → Option Entry
replay_from o [] s n = o
replay_from o (c ∷ cs) s n = replay_from (if concerns c s n then left_by c else o) cs s n

abbrev pub replay : List Change → Bytes → Bytes → Option Entry
replay cs = replay_from none cs

pub replay_from-append :
    (o : Option Entry) (xs ys : List Change) (s n : Bytes)
    → replay_from o (xs ++ ys) s n ≡ replay_from (replay_from o xs s n) ys s n
unfolding replay_from
replay_from-append o [] ys s n = refl
replay_from-append o (c ∷ xs) ys s n =
    replay_from-append (if concerns c s n then left_by c else o) xs ys s n

pub replay-snoc :
    (xs : List Change) (c : Change) (s n : Bytes)
    → replay (xs ++ c ∷ []) s n ≡ (if concerns c s n then left_by c else replay xs s n)
unfolding replay_from
replay-snoc xs c s n = replay_from-append none xs (c ∷ []) s n

-- The record was written over the state that the records before it leave.
abbrev pub Linked : List Change → Change → Type 0
Linked before c = c.replaced ≡ stored_hash (replay before c.entry.scope c.entry.name)

abbrev pub ChainedFrom : List Change → List Change → Type 0
ChainedFrom before [] = Unit
ChainedFrom before (c ∷ cs) = Linked before c × ChainedFrom (before ++ c ∷ []) cs

pub ChainedFrom-snoc :
    (before cs : List Change) (c : Change)
    → ChainedFrom before cs
    → Linked (before ++ cs) c
    → ChainedFrom before (cs ++ c ∷ [])
ChainedFrom-snoc before [] c h l = (rw (← mathlib.Core.List.append-nil before) l, tt)
ChainedFrom-snoc before (d ∷ cs) c h l =
    (h.0, ChainedFrom-snoc (before ++ d ∷ []) cs c h.1 (rw append_assoc l))

-- The records are numbered one after the other.
abbrev pub NumberedFrom : ℕ → List Change → Type 0
NumberedFrom n [] = Unit
NumberedFrom n (c ∷ cs) = (c.seq ≡ suc n) × NumberedFrom (suc n) cs

pub NumberedFrom-snoc :
    (n : ℕ) (cs : List Change) (c : Change)
    → NumberedFrom n cs
    → c.seq ≡ n + length cs + 1
    → NumberedFrom n (cs ++ c ∷ [])
NumberedFrom-snoc n [] c h e = (omega arith, tt)
NumberedFrom-snoc n (d ∷ cs) c h e = (h.0, NumberedFrom-snoc (suc n) cs c h.1 (omega arith))
