-- ===== src/MemStore/History.antt =====
-- memstore.go and lostupdate.go: the journal behind a cursor, and what an auditor finds in it.
use agentmemory.Prelude.{
  ℕ, lt→ltb, zero, suc, ◌+◌, ◌≤◌, ◌<◌, Bytes, ◌≡◌, refl, List, [], ◌∷◌, ◌++◌, arith, All, take,
  drop, length, take-append-drop,
}
use agentmemory.Memory.{Change}
use agentmemory.MemStore.{MemStore, journal_after}
use agentmemory.MemStore.Replay.{NumberedFrom}
use agentmemory.MemStore.Invariant.{IsValid}

numbered-above : (n k : ℕ) (cs : List Change) → NumberedFrom n cs → k ≤ n → All (λ c. k < c.seq) cs
numbered-above n k [] h le = tt
numbered-above n k (c ∷ cs) h le = (omega arith, numbered-above (suc n) k cs h.1 (omega arith))

numbered-split :
    (n k b : ℕ) (cs : List Change)
    → NumberedFrom n cs
    → b ≡ n + k
    → All (λ c. c.seq ≤ b) (take k cs) × All (λ c. b < c.seq) (drop k cs)
numbered-split n zero b cs h e = (tt, numbered-above n b cs h (omega arith))
numbered-split n (suc k) b [] h e = (tt, tt)
numbered-split n (suc k) b (c ∷ cs) h e =
    let (below, above) = numbered-split (suc n) k b cs h.1 (omega arith) in
    ((omega arith, below), above)

drop-all {ℓ} : {A : Type ℓ} (k : ℕ) (xs : List A) → length xs ≤ k → drop k xs ≡ []
drop-all zero [] h = refl
drop-all zero (x ∷ xs) h = absurd (omega arith)
drop-all (suc k) [] h = refl
drop-all (suc k) (x ∷ xs) h = drop-all k xs (omega arith)

pub journal_after-drop : (m : MemStore) (after : ℕ) → journal_after m after ≡ drop after m.journal
unfolding journal_after
journal_after-drop m after =
    ground (arith, drop-all after m.journal, lt→ltb after (length m.journal))

-- `Journal(after)` yields the records with a greater number than the cursor, in order, and no
-- other: the journal is the records it skips, none of which is past the cursor, and then those.
pub journal_after-exact :
    (digest : Bytes → Bytes) (m : MemStore) (after : ℕ)
    → IsValid digest m
    → (take after m.journal ++ journal_after m after ≡ m.journal)
      × All (λ c. c.seq ≤ after) (take after m.journal)
      × All (λ c. after < c.seq) (journal_after m after)
journal_after-exact digest m after v =
    let (below, above) = numbered-split 0 after after m.journal v.numbered (omega arith) in
    rw (journal_after-drop m after) (take-append-drop after m.journal, below, above)
