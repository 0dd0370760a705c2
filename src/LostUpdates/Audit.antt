-- ===== src/LostUpdates/Audit.antt =====
-- lostupdate.go: what the audit reports of any journal, damaged or not.
use mathlib.Core.List.{append_assoc, append-nil}
use agentmemory.Prelude.{
  ℕ, Bytes, ◌≡◌, refl, sym, ap, ◌∙◌, Bool, not, Option, none, some, List, [], ◌∷◌, ◌++◌, arith,
  str_eq, if◌then◌else◌,
}
use agentmemory.Memory.{Change}
use agentmemory.LostUpdates.{
  Yield, change, damaged, LostUpdate, Held, Reader, read, read_all, initial, lost_updates, judge,
  add_report,
}

-- A write that was built on another state than the one it replaced.
abbrev pub is_fork : Change → Bool
is_fork c = not (str_eq c.prev c.replaced)

abbrev pub keep_forks : List Change → List Change
keep_forks [] = []
keep_forks (c ∷ cs) = if is_fork c then c ∷ keep_forks cs else keep_forks cs

abbrev pub changes : List Yield → List Change
changes [] = []
changes (change c ∷ ys) = c ∷ changes ys
changes (damaged e ∷ ys) = changes ys

abbrev pub damages : List Yield → List Bytes
damages [] = []
damages (change c ∷ ys) = damages ys
damages (damaged e ∷ ys) = e ∷ damages ys

abbrev pub reported : List LostUpdate → List Change
reported [] = []
reported (u ∷ us) = u.change ∷ reported us

reported-append : (us vs : List LostUpdate) → reported (us ++ vs) ≡ reported us ++ reported vs
reported-append [] vs = refl
reported-append (u ∷ us) vs = ap (◌∷◌ u.change) (reported-append us vs)

keep_forks-append : (cs ds : List Change) → keep_forks (cs ++ ds) ≡ keep_forks cs ++ keep_forks ds
keep_forks-append [] ds = refl
keep_forks-append (c ∷ cs) ds = ground (arith, keep_forks-append cs ds)

change-judge : (c : Change) (h : Option Held) (d : ℕ) → (judge c h d).change ≡ c
unfolding judge
change-judge c none d = refl
change-judge c (some h) d = refl

-- One report more: it is of the record, which is kept if it is a fork.
add_report_forks :
    (out : List LostUpdate) (c : Change) (lu : LostUpdate)
    → lu.change ≡ c
    → keep_forks (reported (add_report out c lu)) ≡ keep_forks (reported out) ++ keep_forks (c ∷ [])
unfolding add_report
add_report_forks out c lu e = ground (
  arith,
  e,
  reported-append out (lu ∷ []),
  keep_forks-append (reported out) (lu.change ∷ []),
  append-nil (keep_forks (reported out)),
)

keep_forks-yields :
    (y : Yield) (ys : List Yield)
    → keep_forks (changes (y ∷ ys)) ≡ keep_forks (changes (y ∷ [])) ++ keep_forks (changes ys)
keep_forks-yields (damaged e) ys = refl
keep_forks-yields (change c) ys = ground arith

damages-yields : (y : Yield) (ys : List Yield) → damages (y ∷ ys) ≡ damages (y ∷ []) ++ damages ys
damages-yields (damaged e) ys = refl
damages-yields (change c) ys = refl

read_forks :
    (r : Reader) (y : Yield)
    → (keep_forks (reported (read r y).out)
        ≡ keep_forks (reported r.out) ++ keep_forks (changes (y ∷ [])))
      × ((read r y).errs ≡ r.errs ++ damages (y ∷ []))
unfolding read
read_forks r (damaged e) = (sym (append-nil _), refl)
read_forks r (change c) =
    (add_report_forks r.out c _ (change-judge c _ r.damage), sym (append-nil _))

read_all_forks :
    (r : Reader) (ys : List Yield)
    → (keep_forks (reported (read_all r ys).out)
        ≡ keep_forks (reported r.out) ++ keep_forks (changes ys))
      × ((read_all r ys).errs ≡ r.errs ++ damages ys)
unfolding read_all
read_all_forks r [] = (sym (append-nil _), sym (append-nil _))
read_all_forks r (y ∷ ys) =
    let (p, q) = read_all_forks (read r y) ys in
    let (p', q') = read_forks r y in
    (
      p
          ∙ ap (λ l. l ++ keep_forks (changes ys)) p'
          ∙ append_assoc (keep_forks (reported r.out)) _ _
          ∙ ap (λ l. keep_forks (reported r.out) ++ l) (sym (keep_forks-yields y ys)),
      q
          ∙ ap (λ l. l ++ damages ys) q'
          ∙ append_assoc r.errs _ _
          ∙ ap (λ l. r.errs ++ l) (sym (damages-yields y ys)),
    )

-- Whatever the journal yields and wherever it is damaged, the forks among the records that
-- `LostUpdates` reports are the forks of the journal, each once and in order, and the errors
-- that it returns are those that the journal yielded, in order.
pub lost_updates_forks :
    (after : ℕ) (ys : List Yield)
    → (keep_forks (reported (lost_updates after ys).0) ≡ keep_forks (changes ys))
      × ((lost_updates after ys).1 ≡ damages ys)
unfolding lost_updates
lost_updates_forks after ys = read_all_forks (initial after) ys
