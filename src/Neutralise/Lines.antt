-- ===== src/Neutralise/Lines.antt =====
-- render.go: `splitLines`, `leadLen`, `atxLevel`, `isUnderline`, the fences, `neutralise`.
use agentmemory.Prelude.{
  ℕ, zero, suc, ◌-◌, Bytes, Bool, true, false, not, ◌&&◌, ◌||◌, Option, none, some, List, [], ◌∷◌,
  ◌++◌, length, take, drop, all_of, ltb, leb, ◌==◌, has_prefix, if◌then◌else◌,
}

pub record Line : Type 0 where
  pub body : Bytes
  pub end : Bytes

abbrev pub push_byte : ℕ → List Line → List Line
push_byte c [] = []
push_byte c (l ∷ ls) = record l { body = c ∷ l.body } ∷ ls

-- `splitLines`: at each "\r\n", "\n" and lone "\r".
unfoldable pub split_lines : Bytes → List Line
split_lines [] = record { body = []; end = [] } ∷ []
split_lines (c ∷ []) =
    if c == b'\n' || c == b'\r'
    then record { body = []; end = c ∷ [] } ∷ record { body = []; end = [] } ∷ []
    else record { body = c ∷ []; end = [] } ∷ []
split_lines (c ∷ d ∷ s) =
    let after_pair = record { body = []; end = c ∷ d ∷ [] } ∷ split_lines s in
    let after_one = record { body = []; end = c ∷ [] } ∷ split_lines (d ∷ s) in
    let in_line = push_byte c (split_lines (d ∷ s)) in
    if c == b'\r' && d == b'\n'
    then after_pair
    else if c == b'\n' || c == b'\r'
    then after_one
    else in_line

abbrev pub is_blank : ℕ → Bool
is_blank c = c == b' ' || c == b'\t'

abbrev pub is_digit : ℕ → Bool
is_digit c = leb b'0' c && leb c b'9'

-- How many bytes at the front are the byte `c`.
unfoldable pub run_of : ℕ → Bytes → ℕ
run_of c [] = 0
run_of c (d ∷ s) = let rest = run_of c s in if d == c then suc rest else 0

-- How many bytes at the front are digits, at most `n`.
unfoldable pub digits_upto : ℕ → Bytes → ℕ
digits_upto zero s = 0
digits_upto (suc n) [] = 0
digits_upto (suc n) (c ∷ s) = let rest = digits_upto n s in if is_digit c then suc rest else 0

-- Whether the bytes begin with a space or a tab.
unfoldable pub starts_blank : Bytes → Bool
starts_blank [] = false
starts_blank (c ∷ s) = is_blank c

-- "." or ")", and then a space or a tab.
unfoldable pub ends_marker : Bytes → Bool
unfolding starts_blank
ends_marker [] = false
ends_marker (c ∷ s) = (c == b'.' || c == b')') && starts_blank s

-- The `switch` of `leadLen`: how far it moves on, 0 where the lead ends.
unfoldable pub lead_step : Bool → Bytes → ℕ
unfolding starts_blank ends_marker digits_upto
lead_step markers [] = 0
lead_step markers (c ∷ s) =
    if is_blank c || c == b'>'
    then 1
    else if not markers
    then 0
    else if c == b'-' || c == b'+' || c == b'*'
    then (if starts_blank s then 1 else 0)
    else if is_digit c
    then (let n = digits_upto 9 (c ∷ s) in if ends_marker (drop n (c ∷ s)) then suc n else 0)
    else 0

-- The loop of `leadLen`, after so many bytes that are passed over.
unfoldable pub lead_from : Bool → ℕ → Bytes → ℕ
unfolding lead_step
lead_from markers k [] = 0
lead_from markers (suc k) (c ∷ s) = suc (lead_from markers k s)
lead_from markers zero (c ∷ s) = elim (lead_step markers (c ∷ s)) [
  | zero ↦ 0
  | suc k ↦ suc (lead_from markers k s)
]

unfoldable pub lead_len : Bytes → Bool → ℕ
unfolding lead_from
lead_len s markers = lead_from markers 0 s

-- `atxLevel`.
unfoldable pub atx_level : Bytes → ℕ
unfolding run_of starts_blank
atx_level s =
    let n = run_of b'#' s in
    if n == 0 || ltb 6 n || (ltb n (length s) && not (starts_blank (drop n s))) then 0 else n

-- `strings.Trim(s, " \t") == ""`.
abbrev pub all_blank : Bytes → Bool
all_blank s = all_of is_blank s

-- `isUnderline`.
unfoldable pub is_underline : Bytes → Bool
unfolding run_of
is_underline [] = false
is_underline (c ∷ s) =
    if not (c == b'=') && not (c == b'-')
    then false
    else all_blank (drop (run_of c (c ∷ s)) (c ∷ s))

-- `opensFence`: the character and the length of the run.
unfoldable pub opens_fence : Bytes → Option (ℕ × ℕ)
unfolding run_of
opens_fence [] = none
opens_fence (c ∷ s) =
    let n = run_of c (c ∷ s) in
    if not (c == b'`') && not (c == b'~')
    then none
    else if ltb n 3 || (c == b'`' && not (all_of (λ d. not (d == b'`')) (drop n (c ∷ s))))
    then none
    else some (c, n)

-- `closesFence`.
unfoldable pub closes_fence : Bytes → ℕ → ℕ → Bool
unfolding run_of
closes_fence s c n = leb n (run_of c s) && all_blank (drop (run_of c s) s)

-- The fence that is open, and the line that opened it.
pub record Open : Type 0 where
  pub fence : ℕ
  pub fence_len : ℕ
  pub opened : ℕ

-- The body of the loop of `unclosed`, at line `i`.
unfoldable pub fence_step : ℕ → Option Open → Bytes → Option Open
unfolding run_of closes_fence opens_fence
fence_step i state body =
    let ind = run_of b' ' body in
    let rest = drop ind body in
    if ltb 3 ind then state else elim state [
      | some o ↦ if closes_fence rest o.fence o.fence_len then none else some o
      | none ↦ elim (opens_fence rest) [
        | some (c, n) ↦ some (record { fence = c; fence_len = n; opened = i })
        | none ↦ none
      ]
    ]

unfoldable pub unclosed_from : ℕ → Option Open → List Line → Option Open
unfolding fence_step
unclosed_from i state [] = state
unclosed_from i state (l ∷ ls) = unclosed_from (suc i) (fence_step i state l.body) ls

-- `unclosed`: the line that opened a fence still open at the end.
unfoldable pub unclosed : List Line → Option ℕ
unfolding unclosed_from
unclosed ls = elim (unclosed_from 0 none ls) [ none ↦ none | some o ↦ some o.opened ]

unfoldable pub insert_at : ℕ → Bytes → Bytes → Bytes
insert_at n t s = take n s ++ (t ++ drop n s)

unfoldable pub hashes : ℕ → Bytes
hashes zero = []
hashes (suc n) = b'#' ∷ hashes n

-- The `switch` of the first loop of `neutralise`, for a body and whether text stands before it.
unfoldable pub rewrite_body : Bool → Bytes → Bytes
unfolding lead_len atx_level has_prefix insert_at hashes is_underline
rewrite_body prev_text body =
    let lead = lead_len body true in
    let n = atx_level (drop lead body) in
    if leb 1 n && leb n 3
    then insert_at lead (hashes (4 - n)) body
    else if n == 0 && has_prefix (drop lead body) (b'<' ∷ [])
    then insert_at lead (b'\\' ∷ []) body
    else if (n == 0 && prev_text) && is_underline (drop (lead_len body false) body)
    then insert_at (lead_len body false) (b'\\' ∷ []) body
    else body

-- `n == 0 && strings.Trim(l.body, " \t") != ""`.
unfoldable pub is_text : Bytes → Bool
unfolding lead_len atx_level
is_text body = atx_level (drop (lead_len body true) body) == 0 && not (all_blank body)

unfoldable pub rewrite_lines : Bool → List Line → List Line
unfolding rewrite_body is_text
rewrite_lines prev_text [] = []
rewrite_lines prev_text (l ∷ ls) =
    record l { body = rewrite_body prev_text l.body } ∷ rewrite_lines (is_text l.body) ls

-- The line at `i` with "\" behind its spaces.
unfoldable pub escape_line : ℕ → List Line → List Line
unfolding run_of insert_at
escape_line i [] = []
escape_line zero (l ∷ ls) =
    record l { body = insert_at (run_of b' ' l.body) (b'\\' ∷ []) l.body } ∷ ls
escape_line (suc i) (l ∷ ls) = l ∷ escape_line i ls

-- The second loop of `neutralise`: a round for each fence left open, on fuel.
unfoldable pub close_fences : ℕ → List Line → List Line
unfolding unclosed escape_line
close_fences zero ls = ls
close_fences (suc f) ls = elim (unclosed ls) [
  | none ↦ ls
  | some i ↦ close_fences f (escape_line i ls)
]

unfoldable pub join_lines : List Line → Bytes
join_lines [] = []
join_lines (l ∷ ls) = l.body ++ (l.end ++ join_lines ls)

-- `neutralise`. As many rounds as there are lines are enough: each makes a line inert.
unfoldable pub neutralise : Bytes → Bytes
unfolding split_lines rewrite_lines close_fences join_lines
neutralise content =
    let ls = rewrite_lines false (split_lines content) in join_lines (close_fences (length ls) ls)
