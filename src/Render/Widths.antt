-- ===== src/Render/Widths.antt =====
-- render.go: how long a summary is, and the length of a block as the sum of its parts' costs.
use agentmemory.Prelude.{
  ℕ, zero, suc, ◌+◌, ◌-◌, ◌≤◌, ◌<◌, Bytes, codes, ◌≡◌, List, [], ◌∷◌, ◌++◌, arith, length,
  length-append, decimal, width, length-decimal, width_mono,
}
use agentmemory.Render.Text.{part_separator, cost, pad, padded_decimal, summary}
use agentmemory.Render.Blocks.{Part, join_parts}

length-pad : (n : ℕ) (s : Bytes) → length (pad n s) ≡ n + length s
unfolding pad
length-pad zero s = omega arith
length-pad (suc n) s = omega (arith, length-pad n s)

length-padded_decimal : (n m : ℕ) → n ≤ m → length (padded_decimal (length (decimal m)) n) ≡ width m
unfolding padded_decimal
length-padded_decimal n m h = omega (
  arith,
  length-pad (length (decimal m) - length (decimal n)) (decimal n),
  length-decimal n,
  length-decimal m,
  width_mono n m h,
)

length-decimal_append : (n : ℕ) (s : Bytes) → length (decimal n ++ s) ≡ width n + length s
length-decimal_append n s = omega (arith, length-append (decimal n) s, length-decimal n)

length-padded_append :
    (n m : ℕ) (s : Bytes)
    → n ≤ m
    → length (padded_decimal (length (decimal m)) n ++ s) ≡ width m + length s
length-padded_append n m s h =
    omega
      (arith, length-append (padded_decimal (length (decimal m)) n) s, length-padded_decimal n m h)

-- The bytes of a summary that are not digits.
abbrev pub summary_words : ℕ
summary_words = 74

pub length-summary :
    (shown omitted size free max limit : ℕ)
    → free ≤ max
    → length (summary shown omitted size free max limit)
      ≡ summary_words
        + width shown
        + width omitted
        + width size
        + width max
        + width max
        + width limit
unfolding summary
length-summary shown omitted size free max limit h = omega (
  arith,
  length-decimal_append shown _,
  length-decimal_append omitted _,
  length-decimal_append size _,
  length-decimal_append max _,
  length-decimal_append limit (codes " bytes."),
  length-padded_append free max _ h,
)

-- What the parts add up to.
unfoldable pub parts_cost : List Part → ℕ
parts_cost [] = 0
parts_cost (p ∷ ps) = cost p.text + parts_cost ps

pub parts_cost-append : (ps qs : List Part) → parts_cost (ps ++ qs) ≡ parts_cost ps + parts_cost qs
unfolding parts_cost
parts_cost-append [] qs = omega arith
parts_cost-append (p ∷ ps) qs = omega (arith, parts_cost-append ps qs)

pub parts_cost-join_parts :
    (ps : List Part) → 0 < parts_cost ps → 2 + length (join_parts ps) ≡ parts_cost ps
unfolding parts_cost join_parts
parts_cost-join_parts [] h = absurd (omega (arith, h))
parts_cost-join_parts (p ∷ []) h = omega arith
parts_cost-join_parts (p ∷ q ∷ ps) h = omega (
  arith,
  parts_cost-join_parts (q ∷ ps) (omega arith),
  length-append p.text (part_separator ++ join_parts (q ∷ ps)),
)
