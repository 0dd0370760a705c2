-- ===== src/Render/Omissions.antt =====
-- render.go: `pack`, and the line that names what a scope left out. Where Go's room is negative
-- nothing fits, and nothing fits in the 0 that the subtractions here stop at: a part costs two
-- bytes at least.
use agentmemory.Prelude.{
  ℕ, suc, ◌+◌, Bytes, codes, Bool, true, false, List, [], ◌∷◌, ◌++◌, length, ltb, leb, ◌==◌,
  decimal, if◌then◌else◌,
}
use agentmemory.Memory.{Entry, size}
use agentmemory.Render.Text.{cost, entry_text}

abbrev pub omit_head : Bytes
omit_head = codes "Not shown, over the block budget; fetch with memory_search: "

unfoldable pub omit_count : ℕ → Bytes
omit_count n = codes "Not shown, over the block budget: " ++ (decimal n ++ codes " entries.")

unfoldable pub more_tail : ℕ → Bytes
more_tail n = codes ", and " ++ (decimal n ++ codes " more")

-- The loop of `pack`, from what is used.
unfoldable pub pack_from : ℕ → List Entry → ℕ → ℕ → List Bool × ℕ
pack_from used [] limit room = ([], used)
pack_from used (e ∷ es) limit room =
    let n = cost (entry_text e limit) in
    let fits = leb (used + n) room in
    let (rest, total) = pack_from (if fits then used + n else used) es limit room in
    (fits ∷ rest, total)

unfoldable pub pack : List Entry → ℕ → ℕ → List Bool × ℕ
unfolding pack_from
pack es limit room = pack_from 0 es limit room

-- `all`.
unfoldable pub all_in : List Bool → Bool
all_in [] = true
all_in (b ∷ bs) = let rest = all_in bs in if b then rest else false

unfoldable pub omit_item : Entry → Bytes
omit_item e = e.name ++ (codes " (" ++ (decimal (size e) ++ codes " bytes)"))

unfoldable pub widest_item : ℕ → List Entry → ℕ
unfolding omit_item
widest_item item [] = item
widest_item item (e ∷ es) =
    widest_item (if ltb item (length (omit_item e)) then length (omit_item e) else item) es

unfoldable pub omit_line_reserve : List Entry → ℕ
unfolding widest_item more_tail
omit_line_reserve es = cost omit_head + widest_item 0 es + length (more_tail (length es))

-- `tail`: the bytes that say how many more there are, 0 for none.
unfoldable pub tail_bytes : ℕ → ℕ
tail_bytes rest = if ltb 0 rest then length (more_tail rest) else 0

-- The loop of `omitLine`: the items written so far, how many, and how many are not.
unfoldable pub list_items : Bytes → ℕ → List Entry → ℕ → Bytes × ℕ × ℕ
list_items written listed [] room = (written, listed, 0)
list_items written listed (e ∷ es) room =
    let piece = if ltb 0 listed then codes ", " ++ omit_item e else omit_item e in
    let rest = list_items (written ++ piece) (suc listed) es room in
    if ltb room (cost omit_head + length written + length piece + tail_bytes (length es))
    then (written, listed, suc (length es))
    else rest

-- The end of `omitLine`.
unfoldable pub finish_line : ℕ → ℕ → Bytes × ℕ × ℕ → Bytes
finish_line dropped room (written, listed, rest) =
    if listed == 0
    then (if leb (cost (omit_count dropped)) room then omit_count dropped else [])
    else (omit_head ++ written) ++ (if ltb 0 rest then more_tail rest else [])

unfoldable pub omit_line : List Entry → ℕ → Bytes
omit_line dropped room = finish_line (length dropped) room (list_items [] 0 dropped room)
