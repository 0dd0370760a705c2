-- ===== src/Render/Packing.antt =====
-- render.go: `pack` and the line of a scope's omissions keep to the room they are given.
use agentmemory.Prelude.{
  ℕ, zero, suc, ◌+◌, ◌-◌, ◌≤◌, ◌<◌, Bytes, codes, ◌≡◌, refl, Bool, true, false, List, [], ◌∷◌, ◌++◌,
  map, arith, length, length-append, ltb, leb, leb→le, str_eq, Bool-cases, inl, inr, if◌then◌else◌,
}
use agentmemory.Memory.{Entry}
use agentmemory.Render.Text.{cost, entry_text}
use agentmemory.Render.Omissions.{
  omit_head, omit_count, more_tail, pack_from, pack, all_in, omit_line_reserve, omit_item,
  tail_bytes, list_items, finish_line, omit_line,
}
use agentmemory.Render.Blocks.{pack_twice, chosen, line_for, omission_parts, entry_part}
use agentmemory.Render.Widths.{parts_cost}

pack_from-fits :
    (used : ℕ) (es : List Entry) (limit room : ℕ)
    → used ≤ room
    → (pack_from used es limit room).1 ≤ room
unfolding pack_from
pack_from-fits used [] limit room h = h
pack_from-fits used (e ∷ es) limit room h =
    pack_from-fits
      (if leb (used + cost (entry_text e limit)) room
        then used + cost (entry_text e limit)
        else used)
      es limit room (ground arith)

pub pack_twice-fits : (es : List Entry) (limit room : ℕ) → (pack_twice es limit room).1 ≤ room
unfolding pack_twice pack
pack_twice-fits es limit room = ground (
  arith,
  pack_from-fits 0 es limit room (omega arith),
  pack_from-fits 0 es limit (room - omit_line_reserve es) (omega arith),
)

-- The bytes counted are those of the parts that are in.
pack_from-cost :
    (untrusted : Bytes) (scope : Bytes) (trust : List Bytes) (used : ℕ) (es : List Entry)
    (limit room : ℕ)
    → (pack_from used es limit room).1
      ≡ used
        + parts_cost (
            map
              (entry_part untrusted scope trust limit)
              (chosen true (pack_from used es limit room).0 es))
unfolding pack_from parts_cost chosen entry_part
pack_from-cost untrusted scope trust used [] limit room = omega arith
pack_from-cost untrusted scope trust used (e ∷ es) limit room = ground (
  arith,
  pack_from-cost untrusted scope trust used es limit room,
  pack_from-cost untrusted scope trust (used + cost (entry_text e limit)) es limit room,
)

pub length-chosen :
    (want : Bool) (bs : List Bool) (es : List Entry) → length (chosen want bs es) ≤ length es
unfolding chosen
length-chosen want [] es = omega arith
length-chosen want (b ∷ bs) [] = omega arith
length-chosen want (b ∷ bs) (e ∷ es) = ground (arith, length-chosen want bs es)

-- If anything is listed, the line of what is written fits.
abbrev LineFits : ℕ → Bytes × ℕ × ℕ → Type 0
LineFits room r = 0 < r.1 → cost omit_head + length r.0 + tail_bytes r.2 ≤ room

if-LineFits :
    (full : Bool) (r r' : Bytes × ℕ × ℕ) (room : ℕ)
    → (full ≡ true → LineFits room r)
    → (full ≡ false → LineFits room r')
    → LineFits room (if full then r else r')
if-LineFits true r r' room h h' = h refl
if-LineFits false r r' room h h' = h' refl

list_items-LineFits :
    (written : Bytes) (listed : ℕ) (es : List Entry) (room : ℕ)
    → LineFits room (written, listed, length es)
    → LineFits room (list_items written listed es room)
unfolding list_items
list_items-LineFits written listed [] room h = h
list_items-LineFits written listed (e ∷ es) room h =
    let piece = if ltb 0 listed then codes ", " ++ omit_item e else omit_item e in
    if-LineFits (ltb room (cost omit_head + length written + length piece + tail_bytes (length es)))
      (written, listed, suc (length es)) (list_items (written ++ piece) (suc listed) es room) room
      (λ full. h)
      (λ fits.
        list_items-LineFits (written ++ piece) (suc listed) es room
          (λ some_listed. ground (arith, fits, length-append written piece)))

-- What a line adds to the block, nothing where there is none.
unfoldable pub line_cost : Bytes → ℕ
line_cost line = if str_eq line [] then 0 else cost line

line_cost-le : (line : Bytes) (room : ℕ) → cost line ≤ room → line_cost line ≤ room
unfolding line_cost
line_cost-le line room h = ground (arith, h)

finish_line-fits :
    (dropped room : ℕ) (r : Bytes × ℕ × ℕ)
    → LineFits room r
    → line_cost (finish_line dropped room r) ≤ room
unfolding finish_line tail_bytes line_cost str_eq
finish_line-fits dropped room (written, zero, rest) h =
    elim (Bool-cases (leb (cost (omit_count dropped)) room)) [
      | inl fits ↦
          rw fits
            (line_cost-le (omit_count dropped) room (leb→le (cost (omit_count dropped)) room fits))
      | inr long ↦ rw long (ground arith)
    ]
finish_line-fits dropped room (written, suc listed, zero) h = line_cost-le _ room (
    ground (
      arith,
      h (omega arith),
      length-append (omit_head ++ written) [],
      length-append omit_head written,
    ))
finish_line-fits dropped room (written, suc listed, suc rest) h = line_cost-le _ room (
    ground (
      arith,
      h (omega arith),
      length-append (omit_head ++ written) (more_tail (suc rest)),
      length-append omit_head written,
    ))

pub line_for-fits : (dropped : List Entry) (room : ℕ) → line_cost (line_for dropped room) ≤ room
unfolding line_for omit_line line_cost str_eq
line_for-fits dropped room = elim (Bool-cases (ltb 0 (length dropped))) [
  | inl left ↦ rw left (
      finish_line-fits (length dropped) room (list_items [] 0 dropped room)
        (list_items-LineFits [] 0 dropped room (λ l. absurd (omega (arith, l)))))
  | inr full ↦ rw full (omega arith)
]

pub parts_cost-omission_parts :
    (scope : Bytes) (trust : List Bytes) (line : Bytes)
    → parts_cost (omission_parts scope trust line) ≡ line_cost line
unfolding parts_cost omission_parts line_cost
parts_cost-omission_parts scope trust line = ground arith

pub pack_twice-cost :
    (untrusted scope : Bytes) (trust : List Bytes) (es : List Entry) (limit room : ℕ)
    → (pack_twice es limit room).1
      ≡ parts_cost (
          map
            (entry_part untrusted scope trust limit)
            (chosen true (pack_twice es limit room).0 es))
unfolding pack_twice pack
pack_twice-cost untrusted scope trust es limit room =
    elim (Bool-cases (all_in (pack_from 0 es limit room).0)) [
      | inl whole ↦ rw whole (omega (arith, pack_from-cost untrusted scope trust 0 es limit room))
      | inr short ↦ rw short (
          omega
            (arith, pack_from-cost untrusted scope trust 0 es limit (room - omit_line_reserve es)))
    ]
