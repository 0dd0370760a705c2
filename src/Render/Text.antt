-- ===== src/Render/Text.antt =====
-- render.go: the texts of the block's parts.
use agentmemory.Prelude.{
  ℕ, zero, suc, ◌+◌, ◌-◌, Bytes, codes, Bool, [], ◌∷◌, ◌++◌, length, ◌==◌, str_eq, decimal,
  if◌then◌else◌,
}
use agentmemory.Memory.{Entry, description, size}
use agentmemory.Neutralise.{neutralise}

abbrev pub part_separator : Bytes
part_separator = b'\n' ∷ b'\n' ∷ []

abbrev pub title : Bytes
title = codes "# Memory"

abbrev pub no_entries : Bytes
no_entries = codes "No entries."

-- What a part other than the first adds to the block.
abbrev pub cost : Bytes → ℕ
cost text = 2 + length text

unfoldable pub scope_text : Bytes → Bool → Bytes
scope_text scope is_empty =
    if is_empty
    then codes "## " ++ (scope ++ (part_separator ++ no_entries))
    else codes "## " ++ scope

unfoldable pub pad : ℕ → Bytes → Bytes
pad zero s = s
pad (suc n) s = b' ' ∷ pad n s

-- `%*d`: at least `w` bytes wide, padded with spaces.
unfoldable pub padded_decimal : ℕ → ℕ → Bytes
padded_decimal w n = pad (w - length (decimal n)) (decimal n)

unfoldable pub summary : ℕ → ℕ → ℕ → ℕ → ℕ → ℕ → Bytes
summary shown omitted size free max limit =
    codes "Entries: "
    ++ (decimal shown
        ++ (codes " shown, "
            ++ (decimal omitted
                ++ (codes " omitted. Block: "
                    ++ (decimal size
                        ++ (codes " of "
                            ++ (decimal max
                                ++ (codes " bytes ("
                                    ++ (padded_decimal (length (decimal max)) free
                                        ++ (codes " free). Entry limit: "
                                            ++ (decimal limit ++ codes " bytes.")))))))))))

-- `strings.NewReplacer("\r", " ", "\n", " ")`.
unfoldable pub one_line : Bytes → Bytes
one_line [] = []
one_line (c ∷ s) =
    let rest = one_line s in (if c == b'\r' then b' ' else if c == b'\n' then b' ' else c) ∷ rest

-- `strings.TrimSuffix(s, "\n")`.
unfoldable pub trim_newline : Bytes → Bytes
trim_newline [] = []
trim_newline (c ∷ []) = if c == b'\n' then [] else c ∷ []
trim_newline (c ∷ d ∷ s) = c ∷ trim_newline (d ∷ s)

-- `entryText`. The dash is U+2014.
unfoldable pub entry_text : Entry → ℕ → Bytes
unfolding description decimal one_line trim_newline neutralise str_eq
entry_text e limit =
    let heading =
      codes "### "
      ++ (e.name
          ++ (codes " ("
              ++ (decimal (size e) ++ (codes " of " ++ (decimal limit ++ codes " bytes)"))))) in
    let d = description e in
    let described =
      if str_eq d [] then heading else heading ++ (b' ' ∷ 0xE2 ∷ 0x80 ∷ 0x94 ∷ b' ' ∷ one_line d) in
    described ++ (part_separator ++ neutralise (trim_newline e.content))

abbrev pub title_part_id : Bytes
title_part_id = codes "memory"

abbrev pub summary_part_id : Bytes
summary_part_id = codes "memory:summary"

unfoldable pub part_id : Bytes → Bytes → Bytes
part_id scope name = codes "memory/" ++ (scope ++ (b'/' ∷ name))

unfoldable pub scope_part_id : Bytes → Bytes
scope_part_id scope = codes "memory/" ++ scope

unfoldable pub omitted_part_id : Bytes → Bytes
omitted_part_id scope = codes "memory/" ++ (scope ++ codes ":omitted")
