-- ===== src/Prelude/Utf8.antt =====
-- The parts of Go's `unicode/utf8` and `strings` that the checks use: `utf8.ValidString`,
-- `strings.TrimSpace`, `strings.ContainsAny` with the line breaks.
use mathlib.Core.Bool.{Bool, true, false, ◌&&◌, ◌||◌}
use mathlib.Core.List.{List, [], ◌∷◌, map, reverse}
use mathlib.Core.Option.{Option, none, some}
use Prim.Native.Nat.{ℕ, zero, suc}
use agentmemory.Prelude.Tests.{leb, ltb, ◌==◌, if◌then◌else◌}
use agentmemory.Prelude.Lists.{length}
use agentmemory.Prelude.Strings.{Bytes, has_prefix}

abbrev continuation : ℕ × ℕ
continuation = (0x80, 0xBF)

-- The ranges of the bytes that must follow a first byte, or `none` where it starts no rune.
unfoldable pub utf8_lead : ℕ → Option (List (ℕ × ℕ))
utf8_lead c =
    if ltb c 0x80
    then some []
    else if ltb c 0xC2
    then none
    else if leb c 0xDF
    then some (continuation ∷ [])
    else if c == 0xE0
    then some ((0xA0, 0xBF) ∷ continuation ∷ [])
    else if c == 0xED
    then some ((0x80, 0x9F) ∷ continuation ∷ [])
    else if leb c 0xEF
    then some (continuation ∷ continuation ∷ [])
    else if c == 0xF0
    then some ((0x90, 0xBF) ∷ continuation ∷ continuation ∷ [])
    else if leb c 0xF3
    then some (continuation ∷ continuation ∷ continuation ∷ [])
    else if c == 0xF4
    then some ((0x80, 0x8F) ∷ continuation ∷ continuation ∷ [])
    else none

unfoldable pub utf8_from : List (ℕ × ℕ) → Bytes → Bool
utf8_from [] [] = true
utf8_from (_ ∷ _) [] = false
utf8_from ((lo, hi) ∷ ps) (c ∷ s) = (leb lo c && leb c hi) && utf8_from ps s
utf8_from [] (c ∷ s) = elim (utf8_lead c) [ none ↦ false | some ps ↦ utf8_from ps s ]

unfoldable pub valid_utf8 : Bytes → Bool
unfolding utf8_from utf8_lead
valid_utf8 s = utf8_from [] s

-- The encodings of the runes that `unicode.IsSpace` holds of.
unfoldable pub spaces : List Bytes
spaces =
    (0x09 ∷ [])
    ∷ (0x0A ∷ [])
    ∷ (0x0B ∷ [])
    ∷ (0x0C ∷ [])
    ∷ (0x0D ∷ [])
    ∷ (0x20 ∷ [])
    ∷ (0xC2 ∷ 0x85 ∷ [])
    ∷ (0xC2 ∷ 0xA0 ∷ [])
    ∷ (0xE1 ∷ 0x9A ∷ 0x80 ∷ [])
    ∷ (0xE2 ∷ 0x80 ∷ 0x80 ∷ [])
    ∷ (0xE2 ∷ 0x80 ∷ 0x81 ∷ [])
    ∷ (0xE2 ∷ 0x80 ∷ 0x82 ∷ [])
    ∷ (0xE2 ∷ 0x80 ∷ 0x83 ∷ [])
    ∷ (0xE2 ∷ 0x80 ∷ 0x84 ∷ [])
    ∷ (0xE2 ∷ 0x80 ∷ 0x85 ∷ [])
    ∷ (0xE2 ∷ 0x80 ∷ 0x86 ∷ [])
    ∷ (0xE2 ∷ 0x80 ∷ 0x87 ∷ [])
    ∷ (0xE2 ∷ 0x80 ∷ 0x88 ∷ [])
    ∷ (0xE2 ∷ 0x80 ∷ 0x89 ∷ [])
    ∷ (0xE2 ∷ 0x80 ∷ 0x8A ∷ [])
    ∷ (0xE2 ∷ 0x80 ∷ 0xA8 ∷ [])
    ∷ (0xE2 ∷ 0x80 ∷ 0xA9 ∷ [])
    ∷ (0xE2 ∷ 0x80 ∷ 0xAF ∷ [])
    ∷ (0xE2 ∷ 0x81 ∷ 0x9F ∷ [])
    ∷ (0xE3 ∷ 0x80 ∷ 0x80 ∷ [])
    ∷ []

-- The bytes of the encoding in the list that the string starts with, or 0.
unfoldable pub lead_len : List Bytes → Bytes → ℕ
lead_len [] s = 0
lead_len (e ∷ es) s = if has_prefix s e then length e else lead_len es s

-- Drops `n` bytes, and then each encoding at the front.
unfoldable pub trim_from : List Bytes → ℕ → Bytes → Bytes
trim_from es n [] = []
trim_from es (suc n) (c ∷ s) = trim_from es n s
trim_from es zero (c ∷ s) = elim (lead_len es (c ∷ s)) [ zero ↦ c ∷ s | suc n ↦ trim_from es n s ]

unfoldable pub trim_space : Bytes → Bytes
unfolding trim_from lead_len has_prefix spaces
trim_space s = reverse (trim_from (map reverse spaces) 0 (reverse (trim_from spaces 0 s)))

unfoldable pub has_line_break : Bytes → Bool
has_line_break [] = false
has_line_break (c ∷ s) = (c == b'\r' || c == b'\n') || has_line_break s
