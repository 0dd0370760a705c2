-- ===== src/Tools/Texts.antt =====
-- tools.go: the texts that the tools show a model: their descriptions, and the line that a write
-- returns.
use agentmemory.Prelude.{
  ℕ, Bytes, codes, Bool, false, not, Option, none, some, List, [], ◌∷◌, ◌++◌, Map, lookup, length,
  ◌==◌, str_eq, decimal, select, ◌||◌, ◌&&◌, if◌then◌else◌,
}
use agentmemory.Memory.{Entry, Change, size, keys, sort}
use agentmemory.Search.{
  search_any, search_meta, search_updated_after, search_updated_before, all_search_options,
  mentions,
}
use agentmemory.Tools.Options.{Toolset}
use agentmemory.Tools.Answers.{ToolResult, Answer, done}

-- The texts one behind the other, as `Sprintf` puts them.
unfoldable pub texts : List Bytes → Bytes
texts [] = []
texts (t ∷ ts) = t ++ texts ts

-- `strings.Join`.
unfoldable pub join_with : Bytes → List Bytes → Bytes
join_with sep [] = []
join_with sep (t ∷ []) = t
join_with sep (t ∷ u ∷ ts) = t ++ (sep ++ join_with sep (u ∷ ts))

abbrev pub comma : Bytes
comma = codes ", "

abbrev read_only_text : Bytes → Bytes
read_only_text s = texts (codes "scope " ∷ s ∷ codes " is read-only" ∷ [])

-- `scopeList`.
unfoldable pub scope_list : Toolset → Bytes
scope_list t =
    if length t.scopes == 1
    then texts (
        codes "Scope: "
        ∷ join_with comma t.scopes
        ∷ codes ", the only one; the argument may be left out."
        ∷ [])
    else texts
        (codes "Scopes: " ∷ join_with comma t.scopes ∷ codes "; name one on every call." ∷ [])

-- The loops of `writerScopes`. A scope's name needs no escape under `%q`.
unfoldable pub fixed_sentences : Map (List Bytes) → List Bytes → Bytes
fixed_sentences fixed [] = []
fixed_sentences fixed (s ∷ ss) =
    let rest = fixed_sentences fixed ss in
    elim (lookup s fixed) [
      | none ↦ rest
      | some ns ↦ texts (
          codes " Scope "
          ∷ s
          ∷ codes " holds the fixed entries "
          ∷ join_with comma ns
          ∷ codes
              ": memory_save writes only those names there, and memory_forget does not remove them."
          ∷ rest
          ∷ [])
    ]

unfoldable pub read_only_sentences : List Bytes → Bytes
read_only_sentences [] = []
read_only_sentences (s ∷ ss) = texts (
    codes " Scope "
    ∷ s
    ∷ codes " is read-only: memory_search reads it, and a write to it is refused with \""
    ∷ read_only_text s
    ∷ codes "\"."
    ∷ read_only_sentences ss
    ∷ [])

unfoldable pub writer_scopes : Toolset → Bytes
writer_scopes t =
    scope_list t
    ++ (fixed_sentences t.opts.fixed t.scopes ++ read_only_sentences t.opts.read_scopes)

abbrev pub all_scopes : Toolset → List Bytes
all_scopes t = t.scopes ++ t.opts.read_scopes

-- `searchScopes`.
unfoldable pub search_scopes : Toolset → Bytes
search_scopes t =
    if length (all_scopes t) == 1
    then texts (
        codes "Scope: "
        ∷ join_with comma (all_scopes t)
        ∷ codes ", the only one; scopes may be left out."
        ∷ [])
    else texts (
        codes "Scopes: "
        ∷ join_with comma (all_scopes t)
        ∷ codes "; all of them when scopes is left out."
        ∷ (if length t.opts.read_scopes == 0
            then []
            else texts (
                codes " Read-only, so for reading: "
                ∷ join_with comma t.opts.read_scopes
                ∷ codes "."
                ∷ []))
        ∷ [])

unfoldable pub save_description : ℕ → Toolset → Bytes
save_description max t = texts (
    codes
      "Create a memory entry, or replace one whole. To edit an existing entry prefer memory_patch, which sends only the change. Content is Markdown of at most "
    ∷ decimal max
    ∷ codes
        " bytes; a larger write is refused with the sizes. Give a description in meta so the entry can be found. meta replaces the entry's metadata when you give it and keeps what is there when you leave it out, so send an empty object to clear it. The result says what the write replaced and what became of the metadata. "
    ∷ writer_scopes t
    ∷ [])

unfoldable pub patch_description : Toolset → Bytes
patch_description t =
    codes
      "Edit a memory entry by replacing old_text with new_text. old_text must appear exactly once in the entry, copied exactly; the call fails and says so when it is absent or repeated. The memory block shows headings of levels one to three at level four and escapes a line that starts with <, so copy such text from memory_search, which shows the entry as stored. Prefer this to memory_save for an edit: the call is the size of the change, and the edit is anchored in the stored text, so a change another session made in the meantime is kept. "
    ++ writer_scopes t

unfoldable pub forget_description : Toolset → Bytes
forget_description t =
    codes "Remove a memory entry. The store's journal keeps its last content. " ++ writer_scopes t

unfoldable pub insert_description : ℕ → Toolset → Bytes
insert_description max t =
    let scopes = t.opts.insert_scopes in
    texts (
      codes
        "Add a passage to memory without naming it: the entry is named for the time and the content, never overwrites another, and the result says its name. Use it for a fact that belongs in no entry you would name; find it again with memory_search. Content is Markdown of at most "
      ∷ decimal max
      ∷ codes " bytes. "
      ∷ (if length scopes == 1
          then texts (
              codes "Scope: "
              ∷ join_with comma scopes
              ∷ codes ", the only one; the argument may be left out."
              ∷ [])
          else texts
              (codes "Scopes: " ∷ join_with comma scopes ∷ codes "; name one on every call." ∷ []))
      ∷ [])

-- `unsupported`.
unfoldable pub unsupported_options : List Bytes → List Bytes
unsupported_options have = select (λ n. not (mentions have n)) all_search_options

-- `optionsSentence`.
unfoldable pub option_parts : List Bytes → List Bytes
option_parts have =
    let bounds =
      select (λ n. mentions have n) (search_updated_after ∷ search_updated_before ∷ []) in
    (if mentions have search_any
      then codes "any matches an entry holding any of the words, best first" ∷ []
      else [])
    ++ ((if mentions have search_meta
          then codes "meta keeps entries whose metadata has those values" ∷ []
          else [])
        ++ (if mentions have search_updated_after || mentions have search_updated_before
            then (join_with (codes " and ") bounds ++ codes " bound when an entry was last written")
              ∷ []
            else []))

unfoldable pub options_sentence : List Bytes → Bytes
options_sentence have =
    if length (option_parts have) == 0
    then []
    else texts (codes " Options: " ∷ join_with (codes "; ") (option_parts have) ∷ codes "." ∷ [])

unfoldable pub search_description : List Bytes → ℕ → ℕ → Toolset → Bytes
search_description have limit bytes t = texts (
    codes
      "Find memory entries: the ones the memory block omits, or one to read whole before editing it. Every word of the query must appear in an entry's name, one of its metadata values, such as its description, or its content, in any case."
    ∷ options_sentence have
    ∷ codes " Returns up to "
    ∷ decimal limit
    ∷ codes " entries unless limit says otherwise, and at most "
    ∷ decimal bytes
    ∷ codes
        " bytes of content; the rest are listed by name. Results stay in the conversation, so search for what you need and no more. "
    ∷ search_scopes t
    ∷ [])

-- `wrote`.
abbrev pub wrote : Bytes → Change → Bytes → Answer ToolResult
wrote tool c text =
    done (record { text = text; details = some (record { tool = tool; change = c }) })

-- `savedWhat`.
unfoldable pub saved_what : Option Entry → Bytes
saved_what none = codes "created"
saved_what (some e) = texts (codes "replaced " ∷ decimal (size e) ∷ codes " bytes" ∷ [])

-- `metaKeys`.
unfoldable pub meta_keys : Map Bytes → Bytes
meta_keys meta = join_with comma (sort (keys meta))

-- `metaWhat`.
unfoldable pub meta_what : Option Entry → Option (Map Bytes) → Map Bytes → Bytes
meta_what stored given final =
    let had : Bool = elim stored [ none ↦ false | some e ↦ not (length e.meta == 0) ] in
    if length final == 0 && not had
    then codes "no meta"
    else if length final == 0
    then codes "meta cleared"
    else elim given [
      | none ↦ texts (codes "meta kept (" ∷ meta_keys final ∷ codes ")" ∷ [])
      | some _ ↦ elim stored [
        | none ↦ texts (codes "meta set (" ∷ meta_keys final ∷ codes ")" ∷ [])
        | some _ ↦ texts (codes "meta replaced (" ∷ meta_keys final ∷ codes ")" ∷ [])
      ]
    ]

-- `basedWhat`: `shown` is the hash that the block showed, if it showed the entry.
unfoldable pub based_what : Bool → Option Entry → Option Bytes → Bytes
based_what has_rendered stored shown = if not has_rendered then [] else elim shown [
  | none ↦ elim stored [
    | none ↦ []
    | some _ ↦ codes "; built on the stored entry, which the block did not show"
  ]
  | some h ↦ elim stored [
    | none ↦
        codes
          "; built on the block, but the entry was forgotten after the block was rendered and this write created it again"
    | some e ↦
        if str_eq e.hash h
        then codes "; built on the block"
        else texts (
            codes "; built on the block's "
            ∷ h
            ∷ codes ", but the entry changed to "
            ∷ e.hash
            ∷ codes
                " after the block was rendered and this write replaced that change; read it with memory_search if the change mattered"
            ∷ [])
  ]
]

-- The bytes of a dash between spaces.
abbrev dash : Bytes
dash = b' ' ∷ 226 ∷ 128 ∷ 148 ∷ b' ' ∷ []

-- "%s %s/%s (%d of %d bytes) %s", with what the write did, the entry, the sizes and the hash.
unfoldable pub written_line : Bytes → Bytes → Bytes → ℕ → ℕ → Bytes → Bytes
written_line verb scope name bytes max hash = texts (
    verb
    ∷ codes " "
    ∷ scope
    ∷ codes "/"
    ∷ name
    ∷ codes " ("
    ∷ decimal bytes
    ∷ codes " of "
    ∷ decimal max
    ∷ codes " bytes) "
    ∷ hash
    ∷ [])

-- The line of a save.
unfoldable pub saved_line : Bytes → Bytes → Bytes → Bytes → Bytes
saved_line written saved meta based =
    texts (written ∷ dash ∷ saved ∷ codes "; " ∷ meta ∷ based ∷ [])
