-- ===== src/Search/Options.antt =====
-- search.go: `SearchOptions` with its methods, the reference search `Filter` among them.
use agentmemory.Prelude.{
  ℤ, pos, negsuc, ℕ, zero, suc, Bytes, codes, Bool, true, false, not, ◌&&◌, ◌||◌, Option, none,
  some, List, [], ◌∷◌, ◌++◌, map, Map, lookup, length, take, ltb, leb, ◌==◌, str_eq, if◌then◌else◌,
}
use agentmemory.Memory.{
  Entry, Result, ok, refuse_if, unsupported, meta_key_not_name, valid_name, ◌>>◌,
}
use agentmemory.Search.Words.{mentions, query_words, match_count}

abbrev pub search_any : Bytes
search_any = codes "any"

abbrev pub search_meta : Bytes
search_meta = codes "meta"

abbrev pub search_updated_after : Bytes
search_updated_after = codes "updated_after"

abbrev pub search_updated_before : Bytes
search_updated_before = codes "updated_before"

unfoldable pub all_search_options : List Bytes
all_search_options = search_any ∷ search_meta ∷ search_updated_after ∷ search_updated_before ∷ []

-- `meta` is `none` for Go's nil map, which asks for nothing; 0 is the zero time.
pub record SearchOptions : Type 0 where
  pub any : Bool
  pub meta : Option (Map Bytes)
  pub updated_after : ℕ
  pub updated_before : ℕ

abbrev pub no_options : SearchOptions
no_options = record { any = false; meta = none; updated_after = 0; updated_before = 0 }

abbrev pub asked_meta : SearchOptions → Map Bytes
asked_meta o = elim o.meta [ none ↦ [] | some m ↦ m ]

-- `Names`.
unfoldable pub names : SearchOptions → List Bytes
names o =
    (if o.any then search_any ∷ [] else [])
    ++ ((elim o.meta [ none ↦ [] | some _ ↦ search_meta ∷ [] ])
        ++ ((if o.updated_after == 0 then [] else search_updated_after ∷ [])
            ++ (if o.updated_before == 0 then [] else search_updated_before ∷ [])))

-- The loops of `Check`.
unfoldable pub check_names : List Bytes → List Bytes → Result (Unit {0})
unfolding mentions
check_names supported [] = ok tt
check_names supported (n ∷ ns) = do
  refuse_if (not (mentions supported n)) (unsupported n)
  check_names supported ns

unfoldable pub check_meta_keys : Map Bytes → Result (Unit {0})
check_meta_keys [] = ok tt
check_meta_keys ((k, _) ∷ m) = do
  refuse_if (not (valid_name k)) (meta_key_not_name k)
  check_meta_keys m

-- `Check`.
unfoldable pub check_search : SearchOptions → List Bytes → Result (Unit {0})
unfolding names check_names check_meta_keys
check_search o supported = do check_names supported (names o); check_meta_keys (asked_meta o)

-- The loop of `Keep`.
unfoldable pub has_meta : Map Bytes → Map Bytes → Bool
unfolding lookup
has_meta [] have = true
has_meta ((k, v) ∷ m) have =
    let rest = has_meta m have in
    elim (lookup k have) [ none ↦ false | some w ↦ if str_eq w v then rest else false ]

-- `Keep`.
unfoldable pub keep : SearchOptions → Entry → Bool
unfolding has_meta
keep o e =
    if not (has_meta (asked_meta o) e.meta)
    then false
    else if not (o.updated_after == 0) && not (ltb o.updated_after e.updated)
    then false
    else if not (o.updated_before == 0) && not (ltb e.updated o.updated_before)
    then false
    else true

pub record Scored : Type 0 where
  pub entry : Entry
  pub n : ℕ

-- `limit > 0 && n == limit`.
abbrev pub at_limit : ℤ → ℕ → Bool
at_limit (negsuc _) n = false
at_limit (pos zero) n = false
at_limit (pos (suc k)) n = n == suc k

-- `if limit > 0 && len(hits) > limit { hits = hits[:limit] }`.
abbrev pub cut {ℓ} : {A : Type ℓ} → ℤ → List A → List A
cut (negsuc _) hits = hits
cut (pos zero) hits = hits
cut (pos (suc k)) hits = if ltb (suc k) (length hits) then take (suc k) hits else hits

-- The `switch` of `Filter`: whether the count lets an entry in.
abbrev pub lets_in : Bool → ℕ → ℕ → Bool
lets_in any words n = if words == 0 then true else not ((any && n == 0) || (not any && ltb n words))

-- `slices.SortStableFunc` by the count, most first; any stable sort gives the same list, here by
-- insertion.
unfoldable pub insert_ranked : Scored → List Scored → List Scored
insert_ranked s [] = s ∷ []
insert_ranked s (t ∷ ts) = if leb t.n s.n then s ∷ t ∷ ts else t ∷ insert_ranked s ts

unfoldable pub rank : List Scored → List Scored
unfolding insert_ranked
rank [] = []
rank (s ∷ ss) = insert_ranked s (rank ss)

module _ (lower : Bytes → Bytes) (o : SearchOptions) (words : List Bytes) where
  -- Whether the loop of `Filter` appends the entry.
  unfoldable pub is_hit : Entry → Bool
  is_hit e = keep o e && lets_in o.any (length words) (match_count lower e words)

  -- The loop of `Filter`, with as many hits as there are.
  unfoldable pub hits_from : ℤ → ℕ → List Entry → List Scored
  hits_from limit found [] = []
  hits_from limit found (e ∷ es) =
      let hit = is_hit e in
      let found' = if hit then suc found else found in
      let rest = hits_from limit found' es in
      let next : Scored = record { entry = e; n = match_count lower e words } in
      if hit then next ∷ (if not o.any && at_limit limit found' then [] else rest) else rest

-- `Filter`.
unfoldable pub filter_entries :
    (Bytes → Bytes) → SearchOptions → List Entry → Bytes → ℤ → List Entry
filter_entries lower o entries query limit =
    let hits = hits_from lower o (query_words lower query) limit 0 entries in
    map (λ s. s.entry) (cut limit (if o.any then rank hits else hits))
