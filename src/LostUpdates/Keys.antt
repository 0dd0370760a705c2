-- ===== src/LostUpdates/Keys.antt =====
-- lostupdate.go keys its map by scope and name joined by a slash: for names, two entries share a
-- key only if they are one entry.
use agentmemory.Prelude.{
  ℕ, Bytes, ◌≡◌, refl, Bool, true, not, ◌&&◌, [], ◌∷◌, arith, all_of, ◌==◌, str_eq,
}
use agentmemory.Memory.{valid_name, valid_bytes}
use agentmemory.LostUpdates.{entry_key}

abbrev no_slash : Bytes → Bool
no_slash s = all_of (λ c. not (c == b'/')) s

valid_bytes-no_slash : (p : ℕ) (s : Bytes) → valid_bytes p s ≡ true → no_slash s ≡ true
unfolding valid_bytes
valid_bytes-no_slash p [] h = refl
valid_bytes-no_slash p (c ∷ s) h = ground (arith, valid_bytes-no_slash c s)

valid_name-no_slash : (s : Bytes) → valid_name s ≡ true → no_slash s ≡ true
unfolding valid_name
valid_name-no_slash s h = ground (arith, valid_bytes-no_slash b'-' s)

str_eq-joined :
    (s s' n n' : Bytes)
    → no_slash s ≡ true
    → no_slash s' ≡ true
    → str_eq (entry_key s n) (entry_key s' n') ≡ (str_eq s s' && str_eq n n')
unfolding entry_key str_eq
str_eq-joined [] [] n n' h h' = refl
str_eq-joined [] (b ∷ s') n n' h h' = ground arith
str_eq-joined (a ∷ s) [] n n' h h' = ground arith
str_eq-joined (a ∷ s) (b ∷ s') n n' h h' = ground (arith, str_eq-joined s s' n n')

pub str_eq-entry_key :
    (s s' n n' : Bytes)
    → valid_name s ≡ true
    → valid_name s' ≡ true
    → str_eq (entry_key s n) (entry_key s' n') ≡ (str_eq s s' && str_eq n n')
str_eq-entry_key s s' n n' h h' =
    str_eq-joined s s' n n' (valid_name-no_slash s h) (valid_name-no_slash s' h')
