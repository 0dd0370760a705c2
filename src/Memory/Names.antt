-- ===== src/Memory/Names.antt =====
-- memory.go: `ValidName`, `ValidScope`, `CheckScope`, `CheckRef`.
use agentmemory.Prelude.{
  ℕ, Bytes, Bool, false, not, ◌&&◌, ◌||◌, [], ◌∷◌, length, ltb, leb, ◌==◌, if◌then◌else◌,
}
use agentmemory.Memory.Model.{Result, ok, err, invalid, bad_scope, bad_name, ◌>>◌}

abbrev pub max_name_bytes : ℕ
max_name_bytes = 64

-- The first case of the `switch`: a lowercase letter or a digit.
abbrev pub is_alnum : ℕ → Bool
is_alnum c = (leb b'a' c && leb c b'z') || (leb b'0' c && leb c b'9')

-- The loop of `ValidName`, from the byte before it; at the end the last byte is no hyphen.
unfoldable pub valid_bytes : ℕ → Bytes → Bool
valid_bytes prev [] = not (prev == b'-')
valid_bytes prev (c ∷ s) =
    let rest = valid_bytes c s in
    if is_alnum c then rest else if c == b'-' && not (prev == b'-') then rest else false

unfoldable pub valid_name : Bytes → Bool
unfolding valid_bytes
valid_name s = if length s == 0 || ltb max_name_bytes (length s) then false else valid_bytes b'-' s

abbrev pub valid_scope : Bytes → Bool
valid_scope s = valid_name s

unfoldable pub check_scope : Bytes → Result (Unit {0})
check_scope scope = if not (valid_scope scope) then err (invalid (bad_scope scope)) else ok tt

unfoldable pub check_ref : Bytes → Bytes → Result (Unit {0})
unfolding check_scope
check_ref scope name = do
  check_scope scope
  if not (valid_name name) then err (invalid (bad_name name)) else ok tt
