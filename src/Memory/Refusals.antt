-- ===== src/Memory/Refusals.antt =====
-- memory.go: what the conditions of a write refuse it for is a conflict.
use agentmemory.Prelude.{Bytes, ◌≡◌, Bool, true, false, Option, arith}
use agentmemory.Memory.{Entry, Error, conflict, err, PutOptions, check_options}

unfoldable pub is_conflict : Error → Bool
is_conflict (conflict c) = true
is_conflict _ = false

pub check_options-is_conflict :
    (digest : Bytes → Bytes) (o : PutOptions) (scope name : Bytes) (held : Option Entry) (x : Error)
    → check_options digest o scope name held ≡ err x
    → is_conflict x ≡ true
unfolding check_options is_conflict
check_options-is_conflict digest o scope name held x h = ground (arith, h)
