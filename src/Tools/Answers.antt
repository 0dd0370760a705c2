-- ===== src/Tools/Answers.antt =====
-- tools.go: the arguments of the tools, what they answer, and the store that they call. What a
-- call fails with is a value for each message; the schema's check and the decoding of the
-- arguments are agenttool's.
use agentmemory.Prelude.{ℤ, ℕ, Bytes, Bool, Option, List, Map}
use agentmemory.Memory.{Entry, Change, Error, Result, Context, PutOption}
use agentmemory.Search.{SearchOptions}

-- `Meta` is `none` where the call leaves it out.
pub record SaveArgs : Type 0 where
  pub scope : Bytes
  pub name : Bytes
  pub content : Bytes
  pub meta : Option (Map Bytes)

pub record PatchArgs : Type 0 where
  pub scope : Bytes
  pub name : Bytes
  pub old_text : Bytes
  pub new_text : Bytes

pub record InsertArgs : Type 0 where
  pub scope : Bytes
  pub content : Bytes
  pub meta : Map Bytes

pub record ForgetArgs : Type 0 where
  pub scope : Bytes
  pub name : Bytes

pub record SearchArgs : Type 0 where
  pub query : Bytes
  pub scopes : List Bytes
  pub limit : ℤ
  pub any_word : Bool
  pub meta : Option (Map Bytes)
  pub updated_after : Bytes
  pub updated_before : Bytes

-- `WriteRecord`.
pub record WriteRecord : Type 0 where
  pub tool : Bytes
  pub change : Change

-- `agenttool.Result`, as far as these tools fill it.
pub record ToolResult : Type 0 where
  pub text : Bytes
  pub details : Option WriteRecord

pub data Refusal : Type 0 where
  store_error : Error → Refusal
  block_dropped : Refusal
  read_only : Bytes → Refusal
  bad_arguments : Refusal
  scope_required : Refusal
  scope_unavailable : Bytes → Refusal
  takes_no_insert : Bytes → Refusal
  name_not_fixed : Bytes → Bytes → Refusal
  name_fixed : Bytes → Bytes → Refusal
  old_text_empty : Refusal
  nothing_to_patch : Error → Refusal
  old_text_absent : Bytes → Bytes → Refusal
  old_text_repeated : ℕ → Bytes → Bytes → Refusal
  contended : Error → Refusal
  names_taken : Error → Refusal
  query_empty : Refusal
  bad_time : Bytes → Bytes → Refusal

pub data Answer {ℓ} (A : Type ℓ) : Type ℓ where
  done : A → Answer A
  refused : Refusal → Answer A

-- The interface `Store`, as far as the tools call it, over the states that the store goes through.
pub record Store (S : Type 0) : Type 0 where
  pub max_entry_bytes : ℕ
  pub supported : List Bytes
  pub get_entry : S → Bytes → Bytes → Result Entry × S
  pub put_entry : Context → S → Entry → List PutOption → Result Change × S
  pub forget_entry : Context → S → Bytes → Bytes → Result Change × S
  pub find_entries : S → List Bytes → Bytes → ℤ → SearchOptions → Result (List Entry) × S
