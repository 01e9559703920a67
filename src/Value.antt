-- ===== src/Value.antt =====
-- A decoded JSON value: Go's `interface{}` after `encoding/json`. A float64 stands as an opaque
-- code, and the arithmetic that the program does on it is a record of operations.
use human_guard.Base.{ℕ, Bool, String, Option, none, some, ◌==◌, if◌then◌else◌}

mutual
  pub data Value : Type 0 where
    obj : Fields → Value
    arr : Items → Value
    str : String → Value
    num : ℕ → Value
    bool : Bool → Value
    null : Value

  -- The members of an object, in order.
  pub data Fields : Type 0 where
    field : String → Value → Fields → Fields
    end : Fields

  -- The items of an array.
  pub data Items : Type 0 where
    cons : Value → Items → Items
    nil : Items

-- An index into a `map[string]interface{}`: a missing key reads nil.
unfoldable pub get_field : String → Fields → Value
get_field k end = null
get_field k (field j v fs) = if j == k then v else get_field k fs

-- The arithmetic of float64 that the program relies on, over the codes of `num`.
pub record FloatOps : Type 0 where
  pub of_int : ℕ → ℕ
  pub lt : ℕ → ℕ → Bool
  pub eq : ℕ → ℕ → Bool
  pub add : ℕ → ℕ → ℕ
  pub div : ℕ → ℕ → ℕ

-- `x, ok := v.(map[string]interface{})`.
abbrev pub as_object : Value → Option Fields
as_object (obj fs) = some fs
as_object _ = none

-- `x, _ := v.(string)`: the empty text when the assertion fails.
abbrev pub as_string : Value → String
as_string (str s) = s
as_string _ = ""

-- `x, _ := v.(float64)`: zero when the assertion fails.
abbrev pub as_float : FloatOps → Value → ℕ
as_float f (num x) = x
as_float f _ = f.of_int 0
