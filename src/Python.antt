-- ===== src/Python.antt =====
-- What the program uses of Python itself: conversions of the standard library, as parameters.
use claudecodenodus.Base.{Text, lit, ◌++◌}
use claudecodenodus.Base.Int.{ℤ}
use claudecodenodus.Exec.{Fault, Result, ok, err}
use claudecodenodus.Json.{Json, dict, find_or, null, bool, int, float, str, list}

-- The outcome of `json.loads`: a value, a `JSONDecodeError`, or another exception (bytes that are
-- no text).
pub data Loaded : Type 0 where
  value : Json → Loaded
  malformed : Text → Loaded
  broken : Fault → Loaded

pub record Python : Type 0 where
  -- `f"{value}"`
  pub format : Json → Text
  -- `int(text)`, which may raise a `ValueError`
  pub parse_int : Text → Result Fault ℤ
  pub loads : Text → Loaded

pub type_name : Json → Text
type_name null = lit "NoneType"
type_name (bool b) = lit "bool"
type_name (int z) = lit "int"
type_name (float m e) = lit "float"
type_name (str t) = lit "str"
type_name (list xs) = lit "list"
type_name (dict fs) = lit "dict"

-- `value.get(key, default)`: an `AttributeError` where the value is no dict.
unfoldable pub get : Json → Text → Json → Result Fault Json
unfolding find_or
get (dict fs) key default = ok (find_or key default fs)
get other key default = err (record {
  kind = lit "AttributeError";
  message = lit "'" ++ (type_name other ++ lit "' object has no attribute 'get'");
})
