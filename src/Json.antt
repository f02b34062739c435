-- ===== src/Json.antt =====
-- serde_json's `Value` as the program uses it: the program reads members of a parsed value and builds
-- values of its own. The crate is a parameter: an abstract type with these operations.
use xaeroflux.Prelude.{ℕ, String, Option, none, some, List}
use xaeroflux.Prelude.Int.{ℤ}
use xaeroflux.Prelude.Dict.{Dict}

pub record Json : Type 1 where
  pub Value : Type 0
  -- `from_slice`, `from_str`
  pub from_slice : List ℕ → Option Value
  pub from_str : String → Option Value
  -- `value.get(key)`, `as_str`, `as_array`, `as_i64`
  pub get : Value → String → Option Value
  pub as_str : Value → Option String
  pub as_array : Value → Option (List Value)
  pub as_i64 : Value → Option ℤ
  -- `Value::String`, `Value::Array`, `Value::Object` of a `Map` with these entries
  pub string : String → Value
  pub array : List Value → Value
  pub object : Dict Value → Value

module _ (J : Json) where
  -- `value.get(key).and_then(|v| v.as_str())`
  abbrev pub then_str : Option J.Value → Option String
  then_str none = none
  then_str (some v) = J.as_str v

  unfoldable pub get_str : J.Value → String → Option String
  get_str v key = then_str (J.get v key)

  abbrev pub then_array : Option J.Value → Option (List J.Value)
  then_array none = none
  then_array (some v) = J.as_array v

  unfoldable pub get_array : J.Value → String → Option (List J.Value)
  get_array v key = then_array (J.get v key)
