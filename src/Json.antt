-- ===== src/Json.antt =====
-- serde_json `Value`, of which the broker's configuration, contracts and backend states are made, and
-- its accessors. An object is a list of fields, in the order in which `Map` iterates over them.
use agcoord.Base.{
  ℕ, String, Bool, true, ◌&&◌, Option, none, some, List, [], ◌∷◌, str_eq, any, all, is_some,
  if◌then◌else◌,
}

mutual
  -- A number that is no u64 is kept as its text.
  pub data Value : Type 0 where
    null : Value
    boolean : Bool → Value
    number : ℕ → Value
    decimal : String → Value
    text : String → Value
    array : Values → Value
    object : Fields → Value

  pub data Values : Type 0 where
    no_values : Values
    value : Value → Values → Values

  pub data Fields : Type 0 where
    no_fields : Fields
    field : String → Value → Fields → Fields

-- `as_object`, `as_array`, `as_str`, `as_bool`, `as_u64`, `is_null`
abbrev pub as_object : Value → Option Fields
as_object (object fields) = some fields
as_object _ = none

abbrev pub as_array : Value → Option Values
as_array (array values) = some values
as_array _ = none

abbrev pub as_str : Value → Option String
as_str (text s) = some s
as_str _ = none

abbrev pub as_bool : Value → Option Bool
as_bool (boolean b) = some b
as_bool _ = none

abbrev pub as_u64 : Value → Option ℕ
as_u64 (number n) = some n
as_u64 _ = none

-- `object.get(key)`
unfoldable pub get : String → Fields → Option Value
get key no_fields = none
get key (field name v fields) = if str_eq name key then some v else get key fields

unfoldable pub keys_within : List String → Fields → Bool
keys_within allowed no_fields = true
keys_within allowed (field name v fields) = any (str_eq name) allowed && keys_within allowed fields

-- The keys are `needed` and some of `allowed`.
unfoldable pub has_keys : List String → List String → Fields → Bool
unfolding get keys_within
has_keys needed allowed fields =
    all (λ key. is_some (get key fields)) needed && keys_within allowed fields

-- `json!(strings)` for an array of strings, and `as_str` of every element of one.
unfoldable pub texts : List String → Values
texts [] = no_values
texts (s ∷ rest) = value (text s) (texts rest)

abbrev pub cons_some : String → Option (List String) → Option (List String)
cons_some s none = none
cons_some s (some rest) = some (s ∷ rest)

unfoldable pub strings : (String → Bool) → Values → Option (List String)
strings accepts no_values = some []
strings accepts (value (text s) rest) =
    let more = strings accepts rest in if accepts s then cons_some s more else none
strings accepts (value v rest) = none
