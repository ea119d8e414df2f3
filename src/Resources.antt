-- ===== src/Resources.antt =====
-- resources.rs: names and codes, the bindings of a configuration and of a run's stored contract, and
-- what a receipt may hold.
pub mod Bindings
pub mod States
use agcoord.Base.{
  ℕ, zero, suc, ◌-◌, ◌^◌, String, Bool, true, false, not, ◌&&◌, ◌||◌, Option, none, some, List, [],
  ◌∷◌, Map, lookup, insert, ltb, leb, ◌==◌, str_eq, any, all, length, codes, is_some, is_text,
  or_else, all_entries, if◌then◌else◌,
}
use agcoord.Run.{
  Binding, Event, Receipt, BackendState, Result, ok, err, ◌>>=◌, ◌>>◌, refuse_if, config_invalid,
}
use agcoord.Text.{empty_text}
use agcoord.Json.{
  Value, null, boolean, text, object, Fields, no_fields, field, as_object, as_array, as_str,
  as_bool, get, has_keys,
}

abbrev is_lower : ℕ → Bool
is_lower c = leb b'a' c && leb c b'z'

abbrev is_digit : ℕ → Bool
is_digit c = leb b'0' c && leb c b'9'

name_byte : ℕ → Bool
name_byte c = is_lower c || is_digit c || c == b'_' || c == b'.' || c == b':' || c == b'-'

code_byte : ℕ → Bool
code_byte c = is_lower c || is_digit c || c == b'-'

-- A lower-case letter and then bytes that pass the test, 64 at most.
word_valid : (ℕ → Bool) → List ℕ → Bool
word_valid byte_valid [] = false
word_valid byte_valid (c ∷ cs) = leb (length (c ∷ cs)) 64 && is_lower c && all byte_valid cs

unfoldable pub name_valid : String → Bool
unfolding word_valid name_byte
name_valid value = word_valid name_byte (codes value)

unfoldable pub code_valid : String → Bool
unfolding word_valid code_byte
code_valid value = word_valid code_byte (codes value)

unfoldable pub valid_kind_unit : String → String → Bool
valid_kind_unit kind unit =
    if str_eq kind "generic"
    then str_eq unit "admission-unit"
    else if str_eq kind "cpu"
    then str_eq unit "logical-cpu"
    else if str_eq kind "memory"
        || str_eq kind "memory-high"
        || str_eq kind "swap"
        || str_eq kind "tmpfs"
        || str_eq kind "storage"
    then str_eq unit "bytes"
    else if str_eq kind "io-bandwidth"
    then str_eq unit "bytes-per-second"
      || str_eq unit "read-bytes-per-second"
      || str_eq unit "write-bytes-per-second"
    else if str_eq kind "io-operations"
    then str_eq unit "operations-per-second"
      || str_eq unit "read-operations-per-second"
      || str_eq unit "write-operations-per-second"
    else if str_eq kind "io-weight"
    then str_eq unit "weight"
    else if str_eq kind "inodes"
    then str_eq unit "inodes"
    else if str_eq kind "processes"
    then str_eq unit "processes"
    else false

-- `Binding::enforced`, `Binding::required`
abbrev pub enforced : Binding → Bool
enforced binding = not (str_eq binding.mode "admission-only")

abbrev pub is_required : Binding → Bool
is_required binding = str_eq binding.mode "required"

abbrev backend_value : Option String → Value
backend_value none = null
backend_value (some backend) = text backend

-- `Binding::to_value`
unfoldable pub to_value : Binding → Value
to_value binding = object (
    field "backend" (backend_value binding.backend) (
      field "kind" (text binding.kind) (
        field "mode" (text binding.mode) (
          field "unit" (text binding.unit)
            (if binding.exec then field "exec" (boolean true) no_fields else no_fields)))))

binding_fields : Map Binding → Fields
unfolding to_value
binding_fields [] = no_fields
binding_fields ((name, binding) ∷ bindings) =
    field name (to_value binding) (binding_fields bindings)

unfoldable pub bindings_value : Map Binding → Value
unfolding binding_fields
bindings_value bindings = object (binding_fields bindings)

-- `o.ok_or_else(…)`, for an error of the configuration.
abbrev configured {ℓ} : {A : Type ℓ} → Option A → Result A
configured none = err config_invalid
configured (some a) = ok a

-- `raw["key"].as_str()`
unfoldable pub text_of : Option Value → Option String
text_of none = none
text_of (some v) = as_str v

unfoldable pub mode_valid : String → Bool
mode_valid mode =
    str_eq mode "admission-only" || str_eq mode "best-effort" || str_eq mode "required"

unfoldable pub parse_backend : Option Value → Result (Option String)
parse_backend (some null) = ok none
parse_backend (some (text backend)) =
    if name_valid backend then ok (some backend) else err config_invalid
parse_backend _ = err config_invalid

unfoldable pub parse_exec : String → Option Value → Result Bool
parse_exec kind none = ok false
parse_exec kind (some (boolean exec)) = if str_eq kind "tmpfs" then ok exec else err config_invalid
parse_exec kind (some _) = err config_invalid

-- The body of the loop of `parse_bindings`.
unfoldable pub parse_binding : Value → Result Binding
parse_binding raw = configured (as_object raw) >>= λ fields.
    refuse_if
      (not (
        has_keys ("backend" ∷ "kind" ∷ "mode" ∷ "unit" ∷ [])
          ("backend" ∷ "kind" ∷ "mode" ∷ "unit" ∷ "exec" ∷ []) fields))
      config_invalid
    >> configured (text_of (get "kind" fields))
    >>= λ kind. configured (text_of (get "unit" fields)) >>= λ unit.
        refuse_if (not (valid_kind_unit kind unit)) config_invalid
        >> configured (text_of (get "mode" fields))
        >>= λ mode.
            refuse_if (not (mode_valid mode)) config_invalid
            >> parse_backend (get "backend" fields)
            >>= λ backend.
                refuse_if
                  (if is_some backend
                    then str_eq mode "admission-only"
                    else not (str_eq mode "admission-only"))
                  config_invalid
                >> parse_exec kind (get "exec" fields)
                >>= λ exec. ok (record {
                  backend = backend;
                  kind = kind;
                  mode = mode;
                  unit = unit;
                  exec = exec;
                })

unfoldable pub parse_fields : Map Binding → Fields → Result (Map Binding)
unfolding parse_binding
parse_fields selected no_fields = ok selected
parse_fields selected (field name raw fields) =
    refuse_if (not (name_valid name)) config_invalid >> parse_binding raw >>= λ binding.
    parse_fields (insert name binding selected) fields

unfoldable pub parse_bindings : Option Value → Result (Map Binding)
unfolding parse_fields
parse_bindings none = ok []
parse_bindings (some v) = configured (as_object v) >>= parse_fields []
