-- ===== src/Resources/States.antt =====
-- resources.rs `parse_backend_state` and `backend_state_value`.
pub mod Sorted
pub mod Stored
use agcoord.Base.{
  String, Bool, true, false, not, ◌&&◌, ◌||◌, Option, none, some, List, [], ◌∷◌, ◌++◌, Map, insert,
  str_eq, str_lt, any, is_some, if◌then◌else◌,
}
use agcoord.Run.{BackendState}
use agcoord.Json.{
  Value, null, boolean, text, array, object, Values, Fields, no_fields, field, as_object, as_array,
  as_bool, get, has_keys, texts, strings,
}
use agcoord.Resources.{name_valid}

-- The JSON object of one state.
unfoldable pub state_value : BackendState → Value
state_value own = object (
    field "handle" own.handle (
      field "resources" (array (texts own.resources)) (
        field "finished" (boolean own.finished)
          (field "cancelled" (boolean own.cancelled) no_fields))))

unfoldable pub state_fields : Map BackendState → Fields
unfolding state_value
state_fields [] = no_fields
state_fields ((backend, own) ∷ state) = field backend (state_value own) (state_fields state)

unfoldable pub backend_state_value : Map BackendState → Value
unfolding state_fields
backend_state_value state = object (state_fields state)

-- `names.sort()`
unfoldable pub insert_name : String → List String → List String
insert_name name [] = name ∷ []
insert_name name (first ∷ more) =
    if str_lt first name then first ∷ insert_name name more else name ∷ first ∷ more

unfoldable pub sort_names : List String → List String
unfolding insert_name
sort_names [] = []
sort_names (name ∷ more) = insert_name name (sort_names more)

-- `names.windows(2).any(|pair| pair[0] == pair[1])`
unfoldable pub has_repeat : List String → Bool
has_repeat [] = false
has_repeat (a ∷ []) = false
has_repeat (a ∷ b ∷ more) = str_eq a b || has_repeat (b ∷ more)

abbrev pub is_empty_list {ℓ} : {A : Type ℓ} → List A → Bool
is_empty_list [] = true
is_empty_list _ = false

-- `bind`, the `?` on an `Option`.
infixl 5 ◌>>?◌
abbrev pub ◌>>?◌ {ℓ κ} : {A : Type ℓ} {B : Type κ} → Option A → (A → Option B) → Option B
none >>? next = none
some a >>? next = next a

abbrev pub keep_if {ℓ} : {A : Type ℓ} → Bool → Option A → Option A
keep_if true rest = rest
keep_if false rest = none

-- The fields of one state, before its names are claimed.
unfoldable pub parse_state : Value → Option BackendState
unfolding sort_names
parse_state raw = as_object raw >>? λ fields.
    keep_if
      (has_keys ("cancelled" ∷ "finished" ∷ "handle" ∷ "resources" ∷ [])
        ("cancelled" ∷ "finished" ∷ "handle" ∷ "resources" ∷ []) fields)
      (get "handle" fields >>? as_object >>? λ handle.
        get "resources" fields >>? as_array >>? strings name_valid >>? λ named.
        get "finished" fields >>? as_bool >>? λ finished.
        get "cancelled" fields >>? as_bool >>? λ cancelled. some (record {
          handle = object handle;
          resources = sort_names named;
          finished = finished;
          cancelled = cancelled;
        }))

-- The loop, with what it has selected and the names that are claimed.
unfoldable pub parse_states : Map BackendState → List String → Fields → Option (Map BackendState)
unfolding parse_state has_repeat
parse_states selected claimed no_fields = some selected
parse_states selected claimed (field backend raw fields) = keep_if (name_valid backend) (
    parse_state raw >>? λ own.
    keep_if
      (not (
        is_empty_list own.resources
        || has_repeat own.resources
        || any (λ name. any (str_eq name) claimed) own.resources))
      (parse_states (insert backend own selected) (own.resources ++ claimed) fields))

unfoldable pub parse_backend_state : Value → Option (Map BackendState)
unfolding parse_states
parse_backend_state v = as_object v >>? parse_states [] []
