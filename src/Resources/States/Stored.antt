-- ===== src/Resources/States/Stored.antt =====
-- What `parse_backend_state` accepts, and which states survive being stored.
use mathlib.Core.List.{append-nil}
use agcoord.Base.{
  String, ◌≡◌, inl, inr, refl, Bool, true, false, not, ◌&&◌, Option, none, some, List, [], ◌∷◌,
  ◌++◌, Map, insert, str_eq, any, all, is_some, all_entries, Distinct, insert-Distinct,
  insert-fresh, all_entries-insert, arith, sym, ap, Option-cases,
}
use agcoord.Run.{BackendState}
use agcoord.Json.{
  Value, object, Values, no_values, value, Fields, no_fields, field, as_object, as_array, get,
  has_keys, keys_within, texts, strings,
}
use agcoord.Resources.{name_valid}
use agcoord.Resources.States.Sorted.{
  ascending, sorted-sort_names, sorted-ascending, ascending-sort_names, ascending-has_repeat,
}
use agcoord.Resources.States.{
  state_value, state_fields, backend_state_value, insert_name, sort_names, has_repeat,
  is_empty_list, ◌>>?◌, parse_state, parse_states, parse_backend_state,
}

abbrev pub is_object : Value → Bool
is_object v = is_some (as_object v)

unfoldable pub state_valid : String → BackendState → Bool
state_valid backend own =
    name_valid backend
    && is_object own.handle
    && not (is_empty_list own.resources)
    && ascending own.resources
    && all name_valid own.resources

strings-texts :
    (p : String → Bool) (xs : List String) → all p xs ≡ true → strings p (texts xs) ≡ some xs
unfolding strings texts
strings-texts p [] h = refl
strings-texts p (x ∷ xs) h = ground (arith, strings-texts p xs (ground arith))

as_object-eq : (v : Value) {fields : Fields} → as_object v ≡ some fields → object fields ≡ v
as_object-eq v h = ground arith

parse_state-state_value :
    (own : BackendState)
    → is_object own.handle ≡ true
    → ascending own.resources ≡ true
    → all name_valid own.resources ≡ true
    → parse_state (state_value own) ≡ some own
unfolding parse_state state_value has_keys keys_within get
parse_state-state_value own o a v = elim (Option-cases (as_object own.handle)) [
  | inl n ↦ absurd (ground (arith, n))
  | inr (handle, e) ↦ ground (
    arith,
    e,
    as_object-eq own.handle e,
    strings-texts name_valid own.resources v,
    ascending-sort_names own.resources a,
  )
]

insert_name-named :
    (name : String) (xs : List String)
    → name_valid name ≡ true
    → all name_valid xs ≡ true
    → (all name_valid (insert_name name xs) ≡ true) × (is_empty_list (insert_name name xs) ≡ false)
unfolding insert_name
insert_name-named name [] n h = ground arith
insert_name-named name (x ∷ xs) n h = ground (arith, insert_name-named name xs n)

sort_names-named :
    (xs : List String) → all name_valid xs ≡ true → all name_valid (sort_names xs) ≡ true
unfolding sort_names
sort_names-named [] h = refl
sort_names-named (x ∷ xs) h =
    (insert_name-named x (sort_names xs) (ground arith) (sort_names-named xs (ground arith))).0

strings-named :
    (values : Values) {xs : List String}
    → strings name_valid values ≡ some xs
    → all name_valid xs ≡ true
unfolding strings
strings-named no_values {xs} h = ground arith
strings-named (value v more) {xs} h = elim (Option-cases (strings name_valid more)) [
  | inl n ↦ absurd (ground (arith, n))
  | inr (rest, n) ↦ ground (arith, n, strings-named more n)
]

-- What is parsed of a state, once its names have no repeat.
parse_state-valid :
    (raw : Value) {own : BackendState}
    → parse_state raw ≡ some own
    → has_repeat own.resources ≡ false
    → is_object own.handle && ascending own.resources && all name_valid own.resources ≡ true
unfolding parse_state
parse_state-valid raw {own} h r = elim (Option-cases (as_object raw)) [
  | inl n ↦ absurd (ground (arith, n))
  | inr (fields, o) ↦
      elim (Option-cases (get "resources" fields >>? as_array >>? strings name_valid)) [
        | inl n ↦ absurd (ground (arith, o, n))
        | inr (named, n) ↦
            let g : (own.resources ≡ sort_names named) × (is_object own.handle ≡ true) =
              ground (arith, o, n) in
            let v : all name_valid named ≡ true =
              strings_of (get "resources" fields >>? as_array) n in
            ground (
              arith,
              g,
              sorted-ascending (sort_names named) (sorted-sort_names named),
              sort_names-named named v,
            )
      ]
]
  where
    strings_of :
        (o : Option Values) {named : List String}
        → (o >>? strings name_valid) ≡ some named
        → all name_valid named ≡ true
    strings_of none h = cc
    strings_of (some values) h = strings-named values h

parse_states-valid :
    (acc : Map BackendState) (claimed : List String) (fields : Fields) {m : Map BackendState}
    → Distinct acc
    → all_entries state_valid acc ≡ true
    → parse_states acc claimed fields ≡ some m
    → Distinct m × (all_entries state_valid m ≡ true)
unfolding parse_states state_valid
parse_states-valid acc claimed no_fields {m} d v h = let e : m ≡ acc = ground arith in rw e (d, v)
parse_states-valid acc claimed (field backend raw fields) d v h =
    elim (Option-cases (parse_state raw)) [
      | inl n ↦ absurd (ground (arith, n))
      | inr (own, n) ↦
          let g : (name_valid backend ≡ true)
              × (is_empty_list own.resources ≡ false)
              × (has_repeat own.resources ≡ false) =
            ground (arith, n) in
          parse_states-valid (insert backend own acc) (own.resources ++ claimed) fields
            (insert-Distinct backend own acc d)
            (all_entries-insert state_valid backend own acc
              (sound own backend g.0 g.1 (parse_state-valid raw n g.2)) v)
            (ground (arith, n))
    ]
  where
    sound :
        (own : BackendState) (backend : String)
        → name_valid backend ≡ true
        → is_empty_list own.resources ≡ false
        → is_object own.handle && ascending own.resources && all name_valid own.resources ≡ true
        → state_valid backend own ≡ true
    sound own backend b e s = ground arith

-- No name of a state is claimed by one before it.
unfoldable pub unclaimed : List String → Map BackendState → Bool
unclaimed claimed [] = true
unclaimed claimed ((backend, own) ∷ state) =
    not (any (λ name. any (str_eq name) claimed) own.resources)
    && unclaimed (own.resources ++ claimed) state

parse_states-state_fields :
    (acc : Map BackendState) (claimed : List String) (m : Map BackendState)
    → Distinct (acc ++ m)
    → all_entries state_valid m ≡ true
    → unclaimed claimed m ≡ true
    → parse_states acc claimed (state_fields m) ≡ some (acc ++ m)
unfolding parse_states state_fields all_entries state_valid unclaimed
parse_states-state_fields acc claimed [] d v u = ap some (sym (append-nil acc))
parse_states-state_fields acc claimed ((backend, own) ∷ m) d v u =
    let e : insert backend own acc ++ m ≡ acc ++ (backend, own) ∷ m =
      insert-fresh backend own acc m d in
    let g : (is_object own.handle ≡ true)
        × (ascending own.resources ≡ true)
        × (all name_valid own.resources ≡ true) =
      ground arith in
    ground (
      arith,
      parse_state-state_value own g.0 g.1 g.2,
      ascending-has_repeat own.resources g.1,
      parse_states-state_fields (insert backend own acc) (own.resources ++ claimed) m (rw e d)
          (ground arith) (ground arith),
      e,
    )

-- Every state that is parsed, of any JSON value, is valid, and no backend stands twice.
pub parse_backend_state-valid :
    (v : Value) {m : Map BackendState}
    → parse_backend_state v ≡ some m
    → Distinct m × (all_entries state_valid m ≡ true)
unfolding parse_backend_state all_entries
parse_backend_state-valid v {m} h = elim (Option-cases (as_object v)) [
  | inl n ↦ absurd (ground (arith, n))
  | inr (fields, o) ↦ parse_states-valid [] [] fields tt refl (ground (arith, o))
]

-- Valid states of distinct backends that claim distinct names are read again as they were stored.
pub parse_backend_state-backend_state_value :
    (m : Map BackendState)
    → Distinct m
    → all_entries state_valid m ≡ true
    → unclaimed [] m ≡ true
    → parse_backend_state (backend_state_value m) ≡ some m
unfolding parse_backend_state backend_state_value
parse_backend_state-backend_state_value m d v u = parse_states-state_fields [] [] m d v u
