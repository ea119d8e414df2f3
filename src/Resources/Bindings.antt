-- ===== src/Resources/Bindings.antt =====
-- resources.rs `parse_bindings` and `bindings_value`: which bindings survive being stored.
use agcoord.Base.{
  String, ◌≡◌, ◌↔◌, inl, inr, refl, Bool, true, false, not, ◌&&◌, ◌||◌, Option, none, some, [], ◌∷◌,
  ◌++◌, Map, insert, str_eq, is_some, all_entries, Distinct, insert-Distinct, insert-fresh,
  all_entries-insert, if◌then◌else◌, arith, sym, ap, Option-cases,
}
use mathlib.Core.List.{append-nil}
use agcoord.Run.{Binding, ok, err, config_invalid}
use agcoord.Life.Loaded.{Result-cases}
use agcoord.Json.{Value, as_object, Fields, no_fields, field, get, has_keys, keys_within}
use agcoord.Resources.{
  name_valid, valid_kind_unit, to_value, binding_fields, bindings_value, mode_valid, parse_backend,
  parse_exec, parse_binding, parse_fields, parse_bindings, text_of,
}

unfoldable pub backend_fits : String → Option String → Bool
backend_fits mode none = str_eq mode "admission-only"
backend_fits mode (some backend) = name_valid backend && not (str_eq mode "admission-only")

-- A binding that a configuration can spell.
unfoldable pub binding_valid : Binding → Bool
binding_valid binding =
    valid_kind_unit binding.kind binding.unit
    && mode_valid binding.mode
    && backend_fits binding.mode binding.backend
    && (not binding.exec || str_eq binding.kind "tmpfs")

abbrev pub entry_valid : String → Binding → Bool
entry_valid name binding = name_valid name && binding_valid binding

parse-to_value :
    (kind mode unit : String) (backend : Option String) (exec : Bool) (b : Binding)
    → b ≡ record { backend = backend; kind = kind; mode = mode; unit = unit; exec = exec }
    → parse_binding (to_value b) ≡ (if binding_valid b then ok b else err config_invalid)
unfolding parse_binding to_value binding_valid get has_keys keys_within text_of mode_valid
    parse_backend parse_exec backend_fits
parse-to_value kind mode unit none true b e = rw e (ground arith)
parse-to_value kind mode unit none false b e = rw e (ground arith)
parse-to_value kind mode unit (some backend) true b e = rw e (ground arith)
parse-to_value kind mode unit (some backend) false b e = rw e (ground arith)

parse_binding-to_value :
    (b : Binding)
    → parse_binding (to_value b) ≡ (if binding_valid b then ok b else err config_invalid)
parse_binding-to_value b = parse-to_value b.kind b.mode b.unit b.backend b.exec b refl

parse_fields-binding_fields :
    (acc m : Map Binding)
    → Distinct (acc ++ m)
    → all_entries entry_valid m ≡ true
    → parse_fields acc (binding_fields m) ≡ ok (acc ++ m)
unfolding parse_fields binding_fields all_entries
parse_fields-binding_fields acc [] d v = ap ok (sym (append-nil acc))
parse_fields-binding_fields acc ((name, b) ∷ m) d v =
    let e : insert name b acc ++ m ≡ acc ++ (name, b) ∷ m = insert-fresh name b acc m d in
    ground (
      arith,
      parse_binding-to_value b,
      parse_fields-binding_fields (insert name b acc) m (rw e d) (ground arith),
      e,
    )

parse_backend-name_valid :
    (v : Option Value) (mode : String) {backend : Option String}
    → parse_backend v ≡ ok backend
    → (if is_some backend then str_eq mode "admission-only" else not (str_eq mode "admission-only"))
      ≡ false
    → backend_fits mode backend ≡ true
unfolding parse_backend backend_fits
parse_backend-name_valid v mode {backend} h m = ground arith

parse_exec-tmpfs :
    (kind : String) (v : Option Value) {exec : Bool}
    → parse_exec kind v ≡ ok exec
    → (not exec || str_eq kind "tmpfs") ≡ true
unfolding parse_exec
parse_exec-tmpfs kind v h = ground arith

parse_binding-valid :
    (raw : Value) {b : Binding} → parse_binding raw ≡ ok b → binding_valid b ≡ true
unfolding parse_binding binding_valid
parse_binding-valid raw {b} h = elim (Option-cases (as_object raw)) [
  | inl n ↦ absurd (ground (arith, n))
  | inr (fields, o) ↦ elim (Result-cases (parse_backend (get "backend" fields))) [
    | inr (e, n) ↦ absurd (ground (arith, o, n))
    | inl (backend, k) ↦ elim (Option-cases (text_of (get "kind" fields))) [
      | inl n ↦ absurd (ground (arith, o, n))
      | inr (kind, n) ↦ elim (Result-cases (parse_exec kind (get "exec" fields))) [
        | inr (e, x) ↦ absurd (ground (arith, o, k, n, x))
        | inl (exec, x) ↦ ground (
          arith,
          o,
          k,
          n,
          x,
          parse_backend-name_valid (get "backend" fields) b.mode k,
          parse_exec-tmpfs kind (get "exec" fields) x,
        )
      ]
    ]
  ]
]

parse_fields-valid :
    (acc : Map Binding) (fields : Fields) {m : Map Binding}
    → Distinct acc
    → all_entries entry_valid acc ≡ true
    → parse_fields acc fields ≡ ok m
    → Distinct m × (all_entries entry_valid m ≡ true)
unfolding parse_fields
parse_fields-valid acc no_fields {m} d v h = let e : m ≡ acc = ground arith in rw e (d, v)
parse_fields-valid acc (field name raw fields) d v h = elim (Result-cases (parse_binding raw)) [
  | inr (e, p) ↦ absurd (ground (arith, p))
  | inl (b, p) ↦
      let n : name_valid name ≡ true = ground (arith, p) in
      parse_fields-valid (insert name b acc) fields (insert-Distinct name b acc d)
        (all_entries-insert entry_valid name b acc (ground (arith, n, parse_binding-valid raw p)) v)
        (ground (arith, p))
]

-- A contract that is stored and read again is the same just when it has no name twice and a
-- configuration can spell each of its bindings.
pub parse_bindings-bindings_value :
    (m : Map Binding)
    → (parse_bindings (some (bindings_value m)) ≡ ok m)
      ↔ (Distinct m × (all_entries entry_valid m ≡ true))
unfolding parse_bindings bindings_value all_entries
parse_bindings-bindings_value m = (
  (λ h. parse_fields-valid [] (binding_fields m) tt refl h),
  (λ h. parse_fields-binding_fields [] m h.0 h.1),
)

-- What `parse_bindings` accepts of any JSON value has no name twice, and is spelled as a
-- configuration allows.
pub parse_bindings-valid :
    (v : Option Value) {m : Map Binding}
    → parse_bindings v ≡ ok m
    → Distinct m × (all_entries entry_valid m ≡ true)
unfolding parse_bindings all_entries
parse_bindings-valid none {m} h = let e : m ≡ [] = ground arith in rw e (tt, refl)
parse_bindings-valid (some v) {m} h = elim (Option-cases (as_object v)) [
  | inl n ↦ absurd (ground (arith, n))
  | inr (fields, o) ↦ parse_fields-valid [] fields tt refl (ground (arith, o))
]
