-- ===== src/Finish/Options.antt =====
-- broker.rs `land_request_options`: what a land's worker is told on its command line.
use agcoord.Base.{
  String, ◌≡◌, ◌⊎◌, inl, inr, refl, Bool, true, false, not, ◌&&◌, ◌||◌, Option, none, some, List,
  [], ◌∷◌, ◌++◌, Map, lookup, all, str_eq, Bool-cases, Option-cases, if◌then◌else◌, arith,
}
use agcoord.Run.{RunRecord, Binding, Result, ok, err, ◌>>=◌, row_invalid, is_land}
use agcoord.Text.{commit_sha_valid, split_comma}
use agcoord.Submit.{
  Files, OwnerInfo, SubmitRequest, flag_valid, avoided_valid, land_valid, request_valid,
  validate_submit,
}
use agcoord.Enqueue.{request_row}

-- A setting that is absent or has its default says nothing.
flag_option : String → String → String → Option String → Result (List String)
flag_option default set option none = ok []
flag_option default set option (some value) =
    if str_eq value default
    then ok []
    else if str_eq value set
    then ok (option ∷ [])
    else err row_invalid

avoid_each : List String → Result (List String)
avoid_each [] = ok []
avoid_each (sha ∷ shas) =
    let rest = avoid_each shas in
    if commit_sha_valid sha
    then rest >>= (λ options. ok ("--avoid" ∷ sha ∷ options))
    else err row_invalid

avoid_options : Option String → Result (List String)
unfolding avoid_each
avoid_options none = ok []
avoid_options (some avoided) = avoid_each (split_comma avoided)

unfoldable pub land_request_options : RunRecord → Result (List String)
unfolding flag_option avoid_options
land_request_options run =
    flag_option "1" "0" "--no-target-sync" (lookup "_AGCOORD_LAND_TARGET_SYNC" run.environment)
    >>= λ sync.
        flag_option "0" "1" "--reuse-full" (lookup "_AGCOORD_LAND_REUSE_FULL" run.environment)
        >>= λ reuse. avoid_options (lookup "_AGCOORD_LAND_AVOID" run.environment) >>= λ avoid.
            ok (sync ++ (reuse ++ avoid))

pub Succeeds : Result (List String) → Type 0
Succeeds r = (options : List String) × (r ≡ ok options)

flag_option_ok :
    (option : String) (value : Option String)
    → flag_valid value ≡ true
    → Succeeds (flag_option "1" "0" option value) × Succeeds (flag_option "0" "1" option value)
unfolding flag_option flag_valid Succeeds
flag_option_ok option none h = (([], refl), ([], refl))
flag_option_ok option (some value) h = elim (Bool-cases (str_eq value "1")) [
  | inl e ↦ elim (Bool-cases (str_eq value "0")) [
    | inl z ↦ (([], ground (arith, e)), ([], ground (arith, z)))
    | inr z ↦ (([], ground (arith, e)), (option ∷ [], ground (arith, e, z)))
  ]
  | inr e ↦
      let z : str_eq value "0" ≡ true = ground (arith, e) in
      ((option ∷ [], ground (arith, e, z)), ([], ground (arith, z)))
]

avoid_each_ok : (shas : List String) → all commit_sha_valid shas ≡ true → Succeeds (avoid_each shas)
unfolding avoid_each Succeeds
avoid_each_ok [] h = ([], refl)
avoid_each_ok (sha ∷ shas) h =
    let rest : Succeeds (avoid_each shas) = avoid_each_ok shas (ground arith) in
    ("--avoid" ∷ sha ∷ rest.0, ground (arith, rest.1))

avoid_options_ok :
    (value : Option String) → avoided_valid value ≡ true → Succeeds (avoid_options value)
unfolding avoid_options avoided_valid Succeeds
avoid_options_ok none h = ([], refl)
avoid_options_ok (some avoided) h = avoid_each_ok (split_comma avoided) h

rest_of : (a b : Bool) → a && b ≡ true → b ≡ true
rest_of a b h = ground arith

first_of : (a b : Bool) → a && b ≡ true → a ≡ true
first_of a b h = ground arith

checked :
    (files : Files) (owner : OwnerInfo) (request : SubmitRequest) (b : Bool)
    → request_valid files request ≡ b
    → validate_submit files owner request ≡ ok tt
    → b ≡ true
unfolding validate_submit
checked files owner request true e v = refl
checked files owner request false e v = absurd (cc (e, v))

-- `validate_submit` has checked the settings of a land.
checked_land :
    (files : Files) (request : SubmitRequest)
    → request_valid files request ≡ true
    → is_land request.kind ≡ true
    → land_valid files request.environment ≡ true
unfolding request_valid
checked_land files request h l =
    implied (is_land request.kind) (land_valid files request.environment) l
      (rest_of _ _ (first_of _ _ (first_of _ _ (first_of _ _ h))))
  where
    implied : (a b : Bool) → a ≡ true → not a || b ≡ true → b ≡ true
    implied a b e k = ground arith

checked_settings :
    (files : Files) (environment : Map String)
    → land_valid files environment ≡ true
    → (flag_valid (lookup "_AGCOORD_LAND_TARGET_SYNC" environment) ≡ true)
      × (flag_valid (lookup "_AGCOORD_LAND_REUSE_FULL" environment) ≡ true)
      × (avoided_valid (lookup "_AGCOORD_LAND_AVOID" environment) ≡ true)
unfolding land_valid
checked_settings files environment h =
    let flags = first_of _ _ h in
    (rest_of _ _ (first_of _ _ flags), rest_of _ _ flags, rest_of _ _ h)

built :
    (run : RunRecord)
    → Succeeds (
        flag_option "1" "0" "--no-target-sync" (lookup "_AGCOORD_LAND_TARGET_SYNC" run.environment))
    → Succeeds
        (flag_option "0" "1" "--reuse-full" (lookup "_AGCOORD_LAND_REUSE_FULL" run.environment))
    → Succeeds (avoid_options (lookup "_AGCOORD_LAND_AVOID" run.environment))
    → Succeeds (land_request_options run)
unfolding land_request_options Succeeds
built run sync reuse avoid = (sync.0 ++ (reuse.0 ++ avoid.0), rw (sync.1, reuse.1, avoid.1) refl)

-- If `validate_submit` accepts the request of a land, the worker options can be built from every
-- row that `submit` makes of it.
pub land_request_options_ok :
    (files : Files) (owner : OwnerInfo) (request : SubmitRequest) (now : agcoord.Base.ℕ)
    (gate_run_id : Option String) (contract : Map Binding) (sequence : agcoord.Base.ℕ)
    → is_land request.kind ≡ true
    → validate_submit files owner request ≡ ok tt
    → (options : List String) × (land_request_options
          (request_row now request gate_run_id contract sequence)
        ≡ ok options)
unfolding request_row Succeeds
land_request_options_ok files owner request now gate_run_id contract sequence l v =
    let settings =
      checked_settings files request.environment
        (checked_land files request (checked files owner request _ refl v) l) in
    built (request_row now request gate_run_id contract sequence)
      (flag_option_ok "--no-target-sync" _ settings.0).0
      (flag_option_ok "--reuse-full" _ settings.1).1 (avoid_options_ok _ settings.2)
