-- ===== src/EnvironmentStore/Active.antt =====
-- The active environment of apps/desktop/src/store/environment-store.ts.
use socketlens.Common.{
  ℕ, ◌≡◌, refl, ap, ◌∙◌, [], ◌∷◌, ◌++◌, List, Option, none, some, Bool, true, false, not, ◌&&◌, inl,
  inr, ◌⊎◌, non_empty, &&-eq-true, arith, Text, text_eq, text_eq_iff, text_eq_refl, truthy, length,
  leb, filter, find, if◌then◌else◌, or_some, Bool-cases, Option-cases,
}
use socketlens.Environment.{AppEnvironment, get_active_environment, id_is}
use socketlens.Environment.Editing.{
  EnvironmentsState, has_environment, or_defaults, create_default_environments,
  sanitize_environments, normalize_environments_state, chosen_id, create_environment,
  duplicate_environment,
}
use socketlens.EnvironmentStore.Calls.{Call, step, run}
use socketlens.EnvironmentStore.{
  update_environment_by_id, is_active, id_of, first_of, add_connection_profile, add_environment,
  add_variable, delete_connection_profile, delete_environment, delete_variable, duplicate,
  set_active_environment, update_connection_profile, update_environment, update_variable,
  replace_environments, initial_environments,
}

-- The active environment is one of the store's.
abbrev pub Holds : Option Text → List AppEnvironment → Type 0
Holds none environments = ⊥
Holds (some id) environments = has_environment environments id ≡ true

-- Either the active id is the id of an environment, or there is none left.
abbrev pub IsActive : EnvironmentsState → Type 0
IsActive s = (s.environments ≡ []) ⊎ Holds s.active_environment_id s.environments

has_environment-append :
    (xs : List AppEnvironment) (x : AppEnvironment) → has_environment (xs ++ x ∷ []) x.id ≡ true
unfolding has_environment
has_environment-append [] x = rw (text_eq_refl x.id)
has_environment-append (y ∷ xs) x = ground (arith, has_environment-append xs x)

has_environment-update :
    (xs : List AppEnvironment) (environment_id id : Text)
    (updater : AppEnvironment → AppEnvironment)
    → ((x : AppEnvironment) → (updater x).id ≡ x.id)
    → has_environment (update_environment_by_id xs environment_id updater) id
      ≡ has_environment xs id
unfolding has_environment update_environment_by_id
has_environment-update [] environment_id id updater h = refl
has_environment-update (x ∷ xs) environment_id id updater h =
    ground (arith, h x, has_environment-update xs environment_id id updater h)

updated-IsActive :
    (s : EnvironmentsState) (environment_id : Text) (updater : AppEnvironment → AppEnvironment)
    → ((x : AppEnvironment) → (updater x).id ≡ x.id)
    → IsActive s
    → IsActive
        (record s { environments = update_environment_by_id s.environments environment_id updater })
unfolding update_environment_by_id
updated-IsActive s environment_id updater h (inl e) =
    inl (ap (λ xs. update_environment_by_id xs environment_id updater) e)
updated-IsActive s environment_id updater h (inr e) = inr (still s.active_environment_id e)
  where
    still :
        (o : Option Text)
        → Holds o s.environments
        → Holds o (update_environment_by_id s.environments environment_id updater)
    still none k = k
    still (some id) k = has_environment-update s.environments environment_id id updater h ∙ k

find-Holds :
    (p : AppEnvironment → Bool) (xs : List AppEnvironment) (x : AppEnvironment)
    → find p xs ≡ some x
    → has_environment xs x.id ≡ true
unfolding has_environment
find-Holds p [] x h = cc
find-Holds p (y ∷ xs) x h = ground (arith, find-Holds p xs x, text_eq_refl x.id)

has_environment-filter :
    (xs : List AppEnvironment) (environment_id id : Text)
    → has_environment xs id ≡ true
    → text_eq id environment_id ≡ false
    → has_environment (filter (λ x. not (text_eq x.id environment_id)) xs) id ≡ true
unfolding has_environment
has_environment-filter [] environment_id id h k = h
has_environment-filter (x ∷ xs) environment_id id h k = ground (
  arith,
  has_environment-filter xs environment_id id,
  text_eq_iff x.id id,
  text_eq_iff x.id environment_id,
  text_eq_iff id environment_id,
)

has_first : (x : AppEnvironment) (xs : List AppEnvironment) → has_environment (x ∷ xs) x.id ≡ true
unfolding has_environment
has_first x xs = rw (text_eq_refl x.id)

found_or_first :
    (x : AppEnvironment) (xs : List AppEnvironment) (found : Option AppEnvironment)
    → ((y : AppEnvironment) → found ≡ some y → has_environment (x ∷ xs) y.id ≡ true)
    → Holds (or_some (id_of (or_some found (some x))) (some x.id)) (x ∷ xs)
found_or_first x xs none h = has_first x xs
found_or_first x xs (some y) h = h y refl

-- What the deletion of the active environment makes active.
next_active :
    (xs : List AppEnvironment) (o : Option Text)
    → (xs ≡ []) ⊎ Holds (or_some (id_of (get_active_environment xs o)) (first_of xs)) xs
unfolding get_active_environment
next_active [] o = inl refl
next_active (x ∷ xs) o = inr (found_or_first x xs _ (find-Holds (id_is o) (x ∷ xs)))

chosen-Holds :
    (o : Option Text) (x : AppEnvironment) (xs : List AppEnvironment)
    → has_environment (x ∷ xs) (chosen_id o (x ∷ xs)) ≡ true
chosen-Holds none x xs = has_first x xs
chosen-Holds (some id) x xs =
    either (truthy id && has_environment (x ∷ xs) id) (λ h. (&&-eq-true _ _ h).1)
  where
    either :
        (b : Bool)
        → (b ≡ true → has_environment (x ∷ xs) id ≡ true)
        → has_environment (x ∷ xs) (if b then id else x.id) ≡ true
    either true h = h refl
    either false h = has_first x xs

chosen_of_some :
    (o : Option Text) (xs : List AppEnvironment)
    → non_empty xs ≡ true
    → has_environment xs (chosen_id o xs) ≡ true
chosen_of_some o [] h = cc
chosen_of_some o (x ∷ xs) h = chosen-Holds o x xs

-- The deletion, where more than one environment is there.
deleted_active :
    (xs : List AppEnvironment) (o : Option Text) (environment_id : Text)
    → Holds o xs
    → let kept = filter (λ environment. not (text_eq environment.id environment_id)) xs in
      (kept ≡ [])
      ⊎ Holds
          (if is_active o environment_id
            then or_some (id_of (get_active_environment kept o)) (first_of kept)
            else o)
          kept
deleted_active xs none environment_id h = absurd h
deleted_active xs (some id) environment_id h = elim (Bool-cases (text_eq id environment_id)) [
  | inl e ↦ rw e (
      next_active (filter (λ environment. not (text_eq environment.id environment_id)) xs)
        (some id))
  | inr e ↦ rw e (inr (has_environment-filter xs environment_id id h e))
]

delete-IsActive :
    (s : EnvironmentsState) (environment_id : Text)
    → IsActive s
    → IsActive (delete_environment s environment_id)
unfolding delete_environment
delete-IsActive s environment_id h = elim (Bool-cases (leb (length s.environments) 1)) [
  | inl e ↦ rw e h
  | inr e ↦ elim h [
    | inl none_left ↦ cc (rw none_left at e)
    | inr k ↦ rw e (deleted_active s.environments s.active_environment_id environment_id k)
  ]
]

duplicate-IsActive :
    (s : EnvironmentsState) (ids : ℕ → Text) (now : ℕ) (environment_id : Text)
    → IsActive s
    → IsActive (duplicate s ids now environment_id)
unfolding duplicate
duplicate-IsActive s ids now environment_id h =
    elim (Option-cases
      (find (λ environment. text_eq environment.id environment_id) s.environments)) [
        | inl e ↦ rw (e, duplicate) h
        | inr (source, e) ↦
            rw (e, duplicate)
              (inr (has_environment-append s.environments (duplicate_environment ids now source)))
      ]

choose-IsActive :
    (s : EnvironmentsState) (environment_id : Text)
    → IsActive s
    → IsActive (set_active_environment s environment_id)
unfolding set_active_environment
choose-IsActive s environment_id h =
    elim (Bool-cases (has_environment s.environments environment_id)) [
      | inl e ↦ rw e (inr e)
      | inr e ↦ rw e h
    ]

normalize-IsActive :
    (ids : ℕ → Text) (now : ℕ) (o : Option Text) (environments : Option (List AppEnvironment))
    → IsActive (normalize_environments_state ids now o environments)
unfolding normalize_environments_state create_default_environments
normalize-IsActive ids now o environments = inr (holds (sanitize_environments ids environments))
  where
    holds :
        (xs : List AppEnvironment)
        → has_environment (or_defaults now xs) (chosen_id o (or_defaults now xs)) ≡ true
    holds [] = chosen_of_some o (create_default_environments now) refl
    holds (x ∷ xs) = chosen-Holds o x xs

step-IsActive :
    (number_text : ℕ → Text) (s : EnvironmentsState) (call : Call)
    → IsActive s
    → IsActive (step number_text s call)
unfolding step add_connection_profile add_environment add_variable delete_connection_profile
    delete_variable update_connection_profile update_environment update_variable
    replace_environments
step-IsActive number_text s (Call.adding_profile id now e) h = updated-IsActive s e _ (λ x. refl) h
step-IsActive number_text s (Call.adding ids now) h =
    inr (has_environment-append s.environments (create_environment ids now none none))
step-IsActive number_text s (Call.adding_variable id now e) h = updated-IsActive s e _ (λ x. refl) h
step-IsActive number_text s (Call.deleting_profile now e p) h = updated-IsActive s e _ (λ x. refl) h
step-IsActive number_text s (Call.deleting e) h = delete-IsActive s e h
step-IsActive number_text s (Call.deleting_variable now e v) h =
    updated-IsActive s e _ (λ x. refl) h
step-IsActive number_text s (Call.duplicating ids now e) h = duplicate-IsActive s ids now e h
step-IsActive number_text s (Call.replacing ids now es a) h = normalize-IsActive ids now a (some es)
step-IsActive number_text s (Call.activating e) h = choose-IsActive s e h
step-IsActive number_text s (Call.updating_profile now e p u n) h =
    updated-IsActive s e _ (λ x. refl) h
step-IsActive number_text s (Call.updating now e d n) h = updated-IsActive s e _ (λ x. refl) h
step-IsActive number_text s (Call.updating_variable now e v i k w) h =
    updated-IsActive s e _ (λ x. refl) h

calls-IsActive :
    (number_text : ℕ → Text) (s : EnvironmentsState) (calls : List Call)
    → IsActive s
    → IsActive (run number_text s calls)
unfolding run
calls-IsActive number_text s [] h = h
calls-IsActive number_text s (call ∷ calls) h =
    calls-IsActive number_text (step number_text s call) calls (step-IsActive number_text s call h)

-- From the first start, after any calls, the active id is the id of an environment, or no environment
-- is left.
pub run-IsActive :
    (number_text : ℕ → Text) (ids : ℕ → Text) (now : ℕ) (calls : List Call)
    → IsActive (run number_text (initial_environments ids now) calls)
unfolding initial_environments
run-IsActive number_text ids now calls =
    calls-IsActive number_text (initial_environments ids now) calls
      (normalize-IsActive ids now none none)
