-- ===== src/EnvironmentStore.antt =====
-- apps/desktop/src/store/environment-store.ts: the environments and the active one.
-- A call that makes ids takes a sequence of them, and one that reads the clock the time. What
-- `createJSONStorage` writes and reads is the library's.
pub mod UniqueKeys
pub mod Calls
pub mod Active
use socketlens.Common.{
  ℕ, zero, suc, ◌+◌, [], ◌∷◌, ◌++◌, List, Option, none, some, Bool, true, false, not, Text, lit,
  text_eq, leb, length, any, filter, find, map, if◌then◌else◌, or_else, or_some, ◌==◌,
}
use socketlens.Environment.{
  EnvironmentVariable, EnvironmentConnectionProfile, AppEnvironment, get_active_environment,
}
use socketlens.Environment.Editing.{
  EnvironmentsState, create_environment, create_environment_profile, create_environment_variable,
  duplicate_environment, normalize_environments_state, has_environment,
}

unfoldable pub update_environment_by_id :
    List AppEnvironment → Text → (AppEnvironment → AppEnvironment) → List AppEnvironment
unfolding text_eq
update_environment_by_id environments environment_id updater =
    map
      (λ environment.
        if text_eq environment.id environment_id then updater environment else environment)
      environments

-- The candidates of `createUniqueVariableKey`: `variable`, `variable_2`, `variable_3`, ...
abbrev pub key_at : (ℕ → Text) → ℕ → Text
key_at number_text index =
    if index == 1 then lit "variable" else lit "variable_" ++ number_text index

abbrev pub has_key : List Text → Text → Bool
has_key keys key = any (text_eq key) keys

-- The loop, on fuel.
unfoldable pub unique_from : (ℕ → Text) → ℕ → ℕ → List Text → Text
unfolding text_eq
unique_from number_text zero index keys = key_at number_text index
unique_from number_text (suc fuel) index keys =
    let later = unique_from number_text fuel (suc index) keys in
    if has_key keys (key_at number_text index) then later else key_at number_text index

-- As many rounds as there are variables are enough.
unfoldable pub create_unique_variable_key : (ℕ → Text) → List EnvironmentVariable → Text
unfolding unique_from
create_unique_variable_key number_text variables =
    unique_from number_text (length variables) 1 (map (λ variable. variable.key) variables)

abbrev pub id_of : Option AppEnvironment → Option Text
id_of none = none
id_of (some environment) = some environment.id

abbrev pub first_of : List AppEnvironment → Option Text
first_of [] = none
first_of (environment ∷ environments) = some environment.id

abbrev pub is_active : Option Text → Text → Bool
is_active none environment_id = false
is_active (some id) environment_id = text_eq id environment_id

module _ (s : EnvironmentsState) where
  abbrev updated : Text → (AppEnvironment → AppEnvironment) → EnvironmentsState
  updated environment_id updater = record s {
    environments = update_environment_by_id s.environments environment_id updater;
  }

  unfoldable pub add_connection_profile : (id : Text) (now : ℕ) → Text → EnvironmentsState
  unfolding update_environment_by_id create_environment_profile
  add_connection_profile id now environment_id = updated environment_id (λ environment.
      record environment {
        connection_profiles =
            environment.connection_profiles ++ create_environment_profile id none none ∷ [];
        updated_at = now;
      })

  unfoldable pub add_environment : (ids : ℕ → Text) (now : ℕ) → EnvironmentsState
  unfolding create_environment
  add_environment ids now =
      let environment = create_environment ids now none none in
      record {
        active_environment_id = some environment.id;
        environments = s.environments ++ environment ∷ [];
      }

  unfoldable pub add_variable : (ℕ → Text) → (id : Text) (now : ℕ) → Text → EnvironmentsState
  unfolding update_environment_by_id create_environment_variable create_unique_variable_key
  add_variable number_text id now environment_id = updated environment_id (λ environment.
      record environment {
        updated_at = now;
        variables =
            environment.variables
            ++ create_environment_variable id none
                (create_unique_variable_key number_text environment.variables) (some [])
              ∷ [];
      })

  unfoldable pub delete_connection_profile :
      (now : ℕ) (environment_id profile_id : Text) → EnvironmentsState
  unfolding update_environment_by_id text_eq
  delete_connection_profile now environment_id profile_id = updated environment_id (λ environment.
      record environment {
        connection_profiles =
            filter (λ profile. not (text_eq profile.id profile_id)) environment.connection_profiles;
        updated_at = now;
      })

  unfoldable pub delete_environment : Text → EnvironmentsState
  unfolding text_eq get_active_environment
  delete_environment environment_id =
      if leb (length s.environments) 1
      then s
      else let environments =
          filter (λ environment. not (text_eq environment.id environment_id)) s.environments in
        let active = get_active_environment environments s.active_environment_id in
        record {
          active_environment_id =
              if is_active s.active_environment_id environment_id
              then or_some (id_of active) (first_of environments)
              else s.active_environment_id;
          environments = environments;
        }

  unfoldable pub delete_variable : (now : ℕ) (environment_id variable_id : Text) → EnvironmentsState
  unfolding update_environment_by_id text_eq
  delete_variable now environment_id variable_id = updated environment_id (λ environment.
      record environment {
        updated_at = now;
        variables =
            filter (λ variable. not (text_eq variable.id variable_id)) environment.variables;
      })

  abbrev with_copy : AppEnvironment → EnvironmentsState
  with_copy environment = record {
    active_environment_id = some environment.id;
    environments = s.environments ++ environment ∷ [];
  }

  -- The operation of the store; nothing changes if the environment is not found.
  unfoldable pub duplicate : (ids : ℕ → Text) (now : ℕ) → Text → EnvironmentsState
  unfolding text_eq duplicate_environment
  duplicate ids now environment_id =
      elim (find (λ environment. text_eq environment.id environment_id) s.environments) [
        | none ↦ s
        | some source ↦ with_copy (duplicate_environment ids now source)
      ]

  unfoldable pub set_active_environment : Text → EnvironmentsState
  unfolding has_environment
  set_active_environment environment_id =
      if has_environment s.environments environment_id
      then record s { active_environment_id = some environment_id }
      else s

  unfoldable pub update_connection_profile :
      (now : ℕ) (environment_id profile_id : Text) (endpoint_url name : Option Text)
      → EnvironmentsState
  unfolding update_environment_by_id text_eq
  update_connection_profile now environment_id profile_id endpoint_url name =
      updated environment_id (λ environment. record environment {
        connection_profiles =
            map
              (λ profile.
                if text_eq profile.id profile_id
                then record profile {
                  endpoint_url = or_else endpoint_url profile.endpoint_url;
                  name = or_else name profile.name;
                }
                else profile)
              environment.connection_profiles;
        updated_at = now;
      })

  unfoldable pub update_environment :
      (now : ℕ) (environment_id : Text) (description name : Option Text) → EnvironmentsState
  unfolding update_environment_by_id
  update_environment now environment_id description name = updated environment_id (λ environment.
      record environment {
        description = or_else description environment.description;
        name = or_else name environment.name;
        updated_at = now;
      })

  unfoldable pub update_variable :
      (now : ℕ) (environment_id variable_id : Text) (is_secret : Option Bool)
      (key value : Option Text)
      → EnvironmentsState
  unfolding update_environment_by_id text_eq
  update_variable now environment_id variable_id is_secret key value =
      updated environment_id (λ environment. record environment {
        updated_at = now;
        variables =
            map
              (λ variable.
                if text_eq variable.id variable_id
                then record variable {
                  is_secret = or_else is_secret variable.is_secret;
                  key = or_else key variable.key;
                  value = or_else value variable.value;
                }
                else variable)
              environment.variables;
      })

-- Also `merge`, on what has been stored.
unfoldable pub replace_environments :
    (ids : ℕ → Text) (now : ℕ) → List AppEnvironment → Option Text → EnvironmentsState
unfolding normalize_environments_state
replace_environments ids now environments active_environment_id =
    normalize_environments_state ids now active_environment_id (some environments)

unfoldable pub initial_environments : (ids : ℕ → Text) (now : ℕ) → EnvironmentsState
unfolding normalize_environments_state
initial_environments ids now = normalize_environments_state ids now none none
