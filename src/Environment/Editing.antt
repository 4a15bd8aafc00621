-- ===== src/Environment/Editing.antt =====
-- Making, copying and cleaning environments in apps/desktop/src/models/environment.ts.
-- Fresh ids are the members of a sequence, taken in the order of the calls. What is cleaned has the
-- type of environments, so that of the tests on types only those on emptiness are left.
use socketlens.Common.{
  ℕ, zero, suc, [], ◌∷◌, ◌++◌, List, Option, none, some, Bool, true, false, not, ◌&&◌, Text, lit,
  text_eq, trim, truthy, length, any, starts_with, drop, if◌then◌else◌, or_else,
}
use socketlens.Environment.{
  is_key_start, is_key_char, EnvironmentVariable, EnvironmentPreset, EnvironmentConnectionProfile,
  AppEnvironment, normalize_environment_variable_key,
}

-- `value?.trim() || fallback`
abbrev trimmed_or : Option Text → Text → Text
trimmed_or none fallback = fallback
trimmed_or (some s) fallback = if truthy (trim s) then trim s else fallback

unfoldable pub create_environment_variable :
    (id : Text) (is_secret : Option Bool) (key : Text) (value : Option Text) → EnvironmentVariable
unfolding trim
create_environment_variable id is_secret key value = record {
  id = id;
  is_secret = or_else is_secret false;
  key = normalize_environment_variable_key key;
  value = or_else value [];
}

unfoldable pub create_environment_profile :
    Text → (endpoint_url name : Option Text) → EnvironmentConnectionProfile
unfolding trim
create_environment_profile id endpoint_url name = record {
  endpoint_url = or_else endpoint_url (lit "{{base_url}}");
  id = id;
  name = trimmed_or name (lit "WebSocket profile");
}

-- The profile's id is made before the environment's, and that before the variable's.
unfoldable pub create_environment :
    (ids : ℕ → Text) (now : ℕ) (description name : Option Text) → AppEnvironment
unfolding trim create_environment_variable
create_environment ids now description name = record {
  connection_profiles =
      record { endpoint_url = lit "{{base_url}}"; id = ids 0; name = lit "Default WebSocket" } ∷ [];
  created_at = now;
  description = trim (or_else description []);
  id = ids 1;
  name = trimmed_or name (lit "New environment");
  preset = none;
  updated_at = now;
  variables =
      create_environment_variable (ids 2) none (lit "base_url") (some (lit "ws://127.0.0.1:17787"))
      ∷ [];
}

-- Each profile, and each variable, gets the next id of the sequence.
copied_profiles :
    (ℕ → Text) → ℕ → List EnvironmentConnectionProfile → List EnvironmentConnectionProfile
copied_profiles ids n [] = []
copied_profiles ids n (profile ∷ profiles) =
    record profile { id = ids n } ∷ copied_profiles ids (suc n) profiles

copied_variables : (ℕ → Text) → ℕ → List EnvironmentVariable → List EnvironmentVariable
copied_variables ids n [] = []
copied_variables ids n (variable ∷ variables) =
    record variable { id = ids n } ∷ copied_variables ids (suc n) variables

unfoldable pub duplicate_environment : (ℕ → Text) → ℕ → AppEnvironment → AppEnvironment
unfolding copied_profiles copied_variables
duplicate_environment ids now environment =
    let profiles = length environment.connection_profiles in
    record environment {
      connection_profiles = copied_profiles ids 0 environment.connection_profiles;
      created_at = now;
      id = ids profiles;
      name = environment.name ++ lit " copy";
      preset = none;
      updated_at = now;
      variables = copied_variables ids (suc profiles) environment.variables;
    }

-- `/^[A-Za-z_][A-Za-z0-9_.-]*$/` on the trimmed key
unfoldable pub is_valid_environment_variable_key : Text → Bool
unfolding trim
is_valid_environment_variable_key key = matches_key (trim key)
  where
    all_key_chars : Text → Bool
    all_key_chars [] = true
    all_key_chars (c ∷ s) = is_key_char c && all_key_chars s

    matches_key : Text → Bool
    matches_key [] = false
    matches_key (c ∷ s) = is_key_start c && all_key_chars s

abbrev preset_environment :
    (now : ℕ) (preset : EnvironmentPreset) (profile : EnvironmentConnectionProfile)
    (id name description : Text) (url token : EnvironmentVariable)
    → AppEnvironment
preset_environment now preset profile id name description url token = record {
  connection_profiles = profile ∷ [];
  created_at = now;
  description = description;
  id = id;
  name = name;
  preset = some preset;
  updated_at = now;
  variables = url ∷ token ∷ [];
}

unfoldable pub create_preset_environment : EnvironmentPreset → ℕ → AppEnvironment
unfolding create_environment_variable
create_preset_environment EnvironmentPreset.local now =
    preset_environment now EnvironmentPreset.local
      (record {
        endpoint_url = lit "{{base_url}}";
        id = lit "profile-local-echo";
        name = lit "Local echo";
      })
      (lit "env-local") (lit "Local") (lit "Local development endpoints.")
      (create_environment_variable (lit "variable-local-base-url") none (lit "base_url")
        (some (lit "ws://127.0.0.1:17787")))
      (create_environment_variable (lit "variable-local-auth-token") (some true) (lit "auth_token")
        (some (lit "local-demo-token")))
create_preset_environment EnvironmentPreset.staging now =
    preset_environment now EnvironmentPreset.staging
      (record {
        endpoint_url = lit "{{base_url}}?token={{auth_token}}";
        id = lit "profile-staging-default";
        name = lit "Staging WebSocket";
      })
      (lit "env-staging") (lit "Staging") (lit "Shared pre-production endpoints.")
      (create_environment_variable (lit "variable-staging-base-url") none (lit "base_url")
        (some (lit "wss://staging.example.com/socket")))
      (create_environment_variable (lit "variable-staging-auth-token") (some true)
        (lit "auth_token") (some []))
create_preset_environment EnvironmentPreset.production now =
    preset_environment now EnvironmentPreset.production
      (record {
        endpoint_url = lit "{{base_url}}?token={{auth_token}}";
        id = lit "profile-production-default";
        name = lit "Production WebSocket";
      })
      (lit "env-production") (lit "Production")
      (lit "Production endpoints. Review secrets before connecting.")
      (create_environment_variable (lit "variable-production-base-url") none (lit "base_url")
        (some (lit "wss://api.example.com/socket")))
      (create_environment_variable (lit "variable-production-auth-token") (some true)
        (lit "auth_token") (some []))

unfoldable pub create_default_environments : ℕ → List AppEnvironment
unfolding create_preset_environment
create_default_environments now =
    create_preset_environment EnvironmentPreset.local now
    ∷ create_preset_environment EnvironmentPreset.staging now
    ∷ create_preset_environment EnvironmentPreset.production now
    ∷ []

-- A list that is cleaned, and how many ids of the sequence have been taken.
sanitize_connection_profiles :
    (ℕ → Text) → ℕ → List EnvironmentConnectionProfile → List EnvironmentConnectionProfile × ℕ
sanitize_connection_profiles ids n [] = ([], n)
sanitize_connection_profiles ids n (profile ∷ profiles) =
    let keep = truthy profile.name && truthy profile.endpoint_url in
    let next = if keep && not (truthy profile.id) then suc n else n in
    let (rest, last) = sanitize_connection_profiles ids next profiles in
    (
      if keep
          then record profile { id = if truthy profile.id then profile.id else ids n } ∷ rest
          else rest,
      last,
    )

sanitize_variables : (ℕ → Text) → ℕ → List EnvironmentVariable → List EnvironmentVariable × ℕ
unfolding is_valid_environment_variable_key trim
sanitize_variables ids n [] = ([], n)
sanitize_variables ids n (variable ∷ variables) =
    let keep = is_valid_environment_variable_key variable.key in
    let next = if keep && not (truthy variable.id) then suc n else n in
    let (rest, last) = sanitize_variables ids next variables in
    (
      if keep
          then record variable {
            id = if truthy variable.id then variable.id else ids n;
            key = normalize_environment_variable_key variable.key;
          }
            ∷ rest
          else rest,
      last,
    )

abbrev sanitized :
    AppEnvironment → List EnvironmentConnectionProfile → List EnvironmentVariable → AppEnvironment
sanitized environment profiles variables = record environment {
  connection_profiles = profiles;
  variables = variables;
}

sanitize_from : (ℕ → Text) → ℕ → List AppEnvironment → List AppEnvironment
unfolding sanitize_connection_profiles sanitize_variables
sanitize_from ids n [] = []
sanitize_from ids n (environment ∷ environments) =
    let keep = truthy environment.id && truthy environment.name in
    let (profiles, n1) = sanitize_connection_profiles ids n environment.connection_profiles in
    let (variables, n2) = sanitize_variables ids n1 environment.variables in
    let rest = sanitize_from ids (if keep then n2 else n) environments in
    if keep then sanitized environment profiles variables ∷ rest else rest

unfoldable pub sanitize_environments :
    (ℕ → Text) → Option (List AppEnvironment) → List AppEnvironment
unfolding sanitize_from
sanitize_environments ids none = []
sanitize_environments ids (some environments) = sanitize_from ids 0 environments

-- What the environment store keeps. The id is `none` where the source may store `undefined`.
pub record EnvironmentsState : Type 0 where
  pub active_environment_id : Option Text
  pub environments : List AppEnvironment

unfoldable pub has_environment : List AppEnvironment → Text → Bool
unfolding text_eq
has_environment environments id = any (λ environment. text_eq environment.id id) environments

abbrev first_id : List AppEnvironment → Text
first_id [] = lit "env-local"
first_id (environment ∷ environments) = environment.id

-- `input.activeEnvironmentId && environments.some(...)`
abbrev pub chosen_id : Option Text → List AppEnvironment → Text
chosen_id none environments = first_id environments
chosen_id (some id) environments =
    if truthy id && has_environment environments id then id else first_id environments

abbrev pub or_defaults : ℕ → List AppEnvironment → List AppEnvironment
or_defaults now [] = create_default_environments now
or_defaults now (environment ∷ environments) = environment ∷ environments

unfoldable pub normalize_environments_state :
    (ℕ → Text) → ℕ → Option Text → Option (List AppEnvironment) → EnvironmentsState
unfolding sanitize_environments create_default_environments has_environment
normalize_environments_state ids now active_environment_id environments =
    let next = or_defaults now (sanitize_environments ids environments) in
    record {
      active_environment_id = some (chosen_id active_environment_id next);
      environments = next;
    }

-- `value.split(secret).join("****")` for a secret that is not empty; the number counts the characters
-- of an occurrence still to pass.
replace_from : Text → ℕ → Text → Text
unfolding starts_with
replace_from secret n [] = []
replace_from secret (suc n) (c ∷ s) = replace_from secret n s
replace_from secret zero (c ∷ s) =
    if starts_with (c ∷ s) secret
    then lit "****" ++ replace_from secret (length (drop 1 secret)) s
    else c ∷ replace_from secret 0 s

unfoldable pub redact_variables : Text → List EnvironmentVariable → Text
unfolding replace_from
redact_variables value [] = value
redact_variables value (variable ∷ variables) =
    redact_variables
      (if variable.is_secret && truthy variable.value
        then replace_from variable.value 0 value
        else value)
      variables

unfoldable pub redact_environment_secrets : Text → Option AppEnvironment → Text
unfolding redact_variables
redact_environment_secrets value none = value
redact_environment_secrets value (some environment) = redact_variables value environment.variables
