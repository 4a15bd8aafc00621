-- ===== src/EnvironmentStore/Calls.antt =====
-- The operations of apps/desktop/src/store/environment-store.ts, as one step on a type of calls.
use socketlens.Common.{ℕ, [], ◌∷◌, List, Option, Bool, Text}
use socketlens.Environment.{AppEnvironment}
use socketlens.Environment.Editing.{EnvironmentsState}
use socketlens.EnvironmentStore.{
  add_connection_profile, add_environment, add_variable, delete_connection_profile,
  delete_environment, delete_variable, duplicate, set_active_environment, update_connection_profile,
  update_environment, update_variable, replace_environments,
}

-- The operations that change the store, with the ids and the time that they take.
pub data Call : Type 0 where
  adding_profile : (id : Text) (now : ℕ) (environment_id : Text) → Call
  adding : (ids : ℕ → Text) (now : ℕ) → Call
  adding_variable : (id : Text) (now : ℕ) (environment_id : Text) → Call
  deleting_profile : (now : ℕ) (environment_id profile_id : Text) → Call
  deleting : (environment_id : Text) → Call
  deleting_variable : (now : ℕ) (environment_id variable_id : Text) → Call
  duplicating : (ids : ℕ → Text) (now : ℕ) (environment_id : Text) → Call
  replacing :
      (ids : ℕ → Text) (now : ℕ) (environments : List AppEnvironment)
      (active_environment_id : Option Text)
      → Call
  activating : (environment_id : Text) → Call
  updating_profile :
      (now : ℕ) (environment_id profile_id : Text) (endpoint_url name : Option Text) → Call
  updating : (now : ℕ) (environment_id : Text) (description name : Option Text) → Call
  updating_variable :
      (now : ℕ) (environment_id variable_id : Text) (is_secret : Option Bool)
      (key value : Option Text)
      → Call

module _ (number_text : ℕ → Text) where
  unfoldable pub step : EnvironmentsState → Call → EnvironmentsState
  step s (Call.adding_profile id now e) = add_connection_profile s id now e
  step s (Call.adding ids now) = add_environment s ids now
  step s (Call.adding_variable id now e) = add_variable s number_text id now e
  step s (Call.deleting_profile now e p) = delete_connection_profile s now e p
  step s (Call.deleting e) = delete_environment s e
  step s (Call.deleting_variable now e v) = delete_variable s now e v
  step s (Call.duplicating ids now e) = duplicate s ids now e
  step s (Call.replacing ids now es a) = replace_environments ids now es a
  step s (Call.activating e) = set_active_environment s e
  step s (Call.updating_profile now e p u n) = update_connection_profile s now e p u n
  step s (Call.updating now e d n) = update_environment s now e d n
  step s (Call.updating_variable now e v i k w) = update_variable s now e v i k w

  unfoldable pub run : EnvironmentsState → List Call → EnvironmentsState
  unfolding step
  run s [] = s
  run s (call ∷ calls) = run (step s call) calls
