-- ===== src/Examples/Environments.antt =====
-- Environments at concrete inputs.
use socketlens.Common.{ℕ, ◌≡◌, [], ◌∷◌, List, false, Text, lit, map, arith}
use socketlens.Environment.{EnvironmentVariable}
use socketlens.EnvironmentStore.{create_unique_variable_key, has_key, initial_environments}
use socketlens.EnvironmentStore.UniqueKeys.{unique_key-fresh}
use socketlens.EnvironmentStore.Calls.{Call, run}
use socketlens.EnvironmentStore.Active.{IsActive, run-IsActive}
use socketlens.Examples.{digits}

digits_injective : (m n : ℕ) → digits m ≡ digits n → m ≡ n
digits_injective m n h = ground arith

abbrev variable : Text → EnvironmentVariable
variable key = record { id = key; is_secret = false; key = key; value = [] }

abbrev variables : List EnvironmentVariable
variables = variable (lit "variable") ∷ variable (lit "base_url") ∷ []

unique_key-fresh_example :
    has_key (map (λ v. v.key) variables) (create_unique_variable_key digits variables) ≡ false
unique_key-fresh_example = unique_key-fresh digits digits_injective variables

abbrev calls : List Call
calls =
    Call.adding digits 5
    ∷ Call.deleting (1 ∷ [])
    ∷ Call.deleting (lit "env-local")
    ∷ Call.activating (lit "env-production")
    ∷ []

run-IsActive_example : IsActive (run digits (initial_environments digits 1) calls)
run-IsActive_example = run-IsActive digits digits 1 calls
