-- ===== src/FilterState.antt =====
-- apps/desktop/src/models/filter-state.ts: the state of the packet filter.
-- Sizes are natural numbers; `null` is `none`. `normalizeFilterState`, which reads an unknown value,
-- is left out.
mod Conditions
pub mod Blank
pub mod Grammar
unfoldable pub use Conditions.*
use socketlens.Common.{
  ℕ, List, [], ◌∷◌, ◌++◌, Option, none, some, Bool, true, false, not, Text, lit, trim, truthy,
}
use socketlens.Json.{Runtime}
use socketlens.Packet.{PacketDirection, PacketPayloadKind}

-- `"all" | PacketDirection`
pub data PacketDirectionFilter : Type 0 where
  all : PacketDirectionFilter
  only : PacketDirection → PacketDirectionFilter

-- `"all" | PacketPayloadKind`
pub data PacketPayloadKindFilter : Type 0 where
  all : PacketPayloadKindFilter
  only : PacketPayloadKind → PacketPayloadKindFilter

pub data PacketSearchMode : Type 0 where
  text regex : PacketSearchMode

pub record FilterState : Type 0 where
  pub direction : PacketDirectionFilter
  pub errors_only : Bool
  pub event_query : Text
  pub hide_heartbeat : Bool
  pub hide_ping_pong : Bool
  pub max_size_bytes : Option ℕ
  pub min_size_bytes : Option ℕ
  pub payload_kind : PacketPayloadKindFilter
  pub search_query : Text
  pub search_mode : PacketSearchMode
  pub session_id : Option Text
  pub smart_query : Text

abbrev pub default_filter_state : FilterState
default_filter_state = record {
  direction = PacketDirectionFilter.all;
  errors_only = false;
  event_query = [];
  hide_heartbeat = false;
  hide_ping_pong = false;
  max_size_bytes = none;
  min_size_bytes = none;
  payload_kind = PacketPayloadKindFilter.all;
  search_query = [];
  search_mode = PacketSearchMode.text;
  session_id = none;
  smart_query = [];
}

-- A regular expression is its `test`.
pub record CompiledFilterState : Type 0 where
  pub event_query : Text
  pub issues : List FilterValidationIssue
  pub search_regex : Option (Text → Bool)
  pub smart_conditions : List SmartFilterCondition

module _ (ρ : Runtime) where
  -- The expression, and the issues that the call appends.
  unfoldable pub compile_search_regex :
      Text → PacketSearchMode → Option (Text → Bool) × List FilterValidationIssue
  compile_search_regex [] mode = (none, [])
  compile_search_regex (c ∷ query) PacketSearchMode.text = (none, [])
  compile_search_regex (c ∷ query) PacketSearchMode.regex = elim (ρ.new_reg_exp (c ∷ query)) [
    | some test ↦ (some test, [])
    | none ↦ (
      none,
      record {
        field = FilterField.search_query;
        message = lit "Invalid regular expression.";
        value = c ∷ query;
      }
          ∷ [],
    )
  ]

  unfoldable pub compile_filter_state : FilterState → CompiledFilterState
  unfolding compile_search_regex compile_smart_conditions trim
  compile_filter_state fs =
      let regex = compile_search_regex (trim fs.search_query) fs.search_mode in
      let smart = compile_smart_conditions fs.smart_query in
      record {
        event_query = ρ.lower (trim fs.event_query);
        issues = regex.1 ++ smart.1;
        search_regex = regex.0;
        smart_conditions = smart.0;
      }

  unfoldable pub get_filter_validation_issues : FilterState → List FilterValidationIssue
  unfolding compile_filter_state
  get_filter_validation_issues fs = (compile_filter_state fs).issues
