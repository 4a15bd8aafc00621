-- ===== src/FilterState/Conditions.antt =====
-- `compileSmartConditions` of apps/desktop/src/models/filter-state.ts: what the user writes to
-- compare a field of a payload with a value.
use socketlens.Common.{
  ℕ, List, [], ◌∷◌, ◌++◌, map, Option, none, some, Bool, true, false, not, ◌&&◌, ◌||◌, Text, lit,
  drop, trim, truthy, filter, starts_with, is_space, any, leb, ◌==◌, if◌then◌else◌, non_empty,
}
use socketlens.Environment.{span}

pub data SmartFilterOperator : Type 0 where
  equal different : SmartFilterOperator

abbrev pub operator_word : SmartFilterOperator → Text
operator_word SmartFilterOperator.equal = lit "=="
operator_word SmartFilterOperator.different = lit "!="

pub record SmartFilterCondition : Type 0 where
  pub expected_value : Text
  pub operator : SmartFilterOperator
  pub path : List Text
  pub source : Text

pub data FilterField : Type 0 where
  search_query smart_query : FilterField

pub record FilterValidationIssue : Type 0 where
  pub field : FilterField
  pub message : Text
  pub value : Text

-- `[A-Za-z_$]`
unfoldable pub is_name_start : ℕ → Bool
is_name_start c = (leb 65 c && leb c 90) || (leb 97 c && leb c 122) || c == 95 || c == 36

-- `[\w$-]`
unfoldable pub is_name_char : ℕ → Bool
unfolding is_name_start
is_name_char c = is_name_start c || (leb 48 c && leb c 57) || c == 45

abbrev pub starts_name : Text → Bool
starts_name [] = false
starts_name (c ∷ s) = is_name_start c

-- What follows a part of `payload.path`: the rest of its last segment, the segments after that one,
-- and the text behind them.
pub record Scanned : Type 0 where
  pub name : Text
  pub more : List Text
  pub rest : Text

-- `[\w$-]*(?:\.[A-Za-z_$][\w$-]*)*`: the classes are disjoint from what may follow, so that the
-- expression needs no backtracking.
unfoldable pub scan_path : Text → Scanned
unfolding is_name_char is_name_start
scan_path [] = record { name = []; more = []; rest = [] }
scan_path (c ∷ s) =
    let found = scan_path s in
    if is_name_char c
    then record found { name = c ∷ found.name }
    else if c == 46 && starts_name s
    then record found { name = []; more = found.name ∷ found.more }
    else record { name = []; more = []; rest = c ∷ s }

-- `(==|!=)`
unfoldable pub scan_operator : Text → Option (SmartFilterOperator × Text)
scan_operator (c ∷ d ∷ s) =
    if c == 61 && d == 61
    then some (SmartFilterOperator.equal, s)
    else if c == 33 && d == 61
    then some (SmartFilterOperator.different, s)
    else none
scan_operator _ = none

-- `"([^"]*)"$`, behind the first quote: what stands before the closing one.
unfoldable pub quoted : ℕ → Text → Option Text
quoted quote [] = none
quoted quote (c ∷ s) =
    let rest = quoted quote s in
    if c == quote
    then (if non_empty s then none else some [])
    else elim rest [ none ↦ none | some value ↦ some (c ∷ value) ]

-- `([^\s]+)$`
unfoldable pub bare : Text → Option Text
unfolding is_space
bare s = if truthy s && not (any is_space s) then some s else none

-- `(?:"([^"]*)"|'([^']*)'|([^\s]+))$`
unfoldable pub scan_value : Text → Option Text
unfolding bare quoted
scan_value [] = none
scan_value (c ∷ s) =
    if c == 34
    then elim (quoted 34 s) [ none ↦ bare (c ∷ s) | some value ↦ some value ]
    else if c == 39
    then elim (quoted 39 s) [ none ↦ bare (c ∷ s) | some value ↦ some value ]
    else bare (c ∷ s)

-- Behind the path: `\s*(==|!=)\s*` and the value.
unfoldable pub scan_comparison : Text → Option (SmartFilterOperator × Text)
unfolding scan_operator scan_value span is_space
scan_comparison s = elim (scan_operator (span is_space s).1) [
  | none ↦ none
  | some (operator, rest) ↦ elim (scan_value (span is_space rest).1) [
    | none ↦ none
    | some value ↦ some (operator, value)
  ]
]

unfoldable pub parse_smart_condition : Text → Option SmartFilterCondition
unfolding scan_path scan_comparison starts_with
parse_smart_condition expression =
    let found = scan_path (drop 7 expression) in
    if starts_with expression (lit "payload") && not (truthy found.name) && non_empty found.more
    then elim (scan_comparison found.rest) [
      | none ↦ none
      | some (operator, value) ↦ some (record {
        expected_value = value;
        operator = operator;
        path = found.more;
        source = expression;
      })
    ]
    else none

abbrev pub onto_first : Text → List Text → List Text
onto_first s [] = s ∷ []
onto_first s (t ∷ ts) = (s ++ t) ∷ ts

abbrev pub ampersand : Bool → Text
ampersand true = 38 ∷ []
ampersand false = []

-- `query.split(/\n|&&/g)`; the flag is set behind an `&` that has no partner yet.
unfoldable pub split_from : Bool → Text → List Text
split_from pending [] = ampersand pending ∷ []
split_from pending (c ∷ s) =
    let rest = split_from (c == 38 && not pending) s in
    if c == 10
    then ampersand pending ∷ rest
    else if c == 38
    then (if pending then [] ∷ rest else rest)
    else onto_first (ampersand pending ++ c ∷ []) rest

unfoldable pub expressions_of : Text → List Text
unfolding split_from trim
expressions_of query = filter truthy (map trim (split_from false query))

abbrev pub smart_issue : Text → FilterValidationIssue
smart_issue expression = record {
  field = FilterField.smart_query;
  message = lit "Use payload.path == \"value\" or payload.path != \"value\".";
  value = expression;
}

-- The loop over the expressions: the conditions, and the issues that it appends.
unfoldable pub compile_expressions :
    List Text → List SmartFilterCondition × List FilterValidationIssue
unfolding parse_smart_condition
compile_expressions [] = ([], [])
compile_expressions (expression ∷ rest) =
    let compiled = compile_expressions rest in
    elim (parse_smart_condition expression) [
      | some condition ↦ (condition ∷ compiled.0, compiled.1)
      | none ↦ (compiled.0, smart_issue expression ∷ compiled.1)
    ]

unfoldable pub compile_smart_conditions :
    Text → List SmartFilterCondition × List FilterValidationIssue
unfolding expressions_of compile_expressions
compile_smart_conditions query = compile_expressions (expressions_of query)
