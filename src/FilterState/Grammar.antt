-- ===== src/FilterState/Grammar.antt =====
-- The grammar of smart conditions in apps/desktop/src/models/filter-state.ts:
-- `payload.path == value`, with white space around the operator and a value that may be quoted.
use socketlens.Common.{
  ℕ, ◌≡◌, refl, ap, List, [], ◌∷◌, ◌++◌, some, true, false, arith, Text, lit, is_space, any,
  starts_with, NoSpace, All, ◌==◌,
}
use socketlens.Environment.{span}
use socketlens.FilterState.Conditions.{
  SmartFilterOperator, operator_word, is_name_char, is_name_start, starts_name, scan_path,
  scan_operator, quoted, bare, scan_value, scan_comparison, parse_smart_condition,
}
use mathlib.Core.List.{append_assoc, append-nil}

abbrev pub IsName : Text → Type 0
IsName name = (starts_name name ≡ true) × All (λ c. is_name_char c ≡ true) name

abbrev pub dotted : List Text → Text
dotted [] = []
dotted (name ∷ path) = 46 ∷ (name ++ dotted path)

pub data Quoting : Type 0 where
  double single unquoted : Quoting

abbrev pub written : Quoting → Text → Text
written Quoting.double value = 34 ∷ (value ++ 34 ∷ [])
written Quoting.single value = 39 ∷ (value ++ 39 ∷ [])
written Quoting.unquoted value = value

-- A text that is written without quotes has no space, and does not begin with a quote.
abbrev pub CanWrite : Quoting → Text → Type 0
CanWrite Quoting.double value = All (λ c. (c == 34) ≡ false) value
CanWrite Quoting.single value = All (λ c. (c == 39) ≡ false) value
CanWrite Quoting.unquoted [] = ⊥
CanWrite Quoting.unquoted (c ∷ s) = NoSpace (c ∷ s) × ((c == 34) ≡ false) × ((c == 39) ≡ false)

abbrev pub Blanks : Text → Type 0
Blanks = All (λ c. is_space c ≡ true)

-- The text does not go on with a path.
abbrev Stops : Text → Type 0
Stops [] = Unit
Stops (c ∷ s) = (is_name_char c ≡ false) × ((c == 46) ≡ false)

abbrev Starts : Text → Type 0
Starts [] = Unit
Starts (c ∷ s) = is_space c ≡ false

scan_path-name :
    (name rest : Text)
    → All (λ c. is_name_char c ≡ true) name
    → scan_path (name ++ rest) ≡ record (scan_path rest) { name = name ++ (scan_path rest).name }
unfolding scan_path
scan_path-name [] rest h = refl
scan_path-name (c ∷ name) rest h = rw (h.0, scan_path-name name rest h.1)

starts_name-append :
    (name rest : Text) → starts_name name ≡ true → starts_name (name ++ rest) ≡ true
starts_name-append [] rest h = cc
starts_name-append (c ∷ name) rest h = h

scan_path-Stops :
    (rest : Text) → Stops rest → scan_path rest ≡ record { name = []; more = []; rest = rest }
unfolding scan_path
scan_path-Stops [] h = refl
scan_path-Stops (c ∷ s) h = rw (h.0, h.1)

scan_path-dotted :
    (path : List Text) (rest : Text)
    → All IsName path
    → Stops rest
    → scan_path (dotted path ++ rest) ≡ record { name = []; more = path; rest = rest }
unfolding scan_path
scan_path-dotted [] rest h k = scan_path-Stops rest k
scan_path-dotted (name ∷ path) rest h k = rw (append_assoc name (dotted path) rest) (
    rw
      (
        starts_name-append name (dotted path ++ rest) h.0.0,
        scan_path-name name (dotted path ++ rest) h.0.1,
        scan_path-dotted path rest h.1 k,
      )
      (ap (λ n. record { name = []; more = n ∷ path; rest = rest }) (append-nil name)))

span-Blanks :
    (blank rest : Text) → Blanks blank → Starts rest → span is_space (blank ++ rest) ≡ (blank, rest)
unfolding span
span-Blanks [] [] h k = refl
span-Blanks [] (c ∷ rest) h k = rw k
span-Blanks (c ∷ blank) rest h k = rw (h.0, span-Blanks blank rest h.1 k)

quoted-value :
    (quote : ℕ) (value : Text)
    → All (λ c. (c == quote) ≡ false) value
    → quoted quote (value ++ quote ∷ []) ≡ some value
unfolding quoted
quoted-value quote [] h = ground arith
quoted-value quote (c ∷ value) h = rw (h.0, quoted-value quote value h.1)

any-NoSpace : (s : Text) → NoSpace s → any is_space s ≡ false
any-NoSpace [] h = refl
any-NoSpace (c ∷ s) h = rw (h.0) (any-NoSpace s h.1)

scan_value-written :
    (q : Quoting) (value : Text) → CanWrite q value → scan_value (written q value) ≡ some value
unfolding scan_value bare
scan_value-written Quoting.double value h = rw (quoted-value 34 value h)
scan_value-written Quoting.single value h = rw (quoted-value 39 value h)
scan_value-written Quoting.unquoted [] h = absurd h
scan_value-written Quoting.unquoted (c ∷ s) h = rw (h.1, h.2, any-NoSpace (c ∷ s) h.0)

written-Starts : (q : Quoting) (value : Text) → CanWrite q value → Starts (written q value)
unfolding is_space
written-Starts Quoting.double value h = refl
written-Starts Quoting.single value h = refl
written-Starts Quoting.unquoted [] h = tt
written-Starts Quoting.unquoted (c ∷ s) h = h.0.0

abbrev comparison : Text → SmartFilterOperator → Text → Text → Text
comparison before operator after value = before ++ (operator_word operator ++ (after ++ value))

operator-Starts :
    (operator : SmartFilterOperator) (rest : Text) → Starts (operator_word operator ++ rest)
unfolding is_space
operator-Starts SmartFilterOperator.equal rest = refl
operator-Starts SmartFilterOperator.different rest = refl

scan_operator-word :
    (operator : SmartFilterOperator) (rest : Text)
    → scan_operator (operator_word operator ++ rest) ≡ some (operator, rest)
unfolding scan_operator
scan_operator-word SmartFilterOperator.equal rest = refl
scan_operator-word SmartFilterOperator.different rest = refl

scan_comparison-written :
    (before after : Text) (operator : SmartFilterOperator) (q : Quoting) (value : Text)
    → Blanks before
    → Blanks after
    → CanWrite q value
    → scan_comparison (comparison before operator after (written q value)) ≡ some (operator, value)
unfolding scan_comparison
scan_comparison-written before after operator q value h k w = rw (
  span-Blanks before (operator_word operator ++ (after ++ written q value)) h
      (operator-Starts operator (after ++ written q value)),
  scan_operator-word operator (after ++ written q value),
  span-Blanks after (written q value) k (written-Starts q value w),
  scan_value-written q value w,
  scan_comparison,
)

space-Stops : (c : ℕ) → is_space c ≡ true → (is_name_char c ≡ false) × ((c == 46) ≡ false)
unfolding is_name_char is_name_start is_space
space-Stops c h = (ground arith, ground arith)

comparison-Stops :
    (before after value : Text) (operator : SmartFilterOperator)
    → Blanks before
    → Stops (comparison before operator after value)
unfolding is_name_char is_name_start is_space
comparison-Stops [] after value SmartFilterOperator.equal h = (refl, refl)
comparison-Stops [] after value SmartFilterOperator.different h = (refl, refl)
comparison-Stops (c ∷ before) after value operator h = space-Stops c h.0

-- A text in the grammar, which names at least one field, is read as the condition that it writes.
pub parse-written :
    (name : Text) (path : List Text) (before after : Text) (operator : SmartFilterOperator)
    (q : Quoting) (value : Text)
    → All IsName (name ∷ path)
    → Blanks before
    → Blanks after
    → CanWrite q value
    → let source =
        lit "payload"
        ++ (dotted (name ∷ path)
            ++ (before ++ (operator_word operator ++ (after ++ written q value)))) in
      parse_smart_condition source
      ≡ some (record {
        expected_value = value;
        operator = operator;
        path = name ∷ path;
        source = source;
      })
unfolding parse_smart_condition starts_with
parse-written name path before after operator q value n h k w =
    let behind = comparison before operator after (written q value) in
    let source = lit "payload" ++ (dotted (name ∷ path) ++ behind) in
    let found =
      scan_path-dotted (name ∷ path) behind n
        (comparison-Stops before after (written q value) operator h) in
    rw (found, scan_comparison-written before after operator q value h k w, parse_smart_condition)
      (ap
        (λ p.
          some (record { expected_value = value; operator = operator; path = p; source = source }))
        (ap (λ scanned. scanned.more) found))
