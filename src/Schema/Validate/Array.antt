-- ===== src/Schema/Validate/Array.antt =====
-- The keywords of `SubsetValidator._validate` of pipeline/validate_json_suites.py for lists, texts
-- and numbers.
use growth_clockwork.Prelude.{
  ℕ, suc, String, Bool, true, false, not, Option, none, some, [], ◌∷◌, if◌then◌else◌, codes, length,
}
use growth_clockwork.Prelude.Int.{pos}
use growth_clockwork.Prelude.Fallible.{Fallible, done, failed, ◌>>=◌}
use growth_clockwork.Json.{Json, null, num, str, Items, nil, cons, Fields, get_field}
use growth_clockwork.Schema.{
  Fault, Place, type_error, refuse, Library, collect, when, is_greater, schema_path, item_path,
  is_rfc3339_datetime,
}
use growth_clockwork.Schema.Equal.{is_among}
use growth_clockwork.Schema.Check.{equals_text}
use growth_clockwork.Schema.Validate.Value.{error, Errors, Validator, report, has_no_error}
use growth_clockwork.Schema.Validate.Object.{is_true}

abbrev pub item_count : Items → ℕ
item_count nil = 0
item_count (cons v vs) = suc (item_count vs)

-- An error where the limit exceeds the value, and where the value exceeds the limit.
abbrev pub not_below : String → String → Place → Place → Json → Json → Fallible Fault Errors
not_below rule message ip sp v limit =
    is_greater limit v >>= λ low. report (not low) (error ip sp rule message (limit ∷ []))

abbrev pub not_above : String → String → Place → Place → Json → Json → Fallible Fault Errors
not_above rule message ip sp v limit =
    is_greater v limit >>= λ high. report (not high) (error ip sp rule message (limit ∷ []))

-- The first item that is among the items before it is the one reported.
unfoldable pub duplicate_error : Place → Place → ℕ → Items → Items → Errors
duplicate_error ip sp i priors nil = []
duplicate_error ip sp i priors (cons v vs) =
    let rest = duplicate_error ip sp (suc i) (cons v priors) vs in
    if is_among v priors
    then error ip sp "uniqueItems" "item at index {} is duplicated" (num (pos i) ∷ []) ∷ []
    else rest

unfoldable pub validate_unique : Items → Place → Place → Json → Fallible Fault Errors
unfolding duplicate_error
validate_unique vs ip sp v = if is_true v then done (duplicate_error ip sp 0 nil vs) else done []

unfoldable pub validate_items : Validator → Place → Place → ℕ → Items → Json → Fallible Fault Errors
validate_items step ip sp i nil sub = done []
validate_items step ip sp i (cons v vs) sub =
    collect (step v sub (item_path ip i) (schema_path sp "items"))
      (validate_items step ip sp (suc i) vs sub)

unfoldable pub count_matches : Validator → Place → Place → ℕ → Items → Json → Fallible Fault ℕ
count_matches step ip sp i nil sub = done 0
count_matches step ip sp i (cons v vs) sub =
    step v sub (item_path ip i) (schema_path sp "contains") >>= λ es.
    count_matches step ip sp (suc i) vs sub >>= λ n. done (if has_no_error es then suc n else n)

abbrev pub default_minimum : Option Json → Json
default_minimum none = num (pos 1)
default_minimum (some v) = v

-- `maximum is not None and matches > maximum`
abbrev pub above : Json → Option Json → Fallible Fault Bool
above v none = done false
above v (some null) = done false
above v (some limit) = is_greater v limit

unfoldable pub is_outside : Json → Json → Option Json → Fallible Fault Bool
is_outside v minimum maximum =
    is_greater minimum v >>= λ low. if low then done true else above v maximum

-- The values of the message are the two limits, `null` where there is no upper one, and the count.
unfoldable pub validate_contains :
    Validator → Items → Fields → Place → Place → Json → Fallible Fault Errors
unfolding count_matches is_outside
validate_contains step vs fs ip sp sub = count_matches step ip sp 0 vs sub >>= λ n.
    is_outside (num (pos n)) (default_minimum (get_field "minContains" fs))
      (get_field "maxContains" fs)
    >>= λ outside. report (not outside) (
        error ip sp "contains" "expected {} matching item(s), found {}" (
          default_minimum (get_field "minContains" fs)
          ∷ when (get_field "maxContains" fs) null (λ m. m)
          ∷ num (pos n)
          ∷ []))

-- The keywords that are read where the instance is a list.
unfoldable pub validate_array : Validator → Items → Fields → Place → Place → Fallible Fault Errors
unfolding validate_unique validate_items validate_contains
validate_array step vs fs ip sp =
    collect
      (when (get_field "minItems" fs) (done [])
        (not_below "minItems" "expected at least {} item(s)" ip sp (num (pos (item_count vs)))))
      (collect
        (when (get_field "maxItems" fs) (done [])
          (not_above "maxItems" "expected at most {} item(s)" ip sp (num (pos (item_count vs)))))
        (collect (when (get_field "uniqueItems" fs) (done []) (validate_unique vs ip sp)) (
          collect (when (get_field "items" fs) (done []) (validate_items step ip sp 0 vs))
            (when (get_field "contains" fs) (done []) (validate_contains step vs fs ip sp)))))

unfoldable pub validate_pattern : Library → String → Place → Place → Json → Fallible Fault Errors
validate_pattern lib s ip sp (str p) = elim (Library.search lib p) [
  | none ↦ refuse "invalid regular expression at {}/pattern" sp
  | some finds ↦ report (finds s) (error ip sp "pattern" "value does not match {}" (str p ∷ []))
]
validate_pattern lib s ip sp _ = failed type_error

unfoldable pub validate_format : Library → String → Place → Place → Json → Fallible Fault Errors
validate_format lib s ip sp v =
    if equals_text "date-time" v
    then report (is_rfc3339_datetime lib s)
        (error ip sp "format" "expected an RFC 3339 date-time with an explicit timezone" [])
    else refuse "unsupported format at {}" sp

-- The keywords that are read where the instance is a text.
unfoldable pub validate_string : Library → String → Fields → Place → Place → Fallible Fault Errors
unfolding validate_pattern validate_format
validate_string lib s fs ip sp =
    collect
      (when (get_field "minLength" fs) (done []) (
        not_below "minLength" "expected at least {} character(s)" ip sp
          (num (pos (length (codes s))))))
      (collect (when (get_field "pattern" fs) (done []) (validate_pattern lib s ip sp))
        (when (get_field "format" fs) (done []) (validate_format lib s ip sp)))

-- The keywords that are read where the instance is a number.
unfoldable pub validate_number : Json → Fields → Place → Place → Fallible Fault Errors
validate_number v fs ip sp =
    collect
      (when (get_field "minimum" fs) (done []) (not_below "minimum" "expected value >= {}" ip sp v))
      (when (get_field "maximum" fs) (done []) (not_above "maximum" "expected value <= {}" ip sp v))
