-- ===== src/Schema.antt =====
-- The JSON Schema subset of pipeline/validate_json_suites.py: its vocabulary, its exceptions, the
-- paths that it reports, and the reading of a schema's keywords. `Check` is the check of a schema,
-- `Validate` the validation of an instance.
pub mod Equal
pub mod Check
pub mod Validate
pub mod Conforms
pub mod Depth
pub mod Decides
pub mod Settles
pub mod Terminates
pub mod Examples
use growth_clockwork.Prelude.{
  ℕ, zero, suc, ◌+◌, ◌*◌, ◌-◌, ◌/◌, ◌%◌, String, Bool, true, false, not, ◌&&◌, ◌||◌, Option, none,
  some, List, [], ◌∷◌, ◌++◌, all, codes, keep, distinct, is_in, sort_texts, ltb, leb, ◌==◌,
  if◌then◌else◌, map, length,
}
use growth_clockwork.Prelude.Int.{ℤ, pos, negsuc, pos_part, neg_part, ltb_ℤ}
use growth_clockwork.Prelude.Fallible.{Fallible, done, failed, ◌>>=◌}
use growth_clockwork.Json.{
  Json, null, bool, num, str, arr, obj, Items, nil, cons, Fields, end, field, get_field, keys,
}
use growth_clockwork.Json.Canonical.{print_int}

-- `ANNOTATION_KEYWORDS`
abbrev pub annotation_keywords : List String
annotation_keywords = "$id" ∷ "$schema" ∷ "description" ∷ "title" ∷ []

-- `ASSERTION_KEYWORDS`
abbrev pub assertion_keywords : List String
assertion_keywords =
    "additionalProperties" ∷ "allOf" ∷ "const" ∷ "contains" ∷ "else" ∷ "enum" ∷ "format" ∷ "if"
    ∷ "items" ∷ "maxContains" ∷ "maximum" ∷ "maxItems" ∷ "minContains" ∷ "minimum" ∷ "minItems"
    ∷ "minLength" ∷ "oneOf" ∷ "pattern" ∷ "properties" ∷ "required" ∷ "then" ∷ "type"
    ∷ "uniqueItems" ∷ []

-- `SUPPORTED_KEYWORDS`
abbrev pub supported_keywords : List String
supported_keywords = annotation_keywords ++ assertion_keywords

-- `SUPPORTED_SCHEMA_URI`
abbrev pub supported_uri : String
supported_uri = "https://json-schema.org/draft/2020-12/schema"

-- `SUPPORTED_JSON_TYPES`
abbrev pub supported_types : List String
supported_types = "array" ∷ "boolean" ∷ "integer" ∷ "null" ∷ "number" ∷ "object" ∷ "string" ∷ []

-- A place in a schema or an instance, as the code points of the text.
abbrev pub Place : Type 0
Place = List ℕ

-- How the code stops: a `SuiteConfigurationError` (its text without the value that some texts end
-- in, the names put in it, the place), a
-- `TypeError` or `AttributeError` on a value of the wrong type, the `OverflowError` of `math.isfinite`, or, in the model
-- only, no fuel.
pub data Fault : Type 0 where
  config : String → List String → Place → Fault
  type_error : Fault
  overflow : Fault
  out_of_fuel : Fault

-- The code's `raise SuiteConfigurationError`.
abbrev pub refuse : {A : Type 0} → String → Place → Fallible Fault A
refuse what at = failed (config what [] at)

-- A `ValidationError`; the message is its text with `{}` where the values stand.
pub record ValidationError : Type 0 where
  pub instance_path : Place
  pub schema_path : Place
  pub rule : String
  pub message : String
  pub values : List Json

-- What the code takes from `re` (a pattern that does not compile is an error) and from `datetime`
-- (`fromisoformat` with, where it parses, whether the result has a timezone).
pub record Library : Type 0 where
  pub search : String → Option (String → Bool)
  pub fromisoformat : List ℕ → Option Bool

-- A list that may be cut off by an exception is put before another one.
abbrev pub collect :
    {A : Type 0} → Fallible Fault (List A) → Fallible Fault (List A) → Fallible Fault (List A)
collect m n = m >>= λ xs. n >>= λ ys. done (xs ++ ys)

-- `schema.get(keyword)` and what the code does where it is there.
abbrev pub when : {A : Type 0} → Option Json → A → (Json → A) → A
when none other f = other
when (some v) other f = f v

abbrev pub is_present : Option Json → Bool
is_present none = false
is_present (some v) = true

-- A list of texts, or `none` where some entry is not a text.
abbrev pub texts_of : Items → Option (List String)
texts_of nil = some []
texts_of (cons v vs) = elim v [
  | str s ↦ elim (texts_of vs) [ none ↦ none | some ss ↦ some (s ∷ ss) ]
  | _ ↦ none
]

-- `expected if isinstance(expected, list) else [expected]`
abbrev pub as_items : Json → Items
as_items (arr vs) = vs
as_items v = cons v nil

abbrev pub has_no_duplicates : List String → Bool
has_no_duplicates [] = true
has_no_duplicates (x ∷ xs) = not (is_in x xs) && has_no_duplicates xs

-- A value as an operand of `<` and `>` beside a number.
abbrev pub number_of : Json → Fallible Fault ℤ
number_of (num n) = done n
number_of (bool true) = done (pos 1)
number_of (bool false) = done (pos 0)
number_of _ = failed type_error

-- `a > b`
unfoldable pub is_greater : Json → Json → Fallible Fault Bool
is_greater a b = number_of a >>= λ m. number_of b >>= λ n. done (ltb_ℤ n m)

-- `_schema_path`
unfoldable pub schema_path : Place → String → Place
schema_path base name = base ++ b'/' ∷ codes name

-- `_schema_path`, for the index of a list.
unfoldable pub schema_index : Place → ℕ → Place
unfolding print_int
schema_index base i = base ++ b'/' ∷ print_int (pos i)

abbrev is_word_start : ℕ → Bool
is_word_start c = (leb b'A' c && leb c b'Z') || ((leb b'a' c && leb c b'z') || c == b'_')

abbrev is_word_char : ℕ → Bool
is_word_char c = is_word_start c || (leb b'0' c && leb c b'9')

-- `re.fullmatch(r"[A-Za-z_][A-Za-z0-9_]*", name)`
abbrev is_word : List ℕ → Bool
is_word [] = false
is_word (c ∷ cs) = is_word_start c && all is_word_char cs

abbrev hex_code : ℕ → ℕ
hex_code d = if ltb d 10 then 48 + d else 87 + d

-- One character of `json.dumps(name, ensure_ascii=False)`.
unfoldable pub quote_char : ℕ → List ℕ
quote_char c =
    if c == 34
    then 92 ∷ 34 ∷ []
    else if c == 92
    then 92 ∷ 92 ∷ []
    else if c == 10
    then 92 ∷ b'n' ∷ []
    else if c == 13
    then 92 ∷ b'r' ∷ []
    else if c == 9
    then 92 ∷ b't' ∷ []
    else if c == 8
    then 92 ∷ b'b' ∷ []
    else if c == 12
    then 92 ∷ b'f' ∷ []
    else if ltb c 32
    then 92 ∷ b'u' ∷ b'0' ∷ b'0' ∷ hex_code (c / 16) ∷ hex_code (c % 16) ∷ []
    else c ∷ []

unfoldable pub quote_chars : List ℕ → List ℕ
unfolding quote_char
quote_chars [] = []
quote_chars (c ∷ cs) = quote_char c ++ quote_chars cs

-- `_property_path`
unfoldable pub property_path : Place → String → Place
unfolding quote_chars
property_path base name =
    if is_word (codes name)
    then base ++ b'.' ∷ codes name
    else base ++ b'[' ∷ 34 ∷ (quote_chars (codes name) ++ 34 ∷ b']' ∷ [])

-- `f"{instance_path}[{index}]"`
unfoldable pub item_path : Place → ℕ → Place
unfolding print_int
item_path base i = base ++ b'[' ∷ (print_int (pos i) ++ b']' ∷ [])

-- `_is_nonnegative_integer`
abbrev pub is_nonnegative_integer : Json → Bool
is_nonnegative_integer (num (pos n)) = true
is_nonnegative_integer _ = false

abbrev power2 : ℕ → ℕ
power2 zero = 1
power2 (suc n) = 2 * power2 n

-- The integers that round to no float: `math.isfinite` raises on them.
unfoldable pub is_too_large : ℤ → Bool
is_too_large n = leb (power2 970 * (power2 54 - 1)) (pos_part n + neg_part n)

-- `_is_finite_number`
unfoldable pub is_finite_number : Json → Fallible Fault Bool
is_finite_number (num n) = if is_too_large n then failed overflow else done true
is_finite_number _ = done false

-- `value[:-1] + "+00:00" if value.endswith("Z") else value`
abbrev pub without_zulu : List ℕ → List ℕ
without_zulu [] = []
without_zulu (c ∷ []) = if c == b'Z' then codes "+00:00" else c ∷ []
without_zulu (c ∷ d ∷ cs) = c ∷ without_zulu (d ∷ cs)

-- `_is_rfc3339_datetime`
unfoldable pub is_rfc3339_datetime : Library → String → Bool
is_rfc3339_datetime lib value = elim (Library.fromisoformat lib (without_zulu (codes value))) [
  | none ↦ false
  | some has_timezone ↦ has_timezone
]
