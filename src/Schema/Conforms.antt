-- ===== src/Schema/Conforms.antt =====
-- What a schema of pipeline/validate_json_suites.py means: whether a value conforms to it, with no
-- errors collected, no places and no exceptions. It is the specification of the validator.
use growth_clockwork.Prelude.{
  ℕ, zero, suc, String, Bool, true, false, not, ◌&&◌, ◌||◌, Option, none, some, List, [], ◌==◌,
  str_eq, any, all, if◌then◌else◌, codes, length,
}
use growth_clockwork.Prelude.Int.{ℤ, pos, ltb_ℤ}
use growth_clockwork.Json.{
  Json, null, bool, num, str, arr, obj, Items, nil, cons, Fields, end, field, get_field, has_field,
  keys,
}
use growth_clockwork.Schema.{Library, when, texts_of, as_items, is_rfc3339_datetime}
use growth_clockwork.Schema.Equal.{json_equal, is_among}
use growth_clockwork.Schema.Validate.{is_true, is_false, item_count, properties_of, selected}

-- Whether an instance (first) conforms to a schema.
abbrev pub Accepts : Type 0
Accepts = Json → Json → Bool

-- A keyword that the schema does not have asks nothing.
abbrev pub asks : String → Fields → (Json → Bool) → Bool
asks k fs f = when (get_field k fs) true f

-- An instance is of a type. A name that is no type has no instances.
unfoldable pub is_of_type : Json → String → Bool
is_of_type null t = str_eq t "null"
is_of_type (bool b) t = str_eq t "boolean"
is_of_type (num n) t = str_eq t "number" || str_eq t "integer"
is_of_type (str s) t = str_eq t "string"
is_of_type (arr vs) t = str_eq t "array"
is_of_type (obj fs) t = str_eq t "object"

abbrev pub names_or_none : Option (List String) → List String
names_or_none none = []
names_or_none (some names) = names

abbrev pub texts_in : Items → List String
texts_in vs = names_or_none (texts_of vs)

unfoldable pub has_type : Json → Json → Bool
unfolding is_of_type
has_type v expected = any (is_of_type v) (texts_in (as_items expected))

-- The number that a limit is.
abbrev pub limit_of : Json → ℤ
limit_of (num n) = n
limit_of _ = pos 0

abbrev pub reaches : ℤ → Json → Bool
reaches n limit = not (ltb_ℤ n (limit_of limit))

abbrev pub keeps_to : ℤ → Json → Bool
keeps_to n limit = not (ltb_ℤ (limit_of limit) n)

abbrev pub items_of : Json → Items
items_of (arr vs) = vs
items_of _ = nil

unfoldable pub all_fields_accept : Accepts → Fields → Fields → Bool
all_fields_accept acc gs end = true
all_fields_accept acc gs (field name sub ps) =
    when (get_field name gs) true (λ w. acc w sub) && all_fields_accept acc gs ps

unfoldable pub accepts_object : Accepts → Fields → Fields → Bool
unfolding all_fields_accept
accepts_object acc gs fs =
    asks "required" fs (λ v. all (has_field gs) (texts_in (items_of v)))
    && (asks "properties" fs (λ v. all_fields_accept acc gs (properties_of (some v)))
        && asks "additionalProperties" fs (λ v.
          not (is_false v)
          || all (has_field (properties_of (get_field "properties" fs))) (keys gs)))

unfoldable pub are_distinct : Items → Items → Bool
are_distinct priors nil = true
are_distinct priors (cons v vs) = not (is_among v priors) && are_distinct (cons v priors) vs

unfoldable pub all_items_accept : Accepts → Items → Json → Bool
all_items_accept acc nil sub = true
all_items_accept acc (cons v vs) sub = acc v sub && all_items_accept acc vs sub

unfoldable pub count_accepted : Accepts → Items → Json → ℕ
count_accepted acc nil sub = 0
count_accepted acc (cons v vs) sub =
    let n = count_accepted acc vs sub in if acc v sub then suc n else n

abbrev pub minimum_matches : Option Json → ℤ
minimum_matches none = pos 1
minimum_matches (some v) = limit_of v

unfoldable pub accepts_array : Accepts → Items → Fields → Bool
unfolding are_distinct all_items_accept count_accepted
accepts_array acc vs fs =
    asks "minItems" fs (reaches (pos (item_count vs)))
    && (asks "maxItems" fs (keeps_to (pos (item_count vs)))
        && (asks "uniqueItems" fs (λ v. not (is_true v) || are_distinct nil vs)
            && (asks "items" fs (all_items_accept acc vs)
                && asks "contains" fs (λ sub.
                  not (
                    ltb_ℤ (pos (count_accepted acc vs sub))
                      (minimum_matches (get_field "minContains" fs)))
                  && asks "maxContains" fs (keeps_to (pos (count_accepted acc vs sub)))))))

unfoldable pub finds : Library → String → Json → Bool
finds lib s (str p) = elim (Library.search lib p) [ none ↦ false | some match ↦ match s ]
finds lib s _ = false

unfoldable pub accepts_string : Library → String → Fields → Bool
unfolding finds
accepts_string lib s fs =
    asks "minLength" fs (reaches (pos (length (codes s))))
    && (asks "pattern" fs (finds lib s) && asks "format" fs (λ v. is_rfc3339_datetime lib s))

unfoldable pub accepts_number : ℤ → Fields → Bool
accepts_number n fs = asks "minimum" fs (reaches n) && asks "maximum" fs (keeps_to n)

unfoldable pub accepts_kind : Library → Accepts → Json → Fields → Bool
unfolding accepts_object accepts_array accepts_string accepts_number
accepts_kind lib acc (obj gs) fs = accepts_object acc gs fs
accepts_kind lib acc (arr vs) fs = accepts_array acc vs fs
accepts_kind lib acc (str s) fs = accepts_string lib s fs
accepts_kind lib acc (num n) fs = accepts_number n fs
accepts_kind lib acc _ fs = true

unfoldable pub accepts_value : Json → Fields → Bool
unfolding has_type
accepts_value v fs =
    asks "type" fs (has_type v)
    && (asks "const" fs (json_equal v) && asks "enum" fs (λ choices. is_among v (items_of choices)))

unfoldable pub all_branches_accept : Accepts → Json → Items → Bool
all_branches_accept acc v nil = true
all_branches_accept acc v (cons sub subs) = acc v sub && all_branches_accept acc v subs

unfoldable pub count_accepting : Accepts → Json → Items → ℕ
count_accepting acc v nil = 0
count_accepting acc v (cons sub subs) =
    let n = count_accepting acc v subs in if acc v sub then suc n else n

unfoldable pub accepts_branches : Accepts → Json → Fields → Bool
unfolding all_branches_accept count_accepting
accepts_branches acc v fs =
    asks "allOf" fs (λ subs. all_branches_accept acc v (items_of subs))
    && (asks "oneOf" fs (λ subs. count_accepting acc v (items_of subs) == 1)
        && asks "if" fs (λ sub. asks (selected (acc v sub)) fs (acc v)))

unfoldable pub accepts_node : Library → Accepts → Accepts
unfolding accepts_value accepts_kind accepts_branches
accepts_node lib acc v (bool b) = b
accepts_node lib acc v (obj fs) =
    accepts_value v fs && (accepts_kind lib acc v fs && accepts_branches acc v fs)
accepts_node lib acc v _ = false

-- Schemas deeper than the fuel accept nothing.
unfoldable pub conforms : Library → ℕ → Accepts
unfolding accepts_node
conforms lib zero v s = false
conforms lib (suc f) v s = accepts_node lib (conforms lib f) v s
