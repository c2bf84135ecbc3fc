-- ===== src/Schema/Decides/Object.antt =====
-- The keywords for objects of pipeline/validate_json_suites.py and what they mean.
use growth_clockwork.Prelude.{
  ◌≡◌, refl, ap, sym, ◌∙◌, String, Bool, true, false, not, ◌||◌, Option, none, some, List, [], ◌∷◌,
  arith, all, keep, distinct, sort_texts, sort_texts-none, distinct-none, map, Bool-cases, inl, inr,
}
use growth_clockwork.Prelude.Fallible.{done}
use growth_clockwork.Json.{
  Json, null, bool, num, str, arr, obj, Items, Fields, end, field, get_field, has_field, keys,
}
use growth_clockwork.Schema.{Place, texts_of, schema_path, property_path, ValidationError}
use growth_clockwork.Schema.Check.{
  Checker, check_keyword, check_required, check_properties, check_each_property,
}
use growth_clockwork.Schema.Validate.{
  Validator, has_no_error, missing_errors, validate_required, validate_each_property,
  validate_properties, validate_additional, validate_object, properties_of, unexpected, is_false,
  unexpected_error,
}
use growth_clockwork.Schema.Conforms.{
  Accepts, all_fields_accept, accepts_object, names_or_none, texts_in, items_of,
}
use growth_clockwork.Schema.Decides.{
  Decides, Agree, keyword-Decides, collect-Decides, done-Decides, found-Decides, both-done,
}

missing-none :
    (gs : Fields) (ip sp : Place) (names : List String)
    → has_no_error (missing_errors gs ip sp names) ≡ all (has_field gs) names
unfolding missing_errors
missing-none gs ip sp [] = refl
missing-none gs ip sp (n ∷ ns) = elim (Bool-cases (has_field gs n)) [
  | inl e ↦ ground (arith, missing-none gs ip sp ns)
  | inr e ↦ ground arith
]

required_names :
    (gs : Fields) (at ip sp : Place) (ns : Items) (o : Option (List String))
    → texts_of ns ≡ o
    → check_required at (arr ns) ≡ done tt
    → (names : List String) × (validate_required gs ip sp (arr ns)
        ≡ done (missing_errors gs ip sp names))
      × (o ≡ some names)
unfolding check_required validate_required
required_names gs at ip sp ns none e h = ground arith
required_names gs at ip sp ns (some names) e h = (names, ground arith, refl)

required-Decides :
    (gs : Fields) (at ip sp : Place) (v : Json)
    → check_required at v ≡ done tt
    → Decides (validate_required gs ip sp v) (all (has_field gs) (texts_in (items_of v)))
unfolding check_required
required-Decides gs at ip sp (arr ns) h =
    let (names, returns, e) = required_names gs at ip sp ns (texts_of ns) refl h in
    (
      missing_errors gs ip sp names,
      returns,
      missing-none gs ip sp names ∙ ap (λ o. all (has_field gs) (names_or_none o)) (sym e),
    )
required-Decides gs at ip sp _ h = ground arith

each_property-Decides :
    (chk : Checker) (val : Validator) (acc : Accepts)
    → Agree chk val acc
    → (gs : Fields) (at ip sp : Place) (ps : Fields) → check_each_property chk at ps ≡ done tt
    → Decides (validate_each_property val gs ip sp ps) (all_fields_accept acc gs ps)
unfolding check_each_property validate_each_property all_fields_accept
each_property-Decides chk val acc agree gs at ip sp end h = done-Decides
each_property-Decides chk val acc agree gs at ip sp (field name sub ps) h =
    let place = schema_path (schema_path at "properties") name in
    let (first, rest) = both-done (chk place sub) (check_each_property chk at ps) h in
    collect-Decides _ _ _ _
      (found-Decides (get_field name gs)
        (λ w. val w sub (property_path ip name) (schema_path (schema_path sp "properties") name))
        (λ w. acc w sub)
        (λ w e.
          agree sub place first w (property_path ip name)
            (schema_path (schema_path sp "properties") name)))
      (each_property-Decides chk val acc agree gs at ip sp ps rest)

properties-Decides :
    (chk : Checker) (val : Validator) (acc : Accepts)
    → Agree chk val acc
    → (gs : Fields) (at ip sp : Place) (v : Json) → check_properties chk at v ≡ done tt
    → Decides
        (validate_properties val gs ip sp v)
        (all_fields_accept acc gs (properties_of (some v)))
unfolding check_properties validate_properties
properties-Decides chk val acc agree gs at ip sp (obj ps) h =
    each_property-Decides chk val acc agree gs at ip sp ps h
properties-Decides chk val acc agree gs at ip sp _ h = ground arith

map-none :
    (f : String → ValidationError) (names : List String)
    → has_no_error (map f names) ≡ true
    → names ≡ []
map-none f [] h = refl
map-none f (n ∷ ns) h = ground arith

kept-all :
    (f : String → Bool) (names : List String)
    → keep (λ n. not (f n)) names ≡ []
    → all f names ≡ true
unfolding keep
kept-all f [] h = refl
kept-all f (n ∷ ns) h = ground (arith, kept-all f ns)

all-kept :
    (f : String → Bool) (names : List String)
    → all f names ≡ true
    → keep (λ n. not (f n)) names ≡ []
unfolding keep
all-kept f [] h = refl
all-kept f (n ∷ ns) h = ground (arith, all-kept f ns)

unexpected-all : (gs ps : Fields) → unexpected gs ps ≡ [] → all (has_field ps) (keys gs) ≡ true
unfolding unexpected
unexpected-all gs ps h = kept-all (has_field ps) (keys gs) (
    distinct-none (keep (λ n. not (has_field ps n)) (keys gs))
      (sort_texts-none (distinct (keep (λ n. not (has_field ps n)) (keys gs))) h))

all-unexpected : (gs ps : Fields) → all (has_field ps) (keys gs) ≡ true → unexpected gs ps ≡ []
unfolding unexpected distinct sort_texts
all-unexpected gs ps h =
    ap (λ (ns : List String). sort_texts (distinct ns)) (all-kept (has_field ps) (keys gs) h)

Bool-same : (a b : Bool) → (a ≡ true → b ≡ true) → (b ≡ true → a ≡ true) → a ≡ b
Bool-same true b f g = sym (f refl)
Bool-same false true f g = g refl
Bool-same false false f g = refl

unexpected-none :
    (gs ps : Fields) (ip sp : Place)
    → has_no_error (map (unexpected_error ip sp) (unexpected gs ps)) ≡ all (has_field ps) (keys gs)
unexpected-none gs ps ip sp =
    Bool-same (has_no_error (map (unexpected_error ip sp) (unexpected gs ps)))
      (all (has_field ps) (keys gs))
      (λ h. unexpected-all gs ps (map-none (unexpected_error ip sp) (unexpected gs ps) h))
      (λ h. ap (λ ns. has_no_error (map (unexpected_error ip sp) ns)) (all-unexpected gs ps h))

additional-Decides :
    (gs ps : Fields) (ip sp : Place) (v : Json)
    → Decides (validate_additional gs ps ip sp v) (not (is_false v) || all (has_field ps) (keys gs))
unfolding validate_additional
additional-Decides gs ps ip sp (bool false) =
    (map (unexpected_error ip sp) (unexpected gs ps), refl, unexpected-none gs ps ip sp)
additional-Decides gs ps ip sp (bool true) = done-Decides
additional-Decides gs ps ip sp null = done-Decides
additional-Decides gs ps ip sp (num n) = done-Decides
additional-Decides gs ps ip sp (str s) = done-Decides
additional-Decides gs ps ip sp (arr vs) = done-Decides
additional-Decides gs ps ip sp (obj fs) = done-Decides

pub object-Decides :
    (chk : Checker) (val : Validator) (acc : Accepts)
    → Agree chk val acc
    → (at : Place) (gs fs : Fields) (ip sp : Place)
    → check_keyword "required" fs (check_required at) ≡ done tt
    → check_keyword "properties" fs (check_properties chk at) ≡ done tt
    → Decides (validate_object val gs fs ip sp) (accepts_object acc gs fs)
unfolding validate_object accepts_object
object-Decides chk val acc agree at gs fs ip sp required properties =
    let ps = properties_of (get_field "properties" fs) in
    collect-Decides _ _ _ _
      (keyword-Decides "required" fs (check_required at) (validate_required gs ip sp)
        (λ v. all (has_field gs) (texts_in (items_of v))) required
        (λ v h. required-Decides gs at ip sp v h))
      (collect-Decides _ _ _ _
        (keyword-Decides "properties" fs (check_properties chk at)
          (validate_properties val gs ip sp)
          (λ v. all_fields_accept acc gs (properties_of (some v))) properties
          (λ v h. properties-Decides chk val acc agree gs at ip sp v h))
        (found-Decides (get_field "additionalProperties" fs) (validate_additional gs ps ip sp)
          (λ v. not (is_false v) || all (has_field ps) (keys gs))
          (λ v e. additional-Decides gs ps ip sp v)))
