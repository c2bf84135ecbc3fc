-- ===== src/Schema/Settles.antt =====
-- How the checks of single keywords of pipeline/validate_json_suites.py end.
use growth_clockwork.Prelude.{
  ◌≡◌, refl, String, Bool, true, false, Option, none, some, List, [], ◌∷◌, arith, Option-cases, inl,
  inr,
}
use growth_clockwork.Prelude.Fallible.{done, failed, ◌>>=◌, ◌>>◌, check}
use growth_clockwork.Json.{Json, bool, num, str, arr, Items, nil, cons, Fields, get_field}
use growth_clockwork.Schema.{
  Place, config, out_of_fuel, Library, when, texts_of, as_items, is_greater, number_of,
  is_finite_number, supported_types,
}
use growth_clockwork.Schema.Check.{
  Checked, check_keyword, check_type_names, check_type, check_required, check_choices, check_enum,
  check_counts, check_count, check_order, check_count_limits, check_range, check_bound,
  check_pattern, check_annotations, refuse_names, unlisted,
}

abbrev pub Settles : Checked → Type 0
Settles m = m ≡ failed out_of_fuel → ⊥

pub then-Settles : (m n : Checked) → Settles m → Settles n → Settles (m >> n)
then-Settles (done tt) n f g h = g h
then-Settles (failed e) n f g h = f (ground arith)

pub check-Settles :
    (b : Bool) (what : String) (names : List String) (at : Place)
    → Settles (check b (config what names at))
check-Settles true what names at h = ground arith
check-Settles false what names at h = ground arith

pub keyword-Settles :
    (k : String) (fs : Fields) (f : Json → Checked)
    → ((v : Json) → get_field k fs ≡ some v → Settles (f v))
    → Settles (check_keyword k fs f)
keyword-Settles k fs f each = found (get_field k fs) f each
  where
    found :
        (o : Option Json) (f : Json → Checked)
        → ((v : Json) → o ≡ some v → Settles (f v))
        → Settles (when o (done tt) f)
    found none f each h = ground arith
    found (some v) f each h = each v refl h

pub names-Settles :
    (what : String) (at : Place) (ns : List String) → Settles (refuse_names what at ns)
names-Settles what at [] h = ground arith
names-Settles what at (n ∷ ns) h = ground arith

pub annotations-Settles : (at : Place) (fs : Fields) → Settles (check_annotations at fs)
unfolding check_annotations
annotations-Settles at fs =
    then-Settles _ _
      (then-Settles _ _
        (then-Settles _ _
          (then-Settles _ _ (keyword-Settles "$schema" fs _ (λ v e. check-Settles _ _ _ at))
            (keyword-Settles "$id" fs _ (λ v e. check-Settles _ _ _ at)))
          (keyword-Settles "title" fs _ (λ v e. check-Settles _ _ _ at)))
        (keyword-Settles "description" fs _ (λ v e. check-Settles _ _ _ at)))
      (keyword-Settles "$id" fs _ (λ v e. check-Settles _ _ _ at))

pub type_names-Settles : (at : Place) (ts : List String) → Settles (check_type_names at ts)
type_names-Settles at [] h = ground arith
type_names-Settles at (t ∷ ts) h =
    then-Settles _ _ (check-Settles _ _ _ at)
      (names-Settles "unsupported JSON Schema type(s) at {}" at (unlisted supported_types (t ∷ ts)))
      h

pub type-Settles : (at : Place) (v : Json) → Settles (check_type at v)
unfolding check_type
type-Settles at v h = elim (Option-cases (texts_of (as_items v))) [
  | inl e ↦ ground arith
  | inr (ts, e) ↦ type_names-Settles at ts (ground arith)
]

pub required-Settles : (at : Place) (v : Json) → Settles (check_required at v)
unfolding check_required
required-Settles at (arr ns) h = elim (Option-cases (texts_of ns)) [
  | inl e ↦ ground arith
  | inr (ts, e) ↦ ground arith
]
required-Settles at _ h = ground arith

pub choices-Settles : (at : Place) (priors vs : Items) → Settles (check_choices at priors vs)
unfolding check_choices
choices-Settles at priors nil h = ground arith
choices-Settles at priors (cons v vs) h =
    then-Settles _ _ (check-Settles _ _ _ at) (choices-Settles at (cons v priors) vs) h

pub enum-Settles : (at : Place) (v : Json) → Settles (check_enum at v)
unfolding check_enum
enum-Settles at (arr (cons v vs)) h = choices-Settles at nil (cons v vs) h
enum-Settles at _ h = ground arith

-- What a comparison raises is a `TypeError`.
number_of-outcome : (v : Json) → number_of v ≡ failed out_of_fuel → ⊥
number_of-outcome (bool true) h = ground arith
number_of-outcome (bool false) h = ground arith
number_of-outcome _ h = ground arith

is_greater-outcome : (a b : Json) → is_greater a b ≡ failed out_of_fuel → ⊥
unfolding is_greater
is_greater-outcome a b h = ground (arith, number_of-outcome a, number_of-outcome b)

pub order-Settles :
    (what : String) (at : Place) (low high : Option Json) → Settles (check_order what at low high)
unfolding check_order
order-Settles what at (some low) (some high) h = ground (arith, is_greater-outcome low high)
order-Settles what at (some low) none h = ground arith
order-Settles what at none high h = ground arith

pub counts-Settles : (at : Place) (fs : Fields) → Settles (check_counts at fs)
unfolding check_counts
counts-Settles at fs =
    then-Settles _ _
      (then-Settles _ _
        (then-Settles _ _ (then-Settles _ _ (count "minLength") (count "minItems"))
          (count "maxItems"))
        (count "minContains"))
      (count "maxContains")
  where
    count : (k : String) → Settles (check_count at fs k)
    count k = keyword-Settles k fs _ (λ v e. check-Settles _ _ _ at)

pub limits-Settles : (at : Place) (fs : Fields) → Settles (check_count_limits at fs)
unfolding check_count_limits
limits-Settles at fs =
    then-Settles _ _
      (then-Settles _ _ (order-Settles _ at (get_field "minItems" fs) (get_field "maxItems" fs))
        (check-Settles _ _ _ at))
      (order-Settles _ at (get_field "minContains" fs) (get_field "maxContains" fs))

pub finite-Settles :
    (v : Json) (what : String) (names : List String) (at : Place)
    → Settles (is_finite_number v >>= λ ok. check ok (config what names at))
unfolding is_finite_number
finite-Settles (num n) what names at h = ground arith
finite-Settles _ what names at h = ground arith

pub bound-Settles : (at : Place) (fs : Fields) (k : String) → Settles (check_bound at fs k)
unfolding check_bound
bound-Settles at fs k = keyword-Settles k fs _ (λ v e. finite-Settles v _ _ at)

pub range-Settles : (at : Place) (fs : Fields) → Settles (check_range at fs)
unfolding check_range
range-Settles at fs =
    then-Settles _ _
      (then-Settles _ _ (bound-Settles at fs "minimum") (bound-Settles at fs "maximum"))
      (order-Settles _ at (get_field "minimum" fs) (get_field "maximum" fs))

pub pattern-Settles : (lib : Library) (at : Place) (v : Json) → Settles (check_pattern lib at v)
unfolding check_pattern
pattern-Settles lib at (str p) h = elim (Option-cases (Library.search lib p)) [
  | inl e ↦ ground arith
  | inr (finds, e) ↦ ground arith
]
pattern-Settles lib at _ h = ground arith
