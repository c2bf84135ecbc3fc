-- ===== src/Schema/Decides/Value.antt =====
-- `type`, `const` and `enum` of pipeline/validate_json_suites.py and what they mean.
use growth_clockwork.Prelude.{
  ◌≡◌, refl, ap, sym, ◌∙◌, subst, String, Bool, true, false, not, ◌||◌, some, List, [], ◌∷◌, arith,
  any, All, is_in, keep, distinct, keep-none, sort_texts-none, distinct-none, str_eq, eq_iff,
  Option-cases, Bool-cases, inl, inr, map,
}
use growth_clockwork.Prelude.Fallible.{done, check}
use growth_clockwork.Json.{Json, null, bool, num, str, arr, obj, cons, Fields, get_field}
use growth_clockwork.Schema.{Place, config, texts_of, as_items, has_no_duplicates, supported_types}
use growth_clockwork.Schema.Equal.{json_equal, is_among, instance_type_matches}
use growth_clockwork.Schema.Check.{
  check_type, check_enum, check_type_names, refuse_names, unlisted, check_keyword,
}
use growth_clockwork.Schema.Validate.{
  any_type_matches, validate_type, validate_const, validate_enum, validate_value, error, report,
}
use growth_clockwork.Schema.Conforms.{is_of_type, has_type, names_or_none, items_of, accepts_value}
use growth_clockwork.Schema.Decides.{
  Decides, keyword-Decides, report-Decides, collect-Decides, found-Decides, both-done,
}

-- A property of every text of a list holds of a member.
member-All :
    (P : String → Type 0) (t : String) (xs : List String) → All P xs → is_in t xs ≡ true → P t
member-All P t [] all h = ground arith
member-All P t (x ∷ xs) (here, rest) h = elim (Bool-cases (str_eq t x)) [
  | inl e ↦ let same : x ≡ t = ground (arith, eq_iff t x) in subst P same here
  | inr e ↦ member-All P t xs rest (ground arith)
]

abbrev Matches : Json → String → Type 0
Matches v t = instance_type_matches v t ≡ done (is_of_type v t)

supported_types-Matches : (v : Json) → All (Matches v) supported_types
unfolding instance_type_matches is_of_type
supported_types-Matches null = (refl, (refl, (refl, (refl, (refl, (refl, (refl, tt)))))))
supported_types-Matches (bool b) = (refl, (refl, (refl, (refl, (refl, (refl, (refl, tt)))))))
supported_types-Matches (num n) = (refl, (refl, (refl, (refl, (refl, (refl, (refl, tt)))))))
supported_types-Matches (str s) = (refl, (refl, (refl, (refl, (refl, (refl, (refl, tt)))))))
supported_types-Matches (arr vs) = (refl, (refl, (refl, (refl, (refl, (refl, (refl, tt)))))))
supported_types-Matches (obj fs) = (refl, (refl, (refl, (refl, (refl, (refl, (refl, tt)))))))

not-false : (b : Bool) → not b ≡ false → b ≡ true
not-false b h = ground arith

any_step :
    (v : Json) (t : String) (ts : List String)
    → Matches v t
    → any_type_matches v ts ≡ done (any (is_of_type v) ts)
    → any_type_matches v (t ∷ ts) ≡ done (is_of_type v t || any (is_of_type v) ts)
unfolding any_type_matches
any_step v t ts h rest = ground arith

any-matches :
    (v : Json) (ts : List String)
    → keep (λ n. not (is_in n supported_types)) ts ≡ []
    → any_type_matches v ts ≡ done (any (is_of_type v) ts)
unfolding any_type_matches
any-matches v [] h = refl
any-matches v (t ∷ ts) h =
    let (here, rest) = keep-none (λ n. not (is_in n supported_types)) t ts h in
    any_step v t ts
      (member-All (Matches v) t supported_types (supported_types-Matches v)
        (not-false (is_in t supported_types) here))
      (any-matches v ts rest)

unlisted-none :
    (allowed names : List String)
    → unlisted allowed names ≡ []
    → keep (λ n. not (is_in n allowed)) names ≡ []
unfolding unlisted
unlisted-none allowed names h =
    distinct-none (keep (λ n. not (is_in n allowed)) names)
      (sort_texts-none (distinct (keep (λ n. not (is_in n allowed)) names)) h)

refuse_names-none :
    (what : String) (at : Place) (ns : List String) → refuse_names what at ns ≡ done tt → ns ≡ []
refuse_names-none what at [] h = refl
refuse_names-none what at (n ∷ ns) h = ground arith

type_names-known :
    (at : Place) (ts : List String)
    → check_type_names at ts ≡ done tt
    → unlisted supported_types ts ≡ []
type_names-known at [] h = ground arith
type_names-known at (t ∷ ts) h =
    let (first, rest) =
      both-done (check (has_no_duplicates (t ∷ ts)) (config "type at {} contains duplicates" [] at))
        (refuse_names "unsupported JSON Schema type(s) at {}" at
          (unlisted supported_types (t ∷ ts)))
        h in
    refuse_names-none "unsupported JSON Schema type(s) at {}" at (unlisted supported_types (t ∷ ts))
      rest

type_names :
    (at : Place) (expected : Json)
    → check_type at expected ≡ done tt
    → (ts : List String) × (texts_of (as_items expected) ≡ some ts)
      × (unlisted supported_types ts ≡ [])
unfolding check_type
type_names at expected h = elim (Option-cases (texts_of (as_items expected))) [
  | inl e ↦ ground arith
  | inr (ts, e) ↦ (ts, e, type_names-known at ts (ground arith))
]

reported_type :
    (v expected : Json) (ip sp : Place) (ts : List String)
    → texts_of (as_items expected) ≡ some ts
    → any_type_matches v ts ≡ done (any (is_of_type v) ts)
    → validate_type v ip sp expected
      ≡ report (any (is_of_type v) ts) (error ip sp "type" "expected {}" (map str ts))
unfolding validate_type
reported_type v expected ip sp ts e h = ground arith

has_type-names :
    (v expected : Json) (ts : List String)
    → texts_of (as_items expected) ≡ some ts
    → has_type v expected ≡ any (is_of_type v) ts
unfolding has_type
has_type-names v expected ts e = ap (λ o. any (is_of_type v) (names_or_none o)) e

type-Decides :
    (at : Place) (v expected : Json) (ip sp : Place)
    → check_type at expected ≡ done tt
    → Decides (validate_type v ip sp expected) (has_type v expected)
type-Decides at v expected ip sp h =
    let (ts, e, known) = type_names at expected h in
    let reported =
      reported_type v expected ip sp ts e
        (any-matches v ts (unlisted-none supported_types ts known)) in
    let (es, returns, decides) =
      report-Decides (any (is_of_type v) ts) (error ip sp "type" "expected {}" (map str ts)) in
    (es, reported ∙ returns, decides ∙ sym (has_type-names v expected ts e))

enum-Decides :
    (at : Place) (v choices : Json) (ip sp : Place)
    → check_enum at choices ≡ done tt
    → Decides (validate_enum v ip sp choices) (is_among v (items_of choices))
unfolding check_enum validate_enum
enum-Decides at v (arr (cons c cs)) ip sp h =
    report-Decides (is_among v (cons c cs))
      (error ip sp "enum" "value is not in the allowed set" [])
enum-Decides at v _ ip sp h = ground arith

-- The keywords of any instance.
pub value-Decides :
    (at : Place) (v : Json) (fs : Fields) (ip sp : Place)
    → check_keyword "type" fs (check_type at) ≡ done tt
    → check_keyword "enum" fs (check_enum at) ≡ done tt
    → Decides (validate_value v fs ip sp) (accepts_value v fs)
unfolding validate_value accepts_value
value-Decides at v fs ip sp types enums =
    collect-Decides _ _ _ _
      (keyword-Decides "type" fs (check_type at) (validate_type v ip sp) (has_type v) types
        (λ expected h. type-Decides at v expected ip sp h))
      (collect-Decides _ _ _ _
        (found-Decides (get_field "const" fs) (validate_const v ip sp) (json_equal v) (λ c e.
          report-Decides (json_equal v c) (error ip sp "const" "expected constant {}" (c ∷ []))))
        (keyword-Decides "enum" fs (check_enum at) (validate_enum v ip sp)
          (λ choices. is_among v (items_of choices)) enums
          (λ choices h. enum-Decides at v choices ip sp h)))
