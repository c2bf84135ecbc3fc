-- ===== src/Schema/Decides/Scalar.antt =====
-- The keywords for texts and numbers of pipeline/validate_json_suites.py and what they mean.
use growth_clockwork.Prelude.{
  ◌≡◌, refl, String, Bool, not, Option, none, some, [], ◌∷◌, arith, codes, length,
}
use growth_clockwork.Prelude.Int.{ℤ, pos, negsuc, ltb_ℤ}
use growth_clockwork.Prelude.Fallible.{done, ◌>>=◌, check}
use growth_clockwork.Json.{Json, num, str, Fields}
use growth_clockwork.Schema.{
  Fault, Place, Library, is_greater, is_nonnegative_integer, is_finite_number, is_rfc3339_datetime,
}
use growth_clockwork.Schema.Check.{
  check_keyword, check_count, check_bound, check_pattern, check_format,
}
use growth_clockwork.Schema.Validate.{
  not_below, not_above, error, validate_string, validate_pattern, validate_format, validate_number,
}
use growth_clockwork.Schema.Conforms.{reaches, keeps_to, finds, accepts_string, accepts_number}
use growth_clockwork.Schema.Decides.{Decides, report-Decides, keyword-Decides, collect-Decides}

module _ (rule message : String) (ip sp : Place) (n : ℤ) where
  not_below-Decides :
      (m : ℤ) → Decides (not_below rule message ip sp (num n) (num m)) (reaches n (num m))
  unfolding is_greater
  not_below-Decides m = report-Decides (not (ltb_ℤ n m)) (error ip sp rule message (num m ∷ []))

  not_above-Decides :
      (m : ℤ) → Decides (not_above rule message ip sp (num n) (num m)) (keeps_to n (num m))
  unfolding is_greater
  not_above-Decides m = report-Decides (not (ltb_ℤ m n)) (error ip sp rule message (num m ∷ []))

  -- A limit that is a count.
  pub not_below_count :
      (e : Fault) (limit : Json)
      → check (is_nonnegative_integer limit) e ≡ done tt
      → Decides (not_below rule message ip sp (num n) limit) (reaches n limit)
  not_below_count e (num (pos m)) h = not_below-Decides (pos m)
  not_below_count e (num (negsuc m)) h = not_below-Decides (negsuc m)
  not_below_count e _ h = ground arith

  pub not_above_count :
      (e : Fault) (limit : Json)
      → check (is_nonnegative_integer limit) e ≡ done tt
      → Decides (not_above rule message ip sp (num n) limit) (keeps_to n limit)
  not_above_count e (num (pos m)) h = not_above-Decides (pos m)
  not_above_count e (num (negsuc m)) h = not_above-Decides (negsuc m)
  not_above_count e _ h = ground arith

  -- A limit that is a number.
  not_below_bound :
      (e : Fault) (limit : Json)
      → is_finite_number limit >>= (λ ok. check ok e) ≡ done tt
      → Decides (not_below rule message ip sp (num n) limit) (reaches n limit)
  unfolding is_finite_number
  not_below_bound e (num m) h = not_below-Decides m
  not_below_bound e _ h = ground arith

  not_above_bound :
      (e : Fault) (limit : Json)
      → is_finite_number limit >>= (λ ok. check ok e) ≡ done tt
      → Decides (not_above rule message ip sp (num n) limit) (keeps_to n limit)
  unfolding is_finite_number
  not_above_bound e (num m) h = not_above-Decides m
  not_above_bound e _ h = ground arith

pub number-Decides :
    (at : Place) (n : ℤ) (fs : Fields) (ip sp : Place)
    → check_bound at fs "minimum" ≡ done tt
    → check_bound at fs "maximum" ≡ done tt
    → Decides (validate_number (num n) fs ip sp) (accepts_number n fs)
unfolding validate_number accepts_number check_bound
number-Decides at n fs ip sp minimum maximum =
    collect-Decides _ _ _ _
      (keyword-Decides "minimum" fs _ (not_below "minimum" "expected value >= {}" ip sp (num n))
        (reaches n) minimum (not_below_bound "minimum" "expected value >= {}" ip sp n _))
      (keyword-Decides "maximum" fs _ (not_above "maximum" "expected value <= {}" ip sp (num n))
        (keeps_to n) maximum (not_above_bound "maximum" "expected value <= {}" ip sp n _))

pattern-Decides :
    (lib : Library) (s p : String) (at ip sp : Place) (o : Option (String → Bool))
    → Library.search lib p ≡ o
    → check_pattern lib at (str p) ≡ done tt
    → Decides (validate_pattern lib s ip sp (str p)) (finds lib s (str p))
unfolding check_pattern validate_pattern finds
pattern-Decides lib s p at ip sp none e h = ground arith
pattern-Decides lib s p at ip sp (some match) e h =
    let (es, returns, decides) =
      report-Decides (match s) (error ip sp "pattern" "value does not match {}" (str p ∷ [])) in
    (es, ground arith, ground arith)

any_pattern-Decides :
    (lib : Library) (s : String) (at ip sp : Place) (v : Json)
    → check_pattern lib at v ≡ done tt
    → Decides (validate_pattern lib s ip sp v) (finds lib s v)
unfolding check_pattern
any_pattern-Decides lib s at ip sp (str p) h =
    pattern-Decides lib s p at ip sp (Library.search lib p) refl h
any_pattern-Decides lib s at ip sp _ h = ground arith

format-Decides :
    (lib : Library) (s : String) (at ip sp : Place) (v : Json)
    → check_format at v ≡ done tt
    → Decides (validate_format lib s ip sp v) (is_rfc3339_datetime lib s)
unfolding check_format validate_format
format-Decides lib s at ip sp v h =
    let (es, returns, decides) =
      report-Decides (is_rfc3339_datetime lib s)
        (error ip sp "format" "expected an RFC 3339 date-time with an explicit timezone" []) in
    (es, ground arith, decides)

pub string-Decides :
    (lib : Library) (at : Place) (s : String) (fs : Fields) (ip sp : Place)
    → check_count at fs "minLength" ≡ done tt
    → check_keyword "pattern" fs (check_pattern lib at) ≡ done tt
    → check_keyword "format" fs (check_format at) ≡ done tt
    → Decides (validate_string lib s fs ip sp) (accepts_string lib s fs)
unfolding validate_string accepts_string
string-Decides lib at s fs ip sp counts patterns formats =
    let size = pos (length (codes s)) in
    collect-Decides _ _ _ _
      (keyword-Decides "minLength" fs _
        (not_below "minLength" "expected at least {} character(s)" ip sp (num size)) (reaches size)
        counts (not_below_count "minLength" "expected at least {} character(s)" ip sp size _))
      (collect-Decides _ _ _ _
        (keyword-Decides "pattern" fs (check_pattern lib at) (validate_pattern lib s ip sp)
          (finds lib s) patterns (any_pattern-Decides lib s at ip sp))
        (keyword-Decides "format" fs (check_format at) (validate_format lib s ip sp)
          (λ v. is_rfc3339_datetime lib s) formats (format-Decides lib s at ip sp)))
