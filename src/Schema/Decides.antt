-- ===== src/Schema/Decides.antt =====
-- A validation that returns, beside a test of what it looks for, and how such validations are put
-- together. The children are about the parts of pipeline/validate_json_suites.py.
mod Value
mod Object
mod Array
mod Scalar
mod Branches
pub mod Node
use growth_clockwork.Prelude.{
  ◌≡◌, refl, String, Bool, true, false, ◌&&◌, Option, none, some, List, [], ◌∷◌, ◌++◌, arith,
  Option-cases, inl, inr,
}
use growth_clockwork.Prelude.Fallible.{Fallible, done, failed, ◌>>◌, then-done}
use growth_clockwork.Json.{Json, Fields, get_field}
use growth_clockwork.Schema.{Fault, Place, ValidationError, collect, when}
use growth_clockwork.Schema.Check.{Checked, Checker, check_keyword}
use growth_clockwork.Schema.Validate.{Errors, Validator, report, has_no_error}
use growth_clockwork.Schema.Conforms.{Accepts, asks}

abbrev pub Decides : Fallible Fault Errors → Bool → Type 0
Decides m b = (es : Errors) × (m ≡ done es) × (has_no_error es ≡ b)

pub done-Decides : Decides (done []) true
done-Decides = ([], refl, refl)

pub report-Decides : (b : Bool) (e : ValidationError) → Decides (report b e) b
report-Decides true e = ([], refl, refl)
report-Decides false e = (e ∷ [], refl, refl)

has_no_error-append :
    (xs ys : Errors) → has_no_error (xs ++ ys) ≡ (has_no_error xs && has_no_error ys)
has_no_error-append [] ys = refl
has_no_error-append (x ∷ xs) ys = refl

collect-done :
    (m n : Fallible Fault Errors) (xs ys : Errors)
    → m ≡ done xs
    → n ≡ done ys
    → collect m n ≡ done (xs ++ ys)
collect-done m n xs ys h k = cc

pub collect-Decides :
    (m n : Fallible Fault Errors) (b c : Bool)
    → Decides m b
    → Decides n c
    → Decides (collect m n) (b && c)
collect-Decides m n b c (xs, hx, nx) (ys, hy, ny) =
    (xs ++ ys, collect-done m n xs ys hx hy, cc (has_no_error-append xs ys))

-- What a checked keyword's value has passed.
pub keyword-done :
    (k : String) (fs : Fields) (chk : Json → Checked) (v : Json)
    → check_keyword k fs chk ≡ done tt
    → get_field k fs ≡ some v
    → chk v ≡ done tt
keyword-done k fs chk v h e = ground arith

found-Decides :
    (o : Option Json) (f : Json → Fallible Fault Errors) (g : Json → Bool)
    → ((v : Json) → o ≡ some v → Decides (f v) (g v))
    → Decides (when o (done []) f) (when o true g)
found-Decides none f g h = done-Decides
found-Decides (some v) f g h = h v refl

-- A keyword whose check the schema has passed.
pub keyword-Decides :
    (k : String) (fs : Fields) (chk : Json → Checked) (f : Json → Fallible Fault Errors)
    (g : Json → Bool)
    → check_keyword k fs chk ≡ done tt
    → ((v : Json) → chk v ≡ done tt → Decides (f v) (g v))
    → Decides (when (get_field k fs) (done []) f) (asks k fs g)
keyword-Decides k fs chk f g h each =
    found-Decides (get_field k fs) f g (λ v e. each v (keyword-done k fs chk v h e))

-- Both of two checks in sequence have passed.
pub both-done : (m n : Checked) → m >> n ≡ done tt → (m ≡ done tt) × (n ≡ done tt)
both-done m n h = let (u, first, rest) = then-done m n tt h in (first, rest)

-- The validation of the schemas that a checker passes decides whether they accept.
abbrev pub Agree : Checker → Validator → Accepts → Type 0
Agree chk val acc =
    (sub : Json) (at : Place)
    → chk at sub ≡ done tt
    → (v : Json) (ip sp : Place) → Decides (val v sub ip sp) (acc v sub)
