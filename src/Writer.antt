-- ===== src/Writer.antt =====
-- The Root Writer of pipeline/root_writer.py: the profile and the request that it checks, the files
-- below the project's state directory, and the application of a request to them.
pub mod Paths
pub mod Profile
pub mod Requests
pub mod Writes
pub mod Files
pub mod Receipts
pub mod Apply
pub mod Grows
pub mod Targets
pub mod Readied
pub mod Limits
pub mod Kept
pub mod Segments
pub mod Slashes
pub mod RoundTrip
pub mod Reach
pub mod Published
pub mod Rechecked
pub mod Finished
pub mod Transactions
pub mod Replay
pub mod Examples
use growth_clockwork.Prelude.{
  ℕ, String, Bool, true, false, not, ◌&&◌, ◌||◌, Option, none, some, List, [], ◌∷◌, keep, distinct,
  sort_texts, is_in, str_eq, all, codes,
}
use growth_clockwork.Prelude.Fallible.{Fallible, done, failed, ◌>>◌}
use growth_clockwork.Json.{
  Json, bool, num, str, arr, obj, Items, nil, cons, Fields, get_field, keys, has_field,
}

-- A `WriterError` (its text, the names that are put in it), the `WriterError` that wraps another
-- after some files were written, a `KeyError` or the `AssertionError` of a file that is gone.
pub data Fault : Type 0 where
  writer_error : String → List String → Fault
  incomplete : ℕ → Fault → Fault
  key_error : String → Fault
  assertion : Fault

abbrev pub refuse : {A : Type 0} → String → Fallible Fault A
refuse what = failed (writer_error what [])

-- `if names: raise WriterError`
abbrev pub refuse_names : String → String → List String → Fallible Fault (Unit {0})
refuse_names label what [] = done tt
refuse_names label what (n ∷ ns) = failed (writer_error what (label ∷ n ∷ ns))

-- `required - value.keys()` and `value.keys() - required - optional`, sorted.
unfoldable pub missing_fields : Fields → List String → List String
missing_fields fs required = sort_texts (keep (λ k. not (has_field fs k)) required)

unfoldable pub extra_fields : Fields → List String → List String → List String
extra_fields fs required optional =
    sort_texts (distinct (keep (λ k. not (is_in k required || is_in k optional)) (keys fs)))

-- `_require_exact_keys`
unfoldable pub require_exact_keys :
    Fields → List String → List String → String → Fallible Fault (Unit {0})
unfolding missing_fields extra_fields
require_exact_keys fs required optional label =
    refuse_names label "{} missing fields: {}" (missing_fields fs required)
    >> refuse_names label "{} has unknown fields: {}" (extra_fields fs required optional)

-- `value == text`
abbrev pub equals_text : String → Json → Bool
equals_text expected (str s) = str_eq s expected
equals_text expected _ = false

-- `value[key]`
abbrev pub value_of : Fields → String → Fallible Fault Json
value_of fs k = elim (get_field k fs) [ none ↦ failed (key_error k) | some v ↦ done v ]

-- The parts of a relative path.
abbrev pub RelPath : Type 0
RelPath = List String
