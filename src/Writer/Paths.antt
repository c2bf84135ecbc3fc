-- ===== src/Writer/Paths.antt =====
-- `_validate_relative_path`, `_under_prefix` and the other readers of single values of
-- pipeline/root_writer.py, with what they use of `PurePosixPath`.
use Prim.Native.Char.{Char, code}
use growth_clockwork.Prelude.{
  ℕ, String, Bool, true, false, not, ◌&&◌, ◌||◌, List, [], ◌∷◌, any, keep, is_in, str_eq, ltb, ◌==◌,
  length, take, if◌then◌else◌, codes, is_sha256,
}
use growth_clockwork.Prelude.Fallible.{Fallible, done, failed, ◌>>=◌, ◌>>◌, check}
use growth_clockwork.Json.{Json, str, arr, obj, Items, nil, cons, Fields, has_exactly}
use growth_clockwork.Routes.Decisions.{is_portable}
use growth_clockwork.Writer.{Fault, writer_error, value_of, RelPath}

abbrev pub is_slash : Char → Bool
is_slash c = code c == b'/'

abbrev pub put_first : Char → List String → List String
put_first c [] = []
put_first c (p ∷ ps) = String.◌∷◌ c p ∷ ps

-- `raw.split("/")`
unfoldable pub split : String → List String
split String.[] = String.[] ∷ []
split (String.◌∷◌ c s) =
    let rest = split s in if is_slash c then String.[] ∷ rest else put_first c rest

abbrev pub is_part : String → Bool
is_part p = not (str_eq p "") && not (str_eq p ".")

-- `PurePosixPath(raw).parts` of a path that is not absolute.
unfoldable pub parts : String → RelPath
unfolding split keep
parts raw = keep is_part (split raw)

-- `path.is_absolute()`
abbrev pub is_absolute : String → Bool
is_absolute String.[] = false
is_absolute (String.◌∷◌ c s) = is_slash c

-- `raw.endswith("/")`
abbrev pub ends_in_slash : String → Bool
ends_in_slash String.[] = false
ends_in_slash (String.◌∷◌ c String.[]) = is_slash c
ends_in_slash (String.◌∷◌ c (String.◌∷◌ d s)) = ends_in_slash (String.◌∷◌ d s)

-- `"\\" in raw or "\x00" in raw or any(ord(char) < 32 for char in raw)`
abbrev pub is_forbidden : ℕ → Bool
is_forbidden c = c == 92 || (c == 0 || ltb c 32)

abbrev pub has_no_parts : RelPath → Bool
has_no_parts [] = true
has_no_parts (p ∷ ps) = false

abbrev pub is_unsafe : String → Bool
is_unsafe p = is_in p ("" ∷ "." ∷ ".." ∷ [])

-- The tests of `_validate_relative_path` on a text.
unfoldable pub validate_path_text : String → String → Fallible Fault RelPath
unfolding parts
validate_path_text raw label =
    check (not (str_eq raw "")) (writer_error "{} must be a non-empty string" (label ∷ []))
    >> check (not (any is_forbidden (codes raw)))
        (writer_error "{} contains forbidden characters" (label ∷ []))
    >> check
        (not
          (has_no_parts (parts raw) || (str_eq raw "." || (is_absolute raw || ends_in_slash raw))))
        (writer_error "{} must be a relative file path" (label ∷ []))
    >> check (not (any is_unsafe (parts raw)))
        (writer_error "{} contains an unsafe path segment" (label ∷ []))
    >> check (not (is_in ".git" (parts raw))) (writer_error "{} may not enter .git" (label ∷ []))
    >> done (parts raw)

-- `_validate_relative_path`
unfoldable pub validate_relative_path : Json → String → Fallible Fault RelPath
unfolding validate_path_text
validate_relative_path (str raw) label = validate_path_text raw label
validate_relative_path _ label = failed (writer_error "{} must be a non-empty string" (label ∷ []))

abbrev pub append_text : String → String → String
append_text String.[] t = t
append_text (String.◌∷◌ c s) t = String.◌∷◌ c (append_text s t)

-- `path.as_posix()` of a path that has a part.
unfoldable pub as_posix : RelPath → String
as_posix [] = "."
as_posix (p ∷ []) = p
as_posix (p ∷ q ∷ ps) = append_text p (append_text "/" (as_posix (q ∷ ps)))

-- Equality of two paths.
abbrev pub same_path : RelPath → RelPath → Bool
same_path [] [] = true
same_path (p ∷ ps) (q ∷ qs) = str_eq p q && same_path ps qs
same_path _ _ = false

-- `path in paths`
abbrev pub is_path_in : RelPath → List RelPath → Bool
is_path_in p [] = false
is_path_in p (q ∷ qs) = same_path p q || is_path_in p qs

-- `_under_prefix`
unfoldable pub under_prefix : RelPath → RelPath → Bool
under_prefix path prefix = same_path path prefix || same_path (take (length prefix) path) prefix

-- `any(_under_prefix(path, prefix) for prefix in prefixes)`
abbrev pub under_any : List RelPath → RelPath → Bool
under_any prefixes path = any (under_prefix path) prefixes

abbrev pub has_distinct_paths : List RelPath → Bool
has_distinct_paths [] = true
has_distinct_paths (p ∷ ps) = not (is_path_in p ps) && has_distinct_paths ps

unfoldable pub validate_each_path : Items → String → Fallible Fault (List RelPath)
validate_each_path nil label = done []
validate_each_path (cons v vs) label =
    validate_relative_path v label >>= λ p. validate_each_path vs label >>= λ ps. done (p ∷ ps)

-- `_validate_prefixes`
unfoldable pub validate_prefixes : Json → String → Fallible Fault (List RelPath)
unfolding validate_each_path
validate_prefixes (arr (cons v vs)) label = validate_each_path (cons v vs) label >>= λ ps.
    check (has_distinct_paths ps) (writer_error "{} contains duplicates" (label ∷ [])) >> done ps
validate_prefixes _ label = failed (writer_error "{} must be a non-empty array" (label ∷ []))

-- A text that `RUN_ID_RE` matches.
abbrev pub portable : Json → Fault → Fallible Fault String
portable (str s) e = if is_portable s then done s else failed e
portable _ e = failed e

unfoldable pub validate_each_id : Items → String → Fallible Fault (List String)
unfolding is_portable
validate_each_id nil label = done []
validate_each_id (cons v vs) label =
    portable v (writer_error "{} contains an invalid portable identifier" (label ∷ [])) >>= λ s.
    validate_each_id vs label >>= λ ss. done (s ∷ ss)

abbrev pub has_distinct_texts : List String → Bool
has_distinct_texts [] = true
has_distinct_texts (x ∷ xs) = not (is_in x xs) && has_distinct_texts xs

-- `_validate_portable_ids`
unfoldable pub validate_portable_ids : Json → String → Fallible Fault (List String)
unfolding validate_each_id
validate_portable_ids (arr (cons v vs)) label = validate_each_id (cons v vs) label >>= λ ids.
    check (has_distinct_texts ids) (writer_error "{} contains duplicates" (label ∷ [])) >> done ids
validate_portable_ids _ label = failed (writer_error "{} must be a non-empty array" (label ∷ []))

-- A text that `SHA256_RE` matches.
abbrev pub digest : Json → Fault → Fallible Fault String
digest (str s) e = if is_sha256 s then done s else failed e
digest _ e = failed e

-- What `_validate_pinned_reference` returns; the path is kept in its parts.
pub record Pinned : Type 0 where
  pub artifact_ref : RelPath
  pub artifact_revision : String
  pub artifact_sha256 : String

unfoldable pub read_pinned : Fields → String → Fallible Fault Pinned
unfolding is_portable is_sha256
read_pinned fs label = value_of fs "artifact_ref" >>= λ ref.
    validate_relative_path ref (append_text label ".artifact_ref") >>= λ path.
    value_of fs "artifact_revision" >>= λ revision.
    portable revision (writer_error "{}.artifact_revision is invalid" (label ∷ [])) >>= λ rev.
    value_of fs "artifact_sha256" >>= λ sha.
    digest sha (writer_error "{}.artifact_sha256 is invalid" (label ∷ [])) >>= λ dig.
    done (record { artifact_ref = path; artifact_revision = rev; artifact_sha256 = dig })

-- `_validate_pinned_reference`
unfoldable pub validate_pinned_reference : Json → String → Fallible Fault Pinned
unfolding read_pinned has_exactly
validate_pinned_reference (obj fs) label =
    check (has_exactly fs ("artifact_ref" ∷ "artifact_revision" ∷ "artifact_sha256" ∷ [])) (
      writer_error "{} must contain artifact_ref, artifact_revision, and artifact_sha256"
        (label ∷ []))
    >> read_pinned fs label
validate_pinned_reference _ label = failed (
    writer_error "{} must contain artifact_ref, artifact_revision, and artifact_sha256"
      (label ∷ []))
