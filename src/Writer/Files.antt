-- ===== src/Writer/Files.antt =====
-- The state directory of a project, and what pipeline/root_writer.py does to it: the directories
-- on the way to a file, the reading of a file and the publication of a new one. Files are only read
-- and made by the writer while it holds the lock.
use growth_clockwork.Prelude.{
  ℕ, String, Bool, true, false, not, ◌&&◌, Option, none, some, List, [], ◌∷◌, ◌++◌, all, codes,
  length, ◌==◌, str_eq, if◌then◌else◌, is_hex_digit, take, drop, keep,
}
use growth_clockwork.Prelude.Fallible.{Fallible, done, failed, ◌>>=◌}
use growth_clockwork.Writer.{Fault, writer_error, RelPath}
use growth_clockwork.Writer.Paths.{same_path}

-- What stands at a path of the state directory.
pub data Entry : Type 0 where
  file : List ℕ → Entry
  folder : Entry
  link : Entry

-- The directory's entries by their paths, the ones made last first.
abbrev pub Tree : Type 0
Tree = List (RelPath × Entry)

unfoldable pub entry_at : RelPath → Tree → Option Entry
entry_at p [] = none
entry_at p ((q, e) ∷ t) = if same_path q p then some e else entry_at p t

-- A step on the directory: what it leaves, also where it raises, and its result.
abbrev pub TreeStep : Type 0 → Type 0
TreeStep A = Tree × Fallible Fault A

abbrev pub and_then : {A B : Type 0} → TreeStep A → (A → Tree → TreeStep B) → TreeStep B
and_then (t, done a) k = k a t
and_then (t, failed e) k = (t, failed e)

-- `os.mkdir` of a directory that may be there.
abbrev pub add_missing : Option Entry → RelPath → Entry → Tree → Tree
add_missing none p e t = (p, e) ∷ t
add_missing (some d) p e t = t

abbrev pub make_folder : Bool → RelPath → Tree → Tree
make_folder false p t = t
make_folder true p t = add_missing (entry_at p t) p folder t

-- `os.open` of a directory on the way, and what comes after it.
abbrev pub enter : Option Entry → RelPath → Tree → TreeStep Bool → TreeStep Bool
enter none here t rest = (t, done false)
enter (some folder) here t rest = rest
enter (some (file bytes)) here t rest =
    (t, failed (writer_error "Unsafe or unreadable directory" here))
enter (some link) here t rest = (t, failed (writer_error "Unsafe or unreadable directory" here))

-- `_open_directory_chain` from a directory over the names that follow: whether it was found.
unfoldable pub open_directory_chain : Bool → RelPath → List String → Tree → TreeStep Bool
unfolding entry_at
open_directory_chain create base [] t = (t, done true)
open_directory_chain create base (name ∷ names) t =
    let here = base ++ name ∷ [] in
    let made = make_folder create here t in
    enter (entry_at here made) here made (open_directory_chain create here names made)

-- `relative.parts[:-1]`
abbrev pub parent_parts : RelPath → List String
parent_parts [] = []
parent_parts (p ∷ []) = []
parent_parts (p ∷ q ∷ ps) = p ∷ parent_parts (q ∷ ps)

-- The content of the entry at a path, where it is a regular file.
abbrev pub entry_content : RelPath → Option Entry → Fallible Fault (Option (List ℕ))
entry_content p none = done none
entry_content p (some (file bytes)) = done (some bytes)
entry_content p (some folder) = failed (writer_error "Path is not a regular file" p)
entry_content p (some link) = failed (writer_error "Cannot open regular file safely" p)

-- `_read_relative_bytes` with `missing_ok`; it changes nothing.
unfoldable pub read_relative_bytes : RelPath → Tree → Fallible Fault (Option (List ℕ))
unfolding open_directory_chain entry_at
read_relative_bytes p t = (open_directory_chain false [] (parent_parts p) t).1 >>= λ found.
    if found then entry_content p (entry_at p t) else done none

-- `_read_relative_bytes` without it.
unfoldable pub read_existing : RelPath → Tree → Fallible Fault (List ℕ)
unfolding read_relative_bytes
read_existing p t = read_relative_bytes p t >>= λ o. elim o [
  | none ↦ failed (writer_error "File does not exist" p)
  | some bytes ↦ done bytes
]

-- `os.link` of the staged content, which fails where anything is there.
abbrev pub link_at : Option Entry → RelPath → List ℕ → Tree → TreeStep (Unit {0})
link_at none p bytes t = ((p, file bytes) ∷ t, done tt)
link_at (some e) p bytes t = (t, failed (writer_error "Create target already exists" p))

unfoldable pub link_new : RelPath → List ℕ → Tree → TreeStep (Unit {0})
unfolding entry_at
link_new p bytes t = link_at (entry_at p t) p bytes t

-- `_publish_exclusive`; the stage that it makes and removes is left out.
unfoldable pub publish_exclusive : RelPath → List ℕ → Tree → TreeStep (Unit {0})
unfolding open_directory_chain link_new
publish_exclusive p bytes t =
    and_then (open_directory_chain true [] (parent_parts p) t) (λ found t. link_new p bytes t)

-- `_assert_no_symlink_path` below the state directory.
unfoldable pub assert_no_symlink : RelPath → List String → Tree → Fallible Fault (Unit {0})
unfolding entry_at
assert_no_symlink base [] t = done tt
assert_no_symlink base (name ∷ names) t =
    let here = base ++ name ∷ [] in
    let rest = assert_no_symlink here names t in
    elim (entry_at here t) [
      | none ↦ rest
      | some e ↦ elim e [
        | link ↦ failed (writer_error "Symlink path is forbidden" here)
        | folder ↦ rest
        | file bytes ↦
            if (length names == 0)
            then rest
            else failed (writer_error "Non-directory path ancestor is forbidden" here)
      ]
    ]

abbrev pub same_codes : List ℕ → List ℕ → Bool
same_codes [] [] = true
same_codes (c ∷ cs) (d ∷ ds) = c == d && same_codes cs ds
same_codes _ _ = false

-- `STAGE_NAME_RE.fullmatch`: 32 hexadecimal digits and `.tmp`.
unfoldable pub is_stage_name : String → Bool
unfolding is_hex_digit
is_stage_name name =
    all is_hex_digit (take 32 (codes name)) && same_codes (drop 32 (codes name)) (codes ".tmp")

abbrev pub is_stage_path : RelPath → Bool
is_stage_path (a ∷ b ∷ []) = str_eq a ".writer-tx" && is_stage_name b
is_stage_path _ = false

abbrev pub is_file : Option Entry → Bool
is_file (some (file bytes)) = true
is_file _ = false

-- A stage that an earlier run left.
abbrev pub is_stage : Tree → RelPath → Bool
is_stage t p = is_stage_path p && is_file (entry_at p t)

-- `_cleanup_transaction_stages`
unfoldable pub cleanup_stages : Tree → Tree
unfolding keep is_stage_name entry_at
cleanup_stages t = keep (λ (e : RelPath × Entry). not (is_stage t e.0)) t
