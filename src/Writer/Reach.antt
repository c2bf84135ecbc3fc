-- ===== src/Writer/Reach.antt =====
-- Reading and publishing in the state directory of pipeline/root_writer.py.
use growth_clockwork.Prelude.{
  ℕ, ◌≡◌, refl, ap, ◌∙◌, String, Bool, true, false, Option, none, some, List, [], ◌∷◌, ◌++◌, arith,
  if◌then◌else◌,
}
use growth_clockwork.Prelude.Fallible.{Fallible, done, failed, ◌>>=◌, bind-done}
use growth_clockwork.Writer.{Fault, RelPath, writer_error}
use growth_clockwork.Writer.Files.{
  Entry, file, folder, link, Tree, TreeStep, entry_at, make_folder, add_missing, enter,
  open_directory_chain, parent_parts, entry_content, read_relative_bytes, read_existing,
}
use growth_clockwork.Writer.Grows.{Grows}

-- The directories over the names that follow a base.
abbrev pub Reach : RelPath → List String → Tree → Type 0
Reach base [] t = Unit
Reach base (n ∷ ns) t = (entry_at (base ++ n ∷ []) t ≡ some folder) × Reach (base ++ n ∷ []) ns t

pub Grows-Reach :
    (S : RelPath → Type 0) (t u : Tree) (base : RelPath) (names : List String)
    → Grows S t u
    → Reach base names t
    → Reach base names u
Grows-Reach S t u base [] g r = tt
Grows-Reach S t u base (n ∷ ns) g (here, r) =
    (g.folders (base ++ n ∷ []) here, Grows-Reach S t u (base ++ n ∷ []) ns g r)

entered :
    (o : Option Entry) (here : RelPath) (t : Tree) (rest : TreeStep Bool)
    → (enter o here t rest).1 ≡ done true
    → (o ≡ some folder) × (rest.1 ≡ done true)
entered none here t rest h = ground arith
entered (some folder) here t rest h = (refl, h)
entered (some (file b)) here t rest h = ground arith
entered (some link) here t rest h = ground arith

chain-Reach :
    (base : RelPath) (names : List String) (t : Tree)
    → (open_directory_chain false base names t).1 ≡ done true
    → Reach base names t
unfolding open_directory_chain
chain-Reach base [] t h = tt
chain-Reach base (n ∷ ns) t h =
    let here = base ++ n ∷ [] in
    let (is_folder, rest) =
      entered (entry_at here t) here t (open_directory_chain false here ns t) h in
    (is_folder, chain-Reach here ns t rest)

made_already :
    (create : Bool) (p : RelPath) (t : Tree) (e : Entry)
    → entry_at p t ≡ some e
    → make_folder create p t ≡ t
made_already false p t e h = refl
made_already true p t e h = ap (λ o. add_missing o p folder t) h

pub Reach-chain :
    (create : Bool) (base : RelPath) (names : List String) (t : Tree)
    → Reach base names t
    → open_directory_chain create base names t ≡ (t, done true)
unfolding open_directory_chain
Reach-chain create base [] t r = refl
Reach-chain create base (n ∷ ns) t (is_folder, r) =
    let here = base ++ n ∷ [] in
    ap (λ m. enter (entry_at here m) here m (open_directory_chain create here ns m))
      (made_already create here t folder is_folder)
    ∙ ap (λ o. enter o here t (open_directory_chain create here ns t)) is_folder
    ∙ Reach-chain create here ns t r

found_file :
    (p : RelPath) (o : Option Entry) (b : List ℕ)
    → entry_content p o ≡ done (some b)
    → o ≡ some (file b)
found_file p none b h = ground arith
found_file p (some (file c)) b h = ground arith
found_file p (some folder) b h = ground arith
found_file p (some link) b h = ground arith

-- What can be read is a file below directories.
pub read-entry :
    (p : RelPath) (t : Tree) (b : List ℕ)
    → read_relative_bytes p t ≡ done (some b)
    → Reach [] (parent_parts p) t × (entry_at p t ≡ some (file b))
unfolding read_relative_bytes
read-entry p t b h =
    let go : Bool → Fallible Fault (Option (List ℕ)) =
      λ found. if found then entry_content p (entry_at p t) else done none in
    let (found, opened, rest) =
      bind-done ((open_directory_chain false [] (parent_parts p) t).1) go (some b) h in
    reached found opened rest
  where
    reached :
        (found : Bool)
        → (open_directory_chain false [] (parent_parts p) t).1 ≡ done found
        → (if found then entry_content p (entry_at p t) else done none) ≡ done (some b)
        → Reach [] (parent_parts p) t × (entry_at p t ≡ some (file b))
    reached true opened rest =
        (chain-Reach [] (parent_parts p) t opened, found_file p (entry_at p t) b rest)
    reached false opened rest = ground arith

pub entry-read :
    (p : RelPath) (t : Tree) (b : List ℕ)
    → Reach [] (parent_parts p) t
    → entry_at p t ≡ some (file b)
    → read_relative_bytes p t ≡ done (some b)
unfolding read_relative_bytes
entry-read p t b r h =
    ap
      (λ (s : TreeStep Bool).
        s.1 >>= λ found. if found then entry_content p (entry_at p t) else done none)
      (Reach-chain false [] (parent_parts p) t r)
    ∙ ap (entry_content p) h

pub existing-read :
    (p : RelPath) (t : Tree) (b : List ℕ)
    → read_existing p t ≡ done b
    → read_relative_bytes p t ≡ done (some b)
unfolding read_existing
existing-read p t b h = keeps_file (read_relative_bytes p t) h
  where
    keeps_file :
        (m : Fallible Fault (Option (List ℕ)))
        → (m >>= λ o. elim o [
          | none ↦ failed (writer_error "File does not exist" p)
          | some bytes ↦ done bytes
        ])
          ≡ done b
        → m ≡ done (some b)
    keeps_file (done (some c)) h = ground arith
    keeps_file (done none) h = ground arith
    keeps_file (failed e) h = ground arith

pub read-existing :
    (p : RelPath) (t : Tree) (b : List ℕ)
    → read_relative_bytes p t ≡ done (some b)
    → read_existing p t ≡ done b
unfolding read_existing
read-existing p t b h =
    ap
      (λ m. m >>= λ o. elim o [
        | none ↦ failed (writer_error "File does not exist" p)
        | some bytes ↦ done bytes
      ])
      h
