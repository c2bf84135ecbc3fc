-- ===== src/Writer/Grows.antt =====
-- What the steps of pipeline/root_writer.py on the state directory do to its files, in whatever way
-- they end.
use growth_clockwork.Prelude.{
  ℕ, ◌≡◌, refl, sym, ap, ◌∙◌, subst, ◌⊎◌, inl, inr, String, Bool, true, false, not, Option, none,
  some, List, [], ◌∷◌, ◌++◌, arith, keep, eq_iff, Bool-cases, if◌then◌else◌,
}
use growth_clockwork.Prelude.Fallible.{done, failed}
use growth_clockwork.Writer.{RelPath}
use growth_clockwork.Writer.Paths.{same_path}
use growth_clockwork.Writer.Files.{
  Entry, file, folder, link, Tree, entry_at, TreeStep, and_then, add_missing, make_folder, enter,
  link_at, open_directory_chain, parent_parts, link_new, publish_exclusive, is_stage_path, is_stage,
  cleanup_stages,
}

pub same_path-eq : (p q : RelPath) → same_path p q ≡ true → p ≡ q
same_path-eq [] [] h = refl
same_path-eq (p ∷ ps) (q ∷ qs) h =
    let head : p ≡ q = ground (arith, eq_iff p q) in
    let tail = same_path-eq ps qs (ground arith) in ap2 head tail
  where
    ap2 : {a b : String} {ps qs : RelPath} → a ≡ b → ps ≡ qs → a ∷ ps ≡ b ∷ qs
    ap2 h k = cc
same_path-eq [] (q ∷ qs) h = ground arith
same_path-eq (p ∷ ps) [] h = ground arith

pub same_path-same : (p : RelPath) → same_path p p ≡ true
same_path-same [] = refl
same_path-same (p ∷ ps) = ground (arith, eq_iff p p, same_path-same ps)

-- The entry that is made first at a path, and the entries of the other paths.
pub entry_at-here : (p : RelPath) (e : Entry) (t : Tree) → entry_at p ((p, e) ∷ t) ≡ some e
unfolding entry_at
entry_at-here p e t = ground (arith, same_path-same p)

pub entry_at-there :
    (p q : RelPath) (e : Entry) (t : Tree)
    → same_path p q ≡ false
    → entry_at q ((p, e) ∷ t) ≡ entry_at q t
unfolding entry_at
entry_at-there p q e t h = ground arith

-- A directory after a step: the files that are no stages are kept, and every file is one that was
-- there or stands at a place of `S`.
pub record Grows (S : RelPath → Type 0) (t u : Tree) : Type 0 where
  pub kept :
      (q : RelPath) (b : List ℕ)
      → is_stage_path q ≡ false
      → entry_at q t ≡ some (file b)
      → entry_at q u ≡ some (file b)
  pub folders : (q : RelPath) → entry_at q t ≡ some folder → entry_at q u ≡ some folder
  pub placed :
      (q : RelPath) (b : List ℕ)
      → entry_at q u ≡ some (file b)
      → (entry_at q t ≡ some (file b)) ⊎ S q

add-kept :
    (p : RelPath) (e : Entry) (t : Tree)
    → entry_at p t ≡ none
    → (q : RelPath) (d : Entry) → entry_at q t ≡ some d
    → entry_at q ((p, e) ∷ t) ≡ some d
add-kept p e t h q d k = elim (Bool-cases (same_path p q)) [
  | inl s ↦
      let clash : none ≡ some d = sym h ∙ ap (λ r. entry_at r t) (same_path-eq p q s) ∙ k in
      ground arith
  | inr s ↦ entry_at-there p q e t s ∙ k
]

module _ (S : RelPath → Type 0) where
  pub Grows-same : (t : Tree) → Grows S t t
  Grows-same t = record { kept = λ q b n h. h; folders = λ q h. h; placed = λ q b h. inl h }

  pub Grows-then : (t u v : Tree) → Grows S t u → Grows S u v → Grows S t v
  Grows-then t u v g h = record {
    kept = λ q b n e. h.kept q b n (g.kept q b n e);
    folders = λ q e. h.folders q (g.folders q e);
    placed = λ q b e. elim (h.placed q b e) [ inl k ↦ g.placed q b k | inr s ↦ inr s ];
  }

  -- A new entry that is no file, or a file at a place of `S`.
  abbrev pub Fits : RelPath → Entry → Type 0
  Fits p e = (b : List ℕ) → e ≡ file b → S p

  add-placed :
      (p : RelPath) (e : Entry) (t : Tree)
      → Fits p e
      → (q : RelPath) (b : List ℕ) → entry_at q ((p, e) ∷ t) ≡ some (file b)
      → (entry_at q t ≡ some (file b)) ⊎ S q
  add-placed p e t fits q b k = elim (Bool-cases (same_path p q)) [
    | inl s ↦
        let same = same_path-eq p q s in
        let here : some e ≡ some (file b) =
          sym (entry_at-here p e t) ∙ ap (λ r. entry_at r ((p, e) ∷ t)) same ∙ k in
        inr (subst S same (fits b (ground arith)))
    | inr s ↦ inl (sym (entry_at-there p q e t s) ∙ k)
  ]

  pub add-Grows :
      (p : RelPath) (e : Entry) (t : Tree) → entry_at p t ≡ none → Fits p e → Grows S t ((p, e) ∷ t)
  add-Grows p e t h fits = record {
    kept = λ q b n k. add-kept p e t h q (file b) k;
    folders = λ q k. add-kept p e t h q folder k;
    placed = add-placed p e t fits;
  }

  add_missing-Grows :
      (o : Option Entry) (p : RelPath) (e : Entry) (t : Tree)
      → entry_at p t ≡ o
      → Fits p e
      → Grows S t (add_missing o p e t)
  add_missing-Grows none p e t h fits = add-Grows p e t h fits
  add_missing-Grows (some d) p e t h fits = Grows-same t

  make_folder-Grows : (create : Bool) (p : RelPath) (t : Tree) → Grows S t (make_folder create p t)
  make_folder-Grows false p t = Grows-same t
  make_folder-Grows true p t =
      add_missing-Grows (entry_at p t) p folder t refl (λ b k. ground arith)

  enter-Grows :
      (o : Option Entry) (here : RelPath) (t made : Tree) (rest : TreeStep Bool)
      → Grows S t made
      → Grows S made (rest.0)
      → Grows S t ((enter o here made rest).0)
  enter-Grows none here t made rest f g = f
  enter-Grows (some folder) here t made rest f g = Grows-then t made (rest.0) f g
  enter-Grows (some (file b)) here t made rest f g = f
  enter-Grows (some link) here t made rest f g = f

  pub open_directory_chain-Grows :
      (create : Bool) (base : RelPath) (names : List String) (t : Tree)
      → Grows S t ((open_directory_chain create base names t).0)
  unfolding open_directory_chain
  open_directory_chain-Grows create base [] t = Grows-same t
  open_directory_chain-Grows create base (name ∷ names) t =
      let here = base ++ name ∷ [] in
      let made = make_folder create here t in
      enter-Grows (entry_at here made) here t made (open_directory_chain create here names made)
        (make_folder-Grows create here t) (open_directory_chain-Grows create here names made)

  -- A step is followed by others where it returned.
  pub and_then-Grows :
      {A B : Type 0} (t : Tree) (m : TreeStep A) (k : A → Tree → TreeStep B)
      → Grows S t (m.0)
      → ((a : A) (u : Tree) → m ≡ (u, done a) → Grows S u ((k a u).0))
      → Grows S t ((and_then m k).0)
  and_then-Grows t (u, done a) k g h = Grows-then t u ((k a u).0) g (h a u refl)
  and_then-Grows t (u, failed e) k g h = g

  link_at-Grows :
      (o : Option Entry) (p : RelPath) (bytes : List ℕ) (t : Tree)
      → entry_at p t ≡ o
      → S p
      → Grows S t ((link_at o p bytes t).0)
  link_at-Grows none p bytes t h s = add-Grows p (file bytes) t h (λ b k. s)
  link_at-Grows (some e) p bytes t h s = Grows-same t

  pub publish_exclusive-Grows :
      (p : RelPath) (bytes : List ℕ) (t : Tree) → S p → Grows S t ((publish_exclusive p bytes t).0)
  unfolding publish_exclusive link_new
  publish_exclusive-Grows p bytes t s =
      and_then-Grows t (open_directory_chain true [] (parent_parts p) t)
        (λ found t. link_new p bytes t) (open_directory_chain-Grows true [] (parent_parts p) t)
        (λ found u h. link_at-Grows (entry_at p u) p bytes u refl s)

-- What stands at a path after the entries of the paths that fail a test are taken out.
pub keep-entry_at :
    (f : RelPath → Bool) (q : RelPath) (t : Tree)
    → entry_at q (keep (λ (e : RelPath × Entry). f e.0) t) ≡ (if f q then entry_at q t else none)
unfolding keep entry_at
keep-entry_at f q [] = ground arith
keep-entry_at f q ((p, e) ∷ t) = elim (Bool-cases (same_path p q)) [
  | inl s ↦ let same : f p ≡ f q = ap f (same_path-eq p q s) in ground (arith, keep-entry_at f q t)
  | inr s ↦ ground (arith, keep-entry_at f q t)
]

pub cleanup_stages-Grows : (S : RelPath → Type 0) (t : Tree) → Grows S t (cleanup_stages t)
unfolding cleanup_stages
cleanup_stages-Grows S t = record {
  kept = λ q b n h. cleaned q b n h (keep-entry_at (λ p. not (is_stage t p)) q t);
  folders = λ q h. standing q h (keep-entry_at (λ p. not (is_stage t p)) q t);
  placed = λ q b h. inl (was q b h (keep-entry_at (λ p. not (is_stage t p)) q t));
}
  where
    cleaned :
        (q : RelPath) (b : List ℕ)
        → is_stage_path q ≡ false
        → entry_at q t ≡ some (file b)
        → {o : Option Entry} → o ≡ (if not (is_stage t q) then entry_at q t else none)
        → o ≡ some (file b)
    cleaned q b n h e = ground arith

    standing :
        (q : RelPath)
        → entry_at q t ≡ some folder
        → {o : Option Entry} → o ≡ (if not (is_stage t q) then entry_at q t else none)
        → o ≡ some folder
    standing q h e = ground arith

    was :
        (q : RelPath) (b : List ℕ) {o : Option Entry}
        → o ≡ some (file b)
        → o ≡ (if not (is_stage t q) then entry_at q t else none)
        → entry_at q t ≡ some (file b)
    was q b h e = ground arith
