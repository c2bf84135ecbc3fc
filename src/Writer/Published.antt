-- ===== src/Writer/Published.antt =====
-- The files that the loop of `apply_request_value` of pipeline/root_writer.py has published, and the
-- state directory that an application leaves.
use growth_clockwork.Prelude.{
  ℕ, suc, ◌≡◌, refl, sym, ap, ◌∙◌, Bool, true, false, not, ◌&&◌, Option, none, some, List, [], ◌∷◌,
  arith, All, keep, if◌then◌else◌, ==_iff,
}
use growth_clockwork.Prelude.Fallible.{Fallible, done, failed, check-done}
use growth_clockwork.Writer.{Fault, RelPath}
use growth_clockwork.Writer.Writes.{Prepared}
use growth_clockwork.Writer.Files.{
  Entry, file, Tree, TreeStep, and_then, entry_at, open_directory_chain, parent_parts,
  read_relative_bytes, link_at, link_new, publish_exclusive, is_stage, is_stage_path, is_file,
  cleanup_stages, same_codes,
}
use growth_clockwork.Writer.Apply.{settled, wrapped, publish_or_keep, publish_each}
use growth_clockwork.Writer.Grows.{entry_at-here, keep-entry_at}
use growth_clockwork.Writer.Kept.{publish_each-Grows}
use growth_clockwork.Writer.Reach.{read-entry}

-- Where a step followed by another returned, both returned.
pub and_then-done :
    {A B : Type 0} (m : TreeStep A) (k : A → Tree → TreeStep B) (u : Tree) (b : B)
    → and_then m k ≡ settled u (done b)
    → (a : A) × (v : Tree) × (m ≡ settled v (done a)) × (k a v ≡ settled u (done b))
and_then-done (v, done a) k u b h = (a, v, refl, h)
and_then-done (v, failed e) k u b h =
    let k : failed e ≡ done b = ap (λ (p : TreeStep _). p.1) h in ground arith

pub wrapped-done :
    {A : Type 0} (n : ℕ) (m : TreeStep A) (u : Tree) (a : A)
    → wrapped n m ≡ settled u (done a)
    → m ≡ settled u (done a)
wrapped-done n (v, done b) u a h = h
wrapped-done n (v, failed e) u a h = let k = ap (λ (p : TreeStep _). p.1) h in ground arith

pub same_codes-eq : (b c : List ℕ) → same_codes b c ≡ true → b ≡ c
same_codes-eq [] [] h = refl
same_codes-eq (m ∷ b) (n ∷ c) h =
    let head : m ≡ n = ground (arith, ==_iff m n) in
    let tail = same_codes-eq b c (ground arith) in ap (λ k. k ∷ b) head ∙ ap (λ d. n ∷ d) tail
same_codes-eq [] (n ∷ c) h = ground arith
same_codes-eq (m ∷ b) [] h = ground arith

link_at-entry :
    (o : Option Entry) (p : RelPath) (b : List ℕ) (t u : Tree)
    → link_at o p b t ≡ settled u (done tt)
    → entry_at p u ≡ some (file b)
link_at-entry none p b t u h =
    ap (entry_at p) (sym (ap (λ (s : TreeStep Unit). s.0) h)) ∙ entry_at-here p (file b) t
link_at-entry (some e) p b t u h = let k = ap (λ (s : TreeStep Unit). s.1) h in ground arith

publish_exclusive-entry :
    (p : RelPath) (b : List ℕ) (t u : Tree)
    → publish_exclusive p b t ≡ settled u (done tt)
    → entry_at p u ≡ some (file b)
unfolding publish_exclusive link_new
publish_exclusive-entry p b t u h =
    let (found, v, opened, linked) =
      and_then-done (open_directory_chain true [] (parent_parts p) t) (λ f t. link_new p b t) u tt
        h in
    link_at-entry (entry_at p v) p b v u linked

-- After a write that returned its file holds its content.
publish_or_keep-entry :
    (w : Prepared) (t u : Tree) (o : Fallible Fault (Option (List ℕ)))
    → read_relative_bytes w.relative t ≡ o
    → publish_or_keep w t o ≡ settled u (done tt)
    → entry_at w.relative u ≡ some (file w.content)
publish_or_keep-entry w t u (failed e) h k =
    let c = ap (λ (s : TreeStep Unit). s.1) k in ground arith
publish_or_keep-entry w t u (done none) h k = publish_exclusive-entry w.relative w.content t u k
publish_or_keep-entry w t u (done (some b)) h k =
    let (r, there) = read-entry w.relative t b h in
    let same = same_codes-eq b w.content (check-done _ _ tt (ap (λ (s : TreeStep Unit). s.1) k)) in
    ap (entry_at w.relative) (sym (ap (λ (s : TreeStep Unit). s.0) k))
    ∙ there
    ∙ ap (λ c. some (file c)) same

abbrev pub Holds : Tree → Prepared → Type 0
Holds t w = entry_at w.relative t ≡ some (file w.content)

abbrev pub NoStage : Prepared → Type 0
NoStage w = is_stage_path w.relative ≡ false

abbrev pub Anywhere : RelPath → Type 0
Anywhere q = Unit

pub anywhere : (ws : List Prepared) → All (λ (w : Prepared). Anywhere w.relative) ws
anywhere [] = tt
anywhere (w ∷ ws) = (tt, anywhere ws)

pub publish_each-Holds :
    (n : ℕ) (ws : List Prepared) (t u : Tree)
    → All NoStage ws
    → publish_each n ws t ≡ settled u (done tt)
    → All (Holds u) ws
unfolding publish_each
publish_each-Holds n [] t u all h = tt
publish_each-Holds n (w ∷ ws) t u (here, all) h =
    let o = read_relative_bytes w.relative t in
    let (a, v, first, rest) =
      and_then-done (wrapped n (publish_or_keep w t o)) (λ a t. publish_each (suc n) ws t) u tt h in
    let held =
      publish_or_keep-entry w t v o refl (wrapped-done n (publish_or_keep w t o) v tt first) in
    let grows = publish_each-Grows Anywhere (suc n) ws v (anywhere ws) in
    (
      ap (entry_at w.relative) (sym (ap (λ (s : TreeStep Unit). s.0) rest))
          ∙ grows.kept w.relative w.content here held,
      publish_each-Holds (suc n) ws v u all rest,
    )

-- A directory without stages is left as it is by the cleanup.
abbrev pub Clear : Tree → Type 0
Clear t = (q : RelPath) → is_stage t q ≡ false

keep-every :
    (f : RelPath → Bool) (t : Tree)
    → ((q : RelPath) → f q ≡ true)
    → keep (λ (e : RelPath × Entry). f e.0) t ≡ t
unfolding keep
keep-every f [] h = refl
keep-every f ((q, e) ∷ t) h = ground (arith, keep-every f t h, h q)

pub cleanup_stages-same : (t : Tree) → Clear t → cleanup_stages t ≡ t
unfolding cleanup_stages
cleanup_stages-same t clear = keep-every (λ q. not (is_stage t q)) t (λ q. ap not (clear q))

pub cleanup_stages-Clear : (t : Tree) → Clear (cleanup_stages t)
unfolding cleanup_stages
cleanup_stages-Clear t q = cleared (keep-entry_at (λ p. not (is_stage t p)) q t)
  where
    cleared :
        {o : Option Entry}
        → o ≡ (if not (is_stage t q) then entry_at q t else none)
        → (is_stage_path q && is_file o) ≡ false
    cleared e = ground arith
