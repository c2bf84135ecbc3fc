-- ===== src/Writer/Transactions.antt =====
-- The transaction directory of pipeline/root_writer.py and the stages in it, before and after an
-- application.
use growth_clockwork.Prelude.{
  ◌≡◌, refl, sym, ap, ◌∙◌, String, Bool, true, false, ◌&&◌, Option, none, some, List, [], ◌∷◌,
  arith, All, Bool-cases, inl, inr,
}
use growth_clockwork.Prelude.Fallible.{done}
use growth_clockwork.Writer.{RelPath}
use growth_clockwork.Writer.Paths.{under_any}
use growth_clockwork.Writer.Profile.{Profile}
use growth_clockwork.Writer.Requests.{Host}
use growth_clockwork.Writer.Writes.{Prepared}
use growth_clockwork.Writer.Files.{
  Entry, file, folder, link, Tree, TreeStep, entry_at, make_folder, add_missing, enter,
  open_directory_chain, is_stage, is_stage_path, is_file,
}
use growth_clockwork.Writer.Apply.{settled}
use growth_clockwork.Writer.Grows.{Grows, entry_at-here}
use growth_clockwork.Writer.Targets.{Ready}
use growth_clockwork.Writer.Kept.{Allowed}
use growth_clockwork.Writer.Published.{NoStage, Clear}

-- No allowed root holds the writer's stages.
abbrev pub Reserved : Profile → Type 0
Reserved profile =
    (q : RelPath) → is_stage_path q ≡ true → under_any profile.policy.allowed_roots q ≡ false

pub grown-Clear :
    (profile : Profile) (t u : Tree)
    → Reserved profile
    → Grows (Allowed profile) t u
    → Clear t
    → Clear u
grown-Clear profile t u reserved g clear q = elim (Bool-cases (is_stage u q)) [
  | inl h ↦ absurd (staged (is_stage_path q) refl (entry_at q u) refl h)
  | inr h ↦ h
]
  where
    staged :
        (b : Bool)
        → is_stage_path q ≡ b
        → (o : Option Entry) → entry_at q u ≡ o
        → (is_stage_path q && is_file (entry_at q u)) ≡ true
        → ⊥
    staged false e o k h = ground arith
    staged true e none k h = ground arith
    staged true e (some folder) k h = ground arith
    staged true e (some link) k h = ground arith
    staged true e (some (file c)) k h = elim (g.placed q c k) [
      | inl there ↦ let none_left = clear q in ground arith
      | inr allowed ↦ let kept_out = reserved q e in ground arith
    ]

pub Ready-NoStage :
    (host : Host) (profile : Profile) (ws : List Prepared)
    → Reserved profile
    → All (Ready host profile.policy) ws
    → All NoStage ws
Ready-NoStage host profile [] reserved all = tt
Ready-NoStage host profile (w ∷ ws) reserved (r, all) =
    (free (is_stage_path w.relative) refl, Ready-NoStage host profile ws reserved all)
  where
    free : (b : Bool) → is_stage_path w.relative ≡ b → is_stage_path w.relative ≡ false
    free false e = e
    free true e =
        let kept_out = reserved w.relative e in let under = r.target.place.under in ground arith

made_there :
    (p : RelPath) (t : Tree) (o : Option Entry)
    → entry_at p t ≡ o
    → entry_at p (add_missing o p folder t) ≡ none
    → ⊥
made_there p t none h k = let here = entry_at-here p folder t in ground arith
made_there p t (some e) h k = ground arith

entered_folder :
    (o : Option Entry) (p : RelPath) (m u : Tree) (found : Bool)
    → entry_at p m ≡ o
    → (entry_at p m ≡ none → ⊥)
    → enter o p m (settled m (done true)) ≡ settled u (done found)
    → entry_at p u ≡ some folder
entered_folder none p m u found h k e = absurd (k h)
entered_folder (some folder) p m u found h k e =
    ap (entry_at p) (sym (ap (λ (s : TreeStep Bool). s.0) e)) ∙ h
entered_folder (some (file b)) p m u found h k e =
    let c = ap (λ (s : TreeStep Bool). s.1) e in ground arith
entered_folder (some link) p m u found h k e =
    let c = ap (λ (s : TreeStep Bool). s.1) e in ground arith

-- The directory of the transactions is there after it was opened.
pub opened-folder :
    (name : String) (t u : Tree) (found : Bool)
    → open_directory_chain true [] (name ∷ []) t ≡ settled u (done found)
    → entry_at (name ∷ []) u ≡ some folder
unfolding open_directory_chain
opened-folder name t u found h =
    let m = make_folder true (name ∷ []) t in
    entered_folder (entry_at (name ∷ []) m) (name ∷ []) m u found refl
      (made_there (name ∷ []) t (entry_at (name ∷ []) t) refl) h
