-- ===== src/Writer/Segments.antt =====
-- The parts of a relative path of pipeline/root_writer.py, split at the slashes and joined again.
use Prim.Native.Char.{Char, code}
use growth_clockwork.Prelude.{
  ◌≡◌, refl, sym, ap, ◌∙◌, subst, String, Bool, true, false, ◌||◌, List, [], ◌∷◌, arith, All, any,
  keep, if◌then◌else◌, Bool-cases, inl, inr, codes,
}
use growth_clockwork.Writer.Paths.{is_slash, put_first, split, is_forbidden, append_text, as_posix}

-- A text without a slash, and one without a forbidden character.
abbrev pub NoSlash : String → Type 0
NoSlash String.[] = Unit
NoSlash (String.◌∷◌ c s) = (is_slash c ≡ false) × NoSlash s

abbrev pub Plain : String → Type 0
Plain s = any is_forbidden (codes s) ≡ false

pub split_empty : split String.[] ≡ String.[] ∷ []
unfolding split
split_empty = refl

pub split_slash :
    (c : Char) (s : String) → is_slash c ≡ true → split (String.◌∷◌ c s) ≡ String.[] ∷ split s
unfolding split
split_slash c s h = ground arith

pub split_char :
    (c : Char) (s : String) → is_slash c ≡ false → split (String.◌∷◌ c s) ≡ put_first c (split s)
unfolding split
split_char c s h = ground arith

put_first-NoSlash :
    (c : Char) (ps : List String)
    → is_slash c ≡ false
    → All NoSlash ps
    → All NoSlash (put_first c ps)
put_first-NoSlash c [] h all = tt
put_first-NoSlash c (p ∷ ps) h (n, all) = ((h, n), all)

pub split-NoSlash : (s : String) → All NoSlash (split s)
split-NoSlash String.[] = subst (All NoSlash) (sym split_empty) (tt, tt)
split-NoSlash (String.◌∷◌ c s) = elim (Bool-cases (is_slash c)) [
  | inl h ↦ subst (All NoSlash) (sym (split_slash c s h)) (tt, split-NoSlash s)
  | inr h ↦
      subst (All NoSlash) (sym (split_char c s h))
        (put_first-NoSlash c (split s) h (split-NoSlash s))
]

put_first-Plain :
    (c : Char) (ps : List String)
    → is_forbidden (code c) ≡ false
    → All Plain ps
    → All Plain (put_first c ps)
put_first-Plain c [] h all = tt
put_first-Plain c (p ∷ ps) h (n, all) = (ground arith, all)

pub split-Plain : (s : String) → Plain s → All Plain (split s)
unfolding split
split-Plain String.[] h = (refl, tt)
split-Plain (String.◌∷◌ c s) h =
    let (here, rest) = parted (is_forbidden (code c)) (any is_forbidden (codes s)) h in
    elim (Bool-cases (is_slash c)) [
      | inl k ↦ subst (All Plain) (sym (split_slash c s k)) (refl, split-Plain s rest)
      | inr k ↦
          subst (All Plain) (sym (split_char c s k))
            (put_first-Plain c (split s) here (split-Plain s rest))
    ]
  where
    parted : (a b : Bool) → (a || b) ≡ false → (a ≡ false) × (b ≡ false)
    parted a b h = ground arith

module _ (P : String → Type 0) (f : String → Bool) where
  pub keep-All : (ps : List String) → All P ps → All P (keep f ps)
  unfolding keep
  keep-All [] all = tt
  keep-All (p ∷ ps) (here, all) = kept (f p) (keep f ps) here (keep-All ps all)
    where
      kept :
          (b : Bool) (rest : List String) → P p → All P rest → All P (if b then p ∷ rest else rest)
      kept true rest h all = (h, all)
      kept false rest h all = all

abbrev pub Passes : (String → Bool) → Bool → String → Type 0
Passes f b p = f p ≡ b

pub keep-Passes : (f : String → Bool) (ps : List String) → All (Passes f true) (keep f ps)
unfolding keep
keep-Passes f [] = tt
keep-Passes f (p ∷ ps) = kept (f p) (keep f ps) refl (keep-Passes f ps)
  where
    kept :
        (b : Bool) (rest : List String)
        → f p ≡ b
        → All (Passes f true) rest
        → All (Passes f true) (if b then p ∷ rest else rest)
    kept true rest h all = (h, all)
    kept false rest h all = all

pub keep-same : (f : String → Bool) (ps : List String) → All (Passes f true) ps → keep f ps ≡ ps
unfolding keep
keep-same f [] all = refl
keep-same f (p ∷ ps) (h, all) = ground (arith, keep-same f ps all)

split_one : (p : String) → NoSlash p → split p ≡ p ∷ []
split_one String.[] n = split_empty
split_one (String.◌∷◌ c s) (h, n) = split_char c s h ∙ ap (put_first c) (split_one s n)

split_more : (p r : String) → NoSlash p → split (append_text p (append_text "/" r)) ≡ p ∷ split r
split_more String.[] r n = split_slash _ r refl
split_more (String.◌∷◌ c s) r (h, n) =
    split_char c (append_text s (append_text "/" r)) h ∙ ap (put_first c) (split_more s r n)

pub split-as_posix :
    (p : String) (ps : List String) → All NoSlash (p ∷ ps) → split (as_posix (p ∷ ps)) ≡ p ∷ ps
unfolding as_posix
split-as_posix p [] (n, all) = split_one p n
split-as_posix p (q ∷ ps) (n, all) =
    split_more p (as_posix (q ∷ ps)) n ∙ ap (λ rest. p ∷ rest) (split-as_posix q ps all)
