-- ===== src/Writer/Slashes.antt =====
-- The last part of a path's text of pipeline/root_writer.py that ends in a slash.
use Prim.Native.Char.{Char}
use growth_clockwork.Prelude.{
  ◌≡◌, refl, sym, subst, String, true, List, [], ◌∷◌, arith, All, eq_iff, Bool-cases, inl, inr,
}
use growth_clockwork.Writer.Paths.{is_slash, put_first, split, is_part, ends_in_slash}
use growth_clockwork.Writer.Segments.{Passes, split_empty, split_slash, split_char}

-- The last part is empty, and is not the only one.
abbrev pub LastEmpty : String → List String → Type 0
LastEmpty p [] = p ≡ ""
LastEmpty p (q ∷ ps) = LastEmpty q ps

abbrev pub EndsEmpty : List String → Type 0
EndsEmpty [] = ⊥
EndsEmpty (p ∷ []) = ⊥
EndsEmpty (p ∷ q ∷ ps) = LastEmpty q ps

pub after_slash : (p : String) (ps : List String) → EndsEmpty ps → EndsEmpty (p ∷ ps)
after_slash p [] h = absurd h
after_slash p (q ∷ []) h = absurd h
after_slash p (q ∷ r ∷ ps) h = h

after_char : (c : Char) (ps : List String) → EndsEmpty ps → EndsEmpty (put_first c ps)
after_char c [] h = absurd h
after_char c (p ∷ []) h = absurd h
after_char c (p ∷ q ∷ ps) h = h

pub split-EndsEmpty : (s : String) → ends_in_slash s ≡ true → EndsEmpty (split s)
split-EndsEmpty String.[] h = ground arith
split-EndsEmpty (String.◌∷◌ c String.[]) h =
    subst EndsEmpty (sym (split_slash c String.[] h))
      (subst (λ ps. EndsEmpty (String.[] ∷ ps)) (sym split_empty) refl)
split-EndsEmpty (String.◌∷◌ c (String.◌∷◌ d s)) h =
    let more = split-EndsEmpty (String.◌∷◌ d s) h in
    elim (Bool-cases (is_slash c)) [
      | inl k ↦
          subst EndsEmpty (sym (split_slash c (String.◌∷◌ d s) k))
            (after_slash String.[] (split (String.◌∷◌ d s)) more)
      | inr k ↦
          subst EndsEmpty (sym (split_char c (String.◌∷◌ d s) k))
            (after_char c (split (String.◌∷◌ d s)) more)
    ]

pub no_part : (p : String) → p ≡ "" → is_part p ≡ true → ⊥
no_part p h k = ground (arith, eq_iff p "")

last_part :
    (p : String) (ps : List String) → All (Passes is_part true) (p ∷ ps) → LastEmpty p ps → ⊥
last_part p [] (h, all) e = no_part p e h
last_part p (q ∷ ps) (h, all) e = last_part q ps all e

pub all_parts : (ps : List String) → All (Passes is_part true) ps → EndsEmpty ps → ⊥
all_parts [] all h = h
all_parts (p ∷ []) all h = h
all_parts (p ∷ q ∷ ps) (k, all) h = last_part q ps all h
