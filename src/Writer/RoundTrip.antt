-- ===== src/Writer/RoundTrip.antt =====
-- `_validate_relative_path` of pipeline/root_writer.py on the text of a path that it has accepted.
use Prim.Native.Char.{code}
use growth_clockwork.Prelude.{
  ◌≡◌, refl, sym, ap, ◌∙◌, subst, String, Bool, true, false, not, ◌||◌, List, [], ◌∷◌, arith, All,
  any, keep, str_eq, eq_iff, is_in, Bool-cases, inl, inr, codes,
}
use growth_clockwork.Prelude.Fallible.{done, check, then-done, check-done}
use growth_clockwork.Json.{Json, str}
use growth_clockwork.Writer.{RelPath}
use growth_clockwork.Writer.Paths.{
  is_slash, split, is_part, parts, is_absolute, ends_in_slash, is_forbidden, has_no_parts,
  is_unsafe, validate_path_text, validate_relative_path, append_text, as_posix,
}
use growth_clockwork.Writer.Targets.{done-injective}
use growth_clockwork.Writer.Segments.{
  NoSlash, Plain, Passes, split_empty, split_slash, split-NoSlash, split-Plain, keep-All,
  keep-Passes, keep-same, split-as_posix,
}
use growth_clockwork.Writer.Slashes.{EndsEmpty, split-EndsEmpty, no_part, all_parts}

-- What the parts of an accepted path are.
record Clean (p : String) (ps : List String) : Type 0 where
  apart : All NoSlash (p ∷ ps)
  plain : All Plain (p ∷ ps)
  named : All (Passes is_part true) (p ∷ ps)
  safe : any is_unsafe (p ∷ ps) ≡ false
  outside : is_in ".git" (p ∷ ps) ≡ false

forbidden-append : (s t : String) → Plain s → Plain t → Plain (append_text s t)
forbidden-append String.[] t h k = k
forbidden-append (String.◌∷◌ c s) t h k =
    joined (is_forbidden (code c)) _ _ h (forbidden-append s t)
  where
    joined :
        (a b d : Bool) → (a || b) ≡ false → (b ≡ false → Plain t → d ≡ false) → (a || d) ≡ false
    joined true b d h f = ground arith
    joined false b d h f = f h k

as_posix-Plain : (p : String) (ps : List String) → All Plain (p ∷ ps) → Plain (as_posix (p ∷ ps))
unfolding as_posix
as_posix-Plain p [] (h, all) = h
as_posix-Plain p (q ∷ ps) (h, all) =
    forbidden-append p (append_text "/" (as_posix (q ∷ ps))) h
      (forbidden-append "/" (as_posix (q ∷ ps)) refl (as_posix-Plain q ps all))

-- A text whose parts are clean is none of the texts that are refused.
split_not :
    (s t : String) (ps : List String) → split s ≡ ps → (split t ≡ ps → ⊥) → str_eq s t ≡ false
split_not s t ps h f = elim (Bool-cases (str_eq s t)) [
  | inl e ↦ let same : s ≡ t = ground (arith, eq_iff s t) in absurd (f (ap split (sym same) ∙ h))
  | inr e ↦ e
]

single_not :
    (t p : String) (ps : List String)
    → split t ≡ t ∷ []
    → is_part t ≡ false
    → All (Passes is_part true) (p ∷ ps)
    → split t ≡ p ∷ ps
    → ⊥
single_not t p ps h n (k, all) e =
    let same : p ≡ t = first p t ps [] (sym e ∙ h) in
    let clash : false ≡ true = sym n ∙ ap is_part (sym same) ∙ k in ground arith
  where
    first : (a b : String) (as_ bs : List String) → a ∷ as_ ≡ b ∷ bs → a ≡ b
    first a b as_ bs h = cc

not_absolute :
    (s p : String) (ps : List String) → split s ≡ p ∷ ps → is_part p ≡ true → is_absolute s ≡ false
not_absolute String.[] p ps h k = refl
not_absolute (String.◌∷◌ c s) p ps h k = elim (Bool-cases (is_slash c)) [
  | inl e ↦ absurd (no_part p (first p String.[] ps (split s) (sym h ∙ split_slash c s e)) k)
  | inr e ↦ e
]
  where
    first : (a b : String) (xs ys : List String) → a ∷ xs ≡ b ∷ ys → a ≡ b
    first a b xs ys h = cc

not_ending :
    (s p : String) (ps : List String)
    → split s ≡ p ∷ ps
    → All (Passes is_part true) (p ∷ ps)
    → ends_in_slash s ≡ false
not_ending s p ps h all = elim (Bool-cases (ends_in_slash s)) [
  | inl e ↦ absurd (all_parts (p ∷ ps) all (subst EndsEmpty h (split-EndsEmpty s e)))
  | inr e ↦ e
]

abbrev Cleaned : RelPath → Type 0
Cleaned [] = ⊥
Cleaned (p ∷ ps) = Clean p ps

gathered :
    (q : RelPath) (b : Bool)
    → All NoSlash q
    → All Plain q
    → All (Passes is_part true) q
    → any is_unsafe q ≡ false
    → is_in ".git" q ≡ false
    → not (has_no_parts q || b) ≡ true
    → Cleaned q
gathered [] b a c d e f g = ground arith
gathered (p ∷ ps) b a c d e f g = record { apart = a; plain = c; named = d; safe = e; outside = f }

parts-All : (P : String → Type 0) (raw : String) → All P (split raw) → All P (parts raw)
unfolding parts
parts-All P raw all = keep-All P is_part (split raw) all

parts-named : (raw : String) → All (Passes is_part true) (parts raw)
unfolding parts
parts-named raw = keep-Passes is_part (split raw)

not-true : (b : Bool) → not b ≡ true → b ≡ false
not-true b h = ground arith

clean_text : (raw label : String) (q : RelPath) → validate_path_text raw label ≡ done q → Cleaned q
unfolding validate_path_text
clean_text raw label q h =
    let (u5, h5, last) = then-done _ (done (parts raw)) q h in
    let (u4, h4, c5) = then-done _ (check _ _) u5 h5 in
    let (u3, h3, c4) = then-done _ (check _ _) u4 h4 in
    let (u2, h2, c3) = then-done _ (check _ _) u3 h3 in
    let (u1, c1, c2) = then-done _ (check _ _) u2 h2 in
    subst Cleaned (done-injective (parts raw) q last) (
      gathered (parts raw) (str_eq raw "." || (is_absolute raw || ends_in_slash raw))
        (parts-All NoSlash raw (split-NoSlash raw))
        (parts-All Plain raw
          (split-Plain raw (not-true (any is_forbidden (codes raw)) (check-done _ _ u2 c2))))
        (parts-named raw) (not-true (any is_unsafe (parts raw)) (check-done _ _ u4 c4))
        (not-true (is_in ".git" (parts raw)) (check-done _ _ u5 c5)) (check-done _ _ u3 c3))

checked_text :
    (s label : String) (p : String) (ps : List String)
    → parts s ≡ p ∷ ps
    → str_eq s "" ≡ false
    → any is_forbidden (codes s) ≡ false
    → str_eq s "." ≡ false
    → is_absolute s ≡ false
    → ends_in_slash s ≡ false
    → any is_unsafe (p ∷ ps) ≡ false
    → is_in ".git" (p ∷ ps) ≡ false
    → validate_path_text s label ≡ done (p ∷ ps)
unfolding validate_path_text
checked_text s label p ps h a b c d e f g = ground arith

parts-as_posix : (p : String) (ps : List String) → Clean p ps → parts (as_posix (p ∷ ps)) ≡ p ∷ ps
unfolding parts
parts-as_posix p ps c =
    ap (keep is_part) (split-as_posix p ps c.apart) ∙ keep-same is_part (p ∷ ps) c.named

one_dot : split "." ≡ "." ∷ []
unfolding split
one_dot = refl

Cleaned-valid :
    (path : RelPath) (label : String)
    → Cleaned path
    → validate_path_text (as_posix path) label ≡ done path
Cleaned-valid [] label c = absurd c
Cleaned-valid (p ∷ ps) label c =
    let s = as_posix (p ∷ ps) in
    let splits = split-as_posix p ps c.apart in
    checked_text s label p ps (parts-as_posix p ps c)
      (split_not s "" (p ∷ ps) splits (single_not "" p ps split_empty refl c.named))
      (as_posix-Plain p ps c.plain)
      (split_not s "." (p ∷ ps) splits (single_not "." p ps one_dot refl c.named))
      (not_absolute s p ps splits (c.named.0)) (not_ending s p ps splits c.named) c.safe c.outside

-- The text of an accepted path is accepted, as the same path.
pub validate_path_text-as_posix :
    (raw label again : String) (path : RelPath)
    → validate_path_text raw label ≡ done path
    → validate_path_text (as_posix path) again ≡ done path
validate_path_text-as_posix raw label again path h =
    Cleaned-valid path again (clean_text raw label path h)

-- A path that is read from a receipt is the path that was written into it: the text of an accepted
-- path is accepted as the same path, under any label.
pub validate_relative_path-as_posix :
    (v : Json) (label again : String) (path : RelPath)
    → validate_relative_path v label ≡ done path
    → validate_relative_path (str (as_posix path)) again ≡ done path
unfolding validate_relative_path
validate_relative_path-as_posix (str raw) label again path h =
    validate_path_text-as_posix raw label again path h
validate_relative_path-as_posix _ label again path h = ground arith
