-- ===== src/Prelude/Texts.antt =====
-- Lists of texts as Python's sets and sorted lists of them.
use Prim.Native.String.{String}
use mathlib.Core.Path.{◌≡◌, refl, subst}
use mathlib.Core.Logic.{inl, inr}
use text.Mathlib.TextEquality.{eq_iff}
use mathlib.Core.Bool.{Bool, true, false, ◌||◌}
use mathlib.Core.List.{List, [], ◌∷◌}
use native.Mathlib.Omega.{arith}
use text.Mathlib.Text.{◌==◌ as str_eq}
use growth_clockwork.Prelude.Tests.{if◌then◌else◌, Bool-cases}
use growth_clockwork.Prelude.Text.{codes, text_leb}

-- `value in texts`
abbrev pub is_in : String → List String → Bool
is_in x [] = false
is_in x (y ∷ ys) = str_eq x y || is_in x ys

-- The entries that pass a test, in order.
unfoldable pub keep {ℓ} : {A : Type ℓ} → (A → Bool) → List A → List A
keep p [] = []
keep p (x ∷ xs) = let rest = keep p xs in if p x then x ∷ rest else rest

-- `set(texts)`: one of each text.
unfoldable pub distinct : List String → List String
distinct [] = []
distinct (x ∷ xs) = let rest = distinct xs in if is_in x xs then rest else x ∷ rest

unfoldable pub insert_text : String → List String → List String
insert_text x [] = x ∷ []
insert_text x (y ∷ ys) =
    let rest = insert_text x ys in if text_leb (codes x) (codes y) then x ∷ y ∷ ys else y ∷ rest

-- `sorted(texts)`
unfoldable pub sort_texts : List String → List String
unfolding insert_text
sort_texts [] = []
sort_texts (x ∷ xs) = insert_text x (sort_texts xs)

pub keep-none {ℓ} :
    {A : Type ℓ} (p : A → Bool) (x : A) (xs : List A)
    → keep p (x ∷ xs) ≡ []
    → (p x ≡ false) × (keep p xs ≡ [])
unfolding keep
keep-none p x xs h = ground arith

pub keep-empty {ℓ} :
    {A : Type ℓ} (p : A → Bool) (x : A) (xs : List A)
    → p x ≡ false
    → keep p xs ≡ []
    → keep p (x ∷ xs) ≡ []
unfolding keep
keep-empty p x xs h k = ground arith

-- A sorted set is empty only where the set is.
pub insert_text-some : (x : String) (xs : List String) → insert_text x xs ≡ [] → ⊥
unfolding insert_text
insert_text-some x [] h = ground arith
insert_text-some x (y ∷ ys) h = ground arith

pub sort_texts-none : (xs : List String) → sort_texts xs ≡ [] → xs ≡ []
unfolding sort_texts
sort_texts-none [] h = refl
sort_texts-none (x ∷ xs) h = absurd (insert_text-some x (sort_texts xs) h)

pub distinct-none : (xs : List String) → distinct xs ≡ [] → xs ≡ []
unfolding distinct
distinct-none [] h = refl
distinct-none (x ∷ xs) h = ground (arith, distinct-none xs)

-- Nothing is kept exactly where every member fails the test.
pub keep-members :
    (q : String → Bool) (xs : List String)
    → keep q xs ≡ []
    → (a : String) → is_in a xs ≡ true
    → q a ≡ false
unfolding keep
keep-members q [] h a k = ground arith
keep-members q (x ∷ xs) h a k = elim (Bool-cases (str_eq a x)) [
  | inl e ↦
      let same : x ≡ a = ground (arith, eq_iff a x) in
      let fails : q x ≡ false = ground arith in subst (λ z. q z ≡ false) same fails
  | inr e ↦ keep-members q xs (ground arith) a (ground arith)
]

str_eq-same : (x : String) → str_eq x x ≡ true
str_eq-same x = ground (arith, eq_iff x x)

pub members-keep :
    (q : String → Bool) (xs : List String)
    → ((a : String) → is_in a xs ≡ true → q a ≡ false)
    → keep q xs ≡ []
unfolding keep
members-keep q [] h = refl
members-keep q (x ∷ xs) h =
    let here = h x (ground (arith, str_eq-same x)) in
    let rest = members-keep q xs (λ a k. h a (ground arith)) in ground arith
