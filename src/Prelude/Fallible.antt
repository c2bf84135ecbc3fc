-- ===== src/Prelude/Fallible.antt =====
-- A result or the exception that was raised, for code that reads and checks.
use mathlib.Core.Path.{◌≡◌, refl}
use mathlib.Core.Bool.{Bool, true, false}
use mathlib.Core.List.{List, [], ◌∷◌}
use native.Mathlib.Omega.{arith}

pub data Fallible (E A : Type 0) : Type 0 where
  done : A → Fallible E A
  failed : E → Fallible E A

infixl 5 ◌>>=◌ ◌>>◌
abbrev pub ◌>>=◌ : {E A B : Type 0} → Fallible E A → (A → Fallible E B) → Fallible E B
◌>>=◌ (done a) f = f a
◌>>=◌ (failed e) f = failed e

abbrev pub ◌>>◌ : {E A B : Type 0} → Fallible E A → Fallible E B → Fallible E B
m >> k = m >>= λ _. k

module _ {E : Type 0} where
  -- `if not b: raise e`
  abbrev pub check : Bool → E → Fallible E (Unit {0})
  check true e = done tt
  check false e = failed e

  -- The loop `for x in xs: step(x)`.
  unfoldable pub each : {A : Type 0} → (A → Fallible E (Unit {0})) → List A → Fallible E (Unit {0})
  each step [] = done tt
  each step (x ∷ xs) = step x >> each step xs

  pub bind-done :
      {A B : Type 0} (m : Fallible E A) (f : A → Fallible E B) (b : B)
      → m >>= f ≡ done b
      → (a : A) × (m ≡ done a) × (f a ≡ done b)
  bind-done (done a) f b h = (a, refl, h)
  bind-done (failed e) f b h = ground arith

  pub then-done :
      {A B : Type 0} (m : Fallible E A) (k : Fallible E B) (b : B)
      → m >> k ≡ done b
      → (a : A) × (m ≡ done a) × (k ≡ done b)
  then-done (done a) k b h = (a, refl, h)
  then-done (failed e) k b h = ground arith

  pub check-done : (t : Bool) (e : E) (u : Unit) → check t e ≡ done u → t ≡ true
  check-done true e u h = refl
  check-done false e u h = ground arith

  -- What holds of every element that the loop went through.
  abbrev pub Each : {A : Type 0} → (A → Fallible E (Unit {0})) → List A → Type 0
  Each step [] = Unit
  Each step (x ∷ xs) = (step x ≡ done tt) × Each step xs

  pub each-Each :
      {A : Type 0} (step : A → Fallible E (Unit {0})) (xs : List A)
      → each step xs ≡ done tt
      → Each step xs
  unfolding each
  each-Each step [] h = tt
  each-Each step (x ∷ xs) h =
      let (u, first, rest) = then-done (step x) (each step xs) tt h in
      (first, each-Each step xs rest)
