-- ===== src/Schema/Depth.antt =====
-- The depth of a schema of pipeline/validate_json_suites.py.
use growth_clockwork.Prelude.{
  ℕ, suc, ◌≡◌, ◌≤◌, ◌<◌, String, true, false, some, arith, leb, Bool-cases, inl, inr, str_eq,
  if◌then◌else◌, subst,
}
use growth_clockwork.Json.{Json, arr, obj, Items, nil, cons, Fields, end, field, get_field}

abbrev pub max_of : ℕ → ℕ → ℕ
max_of m n = if leb m n then n else m

unfoldable mutual
  pub depth : Json → ℕ
  depth (arr vs) = suc (items_depth vs)
  depth (obj fs) = suc (fields_depth fs)
  depth _ = 0

  pub items_depth : Items → ℕ
  items_depth nil = 0
  items_depth (cons v vs) = max_of (depth v) (items_depth vs)

  pub fields_depth : Fields → ℕ
  fields_depth end = 0
  fields_depth (field k v fs) = max_of (depth v) (fields_depth fs)

max_left : (m n k : ℕ) → m ≤ k → m ≤ max_of k n
max_left m n k h = ground arith

max_right : (m n k : ℕ) → m ≤ n → m ≤ max_of k n
max_right m n k h = ground arith

pub max_parts_below : (m n k : ℕ) → max_of m n < k → (m < k) × (n < k)
max_parts_below m n k h = ground arith

found :
    (k j : String) (w v : Json) (fs : Fields)
    → str_eq j k ≡ true
    → get_field k (field j w fs) ≡ some v
    → w ≡ v
found k j w v fs e h = ground arith

not_found :
    (k j : String) (w v : Json) (fs : Fields)
    → str_eq j k ≡ false
    → get_field k (field j w fs) ≡ some v
    → get_field k fs ≡ some v
not_found k j w v fs e h = ground arith

pub get_field-depth :
    (k : String) (fs : Fields) (v : Json) → get_field k fs ≡ some v → depth v ≤ fields_depth fs
unfolding depth
get_field-depth k end v h = ground arith
get_field-depth k (field j w fs) v h = elim (Bool-cases (str_eq j k)) [
  | inl e ↦
      subst (λ u. depth u ≤ fields_depth (field j w fs)) (found k j w v fs e h)
        (max_left (depth w) (fields_depth fs) (depth w) (omega arith))
  | inr e ↦
      max_right (depth v) (fields_depth fs) (depth w)
        (get_field-depth k fs v (not_found k j w v fs e h))
]
