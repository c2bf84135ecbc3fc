-- ===== src/Ingress/Readers.antt =====
-- What each reader of an event has checked where it succeeds.
use growth_clockwork.Prelude.{
  ◌≡◌, refl, String, Bool, true, false, Option, none, some, List, [], ◌∷◌, ◌&&◌, arith, all,
  is_sha256, str_eq, eq_iff, subst, sym, Bool-cases, Option-cases, inl, inr,
}
use growth_clockwork.Prelude.Int.{ℤ, pos, leb_ℤ}
use growth_clockwork.Json.{Json, null, bool, num, str, arr, obj, Fields, get_field, has_exactly}
use growth_clockwork.Broker.Tables.{check_origin}
use growth_clockwork.Broker.Session.{Env, Result, ok, err}
use growth_clockwork.Broker.Permissions.{is_text}
use growth_clockwork.Broker.Admission.{parent_is_text}
use growth_clockwork.Ingress.{
  ◌>>=◌, ◌>>◌, check, origin_of, text_member, hash_member, counters, parent_of, identity_of,
  identity_fields, identity_digest, check_identity_field, text_option, member,
}

pub bind-ok :
    {A B : Type 0} (m : Result A) (f : A → Result B) (b : B)
    → m >>= f ≡ ok b
    → (a : A) × (m ≡ ok a) × (f a ≡ ok b)
bind-ok (ok a) f b h = (a, refl, h)
bind-ok (err e) f b h = ground arith

pub check-ok :
    {B : Type 0} (t : Bool) (message : String) (k : Result B) (b : B)
    → check t message >> k ≡ ok b
    → (t ≡ true) × (k ≡ ok b)
check-ok true message k b h = (refl, h)
check-ok false message k b h = ground arith

pub member-there :
    (fs : Fields) (k : String) (v : Json) → member fs k ≡ ok v → get_field k fs ≡ some v
member-there fs k v h = elim (Option-cases (get_field k fs)) [
  | inl absent ↦ absurd (ground arith)
  | inr (w, there) ↦ ground (arith, there)
]

pub text_member-is_text :
    (fs : Fields) (key label s : String) → text_member fs key label ≡ ok s → is_text s ≡ true
text_member-is_text fs key label s h = elim (Option-cases (get_field key fs)) [
  | inl absent ↦ absurd (ground arith)
  | inr (v, there) ↦ go v there
]
  where
    go : (v : Json) → get_field key fs ≡ some v → is_text s ≡ true
    go null e = absurd (ground arith)
    go (bool b) e = absurd (ground arith)
    go (num n) e = absurd (ground arith)
    go (str t) e = ground arith
    go (arr xs) e = absurd (ground arith)
    go (obj gs) e = absurd (ground arith)

pub hash_member-is_sha256 : (fs : Fields) (s : String) → hash_member fs ≡ ok s → is_sha256 s ≡ true
hash_member-is_sha256 fs s h = elim (Option-cases (get_field "input_sha256" fs)) [
  | inl absent ↦ absurd (ground arith)
  | inr (v, there) ↦ go v there
]
  where
    go : (v : Json) → get_field "input_sha256" fs ≡ some v → is_sha256 s ≡ true
    go null e = absurd (ground arith)
    go (bool b) e = absurd (ground arith)
    go (num n) e = absurd (ground arith)
    go (str t) e = ground arith
    go (arr xs) e = absurd (ground arith)
    go (obj gs) e = absurd (ground arith)

pub counters-bounds :
    (a b : Option Json) (n m : ℤ)
    → counters a b ≡ ok (n, m)
    → leb_ℤ (pos 0) n && (leb_ℤ (pos 1) m && leb_ℤ m (pos 5)) ≡ true
counters-bounds none b n m h = ground arith
counters-bounds (some v) none n m h = ground arith
counters-bounds (some (num k)) (some (num l)) n m h = ground arith
counters-bounds (some (num k)) (some _) n m h = ground arith
counters-bounds (some _) (some _) n m h = ground arith

pub origin_of-known :
    (v : Option Json) (o : String) (required : List String)
    → origin_of v ≡ ok (o, required)
    → identity_fields o ≡ some required
origin_of-known none o required h = ground arith
origin_of-known (some (str t)) o required h = elim (Option-cases (identity_fields t)) [
  | inl unknown ↦ absurd (ground arith)
  | inr (fields, known) ↦ ground arith
]
origin_of-known (some _) o required h = ground arith

pub identity_of-digest :
    (env : Env) (o : String) (required : List String) (v : Json) (k : String)
    → identity_of env o required v ≡ ok k
    → (fs : Fields) × (v ≡ obj fs)
      × (all (check_identity_field fs) required ≡ true)
      × (k ≡ identity_digest env o fs)
identity_of-digest env o required (obj fs) k h =
    let (_, h1) =
      check-ok (has_exactly fs required) _
        (check (all (check_identity_field fs) required) "Invalid ingress identity field"
          >> ok (identity_digest env o fs))
        k h in
    let (h2, h3) =
      check-ok (all (check_identity_field fs) required) _ (ok (identity_digest env o fs)) k h1 in
    (fs, refl, h2, ground arith)
identity_of-digest env o required _ k h = absurd (ground arith)

pub origin-known :
    (o : String) (required : List String)
    → identity_fields o ≡ some required
    → check_origin o ≡ true
unfolding identity_fields check_origin
origin-known o required h = ground arith

pub agent-fields :
    (o : String) (required : List String)
    → str_eq o "agent" ≡ true
    → identity_fields o ≡ some required
    → some ("parent_task_id" ∷ "event_id" ∷ []) ≡ some required
unfolding identity_fields
agent-fields o required agent known =
    let same : o ≡ "agent" = ground (arith, eq_iff o "agent") in
    subst (λ x. identity_fields x ≡ some required) same known

pub checked_text :
    (fs : Fields)
    → check_identity_field fs "parent_task_id" ≡ true
    → parent_is_text (text_option (get_field "parent_task_id" fs)) ≡ true
unfolding check_identity_field
checked_text fs h = elim (Option-cases (get_field "parent_task_id" fs)) [
  | inl absent ↦ absurd (ground arith)
  | inr (v, there) ↦ go v there
]
  where
    go :
        (v : Json)
        → get_field "parent_task_id" fs ≡ some v
        → parent_is_text (text_option (get_field "parent_task_id" fs)) ≡ true
    go null e = absurd (ground arith)
    go (bool b) e = absurd (ground arith)
    go (num n) e = absurd (ground arith)
    go (str t) e = ground arith
    go (arr xs) e = absurd (ground arith)
    go (obj gs) e = absurd (ground arith)

pub parent-text :
    (o : String) (fs : Fields) (required : List String) (parent : Option String)
    → identity_fields o ≡ some required
    → all (check_identity_field fs) required ≡ true
    → parent_of o (obj fs) ≡ ok parent
    → parent_is_text parent ≡ true
parent-text o fs required parent known checked h = elim (Bool-cases (str_eq o "agent")) [
  | inl agent ↦
      let fields = agent-fields o required agent known in
      let text : check_identity_field fs "parent_task_id" ≡ true = ground arith in
      let same : parent ≡ text_option (get_field "parent_task_id" fs) = ground arith in
      subst (λ x. parent_is_text x ≡ true) (sym same) (checked_text fs text)
  | inr other ↦ ground arith
]
