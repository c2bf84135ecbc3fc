-- ===== src/Writer/Targets.antt =====
-- The place, the content and the media type of an entry that `validate_request` of
-- pipeline/root_writer.py has read.
use growth_clockwork.Prelude.{
  ℕ, ◌≡◌, refl, subst, ap, eq_iff, String, Bool, true, false, Option, none, some, List, [], ◌∷◌,
  arith, Bool-cases, inl, inr, str_eq, is_sha256, is_blank, if◌then◌else◌,
}
use growth_clockwork.Prelude.Fallible.{
  Fallible, done, failed, ◌>>=◌, check, bind-done, then-done, check-done,
}
use growth_clockwork.Json.{Json, str, obj, Fields, get_field}
use growth_clockwork.Writer.{Fault, writer_error, RelPath, value_of, require_exact_keys}
use growth_clockwork.Writer.Paths.{under_any, digest, validate_relative_path}
use growth_clockwork.Prelude.{not}
use growth_clockwork.Prelude.Fallible.{◌>>◌}
use growth_clockwork.Writer.Paths.{is_path_in, under_prefix}
use growth_clockwork.Writer.Requests.{at_new_place}
use growth_clockwork.Writer.Profile.{Policy}
use growth_clockwork.Writer.Requests.{Host, check_place, read_target, require_text}
use growth_clockwork.Writer.Writes.{
  Prepared, read_hashed, read_digest, matching, read_content, read_media_type, require_null,
  read_write_path, read_created, read_new, with_media, with_hashed, with_path, read_write,
  write_fields,
}

abbrev returned : {A : Type 0} → A → Fallible Fault A
returned a = done a

pub done-injective : {A : Type 0} (a b : A) → returned a ≡ returned b → a ≡ b
done-injective a b h = cc

not-false : (b : Bool) → not b ≡ true → b ≡ false
not-false b h = ground arith

-- A path at a place where the policy lets a request write.
pub record Placed (policy : Policy) (p : RelPath) : Type 0 where
  pub under : under_any policy.allowed_roots p ≡ true
  pub below : is_path_in p policy.allowed_roots ≡ false
  pub apart : under_prefix p policy.receipt_root ≡ false

check_place-Placed :
    (policy : Policy) (p : RelPath) → check_place policy p ≡ done tt → Placed policy p
unfolding check_place
check_place-Placed policy p h =
    let (a, first, rest) = then-done _ _ tt h in
    let (b, under, below) = then-done _ _ a first in
    record {
      under = check-done _ _ b under;
      below = not-false (is_path_in p policy.allowed_roots) (check-done _ _ a below);
      apart = not-false (under_prefix p policy.receipt_root) (check-done _ _ tt rest);
    }

-- A path that is new and stands at an allowed place, from the text that gave it.
pub record Target (policy : Policy) (p : RelPath) : Type 0 where
  pub place : Placed policy p
  pub source : (v : Json) × (label : String) × (validate_relative_path v label ≡ done p)

pub read_target-new :
    (policy : Policy) (seen : List RelPath) (v : Json) (label : String) (p : RelPath)
    → read_target policy seen v label ≡ done p
    → is_path_in p seen ≡ false
unfolding read_target
read_target-new policy seen v label p h =
    let (q, valid, rest) =
      bind-done (validate_relative_path v label) (at_new_place policy seen) p h in
    let dup = check (not (is_path_in q seen)) (writer_error "Duplicate path" q) in
    let (u, first, last) = then-done (dup >> check_place policy q) (done q) p rest in
    let (w, new, place) = then-done dup (check_place policy q) u first in
    subst (λ p. is_path_in p seen ≡ false) (done-injective q p last)
      (not-false (is_path_in q seen) (check-done _ _ w new))

read_target-Target :
    (policy : Policy) (seen : List RelPath) (v : Json) (label : String) (p : RelPath)
    → read_target policy seen v label ≡ done p
    → Target policy p
unfolding read_target
read_target-Target policy seen v label p h =
    let (q, valid, rest) =
      bind-done (validate_relative_path v label) (at_new_place policy seen) p h in
    let dup = check (not (is_path_in q seen)) (writer_error "Duplicate path" q) in
    let (u, first, last) = then-done (dup >> check_place policy q) (done q) p rest in
    let (w, new, place) = then-done dup (check_place policy q) u first in
    subst (Target policy) (done-injective q p last)
      (record { place = check_place-Placed policy q place; source = (v, label, valid) })

-- An entry that is ready to be written: its place, its content's hash, its hash's form and its
-- media type.
pub record Ready (host : Host) (policy : Policy) (w : Prepared) : Type 0 where
  pub target : Target policy w.relative
  pub hashed : Host.sha256 host w.content ≡ w.content_sha256
  pub is_digest : is_sha256 w.content_sha256 ≡ true
  pub is_named : str_eq w.media_type "" ≡ false

digest-is_sha256 : (v : Json) (e : Fault) (s : String) → digest v e ≡ done s → is_sha256 s ≡ true
digest-is_sha256 (str r) e s h = ground arith
digest-is_sha256 _ e s h = ground arith

read_hashed-hash :
    (host : Host) (fs : Fields) (r : List ℕ × String)
    → read_hashed host fs ≡ done r
    → (Host.sha256 host (r.0) ≡ r.1) × (is_sha256 (r.1) ≡ true)
unfolding read_hashed
read_hashed-hash host fs r h =
    let (bytes, content, h1) =
      bind-done (value_of fs "content" >>= read_content)
        (λ bytes. read_digest fs >>= matching host bytes) r h in
    let (sha, form, h2) = bind-done (read_digest fs) (matching host bytes) r h1 in
    let (u, same, last) =
      then-done
        (check (str_eq (Host.sha256 host bytes) sha) (writer_error "Content hash mismatch" []))
        (done (bytes, sha)) r h2 in
    let (v, given, digests) =
      bind-done (value_of fs "content_sha256")
        (λ v. digest v (writer_error "content_sha256 is invalid" [])) sha form in
    subst (λ (r : List ℕ × String). (Host.sha256 host (r.0) ≡ r.1) × (is_sha256 (r.1) ≡ true))
      (done-injective (bytes, sha) r last)
      (
        equal (Host.sha256 host bytes) sha (check-done _ _ u same),
        digest-is_sha256 v (writer_error "content_sha256 is invalid" []) sha digests,
      )
  where
    equal : (a b : String) → str_eq a b ≡ true → a ≡ b
    equal a b h = ground (arith, eq_iff a b)

not_blank : (s : String) → is_blank s ≡ false → str_eq s "" ≡ false
unfolding is_blank
not_blank s h = elim (Bool-cases (str_eq s "")) [
  | inl e ↦
      let empty : s ≡ "" = ground (arith, eq_iff s "") in
      let blank : is_blank s ≡ true = ap is_blank empty in ground arith
  | inr e ↦ e
]

text_or_blank :
    (b : Bool) (s m : String) (e : Fault)
    → is_blank s ≡ b
    → (if b then failed e else done s) ≡ done m
    → str_eq m "" ≡ false
text_or_blank true s m e h k = ground arith
text_or_blank false s m e h k =
    subst (λ m. str_eq m "" ≡ false) (done-injective s m k) (not_blank s h)

read_media_type-named :
    (o : Option Json) (m : String) → read_media_type o ≡ done m → str_eq m "" ≡ false
read_media_type-named none m h =
    subst (λ m. str_eq m "" ≡ false) (done-injective "text/plain; charset=utf-8" m h) refl
read_media_type-named (some (str s)) m h =
    text_or_blank (is_blank s) s m (writer_error "media_type must be a non-empty string" []) refl h
read_media_type-named (some _) m h = ground arith

write_path-Target :
    (policy : Policy) (seen : List RelPath) (fs : Fields) (p : RelPath)
    → read_write_path policy seen fs ≡ done p
    → Target policy p
unfolding read_write_path
write_path-Target policy seen fs p h =
    let target : Json → Fallible Fault RelPath = λ v. read_target policy seen v "writes.path" in
    let (u, exact, found) =
      then-done (require_exact_keys fs write_fields ("media_type" ∷ []) "writes")
        (value_of fs "path" >>= target) p h in
    let (v, given, place) = bind-done (value_of fs "path") target p found in
    read_target-Target policy seen v "writes.path" p place

read_new-named : (fs : Fields) (m : String) → read_new fs ≡ done m → str_eq m "" ≡ false
read_new-named fs m h =
    let (u, nothing, named) =
      then-done (value_of fs "expected_sha256" >>= require_null)
        (read_media_type (get_field "media_type" fs)) m h in
    read_media_type-named (get_field "media_type" fs) m named

pub read_write-Ready :
    (host : Host) (policy : Policy) (target : RelPath → Fallible Fault (Unit {0}))
    (seen : List RelPath) (v : Json) (w : Prepared)
    → read_write host policy target seen v ≡ done w
    → Ready host policy w
unfolding read_write
read_write-Ready host policy target seen (obj fs) w h =
    let (p, first, h1) =
      bind-done (read_write_path policy seen fs) (with_path host target fs) w h in
    let (hashed, second, h2) = bind-done (read_created host fs) (with_hashed target fs p) w h1 in
    let (u2, mode, content) =
      then-done
        (require_text fs "mode" "create" "mode must be create; revisions require a new path")
        (read_hashed host fs) hashed second in
    let (media, third, h3) = bind-done (read_new fs) (with_media target p hashed) w h2 in
    let (u4, free, last) = then-done (target p) _ w h3 in
    let (hash, form) = read_hashed-hash host fs hashed content in
    subst (Ready host policy) (done-injective _ w last) (record {
      target = write_path-Target policy seen fs p first;
      hashed = hash;
      is_digest = form;
      is_named = read_new-named fs media third;
    })
read_write-Ready host policy target seen _ w h = ground arith
