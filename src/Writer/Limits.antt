-- ===== src/Writer/Limits.antt =====
-- The limits of a request that `validate_request` of pipeline/root_writer.py has accepted.
use growth_clockwork.Prelude.{
  ℕ, suc, ◌≡◌, ◌≤◌, refl, sym, ap, ◌∙◌, subst, Bool, true, false, not, ◌&&◌, ◌||◌, List, [], ◌∷◌,
  arith, All, length, map, ltb, Bool-cases, inl, inr,
}
use growth_clockwork.Prelude.Fallible.{
  Fallible, done, ◌>>=◌, check, bind-done, then-done, check-done,
}
use growth_clockwork.Json.{Json, obj, Items, nil, cons, Fields}
use growth_clockwork.Writer.{Fault, RelPath, value_of, require_exact_keys}
use growth_clockwork.Writer.Paths.{same_path, is_path_in, has_distinct_paths}
use growth_clockwork.Writer.Profile.{Profile, Policy}
use growth_clockwork.Writer.Requests.{
  Host, read_target, validate_preconditions, validate_request_header,
}
use growth_clockwork.Writer.Writes.{
  Prepared, write_fields, read_write_path, read_created, with_hashed, with_path, read_new,
  with_media, read_write, read_each_write, total_bytes, entry_count, within, read_writes_of,
  validate_request,
}
use growth_clockwork.Writer.Targets.{Ready, Placed, done-injective, read_target-new}
use growth_clockwork.Writer.Readied.{validate_request-Ready}
use growth_clockwork.Writer.Grows.{same_path-eq, same_path-same}

write_path-new :
    (policy : Policy) (seen : List RelPath) (fs : Fields) (p : RelPath)
    → read_write_path policy seen fs ≡ done p
    → is_path_in p seen ≡ false
unfolding read_write_path
write_path-new policy seen fs p h =
    let target : Json → Fallible Fault RelPath = λ v. read_target policy seen v "writes.path" in
    let (u, exact, found) =
      then-done (require_exact_keys fs write_fields ("media_type" ∷ []) "writes")
        (value_of fs "path" >>= target) p h in
    let (v, given, place) = bind-done (value_of fs "path") target p found in
    read_target-new policy seen v "writes.path" p place

abbrev New : List RelPath → Prepared → Type 0
New seen w = is_path_in w.relative seen ≡ false

read_write-New :
    (host : Host) (policy : Policy) (target : RelPath → Fallible Fault (Unit {0}))
    (seen : List RelPath) (v : Json) (w : Prepared)
    → read_write host policy target seen v ≡ done w
    → New seen w
unfolding read_write
read_write-New host policy target seen (obj fs) w h =
    let (p, first, h1) =
      bind-done (read_write_path policy seen fs) (with_path host target fs) w h in
    let (hashed, second, h2) = bind-done (read_created host fs) (with_hashed target fs p) w h1 in
    let (media, third, h3) = bind-done (read_new fs) (with_media target p hashed) w h2 in
    let (u4, free, last) = then-done (target p) _ w h3 in
    subst (New seen) (done-injective _ w last) (write_path-new policy seen fs p first)
read_write-New host policy target seen _ w h = ground arith

same_path-sym : (p q : RelPath) → same_path p q ≡ false → same_path q p ≡ false
same_path-sym p q h = elim (Bool-cases (same_path q p)) [
  | inl e ↦
      let same = same_path-eq q p e in
      let clash : true ≡ false = sym (same_path-same p) ∙ ap (same_path p) (sym same) ∙ h in
      ground arith
  | inr e ↦ e
]

-- None of the later paths is the first one, and they are new to what was seen before.
others-New :
    (p : RelPath) (seen : List RelPath) (ws : List Prepared)
    → All (New (p ∷ seen)) ws
    → All (New seen) ws × (is_path_in p (map (λ (w : Prepared). w.relative) ws) ≡ false)
others-New p seen [] all = (tt, refl)
others-New p seen (w ∷ ws) (h, all) =
    let (rest, apart) = others-New p seen ws all in
    let (here, new) = parted (same_path w.relative p) (is_path_in w.relative seen) h in
    ((new, rest), neither (same_path p w.relative) _ (same_path-sym w.relative p here) apart)
  where
    parted : (a b : Bool) → (a || b) ≡ false → (a ≡ false) × (b ≡ false)
    parted a b h = ground arith

    neither : (a b : Bool) → a ≡ false → b ≡ false → (a || b) ≡ false
    neither a b h k = ground arith

abbrev paths_of : List Prepared → List RelPath
paths_of ws = map (λ (w : Prepared). w.relative) ws

-- The entries that were read are as many as those given, and their paths are new and differ.
abbrev Listed : List RelPath → ℕ → List Prepared → Type 0
Listed seen n ws = (length ws ≡ n) × (has_distinct_paths (paths_of ws) ≡ true) × All (New seen) ws

listed :
    (seen : List RelPath) (n : ℕ) (w : Prepared) (ws : List Prepared)
    → New seen w
    → Listed (w.relative ∷ seen) n ws
    → Listed seen (suc n) (w ∷ ws)
listed seen n w ws new (size, distinct, all) =
    let (rest, apart) = others-New w.relative seen ws all in
    (ap suc size, both (is_path_in w.relative (paths_of ws)) _ apart distinct, (new, rest))
  where
    both : (a b : Bool) → a ≡ false → b ≡ true → (not a && b) ≡ true
    both a b h k = ground arith

read_each_write-Listed :
    (host : Host) (policy : Policy) (target : RelPath → Fallible Fault (Unit {0}))
    (seen : List RelPath) (vs : Items) (ws : List Prepared)
    → read_each_write host policy target seen vs ≡ done ws
    → Listed seen (entry_count vs) ws
unfolding read_each_write
read_each_write-Listed host policy target seen nil ws h =
    subst (Listed seen 0) (done-injective [] ws h) (refl, refl, tt)
read_each_write-Listed host policy target seen (cons v vs) ws h =
    let more : Prepared → Fallible Fault (List Prepared) =
      λ w. read_each_write host policy target (w.relative ∷ seen) vs >>= λ ws. done (w ∷ ws) in
    let (w, first, h1) = bind-done (read_write host policy target seen v) more ws h in
    let (rest, others, last) =
      bind-done (read_each_write host policy target (w.relative ∷ seen) vs) (λ ws. done (w ∷ ws)) ws
        h1 in
    subst (Listed seen (suc (entry_count vs))) (done-injective (w ∷ rest) ws last) (
      listed seen (entry_count vs) w rest (read_write-New host policy target seen v w first)
        (read_each_write-Listed host policy target (w.relative ∷ seen) vs rest others))

at_most_limit : (n m : ℕ) → not (ltb m n) ≡ true → n ≤ m
at_most_limit n m h = ground arith

-- The entries of a request that was accepted are no more and no larger than the policy allows, and
-- no two of them have the same path; each path stands below an allowed root, is not that root, and
-- is outside the receipts.
pub validate_request-limits :
    (host : Host) (profile : Profile) (linked target : RelPath → Fallible Fault (Unit {0}))
    (fs : Fields) (ws : List Prepared)
    → validate_request host profile linked target fs ≡ done ws
    → (length ws ≤ profile.policy.max_files_per_request)
      × (total_bytes ws ≤ profile.policy.max_total_bytes)
      × (has_distinct_paths (map (λ (w : Prepared). w.relative) ws) ≡ true)
      × All (λ (w : Prepared). Placed profile.policy w.relative) ws
unfolding validate_request
validate_request-limits host profile linked target fs ws h =
    let policy = profile.policy in
    let accept = validate_request_header host fs profile in
    let writes = read_writes_of host policy linked target in
    let (qs, first, h1) = bind-done (accept >>= writes) (within policy) ws h in
    let (u, small, last) = then-done (check _ _) (done qs) ws h1 in
    let (header, accepted, each) = bind-done accept writes qs first in
    let entries = cons header.first_write header.more_writes in
    let (u2, checked, read) = then-done _ (read_each_write host policy target [] entries) qs each in
    let (u3, before, counted) =
      then-done (validate_preconditions policy linked [] header.preconditions) (check _ _) u2
        checked in
    let (size, distinct, new) = read_each_write-Listed host policy target [] entries qs read in
    let same = done-injective qs ws last in
    let few =
      at_most_limit (entry_count entries) policy.max_files_per_request
        (check-done _ _ u2 counted) in
    (
      subst (λ ws. length ws ≤ policy.max_files_per_request) same
          (subst (λ n. n ≤ policy.max_files_per_request) (sym size) few),
      subst (λ ws. total_bytes ws ≤ policy.max_total_bytes) same
          (at_most_limit (total_bytes qs) policy.max_total_bytes (check-done _ _ u small)),
      subst (λ ws. has_distinct_paths (paths_of ws) ≡ true) same distinct,
      placed ws (validate_request-Ready host profile linked target fs ws h),
    )
  where
    placed :
        (ws : List Prepared)
        → All (Ready host profile.policy) ws
        → All (λ (w : Prepared). Placed profile.policy w.relative) ws
    placed [] all = tt
    placed (w ∷ ws) (r, all) = (r.target.place, placed ws all)
