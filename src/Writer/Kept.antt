-- ===== src/Writer/Kept.antt =====
-- The files that `apply_request_value` of pipeline/root_writer.py keeps, and where it makes new ones.
use growth_clockwork.Prelude.{
  ℕ, suc, ◌≡◌, ap, subst, String, true, false, Option, none, some, List, [], ◌∷◌, All, ◌⊎◌, length,
}
use growth_clockwork.Prelude.Fallible.{
  Fallible, done, failed, check, bind-done, then-done, check-done,
}
use growth_clockwork.Json.{Json, Fields}
use growth_clockwork.Writer.{Fault, RelPath}
use growth_clockwork.Writer.Paths.{under_any}
use growth_clockwork.Writer.Profile.{Profile}
use growth_clockwork.Writer.Requests.{Host, Header, validate_request_header}
use growth_clockwork.Writer.Writes.{Prepared, validate_request}
use growth_clockwork.Writer.Files.{
  Tree, TreeStep, file, entry_at, and_then, open_directory_chain, read_relative_bytes,
  publish_exclusive, cleanup_stages, assert_no_symlink, is_stage_path,
}
use growth_clockwork.Writer.Receipts.{receipt_relative, make_receipt, idempotent_receipt}
use growth_clockwork.Writer.Apply.{
  wrapped, settled, publish_or_keep, publish_each, read_back, confirm_receipt, publish_receipt,
  write_all, confirm_preconditions, prepare_writes, request_hash, apply_new, apply_locked,
  check_receipt_place, accept_request, apply_request_value,
}
use growth_clockwork.Writer.Grows.{
  Grows, Grows-same, and_then-Grows, open_directory_chain-Grows, publish_exclusive-Grows,
  cleanup_stages-Grows,
}
use growth_clockwork.Writer.Targets.{Ready, done-injective}
use growth_clockwork.Writer.Readied.{NonEmpty, validate_request-Ready, validate_request-NonEmpty}

-- A place where the policy lets the writer make a file.
abbrev pub Allowed : Profile → RelPath → Type 0
Allowed profile q = under_any profile.policy.allowed_roots q ≡ true

pub result_of :
    (A : Type 0) (t u : Tree) (m n : Fallible Fault A) → settled t m ≡ settled u n → m ≡ n
result_of A t u m n h = ap (λ (p : TreeStep A). p.1) h

wrapped-Grows :
    {A : Type 0} (S : RelPath → Type 0) (n : ℕ) (t : Tree) (m : TreeStep A)
    → Grows S t (m.0)
    → Grows S t ((wrapped n m).0)
wrapped-Grows S n t (u, done a) g = g
wrapped-Grows S n t (u, failed e) g = g

publish_or_keep-Grows :
    (S : RelPath → Type 0) (w : Prepared) (t : Tree) (o : Fallible Fault (Option (List ℕ)))
    → S w.relative
    → Grows S t ((publish_or_keep w t o).0)
publish_or_keep-Grows S w t (failed e) s = Grows-same S t
publish_or_keep-Grows S w t (done none) s = publish_exclusive-Grows S w.relative w.content t s
publish_or_keep-Grows S w t (done (some b)) s = Grows-same S t

pub publish_each-Grows :
    (S : RelPath → Type 0) (n : ℕ) (ws : List Prepared) (t : Tree)
    → All (λ (w : Prepared). S w.relative) ws
    → Grows S t ((publish_each n ws t).0)
unfolding publish_each
publish_each-Grows S n [] t all = Grows-same S t
publish_each-Grows S n (w ∷ ws) t (s, all) =
    let one = publish_or_keep w t (read_relative_bytes w.relative t) in
    and_then-Grows S t (wrapped n one) (λ u t. publish_each (suc n) ws t)
      (wrapped-Grows S n t one (publish_or_keep-Grows S w t (read_relative_bytes w.relative t) s))
      (λ a u h. publish_each-Grows S (suc n) ws u all)

pub write_all-Grows :
    (S : RelPath → Type 0) (host : Host) (path : RelPath) (receipt : Json) (ws : List Prepared)
    (t : Tree)
    → S path
    → All (λ (w : Prepared). S w.relative) ws
    → Grows S t ((write_all host path receipt ws t).0)
unfolding write_all publish_receipt
write_all-Grows S host path receipt ws t s all =
    let last : Tree → TreeStep Json = λ t. publish_receipt host path receipt t in
    and_then-Grows S t (publish_each 0 ws t) _ (publish_each-Grows S 0 ws t all) (λ a u h.
      wrapped-Grows S (length ws) u (and_then (settled u (read_back host u ws)) (λ a t. last t)) (
        and_then-Grows S u (settled u (read_back host u ws)) (λ a t. last t) (Grows-same S u)
          (λ b v k.
            and_then-Grows S v (publish_exclusive path (Host.dumps host receipt) v)
              (λ a t. settled t (confirm_receipt host path receipt t))
              (publish_exclusive-Grows S path (Host.dumps host receipt) v s)
              (λ c x r. Grows-same S x))))

pub prepare_writes-Ready :
    (host : Host) (profile : Profile) (fs : Fields) (header : Header) (t : Tree)
    (ws : List Prepared)
    → prepare_writes host profile fs header t ≡ done ws
    → All (Ready host profile.policy) ws × NonEmpty ws
unfolding prepare_writes
prepare_writes-Ready host profile fs header t ws h =
    let clear : RelPath → Fallible Fault (Unit {0}) = λ p. assert_no_symlink [] p t in
    let (qs, valid, h1) =
      bind-done (validate_request host profile clear clear fs)
        (confirm_preconditions host profile.policy header t) ws h in
    let (u, met, last) = then-done _ (done qs) ws h1 in
    subst (λ ws. All (Ready host profile.policy) ws × NonEmpty ws) (done-injective qs ws last)
      (
        validate_request-Ready host profile clear clear fs qs valid,
        validate_request-NonEmpty host profile clear clear fs qs valid,
      )

pub All-Allowed :
    (host : Host) (profile : Profile) (ws : List Prepared)
    → All (Ready host profile.policy) ws
    → All (λ (w : Prepared). Allowed profile w.relative) ws
All-Allowed host profile [] all = tt
All-Allowed host profile (w ∷ ws) (r, all) = (r.target.place.under, All-Allowed host profile ws all)

module _ (host : Host) (profile : Profile) (now : String) (fs : Fields) where
  apply_new-Grows :
      (header : Header) (o : Option Json) (t : Tree)
      → Allowed profile (receipt_relative profile header)
      → Grows (Allowed profile) t ((apply_new host profile now fs header o t).0)
  apply_new-Grows header (some r) t s = Grows-same (Allowed profile) t
  apply_new-Grows header none t s =
      let path = receipt_relative profile header in
      let receipt : List Prepared → Json = make_receipt profile header (request_hash host fs) now in
      and_then-Grows (Allowed profile) t (settled t (prepare_writes host profile fs header t))
        (λ ws t. write_all host path (receipt ws) ws t) (Grows-same (Allowed profile) t)
        (λ ws u h. write_all-Grows (Allowed profile) host path (receipt ws) ws u s (
          All-Allowed host profile ws (
            (prepare_writes-Ready host profile fs header t ws (
              result_of (List Prepared) t u (prepare_writes host profile fs header t) (done ws)
                h)).0)))

  apply_locked-Grows :
      (header : Header) (t : Tree)
      → Allowed profile (receipt_relative profile header)
      → Grows (Allowed profile) t ((apply_locked host profile now fs header t).0)
  unfolding apply_locked
  apply_locked-Grows header t s =
      let S = Allowed profile in
      let found : Tree → TreeStep (Option Json) = λ t.
        settled (cleanup_stages t)
          (idempotent_receipt host profile header (request_hash host fs) (cleanup_stages t)) in
      and_then-Grows S t (open_directory_chain true [] (".writer-tx" ∷ []) t)
        (λ a t. and_then (found t) (apply_new host profile now fs header))
        (open_directory_chain-Grows S true [] (".writer-tx" ∷ []) t)
        (λ a u h.
          and_then-Grows S u (found u) (apply_new host profile now fs header)
            (cleanup_stages-Grows S u) (λ o v k. apply_new-Grows header o v s))

pub accepted-Allowed :
    (host : Host) (profile : Profile) (fs : Fields) (header : Header)
    → accept_request host profile fs ≡ done header
    → Allowed profile (receipt_relative profile header)
unfolding accept_request
accepted-Allowed host profile fs header h =
    let (first, valid, h1) =
      bind-done (validate_request_header host fs profile) (check_receipt_place profile) header h in
    let (u, places, last) = then-done _ (done first) header h1 in
    let (v, allowed, appended) = then-done (check _ _) (check _ _) u places in
    subst (λ r. Allowed profile (receipt_relative profile r)) (done-injective first header last)
      (check-done _ _ v allowed)

apply_request_value-Grows :
    (host : Host) (profile : Profile) (now : String) (fs : Fields) (t : Tree)
    → Grows (Allowed profile) t ((apply_request_value host profile now fs t).0)
unfolding apply_request_value
apply_request_value-Grows host profile now fs t =
    and_then-Grows (Allowed profile) t (settled t (accept_request host profile fs))
      (apply_locked host profile now fs) (Grows-same (Allowed profile) t)
      (λ header u h. apply_locked-Grows host profile now fs header u (
        accepted-Allowed host profile fs header
          (result_of Header t u (accept_request host profile fs) (done header) h)))

-- However the application of a request ends, also where it raises: a file that was there, and is no
-- stage of an earlier run, is there with the same content.
pub apply_request_value-keeps :
    (host : Host) (profile : Profile) (now : String) (fs : Fields) (t : Tree) (q : RelPath)
    (content : List ℕ)
    → is_stage_path q ≡ false
    → entry_at q t ≡ some (file content)
    → entry_at q ((apply_request_value host profile now fs t).0) ≡ some (file content)
apply_request_value-keeps host profile now fs t =
    (apply_request_value-Grows host profile now fs t).kept

-- However the application of a request ends, also where it raises: a file that is there afterwards
-- was there before with the same content, or stands below an allowed root of the profile.
pub apply_request_value-confined :
    (host : Host) (profile : Profile) (now : String) (fs : Fields) (t : Tree) (q : RelPath)
    (content : List ℕ)
    → entry_at q ((apply_request_value host profile now fs t).0) ≡ some (file content)
    → (entry_at q t ≡ some (file content)) ⊎ (under_any profile.policy.allowed_roots q ≡ true)
apply_request_value-confined host profile now fs t =
    (apply_request_value-Grows host profile now fs t).placed
