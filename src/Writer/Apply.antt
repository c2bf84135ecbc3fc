-- ===== src/Writer/Apply.antt =====
-- `apply_request_value` of pipeline/root_writer.py on the state directory, from the check of the
-- request to the receipt.
use growth_clockwork.Prelude.{
  ℕ, zero, suc, String, true, Option, none, some, List, [], ◌∷◌, length, str_eq,
}
use growth_clockwork.Prelude.Fallible.{Fallible, done, failed, ◌>>=◌, ◌>>◌, check}
use growth_clockwork.Json.{Json, obj, Fields}
use growth_clockwork.Writer.{Fault, writer_error, incomplete, RelPath}
use growth_clockwork.Writer.Paths.{under_any, under_prefix}
use growth_clockwork.Writer.Profile.{Profile, Policy}
use growth_clockwork.Writer.Requests.{
  Host, Header, Precondition, validate_request_header, validate_preconditions,
}
use growth_clockwork.Writer.Writes.{Prepared, validate_request}
use growth_clockwork.Writer.Files.{
  Tree, TreeStep, and_then, open_directory_chain, read_relative_bytes, read_existing,
  publish_exclusive, assert_no_symlink, same_codes, cleanup_stages,
}
use growth_clockwork.Writer.Receipts.{receipt_relative, make_receipt, idempotent_receipt}

-- What a precondition asks of the content at its path.
abbrev pub meets : Host → Precondition → Option (List ℕ) → Fallible Fault (Unit {0})
meets host p current = elim p.expected_sha256 [
  | none ↦ elim current [
    | none ↦ done tt
    | some bytes ↦ failed (writer_error "Precondition failed; path must be absent" p.relative)
  ]
  | some expected ↦ elim current [
    | none ↦ failed (writer_error "Precondition failed; path does not exist" p.relative)
    | some bytes ↦
        check (str_eq (Host.sha256 host bytes) expected)
          (writer_error "Precondition failed; exact byte hash differs" p.relative)
  ]
]

-- `_check_preconditions`
unfoldable pub check_preconditions : Host → Tree → List Precondition → Fallible Fault (Unit {0})
unfolding read_relative_bytes
check_preconditions host t [] = done tt
check_preconditions host t (p ∷ ps) =
    read_relative_bytes p.relative t >>= meets host p >> check_preconditions host t ps

-- The `except` clause, after `n` writes.
abbrev pub wrap : ℕ → Fault → Fault
wrap zero e = e
wrap (suc n) e = incomplete (suc n) e

abbrev pub wrapped : {A : Type 0} → ℕ → TreeStep A → TreeStep A
wrapped n (t, done a) = (t, done a)
wrapped n (t, failed e) = (t, failed (wrap n e))

-- A settled result as a step that changes nothing.
abbrev pub settled : {A : Type 0} → Tree → Fallible Fault A → TreeStep A
settled t m = (t, m)

-- A write whose target may be there with the same content.
abbrev pub publish_or_keep :
    Prepared → Tree → Fallible Fault (Option (List ℕ)) → TreeStep (Unit {0})
publish_or_keep w t (failed e) = (t, failed e)
publish_or_keep w t (done none) = publish_exclusive w.relative w.content t
publish_or_keep w t (done (some bytes)) = (
  t,
  check (same_codes bytes w.content)
      (writer_error "Existing immutable target differs from the requested bytes" w.relative),
)

-- The loop over the writes, after `n` of them.
unfoldable pub publish_each : ℕ → List Prepared → Tree → TreeStep (Unit {0})
unfolding publish_exclusive read_relative_bytes
publish_each n [] t = (t, done tt)
publish_each n (w ∷ ws) t =
    and_then (wrapped n (publish_or_keep w t (read_relative_bytes w.relative t)))
      (λ u t. publish_each (suc n) ws t)

-- The hashes of what was written, read back.
unfoldable pub read_back : Host → Tree → List Prepared → Fallible Fault (Unit {0})
unfolding read_existing
read_back host t [] = done tt
read_back host t (w ∷ ws) =
    (read_existing w.relative t >>= λ bytes.
    check (str_eq (Host.sha256 host bytes) w.content_sha256)
      (writer_error "Readback hash mismatch" w.relative))
    >> read_back host t ws

abbrev pub confirm_receipt : Host → RelPath → Json → Tree → Fallible Fault Json
confirm_receipt host path receipt t = read_existing path t >>= λ bytes.
    check (same_codes bytes (Host.dumps host receipt)) (writer_error "Receipt readback mismatch" [])
    >> done receipt

-- The receipt is published and read back.
unfoldable pub publish_receipt : Host → RelPath → Json → Tree → TreeStep Json
unfolding publish_exclusive read_existing
publish_receipt host path receipt t =
    and_then (publish_exclusive path (Host.dumps host receipt) t)
      (λ u t. settled t (confirm_receipt host path receipt t))

unfoldable pub write_all : Host → RelPath → Json → List Prepared → Tree → TreeStep Json
unfolding publish_each read_back publish_receipt
write_all host path receipt ws t = and_then (publish_each 0 ws t) (λ u t.
    wrapped (length ws)
      (and_then (settled t (read_back host t ws)) (λ u t. publish_receipt host path receipt t)))

-- The second reading of the preconditions, and their test.
abbrev pub confirm_preconditions :
    Host → Policy → Header → Tree → List Prepared → Fallible Fault (List Prepared)
confirm_preconditions host policy header t ws =
    validate_preconditions policy (λ p. assert_no_symlink [] p t) [] header.preconditions
    >>= check_preconditions host t
    >> done ws

-- The checks of a request on the directory that no receipt of it was found in.
unfoldable pub prepare_writes :
    Host → Profile → Fields → Header → Tree → Fallible Fault (List Prepared)
unfolding validate_request validate_preconditions check_preconditions assert_no_symlink
prepare_writes host profile fs header t =
    validate_request host profile (λ p. assert_no_symlink [] p t) (λ p. assert_no_symlink [] p t) fs
    >>= confirm_preconditions host profile.policy header t

abbrev pub request_hash : Host → Fields → String
request_hash host fs = Host.sha256 host (Host.canonical_json host (obj fs))

-- After a receipt was looked for.
abbrev pub apply_new :
    Host → Profile → String → Fields → Header → Option Json → Tree → TreeStep Json
apply_new host profile now fs header (some receipt) t = (t, done receipt)
apply_new host profile now fs header none t =
    and_then (settled t (prepare_writes host profile fs header t)) (λ ws t.
      write_all host (receipt_relative profile header)
        (make_receipt profile header (request_hash host fs) now ws) ws t)

-- What runs under the lock, in the state directory.
unfoldable pub apply_locked : Host → Profile → String → Fields → Header → Tree → TreeStep Json
unfolding open_directory_chain cleanup_stages idempotent_receipt prepare_writes write_all
    receipt_relative make_receipt
apply_locked host profile now fs header t =
    and_then (open_directory_chain true [] (".writer-tx" ∷ []) t) (λ found t.
      and_then
        (settled (cleanup_stages t)
          (idempotent_receipt host profile header (request_hash host fs) (cleanup_stages t)))
        (apply_new host profile now fs header))

abbrev pub check_receipt_place : Profile → Header → Fallible Fault Header
check_receipt_place profile header =
    check (under_any profile.policy.allowed_roots (receipt_relative profile header))
      (writer_error "Project profile does not allow writer receipts" [])
    >> check (under_any profile.policy.append_only_roots (receipt_relative profile header))
        (writer_error "Writer receipt path must be append-only" [])
    >> done header

-- `_validate_request_header` and the two tests of the receipt's place.
unfoldable pub accept_request : Host → Profile → Fields → Fallible Fault Header
unfolding validate_request_header receipt_relative under_prefix
accept_request host profile fs =
    validate_request_header host fs profile >>= check_receipt_place profile

-- `apply_request_value`, of a workspace and a profile that have been accepted.
unfoldable pub apply_request_value : Host → Profile → String → Fields → Tree → TreeStep Json
unfolding accept_request apply_locked
apply_request_value host profile now fs t =
    and_then (settled t (accept_request host profile fs)) (apply_locked host profile now fs)
