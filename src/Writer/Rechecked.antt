-- ===== src/Writer/Rechecked.antt =====
-- `_idempotent_receipt` of pipeline/root_writer.py on a receipt that the writer has written.
use growth_clockwork.Prelude.{
  ℕ, ◌≡◌, refl, ap, ◌∙◌, String, Bool, true, not, ◌&&◌, List, [], ◌∷◌, arith, All, keep, sort_texts,
  distinct, length, str_eq, eq_iff, if◌then◌else◌, ◌==◌,
}
use growth_clockwork.Prelude.Fallible.{Fallible, done, failed, ◌>>=◌, ◌>>◌, check}
use growth_clockwork.Json.{obj}
use growth_clockwork.Writer.{Fault, RelPath, writer_error, value_of, require_exact_keys}
use growth_clockwork.Writer.Profile.{Profile, Policy}
use growth_clockwork.Writer.Requests.{Host, Header}
use growth_clockwork.Writer.Writes.{Prepared}
use growth_clockwork.Writer.Files.{Tree, read_existing}
use growth_clockwork.Writer.Receipts.{
  written_object, receipt_writes, receipt_object, make_receipt, receipt_fields, check_identity,
  check_media_type, read_written_path, with_digest, read_written_digest, check_readback,
  check_receipt_write, check_receipt_writes, check_receipt, require_writes,
}
use growth_clockwork.Writer.Targets.{Ready}
use growth_clockwork.Writer.RoundTrip.{validate_relative_path-as_posix}

pub then-both : (m n : Fallible Fault (Unit {0})) → m ≡ done tt → n ≡ done tt → m >> n ≡ done tt
then-both m n h k = ap (λ m. m >> n) h ∙ k

same_text : (s : String) (e : Fault) → check (str_eq s s) e ≡ done tt
same_text s e = ap (λ b. check b e) (same s)
  where
    same : (s : String) → str_eq s s ≡ true
    same s = ground (arith, eq_iff s s)

module _ (profile : Profile) (header : Header) (sha now : String) (ws : List Prepared) where
  receipt-keys :
      require_exact_keys
        (receipt_object profile header sha now ws)
        receipt_fields
        []
        "writer receipt"
      ≡ done tt
  unfolding require_exact_keys sort_texts distinct keep
  receipt-keys = refl

  receipt-identity :
      check_identity profile header sha (receipt_object profile header sha now ws) ≡ done tt
  unfolding check_identity
  receipt-identity =
      then-both _ _
        (then-both _ _
          (then-both _ _
            (then-both _ _
              (then-both _ _ (then-both _ _ (then-both _ _ refl (same_text sha _)) refl)
                (same_text profile.project_id _))
              (same_text profile.profile_revision _))
            (same_text header.run_id _))
          (same_text header.idempotency_key _))
        (same_text profile.root_role_id _)

same_length : (n : ℕ) → (n == n) ≡ true
same_length n = ground arith

both_true : (a b : Bool) → a ≡ true → b ≡ true → (a && b) ≡ true
both_true a b h k = ground arith

same_text_as : (s r : String) → s ≡ r → str_eq s r ≡ true
same_text_as s r h = ground (arith, eq_iff s r)

module _ (host : Host) (policy : Policy) (t : Tree) (w : Prepared) (ready : Ready host policy w)
    (held : read_existing w.relative t ≡ done w.content) where
  digest-read : read_written_digest (written_object w) ≡ done w.content_sha256
  unfolding read_written_digest sort_texts distinct keep
  digest-read =
      ap
        (λ b.
          if b
          then done w.content_sha256
          else failed (writer_error "Existing receipt has an invalid write hash" []))
        ready.is_digest

  readback-passes : check_readback host t w.relative w.content_sha256 (length w.content) ≡ done tt
  unfolding check_readback
  readback-passes =
      let wrong = writer_error "Idempotent readback mismatch" w.relative in
      let test : List ℕ → Bool =
        λ b. str_eq (Host.sha256 host b) w.content_sha256 && length b == length w.content in
      ap (λ m. m >>= λ b. check (test b) wrong) held
      ∙ ap (λ b. check b wrong)
          (both_true (str_eq (Host.sha256 host w.content) w.content_sha256)
            (length w.content == length w.content)
            (same_text_as (Host.sha256 host w.content) w.content_sha256 ready.hashed)
            (same_length (length w.content)))

  path-read : read_written_path (written_object w) ≡ done w.relative
  path-read =
      let (v, label, valid) = ready.target.source in
      validate_relative_path-as_posix v label "receipt write path" w.relative valid

  media_type-passes : check_media_type (written_object w) ≡ done tt
  media_type-passes =
      ap (λ b. check (not b) (writer_error "Existing receipt has an invalid media type" []))
        ready.is_named

  write-passes : check_receipt_write host t (obj (written_object w)) ≡ done tt
  unfolding check_receipt_write
  write-passes =
      let last : RelPath → Fallible Fault (Unit {0}) =
        λ path. check_readback host t path w.content_sha256 (length w.content) in
      ap (λ m. m >>= with_digest host t (written_object w)) digest-read
      ∙ ap (λ m. m >> read_written_path (written_object w) >>= last) media_type-passes
      ∙ ap (λ m. m >>= last) path-read
      ∙ readback-passes

abbrev pub Readable : Tree → Prepared → Type 0
Readable t w = read_existing w.relative t ≡ done w.content

writes-pass :
    (host : Host) (policy : Policy) (t : Tree) (ws : List Prepared)
    → All (Ready host policy) ws
    → All (Readable t) ws
    → check_receipt_writes host t (receipt_writes ws) ≡ done tt
unfolding check_receipt_writes
writes-pass host policy t [] ready held = refl
writes-pass host policy t (w ∷ ws) (r, ready) (h, held) =
    then-both (check_receipt_write host t (obj (written_object w)))
      (check_receipt_writes host t (receipt_writes ws)) (write-passes host policy t w r h)
      (writes-pass host policy t ws ready held)

-- The receipt of writes that are in the directory passes.
pub receipt-passes :
    (host : Host) (profile : Profile) (header : Header) (sha now : String) (t : Tree) (w : Prepared)
    (ws : List Prepared)
    → All (Ready host profile.policy) (w ∷ ws)
    → All (Readable t) (w ∷ ws)
    → check_receipt host profile header sha t (make_receipt profile header sha now (w ∷ ws))
      ≡ done tt
unfolding check_receipt make_receipt
receipt-passes host profile header sha now t w ws ready held =
    let fs = receipt_object profile header sha now (w ∷ ws) in
    let first =
      then-both (require_exact_keys fs receipt_fields [] "writer receipt")
        (check_identity profile header sha fs) (receipt-keys profile header sha now (w ∷ ws))
        (receipt-identity profile header sha now (w ∷ ws)) in
    ap (λ m. m >> (value_of fs "writes" >>= require_writes) >>= check_receipt_writes host t) first
    ∙ writes-pass host profile.policy t (w ∷ ws) ready held
