-- ===== src/Writer/Replay.antt =====
-- A second application of a request by `apply_request_value` of pipeline/root_writer.py.
use growth_clockwork.Prelude.{
  ◌≡◌, sym, ap, ◌∙◌, subst, String, true, false, Option, none, some, List, [], ◌∷◌, All,
}
use growth_clockwork.Prelude.Fallible.{done}
use growth_clockwork.Json.{Json, Fields}
use growth_clockwork.Writer.{RelPath}
use growth_clockwork.Writer.Paths.{under_any}
use growth_clockwork.Writer.Profile.{Profile}
use growth_clockwork.Writer.Requests.{Host, Header}
use growth_clockwork.Writer.Writes.{Prepared}
use growth_clockwork.Writer.Files.{
  folder, Tree, TreeStep, and_then, entry_at, open_directory_chain, read_relative_bytes,
  is_stage_path, cleanup_stages,
}
use growth_clockwork.Writer.Receipts.{
  receipt_relative, make_receipt, check_receipt, idempotent_receipt,
}
use growth_clockwork.Writer.Apply.{
  settled, write_all, prepare_writes, request_hash, apply_new, apply_locked, accept_request,
  apply_request_value,
}
use growth_clockwork.Writer.Grows.{Grows, cleanup_stages-Grows}
use growth_clockwork.Writer.Targets.{Ready, done-injective}
use growth_clockwork.Writer.Readied.{NonEmpty}
use growth_clockwork.Writer.Kept.{
  Allowed, write_all-Grows, prepare_writes-Ready, All-Allowed, accepted-Allowed,
}
use growth_clockwork.Writer.Reach.{Reach-chain}
use growth_clockwork.Writer.Published.{
  and_then-done, Clear, cleanup_stages-same, cleanup_stages-Clear,
}
use growth_clockwork.Writer.Rechecked.{receipt-passes}
use growth_clockwork.Writer.Finished.{Finished, write_all-Finished, found-receipt}
use growth_clockwork.Writer.Transactions.{Reserved, grown-Clear, Ready-NoStage, opened-folder}

module _ (host : Host) (profile : Profile) (fs : Fields) (header : Header) where
  -- What makes an application return the receipt that is there, and change nothing.
  record Settled (r : Json) (u : Tree) : Type 0 where
    transactions : entry_at (".writer-tx" ∷ []) u ≡ some folder
    clear : Clear u
    receipt : idempotent_receipt host profile header (request_hash host fs) u ≡ done (some r)

  Settled-again :
      (now : String) (r : Json) (u : Tree)
      → Settled r u
      → apply_locked host profile now fs header u ≡ settled u (done r)
  unfolding apply_locked
  Settled-again now r u s =
      let found : Tree → TreeStep (Option Json) =
        λ t. settled t (idempotent_receipt host profile header (request_hash host fs) t) in
      let next : TreeStep (Option Json) → TreeStep Json =
        λ m. and_then m (apply_new host profile now fs header) in
      ap (λ m. and_then m (λ f t. next (found (cleanup_stages t))))
        (Reach-chain true [] (".writer-tx" ∷ []) u (s.transactions, tt))
      ∙ ap (λ t. next (found t)) (cleanup_stages-same u s.clear)
      ∙ ap (λ m. next (settled u m)) s.receipt

  -- The folders and the absence of stages, after steps that make files where the writer may.
  grown-Settled :
      (r : Json) (t u : Tree)
      → Reserved profile
      → Grows (Allowed profile) t u
      → entry_at (".writer-tx" ∷ []) t ≡ some folder
      → Clear t
      → idempotent_receipt host profile header (request_hash host fs) u ≡ done (some r)
      → Settled r u
  grown-Settled r t u reserved g there clear found = record {
    transactions = g.folders (".writer-tx" ∷ []) there;
    clear = grown-Clear profile t u reserved g clear;
    receipt = found;
  }

  receipt-again :
      (now : String) (r : Json) (ws : List Prepared) (u : Tree)
      → All (Ready host profile.policy) ws
      → NonEmpty ws
      → Host.loads host (Host.dumps host r) ≡ some r
      → Finished host
          (receipt_relative profile header)
          (make_receipt profile header (request_hash host fs) now ws)
          r
          ws
          u
      → idempotent_receipt host profile header (request_hash host fs) u ≡ done (some r)
  receipt-again now r [] u ready some_write parsed f = absurd some_write
  receipt-again now r (w ∷ ws) u ready some_write parsed f =
      let sha = request_hash host fs in
      found-receipt host profile header sha r u
        (subst
          (λ r.
            read_relative_bytes (receipt_relative profile header) u
            ≡ done (some (Host.dumps host r)))
          f.returned f.stored)
        parsed
        (subst (λ r. check_receipt host profile header sha u r ≡ done tt) f.returned
          (receipt-passes host profile header sha now u w ws ready f.readable))

  -- An application that found no receipt.
  new-Settled :
      (now : String) (r : Json) (t u : Tree)
      → Reserved profile
      → Allowed profile (receipt_relative profile header)
      → entry_at (".writer-tx" ∷ []) t ≡ some folder
      → Clear t
      → Host.loads host (Host.dumps host r) ≡ some r
      → apply_new host profile now fs header none t ≡ settled u (done r)
      → Settled r u
  new-Settled now r t u reserved allowed there clear parsed h =
      let path = receipt_relative profile header in
      let receipt : List Prepared → Json = make_receipt profile header (request_hash host fs) now in
      let (ws, v, valid, written) =
        and_then-done (settled t (prepare_writes host profile fs header t))
          (λ ws t. write_all host path (receipt ws) ws t) u r h in
      let (ready, some_write) =
        prepare_writes-Ready host profile fs header t ws
          (ap (λ (s : TreeStep (List Prepared)). s.1) valid) in
      let begun = ap (λ (s : TreeStep (List Prepared)). s.0) valid in
      let runs =
        subst (λ v. write_all host path (receipt ws) ws v ≡ settled u (done r)) (sym begun)
          written in
      let finished =
        write_all-Finished host path (receipt ws) r ws t u
          (Ready-NoStage host profile ws reserved ready) runs in
      let grows = subst (Grows (Allowed profile) t) (ap (λ (s : TreeStep Json). s.0) runs) (
        write_all-Grows (Allowed profile) host path (receipt ws) ws t allowed
          (All-Allowed host profile ws ready)) in
      grown-Settled r t u reserved grows there clear
        (receipt-again now r ws u ready some_write parsed finished)

  cleaned-Settled :
      (now : String) (r : Json) (o : Option Json) (t u : Tree)
      → Reserved profile
      → Allowed profile (receipt_relative profile header)
      → entry_at (".writer-tx" ∷ []) t ≡ some folder
      → Clear t
      → idempotent_receipt host profile header (request_hash host fs) t ≡ done o
      → Host.loads host (Host.dumps host r) ≡ some r
      → apply_new host profile now fs header o t ≡ settled u (done r)
      → Settled r u
  cleaned-Settled now r none t u reserved allowed there clear found parsed h =
      new-Settled now r t u reserved allowed there clear parsed h
  cleaned-Settled now r (some q) t u reserved allowed there clear found parsed h =
      let same : q ≡ r = done-injective q r (ap (λ (s : TreeStep Json). s.1) h) in
      subst (Settled r) (ap (λ (s : TreeStep Json). s.0) h) (record {
        transactions = there;
        clear = clear;
        receipt = found ∙ ap (λ q. done (some q)) same;
      })

  locked-Settled :
      (now : String) (r : Json) (t u : Tree)
      → Reserved profile
      → Allowed profile (receipt_relative profile header)
      → Host.loads host (Host.dumps host r) ≡ some r
      → apply_locked host profile now fs header t ≡ settled u (done r)
      → Settled r u
  unfolding apply_locked
  locked-Settled now r t u reserved allowed parsed h =
      let find : Tree → TreeStep (Option Json) = λ v.
        settled (cleanup_stages v)
          (idempotent_receipt host profile header (request_hash host fs) (cleanup_stages v)) in
      let (f, v, opened, h1) =
        and_then-done (open_directory_chain true [] (".writer-tx" ∷ []) t)
          (λ f v. and_then (find v) (apply_new host profile now fs header)) u r h in
      let (o, x, found, h2) =
        and_then-done (find v) (apply_new host profile now fs header) u r h1 in
      let clean = cleanup_stages v in
      let there =
        (cleanup_stages-Grows (Allowed profile) v).folders (".writer-tx" ∷ [])
          (opened-folder ".writer-tx" t v f opened) in
      cleaned-Settled now r o clean u reserved allowed there (cleanup_stages-Clear v)
        (ap (λ (s : TreeStep (Option Json)). s.1) found) parsed
        (subst (λ x. apply_new host profile now fs header o x ≡ settled u (done r))
          (sym (ap (λ (s : TreeStep (Option Json)). s.0) found)) h2)

-- Where an application returned a receipt, the bytes of the receipt are parsed to it, and no allowed
-- root holds the writer's stages, the same request may be applied again at any later time: it
-- returns the same receipt and leaves the directory as it is.
pub apply_request_value-apply_request_value :
    (host : Host) (profile : Profile) (now later : String) (fs : Fields) (t u : Tree) (r : Json)
    → ((q : RelPath) → is_stage_path q ≡ true → under_any profile.policy.allowed_roots q ≡ false)
    → Host.loads host (Host.dumps host r) ≡ some r
    → apply_request_value host profile now fs t ≡ (u, done r)
    → apply_request_value host profile later fs u ≡ (u, done r)
unfolding apply_request_value
apply_request_value-apply_request_value host profile now later fs t u r reserved parsed h =
    let (header, v, accepted, runs) =
      and_then-done (settled t (accept_request host profile fs)) (apply_locked host profile now fs)
        u r h in
    let valid = ap (λ (s : TreeStep Header). s.1) accepted in
    let settled_now =
      locked-Settled host profile fs header now r v u reserved
        (accepted-Allowed host profile fs header valid) parsed runs in
    ap (λ m. and_then (settled u m) (apply_locked host profile later fs)) valid
    ∙ Settled-again host profile fs header later r u settled_now
