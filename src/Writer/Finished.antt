-- ===== src/Writer/Finished.antt =====
-- What an application of pipeline/root_writer.py that wrote its files and its receipt has left.
use growth_clockwork.Prelude.{
  ℕ, ◌≡◌, sym, ap, ◌∙◌, subst, String, Option, none, some, List, [], ◌∷◌, All, length, str_eq,
}
use growth_clockwork.Prelude.Fallible.{
  Fallible, done, ◌>>=◌, ◌>>◌, check, bind-done, then-done, check-done,
}
use growth_clockwork.Json.{Json}
use growth_clockwork.Writer.{Fault, RelPath, writer_error, refuse}
use growth_clockwork.Writer.Profile.{Profile}
use growth_clockwork.Writer.Requests.{Host, Header}
use growth_clockwork.Writer.Writes.{Prepared}
use growth_clockwork.Writer.Files.{
  Tree, TreeStep, and_then, parent_parts, read_relative_bytes, read_existing, publish_exclusive,
  same_codes,
}
use growth_clockwork.Writer.Receipts.{
  receipt_relative, check_receipt, parsed_receipt, idempotent_receipt,
}
use growth_clockwork.Writer.Apply.{
  settled, wrapped, publish_each, read_back, confirm_receipt, publish_receipt, write_all,
}
use growth_clockwork.Writer.Grows.{Grows, publish_exclusive-Grows}
use growth_clockwork.Writer.Targets.{done-injective}
use growth_clockwork.Writer.Reach.{
  Grows-Reach, read-entry, entry-read, existing-read, read-existing,
}
use growth_clockwork.Writer.Published.{
  and_then-done, wrapped-done, same_codes-eq, Holds, NoStage, Anywhere, publish_each-Holds,
}
use growth_clockwork.Writer.Rechecked.{Readable}

read_back-Readable :
    (host : Host) (t u : Tree) (ws : List Prepared)
    → read_back host t ws ≡ done tt
    → Grows Anywhere t u
    → All NoStage ws
    → All (Holds t) ws
    → All (Readable u) ws
unfolding read_back
read_back-Readable host t u [] h g free held = tt
read_back-Readable host t u (w ∷ ws) h g (f, free) (there, held) =
    let test : List ℕ → Fallible Fault (Unit {0}) = λ b.
      check (str_eq (Host.sha256 host b) w.content_sha256)
        (writer_error "Readback hash mismatch" w.relative) in
    let (a, first, rest) =
      then-done (read_existing w.relative t >>= test) (read_back host t ws) tt h in
    let (b, read, tested) = bind-done (read_existing w.relative t) test a first in
    let (reach, entry) = read-entry w.relative t b (existing-read w.relative t b read) in
    (
      read-existing w.relative u w.content (
          entry-read w.relative u w.content
            (Grows-Reach Anywhere t u [] (parent_parts w.relative) g reach)
            (g.kept w.relative w.content f there)),
      read_back-Readable host t u ws rest g free held,
    )

-- The directory after the writes and the receipt, and the receipt in it.
pub record Finished (host : Host) (path : RelPath) (receipt r : Json) (ws : List Prepared)
    (u : Tree) : Type 0 where
  pub returned : receipt ≡ r
  pub stored : read_relative_bytes path u ≡ done (some (Host.dumps host receipt))
  pub readable : All (Readable u) ws

confirmed :
    (host : Host) (path : RelPath) (receipt r : Json) (u : Tree)
    → confirm_receipt host path receipt u ≡ done r
    → (receipt ≡ r) × (read_relative_bytes path u ≡ done (some (Host.dumps host receipt)))
confirmed host path receipt r u h =
    let test : List ℕ → Fallible Fault (Unit {0}) = λ b.
      check (same_codes b (Host.dumps host receipt))
        (writer_error "Receipt readback mismatch" []) in
    let (b, read, rest) = bind-done (read_existing path u) (λ b. test b >> done receipt) r h in
    let (a, same, last) = then-done (test b) (done receipt) r rest in
    (
      done-injective receipt r last,
      existing-read path u b read
          ∙ ap (λ c. done (some c))
              (same_codes-eq b (Host.dumps host receipt) (check-done _ _ a same)),
    )

receipt-Finished :
    (host : Host) (path : RelPath) (receipt r : Json) (ws : List Prepared) (t u : Tree)
    → All NoStage ws
    → All (Holds t) ws
    → read_back host t ws ≡ done tt
    → publish_receipt host path receipt t ≡ settled u (done r)
    → Finished host path receipt r ws u
unfolding publish_receipt
receipt-Finished host path receipt r ws t u free held back h =
    let bytes = Host.dumps host receipt in
    let (a, v, published, last) =
      and_then-done (publish_exclusive path bytes t)
        (λ a v. settled v (confirm_receipt host path receipt v)) u r h in
    let same : v ≡ u = ap (λ (s : TreeStep Json). s.0) last in
    let sure =
      subst (λ v. confirm_receipt host path receipt v ≡ done r) same
        (ap (λ (s : TreeStep Json). s.1) last) in
    let grows =
      subst (Grows Anywhere t) (ap (λ (s : TreeStep Unit). s.0) published ∙ same)
        (publish_exclusive-Grows Anywhere path bytes t tt) in
    let (returned, stored) = confirmed host path receipt r u sure in
    record {
      returned = returned;
      stored = stored;
      readable = read_back-Readable host t u ws back grows free held;
    }

pub write_all-Finished :
    (host : Host) (path : RelPath) (receipt r : Json) (ws : List Prepared) (t u : Tree)
    → All NoStage ws
    → write_all host path receipt ws t ≡ settled u (done r)
    → Finished host path receipt r ws u
unfolding write_all
write_all-Finished host path receipt r ws t u free h =
    let last : Tree → TreeStep Json = λ t. publish_receipt host path receipt t in
    let more : Tree → TreeStep Json =
      λ t. and_then (settled t (read_back host t ws)) (λ a t. last t) in
    let (a, v, published, rest) =
      and_then-done (publish_each 0 ws t) (λ a t. wrapped (length ws) (more t)) u r h in
    let (b, x, back, ends) =
      and_then-done (settled v (read_back host v ws)) (λ a t. last t) u r
        (wrapped-done (length ws) (more v) u r rest) in
    receipt-Finished host path receipt r ws v u free (publish_each-Holds 0 ws t v free published)
      (ap (λ (s : TreeStep Unit). s.1) back)
      (subst (λ x. last x ≡ settled u (done r)) (sym (ap (λ (s : TreeStep Unit). s.0) back)) ends)

-- A receipt that is stored, is parsed and passes is the one that is found.
pub found-receipt :
    (host : Host) (profile : Profile) (header : Header) (sha : String) (r : Json) (u : Tree)
    → read_relative_bytes (receipt_relative profile header) u ≡ done (some (Host.dumps host r))
    → Host.loads host (Host.dumps host r) ≡ some r
    → check_receipt host profile header sha u r ≡ done tt
    → idempotent_receipt host profile header sha u ≡ done (some r)
unfolding idempotent_receipt parsed_receipt
found-receipt host profile header sha r u stored parsed passed =
    ap (λ m. m >>= parsed_receipt host profile header sha u) stored
    ∙ ap
        (λ (o : Option Json). elim o [
          | none ↦ refuse "Cannot parse writer receipt JSON"
          | some r ↦ check_receipt host profile header sha u r >> done (some r)
        ])
        parsed
    ∙ ap (λ m. m >> done (some r)) passed
