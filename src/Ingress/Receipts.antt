-- ===== src/Ingress/Receipts.antt =====
-- `persist_and_admit_event` of pipeline/broker_ingress.py: what a returned task rests on, and the
-- broker where the call raises.
use growth_clockwork.Prelude.{
  ◌≡◌, refl, String, true, some, arith, eq_iff, Bool-cases, Option-cases, inl, inr, subst,
}
use growth_clockwork.Json.{Json, str, obj, Fields, field}
use growth_clockwork.Broker.Tables.{Task}
use growth_clockwork.Broker.Session.{Env, State, Error, Result, ok, err}
use growth_clockwork.Broker.Admission.{Admission, admit}
use growth_clockwork.Broker.Requests.{admit_task, run}
use growth_clockwork.Broker.Atomic.{run-atomic}
use growth_clockwork.Ingress.{read_event, admit_event}
use growth_clockwork.Ingress.Prepared.{Prepared, prepare-Prepared}
use growth_clockwork.Ingress.Persist.{
  Writer, WriteRequest, Receipt, Input, receipt_hash, verifies, input_path, content_digest,
  with_input, prepare, input_of, reply_with, admit_written, after_write, after_prepare,
  persist_and_admit_event,
}

-- What a returned task rests on: the one request of this envelope and this text was written, the
-- receipt has its path and its hash, the envelope was admitted with both, and the input that the
-- caller gets names them.
pub record Persisted (env : Env) (writer : Writer) (envelope : Json) (text : String)
    (files files' : writer.Files) (s s' : State) (task : Task) (input : Input) : Type 0 where
  pub fields : Fields
  pub object : envelope ≡ obj fields
  pub request : WriteRequest
  pub prepared : Prepared env writer fields text files request
  pub receipt : Receipt
  pub written : writer.apply_request request files ≡ (ok receipt, files')
  pub verified : receipt_hash request.path receipt.writes ≡ some request.content_sha256
  pub admitted :
      admit_event env
        (obj (
          field "input_ref"
            (str request.path)
            (field "input_sha256" (str request.content_sha256) fields)))
        s
      ≡ (ok task, s')
  pub returned : input ≡ record {
    artifact_ref = request.path;
    artifact_sha256 = request.content_sha256;
    writer_receipt_key = receipt.idempotency_key;
    writer_request_sha256 = receipt.request_sha256;
  }

verifies-receipt_hash :
    (path sha256 : String) (receipt : Receipt)
    → verifies path sha256 receipt ≡ true
    → receipt_hash path receipt.writes ≡ some sha256
verifies-receipt_hash path sha256 receipt h =
    elim (Option-cases (receipt_hash path receipt.writes)) [
      | inl absent ↦ absurd (ground arith)
      | inr (x, found) ↦ ground (arith, eq_iff x sha256)
    ]

raised :
    (env : Env) (a : Admission) (s s' : State) (e : Error)
    → admit env a s ≡ (err e, s')
    → run env (admit_task a) s ≡ (err e, s')
unfolding run
raised env a s s' e k = ground arith

admit_event-atomic :
    (env : Env) (envelope : Json) (s s' : State) (e : Error)
    → admit_event env envelope s ≡ (err e, s')
    → s'.db ≡ s.db
unfolding admit_event
admit_event-atomic env envelope s s' e h = go (read_event env envelope) h
  where
    go :
        (x : Result Admission)
        → elim x [ ok a ↦ admit env a s | err e ↦ (err e, s) ] ≡ (err e, s')
        → s'.db ≡ s.db
    go (ok a) k = run-atomic env (admit_task a) s s' e (raised env a s s' e k)
    go (err x) k = ground arith

reply_with-ok :
    (input : Input) (x : Result Task × State) (s : State) (task : Task) (y : Input)
    → reply_with input x ≡ (ok (task, y), s)
    → (x ≡ (ok task, s)) × (y ≡ input)
reply_with-ok input (ok t, u) s task y h = (ground arith, ground arith)
reply_with-ok input (err e, u) s task y h = absurd (ground arith)

reply_with-err :
    (input : Input) (x : Result Task × State) (s : State) (e : Error)
    → reply_with input x ≡ (err e, s)
    → x ≡ (err e, s)
reply_with-err input (ok t, u) s e h = absurd (ground arith)
reply_with-err input (err y, u) s e h = ground arith

cast_request : {x y v w : String} → x ≡ y → v ≡ w → (P : String → String → Type 0) → P x v → P y w
cast_request {x} {y} {v} {w} e f P p = subst (λ z. P y z) f (subst (λ z. P z v) e p)

module _ (env : Env) (writer : Writer) (text : String) (files : writer.Files) (s : State) where
  after_write-Persisted :
      (fs : Fields) (key : String) (request : WriteRequest)
      → prepare env writer fs text files ≡ ok (key, request)
      → (x : Result Receipt × writer.Files) → writer.apply_request request files ≡ x
      → (files' : writer.Files) (s' : State) (task : Task) (input : Input)
      → after_write env writer fs key text s x ≡ (ok (task, input), (files', s'))
      → Persisted env writer (obj fs) text files files' s s' task input
  after_write-Persisted fs key request ready (err e, fls) wrote files' s' task input h =
      absurd (ground arith)
  after_write-Persisted fs key request ready (ok receipt, fls) wrote files' s' task input h =
      elim (Bool-cases (verifies (input_path key) (content_digest env text) receipt)) [
        | inr bad ↦ absurd (ground arith)
        | inl good ↦
            let k : admit_written env writer fs key text receipt s ≡ (ok (task, input), s') =
              ground arith in
            let same : fls ≡ files' = ground arith in
            let (prepared, (path, sha256)) =
              prepare-Prepared env writer fs text files key request ready in
            let (admitted, returned) =
              reply_with-ok (input_of env writer key text receipt) _ s' task input k in
            record {
              fields = fs;
              object = refl;
              request = request;
              receipt = receipt;
              prepared = prepared;
              written =
                  subst (λ (f : writer.Files). writer.apply_request request files ≡ (ok receipt, f))
                    same wrote;
              verified =
                  cast_request path sha256 (λ p h. receipt_hash p receipt.writes ≡ some h)
                    (verifies-receipt_hash (input_path key) (content_digest env text) receipt good);
              admitted =
                  cast_request path sha256
                    (λ p h.
                      admit_event env
                        (obj (field "input_ref" (str p) (field "input_sha256" (str h) fs))) s
                      ≡ (ok task, s'))
                    admitted;
              returned =
                  cast_request path sha256
                    (λ p h. input ≡ record {
                      artifact_ref = p;
                      artifact_sha256 = h;
                      writer_receipt_key = receipt.idempotency_key;
                      writer_request_sha256 = receipt.request_sha256;
                    })
                    returned;
            }
      ]

  after_write-atomic :
      (fs : Fields) (key : String) (x : Result Receipt × writer.Files) (files' : writer.Files)
      (s' : State) (e : Error)
      → after_write env writer fs key text s x ≡ (err e, (files', s'))
      → s'.db ≡ s.db
  after_write-atomic fs key (err y, fls) files' s' e h = ground arith
  after_write-atomic fs key (ok receipt, fls) files' s' e h =
      elim (Bool-cases (verifies (input_path key) (content_digest env text) receipt)) [
        | inr bad ↦ ground arith
        | inl good ↦
            let k : admit_written env writer fs key text receipt s ≡ (err e, s') = ground arith in
            admit_event-atomic env (obj (with_input (input_path key) (content_digest env text) fs))
              s s' e (reply_with-err (input_of env writer key text receipt) _ s' e k)
      ]

-- A task that is returned rests on the caller's own envelope and text. The envelope has exactly the
-- fields of such a request and the project of the loaded profile, its identity was checked, and the
-- text is not blank and has at most 64000 bytes. The Root Writer was asked for one write, of the
-- text under the path of the digest of origin and identity, and returned a receipt in which that
-- path has the hash of the text. The broker admitted the envelope with that path and hash, and the
-- returned input has them with the key and the hash of the receipt.
pub persist_and_admit_event-Persisted :
    (env : Env) (writer : Writer) (envelope : Json) (text : String) (files files' : writer.Files)
    (s s' : State) (task : Task) (input : Input)
    → persist_and_admit_event env writer envelope text files s ≡ (ok (task, input), (files', s'))
    → Persisted env writer envelope text files files' s s' task input
unfolding persist_and_admit_event
persist_and_admit_event-Persisted env writer (obj fs) text files files' s s' task input h =
    go (prepare env writer fs text files) refl h
  where
    go :
        (x : Result (String × WriteRequest))
        → prepare env writer fs text files ≡ x
        → after_prepare env writer fs text files s x ≡ (ok (task, input), (files', s'))
        → Persisted env writer (obj fs) text files files' s s' task input
    go (err e) ready k = absurd (ground arith)
    go (ok (key, request)) ready k =
        after_write-Persisted env writer text files s fs key request ready
          (writer.apply_request request files) refl files' s' task input k
persist_and_admit_event-Persisted env writer _ text files files' s s' task input h =
    absurd (ground arith)

-- Where the call raises, at whatever point, the broker's database is as it was.
pub persist_and_admit_event-atomic :
    (env : Env) (writer : Writer) (envelope : Json) (text : String) (files files' : writer.Files)
    (s s' : State) (e : Error)
    → persist_and_admit_event env writer envelope text files s ≡ (err e, (files', s'))
    → s'.db ≡ s.db
unfolding persist_and_admit_event
persist_and_admit_event-atomic env writer (obj fs) text files files' s s' e h =
    go (prepare env writer fs text files) h
  where
    go :
        (x : Result (String × WriteRequest))
        → after_prepare env writer fs text files s x ≡ (err e, (files', s'))
        → s'.db ≡ s.db
    go (err y) k = ground arith
    go (ok (key, request)) k =
        after_write-atomic env writer text files s fs key (writer.apply_request request files)
          files' s' e k
persist_and_admit_event-atomic env writer _ text files files' s s' e h = ground arith
