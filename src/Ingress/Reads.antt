-- ===== src/Ingress/Reads.antt =====
-- What `admit_event` of pipeline/broker_ingress.py passes to the broker, member by member.
use growth_clockwork.Prelude.{
  ◌≡◌, refl, ap, ◌∙◌, String, true, false, Option, none, some, List, [], ◌∷◌, arith, all, str_eq,
  Option-cases, Bool-cases, inl, inr, subst,
}
use growth_clockwork.Prelude.Int.{ℤ}
use growth_clockwork.Json.{Json, num, str, arr, obj, Fields, get_field, items, has_exactly}
use growth_clockwork.Json.Canonical.{canonical}
use growth_clockwork.Broker.Session.{Env, ok}
use growth_clockwork.Broker.Admission.{Admission}
use growth_clockwork.Ingress.{
  common_fields, origin_of, text_member, hash_member, counters, parent_of, identity_of,
  identity_fields, identity_digest, check_identity_field, member, is_one, read_identity, read_texts,
  read_event,
}
use growth_clockwork.Ingress.Readers.{
  bind-ok, check-ok, member-there, origin_of-known, identity_of-digest, agent-fields,
}

-- The parent of an event: a text of its identity where the origin is an agent, and none otherwise.
abbrev pub Parented : String → Fields → Option String → Type 0
Parented origin identity none = str_eq origin "agent" ≡ false
Parented origin identity (some x) =
    (str_eq origin "agent" ≡ true) × (get_field "parent_task_id" identity ≡ some (str x))

-- An admission has the members of the envelope: the key is the digest of the origin and the
-- identity, and the parent is that of the identity.
pub record Reads (env : Env) (envelope : Json) (a : Admission) : Type 0 where
  pub fields : Fields
  pub object : envelope ≡ obj fields
  pub exact : has_exactly fields common_fields ≡ true
  pub project : get_field "project_id" fields ≡ some (str a.project)
  pub agent : get_field "agent_id" fields ≡ some (str a.agent)
  pub actor : get_field "actor_id" fields ≡ some (str a.actor)
  pub input_ref : get_field "input_ref" fields ≡ some (str a.input_ref)
  pub hash : get_field "input_sha256" fields ≡ some (str a.input_sha256)
  pub not_before : get_field "not_before" fields ≡ some (num a.not_before)
  pub max_attempts : get_field "max_attempts" fields ≡ some (num a.max_attempts)
  pub origin : get_field "origin" fields ≡ some (str a.origin)
  pub identity : Fields
  pub event : get_field "identity" fields ≡ some (obj identity)
  pub key : a.origin_key ≡ env.sha256 (canonical (arr (items (str a.origin ∷ obj identity ∷ []))))
  pub parent : Parented a.origin identity a.parent_task_id

text_member-there :
    (fs : Fields) (key label s : String)
    → text_member fs key label ≡ ok s
    → get_field key fs ≡ some (str s)
text_member-there fs key label s h = go (get_field key fs) refl
  where
    go : (o : Option Json) → get_field key fs ≡ o → o ≡ some (str s)
    go none e = absurd (ground arith)
    go (some (str t)) e = ground arith
    go (some _) e = absurd (ground arith)

hash_member-there :
    (fs : Fields) (s : String) → hash_member fs ≡ ok s → get_field "input_sha256" fs ≡ some (str s)
hash_member-there fs s h = go (get_field "input_sha256" fs) refl
  where
    go : (o : Option Json) → get_field "input_sha256" fs ≡ o → o ≡ some (str s)
    go none e = absurd (ground arith)
    go (some (str t)) e = ground arith
    go (some _) e = absurd (ground arith)

counters-there :
    (a b : Option Json) (n m : ℤ)
    → counters a b ≡ ok (n, m)
    → (a ≡ some (num n)) × (b ≡ some (num m))
counters-there none b n m h = absurd (ground arith)
counters-there (some v) none n m h = absurd (ground arith)
counters-there (some (num k)) (some (num l)) n m h = (ground arith, ground arith)
counters-there (some (num k)) (some _) n m h = absurd (ground arith)
counters-there (some _) (some _) n m h = absurd (ground arith)

origin_of-there :
    (v : Option Json) (o : String) (required : List String)
    → origin_of v ≡ ok (o, required)
    → v ≡ some (str o)
origin_of-there none o required h = absurd (ground arith)
origin_of-there (some (str t)) o required h = elim (Option-cases (identity_fields t)) [
  | inl unknown ↦ absurd (ground arith)
  | inr (fields, known) ↦ ground arith
]
origin_of-there (some _) o required h = absurd (ground arith)

parent_field-there :
    (fs : Fields)
    → check_identity_field fs "parent_task_id" ≡ true
    → (x : String) × (get_field "parent_task_id" fs ≡ some (str x))
unfolding check_identity_field
parent_field-there fs h = go (get_field "parent_task_id" fs) refl
  where
    go : (o : Option Json) → get_field "parent_task_id" fs ≡ o → (x : String) × (o ≡ some (str x))
    go none e = absurd (ground arith)
    go (some (str t)) e = (t, refl)
    go (some _) e = absurd (ground arith)

parent_of-Parented :
    (o : String) (fs : Fields) (required : List String) (parent : Option String)
    → identity_fields o ≡ some required
    → all (check_identity_field fs) required ≡ true
    → parent_of o (obj fs) ≡ ok parent
    → Parented o fs parent
parent_of-Parented o fs required parent known checked h = elim (Bool-cases (str_eq o "agent")) [
  | inl agent ↦
      let fields = agent-fields o required agent known in
      let fits : check_identity_field fs "parent_task_id" ≡ true = ground arith in
      let (x, there) = parent_field-there fs fits in
      let same : some x ≡ parent = ground (arith, agent, there) in
      subst (Parented o fs) same (agent, there)
  | inr other ↦ let same : none ≡ parent = ground (arith, other) in subst (Parented o fs) same other
]

module _ (env : Env) (fs : Fields) (o : String) (required : List String) where
  -- The last two arguments of an admission, with the identity that they come from.
  record Identified (make : String → Option String → Admission) (a : Admission) : Type 0 where
    key : String
    parent : Option String
    identity : Fields
    event : get_field "identity" fs ≡ some (obj identity)
    digest : key ≡ env.sha256 (canonical (arr (items (str o ∷ obj identity ∷ []))))
    parented : Parented o identity parent
    made : make key parent ≡ a

  read_identity-Identified :
      (make : String → Option String → Admission) (a : Admission)
      → identity_fields o ≡ some required
      → read_identity env fs o required make ≡ ok a
      → Identified make a
  unfolding identity_digest
  read_identity-Identified make a known h =
      let (identity, t1, h1) = bind-ok (member fs "identity") _ a h in
      let (parent, t2, h2) = bind-ok (parent_of o identity) _ a h1 in
      let (key, t3, h3) = bind-ok (identity_of env o required identity) _ a h2 in
      let (gs, object, checked, hashed) = identity_of-digest env o required identity key t3 in
      record {
        key = key;
        parent = parent;
        identity = gs;
        event = member-there fs "identity" identity t1 ∙ ap some object;
        digest = hashed;
        parented =
            parent_of-Parented o gs required parent known checked
              (subst (λ x. parent_of o x ≡ ok parent) object t2);
        made = ground arith;
      }

  read_texts-Reads :
      (a : Admission)
      → has_exactly fs common_fields ≡ true
      → get_field "origin" fs ≡ some (str o)
      → identity_fields o ≡ some required
      → read_texts env fs o required ≡ ok a
      → Reads env (obj fs) a
  read_texts-Reads a exact from known h =
      let (project, t1, h1) = bind-ok (text_member fs "project_id" "Invalid project") _ a h in
      let (agent, t2, h2) = bind-ok (text_member fs "agent_id" "Invalid agent") _ a h1 in
      let (actor, t3, h3) = bind-ok (text_member fs "actor_id" "Invalid actor") _ a h2 in
      let (input_ref, t4, h4) =
        bind-ok (text_member fs "input_ref" "Invalid input reference") _ a h3 in
      let (hash, t5, h5) = bind-ok (hash_member fs) _ a h4 in
      let ((n, m), t6, h6) =
        bind-ok (counters (get_field "not_before" fs) (get_field "max_attempts" fs)) _ a h5 in
      let (not_before, max_attempts) =
        counters-there (get_field "not_before" fs) (get_field "max_attempts" fs) n m t6 in
      let i = read_identity-Identified _ a known h6 in
      subst (Reads env (obj fs)) i.made (record {
        fields = fs;
        object = refl;
        exact = exact;
        project = text_member-there fs "project_id" "Invalid project" project t1;
        agent = text_member-there fs "agent_id" "Invalid agent" agent t2;
        actor = text_member-there fs "actor_id" "Invalid actor" actor t3;
        input_ref = text_member-there fs "input_ref" "Invalid input reference" input_ref t4;
        hash = hash_member-there fs hash t5;
        not_before = not_before;
        max_attempts = max_attempts;
        origin = from;
        identity = i.identity;
        event = i.event;
        key = i.digest;
        parent = i.parented;
      })

-- An event that is read is an object with exactly the fields of an event, and the admission has its
-- members: project, agent, actor, input, hash, counters and origin are those of the same name, the
-- key is the digest of the origin and the identity, and the parent is the text `parent_task_id` of
-- the identity where the origin is an agent and none for every other origin.
pub read_event-Reads :
    (env : Env) (envelope : Json) (a : Admission)
    → read_event env envelope ≡ ok a
    → Reads env envelope a
unfolding read_event
read_event-Reads env (obj fs) a h =
    let (exact, h1) = check-ok (has_exactly fs common_fields) _ _ a h in
    let (_, h2) = check-ok (is_one (get_field "version" fs)) _ _ a h1 in
    let ((o, required), known, h3) = bind-ok (origin_of (get_field "origin" fs)) _ a h2 in
    read_texts-Reads env fs o required a exact
      (origin_of-there (get_field "origin" fs) o required known)
      (origin_of-known (get_field "origin" fs) o required known) h3
read_event-Reads env _ a h = absurd (ground arith)
