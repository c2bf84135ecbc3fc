-- ===== src/Routes/Entries.antt =====
-- The loop of `route_for_activation_decisions` in pipeline/agent_registry.py: its decisions and the
-- entries of the plan.
use growth_clockwork.Prelude.{
  ◌≡◌, ap, ◌∙◌, sym, subst, String, Bool, true, false, List, ◌∷◌, arith, is_in, str_eq, eq_iff,
  Bool-cases, inl, inr,
}
use growth_clockwork.Json.{Json, Items, nil, cons, get_field}
use growth_clockwork.Routes.{done}
use growth_clockwork.Routes.Activation.{bind-done}
use growth_clockwork.Routes.Decisions.{Decision, decided_ids, read_item, read_decisions, activated}
use growth_clockwork.Routes.Plans.{Names, word, StepEntry, Says, Entries, read_item-StepEntry}

module _ (optional : List String) where
  StepEntry-Names :
      {v : Json} {x y a : String} {b : Bool}
      → StepEntry optional v x b
      → Names v y a
      → (y ≡ x) × (a ≡ word b)
  StepEntry-Names entry names =
      let same : names.fields ≡ entry.names.fields =
        ground (arith, names.object, entry.names.object) in
      let step = ap (get_field "step_id") same in
      let decision = ap (get_field "decision") same in
      (
        ground (arith, names.step, entry.names.step, step),
        ground (arith, names.decision, entry.names.decision, decision),
      )

  -- One round of the loop.
  read_cons :
      (seen : List Decision) (v : Json) (vs : Items) (ds : List Decision)
      → read_decisions optional seen (cons v vs) ≡ done ds
      → (d : Decision) × StepEntry optional v d.0 d.1
        × (is_in d.0 (decided_ids seen) ≡ false)
        × (read_decisions optional (d ∷ seen) vs ≡ done ds)
  unfolding read_decisions
  read_cons seen v vs ds h =
      let (d, read, rest) =
        bind-done (read_item optional seen v) (λ d. read_decisions optional (d ∷ seen) vs) ds h in
      let (entry, fresh) = read_item-StepEntry optional seen v d read in (d, entry, fresh, rest)

  -- A decision stays, and no later one changes it.
  read_decisions-keeps :
      (seen : List Decision) (vs : Items) (ds : List Decision) (x : String)
      → read_decisions optional seen vs ≡ done ds
      → is_in x (decided_ids seen) ≡ true
      → (is_in x (decided_ids ds) ≡ true) × (activated ds x ≡ activated seen x)
  unfolding read_decisions
  read_decisions-keeps seen nil ds x h k =
      let same : seen ≡ ds = ground arith in
      (ground (arith, k, same), ap (λ z. activated z x) (sym same))
  read_decisions-keeps seen (cons v vs) ds x h k =
      let (d, entry, fresh, rest) = read_cons seen v vs ds h in
      let later = read_decisions-keeps (d ∷ seen) vs ds x rest (ground (arith, k)) in
      let other : str_eq d.0 x ≡ false = elim (Bool-cases (str_eq d.0 x)) [
        | inl same ↦
            let e : d.0 ≡ x = ground (arith, eq_iff d.0 x) in
            absurd (ground (arith, subst (λ z. is_in z (decided_ids seen) ≡ false) e fresh, k))
        | inr off ↦ off
      ] in
      (later.0, ground (arith, later.1, other))

  -- What an entry says is what was decided.
  pub read_decisions-Says :
      (seen : List Decision) (vs : Items) (ds : List Decision) (x a : String)
      → read_decisions optional seen vs ≡ done ds
      → Says x a vs
      → (is_in x (decided_ids ds) ≡ true) × (a ≡ word (activated ds x))
  read_decisions-Says seen nil ds x a h says = elim says [ ]
  read_decisions-Says seen (cons v vs) ds x a h (Says.first names) =
      let (d, entry, fresh, rest) = read_cons seen v vs ds h in
      let (same, said) = StepEntry-Names entry names in
      let there : is_in x (decided_ids (d ∷ seen)) ≡ true = ground (arith, same, eq_iff x d.0) in
      let (kept, decided) = read_decisions-keeps (d ∷ seen) vs ds x rest there in
      let now : activated (d ∷ seen) x ≡ d.1 = ground (arith, same, eq_iff d.0 x) in
      (kept, said ∙ ap word (sym (decided ∙ now)))
  read_decisions-Says seen (cons v vs) ds x a h (Says.later says) =
      let (d, entry, fresh, rest) = read_cons seen v vs ds h in
      read_decisions-Says (d ∷ seen) vs ds x a rest says

  -- No entry names a step that was decided before.
  read_decisions-fresh :
      (seen : List Decision) (vs : Items) (ds : List Decision) (x a : String)
      → read_decisions optional seen vs ≡ done ds
      → is_in x (decided_ids seen) ≡ true
      → Says x a vs
      → ⊥
  read_decisions-fresh seen nil ds x a h k says = elim says [ ]
  read_decisions-fresh seen (cons v vs) ds x a h k (Says.first names) =
      let (d, entry, fresh, rest) = read_cons seen v vs ds h in
      let (same, said) = StepEntry-Names entry names in
      absurd (ground (arith, subst (λ z. is_in z (decided_ids seen) ≡ true) same k, fresh))
  read_decisions-fresh seen (cons v vs) ds x a h k (Says.later says) =
      let (d, entry, fresh, rest) = read_cons seen v vs ds h in
      read_decisions-fresh (d ∷ seen) vs ds x a rest (ground (arith, k)) says

  pub read_decisions-Entries :
      (seen : List Decision) (vs : Items) (ds : List Decision)
      → read_decisions optional seen vs ≡ done ds
      → Entries optional vs
  read_decisions-Entries seen nil ds h = Entries.no_more
  read_decisions-Entries seen (cons v vs) ds h =
      let (d, entry, fresh, rest) = read_cons seen v vs ds h in
      let own : is_in d.0 (decided_ids (d ∷ seen)) ≡ true = ground (arith, eq_iff d.0 d.0) in
      Entries.more d.0 d.1 entry
        (λ a says. read_decisions-fresh (d ∷ seen) vs ds d.0 a rest own says)
        (read_decisions-Entries (d ∷ seen) vs ds rest)

  -- A decision is of an entry or was there before.
  pub read_decisions-said :
      (seen : List Decision) (vs : Items) (ds : List Decision) (x : String)
      → read_decisions optional seen vs ≡ done ds
      → is_in x (decided_ids ds) ≡ true
      → is_in x (decided_ids seen) ≡ false
      → Says x (word (activated ds x)) vs
  unfolding read_decisions
  read_decisions-said seen nil ds x h k n =
      let same : seen ≡ ds = ground arith in absurd (ground (arith, k, n, same))
  read_decisions-said seen (cons v vs) ds x h k n =
      let (d, entry, fresh, rest) = read_cons seen v vs ds h in
      elim (Bool-cases (str_eq x d.0)) [
        | inl same ↦
            let e : d.0 ≡ x = ground (arith, eq_iff x d.0) in
            let there : is_in x (decided_ids (d ∷ seen)) ≡ true = ground (arith, same) in
            let (kept, decided) = read_decisions-keeps (d ∷ seen) vs ds x rest there in
            let now : activated (d ∷ seen) x ≡ d.1 = ground (arith, e, eq_iff d.0 x) in
            Says.first (
              subst (λ z. Names v z (word (activated ds x))) e
                (subst (λ z. Names v d.0 (word z)) (sym (decided ∙ now)) entry.names))
        | inr other ↦
            Says.later (read_decisions-said (d ∷ seen) vs ds x rest k (ground (arith, n, other)))
      ]

  pub Says-is_optional :
      {vs : Items} {x a : String} → Entries optional vs → Says x a vs → is_in x optional ≡ true
  Says-is_optional (Entries.more y b entry last rest) (Says.first names) =
      let (same, said) = StepEntry-Names entry names in
      subst (λ z. is_in z optional ≡ true) (sym same) entry.is_optional
  Says-is_optional (Entries.more y b entry last rest) (Says.later says) = Says-is_optional rest says
  Says-is_optional Entries.no_more says = elim says [ ]
