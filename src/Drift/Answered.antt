-- ===== src/Drift/Answered.antt =====
-- internal/netbox/drift.go: what a read after a patch shows of each field, and that
-- every change has the desired value.
use mathlib.Core.Path.{subst}
use netbox_operator.Common.{
  String, Bool, true, ◌&&◌, ◌||◌, Option, none, some, List, [], ◌∷◌, ◌≡◌, sym, ◌∙◌, ◌⊎◌, inl, inr,
  All, Any, All-append, if-cases, Option-cases, lookup, if◌then◌else◌,
}
use netbox_operator.Json.{Object, Json, Go, get, unwrap_nested}
use package.netbox_operator.Drift.{
  Change, GenericFk, FieldRules, payload_of, side_same, side_change, scalar_equal, field_equal,
  generic_fk_change, pair_changes, handled, field_changes,
}
use package.netbox_operator.Drift.Payload.{IsOf, Wanted, lookup-payload_of, lookup-payload_of_some}

module _ (go : Go) (rules : FieldRules) where
  -- The comparison that Changes makes for a field.
  abbrev pub agrees : String → Json → Json → Bool
  agrees field have want =
      if handled rules.generic_fks field
      then scalar_equal go (unwrap_nested have) want
      else field_equal go rules field have want

  -- What a read after the patch has of a field: what the patch asked for, up to the comparison, or
  -- else what was there before.
  abbrev pub Answers : Object → Object → String → Option Json → Type 0
  Answers live later field none = get later field ≡ get live field
  Answers live later field (some want) = agrees field (get later field) want ≡ true

  module _ (desired live later : Object) (cs : List Change) where
    abbrev pub Settled : String → Type 0
    Settled field =
        (want : Json)
        → lookup field desired ≡ some want
        → Any (IsOf field) cs ⊎ (agrees field (get live field) want ≡ true)
        → agrees field (get later field) want ≡ true

    pub settled :
        All (Wanted desired) cs
        → ((field : String) → Answers live later field (lookup field (payload_of cs)))
        → (field : String) → Settled field
    settled h answers field want e (inl a) =
        let p : lookup field (payload_of cs) ≡ some want =
          lookup-payload_of_some desired field cs h a ∙ e in
        subst (Answers live later field) p (answers field)
    settled h answers field want e (inr a) = elim (lookup-payload_of desired field cs h) [
      | inl n ↦
          let same : get later field ≡ get live field =
            subst (Answers live later field) n (answers field) in
          rw same a
      | inr s ↦ subst (Answers live later field) (s ∙ e) (answers field)
    ]

  module _ (live desired : Object) where
    pub side_change-Wanted :
        (field : String) (have : Json) (rest : List Change)
        → All (Wanted desired) rest
        → All (Wanted desired) (side_change field have (lookup field desired) rest)
    side_change-Wanted field have rest h = elim (Option-cases (lookup field desired)) [
      | inl n ↦ rw n h
      | inr (w, e) ↦
          subst (λ (o : Option Json). All (Wanted desired) (side_change field have o rest)) (sym e)
            (e, h)
    ]

    pub pair_changes-Wanted :
        (pairs : List GenericFk) → All (Wanted desired) (pair_changes go live desired pairs)
    unfolding pair_changes generic_fk_change
    pair_changes-Wanted [] = tt
    pair_changes-Wanted (pair ∷ pairs) =
        All-append (Wanted desired) (generic_fk_change go live desired pair)
          (pair_changes go live desired pairs)
          (if-cases (λ (cs : List Change). All (Wanted desired) cs)
            (side_same go (get live pair.type_field) (lookup pair.type_field desired)
              && side_same go (get live pair.id_field) (lookup pair.id_field desired))
            [] _ (λ t. tt)
            (λ t.
              side_change-Wanted pair.type_field (get live pair.type_field) _
                (side_change-Wanted pair.id_field (get live pair.id_field) [] tt)))
          (pair_changes-Wanted pairs)

    pub field_changes-Wanted :
        (entries : Object)
        → All (λ (e : String × Json). lookup e.0 desired ≡ some e.1) entries
        → All (Wanted desired) (field_changes go rules live entries)
    unfolding field_changes
    field_changes-Wanted [] h = tt
    field_changes-Wanted ((field, want) ∷ entries) h =
        let rest = field_changes-Wanted entries h.1 in
        if-cases (λ (cs : List Change). All (Wanted desired) cs)
          (handled rules.generic_fks field || field_equal go rules field (get live field) want)
          (field_changes go rules live entries) _ (λ t. rest) (λ t. (h.0, rest))
