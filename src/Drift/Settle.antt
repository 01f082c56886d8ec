-- ===== src/Drift/Settle.antt =====
-- internal/netbox/drift.go: a patch that NetBox takes leaves no drift.
use netbox_operator.Common.{
  String, true, ◌||◌, some, List, [], ◌∷◌, ◌++◌, ◌≡◌, refl, ◌⊎◌, inl, inr, All, Any, All-append,
  Any-append_left, Any-append_right, if-cases, Bool-cases, Option-cases, lookup, eq_iff, arith,
}
use netbox_operator.Json.{Object, Json, Go, get}
use package.netbox_operator.Drift.{
  Change, GenericFk, FieldRules, sort_changes, payload_of, side_same, field_equal,
  generic_fk_change, pair_changes, handled, field_changes, changes,
}
use package.netbox_operator.Drift.Payload.{IsOf, Wanted, sort_changes-All, sort_changes-Any}
use package.netbox_operator.Drift.Answered.{
  agrees, Answers, Settled, settled, pair_changes-Wanted, field_changes-Wanted,
}
use package.netbox_operator.Drift.Pairs.{generic_fk_change-cases}

module _ (go : Go) (rules : FieldRules) where
  module _ (desired live later : Object) (cs : List Change) where
    side-Settled :
        (field : String)
        → Settled go rules desired live later cs field
        → handled rules.generic_fks field ≡ true
        → ((want : Json)
            → lookup field desired ≡ some want
            → Any (IsOf field) cs ⊎ (side_same go (get live field) (lookup field desired) ≡ true))
        → side_same go (get later field) (lookup field desired) ≡ true
    side-Settled field s h f = elim (Option-cases (lookup field desired)) [
      | inl n ↦ rw n refl
      | inr (want, e) ↦
          let r : agrees go rules field (get later field) want ≡ true =
            s want e (elim (f want e) [ inl a ↦ inl a | inr b ↦ inr (rw h (rw e at b)) ]) in
          rw e (rw h at r)
    ]

    generic_fk_change-Settled :
        (pair : GenericFk)
        → ((field : String) → Settled go rules desired live later cs field)
        → handled rules.generic_fks pair.type_field ≡ true
        → handled rules.generic_fks pair.id_field ≡ true
        → ((field : String)
            → Any (IsOf field) (generic_fk_change go live desired pair)
            → Any (IsOf field) cs)
        → generic_fk_change go later desired pair ≡ []
    unfolding generic_fk_change
    generic_fk_change-Settled pair s ht hi inc =
        let ways = generic_fk_change-cases go live desired pair in
        let type_same = side-Settled pair.type_field (s pair.type_field) ht (λ want e. elim ways [
          | inl f ↦ inl (inc pair.type_field (f pair.type_field want e (inl refl)))
          | inr b ↦ inr b.0
        ]) in
        let id_same = side-Settled pair.id_field (s pair.id_field) hi (λ want e. elim ways [
          | inl f ↦ inl (inc pair.id_field (f pair.id_field want e (inr refl)))
          | inr b ↦ inr b.1
        ]) in
        rw type_same (rw id_same refl)

    pair_changes-Settled :
        (pairs : List GenericFk)
        → ((field : String) → Settled go rules desired live later cs field)
        → ((field : String) → handled pairs field ≡ true → handled rules.generic_fks field ≡ true)
        → ((field : String)
            → Any (IsOf field) (pair_changes go live desired pairs)
            → Any (IsOf field) cs)
        → pair_changes go later desired pairs ≡ []
    unfolding pair_changes handled
    pair_changes-Settled [] s sub inc = refl
    pair_changes-Settled (pair ∷ pairs) s sub inc =
        let here : generic_fk_change go later desired pair ≡ [] =
          generic_fk_change-Settled pair s
            (sub pair.type_field ground (arith, eq_iff pair.type_field pair.type_field))
            (sub pair.id_field ground (arith, eq_iff pair.id_field pair.id_field))
            (λ field a. inc field (Any-append_left (IsOf field) _ _ a)) in
        rw here (
          pair_changes-Settled pairs s (λ field h. sub field ground arith)
            (λ field a.
              inc field
                (Any-append_right (IsOf field) (generic_fk_change go live desired pair) _ a)))

    field_changes-Settled :
        (entries : Object)
        → All (λ (e : String × Json). lookup e.0 desired ≡ some e.1) entries
        → ((field : String) → Settled go rules desired live later cs field)
        → ((field : String)
            → Any (IsOf field) (field_changes go rules live entries)
            → Any (IsOf field) cs)
        → field_changes go rules later entries ≡ []
    unfolding field_changes
    field_changes-Settled [] h s inc = refl
    field_changes-Settled ((field, want) ∷ entries) h s inc =
        let rest = field_changes-Settled entries h.1 s (λ f a. inc f (
          if-cases (λ (xs : List Change). Any (IsOf f) xs)
            (handled rules.generic_fks field || field_equal go rules field (get live field) want)
            (field_changes go rules live entries) _ (λ t. a) (λ t. inr a))) in
        elim (Bool-cases (handled rules.generic_fks field)) [
          | inl t ↦ rw t rest
          | inr t ↦
              let way : Any (IsOf field) cs ⊎ (agrees go rules field (get live field) want ≡ true) =
                elim (Bool-cases (field_equal go rules field (get live field) want)) [
                  | inl b ↦ inr (rw t b)
                  | inr b ↦ inl (inc field (rw t (rw b (inl refl))))
                ] in
              let same : agrees go rules field (get later field) want ≡ true =
                s field want h.0 way in
              let equal : field_equal go rules field (get later field) want ≡ true =
                (rw t at same) in
              rw t (rw equal rest)
        ]

  -- A payload that NetBox takes leaves nothing to change: if the desired object is a map, with one
  -- value for each field, and a read after the patch shows in each field of the payload a value that
  -- the comparison of Changes takes for it, and in each other field what was there, then Changes of
  -- that read is empty.
  pub changes-settled :
      (live desired later : Object)
      → All (λ (e : String × Json). lookup e.0 desired ≡ some e.1) desired
      → ((field : String)
          → Answers go rules live later field
              (lookup field (payload_of (changes go live desired rules))))
      → changes go later desired rules ≡ []
  unfolding changes sort_changes
  changes-settled live desired later h answers =
      let pairs = pair_changes go live desired rules.generic_fks in
      let fields = field_changes go rules live desired in
      let wanted : All (Wanted desired) (sort_changes (pairs ++ fields)) =
        sort_changes-All (Wanted desired) (pairs ++ fields) (
          All-append (Wanted desired) pairs fields
            (pair_changes-Wanted go rules live desired rules.generic_fks)
            (field_changes-Wanted go rules live desired desired h)) in
      let s = settled go rules desired live later (sort_changes (pairs ++ fields)) wanted answers in
      let no_pairs : pair_changes go later desired rules.generic_fks ≡ [] =
        pair_changes-Settled desired live later (sort_changes (pairs ++ fields)) rules.generic_fks s
          (λ field e. e)
          (λ field a.
            sort_changes-Any (IsOf field) (pairs ++ fields)
              (Any-append_left (IsOf field) pairs fields a)) in
      let no_fields : field_changes go rules later desired ≡ [] =
        field_changes-Settled desired live later (sort_changes (pairs ++ fields)) desired h s
          (λ field a.
            sort_changes-Any (IsOf field) (pairs ++ fields)
              (Any-append_right (IsOf field) pairs fields a)) in
      rw no_pairs (rw no_fields refl)
