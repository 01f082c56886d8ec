-- ===== src/Drift/Patch.antt =====
-- internal/netbox/drift.go: the payload of a patch has desired values only, and a generic reference
-- is whole in it.
use netbox_operator.Common.{
  String, Option, none, some, List, [], ◌∷◌, ◌++◌, ◌≡◌, ◌⊎◌, inl, inr, sym, refl, All, Any,
  All-append, Any-append_left, Any-append_right, lookup, Option-cases, ◌∙◌,
}
use netbox_operator.Json.{Object, Json, Go}
use package.netbox_operator.Drift.{
  GenericFk, FieldRules, payload_of, generic_fk_change, pair_changes, field_changes, changes,
}
use package.netbox_operator.Drift.Payload.{
  IsOf, Wanted, sort_changes-All, sort_changes-Any, lookup-payload_of, lookup-payload_of_some,
}
use package.netbox_operator.Drift.Answered.{pair_changes-Wanted, field_changes-Wanted}
use package.netbox_operator.Drift.Pairs.{SidesSame, generic_fk_change-cases}

module _ (go : Go) (live desired : Object) (rules : FieldRules) where
  changes-Wanted :
      All (λ (e : String × Json). lookup e.0 desired ≡ some e.1) desired
      → All (Wanted desired) (changes go live desired rules)
  unfolding changes
  changes-Wanted h =
      let pairs = pair_changes go live desired rules.generic_fks in
      let fields = field_changes go rules live desired in
      sort_changes-All (Wanted desired) (pairs ++ fields) (
        All-append (Wanted desired) pairs fields
          (pair_changes-Wanted go rules live desired rules.generic_fks)
          (field_changes-Wanted go rules live desired desired h))

  pair_changes-Any :
      (pair : GenericFk) (field : String) (pairs : List GenericFk)
      → Any (λ (other : GenericFk). other ≡ pair) pairs
      → Any (IsOf field) (generic_fk_change go live desired pair)
      → Any (IsOf field) (pair_changes go live desired pairs)
  unfolding pair_changes
  pair_changes-Any pair field [] h a = absurd h
  pair_changes-Any pair field (p ∷ ps) (inl e) a =
      Any-append_left (IsOf field) (generic_fk_change go live desired p) _ (rw e a)
  pair_changes-Any pair field (p ∷ ps) (inr h) a =
      Any-append_right (IsOf field) (generic_fk_change go live desired p) _
        (pair_changes-Any pair field ps h a)

  -- A field of the payload.
  abbrev pub patched : String → Option Json
  patched field = lookup field (payload_of (changes go live desired rules))

  -- The payload of a desired map has for each field the desired value or nothing, and for each pair
  -- of the rules both fields of which it has all that are desired, unless neither of them differs.
  pub patched-desired :
      All (λ (e : String × Json). lookup e.0 desired ≡ some e.1) desired
      → ((field : String) → (patched field ≡ none) ⊎ (patched field ≡ lookup field desired))
        × ((pair : GenericFk)
            → Any (λ (other : GenericFk). other ≡ pair) rules.generic_fks
            → SidesSame go live desired pair
              ⊎ ((patched pair.type_field ≡ lookup pair.type_field desired)
                  × (patched pair.id_field ≡ lookup pair.id_field desired)))
  unfolding changes
  patched-desired h =
      let cs = changes go live desired rules in
      let wanted = changes-Wanted h in
      let pairs = pair_changes go live desired rules.generic_fks in
      let fields = field_changes go rules live desired in
      (
        λ field. lookup-payload_of desired field cs wanted,
        λ pair member. elim (generic_fk_change-cases go live desired pair) [
          | inr same ↦ inl same
          | inl f ↦
              let side : (field : String)
                  → (pair.type_field ≡ field) ⊎ (pair.id_field ≡ field)
                  → patched field ≡ lookup field desired =
                λ field o. elim (Option-cases (lookup field desired)) [
                  | inl n ↦ elim (lookup-payload_of desired field cs wanted) [
                    | inl m ↦ m ∙ sym n
                    | inr e ↦ e
                  ]
                  | inr (want, e) ↦ lookup-payload_of_some desired field cs wanted (
                      sort_changes-Any (IsOf field) (pairs ++ fields) (
                        Any-append_left (IsOf field) pairs fields (
                          pair_changes-Any pair field rules.generic_fks member (f field want e o))))
                ] in
              inr (side pair.type_field (inl refl), side pair.id_field (inr refl))
        ],
      )
