-- ===== src/Drift/Pairs.antt =====
-- internal/netbox/drift.go: the two fields of a generic reference are written
-- together.
use netbox_operator.Common.{
  String, true, ◌&&◌, Option, none, some, List, [], ◌≡◌, refl, ◌⊎◌, inl, inr, Any, Bool-cases,
  lookup, arith,
}
use netbox_operator.Json.{Object, Json, Go, get}
use package.netbox_operator.Drift.{Change, GenericFk, side_same, side_change, generic_fk_change}
use package.netbox_operator.Drift.Payload.{IsOf}

module _ (go : Go) where
  abbrev pub SidesSame : Object → Object → GenericFk → Type 0
  SidesSame live desired pair =
      (side_same go (get live pair.type_field) (lookup pair.type_field desired) ≡ true)
      × (side_same go (get live pair.id_field) (lookup pair.id_field desired) ≡ true)

  module _ (live desired : Object) (pair : GenericFk) where
    side_change-here :
        (side field : String) (have want : Json) (rest : List Change)
        → lookup field desired ≡ some want
        → side ≡ field
        → Any (IsOf field) (side_change side have (lookup side desired) rest)
    side_change-here side field have want rest e p = rw p (rw e (inl refl))

    side_change-later :
        (side field : String) (have : Json) (want : Option Json) (rest : List Change)
        → Any (IsOf field) rest
        → Any (IsOf field) (side_change side have want rest)
    side_change-later side field have none rest a = a
    side_change-later side field have (some w) rest a = inr a

    -- A pair with a side that differs has each side that is desired in its changes.
    pub generic_fk_change-cases :
        ((field : String) (want : Json)
          → lookup field desired ≡ some want
          → (pair.type_field ≡ field) ⊎ (pair.id_field ≡ field)
          → Any (IsOf field) (generic_fk_change go live desired pair))
        ⊎ SidesSame live desired pair
    unfolding generic_fk_change
    generic_fk_change-cases =
        let same_type = side_same go (get live pair.type_field) (lookup pair.type_field desired) in
        let same_id = side_same go (get live pair.id_field) (lookup pair.id_field desired) in
        elim (Bool-cases (same_type && same_id)) [
          | inl t ↦ inr ground arith
          | inr t ↦ inl (λ field want e o. rw t (elim o [
            | inl p ↦ side_change-here pair.type_field field (get live pair.type_field) want _ e p
            | inr p ↦
                side_change-later pair.type_field field (get live pair.type_field)
                  (lookup pair.type_field desired) _
                  (side_change-here pair.id_field field (get live pair.id_field) want [] e p)
          ]))
        ]
