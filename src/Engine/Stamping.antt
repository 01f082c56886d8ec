-- ===== src/Engine/Stamping.antt =====
-- internal/provenance/provenance.go: the stamp on the payload of a write, and how it is read back
-- (internal/reconciler/stamp.go, duplicate.go).
use netbox_operator.Common.{
  ℕ, String, Bool, false, not, ◌&&◌, ◌||◌, Option, none, some, List, [], ◌∷◌, ◌++◌, ◌==◌, put,
  contains, str_eq, if◌then◌else◌,
}
use netbox_operator.Json.{
  Json, null, text, whole, list, object, Items, no_items, item, Object, get, ids_of, to_members,
  object_or_empty, custom_fields_key, Go,
}
use netbox_operator.Drift.Order.{sort_ids}
use netbox_operator.Provenance.{CustomFields, stamp_applicable, custom_fields, read_claim}
use package.netbox_operator.Engine.Inputs.{Setting}

abbrev pub tags_field : String
tags_field = "tags"

unfoldable pub has_id : ℕ → List ℕ → Bool
has_id id [] = false
has_id id (x ∷ xs) = x == id || has_id id xs

-- slices.Compact
unfoldable pub compact_ids : List ℕ → List ℕ
compact_ids [] = []
compact_ids (x ∷ xs) =
    let rest = compact_ids xs in
    elim rest [ [] ↦ x ∷ [] | y ∷ ys ↦ if x == y then y ∷ ys else x ∷ y ∷ ys ]

unfoldable pub items : List ℕ → Items
items [] = no_items
items (id ∷ ids) = item (whole id) (items ids)

abbrev pub existing_tags : Json → Json → Json
existing_tags null from_live = from_live
existing_tags from_spec from_live = from_spec

abbrev pub with_id : ℕ → List ℕ → List ℕ
with_id id ids = if has_id id ids then ids else ids ++ (id ∷ [])

-- mergeCustomFields
unfoldable pub put_texts : List (String × String) → Object → Object
put_texts [] out = out
put_texts ((name, value) ∷ fields) out = put name (text value) (put_texts fields out)

-- The custom fields of a live object as the stamp reads them.
abbrev pub text_field : Json → Option String
text_field (text s) = some s
text_field _ = none

unfoldable pub read_fields : Object → CustomFields
read_fields [] = []
read_fields ((k, v) ∷ o) = (k, text_field v) ∷ read_fields o

abbrev pub merge_tags : Go → Json → Json → ℕ → Json
merge_tags go from_spec from_live id =
    list
      (items (compact_ids (sort_ids (with_id id (ids_of go (existing_tags from_spec from_live))))))

abbrev pub put_stamp : List (String × String) → Object → Object
put_stamp [] desired = desired
put_stamp (field ∷ fields) desired =
    put custom_fields_key
      (object
        (to_members (put_texts (field ∷ fields) (object_or_empty (get desired custom_fields_key)))))
      desired

module _ (p : Setting) where
  abbrev pub stamp_tags : Object → Object → Object
  stamp_tags desired live =
      if p.taggable
      then put tags_field
          (merge_tags p.go (get desired tags_field) (get live tags_field) p.provenance.tag_id)
          desired
      else desired

  abbrev pub stamp_fields : Object → Object
  stamp_fields desired =
      if p.desc.custom_fieldable
      then put_stamp (custom_fields p.to_lower p.trim p.provenance p.owner) desired
      else desired

  -- Apply, of which the status is left out; a live object that is not there is empty.
  unfoldable pub stamp : Object → Object → Object
  stamp live desired =
      if not (stamp_applicable p.provenance) || not (p.taggable || p.desc.custom_fieldable)
      then desired
      else stamp_fields (stamp_tags desired live)

  unfoldable pub stamp_identifies : Bool
  stamp_identifies =
      stamp_applicable p.provenance
      && not (str_eq p.provenance.uid_field "")
      && contains p.provenance.fields p.provenance.uid_field
      && p.desc.custom_fieldable
      && not (str_eq p.uid "")

  unfoldable pub stamped_uid : Object → String
  stamped_uid live =
      (read_claim p.to_lower p.trim p.provenance
        (read_fields (object_or_empty (get live custom_fields_key)))).uid

  unfoldable pub stamped_mine : Object → Bool
  stamped_mine live = stamp_identifies && str_eq (stamped_uid live) p.uid
