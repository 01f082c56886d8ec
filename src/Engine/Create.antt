-- ===== src/Engine/Create.antt =====
-- internal/reconciler/deferred.go: what a create carries.
use netbox_operator.Common.{
  String, Option, none, List, [], ◌∷◌, ◌≡◌, refl, ◌∙◌, ap, lookup, delete, lookup-delete_same,
  lookup-delete_other, contains, str_eq, eq_iff, if◌then◌else◌, if-cases, Bool-cases, inl, inr,
}
use netbox_operator.Json.{Object, Json}
use package.netbox_operator.Engine.Deferral.{Deferred, strip, delete_all, create_payload}

lookup-delete_all :
    (field : String) (apis : List String) (o : Object)
    → lookup field (delete_all apis o) ≡ (if contains apis field then none else lookup field o)
unfolding delete_all contains
lookup-delete_all field [] o = refl
lookup-delete_all field (api ∷ apis) o = elim (Bool-cases (str_eq api field)) [
  | inl t ↦ rw t (
      lookup-delete_all field apis (delete api o)
      ∙ if-cases (λ (r : Option Json). r ≡ none) (contains apis field) none
          (lookup field (delete api o)) (λ c. refl)
          (λ c. rw ((eq_iff api field).0 t) (lookup-delete_same field o)))
  | inr t ↦ rw t (
      lookup-delete_all field apis (delete api o)
      ∙ ap (λ (r : Option Json). if contains apis field then none else r)
          (lookup-delete_other field api o t))
]

-- A create carries every field of the payload but those that are always deferred and resolved.
pub create_payload_lem :
    (field : String) (fields : List Deferred) (desired : Object)
    → lookup field (create_payload fields desired)
      ≡ (if contains (strip fields) field then none else lookup field desired)
create_payload_lem field fields desired = lookup-delete_all field (strip fields) desired
