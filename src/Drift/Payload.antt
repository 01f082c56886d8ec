-- ===== src/Drift/Payload.antt =====
-- internal/netbox/drift.go, Drift: what the payload of a patch has for a field.
use netbox_operator.Common.{
  String, none, some, List, [], ◌∷◌, ◌≡◌, refl, sym, ◌∙◌, ◌⊎◌, inl, inr, All, Any, if-cases,
  Bool-cases, lookup, lookup-put_same, lookup-put_other, str_eq, eq_iff,
}
use netbox_operator.Json.{Object}
use package.netbox_operator.Drift.{Change, insert_change, sort_changes, payload_of}
use package.netbox_operator.Drift.Order.{text_before}

abbrev pub IsOf : String → Change → Type 0
IsOf field c = c.field ≡ field

module _ (P : Change → Type 0) where
  pub insert_change-All :
      (c : Change) (cs : List Change) → P c → All P cs → All P (insert_change c cs)
  unfolding insert_change
  insert_change-All c [] p h = (p, tt)
  insert_change-All c (d ∷ ds) p h =
      if-cases (λ (xs : List Change). All P xs) (text_before d.field c.field)
        (d ∷ insert_change c ds) (c ∷ d ∷ ds) (λ t. (h.0, insert_change-All c ds p h.1))
        (λ t. (p, h))

  pub sort_changes-All : (cs : List Change) → All P cs → All P (sort_changes cs)
  unfolding sort_changes
  sort_changes-All [] h = tt
  sort_changes-All (c ∷ cs) h = insert_change-All c (sort_changes cs) h.0 (sort_changes-All cs h.1)

  pub insert_change-Any :
      (c : Change) (cs : List Change) → Any P (c ∷ cs) → Any P (insert_change c cs)
  unfolding insert_change
  insert_change-Any c [] h = h
  insert_change-Any c (d ∷ ds) h =
      if-cases (λ (xs : List Change). Any P xs) (text_before d.field c.field)
        (d ∷ insert_change c ds) (c ∷ d ∷ ds)
        (λ t. elim h [
          | inl p ↦ inr (insert_change-Any c ds (inl p))
          | inr (inl p) ↦ inl p
          | inr (inr q) ↦ inr (insert_change-Any c ds (inr q))
        ])
        (λ t. h)

  pub sort_changes-Any : (cs : List Change) → Any P cs → Any P (sort_changes cs)
  unfolding sort_changes
  sort_changes-Any [] h = h
  sort_changes-Any (c ∷ cs) (inl p) = insert_change-Any c (sort_changes cs) (inl p)
  sort_changes-Any (c ∷ cs) (inr q) =
      insert_change-Any c (sort_changes cs) (inr (sort_changes-Any cs q))

module _ (desired : Object) where
  abbrev pub Wanted : Change → Type 0
  Wanted c = lookup c.field desired ≡ some c.new

  -- A field that a change is about has the desired value in the payload.
  pub lookup-payload_of_some :
      (field : String) (cs : List Change)
      → All Wanted cs
      → Any (IsOf field) cs
      → lookup field (payload_of cs) ≡ lookup field desired
  unfolding payload_of
  lookup-payload_of_some field [] h a = absurd a
  lookup-payload_of_some field (c ∷ cs) h (inl e) =
      rw (sym e) (lookup-put_same c.field c.new (payload_of cs) ∙ sym h.0)
  lookup-payload_of_some field (c ∷ cs) h (inr q) = elim (Bool-cases (str_eq c.field field)) [
    | inl t ↦
        rw (sym ((eq_iff c.field field).0 t))
          (lookup-put_same c.field c.new (payload_of cs) ∙ sym h.0)
    | inr t ↦
        lookup-put_other field c.field c.new (payload_of cs) t
        ∙ lookup-payload_of_some field cs h.1 q
  ]

  pub lookup-payload_of :
      (field : String) (cs : List Change)
      → All Wanted cs
      → (lookup field (payload_of cs) ≡ none)
        ⊎ (lookup field (payload_of cs) ≡ lookup field desired)
  unfolding payload_of lookup
  lookup-payload_of field [] h = inl refl
  lookup-payload_of field (c ∷ cs) h = elim (Bool-cases (str_eq c.field field)) [
    | inl t ↦ inr (lookup-payload_of_some field (c ∷ cs) h (inl ((eq_iff c.field field).0 t)))
    | inr t ↦
        rw (lookup-put_other field c.field c.new (payload_of cs) t) (lookup-payload_of field cs h.1)
  ]
