-- ===== src/Provenance/Own.antt =====
-- The stamp that the operator writes for an object is no conflict for that object.
use text.Mathlib.TextLemmas.{append-eq-nil_iff}
use netbox_operator.Common.{
  lookup, lookup-put_same, lookup-put_other, ◌≡◌, ◌≢◌, ◌⊎◌, ◌∙◌, inl, inr, refl, String, true,
  false, none, some, arith, Bool-cases, str_eq, eq_iff, contains,
}
use netbox_operator.Provenance.{
  Stamp, stamp_applicable, enabled, Owner, CustomFields, left_out, owner_ref, stamp_value, conflict,
  stamp_entries, written, custom_fields, merge_custom_fields,
}
use netbox_operator.Provenance.Claimant.{lookup-written, lookup-merge_custom_fields, conflict_iff}

pub left_out-false :
    (s : Stamp) (name value : String)
    → name ≢ ""
    → value ≢ ""
    → contains s.fields name ≡ true
    → left_out s name value ≡ false
unfolding left_out
left_out-false s name value hn hv hc = ground (arith, eq_iff name "", eq_iff value "")

module _ (to_lower trim : String → String) where
  pub owner_ref-nonempty : (o : Owner) → owner_ref to_lower trim o ≢ ""
  unfolding owner_ref
  owner_ref-nonempty o h = absurd (cc (append-eq-nil_iff.0 (append-eq-nil_iff.0 h).1).0)

  abbrev pub own : Stamp → CustomFields → Owner → CustomFields
  own s declared o = merge_custom_fields declared (custom_fields to_lower trim s o)

  pub stamp_value-own :
      (s : Stamp) (declared : CustomFields) (o : Owner) (name value : String)
      → value ≢ ""
      → contains s.fields name ≡ true
      → lookup name (stamp_entries to_lower trim s o) ≡ some value
      → trim value ≡ value
      → (stamp_value to_lower trim (own s declared o) name ≡ "")
        ⊎ (stamp_value to_lower trim (own s declared o) name ≡ value)
  unfolding stamp_value custom_fields
  stamp_value-own s declared o name value hv hc found trimmed = elim (Bool-cases (str_eq name "")) [
    | inl t ↦ rw t (inl refl)
    | inr t ↦
        let named : name ≢ "" = λ h. cc ((eq_iff name "").1 h, t) in
        let entries = stamp_entries to_lower trim s o in
        let kept =
          lookup-written s name value entries (left_out-false s name value named hv hc) found in
        let live = lookup-merge_custom_fields declared name value (written s entries) kept in
        rw (t, live) (inr trimmed)
  ]

  -- What the operator writes on an object for a custom resource is no conflict for that resource, a
  -- new uid of it included; for two different fields of cluster and owner that exist in NetBox, over
  -- any declared fields, if neither text begins or ends with blanks.
  pub conflict-own :
      (s : Stamp) (declared : CustomFields) (o : Owner) (uid : String)
      → s.owner_field ≢ s.cluster_field
      → contains s.fields s.cluster_field ≡ true
      → contains s.fields s.owner_field ≡ true
      → trim s.cluster_id ≡ s.cluster_id
      → trim (owner_ref to_lower trim o) ≡ owner_ref to_lower trim o
      → conflict to_lower trim s (own s declared o) (record o { uid = uid }) ≡ none
  unfolding stamp_entries owner_ref stamp_applicable enabled
  conflict-own s declared o uid apart hc ho tc to =
      (conflict_iff to_lower trim s (own s declared o) (record o { uid = uid })).1
        (elim (Bool-cases (str_eq s.cluster_id "")) [
          | inl t ↦ inl (ground arith)
          | inr t ↦ inr (
            stamp_value-own s declared o s.cluster_field s.cluster_id
                (λ h. cc ((eq_iff s.cluster_id "").1 h, t)) hc
                (lookup-put_other s.cluster_field s.owner_field (owner_ref to_lower trim o) _
                    (ground (arith, eq_iff s.owner_field s.cluster_field))
                  ∙ lookup-put_same s.cluster_field s.cluster_id _)
                tc,
            stamp_value-own s declared o s.owner_field (owner_ref to_lower trim o)
                (owner_ref-nonempty o) ho
                (lookup-put_same s.owner_field (owner_ref to_lower trim o) _) to,
          )
        ])
