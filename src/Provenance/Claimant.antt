-- ===== src/Provenance/Claimant.antt =====
-- Which stamps are conflicts: those of another cluster or owner, and never the operator's own.
use netbox_operator.Common.{
  ◌≡◌, ◌≢◌, ◌⊎◌, ◌↔◌, ◌∙◌, ap, sym, inl, inr, String, true, false, none, some, List, [], ◌∷◌, arith,
  lookup, lookup-hit, lookup-miss, lookup-put_same, lookup-put_other, Bool-cases, str_eq, eq_iff,
  if-cases,
}
use netbox_operator.Provenance.{
  Stamp, stamp_applicable, enabled, Owner, CustomFields, stamped, owner_ref, stamp_value,
  read_claim, claim_conflict, conflict, left_out, written, merge_custom_fields,
}

pub stamp_applicable_iff :
    (s : Stamp) → (stamp_applicable s ≡ true) ↔ ((s.cluster_id ≢ "") × (s.tag_id ≢ 0))
unfolding stamp_applicable enabled
stamp_applicable_iff s = ground (arith, eq_iff s.cluster_id "")

lookup-empty : (key value : String) → lookup key [] ≡ some value → ⊥
unfolding lookup
lookup-empty key value h = cc h

-- A value of the stamp that is not left out is written.
pub lookup-written :
    (s : Stamp) (name value : String) (entries : List (String × String))
    → left_out s name value ≡ false
    → lookup name entries ≡ some value
    → lookup name (written s entries) ≡ some value
unfolding written
lookup-written s name value [] kept h = h
lookup-written s name value ((k, v) ∷ entries) kept h = elim (Bool-cases (str_eq k name)) [
  | inl t ↦
      let same : k ≡ name = (eq_iff k name).0 t in
      let equal : some v ≡ some value = sym (lookup-hit name k v entries t) ∙ h in
      let stays : left_out s k v ≡ false =
        let v_eq : v ≡ value = cc equal in cc (same, v_eq, kept) in
      rw stays (lookup-hit name k v (written s entries) t ∙ equal)
  | inr t ↦
      let rest =
        lookup-written s name value entries kept (sym (lookup-miss name k v entries t) ∙ h) in
      if-cases (λ m. lookup name m ≡ some value) (left_out s k v) _ _ (λ dropped. rest)
        (λ stays. lookup-miss name k v (written s entries) t ∙ rest)
]

pub lookup-merge_custom_fields :
    (declared : CustomFields) (name value : String) (fields : List (String × String))
    → lookup name fields ≡ some value
    → lookup name (merge_custom_fields declared fields) ≡ some (some value)
unfolding merge_custom_fields
lookup-merge_custom_fields declared name value [] h = absurd (lookup-empty name value h)
lookup-merge_custom_fields declared name value ((k, v) ∷ fields) h =
    let merged = merge_custom_fields declared fields in
    elim (Bool-cases (str_eq k name)) [
      | inl t ↦
          let same : k ≡ name = (eq_iff k name).0 t in
          let equal : some v ≡ some value = sym (lookup-hit name k v fields t) ∙ h in
          rw same (lookup-put_same name (some v) merged ∙ ap some equal)
      | inr t ↦
          lookup-put_other name k (some v) merged t
          ∙ lookup-merge_custom_fields declared name value fields
              (sym (lookup-miss name k v fields t) ∙ h)
    ]

module _ (to_lower trim : String → String) where
  -- A live object is not in conflict exactly if the stamp cannot be written, or the object names no
  -- cluster other than the stamp's and no owner other than the one at hand.
  pub conflict_iff :
      (s : Stamp) (live : CustomFields) (mine : Owner)
      → (conflict to_lower trim s live mine ≡ none) ↔ (
          (stamp_applicable s ≡ false)
          ⊎ (((stamp_value to_lower trim live s.cluster_field ≡ "")
                ⊎ (stamp_value to_lower trim live s.cluster_field ≡ s.cluster_id))
              × ((stamp_value to_lower trim live s.owner_field ≡ "")
                  ⊎ (stamp_value to_lower trim live s.owner_field ≡ owner_ref to_lower trim mine))))
  unfolding conflict claim_conflict read_claim stamped
  conflict_iff s live mine =
      let cluster = stamp_value to_lower trim live s.cluster_field in
      let owner = stamp_value to_lower trim live s.owner_field in
      ground (
        arith,
        eq_iff cluster "",
        eq_iff cluster s.cluster_id,
        eq_iff owner "",
        eq_iff owner (owner_ref to_lower trim mine),
      )
