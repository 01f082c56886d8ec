-- ===== src/Deletion/Guards.antt =====
-- What the guards of `deleting` ask, in terms of the object: the annotations, the policy, the data
-- that a delete destroys, the children and the provenance stamp.
use netbox_operator.Common.{
  ◌≡◌, ◌≢◌, ◌⊎◌, ◌↔◌, inl, inr, refl, String, true, false, Option, none, some, List, [], ◌∷◌, arith,
  All, Any, Bool-cases, str_eq, eq_iff, contains, contains_iff,
}
use netbox_operator.Deletion.{
  may_be_stamped, stamp_identifies, skips, retains, data_loss_blocked, pending_dependents,
  pending_of, alive_of,
}
use netbox_operator.Provenance.{stamp_applicable}
use netbox_operator.Provenance.Claimant.{stamp_applicable_iff}
use netbox_operator.Deletion.Setting.{
  Obj, ChildRef, ChildRead, child_gone, Children, Endpoint, World, annotation,
}
use netbox_operator.Deletion.Backoff.{deletion_hold}

abbrev pub Annotated : Obj → String → Type 0
Annotated obj key = annotation obj key ≡ "true"

abbrev pub DataLossAllowed : World → Obj → Type 0
DataLossAllowed world obj =
    (world.desc.data_loss_on_delete ≡ false) ⊎ Annotated obj "netbox.kubeforge.org/allow-data-loss"

-- Without a ChildWriter no child is asked for.
abbrev pub ChildrenGone : Option Children → List ChildRef → Type 0
ChildrenGone none children = Unit
ChildrenGone (some writer) children = All (λ child. writer.get child ≡ child_gone) children

-- The kind has custom fields and the object a uid to look for.
abbrev pub Stampable : World → Obj → Type 0
Stampable world obj = (world.desc.custom_fieldable ≡ true) × (obj.uid ≢ "")

-- The endpoint stamps the uid on the objects of the kind.
abbrev pub Identified : World → Endpoint → Obj → Type 0
Identified world e obj =
    (e.provenance.cluster_id ≢ "")
    × (e.provenance.tag_id ≢ 0)
    × (e.provenance.uid_field ≢ "")
    × Any (λ field. field ≡ e.provenance.uid_field) e.provenance.fields
    × Stampable world obj

-- No guard of `deleting` keeps the pass from the endpoint.
pub record Entitled (world : World) (obj : Obj) (e : Endpoint) : Type 0 where
  pub not_skipped : ¬ Annotated obj "netbox.kubeforge.org/skip-finalizer"
  pub not_retained : obj.deletion_policy ≢ "Retain"
  pub data_loss_allowed : DataLossAllowed world obj
  pub no_dependents : ChildrenGone world.children obj.children
  pub ready : world.endpoints obj.namespace obj.endpoint_ref ≡ some e
  pub due : deletion_hold obj.deletion_attempts obj.last_deletion_attempt world.now ≡ none

-- The finalizer comes off without a request to NetBox.
abbrev pub Unasked : World → Obj → Type 0
Unasked world obj =
    Annotated obj "netbox.kubeforge.org/skip-finalizer"
    ⊎ (obj.deletion_policy ≡ "Retain")
    ⊎ ((obj.id ≡ 0)
        × (¬ Stampable world obj
            ⊎ (world.endpoints obj.namespace obj.endpoint_ref ≡ none)
            ⊎ ((e : Endpoint) × (world.endpoints obj.namespace obj.endpoint_ref ≡ some e)
                × ¬ Identified world e obj)))

pub skips_iff :
    (obj : Obj) → (skips obj ≡ true) ↔ Annotated obj "netbox.kubeforge.org/skip-finalizer"
unfolding skips
skips_iff obj = eq_iff (annotation obj "netbox.kubeforge.org/skip-finalizer") "true"

pub retains_iff : (obj : Obj) → (retains obj ≡ true) ↔ (obj.deletion_policy ≡ "Retain")
unfolding retains
retains_iff obj = elim (Bool-cases (str_eq obj.deletion_policy "")) [
  | inl t ↦
      let unset : obj.deletion_policy ≡ "" = (eq_iff obj.deletion_policy "").0 t in
      rw t ((λ h. absurd (cc h), λ h. absurd (cc (unset, h))))
  | inr t ↦ rw t (eq_iff obj.deletion_policy "Retain")
]

pub data_loss_blocked-allowed :
    (world : World) (obj : Obj) → data_loss_blocked world obj ≡ false → DataLossAllowed world obj
unfolding data_loss_blocked
data_loss_blocked-allowed world obj h =
    ground (arith, eq_iff (annotation obj "netbox.kubeforge.org/allow-data-loss") "true")

pub alive_of-gone :
    (get : ChildRef → ChildRead) (children : List ChildRef)
    → alive_of get children ≡ []
    → All (λ child. get child ≡ child_gone) children
unfolding alive_of
alive_of-gone get [] h = tt
alive_of-gone get (child ∷ children) h = ground (arith, alive_of-gone get children)

pub pending_of-gone :
    (writer : Option Children) (children : List ChildRef)
    → pending_of writer children ≡ []
    → ChildrenGone writer children
pending_of-gone none children h = tt
pending_of-gone (some writer) children h = alive_of-gone writer.get children h

pub pending_dependents-gone :
    (world : World) (obj : Obj)
    → pending_dependents world obj ≡ []
    → ChildrenGone world.children obj.children
unfolding pending_dependents
pending_dependents-gone world obj h = pending_of-gone world.children obj.children h

pub may_be_stamped_iff :
    (world : World) (obj : Obj) → (may_be_stamped world obj ≡ true) ↔ Stampable world obj
unfolding may_be_stamped
may_be_stamped_iff world obj = ground (arith, eq_iff obj.uid "")

pub stamp_identifies_iff :
    (world : World) (e : Endpoint) (obj : Obj)
    → (stamp_identifies world e obj ≡ true) ↔ Identified world e obj
unfolding stamp_identifies
stamp_identifies_iff world e obj =
    let stamp = e.provenance in
    let applicable = stamp_applicable_iff stamp in
    let exists = contains_iff stamp.fields stamp.uid_field in
    let may = may_be_stamped_iff world obj in
    let unset = eq_iff stamp.uid_field "" in
    (
      λ t.
          let a : stamp_applicable stamp ≡ true = ground arith in
          let n : str_eq stamp.uid_field "" ≡ false = ground arith in
          let c : contains stamp.fields stamp.uid_field ≡ true = ground arith in
          let m : may_be_stamped world obj ≡ true = ground arith in
          ((applicable.0 a).0, (applicable.0 a).1, λ h. cc (unset.1 h, n), exists.0 c, may.0 m),
      λ (cluster, tag, field, known, stampable).
          let a : stamp_applicable stamp ≡ true = applicable.1 (cluster, tag) in
          let n : str_eq stamp.uid_field "" ≡ false = ground (arith, field, unset) in
          let c : contains stamp.fields stamp.uid_field ≡ true = exists.1 known in
          let m : may_be_stamped world obj ≡ true = may.1 stampable in rw (a, n, c, m) refl,
    )
