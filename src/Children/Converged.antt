-- ===== src/Children/Converged.antt =====
-- internal/reconciler/children.go: what it takes for a parent to report its children as ready, in
-- terms of the cluster and of the spec.
use netbox_operator.Common.{◌≡◌, ◌≢◌, ◌↔◌, ◌⊎◌, inl, inr, refl, false, some, List, [], All, All-map}
use netbox_operator.Children.{suppresses, materialise}
use netbox_operator.Children.Names.{ChildSets, Bytes}
use netbox_operator.Children.Inputs.{
  Desired, Manifest, Live, absent, present, ChildWriter, Parent, ChildEngine,
}
use netbox_operator.Children.State.{DesiredChild, free, own_child}
use netbox_operator.Children.Desire.{decorated}
use netbox_operator.Children.Apply.{occupant}
use netbox_operator.Children.Prune.{candidate_kinds}
use netbox_operator.Children.Own.{IsOwned, Distinct, collision-Distinct}
use netbox_operator.Children.Calls.{occupied-vacant}
use netbox_operator.Children.Done.{IsDone, IsApplied}
use netbox_operator.Children.Ready.{AllRecognised}
use netbox_operator.Children.Safe.{wanted}
use netbox_operator.Children.Settled.{SaysReady, IsSettled, IsSettled-iff}
use netbox_operator.Children.Apart.{Distinct-collision, all-nothing, IsOwned-ours}
use netbox_operator.Children.Sweep.{IsOrdering, kind_of, IsSwept, stale_iff, ordered_iff}

module _ (go : Bytes) (e : ChildEngine) (p : Parent) (w : ChildWriter)
    (want : List DesiredChild) where
  -- The child is written, where nothing was or an object of the parent, and ready.
  pub record IsPresent (child : DesiredChild) : Type 0 where
    pub vacant :
        (w.get child.gvk child.name ≡ absent)
        ⊎ ((live : Live) × (w.get child.gvk child.name ≡ present live) × IsOwned p.uid live)
    pub manifest : Manifest
    pub made : e.own (decorated go e p child) ≡ some manifest
    pub settled : IsApplied go e p w child manifest

  vacant_iff :
      (child : DesiredChild)
      → ((occupant go e p w child ≡ free) ⊎ (occupant go e p w child ≡ own_child)) ↔ (
          (w.get child.gvk child.name ≡ absent)
          ⊎ ((live : Live) × (w.get child.gvk child.name ≡ present live) × IsOwned p.uid live))
  unfolding occupant
  vacant_iff child = (
    λ h. occupied-vacant go e p w want (w.get child.gvk child.name) h,
    elim [
      | inl none_there ↦ rw none_there (inl refl)
      | inr (live, found, own) ↦ rw found (rw (IsOwned-ours live p.uid own) (inr refl))
    ],
  )

  IsPresent-iff : (child : DesiredChild) → IsDone go e p w child ↔ IsPresent child
  IsPresent-iff child = (
    λ d. record {
      vacant = (vacant_iff child).0 d.vacant;
      manifest = d.manifest;
      made = d.made;
      settled = d.settled;
    },
    λ d. record {
      vacant = (vacant_iff child).1 d.vacant;
      manifest = d.manifest;
      made = d.made;
      settled = d.settled;
    },
  )

module _ (go : Bytes) (e : ChildEngine) (p : Parent) where
  -- The parent may write, every child is there and ready, and of the kinds that it declares or that
  -- its status named at the start of the pass nothing is left over.
  pub record IsConverged (sets : ChildSets Desired) (w : ChildWriter) : Type 0 where
    pub inline : p.inline ≡ some sets
    pub wired : e.children ≡ some w
    pub not_deleted : p.deleting ≡ false
    pub not_suppressed : suppresses go e p p.result ≡ false
    pub created : p.id ≢ 0
    pub distinct : Distinct (wanted go e p sets)
    pub recognised : AllRecognised go e p sets
    pub there : All (IsPresent go e p w (wanted go e p sets)) (wanted go e p sets)
    pub swept : All (λ child. IsSwept go e p w (wanted go e p sets) child.gvk) (wanted go e p sets)
    pub swept_before : All (λ child. IsSwept go e p w (wanted go e p sets) (kind_of child)) p.before

  IsConverged-iff :
      (sets : ChildSets Desired) (w : ChildWriter)
      → IsOrdering e.in_order
      → IsSettled go e p sets w ↔ IsConverged sets w
  IsConverged-iff sets w ordering =
      let want : List DesiredChild = wanted go e p sets in
      let sweeps = stale_iff go e p w want (candidate_kinds e p w want) in
      let orders = ordered_iff go e p w want ordering in
      (
        λ s.
            let (l, r) = orders.0 (sweeps.0 (s.listed, s.none_stale)) in
            record {
              inline = s.inline;
              wired = s.wired;
              not_deleted = s.not_deleted;
              not_suppressed = s.not_suppressed;
              created = s.created;
              distinct = (collision-Distinct [] want s.apart).0;
              recognised = s.recognised;
              there = All-map _ _ (λ child d. (IsPresent-iff go e p w want child).0 d) want s.done;
              swept = l;
              swept_before = r;
            },
        λ c.
            let (lists, stales) = sweeps.1 (orders.1 (c.swept, c.swept_before)) in
            record {
              inline = c.inline;
              wired = c.wired;
              not_deleted = c.not_deleted;
              not_suppressed = c.not_suppressed;
              created = c.created;
              apart = Distinct-collision [] want c.distinct (all-nothing want);
              recognised = c.recognised;
              done = All-map _ _ (λ child d. (IsPresent-iff go e p w want child).1 d) want c.there;
              listed = lists;
              none_stale = stales;
            },
      )

  -- ChildrenReady is set to true exactly if the kind of the parent declares children, Kubernetes is
  -- wired, the parent is not being deleted, is in NetBox and not in a dry run, no two children share
  -- a kind and a name, the kind of each is known, each is applied where nothing was or over the
  -- parent's own object and comes back ready, and, of each kind that a child has or that the status
  -- named at the start of the pass, the list is answered and shows no object that the parent owns
  -- under a path that it no longer declares; if the order of the kinds keeps them.
  pub materialise_iff :
      IsOrdering e.in_order
      → SaysReady go e p (materialise go e p)
        ↔ ((sets : ChildSets Desired) × (w : ChildWriter) × IsConverged sets w)
  materialise_iff ordering =
      let step = IsSettled-iff go e p in
      (
        λ h. let (sets, w, s) = step.0 h in (sets, w, (IsConverged-iff sets w ordering).0 s),
        λ (sets, w, c). step.1 (sets, w, (IsConverged-iff sets w ordering).1 c),
      )
