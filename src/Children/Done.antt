-- ===== src/Children/Done.antt =====
-- internal/reconciler/children.go: when a child is there and ready.
use netbox_operator.Common.{
  ◌≡◌, ◌↔◌, refl, inl, inr, ◌⊎◌, Bool, true, false, Option, none, some, List, [], ◌∷◌, arith, All,
}
use netbox_operator.Children.Names.{Bytes}
use netbox_operator.Children.Inputs.{
  Manifest, ApplyAnswer, applied, conflicting, apply_failed, ChildWriter, Parent, ChildEngine,
  apply_object, force_object, event,
}
use netbox_operator.Children.State.{
  DesiredChild, Materialisation, call, child_ready, Occupant, free, own_child, foreign, unread,
}
use netbox_operator.Children.Desire.{decorated}
use netbox_operator.Children.Apply.{
  occupant, written, reapplied, first_applied, write, unless_taken, apply_child, apply_children,
}
use netbox_operator.Children.Ready.{Clean, not-empty}

module _ (go : Bytes) (e : ChildEngine) (p : Parent) (w : ChildWriter) where
  written_iff :
      (exists : Bool) (child : DesiredChild) (ready : Bool) (m : Materialisation)
      → Clean (written go e p w exists child ready m) ↔ (Clean m × (ready ≡ true))
  written_iff true child true m = (λ h. (h, refl), λ h. h.0)
  written_iff false child true m = (λ h. (h, refl), λ h. h.0)
  written_iff true child false m = (λ h. absurd (not-empty m.pending child.gvk.kind h.3), λ h. cc)
  written_iff false child false m = (λ h. absurd (not-empty m.pending child.gvk.kind h.3), λ h. cc)

  -- The object is applied, forced if need be, and comes back ready.
  abbrev pub IsApplied : DesiredChild → Manifest → Type 0
  IsApplied child manifest =
      (ready : Bool) × ((w.apply manifest false ≡ applied ready)
        ⊎ ((w.apply manifest false ≡ conflicting) × (w.apply manifest true ≡ applied ready)))
      × (child_ready child.obj.shape ready ≡ true)

  reapplied_iff :
      (exists : Bool) (child : DesiredChild) (answer : ApplyAnswer) (m : Materialisation)
      → Clean (reapplied go e p w exists child answer m) ↔ (
          Clean m
          × ((ready : Bool) × (answer ≡ applied ready)
              × (child_ready child.obj.shape ready ≡ true)))
  unfolding reapplied
  reapplied_iff exists child (applied ready) m =
      let done = written_iff exists child (child_ready child.obj.shape ready) m in
      (
        λ h. let (c, r) = done.0 h in (c, (ready, refl, r)),
        λ (c, (r, same, t)). let eq : r ≡ ready = cc in done.1 (c, rw eq at t),
      )
  reapplied_iff exists child conflicting m =
      (λ h. absurd (not-empty m.failures child.path h.2), λ h. cc)
  reapplied_iff exists child apply_failed m =
      (λ h. absurd (not-empty m.failures child.path h.2), λ h. cc)

  first_applied_iff :
      (exists : Bool) (child : DesiredChild) (manifest : Manifest) (answer : ApplyAnswer)
      (m : Materialisation)
      → (w.apply manifest false ≡ answer)
      → Clean (first_applied go e p w exists child manifest answer m)
        ↔ (Clean m × IsApplied child manifest)
  unfolding first_applied
  first_applied_iff exists child manifest (applied ready) m same =
      let done = written_iff exists child (child_ready child.obj.shape ready) m in
      (
        λ h. let (c, r) = done.0 h in (c, (ready, inl same, r)),
        λ (c, (r, how, t)). elim how [
          | inl x ↦ let eq : r ≡ ready = cc in done.1 (c, rw eq at t)
          | inr x ↦ let other = x.0 in cc
        ],
      )
  first_applied_iff exists child manifest conflicting m same =
      let again =
        reapplied_iff exists child (w.apply manifest true)
          (call (force_object manifest) (call (event "ChildFieldReverted" child.path) m)) in
      (
        λ h. let (c, (r, s, t)) = again.0 h in (c, (r, inr (same, s), t)),
        λ (c, (r, how, t)). elim how [ inl x ↦ cc | inr x ↦ again.1 (c, (r, x.1, t)) ],
      )
  first_applied_iff exists child manifest apply_failed m same = (
    λ h. absurd (not-empty m.failures child.path h.2),
    λ (c, (r, how, t)). elim how [ inl x ↦ cc | inr x ↦ let other = x.0 in cc ],
  )

  -- The child is written, where nothing was or an object of the parent, and ready.
  pub record IsDone (child : DesiredChild) : Type 0 where
    pub vacant : (occupant go e p w child ≡ free) ⊎ (occupant go e p w child ≡ own_child)
    pub manifest : Manifest
    pub made : e.own (decorated go e p child) ≡ some manifest
    pub settled : IsApplied child manifest

  write_iff :
      (exists : Bool) (child : DesiredChild) (made : Option Manifest) (m : Materialisation)
      → e.own (decorated go e p child) ≡ made
      → Clean (write go e p w exists child made m) ↔ (
          Clean m
          × ((manifest : Manifest) × (e.own (decorated go e p child) ≡ some manifest)
              × IsApplied child manifest))
  unfolding write
  write_iff exists child none m same =
      (λ h. absurd (not-empty m.failures child.path h.2), λ (c, (manifest, made, done)). cc)
  write_iff exists child (some manifest) m same =
      let first =
        first_applied_iff exists child manifest (w.apply manifest false)
          (call (apply_object manifest) m) refl in
      (
        λ h. let (c, done) = first.0 h in (c, (manifest, same, done)),
        λ (c, (other, made, done)). let eq : other ≡ manifest = cc in first.1 (c, rw eq at done),
      )

  unless_taken_iff :
      (child : DesiredChild) (now : Occupant) (m : Materialisation)
      → occupant go e p w child ≡ now
      → Clean (unless_taken go e p w child now m) ↔ (Clean m × IsDone child)
  unfolding unless_taken
  unless_taken_iff child unread m same = (
    λ h. absurd (not-empty m.failures child.path h.2),
    λ (c, d). absurd ground (arith, same, d.vacant),
  )
  unless_taken_iff child foreign m same = (
    λ h. absurd (not-empty m.conflicts child.path h.0),
    λ (c, d). absurd ground (arith, same, d.vacant),
  )
  unless_taken_iff child free m same =
      let step = write_iff false child (e.own (decorated go e p child)) m refl in
      (
        λ h.
            let (c, (manifest, made, done)) = step.0 h in
            (c, record { vacant = inl same; manifest = manifest; made = made; settled = done }),
        λ (c, d). step.1 (c, (d.manifest, d.made, d.settled)),
      )
  unless_taken_iff child own_child m same =
      let step = write_iff true child (e.own (decorated go e p child)) m refl in
      (
        λ h.
            let (c, (manifest, made, done)) = step.0 h in
            (c, record { vacant = inr same; manifest = manifest; made = made; settled = done }),
        λ (c, d). step.1 (c, (d.manifest, d.made, d.settled)),
      )

  pub apply_children_iff :
      (children : List DesiredChild) (m : Materialisation)
      → Clean (apply_children go e p w children m) ↔ (Clean m × All IsDone children)
  unfolding apply_children
  apply_children_iff [] m = (λ h. (h, tt), λ h. h.0)
  apply_children_iff (child ∷ children) m =
      let first = unless_taken_iff child (occupant go e p w child) m refl in
      let rest = apply_children_iff children (apply_child go e p w child m) in
      (
        λ h. let (c, r) = rest.0 h in let (d, q) = first.0 c in (d, (q, r)),
        λ h. let (c, (q, r)) = h in rest.1 (first.1 (c, q), r),
      )
