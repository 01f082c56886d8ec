-- ===== src/Children/Apply.antt =====
-- internal/reconciler/children.go: how a child is written. Message texts, logging and the notes of
-- Events are left out.
use netbox_operator.Common.{
  Bool, true, false, Option, none, some, List, [], ◌∷◌, ◌++◌, if◌then◌else◌,
}
use package.netbox_operator.Children.Names.{Bytes}
use package.netbox_operator.Children.Inputs.{
  Manifest, ChildRead, absent, unreadable, present, ApplyAnswer, applied, conflicting, apply_failed,
  ChildWriter, Parent, ChildEngine, apply_object, force_object, event,
}
use package.netbox_operator.Children.State.{
  DesiredChild, Materialisation, fail, call, pend, ours, child_ready, Occupant, free, own_child,
  foreign, unread,
}
use package.netbox_operator.Children.Desire.{decorated}

module _ (go : Bytes) (e : ChildEngine) (p : Parent) (w : ChildWriter) where
  abbrev pub occupied : ChildRead → Occupant
  occupied absent = free
  occupied unreadable = unread
  occupied (present live) = if ours live p.uid then own_child else foreign

  unfoldable pub occupant : DesiredChild → Occupant
  occupant child = occupied (w.get child.gvk child.name)

  abbrev pub unless_ready : Bool → DesiredChild → Materialisation → Materialisation
  unless_ready ready child m = if ready then m else pend child.gvk.kind m

  abbrev pub materialised : Bool → DesiredChild → Materialisation → Materialisation
  materialised exists child m = if exists then m else call (event "ChildMaterialised" child.path) m

  abbrev pub written : Bool → DesiredChild → Bool → Materialisation → Materialisation
  written exists child ready m = unless_ready ready child (
      let m = materialised exists child m in
      record m {
        children =
            m.children
            ++ (record {
              path = child.path;
              kind = child.gvk.kind;
              name = child.name;
              ready = ready;
            }
                ∷ []);
      })

  unfoldable pub reapplied : Bool → DesiredChild → ApplyAnswer → Materialisation → Materialisation
  reapplied exists child (applied ready) m =
      written exists child (child_ready child.obj.shape ready) m
  reapplied exists child conflicting m = fail child.path m
  reapplied exists child apply_failed m = fail child.path m

  unfoldable pub first_applied :
      Bool → DesiredChild → Manifest → ApplyAnswer → Materialisation → Materialisation
  first_applied exists child manifest (applied ready) m =
      written exists child (child_ready child.obj.shape ready) m
  first_applied exists child manifest conflicting m =
      reapplied exists child (w.apply manifest true)
        (call (force_object manifest) (call (event "ChildFieldReverted" child.path) m))
  first_applied exists child manifest apply_failed m = fail child.path m

  -- From SetControllerReference on.
  unfoldable pub write : Bool → DesiredChild → Option Manifest → Materialisation → Materialisation
  write exists child none m = fail child.path m
  write exists child (some manifest) m =
      first_applied exists child manifest (w.apply manifest false) (call (apply_object manifest) m)

  unfoldable pub unless_taken : DesiredChild → Occupant → Materialisation → Materialisation
  unless_taken child unread m = fail child.path m
  unless_taken child foreign m = record m { conflicts = m.conflicts ++ (child.path ∷ []) }
  unless_taken child free m = write false child (e.own (decorated go e p child)) m
  unless_taken child own_child m = write true child (e.own (decorated go e p child)) m

  abbrev pub apply_child : DesiredChild → Materialisation → Materialisation
  apply_child child m = unless_taken child (occupant child) m

  unfoldable pub apply_children : List DesiredChild → Materialisation → Materialisation
  apply_children [] m = m
  apply_children (child ∷ want) m = apply_children want (apply_child child m)
