-- ===== src/Children.antt =====
-- internal/reconciler/children.go: the pass over the objects that a parent declares inline. Message
-- texts, logging and the notes of Events are left out.
pub mod Names
pub mod Labels
pub mod Inputs
pub mod State
pub mod Desire
pub mod Apply
pub mod Prune
pub mod Own
pub mod Calls
pub mod Pruning
pub mod Safe
pub mod Ready
pub mod Done
pub mod Listed
pub mod Settled
pub mod Apart
pub mod Sweep
pub mod Converged
pub mod Forgotten
mod Tests
use Prim.Native.String.{◌++◌ as str_append}
use netbox_operator.Common.{
  ℕ, ◌+◌, String, Bool, true, false, not, ◌&&◌, Option, none, some, List, [], ◌∷◌, ◌++◌, ltb, ◌==◌,
  str_eq, contains, any, lookup, put, length, if◌then◌else◌,
}
use netbox_operator.Registry.{Gvk, gvk_eq}
use netbox_operator.Children.Names.{
  ChildSegment, ChildSets, no_sets, child_set, ChildEntries, no_entries, child_entry, Bytes,
  child_path, child_name, bytes_eq,
}
use netbox_operator.Children.Inputs.{
  Shape, an_object, a_claim, neither, Desired, Manifest, Controller, Live, ChildRead, absent,
  unreadable, present, ApplyAnswer, applied, conflicting, apply_failed, DeleteAnswer, deleted,
  not_there, delete_failed, ChildWriter, GitOps, PassResult, dry_run, reported, other_result,
  ChildStatus, Parent, ChildEngine, ChildCall, apply_object, force_object, delete_object, event,
  ChildPass,
}
use netbox_operator.Children.State.{
  owner_uid_label, owned_by_path, child_retry, prune_margin, DesiredChild, Materialisation,
  nothing_yet, fail, call, pend, text_at, ours, child_ready, overlay, inherited, collision,
  Occupant, free, own_child, foreign, unread, paths, kinds, kinds_before,
}
use netbox_operator.Children.Desire.{desire, decorated}
use netbox_operator.Children.Apply.{apply_children}
use netbox_operator.Children.Prune.{prune}

module _ (go : Bytes) (e : ChildEngine) (p : Parent) where
  abbrev pub is_empty : List String → Bool
  is_empty [] = true
  is_empty (text ∷ texts) = false

  unfoldable pub verdict : Materialisation → String
  verdict m =
      if not (is_empty m.conflicts)
      then "Conflict"
      else if m.blocked
      then "PruneBlocked"
      else if not (is_empty m.failures)
      then "APIError"
      else if not (is_empty m.pending)
      then "PendingChildren"
      else "AllReady"

  abbrev pub withdraw : String → Option String
  withdraw reason = if p.ready then some reason else none

  unfoldable pub report : Materialisation → ChildPass
  report m =
      let reason = verdict m in
      if str_eq reason "AllReady"
      then record {
        calls = m.calls;
        children = some (e.sorted m.children);
        condition = some (true, reason);
        withdrawn = none;
        wait = 0;
      }
      else record {
        calls = m.calls;
        children = some (e.sorted m.children);
        condition = some (false, reason);
        withdrawn = withdraw reason;
        wait = child_retry;
      }

  abbrev pub left_alone : Option (Bool × String) → ℕ → ChildPass
  left_alone condition wait = record {
    calls = [];
    children = none;
    condition = condition;
    withdrawn = none;
    wait = wait;
  }

  abbrev pub suppresses : PassResult → Bool
  suppresses dry_run = true
  suppresses reported = true
  suppresses other_result = false

  -- From the collection of the children on.
  unfoldable pub collected : ChildWriter → Materialisation → ChildPass
  collected w m =
      if collision [] m.want
      then left_alone (some (false, "Conflict")) child_retry
      else report (prune e p w m.want (apply_children go e p w m.want m))

  unfoldable pub unless_unwired : Option ChildWriter → ChildSets Desired → ChildPass
  unless_unwired none sets = left_alone (some (false, "APIError")) child_retry
  unless_unwired (some w) sets = collected w (desire go e p sets [] nothing_yet)

  unfoldable pub unless_skipped : ChildSets Desired → ChildPass
  unless_skipped sets =
      if p.deleting
      then left_alone none 0
      else if suppresses p.result
      then left_alone (some (false, if p.reports then "ReportPending" else "DryRunPending")) 0
      else if p.id == 0
      then left_alone (some (false, "PendingChildren")) 0
      else unless_unwired e.children sets

  abbrev pub declared : Option (ChildSets Desired) → ChildPass
  declared none = left_alone none 0
  declared (some sets) = unless_skipped sets

  unfoldable pub materialise : ChildPass
  materialise = declared p.inline
