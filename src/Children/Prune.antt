-- ===== src/Children/Prune.antt =====
-- internal/reconciler/children.go: how a child that is no longer declared is deleted.
use netbox_operator.Common.{
  ℕ, ◌+◌, String, Bool, true, false, not, Option, none, some, List, [], ◌∷◌, ◌++◌, ltb, str_eq,
  contains, length, if◌then◌else◌,
}
use netbox_operator.Registry.{Gvk}
use package.netbox_operator.Children.Inputs.{
  Live, DeleteAnswer, deleted, not_there, delete_failed, ChildWriter, Parent, ChildEngine,
  delete_object, event,
}
use package.netbox_operator.Children.State.{
  owned_by_path, prune_margin, DesiredChild, Materialisation, fail, call, pend, text_at, ours,
  paths, kinds, kinds_before,
}

module _ (e : ChildEngine) (p : Parent) (w : ChildWriter) where
  abbrev pub candidate_kinds : List DesiredChild → List Gvk
  candidate_kinds want = e.in_order (kinds want ++ kinds_before p.before)

  unfoldable pub prunable : List String → Live → Bool
  prunable declared live =
      let path = text_at owned_by_path live.annotations in
      if str_eq path ""
      then false
      else if not (ours live p.uid)
      then false
      else not (contains declared path)

  unfoldable pub prunable_of : List String → List Live → List Live
  prunable_of declared [] = []
  prunable_of declared (live ∷ items) =
      let rest = prunable_of declared items in if prunable declared live then live ∷ rest else rest

  abbrev pub listed : Option (List Live) → List Live
  listed none = []
  listed (some items) = items

  unfoldable pub stale : List String → List Gvk → List Live
  stale declared [] = []
  stale declared (gvk ∷ gvks) = prunable_of declared (listed (w.list gvk)) ++ stale declared gvks

  abbrev pub list_answered : Gvk → Option (List Live) → Materialisation → Materialisation
  list_answered gvk none m = fail gvk.kind m
  list_answered gvk (some items) m = m

  -- The errors of the lists of `stale`.
  unfoldable pub list_failures : List Gvk → Materialisation → Materialisation
  list_failures [] m = m
  list_failures (gvk ∷ gvks) m = list_failures gvks (list_answered gvk (w.list gvk) m)

  abbrev pub pruned : Live → Materialisation → Materialisation
  pruned live m =
      pend live.kind (call (event "ChildPruned" (text_at owned_by_path live.annotations)) m)

  abbrev pub delete_answered : Live → DeleteAnswer → Materialisation → Materialisation
  delete_answered live deleted m = pruned live m
  delete_answered live not_there m = pruned live m
  delete_answered live delete_failed m = fail live.kind m

  unfoldable pub delete_child : Live → Materialisation → Materialisation
  delete_child live m =
      if live.deleting
      then pend live.kind m
      else delete_answered live (w.delete live) (call (delete_object live) m)

  unfoldable pub delete_children : List Live → Materialisation → Materialisation
  delete_children [] m = m
  delete_children (live ∷ items) m = delete_children items (delete_child live m)

  unfoldable pub prune_within : ℕ → List Live → Materialisation → Materialisation
  prune_within declared items m =
      if ltb (declared + prune_margin) (length items)
      then record m { blocked = true }
      else delete_children items m

  unfoldable pub prune : List DesiredChild → Materialisation → Materialisation
  prune want m =
      let gvks = candidate_kinds want in
      prune_within (length want) (stale (paths want) gvks) (list_failures gvks m)
