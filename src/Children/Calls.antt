-- ===== src/Children/Calls.antt =====
-- internal/reconciler/children.go: what a pass over inline children sends to Kubernetes, and when.
use netbox_operator.Common.{
  ℕ, suc, ◌+◌, ◌≤◌, ◌≡◌, ◌≢◌, refl, inl, inr, ◌⊎◌, Bool, true, false, Option, none, some, List, [],
  ◌∷◌, ◌++◌, arith, All, Any, All-append, Bool-cases,
}
use netbox_operator.Children.Names.{Bytes}
use netbox_operator.Children.Inputs.{
  Manifest, Live, absent, unreadable, present, ChildRead, ApplyAnswer, applied, conflicting,
  apply_failed, ChildWriter, Parent, ChildEngine, ChildCall, apply_object, force_object,
  delete_object, event,
}
use netbox_operator.Children.State.{
  owner_uid_label, owned_by_path, DesiredChild, Materialisation, call, text_at, ours, child_ready,
  paths, Occupant, free, own_child, foreign, unread,
}
use netbox_operator.Children.Desire.{decorated}
use netbox_operator.Children.Apply.{
  occupied, occupant, written, reapplied, first_applied, write, unless_taken, apply_child,
  apply_children,
}
use netbox_operator.Children.Prune.{candidate_kinds, listed}
use netbox_operator.Children.Own.{IsOwned, ours-IsOwned, decorated-label, decorated-path}

-- How many objects the calls of a pass delete.
abbrev pub deletes : List ChildCall → ℕ
deletes [] = 0
deletes (delete_object live ∷ calls) = suc (deletes calls)
deletes (apply_object manifest ∷ calls) = deletes calls
deletes (force_object manifest ∷ calls) = deletes calls
deletes (event reason path ∷ calls) = deletes calls

pub deletes-append : (xs ys : List ChildCall) → deletes (xs ++ ys) ≡ deletes xs + deletes ys
deletes-append [] ys = omega arith
deletes-append (delete_object live ∷ xs) ys = omega (arith, deletes-append xs ys)
deletes-append (apply_object manifest ∷ xs) ys = deletes-append xs ys
deletes-append (force_object manifest ∷ xs) ys = deletes-append xs ys
deletes-append (event reason path ∷ xs) ys = deletes-append xs ys

module _ (go : Bytes) (e : ChildEngine) (p : Parent) (w : ChildWriter)
    (want : List DesiredChild) where
  -- The object that is written for a child that is asked for: labelled with the parent and with
  -- the path of the child, over nothing or over an object of the parent.
  pub record IsWritten (manifest : Manifest) (child : DesiredChild) : Type 0 where
    pub made : e.own (decorated go e p child) ≡ some manifest
    pub labelled : text_at owner_uid_label (decorated go e p child).labels ≡ p.uid
    pub located : text_at owned_by_path (decorated go e p child).annotations ≡ child.path
    pub vacant :
        (w.get child.gvk child.name ≡ absent)
        ⊎ ((live : Live) × (w.get child.gvk child.name ≡ present live) × IsOwned p.uid live)

  -- An object of the parent that is deleted: listed, of a path, and of none that is asked for.
  pub record IsPruned (live : Live) : Type 0 where
    pub found :
        Any
          (λ gvk. Any (λ other. other ≡ live) (listed e p w (w.list gvk)))
          (candidate_kinds e p w want)
    pub owned : IsOwned p.uid live
    pub generated : text_at owned_by_path live.annotations ≢ ""
    pub gone : ¬ Any (λ path. path ≡ text_at owned_by_path live.annotations) (paths want)
    pub alive : live.deleting ≡ false

  abbrev pub IsDue : ChildCall → Type 0
  IsDue (apply_object manifest) =
      (child : DesiredChild) × Any (λ c. c ≡ child) want × IsWritten manifest child
  IsDue (force_object manifest) =
      (child : DesiredChild) × Any (λ c. c ≡ child) want
      × IsWritten manifest child
      × (w.apply manifest false ≡ conflicting)
  IsDue (delete_object live) = IsPruned live
  IsDue (event reason path) = Unit

  -- The calls are due, and at most `n` of them delete.
  abbrev pub Within : ℕ → Materialisation → Type 0
  Within n m = All IsDue m.calls × (deletes m.calls ≤ n)

  pub quiet-Within :
      (n : ℕ) (c : ChildCall) (m : Materialisation)
      → IsDue c
      → deletes (c ∷ []) ≡ 0
      → Within n m
      → Within n (call c m)
  quiet-Within n c m due quiet h = (
    All-append IsDue m.calls (c ∷ []) h.0 (due, tt),
    omega (arith, h.1, deletes-append m.calls (c ∷ []), quiet),
  )

  pub occupied-vacant :
      (r : ChildRead)
      → (occupied go e p w r ≡ free) ⊎ (occupied go e p w r ≡ own_child)
      → (r ≡ absent) ⊎ ((live : Live) × (r ≡ present live) × IsOwned p.uid live)
  occupied-vacant absent h = inl refl
  occupied-vacant unreadable (inl h) = cc
  occupied-vacant unreadable (inr h) = cc
  occupied-vacant (present live) h = elim (Bool-cases (ours live p.uid)) [
    | inl t ↦ inr (live, refl, ours-IsOwned live p.uid t)
    | inr f ↦ absurd ground (arith, h, f)
  ]

  module _ (child : DesiredChild) (asked : Any (λ c. c ≡ child) want) where
    written-Within :
        (exists : Bool) (ready : Bool) (n : ℕ) (m : Materialisation)
        → Within n m
        → Within n (written go e p w exists child ready m)
    written-Within true true n m h = h
    written-Within true false n m h = h
    written-Within false true n m h =
        quiet-Within n (event "ChildMaterialised" child.path) m tt refl h
    written-Within false false n m h =
        quiet-Within n (event "ChildMaterialised" child.path) m tt refl h

    reapplied-Within :
        (exists : Bool) (answer : ApplyAnswer) (n : ℕ) (m : Materialisation)
        → Within n m
        → Within n (reapplied go e p w exists child answer m)
    unfolding reapplied
    reapplied-Within exists (applied ready) n m h =
        written-Within exists (child_ready child.obj.shape ready) n m h
    reapplied-Within exists conflicting n m h = h
    reapplied-Within exists apply_failed n m h = h

    first_applied-Within :
        (exists : Bool) (manifest : Manifest) (n : ℕ) (m : Materialisation)
        → IsWritten manifest child
        → (answer : ApplyAnswer) → (w.apply manifest false ≡ answer)
        → Within n m
        → Within n (first_applied go e p w exists child manifest answer m)
    unfolding first_applied
    first_applied-Within exists manifest n m ok (applied ready) same h =
        written-Within exists (child_ready child.obj.shape ready) n m h
    first_applied-Within exists manifest n m ok conflicting same h =
        reapplied-Within exists (w.apply manifest true) n _ (
          quiet-Within n (force_object manifest) (call (event "ChildFieldReverted" child.path) m)
            (child, asked, ok, same) refl
            (quiet-Within n (event "ChildFieldReverted" child.path) m tt refl h))
    first_applied-Within exists manifest n m ok apply_failed same h = h

    write-Within :
        (exists : Bool) (made : Option Manifest) (n : ℕ) (m : Materialisation)
        → e.own (decorated go e p child) ≡ made
        → (occupant go e p w child ≡ free) ⊎ (occupant go e p w child ≡ own_child)
        → Within n m
        → Within n (write go e p w exists child made m)
    unfolding write occupant
    write-Within exists none n m same vacant h = h
    write-Within exists (some manifest) n m same vacant h =
        let ok : IsWritten manifest child = record {
          made = same;
          labelled = decorated-label go e p child;
          located = decorated-path go e p child;
          vacant = occupied-vacant (w.get child.gvk child.name) vacant;
        } in
        first_applied-Within exists manifest n _ ok (w.apply manifest false) refl
          (quiet-Within n (apply_object manifest) m (child, asked, ok) refl h)

    unless_taken-Within :
        (occupant_now : Occupant) (n : ℕ) (m : Materialisation)
        → occupant go e p w child ≡ occupant_now
        → Within n m
        → Within n (unless_taken go e p w child occupant_now m)
    unfolding unless_taken
    unless_taken-Within unread n m same h = h
    unless_taken-Within foreign n m same h = h
    unless_taken-Within free n m same h = write-Within false _ n m refl (inl same) h
    unless_taken-Within own_child n m same h = write-Within true _ n m refl (inr same) h

  pub apply_children-Within :
      (children : List DesiredChild) (n : ℕ) (m : Materialisation)
      → All (λ child. Any (λ c. c ≡ child) want) children
      → Within n m
      → Within n (apply_children go e p w children m)
  unfolding apply_children
  apply_children-Within [] n m asked h = h
  apply_children-Within (child ∷ children) n m asked h =
      apply_children-Within children n (apply_child go e p w child m) asked.1
        (unless_taken-Within child asked.0 (occupant go e p w child) n m refl h)
