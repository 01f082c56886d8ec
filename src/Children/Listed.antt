-- ===== src/Children/Listed.antt =====
-- internal/reconciler/children.go: when no child is left that is no longer declared.
use netbox_operator.Common.{
  ℕ, ◌+◌, ◌≡◌, ◌≢◌, ◌↔◌, refl, ap, Bool, true, false, Option, none, some, List, [], ◌∷◌, arith, ltb,
  length, All, if-cases, if◌then◌else◌,
}
use netbox_operator.Registry.{Gvk}
use netbox_operator.Children.Inputs.{
  Live, DeleteAnswer, deleted, not_there, delete_failed, delete_object, ChildWriter, Parent,
  ChildEngine,
}
use netbox_operator.Children.State.{DesiredChild, Materialisation, call, paths}
use netbox_operator.Children.Prune.{
  candidate_kinds, stale, list_failures, list_answered, delete_answered, delete_child,
  delete_children, prune_within, prune,
}
use netbox_operator.Children.Ready.{Clean, not-empty}

pub if-else {ℓ κ} :
    {A : Type ℓ} (P : A → Type κ) (b : Bool) (x y : A) → b ≡ false → P y → P (if b then x else y)
if-else P true x y h p = cc
if-else P false x y h p = p

if-then {ℓ κ} :
    {A : Type ℓ} (P : A → Type κ) (b : Bool) (x y : A) → b ≡ true → P x → P (if b then x else y)
if-then P true x y h p = p
if-then P false x y h p = cc

module _ (e : ChildEngine) (p : Parent) (w : ChildWriter) where
  -- The list of a kind is answered.
  abbrev pub IsListed : Gvk → Type 0
  IsListed gvk = w.list gvk ≢ none

  list_answered_iff :
      (gvk : Gvk) (answer : Option (List Live)) (m : Materialisation)
      → Clean (list_answered e p w gvk answer m) ↔ (Clean m × (answer ≢ none))
  list_answered_iff gvk none m =
      (λ h. absurd (not-empty m.failures gvk.kind h.2), λ (c, s). absurd (s refl))
  list_answered_iff gvk (some items) m = (λ h. (h, λ s. cc), λ h. h.0)

  list_failures_iff :
      (gvks : List Gvk) (m : Materialisation)
      → Clean (list_failures e p w gvks m) ↔ (Clean m × All IsListed gvks)
  unfolding list_failures
  list_failures_iff [] m = (λ h. (h, tt), λ h. h.0)
  list_failures_iff (gvk ∷ gvks) m =
      let first = list_answered_iff gvk (w.list gvk) m in
      let rest = list_failures_iff gvks (list_answered e p w gvk (w.list gvk) m) in
      (
        λ h. let (c, r) = rest.0 h in let (d, q) = first.0 c in (d, (q, r)),
        λ (c, (q, r)). rest.1 (first.1 (c, q), r),
      )

  delete_answered-unclean :
      (live : Live) (answer : DeleteAnswer) (m : Materialisation)
      → ¬ Clean (delete_answered e p w live answer m)
  delete_answered-unclean live deleted m h = not-empty m.pending live.kind h.3
  delete_answered-unclean live not_there m h = not-empty m.pending live.kind h.3
  delete_answered-unclean live delete_failed m h = not-empty m.failures live.kind h.2

  delete_child-unclean : (live : Live) (m : Materialisation) → ¬ Clean (delete_child e p w live m)
  unfolding delete_child
  delete_child-unclean live m =
      if-cases (λ n. ¬ Clean n) live.deleting _ _ (λ t h. not-empty m.pending live.kind h.3)
        (λ f. delete_answered-unclean live (w.delete live) (call (delete_object live) m))

  delete_children_iff :
      (items : List Live) (m : Materialisation)
      → Clean (delete_children e p w items m) ↔ (Clean m × (items ≡ []))
  unfolding delete_children
  delete_children_iff [] m = (λ h. (h, refl), λ h. h.0)
  delete_children_iff (live ∷ items) m =
      let rest = delete_children_iff items (delete_child e p w live m) in
      (λ h. absurd (delete_child-unclean live m (rest.0 h).0), λ (c, s). cc)

  prune_within_iff :
      (n : ℕ) (items : List Live) (m : Materialisation)
      → Clean (prune_within e p w n items m) ↔ (Clean m × (items ≡ []))
  unfolding prune_within
  prune_within_iff n items m =
      if-cases (λ x. Clean x ↔ (Clean m × (items ≡ []))) (ltb (n + 8) (length items)) _ _
        (λ t. (
          λ h. let b = h.1 in cc,
          λ (c, s). let empty : length items ≡ 0 = ap length s in absurd ground (arith, t, empty),
        ))
        (λ f. delete_children_iff items m)

  pub prune_iff :
      (want : List DesiredChild) (m : Materialisation)
      → Clean (prune e p w want m) ↔ (
          Clean m
          × All IsListed (candidate_kinds e p w want)
          × (stale e p w (paths want) (candidate_kinds e p w want) ≡ []))
  unfolding prune
  prune_iff want m =
      let gvks : List Gvk = candidate_kinds e p w want in
      let lists = list_failures_iff gvks m in
      let deletions =
        prune_within_iff (length want) (stale e p w (paths want) gvks)
          (list_failures e p w gvks m) in
      (
        λ h. let (c, s) = deletions.0 h in let (d, l) = lists.0 c in (d, l, s),
        λ (c, l, s). deletions.1 (lists.1 (c, l), s),
      )
