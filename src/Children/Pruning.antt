-- ===== src/Children/Pruning.antt =====
-- internal/reconciler/children.go: what a pass over inline children deletes.
use netbox_operator.Common.{
  ℕ, suc, ◌+◌, ◌≤◌, ◌≡◌, ◌≢◌, refl, inl, inr, String, true, false, Option, none, some, List, [],
  ◌∷◌, arith, ltb, str_eq, eq_iff, contains, contains_iff, length, All, Any, All-append, All-map,
  if-cases,
}
use netbox_operator.Registry.{Gvk}
use netbox_operator.Children.Names.{Bytes}
use netbox_operator.Children.Inputs.{
  Live, DeleteAnswer, deleted, not_there, delete_failed, ChildWriter, Parent, ChildEngine,
  delete_object, event,
}
use netbox_operator.Children.State.{
  owned_by_path, DesiredChild, Materialisation, call, text_at, ours, paths,
}
use netbox_operator.Children.Apply.{apply_children}
use netbox_operator.Children.Prune.{
  candidate_kinds, prunable, prunable_of, listed, stale, list_failures, list_answered,
  delete_answered, delete_child, delete_children, prune_within, prune,
}
use netbox_operator.Children.Own.{IsOwned, ours-IsOwned}
use netbox_operator.Children.Calls.{
  IsPruned, IsDue, Within, deletes-append, quiet-Within, apply_children-Within,
}

module _ (go : Bytes) (e : ChildEngine) (p : Parent) (w : ChildWriter)
    (want : List DesiredChild) where
  pub prunable-Pruned :
      (live : Live)
      → prunable e p w (paths want) live ≡ true
      → IsOwned p.uid live
        × (text_at owned_by_path live.annotations ≢ "")
        × (¬ Any (λ path. path ≡ text_at owned_by_path live.annotations) (paths want))
  unfolding prunable
  prunable-Pruned live h =
      let path : String = text_at owned_by_path live.annotations in
      let own : ours live p.uid ≡ true = ground (arith, h) in
      let generated : str_eq path "" ≡ false = ground (arith, h) in
      let gone : contains (paths want) path ≡ false = ground (arith, h) in
      (
        ours-IsOwned live p.uid own,
        (λ same. absurd ground (arith, generated, (eq_iff path "").1 same)),
        (λ listed_now. absurd ground (arith, gone, (contains_iff (paths want) path).1 listed_now)),
      )

  -- What `stale` finds, but for the deletions.
  abbrev IsStale : List Gvk → Live → Type 0
  IsStale gvks live =
      Any (λ gvk. Any (λ other. other ≡ live) (listed e p w (w.list gvk))) gvks
      × (prunable e p w (paths want) live ≡ true)

  prunable_of-Stale :
      (items : List Live)
      → All
          (λ live. Any (λ other. other ≡ live) items × (prunable e p w (paths want) live ≡ true))
          (prunable_of e p w (paths want) items)
  unfolding prunable_of
  prunable_of-Stale [] = tt
  prunable_of-Stale (live ∷ items) =
      let rest =
        All-map _
          (λ l. Any (λ other. other ≡ l) (live ∷ items) × (prunable e p w (paths want) l ≡ true))
          (λ l s. (inr s.0, s.1)) (prunable_of e p w (paths want) items)
          (prunable_of-Stale items) in
      if-cases
        (All
          (λ l. Any (λ other. other ≡ l) (live ∷ items) × (prunable e p w (paths want) l ≡ true)))
        (prunable e p w (paths want) live) _ _ (λ t. ((inl refl, t), rest)) (λ f. rest)

  stale-IsStale : (gvks : List Gvk) → All (IsStale gvks) (stale e p w (paths want) gvks)
  unfolding stale
  stale-IsStale [] = tt
  stale-IsStale (gvk ∷ gvks) =
      All-append (IsStale (gvk ∷ gvks)) (prunable_of e p w (paths want) (listed e p w (w.list gvk)))
        _
        (All-map _ (IsStale (gvk ∷ gvks)) (λ l s. (inl s.0, s.1)) _
          (prunable_of-Stale (listed e p w (w.list gvk))))
        (All-map _ (IsStale (gvk ∷ gvks)) (λ l s. (inr s.0, s.1)) _ (stale-IsStale gvks))

  list_answered-Within :
      (gvk : Gvk) (answer : Option (List Live)) (n : ℕ) (m : Materialisation)
      → Within go e p w want n m
      → Within go e p w want n (list_answered e p w gvk answer m)
  list_answered-Within gvk none n m h = h
  list_answered-Within gvk (some items) n m h = h

  list_failures-Within :
      (gvks : List Gvk) (n : ℕ) (m : Materialisation)
      → Within go e p w want n m
      → Within go e p w want n (list_failures e p w gvks m)
  unfolding list_failures
  list_failures-Within [] n m h = h
  list_failures-Within (gvk ∷ gvks) n m h =
      list_failures-Within gvks n _ (list_answered-Within gvk (w.list gvk) n m h)

  more-Within :
      (n k : ℕ) (m : Materialisation) → n ≤ k → Within go e p w want n m → Within go e p w want k m
  more-Within n k m l h = (h.0, omega (arith, l, h.1))

  deleted-Within :
      (n : ℕ) (live : Live) (m : Materialisation)
      → IsPruned go e p w want live
      → Within go e p w want n m
      → Within go e p w want (suc n) (call (delete_object live) m)
  deleted-Within n live m due h = (
    All-append (IsDue go e p w want) m.calls (delete_object live ∷ []) h.0 (due, tt),
    omega (arith, h.1, deletes-append m.calls (delete_object live ∷ [])),
  )

  delete_answered-Within :
      (n : ℕ) (live : Live) (answer : DeleteAnswer) (m : Materialisation)
      → Within go e p w want n m
      → Within go e p w want n (delete_answered e p w live answer m)
  delete_answered-Within n live deleted m h =
      quiet-Within go e p w want n (event "ChildPruned" _) m tt refl h
  delete_answered-Within n live not_there m h =
      quiet-Within go e p w want n (event "ChildPruned" _) m tt refl h
  delete_answered-Within n live delete_failed m h = h

  delete_child-Within :
      (n : ℕ) (live : Live) (m : Materialisation)
      → IsStale (candidate_kinds e p w want) live
      → Within go e p w want n m
      → Within go e p w want (suc n) (delete_child e p w live m)
  unfolding delete_child
  delete_child-Within n live m h within =
      let (owned, generated, gone) = prunable-Pruned live h.1 in
      if-cases (Within go e p w want (suc n)) live.deleting _ _
        (λ t. more-Within n (suc n) m (omega arith) within)
        (λ alive. delete_answered-Within (suc n) live (w.delete live) _ (
          deleted-Within n live m
            (record {
              found = h.0;
              owned = owned;
              generated = generated;
              gone = gone;
              alive = alive;
            })
            within))

  delete_children-Within :
      (items : List Live) (n : ℕ) (m : Materialisation)
      → All (IsStale (candidate_kinds e p w want)) items
      → Within go e p w want n m
      → Within go e p w want (n + length items) (delete_children e p w items m)
  unfolding delete_children
  delete_children-Within [] n m h within = more-Within n (n + 0) m (omega arith) within
  delete_children-Within (live ∷ items) n m h within =
      let done : Materialisation = delete_children e p w items (delete_child e p w live m) in
      more-Within (suc n + length items) (n + suc (length items)) done (omega arith)
        (delete_children-Within items (suc n) _ h.1 (delete_child-Within n live m h.0 within))

  prune-Within :
      (m : Materialisation)
      → Within go e p w want 0 m
      → Within go e p w want (length want + 8) (prune e p w want m)
  unfolding prune prune_within
  prune-Within m h =
      let gvks : List Gvk = candidate_kinds e p w want in
      let items : List Live = stale e p w (paths want) gvks in
      let before : Materialisation = list_failures e p w gvks m in
      let within = list_failures-Within gvks 0 m h in
      if-cases (Within go e p w want (length want + 8)) (ltb (length want + 8) (length items)) _ _
        (λ t. more-Within 0 (length want + 8) before (omega arith) within)
        (λ f.
          more-Within (0 + length items) (length want + 8) (delete_children e p w items before)
            (ground (arith, f)) (delete_children-Within items 0 before (stale-IsStale gvks) within))

  members : (children : List DesiredChild) → All (λ child. Any (λ c. c ≡ child) children) children
  members [] = tt
  members (child ∷ children) = (
    inl refl,
    All-map _ (λ c. Any (λ d. d ≡ c) (child ∷ children)) (λ c h. inr h) children (members children),
  )

  pub pass-Within :
      (m : Materialisation)
      → m.calls ≡ []
      → Within go e p w want (length want + 8) (prune e p w want (apply_children go e p w want m))
  pass-Within m empty =
      prune-Within _
        (apply_children-Within go e p w want want 0 m (members want) (rw empty (tt, omega arith)))
