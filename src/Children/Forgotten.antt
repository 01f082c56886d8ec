-- ===== src/Children/Forgotten.antt =====
-- internal/reconciler/children.go: what becomes of the children of a parent that declares none any
-- more.
use netbox_operator.Common.{
  ℕ, ◌+◌, ltb, length, arith, ◌≡◌, ◌≢◌, refl, ◌∙◌, ap, false, Option, none, some, List, [], ◌∷◌,
  ◌==◌, str_eq, if-cases,
}
use netbox_operator.Registry.{Gvk}
use netbox_operator.Children.{
  verdict, report, suppresses, collected, unless_unwired, unless_skipped, declared, materialise,
}
use netbox_operator.Children.Names.{
  ChildSegment, ChildSets, no_sets, child_set, no_entries, child_entry, Bytes,
}
use netbox_operator.Children.Inputs.{
  Desired, Live, DeleteAnswer, deleted, not_there, delete_failed, ChildWriter, Parent, ChildEngine,
  ChildPass,
}
use netbox_operator.Children.State.{DesiredChild, Materialisation, nothing_yet, collision, paths}
use netbox_operator.Children.Desire.{desire}
use netbox_operator.Children.Apply.{apply_children}
use netbox_operator.Children.Prune.{
  candidate_kinds, stale, list_failures, list_answered, delete_answered, delete_child,
  delete_children, prune_within, prune,
}
use netbox_operator.Children.Ready.{AllRecognised}
use netbox_operator.Children.Safe.{wanted}
use netbox_operator.Children.Settled.{SaysReady, IsSettled-iff}

module _ (e : ChildEngine) (p : Parent) (w : ChildWriter) where
  list_answered-children :
      (gvk : Gvk) (answer : Option (List Live)) (m : Materialisation)
      → (list_answered e p w gvk answer m).children ≡ m.children
  list_answered-children gvk none m = refl
  list_answered-children gvk (some items) m = refl

  list_failures-children :
      (gvks : List Gvk) (m : Materialisation) → (list_failures e p w gvks m).children ≡ m.children
  unfolding list_failures
  list_failures-children [] m = refl
  list_failures-children (gvk ∷ gvks) m =
      list_failures-children gvks (list_answered e p w gvk (w.list gvk) m)
      ∙ list_answered-children gvk (w.list gvk) m

  delete_answered-children :
      (live : Live) (answer : DeleteAnswer) (m : Materialisation)
      → (delete_answered e p w live answer m).children ≡ m.children
  delete_answered-children live deleted m = refl
  delete_answered-children live not_there m = refl
  delete_answered-children live delete_failed m = refl

  delete_children-children :
      (items : List Live) (m : Materialisation)
      → (delete_children e p w items m).children ≡ m.children
  unfolding delete_children delete_child
  delete_children-children [] m = refl
  delete_children-children (live ∷ items) m =
      delete_children-children items (delete_child e p w live m)
      ∙ if-cases (λ (n : Materialisation). n.children ≡ m.children) live.deleting _ _ (λ t. refl)
          (λ f. delete_answered-children live (w.delete live) _)

  prune_within-children :
      (n : ℕ) (items : List Live) (m : Materialisation)
      → (prune_within e p w n items m).children ≡ m.children
  unfolding prune_within
  prune_within-children n items m =
      if-cases (λ (n : Materialisation). n.children ≡ m.children) (ltb (n + 8) (length items)) _ _
        (λ t. refl) (λ f. delete_children-children items m)

  -- Pruning leaves what the status will say of the children.
  prune-children :
      (want : List DesiredChild) (m : Materialisation) → (prune e p w want m).children ≡ m.children
  unfolding prune
  prune-children want m =
      let gvks : List Gvk = candidate_kinds e p w want in
      prune_within-children (length want) (stale e p w (paths want) gvks)
        (list_failures e p w gvks m)
      ∙ list_failures-children gvks m

-- Sets without entries, as a builder returns them for empty lists.
abbrev pub IsEmpty : ChildSets Desired → Type 0
IsEmpty no_sets = Unit
IsEmpty (child_set field discriminator no_entries sets) = IsEmpty sets
IsEmpty (child_set field discriminator (child_entry key desired children more) sets) = ⊥

module _ (go : Bytes) (e : ChildEngine) (p : Parent) where
  desire-empty :
      (sets : ChildSets Desired) (path : List ChildSegment) (m : Materialisation)
      → IsEmpty sets
      → desire go e p sets path m ≡ m
  unfolding desire
  desire-empty no_sets path m h = refl
  desire-empty (child_set field discriminator no_entries sets) path m h = desire-empty sets path m h
  desire-empty (child_set field discriminator (child_entry key desired children more) sets) path m
        h =
      absurd h

  empty-AllRecognised : (sets : ChildSets Desired) → IsEmpty sets → AllRecognised go e p sets
  unfolding AllRecognised
  empty-AllRecognised no_sets h = tt
  empty-AllRecognised (child_set field discriminator no_entries sets) h =
      (tt, empty-AllRecognised sets h)
  empty-AllRecognised (child_set field discriminator (child_entry key desired children more) sets)
        h =
      absurd h

module _ (go : Bytes) (first second : ChildEngine) (p : Parent) (sets : ChildSets Desired)
    (empty : IsEmpty sets) (not_deleted : p.deleting ≡ false)
    (not_suppressed : suppresses go first p p.result ≡ false) (created : p.id ≢ 0)
    (inline : p.inline ≡ some sets) where
  abbrev SaysNone : ChildPass → Type 0
  SaysNone pass = pass.children ≡ some []

  report-none :
      (m : Materialisation) → first.sorted m.children ≡ [] → SaysNone (report go first p m)
  unfolding report
  report-none m h =
      if-cases SaysNone (str_eq (verdict go first p m) "AllReady") _ _ (λ t. ap some h)
        (λ f. ap some h)

  collected-none :
      (w : ChildWriter) → first.sorted [] ≡ [] → SaysNone (collected go first p w nothing_yet)
  unfolding collected collision apply_children
  collected-none w h =
      report-none (prune first p w [] nothing_yet)
        (ap first.sorted (prune-children first p w [] nothing_yet) ∙ h)

  unless_unwired-none :
      (wired : Option ChildWriter) (w : ChildWriter)
      → wired ≡ some w
      → first.sorted [] ≡ []
      → SaysNone (unless_unwired go first p wired sets)
  unfolding unless_unwired
  unless_unwired-none none w same h = cc
  unless_unwired-none (some writer) w same h =
      rw (desire-empty go first p sets [] nothing_yet empty) (collected-none writer h)

  unless_skipped-none :
      (w : ChildWriter)
      → first.children ≡ some w
      → first.sorted [] ≡ []
      → SaysNone (unless_skipped go first p sets)
  unfolding unless_skipped
  unless_skipped-none w wired h =
      if-cases SaysNone p.deleting _ _ (λ t. absurd ground (arith, t, not_deleted))
        (λ alive.
          if-cases SaysNone (suppresses go first p p.result) _ _
            (λ t. absurd ground (arith, t, not_suppressed))
            (λ sending.
              if-cases SaysNone (p.id == 0) _ _ (λ t. absurd (created (ground (arith, t))))
                (λ f. unless_unwired-none first.children w wired h)))

  declared-none :
      (declares : Option (ChildSets Desired)) (w : ChildWriter)
      → declares ≡ some sets
      → first.children ≡ some w
      → first.sorted [] ≡ []
      → SaysNone (declared go first p declares)
  declared-none none w same wired h = cc
  declared-none (some others) w same wired h =
      let eq : others ≡ sets = cc in rw eq (unless_skipped-none w wired h)

  -- The parent with the status that names no child: what the next pass starts from.
  abbrev pub next : Parent
  next = record p { before = [] }

  settled :
      (w : ChildWriter)
      → second.children ≡ some w
      → second.in_order [] ≡ []
      → SaysReady go second next (materialise go second next)
  unfolding collision stale
  settled w wired none_listed =
      let same : wanted go second next sets ≡ [] =
        ap (λ (m : Materialisation). m.want)
          (desire-empty go second next sets [] nothing_yet empty) in
      (IsSettled-iff go second next).1 (
        sets,
        w,
        record {
          inline = inline;
          wired = wired;
          not_deleted = not_deleted;
          not_suppressed = not_suppressed;
          created = created;
          apart = rw same refl;
          recognised = empty-AllRecognised go second next sets empty;
          done = rw same tt;
          listed = rw same (rw none_listed tt);
          none_stale = rw same (rw none_listed refl);
        },
      )

  -- A pass over a parent that declares no child any more records no child in the status, whatever
  -- it could not list or delete, and a next pass that starts from this status sets ChildrenReady to
  -- true, whatever is left in the cluster, if the parent is in NetBox, not being deleted and not in
  -- a dry run, Kubernetes is wired, and nothing stays nothing when it is sorted.
  pub emptied-Ready :
      (w later : ChildWriter)
      → first.children ≡ some w
      → second.children ≡ some later
      → first.sorted [] ≡ []
      → second.in_order [] ≡ []
      → ((materialise go first p).children ≡ some [])
        × SaysReady go second next (materialise go second next)
  unfolding materialise
  emptied-Ready w later wired rewired sorted in_order =
      (declared-none p.inline w inline wired sorted, settled later rewired in_order)
