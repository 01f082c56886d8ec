-- ===== src/Children/Safe.antt =====
-- internal/reconciler/children.go: what a whole pass over inline children sends to Kubernetes.
use netbox_operator.Common.{
  ◌+◌, ◌≤◌, ◌≡◌, ◌≢◌, refl, ◌∙◌, inl, inr, ◌⊎◌, String, false, Option, none, some, List, [], ◌∷◌,
  ◌++◌, arith, ◌==◌, length, All, if-cases, str_eq,
}
use netbox_operator.Registry.{Gvk}
use netbox_operator.Children.{
  verdict, report, suppresses, collected, unless_unwired, unless_skipped, declared, materialise,
}
use netbox_operator.Children.Names.{
  ChildSegment, ChildSets, no_sets, child_set, ChildEntries, no_entries, child_entry, Bytes,
}
use netbox_operator.Children.Inputs.{Desired, ChildWriter, Parent, ChildEngine, ChildPass}
use netbox_operator.Children.State.{DesiredChild, Materialisation, nothing_yet, collision}
use netbox_operator.Children.Desire.{desire, desire_entries, add, gvk_of}
use netbox_operator.Children.Apply.{apply_children}
use netbox_operator.Children.Prune.{prune}
use netbox_operator.Children.Own.{Distinct, collision-Distinct}
use netbox_operator.Children.Calls.{deletes, IsDue}
use netbox_operator.Children.Pruning.{pass-Within}

module _ (go : Bytes) (e : ChildEngine) (p : Parent) where
  add-calls :
      (path : List ChildSegment) (obj : Option Desired) (gvk : Option Gvk) (m : Materialisation)
      → (add go e p path obj gvk m).calls ≡ m.calls
  add-calls path none gvk m = refl
  add-calls path (some obj) none m = refl
  add-calls path (some obj) (some gvk) m = refl

  mutual
    unfolding desire

    desire-calls :
        (sets : ChildSets Desired) (path : List ChildSegment) (m : Materialisation)
        → (desire go e p sets path m).calls ≡ m.calls
    desire-calls no_sets path m = refl
    desire-calls (child_set field discriminator entries sets) path m =
        desire-calls sets path (desire_entries go e p field discriminator entries path m)
        ∙ desire_entries-calls field discriminator entries path m

    desire_entries-calls :
        (field discriminator : String) (entries : ChildEntries Desired) (path : List ChildSegment)
        (m : Materialisation)
        → (desire_entries go e p field discriminator entries path m).calls ≡ m.calls
    desire_entries-calls field discriminator no_entries path m = refl
    desire_entries-calls field discriminator (child_entry key desired children entries) path m =
        let at : List ChildSegment =
          path ++ (record { field = field; discriminator = discriminator; key = key } ∷ []) in
        let added : Materialisation = add go e p at desired (gvk_of go e p desired) m in
        desire_entries-calls field discriminator entries path (desire go e p children at added)
        ∙ (desire-calls children at added ∙ add-calls at desired (gvk_of go e p desired) m)

  -- The children that are asked for.
  abbrev pub wanted : ChildSets Desired → List DesiredChild
  wanted sets = (desire go e p sets [] nothing_yet).want

  -- A pass that may write.
  pub record IsOrderly (sets : ChildSets Desired) (w : ChildWriter) (pass : ChildPass)
      : Type 0 where
    pub inline : p.inline ≡ some sets
    pub wired : e.children ≡ some w
    pub not_deleted : p.deleting ≡ false
    pub not_suppressed : suppresses go e p p.result ≡ false
    pub created : p.id ≢ 0
    pub distinct : Distinct (wanted sets)
    pub due : All (IsDue go e p w (wanted sets)) pass.calls
    pub few : deletes pass.calls ≤ length (wanted sets) + 8

  abbrev pub Orderly : ChildPass → Type 0
  Orderly pass =
      (pass.calls ≡ []) ⊎ ((sets : ChildSets Desired) × (w : ChildWriter) × IsOrderly sets w pass)

  report-calls : (m : Materialisation) → (report go e p m).calls ≡ m.calls
  unfolding report
  report-calls m =
      if-cases (λ (pass : ChildPass). pass.calls ≡ m.calls) (str_eq (verdict go e p m) "AllReady") _
        _ (λ t. refl) (λ f. refl)

  module _ (sets : ChildSets Desired) (inline : p.inline ≡ some sets)
      (not_deleted : p.deleting ≡ false) (not_suppressed : suppresses go e p p.result ≡ false)
      (created : p.id ≢ 0) where
    collected-Orderly :
        (w : ChildWriter)
        → e.children ≡ some w
        → Orderly (collected go e p w (desire go e p sets [] nothing_yet))
    unfolding collected
    collected-Orderly w wired =
        let m : Materialisation = desire go e p sets [] nothing_yet in
        let done : Materialisation = prune e p w m.want (apply_children go e p w m.want m) in
        let within = pass-Within go e p w m.want m (desire-calls sets [] nothing_yet) in
        if-cases Orderly (collision [] m.want) _ _ (λ t. inl refl)
          (λ f. inr (
            sets,
            w,
            record {
              inline = inline;
              wired = wired;
              not_deleted = not_deleted;
              not_suppressed = not_suppressed;
              created = created;
              distinct = (collision-Distinct [] m.want f).0;
              due = rw (report-calls done) within.0;
              few = rw (report-calls done) within.1;
            },
          ))

    unless_unwired-Orderly :
        (w : Option ChildWriter) → e.children ≡ w → Orderly (unless_unwired go e p w sets)
    unfolding unless_unwired
    unless_unwired-Orderly none same = inl refl
    unless_unwired-Orderly (some w) same = collected-Orderly w same

  unless_skipped-Orderly :
      (sets : ChildSets Desired) → p.inline ≡ some sets → Orderly (unless_skipped go e p sets)
  unfolding unless_skipped
  unless_skipped-Orderly sets inline =
      if-cases Orderly p.deleting _ _ (λ t. inl refl)
        (λ alive.
          if-cases Orderly (suppresses go e p p.result) _ _ (λ t. inl refl)
            (λ sending.
              if-cases Orderly (p.id == 0) _ _ (λ t. inl refl)
                (λ f.
                  unless_unwired-Orderly sets inline alive sending
                    (λ z. absurd ground (arith, f, z)) e.children refl)))

  declared-Orderly :
      (inline : Option (ChildSets Desired)) → p.inline ≡ inline → Orderly (declared go e p inline)
  declared-Orderly none same = inl refl
  declared-Orderly (some sets) same = unless_skipped-Orderly sets same

  -- A pass over the inline children of a parent writes nothing, or the parent is not being
  -- deleted, is in NetBox and not in a dry run, and no two of the children share a kind and a
  -- name. Then each object that it applies is what SetControllerReference makes of that of a
  -- declared child, labelled with the parent and the path, where nothing was or an object that the
  -- parent owns; it forces only what conflicted; and it deletes only listed objects that the
  -- parent owns, generated from a path that is no longer declared and not yet being deleted, at
  -- most eight more than it declares.
  pub materialise-Orderly : Orderly (materialise go e p)
  unfolding materialise
  materialise-Orderly = declared-Orderly p.inline refl
