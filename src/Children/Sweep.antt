-- ===== src/Children/Sweep.antt =====
-- internal/reconciler/children.go: when the kinds that a parent lists show nothing that it has to
-- delete, in terms of the cluster.
use mathlib.Core.Path.{subst}
use netbox_operator.Common.{
  ◌≡◌, ◌≢◌, ◌↔◌, inl, inr, refl, sym, ◌∙◌, String, true, false, Option, none, some, List, [], ◌∷◌,
  ◌++◌, arith, All, All-append, Any, contains, contains_iff, Bool-cases, str_eq, eq_iff,
}
use netbox_operator.Registry.{Gvk}
use netbox_operator.Children.Names.{Bytes}
use netbox_operator.Children.Inputs.{Live, ChildStatus, ChildWriter, Parent, ChildEngine}
use netbox_operator.Children.State.{
  owned_by_path, DesiredChild, text_at, paths, kinds, kinds_before,
}
use netbox_operator.Children.Prune.{candidate_kinds, prunable, prunable_of, listed, stale}
use netbox_operator.Children.Own.{IsOwned}
use netbox_operator.Children.Pruning.{prunable-Pruned}
use netbox_operator.Children.Listed.{IsListed}
use netbox_operator.Children.Apart.{IsOwned-ours}

-- Members of lists.
All-at : {A : Type 0} (P : A → Type 0) (xs : List A) (a : A) → All P xs → Any (λ x. x ≡ a) xs → P a
All-at P [] a h m = absurd m
All-at P (x ∷ xs) a h (inl same) = subst P same h.0
All-at P (x ∷ xs) a h (inr rest) = All-at P xs a h.1 rest

All-from :
    {A : Type 0} (P : A → Type 0) (xs : List A) → ((a : A) → Any (λ x. x ≡ a) xs → P a) → All P xs
All-from P [] h = tt
All-from P (x ∷ xs) h = (h x (inl refl), All-from P xs (λ a m. h a (inr m)))

All-left : {A : Type 0} (P : A → Type 0) (xs ys : List A) → All P (xs ++ ys) → All P xs × All P ys
All-left P [] ys h = (tt, h)
All-left P (x ∷ xs) ys h = let (l, r) = All-left P xs ys h.1 in ((h.0, l), r)

-- What the order of a set of kinds keeps: its members.
abbrev pub IsOrdering : (List Gvk → List Gvk) → Type 0
IsOrdering in_order =
    (gvks : List Gvk) (gvk : Gvk) → Any (λ k. k ≡ gvk) (in_order gvks) ↔ Any (λ k. k ≡ gvk) gvks

-- A kind of this group.
abbrev pub kind_of : ChildStatus → Gvk
kind_of child = record { group = "netbox.kubeforge.org"; version = "v1alpha1"; kind = child.kind }

kinds_iff :
    (P : Gvk → Type 0) (want : List DesiredChild)
    → All P (kinds want) ↔ All (λ child. P child.gvk) want
kinds_iff P [] = (λ h. h, λ h. h)
kinds_iff P (child ∷ want) =
    let rest = kinds_iff P want in (λ h. (h.0, rest.0 h.1), λ h. (h.0, rest.1 h.1))

kinds_before_iff :
    (P : Gvk → Type 0) (before : List ChildStatus)
    → All P (kinds_before before) ↔ All (λ child. P (kind_of child)) before
kinds_before_iff P [] = (λ h. h, λ h. h)
kinds_before_iff P (child ∷ before) =
    let rest = kinds_before_iff P before in (λ h. (h.0, rest.0 h.1), λ h. (h.0, rest.1 h.1))

module _ (go : Bytes) (e : ChildEngine) (p : Parent) (w : ChildWriter)
    (want : List DesiredChild) where
  -- An object that the parent owns, of a path that it no longer declares.
  abbrev pub IsLeftOver : Live → Type 0
  IsLeftOver live =
      IsOwned p.uid live
      × (text_at owned_by_path live.annotations ≢ "")
      × (¬ Any (λ path. path ≡ text_at owned_by_path live.annotations) (paths want))

  -- The list of the kind is answered, and shows nothing that is left over.
  abbrev pub IsSwept : Gvk → Type 0
  IsSwept gvk =
      (items : List Live) × (w.list gvk ≡ some items) × All (λ live. ¬ IsLeftOver live) items

  IsLeftOver-prunable : (live : Live) → IsLeftOver live → prunable e p w (paths want) live ≡ true
  unfolding prunable
  IsLeftOver-prunable live (own, generated, gone) =
      let path : String = text_at owned_by_path live.annotations in
      let empty : str_eq path "" ≡ false = elim (Bool-cases (str_eq path "")) [
        | inl t ↦ absurd (generated ((eq_iff path "").0 t))
        | inr f ↦ f
      ] in
      let missing : contains (paths want) path ≡ false =
        elim (Bool-cases (contains (paths want) path)) [
          | inl t ↦ absurd (gone ((contains_iff (paths want) path).0 t))
          | inr f ↦ f
        ] in
      ground (arith, empty, missing, IsOwned-ours live p.uid own)

  prunable_of_iff :
      (items : List Live)
      → (prunable_of e p w (paths want) items ≡ []) ↔ All (λ live. ¬ IsLeftOver live) items
  unfolding prunable_of
  prunable_of_iff [] = (λ h. tt, λ h. refl)
  prunable_of_iff (live ∷ items) = elim (Bool-cases (prunable e p w (paths want) live)) [
    | inl t ↦ rw t (λ h. cc, λ h. absurd (h.0 (prunable-Pruned go e p w want live t)))
    | inr f ↦
        let rest = prunable_of_iff items in
        rw f (
          λ h. ((λ over. absurd ground (arith, f, IsLeftOver-prunable live over)), rest.0 h),
          λ h. rest.1 h.1,
        )
  ]

  append-nil : (xs ys : List Live) → (xs ++ ys ≡ []) ↔ ((xs ≡ []) × (ys ≡ []))
  append-nil [] ys = (λ h. (refl, h), λ h. h.1)
  append-nil (x ∷ xs) ys = (λ h. cc, λ h. let first = h.0 in cc)

  IsSwept-iff :
      (gvk : Gvk) (answer : Option (List Live))
      → w.list gvk ≡ answer
      → ((answer ≢ none) × (prunable_of e p w (paths want) (listed e p w answer) ≡ []))
        ↔ IsSwept gvk
  IsSwept-iff gvk none same =
      (λ h. absurd (h.0 refl), λ (items, found, over). let clash = sym same ∙ found in cc)
  IsSwept-iff gvk (some items) same = (
    λ h. (items, same, (prunable_of_iff items).0 h.1),
    λ (others, found, over).
        let eq : others ≡ items = cc in
        (
          (λ z. cc),
          (prunable_of_iff items).1
              (subst (λ (xs : List Live). All (λ live. ¬ IsLeftOver live) xs) eq over),
        ),
  )

  pub stale_iff :
      (gvks : List Gvk)
      → (All (IsListed e p w) gvks × (stale e p w (paths want) gvks ≡ [])) ↔ All IsSwept gvks
  unfolding stale
  stale_iff [] = (λ h. tt, λ h. (tt, refl))
  stale_iff (gvk ∷ gvks) =
      let here = IsSwept-iff gvk (w.list gvk) refl in
      let rest = stale_iff gvks in
      let split =
        append-nil (prunable_of e p w (paths want) (listed e p w (w.list gvk)))
          (stale e p w (paths want) gvks) in
      (
        λ h. let (a, b) = split.0 h.1 in (here.0 (h.0.0, a), rest.0 (h.0.1, b)),
        λ h. let (l, a) = here.1 h.0 in let (ls, b) = rest.1 h.1 in ((l, ls), split.1 (a, b)),
      )

  pub ordered_iff :
      IsOrdering e.in_order
      → All IsSwept (candidate_kinds e p w want)
        ↔ (All (λ child. IsSwept child.gvk) want × All (λ child. IsSwept (kind_of child)) p.before)
  ordered_iff ordering =
      let gvks : List Gvk = kinds want ++ kinds_before p.before in
      (
        λ h.
            let every : All IsSwept gvks =
              All-from IsSwept gvks
                (λ gvk m. All-at IsSwept (e.in_order gvks) gvk h ((ordering gvks gvk).1 m)) in
            let (l, r) = All-left IsSwept (kinds want) (kinds_before p.before) every in
            ((kinds_iff IsSwept want).0 l, (kinds_before_iff IsSwept p.before).0 r),
        λ (l, r).
            let every : All IsSwept gvks =
              All-append IsSwept (kinds want) (kinds_before p.before) ((kinds_iff IsSwept want).1 l)
                ((kinds_before_iff IsSwept p.before).1 r) in
            All-from IsSwept (e.in_order gvks)
              (λ gvk m. All-at IsSwept gvks gvk every ((ordering gvks gvk).0 m)),
      )
