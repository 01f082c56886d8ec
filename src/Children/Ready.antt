-- ===== src/Children/Ready.antt =====
-- internal/reconciler/children.go: when the children of a parent are ready.
use netbox_operator.Common.{
  ◌≡◌, ◌↔◌, refl, String, true, false, not, Option, none, some, List, [], ◌∷◌, ◌++◌, arith,
  if-cases, str_eq,
}
use netbox_operator.Registry.{Gvk}
use netbox_operator.Children.{verdict, is_empty}
use netbox_operator.Children.Names.{
  ChildSegment, ChildSets, no_sets, child_set, ChildEntries, no_entries, child_entry, Bytes,
  child_path,
}
use netbox_operator.Children.Inputs.{Desired, Parent, ChildEngine}
use netbox_operator.Children.State.{Materialisation}
use netbox_operator.Children.Desire.{desire, desire_entries, add, gvk_of}

-- Nothing speaks against the children.
abbrev pub Clean : Materialisation → Type 0
Clean m = (m.conflicts ≡ []) × (m.blocked ≡ false) × (m.failures ≡ []) × (m.pending ≡ [])

pub not-empty : {A : Type 0} (xs : List A) (x : A) → ¬ (xs ++ (x ∷ []) ≡ [])
not-empty [] x h = cc
not-empty (y ∷ xs) x h = cc

is_empty-nil :
    (go : Bytes) (e : ChildEngine) (p : Parent) (texts : List String)
    → (is_empty go e p texts ≡ true) ↔ (texts ≡ [])
is_empty-nil go e p [] = (λ h. refl, λ h. refl)
is_empty-nil go e p (text ∷ texts) = (λ h. cc, λ h. cc)

module _ (go : Bytes) (e : ChildEngine) (p : Parent) where
  pub verdict_iff : (m : Materialisation) → (str_eq (verdict go e p m) "AllReady" ≡ true) ↔ Clean m
  unfolding verdict
  verdict_iff m =
      let nil = is_empty-nil go e p in
      if-cases (λ t. (str_eq t "AllReady" ≡ true) ↔ Clean m) (not (is_empty go e p m.conflicts)) _ _
        (λ t. (λ h. cc, λ c. absurd ground (arith, t, (nil m.conflicts).1 c.0)))
        (λ f.
          if-cases (λ t. (str_eq t "AllReady" ≡ true) ↔ Clean m) m.blocked _ _
            (λ t. (λ h. cc, λ c. absurd ground (arith, t, c.1)))
            (λ g.
              if-cases (λ t. (str_eq t "AllReady" ≡ true) ↔ Clean m)
                (not (is_empty go e p m.failures)) _ _
                (λ t. (λ h. cc, λ c. absurd ground (arith, t, (nil m.failures).1 c.2)))
                (λ k.
                  if-cases (λ t. (str_eq t "AllReady" ≡ true) ↔ Clean m)
                    (not (is_empty go e p m.pending)) _ _
                    (λ t. (λ h. cc, λ c. absurd ground (arith, t, (nil m.pending).1 c.3)))
                    (λ l. (
                      λ h. (
                        (nil m.conflicts).0 (ground (arith, f)),
                        g,
                        (nil m.failures).0 (ground (arith, k)),
                        (nil m.pending).0 (ground (arith, l)),
                      ),
                      λ c. refl,
                    )))))

  -- The scheme knows the kind of every entry.
  abbrev Recognised : Option Desired → Type 0
  Recognised none = Unit
  Recognised (some obj) = (gvk : Gvk) × (obj.gvk ≡ some gvk)

  unfoldable mutual
    pub AllRecognised : ChildSets Desired → Type 0
    AllRecognised no_sets = Unit
    AllRecognised (child_set field discriminator entries sets) =
        EntriesRecognised entries × AllRecognised sets

    pub EntriesRecognised : ChildEntries Desired → Type 0
    EntriesRecognised no_entries = Unit
    EntriesRecognised (child_entry key desired children entries) =
        Recognised desired × AllRecognised children × EntriesRecognised entries

  added_iff :
      (path : List ChildSegment) (obj : Desired) (gvk : Option Gvk) (m : Materialisation)
      → obj.gvk ≡ gvk
      → Clean (add go e p path (some obj) gvk m) ↔ (Clean m × Recognised (some obj))
  added_iff path obj none m same =
      (λ h. absurd (not-empty m.failures (child_path path) h.2), λ (c, (g, s)). cc)
  added_iff path obj (some gvk) m same = (λ h. (h, (gvk, same)), λ h. h.0)

  add_iff :
      (path : List ChildSegment) (obj : Option Desired) (m : Materialisation)
      → Clean (add go e p path obj (gvk_of go e p obj) m) ↔ (Clean m × Recognised obj)
  add_iff path none m = (λ h. (h, tt), λ h. h.0)
  add_iff path (some obj) m = added_iff path obj obj.gvk m refl

  mutual
    unfolding desire AllRecognised

    pub desire_iff :
        (sets : ChildSets Desired) (path : List ChildSegment) (m : Materialisation)
        → Clean (desire go e p sets path m) ↔ (Clean m × AllRecognised sets)
    desire_iff no_sets path m = (λ h. (h, tt), λ h. h.0)
    desire_iff (child_set field discriminator entries sets) path m =
        let first = desire_entries_iff field discriminator entries path m in
        let rest =
          desire_iff sets path (desire_entries go e p field discriminator entries path m) in
        (
          λ h. let (c, r) = rest.0 h in let (d, q) = first.0 c in (d, (q, r)),
          λ h. rest.1 (first.1 (h.0, h.1.0), h.1.1),
        )

    desire_entries_iff :
        (field discriminator : String) (entries : ChildEntries Desired) (path : List ChildSegment)
        (m : Materialisation)
        → Clean (desire_entries go e p field discriminator entries path m)
          ↔ (Clean m × EntriesRecognised entries)
    desire_entries_iff field discriminator no_entries path m = (λ h. (h, tt), λ h. h.0)
    desire_entries_iff field discriminator (child_entry key desired children entries) path m =
        let at : List ChildSegment =
          path ++ (record { field = field; discriminator = discriminator; key = key } ∷ []) in
        let added : Materialisation = add go e p at desired (gvk_of go e p desired) m in
        let own = add_iff at desired m in
        let below = desire_iff children at added in
        let rest =
          desire_entries_iff field discriminator entries path (desire go e p children at added) in
        (
          λ h.
              let (c, r) = rest.0 h in
              let (d, q) = below.0 c in let (b, o) = own.0 d in (b, (o, q, r)),
          λ h. let (c, (o, q, r)) = h in rest.1 (below.1 (own.1 (c, o), q), r),
        )
