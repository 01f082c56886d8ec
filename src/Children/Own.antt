-- ===== src/Children/Own.antt =====
-- internal/reconciler/children.go: what a pass over inline children sends to Kubernetes.
use netbox_operator.Common.{
  ℕ, ◌≡◌, refl, sym, ap, ◌∙◌, inl, inr, String, true, false, Option, none, some, List, [], ◌∷◌,
  arith, str_eq, eq_iff, any, lookup, All, All-map, lookup-put_same, lookup-put_other, lookup-hit,
  lookup-miss, Bool-cases,
}
use netbox_operator.Children.Names.{Bytes, bytes_eq}
use netbox_operator.Children.Inputs.{Controller, Live, Parent, ChildEngine}
use netbox_operator.Children.State.{
  owner_uid_label, owned_by_path, DesiredChild, text_at, or_empty, controlled_by, ours, overlay,
  same_at, collision,
}
use netbox_operator.Children.Desire.{decorated, markers, add}

-- The object carries the label of the parent and has it as its controller.
abbrev pub IsOwned : String → Live → Type 0
IsOwned uid live =
    (text_at owner_uid_label live.labels ≡ uid)
    × ((c : Controller) × (live.controller ≡ some c) × (c.uid ≡ uid))

controlled_by-Controller :
    (uid : String) (controller : Option Controller)
    → controlled_by uid controller ≡ true
    → (c : Controller) × (controller ≡ some c) × (c.uid ≡ uid)
controlled_by-Controller uid none h = cc
controlled_by-Controller uid (some c) h = (c, refl, (eq_iff c.uid uid).0 h)

pub ours-IsOwned : (live : Live) (uid : String) → ours live uid ≡ true → IsOwned uid live
unfolding ours
ours-IsOwned live uid h =
    let label : str_eq (text_at owner_uid_label live.labels) uid ≡ true = ground (arith, h) in
    let control : controlled_by uid live.controller ≡ true = ground (arith, h) in
    (
      (eq_iff (text_at owner_uid_label live.labels) uid).0 label,
      controlled_by-Controller uid live.controller control,
    )

overlay-hit :
    (base add : List (String × String)) (key text : String)
    → lookup key add ≡ some text
    → lookup key (overlay base add) ≡ some text
unfolding overlay lookup
overlay-hit base [] key text h = cc
overlay-hit base ((k, t) ∷ add) key text h = elim (Bool-cases (str_eq k key)) [
  | inl s ↦
      let same : k ≡ key = (eq_iff k key).0 s in
      rw same (lookup-put_same key t (overlay base add)) ∙ (sym (lookup-hit key k t add s) ∙ h)
  | inr s ↦
      lookup-put_other key k t (overlay base add) s
      ∙ overlay-hit base add key text (sym (lookup-miss key k t add s) ∙ h)
]

-- The children that are written have names of their own.
abbrev pub IsSame : DesiredChild → DesiredChild → Type 0
IsSame a b = (a.gvk.kind ≡ b.gvk.kind) × (a.name ≡ b.name)

abbrev pub Distinct : List DesiredChild → Type 0
Distinct [] = Unit
Distinct (child ∷ want) = All (λ other. ¬ IsSame other child) want × Distinct want

bytes_eq-same : (bs cs : List ℕ) → bs ≡ cs → bytes_eq bs cs ≡ true
unfolding bytes_eq
bytes_eq-same [] [] h = refl
bytes_eq-same [] (c ∷ cs) h = cc
bytes_eq-same (b ∷ bs) [] h = cc
bytes_eq-same (b ∷ bs) (c ∷ cs) h =
    let head : b ≡ c = cc in
    let tail : bs ≡ cs = cc in ground (arith, head, bytes_eq-same bs cs tail)

any-none :
    (child : DesiredChild) (seen : List DesiredChild)
    → any (same_at child) seen ≡ false
    → All (λ other. ¬ IsSame child other) seen
unfolding any same_at
any-none child [] h = tt
any-none child (other ∷ seen) h = (
  (λ same. absurd ground (
    arith,
    h,
    (eq_iff child.gvk.kind other.gvk.kind).1 same.0,
    bytes_eq-same child.name other.name same.1,
  )),
  any-none child seen (ground (arith, h)),
)

pub collision-Distinct :
    (seen want : List DesiredChild)
    → collision seen want ≡ false
    → Distinct want × All (λ child. All (λ other. ¬ IsSame child other) seen) want
unfolding collision
collision-Distinct seen [] h = (tt, tt)
collision-Distinct seen (child ∷ want) h = elim (Bool-cases (any (same_at child) seen)) [
  | inl t ↦ absurd ground (arith, h, t)
  | inr f ↦
      let (distinct, apart) = collision-Distinct (child ∷ seen) want (ground (arith, h, f)) in
      (
        (All-map _ _ (λ other d. d.0) want apart, distinct),
        (any-none child seen f, All-map _ _ (λ other d. d.1) want apart),
      )
]

module _ (go : Bytes) (e : ChildEngine) (p : Parent) where
  pub decorated-label :
      (child : DesiredChild) → text_at owner_uid_label (decorated go e p child).labels ≡ p.uid
  unfolding text_at decorated
  decorated-label child = ap or_empty (
      overlay-hit child.obj.labels
        ((owner_uid_label, p.uid) ∷ ("app.kubernetes.io/managed-by", "netbox-operator") ∷ [])
        owner_uid_label p.uid (lookup-hit owner_uid_label owner_uid_label p.uid _ refl))

  pub decorated-path :
      (child : DesiredChild)
      → text_at owned_by_path (decorated go e p child).annotations ≡ child.path
  unfolding text_at decorated
  decorated-path child = ap or_empty (
      overlay-hit child.obj.annotations (markers go e p child.path) owned_by_path child.path (
        lookup-put_other owned_by_path "netbox.kubeforge.org/generated-by" _ _ refl
        ∙ lookup-put_same owned_by_path child.path _))
