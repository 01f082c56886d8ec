-- ===== src/Children/Apart.antt =====
-- internal/reconciler/children.go: children without a collision, and the objects that a parent owns.
use netbox_operator.Common.{
  ◌≡◌, inl, inr, refl, ap, ◌∙◌, String, true, false, Option, none, some, List, [], ◌∷◌, arith, ℕ,
  All, any, Bool-cases, str_eq, eq_iff,
}
use netbox_operator.Children.Names.{bytes_eq}
use netbox_operator.Children.Inputs.{Live, Controller}
use netbox_operator.Children.State.{DesiredChild, text_at, ours, controlled_by, same_at, collision}
use netbox_operator.Children.Own.{IsOwned, Distinct, IsSame}

-- Names.
bytes_eq-equal : (bs cs : List ℕ) → bytes_eq bs cs ≡ true → bs ≡ cs
unfolding bytes_eq
bytes_eq-equal [] [] h = refl
bytes_eq-equal [] (c ∷ cs) h = cc
bytes_eq-equal (b ∷ bs) [] h = cc
bytes_eq-equal (b ∷ bs) (c ∷ cs) h =
    let head : b ≡ c = ground (arith, h) in
    let tail : bs ≡ cs = bytes_eq-equal bs cs (ground (arith, h)) in cc (head, tail)

any-apart :
    (child : DesiredChild) (seen : List DesiredChild)
    → All (λ other. ¬ IsSame child other) seen
    → any (same_at child) seen ≡ false
unfolding any same_at
any-apart child [] h = refl
any-apart child (other ∷ seen) h = elim (Bool-cases (same_at child other)) [
  | inl t ↦
      let kind : str_eq child.gvk.kind other.gvk.kind ≡ true = ground (arith, t) in
      let name : bytes_eq child.name other.name ≡ true = ground (arith, t) in
      absurd (
        h.0 (
          (eq_iff child.gvk.kind other.gvk.kind).0 kind,
          bytes_eq-equal child.name other.name name,
        ))
  | inr f ↦ ground (arith, f, any-apart child seen h.1)
]

All-both {ℓ κ μ} :
    {A : Type ℓ} (P : A → Type κ) (Q : A → Type μ) (xs : List A)
    → All P xs
    → All Q xs
    → All (λ x. P x × Q x) xs
All-both P Q [] h k = tt
All-both P Q (x ∷ xs) h k = ((h.0, k.0), All-both P Q xs h.1 k.1)

pub Distinct-collision :
    (seen want : List DesiredChild)
    → Distinct want
    → All (λ child. All (λ other. ¬ IsSame child other) seen) want
    → collision seen want ≡ false
unfolding collision
Distinct-collision seen [] d h = refl
Distinct-collision seen (child ∷ want) d h =
    rw (any-apart child seen h.0)
      (Distinct-collision (child ∷ seen) want d.1 (All-both _ _ want d.0 h.1))

pub all-nothing :
    (want : List DesiredChild) → All (λ child. All (λ other. ¬ IsSame child other) []) want
all-nothing [] = tt
all-nothing (child ∷ want) = (tt, all-nothing want)

-- Owners.
controller-controls :
    (uid : String) (controller : Option Controller) (c : Controller)
    → controller ≡ some c
    → c.uid ≡ uid
    → controlled_by uid controller ≡ true
controller-controls uid none c same own = cc
controller-controls uid (some x) c same own =
    let eq : x ≡ c = cc in (eq_iff x.uid uid).1 (ap (λ (y : Controller). y.uid) eq ∙ own)

pub IsOwned-ours : (live : Live) (uid : String) → IsOwned uid live → ours live uid ≡ true
unfolding ours
IsOwned-ours live uid (label, (c, same, own)) = ground (
  arith,
  (eq_iff (text_at "netbox.kubeforge.org/owner-uid" live.labels) uid).1 label,
  controller-controls uid live.controller c same own,
)
