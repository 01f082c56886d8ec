-- ===== src/Common/Strings.antt =====
-- slices.Contains on texts, and `any` over a list.
use Prim.Native.String.{String}
use mathlib.Core.Path.{◌≡◌}
use mathlib.Core.Logic.{◌↔◌}
use mathlib.Core.Bool.{Bool, true, false, ◌||◌}
use mathlib.Core.List.{List, [], ◌∷◌}
use native.Mathlib.Omega.{arith}
use text.Mathlib.Text.{◌==◌}
use text.Mathlib.TextEquality.{eq_iff}
use package.netbox_operator.Common.Lists.{Any}

unfoldable pub contains : List String → String → Bool
contains [] s = false
contains (x ∷ xs) s = x == s || contains xs s

pub contains_iff : (xs : List String) (s : String) → (contains xs s ≡ true) ↔ Any (λ x. x ≡ s) xs
unfolding contains
contains_iff [] s = (λ h. cc, λ h. absurd h)
contains_iff (x ∷ xs) s = ground (arith, eq_iff x s, contains_iff xs s)

unfoldable pub any {ℓ} : {A : Type ℓ} → (A → Bool) → List A → Bool
any p [] = false
any p (x ∷ xs) = p x || any p xs

pub any_iff {ℓ} :
    {A : Type ℓ} (p : A → Bool) (xs : List A) → (any p xs ≡ true) ↔ Any (λ x. p x ≡ true) xs
unfolding any
any_iff p [] = (λ h. cc, λ h. absurd h)
any_iff p (x ∷ xs) = ground (arith, any_iff p xs)
