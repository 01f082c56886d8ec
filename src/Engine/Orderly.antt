-- ===== src/Engine/Orderly.antt =====
-- internal/reconciler/generic.go: which writes a pass makes, and when it creates.
use netbox_operator.Common.{ℕ, true, false, List, [], ◌∷◌, ◌≡◌, ◌⊎◌, str_eq}
use netbox_operator.Common.Result.{Result}
use netbox_operator.Json.{Object}
use package.netbox_operator.Engine.Inputs.{Setting, Write, created, patched, deleted, policy_of}
use package.netbox_operator.Engine.Searched.{Searched}

module _ (p : Setting) where
  -- No write, one create after a search in vain, one patch, or a delete that a create may follow.
  abbrev pub Orderly : List Write → Type 0
  Orderly writes =
      (writes ≡ [])
      ⊎ (((payload : Object) × (writes ≡ created payload ∷ []))
          × Searched p
          × (str_eq (policy_of p) "AdoptOnly" ≡ false))
      ⊎ ((n : ℕ) × (payload : Object) × (writes ≡ patched n payload ∷ []))
      ⊎ ((n : ℕ) × (str_eq p.deletion_policy "Retain" ≡ false)
          × (p.recreates ≡ true)
          × ((writes ≡ deleted n ∷ [])
              ⊎ ((payload : Object) × (writes ≡ deleted n ∷ created payload ∷ []))))
