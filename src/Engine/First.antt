-- ===== src/Engine/First.antt =====
-- internal/reconciler/generic.go, lookup: which natural key identifies an object.
use netbox_operator.Common.{List, ◌∷◌, ◌++◌, ◌≡◌, All}
use netbox_operator.Common.Result.{Result, ok}
use netbox_operator.Registry.{NaturalKey}
use package.netbox_operator.Engine.Inputs.{Status, Setting}
use package.netbox_operator.Engine.Lookup.{Match, search_by, params_of}
use package.netbox_operator.Engine.Searched.{InVain}

module _ (p : Setting) where
  -- The first of the keys whose search finds an object, and what it finds.
  abbrev pub FirstOf : Status → List NaturalKey → Match → Type 0
  FirstOf status keys m =
      (before : List NaturalKey) × (key : NaturalKey) × (after : List NaturalKey) × (keys
        ≡ before ++ key ∷ after)
      × All (InVain p status) before
      × (search_by p status (params_of p key) ≡ ok m)
