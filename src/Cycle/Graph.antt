-- ===== src/Cycle/Graph.antt =====
-- The graph that internal/resolver/cycle.go walks: which objects a reference blocks on.
use netbox_operator.Common.{◌≡◌, true, Option, none, some, List, [], ◌∷◌, Any, if◌then◌else◌}
use netbox_operator.Common.Result.{ok}
use netbox_operator.Registry.{Descriptor}
use netbox_operator.Cycle.{
  RefNode, node_eq, FieldRefs, RefElement, Live, found, World, elements, blocking, target_node,
  permitted,
}

-- Some blocking reference of an object points at a node.
abbrev pub PointsBy : RefNode → Descriptor → RefNode → RefElement → Type 0
PointsBy from d to e = (blocking d e ≡ true) × (target_node from e ≡ to)

abbrev pub Points : RefNode → Descriptor → List FieldRefs → RefNode → Type 0
Points from d refs to = Any (λ f. Any (PointsBy from d to) (elements f.field f.refs)) refs

-- And the object that is reconciled may refer to that node.
abbrev pub LeadsTo : World → RefNode → RefNode → Descriptor → List FieldRefs → RefNode → Type 0
LeadsTo world start from d refs to = Points from d refs to × (permitted world start to ≡ ok true)

-- What a live object of a kind adds.
abbrev pub LiveEdge : World → RefNode → RefNode → Descriptor → Live → RefNode → Type 0
LiveEdge world start from d (found (some refs)) to = LeadsTo world start from d refs to
LiveEdge world start from d _ to = ⊥

abbrev pub KnownEdge : World → RefNode → RefNode → Option Descriptor → RefNode → Type 0
KnownEdge world start from none to = ⊥
KnownEdge world start from (some d) to = LiveEdge world start from d (world.get from) to

module _ (world : World) (start : RefNode) (d : Descriptor) (refs : List FieldRefs) where
  -- The references of the start are those that were decoded for it; those of any other object are
  -- in the cache.
  abbrev pub Edge : RefNode → RefNode → Type 0
  Edge from to =
      if node_eq from start
      then LeadsTo world start from d refs to
      else KnownEdge world start from (world.kinds from.gvk) to

  -- The nodes from `a` to `b`, both included.
  abbrev pub IsPath : RefNode → RefNode → List RefNode → Type 0
  IsPath a b [] = ⊥
  IsPath a b (x ∷ []) = (x ≡ a) × (x ≡ b)
  IsPath a b (x ∷ y ∷ rest) = (x ≡ a) × Edge x y × IsPath y b (y ∷ rest)
