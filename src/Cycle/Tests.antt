-- ===== src/Cycle/Tests.antt =====
-- Runs of internal/resolver/cycle.go, and its theorems at concrete inputs.
use Prim.Native.String.{◌++◌ as str_append}
use netbox_operator.Common.{
  ℕ, zero, suc, ◌≤◌, true, false, ◌≡◌, ◌≢◌, refl, String, Option, none, some, List, [], ◌∷◌, length,
  str_eq, if◌then◌else◌, any,
}
use netbox_operator.Grants.{permits}
use netbox_operator.Registry.{Gvk, gvk_eq, Field, Descriptor}
use netbox_operator.Cycle.{
  RefNode, node_eq, ObjectRef, FieldRefs, RefElement, found, not_found, World, cycle, too_deep,
  Outcome, clear, reported, unfinished, check_from, run_from, run, scan, arrive, visit, expand,
  expand_live, follow, authorised, blocking_hops, element_hops, elements, blocking, mode_of,
  defer_mode_of, in_natural_key, blocks_as, target_node, report_cycle, report_too_deep, path_to,
  rev_onto, climb, member, parent_of, take_on,
}
use netbox_operator.Cycle.Graph.{IsPath}
use netbox_operator.Cycle.Verdict.{check_from-cycle, check_from-clear, check_from-ends}

abbrev region : Gvk
region = record { group = "netbox.kubeforge.org"; version = "v1alpha1"; kind = "NetBoxRegion" }

abbrev parent : Field
parent = record { spec = "parentRef"; api = "parent"; target = region }

abbrev regions : Descriptor
regions = record {
  gvk = region;
  endpoint = "dcim/regions";
  custom_fieldable = true;
  data_loss_on_delete = false;
  fields = parent ∷ [];
  natural_keys = [];
  deferred = [];
}

abbrev named : String → ObjectRef
named n = record { name = n; namespace = ""; slug = ""; lookup = []; id = none }

abbrev parents : String → List FieldRefs
parents n = record { field = parent; refs = named n ∷ [] } ∷ []

abbrev node : String → RefNode
node n = record { gvk = region; namespace = "team-a"; name = n }

abbrev head : String → RefElement
head n = record { field = parent; ref = named n }

-- Every region has the parent that a function gives it, if any.
abbrev world_of : (String → Option String) → World
world_of up = record {
  kinds = λ k. if gvk_eq k region then some regions else none;
  get = λ n. elim (up n.name) [ none ↦ not_found | some p ↦ found (some (parents p)) ];
  grants = none;
}

-- a → b → c → a
abbrev ring : String → Option String
ring n = if str_eq n "b" then some "c" else if str_eq n "c" then some "a" else none

-- a → b → c
abbrev line : String → Option String
line n = if str_eq n "b" then some "c" else none

-- Every name has a longer one as its parent.
abbrev longer : String → Option String
longer n = some (str_append n "x")

abbrev chain : ℕ → String → List RefNode
chain zero n = []
chain (suc k) n = node n ∷ chain k (str_append n "x")

-- The line says what a run of the check computes through.
check_opened : World → RefNode → Descriptor → List FieldRefs → Outcome
unfolding check_from run_from run scan arrive visit expand expand_live follow authorised
    blocking_hops element_hops elements blocking mode_of defer_mode_of in_natural_key blocks_as
    target_node report_cycle report_too_deep path_to rev_onto climb member parent_of take_on node_eq
    gvk_eq permits any
check_opened = check_from

ring_cycle :
    check_from (world_of ring) (node "a") regions (parents "b")
    ≡ reported (cycle (node "a" ∷ node "b" ∷ node "c" ∷ node "a" ∷ []) (head "b"))
unfolding check_opened
ring_cycle = refl

self_cycle :
    check_from (world_of ring) (node "a") regions (parents "a")
    ≡ reported (cycle (node "a" ∷ node "a" ∷ []) (head "a"))
unfolding check_opened
self_cycle = refl

line_clear : check_from (world_of line) (node "a") regions (parents "b") ≡ clear
unfolding check_opened
line_clear = refl

chain_too_deep :
    check_from (world_of longer) (node "") regions (parents "x")
    ≡ reported (too_deep (chain 34 "") (head "x"))
unfolding check_opened
chain_too_deep = refl

check_from-cycle_example :
    IsPath
      (world_of ring)
      (node "a")
      regions
      (parents "b")
      (node "a")
      (node "a")
      (node "a" ∷ node "b" ∷ node "c" ∷ node "a" ∷ [])
    × (2 ≤ length (node "a" ∷ node "b" ∷ node "c" ∷ node "a" ∷ []))
check_from-cycle_example =
    check_from-cycle (world_of ring) (node "a") regions (parents "b")
      (node "a" ∷ node "b" ∷ node "c" ∷ node "a" ∷ []) (head "b") ring_cycle

check_from-clear_example : length (node "a" ∷ []) ≡ 1
check_from-clear_example =
    check_from-clear (world_of line) (node "a") regions (parents "b") line_clear (node "a" ∷ [])
      (refl, refl)

check_from-ends_example : check_from (world_of longer) (node "") regions (parents "x") ≢ unfinished
check_from-ends_example = check_from-ends (world_of longer) (node "") regions (parents "x")
