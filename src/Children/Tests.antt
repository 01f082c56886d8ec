-- ===== src/Children/Tests.antt =====
-- Runs of internal/reconciler/children.go, and its theorems at concrete inputs.
use netbox_operator.Common.{
  ℕ, zero, suc, ◌≡◌, refl, inr, String, true, false, none, some, List, [], ◌∷◌, All, str_eq, any,
  lookup, contains, arith, if◌then◌else◌,
}
use netbox_operator.Registry.{Gvk}
use netbox_operator.Children.{
  materialise, unless_skipped, unless_unwired, collected, report, verdict,
}
use netbox_operator.Children.Names.{
  ChildSets, no_sets, child_set, no_entries, child_entry, Bytes, child_name, shortened, joined,
  slug_loop, slug_byte, lower_case, is_alnum, ends_in_word, trim_right, path_from, bytes_eq,
}
use netbox_operator.Children.Inputs.{
  an_object, Desired, Live, absent, applied, deleted, ChildWriter, other_result, Parent,
  ChildEngine,
}
use netbox_operator.Children.State.{collision, text_at, ours, overlay, same_at}
use netbox_operator.Children.Desire.{desire, decorated}
use netbox_operator.Children.Apply.{occupant, first_applied, write, unless_taken, apply_children}
use netbox_operator.Children.Prune.{
  prunable, prunable_of, stale, list_failures, delete_child, delete_children, prune_within, prune,
}
use netbox_operator.Children.Labels.{IsWord, IsHex, IsLabel, child_name-IsLabel}
use netbox_operator.Children.Safe.{Orderly, materialise-Orderly}
use netbox_operator.Children.Forgotten.{emptied-Ready}
use netbox_operator.Children.Settled.{SaysReady}
use netbox_operator.Children.Sweep.{IsOrdering}
use netbox_operator.Children.Converged.{IsConverged, materialise_iff}

abbrev interface : Gvk
interface = record {
  group = "netbox.kubeforge.org";
  version = "v1alpha1";
  kind = "NetBoxInterface";
}

unfoldable zeros : ℕ → List ℕ
zeros zero = []
zeros (suc n) = 48 ∷ zeros n

zeros-IsWord : (n : ℕ) → All IsWord (zeros n)
unfolding zeros
zeros-IsWord zero = tt
zeros-IsWord (suc n) = (inr (omega arith, omega arith), zeros-IsWord n)

abbrev bytes_of : String → List ℕ
bytes_of s =
    if str_eq s "sw1"
    then 115 ∷ 119 ∷ 49 ∷ []
    else if str_eq s "Eth0"
    then 69 ∷ 116 ∷ 104 ∷ 48 ∷ []
    else []

abbrev go : Bytes
go = record { bytes = bytes_of; digest = λ s. zeros 64 }

digest-IsHex : IsHex go.digest
unfolding zeros
digest-IsHex s = (refl, zeros-IsWord 64)

abbrev builder : Desired
builder = record {
  gvk = some interface;
  shape = an_object;
  endpoint_ref = "";
  deletion_policy = "";
  labels = [];
  annotations = [];
}

-- One interface, of the key Eth0.
abbrev interfaces : ChildSets Desired
interfaces =
    child_set "interfaces" "" (child_entry "Eth0" (some builder) no_sets no_entries) no_sets

abbrev switch : Parent
switch = record {
  kind = "NetBoxDevice";
  namespace = "lab";
  name = "sw1";
  uid = "u1";
  deleting = false;
  id = 7;
  endpoint_ref = "default";
  deletion_policy = "Delete";
  result = other_result;
  reports = false;
  ready = true;
  before = [];
  inline = some interfaces;
}

-- An interface that the switch owned under a path that it no longer declares.
abbrev left_over : Live
left_over = record {
  kind = "NetBoxInterface";
  name = "sw1-eth9";
  labels = ("netbox.kubeforge.org/owner-uid", "u1") ∷ [];
  annotations = ("netbox.kubeforge.org/owned-by-path", "spec.interfaces[eth9]") ∷ [];
  controller = some (record { kind = "NetBoxDevice"; name = "sw1"; uid = "u1" });
  deleting = false;
}

abbrev cluster : List Live → ChildWriter
cluster items = record {
  get = λ gvk name. absent;
  apply = λ manifest forced. applied true;
  list = λ gvk. some items;
  delete = λ live. deleted;
}

abbrev engine : List Live → ChildEngine
engine items = record {
  children = some (cluster items);
  git_ops = none;
  in_order = λ gvks. gvks;
  sorted = λ children. children;
  own = λ manifest. some manifest;
  to_lower = λ text. text;
}

slug_test :
    child_name go "sw1" (record { field = "interfaces"; discriminator = ""; key = "Eth0" } ∷ [])
    ≡ 115 ∷ 119 ∷ 49 ∷ 45 ∷ 101 ∷ 116 ∷ 104 ∷ 48 ∷ []
unfolding child_name shortened joined slug_loop slug_byte lower_case is_alnum ends_in_word
    trim_right
slug_test = refl

runs_test :
    ((materialise go (engine []) switch).condition ≡ some (true, "AllReady"))
    × ((materialise go (engine (left_over ∷ [])) switch).condition
        ≡ some (false, "PendingChildren"))
unfolding child_name shortened joined slug_loop slug_byte lower_case is_alnum ends_in_word
    trim_right materialise unless_skipped unless_unwired collected report verdict desire collision
    path_from text_at ours overlay same_at bytes_eq decorated occupant first_applied write
    unless_taken apply_children prunable prunable_of stale list_failures delete_child
    delete_children prune_within prune any lookup contains
runs_test = (refl, refl)

child_name-IsLabel_example :
    IsLabel
      (child_name go "sw1" (record { field = "interfaces"; discriminator = ""; key = "Eth0" } ∷ []))
child_name-IsLabel_example =
    child_name-IsLabel go digest-IsHex "sw1"
      (record { field = "interfaces"; discriminator = ""; key = "Eth0" } ∷ [])

materialise-Orderly_example :
    Orderly go (engine (left_over ∷ [])) switch (materialise go (engine (left_over ∷ [])) switch)
materialise-Orderly_example = materialise-Orderly go (engine (left_over ∷ [])) switch

keeps_all : IsOrdering (λ gvks. gvks)
keeps_all gvks gvk = (λ h. h, λ h. h)

materialise_iff_example :
    (sets : ChildSets Desired) × (w : ChildWriter) × IsConverged go (engine []) switch sets w
materialise_iff_example =
    (materialise_iff go (engine []) switch keeps_all).0 ("AllReady", runs_test.0)

abbrev no_interfaces : ChildSets Desired
no_interfaces = child_set "interfaces" "" no_entries no_sets

-- The switch without interfaces; its status still names one.
abbrev emptied : Parent
emptied = record switch {
  inline = some no_interfaces;
  before =
      record { path = "spec.interfaces[eth9]"; kind = "NetBoxInterface"; name = []; ready = true }
      ∷ [];
}

abbrev many : List Live
many =
    left_over ∷ left_over ∷ left_over ∷ left_over ∷ left_over ∷ left_over ∷ left_over ∷ left_over
    ∷ left_over ∷ []

-- Nine children are too many to delete, and the next pass no longer looks for them.
blocked_test :
    ((materialise go (engine many) emptied).condition ≡ some (false, "PruneBlocked"))
    × ((materialise go (engine many) (record emptied { before = [] })).condition
        ≡ some (true, "AllReady"))
unfolding materialise unless_skipped unless_unwired collected report verdict desire collision
    text_at ours apply_children prunable prunable_of stale list_failures prune_within prune lookup
    contains delete_children
blocked_test = (refl, refl)

emptied-Ready_example :
    ((materialise go (engine many) emptied).children ≡ some [])
    × SaysReady go
        (engine many)
        (record emptied { before = [] })
        (materialise go (engine many) (record emptied { before = [] }))
emptied-Ready_example =
    emptied-Ready go (engine many) (engine many) emptied no_interfaces tt refl refl
      (λ z. absurd ground (arith, z)) refl (cluster many) (cluster many) refl refl refl refl
