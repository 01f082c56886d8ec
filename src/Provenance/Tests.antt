-- ===== src/Provenance/Tests.antt =====
-- Runs of the stamps at concrete inputs, and their theorems at such inputs.
use netbox_operator.Common.{
  lookup, put, ◌≡◌, ◌⊎◌, ◌↔◌, refl, String, false, Option, none, some, [], ◌∷◌, arith, contains,
}
use netbox_operator.Provenance.{
  Stamp, Owner, CustomFields, Conflict, foreign_cluster, conflict, claim_conflict, read_claim,
  stamp_value, stamped, owner_ref, stamp_applicable, enabled, event_conflict, merge_custom_fields,
  written, left_out, stamp_entries, custom_fields, event_conflict_sustained,
}
use netbox_operator.Provenance.Claimant.{conflict_iff}
use netbox_operator.Provenance.Own.{own, conflict-own}
use netbox_operator.Provenance.Observed.{seen, repeated, repeated_lem}

abbrev same : String → String
same s = s

abbrev east : Stamp
east = record {
  cluster_id = "east";
  tag_id = 1;
  uid_field = "k8s_uid";
  cluster_field = "k8s_cluster";
  owner_field = "k8s_owner";
  fields = "k8s_cluster" ∷ "k8s_owner" ∷ "k8s_uid" ∷ [];
}

abbrev site : Owner
site = record { kind = "netboxsite"; namespace = "team-a"; name = "ams"; uid = "u-1" }

abbrev declared : CustomFields
declared = ("k8s_cluster", some "west") ∷ ("rack_units", none) ∷ []

abbrev elsewhere : Conflict
elsewhere = record {
  claim = record { uid = ""; cluster_id = "west"; owner = "" };
  reason = foreign_cluster;
}

-- The line says what a run of the check computes through.
conflict_opened : Stamp → CustomFields → Owner → Option Conflict
unfolding conflict claim_conflict read_claim stamp_value stamped lookup put owner_ref
    stamp_applicable enabled merge_custom_fields written left_out stamp_entries custom_fields
    contains
conflict_opened = conflict same same

foreign_run : conflict same same east declared site ≡ some elsewhere
unfolding conflict_opened
foreign_run = refl

own_run :
    own same same east declared site
    ≡ ("k8s_cluster", some "east")
      ∷ ("rack_units", none)
      ∷ ("k8s_owner", some "netboxsite/team-a/ams")
      ∷ ("k8s_uid", some "u-1")
      ∷ []
unfolding conflict_opened
own_run = refl

-- With one field for both the cluster and the owner the own stamp reads as another cluster's.
clash_run :
    conflict same same
      (record east { owner_field = "k8s_cluster" })
      (own same same (record east { owner_field = "k8s_cluster" }) [] site)
      site
    ≡ some (record {
      claim = record {
        uid = "u-1";
        cluster_id = "netboxsite/team-a/ams";
        owner = "netboxsite/team-a/ams";
      };
      reason = foreign_cluster;
    })
unfolding conflict_opened
clash_run = refl

conflict_iff_example : (conflict same same east declared site ≡ none) ↔ (
    (stamp_applicable east ≡ false)
    ⊎ (((stamp_value same same declared "k8s_cluster" ≡ "")
          ⊎ (stamp_value same same declared "k8s_cluster" ≡ "east"))
        × ((stamp_value same same declared "k8s_owner" ≡ "")
            ⊎ (stamp_value same same declared "k8s_owner" ≡ owner_ref same same site))))
conflict_iff_example = conflict_iff same same east declared site

conflict-own_example :
    conflict same same east (own same same east declared site) (record site { uid = "u-2" }) ≡ none
unfolding conflict_opened
conflict-own_example =
    conflict-own same same east declared site "u-2" (λ h. cc h) refl refl refl refl

repeated_lem_example : repeated elsewhere (10 ∷ 20 ∷ 30 ∷ 40 ∷ 50 ∷ 60 ∷ []) none ≡ record {
  conflict = some (seen elsewhere 6 10);
  events = event_conflict ∷ event_conflict_sustained ∷ [];
}
repeated_lem_example = repeated_lem elsewhere 10 (20 ∷ 30 ∷ 40 ∷ 50 ∷ 60 ∷ []) (omega arith)
