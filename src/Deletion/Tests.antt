-- ===== src/Deletion/Tests.antt =====
-- Runs of the deletion at concrete inputs, and its theorems at such inputs.
use netbox_operator.Common.{
  ℕ, ◌*◌, ◌≡◌, refl, String, Bool, true, false, none, some, List, [], ◌∷◌, contains, ◌==◌,
  if◌then◌else◌,
}
use netbox_operator.Common.Result.{ok, err}
use netbox_operator.Errors.{second}
use netbox_operator.Errors.Client.{protected}
use netbox_operator.Registry.{Descriptor}
use netbox_operator.Provenance.{stamp_applicable, enabled}
use netbox_operator.Deletion.{
  deleting, release, delete_object, delete_answered, delete_failed, protected_delete, cascades,
  report_refusal, blocked, delete_by_stamp, search_answered, stamp_identifies, may_be_stamped,
  skips, retains, release_without_deleting, data_loss_blocked, pending_dependents, alive_of,
  cascade_refusal, resync,
}
use netbox_operator.Deletion.Cascade.{cascade, cascade_loop, cascade_step, any_cascaded}
use netbox_operator.Deletion.Setting.{
  Obj, Endpoint, Referrer, cr_deleted, child_gone, World, netbox_delete, netbox_search,
  finalizers_written, normal, warning, deleted, cascade_deleted, finalizer_skipped, cr_delete,
  requeued, get_annotation, Pass,
}
use netbox_operator.Deletion.Backoff.{
  int32_inc, int32_dec, int32_negative, protected_backoff, deletion_hold,
}
use netbox_operator.Deletion.Released.{Justified, Ends, deleting-Ends, deleting-released}
use netbox_operator.Deletion.Requests.{Asks, deleting-requests}

abbrev sites : Descriptor
sites = record {
  gvk = record { group = "netbox.kubeforge.org"; version = "v1alpha1"; kind = "NetBoxSite" };
  endpoint = "dcim/sites";
  custom_fieldable = true;
  data_loss_on_delete = false;
  fields = [];
  natural_keys = [];
  deferred = [];
}

-- The site 7 is refused, every other object is deleted; the stamp of the site leads to object 9.
abbrev ready : Endpoint
ready = record {
  resync = 0;
  provenance = record {
    cluster_id = "east";
    tag_id = 1;
    cluster_field = "";
    owner_field = "";
    uid_field = "k8s_uid";
    fields = "k8s_uid" ∷ [];
  };
  get_one = λ filter value. ok (some (some 9));
  delete = λ i. if i == 7 then err (protected 409) else ok false;
}

abbrev vlan : Referrer
vlan = record { name = "NetBoxVlan team-a/dmz"; deleting = false }

abbrev world : World
world = record {
  desc = sites;
  now = 1000 * second;
  endpoints = λ namespace name. some ready;
  children = some (record { get = λ child. child_gone; delete = λ r. cr_deleted });
  referrers = some (λ obj. some (vlan ∷ []));
  update_finalizers = λ obj. true;
}

abbrev site : ℕ → List (String × String) → Obj
site id annotations = record {
  namespace = "team-a";
  uid = "u-1";
  finalizer = true;
  annotations = annotations;
  deletion_policy = "";
  endpoint_ref = "main";
  id = id;
  children = [];
  deletion_attempts = 0;
  last_deletion_attempt = none;
  deleting = none;
}

abbrev cascading : List (String × String)
cascading = ("netbox.kubeforge.org/cascade-delete", "true") ∷ []

abbrev skipping : List (String × String)
skipping = ("netbox.kubeforge.org/skip-finalizer", "true") ∷ []

-- The line says what a run of a deletion computes through.
run_opened : World → Obj → Pass
unfolding deleting release delete_object delete_answered delete_failed protected_delete cascades
    report_refusal blocked delete_by_stamp search_answered stamp_identifies may_be_stamped skips
    retains release_without_deleting data_loss_blocked pending_dependents alive_of cascade
    cascade_loop cascade_step cascade_refusal any_cascaded resync stamp_applicable enabled
    get_annotation int32_inc int32_dec int32_negative protected_backoff deletion_hold contains
run_opened = deleting

deleted_run :
    (deleting world (site 8 [])).effects
    ≡ netbox_delete 8 ∷ finalizers_written false ∷ normal deleted ∷ []
unfolding run_opened
deleted_run = refl

skipped_run :
    (deleting world (site 8 skipping)).effects
    ≡ finalizers_written false ∷ warning finalizer_skipped ∷ []
unfolding run_opened
skipped_run = refl

found_run :
    (deleting world (site 0 [])).effects
    ≡ netbox_search "cf_k8s_uid" "u-1"
      ∷ netbox_delete 9
      ∷ finalizers_written false
      ∷ normal deleted
      ∷ []
unfolding run_opened
found_run = refl

refused_run :
    ((deleting world (site 7 [])).effects ≡ netbox_delete 7 ∷ [])
    × ((deleting world (site 7 [])).answer ≡ requeued (2 * second))
unfolding run_opened
refused_run = (refl, refl)

cascade_run :
    ((deleting world (site 7 cascading)).effects
      ≡ netbox_delete 7 ∷ cr_delete "NetBoxVlan team-a/dmz" ∷ warning cascade_deleted ∷ [])
    × ((deleting world (site 7 cascading)).obj.deleting ≡ some "Cascading")
unfolding run_opened
cascade_run = (refl, refl)

deleting-released_example : Justified world (site 0 [])
unfolding run_opened
deleting-released_example = deleting-released world (site 0 []) refl refl

deleting-requests_example : Asks world (site 0 []) (deleting world (site 0 []))
deleting-requests_example = deleting-requests world (site 0 []) refl

deleting-Ends_example : Ends (deleting world (site 7 cascading))
deleting-Ends_example = deleting-Ends world (site 7 cascading) refl

abbrev accepting : Obj → Bool
accepting obj = true
