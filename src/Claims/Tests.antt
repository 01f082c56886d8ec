-- ===== src/Claims/Tests.antt =====
-- Passes over claims at concrete inputs, and the theorems at such inputs.
pub mod Deleted
use mathlib.Core.Path.{subst}
use netbox_operator.Common.{
  ℕ, ◌+◌, ◌*◌, ◌^◌, ◌≤◌, ◌≡◌, inl, inr, refl, String, true, false, Option, none, some, [], ◌∷◌,
  str_eq, lookup, put, contains, arith, if◌then◌else◌,
}
use netbox_operator.Common.Result.{ok, err}
use netbox_operator.Json.{
  text, whole, object, member, no_members, Object, Go, members_of, to_members, custom_field_of,
  set_custom_field, choice_of, as_int,
}
use netbox_operator.Client.{suppressed}
use netbox_operator.Cycle.{mode_id}
use netbox_operator.Deletion.Backoff.{
  deletion_hold, int32_inc, int32_dec, int32_negative, protected_backoff,
}
use netbox_operator.Deletion.Setting.{get_annotation}
use netbox_operator.Engine.Finish.{status_written, jitter}
use netbox_operator.Engine.Inputs.{nothing}
use netbox_operator.Errors.Client.{not_found}
use netbox_operator.Placement.Netip.{Prefix, prefix_contains}
use netbox_operator.Provenance.{stamp_applicable, enabled}
use netbox_operator.Registry.{Gvk, Descriptor}
use netbox_operator.Claims.{reconcile, proceed}
use netbox_operator.Claims.Inputs.{
  SpecField, ClaimStatus, Claim, ClaimDescriptor, ClaimClient, ClaimEndpoint, World,
}
use netbox_operator.Claims.Ends.{finish, stop, ready, pending, resync_of, transitioned}
use netbox_operator.Claims.Pool.{
  allocation_identity, resolve_pool, admit_pool, flagged, pool_ref, set_pool, found_in, inside_pool,
  payload_of, stamped_payload, admit_request, put_fields,
}
use netbox_operator.Claims.Allocate.{allocate_once, allocate, post_answered, commit, reclaim}
use netbox_operator.Claims.Settle.{settled, pin_verification, pinned, verify_pin, contested}
use netbox_operator.Claims.Release.{releasing, release, release_without_deleting, delete_blocked}
use netbox_operator.Claims.Payload.{IsApart}
use netbox_operator.Claims.Allowed.{OneWrite}
use netbox_operator.Claims.Once.{MayWrite, reconcile-OneWrite}
use netbox_operator.Claims.Runs.{Informed, pass, Run, here, next, posts, run_keeps_one}
use netbox_operator.Claims.Verdict.{Verdict, settled-Verdict}

abbrev go : Go
go = record {
  parse_float = λ s. none;
  atoi = λ s. none;
  float_of_int = λ n. n;
  int_of_float = λ b. b;
  sprint = λ v. "";
  marshal = λ v. none;
}

abbrev kind_of : String → Gvk
kind_of kind = record { group = "netbox.kubeforge.org"; version = "v1alpha1"; kind = kind }

abbrev prefixes : Descriptor
prefixes = record {
  gvk = kind_of "NetBoxPrefix";
  endpoint = "ipam/prefixes";
  custom_fieldable = true;
  data_loss_on_delete = false;
  fields = [];
  natural_keys = [];
  deferred = [];
}

abbrev pub address_kind : ClaimDescriptor
address_kind = record {
  gvk = kind_of "NetBoxIPAddressClaim";
  endpoint = "ipam/ip-addresses";
  pool = record {
    field = record { spec = "prefixRef"; api = ""; target = kind_of "NetBoxPrefix" };
    empty_is_null = false;
    to_many = false;
  };
  pool_value_field = "prefix";
  pool_sub_path = "available-ips";
  pool_must_not_be_true = "mark_utilized" ∷ [];
  pool_forbidden_status = "container" ∷ [];
  pool_expected_status = [];
  request_length_field = "";
  result_field = "address";
  request_fields = [];
  taggable = false;
  custom_fieldable = false;
}

-- 10.0.0.0/24 and the address 10.0.0.7 in it.
abbrev parse : String → Option Prefix
parse s =
    if str_eq s "10.0.0.0/24"
    then some (record { addr = record { bits = 32; value = 10 * 2 ^ 24 }; length = 24 })
    else if str_eq s "10.0.0.7/24"
    then some (record { addr = record { bits = 32; value = 10 * 2 ^ 24 + 7 }; length = 24 })
    else none

abbrev identity_field : String
identity_field = "k8s_allocation_identity"

abbrev address : Object
address =
    ("id", whole 9)
    ∷ ("address", text "10.0.0.7/24")
    ∷ ("custom_fields", object (member identity_field (text "9f2c") no_members))
    ∷ []

abbrev client : ClaimClient
client = record {
  get_one = λ params. nothing;
  get_by_id = λ endpoint id. ok (some (("prefix", text "10.0.0.0/24") ∷ []));
  reread = λ id. ok (some address);
  delete = λ id. err not_found;
}

abbrev endpoint : ClaimEndpoint
endpoint = record {
  resync = 0;
  provenance = record {
    cluster_id = "prod";
    tag_id = 3;
    uid_field = "";
    cluster_field = "";
    owner_field = "";
    fields = identity_field ∷ [];
  };
  allocation_identity_field = identity_field;
  drift_mode = "";
  client = client;
  allocator =
      some (record { url = "https://netbox/api"; allocate = λ e id sub payload. ok address });
}

abbrev pub world : World
world = record {
  go = go;
  to_lower = λ s. s;
  trim = λ s. s;
  digest = λ s. "9f2c";
  parse_prefix = parse;
  parse_addr = λ s. none;
  now = 10 ^ 12;
  random = λ bound. 0;
  desc = some address_kind;
  pools = λ gvk. some prefixes;
  refs =
      some (λ req. ok (record { id = 5; mode = mode_id; target = none; target_not_ready = false }));
  endpoints = λ namespace name. some endpoint;
  finalizers = some (λ c. true);
  update_status = λ c. status_written;
  same_status = λ a b. false;
}

abbrev pool_five : SpecField
pool_five = record {
  as_ref = some (record { name = ""; namespace = ""; slug = ""; lookup = []; id = some 5 });
  as_value = none;
}

abbrev pub no_status : ClaimStatus
no_status = record {
  observed_generation = 0;
  netbox_id = 0;
  allocation_identity = "";
  claim_uid = "";
  allocated_at = none;
  last_verified_at = none;
  allocation_pool = none;
  url = "";
  conditions = [];
  deletion_attempts = 0;
  last_deletion_attempt = none;
}

abbrev pub claim : Claim
claim = record {
  namespace = "team-a";
  name = "web";
  uid = "u1";
  generation = 1;
  deleting = false;
  finalizer = false;
  annotations = [];
  endpoint_ref = "netbox";
  deletion_policy = "";
  explicit_identity = "";
  spec = some (("prefixRef", pool_five) ∷ []);
  allocated = "";
  status = no_status;
}

pub opened : World → Claim → Claim
unfolding reconcile proceed finish stop ready pending resync_of transitioned allocation_identity
    resolve_pool admit_pool flagged pool_ref set_pool found_in inside_pool payload_of
    stamped_payload admit_request put_fields allocate_once allocate post_answered commit reclaim
    settled pin_verification pinned verify_pin contested releasing release release_without_deleting
    delete_blocked custom_field_of set_custom_field members_of to_members choice_of as_int
    suppressed deletion_hold int32_inc int32_dec int32_negative protected_backoff jitter
    get_annotation prefix_contains stamp_applicable enabled lookup put contains posts
opened w c = (reconcile w c).claim

allocates : (reconcile world claim).claim.allocated ≡ "10.0.0.7/24"
unfolding opened
allocates = refl

apart : (d : ClaimDescriptor) → world.desc ≡ some d → IsApart d.request_fields
apart d known =
    let same : address_kind ≡ d = cc known in
    subst (λ (x : ClaimDescriptor). IsApart x.request_fields) same tt

reconcile-OneWrite_example : OneWrite (MayWrite world claim) (reconcile world claim).effects
reconcile-OneWrite_example = reconcile-OneWrite world claim apart

informed : Informed "9f2c" 0 world claim
informed = record {
  same_identity = λ d e a found known at wired mine. elim mine [
    | inl (named, _) ↦ absurd (named refl)
    | inr (_, same) ↦ same
  ];
  apart = apart;
  honest = λ d e at none_found. refl;
}

one_pass : Run "9f2c" 0 1
unfolding opened
one_pass = next here (pass world claim informed (omega arith))

run_keeps_one_example : ◌≤◌ 1 1
run_keeps_one_example = run_keeps_one (omega arith) one_pass

abbrev settled_claim : Claim
settled_claim = record claim {
  allocated = "10.0.0.7/24";
  status = record no_status { allocation_identity = "9f2c" };
}

settled-Verdict_example :
    Verdict world address_kind endpoint settled_claim
      (settled world settled_claim address_kind settled_claim settled_claim.allocated)
unfolding opened
settled-Verdict_example =
    settled-Verdict world address_kind endpoint settled_claim settled_claim refl refl
