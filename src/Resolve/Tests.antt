-- ===== src/Resolve/Tests.antt =====
-- Runs of the resolution of references at concrete inputs, and its theorems at such inputs.
use netbox_operator.Common.{
  String, true, false, none, some, List, [], ◌∷◌, ◌≡◌, ◌↔◌, refl, All, Any, str_eq, put, lookup,
  contains, if◌then◌else◌,
}
use netbox_operator.Common.Result.{Result, ok}
use netbox_operator.Json.{as_int, whole, Go}
use netbox_operator.Registry.{Gvk, gvk_eq, Descriptor}
use netbox_operator.Cycle.{RefNode, ObjectRef, mode_name, mode_slug, mode_of, node_eq}
use netbox_operator.Grants.{permits}
use netbox_operator.Engine.Inputs.{single}
use netbox_operator.Resolve.{
  RefField, present, absent, Sources, Request, Resolved, resolve, by_name, readiness_of,
  readiness_in, target_failures, Declared, Resolution, resolve_fields, resolve_elements,
  classify_cause, requeue_from, Unresolved,
}
use netbox_operator.Resolve.Bound.{Gives, Bound, resolve-Bound}
use netbox_operator.Resolve.Generic.{GenericFkSpec, GenericRequest, member_for, resolve_generic}
use netbox_operator.Resolve.Whole.{WholeIn, resolve_fields-Whole}

abbrev go : Go
go = record {
  parse_float = λ s. none;
  atoi = λ s. none;
  float_of_int = λ n. n;
  int_of_float = λ b. b;
  sprint = λ v. "";
  marshal = λ v. none;
}

abbrev site_kind : Gvk
site_kind = record { group = "netbox.kubeforge.org"; version = "v1alpha1"; kind = "NetBoxSite" }

abbrev sites : Descriptor
sites = record {
  gvk = site_kind;
  endpoint = "dcim/sites";
  custom_fieldable = true;
  data_loss_on_delete = false;
  fields = [];
  natural_keys = [];
  deferred = [];
}

-- The site ams has an id, every other site is not there; the slug fra is in NetBox.
abbrev sources : Sources
sources = record {
  go = go;
  kinds = λ gvk. some sites;
  objects = λ node.
      if str_eq node.name "ams"
      then present (record {
        deleting = false;
        id = some 7;
        conditions =
            some (
              some (record { type_name = "Ready"; status = "False"; reason = "RefNotReady" }) ∷ []);
      })
      else absent;
  grants = none;
  get_one = λ endpoint params. single (("id", whole 9) ∷ []);
  get_by_id = λ endpoint id. ok none;
}

abbrev device : RefNode
device = record {
  gvk = record { group = "netbox.kubeforge.org"; version = "v1alpha1"; kind = "NetBoxDevice" };
  namespace = "team-a";
  name = "sw1";
}

abbrev site_field : RefField
site_field = record {
  field = record { spec = "siteRefs"; api = "sites"; target = site_kind };
  empty_is_null = false;
  to_many = true;
}

abbrev named : String → ObjectRef
named name = record { name = name; namespace = ""; slug = ""; lookup = []; id = none }

abbrev by_slug : ObjectRef
by_slug = record { name = ""; namespace = ""; slug = "fra"; lookup = []; id = none }

abbrev request : Request
request = record { referrer = device; field = site_field; ref = named "ams" }

opened : Sources → Request → Result Unresolved Resolved
unfolding resolve by_name readiness_of readiness_in target_failures resolve_fields resolve_elements
    classify_cause requeue_from mode_of node_eq permits put contains gvk_eq as_int lookup
opened = resolve

resolve-Bound_example : (Gives 7 (resolve sources request)) ↔ Bound request sources 7
unfolding opened
resolve-Bound_example = resolve-Bound request sources 7 refl

resolve_run : Gives 7 (resolve sources request)
unfolding opened
resolve_run = refl

abbrev both : List Declared
both = (record { field = site_field; refs = named "ams" ∷ by_slug ∷ [] }) ∷ []

abbrev resolution : Resolution
resolution = record {
  by_field =
      (
        "siteRefs",
        (record {
          id = 7;
          mode = mode_name;
          target = some (record { gvk = site_kind; namespace = "team-a"; name = "ams" });
          target_not_ready = true;
        })
            ∷ (record { id = 9; mode = mode_slug; target = none; target_not_ready = false })
            ∷ [],
      )
      ∷ [];
  blocked = [];
}

resolve_fields-Whole_example :
    All (WholeIn sources device both) resolution.by_field
    × (resolution.blocked ≡ []
        → All
            (λ (d : Declared).
              Any
                (λ (entry : String × List Resolved). entry.0 ≡ d.field.field.spec)
                resolution.by_field)
            both)
unfolding opened
resolve_fields-Whole_example = resolve_fields-Whole sources device both resolution refl

abbrev scope : GenericFkSpec
scope = record {
  allowed_types = "dcim.site" ∷ [];
  members = (record { spec = "siteRef"; target = site_kind }) ∷ [];
}

abbrev scoped : GenericRequest
scoped = record {
  referrer = device;
  pair = scope;
  path = "scope";
  union = ("siteRef", by_slug) ∷ [];
}

abbrev fra : Resolved
fra = record { id = 9; mode = mode_slug; target = none; target_not_ready = false }

scope_run : resolve_generic sources (λ kind. "dcim.site") scoped ≡ ok fra
unfolding opened resolve_generic member_for
scope_run = refl
