-- ===== src/Engine/Tests.antt =====
-- Runs of a pass at concrete inputs, and its theorems at such inputs.
use mathlib.Core.Path.{subst}
use netbox_operator.Common.{
  String, true, false, none, some, [], ◌∷◌, ◌≡◌, refl, sym, ◌∙◌, inl, inr, All, lookup, put, delete,
  contains, str_eq, eq_iff, if◌then◌else◌, ◌==◌, ◌*◌, ◌^◌, arith, Bool-cases, lookup-miss,
}
use netbox_operator.Common.Result.{ok, err}
use netbox_operator.Json.{
  Json, whole, text, Object, Go, get, float_eq, is_nan, is_zero, as_int, to_float, unwrap_nested,
  items_of, members_of,
}
use netbox_operator.Drift.{
  FieldRules, scalar_equal, bool_equal, field_equal, pair_changes, generic_fk_change, handled,
  field_changes, insert_change, sort_changes, changes, payload_of,
}
use netbox_operator.Drift.Answered.{Answers}
use netbox_operator.Client.{suppressed}
use netbox_operator.Errors.{refused_adoption}
use netbox_operator.Errors.Client.{not_found, validation}
use netbox_operator.Provenance.{Stamp, stamp_applicable, enabled}
use netbox_operator.Registry.{Descriptor, NaturalKey}
use netbox_operator.Engine.{
  reconcile, create, claim, update, owns_match, apply_write, ends, record_deferred,
}
use netbox_operator.Engine.Inputs.{
  single, Client, Status, live_status, Setting, patched, Pass, adopts, unchanged, stopped,
}
use netbox_operator.Engine.Stamping.{stamp, stamped_mine, stamp_identifies}
use netbox_operator.Engine.Lookup.{
  Match, locate, lookup_object, candidates, applicable, all_resolved, none_declared,
  search_candidates, duplicate, params_of, match_params, null_params, filter_value,
}
use netbox_operator.Engine.Deferral.{strip, delete_all, writer_of, new_deferral, pending}
use netbox_operator.Engine.Own.{OnOwn, reconcile-OnOwn}
use netbox_operator.Engine.Orderly.{Orderly}
use netbox_operator.Engine.Quiet.{reconcile-settled}
use netbox_operator.Engine.Finish.{
  Writers, Concluded, stale, sooner, record_new, new_id_of, finish, jitter,
}
use netbox_operator.Engine.Kept.{write_and_finish, write_and_finish-Concluded}

abbrev go : Go
go = record {
  parse_float = λ s. none;
  atoi = λ s. none;
  float_of_int = λ n. n;
  int_of_float = λ b. b;
  sprint = λ v. elim v [ text s ↦ s | _ ↦ "" ];
  marshal = λ v. none;
}

abbrev rules : FieldRules
rules = record {
  m2m = [];
  arrays = [];
  object_type_lists = [];
  json = [];
  generic_fks = [];
  generic_fk_lists = [];
}

abbrev by_slug : NaturalKey
by_slug = record {
  fields = (record { filter = "slug"; spec = "slug"; lookup = "" }) ∷ [];
  null_fields = [];
}

abbrev sites : Descriptor
sites = record {
  gvk = record { group = "netbox.kubeforge.org"; version = "v1alpha1"; kind = "NetBoxSite" };
  endpoint = "dcim/sites";
  custom_fieldable = false;
  data_loss_on_delete = false;
  fields = [];
  natural_keys = by_slug ∷ [];
  deferred = [];
}

abbrev no_stamp : Stamp
no_stamp = record {
  cluster_id = "";
  tag_id = 0;
  uid_field = "";
  cluster_field = "";
  owner_field = "";
  fields = [];
}

-- The site of the slug is object 7, which has another name at first.
abbrev live : Object
live = ("id", whole 7) ∷ ("slug", text "ams") ∷ ("name", text "old") ∷ []

abbrev later : Object
later = ("id", whole 7) ∷ ("slug", text "ams") ∷ ("name", text "Amsterdam") ∷ []

abbrev netbox : Object → Client
netbox site = record {
  get_by_id = λ id. if id == 7 then ok (some site) else err not_found;
  get_one = λ params. single site;
  create = λ payload. err (validation 400);
  patch = λ id payload. ok (some later);
  delete = λ id. err (validation 400);
}

abbrev desired : Object
desired = ("slug", text "ams") ∷ ("name", text "Amsterdam") ∷ []

abbrev site_pass : Object → String → Setting
site_pass site on_conflict = record {
  go = go;
  to_lower = λ s. s;
  trim = λ s. s;
  format_number = λ b. "";
  desc = sites;
  rules = rules;
  taggable = false;
  recreates = false;
  recreate_on = [];
  allows_duplicate = false;
  generated_child = false;
  uid = "u-1";
  owner = record { kind = "netboxsite"; namespace = "team-a"; name = "ams"; uid = "u-1" };
  on_conflict = on_conflict;
  deletion_policy = "";
  spec = ("slug", text "ams") ∷ [];
  declared = "slug" ∷ [];
  resolved = "slug" ∷ [];
  desired = desired;
  provenance = no_stamp;
  client = netbox site;
  reader = live_status 0 false;
}

abbrev unknown : Status
unknown = record { id = 0; adopted = false; deferred_pending = [] }

abbrev known : Status
known = record { id = 7; adopted = true; deferred_pending = [] }

opened : Setting → Status → Pass
unfolding reconcile create claim update owns_match apply_write adopts locate lookup_object
    candidates applicable all_resolved none_declared search_candidates duplicate params_of
    match_params null_params filter_value stamp stamped_mine stamp_identifies strip delete_all
    writer_of new_deferral pending lookup put delete contains scalar_equal bool_equal field_equal
    pair_changes generic_fk_change handled field_changes insert_change sort_changes changes
    payload_of float_eq is_nan is_zero as_int to_float unwrap_nested items_of members_of suppressed
    stamp_applicable enabled
opened = reconcile

adopt_run :
    (opened (site_pass live "Adopt") unknown).writes
    ≡ patched 7 (("name", text "Amsterdam") ∷ []) ∷ []
unfolding opened
adopt_run = refl

fail_run : (opened (site_pass live "") unknown).end ≡ stopped refused_adoption
unfolding opened
fail_run = refl

reconcile-OnOwn_example :
    All (OnOwn (site_pass live "Adopt") unknown) (reconcile (site_pass live "Adopt") unknown).writes
reconcile-OnOwn_example = reconcile-OnOwn (site_pass live "Adopt") unknown

abbrev found : Match
found = record { live = some live; by_natural_key = true; status = unknown }

-- A field is the key or another one.
at_key :
    (P : String → Type 0) (key field : String)
    → P key
    → (str_eq key field ≡ false → P field)
    → P field
at_key P key field h f = elim (Bool-cases (str_eq key field)) [
  | inl t ↦ subst P ((eq_iff key field).0 t) h
  | inr t ↦ f t
]

abbrev Answered : String → Type 0
Answered field =
    Answers go rules live later field (lookup field (payload_of (changes go live desired rules)))

absent :
    (field : String) (a b c : Json)
    → str_eq "id" field ≡ false
    → str_eq "slug" field ≡ false
    → str_eq "name" field ≡ false
    → lookup field (("id", a) ∷ ("slug", b) ∷ ("name", c) ∷ []) ≡ none
unfolding lookup
absent field a b c e f g =
    lookup-miss field "id" a (("slug", b) ∷ ("name", c) ∷ []) e
    ∙ lookup-miss field "slug" b (("name", c) ∷ []) f
    ∙ lookup-miss field "name" c [] g

answered : (field : String) → Answered field
unfolding opened
answered field = at_key Answered "name" field refl (λ a. at_key Answered "slug" field refl (λ b.
    at_key Answered "id" field refl (λ c.
      let same : get later field ≡ get live field =
        rw (absent field (whole 7) (text "ams") (text "Amsterdam") c b a)
          (rw (absent field (whole 7) (text "ams") (text "old") c b a) refl) in
      let kept : lookup field (payload_of (changes go live desired rules)) ≡ none =
        lookup-miss field "name" (text "Amsterdam") [] a in
      subst (Answers go rules live later field) (sym kept) same)))

reconcile-settled_example :
    reconcile (site_pass later "Adopt") known
    ≡ ends (record_deferred (site_pass later "Adopt") (some later) desired known) unchanged
unfolding opened
reconcile-settled_example =
    reconcile-settled (site_pass later "Adopt") known live later (λ e. ground (arith, e)) refl refl
      (refl, (refl, tt)) answered

-- Another write of the status came first, and the id is recorded on its own.
abbrev overtaken : Writers
overtaken = record { update_status = stale; record_id = some (λ id. true); random = λ bound. 0 }

write_and_finish-Concluded_example : Concluded 0 7 (sooner 600 0) (9 * 10 ^ 8) (
    write_and_finish
      (site_pass live "Adopt")
      (some live)
      desired
      unknown
      (some later)
      overtaken
      0
      7
      false
      600
      0)
unfolding opened finish record_new new_id_of jitter
write_and_finish-Concluded_example =
    write_and_finish-Concluded (site_pass live "Adopt") (some live) desired unknown overtaken
      (λ bound nonzero. omega (arith, nonzero)) (some later) 7 refl refl (λ e. ground (arith, e)) 0
      false 600 0 (9 * 10 ^ 8) refl
