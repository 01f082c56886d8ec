-- ===== src/Claims/Pool.antt =====
-- internal/reconciler/claim.go: the allocation identity of a claim, its pool, and the guards on both.
use Prim.Native.String.{◌++◌ as str_append}
use netbox_operator.Common.{
  ℕ, ◌^◌, String, Bool, true, false, not, ◌&&◌, ◌||◌, Option, none, some, List, [], ◌∷◌, ltb, leb,
  str_eq, contains, lookup, put, if◌then◌else◌,
}
use netbox_operator.Common.Result.{Result, ok, err, ◌>>=◌}
use netbox_operator.Json.{
  Json, boolean, Object, get, as_string, choice_of, as_int, set_custom_field, null,
}
use netbox_operator.Cycle.{ObjectRef}
use netbox_operator.Engine.Inputs.{Params, Search, nothing, single, several, search_failed}
use netbox_operator.Engine.Stamping.{merge_tags, put_stamp, tags_field}
use netbox_operator.Errors.{client, unclassified, unmapped_field}
use netbox_operator.Errors.Client.{NetboxError, not_found, ambiguous}
use netbox_operator.Placement.Netip.{Prefix, prefix_contains}
use netbox_operator.Provenance.{Owner, stamp_applicable, custom_fields}
use netbox_operator.Registry.{Field}
use netbox_operator.Resolve.{
  Request, Resolved, Unresolved, blocked, failed as unresolved, unavailable,
}
use package.netbox_operator.Claims.Inputs.{
  SpecField, Claim, ClaimDescriptor, ClaimEndpoint, Allocator, World, ClaimFailure, refusal,
  pool_blocked, engine,
}

-- A pool: the endpoint and the id of its object, its network and the text of it.
pub record Pool : Type 0 where
  pub endpoint : String
  pub id : ℕ
  pub cidr : Prefix
  pub display : String

abbrev pub refuse : String → String → ClaimFailure
refuse reason event = refusal (record { reason = reason; event = event })

-- The text that AllocationIdentity hashes.
unfoldable pub identity_text : String → String → String → String → String
identity_text url namespace kind name = str_append url (
    str_append "\n"
      (str_append namespace (str_append "\n" (str_append kind (str_append "\n" name)))))

abbrev pub not_found_or : Option SpecField → Result ClaimFailure ObjectRef
not_found_or none = err (engine unmapped_field)
not_found_or (some field) = elim field.as_ref [
  | none ↦ err (engine unclassified)
  | some ref ↦ ok ref
]

unfoldable pub pool_ref :
    String → Option (List (String × SpecField)) → Result ClaimFailure ObjectRef
pool_ref name none = err (engine unclassified)
pool_ref name (some spec) = not_found_or (lookup name spec)

abbrev pub or_unresolved : Result Unresolved Resolved → Result ClaimFailure Resolved
or_unresolved (ok r) = ok r
or_unresolved (err (blocked e)) = err (pool_blocked e)
or_unresolved (err unresolved) = err (engine unclassified)
or_unresolved (err (unavailable e)) = err (engine (client e))

abbrev pub netbox {ℓ} : {A : Type ℓ} → Result NetboxError A → Result ClaimFailure A
netbox (ok a) = ok a
netbox (err e) = err (engine (client e))

abbrev pub wired {ℓ} : {A : Type ℓ} → Option A → Result ClaimFailure A
wired (some a) = ok a
wired none = err (engine unclassified)

-- The loop over PoolMustNotBeTrue.
abbrev pub is_set : Json → Bool
is_set (boolean b) = b
is_set _ = false

unfoldable pub flagged : Object → List String → Bool
flagged live [] = false
flagged live (flag ∷ flags) = is_set (get live flag) || flagged live flags

abbrev pub bad_pool : ClaimFailure
bad_pool = refuse "PoolNotAllocatable" "PoolNotAllocatable"

unfoldable pub found_in : Search → Result ClaimFailure (Option Object)
found_in nothing = ok none
found_in (single live) = ok (some live)
found_in (several matches) = err (refuse "AllocationConflict" "AllocationConflict")
found_in (search_failed ambiguous) = err (refuse "AllocationConflict" "AllocationConflict")
found_in (search_failed e) = err (engine (client e))

-- The loop of requestFields over the fields of the spec.
abbrev pub request_value : String → Option SpecField → Object → Result ClaimFailure Object
request_value api none payload = ok payload
request_value api (some field) payload = elim field.as_value [
  | none ↦ err (engine unclassified)
  | some value ↦ ok (put api value payload)
]

unfoldable pub put_fields :
    List (String × SpecField) → List Field → Object → Result ClaimFailure Object
put_fields spec [] payload = ok payload
put_fields spec (field ∷ fields) payload =
    request_value field.api (lookup field.spec spec) payload >>= put_fields spec fields

abbrev pub put_spec :
    Option (List (String × SpecField)) → List Field → Object → Result ClaimFailure Object
put_spec spec [] payload = ok payload
put_spec none (field ∷ fields) payload = err (engine unclassified)
put_spec (some spec) (field ∷ fields) payload = put_fields spec (field ∷ fields) payload

-- Whether the int in two's complement `a` is greater than the natural number `b`.
abbrev pub int_gt : ℕ → ℕ → Bool
int_gt a b = not (leb (2 ^ 63) a) && ltb b a

module _ (w : World) (d : ClaimDescriptor) (e : ClaimEndpoint) where
  abbrev pub owner : Claim → Owner
  owner c = record { kind = d.gvk.kind; namespace = c.namespace; name = c.name; uid = c.uid }

  abbrev pub storable : Bool
  storable =
      stamp_applicable e.provenance
      && not (str_eq e.allocation_identity_field "")
      && contains e.provenance.fields e.allocation_identity_field

  -- AllocationIdentity.
  abbrev pub derived : Allocator → Claim → String
  derived a c = w.digest (identity_text a.url c.namespace d.gvk.kind c.name)

  -- The identity, and whether the spec names it.
  abbrev pub chosen : Allocator → Claim → Result ClaimFailure (String × Bool)
  chosen a c =
      if not (str_eq c.explicit_identity "")
      then ok (c.explicit_identity, true)
      else ok (derived a c, false)

  unfoldable pub allocation_identity : Allocator → Claim → Result ClaimFailure (String × Bool)
  allocation_identity a c =
      if not storable
      then err (refuse "IdempotencyKeyUnavailable" "AllocationConflict")
      else chosen a c

  abbrev pub parsed_pool : String → ℕ → Object → Option Prefix → Result ClaimFailure (Pool × Object)
  parsed_pool endpoint id live none = err bad_pool
  parsed_pool endpoint id live (some cidr) = ok (
    record {
      endpoint = endpoint;
      id = id;
      cidr = cidr;
      display = as_string (get live d.pool_value_field);
    },
    live,
  )

  unfoldable pub set_pool : String → ℕ → Option Object → Result ClaimFailure (Pool × Object)
  set_pool endpoint id none = err (engine (client not_found))
  set_pool endpoint id (some live) =
      parsed_pool endpoint id live (w.parse_prefix (as_string (get live d.pool_value_field)))

  abbrev pub pool_request : Claim → ObjectRef → Request
  pool_request c ref = record {
    referrer = record { gvk = d.gvk; namespace = c.namespace; name = c.name };
    field = d.pool;
    ref = ref;
  }

  unfoldable pub resolve_pool : Claim → Result ClaimFailure (Pool × Object)
  resolve_pool c = do
    target ← wired (w.pools d.pool.field.target)
    resolve ← wired w.refs
    ref ← pool_ref d.pool.field.spec c.spec
    resolved ← or_unresolved (resolve (pool_request c ref))
    live ← netbox (e.client.get_by_id target.endpoint resolved.id)
    set_pool target.endpoint resolved.id live

  -- Whether the pool may be allocated from.
  unfoldable pub admit_pool : Object → Bool
  admit_pool live =
      not (flagged live d.pool_must_not_be_true)
      && not (contains d.pool_forbidden_status (choice_of (get live "status")))

  abbrev pub expected_status : List String → String → Bool
  expected_status [] status = true
  expected_status (s ∷ ss) status = contains (s ∷ ss) status

  abbrev pub identity_params : String → Params
  identity_params identity = (str_append "cf_" e.allocation_identity_field, identity) ∷ []

  abbrev pub find_by_identity : String → Result ClaimFailure (Option Object)
  find_by_identity identity = found_in (e.client.get_one (identity_params identity))

  unfoldable pub inside_pool : Pool → String → Bool
  inside_pool pool value = elim (w.parse_prefix value) [
    | some prefix ↦ prefix_contains pool.cidr prefix.addr
    | none ↦ elim (w.parse_addr value) [ none ↦ false | some addr ↦ prefix_contains pool.cidr addr ]
  ]

  -- Apply on an empty payload.
  abbrev pub tagged : Object
  tagged =
      if d.taggable then put tags_field (merge_tags w.go null null e.provenance.tag_id) [] else []

  unfoldable pub stamped_payload : Claim → Object
  stamped_payload c =
      if not (stamp_applicable e.provenance) || not (d.taggable || d.custom_fieldable)
      then []
      else if d.custom_fieldable
      then put_stamp (custom_fields w.to_lower w.trim e.provenance (owner c)) tagged
      else tagged

  unfoldable pub payload_of : Claim → String → Result ClaimFailure Object
  payload_of c identity =
      put_spec c.spec d.request_fields
        (set_custom_field (stamped_payload c) e.allocation_identity_field identity)

  abbrev pub admit_length : Pool → Option ℕ → Bool
  admit_length pool none = true
  admit_length pool (some length) =
      not (int_gt length pool.cidr.addr.bits) && int_gt length pool.cidr.length

  unfoldable pub admit_request : Pool → Object → Bool
  admit_request pool payload =
      if str_eq d.request_length_field ""
      then true
      else admit_length pool (as_int w.go (get payload d.request_length_field))
