-- ===== src/Resolve.antt =====
-- internal/resolver/resolver.go, errors.go: how a reference becomes the id of a NetBox object. `Bound`
-- has when a name resolves, `Whole` what a field of references resolves to.
pub mod Bound
pub mod Whole
pub mod Generic
mod Tests
use netbox_operator.Common.{
  ℕ, zero, suc, ◌+◌, ◌*◌, ◌^◌, String, Bool, true, false, not, ◌&&◌, ◌||◌, Option, none, some, List,
  [], ◌∷◌, ◌++◌, ◌==◌, ltb, put, contains, str_eq, if◌then◌else◌,
}
use netbox_operator.Common.Result.{Result, ok, err}
use netbox_operator.Json.{Object, Go, object_id}
use netbox_operator.Grants.{GrantReader, GrantError, permits}
use netbox_operator.Registry.{Gvk, gvk_eq, Field, Descriptor}
use netbox_operator.Cycle.{
  RefNode, node_eq, ObjectRef, Mode, mode_name, mode_slug, mode_lookup, mode_id, mode_none, mode_of,
  is_name,
}
use netbox_operator.Errors.Client.{NetboxError, not_found}
use netbox_operator.Engine.Inputs.{Params, Search, nothing, single, several, search_failed}

-- A field with a reference class, as far as the resolver reads it.
pub record RefField : Type 0 where
  pub field : Field
  pub empty_is_null : Bool
  pub to_many : Bool

-- The causes of errors.go.
pub data Cause : Type 0 where
  ref_not_found ref_not_ready ref_target_failed ref_ambiguous ref_denied ref_cycle : Cause
  ref_depth_exceeded ref_kind_unavailable ref_malformed ref_type_not_allowed : Cause

-- Error, without what only its text has.
pub record RefError : Type 0 where
  pub cause : Cause
  pub field : String
  pub mode : Mode
  pub index : Option ℕ

-- A reference that is not resolved yet, or an error of another kind.
pub data Unresolved : Type 0 where
  blocked : RefError → Unresolved
  failed : Unresolved
  unavailable : NetboxError → Unresolved

-- A condition of a status; what is no text reads as the empty one. An entry of the list that is no
-- object is `none`.
pub record Condition : Type 0 where
  pub type_name : String
  pub status : String
  pub reason : String

-- A custom resource as it is referred to: an id or conditions of another shape are `none`.
pub record Target : Type 0 where
  pub deleting : Bool
  pub id : Option ℕ
  pub conditions : Option (List (Option Condition))

pub data TargetRead : Type 0 where
  present : Target → TargetRead
  absent no_kind unreadable : TargetRead

-- What a resolver reads: the registry, the cluster, the grants, and NetBox.
pub record Sources : Type 0 where
  pub go : Go
  pub kinds : Gvk → Option Descriptor
  pub objects : RefNode → TargetRead
  pub grants : Option GrantReader
  pub get_one : String → Params → Search
  pub get_by_id : String → ℕ → Result NetboxError (Option Object)

pub record Request : Type 0 where
  pub referrer : RefNode
  pub field : RefField
  pub ref : ObjectRef

-- Result, without the kind of the object and the uid; a target is there in the mode of names.
pub record Resolved : Type 0 where
  pub id : ℕ
  pub mode : Mode
  pub target : Option RefNode
  pub target_not_ready : Bool

abbrev pub block : Request → Cause → Unresolved
block req cause =
    blocked
      (record { cause = cause; field = req.field.field.spec; mode = mode_of req.ref; index = none })

pub target_failures : List String
target_failures = "Conflict" ∷ "AdoptOnly" ∷ "Invalid" ∷ []

-- The first Ready condition, if it is not True: its reason.
abbrev pub reason_of : Condition → Option String
reason_of c = if str_eq c.status "True" then none else some c.reason

pub readiness_in : List (Option Condition) → Option String
readiness_in [] = none
readiness_in (none ∷ cs) = readiness_in cs
readiness_in (some c ∷ cs) =
    let rest = readiness_in cs in if not (str_eq c.type_name "Ready") then rest else reason_of c

abbrev pub conditions_of : Option (List (Option Condition)) → List (Option Condition)
conditions_of none = []
conditions_of (some cs) = cs

pub readiness_of : Target → Option String
readiness_of t = readiness_in (conditions_of t.conditions)

abbrev pub key_of : Request → RefNode
key_of req = record {
  gvk = req.field.field.target;
  namespace = if str_eq req.ref.namespace "" then req.referrer.namespace else req.ref.namespace;
  name = req.ref.name;
}

abbrev pub with_id : Request → ℕ → Option String → Result Unresolved Resolved
with_id req id none =
    ok (record { id = id; mode = mode_name; target = some (key_of req); target_not_ready = false })
with_id req id (some reason) =
    if contains target_failures reason
    then err (block req ref_target_failed)
    else ok
        (record { id = id; mode = mode_name; target = some (key_of req); target_not_ready = true })

abbrev pub with_status : Request → Option ℕ → Option String → Result Unresolved Resolved
with_status req none state = err (block req ref_not_ready)
with_status req (some id) state =
    if id == 0 then err (block req ref_not_ready) else with_id req id state

abbrev pub target_read : Request → TargetRead → Result Unresolved Resolved
target_read req absent = err (block req ref_not_found)
target_read req no_kind = err (block req ref_kind_unavailable)
target_read req unreadable = err failed
target_read req (present t) =
    if t.deleting then err (block req ref_not_ready) else with_status req t.id (readiness_of t)

abbrev pub authorised :
    Request → Result GrantError Bool → Result Unresolved Resolved → Result Unresolved Resolved
authorised req (err e) rest = err failed
authorised req (ok true) rest = rest
authorised req (ok false) rest = err (block req ref_denied)

abbrev pub plain : Mode → ℕ → Resolved
plain mode id = record { id = id; mode = mode; target = none; target_not_ready = false }

abbrev pub query_id : Mode → Option ℕ → Result Unresolved Resolved
query_id mode none = err failed
query_id mode (some id) = ok (plain mode id)

abbrev pub or_zero : Option ℕ → ℕ
or_zero none = 0
or_zero (some id) = id

abbrev pub answered_id : Request → Result NetboxError (Option Object) → Result Unresolved Resolved
answered_id req (err not_found) = err (block req ref_not_found)
answered_id req (err e) = err (unavailable e)
answered_id req (ok none) = err (block req ref_not_found)
answered_id req (ok (some live)) = ok (plain mode_id (or_zero req.ref.id))

module _ (s : Sources) where
  pub by_name : Request → Result Unresolved Resolved
  by_name req =
      let key = key_of req in
      if node_eq key req.referrer
      then err (block req ref_cycle)
      else authorised req
          (permits s.grants req.referrer.namespace key.gvk.kind key.namespace key.name)
          (target_read req (s.objects key))

  abbrev pub searched : Request → Mode → Search → Result Unresolved Resolved
  searched req mode nothing = err (block req ref_not_found)
  searched req mode (single live) = query_id mode (object_id s.go live)
  searched req mode (several matches) = err (block req ref_ambiguous)
  searched req mode (search_failed e) = err (unavailable e)

  abbrev pub by_query : Request → Descriptor → Mode → Params → Result Unresolved Resolved
  by_query req target mode params = searched req mode (s.get_one target.endpoint params)

  abbrev pub by_id : Request → Descriptor → Result Unresolved Resolved
  by_id req target = answered_id req (s.get_by_id target.endpoint (or_zero req.ref.id))

  abbrev pub by_mode : Request → Descriptor → Mode → Result Unresolved Resolved
  by_mode req target mode_name = by_name req
  by_mode req target mode_slug = by_query req target mode_slug (("slug", req.ref.slug) ∷ [])
  by_mode req target mode_lookup = by_query req target mode_lookup req.ref.lookup
  by_mode req target mode_id = by_id req target
  by_mode req target mode_none = err (block req ref_malformed)

  abbrev pub of_kind : Request → Option Descriptor → Result Unresolved Resolved
  of_kind req none = err (block req ref_kind_unavailable)
  of_kind req (some target) = by_mode req target (mode_of req.ref)

  abbrev pub is_none : Mode → Bool
  is_none mode_none = true
  is_none _ = false

  pub resolve : Request → Result Unresolved Resolved
  resolve req =
      if is_none (mode_of req.ref) && req.field.empty_is_null && not req.field.to_many
      then ok (plain mode_none 0)
      else of_kind req (s.kinds req.field.field.target)

-- A duration is a number of nanoseconds.
abbrev pub netbox_retry : ℕ
netbox_retry = 60 * 10 ^ 9

abbrev pub human_retry : ℕ
human_retry = 600 * 10 ^ 9

abbrev pub not_found_retry : Mode → ℕ
not_found_retry mode = if is_name mode then 0 else netbox_retry

-- Classify: the reason of a blocked reference, and after which time it is tried again, 0 for none.
pub classify_cause : Cause → Mode → String × ℕ
classify_cause ref_not_ready mode = ("RefNotReady", 0)
classify_cause ref_target_failed mode = ("RefTargetFailed", 0)
classify_cause ref_not_found mode = ("RefNotFound", not_found_retry mode)
classify_cause ref_ambiguous mode = ("RefAmbiguous", human_retry)
classify_cause ref_denied mode = ("RefDenied", 0)
classify_cause ref_cycle mode = ("RefCycle", 0)
classify_cause ref_depth_exceeded mode = ("RefDepthExceeded", 0)
classify_cause ref_kind_unavailable mode = ("RefKindUnavailable", human_retry)
classify_cause ref_type_not_allowed mode = ("RefTypeNotAllowed", 0)
classify_cause ref_malformed mode = ("Invalid", 0)

pub record Blocker : Type 0 where
  pub field : String
  pub reason : String
  pub requeue : ℕ
  pub error : RefError

abbrev pub blocker_for : RefError → Blocker
blocker_for e =
    let outcome = classify_cause e.cause e.mode in
    record { field = e.field; reason = outcome.0; requeue = outcome.1; error = e }

abbrev pub at_element : RefError → Bool → ℕ → RefError
at_element e to_many index = record {
  cause = e.cause;
  field = e.field;
  mode = e.mode;
  index = if to_many then some index else e.index;
}

-- fieldRefs
pub record Declared : Type 0 where
  pub field : RefField
  pub refs : List ObjectRef

pub record Resolution : Type 0 where
  pub by_field : List (String × List Resolved)
  pub blocked : List Blocker

-- The shortest wait of the blockers that ask for one.
abbrev pub soonest : ℕ → ℕ → ℕ
soonest so_far wait =
    if wait == 0 then so_far else if so_far == 0 || ltb wait so_far then wait else so_far

pub requeue_from : ℕ → List Blocker → ℕ
requeue_from so_far [] = so_far
requeue_from so_far (b ∷ bs) = requeue_from (soonest so_far b.requeue) bs

abbrev pub requeue : Resolution → ℕ
requeue r = requeue_from 0 r.blocked

abbrev pub Elements : Type 0
Elements = Option (List Resolved × List Blocker)

abbrev pub add_element : Bool → ℕ → Result Unresolved Resolved → Elements → Elements
add_element to_many index (err failed) rest = none
add_element to_many index (err (unavailable e)) rest = none
add_element to_many index _ none = none
add_element to_many index (ok r) (some (resolved, blockers)) = some (r ∷ resolved, blockers)
add_element to_many index (err (blocked e)) (some (resolved, blockers)) =
    some (resolved, blocker_for (at_element e to_many index) ∷ blockers)

module _ (s : Sources) (referrer : RefNode) where
  abbrev pub request_of : RefField → ObjectRef → Request
  request_of field ref = record { referrer = referrer; field = field; ref = ref }

  -- The loop over the elements of a field, from the number `index` on; `none` is an error.
  pub resolve_elements : RefField → ℕ → List ObjectRef → Elements
  resolve_elements field index [] = some ([], [])
  resolve_elements field index (ref ∷ refs) =
      add_element field.to_many index (resolve s (request_of field ref))
        (resolve_elements field (suc index) refs)

  abbrev pub resolve_field : Declared → Elements
  resolve_field d = resolve_elements d.field 0 d.refs

  abbrev pub with_field :
      String → Elements → Resolution → (Resolution → Option Resolution) → Option Resolution
  with_field spec none so_far rest = none
  with_field spec (some (resolved, [])) so_far rest =
      rest (record { by_field = put spec resolved so_far.by_field; blocked = so_far.blocked })
  with_field spec (some (resolved, b ∷ bs)) so_far rest =
      rest (record { by_field = so_far.by_field; blocked = so_far.blocked ++ (b ∷ bs) })

  -- The loop of ResolveAll over the references of an object.
  pub resolve_fields : List Declared → Resolution → Option Resolution
  resolve_fields [] so_far = some so_far
  resolve_fields (d ∷ ds) so_far =
      with_field d.field.field.spec (resolve_field d) so_far (resolve_fields ds)
