-- ===== src/Claims/Inputs.antt =====
-- internal/reconciler/claim.go: what one pass over a claim reads, and what it does.
use netbox_operator.Common.{ℕ, String, Bool, Option, List}
use netbox_operator.Common.Result.{Result}
use netbox_operator.Json.{Json, Object, Go}
use netbox_operator.Cycle.{ObjectRef}
use netbox_operator.Errors.{Failure}
use netbox_operator.Errors.Client.{NetboxError}
use netbox_operator.Engine.Inputs.{Params, Search}
use netbox_operator.Engine.Finish.{StatusWrite}
use netbox_operator.Placement.Netip.{Addr, Prefix}
use netbox_operator.Provenance.{Stamp}
use netbox_operator.Registry.{Gvk, Field, Descriptor}
use netbox_operator.Resolve.{RefField, RefError, Request, Resolved, Unresolved}

-- A condition without its message; `holds` is the status True.
pub record ClaimCondition : Type 0 where
  pub holds : Bool
  pub reason : String

pub record AllocationPool : Type 0 where
  pub display : String
  pub endpoint : String
  pub id : ℕ

-- NetBoxClaimStatus without the report of the stamp; an id of 0 is none, and the attempts are an
-- int32 in two's complement.
pub record ClaimStatus : Type 0 where
  pub observed_generation : ℕ
  pub netbox_id : ℕ
  pub allocation_identity : String
  pub claim_uid : String
  pub allocated_at : Option ℕ
  pub last_verified_at : Option ℕ
  pub allocation_pool : Option AllocationPool
  pub url : String
  pub conditions : List (String × ClaimCondition)
  pub deletion_attempts : ℕ
  pub last_deletion_attempt : Option ℕ

-- A field of the encoded spec, as an ObjectRef and as any value; `none` where it does not decode.
pub record SpecField : Type 0 where
  pub as_ref : Option ObjectRef
  pub as_value : Option Json

-- A claim. `deleting`: the deletion timestamp is set; `finalizer`: the operator's finalizer is on.
-- `spec` is `none` where it does not encode, and `allocated` the address or prefix that it holds.
pub record Claim : Type 0 where
  pub namespace : String
  pub name : String
  pub uid : String
  pub generation : ℕ
  pub deleting : Bool
  pub finalizer : Bool
  pub annotations : List (String × String)
  pub endpoint_ref : String
  pub deletion_policy : String
  pub explicit_identity : String
  pub spec : Option (List (String × SpecField))
  pub allocated : String
  pub status : ClaimStatus

pub record ClaimDescriptor : Type 0 where
  pub gvk : Gvk
  pub endpoint : String
  pub pool : RefField
  pub pool_value_field : String
  pub pool_sub_path : String
  pub pool_must_not_be_true : List String
  pub pool_forbidden_status : List String
  pub pool_expected_status : List String
  pub request_length_field : String
  pub result_field : String
  pub request_fields : List Field
  pub taggable : Bool
  pub custom_fieldable : Bool

-- The reads and the delete of the endpoint of the kind, but for `get_by_id`, which also names the
-- endpoint; `reread` is the same call after an allocation. A nil object of Delete has no fields.
pub record ClaimClient : Type 0 where
  pub get_one : Params → Search
  pub get_by_id : String → ℕ → Result NetboxError (Option Object)
  pub reread : ℕ → Result NetboxError (Option Object)
  pub delete : ℕ → Result NetboxError Object

-- Allocate takes the endpoint and the id of the pool, the sub-path and the payload.
pub record Allocator : Type 0 where
  pub url : String
  pub allocate : String → ℕ → String → Object → Result NetboxError Object

-- A ready endpoint; it has a client.
pub record ClaimEndpoint : Type 0 where
  pub resync : ℕ
  pub provenance : Stamp
  pub allocation_identity_field : String
  pub drift_mode : String
  pub client : ClaimClient
  pub allocator : Option Allocator

-- What the engine and its collaborators answer at the time of one pass, an unwired one as `none`.
-- `digest` is the first 16 characters of the SHA-256 in hexadecimal, `random` is rand.Int64N, and
-- `same_status` compares two statuses, their messages included.
pub record World : Type 0 where
  pub go : Go
  pub to_lower : String → String
  pub trim : String → String
  pub digest : String → String
  pub parse_prefix : String → Option Prefix
  pub parse_addr : String → Option Addr
  pub now : ℕ
  pub random : ℕ → ℕ
  pub desc : Option ClaimDescriptor
  pub pools : Gvk → Option Descriptor
  pub refs : Option (Request → Result Unresolved Resolved)
  pub endpoints : String → String → Option ClaimEndpoint
  pub finalizers : Option (Claim → Bool)
  pub update_status : Claim → StatusWrite
  pub same_status : ClaimStatus → ClaimStatus → Bool

pub record Refusal : Type 0 where
  pub reason : String
  pub event : String

-- The errors of a pass: a refusal, errUnverified, a reference that is not resolved, or an error of
-- the engine's own table.
pub data ClaimFailure : Type 0 where
  refusal : Refusal → ClaimFailure
  unverified : ClaimFailure
  pool_blocked : RefError → ClaimFailure
  engine : Failure → ClaimFailure

-- The calls of a pass that change something or that others see, in their order.
pub data ClaimEffect : Type 0 where
  posted : String → ℕ → String → Object → ClaimEffect
  deleted : ℕ → ClaimEffect
  finalizers_written : Bool → ClaimEffect
  normal warning : String → ClaimEffect

-- `nil_finalizers` is the panic of a release for which no FinalizerWriter is wired.
pub data ClaimError : Type 0 where
  no_descriptor not_configured no_allocator : ClaimError
  finalizers_refused nil_finalizers status_refused : ClaimError

pub data ClaimAnswer : Type 0 where
  done : ClaimAnswer
  requeued : ℕ → ClaimAnswer
  failed : ClaimError → ClaimAnswer

-- `saved`: the status of the claim was written.
pub record ClaimPass : Type 0 where
  pub claim : Claim
  pub effects : List ClaimEffect
  pub saved : Bool
  pub answer : ClaimAnswer
