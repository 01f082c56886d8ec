-- ===== src/Deletion/Setting.antt =====
-- The objects that a deletion reads, and what Kubernetes and NetBox answer.
use netbox_operator.Common.{ℕ, String, Bool, Option, List, [], ◌∷◌, str_eq, if◌then◌else◌}
use netbox_operator.Common.Result.{Result}
use netbox_operator.Errors.Client.{NetboxError}
use netbox_operator.Provenance.{Stamp}
use netbox_operator.Registry.{Descriptor}

pub record ChildRef : Type 0 where
  pub kind : String
  pub name : String

-- A custom resource, as far as its deletion reads it. `finalizer`: the operator's finalizer is on.
-- The attempts are an int32 in two's complement, below 2 ^ 32. `deleting` is the reason of the
-- Deleting condition.
pub record Obj : Type 0 where
  pub namespace : String
  pub uid : String
  pub finalizer : Bool
  pub annotations : List (String × String)
  pub deletion_policy : String
  pub endpoint_ref : String
  pub id : ℕ
  pub children : List ChildRef
  pub deletion_attempts : ℕ
  pub last_deletion_attempt : Option ℕ
  pub deleting : Option String

-- A map lookup: a missing key reads as the empty text.
unfoldable pub get_annotation : List (String × String) → String → String
get_annotation [] key = ""
get_annotation ((k, v) ∷ entries) key = if str_eq k key then v else get_annotation entries key

abbrev pub annotation : Obj → String → String
annotation obj key = get_annotation obj.annotations key

-- A ready client. GetOne answers with an object, which may lack an id, or with nil; Delete says
-- whether it sent nothing because of a dry run.
pub record Endpoint : Type 0 where
  pub resync : ℕ
  pub provenance : Stamp
  pub get_one : String → String → Result NetboxError (Option (Option ℕ))
  pub delete : ℕ → Result NetboxError Bool

pub data ChildRead : Type 0 where
  child_present child_gone child_unreadable : ChildRead

pub record Referrer : Type 0 where
  pub name : String
  pub deleting : Bool

pub data CrDelete : Type 0 where
  cr_deleted cr_gone cr_failed : CrDelete

pub record Children : Type 0 where
  pub get : ChildRef → ChildRead
  pub delete : Referrer → CrDelete

-- The collaborators of the engine at the time of one pass, an unwired one as `none`. Referring is
-- `none` where it fails. `update_finalizers` says whether the API server takes the write.
pub record World : Type 0 where
  pub desc : Descriptor
  pub now : ℕ
  pub endpoints : String → String → Option Endpoint
  pub children : Option Children
  pub referrers : Option (Obj → Option (List Referrer))
  pub update_finalizers : Obj → Bool

pub data Event : Type 0 where
  finalizer_skipped retained nothing_found deleted delete_blocked cascade_deleted : Event

-- The calls of a pass that others can see, in their order.
pub data Effect : Type 0 where
  netbox_delete : ℕ → Effect
  netbox_search : String → String → Effect
  finalizers_written : Bool → Effect
  normal warning : Event → Effect
  cr_delete : String → Effect

-- `nil_children` is the panic of a cascade for which no ChildWriter is wired.
pub data PassError : Type 0 where
  finalizers_refused referrers_failed nil_children not_configured : PassError
  cascade_failed : String → PassError

-- An empty result, an error, or the requeue that goes with the status write of `finish`.
pub data Answer : Type 0 where
  done : Answer
  requeued : ℕ → Answer
  failed : PassError → Answer

pub record Pass : Type 0 where
  pub obj : Obj
  pub effects : List Effect
  pub answer : Answer
