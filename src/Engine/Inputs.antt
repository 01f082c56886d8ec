-- ===== src/Engine/Inputs.antt =====
-- internal/reconciler/generic.go: what one pass over an object reads, and what it does.
use netbox_operator.Common.{ℕ, String, Bool, Option, List, str_eq, if◌then◌else◌, ◌||◌}
use netbox_operator.Common.Result.{Result}
use netbox_operator.Json.{Object, Go}
use netbox_operator.Drift.{FieldRules}
use netbox_operator.Errors.{Failure}
use netbox_operator.Errors.Client.{NetboxError}
use netbox_operator.Provenance.{Stamp, Owner}
use netbox_operator.Registry.{Descriptor}

abbrev pub Params : Type 0
Params = List (String × String)

-- What GetOne answers: no object, one, several with the error of an ambiguous match, or another error.
pub data Search : Type 0 where
  nothing : Search
  single : Object → Search
  several : List Object → Search
  search_failed : NetboxError → Search

-- The client of the endpoint. A write answers with the body of the response, if it has one.
pub record Client : Type 0 where
  pub get_by_id : ℕ → Result NetboxError (Option Object)
  pub get_one : Params → Search
  pub create : Object → Result NetboxError (Option Object)
  pub patch : ℕ → Object → Result NetboxError (Option Object)
  pub delete : ℕ → Result NetboxError (Option Object)

-- status.id, 0 for none, and the fields beside it that a pass writes.
pub record Status : Type 0 where
  pub id : ℕ
  pub adopted : Bool
  pub deferred_pending : List String

-- A read past the cache: none is wired, it fails, or it has the id and whether it was adopted.
pub data LiveStatus : Type 0 where
  not_wired unreadable : LiveStatus
  live_status : ℕ → Bool → LiveStatus

-- A pass over an object whose references are resolved. `spec` has the decoded fields of the spec,
-- `desired` the payload that was built, and `rules` what fieldRules says of the kind.
pub record Setting : Type 0 where
  pub go : Go
  pub to_lower : String → String
  pub trim : String → String
  pub format_number : ℕ → String
  pub desc : Descriptor
  pub rules : FieldRules
  pub taggable : Bool
  pub recreates : Bool
  pub recreate_on : List String
  pub allows_duplicate : Bool
  pub generated_child : Bool
  pub uid : String
  pub owner : Owner
  pub on_conflict : String
  pub deletion_policy : String
  pub spec : Object
  pub declared : List String
  pub resolved : List String
  pub desired : Object
  pub provenance : Stamp
  pub client : Client
  pub reader : LiveStatus

-- The calls of the client that write.
pub data Write : Type 0 where
  created : Object → Write
  patched : ℕ → Object → Write
  deleted : ℕ → Write

-- How a pass ends: with an error that is recorded, with one that is returned, or in step with NetBox
-- as far as the endpoint lets it write.
pub data End : Type 0 where
  stopped : Failure → End
  returned unchanged suppressed wrote : End

pub record Pass : Type 0 where
  pub status : Status
  pub writes : List Write
  pub end : End

-- policyOf and adopts
abbrev pub policy_of : Setting → String
policy_of p = if str_eq p.on_conflict "" then "Fail" else p.on_conflict

unfoldable pub adopts : Setting → Bool
adopts p = str_eq (policy_of p) "Adopt" || str_eq (policy_of p) "AdoptOnly"
