-- ===== src/Errors.antt =====
-- internal/reconciler/errors.go: what the engine records for a failure and when it tries again.
-- `Client` has the errors of internal/netbox/errors.go and `Table` what holds of the two together.
-- The texts of messages and remedies are left out.
pub mod Client
pub mod Table
use netbox_operator.Common.{
  ℕ, ◌*◌, ◌^◌, String, Bool, true, false, Option, none, some, ltb, if◌then◌else◌,
}
use Client.{
  NetboxError, validation, auth, not_found, protected, rate_limit, transient, ambiguous, truncated,
  contended,
}

-- Durations are numbers of nanoseconds.
abbrev pub second : ℕ
second = 10 ^ 9

abbrev pub endpoint_retry : ℕ
endpoint_retry = 30 * second

abbrev pub transient_retry : ℕ
transient_retry = 30 * second

abbrev pub rate_limit_retry : ℕ
rate_limit_retry = 5 * second

abbrev pub auth_retry : ℕ
auth_retry = 120 * second

abbrev pub vanished_retry : ℕ
vanished_retry = second

abbrev pub truncated_retry : ℕ
truncated_retry = 600 * second

-- The sentinels and error types of the engine; errors.As and errors.Is look through the wrappers of
-- an error, so it is the error at the bottom that counts.
pub data Failure : Type 0 where
  client : NetboxError → Failure
  endpoint_not_ready no_candidate adopt_only recreate_retained unmapped_field : Failure
  no_custom_fields unfilterable no_object_id reserved_by_provenance : Failure
  duplicate_needs_provenance duplicate_on_generated_child : Failure
  refused_adoption unclaimable_duplicate derived_ref_conflict unclassified : Failure

-- metrics.ResultWaiting and metrics.ResultError.
pub data Bucket : Type 0 where
  result_waiting result_error : Bucket

-- Without an Event `event` is empty.
pub record Outcome : Type 0 where
  pub reason : String
  pub requeue : ℕ
  pub event : String
  pub severe : Bool
  pub result : Bucket

pub classify_contended : Failure → Option Outcome
classify_contended (client contended) = some (record {
  reason = "AllocationContended";
  requeue = truncated_retry;
  event = "AllocationContended";
  severe = true;
  result = result_error;
})
classify_contended _ = none

pub waiting : String → ℕ → Option Outcome
waiting reason requeue = some (record {
  reason = reason;
  requeue = requeue;
  event = "";
  severe = false;
  result = result_waiting;
})

pub classify_wait : Failure → ℕ → Option Outcome
unfolding waiting
classify_wait endpoint_not_ready resync = waiting "WaitingForEndpoint" endpoint_retry
classify_wait no_candidate resync = waiting "WaitingForKey" resync
classify_wait adopt_only resync = waiting "AdoptOnly" resync
classify_wait _ resync = none

-- The outcomes of classifyInvalid: all are severe.
pub refusal : String → ℕ → String → Option Outcome
refusal reason requeue event = some (record {
  reason = reason;
  requeue = requeue;
  event = event;
  severe = true;
  result = result_error;
})

pub classify_invalid : Failure → ℕ → Option Outcome
unfolding refusal
classify_invalid (client ambiguous) resync = refusal "Conflict" resync "Conflict"
classify_invalid refused_adoption resync = refusal "Conflict" resync "Conflict"
classify_invalid unclaimable_duplicate resync = refusal "Conflict" resync "Conflict"
classify_invalid (client truncated) resync = refusal "Truncated" truncated_retry "Invalid"
classify_invalid (client (protected status)) resync = refusal "Conflict" resync "Conflict"
classify_invalid derived_ref_conflict resync = refusal "Conflict" resync "Conflict"
classify_invalid (client (validation status)) resync = refusal "Invalid" resync "Invalid"
classify_invalid reserved_by_provenance resync = refusal "ReservedByOperator" resync "Invalid"
classify_invalid unmapped_field resync = refusal "Invalid" resync "Invalid"
classify_invalid no_custom_fields resync = refusal "Invalid" resync "Invalid"
classify_invalid unfilterable resync = refusal "Invalid" resync "Invalid"
classify_invalid no_object_id resync = refusal "Invalid" resync "Invalid"
classify_invalid duplicate_needs_provenance resync = refusal "Invalid" resync "Invalid"
classify_invalid duplicate_on_generated_child resync = refusal "Invalid" resync "Invalid"
classify_invalid recreate_retained resync = refusal "Invalid" resync "Invalid"
classify_invalid _ resync = none

pub retry_after : ℕ → ℕ
retry_after after = if ltb 0 after then after else rate_limit_retry

pub api : ℕ → Bool → Outcome
api requeue severe = record {
  reason = "APIError";
  requeue = requeue;
  event = "";
  severe = severe;
  result = result_error;
}

pub classify_api : Failure → ℕ → Outcome
unfolding api retry_after
classify_api (client not_found) resync = api vanished_retry false
classify_api (client (auth status)) resync = api auth_retry true
classify_api (client (rate_limit after)) resync = api (retry_after after) false
classify_api (client (transient status)) resync = api transient_retry false
classify_api _ resync = api resync true

abbrev pub or_else : Option Outcome → Outcome → Outcome
or_else (some out) later = out
or_else none later = later

pub classify : Failure → ℕ → Outcome
classify failure resync = or_else (classify_contended failure) (
    or_else (classify_wait failure resync)
      (or_else (classify_invalid failure resync) (classify_api failure resync)))
