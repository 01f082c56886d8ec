-- ===== src/Errors/Table.antt =====
-- What the table of errors.go does with every failure.
use netbox_operator.Common.{ℕ, ◌<◌, ◌≡◌, true, false, arith}
use netbox_operator.Errors.{
  Failure, client, classify, classify_contended, classify_wait, classify_invalid, classify_api,
  retry_after, waiting, refusal, api,
}
use netbox_operator.Errors.Client.{NetboxError, retryable}

-- Every failure is tried again after a positive delay, if the resync interval is positive.
pub classify-requeue : (f : Failure) (resync : ℕ) → 0 < resync → 0 < (classify f resync).requeue
unfolding classify classify_contended classify_wait classify_invalid classify_api waiting refusal
    api retry_after
classify-requeue f resync h = ground arith

-- A retryable failure is recorded as an error of the API that needs no human and has no Event.
classify-retryable :
    (e : NetboxError) (resync : ℕ)
    → retryable e ≡ true
    → ((classify (client e) resync).severe ≡ false)
      × ((classify (client e) resync).event ≡ "")
      × ((classify (client e) resync).reason ≡ "APIError")
unfolding classify classify_contended classify_wait classify_invalid classify_api waiting refusal
    api retry_after retryable
classify-retryable e resync h = ground arith
