-- ===== src/Claims/Ends.antt =====
-- internal/reconciler/claim.go: how a pass over a claim ends, from the outcome of a failure to the
-- status write. Messages, logging and metrics are left out.
use netbox_operator.Common.{
  ℕ, String, Bool, true, false, not, ◌&&◌, ◌||◌, Option, none, some, List, [], ◌∷◌, ◌++◌, ltb,
  str_eq, lookup, put, if◌then◌else◌,
}
use netbox_operator.Deletion.{default_resync}
use netbox_operator.Engine.Finish.{
  StatusWrite, status_written, stale, write_failed, stale_retry, jitter,
}
use netbox_operator.Errors.{
  Outcome, result_error, unclassified, classify, transient_retry, truncated_retry,
}
use netbox_operator.Resolve.{classify_cause}
use package.netbox_operator.Claims.Inputs.{
  ClaimCondition, Claim, ClaimEndpoint, World, ClaimFailure, refusal, unverified, pool_blocked,
  engine, ClaimEffect, warning, status_refused, requeued, failed, ClaimPass,
}

abbrev pub refused_retry : ℕ
refused_retry = truncated_retry

-- claimOutcome.
unfoldable pub claim_outcome : ClaimFailure → ℕ → Outcome
claim_outcome (refusal r) resync = record {
  reason = r.reason;
  requeue = refused_retry;
  event = r.event;
  severe = true;
  result = result_error;
}
claim_outcome unverified resync = record {
  reason = "AllocationPending";
  requeue = transient_retry;
  event = "";
  severe = true;
  result = result_error;
}
claim_outcome (pool_blocked e) resync = classify unclassified resync
claim_outcome (engine failure) resync = classify failure resync

-- The endpoint of a pass is `none` before it is resolved.
unfoldable pub resync_of : Option ClaimEndpoint → ℕ
resync_of none = default_resync
resync_of (some e) = if ltb 0 e.resync then e.resync else default_resync

abbrev pub with_condition : String → Bool → String → Claim → Claim
with_condition name holds reason c = record c {
  status = record c.status {
    conditions = put name (record { holds = holds; reason = reason }) c.status.conditions;
  };
}

abbrev pub after : List ClaimEffect → ClaimPass → ClaimPass
after effects p = record p { effects = effects ++ p.effects }

abbrev pub bool_eq : Bool → Bool → Bool
bool_eq true b = b
bool_eq false b = not b

abbrev pub differs : Bool → String → Option ClaimCondition → Bool
differs holds reason none = true
differs holds reason (some c) = not (bool_eq c.holds holds) || not (str_eq c.reason reason)

-- `before` is the claim that the pass began with.
module _ (w : World) (before : Claim) where
  abbrev pub write_answered : Claim → ℕ → StatusWrite → ClaimPass
  write_answered c wait status_written = record {
    claim = c;
    effects = [];
    saved = true;
    answer = requeued (jitter w.random wait);
  }
  write_answered c wait stale = record {
    claim = c;
    effects = [];
    saved = false;
    answer = requeued (jitter w.random stale_retry);
  }
  write_answered c wait write_failed = record {
    claim = c;
    effects = [];
    saved = false;
    answer = failed status_refused;
  }

  abbrev pub observed : Claim → Claim
  observed c = record c { status = record c.status { observed_generation = c.generation } }

  unfoldable pub finish : Claim → ℕ → ClaimPass
  finish c wait =
      if w.same_status before.status (observed c).status && str_eq c.allocated before.allocated
      then record {
        claim = observed c;
        effects = [];
        saved = false;
        answer = requeued (jitter w.random wait);
      }
      else write_answered (observed c) wait (w.update_status (observed c))

  unfoldable pub transitioned : String → Bool → String → Bool
  transitioned name holds reason = differs holds reason (lookup name before.status.conditions)

  abbrev pub warn_if : Bool → String → List ClaimEffect
  warn_if changed event = if changed then warning event ∷ [] else []

  unfoldable pub stop : Option ClaimEndpoint → Claim → ClaimFailure → ClaimPass
  stop e c failure =
      let out = claim_outcome failure (resync_of e) in
      after (warn_if (not (str_eq out.event "") && transitioned "Ready" false out.reason) out.event)
        (finish
          (with_condition "Ready" false out.reason (with_condition "Allocated" false out.reason c))
          out.requeue)

  unfoldable pub pending : Option ClaimEndpoint → Claim → String → ClaimPass
  pending e c reason =
      finish
        (with_condition "Ready" false reason
          (with_condition "Allocated" false "AllocationPending" c))
        (resync_of e)

  unfoldable pub ready : Claim → ℕ → ClaimPass
  ready c wait =
      finish
        (with_condition "Ready" true "AddressAllocated"
          (with_condition "RefsResolved" true "AllResolved" c))
        wait

  unfoldable pub blocked_on_pool : Option ClaimEndpoint → Claim → ClaimFailure → ClaimPass
  blocked_on_pool e c (pool_blocked r) =
      let out = classify_cause r.cause r.mode in
      finish
        (with_condition "Ready" false "WaitingForRef" (
          with_condition "Allocated" false "AllocationPending"
            (with_condition "RefsResolved" false out.0 c)))
        out.1
  blocked_on_pool e c failure = stop e c failure
