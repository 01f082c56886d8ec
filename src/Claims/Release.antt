-- ===== src/Claims/Release.antt =====
-- internal/reconciler/claim.go: the deletion of a claim and of the object that it holds.
use netbox_operator.Common.{
  ℕ, String, Bool, true, false, not, ◌&&◌, Option, none, some, [], ◌∷◌, leb, ◌==◌, str_eq,
  if◌then◌else◌,
}
use netbox_operator.Common.Result.{Result, ok, err}
use netbox_operator.Client.{suppressed}
use netbox_operator.Deletion.{deletion_policy_of, protected_event_after}
use netbox_operator.Deletion.Setting.{get_annotation}
use netbox_operator.Deletion.Backoff.{int32_inc, int32_negative, protected_backoff, deletion_hold}
use netbox_operator.Errors.{client, classify}
use netbox_operator.Errors.Client.{NetboxError, not_found, protected}
use netbox_operator.Json.{Object}
use package.netbox_operator.Claims.Inputs.{
  Claim, ClaimEndpoint, World, deleted, finalizers_written, normal, warning, nil_finalizers,
  finalizers_refused, done, failed, ClaimEffect, ClaimPass,
}
use package.netbox_operator.Claims.Ends.{with_condition, after, warn_if, finish, resync_of}

abbrev pub claim_delete_attempts : ℕ
claim_delete_attempts = 11

-- Without an Event `event` is empty; whether the allocation was retained is only counted.
pub record ClaimRelease : Type 0 where
  pub event : String
  pub warn : Bool

abbrev pub retained : Bool → ClaimRelease
retained warn = record { event = "AddressRetained"; warn = warn }

abbrev pub freed : Object → ClaimRelease
freed out = if suppressed out then retained true else record { event = "Deleted"; warn = false }

-- The guards of releaseWithoutDeleting.
abbrev pub skips : Claim → Bool
skips c = str_eq (get_annotation c.annotations "netbox.kubeforge.org/skip-finalizer") "true"

abbrev pub retains : Claim → Bool
retains c = str_eq (deletion_policy_of c.deletion_policy) "Retain"

unfoldable pub release_without_deleting : Claim → Option ClaimRelease
release_without_deleting c =
    if skips c
    then some (record { event = "FinalizerSkipped"; warn = true })
    else if retains c
    then some (retained false)
    else if c.status.netbox_id == 0 && str_eq c.allocated ""
    then some (record { event = ""; warn = false })
    else if c.status.netbox_id == 0
    then some (retained true)
    else none

abbrev pub announce : ClaimRelease → ClaimEffect
announce out = if out.warn then warning out.event else normal out.event

module _ (w : World) (before : Claim) where
  abbrev pub released : Claim → ClaimRelease → Option (Claim → Bool) → ClaimPass
  released c out none = record {
    claim = record c { finalizer = false };
    effects = [];
    saved = false;
    answer = failed nil_finalizers;
  }
  released c out (some update) =
      if not (update (record c { finalizer = false }))
      then record {
        claim = record c { finalizer = true };
        effects = [];
        saved = false;
        answer = failed finalizers_refused;
      }
      else record {
        claim = record c { finalizer = false };
        effects =
            finalizers_written false ∷ (if str_eq out.event "" then [] else announce out ∷ []);
        saved = false;
        answer = done;
      }

  unfoldable pub release : Claim → ClaimRelease → ClaimPass
  release c out = released c out w.finalizers

  abbrev pub attempted : Claim → Claim
  attempted c = record c {
    status = record c.status {
      deletion_attempts = int32_inc c.status.deletion_attempts;
      last_deletion_attempt = some w.now;
    };
  }

  -- The attempts are a signed int32.
  abbrev pub gives_up : ℕ → Bool
  gives_up attempts = not (int32_negative attempts) && leb claim_delete_attempts attempts

  unfoldable pub delete_blocked : Claim → String → ClaimPass
  delete_blocked c reason =
      let c' = attempted c in
      let attempts = c'.status.deletion_attempts in
      if gives_up attempts
      then release c' (retained true)
      else after (warn_if w before (attempts == protected_event_after) "DeleteBlocked")
          (finish w before (with_condition "Deleting" false reason c') (protected_backoff attempts))

  abbrev pub delete_answered : ClaimEndpoint → Claim → Result NetboxError Object → ClaimPass
  delete_answered e c (ok out) = release c (freed out)
  delete_answered e c (err not_found) = release c (record { event = "Deleted"; warn = false })
  delete_answered e c (err (protected status)) = delete_blocked c "Protected"
  delete_answered e c (err failure) =
      delete_blocked c (classify (client failure) (resync_of (some e))).reason

  unfoldable pub free : ClaimEndpoint → Claim → ℕ → ClaimPass
  free e c id = after (deleted id ∷ []) (delete_answered e c (e.client.delete id))

  abbrev pub at_endpoint : Claim → Option ClaimEndpoint → ClaimPass
  at_endpoint c none = delete_blocked c "WaitingForEndpoint"
  at_endpoint c (some e) = free e c c.status.netbox_id

  abbrev pub unless_held : Claim → Option ℕ → ClaimPass
  unless_held c (some remaining) = finish w before c remaining
  unless_held c none = at_endpoint c (w.endpoints c.namespace c.endpoint_ref)

  abbrev pub unless_released : Claim → Option ClaimRelease → ClaimPass
  unless_released c (some out) = release c out
  unless_released c none =
      unless_held c (deletion_hold c.status.deletion_attempts c.status.last_deletion_attempt w.now)

  unfoldable pub releasing : Claim → ClaimPass
  releasing c =
      if not c.finalizer
      then record { claim = c; effects = []; saved = false; answer = done }
      else unless_released c (release_without_deleting c)
