-- ===== src/Claims/Settle.antt =====
-- internal/reconciler/claim.go: a claim that holds an allocation, and the check that it still does.
use netbox_operator.Common.{
  ℕ, ◌+◌, ◌-◌, String, Bool, true, false, not, ◌&&◌, Option, none, some, [], ◌∷◌, ltb, str_eq,
  if◌then◌else◌,
}
use netbox_operator.Common.Result.{Result, ok, err}
use netbox_operator.Json.{Object, get, as_string}
use netbox_operator.Engine.Inputs.{Search, nothing, single, several, search_failed}
use netbox_operator.Errors.{Failure, client, unclassified, classify}
use netbox_operator.Errors.Client.{ambiguous}
use package.netbox_operator.Claims.Inputs.{
  Claim, ClaimDescriptor, ClaimEndpoint, World, ClaimFailure, refusal, engine, ClaimPass,
}
use package.netbox_operator.Claims.Ends.{
  with_condition, after, warn_if, transitioned, finish, ready, resync_of, refused_retry,
}
use package.netbox_operator.Claims.Pool.{find_by_identity}

module _ (w : World) (before : Claim) where
  abbrev pub dated : Claim → Claim
  dated c = record c { status = record c.status { last_verified_at = some w.now } }

  unfoldable pub contested : Claim → String → String → ClaimPass
  contested c reason event =
      after (warn_if w before (transitioned w before "Ready" false reason) event)
        (finish w before (with_condition "Ready" false reason (dated c)) refused_retry)

  unfoldable pub pinned : Claim → ℕ → ClaimPass
  pinned c wait = ready w before (with_condition "Allocated" true "AddressAllocated" c) wait

  -- pinVerification: how long it may wait, or `none` where it is due. The clock may go back.
  abbrev pub since : Option ℕ → ℕ → Option ℕ
  since none every = none
  since (some last) every =
      if ltb w.now last
      then some (every + (last - w.now))
      else if ltb (w.now - last) every
      then some (every - (w.now - last))
      else none

  abbrev pub can_verify_pin : Option ClaimEndpoint → Claim → Bool
  can_verify_pin none c = false
  can_verify_pin (some e) c =
      not (str_eq c.status.allocation_identity "") && not (str_eq e.allocation_identity_field "")

  unfoldable pub pin_verification : Option ClaimEndpoint → Claim → Option ℕ
  pin_verification e c =
      if not (can_verify_pin e c)
      then some (resync_of e)
      else since c.status.last_verified_at (resync_of e)

  module _ (d : ClaimDescriptor) where
    unfoldable pub unverifiable : ClaimEndpoint → Claim → Failure → ClaimPass
    unverifiable e c cause = pinned c (classify cause (resync_of (some e))).requeue

    abbrev pub holder_answered : ClaimEndpoint → Claim → Search → ClaimPass
    holder_answered e c nothing = contested c "AllocationLost" "AllocationLost"
    holder_answered e c (single holder) = contested c "AllocationConflict" "AllocationConflict"
    holder_answered e c (several holders) = contested c "AllocationConflict" "AllocationConflict"
    holder_answered e c (search_failed ambiguous) =
        contested c "AllocationConflict" "AllocationConflict"
    holder_answered e c (search_failed failure) = unverifiable e c (client failure)

    unfoldable pub pin_not_held : ClaimEndpoint → Claim → String → ClaimPass
    pin_not_held e c value = holder_answered e c (e.client.get_one ((d.result_field, value) ∷ []))

    abbrev pub held_answered :
        ClaimEndpoint → Claim → String → Result ClaimFailure (Option Object) → ClaimPass
    held_answered e c value (err (refusal r)) =
        contested c "AllocationConflict" "AllocationConflict"
    held_answered e c value (err (engine failure)) = unverifiable e c failure
    held_answered e c value (err failure) = unverifiable e c unclassified
    held_answered e c value (ok none) = pin_not_held e c value
    held_answered e c value (ok (some held)) =
        if str_eq (as_string (get held d.result_field)) value
        then pinned (dated c) (resync_of (some e))
        else pin_not_held e c value

    unfoldable pub verify_pin : ClaimEndpoint → Claim → String → ClaimPass
    verify_pin e c value =
        held_answered e c value (find_by_identity w d e c.status.allocation_identity)

    abbrev pub verify_at : Option ClaimEndpoint → Claim → String → ClaimPass
    verify_at none c value = pinned c (resync_of none)
    verify_at (some e) c value = verify_pin e c value

    abbrev pub when_due : Option ClaimEndpoint → Claim → String → Option ℕ → ClaimPass
    when_due e c value (some wait) = pinned c wait
    when_due e c value none = verify_at e c value

    unfoldable pub settled : Claim → String → ClaimPass
    settled c value =
        let e = w.endpoints c.namespace c.endpoint_ref in when_due e c value (pin_verification e c)
