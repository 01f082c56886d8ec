-- ===== src/Claims/Kept.antt =====
-- What a pass over a claim leaves of the allocation where it does not commit one.
use netbox_operator.Common.{
  ℕ, ◌≡◌, refl, String, Bool, false, not, ◌&&◌, Option, none, some, ◌∷◌, [], if-cases, str_eq,
}
use netbox_operator.Common.Result.{Result, ok, err}
use netbox_operator.Json.{Object, get, as_string}
use netbox_operator.Engine.Finish.{StatusWrite, status_written, stale, write_failed}
use netbox_operator.Engine.Inputs.{Search, nothing, single, several, search_failed}
use netbox_operator.Errors.Client.{NetboxError, ambiguous, not_found, protected}
use package.netbox_operator.Claims.Inputs.{
  Claim, ClaimDescriptor, ClaimEndpoint, World, ClaimFailure, refusal, unverified, pool_blocked,
  engine, ClaimPass,
}
use package.netbox_operator.Claims.Ends.{
  observed, write_answered, finish, stop, pending, ready, blocked_on_pool,
}
use package.netbox_operator.Claims.Pool.{find_by_identity}
use package.netbox_operator.Claims.Settle.{
  dated, contested, pinned, unverifiable, holder_answered, pin_not_held, held_answered, verify_pin,
  when_due, settled, pin_verification,
}
use package.netbox_operator.Claims.Release.{
  ClaimRelease, released, release, gives_up, attempted, delete_blocked, delete_answered, free,
  at_endpoint, unless_held, unless_released, releasing, release_without_deleting,
}
use netbox_operator.Deletion.Backoff.{deletion_hold}

-- The claim holds what `c` holds, recorded with the same object and identity.
abbrev pub SameAllocation : Claim → Claim → Type 0
SameAllocation c c' =
    (c'.allocated ≡ c.allocated)
    × (c'.status.netbox_id ≡ c.status.netbox_id)
    × (c'.status.allocation_identity ≡ c.status.allocation_identity)

abbrev pub Keeps : Claim → ClaimPass → Type 0
Keeps c p = SameAllocation c p.claim

same : (c : Claim) → SameAllocation c c
same c = (refl, refl, refl)

module _ (w : World) (before : Claim) where
  write_answered-claim :
      (c : Claim) (wait : ℕ) (s : StatusWrite) → (write_answered w before c wait s).claim ≡ c
  write_answered-claim c wait status_written = refl
  write_answered-claim c wait stale = refl
  write_answered-claim c wait write_failed = refl

  -- A status write changes nothing of the claim that it writes.
  pub finish-claim : (c : Claim) (wait : ℕ) → (finish w before c wait).claim ≡ observed w before c
  unfolding finish
  finish-claim c wait =
      if-cases (λ (p : ClaimPass). p.claim ≡ observed w before c)
        (w.same_status before.status (observed w before c).status
          && str_eq c.allocated before.allocated)
        _ _ (λ same. refl)
        (λ differs.
          write_answered-claim (observed w before c) wait (w.update_status (observed w before c)))

  finish-Keeps : (c : Claim) (wait : ℕ) → Keeps c (finish w before c wait)
  finish-Keeps c wait = rw (finish-claim c wait) (same c)

  pub stop-Keeps :
      (e : Option ClaimEndpoint) (c : Claim) (f : ClaimFailure) → Keeps c (stop w before e c f)
  unfolding stop
  stop-Keeps e c f = finish-Keeps _ _

  pub pending-Keeps :
      (e : Option ClaimEndpoint) (c : Claim) (reason : String)
      → Keeps c (pending w before e c reason)
  unfolding pending
  pending-Keeps e c reason = finish-Keeps _ _

  pub ready-Keeps : (c : Claim) (wait : ℕ) → Keeps c (ready w before c wait)
  unfolding ready
  ready-Keeps c wait = finish-Keeps _ _

  pub blocked_on_pool-Keeps :
      (e : Option ClaimEndpoint) (c : Claim) (f : ClaimFailure)
      → Keeps c (blocked_on_pool w before e c f)
  unfolding blocked_on_pool
  blocked_on_pool-Keeps e c (pool_blocked r) = finish-Keeps _ _
  blocked_on_pool-Keeps e c (refusal r) = stop-Keeps e c (refusal r)
  blocked_on_pool-Keeps e c unverified = stop-Keeps e c unverified
  blocked_on_pool-Keeps e c (engine f) = stop-Keeps e c (engine f)

  contested-Keeps :
      (c : Claim) (reason event : String) → Keeps c (contested w before c reason event)
  unfolding contested
  contested-Keeps c reason event = finish-Keeps _ _

  pinned-Keeps : (c : Claim) (wait : ℕ) → Keeps c (pinned w before c wait)
  unfolding pinned
  pinned-Keeps c wait = ready-Keeps _ wait

  module _ (d : ClaimDescriptor) where
    holder_answered-Keeps :
        (e : ClaimEndpoint) (c : Claim) (s : Search) → Keeps c (holder_answered w before d e c s)
    unfolding unverifiable
    holder_answered-Keeps e c nothing = contested-Keeps c _ _
    holder_answered-Keeps e c (single o) = contested-Keeps c _ _
    holder_answered-Keeps e c (several os) = contested-Keeps c _ _
    holder_answered-Keeps e c (search_failed ambiguous) = contested-Keeps c _ _
    holder_answered-Keeps e c (search_failed f) = pinned-Keeps c _

    pin_not_held-Keeps :
        (e : ClaimEndpoint) (c : Claim) (value : String)
        → Keeps c (pin_not_held w before d e c value)
    unfolding pin_not_held
    pin_not_held-Keeps e c value =
        holder_answered-Keeps e c (e.client.get_one ((d.result_field, value) ∷ []))

    held_answered-Keeps :
        (e : ClaimEndpoint) (c : Claim) (value : String) (r : Result ClaimFailure (Option Object))
        → Keeps c (held_answered w before d e c value r)
    unfolding unverifiable
    held_answered-Keeps e c value (err (refusal r)) = contested-Keeps c _ _
    held_answered-Keeps e c value (err (engine f)) = pinned-Keeps c _
    held_answered-Keeps e c value (err unverified) = pinned-Keeps c _
    held_answered-Keeps e c value (err (pool_blocked r)) = pinned-Keeps c _
    held_answered-Keeps e c value (ok none) = pin_not_held-Keeps e c value
    held_answered-Keeps e c value (ok (some held)) =
        if-cases (Keeps c) (str_eq (as_string (get held d.result_field)) value) _ _
          (λ same. pinned-Keeps (dated w before c) _) (λ other. pin_not_held-Keeps e c value)

    when_due-Keeps :
        (e : Option ClaimEndpoint) (c : Claim) (value : String) (wait : Option ℕ)
        → Keeps c (when_due w before d e c value wait)
    unfolding verify_pin
    when_due-Keeps e c value (some wait) = pinned-Keeps c wait
    when_due-Keeps none c value none = pinned-Keeps c _
    when_due-Keeps (some e) c value none =
        held_answered-Keeps e c value (find_by_identity w d e c.status.allocation_identity)

    pub settled-Keeps : (c : Claim) (value : String) → Keeps c (settled w before d c value)
    unfolding settled
    settled-Keeps c value =
        when_due-Keeps (w.endpoints c.namespace c.endpoint_ref) c value
          (pin_verification w before (w.endpoints c.namespace c.endpoint_ref) c)

  released-Keeps :
      (c : Claim) (out : ClaimRelease) (u : Option (Claim → Bool))
      → Keeps c (released w before c out u)
  released-Keeps c out none = same c
  released-Keeps c out (some update) =
      if-cases (Keeps c) (not (update (record c { finalizer = false }))) _ _ (λ t. same c)
        (λ f. same c)

  release-Keeps : (c : Claim) (out : ClaimRelease) → Keeps c (release w before c out)
  unfolding release
  release-Keeps c out = released-Keeps c out w.finalizers

  delete_blocked-Keeps : (c : Claim) (reason : String) → Keeps c (delete_blocked w before c reason)
  unfolding delete_blocked
  delete_blocked-Keeps c reason =
      if-cases (Keeps c) (gives_up w before (attempted w before c).status.deletion_attempts) _ _
        (λ over. release-Keeps (attempted w before c) _) (λ again. finish-Keeps _ _)

  delete_answered-Keeps :
      (e : ClaimEndpoint) (c : Claim) (r : Result NetboxError Object)
      → Keeps c (delete_answered w before e c r)
  delete_answered-Keeps e c (ok out) = release-Keeps c _
  delete_answered-Keeps e c (err not_found) = release-Keeps c _
  delete_answered-Keeps e c (err (protected status)) = delete_blocked-Keeps c _
  delete_answered-Keeps e c (err f) = delete_blocked-Keeps c _

  at_endpoint-Keeps : (c : Claim) (e : Option ClaimEndpoint) → Keeps c (at_endpoint w before c e)
  unfolding free
  at_endpoint-Keeps c none = delete_blocked-Keeps c _
  at_endpoint-Keeps c (some e) = delete_answered-Keeps e c (e.client.delete c.status.netbox_id)

  unless_held-Keeps : (c : Claim) (hold : Option ℕ) → Keeps c (unless_held w before c hold)
  unless_held-Keeps c (some wait) = finish-Keeps c wait
  unless_held-Keeps c none = at_endpoint-Keeps c (w.endpoints c.namespace c.endpoint_ref)

  unless_released-Keeps :
      (c : Claim) (out : Option ClaimRelease) → Keeps c (unless_released w before c out)
  unless_released-Keeps c (some out) = release-Keeps c out
  unless_released-Keeps c none =
      unless_held-Keeps c
        (deletion_hold c.status.deletion_attempts c.status.last_deletion_attempt w.now)

  pub releasing-Keeps : (c : Claim) → Keeps c (releasing w before c)
  unfolding releasing
  releasing-Keeps c =
      if-cases (Keeps c) (not c.finalizer) _ _ (λ off. same c)
        (λ on. unless_released-Keeps c (release_without_deleting c))
