-- ===== src/Claims/Harmless.antt =====
-- How a pass over a claim ends: what it does then changes nothing in NetBox.
use netbox_operator.Common.{
  ℕ, String, Bool, true, false, Option, none, some, List, [], ◌∷◌, All, All-append, if-cases,
  str_eq, if◌then◌else◌, not, ◌&&◌,
}
use netbox_operator.Common.Result.{Result, ok, err}
use netbox_operator.Client.{suppressed}
use netbox_operator.Json.{Object, get, as_string, object_id}
use netbox_operator.Engine.Finish.{StatusWrite, status_written, stale, write_failed}
use netbox_operator.Engine.Inputs.{Search, nothing, single, several, search_failed}
use netbox_operator.Errors.Client.{NetboxError, ambiguous, not_found, protected}
use package.netbox_operator.Claims.Inputs.{
  Claim, ClaimDescriptor, ClaimEndpoint, World, ClaimFailure, refusal, unverified, pool_blocked,
  engine, ClaimEffect, posted, deleted, ClaimPass,
}
use package.netbox_operator.Claims.Ends.{
  observed, write_answered, finish, warn_if, stop, pending, ready, blocked_on_pool, after,
}
use package.netbox_operator.Claims.Pool.{Pool, find_by_identity, inside_pool}
use package.netbox_operator.Claims.Allocate.{
  commit, reclaim_id, reclaim, commit_verified, read_back, post_answered, refuses_foreign, verify,
}
use package.netbox_operator.Claims.Settle.{
  contested, pinned, unverifiable, holder_answered, pin_not_held, held_answered, verify_pin,
  when_due, settled, pin_verification,
}
use package.netbox_operator.Claims.Release.{
  ClaimRelease, announce, released, release, delete_blocked, delete_answered, gives_up, attempted,
}

-- Nothing is written to NetBox.
abbrev pub IsHarmless : ClaimEffect → Type 0
IsHarmless (posted endpoint id sub payload) = ⊥
IsHarmless (deleted id) = ⊥
IsHarmless _ = Unit

abbrev pub IsQuiet : ClaimPass → Type 0
IsQuiet p = All IsHarmless p.effects

pub after-IsQuiet :
    (effects : List ClaimEffect) (p : ClaimPass)
    → All IsHarmless effects
    → IsQuiet p
    → IsQuiet (after effects p)
after-IsQuiet effects p h q = All-append IsHarmless effects p.effects h q

module _ (w : World) (before : Claim) where
  pub warn_if-IsQuiet : (b : Bool) (event : String) → All IsHarmless (warn_if w before b event)
  warn_if-IsQuiet true event = (tt, tt)
  warn_if-IsQuiet false event = tt

  write_answered-IsQuiet :
      (c : Claim) (wait : ℕ) (s : StatusWrite) → IsQuiet (write_answered w before c wait s)
  write_answered-IsQuiet c wait status_written = tt
  write_answered-IsQuiet c wait stale = tt
  write_answered-IsQuiet c wait write_failed = tt

  pub finish-IsQuiet : (c : Claim) (wait : ℕ) → IsQuiet (finish w before c wait)
  unfolding finish
  finish-IsQuiet c wait =
      if-cases IsQuiet
        (w.same_status before.status (observed w before c).status
          && str_eq c.allocated before.allocated)
        _ _ (λ same. tt)
        (λ differs.
          write_answered-IsQuiet (observed w before c) wait (w.update_status (observed w before c)))

  noted-IsQuiet :
      (b : Bool) (event : String) (c : Claim) (wait : ℕ)
      → IsQuiet (after (warn_if w before b event) (finish w before c wait))
  noted-IsQuiet b event c wait =
      after-IsQuiet (warn_if w before b event) (finish w before c wait) (warn_if-IsQuiet b event)
        (finish-IsQuiet c wait)

  pub stop-IsQuiet :
      (e : Option ClaimEndpoint) (c : Claim) (f : ClaimFailure) → IsQuiet (stop w before e c f)
  unfolding stop
  stop-IsQuiet e c f = noted-IsQuiet _ _ _ _

  pub pending-IsQuiet :
      (e : Option ClaimEndpoint) (c : Claim) (reason : String)
      → IsQuiet (pending w before e c reason)
  unfolding pending
  pending-IsQuiet e c reason = finish-IsQuiet _ _

  pub ready-IsQuiet : (c : Claim) (wait : ℕ) → IsQuiet (ready w before c wait)
  unfolding ready
  ready-IsQuiet c wait = finish-IsQuiet _ _

  pub blocked_on_pool-IsQuiet :
      (e : Option ClaimEndpoint) (c : Claim) (f : ClaimFailure)
      → IsQuiet (blocked_on_pool w before e c f)
  unfolding blocked_on_pool
  blocked_on_pool-IsQuiet e c (pool_blocked r) = finish-IsQuiet _ _
  blocked_on_pool-IsQuiet e c (refusal r) = stop-IsQuiet e c (refusal r)
  blocked_on_pool-IsQuiet e c unverified = stop-IsQuiet e c unverified
  blocked_on_pool-IsQuiet e c (engine f) = stop-IsQuiet e c (engine f)

  contested-IsQuiet :
      (c : Claim) (reason event : String) → IsQuiet (contested w before c reason event)
  unfolding contested
  contested-IsQuiet c reason event = noted-IsQuiet _ _ _ _

  pinned-IsQuiet : (c : Claim) (wait : ℕ) → IsQuiet (pinned w before c wait)
  unfolding pinned
  pinned-IsQuiet c wait = ready-IsQuiet _ wait

  pub release-IsQuiet : (c : Claim) (out : ClaimRelease) → IsQuiet (release w before c out)
  unfolding release
  release-IsQuiet c out = released-IsQuiet w.finalizers
    where
      announced : (b : Bool) → All IsHarmless (if b then [] else announce out ∷ [])
      announced true = tt
      announced false = (if-cases IsHarmless out.warn _ _ (λ t. tt) (λ f. tt), tt)

      released-IsQuiet : (u : Option (Claim → Bool)) → IsQuiet (released w before c out u)
      released-IsQuiet none = tt
      released-IsQuiet (some update) =
          if-cases IsQuiet (not (update (record c { finalizer = false }))) _ _ (λ t. tt)
            (λ f. (tt, announced (str_eq out.event "")))

  module _ (d : ClaimDescriptor) where
    holder_answered-IsQuiet :
        (e : ClaimEndpoint) (c : Claim) (s : Search) → IsQuiet (holder_answered w before d e c s)
    unfolding unverifiable
    holder_answered-IsQuiet e c nothing = contested-IsQuiet c _ _
    holder_answered-IsQuiet e c (single o) = contested-IsQuiet c _ _
    holder_answered-IsQuiet e c (several os) = contested-IsQuiet c _ _
    holder_answered-IsQuiet e c (search_failed ambiguous) = contested-IsQuiet c _ _
    holder_answered-IsQuiet e c (search_failed f) = pinned-IsQuiet c _

    pin_not_held-IsQuiet :
        (e : ClaimEndpoint) (c : Claim) (value : String)
        → IsQuiet (pin_not_held w before d e c value)
    unfolding pin_not_held
    pin_not_held-IsQuiet e c value =
        holder_answered-IsQuiet e c (e.client.get_one ((d.result_field, value) ∷ []))

    held_answered-IsQuiet :
        (e : ClaimEndpoint) (c : Claim) (value : String) (r : Result ClaimFailure (Option Object))
        → IsQuiet (held_answered w before d e c value r)
    unfolding unverifiable
    held_answered-IsQuiet e c value (err (refusal r)) = contested-IsQuiet c _ _
    held_answered-IsQuiet e c value (err (engine f)) = pinned-IsQuiet c _
    held_answered-IsQuiet e c value (err unverified) = pinned-IsQuiet c _
    held_answered-IsQuiet e c value (err (pool_blocked r)) = pinned-IsQuiet c _
    held_answered-IsQuiet e c value (ok none) = pin_not_held-IsQuiet e c value
    held_answered-IsQuiet e c value (ok (some held)) =
        if-cases IsQuiet (str_eq (as_string (get held d.result_field)) value) _ _
          (λ same. pinned-IsQuiet _ _) (λ other. pin_not_held-IsQuiet e c value)

    when_due-IsQuiet :
        (e : Option ClaimEndpoint) (c : Claim) (value : String) (wait : Option ℕ)
        → IsQuiet (when_due w before d e c value wait)
    unfolding verify_pin
    when_due-IsQuiet e c value (some wait) = pinned-IsQuiet c wait
    when_due-IsQuiet none c value none = pinned-IsQuiet c _
    when_due-IsQuiet (some e) c value none =
        held_answered-IsQuiet e c value (find_by_identity w d e c.status.allocation_identity)

    -- A claim that holds an allocation is only read.
    pub settled-IsQuiet : (c : Claim) (value : String) → IsQuiet (settled w before d c value)
    unfolding settled
    settled-IsQuiet c value =
        when_due-IsQuiet (w.endpoints c.namespace c.endpoint_ref) c value
          (pin_verification w before (w.endpoints c.namespace c.endpoint_ref) c)

    module _ (e : ClaimEndpoint) where
      commit-IsQuiet :
          (c : Claim) (pool : Pool) (identity : String) (live : Object) (id : ℕ)
          (value reason event : String)
          → IsQuiet (commit w before d e c pool identity live id value reason event)
      unfolding commit
      commit-IsQuiet c pool identity live id value reason event = (tt, ready-IsQuiet _ _)

      reclaim_id-IsQuiet :
          (c : Claim) (pool : Pool) (identity : String) (explicit : Bool) (live : Object)
          (id : Option ℕ)
          → IsQuiet (reclaim_id w before d e c pool identity explicit live id)
      reclaim_id-IsQuiet c pool identity explicit live none = stop-IsQuiet _ c _
      reclaim_id-IsQuiet c pool identity explicit live (some id) =
          let value = as_string (get live d.result_field) in
          if-cases IsQuiet (not (inside_pool w d e pool value)) _ _ (λ out. stop-IsQuiet _ c _)
            (λ in_it.
              if-cases IsQuiet (refuses_foreign w before d e c explicit live) _ _
                (λ foreign. stop-IsQuiet _ c _)
                (λ mine. commit-IsQuiet c pool identity live id value _ _))

      pub reclaim-IsQuiet :
          (c : Claim) (pool : Pool) (identity : String) (explicit : Bool) (live : Object)
          → IsQuiet (reclaim w before d e c pool identity explicit live)
      unfolding reclaim
      reclaim-IsQuiet c pool identity explicit live =
          reclaim_id-IsQuiet c pool identity explicit live (object_id w.go live)

      commit_verified-IsQuiet :
          (c : Claim) (pool : Pool) (identity : String) (id : ℕ) (r : Result ClaimFailure Object)
          → IsQuiet (commit_verified w before d e c pool identity id r)
      commit_verified-IsQuiet c pool identity id (err f) = stop-IsQuiet _ c f
      commit_verified-IsQuiet c pool identity id (ok live) = commit-IsQuiet c pool _ live id _ _ _

      read_back-IsQuiet :
          (c : Claim) (pool : Pool) (identity : String) (allocated : Object) (id : Option ℕ)
          → IsQuiet (read_back w before d e c pool identity allocated id)
      read_back-IsQuiet c pool identity allocated none = stop-IsQuiet _ c _
      read_back-IsQuiet c pool identity allocated (some id) =
          commit_verified-IsQuiet c pool identity id
            (verify w before d e pool identity allocated (e.client.reread id))

      pub post_answered-IsQuiet :
          (c : Claim) (pool : Pool) (identity : String) (r : Result NetboxError Object)
          → IsQuiet (post_answered w before d e c pool identity r)
      unfolding post_answered
      post_answered-IsQuiet c pool identity (err f) = stop-IsQuiet _ c _
      post_answered-IsQuiet c pool identity (ok allocated) =
          if-cases IsQuiet (suppressed allocated) _ _ (λ dry. pending-IsQuiet _ c _)
            (λ sent. read_back-IsQuiet c pool identity allocated (object_id w.go allocated))

  -- What a blocked delete does beside the delete.
  pub delete_blocked-IsQuiet :
      (c : Claim) (reason : String) → IsQuiet (delete_blocked w before c reason)
  unfolding delete_blocked
  delete_blocked-IsQuiet c reason =
      if-cases IsQuiet (gives_up w before (attempted w before c).status.deletion_attempts) _ _
        (λ over. release-IsQuiet _ _) (λ again. noted-IsQuiet _ _ _ _)

  pub delete_answered-IsQuiet :
      (e : ClaimEndpoint) (c : Claim) (r : Result NetboxError Object)
      → IsQuiet (delete_answered w before e c r)
  delete_answered-IsQuiet e c (ok out) = release-IsQuiet c _
  delete_answered-IsQuiet e c (err not_found) = release-IsQuiet c _
  delete_answered-IsQuiet e c (err (protected status)) = delete_blocked-IsQuiet c _
  delete_answered-IsQuiet e c (err f) = delete_blocked-IsQuiet c _
