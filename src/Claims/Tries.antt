-- ===== src/Claims/Tries.antt =====
-- The deletion of a claim is tried claimDeleteAttempts times before the object is left.
use mathlib.Core.Path.{subst}
use netbox_operator.Common.{
  sym, ℕ, suc, ◌<◌, ◌≡◌, ◌≢◌, ◌⊎◌, inl, inr, refl, String, true, false, not, Option, none, some,
  if-cases, arith, leb, ◌&&◌,
}
use netbox_operator.Common.Result.{err}
use netbox_operator.Deletion.Backoff.{int32_inc, int32_negative, deletion_hold, protected_backoff}
use netbox_operator.Errors.Client.{NetboxError, not_found, protected}
use package.netbox_operator.Claims.{described, reconcile}
use package.netbox_operator.Claims.Inputs.{Claim, ClaimDescriptor, ClaimEndpoint, World, ClaimPass}
use package.netbox_operator.Claims.Ends.{with_condition}
use package.netbox_operator.Claims.Release.{
  ClaimRelease, attempted, delete_blocked, delete_answered, free, at_endpoint, unless_released,
  releasing, release_without_deleting,
}
use package.netbox_operator.Claims.Kept.{finish-claim}

-- The endpoint of the claim is not ready, or NetBox does not delete the object and does not say that
-- it is gone.
abbrev pub IsRefused : World → Claim → Type 0
IsRefused w c =
    (w.endpoints c.namespace c.endpoint_ref ≡ none)
    ⊎ ((e : ClaimEndpoint) × (f : NetboxError) × (w.endpoints c.namespace c.endpoint_ref ≡ some e)
        × (e.client.delete c.status.netbox_id ≡ err f)
        × (f ≢ not_found))

-- Passes over a claim, each after the backoff, that have an object to delete and are refused.
pub data Refusals : ℕ → Claim → Claim → Type 0 where
  none_refused : (c : Claim) → Refusals 0 c c
  refused_again :
      {n : ℕ} {c c' : Claim}
      → Refusals n c c'
      → (w : World) (d : ClaimDescriptor) → w.desc ≡ some d
      → deletion_hold c'.status.deletion_attempts c'.status.last_deletion_attempt w.now ≡ none
      → release_without_deleting c' ≡ none
      → IsRefused w c'
      → Refusals (suc n) c (reconcile w c').claim

-- A claim that is being deleted and keeps its finalizer after `n` attempts.
abbrev Tried : ℕ → Claim → Type 0
Tried n c = (c.deleting ≡ true) × (c.finalizer ≡ true) × (c.status.deletion_attempts ≡ n)

counted : (n a : ℕ) → a ≡ n → suc n < 11 → int32_inc a ≡ suc n
unfolding int32_inc
counted n a same few = omega arith

too_few :
    (n a : ℕ)
    → a ≡ n
    → suc n < 11
    → (not (int32_negative (int32_inc a)) && leb 11 (int32_inc a)) ≡ false
unfolding int32_inc int32_negative
too_few n a same few = ground arith

module _ (w : World) (before : Claim) (n : ℕ) (few : suc n < 11) where
  delete_blocked-Tried :
      (c : Claim) (reason : String)
      → Tried n c
      → Tried (suc n) (delete_blocked w before c reason).claim
  unfolding delete_blocked
  delete_blocked-Tried c reason (gone, on, count) =
      let blocked = with_condition "Deleting" false reason (attempted w before c) in
      let wait = protected_backoff (int32_inc c.status.deletion_attempts) in
      rw (too_few n c.status.deletion_attempts count few) (
        rw (finish-claim w before blocked wait)
          (gone, on, counted n c.status.deletion_attempts count few))

  delete_answered-Tried :
      (e : ClaimEndpoint) (c : Claim) (f : NetboxError)
      → Tried n c
      → f ≢ not_found
      → Tried (suc n) (delete_answered w before e c (err f)).claim
  delete_answered-Tried e c not_found h other = absurd (other refl)
  delete_answered-Tried e c (protected status) h other = delete_blocked-Tried c _ h
  delete_answered-Tried e c f h other = delete_blocked-Tried c _ h

  at_endpoint-Tried :
      (c : Claim)
      → Tried n c
      → IsRefused w c
      → Tried (suc n) (at_endpoint w before c (w.endpoints c.namespace c.endpoint_ref)).claim
  unfolding free
  at_endpoint-Tried c h (inl closed) = rw closed (delete_blocked-Tried c _ h)
  at_endpoint-Tried c h (inr (e, f, found, refused, other)) =
      rw found (rw refused (delete_answered-Tried e c f h other))

  unless_released-Tried :
      (c : Claim) (out : Option ClaimRelease)
      → out ≡ none
      → Tried n c
      → deletion_hold c.status.deletion_attempts c.status.last_deletion_attempt w.now ≡ none
      → IsRefused w c
      → Tried (suc n) (unless_released w before c out).claim
  unless_released-Tried c none owed h due refused = rw due (at_endpoint-Tried c h refused)
  unless_released-Tried c (some out) owed h due refused = cc

  releasing-Tried :
      (c : Claim)
      → Tried n c
      → deletion_hold c.status.deletion_attempts c.status.last_deletion_attempt w.now ≡ none
      → release_without_deleting c ≡ none
      → IsRefused w c
      → Tried (suc n) (releasing w before c).claim
  unfolding releasing
  releasing-Tried c h due owed refused =
      if-cases (λ (p : ClaimPass). Tried (suc n) p.claim) (not c.finalizer) _ _
        (λ off. absurd ground (arith, off, h.1))
        (λ on. unless_released-Tried c (release_without_deleting c) owed h due refused)

reconcile-Tried :
    (n : ℕ) (w : World) (c : Claim) (d : ClaimDescriptor)
    → suc n < 11
    → w.desc ≡ some d
    → Tried n c
    → deletion_hold c.status.deletion_attempts c.status.last_deletion_attempt w.now ≡ none
    → release_without_deleting c ≡ none
    → IsRefused w c
    → Tried (suc n) (reconcile w c).claim
unfolding reconcile
reconcile-Tried n w c d few known h due owed refused =
    subst (λ (o : Option ClaimDescriptor). Tried (suc n) (described w c o).claim) (sym known)
      (if-cases (λ (p : ClaimPass). Tried (suc n) p.claim) c.deleting _ _
        (λ gone. releasing-Tried w c n few c h due owed refused)
        (λ alive. absurd ground (arith, h.0, alive)))

Refusals-Tried : {n : ℕ} {c c' : Claim} → Refusals n c c' → n < 11 → Tried 0 c → Tried n c'
Refusals-Tried (none_refused c) few h = h
Refusals-Tried (refused_again {n} {c} {c'} so_far w d known due owed refused) few h =
    reconcile-Tried n w c' d few known (Refusals-Tried so_far (omega (arith, few)) h) due owed
      refused

-- A deleted claim with no attempts counted yet and its finalizer on keeps the finalizer over fewer
-- than eleven passes that have an object to delete, each after its backoff and each refused, because
-- the endpoint is not ready or NetBox does not delete the object; and counts each of them.
pub refused-tries :
    {n : ℕ} {c c' : Claim}
    → Refusals n c c'
    → c.deleting ≡ true
    → c.finalizer ≡ true
    → c.status.deletion_attempts ≡ 0
    → n < 11
    → (c'.finalizer ≡ true) × (c'.status.deletion_attempts ≡ n)
refused-tries passes gone on fresh few =
    let (same, kept, count) = Refusals-Tried passes few (gone, on, fresh) in (kept, count)
