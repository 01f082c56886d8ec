-- ===== src/Claims/GivesUp.antt =====
-- The deletion of a claim ends: after claimDeleteAttempts refused deletes the object is left.
use mathlib.Core.Path.{subst}
use netbox_operator.Common.{
  sym, ℕ, suc, ◌<◌, ◌≤◌, ◌≡◌, ◌⊎◌, inl, inr, refl, String, Bool, true, false, not, Option, none,
  some, if-cases, arith, leb, ◌&&◌,
}
use netbox_operator.Common.Result.{Result, ok, err}
use netbox_operator.Deletion.Backoff.{int32_inc, int32_negative, deletion_hold, protected_backoff}
use netbox_operator.Errors.Client.{NetboxError, not_found, protected}
use netbox_operator.Json.{Object}
use package.netbox_operator.Claims.{described, reconcile}
use package.netbox_operator.Claims.Inputs.{Claim, ClaimDescriptor, ClaimEndpoint, World, ClaimPass}
use package.netbox_operator.Claims.Ends.{with_condition}
use package.netbox_operator.Claims.Release.{
  ClaimRelease, retained, release, gives_up, attempted, delete_blocked, delete_answered, free,
  at_endpoint, unless_released, releasing, release_without_deleting,
}
use package.netbox_operator.Claims.Kept.{finish-claim}

-- The API server takes every write of the finalizers.
abbrev pub IsTaking : World → Type 0
IsTaking w =
    (update : Claim → Bool) × (w.finalizers ≡ some update) × ((c : Claim) → update c ≡ true)

-- A deleted claim is released, or `n` attempts to delete its object were refused, fewer than 11.
abbrev pub Attempted : ℕ → Claim → Type 0
Attempted n c =
    (c.deleting ≡ true) × ((c.finalizer ≡ false) ⊎ ((c.status.deletion_attempts ≡ n) × (n < 11)))

incremented : (n a : ℕ) → a ≡ n → n < 11 → int32_inc a ≡ suc n
unfolding int32_inc
incremented n a same few = omega arith

still_few :
    (n a : ℕ)
    → a ≡ n
    → n < 11
    → (not (int32_negative (int32_inc a)) && leb 11 (int32_inc a)) ≡ false
    → suc n < 11
unfolding int32_inc int32_negative
still_few n a same few again = ground arith

module _ (w : World) (taking : IsTaking w) (before : Claim) where
  abbrev After : ℕ → ClaimPass → Type 0
  After n p = Attempted n p.claim

  release-After :
      (n : ℕ) (c : Claim) (out : ClaimRelease)
      → c.deleting ≡ true
      → After n (release w before c out)
  unfolding release
  release-After n c out gone =
      let (update, wired, takes) = taking in
      let off : Claim = record c { finalizer = false } in rw wired (rw (takes off) (gone, inl refl))

  delete_blocked-After :
      (n : ℕ) (c : Claim) (reason : String)
      → c.deleting ≡ true
      → c.status.deletion_attempts ≡ n
      → n < 11
      → After (suc n) (delete_blocked w before c reason)
  unfolding delete_blocked
  delete_blocked-After n c reason gone count few =
      if-cases (After (suc n)) (gives_up w before (attempted w before c).status.deletion_attempts) _
        _ (λ over. release-After (suc n) (attempted w before c) (retained true) gone)
        (λ again.
          let blocked = with_condition "Deleting" false reason (attempted w before c) in
          let wait = protected_backoff (int32_inc c.status.deletion_attempts) in
          rw (finish-claim w before blocked wait) (
            gone,
            inr (
              incremented n c.status.deletion_attempts count few,
              still_few n c.status.deletion_attempts count few again,
            ),
          ))

  delete_answered-After :
      (n : ℕ) (e : ClaimEndpoint) (c : Claim)
      → c.deleting ≡ true
      → c.status.deletion_attempts ≡ n
      → n < 11
      → (r : Result NetboxError Object) → After (suc n) (delete_answered w before e c r)
  delete_answered-After n e c gone count few (ok out) = release-After (suc n) c _ gone
  delete_answered-After n e c gone count few (err not_found) = release-After (suc n) c _ gone
  delete_answered-After n e c gone count few (err (protected status)) =
      delete_blocked-After n c _ gone count few
  delete_answered-After n e c gone count few (err f) = delete_blocked-After n c _ gone count few

  at_endpoint-After :
      (n : ℕ) (c : Claim)
      → c.deleting ≡ true
      → c.status.deletion_attempts ≡ n
      → n < 11
      → (e : Option ClaimEndpoint) → After (suc n) (at_endpoint w before c e)
  unfolding free
  at_endpoint-After n c gone count few none = delete_blocked-After n c _ gone count few
  at_endpoint-After n c gone count few (some e) =
      delete_answered-After n e c gone count few (e.client.delete c.status.netbox_id)

  unless_released-After :
      (n : ℕ) (c : Claim)
      → c.deleting ≡ true
      → c.status.deletion_attempts ≡ n
      → n < 11
      → deletion_hold c.status.deletion_attempts c.status.last_deletion_attempt w.now ≡ none
      → (out : Option ClaimRelease) → After (suc n) (unless_released w before c out)
  unless_released-After n c gone count few due (some out) = release-After (suc n) c out gone
  unless_released-After n c gone count few due none =
      rw due (at_endpoint-After n c gone count few (w.endpoints c.namespace c.endpoint_ref))

  releasing-After :
      (n : ℕ) (c : Claim)
      → deletion_hold c.status.deletion_attempts c.status.last_deletion_attempt w.now ≡ none
      → Attempted n c
      → After (suc n) (releasing w before c)
  unfolding releasing
  releasing-After n c due (gone, inl off) = rw off (gone, inl refl)
  releasing-After n c due (gone, inr (count, few)) =
      if-cases (After (suc n)) (not c.finalizer) _ _ (λ off. (gone, inl (ground (arith, off))))
        (λ on. unless_released-After n c gone count few due (release_without_deleting c))

-- Passes over a deleted claim, each after the backoff and with its writes taken.
pub data Passes : ℕ → Claim → Claim → Type 0 where
  none_yet : (c : Claim) → Passes 0 c c
  one_more :
      {n : ℕ} {c c' : Claim}
      → Passes n c c'
      → (w : World) (d : ClaimDescriptor) → w.desc ≡ some d
      → IsTaking w
      → deletion_hold c'.status.deletion_attempts c'.status.last_deletion_attempt w.now ≡ none
      → Passes (suc n) c (reconcile w c').claim

reconcile-Attempted :
    (n : ℕ) (w : World) (c : Claim) (d : ClaimDescriptor)
    → w.desc ≡ some d
    → IsTaking w
    → deletion_hold c.status.deletion_attempts c.status.last_deletion_attempt w.now ≡ none
    → Attempted n c
    → Attempted (suc n) (reconcile w c).claim
unfolding reconcile
reconcile-Attempted n w c d known taking due so_far =
    subst (λ (o : Option ClaimDescriptor). Attempted (suc n) (described w c o).claim) (sym known)
      (if-cases (λ (p : ClaimPass). Attempted (suc n) p.claim) c.deleting _ _
        (λ gone. releasing-After w taking c n c due so_far)
        (λ alive. absurd ground (arith, so_far.0, alive)))

Passes-Attempted : {n : ℕ} {c c' : Claim} → Passes n c c' → Attempted 0 c → Attempted n c'
Passes-Attempted (none_yet c) h = h
Passes-Attempted (one_more {n} {c} {c'} before w d known taking due) h =
    reconcile-Attempted n w c' d known taking due (Passes-Attempted before h)

-- Eleven or more passes over a deleted claim with no attempts counted yet, each after its backoff and
-- with its writes taken by the API server, release it, whatever NetBox and the endpoint answer.
pub deletion_gives_up :
    {n : ℕ} {c c' : Claim}
    → Passes n c c'
    → c.deleting ≡ true
    → c.status.deletion_attempts ≡ 0
    → 11 ≤ n
    → c'.finalizer ≡ false
deletion_gives_up passes gone fresh enough =
    elim (Passes-Attempted passes (gone, inr (fresh, omega arith))).1 [
      | inl off ↦ off
      | inr (count, few) ↦ absurd (omega arith)
    ]
