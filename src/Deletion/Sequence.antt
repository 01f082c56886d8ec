-- ===== src/Deletion/Sequence.antt =====
-- The ways through `deleting`, as a principle: what holds of a pass at the end of every way holds of
-- every pass.
use Prim.Native.String.{◌++◌ as str_append}
use netbox_operator.Common.{
  ℕ, ◌≡◌, ◌≢◌, ◌<◌, inl, inr, refl, String, true, false, not, ◌&&◌, Option, none, some, List, [],
  ◌∷◌, arith, ◌==◌, Bool-cases, if-cases,
}
use netbox_operator.Errors.{endpoint_retry}
use netbox_operator.Deletion.{
  Release, finish, after, blocked, may_be_stamped, stamp_identifies, nothing_to_delete, skips,
  retains, release_without_deleting, data_loss_blocked, pending_dependents, release,
  search_answered, delete_object, delete_by_stamp, delete_now, at_endpoint, after_dependents,
  decide, deleting, resync, child_retry,
}
use netbox_operator.Deletion.Setting.{
  Obj, ChildRef, Endpoint, World, Pass, netbox_search, finalizer_skipped, retained,
}
use netbox_operator.Deletion.Backoff.{deletion_hold}
use netbox_operator.Deletion.Guards.{
  Entitled, Unasked, Identified, skips_iff, retains_iff, data_loss_blocked-allowed,
  pending_dependents-gone, may_be_stamped_iff, stamp_identifies_iff,
}

abbrev pub stamp_filter : Endpoint → String
stamp_filter e = str_append "cf_" e.provenance.uid_field

pub resync-positive : (e : Option Endpoint) → 0 < resync e
unfolding resync
resync-positive none = omega arith
resync-positive (some e) = ground arith

pub deletion_hold-positive :
    (attempts : ℕ) (last : Option ℕ) (now remaining : ℕ)
    → deletion_hold attempts last now ≡ some remaining
    → 0 < remaining
unfolding deletion_hold
deletion_hold-positive attempts none now remaining h = ground arith
deletion_hold-positive attempts (some last) now remaining h = ground arith

module _ (world : World) (obj : Obj) (P : Pass → Type 0)
    (released : (out : Release) → Unasked world obj → P (release world obj out))
    (waits : (reason : String) (wait : ℕ) → 0 < wait → P (blocked obj reason wait))
    (holds : (wait : ℕ) → 0 < wait → P (finish obj wait))
    (deletes : (e : Endpoint) → Entitled world obj e → obj.id ≢ 0 → P (delete_object world e obj))
    (searches : (e : Endpoint)
      → Entitled world obj e
      → obj.id ≡ 0
      → Identified world e obj
      → P (
          after
            (netbox_search (stamp_filter e) obj.uid ∷ [])
            (search_answered world e obj (e.get_one (stamp_filter e) obj.uid)))) where
  pub delete_by_stamp-ways :
      (e : Endpoint) → Entitled world obj e → obj.id ≡ 0 → P (delete_by_stamp world e obj)
  unfolding delete_by_stamp
  delete_by_stamp-ways e h unset = elim (Bool-cases (stamp_identifies world e obj)) [
    | inl t ↦ rw t (searches e h unset ((stamp_identifies_iff world e obj).0 t))
    | inr t ↦ rw t (
        released nothing_to_delete (
          inr (
            inr (
              unset,
              inr (inr (e, h.ready, λ i. absurd (cc (t, (stamp_identifies_iff world e obj).1 i)))),
            ))))
  ]

  pub delete_now-ways :
      (e : Endpoint) (hold : Option ℕ)
      → deletion_hold obj.deletion_attempts obj.last_deletion_attempt world.now ≡ hold
      → (hold ≡ none → Entitled world obj e)
      → P (delete_now world e obj hold)
  delete_now-ways e (some remaining) h entitled =
      holds remaining (
        deletion_hold-positive obj.deletion_attempts obj.last_deletion_attempt world.now remaining
          h)
  delete_now-ways e none h entitled = elim (Bool-cases (obj.id == 0)) [
    | inl t ↦ rw t (delete_by_stamp-ways e (entitled refl) (ground arith))
    | inr t ↦ rw t (deletes e (entitled refl) (ground arith))
  ]

  pub at_endpoint-ways :
      (ready : Option Endpoint)
      → world.endpoints obj.namespace obj.endpoint_ref ≡ ready
      → ((e : Endpoint)
          → ready ≡ some e
          → deletion_hold obj.deletion_attempts obj.last_deletion_attempt world.now ≡ none
          → Entitled world obj e)
      → P (at_endpoint world obj ready)
  at_endpoint-ways none h entitled = elim (Bool-cases (obj.id == 0)) [
    | inl t ↦ rw t (released nothing_to_delete (inr (inr (ground arith, inr (inl h)))))
    | inr t ↦ rw t (waits "WaitingForEndpoint" endpoint_retry (omega arith))
  ]
  at_endpoint-ways (some e) h entitled =
      delete_now-ways e (deletion_hold obj.deletion_attempts obj.last_deletion_attempt world.now)
        refl (entitled e refl)

  pub after_dependents-ways :
      skips obj ≡ false
      → retains obj ≡ false
      → data_loss_blocked world obj ≡ false
      → (alive : List ChildRef) → pending_dependents world obj ≡ alive
      → P (after_dependents world obj alive)
  after_dependents-ways h0 h1 h2 [] h3 =
      at_endpoint-ways (world.endpoints obj.namespace obj.endpoint_ref) refl (λ e ready due.
        record {
          not_skipped = λ h. absurd (cc (h0, (skips_iff obj).1 h));
          not_retained = λ h. absurd (cc (h1, (retains_iff obj).1 h));
          data_loss_allowed = data_loss_blocked-allowed world obj h2;
          no_dependents = pending_dependents-gone world obj h3;
          ready = ready;
          due = due;
        })
  after_dependents-ways h0 h1 h2 (child ∷ children) h3 =
      waits "PendingDependents" child_retry (omega arith)

  -- The guards of releaseWithoutDeleting.
  pub decide-ways : P (decide world obj (release_without_deleting world obj))
  unfolding release_without_deleting
  decide-ways = elim (Bool-cases (skips obj)) [
    | inl t ↦
        rw t
          (released (record { event = finalizer_skipped; warn = true }) (inl ((skips_iff obj).0 t)))
    | inr s ↦ rw s (elim (Bool-cases (retains obj)) [
      | inl t ↦
          rw t (
            released (record { event = retained; warn = false })
              (inr (inl ((retains_iff obj).0 t))))
      | inr r ↦ rw r (elim (Bool-cases (obj.id == 0 && not (may_be_stamped world obj))) [
        | inl t ↦ rw t (
            released nothing_to_delete (
              inr (
                inr (
                  ground arith,
                  inl (λ s. absurd (ground (arith, (may_be_stamped_iff world obj).1 s))),
                ))))
        | inr t ↦ rw t (elim (Bool-cases (data_loss_blocked world obj)) [
          | inl b ↦ rw b (waits "DataLossBlocked" (resync none) (resync-positive none))
          | inr b ↦ rw b (after_dependents-ways s r b (pending_dependents world obj) refl)
        ])
      ])
    ])
  ]

  pub deleting-ways : (obj.finalizer ≡ true) → P (deleting world obj)
  unfolding deleting
  deleting-ways on =
      if-cases P (not obj.finalizer) _ _ (λ off. absurd (ground arith)) (λ h. decide-ways)
