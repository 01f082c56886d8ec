-- ===== src/Deletion/Released.antt =====
-- When the finalizer comes off, and how a pass that keeps it on comes back.
use netbox_operator.Common.{
  ℕ, ◌≡◌, ◌≢◌, ◌<◌, ◌⊎◌, inl, inr, refl, Bool, true, false, Option, none, some, List, Bool-cases,
}
use netbox_operator.Common.Result.{Result, ok, err, Result-cases}
use netbox_operator.Errors.{client, classify}
use netbox_operator.Errors.Client.{NetboxError, not_found, protected}
use netbox_operator.Errors.Table.{classify-requeue}
use netbox_operator.Deletion.{
  Release, blocked, release, report_refusal, cascade_refusal, asked_referrers, protected_delete,
  cascades, refused, delete_failed, delete_answered, delete_object, search_answered, deleting,
  resync, nothing_to_delete,
}
use netbox_operator.Deletion.Cascade.{CascadeRun, any_cascaded, cascade}
use netbox_operator.Deletion.Setting.{
  Obj, Endpoint, World, Pass, PassError, requeued, failed, finalizers_refused, deleted, Referrer,
}
use netbox_operator.Deletion.Backoff.{protected_backoff, int32_inc, protected_backoff-positive}
use netbox_operator.Deletion.Guards.{Entitled, Unasked, Identified}
use netbox_operator.Deletion.Sequence.{stamp_filter, deleting-ways, resync-positive}

-- NetBox has deleted the object, or a dry run has accepted the request, or there is none.
abbrev pub Gone : Endpoint → ℕ → Type 0
Gone e i = ((b : Bool) × (e.delete i ≡ ok b)) ⊎ (e.delete i ≡ err not_found)

-- The object that a search by the stamp found, if the object of the cluster records none.
abbrev pub Recorded : World → Obj → Endpoint → ℕ → Type 0
Recorded world obj e i =
    ((obj.id ≡ i) × (i ≢ 0))
    ⊎ ((obj.id ≡ 0)
        × Identified world e obj
        × (e.get_one (stamp_filter e) obj.uid ≡ ok (some (some i))))

abbrev pub Justified : World → Obj → Type 0
Justified world obj =
    Unasked world obj
    ⊎ ((e : Endpoint) × Entitled world obj e
        × (((obj.id ≡ 0) × (e.get_one (stamp_filter e) obj.uid ≡ ok none))
            ⊎ ((i : ℕ) × Recorded world obj e i × Gone e i)))

-- A pass releases, or fails, or comes back after a positive delay.
abbrev pub Ends : Pass → Type 0
Ends p =
    (p.obj.finalizer ≡ false)
    ⊎ ((e : PassError) × (p.answer ≡ failed e))
    ⊎ ((wait : ℕ) × (p.answer ≡ requeued wait) × (0 < wait))

module _ (world : World) where
  pub release-Ends : (obj : Obj) (out : Release) → Ends (release world obj out)
  unfolding release
  release-Ends obj out =
      elim (Bool-cases (world.update_finalizers (record obj { finalizer = false }))) [
        | inl t ↦ rw t (inl refl)
        | inr t ↦ rw t (inr (inl (finalizers_refused, refl)))
      ]

  pub report_refusal-keeps :
      (obj : Obj) (wait : ℕ)
      → ((report_refusal world obj wait).obj.finalizer ≡ obj.finalizer)
        × ((report_refusal world obj wait).answer ≡ requeued wait)
  unfolding report_refusal blocked
  report_refusal-keeps obj wait = (refl, refl)

  pub cascade_refusal-keeps :
      (obj : Obj) (wait : ℕ) (c : CascadeRun)
      → ((cascade_refusal world obj wait c).obj.finalizer ≡ obj.finalizer)
        × (((e : PassError) × ((cascade_refusal world obj wait c).answer ≡ failed e))
            ⊎ ((cascade_refusal world obj wait c).answer ≡ requeued wait))
  unfolding cascade_refusal report_refusal blocked
  cascade_refusal-keeps obj wait (err e, effects) = (refl, inl (e, refl))
  cascade_refusal-keeps obj wait (ok out, effects) = elim (Bool-cases (any_cascaded out)) [
    | inl t ↦ rw t ((refl, inr refl))
    | inr t ↦ rw t ((refl, inr refl))
  ]

  pub asked_referrers-keeps :
      (obj : Obj) (referrers : Option (Obj → Option (List Referrer))) (wait : ℕ)
      → ((asked_referrers world obj referrers wait).obj.finalizer ≡ obj.finalizer)
        × (((e : PassError) × ((asked_referrers world obj referrers wait).answer ≡ failed e))
            ⊎ ((asked_referrers world obj referrers wait).answer ≡ requeued wait))
  asked_referrers-keeps obj none wait =
      ((report_refusal-keeps obj wait).0, inr (report_refusal-keeps obj wait).1)
  asked_referrers-keeps obj (some referring) wait =
      cascade_refusal-keeps obj wait (cascade world obj (referring obj))

  -- A refused delete keeps the finalizer, and comes back after its backoff if it does not fail.
  pub protected_delete-keeps :
      (obj : Obj)
      → ((protected_delete world obj).obj.finalizer ≡ obj.finalizer)
        × (((e : PassError) × ((protected_delete world obj).answer ≡ failed e))
            ⊎ ((protected_delete world obj).answer
                ≡ requeued (protected_backoff (int32_inc obj.deletion_attempts))))
  unfolding protected_delete
  protected_delete-keeps obj = elim (Bool-cases (cascades world obj)) [
    | inl t ↦ rw t (
        asked_referrers-keeps (refused world obj) world.referrers
          (protected_backoff (int32_inc obj.deletion_attempts)))
    | inr t ↦
        let wait = protected_backoff (int32_inc obj.deletion_attempts) in
        rw t (
          (report_refusal-keeps (refused world obj) wait).0,
          inr (report_refusal-keeps (refused world obj) wait).1,
        )
  ]

  pub protected_delete-Ends : (obj : Obj) → Ends (protected_delete world obj)
  protected_delete-Ends obj = elim (protected_delete-keeps obj).1 [
    | inl h ↦ inr (inl h)
    | inr h ↦ inr (
        inr (
          protected_backoff (int32_inc obj.deletion_attempts),
          h,
          protected_backoff-positive (int32_inc obj.deletion_attempts),
        ))
  ]

  pub delete_failed-Ends :
      (e : Endpoint) (obj : Obj) (failure : NetboxError) → Ends (delete_failed world e obj failure)
  unfolding delete_failed blocked
  delete_failed-Ends e obj not_found = release-Ends obj (record { event = deleted; warn = false })
  delete_failed-Ends e obj (protected status) = protected_delete-Ends obj
  delete_failed-Ends e obj failure = inr (
      inr (
        (classify (client failure) (resync (some e))).requeue,
        refl,
        classify-requeue (client failure) (resync (some e)) (resync-positive (some e)),
      ))

  pub delete_object-Ends : (e : Endpoint) (obj : Obj) → Ends (delete_object world e obj)
  unfolding delete_object delete_answered
  delete_object-Ends e obj = elim (Result-cases (e.delete obj.id)) [
    | inl (b, h) ↦ rw h (release-Ends obj (record { event = deleted; warn = b }))
    | inr (f, h) ↦ rw h (delete_failed-Ends e obj f)
  ]

  pub search_answered-Ends :
      (e : Endpoint) (obj : Obj) (answer : Result NetboxError (Option (Option ℕ)))
      → Ends (search_answered world e obj answer)
  unfolding search_answered blocked
  search_answered-Ends e obj (err failure) = inr (
      inr (
        (classify (client failure) (resync (some e))).requeue,
        refl,
        classify-requeue (client failure) (resync (some e)) (resync-positive (some e)),
      ))
  search_answered-Ends e obj (ok none) = release-Ends obj nothing_to_delete
  search_answered-Ends e obj (ok (some none)) =
      inr (inr (resync (some e), refl, resync-positive (some e)))
  search_answered-Ends e obj (ok (some (some id))) = delete_object-Ends e (record obj { id = id })

  -- A pass over an object with the finalizer on takes it off, or returns an error, or asks to come
  -- back after a positive delay.
  pub deleting-Ends : (obj : Obj) → obj.finalizer ≡ true → Ends (deleting world obj)
  unfolding blocked
  deleting-Ends obj on =
      deleting-ways world obj Ends (λ out h. release-Ends obj out)
        (λ reason wait h. inr (inr (wait, refl, h))) (λ wait h. inr (inr (wait, refl, h)))
        (λ e h set. delete_object-Ends e obj)
        (λ e h unset s. search_answered-Ends e obj (e.get_one (stamp_filter e) obj.uid)) on

  abbrev pub Off : Pass → Type 0
  Off p = p.obj.finalizer ≡ false

  pub delete_answered-Gone :
      (e : Endpoint) (obj : Obj) (answer : Result NetboxError Bool)
      → e.delete obj.id ≡ answer
      → obj.finalizer ≡ true
      → Off (delete_answered world e obj answer)
      → Gone e obj.id
  unfolding delete_answered delete_failed blocked
  delete_answered-Gone e obj (ok b) h on off = inl (b, h)
  delete_answered-Gone e obj (err not_found) h on off = inr h
  delete_answered-Gone e obj (err (protected status)) h on off =
      absurd (cc ((protected_delete-keeps obj).0, on, off))
  delete_answered-Gone e obj (err failure) h on off = absurd (cc (on, off))

  pub delete_object-Gone :
      (e : Endpoint) (obj : Obj)
      → obj.finalizer ≡ true
      → Off (delete_object world e obj)
      → Gone e obj.id
  unfolding delete_object
  delete_object-Gone e obj on off = delete_answered-Gone e obj (e.delete obj.id) refl on off

  pub search_answered-Off :
      (e : Endpoint) (obj : Obj) (answer : Result NetboxError (Option (Option ℕ)))
      → obj.finalizer ≡ true
      → Off (search_answered world e obj answer)
      → (answer ≡ ok none) ⊎ ((i : ℕ) × (answer ≡ ok (some (some i))) × Gone e i)
  unfolding search_answered blocked
  search_answered-Off e obj (err failure) on off = absurd (cc (on, off))
  search_answered-Off e obj (ok none) on off = inl refl
  search_answered-Off e obj (ok (some none)) on off = absurd (cc (on, off))
  search_answered-Off e obj (ok (some (some id))) on off =
      inr (id, refl, delete_object-Gone e (record obj { id = id }) on off)

  -- The finalizer comes off only for a reason: an annotation or the policy says so, or nothing is
  -- recorded or found in NetBox, or NetBox has answered a delete of the recorded object.
  pub deleting-released :
      (obj : Obj)
      → obj.finalizer ≡ true
      → (deleting world obj).obj.finalizer ≡ false
      → Justified world obj
  unfolding blocked
  deleting-released obj on =
      deleting-ways world obj (λ p. Off p → Justified world obj) (λ out h off. inl h)
        (λ reason wait h off. absurd (cc (on, off))) (λ wait h off. absurd (cc (on, off)))
        (λ e h set off. inr (e, h, inr (obj.id, inl (refl, set), delete_object-Gone e obj on off)))
        (λ e h unset s off.
          elim (search_answered-Off e obj (e.get_one (stamp_filter e) obj.uid) on off) [
            | inl none_found ↦ inr (e, h, inl (unset, none_found))
            | inr (i, found, gone) ↦ inr (e, h, inr (i, inr (unset, s, found), gone))
          ])
        on
