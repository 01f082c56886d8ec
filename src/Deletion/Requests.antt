-- ===== src/Deletion/Requests.antt =====
-- Which deletes a pass sends to NetBox.
use netbox_operator.Common.{
  ℕ, ◌≡◌, ◌⊎◌, String, if-cases, inl, inr, refl, Bool, true, false, Option, none, some, List, [],
  ◌∷◌, ◌++◌, Bool-cases, ◌==◌, ap,
}
use netbox_operator.Common.Result.{Result, ok, err}
use netbox_operator.Errors.Client.{NetboxError, not_found, protected}
use netbox_operator.Deletion.{
  Release, blocked, release, report_refusal, cascade_refusal, cascade_event, asked_referrers,
  protected_delete, cascades, refused, delete_failed, delete_answered, delete_object,
  search_answered, deleting, nothing_to_delete, protected_event_after,
}
use netbox_operator.Deletion.Cascade.{
  CascadeRun, any_cascaded, cascade, cascade_loop, cascade_step, delete_cr, Cascaded,
}
use netbox_operator.Deletion.Setting.{
  Obj, Endpoint, World, Pass, PassError, Effect, netbox_delete, netbox_search, Referrer, CrDelete,
  cr_deleted, cr_gone, cr_failed, deleted, finalizers_written, normal, warning, cr_delete,
}
use netbox_operator.Deletion.Guards.{Entitled}
use netbox_operator.Deletion.Sequence.{stamp_filter, deleting-ways}
use netbox_operator.Deletion.Released.{Recorded}

-- The objects that a pass asks NetBox to delete.
abbrev pub asked_deletes : List Effect → List ℕ
asked_deletes [] = []
asked_deletes (netbox_delete i ∷ effects) = i ∷ asked_deletes effects
asked_deletes (netbox_search filter value ∷ effects) = asked_deletes effects
asked_deletes (finalizers_written on ∷ effects) = asked_deletes effects
asked_deletes (normal event ∷ effects) = asked_deletes effects
asked_deletes (warning event ∷ effects) = asked_deletes effects
asked_deletes (cr_delete name ∷ effects) = asked_deletes effects

abbrev pub Quiet : List Effect → Type 0
Quiet effects = asked_deletes effects ≡ []

Quiet-append : (xs ys : List Effect) → Quiet xs → Quiet ys → Quiet (xs ++ ys)
Quiet-append [] ys hx hy = hy
Quiet-append (netbox_delete i ∷ xs) ys hx hy = absurd (cc hx)
Quiet-append (netbox_search filter value ∷ xs) ys hx hy = Quiet-append xs ys hx hy
Quiet-append (finalizers_written on ∷ xs) ys hx hy = Quiet-append xs ys hx hy
Quiet-append (normal event ∷ xs) ys hx hy = Quiet-append xs ys hx hy
Quiet-append (warning event ∷ xs) ys hx hy = Quiet-append xs ys hx hy
Quiet-append (cr_delete name ∷ xs) ys hx hy = Quiet-append xs ys hx hy

pub cascade_step-Quiet :
    (r : Referrer) (answer : Result PassError CrDelete) (rest : Cascaded → CascadeRun)
    (out : Cascaded)
    → ((o : Cascaded) → Quiet (rest o).1)
    → Quiet (cascade_step r answer rest out).1
unfolding cascade_step
cascade_step-Quiet r (ok cr_deleted) rest out h = h _
cascade_step-Quiet r (ok cr_gone) rest out h = h out
cascade_step-Quiet r (ok cr_failed) rest out h = refl
cascade_step-Quiet r (err e) rest out h = refl

pub cascade_loop-Quiet :
    (delete : Referrer → Result PassError CrDelete) (rs : List Referrer) (out : Cascaded)
    → Quiet (cascade_loop delete rs out).1
unfolding cascade_loop
cascade_loop-Quiet delete [] out = refl
cascade_loop-Quiet delete (r ∷ rs) out =
    if-cases (λ (c : CascadeRun). Quiet c.1) r.deleting _ _ (λ t. cascade_loop-Quiet delete rs _)
      (λ t. cascade_step-Quiet r (delete r) _ out (cascade_loop-Quiet delete rs))

module _ (world : World) where
  pub release-Quiet : (obj : Obj) (out : Release) → Quiet (release world obj out).effects
  unfolding release
  release-Quiet obj out =
      elim (Bool-cases (world.update_finalizers (record obj { finalizer = false }))) [
        | inl t ↦ rw t (elim (Bool-cases out.warn) [ inl w ↦ rw w refl | inr w ↦ rw w refl ])
        | inr t ↦ rw t refl
      ]

  pub cascade-Quiet :
      (obj : Obj) (referrers : Option (List Referrer)) → Quiet (cascade world obj referrers).1
  unfolding cascade
  cascade-Quiet obj none = refl
  cascade-Quiet obj (some rs) = cascade_loop-Quiet (delete_cr world.children) rs _

  pub report_refusal-Quiet : (obj : Obj) (wait : ℕ) → Quiet (report_refusal world obj wait).effects
  unfolding report_refusal blocked
  report_refusal-Quiet obj wait =
      elim (Bool-cases (obj.deletion_attempts == protected_event_after)) [
        | inl t ↦ rw t refl
        | inr t ↦ rw t refl
      ]

  cascade_event-Quiet : (names : List String) → Quiet (cascade_event world names)
  cascade_event-Quiet [] = refl
  cascade_event-Quiet (name ∷ names) = refl

  pub cascade_refusal-Quiet :
      (obj : Obj) (wait : ℕ) (c : CascadeRun)
      → Quiet c.1
      → Quiet (cascade_refusal world obj wait c).effects
  unfolding cascade_refusal blocked
  cascade_refusal-Quiet obj wait (err e, effects) h = h
  cascade_refusal-Quiet obj wait (ok out, effects) h =
      Quiet-append effects _ h (elim (Bool-cases (any_cascaded out)) [
        | inl t ↦ rw t (
            Quiet-append (cascade_event world out.deleted) [] (cascade_event-Quiet out.deleted)
              refl)
        | inr t ↦ rw t (report_refusal-Quiet obj wait)
      ])

  pub asked_referrers-Quiet :
      (obj : Obj) (referrers : Option (Obj → Option (List Referrer))) (wait : ℕ)
      → Quiet (asked_referrers world obj referrers wait).effects
  asked_referrers-Quiet obj none wait = report_refusal-Quiet obj wait
  asked_referrers-Quiet obj (some referring) wait =
      cascade_refusal-Quiet obj wait (cascade world obj (referring obj))
        (cascade-Quiet obj (referring obj))

  pub protected_delete-Quiet : (obj : Obj) → Quiet (protected_delete world obj).effects
  unfolding protected_delete
  protected_delete-Quiet obj = elim (Bool-cases (cascades world obj)) [
    | inl t ↦ rw t (asked_referrers-Quiet (refused world obj) world.referrers _)
    | inr t ↦ rw t (report_refusal-Quiet (refused world obj) _)
  ]

  pub delete_answered-Quiet :
      (e : Endpoint) (obj : Obj) (answer : Result NetboxError Bool)
      → Quiet (delete_answered world e obj answer).effects
  unfolding delete_answered delete_failed blocked
  delete_answered-Quiet e obj (ok b) = release-Quiet obj (record { event = deleted; warn = b })
  delete_answered-Quiet e obj (err not_found) =
      release-Quiet obj (record { event = deleted; warn = false })
  delete_answered-Quiet e obj (err (protected status)) = protected_delete-Quiet obj
  delete_answered-Quiet e obj (err failure) = refl

  pub delete_object-asked :
      (e : Endpoint) (obj : Obj) → asked_deletes (delete_object world e obj).effects ≡ obj.id ∷ []
  unfolding delete_object
  delete_object-asked e obj = ap (λ is. obj.id ∷ is) (delete_answered-Quiet e obj (e.delete obj.id))

  -- What the effects of a pass may be.
  abbrev pub Asks : Obj → Pass → Type 0
  Asks obj p =
      Quiet p.effects
      ⊎ ((e : Endpoint) × (i : ℕ) × (asked_deletes p.effects ≡ i ∷ [])
          × Entitled world obj e
          × Recorded world obj e i)

  pub search_answered-asked :
      (e : Endpoint) (obj : Obj) (answer : Result NetboxError (Option (Option ℕ)))
      → Quiet (search_answered world e obj answer).effects
        ⊎ ((i : ℕ) × (answer ≡ ok (some (some i)))
            × (asked_deletes (search_answered world e obj answer).effects ≡ i ∷ []))
  unfolding search_answered blocked
  search_answered-asked e obj (err failure) = inl refl
  search_answered-asked e obj (ok none) = inl (release-Quiet obj nothing_to_delete)
  search_answered-asked e obj (ok (some none)) = inl refl
  search_answered-asked e obj (ok (some (some id))) =
      inr (id, refl, delete_object-asked e (record obj { id = id }))

  -- A pass over an object with the finalizer on sends NetBox at most one delete, of the object that is
  -- recorded or, if none is, that carries the stamp; and only if no guard keeps it from that: neither
  -- the annotation nor the policy, nor a loss of data, a dependent or the backoff.
  pub deleting-requests : (obj : Obj) → obj.finalizer ≡ true → Asks obj (deleting world obj)
  unfolding blocked
  deleting-requests obj on =
      deleting-ways world obj (Asks obj) (λ out h. inl (release-Quiet obj out))
        (λ reason wait h. inl refl) (λ wait h. inl refl)
        (λ e h set. inr (e, obj.id, delete_object-asked e obj, h, inl (refl, set)))
        (λ e h unset s. elim (search_answered-asked e obj (e.get_one (stamp_filter e) obj.uid)) [
          | inl quiet ↦ inl quiet
          | inr (i, found, asked) ↦ inr (e, i, asked, h, inr (unset, s, found))
        ])
        on
