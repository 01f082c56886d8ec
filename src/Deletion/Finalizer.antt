-- ===== src/Deletion/Finalizer.antt =====
-- The finalizer and the API server: what takeFinalizer and a pass leave on the object.
use netbox_operator.Common.{
  ◌≡◌, ◌⊎◌, inl, inr, refl, Bool, true, false, Option, none, some, [], ◌∷◌, if-cases, sym, ap,
}
use netbox_operator.Deletion.{FinalizerWriter, add_finalizer, take_finalizer}
use netbox_operator.Deletion.Setting.{
  Obj, Pass, PassError, finalizers_written, done, failed, not_configured, finalizers_refused,
}

-- What takeFinalizer leaves: success with the finalizer on, written if it was not; or an error and
-- the object as it was.
abbrev pub Taken : Option FinalizerWriter → Obj → Pass → Type 0
Taken writer obj p =
    ((p.answer ≡ done)
      × (p.obj ≡ record obj { finalizer = true })
      × ((obj.finalizer ≡ true)
          ⊎ ((update : FinalizerWriter) × (writer ≡ some update)
              × (update (record obj { finalizer = true }) ≡ true)
              × (p.effects ≡ finalizers_written true ∷ []))))
    ⊎ ((e : PassError) × (p.answer ≡ failed e)
        × (p.obj ≡ obj)
        × (obj.finalizer ≡ false)
        × (p.effects ≡ []))

abbrev with_finalizer : Obj → Bool → Obj
with_finalizer obj on = record obj { finalizer = on }

pub add_finalizer-Taken :
    (writer : Option FinalizerWriter) (obj : Obj)
    → obj.finalizer ≡ false
    → Taken writer obj (add_finalizer obj writer)
add_finalizer-Taken none obj off = inr (not_configured, refl, refl, off, refl)
add_finalizer-Taken (some update) obj off =
    if-cases (Taken (some update) obj) (update (with_finalizer obj true)) _ _
      (λ taken. inl (refl, refl, inr (update, refl, taken, refl)))
      (λ refused. inr (finalizers_refused, refl, sym (ap (with_finalizer obj) off), off, refl))

-- takeFinalizer answers without an error only where the finalizer is on the object that the API
-- server has, because it was there or because the write was taken; an error leaves the object as it
-- was.
take_finalizer-Taken :
    (writer : Option FinalizerWriter) (obj : Obj) → Taken writer obj (take_finalizer writer obj)
unfolding take_finalizer
take_finalizer-Taken writer obj =
    if-cases (Taken writer obj) obj.finalizer _ _
      (λ on. inl (refl, ap (with_finalizer obj) on, inl on)) (add_finalizer-Taken writer obj)
