-- ===== src/Deletion/Cascade.antt =====
-- internal/reconciler/cascade.go: a refused delete takes the objects that refer to the object along.
use netbox_operator.Common.{
  String, Bool, true, false, Option, none, some, List, [], ◌∷◌, ◌++◌, if◌then◌else◌,
}
use netbox_operator.Common.Result.{Result, ok, err}
use netbox_operator.Deletion.Setting.{
  Obj, Referrer, CrDelete, cr_deleted, cr_gone, cr_failed, Children, World, Effect, cr_delete,
  PassError, referrers_failed, cascade_failed, nil_children,
}

-- What one cascading pass did. The source sorts both lists for the message.
pub record Cascaded : Type 0 where
  pub deleted : List String
  pub waiting : List String

unfoldable pub any_cascaded : Cascaded → Bool
any_cascaded out = elim out.deleted [
  | d ∷ ds ↦ true
  | [] ↦ elim out.waiting [ w ∷ ws ↦ true | [] ↦ false ]
]

abbrev pub CascadeRun : Type 0
CascadeRun = Result PassError Cascaded × List Effect

-- What follows the delete of one referrer in the loop of `cascade`.
unfoldable pub cascade_step :
    Referrer → Result PassError CrDelete → (Cascaded → CascadeRun) → Cascaded → CascadeRun
cascade_step r (ok cr_deleted) rest out =
    let later = rest (record out { deleted = out.deleted ++ r.name ∷ [] }) in
    (later.0, cr_delete r.name ∷ later.1)
cascade_step r (ok cr_gone) rest out = rest out
cascade_step r (ok cr_failed) rest out = (err (cascade_failed r.name), [])
cascade_step r (err e) rest out = (err e, [])

unfoldable pub cascade_loop :
    (Referrer → Result PassError CrDelete) → List Referrer → Cascaded → CascadeRun
unfolding cascade_step
cascade_loop delete [] out = (ok out, [])
cascade_loop delete (r ∷ rs) out =
    let rest = cascade_loop delete rs in
    if r.deleting
    then rest (record out { waiting = out.waiting ++ r.name ∷ [] })
    else cascade_step r (delete r) rest out

-- Without a ChildWriter the call panics at the first referrer that is not yet on its way out.
abbrev pub delete_cr : Option Children → Referrer → Result PassError CrDelete
delete_cr none r = err nil_children
delete_cr (some children) r = ok (children.delete r)

unfoldable pub cascade : World → Obj → Option (List Referrer) → CascadeRun
cascade world obj none = (err referrers_failed, [])
cascade world obj (some referrers) =
    cascade_loop (delete_cr world.children) referrers (record { deleted = []; waiting = [] })
