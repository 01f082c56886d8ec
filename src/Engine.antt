-- ===== src/Engine.antt =====
-- internal/reconciler/generic.go: what a pass does after the references of its object are resolved, from
-- locate to the write. `Inputs` has what it reads, `Stamping` the stamp, `Lookup` the search for
-- the NetBox object, `Deferral` the fields that a create cannot carry.
pub mod Inputs
pub mod Stamping
pub mod Lookup
pub mod Deferral
pub mod Found
pub mod Own
pub mod Searched
pub mod First
pub mod Orderly
pub mod Quiet
pub mod Create
pub mod Finish
pub mod Kept
mod Tests
use netbox_operator.Common.{
  ℕ, String, Bool, true, false, not, ◌&&◌, ◌||◌, Option, none, some, List, [], ◌∷◌, ◌==◌, contains,
  str_eq, if◌then◌else◌,
}
use netbox_operator.Common.Result.{Result, ok, err}
use netbox_operator.Json.{Object, object_id}
use netbox_operator.Drift.{Change, changes, payload_of}
use netbox_operator.Client.{suppressed as is_suppressed}
use netbox_operator.Errors.{
  Failure, client, adopt_only, recreate_retained, no_object_id, refused_adoption,
}
use netbox_operator.Errors.Client.{NetboxError, not_found}
use Inputs.{
  Status, LiveStatus, not_wired, unreadable, live_status, Setting, Write, created, patched, deleted,
  End, stopped, returned, unchanged, suppressed, wrote, Pass, policy_of, adopts,
}
use Stamping.{stamp, stamped_mine}
use Lookup.{Match, with_id, locate}
use Deferral.{Deferred, create_payload, new_deferral, pending}

abbrev pub ends : Status → End → Pass
ends status end = record { status = status; writes = []; end = end }

-- An object that NetBox no longer has is forgotten.
abbrev pub status_after : Failure → Status → Status
status_after (client not_found) status = record {
  id = 0;
  adopted = false;
  deferred_pending = status.deferred_pending;
}
status_after e status = status

abbrev pub stop : Status → Failure → Pass
stop status e = ends (status_after e status) (stopped e)

abbrev pub after_write : Write → Pass → Pass
after_write w rest = record { status = rest.status; writes = w ∷ rest.writes; end = rest.end }

abbrev pub or_nil : Option Object → Object
or_nil none = []
or_nil (some o) = o

pub touches_identity : List String → List Change → Bool
touches_identity fields [] = false
touches_identity fields (c ∷ cs) = contains fields c.field || touches_identity fields cs

module _ (p : Setting) where
  -- The deferred fields of the payload that was built, before the stamp.
  abbrev pub deferral : List Deferred
  deferral = new_deferral p p.desc.deferred p.desired

  -- recordDeferred
  abbrev pub record_deferred : Option Object → Object → Status → Status
  record_deferred live desired status = record {
    id = status.id;
    adopted = status.adopted;
    deferred_pending = pending p live desired deferral;
  }

  abbrev pub written_id : Option ℕ → Option Object → Object → Status → Pass
  written_id none written desired status =
      if status.id == 0
      then stop status no_object_id
      else ends (record_deferred written desired status) wrote
  written_id (some id) written desired status =
      ends (record_deferred written desired (with_id p id status)) wrote

  -- applyWrite; `live` is the object that the pass found, if it found one, and `written` the body of
  -- the response, if it has one.
  pub apply_write : Option Object → Object → Status → Option Object → Pass
  apply_write live desired status written =
      if is_suppressed (or_nil written)
      then ends (record_deferred live desired status) suppressed
      else written_id (object_id p.go (or_nil written)) written desired status

  abbrev pub write_answered :
      Option Object → Object → Status → Result NetboxError (Option Object) → Pass
  write_answered live desired status (err e) = stop status (client e)
  write_answered live desired status (ok body) = apply_write live desired status body

  pub create : Status → Pass
  create status =
      if str_eq (policy_of p) "AdoptOnly"
      then stop status adopt_only
      else let desired = stamp p [] p.desired in
        let payload = create_payload deferral desired in
        after_write (created payload) (write_answered none desired status (p.client.create payload))

  abbrev pub recreate_after : Object → Object → Status → Result NetboxError (Option Object) → Pass
  recreate_after live desired status (err e) = stop status (client e)
  recreate_after live desired status (ok body) =
      let payload = create_payload deferral desired in
      after_write (created payload)
        (write_answered (some live) desired status (p.client.create payload))

  pub recreate : Object → Object → Status → Pass
  recreate live desired status =
      if str_eq p.deletion_policy "Retain"
      then stop status recreate_retained
      else after_write (deleted status.id)
          (recreate_after live desired status (p.client.delete status.id))

  abbrev pub update_by : Object → Object → Status → List Change → Pass
  update_by live desired status [] = ends (record_deferred (some live) desired status) unchanged
  update_by live desired status (c ∷ cs) =
      if p.recreates && touches_identity p.recreate_on (c ∷ cs)
      then recreate live desired status
      else after_write (patched status.id (payload_of (c ∷ cs))) (
          write_answered (some live) desired status
            (p.client.patch status.id (payload_of (c ∷ cs))))

  pub update : Status → Object → Pass
  update status live =
      let desired = stamp p live p.desired in
      update_by live desired status (changes p.go live desired p.rules)

  -- ownsMatch: the status with the id of an object that is this resource's own, `none` for another's,
  -- or an error. The question of ownsStamp is that of stampedMine, asked again.
  abbrev pub owns_stamp : Status → Object → ℕ → Option Status
  owns_stamp status live id = if stamped_mine p live then some (with_id p id status) else none

  abbrev pub owns_read : Status → Object → ℕ → LiveStatus → Result End (Option Status)
  owns_read status live id not_wired = err returned
  owns_read status live id unreadable = err returned
  owns_read status live id (live_status own adopted) =
      if not (own == id)
      then ok (owns_stamp status live id)
      else ok (
          some (record { id = own; adopted = adopted; deferred_pending = status.deferred_pending }))

  pub owns_match : Status → Object → ℕ → Result End (Option Status)
  owns_match status live id =
      if stamped_mine p live
      then ok (some (with_id p id status))
      else owns_read status live id p.reader

  abbrev pub adopted_as : ℕ → Status → Status
  adopted_as id status = record {
    id = id;
    adopted = true;
    deferred_pending = status.deferred_pending;
  }

  abbrev pub claim_owned : Status → Object → ℕ → Result End (Option Status) → Pass
  claim_owned status live id (err end) = ends status end
  claim_owned status live id (ok (some own)) = update own live
  claim_owned status live id (ok none) =
      if not (adopts p) then stop status refused_adoption else update (adopted_as id status) live

  abbrev pub claim_id : Status → Object → Option ℕ → Pass
  claim_id status live none = stop status no_object_id
  claim_id status live (some id) = claim_owned status live id (owns_match status live id)

  pub claim : Status → Bool → Object → Pass
  claim status by_natural_key live =
      if not by_natural_key then update status live else claim_id status live (object_id p.go live)

  abbrev pub act_on : Match → Option Object → Pass
  act_on m none = create m.status
  act_on m (some live) = claim m.status m.by_natural_key live

  abbrev pub act : Result (Status × Failure) Match → Pass
  act (err (status, e)) = stop status e
  act (ok m) = act_on m m.live

  -- Reconcile from locate on.
  pub reconcile : Status → Pass
  reconcile status = act (locate p status)
