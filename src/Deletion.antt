-- ===== src/Deletion.antt =====
-- internal/reconciler/finalizer.go: the deletion of an object, from the finalizer that
-- is taken before the first write to its release. `Setting` has the objects and what they are asked,
-- `Backoff` the schedule of refused deletes. Message texts, logging and metrics are left out, and so
-- is the status write at the end of a pass that releases nothing.
pub mod Setting
pub mod Backoff
pub mod Cascade
pub mod Guards
pub mod Sequence
pub mod Released
pub mod Requests
pub mod Finalizer
pub mod Tests
use Prim.Native.String.{◌++◌ as str_append}
use netbox_operator.Common.{
  ℕ, ◌≡◌, ◌*◌, ◌+◌, String, Bool, true, false, not, ◌&&◌, ◌||◌, Option, none, some, List, [], ◌∷◌,
  ◌++◌, ltb, ◌==◌, str_eq, if◌then◌else◌, contains,
}
use netbox_operator.Common.Result.{Result, ok, err}
use netbox_operator.Errors.{second, endpoint_retry, client, classify}
use netbox_operator.Errors.Client.{NetboxError, not_found, protected}
use netbox_operator.Provenance.{stamp_applicable}
use Setting.{
  Obj, Endpoint, ChildRead, child_present, child_gone, child_unreadable, ChildRef, Referrer,
  CrDelete, cr_deleted, cr_gone, cr_failed, Children, World, Event, finalizer_skipped, retained,
  nothing_found, deleted, delete_blocked, cascade_deleted, Effect, netbox_delete, netbox_search,
  finalizers_written, normal, warning, cr_delete, PassError, finalizers_refused, referrers_failed,
  cascade_failed, nil_children, Answer, done, requeued, failed, Pass, annotation, not_configured,
}
use Cascade.{Cascaded, any_cascaded, CascadeRun, cascade}
use Backoff.{protected_backoff, deletion_hold, int32_inc}

abbrev pub child_retry : ℕ
child_retry = 15 * second

abbrev pub protected_event_after : ℕ
protected_event_after = 5

abbrev pub default_resync : ℕ
default_resync = 600 * second

-- The resync of the endpoint that the pass has at hand, which before it is resolved is none.
pub resync : Option Endpoint → ℕ
resync none = default_resync
resync (some e) = if ltb 0 e.resync then e.resync else default_resync

-- Why the finalizer comes off, and whether a human has to see it.
pub record Release : Type 0 where
  pub event : Event
  pub warn : Bool

abbrev pub deletion_policy_of : String → String
deletion_policy_of policy = if str_eq policy "" then "Delete" else policy

-- The pass ends with the status write of `finish`.
abbrev pub finish : Obj → ℕ → Pass
finish obj wait = record { obj = obj; effects = []; answer = requeued wait }

abbrev pub after : List Effect → Pass → Pass
after effects p = record p { effects = effects ++ p.effects }

pub blocked : Obj → String → ℕ → Pass
blocked obj reason wait = finish (record obj { deleting = some reason }) wait

abbrev pub announce : Release → Effect
announce out = if out.warn then warning out.event else normal out.event

pub may_be_stamped : World → Obj → Bool
may_be_stamped world obj = world.desc.custom_fieldable && not (str_eq obj.uid "")

pub stamp_identifies : World → Endpoint → Obj → Bool
stamp_identifies world e obj =
    stamp_applicable e.provenance
    && not (str_eq e.provenance.uid_field "")
    && contains e.provenance.fields e.provenance.uid_field
    && may_be_stamped world obj

abbrev pub nothing_to_delete : Release
nothing_to_delete = record { event = nothing_found; warn = false }

-- The guards of releaseWithoutDeleting, in their order.
pub skips : Obj → Bool
skips obj = str_eq (annotation obj "netbox.kubeforge.org/skip-finalizer") "true"

pub retains : Obj → Bool
retains obj = str_eq (deletion_policy_of obj.deletion_policy) "Retain"

pub release_without_deleting : World → Obj → Option Release
release_without_deleting world obj =
    if skips obj
    then some (record { event = finalizer_skipped; warn = true })
    else if retains obj
    then some (record { event = retained; warn = false })
    else if obj.id == 0 && not (may_be_stamped world obj)
    then some nothing_to_delete
    else none

pub data_loss_blocked : World → Obj → Bool
data_loss_blocked world obj =
    if not world.desc.data_loss_on_delete
    then false
    else not (str_eq (annotation obj "netbox.kubeforge.org/allow-data-loss") "true")

abbrev pub add_alive : ChildRef → ChildRead → List ChildRef → List ChildRef
add_alive child child_gone alive = alive
add_alive child child_unreadable alive = child ∷ alive
add_alive child child_present alive = child ∷ alive

pub alive_of : (ChildRef → ChildRead) → List ChildRef → List ChildRef
alive_of get [] = []
alive_of get (child ∷ children) = add_alive child (get child) (alive_of get children)

abbrev pub pending_of : Option Children → List ChildRef → List ChildRef
pending_of none children = []
pending_of (some writer) children = alive_of writer.get children

pub pending_dependents : World → Obj → List ChildRef
pending_dependents world obj = pending_of world.children obj.children

module _ (world : World) where
  pub release : Obj → Release → Pass
  release obj out =
      let off = record obj { finalizer = false } in
      if world.update_finalizers off
      then record {
        obj = off;
        effects = finalizers_written false ∷ announce out ∷ [];
        answer = done;
      }
      else record {
        obj = record obj { finalizer = true };
        effects = [];
        answer = failed finalizers_refused;
      }

  -- The end of `protected`, where no cascade took the pass over.
  pub report_refusal : Obj → ℕ → Pass
  report_refusal obj wait =
      after
        (if obj.deletion_attempts == protected_event_after then warning delete_blocked ∷ [] else [])
        (blocked obj "Protected" wait)

  abbrev pub cascade_event : List String → List Effect
  cascade_event [] = []
  cascade_event (name ∷ names) = warning cascade_deleted ∷ []

  -- What `protected` makes of the cascade.
  pub cascade_refusal : Obj → ℕ → CascadeRun → Pass
  cascade_refusal obj wait (err e, effects) = record {
    obj = obj;
    effects = effects;
    answer = failed e;
  }
  cascade_refusal obj wait (ok out, effects) = after effects (
      if any_cascaded out
      then after (cascade_event out.deleted) (blocked obj "Cascading" wait)
      else report_refusal obj wait)

  abbrev pub refused : Obj → Obj
  refused obj = record obj {
    deletion_attempts = int32_inc obj.deletion_attempts;
    last_deletion_attempt = some world.now;
  }

  pub cascades : Obj → Bool
  cascades obj = str_eq (annotation obj "netbox.kubeforge.org/cascade-delete") "true"

  abbrev pub asked_referrers : Obj → Option (Obj → Option (List Referrer)) → ℕ → Pass
  asked_referrers obj none wait = report_refusal obj wait
  asked_referrers obj (some referring) wait =
      cascade_refusal obj wait (cascade world obj (referring obj))

  pub protected_delete : Obj → Pass
  protected_delete obj =
      let obj' = refused obj in
      let wait = protected_backoff obj'.deletion_attempts in
      if cascades obj then asked_referrers obj' world.referrers wait else report_refusal obj' wait

  pub delete_failed : Endpoint → Obj → NetboxError → Pass
  delete_failed e obj not_found = release obj (record { event = deleted; warn = false })
  delete_failed e obj (protected status) = protected_delete obj
  delete_failed e obj failure =
      let out = classify (client failure) (resync (some e)) in blocked obj out.reason out.requeue

  pub delete_answered : Endpoint → Obj → Result NetboxError Bool → Pass
  delete_answered e obj (ok suppressed) =
      release obj (record { event = deleted; warn = suppressed })
  delete_answered e obj (err failure) = delete_failed e obj failure

  pub delete_object : Endpoint → Obj → Pass
  delete_object e obj = after (netbox_delete obj.id ∷ []) (delete_answered e obj (e.delete obj.id))

  pub search_answered : Endpoint → Obj → Result NetboxError (Option (Option ℕ)) → Pass
  search_answered e obj (err failure) =
      let out = classify (client failure) (resync (some e)) in blocked obj out.reason out.requeue
  search_answered e obj (ok none) = release obj nothing_to_delete
  search_answered e obj (ok (some none)) = blocked obj "APIError" (resync (some e))
  search_answered e obj (ok (some (some id))) = delete_object e (record obj { id = id })

  pub delete_by_stamp : Endpoint → Obj → Pass
  delete_by_stamp e obj =
      let filter = str_append "cf_" e.provenance.uid_field in
      if not (stamp_identifies world e obj)
      then release obj nothing_to_delete
      else after (netbox_search filter obj.uid ∷ [])
          (search_answered e obj (e.get_one filter obj.uid))

  abbrev pub delete_now : Endpoint → Obj → Option ℕ → Pass
  delete_now e obj (some remaining) = finish obj remaining
  delete_now e obj none = if obj.id == 0 then delete_by_stamp e obj else delete_object e obj

  abbrev pub at_endpoint : Obj → Option Endpoint → Pass
  at_endpoint obj none =
      if obj.id == 0
      then release obj nothing_to_delete
      else blocked obj "WaitingForEndpoint" endpoint_retry
  at_endpoint obj (some e) =
      delete_now e obj (deletion_hold obj.deletion_attempts obj.last_deletion_attempt world.now)

  abbrev pub after_dependents : Obj → List ChildRef → Pass
  after_dependents obj [] = at_endpoint obj (world.endpoints obj.namespace obj.endpoint_ref)
  after_dependents obj (child ∷ children) = blocked obj "PendingDependents" child_retry

  abbrev pub decide : Obj → Option Release → Pass
  decide obj (some out) = release obj out
  decide obj none =
      if data_loss_blocked world obj
      then blocked obj "DataLossBlocked" (resync none)
      else after_dependents obj (pending_dependents world obj)

  pub deleting : Obj → Pass
  deleting obj =
      if not obj.finalizer
      then record { obj = obj; effects = []; answer = done }
      else decide obj (release_without_deleting world obj)

-- The writer of takeFinalizer is `none` where none is wired.
abbrev pub FinalizerWriter : Type 0
FinalizerWriter = Obj → Bool

abbrev pub add_finalizer : Obj → Option FinalizerWriter → Pass
add_finalizer obj none = record { obj = obj; effects = []; answer = failed not_configured }
add_finalizer obj (some update) =
    let on = record obj { finalizer = true } in
    if update on
    then record { obj = on; effects = finalizers_written true ∷ []; answer = done }
    else record {
      obj = record on { finalizer = false };
      effects = [];
      answer = failed finalizers_refused;
    }

pub take_finalizer : Option FinalizerWriter → Obj → Pass
take_finalizer writer obj =
    if obj.finalizer
    then record { obj = obj; effects = []; answer = done }
    else add_finalizer obj writer
