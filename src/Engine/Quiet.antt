-- ===== src/Engine/Quiet.antt =====
-- internal/reconciler/generic.go: a pass after an update that NetBox took.
use netbox_operator.Common.{String, false, some, [], ◌≡◌, ◌≢◌, refl, All, lookup, arith, ◌==◌}
use netbox_operator.Common.Result.{ok}
use netbox_operator.Json.{Json, Object}
use netbox_operator.Drift.{changes, payload_of}
use netbox_operator.Drift.Answered.{Answers}
use netbox_operator.Drift.Settle.{changes-settled}
use package.netbox_operator.Engine.{update, claim, reconcile, record_deferred, ends}
use package.netbox_operator.Engine.Inputs.{Status, Setting, unchanged}
use package.netbox_operator.Engine.Stamping.{stamp}
use package.netbox_operator.Engine.Lookup.{locate}

-- A pass whose recorded object shows what an earlier patch asked for, and beside that what it showed
-- then, writes nothing and ends with no drift, if the payload is a map and its stamp is the same
-- for both objects.
pub reconcile-settled :
    (p : Setting) (status : Status) (live later : Object)
    → status.id ≢ 0
    → p.client.get_by_id status.id ≡ ok (some later)
    → stamp p later p.desired ≡ stamp p live p.desired
    → All
        (λ (e : String × Json). lookup e.0 (stamp p live p.desired) ≡ some e.1)
        (stamp p live p.desired)
    → ((field : String)
        → Answers p.go p.rules live later field
            (lookup field (payload_of (changes p.go live (stamp p live p.desired) p.rules))))
    → reconcile p status
      ≡ ends (record_deferred p (some later) (stamp p live p.desired) status) unchanged
unfolding reconcile locate claim update
reconcile-settled p status live later known read same map answers =
    let id_known : (status.id == 0) ≡ false = ground arith in
    let quiet : changes p.go later (stamp p live p.desired) p.rules ≡ [] =
      changes-settled p.go p.rules live (stamp p live p.desired) later map answers in
    rw id_known (rw read (rw same (rw quiet refl)))
