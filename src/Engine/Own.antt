-- ===== src/Engine/Own.antt =====
-- internal/reconciler/generic.go: the objects of NetBox that a pass patches and deletes.
use netbox_operator.Common.{
  ℕ, Bool, true, false, not, ◌&&◌, Option, none, some, List, [], ◌∷◌, ◌≡◌, inl, inr, refl, All,
  if-cases, Option-cases, ◌==◌, str_eq, arith,
}
use netbox_operator.Common.Result.{Result, ok, err, Result-cases}
use netbox_operator.Json.{Object, object_id}
use netbox_operator.Drift.{Change, changes}
use netbox_operator.Errors.{Failure}
use netbox_operator.Client.{suppressed as is_suppressed}
use netbox_operator.Errors.Client.{NetboxError}
use package.netbox_operator.Engine.{
  or_nil, apply_write, write_answered, create, recreate, update, update_by, owns_match, owns_read,
  claim_owned, claim, act_on, act, touches_identity, reconcile, adopted_as,
}
use package.netbox_operator.Engine.Inputs.{
  Status, LiveStatus, live_status, not_wired, unreadable, Setting, Write, created, patched, deleted,
  End, Pass, adopts, policy_of,
}
use package.netbox_operator.Engine.Stamping.{stamp, stamped_mine}
use package.netbox_operator.Engine.Lookup.{Match, locate}
use package.netbox_operator.Engine.Found.{Own, Searched, MatchAt, Matches, locate-Matches}

module _ (p : Setting) (start : Status) where
  abbrev pub OnOwn : Write → Type 0
  OnOwn (created payload) = Unit
  OnOwn (patched n payload) = Own p start n
  OnOwn (deleted n) = Own p start n

  apply_write-quiet :
      (live : Option Object) (desired : Object) (status : Status) (written : Option Object)
      → (apply_write p live desired status written).writes ≡ []
  unfolding apply_write
  apply_write-quiet live desired status written =
      if-cases (λ (x : Pass). x.writes ≡ []) (is_suppressed (or_nil written)) _ _ (λ t. refl)
        (λ t. elim (Option-cases (object_id p.go (or_nil written))) [
          | inl n ↦
              rw n (
                if-cases (λ (x : Pass). x.writes ≡ []) (status.id == 0) _ _ (λ z. refl) (λ z. refl))
          | inr (id, e) ↦ rw e refl
        ])

  pub write_answered-quiet :
      (live : Option Object) (desired : Object) (status : Status)
      → (answer : Result NetboxError (Option Object))
      → (write_answered p live desired status answer).writes ≡ []
  write_answered-quiet live desired status (err e) = refl
  write_answered-quiet live desired status (ok body) = apply_write-quiet live desired status _

  write_answered-OnOwn :
      (live : Option Object) (desired : Object) (status : Status)
      → (answer : Result NetboxError (Option Object))
      → All OnOwn (write_answered p live desired status answer).writes
  write_answered-OnOwn live desired status answer =
      rw (write_answered-quiet live desired status answer) tt

  recreate-OnOwn :
      (live desired : Object) (status : Status)
      → Own p start status.id
      → All OnOwn (recreate p live desired status).writes
  unfolding recreate
  recreate-OnOwn live desired status own =
      if-cases (λ (x : Pass). All OnOwn x.writes) (str_eq p.deletion_policy "Retain") _ _ (λ t. tt)
        (λ t. (
          own,
          elim (Result-cases (p.client.delete status.id)) [
            | inl (body, e) ↦ rw e (tt, write_answered-OnOwn (some live) desired status _)
            | inr (e, f) ↦ rw f tt
          ],
        ))

  update_by-OnOwn :
      (live desired : Object) (status : Status) (cs : List Change)
      → Own p start status.id
      → All OnOwn (update_by p live desired status cs).writes
  update_by-OnOwn live desired status [] own = tt
  update_by-OnOwn live desired status (c ∷ cs) own =
      if-cases (λ (x : Pass). All OnOwn x.writes)
        (p.recreates && touches_identity p.recreate_on (c ∷ cs)) _ _
        (λ t. recreate-OnOwn live desired status own)
        (λ t. (own, write_answered-OnOwn (some live) desired status _))

  update-OnOwn :
      (status : Status) (live : Object)
      → Own p start status.id
      → All OnOwn (update p status live).writes
  unfolding update
  update-OnOwn status live own =
      update_by-OnOwn live (stamp p live p.desired) status
        (changes p.go live (stamp p live p.desired) p.rules) own

  create-OnOwn : (status : Status) → All OnOwn (create p status).writes
  unfolding create
  create-OnOwn status =
      if-cases (λ (x : Pass). All OnOwn x.writes) (str_eq (policy_of p) "AdoptOnly") _ _ (λ t. tt)
        (λ t. (tt, write_answered-OnOwn none (stamp p [] p.desired) status _))

  abbrev OwnedAs : Result End (Option Status) → Type 0
  OwnedAs (ok (some status)) = Own p start status.id
  OwnedAs _ = Unit

  owns_read-OwnedAs :
      (status : Status) (live : Object) (id : ℕ) (reader : LiveStatus)
      → Searched p start live
      → object_id p.go live ≡ some id
      → p.reader ≡ reader
      → stamped_mine p live ≡ false
      → OwnedAs (owns_read p status live id reader)
  owns_read-OwnedAs status live id not_wired seen e r f = tt
  owns_read-OwnedAs status live id unreadable seen e r f = tt
  owns_read-OwnedAs status live id (live_status own adopted) seen e r f =
      if-cases OwnedAs (not (own == id)) _ _ (λ t. rw f tt)
        (λ t.
          let same : own ≡ id = ground arith in
          rw same (inr (live, seen, e, inr (inl (adopted, (rw same at r))))))

  owns_match-OwnedAs :
      (status : Status) (live : Object) (id : ℕ)
      → Searched p start live
      → object_id p.go live ≡ some id
      → OwnedAs (owns_match p status live id)
  unfolding owns_match
  owns_match-OwnedAs status live id seen e =
      if-cases OwnedAs (stamped_mine p live) _ _ (λ t. inr (live, seen, e, inl t))
        (λ t. owns_read-OwnedAs status live id p.reader seen e refl t)

  claim_owned-OnOwn :
      (status : Status) (live : Object) (id : ℕ) (owned : Result End (Option Status))
      → Searched p start live
      → object_id p.go live ≡ some id
      → OwnedAs owned
      → All OnOwn (claim_owned p status live id owned).writes
  claim_owned-OnOwn status live id (err end) seen e h = tt
  claim_owned-OnOwn status live id (ok (some own)) seen e h = update-OnOwn own live h
  claim_owned-OnOwn status live id (ok none) seen e h =
      if-cases (λ (x : Pass). All OnOwn x.writes) (not (adopts p)) _ _ (λ t. tt)
        (λ t.
          let adopting : adopts p ≡ true = ground arith in
          update-OnOwn (adopted_as p id status) live (inr (live, seen, e, inr (inr adopting))))

  claim-OnOwn :
      (status : Status) (by_key : Bool) (live : Object)
      → MatchAt p start (some live) by_key status.id
      → All OnOwn (claim p status by_key live).writes
  unfolding claim
  claim-OnOwn status false live own = update-OnOwn status live own
  claim-OnOwn status true live own = elim (Option-cases (object_id p.go live)) [
    | inl n ↦ rw n tt
    | inr (id, e) ↦ rw e (
        claim_owned-OnOwn status live id (owns_match p status live id) own e
          (owns_match-OwnedAs status live id own e))
  ]

  act_on-OnOwn :
      (m : Match) (live : Option Object)
      → MatchAt p start live m.by_natural_key m.status.id
      → All OnOwn (act_on p m live).writes
  act_on-OnOwn m none h = create-OnOwn m.status
  act_on-OnOwn m (some live) h = claim-OnOwn m.status m.by_natural_key live h

  act-OnOwn :
      (found : Result (Status × Failure) Match)
      → Matches p start found
      → All OnOwn (act p found).writes
  act-OnOwn (err (status, e)) h = tt
  act-OnOwn (ok m) h = act_on-OnOwn m m.live h

  -- A pass patches and deletes only what is its own: the object that the status records, or one that
  -- NetBox answers to a search by a natural key of the resource that applies, and that carries its
  -- stamp, that the status past the cache records, or that the resource asks to adopt.
  pub reconcile-OnOwn : All OnOwn (reconcile p start).writes
  unfolding reconcile
  reconcile-OnOwn = act-OnOwn (locate p start) (locate-Matches p start)
