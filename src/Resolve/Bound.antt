-- ===== src/Resolve/Bound.antt =====
-- internal/resolver/resolver.go, byName: when a reference by name resolves.
use mathlib.Core.Path.{subst}
use netbox_operator.Common.{
  ℕ, String, Bool, true, false, Option, none, some, ◌≡◌, ◌≢◌, ◌↔◌, refl, sym, inl, inr,
  if◌then◌else◌, if-cases, Bool-cases, ◌==◌, contains, arith,
}
use netbox_operator.Common.Result.{Result, ok, err}
use netbox_operator.Grants.{GrantError, permits}
use netbox_operator.Registry.{Descriptor}
use netbox_operator.Cycle.{node_eq, node_eq_iff, mode_name, mode_of}
use package.netbox_operator.Resolve.{
  Sources, Request, Resolved, Unresolved, Target, TargetRead, present, absent, no_kind, unreadable,
  target_failures, readiness_of, key_of, with_id, with_status, target_read, authorised, by_name,
  of_kind, resolve,
}

-- The target has the id, is not being deleted, and did not fail for good.
abbrev pub Usable : Target → ℕ → Type 0
Usable t id =
    (t.deleting ≡ false)
    × (t.id ≡ some id)
    × (id ≢ 0)
    × ((reason : String) → readiness_of t ≡ some reason → contains target_failures reason ≡ false)

-- A result with the id.
abbrev pub Gives : ℕ → Result Unresolved Resolved → Type 0
Gives id (ok r) = r.id ≡ id
Gives id (err e) = ⊥

module _ (req : Request) where
  with_id-Gives :
      (n id : ℕ) (state : Option String)
      → Gives n (with_id req id state)
      → (id ≡ n)
        × ((reason : String) → state ≡ some reason → contains target_failures reason ≡ false)
  with_id-Gives n id none h = (h, λ reason e. cc)
  with_id-Gives n id (some reason) h = elim (Bool-cases (contains target_failures reason)) [
    | inl t ↦ absurd (rw t at h)
    | inr t ↦ ((rw t at h), λ other e. let same : reason ≡ other = cc in rw (sym same) t)
  ]

  Gives-with_id :
      (id : ℕ) (state : Option String)
      → ((reason : String) → state ≡ some reason → contains target_failures reason ≡ false)
      → Gives id (with_id req id state)
  Gives-with_id id none h = refl
  Gives-with_id id (some reason) h = rw (h reason refl) refl

  with_status-Gives :
      (n : ℕ) (found : Option ℕ) (state : Option String)
      → Gives n (with_status req found state)
      → (found ≡ some n)
        × (n ≢ 0)
        × ((reason : String) → state ≡ some reason → contains target_failures reason ≡ false)
  with_status-Gives n none state h = absurd h
  with_status-Gives n (some id) state h = elim (Bool-cases (id == 0)) [
    | inl t ↦ absurd (rw t at h)
    | inr t ↦
        let (same, usable) = with_id-Gives n id state (rw t at h) in
        (cc, (λ z. ground (arith, same, t, z)), usable)
  ]

  Gives-with_status :
      (n : ℕ) (state : Option String)
      → n ≢ 0
      → ((reason : String) → state ≡ some reason → contains target_failures reason ≡ false)
      → Gives n (with_status req (some n) state)
  Gives-with_status n state z h =
      let nonzero : (n == 0) ≡ false = ground (arith, z) in rw nonzero (Gives-with_id n state h)

  unless-Gives :
      (n : ℕ) (refused : Bool) (e : Unresolved) (rest : Result Unresolved Resolved)
      → Gives n (if refused then err e else rest)
      → (refused ≡ false) × Gives n rest
  unless-Gives n true e rest h = absurd h
  unless-Gives n false e rest h = (refl, h)

  authorised-Gives :
      (n : ℕ) (answer : Result GrantError Bool) (rest : Result Unresolved Resolved)
      → Gives n (authorised req answer rest)
      → (answer ≡ ok true) × Gives n rest
  authorised-Gives n (err e) rest h = absurd h
  authorised-Gives n (ok true) rest h = (refl, h)
  authorised-Gives n (ok false) rest h = absurd h

  target_read-Gives :
      (n : ℕ) (read : TargetRead)
      → Gives n (target_read req read)
      → (t : Target) × (read ≡ present t) × Usable t n
  target_read-Gives n absent h = absurd h
  target_read-Gives n no_kind h = absurd h
  target_read-Gives n unreadable h = absurd h
  target_read-Gives n (present t) h =
      let (kept, rest) = unless-Gives n t.deleting _ (with_status req t.id (readiness_of t)) h in
      let (known, nonzero, sound) = with_status-Gives n t.id (readiness_of t) rest in
      (t, refl, (kept, known, nonzero, sound))

  Gives-target_read : (n : ℕ) (t : Target) → Usable t n → Gives n (target_read req (present t))
  Gives-target_read n t (kept, known, nonzero, sound) =
      if-cases (Gives n) t.deleting _ (with_status req t.id (readiness_of t)) (λ d. cc)
        (λ d.
          subst (λ (o : Option ℕ). Gives n (with_status req o (readiness_of t))) (sym known)
            (Gives-with_status n (readiness_of t) nonzero sound))

  module _ (s : Sources) where
    -- The kind is known, the target is another object that the referrer may refer to, and it is usable.
    abbrev pub Bound : ℕ → Type 0
    Bound id =
        ((target : Descriptor) × (s.kinds req.field.field.target ≡ some target))
        × (key_of req ≢ req.referrer)
        × (permits s.grants req.referrer.namespace (key_of req).gvk.kind (key_of req).namespace
              (key_of req).name
            ≡ ok true)
        × (t : Target) × (s.objects (key_of req) ≡ present t)
        × Usable t id

    of_kind-Gives :
        (n : ℕ) (kind : Option Descriptor)
        → mode_of req.ref ≡ mode_name
        → Gives n (of_kind s req kind)
        → ((target : Descriptor) × (kind ≡ some target)) × Gives n (by_name s req)
    of_kind-Gives n none m h = absurd h
    of_kind-Gives n (some target) m h = ((target, refl), (rw m at h))

    by_name-Gives :
        (n : ℕ)
        → Gives n (by_name s req)
        → (key_of req ≢ req.referrer)
          × (permits s.grants req.referrer.namespace
                (key_of req).gvk.kind
                (key_of req).namespace
                (key_of req).name
              ≡ ok true)
          × (t : Target) × (s.objects (key_of req) ≡ present t)
          × Usable t n
    unfolding by_name
    by_name-Gives n h =
        let (other, rest) = unless-Gives n (node_eq (key_of req) req.referrer) _ _ h in
        let (allowed, read) =
          authorised-Gives n _ (target_read req (s.objects (key_of req))) rest in
        let (t, found, usable) = target_read-Gives n (s.objects (key_of req)) read in
        (
          (λ same. ground (arith, other, (node_eq_iff (key_of req) req.referrer).1 same)),
          allowed,
          t,
          found,
          usable,
        )

    Gives-by_name :
        (n : ℕ) (t : Target)
        → key_of req ≢ req.referrer
        → permits s.grants req.referrer.namespace
            (key_of req).gvk.kind
            (key_of req).namespace
            (key_of req).name
          ≡ ok true
        → s.objects (key_of req) ≡ present t
        → Usable t n
        → Gives n (by_name s req)
    unfolding by_name
    Gives-by_name n t other allowed found usable =
        if-cases (Gives n) (node_eq (key_of req) req.referrer) _ _
          (λ same. absurd (other ((node_eq_iff (key_of req) req.referrer).0 same)))
          (λ differ. rw allowed (rw found (Gives-target_read n t usable)))

    -- A reference by name resolves to an id exactly if its kind is known, it points at another object than
    -- its own, a grant or the namespace permits it, and the target is there, is not being deleted,
    -- has that id, not 0, in its status, and is not Ready=False for one of the reasons of
    -- targetFailures.
    pub resolve-Bound :
        (id : ℕ) → mode_of req.ref ≡ mode_name → (Gives id (resolve s req)) ↔ Bound id
    unfolding resolve
    resolve-Bound id m = (
      λ h.
          let here : Gives id (of_kind s req (s.kinds req.field.field.target)) = (rw m at h) in
          let (kind, named) = of_kind-Gives id (s.kinds req.field.field.target) m here in
          let (other, allowed, t, found, usable) = by_name-Gives id named in
          (kind, other, allowed, t, found, usable),
      λ ((target, known), other, allowed, t, found, usable).
          rw m (rw known (rw m (Gives-by_name id t other allowed found usable))),
    )
