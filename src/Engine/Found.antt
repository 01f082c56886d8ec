-- ===== src/Engine/Found.antt =====
-- internal/reconciler/generic.go: whose the object is that a pass finds other than by
-- a natural key.
use netbox_operator.Common.{
  ℕ, Bool, true, false, not, Option, none, some, List, [], ◌∷◌, ◌≡◌, ◌≢◌, ◌⊎◌, inl, inr, refl, All,
  All-map, Any, if-cases, Option-cases, ◌==◌, str_eq, arith,
}
use netbox_operator.Common.Result.{Result, ok, err}
use netbox_operator.Json.{Object, object_id}
use netbox_operator.Errors.{Failure}
use netbox_operator.Errors.Client.{NetboxError, not_found}
use netbox_operator.Registry.{NaturalKey}
use package.netbox_operator.Engine.Inputs.{
  Params, Status, live_status, Search, nothing, single, several, search_failed, Setting, adopts,
}
use package.netbox_operator.Engine.Stamping.{stamped_mine, stamp_identifies, stamped_uid}
use package.netbox_operator.Engine.Lookup.{
  Match, locate, located, leaving, forgotten, lookup_object, candidates, search_candidates,
  search_usable, search_by, params_of, unless_found, or_rest, duplicate, claim_single,
  claim_duplicate, claim_stamped, mine,
}

-- The objects that NetBox answers to a search.
abbrev pub Answers : Search → Object → Type 0
Answers nothing live = ⊥
Answers (single o) live = o ≡ live
Answers (several os) live = Any (λ o. o ≡ live) os
Answers (search_failed e) live = ⊥

-- NetBox answers the object to the search by one of the keys.
abbrev pub AnsweredBy : Setting → List NaturalKey → Object → Type 0
AnsweredBy p keys live =
    Any
      (λ key.
        (params : Params) × (params_of p key ≡ some params)
        × Answers (p.client.get_one params) live)
      keys

module _ (p : Setting) (start : Status) where
  -- What a search by the natural keys that apply finds.
  abbrev pub Searched : Object → Type 0
  Searched live = AnsweredBy p (candidates p p.desc.natural_keys) live

  -- The id that is recorded in the status, or that of an object which NetBox answers to a search by
  -- the natural keys of the resource and which has its stamp, or which the status past the cache
  -- records, or which the resource asks to adopt.
  abbrev pub Own : ℕ → Type 0
  Own n =
      ((start.id ≡ n) × (n ≢ 0))
      ⊎ ((live : Object) × Searched live
          × (object_id p.go live ≡ some n)
          × ((stamped_mine p live ≡ true)
              ⊎ ((adopted : Bool) × (p.reader ≡ live_status n adopted))
              ⊎ (adopts p ≡ true)))

  -- A match by a natural key is found by one, and any other has an id of the resource's own.
  abbrev pub MatchAt : Option Object → Bool → ℕ → Type 0
  MatchAt (some live) false id = Own id
  MatchAt (some live) true id = Searched live
  MatchAt none by_key id = Unit

  abbrev pub Matches {ℓ} : {E : Type ℓ} → Result E Match → Type 0
  Matches (ok m) = MatchAt m.live m.by_natural_key m.status.id
  Matches (err e) = Unit

  abbrev OwnFound : List Object → Object → Type 0
  OwnFound os o = (stamped_mine p o ≡ true) × Any (λ x. x ≡ o) os

  mine-OwnFound : (os : List Object) → stamp_identifies p ≡ true → All (OwnFound os) (mine p os)
  unfolding mine stamped_mine
  mine-OwnFound [] h = tt
  mine-OwnFound (o ∷ os) h =
      let rest =
        All-map (OwnFound os) (OwnFound (o ∷ os)) (λ x q. (q.0, inr q.1)) (mine p os)
          (mine-OwnFound os h) in
      if-cases (All (OwnFound (o ∷ os))) (str_eq (stamped_uid p o) p.uid) _ _
        (λ t. ((rw h t, inl refl), rest)) (λ t. rest)

  claim_stamped-Matches :
      (status : Status) (own others : List Object)
      → All (λ (o : Object). (stamped_mine p o ≡ true) × Searched o) own
      → Matches (claim_stamped p status own others)
  claim_stamped-Matches status [] [] h = tt
  claim_stamped-Matches status [] (o ∷ os) h = tt
  claim_stamped-Matches status (o ∷ o' ∷ os) others h = tt
  claim_stamped-Matches status (o ∷ []) others h = elim (Option-cases (object_id p.go o)) [
    | inl n ↦ rw n tt
    | inr (id, e) ↦ rw e (inr (o, h.0.1, e, inl h.0.0))
  ]

  mine-Searched :
      (os : List Object)
      → stamp_identifies p ≡ true
      → ((live : Object) → Any (λ o. o ≡ live) os → Searched live)
      → All (λ (o : Object). (stamped_mine p o ≡ true) × Searched o) (mine p os)
  mine-Searched os h found =
      All-map (OwnFound os) (λ (o : Object). (stamped_mine p o ≡ true) × Searched o)
        (λ o q. (q.0, found o q.1)) (mine p os) (mine-OwnFound os h)

  claim_duplicate-Matches :
      (status : Status) (search : Search)
      → stamp_identifies p ≡ true
      → ((live : Object) → Answers search live → Searched live)
      → Matches (claim_duplicate p status search)
  claim_duplicate-Matches status nothing h found = tt
  claim_duplicate-Matches status (search_failed e) h found = tt
  claim_duplicate-Matches status (single o) h found =
      claim_stamped-Matches status (mine p (o ∷ [])) _ (
        mine-Searched (o ∷ []) h
          (λ live m. elim m [ inl same ↦ found live same | inr z ↦ absurd z ]))
  claim_duplicate-Matches status (several os) h found =
      claim_stamped-Matches status (mine p os) _ (mine-Searched os h found)

  claim_single-Matches :
      (status : Status) (search : Search)
      → ((live : Object) → Answers search live → Searched live)
      → Matches (claim_single p status search)
  claim_single-Matches status nothing found = tt
  claim_single-Matches status (single o) found = found o refl
  claim_single-Matches status (several os) found = tt
  claim_single-Matches status (search_failed e) found = tt

  duplicate-Matches :
      (status : Status) (search : Search)
      → ((live : Object) → Answers search live → Searched live)
      → Matches (duplicate p status search)
  unfolding duplicate
  duplicate-Matches status search found =
      if-cases (Matches {E = Failure}) (not p.allows_duplicate) _ _
        (λ t. claim_single-Matches status search found)
        (λ t.
          if-cases (Matches {E = Failure}) p.generated_child _ _ (λ g. tt)
            (λ g.
              if-cases (Matches {E = Failure}) (not (stamp_identifies p)) _ _ (λ i. tt)
                (λ i. claim_duplicate-Matches status search (ground arith) found)))

  or_rest-Matches :
      (o : Option Object) (m : Match) (rest : Result Failure Match)
      → MatchAt m.live m.by_natural_key m.status.id
      → Matches rest
      → Matches (or_rest p o m rest)
  or_rest-Matches none m rest h r = r
  or_rest-Matches (some o) m rest h r = h

  unless_found-Matches :
      (found rest : Result Failure Match)
      → Matches found
      → Matches rest
      → Matches (unless_found p found rest)
  unless_found-Matches (err e) rest h r = tt
  unless_found-Matches (ok m) rest h r = or_rest-Matches m.live m rest h r

  search_by-Matches :
      (status : Status) (key : NaturalKey) (params : Option Params)
      → params_of p key ≡ params
      → ((live : Object) → AnsweredBy p (key ∷ []) live → Searched live)
      → Matches (search_by p status params)
  search_by-Matches status key none same found = tt
  search_by-Matches status key (some params) same found =
      duplicate-Matches status (p.client.get_one params)
        (λ live answered. found live (inl (params, same, answered)))

  search_candidates-Matches :
      (status : Status) (keys : List NaturalKey)
      → ((live : Object) → AnsweredBy p keys live → Searched live)
      → Matches (search_candidates p status keys)
  unfolding search_candidates
  search_candidates-Matches status [] found = tt
  search_candidates-Matches status (key ∷ keys) found =
      unless_found-Matches (search_by p status (params_of p key)) _
        (search_by-Matches status key (params_of p key) refl
          (λ live one. elim one [ inl here ↦ found live (inl here) | inr z ↦ absurd z ]))
        (search_candidates-Matches status keys (λ live rest. found live (inr rest)))

  search_usable-Matches :
      (status : Status) (keys : List NaturalKey)
      → ((live : Object) → AnsweredBy p keys live → Searched live)
      → Matches (search_usable p status keys)
  search_usable-Matches status [] found = tt
  search_usable-Matches status (key ∷ keys) found =
      search_candidates-Matches status (key ∷ keys) found

  lookup_object-Matches : (status : Status) → Matches (lookup_object p status)
  unfolding lookup_object
  lookup_object-Matches status =
      search_usable-Matches status (candidates p p.desc.natural_keys) (λ live found. found)

  leaving-Matches :
      (status : Status) (found : Result Failure Match)
      → Matches found
      → Matches (leaving p status found)
  leaving-Matches status (ok m) h = h
  leaving-Matches status (err e) h = tt

  located-Matches :
      (answer : Result NetboxError (Option Object))
      → start.id ≢ 0
      → Matches (located p start answer)
  located-Matches (ok (some live)) h = inl (refl, h)
  located-Matches (ok none) h = leaving-Matches _ _ (lookup_object-Matches (forgotten p start))
  located-Matches (err not_found) h =
      leaving-Matches _ _ (lookup_object-Matches (forgotten p start))
  located-Matches (err e) h = tt

  pub locate-Matches : Matches (locate p start)
  unfolding locate
  locate-Matches =
      if-cases (Matches {E = Status × Failure}) (start.id == 0) _ _
        (λ t. leaving-Matches start (lookup_object p start) (lookup_object-Matches start))
        (λ t. located-Matches (p.client.get_by_id start.id) ground arith)
