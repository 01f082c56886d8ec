-- ===== src/Engine/Searched.antt =====
-- internal/reconciler/generic.go: the search that a pass makes before it creates.
use netbox_operator.Common.{
  false, Option, none, some, List, [], ◌∷◌, ◌≡◌, ◌≢◌, inl, inr, refl, ap, ◌∙◌, All, Bool-cases,
  List-cases, ◌==◌, arith,
}
use netbox_operator.Common.Result.{Result, ok, err}
use netbox_operator.Json.{Object}
use netbox_operator.Errors.{Failure}
use netbox_operator.Errors.Client.{NetboxError, not_found}
use netbox_operator.Registry.{NaturalKey}
use package.netbox_operator.Engine.Inputs.{Status, Setting}
use package.netbox_operator.Engine.Lookup.{
  Match, matched, locate, located, leaving, forgotten, recover, lookup_object, search_usable,
  candidates, search_candidates, search_by, params_of, unless_found, or_rest,
}

module _ (p : Setting) where
  -- The search by a natural key found no object, and no error.
  abbrev pub InVain : Status → NaturalKey → Type 0
  InVain status key = (m : Match) × (search_by p status (params_of p key) ≡ ok m) × (m.live ≡ none)

  -- There are usable natural keys, and the search by each of them found nothing.
  abbrev pub Searched : Type 0
  Searched =
      (candidates p p.desc.natural_keys ≢ [])
      × (status : Status) × All (InVain status) (candidates p p.desc.natural_keys)

  or_rest-none :
      (live : Option Object) (found m : Match) (rest : Result Failure Match)
      → or_rest p live found rest ≡ ok m
      → found.live ≡ live
      → m.live ≡ none
      → (found.live ≡ none) × (rest ≡ ok m)
  or_rest-none none found m rest h f n = (f, h)
  or_rest-none (some o) found m rest h f n =
      let same : found ≡ m = cc in
      let none_live : found.live ≡ none = ap (λ (x : Match). x.live) same ∙ n in (none_live, cc)

  unless_found-InVain :
      (found rest : Result Failure Match) (m : Match)
      → unless_found p found rest ≡ ok m
      → m.live ≡ none
      → ((first : Match) × (found ≡ ok first) × (first.live ≡ none)) × (rest ≡ ok m)
  unless_found-InVain (err e) rest m h n = ((m, cc, n), cc)
  unless_found-InVain (ok found) rest m h n =
      let (f, r) = or_rest-none found.live found m rest h refl n in ((found, refl, f), r)

  search_candidates-InVain :
      (status : Status) (keys : List NaturalKey) (m : Match)
      → search_candidates p status keys ≡ ok m
      → m.live ≡ none
      → All (InVain status) keys
  unfolding search_candidates
  search_candidates-InVain status [] m h n = tt
  search_candidates-InVain status (key ∷ keys) m h n =
      let (f, r) = unless_found-InVain (search_by p status (params_of p key)) _ m h n in
      (f, search_candidates-InVain status keys m r n)

  lookup_object-Searched :
      (status : Status) (m : Match) → lookup_object p status ≡ ok m → m.live ≡ none → Searched
  unfolding lookup_object
  lookup_object-Searched status m h n = elim (List-cases (candidates p p.desc.natural_keys)) [
    | inl e ↦ let failed : search_usable p status [] ≡ ok m = (rw e at h) in absurd ground arith
    | inr (key, keys, e) ↦
        let found : search_usable p status (key ∷ keys) ≡ ok m = (rw e at h) in
        (
          λ none_usable. ground (arith, none_usable, e),
          status,
          rw e (search_candidates-InVain status (key ∷ keys) m found n),
        )
  ]

  leaving-ok :
      (status : Status) (found : Result Failure Match) (m : Match)
      → leaving p status found ≡ ok m
      → found ≡ ok m
  leaving-ok status (ok found) m h = cc
  leaving-ok status (err e) m h = cc

  recover-Searched :
      (status : Status) (m : Match) → recover p status ≡ ok m → m.live ≡ none → Searched
  recover-Searched status m h n =
      lookup_object-Searched (forgotten p status) m (leaving-ok _ _ m h) n

  located-Searched :
      (status : Status) (answer : Result NetboxError (Option Object)) (m : Match)
      → located p status answer ≡ ok m
      → m.live ≡ none
      → Searched
  located-Searched status (ok (some live)) m h n =
      let same : matched p live false status ≡ m = cc in
      let none_live : some live ≡ none = ap (λ (x : Match). x.live) same ∙ n in absurd ground arith
  located-Searched status (ok none) m h n = recover-Searched status m h n
  located-Searched status (err not_found) m h n = recover-Searched status m h n
  located-Searched status (err e) m h n = absurd ground arith

  pub locate-Searched :
      (status : Status) (m : Match) → locate p status ≡ ok m → m.live ≡ none → Searched
  unfolding locate
  locate-Searched status m h n = elim (Bool-cases (status.id == 0)) [
    | inl t ↦ lookup_object-Searched status m (leaving-ok status _ m (rw t at h)) n
    | inr t ↦ located-Searched status (p.client.get_by_id status.id) m (rw t at h) n
  ]
