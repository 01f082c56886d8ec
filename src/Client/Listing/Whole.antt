-- ===== src/Client/Listing/Whole.antt =====
-- internal/netbox/client.go: a list is whole, or an error.
use mathlib.Core.Path.{subst}
use mathlib.Core.List.{append_assoc, append-nil}
use netbox_operator.Common.{
  ℕ, zero, suc, ◌+◌, ◌≤◌, ◌<◌, ◌≡◌, ◌↔◌, refl, sym, ◌∙◌, ap, inl, inr, ◌⊎◌, String, false, true,
  Option, List, [], ◌++◌, Bool-cases, str_eq, eq_iff, arith,
}
use netbox_operator.Common.Result.{Result, ok, err, Result-cases}
use netbox_operator.Json.{Object, get as field, as_list, as_string}
use netbox_operator.Errors.Client.{truncated}
use package.netbox_operator.Client.Calls.{Setup, World, CallError, netbox, do_call}
use package.netbox_operator.Client.Listing.{Urls, read, or_nil, next_page, pages, list, first_page}

module _ (urls : Urls) (setup : Setup) (world : World) where
  -- A list of so many pages: each page is read, has the objects of its results, and names the next
  -- one; the last names none.
  abbrev pub Pages : ℕ → ℕ → String → List Object → Type 0
  Pages zero start target objects = (target ≡ "") × (objects ≡ [])
  Pages (suc more) start target objects =
      (str_eq target "" ≡ false)
      × (body : Option Object) × ((do_call setup world start (read target)).answer ≡ ok body)
      × (next : String) × (next_page urls target (as_string (field (or_nil body) "next")) ≡ ok next)
      × (rest : List Object) × (objects ≡ as_list (field (or_nil body) "results") ++ rest)
      × Pages more (start + (do_call setup world start (read target)).tries) next rest

  pages-last :
      (left start : ℕ) (target : String) (all : List Object)
      → str_eq target "" ≡ true
      → (pages urls setup world left start target all).answer ≡ ok all
  unfolding pages
  pages-last zero start target all t = rw t refl
  pages-last (suc left) start target all t = rw t refl

  module _ (left start : ℕ) (target : String) (all : List Object) where
    abbrev results : Option Object → List Object
    results body = as_list (field (or_nil body) "results")

    abbrev following : Option Object → Result CallError String
    following body = next_page urls target (as_string (field (or_nil body) "next"))

    pages-next :
        (body : Option Object) (next : String)
        → str_eq target "" ≡ false
        → (do_call setup world start (read target)).answer ≡ ok body
        → following body ≡ ok next
        → (pages urls setup world (suc left) start target all).answer
          ≡ (pages urls setup world left
              (start + (do_call setup world start (read target)).tries)
              next
              (all ++ results body)).answer
    unfolding pages
    pages-next body next t a n = rw t (rw a (rw n refl))

    pages-failed :
        (e : CallError)
        → str_eq target "" ≡ false
        → ((do_call setup world start (read target)).answer ≡ err e)
          ⊎ ((body : Option Object) × ((do_call setup world start (read target)).answer ≡ ok body)
              × (following body ≡ err e))
        → (pages urls setup world (suc left) start target all).answer ≡ err e
    unfolding pages
    pages-failed e t (inl a) = rw t (rw a refl)
    pages-failed e t (inr (body, a, n)) = rw t (rw a (rw n refl))

  -- What a list that ends without an error has collected.
  abbrev Collected : ℕ → ℕ → String → List Object → List Object → Type 0
  Collected left start target all found =
      (count : ℕ) × (count ≤ left)
      × (objects : List Object) × (found ≡ all ++ objects)
      × Pages count start target objects

  pages-end :
      (left start : ℕ) (target : String) (all found : List Object)
      → str_eq target "" ≡ true
      → (pages urls setup world left start target all).answer ≡ ok found
      → Collected left start target all found
  pages-end left start target all found t h =
      let last = pages-last left start target all t in
      let same : found ≡ all = cc in
      (0, omega arith, [], same ∙ sym (append-nil all), ((eq_iff target "").0 t, refl))

  pages-cap :
      (start : ℕ) (target : String) (all : List Object)
      → str_eq target "" ≡ false
      → (pages urls setup world 0 start target all).answer ≡ err (netbox truncated)
  unfolding pages
  pages-cap start target all t = rw t refl

  pages-Pages :
      (left start : ℕ) (target : String) (all found : List Object)
      → (pages urls setup world left start target all).answer ≡ ok found
      → Collected left start target all found
  pages-Pages zero start target all found h = elim (Bool-cases (str_eq target "")) [
    | inl t ↦ pages-end zero start target all found t h
    | inr t ↦ let cap = pages-cap start target all t in cc
  ]
  pages-Pages (suc left) start target all found h = elim (Bool-cases (str_eq target "")) [
    | inl t ↦ pages-end (suc left) start target all found t h
    | inr t ↦
        let call = do_call setup world start (read target) in
        elim (Result-cases call.answer) [
          | inr (e, a) ↦ let failed = pages-failed left start target all e t (inl a) in cc
          | inl (body, a) ↦ elim (Result-cases (following left start target all body)) [
            | inr (e, n) ↦
                let failed = pages-failed left start target all e t (inr (body, a, n)) in cc
            | inl (next, n) ↦
                let step = pages-next left start target all body next t a n in
                let page = results left start target all body in
                let (count, l, objects, e, chain) =
                  pages-Pages left (start + call.tries) next (all ++ page) found (sym step ∙ h) in
                (
                  suc count,
                  omega (arith, l),
                  page ++ objects,
                  e ∙ append_assoc all page objects,
                  (t, body, a, next, n, objects, refl, chain),
                )
          ]
        ]
  ]

  Pages-pages :
      (count left start : ℕ) (target : String) (all objects : List Object)
      → Pages count start target objects
      → (count ≤ left → (pages urls setup world left start target all).answer ≡ ok (all ++ objects))
        × (left < count
            → (pages urls setup world left start target all).answer ≡ err (netbox truncated))
  Pages-pages zero left start target all objects (t, e) = (
    λ l.
        pages-last left start target all ((eq_iff target "").1 t)
        ∙ ap (λ (rest : List Object). ok rest) (sym (rw e (append-nil all))),
    λ l. absurd (omega (arith, l)),
  )
  Pages-pages (suc count) zero start target all objects (t, body, a, next, n, rest, e, chain) =
      (λ l. absurd (omega (arith, l)), λ l. pages-cap start target all t)
  Pages-pages (suc count) (suc left) start target all objects
        (t, body, a, next, n, rest, e, chain) =
      let call = do_call setup world start (read target) in
      let page = results left start target all body in
      let step = pages-next left start target all body next t a n in
      let ih = Pages-pages count left (start + call.tries) next (all ++ page) rest chain in
      (
        λ l.
            step
            ∙ ih.0 omega (arith, l)
            ∙ ap (λ (found : List Object). ok found)
                (append_assoc all page rest ∙ ap (λ (found : List Object). all ++ found) (sym e)),
        λ l. step ∙ ih.1 omega (arith, l),
      )

  -- A list is whole or an error: it answers the objects of all pages, in order, that lead from its
  -- first page to one without a next page, and nothing else; and if there are such pages but more
  -- than the client reads, it is the error of a truncated list.
  pub list_iff :
      (start : ℕ) (endpoint : String) (params : List (String × String)) (objects : List Object)
      → (((list urls setup world start endpoint params).answer ≡ ok objects) ↔ (
          (count : ℕ) × (count ≤ setup.max_pages)
          × Pages count start (first_page urls setup world endpoint params) objects))
        × ((count : ℕ)
            → setup.max_pages < count
            → Pages count start (first_page urls setup world endpoint params) objects
            → (list urls setup world start endpoint params).answer ≡ err (netbox truncated))
  unfolding list
  list_iff start endpoint params objects =
      let first = first_page urls setup world endpoint params in
      (
        (
          λ h.
              let (count, l, found, e, chain) =
                pages-Pages setup.max_pages start first [] objects h in
              (count, l, subst (λ (all : List Object). Pages count start first all) (sym e) chain),
          λ (count, l, chain). (Pages-pages count setup.max_pages start first [] objects chain).0 l,
        ),
        λ count l chain. (Pages-pages count setup.max_pages start first [] objects chain).1 l,
      )
