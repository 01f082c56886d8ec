-- ===== src/Client/Listing/Origin.antt =====
-- internal/netbox/client.go, nextPage: where the requests of a list, with their token, are sent.
use mathlib.Core.Path.{subst}
use netbox_operator.Common.{
  ℕ, zero, suc, ◌+◌, ◌≡◌, refl, sym, inl, inr, ◌⊎◌, String, Option, none, some, List, [], ◌++◌, All,
  All-append, All-map, Bool-cases, Option-cases, str_eq, eq_iff,
}
use netbox_operator.Common.Result.{ok, Result-cases}
use netbox_operator.Json.{Object, get as field, as_list, as_string}
use package.netbox_operator.Client.Calls.{Setup, World, Method, Request, do_call}
use package.netbox_operator.Client.Calls.Tried.{do_call-Tried}
use package.netbox_operator.Client.Listing.{
  Urls, Url, read, or_nil, next_page, pages, list, first_page, with_query, if_ok, Listed,
}

module _ (urls : Urls) where
  abbrev pub AtOrigin : Url → String → Type 0
  AtOrigin origin target =
      (url : Url) × (urls.parse target ≡ some url)
      × (url.scheme ≡ origin.scheme)
      × (url.host ≡ origin.host)
      × (url.path ≡ origin.path)

  abbrev pub ReadsAt : Url → Request → Type 0
  ReadsAt origin request = (request.method ≡ Method.get) × AtOrigin origin request.target

  abbrev pub paged : Url → Url → Url
  paged base next = record {
    scheme = base.scheme;
    host = base.host;
    path = base.path;
    raw_query = next.raw_query;
  }

  -- A URL that was read, with the query of another, is printed as a text that reads back.
  abbrev pub PrintsBack : Type 0
  PrintsBack =
      (current following : String) (base next : Url)
      → urls.parse current ≡ some base
      → urls.parse following ≡ some next
      → urls.parse (urls.print (paged base next)) ≡ some (paged base next)

  module _ (printed : PrintsBack) (origin : Url) where
    -- No page follows, or one at the origin.
    abbrev Next : String → Type 0
    Next target = (target ≡ "") ⊎ AtOrigin origin target

    next_page-Next :
        (current next target : String)
        → AtOrigin origin current
        → next_page urls current next ≡ ok target
        → Next target
    unfolding next_page
    next_page-Next current next target (url, p, s, h, q) e = elim (Bool-cases (str_eq next "")) [
      | inl t ↦ let same : ok "" ≡ ok target = (rw t at e) in inl cc
      | inr t ↦
          let read_next : with_query (urls.parse next) (urls.parse current) urls ≡ ok target =
            (rw t at e) in
          elim (Option-cases (urls.parse next)) [
            | inl n ↦
                let failed : with_query none (urls.parse current) urls ≡ ok target =
                  (rw n at read_next) in
                cc
            | inr (v, n) ↦
                let page = paged url v in
                let same : ok (urls.print page) ≡ ok target = (rw n at (rw p at read_next)) in
                let text : urls.print page ≡ target = cc in
                inr (
                  page,
                  subst (λ (t : String). urls.parse t ≡ some page) text
                      (printed current next url v p n),
                  s,
                  h,
                  q,
                )
          ]
    ]

    module _ (setup : Setup) (world : World) where
      do_call-ReadsAt :
          (start : ℕ) (target : String)
          → AtOrigin origin target
          → All (ReadsAt origin) (do_call setup world start (read target)).sent
      do_call-ReadsAt start target o =
          let (last, l, before, count, final, sends, waits) =
            do_call-Tried setup world start (read target) in
          All-map (λ (q : Request). q ≡ read target) (ReadsAt origin)
            (λ q e. subst (ReadsAt origin) (sym e) (refl, o)) _ sends.0

      if_ok-ReadsAt :
          (target : String) (here : AtOrigin origin target) (body : Option Object)
          → (rest : String → Listed)
          → ((next : String) → Next next → All (ReadsAt origin) (rest next).sent)
          → All
              (ReadsAt origin)
              (if_ok (next_page urls target (as_string (field (or_nil body) "next"))) rest).sent
      if_ok-ReadsAt target here body rest f =
          let following = next_page urls target (as_string (field (or_nil body) "next")) in
          elim (Result-cases following) [
            | inr (e, n) ↦ rw n tt
            | inl (next, n) ↦ rw n (f next (next_page-Next target _ next here n))
          ]

      pages-ReadsAt :
          (left start : ℕ) (target : String) (all : List Object)
          → Next target
          → All (ReadsAt origin) (pages urls setup world left start target all).sent
      unfolding pages
      pages-ReadsAt zero start target all h = elim (Bool-cases (str_eq target "")) [
        | inl t ↦ rw t tt
        | inr t ↦ rw t tt
      ]
      pages-ReadsAt (suc left) start target all h = elim (Bool-cases (str_eq target "")) [
        | inl t ↦ rw t tt
        | inr t ↦
            let call = do_call setup world start (read target) in
            let here : AtOrigin origin target = elim h [
              | inl e ↦ let blank = (eq_iff target "").1 e in cc
              | inr o ↦ o
            ] in
            rw t (
              All-append (ReadsAt origin) call.sent _ (do_call-ReadsAt start target here)
                (elim (Result-cases call.answer) [
                  | inr (e, a) ↦ rw a tt
                  | inl (body, a) ↦ rw a (
                      if_ok-ReadsAt target here body
                        (λ next.
                          pages urls setup world left (start + call.tries) next
                            (all ++ as_list (field (or_nil body) "results")))
                        (λ next o. pages-ReadsAt left (start + call.tries) next _ o))
                ]))
      ]

  -- Every request of a list is a GET to the scheme, the host and the path of its first page, whatever
  -- NetBox names as the next page, if the first page is a URL, and the pages that are printed read back.
  pub list-ReadsAt :
      PrintsBack
      → (setup : Setup) (world : World) (start : ℕ)
      → (endpoint : String) (params : List (String × String)) (origin : Url)
      → urls.parse (first_page urls setup world endpoint params) ≡ some origin
      → All (ReadsAt origin) (list urls setup world start endpoint params).sent
  unfolding list
  list-ReadsAt printed setup world start endpoint params origin p =
      pages-ReadsAt printed origin setup world setup.max_pages start
        (first_page urls setup world endpoint params) [] (inr (origin, p, refl, refl, refl))
