-- ===== src/Client/Writes.antt =====
-- internal/netbox/client.go: what a client in the mode DryRun sends.
use netbox_operator.Common.{
  ℕ, zero, suc, ◌+◌, ◌≡◌, refl, sym, inl, inr, String, List, [], ◌∷◌, All, All-append, All-map,
  Bool-cases, str_eq,
}
use mathlib.Core.Path.{subst}
use netbox_operator.Common.Result.{Result-cases}
use netbox_operator.Json.{Object, get as field, as_string}
use package.netbox_operator.Client.{
  dry_run, Operation, lists, gets_one, gets_by_id, deletes, creates, patches, allocates, allocate,
  traffic, session, create, patch, delete, get_by_id,
}
use package.netbox_operator.Client.Calls.{Setup, World, Method, Request, Call, do_call}
use package.netbox_operator.Client.Calls.Tried.{do_call-Tried}
use package.netbox_operator.Client.Listing.{Urls, read, or_nil, next_page, pages, list}

abbrev pub IsRead : Request → Type 0
IsRead request = request.method ≡ Method.get

module _ (urls : Urls) (setup : Setup) (world : World) where
  do_call-IsRead :
      (start : ℕ) (target : String) → All IsRead (do_call setup world start (read target)).sent
  do_call-IsRead start target =
      let (last, l, before, count, final, sends, waits) =
        do_call-Tried setup world start (read target) in
      All-map (λ (q : Request). q ≡ read target) IsRead (λ q e. subst IsRead (sym e) refl) _ sends.0

  pages-IsRead :
      (left start : ℕ) (target : String) (all : List Object)
      → All IsRead (pages urls setup world left start target all).sent
  unfolding pages
  pages-IsRead zero start target all = elim (Bool-cases (str_eq target "")) [
    | inl t ↦ rw t tt
    | inr t ↦ rw t tt
  ]
  pages-IsRead (suc left) start target all = elim (Bool-cases (str_eq target "")) [
    | inl t ↦ rw t tt
    | inr t ↦
        let call = do_call setup world start (read target) in
        rw t (
          All-append IsRead call.sent _ (do_call-IsRead start target)
            (elim (Result-cases call.answer) [
              | inr (e, a) ↦ rw a tt
              | inl (body, a) ↦
                  rw a
                    (elim (Result-cases
                      (next_page urls target (as_string (field (or_nil body) "next")))) [
                        | inr (e, n) ↦ rw n tt
                        | inl (next, n) ↦ rw n (pages-IsRead left (start + call.tries) next _)
                      ])
            ]))
  ]

  traffic-IsRead :
      (ranges : ℕ → String → ℕ → Object → Call) (start : ℕ) (op : Operation)
      → All IsRead (traffic urls setup world dry_run ranges start op).sent
  unfolding traffic list get_by_id create patch delete allocate
  traffic-IsRead ranges start (lists endpoint params) = pages-IsRead setup.max_pages start _ []
  traffic-IsRead ranges start (gets_one endpoint params) = pages-IsRead setup.max_pages start _ []
  traffic-IsRead ranges start (gets_by_id endpoint id) = do_call-IsRead start _
  traffic-IsRead ranges start (deletes endpoint id) = tt
  traffic-IsRead ranges start (creates endpoint payload) = tt
  traffic-IsRead ranges start (patches endpoint id payload) = tt
  traffic-IsRead ranges start (allocates endpoint id sub payload) = tt

  -- A client in the mode DryRun sends GETs only, whichever of List, GetOne, GetByID, Create, Patch,
  -- Delete and Allocate are called, and in whatever order, whatever placeRange would send.
  pub session-IsRead :
      (ranges : ℕ → String → ℕ → Object → Call) (start : ℕ) (ops : List Operation)
      → All IsRead (session urls setup world dry_run ranges start ops)
  unfolding session
  session-IsRead ranges start [] = tt
  session-IsRead ranges start (op ∷ ops) =
      All-append IsRead (traffic urls setup world dry_run ranges start op).sent _
        (traffic-IsRead ranges start op)
        (session-IsRead ranges (start + (traffic urls setup world dry_run ranges start op).tries)
          ops)
