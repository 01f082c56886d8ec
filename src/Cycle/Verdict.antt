-- ===== src/Cycle/Verdict.antt =====
-- The answers of Check in internal/resolver/cycle.go.
use netbox_operator.Common.{
  ℕ, zero, suc, ◌+◌, ◌≤◌, ◌≡◌, ◌≢◌, inl, inr, refl, sym, none, List, [], ◌∷◌, length, All-map,
  arith, Bool-cases, ◌∙◌, ◌<◌, ◌==◌, ==_iff,
}
use netbox_operator.Common.Result.{Result-cases}
use netbox_operator.Registry.{Descriptor}
use netbox_operator.Cycle.{
  max_ref_depth, RefNode, FieldRefs, RefElement, Hop, World, follow, blocking_hops, Walk, member,
  parent_of, cycle, too_deep, Outcome, clear, reported, unfinished, Pass, stop, level, scan,
  after_pass, run, first_walk, run_from, check_from,
}
use netbox_operator.Cycle.Graph.{Edge, IsPath}
use netbox_operator.Cycle.Expand.{Hops, start-Hops}
use netbox_operator.Cycle.Trail.{root}
use netbox_operator.Cycle.Level.{Visited, Inv, OutcomeOk, PassOk, scan-Ok}

module _ (world : World) (start : RefNode) (d : Descriptor) (refs : List FieldRefs) where
  -- With no hop left, every node that an edge leads to from a taken node is taken on.
  only_taken :
      (depth : ℕ) (w : Walk) (u b : RefNode) (path : List RefNode)
      → Inv world start d refs depth [] [] w
      → Visited w u
      → IsPath world start d refs u b path
      → Visited w b
  only_taken depth w u b [] inv t h = absurd h
  only_taken depth w u b (x ∷ []) inv t (e, e') = rw (sym e' ∙ e) t
  only_taken depth w u b (x ∷ y ∷ rest) inv t (e, edge, h) =
      elim (inv.closed x y (inr (rw e t)) edge) [
        | inl v ↦ only_taken depth w y b (y ∷ rest) inv v h
        | inr (inl n) ↦ absurd n
        | inr (inr n) ↦ absurd n
      ]

  start_unvisited : (w : Walk) → parent_of start w.from ≡ none → ¬ Visited w start
  start_unvisited w fresh v = ground arith

  no_way_back :
      (depth : ℕ) (w : Walk)
      → Inv world start d refs depth [] [] w
      → (path : List RefNode) → IsPath world start d refs start start path
      → length path ≡ 1
  no_way_back depth w inv [] h = absurd h
  no_way_back depth w inv (x ∷ []) h = refl
  no_way_back depth w inv (x ∷ y ∷ rest) (e, edge, h) = elim (inv.closed x y (inl e) edge) [
    | inl v ↦ absurd (start_unvisited w inv.fresh (only_taken depth w y start (y ∷ rest) inv v h))
    | inr (inl n) ↦ absurd n
    | inr (inr n) ↦ absurd n
  ]

  after_pass-Ok :
      (again : List Hop → Walk → Outcome) (depth : ℕ) (p : Pass)
      → PassOk world start d refs depth p
      → ((frontier : List Hop) (w : Walk)
          → PassOk world start d refs depth (level frontier w)
          → OutcomeOk world start d refs (again frontier w))
      → OutcomeOk world start d refs (after_pass again p)
  unfolding after_pass
  after_pass-Ok again depth (stop out) h k = h
  after_pass-Ok again depth (level frontier w) h k = k frontier w h

  run-Ok :
      (rounds depth : ℕ) (frontier : List Hop) (w : Walk)
      → depth + rounds ≡ max_ref_depth + 2
      → Inv world start d refs depth frontier [] w
      → (max_ref_depth < depth → frontier ≡ [])
      → OutcomeOk world start d refs (run world start rounds depth frontier w)
  unfolding run
  run-Ok rounds depth [] w n inv last = no_way_back depth w inv
  run-Ok zero depth (edge ∷ edges) w n inv last = cc (last (omega arith))
  run-Ok (suc rounds) depth (edge ∷ edges) w n inv last =
      after_pass-Ok (run world start rounds (depth + 1)) depth
        (scan world depth start (edge ∷ edges) [] w)
        (scan-Ok world start d refs depth (edge ∷ edges) [] w inv)
        (λ frontier w' (inv', at_cap).
          run-Ok rounds (depth + 1) frontier w' (omega arith) inv' (λ deep.
            elim (Bool-cases (depth == max_ref_depth)) [
              | inl cap ↦ at_cap ((==_iff depth max_ref_depth).0 cap)
              | inr below ↦ cc (last (ground arith))
            ]))

  first-Inv :
      (frontier : List Hop)
      → Hops start (Edge world start d refs start) frontier
      → Inv world start d refs 1 frontier [] (first_walk start)
  unfolding member parent_of
  first-Inv frontier h = record {
    now =
        All-map _ _
          (λ x p. record {
            rest = [];
            trail = root p.0;
            deep = omega arith;
            short = omega arith;
            edge = rw p.0 p.1;
          })
          frontier h.sound;
    later = tt;
    capped = λ e. refl;
    seen = λ x. ground arith;
    fresh = refl;
    counted = refl;
    closed = λ u v t e. elim t [ inl s ↦ inr (inl (h.complete v (rw s at e))) | inr n ↦ cc n ];
  }

  check_from-Ok : OutcomeOk world start d refs (check_from world start d refs)
  unfolding check_from run_from
  check_from-Ok = elim (Result-cases (follow world start (blocking_hops start d refs none))) [
    | inr (e, stuck) ↦ rw stuck tt
    | inl (frontier, followed) ↦ rw followed (
        run-Ok (max_ref_depth + 1) 1 frontier (first_walk start) (omega arith)
          (first-Inv frontier (start-Hops world start d refs frontier followed))
          (λ deep. absurd (omega arith)))
  ]

  -- A reported cycle is one: its path leads from the object along blocking references that it may
  -- follow, at least one of them, back to the object.
  pub check_from-cycle :
      (path : List RefNode) (head : RefElement)
      → check_from world start d refs ≡ reported (cycle path head)
      → IsPath world start d refs start start path × (2 ≤ length path)
  check_from-cycle path head e = rw e at check_from-Ok

  -- Where Check returns nil, no path of blocking references leads from the object back to it: the
  -- only path to itself is the one that follows none.
  pub check_from-clear :
      check_from world start d refs ≡ clear
      → (path : List RefNode) → IsPath world start d refs start start path
      → length path ≡ 1
  check_from-clear e = rw e at check_from-Ok

  -- A report of depth has a path of 33 blocking references from the object, one more than the cap.
  check_from-too_deep :
      (path : List RefNode) (head : RefElement)
      → check_from world start d refs ≡ reported (too_deep path head)
      → (b : RefNode) × IsPath world start d refs start b path × (length path ≡ 34)
  check_from-too_deep path head e = rw e at check_from-Ok

  -- The loop ends by itself: no walk needs more rounds than one more than the cap on the depth.
  pub check_from-ends : check_from world start d refs ≢ unfinished
  check_from-ends e = rw e at check_from-Ok
