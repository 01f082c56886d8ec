-- ===== src/Cycle/Level.antt =====
-- One pass over a frontier in `run` of internal/resolver/cycle.go: what holds of the walk and of the
-- hops that are left, and what a pass that ends the walk has found.
use mathlib.Core.List.{append-nil}
use netbox_operator.Common.{
  ℕ, ◌+◌, ◌≤◌, ◌≡◌, ◌↔◌, ◌⊎◌, inl, inr, refl, sym, Bool, true, false, ◌||◌, Option, none, some,
  List, [], ◌∷◌, ◌++◌, length, All, All-map, All-append, Any, Any-append_left, Any-append_right,
  arith, Bool-cases, ltb, ◌==◌, ==_iff,
}
use netbox_operator.Common.Result.{Result, ok, err}
use netbox_operator.Registry.{Descriptor}
use netbox_operator.Cycle.{
  max_ref_depth, max_ref_visits, RefNode, node_eq, node_eq_iff, FieldRefs, Hop, World, WalkError,
  expand, Walk, member, parent_of, cycle, too_deep, too_large, Outcome, clear, reported, failed,
  unfinished, Pass, stop, level, Continue, report_cycle, report_too_deep, report_too_large, take_on,
  with_children, visit, arrive, scan,
}
use netbox_operator.Cycle.Graph.{Edge, IsPath}
use netbox_operator.Cycle.Expand.{Hops, expand-Hops}
use netbox_operator.Cycle.Trail.{Trail, up, Trail-extend, path_to-IsPath, path_to_self}

abbrev pub is_some : Option RefNode → Bool
is_some none = false
is_some (some x) = true

-- The walk has taken the node on.
abbrev pub Visited : Walk → RefNode → Type 0
Visited w x = is_some (parent_of x w.from) ≡ true

abbrev pub LeadsThere : List Hop → RefNode → Type 0
LeadsThere hops v = Any (λ h. h.node ≡ v) hops

module _ (world : World) (start : RefNode) (d : Descriptor) (refs : List FieldRefs) where
  -- A hop of a level: an edge, from a node as far from the start as the level says.
  pub record HopOk (depth : ℕ) (w : Walk) (h : Hop) : Type 0 where
    pub rest : List RefNode
    pub trail : Trail world start d refs w.from h.from rest
    pub deep : length rest + 1 ≡ depth
    pub short : length rest ≤ length w.from
    pub edge : Edge world start d refs h.from h.node

  -- In the middle of a pass: `edges` are left of the level, and `next` is found of the one behind it.
  pub record Inv (depth : ℕ) (edges next : List Hop) (w : Walk) : Type 0 where
    pub now : All (HopOk depth w) edges
    pub later : All (HopOk (depth + 1) w) next
    pub capped : depth ≡ max_ref_depth → next ≡ []
    pub seen : (x : RefNode) → member x w.seen ≡ (is_some (parent_of x w.from) || node_eq x start)
    pub fresh : parent_of start w.from ≡ none
    pub counted : w.visits ≡ length w.from
    pub closed :
        (u v : RefNode)
        → (u ≡ start) ⊎ Visited w u
        → Edge world start d refs u v
        → Visited w v ⊎ LeadsThere edges v ⊎ LeadsThere next v

  -- What each outcome states of the graph.
  abbrev pub OutcomeOk : Outcome → Type 0
  OutcomeOk clear =
      (path : List RefNode) → IsPath world start d refs start start path → length path ≡ 1
  OutcomeOk (reported (cycle path head)) =
      IsPath world start d refs start start path × (2 ≤ length path)
  OutcomeOk (reported (too_deep path head)) =
      (b : RefNode) × IsPath world start d refs start b path × (length path ≡ max_ref_depth + 2)
  OutcomeOk (reported (too_large path head)) =
      (b : RefNode) × IsPath world start d refs start b path
  OutcomeOk (failed e) = Unit
  OutcomeOk unfinished = ⊥

  abbrev pub PassOk : ℕ → Pass → Type 0
  PassOk depth (stop out) = OutcomeOk out
  PassOk depth (level frontier w) =
      Inv (depth + 1) frontier [] w × (depth ≡ max_ref_depth → frontier ≡ [])

  -- The edge that the pass has just come to.
  module _ (depth : ℕ) (edge : Hop) (edges next : List Hop) (w : Walk)
      (inv : Inv depth (edge ∷ edges) next w) where
    skip-Inv : Visited w edge.node → Inv depth edges next w
    skip-Inv visited = record {
      now = inv.now.1;
      later = inv.later;
      capped = inv.capped;
      seen = inv.seen;
      fresh = inv.fresh;
      counted = inv.counted;
      closed = λ u v t e. elim (inv.closed u v t e) [
        | inl a ↦ inl a
        | inr (inl (inl b)) ↦ inl (rw (← b) visited)
        | inr (inl (inr b)) ↦ inr (inl b)
        | inr (inr c) ↦ inr (inr c)
      ];
    }

    cycle-Ok : node_eq edge.node start ≡ true → OutcomeOk (report_cycle start w edge)
    unfolding report_cycle
    cycle-Ok home =
        let h = inv.now.0 in
        let e : edge.node ≡ start = (node_eq_iff edge.node start).0 home in
        let (path, len) =
          path_to-IsPath world start d refs w edge.from start h.rest h.trail h.short
            (rw e at h.edge) in
        (path, omega arith)

    module _ (other : node_eq edge.node start ≡ false) (new : member edge.node w.seen ≡ false) where
      unseen : parent_of edge.node w.from ≡ none
      unseen = ground (arith, inv.seen edge.node)

      abbrev taken : Walk
      taken = record {
        seen = edge.node ∷ w.seen;
        from = (edge.node, edge.from) ∷ w.from;
        visits = w.visits + 1;
      }

      HopOk-taken : (k : ℕ) (h : Hop) → HopOk k w h → HopOk k taken h
      HopOk-taken k h o = record {
        rest = o.rest;
        trail = Trail-extend world start d refs edge.node edge.from unseen o.trail;
        deep = o.deep;
        short = omega (arith, o.short);
        edge = o.edge;
      }

      -- The trail of the node that is taken on.
      ancestors : Trail world start d refs taken.from edge.node (edge.from ∷ inv.now.0.rest)
      unfolding parent_of
      ancestors =
          let self : node_eq edge.node edge.node ≡ true =
            (node_eq_iff edge.node edge.node).1 refl in
          up other (rw self) inv.now.0.edge
            (Trail-extend world start d refs edge.node edge.from unseen inv.now.0.trail)

      seen-taken :
          (x : RefNode)
          → member x taken.seen ≡ (is_some (parent_of x taken.from) || node_eq x start)
      unfolding member parent_of
      seen-taken x = ground (arith, inv.seen x)

      fresh-taken : parent_of start taken.from ≡ none
      unfolding parent_of
      fresh-taken =
          ground (arith, inv.fresh, node_eq_iff start edge.node, node_eq_iff edge.node start)

      Visited-taken : (x : RefNode) → Visited taken x ↔ ((x ≡ edge.node) ⊎ Visited w x)
      unfolding parent_of
      Visited-taken x = ground (arith, node_eq_iff x edge.node)

      child-HopOk :
          (c : Hop)
          → (c.from ≡ edge.node) × Edge world start d refs edge.node c.node
          → HopOk (depth + 1) taken c
      child-HopOk c (from_node, e) =
          let h = inv.now.0 in
          record {
            rest = edge.from ∷ h.rest;
            trail = rw from_node ancestors;
            deep = omega (arith, h.deep);
            short = omega (arith, h.short);
            edge = rw from_node e;
          }

      closed_before :
          (cs : List Hop) (u v : RefNode)
          → (u ≡ start) ⊎ Visited w u
          → Edge world start d refs u v
          → Visited taken v ⊎ LeadsThere edges v ⊎ LeadsThere (next ++ cs) v
      closed_before cs u v t e = elim (inv.closed u v t e) [
        | inl a ↦ inl ((Visited-taken v).1 (inr a))
        | inr (inl (inl b)) ↦ inl ((Visited-taken v).1 (inl (sym b)))
        | inr (inl (inr b)) ↦ inr (inl b)
        | inr (inr c) ↦ inr (inr (Any-append_left _ next cs c))
      ]

      closed-taken :
          (cs : List Hop)
          → Hops edge.node (Edge world start d refs edge.node) cs
          → (u v : RefNode) → (u ≡ start) ⊎ Visited taken u
          → Edge world start d refs u v
          → Visited taken v ⊎ LeadsThere edges v ⊎ LeadsThere (next ++ cs) v
      closed-taken cs h u v (inl s) e = closed_before cs u v (inl s) e
      closed-taken cs h u v (inr t) e = elim ((Visited-taken u).0 t) [
        | inl here ↦ inr (inr (Any-append_right _ next cs (h.complete v (rw here at e))))
        | inr before ↦ closed_before cs u v (inr before) e
      ]

      taken-Inv :
          (cs : List Hop)
          → Hops edge.node (Edge world start d refs edge.node) cs
          → (depth ≡ max_ref_depth → cs ≡ [])
          → Inv depth edges (next ++ cs) taken
      taken-Inv cs h cap = record {
        now = All-map _ _ (HopOk-taken depth) edges inv.now.1;
        later =
            All-append _ next cs (All-map _ _ (HopOk-taken (depth + 1)) next inv.later)
              (All-map _ _ child-HopOk cs h.sound);
        capped = λ e. rw (inv.capped e) (cap e);
        seen = seen-taken;
        fresh = fresh-taken;
        counted = omega (arith, inv.counted);
        closed = closed-taken cs h;
      }

      too_large-Ok : OutcomeOk (report_too_large start taken edge)
      unfolding report_too_large
      too_large-Ok =
          let h = inv.now.0 in
          (
            edge.node,
            path_to_self world start d refs taken edge.node (edge.from ∷ h.rest) ancestors
                (omega (arith, h.short)),
          )

      too_deep-Ok :
          (c : Hop)
          → depth ≡ max_ref_depth
          → Edge world start d refs edge.node c.node
          → OutcomeOk (report_too_deep start taken edge c)
      unfolding report_too_deep
      too_deep-Ok c deepest e =
          let h = inv.now.0 in
          let (path, len) =
            path_to-IsPath world start d refs taken edge.node c.node (edge.from ∷ h.rest) ancestors
              (omega (arith, h.short)) e in
          (c.node, path, omega (arith, h.deep))

      children-Ok :
          (rest : Continue) (r : Result WalkError (List Hop))
          → ((cs : List Hop) → r ≡ ok cs → Hops edge.node (Edge world start d refs edge.node) cs)
          → ((next' : List Hop) (w' : Walk)
              → Inv depth edges next' w'
              → PassOk depth (rest next' w'))
          → PassOk depth (with_children depth start edge next taken rest r)
      unfolding with_children
      children-Ok rest (err e) h k = tt
      children-Ok rest (ok []) h k =
          k next taken (rw append-nil at (taken-Inv [] (h [] refl) (λ _. refl)))
      children-Ok rest (ok (c ∷ cs)) h k = elim (Bool-cases (depth == max_ref_depth)) [
        | inl deepest ↦
            rw deepest
              (too_deep-Ok c ((==_iff depth max_ref_depth).0 deepest) (h (c ∷ cs) refl).sound.0.1)
        | inr shallow ↦ rw shallow (
            k (next ++ (c ∷ cs)) taken
              (taken-Inv (c ∷ cs) (h (c ∷ cs) refl) (λ e. cc ((==_iff depth max_ref_depth).1 e))))
      ]

      visit-Ok :
          (rest : Continue)
          → ((next' : List Hop) (w' : Walk)
              → Inv depth edges next' w'
              → PassOk depth (rest next' w'))
          → PassOk depth (visit world depth start edge next w rest)
      unfolding visit take_on
      visit-Ok rest k = elim (Bool-cases (ltb max_ref_visits (w.visits + 1))) [
        | inl many ↦ rw many too_large-Ok
        | inr few ↦ rw few (
            children-Ok rest (expand world start edge)
              (λ cs e. expand-Hops world start d refs edge cs other e) k)
      ]

    arrive-Ok :
        (rest : Continue)
        → ((next' : List Hop) (w' : Walk) → Inv depth edges next' w' → PassOk depth (rest next' w'))
        → PassOk depth (arrive world depth start edge next w rest)
    unfolding arrive
    arrive-Ok rest k = elim (Bool-cases (node_eq edge.node start)) [
      | inl home ↦ rw home (cycle-Ok home)
      | inr other ↦ rw other (elim (Bool-cases (member edge.node w.seen)) [
        | inl known ↦ rw known (k next w (skip-Inv (ground (arith, inv.seen edge.node))))
        | inr new ↦ rw new (visit-Ok other new rest k)
      ])
    ]

  -- A pass keeps the invariant, and what it stops with is right.
  pub scan-Ok :
      (depth : ℕ) (edges next : List Hop) (w : Walk)
      → Inv depth edges next w
      → PassOk depth (scan world depth start edges next w)
  unfolding scan
  scan-Ok depth [] next w inv = (
    record {
      now = inv.later;
      later = tt;
      capped = λ e. refl;
      seen = inv.seen;
      fresh = inv.fresh;
      counted = inv.counted;
      closed = λ u v t e. elim (inv.closed u v t e) [
        | inl a ↦ inl a
        | inr (inl b) ↦ absurd b
        | inr (inr c) ↦ inr (inl c)
      ];
    },
    inv.capped,
  )
  scan-Ok depth (edge ∷ edges) next w inv =
      arrive-Ok depth edge edges next w inv (scan world depth start edges)
        (λ next' w' inv'. scan-Ok depth edges next' w' inv')
