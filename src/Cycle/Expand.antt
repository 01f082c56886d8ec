-- ===== src/Cycle/Expand.antt =====
-- `blockingHops`, `follow` and `expand` of internal/resolver/cycle.go: the hops of an object are the
-- edges of the graph that leave it.
use netbox_operator.Common.{
  ◌≡◌, ◌⊎◌, inl, inr, refl, ◌∙◌, ap, true, false, Option, none, some, List, [], ◌∷◌, ◌++◌, All,
  All-map, All-append, Any, Any-append_left, Any-append_right, Bool-cases,
}
use netbox_operator.Common.Result.{Result, ok, err, ◌>>=◌, Result-cases}
use netbox_operator.Registry.{Descriptor}
use netbox_operator.Cycle.{
  RefNode, node_eq, node_eq_iff, FieldRefs, RefElement, Hop, Live, found, not_found, no_kind,
  unreadable, World, WalkError, elements, blocking, element_hops, blocking_hops, authorised,
  permitted, follow, expand_live, expand_known, expand,
}
use netbox_operator.Cycle.Graph.{PointsBy, Points, LeadsTo, LiveEdge, KnownEdge, Edge}

-- The hops are to `P`, and they reach every node of `P`.
pub record Hops (from : RefNode) (P : RefNode → Type 0) (hops : List Hop) : Type 0 where
  pub sound : All (λ h. (h.from ≡ from) × P h.node) hops
  pub complete : (v : RefNode) → P v → Any (λ h. h.node ≡ v) hops

Hops-none : (from : RefNode) (P : RefNode → Type 0) → ((v : RefNode) → ¬ P v) → Hops from P []
Hops-none from P no_edge = record { sound = tt; complete = λ v p. no_edge v p }

Hops-iff :
    (from : RefNode) (P Q : RefNode → Type 0) (hs : List Hop)
    → ((v : RefNode) → P v → Q v)
    → ((v : RefNode) → Q v → P v)
    → Hops from P hs
    → Hops from Q hs
Hops-iff from P Q hs to back h = record {
  sound = All-map _ _ (λ x p. (p.0, to x.node p.1)) hs h.sound;
  complete = λ v q. h.complete v (back v q);
}

Hops-append :
    (from : RefNode) (P Q : RefNode → Type 0) (hs ks : List Hop)
    → Hops from P hs
    → Hops from Q ks
    → Hops from (λ v. P v ⊎ Q v) (hs ++ ks)
Hops-append from P Q hs ks h k = record {
  sound =
      All-append _ hs ks (All-map _ _ (λ x p. (p.0, inl p.1)) hs h.sound)
        (All-map _ _ (λ x p. (p.0, inr p.1)) ks k.sound);
  complete = λ v e. elim e [
    | inl p ↦ Any-append_left _ hs ks (h.complete v p)
    | inr q ↦ Any-append_right _ hs ks (k.complete v q)
  ];
}

element_hops-Hops :
    (from : RefNode) (d : Descriptor) (es : List RefElement) (head : Option RefElement)
    → Hops from (λ v. Any (PointsBy from d v) es) (element_hops from d es head)
unfolding element_hops
element_hops-Hops from d [] head = Hops-none from _ (λ v p. p)
element_hops-Hops from d (e ∷ es) head =
    let ih = element_hops-Hops from d es head in
    elim (Bool-cases (blocking d e)) [
      | inl blocks ↦ rw blocks (record {
        sound = (
          (refl, inl (refl, refl)),
          All-map _ _ (λ h p. (p.0, inr p.1)) (element_hops from d es head) ih.sound,
        );
        complete = λ v s. elim s [ inl p ↦ inl p.1 | inr q ↦ inr (ih.complete v q) ];
      })
      | inr passes ↦ rw passes (record {
        sound = All-map _ _ (λ h p. (p.0, inr p.1)) (element_hops from d es head) ih.sound;
        complete = λ v s. elim s [ inl p ↦ cc p.0 | inr q ↦ ih.complete v q ];
      })
    ]

blocking_hops-Hops :
    (from : RefNode) (d : Descriptor) (refs : List FieldRefs) (head : Option RefElement)
    → Hops from (Points from d refs) (blocking_hops from d refs head)
unfolding blocking_hops
blocking_hops-Hops from d [] head = Hops-none from _ (λ v p. p)
blocking_hops-Hops from d (f ∷ fs) head =
    Hops-append from _ _ _ _ (element_hops-Hops from d (elements f.field f.refs) head)
      (blocking_hops-Hops from d fs head)

module _ (world : World) (start : RefNode) where
  abbrev Allowed : (RefNode → Type 0) → RefNode → Type 0
  Allowed P v = P v × (permitted world start v ≡ ok true)

  -- What `follow` keeps of hops to `P`: those that are permitted.
  abbrev Followed : RefNode → (RefNode → Type 0) → List Hop → Result WalkError (List Hop) → Type 0
  Followed from P es (err e) = Unit
  Followed from P es (ok cs) =
      All (λ h. (h.from ≡ from) × Allowed P h.node) cs
      × ((v : RefNode)
          → Any (λ h. h.node ≡ v) es
          → permitted world start v ≡ ok true
          → Any (λ h. h.node ≡ v) cs)

  Followed-kept :
      (from : RefNode) (P : RefNode → Type 0) (x : Hop) (es : List Hop)
      (r : Result WalkError (List Hop))
      → x.from ≡ from
      → Allowed P x.node
      → Followed from P es r
      → Followed from P (x ∷ es) (r >>= λ kept. ok (x ∷ kept))
  Followed-kept from P x es (err e) f a h = tt
  Followed-kept from P x es (ok cs) f a h =
      (((f, a), h.0), λ v s p. elim s [ inl e ↦ inl e | inr q ↦ inr (h.1 v q p) ])

  Followed-dropped :
      (from : RefNode) (P : RefNode → Type 0) (x : Hop) (es : List Hop)
      (r : Result WalkError (List Hop))
      → permitted world start x.node ≡ ok false
      → Followed from P es r
      → Followed from P (x ∷ es) r
  Followed-dropped from P x es (err e) denied h = tt
  Followed-dropped from P x es (ok cs) denied h =
      (h.0, λ v s p. elim s [ inl e ↦ cc | inr q ↦ h.1 v q p ])

  follow-Followed :
      (from : RefNode) (P : RefNode → Type 0) (es : List Hop)
      → All (λ h. (h.from ≡ from) × P h.node) es
      → Followed from P es (follow world start es)
  unfolding follow authorised
  follow-Followed from P [] h = (tt, λ v q p. q)
  follow-Followed from P (x ∷ es) h =
      let ih = follow-Followed from P es h.1 in
      elim (Result-cases (permitted world start x.node)) [
        | inr (e, failed) ↦ rw failed tt
        | inl (b, decided) ↦ elim (Bool-cases b) [
          | inl allowed ↦
              let now : permitted world start x.node ≡ ok true = decided ∙ ap ok allowed in
              rw now (Followed-kept from P x es (follow world start es) h.0.0 (h.0.1, now) ih)
          | inr denied ↦
              let now : permitted world start x.node ≡ ok false = decided ∙ ap ok denied in
              rw now (Followed-dropped from P x es (follow world start es) now ih)
        ]
      ]

  -- Where it succeeds, `follow` keeps exactly the permitted hops of an object.
  pub follow-Hops :
      (from : RefNode) (P : RefNode → Type 0) (es cs : List Hop)
      → Hops from P es
      → follow world start es ≡ ok cs
      → Hops from (Allowed P) cs
  follow-Hops from P es cs h e =
      let f : Followed from P es (ok cs) = rw e at (follow-Followed from P es h.sound) in
      record { sound = f.0; complete = λ v a. f.1 v (h.complete v a.0) a.1 }

  pub start-Hops :
      (d : Descriptor) (refs : List FieldRefs) (cs : List Hop)
      → follow world start (blocking_hops start d refs none) ≡ ok cs
      → Hops start (Edge world start d refs start) cs
  start-Hops d refs cs e =
      let self : node_eq start start ≡ true = (node_eq_iff start start).1 refl in
      Hops-iff start (LeadsTo world start start d refs) (Edge world start d refs start) cs
        (λ v k. rw self k) (λ v k. rw self at k)
        (follow-Hops start (Points start d refs) (blocking_hops start d refs none) cs
          (blocking_hops-Hops start d refs none) e)

  live-Hops :
      (edge : Hop) (d : Descriptor) (live : Live) (cs : List Hop)
      → expand_live world start edge d live ≡ ok cs
      → Hops edge.node (LiveEdge world start edge.node d live) cs
  unfolding expand_live
  live-Hops edge d (found (some refs)) cs e =
      follow-Hops edge.node (Points edge.node d refs)
        (blocking_hops edge.node d refs (some edge.head)) cs
        (blocking_hops-Hops edge.node d refs (some edge.head)) e
  live-Hops edge d (found none) cs e = cc
  live-Hops edge d not_found [] e = Hops-none edge.node _ (λ v p. p)
  live-Hops edge d not_found (c ∷ cs) e = cc
  live-Hops edge d no_kind [] e = Hops-none edge.node _ (λ v p. p)
  live-Hops edge d no_kind (c ∷ cs) e = cc
  live-Hops edge d unreadable cs e = cc

  known-Hops :
      (edge : Hop) (o : Option Descriptor) (cs : List Hop)
      → expand_known world start edge o ≡ ok cs
      → Hops edge.node (KnownEdge world start edge.node o) cs
  unfolding expand_known
  known-Hops edge none [] e = Hops-none edge.node _ (λ v p. p)
  known-Hops edge none (c ∷ cs) e = cc
  known-Hops edge (some d) cs e = live-Hops edge d (world.get edge.node) cs e

  -- The children of a node other than the start are the edges that leave it.
  pub expand-Hops :
      (d : Descriptor) (refs : List FieldRefs) (edge : Hop) (cs : List Hop)
      → node_eq edge.node start ≡ false
      → expand world start edge ≡ ok cs
      → Hops edge.node (Edge world start d refs edge.node) cs
  unfolding expand
  expand-Hops d refs edge cs other e =
      Hops-iff edge.node (KnownEdge world start edge.node (world.kinds edge.node.gvk))
        (Edge world start d refs edge.node) cs (λ v k. rw other k) (λ v k. rw other at k)
        (known-Hops edge (world.kinds edge.node.gvk) cs e)
