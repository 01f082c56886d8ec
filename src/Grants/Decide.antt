-- ===== src/Grants/Decide.antt =====
-- The decision of `permits` in internal/resolver/grants.go against a description of what a grant
-- admits that has no state, no cache and no order.
use netbox_operator.Common.{
  String, ◌≡◌, ◌≢◌, ◌↔◌, ◌⊎◌, inl, inr, refl, ap, Any-map, Bool, true, false, ◌&&◌, Option, none,
  some, List, [], ◌∷◌, Any, arith, Bool-cases, str_eq, eq_iff, contains_iff,
}
use netbox_operator.Common.Result.{ok}
use netbox_operator.Grants.{
  Labels, FromNamespaces, try_from, all_namespaces, by_selector, RefGrantFrom, RefGrantTo, RefGrant,
  GrantReader, GrantCheck, any_name, endpoint_kind, Check, targets_of, name_exposed, kind_exposed,
  in_targets, namespace_labels, add_problem, in_audience, admits_targets, admits, or_later, allows,
  new_check, permits,
}

-- An entry of `from` admits a namespace with these labels.
abbrev pub AdmitsEntry : Labels → FromNamespaces → Option (Labels → Bool) → Type 0
AdmitsEntry labels all_namespaces selector = Unit
AdmitsEntry labels by_selector none = ⊥
AdmitsEntry labels by_selector (some matches) = matches labels ≡ true

abbrev pub AdmitsFrom : Labels → RefGrantFrom → Type 0
AdmitsFrom labels f = AdmitsEntry labels f.namespaces f.selector

-- An empty list of kinds is every kind but the endpoint, and an empty list of names is every name.
abbrev pub ExposesKind : String → List String → Type 0
ExposesKind kind [] = kind ≢ endpoint_kind
ExposesKind kind (k ∷ kinds) = Any (λ x. x ≡ kind) (k ∷ kinds)

abbrev pub ExposesName : String → List String → Type 0
ExposesName name [] = Unit
ExposesName name (n ∷ names) = Any (λ x. x ≡ any_name) (n ∷ names) ⊎ Any (λ x. x ≡ name) (n ∷ names)

abbrev pub ExposesTo : String → String → RefGrantTo → Type 0
ExposesTo kind name to = ExposesKind kind to.kinds × ExposesName name to.names

-- An empty `to` is every object but endpoints.
abbrev pub Exposes : String → String → List RefGrantTo → Type 0
Exposes kind name [] = kind ≢ endpoint_kind
Exposes kind name (t ∷ ts) = Any (ExposesTo kind name) (t ∷ ts)

pub record Admits (labels : Labels) (kind name : String) (grant : RefGrant) : Type 0 where
  pub audience : Any (AdmitsFrom labels) grant.from
  pub target : Exposes kind name grant.to

name_exposed_iff :
    (name : String) (names : List String)
    → (name_exposed names name ≡ true) ↔ ExposesName name names
unfolding name_exposed
name_exposed_iff name [] = (λ _. tt, λ _. refl)
name_exposed_iff name (n ∷ names) =
    ground (arith, contains_iff (n ∷ names) any_name, contains_iff (n ∷ names) name)

both_iff :
    {P Q : Type 0} (a b : Bool) → (a ≡ true) ↔ P → (b ≡ true) ↔ Q → ((a && b) ≡ true) ↔ (P × Q)
both_iff true b p q = (λ e. (p.0 refl, q.0 e), λ h. q.1 h.1)
both_iff false b p q = (λ e. cc, λ h. p.1 h.0)

module _ (reader : GrantReader) (labels : Labels) (from kind name : String)
    (known : reader.get from ≡ some labels) where
  -- The check is about this reference, and labels it has read are those of the namespace.
  record Ready (c : GrantCheck) : Type 0 where
    from_eq : c.from ≡ from
    kind_eq : c.kind ≡ kind
    name_eq : c.name ≡ name
    cached : c.ns_read ≡ true → c.ns_labels ≡ labels

  -- The method answers without an error, whether `P` holds.
  record Decides (P : Type 0) (r : Check Bool) : Type 0 where
    answer : Bool
    after : GrantCheck
    result : r ≡ (ok answer, after)
    ready : Ready after
    sound : answer ≡ true → P
    complete : P → answer ≡ true

  namespace_labels-Ready :
      (c : GrantCheck)
      → Ready c
      → (c' : GrantCheck) × (namespace_labels reader c ≡ (ok labels, c')) × Ready c'
  unfolding namespace_labels
  namespace_labels-Ready c r = elim (Bool-cases c.ns_read) [
    | inl read ↦ (c, rw (read, r.cached read), r)
    | inr unread ↦ (
      record c { ns_labels = labels; ns_read = true },
      rw (unread, r.from_eq, known),
      record { from_eq = r.from_eq; kind_eq = r.kind_eq; name_eq = r.name_eq; cached = λ _. refl },
    )
  ]

  yes_here : (P Q : Type 0) (c : GrantCheck) → Ready c → P → Decides (P ⊎ Q) (ok true, c)
  yes_here P Q c r p = record {
    answer = true;
    after = c;
    result = refl;
    ready = r;
    sound = λ _. inl p;
    complete = λ _. refl;
  }

  no_here : (P : Type 0) (c : GrantCheck) → Ready c → ¬ P → Decides P (ok false, c)
  no_here P c r none_here = record {
    answer = false;
    after = c;
    result = refl;
    ready = r;
    sound = λ e. cc;
    complete = λ p. absurd (none_here p);
  }

  yes_later : (P Q : Type 0) (r : Check Bool) → ¬ P → Decides Q r → Decides (P ⊎ Q) r
  yes_later P Q r not_here d = record {
    answer = d.answer;
    after = d.after;
    result = d.result;
    ready = d.ready;
    sound = λ e. inr (d.sound e);
    complete = λ s. elim s [ inl p ↦ absurd (not_here p) | inr q ↦ d.complete q ];
  }

  try_from-Decides :
      (grant : RefGrant) (ns : FromNamespaces) (sel : Option (Labels → Bool))
      (rest : GrantCheck → Check Bool) (Q : Type 0)
      → ((c : GrantCheck) → Ready c → Decides Q (rest c))
      → (c : GrantCheck) → Ready c
      → Decides (AdmitsEntry labels ns sel ⊎ Q) (try_from reader grant ns sel rest c)
  unfolding try_from
  try_from-Decides grant all_namespaces sel rest Q later c r = yes_here Unit Q c r tt
  try_from-Decides grant by_selector none rest Q later c r =
      let c' = add_problem grant c in
      yes_later ⊥ Q (rest c') (λ e. e)
        (later c' (record {
          from_eq = r.from_eq;
          kind_eq = r.kind_eq;
          name_eq = r.name_eq;
          cached = r.cached;
        }))
  try_from-Decides grant by_selector (some matches) rest Q later c r =
      let (c', asked, r') = namespace_labels-Ready c r in
      rw asked (elim (Bool-cases (matches labels)) [
        | inl match ↦ rw match (yes_here (true ≡ true) Q c' r' refl)
        | inr differ ↦ rw differ (yes_later (false ≡ true) Q (rest c') (λ e. cc) (later c' r'))
      ])

  in_audience-Decides :
      (grant : RefGrant) (fs : List RefGrantFrom) (c : GrantCheck)
      → Ready c
      → Decides (Any (AdmitsFrom labels) fs) (in_audience reader grant fs c)
  unfolding in_audience
  in_audience-Decides grant [] c r = no_here ⊥ c r (λ e. e)
  in_audience-Decides grant (f ∷ fs) c r =
      try_from-Decides grant f.namespaces f.selector (in_audience reader grant fs)
        (Any (AdmitsFrom labels) fs) (in_audience-Decides grant fs) c r

  kind_exposed_lem :
      (kinds : List String) (c : GrantCheck)
      → Ready c
      → (((kind_exposed kinds c).0 ≡ true) ↔ ExposesKind kind kinds)
        × Ready (kind_exposed kinds c).1
  unfolding kind_exposed
  kind_exposed_lem [] c r = elim (Bool-cases (str_eq c.kind endpoint_kind)) [
    | inl endpoint ↦
        let e : kind ≡ endpoint_kind = ground (arith, eq_iff c.kind endpoint_kind, r.kind_eq) in
        rw endpoint (
          (λ f. cc, λ ne. absurd (ne e)),
          record {
            from_eq = r.from_eq;
            kind_eq = r.kind_eq;
            name_eq = r.name_eq;
            cached = r.cached;
          },
        )
    | inr other ↦
        let ne : kind ≢ endpoint_kind = ground (arith, eq_iff c.kind endpoint_kind, r.kind_eq) in
        rw other ((λ _. ne, λ _. refl), r)
  ]
  kind_exposed_lem (k ∷ kinds) c r = (rw r.kind_eq (contains_iff (k ∷ kinds) kind), r)

  in_targets_lem :
      (ts : List RefGrantTo) (c : GrantCheck)
      → Ready c
      → (((in_targets ts c).0 ≡ true) ↔ Any (ExposesTo kind name) ts) × Ready (in_targets ts c).1
  unfolding in_targets
  in_targets_lem [] c r = ((λ e. cc, λ e. absurd e), r)
  in_targets_lem (t ∷ ts) c r =
      let (kind_iff, r') = kind_exposed_lem t.kinds c r in
      let c' = (kind_exposed t.kinds c).1 in
      let name_iff = name_exposed_iff name t.names in
      let (later_iff, r'') = in_targets_lem ts c' r' in
      let here : Bool = (kind_exposed t.kinds c).0 && name_exposed t.names c'.name in
      let here_iff : (here ≡ true) ↔ ExposesTo kind name t =
        rw r'.name_eq
          (both_iff (kind_exposed t.kinds c).0 (name_exposed t.names name) kind_iff name_iff) in
      elim (Bool-cases here) [
        | inl now ↦ rw now ((λ _. inl (here_iff.0 now), λ _. refl), r')
        | inr not_now ↦ rw not_now (
          (
            λ e. inr (later_iff.0 e),
            λ s. elim s [ inl x ↦ cc (here_iff.1 x) | inr y ↦ later_iff.1 y ],
          ),
          r'',
        )
      ]

  targets_of_lem :
      (grant : RefGrant) → Any (ExposesTo kind name) (targets_of grant) ↔ Exposes kind name grant.to
  unfolding targets_of
  targets_of_lem grant = go grant.to refl
    where
      go :
          (ts : List RefGrantTo)
          → grant.to ≡ ts
          → Any (ExposesTo kind name) (targets_of grant) ↔ Exposes kind name grant.to
      go [] e = rw e (λ s. elim s [ inl x ↦ x.0 | inr y ↦ absurd y ], λ ne. inl (ne, tt))
      go (t ∷ ts) e = rw e (λ s. s, λ s. s)

  admits_targets-Decides :
      (grant : RefGrant) (audience : Check Bool)
      → Decides (Any (AdmitsFrom labels) grant.from) audience
      → Decides (Admits labels kind name grant) (admits_targets grant audience)
  unfolding admits_targets
  admits_targets-Decides grant audience d = elim (Bool-cases d.answer) [
    | inl yes_audience ↦
        let (target_iff, r') = in_targets_lem (targets_of grant) d.after d.ready in
        record {
          answer = (in_targets (targets_of grant) d.after).0;
          after = (in_targets (targets_of grant) d.after).1;
          result = rw (d.result, yes_audience);
          ready = r';
          sound = λ e. record {
            audience = d.sound yes_audience;
            target = (targets_of_lem grant).0 (target_iff.0 e);
          };
          complete = λ a. target_iff.1 ((targets_of_lem grant).1 a.target);
        }
    | inr no_audience ↦
        rw (d.result, no_audience)
          (no_here (Admits labels kind name grant) d.after d.ready
            (λ a. cc (d.complete a.audience)))
  ]

  or_later-Decides :
      (P Q : Type 0) (first : Check Bool) (rest : GrantCheck → Check Bool)
      → Decides P first
      → ((c : GrantCheck) → Ready c → Decides Q (rest c))
      → Decides (P ⊎ Q) (or_later first rest)
  unfolding or_later
  or_later-Decides P Q first rest d later = elim (Bool-cases d.answer) [
    | inl yes_first ↦ rw (d.result, yes_first) (yes_here P Q d.after d.ready (d.sound yes_first))
    | inr no_first ↦
        rw (d.result, no_first)
          (yes_later P Q (rest d.after) (λ p. cc (d.complete p)) (later d.after d.ready))
  ]

  admits-Decides :
      (grant : RefGrant) (c : GrantCheck)
      → Ready c
      → Decides (Admits labels kind name grant) (admits reader grant c)
  unfolding admits
  admits-Decides grant c r =
      admits_targets-Decides grant (in_audience reader grant grant.from c)
        (in_audience-Decides grant grant.from c r)

  allows-Decides :
      (grants : List RefGrant) (c : GrantCheck)
      → Ready c
      → Decides (Any (Admits labels kind name) grants) (allows reader grants c)
  unfolding allows
  allows-Decides [] c r = no_here ⊥ c r (λ e. e)
  allows-Decides (grant ∷ grants) c r =
      or_later-Decides (Admits labels kind name grant) (Any (Admits labels kind name) grants)
        (admits reader grant c) (allows reader grants) (admits-Decides grant c r)
        (allows-Decides grants)

-- With a reader that answers, `permits` answers too, and it says yes exactly within one namespace or
-- where some grant in the namespace of the target admits the labels of the referring namespace and
-- exposes the target's kind and name.
pub permits_iff :
    (reader : GrantReader) (from kind namespace name : String) (labels : Labels)
    (grants : List RefGrant)
    → reader.get from ≡ some labels
    → reader.list namespace ≡ some grants
    → (b : Bool) × (permits (some reader) from kind namespace name ≡ ok b)
      × ((b ≡ true) ↔ ((namespace ≡ from) ⊎ Any (Admits labels kind name) grants))
unfolding permits
permits_iff reader from kind namespace name labels grants known listed =
    elim (Bool-cases (str_eq namespace from)) [
      | inl same ↦ (true, rw same, (λ _. inl ((eq_iff namespace from).0 same), λ _. refl))
      | inr other ↦
          let d =
            allows-Decides reader labels from kind name known grants (new_check from kind name)
              (record { from_eq = refl; kind_eq = refl; name_eq = refl; cached = λ e. cc }) in
          (
            d.answer,
            rw (other, listed) (ap (λ (r : Check Bool). r.0) d.result),
            (
              λ e. inr (d.sound e),
              λ s. elim s [ inl e ↦ cc ((eq_iff namespace from).1 e) | inr a ↦ d.complete a ],
            ),
          )
    ]

abbrev pub NamesEndpoint : RefGrantTo → Type 0
NamesEndpoint to = Any (λ k. k ≡ endpoint_kind) to.kinds

kinds_named :
    (kinds : List String) → ExposesKind endpoint_kind kinds → Any (λ k. k ≡ endpoint_kind) kinds
kinds_named [] h = absurd (h refl)
kinds_named (k ∷ kinds) h = h

endpoint_named :
    (name : String) (ts : List RefGrantTo) → Exposes endpoint_kind name ts → Any NamesEndpoint ts
endpoint_named name [] h = absurd (h refl)
endpoint_named name (t ∷ ts) h =
    Any-map (ExposesTo endpoint_kind name) NamesEndpoint (λ to x. kinds_named to.kinds x.0) (t ∷ ts)
      h

-- A reference to an endpoint of another namespace is permitted only by a grant that names the
-- endpoint's kind.
permits-endpoint :
    (reader : GrantReader) (from namespace name : String) (labels : Labels) (grants : List RefGrant)
    → reader.get from ≡ some labels
    → reader.list namespace ≡ some grants
    → namespace ≢ from
    → permits (some reader) from endpoint_kind namespace name ≡ ok true
    → Any (λ grant. Any NamesEndpoint grant.to) grants
permits-endpoint reader from namespace name labels grants known listed across yes_answer =
    let (b, answer, b_iff) =
      permits_iff reader from endpoint_kind namespace name labels grants known listed in
    elim (b_iff.0 (cc)) [
      | inl same ↦ absurd (across same)
      | inr admitted ↦
          Any-map (Admits labels endpoint_kind name) (λ grant. Any NamesEndpoint grant.to)
            (λ grant a. endpoint_named name grant.to a.target) grants admitted
    ]
