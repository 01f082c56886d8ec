-- ===== src/Resolve/Whole.antt =====
-- internal/resolver/resolver.go: a field of references is resolved whole, or not at all.
use mathlib.Core.Path.{subst}
use netbox_operator.Common.{
  ℕ, suc, String, Option, none, some, List, [], ◌∷◌, ◌++◌, ◌≡◌, refl, sym, ◌∙◌, inl, inr, All, Any,
  All-map, Any-map, put, if-cases, str_eq, eq_iff, arith,
}
use netbox_operator.Common.Result.{Result, ok, err}
use netbox_operator.Cycle.{RefNode, ObjectRef}
use package.netbox_operator.Resolve.{
  Sources, RefField, Resolved, Unresolved, blocked, failed, unavailable, Blocker, Declared,
  Resolution, Elements, add_element, request_of, resolve_elements, resolve_field, with_field,
  resolve_fields, resolve,
}

module _ (s : Sources) (referrer : RefNode) where
  -- The results are those of the references, one after another.
  abbrev pub Each : RefField → List ObjectRef → List Resolved → Type 0
  Each field [] [] = Unit
  Each field (ref ∷ refs) (r ∷ rs) =
      (resolve s (request_of s referrer field ref) ≡ ok r) × Each field refs rs
  Each field _ _ = ⊥

  abbrev pub WholeIn : List Declared → String × List Resolved → Type 0
  WholeIn ds entry =
      Any (λ (d : Declared). (d.field.field.spec ≡ entry.0) × Each d.field d.refs entry.1) ds

  -- All elements are resolved, where nothing blocks.
  abbrev WholeElements : RefField → List ObjectRef → Elements → Type 0
  WholeElements field refs (some (rs, [])) = Each field refs rs
  WholeElements field refs _ = Unit

  add_element-Whole :
      (field : RefField) (index : ℕ) (ref : ObjectRef) (refs : List ObjectRef)
      → (r : Result Unresolved Resolved) (rest : Elements)
      → resolve s (request_of s referrer field ref) ≡ r
      → WholeElements field refs rest
      → WholeElements field (ref ∷ refs) (add_element field.to_many index r rest)
  add_element-Whole field index ref refs (err failed) rest e h = tt
  add_element-Whole field index ref refs (err (unavailable f)) rest e h = tt
  add_element-Whole field index ref refs (ok r) none e h = tt
  add_element-Whole field index ref refs (err (blocked b)) none e h = tt
  add_element-Whole field index ref refs (ok r) (some (rs, [])) e h = (e, h)
  add_element-Whole field index ref refs (ok r) (some (rs, b ∷ bs)) e h = tt
  add_element-Whole field index ref refs (err (blocked b)) (some (rs, bs)) e h = tt

  resolve_elements-Whole :
      (field : RefField) (index : ℕ) (refs : List ObjectRef)
      → WholeElements field refs (resolve_elements s referrer field index refs)
  unfolding resolve_elements
  resolve_elements-Whole field index [] = tt
  resolve_elements-Whole field index (ref ∷ refs) =
      add_element-Whole field index ref refs _ _ refl
        (resolve_elements-Whole field (suc index) refs)

  abbrev Names : String → String × List Resolved → Type 0
  Names spec entry = entry.0 ≡ spec

  put-All :
      (P : String × List Resolved → Type 0) (key : String) (value : List Resolved)
      → (entries : List (String × List Resolved)) → P (key, value)
      → All P entries
      → All P (put key value entries)
  unfolding put
  put-All P key value [] p h = (p, tt)
  put-All P key value ((k, v) ∷ entries) p h =
      if-cases (λ (es : List (String × List Resolved)). All P es) (str_eq k key) _ _ (λ t. (p, h.1))
        (λ t. (h.0, put-All P key value entries p h.1))

  put-here :
      (key : String) (value : List Resolved) (entries : List (String × List Resolved))
      → Any (Names key) (put key value entries)
  unfolding put
  put-here key value [] = inl refl
  put-here key value ((k, v) ∷ entries) =
      if-cases (λ (es : List (String × List Resolved)). Any (Names key) es) (str_eq k key) _ _
        (λ t. inl refl) (λ t. inr (put-here key value entries))

  put-Any :
      (spec key : String) (value : List Resolved) (entries : List (String × List Resolved))
      → Any (Names spec) entries
      → Any (Names spec) (put key value entries)
  unfolding put
  put-Any spec key value [] h = absurd h
  put-Any spec key value ((k, v) ∷ entries) h =
      if-cases (λ (es : List (String × List Resolved)). Any (Names spec) es) (str_eq k key) _ _
        (λ t. elim h [ inl e ↦ inl (sym ((eq_iff k key).0 t) ∙ e) | inr r ↦ inr r ])
        (λ t. elim h [ inl e ↦ inl e | inr r ↦ inr (put-Any spec key value entries r) ])

  append-nonempty : (bs : List Blocker) (c : Blocker) (cs : List Blocker) → bs ++ (c ∷ cs) ≡ [] → ⊥
  append-nonempty [] c cs e = ground arith
  append-nonempty (b ∷ bs) c cs e = ground arith

  -- What the rest of the loop keeps of what it has so far.
  abbrev Keeps : (String × List Resolved → Type 0) → Resolution → Resolution → Type 0
  Keeps P so_far res =
      (All P so_far.by_field → All P res.by_field)
      × ((spec : String) → Any (Names spec) so_far.by_field → Any (Names spec) res.by_field)
      × (res.blocked ≡ [] → so_far.blocked ≡ [])

  -- One field of the loop: it adds its results, or what blocks it.
  abbrev Step : List Declared → Declared → Resolution → Resolution → Type 0
  Step all d so_far next =
      Keeps (WholeIn all) so_far next
      × (next.blocked ≡ [] → Any (Names d.field.field.spec) next.by_field)

  with_field-Step :
      (all : List Declared) (d : Declared) (so_far res : Resolution)
      → (rest : Resolution → Option Resolution) (elements : Elements)
      → Any (λ (other : Declared). other ≡ d) all
      → WholeElements d.field d.refs elements
      → with_field s referrer d.field.field.spec elements so_far rest ≡ some res
      → (next : Resolution) × (rest next ≡ some res) × Step all d so_far next
  with_field-Step all d so_far res rest none member whole h = absurd ground arith
  with_field-Step all d so_far res rest (some (rs, [])) member whole h =
      let spec = d.field.field.spec in
      (
        record { by_field = put spec rs so_far.by_field; blocked = so_far.blocked },
        h,
        (
          (
            λ kept.
                put-All (WholeIn all) spec rs so_far.by_field
                  (Any-map (λ (other : Declared). other ≡ d)
                    (λ (x : Declared). (x.field.field.spec ≡ spec) × Each x.field x.refs rs)
                    (λ x e.
                      subst (λ (y : Declared). (y.field.field.spec ≡ spec) × Each y.field y.refs rs)
                        (sym e) (refl, whole))
                    all member)
                  kept,
            λ name a. put-Any name spec rs so_far.by_field a,
            λ e. e,
          ),
          λ e. put-here spec rs so_far.by_field,
        ),
      )
  with_field-Step all d so_far res rest (some (rs, b ∷ bs)) member whole h = (
    record { by_field = so_far.by_field; blocked = so_far.blocked ++ (b ∷ bs) },
    h,
    (
      (λ kept. kept, λ name a. a, λ e. absurd (append-nonempty so_far.blocked b bs e)),
      λ e. absurd (append-nonempty so_far.blocked b bs e),
    ),
  )

  fields-Keeps :
      (all ds : List Declared) (so_far res : Resolution)
      → All (λ (d : Declared). Any (λ (other : Declared). other ≡ d) all) ds
      → resolve_fields s referrer ds so_far ≡ some res
      → Keeps (WholeIn all) so_far res
        × (res.blocked ≡ []
            → All (λ (d : Declared). Any (Names d.field.field.spec) res.by_field) ds)
  unfolding resolve_fields
  fields-Keeps all [] so_far res members h =
      let same : so_far ≡ res = cc in
      subst
        (λ (r : Resolution).
          Keeps (WholeIn all) so_far r
          × (r.blocked ≡ [] → All (λ (d : Declared). Any (Names d.field.field.spec) r.by_field) []))
        same ((λ kept. kept, λ name a. a, λ e. e), λ e. tt)
  fields-Keeps all (d ∷ ds) so_far res members h =
      let (next, rest, (keeps, here)) =
        with_field-Step all d so_far res (resolve_fields s referrer ds) (resolve_field s referrer d)
          members.0 (resolve_elements-Whole d.field 0 d.refs) h in
      let (later, covered) = fields-Keeps all ds next res members.1 rest in
      (
        (
          λ kept. later.0 (keeps.0 kept),
          λ name a. later.1 name (keeps.1 name a),
          λ e. keeps.2 (later.2 e),
        ),
        λ e. (later.1 d.field.field.spec (here (later.2 e)), covered e),
      )

  members-of :
      (ds : List Declared) → All (λ (d : Declared). Any (λ (other : Declared). other ≡ d) ds) ds
  members-of [] = tt
  members-of (d ∷ ds) = (
    inl refl,
    All-map (λ (e : Declared). Any (λ (other : Declared). other ≡ e) ds)
        (λ (e : Declared). Any (λ (other : Declared). other ≡ e) (d ∷ ds)) (λ e a. inr a) ds
        (members-of ds),
  )

  -- The references of a field are resolved all or not at all: each list of results that the loop records
  -- for a field has, one after another, what each of its references resolves to; and if nothing is
  -- blocked, every declared field has one.
  pub resolve_fields-Whole :
      (ds : List Declared) (res : Resolution)
      → resolve_fields s referrer ds (record { by_field = []; blocked = [] }) ≡ some res
      → All (WholeIn ds) res.by_field
        × (res.blocked ≡ []
            → All
                (λ (d : Declared).
                  Any
                    (λ (entry : String × List Resolved). entry.0 ≡ d.field.field.spec)
                    res.by_field)
                ds)
  resolve_fields-Whole ds res h =
      let (keeps, covered) =
        fields-Keeps ds ds (record { by_field = []; blocked = [] }) res (members-of ds) h in
      (keeps.0 tt, covered)
