-- ===== src/Cycle/Trail.antt =====
-- `pathTo` of internal/resolver/cycle.go: the parents that the walk recorded lead back to the start,
-- and the path that is rebuilt from them is a path of the graph.
use netbox_operator.Common.{
  ℕ, zero, suc, ◌+◌, ◌≤◌, ◌≡◌, inl, inr, refl, sym, ◌∙◌, ap, false, Option, none, some, List, [],
  ◌∷◌, ◌++◌, length, arith, Bool-cases,
}
use netbox_operator.Registry.{Descriptor}
use netbox_operator.Cycle.{
  RefNode, node_eq, node_eq_iff, FieldRefs, World, Walk, parent_of, climb, climb_parent, rev_onto,
  path_to,
}
use netbox_operator.Cycle.Graph.{Edge, IsPath}

none_not_some : {y : RefNode} → ◌≡◌ {A = Option RefNode} none (some y) → ⊥
none_not_some e = cc

module _ (world : World) (start : RefNode) (d : Descriptor) (refs : List FieldRefs) where
  -- The ancestors of a node that the walk has taken on, nearest first, ending with the start.
  pub data Trail (from : List (RefNode × RefNode)) : RefNode → List RefNode → Type 0 where
    root : {x : RefNode} → x ≡ start → Trail from x []
    up :
        {x y : RefNode} {rest : List RefNode}
        → node_eq x start ≡ false
        → parent_of x from ≡ some y
        → Edge world start d refs y x
        → Trail from y rest
        → Trail from x (y ∷ rest)

  -- A new entry leaves the trails as they were.
  pub Trail-extend :
      {from : List (RefNode × RefNode)} {x : RefNode} {rest : List RefNode} (n p : RefNode)
      → parent_of n from ≡ none
      → Trail from x rest
      → Trail ((n, p) ∷ from) x rest
  unfolding parent_of
  Trail-extend n p fresh (root e) = root e
  Trail-extend {from = from} n p fresh (up {x} {y} other parent edge t) =
      elim (Bool-cases (node_eq x n)) [
        | inl same ↦
            let e = (node_eq_iff x n).0 same in
            absurd
              (none_not_some (sym fresh ∙ ap (λ (z : RefNode). parent_of z from) (sym e) ∙ parent))
        | inr differs ↦ up other (rw differs parent) edge (Trail-extend n p fresh t)
      ]

  pub climb_lem :
      {from : List (RefNode × RefNode)} {x : RefNode} {rest : List RefNode} (rounds : ℕ)
      → Trail from x rest
      → length rest ≤ rounds
      → climb rounds start from x ≡ x ∷ rest
  unfolding climb climb_parent
  climb_lem zero (root e) h = refl
  climb_lem (suc rounds) (root {x} e) h = rw ((node_eq_iff x start).1 e)
  climb_lem zero (up other parent edge t) h = absurd (omega arith)
  climb_lem (suc rounds) (up {x} other parent edge t) h =
      rw (other, parent) (ap (λ (l : List RefNode). x ∷ l) (climb_lem rounds t (omega arith)))

  IsPath-rev_onto :
      {from : List (RefNode × RefNode)} {x : RefNode} {rest : List RefNode} (b : RefNode)
      (path : List RefNode)
      → Trail from x rest
      → IsPath world start d refs x b (x ∷ path)
      → IsPath world start d refs start b (rev_onto rest (x ∷ path))
  unfolding rev_onto
  IsPath-rev_onto b path (root e) h = rw e at h
  IsPath-rev_onto b path (up {x} {y} other parent edge t) h =
      IsPath-rev_onto b (x ∷ path) t (refl, edge, h)

  rev_onto-append : (xs path ys : List RefNode) → rev_onto xs path ++ ys ≡ rev_onto xs (path ++ ys)
  unfolding rev_onto
  rev_onto-append [] path ys = refl
  rev_onto-append (x ∷ xs) path ys = rev_onto-append xs (x ∷ path) ys

  length-rev_onto : (xs path : List RefNode) → length (rev_onto xs path) ≡ length xs + length path
  unfolding rev_onto
  length-rev_onto [] path = omega arith
  length-rev_onto (x ∷ xs) path = omega (arith, length-rev_onto xs (x ∷ path))

  -- The path to a node that has a trail, and one edge more.
  pub path_to-IsPath :
      (w : Walk) (x b : RefNode) (rest : List RefNode)
      → Trail w.from x rest
      → length rest ≤ length w.from
      → Edge world start d refs x b
      → IsPath world start d refs start b (path_to start w x ++ b ∷ [])
        × (length (path_to start w x ++ b ∷ []) ≡ length rest + 2)
  unfolding path_to rev_onto
  path_to-IsPath w x b rest t short edge =
      rw (climb_lem (length w.from) t short, rev_onto-append)
        (
          IsPath-rev_onto b (b ∷ []) t (refl, edge, (refl, refl)),
          omega (arith, length-rev_onto rest (x ∷ b ∷ [])),
        )

  pub path_to_self :
      (w : Walk) (x : RefNode) (rest : List RefNode)
      → Trail w.from x rest
      → length rest ≤ length w.from
      → IsPath world start d refs start x (path_to start w x)
  unfolding path_to rev_onto
  path_to_self w x rest t short =
      rw (climb_lem (length w.from) t short) (IsPath-rev_onto x [] t (refl, refl))
