-- ===== src/Cycle.antt =====
-- internal/resolver/cycle.go: the walk that looks for a cycle of blocking references through an
-- object. `Graph` says what an edge and a walk are, `Expand` what one object adds to the walk,
-- `Trail` how a path is rebuilt, `Level` the loop over a frontier and `Verdict` the answers.
pub mod Graph
pub mod Expand
pub mod Trail
pub mod Level
pub mod Verdict
pub mod Tests
use netbox_operator.Common.{
  ℕ, zero, suc, ◌+◌, ◌≡◌, ◌↔◌, String, Bool, true, false, not, ◌&&◌, ◌||◌, Option, none, some, List,
  [], ◌∷◌, ◌++◌, length, arith, if◌then◌else◌, ltb, ◌==◌, str_eq, eq_iff, any,
}
use netbox_operator.Common.Result.{Result, ok, err, ◌>>=◌}
use netbox_operator.Grants.{GrantReader, GrantError, permits}
use netbox_operator.Registry.{
  Gvk, gvk_eq, gvk_eq_iff, KeyField, NaturalKey, DeferMode, defer_always, defer_if_unresolved,
  DeferredField, Field, Descriptor,
}

abbrev pub max_ref_depth : ℕ
max_ref_depth = 32

abbrev pub max_ref_visits : ℕ
max_ref_visits = 256

pub record RefNode : Type 0 where
  pub gvk : Gvk
  pub namespace : String
  pub name : String

unfoldable pub node_eq : RefNode → RefNode → Bool
node_eq a b = gvk_eq a.gvk b.gvk && str_eq a.namespace b.namespace && str_eq a.name b.name

pub node_eq_iff : (a b : RefNode) → (node_eq a b ≡ true) ↔ (a ≡ b)
unfolding node_eq
node_eq_iff a b =
    ground (arith, gvk_eq_iff a.gvk b.gvk, eq_iff a.namespace b.namespace, eq_iff a.name b.name)

-- The reference as it is written in a spec; a text that is not written is empty.
pub record ObjectRef : Type 0 where
  pub name : String
  pub namespace : String
  pub slug : String
  pub lookup : List (String × String)
  pub id : Option ℕ

pub data Mode : Type 0 where
  mode_name mode_slug mode_lookup mode_id mode_none : Mode

pub record FieldRefs : Type 0 where
  pub field : Field
  pub refs : List ObjectRef

pub record RefElement : Type 0 where
  pub field : Field
  pub ref : ObjectRef

pub record Hop : Type 0 where
  pub node : RefNode
  pub from : RefNode
  pub head : RefElement

-- What the informer cache answers to a read of an object: the references that refsOf decodes from
-- it (`none` where its spec does not decode), that it or its kind is not there, or another error.
pub data Live : Type 0 where
  found : Option (List FieldRefs) → Live
  not_found no_kind unreadable : Live

-- The registry, the cache and the grants as the walk reads them.
pub record World : Type 0 where
  pub kinds : Gvk → Option Descriptor
  pub get : RefNode → Live
  pub grants : Option GrantReader

pub data WalkError : Type 0 where
  read_failed undecodable : WalkError
  not_authorised : GrantError → WalkError

unfoldable pub mode_of : ObjectRef → Mode
mode_of ref =
    if not (str_eq ref.name "")
    then mode_name
    else if not (str_eq ref.slug "")
    then mode_slug
    else elim ref.lookup [
      | p ∷ ps ↦ mode_lookup
      | [] ↦ elim ref.id [ some i ↦ mode_id | none ↦ mode_none ]
    ]

abbrev pub is_name : Mode → Bool
is_name mode_name = true
is_name _ = false

pub elements : Field → List ObjectRef → List RefElement
elements field [] = []
elements field (ref ∷ refs) = record { field = field; ref = ref } ∷ elements field refs

pub defer_mode_of : List DeferredField → String → Option DeferMode
defer_mode_of [] api = none
defer_mode_of (d ∷ ds) api = if str_eq d.api_field api then some d.mode else defer_mode_of ds api

pub in_natural_key : Descriptor → String → Bool
in_natural_key d spec =
    any (λ (candidate : NaturalKey). any (λ (f : KeyField). str_eq f.spec spec) candidate.fields)
      d.natural_keys

-- The three cases of a field that is or is not deferred.
pub blocks_as : Option DeferMode → Bool → Bool
blocks_as none in_key = true
blocks_as (some defer_always) in_key = false
blocks_as (some defer_if_unresolved) in_key = in_key

pub blocking : Descriptor → RefElement → Bool
blocking d e =
    is_name (mode_of e.ref)
    && blocks_as (defer_mode_of d.deferred e.field.api) (in_natural_key d e.field.spec)

pub target_node : RefNode → RefElement → RefNode
target_node from e = record {
  gvk = e.field.target;
  namespace = if str_eq e.ref.namespace "" then from.namespace else e.ref.namespace;
  name = e.ref.name;
}

abbrev pub branch_of : Option RefElement → RefElement → RefElement
branch_of none element = element
branch_of (some head) element = head

pub element_hops : RefNode → Descriptor → List RefElement → Option RefElement → List Hop
element_hops from d [] head = []
element_hops from d (e ∷ es) head =
    let rest = element_hops from d es head in
    if blocking d e
    then record { node = target_node from e; from = from; head = branch_of head e } ∷ rest
    else rest

pub blocking_hops : RefNode → Descriptor → List FieldRefs → Option RefElement → List Hop
blocking_hops from d [] head = []
blocking_hops from d (f ∷ fs) head =
    element_hops from d (elements f.field f.refs) head ++ blocking_hops from d fs head

pub authorised : Result GrantError Bool → Result WalkError Bool
authorised (ok permitted) = ok permitted
authorised (err e) = err (not_authorised e)

module _ (world : World) (start : RefNode) where
  abbrev pub permitted : RefNode → Result GrantError Bool
  permitted node = permits world.grants start.namespace node.gvk.kind node.namespace node.name

  pub follow : List Hop → Result WalkError (List Hop)
  follow [] = ok []
  follow (edge ∷ edges) =
      let rest = follow edges in
      authorised (permitted edge.node) >>= λ allowed.
      if allowed then (rest >>= λ kept. ok (edge ∷ kept)) else rest

  pub expand_live : Hop → Descriptor → Live → Result WalkError (List Hop)
  expand_live edge target (found (some refs)) =
      follow (blocking_hops edge.node target refs (some edge.head))
  expand_live edge target (found none) = err undecodable
  expand_live edge target not_found = ok []
  expand_live edge target no_kind = ok []
  expand_live edge target unreadable = err read_failed

  pub expand_known : Hop → Option Descriptor → Result WalkError (List Hop)
  expand_known edge none = ok []
  expand_known edge (some target) = expand_live edge target (world.get edge.node)

  pub expand : Hop → Result WalkError (List Hop)
  unfolding expand_known
  expand edge = expand_known edge (world.kinds edge.node.gvk)

-- cycleWalk, with its maps as a list of the keys and a list of pairs.
pub record Walk : Type 0 where
  pub seen : List RefNode
  pub from : List (RefNode × RefNode)
  pub visits : ℕ

pub member : RefNode → List RefNode → Bool
member x [] = false
member x (y ∷ ys) = node_eq x y || member x ys

pub parent_of : RefNode → List (RefNode × RefNode) → Option RefNode
parent_of x [] = none
parent_of x ((child, parent) ∷ from) = if node_eq x child then some parent else parent_of x from

-- The loop of pathTo: the node, then its parents up to the start. It takes as many rounds as `from`
-- has entries.
pub climb_parent : (RefNode → List RefNode) → Option RefNode → List RefNode
climb_parent up none = []
climb_parent up (some parent) = up parent

pub climb : ℕ → RefNode → List (RefNode × RefNode) → RefNode → List RefNode
unfolding climb_parent
climb zero start from node = node ∷ []
climb (suc rounds) start from node =
    let above = climb_parent (climb rounds start from) (parent_of node from) in
    if node_eq node start then node ∷ [] else node ∷ above

-- The loop that turns it round.
pub rev_onto : List RefNode → List RefNode → List RefNode
rev_onto [] path = path
rev_onto (x ∷ xs) path = rev_onto xs (x ∷ path)

pub path_to : RefNode → Walk → RefNode → List RefNode
path_to start w node = rev_onto (climb (length w.from) start w.from node) []

-- The reports: the path, and the reference on the start object that its branch left through.
pub data Report : Type 0 where
  cycle too_deep too_large : List RefNode → RefElement → Report

-- What a walk ends with: nil, a report, an error, or, which does not happen, no rounds left.
pub data Outcome : Type 0 where
  clear : Outcome
  reported : Report → Outcome
  failed : WalkError → Outcome
  unfinished : Outcome

-- What a pass over a frontier ends with: the walk's outcome, or the next frontier.
pub data Pass : Type 0 where
  stop : Outcome → Pass
  level : List Hop → Walk → Pass

abbrev pub Continue : Type 0
Continue = List Hop → Walk → Pass

pub report_cycle : RefNode → Walk → Hop → Outcome
report_cycle start w edge = reported (cycle (path_to start w edge.from ++ start ∷ []) edge.head)

pub report_too_deep : RefNode → Walk → Hop → Hop → Outcome
report_too_deep start w edge beyond =
    reported (too_deep (path_to start w edge.node ++ beyond.node ∷ []) edge.head)

pub report_too_large : RefNode → Walk → Hop → Outcome
report_too_large start w edge = reported (too_large (path_to start w edge.node) edge.head)

-- The walk takes the node of an edge on.
pub take_on : Hop → Walk → Walk
take_on edge w = record {
  seen = edge.node ∷ w.seen;
  from = (edge.node, edge.from) ∷ w.from;
  visits = w.visits + 1;
}

-- The end of a round of the inner loop, from what `expand` gives.
pub with_children :
    ℕ → RefNode → Hop → List Hop → Walk → Continue → Result WalkError (List Hop) → Pass
with_children depth start edge next w rest (err e) = stop (failed e)
with_children depth start edge next w rest (ok []) = rest next w
with_children depth start edge next w rest (ok (child ∷ children)) =
    if depth == max_ref_depth
    then stop (report_too_deep start w edge child)
    else rest (next ++ (child ∷ children)) w

pub visit : World → ℕ → RefNode → Hop → List Hop → Walk → Continue → Pass
unfolding with_children
visit world depth start edge next w rest =
    let w' = take_on edge w in
    if ltb max_ref_visits w'.visits
    then stop (report_too_large start w' edge)
    else with_children depth start edge next w' rest (expand world start edge)

-- A round of the inner loop: is the node the start, was it seen.
pub arrive : World → ℕ → RefNode → Hop → List Hop → Walk → Continue → Pass
arrive world depth start edge next w rest =
    if node_eq edge.node start
    then stop (report_cycle start w edge)
    else if member edge.node w.seen
    then rest next w
    else visit world depth start edge next w rest

pub scan : World → ℕ → RefNode → List Hop → List Hop → Walk → Pass
scan world depth start [] next w = level next w
scan world depth start (edge ∷ edges) next w =
    arrive world depth start edge next w (scan world depth start edges)

-- The outer loop, in at most `rounds` rounds.
pub after_pass : (List Hop → Walk → Outcome) → Pass → Outcome
after_pass again (stop out) = out
after_pass again (level frontier w) = again frontier w

pub run : World → RefNode → ℕ → ℕ → List Hop → Walk → Outcome
unfolding after_pass
run world start rounds depth [] w = clear
run world start zero depth (edge ∷ edges) w = unfinished
run world start (suc rounds) depth (edge ∷ edges) w =
    after_pass (run world start rounds (depth + 1)) (scan world depth start (edge ∷ edges) [] w)

abbrev pub first_walk : RefNode → Walk
first_walk start = record { seen = start ∷ []; from = []; visits = 0 }

pub run_from : World → RefNode → Result WalkError (List Hop) → Outcome
run_from world start (err e) = failed e
run_from world start (ok frontier) =
    run world start (max_ref_depth + 1) 1 frontier (first_walk start)

pub check_from : World → RefNode → Descriptor → List FieldRefs → Outcome
check_from world start d refs =
    run_from world start (follow world start (blocking_hops start d refs none))
