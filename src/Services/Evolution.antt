-- ===== src/Services/Evolution.antt =====
-- The gates on the edges of an evolution, the search for cycles and the build:
-- src/intel/services/evolution.py. Ratios are integers over one denominator, times microseconds.
mod Edges
mod Chains
mod Walks
mod Search
mod Cycles
mod Builds
mod Samples
use semiconductor_intel.Prelude.{
  ℕ, zero, suc, ◌-◌, ◌*◌, String, Bool, true, false, not, ◌&&◌, ◌||◌, Option, none, some, List, [],
  ◌∷◌, ◌++◌, ltb, leb, ◌==◌, nat_eq, string_eq, if◌then◌else◌, any_of, keep, length,
}
use Prim.Native.String.{◌++◌ as ◌<>◌}
use Prim.Native.Char.{Char, code}
use semiconductor_intel.Prelude.Dict.{Dict, get, put, triple_eq}
use semiconductor_intel.Prelude.Json.{Fields}

-- The order of `str`, by code points.
unfoldable pub str_lt : String → String → Bool
str_lt String.[] String.[] = false
str_lt String.[] (String.◌∷◌ d t) = true
str_lt (String.◌∷◌ c s) String.[] = false
str_lt (String.◌∷◌ c s) (String.◌∷◌ d t) = ltb (code c) (code d) || (code c == code d && str_lt s t)

pub record EdgeDraft : Type 0 where
  pub from_node : String
  pub to_node : String
  pub relation : String
  pub basis : String
  pub rationale : String
  pub evidence_refs : List String

abbrev pub EdgeKey : Type 0
EdgeKey = String × String × String

-- low, high = sorted((a, b))
unfoldable pub normalize_parallel : String → String → String × String
unfolding str_lt
normalize_parallel a b = if str_lt b a then (b, a) else (a, b)

unfoldable pub normalized : EdgeDraft → EdgeKey
unfolding normalize_parallel
normalized e =
    if e.relation == "parallel"
    then (
      (normalize_parallel e.from_node e.to_node).0,
      (normalize_parallel e.from_node e.to_node).1,
      e.relation,
    )
    else (e.from_node, e.to_node, e.relation)

pub record Dropped : Type 0 where
  pub edge : String
  pub reason : String

unfoldable pub evidence_required : String → Bool
evidence_required r = r == "validates" || r == "refutes" || r == "applies"

abbrev pub bare : List String → Bool
bare [] = true
bare (r ∷ rs) = false

-- `draft.basis in ("explicit", "inferred")`
abbrev pub has_basis : EdgeDraft → Bool
has_basis e = e.basis == "explicit" || e.basis == "inferred"

abbrev pub lacks_evidence : EdgeDraft → Bool
lacks_evidence e = e.basis == "inferred" && (evidence_required e.relation && bare e.evidence_refs)

-- One turn of the loop: why the draft is dropped, if it is.
unfoldable pub gate : List EdgeKey → EdgeDraft → Option Dropped
unfolding normalized evidence_required
gate seen e =
    if e.from_node == e.to_node
    then some (record { edge = e.from_node <> "->" <> e.to_node; reason = "self_loop" })
    else if not (has_basis e)
    then some (record { edge = e.from_node <> "->" <> e.to_node; reason = "no_basis" })
    else if lacks_evidence e
    then some (record {
      edge = e.from_node <> "->" <> e.to_node;
      reason =
          "inferred_relation_without_evidence (timing alone never justifies " <> e.relation <> ")";
    })
    else if any_of (λ k. k == normalized e) seen
    then some (record {
      edge = (normalized e).0 <> "-" <> (normalized e).1;
      reason = "duplicate_parallel";
    })
    else none

unfoldable pub validate_from : List EdgeKey → List EdgeDraft → List EdgeDraft × List Dropped
unfolding gate
validate_from seen [] = ([], [])
validate_from seen (e ∷ drafts) = elim (gate seen e) [
  | some d ↦ let (kept, dropped) = validate_from seen drafts in (kept, d ∷ dropped)
  | none ↦ let (kept, dropped) = validate_from (normalized e ∷ seen) drafts in (e ∷ kept, dropped)
]

unfoldable pub validate_edges : List EdgeDraft → List EdgeDraft × List Dropped
unfolding validate_from
validate_edges drafts = validate_from [] drafts

-- CYCLE_RELATIONS
unfoldable pub is_chain : String → Bool
is_chain r = r == "updates" || r == "replaces" || r == "extends"

abbrev pub Graph_ : Type 0
Graph_ = Dict String (List String)

abbrev pub listed : Option (List String) → List String
listed none = []
listed (some ms) = ms

-- graph.get(node, ())
abbrev pub targets : Graph_ → String → List String
targets graph node = listed (get node graph)

-- graph.setdefault(from, []).append(to)
unfoldable pub add_edge : String → String → Graph_ → Graph_
add_edge from to graph = put from (targets graph from ++ to ∷ []) graph

unfoldable pub build_graph : List EdgeDraft → Graph_ → Graph_
unfolding add_edge is_chain
build_graph [] graph = graph
build_graph (e ∷ edges) graph =
    build_graph edges (if is_chain e.relation then add_edge e.from_node e.to_node graph else graph)

-- 0, 1 and 2 of `state`.
pub data Mark : Type 0 where
  unvisited in_stack done : Mark

pub record Walk : Type 0 where
  pub state : Dict String Mark
  pub stack : List String

abbrev pub mark_or : Option Mark → Mark
mark_or none = unvisited
mark_or (some m) = m

-- state.get(node, 0)
abbrev pub mark : Walk → String → Mark
mark w node = mark_or (get node w.state)

-- The walk goes on, a cycle was raised, or the fuel is used up.
pub data Walked : Type 0 where
  on : Walk → Walked
  cycle_rejected : List String → Walked
  no_fuel : Walked

-- stack[stack.index(node) :]
unfoldable pub from_first : String → List String → List String
from_first node [] = []
from_first node (x ∷ xs) = if x == node then x ∷ xs else from_first node xs

-- The list without its last element.
unfoldable pub pop : List String → List String
pop [] = []
pop (x ∷ []) = []
pop (x ∷ y ∷ ys) = x ∷ pop (y ∷ ys)

unfoldable pub enter : String → Walk → Walk
enter node w = record { state = put node in_stack w.state; stack = w.stack ++ node ∷ [] }

unfoldable pub leave : String → Walked → Walked
unfolding pop
leave node (on w) = on (record { state = put node done w.state; stack = pop w.stack })
leave node (cycle_rejected c) = cycle_rejected c
leave node no_fuel = no_fuel

abbrev pub and_then : (Walk → Walked) → Walked → Walked
and_then f (on w) = f w
and_then f (cycle_rejected c) = cycle_rejected c
and_then f no_fuel = no_fuel

-- The loop over the neighbors; `visit` is the recursive call.
unfoldable pub neighbors : (String → Walk → Walked) → List String → Walk → Walked
unfolding from_first
neighbors visit [] w = on w
neighbors visit (m ∷ ms) w = elim (mark w m) [
  | in_stack ↦ cycle_rejected (from_first m w.stack ++ m ∷ [])
  | unvisited ↦ and_then (neighbors visit ms) (visit m w)
  | done ↦ neighbors visit ms w
]

unfoldable pub visit : ℕ → Graph_ → String → Walk → Walked
unfolding neighbors enter leave
visit zero graph node w = no_fuel
visit (suc n) graph node w =
    leave node (neighbors (visit n graph) (targets graph node) (enter node w))

-- The loop over the keys.
unfoldable pub roots : (String → Walk → Walked) → Graph_ → Walk → Walked
roots visit [] w = on w
roots visit ((node, ms) ∷ rest) w = elim (mark w node) [
  | unvisited ↦ and_then (roots visit rest) (visit node w)
  | _ ↦ roots visit rest w
]

-- Every name of the graph.
abbrev pub nodes : Graph_ → List String
nodes [] = []
nodes ((node, ms) ∷ rest) = node ∷ ms ++ nodes rest

abbrev pub fresh_walk : Walk
fresh_walk = record { state = []; stack = [] }

unfoldable pub detect_cycles : List EdgeDraft → Walked
unfolding visit roots build_graph
detect_cycles edges =
    let graph = build_graph edges [] in roots (visit (length (nodes graph)) graph) graph fresh_walk

-- Without the fresh `revision_id`.
pub record EvolutionBuildResult : Type 0 where
  pub status : String
  pub stages : List Fields
  pub edges : List EdgeDraft
  pub dropped_edges : List Dropped
  pub input_manifest : Fields

pub data Built : Type 0 where
  built : EvolutionBuildResult → Built
  rejected : List String → Built
  unfinished : Built

abbrev pub is_empty : List EdgeDraft → Bool
is_empty [] = true
is_empty (e ∷ es) = false

unfoldable pub build_evolution : List Fields → List EdgeDraft → Fields → ℕ → ℕ → Built
unfolding validate_edges detect_cycles
build_evolution stages drafts manifest coverage_ratio min_coverage =
    let (edges, dropped) = validate_edges drafts in
    elim (detect_cycles edges) [
      | cycle_rejected c ↦ rejected c
      | no_fuel ↦ unfinished
      | on w ↦ built (record {
        status =
            if (is_empty (keep (λ (e : EdgeDraft). e.basis == "explicit") edges) && is_empty edges)
              || ltb coverage_ratio min_coverage
            then "insufficient_evidence"
            else "ok";
        stages = stages;
        edges = edges;
        dropped_edges = dropped;
        input_manifest = manifest;
      })
    ]

pub record StalePolicy : Type 0 where
  pub debounce : ℕ
  pub one_job_per_topic : Bool

-- A debounce is not negative, so a mark later than `now` is too young.
unfoldable pub should_rebuild : StalePolicy → ℕ → ℕ → ℕ → Bool
should_rebuild policy marked_at now running_jobs_for_topic =
    if policy.one_job_per_topic && ltb 0 running_jobs_for_topic
    then false
    else leb (marked_at) now && leb policy.debounce (now - marked_at)
