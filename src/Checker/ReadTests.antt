-- ===== src/Checker/ReadTests.antt =====
-- The reads of results and the paths of schemas (checker.ts and result-paths.ts of
-- packages/flow-graph/src), at a concrete definition and a concrete schema.
use sozai.Common.{◌≡◌, refl, true, false, none, some, List, [], ◌∷◌, ◌⊎◌}
use sozai.Common.Text.{Text, txt, same, includes}
use sozai.Common.Fields.{Fields, own}
use sozai.Common.Json.{Json, str, object}
use sozai.Values.{Segments}
use sozai.FlowGraph.Types.{FlowNode, FlowDefinition}
use sozai.Checker.{ids_of}
use sozai.Common.Sets.{IsDistinct}
use sozai.Checker.Walks.{here, on}
use sozai.Checker.Ends.{Leads}
use sozai.Checker.Dominators.{compute_dominators}
use sozai.Checker.Dominance.{Passes}
use sozai.Checker.ResultPaths.{resolve_ref, schema_has_path}
use sozai.Checker.Reads.{
  check_reads, invalid_path, unknown_producer, not_a_loop, invalid_error_path, result_maybe_missing,
}
use sozai.Checker.Producers.{check_reads-Passes}

abbrev log : FlowNode
log = record {
  kind = txt "log";
  next = none;
  on_error = some (txt "c");
  body_is_flow = false;
  body_id = none;
  max_iterations = 3;
  retry = none;
}

-- `a` leads to `b` and `c`, and `b` to `c`.
abbrev forked : FlowDefinition
forked = record {
  id = txt "flow";
  version = 1;
  start = txt "a";
  nodes = (txt "a", log) ∷ (txt "b", log) ∷ (txt "c", log) ∷ [];
}

abbrev forked_edges : Fields (List Text)
forked_edges = (txt "a", txt "b" ∷ txt "c" ∷ []) ∷ (txt "b", txt "c" ∷ []) ∷ (txt "c", []) ∷ []

abbrev forked_sets : Fields (List Text)
forked_sets =
    (txt "a", txt "a" ∷ [])
    ∷ (txt "b", txt "b" ∷ txt "a" ∷ [])
    ∷ (txt "c", txt "c" ∷ txt "a" ∷ [])
    ∷ []

forked_dominators :
    compute_dominators (txt "a") (txt "a" ∷ txt "b" ∷ txt "c" ∷ []) forked_edges ≡ some forked_sets
unfolding compute_dominators
forked_dominators = refl

forked-ids : IsDistinct (ids_of forked [] forked_edges forked.nodes)
unfolding includes same
forked-ids = (refl, (refl, (refl, tt)))

abbrev good_reads : Fields (List Segments)
good_reads = (txt "c", (txt "results" ∷ txt "a" ∷ txt "x" ∷ []) ∷ []) ∷ []

good_issues : check_reads forked [] forked_sets good_reads ≡ []
unfolding check_reads
good_issues = refl

abbrev bad_paths : List Segments
bad_paths =
    (txt "secrets" ∷ [])
    ∷ (txt "results" ∷ txt "z" ∷ [])
    ∷ (txt "loops" ∷ txt "a" ∷ [])
    ∷ (txt "results" ∷ txt "a" ∷ txt "error" ∷ txt "stack" ∷ [])
    ∷ (txt "results" ∷ txt "b" ∷ [])
    ∷ []

bad_issues : check_reads forked [] forked_sets ((txt "c", bad_paths) ∷ []) ≡ (
    invalid_path (txt "c") (txt "secrets" ∷ [])
    ∷ unknown_producer (txt "c") (txt "results" ∷ txt "z" ∷ [])
    ∷ not_a_loop (txt "c") (txt "loops" ∷ txt "a" ∷ [])
    ∷ invalid_error_path (txt "c") (txt "results" ∷ txt "a" ∷ txt "error" ∷ txt "stack" ∷ [])
    ∷ result_maybe_missing (txt "c") (txt "results" ∷ txt "b" ∷ [])
    ∷ [])
unfolding check_reads
bad_issues = refl

forked_walk : Leads forked_edges (txt "a") (txt "c")
unfolding includes own same
forked_walk = on (txt "b") (txt "c") (on (txt "a") (txt "b") (here refl) refl refl) refl refl

good_producers : own good_reads (txt "c") ≡ some ((txt "results" ∷ txt "a" ∷ txt "x" ∷ []) ∷ [])
unfolding own same
good_producers = refl

check_reads-Passes_example :
    ((node : FlowNode) × (own forked.nodes (txt "a") ≡ some node))
    × ((txt "c" ≡ txt "a") ⊎ Passes forked_edges (txt "a") (txt "a") (txt "c") forked_walk)
check_reads-Passes_example =
    check_reads-Passes forked [] forked_edges forked-ids forked_sets good_reads (txt "c")
      ((txt "results" ∷ txt "a" ∷ txt "x" ∷ []) ∷ []) 0 (txt "a") (txt "x" ∷ []) forked_dominators
      good_issues good_producers refl forked_walk

-- A user that the definitions hold, who has a name and a friend.
abbrev user_schema : Json
user_schema = object (
    (txt "$ref", str (txt "#/definitions/user"))
    ∷ (
      txt "definitions",
      object (
          (
            txt "user",
            object (
                (
                  txt "properties",
                  object (
                      (txt "name", object ((txt "type", str (txt "string")) ∷ []))
                      ∷ (txt "friend", object ((txt "$ref", str (txt "#/definitions/user")) ∷ []))
                      ∷ []),
                )
                ∷ []),
          )
          ∷ (txt "lost", object ((txt "$ref", str (txt "#/definitions/lost")) ∷ []))
          ∷ []),
    )
    ∷ [])

name_of_friend : schema_has_path user_schema (txt "friend" ∷ txt "name" ∷ []) ≡ true
unfolding schema_has_path
name_of_friend = refl

age_of_friend : schema_has_path user_schema (txt "friend" ∷ txt "age" ∷ []) ≡ false
unfolding schema_has_path
age_of_friend = refl

lost_reference :
    resolve_ref user_schema (some (object ((txt "$ref", str (txt "#/definitions/lost")) ∷ [])))
    ≡ none
unfolding resolve_ref
lost_reference = refl
