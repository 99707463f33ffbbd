-- ===== src/Checker/Reads.antt =====
-- packages/flow-graph/src/checker.ts, `checkReads`: the checks of the scope paths that the nodes of
-- an authored definition read. `reads` are those paths, by the ids of their readers.
use sozai.Common.{
  Bool, true, false, not, ◌&&◌, ◌||◌, Option, none, some, List, [], ◌∷◌, ◌++◌, if◌then◌else◌,
}
use sozai.Common.Text.{Text, txt, same, includes, truthy}
use sozai.Common.Fields.{Fields, own}
use sozai.Common.Json.{Json}
use sozai.Values.{Segments, is_safe}
use sozai.FlowGraph.Types.{FlowNode, FlowDefinition}
use sozai.FlowGraph.Commits.{NodeKind}
use sozai.Checker.Dominators.{has_dominator}
use sozai.Checker.ResultPaths.{schema_has_path}

-- `unknown_producer` and `not_a_loop` are further messages of `invalid_path`.
pub data ReadIssue : Type 0 where
  invalid_path unknown_producer not_a_loop invalid_error_path invalid_result_path :
      Text → Segments → ReadIssue
  result_maybe_missing : Text → Segments → ReadIssue

abbrev pub flag : Bool → ReadIssue → List ReadIssue
flag test issue = if test then issue ∷ [] else []

abbrev pub scope_roots : List Text
scope_roots = txt "input" ∷ txt "state" ∷ txt "results" ∷ txt "loops" ∷ []

abbrev pub error_fields : List Text
error_fields = txt "type" ∷ txt "code" ∷ txt "status" ∷ txt "reason" ∷ txt "attempts" ∷ []

-- `rest[0] === 'error'`
unfoldable pub is_error_path : Segments → Bool
unfolding same
is_error_path [] = false
is_error_path (first ∷ rest) = same first (txt "error")

-- What follows `error` in a path.
unfoldable pub is_unknown_field : Segments → Bool
unfolding includes
is_unknown_field [] = false
is_unknown_field (first ∷ []) = false
is_unknown_field (first ∷ field ∷ []) = not (includes error_fields field)
is_unknown_field (first ∷ field ∷ more ∷ rest) = true

abbrev pub undeclared_in : Option (FlowNode → Json) → FlowNode → Segments → Bool
undeclared_in none node rest = false
undeclared_in (some schema) node [] = false
undeclared_in (some schema) node (first ∷ rest) = not (schema_has_path (schema node) (first ∷ rest))

abbrev pub undeclared_by : Option NodeKind → FlowNode → Segments → Bool
undeclared_by none node rest = false
undeclared_by (some kind) node rest = undeclared_in kind.result_schema node rest

abbrev pub is_loop_kind : Option FlowNode → Bool
is_loop_kind none = false
is_loop_kind (some node) = same node.kind (txt "loop")

module _ (definition : FlowDefinition) (kinds : Fields NodeKind)
    (dominators : Fields (List Text)) where
  -- The producer that a path names after its root; an empty name is none.
  abbrev pub named_node : Segments → Option FlowNode
  named_node [] = none
  named_node ([] ∷ rest) = none
  named_node ((c ∷ name) ∷ rest) = own definition.nodes (c ∷ name)

  abbrev pub field_issues : FlowNode → Text → Segments → Segments → List ReadIssue
  field_issues node id path rest =
      if is_error_path rest && truthy node.on_error
      then flag (is_unknown_field rest) (invalid_error_path id path)
      else flag (undeclared_by (own kinds node.kind) node rest) (invalid_result_path id path)

  abbrev pub producer_issues : FlowNode → Text → Segments → Text → Segments → List ReadIssue
  producer_issues node id path producer rest =
      field_issues node id path rest
      ++ flag (not (same id producer) && not (has_dominator dominators id producer))
          (result_maybe_missing id path)

  -- A path that starts with `results`.
  abbrev pub result_from : Option FlowNode → Text → Segments → Segments → List ReadIssue
  result_from none id path rest = unknown_producer id path ∷ []
  result_from (some node) id path [] = []
  result_from (some node) id path (producer ∷ rest) = producer_issues node id path producer rest

  -- The issues of a path with this root.
  unfoldable pub root_issues : Text → Segments → Text → Segments → List ReadIssue
  unfolding same own is_error_path is_unknown_field schema_has_path has_dominator
  root_issues id path root rest =
      if same root (txt "results")
      then result_from (named_node rest) id path rest
      else flag (same root (txt "loops") && not (is_loop_kind (named_node rest)))
          (not_a_loop id path)

  unfoldable pub path_issues : Text → Segments → List ReadIssue
  unfolding root_issues includes is_safe
  path_issues id [] = invalid_path id [] ∷ []
  path_issues id (root ∷ rest) =
      if not (includes scope_roots root) || not (is_safe (root ∷ rest))
      then invalid_path id (root ∷ rest) ∷ []
      else root_issues id (root ∷ rest) root rest

  unfoldable pub paths_issues : Text → List Segments → List ReadIssue
  unfolding path_issues
  paths_issues id [] = []
  paths_issues id (path ∷ rest) = path_issues id path ++ paths_issues id rest

  unfoldable pub check_reads : Fields (List Segments) → List ReadIssue
  unfolding paths_issues
  check_reads [] = []
  check_reads ((id, paths) ∷ rest) = paths_issues id paths ++ check_reads rest
