-- ===== src/Checker/Producers.antt =====
-- What follows when `checkReads` of checker.ts (packages/flow-graph/src) reports nothing: the results
-- that a node reads are those of nodes that have run.
use mathlib.Core.Path.{subst}
use sozai.Common.{
  ℕ, zero, suc, ◌≡◌, refl, sym, ◌∙◌, Bool, true, false, not, Option, none, some, List, [], ◌∷◌, ◌⊎◌,
  inl, inr, arith, if◌then◌else◌, some_injective, Bool-cases, ◌||◌,
}
use sozai.Common.Lists.{get_elem?}
use sozai.Common.Text.{Text, txt, same, same_iff, includes}
use sozai.Common.Fields.{Fields, own}
use sozai.Values.{Segments, is_safe}
use sozai.FlowGraph.Types.{FlowNode, FlowDefinition}
use sozai.FlowGraph.Commits.{NodeKind}
use sozai.Checker.{ids_of}
use sozai.Common.Sets.{IsDistinct}
use sozai.Checker.Analysis.{++-empty}
use sozai.Checker.Ends.{Leads}
use sozai.Checker.Dominators.{has_dominator, compute_dominators}
use sozai.Checker.Dominance.{Passes, compute_dominators-Passes}
use sozai.Checker.Reads.{
  ReadIssue, flag, scope_roots, named_node, field_issues, result_from, root_issues, path_issues,
  paths_issues, check_reads, invalid_path, result_maybe_missing,
}

flag-empty : (b : Bool) (issue : ReadIssue) → flag b issue ≡ [] → b ≡ false
flag-empty true issue h = cc
flag-empty false issue h = refl

module _ (definition : FlowDefinition) (kinds : Fields NodeKind)
    (dominators : Fields (List Text)) where
  -- The producer of a result is a node, and dominates its reader unless it reads itself.
  abbrev IsSupplied : Text → Text → Type 0
  IsSupplied id producer =
      ((node : FlowNode) × (own definition.nodes producer ≡ some node))
      × ((id ≡ producer) ⊎ (has_dominator dominators id producer ≡ true))

  supplied :
      (id producer : Text) (path rest : Segments) (node : Option FlowNode)
      → named_node definition kinds dominators (producer ∷ rest) ≡ node
      → result_from definition kinds dominators node id path (producer ∷ rest) ≡ []
      → IsSupplied id producer
  supplied id producer path rest none q h = cc
  supplied id [] path rest (some node) q h = cc
  supplied id (c ∷ name) path rest (some node) q h =
      let (_, e) = ++-empty (field_issues definition kinds dominators node id path rest) _ h in
      let f = flag-empty _ (result_maybe_missing id path) e in
      (
        (node, q),
        elim (Bool-cases (same id (c ∷ name))) [
          | inl s ↦ inl ((same_iff id (c ∷ name)).0 s)
          | inr s ↦ inr (ground arith)
        ],
      )

  path_issues-empty :
      (id producer : Text) (rest : Segments)
      → path_issues definition kinds dominators id (txt "results" ∷ producer ∷ rest) ≡ []
      → IsSupplied id producer
  unfolding path_issues root_issues same
  path_issues-empty id producer rest h =
      go
        (not (includes scope_roots (txt "results"))
          || not (is_safe (txt "results" ∷ producer ∷ rest)))
        refl h
    where
      path : Segments
      path = txt "results" ∷ producer ∷ rest

      go :
          (b : Bool)
          → (not (includes scope_roots (txt "results")) || not (is_safe path)) ≡ b
          → (if b
              then invalid_path id path ∷ []
              else root_issues definition kinds dominators id path
                  (txt "results")
                  (producer ∷ rest))
            ≡ []
          → IsSupplied id producer
      go true q k = cc
      go false q k = supplied id producer path rest _ refl k

  paths_issues-empty :
      (id : Text) (paths : List Segments) (i : ℕ) (path : Segments)
      → paths_issues definition kinds dominators id paths ≡ []
      → get_elem? paths i ≡ some path
      → path_issues definition kinds dominators id path ≡ []
  unfolding paths_issues
  paths_issues-empty id [] i path h g = cc
  paths_issues-empty id (first ∷ rest) zero path h g =
      subst (λ p. path_issues definition kinds dominators id p ≡ []) (some_injective g)
        (++-empty (path_issues definition kinds dominators id first) _ h).0
  paths_issues-empty id (first ∷ rest) (suc i) path h g =
      paths_issues-empty id rest i path
        (++-empty (path_issues definition kinds dominators id first) _ h).1 g

  check_reads-empty :
      (reads : Fields (List Segments)) (id : Text) (paths : List Segments)
      → check_reads definition kinds dominators reads ≡ []
      → own reads id ≡ some paths
      → paths_issues definition kinds dominators id paths ≡ []
  unfolding check_reads own
  check_reads-empty [] id paths h o = cc
  check_reads-empty ((reader, ps) ∷ rest) id paths h o =
      let (here, others) = ++-empty (paths_issues definition kinds dominators reader ps) _ h in
      go (same reader id) ((same_iff reader id).0) refl here
        (check_reads-empty rest id paths others) o
    where
      go :
          (b : Bool)
          → (b ≡ true → reader ≡ id)
          → same reader id ≡ b
          → paths_issues definition kinds dominators reader ps ≡ []
          → (own rest id ≡ some paths → paths_issues definition kinds dominators id paths ≡ [])
          → (if b then some ps else own rest id) ≡ some paths
          → paths_issues definition kinds dominators id paths ≡ []
      go true at q here later k =
          subst (λ v. paths_issues definition kinds dominators v paths ≡ []) (at refl)
            (subst (λ v. paths_issues definition kinds dominators reader v ≡ []) (some_injective k)
              here)
      go false at q here later k = later k

-- Where `checkReads` reports nothing, given the dominators that are computed for the graph of a
-- definition whose nodes have different ids, a node that reads a path of `results` reads the result
-- of an existing node; and unless that is the reader itself, every walk from the start to the
-- reader passes it.
pub check_reads-Passes :
    (definition : FlowDefinition) (kinds : Fields NodeKind) (edges : Fields (List Text))
    (distinct : IsDistinct (ids_of definition kinds edges definition.nodes))
    (dominators : Fields (List Text)) (reads : Fields (List Segments)) (id : Text)
    (paths : List Segments) (i : ℕ) (producer : Text) (rest : Segments)
    → compute_dominators definition.start (ids_of definition kinds edges definition.nodes) edges
      ≡ some dominators
    → check_reads definition kinds dominators reads ≡ []
    → own reads id ≡ some paths
    → get_elem? paths i ≡ some (txt "results" ∷ producer ∷ rest)
    → (w : Leads edges definition.start id)
    → ((node : FlowNode) × (own definition.nodes producer ≡ some node))
      × ((id ≡ producer) ⊎ Passes edges definition.start producer id w)
check_reads-Passes definition kinds edges distinct dominators reads id paths i producer rest d c o g
      w =
    let (sets, e, passes) =
      compute_dominators-Passes definition.start (ids_of definition kinds edges definition.nodes)
        distinct edges in
    let (node, dominated) = path_issues-empty definition kinds dominators id producer rest (
      paths_issues-empty definition kinds dominators id paths i (txt "results" ∷ producer ∷ rest)
        (check_reads-empty definition kinds dominators reads id paths c o) g) in
    (
      node,
      elim dominated [
        | inl s ↦ inl s
        | inr h ↦ inr (
            passes id producer
              (subst (λ x. has_dominator x id producer ≡ true) (some_injective (sym d ∙ e)) h) w)
      ],
    )
