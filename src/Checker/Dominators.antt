-- ===== src/Checker/Dominators.antt =====
-- `computeDominators` of checker.ts (packages/flow-graph/src): the nodes that every walk from the start
-- to a node passes. The ids are the keys of an object, each of them once.
use sozai.Common.{
  ℕ, zero, suc, ◌+◌, Bool, true, false, not, ◌&&◌, ◌||◌, Option, none, some, List, [], ◌∷◌, ◌++◌,
  ◌==◌, if◌then◌else◌,
}
use sozai.Common.Lists.{length}
use sozai.Common.Text.{Text, same, includes}
use sozai.Common.Fields.{Fields, own, put}

-- The pushes of one node's targets to the predecessors of `id`.
unfoldable pub pushed : Text → List Text → Text → List Text
unfolding same
pushed source [] id = []
pushed source (target ∷ rest) id =
    let more = pushed source rest id in if same target id then source ∷ more else more

-- `predecessors.get(id)`
unfoldable pub incoming : Fields (List Text) → Text → List Text
unfolding pushed
incoming [] id = []
incoming ((source, targets) ∷ rest) id = pushed source targets id ++ incoming rest id

abbrev pub has_from : Option (List Text) → Text → Bool
has_from none c = false
has_from (some set) c = includes set c

-- `dominators.get(id)?.has(c)`
unfoldable pub has_dominator : Fields (List Text) → Text → Text → Bool
unfolding own includes
has_dominator dominators id c = has_from (own dominators id) c

unfoldable pub every_has : Fields (List Text) → List Text → Text → Bool
unfolding has_dominator
every_has dominators [] c = true
every_has dominators (p ∷ rest) c = has_dominator dominators p c && every_has dominators rest c

abbrev pub is_empty : List Text → Bool
is_empty [] = true
is_empty (x ∷ xs) = false

-- The ids but `id` that dominate all predecessors.
unfoldable pub shared : Fields (List Text) → List Text → Text → List Text → List Text
unfolding every_has same
shared dominators before id [] = []
shared dominators before id (c ∷ rest) =
    let more = shared dominators before id rest in
    if not (same c id) && (not (is_empty before) && every_has dominators before c)
    then c ∷ more
    else more

-- `[...next].some((candidate) => !old.has(candidate))`
unfoldable pub some_missing : List Text → List Text → Bool
unfolding includes
some_missing old [] = false
some_missing old (c ∷ rest) = not (includes old c) || some_missing old rest

-- The sizes of all sets, which each round that changes one lessens.
unfoldable pub total : Fields (List Text) → ℕ
total [] = 0
total ((id, set) ∷ rest) = length set + total rest

module _ (start : Text) (ids : List Text) (edges : Fields (List Text)) where
  -- The set that the loop computes for an id.
  unfoldable pub next_set : Fields (List Text) → Text → List Text
  unfolding shared incoming
  next_set dominators id = id ∷ shared dominators (incoming edges id) id ids

  abbrev pub is_changed : List Text → List Text → Bool
  is_changed old new = not (length new == length old) || some_missing old new

  abbrev pub renew_from : Option (List Text) → Fields (List Text) → Text → Fields (List Text) × Bool
  renew_from none dominators id = (dominators, false)
  renew_from (some old) dominators id =
      if is_changed old (next_set dominators id)
      then (put dominators id (next_set dominators id), true)
      else (dominators, false)

  -- The body of the loop over the ids, with whether it changes a set.
  unfoldable pub renew : Fields (List Text) → Text → Fields (List Text) × Bool
  unfolding next_set some_missing own put same
  renew dominators id =
      if same id start then (dominators, false) else renew_from (own dominators id) dominators id

  unfoldable pub renew_all : Fields (List Text) → List Text → Fields (List Text) × Bool
  unfolding renew
  renew_all dominators [] = (dominators, false)
  renew_all dominators (id ∷ rest) =
      let first = renew dominators id in
      let others = renew_all first.0 rest in (others.0, first.1 || others.1)

  -- The outer loop; `none`: the fuel ran out.
  unfoldable pub settle_dominators : ℕ → Fields (List Text) → Option (Fields (List Text))
  unfolding renew_all
  settle_dominators zero dominators = none
  settle_dominators (suc fuel) dominators = elim (renew_all dominators ids).1 [
    | true ↦ settle_dominators fuel (renew_all dominators ids).0
    | false ↦ some (renew_all dominators ids).0
  ]

  unfoldable pub initial_from : List Text → Fields (List Text)
  unfolding same
  initial_from [] = []
  initial_from (id ∷ rest) = (id, if same id start then id ∷ [] else ids) ∷ initial_from rest

  unfoldable pub compute_dominators : Option (Fields (List Text))
  unfolding settle_dominators initial_from total
  compute_dominators = settle_dominators (suc (total (initial_from ids))) (initial_from ids)
