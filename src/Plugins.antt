-- ===== src/Plugins.antt =====
-- packages/http-server/src/graph.ts: the order in which an HTTP server sets up its plugins. A plugin
-- is its name and its dependencies; its `setup` is not called here.

pub mod Sorted
pub mod Complete
mod Tests
use sozai.Common.{
  ℕ, zero, suc, Bool, true, false, Option, none, some, List, [], ◌∷◌, map, if◌then◌else◌, ◌&&◌,
}
use sozai.Common.Lists.{length}
use sozai.Common.Text.{Text, same, includes}
use sozai.Common.Result.{Result, ok, err}

pub record Plugin : Type 0 where
  pub name : Text
  pub depends_on : List Text

-- The PluginGraphError: the plugin that it names, and what its message tells besides.
pub data GraphIssue : Type 0 where
  duplicate_name : Text → GraphIssue
  missing_dependency : (plugin dependency : Text) → GraphIssue
  dependency_cycle : (plugin : Text) (involved : List Text) → GraphIssue

-- The first loop; `seen`: the names of the plugins before.
unfoldable pub check_names : List Text → List Plugin → Option GraphIssue
check_names seen [] = none
check_names seen (p ∷ rest) =
    let others = check_names (p.name ∷ seen) rest in
    if includes seen p.name then some (duplicate_name p.name) else others

unfoldable pub missing : Text → List Text → List Text → Option GraphIssue
missing plugin names [] = none
missing plugin names (d ∷ rest) =
    let others = missing plugin names rest in
    if includes names d then others else some (missing_dependency plugin d)

-- The second loop.
unfoldable pub check_dependencies : List Text → List Plugin → Option GraphIssue
check_dependencies names [] = none
check_dependencies names (p ∷ rest) = elim (missing p.name names p.depends_on) [
  | some issue ↦ some issue
  | none ↦ check_dependencies names rest
]

-- `plugin.dependsOn.every((name) => placed.has(name))`
unfoldable pub every : List Text → List Text → Bool
every placed [] = true
every placed (d ∷ rest) = includes placed d && every placed rest

-- `remaining.find(…)`
unfoldable pub find_ready : List Text → List Plugin → Option Plugin
find_ready placed [] = none
find_ready placed (p ∷ rest) =
    let later = find_ready placed rest in if every placed p.depends_on then some p else later

-- `remaining.filter((plugin) => plugin !== next)`: plugins are told apart by their names, which the
-- first loop has found distinct.
unfoldable pub without : Text → List Plugin → List Plugin
without name [] = []
without name (p ∷ rest) =
    let others = without name rest in if same p.name name then others else p ∷ others

abbrev pub prepend :
    Plugin → Option (Result GraphIssue (List Plugin)) → Option (Result GraphIssue (List Plugin))
prepend p none = none
prepend p (some (err issue)) = some (err issue)
prepend p (some (ok sorted)) = some (ok (p ∷ sorted))

-- The third loop, with the plugins that it goes on to place; `none`: the fuel ran out.
unfoldable pub place : ℕ → List Text → List Plugin → Option (Result GraphIssue (List Plugin))
place fuel placed [] = some (ok [])
place zero placed (p ∷ rest) = none
place (suc fuel) placed (p ∷ rest) = elim (find_ready placed (p ∷ rest)) [
  | none ↦ some (err (dependency_cycle p.name (map (λ q. q.name) (p ∷ rest))))
  | some next ↦ prepend next (place fuel (next.name ∷ placed) (without next.name (p ∷ rest)))
]

unfoldable pub sort_plugins : List Plugin → Option (Result GraphIssue (List Plugin))
sort_plugins plugins = elim (check_names [] plugins) [
  | some issue ↦ some (err issue)
  | none ↦ elim (check_dependencies (map (λ q. q.name) plugins) plugins) [
    | some issue ↦ some (err issue)
    | none ↦ place (length plugins) [] plugins
  ]
]
