-- ===== src/Plugins/Sorted.antt =====
-- The sorted plugins are the given ones, each after the plugins that it depends on.
use mathlib.Core.List.{Perm}
use mathlib.Core.List.Perm
use mathlib.Core.Path.{subst}
use sozai.Common.{
  ℕ, zero, suc, ◌≤◌, ◌≡◌, refl, ap, Bool, true, false, Option, none, some, List, [], ◌∷◌, map,
  arith, some_injective,
}
use sozai.Common.Lists.{length}
use sozai.Common.Text.{Text, same_iff, includes}
use sozai.Common.Result.{Result, ok, err, ok-injective}
use sozai.Plugins.{
  Plugin, GraphIssue, dependency_cycle, check_names, check_dependencies, every, find_ready, without,
  prepend, place, sort_plugins,
}

-- Each plugin's dependencies are among `placed` and the plugins before it.
abbrev pub IsOrdered : List Text → List Plugin → Type 0
IsOrdered placed [] = Unit
IsOrdered placed (p ∷ rest) = (every placed p.depends_on ≡ true) × IsOrdered (p.name ∷ placed) rest

-- Names that are distinct, and not among `seen`, are not among fewer.
fewer_seen :
    (seen seen' : List Text) (xs : List Plugin)
    → ((t : Text) → includes seen t ≡ true → includes seen' t ≡ true)
    → check_names seen' xs ≡ none
    → check_names seen xs ≡ none
unfolding check_names includes
fewer_seen seen seen' [] sub h = refl
fewer_seen seen seen' (p ∷ rest) sub h = ground (
  arith,
  sub p.name,
  fewer_seen (p.name ∷ seen) (p.name ∷ seen') rest (λ t k. ground (arith, sub t)),
)

without_absent :
    (seen : List Text) (n : Text) (xs : List Plugin)
    → check_names seen xs ≡ none
    → includes seen n ≡ true
    → without n xs ≡ xs
unfolding check_names without includes
without_absent seen n [] h k = refl
without_absent seen n (p ∷ rest) h k =
    ground (arith, without_absent (p.name ∷ seen) n rest, same_iff p.name n)

-- What remains has distinct names, and none of them is that of the plugin taken out.
pub without-check_names :
    (seen : List Text) (n : Text) (xs : List Plugin)
    → check_names seen xs ≡ none
    → check_names (n ∷ seen) (without n xs) ≡ none
unfolding check_names without includes
without-check_names seen n [] h = refl
without-check_names seen n (p ∷ rest) h =
    let rest_ok : check_names (p.name ∷ seen) rest ≡ none = ground arith in
    let less = without-check_names (p.name ∷ seen) n rest rest_ok in
    ground (
      arith,
      same_iff p.name n,
      same_iff n p.name,
      fewer_seen (n ∷ seen) (n ∷ p.name ∷ seen) (without n rest) (λ t k. ground arith) less,
      fewer_seen (p.name ∷ n ∷ seen) (n ∷ p.name ∷ seen) (without n rest) (λ t k. ground arith)
          less,
    )

ready_holds :
    (placed : List Text) (xs : List Plugin) (p : Plugin)
    → find_ready placed xs ≡ some p
    → every placed p.depends_on ≡ true
unfolding find_ready
ready_holds placed [] p h = cc
ready_holds placed (q ∷ rest) p h = ground (arith, ready_holds placed rest p)

ready_unseen :
    (placed seen : List Text) (xs : List Plugin) (p : Plugin)
    → check_names seen xs ≡ none
    → find_ready placed xs ≡ some p
    → includes seen p.name ≡ false
unfolding find_ready check_names includes
ready_unseen placed seen [] p h k = cc
ready_unseen placed seen (q ∷ rest) p h k =
    ground (arith, ready_unseen placed (q.name ∷ seen) rest p)

-- Taking the first ready plugin out leaves the others.
pub find_ready-Perm :
    (placed seen : List Text) (xs : List Plugin) (p : Plugin)
    → check_names seen xs ≡ none
    → find_ready placed xs ≡ some p
    → Perm xs (p ∷ without p.name xs) × (length xs ≡ suc (length (without p.name xs)))
unfolding find_ready check_names includes without
find_ready-Perm placed seen [] p h k = cc
find_ready-Perm placed seen (q ∷ rest) p h k =
    let rest_ok : check_names (q.name ∷ seen) rest ≡ none = ground arith in
    go (every placed q.depends_on) refl rest_ok
      (λ later. find_ready-Perm placed (q.name ∷ seen) rest p rest_ok later)
  where
    go :
        (b : Bool)
        → every placed q.depends_on ≡ b
        → check_names (q.name ∷ seen) rest ≡ none
        → (find_ready placed rest ≡ some p
            → Perm rest (p ∷ without p.name rest)
              × (length rest ≡ suc (length (without p.name rest))))
        → Perm (q ∷ rest) (p ∷ without p.name (q ∷ rest))
          × (length (q ∷ rest) ≡ suc (length (without p.name (q ∷ rest))))
    go true e rest_ok ih =
        let same_plugin : q ≡ p = ground arith in
        let others : without p.name (q ∷ rest) ≡ rest =
          rw (← same_plugin, without)
            (ground (
              arith,
              same_iff q.name q.name,
              without_absent (q.name ∷ seen) q.name rest rest_ok,
            )) in
        (rw (others, same_plugin) Perm.rfl, rw others refl)
    go false e rest_ok ih =
        let later : find_ready placed rest ≡ some p = ground arith in
        let (perm, len) = ih later in
        let others : without p.name (q ∷ rest) ≡ q ∷ without p.name rest =
          ground (arith, ready_unseen placed (q.name ∷ seen) rest p rest_ok later) in
        (
          rw others (Perm.trans (Perm.cons q perm) (Perm.swap p q (without p.name rest))),
          rw others (ap suc len),
        )

-- `sorted` holds the plugins `xs`, each after those that it depends on.
pub record Sorted (placed : List Text) (xs sorted : List Plugin) : Type 0 where
  pub same_plugins : Perm xs sorted
  pub ordered : IsOrdered placed sorted

pub place-Sorted :
    (fuel : ℕ) (placed : List Text) (xs sorted : List Plugin)
    → check_names placed xs ≡ none
    → place fuel placed xs ≡ some (ok sorted)
    → Sorted placed xs sorted
unfolding place
place-Sorted fuel placed [] sorted names h =
    let e : [] ≡ sorted = ok-injective (some_injective h) in
    record { same_plugins = rw (← e) Perm.rfl; ordered = rw (← e) tt }
place-Sorted zero placed (p ∷ rest) sorted names h = cc
place-Sorted (suc fuel) placed (p ∷ rest) sorted names h =
    go (find_ready placed (p ∷ rest)) refl (λ next more k.
      place-Sorted fuel (next.name ∷ placed) (without next.name (p ∷ rest)) more
        (without-check_names placed next.name (p ∷ rest) names) k)
  where
    go :
        (o : Option Plugin)
        → find_ready placed (p ∷ rest) ≡ o
        → ((next : Plugin) (more : List Plugin)
            → place fuel (next.name ∷ placed) (without next.name (p ∷ rest)) ≡ some (ok more)
            → Sorted (next.name ∷ placed) (without next.name (p ∷ rest)) more)
        → Sorted placed (p ∷ rest) sorted
    go none e ih = ground arith
    go (some next) e ih =
        placed_next (place fuel (next.name ∷ placed) (without next.name (p ∷ rest))) refl
      where
        placed_next :
            (m : Option (Result GraphIssue (List Plugin)))
            → place fuel (next.name ∷ placed) (without next.name (p ∷ rest)) ≡ m
            → Sorted placed (p ∷ rest) sorted
        placed_next none k = ground arith
        placed_next (some (err issue)) k = ground arith
        placed_next (some (ok more)) k =
            let whole : next ∷ more ≡ sorted = ground arith in
            let rest_sorted = ih next more k in
            subst (Sorted placed (p ∷ rest)) whole (record {
              same_plugins =
                  Perm.trans (find_ready-Perm placed placed (p ∷ rest) next names e).0
                    (Perm.cons next rest_sorted.same_plugins);
              ordered = (ready_holds placed (p ∷ rest) next e, rest_sorted.ordered);
            })

-- With as much fuel as plugins, the loop ends.
pub place-ends :
    (fuel : ℕ) (placed : List Text) (xs : List Plugin)
    → check_names placed xs ≡ none
    → length xs ≤ fuel
    → (r : Result GraphIssue (List Plugin)) × (place fuel placed xs ≡ some r)
unfolding place
place-ends fuel placed [] names small = (ok [], refl)
place-ends zero placed (p ∷ rest) names small = absurd (omega (arith, small))
place-ends (suc fuel) placed (p ∷ rest) names small =
    go (find_ready placed (p ∷ rest)) refl (λ next e.
      place-ends fuel (next.name ∷ placed) (without next.name (p ∷ rest))
        (without-check_names placed next.name (p ∷ rest) names)
        (omega (arith, small, (find_ready-Perm placed placed (p ∷ rest) next names e).1)))
  where
    go :
        (o : Option Plugin)
        → find_ready placed (p ∷ rest) ≡ o
        → ((next : Plugin)
            → find_ready placed (p ∷ rest) ≡ some next
            → (r : Result GraphIssue (List Plugin)) × (place fuel
                  (next.name ∷ placed)
                  (without next.name (p ∷ rest))
                ≡ some r))
        → (r : Result GraphIssue (List Plugin)) × (place (suc fuel) placed (p ∷ rest) ≡ some r)
    go none e ih = (err (dependency_cycle p.name (map (λ q. q.name) (p ∷ rest))), ground arith)
    go (some next) e ih = let (r, k) = ih next e in prepended r (rw (e, place, k) refl)
      where
        prepended :
            (r : Result GraphIssue (List Plugin))
            → place (suc fuel) placed (p ∷ rest) ≡ prepend next (some r)
            → (r' : Result GraphIssue (List Plugin)) × (place (suc fuel) placed (p ∷ rest)
                ≡ some r')
        prepended (err issue) k = (err issue, k)
        prepended (ok more) k = (ok (next ∷ more), k)

-- Sorting ends for any plugins, with an order or an error.
sort_plugins-ends :
    (plugins : List Plugin)
    → (r : Result GraphIssue (List Plugin)) × (sort_plugins plugins ≡ some r)
unfolding sort_plugins
sort_plugins-ends plugins = go (check_names [] plugins) refl
  where
    go :
        (o : Option GraphIssue)
        → check_names [] plugins ≡ o
        → (r : Result GraphIssue (List Plugin)) × (sort_plugins plugins ≡ some r)
    go (some issue) e = (err issue, ground arith)
    go none e = deps (check_dependencies (map (λ q. q.name) plugins) plugins) refl
      where
        deps :
            (o : Option GraphIssue)
            → check_dependencies (map (λ q. q.name) plugins) plugins ≡ o
            → (r : Result GraphIssue (List Plugin)) × (sort_plugins plugins ≡ some r)
        deps (some issue) k = (err issue, ground arith)
        deps none k =
            let (r, d) = place-ends (length plugins) [] plugins e (omega arith) in (r, ground arith)

-- The sorted plugins are the given ones, each after the plugins that it depends on.
pub sort_plugins-Sorted :
    (plugins sorted : List Plugin)
    → sort_plugins plugins ≡ some (ok sorted)
    → Sorted [] plugins sorted
unfolding sort_plugins
sort_plugins-Sorted plugins sorted h =
    place-Sorted (length plugins) [] plugins sorted (ground arith) (ground arith)
