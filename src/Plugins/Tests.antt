-- ===== src/Plugins/Tests.antt =====
-- Plugins sorted at a concrete input, and instances of the theorems on them.
use mathlib.Core.List.{Memᴰ}
use sozai.Common.{◌≡◌, refl, none, some, List, [], ◌∷◌, map}
use sozai.Common.Text.{txt, same, includes}
use sozai.Common.Result.{ok, err}
use sozai.Plugins.{
  Plugin, dependency_cycle, check_names, check_dependencies, missing, every, find_ready, without,
  place, sort_plugins,
}
use sozai.Plugins.Sorted.{IsOrdered, Sorted, sort_plugins-Sorted}
use sozai.Plugins.Complete.{sort_plugins_complete}

abbrev api : Plugin
api = record { name = txt "api"; depends_on = txt "auth" ∷ txt "log" ∷ [] }

abbrev auth : Plugin
auth = record { name = txt "auth"; depends_on = txt "log" ∷ [] }

abbrev log : Plugin
log = record { name = txt "log"; depends_on = [] }

abbrev given : List Plugin
given = api ∷ log ∷ auth ∷ []

abbrev in_order : List Plugin
in_order = log ∷ auth ∷ api ∷ []

sort_test : sort_plugins given ≡ some (ok in_order)
unfolding sort_plugins check_names includes same check_dependencies missing place find_ready every
    without
sort_test = refl

cycle_test :
    sort_plugins (log ∷ api ∷ record auth { depends_on = txt "api" ∷ [] } ∷ [])
    ≡ some (err (dependency_cycle (txt "api") (txt "api" ∷ txt "auth" ∷ [])))
unfolding sort_plugins check_names includes same check_dependencies missing place find_ready every
    without
cycle_test = refl

names_fit : check_names [] given ≡ none
unfolding check_names includes same
names_fit = refl

dependencies_fit : check_dependencies (map (λ q. q.name) given) given ≡ none
unfolding check_dependencies missing includes same
dependencies_fit = refl

from_order : (q : Plugin) → Memᴰ q in_order → Memᴰ q given
from_order q (Memᴰ.head e) = Memᴰ.tail (Memᴰ.head e)
from_order q (Memᴰ.tail (Memᴰ.head e)) = Memᴰ.tail (Memᴰ.tail (Memᴰ.head e))
from_order q (Memᴰ.tail (Memᴰ.tail (Memᴰ.head e))) = Memᴰ.head e
from_order q (Memᴰ.tail (Memᴰ.tail (Memᴰ.tail m))) = elim m [ ]

to_order : (q : Plugin) → Memᴰ q given → Memᴰ q in_order
to_order q (Memᴰ.head e) = Memᴰ.tail (Memᴰ.tail (Memᴰ.head e))
to_order q (Memᴰ.tail (Memᴰ.head e)) = Memᴰ.head e
to_order q (Memᴰ.tail (Memᴰ.tail (Memᴰ.head e))) = Memᴰ.tail (Memᴰ.head e)
to_order q (Memᴰ.tail (Memᴰ.tail (Memᴰ.tail m))) = elim m [ ]

sort_plugins-Sorted_example : Sorted [] given in_order
sort_plugins-Sorted_example = sort_plugins-Sorted given in_order sort_test

in_order-IsOrdered : IsOrdered [] in_order
unfolding every includes same
in_order-IsOrdered = (refl, (refl, (refl, tt)))

sort_plugins_complete_example : (sorted : List Plugin) × (sort_plugins given ≡ some (ok sorted))
sort_plugins_complete_example =
    sort_plugins_complete given in_order names_fit dependencies_fit in_order-IsOrdered from_order
      to_order
