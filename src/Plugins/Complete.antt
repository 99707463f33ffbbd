-- ===== src/Plugins/Complete.antt =====
-- Plugins that can be set up in some order are sorted.
use mathlib.Core.List.{Memᴰ}
use sozai.Common.{
  ℕ, zero, suc, ◌≤◌, ◌≡◌, refl, ap, sym, ◌∙◌, inl, inr, Bool, true, false, Option, none, some, List,
  [], ◌∷◌, map, arith, Bool-cases,
}
use sozai.Common.Lists.{length}
use sozai.Common.Text.{Text, same, same_iff, includes}
use sozai.Common.Result.{ok}
use sozai.Plugins.{
  Plugin, check_names, check_dependencies, every, find_ready, without, place, sort_plugins,
}
use sozai.Plugins.Sorted.{IsOrdered, without-check_names, find_ready-Perm}

-- More names placed, more dependencies met.
every_more :
    (placed placed' ds : List Text)
    → ((t : Text) → includes placed t ≡ true → includes placed' t ≡ true)
    → every placed ds ≡ true
    → every placed' ds ≡ true
unfolding every
every_more placed placed' [] sub h = refl
every_more placed placed' (d ∷ ds) sub h = ground (arith, sub d, every_more placed placed' ds sub)

-- Where no plugin is ready, each one lacks a dependency.
stuck_lacks :
    (placed : List Text) (xs : List Plugin) (q : Plugin)
    → find_ready placed xs ≡ none
    → Memᴰ q xs
    → every placed q.depends_on ≡ false
unfolding find_ready
stuck_lacks placed [] q h m = elim m [ ]
stuck_lacks placed (p ∷ rest) q h (Memᴰ.head e) = rw e (ground arith)
stuck_lacks placed (p ∷ rest) q h (Memᴰ.tail m) = stuck_lacks placed rest q (ground arith) m

-- A plugin with another name stays.
mem-without :
    (n : Text) (xs : List Plugin) (q : Plugin)
    → same q.name n ≡ false
    → Memᴰ q xs
    → Memᴰ q (without n xs)
unfolding without
mem-without n [] q h m = elim m [ ]
mem-without n (p ∷ rest) q h (Memᴰ.head e) =
    rw (ap (λ (x : Plugin). same x.name n) (sym e) ∙ h) (Memᴰ.head e)
mem-without n (p ∷ rest) q h (Memᴰ.tail m) = go (same p.name n) refl (mem-without n rest q h m)
  where
    go : (b : Bool) → same p.name n ≡ b → Memᴰ q (without n rest) → Memᴰ q (without n (p ∷ rest))
    go true e k = rw (e, without) k
    go false e k = rw (e, without) (Memᴰ.tail k)

mem_of_without : (n : Text) (xs : List Plugin) (q : Plugin) → Memᴰ q (without n xs) → Memᴰ q xs
unfolding without
mem_of_without n [] q m = m
mem_of_without n (p ∷ rest) q m = go (same p.name n) refl (mem_of_without n rest q)
  where
    go :
        (b : Bool) → same p.name n ≡ b → (Memᴰ q (without n rest) → Memᴰ q rest) → Memᴰ q (p ∷ rest)
    go true e ih = Memᴰ.tail (ih (rw (e, without) at m))
    go false e ih = kept (rw (e, without) at m)
      where
        kept : Memᴰ q (p ∷ without n rest) → Memᴰ q (p ∷ rest)
        kept (Memᴰ.head k) = Memᴰ.head k
        kept (Memᴰ.tail k) = Memᴰ.tail (ih k)

-- Where no remaining plugin is ready, every plugin of an order has been placed.
all_placed :
    (before placed : List Text) (order remaining : List Plugin)
    → ((t : Text) → includes before t ≡ true → includes placed t ≡ true)
    → IsOrdered before order
    → find_ready placed remaining ≡ none
    → ((q : Plugin) → Memᴰ q order → includes placed q.name ≡ false → Memᴰ q remaining)
    → (q : Plugin) → Memᴰ q order
    → includes placed q.name ≡ true
unfolding includes
all_placed before placed [] remaining sub ordered stuck kept q m = elim m [ ]
all_placed before placed (p ∷ order) remaining sub (met, ordered) stuck kept q m =
    elim (Bool-cases (includes placed p.name)) [
      | inr unplaced ↦
          let lacks = stuck_lacks placed remaining p stuck (kept p (Memᴰ.head refl) unplaced) in
          let meets = every_more before placed p.depends_on sub met in cc
      | inl placed_p ↦ elim m [
        | Memᴰ.head e ↦ rw e placed_p
        | Memᴰ.tail k ↦
            all_placed (p.name ∷ before) placed order remaining
              (λ t h. ground (arith, sub t, same_iff p.name t)) ordered stuck
              (λ x j. kept x (Memᴰ.tail j)) q k
      ]
    ]

place_complete :
    (fuel : ℕ) (placed : List Text) (xs order : List Plugin)
    → check_names placed xs ≡ none
    → length xs ≤ fuel
    → IsOrdered [] order
    → ((q : Plugin) → Memᴰ q order → includes placed q.name ≡ false → Memᴰ q xs)
    → ((q : Plugin) → Memᴰ q xs → Memᴰ q order)
    → (sorted : List Plugin) × (place fuel placed xs ≡ some (ok sorted))
unfolding place check_names includes
place_complete fuel placed [] order names small ordered kept back = ([], refl)
place_complete zero placed (p ∷ rest) order names small ordered kept back =
    absurd (omega (arith, small))
place_complete (suc fuel) placed (p ∷ rest) order names small ordered kept back =
    go (find_ready placed (p ∷ rest)) refl
      (λ stuck.
        all_placed [] placed order (p ∷ rest) (λ t h. cc) ordered stuck kept p
          (back p (Memᴰ.head refl)))
      (λ next e.
        place_complete fuel (next.name ∷ placed) (without next.name (p ∷ rest)) order
          (without-check_names placed next.name (p ∷ rest) names)
          (omega (arith, small, (find_ready-Perm placed placed (p ∷ rest) next names e).1)) ordered
          (λ q m unplaced.
            mem-without next.name (p ∷ rest) q
              (ground (arith, same_iff q.name next.name, same_iff next.name q.name))
              (kept q m (ground arith)))
          (λ q m. back q (mem_of_without next.name (p ∷ rest) q m)))
  where
    go :
        (o : Option Plugin)
        → find_ready placed (p ∷ rest) ≡ o
        → (find_ready placed (p ∷ rest) ≡ none → includes placed p.name ≡ true)
        → ((next : Plugin)
            → find_ready placed (p ∷ rest) ≡ some next
            → (more : List Plugin) × (place fuel (next.name ∷ placed) (without next.name (p ∷ rest))
                ≡ some (ok more)))
        → (sorted : List Plugin) × (place (suc fuel) placed (p ∷ rest) ≡ some (ok sorted))
    go none e all ih =
        let placed_p = all e in
        let unplaced : includes placed p.name ≡ false = ground arith in absurd (cc)
    go (some next) e all ih = let (more, k) = ih next e in (next ∷ more, ground arith)

-- Plugins that pass the checks of their names and dependencies are sorted if some order of them
-- sets each plugin up after the plugins that it depends on.
pub sort_plugins_complete :
    (plugins order : List Plugin)
    → check_names [] plugins ≡ none
    → check_dependencies (map (λ q. q.name) plugins) plugins ≡ none
    → IsOrdered [] order
    → ((q : Plugin) → Memᴰ q order → Memᴰ q plugins)
    → ((q : Plugin) → Memᴰ q plugins → Memᴰ q order)
    → (sorted : List Plugin) × (sort_plugins plugins ≡ some (ok sorted))
unfolding sort_plugins
sort_plugins_complete plugins order names deps ordered from to =
    let (sorted, e) =
      place_complete (length plugins) [] plugins order names (omega arith) ordered
        (λ q m unplaced. from q m) to in
    (sorted, ground arith)
