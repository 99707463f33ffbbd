-- ===== src/Checker/Settling.antt =====
-- `computeDominators` (packages/flow-graph/src/checker.ts) ends, with sets that a round leaves as they are.
use mathlib.Core.Path.{subst}
use sozai.Common.{
  ℕ, zero, suc, ◌<◌, ◌≡◌, refl, sym, ap, ◌∙◌, Bool, true, false, not, ◌||◌, Option, none, some,
  List, [], ◌∷◌, ◌==◌, ==_iff, ◌⊎◌, inl, inr, arith, if◌then◌else◌, Bool-cases, is_some,
  some_injective,
}
use sozai.Common.Lists.{length}
use sozai.Common.Text.{Text, same, same_iff, same_refl, includes}
use sozai.Common.Sets.{Within, IsDistinct, Within-flip, Within-length, includes-cases}
use sozai.Common.Fields.{Fields, own, put}
use sozai.Checker.Dominators.{
  incoming, shared, some_missing, next_set, is_changed, renew_from, renew, renew_all,
  settle_dominators, initial_from, total, compute_dominators,
}
use sozai.Checker.Shrinking.{
  IsShrinking, put-IsShrinking, shared_iff, next_set-IsDistinct, total-put, none_missing,
}

module _ (start : Text) (ids : List Text) (distinct : IsDistinct ids)
    (edges : Fields (List Text)) where
  abbrev Shrinks : Fields (List Text) → Type 0
  Shrinks = IsShrinking start ids distinct edges

  -- A set that is computed anew is shorter where it is changed, and else has the old one's members.
  is_changed-cases :
      (old newer : List Text)
      → IsDistinct newer
      → Within newer old
      → ((is_changed start ids edges old newer ≡ true) × (length newer < length old))
        ⊎ ((is_changed start ids edges old newer ≡ false) × Within old newer)
  is_changed-cases old newer d w = pick (length newer == length old) refl
    where
      pick :
          (b : Bool)
          → (length newer == length old) ≡ b
          → (((not b || some_missing old newer) ≡ true) × (length newer < length old))
            ⊎ (((not b || some_missing old newer) ≡ false) × Within old newer)
      pick true e = inr (
        none_missing old newer w,
        Within-flip newer old d w (omega (arith, (==_iff (length newer) (length old)).0 e)),
      )
      pick false e = inl (refl, ground (arith, e, Within-length newer old d w))

  -- `id` has the set that the loop computes for it.
  abbrev pub IsFixed : Fields (List Text) → Text → Type 0
  IsFixed d id =
      (s : List Text)
      → own d id ≡ some s
      → same id start ≡ false
      → Within s (next_set start ids edges d id)

  abbrev Renewed : Fields (List Text) → (Text → Type 0) → Fields (List Text) × Bool → Type 0
  Renewed d Among r =
      Shrinks r.0
      × (((r.1 ≡ true) × (total r.0 < total d))
          ⊎ ((r.1 ≡ false) × (r.0 ≡ d) × ((id : Text) → Among id → IsFixed d id)))

  renew-Renewed :
      (d : Fields (List Text)) (id : Text)
      → Shrinks d
      → Renewed d (λ j. id ≡ j) (renew start ids edges d id)
  unfolding renew
  renew-Renewed d id inv = by_start (same id start) refl (own d id) refl
    where
      fixed : IsFixed d id → (j : Text) → id ≡ j → IsFixed d j
      fixed f j e = subst (IsFixed d) e f

      by_start :
          (b : Bool)
          → same id start ≡ b
          → (o : Option (List Text)) → own d id ≡ o
          → Renewed d (λ j. id ≡ j) (if b then (d, false) else renew_from start ids edges o d id)
      by_start true e o q = (inv, inr (refl, refl, fixed (λ s h ns. cc)))
      by_start false e none q = (inv, inr (refl, refl, fixed (λ s h ns. cc)))
      by_start false e (some old) q = by_change (
          is_changed-cases old newer (next_set-IsDistinct start ids distinct edges d id)
            (inv.above id old e q))
        where
          newer : List Text
          newer = next_set start ids edges d id

          by_change :
              ((is_changed start ids edges old newer ≡ true) × (length newer < length old))
                ⊎ ((is_changed start ids edges old newer ≡ false) × Within old newer)
              → Renewed d
                  (λ j. id ≡ j)
                  (if is_changed start ids edges old newer
                    then (put d id newer, true)
                    else (d, false))
          by_change (inl (c, less)) =
              subst
                (λ b. Renewed d (λ j. id ≡ j) (if b then (put d id newer, true) else (d, false)))
                (sym c)
                (
                  put-IsShrinking start ids distinct edges d id old inv q e,
                  inl (refl, omega (arith, less, total-put d id old newer q)),
                )
          by_change (inr (c, back)) =
              subst
                (λ b. Renewed d (λ j. id ≡ j) (if b then (put d id newer, true) else (d, false)))
                (sym c)
                (
                  inv,
                  inr (
                    refl,
                    refl,
                    fixed (λ s h ns. subst (λ l. Within l newer) (some_injective (sym q ∙ h)) back),
                  ),
                )

  renew_all-Renewed :
      (d : Fields (List Text)) (list : List Text)
      → Shrinks d
      → Renewed d (λ j. includes list j ≡ true) (renew_all start ids edges d list)
  unfolding renew_all includes
  renew_all-Renewed d [] inv = (inv, inr (refl, refl, λ j i. cc))
  renew_all-Renewed d (id ∷ rest) inv =
      let (inv_first, first) = renew-Renewed d id inv in
      let (inv_rest, others) = renew_all-Renewed (renew start ids edges d id).0 rest inv_first in
      (inv_rest, both first others)
    where
      first_of : Fields (List Text) × Bool
      first_of = renew start ids edges d id

      others_of : Fields (List Text) × Bool
      others_of = renew_all start ids edges first_of.0 rest

      both :
          ((first_of.1 ≡ true) × (total first_of.0 < total d))
            ⊎ ((first_of.1 ≡ false) × (first_of.0 ≡ d) × ((j : Text) → id ≡ j → IsFixed d j))
          → ((others_of.1 ≡ true) × (total others_of.0 < total first_of.0))
            ⊎ ((others_of.1 ≡ false)
                × (others_of.0 ≡ first_of.0)
                × ((j : Text) → includes rest j ≡ true → IsFixed first_of.0 j))
          → (((first_of.1 || others_of.1) ≡ true) × (total others_of.0 < total d))
            ⊎ (((first_of.1 || others_of.1) ≡ false)
                × (others_of.0 ≡ d)
                × ((j : Text) → includes (id ∷ rest) j ≡ true → IsFixed d j))
      both (inl (c, l)) (inl (c', l')) = inl (ap (λ b. b || others_of.1) c, omega (arith, l, l'))
      both (inl (c, l)) (inr (c', e', f')) =
          inl (ap (λ b. b || others_of.1) c, omega (arith, l, ap total e'))
      both (inr (c, e, f)) (inl (c', l')) =
          inl (ap (λ b. b || others_of.1) c ∙ c', omega (arith, l', ap total e))
      both (inr (c, e, f)) (inr (c', e', f')) = inr (
        ap (λ b. b || others_of.1) c ∙ c',
        e' ∙ e,
        λ j i. elim (includes-cases id rest j i) [
          | inl q ↦ f j q
          | inr k ↦ subst (λ x. IsFixed x j) e (f' j k)
        ],
      )

  -- Enough fuel settles the sets.
  settle_dominators-IsFixed :
      (n : ℕ) (d : Fields (List Text))
      → Shrinks d
      → total d < n
      → (e : Fields (List Text)) × (settle_dominators start ids edges n d ≡ some e)
        × Shrinks e
        × ((id : Text) → includes ids id ≡ true → IsFixed e id)
  unfolding settle_dominators
  settle_dominators-IsFixed zero d inv h = absurd (omega arith)
  settle_dominators-IsFixed (suc n) d inv h =
      let (inv', round) = renew_all-Renewed d ids inv in
      by_round round (λ less. settle_dominators-IsFixed n next inv' (omega (arith, h, less)))
    where
      next : Fields (List Text)
      next = (renew_all start ids edges d ids).0

      Settles : Option (Fields (List Text)) → Type 0
      Settles o =
          (e : Fields (List Text)) × (o ≡ some e)
          × Shrinks e
          × ((id : Text) → includes ids id ≡ true → IsFixed e id)

      end_of : Bool → Option (Fields (List Text))
      end_of b = elim b [ true ↦ settle_dominators start ids edges n next | false ↦ some next ]

      by_round :
          (((renew_all start ids edges d ids).1 ≡ true) × (total next < total d))
            ⊎ (((renew_all start ids edges d ids).1 ≡ false)
                × (next ≡ d)
                × ((id : Text) → includes ids id ≡ true → IsFixed d id))
          → (total next < total d → Settles (settle_dominators start ids edges n next))
          → Settles (end_of (renew_all start ids edges d ids).1)
      by_round (inl (c, l)) later = subst (λ b. Settles (end_of b)) (sym c) (later l)
      by_round (inr (c, e, f)) later =
          subst (λ b. Settles (end_of b)) (sym c) (d, ap some e, inv, f)

  own-initial_from :
      (list : List Text) (id : Text)
      → own (initial_from start ids edges list) id
        ≡ (if includes list id then some (if same id start then id ∷ [] else ids) else none)
  unfolding own initial_from includes
  own-initial_from [] id = refl
  own-initial_from (j ∷ rest) id = elim (Bool-cases (same j id)) [
    | inl e ↦
        ground (arith, e, ap (λ v. if same v start then v ∷ [] else ids) ((same_iff j id).0 e))
    | inr e ↦ ground (arith, e, own-initial_from rest id)
  ]

  initial-cases :
      (id : Text) (s : List Text)
      → own (initial_from start ids edges ids) id ≡ some s
      → (includes ids id ≡ true) × (s ≡ (if same id start then id ∷ [] else ids))
  initial-cases id s h = pick (includes ids id) (sym (own-initial_from ids id) ∙ h)
    where
      pick :
          (b : Bool)
          → (if b then some (if same id start then id ∷ [] else ids) else none) ≡ some s
          → (b ≡ true) × (s ≡ (if same id start then id ∷ [] else ids))
      pick true q = (refl, sym (some_injective q))
      pick false q = cc

  initial-IsShrinking : Shrinks (initial_from start ids edges ids)
  unfolding includes same next_set
  initial-IsShrinking = record {
    has_id = λ id. ap is_some (own-initial_from ids id) ∙ is_some_if _ (includes ids id);
    at_start = λ s h.
        (initial-cases start s h).1 ∙ ap (λ b. if b then start ∷ [] else ids) (same_refl start);
    each_distinct =
        λ id s h. subst IsDistinct (sym (initial-cases id s h).1) (each (same id start) id);
    above = λ id s ns h c i.
        let (inside, q) = initial-cases id s h in
        subst (λ l. includes l c ≡ true) (sym (q ∙ ap (λ b. if b then id ∷ [] else ids) ns))
          (elim (includes-cases id (shared start_sets (incoming edges id) id ids) c i) [
            | inl e ↦ subst (λ v. includes ids v ≡ true) e inside
            | inr k ↦ ground (arith, k, shared_iff start_sets (incoming edges id) id ids c)
          ]);
  }
    where
      start_sets : Fields (List Text)
      start_sets = initial_from start ids edges ids

      is_some_if : {A : Type 0} (x : A) (b : Bool) → is_some (if b then some x else none) ≡ b
      is_some_if x true = refl
      is_some_if x false = refl

      each : (b : Bool) (id : Text) → IsDistinct (if b then id ∷ [] else ids)
      each true id = (refl, tt)
      each false id = distinct

  -- The loop ends.
  pub compute_dominators-IsFixed :
      (e : Fields (List Text)) × (compute_dominators start ids edges ≡ some e)
      × Shrinks e
      × ((id : Text) → includes ids id ≡ true → IsFixed e id)
  unfolding compute_dominators
  compute_dominators-IsFixed =
      settle_dominators-IsFixed (suc (total (initial_from start ids edges ids)))
        (initial_from start ids edges ids) initial-IsShrinking (omega arith)
