-- ===== src/Checker/Shrinking.antt =====
-- The sets of `computeDominators` (packages/flow-graph/src/checker.ts) only ever lose members.
use mathlib.Core.Path.{subst}
use sozai.Common.{
  ◌+◌, ◌≡◌, refl, sym, ap, ◌∙◌, Bool, true, false, not, ◌&&◌, ◌||◌, some, List, [], ◌∷◌, ◌⊎◌, inl,
  inr, arith, if◌then◌else◌, Bool-cases, is_some, some_injective,
}
use sozai.Common.Lists.{length}
use sozai.Common.Text.{Text, same, same_iff, same_refl, includes}
use sozai.Common.Sets.{Within, IsDistinct, includes_first, includes_later, includes-cases}
use sozai.Common.Fields.{Fields, own, put, own-put}
use sozai.Checker.Dominators.{
  incoming, has_from, has_dominator, every_has, is_empty, shared, some_missing, next_set, total,
}

-- A member of the one is a member of the other.
abbrev IsBelow : Fields (List Text) → Fields (List Text) → Type 0
IsBelow d e = (id c : Text) → has_dominator d id c ≡ true → has_dominator e id c ≡ true

every_has-IsBelow :
    (d e : Fields (List Text)) (before : List Text) (c : Text)
    → IsBelow d e
    → every_has d before c ≡ true
    → every_has e before c ≡ true
unfolding every_has
every_has-IsBelow d e [] c b h = refl
every_has-IsBelow d e (p ∷ rest) c b h = ground (arith, h, b p c, every_has-IsBelow d e rest c b)

-- Whether a filter keeps `c`, by what it does at `x` and after it.
kept :
    (keep same_id later rest test : Bool)
    → (same_id ≡ true → keep ≡ test)
    → later ≡ (rest && test)
    → (if keep then (if same_id then true else later) else later)
      ≡ ((if same_id then true else rest) && test)
kept keep same_id later rest test h k = ground arith

includes_if :
    (b : Bool) (x : Text) (r : List Text) (c : Text)
    → includes (if b then x ∷ r else r) c
      ≡ (if b then (if same x c then true else includes r c) else includes r c)
unfolding includes
includes_if true x r c = refl
includes_if false x r c = refl

-- Another id, which dominates every predecessor.
abbrev is_shared : Fields (List Text) → List Text → Text → Text → Bool
is_shared d before id c = not (same c id) && (not (is_empty before) && every_has d before c)

-- A shared dominator is one of the ids, another one, and dominates every predecessor.
pub shared_iff :
    (d : Fields (List Text)) (before : List Text) (id : Text) (ids : List Text) (c : Text)
    → includes (shared d before id ids) c
      ≡ (includes ids c && (not (same c id) && (not (is_empty before) && every_has d before c)))
unfolding shared includes
shared_iff d before id [] c = refl
shared_iff d before id (x ∷ rest) c =
    includes_if (is_shared d before id x) x (shared d before id rest) c
    ∙ kept (is_shared d before id x) (same x c) (includes (shared d before id rest) c)
        (includes rest c) (is_shared d before id c)
        (λ e. ap (is_shared d before id) ((same_iff x c).0 e)) (shared_iff d before id rest c)

shared-IsDistinct :
    (d : Fields (List Text)) (before : List Text) (id : Text) (ids : List Text)
    → IsDistinct ids
    → IsDistinct (shared d before id ids)
unfolding shared
shared-IsDistinct d before id [] h = tt
shared-IsDistinct d before id (x ∷ rest) (out, h) =
    pick (is_shared d before id x)
      (shared_iff d before id rest x ∙ ap (λ b. b && is_shared d before id x) out)
      (shared-IsDistinct d before id rest h)
  where
    pick :
        (b : Bool)
        → includes (shared d before id rest) x ≡ false
        → IsDistinct (shared d before id rest)
        → IsDistinct (if b then x ∷ shared d before id rest else shared d before id rest)
    pick true p q = (p, q)
    pick false p q = q

no_self : (a s t : Bool) → s ≡ true → (a && (not s && t)) ≡ false
no_self a s t h = ground arith

own-put_cases :
    (d : Fields (List Text)) (id : Text) (newer : List Text) (j : Text)
    → ((id ≡ j) × (own (put d id newer) j ≡ some newer)) ⊎ (own (put d id newer) j ≡ own d j)
own-put_cases d id newer j = elim (Bool-cases (same id j)) [
  | inl e ↦
      inl
        ((same_iff id j).0 e, own-put d id j newer ∙ ap (λ b. if b then some newer else own d j) e)
  | inr e ↦ inr (own-put d id j newer ∙ ap (λ b. if b then some newer else own d j) e)
]

pub total-put :
    (d : Fields (List Text)) (id : Text) (old newer : List Text)
    → own d id ≡ some old
    → total (put d id newer) + length old ≡ total d + length newer
unfolding total put own
total-put [] id old newer e = cc
total-put ((j, s) ∷ rest) id old newer e = pick (same j id) e (total-put rest id old newer)
  where
    pick :
        (b : Bool)
        → (if b then some s else own rest id) ≡ some old
        → (own rest id ≡ some old
            → total (put rest id newer) + length old ≡ total rest + length newer)
        → total (if b then (j, newer) ∷ rest else (j, s) ∷ put rest id newer) + length old
          ≡ length s + total rest + length newer
    pick true h k = omega (arith, ap length (some_injective h))
    pick false h k = omega (arith, k h)

pub none_missing : (old newer : List Text) → Within newer old → some_missing old newer ≡ false
unfolding some_missing
none_missing old [] w = refl
none_missing old (c ∷ rest) w =
    ap (λ b. not b || some_missing old rest) (w c (includes_first c rest))
    ∙ none_missing old rest (λ y h. w y (includes_later c rest y h))

module _ (start : Text) (ids : List Text) (distinct : IsDistinct ids)
    (edges : Fields (List Text)) where
  pub next_set-IsDistinct :
      (d : Fields (List Text)) (id : Text) → IsDistinct (next_set start ids edges d id)
  unfolding next_set
  next_set-IsDistinct d id = (
    shared_iff d (incoming edges id) id ids id
        ∙ no_self (includes ids id) (same id id) _ (same_refl id),
    shared-IsDistinct d (incoming edges id) id ids distinct,
  )

  next_set-IsBelow :
      (d e : Fields (List Text)) (id : Text)
      → IsBelow d e
      → Within (next_set start ids edges d id) (next_set start ids edges e id)
  unfolding next_set
  next_set-IsBelow d e id b c h =
      elim (includes-cases id (shared d (incoming edges id) id ids) c h) [
        | inl q ↦
            subst (λ v. includes (next_set start ids edges e id) v ≡ true) q
              (includes_first id (shared e (incoming edges id) id ids))
        | inr i ↦ includes_later id (shared e (incoming edges id) id ids) c (
            ground (
              arith,
              i,
              shared_iff d (incoming edges id) id ids c,
              shared_iff e (incoming edges id) id ids c,
              every_has-IsBelow d e (incoming edges id) c b,
            ))
      ]

  -- The sets are those of the ids; the start's is its own; the others are distinct, and include
  -- the sets that the loop computes for them.
  pub record IsShrinking (d : Fields (List Text)) : Type 0 where
    pub has_id : (id : Text) → is_some (own d id) ≡ includes ids id
    pub at_start : (s : List Text) → own d start ≡ some s → s ≡ start ∷ []
    pub each_distinct : (id : Text) (s : List Text) → own d id ≡ some s → IsDistinct s
    pub above :
        (id : Text) (s : List Text)
        → same id start ≡ false
        → own d id ≡ some s
        → Within (next_set start ids edges d id) s

  put-IsBelow :
      (d : Fields (List Text)) (id : Text) (old : List Text)
      → IsShrinking d
      → own d id ≡ some old
      → same id start ≡ false
      → IsBelow (put d id (next_set start ids edges d id)) d
  unfolding has_dominator
  put-IsBelow d id old inv e ns j c h =
      elim (own-put_cases d id (next_set start ids edges d id) j) [
        | inr q ↦ subst (λ o. has_from o c ≡ true) q h
        | inl (same_id, q) ↦
            subst (λ v. has_from (own d v) c ≡ true) same_id
              (subst (λ o. has_from o c ≡ true) (sym e)
                (inv.above id old ns e c (subst (λ o. has_from o c ≡ true) q h)))
      ]

  -- The set of an id is replaced by the one that the loop computes.
  pub put-IsShrinking :
      (d : Fields (List Text)) (id : Text) (old : List Text)
      → IsShrinking d
      → own d id ≡ some old
      → same id start ≡ false
      → IsShrinking (put d id (next_set start ids edges d id))
  put-IsShrinking d id old inv e ns = record {
    has_id = λ j. elim (own-put_cases d id newer j) [
      | inr q ↦ ap is_some q ∙ inv.has_id j
      | inl (same_id, q) ↦
          ap is_some q ∙ sym (ap is_some e) ∙ inv.has_id id ∙ ap (includes ids) same_id
    ];
    at_start = λ s h. elim (own-put_cases d id newer start) [
      | inr q ↦ inv.at_start s (sym q ∙ h)
      | inl (same_id, q) ↦ cc ((same_iff id start).1 same_id)
    ];
    each_distinct = λ j s h. elim (own-put_cases d id newer j) [
      | inr q ↦ inv.each_distinct j s (sym q ∙ h)
      | inl (same_id, q) ↦ subst IsDistinct (some_injective (sym q ∙ h)) (next_set-IsDistinct d id)
    ];
    above = λ j s nj h c i.
        let below_d = next_set-IsBelow changed d j (put-IsBelow d id old inv e ns) c i in
        elim (own-put_cases d id newer j) [
          | inr q ↦ inv.above j s nj (sym q ∙ h) c below_d
          | inl (same_id, q) ↦
              subst (λ set. includes set c ≡ true) (some_injective (sym q ∙ h))
                (subst (λ v. includes (next_set start ids edges d v) c ≡ true) (sym same_id)
                  below_d)
        ];
  }
    where
      newer : List Text
      newer = next_set start ids edges d id

      changed : Fields (List Text)
      changed = put d id newer
