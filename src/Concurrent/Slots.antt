-- ===== src/Concurrent/Slots.antt =====
-- The lists of a search: the slots of its items and the indices of its calls in flight.
use sozai.Common.{
  ℕ, zero, suc, ◌+◌, ◌≤◌, ◌<◌, ◌≡◌, ◌≢◌, refl, ap, ◌∙◌, inl, inr, Bool, true, false, Option, none,
  some, List, [], ◌∷◌, ◌++◌, ◌==◌, if◌then◌else◌, arith, Bool-cases,
}
use sozai.Common.Lists.{length, drop, get_elem?}
use sozai.Concurrent.{
  Slot, pending, miss, hit, error, Outcome, resolved, set_at, delete, has, Scan, waits, runs_out,
  wins, scan, exhausted,
}

module _ {ℓ} {A : Type ℓ} where
  pub length-set_at : (xs : List A) (i : ℕ) (y : A) → length (set_at xs i y) ≡ length xs
  unfolding set_at
  length-set_at [] i y = refl
  length-set_at (x ∷ xs) zero y = refl
  length-set_at (x ∷ xs) (suc i) y = ap (λ n. suc n) (length-set_at xs i y)

  pub set_at_there :
      (xs : List A) (i : ℕ) (x y : A)
      → get_elem? xs i ≡ some x
      → get_elem? (set_at xs i y) i ≡ some y
  unfolding set_at
  set_at_there [] i x y h = cc
  set_at_there (z ∷ xs) zero x y h = refl
  set_at_there (z ∷ xs) (suc i) x y h = set_at_there xs i x y h

  pub set_at_elsewhere :
      (xs : List A) (i j : ℕ) (y : A) → i ≢ j → get_elem? (set_at xs i y) j ≡ get_elem? xs j
  unfolding set_at
  set_at_elsewhere [] i j y d = refl
  set_at_elsewhere (z ∷ xs) zero zero y d = ground arith
  set_at_elsewhere (z ∷ xs) zero (suc j) y d = refl
  set_at_elsewhere (z ∷ xs) (suc i) zero y d = refl
  set_at_elsewhere (z ∷ xs) (suc i) (suc j) y d =
      set_at_elsewhere xs i j y (λ e. d (ap (λ n. suc n) e))

  pub drop-append : (xs ys : List A) → drop (length xs) (xs ++ ys) ≡ ys
  drop-append [] ys = refl
  drop-append (x ∷ xs) ys = drop-append xs ys

  pub get_below : (xs : List A) (i : ℕ) (x : A) → get_elem? xs i ≡ some x → i < length xs
  get_below [] i x h = cc
  get_below (y ∷ xs) zero x h = omega arith
  get_below (y ∷ xs) (suc i) x h = omega (arith, get_below xs i x h)

-- No index is there twice.
abbrev pub IsDistinct : List ℕ → Type 0
IsDistinct [] = Unit
IsDistinct (j ∷ js) = (has js j ≡ false) × IsDistinct js

pub has-delete : (js : List ℕ) (i j : ℕ) → has (delete js i) j ≡ true → has js j ≡ true
unfolding delete
has-delete [] i j h = h
has-delete (k ∷ js) i j h = ground (arith, has-delete js i j)

pub has-delete_same : (js : List ℕ) (i : ℕ) → IsDistinct js → has (delete js i) i ≡ false
unfolding delete
has-delete_same [] i d = refl
has-delete_same (k ∷ js) i d = ground (arith, has-delete_same js i d.1)

pub has-delete_other :
    (js : List ℕ) (i j : ℕ) → i ≢ j → has js j ≡ true → has (delete js i) j ≡ true
unfolding delete
has-delete_other [] i j d h = h
has-delete_other (k ∷ js) i j d h = ground (arith, has-delete_other js i j d)

pub delete-IsDistinct : (js : List ℕ) (i : ℕ) → IsDistinct js → IsDistinct (delete js i)
unfolding delete
delete-IsDistinct [] i d = tt
delete-IsDistinct (k ∷ js) i d = go (delete-IsDistinct js i d.1) (k == i) refl
  where
    still : has (delete js i) k ≡ false
    still = elim (Bool-cases (has (delete js i) k)) [
      | inl e ↦ ground (arith, has-delete js i k e, d.0)
      | inr e ↦ e
    ]

    go :
        IsDistinct (delete js i)
        → (b : Bool) → (k == i) ≡ b
        → IsDistinct (if b then js else k ∷ delete js i)
    go rest true e = d.1
    go rest false e = (still, rest)

pub length-delete : (js : List ℕ) (i : ℕ) → has js i ≡ true → length (delete js i) + 1 ≡ length js
unfolding delete
length-delete [] i h = cc
length-delete (k ∷ js) i h = ground (arith, length-delete js i)

module _ {V E : Type 0} where
  -- The call came to nothing.
  abbrev pub is_lost : Slot V E → Bool
  is_lost miss = true
  is_lost (error e) = true
  is_lost pending = false
  is_lost (hit v) = false

  abbrev pub AllLost : List (Slot V E) → Type 0
  AllLost [] = Unit
  AllLost (x ∷ slots) = (is_lost x ≡ true) × AllLost slots

  pub AllLost-append : (xs ys : List (Slot V E)) → AllLost xs → AllLost ys → AllLost (xs ++ ys)
  AllLost-append [] ys l k = k
  AllLost-append (x ∷ xs) ys l k = (l.0, AllLost-append xs ys l.1 k)

  -- What asking the items one after the other would come to: the slots in their order.
  abbrev pub verdict : List (Slot V E) → Scan V
  verdict [] = runs_out
  verdict (pending ∷ slots) = waits
  verdict (hit v ∷ slots) = wins v
  verdict (miss ∷ slots) = verdict slots
  verdict (error e ∷ slots) = verdict slots

  abbrev pub outcome_of : List (Slot V E) → Scan V → Option (Outcome V E)
  outcome_of slots waits = none
  outcome_of slots (wins v) = some (resolved (some v))
  outcome_of slots runs_out = some (exhausted slots)

  abbrev pub sequential : List (Slot V E) → Option (Outcome V E)
  sequential slots = outcome_of slots (verdict slots)

  pub verdict-append :
      (before rest : List (Slot V E)) → AllLost before → verdict (before ++ rest) ≡ verdict rest
  verdict-append [] rest l = refl
  verdict-append (pending ∷ before) rest l = cc
  verdict-append (hit v ∷ before) rest l = cc
  verdict-append (miss ∷ before) rest l = verdict-append before rest l.1
  verdict-append (error e ∷ before) rest l = verdict-append before rest l.1

  -- Writing at a pending slot leaves the lost ones before it.
  pub set_at_lost :
      (before rest : List (Slot V E)) (i : ℕ) (x : Slot V E)
      → AllLost before
      → get_elem? (before ++ rest) i ≡ some pending
      → (rest' : List (Slot V E)) × (set_at (before ++ rest) i x ≡ before ++ rest')
  unfolding set_at
  set_at_lost [] rest i x l h = (set_at rest i x, refl)
  set_at_lost (y ∷ before) rest zero x l h = ground arith
  set_at_lost (y ∷ before) rest (suc i) x l h =
      let (rest', e) = set_at_lost before rest i x l.1 h in (rest', ap (λ zs. y ∷ zs) e)

  -- A scan passes lost slots and ends as the verdict on the rest does.
  pub scan_lem :
      (rest : List (Slot V E)) (h : ℕ)
      → (lost rest' : List (Slot V E)) × (rest ≡ lost ++ rest')
        × AllLost lost
        × (scan rest h ≡ (h + length lost, verdict rest))
  unfolding scan
  scan_lem [] h = ([], [], refl, tt, ap (λ n. (n, runs_out)) (omega arith))
  scan_lem (pending ∷ rest) h = ([], pending ∷ rest, refl, tt, ap (λ n. (n, waits)) (omega arith))
  scan_lem (hit v ∷ rest) h = ([], hit v ∷ rest, refl, tt, ap (λ n. (n, wins v)) (omega arith))
  scan_lem (miss ∷ rest) h =
      let (lost, rest', e, l, s) = scan_lem rest (h + 1) in
      (
        miss ∷ lost,
        rest',
        ap (λ zs. miss ∷ zs) e,
        (refl, l),
        s ∙ ap (λ n. (n, verdict rest)) (omega arith),
      )
  scan_lem (error x ∷ rest) h =
      let (lost, rest', e, l, s) = scan_lem rest (h + 1) in
      (
        error x ∷ lost,
        rest',
        ap (λ zs. error x ∷ zs) e,
        (refl, l),
        s ∙ ap (λ n. (n, verdict rest)) (omega arith),
      )

  -- Lost slots are neither pending nor hits.
  pub lost_at :
      (before rest : List (Slot V E)) (i : ℕ) (x : Slot V E)
      → AllLost before
      → get_elem? (before ++ rest) i ≡ some x
      → is_lost x ≡ false
      → length before ≤ i
  lost_at [] rest i x l h n = omega arith
  lost_at (y ∷ before) rest zero x l h n = ground arith
  lost_at (y ∷ before) rest (suc i) x l h n = omega (arith, lost_at before rest i x l.1 h n)

  -- Where the verdict is to wait, it waits at the first slot that is not lost.
  pub waits_at :
      (before rest : List (Slot V E))
      → AllLost before
      → verdict rest ≡ waits
      → (lost rest' : List (Slot V E)) × (rest ≡ lost ++ pending ∷ rest') × AllLost lost
  waits_at before [] l h = ground arith
  waits_at before (pending ∷ rest) l h = ([], rest, refl, tt)
  waits_at before (hit v ∷ rest) l h = ground arith
  waits_at before (miss ∷ rest) l h =
      let (lost, rest', e, k) = waits_at before rest l h in
      (miss ∷ lost, rest', ap (λ zs. miss ∷ zs) e, (refl, k))
  waits_at before (error x ∷ rest) l h =
      let (lost, rest', e, k) = waits_at before rest l h in
      (error x ∷ lost, rest', ap (λ zs. error x ∷ zs) e, (refl, k))
