-- ===== src/Concurrent/Order.antt =====
-- What a search keeps while it is open: each started item is in flight or has its slot written, and
-- the slots before the head are lost.
use mathlib.Core.Path.{subst}
use sozai.Common.{
  ℕ, ◌-◌, ◌≤◌, ◌<◌, ◌≡◌, ◌≢◌, ap, sym, ◌∙◌, ◌⊎◌, inl, inr, true, false, some, List, ◌++◌, ◌==◌,
  arith, Bool-cases,
}
use sozai.Common.Lists.{length, get_elem?}
use sozai.Concurrent.{Slot, pending, hit, Search, set_at, delete, has, is_pending, start}
use sozai.Concurrent.Slots.{
  length-set_at, set_at_there, set_at_elsewhere, IsDistinct, has-delete, has-delete_same,
  has-delete_other, delete-IsDistinct, length-delete, AllLost, set_at_lost,
}

module _ {V E : Type 0} where
  pub record IsOpen (n : ℕ) (s : Search V E) : Type 0 where
    pub size : length s.slots ≡ n
    pub bound_fits : s.bound ≤ n
    pub bounded : (s.bound ≡ n) ⊎ ((v : V) × (get_elem? s.slots s.bound ≡ some (hit v)))
    pub running :
        (i : ℕ) → has s.controllers i ≡ true → (i < s.next) × (get_elem? s.slots i ≡ some pending)
    pub started :
        (i : ℕ) → i < s.next → get_elem? s.slots i ≡ some pending → has s.controllers i ≡ true
    pub unstarted : (i : ℕ) → s.next ≤ i → i < n → get_elem? s.slots i ≡ some pending
    pub distinct : IsDistinct s.controllers
    pub counted : s.inflight ≡ length s.controllers
    pub before : List (Slot V E)
    pub rest : List (Slot V E)
    pub split : s.slots ≡ before ++ rest
    pub at_head : s.head ≡ length before
    pub lost : AllLost before

  -- A call in flight settles.
  pub written :
      (n index : ℕ) (slot : Slot V E) (s : Search V E)
      → IsOpen n s
      → has s.controllers index ≡ true
      → is_pending slot ≡ false
      → IsOpen n (record s {
        inflight = s.inflight - 1;
        controllers = delete s.controllers index;
        slots = set_at s.slots index slot;
      })
  written n index slot s o h p =
      let (below, was) = o.running index h in
      let (rest', e) =
        set_at_lost o.before o.rest index slot o.lost
          (subst (λ l. get_elem? l index ≡ some pending) o.split was) in
      let other : (i : ℕ)
          → index ≢ i
          → get_elem? (set_at s.slots index slot) i ≡ get_elem? s.slots i =
        λ i d. set_at_elsewhere s.slots index i slot d in
      let clash : (v : V) → get_elem? s.slots index ≡ some (hit v) → ⊥ = λ v q. ground arith in
      let gone : (i : ℕ) → index ≡ i → has (delete s.controllers index) i ≡ true → ⊥ =
        λ i same k. ground (arith, has-delete_same s.controllers index o.distinct) in
      let kept : (i : ℕ)
          → i < s.next
          → get_elem? (set_at s.slots index slot) i ≡ some pending
          → has (delete s.controllers index) i ≡ true =
        λ i b q. elim (Bool-cases (index == i)) [
          | inl e ↦ ground (arith, set_at_there s.slots index pending slot was)
          | inr e ↦
              has-delete_other s.controllers index i (ground arith)
                (o.started i b (sym (other i (ground arith)) ∙ q))
        ] in
      record {
        size = length-set_at s.slots index slot ∙ o.size;
        bound_fits = o.bound_fits;
        bounded = elim o.bounded [
          | inl q ↦ inl q
          | inr (v, q) ↦ inr (
            v,
            other s.bound
                  (λ same. clash v (subst (λ i. get_elem? s.slots i ≡ some (hit v)) (sym same) q))
                ∙ q,
          )
        ];
        running = λ i k. (
          (o.running i (has-delete s.controllers index i k)).0,
          other i (λ same. gone i same k) ∙ (o.running i (has-delete s.controllers index i k)).1,
        );
        started = λ i b q. kept i b q;
        unstarted = λ i b q. other i (λ same. omega arith) ∙ o.unstarted i b q;
        distinct = delete-IsDistinct s.controllers index o.distinct;
        counted = omega (arith, o.counted, length-delete s.controllers index h);
        before = o.before;
        rest = rest';
        split = ap (λ l. set_at l index slot) o.split ∙ e;
        at_head = o.at_head;
        lost = o.lost;
      }

  pub begins_next : (n : ℕ) (s : Search V E) → IsOpen n s → s.next < s.bound → IsOpen n (start s)
  begins_next n s o few = record {
    size = o.size;
    bound_fits = o.bound_fits;
    bounded = o.bounded;
    running = λ i k. elim (Bool-cases (s.next == i)) [
      | inl e ↦ (
        ground arith,
        ground (arith, o.unstarted s.next (omega arith) (omega (arith, o.bound_fits))),
      )
      | inr e ↦ (omega (arith, (o.running i (ground arith)).0), (o.running i (ground arith)).1)
    ];
    started = λ i b q. elim (Bool-cases (s.next == i)) [
      | inl e ↦ ground arith
      | inr e ↦ ground (arith, o.started i (ground arith) q)
    ];
    unstarted = λ i b q. o.unstarted i (omega arith) q;
    distinct = (
      elim (Bool-cases (has s.controllers s.next)) [
        | inl e ↦ ground (arith, (o.running s.next e).0)
        | inr e ↦ e
      ],
      o.distinct,
    );
    counted = omega (arith, o.counted);
    before = o.before;
    rest = o.rest;
    split = o.split;
    at_head = o.at_head;
    lost = o.lost;
  }
