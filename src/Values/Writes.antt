-- ===== src/Values/Writes.antt =====
-- What a write below the state changes in what paths read, in value.ts (packages/flow-graph/src).
use sozai.Common.{
  ◌≡◌, refl, sym, ap, ◌∙◌, Bool, true, false, ◌&&◌, Option, none, some, [], ◌∷◌, ◌++◌, arith,
  if◌then◌else◌,
}
use sozai.Common.Text.{Text, txt, same, same_iff, same_refl}
use sozai.Common.Json.{Json, null, bool, num, str, arr, obj, Members, end, member}
use sozai.Common.Result.{Result, ok, err, ok-injective}
use sozai.Values.{
  Segments, is_safe, own_member, own_value, follow, Scope, own_root, read_path, put_member,
  object_at, write_at, write_state,
}

own_member-put_member :
    (m : Members) (k j : Text) (v : Json)
    → own_member (put_member m k v) j ≡ (if same k j then some v else own_member m j)
unfolding own_member put_member
own_member-put_member end k j v = refl
own_member-put_member (member i w m) k j v =
    ground (arith, own_member-put_member m k j v, same_iff i k, same_iff i j, same_iff k j)

own_member-put_same : (m : Members) (k : Text) (v : Json) → own_member (put_member m k v) k ≡ some v
own_member-put_same m k v =
    own_member-put_member m k k v ∙ ap (λ b. if b then some v else own_member m k) (same_refl k)

-- What is written at a path reads back.
follow-write_at :
    (m : Members) (part : Text) (rest : Segments) (v : Json)
    → follow (own_member (write_at m part rest v) part) rest ≡ v
unfolding write_at follow own_value
follow-write_at m part [] v = ap (λ o. follow o []) (own_member-put_same m part v)
follow-write_at m part (next ∷ rest) v =
    let below = write_at (object_at (own_member m part)) next rest v in
    ap (λ o. follow o (next ∷ rest)) (own_member-put_same m part (obj below))
    ∙ follow-write_at (object_at (own_member m part)) next rest v

-- No array stands on the way.
unfoldable pub NoArray : Option Json → Segments → Type 0
NoArray (some (arr items)) path = ⊥
NoArray (some (obj m)) [] = Unit
NoArray (some (obj m)) (part ∷ rest) = NoArray (own_member m part) rest
NoArray _ path = Unit

follow-object_at :
    (o : Option Json) (part : Text) (rest : Segments)
    → NoArray o []
    → follow (some (obj (object_at o))) (part ∷ rest) ≡ follow o (part ∷ rest)
unfolding follow own_value own_member NoArray
follow-object_at none part rest h = refl
follow-object_at (some null) part rest h = refl
follow-object_at (some (bool b)) part rest h = refl
follow-object_at (some (num n)) part rest h = refl
follow-object_at (some (str s)) part rest h = refl
follow-object_at (some (arr items)) part rest h = absurd h
follow-object_at (some (obj m)) part rest h = refl

NoArray-nothing : (path : Segments) → NoArray (own_member end (txt "")) path
unfolding NoArray own_member
NoArray-nothing [] = tt
NoArray-nothing (part ∷ rest) = tt

-- No array stands at the first part, nor below it.
NoArray-below :
    (o : Option Json) (part : Text) (rest : Segments)
    → NoArray o (part ∷ rest)
    → NoArray o [] × NoArray (own_member (object_at o) part) rest
unfolding NoArray own_member
NoArray-below none part [] h = (tt, tt)
NoArray-below none part (p ∷ r) h = (tt, tt)
NoArray-below (some null) part rest h = (tt, NoArray-nothing rest)
NoArray-below (some (bool b)) part rest h = (tt, NoArray-nothing rest)
NoArray-below (some (num n)) part rest h = (tt, NoArray-nothing rest)
NoArray-below (some (str s)) part rest h = (tt, NoArray-nothing rest)
NoArray-below (some (arr items)) part rest h = absurd h
NoArray-below (some (obj m)) part rest h = (tt, h)

own_member-write_at :
    (m : Members) (a b : Text) (r : Segments) (v : Json)
    → same a b ≡ false
    → own_member (write_at m a r v) b ≡ own_member m b
unfolding write_at
own_member-write_at m a b [] v e =
    own_member-put_member m a b v ∙ ap (λ t. if t then some v else own_member m b) e
own_member-write_at m a b (next ∷ r) v e =
    let below = obj (write_at (object_at (own_member m a)) next r v) in
    own_member-put_member m a b below ∙ ap (λ t. if t then some below else own_member m b) e

-- A path that leaves the written one reads what it read before.
follow-write_apart :
    (m : Members) (k : Text) (p : Segments) (a b : Text) (r q : Segments) (v : Json)
    → same a b ≡ false
    → NoArray (own_member m k) p
    → follow (own_member (write_at m k (p ++ (a ∷ r)) v) k) (p ++ (b ∷ q))
      ≡ follow (own_member m k) (p ++ (b ∷ q))
unfolding write_at follow own_value
follow-write_apart m k [] a b r q v e h =
    let at = object_at (own_member m k) in
    ap (λ o. follow o (b ∷ q)) (own_member-put_same m k (obj (write_at at a r v)))
    ∙ ap (λ o. follow o q) (own_member-write_at at a b r v e)
    ∙ follow-object_at (own_member m k) b q h
follow-write_apart m k (j ∷ p) a b r q v e h =
    let at = object_at (own_member m k) in
    let (first, below) = NoArray-below (own_member m k) j p h in
    ap (λ o. follow o (j ∷ (p ++ (b ∷ q))))
      (own_member-put_same m k (obj (write_at at j (p ++ (a ∷ r)) v)))
    ∙ follow-write_apart at j p a b r q v e below
    ∙ follow-object_at (own_member m k) j (p ++ (b ∷ q)) first

and_true : (a b : Bool) → (a && b) ≡ true → (a ≡ true) × (b ≡ true)
and_true true b h = (refl, h)
and_true false b h = cc

-- A write that is accepted.
if_ok :
    {A B : Type 0} (b : Bool) (x : A) (e : B) {y : A}
    → ◌≡◌ {A = Result B A} (if b then ok x else err e) (ok y)
    → (b ≡ true) × (x ≡ y)
if_ok true x e h = (refl, ok-injective h)
if_ok false x e h = cc

-- The scope after a write to its state.
abbrev pub with_state : Members → Scope → Scope
with_state state scope = record scope { state = state }

-- A value that `writeState` writes at a path is what `readPath` then reads there.
pub read_path-write_state :
    (scope : Scope) (path : Segments) (v : Json) {state : Members}
    → write_state scope.state path v ≡ ok state
    → read_path path (with_state state scope) ≡ v
unfolding write_state read_path own_root same follow own_value NoArray
read_path-write_state scope [] v h = cc
read_path-write_state scope (root ∷ []) v h = cc
read_path-write_state scope (root ∷ part ∷ rest) v {state} h =
    let (test, e) = if_ok (same root (txt "state") && is_safe (root ∷ part ∷ rest)) _ _ h in
    let (is_root, safe) = and_true (same root (txt "state")) (is_safe (root ∷ part ∷ rest)) test in
    let after = with_state state scope in
    ap (λ t. if t then follow (own_root after root) (part ∷ rest) else null) safe
    ∙ ap (λ name. follow (own_root after name) (part ∷ rest))
        ((same_iff root (txt "state")).0 is_root)
    ∙ ap (λ m. follow (own_member m part) rest) (sym e)
    ∙ follow-write_at scope.state part rest v

-- A write leaves what a path reads that leaves the written one, where the path that they share
-- meets no array in the state.
pub read_path-write_apart :
    (scope : Scope) (p : Segments) (a b : Text) (r q : Segments) (v : Json) {state : Members}
    → write_state scope.state (txt "state" ∷ (p ++ (a ∷ r))) v ≡ ok state
    → same a b ≡ false
    → NoArray (some (obj scope.state)) p
    → read_path (txt "state" ∷ (p ++ (b ∷ q))) (with_state state scope)
      ≡ read_path (txt "state" ∷ (p ++ (b ∷ q))) scope
unfolding write_state read_path own_root same follow own_value NoArray
read_path-write_apart scope [] a b r q v {state} h e n =
    let (test, w) = if_ok _ _ _ h in
    ap (λ o. if is_safe (b ∷ q) then follow o q else null)
      (ap (λ m. own_member m b) (sym w) ∙ own_member-write_at scope.state a b r v e)
read_path-write_apart scope (k ∷ p) a b r q v {state} h e n =
    let (test, w) = if_ok _ _ _ h in
    let path = p ++ (b ∷ q) in
    ap (λ value. if is_safe (k ∷ path) then value else null)
      (ap (λ m. follow (own_member m k) path) (sym w)
        ∙ follow-write_apart scope.state k p a b r q v e n)
