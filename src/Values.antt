-- ===== src/Values.antt =====
-- packages/flow-graph/src/value.ts and filter.ts: paths into the scope of a node, the expressions that
-- read it, the writes below its state, and the filters on its values. A JSON value is copied by
-- being what it is, so `structuredClone` leaves no trace.
pub mod Filters
pub mod Writes
pub mod Equality
pub mod Comparisons
mod Tests
use sozai.Common.{
  ℕ, zero, suc, ◌+◌, Bool, true, false, not, ◌&&◌, Option, none, some, List, [], ◌∷◌, if◌then◌else◌,
}
use sozai.Common.Text.{Text, txt, same, includes}
use sozai.Common.Fields.{Fields, own}
use sozai.Common.Decimal.{decimal}
use sozai.Common.Json.{Json, null, num, arr, obj, Items, nil, cons, Members, end, member}
use sozai.Common.Result.{Result, ok, err}

abbrev pub unsafe_path_segments : List Text
unsafe_path_segments = txt "__proto__" ∷ txt "constructor" ∷ txt "prototype" ∷ []

unfoldable pub is_safe_path_segment : Text → Bool
unfolding includes
is_safe_path_segment key = not (includes unsafe_path_segments key)

abbrev pub Segments : Type 0
Segments = List Text

-- Every segment is safe.
unfoldable pub is_safe : Segments → Bool
unfolding is_safe_path_segment
is_safe [] = true
is_safe (part ∷ rest) = is_safe_path_segment part && is_safe rest

-- `Object.hasOwn(o, key) ? o[key] : undefined`, of an object and of an array.
unfoldable pub own_member : Members → Text → Option Json
unfolding same
own_member end key = none
own_member (member k v rest) key =
    let later = own_member rest key in if same k key then some v else later

unfoldable pub count : Items → ℕ
count nil = 0
count (cons v rest) = suc (count rest)

unfoldable pub item_from : ℕ → Items → Text → Option Json
unfolding same decimal
item_from index nil key = none
item_from index (cons v rest) key =
    let later = item_from (index + 1) rest key in if same (decimal index) key then some v else later

unfoldable pub own_item : Items → Text → Option Json
unfolding item_from count
own_item items key =
    if same key (txt "length") then some (num (count items)) else item_from 0 items key

unfoldable pub own_value : Json → Text → Option Json
unfolding own_member own_item
own_value (obj members) key = own_member members key
own_value (arr items) key = own_item items key
own_value _ key = none

-- The loop over the parts of a path, at what has been read so far.
unfoldable pub follow : Option Json → Segments → Json
unfolding own_value
follow none path = null
follow (some value) [] = value
follow (some value) (part ∷ rest) = follow (own_value value part) rest

-- The values that a node's expressions see.
pub record Scope : Type 0 where
  pub input : Json
  pub state : Members
  pub results : Members
  pub loops : Fields ℕ

abbrev pub counts : Fields ℕ → Members
counts [] = end
counts ((id, n) ∷ rest) = member id (num n) (counts rest)

-- `Object.hasOwn(scope, root) ? scope[root] : undefined`
unfoldable pub own_root : Scope → Text → Option Json
unfolding same
own_root scope root =
    if same root (txt "input")
    then some scope.input
    else if same root (txt "state")
    then some (obj scope.state)
    else if same root (txt "results")
    then some (obj scope.results)
    else if same root (txt "loops")
    then some (obj (counts scope.loops))
    else none

unfoldable pub read_path : Segments → Scope → Json
unfolding own_root follow is_safe
read_path [] scope = null
read_path (root ∷ rest) scope =
    if is_safe (root ∷ rest) then follow (own_root scope root) rest else null

-- Expressions.
mutual
  pub data Value : Type 0 where
    ref : Segments → Value
    value : Json → Value
    array : Values → Value
    object_of : Entries → Value

  pub data Values : Type 0 where
    no_values : Values
    values : Value → Values → Values

  pub data Entries : Type 0 where
    no_entries : Entries
    entry : Text → Value → Entries → Entries

unfoldable mutual
  unfolding read_path

  pub resolve_value : Value → Scope → Json
  resolve_value (ref path) scope = read_path path scope
  resolve_value (value v) scope = v
  resolve_value (array vs) scope = arr (resolve_values vs scope)
  resolve_value (object_of es) scope = obj (resolve_entries es scope)

  pub resolve_values : Values → Scope → Items
  resolve_values no_values scope = nil
  resolve_values (values v rest) scope = cons (resolve_value v scope) (resolve_values rest scope)

  pub resolve_entries : Entries → Scope → Members
  resolve_entries no_entries scope = end
  resolve_entries (entry key v rest) scope =
      member key (resolve_value v scope) (resolve_entries rest scope)

-- `target[key] = value`
unfoldable pub put_member : Members → Text → Json → Members
unfolding same
put_member end key v = member key v end
put_member (member k w rest) key v =
    let later = put_member rest key v in if same k key then member k v rest else member k w later

-- The object at a part of the path, or `{}` in place of what is not one.
abbrev pub object_at : Option Json → Members
object_at (some (obj members)) = members
object_at _ = end

-- The loop of `writeState` from a part on, and the assignment to the last one.
unfoldable pub write_at : Members → Text → Segments → Json → Members
unfolding put_member own_member
write_at target part [] v = put_member target part v
write_at target part (next ∷ rest) v =
    put_member target part (obj (write_at (object_at (own_member target part)) next rest v))

-- `writeState` throws one TypeError.
pub data PathError : Type 0 where
  invalid_state_path : PathError

unfoldable pub write_state : Members → Segments → Json → Result PathError Members
unfolding write_at is_safe same
write_state state [] v = err invalid_state_path
write_state state (root ∷ []) v = err invalid_state_path
write_state state (root ∷ part ∷ rest) v =
    if same root (txt "state") && is_safe (root ∷ part ∷ rest)
    then ok (write_at state part rest v)
    else err invalid_state_path
