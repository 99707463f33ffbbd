-- ===== src/Values/Filters.antt =====
-- packages/flow-graph/src/filter.ts: predicates on the values of a scope. No evaluation throws.
use sozai.Common.{
  ℕ, ◌+◌, Bool, true, false, not, ◌&&◌, ◌||◌, Option, none, some, List, [], ◌∷◌, ltb, leb, ◌==◌,
  if◌then◌else◌,
}
use sozai.Common.Text.{Text, same, text_ltb}
use sozai.Common.Json.{Json, null, bool, num, str, arr, obj, Items, nil, cons, Members, end, member}
use sozai.Values.{Segments, Scope, own_member, count, read_path}

unfoldable pub same_bool : Bool → Bool → Bool
same_bool true b = b
same_bool false b = not b

unfoldable pub member_count : Members → ℕ
member_count end = 0
member_count (member k v rest) = member_count rest + 1

-- `Object.hasOwn(o, key) && test(o[key])`
abbrev pub is_held : (Json → Bool) → Option Json → Bool
is_held test none = false
is_held test (some v) = test v

unfoldable mutual
  unfolding same same_bool count member_count own_member

  pub equal : Json → Json → Bool
  equal null null = true
  equal (bool a) (bool b) = same_bool a b
  equal (num a) (num b) = a == b
  equal (str a) (str b) = same a b
  equal (arr xs) (arr ys) = (count xs == count ys) && all_equal xs ys
  equal (obj ms) (obj ns) = (member_count ms == member_count ns) && all_own ms ns
  equal _ _ = false

  pub all_equal : Items → Items → Bool
  all_equal nil ys = true
  all_equal (cons x xs) nil = false
  all_equal (cons x xs) (cons y ys) = equal x y && all_equal xs ys

  pub all_own : Members → Members → Bool
  all_own end ns = true
  all_own (member k v rest) ns = is_held (equal v) (own_member ns k) && all_own rest ns

-- `value === ''`, or an empty array.
unfoldable pub empty : Json → Bool
empty (str []) = true
empty (arr nil) = true
empty _ = false

pub data Order : Type 0 where
  less_than less_than_or_equal_to greater_than greater_than_or_equal_to : Order

pub data Operand : Type 0 where
  number : ℕ → Operand
  text : Text → Operand

abbrev pub compare_numbers : Order → ℕ → ℕ → Bool
compare_numbers less_than a b = ltb a b
compare_numbers less_than_or_equal_to a b = leb a b
compare_numbers greater_than a b = ltb b a
compare_numbers greater_than_or_equal_to a b = leb b a

-- By code units: `a <= b` is `!(b < a)`.
unfoldable pub compare_texts : Order → Text → Text → Bool
unfolding text_ltb
compare_texts less_than a b = text_ltb a b
compare_texts less_than_or_equal_to a b = not (text_ltb b a)
compare_texts greater_than a b = text_ltb b a
compare_texts greater_than_or_equal_to a b = not (text_ltb a b)

unfoldable pub order : Json → Operand → Order → Bool
unfolding compare_texts
order (num a) (number b) op = compare_numbers op a b
order (str a) (text b) op = compare_texts op a b
order _ _ op = false

unfoldable pub starts_with : Text → Text → Bool
starts_with s [] = true
starts_with [] (c ∷ part) = false
starts_with (d ∷ s) (c ∷ part) = d == c && starts_with s part

-- `subject.includes(part)`
unfoldable pub contains_text : Text → Text → Bool
unfolding starts_with
contains_text [] part = starts_with [] part
contains_text (c ∷ s) part = starts_with (c ∷ s) part || contains_text s part

unfoldable pub some_equal : Json → Items → Bool
unfolding equal
some_equal subject nil = false
some_equal subject (cons item rest) = equal subject item || some_equal subject rest

-- `subject.some((candidate) => equal(candidate, item))`
unfoldable pub has_item : Items → Json → Bool
unfolding equal
has_item nil item = false
has_item (cons candidate rest) item = equal candidate item || has_item rest item

unfoldable pub includes_every : Items → Items → Bool
unfolding has_item
includes_every subject nil = true
includes_every subject (cons item rest) = has_item subject item && includes_every subject rest

unfoldable pub includes_some : Items → Items → Bool
unfolding has_item
includes_some subject nil = false
includes_some subject (cons item rest) = has_item subject item || includes_some subject rest

pub data Presence : Type 0 where
  is_null non_null is_empty non_empty null_or_empty : Presence

-- One operator of a value filter with its operand.
pub data Operator : Type 0 where
  null_is : Bool → Operator
  equal_to not_equal_to : Json → Operator
  is_in not_in includes_all includes_any : Items → Operator
  compares : Order → Operand → Operator
  contains : Text → Operator
  presence : Presence → Operator

unfoldable pub is_null_value : Json → Bool
is_null_value null = true
is_null_value _ = false

unfoldable pub check_presence : Presence → Json → Bool
unfolding is_null_value empty
check_presence is_null subject = is_null_value subject
check_presence non_null subject = not (is_null_value subject)
check_presence is_empty subject = empty subject
check_presence non_empty subject = not (is_null_value subject) && not (empty subject)
check_presence null_or_empty subject = is_null_value subject || empty subject

-- The operators that do not hold of null.
unfoldable pub check_value : Operator → Json → Bool
unfolding equal some_equal order contains_text includes_every includes_some
check_value (equal_to operand) subject = equal subject operand
check_value (not_equal_to operand) subject = not (equal subject operand)
check_value (is_in operand) subject = some_equal subject operand
check_value (not_in operand) subject = not (some_equal subject operand)
check_value (contains operand) (str subject) = contains_text subject operand
check_value (includes_all operand) (arr subject) = includes_every subject operand
check_value (includes_any operand) (arr subject) = includes_some subject operand
check_value (compares op operand) subject = order subject operand op
check_value _ subject = false

unfoldable pub check_operator : Operator → Json → Bool
unfolding is_null_value check_presence check_value same_bool
check_operator (null_is operand) subject = same_bool (is_null_value subject) operand
check_operator (presence operand) subject = check_presence operand subject
check_operator operator subject =
    if is_null_value subject then false else check_value operator subject

unfoldable pub check_all : List Operator → Json → Bool
unfolding check_operator
check_all [] subject = true
check_all (operator ∷ rest) subject = check_operator operator subject && check_all rest subject

mutual
  pub data Filter : Type 0 where
    path_is : Segments → List Operator → Filter
    and_of or_of : Filters → Filter
    not_of : Filter → Filter

  pub data Filters : Type 0 where
    no_filters : Filters
    more : Filter → Filters → Filters

abbrev pub is_none : Filters → Bool
is_none no_filters = true
is_none (more f rest) = false

unfoldable mutual
  unfolding read_path check_all

  pub evaluate_filter : Filter → Scope → Bool
  evaluate_filter (and_of parts) scope = not (is_none parts) && every_filter parts scope
  evaluate_filter (or_of parts) scope = not (is_none parts) && some_filter parts scope
  evaluate_filter (not_of f) scope = not (evaluate_filter f scope)
  evaluate_filter (path_is path operators) scope = check_all operators (read_path path scope)

  pub every_filter : Filters → Scope → Bool
  every_filter no_filters scope = true
  every_filter (more f rest) scope = evaluate_filter f scope && every_filter rest scope

  pub some_filter : Filters → Scope → Bool
  some_filter no_filters scope = false
  some_filter (more f rest) scope = evaluate_filter f scope || some_filter rest scope
