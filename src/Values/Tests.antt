-- ===== src/Values/Tests.antt =====
-- Reads, writes and filters of value.ts and filter.ts (packages/flow-graph/src) at concrete scopes.
use sozai.Common.Text.{includes}
use sozai.Common.{◌≡◌, refl, true, false, some, [], ◌∷◌}
use sozai.Common.Text.{Text, txt, same}
use sozai.Common.Json.{null, num, str, arr, obj, nil, cons, Members, end, member}
use sozai.Common.Result.{ok, err}
use sozai.Values.{
  Scope, Segments, read_path, write_state, follow, invalid_state_path, resolve_value, ref, value,
  array, values, no_values, object_of, entry, no_entries, own_member,
}
use sozai.Values.Filters.{
  equal, less_than, number, evaluate_filter, path_is, and_of, not_of, no_filters, more,
  includes_any, presence, null_or_empty, contains, compares,
}
use sozai.Values.Writes.{NoArray, with_state, read_path-write_state, read_path-write_apart}
use sozai.Values.Equality.{AllDistinct, equal-follow}

-- `{ a: { b: 1 }, c: [2, 'x'] }`
abbrev sample : Members
sample =
    member (txt "a") (obj (member (txt "b") (num 1) end))
      (member (txt "c") (arr (cons (num 2) (cons (str (txt "x")) nil))) end)

abbrev scope : Scope
scope = record { input = str (txt "in"); state = sample; results = end; loops = (txt "l", 4) ∷ [] }

abbrev at : Text → Text → Segments
at a b = txt "state" ∷ a ∷ b ∷ []

read_nested : read_path (at (txt "a") (txt "b")) scope ≡ num 1
unfolding read_path
read_nested = refl

read_item : read_path (at (txt "c") (txt "1")) scope ≡ str (txt "x")
unfolding read_path
read_item = refl

read_length : read_path (at (txt "c") (txt "length")) scope ≡ num 2
unfolding read_path
read_length = refl

read_unsafe : read_path (at (txt "a") (txt "constructor")) scope ≡ null
unfolding read_path
read_unsafe = refl

read_loops : read_path (txt "loops" ∷ txt "l" ∷ []) scope ≡ num 4
unfolding read_path
read_loops = refl

write_root : write_state sample (txt "input" ∷ txt "a" ∷ []) null ≡ err invalid_state_path
unfolding write_state
write_root = refl

-- An array on the way is replaced.
write_array :
    write_state sample (at (txt "c") (txt "d")) (num 3)
    ≡ ok (
        member
          (txt "a")
          (obj (member (txt "b") (num 1) end))
          (member (txt "c") (obj (member (txt "d") (num 3) end)) end))
unfolding write_state
write_array = refl

resolved :
    resolve_value
      (object_of (
        entry
          (txt "k")
          (array (values (ref (at (txt "a") (txt "b"))) (values (value null) no_values)))
          no_entries))
      scope
    ≡ obj (member (txt "k") (arr (cons (num 1) (cons null nil))) end)
unfolding resolve_value
resolved = refl

filtered :
    evaluate_filter
      (and_of (
        more (path_is (at (txt "a") (txt "b")) (compares less_than (number 2) ∷ [])) (
          more (not_of (path_is (txt "input" ∷ []) (contains (txt "x") ∷ []))) (
            more
              (path_is (txt "results" ∷ txt "n" ∷ []) (presence null_or_empty ∷ []))
              no_filters))))
      scope
    ≡ true
unfolding evaluate_filter
filtered = refl

filtered_any :
    evaluate_filter
      (path_is (txt "state" ∷ txt "c" ∷ []) (includes_any (cons (num 7) (cons (num 2) nil)) ∷ []))
      scope
    ≡ true
unfolding evaluate_filter
filtered_any = refl

filtered_none : evaluate_filter (and_of no_filters) scope ≡ false
unfolding evaluate_filter
filtered_none = refl

abbrev written : Members
written =
    member (txt "a") (obj (member (txt "b") (num 1) (member (txt "d") (num 5) end)))
      (member (txt "c") (arr (cons (num 2) (cons (str (txt "x")) nil))) end)

written_ok : write_state sample (at (txt "a") (txt "d")) (num 5) ≡ ok written
unfolding write_state
written_ok = refl

read_path-write_state_example :
    read_path (at (txt "a") (txt "d")) (with_state written scope) ≡ num 5
read_path-write_state_example =
    read_path-write_state scope (at (txt "a") (txt "d")) (num 5) written_ok

sample-NoArray : NoArray (some (obj sample)) (txt "a" ∷ [])
unfolding NoArray own_member
sample-NoArray = tt

read_path-write_apart_example :
    read_path (at (txt "a") (txt "b")) (with_state written scope)
    ≡ read_path (at (txt "a") (txt "b")) scope
unfolding same
read_path-write_apart_example =
    read_path-write_apart scope (txt "a" ∷ []) (txt "d") (txt "b") [] [] (num 5) written_ok refl
      sample-NoArray

-- The members of the sample in the other order.
abbrev turned : Members
turned =
    member (txt "c") (arr (cons (num 2) (cons (str (txt "x")) nil)))
      (member (txt "a") (obj (member (txt "b") (num 1) end)) end)

sample-AllDistinct : AllDistinct (obj sample)
unfolding AllDistinct includes same
sample-AllDistinct = ((refl, (refl, tt)), (((refl, tt), (tt, tt)), ((tt, (tt, tt)), tt)))

turned-AllDistinct : AllDistinct (obj turned)
unfolding AllDistinct includes same
turned-AllDistinct = ((refl, (refl, tt)), ((tt, (tt, tt)), (((refl, tt), (tt, tt)), tt)))

turned-equal : equal (obj sample) (obj turned) ≡ true
unfolding equal
turned-equal = refl

equal-follow_example :
    equal
      (follow (some (obj sample)) (txt "a" ∷ txt "b" ∷ []))
      (follow (some (obj turned)) (txt "a" ∷ txt "b" ∷ []))
    ≡ true
equal-follow_example =
    equal-follow (obj sample) (obj turned) turned-equal sample-AllDistinct turned-AllDistinct
      (txt "a" ∷ txt "b" ∷ [])
