-- ===== src/Checker/ResultPaths.antt =====
-- packages/flow-graph/src/result-paths.ts: whether a path can be reached in a JSON schema, which is
-- a JSON value; `none` is what the source has as undefined.
use sozai.Common.{
  ℕ, zero, suc, Bool, true, false, not, ◌&&◌, ◌||◌, Option, none, some, List, [], ◌∷◌, ◌++◌, ◌==◌,
  map, is_some, if◌then◌else◌,
}
use sozai.Common.Lists.{length}
use sozai.Common.Text.{Text, txt, same, includes}
use sozai.Common.Json.{Json, bool, str, obj, Members, end, member}
use sozai.Common.Decimal.{is_positive_numeral}
use sozai.Values.{own_member}

abbrev pub annotation_keys : List Text
annotation_keys =
    txt "title"
    ∷ txt "description"
    ∷ txt "$comment"
    ∷ txt "examples"
    ∷ txt "default"
    ∷ txt "deprecated"
    ∷ txt "readOnly"
    ∷ txt "writeOnly"
    ∷ txt "$id"
    ∷ txt "$schema"
    ∷ txt "$anchor"
    ∷ txt "definitions"
    ∷ txt "$defs"
    ∷ []

-- `Object.member_keys`
abbrev pub member_keys : Members → List Text
member_keys end = []
member_keys (member k v rest) = k ∷ member_keys rest

abbrev pub all_annotations : List Text → Bool
all_annotations [] = true
all_annotations (key ∷ rest) = includes annotation_keys key && all_annotations rest

unfoldable pub is_unconstrained_schema : Option Json → Bool
unfolding includes
is_unconstrained_schema (some (bool b)) = b
is_unconstrained_schema (some (obj m)) = all_annotations (member_keys m)
is_unconstrained_schema _ = false

-- The own property of a record.
unfoldable pub property : Option Json → Text → Option Json
unfolding own_member
property (some (obj m)) key = own_member m key
property _ key = none

abbrev pub definitions_prefix : Text
definitions_prefix = txt "#/definitions/"

abbrev pub defs_prefix : Text
defs_prefix = txt "#/$defs/"

unfoldable pub strip_prefix : Text → Text → Option Text
strip_prefix [] s = some s
strip_prefix (c ∷ prefix) [] = none
strip_prefix (c ∷ prefix) (d ∷ s) =
    let rest = strip_prefix prefix s in if c == d then rest else none

-- `[^/]+`
unfoldable pub has_slash : Text → Bool
has_slash [] = false
has_slash (c ∷ s) = (c == 47) || has_slash s

abbrev pub is_name : Text → Bool
is_name [] = false
is_name (c ∷ s) = not (has_slash (c ∷ s))

-- What a reference that begins with the prefix of a section names there.
abbrev pub named : Json → Text → Option Text → Option Json
named root section none = none
named root section (some name) =
    if is_name name then property (property (some root) section) name else none

abbrev pub or_other : Option Json → Option Json → Option Json
or_other (some v) other = some v
or_other none other = other

-- What a reference refers to in the root: at most one of the prefixes fits.
unfoldable pub referred : Json → Text → Option Json
unfolding strip_prefix has_slash property
referred root ref =
    or_other (named root (txt "definitions") (strip_prefix definitions_prefix ref))
      (named root (txt "$defs") (strip_prefix defs_prefix ref))

abbrev pub text_of : Option Json → Option Text
text_of (some (str s)) = some s
text_of _ = none

-- `$ref`, where it is a string.
unfoldable pub ref_of : Option Json → Option Text
unfolding property
ref_of current = text_of (property current (txt "$ref"))

-- A turn of the loop of `resolveRef`: `go` is what follows it.
abbrev pub resolve_turn :
    Json
    → (List Text → Option Json → Option Json)
    → List Text
    → Option Json
    → Option Text
    → Option Json
resolve_turn root go visited current none = current
resolve_turn root go visited current (some ref) =
    if includes visited ref
    then none
    else elim (referred root ref) [ none ↦ none | some next ↦ go (ref ∷ visited) (some next) ]

-- The loop of `resolveRef`.
unfoldable pub resolve_from : Json → ℕ → List Text → Option Json → Option Json
unfolding ref_of includes referred
resolve_from root zero visited current = none
resolve_from root (suc fuel) visited current =
    resolve_turn root (resolve_from root fuel) visited current (ref_of current)

abbrev pub section_refs : Text → Option Json → List Text
section_refs prefix (some (obj m)) = map (λ key. prefix ++ key) (member_keys m)
section_refs prefix _ = []

-- All references that can refer to something.
abbrev pub refs : Json → List Text
unfolding property
refs root =
    section_refs definitions_prefix (property (some root) (txt "definitions"))
    ++ section_refs defs_prefix (property (some root) (txt "$defs"))

-- One round more than there are references.
unfoldable pub resolve_ref : Json → Option Json → Option Json
unfolding resolve_from
resolve_ref root schema = resolve_from root (suc (length (refs root))) [] schema

-- A schema that is a record, or `true`.
abbrev pub record_or_true : Option Json → Option Json
record_or_true (some (bool true)) = some (bool true)
record_or_true (some (obj m)) = some (obj m)
record_or_true _ = none

abbrev pub is_index : Text → Bool
is_index key = same key (txt "0") || is_positive_numeral key

unfoldable pub child_schema : Json → Text → Option Json
unfolding property same is_positive_numeral
child_schema schema key = or_other (property (property (some schema) (txt "properties")) key) (
    if is_index key && is_some (record_or_true (property (some schema) (txt "items")))
    then property (some schema) (txt "items")
    else record_or_true (property (some schema) (txt "additionalProperties")))

abbrev pub is_accepted : Option Json → Bool
is_accepted none = false
is_accepted (some (bool b)) = b
is_accepted (some _) = true

abbrev pub child_of : Option Json → Text → Option Json
child_of (some (obj m)) part = child_schema (obj m) part
child_of _ part = none

abbrev pub is_object : Option Json → Bool
is_object (some (obj m)) = true
is_object _ = false

-- The loop over the parts of a path.
unfoldable pub has_path_from : Json → Option Json → List Text → Bool
unfolding is_unconstrained_schema resolve_ref child_schema
has_path_from root current [] = is_accepted current
has_path_from root current (part ∷ rest) =
    let deeper = has_path_from root (resolve_ref root (child_of current part)) rest in
    if is_unconstrained_schema current then true else (if is_object current then deeper else false)

unfoldable pub schema_has_path : Json → List Text → Bool
unfolding has_path_from
schema_has_path schema path = has_path_from schema (resolve_ref schema (some schema)) path
