-- ===== src/Engine/Path.antt =====
-- pkg/engine/path.go: field paths, and reading, writing and deleting at a path.
pub mod Access
pub mod Writable
use declarative_conversion_o.Prelude.{
  map, nat_eq, ℕ, zero, suc, ◌-◌, String, Bool, true, false, ◌&&◌, Option, none, some, List, [],
  ◌∷◌, ◌==◌, length, take, is_empty, and_then, if◌then◌else◌,
}
use Prim.Native.Char.{code}
use declarative_conversion_o.Prelude.Text.{split, join, single, append}
use declarative_conversion_o.Prelude.Result.{ok, err, ◌>>=◌}
use declarative_conversion_o.Prelude.Assoc.{lookup, insert, remove}
use declarative_conversion_o.Engine.Json.{
  Json, null, bool, str, num, arr, obj, Items, nil, cons, Fields, end, field, Object, object,
  as_object,
}
use declarative_conversion_o.Engine.Failure.{FieldPath, Result, empty_path, cannot_descend}

unfoldable pub parse_path : String → FieldPath
unfolding split
parse_path s = if s == "" then [] else split s "."

-- strings.ReplaceAll(s, "ab", new), with the two characters of the pattern by their codes
unfoldable pub replace_pair : ℕ → ℕ → String → String → String
replace_pair a b new String.[] = ""
replace_pair a b new (String.◌∷◌ c String.[]) = single c
replace_pair a b new (String.◌∷◌ c (String.◌∷◌ d s)) =
    let past = replace_pair a b new s in
    let on = replace_pair a b new (String.◌∷◌ d s) in
    if nat_eq (code c) a && nat_eq (code d) b then append new past else String.◌∷◌ c on

-- strings.TrimPrefix(ptr, "/")
abbrev trim_slash : String → String
trim_slash String.[] = ""
trim_slash (String.◌∷◌ c s) = if nat_eq (code c) b'/' then s else String.◌∷◌ c s

-- "~1" is "/", and then "~0" is "~".
abbrev unescape : String → String
unescape s = replace_pair b'~' b'0' "~" (replace_pair b'~' b'1' "/" s)

-- FieldPathFromJSONPointer
unfoldable pub field_path_from_json_pointer : String → FieldPath
unfolding replace_pair split
field_path_from_json_pointer ptr =
    let rest = trim_slash ptr in if rest == "" then [] else map unescape (split rest "/")

-- (FieldPath).String
unfoldable pub path_string : FieldPath → String
unfolding join
path_string p = join p "."

unfoldable pub path_equal : FieldPath → FieldPath → Bool
path_equal [] [] = true
path_equal (s ∷ p) (t ∷ q) = s == t && path_equal p q
path_equal _ _ = false

unfoldable pub has_prefix : FieldPath → FieldPath → Bool
has_prefix p [] = true
has_prefix [] (t ∷ q) = false
has_prefix (s ∷ p) (t ∷ q) = s == t && has_prefix p q

-- schema.go
unfoldable pub last_segment : FieldPath → String
last_segment [] = ""
last_segment (s ∷ []) = s
last_segment (s ∷ t ∷ p) = last_segment (t ∷ p)

-- The loop of `getValue`, from any value.
unfoldable pub walk : Json → FieldPath → Option Json
walk cur [] = some cur
walk cur (seg ∷ path) = and_then (as_object cur) λ m. and_then (lookup seg m) λ v. walk v path

-- getValue
unfoldable pub get_value : Object → FieldPath → Option Json
unfolding walk
get_value root path = walk (object root) path

-- The map below a segment that a write goes on in: made where it is missing.
abbrev pub descend : String → Option Json → Result Object
descend seg none = ok []
descend seg (some next) = elim (as_object next) [ none ↦ err (cannot_descend seg) | some m ↦ ok m ]

unfoldable pub set_value : Object → FieldPath → Json → Result Object
set_value cur [] val = err empty_path
set_value cur (seg ∷ []) val = ok (insert seg val cur)
set_value cur (seg ∷ next ∷ rest) val = do
  m ← descend seg (lookup seg cur)
  m' ← set_value m (next ∷ rest) val
  ok (insert seg (object m') cur)

-- `cur[seg]` as a map, if it is there and is one.
abbrev pub submap : String → Object → Option Object
submap seg cur = and_then (lookup seg cur) as_object

-- What a deletion inside the map below `seg` leaves; with no such map there is nothing to delete.
abbrev pub delete_below : String → Object → (Object → Object) → Option Object → Object
delete_below seg cur delete none = cur
delete_below seg cur delete (some m) = insert seg (object (delete m)) cur

unfoldable pub delete_value : Object → FieldPath → Object
delete_value cur [] = cur
delete_value cur (seg ∷ []) = remove seg cur
delete_value cur (seg ∷ next ∷ rest) =
    delete_below seg cur (λ m. delete_value m (next ∷ rest)) (submap seg cur)

unfoldable mutual
  pub deep_copy_value : Json → Json
  deep_copy_value null = null
  deep_copy_value (bool b) = bool b
  deep_copy_value (str s) = str s
  deep_copy_value (num n) = num n
  deep_copy_value (arr vs) = arr (copy_items vs)
  deep_copy_value (obj fs) = obj (copy_fields fs)

  pub copy_items : Items → Items
  copy_items nil = nil
  copy_items (cons v vs) = cons (deep_copy_value v) (copy_items vs)

  pub copy_fields : Fields → Fields
  copy_fields end = end
  copy_fields (field k v fs) = field k (deep_copy_value v) (copy_fields fs)

-- A value that is there, and is a map without entries.
abbrev pub is_empty_map : Option Json → Bool
is_empty_map v = elim (and_then v as_object) [ none ↦ false | some m ↦ is_empty m ]

-- The loop of `deleteValuePruningEmptyMaps`: `i` is the length of the parent that comes next.
unfoldable pub prune_parents : Object → FieldPath → ℕ → Object
prune_parents root path zero = root
prune_parents root path (suc i) =
    let parent = take (suc i) path in
    let pruned = prune_parents (delete_value root parent) path i in
    if is_empty_map (get_value root parent) then pruned else root

unfoldable pub delete_value_pruning_empty_maps : Object → FieldPath → Object
unfolding prune_parents
delete_value_pruning_empty_maps root path =
    prune_parents (delete_value root path) path (length path - 1)
