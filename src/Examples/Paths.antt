-- ===== src/Examples/Paths.antt =====
-- Reading, writing and deleting at paths of a small document.
use declarative_conversion_o.Prelude.{◌≡◌, ◌≢◌, ◌↔◌, refl, some, [], ◌∷◌}
use declarative_conversion_o.Prelude.Result.{ok}
use declarative_conversion_o.Prelude.Assoc.{lookup, insert}
use declarative_conversion_o.Engine.Json.{str, Object, object, as_object, fields, of_fields}
use declarative_conversion_o.Engine.Failure.{FieldPath}
use declarative_conversion_o.Engine.Path.{
  field_path_from_json_pointer, get_value, set_value, delete_value, has_prefix,
}
use declarative_conversion_o.Engine.Path.Access.{
  Disjoint, get_value-set_value, get_value-set_value-Disjoint, get_value-delete_value-Disjoint,
}
use declarative_conversion_o.Engine.Path.Writable.{IsOpen, set_value_iff}

abbrev root : Object
root = ("spec", object (("a", str "x") ∷ [])) ∷ []

abbrev a : FieldPath
a = "spec" ∷ "a" ∷ []

abbrev b : FieldPath
b = "spec" ∷ "b" ∷ []

abbrev written : Object
written = ("spec", object (("a", str "x") ∷ ("b", str "y") ∷ [])) ∷ []

write_b : set_value root b (str "y") ≡ ok written
unfolding set_value lookup insert as_object fields object of_fields
write_b = refl

apart : Disjoint b a
unfolding has_prefix
apart = record { left = refl; right = refl }

get_value-set_value_example : get_value written b ≡ some (str "y")
get_value-set_value_example = get_value-set_value b root (str "y") write_b

get_value-set_value-Disjoint_example : get_value written a ≡ get_value root a
get_value-set_value-Disjoint_example = get_value-set_value-Disjoint b a root (str "y") write_b apart

set_value_iff_example :
    ((b ≢ []) × IsOpen root b) ↔ ((out : Object) × (set_value root b (str "y") ≡ ok out))
set_value_iff_example = set_value_iff b root (str "y")

get_value-delete_value-Disjoint_example : get_value (delete_value root b) a ≡ get_value root a
get_value-delete_value-Disjoint_example = get_value-delete_value-Disjoint b a root apart

pointer_segments : field_path_from_json_pointer "/a~1b/~01" ≡ "a/b" ∷ "~1" ∷ []
unfolding field_path_from_json_pointer
pointer_segments = refl
