-- ===== src/Examples/Operations.antt =====
-- Operations that run on small documents, there and back.
use declarative_conversion_o.Prelude.{List, String, ◌≡◌, ◌≢◌, refl, some, [], ◌∷◌, map, All}
use declarative_conversion_o.Prelude.Text.{single, split, join}
use declarative_conversion_o.Prelude.Text.Splitting.{Lacks}
use declarative_conversion_o.Prelude.Result.{ok}
use declarative_conversion_o.Prelude.Assoc.{lookup, insert}
use declarative_conversion_o.Engine.Json.{
  Json, str, array, object, as_object, fields, of_fields, as_array, items, of_items,
}
use declarative_conversion_o.Engine.Failure.{FieldPath}
use declarative_conversion_o.Engine.Path.{get_value, walk, set_value, deep_copy_value}
use declarative_conversion_o.Engine.Kind.{FieldKind}
use declarative_conversion_o.Engine.Op
use declarative_conversion_o.Engine.Op.{Context, write}
use declarative_conversion_o.Engine.Ops.Maps.{renamed, rename_keys, apply_map_key_rename}
use declarative_conversion_o.Engine.Ops.Fields.{
  apply_rename, apply_wrap_scalar, apply_unwrap_scalar, copy_defaults,
  apply_object_to_singleton_array, apply_array_first_to_object,
}
use declarative_conversion_o.Engine.Ops.Values.{
  apply_join_list, apply_split_list, join_parts, coerce_parts,
}
use declarative_conversion_o.Engine.Coerce.{coerce_scalar_value}
use declarative_conversion_o.Engine.Ops.Apply.{
  apply, apply_ops, apply_for_each, check_destination, for_each_element,
}
use declarative_conversion_o.Engine.Ops.Unions.{branches_set, branch_map-one}
use declarative_conversion_o.Engine.Ops.Apply.{
  active_branches, branch_names, apply_active, branch_value,
}
use declarative_conversion_o.Engine.Ops.Elements.{Each, for_each-Each}
use declarative_conversion_o.Engine.Ops.RoundTrip.{rename_back, wrap_unwrap, singleton_first}
use declarative_conversion_o.Engine.Ops.Renames.{Distinct, rename_keys_back, rename_captures}
use declarative_conversion_o.Engine.Ops.Lists.{join_split, join_split_loses}
use declarative_conversion_o.Examples.{rt, context, differ}

abbrev p : FieldPath
p = "p" ∷ []

abbrev q : FieldPath
q = "q" ∷ []

-- A context whose input holds just the value, and one whose output does.
abbrev reads : String → Json → Context
reads k v = context ((k, v) ∷ []) []

abbrev wrote : String → Json → String → Json → Context
wrote j u k v = context ((j, u) ∷ []) ((k, v) ∷ [])

-- Every pair of runs below takes `v` from "p" to `w` at "q" and back.

rename_back_found : get_value (("p", str "x") ∷ []) p ≡ some (str "x")
unfolding get_value walk lookup object as_object fields of_fields
rename_back_found = refl

join_split_found :
    get_value (("p", array (map str ("x" ∷ "yz" ∷ []))) ∷ []) p
    ≡ some (array (map str ("x" ∷ "yz" ∷ [])))
unfolding get_value walk lookup object as_object fields of_fields
join_split_found = refl

join_split_loses_found : get_value (("p", array (str "" ∷ [])) ∷ []) p ≡ some (array (str "" ∷ []))
unfolding get_value walk lookup object as_object fields of_fields
join_split_loses_found = refl

rename_captures_found :
    get_value (("p", object (("b", str "x") ∷ [])) ∷ []) p ≡ some (object (("b", str "x") ∷ []))
unfolding get_value walk lookup object as_object fields of_fields
rename_captures_found = refl

a-ne-b : ◌≢◌ {A = String} "a" "b"
a-ne-b = differ "a" "b" refl

lacks : All (Lacks ",") ("x" ∷ "yz" ∷ [])
lacks = ((λ e. cc e, tt), ((λ e. cc e, (λ e. cc e, tt)), tt))

rename_back_there :
    apply rt (Op.rename p q) (reads "p" (str "x")) ≡ ok (wrote "p" (str "x") "q" (str "x"))
unfolding apply write set_value insert lookup get_value walk object as_object fields of_fields array
    as_array items of_items deep_copy_value apply_rename
rename_back_there = refl

rename_back_back :
    apply rt (Op.rename q p) (reads "q" (str "x")) ≡ ok (wrote "q" (str "x") "p" (str "x"))
unfolding apply write set_value insert lookup get_value walk object as_object fields of_fields array
    as_array items of_items deep_copy_value apply_rename
rename_back_back = refl

rename_back_example : get_value (("p", str "x") ∷ []) p ≡ some (str "x")
rename_back_example =
    rename_back rt p q (reads "p" (str "x")) (reads "q" (str "x")) (str "x") rename_back_found
      rename_back_there refl rename_back_back

wrap_unwrap_there :
    apply rt (Op.wrap_scalar p q "name" []) (reads "p" (str "x"))
    ≡ ok (wrote "p" (str "x") "q" (object (("name", str "x") ∷ [])))
unfolding apply write set_value insert lookup get_value walk object as_object fields of_fields array
    as_array items of_items deep_copy_value apply_wrap_scalar apply_unwrap_scalar copy_defaults
wrap_unwrap_there = refl

wrap_unwrap_back :
    apply rt (Op.unwrap_scalar q p "name") (reads "q" (object (("name", str "x") ∷ [])))
    ≡ ok (wrote "q" (object (("name", str "x") ∷ [])) "p" (str "x"))
unfolding apply write set_value insert lookup get_value walk object as_object fields of_fields array
    as_array items of_items deep_copy_value apply_wrap_scalar apply_unwrap_scalar copy_defaults
wrap_unwrap_back = refl

wrap_unwrap_example : get_value (("p", str "x") ∷ []) p ≡ some (str "x")
wrap_unwrap_example =
    wrap_unwrap rt p q "name" [] (reads "p" (str "x")) (reads "q" (object (("name", str "x") ∷ [])))
      (str "x") rename_back_found wrap_unwrap_there refl wrap_unwrap_back

singleton_first_there :
    apply rt (Op.object_to_singleton_array p q) (reads "p" (str "x"))
    ≡ ok (wrote "p" (str "x") "q" (array (str "x" ∷ [])))
unfolding apply write set_value insert lookup get_value walk object as_object fields of_fields array
    as_array items of_items deep_copy_value apply_object_to_singleton_array
    apply_array_first_to_object
singleton_first_there = refl

singleton_first_back :
    apply rt (Op.array_first_to_object q p) (reads "q" (array (str "x" ∷ [])))
    ≡ ok (wrote "q" (array (str "x" ∷ [])) "p" (str "x"))
unfolding apply write set_value insert lookup get_value walk object as_object fields of_fields array
    as_array items of_items deep_copy_value apply_object_to_singleton_array
    apply_array_first_to_object
singleton_first_back = refl

singleton_first_example : get_value (("p", str "x") ∷ []) p ≡ some (str "x")
singleton_first_example =
    singleton_first rt p q (reads "p" (str "x")) (reads "q" (array (str "x" ∷ []))) (str "x")
      rename_back_found singleton_first_there refl singleton_first_back

join_split_there :
    apply rt (Op.join_list p q (single ",")) (reads "p" (array (map str ("x" ∷ "yz" ∷ []))))
    ≡ ok (wrote "p" (array (map str ("x" ∷ "yz" ∷ []))) "q" (str "x,yz"))
unfolding apply write set_value insert lookup get_value walk object as_object fields of_fields array
    as_array items of_items deep_copy_value apply_join_list apply_split_list join_parts coerce_parts
    coerce_scalar_value split join
join_split_there = refl

join_split_back :
    apply rt (Op.split_list q p (single ",") FieldKind.string) (reads "q" (str "x,yz"))
    ≡ ok (wrote "q" (str "x,yz") "p" (array (map str ("x" ∷ "yz" ∷ []))))
unfolding apply write set_value insert lookup get_value walk object as_object fields of_fields array
    as_array items of_items deep_copy_value apply_join_list apply_split_list join_parts coerce_parts
    coerce_scalar_value split join
join_split_back = refl

join_split_example :
    get_value (("p", array (map str ("x" ∷ "yz" ∷ []))) ∷ []) p
    ≡ some (array (map str ("x" ∷ "yz" ∷ [])))
join_split_example =
    join_split rt p q "," ("x" ∷ "yz" ∷ []) (reads "p" (array (map str ("x" ∷ "yz" ∷ []))))
      (reads "q" (str "x,yz")) lacks (λ e. cc e) join_split_found join_split_there refl
      join_split_back

join_split_loses_there :
    apply rt (Op.join_list p q ",") (reads "p" (array (str "" ∷ [])))
    ≡ ok (wrote "p" (array (str "" ∷ [])) "q" (str ""))
unfolding apply write set_value insert lookup get_value walk object as_object fields of_fields array
    as_array items of_items deep_copy_value apply_join_list apply_split_list join_parts coerce_parts
    coerce_scalar_value split join
join_split_loses_there = refl

join_split_loses_back :
    apply rt (Op.split_list q p "," FieldKind.string) (reads "q" (str ""))
    ≡ ok (wrote "q" (str "") "p" (array []))
unfolding apply write set_value insert lookup get_value walk object as_object fields of_fields array
    as_array items of_items deep_copy_value apply_join_list apply_split_list join_parts coerce_parts
    coerce_scalar_value split join
join_split_loses_back = refl

join_split_loses_example : get_value (("p", array []) ∷ []) p ≡ some (array [])
join_split_loses_example =
    join_split_loses rt p q "," (reads "p" (array (str "" ∷ []))) (reads "q" (str ""))
      join_split_loses_found join_split_loses_there refl join_split_loses_back

rename_captures_there :
    apply rt (Op.map_key_rename p q (("a", "b") ∷ [])) (reads "p" (object (("b", str "x") ∷ [])))
    ≡ ok (wrote "p" (object (("b", str "x") ∷ [])) "q" (object (("b", str "x") ∷ [])))
unfolding apply write set_value insert lookup get_value walk object as_object fields of_fields array
    as_array items of_items deep_copy_value apply_map_key_rename rename_keys
rename_captures_there = refl

rename_captures_back :
    apply rt (Op.map_key_rename q p (("b", "a") ∷ [])) (reads "q" (object (("b", str "x") ∷ [])))
    ≡ ok (wrote "q" (object (("b", str "x") ∷ [])) "p" (object (("a", str "x") ∷ [])))
unfolding apply write set_value insert lookup get_value walk object as_object fields of_fields array
    as_array items of_items deep_copy_value apply_map_key_rename rename_keys
rename_captures_back = refl

rename_captures_example :
    get_value (("p", object (("a", str "x") ∷ [])) ∷ []) p ≡ some (object (("a", str "x") ∷ []))
rename_captures_example =
    rename_captures rt p q "a" "b" (str "x") (reads "p" (object (("b", str "x") ∷ [])))
      (reads "q" (object (("b", str "x") ∷ []))) a-ne-b rename_captures_found rename_captures_there
      refl rename_captures_back

rename_keys_there :
    rename_keys q (("a", "b") ∷ []) (("a", str "x") ∷ ("c", str "y") ∷ []) []
    ≡ ok (("b", str "x") ∷ ("c", str "y") ∷ [])
unfolding rename_keys lookup insert
rename_keys_there = refl

distinct : Distinct (("a", str "x") ∷ ("c", str "y") ∷ [])
unfolding lookup
distinct = (refl, (refl, tt))

taken_back :
    All {A = String × Json}
      (λ e. renamed (("b", "a") ∷ []) (renamed (("a", "b") ∷ []) e.0) ≡ e.0)
      (("a", str "x") ∷ ("c", str "y") ∷ [])
unfolding lookup
taken_back = (refl, (refl, tt))

rename_keys_back_example :
    rename_keys p (("b", "a") ∷ []) (("b", str "x") ∷ ("c", str "y") ∷ []) []
    ≡ ok (("a", str "x") ∷ ("c", str "y") ∷ [])
rename_keys_back_example =
    rename_keys_back p q (("a", "b") ∷ []) (("b", "a") ∷ []) (("a", str "x") ∷ ("c", str "y") ∷ [])
      distinct taken_back rename_keys_there

abbrev renames_name : Op.Ops
renames_name = Op.and_then (Op.rename ("name" ∷ []) ("id" ∷ [])) Op.done

abbrev named : String → Json
named k = object ((k, str "x") ∷ [])

for_each_found :
    get_value (("p", array (named "name" ∷ [])) ∷ []) p ≡ some (array (named "name" ∷ []))
unfolding get_value walk lookup object as_object fields of_fields
for_each_found = refl

for_each_runs :
    apply rt (Op.for_each p q renames_name) (reads "p" (array (named "name" ∷ [])))
    ≡ ok (wrote "p" (array (named "name" ∷ [])) "q" (array (named "id" ∷ [])))
unfolding apply apply_ops apply_for_each check_destination for_each_element apply_rename write
    set_value insert lookup get_value walk object as_object fields of_fields array as_array items
    of_items deep_copy_value
for_each_runs = refl

for_each-Each_example :
    (outs : List Json) × (get_value (("q", array (named "id" ∷ [])) ∷ []) q ≡ some (array outs))
    × Each (apply_ops rt renames_name) (named "name" ∷ []) outs
for_each-Each_example =
    for_each-Each rt p q renames_name (named "name" ∷ []) (reads "p" (array (named "name" ∷ [])))
      for_each_found for_each_runs

abbrev branches : Op.Branches
branches =
    Op.branch "git" "Git" "GIT" Op.done (Op.branch "http" "Http" "HTTP" Op.done Op.no_branches)

abbrev union : Json
union = object (("http", str "x") ∷ [])

branch_map_found : get_value (("p", union) ∷ []) p ≡ some union
unfolding get_value walk lookup object as_object fields of_fields
branch_map_found = refl

branch_map_runs :
    apply rt (Op.branch_map p q "type" branches) (reads "p" union)
    ≡ ok (wrote "p" union "q" (object (("Http", str "x") ∷ ("type", str "HTTP") ∷ [])))
unfolding apply active_branches branch_names apply_active branch_value write set_value insert lookup
    get_value walk object as_object fields of_fields deep_copy_value
branch_map_runs = refl

branch_map-one_example : branches_set branches (("http", str "x") ∷ []) ≡ 1
branch_map-one_example =
    branch_map-one rt p q "type" branches (("http", str "x") ∷ []) (reads "p" union)
      branch_map_found branch_map_runs
