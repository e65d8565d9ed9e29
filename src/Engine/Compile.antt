-- ===== src/Engine/Compile.antt =====
-- pkg/engine/compile.go: from rules and two schemas to the operations of both directions. The
-- recursion is on the rules, those of an element or a branch included.
pub mod Claims
pub mod Shapes
pub mod Values
pub mod Metadata
pub mod Lists
pub mod Escapes
pub mod Results
pub mod Leftovers
pub mod Nested
pub mod Branches
pub mod Identical
pub mod Covered
pub mod Lossless
use declarative_conversion_o.Prelude.{ℕ, suc, true, false, Option, none, some, List, [], ◌∷◌, ◌++◌}
use declarative_conversion_o.Engine.Kind.{UnknownKeyPolicy}
use declarative_conversion_o.Engine.Runtime.{Runtime}
use declarative_conversion_o.Engine.Op.{Op, Plan, of_op_list}
use declarative_conversion_o.Engine.Schema.{Schema}
use declarative_conversion_o.Engine.Problem.{unknown_params}
use declarative_conversion_o.Engine.Diagnostics.{Diagnostic, verdict, and_verdict}
use declarative_conversion_o.Engine.Rule.{
  Strategy, UnmappedFieldPolicy, RuleParams, BranchMappings, no_mappings, mapping, Rule, rule,
  Rules, no_rules, rule_and,
}
use declarative_conversion_o.Engine.Compile.Claims.{Log, Resolved, resolved, add_error}
use declarative_conversion_o.Engine.Compile.Shapes.{
  resolve_field_rename, resolve_scalar_to_object, resolve_object_to_scalar,
  resolve_singleton_array_to_object, resolve_object_to_singleton_array, resolve_fields_to_map,
  resolve_map_to_fields,
}
use declarative_conversion_o.Engine.Compile.Values.{
  resolve_enum_remap, resolve_default_value, resolve_constant, resolve_delete, resolve_type_coerce,
  resolve_numeric_scale, resolve_string_integer_pair,
}
use declarative_conversion_o.Engine.Compile.Metadata.{resolve_to_metadata, resolve_from_metadata}
use declarative_conversion_o.Engine.Compile.Lists.{
  resolve_array_to_map_by_key, resolve_map_to_array_by_key, resolve_list_join, resolve_list_split,
  resolve_map_key_rename,
}
use declarative_conversion_o.Engine.Compile.Escapes.{
  resolve_json_patch, resolve_scalar_to_fields, resolve_fields_to_scalar, resolve_cel,
}
use declarative_conversion_o.Engine.Compile.Results.{check_acknowledged, apply_when, result_of}
use declarative_conversion_o.Engine.Compile.Leftovers.{Built, finish}
use declarative_conversion_o.Engine.Compile.Nested.{resolve_for_each}
use declarative_conversion_o.Engine.Compile.Branches.{nothing_built, Mapping, resolve_branch_map}

-- The claims so far, and no diagnostics of the rule yet.
abbrev pub log_of : Built → Log
log_of b = record { claimed_hub = b.claimed_hub; claimed_spoke = b.claimed_spoke; diags = [] }

abbrev op_of : Option Op → List Op
op_of none = []
op_of (some op) = op ∷ []

-- What a resolved rule adds.
unfoldable pub record_rule : ℕ → ℕ → Strategy → RuleParams → Resolved → Built → Built
unfolding result_of
record_rule idx source_index strategy params r b = record {
  to_spoke = b.to_spoke ++ op_of r.to_spoke;
  to_hub = b.to_hub ++ op_of r.to_hub;
  results = b.results ++ result_of idx source_index strategy params r ∷ [];
  diags = b.diags ++ r.log.diags;
  lossless = and_verdict b.lossless r.lossless;
  claimed_hub = r.log.claimed_hub;
  claimed_spoke = r.log.claimed_spoke;
}

-- effectivePolicy
unfoldable pub effective_policy : UnmappedFieldPolicy → UnmappedFieldPolicy
effective_policy UnmappedFieldPolicy.unset = UnmappedFieldPolicy.error
effective_policy policy = policy

module _ (rt : Runtime) where
  unfoldable mutual
    -- The loop over the rules, at an index.
    pub resolve_rules : Rules → ℕ → Schema → Schema → UnmappedFieldPolicy → ℕ → Built → Built
    resolve_rules no_rules idx hub spoke policy depth b = b
    resolve_rules (rule_and r rs) idx hub spoke policy depth b =
        resolve_rules rs (suc idx) hub spoke policy depth
          (resolve_rule r idx hub spoke policy depth b)

    pub resolve_rule : Rule → ℕ → Schema → Schema → UnmappedFieldPolicy → ℕ → Built → Built
    resolve_rule (rule strategy params ack source_index when) idx hub spoke policy depth b =
        record_rule idx source_index strategy params
          (apply_when idx when hub spoke (
            check_acknowledged idx ack
              (resolve strategy params idx hub spoke policy depth (log_of b))))
          b

    -- The switch on the parameters.
    pub resolve :
        Strategy → RuleParams → ℕ → Schema → Schema → UnmappedFieldPolicy → ℕ → Log → Resolved
    resolve strategy RuleParams.no_params idx hub spoke policy depth log =
        resolved none none (verdict false false) (add_error idx unknown_params log)
    resolve strategy (RuleParams.field_rename h s) idx hub spoke policy depth log =
        resolve_field_rename idx h s hub spoke log
    resolve strategy (RuleParams.scalar_to_object h s key defaults) idx hub spoke policy depth log =
        resolve_scalar_to_object idx h s key defaults hub spoke log
    resolve strategy (RuleParams.object_to_scalar h s key defaults) idx hub spoke policy depth log =
        resolve_object_to_scalar idx h s key defaults hub spoke log
    resolve strategy (RuleParams.singleton_array_to_object h s) idx hub spoke policy depth log =
        resolve_singleton_array_to_object idx h s hub spoke log
    resolve strategy (RuleParams.object_to_singleton_array h s) idx hub spoke policy depth log =
        resolve_object_to_singleton_array idx h s hub spoke log
    resolve strategy (RuleParams.fields_to_map hs s names unknown) idx hub spoke policy depth log =
        resolve_fields_to_map idx hs s names unknown hub spoke log
    resolve strategy (RuleParams.map_to_fields h ss names unknown) idx hub spoke policy depth log =
        resolve_map_to_fields idx h ss names unknown hub spoke log
    resolve strategy (RuleParams.to_metadata h key form restore) idx hub spoke policy depth log =
        resolve_to_metadata rt idx strategy h key form restore hub log
    resolve strategy (RuleParams.from_metadata s key form stash) idx hub spoke policy depth log =
        resolve_from_metadata rt idx strategy s key form stash spoke log
    resolve strategy (RuleParams.enum_remap p ms on_hub on_spoke) idx hub spoke policy depth log =
        resolve_enum_remap rt idx p ms on_hub on_spoke hub spoke log
    resolve strategy (RuleParams.default_value p side v) idx hub spoke policy depth log =
        resolve_default_value idx p side v hub spoke log
    resolve strategy (RuleParams.constant p side v) idx hub spoke policy depth log =
        resolve_constant idx p side v hub spoke log
    resolve strategy (RuleParams.delete p side) idx hub spoke policy depth log =
        resolve_delete idx p side hub spoke log
    resolve strategy (RuleParams.json_patch to_spoke to_hub lossless) idx hub spoke policy depth
          log =
        resolve_json_patch rt idx to_spoke to_hub lossless log
    resolve strategy (RuleParams.for_each h s rules) idx hub spoke policy depth log =
        resolve_for_each idx h s hub spoke depth
          (λ hub_item spoke_item.
            finish policy hub_item spoke_item
              (resolve_rules rules 0 hub_item spoke_item policy (suc depth) nothing_built))
          log
    resolve strategy (RuleParams.type_coerce p frac) idx hub spoke policy depth log =
        resolve_type_coerce idx p frac hub spoke log
    resolve strategy (RuleParams.scalar_to_fields h pattern fs join lossless) idx hub spoke policy
          depth log =
        resolve_scalar_to_fields rt idx h pattern fs join lossless hub spoke log
    resolve strategy (RuleParams.fields_to_scalar fs pattern s join lossless) idx hub spoke policy
          depth log =
        resolve_fields_to_scalar rt idx fs pattern s join lossless hub spoke log
    resolve strategy (RuleParams.array_to_map_by_key h s key) idx hub spoke policy depth log =
        resolve_array_to_map_by_key idx h s key hub spoke log
    resolve strategy (RuleParams.map_to_array_by_key h s key) idx hub spoke policy depth log =
        resolve_map_to_array_by_key idx h s key hub spoke log
    resolve strategy (RuleParams.numeric_scale h s factor) idx hub spoke policy depth log =
        resolve_numeric_scale rt idx h s factor hub spoke log
    resolve strategy (RuleParams.list_join h s separator) idx hub spoke policy depth log =
        resolve_list_join idx h s separator hub spoke log
    resolve strategy (RuleParams.list_split h s separator) idx hub spoke policy depth log =
        resolve_list_split idx h s separator hub spoke log
    resolve strategy (RuleParams.quantity h s) idx hub spoke policy depth log =
        resolve_string_integer_pair "Quantity" Op.quantity idx h s hub spoke log
    resolve strategy (RuleParams.duration h s) idx hub spoke policy depth log =
        resolve_string_integer_pair "Duration" Op.duration idx h s hub spoke log
    resolve strategy (RuleParams.map_key_rename h s renames) idx hub spoke policy depth log =
        resolve_map_key_rename idx h s renames hub spoke log
    resolve strategy (RuleParams.cel hs ss to_spoke to_hub) idx hub spoke policy depth log =
        resolve_cel rt idx hs ss to_spoke to_hub hub spoke log
    resolve strategy (RuleParams.branch_map h s discriminator branches) idx hub spoke policy depth
          log =
        resolve_branch_map idx h s discriminator (mappings branches policy depth) hub spoke log

    -- The mappings of a branchMap with their rules resolved between any two schemas.
    pub mappings : BranchMappings → UnmappedFieldPolicy → ℕ → List Mapping
    mappings no_mappings policy depth = []
    mappings (mapping hb sb hd sd no_rules rest) policy depth =
        record {
          hub_branch = hb;
          spoke_branch = sb;
          hub_discriminator_value = hd;
          spoke_discriminator_value = sd;
          nested = none;
        }
        ∷ mappings rest policy depth
    mappings (mapping hb sb hd sd (rule_and r rs) rest) policy depth =
        record {
          hub_branch = hb;
          spoke_branch = sb;
          hub_discriminator_value = hd;
          spoke_discriminator_value = sd;
          nested = some (λ hub spoke.
              finish policy hub spoke
                (resolve_rules (rule_and r rs) 0 hub spoke policy depth nothing_built));
        }
        ∷ mappings rest policy depth

  -- resolveAndBuildOps
  unfoldable pub resolve_and_build_ops : Rules → Schema → Schema → UnmappedFieldPolicy → ℕ → Built
  unfolding resolve_rules
  resolve_and_build_ops rules hub spoke policy depth =
      finish policy hub spoke (resolve_rules rules 0 hub spoke policy depth nothing_built)
