-- ===== src/Lib.antt =====
-- The declarative conversion operator, which converts Kubernetes objects between the versions of a
-- resource: the compiler and the analysis of conversion rules, the engine that runs compiled
-- plans, the rule that says which server converts what, the webhook server that keeps the plans
-- and answers reviews, and checks on a server's configuration.
--
-- Rules say how the fields of the hub version and of one spoke version correspond. The compiler
-- resolves every rule against both schemas to one operation for each direction, claims the fields
-- that the rule accounts for, and reports every leaf that nothing claims. A plan is the list of
-- operations for each direction. Convert runs a list on an object: every operation reads the input
-- and writes into a fresh output. The router goes from any version to any other over the hub. A
-- config is converted by the ConversionWebhookServer that the assignment rule names. Each replica
-- of a server reconciles the configs into its registry of routers, answers reviews out of it, and
-- publishes in a Lease what it can serve; the operator takes what all live replicas publish.
--
-- Engine/Json, Engine/Equal, Engine/Coerce: decoded values, and pkg/engine/coerce.go and the
--   equality of ops.go on them. Values are trees that nothing shares. The code copies a value of
--   the input wherever it keeps one (deepCopyValue), with one exception:
--   pkg/engine/mapkeyrename.go stores the values of the map that it renames as they are, so that a
--   later write of the plan below that map changes the input too. That effect is not modelled:
--   what is said of several operations holds of plans that do not write below a map whose keys
--   they renamed. A map is an association list in the order of one iteration; of_fields and fields
--   go between a value and its list. Float64 is a name for 64 bits.
-- Engine/Runtime: the parameters that stand for code outside the repository, which are float64
--   arithmetic and its text forms, encoding/json, regexp, text/template, time, resource.Quantity,
--   the validation of labels, JSON Patch and CEL. Ordered, in Assign/Ranking, states of float64
--   that its values other than NaN are ordered as the naturals are.
-- Engine/Failure, Engine/Problem: the errors of the operations and the messages of the compiler as
--   values, one constructor for each message.
-- Engine/Path: pkg/engine/path.go (getValue is get_value, setValue set_value, and so on). The loop
--   of deleteValuePruningEmptyMaps recurses on the length of the parent that comes next.
-- Engine/Op, Engine/Ops: the operations of ops.go, passthrough.go, mapkeyrename.go, k8sunits.go
--   and cel.go as constructors of Op, and apply of xOp as apply_x. A loop is a function on the
--   list that it ranges over, so that no fuel is needed; format_nat in Prelude/Text has fuel for
--   one digit more than a number's value, which is never used up.
-- Engine/Known: the tree of declared keys of passthrough.go. Engine/Schema: schema.go and
--   buildKnownTree. Of a JSONSchemaProps just what the engine reads is kept.
-- Engine/Rule, Engine/Diagnostics: rules.go and diagnostics.go. A rule that holds rules is a data
--   type beside a list of rules of its own.
-- Engine/Compile: compile.go, resolveX as resolve_x. Claims are lists that are passed on, with the
--   diagnostics, as a Log; a rule resolves to a Resolved, which has the operations, the verdict
--   and the log. Engine/Compile/Leftovers is the scan after the rules, and
--   Engine/Compile/Identical says when two leaves are identical. Recursion is on the rules, so
--   that nesting needs no fuel; MaxForEachDepth is checked where the code checks it.
-- Engine/Platform, Engine/Required: platform.go and required.go. Engine/Required/Carried says
--   which fields a converted object has to carry. The paths that the platform injects are a
--   parameter of the analysis, since an adapter supplies them.
-- Engine/Analyze: analyze.go, on versions that are normalised.
-- Engine/Convert: convert.go, with the step relation of the router in Engine/Convert/Routing.
-- Assign: internal/assign, and the accessors of api/v1alpha1/conversionwebhookserver_types.go.
-- Api: api/v1alpha1/extra_args.go, and api/v1alpha1/rollout_validation.go in Api/Rollout, with
--   durations as integers that wrap at 64 bits.
-- WebhookServer/Registry, WebhookServer/Reconciler: internal/webhookserver/registry.go,
--   reconciler.go and handover.go. A reconciliation takes a Seen, which is what it reads of the
--   cluster and the outcome of the analysis, and a Replica, the state of the process; it returns
--   the new state with the time after which it is to run again, or an error.
-- WebhookServer/Review: handleConvert of internal/webhookserver/server.go. Whether the budget of a
--   request is used up at its n-th check is a parameter.
-- WebhookServer/ServedTargets, WebhookServer/Publisher: internal/servedtargets, and
--   internal/webhookserver/publisher.go. gzip and base64 are a parameter.
-- Examples: the theorems at concrete inputs.
--
-- Not modelled: normalisation of schemas, the adapters, controllers, admission and the command
-- line; the HTTP muxes, informers, metrics, tracing and logs, which are input and output; and
-- generated code. Concurrency plays no part in what is modelled: a conversion has its own context,
-- a registry is replaced as a whole, so that a reader has one version of it, and reconciliations,
-- whose writes to shared maps are each under a lock, are taken one at a time.
pub mod Prelude
pub mod Api
pub mod Assign
pub mod Engine
pub mod WebhookServer
pub mod Examples
