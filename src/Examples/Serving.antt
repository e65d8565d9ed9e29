-- ===== src/Examples/Serving.antt =====
-- A replica that serves one target, and what it publishes.
use declarative_conversion_o.Prelude.{
  ℕ, ◌<◌, String, ◌≡◌, ◌↔◌, refl, true, false, ◌||◌, Option, none, some, List, [], ◌∷◌, ◌==◌, All,
  eq_iff, inl, inr, Bool-cases, is_empty, arith, if◌then◌else◌,
}
use declarative_conversion_o.Prelude.Int.{pos}
use declarative_conversion_o.Prelude.Assoc.{lookup}
use declarative_conversion_o.Prelude.Result.{ok, err}
use declarative_conversion_o.Prelude.Text.{join, sort_strings, insert_sorted}
use declarative_conversion_o.Prelude.Text.Splitting.{Lacks}
use declarative_conversion_o.Engine.Json.{Json, str, Object, object}
use declarative_conversion_o.Engine.Runtime.{Runtime}
use declarative_conversion_o.Engine.Convert.{Router}
use declarative_conversion_o.Assign.{Server, resolve_assignment, explicit}
use declarative_conversion_o.Examples.{rt}
use declarative_conversion_o.Examples.Assignments.{h}
use declarative_conversion_o.WebhookServer.Registry.{
  CompiledEntry, no_error, Registry, Write, installs, fails, validation_errors, write_all,
  router_for, promised, write_all-promised,
}
use declarative_conversion_o.WebhookServer.Reconciler.{
  ConversionConfig, Replica, found, failed, not_found, Seen, analyze_failed, is_mine,
  xrd_points_at_server, reconcile_one_xrd,
}
use declarative_conversion_o.WebhookServer.Reconciler.Keeping.{
  Reads, analysed, reconcile_one_xrd-analysed, reconcile_one_xrd-error,
}
use declarative_conversion_o.WebhookServer.Review.{
  Request, delivered, review, handle_convert, ensure_converted_metadata,
}
use declarative_conversion_o.WebhookServer.Review.Delivery.{
  Delivered, CountedOnlyIfDelivered, Metadata, handle_convert_iff, ensure_converted_metadata_lem,
}
use declarative_conversion_o.WebhookServer.ServedTargets.{
  Codec, Lease, unclear, names, encode, statement, aggregate,
}
use declarative_conversion_o.WebhookServer.ServedTargets.Aggregation.{
  stands_in, live, States, Names, aggregate_iff,
}
use declarative_conversion_o.WebhookServer.Publisher.{Publisher, stamp, new_lease}
use declarative_conversion_o.WebhookServer.Publisher.Publishing.{
  IsFaithful, newline, statement-stamp,
}

abbrev router : Router
router = record { hub = "v1"; plans = [] }

abbrev entry : CompiledEntry
entry = record {
  router = some router;
  conversion_review_versions = "v1" ∷ [];
  lossless = [];
  plan_hash = "";
  compiled_at = 1;
  last_error = no_error;
  last_error_at = 0;
}

abbrev writes : List Write
writes = installs "a" entry ∷ fails "a" validation_errors 2 ∷ fails "b" validation_errors 3 ∷ []

write_all-promised_example :
    router_for (write_all [] writes) "a" ≡ promised "a" (router_for [] "a") writes
write_all-promised_example = write_all-promised [] writes "a"

abbrev registry : Registry
registry = ("a", some entry) ∷ []

served : router_for registry "a" ≡ some router
unfolding router_for lookup
served = refl

abbrev replica : Replica
replica = record {
  server_name = "alpha";
  registry = registry;
  drain_period = pos 30;
  bulk_sync = false;
  notified = false;
  config_to_target = [];
  drain_until = [];
}

-- A config that pins a server.
abbrev pinned_to : String → ConversionConfig
pinned_to name = record {
  deleting = false;
  target = "a";
  hub_version = "v1";
  conversion_review_versions = [];
  assignment = record { webhook_server_ref = some name; shard_key = "a"; applied_webhook_url = "" };
}

abbrev server : String → Server
server name = record { name = name; default = false; sharding = none }

abbrev servers : List Server
servers = server "alpha" ∷ server "beta" ∷ []

-- A reconciliation that reads a config, the servers and a target, of which an analysis fails.
abbrev seen : {T : Type 0} → ConversionConfig → T → ℕ → Seen T
seen cfg t now = record {
  config = found cfg;
  servers = ok servers;
  target = found t;
  analysis = analyze_failed "no such version";
  plan_hash = "";
  now = now;
}

reads :
    {T : Type 0} (cfg : ConversionConfig) (t : T) (now : ℕ)
    → cfg.deleting ≡ false
    → Reads cfg servers t (seen cfg t now)
reads cfg t now alive = record { config = refl; alive = alive; listed = refl; fetched = refl }

mine : (is_mine h (pinned_to "alpha") servers replica || xrd_points_at_server [] "alpha") ≡ true
unfolding is_mine resolve_assignment explicit
mine = refl

reconcile_one_xrd-analysed_example :
    router_for (reconcile_one_xrd h "cfg" (seen (pinned_to "alpha") [] 5) replica).0.registry "a"
    ≡ analysed (pinned_to "alpha") (analyze_failed "no such version") (router_for registry "a")
reconcile_one_xrd-analysed_example =
    reconcile_one_xrd-analysed h "cfg" (seen (pinned_to "alpha") [] 5) replica (pinned_to "alpha")
      servers [] (reads (pinned_to "alpha") [] 5 refl) mine

-- The config cannot be read.
abbrev unreadable : Seen Object
unreadable = record {
  config = failed "timeout";
  servers = ok servers;
  target = not_found;
  analysis = analyze_failed "";
  plan_hash = "";
  now = 5;
}

fails_to_read : (reconcile_one_xrd h "cfg" unreadable replica).1 ≡ err "timeout"
unfolding reconcile_one_xrd
fails_to_read = refl

reconcile_one_xrd-error_example :
    (reconcile_one_xrd h "cfg" unreadable replica).0.registry ≡ registry
reconcile_one_xrd-error_example = reconcile_one_xrd-error h "cfg" unreadable replica fails_to_read

-- The config has moved to the other server, and the CRD calls no webhook.
abbrev moved : ConversionConfig
moved = pinned_to "beta"

abbrev request : Request
request = record { uid = "u1"; desired_api_version = "g/v1"; objects = "{}" ∷ [] }

-- Every object reads as one of version v1.
abbrev reading : Runtime
reading = record rt { unmarshal = λ s. some (object (("apiVersion", str "g/v1") ∷ [])) }

handle_convert_iff_example :
    ((handle_convert reading registry "a" true (λ n. false) (review (some request))
        ≡ (delivered "u1" ("{}" ∷ []), []))
      ↔ Delivered reading router "g/v1" ("{}" ∷ []) ("{}" ∷ []) [])
    × CountedOnlyIfDelivered "u1"
        (handle_convert reading registry "a" true (λ n. false) (review (some request)))
handle_convert_iff_example =
    handle_convert_iff reading registry "a" (λ n. false) request router served (λ k. refl)

ensure_converted_metadata_lem_example :
    (md : Json) × Metadata
      (lookup "metadata" [])
      (lookup "metadata" (("metadata", str "m") ∷ []))
      md
    × (lookup "metadata" (ensure_converted_metadata [] (("metadata", str "m") ∷ []))
        ≡ (if "metadata" == "metadata" then some md else lookup "metadata" []))
ensure_converted_metadata_lem_example =
    ensure_converted_metadata_lem [] (("metadata", str "m") ∷ []) "metadata"

abbrev but_first : String → Option String
but_first String.[] = none
but_first (String.◌∷◌ c s) = some s

abbrev zipped : String → String
zipped s = String.◌∷◌ newline s

abbrev codec : Codec
codec = record { gzip = zipped; gunzip = but_first; to_base64 = λ s. s; from_base64 = λ s. some s }

faithful : IsFaithful codec
faithful = record {
  unzips = λ s. refl;
  decodes = λ s. refl;
  non_empty = λ s. elim (Bool-cases (zipped s == "")) [
    | inl e ↦ absurd (cc ((eq_iff (zipped s) "").0 e))
    | inr e ↦ e
  ];
}

abbrev publisher : Publisher
publisher = record { server_name = "alpha"; pod_name = "pod-0"; pod_uid = "u0" }

a_lacks : All (Lacks newline) (sort_strings ("a" ∷ []))
unfolding sort_strings insert_sorted
a_lacks = ((λ e. cc e, tt), tt)

a_filled : (join (sort_strings ("a" ∷ [])) "\n" == "") ≡ is_empty (sort_strings ("a" ∷ []))
unfolding sort_strings insert_sorted join
a_filled = refl

abbrev published : Lease
published = stamp publisher (encode codec ("a" ∷ [])).0 (encode codec ("a" ∷ [])).1 7 new_lease

statement-stamp_example :
    statement codec 8 published
    ≡ (if (encode codec ("a" ∷ [])).1 then unclear else names (sort_strings ("a" ∷ [])))
statement-stamp_example =
    statement-stamp codec faithful publisher ("a" ∷ []) 7 8 new_lease refl a_lacks a_filled

published_says : statement codec 8 published ≡ names ("a" ∷ [])
unfolding encode sort_strings insert_sorted join
published_says =
    statement-stamp codec faithful publisher ("a" ∷ []) 7 8 new_lease refl a_lacks a_filled

a_stated : All (λ l. States "a" (statement codec 8 l)) (published ∷ new_lease ∷ [])
unfolding statement
a_stated = (rw published_says (omega arith), (tt, tt))

aggregate_iff_example :
    (stands_in "a" (aggregate codec (published ∷ new_lease ∷ []) 8).served ≡ true) ↔ (
      (0 < live codec 8 "a" (published ∷ new_lease ∷ []))
      × All (λ l. Names "a" (statement codec 8 l)) (published ∷ new_lease ∷ []))
aggregate_iff_example = aggregate_iff codec 8 "a" (published ∷ new_lease ∷ []) a_stated
