-- ===== src/WebhookServer/Publisher.antt =====
-- internal/webhookserver/publisher.go: a replica publishes the targets that it can serve in its
-- Lease.
pub mod Publishing
use declarative_conversion_o.Prelude.{
  ℕ, String, Bool, true, false, Option, none, some, List, [], ◌∷◌, ◌++◌, is_some, is_empty,
  if◌then◌else◌,
}
use declarative_conversion_o.Prelude.Text.{append, sort_strings}
use declarative_conversion_o.Prelude.Assoc.{Map, insert, remove}
use declarative_conversion_o.Prelude.Result.{Result, ok, err}
use declarative_conversion_o.WebhookServer.Registry.{Registry, CompiledEntry, entry_router}
use declarative_conversion_o.WebhookServer.Reconciler.{Fetched, not_found, failed, found}
use declarative_conversion_o.WebhookServer.ServedTargets.{
  Codec, Lease, targets_annotation, truncated_annotation, encode,
}

-- TargetPublisher, enabled
pub record Publisher : Type 0 where
  pub server_name : String
  pub pod_name : String
  pub pod_uid : String

-- const LeaseNamePrefix
abbrev pub lease_name : String → String
lease_name pod_name = append "dco-served-" pod_name

unfoldable pub servable : Registry → List String
servable [] = []
servable ((name, entry) ∷ r) =
    let rest = servable r in if is_some (entry_router entry) then name ∷ rest else rest

unfoldable pub servable_targets : Registry → List String
unfolding servable
servable_targets r = sort_strings (servable r)

-- The annotations of a set that is left out, or of one that fits.
unfoldable pub stamp_annotations : String → Bool → Map String → Map String
stamp_annotations encoded truncated m =
    if truncated
    then insert truncated_annotation "true" (remove targets_annotation m)
    else remove truncated_annotation (insert targets_annotation encoded m)

abbrev or_now : ℕ → Option ℕ → Option ℕ
or_now now none = some now
or_now now (some t) = some t

unfoldable pub stamp : Publisher → String → Bool → ℕ → Lease → Lease
unfolding stamp_annotations
stamp p encoded truncated now l = record {
  labels =
      insert "app.kubernetes.io/managed-by" "declarative-conversion-operator"
        (insert "conversion.terasky.com/webhook-server" p.server_name l.labels);
  annotations = stamp_annotations encoded truncated l.annotations;
  owners = if is_empty l.owners then (p.pod_name, p.pod_uid) ∷ [] else l.owners;
  holder_identity = some p.pod_name;
  lease_duration_seconds = some 90;
  renew_time = some now;
  acquire_time = or_now now l.acquire_time;
}

abbrev pub new_lease : Lease
new_lease = record {
  labels = [];
  annotations = [];
  owners = [];
  holder_identity = none;
  lease_duration_seconds = none;
  renew_time = none;
  acquire_time = none;
}

abbrev stamped : Publisher → String × Bool → ℕ → Lease → Lease
stamped p (encoded, truncated) now l = stamp p encoded truncated now l

-- (*TargetPublisher).Publish: the lease that it creates or updates, given the one that is there.
unfoldable pub publish : Codec → Publisher → Registry → ℕ → Fetched Lease → Result String Lease
unfolding servable_targets stamp
publish c p r now not_found = ok (stamped p (encode c (servable_targets r)) now new_lease)
publish c p r now (failed e) = err e
publish c p r now (found l) = ok (stamped p (encode c (servable_targets r)) now l)
