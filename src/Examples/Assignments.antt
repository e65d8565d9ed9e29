-- ===== src/Examples/Assignments.antt =====
-- Assignment of configs to two servers, and extra arguments.
use mathlib.Core.List.{Memᴰ, Permᴰ}
use declarative_conversion_o.Prelude.{
  ℕ, String, ◌≡◌, ◌↔◌, ◌⊎◌, inl, inr, refl, true, false, none, some, [], ◌∷◌, ◌||◌, ◌==◌, All, ltb,
  nat_eq,
}
use declarative_conversion_o.Prelude.Result.{ok}
use declarative_conversion_o.Engine.Json.{Float64, bits}
use declarative_conversion_o.Assign.{
  Hashing, Server, Config, sharding_enabled, shard_score, score_of, pick_shard, shard_pool,
  sort_servers, insert_server, resolve_assignment, explicit, target_points_at, served_by,
}
use declarative_conversion_o.Assign.Ranking.{Ordered}
use declarative_conversion_o.Assign.Shards.{Rated, pick_shard-join}
use declarative_conversion_o.Assign.Resolving.{resolve_assignment-Perm}
use declarative_conversion_o.Assign.Handover.{
  dot, webhook_url, target_points_at_iff, served_by-handover,
}
use declarative_conversion_o.Prelude.Text.{str_ltb}
use declarative_conversion_o.Prelude.Text.Splitting.{Lacks}
use declarative_conversion_o.Api.ExtraArgs.{validate_webhook_server_extra_args}
use declarative_conversion_o.Api.ExtraArgs.Managed.{
  NamesManaged, validate_webhook_server_extra_args_iff,
}

abbrev value : Float64 → ℕ
value (bits n) = n

-- Every score is 1, above minus infinity at 0.
abbrev pub h : Hashing
h = record {
  sum64 = λ s. 0;
  of_nat = λ n. bits n;
  neg = λ f. f;
  div = λ f g. bits 1;
  log = λ f. f;
  neg_inf = bits 0;
  gt = λ f g. ltb (value g) (value f);
  eq = λ f g. nat_eq (value f) (value g);
}

abbrev ordered : Ordered h
ordered = record {
  is_nan = λ f. false;
  rank = value;
  gt_rank = λ f g p q. refl;
  eq_rank = λ f g p q. refl;
  neg_inf_number = refl;
}

abbrev server : String → Server
server name = record {
  name = name;
  default = false;
  sharding = some (record { enabled = none; weight = none });
}

abbrev alpha : Server
alpha = server "alpha"

abbrev beta : Server
beta = server "beta"

rated : (s : Server) → Rated h ordered "xbuckets" s
unfolding score_of shard_score
rated s = record { number = refl; above = refl }

first_or_old : (s : Server) → Memᴰ s (alpha ∷ beta ∷ []) → (s ≡ alpha) ⊎ Memᴰ s (beta ∷ [])
first_or_old s (Memᴰ.head e) = inl e
first_or_old s (Memᴰ.tail m) = inr m

pick_shard-join_example :
    (pick_shard h (alpha ∷ beta ∷ []) "xbuckets" ≡ "alpha")
    ⊎ (pick_shard h (alpha ∷ beta ∷ []) "xbuckets" ≡ pick_shard h (beta ∷ []) "xbuckets")
pick_shard-join_example =
    pick_shard-join h ordered "xbuckets" alpha (beta ∷ []) alpha (beta ∷ []) (rated beta, tt)
      (rated alpha, (rated beta, tt)) (λ s m. Memᴰ.tail m) first_or_old

there : (s : Server) → Memᴰ s (alpha ∷ beta ∷ []) → Memᴰ s (beta ∷ alpha ∷ [])
there s (Memᴰ.head e) = Memᴰ.tail (Memᴰ.head e)
there s (Memᴰ.tail (Memᴰ.head e)) = Memᴰ.head e
there s (Memᴰ.tail (Memᴰ.tail m)) = Memᴰ.tail (Memᴰ.tail m)

back : (s : Server) → Memᴰ s (beta ∷ alpha ∷ []) → Memᴰ s (alpha ∷ beta ∷ [])
back s (Memᴰ.head e) = Memᴰ.tail (Memᴰ.head e)
back s (Memᴰ.tail (Memᴰ.head e)) = Memᴰ.head e
back s (Memᴰ.tail (Memᴰ.tail m)) = Memᴰ.tail (Memᴰ.tail m)

abbrev buckets : Config
buckets = record { webhook_server_ref = none; shard_key = "xbuckets"; applied_webhook_url = "" }

swapped : Permᴰ (beta ∷ alpha ∷ []) (alpha ∷ beta ∷ [])
swapped = Permᴰ.swap refl refl

Rated-pool : All (Rated h ordered "xbuckets") (shard_pool (beta ∷ alpha ∷ []))
unfolding shard_pool sort_servers insert_server sharding_enabled str_ltb
Rated-pool = (rated alpha, (rated beta, tt))

resolve_assignment-Perm_example :
    resolve_assignment h buckets (beta ∷ alpha ∷ [])
    ≡ resolve_assignment h buckets (alpha ∷ beta ∷ [])
resolve_assignment-Perm_example =
    resolve_assignment-Perm h ordered buckets (beta ∷ alpha ∷ []) (alpha ∷ beta ∷ []) swapped
      Rated-pool

alpha_lacks : Lacks dot "alpha"
alpha_lacks = (λ e. cc e, (λ e. cc e, (λ e. cc e, (λ e. cc e, (λ e. cc e, tt)))))

beta_lacks : Lacks dot "beta"
beta_lacks = (λ e. cc e, (λ e. cc e, (λ e. cc e, (λ e. cc e, tt))))

target_points_at_iff_example :
    (target_points_at (webhook_url "alpha" "ns" "/convert") "beta" ≡ true)
    ↔ (◌≡◌ {A = String} "alpha" "beta")
target_points_at_iff_example =
    target_points_at_iff "alpha" "beta" "ns" "/convert" alpha_lacks beta_lacks

-- The target still calls `alpha`, and the config pins `beta`.
abbrev moving : Config
moving = record {
  webhook_server_ref = some "beta";
  shard_key = "xbuckets";
  applied_webhook_url = webhook_url "alpha" "ns" "/convert";
}

pinned_beta : resolve_assignment h moving (alpha ∷ beta ∷ []) ≡ ok "beta"
unfolding resolve_assignment explicit
pinned_beta = refl

served_by-handover_example :
    served_by h moving (alpha ∷ beta ∷ []) "alpha" ≡ (("beta" == "alpha") || ("alpha" == "alpha"))
served_by-handover_example =
    served_by-handover h moving (alpha ∷ beta ∷ []) "alpha" "beta" "alpha" "ns" "/convert"
      alpha_lacks alpha_lacks refl pinned_beta

validate_webhook_server_extra_args_iff_example :
    (validate_webhook_server_extra_args ("--v" ∷ "2" ∷ "-tls-cert-dir=/tmp" ∷ []) ≡ ok tt)
    ↔ All (λ arg. ¬ NamesManaged arg) ("--v" ∷ "2" ∷ "-tls-cert-dir=/tmp" ∷ [])
validate_webhook_server_extra_args_iff_example =
    validate_webhook_server_extra_args_iff ("--v" ∷ "2" ∷ "-tls-cert-dir=/tmp" ∷ [])
