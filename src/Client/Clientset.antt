-- ===== src/Client/Clientset.antt =====
-- The client set for local volumes (pkg/client/clientset/versioned/clientset.go) and its one group's
-- client (pkg/client/clientset/versioned/typed/storage/v1alpha1/storage_client.go).
use kubernetes_local_volume.Base.{
  suc, zero, String, str_eq, Bool, true, false, Option, none, some, ◌≡◌, refl, if◌then◌else◌,
}
use kubernetes_local_volume.Base.Int.{ℤ, pos, negsuc}
use kubernetes_local_volume.Fault.{plain, Reply, got, refused, Outcome, ok, panic}

-- The fields of rest.Config that are read or set, but for the serializer. Limiters `R` and rates `Q` are of any types.
pub record RestConfig (R Q : Type 0) : Type 0 where
  pub rate_limiter : Option R
  pub qps : Q
  pub burst : ℤ
  pub user_agent : String
  pub api_path : String
  pub group_version : String

pub record Clientset (RC DC : Type 0) : Type 0 where
  pub discovery_client : DC
  pub local_v1alpha1 : RC

-- What the package uses of client-go: whether a rate is above 0, NewTokenBucketRateLimiter,
-- DefaultKubernetesUserAgent, RESTClientFor and NewDiscoveryClientForConfig.
pub record ClientGo (R Q RC DC : Type 0) : Type 0 where
  pub is_positive : Q → Bool
  pub token_bucket : Q → ℤ → R
  pub default_user_agent : String
  pub rest_client_for : RestConfig R Q → Reply RC
  pub discovery_for : RestConfig R Q → Reply DC

-- `panic(err)` for an error.
abbrev pub or_die : {A : Type 0} → Reply A → Outcome A
or_die (got a) = ok a
or_die (refused _) = panic

-- `burst <= 0`
abbrev pub is_at_most_zero : ℤ → Bool
is_at_most_zero (pos zero) = true
is_at_most_zero (pos (suc _)) = false
is_at_most_zero (negsuc _) = true

abbrev pub burst_required : String
burst_required =
    "Burst is required to be greater than 0 when RateLimiter is not set and QPS is set to greater than 0"

module _ {R Q RC DC : Type 0} (G : ClientGo R Q RC DC) where
  unfoldable pub set_config_defaults : RestConfig R Q → RestConfig R Q
  set_config_defaults config = record config {
    group_version = "local.volume.storage/v1alpha1";
    api_path = "/apis";
    user_agent = if str_eq config.user_agent "" then G.default_user_agent else config.user_agent;
  }

  -- NewForConfig and NewForConfigOrDie of the group.
  unfoldable pub group_for_config : RestConfig R Q → Reply RC
  unfolding set_config_defaults
  group_for_config c = G.rest_client_for (set_config_defaults c)

  abbrev pub group_for_config_or_die : RestConfig R Q → Outcome RC
  group_for_config_or_die c = or_die (group_for_config c)

  abbrev pub with_discovery : RestConfig R Q → RC → Reply DC → Reply (Clientset RC DC)
  with_discovery c group (refused e) = refused e
  with_discovery c group (got discovery) =
      got (record { discovery_client = discovery; local_v1alpha1 = group })

  abbrev pub with_group : RestConfig R Q → Reply RC → Reply (Clientset RC DC)
  with_group c (refused e) = refused e
  with_group c (got group) = with_discovery c group (G.discovery_for c)

  -- A limiter is wanted: the configuration has none, and a rate.
  abbrev pub wants_limiter : RestConfig R Q → Bool
  wants_limiter c = elim c.rate_limiter [ none ↦ G.is_positive c.qps | some _ ↦ false ]

  abbrev pub with_limiter : RestConfig R Q → RestConfig R Q
  with_limiter c = record c { rate_limiter = some (G.token_bucket c.qps c.burst) }

  unfoldable pub new_for_config : RestConfig R Q → Reply (Clientset RC DC)
  unfolding group_for_config
  new_for_config c =
      if wants_limiter c
      then (if is_at_most_zero c.burst
          then refused (plain burst_required)
          else with_group (with_limiter c) (group_for_config (with_limiter c)))
      else with_group c (group_for_config c)

  abbrev pub discover_or_die : RC → Outcome DC → Outcome (Clientset RC DC)
  discover_or_die group (ok discovery) =
      ok (record { discovery_client = discovery; local_v1alpha1 = group })
  discover_or_die group _ = panic

  abbrev pub die_or_discover : RestConfig R Q → Outcome RC → Outcome (Clientset RC DC)
  die_or_discover c (ok group) = discover_or_die group (or_die (G.discovery_for c))
  die_or_discover c _ = panic

  unfoldable pub new_for_config_or_die : RestConfig R Q → Outcome (Clientset RC DC)
  unfolding group_for_config
  new_for_config_or_die c = die_or_discover c (group_for_config_or_die c)

  or_die_cases :
      (c : RestConfig R Q) (group : Reply RC)
      → die_or_discover c (or_die group) ≡ or_die (with_group c group)
  or_die_cases c (refused e) = refl
  or_die_cases c (got group) = at (G.discovery_for c)
    where
      at : (d : Reply DC) → discover_or_die group (or_die d) ≡ or_die (with_discovery c group d)
      at (got d) = refl
      at (refused e) = refl

  -- NewForConfigOrDie ends as NewForConfig does, with a panic for an error, on every configuration that
  -- has a limiter or whose rate is not above 0.
  pub new_for_config_or_die_agrees :
      (c : RestConfig R Q)
      → wants_limiter c ≡ false
      → new_for_config_or_die c ≡ or_die (new_for_config c)
  unfolding new_for_config new_for_config_or_die
  new_for_config_or_die_agrees c full = rw full (or_die_cases c (group_for_config c))
