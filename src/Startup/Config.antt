-- ===== src/Startup/Config.antt =====
-- GetConfig of pkg/common/kubeconfig/kubeconfig.go. The environment, the user, and the functions of
-- client-go are parameters. The path of a home begins with "/".
use kubernetes_local_volume.Base.{
  String, str_eq, path_join, ◌≡◌, refl, Bool-cases, inl, inr, Option, none, some, List, [], ◌∷◌,
  if◌then◌else◌,
}
use kubernetes_local_volume.Fault.{plain, Reply, got, refused}

-- The value of KUBECONFIG, BuildConfigFromFlags, InClusterConfig, and the home of the current user.
pub record Surroundings (Config : Type 0) : Type 0 where
  pub kubeconfig_variable : String
  pub build_config_from_flags : String → String → Reply Config
  pub in_cluster_config : Reply Config
  pub home_dir : Reply String

module _ {Config : Type 0} where
  abbrev pub no_config : Reply Config
  no_config = refused (plain "could not create a valid kubeconfig")

  module _ (S : Surroundings Config) where
    -- From the default location in the user's home directory.
    abbrev pub home_config : Reply String → Reply Config
    home_config (refused _) = no_config
    home_config (got home) =
        elim (S.build_config_from_flags "" (path_join (home ∷ ".kube" ∷ "config" ∷ []))) [
          | got c ↦ got c
          | refused _ ↦ no_config
        ]

    abbrev pub default_config : Reply Config
    default_config = elim S.in_cluster_config [ got c ↦ got c | refused _ ↦ home_config S.home_dir ]

    unfoldable pub get_config : String → String → Reply Config
    get_config master_url kubeconfig =
        let path = if str_eq kubeconfig "" then S.kubeconfig_variable else kubeconfig in
        if str_eq path "" then default_config else S.build_config_from_flags master_url path

-- The first name that is not empty.
abbrev pub first_named : List String → Option String
first_named [] = none
first_named (s ∷ ss) = if str_eq s "" then first_named ss else some s

module _ {Config : Type 0} where
  -- The first answer that is a configuration.
  abbrev pub first_got : List (Reply Config) → Reply Config
  first_got [] = no_config
  first_got (got c ∷ rs) = got c
  first_got (refused _ ∷ rs) = first_got rs

  -- The file in the home of a user.
  abbrev pub in_home : Surroundings Config → Reply String → List (Reply Config)
  in_home S (refused _) = []
  in_home S (got home) =
      S.build_config_from_flags "" (path_join (home ∷ ".kube" ∷ "config" ∷ [])) ∷ []

  first_or :
      (r : Reply Config) (other : Reply Config) (rs : List (Reply Config))
      → other ≡ first_got rs
      → (elim r [ got c ↦ got c | refused _ ↦ other ]) ≡ first_got (r ∷ rs)
  first_or (got c) other rs e = refl
  first_or (refused _) other rs e = e

  home_config-first :
      (S : Surroundings Config) (home : Reply String)
      → home_config S home ≡ first_got (in_home S home)
  home_config-first S (refused _) = refl
  home_config-first S (got home) =
      first_or (S.build_config_from_flags "" (path_join (home ∷ ".kube" ∷ "config" ∷ []))) no_config
        [] refl

  -- The path that is passed goes before KUBECONFIG, and one of them, if it is not empty, decides alone:
  -- there is no other attempt when it cannot be read. Without either the configuration is that of the
  -- cluster, or else that of the user's home, or else an error, whatever master URL is passed.
  pub get_config_order :
      (S : Surroundings Config) (master_url kubeconfig : String)
      → get_config S master_url kubeconfig
        ≡ elim (first_named (kubeconfig ∷ S.kubeconfig_variable ∷ [])) [
          | some path ↦ S.build_config_from_flags master_url path
          | none ↦ first_got (S.in_cluster_config ∷ in_home S S.home_dir)
        ]
  unfolding get_config
  get_config_order S master_url kubeconfig = elim (Bool-cases (str_eq kubeconfig "")) [
    | inl unnamed ↦ rw unnamed (elim (Bool-cases (str_eq S.kubeconfig_variable "")) [
      | inl unset ↦ rw unset (
          first_or S.in_cluster_config (home_config S S.home_dir) (in_home S S.home_dir)
            (home_config-first S S.home_dir))
      | inr set ↦ rw set refl
    ])
    | inr named ↦ rw named (rw named refl)
  ]
