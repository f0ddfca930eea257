-- ===== src/UserGroups.antt =====
-- Which groups a user has on a cluster: getConfigForClusterName and GetUserGroups of
-- pkg/breakglass/group_checker.go, and getUserGroupsFn of NewBreakglassSessionController
-- (pkg/breakglass/session_controller.go), which asks the target cluster first.
pub mod Asked
use telekom_k8s_breakglass.Prelude.{
  Bool, true, false, List, [], ◌∷◌, ◌++◌, Str, codes, Option, none, some, Result, ok, err, wrap,
  ◌>>=◌, if◌then◌else◌,
}
use telekom_k8s_breakglass.Escalations.{strip_oidc_prefixes, prefixes_of}
use telekom_k8s_breakglass.Clusters.{Hub, RestConfig}
use telekom_k8s_breakglass.Clusters.Provider.{ClientProvider, get_rest_config}

-- The API versions of SelfSubjectReview.
pub data ReviewVersion : Type 0 where
  v1 v1beta1 v1alpha1 : ReviewVersion

-- The outcome of a SelfSubjectReview: the groups of its user info, `IsNotFound`, or another error.
pub data Review : Type 0 where
  reviewed : List Str → Review
  not_found : Str → Review
  failed : Str → Review

-- What the two functions ask of the libraries.
pub record Reviewer (W R : Type 0) : Type 0 where
  pub hub : Hub W R
  -- `config.Load`, reduced to the OIDC prefixes
  pub config : Result (List Str)
  -- `config.GetConfigWithContext`
  pub context_config : Str → Result (RestConfig R)
  -- `kubernetes.NewForConfig`
  pub new_client : RestConfig R → Result (Unit {0})
  -- a SelfSubjectReview of an impersonated user
  pub self_review : ReviewVersion → RestConfig R → Str → W → Review

abbrev pub outcome : Review → Result (List Str)
outcome (Review.reviewed gs) = ok gs
outcome (Review.not_found e) = err e
outcome (Review.failed e) = err e

module _ {W R : Type 0} (env : Reviewer W R) where
  -- getConfigForClusterName
  pub get_config_for_cluster_name : Str → Result (RestConfig R)
  get_config_for_cluster_name name = elim (env.context_config name) [
    | ok cfg ↦ ok cfg
    | err e ↦ elim (env.context_config (codes "kind-" ++ name)) [ ok cfg ↦ ok cfg | err _ ↦ err e ]
  ]

  -- The next version, where the API server does not have this one.
  abbrev or_next : Review → Review → Review
  or_next (Review.reviewed gs) r = reviewed gs
  or_next (Review.not_found e) r = r
  or_next (Review.failed e) r = failed e

  -- The review with its two fallbacks.
  pub review_user : RestConfig R → Str → W → Review
  review_user cfg user w =
      or_next (env.self_review v1 cfg user w)
        (or_next (env.self_review v1beta1 cfg user w) (env.self_review v1alpha1 cfg user w))

  -- GetUserGroups
  pub get_user_groups : Str → Str → W → Result (List Str)
  unfolding get_config_for_cluster_name review_user
  get_user_groups user cluster w = do
    cfg ← wrap "failed to get config" (get_config_for_cluster_name cluster)
    _ ← wrap "failed to create client" (env.new_client cfg)
    groups ← wrap "failed to get users subject review" (outcome (review_user cfg user w))
    ok (strip_oidc_prefixes groups (prefixes_of env.config))

  -- The part of getUserGroupsFn that asks the target cluster.
  pub ask_target : RestConfig R → Str → W → Result (List Str)
  ask_target rc user w = do
    _ ← wrap "remote client construction failed" (env.new_client rc)
    groups ← wrap "remote SelfSubjectReview failed" (outcome (env.self_review v1 rc user w))
    ok (strip_oidc_prefixes groups (prefixes_of env.config))

  -- getUserGroupsFn, with the client provider that it uses.
  pub get_user_groups_fn : Str → Str → ClientProvider R → W → Result (List Str) × ClientProvider R
  unfolding get_user_groups ask_target
  get_user_groups_fn user cluster p w =
      let (found, p') = get_rest_config env.hub cluster p w in
      (elim found [ ok rc ↦ ask_target rc user w | err e ↦ get_user_groups user cluster w ], p')
