-- ===== src/Clusters.antt =====
-- ClusterConfigs and the kubeconfig secrets that they name: what pkg/cluster and the cluster
-- configuration parts of pkg/breakglass ask of the hub and of the libraries.
pub mod Provider
pub mod Cached
pub mod Sound
pub mod Reached
pub mod Manager
pub mod Checker
use telekom_k8s_breakglass.Prelude.{ℕ, ℤ, List, Str, Option, Result, StrMap}
use telekom_k8s_breakglass.Api.Cluster.{ClusterConfig}
use telekom_k8s_breakglass.Kube.{Selector, Written}

-- `*rest.Config`: the fields that the program sets (QPS and Burst as the integers that they are set
-- to), and the rest of it as `R`.
pub record RestConfig (R : Type 0) : Type 0 where
  pub host : Str
  pub qps : Option ℕ
  pub burst : Option ℕ
  pub other : R

-- An event of a Kubernetes event recorder on a ClusterConfig.
pub record Event : Type 0 where
  pub namespace : Str
  pub name : Str
  pub kind : Str
  pub reason : Str
  pub message : Str

-- `W` is the state of the hub and the target clusters.
pub record Hub (W R : Type 0) : Type 0 where
  -- ClusterConfigs: `List`, `List` with matching (indexed) fields, `Get`, and the updates
  pub list_cluster_configs : W → Result (List ClusterConfig)
  pub select_cluster_configs : Selector → W → Result (List ClusterConfig)
  pub get_cluster_config : Str → Str → W → Result ClusterConfig
  pub update_cluster_config : ClusterConfig → W → Written W
  pub update_cluster_config_status : ClusterConfig → W → Written W
  -- `Get` of a secret by namespace and name: its data
  pub get_secret : Str → Str → W → Result (StrMap Str)
  -- `clientcmd.RESTConfigFromKubeConfig`
  pub rest_config_from_kubeconfig : Str → Result (RestConfig R)
  -- the discovery client's `ServerVersion`
  pub server_version : RestConfig R → W → Result (Unit {0})
  -- `EventRecorder.Event`
  pub record_event : Event → W → W
