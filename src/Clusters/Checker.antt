-- ===== src/Clusters/Checker.antt =====
-- pkg/breakglass/cluster_config_checker.go: ClusterConfigChecker.runOnce, which Start calls at every
-- tick, with setStatusAndEvent and checkClusterReachable.
pub mod Checked
use telekom_k8s_breakglass.Prelude.{
  Bool, true, false, ◌||◌, List, [], ◌∷◌, ◌++◌, Str, String, codes, is_empty, str_eq, if◌then◌else◌,
  Option, none, some, Result, ok, err, StrMap, look_up,
}
use telekom_k8s_breakglass.Api.Session.{Time}
use telekom_k8s_breakglass.Api.Cluster.{ClusterConfig}
use telekom_k8s_breakglass.Kube.{Written}
use telekom_k8s_breakglass.Clusters.{Hub, Event}
use telekom_k8s_breakglass.Clusters.Provider.{secret_key}

-- What a check finds: the phase, the message and the event's type.
pub record Verdict : Type 0 where
  pub phase : Str
  pub message : Str
  pub event_type : Str

pub failed : Str → Verdict
failed message = record { phase = codes "Failed"; message = message; event_type = codes "Warning" }

pub ready : Verdict
ready = record {
  phase = codes "Ready";
  message = codes "Kubeconfig validated and cluster reachable";
  event_type = codes "Normal";
}

-- `cc` with the status that setStatusAndEvent sets.
pub with_verdict : Time → Verdict → ClusterConfig → ClusterConfig
with_verdict now v cc = record cc {
  status = record { phase = v.phase; message = v.message; last_check_time = now };
}

pub event_of : Verdict → ClusterConfig → Event
event_of v cc = record {
  namespace = cc.namespace;
  name = cc.name;
  kind = v.event_type;
  reason =
      if str_eq v.event_type (codes "Normal")
      then codes "ClusterConfigValidationSucceeded"
      else codes "ClusterConfigValidationFailed";
  message = v.message;
}

-- A ClusterConfig that names no secret is skipped.
unfoldable pub is_unreferenced : ClusterConfig → Bool
is_unreferenced cc =
    is_empty cc.spec.kubeconfig_secret_ref.name || is_empty cc.spec.kubeconfig_secret_ref.namespace

-- `now` is the clock's reading, `has_recorder` whether a recorder is configured.
module _ {W R : Type 0} (hub : Hub W R) (now : Time) (has_recorder : Bool) where
  -- The checks of the loop's body, in their order, up to the first that fails.
  unfoldable pub verdict : ClusterConfig → W → Verdict
  unfolding failed ready
  verdict cc w =
      elim (hub.get_secret cc.spec.kubeconfig_secret_ref.namespace
        cc.spec.kubeconfig_secret_ref.name w) [
          | err e ↦ failed (codes "Referenced kubeconfig secret missing or unreadable: " ++ e)
          | ok secret ↦ elim (look_up secret (secret_key cc)) [
            | none ↦ failed (codes "Referenced kubeconfig secret missing key: " ++ secret_key cc)
            | some bytes ↦ elim (hub.rest_config_from_kubeconfig bytes) [
              | err e ↦ failed (codes "kubeconfig parse failed: " ++ e)
              | ok cfg ↦ elim (hub.server_version cfg w) [
                | err e ↦ failed (codes "cluster unreachable: " ++ e)
                | ok _ ↦ ready
              ]
            ]
          ]
        ]

  -- The update of the whole object, or else of its status.
  pub persist : ClusterConfig → W → Written W
  persist cc w =
      let (r, w') = hub.update_cluster_config cc w in
      elim r [ ok _ ↦ (ok tt, w') | err e ↦ hub.update_cluster_config_status cc w' ]

  -- setStatusAndEvent
  pub set_status_and_event : Verdict → ClusterConfig → W → Written W
  unfolding with_verdict persist event_of
  set_status_and_event v cc w =
      let cc' = with_verdict now v cc in
      let (r, w') = persist cc' w in
      elim r [
        | err e ↦ (err e, w')
        | ok _ ↦ (ok tt, if has_recorder then hub.record_event (event_of v cc') w' else w')
      ]

  pub check_one : ClusterConfig → W → W
  unfolding is_unreferenced verdict set_status_and_event
  check_one cc w = if is_unreferenced cc then w else (set_status_and_event (verdict cc w) cc w).1

  pub check_all : List ClusterConfig → W → W
  unfolding check_one
  check_all [] w = w
  check_all (cc ∷ ccs) w = check_all ccs (check_one cc w)

  -- runOnce
  unfoldable pub run_once : W → W
  unfolding check_all
  run_once w = elim (hub.list_cluster_configs w) [ err e ↦ w | ok items ↦ check_all items w ]
