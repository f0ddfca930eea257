-- ===== src/Events.antt =====
-- pkg/breakglass/event_recorder.go: K8sEventRecorder. `POD_NAMESPACE` and the creation of events through
-- the clientset are parameters.
use telekom_k8s_breakglass.Prelude.{
  ℕ, true, false, [], ◌∷◌, ◌++◌, Str, codes, is_empty, if◌then◌else◌, Option, none, some, some-eq,
  ◌≡◌, ◌≢◌, ◌⊎◌, inl, inr, refl, Bool-cases,
}
use telekom_k8s_breakglass.Api.Session.{Time}
use telekom_k8s_breakglass.Kube.{Written}

-- metav1.Object: what the recorder reads of it.
pub record Object : Type 0 where
  pub name : Str
  pub namespace : Str
  pub uid : Str

-- corev1.Event
pub record Event : Type 0 where
  pub generate_name : Str
  pub namespace : Str
  pub involved_namespace : Str
  pub involved_name : Str
  pub involved_uid : Str
  pub reason : Str
  pub message : Str
  pub source : Str
  pub first_timestamp : Time
  pub last_timestamp : Time
  pub count : ℕ
  pub kind : Str

-- The object's namespace, or that of the pod.
pub event_namespace : Str → Object → Option Str
event_namespace pod_namespace object =
    if is_empty object.namespace
    then (if is_empty pod_namespace then none else some pod_namespace)
    else some object.namespace

-- The event that is created in a namespace.
pub new_event : Time → Str → Object → Str → Str → Str → Str → Event
new_event now source object kind reason message namespace = record {
  generate_name = object.name ++ codes "-";
  namespace = namespace;
  involved_namespace = namespace;
  involved_name = object.name;
  involved_uid = object.uid;
  reason = reason;
  message = message;
  source = source;
  first_timestamp = now;
  last_timestamp = now;
  count = 1;
  kind = kind;
}

module _ {W : Type 0} (create : Event → W → Written W) (pod_namespace source : Str)
    (now : Time) where
  -- Event; an object that is no metav1.Object (none) gives nothing, and an error of the creation is
  -- only logged.
  pub record_event : Option Object → Str → Str → Str → W → W
  unfolding event_namespace new_event
  record_event none kind reason message w = w
  record_event (some object) kind reason message w = elim (event_namespace pod_namespace object) [
    | none ↦ w
    | some ns ↦ (create (new_event now source object kind reason message ns) w).1
  ]

-- An event lies in the namespace of its object, and in the pod's only where the object has none; without
-- either there is no event.
pub event_namespace_of :
    (pod_namespace ns : Str) (object : Object)
    → event_namespace pod_namespace object ≡ some ns
    → (ns ≢ []) × ((object.namespace ≡ ns) ⊎ ((object.namespace ≡ []) × (pod_namespace ≡ ns)))
unfolding event_namespace
event_namespace_of pod_namespace ns object h = elim (Bool-cases (is_empty object.namespace)) [
  | inr e ↦ let same = some-eq (rw (event_namespace, e) at h) in (nonempty _ e same, inl same)
  | inl e ↦ elim (Bool-cases (is_empty pod_namespace)) [
    | inl p ↦ absurd (none-ne-some (rw (event_namespace, e, p) at h))
    | inr p ↦
        let same = some-eq (rw (event_namespace, e, p) at h) in
        (nonempty _ p same, inr (empty _ e, same))
  ]
]
  where
    none-ne-some : none ≢ some ns
    none-ne-some q = cc

    empty : (s : Str) → is_empty s ≡ true → s ≡ []
    empty [] q = refl
    empty (c ∷ s) q = cc

    nonempty : (s : Str) → is_empty s ≡ false → s ≡ ns → ns ≢ []
    nonempty [] q e r = cc
    nonempty (c ∷ s) q e r = cc
