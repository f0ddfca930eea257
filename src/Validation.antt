-- ===== src/Validation.antt =====
-- api/v1alpha1: the admission validators (ValidateCreate and ValidateUpdate) of BreakglassSession,
-- BreakglassEscalation and ClusterConfig. ValidateDelete allows everything.
pub mod Unique
pub mod Admitted
use telekom_k8s_breakglass.Prelude.{
  Bool, true, false, not, ◌&&◌, ◌||◌, List, [], ◌∷◌, ◌++◌, Str, String, codes, find, is_empty,
  str_eq, if◌then◌else◌, Option, none, some, Result, ok, err,
}
use telekom_k8s_breakglass.Api.Session.{Session, SessionSpec}
use telekom_k8s_breakglass.Api.Escalation.{Escalation}
use telekom_k8s_breakglass.Api.Cluster.{ClusterConfig}

-- field.ErrorType: the types that the validators use
pub data ErrorType : Type 0 where
  required duplicate immutable : ErrorType

-- field.Error
pub record FieldError : Type 0 where
  pub kind : ErrorType
  pub path : Str
  pub detail : Str

abbrev field_error : ErrorType → String → Str → FieldError
field_error kind path detail = record { kind = kind; path = codes path; detail = detail }

-- webhookCache and webhookClient, none where they are nil: the outcome of a `List` of the resources.
pub record Webhooks {ℓ} (A : Type ℓ) : Type ℓ where
  pub cache : Option (Result (List A))
  pub client : Option (Result (List A))

-- Metadata of a resource.
pub record Meta : Type 0 where
  pub name : Str
  pub namespace : Str

module _ {A : Type 0} (meta : A → Meta) where
  -- The test of the loop over the listed items.
  pub conflicts : Meta → A → Bool
  conflicts m item =
      str_eq (meta item).name m.name && not (str_eq (meta item).namespace m.namespace)

  -- The loop over the items, up to the first conflict. A failed listing gives no error.
  pub name_errors : (A → Str) → Meta → Result (List A) → List FieldError
  unfolding conflicts
  name_errors message m (err e) = []
  name_errors message m (ok items) = elim (find (conflicts m) items) [
    | none ↦ []
    | some item ↦ field_error duplicate "metadata.name" (message item) ∷ []
  ]

  abbrev pub conflicting_namespace : A → Str
  conflicting_namespace item =
      codes "name must be unique cluster-wide; conflicting namespace=" ++ (meta item).namespace

  -- The check that prefers the cache.
  pub unique_errors : Meta → Webhooks A → List FieldError
  unfolding name_errors
  unique_errors m hooks = elim hooks.cache [
    | some listed ↦ name_errors conflicting_namespace m listed
    | none ↦ elim hooks.client [
      | some listed ↦ name_errors conflicting_namespace m listed
      | none ↦ []
    ]
  ]

abbrev pub session_meta : Session → Meta
session_meta s = record { name = s.name; namespace = s.namespace }

abbrev pub escalation_meta : Escalation → Meta
escalation_meta e = record { name = e.name; namespace = e.namespace }

abbrev pub cluster_meta : ClusterConfig → Meta
cluster_meta c = record { name = c.name; namespace = c.namespace }

abbrev required_if_empty : Str → String → String → List FieldError
required_if_empty value path detail =
    if is_empty value then field_error required path (codes detail) ∷ [] else []

pub session_required : Session → List FieldError
session_required bs =
    required_if_empty bs.spec.cluster "spec.cluster" "cluster is required"
    ++ required_if_empty bs.spec.user "spec.user" "user is required"
    ++ required_if_empty bs.spec.granted_group "spec.grantedGroup" "grantedGroup is required"

-- BreakglassSession.ValidateCreate: the errors, none of them if the session is admitted.
unfoldable pub validate_session_create : Webhooks Session → Session → List FieldError
unfolding session_required unique_errors
validate_session_create hooks bs =
    if is_empty (session_required bs)
    then unique_errors session_meta (session_meta bs) hooks
    else session_required bs

pub list_eq : List Str → List Str → Bool
list_eq [] [] = true
list_eq (a ∷ xs) (b ∷ ys) = str_eq a b && list_eq xs ys
list_eq _ _ = false

-- `reflect.DeepEqual` of two slices: a nil slice differs from an empty one.
pub slice_eq : Option (List Str) → Option (List Str) → Bool
unfolding list_eq
slice_eq none none = true
slice_eq (some xs) (some ys) = list_eq xs ys
slice_eq _ _ = false

-- `reflect.DeepEqual` of two specifications
pub spec_eq : SessionSpec → SessionSpec → Bool
unfolding slice_eq
spec_eq a b =
    str_eq a.cluster b.cluster
    && (str_eq a.user b.user
        && (str_eq a.granted_group b.granted_group
            && (str_eq a.idle_timeout b.idle_timeout
                && (str_eq a.max_valid_for b.max_valid_for
                    && (str_eq a.retain_for b.retain_for
                        && (str_eq a.cluster_config_ref b.cluster_config_ref
                            && (slice_eq a.deny_policy_refs b.deny_policy_refs
                                && str_eq a.request_reason b.request_reason)))))))

-- BreakglassSession.ValidateUpdate, with the old object; it asks webhookClient only.
pub validate_session_update : Webhooks Session → Session → Session → List FieldError
unfolding spec_eq name_errors
validate_session_update hooks bs old =
    (if spec_eq bs.spec old.spec
      then []
      else field_error immutable "spec" (codes "spec is immutable") ∷ [])
    ++ elim hooks.client [
      | some listed ↦
          name_errors session_meta (λ item. codes "name must be unique cluster-wide")
            (session_meta bs) listed
      | none ↦ []
    ]

-- BreakglassEscalation.ValidateCreate and ValidateUpdate
pub validate_escalation_create : Webhooks Escalation → Escalation → List FieldError
unfolding unique_errors
validate_escalation_create hooks be =
    required_if_empty be.spec.escalated_group "spec.escalatedGroup" "escalatedGroup is required"
    ++ unique_errors escalation_meta (escalation_meta be) hooks

pub validate_escalation_update : Webhooks Escalation → Escalation → List FieldError
unfolding unique_errors
validate_escalation_update hooks be = unique_errors escalation_meta (escalation_meta be) hooks

-- ClusterConfig.ValidateCreate and ValidateUpdate
pub validate_cluster_create : Webhooks ClusterConfig → ClusterConfig → List FieldError
unfolding unique_errors
validate_cluster_create hooks cc =
    (if is_empty cc.spec.kubeconfig_secret_ref.name
        || is_empty cc.spec.kubeconfig_secret_ref.namespace
      then field_error required "spec.kubeconfigSecretRef"
          (codes "kubeconfigSecretRef name and namespace are required")
        ∷ []
      else [])
    ++ unique_errors cluster_meta (cluster_meta cc) hooks

pub validate_cluster_update : Webhooks ClusterConfig → ClusterConfig → List FieldError
unfolding unique_errors
validate_cluster_update hooks cc = unique_errors cluster_meta (cluster_meta cc) hooks
