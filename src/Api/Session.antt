-- ===== src/Api/Session.antt =====
-- api/v1alpha1/breakglass_session_types.go: the BreakglassSession resource.
use telekom_k8s_breakglass.Prelude.{ℕ, Bool, List, Str, Option, ◌==◌}

-- metav1.Time in nanoseconds since January 1, year 1 UTC, which is the zero time: `IsZero` is `== 0`.
abbrev pub Time : Type 0
Time = ℕ

abbrev pub is_zero : Time → Bool
is_zero t = t == 0

-- BreakglassSessionState. `unset` is the empty string of an object whose status was not written.
pub data SessionState : Type 0 where
  unset pending approved rejected expired withdrawn timeout : SessionState

abbrev pub state_tag : SessionState → ℕ
state_tag SessionState.unset = 0
state_tag SessionState.pending = 1
state_tag SessionState.approved = 2
state_tag SessionState.rejected = 3
state_tag SessionState.expired = 4
state_tag SessionState.withdrawn = 5
state_tag SessionState.timeout = 6

-- `a == b` of two states.
abbrev pub state_eq : SessionState → SessionState → Bool
state_eq a b = state_tag a == state_tag b

-- BreakglassSessionConditionType. `none_yet` is the empty type of a zero `metav1.Condition`.
pub data ConditionType : Type 0 where
  none_yet idle approve reject expire cancel : ConditionType

abbrev pub condition_tag : ConditionType → ℕ
condition_tag ConditionType.none_yet = 0
condition_tag ConditionType.idle = 1
condition_tag ConditionType.approve = 2
condition_tag ConditionType.reject = 3
condition_tag ConditionType.expire = 4
condition_tag ConditionType.cancel = 5

abbrev pub condition_eq : ConditionType → ConditionType → Bool
condition_eq a b = condition_tag a == condition_tag b

-- metav1.Condition; `Status` is `True` wherever the program writes one.
pub record Condition : Type 0 where
  pub kind : ConditionType
  pub last_transition : Time
  pub reason : Str
  pub message : Str

-- metav1.OwnerReference: the fields that the program reads.
pub record OwnerReference : Type 0 where
  pub kind : Str
  pub name : Str
  pub uid : Str

-- `DenyPolicyRefs` is none for a nil slice.
pub record SessionSpec : Type 0 where
  pub cluster : Str
  pub user : Str
  pub granted_group : Str
  pub idle_timeout : Str
  pub max_valid_for : Str
  pub retain_for : Str
  pub cluster_config_ref : Str
  pub deny_policy_refs : Option (List Str)
  pub request_reason : Str

-- BreakglassSessionStatus, less `IdleUntil` and `LastUsed`, which nothing reads or writes.
pub record SessionStatus : Type 0 where
  pub conditions : List Condition
  pub approved_at : Time
  pub rejected_at : Time
  pub expires_at : Time
  pub timeout_at : Time
  pub retained_until : Time
  pub state : SessionState
  pub approver : Str
  pub approvers : List Str
  pub approval_reason : Str
  pub reason_ended : Str

-- The labels that the program writes.
pub record SessionLabels : Type 0 where
  pub cluster_label : Str
  pub user_label : Str
  pub group_label : Str

pub record Session : Type 0 where
  pub name : Str
  pub generate_name : Str
  pub namespace : Str
  pub resource_version : Str
  pub labels : SessionLabels
  pub spec : SessionSpec
  pub status : SessionStatus
  pub owner_references : List OwnerReference
