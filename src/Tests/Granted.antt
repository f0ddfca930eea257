-- ===== src/Tests/Granted.antt =====
-- Over the sample hub: Bob approves Ann's request, Ann withdraws it, and a round of the cleanup.
use telekom_k8s_breakglass.Prelude.{
  ℕ, ◌<◌, ◌≤◌, ◌+◌, true, false, List, [], ◌∷◌, Str, codes, map, keep, In, here, there, In-cons,
  not_In-nil, AllDistinct, contains, contains-of_In, str_eq, false≢true, subst, sym, ap, ok, ◌≡◌,
  ◌≢◌, refl, inl, inr, arith,
}
use telekom_k8s_breakglass.Api.Session.{Session, ConditionType, condition_eq, approve}
use telekom_k8s_breakglass.Kube.Store.{names}
use telekom_k8s_breakglass.Env.{Env}
use telekom_k8s_breakglass.Session.{default_valid_for, default_retain_for, duration_or, last_kind}
use telekom_k8s_breakglass.Session.Endpoints.{approves, withdraws}
use telekom_k8s_breakglass.Session.Lifecycle.Handled.{handle}
use telekom_k8s_breakglass.Session.Review.Outcome.{approve_iff}
use telekom_k8s_breakglass.Approval.{is_session_approver}
use telekom_k8s_breakglass.Tasks.{cleanup_round}
use telekom_k8s_breakglass.Tasks.Round.{view, unversioned, after_timeout, after_expiry}
use telekom_k8s_breakglass.Tasks.Settled.{
  stays, IsSettled, IsQuiet, cleanup_round-refines, cleanup_round-settles,
}
use telekom_k8s_breakglass.Webhook.Sessions.{UserAccess, get_user_groups_and_sessions}
use telekom_k8s_breakglass.Webhook.Granted.{webhook_at, ended-not_counted}
use telekom_k8s_breakglass.Webhook.Granted.Allowed.{IsAnswerable, IsGranted, approved-IsAllowed}
use telekom_k8s_breakglass.Webhook.Env.{WebhookEnv}
use telekom_k8s_breakglass.Webhook.Authorize.{action_of, handle_authorize}
use telekom_k8s_breakglass.Webhook.Authorize.Sound.{IsAllowed}
use telekom_k8s_breakglass.Api.Policy.{DenyRule}
use telekom_k8s_breakglass.Policy.Rules.{Lists, contains_iff}
use telekom_k8s_breakglass.Policy.First.{Denies}
use telekom_k8s_breakglass.Tests.Samples.{
  Store, request, running, env, webhook, ann, bob, reading, reading_review, no_delete,
}
use telekom_k8s_breakglass.Tests.Hub.{hub, hub-IsStore}

abbrev other : Session
other = record running { name = codes "s" }

abbrev store : Store
store = request ∷ other ∷ []

abbrev api : Env Store
api = record env { kube = hub }

distinct : AllDistinct (names store)
distinct =
    (λ m. elim (In-cons m) [ inl e ↦ absurd (cc) | inr n ↦ not_In-nil n ], (λ m. not_In-nil m, tt))

cleanup_round-refines_example :
    view (cleanup_round hub 60 60 60 store)
    ≡ keep (stays hub 60) (map (after_expiry 60) (map (after_timeout 60) (view store)))
cleanup_round-refines_example = cleanup_round-refines hub-IsStore 60 60 60 store distinct

cleanup_round-settles_example :
    ((s : Session) → In s (cleanup_round hub 60 60 60 store) → IsSettled hub 60 60 60 s)
    × ((s : Session)
        → In s store
        → IsQuiet hub 60 60 60 s
        → In (unversioned s) (view (cleanup_round hub 60 60 60 store)))
cleanup_round-settles_example = cleanup_round-settles hub-IsStore 60 60 60 store distinct

approver_bob : is_session_approver api bob request store ≡ true
unfolding is_session_approver telekom_k8s_breakglass.Env.get_email
    telekom_k8s_breakglass.Approval.approver_groups
    telekom_k8s_breakglass.Escalations.get_cluster_escalations telekom_k8s_breakglass.Prelude.keep
    telekom_k8s_breakglass.Escalations.cluster_match telekom_k8s_breakglass.Prelude.contains
    telekom_k8s_breakglass.Prelude.str_eq telekom_k8s_breakglass.Approval.escalation_approves
    telekom_k8s_breakglass.Approval.effective_block_self
    telekom_k8s_breakglass.Approval.effective_allowed_domains
approver_bob = refl

abbrev last_blank_kind : ConditionType
last_blank_kind = last_kind request.status.conditions

last_blank : condition_eq last_blank_kind approve ≡ false
unfolding last_kind
last_blank = refl

approval_accepted : (handle api approves bob request store).0.code ≡ 200
unfolding telekom_k8s_breakglass.Session.Manager.update_session_status
approval_accepted = (approve_iff api bob request store).1 (last_blank, refl, approver_bob, refl)

time_left :
    20 < api.now + duration_or api.parse_duration default_valid_for request.spec.max_valid_for
unfolding duration_or
time_left = omega arith

time_kept : 20 ≤ api.now + duration_or api.parse_duration default_retain_for request.spec.retain_for
unfolding duration_or
time_kept = omega arith

-- The target cluster allows what is asked for the group `ops`, but not the review without a name.
abbrev pub target : WebhookEnv Store (Unit {0})
target = record webhook {
  self_review = λ rc user groups ra w. ok false;
  subject_review = λ rc user groups ra w. ok (contains groups (codes "ops"));
}

reading_undenied :
    (tenant session : Str)
    → ¬ Denies str_eq no_delete (action_of reading (codes "c1") tenant session)
unfolding contains str_eq telekom_k8s_breakglass.Policy.contains
reading_undenied tenant session d =
    let (r, m, b) = d.rule in
    elim (In-cons m) [
      | inr n ↦ not_In-nil n
      | inl e ↦ false≢true (
          (contains_iff (codes "delete" ∷ []) (codes "get")).1
            (subst (λ (r : DenyRule). Lists r.verbs (codes "get")) (sym e) b.by_verb))
    ]

pub answerable :
    (w : Store) → IsAnswerable hub target reading_review reading tt (codes "c1") w (no_delete ∷ [])
answerable w = record {
  attributes = refl;
  policies = refl;
  none_denies = λ tenant session p m d. elim (In-cons m) [
    | inr n ↦ not_In-nil n
    | inl e ↦
        reading_undenied tenant session
          (subst (λ q. Denies str_eq q (action_of reading (codes "c1") tenant session)) (sym e) d)
  ];
  listed = (_, refl);
  configured = refl;
  client = refl;
  answers = λ groups. (false, refl);
}

pub granted : (w : Store) → IsGranted target tt reading (codes "ops") w
unfolding contains str_eq
granted w = refl

approved-IsAllowed_example : IsAllowed (
    handle_authorize
      (webhook_at api target 20)
      (codes "c1")
      (ok reading_review)
      (handle api approves bob request store).1)
approved-IsAllowed_example =
    approved-IsAllowed api target hub-IsStore bob request store 20 reading_review reading tt
      (no_delete ∷ []) (here refl) distinct approval_accepted time_left time_kept refl
      (answerable _) (granted [])

withdrawal_accepted : (handle api withdraws ann request store).0.code ≡ 200
unfolding telekom_k8s_breakglass.Session.Owner.withdraw telekom_k8s_breakglass.Env.get_email
    telekom_k8s_breakglass.Prelude.str_eq telekom_k8s_breakglass.Session.is_session_pending_approval
    telekom_k8s_breakglass.Session.Manager.update_session_status
withdrawal_accepted = refl

abbrev counted : UserAccess
counted = record { groups = codes "ops" ∷ []; sessions = other ∷ []; tenant = [] }

still_counted :
    get_user_groups_and_sessions
      (webhook_at api webhook 20)
      (codes "ann")
      (codes "c1")
      (handle api withdraws ann request store).1
    ≡ ok counted
unfolding get_user_groups_and_sessions
    telekom_k8s_breakglass.Session.Manager.get_sessions_with_selector keep
    telekom_k8s_breakglass.Session.Owner.withdraw telekom_k8s_breakglass.Env.get_email
    telekom_k8s_breakglass.Prelude.str_eq telekom_k8s_breakglass.Session.is_session_pending_approval
    telekom_k8s_breakglass.Session.Manager.update_session_status
    telekom_k8s_breakglass.Prelude.contains telekom_k8s_breakglass.Indices.session_index
    telekom_k8s_breakglass.Webhook.Sessions.counts
still_counted = refl

ended-not_counted_example : other.name ≢ request.name
ended-not_counted_example =
    ended-not_counted api webhook hub-IsStore withdraws ann request store 20 (codes "ann")
      (codes "c1") counted other (λ e. cc) (omega arith) (here refl) distinct withdrawal_accepted
      still_counted (here refl)
