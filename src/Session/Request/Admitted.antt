-- ===== src/Session/Request/Admitted.antt =====
-- Which requests are admitted.
use telekom_k8s_breakglass.Prelude.{
  ℕ, false, List, [], ◌∷◌, ◌++◌, Str, codes, str_eq, str_eq_iff, In, here, there, none, some,
  some-eq, Option-cases, ok, Result-cases, Bool-cases, ◌≡◌, ◌≢◌, ◌⊎◌, inl, inr, refl, sym, ap, ◌∙◌,
  arith, ◌==◌,
}
use telekom_k8s_breakglass.Api.Session.{Session}
use telekom_k8s_breakglass.Api.Escalation.{Escalation}
use telekom_k8s_breakglass.Http.{Response, Body, json}
use telekom_k8s_breakglass.Env.{Env, Context, get_email}
use telekom_k8s_breakglass.Escalations.{get_cluster_group_escalations}
use telekom_k8s_breakglass.Session.Request.{
  SessionRequest, Admission, turned_away, admitted, validate_session_request,
  selected_deny_policies, matched_escalation, lacks_reason, requester_groups, get_active_session,
  admit_for, admit, existing_session,
}

matched_escalation_sound :
    (group : Str) (ps : List Escalation) (esc : Escalation)
    → matched_escalation group ps ≡ some esc
    → In esc ps × (esc.spec.escalated_group ≡ group)
unfolding matched_escalation
matched_escalation_sound group [] esc h = absurd (cc)
matched_escalation_sound group (p ∷ ps) esc h =
    elim (Bool-cases (str_eq p.spec.escalated_group group)) [
      | inl e ↦
          let q : p ≡ esc = some-eq (rw e at h) in
          (here q, ap (λ (x : Escalation). x.spec.escalated_group) (sym q) ∙ (str_eq_iff _ _).0 e)
      | inr e ↦ let (m, g) = matched_escalation_sound group ps esc (rw e at h) in (there m, g)
    ]

-- The request is admitted by this escalation: it is one of those that are open to the requester's
-- groups on the cluster, it grants the requested group, its demand for a reason is met, and the user
-- has no active session for the group on the cluster.
pub record Admits {W : Type 0} (env : Env W) (c : Context) (request : SessionRequest) (w : W)
    (esc : Escalation) : Type 0 where
  pub valid : validate_session_request request ≡ none
  pub open_to :
      (groups : List Str) × (requester_groups env c request w ≡ ok groups)
      × ((possible : List Escalation) × (get_cluster_group_escalations env.kube env.config
              request.cluster groups w
            ≡ ok possible)
          × In esc possible)
  pub grants : esc.spec.escalated_group ≡ request.group
  pub reasoned : lacks_reason esc request ≡ false
  pub no_session : get_active_session env request.user request.cluster request.group w ≡ ok none

module _ {W : Type 0} (env : Env W) (c : Context) (request : SessionRequest) (w : W) where
  -- The request is turned away, with an answer other than 201.
  abbrev pub IsTurned : Admission → Type 0
  IsTurned a = (r : Response) × (a ≡ turned_away r) × (r.code ≢ 201)

  abbrev Passes : List Escalation → Escalation → Type 0
  Passes possible esc =
      In esc possible
      × (esc.spec.escalated_group ≡ request.group)
      × (lacks_reason esc request ≡ false)
      × (get_active_session env request.user request.cluster request.group w ≡ ok none)

  turn :
      (a : Admission) (code : ℕ) (text : Str)
      → a ≡ turned_away (json code (Body.text text))
      → (code == 201) ≡ false
      → IsTurned a
  turn a code text q n = (json code (Body.text text), q, λ h. ground arith)

  abbrev asked : List Escalation → Admission
  asked possible = admit_for env c request possible w

  existing_session-code : (ses : Session) → (existing_session ses).code ≡ 409
  unfolding existing_session
  existing_session-code ses = ground arith

  admit_for-cases :
      (possible : List Escalation)
      → IsTurned (admit_for env c request possible w)
        ⊎ ((esc : Escalation) × (refs : List Str) × (admit_for env c request possible w
              ≡ admitted esc refs)
            × Passes possible esc)
  unfolding admit_for
  admit_for-cases possible = elim (Option-cases (matched_escalation request.group possible)) [
    | inl e ↦ inl (
        turn (asked possible) 401 (codes "user unauthorized for group") (rw (admit_for, e) refl)
          refl)
    | inr (p, e) ↦ elim (Bool-cases (lacks_reason p request)) [
      | inl l ↦ inl (
          turn (asked possible) 422 (codes "missing required request reason")
            (rw (admit_for, e, l) refl) refl)
      | inr l ↦
          elim (Result-cases
            (get_active_session env request.user request.cluster request.group w)) [
              | inr (x, a) ↦ inl (
                  turn (asked possible) 500
                    (codes "failed to extract breakglass session information")
                    (rw (admit_for, e, l, a) refl) refl)
              | inl (o, a) ↦ elim (Option-cases o) [
                | inr (ses, n) ↦ inl (
                  existing_session ses,
                  rw (admit_for, e, l, a, n) refl,
                  λ h. ground (arith, existing_session-code ses),
                )
                | inl n ↦ elim (Result-cases (get_email c)) [
                  | inr (x, m) ↦ inl (
                      turn (asked possible) 500 (codes "failed to extract email from token")
                        (rw (admit_for, e, l, a, n, m) refl) refl)
                  | inl (email, m) ↦
                      let (i, g) = matched_escalation_sound request.group possible p e in
                      inr (
                        p,
                        selected_deny_policies request.group possible,
                        rw (admit_for, e, l, a, n, m) refl,
                        (i, g, l, a ∙ ap ok n),
                      )
                ]
              ]
            ]
    ]
  ]

  pub admit-cases :
      IsTurned (admit env c request w)
      ⊎ ((esc : Escalation) × (refs : List Str) × (admit env c request w ≡ admitted esc refs)
          × Admits env c request w esc)
  unfolding admit
  admit-cases = elim (Option-cases (validate_session_request request)) [
    | inr (x, v) ↦ inl (
        turn (admit env c request w) 422 (codes "missing input request data: " ++ x)
          (rw (admit, v) refl) refl)
    | inl v ↦ elim (Result-cases (requester_groups env c request w)) [
      | inr (x, g) ↦ inl (
          turn (admit env c request w) 500 (codes "failed to extract user groups")
            (rw (admit, v, g) refl) refl)
      | inl (groups, g) ↦
          elim (Result-cases
            (get_cluster_group_escalations env.kube env.config request.cluster groups w)) [
              | inr (x, q) ↦ inl (
                  turn (admit env c request w) 500
                    (codes "failed to extract cluster breakglass escalation information")
                    (rw (admit, v, g, q) refl) refl)
              | inl (possible, q) ↦
                  let same : admit env c request w ≡ admit_for env c request possible w =
                    rw (admit, v, g, q) refl in
                  elim (admit_for-cases possible) [
                    | inl (r, t, n) ↦ inl (r, same ∙ t, n)
                    | inr (esc, refs, t, (i, grants, reasoned, free)) ↦ inr (
                      esc,
                      refs,
                      same ∙ t,
                      record {
                        valid = v;
                        open_to = (groups, g, (possible, q, i));
                        grants = grants;
                        reasoned = reasoned;
                        no_session = free;
                      },
                    )
                  ]
            ]
    ]
  ]
