-- ===== src/Escalations/Listing.antt =====
-- pkg/breakglass/escalation_controller.go: handleGetEscalations. The fields that
-- dropK8sInternalFieldsEscalationList clears are not part of the model.
use telekom_k8s_breakglass.Prelude.{
  List, [], ◌∷◌, Str, codes, map, is_empty, str_eq, none, some, if◌then◌else◌, Result, ok, err,
  Result-cases, ok-injective, ok-ne-err, ◌>>=◌, ◌≡◌, refl, sym, inl, inr, In, here, there, In-cons,
  In-cast, not_In-nil, In-map, In-keep, Bool-cases, subst, All, All-at,
}
use telekom_k8s_breakglass.Api.Escalation.{Escalation}
use telekom_k8s_breakglass.Kube.{Kube}
use telekom_k8s_breakglass.Http.{Response, Body, json}
use telekom_k8s_breakglass.Env.{Env, Context, get_email}
use telekom_k8s_breakglass.Escalations.{
  strip_oidc_prefixes, prefixes_of, group_match, put, indexed, add_matching, add_groups,
  get_group_escalations, get_escalations_with_filter,
}
use telekom_k8s_breakglass.Escalations.Filter.{Admits, group_match_iff}

module _ {W : Type 0} (env : Env W) where
  -- The caller's groups: the token's, or those of the look-up without a cluster if it has none, without
  -- their configured prefixes.
  pub caller_groups : Context → Str → W → Result (List Str)
  caller_groups c email w =
      let token : List Str = elim c.groups [ none ↦ [] | some arr ↦ arr ] in
      do
        groups ← (if is_empty token then env.get_user_groups email [] w else ok token)
        ok (strip_oidc_prefixes groups (prefixes_of env.config))

  -- handleGetEscalations
  pub handle_get_escalations : Context → W → Response
  unfolding caller_groups
  handle_get_escalations c w = elim (get_email c) [
    | err e ↦ json 500 (Body.text (codes "failed to extract user identity"))
    | ok email ↦ elim (caller_groups c email w) [
      | err e ↦ json 500 (Body.text (codes "failed to extract user groups"))
      | ok groups ↦ elim (get_group_escalations env.kube env.config groups w) [
        | err e ↦ json 500 (Body.text (codes "failed to extract user escalations"))
        | ok escalations ↦ json 200 (Body.escalations escalations)
      ]
    ]
  ]

module _ {W : Type 0} (kube : Kube W) (config : Result (List Str)) (groups : List Str) where
  abbrev Fits : Str × Escalation → Type 0
  Fits entry = Admits (prefixes_of config) groups entry.1

  Fits-put :
      (key : Str) (it : Escalation) (m : List (Str × Escalation))
      → Fits (key, it)
      → All Fits m
      → All Fits (put key it m)
  unfolding put
  Fits-put key it [] f a = (f, tt)
  Fits-put key it ((k, e) ∷ m) f (b, a) = elim (Bool-cases (str_eq k key)) [
    | inl q ↦ rw q (f, a)
    | inr q ↦ rw q (b, Fits-put key it m f a)
  ]

  Fits-add_matching :
      {g : Str} (items : List Escalation) (m : List (Str × Escalation))
      → In g groups
      → All Fits m
      → All Fits (add_matching kube config g items m)
  unfolding add_matching
  Fits-add_matching [] m i a = a
  Fits-add_matching {g} (it ∷ items) m i a =
      elim (Bool-cases (group_match (prefixes_of config) (g ∷ []) it)) [
        | inr q ↦ rw q (Fits-add_matching items m i a)
        | inl q ↦
            let (h, n, k) = (group_match_iff (prefixes_of config) (g ∷ []) it).0 q in
            let same : g ≡ h = elim (In-cons n) [
              | inl e ↦ e
              | inr none_left ↦ not_In-nil none_left
            ] in
            rw q (Fits-add_matching items _ i (Fits-put _ it m (g, i, In-cast (sym same) k) a))
      ]

  Fits-add_groups :
      (gs : List Str) (w : W) (m : List (Str × Escalation))
      → ((g : Str) → In g gs → In g groups)
      → All Fits m
      → All Fits (add_groups kube config gs w m)
  unfolding add_groups
  Fits-add_groups [] w m i a = a
  Fits-add_groups (g ∷ gs) w m i a =
      Fits-add_groups gs w _ (λ h n. i h (there n))
        (Fits-add_matching (indexed kube config (codes "spec.allowed.group") g w) m
          (i g (here refl)) a)

  -- Each escalation that GetGroupBreakglassEscalations returns admits one of the groups, whatever the
  -- index gives for them.
  pub get_group_escalations_sound :
      (w : W) (out : List Escalation)
      → get_group_escalations kube config groups w ≡ ok out
      → (be : Escalation) → In be out
      → Admits (prefixes_of config) groups be
  unfolding get_group_escalations get_escalations_with_filter
  get_group_escalations_sound w out h be i =
      elim (Bool-cases (is_empty (map (λ entry. entry.1) (add_groups kube config groups w [])))) [
        | inl q ↦ elim (Result-cases (kube.list_escalations w)) [
          | inr (x, e) ↦ absurd (ok-ne-err (sym (rw (q, e) at h)))
          | inl (items, e) ↦
              let same = ok-injective (rw (q, e) at h) in
              (group_match_iff (prefixes_of config) groups be).0
                (In-keep _ items (subst (In be) (sym same) i)).1
        ]
        | inr q ↦
            let same = ok-injective (rw q at h) in
            let (entry, n, e) =
              In-map (λ (entry : Str × Escalation). entry.1) (add_groups kube config groups w [])
                (subst (In be) (sym same) i) in
            subst (Admits (prefixes_of config) groups) e
              (All-at Fits _ (Fits-add_groups groups w [] (λ g n. n) tt) n)
      ]
