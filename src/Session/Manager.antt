-- ===== src/Session/Manager.antt =====
-- pkg/breakglass/session_manager.go.
use telekom_k8s_breakglass.Prelude.{
  List, [], ◌∷◌, ◌++◌, Str, String, codes, is_empty, Result, ok, err, wrap, ◌>>=◌, if◌then◌else◌,
}
use telekom_k8s_breakglass.Api.Session.{Session}
use telekom_k8s_breakglass.Kube.{Kube, Selector, Written}

-- `strings.Join(selectors, ",")`
pub join_comma : List Str → Str
join_comma [] = []
join_comma (s ∷ []) = s
join_comma (s ∷ t ∷ ss) = s ++ codes "," ++ join_comma (t ∷ ss)

abbrev pub term : String → Str → List Str
term field value = if is_empty value then [] else (codes field ++ codes "=" ++ value) ∷ []

-- SessionSelector
unfoldable session_selector : Str → Str → Str → Str → Str
unfolding join_comma
session_selector name username cluster group =
    if is_empty name
    then join_comma
        (term "spec.user" username ++ term "spec.cluster" cluster ++ term "spec.grantedGroup" group)
    else codes "metadata.name=" ++ name

-- The three cases of the fallback's result. The error texts, which are only logged, are shortened.
unfoldable pub single_session : List Session → Result Session
single_session [] = err (codes "failed to get BreakglassSession by name: not found")
single_session (found ∷ []) = ok found
single_session (found ∷ other ∷ rest) =
    err (codes "multiple BreakglassSessions with the name found")

module _ {W : Type 0} (kube : Kube W) where
  unfoldable pub get_all_sessions : W → Result (List Session)
  get_all_sessions w = wrap "failed to get BreakglassSessionList" (kube.list_sessions w)

  -- GetBreakglassSessionByName: the direct read, or the one session of that name in any namespace.
  unfoldable pub get_session_by_name : Str → W → Result Session
  unfolding single_session
  get_session_by_name name w = elim (kube.get_session name w) [
    | ok bs ↦ ok bs
    | err e ↦
        (wrap "failed to create field selector"
            (kube.parse_selector (codes "metadata.name=" ++ name))
          >>= λ fs.
              wrap "failed to list BreakglassSessionList for fallback lookup"
                (kube.select_sessions fs w)
              >>= λ items. single_session items)
  ]

  pub get_sessions_with_selector_string : Str → W → Result (List Session)
  get_sessions_with_selector_string selector w = do
    fs ← wrap "failed to create field selector" (kube.parse_selector selector)
    wrap "failed to list BreakglassSessionList with string selector" (kube.select_sessions fs w)

  unfoldable pub get_sessions_with_selector : Selector → W → Result (List Session)
  get_sessions_with_selector fs w =
      wrap "failed to list BreakglassSessionList with selector" (kube.select_sessions fs w)

  -- GetClusterUserBreakglassSessions
  unfoldable get_cluster_user_sessions : Str → Str → W → Result (List Session)
  unfolding get_sessions_with_selector_string
  get_cluster_user_sessions cluster user w =
      elim (kube.select_sessions ((codes "spec.cluster", cluster) ∷ (codes "spec.user", user) ∷ [])
        w) [
          | ok items ↦ ok items
          | err e ↦
              get_sessions_with_selector_string
                (codes "spec.cluster=" ++ cluster ++ codes ",spec.user=" ++ user) w
        ]

  unfoldable pub add_session : Session → W → Written W
  add_session bs w =
      let (r, w') = kube.create_session bs w in
      (wrap "failed to create new BreakglassSession" r, w')

  pub update_session : Session → W → Written W
  update_session bs w =
      let (r, w') = kube.update_session bs w in
      (wrap "failed to update new BreakglassSession" r, w')

  unfoldable pub update_session_status : Session → W → Written W
  update_session_status bs w =
      let (r, w') = kube.update_session_status bs w in
      (wrap "failed to update new BreakglassSession" r, w')

  unfoldable pub delete_session : Session → W → Written W
  delete_session bs w =
      let (r, w') = kube.delete_session bs w in (wrap "failed to delete breakglass session" r, w')
