-- ===== src/Kube/Store.antt =====
-- A hub cluster that stores BreakglassSessions the way the API server documents it, with every request
-- accepted that is not out of date: the hypothesis of the theorems that compose several operations.
mod Places
unfoldable pub use Places.*
use telekom_k8s_breakglass.Prelude.{
  Bool, true, ◌&&◌, List, [], ◌∷◌, ◌++◌, Str, codes, str_eq, contains, if◌then◌else◌, map, keep, In,
  here, there, In-cons, not_In-nil, map-of_In, AllDistinct, ok, err, ◌≡◌, refl, ap, sym, ◌∙◌,
  Bool-cases, inl, inr, str_eq_iff, str_eq_refl,
}
use telekom_k8s_breakglass.Api.Session.{Session}
use telekom_k8s_breakglass.Api.Escalation.{Escalation}
use telekom_k8s_breakglass.Kube.{Kube, Selector}
use telekom_k8s_breakglass.Indices.{session_index}
use telekom_k8s_breakglass.Session.Manager.{get_session_by_name}

-- A field selector on the metadata's name and the indexed fields.
abbrev pub selected : Selector → Session → Bool
selected [] s = true
selected ((field, value) ∷ sel) s =
    (if str_eq field (codes "metadata.name")
      then str_eq s.name value
      else contains (session_index field s) value)
    && selected sel s

-- What the creation of a session without a name does: it gets a new name and a resource version.
pub record IsCreated {W : Type 0} (kube : Kube W) (sessions : W → List Session) (w : W)
    (s : Session) : Type 0 where
  pub name : Str
  pub version : Str
  pub before : List Session
  pub after : List Session
  pub accepted : (kube.create_session s w).0 ≡ ok tt
  pub was : sessions w ≡ before ++ after
  pub is_now :
      sessions (kube.create_session s w).1
      ≡ before ++ record s { name = name; resource_version = version } ∷ after
  pub fresh : ¬ In name (names (sessions w))

-- `sessions w` is what the hub stores in the state `w`. A read by name that gives no namespace
-- fails; a list with a selector gives what it selects; a status update of a session as it is stored
-- replaces its status, and gives it a new resource version; a creation adds the session; a deletion
-- removes it; a write to an escalation leaves the sessions alone.
pub record IsStore {W : Type 0} (kube : Kube W) (sessions : W → List Session) : Type 0 where
  pub listed : (w : W) → kube.list_sessions w ≡ ok (sessions w)
  pub unnamespaced : (name : Str) (w : W) → (e : Str) × (kube.get_session name w ≡ err e)
  pub parsed :
      (name : Str) (w : W)
      → In name (names (sessions w))
      → kube.parse_selector (codes "metadata.name=" ++ name)
        ≡ ok ((codes "metadata.name", name) ∷ [])
  pub selects :
      (sel : Selector) (w : W) → kube.select_sessions sel w ≡ ok (keep (selected sel) (sessions w))
  pub status_updated :
      (w : W) (p q : List Session) (t s : Session)
      → sessions w ≡ p ++ t ∷ q
      → AllDistinct (names (sessions w))
      → s.name ≡ t.name
      → s.namespace ≡ t.namespace
      → s.resource_version ≡ t.resource_version
      → (version : Str) × ((kube.update_session_status s w).0 ≡ ok tt)
        × (sessions (kube.update_session_status s w).1
            ≡ p ++ record t { status = s.status; resource_version = version } ∷ q)
  pub created : (w : W) (s : Session) → s.name ≡ [] → IsCreated kube sessions w s
  pub deleted :
      (w : W) (p q : List Session) (t : Session)
      → sessions w ≡ p ++ t ∷ q
      → AllDistinct (names (sessions w))
      → ((kube.delete_session t w).0 ≡ ok tt) × (sessions (kube.delete_session t w).1 ≡ p ++ q)
  pub escalations_apart :
      (esc : Escalation) (w : W) → sessions (kube.update_escalation_status esc w).1 ≡ sessions w

abbrev by_name : Str → Session → Bool
by_name name s = str_eq s.name name && true

other_name : (name : Str) (xs : List Session) → ¬ In name (names xs) → keep (by_name name) xs ≡ []
unfolding keep
other_name name [] h = refl
other_name name (x ∷ xs) h = elim (Bool-cases (str_eq x.name name)) [
  | inl e ↦ absurd (h (here ((str_eq_iff x.name name).0 e)))
  | inr e ↦ rw e (other_name name xs (λ m. h (there m)))
]

only_name :
    (t : Session) (xs : List Session)
    → In t xs
    → AllDistinct (names xs)
    → keep (by_name t.name) xs ≡ t ∷ []
unfolding keep
only_name t [] m d = not_In-nil m
only_name t (x ∷ xs) m d = elim (In-cons m) [
  | inl e ↦ rw e (rw (str_eq_refl t.name) (ap (λ r. t ∷ r) (other_name t.name xs (rw e at d.0))))
  | inr n ↦ elim (Bool-cases (str_eq x.name t.name)) [
    | inl e ↦
        let same = (str_eq_iff x.name t.name).0 e in
        absurd (d.0 (rw (same) (map-of_In (λ (s : Session). s.name) xs n)))
    | inr e ↦ rw e (only_name t xs n d.1)
  ]
]

selects_name :
    (t : Session) (xs : List Session)
    → In t xs
    → AllDistinct (names xs)
    → keep (selected ((codes "metadata.name", t.name) ∷ [])) xs ≡ t ∷ []
unfolding str_eq
selects_name t xs m d = only_name t xs m d

module _ {W : Type 0} {kube : Kube W} {sessions : W → List Session}
    (store : IsStore kube sessions) where
  -- GetBreakglassSessionByName finds the stored session through the list over all namespaces.
  pub get_session_by_name-stored :
      (t : Session) (w : W)
      → In t (sessions w)
      → AllDistinct (names (sessions w))
      → get_session_by_name kube t.name w ≡ ok t
  unfolding get_session_by_name
  get_session_by_name-stored t w m d =
      let (x, e) = store.unnamespaced t.name w in
      rw
        (
          get_session_by_name,
          e,
          store.parsed t.name w (map-of_In (λ (s : Session). s.name) (sessions w) m),
          store.selects,
          selects_name t (sessions w) m d,
        )
        refl
