-- ===== src/Validation/Admitted.antt =====
-- What the validators admit.
use telekom_k8s_breakglass.Prelude.{
  Bool, true, false, ◌||◌, List, [], ◌∷◌, ◌++◌, Str, is_empty, str_eq_iff, Option, none, some,
  some-eq, ok, err, ◌≡◌, ◌≢◌, ◌↔◌, inl, inr, refl, sym, ap, ◌∙◌, arith, Bool-cases, false≢true,
  and_iff, if◌then◌else◌,
}
use telekom_k8s_breakglass.Api.Session.{Session, SessionSpec}
use telekom_k8s_breakglass.Api.Cluster.{ClusterConfig}
use telekom_k8s_breakglass.Validation.{
  FieldError, Webhooks, session_meta, cluster_meta, session_required, validate_session_create,
  list_eq, slice_eq, spec_eq, validate_session_update, validate_cluster_create,
}
use telekom_k8s_breakglass.Validation.Unique.{
  IsUniqueIn, UniqueNames, Lists, name_errors_iff, unique_errors_iff, unique_errors-failed,
  UniqueNames-cons,
}

abbrev HasRequired : Session → Type 0
HasRequired bs = (bs.spec.cluster ≢ []) × (bs.spec.user ≢ []) × (bs.spec.granted_group ≢ [])

nonempty_iff : (s : Str) → (is_empty s ≡ false) ↔ (s ≢ [])
nonempty_iff [] = (λ h. absurd (false≢true (sym h)), λ h. absurd (h refl))
nonempty_iff (c ∷ s) = (λ _ q. cc, λ _. refl)

append-nil_iff : (xs ys : List FieldError) → ((xs ++ ys) ≡ []) ↔ ((xs ≡ []) × (ys ≡ []))
append-nil_iff [] ys = (λ h. (refl, h), λ (_, h). h)
append-nil_iff (x ∷ xs) ys = (λ h. cc, λ (h, _). cc)

session_required_iff : (bs : Session) → (session_required bs ≡ []) ↔ HasRequired bs
unfolding session_required
session_required_iff bs = (
  λ h.
      let (c, u, g) = blank.0 h in
      ((nonempty_iff _).0 c, (nonempty_iff _).0 u, (nonempty_iff _).0 g),
  λ (c, u, g). blank.1 ((nonempty_iff _).1 c, (nonempty_iff _).1 u, (nonempty_iff _).1 g),
)
  where
    blank : (session_required bs ≡ []) ↔ (
        (is_empty bs.spec.cluster ≡ false)
        × (is_empty bs.spec.user ≡ false)
        × (is_empty bs.spec.granted_group ≡ false))
    blank = (ground arith, ground arith)

list_eq_iff : (xs ys : List Str) → (list_eq xs ys ≡ true) ↔ (xs ≡ ys)
unfolding list_eq
list_eq_iff [] [] = (λ _. refl, λ _. refl)
list_eq_iff [] (y ∷ ys) = (λ h. cc, λ h. cc)
list_eq_iff (x ∷ xs) [] = (λ h. cc, λ h. cc)
list_eq_iff (x ∷ xs) (y ∷ ys) =
    let (to, from) = and_iff (str_eq_iff x y) (list_eq_iff xs ys) in
    (λ h. let (p, q) = to h in cc, λ e. from (head e, tail e))
  where
    head : {a b : Str} {s t : List Str} → (a ∷ s) ≡ (b ∷ t) → a ≡ b
    head q = cc

    tail : {a b : Str} {s t : List Str} → (a ∷ s) ≡ (b ∷ t) → s ≡ t
    tail q = cc

slice_eq_iff : (a b : Option (List Str)) → (slice_eq a b ≡ true) ↔ (a ≡ b)
unfolding slice_eq
slice_eq_iff none none = (λ _. refl, λ _. refl)
slice_eq_iff none (some ys) = (λ h. cc, λ h. cc)
slice_eq_iff (some xs) none = (λ h. cc, λ h. cc)
slice_eq_iff (some xs) (some ys) =
    (λ h. ap some ((list_eq_iff xs ys).0 h), λ e. (list_eq_iff xs ys).1 (some-eq e))

spec_eq_iff : (a b : SessionSpec) → (spec_eq a b ≡ true) ↔ (a ≡ b)
unfolding spec_eq
spec_eq_iff a b =
    let (to, from) = and_iff (str_eq_iff a.cluster b.cluster) (
      and_iff (str_eq_iff a.user b.user) (
        and_iff (str_eq_iff a.granted_group b.granted_group) (
          and_iff (str_eq_iff a.idle_timeout b.idle_timeout) (
            and_iff (str_eq_iff a.max_valid_for b.max_valid_for) (
              and_iff (str_eq_iff a.retain_for b.retain_for) (
                and_iff (str_eq_iff a.cluster_config_ref b.cluster_config_ref) (
                  and_iff (slice_eq_iff a.deny_policy_refs b.deny_policy_refs)
                    (str_eq_iff a.request_reason b.request_reason)))))))) in
    (
      λ h. let (c, (u, (g, (i, (m, (r, (f, (d, q)))))))) = to h in cc,
      λ e. from (
        ap (λ s. s.cluster) e,
        (
          ap (λ s. s.user) e,
          (
            ap (λ s. s.granted_group) e,
            (
              ap (λ s. s.idle_timeout) e,
              (
                ap (λ s. s.max_valid_for) e,
                (
                  ap (λ s. s.retain_for) e,
                  (
                    ap (λ s. s.cluster_config_ref) e,
                    (ap (λ s. s.deny_policy_refs) e, ap (λ s. s.request_reason) e),
                  ),
                ),
              ),
            ),
          ),
        ),
      ),
    )

-- When the sessions are listed, ValidateCreate admits a session exactly when it names a cluster, a user
-- and a granted group, and no listed session of its name is in another namespace.
pub validate_session_create_iff :
    (hooks : Webhooks Session) (items : List Session) (bs : Session)
    → Lists session_meta hooks items
    → (validate_session_create hooks bs ≡ [])
      ↔ (HasRequired bs × IsUniqueIn session_meta (session_meta bs) items)
unfolding validate_session_create
validate_session_create_iff hooks items bs listed =
    let unique = unique_errors_iff session_meta (session_meta bs) hooks items listed in
    (
      λ h. elim (Bool-cases (is_empty (session_required bs))) [
        | inl e ↦ (
          (session_required_iff bs).0 (nil-of_empty _ e),
          unique.0 (rw (validate_session_create, e) at h),
        )
        | inr e ↦ absurd (false≢true (sym e ∙ ap is_empty (rw (validate_session_create, e) at h)))
      ],
      λ (r, u). rw (validate_session_create, (session_required_iff bs).1 r) (unique.1 u),
    )
  where
    nil-of_empty : (xs : List FieldError) → is_empty xs ≡ true → xs ≡ []
    nil-of_empty [] h = refl
    nil-of_empty (x ∷ xs) h = cc

-- When webhookClient lists the sessions, ValidateUpdate admits an update exactly when it keeps the
-- specification and no listed session of its name is in another namespace.
pub validate_session_update_iff :
    (hooks : Webhooks Session) (items : List Session) (bs old : Session)
    → hooks.client ≡ some (ok items)
    → (validate_session_update hooks bs old ≡ [])
      ↔ ((bs.spec ≡ old.spec) × IsUniqueIn session_meta (session_meta bs) items)
unfolding validate_session_update
validate_session_update_iff hooks items bs old e =
    let unique = name_errors_iff session_meta _ (session_meta bs) items in
    rw (validate_session_update, e)
      (
        λ h. let (p, q) = (append-nil_iff _ _).0 h in ((spec_eq_iff _ _).0 (kept _ p), unique.0 q),
        λ (s, u). (append-nil_iff _ _).1 (none_if _ s, unique.1 u),
      )
  where
    kept :
        (x : FieldError)
        → (if spec_eq bs.spec old.spec then [] else x ∷ []) ≡ []
        → spec_eq bs.spec old.spec ≡ true
    kept x h = ground arith

    none_if :
        (x : FieldError)
        → bs.spec ≡ old.spec
        → (if spec_eq bs.spec old.spec then [] else x ∷ []) ≡ []
    none_if x e = rw ((spec_eq_iff bs.spec old.spec).1 e) refl

-- Where no name of the stored sessions occurs in two namespaces and the check lists them, adding a
-- session that ValidateCreate admits keeps it so.
pub validate_session_create-UniqueNames :
    (hooks : Webhooks Session) (items : List Session) (bs : Session)
    → Lists session_meta hooks items
    → UniqueNames session_meta items
    → validate_session_create hooks bs ≡ []
    → UniqueNames session_meta (bs ∷ items)
validate_session_create-UniqueNames hooks items bs listed unique h =
    UniqueNames-cons session_meta bs items
      ((validate_session_create_iff hooks items bs listed).0 h).1 unique

-- A listing that fails in the cache lets ValidateCreate admit every session that names a cluster, a
-- user and a granted group, also under a name that is taken in another namespace.
pub failed_listing-admits :
    (hooks : Webhooks Session) (e : Str) (bs : Session)
    → hooks.cache ≡ some (err e)
    → bs.spec.cluster ≢ []
    → bs.spec.user ≢ []
    → bs.spec.granted_group ≢ []
    → validate_session_create hooks bs ≡ []
unfolding validate_session_create
failed_listing-admits hooks e bs h c u g =
    rw (validate_session_create, (session_required_iff bs).1 (c, u, g))
      (unique_errors-failed session_meta (session_meta bs) hooks e h)

-- When the ClusterConfigs are listed, ValidateCreate admits one exactly when it names a secret and its
-- namespace, and no listed ClusterConfig of its name is in another namespace.
pub validate_cluster_create_iff :
    (hooks : Webhooks ClusterConfig) (items : List ClusterConfig) (config : ClusterConfig)
    → Lists cluster_meta hooks items
    → (validate_cluster_create hooks config ≡ []) ↔ (
        (config.spec.kubeconfig_secret_ref.name ≢ [])
        × (config.spec.kubeconfig_secret_ref.namespace ≢ [])
        × IsUniqueIn cluster_meta (cluster_meta config) items)
unfolding validate_cluster_create
validate_cluster_create_iff hooks items config listed =
    let unique = unique_errors_iff cluster_meta (cluster_meta config) hooks items listed in
    let ref = config.spec.kubeconfig_secret_ref in
    (
      λ h.
          let (p, q) = (append-nil_iff _ _).0 h in
          let (n, m) = given _ _ _ p in
          ((nonempty_iff ref.name).0 n, (nonempty_iff ref.namespace).0 m, unique.0 q),
      λ (n, m, u).
          (append-nil_iff _ _).1
            (rw ((nonempty_iff ref.name).1 n, (nonempty_iff ref.namespace).1 m) refl, unique.1 u),
    )
  where
    given :
        (x : FieldError) (a b : Bool)
        → (if a || b then x ∷ [] else []) ≡ []
        → (a ≡ false) × (b ≡ false)
    given x a b h = ground arith
