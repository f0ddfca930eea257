-- ===== src/Auth/Groups.antt =====
-- The groups that the middleware takes from a token.
use telekom_k8s_breakglass.Prelude.{
  AllDistinct, List, [], ◌∷◌, ◌++◌, Str, is_empty, ◌==◌, none, some, some-eq, In, here, there,
  not_In-nil, ◌≡◌, ◌≢◌, ◌↔◌, inl, inr, refl, sym, ap, ◌∙◌, Bool-cases, false≢true, ==_iff,
}
use telekom_k8s_breakglass.Distinct.{collect_distinct_exact}
use telekom_k8s_breakglass.Auth.{
  Claims, raw_groups, after_last_slash, last_element, normalize_group, normalize_groups,
  identity_of,
}

-- The normalised groups are distinct, and they are exactly the normal forms of the token's groups, less
-- the empty one.
pub normalize_groups_exact :
    (groups : List Str)
    → AllDistinct (normalize_groups groups)
      × ((v : Str)
          → In v (normalize_groups groups)
            ↔ ((v ≢ []) × ((g : Str) × In g groups × (normalize_group g ≡ v))))
unfolding normalize_groups
normalize_groups_exact groups = collect_distinct_exact normalize_group groups

after_last_slash-none : (s : Str) → ¬ In b'/' s → after_last_slash s ≡ none
unfolding after_last_slash
after_last_slash-none [] h = refl
after_last_slash-none (c ∷ s) h = elim (Bool-cases (c == b'/')) [
  | inl e ↦ absurd (h (here ((==_iff c b'/').0 e)))
  | inr e ↦ rw (after_last_slash-none s (λ m. h (there m)), e) refl
]

after_last_slash-append : (p t : Str) → ¬ In b'/' t → after_last_slash (p ++ b'/' ∷ t) ≡ some t
unfolding after_last_slash
after_last_slash-append [] t h = rw (after_last_slash-none t h) refl
after_last_slash-append (c ∷ p) t h = rw (after_last_slash-append p t h) refl

-- Of a path whose last element is not empty, the middleware keeps that element only, whatever stands
-- before it: groups of different parents with the same name become the same group.
pub last_element-append : (p t : Str) → ¬ In b'/' t → t ≢ [] → last_element (p ++ b'/' ∷ t) ≡ t
unfolding last_element
last_element-append p [] h ne = absurd (ne refl)
last_element-append p (c ∷ t) h ne = rw (last_element, after_last_slash-append p (c ∷ t) h) refl

-- A path that ends with a slash is kept as a whole.
pub last_element-trailing : (p : Str) → last_element (p ++ b'/' ∷ []) ≡ p ++ b'/' ∷ []
unfolding last_element
last_element-trailing p = rw (last_element, after_last_slash-append p [] (λ m. not_In-nil m)) refl

-- Where the middleware sets the groups, there is at least one.
pub identity_of-groups :
    (claims : Claims) (gs : List Str) → (identity_of claims).groups ≡ some gs → gs ≢ []
unfolding identity_of
identity_of-groups claims gs h =
    elim (Bool-cases (is_empty (normalize_groups (raw_groups claims)))) [
      | inl e ↦ absurd (none-ne-some (rw (identity_of, e) at h))
      | inr e ↦ λ q.
          let same = some-eq (rw (identity_of, e) at h) in
          false≢true (sym e ∙ ap is_empty (same ∙ q))
    ]
  where
    none-ne-some : {a : List Str} → none ≢ some a
    none-ne-some q = cc
