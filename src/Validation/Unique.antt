-- ===== src/Validation/Unique.antt =====
-- The uniqueness of names that the validators check.
use telekom_k8s_breakglass.Prelude.{
  Bool, true, false, not, ◌&&◌, List, [], ◌∷◌, Str, find, find-none_iff, str_eq, str_eq_iff, none,
  some, Option-cases, ok, err, In, In-cons, ◌≡◌, ◌≢◌, ◌↔◌, ◌⊎◌, inl, inr, refl, sym, ap, ◌∙◌, arith,
  Bool-cases, false≢true,
}
use telekom_k8s_breakglass.Validation.{
  FieldError, Webhooks, Meta, conflicts, name_errors, unique_errors, conflicting_namespace,
}

module _ {A : Type 0} (meta : A → Meta) where
  -- Whatever item has the name is in the same namespace.
  abbrev pub IsUniqueIn : Meta → List A → Type 0
  IsUniqueIn m items =
      (item : A) → In item items → (meta item).name ≡ m.name → (meta item).namespace ≡ m.namespace

  -- No name occurs in two namespaces.
  abbrev pub UniqueNames : List A → Type 0
  UniqueNames items = (a : A) → In a items → IsUniqueIn (meta a) items

  -- What the check lists: the cache's items, or the client's where there is no cache.
  abbrev pub Lists : Webhooks A → List A → Type 0
  Lists hooks items =
      (hooks.cache ≡ some (ok items)) ⊎ ((hooks.cache ≡ none) × (hooks.client ≡ some (ok items)))

  conflicts-false_iff :
      (m : Meta) (item : A)
      → (conflicts meta m item ≡ false)
        ↔ ((meta item).name ≡ m.name → (meta item).namespace ≡ m.namespace)
  unfolding conflicts
  conflicts-false_iff m item = (
    λ h e. elim (Bool-cases (str_eq (meta item).namespace m.namespace)) [
      | inl q ↦ (str_eq_iff _ _).0 q
      | inr q ↦ absurd (false≢true (sym h ∙ both ((str_eq_iff _ _).1 e) q))
    ],
    λ h. elim (Bool-cases (str_eq (meta item).name m.name)) [
      | inr q ↦ rw q refl
      | inl q ↦ rw (q, (str_eq_iff _ _).1 (h ((str_eq_iff _ _).0 q))) refl
    ],
  )
    where
      both : {a b : Bool} → a ≡ true → b ≡ false → (a && not b) ≡ true
      both p q = ground arith

  pub name_errors_iff :
      (message : A → Str) (m : Meta) (items : List A)
      → (name_errors meta message m (ok items) ≡ []) ↔ IsUniqueIn m items
  unfolding name_errors
  name_errors_iff message m items = (
    λ h. elim (Option-cases (find (conflicts meta m) items)) [
      | inl e ↦ λ item i. (conflicts-false_iff m item).0 ((find-none_iff _ items).0 e item i)
      | inr (item, e) ↦ absurd (cons-ne-nil (rw (name_errors, e) at h))
    ],
    λ u.
        rw
          (
            name_errors,
            (find-none_iff (conflicts meta m) items).1
                (λ item i. (conflicts-false_iff m item).1 (u item i)),
          )
          refl,
  )
    where
      cons-ne-nil : {x : FieldError} {xs : List FieldError} → (x ∷ xs) ≢ []
      cons-ne-nil q = cc

  pub unique_errors_iff :
      (m : Meta) (hooks : Webhooks A) (items : List A)
      → Lists hooks items
      → (unique_errors meta m hooks ≡ []) ↔ IsUniqueIn m items
  unfolding unique_errors
  unique_errors_iff m hooks items (inl e) =
      rw (unique_errors, e) (name_errors_iff (conflicting_namespace meta) m items)
  unique_errors_iff m hooks items (inr (n, e)) =
      rw (unique_errors, n, e) (name_errors_iff (conflicting_namespace meta) m items)

  -- A listing that fails in the cache lets every name pass.
  pub unique_errors-failed :
      (m : Meta) (hooks : Webhooks A) (e : Str)
      → hooks.cache ≡ some (err e)
      → unique_errors meta m hooks ≡ []
  unfolding unique_errors
  unique_errors-failed m hooks e h = rw (unique_errors, h, name_errors) refl

  -- Names stay unique when an item is added whose name is unique.
  pub UniqueNames-cons :
      (x : A) (items : List A)
      → IsUniqueIn (meta x) items
      → UniqueNames items
      → UniqueNames (x ∷ items)
  UniqueNames-cons x items u all a i b j e = elim (In-cons i) [
    | inl p ↦ elim (In-cons j) [
      | inl q ↦ ap (λ y. (meta y).namespace) (sym q ∙ p)
      | inr j' ↦ u b j' (e ∙ sym (ap (λ y. (meta y).name) p)) ∙ ap (λ y. (meta y).namespace) p
    ]
    | inr i' ↦ elim (In-cons j) [
      | inl q ↦
          sym (u a i' (sym e ∙ sym (ap (λ y. (meta y).name) q)) ∙ ap (λ y. (meta y).namespace) q)
      | inr j' ↦ all a i' b j' e
    ]
  ]
