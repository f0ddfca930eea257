-- ===== src/Prelude/Maps.antt =====
-- Go maps with string keys as association lists: the first entry of a key counts.
use mathlib.Core.Path.{◌≡◌, ◌∙◌, refl, sym, subst}
use mathlib.Core.Logic.{◌≢◌, inl, inr}
use mathlib.Core.Bool.{Bool, true, false, false≢true}
use mathlib.Core.List.{List, [], ◌∷◌}
use mathlib.Core.Option.{Option, none, some}
use telekom_k8s_breakglass.Prelude.Tests.{if◌then◌else◌, Bool-cases, some-eq}
use telekom_k8s_breakglass.Prelude.Lists.{All}
use telekom_k8s_breakglass.Prelude.Text.{Str, str_eq, str_eq_refl, str_eq_iff, str_eq-false_iff}

abbrev pub StrMap {ℓ} : Type ℓ → Type ℓ
StrMap A = List (Str × A)

module _ {ℓ} {A : Type ℓ} where
  -- `v, ok := m[k]`
  unfoldable pub look_up : StrMap A → Str → Option A
  look_up [] k = none
  look_up ((j, v) ∷ m) k = let rest = look_up m k in if str_eq j k then some v else rest

  -- `m[k] = v`
  unfoldable pub set_at : Str → A → StrMap A → StrMap A
  set_at k v [] = (k, v) ∷ []
  set_at k v ((j, u) ∷ m) =
      let rest = set_at k v m in if str_eq j k then (k, v) ∷ m else (j, u) ∷ rest

  -- `delete(m, k)` for every key that the test picks.
  pub delete_keys : (Str → Bool) → StrMap A → StrMap A
  delete_keys p [] = []
  delete_keys p ((j, v) ∷ m) = let rest = delete_keys p m in if p j then rest else (j, v) ∷ rest

  pub look_up-set_at : (k : Str) (v : A) (m : StrMap A) → look_up (set_at k v m) k ≡ some v
  unfolding look_up set_at
  look_up-set_at k v [] = rw (str_eq_refl k)
  look_up-set_at k v ((j, u) ∷ m) = elim (Bool-cases (str_eq j k)) [
    | inl e ↦ rw (e, str_eq_refl k)
    | inr e ↦ rw (e, e) (look_up-set_at k v m)
  ]

  pub look_up-set_at_other :
      (k l : Str) (v : A) (m : StrMap A) → k ≢ l → look_up (set_at k v m) l ≡ look_up m l
  unfolding look_up set_at
  look_up-set_at_other k l v [] ne = rw ((str_eq-false_iff k l).1 ne)
  look_up-set_at_other k l v ((j, u) ∷ m) ne = elim (Bool-cases (str_eq j k)) [
    | inl e ↦ rw (
      e,
      (str_eq-false_iff k l).1 ne,
      (str_eq-false_iff j l).1 (λ q. ne (sym ((str_eq_iff j k).0 e) ∙ q)),
    )
    | inr e ↦ rw (e, look_up-set_at_other k l v m ne)
  ]

  pub look_up-delete_keys :
      (p : Str → Bool) (k : Str) (m : StrMap A) → p k ≡ true → look_up (delete_keys p m) k ≡ none
  unfolding look_up delete_keys
  look_up-delete_keys p k [] h = refl
  look_up-delete_keys p k ((j, v) ∷ m) h = elim (Bool-cases (p j)) [
    | inl e ↦ rw e (look_up-delete_keys p k m h)
    | inr e ↦
        rw (e, (str_eq-false_iff j k).1 (λ q. false≢true (sym e ∙ rw (← q) at h)))
          (look_up-delete_keys p k m h)
  ]

  pub look_up-delete_keys_other :
      (p : Str → Bool) (k : Str) (m : StrMap A)
      → p k ≡ false
      → look_up (delete_keys p m) k ≡ look_up m k
  unfolding look_up delete_keys
  look_up-delete_keys_other p k [] h = refl
  look_up-delete_keys_other p k ((j, v) ∷ m) h = elim (Bool-cases (p j)) [
    | inl e ↦
        rw (e, (str_eq-false_iff j k).1 (λ q. false≢true (sym h ∙ rw q at e)))
          (look_up-delete_keys_other p k m h)
    | inr e ↦ rw (e, look_up-delete_keys_other p k m h)
  ]

-- What holds of every entry.
module _ {ℓ κ} {A : Type ℓ} (P : Str × A → Type κ) where
  pub All-set_at : (k : Str) (v : A) (m : StrMap A) → P (k, v) → All P m → All P (set_at k v m)
  unfolding set_at
  All-set_at k v [] p a = (p, tt)
  All-set_at k v ((j, u) ∷ m) p (b, a) = elim (Bool-cases (str_eq j k)) [
    | inl e ↦ rw e (p, a)
    | inr e ↦ rw e (b, All-set_at k v m p a)
  ]

  pub All-delete_keys : (q : Str → Bool) (m : StrMap A) → All P m → All P (delete_keys q m)
  unfolding delete_keys
  All-delete_keys q [] a = tt
  All-delete_keys q ((j, u) ∷ m) (b, a) = elim (Bool-cases (q j)) [
    | inl e ↦ rw e (All-delete_keys q m a)
    | inr e ↦ rw e (b, All-delete_keys q m a)
  ]

  pub All-look_up : {k : Str} {v : A} (m : StrMap A) → look_up m k ≡ some v → All P m → P (k, v)
  unfolding look_up
  All-look_up [] h a = absurd (none-ne-some h)
    where
      none-ne-some : {w : A} → none ≢ some w
      none-ne-some q = cc
  All-look_up {k} {v} ((j, u) ∷ m) h (b, a) = elim (Bool-cases (str_eq j k)) [
    | inr e ↦ All-look_up m (rw e at h) a
    | inl e ↦
        subst (λ w. P (k, w)) (some-eq (rw e at h)) (subst (λ i. P (i, u)) ((str_eq_iff j k).0 e) b)
  ]
