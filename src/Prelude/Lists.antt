-- ===== src/Prelude/Lists.antt =====
-- Lists over the native numbers: loops that search, filter and drop, and what they establish.
use Prim.Native.Nat.{ℕ, zero, suc, ◌+◌, ◌≤◌}
use mathlib.Core.Path.{◌≡◌, ◌∙◌, refl, sym, ap, subst}
use mathlib.Core.Logic.{◌⊎◌, ◌↔◌, ◌≢◌, inl, inr}
use mathlib.Core.Bool.{Bool, true, false, ◌&&◌, ◌||◌, not, false≢true}
use mathlib.Core.List.{List, [], ◌∷◌, ◌++◌, map}
use mathlib.Core.Option.{Option, none, some}
use native.Mathlib.Omega.{arith}
use telekom_k8s_breakglass.Prelude.Tests.{if◌then◌else◌, Bool-cases, Option-cases, some-eq}

module _ {ℓ} {A : Type ℓ} where
  abbrev pub length : List A → ℕ
  length [] = 0
  length (x ∷ xs) = suc (length xs)

  abbrev pub is_empty : List A → Bool
  is_empty [] = true
  is_empty (x ∷ xs) = false

  abbrev pub take : ℕ → List A → List A
  take zero xs = []
  take (suc n) [] = []
  take (suc n) (x ∷ xs) = x ∷ take n xs

  pub length-append : (xs ys : List A) → length (xs ++ ys) ≡ length xs + length ys
  length-append [] ys = omega arith
  length-append (x ∷ xs) ys = omega (arith, length-append xs ys)

  pub length-take-le : (n : ℕ) (xs : List A) → length (take n xs) ≤ n
  length-take-le zero xs = omega arith
  length-take-le (suc n) [] = omega arith
  length-take-le (suc n) (x ∷ xs) = omega (arith, length-take-le n xs)

  -- `any p xs`: some element passes the test.
  abbrev pub any : (A → Bool) → List A → Bool
  any p [] = false
  any p (x ∷ xs) = p x || any p xs

  abbrev pub all : (A → Bool) → List A → Bool
  all p [] = true
  all p (x ∷ xs) = p x && all p xs

  -- A loop that appends the elements that pass.
  unfoldable pub keep : (A → Bool) → List A → List A
  keep p [] = []
  keep p (x ∷ xs) = let rest = keep p xs in if p x then x ∷ rest else rest

  unfoldable pub find : (A → Bool) → List A → Option A
  find p [] = none
  find p (x ∷ xs) = let rest = find p xs in if p x then some x else rest

  -- Membership by recursion, with the position kept.
  pub data In (a : A) : List A → Type ℓ where
    here : {x : A} {xs : List A} → x ≡ a → In a (x ∷ xs)
    there : {x : A} {xs : List A} → In a xs → In a (x ∷ xs)

module _ {ℓ} {A : Type ℓ} where
  -- No element occurs twice.
  abbrev pub AllDistinct : List A → Type ℓ
  AllDistinct [] = Unit
  AllDistinct (x ∷ xs) = ¬ In x xs × AllDistinct xs

  pub In-cons : {a x : A} {xs : List A} → In a (x ∷ xs) → (x ≡ a) ⊎ In a xs
  In-cons (here e) = inl e
  In-cons (there m) = inr m

  pub In-cast : {a b : A} {xs : List A} → a ≡ b → In a xs → In b xs
  In-cast {xs = xs} e m = subst (λ x. In x xs) e m

  pub not_In-nil {κ} : {P : Type κ} {a : A} → In a [] → P
  not_In-nil m = elim m [ ]

  pub In-append : {a : A} (xs ys : List A) → In a (xs ++ ys) → In a xs ⊎ In a ys
  In-append [] ys m = inr m
  In-append (x ∷ xs) ys m = elim (In-cons m) [
    | inl e ↦ inl (here e)
    | inr n ↦ elim (In-append xs ys n) [ inl k ↦ inl (there k) | inr k ↦ inr k ]
  ]

  pub append-of_In : {a : A} (xs ys : List A) → In a xs → In a (xs ++ ys)
  append-of_In (x ∷ xs) ys (here e) = here e
  append-of_In (x ∷ xs) ys (there m) = there (append-of_In xs ys m)
  append-of_In [] ys m = not_In-nil m

  pub append-of_In_right : {a : A} (xs ys : List A) → In a ys → In a (xs ++ ys)
  append-of_In_right [] ys m = m
  append-of_In_right (x ∷ xs) ys m = there (append-of_In_right xs ys m)

module _ {ℓ κ} {A : Type ℓ} (P : A → Type κ) where
  -- Every element satisfies `P`.
  abbrev pub All : List A → Type κ
  All [] = Unit
  All (x ∷ xs) = P x × All xs

  pub All-at : {a : A} (xs : List A) → All xs → In a xs → P a
  All-at [] all m = not_In-nil m
  All-at (x ∷ xs) (p, all) (here e) = subst P e p
  All-at (x ∷ xs) (p, all) (there m) = All-at xs all m

module _ {ℓ} {A : Type ℓ} (p : A → Bool) where
  pub any-witness : (xs : List A) → any p xs ≡ true → (x : A) × In x xs × (p x ≡ true)
  any-witness [] h = elim (false≢true h) [ ]
  any-witness (x ∷ xs) h = elim (Bool-cases (p x)) [
    | inl e ↦ (x, here refl, e)
    | inr e ↦ let (y, m, q) = any-witness xs (rw e at h) in (y, there m, q)
  ]

  pub any-of_In : {a : A} (xs : List A) → In a xs → p a ≡ true → any p xs ≡ true
  any-of_In [] m h = not_In-nil m
  any-of_In (x ∷ xs) (here e) h = rw (e, h)
  any-of_In (x ∷ xs) (there m) h = ground (arith, any-of_In xs m h)

  pub In-keep : {a : A} (xs : List A) → In a (keep p xs) → In a xs × (p a ≡ true)
  unfolding keep
  In-keep [] m = not_In-nil m
  In-keep (x ∷ xs) m = elim (Bool-cases (p x)) [
    | inl e ↦ elim (In-cons (rw e at m)) [
      | inl q ↦ (here q, rw (← q) e)
      | inr n ↦ let (k, q) = In-keep xs n in (there k, q)
    ]
    | inr e ↦ let (k, q) = In-keep xs (rw e at m) in (there k, q)
  ]

  pub keep-of_In : {a : A} (xs : List A) → In a xs → p a ≡ true → In a (keep p xs)
  unfolding keep
  keep-of_In [] m h = not_In-nil m
  keep-of_In (x ∷ xs) (here e) h = rw (e, h) (here refl)
  keep-of_In (x ∷ xs) (there m) h = elim (Bool-cases (p x)) [
    | inl e ↦ rw e (there (keep-of_In xs m h))
    | inr e ↦ rw e (keep-of_In xs m h)
  ]

  pub keep-eq-nil : (xs : List A) → ((x : A) → p x ≡ false) → keep p xs ≡ []
  unfolding keep
  keep-eq-nil [] h = refl
  keep-eq-nil (x ∷ xs) h = rw (h x) (keep-eq-nil xs h)

module _ {ℓ} {A : Type ℓ} (p : A → Bool) where
  pub find-In : {a : A} (xs : List A) → find p xs ≡ some a → In a xs × (p a ≡ true)
  unfolding find
  find-In [] h = absurd (none-ne-some h)
    where
      none-ne-some : {a : A} → none ≢ some a
      none-ne-some q = cc
  find-In (x ∷ xs) h = elim (Bool-cases (p x)) [
    | inl e ↦ let q = some-eq (rw e at h) in (here q, rw (← q) e)
    | inr e ↦ let (m, t) = find-In xs (rw e at h) in (there m, t)
  ]

  pub find-of_In : {a : A} (xs : List A) → In a xs → p a ≡ true → (b : A) × (find p xs ≡ some b)
  unfolding find
  find-of_In [] m t = not_In-nil m
  find-of_In (x ∷ xs) m t = elim (Bool-cases (p x)) [
    | inl e ↦ (x, rw e refl)
    | inr e ↦ elim (In-cons m) [
      | inl q ↦ absurd (false≢true (sym e ∙ rw (← q) at t))
      | inr n ↦ let (b, f) = find-of_In xs n t in (b, rw (e, f) refl)
    ]
  ]

  -- The search fails exactly where no element passes.
  pub find-none_iff : (xs : List A) → (find p xs ≡ none) ↔ ((a : A) → In a xs → p a ≡ false)
  find-none_iff xs = (
    λ h a m. elim (Bool-cases (p a)) [
      | inr e ↦ e
      | inl e ↦ let (b, f) = find-of_In xs m e in absurd (none-ne-some (sym h ∙ f))
    ],
    λ h. elim (Option-cases (find p xs)) [
      | inl e ↦ e
      | inr (a, e) ↦ let (m, t) = find-In xs e in absurd (false≢true (sym (h a m) ∙ t))
    ],
  )
    where
      none-ne-some : {a : A} → none ≢ some a
      none-ne-some q = cc

module _ {ℓ κ} {A : Type ℓ} {P : A → Type κ} (p : A → Bool)
    (decides : (a : A) → (p a ≡ true) ↔ P a) where
  -- What the filter keeps, by what its test decides.
  pub keep_iff : (xs : List A) (a : A) → In a (keep p xs) ↔ (In a xs × P a)
  keep_iff xs a = (
    λ m. let (n, t) = In-keep p xs m in (n, (decides a).0 t),
    λ (n, t). keep-of_In p xs n ((decides a).1 t),
  )

  pub any_iff : (xs : List A) → (any p xs ≡ true) ↔ ((a : A) × In a xs × P a)
  any_iff xs = (
    λ h. let (a, m, t) = any-witness p xs h in (a, m, (decides a).0 t),
    λ (a, m, t). any-of_In p xs m ((decides a).1 t),
  )

-- What the guard `len(ss) > 0 && !b` lets pass: it has nothing to check, or `b` holds.
pub guard_iff {ℓ κ} :
    {A : Type ℓ} {P : Type κ} (ss : List A) (b : Bool)
    → (b ≡ true) ↔ P
    → ((not (is_empty ss) && not b) ≡ false) ↔ ((ss ≡ []) ⊎ P)
guard_iff [] b e = (λ _. inl refl, λ _. refl)
guard_iff (s ∷ ss) true e = (λ _. inr (e.0 refl), λ _. refl)
guard_iff {P} (s ∷ ss) false e = (λ h. cc, back)
  where
    back : ((s ∷ ss) ≡ []) ⊎ P → true ≡ false
    back (inl q) = cc
    back (inr p) = sym (e.1 p)

module _ {ℓ κ} {A : Type ℓ} {B : Type κ} (f : A → B) where
  pub In-map : {b : B} (xs : List A) → In b (map f xs) → (a : A) × In a xs × (f a ≡ b)
  In-map [] m = not_In-nil m
  In-map (x ∷ xs) m = elim (In-cons m) [
    | inl e ↦ (x, here refl, e)
    | inr n ↦ let (a, k, e) = In-map xs n in (a, there k, e)
  ]

  pub map-of_In : {a : A} (xs : List A) → In a xs → In (f a) (map f xs)
  map-of_In [] m = not_In-nil m
  map-of_In (x ∷ xs) (here e) = here (ap f e)
  map-of_In (x ∷ xs) (there m) = there (map-of_In xs m)
