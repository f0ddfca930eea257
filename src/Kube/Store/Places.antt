-- ===== src/Kube/Store/Places.antt =====
-- Places in lists: the sessions before and after one, their names, and what searches find there.
use telekom_k8s_breakglass.Prelude.{
  Bool, true, List, [], ◌∷◌, ◌++◌, Str, map, keep, find, In, here, there, In-cons, not_In-nil,
  map-of_In, AllDistinct, none, some, ◌≡◌, ◌≢◌, ◌⊎◌, inl, inr, refl, ap, sym, ◌∙◌, Bool-cases,
}
use telekom_k8s_breakglass.Api.Session.{Session}

abbrev pub names : List Session → List Str
names ss = map (λ s. s.name) ss

pub middle_names :
    (p q : List Session) (t s : Session) → s.name ≡ t.name → names (p ++ s ∷ q) ≡ names (p ++ t ∷ q)
middle_names [] q t s e = ap (λ n. n ∷ names q) e
middle_names (x ∷ p) q t s e = ap (λ ns. x.name ∷ ns) (middle_names p q t s e)

pub In-middle : (p q : List Session) (t : Session) → In t (p ++ t ∷ q)
In-middle [] q t = here refl
In-middle (x ∷ p) q t = there (In-middle p q t)

pub unique_name :
    {s t : Session} (xs : List Session)
    → AllDistinct (names xs)
    → In s xs
    → In t xs
    → s.name ≡ t.name
    → s ≡ t
unique_name [] d m n e = not_In-nil m
unique_name {s} {t} (x ∷ xs) d m n e = elim (In-cons m) [
  | inl p ↦ elim (In-cons n) [
    | inl q ↦ sym p ∙ q
    | inr k ↦ absurd (d.0 (rw (p, e) (map-of_In (λ (s : Session). s.name) xs k)))
  ]
  | inr l ↦ elim (In-cons n) [
    | inl q ↦ absurd (d.0 (rw (q, ← e) (map-of_In (λ (s : Session). s.name) xs l)))
    | inr k ↦ unique_name xs d.1 l k e
  ]
]

pub In-split {ℓ} :
    {A : Type ℓ} {x : A} (xs : List A) → In x xs → (p : List A) × (q : List A) × (xs ≡ p ++ x ∷ q)
In-split [] m = not_In-nil m
In-split (y ∷ ys) m = elim (In-cons m) [
  | inl e ↦ ([], ys, ap (λ z. z ∷ ys) e)
  | inr n ↦ let (p, q, e) = In-split ys n in (y ∷ p, q, ap (λ zs. y ∷ zs) e)
]

In-names-without :
    (p q : List Session) (t : Session) {n : Str} → In n (names (p ++ q)) → In n (names (p ++ t ∷ q))
In-names-without [] q t m = there m
In-names-without (x ∷ p) q t m = elim (In-cons m) [
  | inl e ↦ here e
  | inr k ↦ there (In-names-without p q t k)
]

pub AllDistinct-without :
    (p q : List Session) (t : Session)
    → AllDistinct (names (p ++ t ∷ q))
    → AllDistinct (names (p ++ q))
AllDistinct-without [] q t d = d.1
AllDistinct-without (x ∷ p) q t (n, d) =
    (λ m. n (In-names-without p q t m), AllDistinct-without p q t d)

In-names-append :
    (p q : List Session) (s : Session) {n : Str}
    → In n (names (p ++ s ∷ q))
    → (n ≡ s.name) ⊎ In n (names (p ++ q))
In-names-append [] q s m = elim (In-cons m) [ inl e ↦ inl (sym e) | inr k ↦ inr k ]
In-names-append (x ∷ p) q s m = elim (In-cons m) [
  | inl e ↦ inr (here e)
  | inr k ↦ elim (In-names-append p q s k) [ inl e ↦ inl e | inr l ↦ inr (there l) ]
]

pub In-middle-cases :
    (p q : List Session) (t : Session) {s : Session} → In s (p ++ t ∷ q) → (s ≡ t) ⊎ In s (p ++ q)
In-middle-cases [] q t m = elim (In-cons m) [ inl e ↦ inl (sym e) | inr k ↦ inr k ]
In-middle-cases (x ∷ p) q t m = elim (In-cons m) [
  | inl e ↦ inr (here e)
  | inr k ↦ elim (In-middle-cases p q t k) [ inl e ↦ inl e | inr l ↦ inr (there l) ]
]

pub AllDistinct-with :
    (p q : List Session) (s : Session)
    → AllDistinct (names (p ++ q))
    → ¬ In s.name (names (p ++ q))
    → AllDistinct (names (p ++ s ∷ q))
AllDistinct-with [] q s d n = (n, d)
AllDistinct-with (x ∷ p) q s (k, d) n = (
  λ m. elim (In-names-append p q s m) [ inl e ↦ n (here e) | inr l ↦ k l ],
  AllDistinct-with p q s d (λ m. n (there m)),
)

pub keep-append {ℓ} :
    {A : Type ℓ} (f : A → Bool) (xs ys : List A) → keep f (xs ++ ys) ≡ keep f xs ++ keep f ys
unfolding keep
keep-append f [] ys = refl
keep-append f (x ∷ xs) ys = elim (Bool-cases (f x)) [
  | inl e ↦ rw (e, keep-append f xs ys) refl
  | inr e ↦ rw (e, keep-append f xs ys) refl
]

pub keep-cons {ℓ} :
    {A : Type ℓ} (f : A → Bool) (x : A) (xs : List A) → f x ≡ true → keep f (x ∷ xs) ≡ x ∷ keep f xs
unfolding keep
keep-cons f x xs e = rw e

-- The first element that passes stands behind those that do not.
pub find-middle {ℓ} :
    {A : Type ℓ} (f : A → Bool) (xs ys : List A) (x : A)
    → find f (xs ++ ys) ≡ none
    → f x ≡ true
    → find f (xs ++ x ∷ ys) ≡ some x
unfolding find
find-middle f [] ys x h t = rw t refl
find-middle f (z ∷ xs) ys x h t = elim (Bool-cases (f z)) [
  | inl e ↦ absurd (none-ne-some (rw e at h))
  | inr e ↦ rw e (find-middle f xs ys x (rw e at h) t)
]
  where
    none-ne-some : {A : Type ℓ} {a : A} → some a ≢ none
    none-ne-some q = cc

pub AllDistinct-keep :
    (f : Session → Bool) (ss : List Session)
    → AllDistinct (names ss)
    → AllDistinct (names (keep f ss))
unfolding keep
AllDistinct-keep f [] d = tt
AllDistinct-keep f (s ∷ ss) (n, d) = elim (Bool-cases (f s)) [
  | inr e ↦ rw e (AllDistinct-keep f ss d)
  | inl e ↦ rw e (λ m. n (kept ss m), AllDistinct-keep f ss d)
]
  where
    kept : (ss : List Session) {k : Str} → In k (names (keep f ss)) → In k (names ss)
    kept [] m = m
    kept (x ∷ xs) m = elim (Bool-cases (f x)) [
      | inr e ↦ there (kept xs (rw e at m))
      | inl e ↦ elim (In-cons (rw e at m)) [ inl q ↦ here q | inr k ↦ there (kept xs k) ]
    ]
